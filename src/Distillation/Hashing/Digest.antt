-- ===== src/Distillation/Hashing/Digest.antt =====
-- A hexadecimal digest is an identity of 64 digits.
use py_rl_trainer.Prelude.{◌*◌, ◌≡◌, refl, true, [], ◌∷◌, arith, length, length-append}
use py_rl_trainer.Wire.Hex.{all_hex, matches_hex, hex_pad}
use py_rl_trainer.Wire.Hex.Laws.{length-hex_pad, all_hex-hex_pad, all_hex-append}
use py_rl_trainer.Distillation.Hashing.{Bytes, AllBytes, Sha256, hex_bytes, hexdigest}

length-hex_bytes : (bs : Bytes) → AllBytes bs → length (hex_bytes bs) ≡ 2 * length bs
unfolding hex_bytes
length-hex_bytes [] h = refl
length-hex_bytes (b ∷ bs) h = omega (
  arith,
  length-append (hex_pad 2 b) (hex_bytes bs),
  length-hex_pad 2 b (omega arith),
  length-hex_bytes bs h.1,
)

all_hex-hex_bytes : (bs : Bytes) → AllBytes bs → all_hex (hex_bytes bs) ≡ true
unfolding hex_bytes all_hex
all_hex-hex_bytes [] h = refl
all_hex-hex_bytes (b ∷ bs) h =
    all_hex-append (hex_pad 2 b) (hex_bytes bs) (all_hex-hex_pad 2 b (omega arith))
      (all_hex-hex_bytes bs h.1)

pub hexdigest-matches_hex :
    (sha : Sha256) (data_bytes : Bytes) → matches_hex 64 (hexdigest sha data_bytes) ≡ true
unfolding hexdigest matches_hex
hexdigest-matches_hex sha data_bytes =
    let bytes = sha.digest_bytes data_bytes in
    let size = sha.digest_length data_bytes in
    ground (
      arith,
      length-hex_bytes (sha.digest data_bytes) bytes,
      all_hex-hex_bytes (sha.digest data_bytes) bytes,
    )
