-- ===== src/Distillation/Hashing.antt =====
-- `hashlib.sha256` of Python's library, as a parameter: its digest of a byte string.
pub mod Digest
use py_rl_trainer.Prelude.{ℕ, ◌<◌, ◌≡◌, List, [], ◌∷◌, ◌++◌, length}
use py_rl_trainer.Wire.Str.{Text}
use py_rl_trainer.Wire.Hex.{hex_pad}

abbrev pub Bytes : Type 0
Bytes = List ℕ

abbrev pub AllBytes : Bytes → Type 0
AllBytes [] = Unit
AllBytes (b ∷ bs) = (b < 256) × AllBytes bs

-- What the code relies on: a digest is 32 bytes.
pub record Sha256 : Type 0 where
  pub digest : Bytes → Bytes
  pub digest_length : (data_bytes : Bytes) → length (digest data_bytes) ≡ 32
  pub digest_bytes : (data_bytes : Bytes) → AllBytes (digest data_bytes)

unfoldable pub hex_bytes : Bytes → Text
hex_bytes [] = []
hex_bytes (b ∷ bs) = hex_pad 2 b ++ hex_bytes bs

-- `hashlib.sha256(data).hexdigest()`
unfoldable pub hexdigest : Sha256 → Bytes → Text
unfolding hex_bytes
hexdigest sha data_bytes = hex_bytes (sha.digest data_bytes)
