-- ===== src/Distillation/Handover/Succession.antt =====
-- Manifests of one dataset, one after the other.
use py_rl_trainer.Prelude.{◌≡◌, true, Option, none, some, arith}
use py_rl_trainer.Distillation.Transport.{compatible, DatasetManifest}
use py_rl_trainer.Wire.Str.{text_eq_sound}
use py_rl_trainer.Distillation.Replay.Validation.{Extends, contract_eq_sound}

-- the second manifest, where there is a first, follows it
abbrev pub Precedes : Option DatasetManifest → Option DatasetManifest → Type 0
Precedes none next = Unit
Precedes (some old) none = ⊥
Precedes (some old) (some new) = Extends (some old) new

pub compatible_trans :
    (a b c : DatasetManifest)
    → compatible a b ≡ true
    → compatible b c ≡ true
    → compatible a c ≡ true
unfolding compatible
compatible_trans a b c h k =
    let first : a.contract ≡ b.contract = contract_eq_sound a.contract b.contract (ground arith) in
    let sensors : a.sensor_json ≡ b.sensor_json =
      text_eq_sound a.sensor_json b.sensor_json (ground arith) in
    rw (first, sensors) (ground arith)

pub Precedes-Extends :
    (old held : Option DatasetManifest) (next : DatasetManifest)
    → Precedes old held
    → Extends held next
    → Extends old next
Precedes-Extends none held next h k = tt
Precedes-Extends (some old) none next h k = absurd h
Precedes-Extends (some old) (some held) next h k =
    (compatible_trans old held next h.0 k.0, omega arith, omega arith, omega arith)
