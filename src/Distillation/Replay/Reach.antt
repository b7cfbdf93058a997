-- ===== src/Distillation/Replay/Reach.antt =====
-- The replays that the program can hold: a new one, and what admissions make of it.
use py_rl_trainer.Prelude.{◌≡◌, refl, Bool, ok, none, [], arith, Result-cases, inl, inr}
use py_rl_trainer.Wire.{Value}
use py_rl_trainer.Distillation.Transport.{integer}
use py_rl_trainer.Distillation.Transport.Bounds.{integer_bounds}
use py_rl_trainer.Distillation.Hashing.{Sha256}
use py_rl_trainer.Distillation.Client.{DistillationFetch}
use py_rl_trainer.Distillation.Replay.{
  TeacherReplay, new_replay, admit, min_replay_bytes, max_replay_bytes, replay_fixed_bytes,
}
use py_rl_trainer.Distillation.Replay.Admission.{IsSound, admit-IsSound}

pub data Reach (sha : Sha256) : TeacherReplay → Type 0 where
  created :
      {r : TeacherReplay} (max_bytes max_chunks : Value)
      → new_replay max_bytes max_chunks ≡ ok r
      → Reach sha r
  admitted :
      {r r' : TeacherReplay} {fresh : Bool}
      → Reach sha r
      → (f : DistillationFetch) → admit sha r f ≡ ok (fresh, r')
      → Reach sha r'

new_replay-IsSound :
    (max_bytes max_chunks : Value) {r : TeacherReplay}
    → new_replay max_bytes max_chunks ≡ ok r
    → IsSound r
unfolding new_replay
new_replay-IsSound max_bytes max_chunks {r} h =
    elim (Result-cases (integer max_bytes min_replay_bytes max_replay_bytes)) [
      | inr (x, e) ↦ ground arith
      | inl (bytes, e) ↦ elim (Result-cases (integer max_chunks 1 65536)) [
        | inr (y, k) ↦ ground arith
        | inl (objects, k) ↦
            let low = integer_bounds max_bytes min_replay_bytes max_replay_bytes e in
            let few = integer_bounds max_chunks 1 65536 k in
            let made : r ≡ record {
              max_bytes = bytes;
              max_chunks = objects;
              manifest = none;
              cursor = 0;
              owned_bytes = replay_fixed_bytes;
              evicted_chunks = 0;
              evicted_samples = 0;
              chunks = [];
              last_proposal = none;
            } =
              ground arith in
            rw made (record {
              bytes_low = low.0;
              bytes_high = low.1;
              objects_low = few.0;
              objects_high = few.1;
              counted = refl;
              fits = omega arith;
              few = omega arith;
              ordered = omega arith;
              bound = (refl, refl);
            })
      ]
    ]

-- Every replay that the constructor and any admissions, new or retried, lead to is sound.
pub Reach-IsSound : {sha : Sha256} {r : TeacherReplay} → Reach sha r → IsSound r
Reach-IsSound (created max_bytes max_chunks h) = new_replay-IsSound max_bytes max_chunks h
Reach-IsSound {sha} (admitted {r = before} reach f h) =
    admit-IsSound sha before f (Reach-IsSound reach) h

pub new_replay-last_proposal :
    (max_bytes max_chunks : Value) {r : TeacherReplay}
    → new_replay max_bytes max_chunks ≡ ok r
    → r.last_proposal ≡ none
unfolding new_replay
new_replay-last_proposal max_bytes max_chunks {r} h =
    elim (Result-cases (integer max_bytes min_replay_bytes max_replay_bytes)) [
      | inr (x, e) ↦ ground arith
      | inl (bytes, e) ↦ elim (Result-cases (integer max_chunks 1 65536)) [
        | inr (y, k) ↦ ground arith
        | inl (objects, k) ↦ ground arith
      ]
    ]

pub new_replay-empty :
    (max_bytes max_chunks : Value) {r : TeacherReplay}
    → new_replay max_bytes max_chunks ≡ ok r
    → (r.cursor ≡ 0) × (r.manifest ≡ none)
unfolding new_replay
new_replay-empty max_bytes max_chunks {r} h =
    elim (Result-cases (integer max_bytes min_replay_bytes max_replay_bytes)) [
      | inr (x, e) ↦ ground arith
      | inl (bytes, e) ↦ elim (Result-cases (integer max_chunks 1 65536)) [
        | inr (y, k) ↦ ground arith
        | inl (objects, k) ↦ ground arith
      ]
    ]
