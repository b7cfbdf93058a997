-- ===== src/Distillation/Replay/Taken.antt =====
-- What an admission leaves, new or retried.
use py_rl_trainer.Prelude.{◌+◌, ◌⊎◌, ◌≡◌, refl, inl, inr, Bool, false, some, ok, Bool-cases}
use py_rl_trainer.Distillation.Hashing.{Sha256}
use py_rl_trainer.Distillation.Client.{DistillationFetch}
use py_rl_trainer.Distillation.Replay.{TeacherReplay, settle, admit}
use py_rl_trainer.Distillation.Replay.Eviction.{total_samples}
use py_rl_trainer.Distillation.Replay.Admission.{IsSound, staged, admit-IsSound, admit_fifo}

-- the replay after it has admitted the proposal, with what it answered
pub record IsTaken (r : TeacherReplay) (f : DistillationFetch) (fresh : Bool) (r' : TeacherReplay)
    : Type 0 where
  pub sound : IsSound r'
  pub manifest : r'.manifest ≡ some f.manifest
  pub moved :
      (fresh ≡ false)
      ⊎ ((r'.cursor ≡ f.next_cursor)
          × (r'.evicted_samples + total_samples r'.chunks
              ≡ r.evicted_samples + total_samples r.chunks + total_samples f.chunks))

pub admit-IsTaken :
    (sha : Sha256) (r : TeacherReplay) (f : DistillationFetch) {fresh : Bool} {r' : TeacherReplay}
    → IsSound r
    → admit sha r f ≡ ok (fresh, r')
    → IsTaken r f fresh r'
admit-IsTaken sha r f {fresh} {r'} sound h =
    let (identity, st, how) = staged sha r f sound h in
    record {
      sound = admit-IsSound sha r f sound h;
      manifest = elim how [
        | inl retried ↦ rw retried.after refl
        | inr settled ↦ rw settled.after (unfold settle in refl)
      ];
      moved = elim (Bool-cases fresh) [
        | inl is_fresh ↦ let fifo = admit_fifo sha r f sound h is_fresh in inr (fifo.0, fifo.3)
        | inr again ↦ inl again
      ];
    }
