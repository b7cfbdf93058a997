-- ===== src/Distillation/Replay/Dispositions.antt =====
-- Every sequence number of an admitted proposal has one disposition.
use py_rl_trainer.Prelude.{ℕ, ◌+◌, ◌≤◌, ◌<◌, ◌≡◌, sym, ◌∙◌, Bool, List, [], ◌∷◌, ◌++◌, arith, ok}
use py_rl_trainer.Distillation.Transport.{TeacherChunk}
use py_rl_trainer.Distillation.Hashing.{Sha256}
use py_rl_trainer.Distillation.Intervals.{Interval, sorted}
use py_rl_trainer.Distillation.Intervals.Coverage.{
  times, AllForward, times-append, times-sorted, sorted-AllForward, cover-times,
}
use py_rl_trainer.Distillation.Client.{DistillationFetch}
use py_rl_trainer.Distillation.Replay.{TeacherReplay, chunk_intervals, admit}
use py_rl_trainer.Distillation.Replay.Validation.{AllWithin}
use py_rl_trainer.Distillation.Replay.Admission.{IsSound, staged}

intervals-AllForward :
    (start next : ℕ) (chunks : List TeacherChunk) (gaps : List Interval)
    → AllWithin start next gaps
    → AllForward (chunk_intervals chunks ++ gaps)
unfolding chunk_intervals
intervals-AllForward start next [] [] h = tt
intervals-AllForward start next [] ((low, high) ∷ rest) h =
    (h.1, intervals-AllForward start next [] rest h.3)
intervals-AllForward start next (chunk ∷ rest) gaps h =
    (omega arith, intervals-AllForward start next rest gaps h)

-- In a proposal that a sound replay admits, every sequence number after the start cursor and up to
-- the next cursor is disposed of exactly once: it is the number of one chunk and lies in no gap,
-- or it is no chunk's and lies in one gap.
pub admit_disposes :
    (sha : Sha256) (r : TeacherReplay) (f : DistillationFetch) {fresh : Bool} {r' : TeacherReplay}
    → IsSound r
    → admit sha r f ≡ ok (fresh, r')
    → (n : ℕ) → f.start_cursor < n
    → n ≤ f.next_cursor
    → times n (chunk_intervals f.chunks) + times n f.gaps ≡ 1
admit_disposes sha r f s h n lo hi =
    let (identity, st, how) = staged sha r f s h in
    let all = chunk_intervals f.chunks ++ f.gaps in
    let forward : AllForward all =
      intervals-AllForward f.start_cursor f.next_cursor f.chunks f.gaps st.within in
    sym (times-append n (chunk_intervals f.chunks) f.gaps)
    ∙ sym (times-sorted n all)
    ∙ cover-times n f.start_cursor f.next_cursor (sorted all) (sorted-AllForward all forward)
        st.covered lo hi
