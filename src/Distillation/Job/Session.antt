-- ===== src/Distillation/Job/Session.antt =====
-- A job that fetches and ingests, round after round: what the client proposes is never refused by
-- the replay, and the two cursors move together.
use py_rl_trainer.Prelude.{◌≤◌, ◌≡◌, sym, ◌∙◌, inl, inr, Bool, some, arith, ok, err, Result-cases}
use py_rl_trainer.Wire.{Value}
use py_rl_trainer.Distillation.Transport.{Checked, ContractError}
use py_rl_trainer.Distillation.Hashing.{Sha256}
use py_rl_trainer.Distillation.Client.{DistillationFetch, DistillationClient}
use py_rl_trainer.Distillation.Client.Descriptor.{WireLimits}
use py_rl_trainer.Distillation.Client.Fetch.{Answers, fetch}
use py_rl_trainer.Distillation.Replay.{TeacherReplay, new_replay, admit}
use py_rl_trainer.Distillation.Replay.Planning.{AllFit}
use py_rl_trainer.Distillation.Replay.Reach.{new_replay-empty, created, Reach-IsSound}
use py_rl_trainer.Distillation.Handover.Admitted.{fetch_admitted}
use py_rl_trainer.Distillation.Job.{ingest}
use py_rl_trainer.Distillation.Job.Round.{
  IsAgreed, IsAfter, fetch_keeps, Precedes_trans, ingest_refused, ingest_admitted,
}

-- The jobs that rounds of fetching and ingesting lead to, from a new client and a new replay. A
-- fetch that raises ends its round; whatever `ingest` answers, the job goes on.
pub data Session (sha : Sha256) (limits : WireLimits)
    : DistillationClient → TeacherReplay → Type 0 where
  opened :
      (c : DistillationClient) {r : TeacherReplay} (max_bytes max_chunks : Value)
      → c.cursor ≡ 0
      → c.page_size ≤ 256
      → new_replay max_bytes max_chunks ≡ ok r
      → Session sha limits c r
  failed :
      {c after : DistillationClient} {r : TeacherReplay} {x : ContractError}
      → Session sha limits c r
      → (answers : Answers) → fetch sha limits c answers ≡ (err x, after)
      → Session sha limits after r
  ingested :
      {c after c' : DistillationClient} {r r' : TeacherReplay} {f : DistillationFetch}
      {result : Checked Bool}
      → Session sha limits c r
      → (answers : Answers) → fetch sha limits c answers ≡ (ok f, after)
      → ingest sha (record { client = some after; replay = r }) f
        ≡ (result, record { client = some c'; replay = r' })
      → Session sha limits c' r'

opened-IsAgreed :
    (sha : Sha256) (c : DistillationClient) {r : TeacherReplay} (max_bytes max_chunks : Value)
    → c.cursor ≡ 0
    → c.page_size ≤ 256
    → new_replay max_bytes max_chunks ≡ ok r
    → IsAgreed sha c r
opened-IsAgreed sha c {r} max_bytes max_chunks start page h =
    let (empty, unbound) = new_replay-empty max_bytes max_chunks h in
    record {
      reach = created max_bytes max_chunks h;
      cursors = empty ∙ sym start;
      manifests = rw unbound tt;
      page = page;
    }

kept-IsAgreed :
    (sha : Sha256) (c after : DistillationClient) (r : TeacherReplay)
    → IsAgreed sha c r
    → IsAfter c after
    → IsAgreed sha after r
kept-IsAgreed sha c after r agreed kept = record {
  reach = agreed.reach;
  cursors = agreed.cursors ∙ sym kept.cursor;
  manifests = Precedes_trans r.manifest c.manifest after.manifest agreed.manifests kept.manifest;
  page = omega (arith, agreed.page, kept.page_size);
}

-- In every session the replay is one that admissions have built, its cursor is the client's, and
-- the client's manifest is of the replay's dataset with no lower watermark.
pub Session-IsAgreed :
    {sha : Sha256} {limits : WireLimits} {c : DistillationClient} {r : TeacherReplay}
    → Session sha limits c r
    → IsAgreed sha c r
Session-IsAgreed {sha} (opened c max_bytes max_chunks start page h) =
    opened-IsAgreed sha c max_bytes max_chunks start page h
Session-IsAgreed {sha} {limits} (failed {c = c} {after = after} {r = r} session answers h) =
    kept-IsAgreed sha c after r (Session-IsAgreed session) (fetch_keeps sha limits c answers h)
Session-IsAgreed {sha} {limits}
      (ingested {c = c} {after = after} {c' = c'} {r = r} {r' = r'} {f = f} session answers h
        done) =
    let agreed = Session-IsAgreed session in
    elim (Result-cases (admit sha r f)) [
      | inr (x, refused) ↦
          let same = sym (ingest_refused sha limits c answers r f agreed h refused) ∙ done in
          let left : after ≡ c' = ground (arith, same) in
          let right : r ≡ r' = ground (arith, same) in
          rw (← left, ← right)
            (kept-IsAgreed sha c after r agreed (fetch_keeps sha limits c answers h))
      | inl ((fresh, r2), passed) ↦
          let (c2, answer, moved, now) = ingest_admitted sha limits c answers r f agreed h passed in
          let same = sym answer ∙ done in
          let left : c2 ≡ c' = ground (arith, same) in
          let right : r2 ≡ r' = ground (arith, same) in rw (← left, ← right) now
    ]

-- In every session, whatever the server answers: when `fetch` returns a proposal, and each of its
-- chunks alone fits the replay's byte ceiling, `ingest` returns too. Neither the replay nor the
-- client's commit refuses it, and both cursors then stand at the proposal's end.
pub Session-ingests :
    {sha : Sha256} {limits : WireLimits} {c : DistillationClient} {r : TeacherReplay}
    (answers : Answers) (f : DistillationFetch) {after : DistillationClient}
    → Session sha limits c r
    → fetch sha limits c answers ≡ (ok f, after)
    → AllFit r.max_bytes f.chunks
    → (fresh : Bool) × (c' : DistillationClient) × (r' : TeacherReplay) × (ingest sha
          (record { client = some after; replay = r })
          f
        ≡ (ok fresh, record { client = some c'; replay = r' }))
      × (c'.cursor ≡ f.next_cursor)
      × (r'.cursor ≡ f.next_cursor)
Session-ingests {sha} {limits} {c} {r} answers f session h fit =
    let agreed = Session-IsAgreed session in
    let (fresh, r', passed, taken) =
      fetch_admitted sha limits c answers r f h (Reach-IsSound agreed.reach) agreed.cursors
        agreed.manifests agreed.page fit in
    let (c', answer, moved, now) = ingest_admitted sha limits c answers r f agreed h passed in
    (fresh, c', r', answer, moved, now.cursors ∙ moved)
