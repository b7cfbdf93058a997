-- ===== src/Distillation/Job.antt =====
-- pyrl_trainer/distillation_job.py: `ingest`, where one proposal of the client becomes the replay's
-- and then moves the client's cursor.
pub mod Round
pub mod Session
mod Tests
use py_rl_trainer.Prelude.{
  ℕ, Bool, true, false, not, ◌&&◌, ◌||◌, Option, none, some, ok, err, ◌>>=◌, ◌==◌, if◌then◌else◌,
}
use py_rl_trainer.Wire.Str.{text_eq}
use py_rl_trainer.Distillation.Transport.{Checked, source_mismatch}
use py_rl_trainer.Distillation.Hashing.{Sha256}
use py_rl_trainer.Distillation.Client.{DistillationFetch, DistillationClient}
use py_rl_trainer.Distillation.Client.Fetch.{commit}
use py_rl_trainer.Distillation.Replay.{TeacherReplay, admit}

-- the two parts of a job that `ingest` touches
pub record DistillationJob : Type 0 where
  pub client : Option DistillationClient
  pub replay : TeacherReplay

-- `self.client is not None and (…)`
unfoldable pub is_foreign : Option DistillationClient → DistillationFetch → Bool
is_foreign none fetched = false
is_foreign (some client) fetched =
    not (fetched.start_cursor == client.cursor)
    || not (text_eq fetched.manifest.contract.capture_epoch client.capture_epoch)

-- `self.client.commit(fetched)`, after the replay has admitted it
unfoldable pub commit_client :
    Option DistillationClient
    → TeacherReplay
    → DistillationFetch
    → Bool
    → Checked Bool × DistillationJob
commit_client none replay fetched admitted =
    (ok admitted, record { client = none; replay = replay })
commit_client (some client) replay fetched admitted = elim (commit client fetched) [
  | err x ↦ (err x, record { client = some client; replay = replay })
  | ok moved ↦ (ok admitted, record { client = some moved.1; replay = replay })
]

-- `ingest`: its result, and the job after it. A raise of `commit` leaves the replay admitted.
unfoldable pub ingest :
    Sha256 → DistillationJob → DistillationFetch → Checked Bool × DistillationJob
unfolding is_foreign commit_client
ingest sha job fetched =
    if is_foreign job.client fetched
    then (err source_mismatch, job)
    else elim (admit sha job.replay fetched) [
      | err x ↦ (err x, job)
      | ok admitted ↦ commit_client job.client admitted.1 fetched admitted.0
    ]
