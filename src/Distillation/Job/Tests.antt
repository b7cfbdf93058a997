-- ===== src/Distillation/Job/Tests.antt =====
-- The first round of a job.
use py_rl_trainer.Prelude.{◌≡◌, refl, Bool, some, ok, arith}
use py_rl_trainer.Prelude.Int.{pos}
use py_rl_trainer.Wire.{int}
use py_rl_trainer.Distillation.Transport.{byte_cost}
use py_rl_trainer.Distillation.Client.{DistillationClient}
use py_rl_trainer.Distillation.Replay.{TeacherReplay, cost}
use py_rl_trainer.Distillation.Job.{ingest}
use py_rl_trainer.Distillation.Job.Round.{IsAfter, IsAgreed, fetch_keeps}
use py_rl_trainer.Distillation.Job.Session.{Session, opened, Session-IsAgreed, Session-ingests}
use py_rl_trainer.Distillation.Tests.{sha, manifest, empty_replay, proposal, new_replay_test}
use py_rl_trainer.Distillation.Handover.Tests.{limits, answers, client, fetch_test}

fetch_keeps_example : IsAfter client (record client { manifest = some manifest })
fetch_keeps_example = fetch_keeps sha limits client answers fetch_test

first-Session : Session sha limits client empty_replay
first-Session = opened client (int (pos 2097152)) (int (pos 1)) refl (omega arith) new_replay_test

Session-IsAgreed_example : IsAgreed sha client empty_replay
Session-IsAgreed_example = Session-IsAgreed first-Session

Session-ingests_example :
    (fresh : Bool) × (c' : DistillationClient) × (r' : TeacherReplay) × (ingest sha
        (record {
          client = some (record client { manifest = some manifest });
          replay = empty_replay;
        })
        proposal
      ≡ (ok fresh, record { client = some c'; replay = r' }))
    × (c'.cursor ≡ 4)
    × (r'.cursor ≡ 4)
unfolding cost byte_cost
Session-ingests_example =
    Session-ingests answers proposal first-Session fetch_test (omega arith, (omega arith, tt))
