-- ===== src/Lib.antt =====
-- PyRL-trainer: the parts of the trainer that decide what is admitted, what is paid and what is learned.
--
-- The distillation consumer (pyrl_trainer/distillation_*.py) reads a server's durable dataset of
-- teacher chunks. `DistillationClient` (distillation_client.py) proposes a bounded page of settled
-- objects and gaps; `TeacherReplay` (distillation_replay.py) admits the proposal into a bounded FIFO
-- buffer and then the client commits its cursor; `ingest` (distillation_job.py) joins the two. The
-- records they exchange are those of distillation_transport.py. The reward contract
-- (reward_contract.py) validates each reward interval of a snake's life, admits the intervals of
-- one life in order, and weights them; an evaluation episode (evaluation.py) adds them up. An actor
-- (agent.py, sync_ppo.py) credits the weighted intervals to the decisions that it has sent and puts
-- its rollout on a queue; the learner (learner.py, sync_ppo.py) makes batches of one policy version,
-- updates the policy, and moves its collection epoch on.
--
-- Files, by the code that they follow:
--   Prelude: shared helpers. Prelude/Outcome has Python's exceptions as `Result`, with do blocks,
--     `guard` for `if not …: raise` and lemmas that take a call that returned apart.
--   Wire: values that `json.loads` leaves under a key, texts as code points, hexadecimal
--     identities (`re.fullmatch`, `int(s, 16)`, `f"{n:016x}"`), and binary64 by its bit pattern with
--     the arithmetic that the source uses (`+`, `-`, `*`, `float(int)`, `math.isclose`).
--   Distillation/Transport: `integer`, `hex_identity`, `TeacherContract`, `TeacherChunk`,
--     `DatasetManifest`. Distillation/Hashing: `hashlib.sha256(…).hexdigest()`, where the digest is a
--     parameter of which only its 32 bytes are known.
--   Distillation/Intervals: Python's `sorted` on pairs and the walk over them.
--   Distillation/Client: `TeacherDescriptor.from_object`, `_accept_manifest`, the stages of `fetch`,
--     and `commit`. What the server answers is an argument (`Answers`).
--   Distillation/Replay: `TeacherReplay`: `admit` in the stages `stage` (all checks), `plan_chunks`
--     (the eviction loop) and `settle` (the assignments); Replay/Snapshot: `checkpoint_fields` and
--     `restore_snapshot`; Replay/Streams: `stream_partition`, `segments` and `raw_counts`.
--   Distillation/Transport/Rows: the row loop of `TeacherChunk.decode` on the samples that `struct` and
--     numpy unpack. Distillation/Storage: `ProducerStoragePolicy`.
--   Distillation/Handover: client proposals meet the replay's checks. Distillation/Job: `ingest` and
--     the session of rounds.
--   Reward: scalar validators and records; Reward/Control, Reward/Parse, Reward/Stream and
--     Reward/Components follow `_control` and `_control_progress`, `parse_reward`, `RewardStream`, and
--     `reward_components`.
--   Evaluation: `EvaluationEpisode` of evaluation.py, which adds up the accepted intervals.
--   Training: `Transition`. Training/Advantage: `gae`. Training/Segments:
--     `split_rollout_by_policy_version`. Training/Update: `ppo_update_async` and the loops of
--     `_ppo_update_batch_sync`, where the drift of a batch and the optimizer step are parameters.
--     Training/Batches: a round of `learner_loop`. Training/Barrier: a round of
--     `synchronous_learner_loop`.
--   Training/Actor: `SynchronousActorClient` over `ActorClient`: its fields. Actor/Credit:
--     `_credit_action` and `_finish_credited_action`; Actor/Collection: the epoch, the fence and the
--     contribution; Actor/Rewards: `_accept_reward`, `_account_reward`, `_observe_command_metadata`;
--     Actor/Handlers: what a lost connection and the limit of an evaluation do; Actor/Sensors:
--     `_handle_sensors` and `_send_action`; Actor/Lifecycle: `_handle_transition`,
--     `_on_assign`, `_handle_state_replaced`, a refused reclaim, and the exceptions of `run`.
--     Actor/Runs has the runs of an actor as a relation. The networks, the clock, the socket and
--     what the learner does while an action is sent are the record `World`. Actor/Settled says how the
--     actor stands to the learner's epoch. Training/Coherence joins the actors' contributions to the
--     learner's barrier.
--
-- State is passed explicitly: an operation takes the record of the object and returns the one after
-- it, or the error. Where the source has changed the object before it raises (`fetch` after it has
-- accepted a manifest, `ingest` after the replay has admitted) the operation returns the object
-- beside the error. Loops are recursion on the list that they walk; the eviction loop is recursion
-- on the planned chunks, which it shortens. A method of the actor is an action of `Training/Exec`,
-- which keeps what was assigned before a raise. Fuel is in printing a number (its own value,
-- enough since each digit divides by 16), in a binary logarithm (13 halvings, enough for a
-- number below 2 ^ 8192, where a product of two binary64 magnitudes stays below 2 ^ 4200), and in
-- the minibatches of an epoch (the number of samples, enough since each takes one or more).
--
-- Not modelled: HTTP, the storage policy refresh and the release of leases; the lease id, capture
-- epoch and expiry of a batch, and the headers of its download, so a fetch may return more than the
-- client does; the bounds that a manifest is built under; the layout of
-- binary chunks (the client's model takes a decoded chunk or an error, and checks the chunk as
-- the decoder's end does); JSON parsing and the exact key sets of
-- slither_contracts (a wire object is given by its fields); texts of error messages; PyTorch, the
-- actor's handshake and socket, log lines and the learner's statistics, checkpoint files, and the
-- command line.
pub mod Prelude
pub mod Wire
pub mod Distillation
pub mod Reward
pub mod Evaluation
pub mod Training
