-- ===== src/Training/Actor/Sending.antt =====
-- The states in which an attempt to send an action can end.
use py_rl_trainer.Prelude.{
  ℕ, ◌+◌, ◌-◌, ◌^◌, ◌<◌, ◌≡◌, refl, ap, ◌⊎◌, inl, inr, not, ◌||◌, some, ok, leb, Bool-cases,
  Option-cases, arith, if◌then◌else◌,
}
use py_rl_trainer.Wire.Str.{Text}
use py_rl_trainer.Wire.Hex.{hex16}
use py_rl_trainer.Training.{Observation}
use py_rl_trainer.Training.Exec.{modify, ◌>>=◌, ◌>>◌, when}
use py_rl_trainer.Training.Actor.{ActorConfig, ActorClient, ActorError, collection_open}
use py_rl_trainer.Training.Actor.Credit.{is_some}
use py_rl_trainer.Training.Actor.Collection.{record_collection_command}
use py_rl_trainer.Training.Actor.Handlers.{World}
use py_rl_trainer.Training.Actor.Sensors.{
  track_sample, take_identity, sent_action, issued_sample, send_sample,
}

-- the identity is used up
abbrev pub taking : ActorClient → ActorClient
taking s = record s { action_id_counter = s.action_id_counter + 1 }

abbrev pub identity_of : ActorClient → Text
identity_of s = hex16 (s.action_id_counter + 1)

-- the sample is tracked where the collection was open before the action was sent
abbrev pub tracked : ActorConfig → World → Observation → ℕ → ActorClient → ActorClient → ActorClient
tracked cfg world obs tick s after =
    if collection_open cfg s
    then track_sample (identity_of s)
        (issued_sample obs (world.act obs) s.published_policy_version tick (identity_of s)) after
    else after

abbrev pub sent_state : ActorConfig → World → Observation → ℕ → ActorClient → ℕ × ℕ → ActorClient
sent_state cfg world obs tick s moment =
    record_collection_command cfg (identity_of s)
      (tracked cfg world obs tick s (sent_action tick moment (taking s)))

-- The actor is as before, or an identity is used up and nothing was sent, or the action was sent.
abbrev pub Ends : ActorConfig → World → Observation → ℕ → ActorClient → ActorClient → Type 0
Ends cfg world obs tick s after =
    (after ≡ s)
    ⊎ ((s.action_id_counter < 2 ^ 64 - 1)
        × ((after ≡ taking s)
            ⊎ ((moment : ℕ × ℕ) × (world.sent (taking s) ≡ some moment)
                × (after ≡ sent_state cfg world obs tick s moment))))

-- from the return of `ws.send` on
after_send :
    (cfg : ActorConfig) (world : World) (obs : Observation) (tick : ℕ) (s : ActorClient)
    (moment : ℕ × ℕ)
    → (do
      modify {E = ActorError} (sent_action tick moment)
      when (collection_open cfg s) (
          modify (
            track_sample
              (identity_of s)
              (issued_sample obs (world.act obs) s.published_policy_version tick (identity_of s))))
      modify (record_collection_command cfg (identity_of s)))
        (taking s)
      ≡ (ok tt, sent_state cfg world obs tick s moment)
unfolding ◌>>=◌
after_send cfg world obs tick s moment = elim (Bool-cases (collection_open cfg s)) [
  | inl opened ↦ rw opened refl
  | inr closed ↦ rw closed refl
]

pub send_sample-Ends :
    (cfg : ActorConfig) (world : World) (obs : Observation) (tick : ℕ) (s : ActorClient)
    → Ends cfg world obs tick s (send_sample cfg world obs tick s).1
unfolding send_sample ◌>>=◌ take_identity
send_sample-Ends cfg world obs tick s =
    elim (Bool-cases (not cfg.evaluation || is_some s.evaluation_episode)) [
      | inr unready ↦ rw unready (inl refl)
      | inl ready ↦ elim (Bool-cases (leb (2 ^ 64 - 1) s.action_id_counter)) [
        | inl exhausted ↦ rw (ready, exhausted) (inl refl)
        | inr room ↦ elim (Option-cases (world.sent (taking s))) [
          | inl failed ↦ rw (ready, room, failed) (inr (ground arith, inl refl))
          | inr (moment, returned) ↦
              rw (ready, room, returned)
                (inr (
                  ground arith,
                  inr (moment, refl, ap (λ r. r.1) (after_send cfg world obs tick s moment)),
                ))
        ]
      ]
    ]
