-- ===== src/Training/Actor/Settled/Sends.antt =====
-- The learner's moves, and an action that is sent while the learner moves.
use py_rl_trainer.Prelude.{
  ℕ, suc, ◌≡◌, refl, sym, ap, ◌∙◌, Bool, true, false, none, some, List, [], ◌∷◌, ◌++◌, arith,
  Bool-cases, inl, inr, if◌then◌else◌, leb, length,
}
use py_rl_trainer.Wire.Str.{Text}
use py_rl_trainer.Training.{Observation, Transition}
use py_rl_trainer.Training.Actor.{ActorConfig, ActorClient, collection_open}
use py_rl_trainer.Training.Actor.Collection.{record_collection_command}
use py_rl_trainer.Training.Actor.Handlers.{World}
use py_rl_trainer.Training.Actor.Sensors.{
  track_sample, without_oldest, max_unconfirmed_actions, sent_action, issued_sample, send_sample,
}
use py_rl_trainer.Training.Actor.Runs.{IsFair, advanced}
use py_rl_trainer.Training.Actor.Sending.{taking, tracked, identity_of, send_sample-Ends}
use py_rl_trainer.Training.Actor.Settled.{IssuedVersion, IsSettled, IsRested, Barrier}
use py_rl_trainer.Training.Actor.Settled.Steps.{same_collection}
use py_rl_trainer.Training.Actor.Settled.Contributions.{at_same_epoch, opened}

IssuedVersion-snoc :
    (version : ℕ) (xs : List (Text × Transition)) (key : Text) (t : Transition)
    → IssuedVersion version xs
    → t.policy_version ≡ version
    → IssuedVersion version (xs ++ ((key, t) ∷ []))
IssuedVersion-snoc version [] key t h own = (own, tt)
IssuedVersion-snoc version ((k, u) ∷ xs) key t h own =
    (h.0, IssuedVersion-snoc version xs key t h.1 own)

without_oldest-IssuedVersion :
    (version : ℕ) (b : Bool) (xs : List (Text × Transition))
    → IssuedVersion version xs
    → IssuedVersion version (if b then without_oldest xs else xs)
without_oldest-IssuedVersion version false xs h = h
without_oldest-IssuedVersion version true [] h = h
without_oldest-IssuedVersion version true ((key, t) ∷ xs) h = h.1

module _ {actor_id : ℕ} {policy : ℕ → ℕ} where
  -- what the barrier allows leaves the actor at its epoch, or past it once it has contributed
  pub advanced-IsRested :
      (s : ActorClient) (epoch version : ℕ)
      → Barrier policy s epoch version
      → IsRested actor_id policy s
      → IsRested actor_id policy (advanced epoch version s)
  unfolding advanced
  advanced-IsRested s epoch version move h = record {
    clean =
        same_collection h.clean refl refl refl h.clean.idle h.clean.fenced h.clean.finished
          h.clean.pending h.clean.issued;
    stands = elim h.stands [
      | inl at_epoch ↦ elim move [
        | inl (same, kept) ↦ inl (at_same_epoch at_epoch refl refl same kept)
        | inr (inl (same, done)) ↦ inl (record {
          same = same ∙ at_epoch.same;
          published = λ w. absurd (ground (arith, w, done));
        })
        | inr (inr (done, next, own)) ↦ inr (record {
          next = next ∙ ap (λ n. suc n) at_epoch.same;
          submitted = done ∙ ap (λ n. some n) at_epoch.same;
          published = own;
        })
      ]
      | inr past ↦ elim move [
        | inl (same, kept) ↦ inr (record {
          next = same ∙ past.next;
          submitted = past.submitted;
          published = kept ∙ past.published ∙ ap policy (sym same);
        })
        | inr (inl (same, done)) ↦ absurd (ground (arith, past.next, past.submitted, done))
        | inr (inr (done, next, own)) ↦ absurd (ground (arith, past.next, past.submitted, done))
      ]
    ];
  }

  track_sample-IsRested :
      (key : Text) (t : Transition) (s : ActorClient)
      → s.submitted_collection_epoch ≡ none
      → t.policy_version ≡ policy s.active_collection_epoch
      → IsRested actor_id policy s
      → IsRested actor_id policy (track_sample key t s)
  unfolding track_sample
  track_sample-IsRested key t s unsubmitted own h =
      let version = policy s.active_collection_epoch in
      let full = leb max_unconfirmed_actions (length s.issued_transitions) in
      record {
        clean =
            same_collection h.clean refl refl refl
              (λ done. absurd (ground (arith, done, unsubmitted))) h.clean.fenced h.clean.finished
              h.clean.pending
              (IssuedVersion-snoc version _ key t
                (without_oldest-IssuedVersion version full s.issued_transitions h.clean.issued)
                own);
        stands = elim h.stands [
          | inl at_epoch ↦ inl (at_same_epoch at_epoch refl refl refl refl)
          | inr past ↦ absurd (ground (arith, past.submitted, unsubmitted))
        ];
      }

  -- an action with its identity and its command, outside the samples
  pub same-IsRested :
      {s t : ActorClient}
      → IsRested actor_id policy s
      → t.contributions ≡ s.contributions
      → t.rollout ≡ s.rollout
      → t.pending_transition ≡ s.pending_transition
      → t.issued_transitions ≡ s.issued_transitions
      → t.submitted_collection_epoch ≡ s.submitted_collection_epoch
      → t.active_collection_epoch ≡ s.active_collection_epoch
      → t.fence_required ≡ s.fence_required
      → t.collection_epoch ≡ s.collection_epoch
      → t.published_policy_version ≡ s.published_policy_version
      → IsRested actor_id policy t
  same-IsRested {s} {t} h sent ended pending issued submitted active fence current published =
      record {
        clean =
            same_collection h.clean sent submitted active
              (λ done. rw (ended, pending, issued) (h.clean.idle done))
              (λ f. rw (ended, pending) (h.clean.fenced (sym fence ∙ f)))
              (rw ended h.clean.finished) (rw pending h.clean.pending) (rw issued h.clean.issued);
        stands = elim h.stands [
          | inl at_epoch ↦ inl (at_same_epoch at_epoch submitted active current published)
          | inr past ↦ inr (record {
            next = current ∙ past.next ∙ ap (λ n. suc n) (sym active);
            submitted = submitted ∙ past.submitted ∙ ap (λ n. some n) (sym active);
            published = published ∙ past.published ∙ ap policy (sym current);
          })
        ];
      }

  record_collection_command-IsRested :
      (cfg : ActorConfig) (identity : Text) (s : ActorClient)
      → IsRested actor_id policy s
      → IsRested actor_id policy (record_collection_command cfg identity s)
  unfolding record_collection_command
  record_collection_command-IsRested cfg identity s h =
      same-IsRested h (ground arith) (ground arith) (ground arith) (ground arith) (ground arith)
        (ground arith) (ground arith) (ground arith) (ground arith)

module _ {policy : ℕ → ℕ} (cfg : ActorConfig) (world : World) (obs : Observation) (tick : ℕ) where
  -- an action that was sent, while the learner made a move
  tracked-IsRested :
      (s : ActorClient) (epoch version : ℕ)
      → Barrier policy (taking s) epoch version
      → IsSettled cfg.actor_id policy s
      → IsRested cfg.actor_id policy
          (tracked cfg world obs tick s (sent_action tick (epoch, version) (taking s)))
  unfolding sent_action issued_sample advanced
  tracked-IsRested s epoch version move h =
      let rested : IsRested cfg.actor_id policy s = record {
        clean = h.clean;
        stands = inl h.at_epoch;
      } in
      let moved = advanced-IsRested s epoch version move rested in
      let sent : IsRested cfg.actor_id policy (sent_action tick (epoch, version) (taking s)) =
        same-IsRested moved refl refl refl refl refl refl refl refl refl in
      elim (Bool-cases (collection_open cfg s)) [
        | inr closed ↦ rw closed sent
        | inl open_now ↦
            let unsubmitted = opened cfg s h open_now in
            rw open_now (
              track_sample-IsRested (identity_of s) _ _ unsubmitted
                (h.at_epoch.published unsubmitted) sent)
      ]

  pub send_sample-IsRested :
      IsFair (Barrier policy) world
      → (s : ActorClient) → IsSettled cfg.actor_id policy s
      → IsRested cfg.actor_id policy (send_sample cfg world obs tick s).1
  send_sample-IsRested fair s h =
      let rested : IsRested cfg.actor_id policy s = record {
        clean = h.clean;
        stands = inl h.at_epoch;
      } in
      elim (send_sample-Ends cfg world obs tick s) [
        | inl same ↦ rw same rested
        | inr (room, inl taken) ↦
            rw taken (same-IsRested rested refl refl refl refl refl refl refl refl refl)
        | inr (room, inr ((epoch, version), returned, e)) ↦ rw e (
            record_collection_command-IsRested cfg _ _
              (tracked-IsRested s epoch version (fair (taking s) epoch version returned) h))
      ]
