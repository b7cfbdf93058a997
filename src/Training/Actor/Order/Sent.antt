-- ===== src/Training/Actor/Order/Sent.antt =====
-- The epoch, the echoed commands, the closure and an action that is sent leave the identities in order.
use py_rl_trainer.Prelude.{
  ℕ, ◌+◌, ◌-◌, ◌≤◌, ◌<◌, ◌^◌, ◌≡◌, refl, ap, Bool, true, false, Option, none, some, List, [], ◌∷◌,
  ◌++◌, arith, Bool-cases, inl, inr, ok, if◌then◌else◌, leb, length, ◌==◌,
}
use py_rl_trainer.Prelude.Ascending.{
  AscendsTo, AscendsTo-snoc, Sub, done, skip, Sub-refl, Sub-append, Sub-AscendsTo,
}
use mathlib.Core.List.{append_assoc}
use py_rl_trainer.Wire.Str.{Text}
use py_rl_trainer.Wire.Hex.{hex16, matches_hex}
use py_rl_trainer.Wire.Hex.Laws.{hex16_roundtrip}
use py_rl_trainer.Reward.{Command}
use py_rl_trainer.Reward.Control.{commands_eq}
use py_rl_trainer.Training.{Observation, Transition, one}
use py_rl_trainer.Training.Actor.{ActorConfig, ActorClient, Endpoint, collection_open}
use py_rl_trainer.Training.Actor.Collection.{refresh_collection_epoch, record_collection_command}
use py_rl_trainer.Training.Actor.Rewards.{validate_echoed_command, echo, action_id_of}
use py_rl_trainer.Training.Actor.Handlers.{World}
use py_rl_trainer.Training.Actor.Sensors.{
  track_sample, without_oldest, max_unconfirmed_actions, sent_action, issued_sample, send_sample,
}
use py_rl_trainer.Training.Actor.Lifecycle.{closed_at, done_last}
use py_rl_trainer.Training.Actor.Core.{core}
use py_rl_trainer.Training.Actor.Sending.{taking, tracked, send_sample-Ends}
use py_rl_trainer.Training.Actor.Order.{
  id_number, numbers, sent_numbers, pending_number, issued_numbers, all_numbers, AllKeyed,
  IsOrdered, IsOrdered-Sub,
}

-- the same samples, and a counter that has not gone back
pub same-IsOrdered :
    {s t : ActorClient}
    → IsOrdered s
    → t.contributions ≡ s.contributions
    → t.rollout ≡ s.rollout
    → t.pending_transition ≡ s.pending_transition
    → t.issued_transitions ≡ s.issued_transitions
    → s.action_id_counter ≤ t.action_id_counter
    → IsOrdered t
same-IsOrdered {s} {t} h sent ended pending issued counter =
    let same : all_numbers t ≡ all_numbers s = rw (sent, ended, pending, issued) refl in
    IsOrdered-Sub h (rw same (Sub-refl (all_numbers s))) counter (rw issued h.keyed)

pub core-IsOrdered : (s t : ActorClient) → core t ≡ core s → IsOrdered s → IsOrdered t
core-IsOrdered s t e h =
    same-IsOrdered h (ap (λ c. c.0) e) (ap (λ c. c.1) e) (ap (λ c. c.2) e) (ap (λ c. c.3) e)
      (ground (arith, ap (λ c. c.4) e))

pub refresh_collection_epoch-IsOrdered :
    (cfg : ActorConfig) (s t : ActorClient)
    → IsOrdered s
    → refresh_collection_epoch cfg s ≡ ok t
    → IsOrdered t
unfolding refresh_collection_epoch
refresh_collection_epoch-IsOrdered cfg s t h e =
    same-IsOrdered h (ground arith) (ground arith) (ground arith) (ground arith) (ground arith)

echo-IsOrdered :
    (s t : ActorClient) (identity old : Option Text)
    → IsOrdered s
    → echo s identity old ≡ ok t
    → IsOrdered t
echo-IsOrdered s t none old h e =
    same-IsOrdered h (ground arith) (ground arith) (ground arith) (ground arith) (ground arith)
echo-IsOrdered s t (some identity) old h e =
    same-IsOrdered h (ground arith) (ground arith) (ground arith) (ground arith) (ground arith)

pub validate_echoed_command-IsOrdered :
    (command previous : Option Command) (s t : ActorClient)
    → IsOrdered s
    → validate_echoed_command command previous s ≡ ok t
    → IsOrdered t
unfolding validate_echoed_command
validate_echoed_command-IsOrdered none previous s t h e =
    let same : s ≡ t = ground arith in rw (← same) h
validate_echoed_command-IsOrdered (some command) previous s t h e =
    elim (Bool-cases (commands_eq (some command) previous)) [
      | inl old ↦ let same : s ≡ t = ground arith in rw (← same) h
      | inr fresh ↦
          echo-IsOrdered s t command.client_action_id (action_id_of previous) h (ground arith)
    ]

done_last-numbers : (value : ℕ) (ts : List Transition) → numbers (done_last value ts) ≡ numbers ts
done_last-numbers value [] = refl
done_last-numbers value (t ∷ []) = refl
done_last-numbers value (t ∷ (u ∷ rest)) =
    ap (λ l. id_number t.action_id ∷ l) (done_last-numbers value (u ∷ rest))

pub closed_at-IsOrdered :
    (has_died : Bool) (step : ℕ) (final : Option Observation) (s : ActorClient)
    (end_ : Option Endpoint)
    → IsOrdered s
    → IsOrdered (closed_at has_died step final s end_)
closed_at-IsOrdered has_died step final s none h = h
closed_at-IsOrdered has_died step final s (some (e, obs)) h = elim (Bool-cases (e == step)) [
  | inl same ↦ rw same (
      IsOrdered-Sub h
        (rw (done_last-numbers (if has_died then one else 0) s.rollout) (Sub-refl (all_numbers s)))
        (omega arith) h.keyed)
  | inr apart ↦ rw apart h
]

issued_numbers-append :
    (xs ys : List (Text × Transition))
    → issued_numbers (xs ++ ys) ≡ issued_numbers xs ++ issued_numbers ys
issued_numbers-append [] ys = refl
issued_numbers-append ((key, t) ∷ xs) ys =
    ap (λ l. id_number t.action_id ∷ l) (issued_numbers-append xs ys)

AllKeyed-snoc :
    (xs : List (Text × Transition)) (key : Text) (t : Transition)
    → AllKeyed xs
    → t.action_id ≡ some key
    → matches_hex 16 key ≡ true
    → AllKeyed (xs ++ ((key, t) ∷ []))
AllKeyed-snoc [] key t h own valid = (own, valid, tt)
AllKeyed-snoc ((k, u) ∷ xs) key t h own valid = (h.0, h.1, AllKeyed-snoc xs key t h.2 own valid)

without_oldest-fewer :
    (issued : List (Text × Transition))
    → AllKeyed issued
    → Sub (issued_numbers (without_oldest issued)) (issued_numbers issued)
      × AllKeyed (without_oldest issued)
without_oldest-fewer [] h = (done, h)
without_oldest-fewer ((key, t) ∷ rest) h =
    (skip (id_number t.action_id) (Sub-refl (issued_numbers rest)), h.2)

trimmed :
    (b : Bool) (issued : List (Text × Transition))
    → AllKeyed issued
    → Sub (issued_numbers (if b then without_oldest issued else issued)) (issued_numbers issued)
      × AllKeyed (if b then without_oldest issued else issued)
trimmed true issued h = without_oldest-fewer issued h
trimmed false issued h = (Sub-refl (issued_numbers issued), h)

regroup : (a b c d e : List ℕ) → a ++ (b ++ (c ++ (d ++ e))) ≡ (a ++ (b ++ (c ++ d))) ++ e
regroup a b c d e =
    rw (append_assoc a (b ++ (c ++ d)) e, append_assoc b (c ++ d) e, append_assoc c d e) refl

-- every number of a sample is at most the old counter, and the new identity is above it
track_sample-IsOrdered :
    (s : ActorClient) (t : Transition) (counter : ℕ)
    → AscendsTo 0 counter (all_numbers s)
    → AllKeyed s.issued_transitions
    → counter < 2 ^ 64 - 1
    → s.action_id_counter ≡ counter + 1
    → t.action_id ≡ some (hex16 (counter + 1))
    → IsOrdered (track_sample (hex16 (counter + 1)) t s)
unfolding track_sample
track_sample-IsOrdered s t counter ascends keyed room next_one own =
    let identity = hex16 (counter + 1) in
    let (valid, read) = hex16_roundtrip (counter + 1) (omega arith) in
    let full = leb max_unconfirmed_actions (length s.issued_transitions) in
    let left = if full then without_oldest s.issued_transitions else s.issued_transitions in
    let (fewer, kept) = trimmed full s.issued_transitions keyed in
    let sent = sent_numbers s.contributions in
    let ended = numbers s.rollout in
    let pending = pending_number s.pending_transition in
    let before =
      Sub-AscendsTo 0 counter
        (Sub-append (Sub-refl sent)
          (Sub-append (Sub-refl ended) (Sub-append (Sub-refl pending) fewer)))
        ascends in
    let whole = sent ++ (ended ++ (pending ++ issued_numbers left)) in
    record {
      ascending =
          rw
            (
              issued_numbers-append left ((identity, t) ∷ []),
              regroup sent ended pending (issued_numbers left) (id_number t.action_id ∷ []),
              own,
              read,
              next_one,
            )
            (AscendsTo-snoc 0 counter (counter + 1) whole before (omega arith));
      keyed = AllKeyed-snoc left identity t kept own valid;
    }

record_collection_command-IsOrdered :
    (cfg : ActorConfig) (identity : Text) (s : ActorClient)
    → IsOrdered s
    → IsOrdered (record_collection_command cfg identity s)
unfolding record_collection_command
record_collection_command-IsOrdered cfg identity s h =
    same-IsOrdered h (ground arith) (ground arith) (ground arith) (ground arith) (ground arith)

tracked-IsOrdered :
    (cfg : ActorConfig) (world : World) (obs : Observation) (tick : ℕ) (s : ActorClient)
    (moment : ℕ × ℕ)
    → IsOrdered s
    → s.action_id_counter < 2 ^ 64 - 1
    → IsOrdered (tracked cfg world obs tick s (sent_action tick moment (taking s)))
unfolding sent_action issued_sample
tracked-IsOrdered cfg world obs tick s moment h room = elim (Bool-cases (collection_open cfg s)) [
  | inl opened ↦
      rw opened (track_sample-IsOrdered _ _ s.action_id_counter h.ascending h.keyed room refl refl)
  | inr closed ↦ rw closed (same-IsOrdered h refl refl refl refl (omega arith))
]

pub send_sample-IsOrdered :
    (cfg : ActorConfig) (world : World) (obs : Observation) (tick : ℕ) (s : ActorClient)
    → IsOrdered s
    → IsOrdered (send_sample cfg world obs tick s).1
send_sample-IsOrdered cfg world obs tick s h = elim (send_sample-Ends cfg world obs tick s) [
  | inl same ↦ rw same h
  | inr (room, inl taken) ↦ rw taken (same-IsOrdered h refl refl refl refl (omega arith))
  | inr (room, inr (moment, returned, e)) ↦ rw e (
      record_collection_command-IsOrdered cfg _ _
        (tracked-IsOrdered cfg world obs tick s moment h room))
]
