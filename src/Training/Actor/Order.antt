-- ===== src/Training/Actor/Order.antt =====
-- The samples of an actor by the numbers of their action identities.
pub mod Selection
pub mod Steps
pub mod Sent
use py_rl_trainer.Prelude.{
  ℕ, zero, suc, ◌+◌, ◌≤◌, ◌<◌, ◌≡◌, refl, sym, ap, ◌∙◌, Bool, true, false, Option, none, some, List,
  [], ◌∷◌, ◌++◌, arith, Bool-cases, inl, inr, if◌then◌else◌, ltb,
}
use py_rl_trainer.Prelude.Ascending.{
  AscendsTo, AscendsTo-higher, AscendsTo-bounds, Sub, done, keep, skip, Sub-refl, Sub-nil,
  Sub-append, Sub-AscendsTo,
}
use mathlib.Core.List.{append_assoc, append-nil}
use py_rl_trainer.Wire.Str.{Text, text_eq, text_eq_sound, text_ltb}
use py_rl_trainer.Wire.Hex.{int_hex, matches_hex}
use py_rl_trainer.Wire.Hex.Order.{hex_order}
use py_rl_trainer.Training.{Transition}
use py_rl_trainer.Training.Barrier.{Message}
use py_rl_trainer.Training.Actor.{ActorClient, Endpoint, clear_unfinished_actions, clear_rollout}
use py_rl_trainer.Training.Actor.Credit.{
  finished, finish_credited_action, drop_before, pop_issued, override_last,
}

abbrev pub id_number : Option Text → ℕ
id_number none = 0
id_number (some id) = int_hex id

-- the numbers of the samples of a rollout, of the queue, and of those that wait
abbrev pub numbers : List Transition → List ℕ
numbers [] = []
numbers (t ∷ rest) = id_number t.action_id ∷ numbers rest

abbrev pub sent_numbers : List Message → List ℕ
sent_numbers [] = []
sent_numbers (m ∷ rest) = numbers m.rollout ++ sent_numbers rest

abbrev pub pending_number : Option Transition → List ℕ
pending_number none = []
pending_number (some t) = id_number t.action_id ∷ []

abbrev pub issued_numbers : List (Text × Transition) → List ℕ
issued_numbers [] = []
issued_numbers ((key, t) ∷ rest) = id_number t.action_id ∷ issued_numbers rest

-- the unfinished ones, the pending one first
abbrev pub unfinished : ActorClient → List ℕ
unfinished s = pending_number s.pending_transition ++ issued_numbers s.issued_transitions

abbrev pub all_numbers : ActorClient → List ℕ
all_numbers s = sent_numbers s.contributions ++ (numbers s.rollout ++ unfinished s)

-- the issued samples stand under their identities
abbrev pub AllKeyed : List (Text × Transition) → Type 0
AllKeyed [] = Unit
AllKeyed ((key, t) ∷ rest) = (t.action_id ≡ some key) × (matches_hex 16 key ≡ true) × AllKeyed rest

-- contributed, finished, pending and issued samples, in this order, have rising identities
pub record IsOrdered (s : ActorClient) : Type 0 where
  pub ascending : AscendsTo 0 s.action_id_counter (all_numbers s)
  pub keyed : AllKeyed s.issued_transitions

-- samples are only dropped, and identities only used up
pub IsOrdered-Sub :
    {s t : ActorClient}
    → IsOrdered s
    → Sub (all_numbers t) (all_numbers s)
    → s.action_id_counter ≤ t.action_id_counter
    → AllKeyed t.issued_transitions
    → IsOrdered t
IsOrdered-Sub {s} {t} h sub le keyed = record {
  ascending =
      AscendsTo-higher 0 s.action_id_counter t.action_id_counter (all_numbers t) le
        (Sub-AscendsTo 0 s.action_id_counter sub h.ascending);
  keyed = keyed;
}

pub numbers-append : (xs ys : List Transition) → numbers (xs ++ ys) ≡ numbers xs ++ numbers ys
numbers-append [] ys = refl
numbers-append (x ∷ xs) ys = ap (λ l. id_number x.action_id ∷ l) (numbers-append xs ys)

pub sent_numbers-append :
    (xs ys : List Message) → sent_numbers (xs ++ ys) ≡ sent_numbers xs ++ sent_numbers ys
sent_numbers-append [] ys = refl
sent_numbers-append (m ∷ xs) ys =
    ap (λ l. numbers m.rollout ++ l) (sent_numbers-append xs ys)
    ∙ sym (append_assoc (numbers m.rollout) (sent_numbers xs) (sent_numbers ys))

finished_numbers :
    (s : ActorClient) (pending : Option Transition) (end_ : Option Endpoint)
    → s.pending_transition ≡ pending
    → (all_numbers (finished s pending end_) ≡ all_numbers s)
      × ((finished s pending end_).issued_transitions ≡ s.issued_transitions)
      × ((finished s pending end_).action_id_counter ≡ s.action_id_counter)
finished_numbers s none end_ e = (refl, refl, refl)
finished_numbers s (some p) none e = (refl, refl, refl)
finished_numbers s (some p) (some end_) e = (
  rw (e, numbers-append s.rollout (p ∷ []))
      (ap (λ l. sent_numbers s.contributions ++ l)
        (append_assoc (numbers s.rollout) (id_number p.action_id ∷ [])
          (issued_numbers s.issued_transitions))),
  refl,
  refl,
)

pub finish_credited_action-IsOrdered :
    (s : ActorClient) → IsOrdered s → IsOrdered (finish_credited_action s)
unfolding finish_credited_action
finish_credited_action-IsOrdered s h =
    let (same, issued, counter) = finished_numbers s s.pending_transition s.credit_end refl in
    record { ascending = rw (same, counter) h.ascending; keyed = rw issued h.keyed }

pub clear_unfinished_actions-IsOrdered :
    (s : ActorClient) → IsOrdered s → IsOrdered (clear_unfinished_actions s)
unfolding clear_unfinished_actions
clear_unfinished_actions-IsOrdered s h =
    IsOrdered-Sub h
      (Sub-append (Sub-refl (sent_numbers s.contributions))
        (Sub-append (Sub-refl (numbers s.rollout)) (Sub-nil (unfinished s))))
      (omega arith) tt

pub clear_rollout-IsOrdered : (s : ActorClient) → IsOrdered s → IsOrdered (clear_rollout s)
unfolding clear_rollout
clear_rollout-IsOrdered s h =
    IsOrdered-Sub h
      (Sub-append (Sub-refl (sent_numbers s.contributions))
        (Sub-append (Sub-nil (numbers s.rollout)) (Sub-refl (unfinished s))))
      (omega arith) h.keyed
