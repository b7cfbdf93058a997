-- ===== src/Training/Actor/Order/Selection.antt =====
-- Which sample an application receipt selects, and that contributions keep the order.
use py_rl_trainer.Prelude.{
  ℕ, ◌<◌, ◌≡◌, refl, ap, ◌∙◌, ◌⊎◌, true, false, Option, none, some, List, [], ◌∷◌, arith,
  Bool-cases, inl, inr,
}
use py_rl_trainer.Prelude.Ascending.{
  AscendsTo, Sub, done, keep, skip, Sub-refl, Sub-append, Sub-AscendsTo, Sub-trans, Sub-suffix,
}
use py_rl_trainer.Wire.Str.{Text, text_eq, text_eq_sound, text_ltb}
use py_rl_trainer.Wire.Hex.{matches_hex}
use py_rl_trainer.Wire.Hex.Order.{hex_order}
use py_rl_trainer.Training.{Observation, Transition}
use py_rl_trainer.Training.Actor.{ActorClient}
use py_rl_trainer.Training.Actor.Credit.{
  drop_before, pop_issued, override_last, with_pending, take_if_none, is_apart, endpoint_value,
}
use py_rl_trainer.Training.Actor.Order.{
  id_number, numbers, sent_numbers, issued_numbers, all_numbers, AllKeyed, IsOrdered, IsOrdered-Sub,
}

override_last-numbers :
    (value : ℕ) (ts : List Transition) → numbers (override_last value ts) ≡ numbers ts
unfolding override_last
override_last-numbers value [] = refl
override_last-numbers value (t ∷ []) = refl
override_last-numbers value (t ∷ (u ∷ rest)) =
    ap (λ l. id_number t.action_id ∷ l) (override_last-numbers value (u ∷ rest))

drop_before-Sub :
    (id : Text) (issued : List (Text × Transition))
    → Sub (issued_numbers (drop_before id issued)) (issued_numbers issued)
unfolding drop_before
drop_before-Sub id [] = done
drop_before-Sub id ((key, t) ∷ rest) = elim (Bool-cases (text_ltb key id)) [
  | inl older ↦ rw older (skip (id_number t.action_id) (drop_before-Sub id rest))
  | inr other ↦ rw other (Sub-refl (issued_numbers ((key, t) ∷ rest)))
]

drop_before-AllKeyed :
    (id : Text) (issued : List (Text × Transition))
    → AllKeyed issued
    → AllKeyed (drop_before id issued)
unfolding drop_before
drop_before-AllKeyed id [] h = h
drop_before-AllKeyed id ((key, t) ∷ rest) h = elim (Bool-cases (text_ltb key id)) [
  | inl older ↦ rw older (drop_before-AllKeyed id rest h.2)
  | inr other ↦ rw other h
]

-- the first one left is not before `id`
abbrev StartsAt : Text → List (Text × Transition) → Type 0
StartsAt id [] = Unit
StartsAt id ((key, t) ∷ rest) = text_ltb key id ≡ false

drop_before-StartsAt :
    (id : Text) (issued : List (Text × Transition)) → StartsAt id (drop_before id issued)
unfolding drop_before
drop_before-StartsAt id [] = tt
drop_before-StartsAt id ((key, t) ∷ rest) = elim (Bool-cases (text_ltb key id)) [
  | inl older ↦ rw older (drop_before-StartsAt id rest)
  | inr other ↦ rw other other
]

-- What `pop_issued` takes out stands under `id`.
record IsPopped (id : Text) (t : Transition) (left : List (Text × Transition)) : Type 0 where
  identified : t.action_id ≡ some id
  valid : matches_hex 16 id ≡ true
  keyed : AllKeyed left

popped :
    (id : Text) (issued : List (Text × Transition))
    → AllKeyed issued
    → (((pop_issued id issued).0 ≡ none) × AllKeyed (pop_issued id issued).1)
      ⊎ ((t : Transition) × ((pop_issued id issued).0 ≡ some t)
          × IsPopped id t (pop_issued id issued).1)
unfolding pop_issued
popped id [] h = inl (refl, tt)
popped id ((key, t) ∷ rest) h = elim (Bool-cases (text_eq key id)) [
  | inl same ↦
      let e : key ≡ id = text_eq_sound key id same in
      rw same
        (inr (t, refl, record { identified = h.0 ∙ ap some e; valid = rw (← e) h.1; keyed = h.2 }))
  | inr other ↦ elim (popped id rest h.2) [
    | inl (n, k) ↦ rw other (inl (n, (h.0, h.1, k)))
    | inr (u, e, p) ↦ rw other (
        inr (
          u,
          e,
          record { identified = p.identified; valid = p.valid; keyed = (h.0, h.1, p.keyed) },
        ))
  ]
]

pop_above :
    (id : Text) (issued : List (Text × Transition)) (low high : ℕ) {t : Transition}
    → (pop_issued id issued).0 ≡ some t
    → AscendsTo low high (issued_numbers issued)
    → low < id_number t.action_id
unfolding pop_issued
pop_above id [] low high e h = ground arith
pop_above id ((key, u) ∷ rest) low high {t} e h = elim (Bool-cases (text_eq key id)) [
  | inl same ↦ let f : u ≡ t = ground arith in rw (← f) h.0
  | inr other ↦
      omega (arith, pop_above id rest (id_number u.action_id) high {t = t} (ground arith) h.1, h.0)
]

-- the oldest one left is the one that is taken
pop_issued-Sub :
    (id : Text) (issued : List (Text × Transition)) (low high : ℕ) {t : Transition}
    → AllKeyed issued
    → StartsAt id issued
    → AscendsTo low high (issued_numbers issued)
    → (pop_issued id issued).0 ≡ some t
    → IsPopped id t (pop_issued id issued).1
    → Sub (id_number t.action_id ∷ issued_numbers (pop_issued id issued).1) (issued_numbers issued)
unfolding pop_issued
pop_issued-Sub id [] low high k st a e p = ground arith
pop_issued-Sub id ((key, u) ∷ rest) low high {t} k st a e p = elim (Bool-cases (text_eq key id)) [
  | inl same ↦
      let f : u ≡ t = ground arith in
      rw (same, ← f) (Sub-refl (id_number u.action_id ∷ issued_numbers rest))
  | inr other ↦
      let above = pop_above id rest (id_number u.action_id) high {t = t} (ground arith) a.1 in
      absurd (ground (arith, above, hex_order 16 key id k.1 p.valid, p.identified, k.0))
]

none_popped-Sub :
    (id : Text) (issued : List (Text × Transition))
    → (pop_issued id issued).0 ≡ none
    → Sub (issued_numbers (pop_issued id issued).1) (issued_numbers issued)
unfolding pop_issued
none_popped-Sub id [] e = done
none_popped-Sub id ((key, u) ∷ rest) e = elim (Bool-cases (text_eq key id)) [
  | inl same ↦ ground arith
  | inr other ↦ rw other (keep (id_number u.action_id) (none_popped-Sub id rest (ground arith)))
]

-- the numbers of a state with a new pending sample
with_pending-numbers :
    (cutoff_value : Observation → ℕ) (start : ℕ) (s : ActorClient) (t : Transition)
    (left : List (Text × Transition))
    → numbers (with_pending cutoff_value start s (some t) left).rollout ≡ numbers s.rollout
with_pending-numbers cutoff_value start s t left =
    elim (Bool-cases (is_apart s.rollout_end t start)) [
      | inl apart ↦
          rw apart (override_last-numbers (endpoint_value cutoff_value s.rollout_end) s.rollout)
      | inr joined ↦ rw joined refl
    ]

all_issued :
    (s : ActorClient)
    → s.pending_transition ≡ none
    → IsOrdered s
    → AscendsTo 0 s.action_id_counter (issued_numbers s.issued_transitions)
all_issued s e h =
    let whole : Sub (issued_numbers s.issued_transitions) (all_numbers s) = rw e (
      Sub-trans (Sub-suffix (numbers s.rollout) (issued_numbers s.issued_transitions))
        (Sub-suffix (sent_numbers s.contributions) _)) in
    Sub-AscendsTo 0 s.action_id_counter whole h.ascending

pub take_if_none-IsOrdered :
    (cutoff_value : Observation → ℕ) (start : ℕ) (id : Text) (s : ActorClient)
    (pending : Option Transition)
    → s.pending_transition ≡ pending
    → IsOrdered s
    → IsOrdered (take_if_none cutoff_value start id s pending)
take_if_none-IsOrdered cutoff_value start id s (some p) e h = h
take_if_none-IsOrdered cutoff_value start id s none e h =
    let issued = s.issued_transitions in
    let waiting = drop_before id issued in
    let keyed = drop_before-AllKeyed id issued h.keyed in
    let dropped = drop_before-Sub id issued in
    let before = numbers s.rollout in
    let front = Sub-refl (sent_numbers s.contributions) in
    elim (popped id waiting keyed) [
      | inl (n, k) ↦
          let fewer = Sub-trans (none_popped-Sub id waiting n) dropped in
          rw n (
            IsOrdered-Sub h (rw e (Sub-append front (Sub-append (Sub-refl before) fewer)))
              (omega arith) k)
      | inr (t, f, p) ↦
          let left = (pop_issued id waiting).1 in
          let parts = all_issued s e h in
          let a = Sub-AscendsTo 0 s.action_id_counter dropped parts in
          let taken =
            pop_issued-Sub id waiting 0 s.action_id_counter keyed (drop_before-StartsAt id issued) a
              f p in
          let fewer = Sub-trans taken dropped in
          rw f (
            IsOrdered-Sub h
              (rw (e, with_pending-numbers cutoff_value start s t left)
                (Sub-append front (Sub-append (Sub-refl before) fewer)))
              (omega arith) p.keyed)
    ]
