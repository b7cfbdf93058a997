-- ===== src/Training/Barrier/Opening.antt =====
-- The barrier opens, and the loop waits for nothing more, once every actor has contributed.
use py_rl_trainer.Prelude.{
  ℕ, ◌+◌, ◌≤◌, ◌<◌, ◌≡◌, refl, ◌∙◌, ◌⊎◌, inl, inr, Bool, true, false, ◌&&◌, ◌||◌, List, [], ◌∷◌,
  arith, length, ◌==◌, ltb, Bool-cases,
}
use py_rl_trainer.Prelude.Dict.{find, set_default, keys}
use py_rl_trainer.Prelude.Dict.Distinct.{has, length-ge-has, has-set_default_other, length-keys}
use py_rl_trainer.Training.Barrier.{
  Contribution, Message, Collector, Bounds, contributions_of, steps_in, is_coherent, reached,
  is_bounded, pass_barrier, collect, collect_all, is_waiting,
}
use py_rl_trainer.Training.Barrier.Rounds.{
  IsGathering, IsTimely, IsOpen-IsKnown, collect-IsGathering,
}
use py_rl_trainer.Training.Barrier.Complete.{Collects, Collects-IsGathering}

-- the actors that have contributed to the current epoch
abbrev pub arrived : Collector → List ℕ
arrived c = keys (contributions_of (find c.collection_epoch c.pending))

-- the epoch `e` is over, or the loop is
abbrev pub IsOver : ℕ → Collector → Type 0
IsOver e c = (is_waiting c.status ≡ false) ⊎ (e < c.collection_epoch)

pass_barrier-IsOver :
    (bounds : Bounds) (stale : Bool) (c : Collector) (d : List (ℕ × Contribution))
    → IsOver c.collection_epoch (pass_barrier bounds stale c d)
unfolding pass_barrier
pass_barrier-IsOver bounds stale c d = elim (Bool-cases (is_coherent d)) [
  | inr mixed ↦ rw mixed (inl refl)
  | inl coherent ↦
      elim (Bool-cases (is_bounded bounds.decision_budget && ltb 0 (steps_in d) && stale)) [
        | inl late ↦ rw (coherent, late) (inl refl)
        | inr timely ↦
            elim (Bool-cases (reached bounds.decision_budget (c.total_steps + steps_in d))) [
              | inl done ↦ rw (coherent, timely, done) (inl refl)
              | inr more ↦ rw (coherent, timely, more) (inr (omega arith))
            ]
      ]
]

-- the message is of actor `a` for the epoch `e`
abbrev pub is_from : ℕ → ℕ → Message → Bool
is_from a e m = m.epoch == e && m.actor_id == a

record IsArrival (c : Collector) (m : Message) (after : Collector) : Type 0 where
  same_epoch : after.collection_epoch ≡ c.collection_epoch
  counted : (a : ℕ) → has a (arrived after) ≡ (is_from a c.collection_epoch m || has a (arrived c))

has_arrived :
    (e actor_id a : ℕ) (contribution : Contribution) (before : List (ℕ × Contribution))
    → has a (keys (contributions_of (find e ((e, set_default actor_id contribution before) ∷ []))))
      ≡ (e == e && actor_id == a || has a (keys before))
unfolding find
has_arrived e actor_id a contribution before =
    ground (arith, has-set_default_other actor_id contribution before a)

collect-IsArrival :
    (bounds : Bounds) (c : Collector) (m : Message) (stale : Bool)
    → IsGathering bounds.actors c
    → is_waiting c.status ≡ true
    → IsTimely bounds.actors c m
    → IsOver c.collection_epoch (collect bounds c m stale)
      ⊎ IsArrival c m (collect bounds c m stale)
unfolding collect
collect-IsArrival bounds c m stale g w timely = elim (Bool-cases (ltb m.epoch c.collection_epoch)) [
  | inl old ↦ rw old (inr (record { same_epoch = refl; counted = λ a. ground arith }))
  | inr fresh ↦
      let e : m.epoch ≡ c.collection_epoch = ground arith in
      let not_ahead : ltb c.collection_epoch m.epoch ≡ false = ground arith in
      let known =
        IsOpen-IsKnown bounds.actors c.collection_epoch c.pending (omega arith) (g.collecting w) in
      let before = contributions_of (find c.collection_epoch c.pending) in
      let contribution : Contribution = (m.rollout, m.bootstrap) in
      let d = set_default m.actor_id contribution before in
      elim (Bool-cases (ltb (length d) bounds.actors)) [
        | inr full ↦ rw (fresh, not_ahead, e, full) (inl (pass_barrier-IsOver bounds stale _ d))
        | inl few ↦
            rw (fresh, not_ahead, e, few, known.single d)
              (inr (record {
                same_epoch = refl;
                counted = λ a. has_arrived c.collection_epoch m.actor_id a contribution before;
              }))
      ]
]

-- `collect_all` from a state in which it does nothing more to the epoch `e`
collect-IsOver :
    (bounds : Bounds) (c : Collector) (m : Message) (stale : Bool) (e : ℕ)
    → m.epoch ≤ e
    → e < c.collection_epoch
    → collect bounds c m stale ≡ c
unfolding collect
collect-IsOver bounds c m stale e below past =
    let old : ltb m.epoch c.collection_epoch ≡ true = ground arith in rw old refl

-- messages of the actors for the epoch `e` or earlier ones
abbrev pub AllTimely : ℕ → ℕ → List (Message × Bool) → Type 0
AllTimely actors e [] = Unit
AllTimely actors e ((m, stale) ∷ rest) =
    (m.actor_id < actors) × (m.epoch ≤ e) × AllTimely actors e rest

-- one of the messages is of actor `a` for the epoch `e`
abbrev pub arrives : ℕ → ℕ → List (Message × Bool) → Bool
arrives a e [] = false
arrives a e ((m, stale) ∷ rest) = is_from a e m || arrives a e rest

collect_all-ended :
    (bounds : Bounds) (c : Collector) (messages : List (Message × Bool))
    → is_waiting c.status ≡ false
    → collect_all bounds c messages ≡ c
unfolding collect_all
collect_all-ended bounds c [] w = refl
collect_all-ended bounds c ((m, stale) ∷ rest) w = rw w (collect_all-ended bounds c rest w)

collect_all-past :
    (bounds : Bounds) (c : Collector) (messages : List (Message × Bool)) (e : ℕ)
    → AllTimely bounds.actors e messages
    → e < c.collection_epoch
    → collect_all bounds c messages ≡ c
unfolding collect_all
collect_all-past bounds c [] e t past = refl
collect_all-past bounds c ((m, stale) ∷ rest) e t past =
    let kept = collect-IsOver bounds c m stale e t.1 past in
    let later = collect_all-past bounds c rest e t.2 past in
    elim (Bool-cases (is_waiting c.status)) [
      | inl w ↦ rw (w, kept) later
      | inr ended ↦ rw ended later
    ]

collect_all-IsOver :
    (bounds : Bounds) (c : Collector) (messages : List (Message × Bool)) (e : ℕ)
    → AllTimely bounds.actors e messages
    → IsOver e c
    → IsOver e (collect_all bounds c messages)
collect_all-IsOver bounds c messages e t (inl ended) =
    rw (collect_all-ended bounds c messages ended) (inl ended)
collect_all-IsOver bounds c messages e t (inr past) =
    rw (collect_all-past bounds c messages e t past) (inr past)

complete_is_over :
    (actors : ℕ) (c : Collector)
    → IsGathering actors c
    → is_waiting c.status ≡ true
    → 0 < actors
    → ((a : ℕ) → a < actors → has a (arrived c) ≡ true)
    → ⊥
complete_is_over actors c g w some_actor all =
    let known = IsOpen-IsKnown actors c.collection_epoch c.pending some_actor (g.collecting w) in
    omega (
      arith,
      known.few,
      length-ge-has actors (arrived c) all,
      length-keys (contributions_of (find c.collection_epoch c.pending)),
    )

collect_all-next :
    (bounds : Bounds) (c : Collector) (m : Message) (stale : Bool) (rest : List (Message × Bool))
    → is_waiting c.status ≡ true
    → collect_all bounds c ((m, stale) ∷ rest) ≡ collect_all bounds (collect bounds c m stale) rest
unfolding collect_all
collect_all-next bounds c m stale rest w = rw w refl

carried :
    (c : Collector) (m : Message) (rest : List (Message × Bool)) (e a : ℕ) {now_has : Bool}
    → c.collection_epoch ≡ e
    → now_has ≡ (is_from a c.collection_epoch m || has a (arrived c))
    → (has a (arrived c) || (is_from a e m || arrives a e rest)) ≡ true
    → (now_has || arrives a e rest) ≡ true
carried c m rest e a now k h = ground arith

opens :
    (bounds : Bounds) (c : Collector) (messages : List (Message × Bool)) (e : ℕ)
    → c.collection_epoch ≡ e
    → IsGathering bounds.actors c
    → 0 < bounds.actors
    → AllTimely bounds.actors e messages
    → ((a : ℕ) → a < bounds.actors → (has a (arrived c) || arrives a e messages) ≡ true)
    → IsOver e (collect_all bounds c messages)
opens bounds c [] e now g some_actor t all = elim (Bool-cases (is_waiting c.status)) [
  | inr ended ↦ collect_all-IsOver bounds c [] e t (inl ended)
  | inl w ↦
      absurd (complete_is_over bounds.actors c g w some_actor (λ a lt. ground (arith, all a lt)))
]
opens bounds c ((m, stale) ∷ rest) e now g some_actor t all =
    elim (Bool-cases (is_waiting c.status)) [
      | inr ended ↦ collect_all-IsOver bounds c ((m, stale) ∷ rest) e t (inl ended)
      | inl w ↦
          let after = collect bounds c m stale in
          let timely : IsTimely bounds.actors c m = (t.0, rw now t.1) in
          let kept = collect-IsGathering bounds c m stale g w timely in
          rw (collect_all-next bounds c m stale rest w)
            (elim (collect-IsArrival bounds c m stale g w timely) [
              | inl is_over ↦ collect_all-IsOver bounds after rest e t.2 (rw (← now) is_over)
              | inr arrival ↦
                  opens bounds after rest e (arrival.same_epoch ∙ now) kept some_actor t.2
                    (λ a lt. carried c m rest e a now (arrival.counted a) (all a lt))
            ])
    ]

-- Let the loop be in a state that timely messages lead to, with at least one actor, and then receive
-- any messages of its actors for epochs up to the current one, in any order, repeated or late ones
-- among them. If of every actor there is a contribution to the current epoch, waiting or among the
-- messages, then after them the current epoch is over or the loop has ended: it never waits for
-- more.
pub barrier_opens :
    {bounds : Bounds} {c : Collector} (messages : List (Message × Bool))
    → Collects bounds c
    → 0 < bounds.actors
    → AllTimely bounds.actors c.collection_epoch messages
    → ((a : ℕ)
        → a < bounds.actors
        → (has a (arrived c) || arrives a c.collection_epoch messages) ≡ true)
    → IsOver c.collection_epoch (collect_all bounds c messages)
barrier_opens {bounds} {c} messages run =
    opens bounds c messages c.collection_epoch refl (Collects-IsGathering run)
