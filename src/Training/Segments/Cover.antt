-- ===== src/Training/Segments/Cover.antt =====
-- What the segments of a rollout are.
use py_rl_trainer.Prelude.{
  ℕ, ◌≡◌, ◌≢◌, refl, sym, ap, ◌∙◌, List, [], ◌∷◌, ◌++◌, arith, ◌==◌, Bool-cases, inl, inr, ==_iff,
}
use mathlib.Core.List.{append_assoc, append-nil}
use py_rl_trainer.Training.{Transition}
use py_rl_trainer.Training.Segments.{Segment, split_from, split_rollout_by_policy_version}

-- every transition was sampled under `version`
abbrev pub AllVersion : ℕ → List Transition → Type 0
AllVersion version [] = Unit
AllVersion version (t ∷ rest) = (t.policy_version ≡ version) × AllVersion version rest

abbrev pub IsNonempty : List Transition → Type 0
IsNonempty [] = ⊥
IsNonempty (t ∷ rest) = Unit

-- the transitions of the segments, in order
abbrev pub joined : List Segment → List Transition
joined [] = []
joined (s ∷ rest) = s.rollout ++ joined rest

abbrev pub StartsAfter : Segment → ℕ → List Transition → Type 0
StartsAfter s version [] = ⊥
StartsAfter s version (t ∷ rest) = (s.version ≢ version) × (s.bootstrap ≡ t.value)

-- the segment ends where the next begins: at another version and with the value of its first
-- observation; the last one ends with the rollout's bootstrap value
abbrev pub EndsAt : Segment → List Segment → ℕ → Type 0
EndsAt s [] bootstrap = s.bootstrap ≡ bootstrap
EndsAt s (next ∷ rest) bootstrap = StartsAfter s next.version next.rollout

abbrev pub AreSegments : List Segment → ℕ → Type 0
AreSegments [] bootstrap = Unit
AreSegments (s ∷ rest) bootstrap =
    AllVersion s.version s.rollout
    × IsNonempty s.rollout
    × EndsAt s rest bootstrap
    × AreSegments rest bootstrap

pub AllVersion-snoc :
    (version : ℕ) (xs : List Transition) (t : Transition)
    → AllVersion version xs
    → t.policy_version ≡ version
    → AllVersion version (xs ++ (t ∷ []))
AllVersion-snoc version [] t h e = (e, tt)
AllVersion-snoc version (x ∷ xs) t h e = (h.0, AllVersion-snoc version xs t h.1 e)

IsNonempty-snoc : (xs : List Transition) (t : Transition) → IsNonempty (xs ++ (t ∷ []))
IsNonempty-snoc [] t = tt
IsNonempty-snoc (x ∷ xs) t = tt

-- the first segment carries on the one that the loop was given
abbrev FirstOf : ℕ → List Transition → List Segment → Type 0
FirstOf version segment [] = ⊥
FirstOf version segment (s ∷ rest) =
    (s.version ≡ version) × ((later : List Transition) × (s.rollout ≡ segment ++ later))

FirstOf-shorter :
    (version : ℕ) (segment : List Transition) (t : Transition) (segments : List Segment)
    → FirstOf version (segment ++ (t ∷ [])) segments
    → FirstOf version segment segments
FirstOf-shorter version segment t [] f = absurd f
FirstOf-shorter version segment t (s ∷ rest) (e, (later, k)) =
    (e, (t ∷ later, k ∙ append_assoc segment (t ∷ []) later))

split_from-FirstOf :
    (version : ℕ) (segment rest : List Transition) (bootstrap : ℕ)
    → FirstOf version segment (split_from version segment rest bootstrap)
unfolding split_from
split_from-FirstOf version segment [] bootstrap = (refl, ([], sym (append-nil segment)))
split_from-FirstOf version segment (t ∷ rest) bootstrap =
    elim (Bool-cases (t.policy_version == version)) [
      | inl same ↦ rw same (
          FirstOf-shorter version segment t _
            (split_from-FirstOf version (segment ++ (t ∷ [])) rest bootstrap))
      | inr changed ↦ rw changed (refl, ([], sym (append-nil segment)))
    ]

FirstOf-EndsAt :
    (s : Segment) (t : Transition) (segments : List Segment) (bootstrap : ℕ)
    → FirstOf t.policy_version (t ∷ []) segments
    → s.version ≢ t.policy_version
    → s.bootstrap ≡ t.value
    → EndsAt s segments bootstrap
FirstOf-EndsAt s t [] bootstrap f ne e = absurd f
FirstOf-EndsAt s t (next ∷ rest) bootstrap f ne e = rw (f.0, f.1.1) (ne, e)

split_from-AreSegments :
    (version : ℕ) (segment rest : List Transition) (bootstrap : ℕ)
    → AllVersion version segment
    → IsNonempty segment
    → (joined (split_from version segment rest bootstrap) ≡ segment ++ rest)
      × AreSegments (split_from version segment rest bootstrap) bootstrap
unfolding split_from
split_from-AreSegments version segment [] bootstrap h k = (refl, (h, k, refl, tt))
split_from-AreSegments version segment (t ∷ rest) bootstrap h k =
    elim (Bool-cases (t.policy_version == version)) [
      | inl same ↦
          let e : t.policy_version ≡ version = (==_iff t.policy_version version).0 same in
          let (covers, each) =
            split_from-AreSegments version (segment ++ (t ∷ [])) rest bootstrap
              (AllVersion-snoc version segment t h e) (IsNonempty-snoc segment t) in
          rw same (covers ∙ append_assoc segment (t ∷ []) rest, each)
      | inr changed ↦
          let (covers, each) =
            split_from-AreSegments t.policy_version (t ∷ []) rest bootstrap (refl, tt) tt in
          let segments = split_from t.policy_version (t ∷ []) rest bootstrap in
          let closed : Segment = record {
            version = version;
            rollout = segment;
            bootstrap = t.value;
          } in
          let ends =
            FirstOf-EndsAt closed t segments bootstrap
              (split_from-FirstOf t.policy_version (t ∷ []) rest bootstrap) (ground arith) refl in
          rw changed (ap (λ l. segment ++ l) covers, (h, k, ends, each))
    ]

-- The segments of a rollout are in order the rollout; each is a nonempty run of one policy version,
-- ends where the version changes, with the value of the next segment's first observation as its
-- bootstrap value, and the last has the rollout's bootstrap value.
pub split_rollout_by_policy_version-AreSegments :
    (rollout : List Transition) (bootstrap : ℕ)
    → (let segments = split_rollout_by_policy_version rollout bootstrap in
        (joined segments ≡ rollout) × AreSegments segments bootstrap)
unfolding split_rollout_by_policy_version
split_rollout_by_policy_version-AreSegments [] bootstrap = (refl, tt)
split_rollout_by_policy_version-AreSegments (t ∷ rest) bootstrap =
    split_from-AreSegments t.policy_version (t ∷ []) rest bootstrap (refl, tt) tt
