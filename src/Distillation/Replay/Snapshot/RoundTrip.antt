-- ===== src/Distillation/Replay/Snapshot/RoundTrip.antt =====
-- A replay that admissions have built is restored from its snapshot as it was.
use py_rl_trainer.Prelude.{
  ◌⊎◌, inl, inr, ℕ, ◌+◌, ◌^◌, ◌≤◌, ◌<◌, ◌≡◌, refl, ap, Bool, true, false, Option, none, some, List,
  [], ◌∷◌, ◌++◌, ok, arith, map, length, length-map,
}
use py_rl_trainer.Wire.{str}
use py_rl_trainer.Wire.Str.{Text}
use py_rl_trainer.Wire.Hex.{matches_hex}
use py_rl_trainer.Wire.Hex.Laws.{hex16_roundtrip}
use py_rl_trainer.Distillation.Transport.{
  hex_identity, hex_number, DatasetManifest, TeacherChunk, contract_eq,
}
use py_rl_trainer.Distillation.Intervals.{Interval, sorted, cover}
use py_rl_trainer.Distillation.Intervals.Coverage.{AllForward, cover-forward, sorted-AllForward}
use py_rl_trainer.Distillation.Replay.{Proposal, cost}
use py_rl_trainer.Distillation.Replay.Eviction.{total_cost}
use py_rl_trainer.Distillation.Replay.Validation.{Ascends, AllContract, AllWithin, contract_eq_refl}
use py_rl_trainer.Distillation.Replay.Order.{Ascends-le}
use py_rl_trainer.Distillation.Replay.Snapshot.{
  word, identity_fields, gap_fields, last_fields, check_retained, follows, parse_identities,
  parse_gaps, identity_intervals, cover_within, check_retry_cover, parse_last,
}

pub hex_number-word :
    (n : ℕ) (nonzero : Bool)
    → n < 2 ^ 64
    → (nonzero ≡ false) ⊎ (0 < n)
    → hex_number (word n) 16 nonzero ≡ ok n
unfolding hex_number
hex_number-word n nonzero bound positive = ground (arith, hex16_roundtrip n bound)

hex_identity-digest : (d : Text) → matches_hex 64 d ≡ true → hex_identity (str d) 64 false ≡ ok d
unfolding hex_identity
hex_identity-digest d h = ground arith

-- the identities of a retry: rising sequences up to `end`, each with a digest
abbrev pub AllIdentities : Option ℕ → ℕ → List (ℕ × Text) → Type 0
AllIdentities last end [] = Unit
AllIdentities last end ((sequence, digest) ∷ rest) =
    (follows last sequence ≡ true)
    × (0 < sequence)
    × (sequence ≤ end)
    × (matches_hex 64 digest ≡ true)
    × AllIdentities (some sequence) end rest

parse_identities-fields :
    (last : Option ℕ) (end : ℕ) (l : List (ℕ × Text))
    → end < 2 ^ 64
    → AllIdentities last end l
    → parse_identities last (map identity_fields l) ≡ ok l
unfolding parse_identities
parse_identities-fields last end [] bound h = refl
parse_identities-fields last end ((s, d) ∷ l) bound h = ground (
  arith,
  hex_number-word s true (omega arith) (inr h.1),
  hex_identity-digest d h.3,
  parse_identities-fields (some s) end l bound h.4,
)

parse_gaps-fields :
    (start end : ℕ) (l : List Interval)
    → end < 2 ^ 64
    → AllWithin start end l
    → parse_gaps (map gap_fields l) ≡ ok l
unfolding parse_gaps
parse_gaps-fields start end [] bound h = refl
parse_gaps-fields start end ((low, high) ∷ l) bound h = ground (
  arith,
  hex_number-word low true (omega arith) (inr (omega arith)),
  hex_number-word high true (omega arith) (inr (omega arith)),
  parse_gaps-fields start end l bound h.3,
)

cover_within-cover :
    (end covered : ℕ) (l : List Interval)
    → AllForward l
    → cover covered l ≡ some end
    → cover_within end covered l ≡ some end
unfolding cover cover_within
cover_within-cover end covered [] f h = h
cover_within-cover end covered ((low, high) ∷ rest) f h =
    ground (arith, cover_within-cover end high rest f.1, cover-forward high end rest f.1)

pub check_retained_sound :
    (m : DatasetManifest) (max_bytes cursor owned previous : ℕ) (chunks : List TeacherChunk)
    → Ascends previous cursor chunks
    → AllContract m.contract chunks
    → owned + total_cost chunks ≤ max_bytes
    → check_retained m max_bytes cursor owned previous chunks ≡ ok (owned + total_cost chunks)
unfolding check_retained
check_retained_sound m max_bytes cursor owned previous [] a k h = ap ok (omega arith)
check_retained_sound m max_bytes cursor owned previous (chunk ∷ rest) a k h =
    let same : contract_eq chunk.contract m.contract ≡ true =
      rw k.0 (contract_eq_refl m.contract) in
    let total : owned + cost chunk + total_cost rest ≡ owned + (cost chunk + total_cost rest) =
      omega arith in
    ground (
      arith,
      Ascends-le chunk.sequence cursor rest a.1,
      check_retained_sound m max_bytes cursor (owned + cost chunk) chunk.sequence rest a.1 k.1
          (omega arith),
    )

-- What the last proposal of a replay satisfies, so that its snapshot is accepted.
pub record IsProposal (cursor : ℕ) (p : Proposal) : Type 0 where
  pub forward : p.start ≤ p.end
  pub at_cursor : p.end ≡ cursor
  pub few_chunks : length p.identities ≤ 256
  pub few_gaps : length p.gaps ≤ 257
  pub identities : AllIdentities none p.end p.identities
  pub within : AllWithin p.start p.end p.gaps
  pub covered : cover p.start (sorted (identity_intervals p.identities ++ p.gaps)) ≡ some p.end

abbrev pub IsRetryable : ℕ → Option Proposal → Type 0
IsRetryable cursor none = Unit
IsRetryable cursor (some p) = IsProposal cursor p

gaps-AllForward :
    (start end : ℕ) (gaps : List Interval) → AllWithin start end gaps → AllForward gaps
gaps-AllForward start end [] h = tt
gaps-AllForward start end ((low, high) ∷ rest) h = (h.1, gaps-AllForward start end rest h.3)

identity_intervals-AllForward :
    (ids : List (ℕ × Text)) (gaps : List Interval)
    → AllForward gaps
    → AllForward (identity_intervals ids ++ gaps)
unfolding identity_intervals
identity_intervals-AllForward [] gaps h = h
identity_intervals-AllForward ((s, d) ∷ ids) gaps h =
    (omega arith, identity_intervals-AllForward ids gaps h)

pub parse_last-fields :
    (cursor : ℕ) (last : Option Proposal)
    → cursor < 2 ^ 64
    → IsRetryable cursor last
    → parse_last cursor (last_fields last) ≡ ok last
unfolding parse_last last_fields check_retry_cover
parse_last-fields cursor none bound h = refl
parse_last-fields cursor (some p) bound h =
    let all = identity_intervals p.identities ++ p.gaps in
    let forward : AllForward all =
      identity_intervals-AllForward p.identities p.gaps
        (gaps-AllForward p.start p.end p.gaps h.within) in
    let covered : cover_within p.end p.start (sorted all) ≡ some p.end =
      cover_within-cover p.end p.start (sorted all) (sorted-AllForward all forward) h.covered in
    ground (
      arith,
      hex_number-word p.start false (omega (arith, h.forward, h.at_cursor)) (inl refl),
      hex_number-word p.end false (omega (arith, h.at_cursor)) (inl refl),
      parse_identities-fields none p.end p.identities (omega (arith, h.at_cursor)) h.identities,
      parse_gaps-fields p.start p.end p.gaps (omega (arith, h.at_cursor)) h.within,
      length-map p.identities identity_fields,
      length-map p.gaps gap_fields,
      h.few_chunks,
      h.few_gaps,
      h.at_cursor,
      covered,
      h.forward,
    )
