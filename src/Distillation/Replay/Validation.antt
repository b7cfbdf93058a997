-- ===== src/Distillation/Replay/Validation.antt =====
-- What the checks of `admit` establish of a proposal, before anything is assigned.
use py_rl_trainer.Prelude.{
  ℕ, ◌-◌, ◌≤◌, ◌<◌, ◌≡◌, ap, ◌∙◌, true, Option, none, some, List, [], ◌∷◌, ◌++◌, arith, length, ok,
  Result-cases, inl, inr,
}
use py_rl_trainer.Prelude.Int.{pos}
use py_rl_trainer.Wire.{int}
use py_rl_trainer.Wire.Str.{Text, text_eq_iff, text_eq_refl}
use py_rl_trainer.Distillation.Transport.{
  TeacherChunk, TeacherContract, DatasetManifest, contract_eq, compatible, integer,
}
use py_rl_trainer.Distillation.Hashing.{Sha256, hexdigest}
use py_rl_trainer.Distillation.Intervals.{Interval, sorted, cover}
use py_rl_trainer.Distillation.Client.{DistillationFetch}
use py_rl_trainer.Distillation.Replay.{
  Proposal, TeacherReplay, replay_fixed_bytes, cost, check_manifest, check_chunks, check_gaps,
  check_cover, chunk_intervals, stage,
}
use py_rl_trainer.Distillation.Replay.Planning.{AllFit}

-- Equal by `==` is equal.
pub contract_eq_sound : (a b : TeacherContract) → contract_eq a b ≡ true → a ≡ b
unfolding contract_eq
contract_eq_sound a b h = ground (
  arith,
  text_eq_iff a.capture_epoch b.capture_epoch,
  text_eq_iff a.run_id b.run_id,
  text_eq_iff a.config_sha256 b.config_sha256,
  text_eq_iff a.sensor_sha256 b.sensor_sha256,
  text_eq_iff a.teacher_sha256 b.teacher_sha256,
)

pub contract_eq_refl : (a : TeacherContract) → contract_eq a a ≡ true
unfolding contract_eq
contract_eq_refl a = ground (
  arith,
  text_eq_refl a.capture_epoch,
  text_eq_refl a.run_id,
  text_eq_refl a.config_sha256,
  text_eq_refl a.sensor_sha256,
  text_eq_refl a.teacher_sha256,
)

-- the sequences rise strictly from above `previous`, and none passes `cursor`
abbrev pub Ascends : ℕ → ℕ → List TeacherChunk → Type 0
Ascends previous cursor [] = previous ≤ cursor
Ascends previous cursor (chunk ∷ rest) =
    (previous < chunk.sequence) × Ascends chunk.sequence cursor rest

abbrev pub AllContract : TeacherContract → List TeacherChunk → Type 0
AllContract contract [] = Unit
AllContract contract (chunk ∷ rest) = (chunk.contract ≡ contract) × AllContract contract rest

abbrev pub identities_of : Sha256 → List TeacherChunk → List (ℕ × Text)
identities_of sha [] = []
identities_of sha (chunk ∷ rest) =
    (chunk.sequence, hexdigest sha chunk.raw_bytes) ∷ identities_of sha rest

-- every gap lies between the cursors
abbrev pub AllWithin : ℕ → ℕ → List Interval → Type 0
AllWithin start next [] = Unit
AllWithin start next ((low, high) ∷ rest) =
    (start < low) × (low ≤ high) × (high ≤ next) × AllWithin start next rest

pub integer-eq-ok :
    (n low high : ℕ) {k : ℕ}
    → integer (int (pos n)) low high ≡ ok k
    → (low ≤ n) × (n ≤ high) × (k ≡ n)
unfolding integer
integer-eq-ok n low high h = ground arith

pub check_gaps-AllWithin :
    (start next : ℕ) (gaps : List Interval)
    → check_gaps start next gaps ≡ ok tt
    → AllWithin start next gaps
unfolding check_gaps integer
check_gaps-AllWithin start next [] h = tt
check_gaps-AllWithin start next ((low, high) ∷ rest) h =
    ground (arith, check_gaps-AllWithin start next rest)

module _ (sha : Sha256) (manifest : DatasetManifest) (max_bytes next : ℕ) where
  pub record IsChecked (previous : ℕ) (chunks : List TeacherChunk) (ids : List (ℕ × Text))
      : Type 0 where
    pub ordered : Ascends previous next chunks
    pub contracts : AllContract manifest.contract chunks
    pub fit : AllFit max_bytes chunks
    pub identities : ids ≡ identities_of sha chunks

  pub check_chunks-IsChecked :
      (previous : ℕ) (chunks : List TeacherChunk) {ids : List (ℕ × Text)}
      → replay_fixed_bytes ≤ max_bytes
      → previous ≤ next
      → check_chunks sha manifest (max_bytes - replay_fixed_bytes) next previous chunks ≡ ok ids
      → IsChecked previous chunks ids
  unfolding check_chunks
  check_chunks-IsChecked previous [] room le h = record {
    ordered = le;
    contracts = tt;
    fit = tt;
    identities = ground arith;
  }
  check_chunks-IsChecked previous (chunk ∷ rest) {ids} room le h =
      elim (Result-cases
        (check_chunks sha manifest (max_bytes - replay_fixed_bytes) next chunk.sequence rest)) [
          | inl (tail, e) ↦
              let tests : (contract_eq chunk.contract manifest.contract ≡ true)
                  × (previous < chunk.sequence)
                  × (chunk.sequence ≤ next)
                  × (cost chunk ≤ max_bytes - replay_fixed_bytes)
                  × (ids ≡ (chunk.sequence, hexdigest sha chunk.raw_bytes) ∷ tail) =
                ground arith in
              let later = check_chunks-IsChecked chunk.sequence rest room tests.2 e in
              record {
                ordered = (tests.1, later.ordered);
                contracts =
                    (contract_eq_sound chunk.contract manifest.contract tests.0, later.contracts);
                fit = (omega arith, later.fit);
                identities =
                    tests.4
                    ∙ ap (λ l. (chunk.sequence, hexdigest sha chunk.raw_bytes) ∷ l)
                        later.identities;
              }
          | inr (x, e) ↦ ground arith
        ]

-- a later manifest of the same dataset
abbrev pub Extends : Option DatasetManifest → DatasetManifest → Type 0
Extends none next = Unit
Extends (some old) next =
    (compatible old next ≡ true)
    × (old.production_watermark ≤ next.production_watermark)
    × (old.resolved_through ≤ next.resolved_through)
    × (old.storage_watermark ≤ next.storage_watermark)

check_manifest-Extends :
    (old : Option DatasetManifest) (next : DatasetManifest)
    → check_manifest old next ≡ ok tt
    → Extends old next
unfolding check_manifest
check_manifest-Extends none next h = tt
check_manifest-Extends (some old) next h = ground arith

check_cover-eq-ok : (c : Option ℕ) (next : ℕ) → check_cover c next ≡ ok tt → c ≡ some next
unfolding check_cover
check_cover-eq-ok none next h = cc
check_cover-eq-ok (some covered) next h = ground arith

-- Everything that `stage` has checked when it returns an identity.
module _ (sha : Sha256) (replay : TeacherReplay) (fetched : DistillationFetch) where
  pub record IsStaged (identity : Proposal) : Type 0 where
    pub extends : Extends replay.manifest fetched.manifest
    pub forward : fetched.start_cursor ≤ fetched.next_cursor
    pub settled : fetched.next_cursor ≤ fetched.manifest.resolved_through
    pub few_chunks : length fetched.chunks ≤ 256
    pub few_gaps : length fetched.gaps ≤ 257
    pub checked :
        IsChecked sha fetched.manifest replay.max_bytes fetched.next_cursor fetched.start_cursor
          fetched.chunks identity.identities
    pub within : AllWithin fetched.start_cursor fetched.next_cursor fetched.gaps
    pub covered :
        cover fetched.start_cursor (sorted (chunk_intervals fetched.chunks ++ fetched.gaps))
        ≡ some fetched.next_cursor
    pub start : identity.start ≡ fetched.start_cursor
    pub end : identity.end ≡ fetched.next_cursor
    pub gaps : identity.gaps ≡ fetched.gaps

  pub stage-IsStaged :
      {identity : Proposal}
      → replay_fixed_bytes ≤ replay.max_bytes
      → stage sha replay fetched ≡ ok identity
      → IsStaged identity
  unfolding stage
  stage-IsStaged {identity} room h =
      elim (Result-cases (
        check_chunks sha fetched.manifest (replay.max_bytes - replay_fixed_bytes)
          fetched.next_cursor fetched.start_cursor fetched.chunks)) [
            | inr (x, e) ↦ ground arith
            | inl (ids, e) ↦
                let calls : (check_manifest replay.manifest fetched.manifest ≡ ok tt)
                    × (check_gaps fetched.start_cursor fetched.next_cursor fetched.gaps ≡ ok tt)
                    × (check_cover
                          (cover fetched.start_cursor
                            (sorted (chunk_intervals fetched.chunks ++ fetched.gaps)))
                          fetched.next_cursor
                        ≡ ok tt) =
                  ground arith in
                let tests : (fetched.start_cursor ≤ fetched.next_cursor)
                    × (fetched.next_cursor ≤ fetched.manifest.resolved_through)
                    × (length fetched.chunks ≤ 256)
                    × (length fetched.gaps ≤ 257)
                    × (identity.start ≡ fetched.start_cursor)
                    × (identity.end ≡ fetched.next_cursor)
                    × (identity.identities ≡ ids)
                    × (identity.gaps ≡ fetched.gaps) =
                  ground arith in
                record {
                  extends = check_manifest-Extends replay.manifest fetched.manifest calls.0;
                  forward = tests.0;
                  settled = tests.1;
                  few_chunks = tests.2;
                  few_gaps = tests.3;
                  checked = rw tests.6 (
                      check_chunks-IsChecked sha fetched.manifest replay.max_bytes
                        fetched.next_cursor fetched.start_cursor fetched.chunks room tests.0 e);
                  within =
                      check_gaps-AllWithin fetched.start_cursor fetched.next_cursor fetched.gaps
                        calls.1;
                  covered = check_cover-eq-ok _ fetched.next_cursor calls.2;
                  start = tests.4;
                  end = tests.5;
                  gaps = tests.7;
                }
          ]
