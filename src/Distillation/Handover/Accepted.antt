-- ===== src/Distillation/Handover/Accepted.antt =====
-- Each check of `_stage`, met by the chunks and gaps of a proposal.
use py_rl_trainer.Prelude.{
  refl, ℕ, ◌-◌, ◌≤◌, ◌≡◌, refl, true, Option, none, some, List, [], ◌∷◌, ◌++◌, arith, length, ok,
}
use py_rl_trainer.Distillation.Transport.{TeacherChunk, DatasetManifest, integer, contract_eq}
use py_rl_trainer.Distillation.Hashing.{Sha256}
use py_rl_trainer.Distillation.Intervals.{Interval}
use py_rl_trainer.Distillation.Client.{TeacherDescriptor, gaps_between, last_sequence}
use py_rl_trainer.Distillation.Replay.{
  replay_fixed_bytes, check_manifest, check_chunks, check_gaps, check_cover,
}
use py_rl_trainer.Distillation.Replay.Planning.{AllFit}
use py_rl_trainer.Distillation.Replay.Validation.{
  Ascends, AllContract, AllWithin, Extends, identities_of, contract_eq_refl,
}
use py_rl_trainer.Distillation.Replay.Order.{Ascends-le}
use py_rl_trainer.Distillation.Handover.Tiling.{Rises, Numbered}

pub check_manifest-ok :
    (old : Option DatasetManifest) (next : DatasetManifest)
    → Extends old next
    → check_manifest old next ≡ ok tt
unfolding check_manifest
check_manifest-ok none next e = refl
check_manifest-ok (some m) next e = ground arith

pub check_chunks-ok :
    (sha : Sha256) (m : DatasetManifest) (max_bytes next previous : ℕ) (cs : List TeacherChunk)
    → Ascends previous next cs
    → AllContract m.contract cs
    → AllFit max_bytes cs
    → check_chunks sha m (max_bytes - replay_fixed_bytes) next previous cs
      ≡ ok (identities_of sha cs)
unfolding check_chunks
check_chunks-ok sha m max_bytes next previous [] a k f = refl
check_chunks-ok sha m max_bytes next previous (c ∷ cs) a k f =
    let same : contract_eq c.contract m.contract ≡ true = rw k.0 (contract_eq_refl m.contract) in
    ground (
      arith,
      Ascends-le c.sequence next cs a.1,
      check_chunks-ok sha m max_bytes next c.sequence cs a.1 k.1 f.1,
    )

pub check_gaps-ok :
    (start next : ℕ) (gaps : List Interval)
    → AllWithin start next gaps
    → check_gaps start next gaps ≡ ok tt
unfolding check_gaps integer
check_gaps-ok start next [] h = refl
check_gaps-ok start next ((low, high) ∷ rest) h = ground (arith, check_gaps-ok start next rest h.3)

pub last_sequence_bounds :
    (cursor resolved : ℕ) (ds : List TeacherDescriptor)
    → cursor ≤ resolved
    → Rises cursor resolved ds
    → (cursor ≤ last_sequence cursor ds) × (last_sequence cursor ds ≤ resolved)
unfolding last_sequence
last_sequence_bounds cursor resolved [] le h = (omega arith, le)
last_sequence_bounds cursor resolved (d ∷ ds) le h =
    omega (arith, last_sequence_bounds d.sequence resolved ds h.1 h.2)

pub gaps_between-AllWithin :
    (start cursor resolved next : ℕ) (ds : List TeacherDescriptor) (tail : List Interval)
    → start ≤ cursor
    → Rises cursor resolved ds
    → cursor ≤ resolved
    → last_sequence cursor ds ≤ next
    → AllWithin start next tail
    → AllWithin start next (gaps_between cursor ds ++ tail)
unfolding gaps_between last_sequence
gaps_between-AllWithin start cursor resolved next [] tail le h b l t = t
gaps_between-AllWithin start cursor resolved next (d ∷ ds) tail le h b l t = ground (
  arith,
  gaps_between-AllWithin start d.sequence resolved next ds tail (omega arith) h.2 h.1 l t,
  last_sequence_bounds d.sequence resolved ds h.1 h.2,
)

pub Numbered-Ascends :
    (cursor resolved next : ℕ) (cs : List TeacherChunk) (ds : List TeacherDescriptor)
    → Rises cursor resolved ds
    → Numbered cs ds
    → last_sequence cursor ds ≤ next
    → Ascends cursor next cs
unfolding last_sequence
Numbered-Ascends cursor resolved next [] [] h n l = l
Numbered-Ascends cursor resolved next [] (d ∷ ds) h n l = absurd n
Numbered-Ascends cursor resolved next (c ∷ cs) [] h n l = absurd n
Numbered-Ascends cursor resolved next (c ∷ cs) (d ∷ ds) h n l =
    rw n.0 (h.0, Numbered-Ascends d.sequence resolved next cs ds h.2 n.1 l)

pub length-Numbered :
    (cs : List TeacherChunk) (ds : List TeacherDescriptor) → Numbered cs ds → length cs ≡ length ds
length-Numbered [] [] n = refl
length-Numbered [] (d ∷ ds) n = absurd n
length-Numbered (c ∷ cs) [] n = absurd n
length-Numbered (c ∷ cs) (d ∷ ds) n = omega (arith, length-Numbered cs ds n.1)

pub length-gaps_between :
    (cursor : ℕ) (ds : List TeacherDescriptor) → length (gaps_between cursor ds) ≤ length ds
unfolding gaps_between
length-gaps_between cursor [] = omega arith
length-gaps_between cursor (d ∷ ds) = ground (arith, length-gaps_between d.sequence ds)

pub check_cover-ok : (next : ℕ) → check_cover (some next) next ≡ ok tt
unfolding check_cover
check_cover-ok next = ground arith
