-- ===== src/Distillation/Handover/Admitted.antt =====
-- A proposal of the client, handed to a replay at the same cursor, is admitted.
use py_rl_trainer.Prelude.{
  ◌∙◌, ℕ, ◌≤◌, ◌<◌, ◌≡◌, refl, sym, Bool, true, false, ◌&&◌, Option, none, some, List, ◌++◌, arith,
  length, length-append, ok, inl, inr, leb, Bool-cases, if◌then◌else◌,
}
use py_rl_trainer.Distillation.Transport.{TeacherChunk, DatasetManifest}
use py_rl_trainer.Distillation.Hashing.{Sha256}
use py_rl_trainer.Distillation.Intervals.{Interval}
use py_rl_trainer.Distillation.Client.{
  TeacherDescriptor, DistillationFetch, DistillationClient, gaps_between, last_sequence,
}
use py_rl_trainer.Distillation.Client.Descriptor.{WireLimits}
use py_rl_trainer.Distillation.Client.Fetch.{Answers, has_tail, propose, fetch}
use py_rl_trainer.Distillation.Replay.{Proposal, TeacherReplay, stage, settle, is_retry, admit}
use py_rl_trainer.Distillation.Replay.Planning.{AllFit}
use py_rl_trainer.Distillation.Replay.Validation.{AllContract, AllWithin, Extends, identities_of}
use py_rl_trainer.Distillation.Replay.Admission.{IsSound, IsBound, staged}
use py_rl_trainer.Distillation.Replay.Taken.{IsTaken, admit-IsTaken}
use py_rl_trainer.Distillation.Handover.Tiling.{Rises, Numbered, tail_gap, proposal_covers}
use py_rl_trainer.Distillation.Handover.Fetched.{fetch_parts}
use py_rl_trainer.Distillation.Handover.Succession.{Precedes, Precedes-Extends}
use py_rl_trainer.Distillation.Handover.Accepted.{
  check_manifest-ok, check_chunks-ok, check_gaps-ok, last_sequence_bounds, gaps_between-AllWithin,
  Numbered-Ascends, length-Numbered, length-gaps_between, check_cover-ok,
}

module _ (sha : Sha256) (r : TeacherReplay) (m : DatasetManifest) (cursor : ℕ)
    (ds : List TeacherDescriptor) (cs : List TeacherChunk) (tail : Bool) where
  abbrev last : ℕ
  last = last_sequence cursor ds

  abbrev next : ℕ
  next = if tail then m.resolved_through else last

  abbrev all_gaps : List Interval
  all_gaps = gaps_between cursor ds ++ tail_gap tail last m.resolved_through

  abbrev proposed : DistillationFetch
  proposed = record {
    manifest = m;
    start_cursor = cursor;
    next_cursor = next;
    chunks = cs;
    gaps = all_gaps;
  }

  tail_gap-AllWithin :
      cursor ≤ last
      → (tail ≡ true → last < m.resolved_through)
      → AllWithin cursor next (tail_gap tail last m.resolved_through)
  tail_gap-AllWithin le below = elim (Bool-cases tail) [
    | inl yes_tail ↦
        let room : last < m.resolved_through = below yes_tail in rw yes_tail (omega arith)
    | inr no_tail ↦ rw no_tail tt
  ]

  stage-proposed :
      Extends r.manifest m
      → cursor ≤ m.resolved_through
      → Rises cursor m.resolved_through ds
      → Numbered cs ds
      → AllContract m.contract cs
      → AllFit r.max_bytes cs
      → length ds ≤ 256
      → (tail ≡ true → last < m.resolved_through)
      → stage sha r proposed
        ≡ ok (record {
          start = cursor;
          end = next;
          identities = identities_of sha cs;
          gaps = all_gaps;
        })
  unfolding stage
  stage-proposed e c h n k f few below =
      let (low, high) = last_sequence_bounds cursor m.resolved_through ds c h in
      let forward : last ≤ next = ground arith in
      let settled : next ≤ m.resolved_through = ground arith in
      let bounds_ok : (leb cursor next && leb next m.resolved_through) ≡ true = ground arith in
      let tail_size : length (tail_gap tail last m.resolved_through) ≤ 1 = ground arith in
      let chunk_count : length cs ≤ 256 = omega (arith, length-Numbered cs ds n) in
      let gap_count : length all_gaps ≤ 257 = omega (
        arith,
        length-append (gaps_between cursor ds) (tail_gap tail last m.resolved_through),
        length-gaps_between cursor ds,
      ) in
      let sizes_ok : (leb (length cs) 256 && leb (length all_gaps) 257) ≡ true = ground arith in
      let chunks_ok =
        check_chunks-ok sha m r.max_bytes next cursor cs
          (Numbered-Ascends cursor m.resolved_through next cs ds h n forward) k f in
      let gaps_ok = check_gaps-ok cursor next all_gaps (
        gaps_between-AllWithin cursor cursor m.resolved_through next ds
          (tail_gap tail last m.resolved_through) (omega arith) h c forward
          (tail_gap-AllWithin low below)) in
      let covers = proposal_covers cursor m.resolved_through cs ds tail h n in
      rw (
        check_manifest-ok r.manifest m e,
        bounds_ok,
        sizes_ok,
        chunks_ok,
        gaps_ok,
        covers,
        check_cover-ok next,
      )

admit-staged :
    (sha : Sha256) (r : TeacherReplay) (f : DistillationFetch) {identity : Proposal}
    → stage sha r f ≡ ok identity
    → f.start_cursor ≡ r.cursor
    → (fresh : Bool) × (r' : TeacherReplay) × (admit sha r f ≡ ok (fresh, r'))
admit-staged sha r f {identity} staged at_cursor =
    elim (Bool-cases (is_retry identity r.last_proposal)) [
      | inl same ↦
          (false, record r { manifest = some f.manifest }, unfold admit in ground (arith, staged))
      | inr other ↦ (true, settle r f identity, unfold admit in ground (arith, staged, at_cursor))
    ]

cursor-settled :
    (old : Option DatasetManifest) (m : DatasetManifest) (cursor : ℕ) (chunks : List TeacherChunk)
    → Extends old m
    → IsBound old cursor chunks
    → cursor ≤ m.resolved_through
cursor-settled none m cursor chunks e b = omega arith
cursor-settled (some old) m cursor chunks e b = omega arith

propose_admitted :
    (sha : Sha256) (answers : Answers) (r : TeacherReplay) (cursor : ℕ)
    (descriptors ds : List TeacherDescriptor) (cs : List TeacherChunk)
    → Extends r.manifest answers.dataset
    → r.cursor ≡ cursor
    → cursor ≤ answers.dataset.resolved_through
    → Rises cursor answers.dataset.resolved_through ds
    → Numbered cs ds
    → AllContract answers.dataset.contract cs
    → AllFit r.max_bytes cs
    → length ds ≤ 256
    → (fresh : Bool) × (r' : TeacherReplay) × (admit sha r
          (propose answers cursor descriptors ds cs)
        ≡ ok (fresh, r'))
unfolding propose has_tail
propose_admitted sha answers r cursor descriptors ds cs extends at settled rises numbered contracts
      fit few =
    let tail = has_tail answers descriptors ds (last_sequence cursor ds) in
    admit-staged sha r (proposed sha r answers.dataset cursor ds cs tail)
      (stage-proposed sha r answers.dataset cursor ds cs tail extends settled rises numbered
        contracts fit few (λ yes_tail. ground arith))
      (sym at)

fetch_passes :
    (sha : Sha256) (limits : WireLimits) (client : DistillationClient) (answers : Answers)
    (r : TeacherReplay) (f : DistillationFetch) {after : DistillationClient}
    → fetch sha limits client answers ≡ (ok f, after)
    → IsSound r
    → r.cursor ≡ client.cursor
    → Precedes r.manifest client.manifest
    → client.page_size ≤ 256
    → AllFit r.max_bytes f.chunks
    → (fresh : Bool) × (r' : TeacherReplay) × (admit sha r f ≡ ok (fresh, r'))
fetch_passes sha limits client answers r f {after} fetched sound same_cursor follows page fit =
    let (refreshed, parts) = fetch_parts sha limits client answers fetched in
    let extends =
      Precedes-Extends r.manifest client.manifest answers.dataset follows refreshed.extends in
    let at : r.cursor ≡ after.cursor = same_cursor ∙ sym refreshed.cursor in
    let settled : after.cursor ≤ answers.dataset.resolved_through =
      rw (← at) (cursor-settled r.manifest answers.dataset r.cursor r.chunks extends sound.bound) in
    let parts_chunks : f.chunks ≡ parts.chunks = rw parts.made (unfold propose in refl) in
    let fit' : AllFit r.max_bytes parts.chunks = rw (← parts_chunks) fit in
    rw parts.made (
      propose_admitted sha answers r after.cursor parts.descriptors parts.admitted parts.chunks
        extends at settled parts.rises parts.numbered parts.contracts fit'
        (omega (arith, parts.few, page, refreshed.page_size)))

-- Let a client and a sound replay stand at the same cursor, the client's manifest following that of
-- the replay, with a page size of at most 256, as the client's constructor demands. Whatever the
-- server answers, if `fetch` returns a proposal, and each of its chunks alone fits the replay's byte
-- ceiling, then the replay admits it: none of the order, gap, coverage, count or watermark checks
-- of `admit` can refuse it. The replay is sound again and bound to the manifest of the proposal,
-- and, unless it took the proposal for the last one again, it stands at the proposal's end with
-- every sample of before and of the proposal retained or counted as evicted.
pub fetch_admitted :
    (sha : Sha256) (limits : WireLimits) (client : DistillationClient) (answers : Answers)
    (r : TeacherReplay) (f : DistillationFetch) {after : DistillationClient}
    → fetch sha limits client answers ≡ (ok f, after)
    → IsSound r
    → r.cursor ≡ client.cursor
    → Precedes r.manifest client.manifest
    → client.page_size ≤ 256
    → AllFit r.max_bytes f.chunks
    → (fresh : Bool) × (r' : TeacherReplay) × (admit sha r f ≡ ok (fresh, r'))
      × IsTaken r f fresh r'
fetch_admitted sha limits client answers r f fetched sound same_cursor follows page fit =
    let (fresh, r', passed) =
      fetch_passes sha limits client answers r f fetched sound same_cursor follows page fit in
    (fresh, r', passed, admit-IsTaken sha r f sound passed)
