-- ===== src/Distillation/Handover/Fetched.antt =====
-- What `fetch` has checked when it returns a proposal.
use py_rl_trainer.Prelude.{
  ℕ, ◌≤◌, ◌≡◌, true, false, Option, none, some, List, arith, length, ok, Result-cases, inl, inr,
}
use py_rl_trainer.Distillation.Transport.{TeacherChunk, DatasetManifest, hex_number}
use py_rl_trainer.Wire.Str.{text_eq}
use py_rl_trainer.Distillation.Hashing.{Sha256}
use py_rl_trainer.Distillation.Client.{
  TeacherDescriptor, DistillationFetch, DistillationClient, admit_descriptors, accept_manifest,
  check_progress, check_order,
}
use py_rl_trainer.Distillation.Client.Descriptor.{WireLimits}
use py_rl_trainer.Distillation.Client.Fetch.{
  propose_page, Answers, propose, read_descriptors, transfer, fetch,
}
use py_rl_trainer.Distillation.Replay.Validation.{AllContract, Extends}
use py_rl_trainer.Distillation.Handover.Tiling.{Rises, Numbered}
use py_rl_trainer.Distillation.Handover.Proposing.{
  read_descriptors-Described, check_order-Rises, admit_descriptors-Described, transfer-Numbered,
}

check_progress-Extends :
    (old : Option DatasetManifest) (next : DatasetManifest)
    → check_progress old next ≡ ok tt
    → Extends old next
unfolding check_progress
check_progress-Extends none next h = tt
check_progress-Extends (some m) next h = ground arith

-- what an accepted manifest leaves of the client
pub record IsRefreshed (client : DistillationClient) (m : DatasetManifest)
    (after : DistillationClient) : Type 0 where
  pub extends : Extends client.manifest m
  pub manifest : after.manifest ≡ some m
  pub cursor : after.cursor ≡ client.cursor
  pub page_size : after.page_size ≡ client.page_size
  pub owned_bytes : after.owned_bytes ≡ client.owned_bytes
  pub capture_epoch : after.capture_epoch ≡ client.capture_epoch
  pub own : text_eq m.contract.capture_epoch client.capture_epoch ≡ true

pub accept_manifest-IsRefreshed :
    (client : DistillationClient) (m : DatasetManifest) {after : DistillationClient}
    → accept_manifest client m ≡ ok after
    → IsRefreshed client m after
unfolding accept_manifest
accept_manifest-IsRefreshed client m h = record {
  extends = check_progress-Extends client.manifest m (ground arith);
  manifest = ground arith;
  cursor = ground arith;
  page_size = ground arith;
  owned_bytes = ground arith;
  capture_epoch = ground arith;
  own = ground arith;
}

-- Everything that `fetch` has checked when it returns, after it has accepted the manifest.
module _ (sha : Sha256) (limits : WireLimits) (client : DistillationClient)
    (answers : Answers) where
  pub record IsFetched (f : DistillationFetch) : Type 0 where
    pub descriptors : List TeacherDescriptor
    pub admitted : List TeacherDescriptor
    pub chunks : List TeacherChunk
    pub rises : Rises client.cursor answers.dataset.resolved_through admitted
    pub numbered : Numbered chunks admitted
    pub contracts : AllContract answers.dataset.contract chunks
    pub few : length admitted ≤ client.page_size
    pub made : f ≡ propose answers client.cursor descriptors admitted chunks

  abbrev admitted_of : List TeacherDescriptor → List TeacherDescriptor
  admitted_of = admit_descriptors answers.dataset.resolved_through client.owned_bytes 0

  parts-IsFetched :
      (ds : List TeacherDescriptor) (chunks : List TeacherChunk) {f : DistillationFetch} {last : ℕ}
      → read_descriptors limits answers.dataset answers.page_chunks ≡ ok ds
      → check_order answers.dataset.production_watermark client.cursor ds ≡ ok last
      → transfer sha limits client answers (admitted_of ds) ≡ ok chunks
      → length answers.page_chunks ≤ client.page_size
      → f ≡ propose answers client.cursor ds (admitted_of ds) chunks
      → IsFetched f
  parts-IsFetched ds chunks read ordered moved page made =
      let described = read_descriptors-Described limits answers.dataset answers.page_chunks read in
      let kept =
        admit_descriptors-Described answers.dataset.contract answers.dataset.resolved_through
          client.owned_bytes 0 ds described.0 in
      let matched = transfer-Numbered sha limits client answers (admitted_of ds) kept.0 moved in
      record {
        descriptors = ds;
        admitted = admitted_of ds;
        chunks = chunks;
        rises =
            check_order-Rises answers.dataset.production_watermark answers.dataset.resolved_through
              client.owned_bytes 0 client.cursor ds ordered;
        numbered = matched.0;
        contracts = matched.1;
        few = omega (arith, kept.1, described.1);
        made = made;
      }

  propose_page-IsFetched :
      {f : DistillationFetch} → propose_page sha limits client answers ≡ ok f → IsFetched f
  unfolding propose_page
  propose_page-IsFetched {f} h =
      elim (Result-cases (read_descriptors limits answers.dataset answers.page_chunks)) [
        | inr (x, e) ↦ ground arith
        | inl (ds, read) ↦
            elim (Result-cases
              (check_order answers.dataset.production_watermark client.cursor ds)) [
                | inr (x, e) ↦ ground arith
                | inl (last, ordered) ↦
                    elim (Result-cases (hex_number answers.next_cursor 16 false)) [
                      | inr (x, e) ↦ ground arith
                      | inl (token, parsed) ↦
                          elim (Result-cases
                            (transfer sha limits client answers (admitted_of ds))) [
                              | inr (x, e) ↦ ground arith
                              | inl (chunks, moved) ↦
                                  parts-IsFetched ds chunks read ordered moved (ground arith)
                                    (ground arith)
                            ]
                    ]
              ]
      ]

-- how a fetch that returned went
pub fetch_parts :
    (sha : Sha256) (limits : WireLimits) (client : DistillationClient) (answers : Answers)
    {f : DistillationFetch} {after : DistillationClient}
    → fetch sha limits client answers ≡ (ok f, after)
    → IsRefreshed client answers.dataset after × IsFetched sha limits after answers f
unfolding fetch
fetch_parts sha limits client answers {f} {after} h =
    elim (Result-cases (accept_manifest client answers.dataset)) [
      | inr (x, e) ↦ ground arith
      | inl (kept, accepted) ↦
          let same : kept ≡ after = ground arith in
          let proposed_it : propose_page sha limits kept answers ≡ ok f = ground arith in
          (
            rw (← same) (accept_manifest-IsRefreshed client answers.dataset accepted),
            propose_page-IsFetched sha limits after answers (rw same at proposed_it),
          )
    ]
