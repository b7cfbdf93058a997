-- ===== src/Distillation/Client/Fetch.antt =====
-- `DistillationClient.fetch` and `commit`.
use py_rl_trainer.Prelude.{
  ℕ, ◌+◌, Bool, true, false, not, ◌&&◌, List, [], ◌∷◌, ◌++◌, ok, err, ◌>>=◌, ◌>>◌, guard, ltb, leb,
  ◌==◌, length, map_result, if◌then◌else◌,
}
use py_rl_trainer.Wire.{Value}
use py_rl_trainer.Wire.Str.{text_eq}
use py_rl_trainer.Distillation.Transport.{
  Checked, hex_number, TeacherChunk, DatasetManifest, pagination, page_bounds, foreign_proposal,
  stale_proposal, lease_mismatch,
}
use py_rl_trainer.Distillation.Hashing.{Sha256}
use py_rl_trainer.Distillation.Client.Descriptor.{
  WireLimits, DescriptorFields, descriptor_from_object,
}
use py_rl_trainer.Distillation.Client.{
  DistillationFetch, TeacherDescriptor, DistillationClient, descriptors_eq, accept_manifest,
  check_order, admit_descriptors, download, gaps_between, last_sequence, count_eligible,
}

-- What the server answers to one fetch.
pub record Answers : Type 0 where
  pub dataset : DatasetManifest
  pub page_chunks : List DescriptorFields
  pub next_cursor : Value
  pub has_more : Bool
  pub lease_chunks : List DescriptorFields
  pub decoded : TeacherDescriptor → Checked TeacherChunk

-- The settled tail of the last page is one more gap.
unfoldable pub has_tail : Answers → List TeacherDescriptor → List TeacherDescriptor → ℕ → Bool
has_tail answers descriptors admitted next_cursor =
    not answers.has_more
    && length admitted == count_eligible answers.dataset.resolved_through descriptors
    && ltb next_cursor answers.dataset.resolved_through

unfoldable pub propose :
    Answers
    → ℕ
    → List TeacherDescriptor
    → List TeacherDescriptor
    → List TeacherChunk
    → DistillationFetch
unfolding has_tail
propose answers cursor descriptors admitted chunks =
    let next = last_sequence cursor admitted in
    let resolved = answers.dataset.resolved_through in
    let tail = has_tail answers descriptors admitted next in
    record {
      manifest = answers.dataset;
      start_cursor = cursor;
      next_cursor = if tail then resolved else next;
      chunks = chunks;
      gaps = gaps_between cursor admitted ++ (if tail then (next + 1, resolved) ∷ [] else []);
    }

-- the descriptors of a page or of a lease
unfoldable pub read_descriptors :
    WireLimits → DatasetManifest → List DescriptorFields → Checked (List TeacherDescriptor)
read_descriptors limits manifest raws =
    map_result (λ raw. descriptor_from_object limits raw manifest.contract) raws

-- `if admitted:` the lease, its check and the downloads
unfoldable pub transfer :
    Sha256
    → WireLimits
    → DistillationClient
    → Answers
    → List TeacherDescriptor
    → Checked (List TeacherChunk)
transfer sha limits client answers [] = ok []
transfer sha limits client answers (d ∷ rest) = do
  guard (length answers.lease_chunks == length (d ∷ rest)) lease_mismatch
  leased ← read_descriptors limits answers.dataset answers.lease_chunks
  guard (descriptors_eq leased (d ∷ rest)) lease_mismatch
  download sha answers.decoded client.owned_bytes 0 (d ∷ rest)

-- `fetch` from the page on
unfoldable pub propose_page :
    Sha256 → WireLimits → DistillationClient → Answers → Checked DistillationFetch
propose_page sha limits client answers = do
  guard (leb (length answers.page_chunks) client.page_size) page_bounds
  descriptors ← read_descriptors limits answers.dataset answers.page_chunks
  last ← check_order answers.dataset.production_watermark client.cursor descriptors
  token ← hex_number answers.next_cursor 16 false
  guard (token == last && not (answers.has_more && length descriptors == 0)) pagination
  let admitted = admit_descriptors answers.dataset.resolved_through client.owned_bytes 0 descriptors
  chunks ← transfer sha limits client answers admitted
  ok (propose answers client.cursor descriptors admitted chunks)

-- `fetch`: its result, and the client after it. The manifest, once accepted, stays when a later
-- check raises; the cursor does not move.
unfoldable pub fetch :
    Sha256
    → WireLimits
    → DistillationClient
    → Answers
    → Checked DistillationFetch × DistillationClient
unfolding propose_page
fetch sha limits client answers = elim (accept_manifest client answers.dataset) [
  | err x ↦ (err x, client)
  | ok after ↦ (propose_page sha limits after answers, after)
]

-- `commit`: whether the cursor moved, and the client after it
unfoldable pub commit : DistillationClient → DistillationFetch → Checked (Bool × DistillationClient)
commit client fetched = do
  guard (text_eq fetched.manifest.contract.capture_epoch client.capture_epoch) foreign_proposal
  if fetched.next_cursor == client.cursor && leb fetched.start_cursor client.cursor
      then ok (false, client)
      else (guard (fetched.start_cursor == client.cursor && leb client.cursor fetched.next_cursor)
            stale_proposal
          >> ok (true, record client { cursor = fetched.next_cursor }))
