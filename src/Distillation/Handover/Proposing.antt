-- ===== src/Distillation/Handover/Proposing.antt =====
-- What a fetch that returned has established of its descriptors and chunks.
use py_rl_trainer.Prelude.{
  ℕ, ◌+◌, ◌*◌, ◌≤◌, ◌≡◌, refl, sym, ◌∙◌, true, List, [], ◌∷◌, arith, length, ok, Result-cases, inl,
  inr, map_result-cons,
}
use py_rl_trainer.Distillation.Transport.{
  Checked, TeacherContract, TeacherChunk, DatasetManifest, contract_eq, byte_cost,
}
use py_rl_trainer.Distillation.Hashing.{Sha256}
use py_rl_trainer.Distillation.Client.{
  TeacherDescriptor, DistillationClient, check_descriptor, check_order, admit_descriptors, download,
}
use py_rl_trainer.Distillation.Client.Descriptor.{
  WireLimits, DescriptorFields, descriptor_from_object,
}
use py_rl_trainer.Distillation.Client.Fetch.{Answers, read_descriptors, transfer}
use py_rl_trainer.Distillation.Replay.Validation.{AllContract, contract_eq_sound}
use py_rl_trainer.Distillation.Handover.Tiling.{Rises, Numbered}

abbrev pub Described : TeacherContract → List TeacherDescriptor → Type 0
Described contract [] = Unit
Described contract (d ∷ rest) = (d.contract ≡ contract) × Described contract rest

descriptor_from_object-contract :
    (limits : WireLimits) (raw : DescriptorFields) (contract : TeacherContract)
    {d : TeacherDescriptor}
    → descriptor_from_object limits raw contract ≡ ok d
    → d.contract ≡ contract
unfolding descriptor_from_object
descriptor_from_object-contract limits raw contract h = ground arith

pub read_descriptors-Described :
    (limits : WireLimits) (m : DatasetManifest) (raws : List DescriptorFields)
    {ds : List TeacherDescriptor}
    → read_descriptors limits m raws ≡ ok ds
    → Described m.contract ds × (length ds ≡ length raws)
unfolding read_descriptors
read_descriptors-Described limits m [] {ds} h = let e : ds ≡ [] = ground arith in rw e (tt, refl)
read_descriptors-Described limits m (raw ∷ rest) {ds} h =
    let (d, later, first, more, e) =
      map_result-cons (λ raw. descriptor_from_object limits raw m.contract) raw rest h in
    let (described, size) = read_descriptors-Described limits m rest {ds = later} more in
    rw e ((descriptor_from_object-contract limits raw m.contract first, described), omega arith)

pub check_order-Rises :
    (production resolved budget cost previous : ℕ) (ds : List TeacherDescriptor) {last : ℕ}
    → check_order production previous ds ≡ ok last
    → Rises previous resolved (admit_descriptors resolved budget cost ds)
unfolding check_order admit_descriptors
check_order-Rises production resolved budget cost previous [] h = tt
check_order-Rises production resolved budget cost previous (d ∷ rest) {last} h = ground (
  arith,
  check_order-Rises production resolved budget (cost + 2 * d.byte_count + 4096) d.sequence rest
      {last = last},
)

pub admit_descriptors-Described :
    (contract : TeacherContract) (resolved budget cost : ℕ) (ds : List TeacherDescriptor)
    → Described contract ds
    → Described contract (admit_descriptors resolved budget cost ds)
      × (length (admit_descriptors resolved budget cost ds) ≤ length ds)
unfolding admit_descriptors
admit_descriptors-Described contract resolved budget cost [] h = (tt, omega arith)
admit_descriptors-Described contract resolved budget cost (d ∷ rest) h = ground (
  arith,
  admit_descriptors-Described contract resolved budget (cost + 2 * d.byte_count + 4096) rest h.1,
)

check_descriptor-same :
    (sha : Sha256) (c : TeacherChunk) (d : TeacherDescriptor)
    → check_descriptor sha c d ≡ ok tt
    → (c.sequence ≡ d.sequence) × (c.contract ≡ d.contract)
unfolding check_descriptor
check_descriptor-same sha c d h =
    let tests : (contract_eq d.contract c.contract ≡ true) × (c.sequence ≡ d.sequence) =
      ground arith in
    (tests.1, sym (contract_eq_sound d.contract c.contract tests.0))

download-Numbered :
    (sha : Sha256) (contract : TeacherContract) (decoded : TeacherDescriptor → Checked TeacherChunk)
    (budget owned : ℕ) (ds : List TeacherDescriptor) {chunks : List TeacherChunk}
    → Described contract ds
    → download sha decoded budget owned ds ≡ ok chunks
    → Numbered chunks ds × AllContract contract chunks
unfolding download
download-Numbered sha contract decoded budget owned [] {chunks} k h =
    let e : chunks ≡ [] = ground arith in rw e (tt, tt)
download-Numbered sha contract decoded budget owned (d ∷ rest) {chunks} k h =
    elim (Result-cases (decoded d)) [
      | inr (x, e) ↦ ground arith
      | inl (c, e) ↦
          let owned_after = owned + byte_cost c in
          elim (Result-cases (download sha decoded budget owned_after rest)) [
            | inr (x, e2) ↦ ground arith
            | inl (later, e2) ↦
                let parts : (check_descriptor sha c d ≡ ok tt) × (chunks ≡ c ∷ later) =
                  ground arith in
                let same = check_descriptor-same sha c d parts.0 in
                let (numbered, contracts) =
                  download-Numbered sha contract decoded budget owned_after rest {chunks = later}
                    k.1 e2 in
                rw parts.1 ((same.0, numbered), (same.1 ∙ k.0, contracts))
          ]
    ]

pub transfer-Numbered :
    (sha : Sha256) (limits : WireLimits) (client : DistillationClient) (answers : Answers)
    (ds : List TeacherDescriptor) {chunks : List TeacherChunk}
    → Described answers.dataset.contract ds
    → transfer sha limits client answers ds ≡ ok chunks
    → Numbered chunks ds × AllContract answers.dataset.contract chunks
unfolding transfer
transfer-Numbered sha limits client answers [] {chunks} k h =
    let e : chunks ≡ [] = ground arith in rw e (tt, tt)
transfer-Numbered sha limits client answers (d ∷ rest) {chunks} k h =
    download-Numbered sha answers.dataset.contract answers.decoded client.owned_bytes 0 (d ∷ rest) k
      (ground arith)
