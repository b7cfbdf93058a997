-- ===== src/Distillation/Replay/Admission.antt =====
-- `admit` keeps the replay sound, evicts in order, and answers an exact retry without a change.
use py_rl_trainer.Prelude.{
  ◌⊎◌, ℕ, ◌+◌, ◌-◌, ◌≤◌, ◌<◌, ◌≡◌, refl, ap, ◌∙◌, Bool, true, false, Option, none, some, List, [],
  ◌++◌, arith, length, drop, ok, Result-cases, inl, inr, Bool-cases,
}
use py_rl_trainer.Distillation.Transport.{TeacherChunk, DatasetManifest, compatible}
use py_rl_trainer.Distillation.Hashing.{Sha256}
use py_rl_trainer.Distillation.Client.{DistillationFetch}
use py_rl_trainer.Distillation.Replay.{
  min_replay_bytes, max_replay_bytes, replay_fixed_bytes, Proposal, TeacherReplay, first_plan,
  plan_chunks, settle, stage, admit, is_retry,
}
use py_rl_trainer.Distillation.Replay.Eviction.{total_cost, total_samples, total_samples-append}
use py_rl_trainer.Distillation.Replay.Planning.{IsPlan, plan_chunks-IsPlan}
use py_rl_trainer.Distillation.Replay.Validation.{
  Ascends, AllContract, Extends, IsStaged, stage-IsStaged, contract_eq_sound,
}
use py_rl_trainer.Distillation.Replay.Order.{
  Ascends-append, Ascends-drop, AllContract-append, AllContract-drop,
}

-- the retained chunks belong to the dataset that the replay is bound to
abbrev pub IsBound : Option DatasetManifest → ℕ → List TeacherChunk → Type 0
IsBound none cursor chunks = (cursor ≡ 0) × (chunks ≡ [])
IsBound (some m) cursor chunks = (cursor ≤ m.resolved_through) × AllContract m.contract chunks

pub record IsSound (r : TeacherReplay) : Type 0 where
  pub bytes_low : min_replay_bytes ≤ r.max_bytes
  pub bytes_high : r.max_bytes ≤ max_replay_bytes
  pub objects_low : 0 < r.max_chunks
  pub objects_high : r.max_chunks ≤ 65536
  pub counted : r.owned_bytes ≡ replay_fixed_bytes + total_cost r.chunks
  pub fits : r.owned_bytes ≤ r.max_bytes
  pub few : length r.chunks ≤ r.max_chunks
  pub ordered : Ascends 0 r.cursor r.chunks
  pub bound : IsBound r.manifest r.cursor r.chunks

compatible-contract : (a b : DatasetManifest) → compatible a b ≡ true → a.contract ≡ b.contract
unfolding compatible
compatible-contract a b h = contract_eq_sound a.contract b.contract (ground arith)

-- the chunks that were held belong to the new manifest too
held-AllContract :
    (old : Option DatasetManifest) (next : DatasetManifest) (cursor : ℕ)
    (chunks : List TeacherChunk)
    → Extends old next
    → IsBound old cursor chunks
    → AllContract next.contract chunks
held-AllContract none next cursor chunks e b = rw b.1 tt
held-AllContract (some m) next cursor chunks e b = rw (compatible-contract m next e.0) at b.1

first_plan-IsPlan :
    (r : TeacherReplay) → IsSound r → IsPlan r.max_bytes r.max_chunks r.chunks (first_plan r)
first_plan-IsPlan r s = record {
  counted = s.counted;
  fits = s.fits;
  few = s.few;
  fifo = refl;
  chunks = omega arith;
  samples = omega arith;
}

-- the plan at the end of a staged proposal
module _ (sha : Sha256) (r : TeacherReplay) (f : DistillationFetch) {identity : Proposal}
    (s : IsSound r) (staged : IsStaged sha r f identity) where
  pub final-IsPlan :
      IsPlan r.max_bytes r.max_chunks
        (r.chunks ++ f.chunks)
        (plan_chunks r.max_bytes r.max_chunks (first_plan r) f.chunks)
  final-IsPlan =
      plan_chunks-IsPlan r.max_bytes r.max_chunks r.chunks f.chunks (first_plan r) s.objects_low
        staged.checked.fit (first_plan-IsPlan r s)

  settle_fifo :
      let r' = settle r f identity in
      (r'.cursor ≡ f.next_cursor)
      × (r.evicted_chunks ≤ r'.evicted_chunks)
      × (r'.chunks ≡ drop (r'.evicted_chunks - r.evicted_chunks) (r.chunks ++ f.chunks))
      × (r'.evicted_samples + total_samples r'.chunks
          ≡ r.evicted_samples + total_samples r.chunks + total_samples f.chunks)
  unfolding settle
  settle_fifo =
      let plan = plan_chunks r.max_bytes r.max_chunks (first_plan r) f.chunks in
      let grown : plan.dropped ≡ r.evicted_chunks + plan.dropped - r.evicted_chunks = omega arith in
      (
        refl,
        omega arith,
        final-IsPlan.fifo ∙ ap (λ n. drop n (r.chunks ++ f.chunks)) grown,
        omega (arith, final-IsPlan.samples, total_samples-append r.chunks f.chunks),
      )

  settle-IsSound : f.start_cursor ≡ r.cursor → IsSound (settle r f identity)
  unfolding settle
  settle-IsSound at_cursor =
      let plan = plan_chunks r.max_bytes r.max_chunks (first_plan r) f.chunks in
      record {
        bytes_low = s.bytes_low;
        bytes_high = s.bytes_high;
        objects_low = s.objects_low;
        objects_high = s.objects_high;
        counted = final-IsPlan.counted;
        fits = final-IsPlan.fits;
        few = final-IsPlan.few;
        ordered = rw final-IsPlan.fifo (
            Ascends-drop plan.dropped 0 f.next_cursor (r.chunks ++ f.chunks) (
              Ascends-append 0 r.cursor f.next_cursor r.chunks f.chunks s.ordered
                (rw at_cursor at staged.checked.ordered)));
        bound = (
          staged.settled,
          rw final-IsPlan.fifo (
              AllContract-drop plan.dropped f.manifest.contract (r.chunks ++ f.chunks) (
                AllContract-append f.manifest.contract r.chunks f.chunks
                  (held-AllContract r.manifest f.manifest r.cursor r.chunks staged.extends s.bound)
                  staged.checked.contracts)),
        );
      }

-- how an admission that returned went
pub record IsRetried (r : TeacherReplay) (f : DistillationFetch) (identity : Proposal)
    (fresh : Bool) (r' : TeacherReplay) : Type 0 where
  pub same : is_retry identity r.last_proposal ≡ true
  pub answer : fresh ≡ false
  pub after : r' ≡ record r { manifest = some f.manifest }

pub record IsSettled (r : TeacherReplay) (f : DistillationFetch) (identity : Proposal)
    (fresh : Bool) (r' : TeacherReplay) : Type 0 where
  pub other : is_retry identity r.last_proposal ≡ false
  pub answer : fresh ≡ true
  pub at_cursor : f.start_cursor ≡ r.cursor
  pub after : r' ≡ settle r f identity

pub admit_cases :
    (sha : Sha256) (r : TeacherReplay) (f : DistillationFetch) {fresh : Bool} {r' : TeacherReplay}
    → admit sha r f ≡ ok (fresh, r')
    → (identity : Proposal) × (stage sha r f ≡ ok identity)
      × (IsRetried r f identity fresh r' ⊎ IsSettled r f identity fresh r')
unfolding admit
admit_cases sha r f {fresh} {r'} h = elim (Result-cases (stage sha r f)) [
  | inr (x, e) ↦ ground arith
  | inl (identity, e) ↦ (
    identity,
    e,
    elim (Bool-cases (is_retry identity r.last_proposal)) [
      | inl same ↦ inl (record { same = same; answer = ground arith; after = ground arith })
      | inr other ↦ inr (record {
        other = other;
        answer = ground arith;
        at_cursor = ground arith;
        after = ground arith;
      })
    ],
  )
]

retry-IsBound :
    (old : Option DatasetManifest) (next : DatasetManifest) (cursor : ℕ)
    (chunks : List TeacherChunk)
    → Extends old next
    → IsBound old cursor chunks
    → IsBound (some next) cursor chunks
retry-IsBound none next cursor chunks e b =
    (omega arith, held-AllContract none next cursor chunks e b)
retry-IsBound (some m) next cursor chunks e b =
    (omega arith, held-AllContract (some m) next cursor chunks e b)

retry-IsSound :
    (sha : Sha256) (r : TeacherReplay) (f : DistillationFetch) {identity : Proposal}
    → IsSound r
    → IsStaged sha r f identity
    → IsSound (record r { manifest = some f.manifest })
retry-IsSound sha r f s staged = record {
  bytes_low = s.bytes_low;
  bytes_high = s.bytes_high;
  objects_low = s.objects_low;
  objects_high = s.objects_high;
  counted = s.counted;
  fits = s.fits;
  few = s.few;
  ordered = s.ordered;
  bound = retry-IsBound r.manifest f.manifest r.cursor r.chunks staged.extends s.bound;
}

module _ (sha : Sha256) (r : TeacherReplay) (f : DistillationFetch) {fresh : Bool}
    {r' : TeacherReplay} (s : IsSound r) (h : admit sha r f ≡ ok (fresh, r')) where
  pub staged :
      (identity : Proposal) × IsStaged sha r f identity
      × (IsRetried r f identity fresh r' ⊎ IsSettled r f identity fresh r')
  staged =
      let (identity, e, how) = admit_cases sha r f h in
      (identity, stage-IsStaged sha r f (omega (arith, s.bytes_low)) e, how)

  -- Whatever a sound replay admits, it is sound afterwards: the bytes that it counts are those of
  -- the chunks that it holds, neither ceiling is passed, the sequences rise strictly up to the
  -- cursor, and every chunk belongs to the dataset of the manifest.
  pub admit-IsSound : IsSound r'
  admit-IsSound =
      let (identity, st, how) = staged in
      elim how [
        | inl retried ↦ rw retried.after (retry-IsSound sha r f s st)
        | inr settled ↦ rw settled.after (settle-IsSound sha r f s st settled.at_cursor)
      ]

  -- A new proposal moves the cursor to its end, and what is retained is what is left of the old
  -- chunks followed by the new ones when the oldest are taken off: as many as the eviction counter
  -- grew by. No sample is lost from the count: retained and evicted grow by what came in.
  pub admit_fifo :
      fresh ≡ true
      → (r'.cursor ≡ f.next_cursor)
        × (r.evicted_chunks ≤ r'.evicted_chunks)
        × (r'.chunks ≡ drop (r'.evicted_chunks - r.evicted_chunks) (r.chunks ++ f.chunks))
        × (r'.evicted_samples + total_samples r'.chunks
            ≡ r.evicted_samples + total_samples r.chunks + total_samples f.chunks)
  admit_fifo is_fresh =
      let (identity, st, how) = staged in
      elim how [
        | inl retried ↦ cc (retried.answer, is_fresh)
        | inr settled ↦ rw settled.after (settle_fifo sha r f s st)
      ]
