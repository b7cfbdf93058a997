-- ===== src/Distillation/Job/Round.antt =====
-- One round: a fetch, and the proposal ingested where the client and the replay agree.
use py_rl_trainer.Prelude.{
  ℕ, ◌≤◌, ◌≡◌, refl, sym, ◌∙◌, inl, inr, Bool, true, false, Option, none, some, arith, ok, err,
  ◌==◌, Result-cases, Bool-cases,
}
use py_rl_trainer.Wire.Str.{text_eq, text_eq_refl}
use py_rl_trainer.Distillation.Transport.{compatible, Checked, ContractError, DatasetManifest}
use py_rl_trainer.Distillation.Hashing.{Sha256}
use py_rl_trainer.Distillation.Client.{DistillationFetch, DistillationClient, accept_manifest}
use py_rl_trainer.Distillation.Client.Descriptor.{WireLimits}
use py_rl_trainer.Distillation.Client.Fetch.{Answers, fetch, commit, propose}
use py_rl_trainer.Distillation.Replay.{TeacherReplay, Proposal, admit, is_retry, settle}
use py_rl_trainer.Distillation.Replay.Validation.{Extends, contract_eq_refl}
use py_rl_trainer.Distillation.Replay.Admission.{staged}
use py_rl_trainer.Distillation.Replay.Reach.{Reach, admitted, Reach-IsSound}
use py_rl_trainer.Distillation.Replay.Snapshot.RoundTrip.{IsRetryable}
use py_rl_trainer.Distillation.Replay.Snapshot.Restore.{Reach-IsRetryable}
use py_rl_trainer.Distillation.Handover.Succession.{Precedes, Precedes-Extends}
use py_rl_trainer.Distillation.Handover.Fetched.{fetch_parts, accept_manifest-IsRefreshed}
use py_rl_trainer.Distillation.Job.{is_foreign, commit_client, ingest}

-- where the client and the replay agree
pub record IsAgreed (sha : Sha256) (c : DistillationClient) (r : TeacherReplay) : Type 0 where
  pub reach : Reach sha r
  pub cursors : r.cursor ≡ c.cursor
  pub manifests : Precedes r.manifest c.manifest
  pub page : c.page_size ≤ 256

retry-end :
    (cursor : ℕ) (p : Proposal) (last : Option Proposal)
    → IsRetryable cursor last
    → is_retry p last ≡ true
    → p.end ≡ cursor
unfolding is_retry
retry-end cursor p none h k = cc
retry-end cursor p (some q) h k = ground (arith, h.at_cursor)

-- an admission takes the replay's cursor to the end of the proposal
pub admit-cursor :
    (sha : Sha256) (r : TeacherReplay) (f : DistillationFetch) {fresh : Bool} {r' : TeacherReplay}
    → Reach sha r
    → admit sha r f ≡ ok (fresh, r')
    → (r'.cursor ≡ f.next_cursor) × (r'.manifest ≡ some f.manifest)
admit-cursor sha r f reach h =
    let (identity, st, how) = staged sha r f (Reach-IsSound reach) h in
    elim how [
      | inl retried ↦
          let ends =
            retry-end r.cursor identity r.last_proposal (Reach-IsRetryable reach) retried.same in
          rw retried.after (sym ends ∙ st.end, refl)
      | inr settled ↦ rw settled.after (unfold settle in (refl, refl))
    ]

compatible_refl : (m : DatasetManifest) → compatible m m ≡ true
unfolding compatible
compatible_refl m = ground (arith, contract_eq_refl m.contract, text_eq_refl m.sensor_json)

Precedes_refl : (m : Option DatasetManifest) → Precedes m m
Precedes_refl none = tt
Precedes_refl (some m) = (compatible_refl m, omega arith, omega arith, omega arith)

Precedes-some :
    (old held : Option DatasetManifest) (m : DatasetManifest)
    → Extends old m
    → held ≡ some m
    → Precedes old held
Precedes-some none held m h k = tt
Precedes-some (some old) held m h k = rw k h

pub Precedes_trans : (a b c : Option DatasetManifest) → Precedes a b → Precedes b c → Precedes a c
Precedes_trans none b c h k = tt
Precedes_trans (some a) none c h k = absurd h
Precedes_trans (some a) (some b) none h k = absurd k
Precedes_trans (some a) (some b) (some c) h k = Precedes-Extends (some a) (some b) c h k

-- what a fetch leaves of the client
pub record IsAfter (c after : DistillationClient) : Type 0 where
  pub cursor : after.cursor ≡ c.cursor
  pub page_size : after.page_size ≡ c.page_size
  pub manifest : Precedes c.manifest after.manifest

-- A fetch, whether it returns a proposal or raises, leaves the client's cursor and page size as
-- they are, and where it replaces the manifest the new one is of the same dataset and no watermark
-- of it is lower.
pub fetch_keeps :
    (sha : Sha256) (limits : WireLimits) (c : DistillationClient) (answers : Answers)
    {result : Checked DistillationFetch} {after : DistillationClient}
    → fetch sha limits c answers ≡ (result, after)
    → IsAfter c after
unfolding fetch
fetch_keeps sha limits c answers {after = after} h =
    elim (Result-cases (accept_manifest c answers.dataset)) [
      | inr (x, e) ↦
          let same : c ≡ after = ground arith in
          rw (← same)
            (record { cursor = refl; page_size = refl; manifest = Precedes_refl c.manifest })
      | inl (kept, accepted) ↦
          let same : kept ≡ after = ground arith in
          let n = accept_manifest-IsRefreshed c answers.dataset accepted in
          rw (← same) (record {
            cursor = n.cursor;
            page_size = n.page_size;
            manifest = Precedes-some c.manifest kept.manifest answers.dataset n.extends n.manifest;
          })
    ]

commit_moves :
    (c : DistillationClient) (f : DistillationFetch)
    → text_eq f.manifest.contract.capture_epoch c.capture_epoch ≡ true
    → f.start_cursor ≡ c.cursor
    → f.start_cursor ≤ f.next_cursor
    → (moved : Bool) × (after : DistillationClient) × (commit c f ≡ ok (moved, after))
      × (after.cursor ≡ f.next_cursor)
      × (after.page_size ≡ c.page_size)
      × (after.manifest ≡ c.manifest)
unfolding commit
commit_moves c f own at forward = elim (Bool-cases (f.next_cursor == c.cursor)) [
  | inl still ↦ (false, c, ground arith, ground arith, refl, refl)
  | inr on ↦ (true, record c { cursor = f.next_cursor }, ground arith, refl, refl, refl)
]

commit_client-ok :
    (c : DistillationClient) (r : TeacherReplay) (f : DistillationFetch) (fresh : Bool)
    {moved : Bool} {after : DistillationClient}
    → commit c f ≡ ok (moved, after)
    → commit_client (some c) r f fresh ≡ (ok fresh, record { client = some after; replay = r })
unfolding commit_client
commit_client-ok c r f fresh h = rw (h, commit_client) refl

-- one round, up to what the replay answers
module _ (sha : Sha256) (limits : WireLimits) (c : DistillationClient) (answers : Answers)
    (r : TeacherReplay) (f : DistillationFetch) {after : DistillationClient}
    (agreed : IsAgreed sha c r) (fetched : fetch sha limits c answers ≡ (ok f, after)) where
  own_proposal :
      (text_eq f.manifest.contract.capture_epoch after.capture_epoch ≡ true)
      × (f.start_cursor ≡ after.cursor)
      × (after.manifest ≡ some f.manifest)
  own_proposal =
      let (refreshed, parts) = fetch_parts sha limits c answers fetched in
      rw (parts.made, refreshed.capture_epoch)
        (unfold propose in (refreshed.own, refl, refreshed.manifest))

  native_proposal : is_foreign (some after) f ≡ false
  unfolding is_foreign
  native_proposal = ground (arith, own_proposal)

  pub ingest_refused :
      {x : ContractError}
      → admit sha r f ≡ err x
      → ingest sha (record { client = some after; replay = r }) f
        ≡ (err x, record { client = some after; replay = r })
  unfolding ingest
  ingest_refused refused = rw (native_proposal, refused) refl

  pub ingest_admitted :
      {fresh : Bool} {r' : TeacherReplay}
      → admit sha r f ≡ ok (fresh, r')
      → (c' : DistillationClient) × (ingest sha (record { client = some after; replay = r }) f
          ≡ (ok fresh, record { client = some c'; replay = r' }))
        × (c'.cursor ≡ f.next_cursor)
        × IsAgreed sha c' r'
  unfolding ingest
  ingest_admitted {fresh} {r'} h =
      let (own, at, held) = own_proposal in
      let (identity, st, how) = staged sha r f (Reach-IsSound agreed.reach) h in
      let (moved, c', done, moved_to, size, same) = commit_moves after f own at st.forward in
      let (there, bound) = admit-cursor sha r f agreed.reach h in
      let kept = fetch_keeps sha limits c answers fetched in
      (
        c',
        rw (native_proposal, h) (commit_client-ok after r' f fresh done),
        moved_to,
        record {
          reach = admitted agreed.reach f h;
          cursors = there ∙ sym moved_to;
          manifests = rw (bound, same, held) (Precedes_refl (some f.manifest));
          page = omega (arith, size, kept.page_size, agreed.page);
        },
      )
