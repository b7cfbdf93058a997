-- ===== src/Distillation/Replay/Snapshot/Restore.antt =====
-- `restore_snapshot` undoes `checkpoint_fields` on every replay that the program can hold.
use py_rl_trainer.Prelude.{
  ◌⊎◌, inl, inr, ℕ, ◌^◌, ◌≤◌, ◌<◌, ◌≡◌, refl, ap, false, Option, none, some, List, [], ◌∷◌, ok,
  arith, length,
}
use py_rl_trainer.Prelude.Int.{pos}
use py_rl_trainer.Wire.{int}
use py_rl_trainer.Distillation.Transport.{DatasetManifest, TeacherChunk, integer}
use py_rl_trainer.Distillation.Hashing.{Sha256}
use py_rl_trainer.Distillation.Hashing.Digest.{hexdigest-matches_hex}
use py_rl_trainer.Distillation.Client.{DistillationFetch}
use py_rl_trainer.Distillation.Replay.{
  Proposal, TeacherReplay, new_replay, replay_fixed_bytes, min_replay_bytes, max_replay_bytes,
  chunk_intervals, settle,
}
use py_rl_trainer.Distillation.Replay.Validation.{Ascends, identities_of, IsStaged}
use py_rl_trainer.Distillation.Replay.Order.{Ascends-le}
use py_rl_trainer.Distillation.Replay.Admission.{IsSound, IsBound, staged}
use py_rl_trainer.Distillation.Replay.Reach.{
  Reach, created, admitted, Reach-IsSound, new_replay-last_proposal,
}
use py_rl_trainer.Distillation.Replay.Snapshot.{
  checkpoint_fields, identity_intervals, follows, restore_snapshot,
}
use py_rl_trainer.Distillation.Replay.Snapshot.RoundTrip.{
  hex_number-word, check_retained_sound, AllIdentities, IsProposal, IsRetryable, parse_last-fields,
}

identity_intervals-identities_of :
    (sha : Sha256) (chunks : List TeacherChunk)
    → identity_intervals (identities_of sha chunks) ≡ chunk_intervals chunks
unfolding identity_intervals chunk_intervals
identity_intervals-identities_of sha [] = refl
identity_intervals-identities_of sha (chunk ∷ rest) =
    ap (λ l. (chunk.sequence, chunk.sequence) ∷ l) (identity_intervals-identities_of sha rest)

length-identities_of :
    (sha : Sha256) (chunks : List TeacherChunk) → length (identities_of sha chunks) ≡ length chunks
length-identities_of sha [] = refl
length-identities_of sha (chunk ∷ rest) = omega (arith, length-identities_of sha rest)

identities_of-AllIdentities :
    (sha : Sha256) (last : Option ℕ) (previous end : ℕ) (chunks : List TeacherChunk)
    → (last ≡ none) ⊎ (last ≡ some previous)
    → Ascends previous end chunks
    → AllIdentities last end (identities_of sha chunks)
unfolding follows
identities_of-AllIdentities sha last previous end [] l h = tt
identities_of-AllIdentities sha last previous end (chunk ∷ rest) l h = (
  ground arith,
  omega arith,
  Ascends-le chunk.sequence end rest h.1,
  hexdigest-matches_hex sha chunk.raw_bytes,
  identities_of-AllIdentities sha (some chunk.sequence) chunk.sequence end rest (inr refl) h.1,
)

staged-IsProposal :
    (sha : Sha256) (r : TeacherReplay) (f : DistillationFetch) {identity : Proposal}
    → IsStaged sha r f identity
    → IsProposal f.next_cursor identity
staged-IsProposal sha r f {identity} st =
    let ids = st.checked.identities in
    record {
      forward = omega (arith, st.forward, st.start, st.end);
      at_cursor = st.end;
      few_chunks = rw ids (omega (arith, length-identities_of sha f.chunks, st.few_chunks));
      few_gaps = rw st.gaps st.few_gaps;
      identities =
          rw (st.end, ids)
            (identities_of-AllIdentities sha none f.start_cursor f.next_cursor f.chunks (inl refl)
              st.checked.ordered);
      within = rw (st.start, st.end, st.gaps) st.within;
      covered =
          rw (st.start, st.end, st.gaps, ids, identity_intervals-identities_of sha f.chunks)
            st.covered;
    }

-- The last proposal of every such replay can be read back.
pub Reach-IsRetryable :
    {sha : Sha256} {r : TeacherReplay} → Reach sha r → IsRetryable r.cursor r.last_proposal
Reach-IsRetryable (created max_bytes max_chunks h) =
    rw (new_replay-last_proposal max_bytes max_chunks h) tt
Reach-IsRetryable {sha} (admitted {r = before} reach f h) =
    let (identity, st, how) = staged sha before f (Reach-IsSound reach) h in
    elim how [
      | inl retried ↦ rw retried.after (Reach-IsRetryable reach)
      | inr settled ↦ rw settled.after (unfold settle in staged-IsProposal sha before f st)
    ]

pub integer-int : (n low high : ℕ) → low ≤ n → n ≤ high → integer (int (pos n)) low high ≡ ok n
unfolding integer
integer-int n low high l h = ground arith

restore_snapshot_lem :
    (r : TeacherReplay) (m : DatasetManifest)
    → IsSound r
    → IsRetryable r.cursor r.last_proposal
    → r.manifest ≡ some m
    → m.resolved_through < 2 ^ 64
    → r.evicted_chunks < 2 ^ 64
    → r.evicted_samples < 2 ^ 64
    → restore_snapshot m r.chunks (checkpoint_fields r) ≡ ok r
unfolding restore_snapshot checkpoint_fields new_replay
restore_snapshot_lem r m s retry held top chunks_top samples_top =
    let (settled, contracts) : IsBound (some m) r.cursor r.chunks = rw held at s.bound in
    ground (
      arith,
      integer-int 1 1 1,
      integer-int r.max_bytes min_replay_bytes max_replay_bytes s.bytes_low s.bytes_high,
      integer-int r.max_chunks 1 65536 s.objects_low s.objects_high,
      hex_number-word r.cursor false (omega arith) (inl refl),
      hex_number-word r.evicted_chunks false chunks_top (inl refl),
      hex_number-word r.evicted_samples false samples_top (inl refl),
      check_retained_sound m r.max_bytes r.cursor replay_fixed_bytes 0 r.chunks s.ordered contracts
          (omega (arith, s.counted, s.fits)),
      parse_last-fields r.cursor r.last_proposal (omega arith) retry,
      s.counted,
      s.few,
      held,
      settled,
    )

-- Take any replay that admissions lead to from a new one, that has a manifest whose availability
-- fits 64 bits, and whose eviction counters fit 64 bits. Its snapshot, with the chunks that it
-- retains and its manifest, is accepted and restores exactly that replay: ceilings, cursor, byte
-- count, counters, chunks, manifest and the identity of the last proposal.
pub snapshot_roundtrip :
    {sha : Sha256} (r : TeacherReplay) (m : DatasetManifest)
    → Reach sha r
    → r.manifest ≡ some m
    → m.resolved_through < 2 ^ 64
    → r.evicted_chunks < 2 ^ 64
    → r.evicted_samples < 2 ^ 64
    → restore_snapshot m r.chunks (checkpoint_fields r) ≡ ok r
snapshot_roundtrip r m reach =
    restore_snapshot_lem r m (Reach-IsSound reach) (Reach-IsRetryable reach)
