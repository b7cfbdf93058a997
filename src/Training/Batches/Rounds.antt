-- ===== src/Training/Batches/Rounds.antt =====
-- Every round of the asynchronous learner accounts for the transitions that it has received.
use py_rl_trainer.Prelude.{
  ℕ, zero, suc, ◌+◌, ◌≤◌, ◌<◌, ◌≡◌, refl, ap, inl, inr, Bool, true, false, Option, none, some, List,
  [], ◌∷◌, ◌++◌, arith, length, length-append, leb, ltb, if◌then◌else◌, Bool-cases, Option-cases,
}
use py_rl_trainer.Prelude.Int.{ℤ, pos, sub_ℕ}
use py_rl_trainer.Prelude.Dict.{find, remove}
use py_rl_trainer.Training.{Transition}
use py_rl_trainer.Training.Segments.{Segment, split_rollout_by_policy_version}
use py_rl_trainer.Training.Segments.Cover.{
  AllVersion, AreSegments, joined, split_rollout_by_policy_version-AreSegments,
}
use py_rl_trainer.Training.Batches.{
  Item, Batch, Learner, new_learner, steps_of, is_obsolete, items_of, admit_segment, admit_segments,
  newest_ready, raise_mark, train, train_ready, receive_rollout,
}
use py_rl_trainer.Training.Batches.Accounted.{
  AllFresh, Passed, Ordered, IsAccounted, AllItems-append, held-insert, AllCoherent-insert,
  AllFresh-insert, find-AllItems, held-remove, AllCoherent-remove, held-without,
  without_obsolete-kept,
}

raised_mark :
    (m o : ℤ) (v : ℕ)
    → is_obsolete (raise_mark m o) v ≡ false
    → (is_obsolete m v ≡ false) × (is_obsolete o v ≡ false)
unfolding is_obsolete
raised_mark m o v h = ground arith

-- the mark after a batch has passed what the batch supersedes
mark_passes :
    (version v : ℕ) (stale : Bool)
    → is_obsolete (if stale then pos version else sub_ℕ version 1) v ≡ false
    → if stale then version < v else version ≤ v
unfolding is_obsolete
mark_passes version v true h = ground arith
mark_passes zero v false h = omega arith
mark_passes (suc version) v false h = ground arith

Passed-Ordered :
    (mark : ℤ) (b : Batch) (batches : List Batch)
    → Passed mark batches
    → is_obsolete mark b.version ≡ false
    → Ordered b batches
Passed-Ordered mark b [] p h = tt
Passed-Ordered mark b (c ∷ rest) p h = p b.version h

admit_segment-IsAccounted :
    (l : Learner) (s : Segment)
    → IsAccounted l
    → AllVersion s.version s.rollout
    → IsAccounted (admit_segment l s)
      × ((admit_segment l s).total_steps ≡ l.total_steps + length s.rollout)
unfolding admit_segment
admit_segment-IsAccounted l s h k =
    let d = l.pending_by_version in
    let item : Item = (s.rollout, s.bootstrap) in
    let items = items_of (find s.version d) ++ (item ∷ []) in
    elim (Bool-cases (is_obsolete l.stale_before_or_equal s.version)) [
      | inl gone ↦ rw gone (
        record {
          conserved = omega (arith, h.conserved);
          coherent = h.coherent;
          fresh = h.fresh;
          passed = h.passed;
          ordered = h.ordered;
        },
        refl,
      )
      | inr kept ↦ rw kept (
        record {
          conserved = omega (arith, h.conserved, held-insert s.version d item);
          coherent = AllCoherent-insert s.version d items h.coherent (
              AllItems-append s.version _ (item ∷ []) (find-AllItems s.version d h.coherent)
                (k, tt));
          fresh = AllFresh-insert s.version l.stale_before_or_equal d items h.fresh kept;
          passed = h.passed;
          ordered = h.ordered;
        },
        refl,
      )
    ]

admit_segments-IsAccounted :
    (l : Learner) (segments : List Segment) (bootstrap : ℕ)
    → IsAccounted l
    → AreSegments segments bootstrap
    → IsAccounted (admit_segments l segments)
      × ((admit_segments l segments).total_steps ≡ l.total_steps + length (joined segments))
unfolding admit_segments
admit_segments-IsAccounted l [] bootstrap h k = (h, omega arith)
admit_segments-IsAccounted l (s ∷ rest) bootstrap h k =
    let (once, one_more) = admit_segment-IsAccounted l s h k.0 in
    let (later, all_more) =
      admit_segments-IsAccounted (admit_segment l s) rest bootstrap once k.3 in
    (later, omega (arith, one_more, all_more, length-append s.rollout (joined rest)))

newest_ready-fresh :
    (batch_size : ℕ) (mark : ℤ) (d : List (ℕ × List Item)) {version : ℕ}
    → AllFresh mark d
    → newest_ready batch_size d ≡ some version
    → is_obsolete mark version ≡ false
unfolding newest_ready
newest_ready-fresh batch_size mark [] h e = ground arith
newest_ready-fresh batch_size mark ((j, items) ∷ d) {version} h e =
    elim (Bool-cases (leb batch_size (steps_of items))) [
      | inr no_batch ↦ newest_ready-fresh batch_size mark d h.1 (ground arith)
      | inl full ↦ elim (Option-cases (newest_ready batch_size d)) [
        | inl n ↦ let same : version ≡ j = ground arith in rw same h.0
        | inr (other, o) ↦
            let later = newest_ready-fresh batch_size mark d {version = other} h.1 o in
            elim (Bool-cases (ltb j other)) [
              | inl lower ↦ let same : version ≡ other = ground arith in rw same later
              | inr higher ↦ let same : version ≡ j = ground arith in rw same h.0
            ]
      ]
    ]

train-IsAccounted :
    (l : Learner) (version : ℕ) (stale : Bool)
    → IsAccounted l
    → is_obsolete l.stale_before_or_equal version ≡ false
    → IsAccounted (train l version stale)
unfolding train
train-IsAccounted l version stale h k =
    let d = l.pending_by_version in
    let other = if stale then pos version else sub_ℕ version 1 in
    let mark = raise_mark l.stale_before_or_equal other in
    let left = remove version d in
    let batch : Batch = record {
      version = version;
      items = items_of (find version d);
      is_stale = stale;
    } in
    let (coherent, fresh) =
      without_obsolete-kept mark left (AllCoherent-remove version d h.coherent) in
    record {
      conserved = ground (arith, h.conserved, held-remove version d, held-without mark left);
      coherent = coherent;
      fresh = fresh;
      passed = λ v e. mark_passes version v stale (raised_mark l.stale_before_or_equal other v e).1;
      ordered = (
        find-AllItems version d h.coherent,
        Passed-Ordered l.stale_before_or_equal batch l.batches h.passed k,
        h.ordered,
      );
    }

train_ready-IsAccounted :
    (l : Learner) (batch_size : ℕ) (ready : Option ℕ) (stale : Bool)
    → IsAccounted l
    → newest_ready batch_size l.pending_by_version ≡ ready
    → IsAccounted (train_ready l ready stale)
      × ((train_ready l ready stale).total_steps ≡ l.total_steps)
unfolding train_ready
train_ready-IsAccounted l batch_size none stale h e = (h, refl)
train_ready-IsAccounted l batch_size (some version) stale h e = (
  train-IsAccounted l version stale h
      (newest_ready-fresh batch_size l.stale_before_or_equal l.pending_by_version h.fresh e),
  unfold train in refl,
)

pub new_learner-IsAccounted : IsAccounted new_learner
new_learner-IsAccounted = record {
  conserved = refl;
  coherent = tt;
  fresh = tt;
  passed = tt;
  ordered = tt;
}

-- A round of the loop accounts for every transition of the rollout: `total_steps` grows by them, and
-- is again what was dropped as stale, what waits, and what updates took. Each version's segments
-- that wait are of that version and above the mark, each batch is of one version, and no batch is
-- older than the one before, nor of its version if that one was refused as stale.
pub receive_rollout-IsAccounted :
    (batch_size : ℕ) (l : Learner) (rollout : List Transition) (bootstrap : ℕ) (stale : Bool)
    → IsAccounted l
    → (let after = receive_rollout batch_size l rollout bootstrap stale in
        IsAccounted after × (after.total_steps ≡ l.total_steps + length rollout))
unfolding receive_rollout
receive_rollout-IsAccounted batch_size l [] bootstrap stale h = (h, omega arith)
receive_rollout-IsAccounted batch_size l (t ∷ rest) bootstrap stale h =
    let segments = split_rollout_by_policy_version (t ∷ rest) bootstrap in
    let (covers, each) = split_rollout_by_policy_version-AreSegments (t ∷ rest) bootstrap in
    let (admitted, more) = admit_segments-IsAccounted l segments bootstrap h each in
    let (trained, kept) =
      train_ready-IsAccounted (admit_segments l segments) batch_size
        (newest_ready batch_size (admit_segments l segments).pending_by_version) stale admitted
        refl in
    (trained, omega (arith, kept, more, ap (λ (x : List Transition). length x) covers))
