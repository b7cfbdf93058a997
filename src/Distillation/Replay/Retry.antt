-- ===== src/Distillation/Replay/Retry.antt =====
-- An exact retry of the last proposal is answered with `false` and changes nothing.
use py_rl_trainer.Prelude.{ℕ, ◌≡◌, refl, true, false, some, List, [], ◌∷◌, arith, ok, inl, inr}
use py_rl_trainer.Wire.Str.{Text, text_eq_refl}
use py_rl_trainer.Distillation.Transport.{DatasetManifest, compatible}
use py_rl_trainer.Distillation.Hashing.{Sha256}
use py_rl_trainer.Distillation.Intervals.{Interval}
use py_rl_trainer.Distillation.Client.{DistillationFetch}
use py_rl_trainer.Distillation.Replay.{
  Proposal, TeacherReplay, identities_eq, intervals_eq, is_retry, check_manifest, settle, stage,
  admit,
}
use py_rl_trainer.Distillation.Replay.Validation.{contract_eq_refl}
use py_rl_trainer.Distillation.Replay.Admission.{admit_cases}

identities_eq_refl : (l : List (ℕ × Text)) → identities_eq l l ≡ true
unfolding identities_eq
identities_eq_refl [] = refl
identities_eq_refl ((s, d) ∷ l) = ground (arith, text_eq_refl d, identities_eq_refl l)

intervals_eq_refl : (l : List Interval) → intervals_eq l l ≡ true
unfolding intervals_eq
intervals_eq_refl [] = refl
intervals_eq_refl ((a, b) ∷ l) = ground (arith, intervals_eq_refl l)

is_retry_refl : (p : Proposal) → is_retry p (some p) ≡ true
unfolding is_retry
is_retry_refl p = ground (arith, identities_eq_refl p.identities, intervals_eq_refl p.gaps)

-- a manifest follows itself
check_manifest_refl : (m : DatasetManifest) → check_manifest (some m) m ≡ ok tt
unfolding check_manifest compatible
check_manifest_refl m = ground (arith, contract_eq_refl m.contract, text_eq_refl m.sensor_json)

stage_again :
    (sha : Sha256) (r : TeacherReplay) (f : DistillationFetch) {identity : Proposal}
    → stage sha r f ≡ ok identity
    → stage sha (settle r f identity) f ≡ ok identity
unfolding stage settle
stage_again sha r f h = ground (arith, check_manifest_refl f.manifest)

settle_again :
    (sha : Sha256) (r : TeacherReplay) (f : DistillationFetch) {identity : Proposal}
    → stage sha r f ≡ ok identity
    → admit sha (settle r f identity) f ≡ ok (false, settle r f identity)
settle_again sha r f {identity} h =
    unfold admit settle in rw (stage_again sha r f h, is_retry_refl identity)

-- Once a proposal has been admitted as new, admitting the same proposal again returns `false` and
-- leaves the replay exactly as it is: no chunk that was evicted comes back.
pub admit_retry :
    (sha : Sha256) (r : TeacherReplay) (f : DistillationFetch) {r' : TeacherReplay}
    → admit sha r f ≡ ok (true, r')
    → admit sha r' f ≡ ok (false, r')
admit_retry sha r f {r'} h =
    let (identity, e, how) = admit_cases sha r f h in
    elim how [
      | inl retried ↦ cc retried.answer
      | inr settled ↦ rw settled.after (settle_again sha r f e)
    ]
