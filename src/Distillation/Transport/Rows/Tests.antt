-- ===== src/Distillation/Transport/Rows/Tests.antt =====
-- Two rows of one life.
use py_rl_trainer.Prelude.{◌+◌, ◌≤◌, ◌≡◌, refl, [], ◌∷◌, ok, length}
use py_rl_trainer.Distillation.Transport.{Row}
use py_rl_trainer.Distillation.Transport.Rows.{
  Sample, decode_samples, decode_row, decode_rows, all_normalized, is_normalized, follows_row,
  is_dead, starts_life, check_boundary, last_step, last_ordinal,
}
use py_rl_trainer.Distillation.Transport.Rows.Stream.{Runs, decode_samples-Runs}

abbrev spawn : Sample
spawn = record {
  step = 5;
  ordinal = 1;
  action = 1056964608;
  flag = 8;
  policy = 0;
  stage = 0;
  stratum = 0;
  observations = 0 ∷ 1065353216 ∷ [];
}

abbrev death : Sample
death = record spawn { step = 7; ordinal = 2; flag = 4 }

abbrev first : Row
first = record { step = 5; ordinal = 1; flags = 8; strata = 0 }

abbrev second : Row
second = record { step = 7; ordinal = 2; flags = 4; strata = 0 }

decode_samples_test : decode_samples 1 spawn (death ∷ []) ≡ ok (first, second ∷ [])
unfolding decode_samples decode_row decode_rows all_normalized is_normalized follows_row is_dead
    starts_life check_boundary last_step
decode_samples_test = refl

decode_samples-Runs_example :
    Runs first (second ∷ [])
    × (length (second ∷ []) ≡ length (death ∷ []))
    × (last_ordinal first (second ∷ []) + 1 ≡ 1 + (1 + 1))
    × (5 + (1 + 1) ≤ last_step first (second ∷ []) + 1)
    × (last_step first (second ∷ []) ≤ 5 + 60)
decode_samples-Runs_example = decode_samples-Runs 1 spawn (death ∷ []) decode_samples_test
