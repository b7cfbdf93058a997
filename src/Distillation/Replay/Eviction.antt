-- ===== src/Distillation/Replay/Eviction.antt =====
-- What the eviction loop leaves: byte accounting, room for the incoming chunk, and the order.
use py_rl_trainer.Prelude.{
  ℕ, zero, suc, ◌+◌, ◌-◌, ◌≤◌, ◌<◌, ◌≡◌, refl, sym, ap, ◌∙◌, List, [], ◌∷◌, ◌++◌, arith, length,
  drop,
}
use py_rl_trainer.Distillation.Transport.{TeacherChunk, row_count}
use py_rl_trainer.Distillation.Replay.{replay_fixed_bytes, cost, Plan, evict}

abbrev pub total_cost : List TeacherChunk → ℕ
total_cost [] = 0
total_cost (chunk ∷ rest) = cost chunk + total_cost rest

abbrev pub total_samples : List TeacherChunk → ℕ
total_samples [] = 0
total_samples (chunk ∷ rest) = row_count chunk + total_samples rest

pub total_cost-append :
    (xs ys : List TeacherChunk) → total_cost (xs ++ ys) ≡ total_cost xs + total_cost ys
total_cost-append [] ys = omega arith
total_cost-append (x ∷ xs) ys = omega (arith, total_cost-append xs ys)

pub total_samples-append :
    (xs ys : List TeacherChunk) → total_samples (xs ++ ys) ≡ total_samples xs + total_samples ys
total_samples-append [] ys = omega arith
total_samples-append (x ∷ xs) ys = omega (arith, total_samples-append xs ys)

-- a list with its first `n` elements taken off, `n` no more than it has
pub drop-append :
    (n : ℕ) (xs ys : List TeacherChunk) → n ≤ length xs → drop n (xs ++ ys) ≡ drop n xs ++ ys
drop-append zero xs ys h = refl
drop-append (suc n) [] ys h = absurd (omega arith)
drop-append (suc n) (x ∷ xs) ys h = drop-append n xs ys (omega arith)

drop-nil : (n : ℕ) → drop n (let l : List TeacherChunk = [] in l) ≡ []
drop-nil zero = refl
drop-nil (suc n) = refl

pub drop-drop : (m n : ℕ) (xs : List TeacherChunk) → drop n (drop m xs) ≡ drop (m + n) xs
drop-drop zero n xs = ap (λ k. drop k xs) (omega arith)
drop-drop (suc m) n [] = drop-nil n ∙ sym (drop-nil (suc m + n))
drop-drop (suc m) n (x ∷ xs) =
    let shift : suc (m + n) ≡ suc m + n = omega arith in
    drop-drop m n xs ∙ ap (λ k. drop k (x ∷ xs)) shift

drop_one_more :
    (k m : ℕ) (x : TeacherChunk) (xs : List TeacherChunk)
    → k < m
    → drop (m - k) (x ∷ xs) ≡ drop (m - (k + 1)) xs
drop_one_more k m x xs h = let e : m - k ≡ suc (m - (k + 1)) = omega arith in rw e

drop_none : (k : ℕ) (xs : List TeacherChunk) → drop (k - k) xs ≡ xs
drop_none k xs = let e : k - k ≡ 0 = omega arith in rw e

-- The plan counts the bytes of what it holds.
abbrev pub IsCounted : Plan → Type 0
IsCounted p = p.owned ≡ replay_fixed_bytes + total_cost p.planned

module _ (max_bytes max_chunks incoming : ℕ) where
  pub evict-IsCounted :
      (planned : List TeacherChunk) (owned dropped samples : ℕ)
      → owned ≡ replay_fixed_bytes + total_cost planned
      → IsCounted (evict max_bytes max_chunks incoming planned owned dropped samples)
  unfolding evict
  evict-IsCounted [] owned dropped samples h = h
  evict-IsCounted (old ∷ rest) owned dropped samples h = ground (
    arith,
    evict-IsCounted rest (owned - cost old) (dropped + 1) (samples + row_count old) (omega arith),
  )

  -- a chunk that fits an empty replay fits after the loop
  pub evict_makes_room :
      (planned : List TeacherChunk) (owned dropped samples : ℕ)
      → owned ≡ replay_fixed_bytes + total_cost planned
      → replay_fixed_bytes + incoming ≤ max_bytes
      → 0 < max_chunks
      → let p = evict max_bytes max_chunks incoming planned owned dropped samples in
        (p.owned + incoming ≤ max_bytes) × (length p.planned < max_chunks)
  unfolding evict
  evict_makes_room [] owned dropped samples h fits some_chunk = omega arith
  evict_makes_room (old ∷ rest) owned dropped samples h fits some_chunk = ground (
    arith,
    evict_makes_room rest (owned - cost old) (dropped + 1) (samples + row_count old) (omega arith)
        fits some_chunk,
  )

  -- the counters grow by what left
  pub evict_counts :
      (planned : List TeacherChunk) (owned dropped samples : ℕ)
      → let p = evict max_bytes max_chunks incoming planned owned dropped samples in
        (p.dropped + length p.planned ≡ dropped + length planned)
        × (p.dropped_samples + total_samples p.planned ≡ samples + total_samples planned)
  unfolding evict
  evict_counts [] owned dropped samples = (refl, refl)
  evict_counts (old ∷ rest) owned dropped samples =
      ground (arith, evict_counts rest (owned - cost old) (dropped + 1) (samples + row_count old))

  -- the oldest chunks leave first
  pub evict_fifo :
      (planned : List TeacherChunk) (owned dropped samples : ℕ)
      → let p = evict max_bytes max_chunks incoming planned owned dropped samples in
        (dropped ≤ p.dropped) × (p.planned ≡ drop (p.dropped - dropped) planned)
  unfolding evict
  evict_fifo [] owned dropped samples = (omega arith, sym (drop-nil (dropped - dropped)))
  evict_fifo (old ∷ rest) owned dropped samples =
      let after =
        evict max_bytes max_chunks incoming rest (owned - cost old) (dropped + 1)
          (samples + row_count old) in
      ground (
        arith,
        evict_fifo rest (owned - cost old) (dropped + 1) (samples + row_count old),
        drop_one_more dropped after.dropped old rest,
        drop_none dropped (old ∷ rest),
      )
