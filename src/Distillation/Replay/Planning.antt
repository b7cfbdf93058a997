-- ===== src/Distillation/Replay/Planning.antt =====
-- The loop over the incoming chunks: whatever has been evicted, the plan is the newest part of the
-- history and fits both ceilings.
use mathlib.Core.List.{append_assoc, append-nil}
use py_rl_trainer.Prelude.{
  ℕ, ◌+◌, ◌-◌, ◌≤◌, ◌<◌, ◌≡◌, sym, ap, ◌∙◌, List, [], ◌∷◌, ◌++◌, arith, length, length-append, drop,
}
use py_rl_trainer.Distillation.Transport.{TeacherChunk}
use py_rl_trainer.Distillation.Replay.{
  replay_fixed_bytes, cost, Plan, evict, plan_chunk, plan_chunks,
}
use py_rl_trainer.Distillation.Replay.Eviction.{
  total_samples, total_cost-append, total_samples-append, drop-append, drop-drop, IsCounted,
  evict-IsCounted, evict_makes_room, evict_counts, evict_fifo,
}

fifo_step :
    (a b : ℕ) (history planned now : List TeacherChunk) (chunk : TeacherChunk)
    → a ≤ b
    → planned ≡ drop a history
    → now ≡ drop (b - a) planned
    → b ≤ length history
    → now ++ chunk ∷ [] ≡ drop b (history ++ chunk ∷ [])
fifo_step a b history planned now chunk le before after within =
    let newest : now ≡ drop b history =
      after
      ∙ ap (drop (b - a)) before
      ∙ drop-drop a (b - a) history
      ∙ ap (λ k. drop k history) (omega arith) in
    ap (λ l. l ++ chunk ∷ []) newest ∙ sym (drop-append b history (chunk ∷ []) within)

-- every chunk fits an empty replay
abbrev pub AllFit : ℕ → List TeacherChunk → Type 0
AllFit max_bytes [] = Unit
AllFit max_bytes (chunk ∷ rest) =
    (replay_fixed_bytes + cost chunk ≤ max_bytes) × AllFit max_bytes rest

module _ (max_bytes max_chunks : ℕ) where
  -- A plan that has seen the chunks of `history`.
  pub record IsPlan (history : List TeacherChunk) (p : Plan) : Type 0 where
    pub counted : IsCounted p
    pub fits : p.owned ≤ max_bytes
    pub few : length p.planned ≤ max_chunks
    pub fifo : p.planned ≡ drop p.dropped history
    pub chunks : p.dropped + length p.planned ≡ length history
    pub samples : p.dropped_samples + total_samples p.planned ≡ total_samples history

  plan_chunk-IsPlan :
      (history : List TeacherChunk) (p : Plan) (chunk : TeacherChunk)
      → 0 < max_chunks
      → replay_fixed_bytes + cost chunk ≤ max_bytes
      → IsPlan history p
      → IsPlan (history ++ chunk ∷ []) (plan_chunk max_bytes max_chunks p chunk)
  unfolding plan_chunk
  plan_chunk-IsPlan history p chunk some_chunk fit h =
      let room =
        evict max_bytes max_chunks (cost chunk) p.planned p.owned p.dropped p.dropped_samples in
      let counted : IsCounted room =
        evict-IsCounted max_bytes max_chunks (cost chunk) p.planned p.owned p.dropped
          p.dropped_samples h.counted in
      let made =
        evict_makes_room max_bytes max_chunks (cost chunk) p.planned p.owned p.dropped
          p.dropped_samples h.counted fit some_chunk in
      let counts =
        evict_counts max_bytes max_chunks (cost chunk) p.planned p.owned p.dropped
          p.dropped_samples in
      let order =
        evict_fifo max_bytes max_chunks (cost chunk) p.planned p.owned p.dropped
          p.dropped_samples in
      record {
        counted = omega (arith, total_cost-append room.planned (chunk ∷ []));
        fits = omega arith;
        few = omega (arith, length-append room.planned (chunk ∷ []));
        fifo =
            fifo_step p.dropped room.dropped history p.planned room.planned chunk order.0 h.fifo
              order.1 (omega (arith, h.chunks));
        chunks = omega (
          arith,
          length-append room.planned (chunk ∷ []),
          length-append history (chunk ∷ []),
          h.chunks,
        );
        samples = omega (
          arith,
          total_samples-append room.planned (chunk ∷ []),
          total_samples-append history (chunk ∷ []),
          h.samples,
        );
      }

  pub plan_chunks-IsPlan :
      (history incoming : List TeacherChunk) (p : Plan)
      → 0 < max_chunks
      → AllFit max_bytes incoming
      → IsPlan history p
      → IsPlan (history ++ incoming) (plan_chunks max_bytes max_chunks p incoming)
  unfolding plan_chunks
  plan_chunks-IsPlan history [] p some_chunk fit h = rw append-nil h
  plan_chunks-IsPlan history (chunk ∷ rest) p some_chunk fit h =
      let next =
        plan_chunks-IsPlan (history ++ chunk ∷ []) rest (plan_chunk max_bytes max_chunks p chunk)
          some_chunk fit.1 (plan_chunk-IsPlan history p chunk some_chunk fit.0 h) in
      rw append_assoc at next
