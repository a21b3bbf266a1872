-- ===== src/Store/Memories/Listed.antt =====
-- internal/store/memory.go: what Memories returns.
use ad_agent.Prelude.{
  ℕ, zero, suc, ◌≤◌, ◌≡◌, ◌≢◌, refl, Bool, ◌||◌, some, List, [], ◌∷◌, length, All, ap, arith,
  Bool-cases, Option-cases, inl, inr, ltb,
}
use ad_agent.Prelude.Result.{ok, refuse, bind_parts, refuse_passed, ok-injective}
use ad_agent.Prelude.Sorting.{sort, sort-All}
use ad_agent.Ads.Types.{Source, same_source, same_source→eq}
use ad_agent.Store.Memories.{
  Memory, MemoryRow, of_source, comes_first, decoded, take, memory_source_key, memories,
}
use ad_agent.Store.Memories.Calls.{source_key-same}

-- `ms` are at most `limit` memories, not more than 50, and they come from rows of the source: what
-- holds of each memory that a row of the source has holds of each of them.
pub record Listed (s : Source) (limit : ℕ) (rows : List MemoryRow) (ms : List Memory) : Type 1 where
  pub some_asked : limit ≢ 0
  pub few : length ms ≤ limit
  pub at_most : limit ≤ 50
  pub own :
      (P : Memory → Type 0)
      → All (λ r. (m : Memory) → r.source ≡ s → r.payload ≡ some m → P m) rows
      → All P ms

abbrev Held : (Memory → Type 0) → MemoryRow → Type 0
Held P r = (m : Memory) → r.payload ≡ some m → P m

of_source-Held :
    (P : Memory → Type 0) (s : Source) (rows : List MemoryRow)
    → All (λ r. (m : Memory) → r.source ≡ s → r.payload ≡ some m → P m) rows
    → All (Held P) (of_source s rows)
unfolding of_source
of_source-Held P s [] h = tt
of_source-Held P s (r ∷ rows) h =
    let rest = of_source-Held P s rows h.1 in
    elim (Bool-cases (same_source r.source s)) [
      | inl x ↦ rw x ((λ m. h.0 m (same_source→eq r.source s x)), rest)
      | inr x ↦ rw x rest
    ]

take-All :
    (P : MemoryRow → Type 0) (n : ℕ) (rows : List MemoryRow) → All P rows → All P (take n rows)
unfolding take
take-All P zero rows h = tt
take-All P (suc n) [] h = tt
take-All P (suc n) (r ∷ rows) h = (h.0, take-All P n rows h.1)

take-length : (n : ℕ) (rows : List MemoryRow) → length (take n rows) ≤ n
unfolding take
take-length zero rows = omega arith
take-length (suc n) [] = omega arith
take-length (suc n) (r ∷ rows) = omega (arith, take-length n rows)

decoded-parts :
    (P : Memory → Type 0) (rows : List MemoryRow) {ms : List Memory}
    → decoded rows ≡ ok ms
    → All (Held P) rows
    → (length ms ≡ length rows) × All P ms
unfolding decoded
decoded-parts P [] {ms} h k = rw (← ok-injective h) (refl, tt)
decoded-parts P (r ∷ rows) {ms} h k = elim (Option-cases r.payload) [
  | inl blank ↦ let stops = rw blank at h in cc stops
  | inr (m, held) ↦
      let (rest, at, done) = bind_parts (decoded rows) _ (rw held at h) in
      let (same, all) = decoded-parts P rows at k.1 in
      rw (← ok-injective done) (ap suc same, (k.0 m held, all))
]

Held-unit : (rows : List MemoryRow) → All (Held (λ m. Unit)) rows
Held-unit [] = tt
Held-unit (r ∷ rows) = ((λ m h. tt), Held-unit rows)

-- Memories answers with no more than it is asked for, never more than 50, and only with memories of
-- the account that it is asked about.
pub memories-Listed :
    (fault : Bool) (s : Source) (limit : ℕ) (rows : List MemoryRow) {ms : List Memory}
    → memories fault s limit rows ≡ ok ms
    → Listed s limit rows ms
unfolding memories
memories-Listed fault s limit rows {ms} h =
    let (_, asked, h₁) = bind_parts (refuse (ltb limit 1 || ltb 50 limit) _) _ h in
    let (key, is_key, h₂) = bind_parts (memory_source_key s) _ h₁ in
    let (_, _, h₃) = bind_parts (refuse fault _) _ h₂ in
    let within = refuse_passed (ltb limit 1 || ltb 50 limit) _ asked in
    record {
      some_asked = λ none_asked. ground (arith, within, none_asked);
      few =
          let found = take limit (sort comes_first (of_source key rows)) in
          let (same, _) = decoded-parts (λ m. Unit) found h₃ (Held-unit found) in
          omega (arith, same, take-length limit (sort comes_first (of_source key rows)));
      at_most = ground (arith, within);
      own = λ P held.
          (decoded-parts P _ h₃ (
            take-All (Held P) limit _ (
              sort-All comes_first (Held P) (of_source key rows)
                (of_source-Held P key rows (rw (← source_key-same s is_key) held))))).1;
    }
