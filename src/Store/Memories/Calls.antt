-- ===== src/Store/Memories/Calls.antt =====
-- internal/store/memory.go: a run of SaveMemory, UpsertMemory and DeleteMemory.
use ad_agent.Prelude.{
  ℕ, String, ◌==◌, eq_refl, ◌≡◌, ◌≢◌, Bool, true, false, ◌||◌, Option, none, some, List, [], ◌∷◌,
  ◌++◌, any, All, All-map, arith, Bool-cases, inl, inr, if◌then◌else◌, ◌⊎◌, ap, ◌∙◌,
}
use ad_agent.Prelude.Result.{ok, refuse, bind_parts, refuse_passed, ok-injective}
use ad_agent.Ads.Types.{Source, same_source}
use ad_agent.Store.Tables.{Faults}
use ad_agent.Store.Memories.{
  MemoryKind, Memory, MemoryRow, has_id, key_of, at_id, update_memory, delete_rows, row_at,
  insert_memory, memory_source_key,
}
use ad_agent.Store.Memories.Keyed.{Keyed, in_slot, in_slot→eq, at_id→eq, sole, found, clear→ids}
use ad_agent.Store.Memories.Kept.{row_with, append-Keyed, new_clear, update-Keyed, delete-Keyed}
use ad_agent.Store.Memories.Facts.{
  Fact, fact, fact_at, is_slot, same-slot, fact_at-insert, fact_at-update_other,
  fact_at-update_same, fact_at-delete_other, fact_at-delete_same,
}

pub data MemoryCall : Type 0 where
  saves : Faults → String → ℕ → Source → MemoryKind → String → MemoryCall
  upserts : Faults → String → ℕ → Source → String → MemoryKind → String → MemoryCall
  deletes : Faults → Source → String → MemoryCall

-- What an account's standing facts are: one for each key.
abbrev pub Facts : Type 0
Facts = Source → String → Option Fact

unfoldable pub with_fact : Source → String → Option Fact → Facts → Facts
with_fact s k v facts t j = if is_slot s k t j then v else facts t j

-- The table `rows` holds the facts `facts`.
pub record Tracks (facts : Facts) (rows : List MemoryRow) : Type 0 where
  pub keyed : Keyed rows
  pub at : (s : Source) (k : String) → k ≢ "" → fact_at s k rows ≡ facts s k

some-injective : {a b : MemoryRow} → some a ≡ some b → a ≡ b
some-injective h = cc h

pub source_key-same : (s : Source) {k : Source} → memory_source_key s ≡ ok k → s ≡ k
unfolding memory_source_key
source_key-same s h =
    let (_, _, rest) =
      bind_parts (refuse (s.backend == "" || s.environment == "" || s.account_id == "") _) _ h in
    ok-injective rest

pub inserted :
    (fault : Bool) (s : Source) (m : Memory) (at : String) (rows : List MemoryRow)
    {rows' : List MemoryRow}
    → insert_memory fault s m at rows ≡ ok rows'
    → (has_id m.id rows ≡ false) × (rows ++ row_with m.id s m at ∷ [] ≡ rows')
unfolding insert_memory
inserted fault s m at rows h =
    let (_, free, rest) = bind_parts (refuse (fault || has_id m.id rows) _) _ h in
    let passed = refuse_passed (fault || has_id m.id rows) _ free in
    (ground (arith, passed), ok-injective rest)

-- A row that is added under a key of its own, or under none.
pub insert-Tracks :
    (facts : Facts) (rows : List MemoryRow) (s : Source) (m : Memory) (at : String)
    → any (in_slot s m.key) rows ≡ false ⊎ (m.key ≡ "")
    → has_id m.id rows ≡ false
    → Tracks facts rows
    → Tracks (with_fact s m.key (fact (some m)) facts) (rows ++ row_with m.id s m at ∷ [])
unfolding with_fact
insert-Tracks facts rows s m at free new h = record {
  keyed = append-Keyed rows (row_with m.id s m at) h.keyed (new_clear s m at rows new free);
  at = λ t j n. ground (arith, fact_at-insert s m at rows t j free n, h.at t j n);
}

found-at_id :
    (id : String) (s : Source) (k : String) (rows : List MemoryRow)
    → any (found id s k) rows ≡ true
    → any (at_id id s) rows ≡ true
found-at_id id s k [] h = cc h
found-at_id id s k (r ∷ rows) h = ground (arith, h, found-at_id id s k rows)

pub update-Tracks :
    (facts : Facts) (rows : List MemoryRow) (id : String) (s : Source) (m : Memory) (at : String)
    → m.key ≢ ""
    → any (found id s m.key) rows ≡ true
    → Tracks facts rows
    → Tracks (with_fact s m.key (fact (some m)) facts) (update_memory id s m at rows)
unfolding with_fact
update-Tracks facts rows id s m at n there h =
    let only = sole s m.key id rows n h.keyed there in
    record {
      keyed =
          update-Keyed id s m at rows
            (All-map (λ q same here. (in_slot→eq s m.key q (cc (same, here))).1) rows only) h.keyed;
      at = λ t j k. elim (Bool-cases (is_slot s m.key t j)) [
        | inl x ↦
            let (source, key) = same-slot x in
            let updated =
              fact_at-update_same id s m at rows only (found-at_id id s m.key rows there) in
            let here : fact_at t j (update_memory id s m at rows) ≡ fact (some m) =
              rw (← source, ← key) updated in
            rw x here
        | inr x ↦ rw x (fact_at-update_other id s m at rows t j x only ∙ h.at t j k)
      ];
    }

row_at-found :
    (id : String) (s : Source) (rows : List MemoryRow) (r : MemoryRow) (m : Memory)
    → row_at id s rows ≡ some r
    → r.payload ≡ some m
    → any (found id s m.key) rows ≡ true
unfolding row_at key_of
row_at-found id s [] r m h held = cc h
row_at-found id s (q ∷ rows) r m h held = elim (Bool-cases (at_id id s q)) [
  | inl here ↦
      let same : some q ≡ some r = rw here at h in
      ground (arith, here, ap (λ z. z.payload) (some-injective same), held, eq_refl m.key)
  | inr there ↦
      let later : row_at id s rows ≡ some r = rw there at h in
      ground (arith, row_at-found id s rows r m later held)
]

-- The row that a lookup finds is the only one with its id.
row_at-key :
    (id : String) (s : Source) (rows : List MemoryRow) (r : MemoryRow)
    → row_at id s rows ≡ some r
    → Keyed rows
    → All (λ q. at_id id s q ≡ true → key_of q ≡ key_of r) rows
unfolding row_at
row_at-key id s [] r h k = tt
row_at-key id s (q ∷ rows) r h k = elim (Bool-cases (at_id id s q)) [
  | inl here ↦
      let same : some q ≡ some r = rw here at h in
      (
        λ x. ap key_of (some-injective same),
        All-map
            (λ o c x. absurd (
              clear→ids q o c
                (let a = at_id→eq id s q here in let b = at_id→eq id s o x in cc (a.0, b.0))))
            rows k.0,
      )
  | inr there ↦
      let later : row_at id s rows ≡ some r = rw there at h in
      (λ x. cc (x, there), row_at-key id s rows r later k.1)
]

other_slots :
    (id : String) (s : Source) (rows : List MemoryRow) (r : MemoryRow) (m : Memory)
    → row_at id s rows ≡ some r
    → r.payload ≡ some m
    → Keyed rows
    → (t : Source) (j : String) → is_slot s m.key t j ≡ false
    → All (λ q. at_id id s q ≡ true → in_slot t j q ≡ false) rows
unfolding key_of
other_slots id s rows r m there held k t j x =
    All-map
      (λ q same here.
        let a = at_id→eq id s q here in
        let key : key_of q ≡ m.key = ground (arith, same here, held) in
        ground (arith, x, key, ap (λ z. same_source z t) a.1))
      rows (row_at-key id s rows r there k)

-- A row that is removed with the key it has, if it has one.
pub delete-Tracks :
    (facts : Facts) (rows : List MemoryRow) (id : String) (s : Source) (r : MemoryRow) (m : Memory)
    → row_at id s rows ≡ some r
    → r.payload ≡ some m
    → Tracks facts rows
    → Tracks (with_fact s m.key none facts) (delete_rows id s rows)
unfolding with_fact
delete-Tracks facts rows id s r m there held h = record {
  keyed = delete-Keyed id s rows h.keyed;
  at = λ t j n. elim (Bool-cases (is_slot s m.key t j)) [
    | inl x ↦
        let (source, key) = same-slot x in
        let only =
          sole s m.key id rows (λ e. n (cc (key, e))) h.keyed
            (row_at-found id s rows r m there held) in
        let gone = fact_at-delete_same id s m.key rows only in
        let here : fact_at t j (delete_rows id s rows) ≡ none = rw (← source, ← key) gone in
        rw x here
    | inr x ↦ rw x (
        fact_at-delete_other id s rows t j (other_slots id s rows r m there held h.keyed t j x)
        ∙ h.at t j n)
  ];
}
