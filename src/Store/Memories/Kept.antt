-- ===== src/Store/Memories/Kept.antt =====
-- internal/store/memory.go: the ids and the keys through each statement.
use ad_agent.Prelude.{
  String, ◌==◌, eq_iff, ◌≡◌, subst, true, false, not, ◌&&◌, ◌⊎◌, some, List, [], ◌∷◌, ◌++◌, any,
  All, All-append, arith, Bool-cases, inl, inr,
}
use ad_agent.Ads.Types.{Source, same_source}
use ad_agent.Store.Memories.{Memory, MemoryRow, has_id, key_of, at_id, update_memory, delete_rows}
use ad_agent.Store.Memories.Keyed.{clear, Keyed, in_slot}

-- A row at the end.
pub append-Keyed :
    (rows : List MemoryRow) (r : MemoryRow)
    → Keyed rows
    → All (λ q. clear q.id q.source (key_of q) r ≡ true) rows
    → Keyed (rows ++ r ∷ [])
append-Keyed [] r h k = (tt, tt)
append-Keyed (q ∷ rows) r h k = (
  All-append (λ x. clear q.id q.source (key_of q) x ≡ true) rows (r ∷ []) h.0 (k.0, tt),
  append-Keyed rows r h.1 k.1,
)

abbrev pub row_with : String → Source → Memory → String → MemoryRow
row_with id s m at = record { id = id; source = s; payload = some m; created_at = at }

pub new_clear :
    (s : Source) (m : Memory) (at : String) (rows : List MemoryRow)
    → has_id m.id rows ≡ false
    → any (in_slot s m.key) rows ≡ false ⊎ (m.key ≡ "")
    → All (λ q. clear q.id q.source (key_of q) (row_with m.id s m at) ≡ true) rows
unfolding has_id key_of
new_clear s m at [] h k = tt
new_clear s m at (q ∷ rows) h (inl k) = (
  ground (arith, h, k, eq_iff q.id m.id, eq_iff (key_of q) m.key, eq_iff (key_of q) ""),
  new_clear s m at rows (ground (arith, h)) (inl (ground (arith, k))),
)
new_clear s m at (q ∷ rows) h (inr k) = (
  ground (arith, h, k, eq_iff q.id m.id, eq_iff (key_of q) m.key, eq_iff (key_of q) ""),
  new_clear s m at rows (ground (arith, h)) (inr k),
)

-- An update at an id whose row has the key already.
update-Clears :
    (id : String) (s : Source) (m : Memory) (at : String) (i : String) (t : Source) (k : String)
    (rows : List MemoryRow)
    → All (λ q. at_id id s q ≡ true → key_of q ≡ m.key) rows
    → All (λ q. clear i t k q ≡ true) rows
    → All (λ q. clear i t k q ≡ true) (update_memory id s m at rows)
unfolding update_memory key_of
update-Clears id s m at i t k [] h c = tt
update-Clears id s m at i t k (q ∷ rows) h c =
    let rest = update-Clears id s m at i t k rows h.1 c.1 in
    elim (Bool-cases (at_id id s q)) [
      | inl x ↦
          let same = h.0 x in
          rw x (
            subst
                (λ x.
                  (not (i == q.id) && not (same_source t q.source && k == x && not (k == "")))
                  ≡ true)
                same c.0,
            rest,
          )
      | inr x ↦ rw x (c.0, rest)
    ]

pub update-Keyed :
    (id : String) (s : Source) (m : Memory) (at : String) (rows : List MemoryRow)
    → All (λ q. at_id id s q ≡ true → key_of q ≡ m.key) rows
    → Keyed rows
    → Keyed (update_memory id s m at rows)
unfolding update_memory key_of
update-Keyed id s m at [] h c = tt
update-Keyed id s m at (q ∷ rows) h c =
    let first = update-Clears id s m at q.id q.source (key_of q) rows h.1 c.0 in
    let rest = update-Keyed id s m at rows h.1 c.1 in
    elim (Bool-cases (at_id id s q)) [
      | inl x ↦
          let same = h.0 x in
          rw x (
            subst (λ x. All (λ y. clear q.id q.source x y ≡ true) (update_memory id s m at rows))
                same first,
            rest,
          )
      | inr x ↦ rw x (first, rest)
    ]

delete-All :
    (P : MemoryRow → Type 0) (id : String) (s : Source) (rows : List MemoryRow)
    → All P rows
    → All P (delete_rows id s rows)
unfolding delete_rows
delete-All P id s [] h = tt
delete-All P id s (q ∷ rows) h =
    let rest = delete-All P id s rows h.1 in
    elim (Bool-cases (at_id id s q)) [ inl x ↦ rw x rest | inr x ↦ rw x (h.0, rest) ]

pub delete-Keyed :
    (id : String) (s : Source) (rows : List MemoryRow) → Keyed rows → Keyed (delete_rows id s rows)
unfolding delete_rows
delete-Keyed id s [] h = tt
delete-Keyed id s (q ∷ rows) h =
    let first = delete-All (λ x. clear q.id q.source (key_of q) x ≡ true) id s rows h.0 in
    let rest = delete-Keyed id s rows h.1 in
    elim (Bool-cases (at_id id s q)) [ inl x ↦ rw x rest | inr x ↦ rw x (first, rest) ]
