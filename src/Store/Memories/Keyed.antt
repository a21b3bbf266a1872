-- ===== src/Store/Memories/Keyed.antt =====
-- internal/store/memory.go: rows with ids and keys of their own.
use ad_agent.Prelude.{
  String, ◌==◌, eq_iff, ◌≡◌, ◌≢◌, refl, Bool, true, false, not, ◌&&◌, ◌||◌, none, some, List, [],
  ◌∷◌, any, ap, All, All-map, arith, Bool-cases, inl, inr,
}
use ad_agent.Prelude.Sorting.{insert, sort}
use ad_agent.Ads.Types.{Source, same_source, same_source→eq}
use ad_agent.Store.Memories.{
  MemoryRow, of_source, comes_first, key_of, holds_key, existing_id, at_id,
}

-- Whether a row has neither the id nor the key (of the source) given.
abbrev pub clear : String → Source → String → MemoryRow → Bool
clear id s k q = not (id == q.id) && not (same_source s q.source && k == key_of q && not (k == ""))

abbrev pub Clears : MemoryRow → List MemoryRow → Type 0
Clears r rows = All (λ q. clear r.id r.source (key_of r) q ≡ true) rows

abbrev pub Keyed : List MemoryRow → Type 0
Keyed [] = Unit
Keyed (r ∷ rows) = Clears r rows × Keyed rows

abbrev pub in_slot : Source → String → MemoryRow → Bool
in_slot s k q = same_source q.source s && holds_key k q

abbrev pub found : String → Source → String → MemoryRow → Bool
found id s k q = same_source q.source s && (q.id == id && holds_key k q)

-- The rows at an id of the source are exactly those that hold the key.
abbrev pub Sole : String → Source → String → List MemoryRow → Type 0
Sole id s k rows = All (λ q. at_id id s q ≡ in_slot s k q) rows

pub at_id→eq :
    (id : String) (s : Source) (r : MemoryRow) → at_id id s r ≡ true → (r.id ≡ id) × (r.source ≡ s)
at_id→eq id s r h =
    (ground (arith, h, eq_iff r.id id), same_source→eq r.source s (ground (arith, h)))

pub in_slot→eq :
    (s : Source) (k : String) (r : MemoryRow)
    → in_slot s k r ≡ true
    → (r.source ≡ s) × (key_of r ≡ k)
in_slot→eq s k r h =
    (same_source→eq r.source s (ground (arith, h)), ground (arith, h, eq_iff (key_of r) k))

pub clear→ids : (r q : MemoryRow) → clear r.id r.source (key_of r) q ≡ true → ¬ (r.id ≡ q.id)
clear→ids r q h e = ground (arith, h, e, eq_iff r.id q.id)

clear→slots :
    (r q : MemoryRow)
    → clear r.id r.source (key_of r) q ≡ true
    → key_of r ≢ ""
    → r.source ≡ q.source
    → ¬ (key_of r ≡ key_of q)
unfolding same_source
clear→slots r q h n e f = ground (
  arith,
  h,
  n,
  f,
  eq_iff (key_of r) (key_of q),
  eq_iff (key_of r) "",
  eq_iff r.source.backend q.source.backend,
  eq_iff r.source.environment q.source.environment,
  eq_iff r.source.account_id q.source.account_id,
  ap (λ x. x.backend) e,
  ap (λ x. x.environment) e,
  ap (λ x. x.account_id) e,
)

module _ (s : Source) (k : String) where
  any-insert :
      (p : MemoryRow → Bool) (r : MemoryRow) (rows : List MemoryRow)
      → any p (insert comes_first r rows) ≡ (p r || any p rows)
  unfolding insert
  any-insert p r [] = refl
  any-insert p r (q ∷ rows) = ground (arith, any-insert p r rows)

  any-sort :
      (p : MemoryRow → Bool) (rows : List MemoryRow) → any p (sort comes_first rows) ≡ any p rows
  unfolding sort
  any-sort p [] = refl
  any-sort p (r ∷ rows) = ground (arith, any-insert p r (sort comes_first rows), any-sort p rows)

  any-of_source :
      (p : MemoryRow → Bool) (rows : List MemoryRow)
      → any p (of_source s rows) ≡ any (λ q. same_source q.source s && p q) rows
  unfolding of_source
  any-of_source p [] = refl
  any-of_source p (r ∷ rows) = ground (arith, any-of_source p rows)

  scan-none : (rows : List MemoryRow) → existing_id k rows ≡ none → any (holds_key k) rows ≡ false
  unfolding existing_id
  scan-none [] h = refl
  scan-none (r ∷ rows) h = ground (arith, h, scan-none rows)

  scan-some :
      (rows : List MemoryRow) (id : String)
      → existing_id k rows ≡ some id
      → any (λ q. q.id == id && holds_key k q) rows ≡ true
  unfolding existing_id
  scan-some [] id h = cc h
  scan-some (r ∷ rows) id h = ground (arith, h, scan-some rows id, eq_iff r.id id)

  -- What the scan of UpsertMemory says of the table.
  pub existing-none :
      (rows : List MemoryRow)
      → existing_id k (sort comes_first (of_source s rows)) ≡ none
      → any (in_slot s k) rows ≡ false
  existing-none rows h =
      let found = scan-none (sort comes_first (of_source s rows)) h in
      cc (found, any-sort (holds_key k) (of_source s rows), any-of_source (holds_key k) rows)

  pub existing-some :
      (rows : List MemoryRow) (id : String)
      → existing_id k (sort comes_first (of_source s rows)) ≡ some id
      → any (found id s k) rows ≡ true
  existing-some rows id h =
      let found = scan-some (sort comes_first (of_source s rows)) id h in
      let p : MemoryRow → Bool = λ q. q.id == id && holds_key k q in
      cc (found, any-sort p (of_source s rows), any-of_source p rows)

  -- A row at the id with the key, and a row that is clear of it.
  apart_of :
      (id : String) (r q : MemoryRow)
      → k ≢ ""
      → clear r.id r.source (key_of r) q ≡ true
      → at_id id s q ≡ true
      → in_slot s k q ≡ true
      → at_id id s r ≡ in_slot s k r
  apart_of id r q n c at slot =
      let there = at_id→eq id s q at in
      let held = in_slot→eq s k q slot in
      let other_id : at_id id s r ≡ false = elim (Bool-cases (at_id id s r)) [
        | inl x ↦ absurd (clear→ids r q c (let same = at_id→eq id s r x in cc (same.0, there.0)))
        | inr x ↦ x
      ] in
      let other_slot : in_slot s k r ≡ false = elim (Bool-cases (in_slot s k r)) [
        | inl y ↦
            let same = in_slot→eq s k r y in
            absurd (
              clear→slots r q c (λ e. n (cc (same.1, e))) (cc (same.0, held.0))
                (cc (same.1, held.1)))
        | inr y ↦ y
      ] in
      cc (other_id, other_slot)

  apart_from :
      (id : String) (r q : MemoryRow)
      → k ≢ ""
      → at_id id s r ≡ true
      → in_slot s k r ≡ true
      → clear r.id r.source (key_of r) q ≡ true
      → at_id id s q ≡ in_slot s k q
  apart_from id r q n at slot c =
      let here = at_id→eq id s r at in
      let held = in_slot→eq s k r slot in
      let other_id : at_id id s q ≡ false = elim (Bool-cases (at_id id s q)) [
        | inl x ↦ absurd (clear→ids r q c (let same = at_id→eq id s q x in cc (same.0, here.0)))
        | inr x ↦ x
      ] in
      let other_slot : in_slot s k q ≡ false = elim (Bool-cases (in_slot s k q)) [
        | inl y ↦
            let same = in_slot→eq s k q y in
            absurd (
              clear→slots r q c (λ e. n (cc (held.1, e))) (cc (same.0, held.0))
                (cc (same.1, held.1)))
        | inr y ↦ y
      ] in
      cc (other_id, other_slot)

  not_first :
      (id : String) (r : MemoryRow) (rows : List MemoryRow)
      → k ≢ ""
      → Clears r rows
      → any (found id s k) rows ≡ true
      → at_id id s r ≡ in_slot s k r
  not_first id r [] n c h = cc h
  not_first id r (q ∷ rows) n c h = elim (Bool-cases (found id s k q)) [
    | inl here ↦ apart_of id r q n c.0 (ground (arith, here)) (ground (arith, here))
    | inr there ↦ not_first id r rows n c.1 (ground (arith, h, there))
  ]

  pub sole :
      (id : String) (rows : List MemoryRow)
      → k ≢ ""
      → Keyed rows
      → any (found id s k) rows ≡ true
      → Sole id s k rows
  sole id [] n c h = tt
  sole id (r ∷ rows) n c h = elim (Bool-cases (found id s k r)) [
    | inl here ↦
        let at : at_id id s r ≡ true = ground (arith, here) in
        let slot : in_slot s k r ≡ true = ground (arith, here) in
        (cc (at, slot), All-map (λ q. apart_from id r q n at slot) rows c.0)
    | inr there ↦
        let later : any (found id s k) rows ≡ true = ground (arith, h, there) in
        (not_first id r rows n c.0 later, sole id rows n c.1 later)
  ]
