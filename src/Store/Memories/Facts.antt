-- ===== src/Store/Memories/Facts.antt =====
-- internal/store/memory.go: the table as a map from a source and a key to a fact.
use ad_agent.Prelude.{
  String, ◌==◌, eq_iff, eq_refl, ◌≡◌, ◌≢◌, refl, Bool, true, false, ◌&&◌, Option, none, some, List,
  [], ◌∷◌, ◌++◌, any, All, arith, Bool-cases, inl, inr, if◌then◌else◌, ◌⊎◌, ap,
}
use ad_agent.Ads.Types.{Source, same_source, same_source→eq}
use ad_agent.Store.Memories.{
  MemoryKind, Memory, MemoryRow, key_of, at_id, update_memory, delete_rows,
}
use ad_agent.Store.Memories.Keyed.{in_slot, in_slot→eq, Sole}
use ad_agent.Store.Memories.Kept.{row_with}

pub record Fact : Type 0 where
  pub kind : MemoryKind
  pub text : String

abbrev pub fact : Option Memory → Option Fact
fact none = none
fact (some m) = some (record { kind = m.kind; text = m.text })

-- The fact that a source has under a key.
unfoldable pub fact_at : Source → String → List MemoryRow → Option Fact
fact_at s k [] = none
fact_at s k (r ∷ rows) =
    let rest = fact_at s k rows in if in_slot s k r then fact r.payload else rest

abbrev pub is_slot : Source → String → Source → String → Bool
is_slot s k t j = same_source s t && k == j

fact_at-absent :
    (s : Source) (k : String) (rows : List MemoryRow)
    → any (in_slot s k) rows ≡ false
    → fact_at s k rows ≡ none
unfolding fact_at
fact_at-absent s k [] h = refl
fact_at-absent s k (r ∷ rows) h = ground (arith, h, fact_at-absent s k rows (ground (arith, h)))

fact_at-append :
    (s : Source) (k : String) (rows : List MemoryRow) (r : MemoryRow)
    → fact_at s k (rows ++ r ∷ []) ≡ (
        if any (in_slot s k) rows
        then fact_at s k rows
        else if in_slot s k r
        then fact r.payload
        else none)
unfolding fact_at
fact_at-append s k [] r = refl
fact_at-append s k (q ∷ rows) r = ground (arith, fact_at-append s k rows r)

pub same-slot : {s t : Source} {k j : String} → is_slot s k t j ≡ true → (s ≡ t) × (k ≡ j)
same-slot {s} {t} {k} {j} h =
    (same_source→eq s t (ground (arith, h)), ground (arith, h, eq_iff k j))

pub fact_at-insert :
    (s : Source) (m : Memory) (at : String) (rows : List MemoryRow) (t : Source) (j : String)
    → any (in_slot s m.key) rows ≡ false ⊎ (m.key ≡ "")
    → j ≢ ""
    → fact_at t j (rows ++ row_with m.id s m at ∷ [])
      ≡ (if is_slot s m.key t j then fact (some m) else fact_at t j rows)
unfolding key_of
fact_at-insert s m at rows t j free n =
    let step = fact_at-append t j rows (row_with m.id s m at) in
    let absent = fact_at-absent t j rows in
    elim (Bool-cases (is_slot s m.key t j)) [
      | inl x ↦
          let (at_source, at_key) = same-slot x in
          let unheld : any (in_slot t j) rows ≡ false = elim free [
            | inl f ↦ rw (← at_source, ← at_key) f
            | inr blank ↦ absurd (n (cc (at_key, blank)))
          ] in
          ground (arith, step, x, unheld)
      | inr x ↦ elim (Bool-cases (any (in_slot t j) rows)) [
        | inl held ↦ ground (arith, step, x, held)
        | inr unheld ↦ ground (arith, step, x, unheld, absent unheld)
      ]
    ]

pub fact_at-update_other :
    (id : String) (s : Source) (m : Memory) (at : String) (rows : List MemoryRow) (t : Source)
    (j : String)
    → is_slot s m.key t j ≡ false
    → Sole id s m.key rows
    → fact_at t j (update_memory id s m at rows) ≡ fact_at t j rows
unfolding fact_at update_memory key_of
fact_at-update_other id s m at [] t j x h = refl
fact_at-update_other id s m at (r ∷ rows) t j x h =
    let rest = fact_at-update_other id s m at rows t j x h.1 in
    elim (Bool-cases (at_id id s r)) [
      | inl here ↦
          let (source, key) = in_slot→eq s m.key r (cc (here, h.0)) in
          ground (arith, rest, x, here, key, ap (λ z. same_source z t) source)
      | inr there ↦ ground (arith, rest, there)
    ]

pub fact_at-update_same :
    (id : String) (s : Source) (m : Memory) (at : String) (rows : List MemoryRow)
    → Sole id s m.key rows
    → any (at_id id s) rows ≡ true
    → fact_at s m.key (update_memory id s m at rows) ≡ fact (some m)
unfolding fact_at update_memory key_of
fact_at-update_same id s m at [] h a = cc a
fact_at-update_same id s m at (r ∷ rows) h a =
    let rest = fact_at-update_same id s m at rows h.1 in
    elim (Bool-cases (at_id id s r)) [
      | inl here ↦ ground (arith, here, eq_refl m.key)
      | inr there ↦ ground (arith, rest, h.0, there, a)
    ]

-- Rows at the id that have no such key go without a trace.
pub fact_at-delete_other :
    (id : String) (s : Source) (rows : List MemoryRow) (t : Source) (j : String)
    → All (λ q. at_id id s q ≡ true → in_slot t j q ≡ false) rows
    → fact_at t j (delete_rows id s rows) ≡ fact_at t j rows
unfolding fact_at delete_rows
fact_at-delete_other id s [] t j h = refl
fact_at-delete_other id s (r ∷ rows) t j h =
    let rest = fact_at-delete_other id s rows t j h.1 in ground (arith, rest, h.0)

pub fact_at-delete_same :
    (id : String) (s : Source) (k : String) (rows : List MemoryRow)
    → Sole id s k rows
    → fact_at s k (delete_rows id s rows) ≡ none
unfolding fact_at delete_rows
fact_at-delete_same id s k [] h = refl
fact_at-delete_same id s k (r ∷ rows) h =
    let rest = fact_at-delete_same id s k rows h.1 in ground (arith, rest, h.0)
