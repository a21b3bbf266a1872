-- ===== src/Sandbox/Backend/Listed.antt =====
-- internal/sandbox/backend.go: List, whatever order the map is gone through in.
use Prim.Native.String
use ad_agent.Prelude.{
  String, ◌≡◌, refl, sym, ◌∙◌, ap, Bool, true, false, ◌⊎◌, Option, some, List, [], ◌∷◌, All, arith,
  Ordering, Bool-cases, inl, inr,
}
use text.Mathlib.TextEquality.{path_by_compare}
use ad_agent.Prelude.Flip.{text_compare-flip}
use ad_agent.Prelude.TextOrder.{compare_trans}
use ad_agent.Prelude.Sorting.{insert, sort}
use ad_agent.Ads.Types.{Entity, EntityQuery}
use ad_agent.Ads.Analysis.{text_less}
use ad_agent.Sandbox.Backend.{Backend, by_id, is_asked, asked, list}

text_less_trans :
    (a b c : String) → text_less a b ≡ true → text_less b c ≡ true → text_less a c ≡ true
text_less_trans a b c h k = ground (arith, h, k, compare_trans a b c)

Ordering-cases : (o : Ordering) → (o ≡ Ordering.lt) ⊎ ((o ≡ Ordering.eq) ⊎ (o ≡ Ordering.gt))
Ordering-cases Ordering.lt = inl refl
Ordering-cases Ordering.eq = inr (inl refl)
Ordering-cases Ordering.gt = inr (inr refl)

text_less-total : (a b : String) → (text_less a b ≡ true) ⊎ ((text_less b a ≡ true) ⊎ (a ≡ b))
text_less-total a b = elim (Ordering-cases (String.compare a b)) [
  | inl less ↦ inl (ground (arith, less))
  | inr (inl same) ↦ inr (inr (path_by_compare a b same))
  | inr (inr more) ↦ inr (inl (ground (arith, more, text_compare-flip a b)))
]

pub text_less-asym : (a b : String) → text_less a b ≡ true → text_less b a ≡ false
text_less-asym a b h = ground (arith, h, text_compare-flip a b)

-- One order of a map's entries and another.
pub data Reordered {ℓ} {A : Type ℓ} : List A → List A → Type ℓ where
  nothing : Reordered [] []
  behind : (x : A) {l m : List A} → Reordered l m → Reordered (x ∷ l) (x ∷ m)
  exchange : (x y : A) (l : List A) → Reordered (x ∷ y ∷ l) (y ∷ x ∷ l)
  through : {l m n : List A} → Reordered l m → Reordered m n → Reordered l n

module _ {D : Type 0} where
  insert-swap :
      (a b : Entity D) (l : List (Entity D))
      → text_less a.id b.id ≡ true
      → insert by_id a (insert by_id b l) ≡ insert by_id b (insert by_id a l)
  unfolding insert by_id
  insert-swap a b [] h = ground (arith, h, text_less-asym a.id b.id h)
  insert-swap a b (x ∷ l) h = ground (
    arith,
    h,
    text_less-asym a.id b.id h,
    insert-swap a b l h,
    text_less_trans a.id b.id x.id,
    text_less_trans x.id a.id b.id,
    text_less-asym x.id a.id,
  )

  -- The entries of a map, which holds one entity for an id.
  abbrev pub Entries : (String → Option (Entity D)) → List (String × Entity D) → Type 0
  Entries f es = All (λ kv. f kv.1.id ≡ some kv.1) es

  some-injective : {a b : Entity D} → some a ≡ some b → a ≡ b
  some-injective h = cc h

  insert-two :
      (f : String → Option (Entity D)) (a b : Entity D) (l : List (Entity D))
      → f a.id ≡ some a
      → f b.id ≡ some b
      → insert by_id a (insert by_id b l) ≡ insert by_id b (insert by_id a l)
  insert-two f a b l p q = elim (text_less-total a.id b.id) [
    | inl less ↦ insert-swap a b l less
    | inr (inl more) ↦ sym (insert-swap b a l more)
    | inr (inr same) ↦
        let found : some a ≡ some b = sym p ∙ ap f same ∙ q in rw (some-injective found) refl
  ]

  Entries-Reordered :
      (f : String → Option (Entity D)) {es fs : List (String × Entity D)}
      → Reordered es fs
      → Entries f es
      → Entries f fs
  Entries-Reordered f nothing h = tt
  Entries-Reordered f (behind x r) h = (h.0, Entries-Reordered f r h.1)
  Entries-Reordered f (exchange x y l) h = (h.1.0, (h.0, h.1.1))
  Entries-Reordered f (through r s) h = Entries-Reordered f s (Entries-Reordered f r h)

  sort-asked :
      (f : String → Option (Entity D)) (q : EntityQuery) {es fs : List (String × Entity D)}
      → Reordered es fs
      → Entries f es
      → sort by_id (asked q es) ≡ sort by_id (asked q fs)
  unfolding asked sort
  sort-asked f q nothing h = refl
  sort-asked f q (behind x r) h = elim (Bool-cases (is_asked q x.1)) [
    | inl hit ↦ rw hit (ap (insert by_id x.1) (sort-asked f q r h.1))
    | inr miss ↦ rw miss (sort-asked f q r h.1)
  ]
  sort-asked f q (exchange x y l) h = elim (Bool-cases (is_asked q x.1)) [
    | inl hit ↦ elim (Bool-cases (is_asked q y.1)) [
      | inl also ↦ rw (hit, also) (insert-two f x.1 y.1 (sort by_id (asked q l)) h.0 h.1.0)
      | inr miss ↦ rw (hit, miss) refl
    ]
    | inr miss ↦ elim (Bool-cases (is_asked q y.1)) [
      | inl also ↦ rw (miss, also) refl
      | inr neither ↦ rw (miss, neither) refl
    ]
  ]
  sort-asked f q (through r s) h = sort-asked f q r h ∙ sort-asked f q s (Entries-Reordered f r h)

  -- List gives one answer for every order in which the map of the entities may be gone through.
  pub list-Reordered :
      (f : String → Option (Entity D)) (cancelled : Bool) (q : EntityQuery) (b : Backend D)
      (es : List (String × Entity D))
      → Reordered b.rules.entities es
      → Entries f b.rules.entities
      → list cancelled q b
        ≡ list cancelled q (record b { rules = record b.rules { entities = es } })
  unfolding list
  list-Reordered f cancelled q b es r h = rw (sort-asked f q r h) refl
