-- ===== src/Prelude/Sorting.antt =====
-- sort.Slice, as an insertion sort: what the source sorts has no two elements that the test calls
-- equal, so every sort gives the same list.
use mathlib.Core.Path.{◌≡◌}
use mathlib.Core.Bool.{Bool, true, false}
use mathlib.Core.List.{List, [], ◌∷◌, Perm}
use mathlib.Core.List.Perm
use mathlib.Core.Logic.{inl, inr}
use ad_agent.Prelude.Tests.{if◌then◌else◌, Bool-cases}
use ad_agent.Prelude.Lists.{All}

module _ {ℓ} {A : Type ℓ} (less : A → A → Bool) where
  unfoldable pub insert : A → List A → List A
  insert x [] = x ∷ []
  insert x (y ∷ ys) = let rest = insert x ys in if less x y then x ∷ y ∷ ys else y ∷ rest

  unfoldable pub sort : List A → List A
  unfolding insert
  sort [] = []
  sort (x ∷ xs) = insert x (sort xs)

  insert-Perm : (x : A) (l : List A) → Perm (insert x l) (x ∷ l)
  unfolding insert
  insert-Perm x [] = Perm.rfl
  insert-Perm x (y ∷ ys) = elim (Bool-cases (less x y)) [
    | inl h ↦ rw h Perm.rfl
    | inr h ↦ rw h (Perm.trans (Perm.cons y (insert-Perm x ys)) (Perm.swap x y ys))
  ]

  pub sort-Perm : (l : List A) → Perm (sort l) l
  unfolding sort
  sort-Perm [] = Perm.rfl
  sort-Perm (x ∷ xs) = Perm.trans (insert-Perm x (sort xs)) (Perm.cons x (sort-Perm xs))

  -- No element is less than the one just before it.
  abbrev pub InOrder : List A → Type 0
  InOrder [] = Unit
  InOrder (x ∷ []) = Unit
  InOrder (x ∷ y ∷ l) = (less y x ≡ false) × InOrder (y ∷ l)

  insert-InOrder :
      ((a b : A) → less a b ≡ true → less b a ≡ false)
      → (x : A) (l : List A) → InOrder l
      → InOrder (insert x l)
  unfolding insert
  insert-InOrder asym x [] h = tt
  insert-InOrder asym x (y ∷ []) h = elim (Bool-cases (less x y)) [
    | inl k ↦ rw k (asym x y k, tt)
    | inr k ↦ rw k (k, tt)
  ]
  insert-InOrder asym x (y ∷ z ∷ l) h = elim (Bool-cases (less x y)) [
    | inl k ↦ rw k (asym x y k, h)
    | inr k ↦
        let rest = insert-InOrder asym x (z ∷ l) h.1 in
        elim (Bool-cases (less x z)) [
          | inl m ↦ rw (k, m) (k, rw m at rest)
          | inr m ↦ rw (k, m) (h.0, rw m at rest)
        ]
  ]

  pub sort-InOrder :
      ((a b : A) → less a b ≡ true → less b a ≡ false) → (l : List A) → InOrder (sort l)
  unfolding sort
  sort-InOrder asym [] = tt
  sort-InOrder asym (x ∷ xs) = insert-InOrder asym x (sort xs) (sort-InOrder asym xs)

  insert-All : (P : A → Type 0) (x : A) (l : List A) → P x → All P l → All P (insert x l)
  unfolding insert
  insert-All P x [] h k = (h, tt)
  insert-All P x (y ∷ l) h k =
      let rest = insert-All P x l h k.1 in
      elim (Bool-cases (less x y)) [ inl b ↦ rw b (h, k) | inr b ↦ rw b (k.0, rest) ]

  pub sort-All : (P : A → Type 0) (l : List A) → All P l → All P (sort l)
  unfolding sort
  sort-All P [] h = tt
  sort-All P (x ∷ l) h = insert-All P x (sort l) h.0 (sort-All P l h.1)
