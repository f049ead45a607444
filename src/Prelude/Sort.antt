-- ===== src/Prelude/Sort.antt =====
-- Python's stable `sorted`, by a Boolean order: `le a b` says that `a` may stand before `b`.
use fin_data_hub.Prelude.{
  ◌≡◌, refl, ap, sym, ◌∙◌, ◌⊎◌, inl, inr, Bool, true, false, List, [], ◌∷◌, Option, none, some,
  arith, if◌then◌else◌, Bool-cases, In, length, suc,
}

module _ {ℓ} {A : Type ℓ} (le : A → A → Bool) where
  unfoldable pub insort : A → List A → List A
  insort a [] = a ∷ []
  insort a (b ∷ bs) = let rest = insort a bs in if le a b then a ∷ b ∷ bs else b ∷ rest

  unfoldable pub sorted : List A → List A
  unfolding insort
  sorted [] = []
  sorted (a ∷ l) = insort a (sorted l)

  pub length-insort : (a : A) (xs : List A) → length (insort a xs) ≡ suc (length xs)
  unfolding insort
  length-insort a [] = refl
  length-insort a (b ∷ bs) = ground (arith, length-insort a bs)

  pub length-sorted : (xs : List A) → length (sorted xs) ≡ length xs
  unfolding sorted
  length-sorted [] = refl
  length-sorted (a ∷ l) = length-insort a (sorted l) ∙ ap suc (length-sorted l)

-- A linear preorder.
pub record IsOrder {A : Type 0} (le : A → A → Bool) : Type 0 where
  pub total : (a b : A) → le a b ≡ false → le b a ≡ true
  pub trans : (a b c : A) → le a b ≡ true → le b c ≡ true → le a c ≡ true

module _ {A : Type 0} (le : A → A → Bool) where
  pub In-insort : (x a : A) (xs : List A) → In x (insort le a xs) → (x ≡ a) ⊎ In x xs
  unfolding insort
  In-insort x a [] m = m
  In-insort x a (b ∷ bs) m = split (Bool-cases (le a b)) (In-insort x a bs)
    where
      split :
          (le a b ≡ true) ⊎ (le a b ≡ false)
          → (In x (insort le a bs) → (x ≡ a) ⊎ In x bs)
          → (x ≡ a) ⊎ ((x ≡ b) ⊎ In x bs)
      split (inl first) ih = rw first at m
      split (inr later) ih = pick (rw later at m)
        where
          pick : (x ≡ b) ⊎ In x (insort le a bs) → (x ≡ a) ⊎ ((x ≡ b) ⊎ In x bs)
          pick (inl p) = inr (inl p)
          pick (inr n) = elim (ih n) [ inl p ↦ inl p | inr q ↦ inr (inr q) ]

  pub insort-In : (x a : A) (xs : List A) → (x ≡ a) ⊎ In x xs → In x (insort le a xs)
  unfolding insort
  insort-In x a [] m = m
  insort-In x a (b ∷ bs) m = elim (Bool-cases (le a b)) [
    | inl first ↦ rw first m
    | inr later ↦ rw later (place m (insort-In x a bs))
  ]
    where
      place :
          (x ≡ a) ⊎ ((x ≡ b) ⊎ In x bs)
          → ((x ≡ a) ⊎ In x bs → In x (insort le a bs))
          → (x ≡ b) ⊎ In x (insort le a bs)
      place (inl p) ih = inr (ih (inl p))
      place (inr (inl p)) ih = inl p
      place (inr (inr n)) ih = inr (ih (inr n))

  -- Sorting keeps the elements.
  pub In-of_sorted : (x : A) (xs : List A) → In x (sorted le xs) → In x xs
  unfolding sorted
  In-of_sorted x [] m = m
  In-of_sorted x (a ∷ l) m = elim (In-insort x a (sorted le l) m) [
    | inl p ↦ inl p
    | inr n ↦ inr (In-of_sorted x l n)
  ]

  pub In-sorted : (x : A) (xs : List A) → In x xs → In x (sorted le xs)
  unfolding sorted
  In-sorted x [] m = m
  In-sorted x (a ∷ l) (inl p) = insort-In x a (sorted le l) (inl p)
  In-sorted x (a ∷ l) (inr m) = insort-In x a (sorted le l) (inr (In-sorted x l m))

-- `sorted(xs)[0]`, if there is one.
abbrev pub head? {ℓ} : {A : Type ℓ} → List A → Option A
head? [] = none
head? (a ∷ l) = some a

module _ {A : Type 0} (le : A → A → Bool) (o : IsOrder le) where
  -- Each element stands before all that follow it.
  abbrev pub IsSorted : List A → Type 0
  IsSorted [] = Unit
  IsSorted (a ∷ l) = ((x : A) → In x l → le a x ≡ true) × IsSorted l

  pub insort-IsSorted : (a : A) (xs : List A) → IsSorted xs → IsSorted (insort le a xs)
  unfolding insort
  insort-IsSorted a [] h = (λ x m. absurd m, tt)
  insort-IsSorted a (b ∷ bs) h = elim (Bool-cases (le a b)) [
    | inl first ↦ rw first (before first, h)
    | inr later ↦ rw later (after later, insort-IsSorted a bs h.1)
  ]
    where
      before : le a b ≡ true → (x : A) → (x ≡ b) ⊎ In x bs → le a x ≡ true
      before first x (inl p) = ap (le a) p ∙ first
      before first x (inr m) = o.trans a b x first (h.0 x m)

      after : le a b ≡ false → (x : A) → In x (insort le a bs) → le b x ≡ true
      after later x m = elim (In-insort le x a bs m) [
        | inl p ↦ ap (le b) p ∙ o.total a b later
        | inr n ↦ h.0 x n
      ]

  pub sorted-IsSorted : (xs : List A) → IsSorted (sorted le xs)
  unfolding sorted
  sorted-IsSorted [] = tt
  sorted-IsSorted (a ∷ l) = insort-IsSorted a (sorted le l) (sorted-IsSorted l)

  -- The first element of a sorted list is one of the list, and stands before every other.
  pub head?-sorted :
      (xs : List A) (a : A)
      → head? (sorted le xs) ≡ some a
      → In a xs × ((x : A) → In x xs → (x ≡ a) ⊎ (le a x ≡ true))
  head?-sorted xs a h = from (sorted le xs) refl (sorted-IsSorted xs)
    where
      from :
          (ys : List A)
          → sorted le xs ≡ ys
          → IsSorted ys
          → In a xs × ((x : A) → In x xs → (x ≡ a) ⊎ (le a x ≡ true))
      from [] p s = absurd (ground arith)
      from (y ∷ ys) p s =
          let q : y ≡ a = ground arith in
          (
            In-of_sorted le a xs (rw p (inl (sym q))),
            λ x m. place x q (rw p at (In-sorted le x xs m)),
          )
        where
          place : (x : A) → y ≡ a → (x ≡ y) ⊎ In x ys → (x ≡ a) ⊎ (le a x ≡ true)
          place x q (inl r) = inl (r ∙ q)
          place x q (inr m) = inr (ap (λ t. le t x) (sym q) ∙ s.0 x m)

  pub head?-sorted-none : (xs : List A) (a : A) → head? (sorted le xs) ≡ none → In a xs → ⊥
  head?-sorted-none xs a h m = empty (sorted le xs) h (In-sorted le a xs m)
    where
      empty : (ys : List A) → head? ys ≡ none → In a ys → ⊥
      empty [] p n = n
      empty (y ∷ ys) p n = cc
