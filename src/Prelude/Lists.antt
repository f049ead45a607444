-- ===== src/Prelude/Lists.antt =====
-- Lists measured by native numbers, filtered and searched by Boolean tests.
use Prim.Native.Nat.{ℕ, zero, suc, ◌+◌, ◌≤◌, ◌<◌}
use mathlib.Core.Bool.{Bool, true, false, ◌||◌, ◌&&◌}
use mathlib.Core.List.{List, [], ◌∷◌, ◌++◌}
use mathlib.Core.Logic.{◌⊎◌, inl, inr, ◌↔◌}
use mathlib.Core.Path.{◌≡◌, refl, ap, ◌∙◌}
use native.Mathlib.Omega.{arith}
use fin_data_hub.Prelude.Tests.{if◌then◌else◌, Bool-cases}

module _ {ℓ} {A : Type ℓ} where
  abbrev pub length : List A → ℕ
  length [] = 0
  length (x ∷ xs) = suc (length xs)

  pub length-append : (xs ys : List A) → length (xs ++ ys) ≡ length xs + length ys
  length-append [] ys = omega arith
  length-append (x ∷ xs) ys = omega (arith, length-append xs ys)

  -- `xs[:n]`
  unfoldable pub take : ℕ → List A → List A
  take zero xs = []
  take (suc n) [] = []
  take (suc n) (x ∷ xs) = x ∷ take n xs

  -- `[x for x in xs if p(x)]`
  unfoldable pub filter : (A → Bool) → List A → List A
  filter p [] = []
  filter p (x ∷ xs) = let rest = filter p xs in if p x then x ∷ rest else rest

  -- `any(p(x) for x in xs)`
  unfoldable pub any : (A → Bool) → List A → Bool
  any p [] = false
  any p (x ∷ xs) = p x || any p xs

  -- `all(p(x) for x in xs)`
  unfoldable pub all : (A → Bool) → List A → Bool
  all p [] = true
  all p (x ∷ xs) = p x && all p xs

  -- `sum(1 for x in xs if p(x))`
  unfoldable pub count : (A → Bool) → List A → ℕ
  count p [] = 0
  count p (x ∷ xs) = (if p x then 1 else 0) + count p xs

  pub count-append : (p : A → Bool) (xs ys : List A) → count p (xs ++ ys) ≡ count p xs + count p ys
  unfolding count
  count-append p [] ys = omega arith
  count-append p (x ∷ xs) ys = omega (arith, count-append p xs ys)

  -- A test that fails wherever another does counts no more, and less where it alone fails.
  pub count_less :
      (p q : A → Bool) (xs : List A)
      → ((a : A) → q a ≡ false → p a ≡ false)
      → count p xs ≤ count q xs
  unfolding count
  count_less p q [] h = omega arith
  count_less p q (x ∷ xs) h = ground (arith, h x, count_less p q xs h)

  pub filter-append :
      (p : A → Bool) (xs ys : List A) → filter p (xs ++ ys) ≡ filter p xs ++ filter p ys
  unfolding filter
  filter-append p [] ys = refl
  filter-append p (x ∷ xs) ys = ground (arith, filter-append p xs ys)

  pub filter-nil_any : (p : A → Bool) (xs : List A) → any p xs ≡ false → filter p xs ≡ []
  unfolding filter any
  filter-nil_any p [] h = refl
  filter-nil_any p (x ∷ xs) h = ground (arith, filter-nil_any p xs)

-- `x in xs`, with the position kept.
abbrev pub In : {A : Type 0} → A → List A → Type 0
In a [] = ⊥
In a (x ∷ xs) = (a ≡ x) ⊎ In a xs

abbrev pub All {κ} : {A : Type 0} → (A → Type κ) → List A → Type κ
All P [] = Unit
All P (x ∷ xs) = P x × All P xs

module _ {A : Type 0} where
  pub In-filter : (p : A → Bool) (a : A) (xs : List A) → In a xs → p a ≡ true → In a (filter p xs)
  unfolding filter
  In-filter p a [] m h = absurd m
  In-filter p a (x ∷ xs) (inl e) h = ground arith
  In-filter p a (x ∷ xs) (inr m) h = ground (arith, In-filter p a xs m h)

  pub In-of_filter :
      (p : A → Bool) (a : A) (xs : List A) → In a (filter p xs) → In a xs × (p a ≡ true)
  unfolding filter
  In-of_filter p a [] m = absurd m
  In-of_filter p a (x ∷ xs) m = kept (Bool-cases (p x)) (In-of_filter p a xs)
    where
      kept :
          (p x ≡ true) ⊎ (p x ≡ false)
          → (In a (filter p xs) → In a xs × (p a ≡ true))
          → ((a ≡ x) ⊎ In a xs) × (p a ≡ true)
      kept (inl hit) ih = found (rw hit at m)
        where
          found : (a ≡ x) ⊎ In a (filter p xs) → ((a ≡ x) ⊎ In a xs) × (p a ≡ true)
          found (inl e) = (inl e, ap p e ∙ hit)
          found (inr n) = (inr (ih n).0, (ih n).1)
      kept (inr miss) ih = let r = ih (rw miss at m) in (inr r.0, r.1)

  pub any_witness :
      (p : A → Bool) (xs : List A) → any p xs ≡ true → (a : A) × In a xs × (p a ≡ true)
  unfolding any
  any_witness p [] h = absurd (ground arith)
  any_witness p (x ∷ xs) h = elim (Bool-cases (p x)) [
    | inl hit ↦ (x, inl refl, hit)
    | inr miss ↦ let (a, m, q) = any_witness p xs (ground arith) in (a, inr m, q)
  ]

  pub any-false : (p : A → Bool) (a : A) (xs : List A) → any p xs ≡ false → In a xs → p a ≡ false
  unfolding any
  any-false p a [] h m = absurd m
  any-false p a (x ∷ xs) h (inl e) = ap p e ∙ ground arith
  any-false p a (x ∷ xs) h (inr m) = any-false p a xs (ground arith) m

  pub any-true : (p : A → Bool) (a : A) (xs : List A) → In a xs → p a ≡ true → any p xs ≡ true
  unfolding any
  any-true p a [] m h = absurd m
  any-true p a (x ∷ xs) (inl e) h = ground arith
  any-true p a (x ∷ xs) (inr m) h = ground (arith, any-true p a xs m h)

  pub all_at : (p : A → Bool) (a : A) (xs : List A) → all p xs ≡ true → In a xs → p a ≡ true
  unfolding all
  all_at p a [] h m = absurd m
  all_at p a (x ∷ xs) h (inl e) = ap p e ∙ ground arith
  all_at p a (x ∷ xs) h (inr m) = all_at p a xs (ground arith) m

  pub all_of : (p : A → Bool) (xs : List A) → ((a : A) → In a xs → p a ≡ true) → all p xs ≡ true
  unfolding all
  all_of p [] h = refl
  all_of p (x ∷ xs) h = ground (arith, h x (inl refl), all_of p xs (λ a m. h a (inr m)))

  pub all-false :
      (p : A → Bool) (xs : List A) → all p xs ≡ false → (a : A) × In a xs × (p a ≡ false)
  unfolding all
  all-false p [] h = absurd (ground arith)
  all-false p (x ∷ xs) h = elim (Bool-cases (p x)) [
    | inr miss ↦ (x, inl refl, miss)
    | inl hit ↦ let (a, m, q) = all-false p xs (ground arith) in (a, inr m, q)
  ]

  pub count_fewer :
      (p q : A → Bool) (a : A) (xs : List A)
      → ((a : A) → q a ≡ false → p a ≡ false)
      → In a xs
      → p a ≡ false
      → q a ≡ true
      → count p xs < count q xs
  unfolding count
  count_fewer p q a [] h m f t = absurd m
  count_fewer p q a (x ∷ xs) h (inl e) f t = ground (arith, ap p e, ap q e, count_less p q xs h)
  count_fewer p q a (x ∷ xs) h (inr m) f t = ground (arith, h x, count_fewer p q a xs h m f t)

  pub In-append : (a : A) (xs ys : List A) → In a (xs ++ ys) ↔ (In a xs ⊎ In a ys)
  In-append a [] ys = (inr, λ m. elim m [ inl n ↦ absurd n | inr n ↦ n ])
  In-append a (x ∷ xs) ys =
      let (forth, back) = In-append a xs ys in
      (
        λ m. elim m [
          | inl e ↦ inl (inl e)
          | inr n ↦ elim (forth n) [ inl k ↦ inl (inr k) | inr k ↦ inr k ]
        ],
        λ m. elim m [
          | inl (inl e) ↦ inl e
          | inl (inr n) ↦ inr (back (inl n))
          | inr n ↦ inr (back (inr n))
        ],
      )
