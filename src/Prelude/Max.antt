-- ===== src/Prelude/Max.antt =====
-- Python's `max(xs, key=...)`: the first of the greatest elements, by a strict test on the keys.
use fin_data_hub.Prelude.{
  ◌≡◌, refl, ap, sym, ◌∙◌, inl, inr, subst, Bool, true, false, List, [], ◌∷◌, ◌++◌, Option, none,
  some, arith, if◌then◌else◌, Bool-cases, In,
}

module _ {ℓ} {A : Type ℓ} (lt : A → A → Bool) where
  unfoldable pub max_from : A → List A → A
  max_from best [] = best
  max_from best (x ∷ xs) = max_from (if lt best x then x else best) xs

  -- `none` for the `ValueError` of an empty list
  unfoldable pub max? : List A → Option A
  unfolding max_from
  max? [] = none
  max? (x ∷ xs) = some (max_from x xs)

-- A strict test that ranks: what is not less may stand above.
pub record IsRank {A : Type 0} (lt : A → A → Bool) : Type 0 where
  pub asym : (a b : A) → lt a b ≡ true → lt b a ≡ false
  pub chain : (a b c : A) → lt a b ≡ false → lt b c ≡ false → lt a c ≡ false

module _ {A : Type 0} (lt : A → A → Bool) where
  max_from-less :
      (best x : A) (xs : List A) → lt best x ≡ true → max_from lt best (x ∷ xs) ≡ max_from lt x xs
  unfolding max_from
  max_from-less best x xs less = rw less

  max_from-keep :
      (best x : A) (xs : List A)
      → lt best x ≡ false
      → max_from lt best (x ∷ xs) ≡ max_from lt best xs
  unfolding max_from
  max_from-keep best x xs keep = rw keep

  pub In-max_from : (best : A) (xs : List A) → In (max_from lt best xs) (best ∷ xs)
  unfolding max_from
  In-max_from best [] = inl refl
  In-max_from best (x ∷ xs) = elim (Bool-cases (lt best x)) [
    | inl less ↦
        subst (λ m. In m (best ∷ x ∷ xs)) (sym (max_from-less best x xs less))
          (inr (In-max_from x xs))
    | inr keep ↦
        subst (λ m. In m (best ∷ x ∷ xs)) (sym (max_from-keep best x xs keep))
          (skip (In-max_from best xs))
  ]
    where
      skip : {m : A} → In m (best ∷ xs) → In m (best ∷ x ∷ xs)
      skip (inl e) = inl e
      skip (inr n) = inr (inr n)

  module _ (o : IsRank lt) where
    self : (a : A) → lt a a ≡ false
    self a = elim (Bool-cases (lt a a)) [ inl less ↦ o.asym a a less | inr same ↦ same ]

    max_from_above :
        (best : A) (xs : List A) (x : A) → In x (best ∷ xs) → lt (max_from lt best xs) x ≡ false
    unfolding max_from
    max_from_above best [] x (inl e) = ap (lt best) e ∙ self best
    max_from_above best [] x (inr n) = absurd n
    max_from_above best (y ∷ ys) x m = elim (Bool-cases (lt best y)) [
      | inl less ↦ rw less (above m (max_from_above y ys) (o.asym best y less) (self y))
      | inr keep ↦ rw keep (above m (max_from_above best ys) (self best) keep)
    ]
      where
        above :
            {b : A}
            → In x (best ∷ y ∷ ys)
            → ((z : A) → In z (b ∷ ys) → lt (max_from lt b ys) z ≡ false)
            → lt b best ≡ false
            → lt b y ≡ false
            → lt (max_from lt b ys) x ≡ false
        above {b} (inl e) ih over_best over_y =
            ap (lt (max_from lt b ys)) e
            ∙ o.chain (max_from lt b ys) b best (ih b (inl refl)) over_best
        above {b} (inr (inl e)) ih over_best over_y =
            ap (lt (max_from lt b ys)) e ∙ o.chain (max_from lt b ys) b y (ih b (inl refl)) over_y
        above (inr (inr n)) ih over_best over_y = ih x (inr n)

    -- What `max` returns is one of the list, and nothing of the list ranks above it.
    pub max?_lem :
        (xs : List A) (m : A) → max? lt xs ≡ some m → In m xs × ((x : A) → In x xs → lt m x ≡ false)
    unfolding max?
    max?_lem [] m h = absurd (ground arith)
    max?_lem (x ∷ xs) m h =
        let q : max_from lt x xs ≡ m = ground arith in
        subst (λ a. In a (x ∷ xs) × ((y : A) → In y (x ∷ xs) → lt a y ≡ false)) q
          (In-max_from x xs, max_from_above x xs)

  pub max?-none : (xs : List A) → max? lt xs ≡ none → xs ≡ []
  unfolding max?
  max?-none [] h = refl
  max?-none (x ∷ xs) h = absurd (ground arith)

  -- The last element is the greatest if all others are below it.
  max_from-last :
      (best : A) (xs : List A) (y : A)
      → lt best y ≡ true
      → ((x : A) → In x xs → lt x y ≡ true)
      → max_from lt best (xs ++ y ∷ []) ≡ y
  unfolding max_from
  max_from-last best [] y h below = rw h
  max_from-last best (x ∷ xs) y h below = elim (Bool-cases (lt best x)) [
    | inl less ↦
        max_from-less best x (xs ++ y ∷ []) less
        ∙ max_from-last x xs y (below x (inl refl)) (λ z m. below z (inr m))
    | inr keep ↦
        max_from-keep best x (xs ++ y ∷ []) keep
        ∙ max_from-last best xs y h (λ z m. below z (inr m))
  ]

  pub max?-last :
      (xs : List A) (y : A) → ((x : A) → In x xs → lt x y ≡ true) → max? lt (xs ++ y ∷ []) ≡ some y
  unfolding max? max_from
  max?-last [] y below = refl
  max?-last (x ∷ xs) y below =
      ap some (max_from-last x xs y (below x (inl refl)) (λ z m. below z (inr m)))
