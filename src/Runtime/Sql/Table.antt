-- ===== src/Runtime/Sql/Table.antt =====
-- What the code of runtime/repository.py relies on from the SQL library: a table holds rows, a SELECT
-- reads them in an order of the database's choice, and a primary key stands once.
use fin_data_hub.Prelude.{
  ◌≤◌, ◌≡◌, refl, ap, sym, inl, inr, Bool, true, false, List, [], ◌∷◌, Option, none, some, arith,
  if◌then◌else◌, In, any, count, filter, length, map,
}
use fin_data_hub.Runtime.Result.{
  Result, ok, raise, no_result, multiple_results, integrity_error, ◌>>=◌,
}

-- The same rows, each as often, in whatever order.
pub record SameRows {R : Type 0} (xs ys : List R) : Type 0 where
  pub forth : (a : R) → In a xs → In a ys
  pub back : (a : R) → In a ys → In a xs
  pub same_count : (p : R → Bool) → count p xs ≡ count p ys

-- UPDATE with a condition, as a function on a row
abbrev pub rewritten : {R : Type 0} → (R → Bool) → (R → R) → R → R
rewritten p f a = if p a then f a else a

pub record Table (R : Type 0) (same_key : R → R → Bool) : Type 1 where
  pub State : Type 0
  pub rows : State → List R
  pub insert : R → State → Result State
  pub update : (R → Bool) → (R → R) → State → State
  pub delete_all : State → State
  pub insert_fresh :
      (a : R) (s : State)
      → any (same_key a) (rows s) ≡ false
      → (s' : State) × (insert a s ≡ ok s') × SameRows (rows s') (a ∷ rows s)
  pub insert_taken :
      (a : R) (s : State) → any (same_key a) (rows s) ≡ true → insert a s ≡ raise integrity_error
  pub rows-update :
      (p : R → Bool) (f : R → R) (s : State)
      → ((a : R) → same_key a (f a) ≡ true)
      → SameRows (rows (update p f s)) (map (rewritten p f) (rows s))
  pub rows-delete_all : (s : State) → rows (delete_all s) ≡ []

-- a loop of INSERT statements
unfoldable pub insert_all :
    {R : Type 0} {same : R → R → Bool} (t : Table R same) → List R → t.State → Result t.State
insert_all t [] s = ok s
insert_all t (a ∷ items) s = let rest = insert_all t items in do s' ← t.insert a s; rest s'

-- `result.one()`
unfoldable pub one {ℓ} : {A : Type ℓ} → List A → Result A
one [] = raise no_result
one (a ∷ []) = ok a
one (a ∷ b ∷ l) = raise multiple_results

-- `result.one_or_none()`
unfoldable pub one_or_none {ℓ} : {A : Type ℓ} → List A → Result (Option A)
one_or_none [] = ok none
one_or_none (a ∷ []) = ok (some a)
one_or_none (a ∷ b ∷ l) = raise multiple_results

module _ {R : Type 0} where
  pub length-filter : (p : R → Bool) (xs : List R) → length (filter p xs) ≡ count p xs
  unfolding filter count
  length-filter p [] = refl
  length-filter p (x ∷ xs) = ground (arith, length-filter p xs)

  pub filter-nil_count : (p : R → Bool) (xs : List R) → count p xs ≡ 0 → filter p xs ≡ []
  unfolding filter count
  filter-nil_count p [] h = refl
  filter-nil_count p (x ∷ xs) h = ground (arith, filter-nil_count p xs)

  pub In-map : {S : Type 0} (g : R → S) (a : R) (xs : List R) → In a xs → In (g a) (map g xs)
  In-map g a [] m = m
  In-map g a (x ∷ xs) (inl e) = inl (ap g e)
  In-map g a (x ∷ xs) (inr m) = inr (In-map g a xs m)

  pub In-of_map :
      {S : Type 0} (g : R → S) (b : S) (xs : List R)
      → In b (map g xs)
      → (a : R) × In a xs × (b ≡ g a)
  In-of_map g b [] m = absurd m
  In-of_map g b (x ∷ xs) (inl e) = (x, inl refl, e)
  In-of_map g b (x ∷ xs) (inr m) = let (a, n, e) = In-of_map g b xs m in (a, inr n, e)

  -- A rewriting that a test does not see leaves its count.
  pub count-map :
      (p : R → Bool) (g : R → R) (xs : List R)
      → ((a : R) → p (g a) ≡ p a)
      → count p (map g xs) ≡ count p xs
  unfolding count
  count-map p g [] h = refl
  count-map p g (x ∷ xs) h = ground (arith, h x, count-map p g xs h)

-- the one element of a list
pub single_of : {R : Type 0} (a : R) (xs : List R) → In a xs → length xs ≤ 1 → xs ≡ a ∷ []
single_of a [] m h = absurd m
single_of a (b ∷ []) (inl e) h = ap (λ x. x ∷ []) (sym e)
single_of a (b ∷ []) (inr m) h = absurd m
single_of a (b ∷ c ∷ l) m h = absurd (omega arith)
