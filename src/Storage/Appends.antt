-- ===== src/Storage/Appends.antt =====
-- What `append_rows` of writers.py writes: the rows whose key was not there.
use fin_data_hub.Prelude.{
  ℕ, ◌≡◌, refl, sym, ap, ◌∙◌, ◌⊎◌, inl, inr, Bool, true, false, ◌↔◌, List, [], ◌∷◌, arith,
  Bool-cases, In, In-append, any, length,
}
use fin_data_hub.Runtime.Result.{ok}
use fin_data_hub.Storage.Writers.{fresh_rows, KeyedTable, Dialect, append_returning, append_rows}

module _ {R : Type 0} (same_key : R → R → Bool) where
  -- only given rows are written
  pub In-of_fresh_rows : (old new : List R) (a : R) → In a (fresh_rows same_key old new) → In a new
  unfolding fresh_rows
  In-of_fresh_rows old [] a m = m
  In-of_fresh_rows old (row ∷ new) a m = elim (Bool-cases (any (same_key row) old)) [
    | inl taken ↦ inr (In-of_fresh_rows old new a (rw taken at m))
    | inr free ↦ from (rw free at m) (In-of_fresh_rows (row ∷ old) new a)
  ]
    where
      from :
          (a ≡ row) ⊎ In a (fresh_rows same_key (row ∷ old) new)
          → (In a (fresh_rows same_key (row ∷ old) new) → In a new)
          → (a ≡ row) ⊎ In a new
      from (inl e) ih = inl e
      from (inr n) ih = inr (ih n)

  -- a given row whose key was free has its key among the rows that are written
  pub In-fresh_rows :
      ((a : R) → same_key a a ≡ true)
      → (old new : List R) (a : R) → In a new
      → any (same_key a) old ≡ false
      → (b : R) × In b (fresh_rows same_key old new) × (same_key a b ≡ true)
  unfolding fresh_rows any
  In-fresh_rows reflexive old [] a m free = absurd m
  In-fresh_rows reflexive old (row ∷ new) a (inl e) free =
      (row, rw (← e) (rw free (inl refl)), ap (same_key a) (sym e) ∙ reflexive a)
  In-fresh_rows reflexive old (row ∷ new) a (inr m) free =
      elim (Bool-cases (any (same_key row) old)) [
        | inl taken ↦ rw taken (In-fresh_rows reflexive old new a m free)
        | inr open_key ↦ elim (Bool-cases (same_key a row)) [
          | inl same ↦ (row, rw open_key (inl refl), same)
          | inr differs ↦
              let (b, n, s) =
                In-fresh_rows reflexive (row ∷ old) new a m (ground (arith, differs, free)) in
              (b, rw open_key (inr n), s)
        ]
      ]

-- The dialects that know ON CONFLICT DO NOTHING.
abbrev pub Skips : Dialect → Type 0
Skips Dialect.postgresql = Unit
Skips Dialect.sqlite = Unit
Skips Dialect.other_dialect = ⊥

module _ {R : Type 0} {same_key : R → R → Bool} (t : KeyedTable R same_key) where
  -- The rows after `append_rows`, and the number that it returns.
  abbrev pub Appended : List R → t.State → ℕ → t.State → Type 0
  Appended new s n s' =
      (n ≡ length (fresh_rows same_key (t.rows s) new))
      × ((a : R) → In a (t.rows s') ↔ (In a (fresh_rows same_key (t.rows s) new) ⊎ In a (t.rows s)))

  appended :
      (new : List R) (s : t.State)
      → Appended new s (append_returning t new s).0 (append_returning t new s).1
  appended new s =
      let w = t.inserted new s in
      (
        t.returned new s,
        λ a. (
          λ m. (In-append a (fresh_rows same_key (t.rows s) new) (t.rows s)).0 (w.forth a m),
          λ m. w.back a ((In-append a (fresh_rows same_key (t.rows s) new) (t.rows s)).1 m),
        ),
      )

  pub append_rows_lem :
      (dialect : Dialect)
      → Skips dialect
      → (new : List R) (s : t.State)
      → (n : ℕ) × (s' : t.State) × (append_rows t dialect new s ≡ ok (n, s')) × Appended new s n s'
  unfolding append_rows fresh_rows
  append_rows_lem dialect k [] s =
      (0, s, refl, (refl, λ a. (inr, λ m. elim m [ inl n ↦ absurd n | inr n ↦ n ])))
  append_rows_lem Dialect.postgresql k (row ∷ new) s = (
    (append_returning t (row ∷ new) s).0,
    (append_returning t (row ∷ new) s).1,
    refl,
    appended (row ∷ new) s,
  )
  append_rows_lem Dialect.sqlite k (row ∷ new) s = (
    (append_returning t (row ∷ new) s).0,
    (append_returning t (row ∷ new) s).1,
    refl,
    appended (row ∷ new) s,
  )
  append_rows_lem Dialect.other_dialect k (row ∷ new) s = absurd k
