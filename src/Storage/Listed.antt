-- ===== src/Storage/Listed.antt =====
-- A table with a physical key as a list of rows: it meets what writers.py asks of a database.
use fin_data_hub.Prelude.{
  ◌≡◌, refl, sym, ap, ◌∙◌, inl, inr, Bool, true, false, List, [], ◌∷◌, ◌++◌, arith, ◌==◌, nat_eq,
  Bool-cases, In, In-append, any, any-false, length, if◌then◌else◌,
}
use fin_data_hub.Runtime.Result.{ok, raise, integrity_error}
use fin_data_hub.Runtime.Sql.Table.{SameRows}
use fin_data_hub.Storage.Writers.{fresh_rows, KeyedTable}

module _ {R : Type 0} (same_key : R → R → Bool) where
  -- A key stands for one row.
  abbrev pub IsKeyed : List R → Type 0
  IsKeyed rows = (a b : R) → In a rows → In b rows → same_key a b ≡ true → a ≡ b

  module _ (sym_key : (a b : R) → same_key a b ≡ true → same_key b a ≡ true) where
    cons-IsKeyed :
        (row : R) (rows : List R)
        → IsKeyed rows
        → any (same_key row) rows ≡ false
        → IsKeyed (row ∷ rows)
    cons-IsKeyed row rows h free a b (inl p) (inl q) e = p ∙ sym q
    cons-IsKeyed row rows h free a b (inl p) (inr n) e =
        let clear = any-false (same_key row) b rows free n in
        absurd (ground (arith, ap (λ x. same_key x b) p))
    cons-IsKeyed row rows h free a b (inr m) (inl q) e =
        let clear = any-false (same_key row) a rows free m in
        let back = sym_key a b e in absurd (ground (arith, ap (λ x. same_key x a) q))
    cons-IsKeyed row rows h free a b (inr m) (inr n) e = h a b m n e

    pub fresh_rows-IsKeyed :
        (new rows : List R) → IsKeyed rows → IsKeyed (fresh_rows same_key rows new ++ rows)
    unfolding fresh_rows
    fresh_rows-IsKeyed [] rows h = h
    fresh_rows-IsKeyed (row ∷ new) rows h = elim (Bool-cases (any (same_key row) rows)) [
      | inl taken ↦ rw taken (fresh_rows-IsKeyed new rows h)
      | inr free ↦ rw free (
          moved (fresh_rows same_key (row ∷ rows) new)
            (fresh_rows-IsKeyed new (row ∷ rows) (cons-IsKeyed row rows h free)))
    ]
      where
        moved : (xs : List R) → IsKeyed (xs ++ row ∷ rows) → IsKeyed (row ∷ xs ++ rows)
        moved xs k a b m n e = k a b (shift a m) (shift b n) e
          where
            shift : (a : R) → In a (row ∷ (xs ++ rows)) → In a (xs ++ row ∷ rows)
            shift a (inl p) = (In-append a xs (row ∷ rows)).1 (inr (inl p))
            shift a (inr q) = elim ((In-append a xs rows).0 q) [
              | inl u ↦ (In-append a xs (row ∷ rows)).1 (inl u)
              | inr u ↦ (In-append a xs (row ∷ rows)).1 (inr (inr u))
            ]

    abbrev pub Listed : Type 0
    Listed = (rows : List R) × IsKeyed rows

    abbrev pub empty : Listed
    empty = ([], λ a b m. absurd m)

    abbrev pub put_all : List R → Listed → Listed
    put_all new (rows, k) = (fresh_rows same_key rows new ++ rows, fresh_rows-IsKeyed new rows k)

    pub SameRows-refl : (xs : List R) → SameRows xs xs
    SameRows-refl xs = record { forth = λ a m. m; back = λ a m. m; same_count = λ p. refl }

    abbrev pub listed_table : KeyedTable R same_key
    listed_table = record {
      State = Listed;
      rows = λ s. s.0;
      insert_or_skip = λ new s. (fresh_rows same_key s.0 new, put_all new s);
      insert_all = λ new s.
          if length (fresh_rows same_key s.0 new) == length new
          then ok (length new, put_all new s)
          else raise integrity_error;
      returned = λ new s. refl;
      inserted = λ new s. SameRows-refl (fresh_rows same_key s.0 new ++ s.0);
      unique = λ s. s.1;
    }
