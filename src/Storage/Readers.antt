-- ===== src/Storage/Readers.antt =====
-- src/fin_data_platform/storage/readers.py: for each business key the newest version, of all rows or of
-- those known at a time. A table is the list of its rows, in the order in which the database returns
-- them; `key`, `knowledge` and `version` are the columns that the caller names, and `passes` its filters.
use fin_data_hub.Prelude.{ℕ, suc, Bool, ◌&&◌, ◌||◌, List, ◌==◌, nat_eq, Eq, leb, ltb, filter, count}

pub record Columns (R K : Type 0) : Type 0 where
  pub key : R → K
  pub knowledge : R → ℕ
  pub version : R → ℕ

module _ {R K : Type 0} ⦃e : Eq K⦄ (c : Columns R K) where
  -- ORDER BY knowledge DESC, version DESC
  unfoldable pub is_newer : R → R → Bool
  is_newer a b =
      ltb (c.knowledge b) (c.knowledge a)
      || (c.knowledge a == c.knowledge b && ltb (c.version b) (c.version a))

  unfoldable pub precedes : R → R → Bool
  unfolding is_newer
  precedes row other = c.key other == c.key row && is_newer other row

  -- `row_number()` in the partition of the row's key. The physical key holds the three columns, so no
  -- two rows of a partition are level.
  unfoldable pub ranked : List R → R → ℕ
  unfolding precedes
  ranked rows row = suc (count (precedes row) rows)

  abbrev pub first_rows : List R → List R
  first_rows rows = filter (λ row. ranked rows row == 1) rows

  unfoldable pub as_of_query : ℕ → (R → Bool) → List R → List R
  unfolding ranked
  as_of_query as_of passes rows =
      first_rows (filter (λ row. leb (c.knowledge row) as_of && passes row) rows)

  unfoldable pub latest_query : (R → Bool) → List R → List R
  unfolding ranked
  latest_query passes rows = first_rows (filter passes rows)
