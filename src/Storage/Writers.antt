-- ===== src/Storage/Writers.antt =====
-- src/fin_data_platform/storage/writers.py. A table with a physical key is an argument: its rows, INSERT
-- with ON CONFLICT DO NOTHING and RETURNING, and the plain INSERT of the other databases.
use fin_data_hub.Prelude.{ℕ, ◌≡◌, Bool, List, [], ◌∷◌, ◌++◌, if◌then◌else◌, any, length, In, true}
use fin_data_hub.Runtime.Result.{Result, ok}
use fin_data_hub.Runtime.Sql.Table.{SameRows}

-- The rows that INSERT with ON CONFLICT DO NOTHING puts into a table: one after the other, those whose
-- key is not there yet.
unfoldable pub fresh_rows : {R : Type 0} → (R → R → Bool) → List R → List R → List R
fresh_rows same_key old [] = []
fresh_rows same_key old (row ∷ new) =
    let skipped = fresh_rows same_key old new in
    let inserted = row ∷ fresh_rows same_key (row ∷ old) new in
    if any (same_key row) old then skipped else inserted

pub record KeyedTable (R : Type 0) (same_key : R → R → Bool) : Type 1 where
  pub State : Type 0
  pub rows : State → List R
  -- the primary keys that come back, and the table
  pub insert_or_skip : List R → State → List R × State
  pub insert_all : List R → State → Result (ℕ × State)
  pub returned :
      (new : List R) (s : State)
      → length (insert_or_skip new s).0 ≡ length (fresh_rows same_key (rows s) new)
  pub inserted :
      (new : List R) (s : State)
      → SameRows (rows (insert_or_skip new s).1) (fresh_rows same_key (rows s) new ++ rows s)
  -- a key stands for one row
  pub unique : (s : State) (a b : R) → In a (rows s) → In b (rows s) → same_key a b ≡ true → a ≡ b

pub data Dialect : Type 0 where
  postgresql sqlite other_dialect : Dialect

module _ {R : Type 0} {same_key : R → R → Bool} (t : KeyedTable R same_key) where
  -- `on_conflict_do_nothing().returning(pk_column)`
  abbrev pub append_returning : List R → t.State → ℕ × t.State
  append_returning new s = (length (t.insert_or_skip new s).0, (t.insert_or_skip new s).1)

  unfoldable pub append_rows : Dialect → List R → t.State → Result (ℕ × t.State)
  append_rows dialect [] s = ok (0, s)
  append_rows Dialect.postgresql (row ∷ new) s = ok (append_returning (row ∷ new) s)
  append_rows Dialect.sqlite (row ∷ new) s = ok (append_returning (row ∷ new) s)
  append_rows Dialect.other_dialect (row ∷ new) s = t.insert_all (row ∷ new) s
