-- ===== src/Registry/Names.antt =====
-- `add_name_change` of `EntityRegistry` (registry/service.py). Dates are what `to_date` makes of the
-- arguments; the three times are what `now()` returns for the row that is closed, the new row and the
-- row after it.
use fin_data_hub.Prelude.{
  ℕ, ◌+◌, ◌-◌, String, Bool, true, [], ◌∷◌, Option, none, some, if◌then◌else◌, ltb,
}
use fin_data_hub.Prelude.Dict.{Dict}
use fin_data_hub.Runtime.Result.{Result, ok, ◌>>=◌}
use fin_data_hub.Registry.Models.{EntityRecord}
use fin_data_hub.Registry.Repository.{RegistryRepo}
use fin_data_hub.Registry.Rows.{Change, current_row, covering_row, close_row, append_row}
use fin_data_hub.Registry.Codes.{date_or_raise}

-- the name to go back to: that of the row of the day before, or of the current row
unfoldable pub resume_name : ℕ → Option EntityRecord → RegistryRepo → Result String
resume_name id (some previous) r = ok previous.name
resume_name id none r = do current ← current_row id r; ok current.name

-- `valid_to is None or valid_to > before`
abbrev pub runs_past : ℕ → Option ℕ → Bool
runs_past before none = true
runs_past before (some t) = ltb before t

unfoldable pub close_previous : ℕ → Option EntityRecord → ℕ → RegistryRepo → Result RegistryRepo
close_previous before none now r = ok r
close_previous before (some previous) now r =
    if runs_past before previous.valid_to then close_row previous (some before) now r else ok r

abbrev pub new_name : String → ℕ → Option ℕ → Dict String String → Change
new_name name start end attrs_extra = record {
  code = none;
  name = some name;
  valid_from = some start;
  valid_to = end;
  attrs_extra = attrs_extra;
}

-- the row after a change that ends
unfoldable pub resume : EntityRecord → String → Option ℕ → ℕ → RegistryRepo → Result RegistryRepo
resume current name none now r = ok r
resume current name (some end) now r = do
  (row, done) ← append_row current (new_name name (end + 1) none []) now r
  ok done

-- `{"ann_date": ann_date} if ann_date else None`
abbrev pub announced : Option String → Dict String String
announced none = []
announced (some ann_date) = ("ann_date", ann_date) ∷ []

unfoldable pub add_name_change :
    ℕ
    → String
    → Option ℕ
    → Option ℕ
    → Option String
    → ℕ
    → ℕ
    → ℕ
    → RegistryRepo
    → Result RegistryRepo
unfolding resume_name close_previous resume
add_name_change id name start_date end ann_date closed_at appended_at resumed_at r = do
  start ← date_or_raise start_date
  let previous = covering_row id (some (start - 1)) r
  old_name ← resume_name id previous r
  closed ← close_previous (start - 1) previous closed_at r
  current ← current_row id closed
  (row, named) ←
      append_row current (new_name name start end (announced ann_date)) appended_at closed
  resume current old_name end resumed_at named
