-- ===== src/Registry/Rows.antt =====
-- The rows of an entity in `EntityRegistry` (registry/service.py): which one is current, which one
-- covers a date, and how rows are closed and appended. `now` is what `now()` returns.
use fin_data_hub.Prelude.{
  ℕ, ◌+◌, String, Bool, ◌&&◌, ◌||◌, List, [], ◌∷◌, Option, none, some, ◌==◌, nat_eq, string_eq, ltb,
  filter,
}
use fin_data_hub.Prelude.Dict
use fin_data_hub.Prelude.Dict.{Dict}
use fin_data_hub.Prelude.Max.{max?}
use fin_data_hub.Runtime.Result.{Result, ok, raise, key_error, value_error, ◌>>=◌}
use fin_data_hub.Registry.Models.{EntityRecord, covers, is_open, start_of}
use fin_data_hub.Registry.Repository.{RegistryRepo, entity_rows, append_entity}

-- `(a.valid_from or EPOCH, a.version) < (b.valid_from or EPOCH, b.version)`
unfoldable pub ranks_below : EntityRecord → EntityRecord → Bool
ranks_below a b =
    ltb (start_of a.valid_from) (start_of b.valid_from)
    || (start_of a.valid_from == start_of b.valid_from && ltb a.version b.version)

-- `open_rows or rows`
abbrev pub pool_of : List EntityRecord → List EntityRecord → List EntityRecord
pool_of [] rows = rows
pool_of (row ∷ open_rows) rows = row ∷ open_rows

abbrev pub or_raise {ℓ} : {A : Type ℓ} → Option A → Result A
or_raise none = raise key_error
or_raise (some a) = ok a

unfoldable pub current_of : List EntityRecord → Option EntityRecord
unfolding ranks_below
current_of rows = max? ranks_below (pool_of (filter (λ row. is_open row.valid_to) rows) rows)

-- `_current_row`
unfoldable pub current_row : ℕ → RegistryRepo → Result EntityRecord
unfolding current_of
current_row id r = or_raise (current_of (entity_rows id r))

-- `_next_version`: the `max` of no versions is a `ValueError`
unfoldable pub next_version : ℕ → RegistryRepo → Result ℕ
next_version id r =
    elim (max? (λ (a : EntityRecord) (b : EntityRecord). ltb a.version b.version)
      (entity_rows id r)) [ none ↦ raise value_error | some row ↦ ok (row.version + 1) ]

unfoldable pub covering_of : ℕ → List EntityRecord → Option EntityRecord
unfolding ranks_below
covering_of d rows =
    max? ranks_below (filter (λ row. covers row.valid_from row.valid_to (some d)) rows)

-- `_covering_row`
unfoldable pub covering_row : ℕ → Option ℕ → RegistryRepo → Option EntityRecord
unfolding covering_of current_of
covering_row id none r = current_of (entity_rows id r)
covering_row id (some d) r = covering_of d (entity_rows id r)

-- `entity`
unfoldable pub entity : ℕ → Option ℕ → RegistryRepo → Option EntityRecord
unfolding covering_row
entity id as_of r = covering_row id as_of r

-- `name_as_of`
unfoldable pub name_as_of : ℕ → Option ℕ → RegistryRepo → Option String
unfolding covering_row
name_as_of id as_of r = elim (covering_row id as_of r) [ none ↦ none | some row ↦ some row.name ]

-- `_require_entity`
unfoldable pub require_entity : ℕ → RegistryRepo → Result EntityRecord
unfolding current_row
require_entity id r = current_row id r

unfoldable pub close_row : EntityRecord → Option ℕ → ℕ → RegistryRepo → Result RegistryRepo
close_row row valid_to now r = do
  version ← next_version row.entity_id r
  ok (append_entity (record row { valid_to = valid_to; knowledge_time = now; version = version }) r)

-- `dict(base.attrs or {})`, updated, and `None` if it is empty
abbrev pub attrs_of : Option (Dict String String) → Dict String String
attrs_of none = []
attrs_of (some attrs) = attrs

unfoldable pub updated : Dict String String → Dict String String → Dict String String
updated attrs [] = attrs
updated attrs ((k, v) ∷ more) = updated (Dict.put attrs k v) more

abbrev pub none_if_empty : Dict String String → Option (Dict String String)
none_if_empty [] = none
none_if_empty (entry ∷ attrs) = some (entry ∷ attrs)

abbrev pub given {ℓ} : {A : Type ℓ} → Option A → A → A
given none old = old
given (some new) old = new

abbrev pub given_date : Option ℕ → Option ℕ → Option ℕ
given_date none old = old
given_date (some new) old = some new

-- what `_append_row` may change
pub record Change : Type 0 where
  pub code : Option String
  pub name : Option String
  pub valid_from : Option ℕ
  pub valid_to : Option ℕ
  pub attrs_extra : Dict String String

unfoldable pub changed_row : EntityRecord → Change → ℕ → ℕ → EntityRecord
unfolding updated
changed_row base change now version = record base {
  code = given change.code base.code;
  name = given change.name base.name;
  valid_from = given_date change.valid_from base.valid_from;
  valid_to = change.valid_to;
  knowledge_time = now;
  version = version;
  attrs = none_if_empty (updated (attrs_of base.attrs) change.attrs_extra);
}

-- `_append_row`
unfoldable pub append_row :
    EntityRecord → Change → ℕ → RegistryRepo → Result (EntityRecord × RegistryRepo)
unfolding changed_row
append_row base change now r = do
  version ← next_version base.entity_id r
  ok (changed_row base change now version, append_entity (changed_row base change now version) r)
