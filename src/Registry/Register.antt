-- ===== src/Registry/Register.antt =====
-- Registration and refreshing in `EntityRegistry` (registry/service.py). Dates are what `to_date`
-- makes of the arguments; `now` is what `now()` returns.
use fin_data_hub.Prelude.{
  ℕ, String, Bool, true, false, ◌&&◌, ◌||◌, not, List, [], Option, none, some, ◌==◌, nat_eq,
  string_eq, option_eq, if◌then◌else◌, any,
}
use fin_data_hub.Prelude.Dict.{Dict}
use fin_data_hub.Runtime.Result.{Result, ok, raise, value_error, ◌>>=◌}
use fin_data_hub.Registry.Models.{
  EntityRecord, CodeHistoryRecord, start_of, entity_types, issuer, entity_classes, markets,
  social_statuses, operating,
}
use fin_data_hub.Registry.Repository.{RegistryRepo, next_entity_id, append_entity, append_code}
use fin_data_hub.Registry.Rows.{Change, current_row, append_row}
use fin_data_hub.Registry.Codes.{resolve}

-- the arguments of `register`
pub record Registration : Type 0 where
  pub code : String
  pub entity_type : String
  pub name : String
  pub entity_class : Option String
  pub market : Option String
  pub currency : Option String
  pub exchange : Option String
  pub frequency : Option String
  pub unit : Option String
  pub algorithm_id : Option String
  pub social_status : Option String
  pub valid_from : Option ℕ
  pub attrs : Option (Dict String String)

-- `_facet` on the values of an enum, not required
unfoldable pub facet : List String → Option String → Result (Option String)
facet allowed none = ok none
facet allowed (some v) = if any (λ w. w == v) allowed then ok (some v) else raise value_error

-- the status that `_create` stores
unfoldable pub status_of : String → Option String → Result (Option String)
status_of entity_type none = ok (if entity_type == issuer then some operating else none)
status_of entity_type (some v) = if entity_type == issuer then ok (some v) else raise value_error

unfoldable pub new_row : ℕ → Registration → Option String → ℕ → EntityRecord
new_row id a status now = record {
  entity_id = id;
  entity_type = a.entity_type;
  code = a.code;
  name = a.name;
  entity_class = a.entity_class;
  market = a.market;
  currency = a.currency;
  exchange = a.exchange;
  frequency = a.frequency;
  unit = a.unit;
  algorithm_id = a.algorithm_id;
  social_status = status;
  valid_from = some (start_of a.valid_from);
  valid_to = none;
  knowledge_time = now;
  version = 1;
  attrs = a.attrs;
}

abbrev pub first_code : EntityRecord → CodeHistoryRecord
first_code row = record {
  entity_id = row.entity_id;
  code = row.code;
  valid_from = row.valid_from;
  valid_to = none;
  knowledge_time = row.knowledge_time;
  version = 1;
}

-- the writes of `_create`
unfoldable pub insert_entity :
    Registration → Option String → ℕ → RegistryRepo → EntityRecord × RegistryRepo
unfolding new_row
insert_entity a status now r =
    let (id, numbered) = next_entity_id r in
    let row = new_row id a status now in
    (row, append_entity row (append_code (first_code row) numbered))

-- `_create`
unfoldable pub create : Registration → ℕ → RegistryRepo → Result (EntityRecord × RegistryRepo)
unfolding facet status_of insert_entity
create a now r = do
  _ ← facet entity_types (some a.entity_type)
  _ ← facet entity_classes a.entity_class
  _ ← facet markets a.market
  _ ← facet social_statuses a.social_status
  status ← status_of a.entity_type a.social_status
  ok (insert_entity a status now r)

-- `raw is not None and raw != current`
unfoldable pub differs : Option String → Option String → Bool
differs none old = false
differs (some new) old = not (some new == old)

abbrev pub kept : Option String → Option String → Option String
kept none old = old
kept (some new) old = some new

-- `updates` of `_refresh`, applied to the current row
unfoldable pub refreshed : Registration → EntityRecord → EntityRecord
refreshed a row = record row {
  name = if a.name == "" then row.name else a.name;
  entity_class = kept a.entity_class row.entity_class;
  market = kept a.market row.market;
  currency = kept a.currency row.currency;
  exchange = kept a.exchange row.exchange;
  frequency = kept a.frequency row.frequency;
  unit = kept a.unit row.unit;
  algorithm_id = kept a.algorithm_id row.algorithm_id;
  social_status = kept a.social_status row.social_status;
}

-- whether there are any `updates`
unfoldable pub has_updates : Registration → EntityRecord → Bool
unfolding differs
has_updates a row =
    (not (a.name == "") && not (a.name == row.name))
    || (differs a.entity_class row.entity_class
        || (differs a.market row.market
            || (differs a.currency row.currency
                || (differs a.exchange row.exchange
                    || (differs a.frequency row.frequency
                        || (differs a.unit row.unit
                            || (differs a.algorithm_id row.algorithm_id
                                || differs a.social_status row.social_status)))))))

-- a status is for an issuer only
unfoldable pub issuer_only : Option String → EntityRecord → Result (Unit {0})
issuer_only none row = ok tt
issuer_only (some v) row = if row.entity_type == issuer then ok tt else raise value_error

abbrev pub from_same_day : EntityRecord → Change
from_same_day row = record {
  code = none;
  name = none;
  valid_from = row.valid_from;
  valid_to = none;
  attrs_extra = [];
}

-- the end of `_refresh`: a row if there are any updates
unfoldable pub write_if :
    Bool → Registration → EntityRecord → ℕ → RegistryRepo → Result (Bool × RegistryRepo)
unfolding refreshed
write_if true a row now r = do
  (new, done) ← append_row (refreshed a row) (from_same_day row) now r
  ok (true, done)
write_if false a row now r = ok (false, r)

-- `_refresh`
unfoldable pub refresh : ℕ → Registration → ℕ → RegistryRepo → Result (Bool × RegistryRepo)
unfolding facet issuer_only write_if has_updates
refresh id a now r = do
  row ← current_row id r
  _ ← facet entity_classes a.entity_class
  _ ← facet markets a.market
  _ ← facet social_statuses a.social_status
  _ ← issuer_only a.social_status row
  write_if (has_updates a row) a row now r

-- what `_register_or_refresh` returns, and the repository after it
pub record Registered : Type 0 where
  pub row : EntityRecord
  pub created : Bool
  pub updated : Bool
  pub repo : RegistryRepo

unfoldable pub register_at : Option ℕ → Registration → ℕ → RegistryRepo → Result Registered
unfolding create refresh
register_at none a now r = do
  (row, done) ← create a now r
  ok (record { row = row; created = true; updated = false; repo = done })
register_at (some id) a now r = do
  (changed, done) ← refresh id a now r
  row ← current_row id done
  ok (record { row = row; created = false; updated = changed; repo = done })

-- `_register_or_refresh`
unfoldable pub register_or_refresh : Registration → ℕ → RegistryRepo → Result Registered
unfolding register_at
register_or_refresh a now r = register_at (resolve a.code none r) a now r

-- `register`
unfoldable pub register : Registration → ℕ → RegistryRepo → Result (EntityRecord × RegistryRepo)
unfolding register_or_refresh
register a now r = do done ← register_or_refresh a now r; ok (done.row, done.repo)

-- `register_issuer`
unfoldable pub register_issuer :
    String
    → String
    → String
    → Option String
    → Option (Dict String String)
    → ℕ
    → RegistryRepo
    → Result (EntityRecord × RegistryRepo)
unfolding register
register_issuer code name social_status currency attrs now r =
    register
      (record {
        code = code;
        entity_type = issuer;
        name = name;
        entity_class = none;
        market = none;
        currency = currency;
        exchange = none;
        frequency = none;
        unit = none;
        algorithm_id = none;
        social_status = some social_status;
        valid_from = none;
        attrs = attrs;
      })
      now r
