-- ===== src/Registry/Repository.antt =====
-- src/fin_data_platform/registry/repository.py, `InMemoryEntityRegistryRepository`.
use fin_data_hub.Prelude.{
  ℕ, ◌+◌, String, ◌&&◌, List, [], ◌∷◌, ◌++◌, Option, none, some, ◌==◌, nat_eq, string_eq, filter,
}
use fin_data_hub.Prelude.Dict
use fin_data_hub.Prelude.Dict.{Dict}
use fin_data_hub.Registry.Models.{
  EntityRecord, CodeHistoryRecord, RelationRecord, RelationTypeRecord, ExternalIdRecord,
}

pub record RegistryRepo : Type 0 where
  pub next_id : ℕ
  pub rows : Dict ℕ (List EntityRecord)
  pub codes : List CodeHistoryRecord
  pub relations : List RelationRecord
  pub relation_types : Dict String RelationTypeRecord
  pub external_ids : List ExternalIdRecord

unfoldable pub new_repo : ℕ → RegistryRepo
new_repo id_start = record {
  next_id = id_start;
  rows = [];
  codes = [];
  relations = [];
  relation_types = [];
  external_ids = [];
}

unfoldable pub next_entity_id : RegistryRepo → ℕ × RegistryRepo
next_entity_id r = (r.next_id, record r { next_id = r.next_id + 1 })

-- `self._rows.get(entity_id, [])`
abbrev pub listed : Option (List EntityRecord) → List EntityRecord
listed none = []
listed (some rows) = rows

unfoldable pub entity_rows : ℕ → RegistryRepo → List EntityRecord
entity_rows id r = listed (Dict.get r.rows id)

unfoldable pub append_entity : EntityRecord → RegistryRepo → RegistryRepo
unfolding entity_rows
append_entity row r = record r {
  rows = Dict.put r.rows row.entity_id (entity_rows row.entity_id r ++ row ∷ []);
}

unfoldable pub flatten : List (List EntityRecord) → List EntityRecord
flatten [] = []
flatten (rows ∷ rest) = rows ++ flatten rest

unfoldable pub all_rows : RegistryRepo → List EntityRecord
unfolding flatten
all_rows r = flatten (Dict.values r.rows)

unfoldable pub append_code : CodeHistoryRecord → RegistryRepo → RegistryRepo
append_code entry r = record r { codes = r.codes ++ entry ∷ [] }

unfoldable pub code_history : ℕ → RegistryRepo → List CodeHistoryRecord
code_history id r = filter (λ entry. entry.entity_id == id) r.codes

unfoldable pub find_by_code : String → RegistryRepo → List CodeHistoryRecord
find_by_code code r = filter (λ entry. entry.code == code) r.codes

unfoldable pub append_relation : RelationRecord → RegistryRepo → RegistryRepo
append_relation row r = record r { relations = r.relations ++ row ∷ [] }

unfoldable pub relation_rows : ℕ → RegistryRepo → List RelationRecord
relation_rows id r = filter (λ row. row.entity_id == id) r.relations

unfoldable pub find_relations_by_related : ℕ → RegistryRepo → List RelationRecord
find_relations_by_related id r = filter (λ row. row.related_id == id) r.relations

unfoldable pub append_relation_type : RelationTypeRecord → RegistryRepo → RegistryRepo
append_relation_type word r = record r {
  relation_types = Dict.put r.relation_types word.relation_type word;
}

unfoldable pub append_external_id : ExternalIdRecord → RegistryRepo → RegistryRepo
append_external_id row r = record r { external_ids = r.external_ids ++ row ∷ [] }

unfoldable pub external_id_rows : ℕ → RegistryRepo → List ExternalIdRecord
external_id_rows id r = filter (λ row. row.entity_id == id) r.external_ids

unfoldable pub find_external_ids : String → String → RegistryRepo → List ExternalIdRecord
find_external_ids id_type id_value r =
    filter (λ row. row.id_type == id_type && row.id_value == id_value) r.external_ids
