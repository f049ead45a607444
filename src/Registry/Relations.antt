-- ===== src/Registry/Relations.antt =====
-- Relations and external identifiers in `EntityRegistry` (registry/service.py). Dates are what
-- `to_date` makes of the arguments, `value` is what `str(id_value).strip()` gives, and `now` what
-- `now()` returns.
use fin_data_hub.Prelude.{
  ℕ, String, Bool, ◌&&◌, ◌||◌, List, [], ◌∷◌, ◌++◌, Option, none, some, ◌==◌, nat_eq, string_eq,
  if◌then◌else◌, ltb, leb, any, filter, map,
}
use fin_data_hub.Prelude.Dict
use fin_data_hub.Prelude.Dict.{Dict}
use fin_data_hub.Prelude.Max.{max?}
use fin_data_hub.Prelude.Sort.{sorted, head?}
use fin_data_hub.Runtime.Result.{Result, ok, raise, value_error, ◌>>=◌}
use fin_data_hub.Registry.Models.{
  RelationRecord, RelationTypeRecord, ExternalIdRecord, covers, is_open, start_of, issuer, id_types,
}
use fin_data_hub.Registry.Repository.{
  RegistryRepo, append_relation, relation_rows, find_relations_by_related, append_relation_type,
  append_external_id, external_id_rows, find_external_ids,
}
use fin_data_hub.Registry.Rows.{require_entity}
use fin_data_hub.Registry.Register.{facet}

-- the words of `relation_types.yaml`
abbrev pub Vocabulary : Type 0
Vocabulary = Dict String RelationTypeRecord

-- the loop of `__init__`
unfoldable pub register_words : List RelationTypeRecord → RegistryRepo → RegistryRepo
register_words [] r = r
register_words (word ∷ words) r = register_words words (append_relation_type word r)

unfoldable pub word_at : String → Vocabulary → Result RelationTypeRecord
word_at word vocab = elim (Dict.get vocab word) [ none ↦ raise value_error | some entry ↦ ok entry ]

abbrev pub is_same_relation : ℕ → String → RelationRecord → Bool
is_same_relation related_id word row =
    row.related_id == related_id && row.relation_type == word && is_open row.valid_to

unfoldable pub write_relation :
    RelationRecord → List RelationRecord → RegistryRepo → RelationRecord × RegistryRepo
write_relation new [] r = (new, append_relation new r)
write_relation new (old ∷ olds) r = (old, r)

unfoldable pub add_relation :
    Vocabulary
    → ℕ
    → ℕ
    → String
    → Option ℕ
    → Option ℕ
    → ℕ
    → RegistryRepo
    → Result (RelationRecord × RegistryRepo)
unfolding word_at write_relation
add_relation vocab id related_id word valid_from valid_to now r = do
  _ ← word_at word vocab
  _ ← require_entity id r
  _ ← require_entity related_id r
  ok (
      write_relation
        (record {
          entity_id = id;
          related_id = related_id;
          relation_type = word;
          valid_from = some (start_of valid_from);
          valid_to = valid_to;
          knowledge_time = now;
          version = 1;
        })
        (filter (is_same_relation related_id word) (relation_rows id r)) r)

-- `sorted(set(ids))`
unfoldable pub distinct : List ℕ → List ℕ
distinct [] = []
distinct (n ∷ ns) = let rest = distinct ns in if any (λ m. m == n) ns then rest else n ∷ rest

abbrev pub in_relation : String → Option ℕ → RelationRecord → Bool
in_relation word as_of row = row.relation_type == word && covers row.valid_from row.valid_to as_of

unfoldable pub ids_of : String → String → ℕ → Option ℕ → RegistryRepo → List ℕ
unfolding distinct
ids_of word inverse id as_of r = sorted leb (
    distinct (
      map (λ row. row.related_id) (filter (in_relation word as_of) (relation_rows id r))
      ++ map (λ row. row.entity_id)
          (filter (in_relation inverse as_of) (find_relations_by_related id r))))

unfoldable pub related_ids : Vocabulary → ℕ → String → Option ℕ → RegistryRepo → Result (List ℕ)
unfolding word_at ids_of
related_ids vocab id word as_of r = do
  entry ← word_at word vocab
  ok (ids_of word entry.inverse_relation id as_of r)

unfoldable pub relations_of : ℕ → Option ℕ → RegistryRepo → List RelationRecord
relations_of id as_of r =
    filter (λ row. covers row.valid_from row.valid_to as_of)
      (relation_rows id r ++ find_relations_by_related id r)

abbrev pub issued_by : String
issued_by = "issued_by"

unfoldable pub link_issuer :
    Vocabulary → ℕ → ℕ → ℕ → RegistryRepo → Result (RelationRecord × RegistryRepo)
unfolding add_relation
link_issuer vocab listing_id issuer_id now r = do
  row ← require_entity issuer_id r
  if row.entity_type == issuer
      then add_relation vocab listing_id issuer_id issued_by none none now r
      else raise value_error

unfoldable pub issuer_of : Vocabulary → ℕ → RegistryRepo → Result (Option ℕ)
unfolding related_ids
issuer_of vocab listing_id r = do
  ids ← related_ids vocab listing_id issued_by none r
  ok (head? ids)

unfoldable pub listings_of : Vocabulary → ℕ → RegistryRepo → Result (List ℕ)
unfolding related_ids
listings_of vocab issuer_id r = related_ids vocab issuer_id "issues" none r

abbrev pub is_same_id : String → String → ExternalIdRecord → Bool
is_same_id id_type value row =
    row.id_type == id_type && row.id_value == value && is_open row.valid_to

unfoldable pub write_id :
    ExternalIdRecord → List ExternalIdRecord → RegistryRepo → ExternalIdRecord × RegistryRepo
write_id new [] r = (new, append_external_id new r)
write_id new (old ∷ olds) r = (old, r)

unfoldable pub add_external_id :
    ℕ
    → String
    → String
    → Option ℕ
    → Option ℕ
    → ℕ
    → RegistryRepo
    → Result (ExternalIdRecord × RegistryRepo)
unfolding facet write_id
add_external_id id id_type value valid_from valid_to now r = do
  _ ← require_entity id r
  _ ← facet id_types (some id_type)
  if value == ""
      then raise value_error
      else ok (
          write_id
            (record {
              entity_id = id;
              id_type = id_type;
              id_value = value;
              valid_from = some (start_of valid_from);
              valid_to = valid_to;
              knowledge_time = now;
              version = 1;
            })
            (filter (is_same_id id_type value) (external_id_rows id r)) r)

unfoldable pub external_ids_of : ℕ → Option ℕ → RegistryRepo → List ExternalIdRecord
external_ids_of id as_of r =
    filter (λ row. covers row.valid_from row.valid_to as_of) (external_id_rows id r)

unfoldable pub id_ranks_below : ExternalIdRecord → ExternalIdRecord → Bool
id_ranks_below a b =
    ltb (start_of a.valid_from) (start_of b.valid_from)
    || (start_of a.valid_from == start_of b.valid_from && ltb a.version b.version)

unfoldable pub id_of : Option ExternalIdRecord → Option ℕ
id_of none = none
id_of (some row) = some row.entity_id

unfoldable pub find_by_external_id : String → String → Option ℕ → RegistryRepo → Result (Option ℕ)
unfolding facet id_ranks_below id_of
find_by_external_id id_type value as_of r = do
  _ ← facet id_types (some id_type)
  ok (
      id_of (
        max? id_ranks_below (
          filter (λ row. covers row.valid_from row.valid_to as_of)
            (find_external_ids id_type value r))))
