-- ===== src/Registry/Tests.antt =====
-- The entity registry (registry/service.py, registry/universe.py) at one stock that is registered,
-- renamed and related to its issuer.
use fin_data_hub.Prelude.{
  ℕ, ◌≤◌, ◌<◌, ◌≡◌, refl, sym, subst, inr, ◌⊎◌, ◌↔◌, true, false, ◌&&◌, List, [], ◌∷◌, none, some,
  arith, ◌==◌, nat_eq, In, inl, filter, any,
}
use fin_data_hub.Prelude.Dict
use fin_data_hub.Prelude.Dict.{Dict}
use fin_data_hub.Prelude.Max.{max?}
use fin_data_hub.Prelude.Sort.{sorted}
use fin_data_hub.Runtime.Result.{ok}
use fin_data_hub.Registry.Models.{
  EntityRecord, RelationTypeRecord, LifecycleRecord, covers, start_of, epoch,
}
use fin_data_hub.Registry.Repository.{
  RegistryRepo, new_repo, entity_rows, find_by_code, next_entity_id, append_entity, append_code,
  relation_rows, find_relations_by_related,
}
use fin_data_hub.Registry.Rows.{
  entity, next_version, close_row, append_row, changed_row, current_row, covering_row, name_as_of,
}
use fin_data_hub.Registry.Codes.{resolve}
use fin_data_hub.Registry.Register.{Registration, Registered, register_or_refresh, new_row}
use fin_data_hub.Registry.Names.{add_name_change, close_previous, resume, new_name, announced}
use fin_data_hub.Registry.Relations.{Vocabulary, related_ids}
use fin_data_hub.Registry.Universe.{is_known, is_live_at, rank_below, rank_rows, universe}
use fin_data_hub.Registry.AsOf.{covering_row_lem}
use fin_data_hub.Registry.History.{IsSound}
use fin_data_hub.Registry.History.Sound.{HasGrown}
use fin_data_hub.Registry.History.Calls.{registers, History, begin, then_call, History-IsSound}
use fin_data_hub.Registry.Renaming.{add_name_change_lem}
use fin_data_hub.Registry.Inverse.{related_ids_inverse}
use fin_data_hub.Registry.PointInTime.{universe_known}
use fin_data_hub.Registry.Idempotence.Twice.{register_or_refresh_twice}
use fin_data_hub.Registry.Idempotence.Resolves.{resolve-register_or_refresh}

program : Unit {0}
unfolding register_or_refresh resolve new_repo new_row current_row covering_row name_as_of
    add_name_change covers Dict.get Dict.put Dict.values sorted filter any find_by_code
    next_entity_id append_entity append_code max? next_version close_row append_row entity_rows
    entity related_ids universe rank_rows is_known is_live_at close_previous resume relation_rows
    find_relations_by_related
program = tt

abbrev bank : Registration
bank = record {
  code = "000001.SZ";
  entity_type = "equity";
  name = "深发展A";
  entity_class = none;
  market = some "cn";
  currency = none;
  exchange = none;
  frequency = none;
  unit = none;
  algorithm_id = none;
  social_status = none;
  valid_from = none;
  attrs = none;
}

abbrev bank_row : EntityRecord
bank_row = record {
  entity_id = 10001;
  entity_type = "equity";
  code = "000001.SZ";
  name = "深发展A";
  entity_class = none;
  market = some "cn";
  currency = none;
  exchange = none;
  frequency = none;
  unit = none;
  algorithm_id = none;
  social_status = none;
  valid_from = some epoch;
  valid_to = none;
  knowledge_time = 7;
  version = 1;
  attrs = none;
}

abbrev registered : Registered
registered = record {
  row = bank_row;
  created = true;
  updated = false;
  repo = record {
    next_id = 10002;
    rows = (10001, bank_row ∷ []) ∷ [];
    codes =
        record {
          entity_id = 10001;
          code = "000001.SZ";
          valid_from = some epoch;
          valid_to = none;
          knowledge_time = 7;
          version = 1;
        }
        ∷ [];
    relations = [];
    relation_types = [];
    external_ids = [];
  };
}

registers_bank : register_or_refresh bank 7 (new_repo 10001) ≡ ok registered
unfolding program
registers_bank = refl

bank-History : History (new_repo 10001) registered.repo
bank-History = then_call begin (registers bank 7 registered registers_bank refl)

History-IsSound_example :
    IsSound registered.repo
    × ((r' : RegistryRepo) → History registered.repo r' → HasGrown registered.repo r')
History-IsSound_example = History-IsSound 10001 registered.repo bank-History

register_or_refresh_twice_example :
    register_or_refresh bank 8 registered.repo
    ≡ ok (record { row = bank_row; created = false; updated = false; repo = registered.repo })
register_or_refresh_twice_example =
    register_or_refresh_twice bank 7 8 (new_repo 10001)
      (History-IsSound 10001 (new_repo 10001) begin).0 registered registers_bank

resolve-register_or_refresh_example : resolve "000001.SZ" none registered.repo ≡ some 10001
resolve-register_or_refresh_example =
    resolve-register_or_refresh bank 7 (new_repo 10001) registered
      (History-IsSound 10001 (new_repo 10001) begin).0 registers_bank

abbrev closed_row : EntityRecord
closed_row = record bank_row { valid_to = some 734715; knowledge_time = 9; version = 2 }

abbrev renamed_row : EntityRecord
renamed_row = record bank_row {
  name = "平安银行";
  valid_from = some 734716;
  knowledge_time = 9;
  version = 3;
}

abbrev renamed : RegistryRepo
renamed = record registered.repo { rows = (10001, bank_row ∷ closed_row ∷ renamed_row ∷ []) ∷ [] }

renames_bank :
    add_name_change 10001 "平安银行" (some 734716) none none 9 9 9 registered.repo ≡ ok renamed
unfolding program
renames_bank = refl

covering_row_lem_example :
    ((row : EntityRecord)
      → covering_row 10001 (some 734720) renamed ≡ some row
      → In row (entity_rows 10001 renamed)
        × (covers row.valid_from row.valid_to (some 734720) ≡ true)
        × ((other : EntityRecord)
            → In other (entity_rows 10001 renamed)
            → covers other.valid_from other.valid_to (some 734720) ≡ true
            → (start_of other.valid_from < start_of row.valid_from)
              ⊎ ((start_of other.valid_from ≡ start_of row.valid_from)
                  × (other.version ≤ row.version))))
    × (covering_row 10001 (some 734720) renamed ≡ none
        → (row : EntityRecord) → In row (entity_rows 10001 renamed)
        → covers row.valid_from row.valid_to (some 734720) ≡ false)
covering_row_lem_example = covering_row_lem 10001 734720 renamed

none_later :
    (x : EntityRecord)
    → In x (entity_rows 10001 registered.repo)
    → covers x.valid_from x.valid_to (some 734720) ≡ true
    → start_of x.valid_from ≤ 734716
unfolding program
none_later x (inl e) c = subst (λ t. start_of t.valid_from ≤ 734716) (sym e) (omega arith)
none_later x (inr m) c = absurd m

add_name_change_lem_example :
    (name_as_of 10001 (some 734720) renamed ≡ some "平安银行")
    × (s : RegistryRepo) × (current : EntityRecord) × (n : ℕ) × (close_previous 734715
          (covering_row 10001 (some 734715) registered.repo)
          9
          registered.repo
        ≡ ok s)
    × (current_row 10001 s ≡ ok current)
    × (covering_row 10001 (some 734720) renamed
        ≡ some (changed_row current (new_name "平安银行" 734716 none (announced none)) 9 n))
add_name_change_lem_example =
    add_name_change_lem 10001 734716 734720 "平安银行" none none 9 9 9 registered.repo renamed
      (History-IsSound 10001 registered.repo bank-History).0 renames_bank (omega arith)
      (omega arith) refl none_later

abbrev issued_by : RelationTypeRecord
issued_by = record { relation_type = "issued_by"; inverse_relation = "issues"; description = "" }

abbrev issues : RelationTypeRecord
issues = record { relation_type = "issues"; inverse_relation = "issued_by"; description = "" }

abbrev vocab : Vocabulary
vocab = ("issued_by", issued_by) ∷ ("issues", issues) ∷ []

abbrev issued : RegistryRepo
issued = record renamed {
  relations =
      record {
        entity_id = 10001;
        related_id = 10002;
        relation_type = "issued_by";
        valid_from = some epoch;
        valid_to = none;
        knowledge_time = 9;
        version = 1;
      }
      ∷ [];
}

related_ids_inverse_example :
    (ids ids' : List ℕ) × (related_ids vocab 10001 "issued_by" none issued ≡ ok ids)
    × (related_ids vocab 10002 "issues" none issued ≡ ok ids')
    × (In 10002 ids ↔ In 10001 ids')
unfolding Dict.get
related_ids_inverse_example =
    related_ids_inverse vocab issued_by issues 10001 10002 none issued refl refl refl refl

-- listed, and later known to have been delisted before the date
abbrev life : List LifecycleRecord
life =
    record {
      entity_id = 10001;
      status = "listed";
      start_date = some 726468;
      end_date = none;
      knowledge_time = some 5;
      version = 1;
    }
    ∷ record {
      entity_id = 10001;
      status = "delisted";
      start_date = some 734700;
      end_date = none;
      knowledge_time = some 50;
      version = 1;
    }
    ∷ []

universe_known_example :
    (universe renamed life (some 734720) (some 20) none none
      ≡ universe renamed (filter (is_known (some 20)) life) (some 734720) none none none)
    × ((target id : ℕ)
        → Dict.get (rank_rows (some 20) target life []) id
          ≡ max? rank_below (
              filter
                (λ row. row.entity_id == id && (is_known (some 20) row && is_live_at target row))
                life))
    × ((row : LifecycleRecord)
        → (is_known (some 20) row ≡ true)
          ↔ ((known : ℕ) → row.knowledge_time ≡ some known → known ≤ 20))
universe_known_example = universe_known renamed life (some 734720) 20 none none

universe_at_20 : universe renamed life (some 734720) (some 20) none none ≡ ok (renamed_row ∷ [])
unfolding program
universe_at_20 = refl

universe_at_60 : universe renamed life (some 734720) (some 60) none none ≡ ok []
unfolding program
universe_at_60 = refl
