-- ===== src/Runtime/Validation/Tests.antt =====
-- `validate` and `sync_metadata` (registry.py and app.py) at a registry of three tasks, and at one with
-- a cycle.
use fin_data_hub.Prelude.{
  any, String, Bool, ◌≡◌, refl, ◌↔◌, true, List, [], ◌∷◌, Option, none, some, string_eq, In,
}
use fin_data_hub.Prelude.Dict
use fin_data_hub.Prelude.Sort.{sorted}
use fin_data_hub.Runtime.Result.{ok, raise, value_error, integrity_error}
use fin_data_hub.Runtime.Keys.{is_versioned}
use fin_data_hub.Runtime.Models.{DependencyCondition}
use fin_data_hub.Runtime.Repository.State.{Repo, init}
use fin_data_hub.Runtime.Tasks.{
  TaskSpec, TaskRegistry, returned, dependencies, def_of, defs, all_parents, parents_of,
}
use fin_data_hub.Runtime.Validation.{
  Problem, parents_in, visit_parent, visit_parents, visit, visit_all, validate_acyclic,
  spec_problems, validate, sync_metadata, sync_metadata_sql,
}
use fin_data_hub.Runtime.Sql.Database.{Db, same_dependency}
use fin_data_hub.Runtime.Sql.Database as Sql
use fin_data_hub.Runtime.Sql.Table.{insert_all}
use fin_data_hub.Runtime.Sql.Inserts.{IsApart}
use fin_data_hub.Runtime.Sql.Tests.{engine, new_db}
use fin_data_hub.Runtime.Validation.Loops.{IsLoop}
use fin_data_hub.Runtime.Validation.Valid.{IsValid, validate_lem}
use fin_data_hub.Runtime.Validation.Mirror.{def_or, HoldsDefs, HoldsDependencies, sync_metadata_lem}

abbrev task : String → String → List String → Option (Option String) → TaskSpec
task job kind parents version = record {
  job_id = job;
  kind = kind;
  dataset = job;
  executor = λ context r. (returned (some 0), r);
  schedule = none;
  priority = 100;
  max_attempts = 3;
  scope = "";
  dependencies = parents;
  condition = DependencyCondition.on_success;
  version_provider = version;
  on_success = none;
}

abbrev tasks : TaskRegistry
tasks =
    ("mart", task "mart" "build_rm" ("factor" ∷ "bars" ∷ []) (some (some "v1")))
    ∷ ("bars", task "bars" "sync" [] none)
    ∷ ("factor", task "factor" "derive" ("bars" ∷ []) (some (some "a1")))
    ∷ []

-- bars waits for mart as well, a task is unknown and a version is missing
abbrev broken : TaskRegistry
broken =
    ("mart", task "mart" "build_rm" ("factor" ∷ "prices" ∷ []) none)
    ∷ ("bars", task "bars" "sync" ("mart" ∷ []) none)
    ∷ ("factor", task "factor" "derive" ("bars" ∷ []) (some (some "a1")))
    ∷ []

abbrev before : String → String → Bool
before a b = true

program : Unit {0}
unfolding validate validate_acyclic visit_all visit visit_parents visit_parent parents_in sorted
    spec_problems is_versioned Dict.get Dict.put Dict.values
program = tt

valid : validate tasks before ≡ some []
unfolding program
valid = refl

found :
    validate broken before
    ≡ some (
        Problem.unregistered_parent "mart" "prices"
        ∷ Problem.version_missing "mart" "build_rm"
        ∷ Problem.dependency_cycle ("mart" ∷ "factor" ∷ "bars" ∷ "mart" ∷ [])
        ∷ [])
unfolding program
found = refl

validate_lem_example :
    (problems : List Problem) × (validate broken before ≡ some problems)
    × ((problems ≡ []) ↔ IsValid broken)
    × ((path : List String) → In (Problem.dependency_cycle path) problems → IsLoop broken path)
validate_lem_example = validate_lem broken before

sync_metadata_lem_example :
    (IsValid tasks
      → ((r' : Repo) × (sync_metadata before tasks init ≡ some (ok r'))
          × (r'.deps ≡ dependencies tasks)
          × ((job : String)
              → Dict.get r'.defs job ≡ def_or (Dict.get tasks job) (Dict.get init.defs job))
          × (r'.runs ≡ []))
        × (IsApart same_dependency (dependencies tasks)
            → (db' : Db engine) × (sync_metadata_sql engine before tasks new_db ≡ some (ok tt, db'))
              × HoldsDefs engine tasks db'
              × HoldsDependencies engine tasks db'
              × (db'.runs ≡ new_db.runs))
        × ((IsApart same_dependency (dependencies tasks) → ⊥)
            → (db' : Db engine) × (sync_metadata_sql engine before tasks new_db
                ≡ some (raise integrity_error, db'))
              × HoldsDefs engine tasks db'
              × (db'.deps ≡ new_db.deps)
              × (db'.runs ≡ new_db.runs)))
    × ((IsValid tasks → ⊥)
        → (sync_metadata before tasks init ≡ some (raise value_error))
          × (sync_metadata_sql engine before tasks new_db ≡ some (raise value_error, new_db)))
unfolding Dict.get
sync_metadata_lem_example =
    sync_metadata_lem before tasks init engine new_db (refl, (refl, (refl, tt)))
      (refl, (refl, (refl, tt)))

-- A task names its parent twice: the definitions are replaced, and the dependencies are refused.
abbrev bars : TaskSpec
bars = task "bars" "sync" [] none

abbrev factor_twice : TaskSpec
factor_twice = task "factor" "derive" ("bars" ∷ "bars" ∷ []) (some (some "a1"))

abbrev repeated : TaskRegistry
repeated = ("bars", bars) ∷ ("factor", factor_twice) ∷ []

sync_repeated :
    sync_metadata_sql engine before repeated new_db
    ≡ some (raise integrity_error, record new_db { defs = def_of factor_twice ∷ def_of bars ∷ [] })
unfolding program sync_metadata_sql Sql.sync_defs Sql.sync_dependencies dependencies all_parents
    parents_of insert_all defs any
sync_repeated = refl
