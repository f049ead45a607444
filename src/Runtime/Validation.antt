-- ===== src/Runtime/Validation.antt =====
-- `validate` and `_validate_acyclic` of `TaskRegistry` (runtime/registry.py), and `sync_metadata` of
-- app.py, which refuses to mirror a registry that is not valid. A problem is a value in place of the
-- text of its message. A visit has as much fuel as there are tasks; `none` means that it ran out.
-- `sorted` orders the job ids by the argument `before`.
pub mod Loops
pub mod Visit
pub mod Jobs
pub mod Problems
pub mod Valid
pub mod Mirror
pub mod Tests
use fin_data_hub.Prelude.{
  ℕ, zero, suc, String, Bool, true, false, not, List, [], ◌∷◌, ◌++◌, map, Option, none, some, ◌==◌,
  string_eq, if◌then◌else◌, is_some, filter, length,
}
use fin_data_hub.Prelude.Dict
use fin_data_hub.Prelude.Dict.{Dict}
use fin_data_hub.Prelude.Sort.{sorted}
use fin_data_hub.Runtime.Result.{Result, ok, raise, value_error}
use fin_data_hub.Runtime.Keys.{is_versioned}
use fin_data_hub.Runtime.Repository.State.{Repo, sync_defs, sync_dependencies}
use fin_data_hub.Runtime.Sql.Database.{Engine, Db}
use fin_data_hub.Runtime.Sql.Database as Sql
use fin_data_hub.Runtime.Tasks.{TaskSpec, TaskRegistry, defs, dependencies}

pub data Problem : Type 0 where
  unregistered_parent : String → String → Problem
  version_missing : String → String → Problem
  version_unwanted : String → String → Problem
  dependency_cycle : List String → Problem

-- the values 1 and 2 of `state`
pub data Mark : Type 0 where
  visiting visited : Mark

pub record Search : Type 0 where
  pub state : Dict String Mark
  pub errors : List (List String)

abbrev pub fresh_search : Search
fresh_search = record { state = []; errors = [] }

abbrev pub set_mark : String → Mark → Search → Search
set_mark node mark s = record s { state = Dict.put s.state node mark }

abbrev pub add_error : List String → Search → Search
add_error path s = record s { errors = s.errors ++ path ∷ [] }

abbrev pub and_then {ℓ κ} : {A : Type ℓ} {B : Type κ} → Option A → (A → Option B) → Option B
and_then none next = none
and_then (some a) next = next a

-- one visit, as the loop inside it sees the next
abbrev pub Visitor : Type 0
Visitor = String → List String → Search → Option Search

abbrev pub has : TaskRegistry → String → Bool
has tasks job = is_some (Dict.get tasks job)

-- `self._tasks[node].dependencies`; only registered nodes are visited
unfoldable pub parents_in : TaskRegistry → String → List String
parents_in tasks node = elim (Dict.get tasks node) [ none ↦ [] | some spec ↦ spec.dependencies ]

module _ (tasks : TaskRegistry) where
  abbrev pub visit_marked :
      Visitor → String → List String → String → Search → Option Mark → Option Search
  visit_marked visit node path parent s (some Mark.visiting) =
      some (add_error (path ++ node ∷ parent ∷ []) s)
  visit_marked visit node path parent s none = visit parent (path ++ node ∷ []) s
  visit_marked visit node path parent s (some Mark.visited) = some s

  -- the body of the loop over the parents
  unfoldable pub visit_parent : Visitor → String → List String → String → Search → Option Search
  visit_parent visit node path parent s =
      if not (has tasks parent)
      then some s
      else visit_marked visit node path parent s (Dict.get s.state parent)

  unfoldable pub visit_parents :
      Visitor → String → List String → List String → Search → Option Search
  unfolding visit_parent
  visit_parents visit node path [] s = some s
  visit_parents visit node path (parent ∷ parents) s =
      and_then (visit_parent visit node path parent s) (visit_parents visit node path parents)

  unfoldable pub visit : ℕ → Visitor
  unfolding visit_parents parents_in
  visit zero node path s = none
  visit (suc fuel) node path s =
      and_then
        (visit_parents (visit fuel) node path (parents_in tasks node)
          (set_mark node Mark.visiting s))
        (λ s'. some (set_mark node Mark.visited s'))

  unfoldable pub visit_all : ℕ → List String → Search → Option Search
  unfolding visit
  visit_all fuel [] s = some s
  visit_all fuel (job_id ∷ jobs) s =
      and_then
        (elim (Dict.get s.state job_id) [ none ↦ visit fuel job_id [] s | some mark ↦ some s ])
        (visit_all fuel jobs)

  abbrev pub job_ids : List String
  job_ids = map (λ (entry : String × TaskSpec). entry.0) tasks

  unfoldable pub validate_acyclic : (String → String → Bool) → Option (List (List String))
  unfolding visit_all
  validate_acyclic before =
      and_then (visit_all (length tasks) (sorted before job_ids) fresh_search) (λ s. some s.errors)

  abbrev pub parent_problems : String → List String → List Problem
  parent_problems job [] = []
  parent_problems job (parent ∷ parents) =
      if not (has tasks parent)
      then Problem.unregistered_parent job parent ∷ parent_problems job parents
      else parent_problems job parents

  abbrev pub missing_version : TaskSpec → List Problem
  missing_version spec =
      if is_versioned spec.kind
      then elim spec.version_provider [
        | none ↦ Problem.version_missing spec.job_id spec.kind ∷ []
        | some version ↦ []
      ]
      else []

  abbrev pub unwanted_version : TaskSpec → List Problem
  unwanted_version spec = if is_versioned spec.kind then [] else elim spec.version_provider [
    | none ↦ []
    | some version ↦ Problem.version_unwanted spec.job_id spec.kind ∷ []
  ]

  unfoldable pub spec_problems : List TaskSpec → List Problem
  spec_problems [] = []
  spec_problems (spec ∷ specs) =
      parent_problems spec.job_id spec.dependencies
      ++ (missing_version spec ++ (unwanted_version spec ++ spec_problems specs))

  unfoldable pub validate : (String → String → Bool) → Option (List Problem)
  unfolding validate_acyclic spec_problems
  validate before =
      and_then (validate_acyclic before)
        (λ cycles. some (spec_problems (Dict.values tasks) ++ map Problem.dependency_cycle cycles))

abbrev pub mirror : TaskRegistry → Repo → List Problem → Result Repo
mirror tasks r [] = ok (sync_dependencies (dependencies tasks) (sync_defs (defs tasks) r))
mirror tasks r (problem ∷ problems) = raise value_error

unfoldable pub sync_metadata : (String → String → Bool) → TaskRegistry → Repo → Option (Result Repo)
unfolding validate
sync_metadata before tasks r =
    and_then (validate tasks before) (λ problems. some (mirror tasks r problems))

-- a transaction that may have been refused
abbrev pub committed : (e : Engine) → Db e → Result (Db e) → Result (Unit {0}) × Db e
committed e db (raise x) = (raise x, db)
committed e db (ok db') = (ok tt, db')

-- `sync_metadata` on a store in SQL: two transactions, so the definitions stay where the dependencies
-- are refused.
abbrev pub mirror_dependencies :
    (e : Engine) → TaskRegistry → Db e → Result (Db e) → Result (Unit {0}) × Db e
mirror_dependencies e tasks db (raise x) = (raise x, db)
mirror_dependencies e tasks db (ok db') =
    committed e db' (Sql.sync_dependencies e (dependencies tasks) db')

abbrev pub mirror_sql : (e : Engine) → TaskRegistry → Db e → List Problem → Result (Unit {0}) × Db e
mirror_sql e tasks db [] = mirror_dependencies e tasks db (Sql.sync_defs e (defs tasks) db)
mirror_sql e tasks db (problem ∷ problems) = (raise value_error, db)

unfoldable pub sync_metadata_sql :
    (e : Engine)
    → (String → String → Bool)
    → TaskRegistry
    → Db e
    → Option (Result (Unit {0}) × Db e)
unfolding validate
sync_metadata_sql e before tasks db =
    and_then (validate tasks before) (λ problems. some (mirror_sql e tasks db problems))
