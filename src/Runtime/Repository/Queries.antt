-- ===== src/Runtime/Repository/Queries.antt =====
-- The queries of `InMemoryMetaRepository` (runtime/repository.py) over the runs.
use fin_data_hub.Prelude.{
  ℕ, String, Bool, true, false, ◌&&◌, List, Option, none, some, ◌==◌, nat_eq, string_eq, pair_eq,
  option_eq, if◌then◌else◌, leb, filter, any, all, count, take,
}
use fin_data_hub.Prelude.Dict
use fin_data_hub.Prelude.Dict.{Dict}
use fin_data_hub.Prelude.Sort.{sorted, head?}
use fin_data_hub.Runtime.Models.{
  JobStatus, DependencyCondition, same_status, is_terminal, is_claimable, is_succeeded,
  JobDependency, JobRun,
}
use fin_data_hub.Runtime.Repository.State.{Repo}

-- an optional filter of a query: `None` passes every row
unfoldable pub passes {ℓ} : {A : Type ℓ} → Option A → (A → Bool) → Bool
passes none p = true
passes (some a) p = p a

-- newest first
unfoldable pub newer : JobRun → JobRun → Bool
newer a b = leb b.run_id a.run_id

unfoldable pub older : JobRun → JobRun → Bool
older a b = leb a.run_id b.run_id

unfoldable pub list_runs : Option JobStatus → Option String → ℕ → Repo → List JobRun
unfolding passes newer same_status
list_runs status job_id limit r = take limit (
    sorted newer (
      filter (λ run. passes status (same_status run.status) && passes job_id (λ j. run.job_id == j))
        (Dict.values r.runs)))

-- `min(matches, key=run_id)`: the first of the sorted matches
unfoldable pub find_run_by_request_id : String → Repo → Option JobRun
unfolding older
find_run_by_request_id request_id r =
    head? (sorted older (filter (λ run. run.request_id == some request_id) (Dict.values r.runs)))

unfoldable pub count_queued : Repo → ℕ
count_queued r = count (λ run. is_claimable run.status) (Dict.values r.runs)

-- the instance of a run that a dependency looks at
pub record Target : Type 0 where
  pub child_job : String
  pub scope : String
  pub window_start : Option ℕ
  pub window_end : Option ℕ

-- the condition of the generator `matched`
unfoldable pub is_match : Target → String → JobRun → Bool
is_match t parent run =
    run.job_id == parent
    && run.scope == t.scope
    && run.window_start == t.window_start
    && run.window_end == t.window_end

-- the body of the loop of `parents_ready`: whether the loop goes on after `dep`
unfoldable pub released : Target → List JobRun → JobDependency → Bool
unfolding is_match
released t rows dep =
    let matched = filter (is_match t dep.parent_job) rows in
    if any (λ run. true) matched
    then elim dep.condition [
      | DependencyCondition.always ↦ true
      | DependencyCondition.on_complete ↦ any (λ run. is_terminal run.status) matched
      | DependencyCondition.on_success ↦ any (λ run. is_succeeded run.status) matched
    ]
    else false

unfoldable pub parents_ready : Target → Repo → Bool
parents_ready t r =
    all (released t (Dict.values r.runs)) (filter (λ dep. dep.child_job == t.child_job) r.deps)
