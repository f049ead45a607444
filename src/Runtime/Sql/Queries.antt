-- ===== src/Runtime/Sql/Queries.antt =====
-- The queries of `SqlMetaRepository` (runtime/repository.py) over the runs.
use fin_data_hub.Prelude.{
  ℕ, String, Bool, true, ◌&&◌, List, Option, some, ◌==◌, nat_eq, string_eq, option_eq, filter, any,
  all, count, take, map,
}
use fin_data_hub.Prelude.Sort.{sorted, head?}
use fin_data_hub.Runtime.Models.{
  JobStatus, DependencyCondition, same_status, is_terminal, is_claimable, is_succeeded,
  JobDependency, JobRun,
}
use fin_data_hub.Runtime.Repository.Queries.{passes, newer, older, Target}
use fin_data_hub.Runtime.Sql.Database.{Engine, Db}
use fin_data_hub.Runtime.Sql.Runs.{rows}

-- the WHERE clause of `parents_ready`; the library writes a comparison with `None` as IS NULL
unfoldable pub in_window : Target → String → JobRun → Bool
in_window t parent run =
    run.job_id == parent
    && run.scope == t.scope
    && run.window_start == t.window_start
    && run.window_end == t.window_end

-- the body of the loop: whether it goes on after `dep`
unfoldable pub satisfied : List JobStatus → DependencyCondition → Bool
satisfied statuses DependencyCondition.always = any (λ s. true) statuses
satisfied statuses DependencyCondition.on_complete = any is_terminal statuses
satisfied statuses DependencyCondition.on_success = any is_succeeded statuses

module _ (e : Engine) where
  unfoldable pub list_runs : Option JobStatus → Option String → ℕ → Db e → List JobRun
  unfolding passes newer same_status
  list_runs status job_id limit db = take limit (
      sorted newer (
        filter
          (λ run. passes status (same_status run.status) && passes job_id (λ j. run.job_id == j))
          (rows e db)))

  unfoldable pub find_run_by_request_id : String → Db e → Option JobRun
  unfolding older
  find_run_by_request_id request_id db =
      head? (sorted older (filter (λ run. run.request_id == some request_id) (rows e db)))

  unfoldable pub count_queued : Db e → ℕ
  count_queued db = count (λ run. is_claimable run.status) (rows e db)

  unfoldable pub statuses_of : Target → JobDependency → Db e → List JobStatus
  unfolding in_window
  statuses_of t dep db = map (λ run. run.status) (filter (in_window t dep.parent_job) (rows e db))

  unfoldable pub parents_ready : Target → Db e → Bool
  unfolding satisfied statuses_of
  parents_ready t db =
      all (λ dep. satisfied (statuses_of t dep db) dep.condition)
        (filter (λ dep. dep.child_job == t.child_job) (e.job_dependencies.rows db.deps))
