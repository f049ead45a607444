-- ===== src/Runtime/Worker.antt =====
-- src/fin_data_platform/runtime/roles.py, `WorkerPool.execute_once`: claim a run, execute its task,
-- finish it. The four times are what `claim_next` gets, what `utcnow()` returns in `succeed` and in
-- `fail`, and what the clock of the pool returns at the end; `message` formats an exception.
pub mod Outcome
pub mod Health
pub mod Tests
use fin_data_hub.Prelude.{ℕ, ◌+◌, ◌-◌, String, Bool, Option, none, some}
use Prim.Native.String.{◌++◌}
use fin_data_hub.Runtime.Result.{Result, Error, ok, raise}
use fin_data_hub.Runtime.Models.{JobRun}
use fin_data_hub.Runtime.Tasks.{
  JobContext, Executed, returned, raised, TaskSpec, TaskRegistry, task_at,
}
use fin_data_hub.Runtime.Repository.State.{Repo}
use fin_data_hub.Runtime.Repository.Runs.{claim_next, succeed, fail}

pub record WorkerHealth : Type 0 where
  pub alive : Bool
  pub busy : ℕ
  pub last_completed_at : Option ℕ
  pub last_error : Option String
  pub executed : ℕ

pub record WorkerPool : Type 0 where
  pub repo : Repo
  pub registry : TaskRegistry
  pub health : WorkerHealth

abbrev pub Finished : Type 0
Finished = Result (Option JobRun) × WorkerPool

-- `finished = repo.fail(...)`, and `last_error = finished.error`
unfoldable pub note_failed : WorkerPool → Result (JobRun × Repo) → Finished
note_failed p (raise e) = (raise e, p)
note_failed p (ok (run, r)) =
    (ok (some run), record p { repo = r; health = record p.health { last_error = run.error } })

unfoldable pub give_up : ℕ → String → ℕ → WorkerPool → Finished
unfolding note_failed
give_up id error now p = note_failed p (fail id error now p.repo)

-- the callback: its exception only goes into the health record
unfoldable pub note_callback : WorkerPool → Option String × Repo → WorkerPool
note_callback p (none, r) = record p { repo = r }
note_callback p (some error, r) = record p {
  repo = r;
  health = record p.health { last_error = some ("on_success: " ++ error) };
}

unfoldable pub call_back :
    Option (JobContext → ℕ → Repo → Option String × Repo) → JobContext → ℕ → WorkerPool → WorkerPool
unfolding note_callback
call_back none context rows p = p
call_back (some f) context rows p = note_callback p (f context rows p.repo)

-- `result.rows_written if result else 0`, also that of `result or JobResult()`
abbrev pub rows_of : Option ℕ → ℕ
rows_of none = 0
rows_of (some rows) = rows

abbrev pub context_of : JobRun → JobContext
context_of run = record { job_id = run.job_id; kind = run.kind; dataset = run.dataset; run = run }

module _ (message : Error → String) (moment succeeded_at failed_at clock : ℕ) where
  -- the inner `try` after the executor has returned: what `succeed` raises is caught as well
  unfoldable pub note_succeeded :
      TaskSpec → JobContext → ℕ → WorkerPool → Result (JobRun × Repo) → Finished
  unfolding give_up call_back
  note_succeeded spec context rows p (raise e) = give_up context.run.run_id (message e) failed_at p
  note_succeeded spec context rows p (ok (run, r)) =
      (ok (some run), call_back spec.on_success context rows (record p { repo = r }))

  unfoldable pub settle_run : TaskSpec → JobContext → WorkerPool → Executed × Repo → Finished
  unfolding note_succeeded
  settle_run spec context p (returned result, r) =
      note_succeeded spec context (rows_of result) (record p { repo = r })
        (succeed context.run.run_id (rows_of result) succeeded_at r)
  settle_run spec context p (raised error, r) =
      give_up context.run.run_id error failed_at (record p { repo = r })

  -- `executed += 1` and `last_completed_at`, unless `fail` has raised
  unfoldable pub completed : Finished → Finished
  completed (raise e, p) = (raise e, p)
  completed (ok run, p) = (
    ok run,
    record p {
      health = record p.health { executed = p.health.executed + 1; last_completed_at = some clock };
    },
  )

  unfoldable pub execute : JobRun → WorkerPool → Result TaskSpec → Finished
  unfolding settle_run completed
  execute run p (raise e) = give_up run.run_id ("任务未注册: " ++ run.job_id) failed_at p
  execute run p (ok spec) =
      completed (settle_run spec (context_of run) p (spec.executor (context_of run) p.repo))

  -- the `finally`
  abbrev pub leave : Finished → Finished
  leave (out, p) = (out, record p { health = record p.health { busy = p.health.busy - 1 } })

  unfoldable pub run_claimed : WorkerPool → Option JobRun × Repo → Finished
  unfolding execute task_at
  run_claimed p (none, r) = (ok none, record p { repo = r })
  run_claimed p (some run, r) = leave (
      execute run (record p { repo = r; health = record p.health { busy = p.health.busy + 1 } })
        (task_at run.job_id p.registry))

  unfoldable pub execute_once : String → WorkerPool → Finished
  unfolding run_claimed
  execute_once worker p = run_claimed p (claim_next worker moment p.repo)
