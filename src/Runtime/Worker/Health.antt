-- ===== src/Runtime/Worker/Health.antt =====
-- `WorkerPool.execute_once` (runtime/roles.py): its health record, and when it calls back.
use fin_data_hub.Prelude.{ℕ, ◌+◌, String, ◌≡◌, refl, ◌∙◌, false, Option, none, some, arith}
use fin_data_hub.Runtime.Result.{Result, Error, ok, raise}
use fin_data_hub.Runtime.Models.{JobRun, is_running}
use fin_data_hub.Runtime.Tasks.{JobContext, Executed, returned, raised, TaskSpec, task_at}
use fin_data_hub.Runtime.Repository.State.{Repo}
use fin_data_hub.Runtime.Repository.Runs.{claim_next, succeed, get_run, finish_row, finish, row_at}
use fin_data_hub.Runtime.Worker.{
  WorkerPool, Finished, context_of, note_failed, give_up, note_callback, call_back, rows_of,
  note_succeeded, settle_run, completed, execute, run_claimed, execute_once,
}

note_failed_busy :
    (p : WorkerPool) (out : Result (JobRun × Repo))
    → (note_failed p out).1.health.busy ≡ p.health.busy
unfolding note_failed
note_failed_busy p (raise e) = refl
note_failed_busy p (ok (run, r)) = refl

note_callback_busy :
    (p : WorkerPool) (out : Option String × Repo)
    → (note_callback p out).health.busy ≡ p.health.busy
unfolding note_callback
note_callback_busy p (none, r) = refl
note_callback_busy p (some error, r) = refl

call_back_busy :
    (o : Option (JobContext → ℕ → Repo → Option String × Repo)) (context : JobContext) (rows : ℕ)
    (p : WorkerPool)
    → (call_back o context rows p).health.busy ≡ p.health.busy
unfolding call_back
call_back_busy none context rows p = refl
call_back_busy (some f) context rows p = note_callback_busy p (f context rows p.repo)

module _ (message : Error → String) (moment succeeded_at failed_at clock : ℕ) where
  note_succeeded_busy :
      (spec : TaskSpec) (context : JobContext) (rows : ℕ) (p : WorkerPool)
      (out : Result (JobRun × Repo))
      → (note_succeeded message moment succeeded_at failed_at clock spec context rows p
          out).1.health.busy
        ≡ p.health.busy
  unfolding note_succeeded give_up
  note_succeeded_busy spec context rows p (raise e) = note_failed_busy p _
  note_succeeded_busy spec context rows p (ok (run, r)) =
      call_back_busy spec.on_success context rows (record p { repo = r })

  settle_run_busy :
      (spec : TaskSpec) (context : JobContext) (p : WorkerPool) (out : Executed × Repo)
      → (settle_run message moment succeeded_at failed_at clock spec context p out).1.health.busy
        ≡ p.health.busy
  unfolding settle_run give_up
  settle_run_busy spec context p (returned rows, r) =
      note_succeeded_busy spec context (rows_of rows) (record p { repo = r }) _
  settle_run_busy spec context p (raised error, r) = note_failed_busy (record p { repo = r }) _

  completed_busy :
      (out : Finished)
      → (completed message moment succeeded_at failed_at clock out).1.health.busy
        ≡ out.1.health.busy
  unfolding completed
  completed_busy (raise e, p) = refl
  completed_busy (ok run, p) = refl

  execute_busy :
      (run : JobRun) (p : WorkerPool) (out : Result TaskSpec)
      → (execute message moment succeeded_at failed_at clock run p out).1.health.busy
        ≡ p.health.busy
  unfolding execute give_up
  execute_busy run p (raise e) = note_failed_busy p _
  execute_busy run p (ok spec) =
      completed_busy (
        settle_run message moment succeeded_at failed_at clock spec (context_of run) p
          (spec.executor (context_of run) p.repo))
      ∙ settle_run_busy spec (context_of run) p (spec.executor (context_of run) p.repo)

  -- The count of busy workers is the same after `execute_once` as before it, on every path, those on
  -- which it raises included.
  pub execute_once_busy :
      (worker : String) (p : WorkerPool)
      → (execute_once message moment succeeded_at failed_at clock worker p).1.health.busy
        ≡ p.health.busy
  unfolding execute_once run_claimed
  execute_once_busy worker p = from (claim_next worker moment p.repo)
    where
      from :
          (out : Option JobRun × Repo)
          → (run_claimed message moment succeeded_at failed_at clock p out).1.health.busy
            ≡ p.health.busy
      from (none, r) = refl
      from (some run, r) = omega (
        arith,
        execute_busy run
            (record p { repo = r; health = record p.health { busy = p.health.busy + 1 } })
            (task_at run.job_id p.registry),
      )

  -- The callback of a task runs also when the run is no longer running once the executor returns, as
  -- after an interruption: the row stays as it is, is returned, and the callback is called all the same.
  pub settle_run_late :
      (spec : TaskSpec) (context : JobContext) (p : WorkerPool) (rows : Option ℕ) (r : Repo)
      (old : JobRun)
      → get_run context.run.run_id r ≡ some old
      → is_running old.status ≡ false
      → (f : JobContext → ℕ → Repo → Option String × Repo) → spec.on_success ≡ some f
      → settle_run message moment succeeded_at failed_at clock spec context p (returned rows, r)
        ≡ (ok (some old), note_callback (record p { repo = r }) (f context (rows_of rows) r))
  unfolding settle_run succeed finish row_at finish_row get_run note_succeeded call_back
  settle_run_late spec context p rows r old g done f calls = ground (arith, g, done, calls)
