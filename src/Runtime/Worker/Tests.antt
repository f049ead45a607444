-- ===== src/Runtime/Worker/Tests.antt =====
-- `WorkerPool.execute_once` (runtime/roles.py) at concrete pools.
use fin_data_hub.Prelude.{◌+◌, ℕ, String, ◌≡◌, refl, true, Option, none, some, [], ◌∷◌, string_eq}
use fin_data_hub.Prelude.Dict
use Prim.Native.String.{◌++◌}
use fin_data_hub.Runtime.Result.{Error, ok}
use fin_data_hub.Runtime.Models.{DependencyCondition, JobStatus, JobRun, is_running}
use fin_data_hub.Runtime.Tasks.{JobContext, returned, raised, TaskSpec}
use fin_data_hub.Runtime.Repository.State.{Repo}
use fin_data_hub.Runtime.Repository.Runs.{get_run, claim_next}
use fin_data_hub.Runtime.Repository.Marks.{advance_watermark}
use fin_data_hub.Runtime.Repository.Steps.{Reach-IsSound}
use fin_data_hub.Runtime.Tests.{digest, running_run, queued_reached, one_queued, one_interrupted}
use fin_data_hub.Runtime.Worker.{
  WorkerPool, rows_of, context_of, note_callback, call_back, settle_run, execute_once,
}
use fin_data_hub.Runtime.Worker.Outcome.{IsFailed, IsRewritten, gave_up, execute_once_lem}
use fin_data_hub.Runtime.Worker.Health.{execute_once_busy, settle_run_late}

-- as the callback of ingestion/tasks.py: it moves the mark to the end of the window
abbrev mark : JobContext → ℕ → Repo → Option String × Repo
mark context rows r = (none, (advance_watermark context.dataset context.run.scope 12 r).1)

abbrev bars_task : TaskSpec
bars_task = record {
  job_id = "sync.bars";
  kind = "sync";
  dataset = "bars";
  executor = λ context r. (returned (some 7), r);
  schedule = none;
  priority = 100;
  max_attempts = 3;
  scope = "";
  dependencies = [];
  condition = DependencyCondition.on_success;
  version_provider = none;
  on_success = some mark;
}

abbrev pool : WorkerPool
pool = record {
  repo = one_queued;
  registry = ("sync.bars", bars_task) ∷ [];
  health = record {
    alive = true;
    busy = 1;
    last_completed_at = none;
    last_error = none;
    executed = 0;
  };
}

abbrev message : Error → String
message e = "error"

execute_once_lem_example :
    ((r1 : Repo)
      → claim_next "worker-1-0" 9 one_queued ≡ (none, r1)
      → execute_once message 9 20 20 21 "worker-1-0" pool ≡ (ok none, pool))
    × ((run : JobRun) (r1 : Repo)
        → claim_next "worker-1-0" 9 one_queued ≡ (some run, r1)
        → (Dict.get pool.registry run.job_id ≡ none
            → (out : JobRun) × (r' : Repo) × (execute_once message 9 20 20 21 "worker-1-0" pool ≡ (
              ok (some out),
              record pool {
                repo = r';
                health = record pool.health { last_error = some ("任务未注册: " ++ run.job_id) };
              },
            ))
              × IsFailed 20 ("任务未注册: " ++ run.job_id) run out
              × IsRewritten run.run_id out r1 r')
          × ((spec : TaskSpec) (r2 : Repo) (row : JobRun)
              → Dict.get pool.registry run.job_id ≡ some spec
              → get_run run.run_id r2 ≡ some row
              → is_running row.status ≡ true
              → ((error : String)
                  → spec.executor (context_of run) r1 ≡ (raised error, r2)
                  → (out : JobRun) × (r' : Repo) × (execute_once message 9 20 20 21 "worker-1-0"
                        pool
                      ≡ (ok (some out), gave_up message 9 20 20 21 "worker-1-0" pool error r'))
                    × IsFailed 20 error row out
                    × IsRewritten run.run_id out r2 r')
                × ((result : Option ℕ)
                    → spec.executor (context_of run) r1 ≡ (returned result, r2)
                    → (out : JobRun) × (r' : Repo) × (q : WorkerPool) × (execute_once message 9 20
                          20 21 "worker-1-0" pool
                        ≡ (ok (some out), q))
                      × ((out.status ≡ JobStatus.succeeded)
                          × (out.rows_written ≡ some (rows_of result)))
                      × IsRewritten run.run_id out r2 r'
                      × (q.repo
                          ≡ (call_back spec.on_success
                              (context_of run)
                              (rows_of result)
                              (record pool {
                                repo = r';
                                health = record pool.health { busy = 1 + 1 };
                              })).repo))))
execute_once_lem_example =
    execute_once_lem message 9 20 20 21 "worker-1-0" pool (Reach-IsSound digest queued_reached)

execute_once_busy_example : (execute_once message 9 20 20 21 "worker-1-0" pool).1.health.busy ≡ 1
execute_once_busy_example = execute_once_busy message 9 20 20 21 "worker-1-0" pool

settle_run_late_example :
    settle_run message 9 20 20 21 bars_task
      (context_of running_run)
      pool
      (returned (some 7), one_interrupted)
    ≡ (
      ok (
          some (record running_run {
            status = JobStatus.interrupted;
            error = some "停机超时";
            finished_at = some 20;
          })),
      note_callback
          (record pool { repo = one_interrupted })
          (mark (context_of running_run) 7 one_interrupted),
    )
unfolding get_run Dict.get
settle_run_late_example =
    settle_run_late message 9 20 20 21 bars_task (context_of running_run) pool (some 7)
      one_interrupted _ refl refl mark refl
