-- ===== src/Runtime/Worker/Outcome.antt =====
-- `WorkerPool.execute_once` (runtime/roles.py): what becomes of the run that it claims.
use fin_data_hub.Prelude.{
  ℕ, ◌+◌, ◌-◌, ◌*◌, ◌^◌, ◌≤◌, ◌<◌, String, ◌≡◌, refl, ap, ◌∙◌, true, Option, none, some, arith,
  ◌==◌, nat_eq, string_eq, if◌then◌else◌, ==-refl, inl, inr, Bool-cases, ltb,
}
use Prim.Native.String.{◌++◌}
use fin_data_hub.Prelude.Dict
use fin_data_hub.Runtime.Result.{Error, ok}
use fin_data_hub.Runtime.Models.{JobRun, JobStatus, is_running, second}
use fin_data_hub.Runtime.Tasks.{returned, raised, TaskSpec, task_at}
use fin_data_hub.Runtime.Repository.State.{Repo}
use fin_data_hub.Runtime.Repository.Runs.{claim_next, succeed, success, finished, get_run}
use fin_data_hub.Runtime.Repository.Preserve.{IsSound}
use fin_data_hub.Runtime.Repository.Claim.{claim_next_lem}
use fin_data_hub.Runtime.Repository.Finish.{settle, finish_lem, fail_lem}
use fin_data_hub.Runtime.Worker.{
  WorkerPool, context_of, give_up, note_failed, call_back, rows_of, note_succeeded, settle_run,
  completed, execute, run_claimed, execute_once,
}

-- What a failed attempt makes of a running row: a retry while the budget lasts, and else the end.
abbrev pub IsFailed : ℕ → String → JobRun → JobRun → Type 0
IsFailed now error row out =
    (out.error ≡ some error)
    × (row.attempt < row.max_attempts
        → (out.status ≡ JobStatus.retrying)
          × (out.attempt ≡ row.attempt + 1)
          × (out.scheduled_at ≡ now + 5 * 2 ^ (row.attempt - 1) * second))
    × (row.max_attempts ≤ row.attempt → (out.status ≡ JobStatus.dead) × (out.attempt ≡ row.attempt))

-- One row has changed.
abbrev pub IsRewritten : ℕ → JobRun → Repo → Repo → Type 0
IsRewritten id out r r' = (k : ℕ) → get_run k r' ≡ (if id == k then some out else get_run k r)

give_up_lem :
    (id now : ℕ) (error : String) (p : WorkerPool) (row : JobRun)
    → get_run id p.repo ≡ some row
    → is_running row.status ≡ true
    → (out : JobRun) × (r' : Repo) × (give_up id error now p ≡ (
      ok (some out),
      record p { repo = r'; health = record p.health { last_error = some error } },
    ))
      × IsFailed now error row out
      × IsRewritten id out p.repo r'
unfolding give_up
give_up_lem id now error p row g runs =
    let (out, r', done, frame, _, more, spent) = (fail_lem id error now p.repo).2 row g in
    let stored : out.error ≡ some error = elim (Bool-cases (ltb row.attempt row.max_attempts)) [
      | inl h ↦ (more runs (ground arith)).1
      | inr h ↦ (spent runs (ground arith)).1
    ] in
    (
      out,
      r',
      rw done (unfold note_failed in rw stored refl),
      (
        stored,
        λ h. let (a, _, b, _, d, _) = more runs h in (a, b, d),
        λ h. let (a, _, b, _) = spent runs h in (a, b),
      ),
      frame,
    )

-- a worker that was busy and has left
free : (busy : ℕ) → busy + 1 - 1 ≡ busy
free busy = omega arith

-- `succeed` on a running row
succeed_lem :
    (id rows now : ℕ) (r : Repo) (row : JobRun)
    → get_run id r ≡ some row
    → is_running row.status ≡ true
    → (out : JobRun) × (r' : Repo) × (succeed id rows now r ≡ ok (out, r'))
      × ((out.status ≡ JobStatus.succeeded) × (out.rows_written ≡ some rows))
      × IsRewritten id out r r'
unfolding succeed
succeed_lem id rows now r row g runs =
    let (r', done, frame) = (finish_lem (success rows) now id r).0 row g in
    (settle (success rows) now row, r', done, unfold settle finished in rw runs (refl, refl), frame)

module _ (message : Error → String) (moment succeeded_at failed_at clock : ℕ) (worker : String)
    (p : WorkerPool) where
  -- the pool once a task that was executed has failed
  abbrev pub gave_up : String → Repo → WorkerPool
  gave_up error r = record p {
    repo = r;
    health = record p.health {
      last_error = some error;
      executed = p.health.executed + 1;
      last_completed_at = some clock;
    };
  }

  execute_once-unregistered :
      (run : JobRun) (r1 : Repo)
      → claim_next worker moment p.repo ≡ (some run, r1)
      → get_run run.run_id r1 ≡ some run
      → is_running run.status ≡ true
      → Dict.get p.registry run.job_id ≡ none
      → (out : JobRun) × (r' : Repo) × (execute_once message moment succeeded_at failed_at clock
            worker p
          ≡ (
            ok (some out),
            record p {
              repo = r';
              health = record p.health { last_error = some ("任务未注册: " ++ run.job_id) };
            },
          ))
        × IsFailed failed_at ("任务未注册: " ++ run.job_id) run out
        × IsRewritten run.run_id out r1 r'
  unfolding execute_once run_claimed execute task_at
  execute_once-unregistered run r1 claim g runs missing =
      let q : WorkerPool = record p {
        repo = r1;
        health = record p.health { busy = p.health.busy + 1 };
      } in
      let (out, r', done, failed, frame) =
        give_up_lem run.run_id failed_at ("任务未注册: " ++ run.job_id) q run g runs in
      (
        out,
        r',
        rw (claim, run_claimed) (rw (missing, execute) (rw done (rw (free p.health.busy) refl))),
        failed,
        frame,
      )

  module _ (run : JobRun) (r1 r2 : Repo) (spec : TaskSpec) (row : JobRun)
      (claim : claim_next worker moment p.repo ≡ (some run, r1))
      (known : Dict.get p.registry run.job_id ≡ some spec) (g : get_run run.run_id r2 ≡ some row)
      (runs : is_running row.status ≡ true) where
    execute_once-raised :
        (error : String)
        → spec.executor (context_of run) r1 ≡ (raised error, r2)
        → (out : JobRun) × (r' : Repo) × (execute_once message moment succeeded_at failed_at clock
              worker p
            ≡ (ok (some out), gave_up error r'))
          × IsFailed failed_at error row out
          × IsRewritten run.run_id out r2 r'
    unfolding execute_once run_claimed execute task_at settle_run completed
    execute_once-raised error does =
        let q : WorkerPool = record p {
          repo = r2;
          health = record p.health { busy = p.health.busy + 1 };
        } in
        let (out, r', done, failed, frame) = give_up_lem run.run_id failed_at error q row g runs in
        (
          out,
          r',
          rw (claim, run_claimed)
              (rw (known, execute)
                (rw (does, settle_run) (rw done (rw (free p.health.busy) refl)))),
          failed,
          frame,
        )

    execute_once-returned :
        (result : Option ℕ)
        → spec.executor (context_of run) r1 ≡ (returned result, r2)
        → (out : JobRun) × (r' : Repo) × (q : WorkerPool) × (execute_once message moment
              succeeded_at failed_at clock worker p
            ≡ (ok (some out), q))
          × ((out.status ≡ JobStatus.succeeded) × (out.rows_written ≡ some (rows_of result)))
          × IsRewritten run.run_id out r2 r'
          × (q.repo
              ≡ (call_back spec.on_success (context_of run) (rows_of result) (record p {
                repo = r';
                health = record p.health { busy = p.health.busy + 1 };
              })).repo)
    unfolding execute_once run_claimed execute task_at settle_run completed note_succeeded
    execute_once-returned result does =
        let (out, r', done, wrote, frame) =
          succeed_lem run.run_id (rows_of result) succeeded_at r2 row g runs in
        let c =
          call_back spec.on_success (context_of run) (rows_of result)
            (record p { repo = r'; health = record p.health { busy = p.health.busy + 1 } }) in
        (
          out,
          r',
          record c {
            health = record c.health {
              executed = c.health.executed + 1;
              last_completed_at = some clock;
              busy = c.health.busy - 1;
            };
          },
          rw (claim, run_claimed)
              (rw (known, execute) (rw (does, settle_run) (rw (done, note_succeeded) refl))),
          wrote,
          frame,
          refl,
        )

  module _ (v : IsSound p.repo) where
    claimed_running :
        (run : JobRun) (r1 : Repo)
        → claim_next worker moment p.repo ≡ (some run, r1)
        → (get_run run.run_id r1 ≡ some run) × (is_running run.status ≡ true)
    claimed_running run r1 claim =
        let (_, _, _, (runs, _, _), _, frame) =
          (claim_next_lem p.repo v moment worker).0 run r1 claim in
        (frame run.run_id ∙ rw (==-refl run.run_id) refl, ap is_running runs)

    -- Where nothing is claimed, `execute_once` returns `None` and changes nothing. A run whose task is
    -- not registered has failed. Where the task is registered and the run is still running when the
    -- executor ends: if it raises, the run has failed with its error, which the health record gets; if
    -- it returns, the run is stored as succeeded with the rows it wrote, and only then the callback
    -- gets the store. A run that has failed keeps the error and is retried with the next attempt,
    -- `5 * 2 ^ (attempt - 1)` seconds later, while its budget lasts, and else is dead. No other row
    -- changes but by the executor and the callback. The store has to be sound.
    pub execute_once_lem :
        ((r1 : Repo)
          → claim_next worker moment p.repo ≡ (none, r1)
          → execute_once message moment succeeded_at failed_at clock worker p ≡ (ok none, p))
        × ((run : JobRun) (r1 : Repo)
            → claim_next worker moment p.repo ≡ (some run, r1)
            → (Dict.get p.registry run.job_id ≡ none
                → (out : JobRun) × (r' : Repo) × (execute_once message moment succeeded_at failed_at
                      clock worker p
                    ≡ (
                      ok (some out),
                      record p {
                        repo = r';
                        health = record p.health { last_error = some ("任务未注册: " ++ run.job_id) };
                      },
                    ))
                  × IsFailed failed_at ("任务未注册: " ++ run.job_id) run out
                  × IsRewritten run.run_id out r1 r')
              × ((spec : TaskSpec) (r2 : Repo) (row : JobRun)
                  → Dict.get p.registry run.job_id ≡ some spec
                  → get_run run.run_id r2 ≡ some row
                  → is_running row.status ≡ true
                  → ((error : String)
                      → spec.executor (context_of run) r1 ≡ (raised error, r2)
                      → (out : JobRun) × (r' : Repo) × (execute_once message moment succeeded_at
                            failed_at clock worker p
                          ≡ (ok (some out), gave_up error r'))
                        × IsFailed failed_at error row out
                        × IsRewritten run.run_id out r2 r')
                    × ((result : Option ℕ)
                        → spec.executor (context_of run) r1 ≡ (returned result, r2)
                        → (out : JobRun) × (r' : Repo) × (q : WorkerPool) × (execute_once message
                              moment succeeded_at failed_at clock worker p
                            ≡ (ok (some out), q))
                          × ((out.status ≡ JobStatus.succeeded)
                              × (out.rows_written ≡ some (rows_of result)))
                          × IsRewritten run.run_id out r2 r'
                          × (q.repo
                              ≡ (call_back spec.on_success
                                  (context_of run)
                                  (rows_of result)
                                  (record p {
                                    repo = r';
                                    health = record p.health { busy = p.health.busy + 1 };
                                  })).repo))))
    unfolding execute_once run_claimed
    execute_once_lem = (
      λ r1 claim.
          let (same, _) = (claim_next_lem p.repo v moment worker).1 r1 claim in
          rw (claim, run_claimed) (rw same refl),
      λ run r1 claim.
          let (stored, runs) = claimed_running run r1 claim in
          (
            execute_once-unregistered run r1 claim stored runs,
            λ spec r2 row known g running. (
              execute_once-raised run r1 r2 spec row claim known g running,
              execute_once-returned run r1 r2 spec row claim known g running,
            ),
          ),
    )
