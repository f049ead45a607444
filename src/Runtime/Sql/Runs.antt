-- ===== src/Runtime/Sql/Runs.antt =====
-- The methods of `SqlMetaRepository` (runtime/repository.py) that create, claim and finish runs.
-- `_acquire_scope_lock` and `FOR UPDATE SKIP LOCKED` order the transactions of several processes; each
-- method is one transaction here, but `fail`, which reads its row in one and finishes it in another: it
-- is modelled with nothing between the two. `now` is what `utcnow()` returns in the method.
use Prim.Native.String.{◌++◌ as append_text}
use fin_data_hub.Prelude.{
  ℕ, ◌+◌, String, Bool, true, false, ◌&&◌, not, List, Option, none, some, ◌==◌, nat_eq, string_eq,
  if◌then◌else◌, ltb, leb, filter, any, count,
}
use fin_data_hub.Prelude.Sort.{sorted, head?}
use fin_data_hub.Runtime.Result.{Result, ok, raise, key_error, ◌>>=◌}
use fin_data_hub.Runtime.Models.{JobStatus, is_claimable, is_running, JobIntent, JobRun}
use fin_data_hub.Runtime.Keys.{Payload, job_key}
use fin_data_hub.Runtime.Repository.Runs.{
  is_live, payload_of, new_run, claims_first, or_else, retry_at,
}
use fin_data_hub.Runtime.Sql.Table.{one, one_or_none}
use fin_data_hub.Runtime.Sql.Database.{Engine, Db}

-- `exists` of the subquery `scope_busy`
unfoldable pub scope_busy : List JobRun → JobRun → Bool
scope_busy rows run =
    any
      (λ running.
        running.dataset == run.dataset && running.scope == run.scope && is_running running.status)
      rows

-- the WHERE clause of `claim_next`
unfoldable pub can_claim : List JobRun → ℕ → JobRun → Bool
unfolding scope_busy
can_claim rows moment run =
    is_claimable run.status && leb run.scheduled_at moment && not (scope_busy rows run)

abbrev pub set_claimed : String → ℕ → JobRun → JobRun
set_claimed worker moment run = record run {
  status = JobStatus.running;
  worker = some worker;
  started_at = some moment;
}

-- `values` of `_finish`
pub record Values : Type 0 where
  pub status : JobStatus
  pub rows_written : Option ℕ
  pub error : Option String
  pub attempt : Option ℕ
  pub scheduled_at : Option ℕ
  pub finished : Bool

unfoldable pub set_values : Values → ℕ → JobRun → JobRun
set_values v now run = record run {
  status = v.status;
  rows_written = v.rows_written;
  error = v.error;
  finished_at = if v.finished then some now else none;
  attempt = or_else v.attempt run.attempt;
  scheduled_at = or_else v.scheduled_at run.scheduled_at;
}

-- the arguments that `succeed`, `fail` and `interrupt` give `_finish`
unfoldable pub success_values : ℕ → Values
success_values rows_written = record {
  status = JobStatus.succeeded;
  rows_written = some rows_written;
  error = none;
  attempt = none;
  scheduled_at = none;
  finished = true;
}

unfoldable pub failure_values : String → ℕ → JobRun → Values
unfolding retry_at
failure_values error now run =
    if ltb run.attempt run.max_attempts
    then record {
      status = JobStatus.retrying;
      rows_written = none;
      error = some error;
      attempt = some (run.attempt + 1);
      scheduled_at = some (retry_at now run);
      finished = false;
    }
    else record {
      status = JobStatus.dead;
      rows_written = none;
      error = some error;
      attempt = none;
      scheduled_at = none;
      finished = true;
    }

unfoldable pub interruption_values : String → Values
interruption_values reason = record {
  status = JobStatus.interrupted;
  rows_written = none;
  error = some reason;
  attempt = none;
  scheduled_at = none;
  finished = true;
}

-- `column.like(pattern)`, which a NULL never satisfies
abbrev pub like_column : (String → String → Bool) → String → Option String → Bool
like_column like pattern none = false
like_column like pattern (some text) = like text pattern

module _ (e : Engine) where
  -- `select(job_runs)`, and `select(job_runs).where(run_id == id)`
  abbrev pub rows : Db e → List JobRun
  rows db = e.job_runs.rows db.runs

  abbrev pub rows_of : ℕ → Db e → List JobRun
  rows_of id db = filter (λ run. run.run_id == id) (rows db)

  -- INSERT with the next id, then SELECT of the row
  unfoldable pub insert_row :
      String → JobIntent → Option String → ℕ → Db e → Result (Option JobRun × Db e)
  insert_row key intent request_id now db = do
    s ← e.job_runs.insert (new_run (e.next_id db.sequence) key intent request_id now) db.runs
    let db' : Db e = record db { runs = s; sequence = e.advance db.sequence }
    row ← one (rows_of (e.next_id db.sequence) db')
    ok (some row, db')

  -- the transaction of `create_run`
  unfoldable pub insert_unless_live :
      String → JobIntent → Option String → ℕ → Db e → Result (Option JobRun × Db e)
  unfolding insert_row
  insert_unless_live key intent request_id now db =
      if any (λ run. is_live run.status) (filter (λ run. run.job_key == key) (rows db))
      then ok (none, db)
      else insert_row key intent request_id now db

  unfoldable pub create_run :
      (Payload → String) → JobIntent → Option String → ℕ → Db e → Result (Option JobRun × Db e)
  unfolding insert_unless_live
  create_run digest intent request_id now db = do
    key ← job_key digest (payload_of intent)
    insert_unless_live key intent request_id now db

  -- ORDER BY priority, run_id LIMIT 1
  unfoldable pub candidate : ℕ → Db e → Option JobRun
  unfolding can_claim
  candidate moment db = head? (sorted claims_first (filter (can_claim (rows db) moment) (rows db)))

  unfoldable pub update_claimed : String → ℕ → Option JobRun → Db e → Result (Option JobRun × Db e)
  update_claimed worker moment none db = ok (none, db)
  update_claimed worker moment (some run) db = do
    let db' : Db e = record db {
      runs =
          e.job_runs.update (λ row. row.run_id == run.run_id && is_claimable row.status)
            (set_claimed worker moment) db.runs;
    }
    row ← one (rows_of run.run_id db')
    ok (some row, db')

  unfoldable pub claim_next : String → ℕ → Db e → Result (Option JobRun × Db e)
  unfolding candidate update_claimed
  claim_next worker moment db = update_claimed worker moment (candidate moment db) db

  -- `_finish`
  unfoldable pub finish : Values → ℕ → ℕ → Db e → Result (JobRun × Db e)
  unfolding set_values
  finish v now id db = do
    let db' : Db e = record db {
      runs =
          e.job_runs.update (λ row. row.run_id == id && is_running row.status) (set_values v now)
            db.runs;
    }
    row ← one (rows_of id db')
    ok (row, db')

  unfoldable pub succeed : ℕ → ℕ → ℕ → Db e → Result (JobRun × Db e)
  unfolding success_values finish
  succeed id rows_written now db = finish (success_values rows_written) now id db

  unfoldable pub get_run : ℕ → Db e → Result (Option JobRun)
  get_run id db = one_or_none (rows_of id db)

  unfoldable pub found_run : Option JobRun → Result JobRun
  found_run none = raise key_error
  found_run (some run) = ok run

  unfoldable pub fail : ℕ → String → ℕ → Db e → Result (JobRun × Db e)
  unfolding get_run found_run failure_values finish
  fail id error now db = do
    found ← get_run id db
    run ← found_run found
    finish (failure_values error now run) now id db

  unfoldable pub interrupt : ℕ → String → ℕ → Db e → Result (JobRun × Db e)
  unfolding interruption_values finish
  interrupt id reason now db = finish (interruption_values reason) now id db

  abbrev pub runs_under : String → JobRun → Bool
  runs_under prefix row =
      is_running row.status && like_column e.like (append_text prefix "%") row.worker

  -- one UPDATE; the rows that it matched are counted
  unfoldable pub interrupt_running : String → ℕ → Db e → ℕ × Db e
  interrupt_running prefix now db = (
    count (runs_under prefix) (rows db),
    record db {
      runs =
          e.job_runs.update (runs_under prefix)
            (λ row. record row {
              status = JobStatus.interrupted;
              error = some "停机超时";
              finished_at = some now;
            })
            db.runs;
    },
  )
