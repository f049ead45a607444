-- ===== src/Runtime/Repository/Runs.antt =====
-- The methods of `InMemoryMetaRepository` (runtime/repository.py) that create, claim and finish runs.
-- Each holds the lock from its first read to its last write, so it is one function from the store to
-- the store and its result. `now` is what `utcnow()` returns in the method, and `digest` the hash of
-- keys.py.
use fin_data_hub.Prelude.{
  ℕ, ◌+◌, ◌-◌, ◌*◌, ◌^◌, String, Bool, true, false, ◌&&◌, ◌||◌, not, List, [], ◌∷◌, Option, none,
  some, ◌==◌, nat_eq, string_eq, pair_eq, option_eq, if◌then◌else◌, ltb, leb, filter, any,
}
use fin_data_hub.Prelude.Text.{starts_with}
use fin_data_hub.Prelude.Dict
use fin_data_hub.Prelude.Dict.{Dict}
use fin_data_hub.Prelude.Sort.{sorted, head?}
use fin_data_hub.Runtime.Result.{Result, ok, raise, key_error, ◌>>=◌}
use fin_data_hub.Runtime.Models.{
  JobStatus, is_claimable, is_running, is_succeeded, JobIntent, JobRun, second,
}
use fin_data_hub.Runtime.Keys.{Payload, job_key}
use fin_data_hub.Runtime.Repository.State.{Repo}

-- the statuses that make `create_run` refuse a second run of one key
unfoldable pub is_live : JobStatus → Bool
unfolding is_claimable
is_live s = is_claimable s || is_running s || is_succeeded s

abbrev pub payload_of : JobIntent → Payload
payload_of intent = record {
  kind = intent.kind;
  job_id = intent.job_id;
  scope = intent.scope;
  window_start = intent.window_start;
  window_end = intent.window_end;
  version_dimension = intent.version_dimension;
}

-- the row that `create_run` builds
unfoldable pub new_run : ℕ → String → JobIntent → Option String → ℕ → JobRun
new_run id key intent request_id now = record {
  run_id = id;
  job_key = key;
  job_id = intent.job_id;
  kind = intent.kind;
  dataset = intent.dataset;
  scope = intent.scope;
  status = JobStatus.queued;
  attempt = 1;
  max_attempts = intent.max_attempts;
  priority = intent.priority;
  scheduled_at = now;
  window_start = intent.window_start;
  window_end = intent.window_end;
  version_dimension = intent.version_dimension;
  started_at = none;
  finished_at = none;
  rows_written = none;
  error = none;
  request_id = request_id;
  worker = none;
}

abbrev pub holds_key : String → JobRun → Bool
holds_key key run = run.job_key == key && is_live run.status

-- the part of `create_run` under the lock
unfoldable pub insert_run : String → JobIntent → Option String → ℕ → Repo → Option JobRun × Repo
unfolding new_run
insert_run key intent request_id now r =
    let run = new_run r.next_run_id key intent request_id now in
    if any (holds_key key) (Dict.values r.runs) then (none, r) else (
      some run,
      record r { runs = Dict.put r.runs r.next_run_id run; next_run_id = r.next_run_id + 1 },
    )

unfoldable pub create_run :
    (Payload → String) → JobIntent → Option String → ℕ → Repo → Result (Option JobRun × Repo)
create_run digest intent request_id now r = do
  key ← job_key digest (payload_of intent)
  ok (insert_run key intent request_id now r)

-- `(run.dataset, run.scope)`
abbrev pub slot : JobRun → String × String
slot run = (run.dataset, run.scope)

abbrev pub occupies : String × String → JobRun → Bool
occupies s run = is_running run.status && slot run == s

-- the condition of the generator in `claim_next`
unfoldable pub is_candidate : List JobRun → ℕ → JobRun → Bool
is_candidate rows moment run =
    is_claimable run.status && leb run.scheduled_at moment && not (any (occupies (slot run)) rows)

-- `(a.priority, a.run_id) <= (b.priority, b.run_id)`
unfoldable pub claims_first : JobRun → JobRun → Bool
claims_first a b = ltb a.priority b.priority || (a.priority == b.priority && leb a.run_id b.run_id)

unfoldable pub candidates : List JobRun → ℕ → List JobRun
candidates rows moment = sorted claims_first (filter (is_candidate rows moment) rows)

unfoldable pub claimed : String → ℕ → JobRun → JobRun
claimed worker moment run = record run {
  status = JobStatus.running;
  started_at = some moment;
  worker = some worker;
}

unfoldable pub take_run : String → ℕ → Option JobRun → Repo → Option JobRun × Repo
unfolding claimed
take_run worker moment none r = (none, r)
take_run worker moment (some run) r = (
  some (claimed worker moment run),
  record r { runs = Dict.put r.runs run.run_id (claimed worker moment run) },
)

unfoldable pub claim_next : String → ℕ → Repo → Option JobRun × Repo
unfolding take_run
claim_next worker moment r =
    take_run worker moment (head? (candidates (Dict.values r.runs) moment)) r

-- what `_finish` is asked to write
pub record Outcome : Type 0 where
  pub status : JobStatus
  pub rows_written : Option ℕ
  pub error : Option String
  pub attempt : Option ℕ
  pub scheduled_at : Option ℕ

abbrev pub or_else {ℓ} : {A : Type ℓ} → Option A → A → A
or_else none a = a
or_else (some b) a = b

abbrev pub is_retrying : JobStatus → Bool
is_retrying JobStatus.retrying = true
is_retrying _ = false

unfoldable pub finished : Outcome → ℕ → JobRun → JobRun
finished o now run = record run {
  status = o.status;
  rows_written = o.rows_written;
  error = o.error;
  attempt = or_else o.attempt run.attempt;
  scheduled_at = or_else o.scheduled_at run.scheduled_at;
  finished_at = if is_retrying o.status then none else some now;
}

-- `_finish` on the row that is read under `run_id`
unfoldable pub finish_row : Outcome → ℕ → ℕ → JobRun → Repo → JobRun × Repo
unfolding finished
finish_row o now id run r =
    if is_running run.status
    then (finished o now run, record r { runs = Dict.put r.runs id (finished o now run) })
    else (run, r)

-- `self._runs[run_id]`
unfoldable pub row_at : ℕ → Repo → Result JobRun
row_at id r = elim (Dict.get r.runs id) [ none ↦ raise key_error | some run ↦ ok run ]

unfoldable pub finish : Outcome → ℕ → ℕ → Repo → Result (JobRun × Repo)
unfolding row_at finish_row
finish o now id r = do run ← row_at id r; ok (finish_row o now id run r)

abbrev pub success : ℕ → Outcome
success rows_written = record {
  status = JobStatus.succeeded;
  rows_written = some rows_written;
  error = none;
  attempt = none;
  scheduled_at = none;
}

unfoldable pub succeed : ℕ → ℕ → ℕ → Repo → Result (JobRun × Repo)
unfolding finish
succeed id rows_written now r = finish (success rows_written) now id r

-- `RETRY_BACKOFF_SECONDS`
abbrev pub retry_backoff_seconds : ℕ
retry_backoff_seconds = 5

-- when the next attempt is due: `utcnow()` plus `base * 2 ** (attempt - 1)` seconds
unfoldable pub retry_at : ℕ → JobRun → ℕ
retry_at now run = now + retry_backoff_seconds * 2 ^ (run.attempt - 1) * second

unfoldable pub failure : String → ℕ → JobRun → Outcome
unfolding retry_at
failure error now run =
    if ltb run.attempt run.max_attempts
    then record {
      status = JobStatus.retrying;
      rows_written = none;
      error = some error;
      attempt = some (run.attempt + 1);
      scheduled_at = some (retry_at now run);
    }
    else record {
      status = JobStatus.dead;
      rows_written = none;
      error = some error;
      attempt = none;
      scheduled_at = none;
    }

unfoldable pub fail : ℕ → String → ℕ → Repo → Result (JobRun × Repo)
unfolding row_at failure finish
fail id error now r = do run ← row_at id r; finish (failure error now run) now id r

abbrev pub interruption : String → Outcome
interruption reason = record {
  status = JobStatus.interrupted;
  rows_written = none;
  error = some reason;
  attempt = none;
  scheduled_at = none;
}

unfoldable pub interrupt : ℕ → String → ℕ → Repo → Result (JobRun × Repo)
unfolding finish
interrupt id reason now r = finish (interruption reason) now id r

-- `(run.worker or "").startswith(worker_prefix)` on a running row
unfoldable pub belongs_to : String → JobRun → Bool
belongs_to prefix run = is_running run.status && starts_with (or_else run.worker "") prefix

-- the loop of `interrupt_running` over a snapshot of the rows
unfoldable pub interrupt_all : String → ℕ → List JobRun → ℕ → Repo → Result (ℕ × Repo)
unfolding interrupt
interrupt_all prefix now [] n r = ok (n, r)
interrupt_all prefix now (run ∷ rows) n r =
    let rest = interrupt_all prefix now rows in
    if belongs_to prefix run
    then (do (_, r') ← interrupt run.run_id "停机超时" now r; rest (n + 1) r')
    else rest n r

unfoldable pub interrupt_running : String → ℕ → Repo → Result (ℕ × Repo)
unfolding interrupt_all
interrupt_running prefix now r = interrupt_all prefix now (Dict.values r.runs) 0 r

unfoldable pub get_run : ℕ → Repo → Option JobRun
get_run id r = Dict.get r.runs id
