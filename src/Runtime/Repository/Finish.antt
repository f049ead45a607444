-- ===== src/Runtime/Repository/Finish.antt =====
-- `succeed`, `fail`, `interrupt` and `interrupt_running` of `InMemoryMetaRepository`
-- (runtime/repository.py): what they write, and what they may not touch.
use fin_data_hub.Prelude.{
  ℕ, ◌+◌, ◌-◌, ◌*◌, ◌^◌, ◌≤◌, ◌<◌, String, ◌≡◌, sym, ap, ◌∙◌, inl, inr, true, false, none, some,
  arith, ◌==◌, nat_eq, if◌then◌else◌, Bool-cases, eqb_iff,
}
use fin_data_hub.Prelude.Dict
use fin_data_hub.Prelude.Dict.{get-put, In-values}
use fin_data_hub.Runtime.Result.{ok, raise, key_error}
use fin_data_hub.Runtime.Models.{JobRun, JobStatus, is_running, second}
use fin_data_hub.Runtime.Repository.State.{Repo}
use fin_data_hub.Runtime.Repository.Runs.{
  Outcome, finished, finish, failure, fail, retry_at, get_run,
}

-- What `_finish` makes of a row: only a running row is rewritten.
unfoldable pub settle : Outcome → ℕ → JobRun → JobRun
settle o now run = if is_running run.status then finished o now run else run

pub finish_lem :
    (o : Outcome) (now id : ℕ) (r : Repo)
    → ((run : JobRun)
        → get_run id r ≡ some run
        → (r' : Repo) × (finish o now id r ≡ ok (settle o now run, r'))
          × ((k : ℕ) → get_run k r' ≡ (if id == k then some (settle o now run) else get_run k r)))
      × (get_run id r ≡ none → finish o now id r ≡ raise key_error)
unfolding get_run finish settle
finish_lem o now id r = (
  λ run g. elim (Bool-cases (is_running run.status)) [
    | inl runs ↦ (
      record r { runs = Dict.put r.runs id (finished o now run) },
      ground arith,
      λ k. rw runs (get-put r.runs id k (finished o now run)),
    )
    | inr done ↦ (
      r,
      ground arith,
      λ k. elim (Bool-cases (id == k)) [
        | inl same ↦ rw (done, same) (ap (Dict.get r.runs) (sym ((eqb_iff id k).0 same)) ∙ g)
        | inr other ↦ rw other
      ],
    )
  ],
  λ g. ground arith,
)

fail_row :
    (id : ℕ) (error : String) (now : ℕ) (r : Repo) (run : JobRun)
    → get_run id r ≡ some run
    → (out : JobRun) × (r' : Repo) × (fail id error now r ≡ ok (out, r'))
      × ((k : ℕ) → get_run k r' ≡ (if id == k then some out else get_run k r))
      × (is_running run.status ≡ false → out ≡ run)
      × (is_running run.status ≡ true
          → run.attempt < run.max_attempts
          → (out.status ≡ JobStatus.retrying)
            × (out.error ≡ some error)
            × (out.attempt ≡ run.attempt + 1)
            × (out.attempt ≤ out.max_attempts)
            × (out.scheduled_at ≡ now + 5 * 2 ^ (run.attempt - 1) * second)
            × (out.finished_at ≡ none))
      × (is_running run.status ≡ true
          → run.max_attempts ≤ run.attempt
          → (out.status ≡ JobStatus.dead)
            × (out.error ≡ some error)
            × (out.attempt ≡ run.attempt)
            × (out.finished_at ≡ some now))
unfolding get_run fail settle finished failure retry_at
fail_row id error now r run g =
    let o = failure error now run in
    let (r', done, frame) = (finish_lem o now id r).0 run g in
    (
      settle o now run,
      r',
      ground (arith, done),
      frame,
      λ idle. ground arith,
      λ runs more. ground arith,
      λ runs spent. ground arith,
    )

fail_unknown :
    (id : ℕ) (error : String) (now : ℕ) (r : Repo)
    → get_run id r ≡ none
    → fail id error now r ≡ raise key_error
unfolding get_run fail
fail_unknown id error now r g = ground arith

-- On an unknown id `fail`, and `_finish` with any outcome, raise `KeyError`. `_finish` rewrites the row
-- of its id if it is running, returns the row that is stored then, and changes no other row. On a
-- running row `fail` stores the error, and retries while the budget lasts, and else gives the run up: a retry counts one
-- more attempt, stays within the budget and is due `5 * 2 ^ (attempt - 1)` seconds from now; a run
-- that is given up is dead and keeps its count. On any other row `fail` changes nothing.
pub fail_lem :
    (id : ℕ) (error : String) (now : ℕ) (r : Repo)
    → (get_run id r ≡ none
        → (fail id error now r ≡ raise key_error)
          × ((o : Outcome) → finish o now id r ≡ raise key_error))
      × ((o : Outcome) (run : JobRun)
          → get_run id r ≡ some run
          → (r' : Repo) × (finish o now id r ≡ ok (settle o now run, r'))
            × ((k : ℕ) → get_run k r' ≡ (if id == k then some (settle o now run) else get_run k r)))
      × ((run : JobRun)
          → get_run id r ≡ some run
          → (out : JobRun) × (r' : Repo) × (fail id error now r ≡ ok (out, r'))
            × ((k : ℕ) → get_run k r' ≡ (if id == k then some out else get_run k r))
            × (is_running run.status ≡ false → out ≡ run)
            × (is_running run.status ≡ true
                → run.attempt < run.max_attempts
                → (out.status ≡ JobStatus.retrying)
                  × (out.error ≡ some error)
                  × (out.attempt ≡ run.attempt + 1)
                  × (out.attempt ≤ out.max_attempts)
                  × (out.scheduled_at ≡ now + 5 * 2 ^ (run.attempt - 1) * second)
                  × (out.finished_at ≡ none))
            × (is_running run.status ≡ true
                → run.max_attempts ≤ run.attempt
                → (out.status ≡ JobStatus.dead)
                  × (out.error ≡ some error)
                  × (out.attempt ≡ run.attempt)
                  × (out.finished_at ≡ some now)))
fail_lem id error now r = (
  λ g. (fail_unknown id error now r g, λ o. (finish_lem o now id r).1 g),
  λ o. (finish_lem o now id r).0,
  fail_row id error now r,
)
