-- ===== src/Runtime/Repository/Steps.antt =====
-- Every interleaving of the methods of `InMemoryMetaRepository` by any number of threads: each method
-- runs under the lock, so a history is a sequence of whole calls.
use fin_data_hub.Prelude.{ℕ, String, ◌≡◌, refl, Option, List, arith}
use fin_data_hub.Prelude.Dict
use fin_data_hub.Runtime.Result.{Result, ok, raise}
use fin_data_hub.Runtime.Models.{JobDef, JobDependency, JobIntent, JobRun, Watermark}
use fin_data_hub.Runtime.Keys.{Payload, job_key}
use fin_data_hub.Runtime.Repository.State.{Repo, init, sync_defs, sync_dependencies}
use fin_data_hub.Runtime.Repository.Runs.{
  create_run, payload_of, insert_run, claim_next, succeed, fail, interrupt, interrupt_running,
}
use fin_data_hub.Runtime.Repository.Marks.{set_watermark, advance_watermark}
use fin_data_hub.Runtime.Repository.Watermarks.{advance_keeps_runs}
use fin_data_hub.Runtime.Repository.Preserve.{
  IsSound, insert_run-IsSound, claim_next-IsSound, succeed-IsSound, fail-IsSound, interrupt-IsSound,
  interrupt_all-IsSound,
}

module _ (digest : Payload → String) where
  -- One call of a method, with any arguments and at any time.
  pub data Step (r r' : Repo) : Type 0 where
    creates :
        (intent : JobIntent) (request_id : Option String) (now : ℕ) (run : Option JobRun)
        → create_run digest intent request_id now r ≡ ok (run, r')
        → Step r r'
    claims :
        (worker : String) (moment : ℕ) (run : Option JobRun)
        → claim_next worker moment r ≡ (run, r')
        → Step r r'
    succeeds : (id rows now : ℕ) (run : JobRun) → succeed id rows now r ≡ ok (run, r') → Step r r'
    fails :
        (id : ℕ) (error : String) (now : ℕ) (run : JobRun)
        → fail id error now r ≡ ok (run, r')
        → Step r r'
    interrupts :
        (id : ℕ) (reason : String) (now : ℕ) (run : JobRun)
        → interrupt id reason now r ≡ ok (run, r')
        → Step r r'
    reclaims :
        (prefix : String) (now n : ℕ) → interrupt_running prefix now r ≡ ok (n, r') → Step r r'
    mirrors_defs : (defs : List JobDef) → sync_defs defs r ≡ r' → Step r r'
    mirrors_deps : (deps : List JobDependency) → sync_dependencies deps r ≡ r' → Step r r'
    sets_mark :
        (dataset scope : String) (time : ℕ) (mark : Watermark)
        → set_watermark dataset scope time r ≡ (mark, r')
        → Step r r'
    advances_mark :
        (dataset scope : String) (time : ℕ) (mark : Watermark)
        → advance_watermark dataset scope time r ≡ (mark, r')
        → Step r r'

  pub data Reach (r : Repo) : Repo → Type 0 where
    here : Reach r r
    next : {s t : Repo} → Reach r s → Step s t → Reach r t

  create_run-IsSound :
      (r : Repo)
      → IsSound r
      → (intent : JobIntent) (request_id : Option String) (now : ℕ) (run : Option JobRun)
        (r' : Repo)
      → create_run digest intent request_id now r ≡ ok (run, r')
      → IsSound r'
  unfolding create_run
  create_run-IsSound r v intent request_id now run r' h =
      from (job_key digest (payload_of intent)) refl
    where
      from : (key : Result String) → job_key digest (payload_of intent) ≡ key → IsSound r'
      from (raise e) p = absurd (ground arith)
      from (ok key) p =
          let q : (insert_run key intent request_id now r).1 ≡ r' = ground arith in
          rw (← q) (insert_run-IsSound r v key intent request_id now)

  pub Step-IsSound : (r r' : Repo) → Step r r' → IsSound r → IsSound r'
  unfolding sync_defs sync_dependencies set_watermark advance_watermark interrupt_running
  Step-IsSound r r' (creates intent req now run h) v =
      create_run-IsSound r v intent req now run r' h
  Step-IsSound r r' (claims worker moment run h) v =
      let q : (claim_next worker moment r).1 ≡ r' = ground arith in
      rw (← q) (claim_next-IsSound r v worker moment)
  Step-IsSound r r' (succeeds id rows now run h) v = succeed-IsSound r v id rows now run r' h
  Step-IsSound r r' (fails id error now run h) v = fail-IsSound r v id error now run r' h
  Step-IsSound r r' (interrupts id reason now run h) v =
      interrupt-IsSound r v id reason now run r' h
  Step-IsSound r r' (reclaims prefix now n h) v = interrupt_all-IsSound prefix now _ 0 r v n r' h
  Step-IsSound r r' (mirrors_defs defs h) v = rw (← h) v
  Step-IsSound r r' (mirrors_deps deps h) v = rw (← h) v
  Step-IsSound r r' (sets_mark dataset scope time mark h) v =
      let q : (set_watermark dataset scope time r).1 ≡ r' = ground arith in rw (← q) v
  Step-IsSound r r' (advances_mark dataset scope time mark h) v =
      let q : (advance_watermark dataset scope time r).1 ≡ r' = ground arith in
      let (same, ids) = advance_keeps_runs dataset scope time r in rw (← q, same, ids) v

  init-IsSound : IsSound init
  unfolding Dict.get
  init-IsSound = record {
    dict = tt;
    keyed = λ k a h. absurd (ground arith);
    below = λ k a h. absurd (ground arith);
    budget = λ k a h. absurd (ground arith);
    exclusive = λ j k a b h. absurd (ground arith);
    single = λ j k a b h. absurd (ground arith);
  }

  -- In every history from an empty store, whatever the calls, their arguments, their order and the
  -- clock: ids are unique and handed out once, each row is stored under its own id, attempts stay
  -- within the budget, a dataset and scope has at most one running row, and an idempotency key has
  -- at most one row that is queued, retrying, running or succeeded.
  pub Reach-IsSound : {r : Repo} → Reach init r → IsSound r
  Reach-IsSound here = init-IsSound
  Reach-IsSound (next h s) = Step-IsSound _ _ s (Reach-IsSound h)
