-- ===== src/Runtime/Dispatcher.antt =====
-- src/fin_data_platform/runtime/roles.py, `Dispatcher`: backpressure, dependency gate and idempotent
-- creation. `clock` is what the dispatcher's clock returns, `now` what `utcnow()` does in the store.
use fin_data_hub.Prelude.{
  ℕ, ◌+◌, ◌≤◌, ◌<◌, String, ◌≡◌, refl, inl, inr, true, false, Option, none, some, [], ◌∷◌, arith,
  if◌then◌else◌, leb, Bool-cases, count, count-append, any, not,
}
use fin_data_hub.Prelude.Dict
use fin_data_hub.Prelude.Dict.{values-put_fresh}
use fin_data_hub.Runtime.Result.{Result, ok, raise, ◌>>=◌}
use fin_data_hub.Runtime.Models.{JobIntent, JobRun, is_claimable}
use fin_data_hub.Runtime.Keys.{Payload, job_key}
use fin_data_hub.Runtime.Repository.State.{Repo}
use fin_data_hub.Runtime.Repository.Runs.{create_run, insert_run, payload_of, new_run, holds_key}
use fin_data_hub.Runtime.Repository.Queries.{Target, count_queued, parents_ready}
use fin_data_hub.Runtime.Repository.Invariant.{fresh_id}
use fin_data_hub.Runtime.Repository.Preserve.{IsSound}

-- `SUBMIT_CREATED` and the other results
pub data Submitted : Type 0 where
  created duplicate dependency backpressure : Submitted

pub record DispatcherHealth : Type 0 where
  pub last_dispatch_at : Option ℕ
  pub created : ℕ
  pub duplicate : ℕ
  pub dependency_blocked : ℕ
  pub backpressure_blocked : ℕ

pub record Dispatcher : Type 0 where
  pub repo : Repo
  pub max_queued : ℕ
  pub health : DispatcherHealth

abbrev pub target_of : JobIntent → Target
target_of intent = record {
  child_job = intent.job_id;
  scope = intent.scope;
  window_start = intent.window_start;
  window_end = intent.window_end;
}

-- the end of `submit`, on what `create_run` returned
unfoldable pub note_created : ℕ → Dispatcher → Option JobRun × Repo → Submitted × Dispatcher
note_created clock d (none, r) = (
  Submitted.duplicate,
  record d {
    repo = r;
    health = record d.health { last_dispatch_at = some clock; duplicate = d.health.duplicate + 1 };
  },
)
note_created clock d (some run, r) = (
  Submitted.created,
  record d {
    repo = r;
    health = record d.health { last_dispatch_at = some clock; created = d.health.created + 1 };
  },
)

unfoldable pub submit :
    (Payload → String) → JobIntent → ℕ → ℕ → Dispatcher → Result (Submitted × Dispatcher)
unfolding note_created
submit digest intent clock now d =
    if leb d.max_queued (count_queued d.repo)
    then ok (
      Submitted.backpressure,
      record d {
        health = record d.health {
          last_dispatch_at = some clock;
          backpressure_blocked = d.health.backpressure_blocked + 1;
        };
      },
    )
    else if not (parents_ready (target_of intent) d.repo)
    then ok (
      Submitted.dependency,
      record d {
        health = record d.health {
          last_dispatch_at = some clock;
          dependency_blocked = d.health.dependency_blocked + 1;
        };
      },
    )
    else (do made ← create_run digest intent none now d.repo; ok (note_created clock d made))

-- the number of submissions that the health record has counted
abbrev pub counted : DispatcherHealth → ℕ
counted h = h.created + h.duplicate + h.dependency_blocked + h.backpressure_blocked

module _ (digest : Payload → String) (intent : JobIntent) (clock now : ℕ) (d : Dispatcher) where
  submit_answer :
      (s : Submitted) (d' : Dispatcher)
      → submit digest intent clock now d ≡ ok (s, d')
      → (s ≡ Submitted.backpressure → (d.max_queued ≤ count_queued d.repo) × (d'.repo ≡ d.repo))
        × (s ≡ Submitted.dependency
            → (count_queued d.repo < d.max_queued)
              × (parents_ready (target_of intent) d.repo ≡ false)
              × (d'.repo ≡ d.repo))
        × (s ≡ Submitted.duplicate
            → (count_queued d.repo < d.max_queued)
              × (parents_ready (target_of intent) d.repo ≡ true)
              × (create_run digest intent none now d.repo ≡ ok (none, d'.repo)))
        × (s ≡ Submitted.created
            → (count_queued d.repo < d.max_queued)
              × (parents_ready (target_of intent) d.repo ≡ true)
              × (run : JobRun) × (create_run digest intent none now d.repo
                  ≡ ok (some run, d'.repo)))
        × (counted d'.health ≡ counted d.health + 1)
        × (d'.max_queued ≡ d.max_queued)
  unfolding submit
  submit_answer s d' h = (
    λ e. ground arith,
    λ e. ground arith,
    λ e. ground arith,
    λ e.
        let made = created_run (create_run digest intent none now d.repo) refl e in
        (ground arith, ground arith, made.0, made.1),
    ground arith,
    ground arith,
  )
    where
      created_run :
          (made : Result (Option JobRun × Repo))
          → create_run digest intent none now d.repo ≡ made
          → s ≡ Submitted.created
          → (run : JobRun) × (create_run digest intent none now d.repo ≡ ok (some run, d'.repo))
      created_run (raise x) p e = absurd (ground arith)
      created_run (ok (none, r)) p e = absurd (ground arith)
      created_run (ok (some run, r)) p e = (run, ground arith)

-- Creating a run puts at most one more row in the queue.
insert_run_queue :
    (key : String) (intent : JobIntent) (now : ℕ) (r : Repo)
    → IsSound r
    → count_queued (insert_run key intent none now r).1 ≤ count_queued r + 1
unfolding insert_run count_queued count
insert_run_queue key intent now r v = elim (Bool-cases (any (holds_key key) (Dict.values r.runs))) [
  | inl taken ↦ rw taken (omega arith)
  | inr free ↦
      let new = new_run r.next_run_id key intent none now in
      let waits = λ (run : JobRun). is_claimable run.status in
      rw
        (
          free,
          values-put_fresh r.runs r.next_run_id new (fresh_id v),
          count-append waits (Dict.values r.runs) (new ∷ []),
        )
        (unfold is_claimable in ground arith)
]

-- `submit` does not put the queue above its limit.
submit_queue_bound :
    (digest : Payload → String) (intent : JobIntent) (clock now : ℕ) (d : Dispatcher)
    → IsSound d.repo
    → count_queued d.repo ≤ d.max_queued
    → (s : Submitted) (d' : Dispatcher) → submit digest intent clock now d ≡ ok (s, d')
    → count_queued d'.repo ≤ d'.max_queued
unfolding submit create_run
submit_queue_bound digest intent clock now d v fits s d' h =
    from (job_key digest (payload_of intent)) refl
  where
    from :
        (key : Result String)
        → job_key digest (payload_of intent) ≡ key
        → count_queued d'.repo ≤ d'.max_queued
    from (raise e) p = ground arith
    from (ok key) p =
        step (insert_run key intent none now d.repo) refl (insert_run_queue key intent now d.repo v)
      where
        step :
            (made : Option JobRun × Repo)
            → insert_run key intent none now d.repo ≡ made
            → count_queued made.1 ≤ count_queued d.repo + 1
            → count_queued d'.repo ≤ d'.max_queued
        step (none, r) q bound = ground arith
        step (some run, r) q bound = ground arith

-- Each answer tells what the store said. A full queue is refused before anything is read or written;
-- an intent whose parents are not ready leaves the store as it was, and so does a duplicate; only a
-- free place, ready parents and a new row give `created`. Each submission is counted once. And in a
-- sound store the queue does not get longer than its limit.
pub submit_lem :
    (digest : Payload → String) (intent : JobIntent) (clock now : ℕ) (d : Dispatcher)
    → IsSound d.repo
    → (s : Submitted) (d' : Dispatcher) → submit digest intent clock now d ≡ ok (s, d')
    → (s ≡ Submitted.backpressure → (d.max_queued ≤ count_queued d.repo) × (d'.repo ≡ d.repo))
      × (s ≡ Submitted.dependency
          → (count_queued d.repo < d.max_queued)
            × (parents_ready (target_of intent) d.repo ≡ false)
            × (d'.repo ≡ d.repo))
      × (s ≡ Submitted.duplicate
          → (count_queued d.repo < d.max_queued)
            × (parents_ready (target_of intent) d.repo ≡ true)
            × (create_run digest intent none now d.repo ≡ ok (none, d'.repo)))
      × (s ≡ Submitted.created
          → (count_queued d.repo < d.max_queued)
            × (parents_ready (target_of intent) d.repo ≡ true)
            × (run : JobRun) × (create_run digest intent none now d.repo ≡ ok (some run, d'.repo)))
      × ((counted d'.health ≡ counted d.health + 1) × (d'.max_queued ≡ d.max_queued))
      × (count_queued d.repo ≤ d.max_queued → count_queued d'.repo ≤ d'.max_queued)
submit_lem digest intent clock now d v s d' h =
    let (full, waits, twice, made, once, limit) = submit_answer digest intent clock now d s d' h in
    (
      full,
      waits,
      twice,
      made,
      (once, limit),
      λ fits. submit_queue_bound digest intent clock now d v fits s d' h,
    )
