-- ===== src/Runtime/Tests.antt =====
-- The runtime's theorems at concrete stores: one job, created, claimed, failed and finished.
use Prim.Native.String.{◌++◌ as str_append}
use fin_data_hub.Prelude.{
  ℕ, ◌+◌, ◌*◌, ◌^◌, ◌≤◌, ◌<◌, ◌-◌, String, ◌≡◌, refl, Bool, true, false, Option, none, some, List,
  [], ◌∷◌, arith, ◌⊎◌, inl, ◌↔◌, ◌==◌, nat_eq, string_eq, if◌then◌else◌, count, any, filter, all,
  In,
}
use fin_data_hub.Prelude.Dict
use fin_data_hub.Prelude.Dict.{Dict}
use fin_data_hub.Prelude.Sort.{sorted}
use fin_data_hub.Prelude.Text.{starts_with}
use fin_data_hub.Runtime.Result.{ok, raise, key_error, value_error}
use fin_data_hub.Runtime.Models.{
  JobIntent, JobRun, JobStatus, JobDependency, DependencyCondition, is_claimable, is_running,
  is_terminal, date_of, time_of, Watermark, second,
}
use fin_data_hub.Runtime.Keys.{Payload, job_key, is_versioned, is_given}
use fin_data_hub.Runtime.Repository.State.{Repo, init}
use fin_data_hub.Runtime.Repository.Runs.{
  Outcome, create_run, insert_run, payload_of, new_run, claim_next, candidates, is_candidate,
  claims_first, claimed, is_live, fail, finish, finished, get_run, interrupt_running, belongs_to,
  interruption,
}
use fin_data_hub.Runtime.Repository.Queries.{
  Target, parents_ready, count_queued, is_match, released,
}
use fin_data_hub.Runtime.Repository.Marks.{get_watermark, advance_watermark, mark_at}
use fin_data_hub.Runtime.Repository.Preserve.{IsSound}
use fin_data_hub.Runtime.Repository.Steps.{Reach, here, next, creates, claims, Reach-IsSound}
use fin_data_hub.Runtime.Repository.Claim.{IsReady, IsBefore, claim_next_lem}
use fin_data_hub.Runtime.Repository.Create.{HasLive, create_run_lem}
use fin_data_hub.Runtime.Repository.Finish.{settle, fail_lem}
use fin_data_hub.Runtime.Repository.Terminal.{Step-IsDone}
use fin_data_hub.Runtime.Repository.Reclaim.{interrupt_running_lem}
use fin_data_hub.Runtime.Repository.Ready.{IsParentRun, Meets, parents_ready_iff}
use fin_data_hub.Runtime.Repository.Watermarks.{reached, latest, advance_all, advance_all_lem}
use fin_data_hub.Runtime.Dispatcher.{Dispatcher, Submitted, target_of, counted, submit, submit_lem}
use fin_data_hub.Runtime.Windows.{
  HubTradeCalendar, load, closed_end, last_closed, after_mark, due_windows, provide, provide_lem,
}

program : Unit {0}
unfolding create_run insert_run job_key claim_next candidates is_candidate claims_first is_live fail
    submit parents_ready count_queued released is_match get_run any all filter count sorted Dict.get
    Dict.put Dict.values is_claimable is_terminal last_closed load due_windows get_watermark
    advance_watermark interrupt_running belongs_to starts_with
program = tt

abbrev pub digest : Payload → String
digest p = p.job_id

abbrev pub intent : JobIntent
intent = record {
  kind = "sync";
  job_id = "sync.bars";
  dataset = "bars";
  scope = "600000.SH";
  window_start = some 10;
  window_end = some 12;
  version_dimension = none;
  priority = 100;
  max_attempts = 3;
}

abbrev pub queued_run : JobRun
queued_run = record {
  run_id = 1;
  job_key = "sync.bars";
  job_id = "sync.bars";
  kind = "sync";
  dataset = "bars";
  scope = "600000.SH";
  status = JobStatus.queued;
  attempt = 1;
  max_attempts = 3;
  priority = 100;
  scheduled_at = 5;
  window_start = some 10;
  window_end = some 12;
  version_dimension = none;
  started_at = none;
  finished_at = none;
  rows_written = none;
  error = none;
  request_id = none;
  worker = none;
}

abbrev pub running_run : JobRun
running_run = record queued_run {
  status = JobStatus.running;
  started_at = some 9;
  worker = some "worker-123-0";
}

abbrev dead_run : JobRun
dead_run = record queued_run { status = JobStatus.dead }

abbrev pub one_queued : Repo
one_queued = record init { runs = (1, queued_run) ∷ []; next_run_id = 2 }

abbrev pub one_running : Repo
one_running = record init { runs = (1, running_run) ∷ []; next_run_id = 2 }

created_first : create_run digest intent none 5 init ≡ ok (some queued_run, one_queued)
unfolding program
created_first = refl

claimed_first : claim_next "worker-123-0" 9 one_queued ≡ (some running_run, one_running)
unfolding program
claimed_first = refl

-- A retry is due five seconds later.
failed_first :
    fail 1 "boom" 20 one_running
    ≡ ok (
      record running_run {
        status = JobStatus.retrying;
        error = some "boom";
        attempt = 2;
        scheduled_at = 5000020;
      },
      record init {
        runs =
            (
              1,
              record running_run {
                status = JobStatus.retrying;
                error = some "boom";
                attempt = 2;
                scheduled_at = 5000020;
              },
            )
            ∷ [];
        next_run_id = 2;
      },
    )
unfolding program
failed_first = refl

pub queued_reached : Reach digest init one_queued
queued_reached = next here (creates intent none 5 (some queued_run) created_first)

pub running_reached : Reach digest init one_running
running_reached = next queued_reached (claims "worker-123-0" 9 (some running_run) claimed_first)

Reach-IsSound_example : IsSound one_running
Reach-IsSound_example = Reach-IsSound digest running_reached

claim_next_lem_example :
    ((run : JobRun) (r' : Repo)
      → claim_next "worker-123-0" 9 one_queued ≡ (some run, r')
      → (old : JobRun) × IsReady one_queued 9 run.run_id old
        × (run ≡ claimed "worker-123-0" 9 old)
        × ((run.status ≡ JobStatus.running)
            × (run.worker ≡ some "worker-123-0")
            × (run.started_at ≡ some 9))
        × ((k : ℕ) (a : JobRun) → IsReady one_queued 9 k a → (a ≡ old) ⊎ IsBefore old a)
        × ((k : ℕ) → get_run k r' ≡ (if run.run_id == k then some run else get_run k one_queued)))
    × ((r' : Repo)
        → claim_next "worker-123-0" 9 one_queued ≡ (none, r')
        → (r' ≡ one_queued) × ((k : ℕ) (a : JobRun) → IsReady one_queued 9 k a → ⊥))
claim_next_lem_example =
    claim_next_lem one_queued (Reach-IsSound digest queued_reached) 9 "worker-123-0"

abbrev one_dead : Repo
one_dead = record init { runs = (1, dead_run) ∷ []; next_run_id = 2 }

-- A store with one row is sound if the row is.
one_row_IsSound :
    (run : JobRun)
    → run.run_id ≡ 1
    → run.attempt ≡ 1
    → IsSound (record init { runs = (1, run) ∷ []; next_run_id = 2 })
unfolding Dict.get
one_row_IsSound run id first = record {
  dict = (refl, tt);
  keyed = λ k a h. ground arith;
  below = λ k a h. ground arith;
  budget = λ k a h. ground arith;
  exclusive = λ j k a b h g ra rb e. ground arith;
  single = λ j k a b h g la lb e. ground arith;
}

Step-IsDone_example :
    get_run 1 (record one_dead {
      runs = (1, dead_run) ∷ (2, record queued_run { run_id = 2 }) ∷ [];
      next_run_id = 3;
    })
    ≡ some dead_run
unfolding program
Step-IsDone_example =
    Step-IsDone one_dead (one_row_IsSound dead_run refl refl) 1 dead_run refl (refl, refl) digest
      (record one_dead {
        runs = (1, dead_run) ∷ (2, record queued_run { run_id = 2 }) ∷ [];
        next_run_id = 3;
      })
      (creates intent none 5 (some (record queued_run { run_id = 2 })) refl)

create_run_lem_example :
    (is_versioned intent.kind ≡ is_given intent.version_dimension
      → (HasLive (digest (payload_of intent)) one_running
          → create_run digest intent none 30 one_running ≡ ok (none, one_running))
        × ((HasLive (digest (payload_of intent)) one_running → ⊥)
            → (r' : Repo) × (create_run digest intent none 30 one_running
                ≡ ok (some (new_run 2 (digest (payload_of intent)) intent none 30), r'))
              × ((k : ℕ)
                  → get_run k r' ≡ (
                      if 2 == k
                      then some (new_run 2 (digest (payload_of intent)) intent none 30)
                      else get_run k one_running))))
    × ((is_versioned intent.kind ≡ is_given intent.version_dimension → ⊥)
        → create_run digest intent none 30 one_running ≡ raise value_error)
    × ((out : Option JobRun) (r' : Repo)
        → create_run digest intent none 30 one_running ≡ ok (out, r')
        → (request_id' : Option String) (now' : ℕ)
        → create_run digest intent request_id' now' r' ≡ ok (none, r'))
create_run_lem_example =
    create_run_lem digest intent none 30 one_running (Reach-IsSound digest running_reached)

fail_lem_example :
    (get_run 1 one_running ≡ none
      → (fail 1 "boom" 20 one_running ≡ raise key_error)
        × ((o : Outcome) → finish o 20 1 one_running ≡ raise key_error))
    × ((o : Outcome) (run : JobRun)
        → get_run 1 one_running ≡ some run
        → (r' : Repo) × (finish o 20 1 one_running ≡ ok (settle o 20 run, r'))
          × ((k : ℕ)
              → get_run k r' ≡ (if 1 == k then some (settle o 20 run) else get_run k one_running)))
    × ((run : JobRun)
        → get_run 1 one_running ≡ some run
        → (out : JobRun) × (r' : Repo) × (fail 1 "boom" 20 one_running ≡ ok (out, r'))
          × ((k : ℕ) → get_run k r' ≡ (if 1 == k then some out else get_run k one_running))
          × (is_running run.status ≡ false → out ≡ run)
          × (is_running run.status ≡ true
              → run.attempt < run.max_attempts
              → (out.status ≡ JobStatus.retrying)
                × (out.error ≡ some "boom")
                × (out.attempt ≡ run.attempt + 1)
                × (out.attempt ≤ out.max_attempts)
                × (out.scheduled_at ≡ 20 + 5 * 2 ^ (run.attempt - 1) * second)
                × (out.finished_at ≡ none))
          × (is_running run.status ≡ true
              → run.max_attempts ≤ run.attempt
              → (out.status ≡ JobStatus.dead)
                × (out.error ≡ some "boom")
                × (out.attempt ≡ run.attempt)
                × (out.finished_at ≡ some 20)))
fail_lem_example = fail_lem 1 "boom" 20 one_running

interrupt_running_lem_example :
    (r' : Repo) × (interrupt_running "worker-12" 20 one_running
      ≡ ok (count (belongs_to "worker-12") (Dict.values one_running.runs), r'))
    × ((k : ℕ) (run : JobRun)
        → get_run k one_running ≡ some run
        → get_run k r'
          ≡ some
              (if belongs_to "worker-12" run then finished (interruption "停机超时") 20 run else run))
    × ((more : String) (k : ℕ) (run : JobRun)
        → get_run k one_running ≡ some run
        → is_running run.status ≡ true
        → run.worker ≡ some (str_append "worker-12" more)
        → (out : JobRun) × (get_run k r' ≡ some out) × (out.status ≡ JobStatus.interrupted))
interrupt_running_lem_example =
    interrupt_running_lem "worker-12" 20 one_running (Reach-IsSound digest running_reached)

abbrev pub one_interrupted : Repo
one_interrupted = record init {
  runs =
      (
        1,
        record running_run {
          status = JobStatus.interrupted;
          error = some "停机超时";
          finished_at = some 20;
        },
      )
      ∷ [];
  next_run_id = 2;
}

abbrev child_target : Target
child_target = record {
  child_job = "derive.bars";
  scope = "600000.SH";
  window_start = some 10;
  window_end = some 12;
}

abbrev after_bars : JobDependency
after_bars = record {
  parent_job = "sync.bars";
  child_job = "derive.bars";
  condition = DependencyCondition.on_success;
}

abbrev gated : Repo
gated = record one_running { deps = after_bars ∷ [] }

-- A child waits while its parent runs.
gated_waits : parents_ready child_target gated ≡ false
unfolding program
gated_waits = refl

parents_ready_iff_example : (parents_ready child_target gated ≡ true) ↔ (
    (dep : JobDependency)
    → In dep gated.deps
    → dep.child_job ≡ "derive.bars"
    → (k : ℕ) × (run : JobRun) × (get_run k gated ≡ some run)
      × IsParentRun child_target dep.parent_job run
      × Meets dep.condition run)
parents_ready_iff_example =
    parents_ready_iff child_target gated (Reach-IsSound digest running_reached)

advance_all_lem_example :
    (reached (get_watermark "bars" "s" (advance_all "bars" "s" (7 ∷ 3 ∷ 9 ∷ 5 ∷ []) init))
      ≡ latest (reached (get_watermark "bars" "s" init)) (7 ∷ 3 ∷ 9 ∷ 5 ∷ []))
    × ((t : ℕ)
        → get_watermark "bars" "s" (advance_watermark "bars" "s" t init).1
          ≡ some (advance_watermark "bars" "s" t init).0)
    × ((d s : String)
        → (("bars" ≡ d) × ("s" ≡ s) → ⊥)
        → get_watermark d s (advance_all "bars" "s" (7 ∷ 3 ∷ 9 ∷ 5 ∷ []) init)
          ≡ get_watermark d s init)
advance_all_lem_example = advance_all_lem "bars" "s" (7 ∷ 3 ∷ 9 ∷ 5 ∷ []) init

abbrev dispatcher : Dispatcher
dispatcher = record {
  repo = init;
  max_queued = 2;
  health = record {
    last_dispatch_at = none;
    created = 0;
    duplicate = 0;
    dependency_blocked = 0;
    backpressure_blocked = 0;
  };
}

abbrev dispatched : Dispatcher
dispatched = record dispatcher {
  repo = one_queued;
  health = record dispatcher.health { last_dispatch_at = some 4; created = 1 };
}

submitted_first : submit digest intent 4 5 dispatcher ≡ ok (Submitted.created, dispatched)
unfolding program
submitted_first = refl

submit_lem_example :
    (Submitted.created ≡ Submitted.backpressure → (2 ≤ count_queued init) × (one_queued ≡ init))
    × (Submitted.created ≡ Submitted.dependency
        → (count_queued init < 2)
          × (parents_ready (target_of intent) init ≡ false)
          × (one_queued ≡ init))
    × (Submitted.created ≡ Submitted.duplicate
        → (count_queued init < 2)
          × (parents_ready (target_of intent) init ≡ true)
          × (create_run digest intent none 5 init ≡ ok (none, one_queued)))
    × (Submitted.created ≡ Submitted.created
        → (count_queued init < 2)
          × (parents_ready (target_of intent) init ≡ true)
          × (run : JobRun) × (create_run digest intent none 5 init ≡ ok (some run, one_queued)))
    × ((counted dispatched.health ≡ counted dispatcher.health + 1)
        × (dispatched.max_queued ≡ dispatcher.max_queued))
    × (count_queued init ≤ 2 → count_queued one_queued ≤ 2)
submit_lem_example =
    submit_lem digest intent 4 5 dispatcher (Reach-IsSound digest here) Submitted.created dispatched
      submitted_first

-- days 10, 11 and 13 are open
abbrev hub : ℕ → ℕ → List (Option ℕ × Bool)
hub start end =
    (some 10, true) ∷ (some 11, true) ∷ (some 12, false) ∷ (none, true) ∷ (some 13, true) ∷ []

abbrev calendar : HubTradeCalendar
calendar = record { lookback_days = 45; publish_cutoff_utc = 30600000000; cache = [] }

-- At noon of day 13 its data is out, at one in the morning the last closed day is 11.
abbrev noon : ℕ
noon = 13 * 86400000000 + 43200000000

abbrev marked : Repo
marked = record init { watermarks = (("bars", "s"), mark_at "bars" "s" (11 * 86400000000)) ∷ [] }

abbrev no_starts : Dict String ℕ
no_starts = []

provide_lem_example :
    ((12 ≤ 13) × (13 ≤ date_of noon))
    × In 13 (load hub (closed_end noon calendar) calendar).0
    × (time_of noon < calendar.publish_cutoff_utc → 13 ≤ date_of noon - 1)
    × ((d : ℕ)
        → In d (load hub (closed_end noon calendar) calendar).0
        → d ≤ closed_end noon calendar
        → d ≤ 13)
    × ((m : Watermark) (t : ℕ)
        → get_watermark "bars" "s" marked ≡ some m
        → m.watermark_time ≡ some t
        → 12 ≡ date_of t + 1)
    × (after_mark (get_watermark "bars" "s" marked) ≡ none → Dict.get no_starts "j" ≡ some 12)
unfolding program provide
provide_lem_example =
    provide_lem hub no_starts "j" "bars" "s" noon calendar marked (12, 13) (inl refl)
