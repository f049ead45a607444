-- ===== src/Runtime/Models.antt =====
-- src/fin_data_platform/runtime/models.py: job kinds, run statuses and the records of the runtime.
-- A `datetime` is a count of microseconds and a `date` a day number, so `datetime.date()` divides.
use fin_data_hub.Prelude.{
  ℕ, ◌*◌, ◌/◌, ◌%◌, String, Bool, true, false, Option, nat_eq, string_eq, pair_eq, option_eq,
}

-- A constant of `str` values: `JobKind.X.value`.
abbrev pub derive_kind : String
derive_kind = "derive"

abbrev pub build_rm_kind : String
build_rm_kind = "build_rm"

abbrev pub sync_kind : String
sync_kind = "sync"

pub data JobStatus : Type 0 where
  queued running succeeded failed retrying dead interrupted cancelled : JobStatus

pub data DependencyCondition : Type 0 where
  on_success on_complete always : DependencyCondition

-- statuses are compared as their texts, which differ
unfoldable pub same_status : JobStatus → JobStatus → Bool
same_status JobStatus.queued JobStatus.queued = true
same_status JobStatus.running JobStatus.running = true
same_status JobStatus.succeeded JobStatus.succeeded = true
same_status JobStatus.failed JobStatus.failed = true
same_status JobStatus.retrying JobStatus.retrying = true
same_status JobStatus.dead JobStatus.dead = true
same_status JobStatus.interrupted JobStatus.interrupted = true
same_status JobStatus.cancelled JobStatus.cancelled = true
same_status _ _ = false

-- `TERMINAL_STATUSES`
unfoldable pub is_terminal : JobStatus → Bool
is_terminal JobStatus.succeeded = true
is_terminal JobStatus.dead = true
is_terminal JobStatus.cancelled = true
is_terminal _ = false

-- `CLAIMABLE_STATUSES`, and `is_claimable` of registry.py
unfoldable pub is_claimable : JobStatus → Bool
is_claimable JobStatus.queued = true
is_claimable JobStatus.retrying = true
is_claimable _ = false

abbrev pub is_running : JobStatus → Bool
is_running JobStatus.running = true
is_running _ = false

abbrev pub is_succeeded : JobStatus → Bool
is_succeeded JobStatus.succeeded = true
is_succeeded _ = false

pub record JobDef : Type 0 where
  pub job_id : String
  pub kind : String
  pub dataset : String
  pub schedule : Option String
  pub priority : ℕ
  pub max_attempts : ℕ
  pub enabled : Bool

pub record JobDependency : Type 0 where
  pub parent_job : String
  pub child_job : String
  pub condition : DependencyCondition

pub record JobIntent : Type 0 where
  pub kind : String
  pub job_id : String
  pub dataset : String
  pub scope : String
  pub window_start : Option ℕ
  pub window_end : Option ℕ
  pub version_dimension : Option String
  pub priority : ℕ
  pub max_attempts : ℕ

pub record JobRun : Type 0 where
  pub run_id : ℕ
  pub job_key : String
  pub job_id : String
  pub kind : String
  pub dataset : String
  pub scope : String
  pub status : JobStatus
  pub attempt : ℕ
  pub max_attempts : ℕ
  pub priority : ℕ
  pub scheduled_at : ℕ
  pub window_start : Option ℕ
  pub window_end : Option ℕ
  pub version_dimension : Option String
  pub started_at : Option ℕ
  pub finished_at : Option ℕ
  pub rows_written : Option ℕ
  pub error : Option String
  pub request_id : Option String
  pub worker : Option String

pub record Watermark : Type 0 where
  pub dataset : String
  pub scope : String
  pub watermark_time : Option ℕ

-- microseconds of a second and of a day
abbrev pub second : ℕ
second = 1000000

abbrev pub day : ℕ
day = 86400000000

-- `datetime.date()`, `datetime.time()`, and `datetime.combine(d, time(0, 0))`
abbrev pub date_of : ℕ → ℕ
date_of t = t / day

abbrev pub time_of : ℕ → ℕ
time_of t = t % day

abbrev pub midnight : ℕ → ℕ
midnight d = d * day
