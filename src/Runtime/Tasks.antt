-- ===== src/Runtime/Tasks.antt =====
-- src/fin_data_platform/runtime/registry.py: the tasks, and what they mirror into the store. An
-- executor is a function of its context and of the store as it is when the executor starts; it gives
-- what it returns or raises, and the store as it is when it ends, with all that other threads did
-- meanwhile. So is an `on_success` callback. `version_provider` is what the provider returns.
use fin_data_hub.Prelude.{
  ℕ, String, true, List, [], ◌∷◌, ◌++◌, map, Option, none, some, string_eq, if◌then◌else◌, is_some,
}
use fin_data_hub.Prelude.Dict
use fin_data_hub.Prelude.Dict.{Dict}
use fin_data_hub.Runtime.Result.{Result, ok, raise, value_error, key_error}
use fin_data_hub.Runtime.Models.{DependencyCondition, JobDef, JobDependency, JobIntent, JobRun}
use fin_data_hub.Runtime.Repository.State.{Repo}

pub record JobContext : Type 0 where
  pub job_id : String
  pub kind : String
  pub dataset : String
  pub run : JobRun

-- what an executor does: it returns the rows that it has written (`none` is no `JobResult`), or it
-- raises, with the text of its exception
pub data Executed : Type 0 where
  returned : Option ℕ → Executed
  raised : String → Executed

pub record TaskSpec : Type 0 where
  pub job_id : String
  pub kind : String
  pub dataset : String
  pub executor : JobContext → Repo → Executed × Repo
  pub schedule : Option String
  pub priority : ℕ
  pub max_attempts : ℕ
  pub scope : String
  pub dependencies : List String
  pub condition : DependencyCondition
  pub version_provider : Option (Option String)
  pub on_success : Option (JobContext → ℕ → Repo → Option String × Repo)

abbrev pub TaskRegistry : Type 0
TaskRegistry = Dict String TaskSpec

unfoldable pub register : TaskSpec → TaskRegistry → Result TaskRegistry
register spec tasks =
    if is_some (Dict.get tasks spec.job_id)
    then raise value_error
    else ok (Dict.put tasks spec.job_id spec)

unfoldable pub task_at : String → TaskRegistry → Result TaskSpec
task_at job_id tasks = elim (Dict.get tasks job_id) [ none ↦ raise key_error | some spec ↦ ok spec ]

abbrev pub def_of : TaskSpec → JobDef
def_of spec = record {
  job_id = spec.job_id;
  kind = spec.kind;
  dataset = spec.dataset;
  schedule = spec.schedule;
  priority = spec.priority;
  max_attempts = spec.max_attempts;
  enabled = true;
}

unfoldable pub defs : TaskRegistry → List JobDef
defs tasks = map def_of (Dict.values tasks)

unfoldable pub parents_of : TaskSpec → List JobDependency
parents_of spec =
    map
      (λ parent. record {
        parent_job = parent;
        child_job = spec.job_id;
        condition = spec.condition;
      })
      spec.dependencies

unfoldable pub all_parents : List TaskSpec → List JobDependency
unfolding parents_of
all_parents [] = []
all_parents (spec ∷ specs) = parents_of spec ++ all_parents specs

unfoldable pub dependencies : TaskRegistry → List JobDependency
unfolding all_parents
dependencies tasks = all_parents (Dict.values tasks)

abbrev pub version_of : Option (Option String) → Option String
version_of none = none
version_of (some version) = version

unfoldable pub intent_of : TaskSpec → Option ℕ → Option ℕ → JobIntent
intent_of spec window_start window_end = record {
  kind = spec.kind;
  job_id = spec.job_id;
  dataset = spec.dataset;
  scope = spec.scope;
  window_start = window_start;
  window_end = window_end;
  version_dimension = version_of spec.version_provider;
  priority = spec.priority;
  max_attempts = spec.max_attempts;
}
