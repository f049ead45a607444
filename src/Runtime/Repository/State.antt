-- ===== src/Runtime/Repository/State.antt =====
-- The state of `InMemoryMetaRepository` (runtime/repository.py), and the mirror of the declared
-- definitions and dependencies.
use fin_data_hub.Prelude.{ℕ, String, List, [], ◌∷◌, nat_eq, string_eq, pair_eq, option_eq}
use fin_data_hub.Prelude.Dict
use fin_data_hub.Prelude.Dict.{Dict}
use fin_data_hub.Runtime.Models.{JobDef, JobDependency, JobRun, Watermark}

pub record Repo : Type 0 where
  pub defs : Dict String JobDef
  pub deps : List JobDependency
  pub runs : Dict ℕ JobRun
  pub watermarks : Dict (String × String) Watermark
  pub next_run_id : ℕ

abbrev pub init : Repo
init = record { defs = []; deps = []; runs = []; watermarks = []; next_run_id = 1 }

unfoldable pub put_defs : Dict String JobDef → List JobDef → Dict String JobDef
put_defs d [] = d
put_defs d (item ∷ items) = put_defs (Dict.put d item.job_id item) items

unfoldable pub sync_defs : List JobDef → Repo → Repo
unfolding put_defs
sync_defs defs r = record r { defs = put_defs r.defs defs }

unfoldable pub sync_dependencies : List JobDependency → Repo → Repo
sync_dependencies deps r = record r { deps = deps }

unfoldable pub list_defs : Repo → List JobDef
list_defs r = Dict.values r.defs

unfoldable pub list_dependencies : Repo → List JobDependency
list_dependencies r = r.deps
