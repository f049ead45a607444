-- ===== src/Runtime/Sql/Database.antt =====
-- The tables `meta.*` of `SqlMetaRepository` (runtime/repository.py, runtime/schema.py) and its mirror of
-- the declared definitions. Each method is one transaction (`fail` of Sql/Runs is two): it returns the
-- database that it commits, or raises and commits nothing. `updated_at` is written by every method and
-- read by none; it is left out.
use fin_data_hub.Prelude.{ℕ, ◌+◌, ◌≡◌, String, Bool, ◌&&◌, List, ◌==◌, nat_eq, string_eq}
use fin_data_hub.Runtime.Result.{Result, ok, ◌>>=◌}
use fin_data_hub.Runtime.Models.{JobDef, JobDependency, JobRun, Watermark}
use fin_data_hub.Runtime.Sql.Table.{Table, insert_all}

-- the primary keys of schema.py
abbrev pub same_run : JobRun → JobRun → Bool
same_run a b = b.run_id == a.run_id

abbrev pub same_def : JobDef → JobDef → Bool
same_def a b = a.job_id == b.job_id

abbrev pub same_dependency : JobDependency → JobDependency → Bool
same_dependency a b = a.parent_job == b.parent_job && a.child_job == b.child_job

abbrev pub same_watermark : Watermark → Watermark → Bool
same_watermark a b = a.dataset == b.dataset && a.scope == b.scope

-- What the store takes from the database: the tables, the ids that an `autoincrement` column gives
-- out, and `column.like(pattern)`.
pub record Engine : Type 1 where
  pub job_runs : Table JobRun same_run
  pub job_defs : Table JobDef same_def
  pub job_dependencies : Table JobDependency same_dependency
  pub watermarks : Table Watermark same_watermark
  pub Sequence : Type 0
  pub next_id : Sequence → ℕ
  pub advance : Sequence → Sequence
  pub next_id-advance : (s : Sequence) → next_id (advance s) ≡ next_id s + 1
  pub like : String → String → Bool

pub record Db (e : Engine) : Type 0 where
  pub runs : e.job_runs.State
  pub defs : e.job_defs.State
  pub deps : e.job_dependencies.State
  pub marks : e.watermarks.State
  pub sequence : e.Sequence

module _ (e : Engine) where
  unfoldable pub sync_defs : List JobDef → Db e → Result (Db e)
  unfolding insert_all
  sync_defs defs db = do
    s ← insert_all e.job_defs defs (e.job_defs.delete_all db.defs)
    ok (record db { defs = s })

  unfoldable pub sync_dependencies : List JobDependency → Db e → Result (Db e)
  unfolding insert_all
  sync_dependencies deps db = do
    s ← insert_all e.job_dependencies deps (e.job_dependencies.delete_all db.deps)
    ok (record db { deps = s })

  unfoldable pub list_defs : Db e → List JobDef
  list_defs db = e.job_defs.rows db.defs

  unfoldable pub list_dependencies : Db e → List JobDependency
  list_dependencies db = e.job_dependencies.rows db.deps
