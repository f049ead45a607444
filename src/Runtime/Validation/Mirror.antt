-- ===== src/Runtime/Validation/Mirror.antt =====
-- What `sync_metadata` of app.py leaves in the store, in memory or in SQL.
use fin_data_hub.Prelude.{
  In, is_some, true, ap, ◌∙◌, sym, subst, ◌↔◌, ◌≡◌, refl, inl, inr, String, Bool, List, [], ◌∷◌,
  map, Option, none, some, ◌==◌, string_eq, arith, Bool-cases,
}
use fin_data_hub.Prelude.Dict
use fin_data_hub.Prelude.Dict.{Dict, IsDict, get-put}
use fin_data_hub.Runtime.Result.{ok, raise, value_error, integrity_error}
use fin_data_hub.Runtime.Models.{JobDef, JobDependency}
use fin_data_hub.Runtime.Repository.State.{Repo, put_defs, sync_defs, sync_dependencies}
use fin_data_hub.Runtime.Tasks.{TaskSpec, TaskRegistry, def_of, defs, dependencies}
use fin_data_hub.Runtime.Validation.{
  Problem, and_then, mirror, mirror_sql, committed, sync_metadata, sync_metadata_sql,
}
use fin_data_hub.Runtime.Sql.Table.{In-of_map}
use fin_data_hub.Runtime.Sql.Inserts.{IsApart, refill_lem}
use fin_data_hub.Runtime.Sql.Database.{
  Engine, Db, same_def, same_dependency, list_defs, list_dependencies,
}
use fin_data_hub.Runtime.Sql.Database as Sql
use fin_data_hub.Runtime.Validation.Valid.{IsValid, validate_lem}

-- Each task stands under its own id.
abbrev pub IsKeyed : TaskRegistry → Type 0
IsKeyed [] = Unit
IsKeyed ((job, spec) ∷ tasks) = (job ≡ spec.job_id) × IsKeyed tasks

-- the definition of a task that is registered, or else what was there before
abbrev pub def_or : Option TaskSpec → Option JobDef → Option JobDef
def_or none before = before
def_or (some spec) before = some (def_of spec)

get-put_defs :
    (tasks : TaskRegistry) (d : Dict String JobDef) (job : String)
    → IsDict tasks
    → IsKeyed tasks
    → Dict.get (put_defs d (map def_of (Dict.values tasks))) job
      ≡ def_or (Dict.get tasks job) (Dict.get d job)
unfolding Dict.get Dict.values put_defs
get-put_defs [] d job h k = refl
get-put_defs ((j, spec) ∷ tasks) d job h k =
    let rest = get-put_defs tasks (Dict.put d spec.job_id (def_of spec)) job h.1 k.1 in
    elim (Bool-cases (j == job)) [
      | inl same ↦ ground (
        arith,
        rest,
        get-put d spec.job_id job (def_of spec),
        string_eq.test_iff j job,
        string_eq.test_iff spec.job_id job,
        h.0,
        k.0,
      )
      | inr differs ↦ ground (
        arith,
        rest,
        get-put d spec.job_id job (def_of spec),
        string_eq.test_iff j job,
        string_eq.test_iff spec.job_id job,
        k.0,
      )
    ]

refused :
    {X : Type 0} (f : List Problem → X) (x : X) (problems : List Problem)
    → ((p : Problem) (l : List Problem) → f (p ∷ l) ≡ x)
    → (problems ≡ [] → ⊥)
    → and_then (some problems) (λ found. some (f found)) ≡ some x
refused f x [] same bad = absurd (bad refl)
refused f x (problem ∷ problems) same bad = ap some (same problem problems)

-- a task of a keyed dict stands under its id
keyed_task :
    (spec : TaskSpec) (tasks : TaskRegistry)
    → IsKeyed tasks
    → In spec (Dict.values tasks)
    → is_some (Dict.get tasks spec.job_id) ≡ true
unfolding Dict.get Dict.values
keyed_task spec [] k m = absurd m
keyed_task spec ((job, first) ∷ tasks) k (inl e) =
    ground (arith, ap (λ t. t.job_id) e, string_eq.test_iff job spec.job_id, k.0)
keyed_task spec ((job, first) ∷ tasks) k (inr m) = ground (arith, keyed_task spec tasks k.1 m)

defs-IsApart :
    (tasks : TaskRegistry)
    → IsDict tasks
    → IsKeyed tasks
    → IsApart same_def (map def_of (Dict.values tasks))
unfolding Dict.values
defs-IsApart [] h k = tt
defs-IsApart ((job, spec) ∷ tasks) h k = (
  λ b m.
      let (other, n, e) = In-of_map def_of b (Dict.values tasks) m in
      let there = keyed_task other tasks k.1 n in
      elim (Bool-cases (same_def b (def_of spec))) [
        | inr apart ↦ apart
        | inl same ↦
            absurd (ground (arith, e, there, h.0, k.0, string_eq.test_iff b.job_id spec.job_id))
      ],
  defs-IsApart tasks h.1 k.1,
)

module _ (e : Engine) (tasks : TaskRegistry) where
  abbrev pub HoldsDefs : Db e → Type 0
  HoldsDefs db' = (d : JobDef) → In d (list_defs e db') ↔ In d (defs tasks)

  abbrev pub HoldsDependencies : Db e → Type 0
  HoldsDependencies db' =
      (d : JobDependency) → In d (list_dependencies e db') ↔ In d (dependencies tasks)

module _ (e : Engine) (tasks : TaskRegistry) (db : Db e) where
  defs_synced :
      IsDict tasks
      → IsKeyed tasks
      → (db1 : Db e) × (Sql.sync_defs e (defs tasks) db ≡ ok db1)
        × HoldsDefs e tasks db1
        × ((db1.deps ≡ db.deps) × (db1.runs ≡ db.runs))
  unfolding Sql.sync_defs list_defs defs
  defs_synced h k =
      let (s, done, rows) =
        (refill_lem e.job_defs (map def_of (Dict.values tasks)) db.defs).0
          (defs-IsApart tasks h k) in
      (record db { defs = s }, rw done refl, rows, (refl, refl))

  dependencies_synced :
      IsApart same_dependency (dependencies tasks)
      → (db2 : Db e) × (Sql.sync_dependencies e (dependencies tasks) db ≡ ok db2)
        × HoldsDependencies e tasks db2
        × ((db2.defs ≡ db.defs) × (db2.runs ≡ db.runs))
  unfolding Sql.sync_dependencies list_dependencies
  dependencies_synced apart =
      let (s, done, rows) = (refill_lem e.job_dependencies (dependencies tasks) db.deps).0 apart in
      (record db { deps = s }, rw done refl, rows, (refl, refl))

  dependencies_refused :
      (IsApart same_dependency (dependencies tasks) → ⊥)
      → Sql.sync_dependencies e (dependencies tasks) db ≡ raise integrity_error
  unfolding Sql.sync_dependencies
  dependencies_refused clash =
      rw ((refill_lem e.job_dependencies (dependencies tasks) db.deps).1 clash) refl

sync_metadata_memory :
    (before : String → String → Bool) (tasks : TaskRegistry) (r : Repo)
    → IsDict tasks
    → IsKeyed tasks
    → IsValid tasks
    → (r' : Repo) × (sync_metadata before tasks r ≡ some (ok r'))
      × (r'.deps ≡ dependencies tasks)
      × ((job : String) → Dict.get r'.defs job ≡ def_or (Dict.get tasks job) (Dict.get r.defs job))
      × (r'.runs ≡ r.runs)
unfolding sync_metadata sync_dependencies sync_defs defs
sync_metadata_memory before tasks r h k v =
    let (problems, ran, valid, cycles) = validate_lem tasks before in
    (
      sync_dependencies (dependencies tasks) (sync_defs (defs tasks) r),
      rw ran (rw (valid.1 v) refl),
      refl,
      λ job. get-put_defs tasks r.defs job h k,
      refl,
    )

module _ (e : Engine) (before : String → String → Bool) (tasks : TaskRegistry) (db : Db e)
    (h : IsDict tasks) (k : IsKeyed tasks) (v : IsValid tasks) where
  sync_metadata_sql-apart :
      IsApart same_dependency (dependencies tasks)
      → (db' : Db e) × (sync_metadata_sql e before tasks db ≡ some (ok tt, db'))
        × HoldsDefs e tasks db'
        × HoldsDependencies e tasks db'
        × (db'.runs ≡ db.runs)
  unfolding sync_metadata_sql list_defs
  sync_metadata_sql-apart apart =
      let (problems, ran, valid, cycles) = validate_lem tasks before in
      let (db1, done, held, (_, runs)) = defs_synced e tasks db h k in
      let (db2, done2, deps, (kept, runs2)) = dependencies_synced e tasks db1 apart in
      (
        db2,
        rw ran (rw (valid.1 v) (rw done (ap (λ out. some (committed e db1 out)) done2))),
        λ d. subst (λ s. In d (e.job_defs.rows s) ↔ In d (defs tasks)) (sym kept) (held d),
        deps,
        runs2 ∙ runs,
      )

  sync_metadata_sql-clash :
      (IsApart same_dependency (dependencies tasks) → ⊥)
      → (db' : Db e) × (sync_metadata_sql e before tasks db ≡ some (raise integrity_error, db'))
        × HoldsDefs e tasks db'
        × (db'.deps ≡ db.deps)
        × (db'.runs ≡ db.runs)
  unfolding sync_metadata_sql
  sync_metadata_sql-clash clash =
      let (problems, ran, valid, cycles) = validate_lem tasks before in
      let (db1, done, held, (kept, runs)) = defs_synced e tasks db h k in
      (
        db1,
        rw ran (
            rw (valid.1 v) (
              rw done
                (ap (λ out. some (committed e db1 out)) (dependencies_refused e tasks db1 clash)))),
        held,
        kept,
        runs,
      )

-- A registry that is not valid is refused with `ValueError` by either store, which keeps what it has. A
-- valid one is mirrored. In the store in memory its dependencies replace those of the store, each of
-- its tasks has its definition there, and the definitions of other tasks and the runs stay. In the
-- store in SQL, where no two dependencies have the same parent and child, the tables hold exactly its
-- definitions and its dependencies, and the runs stay; where two have, it raises `IntegrityError`
-- after the definitions have been replaced, and the dependencies and the runs stay. The registry is
-- a dict of tasks under their own ids.
pub sync_metadata_lem :
    (before : String → String → Bool) (tasks : TaskRegistry) (r : Repo) (e : Engine) (db : Db e)
    → IsDict tasks
    → IsKeyed tasks
    → (IsValid tasks
        → ((r' : Repo) × (sync_metadata before tasks r ≡ some (ok r'))
            × (r'.deps ≡ dependencies tasks)
            × ((job : String)
                → Dict.get r'.defs job ≡ def_or (Dict.get tasks job) (Dict.get r.defs job))
            × (r'.runs ≡ r.runs))
          × (IsApart same_dependency (dependencies tasks)
              → (db' : Db e) × (sync_metadata_sql e before tasks db ≡ some (ok tt, db'))
                × HoldsDefs e tasks db'
                × HoldsDependencies e tasks db'
                × (db'.runs ≡ db.runs))
          × ((IsApart same_dependency (dependencies tasks) → ⊥)
              → (db' : Db e) × (sync_metadata_sql e before tasks db
                  ≡ some (raise integrity_error, db'))
                × HoldsDefs e tasks db'
                × (db'.deps ≡ db.deps)
                × (db'.runs ≡ db.runs)))
      × ((IsValid tasks → ⊥)
          → (sync_metadata before tasks r ≡ some (raise value_error))
            × (sync_metadata_sql e before tasks db ≡ some (raise value_error, db)))
unfolding sync_metadata sync_metadata_sql
sync_metadata_lem before tasks r e db h k =
    let (problems, ran, valid, cycles) = validate_lem tasks before in
    (
      λ v. (
        sync_metadata_memory before tasks r h k v,
        sync_metadata_sql-apart e before tasks db h k v,
        sync_metadata_sql-clash e before tasks db h k v,
      ),
      λ bad. (
        rw ran (refused (mirror tasks r) _ problems (λ p l. refl) (λ e. bad (valid.0 e))),
        rw ran (refused (mirror_sql e tasks db) _ problems (λ p l. refl) (λ e. bad (valid.0 e))),
      ),
    )
