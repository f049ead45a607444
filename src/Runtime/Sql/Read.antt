-- ===== src/Runtime/Sql/Read.antt =====
-- The queries of `SqlMetaRepository` (runtime/repository.py) read what those of the store in memory read.
use fin_data_hub.Prelude.{
  ℕ, String, ◌≡◌, refl, sym, ap, ◌∙◌, inl, inr, Bool, true, false, List, [], ◌∷◌, some, arith, ◌==◌,
  nat_eq, string_eq, option_eq, if◌then◌else◌, Bool-cases, Option-cases, In, In-filter,
  In-of_filter, any, all, filter, map, all_at, all_of, all-false,
}
use fin_data_hub.Prelude.Dict
use fin_data_hub.Prelude.Sort.{IsOrder}
use fin_data_hub.Runtime.Result.{ok}
use fin_data_hub.Runtime.Models.{
  DependencyCondition, JobDependency, JobRun, is_terminal, is_succeeded,
}
use fin_data_hub.Runtime.Repository.State.{Repo}
use fin_data_hub.Runtime.Repository.Runs.{get_run}
use fin_data_hub.Runtime.Repository.Queries as Memory
use fin_data_hub.Runtime.Repository.Queries.{older, Target, is_match, released}
use fin_data_hub.Runtime.Repository.Preserve.{IsSound}
use fin_data_hub.Runtime.Sql.Table.{SameRows, one_or_none}
use fin_data_hub.Runtime.Sql.Database.{Engine, Db}
use fin_data_hub.Runtime.Sql.Runs as Sql
use fin_data_hub.Runtime.Sql.Runs.{rows}
use fin_data_hub.Runtime.Sql.Queries
use fin_data_hub.Runtime.Sql.Queries.{in_window, statuses_of, satisfied}
use fin_data_hub.Runtime.Sql.Claim.{head?_same}
use fin_data_hub.Runtime.Sql.Simulation.{Simulates, filter_stored, filter_absent, In-same, any-same}

older-IsOrder : IsOrder older
unfolding older
older-IsOrder = record { total = λ a b h. ground arith; trans = λ a b c h k. ground arith }

any-map :
    {A B : Type 0} (p : B → Bool) (g : A → B) (xs : List A)
    → any p (map g xs) ≡ any (λ x. p (g x)) xs
unfolding any
any-map p g [] = refl
any-map p g (x ∷ xs) = ground (arith, any-map p g xs)

-- a search behind a test for an empty list
any_guarded :
    {A : Type 0} (p : A → Bool) (xs : List A)
    → (if any (λ x. true) xs then any p xs else false) ≡ any p xs
unfolding any
any_guarded p [] = refl
any_guarded p (x ∷ xs) = refl

all-same :
    {A : Type 0} (p q : A → Bool) (xs ys : List A)
    → ((a : A) → In a xs → In a ys)
    → ((a : A) → In a ys → In a xs)
    → ((a : A) → p a ≡ q a)
    → all p xs ≡ all q ys
all-same p q xs ys forth back same = elim (Bool-cases (all p xs)) [
  | inl h ↦ h ∙ sym (all_of q ys (λ a m. sym (same a) ∙ all_at p a xs h (back a m)))
  | inr h ↦
      let (a, m, n) = all-false p xs h in
      elim (Bool-cases (all q ys)) [
        | inl g ↦ absurd (ground (arith, same a, all_at q a ys g (forth a m)))
        | inr g ↦ h ∙ sym g
      ]
]

given : (b : Bool) → b ≡ (if b then true else false)
given true = refl
given false = refl

module _ (e : Engine) (db : Db e) (r : Repo) (v : IsSound r) (s : Simulates e db r) where
  get_run_same : (id : ℕ) → Sql.get_run e id db ≡ ok (get_run id r)
  unfolding Sql.get_run one_or_none get_run
  get_run_same id = elim (Option-cases (Dict.get r.runs id)) [
    | inl n ↦ rw (filter_absent s.runs v id n, n) refl
    | inr (a, g) ↦ rw (filter_stored s.runs id a g (v.keyed id a g), g) refl
  ]

  -- the same search through the rows that a filter leaves
  any-filtered :
      (p q : JobRun → Bool) → any q (filter p (rows e db)) ≡ any q (filter p (Dict.values r.runs))
  any-filtered p q =
      any-same q q (filter p (rows e db)) (filter p (Dict.values r.runs))
        (λ a m t.
          let (n, u) = In-of_filter p a (rows e db) m in
          (a, In-filter p a (Dict.values r.runs) ((In-same e db r v s a).0 n) u, t))
        (λ a m t.
          let (n, u) = In-of_filter p a (Dict.values r.runs) m in
          (a, In-filter p a (rows e db) ((In-same e db r v s a).1 n) u, t))

  satisfied_same :
      (t : Target) (dep : JobDependency)
      → satisfied (statuses_of e t dep db) dep.condition ≡ released t (Dict.values r.runs) dep
  unfolding satisfied statuses_of released
  satisfied_same t dep = from dep.condition
    where
      from :
          (c : DependencyCondition)
          → satisfied (statuses_of e t dep db) c
            ≡ released t (Dict.values r.runs) (record dep { condition = c })
      from DependencyCondition.always =
          any-map (λ s'. true) (λ run. run.status) (filter (in_window t dep.parent_job) (rows e db))
          ∙ any-filtered (in_window t dep.parent_job) (λ run. true)
          ∙ given (any (λ run. true) (filter (is_match t dep.parent_job) (Dict.values r.runs)))
      from DependencyCondition.on_complete =
          any-map is_terminal (λ run. run.status) (filter (in_window t dep.parent_job) (rows e db))
          ∙ any-filtered (in_window t dep.parent_job) (λ run. is_terminal run.status)
          ∙ sym (
              any_guarded (λ run. is_terminal run.status)
                (filter (is_match t dep.parent_job) (Dict.values r.runs)))
      from DependencyCondition.on_success =
          any-map is_succeeded (λ run. run.status) (filter (in_window t dep.parent_job) (rows e db))
          ∙ any-filtered (in_window t dep.parent_job) (λ run. is_succeeded run.status)
          ∙ sym (
              any_guarded (λ run. is_succeeded run.status)
                (filter (is_match t dep.parent_job) (Dict.values r.runs)))

  find_run_same :
      (request_id : String)
      → Queries.find_run_by_request_id e request_id db ≡ Memory.find_run_by_request_id request_id r
  unfolding Queries.find_run_by_request_id Memory.find_run_by_request_id
  find_run_same request_id =
      head?_same older older-IsOrder (λ a b f g. unfold older in ground arith)
        (filter wanted (rows e db)) (filter wanted (Dict.values r.runs))
        (λ a m.
          let (n, t) = In-of_filter wanted a (rows e db) m in
          In-filter wanted a (Dict.values r.runs) ((In-same e db r v s a).0 n) t)
        (λ a m.
          let (n, t) = In-of_filter wanted a (Dict.values r.runs) m in
          In-filter wanted a (rows e db) ((In-same e db r v s a).1 n) t)
        (λ a b m n same.
          let g = s.runs.stored a (In-of_filter wanted a (rows e db) m).0 in
          let h = s.runs.stored b (In-of_filter wanted b (rows e db) n).0 in
          ground (arith, ap (Dict.get r.runs) same))
    where
      wanted : JobRun → Bool
      wanted run = run.request_id == some request_id

  -- In tables that hold what the store in memory holds, `get_run` and `find_run_by_request_id` read
  -- the run that they read in memory; so does `parents_ready`, if the declared dependencies are the
  -- same.
  pub queries_same :
      ((id : ℕ) → Sql.get_run e id db ≡ ok (get_run id r))
      × ((request_id : String)
          → Queries.find_run_by_request_id e request_id db
            ≡ Memory.find_run_by_request_id request_id r)
      × (SameRows (e.job_dependencies.rows db.deps) r.deps
          → (t : Target) → Queries.parents_ready e t db ≡ Memory.parents_ready t r)
  unfolding Queries.parents_ready Memory.parents_ready
  queries_same = (
    get_run_same,
    find_run_same,
    λ w t.
        let mine = λ (dep : JobDependency). dep.child_job == t.child_job in
        all-same (λ dep. satisfied (statuses_of e t dep db) dep.condition)
          (released t (Dict.values r.runs)) (filter mine (e.job_dependencies.rows db.deps))
          (filter mine r.deps)
          (λ dep m.
            let (n, u) = In-of_filter mine dep (e.job_dependencies.rows db.deps) m in
            In-filter mine dep r.deps (w.forth dep n) u)
          (λ dep m.
            let (n, u) = In-of_filter mine dep r.deps m in
            In-filter mine dep (e.job_dependencies.rows db.deps) (w.back dep n) u)
          (satisfied_same t),
  )
