-- ===== src/Runtime/Repository/Ready.antt =====
-- `parents_ready` and `count_queued` of `InMemoryMetaRepository` (runtime/repository.py).
use fin_data_hub.Prelude.{
  ℕ, String, ◌≡◌, refl, sym, ◌∙◌, inl, inr, ◌↔◌, Bool, true, false, some, List, arith, ◌==◌,
  string_eq, nat_eq, option_eq, if◌then◌else◌, Bool-cases, In, In-filter, In-of_filter, any,
  any_witness, any-true, filter, all, all_at, all_of, ==→≡, ≡→==,
}
use fin_data_hub.Prelude.Dict
use fin_data_hub.Prelude.Dict.{In-values}
use fin_data_hub.Runtime.Models.{
  DependencyCondition, JobDependency, JobRun, is_succeeded, is_terminal, on_success, on_complete,
  always,
}
use fin_data_hub.Runtime.Repository.State.{Repo}
use fin_data_hub.Runtime.Repository.Runs.{get_run}
use fin_data_hub.Runtime.Repository.Queries.{Target, is_match, released, parents_ready}
use fin_data_hub.Runtime.Repository.Preserve.{IsSound, stored_of_In}

-- A run of the parent for the same scope and window.
pub record IsParentRun (t : Target) (parent : String) (run : JobRun) : Type 0 where
  pub job : run.job_id ≡ parent
  pub scope : run.scope ≡ t.scope
  pub window_start : run.window_start ≡ t.window_start
  pub window_end : run.window_end ≡ t.window_end

-- What a dependency asks of a run of its parent.
abbrev pub Meets : DependencyCondition → JobRun → Type 0
Meets always run = Unit
Meets on_complete run = is_terminal run.status ≡ true
Meets on_success run = is_succeeded run.status ≡ true

abbrev meets : DependencyCondition → JobRun → Bool
meets always run = true
meets on_complete run = is_terminal run.status
meets on_success run = is_succeeded run.status

Meets-meets : (c : DependencyCondition) (run : JobRun) → meets c run ≡ true → Meets c run
Meets-meets always run h = tt
Meets-meets on_complete run h = h
Meets-meets on_success run h = h

meets-Meets : (c : DependencyCondition) (run : JobRun) → Meets c run → meets c run ≡ true
meets-Meets always run h = refl
meets-Meets on_complete run h = h
meets-Meets on_success run h = h

match_parent :
    (t : Target) (parent : String) (run : JobRun)
    → is_match t parent run ≡ true
    → IsParentRun t parent run
unfolding is_match
match_parent t parent run h = record {
  job = ==→≡ run.job_id parent (ground arith);
  scope = ==→≡ run.scope t.scope (ground arith);
  window_start = ==→≡ run.window_start t.window_start (ground arith);
  window_end = ==→≡ run.window_end t.window_end (ground arith);
}

parent_match :
    (t : Target) (parent : String) (run : JobRun)
    → IsParentRun t parent run
    → is_match t parent run ≡ true
unfolding is_match
parent_match t parent run p = ground (
  arith,
  ≡→== run.job_id parent p.job,
  ≡→== run.scope t.scope p.scope,
  ≡→== run.window_start t.window_start p.window_start,
  ≡→== run.window_end t.window_end p.window_end,
)

-- The body of the loop goes on when some matching row meets the condition.
released-any :
    (t : Target) (rows : List JobRun) (dep : JobDependency)
    → released t rows dep ≡ any (meets dep.condition) (filter (is_match t dep.parent_job) rows)
unfolding released
released-any t rows dep = by_condition dep.condition (filter (is_match t dep.parent_job) rows)
  where
    empty_any :
        (p : JobRun → Bool) (xs : List JobRun) → any (λ run. true) xs ≡ false → any p xs ≡ false
    empty_any p xs h = elim (Bool-cases (any p xs)) [
      | inr e ↦ e
      | inl e ↦ let (a, m, q) = any_witness p xs e in cc (any-true (λ run. true) a xs m refl, h)
    ]

    by_condition :
        (c : DependencyCondition) (xs : List JobRun)
        → (if any (λ run. true) xs
            then elim c [
              | always ↦ true
              | on_complete ↦ any (λ run. is_terminal run.status) xs
              | on_success ↦ any (λ run. is_succeeded run.status) xs
            ]
            else false)
          ≡ any (meets c) xs
    by_condition c xs = elim (Bool-cases (any (λ run. true) xs)) [
      | inr none_there ↦ rw none_there (sym (empty_any (meets c) xs none_there))
      | inl some_there ↦ rw some_there (cases c some_there)
    ]
      where
        cases :
            (c : DependencyCondition)
            → any (λ run. true) xs ≡ true
            → (elim c [
              | always ↦ true
              | on_complete ↦ any (λ run. is_terminal run.status) xs
              | on_success ↦ any (λ run. is_succeeded run.status) xs
            ])
              ≡ any (meets c) xs
        cases always h = sym h
        cases on_complete h = refl
        cases on_success h = refl

-- A child is released exactly when each of its dependencies has a run of the parent, for the same
-- scope and window, that meets the dependency's condition: any run for `always`, one in a final
-- status for `on_complete`, a succeeded one for `on_success`.
pub parents_ready_iff :
    (t : Target) (r : Repo)
    → IsSound r
    → (parents_ready t r ≡ true) ↔ (
        (dep : JobDependency)
        → In dep r.deps
        → dep.child_job ≡ t.child_job
        → (k : ℕ) × (run : JobRun) × (get_run k r ≡ some run)
          × IsParentRun t dep.parent_job run
          × Meets dep.condition run)
unfolding parents_ready get_run
parents_ready_iff t r v = (forth, back)
  where
    rows : List JobRun
    rows = Dict.values r.runs

    mine : JobDependency → Bool
    mine dep = dep.child_job == t.child_job

    forth :
        all (released t rows) (filter mine r.deps) ≡ true
        → (dep : JobDependency) → In dep r.deps
        → dep.child_job ≡ t.child_job
        → (k : ℕ) × (run : JobRun) × (Dict.get r.runs k ≡ some run)
          × IsParentRun t dep.parent_job run
          × Meets dep.condition run
    forth h dep m e =
        let go =
          all_at (released t rows) dep (filter mine r.deps) h
            (In-filter mine dep r.deps m (≡→== dep.child_job t.child_job e)) in
        let (run, n, meet) =
          any_witness (meets dep.condition) (filter (is_match t dep.parent_job) rows)
            (sym (released-any t rows dep) ∙ go) in
        let (n', hit) = In-of_filter (is_match t dep.parent_job) run rows n in
        (
          run.run_id,
          run,
          stored_of_In r v run n',
          match_parent t dep.parent_job run hit,
          Meets-meets dep.condition run meet,
        )

    back :
        ((dep : JobDependency)
          → In dep r.deps
          → dep.child_job ≡ t.child_job
          → (k : ℕ) × (run : JobRun) × (Dict.get r.runs k ≡ some run)
            × IsParentRun t dep.parent_job run
            × Meets dep.condition run)
        → all (released t rows) (filter mine r.deps) ≡ true
    back h = all_of (released t rows) (filter mine r.deps) λ dep m.
        let (m', e) = In-of_filter mine dep r.deps m in
        let (k, run, g, parent, meet) = h dep m' (==→≡ dep.child_job t.child_job e) in
        released-any t rows dep
        ∙ any-true (meets dep.condition) run (filter (is_match t dep.parent_job) rows)
            (In-filter (is_match t dep.parent_job) run rows (In-values r.runs k run g)
              (parent_match t dep.parent_job run parent))
            (meets-Meets dep.condition run meet)
