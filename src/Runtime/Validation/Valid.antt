-- ===== src/Runtime/Validation/Valid.antt =====
-- What `validate` of `TaskRegistry` (runtime/registry.py) finds.
use fin_data_hub.Prelude.{
  ◌≤◌, ◌≡◌, refl, sym, ◌↔◌, inl, inr, String, Bool, true, List, [], ◌∷◌, ◌++◌, map, some, ◌==◌,
  string_eq, is_some, In, In-append, arith, count, length, Bool-cases, ==-refl,
}
use fin_data_hub.Prelude.Dict
use fin_data_hub.Prelude.Dict.{In-of_get}
use fin_data_hub.Prelude.Sort.{sorted, In-sorted, In-of_sorted}
use fin_data_hub.Runtime.Keys.{is_versioned}
use fin_data_hub.Runtime.Tasks.{TaskSpec, TaskRegistry}
use fin_data_hub.Runtime.Validation.{
  Problem, dependency_cycle, fresh_search, has, job_ids, validate_acyclic, spec_problems, validate,
}
use fin_data_hub.Runtime.Validation.Loops.{
  Leads, direct, through, Ends-irrefl, IsLoop, IsLoop-Leads,
}
use fin_data_hub.Runtime.Validation.Jobs.{visit_all_lem}
use fin_data_hub.Runtime.Validation.Problems.{
  append-nil_parts, Sound, spec_problems_iff, no_cycle_problem,
}

count-le-length : {A : Type 0} (p : A → Bool) (xs : List A) → count p xs ≤ length xs
unfolding count
count-le-length p [] = omega arith
count-le-length p (x ∷ xs) = ground (arith, count-le-length p xs)

empty_of : {A : Type 0} (xs : List A) → ((a : A) → In a xs → ⊥) → xs ≡ []
empty_of [] h = refl
empty_of (x ∷ xs) h = absurd (h x (inl refl))

job_ids-has : (tasks : TaskRegistry) (job : String) → In job (job_ids tasks) → has tasks job ≡ true
unfolding Dict.get
job_ids-has [] job m = absurd m
job_ids-has ((j, spec) ∷ tasks) job (inl e) = ground (arith, sym e, ==-refl job)
job_ids-has ((j, spec) ∷ tasks) job (inr m) = ground (arith, job_ids-has tasks job m)

In-job_ids : (tasks : TaskRegistry) (job : String) → has tasks job ≡ true → In job (job_ids tasks)
unfolding Dict.get
In-job_ids [] job h = ground arith
In-job_ids ((j, spec) ∷ tasks) job h = elim (Bool-cases (j == job)) [
  | inl same ↦ inl (ground (arith, string_eq.test_iff j job))
  | inr differs ↦ inr (In-job_ids tasks job (ground arith))
]

-- A registry is valid.
pub record IsValid (tasks : TaskRegistry) : Type 0 where
  pub registered :
      (spec : TaskSpec) (parent : String)
      → In spec (Dict.values tasks)
      → In parent spec.dependencies
      → has tasks parent ≡ true
  pub versioned :
      (spec : TaskSpec)
      → In spec (Dict.values tasks)
      → is_versioned spec.kind ≡ is_some spec.version_provider
  pub acyclic : (job : String) → Leads tasks job job → ⊥

module _ (tasks : TaskRegistry) where
  Leads-has : {a b : String} → Leads tasks a b → has tasks b ≡ true
  Leads-has (direct n) = n.1
  Leads-has (through n l) = Leads-has l

  pub validate_acyclic_lem :
      (before : String → String → Bool)
      → (cycles : List (List String)) × (validate_acyclic tasks before ≡ some cycles)
        × ((path : List String) → In path cycles → IsLoop tasks path)
        × (cycles ≡ [] → (job : String) → Leads tasks job job → ⊥)
  unfolding validate_acyclic
  validate_acyclic_lem before =
      let (s, ran, v, silent, done) =
        visit_all_lem tasks (length tasks) (sorted before (job_ids tasks)) fresh_search
          (λ job m. job_ids-has tasks job (In-of_sorted before job (job_ids tasks) m))
          (count-le-length _ tasks) (λ job e. unfold Dict.get in ground arith)
          (record {
            settled = λ h job e. unfold Dict.get in ground arith;
            loops = λ path m. absurd m;
          }) in
      (
        s.errors,
        rw ran refl,
        v.loops,
        λ h job l.
            Ends-irrefl tasks job
              (done h job
                (In-sorted before job (job_ids tasks) (In-job_ids tasks job (Leads-has l))))
              l,
      )

  In-cycle_problems :
      (path : List String) (cycles : List (List String))
      → In (dependency_cycle path) (map dependency_cycle cycles)
      → In path cycles
  In-cycle_problems path [] m = absurd m
  In-cycle_problems path (cycle ∷ cycles) (inl e) = inl (ground arith)
  In-cycle_problems path (cycle ∷ cycles) (inr m) = inr (In-cycle_problems path cycles m)

  -- `validate` returns, whatever the dependencies are. It finds no problem exactly when every parent
  -- is registered, exactly the tasks of a versioned kind have a `version_provider`, and no task needs
  -- itself, directly or through others; and every cycle that it reports is one.
  pub validate_lem :
      (before : String → String → Bool)
      → (problems : List Problem) × (validate tasks before ≡ some problems)
        × ((problems ≡ []) ↔ IsValid tasks)
        × ((path : List String) → In (dependency_cycle path) problems → IsLoop tasks path)
  unfolding validate
  validate_lem before =
      let (cycles, ran, loops, clean) = validate_acyclic_lem before in
      (
        spec_problems tasks (Dict.values tasks) ++ map dependency_cycle cycles,
        rw ran refl,
        (
          λ h.
              let (p, q) =
                append-nil_parts (spec_problems tasks (Dict.values tasks))
                  (map dependency_cycle cycles) h in
              let sound : Sound tasks (Dict.values tasks) =
                (spec_problems_iff tasks (Dict.values tasks)).0 p in
              record {
                registered = λ spec parent m n. unfold Sound in (sound spec m).0 parent n;
                versioned = λ spec m. unfold Sound in (sound spec m).1;
                acyclic = clean (no_cycles cycles q);
              },
          λ v.
              rw
                (
                  (spec_problems_iff tasks (Dict.values tasks)).1 (
                      unfold Sound in
                      λ spec m. (λ parent n. v.registered spec parent m n, v.versioned spec m)),
                  empty_of cycles (λ path m.
                      let (job, l) = IsLoop-Leads tasks path (loops path m) in v.acyclic job l),
                )
                refl,
        ),
        λ path m.
            loops path
              (elim ((In-append (dependency_cycle path) (spec_problems tasks (Dict.values tasks))
                  _).0
                m) [
                  | inl n ↦ absurd (no_cycle_problem tasks path (Dict.values tasks) n)
                  | inr n ↦ In-cycle_problems path cycles n
                ]),
      )
    where
      no_cycles : (cycles : List (List String)) → map dependency_cycle cycles ≡ [] → cycles ≡ []
      no_cycles [] h = refl
      no_cycles (x ∷ xs) h = ground arith
