-- ===== src/Runtime/Validation/Problems.antt =====
-- The problems that `validate` (runtime/registry.py) finds in each task.
use fin_data_hub.Prelude.{
  ◌≡◌, refl, ap, ◌∙◌, sym, subst, ◌⊎◌, ◌↔◌, inl, inr, String, true, List, [], ◌∷◌, ◌++◌, string_eq,
  is_some, In, In-append, arith, Option-cases, Bool-cases,
}
use fin_data_hub.Runtime.Keys.{is_versioned}
use fin_data_hub.Runtime.Tasks.{TaskSpec, TaskRegistry}
use fin_data_hub.Runtime.Validation.{
  dependency_cycle, has, parent_problems, missing_version, unwanted_version, spec_problems,
}

pub append-nil_parts : {A : Type 0} (xs ys : List A) → xs ++ ys ≡ [] → (xs ≡ []) × (ys ≡ [])
append-nil_parts [] ys h = (refl, h)
append-nil_parts (x ∷ xs) ys h = ground arith

module _ (tasks : TaskRegistry) where
  parent_problems_iff :
      (job : String) (parents : List String)
      → (parent_problems tasks job parents ≡ [])
        ↔ ((parent : String) → In parent parents → has tasks parent ≡ true)
  parent_problems_iff job [] = (λ h parent m. absurd m, λ h. refl)
  parent_problems_iff job (parent ∷ parents) = elim (Bool-cases (has tasks parent)) [
    | inl known ↦ (
      λ h p m. elim m [
        | inl e ↦ ap (has tasks) e ∙ known
        | inr n ↦ (parent_problems_iff job parents).0 (rw known at h) p n
      ],
      λ h. rw known ((parent_problems_iff job parents).1 (λ p m. h p (inr m))),
    )
    | inr unknown ↦ (λ h. ground arith, λ h. ground (arith, h parent (inl refl)))
  ]

  version_problems_iff :
      (spec : TaskSpec)
      → ((missing_version tasks spec ≡ []) × (unwanted_version tasks spec ≡ []))
        ↔ (is_versioned spec.kind ≡ is_some spec.version_provider)
  version_problems_iff spec = elim (Option-cases spec.version_provider) [
    | inl e ↦ rw e (ground arith)
    | inr (version, e) ↦ rw e (ground arith)
  ]

  unfoldable pub Sound : List TaskSpec → Type 0
  Sound specs =
      (spec : TaskSpec)
      → In spec specs
      → ((parent : String) → In parent spec.dependencies → has tasks parent ≡ true)
        × (is_versioned spec.kind ≡ is_some spec.version_provider)

  pub spec_problems_iff : (specs : List TaskSpec) → (spec_problems tasks specs ≡ []) ↔ Sound specs
  unfolding spec_problems Sound
  spec_problems_iff [] = (λ h spec m. absurd m, λ h. refl)
  spec_problems_iff (spec ∷ specs) = (
    λ h other m.
        let (p, h1) =
          append-nil_parts (parent_problems tasks spec.job_id spec.dependencies)
            (missing_version tasks spec
              ++ (unwanted_version tasks spec ++ spec_problems tasks specs))
            h in
        let (q, h2) =
          append-nil_parts (missing_version tasks spec)
            (unwanted_version tasks spec ++ spec_problems tasks specs) h1 in
        let (r, t) =
          append-nil_parts (unwanted_version tasks spec) (spec_problems tasks specs) h2 in
        elim m [
          | inl e ↦
              subst
                (λ (x : TaskSpec).
                  ((parent : String) → In parent x.dependencies → has tasks parent ≡ true)
                  × (is_versioned x.kind ≡ is_some x.version_provider))
                (sym e)
                (
                  (parent_problems_iff spec.job_id spec.dependencies).0 p,
                  (version_problems_iff spec).0 (q, r),
                )
          | inr n ↦ (spec_problems_iff specs).0 t other n
        ],
    λ h.
        let (known, suits) = h spec (inl refl) in
        let (q, r) = (version_problems_iff spec).1 suits in
        rw ((parent_problems_iff spec.job_id spec.dependencies).1 known, q, r)
          ((spec_problems_iff specs).1 (λ other m. h other (inr m))),
  )

  no_cycle_parent :
      (path : List String) (job : String) (parents : List String)
      → In (dependency_cycle path) (parent_problems tasks job parents)
      → ⊥
  no_cycle_parent path job [] m = absurd m
  no_cycle_parent path job (parent ∷ parents) m = elim (Bool-cases (has tasks parent)) [
    | inl known ↦ no_cycle_parent path job parents (rw known at m)
    | inr unknown ↦ elim (rw unknown at m) [
      | inl e ↦ ground (arith, e)
      | inr n ↦ no_cycle_parent path job parents n
    ]
  ]

  no_cycle_version :
      (path : List String) (spec : TaskSpec)
      → In (dependency_cycle path) (missing_version tasks spec)
        ⊎ In (dependency_cycle path) (unwanted_version tasks spec)
      → ⊥
  no_cycle_version path spec m = elim (Bool-cases (is_versioned spec.kind)) [
    | inl versioned ↦ elim (Option-cases spec.version_provider) [
      | inl e ↦ ground (arith, rw (versioned, e) at m)
      | inr (version, e) ↦ ground (arith, rw (versioned, e) at m)
    ]
    | inr plain ↦ elim (Option-cases spec.version_provider) [
      | inl e ↦ ground (arith, rw (plain, e) at m)
      | inr (version, e) ↦ ground (arith, rw (plain, e) at m)
    ]
  ]

  pub no_cycle_problem :
      (path : List String) (specs : List TaskSpec)
      → In (dependency_cycle path) (spec_problems tasks specs)
      → ⊥
  unfolding spec_problems
  no_cycle_problem path [] m = absurd m
  no_cycle_problem path (spec ∷ specs) m =
      elim ((In-append (dependency_cycle path) (parent_problems tasks spec.job_id spec.dependencies)
          (missing_version tasks spec
            ++ (unwanted_version tasks spec ++ spec_problems tasks specs))).0
        m) [
          | inl n ↦ no_cycle_parent path spec.job_id spec.dependencies n
          | inr n ↦
              elim ((In-append (dependency_cycle path) (missing_version tasks spec)
                  (unwanted_version tasks spec ++ spec_problems tasks specs)).0
                n) [
                  | inl k ↦ no_cycle_version path spec (inl k)
                  | inr k ↦
                      elim ((In-append (dependency_cycle path) (unwanted_version tasks spec)
                          (spec_problems tasks specs)).0
                        k) [
                          | inl j ↦ no_cycle_version path spec (inr j)
                          | inr j ↦ no_cycle_problem path specs j
                        ]
                ]
        ]
