-- ===== src/Runtime/Validation/Jobs.antt =====
-- The loop of `_validate_acyclic` (runtime/registry.py) over the job ids.
use fin_data_hub.Prelude.{
  ℕ, ◌≤◌, ◌≡◌, refl, sym, subst, inl, inr, String, true, List, [], ◌∷◌, Option, none, some,
  string_eq, In, arith,
}
use fin_data_hub.Prelude.Dict
use fin_data_hub.Prelude.Dict.{get-put, In-of_get}
use fin_data_hub.Runtime.Tasks.{TaskRegistry}
use fin_data_hub.Runtime.Validation.{Mark, visiting, Search, has, visit_all}
use fin_data_hub.Runtime.Validation.Loops.{Ends}
use fin_data_hub.Runtime.Validation.Visit.{left, IsSearched, visit_lem}

module _ (tasks : TaskRegistry) where
  -- What the loop over the jobs guarantees.
  abbrev pub VisitsAll : ℕ → List String → Type 0
  VisitsAll fuel jobs =
      (s : Search)
      → ((job : String) → In job jobs → has tasks job ≡ true)
      → left tasks s ≤ fuel
      → ((job : String) → Dict.get s.state job ≡ some visiting → ⊥)
      → IsSearched tasks s
      → (s' : Search) × (visit_all tasks fuel jobs s ≡ some s')
        × IsSearched tasks s'
        × (s'.errors ≡ [] → s.errors ≡ [])
        × (s'.errors ≡ [] → (job : String) → In job jobs → Ends tasks job)

  first_and_rest :
      (job : String) (jobs : List String)
      → Ends tasks job
      → ((other : String) → In other jobs → Ends tasks other)
      → (other : String) → In other (job ∷ jobs)
      → Ends tasks other
  first_and_rest job jobs here there other (inl same) = subst (Ends tasks) (sym same) here
  first_and_rest job jobs here there other (inr m) = there other m

  visit_job :
      (fuel : ℕ) (job : String) (jobs : List String)
      → VisitsAll fuel jobs
      → VisitsAll fuel (job ∷ jobs)
  unfolding visit_all
  visit_job fuel job jobs rest s known enough shut v = from (Dict.get s.state job) refl
    where
      from :
          (mark : Option Mark)
          → Dict.get s.state job ≡ mark
          → (s' : Search) × (visit_all tasks fuel (job ∷ jobs) s ≡ some s')
            × IsSearched tasks s'
            × (s'.errors ≡ [] → s.errors ≡ [])
            × (s'.errors ≡ [] → (other : String) → In other (job ∷ jobs) → Ends tasks other)
      from (some Mark.visiting) e = absurd (shut job e)
      from (some Mark.visited) e =
          let (s', ran, v', silent, done) = rest s (λ other m. known other (inr m)) enough shut v in
          (
            s',
            rw e ran,
            v',
            silent,
            λ h. first_and_rest job jobs (v.settled (silent h) job e) (done h),
          )
      from none e =
          let (s1, ran, c, done) =
            visit_lem tasks fuel job [] s (known job (inl refl)) e enough tt
              (λ other h. shut other h) v in
          let (s2, ran', v', silent, done') =
            rest s1 (λ other m. known other (inr m)) (omega (arith, c.fewer))
              (λ other h. shut other (c.open_before other h)) c.searched in
          (
            s2,
            rw (e, ran) ran',
            v',
            λ h. c.silent (silent h),
            λ h. first_and_rest job jobs (done (silent h)) (done' h),
          )

  pub visit_all_lem : (fuel : ℕ) (jobs : List String) → VisitsAll fuel jobs
  unfolding visit_all
  visit_all_lem fuel [] s known enough shut v = (s, refl, v, λ h. h, λ h job m. absurd m)
  visit_all_lem fuel (job ∷ jobs) s known enough shut v =
      visit_job fuel job jobs (visit_all_lem fuel jobs) s known enough shut v
