-- ===== src/Runtime/Validation/Visit.antt =====
-- `visit` of `_validate_acyclic` (runtime/registry.py) returns, reports only loops, and without a report
-- has visited only tasks whose chains of dependencies end.
use fin_data_hub.Prelude.{
  ℕ, zero, suc, ◌≤◌, ◌<◌, ◌≡◌, refl, sym, subst, inl, inr, Bool, String, true, not, List, [], ◌∷◌,
  ◌++◌, Option, none, some, ◌==◌, string_eq, is_some, In, In-append, arith, count, count_less,
  count_fewer, Option-cases, Bool-cases, ==-refl, ==→≡,
}
use mathlib.Core.List.{append_assoc}
use fin_data_hub.Prelude.Dict
use fin_data_hub.Prelude.Dict.{get-put, In-of_get}
use fin_data_hub.Runtime.Tasks.{TaskSpec, TaskRegistry}
use fin_data_hub.Runtime.Validation.{
  Mark, visiting, visited, Search, set_mark, add_error, Visitor, has, parents_in, visit_parent,
  visit_parents, visit,
}
use fin_data_hub.Runtime.Validation.Loops.{Ends, ends, IsWalk, IsWalk-snoc, IsLoop}

module _ (tasks : TaskRegistry) where
  abbrev pub unmarked : Search → String × TaskSpec → Bool
  unmarked s entry = not (is_some (Dict.get s.state entry.0))

  -- the tasks without a mark
  abbrev pub left : Search → ℕ
  left s = count (unmarked s) tasks

  pub record IsSearched (s : Search) : Type 0 where
    -- if nothing is reported, all that is visited ends
    pub settled :
        s.errors ≡ [] → (job : String) → Dict.get s.state job ≡ some visited → Ends tasks job
    pub loops : (path : List String) → In path s.errors → IsLoop tasks path

  pub record Continues (s s' : Search) : Type 0 where
    pub searched : IsSearched s'
    pub open_before :
        (job : String)
        → Dict.get s'.state job ≡ some visiting
        → Dict.get s.state job ≡ some visiting
    pub fewer : left s' ≤ left s
    pub silent : s'.errors ≡ [] → s.errors ≡ []

  pub Continues-refl : (s : Search) → IsSearched s → Continues s s
  Continues-refl s v = record {
    searched = v;
    open_before = λ job h. h;
    fewer = omega arith;
    silent = λ h. h;
  }

  pub Continues-trans : (a b c : Search) → Continues a b → Continues b c → Continues a c
  Continues-trans a b c p q = record {
    searched = q.searched;
    open_before = λ job h. p.open_before job (q.open_before job h);
    fewer = omega (arith, p.fewer, q.fewer);
    silent = λ h. p.silent (q.silent h);
  }

  -- The open tasks stand on the path, which is a walk.
  pub record IsOpen (path : List String) (s : Search) : Type 0 where
    pub walk : IsWalk tasks path
    pub on_path : (job : String) → Dict.get s.state job ≡ some visiting → In job path

  left-set_mark : (job : String) (mark : Mark) (s : Search) → left (set_mark job mark s) ≤ left s
  left-set_mark job mark s =
      count_less (unmarked (set_mark job mark s)) (unmarked s) tasks
        (λ entry h. ground (arith, get-put s.state job entry.0 mark))

  left-set_mark_new :
      (job : String) (mark : Mark) (s : Search)
      → has tasks job ≡ true
      → Dict.get s.state job ≡ none
      → left (set_mark job mark s) < left s
  left-set_mark_new job mark s r free = elim (Option-cases (Dict.get tasks job)) [
    | inl absent ↦ absurd (ground arith)
    | inr (spec, e) ↦
        count_fewer (unmarked (set_mark job mark s)) (unmarked s) (job, spec) tasks
          (λ entry h. ground (arith, get-put s.state job entry.0 mark)) (In-of_get tasks job spec e)
          (ground (arith, get-put s.state job job mark, ==-refl job)) (ground arith)
  ]

  -- What a visit of a task guarantees.
  abbrev pub Visits : Visitor → ℕ → Type 0
  Visits visitor fuel =
      (job : String) (path : List String) (s : Search)
      → has tasks job ≡ true
      → Dict.get s.state job ≡ none
      → left s ≤ fuel
      → IsWalk tasks (path ++ job ∷ [])
      → ((other : String) → Dict.get s.state other ≡ some visiting → In other path)
      → IsSearched s
      → (s' : Search) × (visitor job path s ≡ some s')
        × Continues s s'
        × (s'.errors ≡ [] → Ends tasks job)

  snoc-cons : {A : Type 0} (xs : List A) (a : A) → xs ++ a ∷ [] ≡ [] → ⊥
  snoc-cons [] a h = ground arith
  snoc-cons (x ∷ xs) a h = ground arith

  reported :
      (path : List String) (s : Search)
      → IsSearched s
      → IsLoop tasks path
      → Continues s (add_error path s)
  reported path s v l = record {
    searched = record {
      settled = λ h. absurd (snoc-cons s.errors path h);
      loops = λ other m. elim ((In-append other s.errors (path ∷ [])).0 m) [
        | inl old ↦ v.loops other old
        | inr (inl new) ↦ subst (IsLoop tasks) (sym new) l
        | inr (inr none_there) ↦ absurd none_there
      ];
    };
    open_before = λ job h. h;
    fewer = omega arith;
    silent = λ h. absurd (snoc-cons s.errors path h);
  }

  module _ (visitor : Visitor) (fuel : ℕ) (visits : Visits visitor fuel) (node : String)
      (path : List String) where
    visit_parent_lem :
        (parent : String) (s : Search)
        → In parent (parents_in tasks node)
        → left s ≤ fuel
        → IsOpen (path ++ node ∷ []) s
        → IsSearched s
        → (s' : Search) × (visit_parent tasks visitor node path parent s ≡ some s')
          × Continues s s'
          × (s'.errors ≡ [] → has tasks parent ≡ true → Ends tasks parent)
    unfolding visit_parent
    visit_parent_lem parent s m enough o v = elim (Bool-cases (has tasks parent)) [
      | inr unknown ↦ (s, rw unknown refl, Continues-refl s v, λ h r. absurd (ground arith))
      | inl known ↦ by_mark known (Dict.get s.state parent) refl
    ]
      where
        by_mark :
            has tasks parent ≡ true
            → (mark : Option Mark) → Dict.get s.state parent ≡ mark
            → (s' : Search) × (visit_parent tasks visitor node path parent s ≡ some s')
              × Continues s s'
              × (s'.errors ≡ [] → has tasks parent ≡ true → Ends tasks parent)
        by_mark known (some Mark.visited) e =
            (s, rw (known, e) refl, Continues-refl s v, λ h r. v.settled h parent e)
        by_mark known (some Mark.visiting) e = (
          add_error (path ++ node ∷ parent ∷ []) s,
          rw (known, e) refl,
          reported (path ++ node ∷ parent ∷ []) s v (record {
            front = path ++ node ∷ [];
            last = parent;
            split = sym (append_assoc path (node ∷ []) (parent ∷ []));
            walk = IsWalk-snoc tasks path node parent o.walk (m, known);
            again = o.on_path parent e;
          }),
          λ h r. absurd (snoc-cons s.errors (path ++ node ∷ parent ∷ []) h),
        )
        by_mark known none e =
            let far =
              subst (IsWalk tasks) (sym (append_assoc path (node ∷ []) (parent ∷ [])))
                (IsWalk-snoc tasks path node parent o.walk (m, known)) in
            let (s', ran, c, done) =
              visits parent (path ++ node ∷ []) s known e enough far o.on_path v in
            (s', rw (known, e) ran, c, λ h r. done h)

    visit_parents_lem :
        (parents : List String) (s : Search)
        → ((parent : String) → In parent parents → In parent (parents_in tasks node))
        → left s ≤ fuel
        → IsOpen (path ++ node ∷ []) s
        → IsSearched s
        → (s' : Search) × (visit_parents tasks visitor node path parents s ≡ some s')
          × Continues s s'
          × (s'.errors ≡ []
              → (parent : String) → In parent parents
              → has tasks parent ≡ true
              → Ends tasks parent)
    unfolding visit_parents
    visit_parents_lem [] s sub enough o v = (s, refl, Continues-refl s v, λ h parent m r. absurd m)
    visit_parents_lem (parent ∷ parents) s sub enough o v =
        let (s1, ran, c, done) = visit_parent_lem parent s (sub parent (inl refl)) enough o v in
        let (s2, ran', c', done') =
          visit_parents_lem parents s1 (λ p m. sub p (inr m)) (omega (arith, c.fewer))
            (record { walk = o.walk; on_path = λ job h. o.on_path job (c.open_before job h) })
            c.searched in
        (
          s2,
          rw ran ran',
          Continues-trans s s1 s2 c c',
          λ h p m r. elim m [
            | inl same ↦
                subst (Ends tasks) (sym same)
                  (done (c'.silent h) (subst (λ x. has tasks x ≡ true) same r))
            | inr n ↦ done' h p n r
          ],
        )

  -- an open task is not visited yet
  opened-IsSearched :
      (job : String) (s : Search) → IsSearched s → IsSearched (set_mark job Mark.visiting s)
  opened-IsSearched job s v = record {
    settled =
        λ h other e. v.settled h other (ground (arith, get-put s.state job other Mark.visiting, e));
    loops = v.loops;
  }

  closed :
      (job : String) (s s' : Search)
      → Continues (set_mark job Mark.visiting s) s'
      → (s'.errors ≡ [] → Ends tasks job)
      → Continues s (set_mark job Mark.visited s')
  closed job s s' c done = record {
    searched = record {
      settled = λ h other e. elim (Bool-cases (job == other)) [
        | inl same ↦ subst (Ends tasks) (==→≡ job other same) (done h)
        | inr differs ↦
            c.searched.settled h other (ground (arith, get-put s'.state job other Mark.visited, e))
      ];
      loops = c.searched.loops;
    };
    open_before = λ other h. ground (
      arith,
      h,
      get-put s'.state job other Mark.visited,
      c.open_before other,
      get-put s.state job other Mark.visiting,
    );
    fewer =
        omega
          (arith, left-set_mark job Mark.visited s', c.fewer, left-set_mark job Mark.visiting s);
    silent = c.silent;
  }

  pub visit_lem : (fuel : ℕ) → Visits (visit tasks fuel) fuel
  unfolding visit
  visit_lem zero job path s r free enough w shown v =
      absurd (omega (arith, left-set_mark_new job Mark.visiting s r free))
  visit_lem (suc fuel) job path s r free enough w shown v =
      let (s', ran, c, done) =
        visit_parents_lem (visit tasks fuel) fuel (visit_lem fuel) job path (parents_in tasks job)
          (set_mark job Mark.visiting s) (λ parent m. m)
          (omega (arith, left-set_mark_new job Mark.visiting s r free))
          (record {
            walk = w;
            on_path = λ other h. elim (Bool-cases (job == other)) [
              | inl same ↦
                  (In-append other path (job ∷ [])).1 (inr (inl (sym (==→≡ job other same))))
              | inr differs ↦
                  (In-append other path (job ∷ [])).1
                    (inl (shown other (ground (arith, get-put s.state job other Mark.visiting, h))))
            ];
          })
          (opened-IsSearched job s v) in
      (
        set_mark job Mark.visited s',
        rw ran refl,
        closed job s s' c (λ h. ends (λ parent n. done h parent n.0 n.1)),
        λ h. ends (λ parent n. done h parent n.0 n.1),
      )
