-- ===== src/Runtime/Repository/Preserve.antt =====
-- Each method of `InMemoryMetaRepository` that writes runs keeps the invariant.
use fin_data_hub.Prelude.{
  ℕ, ◌+◌, ◌≤◌, String, ◌≡◌, refl, ap, ◌∙◌, inl, inr, true, false, Option, some, arith, nat_eq,
  string_eq, pair_eq, Bool-cases, Option-cases, [], ◌∷◌, In, In-of_filter, any, any-false, filter,
  List, ≡→==,
}
use fin_data_hub.Prelude.Dict
use fin_data_hub.Prelude.Dict.{Dict, In-values, key_of_In, get_of_In}
use fin_data_hub.Prelude.Sort.{IsOrder, head?, head?-sorted}
use fin_data_hub.Runtime.Result.{Result, ok, raise}
use fin_data_hub.Runtime.Models.{JobRun, JobIntent, is_running, is_claimable}
use fin_data_hub.Runtime.Repository.State.{Repo}
use fin_data_hub.Runtime.Repository.Runs.{
  is_live, slot, holds_key, occupies, new_run, insert_run, is_candidate, claims_first, candidates,
  claimed, claim_next, Outcome, finished, finish_row, finish, success, succeed, interrupt_all,
  failure, fail, interruption, interrupt, belongs_to,
}
use fin_data_hub.Runtime.Repository.Invariant.{
  IsValid, WithinBudget, Change-IsValid, insert-IsValid,
}

-- The invariant of a whole store.
abbrev pub IsSound : Repo → Type 0
IsSound r = IsValid r.runs r.next_run_id

-- A row of the store is stored under its own id.
pub stored_of_In :
    (r : Repo)
    → IsSound r
    → (run : JobRun) → In run (Dict.values r.runs)
    → Dict.get r.runs run.run_id ≡ some run
stored_of_In r v run m =
    let (k, n) = key_of_In r.runs run m in
    let g = get_of_In r.runs k run v.dict n in ap (Dict.get r.runs) (v.keyed k run g) ∙ g

-- What `claim_next` picks is stored, can be claimed, is due, and its slot has no running row.
pub record Picked (r : Repo) (moment : ℕ) (run : JobRun) : Type 0 where
  pub stored : Dict.get r.runs run.run_id ≡ some run
  pub claimable : is_claimable run.status ≡ true
  pub due : run.scheduled_at ≤ moment
  pub idle : any (occupies (slot run)) (Dict.values r.runs) ≡ false

module _ (r : Repo) (v : IsSound r) where
  pub insert_run-IsSound :
      (key : String) (intent : JobIntent) (request_id : Option String) (now : ℕ)
      → IsSound (insert_run key intent request_id now r).1
  unfolding insert_run
  insert_run-IsSound key intent request_id now =
      elim (Bool-cases (any (holds_key key) (Dict.values r.runs))) [
        | inl taken ↦ rw taken v
        | inr free ↦ rw free (
            insert-IsValid v (new_run r.next_run_id key intent request_id now) refl refl
              (ground arith, inr refl)
              (λ k a g live e.
                let clear =
                  any-false (holds_key key) a (Dict.values r.runs) free (In-values r.runs k a g) in
                let same = ≡→== a.job_key key e in ground arith))
      ]

  pub candidate_of :
      (moment : ℕ) (run : JobRun)
      → In run (Dict.values r.runs)
      → is_candidate (Dict.values r.runs) moment run ≡ true
      → Picked r moment run
  unfolding is_candidate
  candidate_of moment run m c = record {
    stored = stored_of_In r v run m;
    claimable = ground arith;
    due = ground arith;
    idle = ground arith;
  }

pub claims_first-IsOrder : IsOrder claims_first
unfolding claims_first
claims_first-IsOrder = record { total = λ a b h. ground arith; trans = λ a b c h k. ground arith }

module _ (r : Repo) (v : IsSound r) where
  pub picked :
      (moment : ℕ) (run : JobRun)
      → head? (candidates (Dict.values r.runs) moment) ≡ some run
      → Picked r moment run
  unfolding candidates
  picked moment run h =
      let rows = Dict.values r.runs in
      let (m, _) =
        head?-sorted claims_first claims_first-IsOrder (filter (is_candidate rows moment) rows) run
          h in
      let (n, c) = In-of_filter (is_candidate rows moment) run rows m in
      candidate_of r v moment run n c

  -- A free slot, read from the test over all rows.
  slot_free :
      (s : String × String)
      → any (occupies s) (Dict.values r.runs) ≡ false
      → (k : ℕ) (a : JobRun) → Dict.get r.runs k ≡ some a
      → is_running a.status ≡ true
      → slot a ≡ s
      → ⊥
  slot_free s idle k a g runs e =
      let clear = any-false (occupies s) a (Dict.values r.runs) idle (In-values r.runs k a g) in
      let same = ≡→== (slot a) s e in ground arith

  take_run-IsSound :
      (worker : String) (moment : ℕ) (run : JobRun)
      → Picked r moment run
      → IsValid (Dict.put r.runs run.run_id (claimed worker moment run)) r.next_run_id
  unfolding claimed is_live
  take_run-IsSound worker moment run p =
      Change-IsValid v run.run_id run (claimed worker moment run) (record {
        found = p.stored;
        same_id = refl;
        same_key = refl;
        same_slot = refl;
        within = v.budget run.run_id run p.stored;
        revives_none = λ _. ground (arith, p.claimable);
        slot_free = λ _ k a g runs e. absurd (slot_free (slot run) p.idle k a g runs e);
      })

  pub claim_next-IsSound : (worker : String) (moment : ℕ) → IsSound (claim_next worker moment r).1
  unfolding claim_next
  claim_next-IsSound worker moment =
      elim (Option-cases (head? (candidates (Dict.values r.runs) moment))) [
        | inl e ↦ rw e v
        | inr (run, e) ↦ rw e (take_run-IsSound worker moment run (picked moment run e))
      ]

  -- `_finish` with an outcome that is not `running` and has its budget.
  pub finish_row-IsSound :
      (o : Outcome) (now id : ℕ) (run : JobRun)
      → Dict.get r.runs id ≡ some run
      → is_running o.status ≡ false
      → WithinBudget (finished o now run)
      → IsSound (finish_row o now id run r).1
  unfolding finish_row
  finish_row-IsSound o now id run g stops within = elim (Bool-cases (is_running run.status)) [
    | inr still ↦ rw still v
    | inl runs ↦ rw runs (
        Change-IsValid v id run (finished o now run) (record {
          found = g;
          same_id = refl;
          same_key = refl;
          same_slot = refl;
          within = within;
          revives_none = λ _. unfold is_live in ground (arith, runs);
          slot_free = λ starts. absurd (ground arith);
        }))
  ]

  pub finish-IsSound :
      (o : Outcome) (now id : ℕ)
      → is_running o.status ≡ false
      → ((run : JobRun) → Dict.get r.runs id ≡ some run → WithinBudget (finished o now run))
      → (run : JobRun) (r' : Repo) → finish o now id r ≡ ok (run, r')
      → IsSound r'
  unfolding finish
  finish-IsSound o now id stops within run r' h = elim (Option-cases (Dict.get r.runs id)) [
    | inl e ↦ absurd (ground arith)
    | inr (old, e) ↦
        let q : (finish_row o now id old r).1 ≡ r' = ground arith in
        rw (← q) (finish_row-IsSound o now id old e stops (within old e))
  ]

  pub succeed-IsSound :
      (id rows now : ℕ) (run : JobRun) (r' : Repo)
      → succeed id rows now r ≡ ok (run, r')
      → IsSound r'
  unfolding succeed
  succeed-IsSound id rows now =
      finish-IsSound (success rows) now id refl (λ old g. unfold finished in v.budget id old g)

  pub fail-IsSound :
      (id : ℕ) (error : String) (now : ℕ) (run : JobRun) (r' : Repo)
      → fail id error now r ≡ ok (run, r')
      → IsSound r'
  unfolding fail
  fail-IsSound id error now run r' h = elim (Option-cases (Dict.get r.runs id)) [
    | inl e ↦ absurd (ground arith)
    | inr (old, e) ↦
        finish-IsSound (failure error now old) now id (ground arith)
          (λ old' g. ground (arith, v.budget id old e)) run r' (ground arith)
  ]

  pub interrupt-IsSound :
      (id : ℕ) (reason : String) (now : ℕ) (run : JobRun) (r' : Repo)
      → interrupt id reason now r ≡ ok (run, r')
      → IsSound r'
  unfolding interrupt
  interrupt-IsSound id reason now =
      finish-IsSound (interruption reason) now id refl
        (λ old g. unfold finished in v.budget id old g)

pub interrupt_all-IsSound :
    (prefix : String) (now : ℕ) (rows : List JobRun) (n : ℕ) (r : Repo)
    → IsSound r
    → (m : ℕ) (r' : Repo) → interrupt_all prefix now rows n r ≡ ok (m, r')
    → IsSound r'
unfolding interrupt_all
interrupt_all-IsSound prefix now [] n r v m r' h = let q : r ≡ r' = ground arith in rw (← q) v
interrupt_all-IsSound prefix now (run ∷ rows) n r v m r' h =
    elim (Bool-cases (belongs_to prefix run)) [
      | inr other ↦ interrupt_all-IsSound prefix now rows n r v m r' (ground arith)
      | inl ours ↦
          reclaim ours (interrupt run.run_id "停机超时" now r) refl
            (interrupt_all-IsSound prefix now rows)
    ]
  where
    reclaim :
        belongs_to prefix run ≡ true
        → (x : Result (JobRun × Repo)) → interrupt run.run_id "停机超时" now r ≡ x
        → ((n : ℕ) (r : Repo)
            → IsSound r
            → (m : ℕ) (r' : Repo) → interrupt_all prefix now rows n r ≡ ok (m, r')
            → IsSound r')
        → IsSound r'
    reclaim ours (raise x) e ih = absurd (ground arith)
    reclaim ours (ok (run', s)) e ih =
        ih (n + 1) s (interrupt-IsSound r v run.run_id "停机超时" now run' s e) m r' (ground arith)
