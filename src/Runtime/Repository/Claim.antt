-- ===== src/Runtime/Repository/Claim.antt =====
-- `claim_next` of `InMemoryMetaRepository` (runtime/repository.py) picks the right run.
use fin_data_hub.Prelude.{
  ℕ, ◌≤◌, ◌<◌, String, ◌≡◌, refl, sym, ◌⊎◌, inl, inr, true, false, Option, none, some, List, arith,
  ◌==◌, nat_eq, string_eq, pair_eq, if◌then◌else◌, Bool-cases, In, In-filter, any, any-false, ≡→==,
  any_witness, filter, ==→≡,
}
use fin_data_hub.Prelude.Dict
use fin_data_hub.Prelude.Dict.{get-put, In-values}
use fin_data_hub.Prelude.Sort.{head?, head?-sorted, head?-sorted-none}
use fin_data_hub.Runtime.Models.{JobRun, JobStatus, is_running, is_claimable}
use fin_data_hub.Runtime.Repository.State.{Repo}
use fin_data_hub.Runtime.Repository.Runs.{
  slot, occupies, is_candidate, claims_first, candidates, claimed, claim_next, get_run,
}
use fin_data_hub.Runtime.Repository.Preserve.{
  IsSound, stored_of_In, Picked, picked, claims_first-IsOrder,
}

-- A run that may be claimed at `moment`: queued or retrying, due, and no running row in its slot.
pub record IsReady (r : Repo) (moment k : ℕ) (run : JobRun) : Type 0 where
  pub stored : get_run k r ≡ some run
  pub claimable : is_claimable run.status ≡ true
  pub due : run.scheduled_at ≤ moment
  pub idle :
      (j : ℕ) (a : JobRun)
      → get_run j r ≡ some a
      → is_running a.status ≡ true
      → slot a ≡ slot run
      → ⊥

-- The more urgent run, and of equally urgent ones the older.
pub IsBefore : JobRun → JobRun → Type 0
IsBefore a b = (a.priority < b.priority) ⊎ ((a.priority ≡ b.priority) × (a.run_id ≤ b.run_id))

IsBefore-of_claims_first : (a b : JobRun) → claims_first a b ≡ true → IsBefore a b
unfolding IsBefore claims_first
IsBefore-of_claims_first a b h = ground arith

module _ (r : Repo) (v : IsSound r) (moment : ℕ) where
  busy_or_idle :
      (run : JobRun)
      → (any (occupies (slot run)) (Dict.values r.runs) ≡ false)
        ⊎ ((j : ℕ) × (a : JobRun) × (get_run j r ≡ some a)
            × (is_running a.status ≡ true)
            × (slot a ≡ slot run))
  unfolding get_run
  busy_or_idle run = elim (Bool-cases (any (occupies (slot run)) (Dict.values r.runs))) [
    | inr idle ↦ inl idle
    | inl busy ↦
        let (a, m, o) = any_witness (occupies (slot run)) (Dict.values r.runs) busy in
        inr
          (a.run_id, a, stored_of_In r v a m, ground arith, ==→≡ (slot a) (slot run) (ground arith))
  ]

  -- A ready run is among the candidates.
  ready_listed :
      (k : ℕ) (run : JobRun)
      → IsReady r moment k run
      → In run (filter (is_candidate (Dict.values r.runs) moment) (Dict.values r.runs))
  unfolding is_candidate get_run
  ready_listed k run h =
      In-filter (is_candidate rows moment) run rows (In-values r.runs k run h.stored)
        (elim (busy_or_idle run) [
          | inl idle ↦ ground (arith, h.claimable, h.due)
          | inr (j, a, g, runs, same) ↦ absurd (h.idle j a g runs same)
        ])
    where
      rows : List JobRun
      rows = Dict.values r.runs

  Picked-IsReady : (run : JobRun) → Picked r moment run → IsReady r moment run.run_id run
  unfolding get_run
  Picked-IsReady run p = record {
    stored = p.stored;
    claimable = p.claimable;
    due = p.due;
    idle = λ j a g runs same. let clear = any_false' j a g in ground (arith, clear, ≡→==' a same);
  }
    where
      any_false' : (j : ℕ) (a : JobRun) → Dict.get r.runs j ≡ some a → occupies (slot run) a ≡ false
      any_false' j a g =
          any-false (occupies (slot run)) a (Dict.values r.runs) p.idle (In-values r.runs j a g)

      ≡→==' : (a : JobRun) → slot a ≡ slot run → (slot a == slot run) ≡ true
      ≡→==' a e = ≡→== (slot a) (slot run) e

  claim_next-some :
      (worker : String) (run : JobRun) (r' : Repo)
      → claim_next worker moment r ≡ (some run, r')
      → (old : JobRun) × IsReady r moment run.run_id old
        × (run ≡ claimed worker moment old)
        × ((run.status ≡ JobStatus.running)
            × (run.worker ≡ some worker)
            × (run.started_at ≡ some moment))
        × ((k : ℕ) (a : JobRun) → IsReady r moment k a → (a ≡ old) ⊎ IsBefore old a)
        × ((k : ℕ) → get_run k r' ≡ (if run.run_id == k then some run else get_run k r))
  unfolding claim_next get_run
  claim_next-some worker run r' h = from (head? (candidates (Dict.values r.runs) moment)) refl
    where
      from :
          (o : Option JobRun)
          → head? (candidates (Dict.values r.runs) moment) ≡ o
          → (old : JobRun) × IsReady r moment run.run_id old
            × (run ≡ claimed worker moment old)
            × ((run.status ≡ JobStatus.running)
                × (run.worker ≡ some worker)
                × (run.started_at ≡ some moment))
            × ((k : ℕ) (a : JobRun) → IsReady r moment k a → (a ≡ old) ⊎ IsBefore old a)
            × ((k : ℕ)
                → Dict.get r'.runs k ≡ (if run.run_id == k then some run else Dict.get r.runs k))
      from none e = absurd (ground arith)
      from (some old) e =
          let q : claimed worker moment old ≡ run = ground arith in
          let s : record r { runs = Dict.put r.runs old.run_id (claimed worker moment old) } ≡ r' =
            ground arith in
          (
            old,
            rw (← q) (Picked-IsReady old (picked r v moment old e)),
            sym q,
            rw (← q) (refl, refl, refl),
            λ k a ready.
                unfold candidates in
                (elim ((head?-sorted claims_first claims_first-IsOrder _ old e).1 a
                  (ready_listed k a ready)) [
                    | inl same ↦ inl same
                    | inr first ↦ inr (IsBefore-of_claims_first old a first)
                  ]),
            λ k. rw (← q, ← s) (get-put r.runs old.run_id k (claimed worker moment old)),
          )

  claim_next-none :
      (worker : String) (r' : Repo)
      → claim_next worker moment r ≡ (none, r')
      → (r' ≡ r) × ((k : ℕ) (a : JobRun) → IsReady r moment k a → ⊥)
  unfolding claim_next
  claim_next-none worker r' h = from (head? (candidates (Dict.values r.runs) moment)) refl
    where
      from :
          (o : Option JobRun)
          → head? (candidates (Dict.values r.runs) moment) ≡ o
          → (r' ≡ r) × ((k : ℕ) (a : JobRun) → IsReady r moment k a → ⊥)
      from (some old) e = absurd (ground arith)
      from none e = (
        ground arith,
        λ k a ready.
            unfold candidates in
            head?-sorted-none claims_first claims_first-IsOrder _ a e (ready_listed k a ready),
      )

  -- A run that `claim_next` returns was ready; it is now running, claimed by the worker at the
  -- moment, no other ready run comes before it, and no other row has changed. It returns `None` only when nothing is ready, and
  -- then leaves the store as it was.
  pub claim_next_lem :
      (worker : String)
      → ((run : JobRun) (r' : Repo)
          → claim_next worker moment r ≡ (some run, r')
          → (old : JobRun) × IsReady r moment run.run_id old
            × (run ≡ claimed worker moment old)
            × ((run.status ≡ JobStatus.running)
                × (run.worker ≡ some worker)
                × (run.started_at ≡ some moment))
            × ((k : ℕ) (a : JobRun) → IsReady r moment k a → (a ≡ old) ⊎ IsBefore old a)
            × ((k : ℕ) → get_run k r' ≡ (if run.run_id == k then some run else get_run k r)))
        × ((r' : Repo)
            → claim_next worker moment r ≡ (none, r')
            → (r' ≡ r) × ((k : ℕ) (a : JobRun) → IsReady r moment k a → ⊥))
  claim_next_lem worker = (claim_next-some worker, claim_next-none worker)
