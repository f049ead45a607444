-- ===== src/Runtime/Sql/Claim.antt =====
-- `claim_next` of `SqlMetaRepository` (runtime/repository.py) does what the store in memory does.
use fin_data_hub.Prelude.{
  ℕ, String, ◌≡◌, refl, sym, ap, ◌∙◌, ◌⊎◌, inl, inr, true, List, Option, none, some, arith, Bool,
  ==-refl, ◌==◌, nat_eq, string_eq, pair_eq, Option-cases, In, In-filter, In-of_filter, any, filter,
  ◌&&◌, subst, leb, not,
}
use fin_data_hub.Prelude.Dict
use fin_data_hub.Prelude.Sort.{IsOrder, sorted, head?, head?-sorted, head?-sorted-none}
use fin_data_hub.Runtime.Result.{ok}
use fin_data_hub.Runtime.Models.{JobRun, is_claimable}
use fin_data_hub.Runtime.Repository.State.{Repo}
use fin_data_hub.Runtime.Repository.Runs as Memory
use fin_data_hub.Runtime.Repository.Runs.{
  slot, occupies, is_candidate, claims_first, candidates, claimed, take_run,
}
use fin_data_hub.Runtime.Repository.Preserve.{IsSound, claims_first-IsOrder, Picked, picked}
use fin_data_hub.Runtime.Sql.Table.{rewritten, one}
use fin_data_hub.Runtime.Sql.Database.{Engine, Db}
use fin_data_hub.Runtime.Sql.Runs as Sql
use fin_data_hub.Runtime.Sql.Runs.{
  rows, scope_busy, can_claim, candidate, set_claimed, update_claimed,
}
use fin_data_hub.Runtime.Sql.Simulation.{
  Simulates, Matches, Holds, filter_stored, update-Holds, In-same, any-same,
}

-- Of the same runs, listed in two orders, sorting puts the same one first, if the ids tell them apart.
pub head?_same :
    (le : JobRun → JobRun → Bool) (o : IsOrder le)
    → ((a b : JobRun) → le a b ≡ true → le b a ≡ true → a.run_id ≡ b.run_id)
    → (xs ys : List JobRun) → ((a : JobRun) → In a xs → In a ys)
    → ((a : JobRun) → In a ys → In a xs)
    → ((a b : JobRun) → In a xs → In b xs → a.run_id ≡ b.run_id → a ≡ b)
    → head? (sorted le xs) ≡ head? (sorted le ys)
head?_same le o strict xs ys forth back apart =
    from (Option-cases (head? (sorted le xs))) (Option-cases (head? (sorted le ys)))
  where
    level :
        (a b : JobRun) → (b ≡ a) ⊎ (le a b ≡ true) → (a ≡ b) ⊎ (le b a ≡ true) → a.run_id ≡ b.run_id
    level a b (inl p) q = ap (λ (x : JobRun). x.run_id) (sym p)
    level a b (inr f) (inl q) = ap (λ (x : JobRun). x.run_id) q
    level a b (inr f) (inr g) = strict a b f g

    from :
        (head? (sorted le xs) ≡ none) ⊎ ((a : JobRun) × (head? (sorted le xs) ≡ some a))
        → (head? (sorted le ys) ≡ none) ⊎ ((a : JobRun) × (head? (sorted le ys) ≡ some a))
        → head? (sorted le xs) ≡ head? (sorted le ys)
    from (inl p) (inl q) = p ∙ sym q
    from (inl p) (inr (b, q)) =
        absurd (head?-sorted-none le o xs b p (back b (head?-sorted le o ys b q).0))
    from (inr (a, p)) (inl q) =
        absurd (head?-sorted-none le o ys a q (forth a (head?-sorted le o xs a p).0))
    from (inr (a, p)) (inr (b, q)) =
        let (m, first) = head?-sorted le o xs a p in
        let (n, first') = head?-sorted le o ys b q in
        p
        ∙ ap some (apart a b m (back b n) (level a b (first b (back b n)) (first' a (forth a m))))
        ∙ sym q

module _ (e : Engine) (db : Db e) (r : Repo) (v : IsSound r) (s : Simulates e db r) where
  scope_busy_same :
      (run : JobRun) → scope_busy (rows e db) run ≡ any (occupies (slot run)) (Dict.values r.runs)
  unfolding scope_busy
  scope_busy_same run =
      any-same _ (occupies (slot run)) (rows e db) (Dict.values r.runs)
        (λ a m t. (a, (In-same e db r v s a).0 m, ground arith))
        (λ a m t. (a, (In-same e db r v s a).1 m, ground arith))

  can_claim_same :
      (moment : ℕ) (run : JobRun)
      → can_claim (rows e db) moment run ≡ is_candidate (Dict.values r.runs) moment run
  unfolding can_claim is_candidate
  can_claim_same moment run =
      ap (λ b. is_claimable run.status && leb run.scheduled_at moment && not b)
        (scope_busy_same run)

  candidate_same :
      (moment : ℕ) → candidate e moment db ≡ head? (candidates (Dict.values r.runs) moment)
  unfolding candidate candidates
  candidate_same moment =
      head?_same claims_first claims_first-IsOrder (λ a b f g. unfold claims_first in ground arith)
        (filter ours (rows e db)) (filter theirs (Dict.values r.runs))
        (λ a m.
          let (n, t) = In-of_filter ours a (rows e db) m in
          In-filter theirs a (Dict.values r.runs) ((In-same e db r v s a).0 n)
            (sym (can_claim_same moment a) ∙ t))
        (λ a m.
          let (n, t) = In-of_filter theirs a (Dict.values r.runs) m in
          In-filter ours a (rows e db) ((In-same e db r v s a).1 n) (can_claim_same moment a ∙ t))
        (λ a b m n same.
          let g = s.runs.stored a (In-of_filter ours a (rows e db) m).0 in
          let h = s.runs.stored b (In-of_filter ours b (rows e db) n).0 in
          ground (arith, ap (Dict.get r.runs) same))
    where
      ours : JobRun → Bool
      ours = can_claim (rows e db) moment

      theirs : JobRun → Bool
      theirs = is_candidate (Dict.values r.runs) moment

  take_run-Matches :
      (worker : String) (moment : ℕ) (a : JobRun)
      → Picked r moment a
      → Matches e
          (update_claimed e worker moment (some a) db)
          (ok (take_run worker moment (some a) r))
  unfolding update_claimed take_run one
  take_run-Matches worker moment a p =
      let hit = λ (x : JobRun). is_claimable x.status in
      let b = claimed worker moment a in
      let q : rewritten hit (set_claimed worker moment) a ≡ b = rw (p.claimable) refl in
      let table = e.job_runs.rows (
        e.job_runs.update (λ x. x.run_id == a.run_id && hit x) (set_claimed worker moment)
          db.runs) in
      let updated =
        update-Holds s.runs v a.run_id a p.stored hit (set_claimed worker moment) (λ x. refl) table
          (e.job_runs.rows-update (λ x. x.run_id == a.run_id && hit x) (set_claimed worker moment)
            db.runs (λ x. ==-refl x.run_id)) in
      let h = subst (λ x. Holds table (Dict.put r.runs a.run_id x)) q updated in
      let read = filter_stored h a.run_id b (Dict.get-put_self r.runs a.run_id b) refl in
      rw read (refl, record { runs = h; next = s.next })

  -- In tables that hold what the store in memory holds, `claim_next` claims the run that it claims
  -- there, or none where it claims none there, and leaves tables that hold what is then in memory.
  pub claim_next-Matches :
      (worker : String) (moment : ℕ)
      → Matches e (Sql.claim_next e worker moment db) (ok (Memory.claim_next worker moment r))
  unfolding Sql.claim_next Memory.claim_next
  claim_next-Matches worker moment =
      rw (candidate_same moment) (from (head? (candidates (Dict.values r.runs) moment)) refl)
    where
      from :
          (o : Option JobRun)
          → head? (candidates (Dict.values r.runs) moment) ≡ o
          → Matches e (update_claimed e worker moment o db) (ok (take_run worker moment o r))
      from none h = (refl, s)
      from (some a) h = take_run-Matches worker moment a (picked r v moment a h)
