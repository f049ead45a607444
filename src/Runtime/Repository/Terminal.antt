-- ===== src/Runtime/Repository/Terminal.antt =====
-- Rows that are done stay as they are: nothing that the methods of `InMemoryMetaRepository`
-- (runtime/repository.py) do changes a row that is neither claimable nor running.
use fin_data_hub.Prelude.{
  ℕ, String, ◌≡◌, refl, sym, ap, ◌∙◌, inl, inr, false, Option, none, some, arith, ◌==◌, nat_eq,
  Bool-cases, Option-cases, eqb_iff,
}
use fin_data_hub.Prelude.Dict
use fin_data_hub.Prelude.Dict.{get-put}
use fin_data_hub.Runtime.Result.{Result, ok, raise}
use fin_data_hub.Runtime.Models.{JobIntent, JobRun, is_running, is_claimable}
use fin_data_hub.Runtime.Keys.{Payload, job_key}
use fin_data_hub.Runtime.Repository.State.{Repo, sync_defs, sync_dependencies}
use fin_data_hub.Runtime.Repository.Runs.{
  Outcome, payload_of, new_run, insert_run, create_run, claim_next, finish, success, succeed,
  failure, fail, interruption, interrupt, belongs_to, get_run,
}
use fin_data_hub.Runtime.Repository.Marks.{set_watermark, advance_watermark}
use fin_data_hub.Runtime.Repository.Watermarks.{advance_keeps_runs}
use fin_data_hub.Runtime.Repository.Preserve.{IsSound}
use fin_data_hub.Runtime.Repository.Claim.{claim_next_lem}
use fin_data_hub.Runtime.Repository.Finish.{settle, finish_lem}
use fin_data_hub.Runtime.Repository.Reclaim.{interrupt_running_lem}
use fin_data_hub.Runtime.Repository.Steps.{
  Step, creates, claims, succeeds, fails, interrupts, reclaims, mirrors_defs, mirrors_deps,
  sets_mark, advances_mark,
}

-- Neither claimable nor running: succeeded, dead, cancelled, interrupted, failed.
abbrev pub IsDone : JobRun → Type 0
IsDone run = (is_claimable run.status ≡ false) × (is_running run.status ≡ false)

module _ (r : Repo) (v : IsSound r) (k : ℕ) (run : JobRun) (g : get_run k r ≡ some run)
    (d : IsDone run) where
  done_finish :
      (o : Outcome) (now id : ℕ) (out : JobRun) (r' : Repo)
      → finish o now id r ≡ ok (out, r')
      → get_run k r' ≡ some run
  unfolding settle
  done_finish o now id out r' h = elim (Option-cases (get_run id r)) [
    | inl e ↦ absurd (ground (arith, (finish_lem o now id r).1 e))
    | inr (old, e) ↦
        let (s, done, frame) = (finish_lem o now id r).0 old e in
        let q : s ≡ r' = ground (arith, done, h) in
        rw (← q) (
          frame k ∙ elim (Bool-cases (id == k)) [
            | inr other ↦ rw other g
            | inl same ↦
                let p : get_run k r ≡ some old =
                  ap (λ j. get_run j r) (sym ((eqb_iff id k).0 same)) ∙ e in
                rw same (ground (arith, p, d.1))
          ])
  ]

  done_insert :
      (key : String) (intent : JobIntent) (request_id : Option String) (now : ℕ)
      → get_run k (insert_run key intent request_id now r).1 ≡ some run
  unfolding insert_run get_run
  done_insert key intent request_id now =
      let new = new_run r.next_run_id key intent request_id now in
      ground (arith, get-put r.runs r.next_run_id k new, v.below k run g)

  done_claim :
      (worker : String) (moment : ℕ) (out : Option JobRun) (r' : Repo)
      → claim_next worker moment r ≡ (out, r')
      → get_run k r' ≡ some run
  done_claim worker moment none r' h =
      let (same, _) = (claim_next_lem r v moment worker).1 r' h in rw same g
  done_claim worker moment (some out) r' h =
      let (old, ready, _, _, _, frame) = (claim_next_lem r v moment worker).0 out r' h in
      frame k ∙ elim (Bool-cases (out.run_id == k)) [
        | inr other ↦ rw other g
        | inl same ↦
            let p : get_run k r ≡ some old =
              ap (λ j. get_run j r) (sym ((eqb_iff out.run_id k).0 same)) ∙ ready.stored in
            absurd (ground (arith, p, g, d.0, ready.claimable))
      ]

  done_create :
      (digest : Payload → String) (intent : JobIntent) (request_id : Option String) (now : ℕ)
      (out : Option JobRun) (r' : Repo)
      → create_run digest intent request_id now r ≡ ok (out, r')
      → get_run k r' ≡ some run
  unfolding create_run
  done_create digest intent request_id now out r' h = from (job_key digest (payload_of intent)) refl
    where
      from :
          (key : Result String) → job_key digest (payload_of intent) ≡ key → get_run k r' ≡ some run
      from (raise e) p = absurd (ground arith)
      from (ok key) p =
          let q : (insert_run key intent request_id now r).1 ≡ r' = ground arith in
          rw (← q) (done_insert key intent request_id now)

  -- No call of any method changes a row that is done: its status, times, error and count are final.
  pub Step-IsDone :
      (digest : Payload → String) (r' : Repo) → Step digest r r' → get_run k r' ≡ some run
  unfolding sync_defs sync_dependencies set_watermark succeed fail interrupt get_run
  Step-IsDone digest r' (creates intent req now out h) = done_create digest intent req now out r' h
  Step-IsDone digest r' (claims worker moment out h) = done_claim worker moment out r' h
  Step-IsDone digest r' (succeeds id rows now out h) = done_finish (success rows) now id out r' h
  Step-IsDone digest r' (fails id error now out h) = elim (Option-cases (Dict.get r.runs id)) [
    | inl e ↦ absurd (ground arith)
    | inr (old, e) ↦ done_finish (failure error now old) now id out r' (ground arith)
  ]
  Step-IsDone digest r' (interrupts id reason now out h) =
      done_finish (interruption reason) now id out r' h
  Step-IsDone digest r' (reclaims prefix now n h) =
      let (s, done, marks, foreign) = interrupt_running_lem prefix now r v in
      let q : s ≡ r' = ground (arith, done, h) in
      rw (← q) (ground (arith, marks k run g, other prefix))
    where
      other : (prefix : String) → belongs_to prefix run ≡ false
      other prefix = unfold belongs_to in ground (arith, d.1)
  Step-IsDone digest r' (mirrors_defs defs h) = rw (← h) g
  Step-IsDone digest r' (mirrors_deps deps h) = rw (← h) g
  Step-IsDone digest r' (sets_mark dataset scope time mark h) =
      let q : (set_watermark dataset scope time r).1 ≡ r' = ground arith in rw (← q) g
  Step-IsDone digest r' (advances_mark dataset scope time mark h) =
      let q : (advance_watermark dataset scope time r).1 ≡ r' = ground arith in
      let (same, ids) = advance_keeps_runs dataset scope time r in rw (← q, same) g
