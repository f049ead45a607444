-- ===== src/Runtime/Sql/Finish.antt =====
-- `succeed`, `fail` and `interrupt` of `SqlMetaRepository` (runtime/repository.py) do what the store in
-- memory does, but for a run that there is none of.
use fin_data_hub.Prelude.{
  ℕ, String, ◌≡◌, refl, sym, ap, ◌∙◌, inl, inr, true, none, some, arith, nat_eq, Bool-cases,
  Option-cases, eqb_iff, List, length, ◌==◌, ◌&&◌, subst,
}
use fin_data_hub.Prelude.Dict
use fin_data_hub.Prelude.Dict.{get-put}
use fin_data_hub.Runtime.Result.{ok, raise, key_error, no_result}
use fin_data_hub.Runtime.Models.{JobRun, is_running}
use fin_data_hub.Runtime.Repository.State.{Repo}
use fin_data_hub.Runtime.Repository.Runs as Memory
use fin_data_hub.Runtime.Repository.Runs.{
  Outcome, finished, finish_row, success, failure, interruption, row_at,
}
use fin_data_hub.Runtime.Repository.Preserve.{IsSound}
use fin_data_hub.Runtime.Sql.Table.{
  rewritten, one, one_or_none, count-map, length-filter, filter-nil_count,
}
use fin_data_hub.Runtime.Sql.Database.{Engine, Db, same_run}
use fin_data_hub.Runtime.Sql.Runs as Sql
use fin_data_hub.Runtime.Sql.Runs.{
  rows, Values, set_values, success_values, failure_values, interruption_values, found_run,
}
use fin_data_hub.Runtime.Sql.Simulation.{
  Simulates, Matches, Holds, Holds-of_get, under, filter_stored, filter_absent, update-Holds,
}

-- the memory's row after an UPDATE that did not match it
put_same :
    (r : Repo) (id : ℕ) (a : JobRun)
    → Dict.get r.runs id ≡ some a
    → (k : ℕ) → Dict.get r.runs k ≡ Dict.get (Dict.put r.runs id a) k
put_same r id a g k = ground (arith, get-put r.runs id k a, eqb_iff id k, g)

row_at-some : (r : Repo) (id : ℕ) (a : JobRun) → Dict.get r.runs id ≡ some a → row_at id r ≡ ok a
unfolding row_at
row_at-some r id a g = ground arith

row_at-none : (r : Repo) (id : ℕ) → Dict.get r.runs id ≡ none → row_at id r ≡ raise key_error
unfolding row_at
row_at-none r id n = ground arith

-- `values` has no `run_id`
keeps : (vals : Values) (now : ℕ) (x : JobRun) → (set_values vals now x).run_id ≡ x.run_id
unfolding set_values
keeps vals now x = refl

known : (vals : Values) (now : ℕ) (x : JobRun) → same_run x (set_values vals now x) ≡ true
known vals now x = (eqb_iff (set_values vals now x).run_id x.run_id).1 (keeps vals now x)

unchanged :
    (vals : Values) (now id : ℕ) (x : JobRun)
    → under id (rewritten (λ y. y.run_id == id && is_running y.status) (set_values vals now) x)
      ≡ under id x
unchanged vals now id x = ground (arith, keeps vals now x)

module _ (e : Engine) (db : Db e) (r : Repo) (v : IsSound r) (s : Simulates e db r) where
  finish-Matches :
      (o : Outcome) (vals : Values) (now id : ℕ) (a : JobRun)
      → Dict.get r.runs id ≡ some a
      → set_values vals now a ≡ finished o now a
      → Matches e (Sql.finish e vals now id db) (ok (finish_row o now id a r))
  unfolding Sql.finish finish_row one
  finish-Matches o vals now id a g same = elim (Bool-cases (is_running a.status)) [
    | inl runs ↦
        let b = finished o now a in
        let q : rewritten (λ x. is_running x.status) (set_values vals now) a ≡ b = rw runs same in
        let h = subst (λ x. Holds table (Dict.put r.runs id x)) q updated in
        let read =
          filter_stored h id b (Dict.get-put_self r.runs id b)
            (unfold finished in v.keyed id a g) in
        rw runs (rw read (refl, record { runs = h; next = s.next }))
    | inr still ↦
        let q : rewritten (λ x. is_running x.status) (set_values vals now) a ≡ a = rw still in
        let h =
          Holds-of_get table (Dict.put r.runs id a) r.runs (put_same r id a g)
            (subst (λ x. Holds table (Dict.put r.runs id x)) q updated) in
        let read = filter_stored h id a g (v.keyed id a g) in
        rw still (rw read (refl, record { runs = h; next = s.next }))
  ]
    where
      table : List JobRun
      table = e.job_runs.rows (
          e.job_runs.update (λ x. x.run_id == id && is_running x.status) (set_values vals now)
            db.runs)

      updated :
          Holds table
            (Dict.put r.runs id (rewritten (λ x. is_running x.status) (set_values vals now) a))
      updated =
          update-Holds s.runs v id a g (λ x. is_running x.status) (set_values vals now)
            (keeps vals now) table
            (e.job_runs.rows-update (λ x. x.run_id == id && is_running x.status)
              (set_values vals now) db.runs (known vals now))

  -- an UPDATE under an id of no row changes no row, and the SELECT after it finds none
  finish_absent :
      (vals : Values) (now id : ℕ)
      → Dict.get r.runs id ≡ none
      → Sql.finish e vals now id db ≡ raise no_result
  unfolding Sql.finish one
  finish_absent vals now id n =
      let hit = λ (x : JobRun). x.run_id == id && is_running x.status in
      let same =
        (e.job_runs.rows-update hit (set_values vals now) db.runs (known vals now)).same_count
          (under id)
        ∙ count-map (under id) (rewritten hit (set_values vals now)) (rows e db)
            (λ x. unchanged vals now id x) in
      let nothing =
        filter-nil_count (under id)
          (e.job_runs.rows (e.job_runs.update hit (set_values vals now) db.runs))
          (same
            ∙ sym (length-filter (under id) (rows e db))
            ∙ ap length (filter_absent s.runs v id n)) in
      rw nothing refl

  -- In tables that hold what the store in memory holds: `succeed` and `interrupt` of a stored run, and
  -- `fail` of any, return or raise what they do in memory, and leave tables that hold what is then in
  -- memory. For an id of no run `succeed` and `interrupt` raise `NoResultFound`, in memory `KeyError`.
  pub finish_methods-Matches :
      (id now : ℕ)
      → ((error : String) → Matches e (Sql.fail e id error now db) (Memory.fail id error now r))
        × ((a : JobRun)
            → Dict.get r.runs id ≡ some a
            → ((rows_written : ℕ)
                → Matches e
                    (Sql.succeed e id rows_written now db)
                    (Memory.succeed id rows_written now r))
              × ((reason : String)
                  → Matches e
                      (Sql.interrupt e id reason now db)
                      (Memory.interrupt id reason now r)))
        × (Dict.get r.runs id ≡ none
            → ((rows_written : ℕ)
                → (Sql.succeed e id rows_written now db ≡ raise no_result)
                  × (Memory.succeed id rows_written now r ≡ raise key_error))
              × ((reason : String)
                  → (Sql.interrupt e id reason now db ≡ raise no_result)
                    × (Memory.interrupt id reason now r ≡ raise key_error)))
  unfolding Sql.succeed Sql.interrupt Sql.fail Memory.succeed Memory.interrupt Memory.fail
      Memory.finish set_values finished found_run Sql.get_run one_or_none
  finish_methods-Matches id now = (
    λ error. elim (Option-cases (Dict.get r.runs id)) [
      | inl n ↦ rw (row_at-none r id n) (rw (filter_absent s.runs v id n) refl)
      | inr (a, g) ↦ rw (row_at-some r id a g) (
          rw (filter_stored s.runs id a g (v.keyed id a g)) (
            finish-Matches (failure error now a) (failure_values error now a) now id a g
              (unfold failure failure_values in ground arith)))
    ],
    λ a g. (
      λ rows_written.
          rw (row_at-some r id a g)
            (finish-Matches (success rows_written) (success_values rows_written) now id a g refl),
      λ reason.
          rw (row_at-some r id a g)
            (finish-Matches (interruption reason) (interruption_values reason) now id a g refl),
    ),
    λ n. (
      λ rows_written.
          (finish_absent (success_values rows_written) now id n, rw (row_at-none r id n) refl),
      λ reason. (finish_absent (interruption_values reason) now id n, rw (row_at-none r id n) refl),
    ),
  )
