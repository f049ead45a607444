-- ===== src/Runtime/Sql/Create.antt =====
-- `create_run` of `SqlMetaRepository` (runtime/repository.py) does what the store in memory does.
use fin_data_hub.Prelude.{
  ℕ, ◌+◌, String, ◌≡◌, refl, ap, ◌∙◌, inl, inr, false, Option, arith, ◌==◌, nat_eq, string_eq,
  Bool-cases, In-filter, In-of_filter, any, filter, &&-true,
}
use fin_data_hub.Prelude.Dict
use fin_data_hub.Prelude.Dict.{In-values}
use fin_data_hub.Runtime.Result.{Result, ok, raise, ◌>>=◌}
use fin_data_hub.Runtime.Models.{JobIntent}
use fin_data_hub.Runtime.Keys.{Payload, job_key}
use fin_data_hub.Runtime.Repository.State.{Repo}
use fin_data_hub.Runtime.Repository.Runs as Memory
use fin_data_hub.Runtime.Repository.Runs.{is_live, holds_key, payload_of, new_run, insert_run}
use fin_data_hub.Runtime.Repository.Invariant.{fresh_id}
use fin_data_hub.Runtime.Repository.Preserve.{IsSound}
use fin_data_hub.Runtime.Sql.Table.{one}
use fin_data_hub.Runtime.Sql.Database.{Engine, Db}
use fin_data_hub.Runtime.Sql.Runs as Sql
use fin_data_hub.Runtime.Sql.Runs.{rows, insert_row, insert_unless_live}
use fin_data_hub.Runtime.Sql.Simulation.{
  Simulates, Matches, filter_stored, any_absent, insert-Holds, In-same, any-same,
}

module _ (e : Engine) (db : Db e) (r : Repo) (v : IsSound r) (s : Simulates e db r) where
  -- both stores see a live row of the key, or neither does
  same_test :
      (key : String)
      → any (λ run. is_live run.status) (filter (λ run. run.job_key == key) (rows e db))
        ≡ any (holds_key key) (Dict.values r.runs)
  same_test key =
      any-same (λ run. is_live run.status) (holds_key key)
        (filter (λ run. run.job_key == key) (rows e db)) (Dict.values r.runs)
        (λ a m live.
          let (n, same) = In-of_filter (λ run. run.job_key == key) a (rows e db) m in
          (a, (In-same e db r v s a).0 n, ground (arith, live, same)))
        (λ a m holds.
          let (same, live) = &&-true (a.job_key == key) (is_live a.status) holds in
          (
            a,
            In-filter (λ run. run.job_key == key) a (rows e db) ((In-same e db r v s a).1 m) same,
            live,
          ))

  insert_row-Matches :
      (key : String) (intent : JobIntent) (request_id : Option String) (now : ℕ)
      → any (holds_key key) (Dict.values r.runs) ≡ false
      → Matches e
          (insert_row e key intent request_id now db)
          (ok (insert_run key intent request_id now r))
  unfolding insert_row insert_run one
  insert_row-Matches key intent request_id now free =
      let new = new_run r.next_run_id key intent request_id now in
      let (t, q, w) =
        e.job_runs.insert_fresh new db.runs (any_absent s.runs v r.next_run_id (fresh_id v)) in
      let h = insert-Holds s.runs v new (e.job_runs.rows t) refl w in
      let read =
        filter_stored h r.next_run_id new (Dict.get-put_self r.runs r.next_run_id new) refl in
      rw (s.next) (
        rw free (
          rw q (
            rw read (
              refl,
              record { runs = h; next = e.next_id-advance db.sequence ∙ ap (λ i. i + 1) s.next },
            ))))

  insert_unless_live-Matches :
      (key : String) (intent : JobIntent) (request_id : Option String) (now : ℕ)
      → Matches e
          (insert_unless_live e key intent request_id now db)
          (ok (insert_run key intent request_id now r))
  unfolding insert_unless_live
  insert_unless_live-Matches key intent request_id now =
      elim (Bool-cases (any (holds_key key) (Dict.values r.runs))) [
        | inl taken ↦ rw (same_test key ∙ taken) (unfold insert_run in rw taken (refl, s))
        | inr free ↦ rw (same_test key ∙ free) (insert_row-Matches key intent request_id now free)
      ]

  -- In tables that hold what the store in memory holds, `create_run` returns or raises what it does
  -- there, and leaves tables that hold what is then in memory.
  pub create_run-Matches :
      (digest : Payload → String) (intent : JobIntent) (request_id : Option String) (now : ℕ)
      → Matches e
          (Sql.create_run e digest intent request_id now db)
          (Memory.create_run digest intent request_id now r)
  unfolding Sql.create_run Memory.create_run
  create_run-Matches digest intent request_id now = from (job_key digest (payload_of intent))
    where
      from :
          (key : Result String)
          → Matches e
              (key >>= λ k. insert_unless_live e k intent request_id now db)
              (key >>= λ k. ok (insert_run k intent request_id now r))
      from (raise x) = refl
      from (ok key) = insert_unless_live-Matches key intent request_id now
