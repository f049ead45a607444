-- ===== src/Runtime/Repository/Create.antt =====
-- `create_run` of `InMemoryMetaRepository` (runtime/repository.py) is idempotent by the run's key.
use fin_data_hub.Prelude.{
  ℕ, ◌+◌, String, ◌≡◌, refl, inl, inr, true, Option, none, some, arith, ◌==◌, nat_eq, string_eq,
  if◌then◌else◌, Bool-cases, any, any_witness, any-true, ==→≡, ==-refl, ≡→==, &&-true,
}
use fin_data_hub.Prelude.Dict
use fin_data_hub.Prelude.Dict.{get-put, In-values}
use fin_data_hub.Runtime.Result.{Result, ok, raise, value_error}
use fin_data_hub.Runtime.Models.{JobIntent, JobRun}
use fin_data_hub.Runtime.Keys.{Payload, job_key, is_versioned, is_given}
use fin_data_hub.Runtime.Repository.State.{Repo}
use fin_data_hub.Runtime.Repository.Runs.{
  is_live, holds_key, payload_of, new_run, insert_run, create_run, get_run,
}
use fin_data_hub.Runtime.Repository.Preserve.{IsSound, stored_of_In}

-- A row with the key that is queued, retrying, running or succeeded.
abbrev pub HasLive : String → Repo → Type 0
HasLive key r =
    (k : ℕ) × (a : JobRun) × (get_run k r ≡ some a) × (is_live a.status ≡ true) × (a.job_key ≡ key)

live_row :
    (key : String) (r : Repo)
    → IsSound r
    → any (holds_key key) (Dict.values r.runs) ≡ true
    → HasLive key r
unfolding get_run
live_row key r v h =
    let (a, m, t) = any_witness (holds_key key) (Dict.values r.runs) h in
    let (same, live) = &&-true (a.job_key == key) (is_live a.status) t in
    (a.run_id, a, stored_of_In r v a m, live, ==→≡ a.job_key key same)

live_listed :
    (key : String) (r : Repo) → HasLive key r → any (holds_key key) (Dict.values r.runs) ≡ true
unfolding get_run
live_listed key r (k, a, g, live, same) =
    any-true (holds_key key) a (Dict.values r.runs) (In-values r.runs k a g)
      (ground (arith, live, ≡→== a.job_key key same))

create_run_first :
    (digest : Payload → String) (intent : JobIntent) (request_id : Option String) (now : ℕ)
    (r : Repo)
    → IsSound r
    → (is_versioned intent.kind ≡ is_given intent.version_dimension
        → (HasLive (digest (payload_of intent)) r
            → create_run digest intent request_id now r ≡ ok (none, r))
          × ((HasLive (digest (payload_of intent)) r → ⊥)
              → (r' : Repo) × (create_run digest intent request_id now r
                  ≡ ok (
                    some (new_run r.next_run_id (digest (payload_of intent)) intent request_id now),
                    r',
                  ))
                × ((k : ℕ)
                    → get_run k r' ≡ (
                        if r.next_run_id == k
                        then some (
                            new_run r.next_run_id
                              (digest (payload_of intent))
                              intent
                              request_id
                              now)
                        else get_run k r))))
      × ((is_versioned intent.kind ≡ is_given intent.version_dimension → ⊥)
          → create_run digest intent request_id now r ≡ raise value_error)
unfolding create_run insert_run job_key get_run
create_run_first digest intent request_id now r v = (
  λ suits. (
    λ live. let taken = live_listed key r live in ground (arith, taken, suits),
    λ unused. elim (Bool-cases (any (holds_key key) (Dict.values r.runs))) [
      | inl taken ↦ absurd (unused (live_row key r v taken))
      | inr free ↦ (
        record r { runs = Dict.put r.runs r.next_run_id fresh; next_run_id = r.next_run_id + 1 },
        ground (arith, free, suits),
        λ k. get-put r.runs r.next_run_id k fresh,
      )
    ],
  ),
  λ differs. ground (arith, differs),
)
  where
    key : String
    key = digest (payload_of intent)

    fresh : JobRun
    fresh = new_run r.next_run_id key intent request_id now

create_run_twice :
    (digest : Payload → String) (intent : JobIntent) (request_id : Option String) (now : ℕ)
    (r : Repo)
    → IsSound r
    → (out : Option JobRun) (r' : Repo) → create_run digest intent request_id now r ≡ ok (out, r')
    → (request_id' : Option String) (now' : ℕ)
    → create_run digest intent request_id' now' r' ≡ ok (none, r')
unfolding create_run insert_run
create_run_twice digest intent request_id now r v out r' h request_id' now' =
    from (job_key digest (payload_of intent)) refl
  where
    kept :
        (key : String)
        → (insert_run key intent request_id now r).1 ≡ r'
        → any (holds_key key) (Dict.values r'.runs) ≡ true
    kept key q = elim (Bool-cases (any (holds_key key) (Dict.values r.runs))) [
      | inl taken ↦ let s : r ≡ r' = rw taken at q in rw (← s) taken
      | inr free ↦
          let new = new_run r.next_run_id key intent request_id now in
          let s : record r {
            runs = Dict.put r.runs r.next_run_id new;
            next_run_id = r.next_run_id + 1;
          }
              ≡ r' =
            rw free at q in
          rw (← s) (
            any-true (holds_key key) new (Dict.values (Dict.put r.runs r.next_run_id new))
              (In-values (Dict.put r.runs r.next_run_id new) r.next_run_id new
                (Dict.get-put_self r.runs r.next_run_id new))
              (unfold is_live in ground (arith, ==-refl key)))
    ]

    from :
        (key : Result String)
        → job_key digest (payload_of intent) ≡ key
        → create_run digest intent request_id' now' r' ≡ ok (none, r')
    from (raise e) p = absurd (ground arith)
    from (ok key) p =
        let q : (insert_run key intent request_id now r).1 ≡ r' = ground arith in
        ground (arith, p, kept key q)

-- `create_run` raises `ValueError` when the version dimension does not suit the kind. Else it returns
-- `None` and changes nothing exactly when a live row has the intent's key; otherwise it stores one
-- new row, queued at its first attempt under the next id, and changes no other. Once it has returned,
-- a `create_run` of the same intent, at any time and with any request id, returns `None` and changes
-- nothing.
pub create_run_lem :
    (digest : Payload → String) (intent : JobIntent) (request_id : Option String) (now : ℕ)
    (r : Repo)
    → IsSound r
    → (is_versioned intent.kind ≡ is_given intent.version_dimension
        → (HasLive (digest (payload_of intent)) r
            → create_run digest intent request_id now r ≡ ok (none, r))
          × ((HasLive (digest (payload_of intent)) r → ⊥)
              → (r' : Repo) × (create_run digest intent request_id now r
                  ≡ ok (
                    some (new_run r.next_run_id (digest (payload_of intent)) intent request_id now),
                    r',
                  ))
                × ((k : ℕ)
                    → get_run k r' ≡ (
                        if r.next_run_id == k
                        then some (
                            new_run r.next_run_id
                              (digest (payload_of intent))
                              intent
                              request_id
                              now)
                        else get_run k r))))
      × ((is_versioned intent.kind ≡ is_given intent.version_dimension → ⊥)
          → create_run digest intent request_id now r ≡ raise value_error)
      × ((out : Option JobRun) (r' : Repo)
          → create_run digest intent request_id now r ≡ ok (out, r')
          → (request_id' : Option String) (now' : ℕ)
          → create_run digest intent request_id' now' r' ≡ ok (none, r'))
create_run_lem digest intent request_id now r v =
    let (suits, unsuited) = create_run_first digest intent request_id now r v in
    (suits, unsuited, λ out r' h. create_run_twice digest intent request_id now r v out r' h)
