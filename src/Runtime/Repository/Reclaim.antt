-- ===== src/Runtime/Repository/Reclaim.antt =====
-- `interrupt_running` of `InMemoryMetaRepository` (runtime/repository.py), which a pool calls when it
-- stops (runtime/roles.py): the rows it marks, and the rows of another process that it marks too.
use Prim.Native.String.{◌++◌ as str_append}
use fin_data_hub.Prelude.{
  ℕ, ◌+◌, String, ◌≡◌, refl, sym, ap, ◌∙◌, ◌⊎◌, inl, inr, Bool, true, false, Option, none, some,
  List, [], ◌∷◌, arith, ◌==◌, ◌&&◌, nat_eq, if◌then◌else◌, Bool-cases, In, any, any_witness,
  any-true, count, eqb_iff, &&-true,
}
use fin_data_hub.Prelude.Text.{starts_with-append}
use fin_data_hub.Prelude.Dict
use fin_data_hub.Prelude.Dict.{In-values}
use fin_data_hub.Runtime.Result.{ok}
use fin_data_hub.Runtime.Models.{JobRun, JobStatus, is_running}
use fin_data_hub.Runtime.Repository.State.{Repo}
use fin_data_hub.Runtime.Repository.Runs.{
  finished, interruption, interrupt, belongs_to, interrupt_all, interrupt_running, get_run,
}
use fin_data_hub.Runtime.Repository.Preserve.{IsSound, stored_of_In}
use fin_data_hub.Runtime.Repository.Finish.{settle, finish_lem}

abbrev stopped : ℕ → JobRun → JobRun
stopped = settle (interruption "停机超时")

stopped_twice : (now : ℕ) (run : JobRun) → stopped now (stopped now run) ≡ stopped now run
unfolding settle finished
stopped_twice now run = ground arith

abbrev pub map_option {ℓ} : {A B : Type ℓ} → (A → B) → Option A → Option B
map_option f none = none
map_option f (some a) = some (f a)

abbrev names : String → ℕ → JobRun → Bool
names prefix k run = run.run_id == k && belongs_to prefix run

-- What the loop over `rows` has to give, from a count `n` and a store `r`.
abbrev Loop : String → ℕ → List JobRun → ℕ → Repo → Type 0
Loop prefix now rows n r =
    (r' : Repo) × (interrupt_all prefix now rows n r ≡ ok (n + count (belongs_to prefix) rows, r'))
    × ((k : ℕ)
        → get_run k r' ≡ (
            if any (names prefix k) rows
            then map_option (stopped now) (get_run k r)
            else get_run k r))

abbrev AllStored : List JobRun → Repo → Type 0
AllStored rows r = (run : JobRun) → In run rows → (old : JobRun) × (get_run run.run_id r ≡ some old)

module _ (prefix : String) (now : ℕ) where
  -- One round on a row of the pool, and then the rest.
  Loop-ours :
      (run : JobRun) (rows : List JobRun) (n : ℕ) (r : Repo)
      → belongs_to prefix run ≡ true
      → AllStored (run ∷ rows) r
      → ((r : Repo) → AllStored rows r → Loop prefix now rows (n + 1) r)
      → Loop prefix now (run ∷ rows) n r
  unfolding interrupt_all count any interrupt
  Loop-ours run rows n r ours stored ih =
      let (old, g) = stored run (inl refl) in
      let (s, done, frame) = (finish_lem (interruption "停机超时") now run.run_id r).0 old g in
      let (r', more, frame') = ih s (λ a m. still s frame a (stored a (inr m))) in
      (
        r',
        ground (arith, done, more),
        λ k. frame' k ∙ read old g s frame k (Bool-cases (run.run_id == k)),
      )
    where
      still :
          (s : Repo)
          → ((k : ℕ)
              → get_run k s ≡ (
                  if run.run_id == k
                  then some (stopped now (stored run (inl refl)).0)
                  else get_run k r))
          → (a : JobRun) → (b : JobRun) × (get_run a.run_id r ≡ some b)
          → (b : JobRun) × (get_run a.run_id s ≡ some b)
      still s frame a (b, h) = elim (Bool-cases (run.run_id == a.run_id)) [
        | inl same ↦ (stopped now (stored run (inl refl)).0, frame a.run_id ∙ rw same)
        | inr other ↦ (b, frame a.run_id ∙ rw other h)
      ]

      read :
          (old : JobRun)
          → get_run run.run_id r ≡ some old
          → (s : Repo)
          → ((k : ℕ)
              → get_run k s ≡ (if run.run_id == k then some (stopped now old) else get_run k r))
          → (k : ℕ) → (run.run_id == k ≡ true) ⊎ (run.run_id == k ≡ false)
          → (if any (names prefix k) rows
              then map_option (stopped now) (get_run k s)
              else get_run k s)
            ≡ (if any (names prefix k) (run ∷ rows)
                then map_option (stopped now) (get_run k r)
                else get_run k r)
      read old g s frame k (inl same) =
          let h : get_run k r ≡ some old =
            ap (λ j. get_run j r) (sym ((eqb_iff run.run_id k).0 same)) ∙ g in
          let f : get_run k s ≡ some (stopped now old) = frame k ∙ rw same in
          rw (same, ours, h, f) (ground (arith, stopped_twice now old))
      read old g s frame k (inr other) =
          let f : get_run k s ≡ get_run k r = frame k ∙ rw other in rw (other, f)

  -- The loop never raises while its snapshot is stored, and rewrites exactly the rows it names.
  interrupt_all_lem :
      (rows : List JobRun) (n : ℕ) (r : Repo) → AllStored rows r → Loop prefix now rows n r
  unfolding interrupt_all count any
  interrupt_all_lem [] n r stored = (r, ground arith, λ k. refl)
  interrupt_all_lem (run ∷ rows) n r stored = elim (Bool-cases (belongs_to prefix run)) [
    | inl ours ↦
        Loop-ours run rows n r ours stored (λ s kept. interrupt_all_lem rows (n + 1) s kept)
    | inr other ↦
        let (r', done, frame) = interrupt_all_lem rows n r (λ a m. stored a (inr m)) in
        (r', ground (arith, done), λ k. frame k ∙ ground arith)
  ]

  -- Of all the rows of the store, the loop names exactly the one that is asked for.
  names_row :
      (r : Repo)
      → IsSound r
      → (k : ℕ) (run : JobRun) → get_run k r ≡ some run
      → any (names prefix k) (Dict.values r.runs) ≡ belongs_to prefix run
  unfolding get_run
  names_row r v k run g =
      decide (Bool-cases (belongs_to prefix run)) (Bool-cases (any (names prefix k) rows))
    where
      rows : List JobRun
      rows = Dict.values r.runs

      decide :
          (belongs_to prefix run ≡ true) ⊎ (belongs_to prefix run ≡ false)
          → (any (names prefix k) rows ≡ true) ⊎ (any (names prefix k) rows ≡ false)
          → any (names prefix k) rows ≡ belongs_to prefix run
      decide (inl ours) _ =
          any-true (names prefix k) run rows (In-values r.runs k run g)
            (ground (arith, ours, v.keyed k run g, eqb_iff run.run_id k))
          ∙ sym ours
      decide (inr other) (inr e) = e ∙ sym other
      decide (inr other) (inl e) =
          let (a, m, t) = any_witness (names prefix k) rows e in
          let (same, ours) = &&-true (a.run_id == k) (belongs_to prefix a) t in
          let h : Dict.get r.runs k ≡ some a =
            ap (Dict.get r.runs) (sym ((eqb_iff a.run_id k).0 same)) ∙ stored_of_In r v a m in
          absurd (ground (arith, g, h, ours, other))

  interrupt_running_rows :
      (r : Repo)
      → IsSound r
      → (r' : Repo) × (interrupt_running prefix now r
          ≡ ok (count (belongs_to prefix) (Dict.values r.runs), r'))
        × ((k : ℕ) (run : JobRun)
            → get_run k r ≡ some run
            → get_run k r'
              ≡ some
                  (if belongs_to prefix run then finished (interruption "停机超时") now run else run))
  unfolding interrupt_running
  interrupt_running_rows r v =
      let (r', done, frame) =
        interrupt_all_lem (Dict.values r.runs) 0 r
          (λ a m. (a, unfold get_run in stored_of_In r v a m)) in
      (
        r',
        ground (arith, done),
        λ k run g.
            let f = frame k in
            let named = names_row r v k run g in
            unfold belongs_to settle in ground (arith, f, named, g),
      )

reclaims_foreign :
    (ours more : String) (now : ℕ) (r : Repo)
    → IsSound r
    → (k : ℕ) (run : JobRun) → get_run k r ≡ some run
    → is_running run.status ≡ true
    → run.worker ≡ some (str_append ours more)
    → (r' : Repo) (n : ℕ) → interrupt_running ours now r ≡ ok (n, r')
    → (out : JobRun) × (get_run k r' ≡ some out) × (out.status ≡ JobStatus.interrupted)
unfolding belongs_to finished
reclaims_foreign ours more now r v k run g runs named r' n h =
    let (s, done, marks) = interrupt_running_rows ours now r v in
    let q : s ≡ r' = ground (arith, done, h) in
    (
      finished (interruption "停机超时") now run,
      rw (← q) (ground (arith, marks k run g, starts_with-append ours more)),
      refl,
    )

-- `interrupt_running` never raises on a store that the methods built. It marks as interrupted the
-- running rows whose worker's name starts with the prefix, counts them, and changes no other row. The
-- prefix does not end a name: the running row of a worker of another pool, whose name is the prefix and
-- any further text, is interrupted too.
pub interrupt_running_lem :
    (prefix : String) (now : ℕ) (r : Repo)
    → IsSound r
    → (r' : Repo) × (interrupt_running prefix now r
        ≡ ok (count (belongs_to prefix) (Dict.values r.runs), r'))
      × ((k : ℕ) (run : JobRun)
          → get_run k r ≡ some run
          → get_run k r'
            ≡ some (if belongs_to prefix run then finished (interruption "停机超时") now run else run))
      × ((more : String) (k : ℕ) (run : JobRun)
          → get_run k r ≡ some run
          → is_running run.status ≡ true
          → run.worker ≡ some (str_append prefix more)
          → (out : JobRun) × (get_run k r' ≡ some out) × (out.status ≡ JobStatus.interrupted))
interrupt_running_lem prefix now r v =
    let (r', done, marks) = interrupt_running_rows prefix now r v in
    (
      r',
      done,
      marks,
      λ more k run g runs named.
          reclaims_foreign prefix more now r v k run g runs named r'
            (count (belongs_to prefix) (Dict.values r.runs)) done,
    )
