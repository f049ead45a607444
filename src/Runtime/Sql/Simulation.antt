-- ===== src/Runtime/Sql/Simulation.antt =====
-- When the tables of `SqlMetaRepository` (runtime/repository.py) hold what `InMemoryMetaRepository`
-- holds, and what an INSERT and an UPDATE of one row do then.
use fin_data_hub.Prelude.{
  ℕ, ◌+◌, ◌≤◌, ◌≡◌, sym, ap, ◌∙◌, ◌⊎◌, inl, inr, Bool, true, false, List, [], ◌∷◌, none, some,
  arith, ◌==◌, nat_eq, eqb_iff, if◌then◌else◌, Bool-cases, In, In-filter, any, any_witness,
  any-true, ◌↔◌, count, filter, filter-nil_any, length, map, ◌&&◌, subst,
}
use fin_data_hub.Prelude.Dict
use fin_data_hub.Prelude.Dict.{Dict, get-put, In-values}
use fin_data_hub.Runtime.Result.{Result, ok, raise}
use fin_data_hub.Runtime.Models.{JobRun}
use fin_data_hub.Runtime.Repository.State.{Repo}
use fin_data_hub.Runtime.Repository.Invariant.{IsValid, fresh_id, get-put_cases}
use fin_data_hub.Runtime.Repository.Preserve.{IsSound, stored_of_In}
use fin_data_hub.Runtime.Sql.Table.{
  SameRows, rewritten, length-filter, In-map, In-of_map, count-map, single_of,
}
use fin_data_hub.Runtime.Sql.Database.{Engine, Db}
use fin_data_hub.Runtime.Sql.Runs.{rows}

abbrev pub under : ℕ → JobRun → Bool
under id run = run.run_id == id

-- Rows in any order that are those of a dict, each once.
pub record Holds (table : List JobRun) (runs : Dict ℕ JobRun) : Type 0 where
  pub stored : (a : JobRun) → In a table → Dict.get runs a.run_id ≡ some a
  pub listed : (id : ℕ) (a : JobRun) → Dict.get runs id ≡ some a → In a table
  pub single : (id : ℕ) → count (under id) table ≤ 1

pub record Simulates (e : Engine) (db : Db e) (r : Repo) : Type 0 where
  pub runs : Holds (rows e db) r.runs
  pub next : e.next_id db.sequence ≡ r.next_run_id

module _ {table : List JobRun} {runs : Dict ℕ JobRun} (h : Holds table runs) where
  -- What a SELECT by `run_id` reads.
  pub filter_stored :
      (id : ℕ) (a : JobRun)
      → Dict.get runs id ≡ some a
      → a.run_id ≡ id
      → filter (under id) table ≡ a ∷ []
  filter_stored id a g keyed =
      single_of a (filter (under id) table)
        (In-filter (under id) a table (h.listed id a g) ((eqb_iff a.run_id id).1 keyed))
        (omega (arith, length-filter (under id) table, h.single id))

module _ {table : List JobRun} {runs : Dict ℕ JobRun} {next : ℕ} (h : Holds table runs)
    (v : IsValid runs next) where
  pub any_absent : (id : ℕ) → Dict.get runs id ≡ none → any (under id) table ≡ false
  any_absent id g = elim (Bool-cases (any (under id) table)) [
    | inr nothing ↦ nothing
    | inl found ↦
        let (a, m, same) = any_witness (under id) table found in
        let s = h.stored a m in
        let p = (eqb_iff a.run_id id).0 same in absurd (ground (arith, ap (Dict.get runs) p))
  ]

  pub filter_absent : (id : ℕ) → Dict.get runs id ≡ none → filter (under id) table ≡ []
  filter_absent id g = filter-nil_any (under id) table (any_absent id g)

  none_yet : count (under next) table ≡ 0
  none_yet = sym (length-filter (under next) table) ∙ ap length (filter_absent next (fresh_id v))

  -- A new row under the next id.
  pub insert-Holds :
      (new : JobRun) (table' : List JobRun)
      → new.run_id ≡ next
      → SameRows table' (new ∷ table)
      → Holds table' (Dict.put runs next new)
  unfolding count
  insert-Holds new table' same w = record {
    stored = λ a m. from a (w.forth a m);
    listed = λ id a g. elim (get-put_cases runs next new id a g) [
      | inl (p, q) ↦ w.back a (inl (sym q))
      | inr (n, g') ↦ w.back a (inr (h.listed id a g'))
    ];
    single = λ id. elim (Bool-cases (new.run_id == id)) [
      | inl is_new ↦
          let p = sym same ∙ (eqb_iff new.run_id id).0 is_new in
          let q = ap (λ i. count (under i) table) p in
          omega (arith, w.same_count (under id), counted id true is_new, none_yet, q)
      | inr other ↦ omega (arith, w.same_count (under id), counted id false other, h.single id)
    ];
  }
    where
      counted :
          (id : ℕ) (b : Bool)
          → (new.run_id == id) ≡ b
          → count (under id) (new ∷ table) ≡ (if b then 1 else 0) + count (under id) table
      counted id b e = rw e

      from : (a : JobRun) → In a (new ∷ table) → Dict.get (Dict.put runs next new) a.run_id ≡ some a
      from a (inl p) =
          subst (λ x. Dict.get (Dict.put runs next new) x.run_id ≡ some x) (sym p)
            (ap (Dict.get (Dict.put runs next new)) same ∙ Dict.get-put_self runs next new)
      from a (inr m) = ground (
        arith,
        get-put runs next a.run_id new,
        h.stored a m,
        fresh_id v,
        eqb_iff next a.run_id,
        v.below a.run_id a (h.stored a m),
      )

  -- An UPDATE of the row under an id, with a further condition, that keeps the id.
  module _ (id : ℕ) (a : JobRun) (g : Dict.get runs id ≡ some a) (p : JobRun → Bool)
      (f : JobRun → JobRun) (keeps : (x : JobRun) → (f x).run_id ≡ x.run_id) where
    abbrev change : JobRun → JobRun
    change = rewritten (λ run. run.run_id == id && p run) f

    change_keeps : (x : JobRun) → (change x).run_id ≡ x.run_id
    change_keeps x = ground (arith, keeps x)

    change_other : (x : JobRun) → (x.run_id == id) ≡ false → change x ≡ x
    change_other x other = rw other

    change_self : (x : JobRun) → (x.run_id == id) ≡ true → change x ≡ rewritten p f x
    change_self x same = rw same

    pub update-Holds :
        (table' : List JobRun)
        → SameRows table' (map change table)
        → Holds table' (Dict.put runs id (rewritten p f a))
    update-Holds table' w = record {
      stored = λ b m.
          let (x, n, q) = In-of_map change b table (w.forth b m) in
          subst (λ y. Dict.get (Dict.put runs id (rewritten p f a)) y.run_id ≡ some y) (sym q)
            (at x (h.stored x n));
      listed = λ k b s. elim (get-put_cases runs id (rewritten p f a) k b s) [
        | inl (_, q) ↦ w.back b (
            subst (λ y. In y (map change table))
              (change_self a ((eqb_iff a.run_id id).1 (v.keyed id a g)) ∙ q)
              (In-map change a table (h.listed id a g)))
        | inr (n, s') ↦ w.back b (
            subst (λ y. In y (map change table))
              (change_other b (ground (arith, n, v.keyed k b s', eqb_iff b.run_id id)))
              (In-map change b table (h.listed k b s')))
      ];
      single = λ k. omega (
        arith,
        w.same_count (under k),
        count-map (under k) change table (λ x. ap (λ i. i == k) (change_keeps x)),
        h.single k,
      );
    }
      where
        at :
            (x : JobRun)
            → Dict.get runs x.run_id ≡ some x
            → Dict.get (Dict.put runs id (rewritten p f a)) (change x).run_id ≡ some (change x)
        at x s = elim (Bool-cases (x.run_id == id)) [
          | inl same ↦
              let e = (eqb_iff x.run_id id).0 same in
              let q : x ≡ a = ground (arith, ap (Dict.get runs) e) in
              ap (Dict.get (Dict.put runs id (rewritten p f a))) (change_keeps x ∙ e)
              ∙ Dict.get-put_self runs id (rewritten p f a)
              ∙ ap some (sym (change_self x same ∙ ap (rewritten p f) q))
          | inr other ↦
              ap (Dict.get (Dict.put runs id (rewritten p f a))) (change_keeps x)
              ∙ get-put runs id x.run_id (rewritten p f a)
              ∙ ground (arith, eqb_iff id x.run_id, eqb_iff x.run_id id, change_other x other)
        ]

-- Only what is read under the ids matters.
pub Holds-of_get :
    (table : List JobRun) (runs runs' : Dict ℕ JobRun)
    → ((k : ℕ) → Dict.get runs' k ≡ Dict.get runs k)
    → Holds table runs
    → Holds table runs'
Holds-of_get table runs runs' same h = record {
  stored = λ a m. same a.run_id ∙ h.stored a m;
  listed = λ id a g. h.listed id a (sym (same id) ∙ g);
  single = h.single;
}

-- Both stores raise the same, or both return the same and hold the same afterwards.
abbrev pub Matches : (e : Engine) → {X : Type 0} → Result (X × Db e) → Result (X × Repo) → Type 0
Matches e (raise x) (raise y) = x ≡ y
Matches e (raise x) (ok (b, r)) = ⊥
Matches e (ok (a, db)) (raise y) = ⊥
Matches e (ok (a, db)) (ok (b, r)) = (a ≡ b) × Simulates e db r

-- Two searches that find the same find something together.
pub any-same :
    {A B : Type 0} (p : A → Bool) (q : B → Bool) (xs : List A) (ys : List B)
    → ((a : A) → In a xs → p a ≡ true → (b : B) × In b ys × (q b ≡ true))
    → ((b : B) → In b ys → q b ≡ true → (a : A) × In a xs × (p a ≡ true))
    → any p xs ≡ any q ys
any-same p q xs ys forth back = from (Bool-cases (any p xs)) (Bool-cases (any q ys))
  where
    from :
        (any p xs ≡ true) ⊎ (any p xs ≡ false)
        → (any q ys ≡ true) ⊎ (any q ys ≡ false)
        → any p xs ≡ any q ys
    from (inl f) (inl g) = f ∙ sym g
    from (inr f) (inr g) = f ∙ sym g
    from (inl f) (inr g) =
        let (a, m, t) = any_witness p xs f in
        let (b, n, u) = forth a m t in absurd (ground (arith, any-true q b ys n u))
    from (inr f) (inl g) =
        let (b, n, u) = any_witness q ys g in
        let (a, m, t) = back b n u in absurd (ground (arith, any-true p a xs m t))

pub In-same :
    (e : Engine) (db : Db e) (r : Repo)
    → IsSound r
    → Simulates e db r
    → (a : JobRun) → In a (rows e db) ↔ In a (Dict.values r.runs)
In-same e db r v s a = (
  λ m. In-values r.runs a.run_id a (s.runs.stored a m),
  λ m. s.runs.listed a.run_id a (stored_of_In r v a m),
)
