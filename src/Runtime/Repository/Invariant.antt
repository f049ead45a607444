-- ===== src/Runtime/Repository/Invariant.antt =====
-- What holds of the runs of `InMemoryMetaRepository` at all times, and that a new row and a changed
-- row keep it.
use fin_data_hub.Prelude.{
  ℕ, ◌+◌, ◌≤◌, ◌<◌, ◌≡◌, refl, sym, ap, ◌∙◌, ◌⊎◌, inl, inr, true, false, Option, none, some, arith,
  ◌==◌, nat_eq, eqb_iff, Bool-cases,
}
use fin_data_hub.Prelude.Dict
use fin_data_hub.Prelude.Dict.{Dict, IsDict, get-put, put-IsDict}
use fin_data_hub.Runtime.Models.{JobRun, is_running}
use fin_data_hub.Runtime.Repository.Runs.{is_live, slot}

-- Attempts are counted from 1, and go past the budget only where the budget is 0.
abbrev pub WithinBudget : JobRun → Type 0
WithinBudget run = (1 ≤ run.attempt) × ((run.attempt ≤ run.max_attempts) ⊎ (run.attempt ≡ 1))

pub record IsValid (runs : Dict ℕ JobRun) (next : ℕ) : Type 0 where
  pub dict : IsDict runs
  -- a row stands under its own id, and ids are handed out once
  pub keyed : (k : ℕ) (a : JobRun) → Dict.get runs k ≡ some a → a.run_id ≡ k
  pub below : (k : ℕ) (a : JobRun) → Dict.get runs k ≡ some a → k < next
  pub budget : (k : ℕ) (a : JobRun) → Dict.get runs k ≡ some a → WithinBudget a
  -- one running row for each dataset and scope
  pub exclusive :
      (j k : ℕ) (a b : JobRun)
      → Dict.get runs j ≡ some a
      → Dict.get runs k ≡ some b
      → is_running a.status ≡ true
      → is_running b.status ≡ true
      → slot a ≡ slot b
      → j ≡ k
  -- one queued, retrying, running or succeeded row for each idempotency key
  pub single :
      (j k : ℕ) (a b : JobRun)
      → Dict.get runs j ≡ some a
      → Dict.get runs k ≡ some b
      → is_live a.status ≡ true
      → is_live b.status ≡ true
      → a.job_key ≡ b.job_key
      → j ≡ k

-- No row is stored under an id that was not handed out.
pub fresh_id : {runs : Dict ℕ JobRun} {next : ℕ} → IsValid runs next → Dict.get runs next ≡ none
fresh_id {runs} {next} v = go (Dict.get runs next) refl
  where
    go : (o : Option JobRun) → Dict.get runs next ≡ o → o ≡ none
    go none e = refl
    go (some a) e = absurd (omega (arith, v.below next a e))

-- The row `a` is stored under `k` after `b` was written under `id`.
abbrev pub Stored : Dict ℕ JobRun → ℕ → JobRun → ℕ → JobRun → Type 0
Stored runs id b k a = ((id ≡ k) × (b ≡ a)) ⊎ ((id ≡ k → ⊥) × (Dict.get runs k ≡ some a))

pub get-put_cases :
    (runs : Dict ℕ JobRun) (id : ℕ) (b : JobRun) (k : ℕ) (a : JobRun)
    → Dict.get (Dict.put runs id b) k ≡ some a
    → Stored runs id b k a
get-put_cases runs id b k a h = elim (Bool-cases (id == k)) [
  | inl same ↦ inl ((eqb_iff id k).0 same, ground (arith, get-put runs id k b))
  | inr other ↦ inr (λ p. ground (arith, p, eqb_iff id k), ground (arith, get-put runs id k b))
]

module _ {runs : Dict ℕ JobRun} {next : ℕ} (v : IsValid runs next) where
  -- What a change of a stored row has to respect.
  pub record Change (id : ℕ) (old new : JobRun) : Type 0 where
    pub found : Dict.get runs id ≡ some old
    pub same_id : new.run_id ≡ old.run_id
    pub same_key : new.job_key ≡ old.job_key
    pub same_slot : slot new ≡ slot old
    pub within : WithinBudget new
    pub revives_none : is_live new.status ≡ true → is_live old.status ≡ true
    pub slot_free :
        is_running new.status ≡ true
        → (k : ℕ) (a : JobRun) → Dict.get runs k ≡ some a
        → is_running a.status ≡ true
        → slot a ≡ slot old
        → k ≡ id

  -- A change keeps what holds of the runs.
  pub Change-IsValid :
      (id : ℕ) (old new : JobRun) → Change id old new → IsValid (Dict.put runs id new) next
  Change-IsValid id old new c = record {
    dict = put-IsDict runs id new v.dict;
    keyed = λ k a h. elim (get-put_cases runs id new k a h) [
      | inl (p, q) ↦ ap (λ x. x.run_id) (sym q) ∙ c.same_id ∙ v.keyed id old c.found ∙ p
      | inr (n, g) ↦ v.keyed k a g
    ];
    below = λ k a h. elim (get-put_cases runs id new k a h) [
      | inl (p, q) ↦ rw (← p) (v.below id old c.found)
      | inr (n, g) ↦ v.below k a g
    ];
    budget = λ k a h. elim (get-put_cases runs id new k a h) [
      | inl (p, q) ↦ rw (← q) (c.within)
      | inr (n, g) ↦ v.budget k a g
    ];
    exclusive = λ j k a b ha hb ra rb e.
        exclusive_cases j k a b (get-put_cases runs id new j a ha)
          (get-put_cases runs id new k b hb) ra rb e;
    single = λ j k a b ha hb la lb e.
        single_cases j k a b (get-put_cases runs id new j a ha) (get-put_cases runs id new k b hb)
          la lb e;
  }
    where
      exclusive_cases :
          (j k : ℕ) (a b : JobRun)
          → Stored runs id new j a
          → Stored runs id new k b
          → is_running a.status ≡ true
          → is_running b.status ≡ true
          → slot a ≡ slot b
          → j ≡ k
      exclusive_cases j k a b (inl (p, _)) (inl (q, _)) ra rb e = sym p ∙ q
      exclusive_cases j k a b (inl (p, q)) (inr (n, g)) ra rb e =
          sym p
          ∙ sym (
              c.slot_free (ap (λ x. is_running x.status) q ∙ ra) k b g rb
                (sym e ∙ ap slot (sym q) ∙ c.same_slot))
      exclusive_cases j k a b (inr (n, g)) (inl (p, q)) ra rb e =
          c.slot_free (ap (λ x. is_running x.status) q ∙ rb) j a g ra
            (e ∙ ap slot (sym q) ∙ c.same_slot)
          ∙ p
      exclusive_cases j k a b (inr (_, g)) (inr (_, h)) ra rb e = v.exclusive j k a b g h ra rb e

      single_cases :
          (j k : ℕ) (a b : JobRun)
          → Stored runs id new j a
          → Stored runs id new k b
          → is_live a.status ≡ true
          → is_live b.status ≡ true
          → a.job_key ≡ b.job_key
          → j ≡ k
      single_cases j k a b (inl (p, _)) (inl (q, _)) la lb e = sym p ∙ q
      single_cases j k a b (inl (p, q)) (inr (n, g)) la lb e =
          sym p
          ∙ v.single id k old b c.found g (c.revives_none (ap (λ x. is_live x.status) q ∙ la)) lb
              (sym c.same_key ∙ ap (λ x. x.job_key) q ∙ e)
      single_cases j k a b (inr (n, g)) (inl (p, q)) la lb e =
          v.single j id a old g c.found la (c.revives_none (ap (λ x. is_live x.status) q ∙ lb))
            (e ∙ ap (λ x. x.job_key) (sym q) ∙ c.same_key)
          ∙ p
      single_cases j k a b (inr (_, g)) (inr (_, h)) la lb e = v.single j k a b g h la lb e

  -- A row under the next id keeps it too, if it is not running, has its budget, and no live row has
  -- its key.
  pub insert-IsValid :
      (new : JobRun)
      → new.run_id ≡ next
      → is_running new.status ≡ false
      → WithinBudget new
      → ((k : ℕ) (a : JobRun)
          → Dict.get runs k ≡ some a
          → is_live a.status ≡ true
          → a.job_key ≡ new.job_key
          → ⊥)
      → IsValid (Dict.put runs next new) (next + 1)
  insert-IsValid new same idle within unused = record {
    dict = put-IsDict runs next new v.dict;
    keyed = λ k a h. elim (get-put_cases runs next new k a h) [
      | inl (p, q) ↦ ap (λ x. x.run_id) (sym q) ∙ same ∙ p
      | inr (n, g) ↦ v.keyed k a g
    ];
    below = λ k a h. elim (get-put_cases runs next new k a h) [
      | inl (p, q) ↦ omega arith
      | inr (n, g) ↦ omega (arith, v.below k a g)
    ];
    budget = λ k a h. elim (get-put_cases runs next new k a h) [
      | inl (p, q) ↦ rw (← q) within
      | inr (n, g) ↦ v.budget k a g
    ];
    exclusive = λ j k a b ha hb ra rb e.
        exclusive_cases j k a b (get-put_cases runs next new j a ha)
          (get-put_cases runs next new k b hb) ra rb e;
    single = λ j k a b ha hb la lb e.
        single_cases j k a b (get-put_cases runs next new j a ha)
          (get-put_cases runs next new k b hb) la lb e;
  }
    where
      not_new : (a : JobRun) → new ≡ a → is_running a.status ≡ true → ⊥
      not_new a q r = ground (arith, ap (λ (x : JobRun). is_running x.status) q)

      exclusive_cases :
          (j k : ℕ) (a b : JobRun)
          → Stored runs next new j a
          → Stored runs next new k b
          → is_running a.status ≡ true
          → is_running b.status ≡ true
          → slot a ≡ slot b
          → j ≡ k
      exclusive_cases j k a b (inl (_, q)) s ra rb e = absurd (not_new a q ra)
      exclusive_cases j k a b (inr _) (inl (_, q)) ra rb e = absurd (not_new b q rb)
      exclusive_cases j k a b (inr (_, g)) (inr (_, h)) ra rb e = v.exclusive j k a b g h ra rb e

      single_cases :
          (j k : ℕ) (a b : JobRun)
          → Stored runs next new j a
          → Stored runs next new k b
          → is_live a.status ≡ true
          → is_live b.status ≡ true
          → a.job_key ≡ b.job_key
          → j ≡ k
      single_cases j k a b (inl (p, _)) (inl (q, _)) la lb e = sym p ∙ q
      single_cases j k a b (inl (p, q)) (inr (n, g)) la lb e =
          absurd (unused k b g lb (sym e ∙ ap (λ x. x.job_key) (sym q)))
      single_cases j k a b (inr (n, g)) (inl (p, q)) la lb e =
          absurd (unused j a g la (e ∙ ap (λ x. x.job_key) (sym q)))
      single_cases j k a b (inr (_, g)) (inr (_, h)) la lb e = v.single j k a b g h la lb e
