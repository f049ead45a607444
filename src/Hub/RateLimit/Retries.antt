-- ===== src/Hub/RateLimit/Retries.antt =====
-- How often `retry_call` (ratelimit.py) calls its function, and what it returns.
use fin_data_hub.Prelude.{
  ℕ, zero, suc, ◌+◌, ◌≤◌, ◌≡◌, refl, ap, Bool, true, some, inl, inr, arith, Bool-cases,
}
use fin_data_hub.Hub.RateLimit.{Called, returned, raised, try_from, retry_call}

module _ {T E S : Type 0} (retried : E → Bool) (pause : ℕ → E → S → S)
    (fn : S → Called T E × S) where
  -- Calls of the function, with a pause after each but the last; `Attempts n s out s' k` are `k` calls
  -- from the attempt `n` on.
  pub data Attempts : ℕ → S → Called T E → S → ℕ → Type 0 where
    last : {n : ℕ} {s s' : S} {out : Called T E} → fn s ≡ (out, s') → Attempts n s out s' 1
    again :
        {n k : ℕ} {s s1 s' : S} {e : E} {out : Called T E}
        → fn s ≡ (raised e, s1)
        → retried e ≡ true
        → Attempts (n + 1) (pause n e s1) out s' k
        → Attempts n s out s' (k + 1)

  -- a call that ends with an exception to be tried again
  abbrev pub IsRetried : Called T E → Type 0
  IsRetried out = (e : E) × (out ≡ raised e) × (retried e ≡ true)

  abbrev Ended : ℕ → ℕ → S → Type 0
  Ended n left s =
      (out : Called T E) × (s' : S) × (k : ℕ) × (try_from retried pause fn n left s ≡ (out, s'))
      × Attempts n s out s' k
      × (k ≤ left + 1)
      × (IsRetried out → k ≡ left + 1)

  call_of : (s : S) (out : Called T E) → (fn s).0 ≡ out → fn s ≡ (out, (fn s).1)
  call_of s out e = ap (λ o. (o, (fn s).1)) e

  first_try :
      (n left : ℕ) (s : S) (out : Called T E)
      → (fn s).0 ≡ out
      → ((next : S) → Ended (n + 1) left next)
      → Ended n (suc left) s
  unfolding try_from
  first_try n left s (returned v) e rest = (
    returned v,
    (fn s).1,
    1,
    rw (e, try_from) refl,
    last (call_of s (returned v) e),
    omega arith,
    λ (x, h, r). absurd (ground arith),
  )
  first_try n left s (raised x) e rest = elim (Bool-cases (retried x)) [
    | inr final ↦ (
      raised x,
      (fn s).1,
      1,
      rw (e, try_from) (rw final refl),
      last (call_of s (raised x) e),
      omega arith,
      λ (y, h, r). absurd (ground (arith, h, r, final)),
    )
    | inl more ↦
        let (out, s', k, ran, made, few, spent) = rest (pause n x (fn s).1) in
        (
          out,
          s',
          k + 1,
          rw (e, try_from) (rw more ran),
          again (call_of s (raised x) e) more made,
          omega arith,
          λ r. let j = spent r in omega arith,
        )
  ]

  try_from_lem : (n left : ℕ) (s : S) → Ended n left s
  unfolding try_from
  try_from_lem n zero s = ((fn s).0, (fn s).1, 1, refl, last refl, omega arith, λ r. omega arith)
  try_from_lem n (suc left) s =
      first_try n left s (fn s).0 refl (λ next. try_from_lem (n + 1) left next)

  -- `retry_call` with at least one attempt returns or raises what its last call does. Each call before
  -- raised an exception to be tried again, after which there was a pause. It calls at most `attempts`
  -- times, and exactly so often if the last call raises such an exception as well.
  pub retry_call_lem :
      (attempts : ℕ) (s : S)
      → 1 ≤ attempts
      → (out : Called T E) × (s' : S) × (k : ℕ) × (retry_call retried pause fn attempts s
          ≡ some (out, s'))
        × Attempts 1 s out s' k
        × (k ≤ attempts)
        × (IsRetried out → k ≡ attempts)
  unfolding retry_call
  retry_call_lem zero s h = absurd (omega (arith, h))
  retry_call_lem (suc left) s h =
      let (out, s', k, ran, made, few, spent) = try_from_lem 1 left s in
      (out, s', k, ap some ran, made, omega arith, λ r. let j = spent r in omega arith)
