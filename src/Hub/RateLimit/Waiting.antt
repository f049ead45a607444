-- ===== src/Hub/RateLimit/Waiting.antt =====
-- When a waiting `acquire` of a `RateLimiter` (ratelimit.py) ends.
use fin_data_hub.Prelude.{
  ℕ, ◌+◌, ◌-◌, ◌*◌, ◌≤◌, ◌<◌, ◌≡◌, refl, sym, ap, ◌∙◌, subst, ◌⊎◌, inl, inr, true, false, List, [],
  ◌∷◌, Option, none, some, ltb, leb, arith, In, Bool-cases,
}
use native.Mathlib.Nat.{add-mul, zero-mul, mul-le-mul_right}
use fin_data_hub.Hub.RateLimit.{
  RateLimiter, refill, try_acquire, Acquired, acquired, timed_out, acquire_loop, is_past,
  deadline_of, acquire,
}
use fin_data_hub.Hub.RateLimit.Bounds.{try_acquire-Spent}

-- Enough tokens by a time, if nobody else takes any.
abbrev pub IsReady : ℕ → ℕ → RateLimiter → Type 0
IsReady tokens now l = tokens ≤ l.tokens + (now - l.updated) * l.rate

IsReady-refill :
    (tokens now then_at : ℕ) (l : RateLimiter)
    → tokens ≤ l.capacity
    → IsReady tokens now l
    → IsReady tokens now (refill then_at l)
unfolding refill
IsReady-refill tokens now then_at l fits ready = elim (Bool-cases (ltb l.updated then_at)) [
  | inr same ↦ rw same ready
  | inl passed ↦
      let whole =
        mul-le-mul_right {m = now - l.updated} {n = (then_at - l.updated) + (now - then_at)} l.rate
          (omega arith) in
      let parts = add-mul (then_at - l.updated) (now - then_at) l.rate in rw passed (omega arith)
]

IsReady-now :
    (tokens now : ℕ) (l : RateLimiter)
    → tokens ≤ l.capacity
    → IsReady tokens now l
    → (try_acquire tokens now l).0 ≡ true
unfolding try_acquire refill
IsReady-now tokens now l fits ready = elim (Bool-cases (ltb l.updated now)) [
  | inl passed ↦ ground (arith, passed, ready)
  | inr same ↦
      let none_passed : (now - l.updated) * l.rate ≡ 0 =
        ap (λ n. n * l.rate) (the_zero same) ∙ zero-mul l.rate in
      ground (arith, same, none_passed, ready)
]
  where
    the_zero : ltb l.updated now ≡ false → now - l.updated ≡ 0
    the_zero h = ground arith

past_deadline :
    (deadline : Option ℕ) (now : ℕ) → is_past deadline now ≡ true → (t : ℕ) × (deadline ≡ some t)
past_deadline none now h = ground arith
past_deadline (some t) now h = (t, refl)

refused_refill :
    (tokens now : ℕ) (l : RateLimiter)
    → (try_acquire tokens now l).0 ≡ false
    → (try_acquire tokens now l).1 ≡ refill now l
unfolding try_acquire
refused_refill tokens now l h = elim (Bool-cases (leb tokens (refill now l).tokens)) [
  | inl rich ↦ absurd (ground arith)
  | inr poor ↦ rw poor refl
]

acquire_loop_ends :
    (tokens : ℕ) (deadline : Option ℕ) (readings : List (ℕ × ℕ)) (l : RateLimiter) (now later : ℕ)
    → l.tokens ≤ l.capacity
    → tokens ≤ l.capacity
    → In (now, later) readings
    → IsReady tokens now l
    → ((acquire_loop tokens deadline readings l).0 ≡ acquired)
      ⊎ (((acquire_loop tokens deadline readings l).0 ≡ timed_out) × (t : ℕ) × (deadline ≡ some t))
unfolding acquire_loop
acquire_loop_ends tokens deadline [] l now later h fits m ready = absurd m
acquire_loop_ends tokens deadline ((now', later') ∷ readings) l now later h fits m ready =
    elim (Bool-cases (try_acquire tokens now' l).0) [
      | inl got ↦ inl (rw got refl)
      | inr refused ↦ elim (Bool-cases (is_past deadline later')) [
        | inl past ↦
            let (t, e) = past_deadline deadline later' past in inr (rw (refused, past) refl, t, e)
        | inr more ↦ elim m [
          | inl here ↦
              let same : now ≡ now' = ap (λ (p : ℕ × ℕ). p.0) here in
              let ready' = subst (λ x. IsReady tokens x l) same ready in
              absurd (ground (arith, IsReady-now tokens now' l fits ready', refused))
          | inr there ↦
              let s = try_acquire-Spent tokens now' l h in
              rw (refused, more)
                (acquire_loop_ends tokens deadline readings (try_acquire tokens now' l).1 now later
                  s.full (omega (arith, s.same_capacity)) there
                  (subst (IsReady tokens now) (sym (refused_refill tokens now' l refused))
                    (IsReady-refill tokens now now' l fits ready)))
        ]
      ]
    ]

-- An `acquire` of more than the capacity raises `ValueError` and takes nothing. Any other ends by the
-- time at which the rate has given enough, if the loop reads the clock then: it gets its tokens, or,
-- with a timeout only, it raises `RateLimitTimeout`.
pub acquire_lem :
    (tokens : ℕ) (timeout : Option ℕ) (start : ℕ) (readings : List (ℕ × ℕ)) (l : RateLimiter)
    → l.tokens ≤ l.capacity
    → (l.capacity < tokens → acquire tokens timeout start readings l ≡ (Acquired.too_many, l))
      × ((now later : ℕ)
          → tokens ≤ l.capacity
          → In (now, later) readings
          → IsReady tokens now l
          → ((acquire tokens timeout start readings l).0 ≡ acquired)
            ⊎ (((acquire tokens timeout start readings l).0 ≡ timed_out)
                × (t : ℕ) × (timeout ≡ some t)))
unfolding acquire
acquire_lem tokens timeout start readings l h = (
  λ above. ground arith,
  λ now later fits m ready.
      let below : ltb l.capacity tokens ≡ false = ground arith in
      elim (acquire_loop_ends tokens (deadline_of start timeout) readings l now later h fits m
        ready) [
          | inl got ↦ inl (rw below got)
          | inr (late, t, e) ↦ let (d, f) = given timeout t e in inr (rw below late, d, f)
        ],
)
  where
    given :
        (timeout : Option ℕ) (t : ℕ)
        → deadline_of start timeout ≡ some t
        → (d : ℕ) × (timeout ≡ some d)
    given none t e = ground arith
    given (some d) t e = (d, refl)
