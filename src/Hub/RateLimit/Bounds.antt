-- ===== src/Hub/RateLimit/Bounds.antt =====
-- What a `RateLimiter` (ratelimit.py) lets through in a span of time, however it is asked.
use fin_data_hub.Prelude.{
  ℕ, ◌+◌, ◌-◌, ◌*◌, ◌≤◌, ◌≡◌, refl, sym, ap, ◌∙◌, subst, inl, inr, List, [], ◌∷◌, Option,
  if◌then◌else◌, ltb, leb, arith, Bool-cases,
}
use native.Mathlib.Nat.{add-mul}
use fin_data_hub.Hub.RateLimit.{
  RateLimiter, refill, try_acquire, Acquired, acquire_loop, is_past, deadline_of, acquire,
}

-- A request, at once or waiting.
pub data Request : Type 0 where
  at_once : ℕ → ℕ → Request
  patient : ℕ → Option ℕ → ℕ → List (ℕ × ℕ) → Request

abbrev pub paid : ℕ → Acquired → ℕ
paid tokens Acquired.acquired = tokens
paid tokens Acquired.timed_out = 0
paid tokens Acquired.too_many = 0
paid tokens Acquired.waiting = 0

-- the tokens that a request gets, and the limiter after it
unfoldable pub serve : Request → RateLimiter → ℕ × RateLimiter
serve (at_once tokens now) l =
    ((if (try_acquire tokens now l).0 then tokens else 0), (try_acquire tokens now l).1)
serve (patient tokens timeout now readings) l = (
  paid tokens (acquire tokens timeout now readings l).0,
  (acquire tokens timeout now readings l).1,
)

unfoldable pub serve_all : List Request → RateLimiter → ℕ × RateLimiter
serve_all [] l = (0, l)
serve_all (r ∷ rs) l = let rest = serve_all rs (serve r l).1 in ((serve r l).0 + rest.0, rest.1)

-- What a limiter is after some requests, given what it was and the tokens that it gave.
pub record Spent (l l' : RateLimiter) (got : ℕ) : Type 0 where
  pub same_rate : l'.rate ≡ l.rate
  pub same_capacity : l'.capacity ≡ l.capacity
  pub forward : l.updated ≤ l'.updated
  pub full : l'.tokens ≤ l'.capacity
  pub balance : got + l'.tokens ≤ l.tokens + (l'.updated - l.updated) * l.rate

elapsed_sum : (a b c rate : ℕ) → a ≤ b → b ≤ c → (b - a) * rate + (c - b) * rate ≡ (c - a) * rate
elapsed_sum a b c rate h k = sym (add-mul (b - a) (c - b) rate) ∙ ap (λ n. n * rate) (omega arith)

Spent-trans : (a b c : RateLimiter) (m n : ℕ) → Spent a b m → Spent b c n → Spent a c (m + n)
Spent-trans a b c m n p q = record {
  same_rate = q.same_rate ∙ p.same_rate;
  same_capacity = q.same_capacity ∙ p.same_capacity;
  forward = omega (arith, p.forward, q.forward);
  full = q.full;
  balance =
      let e = elapsed_sum a.updated b.updated c.updated a.rate p.forward q.forward in
      let k =
        subst (λ r. n + c.tokens ≤ b.tokens + (c.updated - b.updated) * r) p.same_rate q.balance in
      omega (arith, p.balance);
}

Spent-after : (a b c : RateLimiter) (n : ℕ) → Spent a b 0 → Spent b c n → Spent a c n
Spent-after a b c n p q = subst (Spent a c) (omega arith) (Spent-trans a b c 0 n p q)

refill-Spent : (now : ℕ) (l : RateLimiter) → l.tokens ≤ l.capacity → Spent l (refill now l) 0
unfolding refill
refill-Spent now l h = elim (Bool-cases (ltb l.updated now)) [
  | inl later ↦ rw later (record {
    same_rate = refl;
    same_capacity = refl;
    forward = ground arith;
    full = omega arith;
    balance = omega arith;
  })
  | inr same ↦ rw same (record {
    same_rate = refl;
    same_capacity = refl;
    forward = omega arith;
    full = h;
    balance = omega arith;
  })
]

pub try_acquire-Spent :
    (tokens now : ℕ) (l : RateLimiter)
    → l.tokens ≤ l.capacity
    → Spent l (try_acquire tokens now l).1 (if (try_acquire tokens now l).0 then tokens else 0)
unfolding try_acquire
try_acquire-Spent tokens now l h =
    let s = refill-Spent now l h in
    elim (Bool-cases (leb tokens (refill now l).tokens)) [
      | inr poor ↦ rw poor s
      | inl rich ↦ rw rich (record {
        same_rate = s.same_rate;
        same_capacity = s.same_capacity;
        forward = s.forward;
        full = omega (arith, s.full);
        balance = ground (arith, s.balance);
      })
    ]

nothing-Spent : (l : RateLimiter) → l.tokens ≤ l.capacity → Spent l l 0
nothing-Spent l h = record {
  same_rate = refl;
  same_capacity = refl;
  forward = omega arith;
  full = h;
  balance = omega arith;
}

acquire_loop-Spent :
    (tokens : ℕ) (deadline : Option ℕ) (readings : List (ℕ × ℕ)) (l : RateLimiter)
    → l.tokens ≤ l.capacity
    → Spent l
        (acquire_loop tokens deadline readings l).1
        (paid tokens (acquire_loop tokens deadline readings l).0)
unfolding acquire_loop
acquire_loop-Spent tokens deadline [] l h = nothing-Spent l h
acquire_loop-Spent tokens deadline ((now, later) ∷ readings) l h =
    let s = try_acquire-Spent tokens now l h in
    let l1 = (try_acquire tokens now l).1 in
    elim (Bool-cases (try_acquire tokens now l).0) [
      | inl got ↦ rw got (rw got at s)
      | inr refused ↦ elim (Bool-cases (is_past deadline later)) [
        | inl past ↦ rw (refused, past) (rw refused at s)
        | inr more ↦
            rw (refused, more)
              (Spent-after l l1 (acquire_loop tokens deadline readings l1).1
                (paid tokens (acquire_loop tokens deadline readings l1).0) (rw refused at s)
                (acquire_loop-Spent tokens deadline readings l1 s.full))
      ]
    ]

serve-Spent :
    (r : Request) (l : RateLimiter) → l.tokens ≤ l.capacity → Spent l (serve r l).1 (serve r l).0
unfolding serve acquire
serve-Spent (at_once tokens now) l h = try_acquire-Spent tokens now l h
serve-Spent (patient tokens timeout now readings) l h = elim (Bool-cases (ltb l.capacity tokens)) [
  | inl above ↦ rw above (nothing-Spent l h)
  | inr fits ↦ rw fits (acquire_loop-Spent tokens (deadline_of now timeout) readings l h)
]

-- However many requests are made, at once or waiting, and whatever the clock reads, they get at most
-- the capacity and what the rate gives for the time between the first and the last refill; the rate
-- and the capacity stay, the clock of the limiter does not go back, and it holds no more tokens than
-- its capacity.
pub serve_all_lem :
    (rs : List Request) (l : RateLimiter)
    → l.tokens ≤ l.capacity
    → Spent l (serve_all rs l).1 (serve_all rs l).0
      × ((serve_all rs l).0 ≤ l.capacity + ((serve_all rs l).1.updated - l.updated) * l.rate)
unfolding serve_all
serve_all_lem [] l h = (nothing-Spent l h, omega arith)
serve_all_lem (r ∷ rs) l h =
    let s = serve-Spent r l h in
    let (t, _) = serve_all_lem rs (serve r l).1 s.full in
    let both =
      Spent-trans l (serve r l).1 (serve_all rs (serve r l).1).1 (serve r l).0
        (serve_all rs (serve r l).1).0 s t in
    (both, omega (arith, both.balance))
