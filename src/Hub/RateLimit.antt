-- ===== src/Hub/RateLimit.antt =====
-- src/fin_data_hub/ratelimit.py: a token bucket for each source, and calls that are tried again. Tokens
-- and times are natural numbers, in units in which the bucket gains `rate` tokens for each unit of
-- time; the rounding of floats is not modelled. What the clock reads is an argument: a waiting
-- `acquire` takes a list of readings, two for each round of its loop.
pub mod Bounds
pub mod Waiting
pub mod Retries
pub mod Tests
use Prim.Native.Nat.{min, max}
use fin_data_hub.Prelude.{
  ℕ, zero, suc, ◌+◌, ◌-◌, ◌*◌, ◌^◌, String, Bool, true, false, ◌&&◌, List, [], ◌∷◌, Option, none,
  some, nat_eq, string_eq, if◌then◌else◌, ltb, leb,
}
use fin_data_hub.Prelude.Dict
use fin_data_hub.Prelude.Dict.{Dict}

pub record RateLimiter : Type 0 where
  pub rate : ℕ
  pub capacity : ℕ
  pub tokens : ℕ
  pub updated : ℕ

abbrev pub capacity_of : ℕ → ℕ → ℕ → Option ℕ → ℕ
capacity_of one second rate none = max one (second * rate)
capacity_of one second rate (some burst) = burst

-- `__init__`; `none` where it raises `ValueError`. `one` is one token, `second` a second.
unfoldable pub new_limiter : ℕ → ℕ → ℕ → Option ℕ → ℕ → Option RateLimiter
new_limiter one second rate burst now =
    let capacity = capacity_of one second rate burst in
    if leb rate 0
    then none
    else if leb capacity 0
    then none
    else some (record { rate = rate; capacity = capacity; tokens = capacity; updated = now })

-- `_refill`
unfoldable pub refill : ℕ → RateLimiter → RateLimiter
refill now l =
    if ltb l.updated now
    then record l { tokens = min l.capacity (l.tokens + (now - l.updated) * l.rate); updated = now }
    else l

unfoldable pub try_acquire : ℕ → ℕ → RateLimiter → Bool × RateLimiter
unfolding refill
try_acquire tokens now l =
    let r = refill now l in
    if leb tokens r.tokens then (true, record r { tokens = r.tokens - tokens }) else (false, r)

unfoldable pub tokens_at : ℕ → RateLimiter → ℕ × RateLimiter
unfolding refill
tokens_at now l = ((refill now l).tokens, refill now l)

-- how an `acquire` ends; `waiting` after the readings that there are
pub data Acquired : Type 0 where
  acquired timed_out too_many waiting : Acquired

abbrev pub is_past : Option ℕ → ℕ → Bool
is_past none now = false
is_past (some deadline) now = leb deadline now

-- the loop of `acquire`
unfoldable pub acquire_loop : ℕ → Option ℕ → List (ℕ × ℕ) → RateLimiter → Acquired × RateLimiter
unfolding try_acquire
acquire_loop tokens deadline [] l = (Acquired.waiting, l)
acquire_loop tokens deadline ((now, later) ∷ readings) l =
    let tried = try_acquire tokens now l in
    let rest = acquire_loop tokens deadline readings tried.1 in
    if tried.0
    then (Acquired.acquired, tried.1)
    else if is_past deadline later
    then (Acquired.timed_out, tried.1)
    else rest

abbrev pub deadline_of : ℕ → Option ℕ → Option ℕ
deadline_of now none = none
deadline_of now (some timeout) = some (now + timeout)

unfoldable pub acquire : ℕ → Option ℕ → ℕ → List (ℕ × ℕ) → RateLimiter → Acquired × RateLimiter
unfolding acquire_loop
acquire tokens timeout now readings l =
    if ltb l.capacity tokens
    then (Acquired.too_many, l)
    else acquire_loop tokens (deadline_of now timeout) readings l

-- Each limiter of a set is an object of its own.
pub record RateLimiterSet : Type 0 where
  pub default : RateLimiter
  pub timeout : Option ℕ
  pub endpoints : Dict String RateLimiter

-- `get`
unfoldable pub limiter_of : Option String → RateLimiterSet → RateLimiter
limiter_of none s = s.default
limiter_of (some endpoint) s = elim (Dict.get s.endpoints endpoint) [
  | none ↦ s.default
  | some l ↦ l
]

abbrev pub effective : Option ℕ → Option ℕ → Option ℕ
effective none timeout = timeout
effective (some own) timeout = some own

-- the set once a limiter of it has changed
unfoldable pub with_limiter : Option String → RateLimiter → RateLimiterSet → RateLimiterSet
with_limiter none l s = record s { default = l }
with_limiter (some endpoint) l s = elim (Dict.get s.endpoints endpoint) [
  | none ↦ record s { default = l }
  | some old ↦ record s { endpoints = Dict.put s.endpoints endpoint l }
]

unfoldable pub acquire_at :
    Option String → ℕ → Option ℕ → ℕ → List (ℕ × ℕ) → RateLimiterSet → Acquired × RateLimiterSet
unfolding acquire limiter_of with_limiter
acquire_at endpoint tokens timeout now readings s =
    let (out, l) =
      acquire tokens (effective timeout s.timeout) now readings (limiter_of endpoint s) in
    (out, with_limiter endpoint l s)

-- `compute_backoff`; `spread` multiplies by the random factor and cuts at 0
unfoldable pub compute_backoff : (ℕ → ℕ) → ℕ → ℕ → ℕ → ℕ
compute_backoff spread base max_delay attempt = spread (min max_delay (base * 2 ^ (attempt - 1)))

-- what a call returns or raises
pub data Called (T E : Type 0) : Type 0 where
  returned : T → Called T E
  raised : E → Called T E

-- `retried` says which exceptions are in `retry_on`, and `pause` is what happens before the next
-- attempt: `compute_backoff` with its random factor, `on_retry` and `sleep_fn`.
module _ {T E S : Type 0} (retried : E → Bool) (pause : ℕ → E → S → S)
    (fn : S → Called T E × S) where
  -- the loop of `retry_call` from an attempt on, with the number of attempts after it
  unfoldable pub try_from : ℕ → ℕ → S → Called T E × S
  try_from attempt zero s = fn s
  try_from attempt (suc left) s = elim (fn s).0 [
    | returned v ↦ (returned v, (fn s).1)
    | raised e ↦
        let again = try_from (attempt + 1) left (pause attempt e (fn s).1) in
        if retried e then again else (raised e, (fn s).1)
  ]

  -- `none` where it raises `ValueError`
  unfoldable pub retry_call : ℕ → S → Option (Called T E × S)
  unfolding try_from
  retry_call zero s = none
  retry_call (suc left) s = some (try_from 1 left s)
