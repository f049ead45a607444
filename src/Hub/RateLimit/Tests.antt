-- ===== src/Hub/RateLimit/Tests.antt =====
-- ratelimit.py at a bucket of four tokens that gains two in each unit of time, and at a call that
-- succeeds at its third attempt.
use fin_data_hub.Prelude.{
  ℕ, ◌+◌, ◌-◌, ◌*◌, ◌≤◌, ◌<◌, ◌≡◌, refl, ◌⊎◌, Bool, true, List, [], ◌∷◌, Option, none, some, arith,
  In, leb, if◌then◌else◌,
}
use fin_data_hub.Hub.RateLimit.{
  RateLimiter, new_limiter, refill, try_acquire, Acquired, acquire, acquire_loop, Called, returned,
  raised, try_from, retry_call,
}
use fin_data_hub.Hub.RateLimit.Bounds.{
  Request, at_once, patient, serve, serve_all, Spent, serve_all_lem,
}
use fin_data_hub.Hub.RateLimit.Waiting.{IsReady, acquire_lem}
use fin_data_hub.Hub.RateLimit.Retries.{Attempts, IsRetried, retry_call_lem}

abbrev bucket : RateLimiter
bucket = record { rate = 2; capacity = 4; tokens = 4; updated = 10 }

abbrev requests : List Request
requests = at_once 3 10 ∷ at_once 2 10 ∷ patient 4 none 11 ((11, 11) ∷ (12, 12) ∷ []) ∷ []

program : Unit {0}
unfolding new_limiter serve_all serve try_acquire refill acquire acquire_loop
program = tt

bucket_new : new_limiter 1 1 2 (some 4) 10 ≡ some bucket
unfolding program
bucket_new = refl

-- three at once, then none, then four once there are five
served : serve_all requests bucket ≡ (7, record bucket { tokens = 0; updated = 12 })
unfolding program
served = refl

serve_all_lem_example :
    Spent bucket (serve_all requests bucket).1 (serve_all requests bucket).0
    × ((serve_all requests bucket).0 ≤ 4 + ((serve_all requests bucket).1.updated - 10) * 2)
serve_all_lem_example = serve_all_lem requests bucket (omega arith)

abbrev poor : RateLimiter
poor = record bucket { tokens = 1 }

acquire_lem_example :
    (4 < 3 → acquire 3 none 10 ((10, 10) ∷ (11, 11) ∷ []) poor ≡ (Acquired.too_many, poor))
    × ((now later : ℕ)
        → 3 ≤ 4
        → In {A = ℕ × ℕ} (now, later) ((10, 10) ∷ (11, 11) ∷ [])
        → IsReady 3 now poor
        → ((acquire 3 none 10 ((10, 10) ∷ (11, 11) ∷ []) poor).0 ≡ Acquired.acquired)
          ⊎ (((acquire 3 none 10 ((10, 10) ∷ (11, 11) ∷ []) poor).0 ≡ Acquired.timed_out)
              × (t : ℕ) × (◌≡◌ {A = Option ℕ} none (some t))))
acquire_lem_example = acquire_lem 3 none 10 ((10, 10) ∷ (11, 11) ∷ []) poor (omega arith)

-- the state counts the calls; the exception is the number of the call
abbrev third : ℕ → Called ℕ ℕ × ℕ
third n = if leb 2 n then (returned n, n + 1) else (raised n, n + 1)

abbrev always : ℕ → Bool
always e = true

abbrev wait : ℕ → ℕ → ℕ → ℕ
wait attempt e s = s

retry_call_lem_example :
    (out : Called ℕ ℕ) × (s' : ℕ) × (k : ℕ) × (retry_call always wait third 3 0 ≡ some (out, s'))
    × Attempts always wait third 1 0 out s' k
    × (k ≤ 3)
    × (IsRetried always wait third out → k ≡ 3)
retry_call_lem_example = retry_call_lem always wait third 3 0 (omega arith)

retried_twice : retry_call always wait third 3 0 ≡ some (returned 2, 3)
unfolding retry_call try_from
retried_twice = refl
