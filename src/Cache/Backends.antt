-- ===== src/Cache/Backends.antt =====
-- `generation_of`, `bump_generation_of` and `set_generation_of` of src/fin_data_platform/cache/keys.py on
-- the two caches of cache/backend.py: `InMemoryCache` as L1 at one reading of the clock, and
-- `RedisCache` as L2. The client of Redis is an argument, with what INCR, GET and SET do as laws, and
-- `none` where it raises; its counts of hits and sets are left out. `NullCache` keeps no generation.
pub mod Pushed
pub mod Generation
use Prim.Native.Nat.{max}
use Prim.Native.String.{◌++◌ as append_text}
use fin_data_hub.Prelude.{
  ℕ, ◌+◌, ◌-◌, ◌≤◌, ◌<◌, String, ◌≡◌, refl, ap, subst, sym, ◌∙◌, inl, inr, false, ◌&&◌, List, [],
  ◌∷◌, Option, none, some, arith, ◌==◌, nat_eq, string_eq, length, ==-refl, Bool-cases,
  Option-cases,
}
use fin_data_hub.Prelude.Dict
use fin_data_hub.Prelude.Dict.{get-pop, get-append_absent}
use fin_data_hub.Cache.Memory.{
  Entry, InMemoryCache, expired, put_last, get, get_entry, set, incr, incr_entry, count_on,
  store_count,
}
use fin_data_hub.Cache.Memory.Account.{IsCounted, set_lem}
use fin_data_hub.Cache.Memory.Incr.{incr_lem}
use fin_data_hub.Cache.Layered.{
  CacheBackend, LayeredCache, Counts, WritesLocal, generation, bump_generation,
  bump_generation-both, bump_generation-down,
}

-- `GENERATION_KEY`
abbrev pub generation_key : String → String
generation_key domain = append_text "fdh:gen:" domain

module _ (int_of : List ℕ → Option ℕ) (text_of : ℕ → List ℕ) where
  -- `int` of what was read, 0 where nothing was or it is no number
  abbrev pub number_in : Option ℕ → ℕ
  number_in none = 0
  number_in (some n) = n

  abbrev pub number : Option (List ℕ) → ℕ
  number none = 0
  number (some raw) = number_in (int_of raw)

  -- a count, unless `incr` raised
  abbrev pub pushed : Option ℕ × InMemoryCache → Option (ℕ × InMemoryCache)
  pushed (none, c) = none
  pushed (some n, c) = some (n, c)

  abbrev pub memory_backend : ℕ → CacheBackend
  memory_backend now = record {
    State = InMemoryCache;
    generation_of = λ domain c. some (number (get (generation_key domain) now c).0);
    bump_generation_of =
        λ domain c. pushed (incr int_of text_of (generation_key domain) none now c);
    set_generation_of = λ domain n c. some (set (generation_key domain) (text_of n) none now c);
  }

  -- What `RedisCache` takes from its client.
  pub record RedisClient : Type 1 where
    pub State : Type 0
    pub read : String → State → Option (Option (List ℕ))
    pub incr : String → State → Option (ℕ × State)
    pub write : String → List ℕ → State → Option State
    pub incr_counts :
        (key : String) (s s' : State) (n : ℕ) (raw : Option (List ℕ))
        → read key s ≡ some raw
        → incr key s ≡ some (n, s')
        → n ≡ number raw + 1
    pub incr_writes :
        (key : String) (s s' : State) (n : ℕ)
        → incr key s ≡ some (n, s')
        → read key s' ≡ some (some (text_of n))
    pub write_reads :
        (key : String) (value : List ℕ) (s s' : State)
        → write key value s ≡ some s'
        → read key s' ≡ some (some value)

  abbrev pub number_read : Option (Option (List ℕ)) → Option ℕ
  number_read none = none
  number_read (some raw) = some (number raw)

  abbrev pub redis_backend : RedisClient → CacheBackend
  redis_backend client = record {
    State = client.State;
    generation_of = λ domain s. number_read (client.read (generation_key domain) s);
    bump_generation_of = λ domain s. client.incr (generation_key domain) s;
    set_generation_of = λ domain n s. client.write (generation_key domain) (text_of n) s;
  }
