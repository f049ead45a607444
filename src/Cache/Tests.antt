-- ===== src/Cache/Tests.antt =====
-- The theorems on `InMemoryCache` (cache/backend.py) at a cache of two entries and five bytes, and on
-- `LayeredCache` (cache/layered.py) at an empty cache and one key of Redis.
use Prim.Native.Nat.{max}
use fin_data_hub.Prelude.{
  Bool, true, ◌<◌, ℕ, ◌+◌, ◌≤◌, String, ◌≡◌, refl, false, List, [], ◌∷◌, ◌++◌, Option, none, some,
  arith, sym, ap, ◌∙◌, ◌⊎◌, length, if◌then◌else◌, leb, ◌&&◌, ◌-◌, string_eq,
}
use fin_data_hub.Prelude.Dict
use fin_data_hub.Prelude.Dict.{Dict}
use fin_data_hub.Cache.Memory.{
  Entry, InMemoryCache, new_cache, expired, get, set, put_last, size_of, incr, acquire_lock,
  release_lock, store_count,
}
use fin_data_hub.Cache.Layered.{CacheBackend, LayeredCache, generation, bump_generation}
use fin_data_hub.Cache.Backends.{RedisClient, number, generation_key}
use fin_data_hub.Cache.Backends.Generation.{l1, l2, bump_generation_lem}
use fin_data_hub.Cache.Memory.Account.{size, IsCounted, set_lem}
use fin_data_hub.Cache.Memory.Incr.{incr_lem}
use fin_data_hub.Cache.Memory.Locks.{acquire_lock_excludes}

-- `int` and `str(n).encode()` of one digit
abbrev int_of : List ℕ → Option ℕ
int_of (d ∷ []) = if leb 48 d && leb d 57 then some (d - 48) else none
int_of _ = none

abbrev text_of : ℕ → List ℕ
text_of n = (48 + n) ∷ []

abbrev empty : InMemoryCache
empty = new_cache 2 5

empty-IsCounted : IsCounted empty
unfolding new_cache size
empty-IsCounted = record { dict = tt; counted = refl }

abbrev bars : Entry
bars = record { expires_at = none; value = 1 ∷ 2 ∷ 3 ∷ [] }

abbrev one_entry : InMemoryCache
one_entry = record empty { entries = ("bars", bars) ∷ []; bytes = 3 }

one_entry-IsCounted : IsCounted one_entry
unfolding new_cache size Dict.get
one_entry-IsCounted = record { dict = (refl, tt); counted = refl }

set_lem_example :
    IsCounted (set "rm" (7 ∷ 8 ∷ 9 ∷ []) (some 60) 100 one_entry)
    × (length (set "rm" (7 ∷ 8 ∷ 9 ∷ []) (some 60) 100 one_entry).entries ≤ 2)
    × ((set "rm" (7 ∷ 8 ∷ 9 ∷ []) (some 60) 100 one_entry).bytes ≤ 5)
    × ((gone : Dict String Entry) × (put_last one_entry.entries "rm"
            (record { expires_at = some 160; value = 7 ∷ 8 ∷ 9 ∷ [] })
          ≡ gone ++ (set "rm" (7 ∷ 8 ∷ 9 ∷ []) (some 60) 100 one_entry).entries)
        × ((set "rm" (7 ∷ 8 ∷ 9 ∷ []) (some 60) 100 one_entry).evictions ≡ 0 + length gone))
    × (1 ≤ 2
        → length {A = ℕ} (7 ∷ 8 ∷ 9 ∷ []) ≤ 5
        → (later : ℕ)
        → (get "rm" later (set "rm" (7 ∷ 8 ∷ 9 ∷ []) (some 60) 100 one_entry)).0 ≡ (
            if expired later (record { expires_at = some 160; value = 7 ∷ 8 ∷ 9 ∷ [] })
            then none
            else some (7 ∷ 8 ∷ 9 ∷ [])))
unfolding new_cache
set_lem_example = set_lem "rm" (7 ∷ 8 ∷ 9 ∷ []) (some 60) 100 one_entry one_entry-IsCounted

incr_lem_example :
    (((n : ℕ) × ((incr int_of text_of "bars" none 100 one_entry).0 ≡ some n)
        × IsCounted (incr int_of text_of "bars" none 100 one_entry).1)
      ⊎ (((incr int_of text_of "bars" none 100 one_entry).0 ≡ none)
          × ((incr int_of text_of "bars" none 100 one_entry).1.entries ≡ one_entry.entries)
          × ((incr int_of text_of "bars" none 100 one_entry).1.bytes
                + size_of (Dict.get one_entry.entries "bars")
              ≡ size one_entry.entries)))
    × ((e : Entry)
        → Dict.get one_entry.entries "bars" ≡ some e
        → expired 100 e ≡ false
        → int_of e.value ≡ none
        → 1 ≤ length e.value
        → IsCounted (incr int_of text_of "bars" none 100 one_entry).1
        → ⊥)
    × (Dict.get one_entry.entries "bars" ≡ none
        → length one_entry.entries ≡ one_entry.max_entries
        → length (incr int_of text_of "bars" none 100 one_entry).1.entries
          ≡ one_entry.max_entries + 1)
incr_lem_example = incr_lem int_of text_of "bars" none 100 one_entry one_entry-IsCounted

acquire_lock_excludes_example :
    (120 < 130
      → acquire_lock "k" "b" 30 120 (acquire_lock "k" "a" 30 100 empty).1
        ≡ (false, (acquire_lock "k" "a" 30 100 empty).1))
    × ((◌≡◌ {A = String} "a" "b" → ⊥)
        → release_lock "k" "b" (acquire_lock "k" "a" 30 100 empty).1
          ≡ (acquire_lock "k" "a" 30 100 empty).1)
unfolding new_cache acquire_lock Dict.get
acquire_lock_excludes_example = acquire_lock_excludes "k" "a" "b" 30 30 100 120 empty refl

-- a counter, and whether writes reach it
abbrev pub counter : CacheBackend
counter = record {
  State = ℕ × Bool;
  generation_of = λ domain s. some s.0;
  bump_generation_of = λ domain s. if s.1 then some (s.0 + 1, (s.0 + 1, s.1)) else none;
  set_generation_of = λ domain n s. if s.1 then some (n, s.1) else none;
}

-- numbers as payloads of one element
abbrev as_number : List ℕ → Option ℕ
as_number (n ∷ []) = some n
as_number _ = none

abbrev as_text : ℕ → List ℕ
as_text n = n ∷ []

-- one key of Redis, and whether it takes writes
abbrev Slot : Type 0
Slot = Option (List ℕ) × Bool

abbrev or_else {ℓ} : {A : Type ℓ} → A → Option A → A
or_else a none = a
or_else a (some b) = b

abbrev count_up : Slot → Option (ℕ × Slot)
count_up (raw, false) = none
count_up (raw, true) =
    some
      (number as_number as_text raw + 1, (some (as_text (number as_number as_text raw + 1)), true))

abbrev write_up : List ℕ → Slot → Option Slot
write_up value (raw, false) = none
write_up value (raw, true) = some (some value, true)

count_up-number :
    (s s' : Slot) (n : ℕ) (raw : Option (List ℕ))
    → some s.0 ≡ some raw
    → count_up s ≡ some (n, s')
    → n ≡ number as_number as_text raw + 1
count_up-number (x, false) s' n raw h k = absurd (ground arith)
count_up-number (x, true) s' n raw h k =
    sym (ap (λ o. (or_else {A = ℕ × Slot} (0, (x, true)) o).0) k)
    ∙ ap (λ o. number as_number as_text (or_else x o) + 1) h

count_up-text :
    (s s' : Slot) (n : ℕ)
    → count_up s ≡ some (n, s')
    → ◌≡◌ {A = Option (Option (List ℕ))} (some s'.0) (some (some (as_text n)))
count_up-text (x, false) s' n k = absurd (ground arith)
count_up-text (x, true) s' n k =
    let out = ap (or_else {A = ℕ × Slot} (0, (x, true))) k in
    sym (ap (λ o. some o.1.0) out) ∙ ap (λ o. some (some (as_text o.0))) out

write_up-read :
    (value : List ℕ) (s s' : Slot)
    → write_up value s ≡ some s'
    → ◌≡◌ {A = Option (Option (List ℕ))} (some s'.0) (some (some value))
write_up-read value (x, false) s' k = absurd (ground arith)
write_up-read value (x, true) s' k = sym (ap (λ o. some (or_else {A = Slot} (x, true) o).0) k)

abbrev redis : RedisClient as_number as_text
redis = record {
  State = Slot;
  read = λ key s. some s.0;
  incr = λ key s. count_up s;
  write = λ key value s. write_up value s;
  incr_counts = λ key s s' n raw h k. count_up-number s s' n raw h k;
  incr_writes = λ key s s' n h. count_up-text s s' n h;
  write_reads = λ key value s s' h. write_up-read value s s' h;
}

-- L2 stands at 5, and L1 is the cache of a new process
abbrev behind : Slot
behind = (some (as_text 5), true)

abbrev pushed_local : InMemoryCache
pushed_local = record empty {
  entries = (generation_key "bars", record { expires_at = none; value = as_text 1 }) ∷ [];
  bytes = 1;
}

as_trip : (n : ℕ) → as_number (as_text n) ≡ some n
as_trip n = refl

bump_generation_lem_example :
    ((n2 : ℕ) (t1 t2 : Slot)
      → (l2 as_number as_text as_trip 100 redis).bump_generation_of "bars" behind ≡ some (n2, t1)
      → (l2 as_number as_text as_trip 100 redis).set_generation_of "bars" (max 0 5 + 1) t1 ≡ some t2
      → (cache : LayeredCache
          (l1 as_number as_text as_trip 100)
          (l2 as_number as_text as_trip 100 redis))
        × (bump_generation
              (l1 as_number as_text as_trip 100)
              (l2 as_number as_text as_trip 100 redis)
              "bars"
              (record { local = empty; shared = some behind })
            ≡ some (max 0 5 + 1, cache))
        × (generation
              (l1 as_number as_text as_trip 100)
              (l2 as_number as_text as_trip 100 redis)
              "bars"
              cache
            ≡ max 0 5 + 1))
    × ((l2 as_number as_text as_trip 100 redis).bump_generation_of "bars" behind ≡ none
        → (bump_generation
              (l1 as_number as_text as_trip 100)
              (l2 as_number as_text as_trip 100 redis)
              "bars"
              (record { local = empty; shared = some behind })
            ≡ some (0 + 1, record { local = pushed_local; shared = some behind }))
          × (generation
                (l1 as_number as_text as_trip 100)
                (l2 as_number as_text as_trip 100 redis)
                "bars"
                (record { local = pushed_local; shared = some behind })
              ≡ max (0 + 1) 5)
          × (0 < 5
              → generation
                  (l1 as_number as_text as_trip 100)
                  (l2 as_number as_text as_trip 100 redis)
                  "bars"
                  (record { local = pushed_local; shared = some behind })
                ≡ generation
                    (l1 as_number as_text as_trip 100)
                    (l2 as_number as_text as_trip 100 redis)
                    "bars"
                    (record { local = empty; shared = some behind })))
unfolding new_cache get incr Dict.get store_count Dict.pop
bump_generation_lem_example =
    bump_generation_lem as_number as_text as_trip 100 redis "bars" empty pushed_local behind 0 5 1
      empty-IsCounted (omega arith) (omega arith) refl refl refl
