-- ===== src/Cache/Memory.antt =====
-- src/fin_data_platform/cache/backend.py, `InMemoryCache`: time to live, least recently used first
-- out, bounds on entries and bytes, counters and locks. `now` is what the clock returns; `int_of` and
-- `text_of` are Python's `int` of a payload (`none` is its `ValueError`) and `str(n).encode()`, for
-- numbers from 0 on. `bytes` is a natural number: where the count is right (Memory/Account), no
-- subtraction passes 0.

pub mod Account
pub mod Incr
pub mod Locks
use fin_data_hub.Prelude.{
  ℕ, suc, ◌+◌, ◌-◌, ◌≤◌, ◌<◌, String, ◌≡◌, Bool, true, false, ◌&&◌, ◌||◌, List, [], ◌∷◌, ◌++◌,
  Option, none, some, ◌==◌, nat_eq, string_eq, if◌then◌else◌, ltb, leb, length, is_some,
}
use fin_data_hub.Prelude.Dict
use fin_data_hub.Prelude.Dict.{Dict}

-- when it expires, and its bytes
pub record Entry : Type 0 where
  pub expires_at : Option ℕ
  pub value : List ℕ

pub record InMemoryCache : Type 0 where
  pub entries : Dict String Entry
  pub locks : Dict String (String × ℕ)
  pub max_entries : ℕ
  pub max_bytes : ℕ
  pub bytes : ℕ
  pub hits : ℕ
  pub misses : ℕ
  pub sets : ℕ
  pub deletes : ℕ
  pub evictions : ℕ
  pub bytes_written : ℕ

unfoldable pub new_cache : ℕ → ℕ → InMemoryCache
new_cache max_entries max_bytes = record {
  entries = [];
  locks = [];
  max_entries = max_entries;
  max_bytes = max_bytes;
  bytes = 0;
  hits = 0;
  misses = 0;
  sets = 0;
  deletes = 0;
  evictions = 0;
  bytes_written = 0;
}

-- `expires_at is not None and expires_at <= now`
unfoldable pub expired : ℕ → Entry → Bool
expired now e = elim e.expires_at [ none ↦ false | some t ↦ leb t now ]

-- `entries[key] = e; entries.move_to_end(key)`
unfoldable pub put_last : Dict String Entry → String → Entry → Dict String Entry
put_last d key e = Dict.pop d key ++ (key, e) ∷ []

unfoldable pub get_entry :
    String → ℕ → Option Entry → InMemoryCache → Option (List ℕ) × InMemoryCache
unfolding expired put_last
get_entry key now none c = (none, record c { misses = c.misses + 1 })
get_entry key now (some e) c =
    if expired now e
    then (
      none,
      record c {
        entries = Dict.pop c.entries key;
        bytes = c.bytes - length e.value;
        misses = c.misses + 1;
      },
    )
    else (some e.value, record c { entries = put_last c.entries key e; hits = c.hits + 1 })

unfoldable pub get : String → ℕ → InMemoryCache → Option (List ℕ) × InMemoryCache
unfolding get_entry
get key now c = get_entry key now (Dict.get c.entries key) c

-- what `_evict_locked` leaves: the entries, their bytes, and the evictions
pub record Evicted : Type 0 where
  pub entries : Dict String Entry
  pub bytes : ℕ
  pub evictions : ℕ

-- the loop of `_evict_locked`, from the oldest entry on
unfoldable pub evict : ℕ → ℕ → Dict String Entry → ℕ → ℕ → Evicted
evict max_entries max_bytes [] bytes n = record { entries = []; bytes = bytes; evictions = n }
evict max_entries max_bytes ((k, e) ∷ d) bytes n =
    let rest = evict max_entries max_bytes d (bytes - length e.value) (n + 1) in
    if ltb max_entries (length ((k, e) ∷ d)) || ltb max_bytes bytes
    then rest
    else record { entries = (k, e) ∷ d; bytes = bytes; evictions = n }

unfoldable pub evict_locked : InMemoryCache → InMemoryCache
unfolding evict
evict_locked c =
    let left = evict c.max_entries c.max_bytes c.entries c.bytes c.evictions in
    record c { entries = left.entries; bytes = left.bytes; evictions = left.evictions }

abbrev pub size_of : Option Entry → ℕ
size_of none = 0
size_of (some e) = length e.value

abbrev pub expiry : Option ℕ → ℕ → Option ℕ
expiry none now = none
expiry (some ttl) now = some (now + ttl)

unfoldable pub set : String → List ℕ → Option ℕ → ℕ → InMemoryCache → InMemoryCache
unfolding put_last evict_locked
set key value ttl now c = evict_locked (record c {
  entries = put_last c.entries key (record { expires_at = expiry ttl now; value = value });
  bytes = c.bytes - size_of (Dict.get c.entries key) + length value;
  sets = c.sets + 1;
  bytes_written = c.bytes_written + length value;
})

unfoldable pub delete : String → InMemoryCache → InMemoryCache
delete key c = elim (Dict.get c.entries key) [
  | none ↦ c
  | some e ↦ record c {
    entries = Dict.pop c.entries key;
    bytes = c.bytes - length e.value;
    deletes = c.deletes + 1;
  }
]

module _ (int_of : List ℕ → Option ℕ) (text_of : ℕ → List ℕ) where
  -- the end of `incr`: the count, when it expires, and the time to live of a first count
  unfoldable pub store_count :
      String → Option ℕ → ℕ → Option ℕ → ℕ → InMemoryCache → ℕ × InMemoryCache
  unfolding put_last
  store_count key ttl now expires_at current c =
      let payload = text_of (current + 1) in
      let expires = if current == 0 && is_some ttl then expiry ttl now else expires_at in
      (
        current + 1,
        record c {
          entries = put_last c.entries key (record { expires_at = expires; value = payload });
          bytes = c.bytes + length payload;
        },
      )

  abbrev pub counted : ℕ × InMemoryCache → Option ℕ × InMemoryCache
  counted (n, c) = (some n, c)

  -- after `int(entry[1])`: `none` is a `ValueError`, beside the state that it leaves
  unfoldable pub count_on :
      String → Option ℕ → ℕ → Option ℕ → Option ℕ → InMemoryCache → Option ℕ × InMemoryCache
  count_on key ttl now expires_at none c = (none, c)
  count_on key ttl now expires_at (some n) c = counted (store_count key ttl now expires_at n c)

  unfoldable pub incr_entry :
      String → Option ℕ → ℕ → Option Entry → InMemoryCache → Option ℕ × InMemoryCache
  unfolding expired count_on
  incr_entry key ttl now none c = counted (store_count key ttl now none 0 c)
  incr_entry key ttl now (some e) c =
      let less = record c { bytes = c.bytes - length e.value } in
      if expired now e
      then counted
          (store_count key ttl now none 0 (record less { entries = Dict.pop c.entries key }))
      else count_on key ttl now e.expires_at (int_of e.value) less

  unfoldable pub incr : String → Option ℕ → ℕ → InMemoryCache → Option ℕ × InMemoryCache
  unfolding incr_entry
  incr key ttl now c = incr_entry key ttl now (Dict.get c.entries key) c

-- a lock that has not run out
unfoldable pub is_held : ℕ → Option (String × ℕ) → Bool
is_held now none = false
is_held now (some (token, until)) = ltb now until

unfoldable pub acquire_lock : String → String → ℕ → ℕ → InMemoryCache → Bool × InMemoryCache
unfolding is_held
acquire_lock key token ttl now c =
    if is_held now (Dict.get c.locks key)
    then (false, c)
    else (true, record c { locks = Dict.put c.locks key (token, now + ttl) })

-- the token of the holder, whether or not its lock has run out
unfoldable pub is_owner : String → Option (String × ℕ) → Bool
is_owner token none = false
is_owner token (some (holder, until)) = holder == token

unfoldable pub release_lock : String → String → InMemoryCache → InMemoryCache
unfolding is_owner
release_lock key token c =
    if is_owner token (Dict.get c.locks key) then record c { locks = Dict.pop c.locks key } else c

unfoldable pub clear : InMemoryCache → InMemoryCache
clear c = record c { entries = []; locks = []; bytes = 0 }
