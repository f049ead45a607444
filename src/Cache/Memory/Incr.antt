-- ===== src/Cache/Memory/Incr.antt =====
-- `get`, `delete` and `incr` of `InMemoryCache` (cache/backend.py): the count of bytes, and the two
-- ways in which `incr` breaks what `set` keeps.
use fin_data_hub.Prelude.{
  ℕ, ◌+◌, ◌-◌, ◌≤◌, String, ◌≡◌, refl, ap, subst, ◌∙◌, inl, inr, ◌⊎◌, false, List, [], ◌∷◌, Option,
  none, some, arith, ◌==◌, string_eq, nat_eq, if◌then◌else◌, length, length-append, Bool-cases,
  Option-cases, ==-refl, is_some, ◌&&◌,
}
use fin_data_hub.Prelude.Dict
use fin_data_hub.Prelude.Dict.{Dict, IsDict, pop-IsDict, get-pop, pop-absent}
use fin_data_hub.Cache.Memory.{
  Entry, InMemoryCache, expired, put_last, get, get_entry, size_of, expiry, delete, incr,
  incr_entry, store_count,
}
use fin_data_hub.Cache.Memory.Account.{size, size-pop, IsCounted, put_last-IsDict, size-put_last}

module _ (key : String) (c : InMemoryCache) (v : IsCounted c) where
  pub get-IsCounted : (now : ℕ) → IsCounted (get key now c).1
  unfolding get
  get-IsCounted now = elim (Option-cases (Dict.get c.entries key)) [
    | inl e ↦ rw e (record { dict = v.dict; counted = v.counted })
    | inr (e, g) ↦ elim (Bool-cases (expired now e)) [
      | inl old ↦
          rw (g, get_entry, old)
            (record {
              dict = pop-IsDict c.entries key v.dict;
              counted = ground (arith, size-pop c.entries key v.dict, v.counted, g);
            })
      | inr live ↦
          rw (g, get_entry, live)
            (record {
              dict = put_last-IsDict c.entries key e v.dict;
              counted = ground (arith, size-put_last c.entries key e v.dict, v.counted, g);
            })
    ]
  ]

  pub delete-IsCounted : IsCounted (delete key c)
  unfolding delete
  delete-IsCounted = elim (Option-cases (Dict.get c.entries key)) [
    | inl e ↦ rw (e, delete) (record { dict = v.dict; counted = v.counted })
    | inr (e, g) ↦
        rw (g, delete)
          (record {
            dict = pop-IsDict c.entries key v.dict;
            counted = ground (arith, size-pop c.entries key v.dict, v.counted, g);
          })
  ]

length-put_last :
    (d : Dict String Entry) (k : String) (e : Entry)
    → Dict.get d k ≡ none
    → length (put_last d k e) ≡ length d + 1
unfolding put_last
length-put_last d k e a =
    length-append (Dict.pop d k) ((k, e) ∷ []) ∙ ap (λ s. length s + 1) (pop-absent d k a)

module _ (int_of : List ℕ → Option ℕ) (text_of : ℕ → List ℕ) where
  store_count-IsCounted :
      (key : String) (ttl : Option ℕ) (now : ℕ) (expires : Option ℕ) (n : ℕ) (c : InMemoryCache)
      → IsDict c.entries
      → size c.entries ≡ c.bytes + size_of (Dict.get c.entries key)
      → IsCounted (store_count int_of text_of key ttl now expires n c).1
  unfolding store_count
  store_count-IsCounted key ttl now expires n c d s =
      let e : Entry = record {
        expires_at = if n == 0 && is_some ttl then expiry ttl now else expires;
        value = text_of (n + 1);
      } in
      record {
        dict = put_last-IsDict c.entries key e d;
        counted = omega (arith, size-put_last c.entries key e d, s);
      }

  -- Unless it raises, `incr` keeps the count of bytes right. When it raises, the entries stay as they
  -- were and the count loses the bytes of the payload.
  incr_count :
      (key : String) (ttl : Option ℕ) (now : ℕ) (c : InMemoryCache)
      → IsCounted c
      → ((n : ℕ) × ((incr int_of text_of key ttl now c).0 ≡ some n)
          × IsCounted (incr int_of text_of key ttl now c).1)
        ⊎ (((incr int_of text_of key ttl now c).0 ≡ none)
            × ((incr int_of text_of key ttl now c).1.entries ≡ c.entries)
            × ((incr int_of text_of key ttl now c).1.bytes + size_of (Dict.get c.entries key)
                ≡ size c.entries))
  unfolding incr store_count
  incr_count key ttl now c v = elim (Option-cases (Dict.get c.entries key)) [
    | inl e ↦
        rw (e, incr_entry)
          (inl (
            1,
            refl,
            store_count-IsCounted key ttl now none 0 c v.dict (ground (arith, e, v.counted)),
          ))
    | inr (e, g) ↦ elim (Bool-cases (expired now e)) [
      | inl old ↦
          rw (g, incr_entry, old)
            (inl (
              1,
              refl,
              store_count-IsCounted key ttl now none 0
                  (record c { bytes = c.bytes - length e.value; entries = Dict.pop c.entries key })
                  (pop-IsDict c.entries key v.dict)
                  (ground (
                    arith,
                    size-pop c.entries key v.dict,
                    v.counted,
                    g,
                    get-pop c.entries key key,
                    ==-refl key,
                  )),
            ))
      | inr live ↦ elim (Option-cases (int_of e.value)) [
        | inl bad ↦
            rw (g, incr_entry, live, bad)
              (inr (refl, refl, ground (arith, size-pop c.entries key v.dict, v.counted, g)))
        | inr (n, good) ↦
            rw (g, incr_entry, live, good)
              (inl (
                n + 1,
                refl,
                store_count-IsCounted key ttl now e.expires_at n
                    (record c { bytes = c.bytes - length e.value }) v.dict
                    (ground (arith, size-pop c.entries key v.dict, v.counted, g)),
              ))
      ]
    ]
  ]

  -- An `incr` of a live payload that is no number raises and leaves the cache with a wrong count of
  -- bytes, if the payload has any bytes.
  incr_loses_bytes :
      (key : String) (ttl : Option ℕ) (now : ℕ) (c : InMemoryCache)
      → IsCounted c
      → (e : Entry) → Dict.get c.entries key ≡ some e
      → expired now e ≡ false
      → int_of e.value ≡ none
      → 1 ≤ length e.value
      → IsCounted (incr int_of text_of key ttl now c).1
      → ⊥
  unfolding incr
  incr_loses_bytes key ttl now c v e g live bad some_bytes w =
      let less : size c.entries ≡ c.bytes - length e.value =
        subst (λ s. size s.entries ≡ s.bytes) after w.counted in
      omega (arith, less, v.counted, size-pop c.entries key v.dict, ap size_of g)
    where
      after : (incr int_of text_of key ttl now c).1 ≡ record c { bytes = c.bytes - length e.value }
      after = rw (g, incr_entry, live, bad) refl

  -- An `incr` of an unknown key never evicts: in a full cache it passes the bound on entries.
  incr_over_bound :
      (key : String) (ttl : Option ℕ) (now : ℕ) (c : InMemoryCache)
      → Dict.get c.entries key ≡ none
      → length c.entries ≡ c.max_entries
      → length (incr int_of text_of key ttl now c).1.entries ≡ c.max_entries + 1
  unfolding incr store_count
  incr_over_bound key ttl now c a full =
      rw (a, incr_entry) (length-put_last c.entries key _ a ∙ ap (λ n. n + 1) full)

  -- Unless it raises, `incr` keeps the count of bytes right. When it raises, the entries stay as they
  -- were and the count loses the bytes of the payload: a live payload of some bytes that is no number
  -- leaves a wrong count. An unknown key is stored without an eviction: in a full cache it passes the
  -- bound on entries.
  pub incr_lem :
      (key : String) (ttl : Option ℕ) (now : ℕ) (c : InMemoryCache)
      → IsCounted c
      → (((n : ℕ) × ((incr int_of text_of key ttl now c).0 ≡ some n)
            × IsCounted (incr int_of text_of key ttl now c).1)
          ⊎ (((incr int_of text_of key ttl now c).0 ≡ none)
              × ((incr int_of text_of key ttl now c).1.entries ≡ c.entries)
              × ((incr int_of text_of key ttl now c).1.bytes + size_of (Dict.get c.entries key)
                  ≡ size c.entries)))
        × ((e : Entry)
            → Dict.get c.entries key ≡ some e
            → expired now e ≡ false
            → int_of e.value ≡ none
            → 1 ≤ length e.value
            → IsCounted (incr int_of text_of key ttl now c).1
            → ⊥)
        × (Dict.get c.entries key ≡ none
            → length c.entries ≡ c.max_entries
            → length (incr int_of text_of key ttl now c).1.entries ≡ c.max_entries + 1)
  incr_lem key ttl now c v =
      (incr_count key ttl now c v, incr_loses_bytes key ttl now c v, incr_over_bound key ttl now c)
