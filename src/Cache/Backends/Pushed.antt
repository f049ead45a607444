-- ===== src/Cache/Backends/Pushed.antt =====
-- `incr` of `InMemoryCache` (cache/backend.py) on a counter: it counts up by one what is read, and what
-- it has written reads back at the same time.
use fin_data_hub.Prelude.{
  ℕ, ◌+◌, ◌-◌, String, ◌≡◌, refl, subst, ◌∙◌, inl, inr, false, ◌&&◌, List, [], ◌∷◌, Option, none,
  some, arith, ◌==◌, nat_eq, string_eq, length, ==-refl, Bool-cases,
}
use fin_data_hub.Prelude.Dict
use fin_data_hub.Prelude.Dict.{get-pop, get-append_absent}
use fin_data_hub.Cache.Memory.{
  Entry, InMemoryCache, expired, put_last, get, get_entry, incr_entry, count_on, store_count,
}
use fin_data_hub.Cache.Backends.{number_in, number}

get-put_last :
    (key : String) (now : ℕ) (e : Entry) (c : InMemoryCache)
    → Dict.get c.entries key ≡ some e
    → expired now e ≡ false
    → (get key now c).0 ≡ some e.value
unfolding get
get-put_last key now e c g live = rw g (unfold get_entry in rw live refl)

last_found :
    (c : InMemoryCache) (key : String) (e : Entry)
    → Dict.get (put_last c.entries key e) key ≡ some e
unfolding put_last Dict.get
last_found c key e =
    get-append_absent (Dict.pop c.entries key) ((key, e) ∷ []) key
      (ground (arith, get-pop c.entries key key, ==-refl key))
    ∙ rw (==-refl key) refl

module _ (int_of : List ℕ → Option ℕ) (text_of : ℕ → List ℕ) (key : String) (now : ℕ) where
  -- `incr` has counted from `g` to `n`.
  pub record IsPushed (entries bytes : ℕ) (c' : InMemoryCache) (g n : ℕ) : Type 0 where
    pub counted : n ≡ g + 1
    pub stored : (get key now c').0 ≡ some (text_of n)
    pub same_entries : c'.max_entries ≡ entries
    pub same_bytes : c'.max_bytes ≡ bytes

  store_count-IsPushed :
      (expires : Option ℕ) (g : ℕ) (c : InMemoryCache)
      → ((value : List ℕ) → expired now (record { expires_at = expires; value = value }) ≡ false)
      → IsPushed c.max_entries c.max_bytes
          (store_count int_of text_of key none now expires g c).1
          g
          (g + 1)
  unfolding store_count
  store_count-IsPushed expires g c live =
      let e : Entry = record { expires_at = expires; value = text_of (g + 1) } in
      let off : (g == 0 && false) ≡ false = ground arith in
      rw off (record {
        counted = refl;
        stored =
            get-put_last key now e
              (record c {
                entries = put_last c.entries key e;
                bytes = c.bytes + length (text_of (g + 1));
              })
              (last_found c key e) (live (text_of (g + 1)));
        same_entries = refl;
        same_bytes = refl;
      })

  renamed_IsPushed :
      (entries bytes g n : ℕ) (c : InMemoryCache)
      → IsPushed entries bytes c g (g + 1)
      → some (g + 1) ≡ some n
      → IsPushed entries bytes c g n
  renamed_IsPushed entries bytes g n c h e =
      let p : g + 1 ≡ n = ground arith in subst (λ m. IsPushed entries bytes c g m) p h

  count_on-IsPushed :
      (expires : Option ℕ) (o : Option ℕ) (n : ℕ) (c : InMemoryCache)
      → ((value : List ℕ) → expired now (record { expires_at = expires; value = value }) ≡ false)
      → (count_on int_of text_of key none now expires o c).0 ≡ some n
      → IsPushed c.max_entries c.max_bytes
          (count_on int_of text_of key none now expires o c).1
          (number_in int_of text_of o)
          n
  unfolding count_on store_count
  count_on-IsPushed expires none n c live h = absurd (ground arith)
  count_on-IsPushed expires (some g) n c live h =
      renamed_IsPushed c.max_entries c.max_bytes g n _ (store_count-IsPushed expires g c live) h

  pub incr_entry-IsPushed :
      (o : Option Entry) (n : ℕ) (c : InMemoryCache)
      → (incr_entry int_of text_of key none now o c).0 ≡ some n
      → IsPushed c.max_entries c.max_bytes
          (incr_entry int_of text_of key none now o c).1
          (number int_of text_of (get_entry key now o c).0)
          n
  unfolding incr_entry get_entry store_count expired
  incr_entry-IsPushed none n c h =
      renamed_IsPushed c.max_entries c.max_bytes 0 n _
        (store_count-IsPushed none 0 c (λ value. refl)) h
  incr_entry-IsPushed (some e) n c h =
      let less = record c { bytes = c.bytes - length e.value } in
      elim (Bool-cases (expired now e)) [
        | inl old ↦
            let h' = rw old at h in
            rw old (
              renamed_IsPushed c.max_entries c.max_bytes 0 n _
                (store_count-IsPushed none 0 (record less { entries = Dict.pop c.entries key })
                  (λ value. refl))
                h')
        | inr live ↦
            let h' = rw live at h in
            rw live (count_on-IsPushed e.expires_at (int_of e.value) n less (λ value. live) h')
      ]
