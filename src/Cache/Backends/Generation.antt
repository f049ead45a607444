-- ===== src/Cache/Backends/Generation.antt =====
-- `bump_generation` of `LayeredCache` (cache/layered.py) over an `InMemoryCache` and Redis.
use Prim.Native.Nat.{max}
use fin_data_hub.Prelude.{
  ℕ, ◌+◌, ◌≤◌, ◌<◌, String, ◌≡◌, refl, ap, subst, sym, ◌∙◌, inl, inr, List, Option, none, some,
  arith, nat_eq, string_eq, length, Option-cases,
}
use fin_data_hub.Prelude.Dict
use fin_data_hub.Prelude.Dict.{get-pop, get-append_absent}
use fin_data_hub.Cache.Memory.{InMemoryCache, expired, get, get_entry, incr}
use fin_data_hub.Cache.Memory.Account.{IsCounted, set_lem}
use fin_data_hub.Cache.Memory.Incr.{incr_lem}
use fin_data_hub.Cache.Layered.{
  CacheBackend, LayeredCache, Counts, WritesLocal, generation, bump_generation,
  bump_generation-both, bump_generation-down,
}
use fin_data_hub.Cache.Backends.{
  generation_key, number, pushed, memory_backend, RedisClient, number_read, redis_backend,
}
use fin_data_hub.Cache.Backends.Pushed.{IsPushed, incr_entry-IsPushed}

-- `incr` returned
pushed_lem :
    (int_of : List ℕ → Option ℕ) (text_of : ℕ → List ℕ) (out : Option ℕ × InMemoryCache) (n : ℕ)
    (c : InMemoryCache)
    → pushed int_of text_of out ≡ some (n, c)
    → out ≡ (some n, c)
pushed_lem int_of text_of (none, d) n c h = absurd (ground arith)
pushed_lem int_of text_of (some m, d) n c h =
    ap (λ (o : Option (ℕ × InMemoryCache)). elim o [ none ↦ (none, c) | some x ↦ (some x.0, x.1) ])
      h

module _ (int_of : List ℕ → Option ℕ) (text_of : ℕ → List ℕ)
    (trip : (n : ℕ) → int_of (text_of n) ≡ some n) (now : ℕ) where
  abbrev pub l1 : CacheBackend
  l1 = memory_backend int_of text_of now

  abbrev pub l2 : RedisClient int_of text_of → CacheBackend
  l2 r = redis_backend int_of text_of r

  memory-IsPushed :
      (domain : String) (c c1 : InMemoryCache) (n : ℕ)
      → l1.bump_generation_of domain c ≡ some (n, c1)
      → (incr int_of text_of (generation_key domain) none now c ≡ (some n, c1))
        × IsPushed int_of text_of
            (generation_key domain)
            now
            c.max_entries
            c.max_bytes
            c1
            (number int_of text_of (get (generation_key domain) now c).0)
            n
  unfolding incr get
  memory-IsPushed domain c c1 n h =
      let key = generation_key domain in
      let e = pushed_lem int_of text_of _ n c1 h in
      (
        e,
        subst
            (λ d.
              IsPushed int_of text_of key now c.max_entries c.max_bytes d
                (number int_of text_of (get_entry key now (Dict.get c.entries key) c).0) n)
            (ap (λ out. out.1) e)
            (incr_entry-IsPushed int_of text_of key now (Dict.get c.entries key) n c
              (ap (λ out. out.0) e)),
      )

  memory-Counts :
      (domain : String) (c c1 : InMemoryCache) (g n : ℕ)
      → l1.generation_of domain c ≡ some g
      → l1.bump_generation_of domain c ≡ some (n, c1)
      → Counts l1 domain c c1 g n
  memory-Counts domain c c1 g n read h =
      let (_, p) = memory-IsPushed domain c c1 n h in
      let counted = p.counted in
      record {
        read = read;
        pushed = h;
        counted = ground (arith, counted, read);
        bumped = rw (p.stored) (rw (trip n) refl);
      }

  memory_writes :
      (domain : String) (c c1 : InMemoryCache) (n v : ℕ)
      → IsCounted c
      → 1 ≤ c.max_entries
      → length (text_of v) ≤ c.max_bytes
      → l1.bump_generation_of domain c ≡ some (n, c1)
      → WritesLocal l1 l1 domain v c1
  memory_writes domain c c1 n v sound room fits h =
      let key = generation_key domain in
      let (e, p) = memory-IsPushed domain c c1 n h in
      let sound1 : IsCounted c1 = elim (incr_lem int_of text_of key none now c sound).0 [
        | inl (m, _, w) ↦ subst IsCounted (ap (λ out. out.1) e) w
        | inr (bad, _, _) ↦ absurd (ground (arith, bad, ap (λ out. out.0) e))
      ] in
      let found =
        (set_lem key (text_of v) none now c1 sound1).4 (rw p.same_entries room)
          (rw p.same_bytes fits) now in
      (_, refl, rw found (unfold expired in rw (trip v) refl))

  redis-Counts :
      (r : RedisClient int_of text_of) (domain : String) (t t1 : r.State) (g n : ℕ)
      → (l2 r).generation_of domain t ≡ some g
      → r.incr (generation_key domain) t ≡ some (n, t1)
      → Counts (l2 r) domain t t1 g n
  redis-Counts r domain t t1 g n read h =
      let key = generation_key domain in
      record {
        read = read;
        pushed = h;
        counted = elim (Option-cases (r.read key t)) [
          | inl down ↦ absurd (ground (arith, down, read))
          | inr (raw, up) ↦
              let counts = r.incr_counts key t t1 n raw up h in
              let same : some (number int_of text_of raw) ≡ some g =
                ap (number_read int_of text_of) (sym up) ∙ read in
              ground (arith, counts, same)
        ];
        bumped = rw (r.incr_writes key t t1 n h) (rw (trip n) refl);
      }

  -- L1 is an `InMemoryCache` that counts its bytes right, has room for an entry and for the text of the
  -- number that is returned, and whose counter can be counted up; L2 is Redis. Where L2 counts up and
  -- takes a write of the number, `bump_generation` returns one more than the greater of the two
  -- counters, and that is the generation that is read after it, at the same time. Where L2 raises, it
  -- returns one more than the counter of L1, and a read of L2 as it was gives the greater of that and
  -- the counter of L2 as the generation: it has not moved if the counter of L1 was behind. A number is
  -- read back from its text.
  pub bump_generation_lem :
      (r : RedisClient int_of text_of) (domain : String) (c c1 : InMemoryCache) (t : r.State)
      (g1 g2 n1 : ℕ)
      → IsCounted c
      → 1 ≤ c.max_entries
      → length (text_of (max g1 g2 + 1)) ≤ c.max_bytes
      → l1.generation_of domain c ≡ some g1
      → (l2 r).generation_of domain t ≡ some g2
      → l1.bump_generation_of domain c ≡ some (n1, c1)
      → ((n2 : ℕ) (t1 t2 : r.State)
          → (l2 r).bump_generation_of domain t ≡ some (n2, t1)
          → (l2 r).set_generation_of domain (max g1 g2 + 1) t1 ≡ some t2
          → (cache : LayeredCache l1 (l2 r)) × (bump_generation l1
                (l2 r)
                domain
                (record { local = c; shared = some t })
              ≡ some (max g1 g2 + 1, cache))
            × (generation l1 (l2 r) domain cache ≡ max g1 g2 + 1))
        × ((l2 r).bump_generation_of domain t ≡ none
            → (bump_generation l1 (l2 r) domain (record { local = c; shared = some t })
                ≡ some (g1 + 1, record { local = c1; shared = some t }))
              × (generation l1 (l2 r) domain (record { local = c1; shared = some t })
                  ≡ max (g1 + 1) g2)
              × (g1 < g2
                  → generation l1 (l2 r) domain (record { local = c1; shared = some t })
                    ≡ generation l1 (l2 r) domain (record { local = c; shared = some t })))
  bump_generation_lem r domain c c1 t g1 g2 n1 sound room fits read1 read2 push =
      let local = memory-Counts domain c c1 g1 n1 read1 push in
      (
        λ n2 t1 t2 up wrote.
            let back =
              r.write_reads (generation_key domain) (text_of (max g1 g2 + 1)) t1 t2 wrote in
            bump_generation-both l1 (l2 r) domain c c1 t g1 g2 n1 local n2 t1
              (redis-Counts r domain t t1 g2 n2 read2 up)
              (memory_writes domain c c1 n1 (max g1 g2 + 1) sound room fits push)
              (t2, wrote, rw back (rw (trip (max g1 g2 + 1)) refl)),
        bump_generation-down l1 (l2 r) domain c c1 t g1 g2 n1 local read2,
      )
