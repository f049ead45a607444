-- ===== src/Cache/Layered.antt =====
-- src/fin_data_platform/cache/layered.py, `LayeredCache`: the generation of a domain, which its keys
-- carry, kept in a cache of the process (L1) and one that processes share (L2). A backend is an
-- argument: what `generation_of`, `bump_generation_of` and `set_generation_of` of keys.py return on it,
-- `none` where the backend raises; Cache/Backends has those of the two caches. The counters of errors,
-- and what a read changes in a backend (its statistics and its order of use), are left out.
use Prim.Native.Nat.{max}
use fin_data_hub.Prelude.{
  ℕ, ◌+◌, ◌<◌, String, ◌≡◌, refl, ap, ◌∙◌, subst, Option, none, some, arith, ltb, ltb→lt,
  if◌then◌else◌, Bool-cases, inl, inr,
}

pub record CacheBackend : Type 1 where
  pub State : Type 0
  pub generation_of : String → State → Option ℕ
  pub bump_generation_of : String → State → Option (ℕ × State)
  pub set_generation_of : String → ℕ → State → Option State

-- A counter that stands at `g` is counted up to `n`, and reads then as it was written.
pub record Counts (b : CacheBackend) (domain : String) (s s' : b.State) (g n : ℕ) : Type 0 where
  pub read : b.generation_of domain s ≡ some g
  pub pushed : b.bump_generation_of domain s ≡ some (n, s')
  pub counted : n ≡ g + 1
  pub bumped : b.generation_of domain s' ≡ some n

abbrev or_zero : Option ℕ → ℕ
or_zero none = 0
or_zero (some n) = n

-- what a write leaves where it may have raised
abbrev or_same {ℓ} : {A : Type ℓ} → Option A → A → A
or_same none a = a
or_same (some b) a = b

module _ (l1 l2 : CacheBackend) where
  pub record LayeredCache : Type 0 where
    pub local : l1.State
    pub shared : Option l2.State

  abbrev shared_generation : String → Option l2.State → Option ℕ
  shared_generation domain none = none
  shared_generation domain (some s) = l2.generation_of domain s

  -- the greatest of the values that were read, 0 if none was
  unfoldable pub generation : String → LayeredCache → ℕ
  generation domain c =
      max (or_zero (l1.generation_of domain c.local)) (or_zero (shared_generation domain c.shared))

  -- `bump_generation` once both counters were pushed
  unfoldable pub level_generations : String → ℕ → l1.State → ℕ → l2.State → ℕ × LayeredCache
  level_generations domain local s1 remote s2 =
      if ltb remote local
      then (
        local,
        record { local = s1; shared = some (or_same (l2.set_generation_of domain local s2) s2) },
      )
      else if ltb local remote
      then (
        max local remote,
        record { local = or_same (l1.set_generation_of domain remote s1) s1; shared = some s2 },
      )
      else (max local remote, record { local = s1; shared = some s2 })

  unfoldable pub bump_shared : String → ℕ → l1.State → Option l2.State → ℕ × LayeredCache
  unfolding level_generations
  bump_shared domain local s1 none = (local, record { local = s1; shared = none })
  bump_shared domain local s1 (some s2) = elim (l2.bump_generation_of domain s2) [
    | none ↦ (local, record { local = s1; shared = some s2 })
    | some (remote, s2') ↦ level_generations domain local s1 remote s2'
  ]

  -- `none` where L1 raises
  unfoldable pub bump_generation : String → LayeredCache → Option (ℕ × LayeredCache)
  unfolding bump_shared
  bump_generation domain c = elim (l1.bump_generation_of domain c.local) [
    | none ↦ none
    | some (local, s1) ↦ some (bump_shared domain local s1 c.shared)
  ]

  -- What is written reads back, and the write succeeds.
  abbrev pub WritesLocal : String → ℕ → l1.State → Type 0
  WritesLocal domain n s =
      (s' : l1.State) × (l1.set_generation_of domain n s ≡ some s')
      × (l1.generation_of domain s' ≡ some n)

  abbrev pub WritesShared : String → ℕ → l2.State → Type 0
  WritesShared domain n t =
      (t' : l2.State) × (l2.set_generation_of domain n t ≡ some t')
      × (l2.generation_of domain t' ≡ some n)

  level_generations_lem :
      (domain : String) (n1 n2 : ℕ) (s : l1.State) (t : l2.State)
      → l1.generation_of domain s ≡ some n1
      → l2.generation_of domain t ≡ some n2
      → (n1 < n2 → WritesLocal domain n2 s)
      → (n2 < n1 → WritesShared domain n1 t)
      → ((level_generations domain n1 s n2 t).0 ≡ max n1 n2)
        × (generation domain (level_generations domain n1 s n2 t).1 ≡ max n1 n2)
  unfolding level_generations generation
  level_generations_lem domain n1 n2 s t g h local shared = elim (Bool-cases (ltb n2 n1)) [
    | inl behind ↦
        let less = ltb→lt n2 n1 behind in
        let (t', w, back) = shared less in
        rw behind (rw w (omega (arith, less), rw (g, back) (omega (arith, less))))
    | inr level ↦ elim (Bool-cases (ltb n1 n2)) [
      | inl ahead ↦
          let less = ltb→lt n1 n2 ahead in
          let (s', w, back) = local less in
          rw level (rw ahead (rw w (refl, rw (h, back) (omega (arith, less)))))
      | inr same ↦ rw level (rw same (refl, rw (g, h) refl))
    ]
  ]

  module _ (domain : String) (s s1 : l1.State) (t : l2.State) (g1 g2 n1 : ℕ)
      (local : Counts l1 domain s s1 g1 n1) where
    pub bump_generation-both :
        (n2 : ℕ) (t1 : l2.State)
        → Counts l2 domain t t1 g2 n2
        → WritesLocal domain (max g1 g2 + 1) s1
        → WritesShared domain (max g1 g2 + 1) t1
        → (c : LayeredCache) × (bump_generation domain (record { local = s; shared = some t })
            ≡ some (max g1 g2 + 1, c))
          × (generation domain c ≡ max g1 g2 + 1)
    unfolding bump_generation
    bump_generation-both n2 t1 remote write1 write2 =
        let e1 = local.counted in
        let e2 = remote.counted in
        let m : max n1 n2 ≡ max g1 g2 + 1 = omega arith in
        let (p, q) =
          level_generations_lem domain n1 n2 s1 t1 local.bumped remote.bumped
            (λ less.
              let top : max g1 g2 + 1 ≡ n2 = omega arith in
              subst (λ n. WritesLocal domain n s1) top write1)
            (λ less.
              let top : max g1 g2 + 1 ≡ n1 = omega arith in
              subst (λ n. WritesShared domain n t1) top write2) in
        (
          (level_generations domain n1 s1 n2 t1).1,
          rw (local.pushed, bump_generation)
              (rw (remote.pushed, bump_shared)
                (ap (λ k. some (k, (level_generations domain n1 s1 n2 t1).1)) (p ∙ m))),
          q ∙ m,
        )

    pub bump_generation-down :
        l2.generation_of domain t ≡ some g2
        → l2.bump_generation_of domain t ≡ none
        → (bump_generation domain (record { local = s; shared = some t })
            ≡ some (g1 + 1, record { local = s1; shared = some t }))
          × (generation domain (record { local = s1; shared = some t }) ≡ max (g1 + 1) g2)
          × (g1 < g2
              → generation domain (record { local = s1; shared = some t })
                ≡ generation domain (record { local = s; shared = some t }))
    unfolding bump_generation generation
    bump_generation-down read2 down =
        let e1 = local.counted in
        (
          rw (local.pushed, bump_generation) (rw (down, bump_shared) (rw e1 refl)),
          rw (local.bumped, read2) (omega arith),
          λ behind. rw (local.bumped, read2, local.read) (omega arith),
        )
