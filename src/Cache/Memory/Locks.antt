-- ===== src/Cache/Memory/Locks.antt =====
-- The locks of `InMemoryCache` (cache/backend.py).
use fin_data_hub.Prelude.{
  ℕ, ◌+◌, ◌<◌, String, ◌≡◌, inl, inr, true, false, arith, ◌==◌, string_eq, Bool-cases, ==-refl,
  ==→≡,
}
use fin_data_hub.Prelude.Dict
use fin_data_hub.Prelude.Dict.{get-put}
use fin_data_hub.Cache.Memory.{InMemoryCache, is_held, acquire_lock, is_owner, release_lock}

module _ (key token other : String) (ttl ttl' now later : ℕ) (c : InMemoryCache) where
  taken_lock : InMemoryCache
  taken_lock = (acquire_lock key token ttl now c).1

  acquire_lock_again :
      (acquire_lock key token ttl now c).0 ≡ true
      → later < now + ttl
      → acquire_lock key other ttl' later taken_lock ≡ (false, taken_lock)
  unfolding taken_lock acquire_lock is_held
  acquire_lock_again taken before = elim (Bool-cases (is_held now (Dict.get c.locks key))) [
    | inl held ↦ absurd (ground arith)
    | inr free ↦ ground (arith, get-put c.locks key key (token, now + ttl), ==-refl key)
  ]

  release_lock_other :
      (acquire_lock key token ttl now c).0 ≡ true
      → ((token ≡ other) → ⊥)
      → release_lock key other taken_lock ≡ taken_lock
  unfolding taken_lock acquire_lock is_held release_lock is_owner
  release_lock_other taken differ = elim (Bool-cases (is_held now (Dict.get c.locks key))) [
    | inl held ↦ absurd (ground arith)
    | inr free ↦ elim (Bool-cases (token == other)) [
      | inl same ↦ absurd (differ (==→≡ token other same))
      | inr differs ↦ ground (arith, get-put c.locks key key (token, now + ttl), ==-refl key)
    ]
  ]

-- Once a lock is taken, each other call before it runs out gets nothing and changes nothing, whatever
-- token it brings; and a release by another token changes nothing.
pub acquire_lock_excludes :
    (key token other : String) (ttl ttl' now later : ℕ) (c : InMemoryCache)
    → (acquire_lock key token ttl now c).0 ≡ true
    → (later < now + ttl
        → acquire_lock key other ttl' later (acquire_lock key token ttl now c).1
          ≡ (false, (acquire_lock key token ttl now c).1))
      × (((token ≡ other) → ⊥)
          → release_lock key other (acquire_lock key token ttl now c).1
            ≡ (acquire_lock key token ttl now c).1)
unfolding taken_lock
acquire_lock_excludes key token other ttl ttl' now later c taken = (
  acquire_lock_again key token other ttl ttl' now later c taken,
  release_lock_other key token other ttl ttl' now later c taken,
)
