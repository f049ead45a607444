-- ===== src/Runtime/Sql/Inserts.antt =====
-- A loop of INSERT statements, as in `sync_defs` and `sync_dependencies` of `SqlMetaRepository`
-- (runtime/repository.py): what the table holds then, and when a primary key stops it.
use fin_data_hub.Prelude.{
  ◌≡◌, refl, subst, ap, ◌⊎◌, inl, inr, ◌↔◌, Bool, true, false, List, [], ◌∷◌, arith, In, any,
  any_witness, any-true, any-false, Bool-cases,
}
use fin_data_hub.Runtime.Result.{ok, raise, integrity_error}
use fin_data_hub.Runtime.Sql.Table.{Table, SameRows, insert_all}

module _ {R : Type 0} (same : R → R → Bool) where
  -- No two rows of a list have one key.
  abbrev pub IsApart : List R → Type 0
  IsApart [] = Unit
  IsApart (a ∷ items) = ((b : R) → In b items → same b a ≡ false) × IsApart items

module _ {R : Type 0} {same : R → R → Bool} (t : Table R same) where
  -- the keys of the items are not in the table
  abbrev IsFree : List R → t.State → Type 0
  IsFree items s = (b : R) → In b items → any (same b) (t.rows s) ≡ false

  IsFree-after :
      (a : R) (items : List R) (s s' : t.State)
      → ((b : R) → In b items → same b a ≡ false)
      → IsFree items s
      → SameRows (t.rows s') (a ∷ t.rows s)
      → IsFree items s'
  IsFree-after a items s s' apart free rows b m = elim (Bool-cases (any (same b) (t.rows s'))) [
    | inr fresh ↦ fresh
    | inl taken ↦
        let (x, n, hit) = any_witness (same b) (t.rows s') taken in
        absurd (elim (rows.forth x n) [
          | inl e ↦ let miss = apart b m in ground (arith, ap (same b) e)
          | inr k ↦
              let clash = any-true (same b) x (t.rows s) k hit in
              let miss = free b m in ground arith
        ])
  ]

  insert_all_apart :
      (items : List R) (s : t.State)
      → IsFree items s
      → IsApart same items
      → (s' : t.State) × (insert_all t items s ≡ ok s')
        × ((x : R) → In x (t.rows s') ↔ (In x items ⊎ In x (t.rows s)))
  unfolding insert_all
  insert_all_apart [] s free apart =
      (s, refl, λ x. (inr, λ h. elim h [ inl m ↦ absurd m | inr m ↦ m ]))
  insert_all_apart (a ∷ items) s free (first, apart) =
      let (s1, done, rows) = t.insert_fresh a s (free a (inl refl)) in
      let (s', rest, all_rows) =
        insert_all_apart items s1 (IsFree-after a items s s1 first (λ b m. free b (inr m)) rows)
          apart in
      (
        s',
        rw done rest,
        λ x. (
          λ m. elim ((all_rows x).0 m) [
            | inl n ↦ inl (inr n)
            | inr n ↦ elim (rows.forth x n) [ inl e ↦ inl (inl e) | inr k ↦ inr k ]
          ],
          λ h. (all_rows x).1 (elim h [
            | inl (inl e) ↦ inr (rows.back x (inl e))
            | inl (inr n) ↦ inl n
            | inr k ↦ inr (rows.back x (inr k))
          ]),
        ),
      )

  -- a key that the table has
  insert_all_taken :
      (items : List R) (s : t.State) (b : R)
      → In b items
      → any (same b) (t.rows s) ≡ true
      → insert_all t items s ≡ raise integrity_error
  unfolding insert_all
  insert_all_taken [] s b m taken = absurd m
  insert_all_taken (a ∷ items) s b m taken = elim (Bool-cases (any (same a) (t.rows s))) [
    | inl hit ↦ rw (t.insert_taken a s hit) refl
    | inr fresh ↦
        let (s1, done, rows) = t.insert_fresh a s fresh in
        elim m [
          | inl e ↦ absurd (ground (arith, ap (λ x. any (same x) (t.rows s)) e))
          | inr n ↦
              let (x, k, hit) = any_witness (same b) (t.rows s) taken in
              rw done (
                insert_all_taken items s1 b n
                  (any-true (same b) x (t.rows s1) (rows.back x (inr k)) hit))
        ]
  ]

  insert_all_clash :
      (items : List R) (s : t.State)
      → (IsApart same items → ⊥)
      → insert_all t items s ≡ raise integrity_error
  unfolding insert_all
  insert_all_clash [] s clash = absurd (clash tt)
  insert_all_clash (a ∷ items) s clash = elim (Bool-cases (any (same a) (t.rows s))) [
    | inl hit ↦ rw (t.insert_taken a s hit) refl
    | inr fresh ↦
        let (s1, done, rows) = t.insert_fresh a s fresh in
        rw done (elim (Bool-cases (any (λ b. same b a) items)) [
          | inl again ↦
              let (b, m, hit) = any_witness (λ b. same b a) items again in
              insert_all_taken items s1 b m
                (any-true (same b) a (t.rows s1) (rows.back a (inl refl)) hit)
          | inr apart ↦
              insert_all_clash items s1
                (λ h. clash (λ b m. any-false (λ x. same x a) b items apart m, h))
        ])
  ]

  -- A table that is deleted and filled again holds the items, if no two of them have one key, and else
  -- an INSERT is refused.
  pub refill_lem :
      (items : List R) (s : t.State)
      → (IsApart same items
          → (s' : t.State) × (insert_all t items (t.delete_all s) ≡ ok s')
            × ((x : R) → In x (t.rows s') ↔ In x items))
        × ((IsApart same items → ⊥) → insert_all t items (t.delete_all s) ≡ raise integrity_error)
  unfolding any
  refill_lem items s =
      let empty = t.rows-delete_all s in
      (
        λ apart.
            let (s', done, rows) =
              insert_all_apart items (t.delete_all s) (λ b m. rw empty refl) apart in
            (
              s',
              done,
              λ x. (
                λ m. elim ((rows x).0 m) [ inl n ↦ n | inr n ↦ absurd (subst (In x) empty n) ],
                λ n. (rows x).1 (inl n),
              ),
            ),
        insert_all_clash items (t.delete_all s),
      )
