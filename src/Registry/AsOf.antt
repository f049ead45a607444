-- ===== src/Registry/AsOf.antt =====
-- `_covering_row` and `_next_version` of `EntityRegistry` (registry/service.py): which row answers for
-- a date, and that a new version is above all others.
use fin_data_hub.Prelude.{
  ℕ, ◌+◌, ◌≤◌, ◌<◌, ◌≡◌, refl, sym, ap, ◌∙◌, subst, inl, inr, ◌⊎◌, Bool, true, false, List, [], ◌∷◌,
  none, some, arith, nat_eq, ltb, filter, In, In-filter, In-of_filter, Bool-cases, Option-cases,
}
use fin_data_hub.Prelude.Max.{max?, IsRank, max?_lem, max?-none}
use fin_data_hub.Runtime.Result.{ok}
use fin_data_hub.Registry.Models.{EntityRecord, covers, is_open, start_of}
use fin_data_hub.Registry.Repository.{RegistryRepo, entity_rows}
use fin_data_hub.Registry.Rows.{
  ranks_below, pool_of, current_row, next_version, covering_row, or_raise,
}

pub ranks_below-IsRank : IsRank ranks_below
unfolding ranks_below
ranks_below-IsRank = record { asym = λ a b h. ground arith; chain = λ a b c h k. ground arith }

abbrev pub has_older : EntityRecord → EntityRecord → Bool
has_older a b = ltb a.version b.version

pub has_older-IsRank : IsRank has_older
has_older-IsRank = record { asym = λ a b h. ground arith; chain = λ a b c h k. ground arith }

nothing-In : {A : Type 0} (xs : List A) (x : A) → xs ≡ [] → In x xs → ⊥
nothing-In [] x e m = m
nothing-In (y ∷ ys) x e m = cc

-- The row that answers for a date covers it, and no other row that covers it starts later, or on the
-- same day with a higher version. There is none exactly when no row covers the date.
pub covering_row_lem :
    (id d : ℕ) (r : RegistryRepo)
    → ((row : EntityRecord)
        → covering_row id (some d) r ≡ some row
        → In row (entity_rows id r)
          × (covers row.valid_from row.valid_to (some d) ≡ true)
          × ((other : EntityRecord)
              → In other (entity_rows id r)
              → covers other.valid_from other.valid_to (some d) ≡ true
              → (start_of other.valid_from < start_of row.valid_from)
                ⊎ ((start_of other.valid_from ≡ start_of row.valid_from)
                    × (other.version ≤ row.version))))
      × (covering_row id (some d) r ≡ none
          → (row : EntityRecord) → In row (entity_rows id r)
          → covers row.valid_from row.valid_to (some d) ≡ false)
unfolding covering_row
covering_row_lem id d r = (
  λ row h.
      let (m, top) = max?_lem ranks_below ranks_below-IsRank in_force row h in
      let (n, c) = In-of_filter covering row (entity_rows id r) m in
      (
        n,
        c,
        λ other k live.
            highest row other (top other (In-filter covering other (entity_rows id r) k live)),
      ),
  λ h row m. elim (Bool-cases (covers row.valid_from row.valid_to (some d))) [
    | inr out ↦ out
    | inl live ↦ absurd (
        nothing-In in_force row (max?-none ranks_below in_force h)
          (In-filter covering row (entity_rows id r) m live))
  ],
)
  where
    covering : EntityRecord → Bool
    covering row = covers row.valid_from row.valid_to (some d)

    in_force : List EntityRecord
    in_force = filter covering (entity_rows id r)

    highest :
        (row other : EntityRecord)
        → ranks_below row other ≡ false
        → (start_of other.valid_from < start_of row.valid_from)
          ⊎ ((start_of other.valid_from ≡ start_of row.valid_from) × (other.version ≤ row.version))
    highest row other h = unfold ranks_below in ground arith

-- The current row is one of the rows of the entity.
pub In-current_row :
    (id : ℕ) (r : RegistryRepo) (row : EntityRecord)
    → current_row id r ≡ ok row
    → In row (entity_rows id r)
unfolding current_row
In-current_row id r row h = from (filter (λ a. is_open a.valid_to) (entity_rows id r)) refl
  where
    rows : List EntityRecord
    rows = entity_rows id r

    best : (pool : List EntityRecord) → or_raise (max? ranks_below pool) ≡ ok row → In row pool
    best pool e = elim (Option-cases (max? ranks_below pool)) [
      | inl q ↦ absurd (ground arith)
      | inr (a, q) ↦
          let same : a ≡ row = ground arith in
          subst (λ t. In t pool) same (max?_lem ranks_below ranks_below-IsRank pool a q).0
    ]

    from :
        (opened : List EntityRecord) → filter (λ a. is_open a.valid_to) rows ≡ opened → In row rows
    from [] e = best rows (ap (λ o. or_raise (max? ranks_below (pool_of o rows))) (sym e) ∙ h)
    from (a ∷ opened) e =
        (In-of_filter (λ b. is_open b.valid_to) row rows
          (subst (In row) (sym e) (
            best (a ∷ opened)
              (ap (λ o. or_raise (max? ranks_below (pool_of o rows))) (sym e) ∙ h)))).0

-- A new version is above every version of the entity.
pub next_version_lem :
    (id : ℕ) (r : RegistryRepo) (v : ℕ)
    → next_version id r ≡ ok v
    → ((row : EntityRecord) → In row (entity_rows id r) → row.version < v)
      × ((row : EntityRecord) × In row (entity_rows id r))
unfolding next_version
next_version_lem id r v h = elim (Option-cases (max? has_older (entity_rows id r))) [
  | inl e ↦ absurd (ground arith)
  | inr (top, e) ↦
      let (m, above) = max?_lem has_older has_older-IsRank (entity_rows id r) top e in
      (λ row n. ground (arith, above row n), (top, m))
]

-- An entity that has rows has a next version.
pub next_version_known :
    (id : ℕ) (r : RegistryRepo) (row : EntityRecord)
    → In row (entity_rows id r)
    → (v : ℕ) × (next_version id r ≡ ok v)
unfolding next_version
next_version_known id r row m = elim (Option-cases (max? has_older (entity_rows id r))) [
  | inl e ↦ absurd (nothing-In (entity_rows id r) row (max?-none has_older (entity_rows id r) e) m)
  | inr (top, e) ↦ (top.version + 1, ground (arith, e))
]
