-- ===== src/Registry/PointInTime.antt =====
-- `universe` of registry/universe.py: which row of the life cycle decides, and that no row of the life
-- cycle that became known after the limit plays a part. The names and attributes come from the
-- registry as it is, for `entity(id, as_of)` takes no limit of knowledge.
use fin_data_hub.Prelude.{
  ℕ, ◌≤◌, ◌↔◌, Option-cases, String, ◌≡◌, refl, sym, ap, ◌∙◌, inl, inr, Bool, true, ◌&&◌, List, [],
  ◌∷◌, Option, none, some, arith, ◌==◌, nat_eq, if◌then◌else◌, filter, Bool-cases, eqb_iff,
}
use fin_data_hub.Prelude.Dict
use fin_data_hub.Prelude.Dict.{Dict, get-put}
use fin_data_hub.Prelude.Max.{max?, max_from}
use fin_data_hub.Prelude.Sort.{sorted}
use fin_data_hub.Registry.Models.{LifecycleRecord}
use fin_data_hub.Registry.Repository.{RegistryRepo}
use fin_data_hub.Registry.Universe.{
  is_known, is_live_at, rank_below, outranks, rank_row, rank_rows, by_id, members, universe,
  known_at,
}

-- the greatest of the best row so far and more rows
best_of : Option LifecycleRecord → List LifecycleRecord → Option LifecycleRecord
best_of none rows = max? rank_below rows
best_of (some best) rows = some (max_from rank_below best rows)

module _ (limit : Option ℕ) (target id : ℕ) where
  -- a row of the entity that is known and covers the date
  counts : LifecycleRecord → Bool
  counts row = row.entity_id == id && (is_known limit row && is_live_at target row)

  get-rank_row :
      (row : LifecycleRecord) (ranked : Dict ℕ LifecycleRecord)
      → Dict.get (rank_row limit target row ranked) id
        ≡ (if counts row && outranks row (Dict.get ranked id) then some row else Dict.get ranked id)
  unfolding rank_row counts
  get-rank_row row ranked = elim (Bool-cases (row.entity_id == id)) [
    | inl same ↦
        let e = (eqb_iff row.entity_id id).0 same in
        ground (arith, same, get-put ranked row.entity_id id row, ap (Dict.get ranked) e)
    | inr other ↦ ground (arith, other, get-put ranked row.entity_id id row)
  ]

  best_step :
      (o : Option LifecycleRecord) (row : LifecycleRecord) (rows : List LifecycleRecord)
      → best_of (if outranks row o then some row else o) rows ≡ best_of o (row ∷ rows)
  unfolding best_of max? max_from
  best_step none row rows = refl
  best_step (some best) row rows = ground arith

  get-rank_rows :
      (rows : List LifecycleRecord) (ranked : Dict ℕ LifecycleRecord)
      → Dict.get (rank_rows limit target rows ranked) id
        ≡ best_of (Dict.get ranked id) (filter counts rows)
  unfolding rank_rows filter
  get-rank_rows [] ranked = unit (Dict.get ranked id)
    where
      unit : (o : Option LifecycleRecord) → o ≡ best_of o []
      unit none = unfold best_of max? in refl
      unit (some best) = unfold best_of max_from in refl
  get-rank_rows (row ∷ rows) ranked = elim (Bool-cases (counts row)) [
    | inl hit ↦
        get-rank_rows rows (rank_row limit target row ranked)
        ∙ ap (λ o. best_of o (filter counts rows)) (get-rank_row row ranked)
        ∙ rw hit (best_step (Dict.get ranked id) row (filter counts rows))
    | inr miss ↦
        get-rank_rows rows (rank_row limit target row ranked)
        ∙ ap (λ o. best_of o (filter counts rows)) (get-rank_row row ranked)
        ∙ rw miss
  ]

rank_rows_lem :
    (limit : Option ℕ) (target id : ℕ) (rows : List LifecycleRecord)
    → Dict.get (rank_rows limit target rows []) id
      ≡ max? rank_below (
          filter (λ row. row.entity_id == id && (is_known limit row && is_live_at target row)) rows)
unfolding Dict.get best_of counts
rank_rows_lem limit target id rows = get-rank_rows limit target id rows []

known_without_limit : (known : Option ℕ) → known_at none known ≡ true
known_without_limit none = refl
known_without_limit (some t) = refl

rank_row_known :
    (target : ℕ) (row : LifecycleRecord) (ranked : Dict ℕ LifecycleRecord)
    → rank_row none target row ranked ≡ (
        if is_live_at target row && outranks row (Dict.get ranked row.entity_id)
        then Dict.put ranked row.entity_id row
        else ranked)
unfolding rank_row is_known
rank_row_known target row ranked = rw (known_without_limit row.knowledge_time)

rank_rows_known :
    (limit target : ℕ) (rows : List LifecycleRecord) (ranked : Dict ℕ LifecycleRecord)
    → rank_rows (some limit) target rows ranked
      ≡ rank_rows none target (filter (is_known (some limit)) rows) ranked
unfolding rank_rows filter
rank_rows_known limit target [] ranked = refl
rank_rows_known limit target (row ∷ rows) ranked = elim (Bool-cases (is_known (some limit) row)) [
  | inl known ↦ rw known (
      rank_rows_known limit target rows _
      ∙ ap (rank_rows none target (filter (is_known (some limit)) rows))
          (sym (rank_row_known target row ranked)))
  | inr unknown ↦ rw unknown (rank_rows_known limit target rows ranked)
]

universe_limit :
    (r : RegistryRepo) (lifecycle : List LifecycleRecord) (as_of : Option ℕ) (limit : ℕ)
    (entity_type market : Option String)
    → universe r lifecycle as_of (some limit) entity_type market
      ≡ universe r (filter (is_known (some limit)) lifecycle) as_of none entity_type market
unfolding universe
universe_limit r lifecycle none limit entity_type market = refl
universe_limit r lifecycle (some target) limit entity_type market =
    ap (λ d. members entity_type market target r (sorted by_id d))
      (rank_rows_known limit target lifecycle [])

is_known_iff :
    (limit : ℕ) (row : LifecycleRecord)
    → (is_known (some limit) row ≡ true)
      ↔ ((known : ℕ) → row.knowledge_time ≡ some known → known ≤ limit)
unfolding is_known
is_known_iff limit row = elim (Option-cases row.knowledge_time) [
  | inl e ↦ (λ h known k. absurd (ground arith), λ h. rw e refl)
  | inr (t, e) ↦
      (λ h known k. ground (arith, e, k), λ h. let before = h t e in rw e (ground (arith, before)))
]

-- For a fixed registry, the universe at a limit of knowledge is that of the life-cycle rows that count
-- as known by the limit: those whose time of knowledge is not after it, and those that have none. So
-- a life-cycle row that became known later, a correction of the past included, cannot change it. The
-- row that decides for an entity is the max, by start, version and time of knowledge, of its rows
-- that count as known by the limit and cover the date.
pub universe_known :
    (r : RegistryRepo) (lifecycle : List LifecycleRecord) (as_of : Option ℕ) (limit : ℕ)
    (entity_type market : Option String)
    → (universe r lifecycle as_of (some limit) entity_type market
        ≡ universe r (filter (is_known (some limit)) lifecycle) as_of none entity_type market)
      × ((target id : ℕ)
          → Dict.get (rank_rows (some limit) target lifecycle []) id
            ≡ max? rank_below (
                filter
                  (λ row.
                    row.entity_id == id && (is_known (some limit) row && is_live_at target row))
                  lifecycle))
      × ((row : LifecycleRecord)
          → (is_known (some limit) row ≡ true)
            ↔ ((known : ℕ) → row.knowledge_time ≡ some known → known ≤ limit))
universe_known r lifecycle as_of limit entity_type market = (
  universe_limit r lifecycle as_of limit entity_type market,
  λ target id. rank_rows_lem (some limit) target id lifecycle,
  is_known_iff limit,
)
