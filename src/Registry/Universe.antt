-- ===== src/Registry/Universe.antt =====
-- src/fin_data_platform/registry/universe.py. Rows of the life cycle are what `_as_lifecycle` makes of
-- the data set, times what `to_datetime` does. `_MIN_DT` is time 0.
use fin_data_hub.Prelude.{
  ℕ, String, Bool, true, ◌&&◌, ◌||◌, not, List, [], ◌∷◌, Option, none, some, ◌==◌, nat_eq, ◌++◌,
  string_eq, option_eq, if◌then◌else◌, ltb, leb, any,
}
use fin_data_hub.Prelude.Dict
use fin_data_hub.Prelude.Dict.{Dict}
use fin_data_hub.Prelude.Sort.{sorted}
use fin_data_hub.Runtime.Result.{Result, ok, raise, value_error, ◌>>=◌}
use fin_data_hub.Registry.Models.{EntityRecord, LifecycleRecord, start_of, until}
use fin_data_hub.Registry.Repository.{RegistryRepo}
use fin_data_hub.Registry.Rows.{entity}
use fin_data_hub.Registry.Codes.{date_or_raise}

-- the values of `LifecycleStatus`
abbrev pub statuses : List String
statuses = "listed" ∷ "suspended" ∷ "delisted" ∷ []

abbrev pub in_universe : List String
in_universe = "listed" ∷ "suspended" ∷ []

abbrev pub known_at : Option ℕ → Option ℕ → Bool
known_at limit none = true
known_at none (some known) = true
known_at (some limit) (some known) = not (ltb limit known)

-- the two tests of the loop before the interval: knowledge, then the interval
unfoldable pub is_known : Option ℕ → LifecycleRecord → Bool
is_known limit row = known_at limit row.knowledge_time

unfoldable pub is_live_at : ℕ → LifecycleRecord → Bool
is_live_at target row = not (ltb target (start_of row.start_date)) && until target row.end_date

abbrev pub time_of : Option ℕ → ℕ
time_of none = 0
time_of (some t) = t

-- `rank` of `a` is below `rank` of `b`
unfoldable pub rank_below : LifecycleRecord → LifecycleRecord → Bool
rank_below a b =
    ltb (start_of a.start_date) (start_of b.start_date)
    || (start_of a.start_date == start_of b.start_date
        && (ltb a.version b.version
            || (a.version == b.version
                && ltb (time_of a.knowledge_time) (time_of b.knowledge_time))))

abbrev pub outranks : LifecycleRecord → Option LifecycleRecord → Bool
outranks row none = true
outranks row (some current) = rank_below current row

-- the body of the first loop
unfoldable pub rank_row :
    Option ℕ → ℕ → LifecycleRecord → Dict ℕ LifecycleRecord → Dict ℕ LifecycleRecord
unfolding is_known is_live_at rank_below
rank_row limit target row ranked =
    if is_known limit row && (is_live_at target row && outranks row (Dict.get ranked row.entity_id))
    then Dict.put ranked row.entity_id row
    else ranked

unfoldable pub rank_rows :
    Option ℕ → ℕ → List LifecycleRecord → Dict ℕ LifecycleRecord → Dict ℕ LifecycleRecord
unfolding rank_row
rank_rows limit target [] ranked = ranked
rank_rows limit target (row ∷ rows) ranked =
    rank_rows limit target rows (rank_row limit target row ranked)

abbrev pub by_id : ℕ × LifecycleRecord → ℕ × LifecycleRecord → Bool
by_id (a, _) (b, _) = leb a b

-- `_status`
unfoldable pub status_of_row : LifecycleRecord → Result String
status_of_row row = if any (λ s. s == row.status) statuses then ok row.status else raise value_error

-- a filter that is not given, or is empty, passes everything
abbrev pub passes_type : Option String → String → Bool
passes_type none actual = true
passes_type (some wanted) actual = wanted == "" || actual == wanted

abbrev pub passes_market : Option String → Option String → Bool
passes_market none actual = true
passes_market (some wanted) actual = wanted == "" || actual == some wanted

-- the registry's row, where the second loop takes it
unfoldable pub admitted : Option String → Option String → Option EntityRecord → List EntityRecord
admitted entity_type market none = []
admitted entity_type market (some row) =
    if passes_type entity_type row.entity_type && passes_market market row.market
    then row ∷ []
    else []

unfoldable pub members :
    Option String
    → Option String
    → ℕ
    → RegistryRepo
    → List (ℕ × LifecycleRecord)
    → Result (List EntityRecord)
unfolding status_of_row admitted
members entity_type market target r [] = ok []
members entity_type market target r ((id, row) ∷ entries) = do
  status ← status_of_row row
  rest ← members entity_type market target r entries
  if any (λ s. s == status) in_universe
      then ok (admitted entity_type market (entity id (some target) r) ++ rest)
      else ok rest

unfoldable pub universe :
    RegistryRepo
    → List LifecycleRecord
    → Option ℕ
    → Option ℕ
    → Option String
    → Option String
    → Result (List EntityRecord)
unfolding rank_rows members
universe r lifecycle as_of limit entity_type market = do
  target ← date_or_raise as_of
  members entity_type market target r (sorted by_id (rank_rows limit target lifecycle []))
