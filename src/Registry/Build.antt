-- ===== src/Registry/Build.antt =====
-- `build_from_hub` of `EntityRegistry` (registry/service.py). The hub is an argument: `none` is a kind
-- that it does not support, and a frame is the list of its rows, with the codes that `clean_code` and
-- the dates that `to_date` make. `upper` is Python's `str.upper`, and `now` what `now()` returns
-- throughout the build.
use Prim.Native.Char.{code as code_point}
use fin_data_hub.Prelude.{
  ℕ, ◌+◌, String, Bool, true, false, ◌&&◌, ◌||◌, List, [], ◌∷◌, Option, none, some, ◌==◌, nat_eq,
  string_eq, if◌then◌else◌, any,
}
use fin_data_hub.Runtime.Result.{Result, ok, ◌>>=◌}
use fin_data_hub.Registry.Repository.{RegistryRepo}
use fin_data_hub.Registry.Codes.{resolve}
use fin_data_hub.Registry.Register.{Registration, Registered, register_or_refresh}
use fin_data_hub.Registry.Names.{add_name_change}

pub record BuildStats : Type 0 where
  pub registered : ℕ
  pub updated : ℕ
  pub attributes : ℕ
  pub skipped : ℕ

-- `code.rsplit(".", 1)[-1]`, if there is a dot
unfoldable pub after_dot : String → Option String
after_dot String.[] = none
after_dot (String.◌∷◌ c s) = elim (after_dot s) [
  | some t ↦ some t
  | none ↦ if code_point c == 46 then some s else none
]

module _ (upper : String → String) where
  -- `_venue`
  unfoldable pub venue : String → String
  unfolding after_dot
  venue code = elim (after_dot code) [ none ↦ "" | some tail ↦ upper tail ]

  -- `_market_from_code`
  unfoldable pub market_from_code : String → String
  unfolding venue
  market_from_code code =
      if venue code == "HK"
      then "hk"
      else if any (λ v. v == venue code) ("O" ∷ "N" ∷ "A" ∷ [])
      then "us"
      else "cn"

  -- `_listing_type`
  unfoldable pub listing_type : String → String → String → String
  unfolding venue
  listing_type kind code default =
      if kind == "fund_list" && any (λ v. v == venue code) ("SH" ∷ "SZ" ∷ "BJ" ∷ [])
      then "lof"
      else default

  -- what `_register_frame` registers of a row
  unfoldable pub listing : String → String → String → String → Registration
  unfolding listing_type market_from_code
  listing kind default code name = record {
    code = code;
    entity_type = listing_type kind code default;
    name = name;
    entity_class = none;
    market = some (market_from_code code);
    currency = none;
    exchange = none;
    frequency = none;
    unit = none;
    algorithm_id = none;
    social_status = none;
    valid_from = none;
    attrs = none;
  }

  abbrev pub one_if : Bool → ℕ
  one_if true = 1
  one_if false = 0

  -- `_bump` after a registration
  unfoldable pub bump : Registered → BuildStats → BuildStats
  bump done stats = record stats {
    registered = stats.registered + one_if done.created;
    updated = stats.updated + one_if done.updated;
    skipped = stats.skipped + (if done.created || done.updated then 0 else 1);
  }

  unfoldable pub register_row :
      String
      → String
      → ℕ
      → Option String
      → String
      → BuildStats
      → RegistryRepo
      → Result (BuildStats × RegistryRepo)
  unfolding listing bump
  register_row kind default now none name stats r = ok (stats, r)
  register_row kind default now (some code) name stats r = do
    done ← register_or_refresh (listing kind default code name) now r
    ok (bump done stats, done.repo)

  -- `_register_frame`
  unfoldable pub register_frame :
      String
      → String
      → ℕ
      → List (Option String × String)
      → BuildStats
      → RegistryRepo
      → Result (BuildStats × RegistryRepo)
  unfolding register_row
  register_frame kind default now [] stats r = ok (stats, r)
  register_frame kind default now ((code, name) ∷ rows) stats r = do
    (stats', r') ← register_row kind default now code name stats r
    register_frame kind default now rows stats' r'

  abbrev pub frame_of : Option (List (Option String × String)) → List (Option String × String)
  frame_of none = []
  frame_of (some rows) = rows

  -- `_KIND_ENTITY_TYPE`
  abbrev pub kinds : List (String × String)
  kinds =
      ("stock_list", "equity")
      ∷ ("etf_list", "etf")
      ∷ ("fund_list", "fund")
      ∷ ("index_list", "index")
      ∷ []

  unfoldable pub register_kinds :
      (String → Option (List (Option String × String)))
      → ℕ
      → List (String × String)
      → BuildStats
      → RegistryRepo
      → Result (BuildStats × RegistryRepo)
  unfolding register_frame
  register_kinds get_reference now [] stats r = ok (stats, r)
  register_kinds get_reference now ((kind, default) ∷ rest) stats r = do
    (stats', r') ← register_frame kind default now (frame_of (get_reference kind)) stats r
    register_kinds get_reference now rest stats' r'

  -- a row of the frame of name changes
  pub record NameEvent : Type 0 where
    pub code : Option String
    pub name : String
    pub start_date : Option ℕ
    pub end_date : Option ℕ
    pub ann_date : Option String

  unfoldable pub entity_of : Option String → RegistryRepo → Option ℕ
  entity_of none r = none
  entity_of (some code) r = resolve code none r

  unfoldable pub apply_at :
      Option ℕ → NameEvent → ℕ → BuildStats → RegistryRepo → Result (BuildStats × RegistryRepo)
  apply_at none event now stats r = ok (record stats { skipped = stats.skipped + 1 }, r)
  apply_at (some id) event now stats r = do
    r' ← add_name_change id event.name event.start_date event.end_date event.ann_date now now now r
    ok (record stats { attributes = stats.attributes + 1 }, r')

  unfoldable pub apply_events :
      List NameEvent → ℕ → BuildStats → RegistryRepo → Result (BuildStats × RegistryRepo)
  unfolding entity_of apply_at
  apply_events [] now stats r = ok (stats, r)
  apply_events (event ∷ events) now stats r = do
    (stats', r') ← apply_at (entity_of event.code r) event now stats r
    apply_events events now stats' r'

  abbrev pub no_stats : BuildStats
  no_stats = record { registered = 0; updated = 0; attributes = 0; skipped = 0 }

  -- the events are none where the range of dates is not given
  unfoldable pub build_from_hub :
      (String → Option (List (Option String × String)))
      → List NameEvent
      → ℕ
      → RegistryRepo
      → Result (BuildStats × RegistryRepo)
  unfolding register_kinds apply_events
  build_from_hub get_reference events now r = do
    (listed, r') ← register_kinds get_reference now kinds no_stats r
    (delisted, r'') ←
        register_frame "stock_list" "equity" now (frame_of (get_reference "delist_list")) listed r'
    apply_events events now delisted r''
