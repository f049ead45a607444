-- ===== src/Registry/Models.antt =====
-- src/fin_data_platform/registry/models.py and `covers` of _util.py. A date is its ordinal, from 1 on.
use fin_data_hub.Prelude.{
  ℕ, String, Bool, true, false, ◌&&◌, List, [], ◌∷◌, Option, none, some, leb,
}
use fin_data_hub.Prelude.Dict.{Dict}

-- `EPOCH`, the 1st of January 1990
abbrev pub epoch : ℕ
epoch = 726468

-- the values of `EntityType`
abbrev pub entity_types : List String
entity_types =
    "issuer" ∷ "equity" ∷ "etf" ∷ "lof" ∷ "fund" ∷ "index" ∷ "bond" ∷ "future" ∷ "option" ∷ "rate"
    ∷ "fx" ∷ "macro" ∷ "basket" ∷ []

abbrev pub issuer : String
issuer = "issuer"

abbrev pub entity_classes : List String
entity_classes = "bond_etf" ∷ "money_etf" ∷ "reit" ∷ "equity_index" ∷ "commodity_future" ∷ []

abbrev pub markets : List String
markets = "cn" ∷ "hk" ∷ "us" ∷ "global" ∷ []

abbrev pub social_statuses : List String
social_statuses = "operating" ∷ "defunct" ∷ "restructuring" ∷ []

abbrev pub operating : String
operating = "operating"

abbrev pub id_types : List String
id_types = "isin" ∷ "figi" ∷ "cusip" ∷ "sedol" ∷ "lei" ∷ "uscc" ∷ "other" ∷ []

pub record EntityRecord : Type 0 where
  pub entity_id : ℕ
  pub entity_type : String
  pub code : String
  pub name : String
  pub entity_class : Option String
  pub market : Option String
  pub currency : Option String
  pub exchange : Option String
  pub frequency : Option String
  pub unit : Option String
  pub algorithm_id : Option String
  pub social_status : Option String
  pub valid_from : Option ℕ
  pub valid_to : Option ℕ
  pub knowledge_time : ℕ
  pub version : ℕ
  pub attrs : Option (Dict String String)

pub record CodeHistoryRecord : Type 0 where
  pub entity_id : ℕ
  pub code : String
  pub valid_from : Option ℕ
  pub valid_to : Option ℕ
  pub knowledge_time : ℕ
  pub version : ℕ

pub record RelationRecord : Type 0 where
  pub entity_id : ℕ
  pub related_id : ℕ
  pub relation_type : String
  pub valid_from : Option ℕ
  pub valid_to : Option ℕ
  pub knowledge_time : ℕ
  pub version : ℕ

pub record RelationTypeRecord : Type 0 where
  pub relation_type : String
  pub inverse_relation : String
  pub description : String

pub record ExternalIdRecord : Type 0 where
  pub entity_id : ℕ
  pub id_type : String
  pub id_value : String
  pub valid_from : Option ℕ
  pub valid_to : Option ℕ
  pub knowledge_time : ℕ
  pub version : ℕ

pub record LifecycleRecord : Type 0 where
  pub entity_id : ℕ
  pub status : String
  pub start_date : Option ℕ
  pub end_date : Option ℕ
  pub knowledge_time : Option ℕ
  pub version : ℕ

-- a bound that is absent or not before the date
abbrev pub until : ℕ → Option ℕ → Bool
until d none = true
until d (some t) = leb d t

abbrev pub since : ℕ → Option ℕ → Bool
since d none = false
since d (some f) = leb f d

abbrev pub is_open : Option ℕ → Bool
is_open none = true
is_open (some t) = false

-- `covers(record, target)` on the validity of a record
unfoldable pub covers : Option ℕ → Option ℕ → Option ℕ → Bool
covers valid_from valid_to none = is_open valid_to
covers valid_from valid_to (some d) = since d valid_from && until d valid_to

-- `valid_from or EPOCH`
abbrev pub start_of : Option ℕ → ℕ
start_of none = epoch
start_of (some d) = d
