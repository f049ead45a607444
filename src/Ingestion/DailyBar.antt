-- ===== src/Ingestion/DailyBar.antt =====
-- src/fin_data_platform/ingestion/daily_bar.py: bars of one code in a window, from the hub into an
-- append-only table. A value of a bar is of any type `V`, with `math.isclose` as the test `is_close`;
-- `to_date` has read the dates, and what `ensure_entity` and the hub return are arguments.
use fin_data_hub.Prelude.{
  ℕ, ◌+◌, ◌*◌, String, Bool, true, false, ◌&&◌, ◌||◌, List, [], ◌∷◌, Option, none, some, ◌==◌,
  nat_eq, string_eq, if◌then◌else◌, ltb, leb, filter, any, length,
}
use fin_data_hub.Prelude.Dict
use fin_data_hub.Prelude.Dict.{Dict}
use fin_data_hub.Runtime.Result.{Result, ok, raise, value_error, ◌>>=◌}
use fin_data_hub.Runtime.Models.{midnight, second}
use fin_data_hub.Storage.Readers.{Columns}
use fin_data_hub.Storage.Writers.{KeyedTable, Dialect, append_rows}

-- the six values of `_VALUE_FIELDS`
pub record Values (V : Type 0) : Type 0 where
  pub open_price : Option V
  pub high : Option V
  pub low : Option V
  pub close_price : Option V
  pub volume : Option V
  pub amount : Option V

pub record DailyBar (V : Type 0) : Type 0 where
  pub entity_id : ℕ
  pub trade_date : ℕ
  pub values : Values V
  pub knowledge_time : ℕ
  pub version : ℕ
  pub ingest_time : ℕ
  pub provider : String

-- the table's physical key
abbrev pub same_bar : {V : Type 0} → DailyBar V → DailyBar V → Bool
same_bar a b =
    a.entity_id == b.entity_id
    && a.trade_date == b.trade_date
    && a.knowledge_time == b.knowledge_time
    && a.version == b.version

-- its business key and the columns that order the versions
abbrev pub bar_columns : {V : Type 0} → Columns (DailyBar V) (ℕ × ℕ)
bar_columns = record {
  key = λ bar. (bar.entity_id, bar.trade_date);
  knowledge = λ bar. bar.knowledge_time;
  version = λ bar. bar.version;
}

-- a row of the frame, with its date read by `to_date`
pub record Item (V : Type 0) : Type 0 where
  pub date : Option ℕ
  pub values : Values V

pub record Frame (V : Type 0) : Type 0 where
  pub source : Option String
  pub items : List (Item V)

pub record SyncResult : Type 0 where
  pub code : String
  pub entity_id : ℕ
  pub window_start : ℕ
  pub window_end : ℕ
  pub fetched : ℕ
  pub rows_written : ℕ
  pub provider : String

abbrev pub providers : List String
providers = "tushare" ∷ "baostock" ∷ "wind" ∷ "akshare" ∷ "fuyao" ∷ []

-- 15:00 in Shanghai, 07:00 UTC
unfoldable pub close_of : ℕ → ℕ
close_of trade_date = midnight trade_date + 25200 * second

abbrev source_text : Option String → Option String → String
source_text (some raw) source = raw
source_text none (some text) = text
source_text none none = ""

unfoldable pub resolve_provider : (String → String) → Option String → Option String → Result String
resolve_provider lower raw source =
    let provider = lower (source_text raw source) in
    if any (λ p. p == provider) providers then ok provider else raise value_error

module _ {V : Type 0} (is_close : V → V → Bool) where
  abbrev pub same_value : Option V → Option V → Bool
  same_value none none = true
  same_value none (some b) = false
  same_value (some a) none = false
  same_value (some a) (some b) = is_close a b

  unfoldable pub same_values : Values V → Values V → Bool
  same_values prior new =
      same_value prior.open_price new.open_price
      && same_value prior.high new.high
      && same_value prior.low new.low
      && same_value prior.close_price new.close_price
      && same_value prior.volume new.volume
      && same_value prior.amount new.amount

-- `(row.knowledge_time, row.version) > (current.knowledge_time, current.version)`
unfoldable pub is_later : {V : Type 0} → DailyBar V → DailyBar V → Bool
is_later row current =
    ltb current.knowledge_time row.knowledge_time
    || (row.knowledge_time == current.knowledge_time && ltb current.version row.version)

abbrev pub replaces : {V : Type 0} → DailyBar V → Option (DailyBar V) → Bool
replaces row none = true
replaces row (some current) = is_later row current

module _ {V : Type 0} where
  -- the loop of `_latest_rows`
  unfoldable pub keep_latest : Dict ℕ (DailyBar V) → List (DailyBar V) → Dict ℕ (DailyBar V)
  keep_latest latest [] = latest
  keep_latest latest (row ∷ rows) =
      keep_latest
        (if replaces row (Dict.get latest row.trade_date)
          then Dict.put latest row.trade_date row
          else latest)
        rows

  abbrev pub in_window : ℕ → ℕ → ℕ → DailyBar V → Bool
  in_window id start end row =
      row.entity_id == id && leb start row.trade_date && leb row.trade_date end

  unfoldable pub latest_rows : ℕ → ℕ → ℕ → List (DailyBar V) → Dict ℕ (DailyBar V)
  unfolding keep_latest
  latest_rows id start end rows = keep_latest [] (filter (in_window id start end) rows)

-- what a synchronisation writes into all its rows
pub record Origin : Type 0 where
  pub entity_id : ℕ
  pub provider : String
  pub now : ℕ

module _ {V : Type 0} (is_close : V → V → Bool) where
  unfoldable pub first_version : Origin → ℕ → Item V → DailyBar V
  first_version origin trade_date item = record {
    entity_id = origin.entity_id;
    trade_date = trade_date;
    values = item.values;
    knowledge_time = close_of trade_date;
    version = 1;
    ingest_time = origin.now;
    provider = origin.provider;
  }

  unfoldable pub revision : Origin → ℕ → Item V → DailyBar V → DailyBar V
  revision origin trade_date item prior = record {
    entity_id = origin.entity_id;
    trade_date = trade_date;
    values = item.values;
    knowledge_time = origin.now;
    version = prior.version + 1;
    ingest_time = origin.now;
    provider = origin.provider;
  }

  unfoldable pub row_after : Origin → ℕ → Item V → Option (DailyBar V) → Option (DailyBar V)
  unfolding same_values
  row_after origin trade_date item none = some (first_version origin trade_date item)
  row_after origin trade_date item (some prior) =
      if same_values is_close prior.values item.values
      then none
      else some (revision origin trade_date item prior)

  abbrev pub row_on : Origin → Dict ℕ (DailyBar V) → Item V → Option ℕ → Option (DailyBar V)
  row_on origin latest item none = none
  row_on origin latest item (some trade_date) =
      row_after origin trade_date item (Dict.get latest trade_date)

  -- the body of the loop over the frame: the row that it appends, if it does
  unfoldable pub row_of : Origin → Dict ℕ (DailyBar V) → Item V → Option (DailyBar V)
  row_of origin latest item = row_on origin latest item item.date

  abbrev pub add_row : Option (DailyBar V) → List (DailyBar V) → List (DailyBar V)
  add_row none rows = rows
  add_row (some row) rows = row ∷ rows

  unfoldable pub new_rows : Origin → Dict ℕ (DailyBar V) → List (Item V) → List (DailyBar V)
  unfolding row_of
  new_rows origin latest [] = []
  new_rows origin latest (item ∷ items) =
      add_row (row_of origin latest item) (new_rows origin latest items)

  -- `to_date(start)` and `to_date(end)`
  abbrev pub window : Option ℕ → Option ℕ → Result (ℕ × ℕ)
  window (some start) (some end) = ok (start, end)
  window none end = raise value_error
  window (some start) none = raise value_error

  module _ (t : KeyedTable (DailyBar V) same_bar) (lower : String → String) where
    unfoldable pub sync_daily_bar :
        Dialect
        → String
        → Option ℕ
        → Option ℕ
        → Option String
        → Result ℕ
        → Result (Frame V)
        → ℕ
        → t.State
        → Result (SyncResult × t.State)
    unfolding resolve_provider new_rows latest_rows append_rows
    sync_daily_bar dialect code start end source entity bars now s = do
      (window_start, window_end) ← window start end
      id ← entity
      frame ← bars
      provider ← resolve_provider lower frame.source source
      let latest = latest_rows id window_start window_end (t.rows s)
      let origin : Origin = record { entity_id = id; provider = provider; now = now }
      (written, s') ← append_rows t dialect (new_rows origin latest frame.items) s
      ok (
        record {
          code = code;
          entity_id = id;
          window_start = window_start;
          window_end = window_end;
          fetched = length frame.items;
          rows_written = written;
          provider = provider;
        },
        s',
      )
