-- ===== src/Ingestion/Tests.antt =====
-- The theorems on daily bars (daily_bar.py) and on reads at a point in time (readers.py) at a table of
-- two bars of one entity, synchronised with a frame that revises the second and adds a third; and the
-- task of tasks.py with a mark.
use fin_data_hub.Prelude.{
  String, Option, if◌then◌else◌, leb, ◌&&◌, string_eq, ℕ, ◌+◌, ◌*◌, ◌≤◌, ◌<◌, ◌≡◌, refl, inl, inr,
  Bool, true, not, ◌==◌, List, [], ◌∷◌, none, some, arith, nat_eq, eqb, sym, ap, ◌∙◌, ≡→==, In, ◌↔◌,
  pair_eq, filter, count, any,
}
use fin_data_hub.Prelude.Dict
use fin_data_hub.Runtime.Result.{ok, ◌>>=◌}
use fin_data_hub.Runtime.Models.{midnight}
use fin_data_hub.Runtime.Repository.State.{Repo, init}
use fin_data_hub.Runtime.Repository.Marks.{mark_at}
use fin_data_hub.Runtime.Windows.{HubTradeCalendar, load, provide}
use fin_data_hub.Runtime.Tasks.{JobContext}
use fin_data_hub.Runtime.Worker.{context_of}
use fin_data_hub.Runtime.Tests.{running_run}
use fin_data_hub.Cache.Layered.{LayeredCache}
use fin_data_hub.Cache.Tests.{counter}
use fin_data_hub.Ingestion.Tasks.{dataset, mark_watermark, provide-mark_watermark}
use fin_data_hub.Storage.Readers.{as_of_query, latest_query}
use fin_data_hub.Storage.Writers.{fresh_rows, KeyedTable, Dialect, append_rows}
use fin_data_hub.Storage.Listed.{Listed, empty, put_all, listed_table}
use fin_data_hub.Storage.PointInTime.{IsVisible, IsCurrent, as_of_query_lem}
use fin_data_hub.Ingestion.DailyBar.{
  Values, DailyBar, same_bar, bar_columns, Item, Frame, SyncResult, resolve_provider, close_of,
  sync_daily_bar, same_values, is_later, latest_rows, row_after, new_rows, first_version, revision,
}
use fin_data_hub.Ingestion.Sync.{
  SyncCall, result, sync_at, IsOurs, IsTidy, sync_daily_bar_lem, revision_hidden,
}
use fin_data_hub.Ingestion.Rows.{same_values_refl}
use fin_data_hub.Ingestion.Resync.{sync_daily_bar_twice}

program : Unit {0}
unfolding resolve_provider append_rows as_of_query latest_query sync_daily_bar first_version
    revision is_later same_values row_after new_rows latest_rows close_of fresh_rows Dict.get
    Dict.put filter count any
program = tt

abbrev priced : ℕ → Values ℕ
priced x = record {
  open_price = some x;
  high = some x;
  low = some x;
  close_price = some x;
  volume = none;
  amount = none;
}

abbrev bar : ℕ → ℕ → ℕ → ℕ → DailyBar ℕ
bar day price known version = record {
  entity_id = 10001;
  trade_date = day;
  values = priced price;
  knowledge_time = known;
  version = version;
  ingest_time = known;
  provider = "baostock";
}

abbrev clock : ℕ → ℕ
clock day = day * 86400000000 + 25200000000

abbrev bars : List (DailyBar ℕ)
bars = bar 10 7 (clock 10) 1 ∷ bar 11 8 (clock 11) 1 ∷ []

same_bar_sym : (a b : DailyBar ℕ) → same_bar a b ≡ true → same_bar b a ≡ true
same_bar_sym a b h = ground arith

abbrev table : KeyedTable (DailyBar ℕ) same_bar
table = listed_table same_bar same_bar_sym

abbrev stored : Listed same_bar same_bar_sym
stored = put_all same_bar same_bar_sym bars (empty same_bar same_bar_sym)

abbrev frame : Frame ℕ
frame = record {
  source = some "baostock";
  items =
      record { date = some 11; values = priced 9 }
      ∷ record { date = some 12; values = priced 5 }
      ∷ record { date = none; values = priced 1 }
      ∷ [];
}

abbrev call : SyncCall ℕ
call = record {
  is_close = eqb;
  t = listed_table same_bar same_bar_sym;
  lower = λ x. x;
  dialect = Dialect.sqlite;
  code = "600000.SH";
  start = 10;
  end = 12;
  source = none;
  id = 10001;
  frame = frame;
  provider = "baostock";
}

abbrev now : ℕ
now = clock 12 + 5

-- two rows: the revision of the second day, known now, and the first version of the third
synced :
    ◌>>=◌ {B = SyncResult × List (DailyBar ℕ)}
      (sync_at call now stored)
      (λ r. ok (r.0, table.rows r.1))
    ≡ ok (
      result call 2,
      record (bar 11 9 now 2) { ingest_time = now }
          ∷ record (bar 12 5 (clock 12) 1) { ingest_time = now }
          ∷ bars,
    )
unfolding program
synced = refl

bar_10 : IsOurs call stored 10 (bar 10 7 (clock 10) 1)
unfolding program
bar_10 = record { listed = inl refl; owner = refl; on_day = refl }

sync_daily_bar_lem_example :
    (n : ℕ) × (s' : table.State) × (sync_at call now stored ≡ ok (result call n, s'))
    × ((a : DailyBar ℕ) → In a (table.rows stored) → In a (table.rows s'))
    × ((as_of : ℕ) (passes : DailyBar ℕ → Bool) (row old : DailyBar ℕ)
        → as_of < now
        → (10 ≤ row.trade_date) × (row.trade_date ≤ 12)
        → row.entity_id ≡ 10001
        → IsOurs call stored row.trade_date old
        → In row (as_of_query bar_columns as_of passes (table.rows s'))
          ↔ In row (as_of_query bar_columns as_of passes (table.rows stored)))
unfolding resolve_provider any
sync_daily_bar_lem_example = sync_daily_bar_lem call tt refl now stored

as_of_query_lem_example :
    ((row : DailyBar ℕ)
      → In row (as_of_query bar_columns (clock 10) (λ bar. true) bars)
        ↔ IsCurrent bar_columns (clock 10) (λ bar. true) bars row)
    × ((row : DailyBar ℕ)
        → IsVisible bar_columns (clock 10) (λ bar. true) bars row
        → (found : DailyBar ℕ) × In found (as_of_query bar_columns (clock 10) (λ bar. true) bars)
          × (bar_columns.key found ≡ bar_columns.key row))
    × ((a b : DailyBar ℕ)
        → In a (as_of_query bar_columns (clock 10) (λ bar. true) bars)
        → In b (as_of_query bar_columns (clock 10) (λ bar. true) bars)
        → bar_columns.key a ≡ bar_columns.key b
        → (a.knowledge_time ≡ b.knowledge_time) × (a.version ≡ b.version))
as_of_query_lem_example = as_of_query_lem bar_columns (clock 10) (λ bar. true) bars

call-IsTidy : IsTidy call
call-IsTidy = record { apart = apart; inside = inside }
  where
    apart :
        (i j : Item ℕ) (day : ℕ)
        → In i frame.items
        → In j frame.items
        → i.date ≡ some day
        → j.date ≡ some day
        → i ≡ j
    apart i j day (inl p) (inl q) e f = p ∙ sym q
    apart i j day (inl p) (inr (inl q)) e f =
        absurd (ground (arith, ap (λ x. x.date) p, ap (λ x. x.date) q))
    apart i j day (inl p) (inr (inr (inl q))) e f = absurd (ground (arith, ap (λ x. x.date) q))
    apart i j day (inl p) (inr (inr (inr x))) e f = absurd x
    apart i j day (inr (inl p)) (inl q) e f =
        absurd (ground (arith, ap (λ x. x.date) p, ap (λ x. x.date) q))
    apart i j day (inr (inl p)) (inr (inl q)) e f = p ∙ sym q
    apart i j day (inr (inl p)) (inr (inr (inl q))) e f =
        absurd (ground (arith, ap (λ x. x.date) q))
    apart i j day (inr (inl p)) (inr (inr (inr x))) e f = absurd x
    apart i j day (inr (inr (inr x))) m e f = absurd x
    apart i j day (inr (inr (inl p))) m e f = absurd (ground (arith, ap (λ x. x.date) p))

    inside : (i : Item ℕ) (day : ℕ) → In i frame.items → i.date ≡ some day → (10 ≤ day) × (day ≤ 12)
    inside i day (inl p) e = ground (arith, ap (λ x. x.date) p)
    inside i day (inr (inl p)) e = ground (arith, ap (λ x. x.date) p)
    inside i day (inr (inr (inr x))) e = absurd x
    inside i day (inr (inr (inl p))) e = absurd (ground (arith, ap (λ x. x.date) p))

known_by_now : (day : ℕ) (row : DailyBar ℕ) → IsOurs call stored day row → row.knowledge_time ≤ now
unfolding fresh_rows any
known_by_now day row b = from b.listed
  where
    from : In row (table.rows stored) → row.knowledge_time ≤ now
    from (inl p) = omega (arith, ap (λ x. x.knowledge_time) p)
    from (inr (inr x)) = absurd x
    from (inr (inl p)) = omega (arith, ap (λ x. x.knowledge_time) p)

sync_daily_bar_twice_example :
    (n : ℕ) × (s' : table.State) × (sync_at call now stored ≡ ok (result call n, s'))
    × ((later : ℕ) → sync_at call later s' ≡ ok (result call 0, s'))
unfolding resolve_provider any
sync_daily_bar_twice_example =
    sync_daily_bar_twice call tt refl call-IsTidy
      (λ item m. same_values_refl eqb (λ x. ≡→== x x refl) item.values) now stored known_by_now

-- With 9 as NaN, which is close to no number, the second synchronisation with the same frame writes a
-- revision of the second day again.
abbrev with_nan : SyncCall ℕ
with_nan = record call { is_close = λ x y. x == y && not (x == 9) }

synced_nan_twice :
    ◌>>=◌ {B = SyncResult}
      (sync_at with_nan now stored)
      (λ r. ◌>>=◌ {B = SyncResult} (sync_at with_nan (now + 1) r.1) (λ r'. ok r'.0))
    ≡ ok (result with_nan 1)
unfolding program
synced_nan_twice = refl

-- 09:00 in Shanghai on the second day
abbrev morning : ℕ
morning = midnight 11 + 3600000000

revision_hidden_example :
    (n : ℕ) × (s' : table.State) × (sync_at call morning stored ≡ ok (result call n, s'))
    × In (bar 11 8 (clock 11) 1) (as_of_query bar_columns (clock 11) (λ bar. true) (table.rows s'))
    × ((row : DailyBar ℕ)
        → In row (as_of_query bar_columns (clock 11) (λ bar. true) (table.rows s'))
        → row.entity_id ≡ 10001
        → row.trade_date ≡ 11
        → row.values ≡ priced 8)
unfolding program
revision_hidden_example =
    revision_hidden call tt refl morning stored (bar 11 8 (clock 11) 1)
      (record { date = some 11; values = priced 9 }) 11 (inl refl) refl refl refl (omega arith)
      (omega arith, omega arith)

-- The task of this code is due for days 12 and 13; its run ends on day 13 and writes nothing then.
abbrev code : String
code = "600000.SH"

abbrev open_hub : ℕ → ℕ → List (Option ℕ × Bool)
open_hub start end = (some 12, true) ∷ (some 13, true) ∷ (some 14, true) ∷ []

abbrev calendar : HubTradeCalendar
calendar = record { lookback_days = 45; publish_cutoff_utc = 30600000000; cache = [] }

abbrev repo : Repo
repo = record init { watermarks = ((dataset, code), mark_at dataset code (midnight 11)) ∷ [] }

abbrev finished : JobContext
finished = context_of (record running_run { window_end = some 13 })

abbrev no_cache : Option (LayeredCache counter counter)
no_cache = none

provide-mark_watermark_example : ◌≡◌ {A = ℕ} 13 (if leb 13 13 && eqb 0 0 then 13 else 14)
unfolding program provide load mark_watermark Dict.get Dict.put
provide-mark_watermark_example =
    provide-mark_watermark code counter counter open_hub [] "sync" (midnight 13 + 43200000000)
      calendar repo (12, 13) (inl refl) (omega arith) finished refl 13 0 no_cache
      (midnight 14 + 43200000000) calendar (13, 14) (inl refl)
