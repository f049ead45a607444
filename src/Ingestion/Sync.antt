-- ===== src/Ingestion/Sync.antt =====
-- What `sync_daily_bar` of daily_bar.py guarantees.
use fin_data_hub.Prelude.{
  ℕ, ◌≤◌, ◌<◌, String, ◌≡◌, refl, sym, ap, ◌∙◌, ◌⊎◌, inl, inr, Bool, true, false, ◌↔◌, List, Option,
  some, arith, nat_eq, In, length, subst, pair_eq,
}
use fin_data_hub.Prelude.Dict
use fin_data_hub.Prelude.Dict.{Dict}
use fin_data_hub.Runtime.Result.{Result, ok}
use fin_data_hub.Storage.Readers.{as_of_query, is_newer}
use fin_data_hub.Storage.Writers.{KeyedTable, Dialect, fresh_rows}
use fin_data_hub.Storage.Appends.{In-of_fresh_rows, Skips, Appended, append_rows_lem}
use fin_data_hub.Storage.PointInTime.{
  IsCurrent, In-as_of_query, as_of_query-append, as_of_query_lem,
}
use fin_data_hub.Ingestion.DailyBar.{
  DailyBar, same_bar, bar_columns, Item, Frame, SyncResult, resolve_provider, same_values, is_later,
  latest_rows, Origin, revision, new_rows, sync_daily_bar,
}
use fin_data_hub.Ingestion.Latest.{IsBar, Within, latest_rows_lem, latest_rows-IsBar}
use fin_data_hub.Ingestion.Rows.{new_rows-IsFrom, row_after_lem}

pair_path : {a b c d : ℕ} → a ≡ b → c ≡ d → ◌≡◌ {A = ℕ × ℕ} (a, c) (b, d)
pair_path p q = ground arith

-- A call, when the window is read, the entity is there, the hub has answered and its provider is known:
-- the parameters of the code it runs in, and its arguments.
pub record SyncCall (V : Type 0) : Type 1 where
  pub is_close : V → V → Bool
  pub t : KeyedTable (DailyBar V) same_bar
  pub lower : String → String
  pub dialect : Dialect
  pub code : String
  pub start : ℕ
  pub end : ℕ
  pub source : Option String
  pub id : ℕ
  pub frame : Frame V
  pub provider : String

module _ {V : Type 0} (c : SyncCall V) where
  open c use {is_close, t, lower, dialect, code, start, end, source, id, frame, provider}

  abbrev pub result : ℕ → SyncResult
  result written = record {
    code = code;
    entity_id = id;
    window_start = start;
    window_end = end;
    fetched = length frame.items;
    rows_written = written;
    provider = provider;
  }

  abbrev pub sync_at : ℕ → t.State → Result (SyncResult × t.State)
  sync_at now s =
      sync_daily_bar is_close t lower dialect code (some start) (some end) source (ok id) (ok frame)
        now s

  abbrev pub origin_at : ℕ → Origin
  origin_at now = record { entity_id = id; provider = provider; now = now }

  abbrev pub latest_of : t.State → Dict ℕ (DailyBar V)
  latest_of s = latest_rows id start end (t.rows s)

  abbrev pub written_at : ℕ → t.State → List (DailyBar V)
  written_at now s = new_rows is_close (origin_at now) (latest_of s) frame.items

  -- A bar of this entity in the window.
  abbrev pub IsOurs : t.State → ℕ → DailyBar V → Type 0
  IsOurs s = IsBar id start end (t.rows s)

  -- The frame has one item for each day, and only days of the window.
  pub record IsTidy : Type 0 where
    pub apart :
        (i j : Item V) (day : ℕ)
        → In i frame.items
        → In j frame.items
        → i.date ≡ some day
        → j.date ≡ some day
        → i ≡ j
    pub inside :
        (i : Item V) (day : ℕ) → In i frame.items → i.date ≡ some day → (start ≤ day) × (day ≤ end)

  module _ (skips : Skips dialect)
      (named : resolve_provider lower frame.source source ≡ ok provider) where
    pub sync_runs :
        (now : ℕ) (s : t.State)
        → (n : ℕ) × (s' : t.State) × (sync_at now s ≡ ok (result n, s'))
          × Appended t (written_at now s) s n s'
    unfolding sync_daily_bar
    sync_runs now s =
        let (n, s', e, a) = append_rows_lem t dialect skips (written_at now s) s in
        (n, s', rw named (rw e refl), a)

    -- a new row of a day that had bars is known from now on
    revised_now :
        (now : ℕ) (s : t.State) (row old : DailyBar V)
        → Within id start end (t.rows s) row.trade_date
        → IsOurs s row.trade_date old
        → In row (written_at now s)
        → row.knowledge_time ≡ now
    revised_now now s row old w b m =
        let f = new_rows-IsFrom is_close (origin_at now) (latest_of s) frame.items row m in
        let (prior, e, _) = latest_rows_lem id start end (t.rows s) row.trade_date old w b in
        elim (row_after_lem is_close (origin_at now) (latest_of s) row.trade_date f.item
          (Dict.get (latest_of s) row.trade_date) row f.written) [
            | inl (none_there, _) ↦ absurd (ground (arith, e))
            | inr (p, _, r) ↦ ap (λ x. x.knowledge_time) r ∙ unfold revision in refl
          ]

    -- A synchronisation returns. It keeps every row. And whatever it writes at a time, a read at an
    -- earlier time gives for each day of the entity in the window that had bars what it gave before.
    pub sync_daily_bar_lem :
        (now : ℕ) (s : t.State)
        → (n : ℕ) × (s' : t.State) × (sync_at now s ≡ ok (result n, s'))
          × ((a : DailyBar V) → In a (t.rows s) → In a (t.rows s'))
          × ((as_of : ℕ) (passes : DailyBar V → Bool) (row old : DailyBar V)
              → as_of < now
              → (start ≤ row.trade_date) × (row.trade_date ≤ end)
              → row.entity_id ≡ id
              → IsOurs s row.trade_date old
              → In row (as_of_query bar_columns as_of passes (t.rows s'))
                ↔ In row (as_of_query bar_columns as_of passes (t.rows s)))
    sync_daily_bar_lem now s =
        let (n, s', e, made) = sync_runs now s in
        let same = made.1 in
        (
          n,
          s',
          e,
          λ a m. (same a).1 (inr m),
          λ as_of passes row old before w own b.
              as_of_query-append bar_columns as_of passes (t.rows s)
                (fresh_rows same_bar (t.rows s) (written_at now s)) (t.rows s') row same
                (λ a m key.
                  let q : a.trade_date ≡ row.trade_date = ap (λ (p : ℕ × ℕ). p.1) key in
                  let b' = subst (λ d. IsOurs s d old) (sym q) b in
                  let w' : (start ≤ a.trade_date) × (a.trade_date ≤ end) =
                    (omega arith, omega arith) in
                  let m' = In-of_fresh_rows same_bar (t.rows s) (written_at now s) a m in
                  omega (arith, revised_now now s a old w' b' m')),
        )

    -- When the values of a day change before the knowledge time of its last bar, a read at that time
    -- still returns that bar, and of that day nothing with other values.
    pub revision_hidden :
        (now : ℕ) (s : t.State) (prior : DailyBar V) (item : Item V) (day : ℕ)
        → In item frame.items
        → item.date ≡ some day
        → Dict.get (latest_of s) day ≡ some prior
        → same_values is_close prior.values item.values ≡ false
        → now < prior.knowledge_time
        → (start ≤ day) × (day ≤ end)
        → (n : ℕ) × (s' : t.State) × (sync_at now s ≡ ok (result n, s'))
          × In prior (as_of_query bar_columns prior.knowledge_time (λ bar. true) (t.rows s'))
          × ((row : DailyBar V)
              → In row (as_of_query bar_columns prior.knowledge_time (λ bar. true) (t.rows s'))
              → row.entity_id ≡ id
              → row.trade_date ≡ day
              → row.values ≡ prior.values)
    revision_hidden now s prior item day m e g differs early w =
        let (n, s', ran, made) = sync_runs now s in
        let current =
          (In-as_of_query bar_columns prior.knowledge_time (λ bar. true) (t.rows s') prior).1
            (still s' n made) in
        (
          n,
          s',
          ran,
          current,
          λ row k own on. ap (λ x. x.values) (alone s' n made current row k own on),
        )
      where
        mine : IsOurs s day prior
        mine = latest_rows-IsBar id start end (t.rows s) day prior g

        -- a row of the day is an old one, or known from now on
        old_or_now :
            (s' : t.State) (n : ℕ)
            → Appended t (written_at now s) s n s'
            → (row : DailyBar V) → In row (t.rows s')
            → row.trade_date ≡ day
            → In row (t.rows s) ⊎ (row.knowledge_time ≡ now)
        old_or_now s' n made row k on = elim ((made.1 row).0 k) [
          | inr old ↦ inl old
          | inl new ↦ inr (
              revised_now now s row prior (subst (λ d. (start ≤ d) × (d ≤ end)) (sym on) w)
                (subst (λ d. IsOurs s d prior) (sym on) mine)
                (In-of_fresh_rows same_bar (t.rows s) (written_at now s) row new))
        ]

        still :
            (s' : t.State) (n : ℕ)
            → Appended t (written_at now s) s n s'
            → IsCurrent bar_columns prior.knowledge_time (λ bar. true) (t.rows s') prior
        still s' n made = record {
          visible = ((made.1 prior).1 (inr mine.listed), omega arith, refl);
          newest = λ other (k, _, _) key.
              let on = ap (λ (p : ℕ × ℕ). p.1) key ∙ mine.on_day in
              let own = ap (λ (p : ℕ × ℕ). p.0) key ∙ mine.owner in
              elim (old_or_now s' n made other k on) [
                | inr late ↦ unfold is_newer in ground arith
                | inl old ↦
                    let (p, q, l) =
                      latest_rows_lem id start end (t.rows s) day other w
                        (record { listed = old; owner = own; on_day = on }) in
                    let same : p ≡ prior = ground (arith, q, g) in
                    let l' = ap (is_later other) (sym same) ∙ l in
                    unfold is_newer is_later in ground (arith, l')
              ];
        }

        alone :
            (s' : t.State) (n : ℕ)
            → Appended t (written_at now s) s n s'
            → In prior (as_of_query bar_columns prior.knowledge_time (λ bar. true) (t.rows s'))
            → (row : DailyBar V)
            → In row (as_of_query bar_columns prior.knowledge_time (λ bar. true) (t.rows s'))
            → row.entity_id ≡ id
            → row.trade_date ≡ day
            → row ≡ prior
        alone s' n made current row k own on =
            let key : bar_columns.key row ≡ bar_columns.key prior =
              pair_path (own ∙ sym mine.owner) (on ∙ sym mine.on_day) in
            let (same_time, same_version) =
              (as_of_query_lem bar_columns prior.knowledge_time (λ bar. true) (t.rows s')).2 row
                prior k current key in
            let read =
              (In-as_of_query bar_columns prior.knowledge_time (λ bar. true) (t.rows s') row).0 k in
            elim (old_or_now s' n made row read.visible.0 on) [
              | inr late ↦ absurd (omega (arith, same_time))
              | inl old ↦
                  t.unique s row prior old mine.listed
                    (ground (arith, own, on, mine.owner, mine.on_day, same_time, same_version))
            ]
