-- ===== src/Runtime/Windows.antt =====
-- src/fin_data_platform/runtime/windows.py and calendar.py: which window a task is due for. The hub's
-- trade calendar is a parameter: for the two ends of a span, its rows with a readable date.
use fin_data_hub.Prelude.{
  ℕ, ◌+◌, ◌-◌, ◌≤◌, ◌<◌, String, ◌≡◌, refl, sym, ap, ◌∙◌, subst, ◌⊎◌, inl, inr, Bool, Option, none,
  some, List, [], ◌∷◌, arith, ◌==◌, nat_eq, string_eq, if◌then◌else◌, leb, ltb, Bool-cases, In,
  filter, In-filter, In-of_filter, any,
}
use fin_data_hub.Prelude.Dict
use fin_data_hub.Prelude.Dict.{Dict}
use fin_data_hub.Runtime.Models.{Watermark, date_of, time_of}
use fin_data_hub.Runtime.Repository.State.{Repo}
use fin_data_hub.Runtime.Repository.Marks.{get_watermark}

-- `max(days) if days else None`
unfoldable pub latest_day : List ℕ → Option ℕ
latest_day [] = none
latest_day (d ∷ ds) = elim (latest_day ds) [
  | none ↦ some d
  | some m ↦ some (if leb m d then d else m)
]

pub record HubTradeCalendar : Type 0 where
  pub lookback_days : ℕ
  pub publish_cutoff_utc : ℕ
  pub cache : Dict ℕ (List ℕ)

-- the open days among the rows; `none` is a date that `to_date` cannot read
unfoldable pub open_days : List (Option ℕ × Bool) → List ℕ
open_days [] = []
open_days ((none, _) ∷ rows) = open_days rows
open_days ((some d, is_open) ∷ rows) =
    let rest = open_days rows in if is_open then d ∷ rest else rest

-- the last day whose data has been published at `moment`
unfoldable pub closed_end : ℕ → HubTradeCalendar → ℕ
closed_end moment c =
    if leb c.publish_cutoff_utc (time_of moment) then date_of moment else date_of moment - 1

module _ (hub : ℕ → ℕ → List (Option ℕ × Bool)) where
  -- `_load`
  unfoldable pub load : ℕ → HubTradeCalendar → List ℕ × HubTradeCalendar
  unfolding open_days
  load end c = elim (Dict.get c.cache end) [
    | some days ↦ (days, c)
    | none ↦
        let days = open_days (hub (end - c.lookback_days) end) in
        (days, record c { cache = Dict.put c.cache end days })
  ]

  unfoldable pub is_trading_day : ℕ → HubTradeCalendar → Bool × HubTradeCalendar
  is_trading_day d c = let (days, c') = load d c in (any (λ x. x == d) days, c')

  unfoldable pub last_closed : ℕ → HubTradeCalendar → Option ℕ × HubTradeCalendar
  unfolding closed_end latest_day
  last_closed moment c =
      let end = closed_end moment c in
      let (days, c') = load end c in (latest_day (filter (λ d. leb d end) days), c')

-- the due window from a first day, up to the last closed day
unfoldable pub window_from : ℕ → ℕ → List (ℕ × ℕ)
window_from start last = if ltb last start then [] else (start, last) ∷ []

-- `start_dates.get(job_id)` where there is no mark to start from
unfoldable pub configured_window : Option ℕ → ℕ → List (ℕ × ℕ)
unfolding window_from
configured_window none last = []
configured_window (some start) last = window_from start last

-- the day after the mark, if the mark holds a time
abbrev pub after_mark : Option Watermark → Option ℕ
after_mark none = none
after_mark (some mark) = elim mark.watermark_time [ none ↦ none | some t ↦ some (date_of t + 1) ]

-- `__call__` of `WatermarkWindowProvider` from what the calendar says
unfoldable pub due_windows :
    Dict String ℕ → String → String → String → Option ℕ → Repo → List (ℕ × ℕ)
unfolding configured_window
due_windows start_dates job_id dataset scope none r = []
due_windows start_dates job_id dataset scope (some last) r =
    elim (after_mark (get_watermark dataset scope r)) [
      | some start ↦ window_from start last
      | none ↦ configured_window (Dict.get start_dates job_id) last
    ]

-- `WatermarkWindowProvider.__call__`
unfoldable pub provide :
    (ℕ → ℕ → List (Option ℕ × Bool))
    → Dict String ℕ
    → String
    → String
    → String
    → ℕ
    → HubTradeCalendar
    → Repo
    → List (ℕ × ℕ) × HubTradeCalendar
unfolding last_closed due_windows
provide hub start_dates job_id dataset scope moment c r =
    let (last, c') = last_closed hub moment c in
    (due_windows start_dates job_id dataset scope last r, c')

latest_day-none : (ds : List ℕ) → latest_day ds ≡ none → ds ≡ []
unfolding latest_day
latest_day-none [] h = refl
latest_day-none (d ∷ ds) h = absurd (ground arith)

-- The latest of a list is one of it, and no day of the list is later.
latest_day_lem :
    (ds : List ℕ) (m : ℕ) → latest_day ds ≡ some m → In m ds × ((d : ℕ) → In d ds → d ≤ m)
unfolding latest_day
latest_day_lem [] m h = absurd (ground arith)
latest_day_lem (d ∷ ds) m h = from (latest_day ds) refl (latest_day_lem ds) (latest_day-none ds)
  where
    from :
        (o : Option ℕ)
        → latest_day ds ≡ o
        → ((m : ℕ) → latest_day ds ≡ some m → In m ds × ((d : ℕ) → In d ds → d ≤ m))
        → (latest_day ds ≡ none → ds ≡ [])
        → In m (d ∷ ds) × ((x : ℕ) → In x (d ∷ ds) → x ≤ m)
    from none e ih empty = (
      inl (ground arith),
      λ x i. elim i [ inl p ↦ ground arith | inr n ↦ absurd (rw (empty e) at n) ],
    )
    from (some k) e ih empty = elim (Bool-cases (leb k d)) [
      | inl low ↦ (
        inl (ground arith),
        λ x i. elim i [ inl p ↦ ground arith | inr n ↦ ground (arith, (ih k e).1 x n) ],
      )
      | inr high ↦
          let q : k ≡ m = ground arith in
          (
            inr (subst (λ (x : ℕ). In x ds) q (ih k e).0),
            λ x i. elim i [ inl p ↦ ground arith | inr n ↦ ground (arith, (ih k e).1 x n) ],
          )
    ]

module _ (hub : ℕ → ℕ → List (Option ℕ × Bool)) where
  -- the last closed day is the last of the listed days that have closed
  last_closed_lem :
      (moment : ℕ) (c : HubTradeCalendar) (m : ℕ)
      → (last_closed hub moment c).0 ≡ some m
      → In m (load hub (closed_end moment c) c).0
        × (m ≤ date_of moment)
        × (time_of moment < c.publish_cutoff_utc → m ≤ date_of moment - 1)
        × ((d : ℕ) → In d (load hub (closed_end moment c) c).0 → d ≤ closed_end moment c → d ≤ m)
  unfolding last_closed closed_end
  last_closed_lem moment c m h =
      let days = (load hub (closed_end moment c) c).0 in
      let (i, top) = latest_day_lem (filter (λ d. leb d (closed_end moment c)) days) m h in
      let (j, fits) = In-of_filter (λ d. leb d (closed_end moment c)) m days i in
      (
        j,
        ground (arith, fits),
        λ early. ground (arith, fits),
        λ d k le. top d (In-filter (λ d. leb d (closed_end moment c)) d days k (ground arith)),
      )

  -- A second look at the same day asks the hub no more, and finds the same days.
  pub load_cached :
      (end : ℕ) (c : HubTradeCalendar)
      → load hub end (load hub end c).1 ≡ ((load hub end c).0, (load hub end c).1)
  unfolding load
  load_cached end c =
      ground (arith, Dict.get-put_self c.cache end (open_days (hub (end - c.lookback_days) end)))

pub due_windows_lem :
    (start_dates : Dict String ℕ) (job_id dataset scope : String) (last : ℕ) (r : Repo) (w : ℕ × ℕ)
    → In w (due_windows start_dates job_id dataset scope (some last) r)
    → (w.0 ≤ w.1)
      × (w.1 ≡ last)
      × ((m : Watermark) (t : ℕ)
          → get_watermark dataset scope r ≡ some m
          → m.watermark_time ≡ some t
          → w.0 ≡ date_of t + 1)
      × (after_mark (get_watermark dataset scope r) ≡ none → Dict.get start_dates job_id ≡ some w.0)
unfolding due_windows
due_windows_lem start_dates job_id dataset scope last r w i =
    from (after_mark (get_watermark dataset scope r)) refl (Dict.get start_dates job_id) refl
  where
    Right : Type 0
    Right =
        (w.0 ≤ w.1)
        × (w.1 ≡ last)
        × ((m : Watermark) (t : ℕ)
            → get_watermark dataset scope r ≡ some m
            → m.watermark_time ≡ some t
            → w.0 ≡ date_of t + 1)
        × (after_mark (get_watermark dataset scope r) ≡ none
            → Dict.get start_dates job_id ≡ some w.0)

    one :
        (start : ℕ) → In w (window_from start last) → (w.0 ≡ start) × (w.1 ≡ last) × (start ≤ last)
    one start i = elim (Bool-cases (ltb last start)) [
      | inl past ↦ absurd (rw past at i)
      | inr ahead ↦ elim (single (rw ahead at i)) [
        | inl p ↦ (ground arith, ground arith, ground arith)
        | inr n ↦ absurd n
      ]
    ]
      where
        single : In w ((start, last) ∷ []) → (w ≡ (start, last)) ⊎ ⊥
        single i = i

    found :
        (ws : List (ℕ × ℕ))
        → due_windows start_dates job_id dataset scope (some last) r ≡ ws
        → In w ws
    found ws q = subst (λ (l : List (ℕ × ℕ)). In w l) q i

    from :
        (o : Option ℕ)
        → after_mark (get_watermark dataset scope r) ≡ o
        → (p : Option ℕ) → Dict.get start_dates job_id ≡ p
        → Right
    from (some start) e p f =
        let (a, b, c) = one start (found (window_from start last) (ground arith)) in
        (omega arith, b, λ m t g h. ground arith, λ n. absurd (ground arith))
    from none e none f = absurd (found [] (ground arith))
    from none e (some start) f =
        let (a, b, c) = one start (found (window_from start last) (ground arith)) in
        (omega arith, b, λ m t g h. absurd (ground arith), λ n. ground arith)

-- A window that the provider gives is never back to front. It ends at the last day that the calendar
-- lists as open and that has closed at the moment; before the cutoff the current day has not. It
-- starts on the day after the mark; without a mark it starts on the configured day.
pub provide_lem :
    (hub : ℕ → ℕ → List (Option ℕ × Bool)) (start_dates : Dict String ℕ)
    (job_id dataset scope : String) (moment : ℕ) (c : HubTradeCalendar) (r : Repo) (w : ℕ × ℕ)
    → In w (provide hub start_dates job_id dataset scope moment c r).0
    → ((w.0 ≤ w.1) × (w.1 ≤ date_of moment))
      × In w.1 (load hub (closed_end moment c) c).0
      × (time_of moment < c.publish_cutoff_utc → w.1 ≤ date_of moment - 1)
      × ((d : ℕ) → In d (load hub (closed_end moment c) c).0 → d ≤ closed_end moment c → d ≤ w.1)
      × ((m : Watermark) (t : ℕ)
          → get_watermark dataset scope r ≡ some m
          → m.watermark_time ≡ some t
          → w.0 ≡ date_of t + 1)
      × (after_mark (get_watermark dataset scope r) ≡ none → Dict.get start_dates job_id ≡ some w.0)
unfolding provide
provide_lem hub start_dates job_id dataset scope moment c r w i =
    from (last_closed hub moment c).0 refl i
  where
    Due : Option ℕ → Type 0
    Due last = In w (due_windows start_dates job_id dataset scope last r)

    from :
        (last : Option ℕ)
        → (last_closed hub moment c).0 ≡ last
        → Due last
        → ((w.0 ≤ w.1) × (w.1 ≤ date_of moment))
          × In w.1 (load hub (closed_end moment c) c).0
          × (time_of moment < c.publish_cutoff_utc → w.1 ≤ date_of moment - 1)
          × ((d : ℕ)
              → In d (load hub (closed_end moment c) c).0
              → d ≤ closed_end moment c
              → d ≤ w.1)
          × ((m : Watermark) (t : ℕ)
              → get_watermark dataset scope r ≡ some m
              → m.watermark_time ≡ some t
              → w.0 ≡ date_of t + 1)
          × (after_mark (get_watermark dataset scope r) ≡ none
              → Dict.get start_dates job_id ≡ some w.0)
    from none e due = absurd due
    from (some last) e due =
        let (order, ending, marked, first) =
          due_windows_lem start_dates job_id dataset scope last r w due in
        let (listed, closed, early, latest) =
          last_closed_lem hub moment c w.1 (e ∙ ap some (sym ending)) in
        ((order, closed), listed, early, latest, marked, first)
