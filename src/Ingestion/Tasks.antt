-- ===== src/Ingestion/Tasks.antt =====
-- src/fin_data_platform/ingestion/tasks.py: the task that synchronises the bars of one code, and what it
-- does to the mark of its data set once it has succeeded. `sync` is `sync_daily_bar` with its engine,
-- hub and source; `today` is the day of the clock.
use fin_data_hub.Prelude.{
  ℕ, ◌+◌, ◌-◌, ◌≤◌, String, ◌≡◌, refl, sym, ap, ◌∙◌, Bool, true, false, ◌&&◌, not, Option, none,
  some, ◌==◌, nat_eq, string_eq, if◌then◌else◌, leb, In, List, arith, Option-cases, inl, inr,
}
use fin_data_hub.Prelude.Dict.{Dict}
use fin_data_hub.Runtime.Result.{Result, ok, raise, value_error, ◌>>=◌}
use fin_data_hub.Runtime.Models.{date_of, midnight}
use fin_data_hub.Runtime.Tasks.{JobContext}
use fin_data_hub.Runtime.Repository.State.{Repo}
use fin_data_hub.Runtime.Repository.Marks.{get_watermark, advance_watermark}
use fin_data_hub.Runtime.Repository.Watermarks.{reached, later, advance_watermark_lem}
use fin_data_hub.Runtime.Windows.{HubTradeCalendar, provide, provide_lem}
use fin_data_hub.Cache.Layered.{CacheBackend, LayeredCache, bump_generation}
use fin_data_hub.Ingestion.DailyBar.{SyncResult}

abbrev pub dataset : String
dataset = "cn_equity.daily_bar"

-- `DATASET.split(".", 1)[0]`
abbrev pub domain : String
domain = "cn_equity"

module _ (code : String) where
  abbrev pub checked_window : JobContext → Result (ℕ × ℕ)
  checked_window context = elim context.run.window_start [
    | none ↦ raise value_error
    | some start ↦ elim context.run.window_end [
      | none ↦ raise value_error
      | some end ↦
          if not (context.run.scope == "") && not (context.run.scope == code)
          then raise value_error
          else ok (start, end)
    ]
  ]

  unfoldable pub executor :
      {S : Type 0} → (ℕ → ℕ → S → Result (SyncResult × S)) → JobContext → S → Result (ℕ × S)
  executor sync context s = do
    (start, end) ← checked_window context
    (result, s') ← sync start end s
    ok (result.rows_written, s')

  -- the day up to which the data is there
  unfoldable pub marked_day : ℕ → ℕ → ℕ → ℕ
  marked_day today rows target = if leb today target && rows == 0 then target - 1 else target

  marked_day_next :
      (today rows target : ℕ)
      → 1 ≤ target
      → marked_day today rows target + 1
        ≡ (if leb today target && rows == 0 then target else target + 1)
  unfolding marked_day
  marked_day_next today rows target h = ground arith

  marked_day_bound : (today rows target : ℕ) → target ≤ marked_day today rows target + 1
  unfolding marked_day
  marked_day_bound today rows target = ground arith

  date_of-later :
      (o : Option ℕ) (day : ℕ)
      → ((s : ℕ) → o ≡ some s → date_of s ≤ day)
      → date_of (later o (midnight day)) ≡ day
  date_of-later none day h = omega arith
  date_of-later (some s) day h = let b = h s refl in omega arith

  module _ (l1 l2 : CacheBackend) where
    -- what the callback leaves, and whether it returns
    abbrev pub Marked : Type 0
    Marked = Bool × Repo × Option (LayeredCache l1 l2)

    abbrev pub invalidate : Repo → Option (LayeredCache l1 l2) → Marked
    invalidate r none = (true, r, none)
    invalidate r (some cache) = elim (bump_generation l1 l2 domain cache) [
      | none ↦ (false, r, some cache)
      | some (generation, cache') ↦ (true, r, some cache')
    ]

    unfoldable pub mark_until : ℕ → ℕ → Option (LayeredCache l1 l2) → Repo → Option ℕ → Marked
    unfolding marked_day advance_watermark bump_generation
    mark_until today rows cache r none = (true, r, cache)
    mark_until today rows cache r (some target) =
        invalidate (advance_watermark dataset code (midnight (marked_day today rows target)) r).1
          cache

    unfoldable pub mark_watermark : ℕ → JobContext → ℕ → Option (LayeredCache l1 l2) → Repo → Marked
    unfolding mark_until
    mark_watermark today context rows cache r = mark_until today rows cache r context.run.window_end

    invalidate_repo : (r : Repo) (cache : Option (LayeredCache l1 l2)) → (invalidate r cache).1 ≡ r
    invalidate_repo r none = refl
    invalidate_repo r (some cache) = elim (Option-cases (bump_generation l1 l2 domain cache)) [
      | inl down ↦ rw (down, invalidate) refl
      | inr (done, f) ↦ rw (f, invalidate) refl
    ]

    mark_watermark_repo :
        (today : ℕ) (context : JobContext) (rows : ℕ) (cache : Option (LayeredCache l1 l2))
        (r : Repo) (target : ℕ)
        → context.run.window_end ≡ some target
        → (mark_watermark today context rows cache r).1
          ≡ (advance_watermark dataset code (midnight (marked_day today rows target)) r).1
    unfolding mark_watermark mark_until
    mark_watermark_repo today context rows cache r target e =
        ap (λ o. (mark_until today rows cache r o).1) e
        ∙ invalidate_repo
            (advance_watermark dataset code (midnight (marked_day today rows target)) r).1 cache

    -- When a window that was due has succeeded, the next due window starts on the day after its last
    -- day; or on its last day again, if that is today or later and no row was written.
    pub provide-mark_watermark :
        (hub : ℕ → ℕ → List (Option ℕ × Bool)) (starts : Dict String ℕ) (job_id : String)
        (moment : ℕ) (calendar : HubTradeCalendar) (r : Repo) (w : ℕ × ℕ)
        → In w (provide hub starts job_id dataset code moment calendar r).0
        → 1 ≤ w.1
        → (context : JobContext) → context.run.window_end ≡ some w.1
        → (today rows : ℕ) (cache : Option (LayeredCache l1 l2)) (moment' : ℕ)
          (calendar' : HubTradeCalendar) (next : ℕ × ℕ)
        → In next
            (provide hub starts job_id dataset code moment' calendar'
              (mark_watermark today context rows cache r).1).0
        → next.0 ≡ (if leb today w.1 && rows == 0 then w.1 else w.1 + 1)
    provide-mark_watermark hub starts job_id moment calendar r w due late context e today rows cache
          moment' calendar' next due' =
        let day = marked_day today rows w.1 in
        let same = mark_watermark_repo today context rows cache r w.1 e in
        let (at, returned, _) = advance_watermark_lem dataset code (midnight day) r in
        let stored = ap (get_watermark dataset code) same ∙ returned in
        let (_, _, _, _, after, _) =
          provide_lem hub starts job_id dataset code moment' calendar'
            (mark_watermark today context rows cache r).1 next due' in
        let begins = after _ _ stored (sym (ap reached returned) ∙ at) in
        begins
        ∙ ap (λ d. d + 1)
            (date_of-later (reached (get_watermark dataset code r)) day
              (λ s h. let b = old_mark s h in omega (arith, marked_day_bound today rows w.1)))
        ∙ marked_day_next today rows w.1 late
      where
        -- the old mark is before the window
        old_mark : (s : ℕ) → reached (get_watermark dataset code r) ≡ some s → date_of s + 1 ≤ w.1
        old_mark s h = elim (Option-cases (get_watermark dataset code r)) [
          | inl f ↦ absurd (ground (arith, h, f))
          | inr (mark, f) ↦
              let ((order, _), _, _, _, after, _) =
                provide_lem hub starts job_id dataset code moment calendar r w due in
              let g = after mark s f (sym (ap reached f) ∙ h) in omega arith
        ]
