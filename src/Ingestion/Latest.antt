-- ===== src/Ingestion/Latest.antt =====
-- What `_latest_rows` of daily_bar.py finds for each day.
use fin_data_hub.Prelude.{
  ℕ, ◌≤◌, ◌≡◌, refl, sym, ap, ◌∙◌, ◌⊎◌, inl, inr, true, false, List, [], ◌∷◌, Option, none, some,
  arith, ◌==◌, nat_eq, eqb_iff, Bool-cases, In, In-filter, In-of_filter, filter, if◌then◌else◌,
  subst,
}
use fin_data_hub.Prelude.Dict
use fin_data_hub.Prelude.Dict.{Dict, get-put}
use fin_data_hub.Ingestion.DailyBar.{
  DailyBar, is_later, replaces, keep_latest, in_window, latest_rows,
}

module _ {V : Type 0} where
  abbrev step : Dict ℕ (DailyBar V) → DailyBar V → Dict ℕ (DailyBar V)
  step latest row =
      if replaces row (Dict.get latest row.trade_date)
      then Dict.put latest row.trade_date row
      else latest

  -- A day has a mark that no given row is later than.
  abbrev Covers : Dict ℕ (DailyBar V) → ℕ → DailyBar V → Type 0
  Covers latest day row =
      (m : DailyBar V) × (Dict.get latest day ≡ some m) × (is_later row m ≡ false)

  is_later_trans :
      (a b m : DailyBar V) → is_later a b ≡ false → is_later b m ≡ false → is_later a m ≡ false
  unfolding is_later
  is_later_trans a b m h k = ground arith

  is_later_asym : (a b : DailyBar V) → is_later a b ≡ true → is_later b a ≡ false
  unfolding is_later
  is_later_asym a b h = ground arith

  is_later_irrefl : (a : DailyBar V) → is_later a a ≡ false
  unfolding is_later
  is_later_irrefl a = ground arith

  step_put :
      (latest : Dict ℕ (DailyBar V)) (row : DailyBar V)
      → replaces row (Dict.get latest row.trade_date) ≡ true
      → (day : ℕ)
      → Dict.get (step latest row) day
        ≡ (if row.trade_date == day then some row else Dict.get latest day)
  step_put latest row h day = rw h (get-put latest row.trade_date day row)

  step_keep :
      (latest : Dict ℕ (DailyBar V)) (row : DailyBar V)
      → replaces row (Dict.get latest row.trade_date) ≡ false
      → step latest row ≡ latest
  step_keep latest row h = rw h refl

  step-Covers_new :
      (latest : Dict ℕ (DailyBar V)) (row : DailyBar V)
      → Covers (step latest row) row.trade_date row
  step-Covers_new latest row = elim (Bool-cases (replaces row (Dict.get latest row.trade_date))) [
    | inl h ↦ (
      row,
      step_put latest row h row.trade_date
          ∙ rw ((eqb_iff row.trade_date row.trade_date).1 refl) refl,
      is_later_irrefl row,
    )
    | inr h ↦ from (Dict.get latest row.trade_date) refl h
  ]
    where
      from :
          (o : Option (DailyBar V))
          → Dict.get latest row.trade_date ≡ o
          → replaces row o ≡ false
          → Covers (step latest row) row.trade_date row
      from none e k = cc
      from (some m) e k =
          (m, ap (λ d. Dict.get d row.trade_date) (step_keep latest row (rw e k)) ∙ e, k)

  step-Covers :
      (latest : Dict ℕ (DailyBar V)) (row : DailyBar V) (day : ℕ) (other : DailyBar V)
      → Covers latest day other
      → Covers (step latest row) day other
  unfolding is_later
  step-Covers latest row day other (m, e, h) =
      elim (Bool-cases (replaces row (Dict.get latest row.trade_date))) [
        | inr keep ↦ (m, ap (λ d. Dict.get d day) (step_keep latest row keep) ∙ e, h)
        | inl new ↦ elim (Bool-cases (row.trade_date == day)) [
          | inr differs ↦ (m, step_put latest row new day ∙ rw differs e, h)
          | inl same ↦
              let p = (eqb_iff row.trade_date day).0 same in
              let later : is_later row m ≡ true = rw (p, e) at new in
              (
                row,
                step_put latest row new day ∙ rw same refl,
                is_later_trans other m row h (is_later_asym row m later),
              )
        ]
      ]

  keep_latest-Covers :
      (rows : List (DailyBar V)) (latest : Dict ℕ (DailyBar V)) (day : ℕ) (other : DailyBar V)
      → Covers latest day other
      → Covers (keep_latest latest rows) day other
  unfolding keep_latest
  keep_latest-Covers [] latest day other h = h
  keep_latest-Covers (row ∷ rows) latest day other h =
      keep_latest-Covers rows (step latest row) day other (step-Covers latest row day other h)

  keep_latest-Covers_row :
      (rows : List (DailyBar V)) (latest : Dict ℕ (DailyBar V)) (row : DailyBar V)
      → In row rows
      → Covers (keep_latest latest rows) row.trade_date row
  unfolding keep_latest
  keep_latest-Covers_row [] latest row m = absurd m
  keep_latest-Covers_row (x ∷ rows) latest row (inl e) =
      subst (λ r. Covers (keep_latest (step latest x) rows) r.trade_date r) (sym e)
        (keep_latest-Covers rows (step latest x) x.trade_date x (step-Covers_new latest x))
  keep_latest-Covers_row (x ∷ rows) latest row (inr m) =
      keep_latest-Covers_row rows (step latest x) row m

  -- what stands under a day is one of the rows of that day
  keep_latest-In :
      (rows : List (DailyBar V)) (latest : Dict ℕ (DailyBar V)) (day : ℕ) (m : DailyBar V)
      → Dict.get (keep_latest latest rows) day ≡ some m
      → (Dict.get latest day ≡ some m) ⊎ (In m rows × (m.trade_date ≡ day))
  unfolding keep_latest
  keep_latest-In [] latest day m h = inl h
  keep_latest-In (row ∷ rows) latest day m h =
      elim (keep_latest-In rows (step latest row) day m h) [
        | inr (n, e) ↦ inr (inr n, e)
        | inl g ↦ from g
      ]
    where
      from :
          Dict.get (step latest row) day ≡ some m
          → (Dict.get latest day ≡ some m) ⊎ (In m (row ∷ rows) × (m.trade_date ≡ day))
      from g = elim (Bool-cases (replaces row (Dict.get latest row.trade_date))) [
        | inr keep ↦ inl (sym (ap (λ d. Dict.get d day) (step_keep latest row keep)) ∙ g)
        | inl new ↦ elim (Bool-cases (row.trade_date == day)) [
          | inr differs ↦ inl (sym (step_put latest row new day ∙ rw differs refl) ∙ g)
          | inl same ↦
              let q : some row ≡ some m = sym (step_put latest row new day ∙ rw same refl) ∙ g in
              let p : row ≡ m = cc in
              inr
                (inl (sym p), ap (λ r. r.trade_date) (sym p) ∙ (eqb_iff row.trade_date day).0 same)
        ]
      ]

  module _ (id start end : ℕ) (rows : List (DailyBar V)) where
    -- A bar of the entity in the window.
    pub record IsBar (day : ℕ) (row : DailyBar V) : Type 0 where
      pub listed : In row rows
      pub owner : row.entity_id ≡ id
      pub on_day : row.trade_date ≡ day

    abbrev pub Within : ℕ → Type 0
    Within day = (start ≤ day) × (day ≤ end)

    IsBar-In :
        (day : ℕ) (row : DailyBar V)
        → Within day
        → IsBar day row
        → In row (filter (in_window id start end) rows)
    IsBar-In day row (from, to) b =
        In-filter (in_window id start end) row rows b.listed
          (ground (arith, b.owner, b.on_day, eqb_iff row.entity_id id))

    -- Where the table has bars of a day, the dict has one of them that none is later than.
    pub latest_rows_lem :
        (day : ℕ) (row : DailyBar V)
        → Within day
        → IsBar day row
        → (m : DailyBar V) × (Dict.get (latest_rows id start end rows) day ≡ some m)
          × (is_later row m ≡ false)
    unfolding latest_rows
    latest_rows_lem day row w b =
        subst (λ d. Covers (keep_latest [] (filter (in_window id start end) rows)) d row) b.on_day
          (keep_latest-Covers_row (filter (in_window id start end) rows) [] row
            (IsBar-In day row w b))

    pub latest_rows-IsBar :
        (day : ℕ) (m : DailyBar V)
        → Dict.get (latest_rows id start end rows) day ≡ some m
        → IsBar day m
    unfolding latest_rows
    latest_rows-IsBar day m h =
        elim (keep_latest-In (filter (in_window id start end) rows) [] day m h) [
          | inl g ↦ absurd (unfold Dict.get in cc)
          | inr (n, e) ↦
              let (i, t) = In-of_filter (in_window id start end) m rows n in
              record { listed = i; owner = ground (arith, eqb_iff m.entity_id id); on_day = e }
        ]
