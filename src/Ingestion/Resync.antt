-- ===== src/Ingestion/Resync.antt =====
-- A second `sync_daily_bar` of daily_bar.py with the same frame, which has no NaN.
use fin_data_hub.Prelude.{
  ℕ, ◌≤◌, ◌≡◌, refl, sym, ap, ◌∙◌, ◌⊎◌, inl, inr, true, false, [], Option, none, some, arith,
  nat_eq, Bool-cases, Option-cases, In, any, any_witness, subst, pair_eq,
}
use fin_data_hub.Prelude.Dict
use fin_data_hub.Prelude.Dict.{Dict}
use fin_data_hub.Runtime.Result.{ok}
use fin_data_hub.Storage.Writers.{append_rows, fresh_rows}
use fin_data_hub.Storage.Appends.{In-of_fresh_rows, In-fresh_rows, Skips, Appended}
use fin_data_hub.Ingestion.DailyBar.{
  DailyBar, same_bar, Item, resolve_provider, same_values, is_later, revision, row_after, row_on,
  row_of, sync_daily_bar,
}
use fin_data_hub.Ingestion.Latest.{IsBar, latest_rows_lem, latest_rows-IsBar}
use fin_data_hub.Ingestion.Rows.{
  new_rows-IsFrom, In-new_rows, row_after_lem, row_after_owner, same_bar_parts, is_later-same_bar,
  same_bar-level, same_bar_refl, row_after_values, row_after-none, new_rows-nil,
}
use fin_data_hub.Ingestion.Sync.{
  SyncCall, result, sync_at, origin_at, latest_of, written_at, IsOurs, IsTidy, sync_runs,
}

module _ {V : Type 0} (c : SyncCall V) (skips : Skips c.dialect)
    (named : resolve_provider c.lower c.frame.source c.source ≡ ok c.provider) where
  open c use {is_close, t, start, end, id, frame}

  module _ (tidy : IsTidy c)
      (close : (item : Item V)
        → In item frame.items
        → same_values is_close item.values item.values ≡ true)
      (now : ℕ) (s : t.State)
      (known : (day : ℕ) (row : DailyBar V) → IsOurs c s day row → row.knowledge_time ≤ now) where
    -- the row that an item gives is the only one of its day
    only_row :
        (item : Item V) (day : ℕ) (row : DailyBar V)
        → In item frame.items
        → item.date ≡ some day
        → In row (written_at c now s)
        → row.trade_date ≡ day
        → row_after is_close (origin_at c now) day item (Dict.get (latest_of c s) day) ≡ some row
    only_row item day row m e n on =
        let f = new_rows-IsFrom is_close (origin_at c now) (latest_of c s) frame.items row n in
        let p : f.item ≡ item = tidy.apart f.item item day f.listed m (f.dated ∙ ap some on) e in
        subst
          (λ i.
            row_after is_close (origin_at c now) day i (Dict.get (latest_of c s) day) ≡ some row)
          p
          (subst
            (λ d.
              row_after is_close (origin_at c now) d f.item (Dict.get (latest_of c s) d) ≡ some row)
            on f.written)

    -- a revision is later than every bar of its day
    revision_later :
        (day : ℕ) (item : Item V) (prior old : DailyBar V)
        → Dict.get (latest_of c s) day ≡ some prior
        → is_later old prior ≡ false
        → is_later (revision is_close (origin_at c now) day item prior) old ≡ true
    unfolding is_later revision
    revision_later day item prior old e h =
        let k = known day prior (latest_rows-IsBar id start end (t.rows s) day prior e) in
        ground arith

    -- the key of a row that an item gives was free
    key_free :
        (item : Item V) (day : ℕ) (row : DailyBar V)
        → In item frame.items
        → item.date ≡ some day
        → row_after is_close (origin_at c now) day item (Dict.get (latest_of c s) day) ≡ some row
        → any (same_bar row) (t.rows s) ≡ false
    key_free item day row m e h = elim (Bool-cases (any (same_bar row) (t.rows s))) [
      | inr free ↦ free
      | inl taken ↦
          let (x, n, same) = any_witness (same_bar row) (t.rows s) taken in absurd (clash x n same)
    ]
      where
        clash : (x : DailyBar V) → In x (t.rows s) → same_bar row x ≡ true → ⊥
        clash x n same =
            let (owner, on, _, _) = same_bar_parts row x same in
            let (own, d) =
              row_after_owner is_close (origin_at c now) (latest_of c s) day item
                (Dict.get (latest_of c s) day) row h in
            let b : IsOurs c s day x = record {
              listed = n;
              owner = sym owner ∙ own;
              on_day = sym on ∙ d;
            } in
            let (p, g, l) =
              latest_rows_lem id start end (t.rows s) day x (tidy.inside item day m e) b in
            elim (row_after_lem is_close (origin_at c now) (latest_of c s) day item
              (Dict.get (latest_of c s) day) row h) [
                | inl (nothing, _) ↦ ground (arith, g)
                | inr (prior, q, r) ↦
                    let same_prior : p ≡ prior = ground (arith, g) in
                    let late =
                      revision_later day item prior x q (ap (is_later x) (sym same_prior) ∙ l) in
                    let same' = ap (λ y. same_bar y x) (sym r) ∙ same in
                    let f =
                      is_later-same_bar (revision is_close (origin_at c now) day item prior) x
                        same' in
                    cc
              ]

    module _ (s' : t.State) (n : ℕ) (made : Appended t (written_at c now s) s n s') (item : Item V)
        (day : ℕ) (m : In item frame.items) (e : item.date ≡ some day) where
      -- the bar of the day that the dict has after the call
      abbrev Settled : Type 0
      Settled =
          (bar : DailyBar V) × (Dict.get (latest_of c s') day ≡ some bar)
          × (same_values is_close bar.values item.values ≡ true)

      -- an old bar of the day that is still the last
      old_bar :
          (bar : DailyBar V)
          → IsBar id start end (t.rows s') day bar
          → IsOurs c s day bar
            ⊎ (row_after is_close (origin_at c now) day item (Dict.get (latest_of c s) day)
                ≡ some bar)
      old_bar bar b = elim ((made.1 bar).0 b.listed) [
        | inl new ↦ inr (
            only_row item day bar m e
              (In-of_fresh_rows same_bar (t.rows s) (written_at c now s) bar new) b.on_day)
        | inr old ↦ inl (record { listed = old; owner = b.owner; on_day = b.on_day })
      ]

      written_stored :
          (a : DailyBar V)
          → row_after is_close (origin_at c now) day item (Dict.get (latest_of c s) day) ≡ some a
          → In a (t.rows s')
      written_stored a h =
          let new =
            In-new_rows is_close (origin_at c now) (latest_of c s) frame.items item a m (
              unfold row_of in ap (row_on is_close (origin_at c now) (latest_of c s) item) e ∙ h) in
          let (b, k, same) =
            In-fresh_rows same_bar same_bar_refl (t.rows s) (written_at c now s) a new
              (key_free item day a m e h) in
          let (_, on, _, _) = same_bar_parts a b same in
          let (_, d) =
            row_after_owner is_close (origin_at c now) (latest_of c s) day item
              (Dict.get (latest_of c s) day) a h in
          let h' =
            only_row item day b m e (In-of_fresh_rows same_bar (t.rows s) (written_at c now s) b k)
              (sym on ∙ d) in
          let p : b ≡ a = ground (arith, h') in
          (made.1 a).1
            (inl (subst (λ x. In x (fresh_rows same_bar (t.rows s) (written_at c now s))) p k))

      settled_new :
          (a : DailyBar V)
          → row_after is_close (origin_at c now) day item (Dict.get (latest_of c s) day) ≡ some a
          → Settled
      settled_new a h =
          let (own, d) =
            row_after_owner is_close (origin_at c now) (latest_of c s) day item
              (Dict.get (latest_of c s) day) a h in
          let stored : IsBar id start end (t.rows s') day a = record {
            listed = written_stored a h;
            owner = own;
            on_day = d;
          } in
          let (bar, g, l) =
            latest_rows_lem id start end (t.rows s') day a (tidy.inside item day m e) stored in
          let agree : same_values is_close a.values item.values ≡ true =
            rw
              (row_after_values is_close (origin_at c now) (latest_of c s) day item
                (Dict.get (latest_of c s) day) a h)
              (close item m) in
          elim (old_bar bar (latest_rows-IsBar id start end (t.rows s') day bar g)) [
            | inr h' ↦
                let p : a ≡ bar = ground (arith, h, h') in
                (bar, g, ap (λ x. same_values is_close x.values item.values) (sym p) ∙ agree)
            | inl b ↦ absurd (outdated bar b l)
          ]
        where
          outdated : (bar : DailyBar V) → IsOurs c s day bar → is_later a bar ≡ false → ⊥
          outdated bar b l =
              let (p, g, k) =
                latest_rows_lem id start end (t.rows s) day bar (tidy.inside item day m e) b in
              elim (row_after_lem is_close (origin_at c now) (latest_of c s) day item
                (Dict.get (latest_of c s) day) a h) [
                  | inl (nothing, _) ↦ ground (arith, g)
                  | inr (prior, q, r) ↦
                      let same_prior : p ≡ prior = ground (arith, g) in
                      let late =
                        revision_later day item prior bar q
                          (ap (is_later bar) (sym same_prior) ∙ k) in
                      let l' = ap (λ y. is_later y bar) (sym r) ∙ l in cc
                ]

      settled_same :
          row_after is_close (origin_at c now) day item (Dict.get (latest_of c s) day) ≡ none
          → Settled
      settled_same h =
          let (prior, q, agree) =
            row_after-none is_close (origin_at c now) (latest_of c s) day item
              (Dict.get (latest_of c s) day) h in
          let b = latest_rows-IsBar id start end (t.rows s) day prior q in
          let stored : IsBar id start end (t.rows s') day prior = record {
            listed = (made.1 prior).1 (inr b.listed);
            owner = b.owner;
            on_day = b.on_day;
          } in
          let (bar, g, l) =
            latest_rows_lem id start end (t.rows s') day prior (tidy.inside item day m e) stored in
          elim (old_bar bar (latest_rows-IsBar id start end (t.rows s') day bar g)) [
            | inr h' ↦ absurd (ground (arith, h, h'))
            | inl b' ↦
                let (p, k, l') =
                  latest_rows_lem id start end (t.rows s) day bar (tidy.inside item day m e) b' in
                let same_prior : p ≡ prior = ground (arith, k, q) in
                let level =
                  same_bar-level bar prior (b'.owner ∙ sym b.owner) (b'.on_day ∙ sym b.on_day)
                    (ap (is_later bar) (sym same_prior) ∙ l') l in
                let r = t.unique s bar prior b'.listed b.listed level in
                (bar, g, ap (λ x. same_values is_close x.values item.values) r ∙ agree)
          ]

      settled : Settled
      settled =
          elim (Option-cases
            (row_after is_close (origin_at c now) day item (Dict.get (latest_of c s) day))) [
              | inl h ↦ settled_same h
              | inr (a, h) ↦ settled_new a h
            ]

    -- Where the source is known and a refused insert is skipped, the frame has one item for each day, all
    -- in the window, the values of each item agree with themselves, so that none of them is NaN, and
    -- no bar of the entity in the window is known later than now, a second synchronisation with the
    -- same frame, at any time, writes nothing.
    pub sync_daily_bar_twice :
        (n : ℕ) × (s' : t.State) × (sync_at c now s ≡ ok (result c n, s'))
        × ((later : ℕ) → sync_at c later s' ≡ ok (result c 0, s'))
    unfolding sync_daily_bar append_rows
    sync_daily_bar_twice =
        let (n, s', e, made) = sync_runs c skips named now s in
        (n, s', e, λ later. rw named (rw (nothing_new n s' made later) refl))
      where
        nothing_new :
            (n : ℕ) (s' : t.State)
            → Appended t (written_at c now s) s n s'
            → (later : ℕ) → written_at c later s' ≡ []
        nothing_new n s' made later =
            new_rows-nil is_close (origin_at c later) (latest_of c s') frame.items
              (λ item m. from item m item.date refl)
          where
            from :
                (item : Item V)
                → In item frame.items
                → (d : Option ℕ) → item.date ≡ d
                → row_of is_close (origin_at c later) (latest_of c s') item ≡ none
            from item m none e = unfold row_of in rw e refl
            from item m (some day) e =
                let (bar, g, agree) = settled s' n made item day m e in
                unfold row_of in rw e (rw g (unfold row_after in rw agree refl))
