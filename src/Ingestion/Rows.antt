-- ===== src/Ingestion/Rows.antt =====
-- The rows that the loop of `sync_daily_bar` in daily_bar.py appends.
use fin_data_hub.Prelude.{
  ℕ, ◌≡◌, refl, sym, ap, ◌∙◌, ◌⊎◌, inl, inr, Bool, true, false, List, [], ◌∷◌, Option, none, some,
  arith, nat_eq, In, subst, pair_eq, ==-refl,
}
use fin_data_hub.Prelude.Dict
use fin_data_hub.Prelude.Dict.{Dict}
use fin_data_hub.Ingestion.DailyBar.{
  DailyBar, same_bar, Item, same_values, same_value, Values, is_later, Origin, first_version,
  revision, row_after, row_on, row_of, add_row, new_rows,
}

module _ {V : Type 0} (is_close : V → V → Bool) (origin : Origin)
    (latest : Dict ℕ (DailyBar V)) where
  -- A row that the loop appends is that of an item with a date.
  pub record IsFrom (items : List (Item V)) (row : DailyBar V) : Type 0 where
    pub item : Item V
    pub listed : In item items
    pub dated : item.date ≡ some row.trade_date
    pub written :
        row_after is_close origin row.trade_date item (Dict.get latest row.trade_date) ≡ some row

  row_after_day :
      (day : ℕ) (item : Item V) (o : Option (DailyBar V)) (row : DailyBar V)
      → row_after is_close origin day item o ≡ some row
      → row.trade_date ≡ day
  unfolding row_after first_version revision
  row_after_day day item none row h = ground arith
  row_after_day day item (some prior) row h = ground arith

  pub new_rows-IsFrom :
      (items : List (Item V)) (row : DailyBar V)
      → In row (new_rows is_close origin latest items)
      → IsFrom items row
  unfolding new_rows
  new_rows-IsFrom [] row m = absurd m
  new_rows-IsFrom (item ∷ items) row m =
      from (row_of is_close origin latest item) refl m (new_rows-IsFrom items row)
    where
      later : IsFrom items row → IsFrom (item ∷ items) row
      later f = record {
        item = f.item;
        listed = inr f.listed;
        dated = f.dated;
        written = f.written;
      }

      here :
          (d : Option ℕ)
          → item.date ≡ d
          → row_on is_close origin latest item d ≡ some row
          → IsFrom (item ∷ items) row
      here none e h = absurd (ground arith)
      here (some day) e h =
          let p = row_after_day day item (Dict.get latest day) row h in
          record {
            item = item;
            listed = inl refl;
            dated = e ∙ ap some (sym p);
            written =
                subst (λ k. row_after is_close origin k item (Dict.get latest k) ≡ some row) (sym p)
                  h;
          }

      from :
          (o : Option (DailyBar V))
          → row_of is_close origin latest item ≡ o
          → In row (add_row is_close o (new_rows is_close origin latest items))
          → (In row (new_rows is_close origin latest items) → IsFrom items row)
          → IsFrom (item ∷ items) row
      from none e n ih = later (ih n)
      from (some r) e (inl p) ih = unfold row_of in here item.date refl (e ∙ ap some (sym p))
      from (some r) e (inr n) ih = later (ih n)

  pub In-new_rows :
      (items : List (Item V)) (item : Item V) (row : DailyBar V)
      → In item items
      → row_of is_close origin latest item ≡ some row
      → In row (new_rows is_close origin latest items)
  unfolding new_rows
  In-new_rows [] item row m h = absurd m
  In-new_rows (x ∷ items) item row (inl e) h =
      rw (ap (row_of is_close origin latest) (sym e) ∙ h) (inl refl)
  In-new_rows (x ∷ items) item row (inr m) h =
      from (row_of is_close origin latest x) (In-new_rows items item row m h)
    where
      from :
          (o : Option (DailyBar V))
          → In row (new_rows is_close origin latest items)
          → In row (add_row is_close o (new_rows is_close origin latest items))
      from none n = n
      from (some r) n = inr n

  -- who writes a row, and under which number
  pub row_after_lem :
      (day : ℕ) (item : Item V) (o : Option (DailyBar V)) (row : DailyBar V)
      → row_after is_close origin day item o ≡ some row
      → ((o ≡ none) × (row ≡ first_version is_close origin day item))
        ⊎ ((prior : DailyBar V) × (o ≡ some prior)
            × (row ≡ revision is_close origin day item prior))
  unfolding row_after
  row_after_lem day item none row h = inl (refl, ground arith)
  row_after_lem day item (some prior) row h = inr (prior, refl, ground arith)

  pub row_after_owner :
      (day : ℕ) (item : Item V) (o : Option (DailyBar V)) (row : DailyBar V)
      → row_after is_close origin day item o ≡ some row
      → (row.entity_id ≡ origin.entity_id) × (row.trade_date ≡ day)
  unfolding row_after first_version revision
  row_after_owner day item none row h = ground arith
  row_after_owner day item (some prior) row h = ground arith

  pub row_after_values :
      (day : ℕ) (item : Item V) (o : Option (DailyBar V)) (row : DailyBar V)
      → row_after is_close origin day item o ≡ some row
      → row.values ≡ item.values
  unfolding row_after first_version revision
  row_after_values day item none row h = ground arith
  row_after_values day item (some prior) row h = ground arith

  pub row_after-none :
      (day : ℕ) (item : Item V) (o : Option (DailyBar V))
      → row_after is_close origin day item o ≡ none
      → (prior : DailyBar V) × (o ≡ some prior)
        × (same_values is_close prior.values item.values ≡ true)
  unfolding row_after
  row_after-none day item none h = absurd (ground arith)
  row_after-none day item (some prior) h = (prior, refl, ground arith)

-- If no item gives a row, the loop appends none.
pub new_rows-nil :
    {V : Type 0} (is_close : V → V → Bool) (origin : Origin) (latest : Dict ℕ (DailyBar V))
    (items : List (Item V))
    → ((item : Item V) → In item items → row_of is_close origin latest item ≡ none)
    → new_rows is_close origin latest items ≡ []
unfolding new_rows
new_rows-nil is_close origin latest [] h = refl
new_rows-nil is_close origin latest (item ∷ items) h =
    rw (h item (inl refl)) (new_rows-nil is_close origin latest items (λ i m. h i (inr m)))

-- A bar has its own values and its own key.
pub same_values_refl :
    {V : Type 0} (is_close : V → V → Bool)
    → ((x : V) → is_close x x ≡ true)
    → (v : Values V) → same_values is_close v v ≡ true
unfolding same_values
same_values_refl {V} is_close close v =
    rw (own v.open_price, own v.high, own v.low, own v.close_price, own v.volume, own v.amount) refl
  where
    own : (o : Option V) → same_value is_close o o ≡ true
    own none = refl
    own (some x) = close x

pub same_bar_refl : {V : Type 0} (bar : DailyBar V) → same_bar bar bar ≡ true
same_bar_refl bar = ground (
  arith,
  ==-refl bar.entity_id,
  ==-refl bar.trade_date,
  ==-refl bar.knowledge_time,
  ==-refl bar.version,
)

pub same_bar_parts :
    {V : Type 0} (a b : DailyBar V)
    → same_bar a b ≡ true
    → (a.entity_id ≡ b.entity_id)
      × (a.trade_date ≡ b.trade_date)
      × (a.knowledge_time ≡ b.knowledge_time)
      × (a.version ≡ b.version)
same_bar_parts a b h = ground arith

-- Of two bars with one key neither is later.
pub is_later-same_bar : {V : Type 0} (a b : DailyBar V) → same_bar a b ≡ true → is_later a b ≡ false
unfolding is_later
is_later-same_bar a b h = ground arith

-- Of two bars of one entity and day, neither later than the other, the keys agree.
pub same_bar-level :
    {V : Type 0} (a b : DailyBar V)
    → a.entity_id ≡ b.entity_id
    → a.trade_date ≡ b.trade_date
    → is_later a b ≡ false
    → is_later b a ≡ false
    → same_bar a b ≡ true
unfolding is_later
same_bar-level a b o d h k = ground arith
