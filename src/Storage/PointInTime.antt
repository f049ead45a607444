-- ===== src/Storage/PointInTime.antt =====
-- What the queries of readers.py return.
use fin_data_hub.Prelude.{
  ℕ, suc, ◌≤◌, ◌<◌, ◌≡◌, refl, sym, ap, ◌∙◌, ◌⊎◌, inl, inr, Bool, true, false, ◌&&◌, List, [], ◌∷◌,
  arith, ◌==◌, nat_eq, Eq, leb, Bool-cases, In, In-filter, In-of_filter, filter, count, ==→≡, ≡→==,
  ==-refl, none, some, Option-cases, subst, ◌↔◌,
}
use fin_data_hub.Prelude.Max.{IsRank, max?, max?_lem, max?-none}
use fin_data_hub.Storage.Readers.{Columns, is_newer, precedes, ranked, first_rows, as_of_query}

count-zero :
    {A : Type 0} (p : A → Bool) (xs : List A) (a : A) → count p xs ≡ 0 → In a xs → p a ≡ false
unfolding count
count-zero p [] a h m = absurd m
count-zero p (x ∷ xs) a h (inl e) = ap p e ∙ ground arith
count-zero p (x ∷ xs) a h (inr m) = count-zero p xs a (ground arith) m

count_none :
    {A : Type 0} (p : A → Bool) (xs : List A) → ((a : A) → In a xs → p a ≡ false) → count p xs ≡ 0
unfolding count
count_none p [] h = refl
count_none p (x ∷ xs) h = ground (arith, h x (inl refl), count_none p xs (λ a m. h a (inr m)))

module _ {R K : Type 0} ⦃e : Eq K⦄ (c : Columns R K) where
  -- Nothing of the row's key is newer.
  abbrev pub IsNewest : List R → R → Type 0
  IsNewest rows row =
      (other : R) → In other rows → c.key other ≡ c.key row → is_newer c other row ≡ false

  IsNewest-ranked : (rows : List R) (row : R) → ranked c rows row ≡ 1 → IsNewest rows row
  unfolding ranked precedes
  IsNewest-ranked rows row h other m same = ground (
    arith,
    count-zero (precedes c row) rows other (omega arith) m,
    ≡→== (c.key other) (c.key row),
  )

  ranked-IsNewest : (rows : List R) (row : R) → IsNewest rows row → ranked c rows row ≡ 1
  unfolding ranked precedes
  ranked-IsNewest rows row h = ap suc (
      count_none (precedes c row) rows (λ other m. elim (Bool-cases (c.key other == c.key row)) [
        | inl same ↦ ground (arith, h other m (==→≡ (c.key other) (c.key row) same))
        | inr differs ↦ rw differs refl
      ]))

  In-first_rows :
      (rows : List R) (row : R) → In row rows → IsNewest rows row → In row (first_rows c rows)
  In-first_rows rows row m h =
      In-filter (λ r. ranked c rows r == 1) row rows m (rw (ranked-IsNewest rows row h) refl)

  first_rows-In :
      (rows : List R) (row : R) → In row (first_rows c rows) → In row rows × IsNewest rows row
  first_rows-In rows row m =
      let (n, h) = In-of_filter (λ r. ranked c rows r == 1) row rows m in
      (n, IsNewest-ranked rows row (==→≡ (ranked c rows row) 1 h))

  older : R → R → Bool
  older a b = is_newer c b a

  older-IsRank : IsRank older
  unfolding older is_newer
  older-IsRank = record { asym = λ a b h. ground arith; chain = λ a b d h k. ground arith }

  -- of the rows of one key, some row is the newest
  top_of_key :
      (rows : List R) (row : R)
      → In row rows
      → (m : R) × In m rows × (c.key m ≡ c.key row) × IsNewest rows m
  top_of_key rows row n = from (Option-cases (max? older same))
    where
      same : List R
      same = filter (λ r. c.key r == c.key row) rows

      from :
          (max? older same ≡ none) ⊎ ((m : R) × (max? older same ≡ some m))
          → (m : R) × In m rows × (c.key m ≡ c.key row) × IsNewest rows m
      from (inl h) = absurd (
          subst (In row) (max?-none older same h)
            (In-filter (λ r. c.key r == c.key row) row rows n (==-refl (c.key row))))
      from (inr (m, h)) =
          let (i, above) = max?_lem older older-IsRank same m h in
          let (j, e) = In-of_filter (λ r. c.key r == c.key row) m rows i in
          let p = ==→≡ (c.key m) (c.key row) e in
          (
            m,
            j,
            p,
            λ other k q.
                unfold older in
                above other (
                  In-filter (λ r. c.key r == c.key row) other rows k
                    (≡→== (c.key other) (c.key row) (q ∙ p))),
          )

  module _ (as_of : ℕ) (passes : R → Bool) where
    -- A row that was known at the time, and passes the filters.
    abbrev pub IsVisible : List R → R → Type 0
    IsVisible rows row = In row rows × (c.knowledge row ≤ as_of) × (passes row ≡ true)

    -- The newest visible row of its key.
    pub record IsCurrent (rows : List R) (row : R) : Type 0 where
      pub visible : IsVisible rows row
      pub newest :
          (other : R)
          → IsVisible rows other
          → c.key other ≡ c.key row
          → is_newer c other row ≡ false

    visible_rows : List R → List R
    visible_rows rows = filter (λ row. leb (c.knowledge row) as_of && passes row) rows

    In-visible_rows : (rows : List R) (row : R) → In row (visible_rows rows) ↔ IsVisible rows row
    unfolding visible_rows
    In-visible_rows rows row = (
      λ m.
          let (n, h) = In-of_filter (λ r. leb (c.knowledge r) as_of && passes r) row rows m in
          (n, ground arith, ground arith),
      λ (n, h, p). In-filter (λ r. leb (c.knowledge r) as_of && passes r) row rows n (ground arith),
    )

    pub In-as_of_query :
        (rows : List R) (row : R) → In row (as_of_query c as_of passes rows) ↔ IsCurrent rows row
    unfolding as_of_query visible_rows
    In-as_of_query rows row = (
      λ m.
          let (n, h) = first_rows-In (visible_rows rows) row m in
          record {
            visible = (In-visible_rows rows row).0 n;
            newest = λ other v e. h other ((In-visible_rows rows other).1 v) e;
          },
      λ current.
          In-first_rows (visible_rows rows) row ((In-visible_rows rows row).1 current.visible)
            (λ other m e. current.newest other ((In-visible_rows rows other).0 m) e),
    )

    -- A read at a time returns exactly the newest of the rows known by then that pass the filters, by
    -- knowledge time and version; one for each key that has such a row, and of one key only rows that
    -- agree in both.
    pub as_of_query_lem :
        (rows : List R)
        → ((row : R) → In row (as_of_query c as_of passes rows) ↔ IsCurrent rows row)
          × ((row : R)
              → IsVisible rows row
              → (found : R) × In found (as_of_query c as_of passes rows)
                × (c.key found ≡ c.key row))
          × ((a b : R)
              → In a (as_of_query c as_of passes rows)
              → In b (as_of_query c as_of passes rows)
              → c.key a ≡ c.key b
              → (c.knowledge a ≡ c.knowledge b) × (c.version a ≡ c.version b))
    as_of_query_lem rows = (
      In-as_of_query rows,
      λ row v.
          let (m, n, e, newest) =
            top_of_key (visible_rows rows) row ((In-visible_rows rows row).1 v) in
          (m, unfold as_of_query visible_rows in In-first_rows (visible_rows rows) m n newest, e),
      λ a b m n e.
          let p = (In-as_of_query rows a).0 m in
          let q = (In-as_of_query rows b).0 n in
          let f = p.newest b q.visible (sym e) in
          let g = q.newest a p.visible e in unfold is_newer in (ground arith, ground arith),
    )

    -- Rows of a key that become known later do not change what is read of it.
    pub as_of_query-append :
        (rows new rows' : List R) (row : R)
        → ((a : R) → In a rows' ↔ (In a new ⊎ In a rows))
        → ((a : R) → In a new → c.key a ≡ c.key row → as_of < c.knowledge a)
        → In row (as_of_query c as_of passes rows') ↔ In row (as_of_query c as_of passes rows)
    as_of_query-append rows new rows' row same late = (
      λ m.
          let p = (In-as_of_query rows' row).0 m in
          (In-as_of_query rows row).1 (record {
            visible = before row p.visible refl;
            newest = λ other (n, k, t) e. p.newest other ((same other).1 (inr n), k, t) e;
          }),
      λ m.
          let p = (In-as_of_query rows row).0 m in
          let (n, k, t) = p.visible in
          (In-as_of_query rows' row).1 (record {
            visible = ((same row).1 (inr n), k, t);
            newest = λ other v e. p.newest other (before other v e) e;
          }),
    )
      where
        before : (a : R) → IsVisible rows' a → c.key a ≡ c.key row → IsVisible rows a
        before a (n, k, t) e = elim ((same a).0 n) [
          | inl new_row ↦ absurd (omega (arith, late a new_row e))
          | inr old ↦ (old, k, t)
        ]
