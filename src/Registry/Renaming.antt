-- ===== src/Registry/Renaming.antt =====
-- `add_name_change` of `EntityRegistry` (registry/service.py): the name at each date after a change.
use fin_data_hub.Prelude.{
  ℕ, String, ◌+◌, ◌-◌, ◌≤◌, ◌<◌, ◌≡◌, refl, sym, ap, ◌∙◌, subst, inl, inr, ◌⊎◌, Bool, true, false,
  List, [], ◌∷◌, ◌++◌, Option, none, some, arith, nat_eq, In, In-of_filter, filter, filter-append,
  Bool-cases, ==-refl,
}
use mathlib.Core.List.{append-nil}
use fin_data_hub.Prelude.Dict.{Dict}
use fin_data_hub.Prelude.Max.{max?, max?-last}
use fin_data_hub.Runtime.Result.{ok, >>=-ok}
use fin_data_hub.Registry.Models.{EntityRecord, covers, start_of, until}
use fin_data_hub.Registry.Repository.{RegistryRepo, entity_rows, append_entity}
use fin_data_hub.Registry.Rows.{
  Change, ranks_below, next_version, changed_row, append_row, close_row, current_row, covering_of,
  covering_row, name_as_of,
}
use fin_data_hub.Registry.Names.{
  resume_name, close_previous, runs_past, resume, new_name, announced, add_name_change,
}
use fin_data_hub.Registry.AsOf.{covering_row_lem, next_version_lem, In-current_row}
use fin_data_hub.Registry.History.{IsSound, In-last, entity_rows-append_entity, new_row-IsSound}

covers_at : ℕ → EntityRecord → Bool
covers_at d row = covers row.valid_from row.valid_to (some d)

module _ (d : ℕ) (rows : List EntityRecord) (row : EntityRecord) where
  -- The last row answers if it covers the date and nothing that covers it ranks as high.
  covering_of-last :
      covers row.valid_from row.valid_to (some d) ≡ true
      → ((x : EntityRecord)
          → In x rows
          → covers x.valid_from x.valid_to (some d) ≡ true
          → ranks_below x row ≡ true)
      → covering_of d (rows ++ row ∷ []) ≡ some row
  unfolding covering_of filter
  covering_of-last live below =
      ap (max? ranks_below)
        (filter-append (λ x. covers x.valid_from x.valid_to (some d)) rows (row ∷ []) ∙ rw live)
      ∙ max?-last ranks_below (filter (λ x. covers x.valid_from x.valid_to (some d)) rows) row
          (λ x m.
            let (n, c) = In-of_filter (λ y. covers y.valid_from y.valid_to (some d)) x rows m in
            below x n c)

  covering_of-skip :
      covers row.valid_from row.valid_to (some d) ≡ false
      → covering_of d (rows ++ row ∷ []) ≡ covering_of d rows
  unfolding covering_of filter
  covering_of-skip out = ap (max? ranks_below) (
      filter-append (λ x. covers x.valid_from x.valid_to (some d)) rows (row ∷ [])
      ∙ rw out (append-nil (filter (λ x. covers x.valid_from x.valid_to (some d)) rows)))

-- What one appended row does to the rows of its entity.
pub record IsAppended (id : ℕ) (s t : RegistryRepo) (row : EntityRecord) : Type 0 where
  pub rows : entity_rows id t ≡ entity_rows id s ++ row ∷ []
  pub newest : (x : EntityRecord) → In x (entity_rows id s) → x.version < row.version
  pub sound : IsSound t

module _ (id : ℕ) (s : RegistryRepo) (v : IsSound s) where
  written :
      (row : EntityRecord)
      → row.entity_id ≡ id
      → next_version row.entity_id s ≡ ok row.version
      → IsAppended id s (append_entity row s) row
  written row own h = record {
    rows = entity_rows-append_entity id row s ∙ rw (own, ==-refl id);
    newest = λ x m.
        (next_version_lem row.entity_id s row.version h).0 x
          (subst (λ k. In x (entity_rows k s)) (sym own) m);
    sound = new_row-IsSound s v row h;
  }

  pub append_row-IsAppended :
      (base : EntityRecord) (change : Change) (now : ℕ) (row : EntityRecord) (t : RegistryRepo)
      → base.entity_id ≡ id
      → append_row base change now s ≡ ok (row, t)
      → (n : ℕ) × (row ≡ changed_row base change now n) × IsAppended id s t row
  unfolding append_row
  append_row-IsAppended base change now row t own h =
      let (n, p, q) = >>=-ok (next_version base.entity_id s) h in
      let same : changed_row base change now n ≡ row = ground (arith, q) in
      let after : append_entity (changed_row base change now n) s ≡ t = ground (arith, q) in
      (
        n,
        sym same,
        subst (λ x. IsAppended id s t x) same
            (subst (λ u. IsAppended id s u (changed_row base change now n)) after
              (written (changed_row base change now n) (unfold changed_row in own)
                (unfold changed_row in p))),
      )

  -- Closing the row of the day before changes no answer from the next day on.
  close_previous_lem :
      (day : ℕ) (previous : Option EntityRecord) (now : ℕ) (t : RegistryRepo)
      → ((row : EntityRecord) → previous ≡ some row → row.entity_id ≡ id)
      → close_previous day previous now s ≡ ok t
      → IsSound t
        × ((x : EntityRecord)
            → In x (entity_rows id t)
            → In x (entity_rows id s) ⊎ (x.valid_to ≡ some day))
  unfolding close_previous close_row
  close_previous_lem day none now t own h =
      subst
        (λ u.
          IsSound u
          × ((x : EntityRecord)
              → In x (entity_rows id u)
              → In x (entity_rows id s) ⊎ (x.valid_to ≡ some day)))
        (ground (arith, h)) (v, λ x m. inl m)
  close_previous_lem day (some row) now t own h = elim (Bool-cases (runs_past day row.valid_to)) [
    | inr over ↦
        subst
          (λ u.
            IsSound u
            × ((x : EntityRecord)
                → In x (entity_rows id u)
                → In x (entity_rows id s) ⊎ (x.valid_to ≡ some day)))
          (ground (arith, h, over)) (v, λ x m. inl m)
    | inl past ↦
        let (n, p, q) = >>=-ok (next_version row.entity_id s) (rw past at h) in
        let shut : EntityRecord = record row {
          valid_to = some day;
          knowledge_time = now;
          version = n;
        } in
        let w = written shut (own row refl) p in
        let after : append_entity shut s ≡ t = ground (arith, q) in
        subst
          (λ u.
            IsSound u
            × ((x : EntityRecord)
                → In x (entity_rows id u)
                → In x (entity_rows id s) ⊎ (x.valid_to ≡ some day)))
          after
          (
            w.sound,
            λ x m. elim (In-last (entity_rows id s) x shut (subst (In x) w.rows m)) [
              | inl k ↦ inl k
              | inr e ↦ inr (ap (λ y. y.valid_to) e)
            ],
          )
  ]

covers-until :
    (d : ℕ) (row : EntityRecord) (t : ℕ)
    → row.valid_to ≡ some t
    → covers row.valid_from row.valid_to (some d) ≡ true
    → d ≤ t
unfolding covers
covers-until d row t e h = ground (arith, e, h)

-- The row that answers at `d` after the name change, by the new row and the row behind it.
module _ (id start d : ℕ) (name : String) (end : Option ℕ) (attrs_extra : Dict String String)
    (now : ℕ) (s : RegistryRepo) (v : IsSound s) (current : EntityRecord)
    (own : current.entity_id ≡ id) where
  named_lem :
      (row : EntityRecord) (t : RegistryRepo)
      → append_row current (new_name name start end attrs_extra) now s ≡ ok (row, t)
      → start ≤ d
      → until d end ≡ true
      → ((x : EntityRecord)
          → In x (entity_rows id s)
          → covers x.valid_from x.valid_to (some d) ≡ true
          → start_of x.valid_from ≤ start)
      → IsSound t × (covering_row id (some d) t ≡ some row) × (row.name ≡ name)
  unfolding covering_row
  named_lem row t h after within none_later =
      let (n, e, w) =
        append_row-IsAppended id s v current (new_name name start end attrs_extra) now row t own
          h in
      (
        w.sound,
        ap (covering_of d) w.rows
            ∙ covering_of-last d (entity_rows id s) row
                (subst (λ x. covers x.valid_from x.valid_to (some d) ≡ true) (sym e)
                  (unfold covers changed_row in ground (arith, within)))
                (λ x m c.
                  let older = w.newest x m in
                  let early = none_later x m c in
                  let first : start_of row.valid_from ≡ start =
                    ap (λ x. start_of x.valid_from) e ∙ (unfold changed_row in refl) in
                  unfold ranks_below in ground (arith)),
        ap (λ x. x.name) e ∙ (unfold changed_row in refl),
      )

  -- A row that starts after the date changes no answer.
  later_row_lem :
      (row : EntityRecord) (t : RegistryRepo)
      → append_row current (new_name name start end attrs_extra) now s ≡ ok (row, t)
      → d < start
      → covering_row id (some d) t ≡ covering_row id (some d) s
  unfolding covering_row
  later_row_lem row t h early =
      let (n, e, w) =
        append_row-IsAppended id s v current (new_name name start end attrs_extra) now row t own
          h in
      ap (covering_of d) w.rows
      ∙ covering_of-skip d (entity_rows id s) row (
          subst (λ x. covers x.valid_from x.valid_to (some d) ≡ false) (sym e)
            (unfold covers changed_row in ground arith))

resume_lem :
    (id d : ℕ) (name : String) (end : Option ℕ) (now : ℕ) (s : RegistryRepo) (v : IsSound s)
    (current : EntityRecord) (r' : RegistryRepo)
    → current.entity_id ≡ id
    → until d end ≡ true
    → resume current name end now s ≡ ok r'
    → covering_row id (some d) r' ≡ covering_row id (some d) s
unfolding resume
resume_lem id d name none now s v current r' own within h =
    ap (covering_row id (some d)) (ground (arith, h))
resume_lem id d name (some end) now s v current r' own within h =
    let ((row, t), p, q) = >>=-ok (append_row current (new_name name (end + 1) none []) now s) h in
    ap (covering_row id (some d)) (ground (arith, q))
    ∙ later_row_lem id (end + 1) d name none [] now s v current own row t p (ground (arith, within))

-- After a change of name from `start` to `end`, each date in that range answers with the new name,
-- unless a row that starts later already covers the date. All else in the row that answers is what the
-- current row had when the change was written, whatever the date.
pub add_name_change_lem :
    (id start d : ℕ) (name : String) (end : Option ℕ) (ann_date : Option String)
    (closed_at appended_at resumed_at : ℕ) (r r' : RegistryRepo)
    → IsSound r
    → add_name_change id name (some start) end ann_date closed_at appended_at resumed_at r ≡ ok r'
    → 1 ≤ start
    → start ≤ d
    → until d end ≡ true
    → ((x : EntityRecord)
        → In x (entity_rows id r)
        → covers x.valid_from x.valid_to (some d) ≡ true
        → start_of x.valid_from ≤ start)
    → (name_as_of id (some d) r' ≡ some name)
      × (s : RegistryRepo) × (current : EntityRecord) × (n : ℕ) × (close_previous
            (start - 1)
            (covering_row id (some (start - 1)) r)
            closed_at
            r
          ≡ ok s)
      × (current_row id s ≡ ok current)
      × (covering_row id (some d) r'
          ≡ some (changed_row current (new_name name start end (announced ann_date)) appended_at n))
unfolding add_name_change name_as_of
add_name_change_lem id start d name end ann_date closed_at appended_at resumed_at r r' v h day after
      within none_later =
    let previous = covering_row id (some (start - 1)) r in
    let (old, p1, h2) = >>=-ok (resume_name id previous r) h in
    let (s, p2, h3) = >>=-ok (close_previous (start - 1) previous closed_at r) h2 in
    let (current, p3, h4) = >>=-ok (current_row id s) h3 in
    let ((row, t), p4, h5) =
      >>=-ok (append_row current (new_name name start end (announced ann_date)) appended_at s) h4 in
    let (sound, kept) =
      close_previous_lem id r v (start - 1) previous closed_at s
        (λ x e. v.keyed id x ((covering_row_lem id (start - 1) r).0 x e).0) p2 in
    let own = sound.keyed id current (In-current_row id s current p3) in
    let (n, e, w) =
      append_row-IsAppended id s sound current (new_name name start end (announced ann_date))
        appended_at row t own p4 in
    let (sound', answer, named) =
      named_lem id start d name end (announced ann_date) appended_at s sound current own row t p4
        after within
        (λ x m c. elim (kept x m) [
          | inl k ↦ none_later x k c
          | inr shut ↦ let early = covers-until d x (start - 1) shut c in absurd (omega arith)
        ]) in
    let final : covering_row id (some d) r' ≡ some row =
      resume_lem id d old end resumed_at t sound' current r' own within h5 ∙ answer in
    (ground (arith, final, named), s, current, n, p2, p3, final ∙ ap some e)
