-- ===== src/Registry/History/Methods.antt =====
-- The methods of `EntityRegistry` (registry/service.py) as sequences of writes, and every history of
-- calls.
use fin_data_hub.Prelude.{
  ℕ, String, ◌+◌, ◌-◌, ◌≡◌, refl, sym, ap, ◌∙◌, subst, inl, inr, Bool, true, false, List, [], ◌∷◌,
  Option, none, some, arith, ◌==◌, nat_eq, In, In-of_filter, Bool-cases, eqb_iff,
}
use fin_data_hub.Prelude.Dict
use fin_data_hub.Prelude.Dict.{Dict}
use fin_data_hub.Runtime.Result.{Result, ok, raise, >>=-ok}
use fin_data_hub.Registry.Models.{
  entity_types, entity_classes, markets, social_statuses, EntityRecord, CodeHistoryRecord, is_open,
}
use fin_data_hub.Registry.Repository.{listed, RegistryRepo, entity_rows, append_code, code_history}
use fin_data_hub.Registry.Rows.{
  Change, next_version, changed_row, append_row, close_row, current_row, covering_row,
}
use fin_data_hub.Registry.Codes.{
  closed_code, close_code, close_codes, add_code_change, date_or_raise, new_code, resolve,
}
use fin_data_hub.Registry.Register.{
  Registration, Registered, facet, status_of, create, refresh, refreshed, has_updates,
  from_same_day, write_if, issuer_only, register_at, register_or_refresh,
}
use fin_data_hub.Registry.Names.{
  runs_past, resume_name, close_previous, resume, new_name, announced, add_name_change,
}
use fin_data_hub.Registry.AsOf.{In-current_row}
use fin_data_hub.Registry.History.Sound.{Writes-In}
use fin_data_hub.Registry.History.{adds_row, adds_code, founds, links, Writes, start, then_write}

module _ (o r : RegistryRepo) (before : Writes o r) where
  append_row-Writes :
      (base : EntityRecord) (change : Change) (now : ℕ) (row : EntityRecord) (r' : RegistryRepo)
      → append_row base change now r ≡ ok (row, r')
      → Writes o r'
  unfolding append_row
  append_row-Writes base change now row r' h =
      let (v, p, q) = >>=-ok (next_version base.entity_id r) h in
      then_write before (adds_row (changed_row base change now v) p (ground (arith, q)))

  close_row-Writes :
      (row : EntityRecord) (valid_to : Option ℕ) (now : ℕ) (r' : RegistryRepo)
      → close_row row valid_to now r ≡ ok r'
      → Writes o r'
  unfolding close_row
  close_row-Writes row valid_to now r' h =
      let (v, p, q) = >>=-ok (next_version row.entity_id r) h in
      then_write before (
        adds_row (record row { valid_to = valid_to; knowledge_time = now; version = v }) p
          (ground (arith, q)))

  create-Writes :
      (a : Registration) (now : ℕ) (row : EntityRecord) (r' : RegistryRepo)
      → create a now r ≡ ok (row, r')
      → Writes o r'
  unfolding create
  create-Writes a now row r' h =
      let (t, p, h1) = >>=-ok (facet entity_types (some a.entity_type)) h in
      let (c, p1, h2) = >>=-ok (facet entity_classes a.entity_class) h1 in
      let (m, p2, h3) = >>=-ok (facet markets a.market) h2 in
      let (s, p3, h4) = >>=-ok (facet social_statuses a.social_status) h3 in
      let (status, p4, h5) = >>=-ok (status_of a.entity_type a.social_status) h4 in
      then_write before (founds a status now (ap (λ x. out x (row, r')) h5))
    where
      out : Result (EntityRecord × RegistryRepo) → EntityRecord × RegistryRepo → RegistryRepo
      out (ok x) d = x.1
      out (raise e) d = d.1

  write_if-Writes :
      (b : Bool) (a : Registration) (row : EntityRecord) (now : ℕ) (changed : Bool)
      (r' : RegistryRepo)
      → write_if b a row now r ≡ ok (changed, r')
      → Writes o r'
  unfolding write_if
  write_if-Writes true a row now changed r' h =
      let ((new, s), p, q) = >>=-ok (append_row (refreshed a row) (from_same_day row) now r) h in
      append_row-Writes (refreshed a row) (from_same_day row) now new r' (p ∙ ground (arith, q))
  write_if-Writes false a row now changed r' h = subst (Writes o) (ground arith) before

  refresh-Writes :
      (id : ℕ) (a : Registration) (now : ℕ) (changed : Bool) (r' : RegistryRepo)
      → refresh id a now r ≡ ok (changed, r')
      → Writes o r'
  unfolding refresh
  refresh-Writes id a now changed r' h =
      let (row, p, h1) = >>=-ok (current_row id r) h in
      let (c, p1, h2) = >>=-ok (facet entity_classes a.entity_class) h1 in
      let (m, p2, h3) = >>=-ok (facet markets a.market) h2 in
      let (s, p3, h4) = >>=-ok (facet social_statuses a.social_status) h3 in
      let (u, p4, h5) = >>=-ok (issuer_only a.social_status row) h4 in
      write_if-Writes (has_updates a row) a row now changed r' h5

  close_previous-Writes :
      (day : ℕ) (previous : Option EntityRecord) (now : ℕ) (r' : RegistryRepo)
      → close_previous day previous now r ≡ ok r'
      → Writes o r'
  unfolding close_previous
  close_previous-Writes day none now r' h = subst (Writes o) (ground arith) before
  close_previous-Writes day (some row) now r' h = elim (Bool-cases (runs_past day row.valid_to)) [
    | inl past ↦ close_row-Writes row (some day) now r' (ground arith)
    | inr over ↦ subst (Writes o) (ground arith) before
  ]

  resume-Writes :
      (current : EntityRecord) (name : String) (end : Option ℕ) (now : ℕ) (r' : RegistryRepo)
      → resume current name end now r ≡ ok r'
      → Writes o r'
  unfolding resume
  resume-Writes current name none now r' h = subst (Writes o) (ground arith) before
  resume-Writes current name (some end) now r' h =
      let ((row, s), p, q) =
        >>=-ok (append_row current (new_name name (end + 1) none []) now r) h in
      append_row-Writes current (new_name name (end + 1) none []) now row r' (p ∙ ground (arith, q))

  -- `register` and `register_issuer`
  pub register_or_refresh-Writes :
      (a : Registration) (now : ℕ) (done : Registered)
      → register_or_refresh a now r ≡ ok done
      → Writes o done.repo
  unfolding register_or_refresh
  register_or_refresh-Writes a now done h = from (resolve a.code none r) h
    where
      from : (at : Option ℕ) → register_at at a now r ≡ ok done → Writes o done.repo
      from none e =
          let ((row, s), p, q) = >>=-ok (create a now r) (unfold register_at in e) in
          create-Writes a now row done.repo (p ∙ ground (arith, q))
      from (some id) e =
          let ((changed, s), p, q) = >>=-ok (refresh id a now r) (unfold register_at in e) in
          let (row, p', q') = >>=-ok (current_row id s) q in
          refresh-Writes id a now changed done.repo (p ∙ ground (arith, q'))

-- What each call leaves is reached from `r` by writes.
module _ (r : RegistryRepo) where
  pub add_name_change-Writes :
      (id : ℕ) (name : String) (start_date end : Option ℕ) (ann_date : Option String)
      (closed_at appended_at resumed_at : ℕ) (r' : RegistryRepo)
      → add_name_change id name start_date end ann_date closed_at appended_at resumed_at r ≡ ok r'
      → Writes r r'
  unfolding add_name_change
  add_name_change-Writes id name start_date end ann_date closed_at appended_at resumed_at r' h =
      let (day, p, h1) = >>=-ok (date_or_raise start_date) h in
      let previous = covering_row id (some (day - 1)) r in
      let (old, p1, h2) = >>=-ok (resume_name id previous r) h1 in
      let (s, p2, h3) = >>=-ok (close_previous (day - 1) previous closed_at r) h2 in
      let (current, p3, h4) = >>=-ok (current_row id s) h3 in
      let ((row, t), p4, h5) =
        >>=-ok (append_row current (new_name name day end (announced ann_date)) appended_at s) h4 in
      let closed = close_previous-Writes r r start (day - 1) previous closed_at s p2 in
      let named =
        append_row-Writes r s closed current (new_name name day end (announced ann_date))
          appended_at row t p4 in
      resume-Writes r t named current old end resumed_at r' h5

  close_code-Writes :
      (id : ℕ) (row : EntityRecord) (day : Option ℕ) (now : ℕ) (entry : CodeHistoryRecord)
      (s : RegistryRepo)
      → entry.entity_id ≡ id
      → In row (entity_rows id s)
      → Writes r s
      → Writes r (close_code day now entry s)
        × (entity_rows id (close_code day now entry s) ≡ entity_rows id s)
  unfolding close_code append_code entity_rows
  close_code-Writes id row day now entry s own m before =
      elim (Bool-cases (is_open entry.valid_to)) [
        | inr shut ↦
            let q : close_code day now entry s ≡ s = rw shut in
            subst (λ t. Writes r t × (entity_rows id t ≡ entity_rows id s)) (sym q) (before, refl)
        | inl open_entry ↦
            let q : close_code day now entry s ≡ append_code (closed_code day now entry) s =
              rw open_entry in
            subst (λ t. Writes r t × (entity_rows id t ≡ entity_rows id s)) (sym q)
              (
                then_write before (
                    adds_code (closed_code day now entry) row
                      (subst (λ k. In row (entity_rows k s)) (sym own) m) refl),
                refl,
              )
      ]

  close_codes-Writes :
      (id : ℕ) (row : EntityRecord) (day : Option ℕ) (clock : ℕ → ℕ)
      (entries : List CodeHistoryRecord) (i : ℕ) (s : RegistryRepo)
      → ((entry : CodeHistoryRecord) → In entry entries → entry.entity_id ≡ id)
      → In row (entity_rows id s)
      → Writes r s
      → Writes r (close_codes day clock entries i s)
  unfolding close_codes
  close_codes-Writes id row day clock [] i s own m before = before
  close_codes-Writes id row day clock (entry ∷ entries) i s own m before =
      let (w, same) =
        close_code-Writes id row day (clock i) entry s (own entry (inl refl)) m before in
      close_codes-Writes id row day clock entries (i + 1) (close_code day (clock i) entry s)
        (λ x n. own x (inr n)) (subst (In row) (sym same) m) w

  entity_rows-close_codes :
      (id : ℕ) (day : Option ℕ) (clock : ℕ → ℕ) (entries : List CodeHistoryRecord) (i : ℕ)
      (s : RegistryRepo)
      → (close_codes day clock entries i s).rows ≡ s.rows
  unfolding close_codes close_code append_code
  entity_rows-close_codes id day clock [] i s = refl
  entity_rows-close_codes id day clock (entry ∷ entries) i s =
      entity_rows-close_codes id day clock entries (i + 1) (close_code day (clock i) entry s)
      ∙ ground (arith)

  pub add_code_change-Writes :
      (id : ℕ) (code : String) (start_date : Option ℕ) (clock : ℕ → ℕ)
      (closed_at coded_at appended_at : ℕ) (r' : RegistryRepo)
      → add_code_change id code start_date clock closed_at coded_at appended_at r ≡ ok r'
      → Writes r r'
  unfolding add_code_change
  add_code_change-Writes id code start_date clock closed_at coded_at appended_at r' h =
      let (day, p, h1) = >>=-ok (date_or_raise start_date) h in
      let closed = close_codes (some (day - 1)) clock (code_history id r) 0 r in
      let (current, p1, h2) = >>=-ok (current_row id closed) h1 in
      let (ended, p2, h3) = >>=-ok (close_row current (some (day - 1)) closed_at closed) h2 in
      let entry : CodeHistoryRecord = record {
        entity_id = id;
        code = code;
        valid_from = some day;
        valid_to = none;
        knowledge_time = coded_at;
        version = 1;
      } in
      let ((row, done), p3, q) =
        >>=-ok (append_row current (new_code code day) appended_at (append_code entry ended)) h3 in
      let m = known current closed day p1 refl in
      let w =
        close_codes-Writes id current (some (day - 1)) clock (code_history id r) 0 r own m start in
      let w' = close_row-Writes r closed w current (some (day - 1)) closed_at ended p2 in
      let w'' : Writes r (append_code entry ended) =
        then_write w' (adds_code entry current (Writes-In r ended w' id current m) refl) in
      append_row-Writes r (append_code entry ended) w'' current (new_code code day) appended_at row
        r' (p3 ∙ ground (arith, q))
    where
      own : (entry : CodeHistoryRecord) → In entry (code_history id r) → entry.entity_id ≡ id
      own entry m =
          (eqb_iff entry.entity_id id).0
            (In-of_filter (λ x. x.entity_id == id) entry r.codes (unfold code_history in m)).1

      known :
          (current : EntityRecord) (closed : RegistryRepo) (day : ℕ)
          → current_row id closed ≡ ok current
          → closed ≡ close_codes (some (day - 1)) clock (code_history id r) 0 r
          → In current (entity_rows id r)
      known current closed day p e =
          unfold entity_rows in
          subst (λ d. In current (listed (Dict.get d id)))
            (ap (λ t. t.rows) e
              ∙ entity_rows-close_codes id (some (day - 1)) clock (code_history id r) 0 r)
            (In-current_row id closed current p)

  pub link-Writes :
      (s : RegistryRepo) → s.rows ≡ r.rows → s.codes ≡ r.codes → s.next_id ≡ r.next_id → Writes r s
  link-Writes s rows codes ids = then_write start (links rows codes ids)
