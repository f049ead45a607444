-- ===== src/Registry/Idempotence/Twice.antt =====
-- A second call of `_register_or_refresh` (registry/service.py) with the same arguments.
use fin_data_hub.Prelude.{
  ℕ, String, ◌≡◌, refl, sym, ap, ◌∙◌, subst, Bool, true, false, Option, none, some, nat_eq,
  string_eq, option_eq, ==-refl,
}
use fin_data_hub.Runtime.Result.{Result, ok, >>=-ok}
use fin_data_hub.Registry.Models.{
  EntityRecord, entity_types, entity_classes, markets, social_statuses, start_of,
}
use fin_data_hub.Registry.Repository.{RegistryRepo, next_entity_id}
use fin_data_hub.Registry.Rows.{current_row, changed_row, append_row}
use fin_data_hub.Registry.Codes.{resolve}
use fin_data_hub.Registry.Register.{
  Registration, Registered, facet, status_of, new_row, insert_entity, create, refreshed,
  has_updates, issuer_only, from_same_day, write_if, refresh, register_at, register_or_refresh,
}
use fin_data_hub.Registry.AsOf.{In-current_row}
use fin_data_hub.Registry.History.{IsSound}
use fin_data_hub.Registry.History.Sound.{entity_rows-insert_entity, entity_rows-fresh}
use fin_data_hub.Registry.Renaming.{append_row-IsAppended}
use fin_data_hub.Registry.Idempotence.{resolve-insert_entity}
use fin_data_hub.Registry.Idempotence.Updates.{
  got, given_date_self, same_type, append_row-codes, resolve-codes, current_row-append,
  current_row-single, has_updates-new, has_updates-refreshed, status_suits, refresh_idle,
}

module _ (a : Registration) where
  -- The row, the repository and the two flags of a second call.
  module _ (now later : ℕ) (r : RegistryRepo) (v : IsSound r) where
    twice_created :
        (done : Registered)
        → resolve a.code none r ≡ none
        → register_at none a now r ≡ ok done
        → register_or_refresh a later done.repo
          ≡ ok (record { row = done.row; created = false; updated = false; repo = done.repo })
    unfolding register_at create register_or_refresh next_entity_id
    twice_created done unknown h =
        let ((row, t), p, q) = >>=-ok (create a now r) h in
        let (x, p1, h1) = >>=-ok (facet entity_types (some a.entity_type)) p in
        let (c, p2, h2) = >>=-ok (facet entity_classes a.entity_class) h1 in
        let (m, p3, h3) = >>=-ok (facet markets a.market) h2 in
        let (s, p4, h4) = >>=-ok (facet social_statuses a.social_status) h3 in
        let (status, p5, h5) = >>=-ok (status_of a.entity_type a.social_status) h4 in
        let same_row : new_row r.next_id a status now ≡ done.row =
          unfold insert_entity in
          ap (λ (x : Result (EntityRecord × RegistryRepo)). (got (row, t) x).0) h5
          ∙ ap (λ (x : Result Registered). (got done x).row) q in
        let same_repo : (insert_entity a status now r).1 ≡ done.repo =
          ap (λ (x : Result (EntityRecord × RegistryRepo)). (got (row, t) x).1) h5
          ∙ ap (λ (x : Result Registered). (got done x).repo) q in
        subst
          (λ u.
            register_at (resolve a.code none u) a later u
            ≡ ok (record { row = done.row; created = false; updated = false; repo = u }))
          same_repo
          (subst
            (λ w.
              register_at (resolve a.code none (insert_entity a status now r).1) a later
                (insert_entity a status now r).1
              ≡ ok (record {
                row = w;
                created = false;
                updated = false;
                repo = (insert_entity a status now r).1;
              }))
            same_row
            (ap (λ k. register_at k a later (insert_entity a status now r).1)
                (resolve-insert_entity a status now r unknown)
              ∙ refresh_idle a r.next_id later (insert_entity a status now r).1
                  (new_row r.next_id a status now) c m s
                  (current_row-single r.next_id (insert_entity a status now r).1
                    (new_row r.next_id a status now)
                    (entity_rows-insert_entity r a status now r.next_id
                      ∙ rw (==-refl r.next_id, entity_rows-fresh r a status now v) refl)
                    (unfold new_row in refl))
                  p2 p3 p4
                  (status_suits a a.social_status status (new_row r.next_id a status now)
                    (unfold new_row in p5))
                  (has_updates-new a r.next_id now status p5)))

    written_twice :
        (id : ℕ) (row new : EntityRecord) (t : RegistryRepo) (c m s : Option String)
        → current_row id r ≡ ok row
        → facet entity_classes a.entity_class ≡ ok c
        → facet markets a.market ≡ ok m
        → facet social_statuses a.social_status ≡ ok s
        → issuer_only a.social_status row ≡ ok tt
        → append_row (refreshed a row) (from_same_day row) now r ≡ ok (new, t)
        → register_at (some id) a later t
            ≡ ok (record { row = new; created = false; updated = false; repo = t })
          × (current_row id t ≡ ok new)
    unfolding append_row
    written_twice id row new t c m s p p1 p2 p3 p4 h =
        let own = v.keyed id row (In-current_row id r row p) in
        let (n, e, w) =
          append_row-IsAppended id r v (refreshed a row) (from_same_day row) now new t
            (unfold refreshed in own) h in
        let current =
          current_row-append id r t row new p w.rows
            (ap (λ x. x.valid_to) e ∙ (unfold changed_row in refl))
            (ap (λ x. start_of x.valid_from) e
              ∙ (unfold changed_row refreshed in ap start_of (given_date_self row.valid_from)))
            w.newest in
        (
          refresh_idle a id later t new c m s current p1 p2 p3
              (subst (λ x. issuer_only a.social_status x ≡ ok tt) (sym e)
                (same_type a.social_status row
                  (changed_row (refreshed a row) (from_same_day row) now n)
                  (unfold changed_row refreshed in refl) p4))
              (subst (λ x. has_updates a x ≡ false) (sym e) (has_updates-refreshed a row now n)),
          current,
        )

    settled :
        (id : ℕ) (row new : EntityRecord) (t : RegistryRepo) (c m s : Option String)
        (changed : Bool)
        → current_row id r ≡ ok row
        → facet entity_classes a.entity_class ≡ ok c
        → facet markets a.market ≡ ok m
        → facet social_statuses a.social_status ≡ ok s
        → issuer_only a.social_status row ≡ ok tt
        → (b : Bool) → has_updates a row ≡ b
        → write_if b a row now r ≡ ok (changed, t)
        → current_row id t ≡ ok new
        → (register_at (some id) a later t
            ≡ ok (record { row = new; created = false; updated = false; repo = t }))
          × (t.codes ≡ r.codes)
    unfolding write_if
    settled id row new t c m s changed p p1 p2 p3 p4 false idle h q =
        let same : r ≡ t = ap (λ (x : Result (Bool × RegistryRepo)). (got (changed, t) x).1) h in
        let current : row ≡ new =
          ap (λ (x : Result EntityRecord). got new x) (sym p ∙ (ap (current_row id) same ∙ q)) in
        (
          subst
              (λ u.
                register_at (some id) a later u
                ≡ ok (record { row = new; created = false; updated = false; repo = u }))
              same
              (subst
                (λ w.
                  register_at (some id) a later r
                  ≡ ok (record { row = w; created = false; updated = false; repo = r }))
                current (refresh_idle a id later r row c m s p p1 p2 p3 p4 idle)),
          ap (λ u. u.codes) (sym same),
        )
    settled id row new t c m s changed p p1 p2 p3 p4 true busy h q =
        let ((last, u), p5, h1) =
          >>=-ok (append_row (refreshed a row) (from_same_day row) now r) h in
        let same : u ≡ t = ap (λ (x : Result (Bool × RegistryRepo)). (got (changed, t) x).1) h1 in
        let (again, current) =
          written_twice id row last t c m s p p1 p2 p3 p4 (p5 ∙ ap (λ z. ok (last, z)) same) in
        let is_new : last ≡ new = ap (λ (x : Result EntityRecord). got new x) (sym current ∙ q) in
        (
          subst
              (λ w.
                register_at (some id) a later t
                ≡ ok (record { row = w; created = false; updated = false; repo = t }))
              is_new again,
          append_row-codes (refreshed a row) (from_same_day row) now r last t
              (p5 ∙ ap (λ z. ok (last, z)) same),
        )

    -- A second call with the same arguments, at any later time, succeeds too, returns the row that is
    -- current since the first, reports neither a creation nor an update, and writes nothing.
    pub register_or_refresh_twice :
        (done : Registered)
        → register_or_refresh a now r ≡ ok done
        → register_or_refresh a later done.repo
          ≡ ok (record { row = done.row; created = false; updated = false; repo = done.repo })
    unfolding register_or_refresh register_at refresh
    register_or_refresh_twice done h = from (resolve a.code none r) refl
      where
        from :
            (at : Option ℕ)
            → resolve a.code none r ≡ at
            → register_or_refresh a later done.repo
              ≡ ok (record { row = done.row; created = false; updated = false; repo = done.repo })
        from none e = twice_created done e (ap (λ k. register_at k a now r) (sym e) ∙ h)
        from (some id) e =
            let ((changed, t), p, q) =
              >>=-ok (refresh id a now r) (ap (λ k. register_at k a now r) (sym e) ∙ h) in
            let (new, p', q') = >>=-ok (current_row id t) q in
            let (row, p0, h1) = >>=-ok (current_row id r) p in
            let (c, p1, h2) = >>=-ok (facet entity_classes a.entity_class) h1 in
            let (m, p2, h3) = >>=-ok (facet markets a.market) h2 in
            let (s, p3, h4) = >>=-ok (facet social_statuses a.social_status) h3 in
            let (u, p4, h5) = >>=-ok (issuer_only a.social_status row) h4 in
            let (same, codes) =
              settled id row new t c m s changed p0 p1 p2 p3 p4 (has_updates a row) refl h5 p' in
            let is_row : new ≡ done.row = ap (λ (x : Result Registered). (got done x).row) q' in
            let is_repo : t ≡ done.repo = ap (λ (x : Result Registered). (got done x).repo) q' in
            subst
              (λ u.
                register_at (resolve a.code none u) a later u
                ≡ ok (record { row = done.row; created = false; updated = false; repo = u }))
              is_repo
              (subst
                (λ w.
                  register_at (resolve a.code none t) a later t
                  ≡ ok (record { row = w; created = false; updated = false; repo = t }))
                is_row
                (ap (λ k. register_at k a later t) (resolve-codes a.code r t codes ∙ e) ∙ same))
