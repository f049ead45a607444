-- ===== src/Registry/Idempotence/Resolves.antt =====
-- After `_register_or_refresh` (registry/service.py) the code resolves to the entity.
use fin_data_hub.Prelude.{
  ℕ, String, ◌≡◌, refl, sym, ap, ◌∙◌, Bool, true, false, Option, none, some, string_eq,
}
use fin_data_hub.Runtime.Result.{Result, ok, >>=-ok}
use fin_data_hub.Registry.Models.{
  EntityRecord, entity_types, entity_classes, markets, social_statuses,
}
use fin_data_hub.Registry.Repository.{RegistryRepo, next_entity_id}
use fin_data_hub.Registry.Rows.{current_row, append_row}
use fin_data_hub.Registry.Codes.{resolve}
use fin_data_hub.Registry.Register.{
  Registration, Registered, facet, status_of, new_row, insert_entity, create, refreshed,
  has_updates, issuer_only, from_same_day, write_if, refresh, register_at, register_or_refresh,
}
use fin_data_hub.Registry.AsOf.{In-current_row}
use fin_data_hub.Registry.History.{IsSound, start}
use fin_data_hub.Registry.History.Sound.{Writes-IsSound}
use fin_data_hub.Registry.History.Methods.{register_or_refresh-Writes}
use fin_data_hub.Registry.Idempotence.{resolve-insert_entity}
use fin_data_hub.Registry.Idempotence.Updates.{got, append_row-codes, resolve-codes}

module _ (a : Registration) (now : ℕ) (r : RegistryRepo) where
  write_if-codes :
      (b : Bool) (row : EntityRecord) (changed : Bool) (t : RegistryRepo)
      → write_if b a row now r ≡ ok (changed, t)
      → t.codes ≡ r.codes
  unfolding write_if
  write_if-codes false row changed t h =
      ap (λ (x : Result (Bool × RegistryRepo)). (got (changed, t) x).1.codes) (sym h)
  write_if-codes true row changed t h =
      let ((last, u), p, q) = >>=-ok (append_row (refreshed a row) (from_same_day row) now r) h in
      let same : u ≡ t = ap (λ (x : Result (Bool × RegistryRepo)). (got (changed, t) x).1) q in
      append_row-codes (refreshed a row) (from_same_day row) now r last t
        (p ∙ ap (λ z. ok (last, z)) same)

  refresh-codes :
      (id : ℕ) (changed : Bool) (t : RegistryRepo)
      → refresh id a now r ≡ ok (changed, t)
      → t.codes ≡ r.codes
  unfolding refresh
  refresh-codes id changed t h =
      let (row, p0, h1) = >>=-ok (current_row id r) h in
      let (c, p1, h2) = >>=-ok (facet entity_classes a.entity_class) h1 in
      let (m, p2, h3) = >>=-ok (facet markets a.market) h2 in
      let (s, p3, h4) = >>=-ok (facet social_statuses a.social_status) h3 in
      let (u, p4, h5) = >>=-ok (issuer_only a.social_status row) h4 in
      write_if-codes (has_updates a row) row changed t h5

  -- Whether it creates or refreshes, the code resolves to the entity of the row that is returned.
  pub resolve-register_or_refresh :
      (done : Registered)
      → IsSound r
      → register_or_refresh a now r ≡ ok done
      → resolve a.code none done.repo ≡ some done.row.entity_id
  unfolding register_or_refresh register_at
  resolve-register_or_refresh done v h = from (resolve a.code none r) refl
    where
      sound : IsSound done.repo
      sound = Writes-IsSound r done.repo v (register_or_refresh-Writes r r start a now done h)

      from :
          (at : Option ℕ)
          → resolve a.code none r ≡ at
          → resolve a.code none done.repo ≡ some done.row.entity_id
      from (some id) e =
          let ((changed, t), p, q) =
            >>=-ok (refresh id a now r) (ap (λ k. register_at k a now r) (sym e) ∙ h) in
          let (new, p', q') = >>=-ok (current_row id t) q in
          let is_row : new ≡ done.row = ap (λ (x : Result Registered). (got done x).row) q' in
          let is_repo : t ≡ done.repo = ap (λ (x : Result Registered). (got done x).repo) q' in
          let own = sound.keyed id done.row (
            In-current_row id done.repo done.row
              (ap (current_row id) (sym is_repo) ∙ (p' ∙ ap ok is_row))) in
          ap (resolve a.code none) (sym is_repo)
          ∙ (resolve-codes a.code r t (refresh-codes id changed t p) ∙ (e ∙ ap some (sym own)))
      from none e =
          let ((row, t), p, q) =
            >>=-ok (create a now r) (ap (λ k. register_at k a now r) (sym e) ∙ h) in
          let (status, row_is, repo_is) = created row t p in
          ap (λ (x : Result Registered). resolve a.code none (got done x).repo) (sym q)
          ∙ (ap (resolve a.code none) repo_is
              ∙ (resolve-insert_entity a status now r e
                  ∙ (ap (λ (x : EntityRecord). some x.entity_id) (sym row_is)
                      ∙ ap (λ (x : Result Registered). some (got done x).row.entity_id) q)))
        where
          created :
              (row : EntityRecord) (t : RegistryRepo)
              → create a now r ≡ ok (row, t)
              → (status : Option String) × (row ≡ new_row r.next_id a status now)
                × (t ≡ (insert_entity a status now r).1)
          created row t p =
              unfold create insert_entity next_entity_id in
              (let (x, p1, h1) = >>=-ok (facet entity_types (some a.entity_type)) p in
                let (c, p2, h2) = >>=-ok (facet entity_classes a.entity_class) h1 in
                let (m, p3, h3) = >>=-ok (facet markets a.market) h2 in
                let (s, p4, h4) = >>=-ok (facet social_statuses a.social_status) h3 in
                let (status, p5, h5) = >>=-ok (status_of a.entity_type a.social_status) h4 in
                (
                  status,
                  ap (λ (x : Result (EntityRecord × RegistryRepo)). (got (row, t) x).0) (sym h5),
                  ap (λ (x : Result (EntityRecord × RegistryRepo)). (got (row, t) x).1) (sym h5),
                ))
