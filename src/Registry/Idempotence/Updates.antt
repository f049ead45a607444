-- ===== src/Registry/Idempotence/Updates.antt =====
-- What a row that `_create` or `_refresh` (registry/service.py) has written asks for: no updates.
use fin_data_hub.Prelude.{
  ℕ, String, ◌<◌, ◌≡◌, refl, sym, ap, ◌∙◌, subst, inl, inr, false, List, [], ◌∷◌, ◌++◌, Option,
  none, some, arith, ◌==◌, nat_eq, string_eq, option_eq, In, In-of_filter, filter, filter-append,
  Bool-cases, ==-refl,
}
use fin_data_hub.Prelude.Max.{max?, max_from, max?_lem, max?-last}
use fin_data_hub.Runtime.Result.{Result, ok, raise, >>=-ok}
use fin_data_hub.Registry.Models.{
  EntityRecord, entity_classes, markets, social_statuses, issuer, is_open, start_of,
}
use fin_data_hub.Registry.Repository.{RegistryRepo, entity_rows, append_entity, find_by_code}
use fin_data_hub.Registry.Rows.{
  Change, ranks_below, pool_of, or_raise, next_version, current_of, current_row, changed_row,
  append_row, given_date,
}
use fin_data_hub.Registry.Codes.{resolve, code_entries}
use fin_data_hub.Registry.Register.{
  Registration, facet, status_of, new_row, differs, kept, refreshed, has_updates, issuer_only,
  from_same_day, write_if, refresh, register_at,
}
use fin_data_hub.Registry.AsOf.{ranks_below-IsRank}

abbrev pub got {ℓ} : {A : Type ℓ} → A → Result A → A
got d (ok a) = a
got d (raise e) = d

pub given_date_self : (o : Option ℕ) → given_date o o ≡ o
given_date_self none = refl
given_date_self (some d) = refl

pub same_type :
    (o : Option String) (row new : EntityRecord)
    → new.entity_type ≡ row.entity_type
    → issuer_only o row ≡ ok tt
    → issuer_only o new ≡ ok tt
unfolding issuer_only
same_type none row new e h = refl
same_type (some v) row new e h = rw e h

differs_self : (o : Option String) → differs o o ≡ false
unfolding differs
differs_self none = refl
differs_self (some v) = rw (==-refl v)

differs-kept : (o old : Option String) → differs o (kept o old) ≡ false
unfolding differs
differs-kept none old = refl
differs-kept (some v) old = rw (==-refl v)

differs-status :
    (entity_type : String) (o status : Option String)
    → status_of entity_type o ≡ ok status
    → differs o status ≡ false
unfolding status_of
differs-status entity_type none status h = unfold differs in refl
differs-status entity_type (some v) status h = elim (Bool-cases (entity_type == issuer)) [
  | inl suits ↦
      let same : some v ≡ status = ground (arith, h, suits) in
      subst (λ s. differs (some v) s ≡ false) same (differs_self (some v))
  | inr other ↦ absurd (ground (arith, h, other))
]

pub append_row-codes :
    (base : EntityRecord) (change : Change) (now : ℕ) (r : RegistryRepo) (row : EntityRecord)
    (t : RegistryRepo)
    → append_row base change now r ≡ ok (row, t)
    → t.codes ≡ r.codes
unfolding append_row append_entity
append_row-codes base change now r row t h =
    let (n, p, q) = >>=-ok (next_version base.entity_id r) h in
    ap (λ (x : Result (EntityRecord × RegistryRepo)). (got (row, t) x).1.codes) (sym q)

pub resolve-codes :
    (code : String) (r s : RegistryRepo)
    → s.codes ≡ r.codes
    → resolve code none s ≡ resolve code none r
unfolding resolve code_entries find_by_code
resolve-codes code r s e = rw e

-- A row that stands last, is open, and ranks with the current one in date, is the current one.
pub current_row-append :
    (id : ℕ) (r r' : RegistryRepo) (row new : EntityRecord)
    → current_row id r ≡ ok row
    → entity_rows id r' ≡ entity_rows id r ++ new ∷ []
    → new.valid_to ≡ none
    → start_of new.valid_from ≡ start_of row.valid_from
    → ((x : EntityRecord) → In x (entity_rows id r) → x.version < new.version)
    → current_row id r' ≡ ok new
unfolding current_row current_of filter
current_row-append id r r' row new h q opened same newest =
    ap (λ rows. or_raise (current_of rows)) q
    ∙ ap (λ o. or_raise (max? ranks_below (pool_of o (entity_rows id r ++ new ∷ []))))
        (filter-append (λ x. is_open x.valid_to) (entity_rows id r) (new ∷ []) ∙ rw opened)
    ∙ from (filter (λ x. is_open x.valid_to) (entity_rows id r)) refl
  where
    from :
        (o : List EntityRecord)
        → filter (λ x. is_open x.valid_to) (entity_rows id r) ≡ o
        → or_raise (max? ranks_below (pool_of (o ++ new ∷ []) (entity_rows id r ++ new ∷ [])))
          ≡ ok new
    from [] e = unfold max? max_from in refl
    from (x ∷ o) e = ap or_raise (
        max?-last ranks_below (x ∷ o) new (λ y m.
          let top = (max?_lem ranks_below ranks_below-IsRank (x ∷ o) row best).1 y m in
          let older =
            newest y
              (In-of_filter (λ t. is_open t.valid_to) y (entity_rows id r)
                (subst (In y) (sym e) m)).0 in
          unfold ranks_below in ground (arith)))
      where
        best : max? ranks_below (x ∷ o) ≡ some row
        best =
            let z : or_raise (max? ranks_below (pool_of (x ∷ o) (entity_rows id r))) ≡ ok row =
              ap (λ t. or_raise (max? ranks_below (pool_of t (entity_rows id r)))) (sym e) ∙ h in
            ground (arith, z)

pub current_row-single :
    (id : ℕ) (r : RegistryRepo) (row : EntityRecord)
    → entity_rows id r ≡ row ∷ []
    → row.valid_to ≡ none
    → current_row id r ≡ ok row
unfolding current_row current_of filter max? max_from
current_row-single id r row q opened = ap (λ rows. or_raise (current_of rows)) q ∙ rw opened

module _ (a : Registration) where
  -- the row that a registration has written asks for no updates
  pub has_updates-new :
      (id now : ℕ) (status : Option String)
      → status_of a.entity_type a.social_status ≡ ok status
      → has_updates a (new_row id a status now) ≡ false
  unfolding has_updates new_row
  has_updates-new id now status h = ground (
    arith,
    ==-refl a.name,
    differs_self a.entity_class,
    differs_self a.market,
    differs_self a.currency,
    differs_self a.exchange,
    differs_self a.frequency,
    differs_self a.unit,
    differs_self a.algorithm_id,
    differs-status a.entity_type a.social_status status h,
  )

  pub has_updates-refreshed :
      (row : EntityRecord) (now version : ℕ)
      → has_updates a (changed_row (refreshed a row) (from_same_day row) now version) ≡ false
  unfolding has_updates changed_row refreshed
  has_updates-refreshed row now version = ground (
    arith,
    ==-refl a.name,
    differs-kept a.entity_class row.entity_class,
    differs-kept a.market row.market,
    differs-kept a.currency row.currency,
    differs-kept a.exchange row.exchange,
    differs-kept a.frequency row.frequency,
    differs-kept a.unit row.unit,
    differs-kept a.algorithm_id row.algorithm_id,
    differs-kept a.social_status row.social_status,
  )

  pub status_suits :
      (o status : Option String) (row : EntityRecord)
      → status_of row.entity_type o ≡ ok status
      → issuer_only o row ≡ ok tt
  unfolding status_of issuer_only
  status_suits none status row h = refl
  status_suits (some v) status row h = ground arith

  -- A refresh of a row that asks for no updates writes nothing.
  pub refresh_idle :
      (id now : ℕ) (r : RegistryRepo) (row : EntityRecord) (c m s : Option String)
      → current_row id r ≡ ok row
      → facet entity_classes a.entity_class ≡ ok c
      → facet markets a.market ≡ ok m
      → facet social_statuses a.social_status ≡ ok s
      → issuer_only a.social_status row ≡ ok tt
      → has_updates a row ≡ false
      → register_at (some id) a now r
        ≡ ok (record { row = row; created = false; updated = false; repo = r })
  unfolding register_at refresh write_if
  refresh_idle id now r row c m s p p1 p2 p3 p4 idle = rw (p, p1, p2, p3, p4, idle, p)
