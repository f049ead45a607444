-- ===== src/Registry/Idempotence.antt =====
-- `_register_or_refresh` of `EntityRegistry` (registry/service.py): a new code resolves afterwards, and
-- a second registration with the same arguments writes nothing.
pub mod Updates
pub mod Twice
pub mod Resolves
use fin_data_hub.Prelude.{
  ℕ, String, ◌+◌, ◌≤◌, ◌<◌, ◌≡◌, refl, sym, ap, ◌∙◌, subst, inl, inr, ◌⊎◌, Bool, true, false, ◌&&◌,
  ◌||◌, not, List, [], ◌∷◌, ◌++◌, Option, none, some, arith, ◌==◌, nat_eq, string_eq, option_eq,
  pair_eq, if◌then◌else◌, ltb, leb, In, In-of_filter, filter, filter-append, Bool-cases,
  Option-cases, ==-refl, ==→≡, ≡→==, length,
}
use fin_data_hub.Prelude.Dict
use fin_data_hub.Prelude.Dict.{Dict}
use fin_data_hub.Prelude.Max.{max?, max?_lem, max?-last}
use fin_data_hub.Prelude.Sort.{sorted, insort, In-sorted}
use fin_data_hub.Runtime.Result.{Result, ok, raise, >>=-ok}
use fin_data_hub.Registry.Models.{
  EntityRecord, CodeHistoryRecord, entity_types, entity_classes, markets, social_statuses, issuer,
  is_open, start_of,
}
use fin_data_hub.Registry.Repository.{
  RegistryRepo, entity_rows, append_entity, append_code, find_by_code, next_entity_id,
}
use fin_data_hub.Registry.Rows.{
  Change, ranks_below, pool_of, or_raise, next_version, current_of, current_row, changed_row,
  append_row, given, given_date,
}
use fin_data_hub.Registry.Codes.{
  CodeKey, key_of, is_newer, keep_latest, stands_before, in_force, first_in_force, code_entries,
  resolve,
}
use fin_data_hub.Registry.Register.{
  Registration, Registered, facet, status_of, new_row, first_code, insert_entity, create, differs,
  kept, refreshed, has_updates, issuer_only, from_same_day, write_if, refresh, register_at,
  register_or_refresh,
}
use fin_data_hub.Registry.AsOf.{In-current_row, next_version_lem, ranks_below-IsRank}
use fin_data_hub.Registry.History.{IsSound, entity_rows-append_entity}
use fin_data_hub.Registry.History.Sound.{entity_rows-insert_entity, entity_rows-fresh}

-- A code that does not resolve has no entries.
put-some :
    (d : Dict CodeKey CodeHistoryRecord) (k : CodeKey) (e : CodeHistoryRecord)
    → Dict.put d k e ≡ []
    → ⊥
unfolding Dict.put
put-some [] k e h = cc
put-some ((j, w) ∷ d) k e h = elim (Bool-cases (j == k)) [
  | inl s ↦ ground (arith, s)
  | inr o ↦ ground (arith, o)
]

keep_latest-some :
    (xs : List CodeHistoryRecord) (d : Dict CodeKey CodeHistoryRecord)
    → (d ≡ [] → ⊥)
    → keep_latest d xs ≡ []
    → ⊥
unfolding keep_latest
keep_latest-some [] d some_entry h = some_entry h
keep_latest-some (x ∷ xs) d some_entry h =
    keep_latest-some xs _ (kept_some (is_newer (Dict.get d (key_of x)) x)) h
  where
    kept_some : (b : Bool) → (if b then Dict.put d (key_of x) x else d) ≡ [] → ⊥
    kept_some true = put-some d (key_of x) x
    kept_some false = some_entry

no_entries : (xs : List CodeHistoryRecord) → keep_latest [] xs ≡ [] → xs ≡ []
unfolding keep_latest is_newer Dict.get
no_entries [] h = refl
no_entries (x ∷ xs) h =
    absurd (keep_latest-some xs (Dict.put [] (key_of x) x) (put-some [] (key_of x) x) h)

values-nil : (d : Dict CodeKey CodeHistoryRecord) → Dict.values d ≡ [] → d ≡ []
unfolding Dict.values
values-nil [] h = refl
values-nil ((k, e) ∷ d) h = cc

sorted-nil : (xs : List CodeHistoryRecord) → sorted stands_before xs ≡ [] → xs ≡ []
sorted-nil [] h = refl
sorted-nil (x ∷ xs) h = absurd (subst (In x) h (In-sorted stands_before x (x ∷ xs) (inl refl)))

first-none : (xs : List CodeHistoryRecord) → first_in_force none xs ≡ none → xs ≡ []
unfolding first_in_force in_force
first-none [] h = refl
first-none (x ∷ xs) h = cc

resolve-none :
    (code : String) (r : RegistryRepo) → resolve code none r ≡ none → find_by_code code r ≡ []
unfolding resolve code_entries
resolve-none code r h =
    no_entries (find_by_code code r) (values-nil _ (sorted-nil _ (first-none _ h)))

-- The first entry of a code is the one that it resolves to.
resolve-first :
    (code : String) (r : RegistryRepo) (entry : CodeHistoryRecord)
    → find_by_code code r ≡ entry ∷ []
    → resolve code none r ≡ some entry.entity_id
unfolding resolve code_entries keep_latest is_newer Dict.get Dict.put Dict.values sorted insort
    first_in_force in_force
resolve-first code r entry h = rw h

module _ (a : Registration) (status : Option String) (now : ℕ) (r : RegistryRepo) where
  pub resolve-insert_entity :
      resolve a.code none r ≡ none
      → resolve a.code none (insert_entity a status now r).1 ≡ some r.next_id
  unfolding insert_entity next_entity_id append_entity append_code find_by_code filter
  resolve-insert_entity unknown =
      resolve-first a.code (insert_entity a status now r).1
        (first_code (new_row r.next_id a status now))
        (filter-append (λ x. x.code == a.code) r.codes
            (first_code (new_row r.next_id a status now) ∷ [])
          ∙ rw (resolve-none a.code r unknown) (rw (==-refl a.code)))
