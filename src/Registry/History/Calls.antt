-- ===== src/Registry/History/Calls.antt =====
-- Every history of calls of `EntityRegistry` (registry/service.py): in any order, with any arguments.
use fin_data_hub.Prelude.{
  ℕ, String, ◌≡◌, refl, ap, subst, List, [], ◌∷◌, Option, some, arith, ◌==◌, string_eq, Bool-cases,
  inl, inr, filter,
}
use fin_data_hub.Runtime.Result.{Result, ok, raise, >>=-ok}
use fin_data_hub.Registry.Models.{RelationRecord, RelationTypeRecord, ExternalIdRecord, id_types}
use fin_data_hub.Registry.Repository.{
  RegistryRepo, new_repo, append_relation, append_relation_type, append_external_id, relation_rows,
  external_id_rows,
}
use fin_data_hub.Registry.Rows.{require_entity}
use fin_data_hub.Registry.Codes.{add_code_change}
use fin_data_hub.Registry.Register.{Registration, Registered, facet, register_or_refresh}
use fin_data_hub.Registry.Names.{add_name_change}
use fin_data_hub.Registry.Relations.{
  Vocabulary, register_words, word_at, add_relation, write_relation, is_same_relation,
  add_external_id, write_id, is_same_id,
}
use fin_data_hub.Registry.History.{IsSound, Writes, start, then_write, links}
use fin_data_hub.Registry.History.Sound.{
  new_repo-IsSound, Writes-IsSound, HasGrown, Writes-HasGrown,
}
use fin_data_hub.Registry.History.Methods.{
  register_or_refresh-Writes, add_name_change-Writes, add_code_change-Writes,
}

pub data Call (r r' : RegistryRepo) : Type 0 where
  registers :
      (a : Registration) (now : ℕ) (done : Registered)
      → register_or_refresh a now r ≡ ok done
      → done.repo ≡ r'
      → Call r r'
  renames :
      (id : ℕ) (name : String) (start_date end : Option ℕ) (ann_date : Option String)
      (closed_at appended_at resumed_at : ℕ)
      → add_name_change id name start_date end ann_date closed_at appended_at resumed_at r ≡ ok r'
      → Call r r'
  recodes :
      (id : ℕ) (code : String) (start_date : Option ℕ) (clock : ℕ → ℕ)
      (closed_at coded_at appended_at : ℕ)
      → add_code_change id code start_date clock closed_at coded_at appended_at r ≡ ok r'
      → Call r r'
  relates :
      (vocab : Vocabulary) (id related_id : ℕ) (word : String) (valid_from valid_to : Option ℕ)
      (now : ℕ) (row : RelationRecord)
      → add_relation vocab id related_id word valid_from valid_to now r ≡ ok (row, r')
      → Call r r'
  identifies :
      (id : ℕ) (id_type value : String) (valid_from valid_to : Option ℕ) (now : ℕ)
      (row : ExternalIdRecord)
      → add_external_id id id_type value valid_from valid_to now r ≡ ok (row, r')
      → Call r r'
  defines : (words : List RelationTypeRecord) → register_words words r ≡ r' → Call r r'

pub data History (r : RegistryRepo) : RegistryRepo → Type 0 where
  begin : History r r
  then_call : {s t : RegistryRepo} → History r s → Call s t → History r t

Writes-trans : (r s t : RegistryRepo) → Writes r s → Writes s t → Writes r t
Writes-trans r s _ w start = w
Writes-trans r s _ w (then_write more last) = then_write (Writes-trans r s _ w more) last

-- A call that leaves the rows, the codes and the ids as they are.
IsLink : RegistryRepo → RegistryRepo → Type 0
IsLink r s = (s.rows ≡ r.rows) × (s.codes ≡ r.codes) × (s.next_id ≡ r.next_id)

link-Writes : (r s : RegistryRepo) → IsLink r s → Writes r s
unfolding IsLink
link-Writes r s (rows, codes, ids) = then_write start (links rows codes ids)

write_relation-IsLink :
    (new : RelationRecord) (olds : List RelationRecord) (r : RegistryRepo)
    → IsLink r (write_relation new olds r).1
unfolding IsLink write_relation append_relation
write_relation-IsLink new [] r = (refl, refl, refl)
write_relation-IsLink new (old ∷ olds) r = (refl, refl, refl)

write_id-IsLink :
    (new : ExternalIdRecord) (olds : List ExternalIdRecord) (r : RegistryRepo)
    → IsLink r (write_id new olds r).1
unfolding IsLink write_id append_external_id
write_id-IsLink new [] r = (refl, refl, refl)
write_id-IsLink new (old ∷ olds) r = (refl, refl, refl)

register_words-IsLink :
    (words : List RelationTypeRecord) (r : RegistryRepo) → IsLink r (register_words words r)
unfolding IsLink register_words append_relation_type
register_words-IsLink [] r = (refl, refl, refl)
register_words-IsLink (word ∷ words) r = register_words-IsLink words (append_relation_type word r)

repo_of {ℓ} : {A : Type ℓ} → A × RegistryRepo → Result (A × RegistryRepo) → RegistryRepo
repo_of d (ok (a, r)) = r
repo_of (a, r) (raise e) = r

Call-Writes : (r r' : RegistryRepo) → Call r r' → Writes r r'
unfolding add_relation add_external_id repo_of
Call-Writes r r' (registers a now done h e) =
    subst (Writes r) e (register_or_refresh-Writes r r start a now done h)
Call-Writes r r' (renames id name start_date end ann_date closed_at appended_at resumed_at h) =
    add_name_change-Writes r id name start_date end ann_date closed_at appended_at resumed_at r' h
Call-Writes r r' (recodes id code start_date clock closed_at coded_at appended_at h) =
    add_code_change-Writes r id code start_date clock closed_at coded_at appended_at r' h
Call-Writes r r' (relates vocab id related_id word valid_from valid_to now row h) =
    let (w, p, h1) = >>=-ok (word_at word vocab) h in
    let (a, p1, h2) = >>=-ok (require_entity id r) h1 in
    let (b, p2, h3) = >>=-ok (require_entity related_id r) h2 in
    subst (Writes r) (ap (repo_of (row, r')) h3) (
      link-Writes r _ (
        write_relation-IsLink _ (filter (is_same_relation related_id word) (relation_rows id r)) r))
Call-Writes r r' (identifies id id_type value valid_from valid_to now row h) =
    let (a, p, h1) = >>=-ok (require_entity id r) h in
    let (t, p1, h2) = >>=-ok (facet id_types (some id_type)) h1 in
    elim (Bool-cases (value == "")) [
      | inl empty ↦ absurd (ground (arith, h2, empty))
      | inr named ↦ subst (Writes r) (ap (repo_of (row, r')) (rw named at h2)) (
          link-Writes r _
            (write_id-IsLink _ (filter (is_same_id id_type value) (external_id_rows id r)) r))
    ]
Call-Writes r r' (defines words h) =
    subst (Writes r) h (link-Writes r (register_words words r) (register_words-IsLink words r))

History-Writes : (r r' : RegistryRepo) → History r r' → Writes r r'
History-Writes r _ begin = start
History-Writes r _ (then_call before last) =
    Writes-trans r _ _ (History-Writes r _ before) (Call-Writes _ _ last)

History-HasGrown : (r r' : RegistryRepo) → History r r' → HasGrown r r'
History-HasGrown r r' h = Writes-HasGrown r r' (History-Writes r r' h)

-- After any calls on an empty registry each row stands under its own id, ids are numbers that were
-- given out, the versions of an entity grow from row to row, and each code belongs to an entity.
-- Further calls only append: the rows of each entity and the codes that stood before still stand, in
-- their order and unchanged, before all new ones.
pub History-IsSound :
    (id_start : ℕ) (r : RegistryRepo)
    → History (new_repo id_start) r
    → IsSound r × ((r' : RegistryRepo) → History r r' → HasGrown r r')
History-IsSound id_start r h = (
  Writes-IsSound (new_repo id_start) r (new_repo-IsSound id_start)
      (History-Writes (new_repo id_start) r h),
  λ r' more. History-HasGrown r r' more,
)
