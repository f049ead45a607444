-- ===== src/Registry/History/Sound.antt =====
-- Every sequence of writes to the entity registry keeps it sound and all that was written before.
use fin_data_hub.Prelude.{
  ℕ, String, ◌+◌, ◌≡◌, refl, sym, ap, ◌∙◌, subst, inl, inr, ◌⊎◌, Bool, true, false, List, [], ◌∷◌,
  ◌++◌, Option, arith, ◌==◌, nat_eq, if◌then◌else◌, In, Bool-cases, eqb_iff, ==-refl,
}
use mathlib.Core.List.{append-nil, append_assoc}
use fin_data_hub.Prelude.Dict
use fin_data_hub.Registry.Models.{EntityRecord}
use fin_data_hub.Registry.Repository.{
  RegistryRepo, entity_rows, listed, append_entity, append_code, next_entity_id, new_repo,
}
use fin_data_hub.Registry.Register.{Registration, insert_entity, new_row, first_code}
use fin_data_hub.Registry.History.{
  IsGrowing, IsSound, In-last, append-In, entity_rows-append_entity, Write, adds_row, adds_code,
  founds, links, Writes, start, then_write, new_row-IsSound, new_code-IsSound, links-IsSound,
}

last-In : {A : Type 0} (xs : List A) (a : A) → In a (xs ++ a ∷ [])
last-In [] a = inl refl
last-In (x ∷ xs) a = inr (last-In xs a)

pub new_repo-IsSound : (id_start : ℕ) → IsSound (new_repo id_start)
unfolding new_repo entity_rows Dict.get
new_repo-IsSound id_start = record {
  keyed = λ id row m. absurd m;
  numbered = λ id row m. absurd m;
  growing = λ id. tt;
  coded = λ entry m. absurd m;
}

module _ (r : RegistryRepo) (a : Registration) (status : Option String) (now : ℕ) where
  fresh_row : EntityRecord
  fresh_row = new_row r.next_id a status now

  pub entity_rows-insert_entity :
      (id : ℕ)
      → entity_rows id (insert_entity a status now r).1 ≡ (
          if r.next_id == id
          then entity_rows id r ++ new_row r.next_id a status now ∷ []
          else entity_rows id r)
  unfolding insert_entity next_entity_id append_code fresh_row entity_rows
  entity_rows-insert_entity id =
      entity_rows-append_entity id fresh_row
        (append_code (first_code fresh_row) (record r { next_id = r.next_id + 1 }))

  module _ (v : IsSound r) where
    no_rows : (rows : List EntityRecord) → entity_rows r.next_id r ≡ rows → rows ≡ []
    no_rows [] e = refl
    no_rows (x ∷ rows) e =
        let n = v.numbered r.next_id x (subst (In x) (sym e) (inl refl)) in absurd (omega arith)

    -- A new entity has had no rows.
    pub entity_rows-fresh : entity_rows r.next_id r ≡ []
    entity_rows-fresh = no_rows (entity_rows r.next_id r) refl

    found_or_old :
        (id : ℕ) (x : EntityRecord)
        → In x (entity_rows id (insert_entity a status now r).1)
        → In x (entity_rows id r) ⊎ ((x ≡ fresh_row) × (r.next_id ≡ id))
    unfolding fresh_row
    found_or_old id x m = elim (Bool-cases (r.next_id == id)) [
      | inl same ↦
          elim (In-last (entity_rows id r) x fresh_row
            (subst (In x) (entity_rows-insert_entity id ∙ rw same) m)) [
              | inl n ↦ inl n
              | inr e ↦ inr (e, (eqb_iff r.next_id id).0 same)
            ]
      | inr other ↦ inl (subst (In x) (entity_rows-insert_entity id ∙ rw other) m)
    ]

    still_there :
        (id : ℕ) (x : EntityRecord)
        → In x (entity_rows id r)
        → In x (entity_rows id (insert_entity a status now r).1)
    still_there id x n =
        subst (In x) (sym (entity_rows-insert_entity id)) (either (r.next_id == id))
      where
        either :
            (b : Bool)
            → In x (
                if b
                then entity_rows id r ++ new_row r.next_id a status now ∷ []
                else entity_rows id r)
        either true = append-In (entity_rows id r) (new_row r.next_id a status now ∷ []) x n
        either false = n

    founded_rows :
        (id : ℕ)
        → ((r.next_id == id) ≡ true) ⊎ ((r.next_id == id) ≡ false)
        → IsGrowing (
            if r.next_id == id
            then entity_rows id r ++ new_row r.next_id a status now ∷ []
            else entity_rows id r)
    founded_rows id (inr other) = rw other (v.growing id)
    founded_rows id (inl same) = rw same (
        subst (λ k. IsGrowing (entity_rows k r ++ fresh ∷ [])) ((eqb_iff r.next_id id).0 same)
          (subst (λ rows. IsGrowing (rows ++ fresh ∷ [])) (sym entity_rows-fresh)
            (λ x m. absurd m, tt)))
      where
        fresh : EntityRecord
        fresh = new_row r.next_id a status now

    pub insert_entity-IsSound : IsSound (insert_entity a status now r).1
    unfolding fresh_row new_row
    insert_entity-IsSound = record {
      keyed = λ id x m. elim (found_or_old id x m) [
        | inl n ↦ v.keyed id x n
        | inr (e, same) ↦ ap (λ t. t.entity_id) e ∙ unfold new_row in same
      ];
      numbered = λ id x m. elim (found_or_old id x m) [
        | inl n ↦
            let old = v.numbered id x n in
            unfold insert_entity next_entity_id append_entity append_code in omega arith
        | inr (e, same) ↦
            unfold insert_entity next_entity_id append_entity append_code in omega arith
      ];
      growing = λ id.
          subst IsGrowing (sym (entity_rows-insert_entity id))
            (founded_rows id (Bool-cases (r.next_id == id)));
      coded = λ entry m.
          elim (In-last r.codes entry (first_code fresh_row)
            (unfold insert_entity next_entity_id append_entity append_code in m)) [
              | inl n ↦ let (x, k) = v.coded entry n in (x, still_there entry.entity_id x k)
              | inr e ↦ (
                fresh_row,
                subst (λ t. In fresh_row (entity_rows t.entity_id (insert_entity a status now r).1))
                    (sym e)
                    (subst (In fresh_row) (sym (entity_rows-insert_entity r.next_id)) rw
                      (==-refl r.next_id) (last-In (entity_rows r.next_id r) fresh_row)),
              )
            ];
    }

Write-IsSound : (r r' : RegistryRepo) → IsSound r → Write r r' → IsSound r'
Write-IsSound r r' v (adds_row row h e) = subst IsSound e (new_row-IsSound r v row h)
Write-IsSound r r' v (adds_code entry row m e) = subst IsSound e (new_code-IsSound r v entry row m)
Write-IsSound r r' v (founds a status now e) =
    subst IsSound e (insert_entity-IsSound r a status now v)
Write-IsSound r r' v (links rows codes ids) = links-IsSound r v r' rows codes ids

pub Writes-IsSound : (r r' : RegistryRepo) → IsSound r → Writes r r' → IsSound r'
Writes-IsSound r _ v start = v
Writes-IsSound r _ v (then_write before last) = Write-IsSound _ _ (Writes-IsSound r _ v before) last

-- The old list, and what is appended to it.
pub IsExtension : {A : Type 0} → List A → List A → Type 0
IsExtension {A} old new = (more : List A) × (new ≡ old ++ more)

extended_if :
    {A : Type 0} (b : Bool) (old new : List A) (x : A)
    → new ≡ (if b then old ++ x ∷ [] else old)
    → IsExtension old new
unfolding IsExtension
extended_if true old new x q = (x ∷ [], q)
extended_if false old new x q = ([], q ∙ sym (append-nil old))

same_list : {A : Type 0} (old new : List A) → new ≡ old → IsExtension old new
unfolding IsExtension
same_list old new q = ([], q ∙ sym (append-nil old))

IsExtension-trans :
    {A : Type 0} (a b c : List A) → IsExtension a b → IsExtension b c → IsExtension a c
unfolding IsExtension
IsExtension-trans a b c (m, p) (n, q) = (m ++ n, q ∙ (ap (λ t. t ++ n) p ∙ append_assoc a m n))

pub record HasGrown (r r' : RegistryRepo) : Type 0 where
  pub of_rows : (id : ℕ) → IsExtension (entity_rows id r) (entity_rows id r')
  pub of_codes : IsExtension r.codes r'.codes

Write-HasGrown : (r r' : RegistryRepo) → Write r r' → HasGrown r r'
unfolding entity_rows append_code append_entity insert_entity IsExtension next_entity_id
Write-HasGrown r r' (adds_row row h e) = record {
  of_rows = λ id.
      extended_if (row.entity_id == id) (entity_rows id r) (entity_rows id r') row
        (ap (entity_rows id) (sym e) ∙ entity_rows-append_entity id row r);
  of_codes = same_list r.codes r'.codes (ap (λ t. t.codes) (sym e));
}
Write-HasGrown r r' (adds_code entry row m e) = record {
  of_rows = λ id. same_list (entity_rows id r) (entity_rows id r') (ap (entity_rows id) (sym e));
  of_codes = (entry ∷ [], ap (λ t. t.codes) (sym e));
}
Write-HasGrown r r' (founds a status now e) = record {
  of_rows = λ id.
      extended_if (r.next_id == id) (entity_rows id r) (entity_rows id r')
        (new_row r.next_id a status now)
        (ap (entity_rows id) (sym e) ∙ entity_rows-insert_entity r a status now id);
  of_codes = (first_code (new_row r.next_id a status now) ∷ [], ap (λ t. t.codes) (sym e));
}
Write-HasGrown r r' (links rows codes ids) = record {
  of_rows = λ id.
      same_list (entity_rows id r) (entity_rows id r') (ap (λ d. listed (Dict.get d id)) rows);
  of_codes = same_list r.codes r'.codes codes;
}

pub Writes-HasGrown : (r r' : RegistryRepo) → Writes r r' → HasGrown r r'
Writes-HasGrown r _ start = record {
  of_rows = λ id. same_list (entity_rows id r) (entity_rows id r) refl;
  of_codes = same_list r.codes r.codes refl;
}
Writes-HasGrown r _ (then_write {s} {t} before last) =
    let old = Writes-HasGrown r s before in
    let new = Write-HasGrown s t last in
    record {
      of_rows = λ id. IsExtension-trans _ _ _ (old.of_rows id) (new.of_rows id);
      of_codes = IsExtension-trans _ _ _ old.of_codes new.of_codes;
    }

-- A row that was written stays.
pub Writes-In :
    (r r' : RegistryRepo)
    → Writes r r'
    → (id : ℕ) (row : EntityRecord) → In row (entity_rows id r)
    → In row (entity_rows id r')
unfolding IsExtension
Writes-In r r' w id row m =
    let (more, q) = (Writes-HasGrown r r' w).of_rows id in
    subst (In row) (sym q) (append-In (entity_rows id r) more row m)
