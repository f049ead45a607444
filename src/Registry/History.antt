-- ===== src/Registry/History.antt =====
-- `EntityRegistry` (registry/service.py) only appends: its writes, and what any sequence of them keeps.
pub mod Sound
pub mod Methods
pub mod Calls
use fin_data_hub.Prelude.{
  In-append, ℕ, String, ◌+◌, ◌≤◌, ◌<◌, ◌≡◌, refl, sym, ap, ◌∙◌, subst, inl, inr, ◌⊎◌, Bool, true,
  false, List, [], ◌∷◌, ◌++◌, Option, none, some, arith, ◌==◌, nat_eq, ltb, leb, if◌then◌else◌, In,
  Bool-cases, Option-cases, ==→≡, ==-refl, eqb_iff,
}
use fin_data_hub.Prelude.Dict
use fin_data_hub.Prelude.Dict.{get-put}
use fin_data_hub.Runtime.Result.{ok, raise}
use fin_data_hub.Registry.Models.{EntityRecord, CodeHistoryRecord}
use fin_data_hub.Registry.Repository.{
  RegistryRepo, entity_rows, listed, append_entity, append_code, next_entity_id,
}
use fin_data_hub.Registry.Rows.{next_version}
use fin_data_hub.Registry.Register.{Registration, insert_entity, new_row, first_code}
use fin_data_hub.Registry.AsOf.{next_version_lem}

-- Each version is above all before it.
abbrev pub IsGrowing : List EntityRecord → Type 0
IsGrowing [] = Unit
IsGrowing (row ∷ rows) = ((x : EntityRecord) → In x rows → row.version < x.version) × IsGrowing rows

pub append-In : {A : Type 0} (xs ys : List A) (a : A) → In a xs → In a (xs ++ ys)
append-In [] ys a m = absurd m
append-In (x ∷ xs) ys a (inl e) = inl e
append-In (x ∷ xs) ys a (inr m) = inr (append-In xs ys a m)

pub In-last : {A : Type 0} (xs : List A) (a b : A) → In a (xs ++ b ∷ []) → In a xs ⊎ (a ≡ b)
In-last xs a b m = elim ((In-append a xs (b ∷ [])).0 m) [ inl n ↦ inl n | inr n ↦ inr (single n) ]
  where
    single : In a (b ∷ []) → a ≡ b
    single (inl e) = e
    single (inr n) = absurd n

append-IsGrowing :
    (rows : List EntityRecord) (row : EntityRecord)
    → IsGrowing rows
    → ((x : EntityRecord) → In x rows → x.version < row.version)
    → IsGrowing (rows ++ row ∷ [])
append-IsGrowing [] row g above = (λ x m. absurd m, tt)
append-IsGrowing (a ∷ rows) row g above = (
  λ x m. elim (In-last rows x row m) [
    | inl n ↦ g.0 x n
    | inr e ↦ subst (λ t. a.version < t.version) (sym e) (above a (inl refl))
  ],
  append-IsGrowing rows row g.1 (λ x m. above x (inr m)),
)

-- Rows stand under their own id, ids are numbers that were given out, versions grow, and each code
-- belongs to an entity that has rows.
pub record IsSound (r : RegistryRepo) : Type 0 where
  pub keyed : (id : ℕ) (row : EntityRecord) → In row (entity_rows id r) → row.entity_id ≡ id
  pub numbered : (id : ℕ) (row : EntityRecord) → In row (entity_rows id r) → id < r.next_id
  pub growing : (id : ℕ) → IsGrowing (entity_rows id r)
  pub coded :
      (entry : CodeHistoryRecord)
      → In entry r.codes
      → (row : EntityRecord) × In row (entity_rows entry.entity_id r)

pub entity_rows-append_entity :
    (id : ℕ) (row : EntityRecord) (r : RegistryRepo)
    → entity_rows id (append_entity row r)
      ≡ (if row.entity_id == id then entity_rows id r ++ row ∷ [] else entity_rows id r)
unfolding entity_rows append_entity
entity_rows-append_entity id row r = elim (Bool-cases (row.entity_id == id)) [
  | inl same ↦
      ap listed (get-put r.rows row.entity_id id (entity_rows row.entity_id r ++ row ∷ []))
      ∙ rw same (ap (λ k. entity_rows k r ++ row ∷ []) ((eqb_iff row.entity_id id).0 same))
  | inr other ↦
      ap listed (get-put r.rows row.entity_id id (entity_rows row.entity_id r ++ row ∷ []))
      ∙ rw other
]

-- One write: a row with the next version, a code of a known entity, a new entity with its first code,
-- or a relation, a word or an identifier.
pub data Write (r r' : RegistryRepo) : Type 0 where
  adds_row :
      (row : EntityRecord)
      → next_version row.entity_id r ≡ ok row.version
      → append_entity row r ≡ r'
      → Write r r'
  adds_code :
      (entry : CodeHistoryRecord) (row : EntityRecord)
      → In row (entity_rows entry.entity_id r)
      → append_code entry r ≡ r'
      → Write r r'
  founds :
      (a : Registration) (status : Option String) (now : ℕ)
      → (insert_entity a status now r).1 ≡ r'
      → Write r r'
  links : r'.rows ≡ r.rows → r'.codes ≡ r.codes → r'.next_id ≡ r.next_id → Write r r'

pub data Writes (r : RegistryRepo) : RegistryRepo → Type 0 where
  start : Writes r r
  then_write : {s t : RegistryRepo} → Writes r s → Write s t → Writes r t

module _ (r : RegistryRepo) (v : IsSound r) where
  pub new_row-IsSound :
      (row : EntityRecord)
      → next_version row.entity_id r ≡ ok row.version
      → IsSound (append_entity row r)
  new_row-IsSound row h = record {
    keyed = λ id x m. elim (where_from id x m) [
      | inl n ↦ v.keyed id x n
      | inr (e, same) ↦ ap (λ t. t.entity_id) e ∙ same
    ];
    numbered = λ id x m. elim (where_from id x m) [
      | inl n ↦ below id x n
      | inr (e, same) ↦
          subst (λ k. k < (append_entity row r).next_id) same
            (below row.entity_id (next_version_lem row.entity_id r row.version h).1.0
              (next_version_lem row.entity_id r row.version h).1.1)
    ];
    growing = λ id.
        subst IsGrowing (sym (entity_rows-append_entity id row r))
          (grown id (Bool-cases (row.entity_id == id)));
    coded = λ entry m.
        let (x, n) = v.coded entry (unfold append_entity in m) in (x, later entry.entity_id x n);
  }
    where
      where_from :
          (id : ℕ) (x : EntityRecord)
          → In x (entity_rows id (append_entity row r))
          → In x (entity_rows id r) ⊎ ((x ≡ row) × (row.entity_id ≡ id))
      where_from id x m = elim (Bool-cases (row.entity_id == id)) [
        | inl same ↦
            elim (In-last (entity_rows id r) x row
              (subst (In x) (entity_rows-append_entity id row r ∙ rw same) m)) [
                | inl n ↦ inl n
                | inr e ↦ inr (e, (eqb_iff row.entity_id id).0 same)
              ]
        | inr other ↦ inl (subst (In x) (entity_rows-append_entity id row r ∙ rw other) m)
      ]

      below :
          (id : ℕ) (x : EntityRecord) → In x (entity_rows id r) → id < (append_entity row r).next_id
      below id x n = unfold append_entity in v.numbered id x n

      later :
          (id : ℕ) (x : EntityRecord)
          → In x (entity_rows id r)
          → In x (entity_rows id (append_entity row r))
      later id x n =
          subst (In x) (sym (entity_rows-append_entity id row r)) (put_back (row.entity_id == id))
        where
          put_back :
              (b : Bool) → In x (if b then entity_rows id r ++ row ∷ [] else entity_rows id r)
          put_back true = append-In (entity_rows id r) (row ∷ []) x n
          put_back false = n

      grown :
          (id : ℕ)
          → ((row.entity_id == id) ≡ true) ⊎ ((row.entity_id == id) ≡ false)
          → IsGrowing
              (if row.entity_id == id then entity_rows id r ++ row ∷ [] else entity_rows id r)
      grown id (inr other) = rw other (v.growing id)
      grown id (inl same) = rw same (
          append-IsGrowing (entity_rows id r) row (v.growing id) (λ x m.
            (next_version_lem row.entity_id r row.version h).0 x
              (subst (λ k. In x (entity_rows k r)) (sym ((eqb_iff row.entity_id id).0 same)) m)))

  pub new_code-IsSound :
      (entry : CodeHistoryRecord) (row : EntityRecord)
      → In row (entity_rows entry.entity_id r)
      → IsSound (append_code entry r)
  unfolding append_code entity_rows
  new_code-IsSound entry row m = record {
    keyed = v.keyed;
    numbered = v.numbered;
    growing = v.growing;
    coded = λ x n. elim (In-last r.codes x entry n) [
      | inl o ↦ v.coded x o
      | inr e ↦ (row, subst (λ t. In row (entity_rows t.entity_id r)) (sym e) m)
    ];
  }

  pub links-IsSound :
      (s : RegistryRepo) → s.rows ≡ r.rows → s.codes ≡ r.codes → s.next_id ≡ r.next_id → IsSound s
  unfolding entity_rows
  links-IsSound s rows codes ids = record {
    keyed = λ id x m. v.keyed id x (subst (λ d. In x (listed (Dict.get d id))) rows m);
    numbered = λ id x m.
        subst (λ n. id < n) (sym ids)
          (v.numbered id x (subst (λ d. In x (listed (Dict.get d id))) rows m));
    growing = λ id. subst (λ d. IsGrowing (listed (Dict.get d id))) (sym rows) (v.growing id);
    coded = λ x m.
        let (row, n) = v.coded x (subst (In x) codes m) in
        (row, subst (λ d. In row (listed (Dict.get d x.entity_id))) (sym rows) n);
  }
