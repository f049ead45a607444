-- ===== src/Registry/Inverse.antt =====
-- Relations of `EntityRegistry` (registry/service.py) read from both ends.
use fin_data_hub.Prelude.{
  ℕ, String, ◌≡◌, refl, sym, ap, ◌∙◌, subst, inl, inr, ◌⊎◌, ◌↔◌, true, false, List, [], ◌∷◌, ◌++◌,
  Option, some, arith, ◌==◌, nat_eq, string_eq, leb, any, filter, map, In, In-filter, In-of_filter,
  Bool-cases, eqb_iff, any_witness, ==→≡, ≡→==, &&-true,
}
use fin_data_hub.Prelude.Dict
use fin_data_hub.Prelude.Sort.{In-sorted, In-of_sorted}
use fin_data_hub.Runtime.Result.{ok}
use fin_data_hub.Registry.Models.{RelationRecord, RelationTypeRecord, covers}
use fin_data_hub.Registry.Repository.{RegistryRepo, relation_rows, find_relations_by_related}
use fin_data_hub.Registry.Relations.{
  Vocabulary, word_at, distinct, in_relation, ids_of, related_ids,
}

In-distinct : (n : ℕ) (ns : List ℕ) → In n ns → In n (distinct ns)
unfolding distinct
In-distinct n [] m = absurd m
In-distinct n (x ∷ ns) (inr m) = elim (Bool-cases (any (λ k. k == x) ns)) [
  | inl again ↦ rw again (In-distinct n ns m)
  | inr first ↦ rw first (inr (In-distinct n ns m))
]
In-distinct n (x ∷ ns) (inl e) = elim (Bool-cases (any (λ k. k == x) ns)) [
  | inr first ↦ rw first (inl e)
  | inl again ↦
      let (k, m, q) = any_witness (λ k. k == x) ns again in
      rw again (In-distinct n ns (subst (λ t. In t ns) ((eqb_iff k x).0 q ∙ sym e) m))
]

In-of_distinct : (n : ℕ) (ns : List ℕ) → In n (distinct ns) → In n ns
unfolding distinct
In-of_distinct n [] m = absurd m
In-of_distinct n (x ∷ ns) m = from (Bool-cases (any (λ k. k == x) ns)) (In-of_distinct n ns)
  where
    from :
        (any (λ k. k == x) ns ≡ true) ⊎ (any (λ k. k == x) ns ≡ false)
        → (In n (distinct ns) → In n ns)
        → (n ≡ x) ⊎ In n ns
    from (inl again) ih = inr (ih (rw again at m))
    from (inr first) ih = place (rw first at m)
      where
        place : (n ≡ x) ⊎ In n (distinct ns) → (n ≡ x) ⊎ In n ns
        place (inl e) = inl e
        place (inr k) = inr (ih k)

In-map : {A : Type 0} (f : A → ℕ) (a : A) (xs : List A) → In a xs → In (f a) (map f xs)
In-map f a [] m = absurd m
In-map f a (x ∷ xs) (inl e) = inl (ap f e)
In-map f a (x ∷ xs) (inr m) = inr (In-map f a xs m)

In-of_map :
    {A : Type 0} (f : A → ℕ) (n : ℕ) (xs : List A) → In n (map f xs) → (a : A) × In a xs × (n ≡ f a)
In-of_map f n [] m = absurd m
In-of_map f n (x ∷ xs) (inl e) = (x, inl refl, e)
In-of_map f n (x ∷ xs) (inr m) = let (a, k, e) = In-of_map f n xs m in (a, inr k, e)

In-append : {A : Type 0} (xs ys : List A) (a : A) → In a (xs ++ ys) ↔ (In a xs ⊎ In a ys)
In-append [] ys a = (λ m. inr m, λ m. elim m [ inl n ↦ absurd n | inr n ↦ n ])
In-append (x ∷ xs) ys a = (
  λ m. elim m [
    | inl e ↦ inl (inl e)
    | inr n ↦ elim ((In-append xs ys a).0 n) [ inl k ↦ inl (inr k) | inr k ↦ inr k ]
  ],
  λ m. elim m [
    | inl n ↦ elim n [ inl e ↦ inl e | inr k ↦ inr ((In-append xs ys a).1 (inl k)) ]
    | inr n ↦ inr ((In-append xs ys a).1 (inr n))
  ],
)

-- A stored row says, for the date, that `id` stands in the relation to `other`, as it is or read
-- backwards in the inverse word.
IsRelated : String → String → ℕ → ℕ → Option ℕ → RegistryRepo → Type 0
IsRelated word inverse id other as_of r =
    (row : RelationRecord) × In row r.relations
    × (covers row.valid_from row.valid_to as_of ≡ true)
    × (((row.entity_id ≡ id) × (row.related_id ≡ other) × (row.relation_type ≡ word))
        ⊎ ((row.related_id ≡ id) × (row.entity_id ≡ other) × (row.relation_type ≡ inverse)))

ids_of_iff :
    (word inverse : String) (id other : ℕ) (as_of : Option ℕ) (r : RegistryRepo)
    → In other (ids_of word inverse id as_of r) ↔ IsRelated word inverse id other as_of r
unfolding ids_of IsRelated relation_rows find_relations_by_related
ids_of_iff word inverse id other as_of r = (
  λ m.
      elim ((In-append forward backward other).0 (
        In-of_distinct other (forward ++ backward)
          (In-of_sorted leb other (distinct (forward ++ backward)) m))) [
            | inl k ↦
                let (row, p, e) =
                  In-of_map (λ x. x.related_id) other
                    (filter (in_relation word as_of) (relation_rows id r)) k in
                let (q, c) = In-of_filter (in_relation word as_of) row (relation_rows id r) p in
                let (q', own) = In-of_filter (λ x. x.entity_id == id) row r.relations q in
                let (same, live) = &&-true (row.relation_type == word) _ c in
                (
                  row,
                  q',
                  live,
                  inl ((eqb_iff row.entity_id id).0 own, sym e, ==→≡ row.relation_type word same),
                )
            | inr k ↦
                let (row, p, e) =
                  In-of_map (λ x. x.entity_id) other
                    (filter (in_relation inverse as_of) (find_relations_by_related id r)) k in
                let (q, c) =
                  In-of_filter (in_relation inverse as_of) row (find_relations_by_related id r) p in
                let (q', own) = In-of_filter (λ x. x.related_id == id) row r.relations q in
                let (same, live) = &&-true (row.relation_type == inverse) _ c in
                (
                  row,
                  q',
                  live,
                  inr (
                    (eqb_iff row.related_id id).0 own,
                    sym e,
                    ==→≡ row.relation_type inverse same,
                  ),
                )
          ],
  λ (row, q, live, how). In-sorted leb other (distinct (forward ++ backward)) (
      In-distinct other (forward ++ backward)
        ((In-append forward backward other).1 (side row q live how))),
)
  where
    forward : List ℕ
    forward = map (λ x. x.related_id) (filter (in_relation word as_of) (relation_rows id r))

    backward : List ℕ
    backward =
        map (λ x. x.entity_id) (filter (in_relation inverse as_of) (find_relations_by_related id r))

    side :
        (row : RelationRecord)
        → In row r.relations
        → covers row.valid_from row.valid_to as_of ≡ true
        → ((row.entity_id ≡ id) × (row.related_id ≡ other) × (row.relation_type ≡ word))
          ⊎ ((row.related_id ≡ id) × (row.entity_id ≡ other) × (row.relation_type ≡ inverse))
        → In other forward ⊎ In other backward
    side row q live (inl (own, e, same)) = inl (
        subst (λ n. In n forward) e
          (In-map (λ x. x.related_id) row _
            (In-filter (in_relation word as_of) row (relation_rows id r)
              (In-filter (λ x. x.entity_id == id) row r.relations q
                ((eqb_iff row.entity_id id).1 own))
              (ground (arith, ≡→== row.relation_type word same, live)))))
    side row q live (inr (own, e, same)) = inr (
        subst (λ n. In n backward) e
          (In-map (λ x. x.entity_id) row _
            (In-filter (in_relation inverse as_of) row (find_relations_by_related id r)
              (In-filter (λ x. x.related_id == id) row r.relations q
                ((eqb_iff row.related_id id).1 own))
              (ground (arith, ≡→== row.relation_type inverse same, live)))))

-- Read from the other end in the inverse word.
IsRelated-swap :
    (word inverse : String) (id other : ℕ) (as_of : Option ℕ) (r : RegistryRepo)
    → IsRelated word inverse id other as_of r
    → IsRelated inverse word other id as_of r
unfolding IsRelated
IsRelated-swap word inverse id other as_of r (row, q, live, inl (a, b, c)) =
    (row, q, live, inr (b, a, c))
IsRelated-swap word inverse id other as_of r (row, q, live, inr (a, b, c)) =
    (row, q, live, inl (b, a, c))

-- If two words are inverse to each other, `related_ids` gives `other` for `id` in the one exactly when
-- it gives `id` for `other` in the other one, whichever way the row is stored.
pub related_ids_inverse :
    (vocab : Vocabulary) (word inverse : RelationTypeRecord) (id other : ℕ) (as_of : Option ℕ)
    (r : RegistryRepo)
    → Dict.get vocab word.relation_type ≡ some word
    → Dict.get vocab inverse.relation_type ≡ some inverse
    → word.inverse_relation ≡ inverse.relation_type
    → inverse.inverse_relation ≡ word.relation_type
    → (ids ids' : List ℕ) × (related_ids vocab id word.relation_type as_of r ≡ ok ids)
      × (related_ids vocab other inverse.relation_type as_of r ≡ ok ids')
      × (In other ids ↔ In id ids')
unfolding related_ids word_at
related_ids_inverse vocab word inverse id other as_of r g g' e e' = (
  ids_of word.relation_type word.inverse_relation id as_of r,
  ids_of inverse.relation_type inverse.inverse_relation other as_of r,
  ground (arith, g),
  ground (arith, g'),
  (
    λ m.
        turn word.relation_type inverse.relation_type inverse.inverse_relation word.inverse_relation
          id other e e' m,
    λ m.
        turn inverse.relation_type word.relation_type word.inverse_relation inverse.inverse_relation
          other id e' e m,
  ),
)
  where
    turn :
        (a b b' a' : String) (x y : ℕ)
        → a' ≡ b
        → b' ≡ a
        → In y (ids_of a a' x as_of r)
        → In x (ids_of b b' y as_of r)
    turn a b b' a' x y p q m =
        subst (λ t. In x (ids_of b t y as_of r)) (sym q)
          ((ids_of_iff b a y x as_of r).1 (
            IsRelated-swap a b x y as_of r
              ((ids_of_iff a b x y as_of r).0 (subst (λ t. In y (ids_of a t x as_of r)) p m))))
