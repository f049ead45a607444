-- ===== src/Prelude/Dict.antt =====
-- Python's `dict` and `OrderedDict`: entries in insertion order, a replaced value keeps its place.
use fin_data_hub.Prelude.{
  ◌≡◌, refl, ap, ◌∙◌, inl, inr, List, [], ◌∷◌, ◌++◌, Option, none, some, arith, Eq, ◌==◌,
  if◌then◌else◌, Bool-cases, In, ==-refl,
}

abbrev pub Dict {ℓ} : Type ℓ → Type ℓ → Type ℓ
Dict K V = List (K × V)

-- `d.values()`
unfoldable pub values {ℓ} : {K V : Type ℓ} → Dict K V → List V
values [] = []
values ((k, v) ∷ d) = v ∷ values d

module _ {ℓ} {K V : Type ℓ} ⦃e : Eq K⦄ where
  -- `d.get(k)`
  unfoldable pub get : Dict K V → K → Option V
  get [] k = none
  get ((j, v) ∷ d) k = if j == k then some v else get d k

  -- `d[k] = v`
  unfoldable pub put : Dict K V → K → V → Dict K V
  put [] k v = (k, v) ∷ []
  put ((j, w) ∷ d) k v = let rest = put d k v in if j == k then (j, v) ∷ d else (j, w) ∷ rest

  -- `d.pop(k, None)`
  unfoldable pub pop : Dict K V → K → Dict K V
  pop [] k = []
  pop ((j, w) ∷ d) k = let rest = pop d k in if j == k then rest else (j, w) ∷ rest

  pub get-put :
      (d : Dict K V) (k j : K) (v : V) → get (put d k v) j ≡ (if k == j then some v else get d j)
  unfolding get put
  get-put [] k j v = refl
  get-put ((i, w) ∷ d) k j v =
      ground (arith, e.test_iff i k, e.test_iff i j, e.test_iff k j, get-put d k j v)

  pub get-pop : (d : Dict K V) (k j : K) → get (pop d k) j ≡ (if k == j then none else get d j)
  unfolding get pop
  get-pop [] k j = ground arith
  get-pop ((i, w) ∷ d) k j =
      ground (arith, e.test_iff i k, e.test_iff i j, e.test_iff k j, get-pop d k j)

  pub get-put_self : (d : Dict K V) (k : K) (v : V) → get (put d k v) k ≡ some v
  get-put_self d k v = ground (arith, get-put d k k v, ==-refl k)

  -- No key twice.
  abbrev pub IsDict : Dict K V → Type ℓ
  IsDict [] = Unit
  IsDict ((k, v) ∷ d) = (get d k ≡ none) × IsDict d

  pub put-IsDict : (d : Dict K V) (k : K) (v : V) → IsDict d → IsDict (put d k v)
  unfolding put get
  put-IsDict [] k v h = (refl, tt)
  put-IsDict ((j, w) ∷ d) k v h = elim (Bool-cases (j == k)) [
    | inl same ↦ rw same h
    | inr other ↦
        rw other
          (ground (arith, get-put d k j v, e.test_iff k j, e.test_iff j k), put-IsDict d k v h.1)
  ]

  pub pop-IsDict : (d : Dict K V) (k : K) → IsDict d → IsDict (pop d k)
  unfolding pop get
  pop-IsDict [] k h = tt
  pop-IsDict ((j, w) ∷ d) k h = elim (Bool-cases (j == k)) [
    | inl same ↦ rw same (pop-IsDict d k h.1)
    | inr other ↦
        rw other (ground (arith, get-pop d k j, e.test_iff k j, e.test_iff j k), pop-IsDict d k h.1)
  ]

module _ {K V : Type 0} ⦃e : Eq K⦄ where
  pub get_of_In : (d : Dict K V) (k : K) (v : V) → IsDict d → In (k, v) d → get d k ≡ some v
  unfolding get
  get_of_In [] k v h m = absurd m
  get_of_In ((j, w) ∷ d) k v h (inl p) = ground (arith, e.test_iff j k)
  get_of_In ((j, w) ∷ d) k v h (inr m) = ground (arith, e.test_iff j k, get_of_In d k v h.1 m)

  pub In-of_get : (d : Dict K V) (k : K) (v : V) → get d k ≡ some v → In (k, v) d
  unfolding get
  In-of_get [] k v h = ground arith
  In-of_get ((j, w) ∷ d) k v h = elim (Bool-cases (j == k)) [
    | inl same ↦ inl (ground (arith, e.test_iff j k))
    | inr other ↦ inr (In-of_get d k v (ground arith))
  ]

  pub In-values : (d : Dict K V) (k : K) (v : V) → get d k ≡ some v → In v (values d)
  unfolding get values
  In-values [] k v h = ground arith
  In-values ((j, w) ∷ d) k v h = elim (Bool-cases (j == k)) [
    | inl same ↦ inl (ground arith)
    | inr other ↦ inr (In-values d k v (ground arith))
  ]

  pub key_of_In : (d : Dict K V) (v : V) → In v (values d) → (k : K) × In (k, v) d
  unfolding values
  key_of_In [] v m = absurd m
  key_of_In ((j, w) ∷ d) v (inl p) = (j, inl (ap (λ x. (j, x)) p))
  key_of_In ((j, w) ∷ d) v (inr m) = let (k, n) = key_of_In d v m in (k, inr n)

-- A value under a new key comes last.
pub values-put_fresh {ℓ} :
    {K V : Type ℓ} ⦃e : Eq K⦄ (d : Dict K V) (k : K) (v : V)
    → get d k ≡ none
    → values (put d k v) ≡ values d ++ v ∷ []
unfolding get put values
values-put_fresh [] k v h = refl
values-put_fresh ⦃e⦄ ((j, w) ∷ d) k v h = elim (Bool-cases (j == k)) [
  | inl same ↦ absurd (ground arith)
  | inr other ↦ rw other (ap (◌∷◌ w) (values-put_fresh d k v (ground arith)))
]

module _ {ℓ} {K V : Type ℓ} ⦃e : Eq K⦄ where
  pub pop-absent : (d : Dict K V) (k : K) → get d k ≡ none → pop d k ≡ d
  unfolding get pop
  pop-absent [] k h = refl
  pop-absent ((j, w) ∷ d) k h = elim (Bool-cases (j == k)) [
    | inl same ↦ absurd (ground arith)
    | inr other ↦ rw other (ap (◌∷◌ (j, w)) (pop-absent d k (ground arith)))
  ]

  -- The entries of two dicts one after the other: the first that has the key.
  pub get-append : (d d' : Dict K V) (k : K) (v : V) → get d k ≡ some v → get (d ++ d') k ≡ some v
  unfolding get
  get-append [] d' k v h = absurd (ground arith)
  get-append ((j, w) ∷ d) d' k v h = ground (arith, get-append d d' k v)

  pub get-append_absent : (d d' : Dict K V) (k : K) → get d k ≡ none → get (d ++ d') k ≡ get d' k
  unfolding get
  get-append_absent [] d' k h = refl
  get-append_absent ((j, w) ∷ d) d' k h = ground (arith, get-append_absent d d' k)

  -- A new key at the end keeps the keys apart.
  pub append-IsDict :
      (d : Dict K V) (k : K) (v : V) → IsDict d → get d k ≡ none → IsDict (d ++ (k, v) ∷ [])
  unfolding get
  append-IsDict [] k v h n = (refl, tt)
  append-IsDict ((j, w) ∷ d) k v h n = (
    get-append_absent d ((k, v) ∷ []) j h.0 ∙ ground (arith, e.test_iff j k, e.test_iff k j),
    append-IsDict d k v h.1 (ground arith),
  )
