-- ===== src/Runtime/Validation/Loops.antt =====
-- Dependencies among registered tasks (runtime/registry.py), and the walks along them.
use fin_data_hub.Prelude.{◌≡◌, sym, subst, inl, inr, String, true, List, [], ◌∷◌, ◌++◌, In}
use fin_data_hub.Runtime.Tasks.{TaskRegistry}
use fin_data_hub.Runtime.Validation.{has, parents_in}

module _ (tasks : TaskRegistry) where
  -- A registered parent of a task.
  abbrev pub Needs : String → String → Type 0
  Needs job parent = In parent (parents_in tasks job) × (has tasks parent ≡ true)

  -- A task needs another, directly or through others.
  pub data Leads : String → String → Type 0 where
    direct : {job parent : String} → Needs job parent → Leads job parent
    through : {job parent far : String} → Needs job parent → Leads parent far → Leads job far

  -- A task from which no chain of dependencies is endless.
  pub data Ends : String → Type 0 where
    ends : {job : String} → ((parent : String) → Needs job parent → Ends parent) → Ends job

  abbrev pub IsWalk : List String → Type 0
  IsWalk [] = Unit
  IsWalk (a ∷ []) = Unit
  IsWalk (a ∷ b ∷ l) = Needs a b × IsWalk (b ∷ l)

  -- A walk that ends where it has been before.
  pub record IsLoop (path : List String) : Type 0 where
    pub front : List String
    pub last : String
    pub split : path ≡ front ++ last ∷ []
    pub walk : IsWalk path
    pub again : In last front

  pub IsWalk-snoc :
      (xs : List String) (a b : String)
      → IsWalk (xs ++ a ∷ [])
      → Needs a b
      → IsWalk (xs ++ a ∷ b ∷ [])
  IsWalk-snoc [] a b w n = (n, tt)
  IsWalk-snoc (x ∷ []) a b w n = (w.0, (n, tt))
  IsWalk-snoc (x ∷ y ∷ xs) a b w n = (w.0, IsWalk-snoc (y ∷ xs) a b w.1 n)

  -- The first of a walk leads to the last.
  Leads-end : (a : String) (xs : List String) (b : String) → IsWalk (a ∷ xs ++ b ∷ []) → Leads a b
  Leads-end a [] b w = direct w.0
  Leads-end a (x ∷ xs) b w = through w.0 (Leads-end x xs b w.1)

  tail-IsWalk : (a : String) (l : List String) → IsWalk (a ∷ l) → IsWalk l
  tail-IsWalk a [] w = tt
  tail-IsWalk a (b ∷ l) w = w.1

  Leads-again : (xs : List String) (a : String) → IsWalk (xs ++ a ∷ []) → In a xs → Leads a a
  Leads-again [] a w m = absurd m
  Leads-again (x ∷ xs) a w (inl e) = subst (λ y. Leads y a) (sym e) (Leads-end x xs a w)
  Leads-again (x ∷ xs) a w (inr m) = Leads-again xs a (tail-IsWalk x (xs ++ a ∷ []) w) m

  pub IsLoop-Leads : (path : List String) → IsLoop path → (job : String) × Leads job job
  IsLoop-Leads path l = (l.last, Leads-again l.front l.last (subst IsWalk l.split l.walk) l.again)

  -- Nothing that ends needs itself.
  pub Ends-irrefl : (a : String) → Ends a → Leads a a → ⊥
  Ends-irrefl a (ends next) (direct n) = Ends-irrefl a (next a n) (direct n)
  Ends-irrefl a (ends next) (through {job} {parent} n l) =
      Ends-irrefl parent (next parent n) (join l n)
    where
      join : {b : String} → Leads b a → Needs a parent → Leads b parent
      join (direct m) k = through m (direct k)
      join (through m r) k = through m (join r k)
