-- ===== src/Runtime/Repository/Watermarks.antt =====
-- Watermarks of `InMemoryMetaRepository` (runtime/repository.py): `advance_watermark` never goes back.
use Prim.Native.Nat.{max}
use fin_data_hub.Prelude.{
  ℕ, String, ◌≡◌, refl, ap, ◌∙◌, inl, inr, false, Option, none, some, List, [], ◌∷◌, arith, ◌==◌,
  string_eq, pair_eq, Bool-cases, pair_beq_iff,
}
use fin_data_hub.Prelude.Dict
use fin_data_hub.Prelude.Dict.{get-put}
use fin_data_hub.Runtime.Models.{Watermark}
use fin_data_hub.Runtime.Repository.State.{Repo}
use fin_data_hub.Runtime.Repository.Marks.{get_watermark, mark_at, advance_watermark}

-- Advancing a mark leaves the runs and the next id.
pub advance_keeps_runs :
    (dataset scope : String) (time : ℕ) (r : Repo)
    → ((advance_watermark dataset scope time r).1.runs ≡ r.runs)
      × ((advance_watermark dataset scope time r).1.next_run_id ≡ r.next_run_id)
unfolding advance_watermark
advance_keeps_runs dataset scope time r = ground arith

-- The time that a mark stands for, with no mark and an empty mark below every time.
abbrev pub reached : Option Watermark → Option ℕ
reached none = none
reached (some mark) = mark.watermark_time

abbrev pub later : Option ℕ → ℕ → ℕ
later none t = t
later (some s) t = max s t

-- Two marks have one key exactly when dataset and scope agree.
other_key :
    (dataset scope d s : String)
    → ((dataset ≡ d) × (scope ≡ s) → ⊥)
    → (◌==◌ {A = String × String} (dataset, scope) (d, s)) ≡ false
other_key dataset scope d s n =
    elim (Bool-cases (◌==◌ {A = String × String} (dataset, scope) (d, s))) [
      | inr e ↦ e
      | inl e ↦
          let both = (pair_beq_iff (dataset, scope) (d, s)).0 e in
          absurd
            (n (ap (λ (p : String × String). p.0) both, ap (λ (p : String × String). p.1) both))
    ]

module _ (dataset scope : String) (time : ℕ) (r : Repo) where
  -- what is read under another key after a write
  set_watermark_other :
      (mark : Watermark) (d s : String)
      → ((dataset ≡ d) × (scope ≡ s) → ⊥)
      → Dict.get (Dict.put r.watermarks (dataset, scope) mark) (d, s) ≡ Dict.get r.watermarks (d, s)
  set_watermark_other mark d s n =
      get-put r.watermarks (dataset, scope) (d, s) mark ∙ rw (other_key dataset scope d s n)

  -- what is read under the key itself
  set_watermark_self :
      (mark : Watermark)
      → Dict.get (Dict.put r.watermarks (dataset, scope) mark) (dataset, scope) ≡ some mark
  set_watermark_self mark = Dict.get-put_self r.watermarks (dataset, scope) mark

  -- After an advance the mark of its dataset and scope stands at the later of the old time and the
  -- new one, the call returns the stored mark, and every other mark is unchanged.
  pub advance_watermark_lem :
      (reached (get_watermark dataset scope (advance_watermark dataset scope time r).1)
        ≡ some (later (reached (get_watermark dataset scope r)) time))
      × (get_watermark dataset scope (advance_watermark dataset scope time r).1
          ≡ some (advance_watermark dataset scope time r).0)
      × ((d s : String)
          → ((dataset ≡ d) × (scope ≡ s) → ⊥)
          → get_watermark d s (advance_watermark dataset scope time r).1 ≡ get_watermark d s r)
  unfolding advance_watermark
  advance_watermark_lem = (
    ground (arith, set_watermark_self (mark_at dataset scope time)),
    ground (arith, set_watermark_self (mark_at dataset scope time)),
    λ d s n. ground (arith, set_watermark_other (mark_at dataset scope time) d s n),
  )

-- `advance_watermark` for each of a list of times
unfoldable pub advance_all : String → String → List ℕ → Repo → Repo
advance_all dataset scope [] r = r
advance_all dataset scope (t ∷ ts) r =
    advance_all dataset scope ts (advance_watermark dataset scope t r).1

-- the latest of the times, if there is one
abbrev pub latest : Option ℕ → List ℕ → Option ℕ
latest o [] = o
latest o (t ∷ ts) = latest (some (later o t)) ts

reached-advance_all :
    (dataset scope : String) (ts : List ℕ) (r : Repo)
    → reached (get_watermark dataset scope (advance_all dataset scope ts r))
      ≡ latest (reached (get_watermark dataset scope r)) ts
unfolding advance_all
reached-advance_all dataset scope [] r = refl
reached-advance_all dataset scope (t ∷ ts) r =
    reached-advance_all dataset scope ts (advance_watermark dataset scope t r).1
    ∙ ap (λ o. latest o ts) (advance_watermark_lem dataset scope t r).0

get_watermark-advance_all :
    (dataset scope : String) (ts : List ℕ) (r : Repo) (d s : String)
    → ((dataset ≡ d) × (scope ≡ s) → ⊥)
    → get_watermark d s (advance_all dataset scope ts r) ≡ get_watermark d s r
unfolding advance_all
get_watermark-advance_all dataset scope [] r d s n = refl
get_watermark-advance_all dataset scope (t ∷ ts) r d s n =
    get_watermark-advance_all dataset scope ts (advance_watermark dataset scope t r).1 d s n
    ∙ (advance_watermark_lem dataset scope t r).2 d s n

-- However many windows finish, and in whatever order, the mark ends at the latest of the old mark
-- and all the times: backfills and late windows never set it back. Each call returns the mark that it
-- leaves stored, and no other mark changes.
pub advance_all_lem :
    (dataset scope : String) (ts : List ℕ) (r : Repo)
    → (reached (get_watermark dataset scope (advance_all dataset scope ts r))
        ≡ latest (reached (get_watermark dataset scope r)) ts)
      × ((t : ℕ)
          → get_watermark dataset scope (advance_watermark dataset scope t r).1
            ≡ some (advance_watermark dataset scope t r).0)
      × ((d s : String)
          → ((dataset ≡ d) × (scope ≡ s) → ⊥)
          → get_watermark d s (advance_all dataset scope ts r) ≡ get_watermark d s r)
advance_all_lem dataset scope ts r = (
  reached-advance_all dataset scope ts r,
  λ t. (advance_watermark_lem dataset scope t r).1,
  get_watermark-advance_all dataset scope ts r,
)
