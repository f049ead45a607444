-- ===== src/Hub/Flights.antt =====
-- src/fin_data_hub/cache.py, the single flight of `MemoryCache.get_or_load`: which thread loads a key
-- and what the others get. A flight is a number, in the order in which they are made; `results` holds
-- those whose event is set. A thread reads its flight only after that, so it is set once and for all.
-- Threads are sequences of these calls, in any order; both are under the cache's lock but for the
-- setting of the event, which only the thread that has taken the flight out does.
pub mod Waiters
pub mod Tests
use fin_data_hub.Prelude.{
  ℕ, ◌+◌, ◌<◌, String, ◌≡◌, refl, sym, ap, ◌∙◌, ◌⊎◌, inl, inr, Bool, true, false, [], Option, none,
  some, arith, ◌==◌, Eq, nat_eq, string_eq, if◌then◌else◌, Option-cases, Bool-cases, ==→≡, ==-refl,
}
use fin_data_hub.Prelude.Dict
use fin_data_hub.Prelude.Dict.{Dict, get-put, get-pop}

-- how a flight ends: with the value or the exception of the loader
pub data Landing (V : Type 0) : Type 0 where
  loaded : V → Landing V
  failed : String → Landing V

pub record Flights (V : Type 0) : Type 0 where
  pub current : Dict String ℕ
  pub results : Dict ℕ (Landing V)
  pub next : ℕ

module _ {V : Type 0} where
  abbrev pub no_flights : Flights V
  no_flights = record { current = []; results = []; next = 0 }

  -- `_join_flight`: the flight, and whether the thread is its leader
  unfoldable pub join_flight : String → Flights V → ℕ × Bool × Flights V
  join_flight key f = elim (Dict.get f.current key) [
    | some flight ↦ (flight, false, f)
    | none ↦ (f.next, true, record f { current = Dict.put f.current key f.next; next = f.next + 1 })
  ]

  -- `_finish_flight`
  unfoldable pub finish_flight : String → Landing V → Flights V → Flights V
  finish_flight key landing f = elim (Dict.get f.current key) [
    | none ↦ f
    | some flight ↦ record f {
      current = Dict.pop f.current key;
      results = Dict.put f.results flight landing;
    }
  ]

  pub data Step : Flights V → Flights V → Type 0 where
    joins : {f : Flights V} (key : String) → Step f (join_flight key f).2
    finishes :
        {f : Flights V} (key : String) (landing : Landing V) → Step f (finish_flight key landing f)

  -- any calls one after the other
  pub data Reach : Flights V → Flights V → Type 0 where
    here : {f : Flights V} → Reach f f
    then_step : {f g h : Flights V} → Step f g → Reach g h → Reach f h

  pub record IsSound (f : Flights V) : Type 0 where
    pub fresh :
        (key : String) (flight : ℕ)
        → Dict.get f.current key ≡ some flight
        → (flight < f.next) × (Dict.get f.results flight ≡ none)
    pub own :
        (a b : String) (flight : ℕ)
        → Dict.get f.current a ≡ some flight
        → Dict.get f.current b ≡ some flight
        → a ≡ b
    pub ended :
        (flight : ℕ) (landing : Landing V)
        → Dict.get f.results flight ≡ some landing
        → flight < f.next

  pub no_flights-IsSound : IsSound no_flights
  unfolding Dict.get
  no_flights-IsSound = record {
    fresh = λ key flight h. ground arith;
    own = λ a b flight h k. ground arith;
    ended = λ flight landing h. ground arith;
  }

  pub join_flight-IsSound :
      (key : String) (f : Flights V) → IsSound f → IsSound (join_flight key f).2
  unfolding join_flight
  join_flight-IsSound key f v = elim (Option-cases (Dict.get f.current key)) [
    | inr (flight, e) ↦ rw (e, join_flight) v
    | inl e ↦ rw (e, join_flight) made
  ]
    where
      unset : Dict.get f.results f.next ≡ none
      unset = elim (Option-cases (Dict.get f.results f.next)) [
        | inl h ↦ h
        | inr (landing, h) ↦ absurd (omega (arith, v.ended f.next landing h))
      ]

      after :
          (k : String) (flight : ℕ)
          → Dict.get (Dict.put f.current key f.next) k ≡ some flight
          → ((k ≡ key) × (flight ≡ f.next))
            ⊎ ((Dict.get f.current k ≡ some flight) × (flight < f.next))
      after k flight h = elim (Bool-cases (key == k)) [
        | inl same ↦ inl (sym (==→≡ key k same), ground (arith, get-put f.current key k f.next))
        | inr other ↦
            let old : Dict.get f.current k ≡ some flight =
              ground (arith, get-put f.current key k f.next) in
            inr (old, (v.fresh k flight old).0)
      ]

      made : IsSound (record f { current = Dict.put f.current key f.next; next = f.next + 1 })
      made = record {
        fresh = λ k flight h. elim (after k flight h) [
          | inl (p, q) ↦ (omega arith, ap (Dict.get f.results) q ∙ unset)
          | inr (old, b) ↦ (omega arith, (v.fresh k flight old).1)
        ];
        own = λ a b flight h k. elim (after a flight h) [
          | inl (p, q) ↦ elim (after b flight k) [
            | inl (r, t) ↦ p ∙ sym r
            | inr (old, less) ↦ absurd (omega arith)
          ]
          | inr (old, less) ↦ elim (after b flight k) [
            | inl (r, t) ↦ absurd (omega arith)
            | inr (old', less') ↦ v.own a b flight old old'
          ]
        ];
        ended = λ flight landing h. let b = v.ended flight landing h in omega arith;
      }

  pub finish_flight-IsSound :
      (key : String) (landing : Landing V) (f : Flights V)
      → IsSound f
      → IsSound (finish_flight key landing f)
  unfolding finish_flight
  finish_flight-IsSound key landing f v = elim (Option-cases (Dict.get f.current key)) [
    | inl e ↦ rw (e, finish_flight) v
    | inr (done, e) ↦ rw (e, finish_flight) (landed done e)
  ]
    where
      before :
          (k : String) (flight : ℕ)
          → Dict.get (Dict.pop f.current key) k ≡ some flight
          → (key == k ≡ false) × (Dict.get f.current k ≡ some flight)
      before k flight h = ground (arith, get-pop f.current key k)

      landed :
          (done : ℕ)
          → Dict.get f.current key ≡ some done
          → IsSound (record f {
            current = Dict.pop f.current key;
            results = Dict.put f.results done landing;
          })
      landed done e = record {
        fresh = λ k flight h.
            let (differs, old) = before k flight h in
            (
              (v.fresh k flight old).0,
              elim (Bool-cases (done == flight)) [
                | inl same ↦
                    let back = ap some (sym (==→≡ done flight same)) in
                    let p = v.own k key done (old ∙ back) e in
                    absurd (ground (arith, differs, p, ==-refl key))
                | inr other ↦
                    get-put f.results done flight landing ∙ rw other ((v.fresh k flight old).1)
              ],
            );
        own = λ a b flight h k. v.own a b flight (before a flight h).1 (before b flight k).1;
        ended = λ flight l h. elim (Bool-cases (done == flight)) [
          | inl same ↦
              let p = ==→≡ done flight same in let b = (v.fresh key done e).0 in omega arith
          | inr other ↦ v.ended flight l (ground (arith, get-put f.results done flight landing))
        ];
      }
