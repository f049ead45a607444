-- ===== src/Hub/Flights/Waiters.antt =====
-- The threads that wait for a flight of `MemoryCache` (hub's cache.py) all get one result.
use fin_data_hub.Prelude.{
  ℕ, String, ◌≡◌, ap, ◌∙◌, ◌⊎◌, inl, inr, false, none, some, arith, ◌==◌, nat_eq, string_eq,
  Option-cases, Bool-cases, ==→≡,
}
use fin_data_hub.Prelude.Dict
use fin_data_hub.Prelude.Dict.{get-put, get-pop}
use fin_data_hub.Hub.Flights.{
  Landing, Flights, no_flights, join_flight, finish_flight, joins, finishes, Reach, here, then_step,
  IsSound, no_flights-IsSound, join_flight-IsSound, finish_flight-IsSound,
}

module _ {V : Type 0} where
  Reach-IsSound : (f g : Flights V) → IsSound f → Reach f g → IsSound g
  Reach-IsSound f g v here = v
  Reach-IsSound f g v (then_step (joins key) r) =
      Reach-IsSound (join_flight key f).2 g (join_flight-IsSound key f v) r
  Reach-IsSound f g v (then_step (finishes key landing) r) =
      Reach-IsSound (finish_flight key landing f) g (finish_flight-IsSound key landing f v) r

  -- A flight has its result.
  abbrev Landed : ℕ → Flights V → Landing V → Type 0
  Landed flight f landing = Dict.get f.results flight ≡ some landing

  -- A flight is under way for its key, or has its result.
  abbrev Tracked : String → ℕ → Flights V → Type 0
  Tracked key flight f =
      (Dict.get f.current key ≡ some flight) ⊎ ((landing : Landing V) × Landed flight f landing)

  join_flight-Tracked :
      (key : String) (f : Flights V) → Tracked key (join_flight key f).0 (join_flight key f).2
  unfolding join_flight
  join_flight-Tracked key f = elim (Option-cases (Dict.get f.current key)) [
    | inr (flight, e) ↦ rw (e, join_flight) (inl e)
    | inl e ↦ rw (e, join_flight) (inl (Dict.get-put_self f.current key f.next))
  ]

  -- a result is not overwritten
  finish_flight-Landed :
      (key : String) (new : Landing V) (f : Flights V)
      → IsSound f
      → (flight : ℕ) (landing : Landing V) → Landed flight f landing
      → Landed flight (finish_flight key new f) landing
  unfolding finish_flight
  finish_flight-Landed key new f v flight landing h = elim (Option-cases (Dict.get f.current key)) [
    | inl e ↦ rw (e, finish_flight) h
    | inr (done, e) ↦
        let other : (done == flight) ≡ false = apart done e in
        rw (e, finish_flight) (get-put f.results done flight new ∙ rw other h)
  ]
    where
      apart : (done : ℕ) → Dict.get f.current key ≡ some done → (done == flight) ≡ false
      apart done e = elim (Bool-cases (done == flight)) [
        | inr other ↦ other
        | inl same ↦
            let open_yet = (v.fresh key done e).1 in
            let p = ap (Dict.get f.results) (==→≡ done flight same) in
            absurd (ground (arith, open_yet, p, h))
      ]

  join_flight-Landed :
      (key : String) (f : Flights V) (flight : ℕ) (landing : Landing V)
      → Landed flight f landing
      → Landed flight (join_flight key f).2 landing
  unfolding join_flight
  join_flight-Landed key f flight landing h = elim (Option-cases (Dict.get f.current key)) [
    | inr (old, e) ↦ rw (e, join_flight) h
    | inl e ↦ rw (e, join_flight) h
  ]

  Reach-Landed :
      (f g : Flights V)
      → IsSound f
      → Reach f g
      → (flight : ℕ) (landing : Landing V) → Landed flight f landing
      → Landed flight g landing
  Reach-Landed f g v here flight landing h = h
  Reach-Landed f g v (then_step (joins key) r) flight landing h =
      Reach-Landed (join_flight key f).2 g (join_flight-IsSound key f v) r flight landing
        (join_flight-Landed key f flight landing h)
  Reach-Landed f g v (then_step (finishes key new) r) flight landing h =
      Reach-Landed (finish_flight key new f) g (finish_flight-IsSound key new f v) r flight landing
        (finish_flight-Landed key new f v flight landing h)

  -- the flight that is under way for a key lands when the key is finished
  finish_flight_lands :
      (key : String) (landing : Landing V) (f : Flights V) (flight : ℕ)
      → Dict.get f.current key ≡ some flight
      → Landed flight (finish_flight key landing f) landing
  unfolding finish_flight
  finish_flight_lands key landing f flight e =
      rw (e, finish_flight) (Dict.get-put_self f.results flight landing)

  finish_flight_other :
      (key other : String) (landing : Landing V) (f : Flights V) (flight : ℕ)
      → (other == key) ≡ false
      → Dict.get f.current key ≡ some flight
      → Dict.get (finish_flight other landing f).current key ≡ some flight
  unfolding finish_flight
  finish_flight_other key other landing f flight differs h =
      elim (Option-cases (Dict.get f.current other)) [
        | inl e ↦ rw (e, finish_flight) h
        | inr (done, e) ↦ rw (e, finish_flight) (get-pop f.current other key ∙ rw differs h)
      ]

  finish_flight-Tracked :
      (key other : String) (landing : Landing V) (f : Flights V) (flight : ℕ)
      → IsSound f
      → Tracked key flight f
      → Tracked key flight (finish_flight other landing f)
  finish_flight-Tracked key other landing f flight v (inr (l, h)) =
      inr (l, finish_flight-Landed other landing f v flight l h)
  finish_flight-Tracked key other landing f flight v (inl h) = elim (Bool-cases (other == key)) [
    | inr differs ↦ inl (finish_flight_other key other landing f flight differs h)
    | inl same ↦
        let p = ==→≡ other key same in
        inr (landing, finish_flight_lands other landing f flight (ap (Dict.get f.current) p ∙ h))
  ]

  join_flight-keeps :
      (key other : String) (f : Flights V) (flight : ℕ)
      → Tracked key flight f
      → Tracked key flight (join_flight other f).2
  unfolding join_flight
  join_flight-keeps key other f flight (inr (l, h)) = inr (l, join_flight-Landed other f flight l h)
  join_flight-keeps key other f flight (inl h) = elim (Option-cases (Dict.get f.current other)) [
    | inr (old, e) ↦ rw (e, join_flight) (inl h)
    | inl e ↦ rw (e, join_flight) (inl (kept e))
  ]
    where
      kept :
          Dict.get f.current other ≡ none
          → Dict.get (Dict.put f.current other f.next) key ≡ some flight
      kept e = elim (Bool-cases (other == key)) [
        | inr differs ↦ get-put f.current other key f.next ∙ rw differs h
        | inl same ↦
            let p = ap (Dict.get f.current) (==→≡ other key same) in
            absurd (ground (arith, e, p, h))
      ]

  Reach-Tracked :
      (key : String) (flight : ℕ) (f g : Flights V)
      → IsSound f
      → Reach f g
      → Tracked key flight f
      → Tracked key flight g
  Reach-Tracked key flight f g v here t = t
  Reach-Tracked key flight f g v (then_step (joins other) r) t =
      Reach-Tracked key flight (join_flight other f).2 g (join_flight-IsSound other f v) r
        (join_flight-keeps key other f flight t)
  Reach-Tracked key flight f g v (then_step (finishes other l) r) t =
      Reach-Tracked key flight (finish_flight other l f) g (finish_flight-IsSound other l f v) r
        (finish_flight-Tracked key other l f flight v t)

  -- A thread that joins a flight is not left waiting: once the key is finished, by whichever thread and
  -- after whatever calls in between, its flight has a result. That result stays.
  pub join_flight_lem :
      (f g : Flights V) (key : String) (landing : Landing V)
      → Reach no_flights f
      → Reach (join_flight key f).2 g
      → (result : Landing V) × (Dict.get (finish_flight key landing g).results (join_flight key f).0
          ≡ some result)
        × ((h : Flights V)
            → Reach (finish_flight key landing g) h
            → Dict.get h.results (join_flight key f).0 ≡ some result)
  join_flight_lem f g key landing built later =
      let v = Reach-IsSound no_flights f no_flights-IsSound built in
      let w = Reach-IsSound (join_flight key f).2 g (join_flight-IsSound key f v) later in
      let x = finish_flight-IsSound key landing g w in
      elim (Reach-Tracked key (join_flight key f).0 (join_flight key f).2 g
        (join_flight-IsSound key f v) later (join_flight-Tracked key f)) [
          | inl h ↦
              let done = finish_flight_lands key landing g (join_flight key f).0 h in
              (
                landing,
                done,
                λ e r.
                    Reach-Landed (finish_flight key landing g) e x r (join_flight key f).0 landing
                      done,
              )
          | inr (l, h) ↦
              let done = finish_flight-Landed key landing g w (join_flight key f).0 l h in
              (
                l,
                done,
                λ e r.
                    Reach-Landed (finish_flight key landing g) e x r (join_flight key f).0 l done,
              )
        ]
