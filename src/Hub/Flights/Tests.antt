-- ===== src/Hub/Flights/Tests.antt =====
-- The single flight of `MemoryCache` (hub's cache.py) in one run: a leader and a waiter, a thread with
-- `force` that finishes first, and a leader after it.
use fin_data_hub.Prelude.{ℕ, ◌≡◌, refl, some, string_eq, nat_eq, [], ◌∷◌}
use fin_data_hub.Prelude.Dict
use fin_data_hub.Hub.Flights.{
  Landing, loaded, Flights, no_flights, join_flight, finish_flight, joins, Reach, here, then_step,
}
use fin_data_hub.Hub.Flights.Waiters.{join_flight_lem}

abbrev none_yet : Flights ℕ
none_yet = no_flights

abbrev flying : Flights ℕ
flying = record { current = ("bars", 0) ∷ []; results = []; next = 1 }

join_flight_lem_example :
    (result : Landing ℕ) × (Dict.get (finish_flight "bars" (loaded 7) flying).results 0
      ≡ some result)
    × ((h : Flights ℕ)
        → Reach (finish_flight "bars" (loaded 7) flying) h
        → Dict.get h.results 0 ≡ some result)
unfolding join_flight Dict.get Dict.put
join_flight_lem_example =
    join_flight_lem none_yet flying "bars" (loaded 7) here (then_step (joins "bars") here)

-- A forced load has finished the flight of the first leader; a second leader is loading when the first
-- one is done, and the first one's value lands the second one's flight.
abbrev forced : Flights ℕ
forced = (join_flight "bars" (finish_flight "bars" (loaded 8) flying)).2

stale : Dict.get (finish_flight "bars" (loaded 7) forced).results 1 ≡ some (loaded 7)
unfolding join_flight finish_flight Dict.get Dict.put Dict.pop
stale = refl
