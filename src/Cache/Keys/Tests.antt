-- ===== src/Cache/Keys/Tests.antt =====
-- The keys of cache/keys.py at concrete parts.
use Prim.Native.Nat.{zero}
use fin_data_hub.Prelude.{ℕ, suc, String, ◌≡◌, refl, ap, true, none, some, arith}
use fin_data_hub.Cache.Keys.{
  cache_key, pit_token, key_text, has_no_colon, tail_of, cache_key_generation,
}

-- a number as so many strokes
tally : ℕ → String
tally zero = ""
tally (suc n) = String.◌∷◌ "1" (tally n)

tally_plain : (n : ℕ) → has_no_colon (tally n) ≡ true
unfolding tally has_no_colon
tally_plain zero = refl
tally_plain (suc n) = tally_plain n

size_of_text : String → ℕ
size_of_text String.[] = 0
size_of_text (String.◌∷◌ c s) = 1

tally_inj : (n m : ℕ) → tally n ≡ tally m → n ≡ m
unfolding tally tail_of size_of_text
tally_inj zero zero e = refl
tally_inj zero (suc m) e = absurd (ground (arith, ap size_of_text e))
tally_inj (suc n) zero e = absurd (ground (arith, ap size_of_text e))
tally_inj (suc n) (suc m) e = ap suc (tally_inj n m (ap tail_of e))

abbrev domain : String
domain = "bars"

abbrev panel : String
panel = "read_model"

abbrev generation : ℕ
generation = 2

cache_key_generation_example : (domain ≡ domain) × (panel ≡ panel) × (generation ≡ generation)
unfolding cache_key pit_token key_text has_no_colon tally
cache_key_generation_example =
    cache_key_generation tally tally_plain tally_inj domain domain panel panel generation generation
      (some "2024-01-02") (some "2024-01-02") none none "f0" "f0"
      "fdh:bars:read_model:g11:asof:2024-01-02:f0" refl refl refl refl refl refl
