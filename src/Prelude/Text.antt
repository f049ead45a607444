-- ===== src/Prelude/Text.antt =====
-- Python's `str.startswith`, on texts as lists of characters.
use Prim.Native.Char.{code}
use Prim.Native.String.{◌++◌}
use Prim.Native.String.append
use fin_data_hub.Prelude.{String, ◌≡◌, refl, Bool, true, false, ◌&&◌, ◌==◌, nat_eq, arith, ==-refl}

unfoldable pub starts_with : String → String → Bool
starts_with s String.[] = true
starts_with String.[] (String.◌∷◌ d t) = false
starts_with (String.◌∷◌ c s) (String.◌∷◌ d t) = code c == code d && starts_with s t

-- A text starts with each text that it extends.
pub starts_with-append : (s t : String) → starts_with (s ++ t) s ≡ true
unfolding starts_with
starts_with-append String.[] t = refl
starts_with-append (String.◌∷◌ c s) t =
    rw (append.cons c s t) (ground (arith, starts_with-append s t, ==-refl (code c)))
