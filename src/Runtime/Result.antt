-- ===== src/Runtime/Result.antt =====
-- Python exceptions that the runtime raises or lets through, as values.
use fin_data_hub.Prelude.{◌≡◌, refl}

pub data Error : Type 0 where
  value_error key_error : Error
  -- of the SQL library: a query for one row finds none, finds several, and a write that a key forbids
  no_result multiple_results integrity_error : Error

pub data Result {ℓ} (A : Type ℓ) : Type ℓ where
  raise : Error → Result A
  ok : A → Result A

infixl 5 ◌>>=◌ ◌>>◌
abbrev pub ◌>>=◌ {ℓ κ} : {A : Type ℓ} {B : Type κ} → Result A → (A → Result B) → Result B
raise e >>= f = raise e
ok a >>= f = f a

abbrev pub ◌>>◌ {ℓ} : {B : Type ℓ} → Result (Unit {0}) → Result B → Result B
m >> k = m >>= λ _. k

-- What a chain that returns has returned on the way.
pub >>=-ok {ℓ} :
    {X Y : Type ℓ} (first : Result X) {next : X → Result Y} {y : Y}
    → (first >>= next) ≡ ok y
    → (x : X) × (first ≡ ok x) × (next x ≡ ok y)
>>=-ok (raise e) h = cc
>>=-ok (ok x) h = (x, refl, h)
