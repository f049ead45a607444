-- ===== src/Cache/Keys.antt =====
-- src/fin_data_platform/cache/keys.py: keys that carry a time of knowledge and the generation of
-- their domain. Dates arrive as the text of `_iso`; `decimal` is the text of a generation and
-- `params_hash` the digest of the parameters.
pub mod Tests
use fin_data_hub.Prelude.{
  ℕ, String, ◌≡◌, refl, ap, Bool, true, false, ◌||◌, Option, none, some, ◌==◌, string_eq,
  if◌then◌else◌, arith, not, ◌&&◌, nat_eq, Bool-cases, sym, ◌∙◌, inl, inr,
}
use Prim.Native.Char.{code}
use Prim.Native.String.{◌++◌}
use Prim.Native.String.append
use fin_data_hub.Runtime.Result.{Result, ok, raise, value_error, ◌>>=◌}

unfoldable pub pit_token : Option String → Option String → Result String
pit_token (some a) (some k) = raise value_error
pit_token (some a) none = ok ("asof:" ++ a)
pit_token none (some k) = ok ("kt:" ++ k)
pit_token none none = raise value_error

module _ (decimal : ℕ → String) where
  -- the text of the key, from its parts
  unfoldable pub key_text : String → String → ℕ → String → String → String
  key_text domain panel generation token hash =
      "fdh"
      ++ (":"
          ++ (domain
              ++ (":"
                  ++ (panel
                      ++ (":"
                          ++ ("g" ++ (decimal generation ++ (":" ++ (token ++ (":" ++ hash))))))))))

  unfoldable pub cache_key :
      String → String → ℕ → Option String → Option String → String → Result String
  unfolding pit_token key_text
  cache_key domain panel generation as_of knowledge_time hash =
      if domain == "" || panel == "" then raise value_error else (do
        token ← pit_token as_of knowledge_time
        ok (key_text domain panel generation token hash))

unfoldable pub has_no_colon : String → Bool
has_no_colon String.[] = true
has_no_colon (String.◌∷◌ c s) = not (code c == 58) && has_no_colon s

head_code : String → ℕ
head_code String.[] = 0
head_code (String.◌∷◌ c s) = code c

prepend : String → String → String
prepend String.[] s = s
prepend (String.◌∷◌ c u) s = String.◌∷◌ c s

unfoldable pub tail_of : String → String
tail_of String.[] = ""
tail_of (String.◌∷◌ c s) = s

colon : (x : String) → String.[] ++ (":" ++ x) ≡ String.◌∷◌ ":" x
colon x = append.nil (":" ++ x) ∙ (append.cons ":" String.[] x ∙ ap (String.◌∷◌ ":") (append.nil x))

-- The text before the first colon of a text is determined.
split_colon :
    (s t x y : String)
    → has_no_colon s ≡ true
    → has_no_colon t ≡ true
    → s ++ (":" ++ x) ≡ t ++ (":" ++ y)
    → (s ≡ t) × (x ≡ y)
unfolding has_no_colon head_code tail_of prepend
split_colon String.[] String.[] x y h k e = (refl, ap tail_of (sym (colon x) ∙ e ∙ colon y))
split_colon String.[] (String.◌∷◌ d t) x y h k e =
    let heads = ap head_code (sym (colon x) ∙ e ∙ append.cons d t (":" ++ y)) in
    absurd (ground (arith, heads))
split_colon (String.◌∷◌ c s) String.[] x y h k e =
    let heads = ap head_code (sym (append.cons c s (":" ++ x)) ∙ e ∙ colon y) in
    absurd (ground (arith, heads))
split_colon (String.◌∷◌ c s) (String.◌∷◌ d t) x y h k e =
    let e' = sym (append.cons c s (":" ++ x)) ∙ e ∙ append.cons d t (":" ++ y) in
    let (same, rest) = split_colon s t x y (ground arith) (ground arith) (ap tail_of e') in
    (ap (λ u. prepend u s) e' ∙ ap (String.◌∷◌ d) same, rest)

cancel : (s x y : String) → s ++ x ≡ s ++ y → x ≡ y
unfolding tail_of
cancel String.[] x y e = sym (append.nil x) ∙ e ∙ append.nil y
cancel (String.◌∷◌ c s) x y e =
    cancel s x y (ap tail_of (sym (append.cons c s x) ∙ e ∙ append.cons c s y))

cache_key_parts :
    (decimal : ℕ → String) (domain panel : String) (n : ℕ) (a k : Option String) (hash key : String)
    → cache_key decimal domain panel n a k hash ≡ ok key
    → (token : String) × (pit_token a k ≡ ok token)
      × (key ≡ key_text decimal domain panel n token hash)
unfolding cache_key
cache_key_parts decimal domain panel n a k hash key h =
    elim (Bool-cases (domain == "" || panel == "")) [
      | inl bad ↦ absurd (ground arith)
      | inr named ↦ from named (pit_token a k) refl
    ]
  where
    from :
        (domain == "" || panel == "") ≡ false
        → (out : Result String) → pit_token a k ≡ out
        → (token : String) × (pit_token a k ≡ ok token)
          × (key ≡ key_text decimal domain panel n token hash)
    from named (raise e) p = absurd (ground arith)
    from named (ok token) p = (token, p, ground arith)

-- Two calls that give one key agree on the domain, the panel and the generation, and so a key made
-- before the generation of its domain moved on is not made again, if neither names nor numbers have a
-- colon in them, and different numbers have different texts.
pub cache_key_generation :
    (decimal : ℕ → String)
    → ((n : ℕ) → has_no_colon (decimal n) ≡ true)
    → ((n m : ℕ) → decimal n ≡ decimal m → n ≡ m)
    → (domain domain' panel panel' : String) (n m : ℕ) (a a' k k' : Option String)
      (hash hash' key : String)
    → has_no_colon domain ≡ true
    → has_no_colon domain' ≡ true
    → has_no_colon panel ≡ true
    → has_no_colon panel' ≡ true
    → cache_key decimal domain panel n a k hash ≡ ok key
    → cache_key decimal domain' panel' m a' k' hash' ≡ ok key
    → (domain ≡ domain') × (panel ≡ panel') × (n ≡ m)
unfolding key_text
cache_key_generation decimal plain inj domain domain' panel panel' n m a a' k k' hash hash' key hd
      hd' hp hp' h h' =
    let (token, t, e) = cache_key_parts decimal domain panel n a k hash key h in
    let (token', t', e') = cache_key_parts decimal domain' panel' m a' k' hash' key h' in
    let after_prefix = cancel ":" _ _ (cancel "fdh" _ _ (sym e ∙ e')) in
    let (domains, after_domain) = split_colon domain domain' _ _ hd hd' after_prefix in
    let (panels, after_panel) = split_colon panel panel' _ _ hp hp' after_domain in
    let (numbers, after_number) =
      split_colon (decimal n) (decimal m) _ _ (plain n) (plain m) (cancel "g" _ _ after_panel) in
    (domains, panels, inj n m numbers)
