-- ===== src/Runtime/Keys.antt =====
-- src/fin_data_platform/runtime/keys.py: the version dimension and the idempotency key of a run.
-- The digest (json, sha256, cut to 32 digits) is a parameter: a function of the six fields.
use fin_data_hub.Prelude.{
  ℕ, String, Bool, true, false, Option, none, some, ◌||◌, ◌==◌, nat_eq, string_eq, pair_eq,
  option_eq, if◌then◌else◌,
}
use fin_data_hub.Runtime.Models.{derive_kind, build_rm_kind}
use fin_data_hub.Runtime.Result.{Result, ok, raise, value_error, ◌>>◌}

-- `kind in VERSIONED_KINDS`
unfoldable pub is_versioned : String → Bool
is_versioned kind = kind == derive_kind || kind == build_rm_kind

-- `bool(version_dimension)`: neither `None` nor the empty text
unfoldable pub is_given : Option String → Bool
is_given none = false
is_given (some v) = if v == "" then false else true

unfoldable pub validate_version_dimension : String → Option String → Result (Unit {0})
unfolding is_versioned is_given
validate_version_dimension kind version =
    if is_versioned kind
    then (if is_given version then ok tt else raise value_error)
    else (if is_given version then raise value_error else ok tt)

-- The object that `job_key` serialises.
pub record Payload : Type 0 where
  pub kind : String
  pub job_id : String
  pub scope : String
  pub window_start : Option ℕ
  pub window_end : Option ℕ
  pub version_dimension : Option String

unfoldable pub job_key : (Payload → String) → Payload → Result String
unfolding validate_version_dimension
job_key digest p = do validate_version_dimension p.kind p.version_dimension; ok (digest p)
