-- ===== src/Registry/Codes.antt =====
-- Canonical codes in `EntityRegistry` (registry/service.py): `resolve` and `add_code_change`. `clock i`
-- is what `now()` returns for the i-th entry of the history, and the other times are what it returns
-- for the row that is closed, the new code and the new row.
use fin_data_hub.Prelude.{
  ℕ, ◌+◌, ◌-◌, String, Bool, true, ◌&&◌, ◌||◌, not, List, [], ◌∷◌, Option, none, some, ◌==◌, nat_eq,
  string_eq, option_eq, pair_eq, if◌then◌else◌, ltb, leb,
}
use fin_data_hub.Prelude.Dict
use fin_data_hub.Prelude.Dict.{Dict}
use fin_data_hub.Prelude.Sort.{sorted}
use fin_data_hub.Runtime.Result.{Result, ok, raise, value_error, ◌>>=◌}
use fin_data_hub.Registry.Models.{CodeHistoryRecord, start_of, until, is_open}
use fin_data_hub.Registry.Repository.{RegistryRepo, append_code, code_history, find_by_code}
use fin_data_hub.Registry.Rows.{Change, current_row, close_row, append_row}

abbrev pub CodeKey : Type 0
CodeKey = (ℕ × String) × Option ℕ

abbrev pub key_of : CodeHistoryRecord → CodeKey
key_of entry = ((entry.entity_id, entry.code), entry.valid_from)

-- `key not in latest or entry.version > latest[key].version`
unfoldable pub is_newer : Option CodeHistoryRecord → CodeHistoryRecord → Bool
is_newer none entry = true
is_newer (some old) entry = ltb old.version entry.version

unfoldable pub keep_latest :
    Dict CodeKey CodeHistoryRecord → List CodeHistoryRecord → Dict CodeKey CodeHistoryRecord
unfolding is_newer
keep_latest latest [] = latest
keep_latest latest (entry ∷ entries) =
    keep_latest
      (if is_newer (Dict.get latest (key_of entry)) entry
        then Dict.put latest (key_of entry) entry
        else latest)
      entries

-- `(item.valid_from or EPOCH, item.version)`, in reverse order
unfoldable pub stands_before : CodeHistoryRecord → CodeHistoryRecord → Bool
stands_before a b =
    ltb (start_of b.valid_from) (start_of a.valid_from)
    || (start_of a.valid_from == start_of b.valid_from && leb b.version a.version)

-- the tests of the last loop of `resolve`
unfoldable pub in_force : Option ℕ → CodeHistoryRecord → Bool
in_force none entry = true
in_force (some d) entry =
    elim entry.valid_from [ none ↦ true | some f ↦ not (ltb d f) ] && until d entry.valid_to

unfoldable pub first_in_force : Option ℕ → List CodeHistoryRecord → Option ℕ
unfolding in_force
first_in_force as_of [] = none
first_in_force as_of (entry ∷ entries) =
    if in_force as_of entry then some entry.entity_id else first_in_force as_of entries

unfoldable pub code_entries : String → RegistryRepo → List CodeHistoryRecord
unfolding keep_latest stands_before
code_entries code r = sorted stands_before (Dict.values (keep_latest [] (find_by_code code r)))

unfoldable pub resolve : String → Option ℕ → RegistryRepo → Option ℕ
unfolding first_in_force code_entries
resolve code as_of r = first_in_force as_of (code_entries code r)

abbrev pub closed_code : Option ℕ → ℕ → CodeHistoryRecord → CodeHistoryRecord
closed_code before now entry = record entry {
  valid_to = before;
  knowledge_time = now;
  version = entry.version + 1;
}

-- the body of the loop of `add_code_change`
unfoldable pub close_code : Option ℕ → ℕ → CodeHistoryRecord → RegistryRepo → RegistryRepo
close_code before now entry r =
    if is_open entry.valid_to then append_code (closed_code before now entry) r else r

-- the loop, over a snapshot of the history
unfoldable pub close_codes :
    Option ℕ → (ℕ → ℕ) → List CodeHistoryRecord → ℕ → RegistryRepo → RegistryRepo
unfolding close_code
close_codes before clock [] i r = r
close_codes before clock (entry ∷ entries) i r =
    close_codes before clock entries (i + 1) (close_code before (clock i) entry r)

abbrev pub date_or_raise : Option ℕ → Result ℕ
date_or_raise none = raise value_error
date_or_raise (some d) = ok d

abbrev pub new_code : String → ℕ → Change
new_code code start = record {
  code = some code;
  name = none;
  valid_from = some start;
  valid_to = none;
  attrs_extra = [];
}

-- the date is what `to_date` makes of `start_date`
unfoldable pub add_code_change :
    ℕ → String → Option ℕ → (ℕ → ℕ) → ℕ → ℕ → ℕ → RegistryRepo → Result RegistryRepo
unfolding close_codes
add_code_change id code start_date clock closed_at coded_at appended_at r = do
  start ← date_or_raise start_date
  let closed = close_codes (some (start - 1)) clock (code_history id r) 0 r
  current ← current_row id closed
  ended ← close_row current (some (start - 1)) closed_at closed
  let coded =
      append_code
        (record {
          entity_id = id;
          code = code;
          valid_from = some start;
          valid_to = none;
          knowledge_time = coded_at;
          version = 1;
        })
        ended
  (row, done) ← append_row current (new_code code start) appended_at coded
  ok done
