-- ===== src/Runtime/Repository/Marks.antt =====
-- The watermarks of `InMemoryMetaRepository` (runtime/repository.py), one for each dataset and scope.
use fin_data_hub.Prelude.{
  ℕ, String, Bool, false, Option, none, some, nat_eq, string_eq, pair_eq, option_eq, if◌then◌else◌,
  leb,
}
use fin_data_hub.Prelude.Dict
use fin_data_hub.Prelude.Dict.{Dict}
use fin_data_hub.Runtime.Models.{Watermark}
use fin_data_hub.Runtime.Repository.State.{Repo}

unfoldable pub get_watermark : String → String → Repo → Option Watermark
get_watermark dataset scope r = Dict.get r.watermarks (dataset, scope)

abbrev pub mark_at : String → String → ℕ → Watermark
mark_at dataset scope time = record { dataset = dataset; scope = scope; watermark_time = some time }

unfoldable pub set_watermark : String → String → ℕ → Repo → Watermark × Repo
set_watermark dataset scope time r = (
  mark_at dataset scope time,
  record r { watermarks = Dict.put r.watermarks (dataset, scope) (mark_at dataset scope time) },
)

-- the test of `advance_watermark` that keeps the current mark
unfoldable pub covers_time : ℕ → Option Watermark → Bool
covers_time time none = false
covers_time time (some mark) = elim mark.watermark_time [ none ↦ false | some t ↦ leb time t ]

unfoldable pub advance_from : Option Watermark → String → String → ℕ → Repo → Watermark × Repo
unfolding covers_time set_watermark
advance_from none dataset scope time r = set_watermark dataset scope time r
advance_from (some mark) dataset scope time r =
    if covers_time time (some mark) then (mark, r) else set_watermark dataset scope time r

unfoldable pub advance_watermark : String → String → ℕ → Repo → Watermark × Repo
unfolding advance_from get_watermark
advance_watermark dataset scope time r =
    advance_from (get_watermark dataset scope r) dataset scope time r
