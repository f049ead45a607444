-- ===== src/Runtime/Sql/Marks.antt =====
-- The watermarks of `SqlMetaRepository` (runtime/repository.py). A time has no time zone here, so
-- `_naive` has nothing to take off.
use fin_data_hub.Prelude.{
  ℕ, String, Bool, ◌&&◌, List, Option, none, some, ◌==◌, string_eq, if◌then◌else◌, leb, filter,
}
use fin_data_hub.Prelude.Sort.{sorted}
use fin_data_hub.Runtime.Result.{Result, ok, ◌>>=◌}
use fin_data_hub.Runtime.Models.{Watermark}
use fin_data_hub.Runtime.Repository.Marks.{mark_at}
use fin_data_hub.Runtime.Sql.Table.{one_or_none}
use fin_data_hub.Runtime.Sql.Database.{Engine, Db}

abbrev pub is_mark_of : String → String → Watermark → Bool
is_mark_of dataset scope mark = mark.dataset == dataset && mark.scope == scope

module _ (e : Engine) where
  abbrev pub marks_of : String → String → Db e → List Watermark
  marks_of dataset scope db = filter (is_mark_of dataset scope) (e.watermarks.rows db.marks)

  unfoldable pub get_watermark : String → String → Db e → Result (Option Watermark)
  get_watermark dataset scope db = one_or_none (marks_of dataset scope db)

  -- ORDER BY dataset, scope, in the collation of the database
  unfoldable pub list_watermarks : (Watermark → Watermark → Bool) → Db e → List Watermark
  list_watermarks in_order db = sorted in_order (e.watermarks.rows db.marks)

  -- INSERT and UPDATE of one mark, and what both methods return
  unfoldable pub insert_mark : String → String → ℕ → Db e → Result (Watermark × Db e)
  insert_mark dataset scope time db = do
    s ← e.watermarks.insert (mark_at dataset scope time) db.marks
    ok (mark_at dataset scope time, record db { marks = s })

  unfoldable pub update_mark : String → String → ℕ → Db e → Result (Watermark × Db e)
  update_mark dataset scope time db = ok (
    mark_at dataset scope time,
    record db {
      marks =
          e.watermarks.update (is_mark_of dataset scope)
            (λ mark. record mark { watermark_time = some time }) db.marks;
    },
  )

  unfoldable pub write_mark :
      Option Watermark → String → String → ℕ → Db e → Result (Watermark × Db e)
  unfolding insert_mark update_mark
  write_mark none dataset scope time db = insert_mark dataset scope time db
  write_mark (some mark) dataset scope time db = update_mark dataset scope time db

  unfoldable pub set_watermark : String → String → ℕ → Db e → Result (Watermark × Db e)
  unfolding write_mark
  set_watermark dataset scope time db = do
    existing ← one_or_none (marks_of dataset scope db)
    write_mark existing dataset scope time db

  -- `scalar_one_or_none` of the column `watermark_time`: no row and a NULL are both `None`
  unfoldable pub scalar_time : Option Watermark → Option ℕ
  scalar_time none = none
  scalar_time (some mark) = mark.watermark_time

  unfoldable pub advance_from : Option ℕ → String → String → ℕ → Db e → Result (Watermark × Db e)
  unfolding insert_mark update_mark
  advance_from none dataset scope time db = insert_mark dataset scope time db
  advance_from (some current) dataset scope time db =
      if leb time current
      then ok (mark_at dataset scope current, db)
      else update_mark dataset scope time db

  unfoldable pub advance_watermark : String → String → ℕ → Db e → Result (Watermark × Db e)
  unfolding advance_from scalar_time
  advance_watermark dataset scope time db = do
    found ← one_or_none (marks_of dataset scope db)
    advance_from (scalar_time found) dataset scope time db
