-- ===== src/Runtime/Sql/Tests.antt =====
-- The theorems on `SqlMetaRepository` at a database of lists, whose rows come newest first.
use fin_data_hub.Prelude.{
  ℕ, ◌+◌, ◌≡◌, refl, Bool, List, [], ◌∷◌, none, some, arith, String, ◌==◌, nat_eq, string_eq,
  if◌then◌else◌, any, count, filter, map,
}
use fin_data_hub.Prelude.Dict
use fin_data_hub.Prelude.Sort.{sorted}
use fin_data_hub.Runtime.Result.{Result, ok, raise, integrity_error, no_result, key_error}
use fin_data_hub.Runtime.Models.{JobDependency, JobRun, is_claimable}
use fin_data_hub.Runtime.Keys.{job_key}
use fin_data_hub.Runtime.Repository.State.{init}
use fin_data_hub.Runtime.Repository.Runs as Memory
use fin_data_hub.Runtime.Repository.Steps.{Reach-IsSound, here}
use fin_data_hub.Runtime.Tests.{
  digest, intent, one_queued, one_running, queued_run, queued_reached, running_reached, running_run,
}
use fin_data_hub.Runtime.Sql.Table.{Table, SameRows, rewritten, one, one_or_none}
use fin_data_hub.Runtime.Sql.Database.{
  Engine, Db, same_run, same_def, same_dependency, same_watermark,
}
use fin_data_hub.Runtime.Sql.Runs as Sql
use fin_data_hub.Runtime.Sql.Marks.{advance_watermark}
use fin_data_hub.Runtime.Sql.Simulation.{Simulates, Matches}
use fin_data_hub.Runtime.Sql.Create.{create_run-Matches}
use fin_data_hub.Runtime.Sql.Claim.{claim_next-Matches}
use fin_data_hub.Runtime.Sql.Read.{queries_same}
use fin_data_hub.Runtime.Sql.Queries
use fin_data_hub.Runtime.Repository.Queries as Reads
use fin_data_hub.Runtime.Repository.Queries.{Target}
use fin_data_hub.Runtime.Sql.Finish.{finish_methods-Matches}

program : Unit {0}
unfolding Memory.create_run Memory.claim_next Memory.candidates Memory.is_candidate
    Memory.insert_run Memory.new_run job_key Sql.create_run Sql.claim_next Sql.finish any count
    filter sorted one one_or_none is_claimable Dict.get Dict.put Dict.values advance_watermark
program = tt

pub SameRows-refl : {R : Type 0} (xs : List R) → SameRows xs xs
SameRows-refl xs = record { forth = λ a m. m; back = λ a m. m; same_count = λ p. refl }

abbrev pub put_row : {R : Type 0} → (R → R → Bool) → R → List R → Result (List R)
put_row same a s = if any (same a) s then raise integrity_error else ok (a ∷ s)

abbrev pub heap : {R : Type 0} → (same : R → R → Bool) → Table R same
heap {R} same = record {
  State = List R;
  rows = λ s. s;
  insert = put_row same;
  update = λ p f s. map (rewritten p f) s;
  delete_all = λ s. [];
  insert_fresh = λ a s fresh. (a ∷ s, rw fresh refl, SameRows-refl (a ∷ s));
  insert_taken = λ a s taken. rw taken refl;
  rows-update = λ p f s keeps. SameRows-refl (map (rewritten p f) s);
  rows-delete_all = λ s. refl;
}

abbrev pub engine : Engine
engine = record {
  job_runs = heap same_run;
  job_defs = heap same_def;
  job_dependencies = heap same_dependency;
  watermarks = heap same_watermark;
  Sequence = ℕ;
  next_id = λ n. n;
  advance = λ n. n + 1;
  next_id-advance = λ n. refl;
  like = λ text pattern. text == pattern;
}

abbrev pub new_db : Db engine
new_db = record { runs = []; defs = []; deps = []; marks = []; sequence = 1 }

new_db-Simulates : Simulates engine new_db init
unfolding program
new_db-Simulates = record {
  runs = record {
    stored = λ a m. absurd m;
    listed = λ id a g. ground arith;
    single = λ id. omega arith;
  };
  next = refl;
}

create_run-Matches_example :
    Matches engine
      (Sql.create_run engine digest intent none 5 new_db)
      (Memory.create_run digest intent none 5 init)
create_run-Matches_example =
    create_run-Matches engine new_db init (Reach-IsSound digest here) new_db-Simulates digest intent
      none 5

-- the database after that call
abbrev db_queued : Db engine
db_queued = record { runs = queued_run ∷ []; defs = []; deps = []; marks = []; sequence = 2 }

db_queued-Simulates : Simulates engine db_queued one_queued
unfolding program
db_queued-Simulates =
    (create_run-Matches engine new_db init (Reach-IsSound digest here) new_db-Simulates digest
      intent none 5).1

claim_next-Matches_example :
    Matches engine
      (Sql.claim_next engine "worker-123-0" 9 db_queued)
      (ok (Memory.claim_next "worker-123-0" 9 one_queued))
claim_next-Matches_example =
    claim_next-Matches engine db_queued one_queued (Reach-IsSound digest queued_reached)
      db_queued-Simulates "worker-123-0" 9

abbrev db_running : Db engine
db_running = record db_queued { runs = running_run ∷ [] }

db_running-Simulates : Simulates engine db_running one_running
unfolding program
db_running-Simulates =
    (claim_next-Matches engine db_queued one_queued (Reach-IsSound digest queued_reached)
      db_queued-Simulates "worker-123-0" 9).1

finish_methods-Matches_example :
    ((error : String)
      → Matches engine (Sql.fail engine 1 error 20 db_running) (Memory.fail 1 error 20 one_running))
    × ((a : JobRun)
        → Dict.get one_running.runs 1 ≡ some a
        → ((rows_written : ℕ)
            → Matches engine
                (Sql.succeed engine 1 rows_written 20 db_running)
                (Memory.succeed 1 rows_written 20 one_running))
          × ((reason : String)
              → Matches engine
                  (Sql.interrupt engine 1 reason 20 db_running)
                  (Memory.interrupt 1 reason 20 one_running)))
    × (Dict.get one_running.runs 1 ≡ none
        → ((rows_written : ℕ)
            → (Sql.succeed engine 1 rows_written 20 db_running ≡ raise no_result)
              × (Memory.succeed 1 rows_written 20 one_running ≡ raise key_error))
          × ((reason : String)
              → (Sql.interrupt engine 1 reason 20 db_running ≡ raise no_result)
                × (Memory.interrupt 1 reason 20 one_running ≡ raise key_error)))
finish_methods-Matches_example =
    finish_methods-Matches engine db_running one_running (Reach-IsSound digest running_reached)
      db_running-Simulates 1 20

queries_same_example :
    ((id : ℕ) → Sql.get_run engine id db_running ≡ ok (Memory.get_run id one_running))
    × ((request_id : String)
        → Queries.find_run_by_request_id engine request_id db_running
          ≡ Reads.find_run_by_request_id request_id one_running)
    × (SameRows {R = JobDependency} [] []
        → (t : Target)
        → Queries.parents_ready engine t db_running ≡ Reads.parents_ready t one_running)
queries_same_example =
    queries_same engine db_running one_running (Reach-IsSound digest running_reached)
      db_running-Simulates

-- a mark without a time: the INSERT meets the row's primary key, the UPDATE of `set_watermark` does not
abbrev db_unmarked : Db engine
db_unmarked = record new_db {
  marks = record { dataset = "bars"; scope = ""; watermark_time = none } ∷ [];
}

advance_unmarked : advance_watermark engine "bars" "" 5 db_unmarked ≡ raise integrity_error
unfolding program
advance_unmarked = refl
