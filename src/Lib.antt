-- ===== src/Lib.antt =====
-- FinDataPlatform: a financial data platform with point-in-time semantics (src/fin_data_platform) over
-- an access layer to market data sources (src/fin_data_hub). This library models its control plane,
-- its caches, its entity registry, its reads at a point in time and the ingestion of daily bars, and of
-- the access layer the rate limits and the single flight of its cache, in the modules below.
--
-- Runtime (src/fin_data_platform/runtime). A task declares jobs; a scheduler finds the window that a
-- job is due for, a dispatcher puts it into the store of runs behind a queue limit and a dependency
-- gate, and workers claim runs and finish them. All of them meet only in the store.
--   Runtime/Models, Runtime/Keys      models.py, keys.py: records, statuses, the key of a run
--   Runtime/Repository                repository.py, `InMemoryMetaRepository`: State (the fields),
--                                     Runs (create, claim, finish), Queries, Marks (watermarks); the
--                                     other modules there prove what the methods guarantee
--   Runtime/Sql                       the same file, `SqlMetaRepository`, and schema.py: Table (what is
--                                     taken from the SQL library), Database, Inserts, Runs, Queries, Marks;
--                                     Simulation, Create, Claim, Finish and Read compare it with the
--                                     store in memory, Tests has a database of lists
--   Runtime/Dispatcher                roles.py, `Dispatcher`
--   Runtime/Tasks                     registry.py: the tasks
--   Runtime/Worker                    roles.py, `WorkerPool.execute_once`; Outcome and Health prove what
--                                     becomes of the run and of the health record
--   Runtime/Windows                   windows.py and calendar.py
--   Runtime/Validation                `validate` of registry.py and `sync_metadata` of app.py; Loops, Visit,
--                                     Jobs, Problems, Valid and Mirror prove what they do
--   Runtime/Tests                     concrete stores, and the theorems at them
--
-- Cache (src/fin_data_platform/cache).
--   Cache/Memory                      backend.py, `InMemoryCache`; Account, Incr and Locks prove what
--                                     its writes, its counters and its locks guarantee
--   Cache/Keys                        keys.py: keys with a time of knowledge and a generation
--   Cache/Layered                     layered.py: the generation of a domain over two backends
--   Cache/Backends                    keys.py: that generation on `InMemoryCache` and on `RedisCache`,
--                                     whose client is an argument
--   Cache/Tests                       a concrete cache, and the theorems at it
-- Python's `int` of a payload and `str(n).encode()` are arguments; times are natural numbers.
--
-- Registry (src/fin_data_platform/registry). An entity has dated rows that are only appended; a row is
-- closed by a later version of itself. Codes, relations and identifiers refer to entities by id.
--   Registry/Models, Registry/Repository   models.py, _util.py, repository.py
--   Registry/Rows, Codes, Register, Names, Relations, Build   service.py, `EntityRegistry`
--   Registry/Universe                 universe.py
--   Registry/AsOf, History, Renaming, Idempotence, Inverse, PointInTime   what they guarantee
--   Registry/Tests                    one stock, and the theorems at it
-- `History/Calls` is any sequence of calls of the registry. An exception in the middle of a method is
-- the method's result, and what the method wrote before it is not kept; for an id that the registry
-- gave out no method that writes to one entity raises after a write. What `to_date`, `clean_code`,
-- `str.strip` and `str.upper` make of the arguments, and the hub's frames, are arguments.
--
-- Storage (src/fin_data_platform/storage) and ingestion (src/fin_data_platform/ingestion).
--   Storage/Readers, Storage/Writers  readers.py and writers.py: reads at a time, idempotent appends
--   Storage/PointInTime, Appends      what they guarantee; Listed is a table as a list of rows
--   Ingestion/DailyBar                daily_bar.py; Latest, Rows, Sync and Resync prove what a
--                                     synchronisation writes, and what readers see of it
--   Ingestion/Tasks                   tasks.py: the executor, and the mark after a success
--   Ingestion/Tests                   a table of two bars, and the theorems at it
-- A bar's values are of any type, with `math.isclose` as an argument. The frame that the hub returns,
-- with its dates read, and the entity that `ensure_entity` returns are arguments.
--
-- Hub (src/fin_data_hub).
--   Hub/RateLimit                     ratelimit.py: token buckets and retries; Bounds, Waiting and
--                                     Retries prove what they let through and when they end
--   Hub/Flights                       cache.py: the single flight of `MemoryCache`; Waiters proves that
--                                     no thread is left waiting
-- Tokens and times are natural numbers, without the rounding of floats; the random factor of a backoff
-- is an argument.
--
-- Prelude holds what the parts share: tests, `==`, lists, Python's `dict` and `sorted`, text prefixes.
--
-- How the code is read. A method under a lock is one function from the state to the state and its
-- result; threads are sequences of such calls, in any order (Runtime/Repository/Steps). An exception
-- is a value of a result type. What the clock returns, the digest of keys.py and the hub are
-- arguments. A `datetime` is a count of microseconds and a `date` a day number, so both are natural
-- numbers; priorities, budgets and limits are natural numbers as well. A set is a list that is only
-- asked for membership. Each loop runs over a list or counts down, but for the visits of
-- `_validate_acyclic`: a visit marks a task, so as much fuel as there are tasks is enough.
--
-- A table of a database is an argument, with what INSERT, UPDATE and DELETE do to its rows as laws; a
-- SELECT reads the rows in an order of the database's choice, sorts and filters them as it says. A
-- method of the SQL store is one transaction, so what it does before an exception is not kept; `fail`
-- alone reads its row in one transaction and finishes it in another, and is modelled with nothing
-- between the two.
--
-- Not modelled: HTTP, logging, threads as such, the order in which a database commits transactions, the
-- adapters of the data sources, pandas frames, the SQL of the entity registry, migrations
-- and grants, and the parts of the platform that are not named above.
pub mod Prelude
pub mod Runtime
pub mod Cache
pub mod Registry
pub mod Hub
pub mod Ingestion
pub mod Storage
