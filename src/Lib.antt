-- ===== src/Lib.antt =====
-- Verification library of the Code Executor API, an HTTP service that runs untrusted code in Podman
-- containers over persistent session directories.
--
-- Path models `normalize_sub_path` (code_executor_api/validation.py) with the `posixpath.normpath`
-- that it calls. A Python string is a list of code points (Prelude/Strings).
-- Manager models `SessionManager` (code_executor_api/sessions.py). Each method is cut at its awaits:
-- `create_reserve` and `create_abort` are `create` before and after `_apply_quota`, `finish_delete`
-- is `_delete` after `_remove_tree`, `recheck` is the body of `locked` once the lock is taken,
-- `sweep_deletes` the tests of `_sweep_once` under the lock, `acquire_slot` and `release_slot` are
-- `execution_slot`. Manager/System interleaves these pieces in any order, one event each; a frame is
-- a coroutine that is suspended, and the lock of a session is held by the frames of `running` and
-- `deleting`. Time is a number of ticks. What the environment is trusted with is `IsOrderly`: tokens
-- do not repeat, a client has an id only once `create` has returned it, and the sweep does not meet
-- a session whose quota is still being applied. Manager/Reuse shows what happens without the last.
-- Manager/Sweeper is the task of the sweep, `_sweep_loop` with `_try_acquire_lock`, at its own
-- awaits beside the other coroutines, and its cancellation. `delete_all` runs at the shutdown,
-- beside no handler.
-- Manager/Pool is what a client sees of the manager: which ids are known, how many, and how many
-- executions are under way.
-- FileSystem is the file system as the `os` module shows it: inodes, directory descriptors, and the
-- calls with the flags that the program gives. A list of faults says which calls fail by themselves,
-- and how. Content models code_executor_api/file_helpers.py, where a stream is the chunks that
-- aiohttp's reader will return; Session models the file operations of `Session`
-- (code_executor_api/sessions.py) over both, descriptors and their closing included.
-- Session/Listing is `Session.list_directory`. FileSystem/Resolve and FileSystem/Growth say where a
-- path leads and what keeps it, FileSystem/Effects what each call does to that, FileSystem/Calm is
-- the file system without faults, and FileSystem/Spares and FileSystem/Outcomes say what an action
-- leaves as it was, however it ends. The size and the time of an entry of a listing are an argument:
-- what the kernel gives for it.
-- Executor models code_executor_api/executor/podman_executor.py: the walk over a session's files,
-- with one unit of fuel for each directory of the tree and one more (Executor/Ends has the loop
-- without it), and `collect_changes`; Executor/Run is `run_container`, by what the kernel, the event
-- loop and podman answer and where a cancellation comes, and the drain of the pty.
-- Languages has the registry of languages and the checks of a request's fields.
-- Routes is the handlers of code_executor_api/routes as actions over the file system, the list of
-- staged uploads and a record of the calls of the session manager, whose answers are given: Uploads
-- and Execute are `handle_execute`, Files is files.py and sessions.py. Routes/Resources has the
-- machine that reads the calls, Routes/Locked the lock of the files API, and Routes/Keeps the rules
-- for the files while a body is read.
-- All other recursion is structural.
-- Session/Removal is `_remove_tree`, over a tree of entries with what their modes and `chmod` allow:
-- listing, writing and searching a directory are told apart.
-- Executor/Code is `run_code_async` over two walks and a run, and `_remove_container`.
-- Quota is `_apply_quota` and what it calls, by what becomes of the xfs_quota processes; Config the
-- settings that the rest reads, Config/Env the readers of config.py and the checks of app.py, and
-- Config/Table the settings of config.py with their defaults and minima.
-- Headers is `_content_disposition`.
-- App is app_factory.py, routes/health.py and app.py: the routing table, the sweep task, startup and
-- cleanup, the command line. Manager/Expiry is a round of the sweep as a loop.
-- Harness is the runner of harness.py: Harness/Registry its groups and checks, Harness/Runs the run
-- and `main`, Harness/Limits the fields of its `Config` that are numbers. What the body of a check
-- gives is an argument there. Harness/Client has the bodies of two checks, clients of an interface
-- of requests, which Harness/Lifecycle fills with the handlers.
-- Not modelled: the bodies of harness.py's other checks, clients of a running server, and its
-- output; the length of the sweep's sleep; logging; an error that `os.close` reports, which is taken
-- to close the descriptor all the same; aiohttp, Podman, argparse and xfs_quota themselves, which
-- the program calls.
pub mod Prelude
pub mod Path
pub mod Config
pub mod Manager
pub mod FileSystem
pub mod Content
pub mod Session
mod Tests
pub mod Executor
pub mod Languages
pub mod Routes
pub mod Quota
pub mod Headers
pub mod Harness
pub mod App
