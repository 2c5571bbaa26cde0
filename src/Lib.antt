-- ===== src/Lib.antt =====
-- The control plane of a training fleet: workers hold a socket to it, operators submit, stop and
-- resume runs, and it assigns queued runs to idle workers and records what they report.
--
-- Parts and files. Paths are from the repository's root.
-- - Proto, Proto/*: crates/chuk-train-proto/src: the domain types, the arithmetic of leases, the keys
--   of the artifact store, the constants.
-- - Wire: crates/chuk-compute-wire/src/message.rs: the messages of a worker.
-- - Gate, Gate/*: crates/chuk-train-controlplane/src/gate.rs: expressions of metric gates, their parser
--   and their evaluation. GateExpr, parse and evaluate carry the names of the source.
-- - Grant: crates/chuk-train-controlplane/src/grant.rs: the scope of a worker's upload token and the
--   table of tokens, with Scope and Tokens.
-- - Store, Store/*: crates/chuk-train-controlplane/src/store: the tables as lists of rows, with one
--   function per statement of the SQLite adapter, under the adapter's name. Ids is the ids of ids.rs and
--   RunIds about them. Series is the thinning of a metric's series of ids.rs, and Thinning is about it.
-- - Hub, Hub/*: crates/chuk-train-controlplane/src/hub: State is the struct Hub; Schedule and Assemble
--   are schedule.rs, Connection is connection.rs, Control is control.rs, Messages and Checkpoints are
--   messages.rs, Submit is submit.rs. Keeps, RunRows, PumpRows, GateRows, MessageRows and Marks hold the
--   rules that carry a predicate through a handler; Lifecycle, Machine, Cancel, Detach, Links, Blocked
--   and Replay apply them. Numbering is about the ids of runs over submissions, Concurrency about the children of
--   a sweep, over SweepRows. Steps is about the keys of checkpoints.
-- - Worker, Worker/*: crates/chuk-compute-worker/src: Outbox is outbox.rs, seq.rs and the replay of
--   main.rs; Delivery sets it against the hub's dedup. Backoff is backoff.rs and the waits of main's loop.
-- - Budget, Budget/*: crates/chuk-train-controlplane/src/budget.rs: Calendar is month_start and what it
--   calls, Caps the check of a candidate's cost, Report the spend report and the estimate of a run;
--   Approval is about the check.
-- - Leases, Leases/*: crates/chuk-train-controlplane/src/lease.rs: Manager is the state, the trait
--   Provider and the world outside; Teardown, Spending and Passes are the operations. Verify, Wall,
--   Reconcile, Provision and Extend are about them, with Rules, Rows, Turns and Within under them.
-- - Session, Session/*: crates/chuk-train-controlplane/src/ws.rs: Admission is resolve_join, Handshake
--   the session around it; Rows and Identity are about join tokens.
-- - Jobs, Jobs/*: crates/chuk-train-controlplane/src/jobspec.rs and the job of
--   crates/chuk-compute-wire/src/job.rs.
-- - Upload, Upload/*: crates/chuk-train-controlplane/src/upload.rs over artifacts/fs.rs: the transfer of
--   blobs with a grant. Coverage is about a job and the grant of its run, over Keys.
-- - Sweep, Sweep/*: crates/chuk-train-controlplane/src/sweep.rs: Expand is expand and assignment_of; Choices,
--   Paths and Assignments are about them.
-- - Auth, Auth/*: crates/chuk-train-controlplane/src/auth.rs: Cookies and SignIn are its functions;
--   Sessions is about the session cookie.
-- - Api, Api/*: crates/chuk-train-controlplane/src/api: Answers and Middleware are mod.rs and the context of
--   apikey.rs, Access and Leases the handlers of access.rs and leases.rs, Router their routes in main.rs.
--   Keeps, LeaseTasks and Tables carry a predicate through every route; Ceiling, Revocation, Guards and
--   Minting are about the routes.
-- - Base, Base/*: lists, tables, texts, numbers and doubles that the rest shares.
-- - Examples, Examples/*: concrete inputs.
--
-- How the parts meet: the websocket task calls attach, on_message and detach of the hub; the API calls
-- submit, submit_sweep, stop_run and resume_run; each of them writes the store and ends in pump, the scheduling pass, which
-- reads the store, takes a grant for a train run, and sends the job down the worker's link. The lease
-- manager reads and writes the same store, sends Drain through the hub, and drives the providers. A request
-- is resolved to a role from its bearer token or its session cookie, and then handled with the store and
-- the lease manager.
--
-- Choices. A handler is an action, a function from the hub to a result and the hub after it; a handler
-- that fails keeps what it wrote before. One handler runs at a time. A statement of the store does not
-- fail. The clock is the argument `at`, in milliseconds. The rows of runs stand newest first, which is
-- the order of the store's pages while the clock does not step back. A map is an association list. A
-- double is not-a-number, an infinity or a multiple of 2^-1074, and its arithmetic (Base/Doubles) rounds
-- to 53 significant bits, ties to even; the two zeros are one. Prices, minutes and amounts are doubles, and
-- an instant is turned into seconds where the code computes with it. The record Env holds what code outside
-- the repository supplies: random tokens, the hash, the JSON codecs, the number parser, the dataset
-- service. The lease manager runs in a world of any type, with the providers, the clocks and the random
-- numbers as functions of it. Loops go over lists, but for three on fuel: the count of a number's
-- binary digits and its decimal print have one round more than the number, of which each round takes a
-- digit, and the verification of a destroy
-- polls once more than the timeout holds intervals and once at its start, which reaches the deadline where
-- a sleep lasts as long as it was asked to.
--
-- Not modelled: a sweep's status, the submission of a run of the experiments server, the worker's process,
-- the frames and the codec of the socket, the HTTP handlers of runs, checkpoints, archives and the system,
-- the S3 backend of the blobs, the Postgres adapter, the dashboard, the drive archive and the experiments
-- outbox. They call the handlers above, or render and
-- transport.
mod Base
pub mod Proto
pub mod Wire
pub mod Gate
pub mod Grant
pub mod Store
pub mod Hub
pub mod Leases
pub mod Session
pub mod Sweep
pub mod Worker
pub mod Budget
pub mod Auth
pub mod Jobs
pub mod Upload
pub mod Api
mod Examples
