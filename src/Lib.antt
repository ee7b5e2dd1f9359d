-- ===== src/Lib.antt =====
-- sinker is a Kubernetes controller. A ResourceSync names a source object and a target object, each
-- in the local cluster or in a remote one that a kubeconfig Secret leads to. The controller keeps the
-- target a copy of the source, or what a list of mappings makes of it, and deletes the target when the
-- ResourceSync is deleted.
--
-- The parts, and where they are modelled:
-- * Resources is src/resources.rs: the data of a ResourceSync and its option annotations, and in its
--   Container the definition of SinkerContainer.
-- * Mapping is src/mapping.rs: `clone_resource`, `apply_mappings` and its helpers, under their names. The
--   body of the loop of `apply_mappings` is `apply_mapping`, its `match` is `dispatch`, and the two arms
--   that do work are `materialize` and `place`. FieldPath has `set_field_path`.
-- * ResourceExtensions is src/resource_extensions.rs, with `cluster_client` and `api_for` in its Api.
-- * RemoteWatcherManager is src/remote_watcher_manager.rs: the map of watchers and the running tasks.
--   Its Interleaved has the calls that overlapping reconciliations make, as one sequence.
-- * Filters is src/filters.rs, Util is src/util.rs, and Error is the error type of src/lib.rs.
-- * Controller is src/controller.rs: the status in Controller, the handlers in Controller.Reconcile,
--   `reconcile_with_metrics` in Controller.Metered, and `run` and `run_with_metrics` in Controller.Run.
--   kube's `Controller` is there the list of the ResourceSyncs that it hands over until the shutdown, which
--   are reconciled one after another; a ResourceSync that it repeats stands in the list again.
--   Controller.Moves has an abstract controller that makes one move for each reconciliation, and
--   Controller.Lifecycle the states that a ResourceSync and its target come to by such moves, and
--   Controller.Progress those of a ResourceSync that has just been made.
-- * Json, Kube and Result are what the program uses of serde_json, of the Kubernetes crates, and of
--   Rust's results: an outcome is a value, an error or a panic.
-- * RemoteWatcher is src/remote_watcher.rs: `listen`, whose loop is `consume` and whose `match` is
--   `handle`, then `watch`, `start` and `run`, each through the streams that it has been given so far.
-- * Metrics is src/metrics.rs: the collectors, and `instrument` as its first poll (`begin`), its end
--   (`complete`) and the drop of its guard (`release`). Its Registry has `register`: the collectors that
--   clones share are found by a handle, and a registry is what has been registered in it, of another
--   crate the sample that it exposes.
-- * Main is src/main.rs: `main` with its two commands, and in Main.Client `controller_client`.
-- * Tests has the program's unit tests in its Cases, run on the model, with the scripted `MockApi` of
--   src/lib.rs in its Script, and theorems applied to concrete runs.
-- Main gives Controller its client and its collectors, which the admin server's registry reads.
-- Controller calls Mapping for the target's content, ResourceExtensions for clients, APIs and
-- finalizers, and the manager for the two watches of a ResourceSync.
--
-- An asynchronous function is an `Exec`: from the requests sent so far and the state of the watcher
-- manager to an outcome, further requests and a new state. Server has the requests, one constructor for
-- each kind of call, and a server, which is any function from the history to the answer to the next
-- request. So a theorem for every server holds whatever other clients do between two requests. Tasks
-- that run beside a handler are seen only through those answers: the mutex of the watcher manager is
-- held for a whole call, so each call is one step.
--
-- Six sets of rules follow how an `Exec` is built: what it keeps (Exec.Keeps), what it ensures of its
-- value as well (Exec.Ensures), what it may send (Exec.Sends) and how much (Exec.Bounded), that it does
-- not panic (Exec.Calm), and that it does not look at the watches (Exec.Oblivious), so that
-- reconciliations that overlap (Controller.Overlap) meet in them alone. Controller.Rules has what an
-- invariant needs of the handlers to be kept by a reconciliation, and Controller.Managing what one of
-- the watches needs.
--
-- Functions of crates are the fields of `Kube.Libraries`, of `ResourceExtensions.Connections` and of
-- `Main.Host`, and every definition that calls one takes them as an argument. The laws that a theorem
-- relies on are `NewObject` and `AtMostOne`.
--
-- Every loop is a structural recursion, but the one of `set_field_path`, which recurses on the length
-- of the rest of its path by accessibility. The loops of `watch` and `run`, which do not end by
-- themselves, recurse on the list of what they have been given. No definition takes fuel.
--
-- Not modelled: the arguments of src/main.rs, which clap parses; the stream of kube-runtime that feeds
-- `run_with_metrics` of src/controller.rs, and the order of the requests of reconciliations that overlap
-- (a server's answers stand for what others do meanwhile); what serde and kube derive from the
-- declarations of src/resources.rs; a cancellation in the middle of a start of src/remote_watcher.rs;
-- the text of what a registry exposes; and logging.
-- A time is a number: of a timestamp only the order counts, a duration is in milliseconds. Maps are
-- association lists, since the program never observes their order.
pub mod Prelude
pub mod Json
pub mod Result
pub mod Error
pub mod Kube
pub mod Resources
pub mod Mapping
pub mod Util
pub mod Filters
pub mod RemoteWatcherManager
pub mod Server
pub mod Exec
pub mod ResourceExtensions
pub mod Controller
pub mod Tests
pub mod RemoteWatcher
pub mod Metrics
pub mod Main
