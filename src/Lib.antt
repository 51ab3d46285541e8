-- ===== src/Lib.antt =====
-- FluxBar's core (rust-core): an offline-first reader for a Miniflux server. The user reads and stars
-- articles against a local SQLite store; every local change is queued as a pending mutation, sent to
-- the server by a flush, and acknowledged; every refresh applies the server's answer to the store.
--
-- Prelude        the names that all modules share: the library's, ℤ over the native ℕ with the
--                wrap-around of `i32`, lists, tests, and `Result` for the fallible code.
-- Sql            the statements of SQLite that the store runs, on tables as lists of rows: SELECT,
--                UPDATE, DELETE, INSERT with a primary key, and INSERT ... ON CONFLICT DO UPDATE;
--                Sql.Laws and Sql.Keys are the facts on them that the store's proofs use.
-- Domain         rust-core/src/domain: selections, entries, the sorted navigation (with its proofs in
--                NavigationLaws).
-- Store          rust-core/src/persistence. Schema: one record for each table. Mutations: `set_read`,
--                `set_starred`, `undo`, `discard_undo`. Acknowledge: `pending`, `acknowledge`. Apply:
--                `apply_snapshot` with the reconciliation. The other modules are proofs: Views sees
--                the tables as maps from primary keys; ReadState and MarkLoop compute what the loop of
--                `set_read` does; UndoItems and UndoRoundTrip follow its undo items; Keyed,
--                Consistency, AckConsistency and ApplyConsistency are the store's invariants, ApplyTakes is
--                about what a snapshot brings.
--                Records: single rows; Snapshot: `local_snapshot`; Listing, Totals and RecordTrips are
--                their proofs.
-- Article        rust-core/src/article.rs: Dom (the parsed tree and the interface of the URL package),
--                Extract (preview text and first image), with proofs in TextLaws and ImageLaws.
-- Localization   rust-core/src/localization.rs: language choice and the count template.
-- Icons          rust-core/src/icons.rs: Data (data URLs, background modes) and Flight, the threads in
--                `feed_icon_with_deadline` as a state machine, with proofs in DataLaws, Guarded,
--                Released and FlightLaws.
-- Remote         rust-core/src/remote: Error (error.rs and the mapping of error responses), Dto (the
--                wire types and filters), Mapping (`entry_to_domain`), Query (`to_query`), Paging
--                (`fetch_complete_selection`), with its result in PagingLaws and its termination in
--                PagingEnd.
-- Transport      rust-core/src/transport: Request (the envelope and `into_operation`), Fields (the keys
--                of a request, with its result in FieldsLaws), Response (the envelope, and
--                rust-core/src/snapshot.rs, which assembles a snapshot for the wire); Routing has the
--                proofs of the envelopes.
-- Sync           rust-core/src/sync.rs. Flush: `flush_pending`, which sends each queued mutation with
--                the calls of Remote and acknowledges it in the Store. Browse: the server's answer as
--                a snapshot. Service: the methods of `SyncService`, with results in ServiceLaws.
--                Scheduler: `schedule_flush` and the worker, as a state machine of threads, with proofs
--                in SchedulerLaws and SchedulerEnds. Interleaving: the transactions of a flush and
--                of the other operations as steps; InFlight, FlightAck and Started follow the
--                mutations of a flush, Safety and Reachable are about all runs, Runs and RefreshRuns
--                say that the methods are such runs. FlushEffect, RefreshEffect and AllDelivered say
--                what a flush and a refresh make of the database and the queue.
-- Runtime        rust-core/src/runtime.rs, dispatcher.rs and ffi.rs: Session (the session and the list
--                of services), Handlers, Configure, Dispatch (`dispatch`, `handle_json`, `process`);
--                Services and SessionLaws are about many calls of `configure`, DispatchLaws about
--                single requests.
-- Text           the methods of Rust's `str` that the source uses, on native strings.
--
-- A transaction is a function from the database to the database that COMMIT makes visible or an
-- error, in which case the database stays as it was. The clock, the locks that are had in time, new
-- identifiers, `to_lowercase` and the order that SQLite gives rows of one sort key are arguments. All
-- loops but two are structural: the pagination of Remote.Paging runs on fuel, one unit for each
-- request, and enough fuel is one for each page of 200 entries of the first total; the count template
-- of Localization runs on one unit for each character. `i32` sums wrap around as in a release build,
-- `i64` values are unbounded. The server's answers are an argument that may change from request to
-- request. The threads of the scheduler and of the icon cache and the transactions of the store are
-- interleaved in all orders. Not modelled are HTTP, TLS, JSON, the HTML parser, the URL package,
-- images and SQLite itself, which are other packages; and of the source the pixels of icons, the
-- derived reading of JSON fields, the path of the database file, bindings and logging.
--
-- The invariant of the store (Store.Consistency.IsConsistent): for every entry, the effective
-- status and star are the queued value if a change is pending, and the server's else; nothing is
-- pending for an entry that is not stored.
pub mod Prelude
pub mod Text
pub mod Sql
pub mod Domain
pub mod Store
pub mod Article
pub mod Localization
pub mod Remote
pub mod Icons
pub mod Transport
pub mod Sync
pub mod Runtime
