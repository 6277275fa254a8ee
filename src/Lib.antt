-- ===== src/Lib.antt =====
-- The decisions of the mobile proxy, in a model that the source's functions can be read against.
--
-- The program lets clients use the network of mobile devices. A device keeps a reverse tunnel to a
-- server, which routes proxied streams to it; the device's runtime is a small state machine whose
-- state it reports; the control plane publishes a projection of the report; and a relay machine at a
-- cloud provider is created, kept and replaced under a strict rule of ownership.
--
-- Foundation, crates/foundation/src/lib.rs. Values has the bounded names and the deadlines, Digests the
-- bytes that a digest is taken of.
-- RuntimeDomain, crates/runtime-domain/src/lib.rs. `reduce` has a clause for each arm.
-- The properties in Traces are of `run`, which feeds `reduce` a list of events, as its callers do one by one.
-- ProxyCore.Runtime, crates/proxy-core/src/runtime.rs, the projection of a reported state.
-- Runtime/Laws has its properties.
-- ProxyCore.ProviderLifecycle, crates/proxy-core/src/provider_lifecycle.rs. Values has the value
-- types with their constructors; the file itself `plan_present`, `authorize_mutation` and what they
-- call. Ownership, Mutation, Deletion, Present and
-- Replacement have the properties.
-- ProxyCore.CreateDispatch, crates/proxy-core/src/provider_create_dispatch.rs, the fence of a
-- create that was sent, and its recovery, over the types of ProviderLifecycle. Recovery and
-- Convergence have the properties.
-- ProxyCore.Commands, Records and Fingerprints, crates/proxy-core/src/commands.rs, records.rs and
-- fingerprints.rs, the data of the control plane; Fingerprints/Laws reads and writes a fingerprint.
-- ControlPlane.Application, crates/application, the limits, outcomes and errors of the use cases, and
-- what a repeated idempotency key is; Application/Laws has its properties.
-- ControlPlane.Projection, services/control-plane/src/projection.rs, the records built of a
-- registration, a heartbeat and a probe; Projection/Laws has its properties.
-- ControlPlane.State, Trimming, Normalize and Commands, services/control-plane/src/state.rs: the state
-- with the transactions on devices, the trimming of the kept scopes, the canonical form of the
-- command state, and the transactions on commands. Trimming/Evict and Trimming/Bounds, Normalize/Queues
-- and Normalize/Pending, and Commands/Issue, Commands/Quiet, Commands/View, Commands/Fifo and
-- Commands/Duplicates have their properties. Invariant and Queued say what each transaction keeps,
-- Reach has the step relation and the states that are reached, Persisted what the store has seen.
-- ControlPlane.Storage, crates/control-plane-sqlite/src/snapshot_compare_and_swap.rs, the swap of the rows
-- of one snapshot for those of another. Rows and Equality are about tables, Statements says what is relied
-- on of SQLite (`Sqlite`, `KeepsTables`) and what a loop of statements makes of the tables, Cascade
-- when deleted results take no claims along, Swap and Outcome
-- what the eight loops and the swap make of them.
-- ReverseTunnel.Server, crates/reverse-tunnel/src/state.rs. Types has the data, Sessions the
-- functions that install, refresh and remove an authority, Streams those that reserve, request and
-- accept streams, Select those that choose a target. Each critical section under the locks is one
-- function from a state to a state. View shows a state as it is seen from one node, Consistent says
-- what the maps have in common there, and WellFormed that the operations keep it. Steps has the
-- step relations: the critical sections before a shutdown begins (`Step`, `Serving`), those of a shutdown
-- (`ShutdownStep`), and all together (`Reach`). Keeps has what a property has to bear to hold in all
-- states, Reachable and Capacity two such properties, to which Shutdown, Admit and Bounded lead.
-- Heartbeats has the section of crates/reverse-tunnel/src/tunnel.rs that marks a session after its refresh.
-- Fencing, Disconnect, Accept, Heartbeat and Routing have the properties of single operations, Candidates
-- and Found what a scan of the sessions finds.
-- ReverseTunnel.Events, crates/reverse-tunnel/src/model.rs, the counters of the tunnel's events. Events/Counts
-- and Events/Attempts have their properties.
-- Base, tests on numbers and texts, lists, maps, results, and their lemmas. `==` is Rust's derived
-- `PartialEq`, decided by the instances of `PartialEq`.
-- The modules Examples have the theorems at concrete data.
--
-- A `u64` is a native number whose bound is written where the code can pass it. A `HashMap` or
-- `BTreeMap` is an association list, of which only keyed access, `len`, `values` and `retain` are
-- used. An `Instant` is a number; the current time, a fresh `Uuid`, and what the transport libraries
-- say about a connection, a channel, a requester and a stream (`Net`) are arguments. A function that
-- takes the locks more than once (`register_reserved_tcp_stream`,
-- `open_tcp_proxy_for_target_with_timeout`) is a step for each time; `select_active_target`,
-- `active_connection_for_target`, `shutdown_tcp` and the end of a request whose control channel is closed
-- are modelled whole, and the sections that they are made of are steps of their own, too. All
-- recursion is on a list, but for the trimming of the control plane's scopes: its loop has as many
-- rounds as there are scopes, and each round takes one. A transaction of the control plane holds its
-- locks from start to end and is one function; the store's answer to a candidate (`Store`), the
-- readings of the clock and the hash (`Blake3`) are arguments. In the storage a transaction is a value of the
-- database that is kept by its commit and is otherwise dropped; its tables are gone through in the order of
-- the list, and compared by their entries.
--
-- Not modelled: the transports and their frames (the rest of crates/reverse-tunnel/src/tunnel.rs), the waiting of
-- `open_tcp_proxy_for_target_with_timeout` for a stream, the texts of errors, the rest of the control plane's
-- storage (crates/control-plane-sqlite) and its HTTP routes, the other programs under apps and services, and
-- all that is not Rust.
pub mod Base
pub mod Foundation
pub mod RuntimeDomain
pub mod ProxyCore
pub mod ControlPlane
pub mod ReverseTunnel
