-- ===== src/Lib.antt =====
-- BeeGFS management service and its shared library, in Rust: a model and what it satisfies.
--
-- Serde: the wire format of BeeGFS messages (shared/src/bee_serde.rs). Serde.Serializer and
-- Serde.Deserializer have one function for each method, over the buffer, the cursor and the header.
-- Serde.Format has the helper types `Int`, `Seq`, `Map` and `CStr` and the pair of `Serializable` and
-- `Deserializable`. Serde.Writes, Serde.Reads and Serde.RoundTrip have their laws.
-- Types: the enums (shared/src/types.rs, shared/src/bee_msg) and their numbers on the wire.
-- Message: the header and the frame (shared/src/bee_msg.rs), and the message types by file
-- (shared/src/bee_msg/*.rs): Message.Targets, Message.TargetStates, Message.BuddyGroups, Message.Resync,
-- Message.Nodes, Message.Nics, Message.Quota, Message.Misc. A struct with a derived `BeeSerde` is the
-- sequence of its fields, as bee_serde_derive/src/lib.rs generates it.
-- CapPool: the calculator of capacity pools (mgmtd/src/cap_pool.rs).
-- Conn: streams and datagrams as far as they read, authenticate and dispatch messages
-- (shared/src/conn.rs, shared/src/conn/stream.rs, shared/src/conn/incoming.rs,
-- shared/src/conn/msg_dispatch.rs). They use Message for the frame.
-- Conn.Queue, Conn.Store and Conn.Outgoing are the other direction (shared/src/conn/async_queue.rs,
-- store.rs and outgoing.rs): the queue whose operations are split into the parts that run under the
-- lock or on the notification, the store of open streams with its permits, and `comm_stream` over both,
-- with `request`, `send` and `broadcast_datagram` around it in Conn.Outgoing.Requests. Conn.Store.Wait is
-- the wait for a stream that another task gives back. tokio's `Notify` and `Semaphore`, writing and
-- connecting are parameters, with what tokio documents of them, and so is what the other tasks do to the
-- store, one after the other, while one waits, until the timeout.
-- Entities: aliases and uids (shared/src/types/entity.rs, mgmtd/src/db/entity.rs,
-- mgmtd/src/grpc/set_alias.rs).
-- Db: the tables of nodes, targets and buddy groups as lists of rows (mgmtd/src/db/schema), and the
-- queries of mgmtd/src/db and mgmtd/src/bee_msg/common.rs as functions on them. Db.BuddyGroup is the
-- switchover, Db.Misc the choice of new ids, Db.Target the check of ids, the consistency states and the
-- times of contact, Db.States the states that are reported to clients. Db.Store has the tables together and
-- the insertion and deletion of targets and groups, Db.Changes the creation of groups and the moves between
-- pools (mgmtd/src/grpc/assign_pool.rs) and nodes, Db.Capacities the capacities. Each statement has the
-- keys and foreign keys of the schema as errors. Db.Invariant has one module for each kind of transaction,
-- and Db.Invariant.Steps the transactions as steps between stores.
-- Quota: usage and limits (mgmtd/src/quota.rs, mgmtd/src/bee_msg/request_exceeded_quota.rs). It uses the
-- tables of Db and the messages of Message.Quota.
-- Migration: the migrations of the schema (sqlite/src/migration.rs); running SQL is a parameter.
-- Handlers: the application state, write transactions, which are dropped after an error or a panic of the
-- closure (sqlite/src/connection.rs), and the handlers of the consistency states. They call Db as the
-- code does.
--
-- A byte is a number below 256, an unsigned integer a number, and a signed integer on the wire its
-- two's complement bit pattern. A `HashMap` is the list of its entries. An `anyhow::Error` is one
-- constructor for each place that raises it, without its text; a panic is a result of its own. Loops
-- are recursions on lists or counts. `stream_loop` takes fuel, one more than the bytes that the peer
-- sends, each turn using up a header, and the loop of `comm_stream` over the stored streams of a node
-- one more turn than there are streams, each turn taking one. The digits of a number take the number as
-- fuel. A dispatcher is a parameter, a function of the header, the stream and the buffer.
-- A time is a number of whole seconds. A row has the columns that the modelled queries read. The
-- UNIQUE constraints of the schema are conditions of the theorems that need them, or follow from the
-- transactions. An SQL query without ORDER BY gives its rows in an order of its own; where the model has
-- them in the order of the table, the theorems on quota and on reported states speak of membership, and
-- the order of the keys that the switchover returns is the model's.
--
-- Not modelled: sockets and the async runtime, logging, allocation failure; the registration of nodes, the
-- storage pools' own commands, the import from version 7, the gRPC handlers other than the ones named
-- above, network interfaces, command line and configuration, licences.
pub mod Prelude
pub mod Result
pub mod Migration
pub mod Types
pub mod Serde
pub mod Message
pub mod CapPool
pub mod Conn
pub mod Entities
pub mod Db
pub mod Quota
pub mod Handlers
pub mod Tests
