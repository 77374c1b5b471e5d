-- ===== src/Lib.antt =====
-- A model of RukNet, a reimplementation of the RakNet protocol: its wire format, its reliability
-- layer and its peer, with the theorems that say what they keep.
--
-- The program. A `Peer` owns a UDP socket and a table of connections; each connection has a `Layer`,
-- which turns messages into fragments, fragments into datagrams, and back. The layer numbers and
-- acknowledges datagrams, sends again what is not acknowledged, splits long messages, and keeps the
-- order of messages on 32 channels. It uses a receive window for the numbers of datagrams and for the
-- indices of reliable fragments, a cache of the packets sent, and a congestion controller.
--
-- Files, each named for the source file it models:
--   Base          shared types, lists, bytes and bits; results with errors and panics (`fault`)
--   Error         src/error.rs
--   Reliability   src/reliability/fragment.rs
--   Message       src/proto/message.rs
--   Buf           the operations of the `bytes` crate as a parameter, and what they are said to do
--   Datagram      src/proto/datagram.rs; Net has the socket addresses of the standard library
--   Codec         src/proto/bytes.rs: Decode has the `try_get` readers, Encode the `put` writers
--   Window        src/reliability/window.rs: `insert`, `shift`, `collect_missing`
--   Cache         src/reliability/retransmit_cache.rs
--   Congestion    src/reliability/congestion_controller/mod.rs, the trait as a record of operations;
--                 Congestion.Sliding is sliding_window.rs, Congestion.Udt with its child Arrival udt.rs
--   Layer         src/reliability/layer.rs: the state is a record with the fields of the struct.
--                 Layer.Receive is `handle_datagram` and what it calls, Layer.Reassembly
--                 `build_split_fragment`, Layer.Send `send`, `split_fragment` and the weights,
--                 Layer.Update `update`.
--   Proto         src/proto/mod.rs, the constants that the peer uses
--   App, Conn     src/app.rs and src/conn.rs
--   Peer          src/peer.rs: the state is the struct with what its update task owns. Peer.Api has the
--                 calls of the application, Peer.Offline `process_offline_packet` with what it reads and
--                 writes in Peer.Packets, Peer.Online `process_message`, Peer.Cycle `update_cycle` and
--                 the rest that it calls, Peer.Tasks one round of each task. What the peer uses and is not its own is the record `World`.
--                 Peer.Census is the abstract machine of the connections; Peer.Results has the rules for
--                 what a handler leaves, Peer.Answers those for handlers that never panic.
--
-- State and errors. A method with `&mut self` is a function that returns the new state. A reader is a
-- function on the bytes that are left. A layer's error carries the layer as it is when the code
-- returns; `fault` stands for a panic. Numbers are natural numbers; additions and subtractions of
-- counters wrap at their width as in a release build, while sums of the sizes of the fragments of one
-- update are not wrapped. An `f32` on the wire is its bit pattern; the floats of the
-- controllers are a parameter, a type with the operations used. The heap of outgoing fragments is a list by weight; of
-- two equal weights the earlier comes first, which the standard library leaves open. A `HashMap` and
-- a `DashMap` are association lists; the peer's are the tables of Net.Table.
--
-- Loops. A loop over a list or a range is recursion on the list or the number of rounds. The loop over
-- the fragments of a datagram is recursion on the number of bytes, which is enough since each fragment
-- takes at least one. The selection of the median arrival rate takes as many rounds as there are rates:
-- each round leaves out its pivot.
--
-- The peer. A handler's error carries the peer as the code has changed it. In a step that returns no
-- error, `none` stands for a panic or for a wait that the step does not end itself: the update task
-- that pushes to its own full command queue, a message for the application that finds its queue full,
-- or a `remove` under a reference into a `DashMap`, which `World` leaves open. The packets and commands
-- that come during a cycle are taken as queued before it. A connection is closed by two commands, and
-- the update task may run after the first; the model queues both in one step. The size of a message in
-- memory, on which `recv_many` panics, is an argument; an allocation that fails is not modelled.
--
-- Not modelled: the tasks of tokio as such, their waits for each other and the choice among several
-- wake-ups; the resolution of host names; the texts of errors and the debug macro.
pub mod Base
pub mod Error
pub mod Reliability
pub mod Message
pub mod Proto
pub mod Buf
pub mod Datagram
pub mod Net
pub mod Codec
pub mod Window
pub mod Cache
pub mod Congestion
pub mod Layer
pub mod App
pub mod Conn
pub mod Peer
