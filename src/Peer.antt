-- ===== src/Peer.antt =====
-- src/peer.rs: the state of a peer, and the helpers that its parts share.
pub mod Api
pub mod Packets
pub mod Offline
pub mod Online
pub mod Cycle
pub mod Tasks
pub mod Census
pub mod Results
pub mod Answers
pub mod Total
pub mod Modes
pub mod Verified
pub mod Steps
pub mod Sends
pub mod Rounds
pub mod Refine
pub mod Bans
pub mod Handshake
pub mod Greeting
pub mod Closing
mod Runs
mod Tests
use ruknet.Base.{
  ℕ, ◌+◌, ◌%◌, ◌^◌, Bool, true, false, Option, none, some, List, [], ◌∷◌, ◌++◌, leb, if◌then◌else◌,
  length, Result, ok, err, fault,
}
use ruknet.Error.{PeerError, failed_to_send}
use ruknet.Buf.{Buf}
use ruknet.Net.{SocketAddr}
use ruknet.Net.Table.{Table, put}
use ruknet.Reliability.{Priority, immediate, Reliability, reliable_ordered, is_reliable}
use ruknet.Message.{online_to_u8, connected_ping, disconnection_notification}
use ruknet.Congestion.{CongestionController}
use ruknet.Layer.Send
use ruknet.App.{RukMessage, RukMessageContext}
use ruknet.Conn.{ReqConn, Conn, ConnectMode, new_conn}

pub data RukCommand : Type 0 where
  send :
      (addr : SocketAddr) (priority : Priority) (reliability : Reliability) (ordering_channel : ℕ)
      (bytes : List ℕ)
      → RukCommand
  close : (addr : SocketAddr) → RukCommand

abbrev pub queue_size : ℕ
queue_size = 8192

-- The struct with what its update task owns: the packets, and the connections with their count. The
-- maps of the struct and the queues are shared between the tasks; each step of the model has them
-- for itself. `sent` has the datagrams given to the socket, the last one last.
pub record Peer (C : Type 0) : Type 0 where
  pub addr : SocketAddr
  pub guid : ℕ
  pub is_listening : Bool
  pub max_conn_count : ℕ
  pub conn_count : ℕ
  pub conns : Table (Conn C)
  pub req_conns : Table ReqConn
  pub ban_list : Table ℕ
  pub ping_res : List ℕ
  pub packet_queue : List (SocketAddr × List ℕ)
  pub command_queue : List RukCommand
  pub message_queue : List RukMessage
  pub sent : List (SocketAddr × List ℕ)

-- What the peer uses and is not its own code: the congestion controller, the byte buffers,
-- `String::from_utf8_lossy`, and the socket, with the error of a datagram that it does not take.
-- `reentrant` says whether `remove` on a `DashMap` returns while its caller holds a reference into
-- the map; the crate's documentation says that it may deadlock.
pub record World (C : Type 0) : Type 0 where
  pub controller : CongestionController C
  pub buf : Buf
  pub lossy : List ℕ → List ℕ
  pub send_to : SocketAddr → List ℕ → Option ℕ
  pub reentrant : Bool

-- `none`: the code panics, or waits for another task.
unfoldable pub and_then {ℓ κ} : {A : Type ℓ} {B : Type κ} → Option A → (A → Option B) → Option B
and_then none f = none
and_then (some a) f = f a

unfoldable pub attempt {ℓ κ ι} :
    {A : Type ℓ} {E : Type κ} {B : Type ι} → Option A → (A → Result E B) → Result E B
attempt none f = fault
attempt (some a) f = f a

-- `bind`, shut.
unfoldable pub chain {ℓ κ ι} :
    {E : Type ℓ} {A : Type κ} {B : Type ι} → Result E A → (A → Result E B) → Result E B
chain (ok a) f = f a
chain (err e) f = err e
chain fault f = fault

-- `if let Some(a) = o { f(a) } else { b }`
unfoldable pub if_let {ℓ κ} : {A : Type ℓ} {B : Type κ} → Option A → (A → B) → B → B
if_let none f b = b
if_let (some a) f b = f a

-- What follows a success and what follows an error, each from the state that is left.
unfoldable pub settle {ℓ κ} :
    {E : Type ℓ} {S B : Type κ} → Result (E × S) S → (S → Option B) → (S → Option B) → Option B
settle (ok s) f g = f s
settle (err (e, s)) f g = g s
settle fault f g = none

-- An error leaves the peer as the code has changed it so far.
abbrev pub Outcome : Type 0 → Type 0
Outcome C = Result (PeerError × Peer C) (Peer C)

-- A connection that is being handled, with its peer.
abbrev pub Session : Type 0 → Type 0
Session C = Conn C × Peer C

-- A full queue holds the caller until the update task takes commands out. The update task that
-- pushes to it waits for itself.
unfoldable pub push_command : {C : Type 0} → RukCommand → Peer C → Option (Peer C)
push_command command p =
    if leb queue_size (length p.command_queue)
    then none
    else some (record p { command_queue = p.command_queue ++ command ∷ [] })

unfoldable pub send_command_send :
    {C : Type 0} → SocketAddr → Priority → Reliability → ℕ → List ℕ → Peer C → Option (Peer C)
unfolding push_command
send_command_send addr priority reliability ordering_channel bytes =
    push_command (RukCommand.send addr priority reliability ordering_channel bytes)

unfoldable pub send_command_close : {C : Type 0} → SocketAddr → Peer C → Option (Peer C)
unfolding push_command
send_command_close addr = push_command (RukCommand.close addr)

-- The update task, which is notified in between, may run after the first command; here both are one
-- step.
unfoldable pub close_conn_internal :
    {C : Type 0} → SocketAddr → Priority → ℕ → Peer C → Option (Peer C)
unfolding send_command_send send_command_close
close_conn_internal addr priority ordering_channel p =
    and_then
      (send_command_send addr priority reliable_ordered ordering_channel
        (online_to_u8 disconnection_notification ∷ []) p)
      (send_command_close addr)

-- A full queue holds the caller until the application takes messages out.
unfoldable pub send_message :
    {C : Type 0} → SocketAddr → ℕ → RukMessageContext → Peer C → Option (Peer C)
send_message addr guid context p =
    let message : RukMessage = record { addr = addr; guid = guid; context = context } in
    if leb queue_size (length p.message_queue)
    then none
    else some (record p { message_queue = p.message_queue ++ message ∷ [] })

-- The layer returns no error here.
unfoldable pub send_to_conn :
    {C : Type 0} → ℕ → Priority → Reliability → ℕ → List ℕ → Conn C → Option (Conn C)
send_to_conn now priority reliability ordering_channel bytes conn =
    let conn' =
      if is_reliable reliability then record conn { last_reliable_send = now } else conn in
    settle (Send.send priority reliability ordering_channel bytes conn'.layer)
      (λ layer. some (record conn' { layer = layer })) (λ layer. none)

unfoldable pub ban_addr_internal : {C : Type 0} → SocketAddr → ℕ → Peer C → Peer C
ban_addr_internal addr time p = record p { ban_list = put addr time p.ban_list }

module _ {C : Type 0} (w : World C) where
  unfoldable pub send_ping_to_conn : ℕ → Reliability → Conn C → Option (Conn C)
  unfolding send_to_conn
  send_ping_to_conn now reliability =
      send_to_conn now immediate reliability 0
        (w.buf.put_u64 now (w.buf.put_u8 (online_to_u8 connected_ping) []))

  unfoldable pub register_conn :
      ℕ → SocketAddr → ℕ → SocketAddr → ConnectMode → ℕ → Bool → Option (Conn C)
  unfolding new_conn
  register_conn now addr guid binding_addr connect_mode mtu_size use_security =
      some (new_conn w.controller now guid connect_mode mtu_size)

  -- `socket.send_to(bytes, addr).await?`
  unfoldable pub try_send : SocketAddr → List ℕ → Peer C → Outcome C
  try_send addr bytes p =
      if_let (w.send_to addr bytes) (λ e. err (failed_to_send e, p))
        (ok (record p { sent = p.sent ++ (addr, bytes) ∷ [] }))

  -- The same where an error is only logged.
  unfoldable pub send_or_log : SocketAddr → List ℕ → Peer C → Peer C
  send_or_log addr bytes p =
      if_let (w.send_to addr bytes) (λ e. p) (record p { sent = p.sent ++ (addr, bytes) ∷ [] })
