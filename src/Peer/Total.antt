-- ===== src/Peer/Total.antt =====
-- src/peer.rs, `process_message`: every message over a connection is answered.
use ruknet.Base.{
  ℕ, ap, Result, zero, suc, ◌+◌, ◌^◌, ◌≤◌, ◌<◌, ◌≡◌, ◌∙◌, refl, false, not, ◌&&◌, some, List, [],
  ◌∷◌, ◌++◌, arith, leb, ◌==◌, length, length-append, get_or, Bool-cases, inl, inr,
}
use ruknet.Buf.{IsBuf}
use ruknet.Net.{SocketAddr}
use ruknet.App.{RukMessage, RukMessageContext}
use ruknet.Cache.{is_nil}
use ruknet.Codec.Decode.{lift, ◌>>=◌, pure}
use ruknet.Reliability.{Priority, Reliability, is_reliable, reliable_ordered, low}
use ruknet.Message.{
  OnlineMessageIds, online_from_u8, online_to_u8, connected_ping, connected_pong,
  connection_request, connection_request_accepted, new_incoming_connection,
  disconnection_notification,
}
use ruknet.Layer.Send.Total.{send-goes}
use ruknet.Conn.{
  Conn, eq_mode, unverfied_sender, requested_connection, handling_connection_request, connected,
}
use ruknet.Peer.{
  attempt, Peer, RukCommand, World, Session, queue_size, push_command, settle, and_then,
  send_command_send, send_command_close, close_conn_internal, send_message, send_to_conn,
  send_ping_to_conn,
}
use ruknet.Peer.Answers.{
  Answers, accepts, refuses, IsSafe, IsSafe-bind, IsSafe-pure, IsSafe-u8, IsSafe-u16, IsSafe-u64,
  try_get_addr-IsSafe, Answers-parse, Answers-attempt, Answers-if, Answers-if_let,
}
use ruknet.Peer.Online.{
  try_get_addrs, read_connection_request, read_accepted, read_new_incoming, read_connected_pong,
  on_connection_request, on_accepted, on_new_incoming, on_connected_ping, on_connected_pong,
  on_disconnection, on_online_message, handle_message, process_message,
}

module _ {C : Type 0} where
  -- The packets of the connection have room for the largest header and a byte.
  abbrev pub HasPackets : Conn C → Type 0
  HasPackets conn = (24 ≤ conn.layer.max_size_of_packet) × (conn.layer.max_size_of_packet < 2 ^ 64)

  -- What sending over a connection leaves as it is.
  abbrev pub Carries : Conn C → Conn C → Type 0
  Carries conn conn' =
      (conn'.layer.max_size_of_packet ≡ conn.layer.max_size_of_packet)
      × (conn'.connect_mode ≡ conn.connect_mode)
      × (conn'.ping ≡ conn.ping)
      × (conn'.guid ≡ conn.guid)

  -- The queues have room for the commands and for the message of one handler.
  abbrev pub HasQueues : Peer C → Type 0
  HasQueues p = (length p.command_queue + 2 ≤ queue_size) × (length p.message_queue < queue_size)

  abbrev Queues : Peer C → Peer C → Type 0
  Queues p p' =
      (length p'.command_queue ≤ length p.command_queue + 2)
      × (length p'.message_queue ≤ length p.message_queue + 1)

  -- The connection's packets keep their size, and at most two commands and one message have been
  -- queued.
  abbrev pub Keeps : Session C → Session C → Type 0
  Keeps (conn, p) (conn', p') =
      (conn'.layer.max_size_of_packet ≡ conn.layer.max_size_of_packet)
      × (length p'.command_queue ≤ length p.command_queue + 2)
      × (length p'.message_queue ≤ length p.message_queue + 1)

  -- The peer once the application has been told.
  abbrev pub told : SocketAddr → ℕ → RukMessageContext → Peer C → Peer C
  told addr guid context p =
      let message : RukMessage = record { addr = addr; guid = guid; context = context } in
      record p { message_queue = p.message_queue ++ message ∷ [] }

  pub send_message-goes :
      (addr : SocketAddr) (guid : ℕ) (context : RukMessageContext) (p : Peer C)
      → length p.message_queue < queue_size
      → send_message addr guid context p ≡ some (told addr guid context p)
  unfolding send_message
  send_message-goes addr guid context p room =
      let free : leb queue_size (length p.message_queue) ≡ false = ground arith in rw free refl

  one_more :
      (message : RukMessage) (p : Peer C)
      → length (p.message_queue ++ message ∷ []) ≤ length p.message_queue + 1
  one_more message p = omega (arith, length-append p.message_queue (message ∷ []))

  push_command-goes :
      (command : RukCommand) (p : Peer C)
      → length p.command_queue < queue_size
      → (p' : Peer C) × (push_command command p ≡ some p')
        × (length p'.command_queue ≡ length p.command_queue + 1)
        × (p'.message_queue ≡ p.message_queue)
  unfolding push_command
  push_command-goes command p room =
      let free : leb queue_size (length p.command_queue) ≡ false = ground arith in
      (
        record p { command_queue = p.command_queue ++ command ∷ [] },
        rw free refl,
        length-append p.command_queue (command ∷ []),
        refl,
      )

  close_conn_internal-goes :
      (addr : SocketAddr) (priority : Priority) (channel : ℕ) (p : Peer C)
      → length p.command_queue + 2 ≤ queue_size
      → (p' : Peer C) × (close_conn_internal addr priority channel p ≡ some p') × Queues p p'
  unfolding close_conn_internal send_command_send send_command_close and_then
  close_conn_internal-goes addr priority channel p room =
      let command =
        RukCommand.send addr priority reliable_ordered channel
          (online_to_u8 disconnection_notification ∷ []) in
      let (q, e, l, m) = push_command-goes command p (omega arith) in
      let (r, e', l', m') = push_command-goes (RukCommand.close addr) q (omega (arith, l)) in
      (r, rw e e', (omega (arith, l, l'), omega (arith, ap length m, ap length m')))

  Answers-told :
      {E S : Type 0} (P : S → Type 0) (addr : SocketAddr) (guid : ℕ) (context : RukMessageContext)
      (p : Peer C) (k : Peer C → Result (E × S) S)
      → length p.message_queue < queue_size
      → Answers P (k (told addr guid context p))
      → Answers P (attempt (send_message addr guid context p) k)
  unfolding attempt
  Answers-told P addr guid context p k room a =
      rw (send_message-goes addr guid context p room, attempt) a

  pub send_to_conn-goes :
      (now : ℕ) (priority : Priority) (reliability : Reliability) (bytes : List ℕ) (conn : Conn C)
      → HasPackets conn
      → (conn' : Conn C) × (send_to_conn now priority reliability 0 bytes conn ≡ some conn')
        × Carries conn conn'
  unfolding send_to_conn settle
  send_to_conn-goes now priority reliability bytes conn h =
      let (layer, e, kept) = send-goes priority reliability bytes conn.layer h.0 h.1 in
      elim (Bool-cases (is_reliable reliability)) [
        | inl sure ↦ (
          record conn { last_reliable_send = now; layer = layer },
          rw (sure, e) refl,
          (kept, refl, refl, refl),
        )
        | inr unsure ↦
            (record conn { layer = layer }, rw (unsure, e) refl, (kept, refl, refl, refl))
      ]

module _ {C : Type 0} (w : World C) (laws : IsBuf w.buf) (now : ℕ) (addr : SocketAddr) where
  addrs-IsSafe : (n : ℕ) → IsSafe (try_get_addrs w.buf n)
  unfolding try_get_addrs
  addrs-IsSafe zero = IsSafe-pure _
  addrs-IsSafe (suc n) =
      IsSafe-bind (try_get_addr-IsSafe w.buf laws)
        λ a. IsSafe-bind (addrs-IsSafe n) λ addrs. IsSafe-pure _

  read_connection_request-IsSafe : IsSafe (read_connection_request w.buf)
  unfolding read_connection_request
  read_connection_request-IsSafe = IsSafe-bind (IsSafe-u64 w.buf laws) λ guid.
      IsSafe-bind (IsSafe-u64 w.buf laws)
        λ ping. IsSafe-bind (IsSafe-u8 w.buf laws) λ security. IsSafe-pure _

  -- The times that end a message.
  times-IsSafe :
      {A : Type 0} (f : ℕ → ℕ → A)
      → IsSafe
          (λ s. (lift w.buf.try_get_u64 >>= λ a. lift w.buf.try_get_u64 >>= λ b. pure (f a b)) s)
  times-IsSafe f =
      IsSafe-bind (IsSafe-u64 w.buf laws)
        λ ping. IsSafe-bind (IsSafe-u64 w.buf laws) λ pong. IsSafe-pure _

  read_accepted-IsSafe : IsSafe (read_accepted w.buf)
  unfolding read_accepted
  read_accepted-IsSafe = IsSafe-bind (try_get_addr-IsSafe w.buf laws) λ a.
      IsSafe-bind (IsSafe-u16 w.buf laws)
        λ index. IsSafe-bind (addrs-IsSafe 10) λ addrs. times-IsSafe _

  read_new_incoming-IsSafe : IsSafe (read_new_incoming w.buf)
  unfolding read_new_incoming
  read_new_incoming-IsSafe =
      IsSafe-bind (try_get_addr-IsSafe w.buf laws)
        λ a. IsSafe-bind (addrs-IsSafe 20) λ addrs. times-IsSafe _

  read_connected_pong-IsSafe : IsSafe (read_connected_pong w.buf)
  unfolding read_connected_pong
  read_connected_pong-IsSafe = times-IsSafe _

  pub pinged-goes :
      (reliability : Reliability) (conn : Conn C)
      → HasPackets conn
      → (conn' : Conn C) × (send_ping_to_conn w now reliability conn ≡ some conn')
        × Carries conn conn'
  unfolding send_ping_to_conn
  pinged-goes reliability conn h = send_to_conn-goes now _ reliability _ conn h

  module _ (msg : List ℕ) (conn : Conn C) (p : Peer C) (h : HasPackets conn)
      (room : HasQueues p) where
    unchanged : Keeps (conn, p) (conn, p)
    unchanged = (refl, omega arith, omega arith)

    on_connection_request-Answers :
        Answers (Keeps (conn, p)) (on_connection_request w now addr msg (conn, p))
    unfolding on_connection_request
    on_connection_request-Answers =
        Answers-parse (Keeps (conn, p)) _ _ read_connection_request-IsSafe unchanged λ ping rest.
          Answers-attempt (Keeps (conn, p))
            (send_to_conn-goes now _ _ _
              (record conn { connect_mode = handling_connection_request }) h)
            λ conn' kept. accepts (kept.0, omega arith, omega arith)

    on_accepted-Answers : Answers (Keeps (conn, p)) (on_accepted w now addr msg (conn, p))
    unfolding on_accepted
    on_accepted-Answers =
        Answers-if (Keeps (conn, p)) (eq_mode conn.connect_mode requested_connection)
          (Answers-parse (Keeps (conn, p)) _ _ read_accepted-IsSafe unchanged
            λ (remote_addr, ping_time, pong_time) rest.
              Answers-told (Keeps (conn, p)) _ _ _ p _ room.1 (
                Answers-attempt (Keeps (conn, p))
                  (send_to_conn-goes now _ _ _ (record conn { connect_mode = connected; ping = _ })
                    h)
                  λ conn' kept.
                    Answers-attempt (Keeps (conn, p))
                      (pinged-goes _ conn' (ground (arith, h.0, h.1, kept.0)))
                      λ conn'' kept'. accepts (kept'.0 ∙ kept.0, omega arith, one_more _ p)))
          (refuses unchanged)

    on_new_incoming-Answers : Answers (Keeps (conn, p)) (on_new_incoming w now addr msg (conn, p))
    unfolding on_new_incoming
    on_new_incoming-Answers =
        Answers-if (Keeps (conn, p)) (eq_mode conn.connect_mode handling_connection_request)
          (Answers-attempt (Keeps (conn, p))
            (pinged-goes _ (record conn { connect_mode = connected }) h)
            λ conn' kept.
              Answers-parse (Keeps (conn, p)) _ _ read_new_incoming-IsSafe
                (kept.0, omega arith, omega arith)
                λ ping_time rest.
                  Answers-told (Keeps (conn, p)) _ _ _ p _ room.1
                    (accepts (kept.0, omega arith, one_more _ p)))
          (refuses unchanged)

    on_connected_ping-Answers : Answers (Keeps (conn, p)) (on_connected_ping w now msg (conn, p))
    unfolding on_connected_ping
    on_connected_ping-Answers =
        Answers-parse (Keeps (conn, p)) _ _ (IsSafe-u64 w.buf laws) unchanged λ ping rest.
          Answers-attempt (Keeps (conn, p)) (send_to_conn-goes now _ _ _ conn h)
            λ conn' kept. accepts (kept.0, omega arith, omega arith)

    on_connected_pong-Answers : Answers (Keeps (conn, p)) (on_connected_pong w now msg (conn, p))
    unfolding on_connected_pong
    on_connected_pong-Answers =
        Answers-parse (Keeps (conn, p)) _ _ read_connected_pong-IsSafe unchanged
          λ ping rest. accepts unchanged

    on_disconnection-Answers : Answers (Keeps (conn, p)) (on_disconnection w addr (conn, p))
    unfolding on_disconnection
    on_disconnection-Answers =
        Answers-attempt (Keeps (conn, p)) (close_conn_internal-goes addr low 0 p room.0)
          λ p' few. accepts (refl, few.0, few.1)

    on_online_message-Answers :
        (id : OnlineMessageIds)
        → Answers (Keeps (conn, p)) (on_online_message w id now addr msg (conn, p))
    unfolding on_online_message
    on_online_message-Answers connected_ping = on_connected_ping-Answers
    on_online_message-Answers connected_pong = on_connected_pong-Answers
    on_online_message-Answers connection_request = on_connection_request-Answers
    on_online_message-Answers connection_request_accepted = on_accepted-Answers
    on_online_message-Answers new_incoming_connection = on_new_incoming-Answers
    on_online_message-Answers disconnection_notification = on_disconnection-Answers

  -- A message over a connection, whatever its bytes, is handled or refused, without a panic or a wait,
  -- if the connection's packets hold at least 24 bytes, fewer than 2^64, and the queues have room for
  -- two commands and for a message to the application. No more is queued, and the packets keep their
  -- size.
  pub process_message-Answers :
      (msg : List ℕ) (conn : Conn C) (p : Peer C)
      → HasPackets conn
      → HasQueues p
      → Answers (Keeps (conn, p)) (process_message w now addr msg (conn, p))
  unfolding process_message handle_message
  process_message-Answers msg conn p h room =
      let same = unchanged msg conn p h room in
      Answers-if (Keeps (conn, p)) (is_nil msg) (refuses same) (
        Answers-if (Keeps (conn, p))
          (eq_mode conn.connect_mode unverfied_sender
            && not (get_or msg 0 0 == online_to_u8 connection_request))
          (refuses same)
          (Answers-if_let (Keeps (conn, p)) (online_from_u8 (get_or msg 0 0))
            (on_online_message-Answers (w.buf.advance 1 msg) conn p h room)
            (Answers-told (Keeps (conn, p)) _ _ _ p _ room.1
              (accepts (refl, omega arith, one_more _ p)))))
