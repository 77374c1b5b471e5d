-- ===== src/Peer/Cycle.antt =====
-- src/peer.rs, `update_cycle`: what a peer does when one of its timers or queues wakes it.
use ruknet.Base.{
  ℕ, ◌+◌, ◌-◌, ◌/◌, ◌%◌, ◌^◌, min, Bool, ◌&&◌, ◌||◌, Option, none, some, List, [], ◌∷◌, ◌++◌, map,
  ltb, leb, ◌==◌, if◌then◌else◌, length, get_or,
}
use ruknet.Net.{SocketAddr}
use ruknet.Net.Table.{Table, find, put, remove}
use ruknet.Reliability.{low, unreliable, reliable}
use ruknet.Message.{OfflineMessageIds}
use ruknet.Proto.{mtu_sizes}
use ruknet.Window.{sub_u64}
use ruknet.Layer.{ip_udp_header_size, default_timeout, get_timeout, is_retransmit_cache_empty}
use ruknet.Layer
use ruknet.Layer.Receive.{handle_datagram}
use ruknet.Layer.Update.{update}
use ruknet.App.{RukMessageContext}
use ruknet.Conn.{
  ReqConn, Conn, eq_mode, unverfied_sender, requested_connection, handling_connection_request,
  connected,
}
use ruknet.Peer.{
  Peer, RukCommand, World, Session, and_then, if_let, settle, close_conn_internal, send_message,
  send_to_conn, ban_addr_internal, send_ping_to_conn, send_or_log,
}
use ruknet.Peer.Packets.{guid_bytes, request1_bytes}
use ruknet.Peer.Offline.{process_offline_packet}
use ruknet.Peer.Online.{process_message}

abbrev pub add_u64 : ℕ → ℕ → ℕ
add_u64 a b = (a + b) % 2 ^ 64

abbrev pub mtu_size_index : ReqConn → ℕ
mtu_size_index req =
    min (req.req_count / (req.max_req_count / length mtu_sizes)) (length mtu_sizes - 1)

abbrev pub keep_request : SocketAddr → Option ReqConn → Table ReqConn → Table ReqConn
keep_request addr none reqs = reqs
keep_request addr (some req) reqs = (addr, req) ∷ reqs

abbrev pub to_addr : SocketAddr → List (List ℕ) → List (SocketAddr × List ℕ)
to_addr addr = map (λ bytes. (addr, bytes))

module _ {C : Type 0} where
  -- The connection is not open and has been there for longer than 10 seconds.
  unfoldable pub is_late : ℕ → Conn C → Bool
  unfolding eq_mode
  is_late now conn =
      (eq_mode conn.connect_mode requested_connection
        || (eq_mode conn.connect_mode handling_connection_request
            || eq_mode conn.connect_mode unverfied_sender))
      && ltb 10000 (sub_u64 now conn.create_time)

  -- `process_message` failed: the address is banned and the connection closed.
  unfoldable pub punish : SocketAddr → Session C → Option (Session C)
  unfolding ban_addr_internal close_conn_internal
  punish addr (conn, p) =
      and_then (close_conn_internal addr low 0 (ban_addr_internal addr (get_timeout conn.layer) p))
        λ p. some (conn, p)

  unfoldable pub process_command : ℕ → RukCommand → Peer C → Option (Peer C)
  unfolding send_to_conn
  process_command now (RukCommand.send addr priority reliability ordering_channel bytes) p =
      if_let (find addr p.conns)
        (λ conn.
          and_then (send_to_conn now priority reliability ordering_channel bytes conn)
            λ conn. some (record p { conns = put addr conn p.conns }))
        (some p)
  process_command now (RukCommand.close addr) p =
      if_let (find addr p.conns)
        (λ conn.
          some (record p { conn_count = sub_u64 p.conn_count 1; conns = remove addr p.conns }))
        (some p)

  unfoldable pub process_commands : ℕ → List RukCommand → Peer C → Option (Peer C)
  unfolding process_command
  process_commands now [] p = some p
  process_commands now (command ∷ commands) p =
      and_then (process_command now command p) (process_commands now commands)

module _ {C : Type 0} (w : World C) where
  open w use {controller, buf, reentrant}

  -- The messages that a datagram brought, up to the first that fails.
  unfoldable pub process_received : ℕ → SocketAddr → List (List ℕ) → Session C → Option (Session C)
  unfolding process_message punish
  process_received now addr [] s = some s
  process_received now addr (msg ∷ msgs) s =
      settle (process_message w now addr msg s) (process_received now addr msgs) (punish addr)

  -- The connection `conn` is the one of `addr` in the table.
  unfoldable pub process_datagram : ℕ → SocketAddr → List ℕ → Conn C → Peer C → Option (Peer C)
  unfolding process_received close_conn_internal
  process_datagram now addr bytes conn p =
      settle (handle_datagram controller buf now bytes conn.layer)
        (λ layer.
          let (msgs, layer) = Layer.recv layer in
          and_then (process_received now addr msgs (record conn { layer = layer }, p))
            λ (conn, p). some (record p { conns = put addr conn p.conns }))
        λ layer.
          close_conn_internal addr low 0
            (record p { conns = put addr (record conn { layer = layer }) p.conns })

  -- A packet from an address without a connection, which is not banned. An error of the handler bans
  -- it.
  unfoldable pub process_stranger : ℕ → SocketAddr → List ℕ → Peer C → Option (Peer C)
  unfolding process_offline_packet ban_addr_internal
  process_stranger now addr bytes p =
      settle (process_offline_packet w now addr bytes p) (λ p. some p)
        (λ p. some (ban_addr_internal addr default_timeout p))

  -- The ban that is over is removed while `ban_time` still refers into the list.
  unfoldable pub process_unconnected : ℕ → SocketAddr → List ℕ → Peer C → Option (Peer C)
  unfolding process_stranger guid_bytes send_or_log
  process_unconnected now addr bytes p =
      let unbanned : Peer C = record p { ban_list = remove addr p.ban_list } in
      let banned =
        some (send_or_log w addr (guid_bytes buf OfflineMessageIds.connection_banned p.guid) p) in
      let over = if reentrant then process_stranger now addr bytes unbanned else none in
      if_let (find addr p.ban_list) (λ ban_time. if ltb ban_time now then over else banned)
        (process_stranger now addr bytes p)

  unfoldable pub process_packet : ℕ → SocketAddr → List ℕ → Peer C → Option (Peer C)
  unfolding process_datagram process_unconnected
  process_packet now addr bytes p =
      if_let (find addr p.conns) (λ conn. process_datagram now addr bytes conn p)
        (process_unconnected now addr bytes p)

  unfoldable pub process_packets : ℕ → List (SocketAddr × List ℕ) → Peer C → Option (Peer C)
  unfolding process_packet
  process_packets now [] p = some p
  process_packets now ((addr, bytes) ∷ packets) p =
      and_then (process_packet now addr bytes p) (process_packets now packets)

  -- One round of the loop over `req_conns`: what is left of the entry, and the peer. An entry is
  -- removed while the loop refers to it. A third of `max_req_count` that is 0 panics as a divisor.
  unfoldable pub request_step : ℕ → SocketAddr → ReqConn → Peer C → Option (Option ReqConn × Peer C)
  unfolding send_message request1_bytes send_or_log
  request_step now addr req p =
      let failed =
        and_then (send_message addr p.guid RukMessageContext.connection_attempt_failed p)
          λ p. if reentrant then some (none, p) else none in
      let req' : ReqConn = record req {
        req_count = add_u64 req.req_count 1;
        next_req_time = add_u64 now req.req_interval;
      } in
      let sent =
        send_or_log w addr (request1_bytes buf (get_or mtu_sizes (mtu_size_index req) 0)) p in
      if ltb req.next_req_time now
      then if leb req.max_req_count req.req_count
        then failed
        else if req.max_req_count / length mtu_sizes == 0
        then none
        else some (some req', sent)
      else some (some req, p)

  unfoldable pub request_loop : ℕ → Table ReqConn → Peer C → Option (Table ReqConn × Peer C)
  unfolding request_step
  request_loop now [] p = some ([], p)
  request_loop now ((addr, req) ∷ reqs) p = and_then (request_step now addr req p) λ (kept, p).
      and_then (request_loop now reqs p) λ (reqs, p). some (keep_request addr kept reqs, p)

  -- A reliable ping keeps a connection that has nothing else to send in touch.
  unfoldable pub keep_alive : ℕ → Conn C → Option (Conn C)
  unfolding eq_mode send_ping_to_conn
  keep_alive now conn =
      let silent = ltb (get_timeout conn.layer / 2) (sub_u64 now conn.last_reliable_send) in
      if eq_mode conn.connect_mode connected && (silent && is_retransmit_cache_empty conn.layer)
      then send_ping_to_conn w now reliable conn
      else some conn

  unfoldable pub measure_ping : ℕ → Conn C → Option (Conn C)
  unfolding eq_mode send_ping_to_conn
  measure_ping now conn =
      if eq_mode conn.connect_mode connected && ltb conn.next_ping_time now
      then send_ping_to_conn w now unreliable (record conn { next_ping_time = add_u64 now 5000 })
      else some conn

  -- The messages that are left, each that fails with its punishment.
  unfoldable pub process_remaining : ℕ → SocketAddr → List (List ℕ) → Session C → Option (Session C)
  unfolding process_message punish
  process_remaining now addr [] s = some s
  process_remaining now addr (msg ∷ msgs) s =
      settle (process_message w now addr msg s) (process_remaining now addr msgs)
        λ s. and_then (punish addr s) (process_remaining now addr msgs)

  unfoldable pub after_update : ℕ → SocketAddr → Session C → Option (Session C)
  unfolding is_late measure_ping process_remaining close_conn_internal
  after_update now addr (conn, p) =
      let closed = and_then (close_conn_internal addr low 0 p) λ p. some (conn, p) in
      let lives = and_then (measure_ping now conn) λ conn.
        let (msgs, layer) = Layer.recv conn.layer in
        process_remaining now addr msgs (record conn { layer = layer }, p) in
      if conn.layer.is_dead || is_late now conn then closed else lives

  -- One round of the loop over `conns`.
  unfoldable pub conn_step : ℕ → SocketAddr → Session C → Option (Session C)
  unfolding keep_alive after_update close_conn_internal
  conn_step now addr (conn, p) = and_then (keep_alive now conn) λ conn.
      settle (update controller buf (w.send_to addr) now conn.layer)
        (λ (layer, sent).
          after_update now addr
            (record conn { layer = layer }, record p { sent = p.sent ++ to_addr addr sent }))
        λ (layer, sent).
          and_then
            (close_conn_internal addr low 0 (record p { sent = p.sent ++ to_addr addr sent }))
            λ p. some (record conn { layer = layer }, p)

  unfoldable pub conn_loop : ℕ → Table (Conn C) → Peer C → Option (Table (Conn C) × Peer C)
  unfolding conn_step
  conn_loop now [] p = some ([], p)
  conn_loop now ((addr, conn) ∷ conns) p =
      and_then (conn_step now addr (conn, p))
        λ (conn, p). and_then (conn_loop now conns p) λ (conns, p). some ((addr, conn) ∷ conns, p)

  -- The packets and commands that are queued are taken, those that come meanwhile with them.
  unfoldable pub update_cycle : ℕ → Peer C → Option (Peer C)
  unfolding process_packets process_commands request_loop conn_loop
  update_cycle now p =
      and_then (process_packets now p.packet_queue (record p { packet_queue = [] })) λ p.
        and_then (process_commands now p.command_queue (record p { command_queue = [] })) λ p.
          and_then (request_loop now p.req_conns p) λ (req_conns, p).
            and_then (conn_loop now p.conns (record p { req_conns = req_conns }))
              λ (conns, p). some (record p { conns = conns })
