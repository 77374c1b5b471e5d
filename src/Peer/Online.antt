-- ===== src/Peer/Online.antt =====
-- src/peer.rs, `process_message`: a message that came over a connection.
use ruknet.Base.{
  ℕ, zero, suc, not, ◌&&◌, List, [], ◌∷◌, ◌==◌, if◌then◌else◌, get_or, Result, ok, err,
}
use ruknet.Error.{PeerError, invalid_packet}
use ruknet.Buf.{Buf}
use ruknet.Net.{SocketAddr, v4}
use ruknet.Codec.Decode.{Parser, ◌>>=◌, pure, lift, try_get_addr}
use ruknet.Codec.Encode.{put_addr}
use ruknet.Reliability.{immediate, low, unreliable, reliable_ordered}
use ruknet.Message.{
  OnlineMessageIds, online_from_u8, online_to_u8, connected_ping, connected_pong,
  connection_request, connection_request_accepted, new_incoming_connection,
  disconnection_notification,
}
use ruknet.Cache.{is_nil}
use ruknet.App.{RukMessageContext}
use ruknet.Conn.{
  Conn, eq_mode, unverfied_sender, requested_connection, handling_connection_request, connected,
}
use ruknet.Peer.{
  World, Session, if_let, attempt, close_conn_internal, send_message, send_to_conn,
  send_ping_to_conn,
}
use ruknet.Peer.Packets.{parse, saturating_sub}

-- An error leaves the connection and the peer as the code has changed them so far.
abbrev pub Answer : Type 0 → Type 0
Answer C = Result (PeerError × Session C) (Session C)

-- `SocketAddr::new([0, 0, 0, 0].into(), 0)`
abbrev pub no_addr : SocketAddr
no_addr = v4 (0 ∷ 0 ∷ 0 ∷ 0 ∷ []) 0

module _ (b : Buf) where
  -- `n` addresses, up to the first that cannot be read.
  unfoldable pub try_get_addrs : ℕ → Parser (List SocketAddr)
  try_get_addrs zero = pure []
  try_get_addrs (suc n) = do addr ← try_get_addr b; addrs ← try_get_addrs n; pure (addr ∷ addrs)

  unfoldable pub put_no_addrs : ℕ → List ℕ → List ℕ
  unfolding put_addr
  put_no_addrs zero buf = buf
  put_no_addrs (suc n) buf = put_no_addrs n (put_addr b no_addr buf)

  -- The time of the ping; what is read with it is not used.
  unfoldable pub read_connection_request : Parser ℕ
  read_connection_request = do
    remote_guid ← lift b.try_get_u64
    ping_time ← lift b.try_get_u64
    needs_security ← lift b.try_get_u8
    pure ping_time

  -- The address as the other side sees it, and the times of the ping and of the pong.
  unfoldable pub read_accepted : Parser (SocketAddr × ℕ × ℕ)
  read_accepted = do
    remote_addr ← try_get_addr b
    system_index ← lift b.try_get_u16
    internal_addrs ← try_get_addrs 10
    ping_time ← lift b.try_get_u64
    pong_time ← lift b.try_get_u64
    pure (remote_addr, ping_time, pong_time)

  unfoldable pub read_new_incoming : Parser ℕ
  read_new_incoming = do
    remote_addr ← try_get_addr b
    internal_addrs ← try_get_addrs 20
    ping_time ← lift b.try_get_u64
    pong_time ← lift b.try_get_u64
    pure ping_time

  unfoldable pub read_connected_pong : Parser ℕ
  read_connected_pong = do
    ping_time ← lift b.try_get_u64
    pong_time ← lift b.try_get_u64
    pure ping_time

  unfoldable pub accepted_bytes : SocketAddr → ℕ → ℕ → List ℕ
  accepted_bytes addr ping_time now =
      let buf = b.put_u8 (online_to_u8 connection_request_accepted) [] in
      let buf = put_no_addrs 10 (b.put_u16 0 (put_addr b addr buf)) in
      b.put_u64 now (b.put_u64 ping_time buf)

  unfoldable pub new_incoming_bytes : SocketAddr → ℕ → ℕ → List ℕ
  new_incoming_bytes remote_addr pong_time now =
      let buf = b.put_u8 (online_to_u8 new_incoming_connection) [] in
      let buf = put_no_addrs 20 (put_addr b remote_addr buf) in
      b.put_u64 now (b.put_u64 pong_time buf)

  unfoldable pub connected_pong_bytes : ℕ → ℕ → List ℕ
  connected_pong_bytes ping_time now =
      b.put_u64 now (b.put_u64 ping_time (b.put_u8 (online_to_u8 connected_pong) []))

module _ {C : Type 0} (w : World C) where
  open w use {buf}

  unfoldable pub on_connection_request : ℕ → SocketAddr → List ℕ → Session C → Answer C
  unfolding read_connection_request accepted_bytes send_to_conn
  on_connection_request now addr msg (conn, p) =
      parse (read_connection_request buf) msg (conn, p)
        λ ping_time rest.
          let conn : Conn C = record conn { connect_mode = handling_connection_request } in
          let reply = accepted_bytes buf addr ping_time now in
          attempt (send_to_conn now immediate reliable_ordered 0 reply conn) λ conn. ok (conn, p)

  unfoldable pub on_accepted : ℕ → SocketAddr → List ℕ → Session C → Answer C
  unfolding eq_mode read_accepted new_incoming_bytes send_to_conn send_ping_to_conn send_message
  on_accepted now addr msg (conn, p) =
      let expected : Answer C =
        parse (read_accepted buf) msg (conn, p)
          λ (remote_addr, ping_time, pong_time) rest.
            let conn : Conn C = record conn {
              ping = saturating_sub now ping_time;
              connect_mode = connected;
            } in
            let reply = new_incoming_bytes buf remote_addr pong_time now in
            attempt (send_message addr conn.guid RukMessageContext.connection_request_accepted p)
              λ p.
                attempt (send_to_conn now immediate reliable_ordered 0 reply conn)
                  λ conn. attempt (send_ping_to_conn w now unreliable conn) λ conn. ok (conn, p) in
      if eq_mode conn.connect_mode requested_connection
      then expected
      else err (invalid_packet "connection request accepted is not expected.", (conn, p))

  -- The mode changes, and the ping is sent, before the message is read.
  unfoldable pub on_new_incoming : ℕ → SocketAddr → List ℕ → Session C → Answer C
  unfolding eq_mode read_new_incoming send_ping_to_conn send_message
  on_new_incoming now addr msg (conn, p) =
      let expected : Answer C =
        attempt (send_ping_to_conn w now unreliable (record conn { connect_mode = connected }))
          λ conn.
            parse (read_new_incoming buf) msg (conn, p)
              λ ping_time rest.
                attempt (send_message addr conn.guid RukMessageContext.new_incoming_connection p)
                  λ p. ok (record conn { ping = saturating_sub now ping_time }, p) in
      if eq_mode conn.connect_mode handling_connection_request
      then expected
      else err (invalid_packet "new incoming connection is not expected.", (conn, p))

  unfoldable pub on_connected_ping : ℕ → List ℕ → Session C → Answer C
  unfolding connected_pong_bytes send_to_conn
  on_connected_ping now msg (conn, p) =
      parse (lift buf.try_get_u64) msg (conn, p)
        λ ping_time rest.
          let reply = connected_pong_bytes buf ping_time now in
          attempt (send_to_conn now immediate unreliable 0 reply conn) λ conn. ok (conn, p)

  unfoldable pub on_connected_pong : ℕ → List ℕ → Session C → Answer C
  unfolding read_connected_pong
  on_connected_pong now msg (conn, p) =
      parse (read_connected_pong buf) msg (conn, p)
        λ ping_time rest. ok (record conn { ping = saturating_sub now ping_time }, p)

  unfoldable pub on_disconnection : SocketAddr → Session C → Answer C
  unfolding close_conn_internal
  on_disconnection addr (conn, p) = attempt (close_conn_internal addr low 0 p) λ p. ok (conn, p)

  unfoldable pub on_online_message :
      OnlineMessageIds → ℕ → SocketAddr → List ℕ → Session C → Answer C
  unfolding on_connection_request on_accepted on_new_incoming on_connected_ping on_connected_pong
      on_disconnection
  on_online_message connection_request now addr msg = on_connection_request now addr msg
  on_online_message connection_request_accepted now addr msg = on_accepted now addr msg
  on_online_message new_incoming_connection now addr msg = on_new_incoming now addr msg
  on_online_message connected_ping now addr msg = on_connected_ping now msg
  on_online_message connected_pong now addr msg = on_connected_pong now msg
  on_online_message disconnection_notification now addr msg = on_disconnection addr

  -- What is no message of the protocol is the application's.
  unfoldable pub handle_message : ℕ → SocketAddr → List ℕ → Session C → Answer C
  unfolding on_online_message send_message
  handle_message now addr msg (conn, p) =
      if_let (online_from_u8 (get_or msg 0 0))
        (λ id. on_online_message id now addr (buf.advance 1 msg) (conn, p))
        (attempt (send_message addr conn.guid (RukMessageContext.app msg) p) λ p. ok (conn, p))

  unfoldable pub process_message : ℕ → SocketAddr → List ℕ → Session C → Answer C
  unfolding eq_mode handle_message
  process_message now addr msg (conn, p) =
      if is_nil msg
      then err (invalid_packet "message is too small.", (conn, p))
      else if eq_mode conn.connect_mode unverfied_sender
          && not (get_or msg 0 0 == online_to_u8 connection_request)
      then err (invalid_packet "unverified sender can only send connection request.", (conn, p))
      else handle_message now addr msg (conn, p)
