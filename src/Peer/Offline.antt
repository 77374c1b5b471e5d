-- ===== src/Peer/Offline.antt =====
-- src/peer.rs, `process_offline_packet`: a packet from an address without a connection.
use ruknet.Base.{
  ℕ, ◌+◌, ◌%◌, ◌^◌, min, false, Option, none, some, List, ltb, leb, ◌==◌, if◌then◌else◌, length,
  get_or, ok, err,
}
use ruknet.Error.{invalid_packet}
use ruknet.Net.{SocketAddr}
use ruknet.Net.Table.{find, put, remove}
use ruknet.Codec.Decode.{lift}
use ruknet.Reliability.{immediate, reliable}
use ruknet.Message.{
  OfflineMessageIds, offline_from_u8, unconnected_ping, unconnected_pong, open_connection_request1,
  open_connection_reply1, open_connection_request2, open_connection_reply2, already_connected,
  no_free_incoming_connections, connection_banned, incompatible_protocol_version,
  ip_recently_connected,
}
use ruknet.Proto.{protocol_version, max_mtu_size, min_offline_packet_size}
use ruknet.Layer.{ip_udp_header_size, set_timeout}
use ruknet.App.{RukMessageContext}
use ruknet.Conn.{ReqConn, Conn, unverfied_sender, requested_connection}
use ruknet.Peer.{
  Peer, World, Outcome, if_let, attempt, chain, try_send, send_message, send_to_conn, register_conn,
}
use ruknet.Peer.Packets.{
  parse, read_ping, read_pong, read_request1, read_reply1, read_request2, read_reply2, read_version,
  read_guid, pong_bytes, incompatible_bytes, guid_bytes, reply1_bytes, request2_bytes, reply2_bytes,
  connection_request_bytes, saturating_sub,
}

-- `*conn_count += 1`
abbrev pub add_usize : ℕ → ℕ → ℕ
add_usize a b = (a + b) % 2 ^ 64

module _ {C : Type 0} (w : World C) where
  open w use {buf, lossy}

  unfoldable pub on_unconnected_ping : SocketAddr → List ℕ → Peer C → Outcome C
  unfolding read_ping pong_bytes try_send send_message
  on_unconnected_ping addr bytes p =
      if leb p.max_conn_count p.conn_count
      then ok p
      else parse (read_ping buf) bytes p λ (ping_time, remote_guid) rest.
        chain (try_send w addr (pong_bytes buf ping_time p.guid p.ping_res) p) λ p.
          attempt (send_message addr remote_guid RukMessageContext.unconnected_ping p) λ p. ok p

  unfoldable pub on_unconnected_pong : ℕ → SocketAddr → List ℕ → Peer C → Outcome C
  unfolding read_pong send_message
  on_unconnected_pong now addr bytes p =
      parse (read_pong buf lossy) bytes p λ (ping_time, remote_guid, ping_res) rest.
        attempt
          (send_message addr remote_guid
            (RukMessageContext.unconnected_pong (saturating_sub now ping_time) ping_res) p)
          λ p. ok p

  -- 18 bytes of the message have been read; the padding is what remains.
  unfoldable pub on_request1 : SocketAddr → List ℕ → Peer C → Outcome C
  unfolding read_request1 incompatible_bytes reply1_bytes try_send
  on_request1 addr bytes p = parse (read_request1 buf) bytes p λ proto_version rest.
      if proto_version == protocol_version
      then try_send w addr
          (reply1_bytes buf p.guid (min (length rest + 18 + ip_udp_header_size) max_mtu_size)) p
      else try_send w addr (incompatible_bytes buf p.guid) p

  unfoldable pub on_reply1 : SocketAddr → List ℕ → Peer C → Outcome C
  unfolding read_reply1 request2_bytes try_send
  on_reply1 addr bytes p = parse (read_reply1 buf) bytes p λ cookie rest.
      if_let (find addr p.req_conns)
        (λ req_conn. parse (lift buf.try_get_u16) rest p λ mtu_size rest.
          try_send w addr (request2_bytes buf cookie req_conn.addr mtu_size p.guid) p)
        (ok p)

  unfoldable pub add_conn : SocketAddr → Conn C → Peer C → Peer C
  add_conn addr conn p = record p {
    conn_count = add_usize p.conn_count 1;
    conns = put addr conn p.conns;
  }

  -- `register_conn` always gives a connection; the code's answer for none is kept.
  unfoldable pub on_request2 : ℕ → SocketAddr → List ℕ → Peer C → Outcome C
  unfolding read_request2 guid_bytes register_conn add_conn reply2_bytes try_send
  on_request2 now addr bytes p =
      parse (read_request2 buf) bytes p λ (binding_addr, mtu_size, remote_guid) rest.
        let conn =
          register_conn w now addr remote_guid binding_addr unverfied_sender mtu_size false in
        let registered =
          if_let conn
            (λ conn. try_send w addr (reply2_bytes buf p.guid addr mtu_size) (add_conn addr conn p))
            (try_send w addr (guid_bytes buf ip_recently_connected p.guid) p) in
        if leb p.max_conn_count p.conn_count
        then try_send w addr (guid_bytes buf no_free_incoming_connections p.guid) p
        else registered

  -- The connection that was asked for is made and its request sent over it.
  unfoldable pub open_requested : ℕ → ReqConn → Conn C → ℕ → Option (Conn C)
  unfolding set_timeout connection_request_bytes send_to_conn
  open_requested now req_conn conn guid =
      let conn : Conn C = record conn { connect_mode = requested_connection } in
      let timed : Conn C = elim req_conn.timeout [
        | some timeout ↦ record conn { layer = set_timeout timeout conn.layer }
        | none ↦ conn
      ] in
      send_to_conn now immediate reliable 0 (connection_request_bytes buf guid now) timed

  unfoldable pub on_reply2 : ℕ → SocketAddr → List ℕ → Peer C → Outcome C
  unfolding read_reply2 register_conn open_requested add_conn
  on_reply2 now addr bytes p =
      parse (read_reply2 buf) bytes p λ (remote_guid, binding_addr, mtu_size, security) rest.
        let conn =
          register_conn w now addr remote_guid binding_addr unverfied_sender mtu_size security in
        let p' : Peer C = record p { req_conns = remove addr p.req_conns } in
        if_let (find addr p.req_conns)
          (λ req_conn.
            if_let conn
              (λ conn.
                attempt (open_requested now req_conn conn p.guid)
                  λ conn. ok (add_conn addr conn p'))
              (ok p'))
          (ok p)

  unfoldable pub on_incompatible : SocketAddr → List ℕ → Peer C → Outcome C
  unfolding read_version send_message
  on_incompatible addr bytes p =
      parse (read_version buf) bytes p λ (remote_proto_version, remote_guid) rest.
        attempt
          (send_message addr remote_guid
            (RukMessageContext.incompatible_protocol_version remote_proto_version) p)
          λ p. ok p

  -- The four refusals, which are passed on to the application.
  unfoldable pub on_refusal : RukMessageContext → SocketAddr → List ℕ → Peer C → Outcome C
  unfolding read_guid send_message
  on_refusal context addr bytes p =
      parse (read_guid buf) bytes p
        λ remote_guid rest. attempt (send_message addr remote_guid context p) λ p. ok p

  unfoldable pub on_offline_message :
      OfflineMessageIds → ℕ → SocketAddr → List ℕ → Peer C → Outcome C
  unfolding on_unconnected_ping on_unconnected_pong on_request1 on_reply1 on_request2 on_reply2
      on_incompatible on_refusal
  on_offline_message unconnected_ping now = on_unconnected_ping
  on_offline_message unconnected_pong now = on_unconnected_pong now
  on_offline_message open_connection_request1 now = on_request1
  on_offline_message open_connection_reply1 now = on_reply1
  on_offline_message open_connection_request2 now = on_request2 now
  on_offline_message open_connection_reply2 now = on_reply2 now
  on_offline_message incompatible_protocol_version now = on_incompatible
  on_offline_message already_connected now = on_refusal RukMessageContext.already_connected
  on_offline_message no_free_incoming_connections now =
      on_refusal RukMessageContext.no_free_incoming_connections
  on_offline_message connection_banned now = on_refusal RukMessageContext.connection_banned
  on_offline_message ip_recently_connected now = on_refusal RukMessageContext.ip_recently_connected

  unfoldable pub process_offline_packet : ℕ → SocketAddr → List ℕ → Peer C → Outcome C
  unfolding on_offline_message
  process_offline_packet now addr bytes p =
      if ltb (length bytes) min_offline_packet_size
      then err (invalid_packet "packet is too small.", p)
      else if_let (offline_from_u8 (get_or bytes 0 0))
          (λ id. on_offline_message id now addr (buf.advance 1 bytes) p)
          (err (invalid_packet "invalid offline message id.", p))
