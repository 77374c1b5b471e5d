-- ===== src/Peer/Steps.antt =====
-- src/peer.rs: an update cycle changes the connections of a peer by steps of the census.
use ruknet.Base.{ℕ, ◌≡◌, ◌∙◌, refl, false, none, List, arith, leb, ltb, get_or, length, ◌==◌, ok}
use ruknet.Net.{SocketAddr}
use ruknet.Error.{PeerError}
use ruknet.Net.Table.{find, remove, Absent-find, listed-find, keys-put, keys-remove}
use ruknet.Message.{
  OfflineMessageIds, offline_from_u8, unconnected_ping, unconnected_pong, open_connection_request1,
  open_connection_reply1, open_connection_request2, open_connection_reply2, already_connected,
  no_free_incoming_connections, connection_banned, incompatible_protocol_version,
  ip_recently_connected,
}
use ruknet.Proto.{protocol_version, min_offline_packet_size}
use ruknet.Conn.{Conn}
use ruknet.App.{RukMessageContext}
use ruknet.Peer.{Peer, World, attempt, try_send, send_message, register_conn}
use ruknet.Peer.Offline.{
  on_unconnected_ping, on_unconnected_pong, on_request1, on_reply1, on_request2, on_reply2,
  add_conn, on_incompatible, on_refusal, on_offline_message, process_offline_packet,
}
use ruknet.Peer.Census.{census, join, accepted, opened, Steps, done, one, Steps-trans}
use ruknet.Peer.Results.{
  Leaves, succeeds, fails, Leaves-parse, Leaves-attempt, Leaves-chain, Leaves-if, Leaves-if_let,
  Leaves-mono, send_message-only,
}

abbrev pub Goes : {C : Type 0} → Peer C → Peer C → Type 0
Goes p q = Steps (census p) (census q)

module _ {C : Type 0} (w : World C) where
  -- What is sent changes no more than the record of it.
  try_send-census :
      (addr : SocketAddr) (bytes : List ℕ) (p : Peer C)
      → Leaves (λ q. census q ≡ census p) (try_send w addr bytes p)
  unfolding try_send
  try_send-census addr bytes p =
      Leaves-if_let (λ q. census q ≡ census p) (w.send_to addr bytes) (λ e h. fails refl)
        (λ h. succeeds refl)

  sends :
      (addr : SocketAddr) (bytes : List ℕ) (p q : Peer C)
      → Goes p q
      → Leaves (Goes p) (try_send w addr bytes q)
  sends addr bytes p q g =
      Leaves-mono (λ r e. Steps-trans g (done e)) (try_send-census addr bytes q)

  told :
      (addr : SocketAddr) (g : ℕ) (context : RukMessageContext) (p q : Peer C)
      → Goes p q
      → Leaves {E = PeerError} (Goes p) (attempt (send_message addr g context q) λ r. ok r)
  told addr g context p q s = Leaves-attempt (Goes p) λ r e.
      let only = send_message-only addr g context q r e in succeeds (Steps-trans s (done (cc)))

  add_conn-join :
      (addr : SocketAddr) (conn : Conn C) (p : Peer C)
      → find addr p.conns ≡ none
      → census (add_conn w addr conn p) ≡ join addr (census p)
  unfolding add_conn
  add_conn-join addr conn p e = ground (arith, keys-put addr conn p.conns)

  module _ (now : ℕ) (addr : SocketAddr) (bytes : List ℕ) (p : Peer C) where
    on_unconnected_ping-Goes : Leaves (Goes p) (on_unconnected_ping w addr bytes p)
    unfolding on_unconnected_ping send_message
    on_unconnected_ping-Goes =
        Leaves-if (Goes p) (leb p.max_conn_count p.conn_count) (λ _. succeeds (done refl))
          λ _. Leaves-parse (Goes p) _ _ (done refl) λ (t, g) rest.
            Leaves-chain (Goes p) (sends addr _ p p (done refl)) λ q s. told addr _ _ p q s

    on_unconnected_pong-Goes : Leaves (Goes p) (on_unconnected_pong w now addr bytes p)
    unfolding on_unconnected_pong send_message
    on_unconnected_pong-Goes =
        Leaves-parse (Goes p) _ _ (done refl) λ (t, g, s) rest. told addr _ _ p p (done refl)

    on_request1-Goes : Leaves (Goes p) (on_request1 w addr bytes p)
    unfolding on_request1
    on_request1-Goes = Leaves-parse (Goes p) _ _ (done refl) λ proto_version rest.
        Leaves-if (Goes p) (proto_version == protocol_version) (λ _. sends addr _ p p (done refl))
          (λ _. sends addr _ p p (done refl))

    on_reply1-Goes : Leaves (Goes p) (on_reply1 w addr bytes p)
    unfolding on_reply1
    on_reply1-Goes = Leaves-parse (Goes p) _ _ (done refl) λ cookie rest.
        Leaves-if_let (Goes p) (find addr p.req_conns)
          (λ req e.
            Leaves-parse (Goes p) _ _ (done refl) λ mtu_size rest. sends addr _ p p (done refl))
          (λ e. succeeds (done refl))

    on_request2-Goes : find addr p.conns ≡ none → Leaves (Goes p) (on_request2 w now addr bytes p)
    unfolding on_request2 register_conn
    on_request2-Goes new =
        Leaves-parse (Goes p) _ _ (done refl) λ (binding_addr, mtu_size, remote_guid) rest.
          Leaves-if (Goes p) (leb p.max_conn_count p.conn_count) (λ _. sends addr _ p p (done refl))
            λ room.
              Leaves-if_let (Goes p)
                (register_conn w now addr remote_guid binding_addr _ mtu_size false)
                (λ conn e. sends addr _ p (add_conn w addr conn p) (
                  one (
                    accepted addr (Absent-find addr p.conns new) (ground arith)
                      (add_conn-join addr conn p new))))
                (λ e. sends addr _ p p (done refl))

    on_reply2-Goes : find addr p.conns ≡ none → Leaves (Goes p) (on_reply2 w now addr bytes p)
    unfolding on_reply2 register_conn
    on_reply2-Goes new =
        Leaves-parse (Goes p) _ _ (done refl)
          λ (remote_guid, binding_addr, mtu_size, security) rest.
            Leaves-if_let (Goes p) (find addr p.req_conns)
              (λ req e.
                let p' : Peer C = record p { req_conns = remove addr p.req_conns } in
                Leaves-if_let (Goes p)
                  (register_conn w now addr remote_guid binding_addr _ mtu_size security)
                  (λ conn f. Leaves-attempt (Goes p) λ conn' g. succeeds (
                    one (
                      opened addr (Absent-find addr p.conns new)
                        (ground (arith, listed-find addr p.req_conns))
                        (add_conn-join addr conn' p' new
                          ∙ ground (arith, keys-remove addr p.req_conns)))))
                  (λ f. absurd (cc)))
              (λ e. succeeds (done refl))

    on_refusal-Goes :
        (context : RukMessageContext) → Leaves (Goes p) (on_refusal w context addr bytes p)
    unfolding on_refusal send_message
    on_refusal-Goes context =
        Leaves-parse (Goes p) _ _ (done refl) λ g rest. told addr _ _ p p (done refl)

    on_incompatible-Goes : Leaves (Goes p) (on_incompatible w addr bytes p)
    unfolding on_incompatible send_message
    on_incompatible-Goes =
        Leaves-parse (Goes p) _ _ (done refl) λ (v, g) rest. told addr _ _ p p (done refl)

    on_offline_message-Goes :
        (id : OfflineMessageIds)
        → find addr p.conns ≡ none
        → Leaves (Goes p) (on_offline_message w id now addr bytes p)
    unfolding on_offline_message
    on_offline_message-Goes unconnected_ping new = on_unconnected_ping-Goes
    on_offline_message-Goes unconnected_pong new = on_unconnected_pong-Goes
    on_offline_message-Goes open_connection_request1 new = on_request1-Goes
    on_offline_message-Goes open_connection_reply1 new = on_reply1-Goes
    on_offline_message-Goes open_connection_request2 new = on_request2-Goes new
    on_offline_message-Goes open_connection_reply2 new = on_reply2-Goes new
    on_offline_message-Goes incompatible_protocol_version new = on_incompatible-Goes
    on_offline_message-Goes already_connected new = on_refusal-Goes _
    on_offline_message-Goes no_free_incoming_connections new = on_refusal-Goes _
    on_offline_message-Goes connection_banned new = on_refusal-Goes _
    on_offline_message-Goes ip_recently_connected new = on_refusal-Goes _

  pub process_offline_packet-Goes :
      (now : ℕ) (addr : SocketAddr) (bytes : List ℕ) (p : Peer C)
      → find addr p.conns ≡ none
      → Leaves (Goes p) (process_offline_packet w now addr bytes p)
  unfolding process_offline_packet
  process_offline_packet-Goes now addr bytes p new =
      Leaves-if (Goes p) (ltb (length bytes) min_offline_packet_size) (λ _. fails (done refl))
        λ _.
          Leaves-if_let (Goes p) (offline_from_u8 (get_or bytes 0 0))
            (λ id e. on_offline_message-Goes now addr (w.buf.advance 1 bytes) p id new)
            (λ e. fails (done refl))
