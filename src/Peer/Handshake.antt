-- ===== src/Peer/Handshake.antt =====
-- src/peer.rs: the packets that open a connection, each written by one peer and read by the other.
use ruknet.Base.{
  ℕ, ◌+◌, ◌-◌, ◌^◌, ◌≤◌, ◌<◌, ◌≡◌, ◌∙◌, refl, ap, false, none, some, List, [], ◌∷◌, ◌++◌,
  append_assoc, append-nil, arith, leb, ltb, min, length, length-append, length-replicate,
  replicate, ok, Result, map_err,
}
use ruknet.Base.Bytes.{be}
use ruknet.Buf.{Buf, IsBuf}
use ruknet.Buf.Laws.{get_u8-be, get_u16-be, get_u64-be}
use ruknet.Net.{SocketAddr, v4, v6}
use ruknet.Net.Table.{find, remove}
use ruknet.Codec.Decode.{try_advance, lift}
use ruknet.Codec.Encode.{put_addr}
use ruknet.Codec.Address.{IsPlain, try_get_addr-put_addr}
use ruknet.Message.{
  OfflineMessageIds, offline_from_u8, offline_to_u8, open_connection_request1,
  open_connection_reply1, open_connection_request2, open_connection_reply2,
}
use ruknet.Proto.{offline_message_data_id, max_mtu_size}
use ruknet.Conn.{ReqConn, new_conn, unverfied_sender}
use ruknet.Peer.{Peer, World, attempt, if_let, try_send, register_conn}
use ruknet.Error.{TryGetError, try_get}
use ruknet.Peer.Results.{parse-ok, if_let-some, if_false}
use ruknet.Peer.Packets.{
  read_request1, read_reply1, read_request2, read_reply2, guid_bytes, request1_bytes, reply1_bytes,
  request2_bytes, put_cookie, reply2_bytes,
}
use ruknet.Peer.Offline.{
  on_request1, on_reply1, on_request2, on_reply2, on_offline_message, process_offline_packet,
  add_conn, open_requested,
}

lifted :
    {x : Result TryGetError (ℕ × List ℕ)} {v : ℕ} {rest : List ℕ}
    → x ≡ ok (v, rest)
    → map_err try_get x ≡ ok (v, rest)
lifted e = rw e refl

module _ (b : Buf) (laws : IsBuf b) where
  -- The fixed bytes are skipped.
  skip_id : (rest : List ℕ) → try_advance b 16 (offline_message_data_id ++ rest) ≡ ok (tt, rest)
  unfolding try_advance
  skip_id rest =
      let size : length (offline_message_data_id ++ rest) ≡ 16 + length rest = omega arith in
      ground (
        arith,
        laws.length_remaining (offline_message_data_id ++ rest),
        size,
        laws.advance_drop 16 (offline_message_data_id ++ rest),
      )

  request1_layout :
      (mtu : ℕ)
      → request1_bytes b mtu
        ≡ 5 ∷ (offline_message_data_id ++ (be 1 11 ++ replicate (mtu - 28 - 18) 0))
  unfolding request1_bytes offline_to_u8
  request1_layout mtu = simp (laws.append_u8, laws.append_slice, laws.append_bytes, append_assoc)

  reply1_layout :
      (guid mtu : ℕ)
      → reply1_bytes b guid mtu
        ≡ 6 ∷ (offline_message_data_id ++ (be 8 guid ++ (be 1 0 ++ be 2 mtu)))
  unfolding reply1_bytes guid_bytes offline_to_u8
  reply1_layout guid mtu =
      simp (laws.append_u8, laws.append_u16, laws.append_u64, laws.append_slice, append_assoc)

  request2_layout :
      (addr : SocketAddr) (mtu guid : ℕ)
      → request2_bytes b none addr mtu guid
        ≡ 7 ∷ (offline_message_data_id ++ (put_addr b addr [] ++ (be 2 mtu ++ be 8 guid)))
  unfolding request2_bytes put_cookie offline_to_u8 put_addr
  request2_layout (v4 o port) mtu guid =
      simp (laws.append_u8, laws.append_u16, laws.append_u64, laws.append_slice, append_assoc)
  request2_layout (v6 o port f s) mtu guid = simp (
    laws.append_u8, laws.append_u16, laws.append_u32, laws.append_u64, laws.append_slice,
    append_assoc,
  )

  reply2_layout :
      (guid : ℕ) (addr : SocketAddr) (mtu : ℕ)
      → reply2_bytes b guid addr mtu
        ≡ 8
          ∷ (offline_message_data_id ++ (be 8 guid ++ (put_addr b addr [] ++ (be 2 mtu ++ be 1 0))))
  unfolding reply2_bytes guid_bytes offline_to_u8 put_addr
  reply2_layout guid (v4 o port) mtu =
      simp (laws.append_u8, laws.append_u16, laws.append_u64, laws.append_slice, append_assoc)
  reply2_layout guid (v6 o port f s) mtu = simp (
    laws.append_u8, laws.append_u16, laws.append_u32, laws.append_u64, laws.append_slice,
    append_assoc,
  )

  last_u64 : (v : ℕ) → v < 2 ^ 64 → b.try_get_u64 (be 8 v) ≡ ok (v, [])
  last_u64 v h = rw (← append-nil (be 8 v)) (get_u64-be b laws v [] h)

  last_u16 : (v : ℕ) → v < 2 ^ 16 → b.try_get_u16 (be 2 v) ≡ ok (v, [])
  last_u16 v h = rw (← append-nil (be 2 v)) (get_u16-be b laws v [] h)

  last_u8 : (v : ℕ) → v < 2 ^ 8 → b.try_get_u8 (be 1 v) ≡ ok (v, [])
  last_u8 v h = rw (← append-nil (be 1 v)) (get_u8-be b laws v [] h)

  read_request1-layout :
      (v : ℕ) (rest : List ℕ)
      → v < 2 ^ 8
      → read_request1 b (offline_message_data_id ++ (be 1 v ++ rest)) ≡ ok (v, rest)
  unfolding read_request1
  read_request1-layout v rest h =
      ground (arith, skip_id (be 1 v ++ rest), get_u8-be b laws v rest h)

  read_reply1-layout :
      (guid mtu : ℕ)
      → guid < 2 ^ 64
      → read_reply1 b (offline_message_data_id ++ (be 8 guid ++ (be 1 0 ++ be 2 mtu)))
        ≡ ok (none, be 2 mtu)
  unfolding read_reply1
  read_reply1-layout guid mtu h = ground (
    arith,
    skip_id (be 8 guid ++ (be 1 0 ++ be 2 mtu)),
    get_u64-be b laws guid (be 1 0 ++ be 2 mtu) h,
    get_u8-be b laws 0 (be 2 mtu),
  )

  read_request2-layout :
      (addr : SocketAddr) (mtu guid : ℕ)
      → IsPlain addr
      → mtu < 2 ^ 16
      → guid < 2 ^ 64
      → read_request2 b (offline_message_data_id ++ (put_addr b addr [] ++ (be 2 mtu ++ be 8 guid)))
        ≡ ok ((addr, mtu, guid), [])
  unfolding read_request2
  read_request2-layout addr mtu guid plain small big = ground (
    arith,
    skip_id (put_addr b addr [] ++ (be 2 mtu ++ be 8 guid)),
    try_get_addr-put_addr b laws addr (be 2 mtu ++ be 8 guid) plain,
    get_u16-be b laws mtu (be 8 guid) small,
    last_u64 guid big,
  )

  read_reply2-layout :
      (guid : ℕ) (addr : SocketAddr) (mtu : ℕ)
      → IsPlain addr
      → mtu < 2 ^ 16
      → guid < 2 ^ 64
      → read_reply2 b
          (offline_message_data_id ++ (be 8 guid ++ (put_addr b addr [] ++ (be 2 mtu ++ be 1 0))))
        ≡ ok ((guid, addr, mtu, false), [])
  unfolding read_reply2
  read_reply2-layout guid addr mtu plain small big = ground (
    arith,
    skip_id (be 8 guid ++ (put_addr b addr [] ++ (be 2 mtu ++ be 1 0))),
    get_u64-be b laws guid (put_addr b addr [] ++ (be 2 mtu ++ be 1 0)) big,
    try_get_addr-put_addr b laws addr (be 2 mtu ++ be 1 0) plain,
    get_u16-be b laws mtu (be 1 0) small,
    last_u8 0,
  )

module _ {C : Type 0} (w : World C) (laws : IsBuf w.buf) (now : ℕ) where
  -- A packet that is long enough is handled by the handler of its first byte.
  handled :
      (addr : SocketAddr) (id : OfflineMessageIds) (x : ℕ) (rest : List ℕ) (p : Peer C)
      → 24 ≤ length rest
      → offline_from_u8 x ≡ some id
      → process_offline_packet w now addr (x ∷ rest) p ≡ on_offline_message w id now addr rest p
  unfolding process_offline_packet if_let
  handled addr id x rest p long e =
      let enough : ltb (length (x ∷ rest)) 25 ≡ false = ground arith in
      rw (enough, e, laws.advance_drop 1 (x ∷ rest) (omega arith)) refl

  -- The answer to a request of version 11 that is padded for an MTU of at least 53 announces that MTU,
  -- or 1492 if it is larger.
  pub request1-reply1 :
      (addr : SocketAddr) (mtu : ℕ) (p : Peer C)
      → 53 ≤ mtu
      → process_offline_packet w now addr (request1_bytes w.buf mtu) p
        ≡ try_send w addr (reply1_bytes w.buf p.guid (min mtu max_mtu_size)) p
  unfolding on_offline_message on_request1 offline_from_u8
  request1-reply1 addr mtu p h =
      let padding : List ℕ = replicate (mtu - 28 - 18) 0 in
      let size : length padding ≡ mtu - 46 =
        omega (arith, length-replicate {A = ℕ} (mtu - 28 - 18) 0) in
      let long : 24 ≤ length (offline_message_data_id ++ (be 1 11 ++ padding)) =
        omega (arith, size) in
      let announced : length padding + 18 + 28 ≡ mtu = omega (arith, size) in
      rw (request1_layout w.buf laws mtu) (
        handled addr open_connection_request1 5 (offline_message_data_id ++ (be 1 11 ++ padding)) p
          long refl
        ∙ parse-ok (read_request1 w.buf) _ p _
            (read_request1-layout w.buf laws 11 padding (omega arith))
        ∙ ap (λ n. try_send w addr (reply1_bytes w.buf p.guid (min n max_mtu_size)) p) announced)

  reply1_handled :
      (server_addr : SocketAddr) (mtu : ℕ) (req : ReqConn) (client : Peer C) (guid : ℕ)
      → find server_addr client.req_conns ≡ some req
      → mtu < 2 ^ 16
      → guid < 2 ^ 64
      → process_offline_packet w now server_addr (reply1_bytes w.buf guid mtu) client
        ≡ try_send w server_addr (request2_bytes w.buf none req.addr mtu client.guid) client
  unfolding on_offline_message on_reply1 offline_from_u8
  reply1_handled server_addr mtu req client guid asked small big =
      let long : 24 ≤ length (offline_message_data_id ++ (be 8 guid ++ (be 1 0 ++ be 2 mtu))) =
        omega arith in
      rw (reply1_layout w.buf laws guid mtu) (
        handled server_addr open_connection_reply1 6
          (offline_message_data_id ++ (be 8 guid ++ (be 1 0 ++ be 2 mtu))) client long refl
        ∙ parse-ok (read_reply1 w.buf) _ client _ (read_reply1-layout w.buf laws guid mtu big)
        ∙ if_let-some _ _ asked
        ∙ parse-ok (lift w.buf.try_get_u16) _ client _ (lifted (last_u16 w.buf laws mtu small)))

  request2_handled :
      (client_addr addr : SocketAddr) (mtu guid : ℕ) (server : Peer C)
      → server.conn_count < server.max_conn_count
      → IsPlain addr
      → mtu < 2 ^ 16
      → guid < 2 ^ 64
      → process_offline_packet w now client_addr (request2_bytes w.buf none addr mtu guid) server
        ≡ try_send w client_addr
            (reply2_bytes w.buf server.guid client_addr mtu)
            (add_conn w client_addr (new_conn w.controller now guid unverfied_sender mtu) server)
  unfolding on_offline_message on_request2 offline_from_u8 register_conn if_let
  request2_handled client_addr addr mtu guid server room plain small big =
      let long : 24
          ≤ length
              (offline_message_data_id ++ (put_addr w.buf addr [] ++ (be 2 mtu ++ be 8 guid))) =
        omega (arith, length-append (put_addr w.buf addr []) (be 2 mtu ++ be 8 guid)) in
      let below : leb server.max_conn_count server.conn_count ≡ false = ground arith in
      rw (request2_layout w.buf laws addr mtu guid) (
        handled client_addr open_connection_request2 7
          (offline_message_data_id ++ (put_addr w.buf addr [] ++ (be 2 mtu ++ be 8 guid))) server
          long refl
        ∙ parse-ok (read_request2 w.buf) _ server _
            (read_request2-layout w.buf laws addr mtu guid plain small big)
        ∙ if_false _ _ below)

  reply2_handled :
      (server_addr client_addr : SocketAddr) (mtu : ℕ) (req : ReqConn) (client : Peer C) (guid : ℕ)
      → find server_addr client.req_conns ≡ some req
      → IsPlain client_addr
      → mtu < 2 ^ 16
      → guid < 2 ^ 64
      → process_offline_packet w now server_addr (reply2_bytes w.buf guid client_addr mtu) client
        ≡ attempt
            (open_requested w now req
              (new_conn w.controller now guid unverfied_sender mtu)
              client.guid)
            λ conn. ok (
              add_conn w server_addr conn
                (record client { req_conns = remove server_addr client.req_conns }))
  unfolding on_offline_message on_reply2 offline_from_u8 register_conn if_let
  reply2_handled server_addr client_addr mtu req client guid asked plain small big =
      let long : 24
          ≤ length (
              offline_message_data_id
              ++ (be 8 guid ++ (put_addr w.buf client_addr [] ++ (be 2 mtu ++ be 1 0)))) =
        omega arith in
      rw (reply2_layout w.buf laws guid client_addr mtu) (
        handled server_addr open_connection_reply2 8
          (offline_message_data_id
            ++ (be 8 guid ++ (put_addr w.buf client_addr [] ++ (be 2 mtu ++ be 1 0))))
          client long refl
        ∙ parse-ok (read_reply2 w.buf) _ client _
            (read_reply2-layout w.buf laws guid client_addr mtu plain small big)
        ∙ if_let-some _ _ asked)

  -- Once a client that asked for a connection has the first reply of a server, its second request, the server's
  -- reply and the connection that the client then makes have the same MTU and the numbers of both
  -- peers, for addresses, numbers and an MTU that fit, if the server is below its limit.
  pub handshake_lem :
      (client_addr server_addr : SocketAddr) (mtu : ℕ) (req : ReqConn) (client server : Peer C)
      → find server_addr client.req_conns ≡ some req
      → server.conn_count < server.max_conn_count
      → IsPlain req.addr
      → IsPlain client_addr
      → mtu < 2 ^ 16
      → client.guid < 2 ^ 64
      → server.guid < 2 ^ 64
      → (process_offline_packet w now server_addr (reply1_bytes w.buf server.guid mtu) client
          ≡ try_send w server_addr (request2_bytes w.buf none req.addr mtu client.guid) client)
        × (process_offline_packet w now client_addr
              (request2_bytes w.buf none req.addr mtu client.guid)
              server
            ≡ try_send w client_addr (reply2_bytes w.buf server.guid client_addr mtu) (
                add_conn w client_addr
                  (new_conn w.controller now client.guid unverfied_sender mtu)
                  server))
        × (process_offline_packet w now server_addr
              (reply2_bytes w.buf server.guid client_addr mtu)
              client
            ≡ attempt
                (open_requested w now req
                  (new_conn w.controller now server.guid unverfied_sender mtu)
                  client.guid)
                λ conn. ok (
                  add_conn w server_addr conn
                    (record client { req_conns = remove server_addr client.req_conns })))
  handshake_lem client_addr server_addr mtu req client server asked room plain1 plain2 small big1
        big2 =
      (
        reply1_handled server_addr mtu req client server.guid asked small big2,
        request2_handled client_addr req.addr mtu client.guid server room plain1 small big1,
        reply2_handled server_addr client_addr mtu req client server.guid asked plain2 small big2,
      )
