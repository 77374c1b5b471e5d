-- ===== src/Peer/Greeting.antt =====
-- src/peer.rs: the messages that two peers exchange over a new connection until it is open.
use ruknet.Base.{
  ℕ, zero, suc, ◌-◌, ◌^◌, ◌<◌, ◌≡◌, ◌∙◌, refl, sym, ap, false, not, ◌&&◌, some, List, [], ◌∷◌, ◌++◌,
  append_assoc, append-nil, arith, length, replicate, ok, ◌==◌,
}
use mathlib.Core.Path.{fun_ext}
use ruknet.Base.Bytes.{be}
use ruknet.Buf.{Buf, IsBuf}
use ruknet.Buf.Laws.{get_u8-be, get_u16-be, get_u64-be}
use ruknet.Net.{SocketAddr, v4, v6}
use ruknet.Codec.Encode.{put_addr}
use ruknet.Codec.Address.{IsPlain, try_get_addr-put_addr}
use ruknet.Reliability.{immediate, unreliable, reliable_ordered}
use ruknet.Message.{
  OnlineMessageIds, online_from_u8, online_to_u8, connection_request, connection_request_accepted,
  new_incoming_connection,
}
use ruknet.App.{RukMessageContext}
use ruknet.Conn.{
  Conn, eq_mode, unverfied_sender, requested_connection, handling_connection_request, connected,
}
use ruknet.Peer.{
  Peer, World, queue_size, if_let, attempt, send_message, send_to_conn, send_ping_to_conn,
}
use ruknet.Peer.Results.{parse-ok, if_true, attempt-some}
use ruknet.Peer.Total.{HasPackets, told, send_message-goes, send_to_conn-goes, pinged-goes}
use ruknet.Peer.Packets.{connection_request_bytes}
use ruknet.Peer.Online.{
  no_addr, try_get_addrs, put_no_addrs, read_connection_request, read_accepted, read_new_incoming,
  accepted_bytes, new_incoming_bytes, on_connection_request, on_accepted, on_new_incoming,
  on_online_message, handle_message, process_message,
}

module _ (b : Buf) (laws : IsBuf b) where
  put_addr-append : (a : SocketAddr) (buf : List ℕ) → put_addr b a buf ≡ buf ++ put_addr b a []
  unfolding put_addr
  put_addr-append (v4 o port) buf =
      simp (laws.append_u8, laws.append_u16, laws.append_slice, append_assoc)
  put_addr-append (v6 o port f s) buf =
      simp (laws.append_u8, laws.append_u16, laws.append_u32, laws.append_slice, append_assoc)

  put_no_addrs-append : (n : ℕ) (buf : List ℕ) → put_no_addrs b n buf ≡ buf ++ put_no_addrs b n []
  unfolding put_no_addrs
  put_no_addrs-append zero buf = sym (append-nil buf)
  put_no_addrs-append (suc n) buf =
      put_no_addrs-append n (put_addr b no_addr buf)
      ∙ ap (λ x. x ++ put_no_addrs b n []) (put_addr-append no_addr buf)
      ∙ append_assoc buf (put_addr b no_addr []) (put_no_addrs b n [])
      ∙ ap (λ x. buf ++ x) (sym (put_no_addrs-append n (put_addr b no_addr [])))

  try_get_addrs-put_no_addrs :
      (n : ℕ) (rest : List ℕ)
      → try_get_addrs b n (put_no_addrs b n [] ++ rest) ≡ ok (replicate n no_addr, rest)
  unfolding put_no_addrs try_get_addrs
  try_get_addrs-put_no_addrs zero rest = refl
  try_get_addrs-put_no_addrs (suc n) rest =
      let shape : put_no_addrs b n (put_addr b no_addr []) ++ rest
          ≡ put_addr b no_addr [] ++ (put_no_addrs b n [] ++ rest) =
        ap (λ x. x ++ rest) (put_no_addrs-append n (put_addr b no_addr []))
        ∙ append_assoc (put_addr b no_addr []) (put_no_addrs b n []) rest in
      rw shape (
        ground (
          arith,
          try_get_addr-put_addr b laws no_addr (put_no_addrs b n [] ++ rest),
          try_get_addrs-put_no_addrs n rest,
        ))

  last_u64 : (v : ℕ) → v < 2 ^ 64 → b.try_get_u64 (be 8 v) ≡ ok (v, [])
  last_u64 v h = rw (← append-nil (be 8 v)) (get_u64-be b laws v [] h)

  last_u8 : (v : ℕ) → v < 2 ^ 8 → b.try_get_u8 (be 1 v) ≡ ok (v, [])
  last_u8 v h = rw (← append-nil (be 1 v)) (get_u8-be b laws v [] h)

  connection_request_layout :
      (guid now : ℕ)
      → connection_request_bytes b guid now ≡ 0x09 ∷ (be 8 guid ++ (be 8 now ++ be 1 0))
  unfolding connection_request_bytes online_to_u8
  connection_request_layout guid now = simp (laws.append_u8, laws.append_u64, append_assoc)

  accepted_layout :
      (addr : SocketAddr) (t u : ℕ)
      → accepted_bytes b addr t u
        ≡ 0x10 ∷ (put_addr b addr [] ++ (be 2 0 ++ (put_no_addrs b 10 [] ++ (be 8 t ++ be 8 u))))
  unfolding accepted_bytes online_to_u8
  accepted_layout addr t u = simp (
    laws.append_u8,
    put_addr-append addr (0x10 ∷ []),
    laws.append_u16,
    put_no_addrs-append 10 (0x10 ∷ (put_addr b addr [] ++ be 2 0)),
    laws.append_u64,
    append_assoc,
  )

  new_incoming_layout :
      (addr : SocketAddr) (t u : ℕ)
      → new_incoming_bytes b addr t u
        ≡ 0x13 ∷ (put_addr b addr [] ++ (put_no_addrs b 20 [] ++ (be 8 t ++ be 8 u)))
  unfolding new_incoming_bytes online_to_u8
  new_incoming_layout addr t u = simp (
    laws.append_u8,
    put_addr-append addr (0x13 ∷ []),
    put_no_addrs-append 20 (0x13 ∷ put_addr b addr []),
    laws.append_u64,
    append_assoc,
  )

  read_connection_request_layout :
      (guid now : ℕ)
      → guid < 2 ^ 64
      → now < 2 ^ 64
      → read_connection_request b (be 8 guid ++ (be 8 now ++ be 1 0)) ≡ ok (now, [])
  unfolding read_connection_request
  read_connection_request_layout guid now h k = ground (
    arith,
    get_u64-be b laws guid (be 8 now ++ be 1 0) h,
    get_u64-be b laws now (be 1 0) k,
    last_u8 0,
  )

  read_accepted_layout :
      (addr : SocketAddr) (t u : ℕ)
      → IsPlain addr
      → t < 2 ^ 64
      → u < 2 ^ 64
      → read_accepted b
          (put_addr b addr [] ++ (be 2 0 ++ (put_no_addrs b 10 [] ++ (be 8 t ++ be 8 u))))
        ≡ ok ((addr, t, u), [])
  unfolding read_accepted
  read_accepted_layout addr t u plain h k = ground (
    arith,
    try_get_addr-put_addr b laws addr (be 2 0 ++ (put_no_addrs b 10 [] ++ (be 8 t ++ be 8 u)))
        plain,
    get_u16-be b laws 0 (put_no_addrs b 10 [] ++ (be 8 t ++ be 8 u)),
    try_get_addrs-put_no_addrs 10 (be 8 t ++ be 8 u),
    get_u64-be b laws t (be 8 u) h,
    last_u64 u k,
  )

  read_new_incoming_layout :
      (addr : SocketAddr) (t u : ℕ)
      → IsPlain addr
      → t < 2 ^ 64
      → u < 2 ^ 64
      → read_new_incoming b (put_addr b addr [] ++ (put_no_addrs b 20 [] ++ (be 8 t ++ be 8 u)))
        ≡ ok (t, [])
  unfolding read_new_incoming
  read_new_incoming_layout addr t u plain h k = ground (
    arith,
    try_get_addr-put_addr b laws addr (put_no_addrs b 20 [] ++ (be 8 t ++ be 8 u)) plain,
    try_get_addrs-put_no_addrs 20 (be 8 t ++ be 8 u),
    get_u64-be b laws t (be 8 u) h,
    last_u64 u k,
  )

module _ {C : Type 0} (w : World C) (laws : IsBuf w.buf) where
  -- A message of the protocol that the connection's mode allows goes to its handler.
  handled :
      (now : ℕ) (addr : SocketAddr) (id : OnlineMessageIds) (x : ℕ) (rest : List ℕ) (conn : Conn C)
      (p : Peer C)
      → online_from_u8 x ≡ some id
      → (eq_mode conn.connect_mode unverfied_sender && not (x == 0x09)) ≡ false
      → process_message w now addr (x ∷ rest) (conn, p)
        ≡ on_online_message w id now addr rest (conn, p)
  unfolding process_message handle_message if_let online_to_u8
  handled now addr id x rest conn p e m =
      rw (m, e, laws.advance_drop 1 (x ∷ rest) (omega arith)) refl

  request_handled :
      (now : ℕ) (addr : SocketAddr) (guid t : ℕ) (conn : Conn C) (p : Peer C)
      → guid < 2 ^ 64
      → t < 2 ^ 64
      → process_message w now addr (connection_request_bytes w.buf guid t) (conn, p)
        ≡ attempt
            (send_to_conn now immediate reliable_ordered 0
              (accepted_bytes w.buf addr t now)
              (record conn { connect_mode = handling_connection_request }))
            λ conn'. ok (conn', p)
  unfolding on_online_message on_connection_request online_from_u8
  request_handled now addr guid t conn p h k = rw (connection_request_layout w.buf laws guid t) (
      handled now addr connection_request 0x09 (be 8 guid ++ (be 8 t ++ be 1 0)) conn p refl
        (ground arith)
      ∙ parse-ok (read_connection_request w.buf) _ (conn, p) _
          (read_connection_request_layout w.buf laws guid t h k))

  accepted_handled :
      (now : ℕ) (addr seen : SocketAddr) (t u : ℕ) (conn : Conn C) (p : Peer C)
      → conn.connect_mode ≡ requested_connection
      → IsPlain seen
      → t < 2 ^ 64
      → u < 2 ^ 64
      → process_message w now addr (accepted_bytes w.buf seen t u) (conn, p)
        ≡ attempt
            (send_message addr conn.guid RukMessageContext.connection_request_accepted p)
            λ p'.
              attempt
                (send_to_conn now immediate reliable_ordered 0
                  (new_incoming_bytes w.buf seen u now)
                  (record conn { ping = now - t; connect_mode = connected }))
                λ conn'.
                  attempt (send_ping_to_conn w now unreliable conn') λ conn''. ok (conn'', p')
  unfolding on_online_message on_accepted online_from_u8 eq_mode
  accepted_handled now addr seen t u conn p mode plain h k =
      rw (accepted_layout w.buf laws seen t u) (
        handled now addr connection_request_accepted 0x10
          (put_addr w.buf seen [] ++ (be 2 0 ++ (put_no_addrs w.buf 10 [] ++ (be 8 t ++ be 8 u))))
          conn p refl (rw mode refl)
        ∙ if_true {b = eq_mode conn.connect_mode requested_connection} _ _ (rw mode refl)
        ∙ parse-ok (read_accepted w.buf) _ (conn, p) _
            (read_accepted_layout w.buf laws seen t u plain h k))

  new_incoming_handled :
      (now : ℕ) (addr seen : SocketAddr) (t u : ℕ) (conn : Conn C) (p : Peer C)
      → conn.connect_mode ≡ handling_connection_request
      → IsPlain seen
      → t < 2 ^ 64
      → u < 2 ^ 64
      → process_message w now addr (new_incoming_bytes w.buf seen t u) (conn, p)
        ≡ attempt
            (send_ping_to_conn w now unreliable (record conn { connect_mode = connected }))
            λ conn'.
              attempt
                (send_message addr conn'.guid RukMessageContext.new_incoming_connection p)
                λ p'. ok (record conn' { ping = now - t }, p')
  unfolding on_online_message on_new_incoming online_from_u8 eq_mode
  new_incoming_handled now addr seen t u conn p mode plain h k =
      rw (new_incoming_layout w.buf laws seen t u) (
        handled now addr new_incoming_connection 0x13
          (put_addr w.buf seen [] ++ (put_no_addrs w.buf 20 [] ++ (be 8 t ++ be 8 u))) conn p refl
          (rw mode refl)
        ∙ if_true {b = eq_mode conn.connect_mode handling_connection_request} _ _ (rw mode refl)
        ∙ ap (attempt _) (
            fun_ext λ conn'.
              parse-ok (read_new_incoming w.buf) _ (conn', p) _
                (read_new_incoming_layout w.buf laws seen t u plain h k)))

  -- A client's connection request, the server's answer and the client's answer to that, handled at
  -- t1, t2 and t3, open the connection on both sides, told to the applications, with pings
  -- t2 - t0 and t3 - t1, for sides in the right modes, values that fit, packets of 24 bytes or more
  -- and queues with room.
  pub greeting_lem :
      (client_addr server_addr : SocketAddr) (t0 t1 t2 t3 : ℕ) (client server asked : Conn C)
      (p q : Peer C)
      → client.connect_mode ≡ requested_connection
      → asked.connect_mode ≡ handling_connection_request
      → IsPlain client_addr
      → p.guid < 2 ^ 64
      → t0 < 2 ^ 64
      → t1 < 2 ^ 64
      → t2 < 2 ^ 64
      → HasPackets client
      → HasPackets server
      → HasPackets asked
      → length p.message_queue < queue_size
      → length q.message_queue < queue_size
      → ((server' : Conn C) × (send_to_conn t1 immediate reliable_ordered 0
              (accepted_bytes w.buf client_addr t0 t1)
              (record server { connect_mode = handling_connection_request })
            ≡ some server')
          × (process_message w t1 client_addr (connection_request_bytes w.buf p.guid t0) (server, q)
              ≡ ok (server', q))
          × (server'.connect_mode ≡ handling_connection_request))
        × ((client' client'' : Conn C) × (send_to_conn t2 immediate reliable_ordered 0
                (new_incoming_bytes w.buf client_addr t1 t2)
                (record client { ping = t2 - t0; connect_mode = connected })
              ≡ some client')
            × (send_ping_to_conn w t2 unreliable client' ≡ some client'')
            × (process_message w t2 server_addr (accepted_bytes w.buf client_addr t0 t1) (client, p)
                ≡ ok (
                  client'',
                  told server_addr client.guid RukMessageContext.connection_request_accepted p,
                ))
            × (client''.connect_mode ≡ connected)
            × (client''.ping ≡ t2 - t0))
        × ((asked' : Conn C) × (send_ping_to_conn w t3 unreliable
                (record asked { connect_mode = connected })
              ≡ some asked')
            × (process_message w t3 client_addr
                  (new_incoming_bytes w.buf client_addr t1 t2)
                  (asked, q)
                ≡ ok (
                  record asked' { ping = t3 - t1 },
                  told client_addr asked'.guid RukMessageContext.new_incoming_connection q,
                ))
            × (asked'.connect_mode ≡ connected))
  greeting_lem client_addr server_addr t0 t1 t2 t3 client server asked p q m n plain g h0 h1 h2 hc
        hs ha rp rq =
      let (server', e, c) =
        send_to_conn-goes t1 immediate reliable_ordered (accepted_bytes w.buf client_addr t0 t1)
          (record server { connect_mode = handling_connection_request }) hs in
      let (client', f, d) =
        send_to_conn-goes t2 immediate reliable_ordered (new_incoming_bytes w.buf client_addr t1 t2)
          (record client { ping = t2 - t0; connect_mode = connected }) hc in
      let (client'', f', d') =
        pinged-goes w laws t2 server_addr unreliable client' (rw d.0 hc.0, rw d.0 hc.1) in
      let (asked', k, b) =
        pinged-goes w laws t3 client_addr unreliable (record asked { connect_mode = connected })
          ha in
      (
        (
          server',
          e,
          request_handled t1 client_addr p.guid t0 server q g h0 ∙ attempt-some _ e,
          c.1,
        ),
        (
          client',
          client'',
          f,
          f',
          accepted_handled t2 server_addr client_addr t0 t1 client p m plain h0 h1
              ∙ attempt-some _ (send_message-goes server_addr client.guid _ p rp)
              ∙ attempt-some _ f
              ∙ attempt-some _ f',
          d'.1 ∙ d.1,
          d'.2 ∙ d.2,
        ),
        (
          asked',
          k,
          new_incoming_handled t3 client_addr client_addr t1 t2 asked q n plain h1 h2
              ∙ attempt-some _ k
              ∙ attempt-some _ (send_message-goes client_addr asked'.guid _ q rq),
          b.1,
        ),
      )
