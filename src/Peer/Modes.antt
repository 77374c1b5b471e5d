-- ===== src/Peer/Modes.antt =====
-- src/peer.rs, `process_message`: how a message may change the mode of its connection, and what it
-- leaves alone.
use ruknet.Base.{
  ℕ, ◌∙◌, ◌≡◌, ap, refl, Bool, true, false, not, ◌&&◌, ◌||◌, some, List, [], ◌∷◌, arith, get_or,
  ◌==◌, Result, ok, err, fault, leb, length,
}
use ruknet.Net.{SocketAddr}
use ruknet.App.{RukMessageContext}
use ruknet.Error.{LayerError}
use ruknet.Reliability.{Priority, Reliability, low}
use ruknet.Message.{
  OnlineMessageIds, online_from_u8, online_to_u8, connected_ping, connected_pong,
  connection_request, connection_request_accepted, new_incoming_connection,
  disconnection_notification,
}
use ruknet.Cache.{is_nil}
use ruknet.Layer.{Layer}
use ruknet.Layer.Send
use ruknet.Conn.{
  Conn, ConnectMode, eq_mode, unverfied_sender, requested_connection, handling_connection_request,
  connected,
}
use ruknet.Peer.{
  Peer, World, Session, queue_size, push_command, settle, send_command_send, send_command_close,
  close_conn_internal, send_message, send_to_conn, send_ping_to_conn,
}
use ruknet.Peer.Online.{
  on_connection_request, on_accepted, on_new_incoming, on_connected_ping, on_connected_pong,
  on_disconnection, on_online_message, handle_message, process_message,
}
use ruknet.Peer.Results.{
  Leaves, succeeds, fails, Leaves-parse, Leaves-attempt, Leaves-if_let, Leaves-if, Yields, yields,
  send_message-only, stops, Yields_if, Yields-and_then, Yields_mono, Yields_some,
}

-- The connections, their count and limit, the requests and what has been sent are the same.
pub record Frame {C : Type 0} (p q : Peer C) : Type 0 where
  pub conns_same : q.conns ≡ p.conns
  pub count_same : q.conn_count ≡ p.conn_count
  pub limit_same : q.max_conn_count ≡ p.max_conn_count
  pub requests_same : q.req_conns ≡ p.req_conns
  pub sent_same : q.sent ≡ p.sent

eq_mode_sound : (m n : ConnectMode) → eq_mode m n ≡ true → m ≡ n
unfolding eq_mode
eq_mode_sound unverfied_sender unverfied_sender h = refl
eq_mode_sound requested_connection requested_connection h = refl
eq_mode_sound handling_connection_request handling_connection_request h = refl
eq_mode_sound connected connected h = refl
eq_mode_sound m n h = ground arith

-- The changes of a connection's mode by a message with the id `id`.
pub data Transition (id : ℕ) : ConnectMode → ConnectMode → Type 0 where
  stays : {m n : ConnectMode} → n ≡ m → Transition id m n
  requests : {m n : ConnectMode} → id ≡ 0x09 → n ≡ handling_connection_request → Transition id m n
  accepts :
      {m n : ConnectMode} → id ≡ 0x10 → m ≡ requested_connection → n ≡ connected → Transition id m n
  arrives :
      {m n : ConnectMode}
      → id ≡ 0x13
      → m ≡ handling_connection_request
      → n ≡ connected
      → Transition id m n

module _ {C : Type 0} where
  pub Frame-trans : {p q r : Peer C} → Frame p q → Frame q r → Frame p r
  Frame-trans f g = ground arith

  send_message-Frame :
      (addr : SocketAddr) (guid : ℕ) (context : RukMessageContext) (p q : Peer C)
      → send_message addr guid context p ≡ some q
      → Frame p q
  send_message-Frame addr guid context p q e =
      let only = send_message-only addr guid context p q e in
      record {
        conns_same = ap (λ r. r.conns) only;
        count_same = ap (λ r. r.conn_count) only;
        limit_same = ap (λ r. r.max_conn_count) only;
        requests_same = ap (λ r. r.req_conns) only;
        sent_same = ap (λ r. r.sent) only;
      }

  push_command-Frame : (c : _) (p : Peer C) → Yields (Frame p) (push_command c p)
  unfolding push_command
  push_command-Frame c p =
      Yields_if (Frame p) (leb queue_size (length p.command_queue)) (λ _. stops)
        (λ _. yields ground arith)

  pub close_conn_internal-Frame :
      (addr : SocketAddr) (priority : Priority) (channel : ℕ) (p : Peer C)
      → Yields (Frame p) (close_conn_internal addr priority channel p)
  unfolding close_conn_internal send_command_send send_command_close
  close_conn_internal-Frame addr priority channel p =
      Yields-and_then (Frame p) (push_command-Frame _ p)
        λ q f. Yields_mono (λ r g. Frame-trans f g) (push_command-Frame _ q)

  send_to_conn_modes :
      (now : ℕ) (priority : Priority) (reliability : Reliability) (channel : ℕ) (bytes : List ℕ)
      (conn : Conn C) (r : Result (LayerError × Layer C) (Layer C))
      → Send.send priority reliability channel bytes conn.layer ≡ r
      → (conn' : Conn C) → send_to_conn now priority reliability channel bytes conn ≡ some conn'
      → (conn'.connect_mode ≡ conn.connect_mode) × (conn'.guid ≡ conn.guid)
  unfolding send_to_conn settle
  send_to_conn_modes now priority reliability channel bytes conn (ok layer) e conn' h = ground arith
  send_to_conn_modes now priority reliability channel bytes conn (err x) e conn' h = ground arith
  send_to_conn_modes now priority reliability channel bytes conn fault e conn' h = ground arith

  -- What a message does to its connection and to the peer.
  abbrev pub Handles : ℕ → Session C → Session C → Type 0
  Handles id (conn, p) (conn', p') =
      Frame p p' × Transition id conn.connect_mode conn'.connect_mode × (conn'.guid ≡ conn.guid)

  same : (id : ℕ) (conn : Conn C) (p : Peer C) → Handles id (conn, p) (conn, p)
  same id conn p = (ground arith, stays refl, refl)

module _ {C : Type 0} (w : World C) (now : ℕ) (addr : SocketAddr) (msg : List ℕ) (conn : Conn C)
    (p : Peer C) where
  sent_modes :
      (priority : Priority) (reliability : Reliability) (channel : ℕ) (bytes : List ℕ)
      (conn conn' : Conn C)
      → send_to_conn now priority reliability channel bytes conn ≡ some conn'
      → (conn'.connect_mode ≡ conn.connect_mode) × (conn'.guid ≡ conn.guid)
  sent_modes priority reliability channel bytes conn conn' h =
      send_to_conn_modes now priority reliability channel bytes conn _ refl conn' h

  pinged_modes :
      (reliability : Reliability) (conn conn' : Conn C)
      → send_ping_to_conn w now reliability conn ≡ some conn'
      → (conn'.connect_mode ≡ conn.connect_mode) × (conn'.guid ≡ conn.guid)
  unfolding send_ping_to_conn
  pinged_modes reliability conn conn' h = sent_modes _ reliability _ _ conn conn' h

  on_connection_request-Handles :
      Leaves (Handles 0x09 (conn, p)) (on_connection_request w now addr msg (conn, p))
  unfolding on_connection_request
  on_connection_request-Handles =
      Leaves-parse (Handles 0x09 (conn, p)) _ _ (same _ conn p) λ ping_time rest.
        Leaves-attempt (Handles 0x09 (conn, p)) λ conn' e.
          let kept =
            sent_modes _ _ _ _ (record conn { connect_mode = handling_connection_request }) conn'
              e in
          succeeds (ground arith, requests refl kept.0, kept.1)

  on_accepted-Handles : Leaves (Handles 0x10 (conn, p)) (on_accepted w now addr msg (conn, p))
  unfolding on_accepted send_message
  on_accepted-Handles =
      Leaves-if (Handles 0x10 (conn, p)) (eq_mode conn.connect_mode requested_connection)
        (λ mode.
          Leaves-parse (Handles 0x10 (conn, p)) _ _ (same _ conn p)
            λ (remote_addr, ping_time, pong_time) rest.
              Leaves-attempt (Handles 0x10 (conn, p)) λ p' told.
                Leaves-attempt (Handles 0x10 (conn, p)) λ conn' e.
                  Leaves-attempt (Handles 0x10 (conn, p)) λ conn'' e'.
                    let kept =
                      sent_modes _ _ _ _ (record conn { connect_mode = connected; ping = _ }) conn'
                        e in
                    let kept' = pinged_modes _ conn' conn'' e' in
                    succeeds (
                      send_message-Frame _ _ _ p p' told,
                      accepts refl (eq_mode_sound _ _ mode) (kept'.0 ∙ kept.0),
                      kept'.1 ∙ kept.1,
                    ))
        (λ mode. fails (same _ conn p))

  on_new_incoming-Handles :
      Leaves (Handles 0x13 (conn, p)) (on_new_incoming w now addr msg (conn, p))
  unfolding on_new_incoming send_message
  on_new_incoming-Handles =
      Leaves-if (Handles 0x13 (conn, p)) (eq_mode conn.connect_mode handling_connection_request)
        (λ mode. Leaves-attempt (Handles 0x13 (conn, p)) λ conn' e.
          let kept = pinged_modes _ (record conn { connect_mode = connected }) conn' e in
          let opened : Handles 0x13 (conn, p) (conn', p) =
            (ground arith, arrives refl (eq_mode_sound _ _ mode) kept.0, kept.1) in
          Leaves-parse (Handles 0x13 (conn, p)) _ _ opened λ ping_time rest.
            Leaves-attempt (Handles 0x13 (conn, p)) λ p' told. succeeds (
              send_message-Frame _ _ _ p p' told,
              arrives refl (eq_mode_sound _ _ mode) kept.0,
              kept.1,
            ))
        (λ mode. fails (same _ conn p))

  on_connected_ping-Handles :
      Leaves (Handles 0x00 (conn, p)) (on_connected_ping w now msg (conn, p))
  unfolding on_connected_ping
  on_connected_ping-Handles =
      Leaves-parse (Handles 0x00 (conn, p)) _ _ (same _ conn p) λ ping_time rest.
        Leaves-attempt (Handles 0x00 (conn, p)) λ conn' e.
          let kept = sent_modes _ _ _ _ conn conn' e in
          succeeds (ground arith, stays kept.0, kept.1)

  on_connected_pong-Handles :
      Leaves (Handles 0x03 (conn, p)) (on_connected_pong w now msg (conn, p))
  unfolding on_connected_pong
  on_connected_pong-Handles =
      Leaves-parse (Handles 0x03 (conn, p)) _ _ (same _ conn p)
        λ ping_time rest. succeeds (ground arith, stays refl, refl)

  on_disconnection-Handles : Leaves (Handles 0x15 (conn, p)) (on_disconnection w addr (conn, p))
  unfolding on_disconnection
  on_disconnection-Handles =
      Leaves-attempt (Handles 0x15 (conn, p))
        λ p' e. succeeds (Yields_some (close_conn_internal-Frame addr low 0 p) e, stays refl, refl)

online_code : (x : ℕ) (id : OnlineMessageIds) → online_from_u8 x ≡ some id → x ≡ online_to_u8 id
unfolding online_from_u8 online_to_u8
online_code x connected_ping h = ground arith
online_code x connected_pong h = ground arith
online_code x connection_request h = ground arith
online_code x connection_request_accepted h = ground arith
online_code x new_incoming_connection h = ground arith
online_code x disconnection_notification h = ground arith

-- Some message is a `NewIncomingConnection`; one comes after a `ConnectionRequest`.
abbrev pub confirmed : List (List ℕ) → Bool
confirmed [] = false
confirmed (msg ∷ msgs) = (get_or msg 0 0 == 0x13) || confirmed msgs

abbrev pub requested : List (List ℕ) → Bool
requested [] = false
requested (msg ∷ msgs) = ((get_or msg 0 0 == 0x09) && confirmed msgs) || requested msgs

module _ {C : Type 0} (w : World C) (now : ℕ) (addr : SocketAddr) where
  on_online_message-Handles :
      (id : OnlineMessageIds) (msg : List ℕ) (conn : Conn C) (p : Peer C)
      → Leaves (Handles (online_to_u8 id) (conn, p)) (on_online_message w id now addr msg (conn, p))
  unfolding on_online_message online_to_u8
  on_online_message-Handles connected_ping msg conn p =
      on_connected_ping-Handles w now addr msg conn p
  on_online_message-Handles connected_pong msg conn p =
      on_connected_pong-Handles w now addr msg conn p
  on_online_message-Handles connection_request msg conn p =
      on_connection_request-Handles w now addr msg conn p
  on_online_message-Handles connection_request_accepted msg conn p =
      on_accepted-Handles w now addr msg conn p
  on_online_message-Handles new_incoming_connection msg conn p =
      on_new_incoming-Handles w now addr msg conn p
  on_online_message-Handles disconnection_notification msg conn p =
      on_disconnection-Handles w now addr msg conn p

  handle_message-Handles :
      (msg : List ℕ) (conn : Conn C) (p : Peer C)
      → Leaves (Handles (get_or msg 0 0) (conn, p)) (handle_message w now addr msg (conn, p))
  unfolding handle_message send_message
  handle_message-Handles msg conn p =
      Leaves-if_let (Handles (get_or msg 0 0) (conn, p)) (online_from_u8 (get_or msg 0 0))
        (λ id e.
          rw (online_code _ id e) (on_online_message-Handles id (w.buf.advance 1 msg) conn p))
        (λ e.
          Leaves-attempt (Handles (get_or msg 0 0) (conn, p))
            λ p' told. succeeds (send_message-Frame _ _ _ p p' told, stays refl, refl))

  -- A message changes the mode of its connection only as `Transition` says for its id, whether it is
  -- handled or refused, and leaves the connection's number and the peer's connections, their count
  -- and limit, its requests and what it has sent as they are.
  pub process_message-Handles :
      (msg : List ℕ) (conn : Conn C) (p : Peer C)
      → Leaves (Handles (get_or msg 0 0) (conn, p)) (process_message w now addr msg (conn, p))
  unfolding process_message
  process_message-Handles msg conn p =
      Leaves-if (Handles (get_or msg 0 0) (conn, p)) (is_nil msg) (λ _. fails (same _ conn p))
        λ _.
          Leaves-if (Handles (get_or msg 0 0) (conn, p))
            (eq_mode conn.connect_mode unverfied_sender
              && not (get_or msg 0 0 == online_to_u8 connection_request))
            (λ _. fails (same _ conn p)) λ _. handle_message-Handles msg conn p
