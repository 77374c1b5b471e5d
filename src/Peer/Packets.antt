-- ===== src/Peer/Packets.antt =====
-- src/peer.rs: how the packets before a connection are read and written.
use ruknet.Base.{ℕ, ◌-◌, Bool, Option, none, some, List, [], ◌==◌, length, Result, ok, err, fault}
use ruknet.Error.{PeerError}
use ruknet.Buf.{Buf}
use ruknet.Net.{SocketAddr}
use ruknet.Codec.Decode.{
  Parser, ◌>>=◌, ◌>>◌, pure, lift, optional, try_advance, try_get_addr, try_get_string,
}
use ruknet.Codec.Encode.{put_addr, put_string}
use ruknet.Message.{
  OfflineMessageIds, offline_to_u8, unconnected_pong, open_connection_request1,
  open_connection_reply1, open_connection_request2, open_connection_reply2,
  incompatible_protocol_version, online_to_u8, connection_request,
}
use ruknet.Proto.{protocol_version, offline_message_data_id}
use ruknet.Layer.{ip_udp_header_size}

-- A reader that fails ends the handler, its error converted as `?` does.
unfoldable pub parse {ℓ} :
    {A : Type ℓ} {S : Type 0}
    → Parser A
    → List ℕ
    → S
    → (A → List ℕ → Result (PeerError × S) S)
    → Result (PeerError × S) S
parse reader bytes s k = elim (reader bytes) [
  | ok (a, rest) ↦ k a rest
  | err e ↦ err (PeerError.ruk_bytes e, s)
  | fault ↦ fault
]

module _ (b : Buf) where
  -- The reads of each message.
  unfoldable pub read_ping : Parser (ℕ × ℕ)
  read_ping = do
    ping_time ← lift b.try_get_u64
    try_advance b (length offline_message_data_id)
    remote_guid ← lift b.try_get_u64
    pure (ping_time, remote_guid)

  unfoldable pub read_pong : (List ℕ → List ℕ) → Parser (ℕ × ℕ × List ℕ)
  read_pong lossy = do
    ping_time ← lift b.try_get_u64
    remote_guid ← lift b.try_get_u64
    try_advance b (length offline_message_data_id)
    ping_res ← try_get_string b lossy
    pure (ping_time, remote_guid, ping_res)

  unfoldable pub read_request1 : Parser ℕ
  read_request1 = do try_advance b (length offline_message_data_id); lift b.try_get_u8

  -- The cookie.
  unfoldable pub read_reply1 : Parser (Option ℕ)
  read_reply1 = do
    try_advance b (length offline_message_data_id)
    remote_guid ← lift b.try_get_u64
    has_cookie ← lift b.try_get_u8
    optional (has_cookie == 1) (lift b.try_get_u32)

  unfoldable pub read_request2 : Parser (SocketAddr × ℕ × ℕ)
  read_request2 = do
    try_advance b (length offline_message_data_id)
    binding_addr ← try_get_addr b
    mtu_size ← lift b.try_get_u16
    remote_guid ← lift b.try_get_u64
    pure (binding_addr, mtu_size, remote_guid)

  unfoldable pub read_reply2 : Parser (ℕ × SocketAddr × ℕ × Bool)
  read_reply2 = do
    try_advance b (length offline_message_data_id)
    remote_guid ← lift b.try_get_u64
    binding_addr ← try_get_addr b
    mtu_size ← lift b.try_get_u16
    security ← lift b.try_get_u8
    pure (remote_guid, binding_addr, mtu_size, security == 1)

  unfoldable pub read_version : Parser (ℕ × ℕ)
  read_version = do
    try_advance b (length offline_message_data_id)
    remote_proto_version ← lift b.try_get_u8
    remote_guid ← lift b.try_get_u64
    pure (remote_proto_version, remote_guid)

  -- The messages that carry no more than the peer's number.
  unfoldable pub read_guid : Parser ℕ
  read_guid = do try_advance b (length offline_message_data_id); lift b.try_get_u64

  -- The messages as they are written.
  unfoldable pub pong_bytes : ℕ → ℕ → List ℕ → List ℕ
  unfolding put_string
  pong_bytes ping_time guid ping_res =
      let buf =
        b.put_u64 guid (b.put_u64 ping_time (b.put_u8 (offline_to_u8 unconnected_pong) [])) in
      put_string b ping_res (b.put_slice offline_message_data_id buf)

  unfoldable pub incompatible_bytes : ℕ → List ℕ
  incompatible_bytes guid =
      let buf =
        b.put_u8 protocol_version (b.put_u8 (offline_to_u8 incompatible_protocol_version) []) in
      b.put_u64 guid (b.put_slice offline_message_data_id buf)

  -- An id, the fixed bytes, and the peer's number.
  unfoldable pub guid_bytes : OfflineMessageIds → ℕ → List ℕ
  guid_bytes id guid =
      b.put_u64 guid (b.put_slice offline_message_data_id (b.put_u8 (offline_to_u8 id) []))

  unfoldable pub request1_bytes : ℕ → List ℕ
  request1_bytes mtu_size =
      let req = b.put_u8 (offline_to_u8 open_connection_request1) [] in
      let req = b.put_u8 protocol_version (b.put_slice offline_message_data_id req) in
      b.put_bytes 0 (mtu_size - ip_udp_header_size - length req) req

  unfoldable pub reply1_bytes : ℕ → ℕ → List ℕ
  unfolding guid_bytes
  reply1_bytes guid mtu_size =
      b.put_u16 mtu_size (b.put_u8 0 (guid_bytes open_connection_reply1 guid))

  unfoldable pub put_cookie : Option ℕ → List ℕ → List ℕ
  put_cookie none buf = buf
  put_cookie (some cookie) buf = b.put_u8 0 (b.put_u32 cookie buf)

  unfoldable pub request2_bytes : Option ℕ → SocketAddr → ℕ → ℕ → List ℕ
  unfolding put_cookie put_addr
  request2_bytes cookie addr mtu_size guid =
      let buf = b.put_u8 (offline_to_u8 open_connection_request2) [] in
      let buf = put_cookie cookie (b.put_slice offline_message_data_id buf) in
      b.put_u64 guid (b.put_u16 mtu_size (put_addr b addr buf))

  unfoldable pub reply2_bytes : ℕ → SocketAddr → ℕ → List ℕ
  unfolding guid_bytes put_addr
  reply2_bytes guid addr mtu_size =
      let buf = put_addr b addr (guid_bytes open_connection_reply2 guid) in
      b.put_u8 0 (b.put_u16 mtu_size buf)

  unfoldable pub connection_request_bytes : ℕ → ℕ → List ℕ
  connection_request_bytes guid now =
      b.put_u8 0 (b.put_u64 now (b.put_u64 guid (b.put_u8 (online_to_u8 connection_request) [])))

-- `now.saturating_sub(time)`
abbrev pub saturating_sub : ℕ → ℕ → ℕ
saturating_sub a b = a - b
