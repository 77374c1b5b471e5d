-- ===== src/Peer/Api.antt =====
-- src/peer.rs: what the application calls. `resolved` is the first address that `to_socket_addrs`
-- gives, if it gives one.
pub mod Laws
use ruknet.Base.{
  ℕ, zero, suc, ◌*◌, ◌^◌, ltb, Bool, true, false, Option, none, some, List, [], ◌∷◌, ◌++◌,
  if◌then◌else◌, Result, ok, err, is_some,
}
use ruknet.Error.{PeerError, invalid_address, failed_to_bind, already_listening, already_connecting}
use ruknet.Net.{SocketAddr}
use ruknet.Net.Table.{find, put, remove}
use ruknet.Reliability.{Priority, immediate, low, Reliability}
use ruknet.Message.{offline_to_u8, OfflineMessageIds}
use ruknet.Proto.{offline_message_data_id}
use ruknet.App.{RukMessage}
use ruknet.Conn.{new_req}
use ruknet.Peer.{
  Peer, World, send_or_log, send_command_send, close_conn_internal, ban_addr_internal,
}

module _ {C : Type 0} where
  -- `bind` is the error of the socket, if it cannot be bound; `guid` is the random number.
  unfoldable pub new : Option SocketAddr → Option ℕ → ℕ → List ℕ → Result PeerError (Peer C)
  new none bind guid ping_res = err invalid_address
  new (some addr) (some e) guid ping_res = err (failed_to_bind e)
  new (some addr) none guid ping_res = ok (record {
    addr = addr;
    guid = guid;
    is_listening = false;
    max_conn_count = 0;
    conn_count = 0;
    conns = [];
    req_conns = [];
    ban_list = [];
    ping_res = ping_res;
    packet_queue = [];
    command_queue = [];
    message_queue = [];
    sent = [];
  })

  -- The update task starts with no connection, the receiving task with no packet.
  unfoldable pub listen : ℕ → Peer C → Result PeerError (Peer C)
  listen max_conn_count p =
      let started : Peer C = record p {
        is_listening = true;
        max_conn_count = max_conn_count;
        conn_count = 0;
        conns = [];
        packet_queue = [];
      } in
      if p.is_listening then err already_listening else ok started

  unfoldable pub connect :
      ℕ → Option SocketAddr → ℕ → ℕ → Option ℕ → Peer C → Result PeerError (Peer C)
  unfolding new_req
  connect now none max_req_count req_interval timeout p = err invalid_address
  connect now (some addr) max_req_count req_interval timeout p =
      let req_conn = new_req now addr req_interval max_req_count timeout in
      if is_some (find addr p.req_conns)
      then err already_connecting
      else ok (record p { req_conns = put addr req_conn p.req_conns })

  unfoldable pub ping : World C → ℕ → Option SocketAddr → Peer C → Result PeerError (Peer C)
  unfolding send_or_log
  ping w now none p = err invalid_address
  ping w now (some addr) p =
      let bytes = w.buf.put_u8 (offline_to_u8 OfflineMessageIds.unconnected_ping) [] in
      let bytes = w.buf.put_slice offline_message_data_id (w.buf.put_u64 now bytes) in
      ok (send_or_log w addr (w.buf.put_u64 p.guid bytes) p)

  unfoldable pub recv : Peer C → Option RukMessage × Peer C
  recv p = elim p.message_queue [
    | [] ↦ (none, p)
    | message ∷ messages ↦ (some message, record p { message_queue = messages })
  ]

  -- The rounds `0..n`, which end with the messages.
  unfoldable pub recv_loop : ℕ → Peer C → List RukMessage × Peer C
  recv_loop zero p = ([], p)
  recv_loop (suc n) p =
      let (front, p') = recv p in
      let (messages, p'') = recv_loop n p' in
      elim front [ none ↦ ([], p') | some message ↦ (message ∷ messages, p'') ]

  -- `size` is the size of a message in memory, which the compiler chooses. `with_capacity` panics
  -- (`none`) where the messages asked for would take more than `isize::MAX` bytes.
  unfoldable pub recv_many : ℕ → ℕ → Peer C → Option (List RukMessage × Peer C)
  unfolding recv_loop
  recv_many size n p = elim p.message_queue [
    | [] ↦ some ([], p)
    | message ∷ messages ↦ if ltb (n * size) (2 ^ 63) then some (recv_loop n p) else none
  ]

  -- `none`: the call waits for room in the queue.
  unfoldable pub send : SocketAddr → Priority → Reliability → ℕ → List ℕ → Peer C → Option (Peer C)
  unfolding send_command_send
  send = send_command_send

  unfoldable pub close_conn : SocketAddr → Peer C → Option (Peer C)
  unfolding close_conn_internal
  close_conn addr = close_conn_internal addr low 0

  unfoldable pub ban_addr : SocketAddr → ℕ → Peer C → Peer C
  unfolding ban_addr_internal
  ban_addr = ban_addr_internal

  unfoldable pub unban_addr : SocketAddr → Peer C → Peer C
  unban_addr addr p = record p { ban_list = remove addr p.ban_list }

  unfoldable pub get_ping_res : Peer C → List ℕ
  get_ping_res p = p.ping_res

  unfoldable pub set_ping_res : List ℕ → Peer C → Peer C
  set_ping_res ping_res p = record p { ping_res = ping_res }
