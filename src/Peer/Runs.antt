-- ===== src/Peer/Runs.antt =====
-- A run of two peers from src/peer.rs, one of which connects to the other.
use mathlib.Core.Option.{Option}
use ruknet.Base.{
  ℕ, zero, suc, map, ◌+◌, ◌≡◌, refl, true, false, none, some, List, [], ◌∷◌, ok, err, fault,
}
use ruknet.Buf.{list_buf}
use ruknet.Net.{SocketAddr, v4, eq_addr}
use ruknet.Net.Table.{find, put, remove}
use ruknet.Codec.Decode.{try_advance, try_get_addr, addr_v4, try_get_octets}
use ruknet.Codec.Encode.{put_addr}
use ruknet.Reliability.{
  immediate, unreliable, reliable_ordered, is_sequenced, is_ordered, is_reliable,
}
use ruknet.Message.{offline_from_u8, offline_to_u8, online_to_u8, online_from_u8}
use ruknet.Cache
use ruknet.Congestion.{CongestionController}
use ruknet.Layer
use ruknet.Layer.Send
use ruknet.Datagram.{calc_full_size, calc_header_size}
use ruknet.Layer.Update.{update, flush_acks, mark_dead, flush_naks}
use ruknet.Conn.{ConnectMode, connected}
use ruknet.Peer.{
  Peer, World, and_then, if_let, settle, attempt, chain, try_send, ban_addr_internal, send_to_conn,
  send_ping_to_conn, send_message,
}
use ruknet.Peer.Api.{connect}
use ruknet.Peer.Packets.{
  parse, request1_bytes, reply1_bytes, request2_bytes, reply2_bytes, connection_request_bytes,
}
use ruknet.Peer.Online.{
  try_get_addrs, put_no_addrs, accepted_bytes, new_incoming_bytes, process_message,
}
use ruknet.Peer.Cycle.{update_cycle}
use ruknet.Peer.Tasks.{on_recv_from}

-- The controller of the layer's runs, which counts the packets.
abbrev pub fixed : CongestionController ℕ
fixed = record {
  new = λ _. 0;
  should_send_ack = λ _ _ _. true;
  is_in_slow_start = λ _. false;
  get_seq_and_increment = λ c. (c, c + 1);
  get_transmission_bandwidth = λ c _ _ _. (5000, c);
  get_rto = λ _. 1000;
  on_resend = λ c _. c;
  on_recv_ack = λ c _ _ _ _ _ _. c;
  on_recv_nak = λ c. c;
  on_recv_packet = λ c _ _ _. c;
  on_send_ack = λ c _ rate. (rate, c);
  on_send_packet = λ c _. c;
}

abbrev pub world : World ℕ
world = record {
  controller = fixed;
  buf = list_buf;
  lossy = λ bytes. bytes;
  send_to = λ addr bytes. none;
  reentrant = false;
}

abbrev pub here : SocketAddr
here = v4 (127 ∷ 0 ∷ 0 ∷ 1 ∷ []) 5000

abbrev pub there : SocketAddr
there = v4 (127 ∷ 0 ∷ 0 ∷ 1 ∷ []) 6000

abbrev pub idle : Peer ℕ
idle = record {
  addr = here;
  guid = 77;
  is_listening = true;
  max_conn_count = 4;
  conn_count = 0;
  conns = [];
  req_conns = [];
  ban_list = [];
  ping_res = 104 ∷ 105 ∷ [];
  packet_queue = [];
  command_queue = [];
  message_queue = [];
  sent = [];
}

-- Two peers, each with the other's address, and a network that loses nothing.
abbrev Pair : Type 0
Pair = Peer ℕ × Peer ℕ

receive : SocketAddr → List (SocketAddr × List ℕ) → Peer ℕ → Option (Peer ℕ)
unfolding on_recv_from
receive from [] p = some p
receive from ((to, bytes) ∷ packets) p =
    and_then (on_recv_from (some (from, bytes)) p) (receive from packets)

-- What one side has sent reaches the other, which then runs its cycle.
turn : ℕ → SocketAddr → Peer ℕ → Peer ℕ → Option Pair
unfolding receive update_cycle
turn now from p q =
    and_then (receive from p.sent q)
      λ q. and_then (update_cycle world now q) λ q. some (record p { sent = [] }, q)

rounds : ℕ → ℕ → Pair → Option Pair
unfolding turn
rounds zero now (p, q) = some (p, q)
rounds (suc n) now (p, q) =
    and_then (turn now here p q)
      λ (p, q). and_then (turn now there q p) λ (q, p). rounds n (now + 10) (p, q)

asking : Option (Peer ℕ)
unfolding connect
asking = elim (connect 100 (some there) 12 500 none idle) [
  | ok p ↦ update_cycle world 101 p
  | err e ↦ none
  | fault ↦ none
]

after : ℕ → Option Pair
unfolding asking rounds
after n = and_then asking λ p. rounds n 110 (p, record idle { addr = there; guid = 88 })

modes : Option Pair → List ConnectMode × List ConnectMode
modes none = ([], [])
modes (some (p, q)) =
    (map (λ (a, c). c.connect_mode) p.conns, map (λ (a, c). c.connect_mode) q.conns)

-- After four rounds both sides have the connection open.
handshake_connects : modes (after 4) ≡ (connected ∷ [], connected ∷ [])
unfolding modes after asking rounds turn receive update_cycle ruknet.Cache.relative_index
    ruknet.Cache.new ruknet.Cache.is_empty ruknet.Cache.insert ruknet.Cache.mark_as_used
    ruknet.Cache.shift_loop ruknet.Cache.shift ruknet.Cache.get_retransmit_fragments
    ruknet.Codec.Decode.try_advance ruknet.Codec.Decode.try_get_octets ruknet.Codec.Decode.addr_v4
    ruknet.Codec.Decode.try_get_addr ruknet.Codec.Decode.try_get_range
    ruknet.Codec.Decode.try_get_ranges ruknet.Codec.Decode.try_get_string
    ruknet.Codec.Decode.try_get_ordering_info ruknet.Codec.Decode.try_get_fragment
    ruknet.Codec.Decode.try_get_fragments ruknet.Codec.Decode.try_get_datagram
    ruknet.Codec.Encode.insert_sorted ruknet.Codec.Encode.sort ruknet.Codec.Encode.put_range
    ruknet.Codec.Encode.put_sorted ruknet.Codec.Encode.put_seqs
    ruknet.Codec.Encode.put_ordering_info ruknet.Codec.Encode.put_split_info
    ruknet.Codec.Encode.put_index ruknet.Codec.Encode.put_fragment ruknet.Codec.Encode.put_fragments
    ruknet.Codec.Encode.put_arrival_rate ruknet.Codec.Encode.put_datagram
    ruknet.Datagram.calc_header_size ruknet.Datagram.calc_full_size ruknet.Layer.new
    ruknet.Layer.get_timeout ruknet.Layer.recv ruknet.Layer.Receive.drain
    ruknet.Layer.Receive.deliver_current ruknet.Layer.Receive.deliver_ordered
    ruknet.Layer.Receive.deliver ruknet.Layer.Receive.reassemble
    ruknet.Layer.Receive.handle_fragment ruknet.Layer.Receive.handle_fragments
    ruknet.Layer.Receive.handle_packet ruknet.Layer.Receive.ack_one ruknet.Layer.Receive.ack_all
    ruknet.Layer.Receive.handle_ack ruknet.Layer.Receive.handle_datagram
    ruknet.Layer.Send.priority_factor ruknet.Layer.Send.push ruknet.Layer.Send.weight_after
    ruknet.Layer.Send.init_next_weight ruknet.Layer.Send.get_next_weight ruknet.Layer.Send.stamp
    ruknet.Layer.Send.send ruknet.Layer.Update.pack ruknet.Layer.Update.resend_loop
    ruknet.Layer.Update.number_reliable ruknet.Layer.Update.outgoing_loop
    ruknet.Layer.Update.send_datagram ruknet.Layer.Update.mark_dead ruknet.Layer.Update.flush_acks
    ruknet.Layer.Update.flush_naks ruknet.Layer.Update.send_packets ruknet.Layer.Update.transmit
    ruknet.Layer.Update.update ruknet.Message.offline_from_u8 ruknet.Message.offline_to_u8
    ruknet.Message.online_from_u8 ruknet.Message.online_to_u8 ruknet.Net.eq_addr
    ruknet.Net.Table.find ruknet.Net.Table.put ruknet.Net.Table.remove ruknet.Peer.and_then
    ruknet.Peer.attempt ruknet.Peer.if_let ruknet.Peer.settle ruknet.Peer.Packets.parse
    ruknet.Peer.Online.try_get_addrs ruknet.Peer.Online.put_no_addrs ruknet.Reliability.from_u8
    ruknet.Reliability.to_u8 ruknet.Reliability.is_reliable ruknet.Reliability.is_sequenced
    ruknet.Reliability.is_ordered ruknet.Reliability.priority_index ruknet.Window.relative_index
    ruknet.Window.new ruknet.Window.insert ruknet.Window.shift_loop ruknet.Window.shift
handshake_connects = refl
