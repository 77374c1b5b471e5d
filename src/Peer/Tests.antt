-- ===== src/Peer/Tests.antt =====
-- Runs of the peer, and the peer's theorems at concrete inputs.
use mathlib.Core.Option.{Option}
use ruknet.Base.{
  ℕ, ◌≤◌, ◌≡◌, refl, true, none, some, List, [], ◌∷◌, arith, ok, err, fault, length, replicate,
  take, drop,
}
use ruknet.Error.{invalid_packet}
use ruknet.Buf.{list_buf}
use ruknet.Buf.Laws.{list_buf-IsBuf}
use ruknet.Net.{eq_addr}
use ruknet.Net.Table.{find, put, remove}
use ruknet.Codec.Decode.{try_advance, try_get_addr, addr_v4, try_get_octets}
use ruknet.Codec.Encode.{put_addr}
use ruknet.Reliability.{
  immediate, unreliable, reliable_ordered, is_sequenced, is_ordered, is_reliable,
}
use ruknet.Message.{offline_from_u8, offline_to_u8, online_to_u8, online_from_u8}
use ruknet.Cache
use ruknet.Layer
use ruknet.Layer.{default_timeout}
use ruknet.Layer.Send
use ruknet.Datagram.{calc_full_size, calc_header_size}
use ruknet.Layer.Update.{update, flush_acks, mark_dead, flush_naks}
use ruknet.App.{RukMessageContext}
use ruknet.Conn.{
  Conn, ReqConn, unverfied_sender, requested_connection, handling_connection_request, connected,
  new_conn,
}
use ruknet.Peer.{
  Peer, and_then, if_let, settle, attempt, chain, try_send, ban_addr_internal, send_to_conn,
  send_ping_to_conn,
}
use ruknet.Peer.Api.{close_conn, recv_many}
use ruknet.Peer.Api.Laws.{recv_many_lem}
use ruknet.Peer.Packets.{
  parse, request1_bytes, reply1_bytes, request2_bytes, reply2_bytes, connection_request_bytes,
}
use ruknet.Peer.Offline.{process_offline_packet, add_conn, open_requested}
use ruknet.Peer.Online.{
  try_get_addrs, put_no_addrs, accepted_bytes, new_incoming_bytes, process_message,
}
use ruknet.Peer.Cycle.{process_received, process_packet, update_cycle}
use ruknet.Peer.Census.{census, IsCounted, IsLimited}
use ruknet.Peer.Results.{Leaves, Yields}
use ruknet.Peer.Modes.{Handles, process_message-Handles, requested}
use ruknet.Peer.Answers.{Answers}
use ruknet.Peer.Total.{HasPackets, told, Keeps, process_message-Answers}
use ruknet.Peer.Verified.{process_received-requested}
use ruknet.Peer.Steps.{Goes}
use ruknet.Peer.Refine.{update_cycle-Goes, update_cycle-IsCounted, update_cycle-IsLimited}
use ruknet.Peer.Bans.{after_ban, process_packet-refused, bad_packet_twice}
use ruknet.Peer.Handshake.{request1-reply1, handshake_lem}
use ruknet.Peer.Greeting.{greeting_lem}
use ruknet.Peer.Sends.{sent_to}
use ruknet.Peer.Closing.{close_conn_silent}
use ruknet.Peer.Runs.{fixed, world, here, there, idle}

unwrap : Option (Peer ℕ) → Peer ℕ
unwrap none = idle
unwrap (some p) = p

-- A peer that another one's second request has come to.
abbrev knocked : Peer ℕ
knocked = record idle {
  addr = there;
  packet_queue = (here, request2_bytes list_buf none there 1492 77) ∷ [];
}

abbrev knocked_after : Peer ℕ
knocked_after = unwrap (update_cycle world 101 knocked)

-- One cycle with all that it calls.
cycle : ℕ → Peer ℕ → Option (Peer ℕ)
unfolding update_cycle and_then if_let settle parse attempt chain try_get_addr try_advance put_addr
    find offline_from_u8 offline_to_u8 addr_v4 try_get_octets put update flush_acks mark_dead
    Layer.new flush_naks Cache.is_empty Cache.new Cache.relative_index Layer.recv
cycle = update_cycle world

knocked_returns : update_cycle world 101 knocked ≡ some knocked_after
unfolding cycle unwrap request2_bytes
knocked_returns = refl

update_cycle-Goes_example : Yields (Goes knocked) (update_cycle world 101 knocked)
update_cycle-Goes_example = update_cycle-Goes world 101 knocked

update_cycle-IsCounted_example : IsCounted (census knocked_after)
update_cycle-IsCounted_example =
    update_cycle-IsCounted world 101 knocked knocked_after knocked_returns
      (record { counted = refl; distinct = tt })

update_cycle-IsLimited_example :
    (length knocked_after.conns ≤ 4)
    × (knocked_after.max_conn_count ≡ 4)
    × IsLimited (census knocked_after)
update_cycle-IsLimited_example =
    update_cycle-IsLimited world 101 knocked knocked_after knocked_returns
      (record { counted = refl; limited = omega arith; small = omega arith; idle = refl })

abbrev conn : Conn ℕ
conn = new_conn fixed 0 88 unverfied_sender 1492

-- A connection request, and what follows the answer to it.
abbrev request : List ℕ
request = connection_request_bytes list_buf 77 5

abbrev arrival : List ℕ
arrival = new_incoming_bytes list_buf there 6 7

process_message-Handles_example :
    Leaves (Handles 9 (conn, idle)) (process_message world 5 here request (conn, idle))
unfolding connection_request_bytes online_to_u8
process_message-Handles_example = process_message-Handles world 5 here request conn idle

conn-HasPackets : HasPackets conn
unfolding new_conn Layer.new
conn-HasPackets = (omega arith, omega arith)

process_message-Answers_example :
    Answers (Keeps (conn, idle)) (process_message world 5 here request (conn, idle))
process_message-Answers_example =
    process_message-Answers world list_buf-IsBuf 5 here request conn idle conn-HasPackets
      (omega arith, omega arith)

refused_packet :
    process_offline_packet world 5 here (replicate 30 0xff) idle
    ≡ err (invalid_packet "invalid offline message id.", idle)
unfolding process_offline_packet if_let offline_from_u8
refused_packet = refl

process_packet-refused_example :
    process_packet world 5 here (replicate 30 0xff) idle ≡ some (ban_addr_internal here 10000 idle)
unfolding find
process_packet-refused_example =
    process_packet-refused world 5 here idle refl refl (replicate 30 0xff)
      (invalid_packet "invalid offline message id.") idle refused_packet (λ n. cc)

abbrev two_messages : Peer ℕ
two_messages = record idle {
  message_queue =
      record { addr = here; guid = 7; context = RukMessageContext.connection_banned }
      ∷ record { addr = there; guid = 8; context = RukMessageContext.app (1 ∷ []) }
      ∷ [];
}

-- The peer after a bad packet, once it has taken a message for its application.
abbrev banning : Peer ℕ
banning = ban_addr_internal here default_timeout two_messages

bad_packet_twice_example :
    (process_packet world 700 here (1 ∷ []) idle
      ≡ some (ban_addr_internal here default_timeout idle))
    × (process_packet world 20000 here (2 ∷ []) banning
        ≡ after_ban world 20000 here (2 ∷ []) banning)
unfolding find ban_addr_internal
bad_packet_twice_example =
    bad_packet_twice world 700 here idle refl refl (1 ∷ []) (2 ∷ []) 20000 banning (omega arith)
      refl refl

request1-reply1_example :
    process_offline_packet world 5 here (request1_bytes list_buf 1200) idle
    ≡ try_send world here (reply1_bytes list_buf 77 1200) idle
request1-reply1_example = request1-reply1 world list_buf-IsBuf 5 here 1200 idle (omega arith)

recv_many_lem_example :
    recv_many 64 1 two_messages
    ≡ some (
      take 1 two_messages.message_queue,
      record two_messages { message_queue = drop 1 two_messages.message_queue },
    )
recv_many_lem_example = recv_many_lem 64 1 two_messages

abbrev req : ReqConn
req = record {
  addr = there;
  next_req_time = 0;
  req_count = 0;
  max_req_count = 12;
  req_interval = 500;
  timeout = none;
}

abbrev client : Peer ℕ
client = record idle { req_conns = (there, req) ∷ [] }

abbrev server : Peer ℕ
server = record idle { addr = there; guid = 88 }

handshake_lem_example :
    (process_offline_packet world 5 there (reply1_bytes list_buf 88 1200) client
      ≡ try_send world there (request2_bytes list_buf none there 1200 77) client)
    × (process_offline_packet world 5 here (request2_bytes list_buf none there 1200 77) server
        ≡ try_send world here
            (reply2_bytes list_buf 88 here 1200)
            (add_conn world here (new_conn fixed 5 77 unverfied_sender 1200) server))
    × (process_offline_packet world 5 there (reply2_bytes list_buf 88 here 1200) client
        ≡ attempt
            (open_requested world 5 req (new_conn fixed 5 88 unverfied_sender 1200) 77)
            λ conn. ok (
              add_conn world there conn
                (record client { req_conns = remove there client.req_conns })))
unfolding find eq_addr
handshake_lem_example =
    handshake_lem world list_buf-IsBuf 5 here there 1200 req client server refl (omega arith)
      (omega arith) (omega arith) (omega arith) (omega arith) (omega arith)

abbrev requesting : Conn ℕ
requesting = record conn { connect_mode = requested_connection }

abbrev handling : Conn ℕ
handling = record conn { connect_mode = handling_connection_request }

greeting_lem_example :
    ((server' : Conn ℕ) × (send_to_conn 20 immediate reliable_ordered 0
          (accepted_bytes list_buf here 10 20)
          (record conn { connect_mode = handling_connection_request })
        ≡ some server')
      × (process_message world 20 here (connection_request_bytes list_buf 77 10) (conn, server)
          ≡ ok (server', server))
      × (server'.connect_mode ≡ handling_connection_request))
    × ((client' client'' : Conn ℕ) × (send_to_conn 30 immediate reliable_ordered 0
            (new_incoming_bytes list_buf here 20 30)
            (record requesting { ping = 20; connect_mode = connected })
          ≡ some client')
        × (send_ping_to_conn world 30 unreliable client' ≡ some client'')
        × (process_message world 30 there (accepted_bytes list_buf here 10 20) (requesting, client)
            ≡ ok (
              client'',
              told there requesting.guid RukMessageContext.connection_request_accepted client,
            ))
        × (client''.connect_mode ≡ connected)
        × (client''.ping ≡ 20))
    × ((asked' : Conn ℕ) × (send_ping_to_conn world 40 unreliable
            (record handling { connect_mode = connected })
          ≡ some asked')
        × (process_message world 40 here (new_incoming_bytes list_buf here 20 30) (handling, server)
            ≡ ok (
              record asked' { ping = 20 },
              told here asked'.guid RukMessageContext.new_incoming_connection server,
            ))
        × (asked'.connect_mode ≡ connected))
unfolding new_conn
greeting_lem_example =
    greeting_lem world list_buf-IsBuf here there 10 20 30 40 requesting conn handling client server
      refl refl (omega arith) (omega arith) (omega arith) (omega arith) (omega arith)
      conn-HasPackets conn-HasPackets conn-HasPackets (omega arith) (omega arith)

-- A peer with one connection, which is closed.
abbrev closing : Peer ℕ
closing = unwrap (close_conn there (record idle { conn_count = 1; conns = (there, conn) ∷ [] }))

abbrev closed_peer : Peer ℕ
closed_peer = unwrap (cycle 101 closing)

close_conn_silent_example :
    (find there closed_peer.conns ≡ none) × (sent_to there closed_peer.sent ≡ sent_to there [])
unfolding unwrap cycle close_conn eq_addr Send.send is_sequenced is_ordered Send.stamp is_reliable
    calc_full_size calc_header_size remove
close_conn_silent_example =
    close_conn_silent world 101 there (record idle { conn_count = 1; conns = (there, conn) ∷ [] })
      closing closed_peer (tt, tt) refl refl refl refl

opened : Option (Conn ℕ × Peer ℕ)
unfolding process_received process_message
opened = process_received world 5 here (request ∷ arrival ∷ []) (conn, idle)

opened_conn : Option (Conn ℕ × Peer ℕ) → Conn ℕ
opened_conn none = conn
opened_conn (some (c, p)) = c

opened_peer : Option (Conn ℕ × Peer ℕ) → Peer ℕ
opened_peer none = idle
opened_peer (some (c, p)) = p

process_received-requested_example : requested (request ∷ arrival ∷ []) ≡ true
unfolding opened opened_conn opened_peer new_conn settle parse attempt if_let and_then try_get_addr
    try_get_addrs put_addr put_no_addrs addr_v4 try_get_octets Send.send is_sequenced is_ordered
    Send.stamp is_reliable calc_full_size calc_header_size connection_request_bytes online_to_u8
    online_from_u8 Layer.new Send.get_next_weight Send.init_next_weight
process_received-requested_example =
    process_received-requested world 5 here (request ∷ arrival ∷ []) conn (opened_conn opened) idle
      (opened_peer opened) refl refl refl

-- A reply that names an MTU of 48 leaves no room for a piece of the request.
tiny_mtu : process_offline_packet world 5 there (reply2_bytes list_buf 88 here 48) client ≡ fault
unfolding process_offline_packet if_let offline_from_u8 offline_to_u8 parse try_advance try_get_addr
    addr_v4 try_get_octets find eq_addr attempt settle Send.send is_sequenced is_ordered Send.stamp
    Cache.new put_addr new_conn calc_full_size calc_header_size Send.split_fragment Send.split_loop
    Layer.new online_to_u8 put remove open_requested connection_request_bytes reply2_bytes chain
    send_to_conn is_reliable
tiny_mtu = refl
