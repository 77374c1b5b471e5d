-- ===== src/Message.antt =====
-- src/proto/message.rs: the ids of the messages before a connection is open, and of those over it.
pub mod Laws
use ruknet.Base.{ℕ, Option, none, some, ◌==◌, if◌then◌else◌}

pub data OfflineMessageIds : Type 0 where
  unconnected_ping : OfflineMessageIds
  unconnected_pong : OfflineMessageIds
  open_connection_request1 : OfflineMessageIds
  open_connection_reply1 : OfflineMessageIds
  open_connection_request2 : OfflineMessageIds
  open_connection_reply2 : OfflineMessageIds
  already_connected : OfflineMessageIds
  no_free_incoming_connections : OfflineMessageIds
  connection_banned : OfflineMessageIds
  incompatible_protocol_version : OfflineMessageIds
  ip_recently_connected : OfflineMessageIds

unfoldable pub offline_from_u8 : ℕ → Option OfflineMessageIds
offline_from_u8 id =
    if id == 0x01
    then some unconnected_ping
    else if id == 0x1c
    then some unconnected_pong
    else if id == 0x05
    then some open_connection_request1
    else if id == 0x06
    then some open_connection_reply1
    else if id == 0x07
    then some open_connection_request2
    else if id == 0x08
    then some open_connection_reply2
    else if id == 0x12
    then some already_connected
    else if id == 0x14
    then some no_free_incoming_connections
    else if id == 0x17
    then some connection_banned
    else if id == 0x19
    then some incompatible_protocol_version
    else if id == 0x1a
    then some ip_recently_connected
    else none

unfoldable pub offline_to_u8 : OfflineMessageIds → ℕ
offline_to_u8 unconnected_ping = 0x01
offline_to_u8 unconnected_pong = 0x1c
offline_to_u8 open_connection_request1 = 0x05
offline_to_u8 open_connection_reply1 = 0x06
offline_to_u8 open_connection_request2 = 0x07
offline_to_u8 open_connection_reply2 = 0x08
offline_to_u8 already_connected = 0x12
offline_to_u8 no_free_incoming_connections = 0x14
offline_to_u8 connection_banned = 0x17
offline_to_u8 incompatible_protocol_version = 0x19
offline_to_u8 ip_recently_connected = 0x1a

pub data OnlineMessageIds : Type 0 where
  connected_ping : OnlineMessageIds
  connected_pong : OnlineMessageIds
  connection_request : OnlineMessageIds
  connection_request_accepted : OnlineMessageIds
  new_incoming_connection : OnlineMessageIds
  disconnection_notification : OnlineMessageIds

unfoldable pub online_from_u8 : ℕ → Option OnlineMessageIds
online_from_u8 id =
    if id == 0x00
    then some connected_ping
    else if id == 0x03
    then some connected_pong
    else if id == 0x09
    then some connection_request
    else if id == 0x10
    then some connection_request_accepted
    else if id == 0x13
    then some new_incoming_connection
    else if id == 0x15
    then some disconnection_notification
    else none

unfoldable pub online_to_u8 : OnlineMessageIds → ℕ
online_to_u8 connected_ping = 0x00
online_to_u8 connected_pong = 0x03
online_to_u8 connection_request = 0x09
online_to_u8 connection_request_accepted = 0x10
online_to_u8 new_incoming_connection = 0x13
online_to_u8 disconnection_notification = 0x15
