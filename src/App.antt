-- ===== src/App.antt =====
-- src/app.rs: what a peer tells the application. A text is its bytes.
use ruknet.Base.{ℕ, List}
use ruknet.Net.{SocketAddr}

pub data RukMessageContext : Type 0 where
  unconnected_ping : RukMessageContext
  unconnected_pong : (ping : ℕ) (ping_res : List ℕ) → RukMessageContext
  incompatible_protocol_version : (remote_proto_version : ℕ) → RukMessageContext
  connection_attempt_failed : RukMessageContext
  already_connected : RukMessageContext
  no_free_incoming_connections : RukMessageContext
  connection_banned : RukMessageContext
  ip_recently_connected : RukMessageContext
  connection_request_accepted : RukMessageContext
  new_incoming_connection : RukMessageContext
  app : (bytes : List ℕ) → RukMessageContext

pub record RukMessage : Type 0 where
  pub addr : SocketAddr
  pub guid : ℕ
  pub context : RukMessageContext
