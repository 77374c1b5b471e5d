-- ===== src/Conn.antt =====
-- src/conn.rs: a connection, and a connection that is asked for.
use ruknet.Base.{ℕ, Bool, true, false, Option}
use ruknet.Net.{SocketAddr}
use ruknet.Congestion.{CongestionController}
use ruknet.Layer.{Layer}
use ruknet.Layer

pub record ReqConn : Type 0 where
  pub addr : SocketAddr
  pub next_req_time : ℕ
  pub req_count : ℕ
  pub max_req_count : ℕ
  pub req_interval : ℕ
  pub timeout : Option ℕ

unfoldable pub new_req : ℕ → SocketAddr → ℕ → ℕ → Option ℕ → ReqConn
new_req now addr req_interval max_req_count timeout = record {
  addr = addr;
  next_req_time = now;
  req_count = 0;
  max_req_count = max_req_count;
  req_interval = req_interval;
  timeout = timeout;
}

pub data ConnectMode : Type 0 where
  unverfied_sender : ConnectMode
  requested_connection : ConnectMode
  handling_connection_request : ConnectMode
  connected : ConnectMode

-- `==` on modes
unfoldable pub eq_mode : ConnectMode → ConnectMode → Bool
eq_mode unverfied_sender unverfied_sender = true
eq_mode requested_connection requested_connection = true
eq_mode handling_connection_request handling_connection_request = true
eq_mode connected connected = true
eq_mode _ _ = false

-- The layer's congestion controller has the state `C`.
pub record Conn (C : Type 0) : Type 0 where
  pub guid : ℕ
  pub create_time : ℕ
  pub next_ping_time : ℕ
  pub ping : ℕ
  pub connect_mode : ConnectMode
  pub layer : Layer C
  pub last_reliable_send : ℕ

unfoldable pub new_conn : {C : Type 0} → CongestionController C → ℕ → ℕ → ConnectMode → ℕ → Conn C
new_conn controller now guid connect_mode mtu_size = record {
  guid = guid;
  create_time = now;
  next_ping_time = now;
  ping = 0;
  connect_mode = connect_mode;
  layer = Layer.new controller now mtu_size;
  last_reliable_send = now;
}
