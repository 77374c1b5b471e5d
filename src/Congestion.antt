-- ===== src/Congestion.antt =====
-- src/reliability/congestion_controller/mod.rs: what the layer asks of a congestion controller.
pub mod Sliding
pub mod Udt
use ruknet.Base.{ℕ, Bool, Option}

-- The trait. `C` is the controller's state; what takes `&mut self` returns the new state. A float is
-- its bit pattern.
pub record CongestionController (C : Type 0) : Type 0 where
  pub new : ℕ → C
  pub should_send_ack : C → ℕ → ℕ → Bool
  pub is_in_slow_start : C → Bool
  pub get_seq_and_increment : C → ℕ × C
  pub get_transmission_bandwidth : C → ℕ → ℕ → Bool → ℕ × C
  pub get_rto : C → ℕ
  pub on_resend : C → ℕ → C
  pub on_recv_ack : C → ℕ → ℕ → Option ℕ → ℕ → ℕ → Bool → C
  pub on_recv_nak : C → C
  pub on_recv_packet : C → ℕ → ℕ → Bool → C
  pub on_send_ack : C → Bool → Option ℕ → Option ℕ × C
  pub on_send_packet : C → ℕ → C
