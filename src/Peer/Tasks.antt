-- ===== src/Peer/Tasks.antt =====
-- src/peer.rs, `start_recv_task` and `start_update_task`: one round of the loop of each task. What
-- wakes the update task is a parameter, as the choice among several is the runtime's.
use ruknet.Base.{
  ℕ, Bool, true, false, Option, none, some, List, [], ◌∷◌, ◌++◌, ltb, leb, if◌then◌else◌, length,
}
use ruknet.Net.{SocketAddr}
use ruknet.Net.Table.{Table}
use ruknet.Reliability.{immediate}
use ruknet.Proto.{min_packet_size}
use ruknet.Conn.{Conn}
use ruknet.Peer.{Peer, World, and_then, queue_size, close_conn_internal}
use ruknet.Peer.Cycle.{update_cycle}

-- What `recv_from` gives, or `none` for its error. A full queue holds the task: `none`.
unfoldable pub on_recv_from : {C : Type 0} → Option (SocketAddr × List ℕ) → Peer C → Option (Peer C)
on_recv_from none p = some p
on_recv_from {C = C} (some (addr, packet)) p =
    let queued : Peer C = record p { packet_queue = p.packet_queue ++ (addr, packet) ∷ [] } in
    if ltb (length packet) min_packet_size
    then some p
    else if leb queue_size (length p.packet_queue)
    then none
    else some queued

pub data Wake : Type 0 where
  close_notify : Wake
  command_notify : Wake
  packet_notify : Wake
  tick : Wake

unfoldable pub close_all : {C : Type 0} → Table (Conn C) → Peer C → Option (Peer C)
unfolding close_conn_internal
close_all [] p = some p
close_all ((addr, conn) ∷ conns) p =
    and_then (close_conn_internal addr immediate 0 p) (close_all conns)

-- The peer, and whether the task goes on.
unfoldable pub on_wake : {C : Type 0} → World C → Wake → ℕ → Peer C → Option (Peer C × Bool)
unfolding close_all update_cycle
on_wake w close_notify now p =
    and_then (close_all p.conns p) λ p. and_then (update_cycle w now p) λ p. some (p, false)
on_wake w command_notify now p = and_then (update_cycle w now p) λ p. some (p, true)
on_wake w packet_notify now p = and_then (update_cycle w now p) λ p. some (p, true)
on_wake w tick now p = and_then (update_cycle w now p) λ p. some (p, true)
