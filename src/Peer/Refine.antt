-- ===== src/Peer/Refine.antt =====
-- src/peer.rs: an update cycle changes the connections of a peer by steps of the census.
use ruknet.Base.{ℕ, ◌≤◌, ◌≡◌, refl, none, some, List, [], ◌∷◌, arith, ltb, length}
use ruknet.Net.{SocketAddr}
use ruknet.Net.Table.{find, put, remove, keys, listed-find, keys-put, keys-remove, length-keys}
use ruknet.Reliability.{low}
use ruknet.Conn.{Conn}
use ruknet.Peer.{Peer, RukCommand, World, ban_addr_internal}
use ruknet.Peer.Cycle.{
  process_command, process_commands, process_datagram, process_stranger, process_unconnected,
  process_packet, process_packets, update_cycle,
}
use ruknet.Peer.Census.{
  census, closed, given_up, done, one, Steps-trans, IsCounted, Steps-IsCounted, IsLimited,
  Steps-IsLimited, Steps-limit,
}
use ruknet.Peer.Modes.{close_conn_internal-Frame}
use ruknet.Peer.Verified.{received-Frame}
use ruknet.Peer.Results.{
  Leaves-any, Yields, yields, stops, Yields_if, Yields-if_let, Yields-and_then, Yields-settle,
  Yields_mono, Yields_all, Yields_some,
}
use ruknet.Peer.Steps.{Goes, process_offline_packet-Goes}
use ruknet.Peer.Rounds.{send_or_log-Sends, request_loop-Within, conn_loop-Rounds}

put_same :
    {C : Type 0} (addr : SocketAddr) (conn conn' : Conn C) (p : Peer C)
    → find addr p.conns ≡ some conn
    → census (record p { conns = put addr conn' p.conns }) ≡ census p
put_same addr conn conn' p e = ground (arith, keys-put addr conn' p.conns)

module _ {C : Type 0} (now : ℕ) where
  process_command-Goes :
      (command : RukCommand) (p : Peer C) → Yields (Goes p) (process_command now command p)
  unfolding process_command
  process_command-Goes (RukCommand.send addr priority reliability channel bytes) p =
      Yields-if_let (Goes p) (find addr p.conns)
        (λ conn e.
          Yields-and_then (Goes p) (Yields_all {P = λ _. Unit {0}} _ (λ c. tt))
            λ conn' _. yields (done (put_same addr conn conn' p e)))
        (λ e. yields (done refl))
  process_command-Goes (RukCommand.close addr) p =
      Yields-if_let (Goes p) (find addr p.conns)
        (λ conn e. yields (
          one (
            closed addr (ground (arith, listed-find addr p.conns))
              (ground (arith, keys-remove addr p.conns)))))
        (λ e. yields (done refl))

  process_commands-Goes :
      (commands : List RukCommand) (p : Peer C) → Yields (Goes p) (process_commands now commands p)
  unfolding process_commands
  process_commands-Goes [] p = yields (done refl)
  process_commands-Goes (command ∷ commands) p =
      Yields-and_then (Goes p) (process_command-Goes command p)
        λ q s. Yields_mono (λ r t. Steps-trans s t) (process_commands-Goes commands q)

module _ {C : Type 0} (w : World C) (now : ℕ) where
  process_datagram-Goes :
      (addr : SocketAddr) (bytes : List ℕ) (conn : Conn C) (p : Peer C)
      → find addr p.conns ≡ some conn
      → Yields (Goes p) (process_datagram w now addr bytes conn p)
  unfolding process_datagram
  process_datagram-Goes addr bytes conn p e =
      Yields-settle (Goes p) (Leaves-any _)
        (λ layer _.
          Yields-and_then (Goes p) (received-Frame w now addr _ (record conn { layer = _ }) p)
            λ (conn', q) f. yields (
              done (
                ground (
                  arith,
                  keys-put addr conn' q.conns,
                  f.0.conns_same,
                  f.0.count_same,
                  f.0.limit_same,
                  f.0.requests_same,
                ))))
        (λ layer _.
          Yields_mono
            (λ q f. done (
              ground (
                arith,
                keys-put addr (record conn { layer = layer }) p.conns,
                f.conns_same,
                f.count_same,
                f.limit_same,
                f.requests_same,
              )))
            (close_conn_internal-Frame addr low 0 _))

  process_stranger-Goes :
      (addr : SocketAddr) (bytes : List ℕ) (p : Peer C)
      → find addr p.conns ≡ none
      → Yields (Goes p) (process_stranger w now addr bytes p)
  unfolding process_stranger ban_addr_internal
  process_stranger-Goes addr bytes p new =
      Yields-settle (Goes p) (process_offline_packet-Goes w now addr bytes p new) (λ q s. yields s)
        (λ q s. yields s)

  process_unconnected-Goes :
      (addr : SocketAddr) (bytes : List ℕ) (p : Peer C)
      → find addr p.conns ≡ none
      → Yields (Goes p) (process_unconnected w now addr bytes p)
  unfolding process_unconnected
  process_unconnected-Goes addr bytes p new =
      Yields-if_let (Goes p) (find addr p.ban_list)
        (λ ban_time e.
          Yields_if (Goes p) (ltb ban_time now)
            (λ _.
              Yields_if (Goes p) w.reentrant
                (λ _.
                  process_stranger-Goes addr bytes (record p { ban_list = remove addr p.ban_list })
                    new)
                (λ _. stops))
            (λ _. yields (done (send_or_log-Sends w now addr _ p).0)))
        (λ e. process_stranger-Goes addr bytes p new)

  process_packet-Goes :
      (addr : SocketAddr) (bytes : List ℕ) (p : Peer C)
      → Yields (Goes p) (process_packet w now addr bytes p)
  unfolding process_packet
  process_packet-Goes addr bytes p =
      Yields-if_let (Goes p) (find addr p.conns)
        (λ conn e. process_datagram-Goes addr bytes conn p e)
        (λ e. process_unconnected-Goes addr bytes p e)

  process_packets-Goes :
      (packets : List (SocketAddr × List ℕ)) (p : Peer C)
      → Yields (Goes p) (process_packets w now packets p)
  unfolding process_packets
  process_packets-Goes [] p = yields (done refl)
  process_packets-Goes ((addr, bytes) ∷ packets) p =
      Yields-and_then (Goes p) (process_packet-Goes addr bytes p)
        λ q s. Yields_mono (λ r t. Steps-trans s t) (process_packets-Goes packets q)

  -- Whatever packets and commands are queued, an update cycle that ends changes the connections, their
  -- count and the requests by steps of the census: it accepts an unknown address below the limit,
  -- opens a connection that was asked for, closes one that is there, or gives requests up.
  pub update_cycle-Goes : (p : Peer C) → Yields (Goes p) (update_cycle w now p)
  unfolding update_cycle
  update_cycle-Goes p =
      Yields-and_then (Goes p)
        (process_packets-Goes p.packet_queue (record p { packet_queue = [] }))
        λ q s.
          Yields-and_then (Goes p)
            (process_commands-Goes now q.command_queue (record q { command_queue = [] }))
            λ r t. Yields-and_then (Goes p) (request_loop-Within w now r.req_conns r) λ (left, u) x.
              Yields-and_then (Goes p)
                (conn_loop-Rounds w now u.conns (record u { req_conns = left }))
                λ (conns, v) y. yields (
                  Steps-trans s (
                    Steps-trans t (one (given_up (keys left) x.1 (ground (arith, x.0, y.1, y.0))))))

  -- If an update cycle returns, the count of connections is still the number of entries of the table,
  -- at the width of the counter, and no address has two entries, provided that both held before.
  pub update_cycle-IsCounted :
      (p q : Peer C) → update_cycle w now p ≡ some q → IsCounted (census p) → IsCounted (census q)
  update_cycle-IsCounted p q e i = Steps-IsCounted (Yields_some (update_cycle-Goes p) e) i

  -- A peer that asks for no connection, and whose connections are at most its limit of less than
  -- 2 ^ 64, has at most as many after an update cycle that returns, and still asks for none.
  pub update_cycle-IsLimited :
      (p q : Peer C)
      → update_cycle w now p ≡ some q
      → IsLimited (census p)
      → (length q.conns ≤ p.max_conn_count)
        × (q.max_conn_count ≡ p.max_conn_count)
        × IsLimited (census q)
  update_cycle-IsLimited p q e i =
      let steps = Yields_some (update_cycle-Goes p) e in
      let after = Steps-IsLimited steps i in
      let limit = Steps-limit steps in
      (omega (arith, after.counted, after.limited, limit, length-keys q.conns), limit, after)
