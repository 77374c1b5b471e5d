-- ===== src/Peer/Closing.antt =====
-- src/peer.rs: a connection that is closed, from the application's call to the end of the next cycle.
use ruknet.Base.{ℕ, ◌≡◌, ◌∙◌, refl, ap, false, none, some, List, [], ◌∷◌, ◌++◌, arith, leb, length}
use ruknet.Net.{SocketAddr}
use ruknet.Net.Table.{
  Table, find, keys, listed, listed-find, HasKeysOnce, find-remove, put-HasKeysOnce,
  remove-HasKeysOnce,
}
use ruknet.Peer.{
  Peer, RukCommand, World, queue_size, push_command, send_command_send, send_command_close,
  close_conn_internal,
}
use ruknet.Peer.Api.{close_conn}
use ruknet.Peer.Cycle.{process_packets, process_command, process_commands, update_cycle}
use ruknet.Peer.Results.{
  Yields, yields, stops, Yields_if, Yields-if_let, Yields-and_then, Yields_mono, Yields_all,
  Yields_some,
}
use ruknet.Peer.Census.{Census}
use ruknet.Peer.Sends.{sent_to}
use ruknet.Peer.Rounds.{request_loop-Within, conn_loop-Rounds}

-- A command leaves the requests and what has been sent, and no address gets two entries.
abbrev Quiet : {C : Type 0} → Peer C → Peer C → Type 0
Quiet p q = HasKeysOnce q.conns × (q.req_conns ≡ p.req_conns) × (q.sent ≡ p.sent)

module _ {C : Type 0} (now : ℕ) where
  process_command-Quiet :
      (command : RukCommand) (p : Peer C)
      → HasKeysOnce p.conns
      → Yields (Quiet p) (process_command now command p)
  unfolding process_command
  process_command-Quiet (RukCommand.send addr priority reliability channel bytes) p h =
      Yields-if_let (Quiet p) (find addr p.conns)
        (λ conn e.
          Yields-and_then (Quiet p) (Yields_all {P = λ _. Unit {0}} _ (λ c. tt))
            λ conn' _. yields (put-HasKeysOnce addr conn' p.conns h, refl, refl))
        (λ e. yields (h, refl, refl))
  process_command-Quiet (RukCommand.close addr) p h =
      Yields-if_let (Quiet p) (find addr p.conns)
        (λ conn e. yields (remove-HasKeysOnce addr p.conns h, refl, refl))
        (λ e. yields (h, refl, refl))

  -- The last command of the queue closes the connection.
  commands_closed :
      (commands : List RukCommand) (addr : SocketAddr) (p : Peer C)
      → HasKeysOnce p.conns
      → Yields
          (λ q. (find addr q.conns ≡ none) × (q.req_conns ≡ p.req_conns) × (q.sent ≡ p.sent))
          (process_commands now (commands ++ RukCommand.close addr ∷ []) p)
  unfolding process_commands process_command
  commands_closed [] addr p h =
      let P : Peer C → Type 0 =
        λ q. (find addr q.conns ≡ none) × (q.req_conns ≡ p.req_conns) × (q.sent ≡ p.sent) in
      Yields-and_then P
        (Yields-if_let P (find addr p.conns)
          (λ conn e. yields (find-remove addr p.conns h, refl, refl)) (λ e. yields (e, refl, refl)))
        λ q k. yields k
  commands_closed (command ∷ commands) addr p h =
      Yields-and_then
        (λ q. (find addr q.conns ≡ none) × (q.req_conns ≡ p.req_conns) × (q.sent ≡ p.sent))
        (process_command-Quiet command p h)
        λ q k.
          Yields_mono (λ r l. (l.0, l.1 ∙ k.1, l.2 ∙ k.2)) (commands_closed commands addr q k.0)

absent_of :
    {V : Type 0} (addr : SocketAddr) (t : Table V)
    → listed addr (keys t) ≡ false
    → find addr t ≡ none
absent_of addr t h = ground (arith, listed-find addr t)

module _ {C : Type 0} (w : World C) (now : ℕ) where
  cycle_closed :
      (commands : List RukCommand) (addr : SocketAddr) (p : Peer C)
      → HasKeysOnce p.conns
      → p.packet_queue ≡ []
      → p.command_queue ≡ commands ++ RukCommand.close addr ∷ []
      → find addr p.req_conns ≡ none
      → Yields
          (λ q. (find addr q.conns ≡ none) × (sent_to addr q.sent ≡ sent_to addr p.sent))
          (update_cycle w now p)
  unfolding update_cycle process_packets
  cycle_closed commands addr p h empty queue unasked =
      let P : Peer C → Type 0 =
        λ q. (find addr q.conns ≡ none) × (sent_to addr q.sent ≡ sent_to addr p.sent) in
      let p0 : Peer C = record p {
        packet_queue = [];
        command_queue = commands ++ RukCommand.close addr ∷ [];
      } in
      rw (empty, queue)
        (Yields-and_then {Q = λ x. x ≡ p0} P (yields refl) λ x same. rw same (
          Yields-and_then P (commands_closed now commands addr (record p0 { command_queue = [] }) h)
            λ r k. Yields-and_then P (request_loop-Within w now r.req_conns r) λ (left, u) x.
              Yields-and_then P (conn_loop-Rounds w now u.conns (record u { req_conns = left }))
                λ (conns, v) y.
                  let unlisted : listed addr (keys u.conns) ≡ false =
                    ap (λ (c : Census). listed addr c.members) x.0
                    ∙ ground (arith, listed-find addr r.conns, k.0) in
                  let unlisted' : listed addr (keys r.req_conns) ≡ false =
                    ground (arith, listed-find addr r.req_conns, k.1) in
                  yields (
                    absent_of addr conns (ap (listed addr) y.1 ∙ unlisted),
                    y.2 addr unlisted ∙ x.2 addr unlisted' ∙ ap (sent_to addr) k.2,
                  )))

  push_command_lem :
      (command : RukCommand) (p : Peer C)
      → Yields
          (λ q. q ≡ record p { command_queue = p.command_queue ++ command ∷ [] })
          (push_command command p)
  unfolding push_command
  push_command_lem command p =
      Yields_if (λ q. q ≡ record p { command_queue = p.command_queue ++ command ∷ [] })
        (leb queue_size (length p.command_queue)) (λ _. stops) (λ _. yields refl)

  -- What `close_conn` queues.
  abbrev Queues : SocketAddr → Peer C → Peer C → Type 0
  Queues addr p q =
      (q.conns ≡ p.conns)
      × (q.packet_queue ≡ p.packet_queue)
      × (q.req_conns ≡ p.req_conns)
      × (q.sent ≡ p.sent)
      × (commands : List RukCommand) × (q.command_queue ≡ commands ++ RukCommand.close addr ∷ [])

  close_conn-Queues : (addr : SocketAddr) (p : Peer C) → Yields (Queues addr p) (close_conn addr p)
  unfolding close_conn close_conn_internal send_command_send send_command_close push_command
  close_conn-Queues addr p = Yields-and_then (Queues addr p) (push_command_lem _ p) λ a e.
      Yields_mono
        (λ b f. (
          ap Peer.conns f ∙ ap Peer.conns e,
          ap Peer.packet_queue f ∙ ap Peer.packet_queue e,
          ap Peer.req_conns f ∙ ap Peer.req_conns e,
          ap Peer.sent f ∙ ap Peer.sent e,
          a.command_queue,
          ap Peer.command_queue f,
        ))
        (push_command_lem (RukCommand.close addr) a)

  -- When the application closes a connection of a peer with no packets and no request for the address, the next update cycle, if it
  -- returns, leaves no connection with it and has sent nothing to it: the notification that
  -- `close_conn` queues for it never goes out.
  pub close_conn_silent :
      (addr : SocketAddr) (p p' q : Peer C)
      → HasKeysOnce p.conns
      → p.packet_queue ≡ []
      → find addr p.req_conns ≡ none
      → close_conn addr p ≡ some p'
      → update_cycle w now p' ≡ some q
      → (find addr q.conns ≡ none) × (sent_to addr q.sent ≡ sent_to addr p.sent)
  close_conn_silent addr p p' q h empty unasked closing cycle =
      let queued = Yields_some (close_conn-Queues addr p) closing in
      let h' : HasKeysOnce p'.conns = rw queued.0 h in
      let result =
        Yields_some
          (cycle_closed queued.4 addr p' h' (queued.1 ∙ empty) queued.5
            (ap (find addr) queued.2 ∙ unasked))
          cycle in
      (result.0, result.1 ∙ ap (sent_to addr) queued.3)
