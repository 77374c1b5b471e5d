-- ===== src/Peer/Rounds.antt =====
-- src/peer.rs: the loops of an update cycle over the requests and over the connections.
use ruknet.Base.{
  ℕ, ◌/◌, ◌≡◌, ◌∙◌, ap, sym, refl, true, Option, none, some, List, [], ◌∷◌, ◌++◌, append-nil, arith,
  ◌||◌, ◌==◌, leb, ltb, length, Bool-cases, Option-cases, inl, inr,
}
use ruknet.Net.{SocketAddr, eq_addr}
use ruknet.Net.Table.{Table, keys, listed}
use ruknet.Reliability.{low}
use ruknet.Proto.{mtu_sizes}
use ruknet.Conn.{Conn, ReqConn}
use ruknet.Peer.{Peer, World, if_let, and_then, close_conn_internal, send_message, send_or_log}
use ruknet.Peer.Cycle.{
  request_step, keep_request, request_loop, process_remaining, after_update, conn_step, conn_loop,
  is_late, to_addr,
}
use ruknet.Peer.Census.{census}
use ruknet.Peer.Modes.{Frame, Frame-trans, close_conn_internal-Frame, process_message-Handles}
use ruknet.Peer.Verified.{punish-Kept}
use ruknet.Peer.Results.{
  Leaves-any, Yields, yields, stops, Yields_if, Yields-and_then, Yields-settle, Yields_mono,
  Yields_all, send_message-Yields,
}
use ruknet.Peer.Sends.{Sends, SendsOnly, SendsOnly-step, Sends-after}

module _ {C : Type 0} (w : World C) (now : ℕ) where
  pub send_or_log-Sends :
      (addr : SocketAddr) (bytes : List ℕ) (p : Peer C) → Sends addr p (send_or_log w addr bytes p)
  unfolding send_or_log if_let
  send_or_log-Sends addr bytes p = elim (Option-cases (w.send_to addr bytes)) [
    | inl e ↦ rw (e, send_or_log, if_let) (refl, bytes ∷ [], refl)
    | inr (n, e) ↦ rw (e, send_or_log, if_let) (refl, [], sym (append-nil p.sent))
  ]

  -- What is left of the requests, and the peer without them, which has sent to their addresses only.
  abbrev pub Within : Table ReqConn → Peer C → Table ReqConn × Peer C → Type 0
  Within reqs p (left, q) =
      (census q ≡ census p)
      × ((a : SocketAddr) → listed a (keys left) ≡ true → listed a (keys reqs) ≡ true)
      × SendsOnly (keys reqs) p q

  request_step-Sends :
      (addr : SocketAddr) (req : ReqConn) (p : Peer C)
      → Yields (λ (kept, q). Sends addr p q) (request_step w now addr req p)
  unfolding request_step send_message
  request_step-Sends addr req p =
      let none_sent : p.sent ≡ p.sent ++ to_addr addr [] = sym (append-nil p.sent) in
      Yields_if (λ (kept, q). Sends addr p q) (ltb req.next_req_time now)
        (λ _.
          Yields_if (λ (kept, q). Sends addr p q) (leb req.max_req_count req.req_count)
            (λ _.
              Yields-and_then (λ (kept, q). Sends addr p q) (send_message-Yields addr p.guid _ p)
                λ q only.
                  Yields_if (λ (kept, q). Sends addr p q) w.reentrant
                    (λ _. yields (ap census only, [], ap (λ r. r.sent) only ∙ none_sent))
                    (λ _. stops))
            (λ _.
              Yields_if (λ (kept, q). Sends addr p q) (req.max_req_count / length mtu_sizes == 0)
                (λ _. stops) (λ _. yields (send_or_log-Sends addr _ p))))
        (λ _. yields (refl, [], none_sent))

  keep_request_listed :
      (addr a : SocketAddr) (kept : Option ReqConn) (left reqs : Table ReqConn) (req : ReqConn)
      → (listed a (keys left) ≡ true → listed a (keys reqs) ≡ true)
      → listed a (keys (keep_request addr kept left)) ≡ true
      → listed a (keys ((addr, req) ∷ reqs)) ≡ true
  keep_request_listed addr a none left reqs req f h = ground (arith, f h)
  keep_request_listed addr a (some r) left reqs req f h = elim (Bool-cases (eq_addr addr a)) [
    | inl e ↦ rw e refl
    | inr e ↦ rw e (f (ground arith))
  ]

  pub request_loop-Within :
      (reqs : Table ReqConn) (p : Peer C) → Yields (Within reqs p) (request_loop w now reqs p)
  unfolding request_loop
  request_loop-Within [] p = yields (refl, (λ a h. h), λ a h. refl)
  request_loop-Within ((addr, req) ∷ reqs) p =
      Yields-and_then (Within ((addr, req) ∷ reqs) p) (request_step-Sends addr req p) λ (kept, q) s.
        Yields-and_then (Within ((addr, req) ∷ reqs) p) (request_loop-Within reqs q) λ (left, r) t.
          yields (
            t.0 ∙ s.0,
            (λ a h. keep_request_listed addr a kept left reqs req (t.1 a) h),
            SendsOnly-step addr (keys reqs) p q r s t.2,
          )

  remaining-Frame :
      (addr : SocketAddr) (msgs : List (List ℕ)) (conn : Conn C) (p : Peer C)
      → Yields (λ (conn', q). Frame p q) (process_remaining w now addr msgs (conn, p))
  unfolding process_remaining
  remaining-Frame addr [] conn p = yields (ground arith)
  remaining-Frame addr (msg ∷ msgs) conn p =
      Yields-settle (λ (conn', q). Frame p q) (process_message-Handles w now addr msg conn p)
        (λ (conn', q) h.
          Yields_mono (λ (conn'', r) k. Frame-trans h.0 k) (remaining-Frame addr msgs conn' q))
        (λ (conn', q) h.
          Yields-and_then (λ (conn', q). Frame p q) (punish-Kept w now addr conn' q)
            λ (conn'', r) k.
              Yields_mono (λ (conn'', s) l. Frame-trans (Frame-trans h.0 k.0) l)
                (remaining-Frame addr msgs conn'' r))

  closing-Frame :
      (addr : SocketAddr) (conn : Conn C) (p q : Peer C)
      → Frame p q
      → Yields
          (λ (conn', r). Frame p r)
          (and_then (close_conn_internal addr low 0 q) λ r. some (conn, r))
  closing-Frame addr conn p q f =
      Yields-and_then (λ (conn', r). Frame p r) (close_conn_internal-Frame addr low 0 q)
        λ r g. yields (Frame-trans f g)

  after_update-Frame :
      (addr : SocketAddr) (conn : Conn C) (p : Peer C)
      → Yields (λ (conn', q). Frame p q) (after_update w now addr (conn, p))
  unfolding after_update
  after_update-Frame addr conn p =
      Yields_if (λ (conn', q). Frame p q) (conn.layer.is_dead || is_late now conn)
        (λ _. closing-Frame addr conn p p (ground arith))
        (λ _.
          Yields-and_then (λ (conn', q). Frame p q) (Yields_all {P = λ _. Unit {0}} _ (λ c. tt))
            λ conn' _. remaining-Frame addr _ _ p)

  conn_step-Sends :
      (addr : SocketAddr) (conn : Conn C) (p : Peer C)
      → Yields (λ (conn', q). Sends addr p q) (conn_step w now addr (conn, p))
  unfolding conn_step
  conn_step-Sends addr conn p =
      Yields-and_then (λ (conn', q). Sends addr p q) (Yields_all {P = λ _. Unit {0}} _ (λ c. tt))
        λ conn' _.
          Yields-settle (λ (conn', q). Sends addr p q) (Leaves-any _)
            (λ (layer, sent) _.
              Yields_mono (λ (c, q) f. Sends-after addr p q sent f)
                (after_update-Frame addr (record conn' { layer = layer })
                  (record p { sent = p.sent ++ to_addr addr sent })))
            (λ (layer, sent) _.
              Yields_mono (λ (c, q) f. Sends-after addr p q sent f)
                (closing-Frame addr _ _ (record p { sent = p.sent ++ to_addr addr sent })
                  (ground arith)))

  abbrev pub Rounds : Table (Conn C) → Peer C → Table (Conn C) × Peer C → Type 0
  Rounds conns p (conns', q) =
      (census q ≡ census p) × (keys conns' ≡ keys conns) × SendsOnly (keys conns) p q

  pub conn_loop-Rounds :
      (conns : Table (Conn C)) (p : Peer C) → Yields (Rounds conns p) (conn_loop w now conns p)
  unfolding conn_loop
  conn_loop-Rounds [] p = yields (refl, refl, λ a h. refl)
  conn_loop-Rounds ((addr, conn) ∷ conns) p =
      Yields-and_then (Rounds ((addr, conn) ∷ conns) p) (conn_step-Sends addr conn p)
        λ (conn', q) s.
          Yields-and_then (Rounds ((addr, conn) ∷ conns) p) (conn_loop-Rounds conns q)
            λ (conns', r) t.
              yields (t.0 ∙ s.0, ap (◌∷◌ addr) t.1, SendsOnly-step addr (keys conns) p q r s t.2)
