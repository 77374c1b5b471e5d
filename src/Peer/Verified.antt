-- ===== src/Peer/Verified.antt =====
-- src/peer.rs: the messages of a datagram, handled one after the other, and what a connection must have
-- been sent before it is open.
use ruknet.Base.{ℕ, ◌≡◌, ◌∙◌, ap, refl, Bool, true, some, List, [], ◌∷◌, arith, ◌⊎◌, inl, inr}
use ruknet.Net.{SocketAddr}
use ruknet.Reliability.{low}
use ruknet.Conn.{Conn, ConnectMode, unverfied_sender, handling_connection_request, connected}
use ruknet.Layer.{get_timeout}
use ruknet.Peer.{Peer, World, Session, ban_addr_internal}
use ruknet.Peer.Cycle.{punish, process_received}
use ruknet.Peer.Results.{
  Yields, yields, Yields-and_then, Yields_mono, Yields-settle, Yields_all, Yields_some,
}
use ruknet.Peer.Modes.{
  Frame, Frame-trans, close_conn_internal-Frame, Transition, stays, requests, accepts, arrives,
  process_message-Handles, confirmed, requested,
}

-- The connection keeps its mode and number, the peer its connections.
abbrev pub Kept : {C : Type 0} → Session C → Session C → Type 0
Kept (conn, p) (conn', p') = Frame p p' × (conn' ≡ conn)

module _ {C : Type 0} (w : World C) (now : ℕ) (addr : SocketAddr) where
  pub punish-Kept : (conn : Conn C) (p : Peer C) → Yields (Kept (conn, p)) (punish addr (conn, p))
  unfolding punish ban_addr_internal
  punish-Kept conn p =
      Yields-and_then (Kept (conn, p))
        (close_conn_internal-Frame addr low 0 (ban_addr_internal addr (get_timeout conn.layer) p))
        λ q f. yields (ground arith, refl)

  -- The messages of a datagram leave the peer's connections, their count and limit and its requests as they are.
  pub received-Frame :
      (msgs : List (List ℕ)) (conn : Conn C) (p : Peer C)
      → Yields
          (λ (conn', p'). Frame p p' × (conn'.guid ≡ conn.guid))
          (process_received w now addr msgs (conn, p))
  unfolding process_received
  received-Frame [] conn p = yields (ground arith, refl)
  received-Frame (msg ∷ msgs) conn p =
      Yields-settle (λ (conn', p'). Frame p p' × (conn'.guid ≡ conn.guid))
        (process_message-Handles w now addr msg conn p)
        (λ (conn', p') h.
          Yields_mono (λ (conn'', p'') k. (Frame-trans h.0 k.0, k.1 ∙ h.2))
            (received-Frame msgs conn' p'))
        (λ (conn', p') h.
          Yields_mono (λ (conn'', p'') k. (Frame-trans h.0 k.0, ap Conn.guid k.1 ∙ h.2))
            (punish-Kept conn' p'))

handling_next :
    {id : ℕ} {m n : ConnectMode}
    → Transition id m n
    → m ≡ handling_connection_request
    → (n ≡ handling_connection_request) ⊎ (id ≡ 0x13)
handling_next (stays e) h = inl (e ∙ h)
handling_next (requests i e) h = inl e
handling_next (accepts i e f) h = absurd (cc)
handling_next (arrives i e f) h = inr i

unverified_next :
    {id : ℕ} {m n : ConnectMode}
    → Transition id m n
    → m ≡ unverfied_sender
    → (n ≡ unverfied_sender) ⊎ ((id ≡ 0x09) × (n ≡ handling_connection_request))
unverified_next (stays e) h = inl (e ∙ h)
unverified_next (requests i e) h = inr (i, e)
unverified_next (accepts i e f) h = absurd (cc)
unverified_next (arrives i e f) h = absurd (cc)

module _ {C : Type 0} (w : World C) (now : ℕ) (addr : SocketAddr) where
  abbrev OpenOnly : Bool → Session C → Type 0
  OpenOnly b (conn, p) = conn.connect_mode ≡ connected → b ≡ true

  open_confirmed :
      (msgs : List (List ℕ)) (conn : Conn C) (p : Peer C)
      → conn.connect_mode ≡ handling_connection_request
      → Yields (OpenOnly (confirmed msgs)) (process_received w now addr msgs (conn, p))
  unfolding process_received
  open_confirmed [] conn p h = yields (λ c. absurd (cc))
  open_confirmed (msg ∷ msgs) conn p h =
      Yields-settle (OpenOnly (confirmed (msg ∷ msgs)))
        (process_message-Handles w now addr msg conn p)
        (λ (conn', p') k. elim (handling_next k.1 h) [
          | inl m ↦ Yields_mono (λ (c, q) f o. ground (arith, f o)) (open_confirmed msgs conn' p' m)
          | inr i ↦ Yields_all _ (λ s o. ground arith)
        ])
        (λ (conn', p') k. elim (handling_next k.1 h) [
          | inl m ↦
              Yields_mono (λ (c, q) f o. absurd (ground (arith, f.1)))
                (punish-Kept w now addr conn' p')
          | inr i ↦ Yields_all _ (λ s o. ground arith)
        ])

  open_requested :
      (msgs : List (List ℕ)) (conn : Conn C) (p : Peer C)
      → conn.connect_mode ≡ unverfied_sender
      → Yields (OpenOnly (requested msgs)) (process_received w now addr msgs (conn, p))
  unfolding process_received
  open_requested [] conn p h = yields (λ c. absurd (cc))
  open_requested (msg ∷ msgs) conn p h =
      Yields-settle (OpenOnly (requested (msg ∷ msgs)))
        (process_message-Handles w now addr msg conn p)
        (λ (conn', p') k. elim (unverified_next k.1 h) [
          | inl m ↦ Yields_mono (λ (c, q) f o. ground (arith, f o)) (open_requested msgs conn' p' m)
          | inr (i, m) ↦
              Yields_mono (λ (c, q) f o. ground (arith, f o)) (open_confirmed msgs conn' p' m)
        ])
        (λ (conn', p') k. elim (unverified_next k.1 h) [
          | inl m ↦
              Yields_mono (λ (c, q) f o. absurd (ground (arith, f.1)))
                (punish-Kept w now addr conn' p')
          | inr (i, m) ↦
              Yields_mono (λ (c, q) f o. absurd (ground (arith, f.1)))
                (punish-Kept w now addr conn' p')
        ])

  -- If the messages of a datagram are handled and open a connection that was an unverified sender's,
  -- then a `ConnectionRequest` and after it a `NewIncomingConnection` are among them.
  pub process_received-requested :
      (msgs : List (List ℕ)) (conn conn' : Conn C) (p p' : Peer C)
      → conn.connect_mode ≡ unverfied_sender
      → process_received w now addr msgs (conn, p) ≡ some (conn', p')
      → conn'.connect_mode ≡ connected
      → requested msgs ≡ true
  process_received-requested msgs conn conn' p p' h e = Yields_some (open_requested msgs conn p h) e
