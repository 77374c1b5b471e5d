-- ===== src/Peer/Bans.antt =====
-- src/peer.rs: a packet that cannot be handled, and the ban that follows it.
use ruknet.Base.{
  ℕ, ◌<◌, ◌≡◌, ◌≢◌, ◌∙◌, refl, Bool, true, false, Option, none, some, List, [], ◌∷◌, ◌++◌, leb, ltb,
  lt→ltb, get_or, length, Result, ok, err, fault, ◌==◌, if◌then◌else◌,
}
use ruknet.Error.{PeerError, failed_to_send, invalid_packet}
use ruknet.Net.{SocketAddr}
use ruknet.Net.Table.{find, put, remove, find-put}
use ruknet.Net.{eq_addr_refl}
use ruknet.Codec.Decode.{Parser}
use ruknet.Error.{RukBytesError}
use ruknet.Message.{
  OfflineMessageIds, offline_from_u8, unconnected_ping, unconnected_pong, open_connection_request1,
  open_connection_reply1, open_connection_request2, open_connection_reply2, already_connected,
  no_free_incoming_connections, connection_banned, incompatible_protocol_version,
  ip_recently_connected,
}
use ruknet.Proto.{protocol_version, min_offline_packet_size}
use ruknet.Layer.{default_timeout}
use ruknet.Peer.{
  Peer, World, Outcome, attempt, chain, if_let, settle, try_send, send_or_log, register_conn,
  ban_addr_internal,
}
use ruknet.Peer.Packets.{parse, guid_bytes}
use ruknet.Peer.Offline.{
  on_unconnected_ping, on_unconnected_pong, on_request1, on_reply1, on_request2, on_reply2,
  on_incompatible, on_refusal, on_offline_message, process_offline_packet,
}
use ruknet.Peer.Cycle.{process_stranger, process_unconnected, process_packet}

-- An error is the socket's, or it leaves the peer `p` as it was.
data IsClean {C : Type 0} (p : Peer C) : Outcome C → Type 0 where
  returns : {q : Peer C} → IsClean p (ok q)
  refused : {e : PeerError} → IsClean p (err (e, p))
  unsent : {n : ℕ} {q : Peer C} → IsClean p (err (failed_to_send n, q))
  faulty : IsClean p fault

module _ {C : Type 0} (p : Peer C) where
  IsClean-parse {ℓ} :
      {A : Type ℓ} (reader : Parser A) (bytes : List ℕ) {k : A → List ℕ → Outcome C}
      → ((a : A) (rest : List ℕ) → IsClean p (k a rest))
      → IsClean p (parse reader bytes p k)
  unfolding parse
  IsClean-parse {A = A} reader bytes {k} f = go (reader bytes)
    where
      go :
          (x : Result RukBytesError (A × List ℕ))
          → IsClean p (elim x [
            | ok (a, rest) ↦ k a rest
            | err e ↦ err (PeerError.ruk_bytes e, p)
            | fault ↦ fault
          ])
      go (ok (a, rest)) = f a rest
      go (err e) = refused
      go fault = faulty

  IsClean-if_let {ℓ} :
      {A : Type ℓ} (o : Option A) {f : A → Outcome C} {r : Outcome C}
      → ((a : A) → IsClean p (f a))
      → IsClean p r
      → IsClean p (if_let o f r)
  unfolding if_let
  IsClean-if_let none f g = g
  IsClean-if_let (some a) f g = f a

  IsClean-if :
      (b : Bool) {x y : Outcome C} → IsClean p x → IsClean p y → IsClean p (if b then x else y)
  IsClean-if true x y = x
  IsClean-if false x y = y

  IsClean-attempt :
      {A : Type 0} (o : Option A) {f : A → Outcome C}
      → ((a : A) → IsClean p (f a))
      → IsClean p (attempt o f)
  unfolding attempt
  IsClean-attempt none f = faulty
  IsClean-attempt (some a) f = f a

  IsClean-sent :
      (w : World C) (addr : SocketAddr) (bytes : List ℕ) (q : Peer C) {f : Peer C → Outcome C}
      → ((r : Peer C) → IsClean p (f r))
      → IsClean p (chain (try_send w addr bytes q) f)
  unfolding chain try_send if_let
  IsClean-sent w addr bytes q {f} k = go (w.send_to addr bytes)
    where
      go :
          (o : Option ℕ)
          → IsClean p (
              chain
                (if_let o
                  (λ e. err (failed_to_send e, q))
                  (ok (record q { sent = q.sent ++ (addr, bytes) ∷ [] })))
                f)
      go none = k _
      go (some e) = unsent

  IsClean-send :
      (w : World C) (addr : SocketAddr) (bytes : List ℕ) (q : Peer C)
      → IsClean p (try_send w addr bytes q)
  unfolding try_send if_let
  IsClean-send w addr bytes q = go (w.send_to addr bytes)
    where
      go :
          (o : Option ℕ)
          → IsClean p (
              if_let o
                (λ e. err (failed_to_send e, q))
                (ok (record q { sent = q.sent ++ (addr, bytes) ∷ [] })))
      go none = returns
      go (some e) = unsent

  on_offline_message-IsClean :
      (w : World C) (id : OfflineMessageIds) (now : ℕ) (addr : SocketAddr) (bytes : List ℕ)
      → IsClean p (on_offline_message w id now addr bytes p)
  unfolding on_offline_message on_unconnected_ping on_unconnected_pong on_request1 on_reply1
      on_request2 on_reply2 on_incompatible on_refusal
  on_offline_message-IsClean w unconnected_ping now addr bytes =
      IsClean-if (leb p.max_conn_count p.conn_count) returns (
        IsClean-parse _ _
          λ (t, g) rest. IsClean-sent w addr _ p (λ r. IsClean-attempt _ λ q. returns))
  on_offline_message-IsClean w unconnected_pong now addr bytes =
      IsClean-parse _ _ λ (t, g, s) rest. IsClean-attempt _ λ q. returns
  on_offline_message-IsClean w open_connection_request1 now addr bytes = IsClean-parse _ _ λ v rest.
      IsClean-if (v == protocol_version) (IsClean-send w addr _ p) (IsClean-send w addr _ p)
  on_offline_message-IsClean w open_connection_reply1 now addr bytes =
      IsClean-parse _ _ λ cookie rest.
        IsClean-if_let (find addr p.req_conns)
          (λ req. IsClean-parse _ _ λ mtu rest. IsClean-send w addr _ p) returns
  on_offline_message-IsClean w open_connection_request2 now addr bytes =
      IsClean-parse _ _ λ (b, m, g) rest.
        IsClean-if (leb p.max_conn_count p.conn_count) (IsClean-send w addr _ p) (
          IsClean-if_let (register_conn w now addr g b _ m false) (λ conn. IsClean-send w addr _ _)
            (IsClean-send w addr _ p))
  on_offline_message-IsClean w open_connection_reply2 now addr bytes =
      IsClean-parse _ _ λ (g, b, m, s) rest.
        IsClean-if_let (find addr p.req_conns)
          (λ req.
            IsClean-if_let (register_conn w now addr g b _ m s)
              (λ conn. IsClean-attempt _ (λ c. returns)) returns)
          returns
  on_offline_message-IsClean w incompatible_protocol_version now addr bytes =
      IsClean-parse _ _ λ (v, g) rest. IsClean-attempt _ λ q. returns
  on_offline_message-IsClean w already_connected now addr bytes =
      IsClean-parse _ _ λ g rest. IsClean-attempt _ λ q. returns
  on_offline_message-IsClean w no_free_incoming_connections now addr bytes =
      IsClean-parse _ _ λ g rest. IsClean-attempt _ λ q. returns
  on_offline_message-IsClean w connection_banned now addr bytes =
      IsClean-parse _ _ λ g rest. IsClean-attempt _ λ q. returns
  on_offline_message-IsClean w ip_recently_connected now addr bytes =
      IsClean-parse _ _ λ g rest. IsClean-attempt _ λ q. returns

  process_offline_packet-IsClean :
      (w : World C) (now : ℕ) (addr : SocketAddr) (bytes : List ℕ)
      → IsClean p (process_offline_packet w now addr bytes p)
  unfolding process_offline_packet
  process_offline_packet-IsClean w now addr bytes =
      IsClean-if (ltb (length bytes) min_offline_packet_size) refused (
        IsClean-if_let (offline_from_u8 (get_or bytes 0 0))
          (λ id. on_offline_message-IsClean w id now addr _) refused)

clean_err :
    {C : Type 0} {p q : Peer C} {e : PeerError} {x : Outcome C}
    → IsClean p x
    → x ≡ err (e, q)
    → ((n : ℕ) → e ≢ failed_to_send n)
    → q ≡ p
clean_err returns h k = absurd (cc)
clean_err refused h k = cc
clean_err (unsent {n = n}) h k = absurd (k n (cc))
clean_err faulty h k = absurd (cc)

-- What becomes of a packet once the ban of its address is over.
unfoldable pub after_ban :
    {C : Type 0} → World C → ℕ → SocketAddr → List ℕ → Peer C → Option (Peer C)
after_ban w now addr bytes p =
    if w.reentrant
    then process_stranger w now addr bytes (record p { ban_list = remove addr p.ban_list })
    else none

banned_packet :
    {C : Type 0} (w : World C) (now : ℕ) (addr : SocketAddr) (bytes : List ℕ) (p : Peer C) (t : ℕ)
    → find addr p.conns ≡ none
    → find addr p.ban_list ≡ some t
    → process_packet w now addr bytes p ≡ (
        if ltb t now
        then after_ban w now addr bytes p
        else some (send_or_log w addr (guid_bytes w.buf connection_banned p.guid) p))
unfolding process_packet process_unconnected if_let after_ban
banned_packet w now addr bytes p t new banned = rw (new, banned) refl

module _ {C : Type 0} (w : World C) (now : ℕ) (addr : SocketAddr) (p : Peer C)
    (new : find addr p.conns ≡ none) (unbanned : find addr p.ban_list ≡ none) where
  -- If the handler of a packet from an address with no connection and no ban returns an error that
  -- is not the socket's, then all that the packet changes of the peer is that the address is banned.
  pub process_packet-refused :
      (bytes : List ℕ) (e : PeerError) (q : Peer C)
      → process_offline_packet w now addr bytes p ≡ err (e, q)
      → ((n : ℕ) → e ≢ failed_to_send n)
      → process_packet w now addr bytes p ≡ some (ban_addr_internal addr default_timeout p)
  unfolding process_packet process_unconnected process_stranger if_let settle
  process_packet-refused bytes e q h k =
      let same = clean_err (process_offline_packet-IsClean p w now addr bytes) h k in
      rw (new, unbanned, h, same) refl

  -- A packet of fewer than 25 bytes from an address with no connection and no ban bans it. While the
  -- ban is listed and no connection made, one from there is answered as banned, and no more, up
  -- to 10 seconds of run. Later it is handled without the ban or, if a `DashMap` is not reentrant,
  -- waits for ever.
  pub bad_packet_twice :
      (bad bytes : List ℕ) (later : ℕ) (q : Peer C)
      → length bad < 25
      → find addr q.conns ≡ none
      → find addr q.ban_list ≡ find addr (ban_addr_internal addr default_timeout p).ban_list
      → (process_packet w now addr bad p ≡ some (ban_addr_internal addr default_timeout p))
        × (process_packet w later addr bytes q ≡ (
            if ltb default_timeout later
            then after_ban w later addr bytes q
            else some (send_or_log w addr (guid_bytes w.buf connection_banned q.guid) q)))
  unfolding process_offline_packet ban_addr_internal
  bad_packet_twice bad bytes later q short still kept =
      let first =
        process_packet-refused bad (invalid_packet "packet is too small.") p
          (rw (lt→ltb (length bad) 25 short) refl) (λ n. cc) in
      let listed : find addr (put addr default_timeout p.ban_list) ≡ some default_timeout =
        rw (find-put addr addr default_timeout p.ban_list, eq_addr_refl addr) refl in
      (first, banned_packet w later addr bytes q default_timeout still (kept ∙ listed))
