-- ===== src/Peer/Sends.antt =====
-- src/peer.rs: to whom a part of an update cycle sends datagrams.
use ruknet.Base.{
  ℕ, ◌≡◌, ◌∙◌, ap, refl, false, List, [], ◌∷◌, ◌++◌, append-nil, if◌then◌else◌, arith,
}
use ruknet.Net.{SocketAddr, eq_addr}
use ruknet.Net.Table.{listed}
use ruknet.Peer.{Peer}
use ruknet.Peer.Cycle.{to_addr}
use ruknet.Peer.Census.{census}
use ruknet.Peer.Modes.{Frame}

abbrev pub sent_to : SocketAddr → List (SocketAddr × List ℕ) → List (List ℕ)
sent_to a [] = []
sent_to a ((k, bytes) ∷ sent) =
    let others = sent_to a sent in if eq_addr k a then bytes ∷ others else others

sent_to-append :
    (a : SocketAddr) (xs ys : List (SocketAddr × List ℕ))
    → sent_to a (xs ++ ys) ≡ sent_to a xs ++ sent_to a ys
sent_to-append a [] ys = refl
sent_to-append a ((k, bytes) ∷ xs) ys = ground (arith, sent_to-append a xs ys)

sent_to_other :
    (a k : SocketAddr) (ds : List (List ℕ)) → eq_addr k a ≡ false → sent_to a (to_addr k ds) ≡ []
sent_to_other a k [] e = refl
sent_to_other a k (d ∷ ds) e = rw e (sent_to_other a k ds e)

-- The census is kept, and datagrams have been sent to the address only.
abbrev pub Sends : {C : Type 0} → SocketAddr → Peer C → Peer C → Type 0
Sends addr p q = (census q ≡ census p) × (ds : List (List ℕ)) × (q.sent ≡ p.sent ++ to_addr addr ds)

abbrev pub SendsOnly : {C : Type 0} → List SocketAddr → Peer C → Peer C → Type 0
SendsOnly ks p q = (a : SocketAddr) → listed a ks ≡ false → sent_to a q.sent ≡ sent_to a p.sent

pub SendsOnly-step :
    {C : Type 0} (addr : SocketAddr) (ks : List SocketAddr) (p q r : Peer C)
    → Sends addr p q
    → SendsOnly ks q r
    → SendsOnly (addr ∷ ks) p r
SendsOnly-step addr ks p q r s t a h =
    let other : eq_addr addr a ≡ false = ground arith in
    let unlisted : listed a ks ≡ false = ground arith in
    t a unlisted
    ∙ ap (sent_to a) s.2
    ∙ sent_to-append a p.sent (to_addr addr s.1)
    ∙ ap (λ x. sent_to a p.sent ++ x) (sent_to_other a addr s.1 other)
    ∙ append-nil (sent_to a p.sent)

pub Sends-after :
    {C : Type 0} (addr : SocketAddr) (p q : Peer C) (sent : List (List ℕ))
    → Frame (record p { sent = p.sent ++ to_addr addr sent }) q
    → Sends addr p q
Sends-after addr p q sent f =
    (ground (arith, f.conns_same, f.count_same, f.limit_same, f.requests_same), sent, f.sent_same)
