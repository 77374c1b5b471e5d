-- ===== src/Peer/Census.antt =====
-- src/peer.rs: the connections of a peer without what goes on over them, as a small machine. A step
-- accepts, opens or closes a connection, or gives up a request for one.
use ruknet.Base.{
  ℕ, ◌+◌, ◌%◌, ◌^◌, ◌<◌, ◌≤◌, ◌≡◌, ◌∙◌, ap, refl, subst, true, false, List, [], ◌∷◌, ◌++◌, arith,
  length, length-append, Bool-cases, inl, inr,
}
use ruknet.Net.{SocketAddr, eq_addr, eq_addr_sound, eq_addr_refl}
use ruknet.Net.Table.{keys, Absent, IsDistinct, without, listed}
use ruknet.Window.{sub_u64}
use ruknet.Peer.{Peer}
use ruknet.Peer.Offline.{add_usize}

pub record Census : Type 0 where
  pub members : List SocketAddr
  pub count : ℕ
  pub limit : ℕ
  pub requests : List SocketAddr

abbrev pub census : {C : Type 0} → Peer C → Census
census p = record {
  members = keys p.conns;
  count = p.conn_count;
  limit = p.max_conn_count;
  requests = keys p.req_conns;
}

abbrev pub join : SocketAddr → Census → Census
join a c = record c { members = c.members ++ a ∷ []; count = add_usize c.count 1 }

abbrev pub leave : SocketAddr → Census → Census
leave a c = record c { members = without a c.members; count = sub_u64 c.count 1 }

pub data Step : Census → Census → Type 0 where
  accepted :
      {c d : Census} (a : SocketAddr)
      → Absent a c.members
      → c.count < c.limit
      → d ≡ join a c
      → Step c d
  opened :
      {c d : Census} (a : SocketAddr)
      → Absent a c.members
      → listed a c.requests ≡ true
      → d ≡ join a (record c { requests = without a c.requests })
      → Step c d
  closed : {c d : Census} (a : SocketAddr) → listed a c.members ≡ true → d ≡ leave a c → Step c d
  given_up :
      {c d : Census}
      → (left : List SocketAddr)
      → ((a : SocketAddr) → listed a left ≡ true → listed a c.requests ≡ true)
      → d ≡ record c { requests = left }
      → Step c d

pub data Steps : Census → Census → Type 0 where
  done : {c d : Census} → d ≡ c → Steps c d
  next : {c d e : Census} → Step c d → Steps d e → Steps c e

pub Steps-trans : {c d e : Census} → Steps c d → Steps d e → Steps c e
Steps-trans {e = e} (done p) t = subst (λ x. Steps x e) p t
Steps-trans (next s r) t = next s (Steps-trans r t)

pub one : {c d : Census} → Step c d → Steps c d
one s = next s (done refl)

Step-limit : {c d : Census} → Step c d → d.limit ≡ c.limit
Step-limit (accepted a new room e) = ap Census.limit e
Step-limit (opened a new asked e) = ap Census.limit e
Step-limit (closed a there e) = ap Census.limit e
Step-limit (given_up left within e) = ap Census.limit e

pub Steps-limit : {c d : Census} → Steps c d → d.limit ≡ c.limit
Steps-limit (done e) = ap Census.limit e
Steps-limit (next s r) = Steps-limit r ∙ Step-limit s

-- The count is the number of connections, at the width of the counter, and no address has two.
pub record IsCounted (c : Census) : Type 0 where
  pub counted : c.count ≡ length c.members % 2 ^ 64
  pub distinct : IsDistinct c.members

Absent-append :
    (a b : SocketAddr) (ks : List SocketAddr)
    → eq_addr b a ≡ false
    → Absent a ks
    → Absent a (ks ++ b ∷ [])
Absent-append a b [] e h = (e, tt)
Absent-append a b (k ∷ ks) e h = (h.0, Absent-append a b ks e h.1)

eq_addr_sym : (a b : SocketAddr) → eq_addr a b ≡ false → eq_addr b a ≡ false
eq_addr_sym a b h = ground (arith, eq_addr_sound b a, eq_addr_refl a)

IsDistinct-append :
    (a : SocketAddr) (ks : List SocketAddr)
    → Absent a ks
    → IsDistinct ks
    → IsDistinct (ks ++ a ∷ [])
IsDistinct-append a [] h d = (tt, tt)
IsDistinct-append a (k ∷ ks) h d =
    (Absent-append k a ks (eq_addr_sym k a h.0) d.0, IsDistinct-append a ks h.1 d.1)

Absent-without : (a b : SocketAddr) (ks : List SocketAddr) → Absent a ks → Absent a (without b ks)
Absent-without a b [] h = tt
Absent-without a b (k ∷ ks) h = elim (Bool-cases (eq_addr k b)) [
  | inl same ↦ rw same h.1
  | inr other ↦ rw other (h.0, Absent-without a b ks h.1)
]

IsDistinct-without :
    (a : SocketAddr) (ks : List SocketAddr) → IsDistinct ks → IsDistinct (without a ks)
IsDistinct-without a [] h = tt
IsDistinct-without a (k ∷ ks) h = elim (Bool-cases (eq_addr k a)) [
  | inl same ↦ rw same h.1
  | inr other ↦ rw other (Absent-without k a ks h.0, IsDistinct-without a ks h.1)
]

length-without :
    (a : SocketAddr) (ks : List SocketAddr)
    → listed a ks ≡ true
    → length ks ≡ length (without a ks) + 1
length-without a [] h = absurd (ground arith)
length-without a (k ∷ ks) h = ground (arith, length-without a ks)

Step-IsCounted : {c d : Census} → Step c d → IsCounted c → IsCounted d
Step-IsCounted {c} (accepted a new room e) i = rw e (record {
  counted = omega (arith, i.counted, length-append c.members (a ∷ []));
  distinct = IsDistinct-append a c.members new i.distinct;
})
Step-IsCounted {c} (opened a new asked e) i = rw e (record {
  counted = omega (arith, i.counted, length-append c.members (a ∷ []));
  distinct = IsDistinct-append a c.members new i.distinct;
})
Step-IsCounted {c} (closed a there e) i = rw e (record {
  counted = omega (arith, i.counted, length-without a c.members there);
  distinct = IsDistinct-without a c.members i.distinct;
})
Step-IsCounted (given_up left within e) i =
    rw e (record { counted = i.counted; distinct = i.distinct })

pub Steps-IsCounted : {c d : Census} → Steps c d → IsCounted c → IsCounted d
Steps-IsCounted (done e) i = rw e i
Steps-IsCounted (next s r) i = Steps-IsCounted r (Step-IsCounted s i)

-- A peer that asks for no connection, with the limit kept.
pub record IsLimited (c : Census) : Type 0 where
  pub counted : c.count ≡ length c.members
  pub limited : c.count ≤ c.limit
  pub small : c.limit < 2 ^ 64
  pub idle : c.requests ≡ []

none_listed :
    (left : List SocketAddr) → ((a : SocketAddr) → listed a left ≡ true → false ≡ true) → left ≡ []
none_listed [] h = refl
none_listed (k ∷ ks) h = absurd (ground (arith, h k, eq_addr_refl k))

Step-IsLimited : {c d : Census} → Step c d → IsLimited c → IsLimited d
Step-IsLimited {c} (accepted a new room e) i = rw e (record {
  counted = omega (arith, i.counted, i.limited, i.small, length-append c.members (a ∷ []));
  limited = omega (arith, i.counted, i.limited, i.small);
  small = i.small;
  idle = i.idle;
})
Step-IsLimited {c} (opened a new asked e) i = absurd (ground (arith, i.idle))
Step-IsLimited {c} (closed a there e) i = rw e (record {
  counted = omega (arith, i.counted, i.limited, i.small, length-without a c.members there);
  limited = omega (arith, i.counted, i.limited, i.small, length-without a c.members there);
  small = i.small;
  idle = i.idle;
})
Step-IsLimited {c} (given_up left within e) i = rw e (record {
  counted = i.counted;
  limited = i.limited;
  small = i.small;
  idle = none_listed left (λ a h. ground (arith, within a h, i.idle));
})

pub Steps-IsLimited : {c d : Census} → Steps c d → IsLimited c → IsLimited d
Steps-IsLimited (done e) i = rw e i
Steps-IsLimited (next s r) i = Steps-IsLimited r (Step-IsLimited s i)
