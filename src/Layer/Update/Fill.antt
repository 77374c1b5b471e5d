-- ===== src/Layer/Update/Fill.antt =====
-- The packets that an update fills: their sizes, and the fragments in them.
use ruknet.Base.{
  ℕ, ◌+◌, ◌≤◌, ◌≡◌, refl, sym, ap, subst, ◌∙◌, false, Bool-cases, inl, inr, none, List, [], ◌∷◌,
  ◌++◌, append_assoc, append-nil, arith, ltb,
}
use ruknet.Datagram.{Fragment, calc_full_size, calc_header_size}
use ruknet.Congestion.{CongestionController}
use ruknet.Cache.{is_nil}
use ruknet.Layer.{OutgoingFragment}
use ruknet.Layer.Receive.{total_size}
use ruknet.Layer.Send.Split.{AllFit, queued}
use ruknet.Layer.Update.{
  Packing, close_packet, nothing_packed, pack, has_bandwidth, resend_loop, outgoing_loop,
  number_reliable, finish_packing,
}

-- Each packet has the size that is noted for it, and fits.
abbrev pub Fits : ℕ → List (List Fragment × ℕ) → Type 0
Fits max_size [] = Unit {0}
Fits max_size ((fs, size) ∷ rest) = (total_size fs ≡ size) × (size ≤ max_size) × Fits max_size rest

abbrev pub sizes : List (List Fragment × ℕ) → ℕ
sizes [] = 0
sizes ((fs, size) ∷ rest) = size + sizes rest

abbrev pub fragments_of : List (List Fragment × ℕ) → List Fragment
fragments_of [] = []
fragments_of ((fs, size) ∷ rest) = fs ++ fragments_of rest

pub record IsPacking (bandwidth max_size : ℕ) (p : Packing) : Type 0 where
  pub full : Fits max_size p.packets
  pub current : total_size p.current_packet ≡ p.current_packet_size
  pub current_fits : p.current_packet_size ≤ max_size
  pub total : p.all_datagram_sizes ≡ sizes p.packets + p.current_packet_size
  pub within : p.all_datagram_sizes ≤ bandwidth

-- The fragments in the packets, in the order in which they leave.
abbrev pub packed : Packing → List Fragment
packed p = fragments_of p.packets ++ p.current_packet

total_size-snoc :
    (fs : List Fragment) (f : Fragment)
    → total_size (fs ++ f ∷ []) ≡ total_size fs + calc_full_size f
total_size-snoc [] f = omega arith
total_size-snoc (x ∷ fs) f = omega (arith, total_size-snoc fs f)

Fits-snoc :
    (max_size : ℕ) (ps : List (List Fragment × ℕ)) (fs : List Fragment) (size : ℕ)
    → Fits max_size ps
    → total_size fs ≡ size
    → size ≤ max_size
    → Fits max_size (ps ++ (fs, size) ∷ [])
Fits-snoc max_size [] fs size h e le = (e, le, tt)
Fits-snoc max_size ((x, n) ∷ ps) fs size (a, b, h) e le =
    (a, b, Fits-snoc max_size ps fs size h e le)

sizes-snoc :
    (ps : List (List Fragment × ℕ)) (fs : List Fragment) (size : ℕ)
    → sizes (ps ++ (fs, size) ∷ []) ≡ sizes ps + size
sizes-snoc [] fs size = omega arith
sizes-snoc ((x, n) ∷ ps) fs size = omega (arith, sizes-snoc ps fs size)

fragments_of-snoc :
    (ps : List (List Fragment × ℕ)) (fs : List Fragment) (size : ℕ)
    → fragments_of (ps ++ (fs, size) ∷ []) ≡ fragments_of ps ++ fs
fragments_of-snoc [] fs size = append-nil fs
fragments_of-snoc ((x, n) ∷ ps) fs size =
    ap (λ t. x ++ t) (fragments_of-snoc ps fs size) ∙ sym (append_assoc x (fragments_of ps) fs)

close-IsPacking :
    (bandwidth max_size : ℕ) (p : Packing)
    → IsPacking bandwidth max_size p
    → IsPacking bandwidth max_size (close_packet p)
close-IsPacking bandwidth max_size p v = record {
  full =
      Fits-snoc max_size p.packets p.current_packet p.current_packet_size v.full v.current
        v.current_fits;
  current = refl;
  current_fits = omega arith;
  total = omega (arith, v.total, sizes-snoc p.packets p.current_packet p.current_packet_size);
  within = v.within;
}

add-IsPacking :
    (bandwidth max_size : ℕ) (p : Packing) (f : Fragment)
    → IsPacking bandwidth max_size p
    → p.current_packet_size + calc_full_size f ≤ max_size
    → p.all_datagram_sizes + calc_full_size f ≤ bandwidth
    → IsPacking bandwidth max_size (record p {
      all_datagram_sizes = p.all_datagram_sizes + calc_full_size f;
      current_packet_size = p.current_packet_size + calc_full_size f;
      current_packet = p.current_packet ++ f ∷ [];
    })
add-IsPacking bandwidth max_size p f v fits room = record {
  full = v.full;
  current = omega (arith, v.current, total_size-snoc p.current_packet f);
  current_fits = fits;
  total = omega (arith, v.total);
  within = room;
}

pack-IsPacking :
    (bandwidth max_size : ℕ) (p : Packing) (f : Fragment)
    → IsPacking bandwidth max_size p
    → calc_full_size f ≤ max_size
    → p.all_datagram_sizes + calc_full_size f ≤ bandwidth
    → IsPacking bandwidth max_size (pack max_size f (calc_full_size f) p)
      × (packed (pack max_size f (calc_full_size f) p) ≡ packed p ++ f ∷ [])
unfolding pack
pack-IsPacking bandwidth max_size p f v fits room =
    elim (Bool-cases (ltb max_size (p.current_packet_size + calc_full_size f))) [
      | inl over ↦ rw (over) (
        add-IsPacking bandwidth max_size (close_packet p) f (close-IsPacking bandwidth max_size p v)
            (omega (arith, fits)) room,
        ap (λ t. t ++ f ∷ []) (fragments_of-snoc p.packets p.current_packet p.current_packet_size),
      )
      | inr under ↦ rw (under) (
        add-IsPacking bandwidth max_size p f v (ground arith) room,
        sym (append_assoc (fragments_of p.packets) p.current_packet (f ∷ [])),
      )
    ]

module _ {C : Type 0} (controller : CongestionController C) where
  -- The fragments to send again go into the packets in their order, until the bandwidth is used up;
  -- the rest stay queued. No packet gets longer than is allowed, if no fragment is, and the packets
  -- together never exceed the bandwidth.
  resend_loop-IsPacking :
      (now bandwidth max_size : ℕ) (fs : List Fragment) (c : C) (p : Packing)
      → AllFit max_size fs
      → IsPacking bandwidth max_size p
      → let (left, c', p') = resend_loop controller now bandwidth max_size fs c p in
        IsPacking bandwidth max_size p' × (packed p' ++ left ≡ packed p ++ fs)
  unfolding resend_loop
  resend_loop-IsPacking now bandwidth max_size [] c p fit v = (v, refl)
  resend_loop-IsPacking now bandwidth max_size (f ∷ fs) c p (small, fit) v =
      elim (Bool-cases (has_bandwidth bandwidth (calc_full_size f) p)) [
        | inl room ↦
            let (v1, e1) = pack-IsPacking bandwidth max_size p f v small (ground arith) in
            let (v', e') =
              resend_loop-IsPacking now bandwidth max_size fs (controller.on_resend c now)
                (pack max_size f (calc_full_size f) p) fit v1 in
            rw (room) (v', e' ∙ ap (λ t. t ++ fs) e1 ∙ append_assoc (packed p) (f ∷ []) fs)
        | inr stop ↦ rw (stop) (v, refl)
      ]

-- A fragment without its reliable index, which it gets on the way out.
abbrev pub unnumbered : List Fragment → List Fragment
unnumbered [] = []
unnumbered (f ∷ fs) = record f { reliable_index = none } ∷ unnumbered fs

unnumbered-append : (xs ys : List Fragment) → unnumbered (xs ++ ys) ≡ unnumbered xs ++ unnumbered ys
unnumbered-append [] ys = refl
unnumbered-append (x ∷ xs) ys =
    ap (λ t. record x { reliable_index = none } ∷ t) (unnumbered-append xs ys)

number-size : (f : Fragment) (i : ℕ) → calc_full_size (number_reliable f i).0 ≡ calc_full_size f
unfolding number_reliable calc_full_size calc_header_size
number-size f i = ground arith

number-same :
    (f : Fragment) (i : ℕ) → unnumbered ((number_reliable f i).0 ∷ []) ≡ unnumbered (f ∷ [])
unfolding number_reliable
number-same f i = ground arith

-- The queue goes into the packets in its order, until the bandwidth is used up; the rest stays, and
-- a fragment changes in nothing but its reliable index. No packet gets longer than is allowed, if no
-- fragment is, and the packets together never exceed the bandwidth.
outgoing_loop-IsPacking :
    (bandwidth max_size : ℕ) (os : List OutgoingFragment) (index : ℕ) (p : Packing)
    → AllFit max_size (queued os)
    → IsPacking bandwidth max_size p
    → let (left, index', p') = outgoing_loop bandwidth max_size os index p in
      IsPacking bandwidth max_size p'
      × (unnumbered (packed p') ++ unnumbered (queued left)
          ≡ unnumbered (packed p) ++ unnumbered (queued os))
unfolding outgoing_loop
outgoing_loop-IsPacking bandwidth max_size [] index p fit v = (v, refl)
outgoing_loop-IsPacking bandwidth max_size (o ∷ os) index p (small, fit) v =
    elim (Bool-cases (has_bandwidth bandwidth (calc_full_size o.fragment) p)) [
      | inl room ↦
          let f = (number_reliable o.fragment index).0 in
          let size = number-size o.fragment index in
          let packed_one =
            pack-IsPacking bandwidth max_size p f v (omega (arith, size, small))
              (ground (arith, size)) in
          let (v1, e1) =
            subst
              (λ n.
                IsPacking bandwidth max_size (pack max_size f n p)
                × (packed (pack max_size f n p) ≡ packed p ++ f ∷ []))
              size packed_one in
          let (v', e') =
            outgoing_loop-IsPacking bandwidth max_size os (number_reliable o.fragment index).1
              (pack max_size f (calc_full_size o.fragment) p) fit v1 in
          let e2 : unnumbered (packed (pack max_size f (calc_full_size o.fragment) p))
              ≡ unnumbered (packed p) ++ unnumbered (o.fragment ∷ []) =
            ap (λ t. unnumbered t) e1
            ∙ unnumbered-append (packed p) (f ∷ [])
            ∙ ap (λ t. unnumbered (packed p) ++ t) (number-same o.fragment index) in
          rw (room) (
            v',
            e'
                ∙ ap (λ t. t ++ unnumbered (queued os)) e2
                ∙ append_assoc (unnumbered (packed p)) (unnumbered (o.fragment ∷ []))
                    (unnumbered (queued os)),
          )
      | inr stop ↦ rw (stop) (v, refl)
    ]

-- An update starts with nothing packed.
nothing-IsPacking : (bandwidth max_size : ℕ) → IsPacking bandwidth max_size nothing_packed
nothing-IsPacking bandwidth max_size = record {
  full = tt;
  current = refl;
  current_fits = omega arith;
  total = omega arith;
  within = omega arith;
}

finish-go :
    (bandwidth max_size : ℕ) (p : Packing) (fs : List Fragment)
    → p.current_packet ≡ fs
    → IsPacking bandwidth max_size p
    → Fits max_size (finish_packing p)
      × (sizes (finish_packing p) ≤ bandwidth)
      × (fragments_of (finish_packing p) ≡ packed p)
finish-go bandwidth max_size p [] e v =
    rw (e) (v.full, omega (arith, v.total, v.within), sym (append-nil (fragments_of p.packets)))
finish-go bandwidth max_size p (f ∷ fs) e v =
    let closed = sizes-snoc p.packets p.current_packet p.current_packet_size in
    let v' = close-IsPacking bandwidth max_size p v in
    let bound : sizes (close_packet p).packets ≤ bandwidth =
      omega (arith, v.total, v.within, closed) in
    let same = fragments_of-snoc p.packets p.current_packet p.current_packet_size in
    let cases : (is_nil p.current_packet ≡ false) = rw (e) refl in rw (cases) (v'.full, bound, same)

-- If each fragment to send, again or from the queue, fits a packet, then so do the packets that
-- an update makes. They stay within the bandwidth and hold just the fragments that left the two
-- queues, those sent again first, in order and the same apart from reliable indices.
pub finish_packing-lem :
    {C : Type 0} (controller : CongestionController C) (now bandwidth max_size : ℕ)
    (fs : List Fragment) (os : List OutgoingFragment) (c : C) (index : ℕ)
    → AllFit max_size fs
    → AllFit max_size (queued os)
    → let (left, c', p) = resend_loop controller now bandwidth max_size fs c nothing_packed in
      let (queue, index', p') = outgoing_loop bandwidth max_size os index p in
      let packets = finish_packing p' in
      Fits max_size packets
      × (sizes packets ≤ bandwidth)
      × ((resent : List Fragment) × (resent ++ left ≡ fs)
          × (unnumbered (fragments_of packets) ++ unnumbered (queued queue)
              ≡ unnumbered resent ++ unnumbered (queued os)))
finish_packing-lem controller now bandwidth max_size fs os c index fit fit' =
    let p = (resend_loop controller now bandwidth max_size fs c nothing_packed).2 in
    let p' = (outgoing_loop bandwidth max_size os index p).2 in
    let (v, e) =
      resend_loop-IsPacking controller now bandwidth max_size fs c nothing_packed fit
        (nothing-IsPacking bandwidth max_size) in
    let (v', e') = outgoing_loop-IsPacking bandwidth max_size os index p fit' v in
    let (fits, bound, same) = finish-go bandwidth max_size p' p'.current_packet refl v' in
    (fits, bound, (packed p, e, rw (same) e'))
