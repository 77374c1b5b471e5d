-- ===== src/Peer/Results.antt =====
-- What holds of the state that a handler leaves, whether it succeeds or fails, and of the value of a
-- part that may panic or wait for ever.
use ruknet.Base.{
  ◌≡◌, refl, subst, Bool, true, false, if◌then◌else◌, Option, none, some, List, ℕ, Result, ok, err,
  fault, leb, length, arith, Bool-cases, Option-cases, inl, inr,
}
use ruknet.Error.{PeerError, RukBytesError}
use ruknet.Codec.Decode.{Parser}
use ruknet.Net.{SocketAddr}
use ruknet.App.{RukMessageContext}
use ruknet.Peer.{Peer, queue_size, send_message, and_then, attempt, chain, if_let, settle}
use ruknet.Peer.Packets.{parse}

pub data Yields {A : Type 0} (P : A → Type 0) : Option A → Type 0 where
  yields : {a : A} → P a → Yields P (some a)
  stops : Yields P none

pub Yields-and_then :
    {A B : Type 0} {Q : A → Type 0} (P : B → Type 0) {o : Option A} {f : A → Option B}
    → Yields Q o
    → ((a : A) → Q a → Yields P (f a))
    → Yields P (and_then o f)
unfolding and_then
Yields-and_then P (yields q) k = k _ q
Yields-and_then P stops k = stops

pub Yields_some :
    {A : Type 0} {P : A → Type 0} {o : Option A} {a : A} → Yields P o → o ≡ some a → P a
Yields_some {P} (yields {a = b} q) e = subst P (cc) q
Yields_some stops e = absurd (cc)

pub data Leaves {E S : Type 0} (P : S → Type 0) : Result (E × S) S → Type 0 where
  succeeds : {s : S} → P s → Leaves P (ok s)
  fails : {e : E} {s : S} → P s → Leaves P (err (e, s))
  faults : Leaves P fault

pub Leaves-parse {ℓ} :
    {A : Type ℓ} {S : Type 0} (P : S → Type 0) (reader : Parser A) (bytes : List ℕ) {s : S}
    {k : A → List ℕ → Result (PeerError × S) S}
    → P s
    → ((a : A) (rest : List ℕ) → Leaves P (k a rest))
    → Leaves P (parse reader bytes s k)
unfolding parse
Leaves-parse {A = A} P reader bytes {s} {k} h f = go (reader bytes)
  where
    go :
        (x : Result RukBytesError (A × List ℕ))
        → Leaves P (elim x [
          | ok (a, rest) ↦ k a rest
          | err e ↦ err (PeerError.ruk_bytes e, s)
          | fault ↦ fault
        ])
    go (ok (a, rest)) = f a rest
    go (err e) = fails h
    go fault = faults

pub Leaves-attempt :
    {A E S : Type 0} (P : S → Type 0) {x : Option A} {k : A → Result (E × S) S}
    → ((a : A) → x ≡ some a → Leaves P (k a))
    → Leaves P (attempt x k)
unfolding attempt
Leaves-attempt P {x = none} f = faults
Leaves-attempt P {x = some a} f = f a refl

pub Leaves-chain :
    {E S : Type 0} (P : S → Type 0) {x : Result (E × S) S} {k : S → Result (E × S) S}
    → Leaves P x
    → ((s : S) → P s → Leaves P (k s))
    → Leaves P (chain x k)
unfolding chain
Leaves-chain P (succeeds h) f = f _ h
Leaves-chain P (fails h) f = fails h
Leaves-chain P faults f = faults

pub Leaves-if :
    {E S : Type 0} (P : S → Type 0) (b : Bool) {x y : Result (E × S) S}
    → (b ≡ true → Leaves P x)
    → (b ≡ false → Leaves P y)
    → Leaves P (if b then x else y)
Leaves-if P true f g = f refl
Leaves-if P false f g = g refl

pub Yields_if :
    {A : Type 0} (P : A → Type 0) (b : Bool) {x y : Option A}
    → (b ≡ true → Yields P x)
    → (b ≡ false → Yields P y)
    → Yields P (if b then x else y)
Yields_if P true f g = f refl
Yields_if P false f g = g refl

pub Leaves-mono :
    {E S : Type 0} {P Q : S → Type 0} {x : Result (E × S) S}
    → ((s : S) → P s → Q s)
    → Leaves P x
    → Leaves Q x
Leaves-mono f (succeeds h) = succeeds (f _ h)
Leaves-mono f (fails h) = fails (f _ h)
Leaves-mono f faults = faults

pub Yields_mono :
    {A : Type 0} {P Q : A → Type 0} {x : Option A} → ((a : A) → P a → Q a) → Yields P x → Yields Q x
Yields_mono f (yields h) = yields (f _ h)
Yields_mono f stops = stops

pub Yields-settle :
    {E S B : Type 0} {Q : S → Type 0} (P : B → Type 0) {x : Result (E × S) S} {f g : S → Option B}
    → Leaves Q x
    → ((s : S) → Q s → Yields P (f s))
    → ((s : S) → Q s → Yields P (g s))
    → Yields P (settle x f g)
unfolding settle
Yields-settle P (succeeds h) k l = k _ h
Yields-settle P (fails h) k l = l _ h
Yields-settle P faults k l = stops

-- Any state may be left.
pub Leaves-any : {E S : Type 0} (x : Result (E × S) S) → Leaves (λ s. Unit {0}) x
Leaves-any (ok s) = succeeds tt
Leaves-any (err (e, s)) = fails tt
Leaves-any fault = faults

pub Yields_all : {A : Type 0} {P : A → Type 0} (o : Option A) → ((a : A) → P a) → Yields P o
Yields_all none f = stops
Yields_all (some a) f = yields (f a)

pub Leaves-if_let {ℓ} :
    {A : Type ℓ} {E S : Type 0} (P : S → Type 0) (o : Option A) {f : A → Result (E × S) S}
    {r : Result (E × S) S}
    → ((a : A) → o ≡ some a → Leaves P (f a))
    → (o ≡ none → Leaves P r)
    → Leaves P (if_let o f r)
unfolding if_let
Leaves-if_let P none f g = g refl
Leaves-if_let P (some a) f g = f a refl

pub Yields-if_let {ℓ} :
    {A : Type ℓ} {B : Type 0} (P : B → Type 0) (o : Option A) {f : A → Option B} {r : Option B}
    → ((a : A) → o ≡ some a → Yields P (f a))
    → (o ≡ none → Yields P r)
    → Yields P (if_let o f r)
unfolding if_let
Yields-if_let P none f g = g refl
Yields-if_let P (some a) f g = f a refl

-- A message for the application changes its queue only.
pub send_message-only :
    {C : Type 0} (addr : SocketAddr) (guid : ℕ) (context : RukMessageContext) (p q : Peer C)
    → send_message addr guid context p ≡ some q
    → q ≡ record p { message_queue = q.message_queue }
unfolding send_message
send_message-only addr guid context p q h =
    elim (Bool-cases (leb queue_size (length p.message_queue))) [
      | inl full ↦ absurd (ground arith)
      | inr room ↦ ground arith
    ]

pub send_message-Yields :
    {C : Type 0} (addr : SocketAddr) (guid : ℕ) (context : RukMessageContext) (p : Peer C)
    → Yields
        (λ q. q ≡ record p { message_queue = q.message_queue })
        (send_message addr guid context p)
send_message-Yields addr guid context p = elim (Option-cases (send_message addr guid context p)) [
  | inl e ↦ rw e stops
  | inr (q, e) ↦ rw e (yields (send_message-only addr guid context p q e))
]

-- The steps of a handler.
pub parse-ok {ℓ} :
    {A : Type ℓ} {S : Type 0} (reader : Parser A) (bytes : List ℕ) (s : S)
    (k : A → List ℕ → Result (PeerError × S) S) {a : A} {rest : List ℕ}
    → reader bytes ≡ ok (a, rest)
    → parse reader bytes s k ≡ k a rest
unfolding parse
parse-ok reader bytes s k e = rw (e, parse) refl

pub if_let-some {ℓ κ} :
    {A : Type ℓ} {B : Type κ} {o : Option A} {a : A} (f : A → B) (b : B)
    → o ≡ some a
    → if_let o f b ≡ f a
unfolding if_let
if_let-some f b e = rw (e, if_let) refl

pub attempt-some {ℓ κ ι} :
    {A : Type ℓ} {E : Type κ} {B : Type ι} {o : Option A} {a : A} (k : A → Result E B)
    → o ≡ some a
    → attempt o k ≡ k a
unfolding attempt
attempt-some k e = rw (e, attempt) refl

pub if_false {ℓ} : {A : Type ℓ} {b : Bool} (x y : A) → b ≡ false → (if b then x else y) ≡ y
if_false x y e = rw e refl

pub if_true {ℓ} : {A : Type ℓ} {b : Bool} (x y : A) → b ≡ true → (if b then x else y) ≡ x
if_true x y e = rw e refl
