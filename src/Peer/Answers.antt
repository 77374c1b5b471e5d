-- ===== src/Peer/Answers.antt =====
-- src/peer.rs: handlers that always answer, and readers that never panic.
use ruknet.Base.{
  ℕ, zero, suc, ◌≡◌, Bool, true, false, if◌then◌else◌, Option, none, some, List, Bool-cases, inl,
  inr, ◌==◌, ltb, length, Result, ok, err, fault,
}
use ruknet.Error.{PeerError, RukBytesError}
use ruknet.Buf.{Buf, IsBuf, read}
use ruknet.Base.Bytes.{of_be}
use ruknet.Codec.Decode.{Parser, ◌>>=◌, lift, try_get_octets, addr_v4, addr_v6, try_get_addr}
use ruknet.Codec.Ensures.{Ensures, returns, fails, Ensures-bind}
use ruknet.Peer.{attempt, if_let}
use ruknet.Peer.Packets.{parse}

-- A success or an error, from a state with `P`.
pub data Answers {E S : Type 0} (P : S → Type 0) : Result (E × S) S → Type 0 where
  accepts : {s : S} → P s → Answers P (ok s)
  refuses : {e : E} {s : S} → P s → Answers P (err (e, s))

-- The reader returns a value or an error.
abbrev pub IsSafe {ℓ} : {A : Type ℓ} → Parser A → Type ℓ
IsSafe {A} reader = (s : List ℕ) → Ensures (λ a r. Unit {0}) (reader s)

pub IsSafe-bind {ℓ κ} :
    {A : Type ℓ} {B : Type κ} {p : Parser A} {f : A → Parser B}
    → IsSafe p
    → ((a : A) → IsSafe (f a))
    → IsSafe (p >>= f)
IsSafe-bind {f} h k s = Ensures-bind _ f (h s) λ a r q. k a r

pub IsSafe-pure {ℓ} : {A : Type ℓ} (a : A) → IsSafe (λ s. ok (a, s))
IsSafe-pure a s = returns tt

IsSafe-read : (n : ℕ) (f : List ℕ → ℕ) → IsSafe (lift (read n f))
IsSafe-read n f s = elim (Bool-cases (ltb (length s) n)) [
  | inl short ↦ rw short fails
  | inr enough ↦ rw enough (returns tt)
]

module _ (b : Buf) (laws : IsBuf b) where
  pub IsSafe-u8 : IsSafe (lift b.try_get_u8)
  IsSafe-u8 s = rw (laws.get_u8 s) (IsSafe-read 1 (of_be 0) s)

  pub IsSafe-u16 : IsSafe (lift b.try_get_u16)
  IsSafe-u16 s = rw (laws.get_u16 s) (IsSafe-read 2 (of_be 0) s)

  pub IsSafe-u32 : IsSafe (lift b.try_get_u32)
  IsSafe-u32 s = rw (laws.get_u32 s) (IsSafe-read 4 (of_be 0) s)

  pub IsSafe-u64 : IsSafe (lift b.try_get_u64)
  IsSafe-u64 s = rw (laws.get_u64 s) (IsSafe-read 8 (of_be 0) s)

  IsSafe-octets : (n : ℕ) → IsSafe (try_get_octets b n)
  unfolding try_get_octets
  IsSafe-octets zero = IsSafe-pure _
  IsSafe-octets (suc n) =
      IsSafe-bind IsSafe-u8 λ e. IsSafe-bind (IsSafe-octets n) λ ip. IsSafe-pure _

  IsSafe-v4 : IsSafe (addr_v4 b)
  unfolding addr_v4
  IsSafe-v4 = IsSafe-bind (IsSafe-octets 4) λ ip. IsSafe-bind IsSafe-u16 λ port. IsSafe-pure _

  IsSafe-v6 : IsSafe (addr_v6 b)
  unfolding addr_v6
  IsSafe-v6 = IsSafe-bind IsSafe-u16 λ family. IsSafe-bind IsSafe-u16 λ port.
      IsSafe-bind IsSafe-u32
        λ flow. IsSafe-bind (IsSafe-octets 16) λ ip. IsSafe-bind IsSafe-u32 λ scope. IsSafe-pure _

  pub try_get_addr-IsSafe : IsSafe (try_get_addr b)
  unfolding try_get_addr
  try_get_addr-IsSafe = IsSafe-bind IsSafe-u8 λ kind s. elim (Bool-cases (kind == 4)) [
    | inl is_v4 ↦ rw is_v4 (IsSafe-v4 s)
    | inr not_v4 ↦ elim (Bool-cases (kind == 6)) [
      | inl is_v6 ↦ rw (not_v4, is_v6) (IsSafe-v6 s)
      | inr not_v6 ↦ rw (not_v4, not_v6) fails
    ]
  ]

pub Answers-parse {ℓ} :
    {A : Type ℓ} {S : Type 0} (P : S → Type 0) (reader : Parser A) (bytes : List ℕ) {s : S}
    {k : A → List ℕ → Result (PeerError × S) S}
    → IsSafe reader
    → P s
    → ((a : A) (rest : List ℕ) → Answers P (k a rest))
    → Answers P (parse reader bytes s k)
unfolding parse
Answers-parse {A} P reader bytes {s} {k} safe h f = go (safe bytes)
  where
    go :
        {x : Result RukBytesError (A × List ℕ)}
        → Ensures (λ a r. Unit {0}) x
        → Answers P (elim x [
          | ok (a, rest) ↦ k a rest
          | err e ↦ err (PeerError.ruk_bytes e, s)
          | fault ↦ fault
        ])
    go (returns {a} {r} q) = f a r
    go fails = refuses h

-- The part of the handler returns, with `Q`.
pub Answers-attempt :
    {A E S : Type 0} {Q : A → Type 0} (P : S → Type 0) {x : Option A} {k : A → Result (E × S) S}
    → (a : A) × (x ≡ some a) × Q a
    → ((a : A) → Q a → Answers P (k a))
    → Answers P (attempt x k)
unfolding attempt
Answers-attempt P (a, e, q) f = rw (e, attempt) (f a q)

pub Answers-if :
    {E S : Type 0} (P : S → Type 0) (b : Bool) {x y : Result (E × S) S}
    → Answers P x
    → Answers P y
    → Answers P (if b then x else y)
Answers-if P true f g = f
Answers-if P false f g = g

pub Answers-if_let {ℓ} :
    {A : Type ℓ} {E S : Type 0} (P : S → Type 0) (o : Option A) {f : A → Result (E × S) S}
    {r : Result (E × S) S}
    → ((a : A) → Answers P (f a))
    → Answers P r
    → Answers P (if_let o f r)
unfolding if_let
Answers-if_let P none f g = g
Answers-if_let P (some a) f g = f a
