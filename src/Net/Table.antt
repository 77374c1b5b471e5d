-- ===== src/Net/Table.antt =====
-- The maps of the standard library and of the `dashmap` crate keyed by an address, as association
-- lists. A key that is written stays in its place, and a new one comes last.
use ruknet.Base.{
  ◌+◌, ◌≡◌, suc, refl, ap, subst, Bool, true, false, Bool, true, false, ◌++◌, Option, none, some,
  List, [], ◌∷◌, ◌++◌, arith, if◌then◌else◌, length, is_some, Bool-cases, inl, inr,
}
use ruknet.Net.{SocketAddr, eq_addr, eq_addr_sound, eq_addr_refl}

abbrev pub Table : Type 0 → Type 0
Table V = List (SocketAddr × V)

unfoldable pub find : {V : Type 0} → SocketAddr → Table V → Option V
find a [] = none
find a ((k, v) ∷ rest) = if eq_addr k a then some v else find a rest

unfoldable pub put : {V : Type 0} → SocketAddr → V → Table V → Table V
put a v [] = (a, v) ∷ []
put a v ((k, w) ∷ rest) = if eq_addr k a then (k, v) ∷ rest else (k, w) ∷ put a v rest

unfoldable pub remove : {V : Type 0} → SocketAddr → Table V → Table V
remove a [] = []
remove a ((k, v) ∷ rest) = if eq_addr k a then rest else (k, v) ∷ remove a rest

pub find-put :
    {V : Type 0} (a b : SocketAddr) (v : V) (t : Table V)
    → find b (put a v t) ≡ (if eq_addr a b then some v else find b t)
unfolding find put
find-put a b v [] = refl
find-put a b v ((k, w) ∷ t) = ground (
  arith,
  find-put a b v t,
  eq_addr_sound k a,
  eq_addr_sound k b,
  eq_addr_sound a b,
  eq_addr_refl a,
)

pub length-put :
    {V : Type 0} (a : SocketAddr) (v : V) (t : Table V)
    → length (put a v t) ≡ (if is_some (find a t) then length t else length t + 1)
unfolding find put
length-put a v [] = refl
length-put a v ((k, w) ∷ t) = ground (arith, length-put a v t)

pub length-remove :
    {V : Type 0} (a : SocketAddr) (t : Table V)
    → length t ≡ (if is_some (find a t) then length (remove a t) + 1 else length (remove a t))
unfolding find remove
length-remove a [] = refl
length-remove a ((k, w) ∷ t) = ground (arith, length-remove a t)

abbrev pub keys : {V : Type 0} → Table V → List SocketAddr
keys [] = []
keys ((k, v) ∷ rest) = k ∷ keys rest

pub length-keys : {V : Type 0} (t : Table V) → length (keys t) ≡ length t
length-keys [] = refl
length-keys ((k, v) ∷ t) = ap suc (length-keys t)

abbrev pub Absent : SocketAddr → List SocketAddr → Type 0
Absent a [] = Unit {0}
Absent a (k ∷ ks) = (eq_addr k a ≡ false) × Absent a ks

abbrev pub IsDistinct : List SocketAddr → Type 0
IsDistinct [] = Unit {0}
IsDistinct (k ∷ ks) = Absent k ks × IsDistinct ks

-- No two entries have one key.
abbrev pub IsNew : {V : Type 0} → SocketAddr → Table V → Type 0
IsNew a t = Absent a (keys t)

abbrev pub HasKeysOnce : {V : Type 0} → Table V → Type 0
HasKeysOnce t = IsDistinct (keys t)

pub Absent-find : {V : Type 0} (a : SocketAddr) (t : Table V) → find a t ≡ none → Absent a (keys t)
unfolding find
Absent-find a [] h = tt
Absent-find a ((k, v) ∷ t) h = elim (Bool-cases (eq_addr k a)) [
  | inl same ↦ absurd (ground arith)
  | inr other ↦ (other, Absent-find a t (ground arith))
]

abbrev pub without : SocketAddr → List SocketAddr → List SocketAddr
without a [] = []
without a (k ∷ ks) = if eq_addr k a then ks else k ∷ without a ks

abbrev pub listed : SocketAddr → List SocketAddr → Bool
listed a [] = false
listed a (k ∷ ks) = if eq_addr k a then true else listed a ks

pub listed-find :
    {V : Type 0} (a : SocketAddr) (t : Table V) → listed a (keys t) ≡ is_some (find a t)
unfolding find
listed-find a [] = refl
listed-find a ((k, v) ∷ t) = ground (arith, listed-find a t)

pub keys-put :
    {V : Type 0} (a : SocketAddr) (v : V) (t : Table V)
    → keys (put a v t) ≡ (if is_some (find a t) then keys t else keys t ++ a ∷ [])
unfolding find put
keys-put a v [] = refl
keys-put a v ((k, w) ∷ t) = ground (arith, keys-put a v t)

pub keys-remove :
    {V : Type 0} (a : SocketAddr) (t : Table V) → keys (remove a t) ≡ without a (keys t)
unfolding remove
keys-remove a [] = refl
keys-remove a ((k, w) ∷ t) = ground (arith, keys-remove a t)

pub find-new : {V : Type 0} (a : SocketAddr) (t : Table V) → IsNew a t → find a t ≡ none
unfolding find
find-new a [] h = refl
find-new a ((k, v) ∷ t) h = ground (arith, find-new a t h.1)

eq_addr_sym : (a b : SocketAddr) → eq_addr a b ≡ false → eq_addr b a ≡ false
eq_addr_sym a b h = ground (arith, eq_addr_sound b a, eq_addr_refl a)

put-IsNew :
    {V : Type 0} (a b : SocketAddr) (v : V) (t : Table V)
    → eq_addr b a ≡ false
    → IsNew a t
    → IsNew a (put b v t)
unfolding put
put-IsNew a b v [] e h = (e, tt)
put-IsNew a b v ((k, w) ∷ t) e h = elim (Bool-cases (eq_addr k b)) [
  | inl same ↦ rw same h
  | inr other ↦ rw other (h.0, put-IsNew a b v t e h.1)
]

remove-IsNew : {V : Type 0} (a b : SocketAddr) (t : Table V) → IsNew a t → IsNew a (remove b t)
unfolding remove
remove-IsNew a b [] h = tt
remove-IsNew a b ((k, w) ∷ t) h = elim (Bool-cases (eq_addr k b)) [
  | inl same ↦ rw same h.1
  | inr other ↦ rw other (h.0, remove-IsNew a b t h.1)
]

pub put-HasKeysOnce :
    {V : Type 0} (a : SocketAddr) (v : V) (t : Table V) → HasKeysOnce t → HasKeysOnce (put a v t)
unfolding put
put-HasKeysOnce a v [] h = (tt, tt)
put-HasKeysOnce a v ((k, w) ∷ t) h = elim (Bool-cases (eq_addr k a)) [
  | inl same ↦ rw same h
  | inr other ↦ rw other (put-IsNew k a v t (eq_addr_sym k a other) h.0, put-HasKeysOnce a v t h.1)
]

pub remove-HasKeysOnce :
    {V : Type 0} (a : SocketAddr) (t : Table V) → HasKeysOnce t → HasKeysOnce (remove a t)
unfolding remove
remove-HasKeysOnce a [] h = tt
remove-HasKeysOnce a ((k, w) ∷ t) h = elim (Bool-cases (eq_addr k a)) [
  | inl same ↦ rw same h.1
  | inr other ↦ rw other (remove-IsNew k a t h.0, remove-HasKeysOnce a t h.1)
]

IsNew-of_same :
    {V : Type 0} (a k : SocketAddr) (t : Table V) → eq_addr k a ≡ true → IsNew k t → IsNew a t
IsNew-of_same a k t e h = subst (λ x. IsNew x t) (eq_addr_sound k a e) h

-- What is left of a table with each key once does not have the key that was removed.
pub find-remove :
    {V : Type 0} (a : SocketAddr) (t : Table V) → HasKeysOnce t → find a (remove a t) ≡ none
unfolding find remove
find-remove a [] h = refl
find-remove a ((k, w) ∷ t) h = elim (Bool-cases (eq_addr k a)) [
  | inl same ↦ rw same (find-new a t (IsNew-of_same a k t same h.0))
  | inr other ↦ rw other (rw other (find-remove a t h.1))
]
