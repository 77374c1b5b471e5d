-- ===== src/Net.antt =====
-- The standard library's socket addresses: the octets of the IP address, and the port.
pub mod Table
use ruknet.Base.{
  ℕ, Bool, true, false, ◌&&◌, ◌↔◌, ◌≡◌, refl, List, [], ◌∷◌, arith, ◌==◌, if◌then◌else◌,
}

pub data SocketAddr : Type 0 where
  v4 : (octets : List ℕ) (port : ℕ) → SocketAddr
  v6 : (octets : List ℕ) (port flowinfo scope_id : ℕ) → SocketAddr

unfoldable pub eq_octets : List ℕ → List ℕ → Bool
eq_octets [] [] = true
eq_octets [] (y ∷ ys) = false
eq_octets (x ∷ xs) [] = false
eq_octets (x ∷ xs) (y ∷ ys) = (x == y) && eq_octets xs ys

-- `==` on addresses
unfoldable pub eq_addr : SocketAddr → SocketAddr → Bool
unfolding eq_octets
eq_addr (v4 octets port) (v4 octets' port') = eq_octets octets octets' && (port == port')
eq_addr (v4 octets port) (v6 octets' port' flowinfo' scope_id') = false
eq_addr (v6 octets port flowinfo scope_id) (v4 octets' port') = false
eq_addr (v6 octets port flowinfo scope_id) (v6 octets' port' flowinfo' scope_id') =
    eq_octets octets octets'
    && ((port == port') && ((flowinfo == flowinfo') && (scope_id == scope_id')))

eq_octets_sound : (xs ys : List ℕ) → eq_octets xs ys ≡ true → xs ≡ ys
unfolding eq_octets
eq_octets_sound [] [] h = refl
eq_octets_sound [] (y ∷ ys) h = cc
eq_octets_sound (x ∷ xs) [] h = cc
eq_octets_sound (x ∷ xs) (y ∷ ys) h = ground (arith, eq_octets_sound xs ys)

eq_octets_refl : (xs : List ℕ) → eq_octets xs xs ≡ true
unfolding eq_octets
eq_octets_refl [] = refl
eq_octets_refl (x ∷ xs) = ground (arith, eq_octets_refl xs)

pub eq_addr_sound : (a b : SocketAddr) → eq_addr a b ≡ true → a ≡ b
unfolding eq_addr
eq_addr_sound (v4 o p) (v4 o' p') h = ground (arith, eq_octets_sound o o')
eq_addr_sound (v4 o p) (v6 o' p' f' s') h = cc
eq_addr_sound (v6 o p f s) (v4 o' p') h = cc
eq_addr_sound (v6 o p f s) (v6 o' p' f' s') h = ground (arith, eq_octets_sound o o')

pub eq_addr_refl : (a : SocketAddr) → eq_addr a a ≡ true
unfolding eq_addr
eq_addr_refl (v4 o p) = ground (arith, eq_octets_refl o)
eq_addr_refl (v6 o p f s) = ground (arith, eq_octets_refl o)
