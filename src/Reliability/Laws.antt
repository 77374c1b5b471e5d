-- ===== src/Reliability/Laws.antt =====
-- The codes of the reliabilities.
use ruknet.Base.{ℕ, ◌<◌, ◌≡◌, refl, subst, ◌↔◌, some, is_some, ltb, arith}
use ruknet.Reliability.{Reliability, unreliable, from_u8, to_u8}

pub to_u8-lt : (r : Reliability) → to_u8 r < 8
unfolding to_u8
to_u8-lt r = ground arith

pub from_u8-to_u8 : (r : Reliability) → from_u8 (to_u8 r) ≡ some r
unfolding from_u8 to_u8
from_u8-to_u8 unreliable = refl
from_u8-to_u8 _ = refl

pub to_u8-from_u8 : (v : ℕ) {r : Reliability} → from_u8 v ≡ some r → to_u8 r ≡ v
unfolding from_u8 to_u8
to_u8-from_u8 v h = ground arith

pub is_some-from_u8 : (v : ℕ) → is_some (from_u8 v) ≡ ltb v 8
unfolding from_u8
is_some-from_u8 v = ground arith

-- The code of a reliability is read back as that reliability, and every number below 8 is the code
-- of what it is read as; exactly the numbers below 8 are read.
pub reliability_codes :
    (r : Reliability) (v : ℕ)
    → (from_u8 (to_u8 r) ≡ some r)
      × ((from_u8 v ≡ some r) ↔ (to_u8 r ≡ v))
      × (is_some (from_u8 v) ≡ ltb v 8)
reliability_codes r v = (
  from_u8-to_u8 r,
  ((λ h. to_u8-from_u8 v h), (λ e. subst (λ w. from_u8 w ≡ some r) e (from_u8-to_u8 r))),
  is_some-from_u8 v,
)
