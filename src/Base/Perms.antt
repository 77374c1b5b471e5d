-- ===== src/Base/Perms.antt =====
-- Rearrangements of lists.
use mathlib.Core.List.{List, ◌++◌, append_assoc, Perm, perm_append_comm}
use mathlib.Core.List.Perm

module _ {A : Type 0} where
  pub perm_swap_front : (xs ys zs : List A) → Perm (xs ++ (ys ++ zs)) (ys ++ (xs ++ zs))
  perm_swap_front xs ys zs =
      rw (← append_assoc xs ys zs, ← append_assoc ys xs zs)
        (Perm.append_right zs (perm_append_comm xs ys))
