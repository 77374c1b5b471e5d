-- ===== src/Layer/Receive/Reliable.antt =====
-- Reliable fragments: the window in front of reassembly and ordering.
use ruknet.Base.{
  ℕ, ◌+◌, ◌^◌, ◌≤◌, ◌<◌, ◌≡◌, refl, ◌∙◌, Bool, true, false, not, some, if◌then◌else◌, arith, ok,
}
use ruknet.Datagram.{Fragment}
use ruknet.Window.{Window, insert, shift}
use ruknet.Window.Inv.{IsValid, received}
use ruknet.Window.Insert.{insert_lem}
use ruknet.Window.Shift.{shift_lem}
use ruknet.Layer.{Layer, reliable_window_size}
use ruknet.Layer.Receive.{handle_fragment, reassemble}

module _ {C : Type 0} where
  by_novelty :
      (f : Fragment) (l : Layer C) (index : ℕ) (old : Bool) (w : Window (Unit {0}))
      → f.reliable_index ≡ some index
      → insert reliable_window_size index tt l.reliable_window ≡ ok (not old, w)
      → handle_fragment f l ≡ (
          if old
          then ok l
          else reassemble f (record l { reliable_window = (shift reliable_window_size w).1 }))
  unfolding handle_fragment
  by_novelty f l index true w e eq = rw (e, eq) refl
  by_novelty f l index false w e eq = rw (e, eq) refl

  -- A reliable fragment with an index of the window, two windows short of 2^32, goes on to reassembly
  -- just when that index was not received before; otherwise nothing changes. Then the index counts as
  -- received, and the window is well formed.
  pub handle_fragment_once :
      (f : Fragment) (l : Layer C) (index : ℕ)
      → f.reliable_index ≡ some index
      → IsValid reliable_window_size l.reliable_window
      → l.reliable_window.start_index + reliable_window_size + reliable_window_size ≤ 2 ^ 32
      → l.reliable_window.start_index ≤ index
      → index < l.reliable_window.start_index + reliable_window_size
      → (w : Window (Unit {0})) × (handle_fragment f l ≡ (
          if received reliable_window_size l.reliable_window index
          then ok l
          else reassemble f (record l { reliable_window = w })))
        × (received reliable_window_size w index ≡ true)
        × IsValid reliable_window_size w
  handle_fragment_once f l index e v room lo hi =
      let (w1, eq, v1, start, got) = insert_lem 9 index index tt l.reliable_window v lo hi hi in
      let (v2, _, _, same) =
        shift_lem 9 index w1 v1 (omega (arith, start)) (omega (arith, start)) in
      let w = (shift reliable_window_size w1).1 in
      (
        w,
        by_novelty f l index (received reliable_window_size l.reliable_window index) w1 e eq,
        same ∙ got ∙ ground arith,
        v2,
      )
