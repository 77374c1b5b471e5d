-- ===== src/Window/Shift.antt =====
-- `shift`: the window moves over the indices that it has in a row, to the first that is missing.
use ruknet.Base.{
  ℕ, ◌%◌, ◌+◌, ◌-◌, ◌^◌, ◌≤◌, ◌<◌, ◌≡◌, refl, sym, ap, true, false, inl, inr, Bool-cases, Option,
  none, List, arith, ltb, ◌&&◌,
}
use ruknet.Base.Bits.{two-pow-pos}
use native.Mathlib.Nat.{mod-eq-sub-mod}
use native.Mathlib.Decide.{dec_lt}
use ruknet.Window.{Window, shift_loop, shift, add_u32, range_of, forget_passed}
use ruknet.Window.Loop.{LoopDone, shift_loop-LoopDone}
use ruknet.Window.Slots.{slot}
use ruknet.Window.Inv.{received, IsValid, Within, has}

module _ {T : Type 0} (k : ℕ) where
  module _ (w : Window T) (v : IsValid (2 ^ k) w)
      (room : w.start_index + 2 ^ k + 2 ^ k ≤ 2 ^ 32) where
    open w use {buf, start_index as start, furthest_index as furthest}

    range_le : range_of (2 ^ k) furthest start ≤ 2 ^ k
    range_le = ground (arith, v.fits)

    abbrev pub out : ℕ × List (Option T)
    out = shift_loop (2 ^ k) (range_of (2 ^ k) furthest start) start 0 buf

    done : LoopDone k start 0 (range_of (2 ^ k) furthest start) buf out
    done =
        shift_loop-LoopDone k (range_of (2 ^ k) furthest start) start 0 buf v.no_wrap
          (omega (arith, range_le)) v.slots

    pub count_le : out.0 ≤ 2 ^ k
    count_le = omega (arith, done.high, range_le)

    -- The slots of the moved window: those still ahead are kept, the new ones are empty.
    slot_ahead :
        (i : ℕ)
        → start ≤ i
        → i < start + 2 ^ k
        → start + out.0 ≤ i
        → slot (2 ^ k) out.1 i ≡ slot (2 ^ k) buf i
    slot_ahead i a b c =
        let e : start + (i - start) ≡ i = omega arith in
        let now = rw e at (done.now (i - start) (omega arith)) in ground (arith, now)

    pub slot_behind : (i : ℕ) → start ≤ i → i < start + out.0 → slot (2 ^ k) out.1 i ≡ none
    slot_behind i a c =
        let e : start + (i - start) ≡ i = omega arith in
        let now = rw e at (done.now (i - start) (omega (arith, count_le))) in ground (arith, now)

    slot_new : (i : ℕ) → start + 2 ^ k ≤ i → i < start + out.0 + 2 ^ k → slot (2 ^ k) out.1 i ≡ none
    slot_new i a c =
        let e : (i - 2 ^ k) % 2 ^ k ≡ i % 2 ^ k =
          sym (mod-eq-sub-mod {n = i} {m = 2 ^ k} (omega arith)) in
        let before : slot (2 ^ k) out.1 (i - 2 ^ k) ≡ none =
          slot_behind (i - 2 ^ k) (omega arith) (omega arith) in
        rw e at before

    taken : (i : ℕ) → start ≤ i → i < start + out.0 → has (2 ^ k) w i ≡ true
    taken i a c =
        let e : start + (i - start) ≡ i = omega arith in
        rw e at (done.taken (i - start) (omega arith) (omega arith))

    pub shift-eq : shift (2 ^ k) w ≡ (
      out.0,
      record {
        buf = out.1;
        start_index = start + out.0;
        furthest_index = forget_passed furthest out.0 start;
      },
    )
    unfolding shift
    shift-eq =
        let e : add_u32 start out.0 ≡ start + out.0 = omega (arith, count_le, two-pow-pos k) in
        ap
          (λ t. (
            out.0,
            record {
              buf = out.1;
              start_index = t;
              furthest_index = forget_passed furthest out.0 start;
            },
          ))
          e

    abbrev pub moved : Window T
    moved = record {
      buf = out.1;
      start_index = start + out.0;
      furthest_index = forget_passed furthest out.0 start;
    }

    -- The moved window has what it had ahead of its start, and nothing else.
    has-moved :
        (i : ℕ)
        → start + out.0 ≤ i
        → i < start + out.0 + 2 ^ k
        → has (2 ^ k) moved i ≡ (ltb i (start + 2 ^ k) && has (2 ^ k) w i)
    has-moved i a b = elim (dec_lt i (start + 2 ^ k)) [
      | yes inside ↦ ground (arith, slot_ahead i (omega arith) inside a)
      | no beyond ↦ ground (arith, slot_new i (omega arith) b)
    ]

    -- Behind the furthest index nothing is there.
    missing_end :
        (i : ℕ)
        → i ≡ start + range_of (2 ^ k) furthest start
        → i < start + 2 ^ k
        → has (2 ^ k) w i ≡ false
    missing_end i e h = elim (Bool-cases (has (2 ^ k) w i)) [
      | inr missing ↦ missing
      | inl there ↦ absurd (ground (arith, v.ahead i (omega arith) h there, v.fits))
    ]

    missing_stop : out.0 < 2 ^ k → has (2 ^ k) w (start + out.0) ≡ false
    missing_stop h = elim (dec_lt out.0 (range_of (2 ^ k) furthest start)) [
      | yes early ↦ done.stopped (omega arith)
      | no late ↦ missing_end (start + out.0) (omega (arith, done.high)) (omega arith)
    ]

    -- The start of the moved window is missing.
    start-missing : has (2 ^ k) moved (start + out.0) ≡ false
    start-missing = elim (dec_lt out.0 (2 ^ k)) [
      | yes inside ↦ ground (
        arith,
        slot_ahead (start + out.0) (omega arith) (omega arith) (omega arith),
        missing_stop inside,
      )
      | no full ↦
          ground (arith, slot_new (start + out.0) (omega arith) (omega (arith, two-pow-pos k)))
    ]

    Within-forget :
        (i : ℕ)
        → start + out.0 ≤ i
        → Within furthest i
        → Within (forget_passed furthest out.0 start) i
    Within-forget i a h = ground (arith, count_le)

    moved-IsValid : IsValid (2 ^ k) moved
    moved-IsValid = record {
      slots = done.slots;
      no_wrap = omega (arith, count_le);
      fits = ground (arith, v.fits, done.high);
      ahead =
          λ i a b h. Within-forget i a (ground (arith, has-moved i a b, v.ahead i (omega arith)));
    }

    received-moved : (i : ℕ) → i < start + 2 ^ k → received (2 ^ k) moved i ≡ received (2 ^ k) w i
    unfolding received
    received-moved i h = elim (dec_lt i (start + out.0)) [
      | no ahead ↦ ground (arith, has-moved i (omega arith) (omega arith))
      | yes passed ↦ elim (dec_lt i start) [
        | yes before ↦ ground arith
        | no within ↦ ground (arith, taken i (omega arith) passed)
      ]
    ]

  -- Shifting a well-formed window of 2^k slots, two windows short of 2^32, moves its start over
  -- the indices it has to the first it has not, and counts them. Up to the old window's end no
  -- index is received or forgotten by it, and the window stays well formed.
  pub shift_lem :
      (i : ℕ) (w : Window T)
      → IsValid (2 ^ k) w
      → w.start_index + 2 ^ k + 2 ^ k ≤ 2 ^ 32
      → i < w.start_index + 2 ^ k
      → let (count, w') = shift (2 ^ k) w in
        IsValid (2 ^ k) w'
        × (w'.start_index ≡ w.start_index + count)
        × (received (2 ^ k) w' w'.start_index ≡ false)
        × (received (2 ^ k) w' i ≡ received (2 ^ k) w i)
  unfolding received
  shift_lem i w v room h = rw (shift-eq w v room) (
    moved-IsValid w v room,
    refl,
    ground (arith, start-missing w v room),
    received-moved w v room i h,
  )
