-- ===== src/Window/Loop.antt =====
-- The loop of `shift`: what it has done when it stops.
use ruknet.Base.{
  ℕ, zero, suc, ◌%◌, ◌+◌, ◌^◌, ◌≤◌, ◌<◌, ◌≡◌, ◌∙◌, true, false, inl, inr, Bool-cases, Option, none,
  List, arith, ltb, leb, ◌==◌, ◌&&◌, if◌then◌else◌, length, length-set, is_some, set,
}
use ruknet.Base.Bits.{two-pow-pos}
use native.Mathlib.Decide.{dec_lt}
use ruknet.Window.{shift_loop, add_u32}
use ruknet.Window.Slots.{slot, slot-set, relative_index-mod}

module _ {T : Type 0} (k : ℕ) where
  -- What the loop has done when it stops, begun at the distance `i` with `left` rounds to go.
  pub record LoopDone (start i left : ℕ) (buf : List (Option T)) (out : ℕ × List (Option T))
      : Type 0 where
    pub low : i ≤ out.0
    pub high : out.0 ≤ i + left
    pub slots : length out.1 ≡ 2 ^ k
    pub taken : (j : ℕ) → i ≤ j → j < out.0 → is_some (slot (2 ^ k) buf (start + j)) ≡ true
    pub stopped : out.0 < i + left → is_some (slot (2 ^ k) buf (start + out.0)) ≡ false
    pub now :
        (j : ℕ)
        → j < 2 ^ k
        → slot (2 ^ k) out.1 (start + j)
          ≡ (if leb i j && ltb j out.0 then none else slot (2 ^ k) buf (start + j))

  shift_loop_step :
      (left start i : ℕ) (buf : List (Option T))
      → start + i < 2 ^ 32
      → shift_loop (2 ^ k) (suc left) start i buf ≡ (
          if is_some (slot (2 ^ k) buf (start + i))
          then shift_loop (2 ^ k) left start (i + 1) (set buf ((start + i) % 2 ^ k) none)
          else (i, buf))
  unfolding shift_loop
  shift_loop_step left start i buf h =
      let e : add_u32 start i ≡ start + i = omega arith in
      ground (arith, e, relative_index-mod k (start + i))

  -- A round that finds a value comes before the rounds after it.
  LoopDone-next :
      (left start i : ℕ) (buf buf' : List (Option T)) (out : ℕ × List (Option T))
      → i < 2 ^ k
      → is_some (slot (2 ^ k) buf (start + i)) ≡ true
      → ((j : ℕ)
          → j < 2 ^ k
          → slot (2 ^ k) buf' (start + j)
            ≡ (if start + i == start + j then none else slot (2 ^ k) buf (start + j)))
      → i + suc left ≤ 2 ^ k
      → LoopDone start (i + 1) left buf' out
      → LoopDone start i (suc left) buf out
  LoopDone-next left start i buf buf' (c, out) room full kept fit ih = record {
    low = omega (arith, ih.low);
    high = omega (arith, ih.high);
    slots = ih.slots;
    taken = λ j a b. elim (dec_lt i j) [
      | yes later ↦ ground (arith, ih.taken j (omega arith) b, kept j (omega (arith, ih.high)))
      | no same ↦ let e : j ≡ i = omega arith in rw e full
    ];
    stopped = λ a. ground (arith, ih.stopped (omega arith), kept c (omega arith), ih.low);
    now = λ j a. ground (arith, ih.now j a, kept j a, ih.low);
  }

  pub shift_loop-LoopDone :
      (left start i : ℕ) (buf : List (Option T))
      → start + 2 ^ k ≤ 2 ^ 32
      → i + left ≤ 2 ^ k
      → length buf ≡ 2 ^ k
      → LoopDone start i left buf (shift_loop (2 ^ k) left start i buf)
  shift_loop-LoopDone zero start i buf h fit len =
      unfold shift_loop in
      record {
        low = omega arith;
        high = omega arith;
        slots = len;
        taken = λ j a b. absurd (omega arith);
        stopped = λ a. absurd (omega arith);
        now = λ j a. ground arith;
      }
  shift_loop-LoopDone (suc left) start i buf h fit len =
      elim (Bool-cases (is_some (slot (2 ^ k) buf (start + i)))) [
        | inr empty ↦
            rw (shift_loop_step left start i buf (omega arith), empty)
              (record {
                low = omega arith;
                high = omega arith;
                slots = len;
                taken = λ j a b. absurd (omega arith);
                stopped = λ a. empty;
                now = λ j a. ground arith;
              })
        | inl full ↦
            let buf' = set buf ((start + i) % 2 ^ k) none in
            let ih =
              shift_loop-LoopDone left start (i + 1) buf' h (omega arith)
                (length-set buf _ none ∙ len) in
            let kept = λ (j : ℕ) (a : j < 2 ^ k).
              slot-set (2 ^ k) (two-pow-pos k) buf start (start + i) (start + j) none len
                (omega arith) (omega arith) (omega arith) (omega arith) in
            rw (shift_loop_step left start i buf (omega arith), full)
              (LoopDone-next left start i buf buf' _ (omega arith) full kept fit ih)
      ]
