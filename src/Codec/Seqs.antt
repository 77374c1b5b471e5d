-- ===== src/Codec/Seqs.antt =====
-- Acknowledged numbers on the wire: `put_seqs` sorts them and gathers runs, `try_get_seqs` spreads
-- the runs out again.
use mathlib.Core.List.{Perm}
use mathlib.Core.List.Perm
use ruknet.Base.{
  ℕ, zero, suc, ◌+◌, ◌-◌, ◌%◌, ◌^◌, ◌≤◌, ◌<◌, ◌≡◌, refl, sym, ap, ◌∙◌, inl, inr, Bool-cases, some,
  List, [], ◌∷◌, ◌++◌, append_assoc, append-nil, arith, length, leb, ◌==◌, if◌then◌else◌, ok,
}
use ruknet.Base.Bytes.{be, le_bytes}
use ruknet.Buf.{Buf, IsBuf}
use ruknet.Buf.Laws.{get_u8-be, get_u16-be, get_uint_le-le}
use ruknet.Codec.Decode.{upto, try_get_u24_le, try_get_range, try_get_ranges, try_get_seqs}
use ruknet.Codec.Encode.{
  insert_sorted, sort, seq_ranges, put_u24_le, put_range, put_ranges, put_sorted, put_seqs,
}

abbrev pub AllBelow : ℕ → List ℕ → Type 0
AllBelow n [] = Unit
AllBelow n (x ∷ xs) = (x < n) × AllBelow n xs

-- What an acknowledgement can carry.
pub record IsSeqs (seqs : List ℕ) : Type 0 where
  pub nonempty : 0 < length seqs
  pub short : length seqs < 2 ^ 16
  pub below : AllBelow (2 ^ 24) seqs

insert_sorted-AllBelow :
    (n x : ℕ) (xs : List ℕ) → x < n → AllBelow n xs → AllBelow n (insert_sorted x xs)
unfolding insert_sorted
insert_sorted-AllBelow n x [] h k = (h, tt)
insert_sorted-AllBelow n x (y ∷ ys) h k = ground (arith, insert_sorted-AllBelow n x ys h k.1)

sort-AllBelow : (n : ℕ) (xs : List ℕ) → AllBelow n xs → AllBelow n (sort xs)
unfolding sort
sort-AllBelow n [] k = tt
sort-AllBelow n (x ∷ xs) k = insert_sorted-AllBelow n x (sort xs) k.0 (sort-AllBelow n xs k.1)

length-insert_sorted : (x : ℕ) (xs : List ℕ) → length (insert_sorted x xs) ≡ suc (length xs)
unfolding insert_sorted
length-insert_sorted x [] = refl
length-insert_sorted x (y ∷ ys) = ground (arith, length-insert_sorted x ys)

length-sort : (xs : List ℕ) → length (sort xs) ≡ length xs
unfolding sort
length-sort [] = refl
length-sort (x ∷ xs) = length-insert_sorted x (sort xs) ∙ ap suc (length-sort xs)

insert_sorted-perm : (x : ℕ) (xs : List ℕ) → Perm (insert_sorted x xs) (x ∷ xs)
unfolding insert_sorted
insert_sorted-perm x [] = Perm.refl _
insert_sorted-perm x (y ∷ ys) = elim (Bool-cases (leb x y)) [
  | inl le ↦ rw (le, insert_sorted) (Perm.refl _)
  | inr gt ↦
      rw (gt, insert_sorted) (Perm.trans (Perm.cons y (insert_sorted-perm x ys)) (Perm.swap x y ys))
]

sort-perm : (xs : List ℕ) → Perm (sort xs) xs
unfolding sort
sort-perm [] = Perm.refl _
sort-perm (x ∷ xs) = Perm.trans (insert_sorted-perm x (sort xs)) (Perm.cons x (sort-perm xs))

-- The numbers that the ranges stand for.
expand : List (ℕ × ℕ) → List ℕ
expand [] = []
expand ((start, end) ∷ rs) = upto start (end + 1 - start) ++ expand rs

abbrev AreRanges : List (ℕ × ℕ) → Type 0
AreRanges [] = Unit
AreRanges ((start, end) ∷ rs) = (start ≤ end) × (end < 2 ^ 24) × AreRanges rs

upto-snoc : (start n : ℕ) → upto start (suc n) ≡ upto start n ++ (start + n) ∷ []
unfolding upto
upto-snoc start zero = ap (λ t. t ∷ []) (omega arith)
upto-snoc start (suc n) =
    ap (◌∷◌ start) (upto-snoc (start + 1) n ∙ ap (λ t. upto (start + 1) n ++ t ∷ []) (omega arith))

-- One number more at the end of a run.
upto-extend :
    (start end x : ℕ)
    → start ≤ end
    → x ≡ end + 1
    → upto start (x + 1 - start) ≡ upto start (end + 1 - start) ++ x ∷ []
upto-extend start end x h e =
    ap (upto start) (omega arith)
    ∙ upto-snoc start (end + 1 - start)
    ∙ ap (λ t. upto start (end + 1 - start) ++ t ∷ []) (omega arith)

upto_single : (x : ℕ) → upto x 1 ≡ x ∷ []
unfolding upto
upto_single x = refl

upto_one : (x : ℕ) → upto x (x + 1 - x) ≡ x ∷ []
unfolding upto
upto_one x = let one : x + 1 - x ≡ 1 = omega arith in rw one

seq_ranges-expand :
    (start end : ℕ) (xs : List ℕ)
    → start ≤ end
    → end < 2 ^ 24
    → AllBelow (2 ^ 24) xs
    → (expand (seq_ranges start end xs) ≡ upto start (end + 1 - start) ++ xs)
      × AreRanges (seq_ranges start end xs)
      × (length (seq_ranges start end xs) ≤ suc (length xs))
unfolding seq_ranges expand
seq_ranges-expand start end [] h k a = (refl, (h, k, tt), omega arith)
seq_ranges-expand start end (x ∷ xs) h k a = elim (Bool-cases (x == (end + 1) % 2 ^ 32)) [
  | inl next ↦
      let follows : x ≡ end + 1 = ground arith in
      let ih = seq_ranges-expand start x xs (omega arith) a.0 a.1 in
      rw (next, seq_ranges)
        (
          ih.0
              ∙ ap (λ t. t ++ xs) (upto-extend start end x h follows)
              ∙ append_assoc (upto start (end + 1 - start)) (x ∷ []) xs,
          ih.1,
          omega (arith, ih.2),
        )
  | inr gap ↦
      let ih = seq_ranges-expand x x xs (omega arith) a.0 a.1 in
      rw (gap, seq_ranges)
        (
          ap (◌++◌ (upto start (end + 1 - start))) (ih.0 ∙ ap (λ t. t ++ xs) (upto_one x)),
          (h, k, ih.1),
          omega (arith, ih.2),
        )
]

abbrev range_bytes : ℕ × ℕ → List ℕ
range_bytes (start, end) =
    if start == end
    then be 1 1 ++ le_bytes 3 start
    else be 1 0 ++ (le_bytes 3 start ++ le_bytes 3 end)

abbrev ranges_bytes : List (ℕ × ℕ) → List ℕ
ranges_bytes [] = []
ranges_bytes (r ∷ rs) = range_bytes r ++ ranges_bytes rs

module _ (b : Buf) (laws : IsBuf b) where
  put_range-append : (r : ℕ × ℕ) (s : List ℕ) → put_range b r s ≡ s ++ range_bytes r
  unfolding put_range put_u24_le
  put_range-append (start, end) s = elim (Bool-cases (start == end)) [
    | inl same ↦ rw (same, put_range) (simp (laws.append_uint_le, laws.append_u8, append_assoc))
    | inr differ ↦ rw (differ, put_range) (simp (laws.append_uint_le, laws.append_u8, append_assoc))
  ]

  put_ranges-append : (rs : List (ℕ × ℕ)) (s : List ℕ) → put_ranges b rs s ≡ s ++ ranges_bytes rs
  unfolding put_ranges
  put_ranges-append [] s = sym (append-nil s)
  put_ranges-append (r ∷ rs) s =
      put_ranges-append rs (put_range b r s)
      ∙ ap (λ t. t ++ ranges_bytes rs) (put_range-append r s)
      ∙ append_assoc s (range_bytes r) (ranges_bytes rs)

  -- A range in front of other bytes, its marker apart.
  get_range :
      (start end : ℕ) (rest : List ℕ)
      → start ≤ end
      → end < 2 ^ 24
      → (kind : ℕ) × (body : List ℕ) × (range_bytes (start, end) ++ rest ≡ be 1 kind ++ body)
        × (kind < 2)
        × (try_get_range b kind body ≡ ok (upto start (end + 1 - start), rest))
  unfolding try_get_range try_get_u24_le
  get_range start end rest h k = elim (Bool-cases (start == end)) [
    | inl same ↦
        let e : end + 1 - start ≡ 1 = ground arith in
        (
          1,
          le_bytes 3 start ++ rest,
          rw same,
          omega arith,
          rw e
              (ground (arith, upto_single start, get_uint_le-le b laws 3 start rest (omega arith))),
        )
    | inr differ ↦ (
      0,
      le_bytes 3 start ++ (le_bytes 3 end ++ rest),
      rw differ,
      omega arith,
      ground (
        arith,
        get_uint_le-le b laws 3 start (le_bytes 3 end ++ rest) (omega arith),
        get_uint_le-le b laws 3 end rest k,
      ),
    )
  ]

  get_ranges :
      (rs : List (ℕ × ℕ)) (rest : List ℕ)
      → AreRanges rs
      → try_get_ranges b (length rs) (ranges_bytes rs ++ rest) ≡ ok (expand rs, rest)
  unfolding try_get_ranges expand
  get_ranges [] rest h = refl
  get_ranges ((start, end) ∷ rs) rest h =
      let (kind, body, e, small, got) = get_range start end (ranges_bytes rs ++ rest) h.0 h.1 in
      rw (append_assoc (range_bytes (start, end)) (ranges_bytes rs) rest, e)
        (ground (arith, get_u8-be b laws kind body (omega arith), got, get_ranges rs rest h.2))

  put_sorted-bytes :
      (x : ℕ) (xs s : List ℕ)
      → put_sorted b (x ∷ xs) s
        ≡ some
            (s ++ (be 2 (length (seq_ranges x x xs) % 2 ^ 16) ++ ranges_bytes (seq_ranges x x xs)))
  unfolding put_sorted
  put_sorted-bytes x xs s = ap some (
      put_ranges-append (seq_ranges x x xs) _
      ∙ ap (λ t. t ++ ranges_bytes (seq_ranges x x xs)) (laws.append_u16 _ s)
      ∙ append_assoc s _ _)

  sorted-round_trip :
      (xs s rest : List ℕ)
      → 0 < length xs
      → length xs < 2 ^ 16
      → AllBelow (2 ^ 24) xs
      → (out : List ℕ) × (put_sorted b xs s ≡ some (s ++ out))
        × (try_get_seqs b (out ++ rest) ≡ ok (xs, rest))
  unfolding try_get_seqs
  sorted-round_trip [] s rest h k a = absurd (omega arith)
  sorted-round_trip (x ∷ xs) s rest h k a =
      let rs = seq_ranges x x xs in
      let (e, ranges, short) = seq_ranges-expand x x xs (omega arith) a.0 a.1 in
      let small : length rs % 2 ^ 16 ≡ length rs = omega arith in
      (
        _,
        put_sorted-bytes x xs s,
        ground (
          arith,
          small,
          get_u16-be b laws (length rs) (ranges_bytes rs ++ rest) (omega arith),
          get_ranges rs rest ranges,
          e,
          upto_one x,
        ),
      )

  pub seqs-round_trip :
      (seqs s rest : List ℕ)
      → IsSeqs seqs
      → (out : List ℕ) × (put_seqs b seqs s ≡ some (s ++ out))
        × (try_get_seqs b (out ++ rest) ≡ ok (sort seqs, rest))
  unfolding put_seqs
  seqs-round_trip seqs s rest w =
      sorted-round_trip (sort seqs) s rest (omega (arith, length-sort seqs))
        (omega (arith, length-sort seqs)) (sort-AllBelow (2 ^ 24) seqs w.below)

  -- Numbers below 2^24, at least one and fewer than 2^16 of them, are written, and what is read back
  -- from the bytes written, whatever follows them, is the sorted list of the same numbers.
  pub try_get_seqs-put_seqs :
      (seqs rest : List ℕ)
      → IsSeqs seqs
      → Perm (sort seqs) seqs
        × ((out : List ℕ) × (put_seqs b seqs [] ≡ some out)
            × (try_get_seqs b (out ++ rest) ≡ ok (sort seqs, rest)))
  try_get_seqs-put_seqs seqs rest w = (sort-perm seqs, seqs-round_trip seqs [] rest w)
