-- ===== src/Rlp/Suffix.antt =====
-- The decoder as the bytes that it still has to read.
use div.Common.{
  ℕ, ◌+◌, ◌^◌, ◌≤◌, ◌<◌, ◌≡◌, ◌≢◌, refl, sym, ap, ◌∙◌, arith, true, false, List, [], ◌++◌, ltb,
  ◌==◌, length, get_or, take, drop, length-append, length-drop, drop-drop, get_or-drop,
  get_or-append_left, take-length-append, All, IsU8, u64, lt→ltb, le→ltb,
}
use div.Common.BigEndian.{be, shift_in, shift_in-be}
use div.Rlp.Decode.{
  RlpDecoder, RlpError, current, remaining, has_more, advance, decode_length, view_next,
}

-- The decoder stands before the bytes of `s`, which end its input.
pub record Before (d : RlpDecoder) (s : List ℕ) : Type 0 where
  pub suffix : drop d.pos d.input ≡ s
  pub inside : d.pos ≤ length d.input
  pub bound : length d.input < 2 ^ 63

module _ (d : RlpDecoder) (s : List ℕ) (v : Before d s) where
  pub size-Before : d.pos + length s ≡ length d.input
  size-Before = omega (arith, ap length v.suffix, length-drop d.pos d.input, v.inside)

  pub current-Before : current d ≡ get_or s 0 0
  current-Before =
      let here : d.pos ≡ d.pos + 0 = omega arith in
      ap (λ t. get_or d.input t 0) here
      ∙ sym (get_or-drop d.pos d.input 0 0)
      ∙ ap (λ t. get_or t 0 0) v.suffix

  pub remaining-Before : remaining d ≡ length s
  remaining-Before = ground (arith, size-Before)

  pub has_more-Before : 0 < length s → has_more d ≡ true
  has_more-Before h = lt→ltb d.pos (length d.input) (omega (arith, size-Before))

  pub advance-pos : (n : ℕ) → n ≤ length s → (advance n d).pos ≡ d.pos + n
  advance-pos n h = omega (arith, size-Before, v.bound)

  pub advance-Before : (n : ℕ) → n ≤ length s → Before (advance n d) (drop n s)
  advance-Before n h = record {
    suffix =
        ap (λ t. drop t d.input) (advance-pos n h)
        ∙ sym (drop-drop n d.pos d.input)
        ∙ ap (drop n) v.suffix;
    inside = omega (arith, advance-pos n h, size-Before);
    bound = v.bound;
  }

-- A view of bytes that stand next.
pub view_next-Before :
    (d : RlpDecoder) (header : ℕ) (xs rest : List ℕ)
    → Before d (xs ++ rest)
    → (view_next header (length xs) d).0 ≡ record {
      view = xs;
      len = length xs;
      bytes_consumed = u64 (header + length xs);
      error = RlpError.rlp_success;
    }
view_next-Before d header xs rest v =
    ap
      (λ t. record {
        view = t;
        len = length xs;
        bytes_consumed = u64 (header + length xs);
        error = RlpError.rlp_success;
      })
      (ap (take (length xs)) v.suffix ∙ take-length-append xs rest)

-- A length of `n` bytes that does not begin with 0.
pub decode_length-Before :
    (d : RlpDecoder) (n : ℕ) (xs rest : List ℕ)
    → Before d (xs ++ rest)
    → length xs ≡ n
    → 1 ≤ n
    → n ≤ 8
    → All IsU8 xs
    → get_or xs 0 0 ≢ 0
    → decode_length n d ≡ (
      record { view = []; len = be xs; bytes_consumed = n; error = RlpError.rlp_success },
      advance n d,
    )
unfolding decode_length
decode_length-Before d n xs rest v size low high bytes head =
    let enough : ltb (remaining d) n ≡ false =
      le→ltb (remaining d) n
        (omega (arith, remaining-Before d (xs ++ rest) v, length-append xs rest, size)) in
    let first : current d ≡ get_or xs 0 0 =
      current-Before d (xs ++ rest) v ∙ get_or-append_left xs rest 0 0 (omega arith) in
    let canonical : (current d == 0) ≡ false = ground (arith, first, head) in
    let next : take n (drop d.pos d.input) ≡ xs =
      ap (take n) v.suffix
      ∙ ap (λ t. take t (xs ++ rest)) (sym size)
      ∙ take-length-append xs rest in
    let value : shift_in 0 xs ≡ be xs =
      omega (arith, shift_in-be 0 0 xs (omega arith) (omega (arith, size)) bytes) in
    rw (enough, canonical, next, value) refl
