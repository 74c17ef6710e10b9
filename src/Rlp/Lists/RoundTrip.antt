-- ===== src/Rlp/Lists/RoundTrip.antt =====
-- Lists are built as RLP says, and their headers are read back.
use div.Common.{
  ℕ, suc, Bool, ◌+◌, ◌-◌, ◌^◌, ◌≤◌, ◌<◌, ◌≡◌, refl, sym, ap, ap₂, ◌∙◌, arith, true, false, List, [],
  ◌∷◌, ◌++◌, append_assoc, ltb, leb, if◌then◌else◌, Bool-cases, inl, inr, ltb→lt, ltb→le, length,
  take, drop, replicate, length-append, take-length-append, drop-length-append, drop-drop, take-all,
  u8, sub_u64,
}
use mathlib.Core.Path.{subst}
use native.Mathlib.Nat.{mod-eq_of_lt}
use div.Common.BigEndian.{be}
use div.Types.Bytes.{Bytes, append}
use div.Rlp.Encoding.{filled, append-filled}
use div.Rlp.{length_of_length}
use div.Rlp.Encode.{be_bytes}
use div.Rlp.Lengths.{
  length_of_length-IsByteCount, be_bytes-Holds, be_bytes_head, write_length_bytes-be_bytes,
}
use div.Rlp.Decode.{RlpDecoder, RlpError, has_more, current, advance, decode_length}
use div.Rlp.Suffix.{
  Before, size-Before, current-Before, has_more-Before, advance-Before, advance-pos,
  decode_length-Before,
}
use div.Rlp.RoundTrip.{moved}
use div.Rlp.Lists.{list_append, list_header, list_end, after_list_length, decode_list_header}

-- The header of a list whose items take `n` bytes.
abbrev pub header : ℕ → List ℕ
header n =
    if ltb n 56
    then (0xc0 + n) ∷ []
    else (0xf7 + length_of_length n) ∷ be_bytes (length_of_length n) n

-- The encoding of a list with the encodings of its items.
abbrev pub list_encoding : List ℕ → List ℕ
list_encoding payload = header (length payload) ++ payload

list_header-header : (n : ℕ) → n < 2 ^ 63 → list_header n ≡ header n
unfolding list_header
list_header-header n h = elim (Bool-cases (ltb n 56)) [
  | inl short ↦
      let exact : u8 (0xc0 + n) ≡ 0xc0 + n = omega (arith, ltb→lt _ _ short) in
      rw (short, exact) refl
  | inr long ↦
      let count = length_of_length-IsByteCount n (omega arith) (ltb→le _ _ long) in
      let exact : u8 (0xf7 + length_of_length n) ≡ 0xf7 + length_of_length n =
        omega (arith, count.2) in
      rw (long, exact, write_length_bytes-be_bytes n) refl
]

pub header_bound : (n : ℕ) → n < 2 ^ 63 → (1 ≤ length (header n)) × (length (header n) ≤ 9)
header_bound n h = elim (Bool-cases (ltb n 56)) [
  | inl short ↦ rw short (omega arith)
  | inr long ↦
      let count = length_of_length-IsByteCount n (omega arith) (ltb→le _ _ long) in
      let size = (be_bytes-Holds (length_of_length n) n).1 in rw long (omega (arith, size, count.2))
]

-- What the two moves make of the reserved bytes.
take_append : (n : ℕ) (xs ys : List ℕ) → length xs ≡ n → take n (xs ++ ys) ≡ xs
take_append n xs ys e = ap (λ t. take t (xs ++ ys)) (sym e) ∙ take-length-append xs ys

drop_append : (n : ℕ) (xs ys : List ℕ) → length xs ≡ n → drop n (xs ++ ys) ≡ ys
drop_append n xs ys e = ap (λ t. drop t (xs ++ ys)) (sym e) ∙ drop-length-append xs ys

closed_gap :
    (before hd payload : List ℕ)
    → length hd ≤ 9
    → let written = before ++ (hd ++ drop (length hd) (replicate 9 0 ++ payload)) in
      take (length before + length hd) written
        ++ take (length payload) (drop (length before + 9) written)
      ≡ before ++ (hd ++ payload)
closed_gap before hd payload h =
    let k : ℕ = length hd in
    let m : ℕ = length before in
    let spare : List ℕ = drop k (replicate 9 0 ++ payload) in
    let written : List ℕ = before ++ (hd ++ spare) in
    let apart : written ≡ (before ++ hd) ++ spare = sym (append_assoc before hd spare) in
    let front : take (m + k) written ≡ before ++ hd =
      ap (take (m + k)) apart
      ∙ take_append (m + k) (before ++ hd) spare (length-append before hd) in
    let split : m + 9 ≡ (m + k) + (9 - k) = omega (arith, h) in
    let all_of_it : k + (9 - k) ≡ 9 = omega (arith, h) in
    let back : drop (m + 9) written ≡ payload =
      ap (λ t. drop t written) split
      ∙ sym (drop-drop (9 - k) (m + k) written)
      ∙ ap (λ t. drop (9 - k) (drop (m + k) t)) apart
      ∙ ap (drop (9 - k)) (drop_append (m + k) (before ++ hd) spare (length-append before hd))
      ∙ drop-drop (9 - k) k (replicate 9 0 ++ payload)
      ∙ ap (λ t. drop t (replicate 9 0 ++ payload)) all_of_it in
    ap₂ ◌++◌ front
      (ap (take (length payload)) back ∙ take-all (length payload) payload (omega arith))
    ∙ append_assoc before hd payload

-- The end of a list leaves the buffer allocated.
pub list_end-allocated :
    (header_pos : ℕ) (output : Bytes) → (list_end header_pos output).allocated ≡ output.allocated
unfolding list_end
list_end-allocated header_pos output =
    let size : ℕ = length (list_header (sub_u64 (sub_u64 (length output.stored) header_pos) 9)) in
    elim (Bool-cases (ltb size 9)) [ inl less ↦ rw less refl | inr whole ↦ rw whole refl ]

-- A complete list stands where it was begun, behind what was there before.
pub list_end-list_encoding :
    (before payload : List ℕ) (output : Bytes)
    → length before + 9 + length payload < 2 ^ 63
    → output.stored ≡ before ++ (replicate 9 0 ++ payload)
    → (list_end (length before) output).stored ≡ before ++ list_encoding payload
unfolding list_end
list_end-list_encoding before payload output h stored =
    let m : ℕ = length before in
    let n : ℕ = length payload in
    let total : length output.stored ≡ m + 9 + n =
      omega (arith, ap length stored, length-append before (replicate 9 0 ++ payload)) in
    let payload_len : sub_u64 (sub_u64 (length output.stored) m) 9 ≡ n = omega (arith, total) in
    let size = header_bound n (omega arith) in
    let k : ℕ = length (header n) in
    let front : take m output.stored ≡ before = ap (take m) stored ∙ take_append m before _ refl in
    let back : drop (m + k) output.stored ≡ drop k (replicate 9 0 ++ payload) =
      sym (drop-drop k m output.stored)
      ∙ ap (λ t. drop k (drop m t)) stored
      ∙ ap (drop k) (drop_append m before _ refl) in
    rw (payload_len, list_header-header n (omega arith), front, back)
      (elim (Bool-cases (ltb k 9)) [
        | inl gap ↦ rw gap (closed_gap before (header n) payload size.1)
        | inr exact ↦ rw exact (
            ap (λ t. before ++ (header n ++ drop t (replicate 9 0 ++ payload)))
              (full k exact size.1))
      ])
  where
    full : (i : ℕ) → ltb i 9 ≡ false → i ≤ 9 → i ≡ 9
    full i e b = omega (arith, ltb→le _ _ e)

decode_prefix :
    (d : RlpDecoder)
    → has_more d ≡ true
    → leb (current d) 0xbf ≡ false
    → decode_list_header d ≡ (
        if leb (current d) 0xf7
        then (
          record {
            payload_length = current d - 0xc0;
            bytes_consumed = 1;
            error = RlpError.rlp_success;
          },
          advance 1 d,
        )
        else after_list_length (current d - 0xf7) (decode_length (current d - 0xf7) (advance 1 d)))
unfolding decode_list_header
decode_prefix d more list = rw (more, list) refl

read_header :
    (d : RlpDecoder) (n : ℕ) (rest : List ℕ)
    → Before d (header n ++ rest)
    → n < 2 ^ 63
    → decode_list_header d ≡ (
      record {
        payload_length = n;
        bytes_consumed = length (header n);
        error = RlpError.rlp_success;
      },
      moved (length (header n)) d,
    )
read_header d n rest v b = elim (Bool-cases (ltb n 56)) [
  | inl short ↦
      let hd : header n ≡ (0xc0 + n) ∷ [] = rw short refl in
      let w : Before d ((0xc0 + n) ∷ rest) = subst (λ t. Before d (t ++ rest)) hd v in
      let first : current d ≡ 0xc0 + n = current-Before d ((0xc0 + n) ∷ rest) w in
      let list : leb (current d) 0xbf ≡ false = ground (arith, first) in
      let in_one : leb (0xc0 + n) 0xf7 ≡ true = ground (arith, short) in
      let size : 0xc0 + n - 0xc0 ≡ n = omega arith in
      let step : advance 1 d ≡ moved 1 d =
        ap (λ t. record d { pos = t }) (advance-pos d ((0xc0 + n) ∷ rest) w 1 (omega arith)) in
      decode_prefix d (has_more-Before d ((0xc0 + n) ∷ rest) w (omega arith)) list
      ∙ rw (first, in_one, size, step, hd) refl
  | inr long ↦
      let m : ℕ = length_of_length n in
      let hd : header n ≡ (0xf7 + m) ∷ be_bytes m n = rw long refl in
      let w : Before d ((0xf7 + m) ∷ (be_bytes m n ++ rest)) =
        subst (λ t. Before d (t ++ rest)) hd v in
      let whole : List ℕ = (0xf7 + m) ∷ (be_bytes m n ++ rest) in
      let count = length_of_length-IsByteCount n (omega arith) (ltb→le _ _ long) in
      let written = be_bytes-Holds m n in
      let value : be (be_bytes m n) ≡ n = written.0 ∙ mod-eq_of_lt count.0.holds in
      let first : current d ≡ 0xf7 + m = current-Before d whole w in
      let list : leb (current d) 0xbf ≡ false = ground (arith, first) in
      let in_more : leb (0xf7 + m) 0xf7 ≡ false = ground (arith, count.1) in
      let size : 0xf7 + m - 0xf7 ≡ m = omega arith in
      let later = advance-Before d whole w 1 (omega arith) in
      let length_read =
        decode_length-Before (advance 1 d) m (be_bytes m n) rest later written.1 count.1 count.2
          written.2 (be_bytes_head m n count.0 count.1) in
      let room : 1 + m ≤ length whole =
        omega (arith, length-append (be_bytes m n) rest, written.1) in
      let step : advance m (advance 1 d) ≡ moved (1 + m) d =
        ap (λ t. record d { pos = t }) (omega (arith, size-Before d whole w, w.bound, room)) in
      let bytes : suc (length (be_bytes m n)) ≡ 1 + m = omega (arith, written.1) in
      decode_prefix d (has_more-Before d whole w (omega arith)) list
      ∙ rw (first, in_more, size, length_read, value, long, step)
          (ap
            (λ t. (
              record { payload_length = n; bytes_consumed = t; error = RlpError.rlp_success },
              moved t d,
            ))
            (sym bytes))
]

-- A decoder that stands before a list of fewer than 2 ^ 63 bytes reads its header: it reports the
-- size of the items, and moves exactly to the first of them.
pub decode_list_header-list_encoding :
    (d : RlpDecoder) (payload rest : List ℕ)
    → Before d (list_encoding payload ++ rest)
    → length payload < 2 ^ 63
    → (decode_list_header d ≡ (
      record {
        payload_length = length payload;
        bytes_consumed = length (header (length payload));
        error = RlpError.rlp_success;
      },
      moved (length (header (length payload))) d,
    ))
      × Before (moved (length (header (length payload))) d) (payload ++ rest)
decode_list_header-list_encoding d payload rest v b =
    let n : ℕ = length payload in
    let k : ℕ = length (header n) in
    let whole : List ℕ = header n ++ (payload ++ rest) in
    let v' : Before d whole = record {
      suffix = v.suffix ∙ append_assoc (header n) payload rest;
      inside = v.inside;
      bound = v.bound;
    } in
    let total : length whole ≡ k + length (payload ++ rest) =
      length-append (header n) (payload ++ rest) in
    let step : advance k d ≡ moved k d =
      ap (λ t. record d { pos = t }) (advance-pos d whole v' k (omega (arith, total))) in
    let later : Before (moved k d) (payload ++ rest) =
      subst (λ t. Before (moved k d) t) (drop_append k (header n) (payload ++ rest) refl)
        (subst (λ t. Before t (drop k whole)) step
          (advance-Before d whole v' k (omega (arith, total)))) in
    (read_header d n (payload ++ rest) v' b, later)

-- An item is appended within the capacity.
pub list_append-filled :
    (alloc : ℕ → Bool) (n : ℕ) (xs ys : List ℕ) (item : Bytes)
    → item.stored ≡ ys
    → length xs + length ys ≤ n
    → n < 2 ^ 64
    → list_append alloc (filled alloc n xs) item ≡ filled alloc n (xs ++ ys)
unfolding list_append
list_append-filled alloc n xs ys item e h k =
    ap (λ t. (append alloc t (filled alloc n xs)).1) e ∙ append-filled alloc n xs ys h k
