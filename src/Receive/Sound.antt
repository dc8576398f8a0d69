-- ===== src/Receive/Sound.antt =====
-- What a frame that `_try_parse` returns (host/lib/runner_proto.py) says of the buffer.
use mps4_prototyping_board.Prelude.{
  ℕ, zero, suc, ◌+◌, ◌≤◌, ◌<◌, ◌≡◌, sym, ap, ◌∙◌, arith, [], ◌∷◌, ◌++◌, true, some, length,
  length-take, length-drop, take, drop, drop-drop, take-append-drop, append_assoc, All, All-drop,
  get_or, Option-cases, inl, inr,
}
use mps4_prototyping_board.Bytes.{Bytes, IsByte, IsU32, le32, word, find, starts_with, crc32}
use mps4_prototyping_board.Bytes.Words.{le32-word, word-IsU32}
use mps4_prototyping_board.Bytes.Find.{find-starts}
use mps4_prototyping_board.Proto.{
  Frame, magic_bytes, header_len, max_payload, body_bytes, frame_bytes,
}
use mps4_prototyping_board.Proto.Layout.{IsFrame}
use mps4_prototyping_board.Receive.{
  Receiver, skip, deliver, check_candidate, round, try_parse, declared_len, read_u32, unpack_frame,
  parse_loop,
}
use mps4_prototyping_board.Receive.Step.{
  round-none, round-some, check_candidate-eq-deliver, round_again_drop,
}
use mps4_prototyping_board.Receive.Fuel.{
  Round-cases, parse_loop_deliver, parse_loop_wait, parse_loop_again,
}

-- Four bytes are the bytes of the word that is read from them.
le32-read_u32 : (bs : Bytes) → 4 ≤ length bs → All IsByte bs → le32 (read_u32 bs) ++ drop 4 bs ≡ bs
unfolding read_u32
le32-read_u32 (a ∷ b ∷ c ∷ d ∷ rest) h (p, (q, (r, (s, t)))) =
    ap (λ l. l ++ rest) (le32-word a b c d p q r s)
le32-read_u32 _ h k = absurd (omega arith)

take_16 :
    (n : ℕ) (b0 b1 b2 b3 b4 b5 b6 b7 b8 b9 b10 b11 b12 b13 b14 b15 : ℕ) (tl : Bytes)
    → take
        (16 + n)
        (b0 ∷ b1 ∷ b2 ∷ b3 ∷ b4 ∷ b5 ∷ b6 ∷ b7 ∷ b8 ∷ b9 ∷ b10 ∷ b11 ∷ b12 ∷ b13 ∷ b14 ∷ b15 ∷ tl)
      ≡ (b0
          ∷ b1
          ∷ b2
          ∷ b3
          ∷ b4
          ∷ b5
          ∷ b6
          ∷ b7
          ∷ b8
          ∷ b9
          ∷ b10
          ∷ b11
          ∷ b12
          ∷ b13
          ∷ b14
          ∷ b15
          ∷ take n tl)
take_16 n b0 b1 b2 b3 b4 b5 b6 b7 b8 b9 b10 b11 b12 b13 b14 b15 tl =
    ap
      (λ (k : ℕ).
        take k (
          b0 ∷ b1 ∷ b2 ∷ b3 ∷ b4 ∷ b5 ∷ b6 ∷ b7 ∷ b8 ∷ b9 ∷ b10 ∷ b11 ∷ b12 ∷ b13 ∷ b14 ∷ b15 ∷ tl))
      sixteen
  where
    sixteen :
        16 + n
        ≡ suc (
            suc
              (suc (suc (suc (suc (suc (suc (suc (suc (suc (suc (suc (suc (suc (suc n)))))))))))))))
    sixteen = omega arith

length-take_le : (n : ℕ) (xs : Bytes) → n ≤ length xs → length (take n xs) ≡ n
length-take_le n xs h = omega (arith, length-take n xs)

-- The header and the payload of the frame that was read are the first bytes of the buffer.
body_bytes-unpack_frame :
    (bs : Bytes)
    → 16 ≤ length bs
    → All IsByte bs
    → starts_with magic_bytes bs ≡ true
    → header_len + declared_len bs ≤ length bs
    → body_bytes (unpack_frame bs) ≡ take (header_len + declared_len bs) bs
unfolding unpack_frame read_u32 starts_with body_bytes
body_bytes-unpack_frame
      (b0 ∷ b1 ∷ b2 ∷ b3 ∷ b4 ∷ b5 ∷ b6 ∷ b7 ∷ b8 ∷ b9 ∷ b10 ∷ b11 ∷ b12 ∷ b13 ∷ b14 ∷ b15 ∷ tl) h k
      m fits =
    rw (take_16 (word b12 b13 b14 b15), length-take_le (word b12 b13 b14 b15) tl (omega arith))
      (ground arith)
body_bytes-unpack_frame _ h k m fits = absurd (omega arith)

-- A buffer at a whole frame whose CRC fits is that frame's bytes, and what follows them.
frame_bytes-unpack_frame :
    (bs : Bytes)
    → 16 ≤ length bs
    → All IsByte bs
    → starts_with magic_bytes bs ≡ true
    → header_len + declared_len bs + 4 ≤ length bs
    → read_u32 (drop (header_len + declared_len bs) bs)
      ≡ crc32 (take (header_len + declared_len bs) bs)
    → bs ≡ frame_bytes (unpack_frame bs) ++ drop (header_len + declared_len bs + 4) bs
unfolding frame_bytes
frame_bytes-unpack_frame bs h k m fits crc =
    rw
      (
        append_assoc (body_bytes (unpack_frame bs)) (le32 (crc32 (body_bytes (unpack_frame bs))))
            (drop (header_len + declared_len bs + 4) bs),
        body_bytes-unpack_frame bs h k m (omega arith),
        ← crc,
        ← drop-drop 4 (header_len + declared_len bs) bs,
        le32-read_u32 (drop (header_len + declared_len bs) bs)
            (omega (arith, length-drop (header_len + declared_len bs) bs))
            (All-drop IsByte (header_len + declared_len bs) bs k),
      )
      (sym (take-append-drop (header_len + declared_len bs) bs))

get_or-IsByte : (n : ℕ) (bs : Bytes) → All IsByte bs → get_or bs n 0 < 256
get_or-IsByte n [] k = omega arith
get_or-IsByte zero (b ∷ bs) k = k.0
get_or-IsByte (suc n) (b ∷ bs) k = get_or-IsByte n bs k.1

read_u32-IsU32 : (bs : Bytes) → All IsByte bs → IsU32 (read_u32 bs)
unfolding read_u32
read_u32-IsU32 (a ∷ b ∷ c ∷ d ∷ rest) (p, (q, (r, (s, t)))) = word-IsU32 a b c d p q r s
read_u32-IsU32 [] k = omega arith
read_u32-IsU32 (a ∷ []) k = omega arith
read_u32-IsU32 (a ∷ b ∷ []) k = omega arith
read_u32-IsU32 (a ∷ b ∷ c ∷ []) k = omega arith

unpack_frame-IsFrame :
    (bs : Bytes) → All IsByte bs → declared_len bs ≤ max_payload → IsFrame (unpack_frame bs)
unfolding unpack_frame
unpack_frame-IsFrame bs k h = record {
  version_fits = get_or-IsByte 4 bs k;
  command_fits = get_or-IsByte 5 bs k;
  flags_fit = omega (arith, get_or-IsByte 6 bs k, get_or-IsByte 7 bs k);
  sequence_fits = read_u32-IsU32 (drop 8 bs) (All-drop IsByte 8 bs k);
  payload_fits = omega (arith, length-take (declared_len bs) (drop header_len bs));
}

-- What stands for the bytes that a call took off the buffer, up to a frame and its end.
abbrev pub Holds : Bytes → Frame → Bytes → Type 0
Holds buf f after = (before : Bytes) × (buf ≡ before ++ (frame_bytes f ++ after)) × IsFrame f

Holds-later :
    (n : ℕ) (buf : Bytes) (f : Frame) (after : Bytes)
    → Holds (drop n buf) f after
    → Holds buf f after
Holds-later n buf f after (before, e, h) = (
  take n buf ++ before,
  sym (take-append-drop n buf)
      ∙ ap (λ l. take n buf ++ l) e
      ∙ sym (append_assoc (take n buf) before (frame_bytes f ++ after)),
  h,
)

check_candidate-Holds :
    (r r' : Receiver) (f : Frame)
    → All IsByte r.buf
    → starts_with magic_bytes r.buf ≡ true
    → check_candidate r ≡ deliver f r'
    → Holds r.buf f r'.buf
check_candidate-Holds r r' f k m h =
    let (whole, short, fits, crc, ef, er) = check_candidate-eq-deliver r r' f h in
    rw (ef, er)
      ([], frame_bytes-unpack_frame r.buf whole k m fits crc, unpack_frame-IsFrame r.buf k short)

round-Holds :
    (r r' : Receiver) (f : Frame) → All IsByte r.buf → round r ≡ deliver f r' → Holds r.buf f r'.buf
unfolding skip
round-Holds r r' f k h = elim (Option-cases (find magic_bytes r.buf)) [
  | inl e ↦ cc (h, round-none r e)
  | inr (i, e) ↦ Holds-later i r.buf f r'.buf (
      check_candidate-Holds (skip i r) r' f (All-drop IsByte i r.buf k)
        (find-starts magic_bytes r.buf i e).0 (sym (round-some r i e) ∙ h))
]

parse_loop-Holds :
    (k : ℕ) (r r' : Receiver) (f : Frame)
    → All IsByte r.buf
    → parse_loop k r ≡ some (some f, r')
    → Holds r.buf f r'.buf
parse_loop-Holds zero r r' f b h = unfold parse_loop in cc h
parse_loop-Holds (suc k) r r' f b h = elim (Round-cases (round r)) [
  | inl (g, s, e) ↦ round-Holds r r' f b (cc (e, h, parse_loop_deliver k r s g e))
  | inr (inl (s, e)) ↦ cc (h, parse_loop_wait k r s e)
  | inr (inr (s, e)) ↦
      let (n, d) = round_again_drop r s e in
      Holds-later n r.buf f r'.buf (
        rw d at (
          parse_loop-Holds k s r' f (rw d (All-drop IsByte n r.buf b))
            (sym (parse_loop_again k r s e) ∙ h)))
]

-- A frame that `_try_parse` takes out of a buffer of bytes stood in it, whole and with its CRC, right
-- before what is left.
pub try_parse-Holds :
    (r r' : Receiver) (f : Frame)
    → All IsByte r.buf
    → try_parse r ≡ some (some f, r')
    → Holds r.buf f r'.buf
unfolding try_parse
try_parse-Holds r r' f b h = parse_loop-Holds (suc (length r.buf)) r r' f b h
