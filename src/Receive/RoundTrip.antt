-- ===== src/Receive/RoundTrip.antt =====
-- `build_frame` and `_try_parse` (host/lib/runner_proto.py), one behind the other.
use mps4_prototyping_board.Prelude.{
  ℕ, ◌+◌, ◌*◌, ◌/◌, ◌%◌, ◌≤◌, ◌≡◌, refl, sym, ap, subst, ◌∙◌, arith, ◌++◌, some, length,
  length-append, take, drop, take-length, drop-length, append_assoc,
}
use mps4_prototyping_board.Bytes.{Bytes, le32, find, crc32}
use mps4_prototyping_board.Bytes.Words.{word-le32}
use mps4_prototyping_board.Bytes.Crc.{crc32-IsU32}
use mps4_prototyping_board.Bytes.Find.{find-append_some}
use mps4_prototyping_board.Proto.{
  Frame, magic_bytes, header_len, max_payload, body_bytes, frame_bytes, build_frame,
}
use mps4_prototyping_board.Proto.Layout.{
  IsFrame, length-body_bytes, length-frame_bytes, sent_frame, build_frame-eq-some,
}
use mps4_prototyping_board.Receive.{
  Receiver, skip, deliver, check_candidate, try_parse, declared_len, read_u32, unpack_frame,
  harvest_text,
}
use mps4_prototyping_board.Receive.Step.{round-some, check_candidate_deliver}
use mps4_prototyping_board.Receive.Fuel.{try_parse_deliver}

module _ (f : Frame) (fits : IsFrame f) (rest : Bytes) where
  declared_len-frame_bytes : declared_len (frame_bytes f ++ rest) ≡ length f.payload
  unfolding read_u32 body_bytes frame_bytes
  declared_len-frame_bytes = word-le32 (length f.payload) (omega arith)

  unpack_frame-frame_bytes : unpack_frame (frame_bytes f ++ rest) ≡ f
  unfolding unpack_frame body_bytes frame_bytes
  unpack_frame-frame_bytes = λ i. record {
    version = f.version;
    command = f.command;
    flags = flags_eq i;
    sequence = word-le32 f.sequence fits.sequence_fits i;
    payload = payload_eq i;
  }
    where
      flags_eq : f.flags % 256 + 256 * (f.flags / 256) ≡ f.flags
      flags_eq = omega arith

      payload_eq :
          take (declared_len (frame_bytes f ++ rest)) (drop header_len (frame_bytes f ++ rest))
          ≡ f.payload
      payload_eq =
          rw
            (
              declared_len-frame_bytes,
              append_assoc f.payload (le32 (crc32 (body_bytes f))) rest,
              take-length f.payload (le32 (crc32 (body_bytes f)) ++ rest),
            )
            refl

  -- The header and payload, and what follows them, by their lengths.
  split_body : frame_bytes f ++ rest ≡ body_bytes f ++ (le32 (crc32 (body_bytes f)) ++ rest)
  unfolding frame_bytes
  split_body = append_assoc (body_bytes f) (le32 (crc32 (body_bytes f))) rest

  take-body : take (header_len + length f.payload) (frame_bytes f ++ rest) ≡ body_bytes f
  take-body =
      rw (split_body, ← length-body_bytes f)
        (take-length (body_bytes f) (le32 (crc32 (body_bytes f)) ++ rest))

  drop-body :
      drop (header_len + length f.payload) (frame_bytes f ++ rest)
      ≡ le32 (crc32 (body_bytes f)) ++ rest
  drop-body =
      rw (split_body, ← length-body_bytes f)
        (drop-length (body_bytes f) (le32 (crc32 (body_bytes f)) ++ rest))

  drop-frame_bytes : drop (header_len + length f.payload + 4) (frame_bytes f ++ rest) ≡ rest
  drop-frame_bytes = rw (← length-frame_bytes f) (drop-length (frame_bytes f) rest)

  read_u32-drop-body :
      read_u32 (drop (header_len + length f.payload) (frame_bytes f ++ rest))
      ≡ crc32 (take (header_len + length f.payload) (frame_bytes f ++ rest))
  unfolding read_u32
  read_u32-drop-body =
      rw (drop-body, take-body) (word-le32 (crc32 (body_bytes f)) (crc32-IsU32 (body_bytes f)))

  -- A receiver that stands at a frame delivers it, and goes on behind it.
  pub check_candidate-frame_bytes :
      (r : Receiver)
      → r.buf ≡ frame_bytes f ++ rest
      → check_candidate r ≡ deliver f (record r { buf = rest })
  check_candidate-frame_bytes r e =
      subst (λ b. check_candidate (record r { buf = b }) ≡ deliver f (record r { buf = rest }))
        (sym e) (at_frame (record r { buf = frame_bytes f ++ rest }) refl)
    where
      at_frame :
          (s : Receiver)
          → s ≡ record r { buf = frame_bytes f ++ rest }
          → check_candidate (record r { buf = frame_bytes f ++ rest })
            ≡ deliver f (record r { buf = rest })
      at_frame s p =
          check_candidate_deliver (record r { buf = frame_bytes f ++ rest })
            (omega (arith, length-append (frame_bytes f) rest, length-frame_bytes f))
            (rw declared_len-frame_bytes fits.payload_fits)
            (rw declared_len-frame_bytes
              (omega (arith, length-append (frame_bytes f) rest, length-frame_bytes f)))
            (rw declared_len-frame_bytes read_u32-drop-body)
          ∙ rw (unpack_frame-frame_bytes, declared_len-frame_bytes, drop-frame_bytes) refl

-- No frame begins inside the noise, nor straddles its end.
abbrev pub IsNoise : Bytes → Type 0
IsNoise noise = find magic_bytes (noise ++ magic_bytes) ≡ some (length noise)

find-noise-frame_bytes :
    (noise : Bytes) (f : Frame) (rest : Bytes)
    → IsNoise noise
    → find magic_bytes (noise ++ (frame_bytes f ++ rest)) ≡ some (length noise)
unfolding frame_bytes body_bytes
find-noise-frame_bytes noise f rest h =
    ap (find magic_bytes) (sym (append_assoc noise magic_bytes (drop 4 (frame_bytes f) ++ rest)))
    ∙ find-append_some magic_bytes (noise ++ magic_bytes) (drop 4 (frame_bytes f) ++ rest)
        (length noise) h

skip_noise :
    (r : Receiver) (noise bs : Bytes) → r.buf ≡ noise ++ bs → (skip (length noise) r).buf ≡ bs
unfolding skip
skip_noise r noise bs e = rw e (drop-length noise bs)

-- The frame behind the noise is delivered; the noise goes to the log, and what follows the frame stays.
pub try_parse-frame_bytes :
    (r : Receiver) (noise : Bytes) (f : Frame) (rest : Bytes)
    → IsFrame f
    → IsNoise noise
    → r.buf ≡ noise ++ (frame_bytes f ++ rest)
    → try_parse r ≡ some (some f, record (harvest_text (length noise) r) { buf = rest })
try_parse-frame_bytes r noise f rest fits quiet e =
    try_parse_deliver r (record (skip (length noise) r) { buf = rest }) f
      (round-some r (length noise) (rw e (find-noise-frame_bytes noise f rest quiet))
        ∙ check_candidate-frame_bytes f fits rest (skip (length noise) r)
            (skip_noise r noise (frame_bytes f ++ rest) e))
    ∙ unfold skip in refl

-- A frame that `build_frame` writes, with a payload of at most `max_payload` bytes, is read back with
-- what was given to it when it stands behind noise in which no magic begins; the noise goes to the
-- log, and what follows the frame stays in the buffer.
pub try_parse-build_frame :
    (r : Receiver) (noise : Bytes) (command sequence : ℕ) (payload : Bytes) (flags : ℕ)
    (rest : Bytes) {sent : Bytes}
    → length payload ≤ max_payload
    → IsNoise noise
    → build_frame command sequence payload flags ≡ some sent
    → r.buf ≡ noise ++ (sent ++ rest)
    → try_parse r
      ≡ some (
        some (sent_frame command sequence payload flags),
        record (harvest_text (length noise) r) { buf = rest },
      )
try_parse-build_frame r noise command sequence payload flags rest short quiet built e =
    let (fits, p) = build_frame-eq-some command sequence payload flags short built in
    try_parse-frame_bytes r noise (sent_frame command sequence payload flags) rest fits quiet
      (rw (← p) e)
