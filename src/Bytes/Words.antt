-- ===== src/Bytes/Words.antt =====
-- Lemmas on `struct.pack("<nI")` and `struct.unpack("<nI")`.
use mps4_prototyping_board.Prelude.{
  ℕ, ◌-◌, ◌*◌, ◌/◌, ◌%◌, ◌≡◌, refl, ap, ap₂, ◌∙◌, arith, List, [], ◌∷◌, ◌++◌, true, some, length,
  length-append, take-length, All, ltb-false, append_assoc, Bool-cases, inl, inr,
}
use mps4_prototyping_board.Bytes.{
  Bytes, IsByte, IsU32, le32, word, le32s, all_u32, pack_words, words, unpack_words,
}

pub le32-IsByte : (w : ℕ) → All IsByte (le32 w)
le32-IsByte w = omega arith

-- Four bytes of a word are the word.
pub word-le32 :
    (w : ℕ) → IsU32 w → word (w % 256) (w / 256 % 256) (w / 65536 % 256) (w / 16777216 % 256) ≡ w
word-le32 w h = omega arith

pub word-IsU32 : (a b c d : ℕ) → IsByte a → IsByte b → IsByte c → IsByte d → IsU32 (word a b c d)
word-IsU32 a b c d p q r s = omega arith

pub le32-word :
    (a b c d : ℕ)
    → IsByte a
    → IsByte b
    → IsByte c
    → IsByte d
    → le32 (word a b c d) ≡ a ∷ b ∷ c ∷ d ∷ []
le32-word a b c d p q r s = ground arith

pub words-le32 : (w : ℕ) (rest : Bytes) → IsU32 w → words (le32 w ++ rest) ≡ w ∷ words rest
unfolding words
words-le32 w rest h = ap (λ x. x ∷ words rest) (word-le32 w h)

pub words-le32s :
    (ws : List ℕ) (rest : Bytes) → All IsU32 ws → words (le32s ws ++ rest) ≡ ws ++ words rest
unfolding le32s
words-le32s [] rest h = refl
words-le32s (w ∷ ws) rest h =
    rw (append_assoc (le32 w) (le32s ws) rest)
      (words-le32 w (le32s ws ++ rest) h.0 ∙ ap (λ l. w ∷ l) (words-le32s ws rest h.1))

pub length-le32s : (ws : List ℕ) → length (le32s ws) ≡ 4 * length ws
unfolding le32s
length-le32s [] = refl
length-le32s (w ∷ ws) = omega (arith, length-le32s ws)

pub le32s-append : (vs ws : List ℕ) → le32s (vs ++ ws) ≡ le32s vs ++ le32s ws
unfolding le32s
le32s-append [] ws = refl
le32s-append (v ∷ vs) ws = rw (le32s-append vs ws)

pub le32s-IsByte : (ws : List ℕ) → All IsByte (le32s ws)
unfolding le32s
le32s-IsByte [] = tt
le32s-IsByte (w ∷ ws) = (omega arith, (omega arith, (omega arith, (omega arith, le32s-IsByte ws))))

-- Packing succeeds exactly where every value fits.
pub pack_words_fits : (ws : List ℕ) → All IsU32 ws → pack_words ws ≡ some (le32s ws)
unfolding pack_words
pack_words_fits ws h = rw (fits ws h)
  where
    fits : (vs : List ℕ) → All IsU32 vs → all_u32 vs ≡ true
    fits [] h = refl
    fits (v ∷ vs) h = ground (arith, fits vs h.1)

pub pack_words-eq-some :
    (ws : List ℕ) {bs : Bytes} → pack_words ws ≡ some bs → All IsU32 ws × (bs ≡ le32s ws)
unfolding pack_words
pack_words-eq-some ws h = elim (Bool-cases (all_u32 ws)) [
  | inl e ↦ (fits ws e, cc (rw e at h))
  | inr e ↦ cc (rw e at h)
]
  where
    fits : (vs : List ℕ) → all_u32 vs ≡ true → All IsU32 vs
    fits [] h = tt
    fits (v ∷ vs) h = (ground arith, fits vs (ground arith))

pub unpack_words-le32s :
    (ws : List ℕ) (rest : Bytes)
    → All IsU32 ws
    → unpack_words (length ws) (le32s ws ++ rest) ≡ some ws
unfolding unpack_words
unpack_words-le32s ws rest h =
    rw
      (
        ltb-false (length (le32s ws ++ rest)) (4 * length ws)
            (omega (arith, length-append (le32s ws) rest, length-le32s ws)),
        words-le32s ws rest h,
        take-length ws (words rest),
      )
      refl

-- A buffer of whole words is the bytes of its words.
pub le32s-words :
    (bs : Bytes) (n : ℕ)
    → length bs ≡ 4 * n
    → All IsByte bs
    → (le32s (words bs) ≡ bs) × (length (words bs) ≡ n) × All IsU32 (words bs)
unfolding words le32s
le32s-words [] n h k = (refl, omega arith, tt)
le32s-words (a ∷ b ∷ c ∷ d ∷ rest) n h (p, (q, (r, (s, t)))) =
    let (e, l, u) = le32s-words rest (n - 1) (omega arith) t in
    (ap₂ ◌++◌ (le32-word a b c d p q r s) e, omega (arith, l, h), (word-IsU32 a b c d p q r s, u))
le32s-words (a ∷ []) n h k = absurd (omega arith)
le32s-words (a ∷ b ∷ []) n h k = absurd (omega arith)
le32s-words (a ∷ b ∷ c ∷ []) n h k = absurd (omega arith)
