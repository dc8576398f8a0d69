-- ===== src/Vendor/Changes.antt =====
-- firmware/vendor/patch_u85_vendor_timeout.py: what the regular expressions match, and what texts the second
-- to fourth change pass.
use mps4_prototyping_board.Prelude.{
  ℕ, ◌≡◌, ◌≢◌, ◌<◌, refl, sym, ap, ◌∙◌, arith, [], ◌∷◌, ◌++◌, Bool, true, false, not, ◌&&◌, none,
  some, length, Name, All, Bool-cases, inl, inr, subst, codes, drop, ◌==◌, and_true, All-append,
  length-append,
}
use mps4_prototyping_board.Bytes.{starts_with}
use mps4_prototyping_board.Bytes.Find.{starts_with-eq-append}
use mps4_prototyping_board.Vendor.{
  Matcher, eol_of, no_text, before_eol, change2, change3, change4, old3, new3, old4, ret_code_line,
  clears, weak_default,
}
use mps4_prototyping_board.Vendor.Keeps.{Passes}

pub before_eol-front :
    (anchor new t matched put : Name)
    → before_eol anchor new t ≡ some (matched, put)
    → (matched ≡ anchor) × (put ≡ new) × (starts_with anchor t ≡ true)
before_eol-front anchor new t matched put h =
    elim (Bool-cases (starts_with anchor t && not (no_text (eol_of (drop (length anchor) t))))) [
      | inl e ↦
          let same : some (anchor, new) ≡ some (matched, put) = rw e at h in
          (cc same, cc same, (and_true _ _ e).0)
      | inr e ↦ let absent : none ≡ some (matched, put) = rw e at h in cc absent
    ]

-- A text with no such character.
abbrev pub lacks : ℕ → Name → Bool
lacks c [] = true
lacks c (d ∷ ds) = not (d == c) && lacks c ds

lacks-All : (c : ℕ) (t : Name) → lacks c t ≡ true → All (λ d. d ≢ c) t
lacks-All c [] h = tt
lacks-All c (d ∷ ds) h =
    let (a, b) = and_true (not (d == c)) (lacks c ds) h in
    (λ e. ground (arith, a, e), lacks-All c ds b)

All-none :
    (m : Matcher) (Q : ℕ → Type 0) (t p : Name)
    → ((d : ℕ) → Q d → m (d ∷ t) ≡ none)
    → All Q p
    → All (λ d. m (d ∷ t) ≡ none) p
All-none m Q t [] f h = tt
All-none m Q t (d ∷ p) f h = (f d h.0, All-none m Q t p f h.1)

eol_of-All : (c : ℕ) (t : Name) → 10 ≢ c → 13 ≢ c → All (λ d. d ≢ c) (eol_of t)
eol_of-All c [] h k = tt
eol_of-All c (x ∷ []) h k = elim (Bool-cases (x == 10)) [ inl e ↦ rw e (h, tt) | inr e ↦ rw e tt ]
eol_of-All c (x ∷ y ∷ t) h k = elim (Bool-cases ((x == 13) && (y == 10))) [
  | inl e ↦ rw e (k, (h, tt))
  | inr e ↦ rw e (elim (Bool-cases (x == 10)) [ inl f ↦ rw f (h, tt) | inr f ↦ rw f tt ])
]

-- What a change of a literal matches.
module _ (anchor new t matched put : Name) (h : before_eol anchor new t ≡ some (matched, put)) where
  literal-front : 0 < length anchor → (rest : Name) × (t ≡ matched ++ rest) × (0 < length matched)
  literal-front long =
      let (a, b, c) = before_eol-front anchor new t matched put h in
      (
        drop (length anchor) t,
        starts_with-eq-append anchor t c ∙ ap (λ z. z ++ drop (length anchor) t) (sym a),
        subst (λ z. 0 < length z) (sym a) long,
      )

  literal-avoids : (c : ℕ) → lacks c anchor ≡ true → All (λ d. d ≢ c) matched
  literal-avoids c l =
      let (a, b, e) = before_eol-front anchor new t matched put h in
      subst (All (λ d. d ≢ c)) (sym a) (lacks-All c anchor l)

abbrev pub timeout_tail : Name
timeout_tail = codes "define BUSY_SLEEP_TIMEOUT 200000000"

change3-other : (t : Name) (d : ℕ) → d ≢ b'w' → change3 (d ∷ t) ≡ none
unfolding change3 starts_with
change3-other t d n = let e : (b'w' == d) ≡ false = ground (arith, n) in rw e refl

pub change3-Passes : Passes change3 b'#' timeout_tail
unfolding change3
change3-Passes = record {
  front = λ t matched new h. literal-front old3 new3 t matched new h (omega arith);
  none_at = λ t.
      All-none change3 (λ d. d ≢ b'w') t (b'#' ∷ timeout_tail) (change3-other t)
        (lacks-All b'w' (b'#' ∷ timeout_tail) refl);
  avoids = λ t matched new h. literal-avoids old3 new3 t matched new h b'#' refl;
}

-- A match of a text that is found at the front.
starts-front :
    (t matched : Name)
    → starts_with matched t ≡ true
    → 0 < length matched
    → (rest : Name) × (t ≡ matched ++ rest) × (0 < length matched)
starts-front t matched h long = (drop (length matched) t, starts_with-eq-append matched t h, long)

module _ (t : Name) where
  first_eol : Name
  first_eol = eol_of (drop 1 t)

  group2 : Name
  group2 = b'{' ∷ (first_eol ++ ret_code_line)

  last_eol : Name
  last_eol = eol_of (drop (length group2) t)

  change2-matched :
      (matched new : Name)
      → change2 t ≡ some (matched, new)
      → (group2 ++ last_eol ≡ matched) × (starts_with matched t ≡ true)
  unfolding change2 group2 first_eol last_eol
  change2-matched matched new h =
      elim (Bool-cases (
        not (no_text first_eol)
        && (not (no_text last_eol) && starts_with (group2 ++ last_eol) t))) [
          | inl e ↦
              let same : some (group2 ++ last_eol, group2 ++ (clears ++ last_eol))
                  ≡ some (matched, new) =
                rw e at h in
              let first : group2 ++ last_eol ≡ matched = cc same in
              let here = (and_true _ _ (and_true _ _ e).1).1 in
              (first, subst (λ z. starts_with z t ≡ true) first here)
          | inr e ↦ let absent : none ≡ some (matched, new) = rw e at h in cc absent
        ]

  group2-All : All (λ d. d ≢ b'#') (group2 ++ last_eol)
  unfolding group2 first_eol last_eol
  group2-All =
      All-append (λ d. d ≢ b'#') group2 last_eol
        (
          omega arith,
          All-append (λ d. d ≢ b'#') first_eol ret_code_line
              (eol_of-All b'#' (drop 1 t) (omega arith) (omega arith))
              (lacks-All b'#' ret_code_line refl),
        )
        (eol_of-All b'#' (drop (length group2) t) (omega arith) (omega arith))

change2-other : (t : Name) (d : ℕ) → d ≢ b'{' → change2 (d ∷ t) ≡ none
unfolding change2 starts_with
change2-other t d n =
    let e : (b'{' == d) ≡ false = ground (arith, n) in rw (e, and_right_false _ _) refl
  where
    and_right_false : (a b : Bool) → (a && (b && false)) ≡ false
    and_right_false true true = refl
    and_right_false true false = refl
    and_right_false false b = refl

pub change2-Passes : Passes change2 b'#' timeout_tail
unfolding group2
change2-Passes = record {
  front = λ t matched new h.
      let (a, b) = change2-matched t matched new h in
      starts-front t matched b (subst (λ z. 0 < length z) a (omega arith));
  none_at = λ t.
      All-none change2 (λ d. d ≢ b'{') t (b'#' ∷ timeout_tail) (change2-other t)
        (lacks-All b'{' (b'#' ∷ timeout_tail) refl);
  avoids = λ t matched new h.
      subst (All (λ d. d ≢ b'#')) (change2-matched t matched new h).0 (group2-All t);
}

change4-matched :
    (t matched new : Name)
    → change4 t ≡ some (matched, new)
    → (matched ≡ eol_of t ++ old4) × (starts_with matched t ≡ true)
unfolding change4
change4-matched t matched new h =
    elim (Bool-cases (not (no_text (eol_of t)) && starts_with (eol_of t ++ old4) t)) [
      | inl e ↦
          let same : some (eol_of t ++ old4, eol_of t ++ (weak_default ++ (eol_of t ++ old4)))
              ≡ some (matched, new) =
            rw e at h in
          let first : eol_of t ++ old4 ≡ matched = cc same in
          (sym first, subst (λ z. starts_with z t ≡ true) first (and_true _ _ e).1)
      | inr e ↦ let absent : none ≡ some (matched, new) = rw e at h in cc absent
    ]

change4-other : (t : Name) (d : ℕ) → 13 < d → change4 (d ∷ t) ≡ none
unfolding change4
change4-other [] d h = let e : (d == 10) ≡ false = ground arith in rw e refl
change4-other (x ∷ t) d h =
    let e : (d == 10) ≡ false = ground arith in
    let f : (d == 13) ≡ false = ground arith in rw (f, e) refl

-- The last change passes a text with no control character, if its first one is not of `old4`.
pub change4-Passes :
    (x : ℕ) (xs : Name) → All (λ d. 13 < d) (x ∷ xs) → lacks x old4 ≡ true → Passes change4 x xs
change4-Passes x xs above apart = record {
  front = λ t matched new h.
      let (a, b) = change4-matched t matched new h in
      starts-front t matched b
        (subst (λ z. 0 < length z) (sym a) (omega (arith, length-append (eol_of t) old4)));
  none_at = λ t. All-none change4 (λ d. 13 < d) t (x ∷ xs) (change4-other t) above;
  avoids = λ t matched new h. subst (All (λ d. d ≢ x)) (sym (change4-matched t matched new h).0) (
      All-append (λ d. d ≢ x) (eol_of t) old4
        (eol_of-All x t (omega (arith, above.0)) (omega (arith, above.0)))
        (lacks-All x old4 apart));
}
