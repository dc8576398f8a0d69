-- ===== src/Vendor/Keeps.antt =====
-- firmware/vendor/patch_u85_vendor_timeout.py, the changes one after the other: what a change puts in, and
-- what a later one leaves in place.
use mps4_prototyping_board.Prelude.{
  ℕ, zero, suc, ◌-◌, ◌≡◌, ◌≢◌, ◌≤◌, ◌<◌, refl, sym, ap, ◌∙◌, arith, [], ◌∷◌, ◌++◌, none, some,
  Option-cases, inl, inr, length, Name, All, append_assoc, subst,
}
use mps4_prototyping_board.Vendor.{Matcher, subn}

-- The text holds another.
abbrev pub Holds : Name → Name → Type 0
Holds t p = (front : Name) × (back : Name) × (t ≡ front ++ (p ++ back))

-- Every match stands at the front of the text and is not empty.
abbrev pub AtFront : Matcher → Type 0
AtFront m =
    (t matched new : Name)
    → m t ≡ some (matched, new)
    → (rest : Name) × (t ≡ matched ++ rest) × (0 < length matched)

-- A match begins at no character of the text, and does not hold its first one.
pub record Passes (m : Matcher) (first : ℕ) (rest : Name) : Type 0 where
  pub front : AtFront m
  pub none_at : (t : Name) → All (λ c. m (c ∷ t) ≡ none) (first ∷ rest)
  pub avoids : (t matched new : Name) → m t ≡ some (matched, new) → All (λ d. d ≢ first) matched

-- The two cases of `subn`.
module _ (m : Matcher) (c : ℕ) (cs : Name) where
  subn-none : m (c ∷ cs) ≡ none → subn m 0 (c ∷ cs) ≡ (c ∷ (subn m 0 cs).0, (subn m 0 cs).1)
  unfolding subn
  subn-none e = rw (e, subn) refl

  subn-some :
      (matched new : Name)
      → m (c ∷ cs) ≡ some (matched, new)
      → subn m 0 (c ∷ cs)
        ≡ (new ++ (subn m (length matched - 1) cs).0, suc (subn m (length matched - 1) cs).1)
  unfolding subn
  subn-some matched new e = rw (e, subn) refl

  subn_skip : (k : ℕ) → subn m (suc k) (c ∷ cs) ≡ subn m k cs
  unfolding subn
  subn_skip k = refl

-- Where something was replaced, the text holds what every replacement holds.
pub subn_put :
    (m : Matcher) (p : Name)
    → ((t matched new : Name) → m t ≡ some (matched, new) → Holds new p)
    → (skip : ℕ) (t : Name) → 0 < (subn m skip t).1
    → Holds (subn m skip t).0 p
unfolding subn
subn_put m p puts skip [] h = absurd (omega arith)
subn_put m p puts (suc k) (c ∷ cs) h = subn_put m p puts k cs h
subn_put m p puts zero (c ∷ cs) h = elim (Option-cases (m (c ∷ cs))) [
  | inl e ↦
      let step = subn-none m c cs e in
      let (a, b, q) = subn_put m p puts zero cs (subst (λ (z : Name × ℕ). 0 < z.1) step h) in
      (c ∷ a, b, ap (λ (z : Name × ℕ). z.0) step ∙ ap (λ z. c ∷ z) q)
  | inr ((matched, new), e) ↦
      let step = subn-some m c cs matched new e in
      let (a, b, q) = puts (c ∷ cs) matched new e in
      let out = (subn m (length matched - 1) cs).0 in
      (
        a,
        b ++ out,
        ap (λ (z : Name × ℕ). z.0) step
            ∙ ap (λ z. z ++ out) q
            ∙ append_assoc a (p ++ b) out
            ∙ ap (λ z. a ++ z) (append_assoc p b out),
      )
]

-- A text without a character ends before the character.
ends_before :
    (a b f g : Name) (x : ℕ) → a ++ b ≡ f ++ x ∷ g → All (λ d. d ≢ x) a → length a ≤ length f
ends_before [] b f g x e h = omega arith
ends_before (y ∷ a) b [] g x e h = absurd (h.0 (head_eq e))
  where
    head_eq : {u v : ℕ} {us vs : Name} → u ∷ us ≡ v ∷ vs → u ≡ v
    head_eq q = cc q
ends_before (y ∷ a) b (z ∷ f) g x e h = omega (arith, ends_before a b f g x (cc e) h.1)

pass_through :
    (m : Matcher) (q back : Name)
    → ((t : Name) → All (λ c. m (c ∷ t) ≡ none) q)
    → (subn m 0 (q ++ back)).0 ≡ q ++ (subn m 0 back).0
pass_through m [] back h = refl
pass_through m (c ∷ q) back h =
    ap (λ (z : Name × ℕ). z.0) (subn-none m c (q ++ back) (h (q ++ back)).0)
    ∙ ap (λ z. c ∷ z) (pass_through m q back (λ t. (h t).1))

-- A change that passes a text leaves it in place.
pub subn_keeps :
    (m : Matcher) (x : ℕ) (xs : Name)
    → Passes m x xs
    → (skip : ℕ) (front back : Name) → skip ≤ length front
    → Holds (subn m skip (front ++ ((x ∷ xs) ++ back))).0 (x ∷ xs)
subn_keeps m x xs v zero [] back h = ([], (subn m 0 back).0, pass_through m (x ∷ xs) back v.none_at)
subn_keeps m x xs v (suc k) [] back h = absurd (omega arith)
subn_keeps m x xs v (suc k) (c ∷ f) back h =
    let (a, b, q) = subn_keeps m x xs v k f back (omega arith) in
    (a, b, ap (λ (z : Name × ℕ). z.0) (subn_skip m c (f ++ ((x ∷ xs) ++ back)) k) ∙ q)
subn_keeps m x xs v zero (c ∷ f) back h =
    let t = f ++ ((x ∷ xs) ++ back) in
    elim (Option-cases (m (c ∷ t))) [
      | inl e ↦
          let (a, b, q) = subn_keeps m x xs v zero f back (omega arith) in
          (c ∷ a, b, ap (λ (z : Name × ℕ). z.0) (subn-none m c t e) ∙ ap (λ z. c ∷ z) q)
      | inr ((matched, new), e) ↦
          let (rest, whole, long) = v.front (c ∷ t) matched new e in
          let short =
            ends_before matched rest (c ∷ f) (xs ++ back) x (sym whole)
              (v.avoids (c ∷ t) matched new e) in
          let (a, b, q) =
            subn_keeps m x xs v (length matched - 1) f back (omega (arith, short, long)) in
          (
            new ++ a,
            b,
            ap (λ (z : Name × ℕ). z.0) (subn-some m c t matched new e)
                ∙ ap (λ z. new ++ z) q
                ∙ sym (append_assoc new a ((x ∷ xs) ++ b)),
          )
    ]
