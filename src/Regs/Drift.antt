-- ===== src/Regs/Drift.antt =====
-- firmware/common/gen_npu_pmu_regs.py, `render` and the check mode: what a rendered header shows of the
-- geometry that it was rendered from.
use mps4_prototyping_board.Prelude.{
  ℕ, ◌≡◌, refl, sym, ap, ◌∙◌, arith, List, [], ◌∷◌, ◌++◌, map, append_assoc, append-nil, subst₂,
  Name, codes, ap₂, subst,
}
use mps4_prototyping_board.Regs.Extract.{Geometry}
use mps4_prototyping_board.Regs.Render.{
  Ending, unsigned, bits_remark, ending_text, HeaderLine, fixed, decimal, hexadecimal, digits,
  padded, line_text, join_lines, render_lines, render,
}
use mps4_prototyping_board.Regs.Numerals.{decimal_cut, hexadecimal_cut, append_left_cancel}

-- A line without its number, and its number.
abbrev frame : HeaderLine → HeaderLine
frame (fixed t) = fixed t
frame (decimal before n e) = decimal before 0 e
frame (hexadecimal before width n e) = hexadecimal before width 0 e

abbrev number : HeaderLine → List ℕ
number (fixed t) = []
number (decimal before n e) = n ∷ []
number (hexadecimal before width n e) = n ∷ []

abbrev numbers : List HeaderLine → List ℕ
numbers [] = []
numbers (l ∷ ls) = number l ++ numbers ls

-- The lines after one, with the line feed.
abbrev tail_text : List HeaderLine → Name
tail_text [] = []
tail_text (l ∷ ls) = 10 ∷ join_lines (l ∷ ls)

join_cons :
    (l : HeaderLine) (ls : List HeaderLine) → join_lines (l ∷ ls) ≡ line_text l ++ tail_text ls
unfolding join_lines
join_cons l [] = sym (append-nil (line_text l))
join_cons l (k ∷ ls) = refl

tail_eq : {a b : ℕ} {xs ys : Name} → a ∷ xs ≡ b ∷ ys → xs ≡ ys
tail_eq h = cc h

-- Cutting an ending off.
ending-decimal :
    (n m : ℕ) (e : Ending) (u v : Name)
    → digits 10 n n ++ (ending_text e ++ u) ≡ digits 10 m m ++ (ending_text e ++ v)
    → (n ≡ m) × (u ≡ v)
ending-decimal n m unsigned u v h = decimal_cut n m b'U' u v (λ d. omega (arith, d)) h
ending-decimal n m bits_remark u v h =
    let (a, b) = decimal_cut n m b' ' _ _ (λ d. omega (arith, d)) h in
    (a, append_left_cancel (codes "bits (LO 32 + HI 16), NOT 64. */") u v b)

ending-hexadecimal :
    (width n m : ℕ) (e : Ending) (u v : Name)
    → padded width (digits 16 n n) ++ (ending_text e ++ u)
      ≡ padded width (digits 16 m m) ++ (ending_text e ++ v)
    → (n ≡ m) × (u ≡ v)
ending-hexadecimal width n m unsigned u v h =
    hexadecimal_cut width n m b'U' u v (λ d. omega (arith, d)) h
ending-hexadecimal width n m bits_remark u v h =
    let (a, b) = hexadecimal_cut width n m b' ' _ _ (λ d. omega (arith, d)) h in
    (a, append_left_cancel (codes "bits (LO 32 + HI 16), NOT 64. */") u v b)

-- Cutting off what stands before the number.
peel :
    (before x y end u v : Name)
    → (before ++ x ++ end) ++ u ≡ (before ++ y ++ end) ++ v
    → x ++ (end ++ u) ≡ y ++ (end ++ v)
peel before x y end u v h =
    append_left_cancel before (x ++ (end ++ u)) (y ++ (end ++ v)) (simp append_assoc at h)

-- Cutting a line off, between lines that differ in the number only.
line_cut :
    (l k : HeaderLine) (u v : Name)
    → frame l ≡ frame k
    → line_text l ++ u ≡ line_text k ++ v
    → (number l ≡ number k) × (u ≡ v)
unfolding line_text
line_cut (fixed s) (fixed t) u v f h =
    let e : s ≡ t = cc f in
    (refl, append_left_cancel (codes t) u v (subst (λ z. codes z ++ u ≡ codes t ++ v) e h))
line_cut (decimal b n e) (decimal c m d) u v f h =
    let p : b ≡ c = cc f in
    let q : e ≡ d = cc f in
    let whole : line_text (decimal c n d) ++ u ≡ line_text (decimal c m d) ++ v =
      subst₂ (λ x y. line_text (decimal x n y) ++ u ≡ line_text (decimal c m d) ++ v) p q h in
    let rest = peel (codes c) (digits 10 n n) (digits 10 m m) (ending_text d) u v whole in
    let (x, y) = ending-decimal n m d u v rest in (ap (λ z. z ∷ []) x, y)
line_cut (hexadecimal b w n e) (hexadecimal c z m d) u v f h =
    let p : b ≡ c = cc f in
    let q : e ≡ d = cc f in
    let r : w ≡ z = cc f in
    let whole : line_text (hexadecimal c z n d) ++ u ≡ line_text (hexadecimal c z m d) ++ v =
      subst (λ o. line_text (hexadecimal c o n d) ++ u ≡ line_text (hexadecimal c z m d) ++ v) r
        (subst₂ (λ x y. line_text (hexadecimal x w n y) ++ u ≡ line_text (hexadecimal c z m d) ++ v)
          p q h) in
    let rest =
      peel (codes c) (padded z (digits 16 n n)) (padded z (digits 16 m m)) (ending_text d) u v
        whole in
    let (x, y) = ending-hexadecimal z n m d u v rest in (ap (λ o. o ∷ []) x, y)
line_cut (fixed s) (decimal c m d) u v f h = cc f
line_cut (fixed s) (hexadecimal c z m d) u v f h = cc f
line_cut (decimal b n e) (fixed s) u v f h = cc f
line_cut (decimal b n e) (hexadecimal c z m d) u v f h = cc f
line_cut (hexadecimal b w n e) (fixed s) u v f h = cc f
line_cut (hexadecimal b w n e) (decimal c m d) u v f h = cc f

line_head : {a b : HeaderLine} {xs ys : List HeaderLine} → a ∷ xs ≡ b ∷ ys → (a ≡ b) × (xs ≡ ys)
line_head h = (cc h, cc h)

-- Texts of lines with the same frames show the same numbers.
numbers_of :
    (ls ks : List HeaderLine)
    → map frame ls ≡ map frame ks
    → tail_text ls ≡ tail_text ks
    → numbers ls ≡ numbers ks
numbers_of [] [] f h = refl
numbers_of [] (k ∷ ks) f h = cc f
numbers_of (l ∷ ls) [] f h = cc f
numbers_of (l ∷ ls) (k ∷ ks) f h =
    let (p, q) = line_head f in
    let (a, b) =
      line_cut l k (tail_text ls) (tail_text ks) p
        (sym (join_cons l ls) ∙ tail_eq h ∙ join_cons k ks) in
    ap₂ (λ xs ys. xs ++ ys) a (numbers_of ls ks q b)

-- The numbers of a rendered header, in their order.
unfoldable pub shown : Geometry → List ℕ
unfolding render_lines
shown g = numbers (render_lines g)

pub render-shown : (g k : Geometry) → render g ≡ render k → shown g ≡ shown k
unfolding render shown
render-shown g k h = numbers_of (render_lines g) (render_lines k) refl (ap (λ t. 10 ∷ t) h)
