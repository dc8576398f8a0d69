-- ===== src/Vendor/Patched.antt =====
-- firmware/vendor/patch_u85_vendor_timeout.py, `generate`, against what firmware/gate/check_runner.py asks of
-- the generated file.
use mps4_prototyping_board.Prelude.{
  ℕ, suc, ◌≡◌, ◌<◌, refl, sym, ap, ◌∙◌, arith, [], ◌∷◌, ◌++◌, true, false, some, length, Name,
  Bool-cases, inl, inr, subst, codes, ok, err, ok-injective, if◌then◌else◌, Option-cases, >>=-eq-ok,
  ◌==◌, ==_iff,
}
use mathlib.Core.Option
use mps4_prototyping_board.Bytes.{starts_with, find}
use mps4_prototyping_board.Runner.{contains, raised_timeout, power_ctrl_hook}
use mps4_prototyping_board.Vendor.{
  Matcher, PatchError, change1, change2, change3, change4, subn, once, generate_vendor, old1, new1,
  old3, new3, anchor_matched, entry_anchor_matched, power_ctrl_matched, test_commands_matched,
}
use mps4_prototyping_board.Vendor.Keeps.{Holds, Passes, subn_put, subn_keeps}
use mps4_prototyping_board.Vendor.Changes.{
  timeout_tail, before_eol-front, change2-Passes, change3-Passes, change4-Passes,
}
use mps4_prototyping_board.Bytes.Find.{find_zero, starts_with-append_self}

contains_of : (p t : Name) (i : ℕ) → find p t ≡ some i → contains p t ≡ true
unfolding contains
contains_of p t i e = rw (e, contains) refl

find_of : (p t : Name) → contains p t ≡ true → (i : ℕ) × (find p t ≡ some i)
unfolding contains
find_of p t h = elim (Option-cases (find p t)) [
  | inl e ↦ let absent : false ≡ true = rw (e, contains) at h in cc absent
  | inr found ↦ found
]

find-cons :
    (p t : Name) (c : ℕ)
    → find p (c ∷ t) ≡ (if starts_with p (c ∷ t) then some 0 else Option.map suc (find p t))
unfolding find
find-cons p t c = refl

contains_later : (p t : Name) (c : ℕ) → contains p t ≡ true → contains p (c ∷ t) ≡ true
contains_later p t c h =
    let (i, f) = find_of p t h in
    elim (Bool-cases (starts_with p (c ∷ t))) [
      | inl e ↦ contains_of p (c ∷ t) 0 (find-cons p t c ∙ rw e refl)
      | inr e ↦ contains_of p (c ∷ t) (suc i) (find-cons p t c ∙ rw (e, f) refl)
    ]

Holds-contains : (t p : Name) → 0 < length p → Holds t p → contains p t ≡ true
Holds-contains t p long (front, back, e) = ap (contains p) e ∙ found front
  where
    found : (front : Name) → contains p (front ++ (p ++ back)) ≡ true
    found [] =
        contains_of p (p ++ back) 0 (find_zero p (p ++ back) long (starts_with-append_self p back))
    found (c ∷ front) = contains_later p (front ++ (p ++ back)) c (found front)

-- A change that matched once put its text in.
once-put :
    (m : Matcher) (error : ℕ → PatchError) (t out p : Name)
    → ((t matched new : Name) → m t ≡ some (matched, new) → Holds new p)
    → once m error t ≡ ok out
    → Holds out p
once-put m error t out p puts h = elim (Bool-cases ((subn m 0 t).1 == 1)) [
  | inl e ↦
      let same : ok (subn m 0 t).0 ≡ ok out = rw e at h in
      subst (λ z. Holds z p) (ok-injective same)
        (subn_put m p puts 0 t (omega (arith, (==_iff (subn m 0 t).1 1).0 e)))
  | inr e ↦ let refused : err (error (subn m 0 t).1) ≡ ok out = rw e at h in cc refused
]

-- A change that passes a text leaves it in.
once_keeps :
    (m : Matcher) (error : ℕ → PatchError) (t out : Name) (x : ℕ) (xs : Name)
    → Passes m x xs
    → Holds t (x ∷ xs)
    → once m error t ≡ ok out
    → Holds out (x ∷ xs)
once_keeps m error t out x xs v (front, back, e) h = elim (Bool-cases ((subn m 0 t).1 == 1)) [
  | inl f ↦
      let same : ok (subn m 0 t).0 ≡ ok out = rw f at h in
      subst (λ z. Holds z (x ∷ xs)) (ok-injective same)
        (subst (λ z. Holds (subn m 0 z).0 (x ∷ xs)) (sym e)
          (subn_keeps m x xs v 0 front back (omega arith)))
  | inr f ↦ let refused : err (error (subn m 0 t).1) ≡ ok out = rw f at h in cc refused
]

change1-puts : (t matched new : Name) → change1 t ≡ some (matched, new) → Holds new raised_timeout
unfolding change1
change1-puts t matched new h =
    let (a, b, c) = before_eol-front old1 new1 t matched new h in
    ([], codes " /* Tier C step 1: was 10000 */", b)

change3-puts : (t matched new : Name) → change3 t ≡ some (matched, new) → Holds new power_ctrl_hook
unfolding change3
change3-puts t matched new h =
    let (a, b, c) = before_eol-front old3 new3 t matched new h in
    ([], codes " /* runner gap: hook */", b)

abbrev hook_tail : Name
hook_tail = codes "rite_reg(NPU_REG_POWER_CTRL, u85_power_ctrl_value(MAC_RAMP_VAR));"

-- Whatever vendor source `generate` accepts, the file that it makes passes both tests of the runner's gate on
-- the vendor copy: it has the raised timeout, and it routes POWER_CTRL through the runner's hook.
pub generate_vendor-contains :
    (text out : Name)
    → generate_vendor text ≡ ok out
    → (contains raised_timeout out ≡ true) × (contains power_ctrl_hook out ≡ true)
unfolding generate_vendor
generate_vendor-contains text out h =
    let (o1, a, h1) = >>=-eq-ok (once change1 anchor_matched text) _ h in
    let (o2, b, h2) = >>=-eq-ok (once change2 entry_anchor_matched o1) _ h1 in
    let (o3, c, d) = >>=-eq-ok (once change3 power_ctrl_matched o2) _ h2 in
    let timeout1 = once-put change1 anchor_matched text o1 raised_timeout change1-puts a in
    let timeout2 =
      once_keeps change2 entry_anchor_matched o1 o2 b'#' timeout_tail change2-Passes timeout1 b in
    let timeout3 =
      once_keeps change3 power_ctrl_matched o2 o3 b'#' timeout_tail change3-Passes timeout2 c in
    let last4 = change4-Passes b'#' timeout_tail (omega arith) refl in
    let timeout4 =
      once_keeps change4 test_commands_matched o3 out b'#' timeout_tail last4 timeout3 d in
    let hook3 = once-put change3 power_ctrl_matched o2 o3 power_ctrl_hook change3-puts c in
    let hook_passes = change4-Passes b'w' hook_tail (omega arith) refl in
    let hook4 =
      once_keeps change4 test_commands_matched o3 out b'w' hook_tail hook_passes hook3 d in
    (
      Holds-contains out raised_timeout (omega arith) timeout4,
      Holds-contains out power_ctrl_hook (omega arith) hook4,
    )
