-- ===== src/Vendor.antt =====
-- firmware/vendor/patch_u85_vendor_timeout.py, `generate`: the four changes of the vendor's u85.c. A regular
-- expression is a function from what is left of the text to the text that it matches there and the
-- replacement.
pub mod Keeps
pub mod Changes
pub mod Patched
use mps4_prototyping_board.Prelude.{
  ℕ, zero, suc, ◌-◌, List, [], ◌∷◌, ◌++◌, Bool, true, false, not, ◌&&◌, Option, none, some, ◌==◌,
  if◌then◌else◌, length, drop, Result, ok, err, ◌>>=◌, ◌>>◌, refuse_if, Name, codes,
}
use mps4_prototyping_board.Bytes.{starts_with}

-- What `\r?\n` matches at the front of a text, or nothing.
abbrev pub eol_of : Name → Name
eol_of [] = []
eol_of (c ∷ []) = if c == 10 then 10 ∷ [] else []
eol_of (c ∷ d ∷ rest) =
    if (c == 13) && (d == 10) then 13 ∷ 10 ∷ [] else if c == 10 then 10 ∷ [] else []

abbrev pub no_text : Name → Bool
no_text [] = true
no_text (c ∷ cs) = false

-- A match: what is replaced, and by what.
abbrev pub Matcher : Type 0
Matcher = Name → Option (Name × Name)

-- A literal that the end of a line follows.
abbrev pub before_eol : Name → Name → Matcher
before_eol anchor new t =
    if starts_with anchor t && not (no_text (eol_of (drop (length anchor) t)))
    then some (anchor, new)
    else none

abbrev pub old1 : Name
old1 = codes "#define BUSY_SLEEP_TIMEOUT 10000"

abbrev pub new1 : Name
new1 = codes "#define BUSY_SLEEP_TIMEOUT 200000000 /* Tier C step 1: was 10000 */"

-- OLD with NEW
unfoldable pub change1 : Matcher
unfolding starts_with
change1 t = before_eol old1 new1 t

abbrev pub ret_code_line : Name
ret_code_line = codes "    int ret_code = 0;"

abbrev pub clears : Name
clears = codes " irq_never_triggered = false; /* Tier C step 2: per-run, not per-boot */"

-- OLD2 with NEW2
unfoldable pub change2 : Matcher
unfolding starts_with
change2 t =
    let first = eol_of (drop 1 t) in
    let group = b'{' ∷ (first ++ ret_code_line) in
    let last = eol_of (drop (length group) t) in
    if not (no_text first) && (not (no_text last) && starts_with (group ++ last) t)
    then some (group ++ last, group ++ (clears ++ last))
    else none

abbrev pub old3 : Name
old3 = codes "write_reg(NPU_REG_POWER_CTRL, MAC_RAMP_VAR);"

abbrev pub new3 : Name
new3 =
    codes
      "write_reg(NPU_REG_POWER_CTRL, u85_power_ctrl_value(MAC_RAMP_VAR)); /* runner gap: hook */"

-- OLD3 with NEW3
unfoldable pub change3 : Matcher
unfolding starts_with
change3 t = before_eol old3 new3 t

abbrev pub old4 : Name
old4 = codes "static int test_commands("

abbrev pub weak_default : Name
weak_default =
    codes
      "__attribute__((weak)) uint32_t u85_power_ctrl_value(uint32_t v) { return v; } /* runner gap: weak default */"

-- OLD4 with NEW4
unfoldable pub change4 : Matcher
unfolding starts_with
change4 t =
    let line = eol_of t in
    if not (no_text line) && starts_with (line ++ old4) t
    then some (line ++ old4, line ++ (weak_default ++ (line ++ old4)))
    else none

-- `pattern.subn(new, text)`: the text and the number of matches. The number given is how much of the last
-- match is still to be passed over.
unfoldable pub subn : Matcher → ℕ → Name → Name × ℕ
subn m skip [] = ([], 0)
subn m (suc k) (c ∷ cs) = subn m k cs
subn m zero (c ∷ cs) = elim (m (c ∷ cs)) [
  | none ↦ let (out, n) = subn m zero cs in (c ∷ out, n)
  | some (matched, new) ↦ let (out, n) = subn m (length matched - 1) cs in (new ++ out, suc n)
]

-- SystemExit, by the anchor and how often it matched.
pub data PatchError : Type 0 where
  anchor_matched entry_anchor_matched power_ctrl_matched test_commands_matched : ℕ → PatchError

-- One change, which is to match once.
abbrev pub once : Matcher → (ℕ → PatchError) → Name → Result PatchError Name
once m error text = let (out, n) = subn m 0 text in if not (n == 1) then err (error n) else ok out

-- `generate`
unfoldable pub generate_vendor : Name → Result PatchError Name
unfolding change1 change2 change3 change4 subn
generate_vendor text = do
  out1 ← once change1 anchor_matched text
  out2 ← once change2 entry_anchor_matched out1
  out3 ← once change3 power_ctrl_matched out2
  once change4 test_commands_matched out3
