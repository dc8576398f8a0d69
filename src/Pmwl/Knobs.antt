-- ===== src/Pmwl/Knobs.antt =====
-- host/lib/pmwl.py, `knobs`: the knob words 16 to 31 of a blob, and the tables of the NPU's fields.
pub mod Bounds
pub mod Steps
pub mod Ports
pub mod Fields
use mps4_prototyping_board.Prelude.{
  ℕ, zero, suc, ◌+◌, ◌-◌, ◌*◌, ◌%◌, ◌^◌, ◌≡◌, bit_or, bit_and, List, [], ◌∷◌, Bool, true, false,
  not, ◌&&◌, ◌||◌, Option, none, some, ltb, leb, ◌==◌, if◌then◌else◌, replicate, Result, ok, err,
  ◌>>=◌, ◌>>◌, refuse_if, or_raise, Name, codes, same_name, name_equality, Equality,
}
use mps4_prototyping_board.Pmwl.{off_word, knob_count}

-- `SystemExit` by its message, and Python's own errors for a value or a key.
pub data KnobError : Type 0 where
  value_error key_error reserved_bits power_outside fast_outside fast_port unknown_profile :
      KnobError

-- `d[key]`
unfoldable pub get_key {ℓ} : {A : Type ℓ} → Name → List (Name × A) → Option A
get_key key [] = none
get_key key ((k, v) ∷ rows) =
    let rest = get_key key rows in if same_name k key then some v else rest

-- `KNOB_FIELDS.index(name)`
abbrev pub axi_chan : ℕ
axi_chan = 0

abbrev pub regioncfg : ℕ
regioncfg = 1

abbrev pub qconfig : ℕ
qconfig = 2

abbrev pub mem_attr : ℕ
mem_attr = 3

abbrev pub axi_sram : ℕ
axi_sram = 7

abbrev pub axi_ext : ℕ
axi_ext = 8

abbrev pub power_ctrl : ℕ
power_ctrl = 9

abbrev pub fast_base : ℕ
fast_base = 10

abbrev pub ta_profile : ℕ
ta_profile = 11

abbrev pub axi_channels : List (Name × ℕ)
axi_channels =
    (codes "rd_cmd", 0)
    ∷ (codes "rd_ifm", 1)
    ∷ (codes "rd_weights", 2)
    ∷ (codes "rd_scale_bias", 3)
    ∷ (codes "rd_mem2mem", 4)
    ∷ (codes "rd_ifm_stream", 5)
    ∷ (codes "rd_mem2mem_idx", 6)
    ∷ (codes "wr_ofm", 8)
    ∷ (codes "wr_mem2mem", 9)
    ∷ []

abbrev pub attr_sram : ℕ
attr_sram = 0

abbrev pub attr_ext : ℕ
attr_ext = 2

abbrev pub mem_attr_sram : ℕ
mem_attr_sram = 0x0

abbrev pub mem_attr_ext : ℕ
mem_attr_ext = 0x4

abbrev pub axi_limit_fields : ℕ
axi_limit_fields = 0x31F3F

abbrev pub power_ctrl_mask : ℕ
power_ctrl_mask = 0x3F

abbrev pub onchip_start : ℕ
onchip_start = 0x3100_0000

abbrev pub onchip_end : ℕ
onchip_end = 0x3140_0000

-- The registers of a profile for the two ports, in the order of TA_REGS.
abbrev pub ta_profiles : List (ℕ × (List ℕ × List ℕ))
ta_profiles =
    (
      1,
      (
        8 ∷ 8 ∷ 0 ∷ 32 ∷ 32 ∷ 3999 ∷ 1 ∷ 4000 ∷ 0 ∷ 1 ∷ 0 ∷ [],
        0 ∷ 32 ∷ 0 ∷ 500 ∷ 250 ∷ 4000 ∷ 1000 ∷ 3750 ∷ 0 ∷ 1 ∷ 0 ∷ [],
      ),
    )
    ∷ (
      2,
      (
        0 ∷ 0 ∷ 0 ∷ 0 ∷ 0 ∷ 0xFFFF ∷ 0 ∷ 0 ∷ 0 ∷ 1 ∷ 0 ∷ [],
        0 ∷ 0 ∷ 0 ∷ 0 ∷ 0 ∷ 0xFFFF ∷ 0 ∷ 0 ∷ 0 ∷ 1 ∷ 0 ∷ [],
      ),
    )
    ∷ []

-- `key in d`, by the number that names a row.
abbrev pub is_key {ℓ} : {A : Type ℓ} → ℕ → List (ℕ × A) → Bool
is_key key [] = false
is_key key ((k, v) ∷ rows) = k == key || is_key key rows

-- `k[i] = v`
unfoldable pub set_at {ℓ} : {A : Type ℓ} → ℕ → A → List A → List A
set_at i v [] = []
set_at zero v (x ∷ xs) = v ∷ xs
set_at (suc i) v (x ∷ xs) = x ∷ set_at i v xs

-- `port, chan = axi.split(":")`, where there are two parts.
unfoldable pub split_two : Name → Option (Name × Name)
split_two [] = none
split_two (c ∷ cs) =
    let rest = split_two cs in
    if c == 58
    then if has_colon cs then none else some ([], cs)
    else elim rest [ none ↦ none | some (port, chan) ↦ some (c ∷ port, chan) ]
  where
    has_colon : Name → Bool
    has_colon [] = false
    has_colon (d ∷ ds) = d == 58 || has_colon ds

-- The arguments of `knobs`: an empty text or dictionary counts as not given.
pub record Wanted : Type 0 where
  pub axi : Name
  pub ports : List (Name × Name)
  pub axi_limit : List (Name × ℕ)
  pub power : Option ℕ
  pub fast : Option ℕ
  pub ta : Option ℕ

-- `port == "ext"`
abbrev pub is_ext : Name → Bool
is_ext port = same_name port (codes "ext")

-- `if axi:`
unfoldable pub put_axi : Name → List ℕ → Result KnobError (List ℕ)
unfolding get_key set_at split_two
put_axi [] k = ok k
put_axi (c ∷ cs) k = do
  parts ← or_raise value_error (split_two (c ∷ cs))
  sel ← or_raise key_error (get_key parts.1 axi_channels)
  ok (set_at axi_chan (bit_or (if is_ext parts.0 then 2 ^ 8 else 0) sel) k)

-- `idx(role)`
unfoldable pub attr_of : Name → List (Name × Name) → Result KnobError ℕ
unfolding get_key
attr_of role ports = do
  port ← or_raise key_error (get_key role ports)
  ok (if is_ext port then attr_ext else attr_sram)

-- `if ports:`
unfoldable pub put_ports : List (Name × Name) → List ℕ → Result KnobError (List ℕ)
unfolding attr_of set_at
put_ports [] k = ok k
put_ports (row ∷ rows) k = do
  let ports = row ∷ rows
  weights ← attr_of (codes "const") ports
  arena ← attr_of (codes "arena") ports
  fast ← attr_of (codes "fast") ports
  cmd ← attr_of (codes "cmd") ports
  let regions = bit_or (bit_or (bit_or weights (arena * 2 ^ 2)) (fast * 2 ^ 4)) (attr_sram * 2 ^ 6)
  ok (
      set_at (mem_attr + 3) mem_attr_ext (
        set_at (mem_attr + 2) mem_attr_ext (
          set_at (mem_attr + 1) mem_attr_sram
            (set_at mem_attr mem_attr_sram (set_at qconfig cmd (set_at regioncfg regions k))))))

-- A limit that is given; bits outside the mask are those that the mask takes away.
unfoldable pub put_given : ℕ → Option ℕ → List ℕ → Result KnobError (List ℕ)
unfolding set_at
put_given field none k = ok k
put_given field (some v) k =
    refuse_if (not (bit_and v axi_limit_fields == v)) reserved_bits >> ok (set_at field v k)

-- One port of `if axi_limit:`.
unfoldable pub put_limit : Name → ℕ → List (Name × ℕ) → List ℕ → Result KnobError (List ℕ)
unfolding get_key put_given
put_limit port field limits k = put_given field (get_key port limits) k

-- `if power_ctrl is not None:`
unfoldable pub put_power : Option ℕ → List ℕ → Result KnobError (List ℕ)
unfolding set_at
put_power none k = ok k
put_power (some v) k = refuse_if (ltb power_ctrl_mask v) power_outside >> ok (set_at power_ctrl v k)

-- `ports.get("fast") == "sram"`
unfoldable pub fast_is_sram : List (Name × Name) → Bool
unfolding get_key
fast_is_sram ports = elim (get_key (codes "fast") ports) [
  | none ↦ false
  | some port ↦ same_name port (codes "sram")
]

-- `if fast_base is not None:`
unfoldable pub put_fast : Option ℕ → List (Name × Name) → List ℕ → Result KnobError (List ℕ)
unfolding fast_is_sram set_at
put_fast none ports k = ok k
put_fast (some v) ports k = do
  refuse_if (not (bit_and v 0xFF == 0) || not (leb onchip_start v && ltb v onchip_end)) fast_outside
  refuse_if (not (fast_is_sram ports)) fast_port
  ok (set_at fast_base v k)

-- `if ta_profile is not None:`
unfoldable pub put_profile : Option ℕ → List ℕ → Result KnobError (List ℕ)
unfolding set_at
put_profile none k = ok k
put_profile (some v) k =
    refuse_if (not (is_key v ta_profiles)) unknown_profile >> ok (set_at ta_profile v k)

unfoldable pub knobs : Wanted → Result KnobError (List ℕ)
unfolding put_axi put_ports put_limit put_power put_fast put_profile
knobs w = do
  k ← put_axi w.axi (replicate knob_count off_word)
  k ← put_ports w.ports k
  k ← put_limit (codes "sram") axi_sram w.axi_limit k
  k ← put_limit (codes "ext") axi_ext w.axi_limit k
  k ← put_power w.power k
  k ← put_fast w.fast w.ports k
  put_profile w.ta k
