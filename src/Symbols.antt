-- ===== src/Symbols.antt =====
-- firmware/gate/check_measure_symbols.py: the build gate over the call graph of the linked ELF.
-- `subprocess` and `open` are outside: what objdump, nm and the map file say is an argument. A symbol
-- is the list of its code points, all of them ASCII, and a set is a list.
pub mod Walk
pub mod Path
pub mod Layout
pub mod Gates
pub mod Verdict
pub mod Sound
use mps4_prototyping_board.Prelude.{
  ℕ, ◌+◌, ◌≡◌, refl, ◌↔◌, List, [], ◌∷◌, ◌++◌, Bool, true, false, not, ◌&&◌, ◌||◌, leb, ltb, ◌==◌,
  length, drop, arith, Equality, has, map, Name, codes, same_name, name_equality,
}
use mps4_prototyping_board.Bytes.{starts_with}

-- The order of Python's strings.
abbrev pub name_leq : Name → Name → Bool
name_leq [] t = true
name_leq (c ∷ cs) [] = false
name_leq (c ∷ cs) (d ∷ ds) = ltb c d || c == d && name_leq cs ds

-- `DENYLIST`
abbrev pub denylist : List Name
denylist = map codes (
    "printf" ∷ "vprintf" ∷ "fprintf" ∷ "vfprintf" ∷ "sprintf" ∷ "snprintf" ∷ "vsprintf"
    ∷ "vsnprintf" ∷ "puts" ∷ "putchar" ∷ "fwrite" ∷ "fputc" ∷ "fputs" ∷ "_write" ∷ "_write_r"
    ∷ "write" ∷ "serial_print" ∷ "serial_write" ∷ "serial_putc" ∷ "iprintf" ∷ "viprintf"
    ∷ "fiprintf" ∷ "vfiprintf" ∷ "siprintf" ∷ "sniprintf" ∷ "__real_printf" ∷ "__real_vprintf"
    ∷ "__real_puts" ∷ "__real_putchar" ∷ "__real__write" ∷ "__real__write_r" ∷ "__real_fputc"
    ∷ "__real_fwrite" ∷ "__real_fprintf" ∷ "__real_vfprintf" ∷ "__real_serial_print" ∷ [])

-- `\d` and `\w` on ASCII.
abbrev pub is_digit : ℕ → Bool
is_digit c = leb 48 c && leb c 57

abbrev pub is_word : ℕ → Bool
is_word c = is_digit c || (leb 65 c && leb c 90 || (leb 97 c && leb c 122 || c == 95))

-- `[class]*suffix$`
unfoldable pub ends_after : (ℕ → Bool) → Name → Name → Bool
ends_after inside suffix [] = same_name suffix []
ends_after inside suffix (c ∷ cs) =
    same_name suffix (c ∷ cs) || inside c && ends_after inside suffix cs

-- `^prefix[class]*_Send$`
unfoldable pub sends : Name → (ℕ → Bool) → Name → Bool
unfolding ends_after
sends prefix inside name =
    starts_with prefix name && ends_after inside (codes "_Send") (drop (length prefix) name)

-- `is_denied`, with `DENY_PATTERNS`
unfoldable pub is_denied : Name → Bool
unfolding sends
is_denied name =
    has name denylist
    || (sends (codes "ARM_USART") is_word name
        || (sends (codes "Driver_USART") is_digit name || sends (codes "USART") is_digit name))

abbrev pub known_indirect_sites : List Name
known_indirect_sites = codes "runner_u85_irq_wrapper" ∷ []

abbrev pub measured_roots : List Name
measured_roots = codes "run_fixed_inference" ∷ codes "runner_u85_irq_wrapper" ∷ []

abbrev pub sec_noinit_base : ℕ
sec_noinit_base = 0x9002_0000

abbrev pub sec_noinit_size : ℕ
sec_noinit_size = 0xF90

abbrev pub sec_noinit_objects : List Name
sec_noinit_objects = map codes (
    "u85_AXIBus.o" ∷ "u85_Convolution.o" ∷ "u85_MaxPooling.o" ∷ "u85_PowerIndicative.o"
    ∷ "u85_PowerIndicativeMax.o" ∷ "u85_RegConfig.o" ∷ [])

abbrev pub inject_marker_prefix : Name
inject_marker_prefix = codes "runner_inject_"

abbrev pub npu_entry_symbol : Name
npu_entry_symbol = codes "apU85Conv_TEST"

abbrev pub test_hook_symbols : List Name
test_hook_symbols = codes "handle_test_skip_next_npu" ∷ []

abbrev pub command_dispatch_roots : List Name
command_dispatch_roots = codes "dispatch" ∷ []
