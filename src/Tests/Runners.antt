-- ===== src/Tests/Runners.antt =====
-- Runs of the runner's gate, of the changes to the vendor's source, and of the model that the packer reads.
use mps4_prototyping_board.Prelude.{
  ℕ, ◌≡◌, ◌↔◌, refl, List, [], ◌∷◌, ◌++◌, true, false, some, Name, codes, ok, has, if◌then◌else◌,
  ◌==◌,
}
use mps4_prototyping_board.Bytes.{Bytes, le32s, words, starts_with}
use mps4_prototyping_board.Runner.{
  AsmLine, Inputs, contains, check_runner, runner_magic, events_define, count_refusal, wrap_head,
  seam_fmt, apply_fmt, ext_literal, raised_timeout, power_ctrl_hook,
}
use mps4_prototyping_board.Runner.Gate.{IsRunnable, check_runner_iff}
use mps4_prototyping_board.Vendor.{
  generate_vendor, old1, new1, old3, new3, old4, ret_code_line, clears, weak_default,
}
use mps4_prototyping_board.Vendor.Patched.{generate_vendor-contains}
use mps4_prototyping_board.Pmwl.{Info}
use mps4_prototyping_board.Workload.{extract_cms}
use mps4_prototyping_board.Workload.Vela.{VelaGraph, inspect_vela}
use mps4_prototyping_board.Workload.Inspect.{IsPackable, inspect_vela-IsPackable}

-- A vendor source with each of the four places, its lines ending in CR LF.
abbrev lf : Name
lf = 13 ∷ 10 ∷ []

abbrev vendor_source : Name
vendor_source =
    old1
    ++ (lf
        ++ (old4
            ++ (codes ")" ++ (lf ++ (b'{' ∷ (lf ++ (ret_code_line ++ (lf ++ (old3 ++ lf)))))))))

abbrev generated : Name
generated =
    new1
    ++ (lf
        ++ (weak_default
            ++ (lf
                ++ (old4
                    ++ (codes ")"
                        ++ (lf
                            ++ (b'{'
                                ∷ (lf ++ (ret_code_line ++ (clears ++ (lf ++ (new3 ++ lf))))))))))))

generate_vendor_run : generate_vendor vendor_source ≡ ok generated
unfolding generate_vendor
generate_vendor_run = refl

generate_vendor-contains_example :
    (contains raised_timeout generated ≡ true) × (contains power_ctrl_hook generated ≡ true)
generate_vendor-contains_example =
    generate_vendor-contains vendor_source generated generate_vendor_run

abbrev plain : AsmLine
plain = record { calls = λ n. false; is_bl = false; writes_r0 = false; immediate_r0 = false }

abbrev add_offset : AsmLine
add_offset = record { calls = λ n. false; is_bl = false; writes_r0 = true; immediate_r0 = false }

-- A call to either accessor.
abbrev call_line : AsmLine
call_line = record { calls = λ n. true; is_bl = true; writes_r0 = false; immediate_r0 = false }

abbrev runner : Inputs
runner = record {
  objdump = plain ∷ add_offset ∷ plain ∷ call_line ∷ [];
  literals = 0x1234_5678 ∷ runner_magic ∷ [];
  linked = λ n. true;
  wrap_test_u85 = true;
  strong_power_ctrl = true;
  src = events_define ++ (count_refusal ++ (wrap_head ++ (seam_fmt ++ apply_fmt)));
  build_id = 0x1234_5678;
  elf = ext_literal;
  vendor = generated;
}

check_runner_run : check_runner runner ≡ ok tt
unfolding check_runner has
check_runner_run = refl

check_runner_iff_example : (check_runner runner ≡ ok tt) ↔ IsRunnable runner
check_runner_iff_example = check_runner_iff runner

-- A compiled model: its tensors 0 to 5 are the command stream, the constants, the arena, the fast scratch, the
-- IFM and the OFM.
-- An offset that is not planned: -1.
abbrev off : ℕ
off = 0xFFFF_FFFF

abbrev shape_at : ℕ → List ℕ
shape_at t = if t == 2 then 64 ∷ [] else if t == 3 then 32 ∷ [] else 1 ∷ 4 ∷ []

-- COP1, and one COMMAND_STREAM of one word.
abbrev payload : Bytes
payload = codes "COP1" ++ le32s (0x0001_0002 ∷ 0x0000_0000 ∷ [])

abbrev graph : VelaGraph
graph = record {
  operators = 1;
  custom_code = some (codes "ethos-u");
  op_inputs = 0 ∷ 1 ∷ 2 ∷ 3 ∷ 4 ∷ [];
  op_outputs = 5 ∷ [];
  shape = shape_at;
  buffer = λ t. if t == 0 then payload else [];
  metadata =
      (codes "OfflineMemoryAllocation", le32s (0 ∷ 0 ∷ 6 ∷ off ∷ off ∷ off ∷ off ∷ 0 ∷ 16 ∷ []))
      ∷ [];
}

abbrev packed_info : Info
packed_info = record {
  cms = 0 ∷ 0 ∷ 0 ∷ 0 ∷ [];
  weights = [];
  arena_size = 64;
  fast_size = 32;
  inputs = record { arena_off = 0; len = 4 } ∷ [];
  outputs = record { arena_off = 16; len = 4 } ∷ [];
  ifm = record { arena_off = 0; len = 4 };
  ofm = record { arena_off = 16; len = 4 };
}

inspect_vela_run : inspect_vela graph ≡ ok packed_info
unfolding inspect_vela extract_cms le32s words starts_with
inspect_vela_run = refl

inspect_vela-IsPackable_example : IsPackable graph packed_info
inspect_vela-IsPackable_example = inspect_vela-IsPackable graph packed_info inspect_vela_run
