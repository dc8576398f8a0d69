-- ===== src/Models/Macs.antt =====
-- host/container/workload_meta.py, `op_macs`, on the models of host/container/make_op_model.py.
use mps4_prototyping_board.Prelude.{ℕ, ◌*◌, ◌≡◌, refl, ap, ◌∙◌, List, [], ◌∷◌, some, ok}
use native.Mathlib.Nat.{mul_assoc, mul_comm}
use mps4_prototyping_board.Models.{
  Spec, conv, dw, fc, geometry, Code, conv_2d, depthwise_conv_2d, fully_connected, op_macs,
}

-- `build`: the shapes of the operator's inputs and of its output, and its code.
unfoldable pub shapes_in : Spec → List (List ℕ)
unfolding geometry
shapes_in (conv n h w cin cout k) =
    (n ∷ h ∷ w ∷ cin ∷ []) ∷ (geometry (conv n h w cin cout k)).weights ∷ (cout ∷ []) ∷ []
shapes_in (dw n h w cin k) =
    (n ∷ h ∷ w ∷ cin ∷ []) ∷ (geometry (dw n h w cin k)).weights ∷ (cin ∷ []) ∷ []
shapes_in (fc rows cin cout) =
    (rows ∷ cin ∷ []) ∷ (geometry (fc rows cin cout)).weights ∷ (cout ∷ []) ∷ []

abbrev pub code_of : Spec → Code
code_of (conv n h w cin cout k) = conv_2d
code_of (dw n h w cin k) = depthwise_conv_2d
code_of (fc rows cin cout) = fully_connected

-- The batch size; `geometry` gives an FC output one row, whatever the IFM has.
abbrev pub batch_of : Spec → ℕ
batch_of (conv n h w cin cout k) = n
batch_of (dw n h w cin k) = n
batch_of (fc rows cin cout) = 1

-- The count that `op_macs` makes from the tensor shapes of a generated model never fails, and is the batch size
-- times the N_MAC that the generator states; so both agree for every operator with batch size 1.
pub op_macs-geometry :
    (spec : Spec)
    → op_macs (code_of spec) (shapes_in spec) ((geometry spec).ofm ∷ [])
      ≡ ok (some (batch_of spec * (geometry spec).n_mac))
unfolding op_macs geometry shapes_in
op_macs-geometry (conv n h w cin cout k) = simp mul_assoc refl
op_macs-geometry (dw n h w cin k) = simp mul_assoc refl
op_macs-geometry (fc rows cin cout) =
    ap (λ (t : ℕ). ok (some t)) (mul_assoc 1 cin cout ∙ ap (λ (t : ℕ). 1 * t) (mul_comm cin cout))
