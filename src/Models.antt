-- ===== src/Models.antt =====
-- host/container/make_op_model.py, `geometry`, and host/container/workload_meta.py, `op_macs`: two counts of
-- the multiply-accumulates of an operator, from its specification and from the shapes of its tensors.
pub mod Macs
use mps4_prototyping_board.Prelude.{
  ℕ, zero, suc, ◌*◌, List, [], ◌∷◌, Option, none, some, Result, ok, err, ◌>>=◌, or_raise,
}
use mps4_prototyping_board.Workload.Vela.{product}

-- An operator of OPS: the IFM (batch, height, width, channels; for FC rows and channels), and the number of
-- output channels and the kernel's size where it has them.
pub data Spec : Type 0 where
  conv : ℕ → ℕ → ℕ → ℕ → ℕ → ℕ → Spec
  dw : ℕ → ℕ → ℕ → ℕ → ℕ → Spec
  fc : ℕ → ℕ → ℕ → Spec

-- `geometry`, without the texts of the paddings.
pub record OpGeometry : Type 0 where
  pub ofm : List ℕ
  pub kernel : Option (ℕ × ℕ)
  pub stride : Option (ℕ × ℕ)
  pub groups : ℕ
  pub weights : List ℕ
  pub n_mac : ℕ

unfoldable pub geometry : Spec → OpGeometry
geometry (fc rows cin cout) = record {
  ofm = 1 ∷ cout ∷ [];
  kernel = none;
  stride = none;
  groups = 1;
  weights = cout ∷ cin ∷ [];
  n_mac = cout * cin;
}
geometry (dw n h w cin k) = record {
  ofm = n ∷ h ∷ w ∷ cin ∷ [];
  kernel = some (k, k);
  stride = some (1, 1);
  groups = cin;
  weights = 1 ∷ k ∷ k ∷ cin ∷ [];
  n_mac = h * w * cin * k * k;
}
geometry (conv n h w cin cout k) = record {
  ofm = n ∷ h ∷ w ∷ cout ∷ [];
  kernel = some (k, k);
  stride = some (1, 1);
  groups = 1;
  weights = cout ∷ k ∷ k ∷ cin ∷ [];
  n_mac = h * w * cout * k * k * cin;
}

-- The operators that `op_macs` tells apart.
pub data Code : Type 0 where
  conv_2d depthwise_conv_2d fully_connected batch_matmul other_op : Code

-- IndexError, and the ValueError of unpacking a shape of another rank.
pub data ShapeError : Type 0 where
  index_error rank_error : ShapeError

abbrev pub nth_shape : ℕ → List (List ℕ) → Result ShapeError (List ℕ)
nth_shape n [] = err index_error
nth_shape zero (s ∷ ss) = ok s
nth_shape (suc n) (s ∷ ss) = nth_shape n ss

abbrev pub four : List ℕ → Result ShapeError (ℕ × ℕ × ℕ × ℕ)
four (a ∷ b ∷ c ∷ d ∷ []) = ok (a, b, c, d)
four s = err rank_error

abbrev pub two : List ℕ → Result ShapeError (ℕ × ℕ)
two (a ∷ b ∷ []) = ok (a, b)
two s = err rank_error

-- `shape[:-1]`
abbrev pub all_but_last : List ℕ → List ℕ
all_but_last [] = []
all_but_last (n ∷ []) = []
all_but_last (n ∷ m ∷ ns) = n ∷ all_but_last (m ∷ ns)

-- `shape[-1]`
abbrev pub last_of : List ℕ → Result ShapeError ℕ
last_of [] = err index_error
last_of (n ∷ []) = ok n
last_of (n ∷ m ∷ ns) = last_of (m ∷ ns)

-- `op_macs`, of the shapes of the inputs and of the outputs.
unfoldable pub op_macs : Code → List (List ℕ) → List (List ℕ) → Result ShapeError (Option ℕ)
unfolding product
op_macs conv_2d ins outs = do
  ofm ← nth_shape 0 outs
  (n, ho, wo, cout) ← four ofm
  filter ← nth_shape 1 ins
  (_, kh, kw, cin_g) ← four filter
  ok (some (n * ho * wo * cout * kh * kw * cin_g))
op_macs depthwise_conv_2d ins outs = do
  ofm ← nth_shape 0 outs
  (n, ho, wo, cout) ← four ofm
  filter ← nth_shape 1 ins
  (_, kh, kw, _) ← four filter
  ok (some (n * ho * wo * cout * kh * kw))
op_macs fully_connected ins outs = do
  weights ← nth_shape 1 ins
  (cout, cin) ← two weights
  ofm ← nth_shape 0 outs
  ok (some (product (all_but_last ofm) * cin * cout))
op_macs batch_matmul ins outs = do
  ofm ← nth_shape 0 outs
  left ← nth_shape 0 ins
  k ← last_of left
  ok (some (product ofm * k))
op_macs other_op ins outs = ok none
