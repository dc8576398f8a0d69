-- ===== src/Workload/Vela.antt =====
-- host/container/pack_vela_workload.py, `inspect_vela` and `check_vela`: what the packer takes from a compiled
-- model. The `tflite` reader is not modelled: a graph is what its accessors give.
use mps4_prototyping_board.Prelude.{
  ℕ, ◌+◌, ◌-◌, ◌*◌, ◌%◌, ◌^◌, List, [], ◌∷◌, Bool, false, not, ◌||◌, Option, none, some, length,
  drop, get_elem?, get_or, ltb, ◌==◌, if◌then◌else◌, Result, ok, err, ◌>>=◌, ◌>>◌, refuse_if,
  or_raise, Name, codes, same_name,
}
use mps4_prototyping_board.Bytes.{Bytes, words}
use mps4_prototyping_board.Pmwl.{io_max, Tensor, Info}
use mps4_prototyping_board.Workload.{CopError, extract_cms}

-- The model file: the number of operators of its first subgraph; of the first one the custom code (none
-- where it has none), the tensors that are its inputs and outputs; of a tensor the shape and the bytes of
-- its buffer; and the metadata, each a name and the bytes of its buffer.
pub record VelaGraph : Type 0 where
  pub operators : ℕ
  pub custom_code : Option Name
  pub op_inputs : List ℕ
  pub op_outputs : List ℕ
  pub shape : ℕ → List ℕ
  pub buffer : ℕ → Bytes
  pub metadata : List (Name × Bytes)

-- SystemExit by its message, `struct.error`, and the errors of `extract_cms`.
pub data VelaError : Type 0 where
  operator_count : ℕ → VelaError
  not_ethos_u bad_io_count no_offsets bad_plan : VelaError
  bad_stream : CopError → VelaError

-- `np.prod`
unfoldable pub product : List ℕ → ℕ
product [] = 1
product (n ∷ ns) = n * product ns

abbrev pub is_ethos_u : Option Name → Bool
is_ethos_u none = false
is_ethos_u (some code) = same_name code (codes "ethos-u")

-- The words of the last OfflineMemoryAllocation, if any: the bytes are to be whole words.
unfoldable pub plan_of : List ℕ → List (Name × Bytes) → Result VelaError (List ℕ)
plan_of plan [] = ok plan
plan_of plan ((name, raw) ∷ rest) =
    let next = plan_of (drop 3 (words raw)) rest in
    let same = plan_of plan rest in
    if same_name name (codes "OfflineMemoryAllocation")
    then (if length raw % 4 == 0 then next else err bad_plan)
    else same

-- `offs.get(ti)`: an offset that is not negative, as a signed word.
unfoldable pub offset_of : List ℕ → ℕ → Option ℕ
offset_of plan ti = elim (get_elem? plan ti) [
  | none ↦ none
  | some w ↦ if ltb w (2 ^ 31) then some w else none
]

-- `io`, with the test that every tensor has an offset.
unfoldable pub io_of : VelaGraph → List ℕ → List ℕ → Option (List Tensor)
unfolding product offset_of
io_of g plan [] = some []
io_of g plan (ti ∷ tis) = elim (offset_of plan ti) [
  | none ↦ none
  | some off ↦ elim (io_of g plan tis) [
    | none ↦ none
    | some ts ↦ some (record { arena_off = off; len = product (g.shape ti) } ∷ ts)
  ]
]

abbrev pub first_tensor : List Tensor → Tensor
first_tensor [] = record { arena_off = 0; len = 0 }
first_tensor (t ∷ ts) = t

abbrev pub stream_or : Result CopError Bytes → Result VelaError Bytes
stream_or (ok cms) = ok cms
stream_or (err e) = err (bad_stream e)

-- `inspect_vela`: the inputs 0 to 3 are the command stream, the constants, the arena and the fast scratch.
unfoldable pub inspect_vela : VelaGraph → Result VelaError Info
unfolding plan_of io_of
inspect_vela g = do
  refuse_if (not (g.operators == 1)) (operator_count g.operators)
  refuse_if (not (is_ethos_u g.custom_code)) not_ethos_u
  refuse_if
      (ltb (length g.op_inputs) 5
        || (ltb (length g.op_outputs) 1
            || ltb io_max (length g.op_inputs - 4 + length g.op_outputs)))
      bad_io_count
  plan ← plan_of [] g.metadata
  ins ← or_raise no_offsets (io_of g plan (drop 4 g.op_inputs))
  outs ← or_raise no_offsets (io_of g plan g.op_outputs)
  cms ← stream_or (extract_cms (g.buffer (get_or g.op_inputs 0 0)))
  ok (record {
    cms = cms;
    weights = g.buffer (get_or g.op_inputs 1 0);
    arena_size = product (g.shape (get_or g.op_inputs 2 0));
    fast_size = product (g.shape (get_or g.op_inputs 3 0));
    inputs = ins;
    outputs = outs;
    ifm = first_tensor ins;
    ofm = first_tensor outs;
  })
