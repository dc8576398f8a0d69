-- ===== src/Workload/Inspect.antt =====
-- host/container/pack_vela_workload.py, `inspect_vela`, and what host/lib/pmwl.py asks of its result.
use mps4_prototyping_board.Prelude.{
  ℕ, suc, ◌+◌, ◌-◌, ◌≡◌, ◌≤◌, ◌<◌, ◌∙◌, ◌≢◌, ◌⊎◌, ◌%◌, ◌++◌, refl, sym, ap, subst, subst₂, All,
  Bool-cases, ==_iff, Name, codes, same_name, same_name_iff, get_elem?, arith, List, [], ◌∷◌, true,
  false, not, ◌||◌, none, some, Option-cases, some-injective, length, drop, length-drop, get_or,
  ltb, ◌==◌, Result, ok, err, ok-injective, >>=-eq-ok, refuse_if-eq-ok, or_raise-eq-ok, or_raise,
  inl, inr,
}
use mps4_prototyping_board.Bytes.{Bytes, words}
use mps4_prototyping_board.Pmwl.{io_max, Tensor, Info, or_single}
use mps4_prototyping_board.Workload.{CopError, extract_cms}
use mps4_prototyping_board.Workload.Sound.{IsStream, extract_cms-IsStream}
use mps4_prototyping_board.Workload.Vela.{
  VelaGraph, VelaError, bad_plan, product, plan_of, offset_of, io_of, first_tensor, stream_or,
  inspect_vela, is_ethos_u, no_offsets, not_ethos_u, operator_count, bad_io_count,
}

-- The words of the memory plan: those behind the first three of the last metadata entry with the plan's name,
-- which is whole words; no word where no entry has the name.
pub data IsPlan : List (Name × Bytes) → List ℕ → Type 0 where
  no_plan :
      {entries : List (Name × Bytes)}
      → All (λ e. e.0 ≢ codes "OfflineMemoryAllocation") entries
      → IsPlan entries []
  last_plan :
      (before after : List (Name × Bytes)) (raw : Bytes)
      → All (λ e. e.0 ≢ codes "OfflineMemoryAllocation") after
      → length raw % 4 ≡ 0
      → IsPlan (before ++ (codes "OfflineMemoryAllocation", raw) ∷ after) (drop 3 (words raw))

-- The plan so far, or the last one of the entries.
abbrev Plans : List ℕ → List (Name × Bytes) → List ℕ → Type 0
Plans plan entries out =
    (All (λ e. e.0 ≢ codes "OfflineMemoryAllocation") entries × (out ≡ plan))
    ⊎ ((before : List (Name × Bytes)) × (after : List (Name × Bytes)) × (raw : Bytes) × (entries
          ≡ before ++ (codes "OfflineMemoryAllocation", raw) ∷ after)
        × All (λ e. e.0 ≢ codes "OfflineMemoryAllocation") after
        × (length raw % 4 ≡ 0)
        × (out ≡ drop 3 (words raw)))

Plans-later :
    (plan : List ℕ) (e : Name × Bytes) (rest : List (Name × Bytes)) (out : List ℕ)
    → e.0 ≢ codes "OfflineMemoryAllocation"
    → Plans plan rest out
    → Plans plan (e ∷ rest) out
Plans-later plan e rest out n (inl (others, same)) = inl ((n, others), same)
Plans-later plan e rest out n (inr (before, after, raw, split, others, whole, same)) =
    inr (e ∷ before, after, raw, ap (λ l. e ∷ l) split, others, whole, same)

Plans-first :
    (plan : List ℕ) (e : Name × Bytes) (rest : List (Name × Bytes)) (out : List ℕ)
    → e.0 ≡ codes "OfflineMemoryAllocation"
    → length e.1 % 4 ≡ 0
    → Plans (drop 3 (words e.1)) rest out
    → Plans plan (e ∷ rest) out
Plans-first plan e rest out n whole (inl (others, same)) =
    inr ([], rest, e.1, ap (λ (m : Name). (m, e.1) ∷ rest) n, others, whole, same)
Plans-first plan e rest out n whole (inr (before, after, raw, split, others, w, same)) =
    inr (e ∷ before, after, raw, ap (λ l. e ∷ l) split, others, w, same)

plan_of-Plans :
    (plan : List ℕ) (entries : List (Name × Bytes)) (out : List ℕ)
    → plan_of plan entries ≡ ok out
    → Plans plan entries out
unfolding plan_of
plan_of-Plans plan [] out h = inl (tt, sym (ok-injective h))
plan_of-Plans plan ((name, raw) ∷ rest) out h =
    let named = same_name_iff name (codes "OfflineMemoryAllocation") in
    elim (Bool-cases (same_name name (codes "OfflineMemoryAllocation"))) [
      | inr e ↦
          Plans-later plan (name, raw) rest out (λ p. cc (named.1 p, e))
            (plan_of-Plans plan rest out (rw (e, plan_of) at h))
      | inl e ↦ elim (Bool-cases (length raw % 4 == 0)) [
        | inl w ↦
            Plans-first plan (name, raw) rest out (named.0 e) ((==_iff (length raw % 4) 0).0 w)
              (plan_of-Plans (drop 3 (words raw)) rest out (rw (e, w, plan_of) at h))
        | inr w ↦
            let refused : ◌≡◌ {A = Result VelaError (List ℕ)} (err bad_plan) (ok out) =
              rw (e, w, plan_of) at h in
            cc refused
      ]
    ]

plan_of-IsPlan :
    (entries : List (Name × Bytes)) (out : List ℕ)
    → plan_of [] entries ≡ ok out
    → IsPlan entries out
plan_of-IsPlan entries out h = elim (plan_of-Plans [] entries out h) [
  | inl (others, same) ↦ subst (IsPlan entries) (sym same) (no_plan others)
  | inr (before, after, raw, split, others, whole, same) ↦
      subst₂ IsPlan (sym split) (sym same) (last_plan before after raw others whole)
]

-- The tensors lie at the words of the plan, which as signed numbers are not negative, and have the sizes of
-- their shapes, in order.
abbrev pub Planned : VelaGraph → List ℕ → List ℕ → List Tensor → Type 0
Planned g plan [] [] = Unit
Planned g plan (ti ∷ tis) (t ∷ ts) =
    (get_elem? plan ti ≡ some t.arena_off)
    × (t.arena_off < 0x8000_0000)
    × (t.len ≡ product (g.shape ti))
    × Planned g plan tis ts
Planned g plan [] (t ∷ ts) = ⊥
Planned g plan (ti ∷ tis) [] = ⊥

offset_of-eq-some :
    (plan : List ℕ) (ti off : ℕ)
    → offset_of plan ti ≡ some off
    → (get_elem? plan ti ≡ some off) × (off < 0x8000_0000)
unfolding offset_of
offset_of-eq-some plan ti off h = elim (Option-cases (get_elem? plan ti)) [
  | inl e ↦ let absent : none ≡ some off = rw (e, offset_of) at h in cc absent
  | inr (w, e) ↦ elim (Bool-cases (ltb w 0x8000_0000)) [
    | inl p ↦
        let same : some w ≡ some off = rw (e, p, offset_of) at h in
        (e ∙ same, ground (arith, p, some-injective same))
    | inr p ↦ let absent : none ≡ some off = rw (e, p, offset_of) at h in cc absent
  ]
]

io_of-Planned :
    (g : VelaGraph) (plan tis : List ℕ) (ts : List Tensor)
    → io_of g plan tis ≡ some ts
    → Planned g plan tis ts × (length ts ≡ length tis)
unfolding io_of
io_of-Planned g plan [] [] h = (tt, refl)
io_of-Planned g plan [] (t ∷ ts) h = cc h
io_of-Planned g plan (ti ∷ tis) ts h = elim (Option-cases (offset_of plan ti)) [
  | inl e ↦ let absent : none ≡ some ts = rw (e, io_of) at h in cc absent
  | inr (off, e) ↦ elim (Option-cases (io_of g plan tis)) [
    | inl f ↦ let absent : none ≡ some ts = rw (e, f, io_of) at h in cc absent
    | inr (rest, f) ↦
        let same : some (record { arena_off = off; len = product (g.shape ti) } ∷ rest) ≡ some ts =
          rw (e, f, io_of) at h in
        let (a, b) = io_of-Planned g plan tis rest f in
        subst (λ z. Planned g plan (ti ∷ tis) z × (length z ≡ suc (length tis)))
          (some-injective same)
          (let (there, low) = offset_of-eq-some plan ti off e in (there, low, refl, a), ap suc b)
  ]
]

-- What the packer may rely on.
pub record IsPackable (g : VelaGraph) (info : Info) : Type 0 where
  pub one_operator : g.operators ≡ 1
  pub ethos_u : is_ethos_u g.custom_code ≡ true
  pub plan : List ℕ
  pub planned : IsPlan g.metadata plan
  pub ifms : Planned g plan (drop 4 g.op_inputs) info.inputs
  pub ofms : Planned g plan g.op_outputs info.outputs
  pub some_ifm : or_single info.inputs info.ifm ≡ info.inputs
  pub some_ofm : or_single info.outputs info.ofm ≡ info.outputs
  pub fits_table : length info.inputs + length info.outputs ≤ io_max
  pub stream : IsStream (g.buffer (get_or g.op_inputs 0 0)) info.cms
  pub constants : info.weights ≡ g.buffer (get_or g.op_inputs 1 0)
  pub arena : info.arena_size ≡ product (g.shape (get_or g.op_inputs 2 0))
  pub fast : info.fast_size ≡ product (g.shape (get_or g.op_inputs 3 0))

or_single-some : (ts : List Tensor) (t : Tensor) → 0 < length ts → or_single ts t ≡ ts
unfolding or_single
or_single-some [] t h = absurd (omega arith)
or_single-some (u ∷ ts) t h = refl

stream_or-eq-ok : (m : Result CopError Bytes) (cms : Bytes) → stream_or m ≡ ok cms → m ≡ ok cms
stream_or-eq-ok (ok s) cms h = let same : s ≡ cms = ok-injective h in ap ok same
stream_or-eq-ok (err e) cms h = cc h

-- The three parts of the test of the numbers of inputs and outputs.
counts_ok :
    (n m : ℕ)
    → (ltb n 5 || (ltb m 1 || ltb io_max (n - 4 + m))) ≡ false
    → (5 ≤ n) × (1 ≤ m) × (n - 4 + m ≤ io_max)
counts_ok n m h = (ground arith, ground arith, ground arith)

-- What `inspect_vela` takes from a graph that it accepts: the command stream of the payload of its one ethos-u
-- operator, and the constants and the sizes of the arena and the fast scratch from its next three inputs; at
-- least one IFM and one OFM, each at the offset, not negative, that the last memory plan gives it and with
-- the size of its shape; and no more of them than the IO table of the blob holds.
pub inspect_vela-IsPackable :
    (g : VelaGraph) (info : Info) → inspect_vela g ≡ ok info → IsPackable g info
unfolding inspect_vela
inspect_vela-IsPackable g info h =
    let (a, h1) = refuse_if-eq-ok (not (g.operators == 1)) (operator_count g.operators) _ h in
    let (b, h2) = refuse_if-eq-ok (not (is_ethos_u g.custom_code)) not_ethos_u _ h1 in
    let (c, h3) =
      refuse_if-eq-ok
        (ltb (length g.op_inputs) 5
          || (ltb (length g.op_outputs) 1
              || ltb io_max (length g.op_inputs - 4 + length g.op_outputs)))
        bad_io_count _ h2 in
    let (plan, p, h4) = >>=-eq-ok (plan_of [] g.metadata) _ h3 in
    let (ins, q, h5) = >>=-eq-ok (or_raise no_offsets (io_of g plan (drop 4 g.op_inputs))) _ h4 in
    let (outs, r, h6) = >>=-eq-ok (or_raise no_offsets (io_of g plan g.op_outputs)) _ h5 in
    let (cms, s, h7) =
      >>=-eq-ok (stream_or (extract_cms (g.buffer (get_or g.op_inputs 0 0)))) _ h6 in
    let (n, m, fits) = counts_ok (length g.op_inputs) (length g.op_outputs) c in
    let (x, xl) =
      io_of-Planned g plan (drop 4 g.op_inputs) ins (or_raise-eq-ok no_offsets _ ins q) in
    let (y, yl) = io_of-Planned g plan g.op_outputs outs (or_raise-eq-ok no_offsets _ outs r) in
    let (_, _, is) = extract_cms-IsStream _ cms (stream_or-eq-ok _ cms s) in
    let dropped = length-drop 4 g.op_inputs in
    subst (IsPackable g)
      {x = record {
        cms = cms;
        weights = g.buffer (get_or g.op_inputs 1 0);
        arena_size = product (g.shape (get_or g.op_inputs 2 0));
        fast_size = product (g.shape (get_or g.op_inputs 3 0));
        inputs = ins;
        outputs = outs;
        ifm = first_tensor ins;
        ofm = first_tensor outs;
      }}
      (ok-injective h7)
      (record {
        one_operator = ground (arith, a);
        ethos_u = ground (arith, b);
        plan = plan;
        planned = plan_of-IsPlan g.metadata plan p;
        ifms = x;
        ofms = y;
        some_ifm = or_single-some ins _ (omega (arith, xl, dropped, n));
        some_ofm = or_single-some outs _ (omega (arith, yl, m));
        fits_table = omega (arith, xl, yl, dropped, fits);
        stream = is;
        constants = refl;
        arena = refl;
        fast = refl;
      })
