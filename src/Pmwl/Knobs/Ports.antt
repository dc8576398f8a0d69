-- ===== src/Pmwl/Knobs/Ports.antt =====
-- host/lib/pmwl.py, `knobs`: the words of `axi` and of `ports`.
use mps4_prototyping_board.Prelude.{
  ℕ, ◌+◌, ◌*◌, ◌^◌, ◌≡◌, ◌≢◌, ◌≤◌, ◌<◌, ◌⊎◌, inl, inr, refl, sym, ap, ap₂, subst₂, ◌∙◌, arith,
  bit_or, List, [], ◌∷◌, ◌++◌, Bool, true, false, none, some, some-injective, ◌==◌, ==_iff,
  if◌then◌else◌, Bool-cases, Option-cases, ok, ok-injective, >>=-eq-ok, or_raise, or_raise-eq-ok,
  Name, codes, same_name, same_name_iff, length, get_or,
}
use mps4_prototyping_board.Pmwl.{off_word}
use mps4_prototyping_board.Pmwl.Knobs.{
  value_error, key_error, split_two, axi_channels, axi_chan, attr_of, set_at, put_axi, put_ports,
  get_key, is_ext,
}
use mps4_prototyping_board.Pmwl.Knobs.Steps.{same_word, stays}

-- The numbers of the AXI channels: the reads from 0 on, and the writes from 8 on.
pub data Channel : Name → ℕ → Type 0 where
  rd_cmd : Channel (codes "rd_cmd") 0
  rd_ifm : Channel (codes "rd_ifm") 1
  rd_weights : Channel (codes "rd_weights") 2
  rd_scale_bias : Channel (codes "rd_scale_bias") 3
  rd_mem2mem : Channel (codes "rd_mem2mem") 4
  rd_ifm_stream : Channel (codes "rd_ifm_stream") 5
  rd_mem2mem_idx : Channel (codes "rd_mem2mem_idx") 6
  wr_ofm : Channel (codes "wr_ofm") 8
  wr_mem2mem : Channel (codes "wr_mem2mem") 9

-- The word of `axi`: OFF where it is empty, and for `port:channel` the channel's number, with 256 more on
-- the external port.
abbrev pub AxiWord : Name → ℕ → Type 0
AxiWord [] v = v ≡ off_word
AxiWord (c ∷ cs) v =
    (port : Name) × (chan : Name) × (n : ℕ) × (c ∷ cs ≡ port ++ 58 ∷ chan)
    × Channel chan n
    × (((port ≡ codes "ext") × (v ≡ 256 + n)) ⊎ ((port ≢ codes "ext") × (v ≡ n)))

-- The attribute of a role: 2 on the external port, and else 0.
abbrev pub Attr : List (Name × Name) → Name → ℕ → Type 0
Attr ports role v =
    (port : Name) × (get_key role ports ≡ some port)
    × (((port ≡ codes "ext") × (v ≡ 2)) ⊎ ((port ≢ codes "ext") × (v ≡ 0)))

-- The words of `ports`: the regions of the constants, the arena and the fast scratch in two bits each, the
-- command stream's, and the four memory attributes.
abbrev pub PortWords : List (Name × Name) → (ℕ → ℕ) → Type 0
PortWords [] word = (j : ℕ) → 1 ≤ j → j ≤ 6 → word j ≡ off_word
PortWords (row ∷ rows) word =
    (weights : ℕ) × (arena : ℕ) × (fast : ℕ) × (cmd : ℕ) × Attr (row ∷ rows) (codes "const") weights
    × Attr (row ∷ rows) (codes "arena") arena
    × Attr (row ∷ rows) (codes "fast") fast
    × Attr (row ∷ rows) (codes "cmd") cmd
    × (word 1 ≡ weights + 4 * arena + 16 * fast)
    × (word 2 ≡ cmd)
    × (word 3 ≡ 0)
    × (word 4 ≡ 0)
    × (word 5 ≡ 4)
    × (word 6 ≡ 4)

pub PortWords-same :
    (ports : List (Name × Name)) (word other : ℕ → ℕ)
    → ((j : ℕ) → 1 ≤ j → j ≤ 6 → other j ≡ word j)
    → PortWords ports word
    → PortWords ports other
PortWords-same [] word other same p = λ j a b. same j a b ∙ p j a b
PortWords-same (row ∷ rows) word other same
      (weights, arena, fast, cmd, a, b, c, d, e1, e2, e3, e4, e5, e6) =
    (
      weights,
      arena,
      fast,
      cmd,
      a,
      b,
      c,
      d,
      same 1 (omega arith) (omega arith) ∙ e1,
      same 2 (omega arith) (omega arith) ∙ e2,
      same 3 (omega arith) (omega arith) ∙ e3,
      same 4 (omega arith) (omega arith) ∙ e4,
      same 5 (omega arith) (omega arith) ∙ e5,
      same 6 (omega arith) (omega arith) ∙ e6,
    )

-- A key is found in its row, or in the rows behind it.
get_key-cons :
    (key k : Name) (v n : ℕ) (rows : List (Name × ℕ))
    → get_key key ((k, v) ∷ rows) ≡ some n
    → ((k ≡ key) × (v ≡ n)) ⊎ (get_key key rows ≡ some n)
unfolding get_key
get_key-cons key k v n rows h = elim (Bool-cases (same_name k key)) [
  | inl e ↦ inl ((same_name_iff k key).0 e, some-injective (rw e at h))
  | inr e ↦ inr (rw e at h)
]

chosen : {A : Type 0} (b : Bool) {x y : A} → (if b then none else some x) ≡ some y → x ≡ y
chosen true h = cc h
chosen false h = some-injective h

split_two-join : (s port chan : Name) → split_two s ≡ some (port, chan) → s ≡ port ++ 58 ∷ chan
unfolding split_two
split_two-join [] port chan h = cc h
split_two-join (c ∷ cs) port chan h = elim (Bool-cases (c == 58)) [
  | inl e ↦
      let parts = chosen _ (rw e at h) in
      ap₂ (λ x (l : Name). x ∷ l) ((==_iff c 58).0 e) (ap (λ z. z.1) parts)
      ∙ ap (λ (l : Name). l ++ 58 ∷ chan) (ap (λ z. z.0) parts)
  | inr e ↦ elim (Option-cases (split_two cs)) [
    | inl f ↦ let absent : none ≡ some (port, chan) = rw (e, f, split_two) at h in cc absent
    | inr ((first, last), f) ↦
        let parts : some (c ∷ first, last) ≡ some (port, chan) = rw (e, f, split_two) at h in
        let same = some-injective parts in
        ap (λ l. c ∷ l) (split_two-join cs first last f)
        ∙ ap₂ (λ (l : Name) (m : Name). l ++ 58 ∷ m) (ap (λ z. z.0) same) (ap (λ z. z.1) same)
  ]
]

get_key-nil : (key : Name) → get_key {A = ℕ} key [] ≡ none
unfolding get_key
get_key-nil key = refl

get_key-Channel : (chan : Name) (n : ℕ) → get_key chan axi_channels ≡ some n → Channel chan n
get_key-Channel chan n h =
    row (codes "rd_cmd") 0 _ rd_cmd
      (row (codes "rd_ifm") 1 _ rd_ifm (
        row (codes "rd_weights") 2 _ rd_weights (
          row (codes "rd_scale_bias") 3 _ rd_scale_bias (
            row (codes "rd_mem2mem") 4 _ rd_mem2mem (
              row (codes "rd_ifm_stream") 5 _ rd_ifm_stream (
                row (codes "rd_mem2mem_idx") 6 _ rd_mem2mem_idx (
                  row (codes "wr_ofm") 8 _ wr_ofm
                    (row (codes "wr_mem2mem") 9 [] wr_mem2mem (λ e. cc (none_left e))))))))))
      h
  where
    row :
        (k : Name) (v : ℕ) (rows : List (Name × ℕ))
        → Channel k v
        → (get_key chan rows ≡ some n → Channel chan n)
        → get_key chan ((k, v) ∷ rows) ≡ some n
        → Channel chan n
    row k v rows c rest e = elim (get_key-cons chan k v n rows e) [
      | inl (p, q) ↦ subst₂ Channel p q c
      | inr later ↦ rest later
    ]

    none_left : get_key chan [] ≡ some n → none ≡ some n
    none_left e = sym (get_key-nil chan) ∙ e

sel_word :
    (port chan : Name) (n : ℕ)
    → Channel chan n
    → ((port ≡ codes "ext") × (bit_or (if is_ext port then 2 ^ 8 else 0) n ≡ 256 + n))
      ⊎ ((port ≢ codes "ext") × (bit_or (if is_ext port then 2 ^ 8 else 0) n ≡ n))
sel_word port chan n c = elim (Bool-cases (is_ext port)) [
  | inl e ↦ inl ((same_name_iff port (codes "ext")).0 e, rw e (with_256 chan n c))
  | inr e ↦ inr (λ p. cc ((same_name_iff port (codes "ext")).1 p, e), rw e (with_0 chan n c))
]
  where
    with_256 : (chan : Name) (n : ℕ) → Channel chan n → bit_or (2 ^ 8) n ≡ 256 + n
    with_256 chan n rd_cmd = refl
    with_256 chan n rd_ifm = refl
    with_256 chan n rd_weights = refl
    with_256 chan n rd_scale_bias = refl
    with_256 chan n rd_mem2mem = refl
    with_256 chan n rd_ifm_stream = refl
    with_256 chan n rd_mem2mem_idx = refl
    with_256 chan n wr_ofm = refl
    with_256 chan n wr_mem2mem = refl

    with_0 : (chan : Name) (n : ℕ) → Channel chan n → bit_or 0 n ≡ n
    with_0 chan n rd_cmd = refl
    with_0 chan n rd_ifm = refl
    with_0 chan n rd_weights = refl
    with_0 chan n rd_scale_bias = refl
    with_0 chan n rd_mem2mem = refl
    with_0 chan n rd_ifm_stream = refl
    with_0 chan n rd_mem2mem_idx = refl
    with_0 chan n wr_ofm = refl
    with_0 chan n wr_mem2mem = refl

pub put_axi-AxiWord :
    (axi : Name) (k l : List ℕ)
    → put_axi axi k ≡ ok l
    → 0 < length k
    → get_or k axi_chan 0 ≡ off_word
    → AxiWord axi (get_or l axi_chan 0)
unfolding put_axi
put_axi-AxiWord [] k l h n off = stays axi_chan k l h ∙ off
put_axi-AxiWord (c ∷ cs) k l h n off =
    let ((port, chan), e, h0) = >>=-eq-ok (or_raise value_error (split_two (c ∷ cs))) _ h in
    let (sel, found, h1) = >>=-eq-ok (or_raise key_error (get_key chan axi_channels)) _ h0 in
    let channel = get_key-Channel chan sel (or_raise-eq-ok key_error _ sel found) in
    let put = stays axi_chan _ l h1 ∙ same_word axi_chan _ k n in
    (
      port,
      chan,
      sel,
      split_two-join (c ∷ cs) port chan (or_raise-eq-ok value_error _ (port, chan) e),
      channel,
      elim (sel_word port chan sel channel) [
        | inl (p, w) ↦ inl (p, put ∙ w)
        | inr (p, w) ↦ inr (p, put ∙ w)
      ],
    )

attr_of-Attr :
    (role : Name) (ports : List (Name × Name)) (v : ℕ)
    → attr_of role ports ≡ ok v
    → Attr ports role v
unfolding attr_of
attr_of-Attr role ports v h =
    let (port, found, h0) = >>=-eq-ok (or_raise key_error (get_key role ports)) _ h in
    (
      port,
      or_raise-eq-ok key_error (get_key role ports) port found,
      attr_case port v (ok-injective h0),
    )
  where
    attr_case :
        (port : Name) (v : ℕ)
        → (if is_ext port then 2 else 0) ≡ v
        → ((port ≡ codes "ext") × (v ≡ 2)) ⊎ ((port ≢ codes "ext") × (v ≡ 0))
    attr_case port v e = elim (Bool-cases (is_ext port)) [
      | inl p ↦ inl ((same_name_iff port (codes "ext")).0 p, sym (rw p at e))
      | inr p ↦ inr (λ q. cc ((same_name_iff port (codes "ext")).1 q, p), sym (rw p at e))
    ]

regions_sum :
    (w a f : ℕ)
    → (w ≡ 2) ⊎ (w ≡ 0)
    → (a ≡ 2) ⊎ (a ≡ 0)
    → (f ≡ 2) ⊎ (f ≡ 0)
    → bit_or (bit_or (bit_or w (a * 2 ^ 2)) (f * 2 ^ 4)) (0 * 2 ^ 6) ≡ w + 4 * a + 16 * f
regions_sum w a f (inl x) (inl y) (inl z) = rw (x, y, z) refl
regions_sum w a f (inl x) (inl y) (inr z) = rw (x, y, z) refl
regions_sum w a f (inl x) (inr y) (inl z) = rw (x, y, z) refl
regions_sum w a f (inl x) (inr y) (inr z) = rw (x, y, z) refl
regions_sum w a f (inr x) (inl y) (inl z) = rw (x, y, z) refl
regions_sum w a f (inr x) (inl y) (inr z) = rw (x, y, z) refl
regions_sum w a f (inr x) (inr y) (inl z) = rw (x, y, z) refl
regions_sum w a f (inr x) (inr y) (inr z) = rw (x, y, z) refl

two_or_zero :
    (ports : List (Name × Name)) (role : Name) (v : ℕ) → Attr ports role v → (v ≡ 2) ⊎ (v ≡ 0)
two_or_zero ports role v (port, found, inl (p, e)) = inl e
two_or_zero ports role v (port, found, inr (p, e)) = inr e

-- The first seven words of a list that has them, after the writes of the ports.
written_words :
    (regions cmd : ℕ) (k : List ℕ)
    → 7 ≤ length k
    → let l =
        set_at 6 4 (set_at 5 4 (set_at 4 0 (set_at 3 0 (set_at 2 cmd (set_at 1 regions k))))) in
      (get_or l 1 0 ≡ regions)
      × (get_or l 2 0 ≡ cmd)
      × (get_or l 3 0 ≡ 0)
      × (get_or l 4 0 ≡ 0)
      × (get_or l 5 0 ≡ 4)
      × (get_or l 6 0 ≡ 4)
unfolding set_at
written_words regions cmd (a ∷ b ∷ c ∷ d ∷ e ∷ f ∷ g ∷ k) h = (refl, refl, refl, refl, refl, refl)
written_words regions cmd [] h = absurd (omega arith)
written_words regions cmd (a ∷ []) h = absurd (omega arith)
written_words regions cmd (a ∷ b ∷ []) h = absurd (omega arith)
written_words regions cmd (a ∷ b ∷ c ∷ []) h = absurd (omega arith)
written_words regions cmd (a ∷ b ∷ c ∷ d ∷ []) h = absurd (omega arith)
written_words regions cmd (a ∷ b ∷ c ∷ d ∷ e ∷ []) h = absurd (omega arith)
written_words regions cmd (a ∷ b ∷ c ∷ d ∷ e ∷ f ∷ []) h = absurd (omega arith)

pub put_ports-PortWords :
    (ports : List (Name × Name)) (k l : List ℕ)
    → put_ports ports k ≡ ok l
    → 7 ≤ length k
    → ((j : ℕ) → 1 ≤ j → j ≤ 6 → get_or k j 0 ≡ off_word)
    → PortWords ports (λ j. get_or l j 0)
unfolding put_ports
put_ports-PortWords [] k l h n off = λ j a b. stays j k l h ∙ off j a b
put_ports-PortWords (row ∷ rows) k l h n off =
    let ports = row ∷ rows in
    let (weights, e0, h0) = >>=-eq-ok (attr_of (codes "const") ports) _ h in
    let (arena, e1, h1) = >>=-eq-ok (attr_of (codes "arena") ports) _ h0 in
    let (fast, e2, h2) = >>=-eq-ok (attr_of (codes "fast") ports) _ h1 in
    let (cmd, e3, h3) = >>=-eq-ok (attr_of (codes "cmd") ports) _ h2 in
    let a = attr_of-Attr (codes "const") ports weights e0 in
    let b = attr_of-Attr (codes "arena") ports arena e1 in
    let c = attr_of-Attr (codes "fast") ports fast e2 in
    let d = attr_of-Attr (codes "cmd") ports cmd e3 in
    let (w1, w2, w3, w4, w5, w6) = written_words _ cmd k n in
    let sum =
      regions_sum weights arena fast (two_or_zero ports (codes "const") weights a)
        (two_or_zero ports (codes "arena") arena b) (two_or_zero ports (codes "fast") fast c) in
    (
      weights,
      arena,
      fast,
      cmd,
      a,
      b,
      c,
      d,
      stays 1 _ l h3 ∙ w1 ∙ sum,
      stays 2 _ l h3 ∙ w2,
      stays 3 _ l h3 ∙ w3,
      stays 4 _ l h3 ∙ w4,
      stays 5 _ l h3 ∙ w5,
      stays 6 _ l h3 ∙ w6,
    )
