-- ===== src/Regs/Sound.antt =====
-- firmware/common/gen_npu_pmu_regs.py, `extract`: what holds of the geometry that it returns.
use mps4_prototyping_board.Prelude.{
  ℕ, ◌+◌, ◌^◌, ◌≡◌, ◌≢◌, ◌≤◌, ◌<◌, ◌↔◌, ◌⊎◌, inl, inr, refl, sym, subst, subst₂, ap, ◌∙◌, arith,
  List, [], ◌∷◌, true, not, ◌||◌, Bool-cases, leb, ltb, ◌==◌, ==_iff, ltb→lt, get_elem?, Option,
  none, some, some-injective, Name, codes, ok, ok-injective, >>=-eq-ok, or_raise-eq-ok,
  refuse_if-eq-ok, or_raise,
}
use mps4_prototyping_board.Regs.{
  Interface, Field, bitfields, hits, only, one, fields_found, find_all, no_event, no_enum,
  low_width, high_width,
}
use mps4_prototyping_board.Regs.Extract.{
  Place, Gate, Cycles, EventNumbers, Geometry, cycle_bit, find_cycles, cfg_field, find_gate, needed,
  find_events, find_width, is_width, find_bits, event_of, collect, width_of, extract,
}
use mps4_prototyping_board.Regs.Layout.{bitfields_apart, hits-at, only-eq-ok}

-- `_one` on the fields of a 32-bit register gives the shift of the field of the name, where the register
-- has exactly one such field and it is one bit wide. Its test of the shift's range never fails.
pub cycle_bit_iff :
    (h : Interface) (struct_name field_name : Name) (shift : ℕ)
    → (cycle_bit h struct_name field_name ≡ ok shift) ↔ (
        (fields : List Field) × (f : Field) × (bitfields h struct_name 32 ≡ ok fields)
        × (hits field_name fields ≡ f ∷ [])
        × (f.width ≡ 1)
        × (f.shift ≡ shift))
unfolding cycle_bit one
cycle_bit_iff h struct_name field_name shift = (
  λ done.
      let (fields, p, q) = >>=-eq-ok _ (λ fs. one fs field_name struct_name) done in
      let (f, r, s) = >>=-eq-ok (only (fields_found struct_name _) (hits field_name fields)) _ q in
      let (w, t) = refuse_if-eq-ok (not (f.width == 1)) _ _ s in
      let (x, y) = refuse_if-eq-ok (not (leb f.shift 31)) _ _ t in
      (fields, f, p, only-eq-ok _ _ f r, ground (arith, w), ok-injective y),
  λ (fields, f, p, q, w, s).
      let (i, at) = hits-at field_name fields f [] q in
      let below = (bitfields_apart h struct_name 32 fields p).0 i f at in
      let wide : (f.width == 1) ≡ true = (==_iff f.width 1).1 w in
      let low : leb f.shift 31 ≡ true = ground (arith, below) in rw (p, q, wide, low, s) refl,
)

-- What `find_cycles` gives.
pub record CyclesAgree (c : Cycles) : Type 0 where
  pub enable : c.enset ≡ c.enclr
  pub overflow : c.ovsset ≡ c.ovsclr
  pub enable_fits : c.enset < 32
  pub overflow_fits : c.ovsset < 32

cycle_bit_fits :
    (h : Interface) (struct_name field_name : Name) (shift : ℕ)
    → cycle_bit h struct_name field_name ≡ ok shift
    → shift < 32
cycle_bit_fits h struct_name field_name shift done =
    let (fields, f, p, q, w, s) = (cycle_bit_iff h struct_name field_name shift).0 done in
    let (i, at) = hits-at field_name fields f [] q in
    let below = (bitfields_apart h struct_name 32 fields p).0 i f at in omega (arith, below, s)

pub find_cycles-CyclesAgree : (h : Interface) (c : Cycles) → find_cycles h ≡ ok c → CyclesAgree c
unfolding find_cycles
find_cycles-CyclesAgree h c done =
    let (a, p, done1) = >>=-eq-ok (cycle_bit h (codes "pmcntenset_r") (codes "CYCLE_CNT")) _ done in
    let (b, q, done2) =
      >>=-eq-ok (cycle_bit h (codes "pmcntenclr_r") (codes "CYCLE_CNT")) _ done1 in
    let (o, r, done3) =
      >>=-eq-ok (cycle_bit h (codes "pmovsset_r") (codes "CYCLE_CNT_OVF")) _ done2 in
    let (l, s, done4) =
      >>=-eq-ok (cycle_bit h (codes "pmovsclr_r") (codes "CYCLE_CNT_OVF")) _ done3 in
    let (t, done5) = refuse_if-eq-ok (not (a == b)) _ _ done4 in
    let (u, done6) = refuse_if-eq-ok (not (o == l)) _ _ done5 in
    let x = cycle_bit_fits h _ _ a p in
    let y = cycle_bit_fits h _ _ o r in
    subst CyclesAgree {x = record { enset = a; enclr = b; ovsset = o; ovsclr = l }}
      (ok-injective done6)
      (record {
        enable = ground (arith, t);
        overflow = ground (arith, u);
        enable_fits = x;
        overflow_fits = y;
      })

-- The two event fields of PMCCNTR_CFG lie in the register and share no bit.
pub record GateFits (g : Gate) : Type 0 where
  pub start_width : g.start.width ≡ 10
  pub stop_width : g.stop.width ≡ 10
  pub start_fits : g.start.pos + 10 ≤ 32
  pub stop_fits : g.stop.pos + 10 ≤ 32
  pub apart : (g.start.pos + 10 ≤ g.stop.pos) ⊎ (g.stop.pos + 10 ≤ g.start.pos)

-- A field of the register that `cfg_field` takes.
cfg_field-at :
    (fields : List Field) (want : Name) (place : Place)
    → cfg_field fields want ≡ ok place
    → (i : ℕ) × (f : Field) × (get_elem? fields i ≡ some f)
      × (f.shift ≡ place.pos)
      × (place.width ≡ 10)
      × (f.width ≡ 10)
      × (place.pos + 10 ≤ 32)
unfolding cfg_field
cfg_field-at fields want place done =
    let (f, r, s) = >>=-eq-ok (only (fields_found want _) (hits want fields)) _ done in
    let (i, at) = hits-at want fields f [] (only-eq-ok _ _ f r) in
    let (w, t) =
      refuse_if-eq-ok (not (f.width == 10) || (not (leb f.shift 31) || ltb 32 (f.shift + f.width)))
        _ _ s in
    let same : record { pos = f.shift; width = f.width } ≡ place = ok-injective t in
    let p : f.shift ≡ place.pos = ap (λ (x : Place). x.pos) same in
    let q : f.width ≡ place.width = ap (λ (x : Place). x.width) same in
    (i, f, at, p, ground (arith, w, q), ground (arith, w), ground (arith, w, p))

-- Two fields of width ten that start at different bits.
two_places :
    (fields : List Field) (i j : ℕ) (f k : Field)
    → ((i j : ℕ) (f g : Field)
        → get_elem? fields i ≡ some f
        → get_elem? fields j ≡ some g
        → i < j
        → f.shift + f.width ≤ g.shift)
    → get_elem? fields i ≡ some f
    → get_elem? fields j ≡ some k
    → f.width ≡ 10
    → k.width ≡ 10
    → f.shift ≢ k.shift
    → (f.shift + 10 ≤ k.shift) ⊎ (k.shift + 10 ≤ f.shift)
two_places fields i j f k apart at bt fw kw ne = elim (Bool-cases (ltb i j)) [
  | inl e ↦ inl (omega (arith, apart i j f k at bt (ltb→lt i j e)))
  | inr e ↦ elim (Bool-cases (ltb j i)) [
    | inl d ↦ inr (omega (arith, apart j i k f bt at (ltb→lt j i d)))
    | inr d ↦
        let same : i ≡ j = ground (arith, e, d) in
        absurd (
          ne (
            ap (λ (x : Field). x.shift)
              (some-injective (sym (subst (λ n. get_elem? fields n ≡ some f) same at) ∙ bt))))
  ]
]

pub find_gate-GateFits : (h : Interface) (g : Gate) → find_gate h ≡ ok g → GateFits g
unfolding find_gate
find_gate-GateFits h g done =
    let (fields, p, done1) = >>=-eq-ok _ _ done in
    let (start, q, done2) = >>=-eq-ok _ _ done1 in
    let (stop, r, done3) = >>=-eq-ok _ _ done2 in
    let (t, done4) = refuse_if-eq-ok (start.pos == stop.pos) _ _ done3 in
    let (i, f, at, fp, fw, fw', ff) = cfg_field-at fields _ start q in
    let (j, k, bt, kp, kw, kw', kf) = cfg_field-at fields _ stop r in
    let apart = (bitfields_apart h _ 32 fields p).1 in
    subst GateFits {x = record { start = start; stop = stop }} (ok-injective done4) (record {
      start_width = fw;
      stop_width = kw;
      start_fits = ff;
      stop_fits = kf;
      apart =
          subst₂ (λ x y. (x + 10 ≤ y) ⊎ (y + 10 ≤ x)) fp kp
            (two_places fields i j f k apart at bt fw' kw'
              (λ same. ground (arith, t, fp, kp, same)));
    })

needed_fits :
    (events : List (Name × ℕ)) (width : ℕ) (need : Name) (v : ℕ)
    → needed events width need ≡ ok v
    → v < 2 ^ width
unfolding needed
needed_fits events width need v done =
    let (w, p, q) = >>=-eq-ok (or_raise (no_event need) (event_of need events)) _ done in
    let (t, u) = refuse_if-eq-ok (not (ltb w (2 ^ width))) _ _ q in
    let same : w ≡ v = ok-injective u in subst (λ x. x < 2 ^ width) same (ground (arith, t))

find_events-fit :
    (h : Interface) (width : ℕ) (n : EventNumbers)
    → find_events h width ≡ ok n
    → (n.cycle < 2 ^ width) × (n.no_event_value < 2 ^ width)
unfolding find_events
find_events-fit h width n done =
    let (members, p, done1) = >>=-eq-ok (or_raise no_enum h.pmu_event) _ done in
    let (events, q, done2) = >>=-eq-ok (collect [] members) _ done1 in
    let (c, r, done3) = >>=-eq-ok (needed events width (codes "CYCLE")) _ done2 in
    let (z, s, done4) = >>=-eq-ok (needed events width (codes "NO_EVENT")) _ done3 in
    let same : record { cycle = c; no_event_value = z } ≡ n = ok-injective done4 in
    subst (λ (x : EventNumbers). (x.cycle < 2 ^ width) × (x.no_event_value < 2 ^ width)) same
      (needed_fits events width _ c r, needed_fits events width _ z s)

is_width-eq : (n : ℕ) (o : Option ℕ) (w : ℕ) → is_width n o ≡ true → o ≡ some w → w ≡ n
is_width-eq n none w h e = cc e
is_width-eq n (some v) w h e = (sym (some-injective e) ∙ (==_iff v n).0 h)

find_width-eq : (h : Interface) (w : ℕ) → find_width h ≡ ok w → w ≡ 48
unfolding find_width
find_width-eq h w done =
    let (fields, p, done1) = >>=-eq-ok (bitfields h (codes "pmccntr_r") 64) _ done in
    let low = width_of (codes "CYCLE_CNT_LO") fields in
    let high = width_of (codes "CYCLE_CNT_HI") fields in
    let (t, done2) = refuse_if-eq-ok (not (is_width 32 low)) _ _ done1 in
    let (u, done3) = refuse_if-eq-ok (not (is_width 16 high)) _ _ done2 in
    let (lo, q, done4) = >>=-eq-ok (or_raise (low_width none) low) _ done3 in
    let (hi, r, done5) = >>=-eq-ok (or_raise (high_width none) high) _ done4 in
    let a = is_width-eq 32 low lo (ground (arith, t)) (or_raise-eq-ok (low_width none) low lo q) in
    let b =
      is_width-eq 16 high hi (ground (arith, u)) (or_raise-eq-ok (high_width none) high hi r) in
    let same : lo + hi ≡ w = ok-injective done5 in omega arith

-- A geometry that the firmware can use.
pub record IsUsable (g : Geometry) : Type 0 where
  pub cycles : CyclesAgree g.cyc
  pub gate : GateFits g.gate
  pub cycle_fits : g.numbers.cycle < 1024
  pub no_event_fits : g.numbers.no_event_value < 1024
  pub width : g.cycle_width ≡ 48

-- Every geometry that `extract` returns, whatever the vendor's header, is usable: each pair of cycle bits
-- agrees and is below bit 32, the START and STOP fields are ten bits wide, lie in the register and share no
-- bit, both event numbers fit ten bits, and the counter is 48 bits wide.
pub extract-IsUsable : (h : Interface) (g : Geometry) → extract h ≡ ok g → IsUsable g
unfolding extract
extract-IsUsable h g done =
    let (found, p, done1) = >>=-eq-ok (find_all h) _ done in
    let (bits, q, done2) = >>=-eq-ok (find_bits h) _ done1 in
    let (cyc, r, done3) = >>=-eq-ok (find_cycles h) _ done2 in
    let (gate, s, done4) = >>=-eq-ok (find_gate h) _ done3 in
    let (n, t, done5) = >>=-eq-ok (find_events h gate.start.width) _ done4 in
    let (w, u, done6) = >>=-eq-ok (find_width h) _ done5 in
    let fits = find_gate-GateFits h gate s in
    let small = find_events-fit h gate.start.width n t in
    let wide : 2 ^ gate.start.width ≡ 1024 = ap (λ (k : ℕ). 2 ^ k) fits.start_width in
    subst IsUsable
      {x = record {
        found = found;
        bits = bits;
        cycle_width = w;
        cyc = cyc;
        gate = gate;
        numbers = n;
      }}
      (ok-injective done6)
      (record {
        cycles = find_cycles-CyclesAgree h cyc r;
        gate = fits;
        cycle_fits = omega (arith, small, wide);
        no_event_fits = omega (arith, small, wide);
        width = find_width-eq h w u;
      })
