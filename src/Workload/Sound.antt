-- ===== src/Workload/Sound.antt =====
-- host/container/pack_vela_workload.py, `extract_cms`: what it returns.
use mps4_prototyping_board.Prelude.{
  ℕ, zero, suc, ◌+◌, ◌*◌, ◌%◌, ◌≡◌, inl, inr, refl, sym, subst, arith, List, true, not, Option,
  none, some, length, take, drop, get_elem?, ◌==◌, ==_iff, Result, ok, refuse_if-eq-ok, Bool-cases,
  codes, ok-injective,
}
use mps4_prototyping_board.Bytes.{Bytes, words, starts_with}
use mps4_prototyping_board.Workload.{
  CopError, not_cop1, struct_failed, action_of, stream_words, Move, next, stop, take_stream, act,
  walk, extract_cms, da_optimizer_config, da_command_stream, da_nop,
}
use mps4_prototyping_board.Workload.Walk.{Move-cases}

-- From word `i` on, the payload `ws` is a list of whole actions up to its end or past it: an
-- OPTIMIZER_CONFIG of three words, a NOP of one, and a COMMAND_STREAM of one word and those that it
-- counts. The last argument is the place of the COMMAND_STREAM, of which there is one at most.
pub data Actions (ws : List ℕ) : ℕ → Option ℕ → Type 0 where
  at_end : {i : ℕ} → get_elem? ws i ≡ none → Actions ws i none
  config :
      {i : ℕ} {o : Option ℕ} (w : ℕ)
      → get_elem? ws i ≡ some w
      → action_of w ≡ 1
      → Actions ws (i + 3) o
      → Actions ws i o
  stream :
      {i : ℕ} (w : ℕ)
      → get_elem? ws i ≡ some w
      → action_of w ≡ 2
      → Actions ws (i + 1 + stream_words w) none
      → Actions ws i (some i)
  no_op :
      {i : ℕ} {o : Option ℕ} (w : ℕ)
      → get_elem? ws i ≡ some w
      → action_of w ≡ 5
      → Actions ws (i + 1) o
      → Actions ws i o

-- The payload is a list of actions from word 1 on, with one COMMAND_STREAM, and these are the bytes
-- behind it that it counts, as far as the payload goes.
pub record IsStream (cop cms : Bytes) : Type 0 where
  pub at : ℕ
  pub word : ℕ
  pub actions : Actions (words cop) 1 (some at)
  pub in_payload : get_elem? (words cop) at ≡ some word
  pub its_bytes : cms ≡ take (stream_words word * 4) (drop ((at + 1) * 4) cop)

-- The bytes behind a COMMAND_STREAM at `at`.
abbrev Behind : Bytes → Bytes → ℕ → Type 0
Behind cop out at =
    (w : ℕ) × (get_elem? (words cop) at ≡ some w)
    × (out ≡ take (stream_words w * 4) (drop ((at + 1) * 4) cop))

-- What the rest of the walk shows: the stream was found before, or is still to come.
abbrev Ends : Bytes → ℕ → Option Bytes → Bytes → Type 0
Ends cop i none out = (at : ℕ) × Actions (words cop) i (some at) × Behind cop out at
Ends cop i (some cms) out = Actions (words cop) i none × (out ≡ cms)

-- What a round makes of what the rest of the walk shows.
abbrev Leads : Bytes → ℕ → Option Bytes → Bytes → Move → Type 0
Leads cop i cms out (stop r) = r ≡ ok out → Ends cop i cms out
Leads cop i cms out (next j found) = Ends cop j found out → Ends cop i cms out

config-Ends :
    (cop : Bytes) (i w : ℕ) (cms : Option Bytes) (out : Bytes)
    → get_elem? (words cop) i ≡ some w
    → action_of w ≡ 1
    → Ends cop (i + 3) cms out
    → Ends cop i cms out
config-Ends cop i w none out e a (at, actions, behind) = (at, config w e a actions, behind)
config-Ends cop i w (some c) out e a (actions, same) = (config w e a actions, same)

no_op-Ends :
    (cop : Bytes) (i w : ℕ) (cms : Option Bytes) (out : Bytes)
    → get_elem? (words cop) i ≡ some w
    → action_of w ≡ 5
    → Ends cop (i + 1) cms out
    → Ends cop i cms out
no_op-Ends cop i w none out e a (at, actions, behind) = (at, no_op w e a actions, behind)
no_op-Ends cop i w (some c) out e a (actions, same) = (no_op w e a actions, same)

take_stream-Leads :
    (cop : Bytes) (i w : ℕ) (cms : Option Bytes) (out : Bytes)
    → get_elem? (words cop) i ≡ some w
    → action_of w ≡ 2
    → Leads cop i cms out (take_stream cop i w cms)
take_stream-Leads cop i w none out e a = λ (actions, same). (i, stream w e a actions, (w, e, same))
take_stream-Leads cop i w (some c) out e a = λ h. cc h

act-Leads :
    (cop : Bytes) (i : ℕ) (o : Option ℕ) (cms : Option Bytes) (out : Bytes)
    → get_elem? (words cop) i ≡ o
    → Leads cop i cms out (act cop i o cms)
unfolding act
act-Leads cop i none none out e = λ h. cc h
act-Leads cop i none (some c) out e = λ h. (at_end e, sym (ok-injective h))
act-Leads cop i (some w) cms out e = elim (Bool-cases (action_of w == da_optimizer_config)) [
  | inl p ↦ rw p (config-Ends cop i w cms out e ((==_iff (action_of w) da_optimizer_config).0 p))
  | inr p ↦ elim (Bool-cases (action_of w == da_command_stream)) [
    | inl q ↦
        rw (p, q)
          (take_stream-Leads cop i w cms out e ((==_iff (action_of w) da_command_stream).0 q))
    | inr q ↦ elim (Bool-cases (action_of w == da_nop)) [
      | inl r ↦ rw (p, q, r) (no_op-Ends cop i w cms out e ((==_iff (action_of w) da_nop).0 r))
      | inr r ↦ rw (p, q, r) (λ h. cc h)
    ]
  ]
]

walk-Ends :
    (fuel : ℕ) (cop : Bytes) (i : ℕ) (cms : Option Bytes) (out : Bytes)
    → walk fuel cop i cms ≡ ok out
    → Ends cop i cms out
unfolding walk
walk-Ends zero cop i cms out h = cc h
walk-Ends (suc fuel) cop i cms out h =
    let leads = act-Leads cop i (get_elem? (words cop) i) cms out refl in
    elim (Move-cases (act cop i (get_elem? (words cop) i) cms)) [
      | inl (r, e) ↦ subst (Leads cop i cms out) e leads (subst (λ m. after m ≡ ok out) e h)
      | inr (j, found, e) ↦
          subst (Leads cop i cms out) e leads
            (walk-Ends fuel cop j found out (subst (λ m. after m ≡ ok out) e h))
    ]
  where
    after : Move → Result CopError Bytes
    after (stop r) = r
    after (next j found) = walk fuel cop j found

pub extract_cms-IsStream :
    (cop cms : Bytes)
    → extract_cms cop ≡ ok cms
    → (starts_with (codes "COP1") cop ≡ true) × (length cop % 4 ≡ 0) × IsStream cop cms
unfolding extract_cms
extract_cms-IsStream cop cms h =
    let (magic, h0) = refuse_if-eq-ok (not (starts_with (codes "COP1") cop)) not_cop1 _ h in
    let (whole, h1) = refuse_if-eq-ok (not (length cop % 4 == 0)) struct_failed _ h0 in
    let (at, actions, (w, e, same)) = walk-Ends (suc (length (words cop))) cop 1 none cms h1 in
    (
      ground (arith, magic),
      ground (arith, whole),
      record { at = at; word = w; actions = actions; in_payload = e; its_bytes = same },
    )
