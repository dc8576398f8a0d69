-- ===== src/Campaign/Loop.antt =====
-- host/board/run_pmu_events.py: `prime`, and the loop of `main` over the sets and the repeats.
use mps4_prototyping_board.Prelude.{
  ℕ, zero, suc, ◌+◌, List, [], ◌∷◌, ◌++◌, Bool, true, false, not, ◌&&◌, ◌||◌, none, some, length,
  take, drop, get_or, ◌==◌, if◌then◌else◌, Result, ok, err, Name, codes,
}
use mps4_prototyping_board.Bytes.{Bytes, crc32, find}
use mps4_prototyping_board.Link.{
  Link, LinkError, nack, struct_error, index_error, out_of_fuel, M, pure, ◌>>◌, run_measured,
}
use mps4_prototyping_board.Link.Commands.{
  ping, load_model_begin, load_model_chunk, load_model_end, load_input, reset_runner,
  set_instrumentation_mode,
}
use mps4_prototyping_board.Events.{instrumentation_events}
use mps4_prototyping_board.Campaign.{
  Stop, rule_ping, rule_capability, rule_mode_nack, rule_run_transport, uncaught, SweepRow, Sweep,
  judge_record,
}

abbrev pub chunk_size : ℕ
chunk_size = 4092

-- The chunks of the blob from an offset on; each takes bytes, so that their number is fuel enough.
unfoldable pub load_chunks : ℕ → ℕ → Bytes → M (Unit {0})
load_chunks fuel off [] = pure tt
load_chunks zero off (b ∷ bs) = pure tt
load_chunks (suc fuel) off (b ∷ bs) = do
  load_model_chunk off (take chunk_size (b ∷ bs))
  load_chunks fuel (off + chunk_size) (drop chunk_size (b ∷ bs))

unfoldable pub prime : Sweep → M (Unit {0})
unfolding load_chunks
prime s = do
  load_model_begin (length s.blob) (crc32 s.blob)
  load_chunks (length s.blob) 0 s.blob
  load_model_end s.end_timeout
  load_input []
  pure tt

-- The link, and the rows so far, which a refusal keeps.
pub record Camp : Type 0 where
  pub link : Link
  pub rows : List SweepRow

abbrev pub C : Type 0 → Type 0
C A = Camp → Result Stop A × Camp

abbrev pub give : {A : Type 0} → Result Stop A → C A
give r c = (r, c)

abbrev pub go_on : {A B : Type 0} → Result Stop A → (A → C B) → C B
go_on (ok a) f c = f a c
go_on (err e) f c = (err e, c)

abbrev pub ◌►◌ : {A B : Type 0} → C A → (A → C B) → C B
◌►◌ first rest c = go_on (first c).0 rest (first c).1

infixl 5 ◌►◌
-- The errors of a call of the link, as its `except` clauses turn them.
abbrev pub turned : {A : Type 0} → (LinkError → Stop) → Result LinkError A → Result Stop A
turned caught (ok a) = ok a
turned caught (err e) = err (caught e)

abbrev pub calling : {A : Type 0} → (LinkError → Stop) → M A → C A
calling caught m c = (turned caught (m c.link).0, record c { link = (m c.link).1 })

-- `except (Nack, ProtocolError)`
abbrev pub transport : LinkError → Stop
transport struct_error = uncaught struct_error
transport index_error = uncaught index_error
transport out_of_fuel = uncaught out_of_fuel
transport e = rule_run_transport

abbrev pub error_names : List (ℕ × Name)
error_names =
    (1, codes "BAD_VERSION")
    ∷ (2, codes "BAD_COMMAND")
    ∷ (3, codes "LENGTH")
    ∷ (4, codes "BAD_CRC")
    ∷ (5, codes "STATE")
    ∷ (6, codes "RANGE")
    ∷ (7, codes "CHUNK_MISMATCH")
    ∷ (8, codes "MODEL_CRC")
    ∷ (9, codes "PAYLOAD_FORMAT")
    ∷ []

abbrev pub state_names : List (ℕ × Name)
state_names =
    (0, codes "BOOT")
    ∷ (1, codes "IDLE")
    ∷ (2, codes "MODEL_LOADING")
    ∷ (3, codes "MODEL_READY")
    ∷ (4, codes "INPUT_READY")
    ∷ (5, codes "RUNNING")
    ∷ (6, codes "RESULT_READY")
    ∷ []

-- Whether the name of a code has the word in it; a code without a name is written in digits, which have
-- no letter.
unfoldable pub mentions : Name → ℕ → List (ℕ × Name) → Bool
unfolding find
mentions word code [] = false
mentions word code ((c, name) ∷ names) =
    let rest = mentions word code names in
    if c == code then elim (find word name) [ none ↦ false | some at ↦ true ] else rest

-- `"UNSUPPORTED" in repr(n)`, by the parts of the text `NACK %s (cmd 0x%02X, state %s)`: between them stand
-- blanks and brackets, which the word has not.
unfoldable pub is_unsupported : ℕ → ℕ → Bool
unfolding mentions
is_unsupported code state =
    mentions (codes "UNSUPPORTED") code error_names
    || mentions (codes "UNSUPPORTED") state state_names

-- `except Nack`
unfoldable pub mode_stop : ℕ → LinkError → Stop
unfolding is_unsupported
mode_stop set_id (nack code orig state) =
    if set_id == 1 && is_unsupported code state then rule_capability else rule_mode_nack
mode_stop set_id e = uncaught e

abbrev pub keep_rows : List SweepRow → C (Unit {0})
keep_rows rows c = (ok tt, record c { rows = c.rows ++ rows })

-- One repeat: `link.run`, and what is made of its record.
unfoldable pub run_rep : Sweep → ℕ → ℕ → List ℕ → C (Unit {0})
unfolding judge_record
run_rep s set_id rep codes = calling transport (run_measured 120000) ► λ rc.
    (λ c. give (judge_record s set_id rep codes rc c.link.last_measurement) c) ► keep_rows

-- `for rep in range(1, E.REPEATS + 1)`: `count` repeats from `rep` on.
unfoldable pub run_reps : Sweep → ℕ → List ℕ → ℕ → ℕ → C (Unit {0})
unfolding run_rep
run_reps s set_id codes rep zero = give (ok tt)
run_reps s set_id codes rep (suc count) =
    run_rep s set_id rep codes ► λ u. run_reps s set_id codes (suc rep) count

-- `if test: raise fail_rule(...)`
abbrev pub refuse : Bool → Stop → C (Unit {0})
refuse true e = give (err e)
refuse false e = give (ok tt)

abbrev pub where_needed : Bool → C (Unit {0}) → C (Unit {0})
where_needed true act = act
where_needed false act = give (ok tt)

-- One set; `fresh` is `first or not a.keep_model`.
unfoldable pub run_set : Sweep → Bool → ℕ → List ℕ → C (Unit {0})
unfolding run_reps mode_stop prime
run_set s fresh set_id codes = where_needed fresh (calling (mode_stop set_id) reset_runner) ► λ u.
    calling (mode_stop set_id) (set_instrumentation_mode instrumentation_events codes set_id)
    ► λ ws.
        refuse
          (not (get_or ws 1 0 == instrumentation_events) || not (get_or ws 2 0 == length codes))
          rule_mode_nack
        ► λ u. where_needed fresh (calling transport (prime s)) ► λ u.
            run_reps s set_id codes 1 s.repeats

unfoldable pub run_sets : Sweep → Bool → List (ℕ × List ℕ) → C (Unit {0})
unfolding run_set
run_sets s first [] = give (ok tt)
run_sets s first ((set_id, codes) ∷ sets) =
    run_set s (first || not s.keep_model) set_id codes ► λ u. run_sets s false sets

unfoldable pub any_count : List ℕ → Bool
any_count [] = false
any_count (n ∷ counts) = not (n == 0) || any_count counts

-- The `try` of `main`: PING, the seven error counters behind the two of the traffic, and the sets.
unfoldable pub sweep : Sweep → List (ℕ × List ℕ) → C (Unit {0})
unfolding run_sets any_count
sweep s sets = calling (λ e. uncaught e) ping ► λ c. refuse (not (c.state == 1)) rule_ping ► λ u.
    refuse (any_count (drop 2 c.counts)) rule_ping ► λ u. run_sets s true sets
