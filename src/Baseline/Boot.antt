-- ===== src/Baseline/Boot.antt =====
-- host/analysis/baseline_gate.py, `boot_checks` and `gate`. The keys of summary.json are given decoded:
-- the text `0x...` of a knob word is the word.
use mps4_prototyping_board.Prelude.{
  ℕ, List, [], ◌∷◌, Bool, true, false, not, ◌&&◌, ◌||◌, Option, none, some, ◌==◌, if◌then◌else◌,
  length, Result, ok, err, ◌>>=◌, Name, codes, same_name,
}
use mps4_prototyping_board.Bytes.{starts_with}
use mps4_prototyping_board.Events.{all_of}
use mps4_prototyping_board.Pmwl.Knobs.{KnobError, Wanted, knobs, get_key}
use mps4_prototyping_board.Baseline.{CsvRow, RunRow, RunCheck, load_runs, failing}

-- What the gate reads of summary.json, of the profile and of the manifest; a negative number of runs, which no
-- profile asks for, counts as a missing one.
pub record Summary : Type 0 where
  pub provenance : List (Name × Name)
  pub blob_sha256 : Option Name
  pub cms_sha256 : Option Name
  pub ifm_sha256 : Option Name
  pub golden_sha256 : Option Name
  pub blob_knobs : Option (List ℕ)
  pub requested_ids : Option (List ℕ)
  pub coverage : Name
  pub refused : Bool
  pub runs : Option ℕ

pub record Profile : Type 0 where
  pub image : List (Name × Name)
  pub knob_args : Wanted
  pub repeats : ℕ

pub record Manifest : Type 0 where
  pub blob_sha256 : Name
  pub cms_sha256 : Name
  pub golden : Option (Name × Name)

pub data BootCheck : Type 0 where
  b1_image b2_blob b3_set : BootCheck

-- `x == value` for a value that may be None.
abbrev pub is_name : Name → Option Name → Bool
is_name n none = false
is_name n (some m) = same_name m n

unfoldable pub same_numbers : List ℕ → List ℕ → Bool
same_numbers [] [] = true
same_numbers [] (b ∷ bs) = false
same_numbers (a ∷ rest) [] = false
same_numbers (a ∷ rest) (b ∷ bs) = a == b && same_numbers rest bs

abbrev pub is_numbers : List ℕ → Option (List ℕ) → Bool
is_numbers ns none = false
is_numbers ns (some ms) = same_numbers ms ns

abbrev pub is_number : ℕ → Option ℕ → Bool
is_number n none = false
is_number n (some m) = m == n

-- `boot_checks`; the error is the one of `knobs` on the profile.
unfoldable pub boot_checks :
    Summary → Profile → Manifest → List ℕ → Result KnobError (List BootCheck)
unfolding knobs failing same_numbers get_key all_of
boot_checks summ prof man ids = do
  want_knobs ← knobs prof.knob_args
  ok (
      failing (
        (
          b1_image,
          all_of (λ (kv : Name × Name). is_name kv.1 (get_key kv.0 summ.provenance)) prof.image,
        )
        ∷ (
          b2_blob,
          is_name man.blob_sha256 summ.blob_sha256
              && (is_name man.cms_sha256 summ.cms_sha256 && is_numbers want_knobs summ.blob_knobs),
        )
        ∷ (
          b3_set,
          is_numbers ids summ.requested_ids
              && (starts_with (codes "COMPLETE") summ.coverage
                  && (not summ.refused && is_number prof.repeats summ.runs)),
        )
        ∷ []))

pub data Verdict : Type 0 where
  unproven invalid : Verdict
  judged : Bool → List BootCheck → List (ℕ × List RunCheck) → ℕ → Verdict

-- `if (f := checks(r))`
abbrev pub keep_failed : ℕ → List RunCheck → List (ℕ × List RunCheck) → List (ℕ × List RunCheck)
keep_failed rep [] rest = rest
keep_failed rep (k ∷ ks) rest = (rep, k ∷ ks) ∷ rest

-- `failed_runs`: the runs with a failed check.
unfoldable pub failed_runs : (RunRow → List RunCheck) → List RunRow → List (ℕ × List RunCheck)
failed_runs checks [] = []
failed_runs checks (r ∷ runs) = keep_failed r.rep (checks r) (failed_runs checks runs)

abbrev pub is_nil {ℓ} : {A : Type ℓ} → List A → Bool
is_nil [] = true
is_nil (x ∷ xs) = false

-- `gold and (...)`: the blob's data is not the manifest's.
abbrev pub other_golden : Summary → Option (Name × Name) → Bool
other_golden summ none = false
other_golden summ (some (input, ofm)) =
    not (is_name input summ.ifm_sha256) || not (is_name ofm summ.golden_sha256)

-- `gate`: the files of the workload are `none` where one of them is missing.
unfoldable pub gate :
    Option (Summary × List CsvRow)
    → Profile
    → Manifest
    → List ℕ
    → (RunRow → List RunCheck)
    → Result KnobError Verdict
unfolding load_runs boot_checks failed_runs
gate none prof man ids checks = ok unproven
gate (some (summ, rows)) prof man ids checks =
    if other_golden summ man.golden
    then ok invalid
    else (boot_checks summ prof man ids >>= λ failed_boot.
        let runs = load_runs rows in
        let failed = failed_runs checks runs in
        ok (
          judged (is_nil failed_boot && (is_nil failed && length runs == prof.repeats)) failed_boot
            failed (length runs)))

-- `g["gate"] == "BASELINE_PASS"`
abbrev pub is_pass : Verdict → Bool
is_pass unproven = false
is_pass invalid = false
is_pass (judged pass boot failed runs) = pass

-- The gate gave a verdict, and it is BASELINE_PASS.
abbrev pub passed : Result KnobError Verdict → Bool
passed (err e) = false
passed (ok g) = is_pass g
