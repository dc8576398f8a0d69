-- ===== src/Baseline/Boots.antt =====
-- host/analysis/baseline_gate.py, `boot_checks`: when none of them fails.
use mps4_prototyping_board.Prelude.{
  ℕ, ◌≡◌, refl, ap, arith, List, [], ◌∷◌, Bool, true, false, not, ◌&&◌, Option, none, some,
  some-injective, ==_iff, All, ◌↔◌, ok, ok-injective, >>=-eq-ok, and_true, Name, codes,
  same_name_iff,
}
use mps4_prototyping_board.Bytes.{starts_with}
use mps4_prototyping_board.Events.{all_of}
use mps4_prototyping_board.Pmwl.Knobs.{knobs, get_key}
use mps4_prototyping_board.Baseline.{failing}
use mps4_prototyping_board.Baseline.Checks.{failing_iff}
use mps4_prototyping_board.Baseline.Boot.{
  b1_image, b2_blob, b3_set, Summary, Profile, Manifest, is_name, is_number, is_numbers,
  same_numbers, boot_checks,
}

-- What the profile, the manifest and the requested ids ask of summary.json: every entry of the image in the
-- provenance; the blob, its command stream and the knob words that the profile's arguments give; the ids, a
-- complete coverage, no refusal, and as many runs as the profile has repeats.
abbrev pub Boots : Summary → Profile → Manifest → List ℕ → Type 0
Boots summ prof man ids =
    All (λ kv. get_key kv.0 summ.provenance ≡ some kv.1) prof.image
    × (summ.blob_sha256 ≡ some man.blob_sha256)
    × (summ.cms_sha256 ≡ some man.cms_sha256)
    × ((want : List ℕ) × (knobs prof.knob_args ≡ ok want) × (summ.blob_knobs ≡ some want))
    × (summ.requested_ids ≡ some ids)
    × (starts_with (codes "COMPLETE") summ.coverage ≡ true)
    × (summ.refused ≡ false)
    × (summ.runs ≡ some prof.repeats)

pub is_name_iff : (n : Name) (o : Option Name) → (is_name n o ≡ true) ↔ (o ≡ some n)
is_name_iff n none = (λ h. cc h, λ h. cc h)
is_name_iff n (some m) =
    (λ h. ap some ((same_name_iff m n).0 h), λ h. (same_name_iff m n).1 (some-injective h))

is_number_iff : (n : ℕ) (o : Option ℕ) → (is_number n o ≡ true) ↔ (o ≡ some n)
is_number_iff n none = (λ h. cc h, λ h. cc h)
is_number_iff n (some m) = (λ h. ap some ((==_iff m n).0 h), λ h. (==_iff m n).1 (some-injective h))

same_numbers_iff : (ms ns : List ℕ) → (same_numbers ms ns ≡ true) ↔ (ms ≡ ns)
unfolding same_numbers
same_numbers_iff [] [] = (λ h. refl, λ h. refl)
same_numbers_iff [] (n ∷ ns) = (λ h. cc h, λ h. cc h)
same_numbers_iff (m ∷ ms) [] = (λ h. cc h, λ h. cc h)
same_numbers_iff (m ∷ ms) (n ∷ ns) = ground (arith, same_numbers_iff ms ns)

is_numbers_iff : (ns : List ℕ) (o : Option (List ℕ)) → (is_numbers ns o ≡ true) ↔ (o ≡ some ns)
is_numbers_iff ns none = (λ h. cc h, λ h. cc h)
is_numbers_iff ns (some ms) = (
  λ h. ap some ((same_numbers_iff ms ns).0 h),
  λ h. (same_numbers_iff ms ns).1 (some-injective h),
)

image_iff :
    (image provenance : List (Name × Name))
    → (all_of (λ (kv : Name × Name). is_name kv.1 (get_key kv.0 provenance)) image ≡ true)
      ↔ All (λ kv. get_key kv.0 provenance ≡ some kv.1) image
unfolding all_of
image_iff [] provenance = (λ h. tt, λ h. refl)
image_iff (kv ∷ image) provenance =
    let first = is_name_iff kv.1 (get_key kv.0 provenance) in
    let rest = image_iff image provenance in
    (
      λ h. let (a, b) = and_true _ _ h in (first.0 a, rest.0 b),
      λ (a, b). ground (arith, first.1 a, rest.1 b),
    )

failing_three :
    (a b c : Bool)
    → (failing ((b1_image, a) ∷ (b2_blob, b) ∷ (b3_set, c) ∷ []) ≡ [])
      ↔ ((a ≡ true) × (b ≡ true) × (c ≡ true))
failing_three a b c =
    let all = failing_iff ((b1_image, a) ∷ (b2_blob, b) ∷ (b3_set, c) ∷ []) in
    (λ h. let (p, (q, (r, u))) = all.0 h in (p, q, r), λ (p, q, r). all.1 (p, (q, (r, tt))))

blob_iff :
    (summ : Summary) (man : Manifest) (want : List ℕ)
    → ((is_name man.blob_sha256 summ.blob_sha256
          && (is_name man.cms_sha256 summ.cms_sha256 && is_numbers want summ.blob_knobs))
        ≡ true)
      ↔ ((summ.blob_sha256 ≡ some man.blob_sha256)
          × (summ.cms_sha256 ≡ some man.cms_sha256)
          × (summ.blob_knobs ≡ some want))
blob_iff summ man want = ground (
  arith,
  is_name_iff man.blob_sha256 summ.blob_sha256,
  is_name_iff man.cms_sha256 summ.cms_sha256,
  is_numbers_iff want summ.blob_knobs,
)

set_iff :
    (summ : Summary) (prof : Profile) (ids : List ℕ)
    → ((is_numbers ids summ.requested_ids
          && (starts_with (codes "COMPLETE") summ.coverage
              && (not summ.refused && is_number prof.repeats summ.runs)))
        ≡ true)
      ↔ ((summ.requested_ids ≡ some ids)
          × (starts_with (codes "COMPLETE") summ.coverage ≡ true)
          × (summ.refused ≡ false)
          × (summ.runs ≡ some prof.repeats))
set_iff summ prof ids =
    ground (arith, is_numbers_iff ids summ.requested_ids, is_number_iff prof.repeats summ.runs)

-- No boot check fails exactly where summary.json is as asked.
pub boot_checks_iff :
    (summ : Summary) (prof : Profile) (man : Manifest) (ids : List ℕ)
    → (boot_checks summ prof man ids ≡ ok []) ↔ Boots summ prof man ids
unfolding boot_checks
boot_checks_iff summ prof man ids =
    let b1 : Bool =
      all_of (λ (kv : Name × Name). is_name kv.1 (get_key kv.0 summ.provenance)) prof.image in
    let b2 : List ℕ → Bool = λ want.
      is_name man.blob_sha256 summ.blob_sha256
      && (is_name man.cms_sha256 summ.cms_sha256 && is_numbers want summ.blob_knobs) in
    let b3 : Bool =
      is_numbers ids summ.requested_ids
      && (starts_with (codes "COMPLETE") summ.coverage
          && (not summ.refused && is_number prof.repeats summ.runs)) in
    let image = image_iff prof.image summ.provenance in
    let set = set_iff summ prof ids in
    (
      λ h.
          let (want, k, h0) = >>=-eq-ok (knobs prof.knob_args) _ h in
          let (p, q, r) = (failing_three b1 (b2 want) b3).0 (ok-injective h0) in
          let (blob, cms, words) = (blob_iff summ man want).0 q in
          let (asked, complete, fine, runs) = set.0 r in
          (image.0 p, blob, cms, (want, k, words), asked, complete, fine, runs),
      λ (p, blob, cms, (want, k, words), asked, complete, fine, runs). rw k (
          ap ok (
            (failing_three b1 (b2 want) b3).1 (
              image.1 p,
              (blob_iff summ man want).1 (blob, cms, words),
              set.1 (asked, complete, fine, runs),
            ))),
    )
