-- ===== src/Pmwl/Entries.antt =====
-- `pack` (host/lib/pmwl.py): the entries of the IO table, and the two that the header repeats.
use mps4_prototyping_board.Prelude.{
  ℕ, zero, suc, ◌≡◌, refl, ap, List, [], ◌∷◌, ◌++◌, Option, some, some-injective, length, get_elem?,
  ok, arith,
}
use mps4_prototyping_board.Pmwl.{Tensor, Entry, entries, or_single}
use mps4_prototyping_board.Pmwl.Blob.{entry_at}

-- The entry of a tensor whose data are at the offset.
abbrev pub IsEntry : Option Tensor → Option ℕ → Entry → Type 0
IsEntry t off e =
    (t ≡ some (record { arena_off = e.arena_off; len = e.len })) × (off ≡ some e.data_off)

pub entries-IsEntry :
    (ts : List Tensor) (ds : List ℕ) (n : ℕ) (e : Entry)
    → get_elem? (entries ts ds) n ≡ some e
    → IsEntry (get_elem? ts n) (get_elem? ds n) e
unfolding entries
entries-IsEntry [] ds n e h = cc h
entries-IsEntry (t ∷ ts) [] n e h = cc h
entries-IsEntry (t ∷ ts) (d ∷ ds) zero e h = (
  ap (λ z. some (tensor_of z)) (some-injective h),
  ap (λ (z : Entry). some z.data_off) (some-injective h),
)
  where
    tensor_of : Entry → Tensor
    tensor_of z = record { arena_off = z.arena_off; len = z.len }
entries-IsEntry (t ∷ ts) (d ∷ ds) (suc n) e h = entries-IsEntry ts ds n e h

-- The element behind the elements of another list, and the first of a list that has one.
pub get_elem?-behind : (ts us : List Tensor) → get_elem? (ts ++ us) (length ts) ≡ get_elem? us 0
get_elem?-behind [] us = refl
get_elem?-behind (t ∷ ts) us = get_elem?-behind ts us

pub get_elem?-first :
    (ts us : List Tensor) (t : Tensor)
    → get_elem? (or_single ts t ++ us) 0 ≡ get_elem? (or_single ts t) 0
unfolding or_single
get_elem?-first [] us t = refl
get_elem?-first (u ∷ ts) us t = refl

pub entry_at-eq-ok :
    (ents : List Entry) (n : ℕ) (e : Entry) → entry_at ents n ≡ ok e → get_elem? ents n ≡ some e
unfolding entry_at
entry_at-eq-ok ents n e h = ground arith
