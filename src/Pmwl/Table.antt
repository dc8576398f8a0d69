-- ===== src/Pmwl/Table.antt =====
-- The IO table of `pack` (host/lib/pmwl.py), by its length.
use mps4_prototyping_board.Prelude.{
  ℕ, ◌*◌, ◌-◌, ◌≤◌, ◌≡◌, refl, arith, List, [], ◌∷◌, length, replicate, length-append,
  length-replicate,
}
use mps4_prototyping_board.Pmwl.{Tensor, Entry, entries, entry_words, io_max, io_words, table_words}

-- The table is no longer than its room.
pub length-entries : (ts : List Tensor) (ds : List ℕ) → length (entries ts ds) ≤ length ts
unfolding entries
length-entries [] ds = omega arith
length-entries (t ∷ ts) [] = omega arith
length-entries (t ∷ ts) (d ∷ ds) = omega (arith, length-entries ts ds)

length-entry_words : (es : List Entry) → length (entry_words es) ≡ 3 * length es
unfolding entry_words
length-entry_words [] = refl
length-entry_words (e ∷ es) = omega (arith, length-entry_words es)

pub length-table_words :
    (n_in n_out : ℕ) (es : List Entry)
    → length es ≤ io_max
    → length (table_words n_in n_out es) ≡ io_words
unfolding table_words
length-table_words n_in n_out es h = omega (
  arith,
  length-append (n_in ∷ n_out ∷ entry_words es)
      (replicate {A = ℕ} (io_words - length (n_in ∷ n_out ∷ entry_words es)) 0),
  length-replicate {A = ℕ} (io_words - length (n_in ∷ n_out ∷ entry_words es)) 0,
  length-entry_words es,
)
