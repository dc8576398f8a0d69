-- ===== src/Receive/Text.antt =====
-- The text half of `_harvest_text`: decode as ASCII, drop carriage returns, split into lines, strip
-- each and keep those with something in them.
use mps4_prototyping_board.Prelude.{
  ℕ, List, [], ◌∷◌, Bool, ◌&&◌, ◌||◌, leb, ltb, ◌==◌, if◌then◌else◌,
}
use mps4_prototyping_board.Bytes.{Bytes}

-- A line of text by its code points.
abbrev pub Line : Type 0
Line = List ℕ

-- `chunk.decode("ascii", errors="replace")`: each byte over 127 becomes U+FFFD.
unfoldable pub decode_ascii : Bytes → Line
decode_ascii [] = []
decode_ascii (b ∷ bs) = (if ltb b 128 then b else 0xFFFD) ∷ decode_ascii bs

-- `text.replace("\r", "")`
unfoldable pub drop_returns : Line → Line
drop_returns [] = []
drop_returns (c ∷ cs) = let rest = drop_returns cs in if c == 13 then rest else c ∷ rest

onto_first : ℕ → List Line → List Line
onto_first c [] = (c ∷ []) ∷ []
onto_first c (l ∷ ls) = (c ∷ l) ∷ ls

-- `text.split("\n")`
unfoldable pub split_lines : Line → List Line
unfolding onto_first
split_lines [] = [] ∷ []
split_lines (c ∷ cs) = let rest = split_lines cs in if c == 10 then [] ∷ rest else onto_first c rest

-- The ASCII characters that `str.strip` takes off.
unfoldable pub is_space : ℕ → Bool
is_space c = c == 32 || leb 9 c && leb c 13 || leb 28 c && leb c 31

lstrip : Line → Line
unfolding is_space
lstrip [] = []
lstrip (c ∷ cs) = if is_space c then lstrip cs else c ∷ cs

rstrip_onto : ℕ → Line → Line
unfolding is_space
rstrip_onto c [] = if is_space c then [] else c ∷ []
rstrip_onto c (d ∷ ds) = c ∷ d ∷ ds

rstrip : Line → Line
unfolding rstrip_onto
rstrip [] = []
rstrip (c ∷ cs) = rstrip_onto c (rstrip cs)

unfoldable pub strip : Line → Line
unfolding lstrip rstrip
strip l = rstrip (lstrip l)

onto_log : Line → List Line → List Line
onto_log [] log = log
onto_log (c ∷ cs) log = (c ∷ cs) ∷ log

unfoldable pub strip_lines : List Line → List Line
unfolding strip onto_log
strip_lines [] = []
strip_lines (l ∷ ls) = onto_log (strip l) (strip_lines ls)

-- The lines that a chunk adds to the log.
unfoldable pub log_lines : Bytes → List Line
unfolding decode_ascii drop_returns split_lines strip_lines
log_lines chunk = strip_lines (split_lines (drop_returns (decode_ascii chunk)))
