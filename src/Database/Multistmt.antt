-- ===== src/Database/Multistmt.antt =====
-- database/multistmt/parse.go: the statements of a migration that has several.
pub mod Cut
pub mod Parts
pub mod Pieces
pub mod Scan
use migrate.Prelude.{
  ℕ, zero, suc, Bool, true, false, Bytes, Option, none, some, List, [], ◌∷◌, ◌++◌, leb, length,
  is_empty, strip_prefix, if◌then◌else◌,
}
use migrate.Errors.{Error, too_long, no_progress}

-- `StartBufSize`.
abbrev pub start_buf_size : ℕ
start_buf_size = 4096

-- `maxConsecutiveEmptyReads` of package bufio.
abbrev pub max_empty_reads : ℕ
max_empty_reads = 100

-- What `Read` of an io.Reader returns, call by call: a chunk, a chunk together with the end, or the end.
pub data Chunks : Type 0 where
  chunk : Bytes → Chunks → Chunks
  last : Bytes → Chunks
  eof : Chunks

-- How far a handler has got, and whether it wants more.
pub data Progress (S : Type 0) : Type 0 where
  more : S → Progress S
  enough : S → Progress S

abbrev cut_here : Bytes → ℕ → Option Bytes → Option (Bytes × Bytes) → Option (Bytes × Bytes)
cut_here delimiter c (some rest) later = some (delimiter, rest)
cut_here delimiter c none none = none
cut_here delimiter c none (some (before, rest)) = some (c ∷ before, rest)

-- The text up to the first delimiter, which is not empty, and behind it: `d[:i+len(delimiter)]` and the rest
-- for `i := bytes.Index(d, delimiter)`.
unfoldable pub cut_after : Bytes → Bytes → Option (Bytes × Bytes)
cut_after delimiter [] = none
cut_after delimiter (c ∷ s) =
    cut_here delimiter c (strip_prefix delimiter (c ∷ s)) (cut_after delimiter s)

-- The function that `splitWithDelimiter` returns: a token and what follows it.
unfoldable pub split_with_delimiter : Bytes → Bytes → Bool → Option (Bytes × Bytes)
unfolding cut_after
split_with_delimiter delimiter d true = if is_empty d then none else some (d, [])
split_with_delimiter delimiter d false = cut_after delimiter d

-- The size to which the buffer may grow.
abbrev pub max_buffer : ℕ → ℕ
max_buffer max_migration_size =
    if leb start_buf_size max_migration_size then max_migration_size else start_buf_size

module _ {S : Type 0} (delimiter : Bytes) (max_migration_size : ℕ) (h : Bytes → S → Bool × S) where
  abbrev pub go_on : Bool × S → Progress S
  go_on (true, s) = more s
  go_on (false, s) = enough s

  abbrev drain_rest : Progress S → (S → Bytes × Progress S) → Bytes × Progress S
  drain_rest (enough s) rest = ([], enough s)
  drain_rest (more s) rest = rest s

  abbrev drain_token :
      Bytes → Option (Bytes × Bytes) → (Bytes → S → Bytes × Progress S) → S → Bytes × Progress S
  drain_token buf none rest s = (buf, more s)
  drain_token buf (some (token, behind)) rest s = drain_rest (go_on (h token s)) (rest behind)

  -- The tokens of the buffer, and what is left in it; each token takes a byte at least.
  unfoldable pub drain : ℕ → Bytes → Bool → S → Bytes × Progress S
  unfolding split_with_delimiter
  drain zero buf at_eof s = (buf, more s)
  drain (suc fuel) buf at_eof s =
      drain_token buf (split_with_delimiter delimiter buf at_eof)
        (λ behind. drain fuel behind at_eof) s

  abbrev pub over : Bytes × Progress S → Option Error × S
  over (buf, more s) = (none, s)
  over (buf, enough s) = (none, s)

  -- The scanner gave up: what it had buffered is handed over as at the end, and the error is `io.ErrNoProgress`.
  abbrev pub stalled : Bytes × Progress S → Option Error × S
  stalled (buf, more s) = (some no_progress, s)
  stalled (buf, enough s) = (some no_progress, s)

  abbrev scan_rest : Bytes × Progress S → (Bytes → S → Option Error × S) → Option Error × S
  scan_rest (buf, enough s) rest = (none, s)
  scan_rest (buf, more s) rest =
      if leb (max_buffer max_migration_size) (length buf) then (some too_long, s) else rest buf s

  -- `Parse`: the loop of bufio.Scanner. It asks the split function for a token of what is buffered, and reads on
  -- when there is none; a buffer that is full without a token is an error, and so are more empty reads in a row
  -- than `max_empty_reads`; `empties` of them came before.
  unfoldable pub scan : Chunks → ℕ → Bytes → S → Option Error × S
  unfolding drain
  scan eof empties buf s = over (drain (suc (length buf)) buf true s)
  scan (last bytes) empties buf s = over (drain (suc (length (buf ++ bytes))) (buf ++ bytes) true s)
  scan (chunk [] chunks) empties buf s =
      let rest = scan chunks (suc empties) in
      if leb max_empty_reads empties
      then stalled (drain (suc (length buf)) buf true s)
      else rest buf s
  scan (chunk (c ∷ bytes) chunks) empties buf s =
      scan_rest (drain (suc (length (buf ++ c ∷ bytes))) (buf ++ c ∷ bytes) false s) (scan chunks 0)

  unfoldable pub parse : Chunks → S → Option Error × S
  unfolding scan
  parse reader s = scan reader 0 [] s
