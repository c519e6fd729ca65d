-- ===== src/Importer.antt =====
-- internal/importer/tsdnsini/parser.go: the settings file of the official server.
pub mod Sound
use tsdns.Prelude.{
  ℕ, ◌+◌, Bool, true, false, Option, none, some, List, [], ◌∷◌, ◌++◌, Bytes, ◌==◌, leb,
  if◌then◌else◌, ◌>>=◌, length, take, drop, Result, ok, err, Error, other, reverse,
}
use tsdns.Text.Bytes.{codes, has_prefix, index}
use tsdns.Text.Space.{trim_space}

pub record Entry : Type 0 where
  pub ident : Bytes
  pub value : Bytes
  pub line : ℕ

pub record ParseResult : Type 0 where
  pub entries : List Entry
  pub skipped : ℕ

abbrev pub reader_nil : Error
reader_nil = other (codes "reader is nil")

-- `bufio.ErrTooLong` and the size of the buffer, which a line with its end has to fit in.
abbrev pub too_long : Error
too_long = other (codes "scan: bufio.Scanner: token too long")

abbrev pub max_buf_size : ℕ
max_buf_size = 1048576

-- `bufio.ScanLines`: the lines, without a last one that is empty, and each without a carriage return
-- at its end.
abbrev with_head : ℕ → List Bytes → List Bytes
with_head c [] = (c ∷ []) ∷ []
with_head c (l ∷ ls) = (c ∷ l) ∷ ls

unfoldable pub scan_lines : Bytes → List Bytes
scan_lines [] = []
scan_lines (c ∷ s) = let rest = scan_lines s in if c == b'\n' then [] ∷ rest else with_head c rest

unfoldable pub drop_cr : Bytes → Bytes
drop_cr [] = []
drop_cr (c ∷ []) = if c == b'\r' then [] else c ∷ []
drop_cr (c ∷ d ∷ s) = c ∷ drop_cr (d ∷ s)

-- `strings.SplitN(line, "=", 2)`, if it gives two parts.
unfoldable pub split_entry : Bytes → Option (Bytes × Bytes)
split_entry line = do i ← index line b'='; some (take i line, drop (i + 1) line)

abbrev pub skip : ParseResult → ParseResult
skip res = record res { skipped = res.skipped + 1 }

-- The append, unless one of the two trimmed parts is empty.
unfoldable pub add_entry : ℕ → Bytes → Bytes → ParseResult → ParseResult
add_entry n [] value res = skip res
add_entry n (c ∷ ident) [] res = skip res
add_entry n (c ∷ ident) (d ∷ value) res = record res {
  entries = res.entries ++ record { ident = c ∷ ident; value = d ∷ value; line = n } ∷ [];
}

unfoldable pub add_parts : ℕ → Option (Bytes × Bytes) → ParseResult → ParseResult
unfolding add_entry
add_parts n none res = skip res
add_parts n (some (ident, value)) res = add_entry n (trim_space ident) (trim_space value) res

-- One round of the loop, on a trimmed line.
unfoldable pub add_line : ℕ → Bytes → ParseResult → ParseResult
unfolding split_entry add_parts
add_line n [] res = res
add_line n (c ∷ line) res =
    if has_prefix (c ∷ line) (codes "#") then res else add_parts n (split_entry (c ∷ line)) res

-- The loop, behind `n` lines.
unfoldable pub parse_lines : ℕ → List Bytes → ParseResult → Result ParseResult
unfolding add_line drop_cr
parse_lines n [] res = ok res
parse_lines n (l ∷ ls) res =
    let rest = parse_lines (n + 1) ls (add_line (n + 1) (trim_space (drop_cr l)) res) in
    if leb max_buf_size (length l) then err too_long else rest

-- What a reader gives before it ends, and the error that ends it.
pub record Reader : Type 0 where
  pub content : Bytes
  pub fails : Option Error

-- The test of `sc.Err()`.
unfoldable pub unless_read_fails : Option Error → Result ParseResult → Result ParseResult
unless_read_fails o (err e) = err e
unless_read_fails none (ok res) = ok res
unless_read_fails (some e) (ok res) = err e

abbrev pub no_result : ParseResult
no_result = record { entries = []; skipped = 0 }

unfoldable pub parse : Option Reader → Result ParseResult
unfolding scan_lines parse_lines unless_read_fails
parse none = err reader_nil
parse (some r) = unless_read_fails r.fails (parse_lines 0 (scan_lines r.content) no_result)
