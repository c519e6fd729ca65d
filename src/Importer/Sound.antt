-- ===== src/Importer/Sound.antt =====
-- Every entry of a result stands in the file.
use tsdns.Prelude.{
  ℕ, zero, suc, ◌+◌, ◌≡◌, ◌≢◌, refl, sym, ap, ◌∙◌, Bool, false, Option, none, some, List, [], ◌∷◌,
  ◌++◌, Bytes, if◌then◌else◌, leb, length, take, drop, get_elem?, Result, ok, err, Error, arith,
  Option-cases, Bool-cases, inl, inr, ◌>>=◌,
}
use native.Mathlib.Numerals.{add-one}
use mathlib.Core.Path.{subst}
use mathlib.Core.Option.{some-injective}
use tsdns.Text.Bytes.{codes, has_prefix, index, contains}
use tsdns.Text.Bytes.Laws.{index_split}
use tsdns.Text.Space.{trim_space}
use tsdns.Importer.{
  Entry, ParseResult, Reader, scan_lines, drop_cr, split_entry, add_entry, add_parts, add_line,
  parse_lines, unless_read_fails, no_result, parse, max_buf_size, too_long,
}

-- An entry stands in a trimmed line: split at the first `=`, trimmed, and neither part empty, where
-- the line is no comment.
pub record StandsIn (line : Bytes) (e : Entry) : Type 0 where
  pub before : Bytes
  pub behind : Bytes
  pub splits : line ≡ before ++ b'=' ∷ behind
  pub first : contains before b'=' ≡ false
  pub ident_of : e.ident ≡ trim_space before
  pub value_of : e.value ≡ trim_space behind
  pub ident_ne : e.ident ≢ []
  pub value_ne : e.value ≢ []
  pub no_comment : has_prefix line (codes "#") ≡ false

-- An entry stands in the line of its number.
pub record IsEntry (lines : List Bytes) (e : Entry) : Type 0 where
  pub row : ℕ
  pub raw : Bytes
  pub numbered : e.line ≡ row + 1
  pub at_row : get_elem? lines row ≡ some raw
  pub stands : StandsIn (trim_space (drop_cr raw)) e

abbrev pub AllEntries : (Entry → Type 0) → List Entry → Type 0
AllEntries P [] = Unit
AllEntries P (e ∷ es) = P e × AllEntries P es

AllEntries-append :
    (P : Entry → Type 0) (es : List Entry) (e : Entry)
    → AllEntries P es
    → P e
    → AllEntries P (es ++ e ∷ [])
AllEntries-append P [] e h p = (p, tt)
AllEntries-append P (x ∷ es) e h p = (h.0, AllEntries-append P es e h.1 p)

split_at :
    (line before behind : Bytes) (i : ℕ)
    → index line b'=' ≡ some i
    → split_entry line ≡ some (before, behind)
    → (take i line ≡ before) × (drop (suc i) line ≡ behind)
unfolding split_entry
split_at line before behind i e h =
    let pair : some (take i line, drop (i + 1) line) ≡ some (before, behind) =
      ap (λ o. (do j ← o; some (take j line, drop (j + 1) line))) (sym e) ∙ h in
    let parts = some-injective (take i line, drop (i + 1) line) (before, behind) pair in
    (
      ap (λ (x : Bytes × Bytes). x.0) parts,
      ap (λ k. drop k line) (sym (add-one i)) ∙ ap (λ (x : Bytes × Bytes). x.1) parts,
    )

split_entry_inv :
    (line before behind : Bytes)
    → split_entry line ≡ some (before, behind)
    → (line ≡ before ++ b'=' ∷ behind) × (contains before b'=' ≡ false)
unfolding split_entry
split_entry_inv line before behind h = elim (Option-cases (index line b'=')) [
  | inl n ↦ absurd (ground arith)
  | inr (i, e) ↦
      let (front, back) = split_at line before behind i e h in
      let (splits, inside) = index_split line b'=' i e in
      (
        splits ∙ (λ j. front j ++ b'=' ∷ back j),
        ap (λ x. contains x b'=') (sym front) ∙ unfold contains in inside,
      )
]

-- What one more line adds.
module _ (P : Entry → Type 0) (n : ℕ) where
  add_entry-AllEntries :
      (ident value : Bytes) (res : ParseResult)
      → ((e : Entry)
          → e.ident ≡ ident
          → e.value ≡ value
          → e.line ≡ n
          → e.ident ≢ []
          → e.value ≢ []
          → P e)
      → AllEntries P res.entries
      → AllEntries P (add_entry n ident value res).entries
  unfolding add_entry
  add_entry-AllEntries [] value res p h = h
  add_entry-AllEntries (c ∷ ident) [] res p h = h
  add_entry-AllEntries (c ∷ ident) (d ∷ value) res p h =
      AllEntries-append P res.entries _ h (p _ refl refl refl (λ x. cc x) (λ x. cc x))

  add_parts-AllEntries :
      (o : Option (Bytes × Bytes)) (line : Bytes) (res : ParseResult)
      → split_entry line ≡ o
      → has_prefix line (codes "#") ≡ false
      → ((e : Entry) → e.line ≡ n → StandsIn line e → P e)
      → AllEntries P res.entries
      → AllEntries P (add_parts n o res).entries
  unfolding add_parts
  add_parts-AllEntries none line res s c p h = h
  add_parts-AllEntries (some (before, behind)) line res s c p h =
      add_entry-AllEntries (trim_space before) (trim_space behind) res
        (λ e i v l ine vne. p e l (stands e i v ine vne)) h
    where
      stands :
          (e : Entry)
          → e.ident ≡ trim_space before
          → e.value ≡ trim_space behind
          → e.ident ≢ []
          → e.value ≢ []
          → StandsIn line e
      stands e i v ine vne =
          let (splits, first) = split_entry_inv line before behind s in
          record {
            before = before;
            behind = behind;
            splits = splits;
            first = first;
            ident_of = i;
            value_of = v;
            ident_ne = ine;
            value_ne = vne;
            no_comment = c;
          }

  add_line-AllEntries :
      (line : Bytes) (res : ParseResult)
      → ((e : Entry) → e.line ≡ n → StandsIn line e → P e)
      → AllEntries P res.entries
      → AllEntries P (add_line n line res).entries
  unfolding add_line
  add_line-AllEntries [] res p h = h
  add_line-AllEntries (c ∷ line) res p h = elim (Bool-cases (has_prefix (c ∷ line) (codes "#"))) [
    | inl comment ↦ rw comment h
    | inr other ↦
        rw other (add_parts-AllEntries (split_entry (c ∷ line)) (c ∷ line) res refl other p h)
  ]

-- The lines from the `n`-th on are `ls`.
abbrev pub Behind : List Bytes → ℕ → List Bytes → Type 0
Behind lines n ls = drop n lines ≡ ls

drop-cons :
    (lines : List Bytes) (n : ℕ) (l : Bytes) (ls : List Bytes)
    → drop n lines ≡ l ∷ ls
    → (get_elem? lines n ≡ some l) × (drop (suc n) lines ≡ ls)
drop-cons [] zero l ls h = absurd (cc h)
drop-cons [] (suc n) l ls h = absurd (cc h)
drop-cons (x ∷ xs) zero l ls h = (cc h, cc h)
drop-cons (x ∷ xs) (suc n) l ls h = drop-cons xs n l ls h

parse_lines-AllEntries :
    (lines ls : List Bytes) (n : ℕ) (res out : ParseResult)
    → Behind lines n ls
    → AllEntries (IsEntry lines) res.entries
    → parse_lines n ls res ≡ ok out
    → AllEntries (IsEntry lines) out.entries
unfolding parse_lines
parse_lines-AllEntries lines [] n res out b h e =
    let same : res ≡ out = cc e in
    subst (λ (x : ParseResult). AllEntries (IsEntry lines) x.entries) same h
parse_lines-AllEntries lines (l ∷ ls) n res out b h e =
    let (here, next) = drop-cons lines n l ls b in
    let line : Bytes = trim_space (drop_cr l) in
    let added =
      add_line-AllEntries (IsEntry lines) (n + 1) line res
        (λ x numbered stands. record {
          row = n;
          raw = l;
          numbered = numbered;
          at_row = here;
          stands = stands;
        })
        h in
    let rest : Result ParseResult = parse_lines (n + 1) ls (add_line (n + 1) line res) in
    let test = λ (c : Bool). if c then err too_long else rest in
    elim (Bool-cases (leb max_buf_size (length l))) [
      | inl long ↦ absurd (cc (sym (ap test long) ∙ e))
      | inr short ↦
          parse_lines-AllEntries lines ls (n + 1) (add_line (n + 1) line res) out
            (ap (λ k. drop k lines) (add-one n) ∙ next) added (sym (ap test short) ∙ e)
    ]

-- For each entry that `Parse` returns, its line number is that of a line of the file, and trimmed
-- that line is no comment, and splits at its first `=` into the entry's identifier and value, each
-- trimmed and not empty.
pub parse-AllEntries :
    (r : Reader) (out : ParseResult)
    → parse (some r) ≡ ok out
    → AllEntries (IsEntry (scan_lines r.content)) out.entries
unfolding parse unless_read_fails
parse-AllEntries r out h = go r.fails (parse_lines 0 (scan_lines r.content) no_result) refl h
  where
    go :
        (o : Option Error) (x : Result ParseResult)
        → parse_lines 0 (scan_lines r.content) no_result ≡ x
        → unless_read_fails o x ≡ ok out
        → AllEntries (IsEntry (scan_lines r.content)) out.entries
    go o (err e) q k = absurd (cc k)
    go (some e) (ok res) q k = absurd (cc k)
    go none (ok res) q k =
        parse_lines-AllEntries (scan_lines r.content) (scan_lines r.content) 0 no_result out refl tt
          (q ∙ k)
