-- ===== src/Config/Written.antt =====
-- The line of a directive, and a file of them, as the parser reads them.
use mathlib.Core.List.{append_assoc, append-nil}
use panopti_dns.Prelude.{
  ℕ, ◌+◌, ◌-◌, ◌^◌, min, ◌≡◌, refl, sym, ap, ◌∙◌, true, false, none, some, List, [], ◌∷◌, ◌++◌,
  arith, ◌==◌, if◌then◌else◌, length, length-append, is_empty, All, find_first, find_map,
}
use panopti_dns.Prelude.Members.{In}
use panopti_dns.Config.Error.{RawValue}
use panopti_dns.Bytes.{Bytes, to_ascii_lowercase}
use panopti_dns.Config.Text.{
  is_space, trim_ascii_start, trim_ascii_end, strip_last, is_utf8, lines, lines_loop,
}
use panopti_dns.Config.Parse.{
  Directive, directives, Flag, flags, Parsed, matches_flag, find_directive, apply_directive,
  value_at, take_directive, take_line, parse_line, parse_lines, parse, is_comment,
}
use panopti_dns.Config.Keywords.{spelled, AreTyped, width, IsValue}
use panopti_dns.Config.Table.{try, directive-IsFound}

trim_pad :
    (pad s : Bytes)
    → All (λ c. is_space c ≡ true) pad
    → trim_ascii_start (pad ++ s) ≡ trim_ascii_start s
unfolding trim_ascii_start
trim_pad [] s blank = refl
trim_pad (c ∷ pad) s (b, blank) = rw (trim_ascii_start, b) (trim_pad pad s blank)

strip_last-value : (v : Bytes) → trim_ascii_end v ≡ v → strip_last 13 v ≡ v
unfolding strip_last trim_ascii_end
strip_last-value [] e = refl
strip_last-value (c ∷ []) e = ground arith
strip_last-value (c ∷ d ∷ cs) e = ground (arith, strip_last-value (d ∷ cs))

strip_last-append :
    (a v : Bytes) → is_empty v ≡ false → strip_last 13 v ≡ v → strip_last 13 (a ++ v) ≡ a ++ v
unfolding strip_last
strip_last-append [] v some_left e = e
strip_last-append (c ∷ []) [] some_left e = cc
strip_last-append (c ∷ []) (d ∷ v) some_left e = rw (strip_last, e) refl
strip_last-append (c ∷ d ∷ a) v some_left e = ap (◌∷◌ c) (strip_last-append (d ∷ a) v some_left e)

spelled-append : (ts : List Bytes) (v : Bytes) → spelled ts v ≡ spelled ts [] ++ v
unfolding spelled
spelled-append [] v = refl
spelled-append (t ∷ ts) v =
    ap (λ s. t ++ 32 ∷ s) (spelled-append ts v) ∙ sym (append_assoc t (32 ∷ spelled ts []) v)

-- A line of a directive loses nothing at its end.
line-strip_last :
    (pad : Bytes) (ts : List Bytes) (v : Bytes)
    → IsValue v
    → strip_last 13 (pad ++ spelled ts v) ≡ pad ++ spelled ts v
line-strip_last pad ts v (some_left, front, back) =
    let whole : pad ++ spelled ts v ≡ (pad ++ spelled ts []) ++ v =
      ap (λ s. pad ++ s) (spelled-append ts v) ∙ sym (append_assoc pad (spelled ts []) v) in
    rw whole (strip_last-append (pad ++ spelled ts []) v some_left (strip_last-value v back))

parse_line-take_line :
    (lossy : Bytes → Bytes) (line_no indent : ℕ) (line raw body : Bytes) (p : Parsed)
    → strip_last 13 line ≡ raw
    → trim_ascii_start raw ≡ body
    → is_comment body ≡ false
    → length raw - length body ≡ indent
    → parse_line lossy line_no line p ≡ take_line lossy line_no raw indent body p
unfolding parse_line
parse_line-take_line lossy line_no indent line raw body p e1 e2 e3 e4 =
    rw (parse_line, e1, e2, e3, e4) refl

take_line-take_directive :
    (lossy : Bytes → Bytes) (line_no indent : ℕ) (raw body : Bytes) (d : Directive) (offset : ℕ)
    (v : Bytes) (p : Parsed)
    → find_first (λ (f : Flag). matches_flag body f.words) flags ≡ none
    → find_map (try body) directives ≡ some (d, offset, v)
    → take_line lossy line_no raw indent body p ≡ take_directive line_no raw (indent + offset) d v p
unfolding take_line find_directive
take_line-take_directive lossy line_no indent raw body d offset v p flagless found =
    rw (take_line, flagless, find_directive, found) refl

-- A line of white space, the keywords of a directive of the table, typed in any case with one blank behind
-- each, and a value of UTF-8 without white space at its ends is read as that directive: its value is the one
-- that is written, in lower case where the directive is, at its place in the line, and what follows is
-- only the check of its scope and of duplicates.
parse_line-directive :
    (lossy : Bytes → Bytes) (line_no : ℕ) (d : Directive) (pad : Bytes) (ts : List Bytes)
    (v : Bytes) (p : Parsed)
    → In d directives
    → All (λ c. is_space c ≡ true) pad
    → AreTyped ts d.words
    → IsValue v
    → is_utf8 v ≡ true
    → let line = pad ++ spelled ts v in
      parse_line lossy line_no line p
      ≡ apply_directive d d.scope
          (value_at line_no line
            (length pad + width ts)
            (if d.lowercase then to_ascii_lowercase v else v))
          p
unfolding take_directive
parse_line-directive lossy line_no d pad ts v p i blank typed value utf8 =
    let (found, flagless, (front, plain)) = directive-IsFound d i ts v typed value in
    let line = pad ++ spelled ts v in
    parse_line-take_line lossy line_no (length pad) line line (spelled ts v) p
      (line-strip_last pad ts v value) (trim_pad pad (spelled ts v) blank ∙ front) plain
      (omega (arith, length-append pad (spelled ts v)))
    ∙ take_line-take_directive lossy line_no (length pad) line (spelled ts v) d (width ts) v p
        flagless found
    ∙ rw (take_directive, utf8) refl

-- A directive as it stands in a file: what is before its keywords, they as they are typed, its value.
pub record Entry : Type 0 where
  pub directive : Directive
  pub pad : Bytes
  pub typed : List Bytes
  pub value : Bytes

abbrev pub line_of : Entry → Bytes
line_of e = e.pad ++ spelled e.typed e.value

unfoldable pub IsEntry : Entry → Type 0
IsEntry e =
    In e.directive directives
    × All (λ c. is_space c ≡ true) e.pad
    × AreTyped e.typed e.directive.words
    × IsValue e.value
    × (is_utf8 e.value ≡ true)
    × All (λ c. (c == 10) ≡ false) (line_of e)

-- A file with a line for each.
unfoldable pub file_of : List Entry → Bytes
file_of [] = []
file_of (e ∷ es) = line_of e ++ 10 ∷ file_of es

-- What a directive is read as.
abbrev pub value_of : ℕ → Entry → RawValue
value_of line_no e =
    value_at line_no (line_of e) (length e.pad + width e.typed)
      (if e.directive.lowercase then to_ascii_lowercase e.value else e.value)

-- The directives one after the other, numbered by their lines.
unfoldable pub apply_all : ℕ → List Entry → Parsed → Parsed
apply_all idx [] p = p
apply_all idx (e ∷ es) p =
    apply_all (idx + 1) es
      (apply_directive e.directive e.directive.scope (value_of (min (idx + 1) (2 ^ 32 - 1)) e) p)

lines_loop-line :
    (acc l rest : Bytes)
    → All (λ c. (c == 10) ≡ false) l
    → lines_loop acc (l ++ 10 ∷ rest) ≡ strip_last 13 (acc ++ l) ∷ lines_loop [] rest
unfolding lines_loop
lines_loop-line acc [] rest one = rw (append-nil acc) refl
lines_loop-line acc (c ∷ l) rest (plain, one) =
    rw (lines_loop, plain)
      (lines_loop-line (acc ++ c ∷ []) l rest one
        ∙ ap (λ s. strip_last 13 s ∷ lines_loop [] rest) (append_assoc acc (c ∷ []) l))

parse_lines-file_of :
    (lossy : Bytes → Bytes) (idx : ℕ) (es : List Entry) (p : Parsed)
    → All IsEntry es
    → parse_lines lossy idx (lines (file_of es)) p ≡ apply_all idx es p
unfolding parse_lines file_of apply_all lines IsEntry lines_loop
parse_lines-file_of lossy idx [] p all = refl
parse_lines-file_of lossy idx (e ∷ es) p ((i, blank, typed, value, utf8, one), all) =
    let line_no = min (idx + 1) (2 ^ 32 - 1) in
    let read : lines (file_of (e ∷ es)) ≡ line_of e ∷ lines (file_of es) =
      lines_loop-line [] (line_of e) (file_of es) one
      ∙ ap (λ s. s ∷ lines (file_of es)) (line-strip_last e.pad e.typed e.value value) in
    ap (λ ls. parse_lines lossy idx ls p) read
    ∙ ap (λ q. parse_lines lossy (idx + 1) (lines (file_of es)) q)
        (parse_line-directive lossy line_no e.directive e.pad e.typed e.value p i blank typed value
          utf8)
    ∙ parse_lines-file_of lossy (idx + 1) es _ all

-- A file with a directive on each line is read as these directives, one after the other. On each line
-- stand white space, the keywords of a directive of the table, typed in any case with one blank behind
-- each, and a value of UTF-8, not empty, without white space at its ends and without a line feed. What is
-- applied is its value as it is written, or in lower case where the directive is, with its line and its
-- place in it; left are only the checks of scopes and duplicates.
pub parse-file_of :
    (lossy : Bytes → Bytes) (es : List Entry)
    → All IsEntry es
    → parse lossy (file_of es)
      ≡ apply_all 0 es (record { listen = []; zones = []; globals = [] }, [])
unfolding parse
parse-file_of lossy es all = parse_lines-file_of lossy 0 es _ all
