-- ===== src/Config/Error/Parsed.antt =====
-- Every problem of a configuration is reported within a line of it.
use mathlib.Core.Path.{subst}
use panopti_dns.Prelude.{
  ℕ, ◌+◌, ◌-◌, ◌^◌, ◌≤◌, ◌≡◌, min, not, some, List, [], ◌∷◌, arith, length, All, find_first, inl,
  inr, Option-cases, Bool-cases, if◌then◌else◌, is_empty,
}
use panopti_dns.Bytes.{Bytes, to_ascii_lowercase}
use panopti_dns.Hickory.{Hickory, err}
use panopti_dns.Config.Error.{not_utf8, ConfigError}
use panopti_dns.Config.Error.Located.{IsLocated, IsPlaced, error-IsLocated}
use panopti_dns.Config.Error.Compiled.{compile-IsLocated}
use panopti_dns.Config.Error.Offsets.{
  length-trim_ascii_start, length-first_word, find_directive-within,
}
use panopti_dns.Config.Text.{trim_ascii_start, strip_last, lines, is_utf8}
use panopti_dns.Config.Parse.{
  Directive, Flag, Parsed, flags, take_directive, take_flag, find_directive, take_line, parse_line,
  parse_lines, parse, unmatched_line_error, matches_flag, value_at, is_comment,
}
use panopti_dns.Config.Compile.{AddressText}
use panopti_dns.Config.Zones.{compile, parse_config}
use panopti_dns.Config.Error.Kept.{
  IsSound, report-IsSound, push_global-IsSound, if-IsSound, apply_directive-IsSound, lowered_length,
}

module _ (line_no : ℕ) (raw : Bytes) (numbered : 1 ≤ line_no) where
  take_directive-IsSound :
      (start : ℕ) (d : Directive) (value : Bytes) (p : Parsed)
      → start + length value ≤ length raw
      → IsSound p
      → IsSound (take_directive line_no raw start d value p)
  unfolding take_directive
  take_directive-IsSound start d value p fits sound =
      let broken : ConfigError = record {
        line = line_no;
        snippet = raw;
        span = some (start, length raw);
        kind = not_utf8;
      } in
      let text = if d.lowercase then to_ascii_lowercase value else value in
      let placed : IsPlaced (value_at line_no raw start text) =
        unfold IsPlaced in
        (numbered, omega arith, omega (arith, lowered_length d.lowercase value)) in
      if-IsSound (not (is_utf8 value)) _ _
        (report-IsSound p broken sound (unfold IsLocated in (numbered, (omega arith, omega arith))))
        (apply_directive-IsSound d d.scope _ p placed sound)

  take_flag-IsSound :
      (indent : ℕ) (f : Flag) (p : Parsed)
      → indent ≤ length raw
      → IsSound p
      → IsSound (take_flag line_no raw indent f p)
  unfolding take_flag
  take_flag-IsSound indent f p fits sound =
      let placed : IsPlaced
          (record { line = line_no; raw_line = raw; span = (indent, length raw); value = [] }) =
        unfold IsPlaced in (numbered, fits, omega arith) in
      if-IsSound (not (is_empty p.0.zones)) _ _
        (report-IsSound p _ sound (error-IsLocated _ _ placed))
        (push_global-IsSound f.key _ p placed sound)

  take_line-IsSound :
      (lossy : Bytes → Bytes) (indent : ℕ) (body : Bytes) (p : Parsed)
      → indent + length body ≡ length raw
      → 1 ≤ length body
      → IsSound p
      → IsSound (take_line lossy line_no raw indent body p)
  take_line-IsSound lossy indent body p whole filled sound =
      elim (Option-cases (find_first (λ (f : Flag). matches_flag body f.words) flags)) [
        | inr flag ↦
            unfold take_line in
            rw (take_line, flag.1) (take_flag-IsSound indent flag.0 p (omega arith) sound)
        | inl no_flag ↦ (elim (Option-cases (find_directive body)) [
          | inl unknown ↦
              unfold take_line in
              rw (take_line, no_flag, unknown)
                (report-IsSound p _ sound (
                  unfold IsLocated in
                  unfold unmatched_line_error in
                  (numbered, (omega arith, omega (arith, length-first_word body)))))
          | inr found ↦
              (let fits = find_directive-within body found.0.0 found.0.1 found.0.2 found.1 in
                unfold take_line in
                rw (take_line, no_flag, found.1)
                  (take_directive-IsSound (indent + found.0.1) found.0.0 found.0.2 p
                    (omega (arith, fits)) sound))
        ])
      ]

parse_line-IsSound :
    (lossy : Bytes → Bytes) (line_no : ℕ) (line : Bytes) (p : Parsed)
    → 1 ≤ line_no
    → IsSound p
    → IsSound (parse_line lossy line_no line p)
unfolding parse_line
parse_line-IsSound lossy line_no line p numbered sound =
    by_body (trim_ascii_start raw) (length-trim_ascii_start raw)
  where
    raw : Bytes
    raw = strip_last 13 line

    by_body :
        (body : Bytes)
        → length body ≤ length raw
        → IsSound (
            if is_comment body
            then p
            else take_line lossy line_no raw (length raw - length body) body p)
    by_body [] fits = sound
    by_body (c ∷ cs) fits = if-IsSound (is_comment (c ∷ cs)) _ _ sound (
        take_line-IsSound line_no raw numbered lossy _ (c ∷ cs) p (omega arith) (omega arith) sound)

parse_lines-IsSound :
    (lossy : Bytes → Bytes) (idx : ℕ) (ls : List Bytes) (p : Parsed)
    → IsSound p
    → IsSound (parse_lines lossy idx ls p)
unfolding parse_lines
parse_lines-IsSound lossy idx [] p sound = sound
parse_lines-IsSound lossy idx (line ∷ rest) p sound =
    parse_lines-IsSound lossy (idx + 1) rest (parse_line lossy (min (idx + 1) (2 ^ 32 - 1)) line p)
      (parse_line-IsSound lossy _ line p (omega arith) sound)

-- Whatever the text of a configuration: each of the errors with which it is rejected names a line from 1
-- on, and its span, if it has one, is a range within the text of the line that it shows.
pub parse_config-IsLocated :
    (h : Hickory) (text : AddressText) (lossy : Bytes → Bytes) (input : Bytes)
    (errors : List ConfigError)
    → parse_config h text lossy input ≡ err errors
    → All IsLocated errors
unfolding parse_config parse
parse_config-IsLocated h text lossy input errors e =
    let (placed, all) = parse_lines-IsSound lossy 0 (lines input) _ ((tt, tt, tt), tt) in
    let fine : All IsLocated (compile h text (parse lossy input).0 (parse lossy input).1).1 =
      compile-IsLocated h text (parse lossy input).0 (parse lossy input).1 placed all in
    elim (Bool-cases (is_empty (compile h text (parse lossy input).0 (parse lossy input).1).1)) [
      | inl accepted ↦ ground arith
      | inr rejected ↦
          let same : (compile h text (parse lossy input).0 (parse lossy input).1).1 ≡ errors =
            ground arith in
          subst (All IsLocated) same fine
    ]
