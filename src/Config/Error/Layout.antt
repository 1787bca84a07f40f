-- ===== src/Config/Error/Layout.antt =====
-- The carets of a report stand below the bytes of the span.
use mathlib.Core.Option
use panopti_dns.Prelude.{
  ltb, ℕ, ◌+◌, ◌≡◌, Option, some, List, map, if◌then◌else◌, length, get_elem?,
}
use panopti_dns.Bytes.{Bytes}
use panopti_dns.Config.Error.{ConfigError}
use panopti_dns.Config.Error.Message.{to_string}
use panopti_dns.Config.Error.Display.{pad_byte}

-- The bytes before the snippet and before the pad: the line's number, and ` | `.
unfoldable pub margin : ConfigError → ℕ
margin e = length (to_string e.line) + 3

-- What stands below a byte of the snippet: before the span a tab below a tab and a blank below all else,
-- and in the span a caret.
abbrev pub mark_below : ConfigError → ℕ → ℕ → Option ℕ
mark_below e start i =
    if ltb i start then Option.map pad_byte (get_elem? e.snippet i) else some b'^'

-- Of the lines of a report, the fourth has byte `i` of the snippet after a margin, and the fifth has its
-- mark after a margin as wide.
unfoldable pub IsAligned : ConfigError → ℕ → ℕ → List Bytes → Type 0
IsAligned e start i lines =
    (snippet_line : Bytes) × (caret_line : Bytes) × (get_elem? lines 3 ≡ some snippet_line)
    × (get_elem? lines 4 ≡ some caret_line)
    × (get_elem? snippet_line (margin e + i) ≡ get_elem? e.snippet i)
    × (get_elem? caret_line (margin e + i) ≡ mark_below e start i)
