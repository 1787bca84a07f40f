-- ===== src/Config/Error/Display.antt =====
-- src/config/error.rs: the text of all problems of a file.
use panopti_dns.Prelude.{
  ℕ, ◌-◌, max, Bool, true, false, Option, none, some, List, [], ◌∷◌, ◌++◌, map, ◌==◌, if◌then◌else◌,
  length, take, replicate,
}
use panopti_dns.Bytes.{Bytes, codes}
use panopti_dns.Config.Error.{ConfigError}
use panopti_dns.Config.Error.Message.{to_string, message, hint}

pub record ConfigErrors : Type 0 where
  pub path : Option Bytes
  pub errors : List ConfigError

abbrev pub new_errors : List ConfigError → ConfigErrors
new_errors errors = record { path = none; errors = errors }

unfoldable pub with_path : ConfigErrors → Bytes → ConfigErrors
with_path e path = record e { path = some path }

abbrev pub newline : ℕ
newline = 10

abbrev pub tab : ℕ
tab = 9

-- A byte of the pad: a tab below a tab, a blank below all else.
abbrev pub pad_byte : ℕ → ℕ
pad_byte b = if b == tab then tab else b' '

-- The pad and the carets below a snippet.
unfoldable pub underline : Bytes → Option (ℕ × ℕ) → Bytes × Bytes
underline snippet none = ([], replicate (max (length snippet) 1) b'^')
underline snippet (some (start, end)) =
    (map pad_byte (take start snippet), replicate (max (end - start) 1) b'^')

abbrev pub hint_text : Option Bytes → Bytes
hint_text none = []
hint_text (some text) = b' ' ∷ text

-- The five lines of a problem.
unfoldable pub error_lines : Bytes → ConfigError → List Bytes
error_lines path e =
    let num = to_string e.line in
    let gutter = replicate (length num) b' ' in
    let (pad, carets) = underline e.snippet e.span in
    (codes "error: " ++ message e.kind)
    ∷ (gutter ++ (codes "--> " ++ (path ++ (codes ":" ++ num))))
    ∷ (gutter ++ codes " |")
    ∷ (num ++ (codes " | " ++ e.snippet))
    ∷ (gutter ++ (codes " | " ++ (pad ++ (carets ++ hint_text (hint e.kind)))))
    ∷ []

-- `writeln!` of each.
unfoldable pub written : List Bytes → Bytes
written [] = []
written (line ∷ rest) = line ++ (newline ∷ written rest)

-- An empty line stands before each problem but the first.
unfoldable pub all_lines : Bytes → Bool → List ConfigError → List Bytes
all_lines path first [] = []
all_lines path true (e ∷ es) = error_lines path e ++ all_lines path false es
all_lines path false (e ∷ es) = [] ∷ (error_lines path e ++ all_lines path false es)

abbrev path_text : Option Bytes → Bytes
path_text none = codes "<config>"
path_text (some path) = path

unfoldable pub last_line : ℕ → Bytes
last_line n =
    codes "aborting due to "
    ++ (to_string n
        ++ (codes " configuration " ++ (if n == 1 then codes "error" else codes "errors")))

-- `Display for ConfigErrors`
unfoldable pub display : ConfigErrors → Bytes
display e =
    written (all_lines (path_text e.path) true e.errors) ++ (newline ∷ last_line (length e.errors))
