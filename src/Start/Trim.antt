-- ===== src/Start/Trim.antt =====
-- `str::trim` of the standard library, as src/main.rs calls it: the white space of Unicode, in UTF-8.
use panopti_dns.Prelude.{
  ℕ, zero, suc, Bool, ◌&&◌, ◌||◌, Option, none, some, [], ◌∷◌, ◌++◌, ◌==◌, if◌then◌else◌, length,
}
use panopti_dns.Bytes.{Bytes, within}

abbrev is_space1 : ℕ → Bool
is_space1 a = within 9 13 a || a == 32

abbrev is_space2 : ℕ → ℕ → Bool
is_space2 a b = a == 0xc2 && (b == 0x85 || b == 0xa0)

abbrev is_space3 : ℕ → ℕ → ℕ → Bool
is_space3 a b c =
    (a == 0xe1 && (b == 0x9a && c == 0x80))
    || ((a == 0xe2
          && (b == 0x80 && (within 0x80 0x8a c || (c == 0xa8 || (c == 0xa9 || c == 0xaf)))))
        || ((a == 0xe2 && (b == 0x81 && c == 0x9f)) || (a == 0xe3 && (b == 0x80 && c == 0x80))))

-- One character less, if the first is white space. `two` and `three` test for those of more bytes.
unfoldable pub drop_space : (ℕ → ℕ → Bool) → (ℕ → ℕ → ℕ → Bool) → Bytes → Option Bytes
drop_space two three [] = none
drop_space two three (a ∷ []) = if is_space1 a then some [] else none
drop_space two three (a ∷ b ∷ []) =
    if is_space1 a then some (b ∷ []) else if two a b then some [] else none
drop_space two three (a ∷ b ∷ c ∷ rest) =
    if is_space1 a
    then some (b ∷ c ∷ rest)
    else if two a b
    then some (c ∷ rest)
    else if three a b c
    then some rest
    else none

unfoldable pub trim_loop : (ℕ → ℕ → Bool) → (ℕ → ℕ → ℕ → Bool) → ℕ → Bytes → Bytes
trim_loop two three zero s = s
trim_loop two three (suc room) s = elim (drop_space two three s) [
  | none ↦ s
  | some rest ↦ trim_loop two three room rest
]

abbrev backwards : Bytes → Bytes
backwards [] = []
backwards (b ∷ bs) = backwards bs ++ b ∷ []

unfoldable pub trim_start : Bytes → Bytes
trim_start s = trim_loop is_space2 is_space3 (length s) s

-- From the end, the bytes of a character come in the other order.
unfoldable pub trim_end : Bytes → Bytes
trim_end s =
    backwards (trim_loop (λ a b. is_space2 b a) (λ a b c. is_space3 c b a) (length s) (backwards s))

unfoldable pub trim : Bytes → Bytes
trim s = trim_end (trim_start s)
