-- ===== src/Config/Text.antt =====
-- The standard library's operations on bytes and texts that the configuration parser uses.
use panopti_dns.Prelude.{
  ℕ, zero, suc, ◌+◌, ◌-◌, ◌*◌, ◌^◌, Bool, true, false, ◌&&◌, ◌||◌, Option, none, some, List, [],
  ◌∷◌, ◌++◌, leb, ltb, ◌==◌, if◌then◌else◌, length, take, is_empty,
}
use panopti_dns.Bytes.{Bytes, within, bytes_eq}

-- `u8::is_ascii_whitespace`
abbrev pub is_space : ℕ → Bool
is_space c = c == 32 || (c == 9 || (c == 10 || (c == 12 || c == 13)))

unfoldable pub trim_ascii_start : Bytes → Bytes
trim_ascii_start [] = []
trim_ascii_start (c ∷ cs) = let rest = trim_ascii_start cs in if is_space c then rest else c ∷ cs

unfoldable pub trim_ascii_end : Bytes → Bytes
trim_ascii_end [] = []
trim_ascii_end (c ∷ cs) =
    let rest = trim_ascii_end cs in if is_empty rest && is_space c then [] else c ∷ rest

-- `strip_suffix` of one byte
unfoldable pub strip_last : ℕ → Bytes → Bytes
strip_last b [] = []
strip_last b (c ∷ []) = if c == b then [] else c ∷ []
strip_last b (c ∷ d ∷ cs) = c ∷ strip_last b (d ∷ cs)

-- `str::lines`; `line` holds what is read of the current line.
unfoldable pub lines_loop : Bytes → Bytes → List Bytes
lines_loop line [] = if is_empty line then [] else line ∷ []
lines_loop line (c ∷ cs) =
    let next = lines_loop [] cs in
    let more = lines_loop (line ++ c ∷ []) cs in if c == 10 then strip_last 13 line ∷ next else more

unfoldable pub lines : Bytes → List Bytes
lines = lines_loop []

abbrev pub starts_with : Bytes → Bytes → Bool
starts_with pattern' s =
    leb (length pattern') (length s) && bytes_eq (take (length pattern') s) pattern'

-- `str::find`
unfoldable pub find_from : ℕ → Bytes → Bytes → Option ℕ
find_from at pattern' [] = none
find_from at pattern' (c ∷ cs) =
    let later = find_from (at + 1) pattern' cs in
    if starts_with pattern' (c ∷ cs) then some at else later

unfoldable pub find : Bytes → Bytes → Option ℕ
find = find_from 0

-- `match_indices(pattern).count()`: matches do not overlap; `skip` bytes belong to the last one.
unfoldable pub count_matches : ℕ → Bytes → Bytes → ℕ
count_matches skip pattern' [] = 0
count_matches (suc skip) pattern' (c ∷ cs) = count_matches skip pattern' cs
count_matches zero pattern' (c ∷ cs) =
    let here = starts_with pattern' (c ∷ cs) in
    (if here then 1 else 0) + count_matches (if here then length pattern' - 1 else 0) pattern' cs

-- `str::split` at a byte; there is one segment at least.
unfoldable pub split_loop : ℕ → Bytes → Bytes → List Bytes
split_loop b segment [] = segment ∷ []
split_loop b segment (c ∷ cs) =
    let next = split_loop b [] cs in
    let more = split_loop b (segment ++ c ∷ []) cs in if c == b then segment ∷ next else more

unfoldable pub split : ℕ → Bytes → List Bytes
split b = split_loop b []

-- `str::split_once` at a byte
unfoldable pub split_once : ℕ → Bytes → Bytes → Option (Bytes × Bytes)
split_once b before [] = none
split_once b before (c ∷ cs) =
    let more = split_once b (before ++ c ∷ []) cs in if c == b then some (before, cs) else more

-- The digits of a u32, most significant first; `none` on another byte or on overflow.
unfoldable pub decimal_loop : ℕ → Bytes → Option ℕ
decimal_loop acc [] = some acc
decimal_loop acc (c ∷ cs) =
    let more = decimal_loop (acc * 10 + (c - b'0')) cs in
    if within b'0' b'9' c && ltb (acc * 10 + (c - b'0')) (2 ^ 32) then more else none

unfoldable pub unsigned_digits : Bytes → Option ℕ
unsigned_digits [] = none
unsigned_digits (c ∷ cs) = decimal_loop 0 (c ∷ cs)

-- `u32::from_str`, which takes a leading `+`.
unfoldable pub u32_from_str : Bytes → Option ℕ
u32_from_str [] = none
u32_from_str (c ∷ cs) = if c == b'+' then unsigned_digits cs else unsigned_digits (c ∷ cs)

-- What a lead byte asks for: the continuation bytes, and the range of the first of them.
abbrev lead : ℕ → Option (ℕ × ℕ × ℕ)
lead c =
    if ltb c 0x80
    then some (0, 0, 0)
    else if within 0xc2 0xdf c
    then some (1, 0x80, 0xbf)
    else if c == 0xe0
    then some (2, 0xa0, 0xbf)
    else if c == 0xed
    then some (2, 0x80, 0x9f)
    else if within 0xe1 0xef c
    then some (2, 0x80, 0xbf)
    else if c == 0xf0
    then some (3, 0x90, 0xbf)
    else if within 0xf1 0xf3 c
    then some (3, 0x80, 0xbf)
    else if c == 0xf4
    then some (3, 0x80, 0x8f)
    else none

abbrev when_lead : Option (ℕ × ℕ × ℕ) → (ℕ → ℕ → ℕ → Bool) → Bool
when_lead none f = false
when_lead (some (need, lo, hi)) f = f need lo hi

-- `String::from_utf8` succeeds: `need` continuation bytes are due, the next between `lo` and `hi`.
unfoldable pub utf8_loop : ℕ → ℕ → ℕ → Bytes → Bool
utf8_loop zero lo hi [] = true
utf8_loop (suc need) lo hi [] = false
utf8_loop zero lo hi (c ∷ cs) = when_lead (lead c) (λ need lo' hi'. utf8_loop need lo' hi' cs)
utf8_loop (suc need) lo hi (c ∷ cs) =
    let more = utf8_loop need 0x80 0xbf cs in within lo hi c && more

unfoldable pub is_utf8 : Bytes → Bool
is_utf8 = utf8_loop 0 0 0
