-- ===== src/Config/Parse.antt =====
-- src/config/parse.rs: the lines of a configuration file as directives with their values.
use panopti_dns.Prelude.{
  ℕ, ◌+◌, ◌-◌, ◌^◌, min, max, Bool, true, false, not, ◌&&◌, Option, none, some, List, [], ◌∷◌, ◌++◌,
  ◌==◌, if◌then◌else◌, ◌>>=◌, length, is_empty, find_first, find_map,
}
use panopti_dns.Bytes.{Bytes, codes, eq_ignore_ascii_case, to_ascii_lowercase, split_at_checked}
use panopti_dns.Config.Error.{
  ConfigError, RawValue, error, not_utf8, unknown_directive, missing_value,
  directive_before_network, global_after_network, duplicate_directive,
}
use panopti_dns.Config.Text.{is_space, trim_ascii_start, trim_ascii_end, strip_last, lines, is_utf8}

pub record RawZone : Type 0 where
  pub network : RawValue
  pub resolves_to : Option RawValue
  pub upstream : Option RawValue

pub data GlobalKey : Type 0 where
  primary hostmaster ns ttl out_of_zone max_udp_payload upstream_timeout : GlobalKey
  rrl_off rrl_rps rrl_burst rrl_slip : GlobalKey

pub record RawGlobal : Type 0 where
  pub key : GlobalKey
  pub value : RawValue

pub record RawConfig : Type 0 where
  pub listen : List RawValue
  pub zones : List RawZone
  pub globals : List RawGlobal

pub data Scope : Type 0 where
  global_scope zone_scope anywhere : Scope

pub data Target : Type 0 where
  listen_target network_target resolves_to_target upstream_target : Target
  global_target : GlobalKey → Target

pub record Directive : Type 0 where
  pub words : List Bytes
  pub display : Bytes
  pub scope : Scope
  pub target : Target
  pub lowercase : Bool

abbrev directive : List Bytes → Bytes → Scope → Target → Bool → Directive
directive ws d s t l = record { words = ws; display = d; scope = s; target = t; lowercase = l }

abbrev one_word : Bytes → Scope → Target → Directive
one_word w s t = directive (w ∷ []) w s t true

unfoldable pub directives : List Directive
directives =
    directive (codes "resolves" ∷ codes "to" ∷ []) (codes "resolves to") zone_scope
      resolves_to_target false
    ∷ directive (codes "with" ∷ codes "upstream" ∷ []) (codes "with upstream") zone_scope
        upstream_target true
    ∷ directive (codes "rrl" ∷ codes "responses-per-second" ∷ []) (codes "rrl responses-per-second")
        global_scope (global_target rrl_rps) true
    ∷ directive (codes "rrl" ∷ codes "burst" ∷ []) (codes "rrl burst") global_scope
        (global_target rrl_burst) true
    ∷ directive (codes "rrl" ∷ codes "slip" ∷ []) (codes "rrl slip") global_scope
        (global_target rrl_slip) true
    ∷ one_word (codes "upstream-timeout") global_scope (global_target upstream_timeout)
    ∷ one_word (codes "max-udp-payload") global_scope (global_target max_udp_payload)
    ∷ one_word (codes "out-of-zone") global_scope (global_target out_of_zone)
    ∷ one_word (codes "hostmaster") global_scope (global_target hostmaster)
    ∷ one_word (codes "primary") global_scope (global_target primary)
    ∷ one_word (codes "network") anywhere network_target
    ∷ one_word (codes "listen") anywhere listen_target
    ∷ one_word (codes "ttl") global_scope (global_target ttl)
    ∷ one_word (codes "ns") global_scope (global_target ns)
    ∷ []

pub record Flag : Type 0 where
  pub words : List Bytes
  pub display : Bytes
  pub key : GlobalKey

unfoldable pub flags : List Flag
flags =
    record { words = codes "rrl" ∷ codes "off" ∷ []; display = codes "rrl off"; key = rrl_off } ∷ []

-- One keyword word at the front: what stands behind it.
unfoldable pub match_word : Bytes → Bytes → Option Bytes
match_word word rest = do
  (head, tail) ← split_at_checked rest (length word)
  if eq_ignore_ascii_case head word then some tail else none

-- The words after the first, each behind white space.
unfoldable pub match_more : List Bytes → ℕ → Bytes → Option (ℕ × Bytes)
match_more [] consumed rest = some (consumed, rest)
match_more (word ∷ words) consumed rest =
    let trimmed = trim_ascii_start rest in
    let more =
      match_word word trimmed
      >>= match_more words (consumed + (length rest - length trimmed) + length word) in
    if length trimmed == length rest then none else more

unfoldable pub match_words : Bytes → List Bytes → Option (ℕ × Bytes)
match_words line [] = some (0, line)
match_words line (word ∷ words) = match_word word line >>= match_more words (length word)

unfoldable pub strip_keyword : Bytes → List Bytes → Option (ℕ × Bytes)
strip_keyword line words = do
  (consumed, rest) ← match_words line words
  let trimmed = trim_ascii_start rest
  let value = trim_ascii_end trimmed
  if length trimmed == length rest
      then none
      else if is_empty value
      then none
      else some (consumed + (length rest - length trimmed), value)

abbrev pub is_blank_rest : Option (ℕ × Bytes) → Bool
is_blank_rest none = false
is_blank_rest (some (consumed, rest)) = is_empty (trim_ascii_end (trim_ascii_start rest))

unfoldable pub matches_flag : Bytes → List Bytes → Bool
matches_flag line words = is_blank_rest (match_words line words)

abbrev starts_blank : Bytes → Bool
starts_blank [] = true
starts_blank (c ∷ cs) = is_space c

unfoldable pub starts_with_word : Bytes → Bytes → Bool
starts_with_word line word = elim (split_at_checked line (length word)) [
  | some (head, tail) ↦ eq_ignore_ascii_case head word && starts_blank tail
  | none ↦ false
]

abbrev first_starts : Bytes → List Bytes → Bool
first_starts body [] = false
first_starts body (w ∷ ws) = starts_with_word body w

-- The display form of the first directive, then flag, whose first word begins the line.
unfoldable pub known_keyword : Bytes → Option Bytes
known_keyword body = elim (find_first (λ (d : Directive). first_starts body d.words) directives) [
  | some d ↦ some d.display
  | none ↦ (elim (find_first (λ (f : Flag). first_starts body f.words) flags) [
    | some f ↦ some f.display
    | none ↦ none
  ])
]

-- The line up to its first white space.
unfoldable pub first_word : Bytes → Bytes
first_word [] = []
first_word (c ∷ cs) = let rest = first_word cs in if is_space c then [] else c ∷ rest

-- `from_utf8_lossy` of the word is parameter `lossy`.
unfoldable pub unmatched_line_error : (Bytes → Bytes) → ℕ → Bytes → ℕ → Bytes → ConfigError
unmatched_line_error lossy line_no raw indent body = record {
  line = line_no;
  snippet = raw;
  span = some (indent, indent + max (length (first_word body)) 1);
  kind = elim (known_keyword body) [
    | some display ↦ missing_value display
    | none ↦ unknown_directive (lossy (first_word body))
  ];
}

-- What the parser has so far.
abbrev pub Parsed : Type 0
Parsed = RawConfig × List ConfigError

abbrev pub report : Parsed → ConfigError → Parsed
report (cfg, errors) e = (cfg, errors ++ e ∷ [])

abbrev pub key_eq : GlobalKey → GlobalKey → Bool
key_eq primary primary = true
key_eq hostmaster hostmaster = true
key_eq ns ns = true
key_eq ttl ttl = true
key_eq out_of_zone out_of_zone = true
key_eq max_udp_payload max_udp_payload = true
key_eq upstream_timeout upstream_timeout = true
key_eq rrl_off rrl_off = true
key_eq rrl_rps rrl_rps = true
key_eq rrl_burst rrl_burst = true
key_eq rrl_slip rrl_slip = true
key_eq _ _ = false

-- `zones.last_mut()`, changed by `f`
unfoldable pub change_last : (RawZone → RawZone) → List RawZone → List RawZone
change_last f [] = []
change_last f (z ∷ []) = f z ∷ []
change_last f (z ∷ y ∷ zs) = z ∷ change_last f (y ∷ zs)

unfoldable pub last_zone : List RawZone → Option RawZone
last_zone [] = none
last_zone (z ∷ []) = some z
last_zone (z ∷ y ∷ zs) = last_zone (y ∷ zs)

abbrev pub slot_of : Target → RawZone → Option RawValue
slot_of resolves_to_target z = z.resolves_to
slot_of _ z = z.upstream

abbrev pub fill_slot : Target → RawValue → RawZone → RawZone
fill_slot resolves_to_target v z = record z { resolves_to = some v }
fill_slot _ v z = record z { upstream = some v }

abbrev pub duplicate : Directive → RawValue → RawValue → ConfigError
duplicate d v first = error v (duplicate_directive d.display first.line)

unfoldable pub add_to_zone : Directive → RawValue → Parsed → Parsed
add_to_zone d v p = elim (last_zone p.0.zones) [
  | none ↦ p
  | some z ↦ (elim (slot_of d.target z) [
    | some first ↦ report p (duplicate d v first)
    | none ↦ (record (p.0) { zones = change_last (fill_slot d.target v) p.0.zones }, p.1)
  ])
]

abbrev pub push_global : GlobalKey → RawValue → Parsed → Parsed
push_global k v p =
    (record (p.0) { globals = p.0.globals ++ (record { key = k; value = v }) ∷ [] }, p.1)

unfoldable pub add_global : Directive → GlobalKey → RawValue → Parsed → Parsed
add_global d ns v p = push_global ns v p
add_global d k v p = elim (find_first (λ (g : RawGlobal). key_eq g.key k) p.0.globals) [
  | some first ↦ report p (duplicate d v first.value)
  | none ↦ push_global k v p
]

unfoldable pub add_value : Directive → Target → RawValue → Parsed → Parsed
add_value d listen_target v p = (record (p.0) { listen = p.0.listen ++ v ∷ [] }, p.1)
add_value d network_target v p = (
  record (p.0) {
    zones = p.0.zones ++ (record { network = v; resolves_to = none; upstream = none }) ∷ [];
  },
  p.1,
)
add_value d resolves_to_target v p = add_to_zone d v p
add_value d upstream_target v p = add_to_zone d v p
add_value d (global_target k) v p = add_global d k v p

-- The scope check, and what it lets through.
unfoldable pub apply_directive : Directive → Scope → RawValue → Parsed → Parsed
apply_directive d global_scope v p =
    if not (is_empty p.0.zones)
    then report p (error v (global_after_network d.display))
    else add_value d d.target v p
apply_directive d zone_scope v p =
    if is_empty p.0.zones
    then report p (error v (directive_before_network d.display))
    else add_value d d.target v p
apply_directive d anywhere v p = add_value d d.target v p

abbrev pub value_at : ℕ → Bytes → ℕ → Bytes → RawValue
value_at line_no raw start text = record {
  line = line_no;
  raw_line = raw;
  span = (start, start + length text);
  value = text;
}

unfoldable pub take_directive : ℕ → Bytes → ℕ → Directive → Bytes → Parsed → Parsed
take_directive line_no raw start d value p =
    if not (is_utf8 value)
    then report p
        (record { line = line_no; snippet = raw; span = some (start, length raw); kind = not_utf8 })
    else apply_directive d d.scope
        (value_at line_no raw start (if d.lowercase then to_ascii_lowercase value else value)) p

unfoldable pub take_flag : ℕ → Bytes → ℕ → Flag → Parsed → Parsed
take_flag line_no raw indent f p =
    let v : RawValue = record {
      line = line_no;
      raw_line = raw;
      span = (indent, length raw);
      value = [];
    } in
    if not (is_empty p.0.zones)
    then report p (error v (global_after_network f.display))
    else push_global f.key v p

-- The first directive whose keyword begins the line, with the offset and the value behind it.
unfoldable pub find_directive : Bytes → Option (Directive × ℕ × Bytes)
find_directive body =
    find_map (λ (d : Directive). strip_keyword body d.words >>= λ found. some (d, found.0, found.1))
      directives

unfoldable pub take_line : (Bytes → Bytes) → ℕ → Bytes → ℕ → Bytes → Parsed → Parsed
take_line lossy line_no raw indent body p =
    elim (find_first (λ (f : Flag). matches_flag body f.words) flags) [
      | some f ↦ take_flag line_no raw indent f p
      | none ↦ (elim (find_directive body) [
        | none ↦ report p (unmatched_line_error lossy line_no raw indent body)
        | some (d, offset, value) ↦ take_directive line_no raw (indent + offset) d value p
      ])
    ]

abbrev pub is_comment : Bytes → Bool
is_comment [] = true
is_comment (c ∷ cs) = c == b'#'

unfoldable pub parse_line : (Bytes → Bytes) → ℕ → Bytes → Parsed → Parsed
parse_line lossy line_no line p =
    let raw = strip_last 13 line in
    let body = trim_ascii_start raw in
    if is_comment body then p else take_line lossy line_no raw (length raw - length body) body p

unfoldable pub parse_lines : (Bytes → Bytes) → ℕ → List Bytes → Parsed → Parsed
parse_lines lossy idx [] p = p
parse_lines lossy idx (line ∷ rest) p =
    parse_lines lossy (idx + 1) rest (parse_line lossy (min (idx + 1) (2 ^ 32 - 1)) line p)

unfoldable pub parse : (Bytes → Bytes) → Bytes → Parsed
parse lossy input =
    parse_lines lossy 0 (lines input) (record { listen = []; zones = []; globals = [] }, [])
