-- ===== src/Zone/RoundTrip.antt =====
-- The forward names of a configuration that was read, and the way back from a PTR answer.
use mathlib.Core.Path.{subst}
use panopti_dns.Prelude.{
  ℕ, zero, suc, ◌/◌, ◌%◌, ◌^◌, ◌≤◌, ◌<◌, ◌≡◌, refl, ap, min, Bool, true, false, ◌&&◌, some, List,
  [], ◌∷◌, ◌++◌, map, arith, ◌==◌, length, length-replicate, replicate, All, All-find_first,
}
use panopti_dns.Bytes.{Bytes, codes, bytes_eq}
use panopti_dns.Hickory.{
  Hickory, IsDocumented, Result, ok, err, IsLabel, wire_length, same_labels, ptr, ptr_data,
  label_count,
}
use panopti_dns.Nibble.{dash_group}
use panopti_dns.Nibble.Hex.{digit_of}
use panopti_dns.Nibble.Digits.{fixed, length-fixed}
use panopti_dns.Nibble.Ptr.{ptr_labels}
use panopti_dns.Config.{
  FwdLabel, literal, digits, FwdTemplate, Zone, Config, render_label, render, absolute,
}
use panopti_dns.Config.Compile.{AddressText}
use panopti_dns.Config.Zones.{parse_config}
use panopti_dns.Config.Order.{parse_config-IsLongestFirst}
use panopti_dns.Config.Template.{IsAccepted}
use panopti_dns.Config.Networks.{IsNetwork, HasNetwork}
use panopti_dns.Zone.{answer, zone_for_addr, match_zone_forward, resolve}
use panopti_dns.Zone.Forward.{rendered_labels}
use panopti_dns.Zone.Widths.{render_label-IsLabel, wire_length-render_label}
use panopti_dns.Zone.Reverse.{resolve_reverse}
use panopti_dns.Zone.Compiled.{IsCompiled, is_plain, IsCompiled-IsServable, parse_config-IsCompiled}

digit_ne_star : (v : ℕ) → digit_of v == b'*' ≡ false
digit_ne_star v = ground arith

-- The first of the digits.
fixed-first : (n v : ℕ) → (d : ℕ) × (rest : Bytes) × (fixed (suc n) v ≡ digit_of d ∷ rest)
unfolding fixed
fixed-first zero v = (v % 16, [], refl)
fixed-first (suc n) v =
    let (d, rest, e) = fixed-first n (v / 16) in
    (d, rest ++ digit_of (v % 16) ∷ [], ap (λ (t : Bytes). t ++ digit_of (v % 16) ∷ []) e)

and_no : (b : Bool) → (b && false) ≡ false
and_no true = refl
and_no false = refl

with_digit :
    (pre rest : Bytes) (c : ℕ) → c == b'*' ≡ false → bytes_eq (pre ++ c ∷ rest) (codes "*") ≡ false
with_digit [] rest c e = rw e refl
with_digit (p ∷ []) rest c e = and_no (p == b'*')
with_digit (p ∷ q ∷ pre) rest c e = and_no (p == b'*')

pub render_label-plain :
    (n v : ℕ) (l : FwdLabel)
    → 1 ≤ n
    → is_plain (l ∷ []) ≡ true
    → bytes_eq (render_label (fixed n v) l) (codes "*") ≡ false
unfolding render_label dash_group
render_label-plain n v (literal verbatim lower) pos plain = ground arith
render_label-plain zero v (digits pre pre_lower post post_lower dashed) pos plain =
    absurd (omega arith)
render_label-plain (suc n) v (digits pre pre_lower post post_lower true) pos plain =
    let (d, rest, e) = fixed-first n v in rw e (with_digit pre _ (digit_of d) (digit_ne_star d))
render_label-plain (suc n) v (digits pre pre_lower post post_lower false) pos plain =
    let (d, rest, e) = fixed-first n v in rw e (with_digit pre _ (digit_of d) (digit_ne_star d))

rendered-plain :
    (n v : ℕ) (ls : List FwdLabel)
    → 1 ≤ n
    → is_plain ls ≡ true
    → label_count (map (render_label (fixed n v)) ls) ≡ length (map (render_label (fixed n v)) ls)
rendered-plain n v [] pos plain = refl
rendered-plain n v (l ∷ ls) pos plain =
    rw (render_label-plain n v l pos (first_plain l ls plain)) refl
  where
    first_plain :
        (l : FwdLabel) (ls : List FwdLabel) → is_plain (l ∷ ls) ≡ true → is_plain (l ∷ []) ≡ true
    first_plain (literal a b) ls p = p
    first_plain (digits a b c d e) ls p = p

module _ (h : Hickory) (doc : IsDocumented h) where
  render-legal :
      (t : FwdTemplate) (ds : Bytes) (name : h.Name)
      → render h t ds ≡ ok name
      → All IsLabel (map (render_label ds) t.labels)
        × (wire_length (map (render_label ds) t.labels) ≤ 254)
  unfolding render absolute
  render-legal t ds name e = by_result (h.from_labels (map (render_label ds) t.labels)) refl e
    where
      by_result :
          (r : Result h.Name h.ProtoError)
          → h.from_labels (map (render_label ds) t.labels) ≡ r
          → absolute h r ≡ ok name
          → All IsLabel (map (render_label ds) t.labels)
            × (wire_length (map (render_label ds) t.labels) ≤ 254)
      by_result (ok made) built e = doc.from_labels_legal _ made built
      by_result (err x) built e = cc

  -- A template accepted for the widest digits is legal for the digits of every address.
  IsCompiled-legal :
      (z : Zone h.Name) (addr : ℕ)
      → IsCompiled h z
      → All IsLabel (rendered_labels z addr) × (wire_length (rendered_labels z addr) ≤ 254)
  unfolding IsAccepted HasNetwork IsNetwork
  IsCompiled-legal z addr
        (
          ((aligned, low, high, masked), width),
          (dashed_used, labels, placed, one, whole, w, made),
        ) =
      let widest = replicate (min z.host_nibbles 32) b'f' in
      let own = fixed z.host_nibbles (addr % 16 ^ z.host_nibbles) in
      let same : length widest ≡ length own = omega (
        arith,
        length-replicate {A = ℕ} (min z.host_nibbles 32) b'f',
        length-fixed z.host_nibbles (addr % 16 ^ z.host_nibbles),
      ) in
      let (legal, short) = render-legal z.fwd widest w made in
      (
        render_label-IsLabel widest own z.fwd.labels same legal,
        subst (λ k. k ≤ 254) (wire_length-render_label widest own z.fwd.labels same) short,
      )

  compiled_plain :
      (z : Zone h.Name) (addr : ℕ)
      → IsCompiled h z
      → is_plain z.fwd.labels ≡ true
      → label_count (rendered_labels z addr) ≡ length (rendered_labels z addr)
  unfolding HasNetwork IsNetwork
  compiled_plain z addr (((aligned, low, high, masked), width), accepted) plain =
      rendered-plain z.host_nibbles (addr % 16 ^ z.host_nibbles) z.fwd.labels (omega arith) plain

  -- If a configuration is read without an error: for the reverse name of an address below 2 ^ 128, in
  -- any case, that is in one of its zones, a PTR query is answered with one record, owned by the name
  -- that was asked for, and the zone's template maps its target back to the address, unless the first
  -- label of the template is a literal `*`.
  pub parse_config-round_trip :
      (text : AddressText) (lossy : Bytes → Bytes) (input : Bytes) (config : Config h.Name)
      (z : Zone h.Name) (qname : h.Name) (addr : ℕ)
      → parse_config h text lossy input ≡ ok config
      → addr < 2 ^ 128
      → same_labels (h.iter qname) (ptr_labels addr) ≡ true
      → zone_for_addr h config addr ≡ some z
      → is_plain z.fwd.labels ≡ true
      → (target : h.Name) × (resolve h config qname ptr
          ≡ answer z (h.from_rdata qname z.ttl (ptr_data target) ∷ []))
        × (match_zone_forward h z target ≡ some addr)
  unfolding zone_for_addr
  parse_config-round_trip text lossy input config z qname addr read below reverse chosen plain =
      let compiled =
        All-find_first (IsCompiled h) _ config.zones z
          (parse_config-IsCompiled h text lossy input config read) chosen in
      let (legal, short) = IsCompiled-legal z addr compiled in
      resolve_reverse h doc config z qname addr below reverse
        (parse_config-IsLongestFirst h text lossy input config read) chosen
        (IsCompiled-IsServable h doc z compiled) legal short (compiled_plain z addr compiled plain)
