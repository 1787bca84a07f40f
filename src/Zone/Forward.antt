-- ===== src/Zone/Forward.antt =====
-- Forward names: what `forward_name` produces, `match_zone_forward` maps back to its address.
use native.Mathlib.Nat.{mod-lt, one-le-pow, div-add-mod'}
use panopti_dns.Bits.{bit_or_disjoint, two-pow-pos}
use panopti_dns.Prelude.{
  ℕ, suc, ◌-◌, ◌*◌, ◌/◌, ◌%◌, ◌^◌, ◌≤◌, ◌<◌, ◌≡◌, refl, ap, ◌∙◌, ◌⊎◌, inl, inr, bit_and, bit_or,
  Bool, true, false, not, Option, none, some, List, [], ◌∷◌, ◌++◌, map, arith, ◌==◌, ==_iff,
  if◌then◌else◌, length, length-map, All,
}
use panopti_dns.Bytes.{Bytes, to_ascii_lowercase}
use panopti_dns.Hickory.{Hickory, IsDocumented, Result, ok, err, IsLabel, wire_length}
use panopti_dns.Hickory
use panopti_dns.Nibble.{mask_bits, dash_group, undash_group}
use panopti_dns.Nibble.Mask.{host_bits, and-mask_bits}
use panopti_dns.Nibble.Dash.{undash_group-dash_group}
use panopti_dns.Nibble.Digits.{
  fixed, length-fixed, host_digits-fixed, digits_to_host_exact, fixed-lowercase, two_pow_nibbles,
}
use panopti_dns.Config.{
  FwdLabel, literal, digits, Zone, label_count, render_label, absolute, render,
}
use panopti_dns.Zone.{host_of, match_label, match_labels, match_zone_forward, forward_name}
use panopti_dns.Zone.Strip.{eq_lowercase, strip_prefix_ci-append, strip_suffix_ci-append}

-- A label as `compile_template` makes it, for host parts of `n` digits.
unfoldable pub IsTemplateLabel : ℕ → FwdLabel → Type 0
IsTemplateLabel n (literal verbatim lower) = lower ≡ to_ascii_lowercase verbatim
IsTemplateLabel n (digits pre pre_lower post post_lower dashed) =
    (pre_lower ≡ to_ascii_lowercase pre)
    × (post_lower ≡ to_ascii_lowercase post)
    × (dashed ≡ true → (groups : ℕ) × (n ≡ 4 * suc groups))

abbrev pub has_digits : List FwdLabel → Bool
has_digits [] = false
has_digits (literal verbatim lower ∷ ls) = has_digits ls
has_digits (digits pre pre_lower post post_lower dashed ∷ ls) = true

-- One label at most has digits.
abbrev pub has_one : List FwdLabel → Bool
has_one [] = true
has_one (literal verbatim lower ∷ ls) = has_one ls
has_one (digits pre pre_lower post post_lower dashed ∷ ls) = not (has_digits ls)

host_of-rendered :
    (n v : ℕ) (dashed : Bool)
    → n ≤ 32
    → v < 16 ^ n
    → (dashed ≡ true → (groups : ℕ) × (n ≡ 4 * suc groups))
    → host_of n dashed (if dashed then dash_group (fixed n v) else fixed n v) ≡ some v
unfolding host_of
host_of-rendered n v false small below group =
    (digits_to_host_exact (fixed n v) n v small).1 (below, fixed-lowercase n v)
host_of-rendered n v true small below group =
    let (groups, e) = group refl in
    let undashed : undash_group (dash_group (fixed n v)) n ≡ some (fixed n v) =
      rw (length-fixed n v) at
        (undash_group-dash_group (fixed n v) groups (length-fixed n v ∙ e)) in
    rw undashed ((digits_to_host_exact (fixed n v) n v small).1 (below, fixed-lowercase n v))

match_label-rendered :
    (n v : ℕ) (l : FwdLabel) (host : Option ℕ)
    → n ≤ 32
    → v < 16 ^ n
    → IsTemplateLabel n l
    → match_label n (render_label (fixed n v) l) l host
      ≡ some (if has_digits (l ∷ []) then some v else host)
unfolding match_label render_label IsTemplateLabel
match_label-rendered n v (literal verbatim lower) host small below e =
    rw (e, eq_lowercase verbatim) refl
match_label-rendered n v (digits pre pre_lower post post_lower dashed) host small below
      (e, e', group) =
    let middle : Bytes = if dashed then dash_group (fixed n v) else fixed n v in
    rw
      (
        e,
        e',
        strip_prefix_ci-append pre (middle ++ post),
        strip_suffix_ci-append middle post,
        host_of-rendered n v dashed small below group,
      )
      refl

match_labels-rendered :
    (n v : ℕ) (ls : List FwdLabel) (host : Option ℕ)
    → n ≤ 32
    → v < 16 ^ n
    → All (IsTemplateLabel n) ls
    → (has_digits ls ≡ true) ⊎ (host ≡ some v)
    → match_labels n (map (render_label (fixed n v)) ls) ls host ≡ some (some v)
unfolding match_labels
match_labels-rendered n v [] host small below all (inl never) = cc
match_labels-rendered n v [] host small below all (inr known) = ap some known
match_labels-rendered n v (l ∷ ls) host small below (one, all) known =
    rw (match_label-rendered n v l host small below one) (
      match_labels-rendered n v ls (if has_digits (l ∷ []) then some v else host) small below all
        (later l known))
  where
    later :
        (x : FwdLabel)
        → (has_digits (x ∷ ls) ≡ true) ⊎ (host ≡ some v)
        → (has_digits ls ≡ true) ⊎ ((if has_digits (x ∷ []) then some v else host) ≡ some v)
    later (literal verbatim lower) k = k
    later (digits pre pre_lower post post_lower dashed) k = inr refl

-- The host part and the network part of an address, put together.
network_or_host :
    (n addr : ℕ)
    → n ≤ 32
    → addr < 2 ^ 128
    → bit_or (bit_and addr (mask_bits (128 - 4 * n))) (addr % 16 ^ n) ≡ addr
network_or_host n addr small below =
    let k = n * 4 in
    let bits : host_bits (128 - 4 * n) ≡ n * 4 = omega arith in
    rw (and-mask_bits (128 - 4 * n) addr (omega arith) below, bits, ← two_pow_nibbles n)
      (bit_or_disjoint k (addr / 2 ^ k) (addr % 2 ^ k) (mod-lt addr (two-pow-pos k))
        ∙ div-add-mod' addr (2 ^ k))

-- A zone as `compile_zone` makes it: a network of whole nibbles, and a template for its host parts
-- with the placeholder in it.
unfoldable pub IsServable : {Name : Type 0} → Zone Name → Type 0
IsServable z =
    (z.host_nibbles ≤ 32)
    × (z.mask ≡ 128 - 4 * z.host_nibbles)
    × All (IsTemplateLabel z.host_nibbles) z.fwd.labels
    × (has_digits z.fwd.labels ≡ true)

-- The labels of the forward name of an address in a zone.
abbrev pub rendered_labels : {Name : Type 0} → Zone Name → ℕ → List Bytes
rendered_labels z addr =
    map (render_label (fixed z.host_nibbles (addr % 16 ^ z.host_nibbles))) z.fwd.labels

module _ (h : Hickory) (doc : IsDocumented h) where
  match_zone_forward-rendered :
      (z : Zone h.Name) (name : h.Name) (addr : ℕ)
      → IsServable z
      → addr < 2 ^ 128
      → bit_and addr (mask_bits z.mask) ≡ z.prefix
      → h.iter name ≡ rendered_labels z addr
      → Hickory.label_count (rendered_labels z addr) ≡ length (rendered_labels z addr)
      → match_zone_forward h z name ≡ some addr
  unfolding match_zone_forward IsServable
  match_zone_forward-rendered z name addr (small, masked, labels, placed) below inside named plain =
      let n = z.host_nibbles in
      let host = addr % 16 ^ n in
      let counted : h.num_labels name ≡ label_count z.fwd =
        doc.num_labels_lem name
        ∙ ap Hickory.label_count named
        ∙ plain
        ∙ length-map z.fwd.labels (render_label (fixed n host)) in
      let matched : match_labels n (h.iter name) z.fwd.labels none ≡ some (some host) = rw named (
        match_labels-rendered n host z.fwd.labels none small
          (mod-lt addr (one-le-pow n 16 (omega arith))) labels (inl placed)) in
      let whole : bit_or z.prefix host ≡ addr =
        rw (← inside, masked) (network_or_host n addr small below) in
      let same : (h.num_labels name == label_count z.fwd) ≡ true = (==_iff _ _).1 counted in
      rw (same, matched) (ap some whole)

  -- For a zone with at most 32 host nibbles, a prefix of the other nibbles, and a template as the
  -- compiler makes it, with a placeholder, and for an address in its network: if the labels of its forward name are of legal lengths
  -- and the first is not `*`, `forward_name` produces that name, and `match_zone_forward` maps the
  -- name back to the address.
  pub forward_round_trip :
      (z : Zone h.Name) (addr : ℕ)
      → IsServable z
      → addr < 2 ^ 128
      → bit_and addr (mask_bits z.mask) ≡ z.prefix
      → All IsLabel (rendered_labels z addr)
      → wire_length (rendered_labels z addr) ≤ 254
      → Hickory.label_count (rendered_labels z addr) ≡ length (rendered_labels z addr)
      → (name : h.Name) × (forward_name h z addr ≡ some name)
        × (match_zone_forward h z name ≡ some addr)
  unfolding forward_name render absolute IsServable
  forward_round_trip z addr servable below inside legal short plain =
      let n = z.host_nibbles in
      let (name, made) = doc.from_labels_total (rendered_labels z addr) legal short in
      let absolute_name = h.set_fqdn name true in
      let named =
        doc.iter-set_fqdn name true ∙ doc.iter-from_labels (rendered_labels z addr) name made in
      (
        absolute_name,
        rw (host_digits-fixed addr n servable.0, made) refl,
        match_zone_forward-rendered z absolute_name addr servable below inside named plain,
      )
