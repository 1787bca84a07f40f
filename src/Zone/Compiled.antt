-- ===== src/Zone/Compiled.antt =====
-- Every zone of a configuration that was read: its template, and its forward names.
use native.Mathlib.Nat.{div-add-mod}
use panopti_dns.Prelude.{
  ℕ, suc, ◌-◌, ◌*◌, ◌/◌, ◌%◌, ◌≤◌, ◌≡◌, Bool, true, not, some, List, [], ◌∷◌, arith, All,
  All-implies, inl, inr, Option-cases,
}
use panopti_dns.Bytes.{Bytes, codes, bytes_eq}
use panopti_dns.Hickory.{Hickory, IsDocumented, ok}
use panopti_dns.Config.{FwdLabel, literal, digits, Zone, Config}
use panopti_dns.Config.Error.{ConfigError}
use panopti_dns.Config.Parse.{RawZone}
use panopti_dns.Config.Compile.{AddressText, compile_network}
use panopti_dns.Config.Zones.{Seen, compile_zone, parse_config}
use panopti_dns.Config.Order.{parse_config-All}
use panopti_dns.Config.Networks.{IsNetwork, HasNetwork, compile_zone-HasNetwork}
use panopti_dns.Config.Template.{IsCompiledLabel, IsAccepted, compile_template-IsAccepted}
use panopti_dns.Zone.Forward.{IsTemplateLabel, IsServable}

-- A network of whole nibbles, and a template that was accepted for its host parts.
abbrev pub IsCompiled : (h : Hickory) → Zone h.Name → Type 0
IsCompiled h z = HasNetwork z × IsAccepted h z.host_nibbles z.fwd

module _ (h : Hickory) (text : AddressText) where
  compile_zone-IsCompiled :
      (seen seen' : Seen) (raw : RawZone) (errors : List ConfigError) (z : Zone h.Name)
      → (compile_zone h text seen raw errors).0 ≡ some (z, seen')
      → IsCompiled h z
  unfolding compile_zone IsAccepted
  compile_zone-IsCompiled seen seen' raw errors z e = (
    compile_zone-HasNetwork h text seen seen' raw errors z e,
    elim (Option-cases raw.resolves_to) [
      | inl missing ↦ ground arith
      | inr given ↦
          compile_template-IsAccepted h given.0 z.host_nibbles
            (compile_network text raw.network errors).1 z.fwd (ground arith)
    ],
  )

  pub parse_config-IsCompiled :
      (lossy : Bytes → Bytes) (input : Bytes) (config : Config h.Name)
      → parse_config h text lossy input ≡ ok config
      → All (IsCompiled h) config.zones
  unfolding HasNetwork IsAccepted
  parse_config-IsCompiled lossy input config e =
      parse_config-All h text (IsCompiled h)
        (λ seen seen' raw errors z ttl made. compile_zone-IsCompiled seen seen' raw errors z made)
        lossy input config e

-- Labels of which the first is not a literal `*`.
abbrev pub is_plain : List FwdLabel → Bool
is_plain [] = true
is_plain (literal verbatim lower ∷ ls) = not (bytes_eq verbatim (codes "*"))
is_plain (digits pre pre_lower post post_lower dashed ∷ ls) = true

groups_of_four : (n : ℕ) → n % 4 ≡ 0 → 1 ≤ n → (groups : ℕ) × (n ≡ 4 * suc groups)
groups_of_four n whole pos = (n / 4 - 1, omega (arith, div-add-mod n 4))

module _ (h : Hickory) (doc : IsDocumented h) where
  pub IsCompiled-IsServable : (z : Zone h.Name) → IsCompiled h z → IsServable z
  unfolding IsServable HasNetwork IsNetwork IsAccepted IsCompiledLabel IsTemplateLabel
  IsCompiled-IsServable z
        (
          ((aligned, low, high, masked), width),
          (dashed_used, labels, placed, one, whole, w, made),
        ) =
      (
        omega arith,
        omega (arith, div-add-mod z.mask 4),
        All-implies (IsCompiledLabel dashed_used) (IsTemplateLabel z.host_nibbles) as_template
            z.fwd.labels labels,
        placed,
      )
    where
      as_template :
          (l : FwdLabel) → IsCompiledLabel dashed_used l → IsTemplateLabel z.host_nibbles l
      as_template (literal v l) lowered = lowered
      as_template (digits p q r s t) (a, b, c) = (
        a,
        b,
        λ d. groups_of_four z.host_nibbles (whole (c d)) (omega (arith, div-add-mod z.mask 4)),
      )
