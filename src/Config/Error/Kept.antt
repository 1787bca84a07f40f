-- ===== src/Config/Error/Kept.antt =====
-- What the parser keeps stands in its lines, whatever directive it takes next.
use panopti_dns.Prelude.{
  ◌≡◌, refl, not, Bool, true, false, Option, none, some, List, [], ◌∷◌, length, length-map, All,
  All-append, inl, inr, Option-cases, if◌then◌else◌, is_empty,
}
use panopti_dns.Bytes.{Bytes, to_ascii_lowercase}
use panopti_dns.Config.Error.{ConfigError, RawValue}
use panopti_dns.Config.Error.Located.{IsLocated, IsPlaced, error-IsLocated, All-snoc}
use panopti_dns.Config.Error.Settings.{IsPlacedZone, IsPlacedGlobal, IsPlacedConfig}
use panopti_dns.Config.Parse.{
  RawZone, RawGlobal, GlobalKey, primary, hostmaster, ns, ttl, out_of_zone, max_udp_payload,
  upstream_timeout, rrl_off, rrl_rps, rrl_burst, rrl_slip, duplicate, Target, listen_target,
  network_target, resolves_to_target, upstream_target, global_target, Scope, global_scope,
  zone_scope, anywhere, Directive, Parsed, fill_slot, change_last, last_zone, slot_of, push_global,
  add_to_zone, add_global, add_value, apply_directive, report,
}

-- What is read stands in its lines, and so do the errors.
abbrev pub IsSound : Parsed → Type 0
IsSound p = IsPlacedConfig p.0 × All IsLocated p.1

pub report-IsSound : (p : Parsed) (e : ConfigError) → IsSound p → IsLocated e → IsSound (report p e)
report-IsSound p e (placed, all) fine = (placed, All-snoc p.1 e all fine)

pub push_global-IsSound :
    (k : GlobalKey) (v : RawValue) (p : Parsed)
    → IsPlaced v
    → IsSound p
    → IsSound (push_global k v p)
push_global-IsSound k v p one ((listen, globals, zones), all) =
    ((listen, All-append IsPlacedGlobal p.0.globals _ globals (one, tt), zones), all)

fill_slot-IsPlacedZone :
    (t : Target) (v : RawValue) (z : RawZone)
    → IsPlaced v
    → IsPlacedZone z
    → IsPlacedZone (fill_slot t v z)
fill_slot-IsPlacedZone listen_target v z one (a, b, c) = (a, b, one)
fill_slot-IsPlacedZone network_target v z one (a, b, c) = (a, b, one)
fill_slot-IsPlacedZone resolves_to_target v z one (a, b, c) = (a, one, c)
fill_slot-IsPlacedZone upstream_target v z one (a, b, c) = (a, b, one)
fill_slot-IsPlacedZone (global_target k) v z one (a, b, c) = (a, b, one)

change_last-All :
    (P : RawZone → Type 0) (f : RawZone → RawZone) (zs : List RawZone)
    → ((z : RawZone) → P z → P (f z))
    → All P zs
    → All P (change_last f zs)
unfolding change_last
change_last-All P f [] keeps all = tt
change_last-All P f (z ∷ []) keeps (one, all) = (keeps z one, tt)
change_last-All P f (z ∷ y ∷ zs) keeps (one, all) = (one, change_last-All P f (y ∷ zs) keeps all)

by_first :
    (d : Directive) (k : GlobalKey) (v : RawValue) (p : Parsed)
    → IsPlaced v
    → IsSound p
    → (o : Option RawGlobal)
    → IsSound
        (elim o [ some first ↦ report p (duplicate d v first.value) | none ↦ push_global k v p ])
by_first d k v p one sound none = push_global-IsSound k v p one sound
by_first d k v p one sound (some first) = report-IsSound p _ sound (error-IsLocated v _ one)

add_to_zone-IsSound :
    (d : Directive) (v : RawValue) (p : Parsed)
    → IsPlaced v
    → IsSound p
    → IsSound (add_to_zone d v p)
add_to_zone-IsSound d v p one sound = elim (Option-cases (last_zone p.0.zones)) [
  | inl absent ↦ unfold add_to_zone in rw (add_to_zone, absent) sound
  | inr z ↦ (elim (Option-cases (slot_of d.target z.0)) [
    | inr taken ↦
        unfold add_to_zone in
        rw (add_to_zone, z.1, taken.1) (report-IsSound p _ sound (error-IsLocated v _ one))
    | inl free ↦
        unfold add_to_zone in
        rw (add_to_zone, z.1, free)
          (
            (
              sound.0.0,
              sound.0.1,
              change_last-All IsPlacedZone (fill_slot d.target v) p.0.zones
                  (λ y. fill_slot-IsPlacedZone d.target v y one) sound.0.2,
            ),
            sound.1,
          )
  ])
]

add_global-IsSound :
    (d : Directive) (k : GlobalKey) (v : RawValue) (p : Parsed)
    → IsPlaced v
    → IsSound p
    → IsSound (add_global d k v p)
unfolding add_global
add_global-IsSound d ns v p one sound = push_global-IsSound ns v p one sound
add_global-IsSound d primary v p one sound = by_first d primary v p one sound _
add_global-IsSound d hostmaster v p one sound = by_first d hostmaster v p one sound _
add_global-IsSound d ttl v p one sound = by_first d ttl v p one sound _
add_global-IsSound d out_of_zone v p one sound = by_first d out_of_zone v p one sound _
add_global-IsSound d max_udp_payload v p one sound = by_first d max_udp_payload v p one sound _
add_global-IsSound d upstream_timeout v p one sound = by_first d upstream_timeout v p one sound _
add_global-IsSound d rrl_off v p one sound = by_first d rrl_off v p one sound _
add_global-IsSound d rrl_rps v p one sound = by_first d rrl_rps v p one sound _
add_global-IsSound d rrl_burst v p one sound = by_first d rrl_burst v p one sound _
add_global-IsSound d rrl_slip v p one sound = by_first d rrl_slip v p one sound _

add_value-IsSound :
    (d : Directive) (t : Target) (v : RawValue) (p : Parsed)
    → IsPlaced v
    → IsSound p
    → IsSound (add_value d t v p)
unfolding add_value
add_value-IsSound d listen_target v p one ((listen, globals, zones), all) =
    ((All-append IsPlaced p.0.listen _ listen (one, tt), globals, zones), all)
add_value-IsSound d network_target v p one ((listen, globals, zones), all) =
    ((listen, globals, All-append IsPlacedZone p.0.zones _ zones ((one, tt, tt), tt)), all)
add_value-IsSound d resolves_to_target v p one sound = add_to_zone-IsSound d v p one sound
add_value-IsSound d upstream_target v p one sound = add_to_zone-IsSound d v p one sound
add_value-IsSound d (global_target k) v p one sound = add_global-IsSound d k v p one sound

pub if-IsSound : (b : Bool) (p q : Parsed) → IsSound p → IsSound q → IsSound (if b then p else q)
if-IsSound true p q hp hq = hp
if-IsSound false p q hp hq = hq

pub apply_directive-IsSound :
    (d : Directive) (s : Scope) (v : RawValue) (p : Parsed)
    → IsPlaced v
    → IsSound p
    → IsSound (apply_directive d s v p)
unfolding apply_directive
apply_directive-IsSound d global_scope v p one sound =
    if-IsSound (not (is_empty p.0.zones)) _ _ (report-IsSound p _ sound (error-IsLocated v _ one))
      (add_value-IsSound d d.target v p one sound)
apply_directive-IsSound d zone_scope v p one sound =
    if-IsSound (is_empty p.0.zones) _ _ (report-IsSound p _ sound (error-IsLocated v _ one))
      (add_value-IsSound d d.target v p one sound)
apply_directive-IsSound d anywhere v p one sound = add_value-IsSound d d.target v p one sound

pub lowered_length :
    (b : Bool) (value : Bytes)
    → length (if b then to_ascii_lowercase value else value) ≡ length value
lowered_length true value = length-map value _
lowered_length false value = refl
