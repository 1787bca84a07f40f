-- ===== src/Config/Networks.antt =====
-- The network of every zone that a configuration is read with.
use panopti_dns.Prelude.{ℕ, ◌-◌, ◌/◌, ◌%◌, ◌<◌, ◌≡◌, bit_and, some, List, arith, All}
use panopti_dns.Bytes.{Bytes}
use panopti_dns.Hickory.{Hickory, ok}
use panopti_dns.Nibble.{mask_bits}
use panopti_dns.Config.{Zone, Config}
use panopti_dns.Config.Error.{ConfigError, RawValue}
use panopti_dns.Config.Parse.{RawZone}
use panopti_dns.Config.Compile.{AddressText, compile_network}
use panopti_dns.Config.Zones.{Seen, compile_zone, parse_config}
use panopti_dns.Config.Order.{parse_config-All}

-- A network of whole nibbles, from /4 to /124, with no host bits.
unfoldable pub IsNetwork : ℕ → ℕ → Type 0
IsNetwork prefix mask =
    (mask % 4 ≡ 0) × (0 < mask) × (mask < 128) × (bit_and prefix (mask_bits mask) ≡ prefix)

unfoldable pub HasNetwork : {Name : Type 0} → Zone Name → Type 0
HasNetwork z = IsNetwork z.prefix z.mask × (z.host_nibbles ≡ (128 - z.mask) / 4)

compile_network-IsNetwork :
    (text : AddressText) (v : RawValue) (errors : List ConfigError) (prefix mask : ℕ)
    → (compile_network text v errors).0 ≡ some (prefix, mask)
    → IsNetwork prefix mask
unfolding compile_network IsNetwork
compile_network-IsNetwork text v errors prefix mask e =
    (ground arith, ground arith, ground arith, ground arith)

module _ (h : Hickory) (text : AddressText) where
  pub compile_zone-HasNetwork :
      (seen seen' : Seen) (raw : RawZone) (errors : List ConfigError) (z : Zone h.Name)
      → (compile_zone h text seen raw errors).0 ≡ some (z, seen')
      → HasNetwork z
  unfolding compile_zone HasNetwork IsNetwork
  compile_zone-HasNetwork seen seen' raw errors z e =
      ground (arith, compile_network-IsNetwork text raw.network errors z.prefix z.mask)

  -- Every zone of a configuration that was read has a network of whole nibbles, from /4 to /124, with
  -- no host bits in its prefix, and as many digits in its host parts as the network leaves nibbles.
  pub parse_config-HasNetwork :
      (lossy : Bytes → Bytes) (input : Bytes) (config : Config h.Name)
      → parse_config h text lossy input ≡ ok config
      → All HasNetwork config.zones
  unfolding HasNetwork
  parse_config-HasNetwork lossy input config e =
      parse_config-All h text HasNetwork
        (λ seen seen' raw errors z ttl made. compile_zone-HasNetwork seen seen' raw errors z made)
        lossy input config e
