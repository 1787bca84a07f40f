-- ===== src/Tasks/Fresh.antt =====
-- The clients of zones that were just loaded.
use panopti_dns.Prelude.{◌≡◌, inl, inr, arith, Option-cases}
use panopti_dns.Bytes.{Bytes}
use panopti_dns.Hickory.{Hickory, ok, Result-cases}
use panopti_dns.Config.{IpAddr, Config}
use panopti_dns.Config.Compile.{AddressText}
use panopti_dns.Server.{Zones, new_zones}
use panopti_dns.Server.Awaiting.Taken.{left_of, new_zones-IsFresh}
use panopti_dns.Start.{Surroundings, load_config, zones_of, load_zones}

module _ (h : Hickory) (text : AddressText) (lossy : Bytes → Bytes) where
  zones_of-IsFresh :
      (around : Surroundings) (config : Config h.Name) (zones : Zones h.Name)
      → zones_of h text lossy around config ≡ ok zones
      → (addr : IpAddr) → left_of zones addr ≡ 64
  unfolding zones_of
  zones_of-IsFresh around config zones e addr =
      elim (Option-cases (new_zones around.builds config)) [
        | inl failed ↦ ground arith
        | inr (made, built) ↦
            (let same : made ≡ zones = ground arith in
              rw (← same) (new_zones-IsFresh around.builds config made built addr))
      ]

  pub load_zones-IsFresh :
      (around : Surroundings) (path : Bytes) (zones : Zones h.Name)
      → load_zones h text lossy around path ≡ ok zones
      → (addr : IpAddr) → left_of zones addr ≡ 64
  unfolding load_zones
  load_zones-IsFresh around path zones e addr =
      elim (Result-cases (load_config h text lossy around path)) [
        | inl (config, read) ↦ zones_of-IsFresh around config zones (ground arith) addr
        | inr bad ↦ ground arith
      ]
