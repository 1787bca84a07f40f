-- ===== src/Config/Error/Compiled.antt =====
-- Where the compiler of a whole configuration reports: within the lines of the values that were read.
use panopti_dns.Prelude.{
  ℕ, ◌-◌, ◌/◌, Option, none, some, List, [], ◌∷◌, All, inl, inr, Option-cases,
}
use panopti_dns.Bytes.{to_ascii_lowercase}
use panopti_dns.Hickory.{Hickory}
use panopti_dns.Nibble.{netmask_to_ptr_name}
use panopti_dns.Config.{parent}
use panopti_dns.Config.Error.{ConfigError, RawValue}
use panopti_dns.Config.Error.Located.{
  IsLocated, IsPlaced, error-IsLocated, All-snoc, Locates, Locates-pass, Locates-bind,
  Locates-or_reject,
}
use panopti_dns.Config.Error.Reports.{
  compile_network-Locates, compile_template-Locates, Locates-result,
}
use panopti_dns.Config.Parse.{RawZone, RawConfig}
use panopti_dns.Config.Compile.{
  AddressText, Check, or_reject, ◌>>=◌, ◌>>◌, compile_network, compile_template,
}
use panopti_dns.Config.Zones.{
  Seen, seen_network, seen_pattern, demand_new, compile_upstream, compile_zone, compile_zones,
  compile,
}
use panopti_dns.Config.Error.Settings.{
  compile_listens-IsLocated, compile_globals-IsLocated, IsPlacedOption, IsPlacedZone,
  IsPlacedConfig,
}

-- `demand_new o f`, and what follows.
Locates-demand_new :
    {B : Type 0} (o : Option ℕ) (f : ℕ → ConfigError) (m : Check B)
    → ((n : ℕ) → IsLocated (f n))
    → Locates m
    → Locates (demand_new o f >> m)
unfolding Locates
Locates-demand_new none f m fine hm errors all = hm errors all
Locates-demand_new (some line) f m fine hm errors all = All-snoc errors (f line) all (fine line)

compile_upstream-Locates :
    (text : AddressText) (o : Option RawValue)
    → IsPlacedOption o
    → Locates (compile_upstream text o)
unfolding compile_upstream
compile_upstream-Locates text none placed = Locates-pass none
compile_upstream-Locates text (some v) placed =
    Locates-or_reject (text.ip_from_str v.value) _ _ (error-IsLocated v _ placed)
      (λ addr. Locates-pass _)

-- A value that must be there, and what follows.
Locates-given :
    {B : Type 0} (o : Option RawValue) (e : ConfigError) (f : RawValue → Check B)
    → IsPlacedOption o
    → IsLocated e
    → ((v : RawValue) → IsPlaced v → Locates (f v))
    → Locates (or_reject o e >>= f)
unfolding Locates
Locates-given none e f placed fine hf errors all = All-snoc errors e all fine
Locates-given (some v) e f placed fine hf errors all = hf v placed errors all

module _ (h : Hickory) (text : AddressText) where
  compile_zone-Locates :
      (seen : Seen) (raw : RawZone) → IsPlacedZone raw → Locates (compile_zone h text seen raw)
  unfolding compile_zone
  compile_zone-Locates seen raw (network, resolves, upstream) =
      Locates-bind (compile_network text raw.network) _
        (compile_network-Locates text raw.network network)
        (λ net.
          Locates-demand_new (seen_network seen.networks net.0 net.1) _ _
            (λ line. error-IsLocated raw.network _ network)
            (Locates-given raw.resolves_to _ _ resolves (error-IsLocated raw.network _ network)
              (λ v placed.
                Locates-bind (compile_template h v ((128 - net.1) / 4)) _
                  (compile_template-Locates h v _ placed)
                  (λ fwd.
                    Locates-demand_new (seen_pattern seen.patterns (to_ascii_lowercase v.value)) _ _
                      (λ line. error-IsLocated v _ placed)
                      (Locates-bind (compile_upstream text raw.upstream) _
                        (compile_upstream-Locates text raw.upstream upstream)
                        (λ up.
                          Locates-or_reject (netmask_to_ptr_name h net.0 net.1) _ _
                            (error-IsLocated raw.network _ network)
                            (λ ptr_zone.
                              Locates-result h (parent h fwd) _ _ (λ e. error-IsLocated v _ placed)
                                (λ fwd_parent. Locates-pass _))))))))

  compile_zones-IsLocated :
      (value : ℕ) (raws : List RawZone) (seen : Seen) (errors : List ConfigError)
      → All IsPlacedZone raws
      → All IsLocated errors
      → All IsLocated (compile_zones h text value raws seen errors).1
  unfolding compile_zones
  compile_zones-IsLocated value [] seen errors placed all = all
  compile_zones-IsLocated value (raw ∷ raws) seen errors (one, placed) all =
      let fine : All IsLocated (compile_zone h text seen raw errors).1 =
        unfold Locates in compile_zone-Locates seen raw one errors all in
      elim (Option-cases (compile_zone h text seen raw errors).0) [
        | inl refused ↦
            rw (compile_zones, refused) (compile_zones-IsLocated value raws seen _ placed fine)
        | inr made ↦
            rw (compile_zones, made.1) (compile_zones-IsLocated value raws made.0.1 _ placed fine)
      ]

  pub compile-IsLocated :
      (raw : RawConfig) (errors : List ConfigError)
      → IsPlacedConfig raw
      → All IsLocated errors
      → All IsLocated (compile h text raw errors).1
  unfolding compile
  compile-IsLocated raw errors (listen, globals, zones) all =
      compile_zones-IsLocated _ raw.zones _ _ zones (
        compile_globals-IsLocated h raw _ globals
          (compile_listens-IsLocated text raw.listen errors listen all))
