-- ===== src/Tests/Reading.antt =====
-- The theorem on files of directives, applied.
use panopti_dns.Prelude.{arith, refl, ◌≡◌, inl, inr, true, [], ◌∷◌}
use panopti_dns.Bytes.{codes, to_lower}
use panopti_dns.Config.Text.{trim_ascii_start, trim_ascii_end, utf8_loop, is_utf8}
use panopti_dns.Config.Parse.{
  directives, global_scope, anywhere, global_target, network_target, rrl_burst, parse,
}
use panopti_dns.Config.Keywords.{spelled, AreTyped}
use panopti_dns.Config.Written.{Entry, IsEntry, file_of, apply_all, parse-file_of}
use panopti_dns.Tests.Configs.{same}

abbrev burst : Entry
burst = record {
  directive = record {
    words = codes "rrl" ∷ codes "burst" ∷ [];
    display = codes "rrl burst";
    scope = global_scope;
    target = global_target rrl_burst;
    lowercase = true;
  };
  pad = [];
  typed = codes "RRL" ∷ codes "Burst" ∷ [];
  value = codes "20";
}

abbrev block : Entry
block = record {
  directive = record {
    words = codes "network" ∷ [];
    display = codes "network";
    scope = anywhere;
    target = network_target;
    lowercase = true;
  };
  pad = 9 ∷ 32 ∷ [];
  typed = codes "network" ∷ [];
  value = codes "2001:DB8::/112";
}

burst-IsEntry : IsEntry burst
unfolding IsEntry directives AreTyped to_lower spelled trim_ascii_start trim_ascii_end is_utf8
    utf8_loop
burst-IsEntry =
    (inr (inr (inr (inl refl))), ground arith, ground arith, (refl, refl, refl), refl, ground arith)

block-IsEntry : IsEntry block
unfolding IsEntry directives AreTyped to_lower spelled trim_ascii_start trim_ascii_end is_utf8
    utf8_loop
block-IsEntry = (
  inr (inr (inr (inr (inr (inr (inr (inr (inr (inr (inl refl)))))))))),
  ground arith,
  ground arith,
  (refl, refl, refl),
  refl,
  ground arith,
)

parse-file_of_example :
    parse same (file_of (burst ∷ block ∷ []))
    ≡ apply_all 0 (burst ∷ block ∷ []) (record { listen = []; zones = []; globals = [] }, [])
parse-file_of_example = parse-file_of same (burst ∷ block ∷ []) (burst-IsEntry, (block-IsEntry, tt))
