-- ===== src/Zone/Star.antt =====
-- A template whose first label is a literal `*`.
use panopti_dns.Prelude.{
  ℕ, suc, ◌≡◌, refl, ap, ◌∙◌, false, none, List, ◌∷◌, arith, ◌==◌, length, length-map, map,
}
use panopti_dns.Bytes.{Bytes, codes}
use panopti_dns.Hickory.{Hickory, IsDocumented}
use panopti_dns.Hickory
use panopti_dns.Config.{FwdLabel, literal, Zone, label_count, render_label}
use panopti_dns.Zone.{match_zone_forward}
use panopti_dns.Zone.Forward.{rendered_labels}

module _ (h : Hickory) (doc : IsDocumented h) where
  -- If the first label of a zone's template is a literal `*`, `match_zone_forward` rejects every name
  -- that the template renders to, since hickory leaves a leading `*` out of a name's label count.
  pub star_template_unmatched :
      (z : Zone h.Name) (name : h.Name) (addr : ℕ) (lower : Bytes) (rest : List FwdLabel)
      → z.fwd.labels ≡ literal (codes "*") lower ∷ rest
      → h.iter name ≡ rendered_labels z addr
      → match_zone_forward h z name ≡ none
  unfolding match_zone_forward render_label
  star_template_unmatched z name addr lower rest starred named =
      let counted : h.num_labels name ≡ length rest =
        doc.num_labels_lem name
        ∙ ap Hickory.label_count (named ∙ ap (map _) starred)
        ∙ length-map rest _ in
      let total : label_count z.fwd ≡ suc (length rest) = ap length starred in
      let differs : (h.num_labels name == label_count z.fwd) ≡ false =
        rw (counted, total) (ground arith) in
      rw differs refl
