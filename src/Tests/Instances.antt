-- ===== src/Tests/Instances.antt =====
-- A small library of names and records that does what hickory documents, a governor with one bucket
-- for all keys, and readers of addresses.
use panopti_dns.Prelude.{
  arith, ◌≤◌, and_parts, leb→le, Bool-cases, inl, inr, ℕ, ◌-◌, ◌*◌, ◌^◌, ◌≡◌, refl, sym, ap, Bool,
  true, false, ◌&&◌, none, some, List, [], ◌∷◌, ◌++◌, leb, le→leb, ◌==◌, if◌then◌else◌, length, All,
}
use panopti_dns.Bytes.{Bytes, codes, bytes_eq}
use panopti_dns.Hickory.{
  Hickory, IsDocumented, Result, ok, err, RecordType, ptr, aaaa, ns, soa, other_type, in_class,
  Rdata, ptr_data, aaaa_data, ns_data, soa_data, other_data, wire_length, IsLabel, label_count,
  same_labels, ends_with,
}
use panopti_dns.Config.{v6}
use panopti_dns.Config.Text.{split}
use panopti_dns.Config.Compile.{AddressText}
use panopti_dns.Rrl.{Governor}

pub record SmallName : Type 0 where
  pub labels : List Bytes
  pub absolute : Bool

pub record SmallRecord : Type 0 where
  pub name : SmallName
  pub ttl : ℕ
  pub content : Rdata SmallName

abbrev labels_legal : List Bytes → Bool
labels_legal [] = true
labels_legal (l ∷ ls) = (leb 1 (length l) && leb (length l) 63) && labels_legal ls

abbrev type_of : {Name : Type 0} → Rdata Name → RecordType
type_of (ptr_data n) = ptr
type_of (aaaa_data a) = aaaa
type_of (ns_data n) = ns
type_of (soa_data p m a b c d e) = soa
type_of (other_data n) = other_type n

abbrev name_of_labels : List Bytes → Result SmallName (Unit {0})
name_of_labels ls =
    if labels_legal ls && leb (wire_length ls) 254
    then ok (record { labels = ls; absolute = false })
    else err tt

abbrev pub small : Hickory
small = record {
  Name = SmallName;
  ProtoError = Unit {0};
  error_text = λ e. codes "illegal name";
  iter = λ n. n.labels;
  num_labels = λ n. label_count n.labels;
  from_labels = name_of_labels;
  from_str_relaxed = λ s. name_of_labels (split b'.' s);
  append_label = λ n l. name_of_labels (n.labels ++ l ∷ []);
  set_fqdn = λ n b. record n { absolute = b };
  name_eq = λ a b. same_labels a.labels b.labels;
  zone_of = λ z n. ends_with z.labels n.labels;
  Record = SmallRecord;
  from_rdata = λ n t d. record { name = n; ttl = t; content = d };
  owner = λ r. r.name;
  dns_class = λ r. in_class;
  record_type = λ r. type_of r.content;
  record_ttl = λ r. r.ttl;
  rdata = λ r. r.content;
}

labels_legal-All : (ls : List Bytes) → All IsLabel ls → labels_legal ls ≡ true
labels_legal-All [] all = refl
labels_legal-All (l ∷ ls) ((lo, hi), all) =
    rw (le→leb _ _ lo, le→leb _ _ hi, labels_legal-All ls all) refl

labels_of_made : (ls : List Bytes) (n : SmallName) → name_of_labels ls ≡ ok n → n.labels ≡ ls
labels_of_made ls n e = made (labels_legal ls && leb (wire_length ls) 254) e
  where
    made :
        (b : Bool)
        → ◌≡◌ {A = Result SmallName (Unit {0})}
            (if b then ok (record { labels = ls; absolute = false }) else err tt)
            (ok n)
        → n.labels ≡ ls
    made true done =
        sym (ap (λ (o : Result SmallName (Unit {0})). elim o [ ok m ↦ m.labels | err x ↦ ls ]) done)
    made false done = cc

labels_legal_sound : (ls : List Bytes) → labels_legal ls ≡ true → All IsLabel ls
labels_legal_sound [] e = tt
labels_legal_sound (l ∷ ls) e =
    let (here, rest) = and_parts _ _ e in
    let (lo, hi) = and_parts (leb 1 (length l)) (leb (length l) 63) here in
    ((leb→le 1 (length l) lo, leb→le (length l) 63 hi), labels_legal_sound ls rest)

made_labels_legal :
    (ls : List Bytes) (n : SmallName)
    → name_of_labels ls ≡ ok n
    → All IsLabel ls × (wire_length ls ≤ 254)
made_labels_legal ls n e = elim (Bool-cases (labels_legal ls && leb (wire_length ls) 254)) [
  | inl legal ↦
      let (labels, short) = and_parts (labels_legal ls) (leb (wire_length ls) 254) legal in
      (labels_legal_sound ls labels, leb→le (wire_length ls) 254 short)
  | inr illegal ↦ ground arith
]

pub small-IsDocumented : IsDocumented small
small-IsDocumented = record {
  iter-from_labels = labels_of_made;
  from_labels_total = λ ls legal short. (
    record { labels = ls; absolute = false },
    rw (labels_legal-All ls legal, le→leb _ _ short) refl,
  );
  from_labels_legal = made_labels_legal;
  iter-set_fqdn = λ n b. refl;
  num_labels_lem = λ n. refl;
  zone_of_lem = λ z n. refl;
  owner-from_rdata = λ n t d. refl;
  class-from_rdata = λ n t d. refl;
  ttl-from_rdata = λ n t d. refl;
  rdata-from_rdata = λ n t d. refl;
}

-- The bucket is the number of responses that it has room for.
abbrev pub counter : Governor
counter = record {
  Limiter = ℕ;
  keyed = λ q. q.burst_size;
  check_key = λ l k. if l == 0 then (false, 0) else (true, l - 1);
  retain_recent = λ l. l;
  tracked_keys = λ l. 1;
}

-- One address is known by its text.
abbrev pub texts : AddressText
texts = record {
  ip_from_str = λ s. if bytes_eq s (codes "::") then some (v6 0) else none;
  ipv6_from_str = λ s.
      if bytes_eq s (codes "2001:db8::")
      then some (0x20010db8 * 2 ^ 96)
      else if bytes_eq s (codes "2001:db9::")
      then some (0x20010db9 * 2 ^ 96)
      else none;
  socket_from_str = λ s. none;
  network_text = λ p m. codes "network";
}
