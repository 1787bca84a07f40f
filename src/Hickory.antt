-- ===== src/Hickory.antt =====
-- The DNS library hickory, as far as the server calls it: names, records and their vocabulary.
-- `Hickory` has the operations, `IsDocumented` what their documentation says of them.
use panopti_dns.Prelude.{
  refl, ◌⊎◌, inl, inr, ℕ, suc, ◌+◌, ◌-◌, ◌≤◌, ◌≡◌, Bool, true, false, ◌&&◌, List, [], ◌∷◌,
  if◌then◌else◌, length, drop, leb, All,
}
use panopti_dns.Bytes.{Bytes, bytes_eq, eq_ignore_ascii_case}

pub data Result {ℓ κ} (A : Type ℓ) (E : Type κ) : Type (ℓ ⊔ κ) where
  ok : A → Result A E
  err : E → Result A E

pub Result-cases {ℓ κ} :
    {A : Type ℓ} {E : Type κ} (r : Result A E) → ((a : A) × (r ≡ ok a)) ⊎ ((e : E) × (r ≡ err e))
Result-cases (ok a) = inl (a, refl)
Result-cases (err e) = inr (e, refl)

-- The variants of `RecordType` that the source names.
pub data RecordType : Type 0 where
  ptr aaaa any soa ns axfr ixfr : RecordType
  other_type : ℕ → RecordType

pub data DnsClass : Type 0 where
  in_class any_class : DnsClass
  other_class : ℕ → DnsClass

-- The variants of `RData` that the source builds or tests for.
pub data Rdata (Name : Type 0) : Type 0 where
  ptr_data : Name → Rdata Name
  aaaa_data : ℕ → Rdata Name
  ns_data : Name → Rdata Name
  soa_data : Name → Name → ℕ → ℕ → ℕ → ℕ → ℕ → Rdata Name
  other_data : ℕ → Rdata Name

abbrev pub type_eq : RecordType → RecordType → Bool
type_eq ptr ptr = true
type_eq aaaa aaaa = true
type_eq any any = true
type_eq soa soa = true
type_eq ns ns = true
type_eq axfr axfr = true
type_eq ixfr ixfr = true
type_eq _ _ = false

pub record Hickory : Type 1 where
  pub Name : Type 0
  pub ProtoError : Type 0
  pub error_text : ProtoError → Bytes
  -- labels from the host's to the root's
  pub iter : Name → List Bytes
  pub num_labels : Name → ℕ
  pub from_labels : List Bytes → Result Name ProtoError
  pub from_str_relaxed : Bytes → Result Name ProtoError
  pub append_label : Name → Bytes → Result Name ProtoError
  pub set_fqdn : Name → Bool → Name
  pub name_eq : Name → Name → Bool
  pub zone_of : Name → Name → Bool
  pub Record : Type 0
  pub from_rdata : Name → ℕ → Rdata Name → Record
  pub owner : Record → Name
  pub dns_class : Record → DnsClass
  pub record_type : Record → RecordType
  pub record_ttl : Record → ℕ
  pub rdata : Record → Rdata Name

-- Bytes that the labels take on the wire, without the root's.
abbrev pub wire_length : List Bytes → ℕ
wire_length [] = 0
wire_length (l ∷ ls) = suc (length l) + wire_length ls

abbrev pub IsLabel : Bytes → Type 0
IsLabel l = (1 ≤ length l) × (length l ≤ 63)

-- `num_labels` discounts a leading `*`.
abbrev pub label_count : List Bytes → ℕ
label_count [] = 0
label_count (l ∷ ls) = if bytes_eq l (b'*' ∷ []) then length ls else suc (length ls)

-- Label by label, and with no regard to case.
abbrev pub same_labels : List Bytes → List Bytes → Bool
same_labels [] [] = true
same_labels (a ∷ as') (b ∷ bs) = eq_ignore_ascii_case a b && same_labels as' bs
same_labels _ _ = false

-- The labels `zone` end the labels `name`.
abbrev pub ends_with : List Bytes → List Bytes → Bool
ends_with zone name =
    leb (length zone) (length name) && same_labels zone (drop (length name - length zone) name)

pub record IsDocumented (h : Hickory) : Type 0 where
  pub iter-from_labels : (ls : List Bytes) (n : h.Name) → h.from_labels ls ≡ ok n → h.iter n ≡ ls
  pub from_labels_total :
      (ls : List Bytes)
      → All IsLabel ls
      → wire_length ls ≤ 254
      → (n : h.Name) × (h.from_labels ls ≡ ok n)
  pub from_labels_legal :
      (ls : List Bytes) (n : h.Name)
      → h.from_labels ls ≡ ok n
      → All IsLabel ls × (wire_length ls ≤ 254)
  pub iter-set_fqdn : (n : h.Name) (b : Bool) → h.iter (h.set_fqdn n b) ≡ h.iter n
  pub num_labels_lem : (n : h.Name) → h.num_labels n ≡ label_count (h.iter n)
  pub zone_of_lem : (z n : h.Name) → h.zone_of z n ≡ ends_with (h.iter z) (h.iter n)
  pub owner-from_rdata : (n : h.Name) (t : ℕ) (d : Rdata h.Name) → h.owner (h.from_rdata n t d) ≡ n
  pub class-from_rdata :
      (n : h.Name) (t : ℕ) (d : Rdata h.Name) → h.dns_class (h.from_rdata n t d) ≡ in_class
  pub ttl-from_rdata :
      (n : h.Name) (t : ℕ) (d : Rdata h.Name) → h.record_ttl (h.from_rdata n t d) ≡ t
  pub rdata-from_rdata : (n : h.Name) (t : ℕ) (d : Rdata h.Name) → h.rdata (h.from_rdata n t d) ≡ d
