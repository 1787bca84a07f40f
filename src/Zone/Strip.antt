-- ===== src/Zone/Strip.antt =====
-- Prefixes and suffixes are taken off labels with no regard to case.
use panopti_dns.Prelude.{
  ℕ, ◌≡◌, refl, true, some, [], ◌∷◌, ◌++◌, arith, leb, length, length-append, length-map,
  take-length-append, drop-length-append, le→leb,
}
use panopti_dns.Bytes.{
  Bytes, to_lower, to_ascii_lowercase, bytes_eq_refl, eq_ignore_ascii_case, split_at_checked,
}
use panopti_dns.Zone.{strip_prefix_ci, strip_suffix_ci, checked_sub}

to_lower-to_lower : (b : ℕ) → to_lower (to_lower b) ≡ to_lower b
unfolding to_lower
to_lower-to_lower b = ground arith

pub lowercase-lowercase :
    (s : Bytes) → to_ascii_lowercase (to_ascii_lowercase s) ≡ to_ascii_lowercase s
lowercase-lowercase [] = refl
lowercase-lowercase (b ∷ s) = rw (to_lower-to_lower b, lowercase-lowercase s) refl

pub eq_lowercase : (s : Bytes) → eq_ignore_ascii_case s (to_ascii_lowercase s) ≡ true
eq_lowercase s = rw (lowercase-lowercase s) (bytes_eq_refl (to_ascii_lowercase s))

pub split_at_checked-append : (a b : Bytes) → split_at_checked (a ++ b) (length a) ≡ some (a, b)
unfolding split_at_checked
split_at_checked-append a b =
    let fits : leb (length a) (length (a ++ b)) ≡ true =
      le→leb _ _ (omega (arith, length-append a b)) in
    rw (fits, take-length-append a b, drop-length-append a b) refl

pub strip_prefix_ci-append :
    (pre s : Bytes) → strip_prefix_ci (pre ++ s) (to_ascii_lowercase pre) ≡ some s
unfolding strip_prefix_ci
strip_prefix_ci-append pre s =
    rw (length-map pre to_lower, split_at_checked-append pre s, eq_lowercase pre) refl

pub strip_suffix_ci-append :
    (s post : Bytes) → strip_suffix_ci (s ++ post) (to_ascii_lowercase post) ≡ some s
unfolding strip_suffix_ci
strip_suffix_ci-append s post =
    let split : checked_sub (length (s ++ post)) (length (to_ascii_lowercase post))
        ≡ some (length s) =
      rw (length-map post to_lower, length-append s post) (ground arith) in
    rw (split, split_at_checked-append s post, eq_lowercase post) refl
