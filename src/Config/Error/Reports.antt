-- ===== src/Config/Error/Reports.antt =====
-- Where the compiler reports: the errors of a value lie within the line that the value stands in.
use panopti_dns.Prelude.{
  ℕ, zero, suc, ◌+◌, ◌%◌, min, Bool, not, ◌&&◌, Option, none, some, List, [], ◌∷◌, length, drop,
  replicate, bit_and, leb, ◌==◌, is_empty, inl, inr, Bool-cases,
}
use panopti_dns.Bytes.{Bytes, bytes_eq, codes, to_ascii_lowercase}
use panopti_dns.Hickory.{Hickory, Result, ok, err}
use panopti_dns.Nibble.{addr_nibbles, mask_bits}
use panopti_dns.Config.{render}
use panopti_dns.Config.Error.{ConfigError, RawValue}
use panopti_dns.Config.Error.Located.{
  IsLocated, IsPlaced, error-IsLocated, error_at-IsLocated, All-snoc, Locates, Locates-pass,
  Locates-reject, Locates-bind, Locates-or_reject, Locates-demand,
}
use panopti_dns.Config.Text.{split_once, u32_from_str, split, strip_last}
use panopti_dns.Config.Compile.{
  AddressText, Check, result_or_reject, or_reject, ◌>>=◌, Labels, parse_u32, compile_network,
  find_placeholder, add_segment, segments_loop, check_hits, parse_name, compile_template,
}
use panopti_dns.Config.Globals.{number_in, policy_of}

pub compile_network-Locates :
    (text : AddressText) (v : RawValue) → IsPlaced v → Locates (compile_network text v)
unfolding compile_network
compile_network-Locates text v placed =
    Locates-or_reject (split_once b'/' [] v.value) _ _ (error-IsLocated v _ placed) (λ parts.
      Locates-or_reject (text.ipv6_from_str parts.0) _ _ (error_at-IsLocated v _ _ _ placed)
        (λ addr.
          Locates-or_reject (u32_from_str parts.1) _ _ (error_at-IsLocated v _ _ _ placed) (λ mask.
            Locates-demand (leb mask 128) _ _ (error_at-IsLocated v _ _ _ placed) (
              Locates-demand (mask % 4 == 0) _ _ (error_at-IsLocated v _ _ _ placed) (
                Locates-demand (not (mask == 0)) _ _ (error_at-IsLocated v _ _ _ placed) (
                  Locates-demand (not (mask == 128)) _ _ (error-IsLocated v _ placed) (
                    Locates-demand (addr == bit_and addr (mask_bits mask)) _ _
                      (error-IsLocated v _ placed) (Locates-pass _))))))))

pub parse_u32-Locates :
    (v : RawValue) (what allowed : Bytes) → IsPlaced v → Locates (parse_u32 v what allowed)
unfolding parse_u32
parse_u32-Locates v what allowed placed =
    or_reject_only (u32_from_str v.value) _ (error-IsLocated v _ placed)
  where
    or_reject_only :
        {A : Type 0} (o : Option A) (e : ConfigError) → IsLocated e → Locates (or_reject o e)
    or_reject_only {A = A} none e fine = Locates-reject A e fine
    or_reject_only (some a) e fine = Locates-pass a

add_segment-Locates :
    (v : RawValue) (idx : ℕ) (segment : Bytes) (hit : Option (ℕ × ℕ × Bool)) (ls : Labels)
    → IsPlaced v
    → Locates (add_segment v idx segment hit ls)
unfolding add_segment
add_segment-Locates v idx segment none ls placed = Locates-pass _
add_segment-Locates v idx segment (some (at, width, dashed)) ls placed =
    Locates-demand (leb at (length segment)) _ _ (error-IsLocated v _ placed) (
      Locates-demand (leb width (length (drop at segment))) _ _ (error-IsLocated v _ placed)
        (Locates-pass _))

segments_loop-Locates :
    (v : RawValue) (idx : ℕ) (segments : List Bytes) (ls : Labels)
    → IsPlaced v
    → Locates (segments_loop v idx segments ls)
unfolding segments_loop
segments_loop-Locates v idx [] ls placed = Locates-pass ls
segments_loop-Locates v idx (segment ∷ segments) ls placed =
    Locates-demand (not (is_empty segment)) _ _ (error-IsLocated v _ placed) (
      Locates-bind (add_segment v idx segment (find_placeholder (to_ascii_lowercase segment)) ls) _
        (add_segment-Locates v idx segment _ ls placed)
        (λ next. segments_loop-Locates v (idx + 1) segments next placed))

check_hits-Locates : (v : RawValue) (n : ℕ) → IsPlaced v → Locates (check_hits v n)
unfolding check_hits
check_hits-Locates v zero placed = Locates-reject _ _ (error-IsLocated v _ placed)
check_hits-Locates v (suc zero) placed = Locates-pass tt
check_hits-Locates v (suc (suc n)) placed = Locates-reject _ _ (error-IsLocated v _ placed)

module _ (h : Hickory) where
  -- `result_or_reject r f`, and what follows.
  pub Locates-result :
      {A B : Type 0} (r : Result A h.ProtoError) (f : h.ProtoError → ConfigError) (k : A → Check B)
      → ((e : h.ProtoError) → IsLocated (f e))
      → ((a : A) → Locates (k a))
      → Locates (result_or_reject h r f >>= k)
  unfolding Locates
  Locates-result (ok a) f k fine hk errors all = hk a errors all
  Locates-result (err e) f k fine hk errors all = All-snoc errors (f e) all (fine e)

  pub parse_name-Locates :
      (v : RawValue) (what : Bytes) → IsPlaced v → Locates (parse_name h v what)
  unfolding parse_name
  parse_name-Locates v what placed =
      Locates-result (h.from_str_relaxed v.value) _ _ (λ e. error-IsLocated v _ placed)
        (λ name. Locates-pass _)

  pub compile_template-Locates :
      (v : RawValue) (n : ℕ) → IsPlaced v → Locates (compile_template h v n)
  unfolding compile_template
  compile_template-Locates v n placed =
      Locates-bind (check_hits v _) _ (check_hits-Locates v _ placed) (λ once.
        Locates-bind (segments_loop v 0 (split b'.' (strip_last b'.' v.value)) _) _
          (segments_loop-Locates v 0 _ _ placed)
          (λ ls. Locates-or_reject ls.digits_at _ _ (error-IsLocated v _ placed) (λ at.
            Locates-demand (not (ls.dashed_used && not (n % 4 == 0))) _ _
              (error-IsLocated v _ placed)
              (Locates-result
                (render h (record { labels = ls.labels; digits_at = at })
                  (replicate (min n addr_nibbles) b'f'))
                _ _ (λ e. error-IsLocated v _ placed) (λ widest. Locates-pass _)))))

pub number_in-Locates :
    (v : RawValue) (what allowed : Bytes) (t : ℕ → Bool)
    → IsPlaced v
    → Locates (number_in v what allowed t)
unfolding number_in
number_in-Locates v what allowed t placed =
    Locates-bind (parse_u32 v what allowed) _ (parse_u32-Locates v what allowed placed)
      (λ n. Locates-demand (t n) _ _ (error-IsLocated v _ placed) (Locates-pass n))

pub policy_of-Locates : (v : RawValue) → IsPlaced v → Locates (policy_of v)
unfolding policy_of
policy_of-Locates v placed = elim (Bool-cases (bytes_eq v.value (codes "refused"))) [
  | inl refuse ↦ rw refuse (Locates-pass _)
  | inr not_refuse ↦ rw not_refuse (elim (Bool-cases (bytes_eq v.value (codes "nxdomain"))) [
    | inl deny ↦ rw deny (Locates-pass _)
    | inr neither ↦ rw neither (Locates-reject _ _ (error-IsLocated v _ placed))
  ])
]
