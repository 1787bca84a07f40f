-- ===== src/Nibble/PtrName.antt =====
-- `ptr_name_to_addr` reads exactly the names of full addresses, and `netmask_to_ptr_name` writes them.
use native.Mathlib.Nat.{mod-eq_of_lt, mod-one}
use panopti_dns.Prelude.{
  ℕ, zero, suc, ◌+◌, ◌^◌, ◌<◌, ◌≡◌, refl, ap, ◌∙◌, ◌↔◌, true, false, not, ◌&&◌, some, List, [], ◌∷◌,
  arith, ◌==◌, >>=-eq-some, and_parts, some_inv, when_some, unless_some, length, length-append,
}
use panopti_dns.Bytes.{Bytes, codes, bytes_eq, eq_ignore_ascii_case}
use panopti_dns.Hickory.{Hickory, IsDocumented, same_labels, label_count}
use panopti_dns.Nibble.{
  hex_val, nibble_of, parse_nibbles, expect_label, ptr_name_to_addr, addr_nibbles, ptr_query_labels,
}
use panopti_dns.Nibble.Ptr.{digit_labels, ptr_labels, parse_nibbles_complete, parse_nibbles_sound}

length-same_labels : (as' bs : List Bytes) → same_labels as' bs ≡ true → length as' ≡ length bs
length-same_labels [] [] e = refl
length-same_labels [] (b ∷ bs) e = cc
length-same_labels (a ∷ as') [] e = cc
length-same_labels (a ∷ as') (b ∷ bs) e =
    ap suc
      (length-same_labels as' bs (and_parts (eq_ignore_ascii_case a b) (same_labels as' bs) e).1)

-- A nibble label is not the wildcard.
digit_not_star :
    (label : Bytes) (n : ℕ) → nibble_of label ≡ some n → bytes_eq label (b'*' ∷ []) ≡ false
unfolding nibble_of hex_val
digit_not_star [] n e = refl
digit_not_star (b ∷ []) n e = ground arith
digit_not_star (b ∷ c ∷ bs) n e = cc

label_count-parse :
    (rounds p acc : ℕ) (labels : List Bytes) {r : ℕ × List Bytes}
    → parse_nibbles (suc rounds) p labels acc ≡ some r
    → label_count labels ≡ length labels
unfolding parse_nibbles
label_count-parse rounds p acc [] e = cc
label_count-parse rounds p acc (label ∷ labels) e =
    let (v, ev, _) = >>=-eq-some (nibble_of label) _ e in rw (digit_not_star label v ev)

-- What a passed suffix test says.
expect_label_lem :
    (word : Bytes) (labels rest : List Bytes)
    → expect_label word labels ≡ some rest
    → (label : Bytes) × (labels ≡ label ∷ rest) × (eq_ignore_ascii_case label word ≡ true)
unfolding expect_label
expect_label_lem word [] rest e = cc
expect_label_lem word (label ∷ labels) rest e =
    let (same, f) = when_some (eq_ignore_ascii_case label word) (some labels) e in
    (label, ap (◌∷◌ label) (some_inv f), same)

parse_length :
    (rounds p acc : ℕ) (labels : List Bytes) (a : ℕ) (rest : List Bytes)
    → parse_nibbles rounds p labels acc ≡ some (a, rest)
    → length labels ≡ rounds + length rest
unfolding parse_nibbles
parse_length zero p acc labels a rest e =
    ap (λ (r : ℕ × List Bytes). length r.1) (some_inv e) ∙ omega arith
parse_length (suc rounds) p acc [] a rest e = cc
parse_length (suc rounds) p acc (label ∷ labels) a rest e =
    let (v, _, er) = >>=-eq-some (nibble_of label) _ e in
    omega (arith, parse_length rounds (p + 1) _ labels a rest er)

pub length-digit_labels : (rounds a p : ℕ) → length (digit_labels a p rounds) ≡ rounds
unfolding digit_labels
length-digit_labels zero a p = refl
length-digit_labels (suc rounds) a p = ap suc (length-digit_labels rounds a (p + 1))

length-ptr_labels : (a : ℕ) → length (ptr_labels a) ≡ 34
unfolding ptr_labels
length-ptr_labels a = omega (
  arith,
  length-append (digit_labels a 0 32) (codes "ip6" ∷ codes "arpa" ∷ []),
  length-digit_labels 32 a 0,
)

abbrev pub suffix : List Bytes
suffix = codes "ip6" ∷ codes "arpa" ∷ []

-- The two tests pass on the suffix, in any case.
suffix_accepted :
    (labels : List Bytes)
    → same_labels labels suffix ≡ true
    → (labels' : List Bytes) × (expect_label (codes "ip6") labels ≡ some labels')
      × (expect_label (codes "arpa") labels' ≡ some [])
unfolding expect_label
suffix_accepted [] e = cc
suffix_accepted (l ∷ []) e =
    absurd (cc ((and_parts (eq_ignore_ascii_case l (codes "ip6")) false e).1))
suffix_accepted (l ∷ l' ∷ []) e =
    let (ip6, more) =
      and_parts (eq_ignore_ascii_case l (codes "ip6"))
        (eq_ignore_ascii_case l' (codes "arpa") && true) e in
    let (arpa, _) = and_parts (eq_ignore_ascii_case l' (codes "arpa")) true more in
    (l' ∷ [], rw ip6, rw arpa)
suffix_accepted (l ∷ l' ∷ l'' ∷ ls) e =
    ground (arith, length-same_labels (l ∷ l' ∷ l'' ∷ ls) suffix e)

-- Labels that pass the two tests, and are two, are the suffix.
suffix_read :
    (labels labels' labels'' : List Bytes)
    → expect_label (codes "ip6") labels ≡ some labels'
    → expect_label (codes "arpa") labels' ≡ some labels''
    → (length labels ≡ 2 + length labels'') × (labels'' ≡ [] → same_labels labels suffix ≡ true)
suffix_read labels labels' labels'' e f =
    let (l, at, ip6) = expect_label_lem (codes "ip6") labels labels' e in
    let (l', at', arpa) = expect_label_lem (codes "arpa") labels' labels'' f in
    (rw (at, at') (omega arith), λ none_left. rw (at, at', none_left, ip6, arpa))

empty_of_length {ℓ} : {A : Type ℓ} (xs : List A) → length xs ≡ 0 → xs ≡ []
empty_of_length [] e = refl
empty_of_length (x ∷ xs) e = absurd (omega arith)

module _ (h : Hickory) (doc : IsDocumented h) where
  -- The tests on the way to an answer.
  steps_of :
      (name : h.Name) (a : ℕ)
      → ptr_name_to_addr h name ≡ some a
      → (h.num_labels name ≡ 34)
        × (labels : List Bytes) × (labels' : List Bytes) × (labels'' : List Bytes) × (parse_nibbles
              32 0
              (h.iter name)
              0
            ≡ some (a, labels))
        × (expect_label (codes "ip6") labels ≡ some labels')
        × (expect_label (codes "arpa") labels' ≡ some labels'')
  unfolding ptr_name_to_addr
  steps_of name a e =
      let (count, m) = unless_some (not (h.num_labels name == ptr_query_labels)) _ e in
      let ((addr, labels), parsed, m1) =
        >>=-eq-some (parse_nibbles addr_nibbles 0 (h.iter name) 0) _ m in
      let (labels', ip6, m2) = >>=-eq-some (expect_label (codes "ip6") labels) _ m1 in
      let (labels'', arpa, m3) = >>=-eq-some (expect_label (codes "arpa") labels') _ m2 in
      (ground arith, labels, labels', labels'', parsed ∙ cc, ip6, arpa)

  -- `ptr_name_to_addr` accepts a name exactly if its labels are, but for case, those of the reverse
  -- name of an address below 2 ^ 128, and then returns that address.
  pub ptr_name_to_addr_exact :
      (name : h.Name) (a : ℕ)
      → (ptr_name_to_addr h name ≡ some a)
        ↔ ((a < 2 ^ 128) × (same_labels (h.iter name) (ptr_labels a) ≡ true))
  ptr_name_to_addr_exact name a = (sound, complete)
    where
      sound :
          ptr_name_to_addr h name ≡ some a
          → (a < 2 ^ 128) × (same_labels (h.iter name) (ptr_labels a) ≡ true)
      sound e =
          let (count, labels, labels', labels'', parsed, ip6, arpa) = steps_of name a e in
          let (two, ends) = suffix_read labels labels' labels'' ip6 arpa in
          let all : label_count (h.iter name) ≡ length (h.iter name) =
            label_count-parse 31 0 0 (h.iter name) parsed in
          let done : labels'' ≡ [] = empty_of_length labels'' (
            omega (
              arith,
              count,
              doc.num_labels_lem name,
              all,
              two,
              parse_length 32 0 0 (h.iter name) a labels parsed,
            )) in
          let (_, below, same) =
            parse_nibbles_sound 32 0 0 a (h.iter name) labels suffix (omega arith) (omega arith)
              parsed (ends done) in
          (below, unfold ptr_labels in same)

      complete :
          (a < 2 ^ 128) × (same_labels (h.iter name) (ptr_labels a) ≡ true)
          → ptr_name_to_addr h name ≡ some a
      complete (lt, same) =
          let (labels, read, ends) =
            parse_nibbles_complete 32 a 0 (h.iter name) suffix (omega arith)
              (unfold ptr_labels in same) in
          let (labels', ip6, arpa) = suffix_accepted labels ends in
          let parsed : parse_nibbles 32 0 (h.iter name) 0 ≡ some (a, labels) =
            rw (mod-one a, mod-eq_of_lt lt) at read in
          let count : h.num_labels name ≡ 34 = omega (
            arith,
            doc.num_labels_lem name,
            label_count-parse 31 0 0 (h.iter name) parsed,
            length-same_labels (h.iter name) (ptr_labels a) same,
            length-ptr_labels a,
          ) in
          unfold ptr_name_to_addr in rw (count, parsed, ip6, arpa)
