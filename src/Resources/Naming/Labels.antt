-- ===== src/Resources/Naming/Labels.antt =====
-- `GatewayName` of resources/gateway.go and DNS labels.
use knative_extensions_net_i.Base.{
  ℕ, suc, ◌+◌, ◌-◌, ◌≤◌, ◌<◌, ◌≡◌, ◌∙◌, true, [], ◌∷◌, ◌++◌, arith, ltb, length, length-append,
  length-take, all, all-append, all-take, all_imp, take, Bool-cases, inl, inr, le→leb,
}
use knative_extensions_net_i.GoString.{GoString}
use knative_extensions_net_i.GoString.Decimal.{
  decimal, is_digit, decimal-is_digit, decimal_last, length-decimal,
}
use knative_extensions_net_i.GoString.Adler.{checksum, checksum-lt}
use knative_extensions_net_i.Api.{ObjectMeta, Visibility}
use knative_extensions_net_i.Resources.Naming.{
  is_alphanumeric, is_label_byte, starts_alphanumeric, ends_alphanumeric, dns1123_label_regexp,
  is_dns1123_label, label_or_checksum, cut, gateway_name, gateway_service_key,
}

digit_alphanumeric : (c : ℕ) → is_digit c ≡ true → is_alphanumeric c ≡ true
unfolding is_digit is_alphanumeric
digit_alphanumeric c h = ground arith

digit_label_byte : (c : ℕ) → is_digit c ≡ true → is_label_byte c ≡ true
unfolding is_label_byte
digit_label_byte c h = ground (arith, digit_alphanumeric c)

ends-append :
    (s : GoString) (c : ℕ) → is_alphanumeric c ≡ true → ends_alphanumeric (s ++ c ∷ []) ≡ true
unfolding ends_alphanumeric
ends-append [] c h = h
ends-append (x ∷ []) c h = h
ends-append (x ∷ y ∷ s) c h = ends-append (y ∷ s) c h

ends-append_right :
    (s t : GoString) → ends_alphanumeric t ≡ true → ends_alphanumeric (s ++ t) ≡ true
unfolding ends_alphanumeric
ends-append_right [] t h = h
ends-append_right (x ∷ []) [] h = ground arith
ends-append_right (x ∷ []) (y ∷ t) h = h
ends-append_right (x ∷ y ∷ s) t h = ends-append_right (y ∷ s) t h

ends_decimal : (n : ℕ) → ends_alphanumeric (decimal n) ≡ true
ends_decimal n =
    let (front, d, e, h) = decimal_last n in rw e (ends-append front d (digit_alphanumeric d h))

starts_of_digits :
    (s : GoString)
    → ends_alphanumeric s ≡ true
    → all is_digit s ≡ true
    → starts_alphanumeric s ≡ true
unfolding starts_alphanumeric ends_alphanumeric all
starts_of_digits [] e h = e
starts_of_digits (c ∷ s) e h = digit_alphanumeric c (ground arith)

-- A printed 32-bit number is a label.
decimal_label : (n : ℕ) → n < 4294967296 → is_dns1123_label (decimal n) ≡ true
unfolding is_dns1123_label dns1123_label_regexp
decimal_label n h = rw (
  le→leb (length (decimal n)) 63 (omega (arith, length-decimal n h)),
  starts_of_digits (decimal n) (ends_decimal n) (decimal-is_digit n),
  ends_decimal n,
  all_imp is_digit is_label_byte (decimal n) digit_label_byte (decimal-is_digit n),
)

-- What stands for a name in a Gateway's name is a label.
pub label_or_checksum_label : (s : GoString) → is_dns1123_label (label_or_checksum s) ≡ true
unfolding label_or_checksum
label_or_checksum_label s = elim (Bool-cases (is_dns1123_label s)) [
  | inl e ↦ rw e e
  | inr e ↦ rw e (decimal_label (checksum s) (checksum-lt s))
]

record IsLabel (s : GoString) : Type 0 where
  starts : starts_alphanumeric s ≡ true
  ends : ends_alphanumeric s ≡ true
  only : all is_label_byte s ≡ true
  short : length s ≤ 63

IsLabel-parts : (s : GoString) → is_dns1123_label s ≡ true → IsLabel s
unfolding is_dns1123_label dns1123_label_regexp
IsLabel-parts s h = ground arith

label_of_parts : (s : GoString) → IsLabel s → is_dns1123_label s ≡ true
unfolding is_dns1123_label dns1123_label_regexp
label_of_parts s h = ground (arith, h.starts, h.ends, h.only, h.short)

starts-append :
    (s t : GoString) → starts_alphanumeric s ≡ true → starts_alphanumeric (s ++ t) ≡ true
unfolding starts_alphanumeric
starts-append [] t h = ground arith
starts-append (c ∷ s) t h = h

starts-take :
    (n : ℕ) (s : GoString)
    → starts_alphanumeric s ≡ true
    → starts_alphanumeric (take (suc n) s) ≡ true
unfolding starts_alphanumeric take
starts-take n [] h = h
starts-take n (c ∷ s) h = h

-- A cut label is not longer than asked, and still starts as a label does.
cut_parts :
    (n : ℕ) (s : GoString)
    → IsLabel s
    → (starts_alphanumeric (cut (suc n) s) ≡ true)
      × (all is_label_byte (cut (suc n) s) ≡ true)
      × (length (cut (suc n) s) ≤ suc n)
unfolding cut
cut_parts n s h = elim (Bool-cases (ltb (suc n) (length s))) [
  | inl e ↦ rw e (
    starts-take n s h.starts,
    all-take is_label_byte (suc n) s h.only,
    omega (arith, length-take (suc n) s (ground arith)),
  )
  | inr e ↦ rw e (h.starts, h.only, ground arith)
]

-- A label cut to make room for a dash and a printed number gives a label.
joined-IsLabel :
    (n k : ℕ) (p : GoString)
    → k < 4294967296
    → IsLabel p
    → suc n + suc (length (decimal k)) ≤ 63
    → IsLabel (cut (suc n) p ++ b'-' ∷ decimal k)
unfolding is_label_byte all
joined-IsLabel n k p hk h fits =
    let (s, o, l) = cut_parts n p h in
    record {
      starts = starts-append (cut (suc n) p) (b'-' ∷ decimal k) s;
      ends =
          ends-append_right (cut (suc n) p) (b'-' ∷ decimal k)
            (ends-append_right (b'-' ∷ []) (decimal k) (ends_decimal k));
      only =
          all-append is_label_byte (cut (suc n) p) (b'-' ∷ decimal k)
          ∙ ground (
            arith,
            o,
            all_imp is_digit is_label_byte (decimal k) digit_label_byte (decimal-is_digit k),
          );
      short = omega (arith, length-append (cut (suc n) p) (b'-' ∷ decimal k));
    }

-- Whatever the names of the Ingress and of the gateway service and the visibility, the name of
-- the Gateway is a DNS label of at most 63 bytes.
pub gateway_name_label :
    (accessor : ObjectMeta) (visibility : Visibility) (svc : ObjectMeta)
    → is_dns1123_label (gateway_name accessor visibility svc) ≡ true
unfolding gateway_name
gateway_name_label accessor visibility svc =
    let k = checksum (gateway_service_key visibility svc) in
    let short = length-decimal k (checksum-lt (gateway_service_key visibility svc)) in
    let e : 63 - length (decimal k) - 1 ≡ suc (61 - length (decimal k)) = omega arith in
    rw e (
      label_of_parts
        (cut (suc (61 - length (decimal k))) (label_or_checksum accessor.name) ++ b'-' ∷ decimal k)
        (joined-IsLabel (61 - length (decimal k)) k (label_or_checksum accessor.name)
          (checksum-lt (gateway_service_key visibility svc))
          (IsLabel-parts (label_or_checksum accessor.name) (label_or_checksum_label accessor.name))
          (omega arith)))
