-- ===== src/Resources/Naming/PortNames.antt =====
-- Port names tell the servers of one Ingress from those of another.
use knative_extensions_net_i.Base.{
  ℕ, ◌≡◌, ◌∙◌, ap, sym, true, not, [], ◌∷◌, ◌++◌, arith, ◌==◌, all, all-append, all_imp,
}
use knative_extensions_net_i.GoString.{GoString}
use knative_extensions_net_i.GoString.Decimal.{decimal, is_digit, decimal-is_digit}
use knative_extensions_net_i.GoString.Split.{split, lacks, split-append, split-lacks}
use knative_extensions_net_i.Resources.Naming.{
  is_alphanumeric, is_label_byte, is_dns1123_label, dns1123_label_regexp, label_or_checksum,
  port_name_prefix,
}
use knative_extensions_net_i.Resources.Naming.Labels.{label_or_checksum_label}

-- The two separators are no label bytes.
not_colon : (c : ℕ) → is_label_byte c ≡ true → not (c == b':') ≡ true
unfolding is_label_byte is_alphanumeric
not_colon c h = ground arith

not_slash : (c : ℕ) → is_label_byte c ≡ true → not (c == b'/') ≡ true
unfolding is_label_byte is_alphanumeric
not_slash c h = ground arith

label_bytes : (s : GoString) → is_dns1123_label s ≡ true → all is_label_byte s ≡ true
unfolding is_dns1123_label dns1123_label_regexp
label_bytes s h = ground arith

label_lacks_colon : (s : GoString) → lacks b':' (label_or_checksum s) ≡ true
unfolding lacks
label_lacks_colon s =
    all_imp is_label_byte (λ c. not (c == b':')) (label_or_checksum s) not_colon
      (label_bytes (label_or_checksum s) (label_or_checksum_label s))

pub label_lacks_slash : (s : GoString) → lacks b'/' (label_or_checksum s) ≡ true
unfolding lacks
label_lacks_slash s =
    all_imp is_label_byte (λ c. not (c == b'/')) (label_or_checksum s) not_slash
      (label_bytes (label_or_checksum s) (label_or_checksum_label s))

digit_not_colon : (c : ℕ) → is_digit c ≡ true → not (c == b':') ≡ true
unfolding is_digit
digit_not_colon c h = ground arith

-- In a namespace with no colon, the prefix has none.
pub prefix_lacks_colon :
    (namespace name : GoString)
    → lacks b':' namespace ≡ true
    → lacks b':' (port_name_prefix namespace name) ≡ true
unfolding lacks port_name_prefix all
prefix_lacks_colon namespace name h =
    all-append (λ c. not (c == b':')) namespace (b'/' ∷ label_or_checksum name)
    ∙ ground (arith, h, label_lacks_colon name)

-- A port name splits into its prefix and its number.
pub split_port_name :
    (namespace name : GoString) (i : ℕ)
    → lacks b':' namespace ≡ true
    → split b':' (port_name_prefix namespace name ++ b':' ∷ decimal i)
      ≡ port_name_prefix namespace name ∷ decimal i ∷ []
split_port_name namespace name i h =
    split-append b':' (port_name_prefix namespace name) (decimal i)
      (prefix_lacks_colon namespace name h)
    ∙ ap (◌∷◌ (port_name_prefix namespace name)) (
        split-lacks b':' (decimal i) (
          unfold lacks in
          all_imp is_digit (λ c. not (c == b':')) (decimal i) digit_not_colon (decimal-is_digit i)))

split_prefix :
    (namespace name : GoString)
    → lacks b'/' namespace ≡ true
    → split b'/' (port_name_prefix namespace name) ≡ namespace ∷ label_or_checksum name ∷ []
unfolding port_name_prefix
split_prefix namespace name h =
    split-append b'/' namespace (label_or_checksum name) h
    ∙ ap (◌∷◌ namespace) (split-lacks b'/' (label_or_checksum name) (label_lacks_slash name))

label_or_checksum_of_label : (s : GoString) → is_dns1123_label s ≡ true → label_or_checksum s ≡ s
unfolding label_or_checksum
label_or_checksum_of_label s h = rw h

-- Of namespaces with no slash and names that are labels, the prefix determines both.
pub port_name_prefix_inj :
    (namespace₁ name₁ namespace₂ name₂ : GoString)
    → lacks b'/' namespace₁ ≡ true
    → lacks b'/' namespace₂ ≡ true
    → is_dns1123_label name₁ ≡ true
    → is_dns1123_label name₂ ≡ true
    → port_name_prefix namespace₁ name₁ ≡ port_name_prefix namespace₂ name₂
    → (namespace₁ ≡ namespace₂) × (name₁ ≡ name₂)
port_name_prefix_inj namespace₁ name₁ namespace₂ name₂ h₁ h₂ l₁ l₂ e =
    let parts : namespace₁ ∷ label_or_checksum name₁ ∷ []
        ≡ namespace₂ ∷ label_or_checksum name₂ ∷ [] =
      sym (split_prefix namespace₁ name₁ h₁)
      ∙ ap (split b'/') e
      ∙ split_prefix namespace₂ name₂ h₂ in
    (cc parts, cc (parts, label_or_checksum_of_label name₁ l₁, label_or_checksum_of_label name₂ l₂))
