-- ===== src/Config/OldFormat.antt =====
-- The old format of the ConfigMap in ingress/config/istio.go: the gateway of a key.
use knative_extensions_net_i.Base.{
  ◌≡◌, ◌≢◌, refl, sym, ap, ◌∙◌, Bool, true, false, not, ◌||◌, none, some, List, [], ◌∷◌, ◌++◌,
  arith, if◌then◌else◌, drop, length, Member, Member-map, Member-of_any, any_of_Member, Bool-cases,
  inl, inr,
}
use knative_extensions_net_i.Base.Sort.{any-sort}
use knative_extensions_net_i.GoString.{
  GoString, str_eq, str_eq→eq, str_eq_refl, str_eq_iff, has_prefix, has_prefix-append,
}
use knative_extensions_net_i.GoString.Order.{sort_strings, str_lt}
use knative_extensions_net_i.GoString.Split.{split_n, lacks, split_n-append, split_n-lacks}
use knative_extensions_net_i.Api.{StringMap, lookup, insert, get, get-insert, has_key}
use knative_extensions_net_i.Platform.{Network}
use knative_extensions_net_i.Config.Parse.{
  old_format_names, old_format_urls, gateway_of_parts, parse_old_format_gateways,
}

-- A Go map has each key once.
abbrev pub DistinctKeys : StringMap → Type 0
DistinctKeys [] = Unit
DistinctKeys ((k, v) ∷ m) = (has_key k m ≡ false) × DistinctKeys m

drop-append : (a b : GoString) → drop (length a) (a ++ b) ≡ b
unfolding drop
drop-append [] b = refl
drop-append (c ∷ a) b = drop-append a b

append-drop :
    (k prefix : GoString) → has_prefix k prefix ≡ true → prefix ++ drop (length prefix) k ≡ k
unfolding drop has_prefix
append-drop k [] h = refl
append-drop [] (p ∷ prefix) h = ground arith
append-drop (c ∷ k) (p ∷ prefix) h = ground (arith, append-drop k prefix)

longer_differs : (prefix n : GoString) → n ≢ [] → str_eq (prefix ++ n) prefix ≡ false
unfolding str_eq
longer_differs [] [] h = absurd (h refl)
longer_differs [] (c ∷ n) h = refl
longer_differs (p ∷ prefix) n h = ground (arith, longer_differs prefix n h)

dotted-ne-nil : (a b : GoString) → (a ++ b'.' ∷ b) ≢ []
dotted-ne-nil [] b h = cc
dotted-ne-nil (c ∷ a) b h = cc

prefixed : (a b : Bool) → (not a || b) ≡ false → a ≡ true
prefixed a b h = ground arith

-- the test of the loop
abbrev skipped : GoString → GoString → Bool
skipped prefix k = not (has_prefix k prefix) || str_eq k prefix

not_skipped : (prefix n : GoString) → n ≢ [] → skipped prefix (prefix ++ n) ≡ false
not_skipped prefix n h = ground (arith, has_prefix-append prefix n, longer_differs prefix n h)

names_of_key :
    (prefix n v : GoString) (m : StringMap)
    → n ≢ []
    → lookup (prefix ++ n) m ≡ some v
    → Member n (old_format_names prefix m)
unfolding lookup old_format_names
names_of_key prefix n v [] h e = absurd (cc e)
names_of_key prefix n v ((k, w) ∷ m) h e = elim (Bool-cases (str_eq k (prefix ++ n))) [
  | inl same ↦
      let k≡ = str_eq→eq k (prefix ++ n) same in
      rw k≡ (rw (not_skipped prefix n h) (inl (sym (drop-append prefix n))))
  | inr other ↦
      let later = names_of_key prefix n v m h (rw other at e) in
      elim (Bool-cases (skipped prefix k)) [ inl s ↦ rw s later | inr s ↦ rw s (inr later) ]
]

str_eq_of_eq : (a b : GoString) → a ≡ b → str_eq a b ≡ true
str_eq_of_eq a b e = (str_eq_iff a b).1 e

-- the map after one round
abbrev round : GoString → StringMap → GoString → GoString → StringMap
round prefix urls k v = if skipped prefix k then urls else insert (drop (length prefix) k) v urls

-- Another key writes another entry.
other_round :
    (prefix n : GoString) (urls : StringMap) (k v : GoString)
    → str_eq k (prefix ++ n) ≡ false
    → get n (round prefix urls k v) ≡ get n urls
other_round prefix n urls k v other = elim (Bool-cases (skipped prefix k)) [
  | inl s ↦ rw s refl
  | inr s ↦ rw s (
      get-insert (drop (length prefix) k) n v urls
      ∙ elim (Bool-cases (str_eq (drop (length prefix) k) n)) [
        | inl e ↦
            let same : k ≡ prefix ++ n =
              sym (append-drop k prefix (prefixed (has_prefix k prefix) (str_eq k prefix) s))
              ∙ ap (λ (t : GoString). prefix ++ t) (str_eq→eq (drop (length prefix) k) n e) in
            absurd (cc (other, str_eq_of_eq k (prefix ++ n) same))
        | inr e ↦ rw e refl
      ])
]

urls_without_key :
    (prefix n : GoString) (m urls : StringMap)
    → has_key (prefix ++ n) m ≡ false
    → get n (old_format_urls prefix urls m) ≡ get n urls
unfolding old_format_urls has_key
urls_without_key prefix n [] urls h = refl
urls_without_key prefix n ((k, v) ∷ m) urls h = elim (Bool-cases (str_eq k (prefix ++ n))) [
  | inl same ↦ absurd (cc (rw same at h))
  | inr other ↦
      urls_without_key prefix n m (round prefix urls k v) (rw other at h)
      ∙ other_round prefix n urls k v other
]

urls_of_key :
    (prefix n v : GoString) (m urls : StringMap)
    → n ≢ []
    → DistinctKeys m
    → lookup (prefix ++ n) m ≡ some v
    → get n (old_format_urls prefix urls m) ≡ v
unfolding lookup old_format_urls
urls_of_key prefix n v [] urls h d e = absurd (cc e)
urls_of_key prefix n v ((k, w) ∷ m) urls h d e = elim (Bool-cases (str_eq k (prefix ++ n))) [
  | inl same ↦
      let k_is = str_eq→eq k (prefix ++ n) same in
      urls_without_key prefix n m (round prefix urls k w) (rw k_is at (d.0))
      ∙ rw (k_is, not_skipped prefix n h, drop-append prefix n)
          (get-insert n n w urls ∙ rw (str_eq_refl n) (cc (rw same at e)))
  | inr other ↦ urls_of_key prefix n v m (round prefix urls k w) h d.1 (rw other at e)
]

Member-sort_strings : (x : GoString) (xs : List GoString) → Member x xs → Member x (sort_strings xs)
unfolding sort_strings
Member-sort_strings x xs m =
    let (y, n, e) =
      Member-of_any (str_eq x) (sort_strings xs)
        (any-sort str_lt (str_eq x) xs ∙ any_of_Member (str_eq x) x xs m (str_eq_refl x)) in
    rw (str_eq→eq x y e) n

module _ ⦃net : Network⦄ (config_map : StringMap) (prefix : GoString)
    (distinct : DistinctKeys config_map) where
  gateway_of_key :
      (n url : GoString)
      → n ≢ []
      → lookup (prefix ++ n) config_map ≡ some url
      → Member
          (gateway_of_parts url (split_n b'.' 1 n))
          (parse_old_format_gateways config_map prefix)
  unfolding parse_old_format_gateways
  gateway_of_key n url h e =
      let urls = old_format_urls prefix [] config_map in
      rw (← urls_of_key prefix n url config_map [] h distinct e) (
        Member-map (λ name. gateway_of_parts (get name urls) (split_n b'.' 1 name)) n
          (sort_strings (old_format_names prefix config_map))
          (Member-sort_strings n (old_format_names prefix config_map)
            (names_of_key prefix n url config_map h e)))

  -- In a ConfigMap with distinct keys, a key made of the prefix, a namespace without a dot, a
  -- dot and a name gives the gateway of that namespace and name with the value as its service.
  pub parse_old_format_gateways_qualified :
      (namespace name url : GoString)
      → lacks b'.' namespace ≡ true
      → lookup (prefix ++ (namespace ++ b'.' ∷ name)) config_map ≡ some url
      → Member
          (record { namespace = namespace; name = name; service_url = url; label_selector = none })
          (parse_old_format_gateways config_map prefix)
  unfolding gateway_of_parts split_n
  parse_old_format_gateways_qualified namespace name url plain e =
      let two = split_n-append b'.' 0 namespace name plain in
      rw two at (gateway_of_key (namespace ++ b'.' ∷ name) url (dotted-ne-nil namespace name) e)

  -- In a ConfigMap with distinct keys, a key made of the prefix and a name that is not empty
  -- and has no dot gives the gateway of that name in the system namespace with the value as
  -- its service.
  pub parse_old_format_gateways_plain :
      (name url : GoString)
      → lacks b'.' name ≡ true
      → name ≢ []
      → lookup (prefix ++ name) config_map ≡ some url
      → Member
          (record {
            namespace = net.system_namespace;
            name = name;
            service_url = url;
            label_selector = none;
          })
          (parse_old_format_gateways config_map prefix)
  unfolding gateway_of_parts split_n
  parse_old_format_gateways_plain name url p ne e =
      let one = split_n-lacks b'.' 1 name p in rw one at (gateway_of_key name url ne e)
