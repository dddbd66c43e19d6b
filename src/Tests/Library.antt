-- ===== src/Tests/Library.antt =====
-- Concrete instances of the packages that the program calls: sets as lists without duplicates, and
-- fixed answers elsewhere.
use knative_extensions_net_i.Base.{
  ◌≡◌, refl, ◌∙◌, Bool, true, false, not, ◌&&◌, ◌||◌, none, List, [], ◌∷◌, ◌++◌, ok, err, arith,
  if◌then◌else◌, any, keep, length, Bool-cases, inl, inr, Error, some,
}
use knative_extensions_net_i.Base.Sort.{any-sort}
use knative_extensions_net_i.GoString.{
  GoString, bytes, str_eq, elem, str_eq→eq, str_eq_refl, elem-keep,
}
use knative_extensions_net_i.GoString.Order.{str_lt, sort_strings, sort_strings-IsSorted}
use knative_extensions_net_i.Api.{
  ObjectMeta, OwnerReference, StringMap, lookup, filter_keys, lookup-filter_keys,
}
use knative_extensions_net_i.Platform.{SetLib, Network, Kmeta, Selectors, IngressHelpers, Keys}
use knative_extensions_net_i.Resources.Secrets.{Certificates}
use knative_extensions_net_i.Accessor.Kinds.{Comparisons}
use knative_extensions_net_i.Config.{ConfigParsers}

abbrev add : GoString → List GoString → List GoString
add x xs = if elem x xs then xs else x ∷ xs

abbrev add_all : List GoString → List GoString → List GoString
add_all [] ys = ys
add_all (x ∷ xs) ys = add x (add_all xs ys)

elem-add : (x y : GoString) (ys : List GoString) → elem x (add y ys) ≡ (elem x ys || str_eq x y)
unfolding elem any
elem-add x y ys = elim (Bool-cases (elem y ys)) [
  | inl e ↦ elim (Bool-cases (str_eq x y)) [
    | inl f ↦ rw (str_eq→eq x y f, str_eq_refl y) (ground (arith, e))
    | inr f ↦ ground (arith, e)
  ]
  | inr e ↦ ground (arith, e)
]

pub elem-add_all :
    (x : GoString) (xs ys : List GoString) → elem x (add_all xs ys) ≡ (elem x ys || elem x xs)
unfolding elem any
elem-add_all x [] ys = ground arith
elem-add_all x (y ∷ xs) ys = elem-add x y (add_all xs ys) ∙ ground (arith, elem-add_all x xs ys)

pub elem-sort_strings : (x : GoString) (xs : List GoString) → elem x (sort_strings xs) ≡ elem x xs
unfolding elem sort_strings
elem-sort_strings x xs = any-sort str_lt (str_eq x) xs

pub elem_nil : (x : GoString) → elem x [] ≡ false
unfolding elem any
elem_nil x = refl

instance abbrev pub list_sets : SetLib
list_sets = record {
  empty = record { keys = [] };
  insert = λ s xs. record { keys = add_all xs s.keys };
  union = λ s t. record { keys = add_all t.keys s.keys };
  intersection = λ s t. record { keys = keep (λ x. elem x t.keys) s.keys };
  has = λ s x. elem x s.keys;
  size = λ s. length (sort_strings s.keys);
  to_list = λ s. sort_strings s.keys;
  has-empty = elem_nil;
  has-insert = λ s xs x. elem-add_all x xs s.keys;
  has-union = λ s t x. elem-add_all x t.keys s.keys;
  has-intersection = λ s t x. elem-keep x (λ y. elem y t.keys) s.keys;
  elem-keys = λ s x. refl;
  elem-to_list = λ s x. elem-sort_strings x s.keys;
  to_list-IsSorted = λ s. sort_strings-IsSorted s.keys;
  size_lem = λ s. refl;
}

instance abbrev pub cluster_network : Network
cluster_network = record {
  system_namespace = bytes "knative-serving";
  cluster_domain = bytes "cluster.local";
  service_hostname = λ name namespace. name ++ b'.' ∷ (namespace ++ bytes ".svc.cluster.local");
}

abbrev reference_to : ObjectMeta → OwnerReference
reference_to meta = record { uid = meta.uid; controller = true }

abbrev controls : List OwnerReference → GoString → Bool
controls [] uid = false
controls (r ∷ rs) uid = (r.controller && str_eq r.uid uid) || controls rs uid

pub controls_single : (meta : ObjectMeta) → controls (reference_to meta ∷ []) meta.uid ≡ true
controls_single meta = rw (str_eq_refl meta.uid) refl

pub filtered :
    (m : StringMap) (p : GoString → Bool) (k : GoString)
    → lookup k (filter_keys (λ j. not (p j)) m) ≡ (if p k then none else lookup k m)
filtered m p k = lookup-filter_keys (λ j. not (p j)) k m ∙ ground arith

instance abbrev pub by_uid : Kmeta
by_uid = record {
  child_name = λ parent suffix. parent ++ suffix;
  new_controller_ref = reference_to;
  is_controlled_by = λ object owner. controls object.owner_references owner.uid;
  filter_map = λ m p. filter_keys (λ j. not (p j)) m;
  lookup-filter_map = filtered;
  controlled_by_owners = λ a b owner e. rw e refl;
  controlled_by_ref = λ object owner e. rw e (controls_single owner);
}

instance abbrev pub match_all : Selectors
match_all = record { as_selector = λ s. ok (λ m. true) }

instance abbrev pub plain_helpers : IngressHelpers
plain_helpers = record {
  expanded_hosts = λ s. s;
  insert_probe = λ ing. ok ing;
  tls_for_visibility = λ ing v. ing.tls;
}

instance abbrev pub knative_keys : Keys
unfolding str_eq
knative_keys = record {
  ingress_label = bytes "networking.knative.dev/ingress";
  origin_secret_name = bytes "networking.internal.knative.dev/originSecretName";
  origin_secret_namespace = bytes "networking.internal.knative.dev/originSecretNamespace";
  certificate_uid = bytes "networking.internal.knative.dev/certificate-uid";
  tls_cert = bytes "tls.crt";
  tls_private_key = bytes "tls.key";
  name_namespace_differ = refl;
  uid_name_differ = refl;
  uid_namespace_differ = refl;
}

instance abbrev pub strict_parsers : ConfigParsers
strict_parsers = record {
  unmarshal_gateways = λ s. err (Error.external (bytes "yaml: not a list"));
  subdomain_errors = λ s. [];
}

abbrev pub same_lists : List GoString → List GoString → Bool
same_lists [] [] = true
same_lists (x ∷ xs) (y ∷ ys) = str_eq x y && same_lists xs ys
same_lists _ _ = false

pub same_lists_refl : (xs : List GoString) → same_lists xs xs ≡ true
same_lists_refl [] = refl
same_lists_refl (x ∷ xs) = rw (str_eq_refl x) (same_lists_refl xs)

abbrev pub same_entries : StringMap → StringMap → Bool
same_entries [] [] = true
same_entries ((j, v) ∷ m) ((k, w) ∷ n) = str_eq j k && (str_eq v w && same_entries m n)
same_entries _ _ = false

pub same_entries_refl : (m : StringMap) → same_entries m m ≡ true
same_entries_refl [] = refl
same_entries_refl ((k, v) ∷ m) = rw (str_eq_refl k, str_eq_refl v) (same_entries_refl m)

instance abbrev pub field_comparisons : Comparisons
field_comparisons = record {
  same_virtual_services = λ a b. same_lists a.hosts b.hosts;
  same_destination_rules = λ a b. str_eq a.host b.host;
  same_gateways = λ a b. same_entries a.selector b.selector;
  same_maps = same_entries;
  semantic_equal = same_entries;
  semantic_equal_certificates = λ a b. same_lists a.dns_names b.dns_names;
  same_virtual_services_refl = λ a. same_lists_refl a.hosts;
  same_destination_rules_refl = λ a. str_eq_refl a.host;
  same_maps_refl = same_entries_refl;
  semantic_equal_refl = same_entries_refl;
  semantic_equal_certificates_refl = λ a. same_lists_refl a.dns_names;
}

-- A block is its own text, and a certificate is for the one name that it holds.
instance abbrev pub plain_certificates : Certificates
plain_certificates = record {
  pem_decode = λ text. some text;
  parse_certificate = λ block. ok (block ∷ []);
}
