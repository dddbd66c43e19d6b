-- ===== src/Resources/Secrets/Origin.antt =====
-- The origin of a copied secret: `ExtractOriginSecretRef` and `makeSecret` of
-- resources/secret.go.
use knative_extensions_net_i.Base.{
  ◌-◌, ◌≤◌, ◌≡◌, refl, ap, ◌∙◌, true, false, not, [], ◌∷◌, arith, if◌then◌else◌, leb, ltb, length,
  length-append, length-take, take, Bool-cases, inl, inr,
}
use knative_extensions_net_i.GoString.{GoString, str_eq, str_eq_refl}
use knative_extensions_net_i.GoString.Decimal.{decimal, length-decimal}
use knative_extensions_net_i.GoString.Adler.{checksum, checksum-lt}
use knative_extensions_net_i.Api.{get, insert, get-insert, Secret, lookup}
use knative_extensions_net_i.Platform.{Keys}
use knative_extensions_net_i.Resources.Selection.{ServiceName}
use knative_extensions_net_i.Resources.Secrets.{
  label_value, make_target_secret_labels, make_target_secret_annotations, make_secret, copy_of,
  secret_ref, extract_origin_secret_ref,
}

-- The value is at most 63 bytes long, as a label's value has to be.
pub length-label_value : (name : GoString) → length (label_value name) ≤ 63
unfolding label_value
length-label_value name = elim (Bool-cases (leb (length name) 63)) [
  | inl e ↦ rw e (ground arith)
  | inr e ↦
      let suffix = decimal (checksum name) in
      let digits = length-decimal (checksum name) (checksum-lt name) in
      rw e (
        omega (
          arith,
          length-append (take (63 - length suffix - 1) name) (b'-' ∷ suffix),
          length-take (63 - length suffix - 1) name (ground arith),
        ))
]

get_single : (k v : GoString) → get k ((k, v) ∷ []) ≡ v
unfolding insert
get_single k v = get-insert k k v [] ∙ rw (str_eq_refl k) refl

get_nil : (k : GoString) → get k [] ≡ []
unfolding get lookup
get_nil k = refl

nonempty : (name : GoString) → leb (length name) 63 ≡ false → str_eq name [] ≡ false
unfolding str_eq
nonempty [] h = cc
nonempty (c ∷ name) h = refl

module _ ⦃keys : Keys⦄ where
  -- The label with the origin's name.
  get_name_label :
      (name namespace : GoString)
      → get keys.origin_secret_name (make_target_secret_labels name namespace) ≡ label_value name
  unfolding make_target_secret_labels
  get_name_label name namespace =
      get-insert keys.origin_secret_name keys.origin_secret_name (label_value name)
        ((keys.origin_secret_namespace, namespace) ∷ [])
      ∙ rw (str_eq_refl keys.origin_secret_name) refl

  get_namespace_label :
      (name namespace : GoString)
      → get keys.origin_secret_namespace (make_target_secret_labels name namespace) ≡ namespace
  unfolding make_target_secret_labels
  get_namespace_label name namespace =
      get-insert keys.origin_secret_name keys.origin_secret_namespace (label_value name)
        ((keys.origin_secret_namespace, namespace) ∷ [])
      ∙ rw keys.name_namespace_differ (get_single keys.origin_secret_namespace namespace)

  module _ (target : Secret → GoString) (origin : Secret) (meta : ServiceName) where
    copy_labels :
        (k : GoString)
        → str_eq keys.certificate_uid k ≡ false
        → get k (copy_of target origin meta).meta.labels
          ≡ get k (make_target_secret_labels origin.meta.name origin.meta.namespace)
    unfolding copy_of make_secret
    copy_labels k h =
        get-insert keys.certificate_uid k (get keys.certificate_uid origin.meta.labels)
          (make_target_secret_labels origin.meta.name origin.meta.namespace)
        ∙ rw h refl

    name_found :
        (if not (
            str_eq
              (get keys.origin_secret_name (make_target_secret_annotations origin.meta.name))
              [])
          then get keys.origin_secret_name (make_target_secret_annotations origin.meta.name)
          else label_value origin.meta.name)
        ≡ origin.meta.name
    unfolding make_target_secret_annotations label_value str_eq
    name_found = elim (Bool-cases (leb (length origin.meta.name) 63)) [
      | inl e ↦
          let short : ltb 63 (length origin.meta.name) ≡ false = ground arith in
          rw (short, get_nil keys.origin_secret_name, e) refl
      | inr e ↦
          let long : ltb 63 (length origin.meta.name) ≡ true = ground arith in
          rw
            (long, get_single keys.origin_secret_name origin.meta.name, nonempty origin.meta.name e)
            refl
    ]

    copied_name :
        (if not
            (str_eq (get keys.origin_secret_name (copy_of target origin meta).meta.annotations) [])
          then get keys.origin_secret_name (copy_of target origin meta).meta.annotations
          else label_value origin.meta.name)
        ≡ origin.meta.name
    unfolding copy_of make_secret
    copied_name = name_found

    extract_ref :
        extract_origin_secret_ref (copy_of target origin meta)
        ≡ secret_ref origin.meta.namespace origin.meta.name
    unfolding extract_origin_secret_ref
    extract_ref =
        rw
          (
            copy_labels keys.origin_secret_namespace keys.uid_namespace_differ,
            get_namespace_label origin.meta.name origin.meta.namespace,
            copy_labels keys.origin_secret_name keys.uid_name_differ,
            get_name_label origin.meta.name origin.meta.namespace,
          )
          (ap (secret_ref origin.meta.namespace) copied_name)

    -- From a copied secret, however long the name of its origin, ExtractOriginSecretRef
    -- gives the reference of the origin; the copy has the content and the type of the
    -- origin, lies in the service's namespace, and its name label has at most 63 bytes.
    pub extract-copy_of :
        (extract_origin_secret_ref (copy_of target origin meta)
          ≡ secret_ref origin.meta.namespace origin.meta.name)
        × ((copy_of target origin meta).content ≡ origin.content)
        × ((copy_of target origin meta).secret_type ≡ origin.secret_type)
        × ((copy_of target origin meta).meta.namespace ≡ meta.namespace)
        × (length (get keys.origin_secret_name (copy_of target origin meta).meta.labels) ≤ 63)
    extract-copy_of = (
      extract_ref,
      unfold copy_of make_secret in refl,
      unfold copy_of make_secret in refl,
      unfold copy_of make_secret in refl,
      rw
          (
            copy_labels keys.origin_secret_name keys.uid_name_differ,
            get_name_label origin.meta.name origin.meta.namespace,
          )
          (length-label_value origin.meta.name),
    )
