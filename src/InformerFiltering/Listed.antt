-- ===== src/InformerFiltering/Listed.antt =====
-- The copies of secrets and the labels by which the controller finds them again.
use knative_extensions_net_i.Base.{
  ◌≡◌, refl, Bool, true, false, List, [], Bool-cases, inl, inr, Member, ◌∙◌, arith, none, some, sym,
  ap, ◌∷◌, Option, ◌&&◌,
}
use knative_extensions_net_i.GoString.{GoString, str_eq, str_eq→eq, str_eq_refl, str_eq_iff}
use knative_extensions_net_i.Api.{
  StringMap, has_key, has_key-insert, Secret, GoMap, lookup, lookup-insert, insert,
}
use knative_extensions_net_i.Platform.{Keys}
use knative_extensions_net_i.Resources.Selection.{ServiceName}
use knative_extensions_net_i.Resources.Secrets.{
  copies, copy_of, make_secret, make_target_secret_labels, label_value,
}
use knative_extensions_net_i.Resources.Secrets.Copies.{copies_iff}
use knative_extensions_net_i.InformerFiltering.{
  FilteredInformers, should_filter_by_certificate_uid, filtering_label_selector,
}

str_eq-swap : (a b : GoString) → str_eq b a ≡ false → str_eq a b ≡ false
str_eq-swap a b h = ground (arith, str_eq_iff a b, str_eq_iff b a)

-- `labels.SelectorFromSet(selector).Matches(labels)`: every label of the selector is there
abbrev pub has_value : GoString → Option GoString → Bool
has_value v none = false
has_value v (some w) = str_eq v w

abbrev pub selected_by : StringMap → StringMap → Bool
selected_by [] labels = true
selected_by ((k, v) ∷ selector) labels =
    has_value v (lookup k labels) && selected_by selector labels

module _ ⦃informers : FilteredInformers⦄ ⦃keys : Keys⦄ where
  key_or_empty :
      (key : GoString) (labels : StringMap)
      → has_key key labels ≡ true
      → informers.listed key labels ≡ true
  key_or_empty key labels h = elim (Bool-cases (str_eq key [])) [
    | inl e ↦ rw (str_eq→eq key [] e) (informers.listed_all labels)
    | inr e ↦ informers.listed_key key labels e ∙ h
  ]

  copy_has_key :
      (target : Secret → GoString) (origin : Secret) (meta : ServiceName)
      → has_key keys.certificate_uid (copy_of target origin meta).meta.labels ≡ true
  unfolding copy_of make_secret
  copy_has_key target origin meta =
      has_key-insert keys.certificate_uid keys.certificate_uid _ _
      ∙ rw (str_eq_refl keys.certificate_uid) refl

  -- The certificate's label is none of those by which the copies are looked up.
  no_uid_label :
      (name namespace : GoString)
      → lookup keys.certificate_uid (make_target_secret_labels name namespace) ≡ none
  unfolding make_target_secret_labels lookup
  no_uid_label name namespace =
      lookup-insert keys.origin_secret_name keys.certificate_uid (label_value name)
        ((keys.origin_secret_namespace, namespace) ∷ [])
      ∙ rw
          (
            str_eq-swap keys.origin_secret_name keys.certificate_uid keys.uid_name_differ,
            str_eq-swap keys.origin_secret_namespace keys.certificate_uid keys.uid_namespace_differ,
          )
          refl

  labelled_name :
      (name namespace : GoString)
      → lookup keys.origin_secret_name (make_target_secret_labels name namespace)
        ≡ some (label_value name)
  unfolding make_target_secret_labels
  labelled_name name namespace =
      lookup-insert keys.origin_secret_name keys.origin_secret_name (label_value name)
        ((keys.origin_secret_namespace, namespace) ∷ [])
      ∙ rw (str_eq_refl keys.origin_secret_name) refl

  labelled_namespace :
      (name namespace : GoString)
      → lookup keys.origin_secret_namespace (make_target_secret_labels name namespace)
        ≡ some namespace
  unfolding make_target_secret_labels lookup
  labelled_namespace name namespace =
      lookup-insert keys.origin_secret_name keys.origin_secret_namespace (label_value name)
        ((keys.origin_secret_namespace, namespace) ∷ [])
      ∙ rw (keys.name_namespace_differ, str_eq_refl keys.origin_secret_namespace) refl

  kept_label :
      (target : Secret → GoString) (origin : Secret) (meta : ServiceName) (k v : GoString)
      → lookup k (make_target_secret_labels origin.meta.name origin.meta.namespace) ≡ some v
      → lookup k (copy_of target origin meta).meta.labels ≡ some v
  unfolding copy_of make_secret
  kept_label target origin meta k v h =
      let labels = make_target_secret_labels origin.meta.name origin.meta.namespace in
      lookup-insert keys.certificate_uid k _ labels
      ∙ elim (Bool-cases (str_eq keys.certificate_uid k)) [
        | inl e ↦
            let same = str_eq→eq keys.certificate_uid k e in
            absurd (
              cc (
                sym (no_uid_label origin.meta.name origin.meta.namespace)
                ∙ ap (λ x. lookup x labels) same
                ∙ h))
        | inr e ↦ rw e h
      ]

  copy_selected :
      (target : Secret → GoString) (origin : Secret) (meta : ServiceName)
      → selected_by
          (make_target_secret_labels origin.meta.name origin.meta.namespace)
          (copy_of target origin meta).meta.labels
        ≡ true
  unfolding make_target_secret_labels insert
  copy_selected target origin meta =
      let name = origin.meta.name in
      let namespace = origin.meta.namespace in
      let apart =
        str_eq-swap keys.origin_secret_namespace keys.origin_secret_name
          keys.name_namespace_differ in
      let a =
        kept_label target origin meta keys.origin_secret_namespace namespace
          (labelled_namespace name namespace) in
      let b =
        kept_label target origin meta keys.origin_secret_name (label_value name)
          (labelled_name name namespace) in
      rw (apart, a, b, str_eq_refl namespace, str_eq_refl (label_value name)) refl

  -- Whatever the environment asks for, the filtered informer lists every copy of a secret that
  -- MakeSecrets and MakeWildcardSecrets make, and the copy has the labels by which the cleanup
  -- looks for the copies of its origin.
  pub copies-listed :
      (enable : GoString) (target : Secret → GoString) (metas : List ServiceName)
      (origins : GoMap Secret) (s : Secret)
      → Member s (copies target metas origins)
      → (informers.listed (filtering_label_selector enable) s.meta.labels ≡ true)
        × ((key : GoString) × (origin : Secret) × Member (key, origin) origins
            × (selected_by
                  (make_target_secret_labels origin.meta.name origin.meta.namespace)
                  s.meta.labels
                ≡ true))
  unfolding filtering_label_selector
  copies-listed enable target metas origins s m =
      let (key, origin, n, (meta, i, d, e)) = (copies_iff target metas origins s).0 m in
      (
        elim (Bool-cases (should_filter_by_certificate_uid enable)) [
          | inl f ↦
              rw (e, f) (key_or_empty keys.certificate_uid _ (copy_has_key target origin meta))
          | inr f ↦ rw f (informers.listed_all s.meta.labels)
        ],
        (key, origin, n, rw e (copy_selected target origin meta)),
      )
