-- ===== src/Defaults/Labels.antt =====
-- `SetDefaults` of deployment_defaults.go: the labels after it, and a second call.
use knative_extensions_net_i.Base.{
  ◌≡◌, refl, ap, ◌∙◌, false, none, some, List, [], ◌∷◌, Option, Bool-cases, inl, inr, arith,
  if◌then◌else◌, Member, sym,
}
use knative_extensions_net_i.GoString.{GoString, str_eq, str_eq→eq, str_eq_refl, str_eq_iff}
use knative_extensions_net_i.Api.{StringMap, get, insert, lookup, lookup-insert}
use knative_extensions_net_i.Defaults.{
  CanonicalLabels, IstioDeployment, label_both, set_revision, set_name, set_defaults, serving_name,
  first_present, serving_revision_label_key, serving_service_label_key,
  serving_configuration_label_key, bytes, present_or,
}

-- A value that is in the map changes nothing.
insert_same : (k v : GoString) (m : StringMap) → lookup k m ≡ some v → insert k v m ≡ m
unfolding insert lookup
insert_same k v [] h = absurd (cc h)
insert_same k v ((j, w) ∷ m) h = elim (Bool-cases (str_eq j k)) [
  | inl e ↦
      let same : some w ≡ some v = rw e at h in
      let here : w ≡ v = cc same in rw (e, here, str_eq→eq j k e) refl
  | inr e ↦ rw e (ap (◌∷◌ (j, w)) (insert_same k v m (rw e at h)))
]

-- What a label is after a value was set, "" leaving it as it is.
abbrev pub set_or_kept : GoString → Option GoString → Option GoString
set_or_kept [] old = old
set_or_kept (c ∷ value) old = some (c ∷ value)

lookup-label_both :
    (k value j : GoString) (r : IstioDeployment)
    → (lookup j (label_both k value r).labels
        ≡ (if str_eq k j then set_or_kept value (lookup j r.labels) else lookup j r.labels))
      × (lookup j (label_both k value r).template_labels ≡ (
          if str_eq k j
          then set_or_kept value (lookup j r.template_labels)
          else lookup j r.template_labels))
unfolding label_both
lookup-label_both k [] j r = (ground arith, ground arith)
lookup-label_both k (c ∷ value) j r =
    (lookup-insert k j (c ∷ value) r.labels, lookup-insert k j (c ∷ value) r.template_labels)

-- Both maps of labels have the value already, or there is none.
abbrev Labelled : GoString → GoString → IstioDeployment → Type 0
Labelled k value r =
    (set_or_kept value (lookup k r.labels) ≡ lookup k r.labels)
    × (set_or_kept value (lookup k r.template_labels) ≡ lookup k r.template_labels)

label_both_again :
    (k value : GoString) (r : IstioDeployment) → Labelled k value r → label_both k value r ≡ r
unfolding label_both
label_both_again k [] r h = refl
label_both_again k (c ∷ value) r (a, b) =
    rw
      (
        insert_same k (c ∷ value) r.labels (sym a),
        insert_same k (c ∷ value) r.template_labels (sym b),
      )
      refl

first_present_same :
    (ks : List GoString) (m n : StringMap)
    → ((k : GoString) → Member k ks → lookup k m ≡ lookup k n)
    → first_present ks m ≡ first_present ks n
unfolding first_present
first_present_same [] m n h = refl
first_present_same (k ∷ ks) m n h =
    rw (h k (inl refl), first_present, first_present_same ks m n (λ j i. h j (inr i))) refl

get_same : (k : GoString) (m n : StringMap) → lookup k m ≡ lookup k n → get k m ≡ get k n
unfolding get
get_same k m n e = rw (e, get) refl

module _ ⦃canonical : CanonicalLabels⦄ where
  abbrev revision_of : IstioDeployment → GoString
  revision_of r = get serving_revision_label_key r.labels

  -- After the revision's label is set, the labels of Knative are the same.
  serving_after_revision :
      (r : IstioDeployment) → serving_name (set_revision r).labels ≡ serving_name r.labels
  unfolding set_revision serving_name
  serving_after_revision r =
      first_present_same (serving_service_label_key ∷ serving_configuration_label_key ∷ []) _ _ same
    where
      same :
          (k : GoString)
          → Member k (serving_service_label_key ∷ serving_configuration_label_key ∷ [])
          → lookup k (set_revision r).labels ≡ lookup k r.labels
      same k (inl e) = rw e (
          (lookup-label_both canonical.canonical_revision (revision_of r) serving_service_label_key
            r).0
          ∙ rw canonical.revision_not_service refl)
      same k (inr (inl e)) = rw e (
          (lookup-label_both canonical.canonical_revision (revision_of r)
            serving_configuration_label_key r).0
          ∙ rw canonical.revision_not_configuration refl)
      same k (inr (inr e)) = elim e [ ]

  -- the value of a label where it is there
  abbrev pub label_or : Option GoString → GoString → GoString
  label_or none rest = rest
  label_or (some value) rest = value

  -- The name of the service, or else of the configuration, or else "".
  abbrev pub name_of : StringMap → GoString
  name_of labels =
      label_or (lookup (bytes "serving.knative.dev/service") labels)
        (label_or (lookup (bytes "serving.knative.dev/configuration") labels) [])

  serving_name_of : (labels : StringMap) → serving_name labels ≡ name_of labels
  unfolding serving_name first_present present_or
  serving_name_of labels = ground arith

  -- the revision, or ""
  abbrev pub revision_label : StringMap → GoString
  revision_label labels = label_or (lookup (bytes "serving.knative.dev/revision") labels) []

  get_revision :
      (labels : StringMap) → get serving_revision_label_key labels ≡ revision_label labels
  unfolding get
  get_revision labels = ground arith

  -- What a label is after a name and a revision were set.
  abbrev labelled_by : GoString → GoString → GoString → Option GoString → Option GoString
  labelled_by name revision key old =
      if str_eq canonical.canonical_name key
      then set_or_kept name old
      else if str_eq canonical.canonical_revision key
      then set_or_kept revision old
      else old

  abbrev coded : IstioDeployment → GoString → Option GoString → Option GoString
  coded r = labelled_by (serving_name r.labels) (revision_of r)

  -- What a label is after the defaults.
  abbrev pub defaulted : IstioDeployment → GoString → Option GoString → Option GoString
  defaulted r key old =
      if str_eq canonical.canonical_name key
      then set_or_kept (name_of r.labels) old
      else if str_eq canonical.canonical_revision key
      then set_or_kept (revision_label r.labels) old
      else old

  coded-defaulted :
      (r : IstioDeployment) (key : GoString) (old : Option GoString)
      → coded r key old ≡ defaulted r key old
  coded-defaulted r key old =
      ap (λ n. labelled_by n (revision_of r) key old) (serving_name_of r.labels)
      ∙ ap (λ v. labelled_by (name_of r.labels) v key old) (get_revision r.labels)

  set_defaults_labels :
      (r : IstioDeployment) (key : GoString)
      → (lookup key (set_defaults r).labels ≡ coded r key (lookup key r.labels))
        × (lookup key (set_defaults r).template_labels ≡ coded r key (lookup key r.template_labels))
  unfolding set_defaults set_name set_revision
  set_defaults_labels r key =
      let (a, b) =
        lookup-label_both canonical.canonical_name (serving_name (set_revision r).labels) key
          (set_revision r) in
      let (c, d) = lookup-label_both canonical.canonical_revision (revision_of r) key r in
      let n = serving_after_revision r in
      elim (Bool-cases (str_eq canonical.canonical_name key)) [
        | inl e ↦
            let f : str_eq canonical.canonical_revision key ≡ false =
              rw (← str_eq→eq canonical.canonical_name key e) canonical.labels_differ in
            (
              a ∙ rw (n, e) (ap (set_or_kept (serving_name r.labels)) (c ∙ rw f refl)),
              b ∙ rw (n, e) (ap (set_or_kept (serving_name r.labels)) (d ∙ rw f refl)),
            )
        | inr e ↦ (a ∙ rw e c, b ∙ rw e d)
      ]

  -- SetDefaults gives the deployment and its pod template the label of the service as the
  -- canonical name, or that of the configuration where there is no label of the service, and
  -- the label of the revision as the canonical revision, each where it is not empty, and
  -- changes no other label.
  pub lookup-set_defaults :
      (r : IstioDeployment) (key : GoString)
      → (lookup key (set_defaults r).labels ≡ defaulted r key (lookup key r.labels))
        × (lookup key (set_defaults r).template_labels
            ≡ defaulted r key (lookup key r.template_labels))
  lookup-set_defaults r key =
      let (a, b) = set_defaults_labels r key in
      (
        a ∙ coded-defaulted r key (lookup key r.labels),
        b ∙ coded-defaulted r key (lookup key r.template_labels),
      )

  set_or_kept_twice :
      (v : GoString) (old : Option GoString) → set_or_kept v (set_or_kept v old) ≡ set_or_kept v old
  set_or_kept_twice [] old = refl
  set_or_kept_twice (c ∷ v) old = refl

  module _ (r : IstioDeployment) where
    -- The labels of Knative stay.
    kept :
        (key : GoString)
        → str_eq canonical.canonical_name key ≡ false
        → str_eq canonical.canonical_revision key ≡ false
        → lookup key (set_defaults r).labels ≡ lookup key r.labels
    kept key n v = (set_defaults_labels r key).0 ∙ rw (n, v) refl

    serving_name_kept : serving_name (set_defaults r).labels ≡ serving_name r.labels
    unfolding serving_name
    serving_name_kept =
        first_present_same (serving_service_label_key ∷ serving_configuration_label_key ∷ []) _ _
          same
      where
        same :
            (k : GoString)
            → Member k (serving_service_label_key ∷ serving_configuration_label_key ∷ [])
            → lookup k (set_defaults r).labels ≡ lookup k r.labels
        same k (inl e) = rw e (
            kept serving_service_label_key canonical.name_not_service
              canonical.revision_not_service)
        same k (inr (inl e)) = rw e (
            kept serving_configuration_label_key canonical.name_not_configuration
              canonical.revision_not_configuration)
        same k (inr (inr e)) = elim e [ ]

    revision_kept : revision_of (set_defaults r) ≡ revision_of r
    unfolding get
    revision_kept = get_same serving_revision_label_key (set_defaults r).labels r.labels (
        kept serving_revision_label_key canonical.name_not_revision canonical.revision_not_revision)

    set_again :
        (key value : GoString)
        → ((old : Option GoString) → coded r key old ≡ set_or_kept value old)
        → label_both key value (set_defaults r) ≡ set_defaults r
    set_again key value h =
        let (a, b) = set_defaults_labels r key in
        label_both_again key value (set_defaults r) (
          rw (a, h (lookup key r.labels)) (set_or_kept_twice value (lookup key r.labels)),
          rw (b, h (lookup key r.template_labels))
              (set_or_kept_twice value (lookup key r.template_labels)),
        )

    set_revision_again : set_revision (set_defaults r) ≡ set_defaults r
    unfolding set_revision
    set_revision_again = rw revision_kept (
        set_again canonical.canonical_revision (revision_of r)
          (λ old. rw (str_eq_refl canonical.canonical_revision, name_not_revision_label) refl))
      where
        name_not_revision_label :
            str_eq canonical.canonical_name canonical.canonical_revision ≡ false
        name_not_revision_label = ground (
          arith,
          canonical.labels_differ,
          str_eq_iff canonical.canonical_name canonical.canonical_revision,
          str_eq_iff canonical.canonical_revision canonical.canonical_name,
        )

    set_name_again : set_name (set_defaults r) ≡ set_defaults r
    unfolding set_name
    set_name_again = rw serving_name_kept (
        set_again canonical.canonical_name (serving_name r.labels)
          (λ old. rw (str_eq_refl canonical.canonical_name) refl))

  twice_lem :
      (r : IstioDeployment)
      → set_defaults (set_defaults r) ≡ set_name (set_revision (set_defaults r))
  unfolding set_defaults
  twice_lem r = refl

  -- A second SetDefaults changes nothing.
  pub set_defaults_idempotent :
      (r : IstioDeployment) → set_defaults (set_defaults r) ≡ set_defaults r
  set_defaults_idempotent r = twice_lem r ∙ ap set_name (set_revision_again r) ∙ set_name_again r
