-- ===== src/Accessor/Kinds.antt =====
-- The kinds of objects that the controller reconciles: accessor/istio/virtualservice.go,
-- accessor/istio/destinationrule.go, accessor/core/secret.go and accessor/networking/certificate.go.
use knative_extensions_net_i.Base.{◌≡◌, refl, Bool, true, false, not, ◌||◌, [], ◌∷◌, wrapped}
use knative_extensions_net_i.Api.{
  StringMap, ObjectMeta, VirtualService, VirtualServiceSpec, DestinationRule, DestinationRuleSpec,
  Secret, Gateway, Certificate, CertificateSpec,
}
use knative_extensions_net_i.Accessor.{Kind, update_failed}

-- `cmp.Equal` of go-cmp and `equality.Semantic.DeepEqual` of the API machinery
pub record Comparisons : Type 0 where
  pub same_virtual_services : VirtualServiceSpec → VirtualServiceSpec → Bool
  pub same_destination_rules : DestinationRuleSpec → DestinationRuleSpec → Bool
  -- on the specs of two Gateways
  pub same_gateways : Gateway → Gateway → Bool
  pub same_maps : StringMap → StringMap → Bool
  pub semantic_equal : StringMap → StringMap → Bool
  pub semantic_equal_certificates : CertificateSpec → CertificateSpec → Bool
  pub same_virtual_services_refl : (a : VirtualServiceSpec) → same_virtual_services a a ≡ true
  pub same_destination_rules_refl : (a : DestinationRuleSpec) → same_destination_rules a a ≡ true
  pub same_maps_refl : (a : StringMap) → same_maps a a ≡ true
  pub semantic_equal_refl : (a : StringMap) → semantic_equal a a ≡ true
  pub semantic_equal_certificates_refl :
      (a : CertificateSpec) → semantic_equal_certificates a a ≡ true

-- the desired labels and annotations, on the metadata of the current object
unfoldable pub relabelled : ObjectMeta → ObjectMeta → ObjectMeta
relabelled current desired = record current {
  labels = desired.labels;
  annotations = desired.annotations;
}

module _ ⦃cmp : Comparisons⦄ where
  -- `hasDesiredDiff`
  unfoldable pub has_desired_diff : VirtualService → VirtualService → Bool
  has_desired_diff current desired =
      not (cmp.same_virtual_services current.spec desired.spec)
      || (not (cmp.same_maps current.meta.labels desired.meta.labels)
          || not (cmp.same_maps current.meta.annotations desired.meta.annotations))

  -- `destionationRuleIsDifferent`
  unfoldable pub destination_rule_is_different : DestinationRule → DestinationRule → Bool
  destination_rule_is_different current desired =
      not (cmp.same_destination_rules current.spec desired.spec)
      || (not (cmp.same_maps current.meta.labels desired.meta.labels)
          || not (cmp.same_maps current.meta.annotations desired.meta.annotations))

  unfoldable pub secret_differs : Secret → Secret → Bool
  secret_differs current desired =
      not (cmp.semantic_equal current.content desired.content)
      || not (cmp.semantic_equal current.meta.labels desired.meta.labels)

  -- what `ReconcileVirtualService` does with a VirtualService
  unfoldable pub virtual_service_kind : Kind VirtualService
  unfolding has_desired_diff relabelled
  virtual_service_kind = record {
    meta = λ vs. vs.meta;
    differs = has_desired_diff;
    merged = λ current desired. record {
      meta = relabelled current.meta desired.meta;
      spec = desired.spec;
    };
    get_failed = λ e. e;
    created_of = λ desired object. desired;
    update_failure_events = λ desired object. [];
    updated_of = λ desired object. desired;
    not_owned_of = λ desired object. desired;
    no_recorder = "recoder for reconciling VirtualService %s/%s is not created";
    create_failed = "failed to create VirtualService: %w";
    update_failed = "failed to update VirtualService: %w";
    not_owned = "owner: %s with Type %T does not own VirtualService: %q";
  }

  -- what `ReconcileDestinationRule` does with a DestinationRule
  unfoldable pub destination_rule_kind : Kind DestinationRule
  unfolding destination_rule_is_different relabelled
  destination_rule_kind = record {
    meta = λ dr. dr.meta;
    differs = destination_rule_is_different;
    merged = λ current desired. record {
      meta = relabelled current.meta desired.meta;
      spec = desired.spec;
    };
    get_failed = λ e. e;
    created_of = λ desired object. desired;
    update_failure_events = λ desired object. [];
    updated_of = λ desired object. desired;
    not_owned_of = λ desired object. desired;
    no_recorder = "recorder for reconciling DestinationRule %s/%s is not created";
    create_failed = "failed to create DestinationRule: %w";
    update_failed = "failed to update DestinationRule: %w";
    not_owned = "owner: %s with Type %T does not own DestinationRule: %q";
  }

  -- what `ReconcileSecret` does with a Secret: annotations and type are left as they are
  unfoldable pub secret_kind : Kind Secret
  unfolding secret_differs
  secret_kind = record {
    meta = λ s. s.meta;
    differs = secret_differs;
    merged = λ current desired. record {
      meta = record {
        name = current.meta.name;
        namespace = current.meta.namespace;
        uid = current.meta.uid;
        labels = desired.meta.labels;
        annotations = current.meta.annotations;
        owner_references = current.meta.owner_references;
      };
      content = desired.content;
      secret_type = current.secret_type;
    };
    get_failed = wrapped "failed to get Secret: %w";
    created_of = λ desired object. desired;
    update_failure_events = λ desired object. update_failed desired.namespace desired.name ∷ [];
    updated_of = λ desired object. object;
    not_owned_of = λ desired object. object;
    no_recorder = "recoder for reconciling Secret %s/%s is not created";
    create_failed = "failed to create Secret: %w";
    update_failed = "failed to update Secret: %w";
    not_owned = "owner: %s with Type %T does not own Secret: %s";
  }

  -- what `ReconcileCertificate` does with a Certificate: the metadata is left as it is
  unfoldable pub certificate_kind : Kind Certificate
  certificate_kind = record {
    meta = λ c. c.meta;
    differs = λ current desired. not (cmp.semantic_equal_certificates current.spec desired.spec);
    merged = λ current desired. record { meta = current.meta; spec = desired.spec };
    get_failed = wrapped "failed to get Certificate: %w";
    created_of = λ desired object. object;
    update_failure_events = λ desired object. update_failed object.namespace object.name ∷ [];
    updated_of = λ desired object. object;
    not_owned_of = λ desired object. object;
    no_recorder = "recoder for reconciling Certificate %s/%s is not created";
    create_failed = "failed to create Certificate: %w";
    update_failed = "failed to update Certificate: %w";
    not_owned = "owner: %s with Type %T does not own Certificate: %q";
  }

-- The merged object is as desired, and keeps its name, namespace and owners.
pub record IsLawful {ℓ} {A : Type ℓ} (kind : Kind A) : Type ℓ where
  pub differs_self : (d : A) → kind.differs d d ≡ false
  pub merged_same : (a d : A) → kind.differs (kind.merged a d) d ≡ false
  pub merged_name : (a d : A) → (kind.meta (kind.merged a d)).name ≡ (kind.meta a).name
  pub merged_namespace :
      (a d : A) → (kind.meta (kind.merged a d)).namespace ≡ (kind.meta a).namespace
  pub merged_owners :
      (a d : A) → (kind.meta (kind.merged a d)).owner_references ≡ (kind.meta a).owner_references

module _ ⦃cmp : Comparisons⦄ where
  pub virtual_service_kind-IsLawful : IsLawful virtual_service_kind
  unfolding virtual_service_kind
  virtual_service_kind-IsLawful = record {
    differs_self = λ d.
        rw
          (
            cmp.same_virtual_services_refl d.spec,
            cmp.same_maps_refl d.meta.labels,
            cmp.same_maps_refl d.meta.annotations,
          )
          refl;
    merged_same = λ a d.
        rw
          (
            cmp.same_virtual_services_refl d.spec,
            cmp.same_maps_refl d.meta.labels,
            cmp.same_maps_refl d.meta.annotations,
          )
          refl;
    merged_name = λ a d. refl;
    merged_namespace = λ a d. refl;
    merged_owners = λ a d. refl;
  }

  pub destination_rule_kind-IsLawful : IsLawful destination_rule_kind
  unfolding destination_rule_kind
  destination_rule_kind-IsLawful = record {
    differs_self = λ d.
        rw
          (
            cmp.same_destination_rules_refl d.spec,
            cmp.same_maps_refl d.meta.labels,
            cmp.same_maps_refl d.meta.annotations,
          )
          refl;
    merged_same = λ a d.
        rw
          (
            cmp.same_destination_rules_refl d.spec,
            cmp.same_maps_refl d.meta.labels,
            cmp.same_maps_refl d.meta.annotations,
          )
          refl;
    merged_name = λ a d. refl;
    merged_namespace = λ a d. refl;
    merged_owners = λ a d. refl;
  }

  pub secret_kind-IsLawful : IsLawful secret_kind
  unfolding secret_kind
  secret_kind-IsLawful = record {
    differs_self =
        λ d. rw (cmp.semantic_equal_refl d.content, cmp.semantic_equal_refl d.meta.labels) refl;
    merged_same =
        λ a d. rw (cmp.semantic_equal_refl d.content, cmp.semantic_equal_refl d.meta.labels) refl;
    merged_name = λ a d. refl;
    merged_namespace = λ a d. refl;
    merged_owners = λ a d. refl;
  }

  pub certificate_kind-IsLawful : IsLawful certificate_kind
  unfolding certificate_kind
  certificate_kind-IsLawful = record {
    differs_self = λ d. rw (cmp.semantic_equal_certificates_refl d.spec) refl;
    merged_same = λ a d. rw (cmp.semantic_equal_certificates_refl d.spec) refl;
    merged_name = λ a d. refl;
    merged_namespace = λ a d. refl;
    merged_owners = λ a d. refl;
  }
