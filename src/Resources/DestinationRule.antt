-- ===== src/Resources/DestinationRule.antt =====
-- resources/destinationrule.go: the DestinationRule for TLS to a service.
use knative_extensions_net_i.Base.{Bool, [], ◌∷◌, some}
use knative_extensions_net_i.GoString.{GoString}
use knative_extensions_net_i.Api.{Ingress, DestinationRule}
use knative_extensions_net_i.Platform.{Kmeta, Keys}
use knative_extensions_net_i.Resources.VirtualService.{child_labels}

-- knative.dev/networking/pkg/certificates and knative.dev/networking/pkg/config
pub record RoutingNames : Type 0 where
  -- `config.ServingRoutingCertName`
  pub serving_routing_cert : GoString
  -- `certificates.DataPlaneRoutingSAN`
  pub data_plane_routing_san : GoString
  -- `certificates.DataPlaneUserSAN(namespace)`
  pub data_plane_user_san : GoString → GoString

module _ ⦃kmeta : Kmeta⦄ ⦃keys : Keys⦄ ⦃names : RoutingNames⦄ where
  -- `MakeInternalEncryptionDestinationRule(host, ing, http2)`
  unfoldable pub make_internal_encryption_destination_rule :
      GoString → Ingress → Bool → DestinationRule
  unfolding child_labels
  make_internal_encryption_destination_rule host ing http2 = record {
    meta = record {
      name = host;
      namespace = ing.meta.namespace;
      uid = [];
      labels = child_labels ing;
      annotations = ing.meta.annotations;
      owner_references = kmeta.new_controller_ref ing.meta ∷ [];
    };
    spec = record {
      host = host;
      traffic_policy = some (record {
        tls = record {
          credential_name = names.serving_routing_cert;
          subject_alt_names =
              names.data_plane_routing_san ∷ names.data_plane_user_san ing.meta.namespace ∷ [];
        };
        h2_upgrade = http2;
      });
      subsets = [];
    };
  }
