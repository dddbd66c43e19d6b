-- ===== src/Config/Parse.antt =====
-- The two formats of the ConfigMap: `parseNewFormat`, `parseOldFormat`, `NewIstioFromConfigMap`.
use knative_extensions_net_i.Base.{
  Bool, not, ◌&&◌, ◌||◌, Option, none, some, List, [], ◌∷◌, Result, ok, err, ◌>>=◌, errorf,
  wrap_error, if◌then◌else◌, any, map, drop, length, ◌==◌, String,
}
use knative_extensions_net_i.GoString.{GoString, str_eq, has_prefix}
use knative_extensions_net_i.GoString.Order.{sort_strings}
use knative_extensions_net_i.GoString.Split.{split_n}
use knative_extensions_net_i.Api.{StringMap, insert, get, has_key, lookup}
use knative_extensions_net_i.Platform.{Network, Selectors}
use knative_extensions_net_i.Config.{
  GatewayConfig, IstioConfig, ConfigParsers, gateway_key_prefix, local_gateway_key_prefix,
  external_gateways_key, local_gateways_key, default_external_gateways, default_local_gateways,
  default_values, validate,
}

-- `isNewFormatDefined`
unfoldable pub is_new_format_defined : StringMap → Bool
unfolding has_key
is_new_format_defined config_map =
    has_key external_gateways_key config_map || has_key local_gateways_key config_map

-- `isOldFormatDefined`
unfoldable pub is_old_format_defined : StringMap → Bool
unfolding has_prefix any
is_old_format_defined = any λ (entry : GoString × GoString).
    has_prefix entry.0 gateway_key_prefix || has_prefix entry.0 local_gateway_key_prefix

-- the loop over the ConfigMap of `parseOldFormatGateways`: `gatewayNames` and `urls`
unfoldable pub old_format_names : GoString → StringMap → List GoString
unfolding has_prefix
old_format_names prefix [] = []
old_format_names prefix ((k, v) ∷ config_map) =
    let rest = old_format_names prefix config_map in
    if not (has_prefix k prefix) || str_eq k prefix then rest else drop (length prefix) k ∷ rest

unfoldable pub old_format_urls : GoString → StringMap → StringMap → StringMap
unfolding has_prefix
old_format_urls prefix urls [] = urls
old_format_urls prefix urls ((k, v) ∷ config_map) =
    old_format_urls prefix
      (if not (has_prefix k prefix) || str_eq k prefix
        then urls
        else insert (drop (length prefix) k) v urls)
      config_map

-- Each list has exactly one gateway with no selector, the last check of `parseNewFormat`.
unfoldable pub check_defaults : IstioConfig → Result IstioConfig
unfolding default_external_gateways default_local_gateways
check_defaults ret =
    if not (length (default_external_gateways ret) == 1)
    then err (errorf "exactly one external gateway with no selector can be defined, here: %v" [])
    else if not (length (default_local_gateways ret) == 1)
    then err (errorf "exactly one local gateway with no selector can be defined, here: %v" [])
    else ok ret

module _ ⦃net : Network⦄ where
  -- the parts of a gateway's name: one, or a namespace and a name
  unfoldable pub gateway_of_parts : GoString → List GoString → GatewayConfig
  gateway_of_parts url [] = record {
    namespace = net.system_namespace;
    name = [];
    service_url = url;
    label_selector = none;
  }
  gateway_of_parts url (name ∷ []) = record {
    namespace = net.system_namespace;
    name = name;
    service_url = url;
    label_selector = none;
  }
  gateway_of_parts url (namespace ∷ name ∷ _) = record {
    namespace = namespace;
    name = name;
    service_url = url;
    label_selector = none;
  }

  -- `parseOldFormatGateways`
  unfoldable pub parse_old_format_gateways : StringMap → GoString → List GatewayConfig
  unfolding old_format_names old_format_urls gateway_of_parts sort_strings split_n get
  parse_old_format_gateways config_map prefix =
      let urls = old_format_urls prefix [] config_map in
      map (λ name. gateway_of_parts (get name urls) (split_n b'.' 1 name))
        (sort_strings (old_format_names prefix config_map))

  -- `parseOldFormat`
  unfoldable pub parse_old_format : StringMap → IstioConfig
  unfolding default_values parse_old_format_gateways
  parse_old_format config_map = default_values (record {
    ingress_gateways = parse_old_format_gateways config_map gateway_key_prefix;
    local_gateways = parse_old_format_gateways config_map local_gateway_key_prefix;
  })

module _ ⦃net : Network⦄ ⦃parsers : ConfigParsers⦄ where
  -- `parseNewFormatGateways`, where the key is there
  unfoldable pub parse_new_format_gateways : String → Option GoString → Result (List GatewayConfig)
  parse_new_format_gateways message none = ok []
  parse_new_format_gateways message (some text) =
      wrap_error message (wrap_error "failed to unmarshal: %w" (parsers.unmarshal_gateways text))

  -- `parseNewFormat`
  unfoldable pub parse_new_format : StringMap → Result IstioConfig
  unfolding parse_new_format_gateways default_values check_defaults
  parse_new_format config_map = do
    external ←
        parse_new_format_gateways "failed to parse \"external-gateways\" gateways: %w"
          (lookup external_gateways_key config_map)
    local ←
        parse_new_format_gateways "failed to parse \"local-gateways\" gateways: %w"
          (lookup local_gateways_key config_map)
    check_defaults (default_values (record { ingress_gateways = external; local_gateways = local }))

  module _ ⦃selectors : Selectors⦄ where
    -- the `switch` of `NewIstioFromConfigMap`
    unfoldable pub parse_config_map : StringMap → Result IstioConfig
    unfolding is_new_format_defined is_old_format_defined parse_new_format parse_old_format
    parse_config_map config_map =
        if is_new_format_defined config_map && is_old_format_defined config_map
        then err (
            errorf "invalid configmap: %q or %q can not be defined simultaneously with %q or %q" (
              local_gateways_key ∷ external_gateways_key ∷ gateway_key_prefix
              ∷ local_gateway_key_prefix ∷ []))
        else if is_new_format_defined config_map
        then wrap_error "failed to parse configmap: %w" (parse_new_format config_map)
        else if is_old_format_defined config_map
        then ok (parse_old_format config_map)
        else ok (default_values (record { ingress_gateways = []; local_gateways = [] }))

    -- `NewIstioFromConfigMap`
    unfoldable pub new_istio_from_config_map : StringMap → Result IstioConfig
    unfolding parse_config_map validate
    new_istio_from_config_map config_map = do
      ret ← parse_config_map config_map
      _ ← wrap_error "invalid configuration: %w" (validate ret)
      ok ret
