-- ===== src/Config/Defaults.antt =====
-- The gateways without a selector in a configuration that ingress/config/istio.go accepts.
use knative_extensions_net_i.Base.{
  ◌<◌, ◌≡◌, refl, ap, ◌∙◌, Bool, true, List, [], ◌∷◌, ok, >>=-eq-ok, wrap_error, arith, all,
  keep-all, length, map, ◌==◌, Bool-cases, inl, inr, wrap_error-eq-ok, ◌&&◌, false,
}
use knative_extensions_net_i.GoString.{GoString}
use knative_extensions_net_i.GoString.Order.{sort_strings}
use knative_extensions_net_i.GoString.Split.{split_n}
use knative_extensions_net_i.Config.{gateway_key_prefix, local_gateway_key_prefix}
use knative_extensions_net_i.Config.Parse.{old_format_names, old_format_urls}
use knative_extensions_net_i.Api.{get, StringMap, lookup}
use knative_extensions_net_i.Platform.{Network, Selectors}
use knative_extensions_net_i.Config.{
  GatewayConfig, IstioConfig, ConfigParsers, has_no_selector, default_gateways,
  default_external_gateways, default_local_gateways, default_ingress_gateways,
  default_local_gateway_list, or_else, default_values, validate, external_gateways_key,
  local_gateways_key,
}
use knative_extensions_net_i.Config.Parse.{
  check_defaults, gateway_of_parts, parse_old_format_gateways, parse_old_format, parse_new_format,
  parse_new_format_gateways, parse_config_map, new_istio_from_config_map, is_new_format_defined,
  is_old_format_defined,
}

-- There is a gateway without a selector of either kind.
pub record HasDefaults (conf : IstioConfig) : Type 0 where
  pub external : 0 < length (default_external_gateways conf)
  pub local : 0 < length (default_local_gateways conf)

check_defaults-HasDefaults :
    (ret conf : IstioConfig) → check_defaults ret ≡ ok conf → HasDefaults conf
unfolding check_defaults
check_defaults-HasDefaults ret conf h =
    elim (Bool-cases (length (default_external_gateways ret) == 1)) [
      | inl a ↦ elim (Bool-cases (length (default_local_gateways ret) == 1)) [
        | inl b ↦
            let e : ret ≡ conf = cc (rw (a, b) at h) in
            rw (← e) (record { external = ground arith; local = ground arith })
        | inr b ↦ absurd (cc (rw (a, b) at h))
      ]
      | inr a ↦ absurd (cc (rw a at h))
    ]

module _ ⦃net : Network⦄ where
  old_gateway_default :
      (url : GoString) (parts : List GoString) → has_no_selector (gateway_of_parts url parts) ≡ true
  unfolding has_no_selector gateway_of_parts
  old_gateway_default url [] = refl
  old_gateway_default url (a ∷ []) = refl
  old_gateway_default url (a ∷ b ∷ l) = refl

  all-map {ℓ κ} :
      {A : Type ℓ} {B : Type κ} (p : B → Bool) (f : A → B) (xs : List A)
      → ((x : A) → p (f x) ≡ true)
      → all p (map f xs) ≡ true
  unfolding all
  all-map p f [] h = refl
  all-map p f (x ∷ xs) h = ground (arith, h x, all-map p f xs h)

  all_default_pos :
      (fallback gs : List GatewayConfig)
      → 0 < length fallback
      → all has_no_selector fallback ≡ true
      → all has_no_selector gs ≡ true
      → 0 < length (default_gateways (or_else fallback gs))
  unfolding default_gateways or_else
  all_default_pos fallback [] pos a b = rw (keep-all has_no_selector fallback a) pos
  all_default_pos fallback (g ∷ gs) pos a b = rw (keep-all has_no_selector (g ∷ gs) b) (omega arith)

  default_values-HasDefaults :
      (conf : IstioConfig)
      → all has_no_selector conf.ingress_gateways ≡ true
      → all has_no_selector conf.local_gateways ≡ true
      → HasDefaults (default_values conf)
  unfolding default_values default_external_gateways default_local_gateways all
      default_ingress_gateways default_local_gateway_list has_no_selector
  default_values-HasDefaults conf a b = record {
    external = all_default_pos default_ingress_gateways conf.ingress_gateways (omega arith) refl a;
    local = all_default_pos default_local_gateway_list conf.local_gateways (omega arith) refl b;
  }

  old_gateways_default :
      (config_map : StringMap) (prefix : GoString)
      → all has_no_selector (parse_old_format_gateways config_map prefix) ≡ true
  unfolding parse_old_format_gateways
  old_gateways_default config_map prefix =
      all-map has_no_selector
        (λ name.
          gateway_of_parts (get name (old_format_urls prefix [] config_map)) (split_n b'.' 1 name))
        (sort_strings (old_format_names prefix config_map))
        (λ name.
          old_gateway_default (get name (old_format_urls prefix [] config_map))
            (split_n b'.' 1 name))

  parse_old_format-HasDefaults :
      (config_map : StringMap) → HasDefaults (parse_old_format config_map)
  unfolding parse_old_format
  parse_old_format-HasDefaults config_map =
      default_values-HasDefaults
        (record {
          ingress_gateways = parse_old_format_gateways config_map gateway_key_prefix;
          local_gateways = parse_old_format_gateways config_map local_gateway_key_prefix;
        })
        (old_gateways_default config_map gateway_key_prefix)
        (old_gateways_default config_map local_gateway_key_prefix)

  module _ ⦃parsers : ConfigParsers⦄ where
    parse_new_format-HasDefaults :
        (config_map : StringMap) (conf : IstioConfig)
        → parse_new_format config_map ≡ ok conf
        → HasDefaults conf
    unfolding parse_new_format
    parse_new_format-HasDefaults config_map conf h =
        let (external, e, h₁) =
          >>=-eq-ok
            (parse_new_format_gateways "failed to parse \"external-gateways\" gateways: %w"
              (lookup external_gateways_key config_map))
            _ h in
        let (local, f, h₂) =
          >>=-eq-ok
            (parse_new_format_gateways "failed to parse \"local-gateways\" gateways: %w"
              (lookup local_gateways_key config_map))
            _ h₁ in
        check_defaults-HasDefaults
          (default_values (record { ingress_gateways = external; local_gateways = local })) conf h₂

    module _ ⦃selectors : Selectors⦄ where
      parse_config_map-HasDefaults :
          (config_map : StringMap) (conf : IstioConfig)
          → parse_config_map config_map ≡ ok conf
          → HasDefaults conf
      unfolding parse_config_map
      parse_config_map-HasDefaults config_map conf h =
          elim (Bool-cases (is_new_format_defined config_map)) [
            | inl n ↦ elim (Bool-cases (is_old_format_defined config_map)) [
              | inl o ↦ absurd (cc (rw (n, o) at h))
              | inr o ↦ parse_new_format-HasDefaults config_map conf (
                  wrap_error-eq-ok "failed to parse configmap: %w" (parse_new_format config_map)
                    (rw (n, o) at h))
            ]
            | inr n ↦ elim (Bool-cases (is_old_format_defined config_map)) [
              | inl o ↦
                  let e : parse_old_format config_map ≡ conf = cc (rw (n, o) at h) in
                  rw (← e) (parse_old_format-HasDefaults config_map)
              | inr o ↦
                  let start : IstioConfig = record { ingress_gateways = []; local_gateways = [] } in
                  let e : default_values start ≡ conf = cc (rw (n, o) at h) in
                  rw (← e)
                    (default_values-HasDefaults start (unfold all in refl) (unfold all in refl))
            ]
          ]

      one_format :
          (config_map : StringMap) (conf : IstioConfig)
          → parse_config_map config_map ≡ ok conf
          → (is_new_format_defined config_map && is_old_format_defined config_map) ≡ false
      unfolding parse_config_map
      one_format config_map conf h =
          elim (Bool-cases (is_new_format_defined config_map && is_old_format_defined config_map)) [
            | inl both ↦ absurd (cc (rw both at h))
            | inr one ↦ one
          ]

      -- A ConfigMap that is accepted does not have keys of both formats, and gives a
      -- configuration that passes validation and has a gateway without a selector of
      -- either kind.
      pub new_istio_from_config_map-HasDefaults :
          (config_map : StringMap) (conf : IstioConfig)
          → new_istio_from_config_map config_map ≡ ok conf
          → HasDefaults conf
            × (validate conf ≡ ok tt)
            × ((is_new_format_defined config_map && is_old_format_defined config_map) ≡ false)
      unfolding new_istio_from_config_map
      new_istio_from_config_map-HasDefaults config_map conf h =
          let (ret, e, h₁) = >>=-eq-ok (parse_config_map config_map) _ h in
          let (u, f, h₂) = >>=-eq-ok (wrap_error "invalid configuration: %w" (validate ret)) _ h₁ in
          let same : ret ≡ conf = cc h₂ in
          (
            parse_config_map-HasDefaults config_map conf (e ∙ ap ok same),
            rw (← same) (wrap_error-eq-ok "invalid configuration: %w" (validate ret) f),
            one_format config_map ret e,
          )
