-- ===== src/Resources/Secrets.antt =====
-- resources/secret.go: the certificate secrets of an Ingress and their copies.
pub mod Origin
pub mod Copies
pub mod Known
pub mod Sorting
use knative_extensions_net_i.Base.{
  ℕ, suc, ◌-◌, Bool, true, false, not, Option, none, some, List, [], ◌∷◌, ◌++◌, Result, ok, err,
  ◌>>=◌, errorf, wrapped, wrap_error, if◌then◌else◌, leb, ltb, length, take, ◌&&◌,
}
use knative_extensions_net_i.GoString.{GoString, bytes, str_eq}
use knative_extensions_net_i.GoString.Decimal.{decimal}
use knative_extensions_net_i.GoString.Adler.{checksum}
use knative_extensions_net_i.GoString.Split.{split}
use knative_extensions_net_i.Api.{
  StringMap, GoMap, lookup, has_key, insert, get, ObjectMeta, Secret, Reference, Ingress,
  IngressTls, Visibility,
}
use knative_extensions_net_i.Platform.{Keys, Selectors, IngressHelpers}
use knative_extensions_net_i.Config.{IstioConfig}
use knative_extensions_net_i.Resources.Naming.{
  dns1123_label_max_length, secret_key, target_secret, target_wildcard_secret_name,
}
use knative_extensions_net_i.Resources.Selection.{
  ServiceName, get_ingress_gateway_svc_name_namespaces,
}

-- encoding/pem and crypto/x509
pub record Certificates : Type 0 where
  -- the bytes of the first block that `pem.Decode` finds
  pub pem_decode : GoString → Option GoString
  -- `x509.ParseCertificate`, by the certificate's `DNSNames`
  pub parse_certificate : GoString → Result (List GoString)

-- `secretLister.Secrets(namespace).Get(name)`
abbrev pub SecretLister : Type 0
SecretLister = GoString → GoString → Result Secret

-- `SecretRef(namespace, name)`
unfoldable pub secret_ref : GoString → GoString → Reference
secret_ref namespace name = record {
  api_version = bytes "v1";
  kind = bytes "Secret";
  namespace = namespace;
  name = name;
}

-- The loop of `GetSecrets` over the TLS blocks.
unfoldable pub get_secrets_from :
    SecretLister → GoMap Secret → List IngressTls → Result (GoMap Secret)
unfolding secret_key
get_secrets_from lister secrets [] = ok secrets
get_secrets_from lister secrets (tls ∷ rest) =
    let skip = get_secrets_from lister secrets rest in
    let fetch = do
      secret ← lister tls.secret_namespace tls.secret_name
      get_secrets_from lister (insert (secret_key tls) secret secrets) rest
    in if has_key (secret_key tls) secrets then skip else fetch

-- `GetSecrets(ing, visibility, secretLister)`
unfoldable pub get_secrets :
    ⦃h : IngressHelpers⦄ → Ingress → Visibility → SecretLister → Result (GoMap Secret)
unfolding get_secrets_from
get_secrets ⦃h⦄ ing visibility lister =
    get_secrets_from lister [] (h.tls_for_visibility ing visibility)

-- The name of a secret as a label's value: cut and with a checksum where it is too long.
unfoldable pub label_value : GoString → GoString
label_value name =
    if leb (length name) dns1123_label_max_length
    then name
    else (let suffix = decimal (checksum name) in
        take (dns1123_label_max_length - length suffix - 1) name ++ b'-' ∷ suffix)

-- `isWildcardHost(domain)`
unfoldable pub is_wildcard_parts : GoString → List GoString → Result Bool
is_wildcard_parts domain (first ∷ second ∷ rest) = ok (str_eq first (bytes "*"))
is_wildcard_parts domain _ = err (errorf "incorrect domain format, got domain %s" (domain ∷ []))

unfoldable pub is_wildcard_host : GoString → Result Bool
unfolding is_wildcard_parts split
is_wildcard_host domain = is_wildcard_parts domain (split b'.' domain)

-- the loop of `isWildcardSecret` over the hosts
unfoldable pub any_wildcard : List GoString → Result Bool
unfolding is_wildcard_host
any_wildcard [] = ok false
any_wildcard (host ∷ hosts) =
    let rest = any_wildcard hosts in
    do wildcard ← is_wildcard_host host; if wildcard then ok true else rest

module _ ⦃keys : Keys⦄ where
  -- `MakeTargetSecretLabels`
  unfoldable pub make_target_secret_labels : GoString → GoString → StringMap
  unfolding label_value
  make_target_secret_labels origin_name origin_namespace =
      insert keys.origin_secret_name (label_value origin_name)
        ((keys.origin_secret_namespace, origin_namespace) ∷ [])

  -- `MakeTargetSecretAnnotations`; nil is the empty map
  unfoldable pub make_target_secret_annotations : GoString → StringMap
  make_target_secret_annotations origin_name =
      if ltb dns1123_label_max_length (length origin_name)
      then (keys.origin_secret_name, origin_name) ∷ []
      else []

  -- `makeSecret`
  unfoldable pub make_secret : Secret → GoString → GoString → StringMap → StringMap → Secret
  make_secret origin name namespace labels annotations = record {
    meta = record {
      name = name;
      namespace = namespace;
      uid = [];
      labels = insert keys.certificate_uid (get keys.certificate_uid origin.meta.labels) labels;
      annotations = annotations;
      owner_references = [];
    };
    content = origin.content;
    secret_type = origin.secret_type;
  }

  -- `ExtractOriginSecretRef`
  unfoldable pub extract_origin_secret_ref : Secret → Reference
  unfolding secret_ref
  extract_origin_secret_ref secret =
      let annotated = get keys.origin_secret_name secret.meta.annotations in
      secret_ref (get keys.origin_secret_namespace secret.meta.labels) (
        if not (str_eq annotated [])
        then annotated
        else get keys.origin_secret_name secret.meta.labels)

  -- A copy of an origin secret in a service's namespace, under the name that is given.
  unfoldable pub copy_of : (Secret → GoString) → Secret → ServiceName → Secret
  unfolding make_secret make_target_secret_labels make_target_secret_annotations
  copy_of target origin meta =
      make_secret origin (target origin) meta.namespace
        (make_target_secret_labels origin.meta.name origin.meta.namespace)
        (make_target_secret_annotations origin.meta.name)

  -- the inner loop of `MakeSecrets` and `MakeWildcardSecrets`, over the services
  unfoldable pub copies_for : (Secret → GoString) → Secret → List ServiceName → List Secret
  unfolding copy_of
  copies_for target origin [] = []
  copies_for target origin (meta ∷ metas) =
      let rest = copies_for target origin metas in
      if str_eq meta.namespace origin.meta.namespace
      then rest
      else copy_of target origin meta ∷ rest

  -- the outer loop, over the origin secrets
  unfoldable pub copies : (Secret → GoString) → List ServiceName → GoMap Secret → List Secret
  unfolding copies_for
  copies target metas [] = []
  copies target metas ((k, origin) ∷ origins) =
      copies_for target origin metas ++ copies target metas origins

  module _ ⦃selectors : Selectors⦄ where
    -- `MakeSecrets`
    unfoldable pub make_secrets : IstioConfig → GoMap Secret → Ingress → Result (List Secret)
    unfolding copies target_secret
    make_secrets conf origin_secrets ing = do
      metas ← get_ingress_gateway_svc_name_namespaces conf ing.meta
      ok (copies (λ origin. target_secret origin ing.meta) metas origin_secrets)

    -- `MakeWildcardSecrets`
    unfoldable pub make_wildcard_secrets :
        IstioConfig → GoMap Secret → Ingress → Result (List Secret)
    unfolding copies target_wildcard_secret_name
    make_wildcard_secrets conf origin_certs ing = do
      metas ← get_ingress_gateway_svc_name_namespaces conf ing.meta
      ok (
          copies (λ origin. target_wildcard_secret_name origin.meta.name origin.meta.namespace)
            metas origin_certs)

  module _ ⦃certs : Certificates⦄ where
    unfoldable pub checked_names : List GoString → Result (List GoString)
    checked_names [] =
        err (errorf "certificate should have DNS names, but it has %d" (bytes "0" ∷ []))
    checked_names (n ∷ ns) = ok (n ∷ ns)

    unfoldable pub hosts_from_block : Secret → Option GoString → Result (List GoString)
    unfolding checked_names
    hosts_from_block secret none = err (
        errorf "failed to decode PEM data for secret %s/%s"
          (secret.meta.namespace ∷ secret.meta.name ∷ []))
    hosts_from_block secret (some block) = do
      names ←
          wrap_error "failed to parse certificate for secret %s/%s: %w"
            (certs.parse_certificate block)
      checked_names names

    -- `GetHostsFromCertSecret`
    unfoldable pub get_hosts_from_cert_secret : Secret → Result (List GoString)
    unfolding hosts_from_block
    get_hosts_from_cert_secret secret =
        hosts_from_block secret (certs.pem_decode (get keys.tls_cert secret.content))

    -- `isWildcardSecret`
    unfoldable pub is_wildcard_secret : Secret → Result Bool
    unfolding get_hosts_from_cert_secret any_wildcard
    is_wildcard_secret secret = do hosts ← get_hosts_from_cert_secret secret; any_wildcard hosts

    -- the loop of `CategorizeSecrets`: non-wildcard and wildcard secrets
    unfoldable pub categorize_from :
        GoMap Secret → GoMap Secret → GoMap Secret → Result (GoMap Secret × GoMap Secret)
    unfolding is_wildcard_secret
    categorize_from non_wildcard wildcard [] = ok (non_wildcard, wildcard)
    categorize_from non_wildcard wildcard ((k, secret) ∷ secrets) = do
      is_wildcard ← is_wildcard_secret secret
      categorize_from (if is_wildcard then non_wildcard else insert k secret non_wildcard)
          (if is_wildcard then insert k secret wildcard else wildcard) secrets

    -- `CategorizeSecrets`
    unfoldable pub categorize_secrets : GoMap Secret → Result (GoMap Secret × GoMap Secret)
    unfolding categorize_from
    categorize_secrets = categorize_from [] []
