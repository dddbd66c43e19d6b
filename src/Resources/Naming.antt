-- ===== src/Resources/Naming.antt =====
-- The names that resources/gateway.go and resources/secret.go derive: Gateways, port names and
-- copied secrets.
pub mod Labels
pub mod PortNames
use knative_extensions_net_i.Base.{
  ℕ, suc, ◌-◌, Bool, true, false, ◌&&◌, ◌||◌, List, [], ◌∷◌, ◌++◌, leb, ltb, ◌==◌, if◌then◌else◌,
  length, all, take,
}
use knative_extensions_net_i.GoString.{GoString, bytes}
use knative_extensions_net_i.GoString.Decimal.{decimal, hexadecimal}
use knative_extensions_net_i.GoString.Adler.{checksum}
use knative_extensions_net_i.Api.{ObjectMeta, Visibility, cluster_local, IngressTls, Secret}

abbrev pub dns1123_label_max_length : ℕ
dns1123_label_max_length = 63

abbrev pub local_gateway_postfix : GoString
local_gateway_postfix = bytes "-local"

-- `[a-zA-Z0-9]`
unfoldable pub is_alphanumeric : ℕ → Bool
is_alphanumeric c =
    (leb b'a' c && leb c b'z') || (leb b'A' c && leb c b'Z') || (leb b'0' c && leb c b'9')

-- `[-a-zA-Z0-9]`
unfoldable pub is_label_byte : ℕ → Bool
unfolding is_alphanumeric
is_label_byte c = c == b'-' || is_alphanumeric c

unfoldable pub starts_alphanumeric : GoString → Bool
unfolding is_alphanumeric
starts_alphanumeric [] = false
starts_alphanumeric (c ∷ s) = is_alphanumeric c

unfoldable pub ends_alphanumeric : GoString → Bool
unfolding is_alphanumeric
ends_alphanumeric [] = false
ends_alphanumeric (c ∷ []) = is_alphanumeric c
ends_alphanumeric (c ∷ d ∷ s) = ends_alphanumeric (d ∷ s)

-- `^[a-zA-Z0-9](?:[-a-zA-Z0-9]*[a-zA-Z0-9])?$`: the first and the last byte are alphanumeric (they
-- may be one byte), and every byte is alphanumeric or a dash.
unfoldable pub dns1123_label_regexp : GoString → Bool
unfolding starts_alphanumeric ends_alphanumeric is_label_byte all
dns1123_label_regexp s = starts_alphanumeric s && ends_alphanumeric s && all is_label_byte s

unfoldable pub is_dns1123_label : GoString → Bool
unfolding dns1123_label_regexp
is_dns1123_label value = leb (length value) dns1123_label_max_length && dns1123_label_regexp value

-- The name itself, or its checksum where it is no label.
unfoldable pub label_or_checksum : GoString → GoString
unfolding is_dns1123_label decimal checksum
label_or_checksum name = if is_dns1123_label name then name else decimal (checksum name)

unfoldable pub gateway_service_key : Visibility → ObjectMeta → GoString
gateway_service_key cluster_local svc = (svc.namespace ++ b'/' ∷ svc.name) ++ local_gateway_postfix
gateway_service_key _ svc = svc.namespace ++ b'/' ∷ svc.name

-- `prefix[0:max]` where the prefix is longer
unfoldable pub cut : ℕ → GoString → GoString
unfolding take
cut max_length prefix = if ltb max_length (length prefix) then take max_length prefix else prefix

-- `GatewayName(accessor, visibility, gatewaySvc)`
unfoldable pub gateway_name : ObjectMeta → Visibility → ObjectMeta → GoString
unfolding label_or_checksum gateway_service_key cut
gateway_name accessor visibility gateway_svc =
    let prefix = label_or_checksum accessor.name in
    let key_checksum = decimal (checksum (gateway_service_key visibility gateway_svc)) in
    let max_prefix_length = dns1123_label_max_length - length key_checksum - 1 in
    cut max_prefix_length prefix ++ b'-' ∷ key_checksum

-- `WildcardGatewayName`
unfoldable pub wildcard_gateway_name : GoString → GoString → GoString → GoString
unfolding hexadecimal checksum
wildcard_gateway_name secret_name service_namespace service_name =
    bytes "wildcard-"
    ++ hexadecimal (checksum (secret_name ++ b'-' ∷ (service_namespace ++ b'-' ∷ service_name)))

unfoldable pub port_name_prefix : GoString → GoString → GoString
unfolding label_or_checksum
port_name_prefix prefix suffix = prefix ++ b'/' ∷ label_or_checksum suffix

-- `secretKey(tls)`
unfoldable pub secret_key : IngressTls → GoString
secret_key tls = tls.secret_namespace ++ b'/' ∷ tls.secret_name

-- `targetSecret(originSecret, accessor)`
unfoldable pub target_secret : Secret → ObjectMeta → GoString
target_secret origin_secret accessor = accessor.name ++ b'-' ∷ origin_secret.meta.uid

unfoldable pub target_wildcard_secret_name : GoString → GoString → GoString
target_wildcard_secret_name origin_name origin_namespace =
    origin_namespace ++ bytes "--" ++ origin_name ++ bytes "-wildcard"
