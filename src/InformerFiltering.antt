-- ===== src/InformerFiltering.antt =====
-- pkg/reconciler/informerfiltering/util.go: which secrets the informers of the controller list.
pub mod Listed
use knative_extensions_net_i.Base.{
  ◌≡◌, refl, Bool, true, false, not, List, [], if◌then◌else◌, Bool-cases, inl, inr, Member, ◌∙◌,
  arith, none, some, sym, ap, ◌∷◌, Option, ◌&&◌,
}
use knative_extensions_net_i.GoString.{GoString, str_eq, str_eq→eq, str_eq_refl, str_eq_iff}
use knative_extensions_net_i.Api.{
  StringMap, has_key, has_key-insert, Secret, GoMap, lookup, lookup-insert, insert,
}
use knative_extensions_net_i.Platform.{Keys}
use knative_extensions_net_i.Resources.Selection.{ServiceName}
use knative_extensions_net_i.Resources.Secrets.{
  copies, copy_of, make_secret, make_target_secret_labels, label_value,
}
use knative_extensions_net_i.Resources.Secrets.Copies.{copies_iff}

-- strconv and knative.dev/pkg/client/injection/kube/informers/factory/filtered
pub record FilteredInformers : Type 0 where
  -- the first result of `strconv.ParseBool(str)`
  pub parse_bool : GoString → Bool
  -- whether an informer of `WithSelectors(ctx, selector)` lists an object with these labels
  pub listed : GoString → StringMap → Bool
  pub listed_all : (labels : StringMap) → listed [] labels ≡ true
  -- a key as a selector asks for the label, whatever its value
  pub listed_key :
      (key : GoString) (labels : StringMap)
      → str_eq key [] ≡ false
      → listed key labels ≡ has_key key labels

module _ ⦃informers : FilteredInformers⦄ where
  -- `ShouldFilterByCertificateUID()`, by the value of the environment variable
  unfoldable pub should_filter_by_certificate_uid : GoString → Bool
  unfolding str_eq
  should_filter_by_certificate_uid enable =
      if not (str_eq enable []) then informers.parse_bool enable else false

  module _ ⦃keys : Keys⦄ where
    -- `GetContextWithFilteringLabelSelector(ctx)`: the selector of the context
    unfoldable pub filtering_label_selector : GoString → GoString
    unfolding should_filter_by_certificate_uid
    filtering_label_selector enable =
        if should_filter_by_certificate_uid enable then keys.certificate_uid else []
