-- ===== src/Resources/VirtualService/Minimal.antt =====
-- `getDistinctHostPrefixes` of resources/virtual_service.go against a definition without a loop.
use knative_extensions_net_i.Base.{
  ◌≡◌, refl, sym, ◌∙◌, Bool, true, false, not, ◌&&◌, ◌||◌, all, all_of_Member, Member-all,
  Bool-cases, inl, inr, &&-left, &&-right,
}
use knative_extensions_net_i.GoString.{
  GoString, has_prefix, has_prefix_trans, has_suffix, str_eq, str_eq→eq, str_eq_refl,
}
use knative_extensions_net_i.GoString.Order.{not-lt_of_prefix, eq_of_not-lt}
use knative_extensions_net_i.Platform.{SetLib, StringSet, Network}
use knative_extensions_net_i.Resources.VirtualService.{get_distinct_host_prefixes, local_suffix}
use knative_extensions_net_i.Resources.VirtualService.Prefixes.{
  get_distinct_host_prefixes_cover, get_distinct_host_prefixes-PrefixFree, Member-of_has,
  has_of_Member, plain_host,
}

has_prefix_antisym : (a b : GoString) → has_prefix a b ≡ true → has_prefix b a ≡ true → a ≡ b
has_prefix_antisym a b h k = eq_of_not-lt a b (not-lt_of_prefix a b h) (not-lt_of_prefix b a k)

module _ ⦃sets : SetLib⦄ where
  -- No other host of the set is a prefix of this one.
  abbrev pub is_minimal : StringSet → GoString → Bool
  is_minimal hosts e = all (λ g. not (has_prefix e g) || str_eq g e) (sets.to_list hosts)

  module _ ⦃net : Network⦄ (hosts : StringSet)
      (external : (h : GoString)
        → sets.has hosts h ≡ true
        → has_suffix h local_suffix ≡ false) where
    minimal_of_distinct :
        (e : GoString)
        → sets.has (get_distinct_host_prefixes hosts) e ≡ true
        → (sets.has hosts e && is_minimal hosts e) ≡ true
    minimal_of_distinct e k =
        let (covered, from) = get_distinct_host_prefixes_cover hosts in
        let (h, m, q) = from e k in
        let here : e ≡ h = q ∙ plain_host h (external h m) in
        let is_host : sets.has hosts e ≡ true = rw here m in
        rw is_host (
          all_of_Member (λ g. not (has_prefix e g) || str_eq g e) (sets.to_list hosts)
            (λ g n.
              let i = has_of_Member hosts g n in
              elim (Bool-cases (has_prefix e g)) [
                | inl p ↦
                    let (d, l, r) = covered g i in
                    let r' : has_prefix g d ≡ true = rw (plain_host g (external g i)) at r in
                    let same =
                      get_distinct_host_prefixes-PrefixFree hosts external d e l k
                        (has_prefix_trans e g d p r') in
                    let both : g ≡ e = has_prefix_antisym g e (rw same at r') p in
                    rw (p, both) (str_eq_refl e)
                | inr p ↦ rw p refl
              ]))

    distinct_of_minimal :
        (e : GoString)
        → (sets.has hosts e && is_minimal hosts e) ≡ true
        → sets.has (get_distinct_host_prefixes hosts) e ≡ true
    distinct_of_minimal e k =
        let (covered, from) = get_distinct_host_prefixes_cover hosts in
        let is_host = &&-left (sets.has hosts e) (is_minimal hosts e) k in
        let (d, l, r) = covered e is_host in
        let (h, m, q) = from d l in
        let here : d ≡ h = q ∙ plain_host h (external h m) in
        let d_host : sets.has hosts d ≡ true = rw here m in
        let p : has_prefix e d ≡ true = rw (plain_host e (external e is_host)) at r in
        let low =
          Member-all (λ g. not (has_prefix e g) || str_eq g e) d (sets.to_list hosts)
            (&&-right (sets.has hosts e) (is_minimal hosts e) k) (Member-of_has hosts d d_host) in
        let same : d ≡ e = str_eq→eq d e (rw p at low) in rw same at l

    -- Where no host is a cluster-local one, the distinct prefixes are just the hosts of
    -- which no other host is a prefix.
    pub get_distinct_host_prefixes-minimal :
        (e : GoString)
        → sets.has (get_distinct_host_prefixes hosts) e ≡ (sets.has hosts e && is_minimal hosts e)
    get_distinct_host_prefixes-minimal e =
        elim (Bool-cases (sets.has (get_distinct_host_prefixes hosts) e)) [
          | inl k ↦ k ∙ sym (minimal_of_distinct e k)
          | inr k ↦ elim (Bool-cases (sets.has hosts e && is_minimal hosts e)) [
            | inl m ↦ absurd (cc (k, distinct_of_minimal e m))
            | inr m ↦ k ∙ sym m
          ]
        ]
