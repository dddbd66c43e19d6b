-- ===== src/Resources/VirtualService/Prefixes.antt =====
-- `getDistinctHostPrefixes` of resources/virtual_service.go: coverage and redundancy of the
-- prefixes.
use knative_extensions_net_i.Base.{
  ◌≡◌, refl, sym, ◌∙◌, Bool, true, false, not, ◌||◌, List, [], ◌∷◌, arith, if◌then◌else◌, all, any,
  ◌⊎◌, Bool-cases, inl, inr, Member, Member-of_any, any_of_Member, ||-cases, Member-all,
}
use knative_extensions_net_i.Base.Sort.{IsSorted}
use knative_extensions_net_i.GoString.{
  GoString, str_eq, elem, str_eq→eq, str_eq_refl, has_prefix, has_suffix, has_prefix_refl,
}
use knative_extensions_net_i.GoString.Order.{str_lt, not-lt_of_prefix, eq_of_not-lt}
use knative_extensions_net_i.Platform.{SetLib, StringSet, Network}
use knative_extensions_net_i.Resources.VirtualService.{
  host_prefix, distinct_from, get_distinct_host_prefixes, local_suffix,
}

not-true : (b : Bool) → not b ≡ true → b ≡ false
not-true b h = ground arith

module _ ⦃sets : SetLib⦄ where
  pub Member-of_has_key : (s : StringSet) (x : GoString) → sets.has s x ≡ true → Member x s.keys
  Member-of_has_key s x h =
      let (y, m, e) = Member-of_any (str_eq x) s.keys (unfold elem in (sets.elem-keys s x ∙ h)) in
      rw (str_eq→eq x y e) m

  pub has_of_Member_key : (s : StringSet) (x : GoString) → Member x s.keys → sets.has s x ≡ true
  has_of_Member_key s x m =
      sym (sets.elem-keys s x)
      ∙ (unfold elem in any_of_Member (str_eq x) x s.keys m (str_eq_refl x))

  pub Member-of_has :
      (s : StringSet) (x : GoString) → sets.has s x ≡ true → Member x (sets.to_list s)
  Member-of_has s x h =
      let (y, m, e) =
        Member-of_any (str_eq x) (sets.to_list s) (unfold elem in (sets.elem-to_list s x ∙ h)) in
      rw (str_eq→eq x y e) m

  pub has_of_Member :
      (s : StringSet) (x : GoString) → Member x (sets.to_list s) → sets.has s x ≡ true
  has_of_Member s x m =
      sym (sets.elem-to_list s x)
      ∙ (unfold elem in any_of_Member (str_eq x) x (sets.to_list s) m (str_eq_refl x))

  -- An insertion of one string.
  pub has-insert_one :
      (s : StringSet) (x y : GoString)
      → sets.has (sets.insert s (x ∷ [])) y ≡ (sets.has s y || str_eq y x)
  unfolding elem any
  has-insert_one s x y = sets.has-insert s (x ∷ []) y ∙ ground arith

  module _ ⦃net : Network⦄ where
    -- Some string of the set is a prefix of the host's prefix.
    abbrev pub Covers : StringSet → GoString → Type 0
    Covers ns h = (e : GoString) × (sets.has ns e ≡ true) × (has_prefix (host_prefix h) e ≡ true)

    abbrev next : StringSet → GoString → StringSet
    next ns h =
        if any (has_prefix (host_prefix h)) ns.keys then ns else sets.insert ns (host_prefix h ∷ [])

    next_has :
        (ns : StringSet) (h e : GoString) → sets.has ns e ≡ true → sets.has (next ns h) e ≡ true
    next_has ns h e k = ground (arith, has-insert_one ns (host_prefix h) e)

    distinct_from_has :
        (ns : StringSet) (hosts : List GoString) (e : GoString)
        → sets.has ns e ≡ true
        → sets.has (distinct_from ns hosts) e ≡ true
    unfolding distinct_from
    distinct_from_has ns [] e k = k
    distinct_from_has ns (h ∷ hosts) e k = distinct_from_has (next ns h) hosts e (next_has ns h e k)

    next-Covers : (ns : StringSet) (h : GoString) → Covers (next ns h) h
    next-Covers ns h = elim (Bool-cases (any (has_prefix (host_prefix h)) ns.keys)) [
      | inl a ↦
          let (e, m, p) = Member-of_any (has_prefix (host_prefix h)) ns.keys a in
          rw a (e, has_of_Member_key ns e m, p)
      | inr a ↦ rw a (
        host_prefix h,
        ground
            (arith, has-insert_one ns (host_prefix h) (host_prefix h), str_eq_refl (host_prefix h)),
        has_prefix_refl (host_prefix h),
      )
    ]

    distinct_from-Covers :
        (ns : StringSet) (hosts : List GoString) (h : GoString)
        → Member h hosts
        → Covers (distinct_from ns hosts) h
    unfolding distinct_from
    distinct_from-Covers ns [] h m = elim m [ ]
    distinct_from-Covers ns (h' ∷ hosts) h (inl e) =
        let (p, k, q) = next-Covers ns h' in (p, distinct_from_has (next ns h') hosts p k, rw e q)
    distinct_from-Covers ns (h' ∷ hosts) h (inr m) = distinct_from-Covers (next ns h') hosts h m

    next_from :
        (ns : StringSet) (h e : GoString)
        → sets.has (next ns h) e ≡ true
        → (sets.has ns e ≡ true) ⊎ (e ≡ host_prefix h)
    next_from ns h e k = elim (Bool-cases (any (has_prefix (host_prefix h)) ns.keys)) [
      | inl a ↦ inl (rw a at k)
      | inr a ↦
          elim (||-cases (sets.has ns e) (str_eq e (host_prefix h))
            (sym (has-insert_one ns (host_prefix h) e) ∙ (rw a at k))) [
              | inl b ↦ inl b
              | inr b ↦ inr (str_eq→eq e (host_prefix h) b)
            ]
    ]

    distinct_from_from :
        (ns : StringSet) (hosts : List GoString) (e : GoString)
        → sets.has (distinct_from ns hosts) e ≡ true
        → (sets.has ns e ≡ true) ⊎ ((h : GoString) × Member h hosts × (e ≡ host_prefix h))
    unfolding distinct_from
    distinct_from_from ns [] e k = inl k
    distinct_from_from ns (h ∷ hosts) e k = elim (distinct_from_from (next ns h) hosts e k) [
      | inl b ↦ elim (next_from ns h e b) [ inl c ↦ inl c | inr c ↦ inr (h, inl refl, c) ]
      | inr (h', m, q) ↦ inr (h', inr m, q)
    ]

    -- Every host of the set has a prefix among the distinct ones, and each of these is the
    -- prefix of a host of the set.
    pub get_distinct_host_prefixes_cover :
        (hosts : StringSet)
        → ((h : GoString) → sets.has hosts h ≡ true → Covers (get_distinct_host_prefixes hosts) h)
          × ((e : GoString)
              → sets.has (get_distinct_host_prefixes hosts) e ≡ true
              → (h : GoString) × (sets.has hosts h ≡ true) × (e ≡ host_prefix h))
    unfolding get_distinct_host_prefixes
    get_distinct_host_prefixes_cover hosts = (
      λ h k. distinct_from-Covers sets.empty (sets.to_list hosts) h (Member-of_has hosts h k),
      λ e k. elim (distinct_from_from sets.empty (sets.to_list hosts) e k) [
        | inl b ↦ absurd (cc (b, sets.has-empty e))
        | inr (h, m, q) ↦ (h, has_of_Member hosts h m, q)
      ],
    )

    -- No string of the set is a prefix of another.
    abbrev pub PrefixFree : StringSet → Type 0
    PrefixFree ns =
        (a b : GoString)
        → sets.has ns a ≡ true
        → sets.has ns b ≡ true
        → has_prefix b a ≡ true
        → a ≡ b

    -- Nothing in the set is above any of the strings.
    abbrev Below : StringSet → List GoString → Type 0
    Below ns hosts = (e h : GoString) → sets.has ns e ≡ true → Member h hosts → str_lt h e ≡ false

    insert_PrefixFree :
        (ns : StringSet) (h : GoString)
        → PrefixFree ns
        → ((e : GoString) → sets.has ns e ≡ true → str_lt h e ≡ false)
        → any (has_prefix h) ns.keys ≡ false
        → PrefixFree (sets.insert ns (h ∷ []))
    insert_PrefixFree ns h free low fresh a b ha hb p =
        elim (||-cases (sets.has ns a) (str_eq a h) (sym (has-insert_one ns h a) ∙ ha)) [
          | inl ka ↦
              elim (||-cases (sets.has ns b) (str_eq b h) (sym (has-insert_one ns h b) ∙ hb)) [
                | inl kb ↦ free a b ka kb p
                | inr kb ↦
                    let e : b ≡ h = str_eq→eq b h kb in
                    absurd (
                      cc (
                        fresh,
                        any_of_Member (has_prefix h) a ns.keys (Member-of_has_key ns a ka)
                            (rw e at p),
                      ))
              ]
          | inr ka ↦
              elim (||-cases (sets.has ns b) (str_eq b h) (sym (has-insert_one ns h b) ∙ hb)) [
                | inl kb ↦
                    let e : a ≡ h = str_eq→eq a h ka in
                    e ∙ sym (eq_of_not-lt b h (not-lt_of_prefix b h (rw e at p)) (low b kb))
                | inr kb ↦ str_eq→eq a h ka ∙ sym (str_eq→eq b h kb)
              ]
        ]

    next-PrefixFree :
        (ns : StringSet) (h : GoString)
        → host_prefix h ≡ h
        → PrefixFree ns
        → ((e : GoString) → sets.has ns e ≡ true → str_lt h e ≡ false)
        → PrefixFree (next ns h)
    next-PrefixFree ns h plain free low =
        elim (Bool-cases (any (has_prefix (host_prefix h)) ns.keys)) [
          | inl a ↦ rw a free
          | inr a ↦ rw (a, plain) (insert_PrefixFree ns h free low (rw plain at a))
        ]

    next-Below :
        (ns : StringSet) (h : GoString) (hosts : List GoString)
        → host_prefix h ≡ h
        → Below ns (h ∷ hosts)
        → all (λ y. not (str_lt y h)) hosts ≡ true
        → Below (next ns h) hosts
    next-Below ns h hosts plain low sorted e h' k m = elim (next_from ns h e k) [
      | inl b ↦ low e h' b (inr m)
      | inr q ↦
          rw (q ∙ plain)
            (not-true (str_lt h' h) (Member-all (λ y. not (str_lt y h)) h' hosts sorted m))
    ]

    distinct_from-PrefixFree :
        (ns : StringSet) (hosts : List GoString)
        → IsSorted str_lt hosts
        → ((h : GoString) → Member h hosts → host_prefix h ≡ h)
        → PrefixFree ns
        → Below ns hosts
        → PrefixFree (distinct_from ns hosts)
    unfolding distinct_from
    distinct_from-PrefixFree ns [] s plain free low = free
    distinct_from-PrefixFree ns (h ∷ hosts) s plain free low =
        let here = plain h (inl refl) in
        distinct_from-PrefixFree (next ns h) hosts s.1 (λ h' m. plain h' (inr m))
          (next-PrefixFree ns h here free (λ e k. low e h k (inl refl)))
          (next-Below ns h hosts here low s.0)

    pub plain_host : (h : GoString) → has_suffix h local_suffix ≡ false → host_prefix h ≡ h
    unfolding host_prefix
    plain_host h e = rw e

    -- Where no host is a cluster-local one, no distinct prefix is a prefix of another.
    pub get_distinct_host_prefixes-PrefixFree :
        (hosts : StringSet)
        → ((h : GoString) → sets.has hosts h ≡ true → has_suffix h local_suffix ≡ false)
        → (a b : GoString) → sets.has (get_distinct_host_prefixes hosts) a ≡ true
        → sets.has (get_distinct_host_prefixes hosts) b ≡ true
        → has_prefix b a ≡ true
        → a ≡ b
    unfolding get_distinct_host_prefixes
    get_distinct_host_prefixes-PrefixFree hosts external =
        distinct_from-PrefixFree sets.empty (sets.to_list hosts) (sets.to_list-IsSorted hosts)
          (λ h m. plain_host h (external h (has_of_Member hosts h m)))
          (λ a b ha hb p. absurd (cc (ha, sets.has-empty a)))
          (λ e h k m. absurd (cc (k, sets.has-empty e)))
