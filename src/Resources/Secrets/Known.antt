-- ===== src/Resources/Secrets/Known.antt =====
-- `GetSecrets` of resources/secret.go: the secrets of the TLS blocks.
use knative_extensions_net_i.Base.{
  ◌≡◌, refl, sym, ◌∙◌, true, some, List, [], ◌∷◌, ok, >>=-eq-ok, arith, all, Member, Bool-cases,
  inl, inr, ◌⊎◌, all_of_Member,
}
use knative_extensions_net_i.GoString.{GoString, str_eq, str_eq_refl, str_eq→eq}
use knative_extensions_net_i.Api.{
  GoMap, lookup, has_key, insert, lookup-insert, has_key-insert, Secret, Ingress, IngressTls,
  Visibility,
}
use knative_extensions_net_i.Platform.{IngressHelpers}
use knative_extensions_net_i.Resources.Naming.{secret_key}
use knative_extensions_net_i.Resources.Secrets.{SecretLister, get_secrets_from, get_secrets}

module _ (lister : SecretLister) where
  step :
      (secrets result : GoMap Secret) (t : IngressTls) (rest : List IngressTls)
      → get_secrets_from lister secrets (t ∷ rest) ≡ ok result
      → ((has_key (secret_key t) secrets ≡ true)
          × (get_secrets_from lister secrets rest ≡ ok result))
        ⊎ ((s : Secret) × (lister t.secret_namespace t.secret_name ≡ ok s)
            × (get_secrets_from lister (insert (secret_key t) s secrets) rest ≡ ok result))
  unfolding get_secrets_from
  step secrets result t rest h = elim (Bool-cases (has_key (secret_key t) secrets)) [
    | inl e ↦ inl (e, (rw e at h))
    | inr e ↦
        let (s, f, g) =
          >>=-eq-ok (lister t.secret_namespace t.secret_name)
            (λ (s : Secret). get_secrets_from lister (insert (secret_key t) s secrets) rest)
            (rw e at h) in
        inr (s, f, g)
  ]

  keeps_key :
      (tls : List IngressTls) (secrets result : GoMap Secret) (k : GoString)
      → get_secrets_from lister secrets tls ≡ ok result
      → has_key k secrets ≡ true
      → has_key k result ≡ true
  unfolding get_secrets_from
  keeps_key [] secrets result k h known = let e : secrets ≡ result = cc h in rw (← e) known
  keeps_key (t ∷ rest) secrets result k h known = elim (step secrets result t rest h) [
    | inl (e, g) ↦ keeps_key rest secrets result k g known
    | inr (s, f, g) ↦
        keeps_key rest (insert (secret_key t) s secrets) result k g
          (has_key-insert (secret_key t) k s secrets ∙ ground (arith, known))
  ]

  finds_keys :
      (tls : List IngressTls) (secrets result : GoMap Secret) (t : IngressTls)
      → get_secrets_from lister secrets tls ≡ ok result
      → Member t tls
      → has_key (secret_key t) result ≡ true
  finds_keys [] secrets result t h m = elim m [ ]
  finds_keys (u ∷ rest) secrets result t h m = elim (step secrets result u rest h) [
    | inl (e, g) ↦ elim m [
      | inl same ↦ keeps_key rest secrets result (secret_key t) g (rw same e)
      | inr later ↦ finds_keys rest secrets result t g later
    ]
    | inr (s, f, g) ↦ elim m [
      | inl same ↦ keeps_key rest (insert (secret_key u) s secrets) result (secret_key t) g (
          rw same (
            has_key-insert (secret_key u) (secret_key u) s secrets
            ∙ ground (arith, str_eq_refl (secret_key u))))
      | inr later ↦ finds_keys rest (insert (secret_key u) s secrets) result t g later
    ]
  ]

  -- Where a secret of the result comes from.
  abbrev pub Fetched : List IngressTls → GoString → Secret → Type 0
  Fetched tls k s =
      (t : IngressTls) × Member t tls
      × (k ≡ secret_key t)
      × (lister t.secret_namespace t.secret_name ≡ ok s)

  from_lister :
      (tls : List IngressTls) (secrets result : GoMap Secret) (k : GoString) (s : Secret)
      → get_secrets_from lister secrets tls ≡ ok result
      → lookup k result ≡ some s
      → (lookup k secrets ≡ some s) ⊎ Fetched tls k s
  unfolding get_secrets_from
  from_lister [] secrets result k s h e = let same : secrets ≡ result = cc h in inl (rw same e)
  from_lister (u ∷ rest) secrets result k s h e = elim (step secrets result u rest h) [
    | inl (known, g) ↦ elim (from_lister rest secrets result k s g e) [
      | inl old ↦ inl old
      | inr (t, m, p, q) ↦ inr (t, inr m, p, q)
    ]
    | inr (s', f, g) ↦ elim (from_lister rest (insert (secret_key u) s' secrets) result k s g e) [
      | inl old ↦ elim (Bool-cases (str_eq (secret_key u) k)) [
        | inl same ↦
            let here : some s' ≡ some s =
              sym (lookup-insert (secret_key u) k s' secrets ∙ rw same refl) ∙ old in
            inr (u, inl refl, sym (str_eq→eq (secret_key u) k same), f ∙ cc here)
        | inr other ↦ inl (sym (lookup-insert (secret_key u) k s' secrets ∙ rw other refl) ∙ old)
      ]
      | inr (t, m, p, q) ↦ inr (t, inr m, p, q)
    ]
  ]

  -- When GetSecrets succeeds it has a secret for each TLS block of the visibility, and each
  -- secret that it returns is what the lister gave for a block with that key.
  pub get_secrets_complete :
      ⦃h : IngressHelpers⦄ (ing : Ingress) (visibility : Visibility) (result : GoMap Secret)
      → get_secrets ing visibility lister ≡ ok result
      → (all (λ t. has_key (secret_key t) result) (h.tls_for_visibility ing visibility) ≡ true)
        × ((k : GoString) (s : Secret)
            → lookup k result ≡ some s
            → Fetched (h.tls_for_visibility ing visibility) k s)
  unfolding get_secrets lookup
  get_secrets_complete ⦃h⦄ ing visibility result e =
      let tls = h.tls_for_visibility ing visibility in
      (
        all_of_Member (λ t. has_key (secret_key t) result) tls
            (λ t m. finds_keys tls [] result t e m),
        λ k s f. elim (from_lister tls [] result k s e f) [
          | inl old ↦ absurd (cc old)
          | inr found ↦ found
        ],
      )
