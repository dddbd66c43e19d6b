-- ===== src/Resources/Secrets/Sorting.antt =====
-- `CategorizeSecrets`: the wildcard secrets and the others.
use knative_extensions_net_i.Base.{
  ◌≡◌, refl, sym, ◌∙◌, Bool, true, false, ◌||◌, some, [], ◌∷◌, ok, >>=-eq-ok, arith, Bool-cases,
  inl, inr, ap,
}
use knative_extensions_net_i.GoString.{GoString, str_eq}
use knative_extensions_net_i.Api.{
  GoMap, lookup, has_key, insert, lookup-insert, has_key-insert, Secret,
}
use knative_extensions_net_i.Platform.{Keys}
use knative_extensions_net_i.Resources.Secrets.{
  Certificates, is_wildcard_secret, categorize_from, categorize_secrets,
}

module _ ⦃keys : Keys⦄ ⦃certs : Certificates⦄ where
  -- Each secret of the map is a wildcard one, or each is none.
  abbrev pub AllAre : Bool → GoMap Secret → Type 0
  AllAre wildcard m =
      (k : GoString) (s : Secret) → lookup k m ≡ some s → is_wildcard_secret s ≡ ok wildcard

  insert-AllAre :
      (b : Bool) (k : GoString) (s : Secret) (m : GoMap Secret)
      → is_wildcard_secret s ≡ ok b
      → AllAre b m
      → AllAre b (insert k s m)
  insert-AllAre b k s m h all j t e = elim (Bool-cases (str_eq k j)) [
    | inl q ↦
        let same : some s ≡ some t = sym (lookup-insert k j s m ∙ rw q refl) ∙ e in
        let here : s ≡ t = cc same in rw (← here) h
    | inr q ↦ all j t (sym (lookup-insert k j s m ∙ rw q refl) ∙ e)
  ]

  -- What the loop keeps true of its two maps.
  pub record Sorted (before plain wildcard : GoMap Secret) (rest : GoMap Secret) : Type 0 where
    pub plain_are : AllAre false plain
    pub wildcard_are : AllAre true wildcard
    pub same_keys :
        (k : GoString)
        → has_key k before ≡ ((has_key k plain || has_key k wildcard) || has_key k rest)

  next_plain :
      (before plain wildcard rest : GoMap Secret) (k : GoString) (s : Secret)
      → is_wildcard_secret s ≡ ok false
      → Sorted before plain wildcard ((k, s) ∷ rest)
      → Sorted before (insert k s plain) wildcard rest
  unfolding has_key
  next_plain before plain wildcard rest k s h inv = record {
    plain_are = insert-AllAre false k s plain h inv.plain_are;
    wildcard_are = inv.wildcard_are;
    same_keys = λ j. inv.same_keys j ∙ ground (arith, has_key-insert k j s plain);
  }

  next_wildcard :
      (before plain wildcard rest : GoMap Secret) (k : GoString) (s : Secret)
      → is_wildcard_secret s ≡ ok true
      → Sorted before plain wildcard ((k, s) ∷ rest)
      → Sorted before plain (insert k s wildcard) rest
  unfolding has_key
  next_wildcard before plain wildcard rest k s h inv = record {
    plain_are = inv.plain_are;
    wildcard_are = insert-AllAre true k s wildcard h inv.wildcard_are;
    same_keys = λ j. inv.same_keys j ∙ ground (arith, has_key-insert k j s wildcard);
  }

  categorize_from-Sorted :
      (rest before plain wildcard plain' wildcard' : GoMap Secret)
      → Sorted before plain wildcard rest
      → categorize_from plain wildcard rest ≡ ok (plain', wildcard')
      → Sorted before plain' wildcard' []
  unfolding categorize_from
  categorize_from-Sorted [] before plain wildcard plain' wildcard' inv h =
      let same : (plain, wildcard) ≡ (plain', wildcard') = cc h in
      let a : plain ≡ plain' = ap (λ (p : GoMap Secret × GoMap Secret). p.0) same in
      let b : wildcard ≡ wildcard' = ap (λ (p : GoMap Secret × GoMap Secret). p.1) same in
      rw (← a, ← b) inv
  categorize_from-Sorted ((k, s) ∷ rest) before plain wildcard plain' wildcard' inv h =
      let (b, e, h₁) = >>=-eq-ok (is_wildcard_secret s) _ h in
      elim (Bool-cases b) [
        | inl t ↦
            categorize_from-Sorted rest before plain (insert k s wildcard) plain' wildcard'
              (next_wildcard before plain wildcard rest k s (rw t at e) inv) (rw t at h₁)
        | inr f ↦
            categorize_from-Sorted rest before (insert k s plain) wildcard plain' wildcard'
              (next_plain before plain wildcard rest k s (rw f at e) inv) (rw f at h₁)
      ]

  -- When CategorizeSecrets succeeds, each secret of the first map is no wildcard secret, each
  -- of the second is one, and the two have the keys of the secrets and no other.
  pub categorize_secrets-Sorted :
      (secrets plain wildcard : GoMap Secret)
      → categorize_secrets secrets ≡ ok (plain, wildcard)
      → Sorted secrets plain wildcard []
  unfolding categorize_secrets lookup has_key
  categorize_secrets-Sorted secrets plain wildcard h =
      categorize_from-Sorted secrets secrets [] [] plain wildcard
        (record {
          plain_are = λ k s e. absurd (cc e);
          wildcard_are = λ k s e. absurd (cc e);
          same_keys = λ k. refl;
        })
        h
