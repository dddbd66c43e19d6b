-- ===== src/Lister/Keys.antt =====
-- The keys by which lister.go remembers the servers that it has visited.
use knative_extensions_net_i.Base.{
  ◌≡◌, refl, sym, ap, ◌∙◌, ◌%◌, ◌^◌, ℕ, if◌then◌else◌, Bool, true, not, some, [], ◌∷◌, ok,
  Bool-cases, Result-cases, Option-cases, inl, inr, ◌⊎◌, arith, ltb, ltb→lt, all, all_imp, ◌==◌,
}
use knative_extensions_net_i.GoString.{GoString, bytes, str_eq, str_eq→eq}
use knative_extensions_net_i.GoString.Split.{split, split-append, split-lacks, lacks}
use knative_extensions_net_i.GoString.Decimal.{decimal, is_digit, decimal-is_digit, decimal_inj}
use knative_extensions_net_i.Api.{Server, Service, EndpointSubset}
use knative_extensions_net_i.Platform.{SetLib}
use knative_extensions_net_i.Lister.{
  ProbeHelpers, make_target, probed_as, server_key, scheme_of, redirects, is_mutual,
}

digit_not_slash : (c : ℕ) → is_digit c ≡ true → not (c == b'/') ≡ true
unfolding is_digit
digit_not_slash c h = ground arith

decimal-lacks_slash : (n : ℕ) → lacks b'/' (decimal n) ≡ true
unfolding lacks
decimal-lacks_slash n =
    all_imp is_digit (λ c. not (c == b'/')) (decimal n) digit_not_slash (decimal-is_digit n)

-- A server with a scheme has one of three protocols.
protocol_cases :
    (s : Server) (scheme : GoString)
    → scheme_of s ≡ some scheme
    → ((s.port.protocol ≡ bytes "HTTP") × (scheme ≡ bytes "http"))
      ⊎ (((s.port.protocol ≡ bytes "HTTP2") × (scheme ≡ bytes "http"))
          ⊎ ((s.port.protocol ≡ bytes "HTTPS") × (scheme ≡ bytes "https")))
unfolding scheme_of
protocol_cases s scheme h = elim (Bool-cases (str_eq s.port.protocol (bytes "HTTP"))) [
  | inl e ↦ elim (Bool-cases (redirects s.tls)) [
    | inl r ↦ absurd (cc (rw (e, r) at h))
    | inr r ↦ inl (str_eq→eq s.port.protocol _ e, cc (rw (e, r) at h))
  ]
  | inr e ↦ elim (Bool-cases (str_eq s.port.protocol (bytes "HTTP2"))) [
    | inl f ↦ elim (Bool-cases (redirects s.tls)) [
      | inl r ↦ absurd (cc (rw (e, f, r) at h))
      | inr r ↦ inr (inl (str_eq→eq s.port.protocol _ f, cc (rw (e, f, r) at h)))
    ]
    | inr f ↦ elim (Bool-cases (str_eq s.port.protocol (bytes "HTTPS"))) [
      | inl g ↦ elim (Bool-cases (is_mutual s.tls)) [
        | inl r ↦ absurd (cc (rw (e, f, g, r) at h))
        | inr r ↦ inr (inr (str_eq→eq s.port.protocol _ g, cc (rw (e, f, g, r) at h)))
      ]
      | inr g ↦ absurd (cc (rw (e, f, g) at h))
    ]
  ]
]

protocol-lacks_slash :
    (s : Server) (scheme : GoString) → scheme_of s ≡ some scheme → lacks b'/' s.port.protocol ≡ true
unfolding lacks all
protocol-lacks_slash s scheme h = elim (protocol_cases s scheme h) [
  | inl (e, f) ↦ rw e refl
  | inr (inl (e, f)) ↦ rw e refl
  | inr (inr (e, f)) ↦ rw e refl
]

split_key :
    (s : Server) (scheme : GoString)
    → scheme_of s ≡ some scheme
    → split b'/' (server_key s) ≡ s.port.protocol ∷ decimal s.port.number ∷ []
unfolding server_key
split_key s scheme h =
    split-append b'/' s.port.protocol (decimal s.port.number) (protocol-lacks_slash s scheme h)
    ∙ ap (◌∷◌ s.port.protocol)
        (split-lacks b'/' (decimal s.port.number) (decimal-lacks_slash s.port.number))

-- The scheme of a protocol.
scheme_for : GoString → GoString
scheme_for protocol = if str_eq protocol (bytes "HTTPS") then bytes "https" else bytes "http"

scheme_is :
    (s : Server) (scheme : GoString)
    → scheme_of s ≡ some scheme
    → scheme ≡ scheme_for s.port.protocol
unfolding scheme_for str_eq
scheme_is s scheme h = elim (protocol_cases s scheme h) [
  | inl (e, f) ↦ f ∙ rw e refl
  | inr (inl (e, f)) ↦ f ∙ rw e refl
  | inr (inr (e, f)) ↦ f ∙ rw e refl
]

-- A server's number fits 64 bits, as any 32-bit number does.
abbrev pub in_range : Server → Bool
in_range s = ltb s.port.number (2 ^ 64)

module _ ⦃sets : SetLib⦄ ⦃helpers : ProbeHelpers⦄ where
  -- what `probed_as` says
  pub probed_parts :
      (service : Service) (s : Server) (scheme port_name : GoString)
      → probed_as service s ≡ some (scheme, port_name)
      → (scheme_of s ≡ some scheme)
        × (helpers.name_for_port_number service (s.port.number % 2 ^ 32) ≡ ok port_name)
  unfolding probed_as
  probed_parts service s scheme port_name h = elim (Option-cases (scheme_of s)) [
    | inl e ↦ absurd (cc (rw e at h))
    | inr (x, e) ↦
        elim (Result-cases (helpers.name_for_port_number service (s.port.number % 2 ^ 32))) [
          | inl (n, f) ↦
              let same : some (x, n) ≡ some (scheme, port_name) = rw (e, f) at h in
              let pair : (x, n) ≡ (scheme, port_name) = cc same in
              (
                e ∙ ap (λ (p : GoString × GoString). some (p.0)) pair,
                f ∙ ap (λ (p : GoString × GoString). ok (p.1)) pair,
              )
          | inr (y, f) ↦ absurd (cc (rw (e, f) at h))
        ]
  ]

  -- Servers with the same key are probed in the same way, for the same number.
  pub same_key :
      (service : Service) (a b : Server) (x y m n : GoString)
      → in_range a ≡ true
      → in_range b ≡ true
      → probed_as service a ≡ some (x, m)
      → probed_as service b ≡ some (y, n)
      → server_key a ≡ server_key b
      → (a.port.number ≡ b.port.number) × (x ≡ y) × (m ≡ n)
  same_key service a b x y m n ra rb ha hb e =
      let (sa, na) = probed_parts service a x m ha in
      let (sb, nb) = probed_parts service b y n hb in
      let parts : a.port.protocol ∷ decimal a.port.number ∷ []
          ≡ b.port.protocol ∷ decimal b.port.number ∷ [] =
        sym (split_key a x sa) ∙ ap (split b'/') e ∙ split_key b y sb in
      let same : a.port.number ≡ b.port.number =
        decimal_inj a.port.number b.port.number (ltb→lt _ _ ra) (ltb→lt _ _ rb) (cc parts) in
      let names : ok m ≡ ok n =
        sym na ∙ ap (λ (k : ℕ). helpers.name_for_port_number service (k % 2 ^ 32)) same ∙ nb in
      let protocols : a.port.protocol ≡ b.port.protocol = cc parts in
      (same, scheme_is a x sa ∙ ap scheme_for protocols ∙ sym (scheme_is b y sb), cc names)

  -- A target shows of its server the number alone.
  pub same_target :
      (a b : Server) (x y : GoString) (sub : EndpointSubset) (n : ℕ)
      → a.port.number ≡ b.port.number
      → x ≡ y
      → make_target a x sub n ≡ make_target b y sub n
  unfolding make_target
  same_target a b x y sub n e f = rw (e, f) refl
