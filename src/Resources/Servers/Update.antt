-- ===== src/Resources/Servers/Update.antt =====
-- `UpdateGateway`: what a Gateway holds after the servers of one Ingress are replaced.
use knative_extensions_net_i.Base.{
  ◌<◌, ◌≡◌, refl, sym, ap, ◌∙◌, Bool, true, false, not, ◌&&◌, ◌||◌, List, [], ◌∷◌, ◌++◌, arith, ◌↔◌,
  all, any, keep, keep-append, keep-all, keep_none, length, map, Bool-cases, inl, inr, Member,
  any-map, any_of_Member, Member-of_any, Member-keep, Member-all, keep_cong, keep-keep, all-keep,
  all_of_Member, all_imp,
}
use mathlib.Core.List.{append-nil}
use knative_extensions_net_i.Base.Sort.{any-sort, keep-sort, length-sort}
use knative_extensions_net_i.GoString.{str_eq, elem, str_eq_refl}
use knative_extensions_net_i.GoString.Split.{split}
use knative_extensions_net_i.Api.{Server, Gateway, Ingress}
use knative_extensions_net_i.Platform.{SetLib}
use knative_extensions_net_i.Resources.Servers.{
  server_lt, sort_servers, belongs_to_ingress, get_servers, placeholder_server, kept_servers,
  or_placeholder, update_gateway,
}
use knative_extensions_net_i.Resources.Servers.Ownership.{
  server_lt_asym, not-server_lt_trans, sort_servers_idem, belongs_by_name,
}

keep-sort_servers :
    (p : Server → Bool) (servers : List Server)
    → keep p (sort_servers servers) ≡ sort_servers (keep p servers)
unfolding sort_servers
keep-sort_servers = keep-sort server_lt server_lt_asym not-server_lt_trans

any-sort_servers :
    (p : Server → Bool) (servers : List Server) → any p (sort_servers servers) ≡ any p servers
unfolding sort_servers
any-sort_servers p servers = any-sort server_lt p servers

-- The placeholder's port name has no colon.
pub placeholder_not_owned : (ing : Ingress) → belongs_to_ingress placeholder_server ing ≡ false
unfolding belongs_to_ingress placeholder_server split
placeholder_not_owned ing = refl

or_placeholder-pos : (l : List Server) → 0 < length (or_placeholder l)
unfolding or_placeholder
or_placeholder-pos [] = omega arith
or_placeholder-pos (s ∷ l) = omega arith

length-sort_servers : (servers : List Server) → length (sort_servers servers) ≡ length servers
unfolding sort_servers
length-sort_servers = length-sort server_lt

-- An update leaves no Gateway without servers.
pub update_gateway-ne-nil :
    ⦃sets : SetLib⦄ (is_placeholder : Server → Bool) (gateway : Gateway)
    (want existing : List Server)
    → 0 < length (update_gateway is_placeholder gateway want existing).servers
unfolding update_gateway
update_gateway-ne-nil is_placeholder gateway want existing =
    let left = kept_servers is_placeholder existing gateway.servers ++ want in
    omega (arith, length-sort_servers (or_placeholder left), or_placeholder-pos left)

and_not_or : (a b : Bool) → not (a && not (a || b)) ≡ true
and_not_or a b = ground arith

not_others : (a b : Bool) → a ≡ true → not (not a && not b) ≡ true
not_others a b h = ground arith

and_idem : (a b : Bool) → ((not a && not b) && not (a || b)) ≡ (not a && not b)
and_idem a b = ground arith

-- A test that the placeholder fails does not see it.
keep-or_placeholder :
    (p : Server → Bool) (l : List Server)
    → p placeholder_server ≡ false
    → keep p (or_placeholder l) ≡ keep p l
unfolding or_placeholder keep
keep-or_placeholder p [] h = rw h refl
keep-or_placeholder p (s ∷ l) h = refl

module _ (gateway : Gateway) (ing : Ingress) where
  abbrev own : Server → Bool
  own s = belongs_to_ingress s ing

  any_own_name :
      (s : Server)
      → Member s gateway.servers
      → any (λ t. str_eq s.port.name t.port.name) (keep own gateway.servers) ≡ own s
  any_own_name s m = elim (Bool-cases (own s)) [
    | inl e ↦
        any_of_Member (λ t. str_eq s.port.name t.port.name) s (keep own gateway.servers)
          (Member-keep own s gateway.servers m e) (str_eq_refl s.port.name)
        ∙ sym e
    | inr e ↦
        elim (Bool-cases (any (λ t. str_eq s.port.name t.port.name) (keep own gateway.servers))) [
          | inl a ↦
              let (t, k, h) =
                Member-of_any (λ t. str_eq s.port.name t.port.name) (keep own gateway.servers) a in
              cc (
                belongs_by_name s t ing h,
                Member-all own t (keep own gateway.servers) (all-keep own gateway.servers) k,
              )
          | inr a ↦ a ∙ sym e
        ]
  ]

  module _ ⦃sets : SetLib⦄ where
    -- A port name is among those of the Ingress's servers just if the server is the Ingress's.
    existing_iff_own :
        (s : Server)
        → Member s gateway.servers
        → sets.has
            (sets.insert sets.empty (map (λ (t : Server). t.port.name) (get_servers gateway ing)))
            s.port.name
          ≡ own s
    unfolding get_servers elem
    existing_iff_own s m =
        let names = map (λ (t : Server). t.port.name) (get_servers gateway ing) in
        let same_name = λ (t : Server). str_eq s.port.name t.port.name in
        sets.has-insert sets.empty names s.port.name
        ∙ rw (sets.has-empty s.port.name) (
            any-map (str_eq s.port.name) (λ (t : Server). t.port.name) (get_servers gateway ing)
            ∙ any-sort_servers same_name (keep own gateway.servers)
            ∙ any_own_name s m)

    -- What an update removes is the Ingress's servers and the placeholders.
    pub kept_servers_lem :
        (is_placeholder : Server → Bool)
        → kept_servers is_placeholder (get_servers gateway ing) gateway.servers
          ≡ keep (λ s. not (own s || is_placeholder s)) gateway.servers
    unfolding kept_servers
    kept_servers_lem is_placeholder =
        keep_cong _ _ gateway.servers
          λ s m. ap (λ (b : Bool). not (b || is_placeholder s)) (existing_iff_own s m)

module _ ⦃sets : SetLib⦄ (is_placeholder : Server → Bool)
    (is_placeholder_iff : (s : Server) → (is_placeholder s ≡ true) ↔ (s ≡ placeholder_server))
    (gateway : Gateway) (ing : Ingress) (want : List Server)
    (all_own : all (λ s. belongs_to_ingress s ing) want ≡ true) where
  updated : List Server
  updated = (update_gateway is_placeholder gateway want (get_servers gateway ing)).servers

  -- Filtering the updated servers is filtering what was left and what is wanted.
  keep-updated :
      (p : Server → Bool)
      → p placeholder_server ≡ false
      → keep p updated
        ≡ sort_servers (
            keep (λ s. p s && not (belongs_to_ingress s ing || is_placeholder s)) gateway.servers
            ++ keep p want)
  unfolding updated update_gateway
  keep-updated p h =
      let rest = λ (s : Server). not (belongs_to_ingress s ing || is_placeholder s) in
      rw (kept_servers_lem gateway ing is_placeholder) (
        keep-sort_servers p (or_placeholder (keep rest gateway.servers ++ want))
        ∙ ap sort_servers (
            keep-or_placeholder p (keep rest gateway.servers ++ want) h
            ∙ keep-append p (keep rest gateway.servers) want
            ∙ ap (λ l. l ++ keep p want) (keep-keep p rest gateway.servers)))

  -- With a placeholder test that is equality with the placeholder, for a Gateway whose servers
  -- of one Ingress are replaced by wanted servers that all belong to that Ingress, GetServers
  -- finds the wanted servers, sorted by port name, and no other.
  pub get-update_gateway :
      get_servers (update_gateway is_placeholder gateway want (get_servers gateway ing)) ing
      ≡ sort_servers want
  unfolding get_servers updated
  get-update_gateway =
      let own_test = λ (s : Server). belongs_to_ingress s ing in
      let rest = λ (s : Server). own_test s && not (own_test s || is_placeholder s) in
      ap sort_servers (
        keep-updated own_test (placeholder_not_owned ing)
        ∙ ap sort_servers (
            ap (λ l. l ++ keep own_test want)
              (keep_none rest gateway.servers (
                all_of_Member (λ s. not (rest s)) gateway.servers
                  (λ s m. and_not_or (own_test s) (is_placeholder s))))
            ∙ keep-all own_test want all_own))
      ∙ sort_servers_idem want

  -- With a placeholder test that is equality with the placeholder, where the servers of one
  -- Ingress are replaced by wanted servers that all belong to that Ingress, the servers of the
  -- Gateway that are neither of the Ingress nor placeholders are after the update the ones
  -- from before it, sorted by port name.
  pub update_gateway_others :
      keep
        (λ s. not (belongs_to_ingress s ing) && not (is_placeholder s))
        (update_gateway is_placeholder gateway want (get_servers gateway ing)).servers
      ≡ sort_servers
          (keep (λ s. not (belongs_to_ingress s ing) && not (is_placeholder s)) gateway.servers)
  unfolding updated
  update_gateway_others =
      let others = λ (s : Server). not (belongs_to_ingress s ing) && not (is_placeholder s) in
      keep-updated others
        (ground (arith, placeholder_not_owned ing, (is_placeholder_iff placeholder_server).1 refl))
      ∙ ap sort_servers (
          ap
            (λ l.
              keep (λ s. others s && not (belongs_to_ingress s ing || is_placeholder s))
                gateway.servers
              ++ l)
            (keep_none others want (
              all_imp (λ s. belongs_to_ingress s ing) (λ s. not (others s)) want
                (λ s h. not_others (belongs_to_ingress s ing) (is_placeholder s) h) all_own))
          ∙ append-nil _
          ∙ keep_cong _ others gateway.servers
              (λ s m. and_idem (belongs_to_ingress s ing) (is_placeholder s)))
