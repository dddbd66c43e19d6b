-- ===== src/Resources/Secrets/Copies.antt =====
-- Which copies `MakeSecrets` and `MakeWildcardSecrets` make.
use knative_extensions_net_i.Base.{
  ◌≡◌, refl, false, List, [], ◌∷◌, Member, Member-append_left, Member-append_right,
  Member-append_cases, Bool-cases, inl, inr, ◌↔◌, ap, ◌∙◌, suc, Bool, not, ◌++◌, map, keep,
  keep-append, length, length-append,
}
use knative_extensions_net_i.GoString.{GoString, str_eq}
use knative_extensions_net_i.Api.{GoMap, Secret}
use knative_extensions_net_i.Platform.{Keys}
use knative_extensions_net_i.Resources.Selection.{ServiceName}
use knative_extensions_net_i.Resources.Secrets.{copy_of, copies_for, copies}

module _ ⦃keys : Keys⦄ (target : Secret → GoString) where
  Member-copies_for :
      (origin : Secret) (meta : ServiceName) (metas : List ServiceName)
      → Member meta metas
      → str_eq meta.namespace origin.meta.namespace ≡ false
      → Member (copy_of target origin meta) (copies_for target origin metas)
  unfolding copies_for
  Member-copies_for origin meta [] m h = elim m [ ]
  Member-copies_for origin meta (x ∷ metas) (inl e) h = rw (← e, h) (inl refl)
  Member-copies_for origin meta (x ∷ metas) (inr m) h =
      let later = Member-copies_for origin meta metas m h in
      elim (Bool-cases (str_eq x.namespace origin.meta.namespace)) [
        | inl e ↦ rw e later
        | inr e ↦ rw e (inr later)
      ]

  -- A copy of an origin for a service in another namespace.
  abbrev pub CopyFor : Secret → List ServiceName → Secret → Type 0
  CopyFor origin metas c =
      (meta : ServiceName) × Member meta metas
      × (str_eq meta.namespace origin.meta.namespace ≡ false)
      × (c ≡ copy_of target origin meta)

  CopyFor-of_Member :
      (origin c : Secret) (metas : List ServiceName)
      → Member c (copies_for target origin metas)
      → CopyFor origin metas c
  unfolding copies_for
  CopyFor-of_Member origin c [] m = elim m [ ]
  CopyFor-of_Member origin c (x ∷ metas) m =
      elim (Bool-cases (str_eq x.namespace origin.meta.namespace)) [
        | inl e ↦
            let (y, n, p, q) = CopyFor-of_Member origin c metas (rw e at m) in (y, inr n, p, q)
        | inr e ↦ elim (rw e at m) [
          | inl here ↦ (x, inl refl, e, here)
          | inr later ↦
              let (y, n, p, q) = CopyFor-of_Member origin c metas later in (y, inr n, p, q)
        ]
      ]

  Member-of_CopyFor :
      (origin c : Secret) (metas : List ServiceName)
      → CopyFor origin metas c
      → Member c (copies_for target origin metas)
  Member-of_CopyFor origin c metas (meta, m, h, e) = rw e (Member-copies_for origin meta metas m h)

  -- The copies are those of an origin secret for a service in another namespace.
  pub copies_iff :
      (metas : List ServiceName) (origins : GoMap Secret) (c : Secret)
      → Member c (copies target metas origins)
        ↔ ((k : GoString) × (origin : Secret) × Member (k, origin) origins × CopyFor origin metas c)
  unfolding copies
  copies_iff metas [] c = ((λ m. elim m [ ]), (λ (k, o, m, f). elim m [ ]))
  copies_iff metas ((k, origin) ∷ origins) c = (
    λ m.
        elim (Member-append_cases c (copies_for target origin metas) (copies target metas origins)
          m) [
            | inl here ↦ (k, origin, inl refl, CopyFor-of_Member origin c metas here)
            | inr later ↦
                let (j, o, n, f) = (copies_iff metas origins c).0 later in (j, o, inr n, f)
          ],
    λ (j, o, m, f). elim m [
      | inl here ↦
          let same : o ≡ origin = ap (λ (p : GoString × Secret). p.1) here in
          Member-append_left c (copies_for target origin metas) (copies target metas origins)
            (Member-of_CopyFor origin c metas (rw same at f))
      | inr later ↦
          Member-append_right c (copies_for target origin metas) (copies target metas origins)
            ((copies_iff metas origins c).1 (j, o, later, f))
    ],
  )

  -- All pairs of an origin secret and a service.
  abbrev pub placements : List ServiceName → GoMap Secret → List (Secret × ServiceName)
  placements metas [] = []
  placements metas ((k, origin) ∷ origins) =
      map (λ (meta : ServiceName). (origin, meta)) metas ++ placements metas origins

  -- The service is in another namespace than the secret.
  abbrev pub is_apart : Secret × ServiceName → Bool
  is_apart (origin, meta) = not (str_eq meta.namespace origin.meta.namespace)

  length-copies_for :
      (origin : Secret) (metas : List ServiceName)
      → length (copies_for target origin metas)
        ≡ length (keep is_apart (map (λ (meta : ServiceName). (origin, meta)) metas))
  unfolding copies_for keep
  length-copies_for origin [] = refl
  length-copies_for origin (meta ∷ metas) =
      elim (Bool-cases (str_eq meta.namespace origin.meta.namespace)) [
        | inl e ↦ rw e (length-copies_for origin metas)
        | inr e ↦ rw e (ap suc (length-copies_for origin metas))
      ]

  length-copies :
      (metas : List ServiceName) (origins : GoMap Secret)
      → length (copies target metas origins) ≡ length (keep is_apart (placements metas origins))
  unfolding copies keep
  length-copies metas [] = refl
  length-copies metas ((k, origin) ∷ origins) =
      let pairs : List (Secret × ServiceName) =
        map (λ (meta : ServiceName). (origin, meta)) metas in
      length-append (copies_for target origin metas) (copies target metas origins)
      ∙ rw
          (
            length-copies_for origin metas,
            length-copies metas origins,
            keep-append is_apart pairs (placements metas origins),
            length-append (keep is_apart pairs) (keep is_apart (placements metas origins)),
          )
          refl

  -- The copies that MakeSecrets and MakeWildcardSecrets make are those of an origin secret for
  -- a service in another namespace than the origin's, and they are as many as the pairs of an
  -- origin secret and such a service.
  pub copies_each :
      (metas : List ServiceName) (origins : GoMap Secret) (c : Secret)
      → (Member c (copies target metas origins) ↔ (
          (k : GoString) × (origin : Secret) × Member (k, origin) origins × CopyFor origin metas c))
        × (length (copies target metas origins) ≡ length (keep is_apart (placements metas origins)))
  copies_each metas origins c = (copies_iff metas origins c, length-copies metas origins)
