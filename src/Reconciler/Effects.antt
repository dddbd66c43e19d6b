-- ===== src/Reconciler/Effects.antt =====
-- Where the effects of a run come from.
use knative_extensions_net_i.Base.{
  ◌≡◌, refl, List, [], ◌∷◌, Result, ok, err, inl, inr, ◌⊎◌, Member, Member-append_cases,
  Member-append_left, ◌++◌, Member-append_right, Result-cases,
}
use knative_extensions_net_i.Reconciler.Run.{◌>>=◌, Run, Effect, continue, for_each}

-- The effects of a run in two steps are those of the first, then those of the second.
pub Member-continue {ℓ κ} :
    {A : Type ℓ} {B : Type κ} (r : Result A) (es : List Effect) (f : A → Run B) (e : Effect)
    → Member e (continue r es f).effects
    → Member e es ⊎ ((a : A) × (r ≡ ok a) × Member e (f a).effects)
Member-continue (ok a) es f e m = elim (Member-append_cases e es (f a).effects m) [
  | inl b ↦ inl b
  | inr c ↦ inr (a, refl, c)
]
Member-continue (err x) es f e m = inl m

pub Member-for_each {ℓ} :
    {A : Type ℓ} (f : A → Run (Unit {0})) (xs : List A) (e : Effect)
    → Member e (for_each f xs).effects
    → (x : A) × Member x xs × Member e (f x).effects
unfolding for_each
Member-for_each f [] e m = elim m [ ]
Member-for_each f (x ∷ xs) e m =
    elim (Member-continue (f x).result (f x).effects (λ u. for_each f xs) e m) [
      | inl b ↦ (x, inl refl, b)
      | inr (u, q, c) ↦ let (y, n, d) = Member-for_each f xs e c in (y, inr n, d)
    ]

-- A run that succeeds, by its steps.
pub continue-eq-ok {ℓ κ} :
    {A : Type ℓ} {B : Type κ} (r : Run A) (f : A → Run B) {b : B}
    → (r >>= f).result ≡ ok b
    → (a : A) × (r.result ≡ ok a)
      × ((f a).result ≡ ok b)
      × ((r >>= f).effects ≡ r.effects ++ (f a).effects)
continue-eq-ok r f h = elim (Result-cases r.result) [
  | inl (a, e) ↦ (a, e, rw e at h, rw e refl)
  | inr (x, e) ↦ absurd (cc (rw e at h))
]

-- A loop that succeeds does so in each round, and has the effects of each.
pub for_each-eq-ok {ℓ} :
    {A : Type ℓ} (f : A → Run (Unit {0})) (xs : List A) (x : A)
    → (for_each f xs).result ≡ ok tt
    → Member x xs
    → ((f x).result ≡ ok tt)
      × ((e : Effect) → Member e (f x).effects → Member e (for_each f xs).effects)
unfolding for_each
for_each-eq-ok f [] x h m = elim m [ ]
for_each-eq-ok f (y ∷ ys) x h (inl q) =
    let (u, a, k, l) = continue-eq-ok (f y) (λ u. for_each f ys) h in
    (rw q a, λ e n. rw l (Member-append_left e (f y).effects (for_each f ys).effects (rw q at n)))
for_each-eq-ok f (y ∷ ys) x h (inr m) =
    let (u, a, k, l) = continue-eq-ok (f y) (λ u. for_each f ys) h in
    let (b, c) = for_each-eq-ok f ys x k m in
    (b, λ e n. rw l (Member-append_right e (f y).effects (for_each f ys).effects (c e n)))
