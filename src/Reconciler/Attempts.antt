-- ===== src/Reconciler/Attempts.antt =====
-- Runs that collect the errors of their calls and go on.
use knative_extensions_net_i.Base.{
  if◌then◌else◌, arith, Bool, ◌≡◌, refl, true, false, not, ◌||◌, ◌&&◌, List, [], ◌∷◌, ◌++◌, Result,
  ok, Error, inl, inr, ◌⊎◌, Member, Member-append_left, Member-append_right,
}
use knative_extensions_net_i.Reconciler.Run.{Run, Effect, pure, ◌>>=◌}

-- A run that collects errors does not fail.
abbrev pub Collects : Run (List Error) → Type 0
Collects r = (errors : List Error) × (r.result ≡ ok errors)

-- The effect is there, and the errors that are collected are none only where the call succeeds.
pub record Attempts (r : Run (List Error)) (e : Effect) (call : Result (Unit {0})) : Type 0 where
  pub errors : List Error
  pub collected : r.result ≡ ok errors
  pub tried : Member e r.effects
  pub reported : (call ≡ ok tt) ⊎ ((first : Error) × (rest : List Error) × (errors ≡ first ∷ rest))

pub neither : (a b : Bool) → (a || b) ≡ true → (not a && not b) ≡ false
neither a b h = ground arith

pub if_false {ℓ} : {A : Type ℓ} (c : Bool) (x y : A) → c ≡ false → (if c then x else y) ≡ y
if_false c x y e = rw e refl

-- Two runs, with the errors of both.
abbrev pub both : Run (List Error) → Run (List Error) → Run (List Error)
both r s = do errs ← r; rest ← s; pure (errs ++ rest)

pub both-Collects : (r s : Run (List Error)) → Collects r → Collects s → Collects (both r s)
both-Collects r s (errs, a) (rest, b) = (errs ++ rest, rw (a, b) refl)

both_effects :
    (r s : Run (List Error))
    → Collects r
    → Collects s
    → (both r s).effects ≡ r.effects ++ (s.effects ++ [])
both_effects r s (errs, a) (rest, b) = rw (a, b) refl

nonempty_left :
    {call : Result (Unit {0})} (xs ys : List Error)
    → (call ≡ ok tt) ⊎ ((first : Error) × (rest : List Error) × (xs ≡ first ∷ rest))
    → (call ≡ ok tt) ⊎ ((first : Error) × (rest : List Error) × (xs ++ ys ≡ first ∷ rest))
nonempty_left xs ys (inl e) = inl e
nonempty_left xs ys (inr (first, rest, e)) = inr (first, rest ++ ys, rw e refl)

nonempty_right :
    {call : Result (Unit {0})} (xs ys : List Error)
    → (call ≡ ok tt) ⊎ ((first : Error) × (rest : List Error) × (ys ≡ first ∷ rest))
    → (call ≡ ok tt) ⊎ ((first : Error) × (rest : List Error) × (xs ++ ys ≡ first ∷ rest))
nonempty_right xs ys (inl e) = inl e
nonempty_right [] ys (inr (first, rest, e)) = inr (first, rest, e)
nonempty_right (x ∷ xs) ys (inr (first, rest, e)) = inr (x, xs ++ ys, refl)

module _ (r s : Run (List Error)) {e : Effect} {call : Result (Unit {0})} where
  pub Attempts-left : Attempts r e call → Collects s → Attempts (both r s) e call
  Attempts-left a (rest, b) = record {
    errors = a.errors ++ rest;
    collected = rw (a.collected, b) refl;
    tried =
        rw (both_effects r s (a.errors, a.collected) (rest, b))
          (Member-append_left e r.effects (s.effects ++ []) a.tried);
    reported = nonempty_left a.errors rest a.reported;
  }

  pub Attempts-right : Collects r → Attempts s e call → Attempts (both r s) e call
  Attempts-right (errs, b) a = record {
    errors = errs ++ a.errors;
    collected = rw (b, a.collected) refl;
    tried = rw (both_effects r s (errs, b) (a.errors, a.collected)) (
        Member-append_right e r.effects (s.effects ++ [])
          (Member-append_left e s.effects [] a.tried));
    reported = nonempty_right errs a.errors a.reported;
  }
