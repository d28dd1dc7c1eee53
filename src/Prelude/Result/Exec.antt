-- ===== src/Prelude/Result/Exec.antt =====
-- A method on a mutable object: it returns or fails, and in each case leaves the object in some
-- state, since what was written before an early return stays written.
use mathlib.Core.Bool.{Bool}
use mathlib.Core.Path.{◌≡◌, refl, sym, ap}
use kainotes.Prelude.Result.{Result, ok, err, panic, fail_if}

abbrev pub Exec : Type 0 → Type 0 → Type 0 → Type 0
Exec E S A = S → Result E A × S

module _ {E S A : Type 0} where
  abbrev pub pure : A → Exec E S A
  pure a s = (ok a, s)

  -- A computation that does not touch the object.
  abbrev pub lift : Result E A → Exec E S A
  lift r s = (r, s)

  -- Reads a part of the object.
  abbrev pub gets : (S → A) → Exec E S A
  gets f s = (ok (f s), s)

module _ {E S A B : Type 0} where
  abbrev pub continue : Result E A → (A → Exec E S B) → Exec E S B
  continue (ok a) f s = f a s
  continue (err e) f s = (err e, s)
  continue panic f s = (panic, s)

  infixl 5 ◌>>=◌ ◌>>◌
  abbrev pub ◌>>=◌ : Exec E S A → (A → Exec E S B) → Exec E S B
  ◌>>=◌ m f s = let (r, s') = m s in continue r f s'

  abbrev pub ◌>>◌ : Exec E S A → Exec E S B → Exec E S B
  m >> k = m >>= λ _. k

module _ {E S : Type 0} where
  -- An assignment to the object.
  abbrev pub modify : (S → S) → Exec E S (Unit {0})
  modify f s = (ok tt, f s)

  -- `if c { return Err(e) }`
  abbrev pub reject_if : Bool → E → Exec E S (Unit {0})
  reject_if c e s = (fail_if c e, s)

ok_ne_err : {E A : Type 0} {a : A} {e : E} → ¬ (◌≡◌ {A = Result E A} (ok a) (err e))
ok_ne_err h = cc

ok_ne_panic : {E A : Type 0} {a : A} → ¬ (◌≡◌ {A = Result E A} (ok a) panic)
ok_ne_panic h = cc

-- The parts of a sequence that returned.
pub bind-eq-ok :
    {E S A B : Type 0} (m : Exec E S A) (k : A → Exec E S B) (s t : S) (b : B)
    → (m >>= k) s ≡ (ok b, t)
    → (a : A) × (u : S) × (m s ≡ (ok a, u)) × (k a u ≡ (ok b, t))
bind-eq-ok {E} {S} {A} {B} m k s t b = split (m s)
  where
    split :
        (p : Result E A × S)
        → continue p.0 k p.1 ≡ (ok b, t)
        → (a : A) × (u : S) × (p ≡ (ok a, u)) × (k a u ≡ (ok b, t))
    split (ok a, u) h = (a, u, refl, h)
    split (err e, u) h = absurd (ok_ne_err (sym (ap (λ x. x.0) h)))
    split (panic, u) h = absurd (ok_ne_panic (sym (ap (λ x. x.0) h)))

-- What a sequence keeps, whether it returns or fails.
pub bind-keeps :
    {E S A B : Type 0} (I : S → Type 0) (m : Exec E S A) (k : A → Exec E S B) (s : S)
    → I (m s).1
    → ((a : A) (u : S) → I u → I (k a u).1)
    → I ((m >>= k) s).1
bind-keeps {E} {S} {A} {B} I m k s h keep = split (m s) h
  where
    split : (p : Result E A × S) → I p.1 → I (continue p.0 k p.1).1
    split (ok a, u) i = keep a u i
    split (err e, u) i = i
    split (panic, u) i = i
