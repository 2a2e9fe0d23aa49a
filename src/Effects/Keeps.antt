-- ===== src/Effects/Keeps.antt =====
-- Properties of the world that an action keeps, with one rule for each way to build an action.
use toolexec.Base.{◌≡◌, refl, Bool, true, false, if◌then◌else◌}
use toolexec.Errors.{Err}
use toolexec.Effects.{
  Result, ok, err, Exec, Context, pure, fail, map_err, attempt, check, guard, when, continue, ◌>>=◌,
}

-- `m` keeps `P`, whether it returns or fails.
pub record Keeps {W A : Type 0} (P : W → Type 0) (m : Exec W A) : Type 0 where
  pub at : (w : W) → P w → P (m w).1

-- Asking for the end of the context keeps `P`.
pub record ContextKeeps {W : Type 0} (P : W → Type 0) (ctx : Context W) : Type 0 where
  pub at : (w : W) → P w → P (ctx w).1

module _ {W A : Type 0} {P : W → Type 0} where
  pub Keeps-pure : (a : A) → Keeps P (pure a)
  unfolding pure
  Keeps-pure a = record { at = λ w h. h }

  pub Keeps-fail : (e : Err) → Keeps P (fail {A = A} e)
  unfolding fail
  Keeps-fail e = record { at = λ w h. h }

  pub Keeps-map_err : (f : Err → Err) (m : Exec W A) → Keeps P m → Keeps P (map_err f m)
  unfolding map_err
  Keeps-map_err f m k = record { at = k.at }

  pub Keeps-attempt : (m : Exec W A) → Keeps P m → Keeps P (attempt m)
  unfolding attempt
  Keeps-attempt m k = record { at = k.at }

  pub Keeps-if : (b : Bool) (m n : Exec W A) → Keeps P m → Keeps P n → Keeps P (if b then m else n)
  Keeps-if true m n km kn = km
  Keeps-if false m n km kn = kn

module _ {W : Type 0} {P : W → Type 0} where
  pub Keeps-check : (ctx : Context W) → ContextKeeps P ctx → Keeps P (check ctx)
  unfolding check
  Keeps-check ctx k = record { at = k.at }

  pub Keeps-guard : (b : Bool) (e : Err) → Keeps P (guard b e)
  unfolding guard
  Keeps-guard true e = record { at = λ w h. h }
  Keeps-guard false e = record { at = λ w h. h }

  pub Keeps-when : (b : Bool) (m : Exec W (Unit {0})) → (b ≡ true → Keeps P m) → Keeps P (when b m)
  unfolding when
  Keeps-when true m k = k refl
  Keeps-when false m k = record { at = λ w h. h }

module _ {W A B : Type 0} {P : W → Type 0} where
  continue-keeps :
      (r : Result A) (f : A → Exec W B) (w : W)
      → ((a : A) → Keeps P (f a))
      → P w
      → P (continue r f w).1
  continue-keeps (ok a) f w k h = (k a).at w h
  continue-keeps (err e) f w k h = h

  pub Keeps-bind :
      (m : Exec W A) (f : A → Exec W B) → Keeps P m → ((a : A) → Keeps P (f a)) → Keeps P (m >>= f)
  unfolding ◌>>=◌
  Keeps-bind m f km kf = record {
    at = λ w h. let (r, w') = m w in continue-keeps r f w' kf (km.at w h);
  }

pub ruleset keeps_rules = (
  Keeps-pure, Keeps-fail, Keeps-map_err, Keeps-attempt, Keeps-if, Keeps-check, Keeps-guard,
  Keeps-when, Keeps-bind,
)
