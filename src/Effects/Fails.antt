-- ===== src/Effects/Fails.antt =====
-- The errors with which an action can end, with one rule for each way to build an action.
use mathlib.Core.Path.{subst}
use toolexec.Base.{◌≡◌, refl, Bool, true, false, Option, none, some, arith}
use toolexec.Errors.{Err}
use toolexec.Effects.{
  Result, ok, err, Exec, Context, pure, map_err_result, map_err, ended, check, guard, when,
  continue, ◌>>=◌,
}

abbrev pub ErrIn {ℓ} : {A : Type ℓ} → (Err → Type 0) → Result A → Type 0
ErrIn F (ok a) = Unit
ErrIn F (err e) = F e

-- Whenever `m` fails, its error satisfies `F`.
pub record Fails {W A : Type 0} (F : Err → Type 0) (m : Exec W A) : Type 0 where
  pub at : (w : W) → ErrIn F (m w).0

map_err_result-ErrIn :
    {A : Type 0} (F : Err → Type 0) (f : Err → Err) (r : Result A)
    → ErrIn (λ e. F (f e)) r
    → ErrIn F (map_err_result f r)
map_err_result-ErrIn F f (ok a) h = h
map_err_result-ErrIn F f (err e) h = h

ended-ErrIn :
    (F : Err → Type 0) (o : Option Err) → ((e : Err) → o ≡ some e → F e) → ErrIn F (ended o)
ended-ErrIn F none k = tt
ended-ErrIn F (some e) k = k e refl

all-ErrIn : {A : Type 0} (F : Err → Type 0) (r : Result A) → ((e : Err) → F e) → ErrIn F r
all-ErrIn F (ok a) k = tt
all-ErrIn F (err e) k = k e

module _ {W A : Type 0} {F : Err → Type 0} where
  pub Fails-pure : (a : A) → Fails F (λ (w : W). pure a w)
  unfolding pure
  Fails-pure a = record { at = λ w. tt }

  pub Fails-map_err :
      (f : Err → Err) (m : Exec W A) → Fails (λ e. F (f e)) m → Fails F (map_err f m)
  unfolding map_err
  Fails-map_err f m k = record { at = λ w. map_err_result-ErrIn F f (m w).0 (k.at w) }

  -- for an action that is not known
  pub Fails-any : (m : Exec W A) → ((e : Err) → F e) → Fails F m
  Fails-any m k = record { at = λ w. all-ErrIn F (m w).0 k }

  pub Fails-at : {m : Exec W A} (w : W) {e : Err} → Fails F m → (m w).0 ≡ err e → F e
  Fails-at w k h = subst (ErrIn F) h (k.at w)

module _ {W : Type 0} {F : Err → Type 0} where
  pub Fails-check :
      (ctx : Context W) → ((w : W) (e : Err) → (ctx w).0 ≡ some e → F e) → Fails F (check ctx)
  unfolding check
  Fails-check ctx k = record { at = λ w. ended-ErrIn F (ctx w).0 (k w) }

  pub Fails-guard : (b : Bool) (e : Err) → (b ≡ false → F e) → Fails F (λ (w : W). guard b e w)
  unfolding guard
  Fails-guard true e k = record { at = λ w. tt }
  Fails-guard false e k = record { at = λ w. k refl }

  pub Fails-when : (b : Bool) (m : Exec W (Unit {0})) → Fails F m → Fails F (when b m)
  unfolding when
  Fails-when true m k = k
  Fails-when false m k = record { at = λ w. tt }

module _ {W A B : Type 0} {F : Err → Type 0} where
  continue-ErrIn :
      (r : Result A) (f : A → Exec W B) (w : W)
      → ErrIn F r
      → ((a : A) → r ≡ ok a → Fails F (f a))
      → ErrIn F (continue r f w).0
  continue-ErrIn (ok a) f w h k = (k a refl).at w
  continue-ErrIn (err e) f w h k = h

  -- the rest of the block may use that `m` returned
  pub Fails-bind :
      (m : Exec W A) (f : A → Exec W B)
      → Fails F m
      → ((a : A) → ((w : W) × ((m w).0 ≡ ok a)) → Fails F (f a))
      → Fails F (m >>= f)
  unfolding ◌>>=◌
  Fails-bind m f km kf = record {
    at = λ w. continue-ErrIn (m w).0 f (m w).1 (km.at w) (λ a e. kf a (w, e));
  }

-- An error handler that only rewrites the error returns what the call returned.
pub map_err-ok :
    {W A : Type 0} (f : Err → Err) (m : Exec W A) (w : W) (a : A)
    → (map_err f m w).0 ≡ ok a
    → (m w).0 ≡ ok a
unfolding map_err
map_err-ok f m w a h = ground arith
