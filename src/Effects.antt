-- ===== src/Effects.antt =====
-- Go functions with effects. `W` is the world that the program does not implement: handlers,
-- servers, indexes, the clock, the cancellation of a context. A call takes the world and leaves it
-- changed; the error return is the second case of `Result`.
pub mod Keeps
pub mod Fails
pub mod Ensures
use toolexec.Base.{Bool, true, false, Option, none, some}
use toolexec.Errors.{Err}

pub data Result {ℓ} (A : Type ℓ) : Type ℓ where
  ok : A → Result A
  err : Err → Result A

abbrev pub Exec : Type 0 → Type 0 → Type 0
Exec W A = W → Result A × W

-- `ctx.Err()`: nil, or why the context has ended.
abbrev pub Context : Type 0 → Type 0
Context W = W → Option Err × W

abbrev pub map_err_result {ℓ} : {A : Type ℓ} → (Err → Err) → Result A → Result A
map_err_result f (ok a) = ok a
map_err_result f (err e) = err (f e)

abbrev ended : Option Err → Result (Unit {0})
ended none = ok tt
ended (some e) = err e

module _ {W A : Type 0} where
  unfoldable pub pure : A → Exec W A
  pure a w = (ok a, w)

  unfoldable pub fail : Err → Exec W A
  fail e w = (err e, w)

  -- `if err != nil { return f(err) }`
  unfoldable pub map_err : (Err → Err) → Exec W A → Exec W A
  map_err f m w = let (r, w') = m w in (map_err_result f r, w')

  -- the error as a value, for code that goes on after it
  unfoldable pub attempt : Exec W A → Exec W (Result A)
  attempt m w = let (r, w') = m w in (ok r, w')

module _ {W : Type 0} where
  -- `if err := ctx.Err(); err != nil { return err }`
  unfoldable pub check : Context W → Exec W (Unit {0})
  check ctx w = let (e, w') = ctx w in (ended e, w')

  -- an early return with an error, if the test fails
  unfoldable pub guard : Bool → Err → Exec W (Unit {0})
  unfolding pure fail
  guard true e = pure tt
  guard false e = fail e

  unfoldable pub when : Bool → Exec W (Unit {0}) → Exec W (Unit {0})
  unfolding pure
  when true m = m
  when false m = pure tt

module _ {W A B : Type 0} where
  abbrev pub continue : Result A → (A → Exec W B) → Exec W B
  continue (ok a) f w = f a w
  continue (err e) f w = (err e, w)

  infixl 5 ◌>>=◌ ◌>>◌
  -- opening this opens the other ways to build an action too
  unfoldable pub ◌>>=◌ : Exec W A → (A → Exec W B) → Exec W B
  unfolding pure fail map_err attempt check guard when
  ◌>>=◌ m f w = let (r, w') = m w in continue r f w'

  abbrev pub ◌>>◌ : Exec W A → Exec W B → Exec W B
  m >> n = m >>= λ _. n
