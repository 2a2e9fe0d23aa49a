-- ===== src/Effects/Ensures.antt =====
-- What the results of an action satisfy.
use mathlib.Core.Path.{subst}
use toolexec.Base.{◌≡◌, refl}
use toolexec.Effects.{Result, ok, err, Exec, pure, continue, ◌>>=◌}

-- Whenever `m` returns, its result satisfies `Q`.
pub record Ensures {W A : Type 0} (Q : A → Type 0) (m : Exec W A) : Type 0 where
  pub at : (w : W) (a : A) → (m w).0 ≡ ok a → Q a

pub Ensures-pure : {W A : Type 0} (Q : A → Type 0) (a : A) → Q a → Ensures Q (λ (w : W). pure a w)
unfolding pure
Ensures-pure Q a q = record { at = λ w b e. let same : a ≡ b = cc in subst Q same q }

module _ {W A B : Type 0} {Q : B → Type 0} where
  continue-Ensures :
      (r : Result A) (f : A → Exec W B) (w : W) (b : B)
      → ((a : A) → r ≡ ok a → Ensures Q (f a))
      → (continue r f w).0 ≡ ok b
      → Q b
  continue-Ensures (ok a) f w b k h = (k a refl).at w b h
  continue-Ensures (err e) f w b k h = absurd cc

  -- the rest of the block may use that `m` returned
  pub Ensures-bind :
      (m : Exec W A) (f : A → Exec W B)
      → ((a : A) → ((w : W) × ((m w).0 ≡ ok a)) → Ensures Q (f a))
      → Ensures Q (m >>= f)
  unfolding ◌>>=◌
  Ensures-bind m f k = record {
    at = λ w b h. continue-Ensures (m w).0 f (m w).1 b (λ a e. k a (w, e)) h;
  }
