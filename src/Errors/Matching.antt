-- ===== src/Errors/Matching.antt =====
-- How errors match their sentinels (run/errors.go).
use mathlib.Core.Bool.{decide_iff}
use toolexec.Base.{String, ◌≡◌, refl, true, Option, arith, ◌↔◌, ◌⊎◌}
use toolexec.Model.{ToolBackend}
use toolexec.Errors.{
  Sentinel, Sentinel-discrete, sentinel_eq, tool_not_found, index_not_found, Err, tool_error,
  errors_is,
}

pub sentinel_eq_iff : (s t : Sentinel) → (sentinel_eq s t ≡ true) ↔ (s ≡ t)
unfolding sentinel_eq
sentinel_eq_iff s t = decide_iff (Sentinel-discrete s t)

pub sentinel_eq_refl : (s : Sentinel) → sentinel_eq s s ≡ true
sentinel_eq_refl s = (sentinel_eq_iff s s).1 refl

-- A tool error matches what the error inside it matches, and `ErrToolNotFound` besides when that
-- is the index's `ErrNotFound`.
pub tool_error-matches :
    (id : String) (b : Option ToolBackend) (op : String) (e : Err) (t : Sentinel)
    → (errors_is (tool_error id b op e) t ≡ true)
      ↔ ((errors_is e t ≡ true) ⊎ ((t ≡ tool_not_found) × (errors_is e index_not_found ≡ true)))
unfolding errors_is
tool_error-matches id b op e t = grind (arith, sentinel_eq_iff)
