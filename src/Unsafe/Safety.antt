-- ===== src/Unsafe/Safety.antt =====
-- What the backend of runtime/backend/unsafe leaves on the host.
use toolexec.Base.{
  ℕ, ℤ, String, ◌≡◌, refl, Option, none, some, arith, inl, inr, Bool-cases, not, ◌&&◌, ◌∙◌, List,
  ◌∷◌, ◌*◌, ◌^◌,
}
use toolexec.Value.{Value}
use toolexec.Errors.{Err}
use toolexec.Effects.{Result, ok, err, Context}
use toolexec.Runtime.Types.{ExecuteRequest}
use toolexec.Runtime.Limits.{validate_request}
use toolexec.Sandbox.{Logger, timeout_or}
use toolexec.Unsafe.{
  Ran, program_failed, outcome, settle, failed, run_files, write_module, UnsafeBackend, Host,
  opted_in, execute_subprocess, execute_interpreter, in_dir, removing, by_mode, stamp, warn,
  run_request, unless_invalid, execute,
}

-- `left` is the directories that the host has made and not removed: making one adds it, removing
-- the last takes it out, and the rest that the backend does changes none.
pub record Tracks {W : Type 0} (host : Host W) (logger : Option (Logger W)) (ctx : Context W)
    (left : W → List String) : Type 0 where
  pub made : (w v : W) (dir : String) → host.make_dir w ≡ (ok dir, v) → left v ≡ dir ∷ left w
  pub not_made : (w v : W) (e : Err) → host.make_dir w ≡ (err e, v) → left v ≡ left w
  pub removed :
      (w : W) (dir : String) (ds : List String)
      → left w ≡ dir ∷ ds
      → left (host.remove_all dir w) ≡ ds
  pub wrote : (w : W) (path text : String) → left (host.write_file path text w).1 ≡ left w
  pub ran : (w : W) (dir : String) → left (host.go_run ctx dir w).1 ≡ left w
  pub asked : (w : W) → left (ctx w).1 ≡ left w
  pub logged :
      (w : W) (write : Logger W) (text : String)
      → logger ≡ some write
      → left (write text w) ≡ left w

module _ {W : Type 0} (unmarshal : String → Option Value) (now : W → ℕ)
    (with_timeout : ℤ → Context W → Context W) (host : Host W) (b : UnsafeBackend W)
    (ctx : Context W) (left : W → List String) (t : Tracks host b.logger ctx left) where
  program_failed-left :
      (r : Ran) (e : Err) (q : Option Err × W)
      → left (program_failed unmarshal now with_timeout host b r e q).1 ≡ left q.1
  unfolding program_failed
  program_failed-left r e (some why, w) = refl
  program_failed-left r e (none, w) = refl

  outcome-left :
      (r : Ran) (o : Option Err) (w : W)
      → left (outcome unmarshal now with_timeout host b ctx r o w).1 ≡ left w
  unfolding outcome
  outcome-left r none w = refl
  outcome-left r (some e) w = program_failed-left r e (ctx w) ∙ t.asked w

  settle-left : (q : Ran × W) → left (settle unmarshal now with_timeout host b ctx q).1 ≡ left q.1
  unfolding settle
  settle-left (r, w) = outcome-left r r.err w

  run_files-left :
      (dir : String) (q : Result (Unit {0}) × W)
      → left (run_files unmarshal now with_timeout host b ctx dir q).1 ≡ left q.1
  unfolding run_files failed
  run_files-left dir (err e, w) = refl
  run_files-left dir (ok _, w) = settle-left _ ∙ t.ran w dir

  write_module-left :
      (dir : String) (q : Result (Unit {0}) × W)
      → left (write_module unmarshal now with_timeout host b ctx dir q).1 ≡ left q.1
  unfolding write_module failed
  write_module-left dir (err e, w) = refl
  write_module-left dir (ok _, w) = run_files-left dir _ ∙ t.wrote w _ _

  in_dir-left :
      (code : String) (w : W) (q : Result String × W)
      → host.make_dir w ≡ q
      → left (in_dir unmarshal now with_timeout host b ctx code q).1 ≡ left w
  unfolding in_dir failed removing
  in_dir-left code w (err e, v) h = t.not_made w v e h
  in_dir-left code w (ok dir, v) h =
      t.removed _ dir (left w) (write_module-left dir _ ∙ (t.wrote v _ _ ∙ t.made w v dir h))

  execute_subprocess-left :
      (code : String) (w : W)
      → left (execute_subprocess unmarshal now with_timeout host b ctx code w).1 ≡ left w
  unfolding execute_subprocess
  execute_subprocess-left code w = in_dir-left code w (host.make_dir w) refl

  by_mode-left :
      (code : String) (w : W)
      → left (by_mode unmarshal now with_timeout host b ctx code w).1 ≡ left w
  unfolding by_mode execute_interpreter
  by_mode-left code w = ground (arith, execute_subprocess-left code w)

  warn-left :
      (l : Option (Logger W)) (w : W)
      → b.logger ≡ l
      → left (warn unmarshal now with_timeout host b l w) ≡ left w
  unfolding warn
  warn-left none w e = refl
  warn-left (some write) w e = t.logged w write _ e

module _ {W : Type 0} (unmarshal : String → Option Value) (now : W → ℕ)
    (with_timeout : ℤ → Context W → Context W) (host : Host W) (b : UnsafeBackend W)
    (ctx : Context W) (req : ExecuteRequest W) (left : W → List String)
    (t : Tracks host b.logger (with_timeout (timeout_or (30 * 10 ^ 9) req.timeout) ctx) left) where
  run_request-left :
      (w : W) → left (run_request unmarshal now with_timeout host b ctx req w).1 ≡ left w
  unfolding run_request stamp
  run_request-left w =
      let timed = with_timeout (timeout_or (30 * 10 ^ 9) req.timeout) ctx in
      by_mode-left unmarshal now with_timeout host b timed left t req.code _
      ∙ warn-left unmarshal now with_timeout host b timed left t b.logger w refl

  unless_invalid-left :
      (o : Option Err) (w : W)
      → left (unless_invalid unmarshal now with_timeout host b o ctx req w).1 ≡ left w
  unfolding unless_invalid
  unless_invalid-left (some e) w = refl
  unless_invalid-left none w = elim (Bool-cases (b.require_opt_in && not (opted_in req.metadata))) [
    | inl refused ↦ rw refused refl
    | inr allowed ↦ rw allowed (run_request-left w)
  ]

  -- On a host where a directory that is removed is gone, and where the program that runs, the files,
  -- the context and the logger neither make nor remove any, executing a request leaves the
  -- directories as they were, whatever its outcome.
  pub execute-left : (w : W) → left (execute unmarshal now with_timeout host b ctx req w).1 ≡ left w
  unfolding execute
  execute-left w = unless_invalid-left (validate_request req) w
