-- ===== src/Tests/Runs.antt =====
-- The theorems on runs, resolutions and chains, on the runner of the fixture.
use mathlib.Core.Bool.{decide}
use toolexec.Base.{
  zero, ◌∙◌, String, ℕ, ◌≡◌, refl, none, some, arith, ◌⊎◌, ◌+◌, ◌-◌, ◌≤◌, if◌then◌else◌,
}
use toolexec.Value.{null, Fields}
use toolexec.Errors.{
  Err, sentinel, wrapped, message, tool_error, execution, index_not_found, tool_not_found,
  errors_is, sentinel_eq,
}
use toolexec.Effects.{◌>>=◌, ok, err}
use toolexec.Run.Runner.{run, emit, prepare, perform}
use toolexec.Run.Dispatch.{dispatch}
use toolexec.Run.Normalize.{normalize}
use toolexec.Run.Runner.Failures.{Failure, Broken, run-Failure, run_failed-Keeps}
use toolexec.Run.Runner.Validation.{Checked, run-Checked}
use toolexec.Run.Resolve.{
  resolve_tool, from_index, select_backend, from_tool_resolver, from_backends_resolver,
}
use toolexec.Run.Resolve.Keeps.{LookupsKeep}
use toolexec.Run.Resolve.Sources.{resolve_tool-index_miss, without_index}
use toolexec.Run.Chain.{run_chain, run_chain_with_progress}
use toolexec.Run.Chain.Refinement.{Runs, final_result, run_chain-Runs}
use toolexec.Run.Chain.Reports.{IsReport, run_chain-IsReport, run_chain_with_progress-Keeps}
use toolexec.Run.Types.{ProgressEvent}
use toolexec.Run.Config.{DefaultRunner}
use toolexec.Tests.Fixture.{
  live, index, get_tool, local_backend, runner, no_json, args, steps, echo_result,
}

run_chain-Runs_example :
    let (out, w') = run_chain no_json runner live steps 0 in
    Runs no_json runner live null steps 0 out.steps out.err w'
    × (out.result ≡ final_result out.steps out.err)
run_chain-Runs_example = run_chain-Runs no_json runner live steps 0

run_chain-IsReport_example :
    IsReport no_json runner live steps
      (run_chain no_json runner live steps 0).0.steps
      (run_chain no_json runner live steps 0).0.err
run_chain-IsReport_example = run_chain-IsReport no_json runner live steps 0

abbrev boom : Err
boom =
    tool_error "broken" (some (local_backend "broken")) "execute"
      (wrapped execution (message "boom"))

run_broken : run no_json runner live "broken" args 0 ≡ (err boom, 1)
unfolding run ◌>>=◌ prepare resolve_tool from_index select_backend perform dispatch
run_broken = refl

run-Failure_example : Failure live "broken" boom
run-Failure_example = run-Failure no_json runner live "broken" args 0 1 boom run_broken

abbrev not_found : Err
not_found = tool_error "nothing" none "resolve" (sentinel tool_not_found)

run_missing : run no_json runner live "nothing" args 0 ≡ (err not_found, 0)
unfolding run ◌>>=◌ prepare resolve_tool from_index errors_is sentinel_eq decide from_tool_resolver
    from_backends_resolver
run_missing = refl

get_tool-world : (id : String) (w : ℕ) → (get_tool id w).1 ≡ w
get_tool-world id w = ground arith

lookups : LookupsKeep (λ (w : ℕ). w ≡ 0) runner
lookups = record {
  index = λ idx id e.
      let same : idx ≡ index = cc in
      rw same (record { at = λ w h. get_tool-world id w ∙ h }, record { at = λ w h. h });
  tool_resolver = λ f id e. absurd cc;
  backends_resolver = λ f id e. absurd cc;
  validator = λ tool args. record { at = λ w h. h };
}

run_failed-Keeps_example : (zero ≡ 0) ⊎ Broken "nothing" not_found
run_failed-Keeps_example =
    run_failed-Keeps no_json runner live "nothing" args {P = λ w. w ≡ 0} 0 0 not_found
      (record { at = λ w h. h }) lookups refl run_missing

run_echo : run no_json runner live "echo" args 0 ≡ (ok echo_result, 1)
unfolding run ◌>>=◌ prepare resolve_tool from_index select_backend perform dispatch normalize
run_echo = refl

run-Checked_example : Checked no_json runner live "echo" args 0 1 echo_result
run-Checked_example = run-Checked no_json runner live "echo" args 0 1 echo_result run_echo

resolve_tool-index_miss_example : resolve_tool runner live "nothing" 0 ≡ (
    if errors_is (sentinel index_not_found) index_not_found
    then resolve_tool (without_index runner) live "nothing" 0
    else (err (sentinel index_not_found), 0))
resolve_tool-index_miss_example =
    resolve_tool-index_miss runner live "nothing" index 0 0 0 (sentinel index_not_found) refl refl
      refl

-- A callback that adds up by how much the events report more than the whole, and a runner that
-- finds no tool.
abbrev add_excess : ProgressEvent → ℕ → ℕ
add_excess event w = (event.progress - event.total) + w

abbrev quiet : DefaultRunner ℕ
quiet = record runner { config = record runner.config { index = none } }

quiet-world : (id : String) (fields : Fields) (w : ℕ) → (run no_json quiet live id fields w).1 ≡ w
unfolding run ◌>>=◌ prepare resolve_tool from_index from_tool_resolver from_backends_resolver
quiet-world id fields w = ground arith

add_excess-zero :
    (event : ProgressEvent) (w : ℕ)
    → event.progress ≤ event.total
    → w ≡ 0
    → emit (some add_excess) event w ≡ 0
unfolding emit
add_excess-zero event w le h = omega arith

run_chain_with_progress-Keeps_example :
    (run_chain_with_progress no_json quiet live steps (some add_excess) 0).1 ≡ 0
run_chain_with_progress-Keeps_example =
    run_chain_with_progress-Keeps no_json quiet live {P = λ w. w ≡ 0} steps (some add_excess) 0
      (record { at = λ w h. h }) (λ id fields. record { at = λ w h. quiet-world id fields w ∙ h })
      (λ event w le e h. add_excess-zero event w le h) refl
