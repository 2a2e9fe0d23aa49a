-- ===== src/Code/Limits.antt =====
-- The limit on the tool calls of a snippet, whose engine calls the tools one at a time.
use toolexec.Base.{
  ℕ, suc, ◌+◌, ℤ, is_negative, over, String, ◌≡◌, refl, inl, inr, ap, false, List, [], ◌∷◌, arith,
  length, take, length-append, length-take, Bool-cases, not, ◌&&◌, ◌||◌,
}
use toolexec.Value.{Value, null, Fields}
use toolexec.Effects.{Context}
use toolexec.Run.Types.{ChainStep, StepResult, ChainOutcome}
use toolexec.Gateway.Direct.{executed_steps}
use toolexec.Gateway.Direct.Accounting.{executed_steps-le, over-le}
use toolexec.Code.Tools.{
  ToolsConfig, ToolsState, new_tools, println, record_steps, settle_chain, run_tool, run_chain,
}
use toolexec.Code.Executor.{
  ExecuteParams, Script, finish, effect, prints, searches, lists, describes, exemplifies, calls,
  chains, Config, resolve_max_calls, play, execute_code, tools_of,
}

-- Each counted call has a record, and the count is within the limit.
pub record IsWithin (max : ℤ) (t : ToolsState) : Type 0 where
  pub recorded : t.call_count ≡ length t.tool_calls
  pub limited : over max t.call_count ≡ false

length-record_steps :
    (copy_opaque : Value → Value) (d : ℕ) (previous : Value) (steps : List ChainStep)
    (results : List StepResult)
    → length (record_steps copy_opaque d previous steps results) ≡ length steps
unfolding record_steps
length-record_steps copy_opaque d previous [] results = refl
length-record_steps copy_opaque d previous (step ∷ steps) [] =
    ap suc (length-record_steps copy_opaque d previous steps [])
length-record_steps copy_opaque d previous (step ∷ steps) (sr ∷ results) =
    ap suc (length-record_steps copy_opaque d _ steps results)

settle_chain-IsWithin :
    (copy_opaque : Value → Value) (max : ℤ) (steps : List ChainStep) (out : ChainOutcome) (d : ℕ)
    (t : ToolsState)
    → over max (t.call_count + length steps) ≡ false
    → IsWithin max t
    → IsWithin max (settle_chain copy_opaque steps out d t)
unfolding settle_chain
settle_chain-IsWithin copy_opaque max steps out d t fits v =
    let n = executed_steps (length steps) out in
    record {
      recorded = omega (
        arith,
        length-append t.tool_calls (record_steps copy_opaque _ null (take n steps) out.steps),
        length-record_steps copy_opaque _ null (take n steps) out.steps,
        length-take n steps,
        executed_steps-le (length steps) out,
        v.recorded,
      );
      limited =
          over-le max (t.call_count + n) (t.call_count + length steps)
            (omega (arith, executed_steps-le (length steps) out)) fits;
    }

module _ {W : Type 0} (copy_opaque : Value → Value) (now : W → ℕ) (cfg : ToolsConfig W) where
  run_tool-IsWithin :
      (ctx : Context W) (id : String) (args : Fields) (t : ToolsState) (w : W)
      → IsWithin cfg.max_tool_calls t
      → IsWithin cfg.max_tool_calls (run_tool copy_opaque now cfg ctx id args t w).1
  unfolding run_tool
  run_tool-IsWithin ctx id args t w v =
      elim (Bool-cases (over cfg.max_tool_calls (t.call_count + 1))) [
        | inl full ↦ rw full v
        | inr fits ↦ rw fits (record {
          recorded = omega (arith, length-append t.tool_calls (_ ∷ []), v.recorded);
          limited = fits;
        })
      ]

  run_chain-IsWithin :
      (ctx : Context W) (steps : List ChainStep) (t : ToolsState) (w : W)
      → IsWithin cfg.max_tool_calls t
      → IsWithin cfg.max_tool_calls (run_chain copy_opaque now cfg ctx steps t w).1
  unfolding run_chain
  run_chain-IsWithin ctx steps t w v = elim (Bool-cases (over cfg.max_chain_steps (length steps))) [
    | inl long ↦ rw long v
    | inr short ↦ elim (Bool-cases (over cfg.max_tool_calls (t.call_count + length steps))) [
      | inl full ↦ rw (short, full) v
      | inr fits ↦
          rw (short, fits) (settle_chain-IsWithin copy_opaque cfg.max_tool_calls steps _ _ t fits v)
    ]
  ]

  -- an engine sees the tools through their interface alone
  play-IsWithin :
      (with_timeout : ℤ → Context W → Context W) (script : Script W) (t : ToolsState) (w : W)
      → IsWithin cfg.max_tool_calls t
      → IsWithin cfg.max_tool_calls (play copy_opaque now with_timeout cfg script t w).1
  unfolding play println
  play-IsWithin with_timeout (finish result e) t w v = v
  play-IsWithin with_timeout (effect f k) t w v = play-IsWithin with_timeout (k _) t _ v
  play-IsWithin with_timeout (prints text k) t w v =
      play-IsWithin with_timeout k (println text t) w
        (record { recorded = v.recorded; limited = v.limited })
  play-IsWithin with_timeout (searches ctx query limit k) t w v =
      play-IsWithin with_timeout (k _) t _ v
  play-IsWithin with_timeout (lists ctx k) t w v = play-IsWithin with_timeout (k _) t _ v
  play-IsWithin with_timeout (describes ctx id level k) t w v =
      play-IsWithin with_timeout (k _) t _ v
  play-IsWithin with_timeout (exemplifies ctx id limit k) t w v =
      play-IsWithin with_timeout (k _) t _ v
  play-IsWithin with_timeout (calls ctx id args k) t w v =
      play-IsWithin with_timeout (k _) _ _ (run_tool-IsWithin ctx id args t w v)
  play-IsWithin with_timeout (chains ctx steps k) t w v =
      play-IsWithin with_timeout (k _) _ _ (run_chain-IsWithin ctx steps t w v)

-- The limit in force refuses a count exactly if the configuration's or the request's limit refuses
-- it, while the request's limit is not negative. A negative one switches the configuration's off.
pub resolve_max_calls-over :
    (configured requested : ℤ) (n : ℕ)
    → over (resolve_max_calls configured requested) n
      ≡ (not (is_negative requested) && (over configured n || over requested n))
unfolding resolve_max_calls
resolve_max_calls-over configured requested n = ground arith

over_zero : (max : ℤ) → over max 0 ≡ false
over_zero max = ground arith

within-limits :
    (configured requested : ℤ) (t : ToolsState)
    → is_negative requested ≡ false
    → IsWithin (resolve_max_calls configured requested) t
    → (over configured (length t.tool_calls) ≡ false)
      × (over requested (length t.tool_calls) ≡ false)
within-limits configured requested t h v =
    let none_over : over (resolve_max_calls configured requested) (length t.tool_calls) ≡ false =
      rw v.recorded at v.limited in
    let split = resolve_max_calls-over configured requested (length t.tool_calls) in
    (ground arith, ground arith)

-- Whatever a snippet does through its tools, a call at a time, alone and in chains, no more calls are
-- recorded than the configuration allows, and no more than the request allows, where each is a limit
-- (a positive number) and the request's is not negative. An engine that has several calls of the
-- tools in flight at once is not covered: they have no lock.
pub execute_code-limited :
    {W : Type 0} (copy_opaque : Value → Value) (now : W → ℕ)
    (with_timeout : ℤ → Context W → Context W) (cfg : Config W) (ctx : Context W)
    (params : ExecuteParams) (w : W)
    → is_negative params.max_tool_calls ≡ false
    → let (result, _) = (execute_code copy_opaque now with_timeout cfg ctx params w).0 in
      (over cfg.max_tool_calls (length result.tool_calls) ≡ false)
      × (over params.max_tool_calls (length result.tool_calls) ≡ false)
unfolding execute_code
execute_code-limited copy_opaque now with_timeout cfg ctx params w h =
    within-limits cfg.max_tool_calls params.max_tool_calls _ h (
      play-IsWithin copy_opaque now (tools_of copy_opaque now with_timeout cfg params) with_timeout
        _ new_tools w
        (record {
          recorded = refl;
          limited = over_zero (resolve_max_calls cfg.max_tool_calls params.max_tool_calls);
        }))
