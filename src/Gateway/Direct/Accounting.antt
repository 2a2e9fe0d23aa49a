-- ===== src/Gateway/Direct/Accounting.antt =====
-- The counter and the trace of the direct gateway, call by call.
use toolexec.Base.{
  ℕ, ◌+◌, ◌-◌, ◌≤◌, ℤ, over, String, ◌≡◌, refl, ap, inl, inr, false, Option, none, some, List, [],
  ◌∷◌, arith, length, take, length-append, length-take, Bool-cases,
}
use toolexec.Value.{Fields}
use toolexec.Errors.{Err}
use toolexec.Effects.{Context}
use toolexec.Run.Types.{ChainStep, StepResult, ChainOutcome}
use toolexec.Runtime.Types.{ToolCallRecord}
use toolexec.Gateway.Direct.{
  Config, State, reserve, release, add_records, executed_steps, chain_records, call_tool,
  tool_unless_ended, run_tool, refuse, settle_chain, call_chain, chain_unless_ended, run_chain,
}

-- Never more executed steps than the chain has.
pub executed_steps-le : (n : ℕ) (out : ChainOutcome) → executed_steps n out ≤ n
unfolding executed_steps
executed_steps-le n out = ground arith

pub length-chain_records :
    (d : ℕ) (steps : List ChainStep) (results : List StepResult)
    → length (chain_records d steps results) ≡ length steps
unfolding chain_records
length-chain_records d [] results = refl
length-chain_records d (step ∷ steps) [] = omega (arith, length-chain_records d steps [])
length-chain_records d (step ∷ steps) (s ∷ results) =
    omega (arith, length-chain_records d steps results)

pub executed_records :
    (d : ℕ) (steps : List ChainStep) (out : ChainOutcome)
    → length (chain_records d (take (executed_steps (length steps) out) steps) out.steps)
      ≡ executed_steps (length steps) out
executed_records d steps out =
    let n = executed_steps (length steps) out in
    omega (
      arith,
      length-chain_records d (take n steps) out.steps,
      length-take n steps,
      executed_steps-le (length steps) out,
    )

-- Each counted call has been recorded, and the count is within the limit.
pub record IsAccounted (max : ℤ) (g : State) : Type 0 where
  pub recorded : g.call_count ≡ length g.tool_calls
  pub limited : over max g.call_count ≡ false

pub over-le : (max : ℤ) (m n : ℕ) → m ≤ n → over max n ≡ false → over max m ≡ false
over-le max m n h e = ground arith

pub reserve-some :
    (max : ℤ) (n : ℕ) (g g' : State)
    → reserve max n g ≡ some g'
    → (g'.call_count ≡ g.call_count + n)
      × (g'.tool_calls ≡ g.tool_calls)
      × (over max (g.call_count + n) ≡ false)
unfolding reserve
reserve-some max n g g' h = ground arith

add_records-IsAccounted :
    (max : ℤ) (n : ℕ) (g g' : State) (records : List ToolCallRecord)
    → reserve max n g ≡ some g'
    → IsAccounted max g
    → (k : ℕ) → length records ≡ k
    → k ≤ n
    → IsAccounted max (add_records records (release (n - k) g'))
unfolding add_records release
add_records-IsAccounted max n g g' records h v k e le =
    let (count, calls, fits) = reserve-some max n g g' h in
    record {
      recorded = omega (
        arith,
        ap (λ (l : List ToolCallRecord). length l) calls,
        length-append g'.tool_calls records,
        v.recorded,
      );
      limited = over-le max (g'.call_count - (n - k)) (g.call_count + n) (omega arith) fits;
    }

add_record-IsAccounted :
    (max : ℤ) (g g' : State) (r : ToolCallRecord)
    → reserve max 1 g ≡ some g'
    → IsAccounted max g
    → IsAccounted max (add_records (r ∷ []) g')
unfolding add_records
add_record-IsAccounted max g g' r h v =
    let (count, calls, fits) = reserve-some max 1 g g' h in
    record {
      recorded = omega (
        arith,
        ap (λ (l : List ToolCallRecord). length l) calls,
        length-append g'.tool_calls (r ∷ []),
        v.recorded,
      );
      limited = rw count fits;
    }

settle_chain-IsAccounted :
    (max : ℤ) (steps : List ChainStep) (out : ChainOutcome) (d : ℕ) (g g' : State)
    → reserve max (length steps) g ≡ some g'
    → IsAccounted max g
    → IsAccounted max (settle_chain steps out d g')
unfolding settle_chain
settle_chain-IsAccounted max steps out d g g' h v =
    add_records-IsAccounted max (length steps) g g' _ h v (executed_steps (length steps) out)
      (executed_records _ steps out) (executed_steps-le (length steps) out)

module _ {W : Type 0} (cfg : Config W) (ctx : Context W) (now : W → ℕ) where
  call_tool-IsAccounted :
      (id : String) (args : Fields) (o : Option State) (g : State) (w : W)
      → reserve cfg.max_tool_calls 1 g ≡ o
      → IsAccounted cfg.max_tool_calls g
      → IsAccounted cfg.max_tool_calls (call_tool cfg ctx now id args o g w).1
  unfolding call_tool
  call_tool-IsAccounted id args none g w e v = v
  call_tool-IsAccounted id args (some g') g w e v =
      add_record-IsAccounted cfg.max_tool_calls g g' _ e v

  tool_unless_ended-IsAccounted :
      (id : String) (args : Fields) (e : Option Err) (g : State) (w : W)
      → IsAccounted cfg.max_tool_calls g
      → IsAccounted cfg.max_tool_calls (tool_unless_ended cfg ctx now id args e g w).1
  unfolding tool_unless_ended
  tool_unless_ended-IsAccounted id args (some x) g w v = v
  tool_unless_ended-IsAccounted id args none g w v = call_tool-IsAccounted id args _ g w refl v

  call_chain-IsAccounted :
      (steps : List ChainStep) (o : Option State) (g : State) (w : W)
      → reserve cfg.max_tool_calls (length steps) g ≡ o
      → IsAccounted cfg.max_tool_calls g
      → IsAccounted cfg.max_tool_calls (call_chain cfg ctx now steps o g w).1
  unfolding call_chain
  call_chain-IsAccounted steps none g w e v = v
  call_chain-IsAccounted steps (some g') g w e v =
      settle_chain-IsAccounted cfg.max_tool_calls steps _ _ g g' e v

  chain_unless_ended-IsAccounted :
      (steps : List ChainStep) (e : Option Err) (g : State) (w : W)
      → IsAccounted cfg.max_tool_calls g
      → IsAccounted cfg.max_tool_calls (chain_unless_ended cfg ctx now steps e g w).1
  unfolding chain_unless_ended refuse
  chain_unless_ended-IsAccounted steps (some x) g w v = v
  chain_unless_ended-IsAccounted [] none g w v = v
  chain_unless_ended-IsAccounted (step ∷ rest) none g w v =
      elim (Bool-cases (over cfg.max_chain_steps (length (step ∷ rest)))) [
        | inl long ↦ rw long v
        | inr short ↦ rw short (call_chain-IsAccounted (step ∷ rest) _ g w refl v)
      ]

  -- Whatever the runner does, a call of RunTool or of RunChain leaves the counter equal to the
  -- number of recorded calls and within the limit, if it was so before.
  pub calls-IsAccounted :
      (id : String) (args : Fields) (steps : List ChainStep) (g : State) (w : W)
      → IsAccounted cfg.max_tool_calls g
      → IsAccounted cfg.max_tool_calls (run_tool cfg ctx now id args g w).1
        × IsAccounted cfg.max_tool_calls (run_chain cfg ctx now steps g w).1
  unfolding run_tool run_chain
  calls-IsAccounted id args steps g w v = (
    tool_unless_ended-IsAccounted id args (ctx w).0 g _ v,
    chain_unless_ended-IsAccounted steps (ctx w).0 g _ v,
  )
