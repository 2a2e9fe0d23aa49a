-- ===== src/Gateway/Direct/Concurrency.antt =====
-- Calls of the direct gateway from many goroutines: any number of them stand between the sections
-- that run under the mutex, and any of them may go on next.
use toolexec.Base.{
  ℕ, ◌+◌, ◌-◌, ◌≤◌, ℤ, over, ◌≡◌, refl, ◌∙◌, false, some, List, [], ◌∷◌, ◌++◌, arith, ap, length,
  take, length-append,
}
use toolexec.Run.Types.{ChainStep, ChainOutcome}
use toolexec.Runtime.Types.{ToolCallRecord}
use toolexec.Gateway.Direct.{
  State, fresh, reset, reserve, release, add_records, executed_steps, chain_records,
}
use toolexec.Gateway.Direct.Accounting.{executed_steps-le, executed_records, reserve-some, over-le}

-- Where a call stands: RunTool waits for its runner, RunChain for its runner, or RunChain is about
-- to record its executed steps.
pub data Task : Type 0 where
  tool : Task
  chain : List ChainStep → Task
  recording : List ToolCallRecord → Task

pub record System : Type 0 where
  pub state : State
  pub tasks : List Task

-- `Step max`: one section under the mutex, of a new call or of one of the tasks.
pub data Step (max : ℤ) : System → System → Type 0 where
  begin_tool :
      (s : System) (g : State)
      → reserve max 1 s.state ≡ some g
      → Step max s (record { state = g; tasks = tool ∷ s.tasks })
  end_tool :
      (s : System) (before after : List Task) (r : ToolCallRecord)
      → s.tasks ≡ before ++ (tool ∷ after)
      → Step max s (record { state = add_records (r ∷ []) s.state; tasks = before ++ after })
  begin_chain :
      (s : System) (steps : List ChainStep) (g : State)
      → reserve max (length steps) s.state ≡ some g
      → Step max s (record { state = g; tasks = chain steps ∷ s.tasks })
  end_chain :
      (s : System) (before after : List Task) (steps : List ChainStep) (out : ChainOutcome) (d : ℕ)
      → s.tasks ≡ before ++ (chain steps ∷ after)
      → Step max s (record {
        state = release (length steps - executed_steps (length steps) out) s.state;
        tasks =
            before
            ++ (recording
                  (chain_records d (take (executed_steps (length steps) out) steps) out.steps)
                ∷ after);
      })
  record_chain :
      (s : System) (before after : List Task) (rs : List ToolCallRecord)
      → s.tasks ≡ before ++ (recording rs ∷ after)
      → Step max s (record { state = add_records rs s.state; tasks = before ++ after })

-- The calls that a task has counted and not recorded.
unfoldable pub weight : Task → ℕ
weight tool = 1
weight (chain steps) = length steps
weight (recording rs) = length rs

unfoldable pub pending : List Task → ℕ
unfolding weight
pending [] = 0
pending (t ∷ ts) = weight t + pending ts

-- `Reach max n s`: the calls in flight were `n` when Reset was called last, and none at the start.
pub data Reach (max : ℤ) : ℕ → System → Type 0 where
  start : Reach max 0 (record { state = fresh; tasks = [] })
  next : {n : ℕ} {s t : System} → Reach max n s → Step max s t → Reach max n t
  reset_all :
      {n : ℕ} {s : System}
      → Reach max n s
      → Reach max (pending s.tasks) (record s { state = reset s.state })

pending-append : (ts us : List Task) → pending (ts ++ us) ≡ pending ts + pending us
unfolding pending
pending-append [] us = omega arith
pending-append (t ∷ ts) us = omega (arith, pending-append ts us)

-- How a task's weight shows in the sum.
pending-at :
    (tasks before after : List Task) (t : Task)
    → tasks ≡ before ++ (t ∷ after)
    → pending tasks ≡ pending before + (weight t + pending after)
unfolding pending
pending-at tasks before after t e = ap pending e ∙ pending-append before (t ∷ after)

-- The counter is within the limit, and it is the number of recorded calls and of those in flight,
-- but for `n` of them.
pub record IsConsistent (max : ℤ) (n : ℕ) (s : System) : Type 0 where
  pub limited : over max s.state.call_count ≡ false
  pub counted : s.state.call_count ≤ length s.state.tool_calls + pending s.tasks
  pub uncounted : length s.state.tool_calls + pending s.tasks ≤ s.state.call_count + n

abbrev record_count : State → ℕ
record_count g = length g.tool_calls

-- a new task, for calls that fit
begin :
    (max : ℤ) (n : ℕ) (s : System) (t : Task) (g : State)
    → reserve max (weight t) s.state ≡ some g
    → IsConsistent max n s
    → IsConsistent max n (record { state = g; tasks = t ∷ s.tasks })
unfolding pending
begin max n s t g h c =
    let (count, calls, fits) = reserve-some max (weight t) s.state g h in
    record {
      limited = rw count fits;
      counted = omega (arith, ap (λ (l : List ToolCallRecord). length l) calls, c.counted);
      uncounted = omega (arith, ap (λ (l : List ToolCallRecord). length l) calls, c.uncounted);
    }

-- a task ends by recording its calls
record_all :
    (max : ℤ) (n : ℕ) (s : System) (before after : List Task) (t : Task) (rs : List ToolCallRecord)
    → s.tasks ≡ before ++ (t ∷ after)
    → weight t ≡ length rs
    → IsConsistent max n s
    → IsConsistent max n (record { state = add_records rs s.state; tasks = before ++ after })
unfolding add_records
record_all max n s before after t rs h w c = record {
  counted = omega (
    arith,
    pending-at s.tasks before after t h,
    pending-append before after,
    length-append s.state.tool_calls rs,
    c.counted,
    w,
  );
  uncounted = omega (
    arith,
    pending-at s.tasks before after t h,
    pending-append before after,
    length-append s.state.tool_calls rs,
    c.uncounted,
    w,
  );
  limited = c.limited;
}

-- a chain gives back the calls that it did not make
give_back :
    (max : ℤ) (n : ℕ) (s : System) (before after : List Task) (t u : Task) (k : ℕ)
    → s.tasks ≡ before ++ (t ∷ after)
    → weight t ≡ weight u + k
    → IsConsistent max n s
    → IsConsistent max n (record { state = release k s.state; tasks = before ++ (u ∷ after) })
unfolding release
give_back max n s before after t u k h w c = record {
  counted = omega (
    arith,
    pending-at s.tasks before after t h,
    pending-at (before ++ (u ∷ after)) before after u refl,
    c.counted,
    w,
  );
  uncounted = omega (
    arith,
    pending-at s.tasks before after t h,
    pending-at (before ++ (u ∷ after)) before after u refl,
    c.uncounted,
    w,
  );
  limited = over-le max (s.state.call_count - k) s.state.call_count (omega arith) c.limited;
}

Step-IsConsistent :
    {max : ℤ} {n : ℕ} {s t : System} → Step max s t → IsConsistent max n s → IsConsistent max n t
unfolding weight
Step-IsConsistent {max} {n} (begin_tool s g h) c = begin max n s tool g h c
Step-IsConsistent {max} {n} (end_tool s before after r h) c =
    record_all max n s before after tool (r ∷ []) h refl c
Step-IsConsistent {max} {n} (begin_chain s steps g h) c = begin max n s (chain steps) g h c
Step-IsConsistent {max} {n} (end_chain s before after steps out d h) c =
    give_back max n s before after (chain steps) _ _ h
      (omega (arith, executed_records d steps out, executed_steps-le (length steps) out)) c
Step-IsConsistent {max} {n} (record_chain s before after rs h) c =
    record_all max n s before after (recording rs) rs h refl c

-- However the calls of RunTool and RunChain of any number of goroutines and those of Reset
-- interleave, the counter is within the limit, and it is the number of calls that are recorded or
-- in flight, but for at most as many as were in flight when Reset was called last. So those calls
-- can pass the limit, by no more than that number; without a Reset, or with nothing in flight at the
-- last one, the counter is exact and they cannot.
pub Reach-IsConsistent : {max : ℤ} {n : ℕ} {s : System} → Reach max n s → IsConsistent max n s
unfolding pending reset
Reach-IsConsistent {max} start = record {
  limited = ground arith;
  counted = omega arith;
  uncounted = omega arith;
}
Reach-IsConsistent (next r st) = Step-IsConsistent st (Reach-IsConsistent r)
Reach-IsConsistent {max} (reset_all r) = record {
  limited = ground arith;
  counted = omega arith;
  uncounted = omega arith;
}
