-- ===== src/Gateway/Proxy/Calls.antt =====
-- Calls of the proxy gateway from many goroutines, with the goroutines that deliver responses: any
-- of them may take the next step. A step is one access to what they share, but for two that stand for
-- two accesses: `begin` draws the id and puts the channel under it, and a step that ends a call also
-- takes its id out of the table.
pub mod Naming
pub mod Tickets
pub mod Matching
use toolexec.Base.{ℕ, suc, ◌^◌, ◌<◌, String, true, ◌≡◌, Option, none, some, List, [], ◌∷◌, ◌++◌}
use toolexec.Value.{Fields}
use toolexec.Errors.{Err}
use toolexec.Effects.{Result, err}
use toolexec.Gateway.Proxy.{
  Message, Gateway, update, new_gateway, open_request, forget, response_result, find_pending, offer,
  drain,
}

-- Where a goroutine stands in request: before it, at the send, at the select, or behind it with
-- what it returned. The id and the channel are its own.
pub data Call : Type 0 where
  idle : Call
  sending : String → ℕ → Call
  waiting : String → ℕ → Call
  finished : String → ℕ → Result Message → Call

-- A goroutine in DeliverResponse that has found the channel and not yet offered the message.
abbrev pub Offer : Type 0
Offer = ℕ × Message

pub record System : Type 0 where
  pub gateway : Gateway
  pub calls : ℕ → Call
  pub offers : List Offer

abbrev pub start_system : System
start_system = record { gateway = new_gateway; calls = λ t. idle; offers = [] }

-- the call `t` ends with a result
abbrev pub finish : ℕ → String → ℕ → Result Message → Gateway → System → System
finish t id ch r g s = record s {
  gateway = forget id g;
  calls = update s.calls t (finished id ch r);
}

-- The counter is one of 64 bits: a run makes fewer requests than it can count.
pub data Step : System → System → Type 0 where
  begin :
      (s : System) (t : ℕ)
      → s.calls t ≡ idle
      → suc s.gateway.made < 2 ^ 64
      → Step s (record s {
        gateway = (open_request s.gateway).1;
        calls =
            update s.calls t (sending (open_request s.gateway).0.0 (open_request s.gateway).0.1);
      })
  sent :
      (s : System) (t : ℕ) (id : String) (ch : ℕ)
      → s.calls t ≡ sending id ch
      → Step s (record s { calls = update s.calls t (waiting id ch) })
  send_failed :
      (s : System) (t : ℕ) (id : String) (ch : ℕ) (e : Err)
      → s.calls t ≡ sending id ch
      → Step s (finish t id ch (err e) s.gateway s)
  context_ended :
      (s : System) (t : ℕ) (id : String) (ch : ℕ) (e : Err)
      → s.calls t ≡ waiting id ch
      → Step s (finish t id ch (err e) s.gateway s)
  received :
      (s : System) (t : ℕ) (id : String) (ch : ℕ) (m : Message)
      → s.calls t ≡ waiting id ch
      → s.gateway.buffers ch ≡ some m
      → Step s (finish t id ch (response_result m) (drain ch s.gateway) s)
  found :
      (s : System) (m : Message) (ch : ℕ)
      → find_pending m s.gateway ≡ some ch
      → Step s (record s { offers = (ch, m) ∷ s.offers })
  offered :
      (s : System) (before after : List Offer) (ch : ℕ) (m : Message)
      → s.offers ≡ before ++ ((ch, m) ∷ after)
      → Step s (record s { gateway = (offer ch m s.gateway).1; offers = before ++ after })
  closed : (s : System) → Step s (record s { gateway = record s.gateway { closed = true } })

pub data Reach : System → Type 0 where
  start : Reach start_system
  next : {s t : System} → Reach s → Step s t → Reach t

-- the id and the channel of a call that has begun
unfoldable pub ticket : Call → Option (String × ℕ)
ticket idle = none
ticket (sending id ch) = some (id, ch)
ticket (waiting id ch) = some (id, ch)
ticket (finished id ch r) = some (id, ch)
