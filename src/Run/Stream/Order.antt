-- ===== src/Run/Stream/Order.antt =====
-- What a caller of RunStream receives, and that the goroutine can end and must end.
use toolexec.Base.{
  ℕ, suc, ◌+◌, ◌*◌, ◌≤◌, ◌<◌, String, Bool, ◌≡◌, refl, sym, ap, ◌∙◌, true, false, Option, none,
  some, List, [], ◌∷◌, ◌++◌, map, append_assoc, append-nil, arith, length, is_empty, ◌⊎◌, inl, inr,
  Bool-cases,
}
use toolexec.Run.Types.{StreamEvent}
use toolexec.Value.{Fields}
use toolexec.Effects.{ok, Context, ◌>>=◌}
use toolexec.Run.Config.{DefaultRunner}
use toolexec.Run.Stream.{
  Forwarder, stamp, ForwarderStep, receive, send, finish, cancel, ForwarderSteps, here, then,
  run_stream,
}

abbrev held_list : Option StreamEvent → List StreamEvent
held_list none = []
held_list (some ev) = ev ∷ []

-- What has been sent, what is held and what is still to come, as the caller would see it.
abbrev all_events : Forwarder → List StreamEvent
all_events f = f.sent ++ (held_list f.held ++ map (stamp f.tool_id) f.incoming)

step-all_events : {f g : Forwarder} → ForwarderStep f g → all_events g ≡ all_events f
step-all_events (receive f ev rest running empty more) = rw (empty, more)
step-all_events (send f ev running full) = rw full (append_assoc f.sent (ev ∷ []) _)
step-all_events (finish f running empty last) = refl
step-all_events (cancel f running) = refl

steps-all_events : {f g : Forwarder} → ForwarderSteps f g → all_events g ≡ all_events f
steps-all_events here = refl
steps-all_events (then s st) = step-all_events st ∙ steps-all_events s

-- How much the goroutine has still to do.
abbrev held_count : Option StreamEvent → ℕ
held_count none = 0
held_count (some ev) = 1

abbrev open_count : Bool → ℕ
open_count true = 0
open_count false = 1

pub remaining : Forwarder → ℕ
remaining f = 2 * length f.incoming + held_count f.held + open_count f.closed

step-remaining : {f g : Forwarder} → ForwarderStep f g → remaining g < remaining f
unfolding remaining
step-remaining (receive f ev rest running empty more) =
    ground (arith, ap (λ (l : List StreamEvent). length l) more)
step-remaining (send f ev running full) = ground arith
step-remaining (finish f running empty last) = ground arith
step-remaining (cancel f running) = ground arith

pub count_steps : {f g : Forwarder} → ForwarderSteps f g → ℕ
count_steps here = 0
count_steps (then s st) = suc (count_steps s)

steps-remaining :
    {f g : Forwarder} (s : ForwarderSteps f g) → count_steps s + remaining g ≤ remaining f
unfolding count_steps
steps-remaining here = omega arith
steps-remaining (then s st) = omega (arith, steps-remaining s, step-remaining st)

step-tool_id : {f g : Forwarder} → ForwarderStep f g → g.tool_id ≡ f.tool_id
step-tool_id (receive f ev rest running empty more) = refl
step-tool_id (send f ev running full) = refl
step-tool_id (finish f running empty last) = refl
step-tool_id (cancel f running) = refl

steps-tool_id : {f g : Forwarder} → ForwarderSteps f g → g.tool_id ≡ f.tool_id
steps-tool_id here = refl
steps-tool_id (then s st) = step-tool_id st ∙ steps-tool_id s

deliver :
    (start : Forwarder) (events : List StreamEvent) (f : Forwarder)
    → ForwarderSteps start f
    → f.closed ≡ false
    → f.held ≡ none
    → f.incoming ≡ events
    → (g : Forwarder) × ForwarderSteps start g
      × (g.closed ≡ true)
      × (g.sent ≡ f.sent ++ map (stamp f.tool_id) events)
deliver start [] f s running empty last = (
  record f { closed = true },
  then s (finish f running empty last),
  refl,
  sym (append-nil f.sent),
)
deliver start (ev ∷ rest) f s running empty more =
    let f₁ = record f { incoming = rest; held = some (stamp f.tool_id ev) } in
    let f₂ = record f₁ { held = none; sent = f.sent ++ stamp f.tool_id ev ∷ [] } in
    let (g, s', done, all) =
      deliver start rest f₂
        (then (then s (receive f ev rest running empty more))
          (send f₁ (stamp f.tool_id ev) running refl))
        running refl refl in
    (g, s', done, all ∙ append_assoc f.sent (stamp f.tool_id ev ∷ []) _)

deliver_all :
    (f : Forwarder) (held : Option StreamEvent)
    → f.closed ≡ false
    → f.held ≡ held
    → (g : Forwarder) × ForwarderSteps f g × (g.closed ≡ true) × (g.sent ≡ all_events f)
deliver_all f none running empty = simp empty (deliver f f.incoming f here running empty refl)
deliver_all f (some ev) running full =
    let f₁ = record f { held = none; sent = f.sent ++ ev ∷ [] } in
    let (g, s, done, all) =
      deliver f f.incoming f₁ (then here (send f ev running full)) running refl refl in
    (g, s, done, all ∙ (rw full (append_assoc f.sent (ev ∷ []) _)))

-- a step that the end of the context makes
abbrev pub by_context : {f g : Forwarder} → ForwarderStep f g → Bool
by_context (receive f ev rest running empty more) = false
by_context (send f ev running full) = false
by_context (finish f running empty last) = false
by_context (cancel f running) = true

-- There is a next step that needs no end of the context, and one by which the goroutine returns
-- when the context has ended, with nothing more sent.
abbrev pub CanStep : Forwarder → Type 0
CanStep f =
    ((h : Forwarder) × (s : ForwarderStep f h) × (by_context s ≡ false))
    × ((h : Forwarder) × (s : ForwarderStep f h) × (by_context s ≡ true)
        × (h.closed ≡ true)
        × (h.sent ≡ f.sent))

-- the next step where the context does not end
own_step :
    (f : Forwarder) (held : Option StreamEvent) (incoming : List StreamEvent)
    → f.closed ≡ false
    → f.held ≡ held
    → f.incoming ≡ incoming
    → (h : Forwarder) × (s : ForwarderStep f h) × (by_context s ≡ false)
own_step f (some ev) events running full more = (_, send f ev running full, refl)
own_step f none [] running empty last = (_, finish f running empty last, refl)
own_step f none (ev ∷ rest) running empty more = (_, receive f ev rest running empty more, refl)

closed-CanStep : (f : Forwarder) → (f.closed ≡ true) ⊎ CanStep f
closed-CanStep f = elim (Bool-cases f.closed) [
  | inl done ↦ inl done
  | inr running ↦
      inr (own_step f f.held f.incoming running refl refl, (_, cancel f running, refl, refl, refl))
]

IsNamed : StreamEvent → Type 0
IsNamed ev = is_empty ev.tool_id ≡ false

module _ {W : Type 0} (r : DefaultRunner W) (ctx : Context W) (id : String) (args : Fields)
    (w w' : W) (f g : Forwarder) (started : run_stream r ctx id args w ≡ (ok f, w'))
    (steps : ForwarderSteps f g) where
  start_state : (f.tool_id ≡ id) × (f.held ≡ none) × (f.sent ≡ []) × (f.closed ≡ false)
  unfolding run_stream ◌>>=◌
  start_state = (ground arith, ground arith, ground arith, ground arith)

  start_events : all_events f ≡ map (stamp id) f.incoming
  start_events = let (named, empty, none_yet, _) = start_state in rw (named, empty, none_yet)

  -- At any moment of the goroutine's life no event is lost, doubled or out of order: what the
  -- caller has received, the event that the goroutine holds and the events to come, stamped with
  -- the tool's id where they have none, are together the executor's events so stamped.
  pub run_stream-order :
      g.sent ++ (held_list g.held ++ map (stamp id) g.incoming) ≡ map (stamp id) f.incoming
  run_stream-order =
      let e : g.tool_id ≡ id = steps-tool_id steps ∙ start_state.0 in
      let all : all_events g ≡ map (stamp id) f.incoming = steps-all_events steps ∙ start_events in
      rw e at all

  -- The goroutine ends. It takes at most two steps for each event that the executor sends, and one
  -- to return, however often its context is asked; it is never stuck: until it has returned it has a
  -- next step that does not need the context to end, and it can also return at once because the
  -- context has ended, with nothing more sent. The executor's channel carries finitely many events
  -- and is then closed, and the caller receives what is sent.
  pub run_stream-terminates :
      (count_steps steps ≤ 2 * length f.incoming + 1) × ((g.closed ≡ true) ⊎ CanStep g)
  unfolding remaining
  run_stream-terminates =
      let (_, empty, _, running) = start_state in
      (ground (arith, steps-remaining steps), closed-CanStep g)

  -- While it has not returned, it can still deliver everything and close its channel.
  pub run_stream_can_finish :
      g.closed ≡ false
      → (h : Forwarder) × ForwarderSteps g h
        × (h.closed ≡ true)
        × (h.sent ≡ map (stamp id) f.incoming)
  run_stream_can_finish running =
      let (h, s, done, all) = deliver_all g g.held running refl in
      (h, s, done, all ∙ steps-all_events steps ∙ start_events)
