-- ===== src/Gateway/Proxy/Calls/Tickets.antt =====
-- The ids and the channels that the calls of the proxy gateway hold.
use toolexec.Base.{
  ℕ, ◌+◌, ◌<◌, ◌==◌, String, ◌≡◌, refl, sym, ◌∙◌, ap, Option, some, arith, inl, inr, Bool-cases,
}
use toolexec.Effects.{ok}
use toolexec.Gateway.Proxy.{Message, update}
use toolexec.Gateway.Proxy.Calls.{Call, sending, finished, ticket}
use toolexec.Gateway.Proxy.Calls.Naming.{id_of, number}

-- Calls that have begun hold different channels, each with its own id.
pub record AreApart (made : ℕ) (held : ℕ → Option (String × ℕ)) : Type 0 where
  pub begun :
      (t : ℕ) (id : String) (ch : ℕ) → held t ≡ some (id, ch) → (ch < made) × (id ≡ id_of ch)
  pub apart :
      (t u : ℕ) (id jd : String) (ch : ℕ) → held t ≡ some (id, ch) → held u ≡ some (jd, ch) → t ≡ u

abbrev pub tickets : (ℕ → Call) → ℕ → Option (String × ℕ)
tickets calls t = ticket (calls t)

-- Those that have ended with a response ended with one under their id.
abbrev pub AreOwn : (ℕ → Call) → Type 0
AreOwn calls =
    (t : ℕ) (id : String) (ch : ℕ) (m : Message) → calls t ≡ finished id ch (ok m) → m.id ≡ id

tickets-update :
    (calls : ℕ → Call) (t : ℕ) (c : Call)
    → ticket c ≡ ticket (calls t)
    → (u : ℕ) → ticket (update calls t c u) ≡ ticket (calls u)
tickets-update calls t c same u = elim (Bool-cases (u == t)) [
  | inl here ↦ rw here (same ∙ ap (λ n. ticket (calls n)) (sym (number here)))
  | inr other ↦ rw other refl
]

-- A call that goes on keeps its id and its channel.
pub go_on :
    (made : ℕ) (calls : ℕ → Call) (t : ℕ) (c : Call)
    → ticket c ≡ ticket (calls t)
    → AreApart made (tickets calls)
    → AreApart made (tickets (update calls t c))
go_on made calls t c same v =
    let old = tickets-update calls t c same in
    record {
      begun = λ u id ch h. v.begun u id ch (sym (old u) ∙ h);
      apart = λ u u' id jd ch h h'. v.apart u u' id jd ch (sym (old u) ∙ h) (sym (old u') ∙ h');
    }

pub AreOwn-update :
    (calls : ℕ → Call) (t : ℕ) (c : Call)
    → ((id : String) (ch : ℕ) (m : Message) → c ≡ finished id ch (ok m) → m.id ≡ id)
    → AreOwn calls
    → AreOwn (update calls t c)
AreOwn-update calls t c h v u id ch m e = elim (Bool-cases (u == t)) [
  | inl here ↦ h id ch m (rw here at e)
  | inr other ↦ v u id ch m (rw other at e)
]

-- A new call holds the next channel.
pub enter :
    (made : ℕ) (calls : ℕ → Call) (t : ℕ) (new : String)
    → new ≡ id_of made
    → AreApart made (tickets calls)
    → AreApart (made + 1) (tickets (update calls t (sending new made)))
unfolding ticket
enter made calls t new own v = record {
  begun = λ u id ch h. ground (arith, v.begun u id ch);
  apart = λ u u' id jd ch h h'.
      ground (arith, v.begun u id ch, v.begun u' jd ch, v.apart u u' id jd ch);
}
