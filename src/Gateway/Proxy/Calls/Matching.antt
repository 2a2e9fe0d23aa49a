-- ===== src/Gateway/Proxy/Calls/Matching.antt =====
-- Which response reaches which call of the proxy gateway, however the goroutines interleave.
use toolexec.Base.{
  ℕ, suc, ◌^◌, ◌<◌, String, ◌≡◌, ◌≢◌, refl, sym, ◌∙◌, ap, some, List, [], ◌∷◌, ◌++◌, arith, All,
}
use toolexec.Base.Decimal.{decimal_injective}
use toolexec.Effects.{Result, ok, err}
use toolexec.Gateway.Proxy.{
  Message, Gateway, update, new_gateway, open_request, forget, response_result, find_pending, offer,
  drain,
}
use toolexec.Gateway.Proxy.Calls.{
  Call, sending, waiting, finished, Offer, System, finish, Step, begin, sent, send_failed,
  context_ended, received, found, offered, closed, Reach, start, next, ticket,
}
use toolexec.Gateway.Proxy.Calls.Naming.{
  id_of, IsNamed, new_gateway-IsNamed, opened, open_request-IsNamed, forget-IsNamed, drain-IsNamed,
  offer-IsNamed,
}
use toolexec.Gateway.Proxy.Calls.Tickets.{AreApart, tickets, AreOwn, go_on, AreOwn-update, enter}

record IsMatched (s : System) : Type 0 where
  named : IsNamed s.gateway
  offers : All (λ (o : Offer). o.1.id ≡ id_of o.0) s.offers
  held : AreApart s.gateway.made (tickets s.calls)
  own : AreOwn s.calls

response_result-same : (m r : Message) → response_result m ≡ ok r → m ≡ r
unfolding response_result
response_result-same m r h = ground arith

-- the call `t`, which holds `ch` under `id`, ends with `r`
finish-IsMatched :
    (s : System) (t : ℕ) (id : String) (ch : ℕ) (r : Result Message) (g : Gateway)
    → ticket (s.calls t) ≡ some (id, ch)
    → IsNamed g
    → g.made ≡ s.gateway.made
    → ((m : Message) → r ≡ ok m → m.id ≡ id)
    → IsMatched s
    → IsMatched (finish t id ch r g s)
unfolding ticket forget
finish-IsMatched s t id ch r g held named same answer v = record {
  named = forget-IsNamed id g named;
  offers = v.offers;
  held = rw same (go_on s.gateway.made s.calls t (finished id ch r) (sym held) v.held);
  own = AreOwn-update s.calls t (finished id ch r) (λ jd ck m e. answer m (cc) ∙ cc) v.own;
}

abbrev IsOffer : Offer → Type 0
IsOffer o = o.1.id ≡ id_of o.0

take_out :
    (before after : List Offer) (o : Offer)
    → All IsOffer (before ++ (o ∷ after))
    → IsOffer o × All IsOffer (before ++ after)
take_out [] after o h = h
take_out (b ∷ before) after o (p, h) = let (q, rest) = take_out before after o h in (q, (p, rest))

offer-made : (ch : ℕ) (m : Message) (g : Gateway) → (offer ch m g).1.made ≡ g.made
unfolding offer
offer-made ch m g = ground arith

-- a step of a call that neither begins nor ends it
move :
    (s : System) (t : ℕ) (c : Call)
    → ticket c ≡ ticket (s.calls t)
    → ((id : String) (ch : ℕ) (m : Message) → c ≡ finished id ch (ok m) → m.id ≡ id)
    → IsMatched s
    → IsMatched (record s { calls = update s.calls t c })
move s t c same h v = record {
  named = v.named;
  offers = v.offers;
  held = go_on s.gateway.made s.calls t c same v.held;
  own = AreOwn-update s.calls t c h v.own;
}

begin-IsMatched :
    (s : System) (t : ℕ)
    → suc s.gateway.made < 2 ^ 64
    → IsMatched s
    → IsMatched (record s {
      gateway = (open_request s.gateway).1;
      calls = update s.calls t (sending (open_request s.gateway).0.0 (open_request s.gateway).0.1);
    })
unfolding open_request
begin-IsMatched s t h v = record {
  named = open_request-IsNamed s.gateway v.named h;
  offers = v.offers;
  held = enter s.gateway.made s.calls t _ (ap (λ p. p.0) (opened s.gateway v.named h)) v.held;
  own = AreOwn-update s.calls t (sending _ _) (λ id ch m e. cc) v.own;
}

-- the message that a call takes out of its channel carries the id of the call
received_own :
    (s : System) (t : ℕ) (id : String) (ch : ℕ) (m r : Message)
    → ticket (s.calls t) ≡ some (id, ch)
    → s.gateway.buffers ch ≡ some m
    → IsMatched s
    → response_result m ≡ ok r
    → r.id ≡ id
received_own s t id ch m r held full v h =
    let same = response_result-same m r h in
    rw (← same) (v.named.buffers ch m full ∙ sym (v.held.begun t id ch held).1)

offered-IsMatched :
    (s : System) (before after : List Offer) (ch : ℕ) (m : Message)
    → s.offers ≡ before ++ ((ch, m) ∷ after)
    → IsMatched s
    → IsMatched (record s { gateway = (offer ch m s.gateway).1; offers = before ++ after })
offered-IsMatched s before after ch m e v =
    let (mine, others) = take_out before after (ch, m) (rw (← e) v.offers) in
    record {
      named = offer-IsNamed ch m s.gateway mine v.named;
      offers = others;
      held = rw (offer-made ch m s.gateway) v.held;
      own = v.own;
    }

Step-IsMatched : {s t : System} → Step s t → IsMatched s → IsMatched t
unfolding ticket drain find_pending
Step-IsMatched (begin s t free h) v = begin-IsMatched s t h v
Step-IsMatched (sent s t id ch e) v =
    move s t (waiting id ch) (sym (ap ticket e)) (λ jd ck m h. cc) v
Step-IsMatched (send_failed s t id ch e h) v =
    finish-IsMatched s t id ch (err e) s.gateway (ap ticket h) v.named refl (λ m h'. cc) v
Step-IsMatched (context_ended s t id ch e h) v =
    finish-IsMatched s t id ch (err e) s.gateway (ap ticket h) v.named refl (λ m h'. cc) v
Step-IsMatched (received s t id ch m h full) v =
    finish-IsMatched s t id ch (response_result m) (drain ch s.gateway) (ap ticket h)
      (drain-IsNamed ch s.gateway v.named) refl
      (λ r. received_own s t id ch m r (ap ticket h) full v) v
Step-IsMatched (found s m ch h) v = record {
  named = v.named;
  offers = (v.named.pending m.id ch h, v.offers);
  held = v.held;
  own = v.own;
}
Step-IsMatched (offered s before after ch m h) v = offered-IsMatched s before after ch m h v
Step-IsMatched (closed s) v = record {
  named = record {
    counted = v.named.counted;
    small = v.named.small;
    pending = v.named.pending;
    buffers = v.named.buffers;
  };
  offers = v.offers;
  held = v.held;
  own = v.own;
}

Reach-IsMatched : {s : System} → Reach s → IsMatched s
unfolding ticket new_gateway
Reach-IsMatched start = record {
  named = new_gateway-IsNamed;
  offers = tt;
  held = record { begun = λ t id ch h. cc; apart = λ t u id jd ch h h'. cc };
  own = λ t id ch m h. cc;
}
Reach-IsMatched (next r st) = Step-IsMatched st (Reach-IsMatched r)

-- However the calls of a proxy gateway, the deliveries and Close interleave, as long as the counter
-- of 64 bits does not wrap: a call that ended with a response ended with one that carries its own
-- id, and any other call, under way or ended, has another id and another channel.
pub answered_own :
    {s : System} (t u : ℕ) (id jd : String) (ch ck : ℕ) (m : Message)
    → Reach s
    → s.calls t ≡ finished id ch (ok m)
    → t ≢ u
    → ticket (s.calls u) ≡ some (jd, ck)
    → (m.id ≡ id) × (jd ≢ id) × (ck ≢ ch)
unfolding ticket
answered_own {s} t u id jd ch ck m r e different other =
    let v = Reach-IsMatched r in
    let mine = v.held.begun t id ch (ap ticket e) in
    let theirs = v.held.begun u jd ck other in
    let channels =
      λ (same : ck ≡ ch). different (v.held.apart t u id jd ch (ap ticket e) (rw same at other)) in
    (
      v.own t id ch m e,
      λ same. channels (ground (arith, decimal_injective (suc ck) (suc ch))),
      channels,
    )
