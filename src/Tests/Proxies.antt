-- ===== src/Tests/Proxies.antt =====
-- The theorems on the proxy gateway.
use toolexec.Base.{ℕ, String, ◌≡◌, refl, ◌≢◌, [], ◌∷◌, arith}
use toolexec.Base.Decimal.{decimal}
use toolexec.Base.Dict.{lookup, insert, delete}
use toolexec.Value.{end}
use toolexec.Gateway.Proxy.{
  Message, new_gateway, update, open_request, forget, find_pending, offer, drain, response_result,
}
use toolexec.Gateway.Proxy.Calls.{
  System, start_system, finish, waiting, sending, Reach, start, next, begin, sent, found, offered,
  received, ticket,
}
use toolexec.Gateway.Proxy.Calls.Matching.{answered_own}

-- the answer to the first request
abbrev answer : Message
answer = record { kind = "response"; id = "1"; payload = end }

-- Two calls begin, the first is sent and answered, and takes its answer.
abbrev begun : ℕ → System → System
begun t s = record s {
  gateway = (open_request s.gateway).1;
  calls = update s.calls t (sending (open_request s.gateway).0.0 (open_request s.gateway).0.1);
}

abbrev both : System
both = begun 1 (begun 0 start_system)

abbrev first_sent : System
first_sent = record both { calls = update both.calls 0 (waiting "1" 0) }

abbrev first_found : System
first_found = record first_sent { offers = (0, answer) ∷ [] }

abbrev first_offered : System
first_offered = record first_found { gateway = (offer 0 answer first_found.gateway).1; offers = [] }

abbrev first_answered : System
first_answered =
    finish 0 "1" 0 (response_result answer) (drain 0 first_offered.gateway) first_offered

answered : Reach first_answered
unfolding open_request offer find_pending lookup insert delete decimal new_gateway
answered =
    next
      (next
        (next
          (next
            (next (next start (begin start_system 0 refl (omega arith)))
              (begin (begun 0 start_system) 1 refl (omega arith)))
            (sent both 0 "1" 0 refl))
          (found first_sent answer 0 refl))
        (offered first_found [] [] 0 answer refl))
      (received first_offered 0 "1" 0 answer refl refl)

answered_own_example :
    ◌≡◌ {A = String} answer.id "1" × (◌≢◌ {A = String} "2" "1") × (◌≢◌ {A = ℕ} 1 0)
unfolding open_request decimal response_result offer drain forget ticket new_gateway
answered_own_example =
    answered_own 0 1 "1" "2" 0 1 answer answered refl (λ h. absurd (omega arith)) refl
