-- ===== src/Gateway/Proxy.antt =====
-- runtime/gateway/proxy/proxy.go and protocol.go: the gateway that sends its calls over a connection.
-- A channel is a number; a channel that `request` makes holds one message at most. The connection,
-- and what the rest of the process does while a call waits, are parameters.
pub mod Payloads
pub mod Methods
pub mod Calls
use toolexec.Base.{
  ℕ, ◌+◌, ◌%◌, ◌^◌, ◌==◌, String, Bool, true, false, Option, none, some, [], str_eq, is_empty,
  if◌then◌else◌,
}
use toolexec.Base.Decimal.{decimal}
use toolexec.Base.Dict.{Dict, lookup, insert, delete}
use toolexec.Value.{Value, str, Fields, get}
use toolexec.Errors.{Err, sentinel, message, wrapped, protocol}
use toolexec.Effects.{Result, ok, err, Exec, Context}

-- Message; MessageType is a string type.
pub record Message : Type 0 where
  pub kind : String
  pub id : String
  pub payload : Fields

-- MessageType
abbrev pub msg_search_tools : String
msg_search_tools = "search_tools"

abbrev pub msg_list_namespaces : String
msg_list_namespaces = "list_namespaces"

abbrev pub msg_describe_tool : String
msg_describe_tool = "describe_tool"

abbrev pub msg_list_tool_examples : String
msg_list_tool_examples = "list_tool_examples"

abbrev pub msg_run_tool : String
msg_run_tool = "run_tool"

abbrev pub msg_run_chain : String
msg_run_chain = "run_chain"

abbrev pub msg_error : String
msg_error = "error"

-- Gateway: the atomic counter, the pending requests with their channels, the closed flag, and the
-- channels that were made, with what each holds.
pub record Gateway : Type 0 where
  pub request_id : ℕ
  pub pending : Dict ℕ
  pub closed : Bool
  pub made : ℕ
  pub buffers : ℕ → Option Message

-- New
unfoldable pub new_gateway : Gateway
new_gateway = record {
  request_id = 0;
  pending = [];
  closed = false;
  made = 0;
  buffers = λ ch. none;
}

-- a function changed at one number
abbrev pub update {ℓ} : {A : Type ℓ} → (ℕ → A) → ℕ → A → ℕ → A
update f k v n = if n == k then v else f n

text_or_empty : Option Value → String
text_or_empty (some (str s)) = s
text_or_empty _ = ""

-- getString
unfoldable pub get_string : Fields → String → String
unfolding text_or_empty
get_string m key = text_or_empty (get m key)

-- The start of request: the next id, and a new channel under it.
unfoldable pub open_request : Gateway → (String × ℕ) × Gateway
open_request g =
    let next = (g.request_id + 1) % 2 ^ 64 in
    (
      (decimal next, g.made),
      record g {
        request_id = next;
        pending = insert g.pending (decimal next) g.made;
        made = g.made + 1;
        buffers = update g.buffers g.made none;
      },
    )

-- the deferred deletion
unfoldable pub forget : String → Gateway → Gateway
forget id g = record g { pending = delete g.pending id }

-- what a received response makes of the request
unfoldable pub response_result : Message → Result Message
response_result resp =
    let text = get_string resp.payload "error" in
    if str_eq resp.kind msg_error
    then err (message (if is_empty text then "unknown error" else text))
    else ok resp

-- DeliverResponse: the channel of the request, and the send that does not block
unfoldable pub find_pending : Message → Gateway → Option ℕ
find_pending msg g = lookup g.pending msg.id

fill : ℕ → Message → Option Message → Gateway → Option Err × Gateway
fill ch msg none g = (none, record g { buffers = update g.buffers ch (some msg) })
fill ch msg (some old) g = (some (wrapped protocol (message "response channel full")), g)

unfoldable pub offer : ℕ → Message → Gateway → Option Err × Gateway
unfolding fill
offer ch msg g = fill ch msg (g.buffers ch) g

offer_found : Message → Option ℕ → Gateway → Option Err × Gateway
offer_found msg none g = (some (wrapped protocol (message "no pending request")), g)
offer_found msg (some ch) g = offer ch msg g

-- DeliverResponse, when nothing comes between its two parts
unfoldable pub deliver_response : Message → Gateway → Option Err × Gateway
unfolding offer_found
deliver_response msg g = offer_found msg (find_pending msg g) g

-- the message is taken out of the channel
unfoldable pub drain : ℕ → Gateway → Gateway
drain ch g = record g { buffers = update g.buffers ch none }

-- What the select statement of request takes: the end of the context, or a message.
pub data Woken : Type 0 where
  ended : Err → Woken
  arrived : Message → Woken

-- A gateway in its process: where it stands in the world, its connection, and the select, which
-- lets the others go on until the context has ended or the channel gives its message.
pub record Process (W : Type 0) : Type 0 where
  pub load : W → Gateway
  pub store : Gateway → W → W
  pub send : Context W → Message → Exec W (Unit {0})
  pub close_connection : Exec W (Unit {0})
  pub select : Context W → ℕ → W → Woken × W

module _ {W : Type 0} (p : Process W) where
  leave : String → W → W
  leave id w = p.store (forget id (p.load w)) w

  woken : String → Woken → Exec W Message
  unfolding leave
  woken id (ended e) w = (err e, leave id w)
  woken id (arrived resp) w = (response_result resp, leave id w)

  await : Context W → String → ℕ → Result (Unit {0}) → Exec W Message
  unfolding woken
  await ctx id ch (ok _) w = let (reason, w1) = p.select ctx ch w in woken id reason w1
  await ctx id ch (err e) w = (err e, leave id w)

  unfoldable pub request : Context W → String → Fields → Exec W Message
  unfolding await
  request ctx kind payload w =
      let ((id, ch), g) = open_request (p.load w) in
      let (sent, w1) =
        p.send ctx (record { kind = kind; id = id; payload = payload }) (p.store g w) in
      await ctx id ch sent w1

  close_open : Bool → Exec W (Unit {0})
  close_open true w = (ok tt, w)
  close_open false w = p.close_connection (p.store (record (p.load w) { closed = true }) w)

  unfoldable pub close : Exec W (Unit {0})
  unfolding close_open
  close w = close_open (p.load w).closed w
