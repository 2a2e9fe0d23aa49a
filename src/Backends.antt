-- ===== src/Backends.antt =====
-- The package backend: the registry of tool sources (backend/registry.go) and the calls that the
-- aggregator sends to them (backend/aggregator.go). `parse` is ParseToolID of toolfoundation.
pub mod Routing
pub mod Listing
pub mod Local
pub mod Listed
use mathlib.Core.Option
use Prim.Native.String.{◌++◌ as text_append}
use toolexec.Base.{String, Bool, not, Option, none, some, List, [], is_empty, if◌then◌else◌}
use toolexec.Base.Dict.{Dict, lookup, insert, delete}
use toolexec.Value.{Value, Fields}
use toolexec.Errors.{
  Err, message, sentinel, wrapped, backend_exists, backend_not_found, backend_disabled,
  malformed_tool_id,
}
use toolexec.Effects.{Result, ok, err, Exec, Context, fail}
use toolexec.Model.{Tool}

-- Backend. Whether it is enabled is a question to the backend.
pub record ToolSource (W : Type 0) : Type 0 where
  pub kind : String
  pub name : String
  pub enabled : W → Bool
  pub list_tools : Context W → Exec W (List Tool)
  pub execute : Context W → String → Fields → Exec W Value
  pub start : Context W → Exec W (Unit {0})
  pub stop : Exec W (Unit {0})

-- Factory
abbrev pub Factory : Type 0 → Type 0
Factory W = String → Exec W (ToolSource W)

pub record Registry (W : Type 0) : Type 0 where
  pub backends : Dict (ToolSource W)
  pub factories : Dict (Factory W)

module _ {W : Type 0} where
  abbrev pub new_registry : Registry W
  new_registry = record { backends = []; factories = [] }

  -- a nil factory is `none`
  unfoldable pub register_factory : Registry W → String → Option (Factory W) → Registry W
  register_factory r kind none = r
  register_factory r kind (some f) =
      if is_empty kind then r else record r { factories = insert r.factories kind f }

  add_new : Registry W → ToolSource W → Option (ToolSource W) → Result (Registry W)
  add_new r b (some other) = err (wrapped backend_exists (message "name"))
  add_new r b none = ok (record r { backends = insert r.backends b.name b })

  -- a nil backend is `none`
  unfoldable pub register : Registry W → Option (ToolSource W) → Result (Registry W)
  unfolding add_new
  register r none = err (message "backend is nil")
  register r (some b) =
      if is_empty b.name
      then err (message "backend name is required")
      else add_new r b (lookup r.backends b.name)

  stop_found : Registry W → String → Option (ToolSource W) → W → Registry W × W
  stop_found r name none w = (r, w)
  stop_found r name (some b) w =
      let (_, w1) = b.stop w in (record r { backends = delete r.backends name }, w1)

  -- the error of Stop is dropped
  unfoldable pub unregister : Registry W → String → W → Registry W × W
  unfolding stop_found
  unregister r name w = stop_found r name (lookup r.backends name) w

  unfoldable pub get_backend : Registry W → String → Option (ToolSource W)
  get_backend r name = lookup r.backends name

  call_found : Option (ToolSource W) → Context W → String → Fields → Exec W Value
  call_found none ctx tool args w = fail (sentinel backend_not_found) w
  call_found (some b) ctx tool args w =
      if b.enabled w then b.execute ctx tool args w else fail (sentinel backend_disabled) w

  call_named : Registry W → Context W → Fields → Option (String × String) → Exec W Value
  unfolding call_found
  call_named r ctx args none = fail (sentinel malformed_tool_id)
  call_named r ctx args (some (backend_name, tool)) =
      if is_empty backend_name
      then fail (sentinel malformed_tool_id)
      else call_found (get_backend r backend_name) ctx tool args

  -- Execute of the aggregator
  unfoldable pub execute :
      (String → Option (String × String)) → Registry W → Context W → String → Fields → Exec W Value
  unfolding call_named get_backend
  execute parse r ctx id args = call_named r ctx args (parse id)

unfoldable pub format_tool_id : String → String → String
format_tool_id backend_name tool =
    if is_empty backend_name then tool else text_append backend_name (text_append ":" tool)
