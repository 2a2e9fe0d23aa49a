-- ===== src/Model.antt =====
-- The types of the modules toolfoundation and tooldiscovery that the code passes round, with the
-- fields that it reads or writes.
use toolexec.Base.{String, Option, List}
use toolexec.Value.{Value, Fields}

-- model.BackendKind is a string type; `unset` is the empty string.
pub data BackendKind : Type 0 where
  unset mcp provider local : BackendKind
  other : String → BackendKind

-- model.ToolBackend; each pointer to the details of a kind may be nil.
pub record ToolBackend : Type 0 where
  pub kind : BackendKind
  -- MCP.ServerName
  pub server_name : Option String
  -- Provider.ProviderID, Provider.ToolID
  pub provider : Option (String × String)
  -- Local.Name
  pub local_name : Option String

-- model.Tool; `details` are the fields that the code only passes on, such as the schemas.
pub record Tool : Type 0 where
  pub name : String
  pub namespace : String
  pub details : Value

-- index.Summary
pub record Summary : Type 0 where
  pub id : String
  pub name : String
  pub namespace : String
  pub short_description : String
  pub tags : List String

-- tooldoc.ToolDoc and tooldoc.ToolExample
pub record ToolDoc : Type 0 where
  pub summary : String
  pub notes : String

pub record ToolExample : Type 0 where
  pub id : String
  pub title : String
  pub description : String
  pub result_hint : String
  pub args : Fields
