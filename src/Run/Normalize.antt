-- ===== src/Run/Normalize.antt =====
-- run/normalize.go. `unmarshal` is json.Unmarshal into an `any`: none where the text is no JSON.
use toolexec.Base.{String, Option, none, some, List, [], ◌∷◌, is_empty, if◌then◌else◌}
use toolexec.Model.{ToolBackend, Tool}
use toolexec.Value.{Value, null, str, texts, get}
use toolexec.Run.Types.{Content, text, other, CallToolResult, RunResult}
use toolexec.Run.Dispatch.{DispatchResult}

-- m["text"].(string)
string_or_empty : Option Value → String
string_or_empty (some (str s)) = s
string_or_empty _ = ""

unfoldable pub extract_text_from_content : Content → String
unfolding string_or_empty
extract_text_from_content (text s) = s
extract_text_from_content (other none) = ""
extract_text_from_content (other (some m)) = string_or_empty (get m "text")

-- the loop that collects the texts that are not empty
unfoldable pub collect_texts : List Content → List String
collect_texts [] = []
collect_texts (c ∷ cs) =
    let rest = collect_texts cs in
    let s = extract_text_from_content c in if is_empty s then rest else s ∷ rest

-- the value for the texts of several contents
unfoldable pub from_texts : List String → Value
from_texts [] = null
from_texts (s ∷ []) = str s
from_texts (s ∷ t ∷ ss) = texts (s ∷ t ∷ ss)

module _ (unmarshal : String → Option Value) where
  -- the single text, parsed if it is JSON
  parsed_or_text : String → Option Value → Value
  parsed_or_text s none = str s
  parsed_or_text s (some v) = v

  unfoldable pub best_effort_structured : List Content → Value
  unfolding parsed_or_text
  best_effort_structured [] = null
  best_effort_structured (c ∷ []) =
      let s = extract_text_from_content c in
      if is_empty s then from_texts (collect_texts (c ∷ [])) else parsed_or_text s (unmarshal s)
  best_effort_structured (c ∷ d ∷ cs) = from_texts (collect_texts (c ∷ d ∷ cs))

  -- a nil result, and a nil StructuredContent
  unfoldable pub extract_structured : Option CallToolResult → Value
  extract_structured none = null
  extract_structured (some r) = elim r.structured_content [
    | null ↦ best_effort_structured r.content
    | v ↦ v
  ]

  unfoldable pub normalize : Tool → ToolBackend → DispatchResult → RunResult
  unfolding extract_structured
  normalize tool backend dr = elim dr.mcp_result [
    | some m ↦ record {
      tool = tool;
      backend = backend;
      structured = extract_structured (some m);
      mcp_result = some m;
    }
    | none ↦ record {
      tool = tool;
      backend = backend;
      structured = dr.structured;
      mcp_result = none;
    }
  ]
