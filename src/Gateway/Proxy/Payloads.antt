-- ===== src/Gateway/Proxy/Payloads.antt =====
-- The payloads of runtime/gateway/proxy/proxy.go: what the calls send, and what they read of an
-- answer. An element of another type than the code looks for is left out.
use toolexec.Base.{ℤ, String, Option, none, some, List, [], ◌∷◌}
use toolexec.Model.{Summary, ToolDoc, ToolExample}
use toolexec.Value.{
  Value, bool, int, str, list, obj, maps, Elements, last, element, Fields, end, field, get,
}
use toolexec.Run.Types.{ChainStep, RunResult, no_result, no_backend, StepResult}
use toolexec.Gateway.Proxy.{get_string}

-- `v.([]any)`
unfoldable pub as_elements : Option Value → Option Elements
as_elements (some (list xs)) = some xs
as_elements _ = none

-- the elements that are strings
unfoldable pub only_texts : Elements → List String
only_texts last = []
only_texts (element (str s) xs) = s ∷ only_texts xs
only_texts (element _ xs) = only_texts xs

texts_of : Option Elements → List String
texts_of none = []
texts_of (some xs) = only_texts xs

unfoldable pub read_summary : Fields → Summary
unfolding texts_of
read_summary m = record {
  id = get_string m "id";
  name = get_string m "name";
  namespace = get_string m "namespace";
  short_description = get_string m "shortDescription";
  tags = texts_of (as_elements (get m "tags"));
}

fields_or_nil : Option Value → Fields
fields_or_nil (some (obj m)) = m
fields_or_nil _ = end

unfoldable pub read_example : Fields → ToolExample
unfolding fields_or_nil
read_example m = record {
  id = get_string m "id";
  title = get_string m "title";
  description = get_string m "description";
  result_hint = get_string m "resultHint";
  args = fields_or_nil (get m "args");
}

value_or_nil : Option Value → Value
value_or_nil none = Value.null
value_or_nil (some v) = v

-- run.RunResult{Structured: m["structured"]}
unfoldable pub read_result : Fields → RunResult
unfolding value_or_nil
read_result m = record no_result { structured = value_or_nil (get m "structured") }

unfoldable pub read_step_result : Fields → StepResult
read_step_result m = record {
  tool_id = get_string m "toolId";
  backend = no_backend;
  result = read_result m;
  err = none;
}

module _ {A : Type 0} (read : Fields → A) where
  -- the loop over an array: the elements that are objects
  unfoldable pub read_objects : Elements → List A
  read_objects last = []
  read_objects (element (obj m) xs) = read m ∷ read_objects xs
  read_objects (element _ xs) = read_objects xs

  -- no array is no element
  unfoldable pub read_array : Option Elements → List A
  read_array none = []
  read_array (some xs) = read_objects xs

unfoldable pub decode_summaries : Fields → List Summary
decode_summaries payload = read_array read_summary (as_elements (get payload "results"))

unfoldable pub decode_namespaces : Fields → List String
unfolding texts_of
decode_namespaces payload = texts_of (as_elements (get payload "namespaces"))

unfoldable pub decode_doc : Fields → ToolDoc
decode_doc payload = record {
  summary = get_string payload "summary";
  notes = get_string payload "notes";
}

unfoldable pub decode_examples : Fields → List ToolExample
decode_examples payload = read_array read_example (as_elements (get payload "examples"))

unfoldable pub decode_step_results : Fields → List StepResult
decode_step_results payload = read_array read_step_result (as_elements (get payload "stepResults"))

-- the payloads of the requests
unfoldable pub search_payload : String → ℤ → Fields
search_payload query limit = field "query" (str query) (field "limit" (int limit) end)

unfoldable pub describe_payload : String → String → Fields
describe_payload id level = field "id" (str id) (field "level" (str level) end)

unfoldable pub examples_payload : String → ℤ → Fields
examples_payload id max_examples = field "id" (str id) (field "max" (int max_examples) end)

unfoldable pub run_payload : String → Fields → Fields
run_payload id args = field "id" (str id) (field "args" (obj args) end)

unfoldable pub step_data : ChainStep → Fields
step_data s =
    field "toolId" (str s.tool_id)
      (field "args" (obj s.args) (field "usePrevious" (bool s.use_previous) end))

unfoldable pub steps_data : List ChainStep → Elements
steps_data [] = last
steps_data (s ∷ ss) = element (obj (step_data s)) (steps_data ss)

unfoldable pub chain_payload : List ChainStep → Fields
chain_payload steps = field "steps" (maps (steps_data steps)) end
