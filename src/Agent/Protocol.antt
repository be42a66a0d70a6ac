-- ===== src/Agent/Protocol.antt =====
-- protocol.py: `parse_agent_decision`. An error keeps the fixed part of its message. The fields of an
-- object are those of a dict, with one value for each key.
use sisyphus_harness.Prelude.{
  String, ◌≡◌, refl, Bool, true, false, not, ◌&&◌, Option, none, some, List, [], ◌∷◌, ◌==◌,
  if◌then◌else◌, any, arith, sym, ap, ◌∙◌,
}
use sisyphus_harness.Prelude.Text.{strip}
use sisyphus_harness.Contracts.Json.{
  Json, null, boolean, integer, number, text, array, object, Fields, end, field,
}
use sisyphus_harness.Agent.{AgentDecision, tool, finish, Parsed, decision, malformed, Outside}
use sisyphus_harness.Agent.Files.{field_of, as_text}

abbrev pub allowed_tools : List String
allowed_tools =
    "list_files" ∷ "read_file" ∷ "search_text" ∷ "write_file" ∷ "replace_text" ∷ "delete_file" ∷ []

abbrev pub is_in : String → List String → Bool
is_in s l = any (λ x. x == s) l

-- `not set(payload).difference(allowed)`
unfoldable pub only_fields : List String → Fields → Bool
only_fields allowed end = true
only_fields allowed (field key value rest) = is_in key allowed && only_fields allowed rest

-- `payload.get("reason", "")`, where it is a text.
abbrev pub reason_of : Fields → Option String
reason_of payload = elim (field_of "reason" payload) [
  | none ↦ some ""
  | some value ↦ as_text (some value)
]

abbrev pub object_of : Option Json → Option Fields
object_of (some (object fields)) = some fields
object_of _ = none

-- The branch of a tool's decision.
unfoldable pub parse_tool : Fields → Parsed
unfolding only_fields field_of strip
parse_tool payload =
    if not (only_fields ("type" ∷ "tool" ∷ "arguments" ∷ "reason" ∷ []) payload)
    then malformed "response contains unknown fields"
    else elim (as_text (field_of "tool" payload)) [
      | none ↦ malformed "unsupported tool"
      | some name ↦
          if not (is_in name allowed_tools)
          then malformed "unsupported tool"
          else elim (object_of (field_of "arguments" payload)) [
            | none ↦ malformed "tool arguments must be an object"
            | some arguments ↦ elim (reason_of payload) [
              | none ↦ malformed "tool reason must be a string"
              | some reason ↦ decision (tool name arguments (strip reason))
            ]
          ]
    ]

-- The branch of the end.
unfoldable pub parse_finish : Fields → Parsed
unfolding only_fields field_of strip
parse_finish payload =
    if not (only_fields ("type" ∷ "summary" ∷ []) payload)
    then malformed "response contains unknown fields"
    else elim (as_text (field_of "summary" payload)) [
      | none ↦ malformed "finish summary must be a non-empty string"
      | some summary ↦
          if strip summary == ""
          then malformed "finish summary must be a non-empty string"
          else decision (finish (strip summary))
    ]

abbrev pub is_kind : String → Option String → Bool
is_kind name none = false
is_kind name (some kind) = kind == name

unfoldable pub parse_payload : Fields → Parsed
unfolding parse_tool parse_finish
parse_payload payload =
    let kind = as_text (field_of "type" payload) in
    if is_kind "tool" kind
    then parse_tool payload
    else if is_kind "finish" kind
    then parse_finish payload
    else malformed "response type must be 'tool' or 'finish'"

unfoldable pub enveloped : Json → Parsed
unfolding parse_payload
enveloped (object nested) = parse_payload nested
enveloped _ = malformed "decision envelope must contain an object"

-- The envelope `{"decision": …}`.
unfoldable pub parse_fields : Fields → Parsed
unfolding parse_payload enveloped
parse_fields end = parse_payload end
parse_fields (field key value end) =
    if key == "decision" then enveloped value else parse_payload (field key value end)
parse_fields (field key value (field key' value' rest)) =
    parse_payload (field key value (field key' value' rest))

-- What `json.loads` read must be an object.
unfoldable pub parse_value : Option Json → Parsed
unfolding parse_fields
parse_value none = malformed "response is not valid JSON"
parse_value (some (object payload)) = parse_fields payload
parse_value (some _) = malformed "response JSON must be an object"

abbrev pub unfenced : String → Option String → String
unfenced stripped none = stripped
unfenced stripped (some inner) = inner

-- `parse_agent_decision`, with `_parse_json_object`.
unfoldable pub parse_agent_decision : Outside → String → Parsed
unfolding parse_value strip
parse_agent_decision outside content =
    let stripped = strip content in
    parse_value (outside.loads (unfenced stripped (outside.fenced stripped)))

-- A decision that the run can act on: a known tool, or an end with a summary.
abbrev pub is_acceptable : AgentDecision → Bool
is_acceptable (tool name arguments reason) = is_in name allowed_tools
is_acceptable (finish summary) = not (summary == "")

abbrev accepted : Parsed → Bool
accepted (decision d) = is_acceptable d
accepted (malformed error) = true

parse_tool-accepted : (payload : Fields) → accepted (parse_tool payload) ≡ true
unfolding parse_tool
parse_tool-accepted payload = ground arith

parse_finish-accepted : (payload : Fields) → accepted (parse_finish payload) ≡ true
unfolding parse_finish
parse_finish-accepted payload = ground arith

parse_payload-accepted : (payload : Fields) → accepted (parse_payload payload) ≡ true
unfolding parse_payload
parse_payload-accepted payload =
    ground (arith, parse_tool-accepted payload, parse_finish-accepted payload)

enveloped-accepted : (value : Json) → accepted (enveloped value) ≡ true
unfolding enveloped
enveloped-accepted null = refl
enveloped-accepted (boolean b) = refl
enveloped-accepted (integer n) = refl
enveloped-accepted (number x) = refl
enveloped-accepted (text s) = refl
enveloped-accepted (array items) = refl
enveloped-accepted (object nested) = parse_payload-accepted nested

parse_fields-accepted : (payload : Fields) → accepted (parse_fields payload) ≡ true
unfolding parse_fields
parse_fields-accepted end = parse_payload-accepted end
parse_fields-accepted (field key value end) =
    ground (arith, enveloped-accepted value, parse_payload-accepted (field key value end))
parse_fields-accepted (field key value (field key' value' rest)) =
    parse_payload-accepted (field key value (field key' value' rest))

parse_value-accepted : (value : Option Json) → accepted (parse_value value) ≡ true
unfolding parse_value
parse_value-accepted none = refl
parse_value-accepted (some null) = refl
parse_value-accepted (some (boolean b)) = refl
parse_value-accepted (some (integer n)) = refl
parse_value-accepted (some (number x)) = refl
parse_value-accepted (some (text s)) = refl
parse_value-accepted (some (array items)) = refl
parse_value-accepted (some (object payload)) = parse_fields-accepted payload

-- Whatever the model answers, inside a code fence or an envelope or not: where the answer is parsed to a
-- decision, it calls one of the six tools, or ends the run with a summary that is not empty.
pub parse_agent_decision-is_acceptable :
    (outside : Outside) (content : String) (d : AgentDecision)
    → parse_agent_decision outside content ≡ decision d
    → is_acceptable d ≡ true
unfolding parse_agent_decision
parse_agent_decision-is_acceptable outside content d h =
    let stripped = strip content in
    sym (ap accepted h)
    ∙ parse_value-accepted (outside.loads (unfenced stripped (outside.fenced stripped)))
