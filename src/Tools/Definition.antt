-- ===== src/Tools/Definition.antt =====
-- definition.py: `ToolDefinition`. The validation by pydantic and by JSON Schema, and the handler of
-- a tool, are fields that are functions; a handler's `S` is all that tools may change.
use dota_mind.Prelude.{
  ℕ, ◌==◌, not, ◌&&◌, Bool, true, false, String, str_eq, Option, none, some, List, [], ◌∷◌, map,
  take, Outcome, raise_if, ◌>>◌, if◌then◌else◌,
}
use dota_mind.Prelude.Sort.{text_lt, sort_onto}
use dota_mind.Json.{Value, str, num, arr, obj, end, field, of_list, int_text}
use dota_mind.Protocol.{ToolError}

-- An error that a JSON Schema validator reports: where, and by which keyword.
pub record SchemaError : Type 0 where
  pub absolute_path : List Value
  pub validator : Option String

-- What is kept of an entry of `ValidationError.errors()`.
pub record PydanticError : Type 0 where
  pub loc : Value
  pub kind : String

pub data ToolInput : Type 0 where
  json_schema : (Value → List SchemaError) → ToolInput
  input_model : (Value → Outcome (List PydanticError) Value) → ToolInput

-- The exceptions that a handler raises, as `_execute` tells them apart: the artifact errors and
-- the structured error carry what is shown of them.
pub data HandlerError : Type 0 where
  timed_out cancelled missing_artifact missing_path other_error : HandlerError
  response_artifact read_validation : String → HandlerError
  structured : ToolError → HandlerError

pub data OutputError : Type 0 where
  invalid_output : List PydanticError → OutputError
  bad_output : OutputError

-- The handler takes the arguments and the timeout it is awaited with.
pub record ToolDefinition (S : Type 0) : Type 0 where
  pub name : String
  pub description : String
  pub input : ToolInput
  pub handler : Value → Option ℕ → S → Outcome HandlerError Value × S
  pub validate_output : Value → Outcome OutputError Value
  pub timeout : Option ℕ
  pub parallel_safe : Bool
  pub externalize_result : Bool
  pub always_artifact : Bool

pub data DefinitionError : Type 0 where
  empty_name requires_externalize empty_description bad_timeout : DefinitionError

abbrev pub is_zero : Option ℕ → Bool
is_zero none = false
is_zero (some n) = n == 0

-- `__post_init__`, without the checks of Python types and schemas.
unfoldable pub check_definition :
    {S : Type 0} → ToolDefinition S → Outcome DefinitionError (Unit {0})
check_definition definition = do
  raise_if (str_eq definition.name "") empty_name
  raise_if (definition.always_artifact && not definition.externalize_result) requires_externalize
  raise_if (str_eq definition.description "") empty_description
  raise_if (is_zero definition.timeout) bad_timeout

-- `str(part)`.
abbrev pub part_text : Value → String
part_text (str s) = s
part_text (num n) = int_text n
part_text _ = ""

-- The order of tuples of texts.
abbrev pub path_lt : List String → List String → Bool
path_lt [] [] = false
path_lt [] (t ∷ ts) = true
path_lt (s ∷ ss) [] = false
path_lt (s ∷ ss) (t ∷ ts) =
    let rest = path_lt ss ts in if text_lt s t then true else if str_eq s t then rest else false

abbrev pub earlier_path : SchemaError → SchemaError → Bool
earlier_path a b = path_lt (map part_text a.absolute_path) (map part_text b.absolute_path)

-- `error.validator or "json_schema"`.
abbrev pub keyword_of : Option String → String
keyword_of none = "json_schema"
keyword_of (some keyword) = if str_eq keyword "" then "json_schema" else keyword

abbrev pub error_entry : Value → String → Value
error_entry loc kind = obj (field "loc" loc (field "type" (str kind) end))

abbrev pub schema_entry : SchemaError → Value
schema_entry e = error_entry (arr (of_list e.absolute_path)) (keyword_of e.validator)

-- `json_schema_errors`: the first ten, by their paths.
unfoldable pub json_schema_errors : (Value → List SchemaError) → Value → List Value
json_schema_errors iter_errors arguments =
    map schema_entry (take 10 (sort_onto earlier_path [] (iter_errors arguments)))
