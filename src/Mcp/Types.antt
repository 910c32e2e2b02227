-- ===== src/Mcp/Types.antt =====
-- packages/go/mcpwire/policy.go and types.go. encoding/json and the JSON Schema library are the
-- functions of `Json`, a parameter of all that uses them.
use nova2sonici_osapp.Common.{Bool, true, false, not, List, [], ◌∷◌, Option, ltb, if◌then◌else◌}
use nova2sonici_osapp.Common.Assoc.{Map}
use nova2sonici_osapp.Common.Fallible.{Fallible, ok, err}
use nova2sonici_osapp.Common.Text.{Text, codes, len, eq_text}

-- A policy is a Go string: the three constants, and any other, `unnamed []` being "".
pub data Policy : Type 0 where
  read_only explicit_intent confirm_later : Policy
  unnamed : Text → Policy

unfoldable pub eq_policy : Policy → Policy → Bool
eq_policy read_only read_only = true
eq_policy explicit_intent explicit_intent = true
eq_policy confirm_later confirm_later = true
eq_policy (unnamed s) (unnamed t) = eq_text s t
eq_policy _ _ = false

-- The values that the Go code hands to json.Marshal.
mutual
  pub data Value : Type 0 where
    str : Text → Value
    raw : Text → Value
    obj : Fields → Value

  pub data Fields : Type 0 where
    end : Fields
    field : Text → Value → Fields → Fields

pub record Content : Type 0 where
  pub kind : Text
  pub text : Text

pub record Result : Type 0 where
  pub content : List Content
  pub is_error : Bool

pub record Tool : Type 0 where
  pub server : Text
  pub original_name : Text
  pub host_policy : Policy
  pub name : Text
  pub description : Text
  pub input_schema : Text

-- What the Go code takes from encoding/json and the JSON Schema library.
pub record Json : Type 0 where
  pub marshal : Value → Text
  pub marshal_result : Result → Text
  pub valid : Text → Bool
  pub canonical : Text → Text
  pub object_members : Text → Option (Map Text)
  pub string_value : Text → Option Text
  pub schema_compiles : Text → Bool
  pub schema_accepts : Text → Text → Bool

unfoldable pub text_result : Json → Value → Bool → Result
text_result j value failed = record {
  content = record { kind = codes "text"; text = j.marshal value } ∷ [];
  is_error = failed;
}

unfoldable pub failure : Json → Text → Result
unfolding text_result
failure j code =
    text_result j
      (obj (field (codes "status") (str (codes "error")) (field (codes "code") (str code) end)))
      true

-- mcp.Compile hands the schema's text to the library; a compiled schema is named by that text.
unfoldable pub compile : Json → Text → Fallible Text
compile j schema = if j.schema_compiles schema then ok schema else err (codes "invalid schema")

-- mcp.Validate; true stands for a nil error.
unfoldable pub validate : Json → Text → Text → Bool
validate j schema args =
    if ltb 16384 (len args)
    then false
    else if not (j.valid args)
    then false
    else j.schema_accepts schema args
