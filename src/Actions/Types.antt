-- ===== src/Actions/Types.antt =====
-- packages/go/actionruntime/tools.go and profile.go: the state of a tool session.
use nova2sonici_osapp.Common.{ℕ, Bool, List, Option}
use nova2sonici_osapp.Common.Assoc.{Map}
use nova2sonici_osapp.Common.Text.{Text}
use nova2sonici_osapp.Mcp.Types.{Policy, Tool, Result, Json}

pub record Profile : Type 0 where
  pub policy : Policy
  pub direct : Bool
  pub confirmation_phrase : Text
  pub allow_ui_confirmation : Bool
  pub date_time_fields : List Text
  pub intent_pattern : Text

pub record Binding : Type 0 where
  pub tool : Tool
  pub schema : Text
  pub policy : Policy
  pub original : Text
  pub profile : Profile

-- Times are nanoseconds.
pub record Pending : Type 0 where
  pub operation_id : Text
  pub name : Text
  pub args : Text
  pub turn_id : Text
  pub expires : ℕ
  pub approved : Bool

pub record ToolSpec : Type 0 where
  pub name : Text
  pub description : Text
  pub parameters : Text

-- The backend, an interface value, is an argument of the operations that call it.
pub record Session : Type 0 where
  pub intent_turn : Text
  pub intent_text : Text
  pub tools : Map Binding
  pub specs : List ToolSpec
  pub namespace : Text
  pub pending : Option Pending
  pub seen : Map Text
  pub cache : Map Result
  pub calls : ℕ
  pub attempted : Map Bool

pub record Job : Type 0 where
  pub id : Text
  pub name : Text
  pub key : Text
  pub turn_id : Text
  pub args : Text
  pub confirmed : Bool

-- What the package takes from the Go libraries: JSON, SHA-256 in hexadecimal, regular expressions,
-- the Unicode tables and time.Parse, which yields the nanoseconds of an RFC 3339 text.
pub record Host : Type 0 where
  pub json : Json
  pub sha256_hex : Text → Text
  pub regexp_matches : Text → Text → Bool
  pub to_lower : Text → Text
  pub is_punct : ℕ → Bool
  pub is_space : ℕ → Bool
  pub parse_rfc3339 : Text → Option ℕ

-- What the calls of time.Now in one operation return, in the order of the text.
pub record Clock : Type 0 where
  pub first : ℕ
  pub second : ℕ
  pub third : ℕ
