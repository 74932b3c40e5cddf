-- ===== src/Scenario/Types.antt =====
-- internal/scenario/types.go: scenarios and steps as they are read from YAML. A pointer that may be
-- nil and a map that may be missing are an `Option` and a map that may be empty.
use octopusgarden.Prelude.{
  [], Bool, codes, Dict, false, if◌then◌else◌, List, none, Option, some, Text, true, ℕ,
}

-- What json.Unmarshal and yaml.Unmarshal make of a document; an object holds a key once.
mutual
  pub data Json (R : Type 0) : Type 0 where
    null : Json R
    bool : Bool → Json R
    num : R → Json R
    str : Text → Json R
    arr : Items R → Json R
    obj : Fields R → Json R

  pub data Items (R : Type 0) : Type 0 where
    nil : Items R
    item : Json R → Items R → Items R

  pub data Fields (R : Type 0) : Type 0 where
    end : Fields R
    field : Text → Json R → Fields R → Fields R

pub record StepOutput : Type 0 where
  pub observed : Text
  pub capture_body : Text
  pub capture_sources : Dict Text

pub record Capture : Type 0 where
  pub name : Text
  pub json_path : Text
  pub source : Text

-- `attempts` is an int; one that is not positive is 0 here.
pub record Retry : Type 0 where
  pub attempts : ℕ
  pub interval : Text
  pub timeout : Text

pub record Request (R : Type 0) : Type 0 where
  pub method : Text
  pub path : Text
  pub headers : Dict Text
  pub body : Json R

pub record ExecRequest : Type 0 where
  pub command : Text
  pub stdin : Text
  pub env : Dict Text
  pub timeout : Text
  pub files : Dict Text

pub record BrowserRequest : Type 0 where
  pub action : Text
  pub url : Text
  pub selector : Text
  pub value : Text
  pub text : Text
  pub text_absent : Text
  pub count : Option ℕ
  pub timeout : Text

pub record GrpcReceive : Type 0 where
  pub timeout : Text
  pub count : ℕ
  pub background : Bool

pub record GrpcStream : Type 0 where
  pub messages : List Text
  pub receive : Option GrpcReceive
  pub id : Text

pub record GrpcRequest : Type 0 where
  pub service : Text
  pub method : Text
  pub body : Text
  pub headers : Dict Text
  pub timeout : Text
  pub stream : Option GrpcStream

pub record WsReceive : Type 0 where
  pub timeout : Text
  pub count : ℕ

pub record WsRequest : Type 0 where
  pub url : Text
  pub id : Text
  pub send : Text
  pub receive : Option WsReceive

pub record TuiRequest : Type 0 where
  pub command : Text
  pub send_key : Text
  pub send_text : Text
  pub wait_for : Text
  pub assert_screen : Text
  pub assert_absent : Text
  pub timeout : Text

pub record Step (R : Type 0) : Type 0 where
  pub description : Text
  pub delay : Text
  pub request : Option (Request R)
  pub exec : Option ExecRequest
  pub browser : Option BrowserRequest
  pub grpc : Option GrpcRequest
  pub ws : Option WsRequest
  pub tui : Option TuiRequest
  pub retry : Option Retry
  pub expect : Text
  pub capture : List Capture

pub record Scenario (R : Type 0) : Type 0 where
  pub id : Text
  pub description : Text
  pub kind : Text  -- Type
  pub weight : Option R
  pub component : Text
  pub tier : ℕ
  pub setup : List (Step R)
  pub steps : List (Step R)
  pub satisfaction_criteria : Text

abbrev pub is_some {ℓ} : {A : Type ℓ} → Option A → Bool
is_some none = false
is_some (some a) = true

module _ {R : Type 0} where
  unfoldable pub step_type : Step R → Text
  step_type s =
      if is_some s.request
      then codes "request"
      else if is_some s.exec
      then codes "exec"
      else if is_some s.browser
      then codes "browser"
      else if is_some s.grpc
      then codes "grpc"
      else if is_some s.ws
      then codes "ws"
      else if is_some s.tui
      then codes "tui"
      else []
