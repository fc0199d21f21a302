-- ===== src/Protocol.antt =====
-- internal/protocol/protocol.go: the messages of the bus. JSON decoding is not modelled: a message
-- is the struct that `json.Unmarshal` fills, with the fields that the checks, the counters and the
-- fetches read. A nil slice is an empty list here; `client_ip`, `method`, `uri` and `profile` are
-- fields of the nested `Conn`, `HTTP` and `Route`.
use placitum_counter.Prelude.{Bool, List, Option, String, if◌then◌else◌, ℤ, ◌==◌}
pub mod Checks
pub mod Replies
pub mod Parsed

pub record Enc : Type 0 where
  pub alg : String
  pub kid : String
  pub nonce : String

-- The fields of a `Locator` that the source reads.
pub record Locator : Type 0 where
  pub store : String
  pub driver : String
  pub key : String
  pub unavailable : String
  pub size : ℤ
  pub sha256 : String
  pub processed_sha256 : String
  pub truncated : Bool
  pub enc : Option Enc

pub record Store : Type 0 where
  pub headers : Option Locator
  pub args : Option Locator
  pub body : Option Locator

pub record ObjectSpec : Type 0 where
  pub set : String
  pub limit : ℤ
  pub source : String

-- `verb` is the field `Do`.
pub record Action : Type 0 where
  pub to : String
  pub verb : String
  pub apply : String
  pub phase : String
  pub code : String
  pub delta : ℤ
  pub value : ℤ
  pub counter : String
  pub marker : String
  pub group : String
  pub set : String
  pub ttl : Option ℤ
  pub when : List String
  pub headers : Option ObjectSpec
  pub args : Option ObjectSpec
  pub body : Option ObjectSpec

pub record PriorVerdict : Type 0 where
  pub phase : String
  pub inspector : String
  pub verdict : String
  pub score : ℤ
  pub actions : List Action

pub record Session : Type 0 where
  pub inspector : String
  pub source : String
  pub user : String
  pub id : String
  pub verified : Bool

pub record Stream : Type 0 where
  pub direction : String
  pub opcode : String

pub record Release : Type 0 where
  pub token : String
  pub reason : String

-- The fields of a `Request` that the source reads.
pub record Request : Type 0 where
  pub v : ℤ
  pub rid : String
  pub phase : String
  pub inspector : String
  pub deadline_ms : ℤ
  pub audit_subject : Option String
  pub client_ip : String
  pub method : String
  pub uri : String
  pub profile : String
  pub store : Store
  pub request_store : Store
  pub prior : List PriorVerdict
  pub sessions : List Session
  -- `Response.Status`, where the message has a response.
  pub status : Option ℤ
  pub release : Option Release
  pub conn_id : String
  pub stream : Option Stream

abbrev pub phase_request : String
phase_request = "request"

abbrev pub phase_response : String
phase_response = "response"

abbrev pub phase_frame : String
phase_frame = "frame"

abbrev pub verdict_allow : String
verdict_allow = "allow"

abbrev pub verdict_score : String
verdict_score = "score"

abbrev pub verdict_deny : String
verdict_deny = "deny"

abbrev pub verdict_error : String
verdict_error = "error"

-- `Action.Scope`: an action without an axis is about the request.
unfoldable pub scope : Action → String
scope a = if a.apply == "" then "request" else a.apply
