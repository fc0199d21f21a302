-- ===== src/Config/Types.antt =====
-- The structs of internal/config/profile.go and internal/config/counters.go. `F` is the type of a
-- `float64`. YAML decoding is not modelled: a profile is the struct that the decoder fills. A Go
-- map is a list of pairs; its order is the order in which `range` meets the entries.
use placitum_counter.Prelude.{Bool, List, Option, String, ℤ}
use placitum_counter.Protocol.{ObjectSpec}

pub record OutcomeIf : Type 0 where
  pub counter : String
  pub axis : String

-- `verb` is the field `Do` and `bucket` the field `If`; `ttl` is in seconds.
pub record Outcome : Type 0 where
  pub on : String
  pub at : Option ℤ
  pub below : Bool
  pub eq : Bool
  pub bucket : Option OutcomeIf
  pub to : String
  pub verb : String
  pub apply : String
  pub phase : String
  pub delta : Option ℤ
  pub value : Option ℤ
  pub counter : String
  pub group : String
  pub set : String
  pub headers : Option ObjectSpec
  pub args : Option ObjectSpec
  pub body : Option ObjectSpec
  pub when : List String
  pub marker : String
  pub list : String
  pub write : String
  pub ttl : ℤ
  pub code : String

pub record JudgeRule (F : Type 0) : Type 0 where
  pub counter : String
  pub axis : String
  pub at : F
  pub action : String
  pub score : ℤ
  pub code : String

pub record Match : Type 0 where
  pub status : List ℤ
  pub content_type : List String
  pub methods : List String
  pub direction : List String
  pub opcode : List String

-- `selector` is the field `If`. `re` is the text that the compiled expression stands for.
pub record MeasureRule (F : Type 0) : Type 0 where
  pub selector : Match
  pub source : String
  pub regex : String
  pub per : Option F
  pub counter : String
  pub axes : List String
  pub re : Option String

pub record FramePhase (F : Type 0) : Type 0 where
  pub enabled : Bool
  pub measure : List (MeasureRule F)
  pub judge : List (JudgeRule F)
  pub deny_response : String
  pub outcomes : List Outcome

pub record RequestPhase (F : Type 0) : Type 0 where
  pub enabled : Bool
  pub judge : List (JudgeRule F)
  pub deny_response : String
  pub outcomes : List Outcome

pub record ResponsePhase (F : Type 0) : Type 0 where
  pub enabled : Bool
  pub measure : List (MeasureRule F)

pub record PriorRule : Type 0 where
  pub from : String
  pub accept : List String
  pub apply : List String
  pub codes : List String
  pub counter : String

-- `prior` is `Trigger.Prior`.
pub record Profile (F : Type 0) : Type 0 where
  pub name : String
  pub mode : String
  pub prior : List PriorRule
  pub request : RequestPhase F
  pub response : ResponsePhase F
  pub frame : FramePhase F

pub record AxisTier (F : Type 0) : Type 0 where
  pub max : F
  pub loss : F

-- `Subjects`: the cookie of the sess axis and the source of the user axis.
pub record Subjects : Type 0 where
  pub sess_cookie : String
  pub user_from : String

pub record Counter (F : Type 0) : Type 0 where
  pub axes : List (String × AxisTier F)
  pub fill : String
  pub subjects : Option Subjects

pub record Counters (F : Type 0) : Type 0 where
  pub counters : List (String × Counter F)
  pub subjects : Subjects
