-- ===== src/Decide.antt =====
-- internal/decide/decide.go: the verdict from the bucket levels.
pub mod Taking
pub mod Verdict
pub mod Observe
pub mod Fire
pub mod Prior
pub mod Scale
use placitum_counter.Prelude.{
  Bool, List, Option, String, [], false, if◌then◌else◌, ltb_ℤ, none, not, pos, some, true, ℤ, ◌&&◌,
  ◌++◌, ◌==◌, ◌||◌, ◌∷◌,
}
use placitum_counter.Protocol.{verdict_allow, verdict_score, verdict_deny}
use placitum_counter.Prelude.Float.{Float64}
use placitum_counter.Config.Types.{JudgeRule, Profile}

pub record Decision : Type 0 where
  pub verdict : String
  pub score : ℤ
  pub code : String
  pub deny_response : String
  pub would_verdict : String
  pub would_score : ℤ
  pub would_code : String

pub record RuleAudit (F : Type 0) : Type 0 where
  pub counter : String
  pub axis : String
  pub key : String
  pub percent : F
  pub at : F
  pub fired : Bool
  pub action : String
  pub code : String
  pub no_subject : Bool

-- The percent and the key of a counter's axis; `none` where the Go function returns false.
abbrev pub LevelLookup : Type 0 → Type 0
LevelLookup F = String → String → Option (F × String)

abbrev pub code_level : String
code_level = "COUNTER_LEVEL"

abbrev pub code_observe : String
code_observe = "COUNTER_OBSERVE"

-- `config.DefaultDenyResponse`
abbrev pub default_deny_response : String
default_deny_response = "counter_limit"

-- `config.DefaultFrameDenyResponse`
abbrev pub default_frame_deny_response : String
default_frame_deny_response = "ws_policy"

-- `Decision{Verdict: protocol.VerdictAllow}`
abbrev pub allow : Decision
allow = record {
  verdict = verdict_allow;
  score = pos 0;
  code = "";
  deny_response = "";
  would_verdict = "";
  would_score = pos 0;
  would_code = "";
}

-- `mode == config.ModeObserve`: the decision is kept aside and the request passes.
unfoldable pub observe : String → Decision → Decision
observe mode d =
    if mode == "observe" && not (d.verdict == verdict_allow)
    then record {
      verdict = verdict_allow;
      score = pos 0;
      code = code_observe;
      deny_response = "";
      would_verdict = d.verdict;
      would_score = d.score;
      would_code = d.code;
    }
    else d

module _ {F : Type 0} where
  unfoldable pub code_of : JudgeRule F → String
  code_of r = if r.code == "" then code_level else r.code

  abbrev pub denied : String → Decision → JudgeRule F → Decision
  denied deny_response d r = record d {
    verdict = verdict_deny;
    score = pos 0;
    code = code_of r;
    deny_response = deny_response;
  }

  abbrev pub scored : Decision → JudgeRule F → Decision
  scored d r = record d { verdict = verdict_score; score = r.score; code = code_of r }

  unfoldable pub take : String → Decision → JudgeRule F → Decision
  take deny_response d r =
      if r.action == "deny"
      then denied deny_response d r
      else if d.verdict == verdict_deny
      then d
      else if not (d.verdict == verdict_score) || ltb_ℤ d.score r.score
      then scored d r
      else d

  unfoldable pub deny_response_of : Profile F → String
  deny_response_of p =
      if p.request.deny_response == "" then default_deny_response else p.request.deny_response

  unfoldable pub frame_deny_response_of : Profile F → String
  frame_deny_response_of p =
      if p.frame.deny_response == "" then default_frame_deny_response else p.frame.deny_response

module _ {F : Type 0} ⦃fl : Float64 F⦄ where
  -- The row of a rule, on what the lookup found for it.
  unfoldable pub row_of : JudgeRule F → Option (F × String) → RuleAudit F
  unfolding code_of
  row_of r none = record {
    counter = r.counter;
    axis = r.axis;
    key = "";
    percent = fl.of_int (pos 0);
    at = r.at;
    fired = false;
    action = r.action;
    code = code_of r;
    no_subject = true;
  }
  row_of r (some (percent, key)) = record {
    counter = r.counter;
    axis = r.axis;
    key = key;
    percent = percent;
    at = r.at;
    fired = not (fl.lt percent r.at);
    action = r.action;
    code = code_of r;
    no_subject = false;
  }

  -- One round of the loop of `judge`.
  unfoldable pub judge_rule : String → Decision → JudgeRule F → Option (F × String) → Decision
  unfolding take
  judge_rule deny_response d r none = d
  judge_rule deny_response d r (some (percent, key)) =
      if fl.lt percent r.at then d else take deny_response d r

  unfoldable pub judge_loop :
      String
      → LevelLookup F
      → Decision
      → List (RuleAudit F)
      → List (JudgeRule F)
      → Decision × List (RuleAudit F)
  unfolding judge_rule row_of
  judge_loop deny_response lookup d audit [] = (d, audit)
  judge_loop deny_response lookup d audit (r ∷ rs) =
      let found = lookup r.counter r.axis in
      judge_loop deny_response lookup (judge_rule deny_response d r found)
        (audit ++ (row_of r found ∷ [])) rs

  unfoldable pub judge :
      List (JudgeRule F) → String → String → LevelLookup F → Decision × List (RuleAudit F)
  unfolding judge_loop observe
  judge [] deny_response mode lookup = (allow, [])
  judge (r ∷ rs) deny_response mode lookup =
      let (d, audit) = judge_loop deny_response lookup allow [] (r ∷ rs) in (observe mode d, audit)

  -- `Judge`
  unfoldable pub judge_request : Profile F → LevelLookup F → Decision × List (RuleAudit F)
  unfolding judge deny_response_of
  judge_request p lookup = judge p.request.judge (deny_response_of p) p.mode lookup

  -- `JudgeFrame`
  unfoldable pub judge_frame : Profile F → LevelLookup F → Decision × List (RuleAudit F)
  unfolding judge frame_deny_response_of
  judge_frame p lookup = judge p.frame.judge (frame_deny_response_of p) p.mode lookup
