-- ===== src/Decide/Fire.antt =====
-- internal/decide/decide.go: the actions for neighbours and the list writes that the outcomes ask for.
use placitum_counter.Prelude.{
  Bool, List, Option, Result, String, [], err, false, if◌then◌else◌, is_empty, ltb_ℤ, none, not, ok,
  pos, some, true, ℤ, ◌&&◌, ◌++◌, ◌==◌, ◌∷◌,
}
use placitum_counter.Prelude.Float.{Float64}
use placitum_counter.Protocol.{Action}
use placitum_counter.Protocol.Checks.{check_archive_when}
use placitum_counter.Config.Types.{Outcome, OutcomeIf}
use placitum_counter.Config.Outcome.{
  asks, on_bucket, subject, matches_level, matches, axis, on_overload,
}
use placitum_counter.Decide.{Decision, LevelLookup}
use placitum_counter.Overload
pub mod Selected
pub mod Quiet

pub record Ban : Type 0 where
  pub dataset : String
  pub write : String
  pub addr : String
  pub ttl : ℤ
  pub reason : String

pub record LevelAudit (F : Type 0) : Type 0 where
  pub counter : String
  pub axis : String
  pub key : String
  pub percent : F
  pub at : ℤ
  pub below : Bool
  pub fired : Bool
  pub no_subject : Bool

pub record Fired (F : Type 0) : Type 0 where
  pub actions : List Action
  pub bans : List Ban
  pub names : List String
  pub levels : List (LevelAudit F)

abbrev pub nothing : {F : Type 0} → Fired F
nothing = record { actions = []; bans = []; names = []; levels = [] }

unfoldable pub reason : Outcome → String → String
reason o code = if o.code == "" then code else o.code

abbrev or_zero : Option ℤ → ℤ
or_zero none = pos 0
or_zero (some a) = a

-- `when, _ := protocol.CheckArchiveWhen(o.When)`
abbrev or_nil : Result (List String) → List String
or_nil (ok words) = words
or_nil (err e) = []

unfoldable pub ask : Outcome → String → Action
unfolding reason axis
ask o code =
    let archives = o.verb == "archive" && o.set == "on" in
    record {
      to = o.to;
      verb = o.verb;
      apply = axis o;
      phase = o.phase;
      code = reason o code;
      delta = or_zero o.delta;
      value = or_zero o.value;
      counter = o.counter;
      marker = o.marker;
      group = o.group;
      set = o.set;
      ttl = if archives && ltb_ℤ (pos 0) o.ttl then some o.ttl else none;
      when = if archives && not (is_empty o.when) then or_nil (check_archive_when o.when) else [];
      headers = o.headers;
      args = o.args;
      body = o.body;
    }

unfoldable pub ban : Outcome → String → String → Ban
unfolding reason subject
ban o addr code = record {
  dataset = o.list;
  write = subject o;
  addr = addr;
  ttl = o.ttl;
  reason = reason o code;
}

unfoldable pub outcome_name : Outcome → String
unfolding asks
outcome_name o = if asks o then o.verb else o.list

unfoldable pub fires_overload : ℤ → Bool → Outcome → Bool
fires_overload fill shed o = o.on == on_overload && Overload.fires (Overload.at o.at) fill shed

module _ {F : Type 0} where
  -- The end of the loops of `Fire` and `FireOverload`, for an outcome that is not passed over.
  unfoldable pub deliver : String → String → Fired F → Outcome → Fired F
  deliver addr code out o =
      if asks o
      then record out {
        actions = out.actions ++ (ask o code ∷ []);
        names = out.names ++ (outcome_name o ∷ []);
      }
      else if addr == ""
      then out
      else record out {
        bans = out.bans ++ (ban o addr code ∷ []);
        names = out.names ++ (outcome_name o ∷ []);
      }

  unfoldable pub fire_overload_loop : ℤ → Bool → String → String → Fired F → List Outcome → Fired F
  fire_overload_loop fill shed addr code out [] = out
  fire_overload_loop fill shed addr code out (o ∷ os) =
      fire_overload_loop fill shed addr code
        (if fires_overload fill shed o then deliver addr code out o else out) os

  -- `FireOverload`
  unfoldable pub fire_overload : List Outcome → ℤ → Bool → String → String → Fired F
  fire_overload outcomes fill shed addr code =
      fire_overload_loop fill shed addr code nothing outcomes

module _ {F : Type 0} ⦃fl : Float64 F⦄ where
  abbrev found_at : Option (LevelLookup F) → OutcomeIf → Option (F × String)
  found_at none b = none
  found_at (some lookup) b = lookup b.counter b.axis

  -- The row that `level` adds; the request passes the outcome over unless `fired` is set.
  unfoldable pub level_row : Outcome → OutcomeIf → Option (F × String) → LevelAudit F
  level_row o b none = record {
    counter = b.counter;
    axis = b.axis;
    key = "";
    percent = fl.of_int (pos 0);
    at = or_zero o.at;
    below = o.below;
    fired = false;
    no_subject = true;
  }
  level_row o b (some (percent, key)) = record {
    counter = b.counter;
    axis = b.axis;
    key = key;
    percent = percent;
    at = or_zero o.at;
    below = o.below;
    fired = matches_level o (some percent);
    no_subject = false;
  }

  -- `Fired.level`, with the bucket that the outcome names.
  unfoldable pub level : Fired F → Outcome → OutcomeIf → Option (LevelLookup F) → Bool × Fired F
  level out o b lookup =
      let row = level_row o b (found_at lookup b) in
      (row.fired, record out { levels = out.levels ++ (row ∷ []) })

  -- One round of the loop of `Fire`.
  unfoldable pub fire_outcome :
      String
      → ℤ
      → String
      → String
      → Option (LevelLookup F)
      → Fired F
      → Outcome
      → Option OutcomeIf
      → Fired F
  fire_outcome verdict score code addr lookup out o none =
      if matches o verdict score then deliver addr code out o else out
  fire_outcome verdict score code addr lookup out o (some b) =
      if on_bucket o
      then (let (fired, out') = level out o b lookup in
          if fired then deliver addr code out' o else out')
      else if matches o verdict score
      then deliver addr code out o
      else out

  unfoldable pub fire_loop :
      String → ℤ → String → String → Option (LevelLookup F) → Fired F → List Outcome → Fired F
  fire_loop verdict score code addr lookup out [] = out
  fire_loop verdict score code addr lookup out (o ∷ os) =
      fire_loop verdict score code addr lookup
        (fire_outcome verdict score code addr lookup out o o.bucket) os

  -- `Fire`: on an observed profile the outcomes follow the decision that was kept aside.
  unfoldable pub fire : List Outcome → Decision → String → Option (LevelLookup F) → Fired F
  fire outcomes d addr lookup =
      if d.would_verdict == ""
      then fire_loop d.verdict d.score d.code addr lookup nothing outcomes
      else fire_loop d.would_verdict d.would_score d.would_code addr lookup nothing outcomes
