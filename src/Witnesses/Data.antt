-- ===== src/Witnesses/Data.antt =====
-- Sample values: whole numbers as `float64`, counters, profiles, messages and tasks.
use placitum_counter.Prelude.{
  List, [], arith, beq_ℤ, false, leb_ℤ, ltb_ℤ, neg_part, none, pos, pos_part, some, sub_ℕ, true, ℤ,
  ◌*◌, ◌+◌, ◌/◌, ◌∷◌, ◌≡◌,
}
use placitum_counter.Prelude.Float.{Float64}
use placitum_counter.Protocol.{Action, PriorVerdict, Request, Store}
use placitum_counter.Config.Types.{
  Outcome, JudgeRule, Match, MeasureRule, PriorRule, Profile, AxisTier, Counter, Counters,
}
use placitum_counter.Decide.{LevelLookup}

abbrev mul_ℤ : ℤ → ℤ → ℤ
mul_ℤ a b =
    sub_ℕ (pos_part a * pos_part b + neg_part a * neg_part b)
      (pos_part a * neg_part b + neg_part a * pos_part b)

abbrev div_ℤ : ℤ → ℤ → ℤ
div_ℤ a b = sub_ℕ (pos_part a / pos_part b) (neg_part a / pos_part b)

abbrev whole_add : ℤ → ℤ → ℤ
whole_add a b = sub_ℕ (pos_part a + pos_part b) (neg_part a + neg_part b)

abbrev whole_sub : ℤ → ℤ → ℤ
whole_sub a b = sub_ℕ (pos_part a + neg_part b) (pos_part b + neg_part a)

pub lt_irrefl_ℤ : (a : ℤ) → ltb_ℤ a a ≡ false
lt_irrefl_ℤ a = ground arith

pub lt_trans_ℤ : (a b c : ℤ) → ltb_ℤ a b ≡ true → ltb_ℤ b c ≡ true → ltb_ℤ a c ≡ true
lt_trans_ℤ a b c h g = ground arith

pub le_trans_ℤ : (a b c : ℤ) → leb_ℤ a b ≡ true → leb_ℤ b c ≡ true → leb_ℤ a c ≡ true
le_trans_ℤ a b c h g = ground arith

pub le-lt_trans_ℤ : (a b c : ℤ) → leb_ℤ a b ≡ true → ltb_ℤ b c ≡ true → ltb_ℤ a c ≡ true
le-lt_trans_ℤ a b c h g = ground arith

pub le-not_lt_ℤ : (a b : ℤ) → leb_ℤ a b ≡ true → ltb_ℤ b a ≡ false
le-not_lt_ℤ a b h = ground arith

instance abbrev pub int_float : Float64 ℤ
int_float = record {
  of_int = λ a. a;
  add = whole_add;
  sub = whole_sub;
  mul = mul_ℤ;
  div = div_ℤ;
  round = λ a. a;
  lt = ltb_ℤ;
  le = leb_ℤ;
  eq = beq_ℤ;
  lt_irrefl = lt_irrefl_ℤ;
  lt_trans = lt_trans_ℤ;
  le_trans = le_trans_ℤ;
  le-lt_trans = le-lt_trans_ℤ;
  le-not_lt = le-not_lt_ℤ;
}

abbrev pub score_rule : JudgeRule ℤ
score_rule = record {
  counter = "login";
  axis = "ip";
  at = pos 50;
  action = "score";
  score = pos 40;
  code = "";
}

abbrev pub deny_rule : JudgeRule ℤ
deny_rule = record score_rule { at = pos 90; action = "deny"; score = pos 0; code = "FLOOD" }

abbrev pub rules : List (JudgeRule ℤ)
rules = score_rule ∷ deny_rule ∷ []

abbrev pub outcome : Outcome
outcome = record {
  on = "score";
  at = some (pos 30);
  below = false;
  eq = false;
  bucket = none;
  to = "";
  verb = "";
  apply = "";
  phase = "";
  delta = none;
  value = none;
  counter = "";
  group = "";
  set = "";
  headers = none;
  args = none;
  body = none;
  when = [];
  marker = "";
  list = "greylist";
  write = "addr";
  ttl = pos 600;
  code = "";
}

abbrev pub overload_outcome : Outcome
overload_outcome = record outcome { on = "overload"; at = some (pos 80) }

abbrev pub prior_rule : PriorRule
prior_rule = record {
  from = "waf";
  accept = "threshold" ∷ "note" ∷ [];
  apply = [];
  codes = [];
  counter = "noted";
}

abbrev pub selector : Match
selector = record {
  status = pos 401 ∷ [];
  content_type = [];
  methods = [];
  direction = [];
  opcode = [];
}

abbrev pub measure_rule : MeasureRule ℤ
measure_rule = record {
  selector = selector;
  source = "regex_count";
  regex = "bad";
  per = none;
  counter = "login";
  axes = "ip" ∷ [];
  re = none;
}

abbrev pub compiled_rule : MeasureRule ℤ
compiled_rule = record measure_rule { re = some "bad" }

abbrev pub profile : Profile ℤ
profile = record {
  name = "default";
  mode = "enforce";
  prior = prior_rule ∷ [];
  request = record {
    enabled = true;
    judge = rules;
    deny_response = "counter_limit";
    outcomes = outcome ∷ overload_outcome ∷ [];
  };
  response = record { enabled = true; measure = measure_rule ∷ [] };
  frame = record {
    enabled = false;
    measure = [];
    judge = [];
    deny_response = "ws_policy";
    outcomes = [];
  };
}

abbrev pub compiled_profile : Profile ℤ
compiled_profile = record profile {
  response = record { enabled = true; measure = compiled_rule ∷ [] };
}

abbrev pub tier : AxisTier ℤ
tier = record { max = pos 100; loss = pos 5 }

abbrev pub login : Counter ℤ
login = record { axes = ("ip", tier) ∷ ("user", tier) ∷ []; fill = ""; subjects = none }

abbrev pub noted : Counter ℤ
noted = record { axes = ("ip", tier) ∷ []; fill = "note"; subjects = none }

abbrev pub counters : Counters ℤ
counters = record {
  counters = ("login", login) ∷ ("noted", noted) ∷ [];
  subjects = record { sess_cookie = "waf_cid"; user_from = "header:x-user" };
}

abbrev pub low : LevelLookup ℤ
low counter axis = some (pos 60, "10.0.0.1/32")

abbrev pub high : LevelLookup ℤ
high counter axis = some (pos 95, "10.0.0.1/32")

abbrev pub threshold : Action
threshold = record {
  to = "";
  verb = "threshold";
  apply = "";
  phase = "";
  code = "";
  delta = pos 25;
  value = pos 0;
  counter = "";
  marker = "";
  group = "";
  set = "";
  ttl = none;
  when = [];
  headers = none;
  args = none;
  body = none;
}

abbrev pub prior_verdict : PriorVerdict
prior_verdict = record {
  phase = "request";
  inspector = "waf";
  verdict = "allow";
  score = pos 0;
  actions = threshold ∷ record threshold { verb = "note"; value = pos 50; apply = "ip" } ∷ [];
}

abbrev pub empty_store : Store
empty_store = record { headers = none; args = none; body = none }

abbrev pub request : Request
request = record {
  v = pos 2;
  rid = "a1";
  phase = "request";
  inspector = "counter";
  deadline_ms = pos 50;
  audit_subject = none;
  client_ip = "10.0.0.1";
  method = "GET";
  uri = "/login";
  profile = "default";
  store = record empty_store {
    headers = some (record {
      store = "";
      driver = "redis";
      key = "k";
      unavailable = "";
      size = pos 10;
      sha256 = "";
      processed_sha256 = "";
      truncated = false;
      enc = none;
    });
  };
  request_store = empty_store;
  prior = prior_verdict ∷ [];
  sessions = [];
  status = none;
  release = none;
  conn_id = "";
  stream = none;
}
