-- ===== src/Protocol/Replies.antt =====
-- internal/protocol/protocol.go: the checks of a request behind the JSON decoder, and the replies.
use placitum_counter.Prelude.{
  Bool, List, Option, Result, String, [], beq_ℤ, fail_if, false, if◌then◌else◌, ltb_ℤ, none, not,
  ok, pos, some, ℤ, ◌&&◌, ◌==◌, ◌>>◌, ◌||◌,
}
use placitum_counter.Protocol.{
  Locator, Store, Action, Request, Release, phase_request, phase_response, phase_frame,
  verdict_score, verdict_error,
}

pub record Reason : Type 0 where
  pub code : String
  pub cls : String

-- The fields of a `Reply` that the source sets.
pub record Reply : Type 0 where
  pub v : ℤ
  pub rid : String
  pub inspector : String
  pub verdict : String
  pub score : Option ℤ
  pub reason : Option Reason
  pub response : Option String
  pub actions : List Action
  pub cache : Option Bool

-- `Locator.validate`
unfoldable pub check_locator : Option Locator → Result (Unit {0})
check_locator none = ok tt
check_locator (some l) = do
  fail_if (not (l.unavailable == "") && (not (l.driver == "") || not (l.key == "")))
      "store.%s mixes unavailable with an address"
  fail_if (if l.driver == "" then not (l.key == "") else l.key == "")
      "store.%s names a store without driver or key"

-- The three locators of a store; of two errors the one in field order.
unfoldable pub check_store : Store → Result (Unit {0})
unfolding check_locator
check_store s = do check_locator s.headers; check_locator s.args; check_locator s.body

abbrev pub check_release : Request → Option Release → Result Request
check_release r none = do
  fail_if (r.method == "" || r.uri == "") "section http has no method or uri"
  check_store r.store
  check_store r.request_store
  ok r
check_release r (some release) = do
  fail_if (release.token == "") "section release has no token"
  ok r

-- `Parse` behind `json.Unmarshal`
unfoldable pub parse : Request → Result Request
unfolding check_store
parse r = do
  fail_if (r.rid == "") "field rid is missing or empty"
  fail_if (beq_ℤ r.v (pos 0)) "field v is missing"
  fail_if (r.inspector == "") "field inspector is missing or empty"
  fail_if (not (r.phase == phase_request || r.phase == phase_response || r.phase == phase_frame))
      "field phase is invalid: %q"
  check_release r r.release

-- `NewReply`
unfoldable pub new_reply : Request → String → Reply
new_reply req verdict = record {
  v = req.v;
  rid = req.rid;
  inspector = req.inspector;
  verdict = verdict;
  score = none;
  reason = none;
  response = none;
  actions = [];
  cache = none;
}

-- `ErrorReply`
unfoldable pub error_reply : Request → String → Reply
unfolding new_reply
error_reply req code = record (new_reply req verdict_error) {
  reason = some (record { code = code; cls = "" });
}

-- `ShedReply`
unfoldable pub shed_reply : Request → String → Reply
unfolding new_reply
shed_reply req code = record (new_reply req verdict_error) {
  reason = some (record { code = code; cls = "overload" });
}

-- `FallbackReply`
unfoldable pub fallback_reply : String → String → String → Reply
fallback_reply rid inspector code = record {
  v = pos 2;
  rid = rid;
  inspector = inspector;
  verdict = verdict_error;
  score = none;
  reason = some (record { code = code; cls = "" });
  response = none;
  actions = [];
  cache = none;
}

-- `WithScore`
unfoldable pub with_score : ℤ → Reply → Result Reply
with_score score r = do
  fail_if (ltb_ℤ score (pos 0) || ltb_ℤ (pos 100) score) "%w: %d"
  ok (record r { verdict = verdict_score; score = some score })

abbrev pub score_out : Option ℤ → Bool
score_out none = false
score_out (some s) = ltb_ℤ s (pos 0) || ltb_ℤ (pos 100) s

-- `Marshal`: what it refuses. The JSON text is not modelled.
unfoldable pub marshal : Reply → Result Reply
marshal r = do fail_if (score_out r.score) "%w: %d"; ok r
