-- ===== src/Handler/Rids.antt =====
-- cmd/inspector: the `rid` of the replies that the handlers build.
use placitum_counter.Prelude.{
  Bool, Bool-cases, List, Option, String, false, if◌then◌else◌, inl, inr, is_empty, ltb_ℤ, pos,
  refl, some, true, ℤ, ◌&&◌, ◌==◌, ◌||◌, ◌∙◌, ◌≡◌,
}
use placitum_counter.Prelude.Float.{Float64}
use placitum_counter.Protocol.{Request, Action, verdict_allow}
use placitum_counter.Protocol.Replies.{Reply, with_score, new_reply, error_reply}
use placitum_counter.Config.Types.{Profile}
use placitum_counter.Decide.{Decision, LevelLookup, judge_request, judge_frame}
use placitum_counter.Decide.Fire
use placitum_counter.Decide.Fire.{fire}
use placitum_counter.Handler.{
  scored_of, would_scaled, effective, fired_by, reply_to, or_internal, with_code, judge_reply,
  code_internal_error,
}
use placitum_counter.Handler.Frame.{frame_reply, measured_reason}
use placitum_counter.Handler.Env.{plain}

pub error_reply-rid : (req : Request) (code : String) → (error_reply req code).rid ≡ req.rid
unfolding error_reply new_reply
error_reply-rid req code = refl

pub plain-rid : (req : Request) (verdict code : String) → (plain req verdict code).rid ≡ req.rid
unfolding plain new_reply
plain-rid req verdict code = refl

with_code-rid : (code : String) (r : Reply) → (with_code code r).rid ≡ r.rid
with_code-rid code r = elim (Bool-cases (code == "")) [ inl e ↦ rw e refl | inr e ↦ rw e refl ]

with_score-rid :
    (req : Request) (score : ℤ) (r : Reply)
    → r.rid ≡ req.rid
    → (or_internal req (with_score score r)).rid ≡ req.rid
unfolding with_score
with_score-rid req score r h = elim (Bool-cases (ltb_ℤ score (pos 0) || ltb_ℤ (pos 100) score)) [
  | inl out ↦ rw out (error_reply-rid req code_internal_error)
  | inr fine ↦ rw fine h
]

response-rid :
    (b : Bool) (response : Option String) (r : Reply)
    → (if b then record r { response = response } else r).rid ≡ r.rid
response-rid true response r = refl
response-rid false response r = refl

pub actions-rid :
    (b : Bool) (xs : List Action) (r : Reply)
    → (if b then r else record r { actions = xs }).rid ≡ r.rid
actions-rid true xs r = refl
actions-rid false xs r = refl

either-rid :
    (b : Bool) (x y : Reply) (rid : String)
    → x.rid ≡ rid
    → y.rid ≡ rid
    → (if b then x else y).rid ≡ rid
either-rid true x y rid hx hy = hx
either-rid false x y rid hx hy = hy

reply_to-rid : (req : Request) (d : Decision) (scored : ℤ) → (reply_to req d scored).rid ≡ req.rid
unfolding reply_to
reply_to-rid req d scored =
    let plain_reply = with_code d.code (new_reply req d.verdict) in
    let named : plain_reply.rid ≡ req.rid =
      with_code-rid d.code (new_reply req d.verdict) ∙ (unfold new_reply in refl) in
    response-rid (d.verdict == "deny") (some d.deny_response) (
      if d.verdict == "score" then or_internal req (with_score scored plain_reply) else plain_reply)
    ∙ either-rid (d.verdict == "score") (or_internal req (with_score scored plain_reply))
        plain_reply req.rid (with_score-rid req scored plain_reply named) named

measured_reason-rid : (d : Decision) (r : Reply) → (measured_reason d r).rid ≡ r.rid
unfolding measured_reason
measured_reason-rid d r = elim (Bool-cases (d.verdict == verdict_allow && d.code == "")) [
  | inl bare ↦ rw bare refl
  | inr coded ↦ rw coded refl
]

module _ {F : Type 0} ⦃fl : Float64 F⦄ where
  pub judge_reply-rid :
      (p : Profile F) (lookup : LevelLookup F) (req : Request) (percent fill : ℤ)
      → (judge_reply p lookup req percent fill).0.rid ≡ req.rid
  unfolding judge_reply
  judge_reply-rid p lookup req percent fill =
      let scored = scored_of fl (judge_request p lookup).0 percent in
      let d = would_scaled fl (judge_request p lookup).0 percent in
      let fired = fired_by p lookup (effective d scored) fill req.client_ip in
      actions-rid (is_empty fired.actions) fired.actions (reply_to req d scored)
      ∙ reply_to-rid req d scored

  pub frame_reply-rid :
      (p : Profile F) (lookup : LevelLookup F) (req : Request) (percent : ℤ)
      → (frame_reply p lookup req percent).0.rid ≡ req.rid
  unfolding frame_reply measured_reason
  frame_reply-rid p lookup req percent =
      let judged = (judge_frame p lookup).0 in
      let scored = scored_of fl judged percent in
      let d = would_scaled fl judged percent in
      let fired : Fire.Fired F =
        fire p.frame.outcomes (effective d scored) req.client_ip (some lookup) in
      let r = reply_to req d scored in
      actions-rid (is_empty fired.actions) fired.actions (measured_reason d r)
      ∙ measured_reason-rid d r
      ∙ reply_to-rid req d scored
