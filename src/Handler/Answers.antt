-- ===== src/Handler/Answers.antt =====
-- cmd/inspector/handler.go: the answer of `evaluate` to a task.
use placitum_counter.Prelude.{
  Bool, Bool-cases, List, Option, Result, String, any, err, false, if◌then◌else◌, inl, inr,
  is_empty, none, not, ok, pos, refl, some, true, ℤ, ◌&&◌, ◌==◌, ◌∙◌, ◌≡◌, ◌≢◌,
}
use placitum_counter.Prelude.Float.{Float64}
use placitum_counter.Protocol.{Request, verdict_allow, phase_response, phase_frame}
use placitum_counter.Protocol.Replies.{Reply, new_reply, shed_reply}
use placitum_counter.Config.Types.{Profile, Counters}
use placitum_counter.Config.Snapshot.{Snapshot, profile_of}
use placitum_counter.Buckets.Store.{BucketStore}
use placitum_counter.Decide.Fire
use placitum_counter.Decide.Prior.{Ask}
use placitum_counter.Queue.{Task}
use placitum_counter.Body.{Body, failed}
use placitum_counter.Measure
use placitum_counter.Measure.{Value}
use placitum_counter.Subjects.{Header, SubjectKeys}
use placitum_counter.Buckets.{Level}
use placitum_counter.Handler.Frame.{code_measured}
use placitum_counter.Handler.Env.{
  Env, ListWrite, plain, headers_for, lookup_in, phase_enabled, code_skipped, code_geo_unavailable,
  code_store_unavailable, code_buckets_unavailable, code_unknown_profile, code_profile_off,
  code_phase_disabled,
}
use placitum_counter.Handler.Inputs.{
  Handled, published, unconfigured, request_refs, frame_refs, value_refs, body_at,
}
use placitum_counter.Handler.Judge.{judge_handler, judge_with, judged}
use placitum_counter.Handler.Measured.{measure_handler, charged, measured_run, measured_bodies}
use placitum_counter.Handler.Framed.{frame_handler, framed, framed_run, framed_bodies}
use placitum_counter.Handler.Dispatch.{
  uncached, inspect, inspect_in, inspect_profile, phase_handler, evaluated, overload_on_shed,
  evaluate,
}
use placitum_counter.Handler.Sent.{IsAnswer, send_answers, recover_into-IsAnswer}
use placitum_counter.Handler.Rids.{
  error_reply-rid, plain-rid, actions-rid, judge_reply-rid, frame_reply-rid,
}

module _ {F : Type 0} ⦃fl : Float64 F⦄ where
  -- The `rid` of what a handler leaves, if it does not panic.
  abbrev RidOf : Request → Option (Handled F) → Type 0
  RidOf req none = Unit
  RidOf req (some out) = out.reply.rid ≡ req.rid

  abbrev HasRid : Request → Handled F → Type 0
  HasRid req out = out.reply.rid ≡ req.rid

  either-HasRid :
      (req : Request) (b : Bool) (x y : Handled F)
      → HasRid req x
      → HasRid req y
      → HasRid req (if b then x else y)
  either-HasRid req true x y hx hy = hx
  either-HasRid req false x y hx hy = hy

  either-RidOf :
      (req : Request) (b : Bool) (x y : Option (Handled F))
      → RidOf req x
      → RidOf req y
      → RidOf req (if b then x else y)
  either-RidOf req true x y hx hy = hx
  either-RidOf req false x y hx hy = hy

  published-rid :
      (req : Request) (bkt : BucketStore F) (r : Reply) (o : List ListWrite × Option String)
      → r.rid ≡ req.rid
      → (published req bkt r o).reply.rid ≡ req.rid
  published-rid req bkt r (writes, none) h = h
  published-rid req bkt r (writes, some e) h = error_reply-rid req _

  judged-rid :
      (env : Env F) (req : Request) (p : Profile F) (counters : Counters F) (ask : Ask) (fill : ℤ)
      (keys : SubjectKeys) (a : Result (List (Level F)) × BucketStore F)
      → (judged env req p counters ask fill keys a).reply.rid ≡ req.rid
  judged-rid env req p counters ask fill keys (err e, bkt) = error_reply-rid req _
  judged-rid env req p counters ask fill keys (ok levels, bkt) =
      published-rid req bkt _ _
        (judge_reply-rid p (lookup_in counters keys levels) req ask.percent fill)

  judge_with-rid :
      (env : Env F) (req : Request) (p : Profile F) (snap : Snapshot F) (ask : Ask) (fill : ℤ)
      (bkt : BucketStore F) (t : F) (headers : Result (List Header))
      → (judge_with env req p snap ask fill bkt t headers).reply.rid ≡ req.rid
  unfolding judge_with
  judge_with-rid env req p snap ask fill bkt t (err e) = error_reply-rid req code_store_unavailable
  judge_with-rid env req p snap ask fill bkt t (ok headers) =
      judged-rid env req p snap.counters ask fill _ _

  judge_handler-rid :
      (env : Env F) (req : Request) (p : Profile F) (snap : Snapshot F) (ask : Ask) (fill : ℤ)
      (bkt : BucketStore F) (t : F)
      → RidOf req (some (judge_handler env req p snap ask fill bkt t))
  unfolding judge_handler
  judge_handler-rid env req p snap ask fill bkt t =
      either-HasRid req ask.skip _ _ (plain-rid req verdict_allow code_skipped) (
        either-HasRid req (unconfigured env (request_refs p ask)) _ _
          (error_reply-rid req code_geo_unavailable)
          (judge_with-rid env req p snap ask fill bkt t
            (headers_for env req (request_refs p ask) snap.counters)))

  charged-rid :
      (req : Request) (a : Result (List (Level F)) × BucketStore F) → HasRid req (charged req a)
  charged-rid req (err e, bkt) = error_reply-rid req code_buckets_unavailable
  charged-rid req (ok levels, bkt) = plain-rid req verdict_allow code_measured

  measured_run-RidOf :
      (env : Env F) (req : Request) (snap : Snapshot F) (ask : Ask) (bkt : BucketStore F) (t : F)
      (got : List Body) (o : Option (List (Value F) × List (Measure.Fired F)))
      → RidOf req (measured_run env req snap ask bkt t got o)
  measured_run-RidOf env req snap ask bkt t got none = tt
  measured_run-RidOf env req snap ask bkt t got (some (values, rows)) =
      either-HasRid req (is_empty values && is_empty ask.notes) _ _ (unfold plain new_reply in refl)
        (either-HasRid req (unconfigured env (value_refs values ask)) _ _
          (error_reply-rid req code_geo_unavailable)
          (either-HasRid req (failed (body_at 1 got)) _ _
            (error_reply-rid req code_store_unavailable) (charged-rid req _)))

  measured_bodies-RidOf :
      (env : Env F) (req : Request) (p : Profile F) (snap : Snapshot F) (ask : Ask)
      (bkt : BucketStore F) (t : F) (o : Option (List Body))
      → RidOf req (measured_bodies env req p snap ask bkt t o)
  measured_bodies-RidOf env req p snap ask bkt t none = tt
  measured_bodies-RidOf env req p snap ask bkt t (some got) =
      either-RidOf req (any failed got) _ _ (error_reply-rid req code_store_unavailable)
        (measured_run-RidOf env req snap ask bkt t got _)

  framed-rid :
      (env : Env F) (req : Request) (p : Profile F) (counters : Counters F) (ask : Ask)
      (keys : SubjectKeys) (a : Result (List (Level F)) × BucketStore F)
      → HasRid req (framed env req p counters ask keys a)
  framed-rid env req p counters ask keys (err e, bkt) = error_reply-rid req code_buckets_unavailable
  framed-rid env req p counters ask keys (ok levels, bkt) =
      either-HasRid req ask.skip _ _ (plain-rid req verdict_allow code_skipped) (
        published-rid req bkt _ _
          (frame_reply-rid p (lookup_in counters keys levels) req ask.percent))

  framed_run-RidOf :
      (env : Env F) (req : Request) (p : Profile F) (snap : Snapshot F) (ask : Ask)
      (bkt : BucketStore F) (t : F) (headers : List Header)
      (o : Option (List (Value F) × List (Measure.Fired F)))
      → RidOf req (framed_run env req p snap ask bkt t headers o)
  framed_run-RidOf env req p snap ask bkt t headers none = tt
  framed_run-RidOf env req p snap ask bkt t headers (some (values, rows)) =
      framed-rid env req p snap.counters ask _ _

  framed_bodies-RidOf :
      (env : Env F) (req : Request) (p : Profile F) (snap : Snapshot F) (ask : Ask)
      (bkt : BucketStore F) (t : F) (want_headers want_body : Bool) (o : Option (List Body))
      → RidOf req (framed_bodies env req p snap ask bkt t want_headers want_body o)
  framed_bodies-RidOf env req p snap ask bkt t want_headers want_body none = tt
  framed_bodies-RidOf env req p snap ask bkt t want_headers want_body (some got) =
      either-RidOf req (any failed got) _ _ (error_reply-rid req code_store_unavailable)
        (framed_run-RidOf env req p snap ask bkt t _ _)

  uncached-RidOf : (req : Request) (o : Option (Handled F)) → RidOf req o → RidOf req (uncached o)
  uncached-RidOf req none h = tt
  uncached-RidOf req (some out) h = h

  measure_handler-RidOf :
      (env : Env F) (req : Request) (p : Profile F) (snap : Snapshot F) (ask : Ask)
      (bkt : BucketStore F) (t : F)
      → RidOf req (measure_handler env req p snap ask bkt t)
  unfolding measure_handler
  measure_handler-RidOf env req p snap ask bkt t = measured_bodies-RidOf env req p snap ask bkt t _

  frame_handler-RidOf :
      (env : Env F) (req : Request) (p : Profile F) (snap : Snapshot F) (ask : Ask)
      (bkt : BucketStore F) (t : F)
      → RidOf req (frame_handler env req p snap ask bkt t)
  unfolding frame_handler
  frame_handler-RidOf env req p snap ask bkt t =
      either-RidOf req (unconfigured env (frame_refs p snap.counters ask)) _ _
        (error_reply-rid req code_geo_unavailable)
        (framed_bodies-RidOf env req p snap ask bkt t _ _ _)

  phase_handler-RidOf :
      (env : Env F) (req : Request) (p : Profile F) (snap : Snapshot F) (ask : Ask) (fill : ℤ)
      (bkt : BucketStore F) (t : F)
      → RidOf req (phase_handler env req p snap ask fill bkt t)
  phase_handler-RidOf env req p snap ask fill bkt t =
      either-RidOf req (req.phase == phase_response) _ _
        (measure_handler-RidOf env req p snap ask bkt t)
        (either-RidOf req (req.phase == phase_frame) _ _
          (uncached-RidOf req (frame_handler env req p snap ask bkt t)
            (frame_handler-RidOf env req p snap ask bkt t))
          (judge_handler-rid env req p snap ask fill bkt t))

  inspect_profile-RidOf :
      (env : Env F) (task : Task) (snap : Snapshot F) (bkt : BucketStore F) (t : F)
      (o : Option (Profile F))
      → RidOf task.req (inspect_profile env task snap bkt t o)
  inspect_profile-RidOf env task snap bkt t none = error_reply-rid task.req code_unknown_profile
  inspect_profile-RidOf env task snap bkt t (some p) =
      either-RidOf task.req (p.mode == "off") _ _
        (plain-rid task.req verdict_allow code_profile_off)
        (either-RidOf task.req (not (phase_enabled p task.req.phase)) _ _
          (plain-rid task.req verdict_allow code_phase_disabled)
          (phase_handler-RidOf env task.req p snap _ (pos task.fill) bkt t))

  inspect_in-RidOf :
      (env : Env F) (task : Task) (bkt : BucketStore F) (t : F) (o : Option (Snapshot F))
      → RidOf task.req (inspect_in env task bkt t o)
  inspect_in-RidOf env task bkt t none = error_reply-rid task.req code_unknown_profile
  inspect_in-RidOf env task bkt t (some snap) =
      inspect_profile-RidOf env task snap bkt t (profile_of (some snap) task.req.profile)

  evaluated-IsAnswer :
      (env : Env F) (task : Task) (bkt : BucketStore F) (o : Option (Handled F))
      → task.reply ≢ ""
      → RidOf task.req o
      → IsAnswer task.reply task.req.rid (evaluated env task bkt o).sent
  evaluated-IsAnswer env task bkt none some_subject h =
      recover_into-IsAnswer env.name task.reply task.req.rid some_subject
  evaluated-IsAnswer env task bkt (some out) some_subject h =
      let sent = send_answers task.reply out.reply some_subject in
      (sent.0, sent.1, sent.2, sent.3 ∙ h)

  -- A task with a reply subject is answered once by `evaluate`, shed or not, whatever its profile, the
  -- stores, the resolver and the buckets do, a panic included: one reply goes to its subject, with the `rid` of
  -- its request, and `Marshal` accepts it.
  pub evaluate-IsAnswer :
      (env : Env F) (task : Task) (shed : String) (bkt : BucketStore F) (t : F)
      → task.reply ≢ ""
      → IsAnswer task.reply task.req.rid (evaluate env task shed bkt t).sent
  unfolding evaluate
  evaluate-IsAnswer env task shed bkt t some_subject = elim (Bool-cases (shed == "")) [
    | inl asked ↦ rw asked (
        evaluated-IsAnswer env task bkt (inspect env task bkt t) some_subject
          (unfold inspect in inspect_in-RidOf env task bkt t env.snapshot))
    | inr dropped ↦
        let fired : Fire.Fired F = overload_on_shed env task shed in
        let r = shed_reply task.req shed in
        let sent =
          send_answers task.reply
            (if is_empty fired.actions then r else record r { actions = fired.actions })
            some_subject in
        rw dropped (
          sent.0,
          sent.1,
          sent.2,
          sent.3
              ∙ actions-rid (is_empty fired.actions) fired.actions r
              ∙ (unfold shed_reply new_reply in refl),
        )
  ]
