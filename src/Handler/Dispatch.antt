-- ===== src/Handler/Dispatch.antt =====
-- cmd/inspector/handler.go: `receive`, `evaluate`, `inspect` and `send`. What is published is a
-- subject with a reply that `Marshal` accepts; that the bus takes it is not modelled. JSON decoding is
-- not modelled: a message is decoded, or garbled with the `rid` that `sniffRID` finds in it. A panic
-- is `none`, and `recoverInto` answers it.
use placitum_counter.Prelude.{
  Bool, List, Option, Result, String, [], beq_ℤ, err, false, if◌then◌else◌, is_empty, none, not, ok,
  pos, some, true, ℤ, ◌==◌, ◌||◌, ◌∷◌,
}
use placitum_counter.Prelude.Float.{Float64}
use placitum_counter.Protocol.{Request, verdict_allow, phase_request, phase_response, phase_frame}
use placitum_counter.Protocol.Replies.{
  Reply, parse, marshal, error_reply, shed_reply, fallback_reply,
}
use placitum_counter.Config.Types.{Profile}
use placitum_counter.Config.Snapshot.{Snapshot, profile_of}
use placitum_counter.Buckets.Store.{BucketStore}
use placitum_counter.Decide.Fire
use placitum_counter.Decide.Fire.{fire_overload, nothing}
use placitum_counter.Decide.Prior.{Ask, evaluate_prior}
use placitum_counter.Queue.{Task, reason_queue_limit}
use placitum_counter.Handler.{code_internal_error}
use placitum_counter.Handler.Env.{
  Env, ListWrite, plain, code_unknown_profile, code_profile_off, code_phase_disabled,
  code_phase_not_supported, code_malformed_request, code_unsupported_version, phase_enabled,
  publish,
}
use placitum_counter.Handler.Inputs.{Handled, answer}
use placitum_counter.Handler.Judge.{judge_handler}
use placitum_counter.Handler.Measured.{measure_handler}
use placitum_counter.Handler.Framed.{frame_handler}

-- A message of the bus: its payload, behind the decoder, and its reply subject.
pub data Payload : Type 0 where
  garbled : String → Payload
  decoded : Request → Payload

pub record Message : Type 0 where
  pub payload : Payload
  pub reply : String

-- What is published: a subject and a reply.
abbrev pub Sent : Type 0
Sent = Option (String × Reply)

-- The outcome of `receive`.
pub data Received : Type 0 where
  answered : Sent → Received
  ignored : Received
  submitted : Task → Received

-- The outcome of `evaluate`.
pub record Evaluated (F : Type 0) : Type 0 where
  pub sent : Sent
  pub buckets : BucketStore F
  pub writes : List ListWrite

abbrev pub sent_ok : String → Result Reply → Sent
sent_ok subject (ok r) = some (subject, r)
sent_ok subject (err e) = none

abbrev pub sent_or : String → Reply → Result Reply → Sent
sent_or subject fallback (ok r) = some (subject, r)
sent_or subject fallback (err e) = sent_ok subject (marshal fallback)

-- `send`
unfoldable pub send : String → Reply → Sent
unfolding marshal fallback_reply
send subject r =
    if subject == ""
    then none
    else sent_or subject (fallback_reply r.rid r.inspector code_internal_error) (marshal r)

-- `recoverInto` after a panic.
unfoldable pub recover_into : String → String → String → Sent
unfolding send fallback_reply
recover_into name subject rid =
    if subject == "" then none else send subject (fallback_reply rid name code_internal_error)

-- `Supports`
unfoldable pub supports : List ℤ → ℤ → Bool
supports [] v = false
supports (known ∷ versions) v = if beq_ℤ known v then true else supports versions v

abbrev pub is_some : {A : Type 0} → Option A → Bool
is_some none = false
is_some (some a) = true

-- `&queue.Task{Req: req, Reply: msg.Reply}`
abbrev pub new_task : Request → String → Task
new_task req reply = record {
  req = req;
  reply = reply;
  personal = false;
  fill = 0;
  enqueued = pos 0;
}

-- `req.Phase` is one of the three.
abbrev pub known_phase : String → Bool
known_phase phase = phase == phase_request || phase == phase_response || phase == phase_frame

-- `receive` behind `Parse`.
abbrev pub receive_parsed : String → List ℤ → String → Request → Result Request → Received
receive_parsed name versions reply sent (err e) =
    answered (send reply (fallback_reply sent.rid name code_malformed_request))
receive_parsed name versions reply sent (ok req) =
    if not (supports versions req.v)
    then answered (send reply (record (error_reply req code_unsupported_version) { v = pos 2 }))
    else if is_some req.release
    then ignored
    else if not (known_phase req.phase)
    then answered (send reply (error_reply req code_phase_not_supported))
    else submitted (new_task req reply)

abbrev pub receive_payload : String → List ℤ → String → Payload → Received
receive_payload name versions reply (garbled rid) =
    answered (send reply (fallback_reply rid name code_malformed_request))
receive_payload name versions reply (decoded req) =
    receive_parsed name versions reply req (parse req)

-- `receive`
unfoldable pub receive : String → List ℤ → Message → Received
unfolding send parse fallback_reply supports error_reply
receive name versions msg = receive_payload name versions msg.reply msg.payload

-- `reply.Cache = protocol.Bool(false)`
abbrev pub uncached : {F : Type 0} → Option (Handled F) → Option (Handled F)
uncached none = none
uncached (some out) = some (record out { reply = record (out.reply) { cache = some false } })

module _ {F : Type 0} ⦃fl : Float64 F⦄ where
  -- The handler of a phase.
  abbrev pub phase_handler :
      Env F → Request → Profile F → Snapshot F → Ask → ℤ → BucketStore F → F → Option (Handled F)
  phase_handler env req p snap ask fill bkt t =
      if req.phase == phase_response
      then measure_handler env req p snap ask bkt t
      else if req.phase == phase_frame
      then uncached (frame_handler env req p snap ask bkt t)
      else some (judge_handler env req p snap ask fill bkt t)

  abbrev pub inspect_profile :
      Env F → Task → Snapshot F → BucketStore F → F → Option (Profile F) → Option (Handled F)
  inspect_profile env task snap bkt t none =
      some (answer bkt (error_reply task.req code_unknown_profile))
  inspect_profile env task snap bkt t (some p) =
      if p.mode == "off"
      then some (answer bkt (plain task.req verdict_allow code_profile_off))
      else if not (phase_enabled p task.req.phase)
      then some (answer bkt (plain task.req verdict_allow code_phase_disabled))
      else phase_handler env task.req p snap
          (evaluate_prior task.req.prior (some p) snap.counters task.req.phase) (pos task.fill) bkt
          t

  -- Without a snapshot no profile is found.
  abbrev pub inspect_in :
      Env F → Task → BucketStore F → F → Option (Snapshot F) → Option (Handled F)
  inspect_in env task bkt t none = some (answer bkt (error_reply task.req code_unknown_profile))
  inspect_in env task bkt t (some snap) =
      inspect_profile env task snap bkt t (profile_of (some snap) task.req.profile)

  -- `inspect`
  unfoldable pub inspect : Env F → Task → BucketStore F → F → Option (Handled F)
  unfolding profile_of phase_enabled evaluate_prior judge_handler measure_handler frame_handler
      plain error_reply
  inspect env task bkt t = inspect_in env task bkt t env.snapshot

  abbrev pub overload_profile : Task → String → Option (Profile F) → Fire.Fired F
  overload_profile task shed none = nothing
  overload_profile task shed (some p) =
      if p.mode == "off"
      then nothing
      else fire_overload p.request.outcomes (pos task.fill) true task.req.client_ip shed

  -- `overloadOnShed` before it publishes.
  unfoldable pub overload_on_shed : Env F → Task → String → Fire.Fired F
  unfolding profile_of fire_overload
  overload_on_shed env task shed =
      if not (shed == reason_queue_limit) || not (task.req.phase == phase_request)
      then nothing
      else overload_profile task shed (profile_of env.snapshot task.req.profile)

  abbrev pub evaluated : Env F → Task → BucketStore F → Option (Handled F) → Evaluated F
  evaluated env task bkt none = record {
    sent = recover_into env.name task.reply task.req.rid;
    buckets = bkt;
    writes = [];
  }
  evaluated env task bkt (some out) = record {
    sent = send task.reply out.reply;
    buckets = out.buckets;
    writes = out.writes;
  }

  -- `evaluate`
  unfoldable pub evaluate : Env F → Task → String → BucketStore F → F → Evaluated F
  unfolding shed_reply overload_on_shed publish send recover_into inspect
  evaluate env task shed bkt t =
      let fired = overload_on_shed env task shed in
      let r = shed_reply task.req shed in
      if shed == "" then evaluated env task bkt (inspect env task bkt t) else record {
        sent =
            send task.reply
              (if is_empty fired.actions then r else record r { actions = fired.actions });
        buckets = bkt;
        writes = (publish env fired.bans).0;
      }
