-- ===== src/Handler/Receipt.antt =====
-- cmd/inspector/handler.go: the outcomes of `receive`.
use placitum_counter.Prelude.{
  >>-eq-ok, Bool, Bool-cases, IsOk, List, Option, Result, String, ap, err, fail_if, false, inl, inr,
  none, ok, ok_injective, pos, refl, some, subst, sym, true, ℤ, ◌>>◌, ◌∙◌, ◌≡◌, ◌≢◌, ◌⊎◌,
}
use placitum_counter.Protocol.{Request, verdict_error}
use placitum_counter.Protocol.{Release}
use placitum_counter.Protocol.Parsed.{parse-IsValidRequest}
use placitum_counter.Protocol.Replies.{
  check_release, check_store, Reply, parse, marshal, new_reply, error_reply, fallback_reply,
}
use placitum_counter.Handler.Env.{code_malformed_request, code_unsupported_version}
use placitum_counter.Handler.Dispatch.{
  garbled, decoded, answered, ignored, submitted, Payload, Message, Received, supports, is_some,
  send, receive, receive_parsed, receive_payload,
}
use placitum_counter.Handler.Sent.{fallback-IsOk, ne-eq-false}

-- The `rid` of a message.
abbrev pub rid_of : Payload → String
rid_of (garbled rid) = rid
rid_of (decoded req) = req.rid

-- A payload that the decoder or `Parse` refuses.
abbrev pub IsMalformed : Payload → Type 0
IsMalformed (garbled rid) = Unit
IsMalformed (decoded req) = ¬ IsOk (parse req)

-- A request that `Parse` accepts, of a version that is not supported.
abbrev pub IsUnsupported : List ℤ → Payload → Type 0
IsUnsupported versions (garbled rid) = ⊥
IsUnsupported versions (decoded req) = IsOk (parse req) × (supports versions req.v ≡ false)

-- The reply to a message that is refused: version 2, and the code for what is wrong with the message.
pub record IsRefusal (versions : List ℤ) (msg : Message) (r : Reply) : Type 0 where
  pub is_error : r.verdict ≡ verdict_error
  pub has_version : r.v ≡ pos 2
  pub has_rid : r.rid ≡ rid_of msg.payload
  pub has_cause :
      ((r.reason ≡ some (record { code = "COUNTER_MALFORMED_REQUEST"; cls = "" }))
        × IsMalformed msg.payload)
      ⊎ ((r.reason ≡ some (record { code = "COUNTER_UNSUPPORTED_VERSION"; cls = "" }))
          × IsUnsupported versions msg.payload)

-- What `receive` may do with a message: refuse it with one reply, ignore a release, or submit the
-- task of a request that `Parse` accepts, of a version that is supported.
abbrev pub IsReceived : List ℤ → Message → Received → Type 0
IsReceived versions msg (answered o) =
    (r : Reply) × (o ≡ some (msg.reply, r)) × IsRefusal versions msg r
IsReceived versions msg ignored =
    (req : Request) × (msg.payload ≡ decoded req)
    × IsOk (parse req)
    × (supports versions req.v ≡ true)
    × (is_some req.release ≡ true)
IsReceived versions msg (submitted t) =
    (msg.payload ≡ decoded t.req)
    × (t.reply ≡ msg.reply)
    × IsOk (parse t.req)
    × (supports versions t.req.v ≡ true)
    × (is_some t.req.release ≡ false)

guard-eq-ok :
    (b : Bool) (e : String) (k : Result Request) (q : Request)
    → (fail_if b e >> k) ≡ ok q
    → k ≡ ok q
guard-eq-ok b e k q h = (>>-eq-ok (fail_if b e) k q h).1

check_release-same : (r q : Request) (o : Option Release) → check_release r o ≡ ok q → r ≡ q
check_release-same r q none h =
    let a = guard-eq-ok _ _ _ q h in
    let b = >>-eq-ok (check_store r.store) _ q a in
    let c = >>-eq-ok (check_store r.request_store) _ q b.1 in ok_injective r q c.1
check_release-same r q (some release) h = ok_injective r q (guard-eq-ok _ _ _ q h)

parse-same : (r q : Request) → parse r ≡ ok q → r ≡ q
unfolding parse
parse-same r q h =
    let v = parse-IsValidRequest r (subst IsOk (sym h) tt) in
    let reduced : parse r ≡ check_release r r.release =
      rw (v.rid, v.version, v.inspector, v.phase) refl in
    check_release-same r q r.release (sym reduced ∙ h)

module _ (name : String) (versions : List ℤ) (msg : Message) (some_subject : msg.reply ≢ "") where
  refuse :
      (r : Reply)
      → marshal r ≡ ok r
      → IsRefusal versions msg r
      → IsReceived versions msg (answered (send msg.reply r))
  unfolding send
  refuse r fine h =
      (r, (let named = ne-eq-false msg.reply "" some_subject in rw (named, fine) refl), h)

  malformed-IsReceived :
      (rid : String)
      → rid ≡ rid_of msg.payload
      → IsMalformed msg.payload
      → IsReceived versions msg
          (answered (send msg.reply (fallback_reply rid name code_malformed_request)))
  unfolding fallback_reply
  malformed-IsReceived rid same bad =
      refuse (fallback_reply rid name code_malformed_request)
        (fallback-IsOk rid name code_malformed_request)
        (record {
          is_error = refl;
          has_version = refl;
          has_rid = same;
          has_cause = inl (refl, bad);
        })

  unsupported-IsReceived :
      (req : Request)
      → msg.payload ≡ decoded req
      → IsUnsupported versions (decoded req)
      → IsReceived versions msg (
          answered
            (send msg.reply (record (error_reply req code_unsupported_version) { v = pos 2 })))
  unfolding error_reply new_reply
  unsupported-IsReceived req is_req old =
      refuse (record (error_reply req code_unsupported_version) { v = pos 2 })
        (unfold marshal in refl)
        (record {
          is_error = refl;
          has_version = refl;
          has_rid = ap rid_of (sym is_req);
          has_cause = inr (refl, subst (IsUnsupported versions) (sym is_req) old);
        })

  parsed-IsReceived :
      (sent : Request) (o : Result Request)
      → msg.payload ≡ decoded sent
      → parse sent ≡ o
      → IsReceived versions msg (receive_parsed name versions msg.reply sent o)
  parsed-IsReceived sent (err e) is_sent h =
      malformed-IsReceived sent.rid (ap rid_of (sym is_sent))
        (subst IsMalformed (sym is_sent) (λ k. subst IsOk h k))
  parsed-IsReceived sent (ok req) is_sent h =
      let same = parse-same sent req h in
      let accepted : IsOk (parse req) = subst (λ r. IsOk (parse r)) same (subst IsOk (sym h) tt) in
      let is_req : msg.payload ≡ decoded req = is_sent ∙ ap decoded same in
      elim (Bool-cases (supports versions req.v)) [
        | inr old ↦ rw old (unsupported-IsReceived req is_req (accepted, old))
        | inl supported ↦ elim (Bool-cases (is_some req.release)) [
          | inl release ↦ rw (supported, release) (req, is_req, accepted, supported, release)
          | inr plain_request ↦
              rw (supported, plain_request, (parse-IsValidRequest req accepted).phase)
                (is_req, refl, accepted, supported, plain_request)
        ]
      ]

  payload-IsReceived :
      (payload : Payload)
      → msg.payload ≡ payload
      → IsReceived versions msg (receive_payload name versions msg.reply payload)
  payload-IsReceived (garbled rid) h =
      malformed-IsReceived rid (ap rid_of (sym h)) (subst IsMalformed (sym h) tt)
  payload-IsReceived (decoded req) h = parsed-IsReceived req (parse req) h refl

  -- A message with a reply subject is refused, ignored or submitted. A refusal is one reply with its
  -- `rid` and version 2: its code is `COUNTER_MALFORMED_REQUEST` for a message that the decoder or
  -- `Parse` refuses, and `COUNTER_UNSUPPORTED_VERSION` for a request that `Parse` accepts, of a version
  -- that is not supported. What is ignored is a release, and what is submitted is no release; both are
  -- requests that `Parse` accepts, of a supported version. So no message is refused for its
  -- phase behind `Parse`.
  pub receive-IsReceived : IsReceived versions msg (receive name versions msg)
  unfolding receive
  receive-IsReceived = payload-IsReceived msg.payload refl
