-- ===== src/Handler/Sent.antt =====
-- cmd/inspector/handler.go: what `send` and `recoverInto` publish.
use placitum_counter.Prelude.{
  Bool-cases, IsOk, String, ap, eq_iff, err, false, if◌then◌else◌, inl, inr, none, ok, refl, some,
  subst, sym, ◌==◌, ◌∙◌, ◌≡◌, ◌≢◌, ◌⊎◌,
}
use placitum_counter.Protocol.{verdict_error}
use placitum_counter.Protocol.Replies.{Reply, marshal, fallback_reply, score_out}
use placitum_counter.Handler.{code_internal_error}
use placitum_counter.Handler.Dispatch.{Sent, sent_ok, send, recover_into}

-- One reply that `Marshal` accepts goes to the subject, with the `rid`.
abbrev pub IsAnswer : String → String → Sent → Type 0
IsAnswer subject rid o = (r : Reply) × (o ≡ some (subject, r)) × IsOk (marshal r) × (r.rid ≡ rid)

pub ne-eq-false : (s t : String) → s ≢ t → (s == t) ≡ false
ne-eq-false s t h = elim (Bool-cases (s == t)) [
  | inl same ↦ absurd (h ((eq_iff s t).0 same))
  | inr other ↦ other
]

pub fallback-IsOk :
    (rid name code : String)
    → marshal (fallback_reply rid name code) ≡ ok (fallback_reply rid name code)
unfolding marshal fallback_reply
fallback-IsOk rid name code = refl

marshal-cases : (r : Reply) → (marshal r ≡ ok r) ⊎ ((e : String) × (marshal r ≡ err e))
unfolding marshal
marshal-cases r = elim (Bool-cases (score_out r.score)) [
  | inl out ↦ inr ("%w: %d", rw out refl)
  | inr fine ↦ inl (rw fine refl)
]

-- An error with the code of an internal error and the `rid` of a reply goes to the subject.
abbrev pub Replaced : String → Reply → Sent → Type 0
Replaced subject r o =
    (f : Reply) × (o ≡ some (subject, f))
    × IsOk (marshal f)
    × (f.rid ≡ r.rid)
    × (f.verdict ≡ verdict_error)
    × (f.reason ≡ some (record { code = "COUNTER_INTERNAL_ERROR"; cls = "" }))

-- What `send` publishes for a reply: the reply, if `Marshal` accepts it, and an error if not.
abbrev pub IsSent : String → Reply → Sent → Type 0
IsSent subject r o =
    (IsOk (marshal r) × (o ≡ some (subject, r))) ⊎ (¬ IsOk (marshal r) × Replaced subject r o)

-- `send` to a subject publishes one reply that `Marshal` accepts: the reply itself if `Marshal`
-- accepts it, else an error with the code `COUNTER_INTERNAL_ERROR` and the same `rid`.
pub send-IsSent : (subject : String) (r : Reply) → subject ≢ "" → IsSent subject r (send subject r)
unfolding send
send-IsSent subject r some_subject =
    let named = ne-eq-false subject "" some_subject in
    elim (marshal-cases r) [
      | inl fine ↦ inl (subst IsOk (sym fine) tt, rw (named, fine) refl)
      | inr bad ↦
          let f = fallback_reply r.rid r.inspector code_internal_error in
          let accepted = fallback-IsOk r.rid r.inspector code_internal_error in
          let replaced : Replaced subject r (sent_ok subject (ok f)) = (
            f,
            refl,
            subst IsOk (sym accepted) tt,
            (unfold fallback_reply in refl),
            (unfold fallback_reply in refl),
            (unfold fallback_reply in refl),
          ) in
          inr (
            (λ k. subst IsOk bad.1 k),
            rw (named, bad.1)
                (subst (Replaced subject r) (ap (sent_ok subject) (sym accepted)) replaced),
          )
    ]

IsSent-IsAnswer :
    (subject : String) (r : Reply) (o : Sent) → IsSent subject r o → IsAnswer subject r.rid o
IsSent-IsAnswer subject r o (inl kept) = (r, kept.1, kept.0, refl)
IsSent-IsAnswer subject r o (inr replaced) = let f = replaced.1 in (f.0, f.1, f.2, f.3)

pub send_answers :
    (subject : String) (r : Reply) → subject ≢ "" → IsAnswer subject r.rid (send subject r)
send_answers subject r some_subject =
    IsSent-IsAnswer subject r (send subject r) (send-IsSent subject r some_subject)

pub recover_into-IsAnswer :
    (name subject rid : String)
    → subject ≢ ""
    → IsAnswer subject rid (recover_into name subject rid)
unfolding recover_into
recover_into-IsAnswer name subject rid some_subject =
    let named = ne-eq-false subject "" some_subject in
    let f = fallback_reply rid name code_internal_error in
    let sent = send_answers subject f some_subject in
    (
      sent.0,
      ap (λ b. if b then none else send subject f) named ∙ sent.1,
      sent.2,
      sent.3 ∙ (unfold fallback_reply in refl),
    )
