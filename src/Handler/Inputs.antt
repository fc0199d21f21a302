-- ===== src/Handler/Inputs.antt =====
-- cmd/inspector/handler.go and frame.go: what the handlers leave, and what `judge`, `measure` and
-- `frame` read: their references, locators and inputs of the measure rules.
use placitum_counter.Prelude.{
  Bool, List, Option, String, [], false, if◌then◌else◌, is_empty, map, none, pos, some, suc, true,
  zero, ℕ, ℤ, ◌&&◌, ◌++◌, ◌∷◌,
}
use placitum_counter.Protocol.{Request, Locator, Stream}
use placitum_counter.Protocol.Replies.{Reply, error_reply}
use placitum_counter.Config.Types.{Profile, Counters, MeasureRule}
use placitum_counter.Config.Counters.{axes_of}
use placitum_counter.Buckets.Store.{BucketStore}
use placitum_counter.Decide.Prior.{Ask}
use placitum_counter.Body.{Body, no_body}
use placitum_counter.Measure.{Input, Value}
use placitum_counter.Subjects.{SubjectRef, needs_resolver}
use placitum_counter.Handler.Env.{
  Env, ListWrite, code_geo_unavailable, headers_in, header_value, rule_ref, outcome_refs, note_ref,
}

-- What a handler leaves.
pub record Handled (F : Type 0) : Type 0 where
  pub reply : Reply
  pub buckets : BucketStore F
  pub writes : List ListWrite

-- Whether a reference needs a resolver that is not there.
abbrev pub unconfigured : {F : Type 0} → Env F → List SubjectRef → Bool
unconfigured env refs = needs_resolver refs && elim env.resolver [ none ↦ true | some r ↦ false ]

-- The frame's direction and opcode.
abbrev pub direction_of : Option Stream → String
direction_of none = ""
direction_of (some s) = s.direction

abbrev pub opcode_of : Option Stream → String
opcode_of none = ""
opcode_of (some s) = s.opcode

abbrev pub size_of : Option Locator → ℤ
size_of none = pos 0
size_of (some loc) = loc.size

abbrev pub status_of : Option ℤ → ℤ
status_of none = pos 0
status_of (some s) = s

-- An entry of the bodies that `LoadMany` gives; it gives one for each locator.
abbrev pub body_at : ℕ → List Body → Body
body_at n [] = no_body
body_at zero (b ∷ bs) = b
body_at (suc n) (b ∷ bs) = body_at n bs

-- The locators of `measure`.
abbrev pub response_locs : Request → Bool → List (Option Locator)
response_locs req want_body =
    req.store.headers ∷ req.request_store.headers ∷ (if want_body then req.store.body ∷ [] else [])

-- The locators of `frame`.
abbrev pub frame_locs : Request → Bool → Bool → List (Option Locator)
frame_locs req want_headers want_body =
    (if want_headers then req.request_store.headers ∷ [] else [])
    ++ (if want_body then req.store.body ∷ [] else [])

-- The `measure.Input` of `frame`; `b` is the body, where it is wanted.
unfoldable pub frame_input : Request → Body → Input
frame_input req b = record {
  method = "";
  status = pos 0;
  frame = true;
  direction = direction_of req.stream;
  opcode = opcode_of req.stream;
  content_type = "";
  body = b.content;
  body_truncated = b.truncated;
  body_size = size_of req.store.body;
}

module _ {F : Type 0} where
  abbrev pub answer : BucketStore F → Reply → Handled F
  answer bkt r = record { reply = r; buckets = bkt; writes = [] }

  -- The references of `judge`.
  unfoldable pub request_refs : Profile F → Ask → List SubjectRef
  unfolding outcome_refs
  request_refs p ask =
      map rule_ref p.request.judge ++ outcome_refs p.request.outcomes ++ map note_ref ask.notes

  abbrev measured_axes : Counters F → MeasureRule F → List String
  measured_axes counters m = if is_empty m.axes then axes_of counters m.counter else m.axes

  -- The references of the loop over `p.Frame.Measure`.
  unfoldable pub measure_refs : Counters F → List (MeasureRule F) → List SubjectRef
  unfolding axes_of
  measure_refs counters [] = []
  measure_refs counters (m ∷ ms) =
      map (λ axis. record { counter = m.counter; axis = axis }) (measured_axes counters m)
      ++ measure_refs counters ms

  -- The references of `frame`.
  unfoldable pub frame_refs : Profile F → Counters F → Ask → List SubjectRef
  unfolding outcome_refs measure_refs
  frame_refs p counters ask =
      map rule_ref p.frame.judge
      ++ outcome_refs p.frame.outcomes
      ++ map note_ref ask.notes
      ++ measure_refs counters p.frame.measure

  -- The references of `measure`.
  unfoldable pub value_refs : List (Value F) → Ask → List SubjectRef
  value_refs [] ask = map note_ref ask.notes
  value_refs (v ∷ vs) ask =
      map (λ axis. record { counter = v.counter; axis = axis }) v.axes ++ value_refs vs ask

  -- The end of `judge` and `frame`: an error of the resolver takes the place of the reply.
  abbrev pub published :
      Request → BucketStore F → Reply → List ListWrite × Option String → Handled F
  published req bkt r (writes, none) = record { reply = r; buckets = bkt; writes = writes }
  published req bkt r (writes, some e) = record {
    reply = error_reply req code_geo_unavailable;
    buckets = bkt;
    writes = writes;
  }

  -- The `measure.Input` of `measure`.
  unfoldable pub response_input : Env F → Request → Bool → List Body → Input
  response_input env req want_body got =
      let b = if want_body then body_at 2 got else no_body in
      record {
        method = req.method;
        status = status_of req.status;
        frame = false;
        direction = "";
        opcode = "";
        content_type = header_value (headers_in env.decode_headers (body_at 0 got)) "content-type";
        body = b.content;
        body_truncated = b.truncated;
        body_size = size_of req.store.body;
      }
