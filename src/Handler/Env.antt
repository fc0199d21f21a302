-- ===== src/Handler/Env.antt =====
-- cmd/inspector/handler.go and lists.go: what the handlers call. The decoder of the headers, SHA-256
-- with the hexadecimal printing, the resolver, the publisher of list writes and `regexp` are
-- parameters. Logs and audit details are not modelled, and neither is the context of a call.
use placitum_counter.Prelude.{
  Bool, List, Option, Result, String, [], any, codes, err, if◌then◌else◌, is_empty, none, not, ok,
  pos, some, ℕ, ℤ, ◌++◌, ◌==◌, ◌||◌, ◌∷◌,
}
use placitum_counter.Prelude.Float.{Float64}
use placitum_counter.Protocol.{Request}
use placitum_counter.Protocol.Replies.{Reply, new_reply}
use placitum_counter.Config.Types.{Profile, Counters, MeasureRule, JudgeRule, Outcome, OutcomeIf}
use placitum_counter.Config.Outcome.{on_bucket}
use placitum_counter.Config.Counters.{kind}
use placitum_counter.Config.Snapshot.{Snapshot}
use placitum_counter.Buckets.{Tiers, Ref, Charge, Level, tier_of, same_ref}
use placitum_counter.Decide.{LevelLookup}
use placitum_counter.Decide.Fire.{Ban}
use placitum_counter.Decide.Prior.{NoteCharge}
use placitum_counter.Body.{Body, Loader, load, available, failed}
use placitum_counter.Measure.{Value}
use placitum_counter.Subjects.{Header, SubjectRef, SubjectKeys, has_configurable, header_named, key}

-- What `AddMany` is called with.
pub record ListWrite : Type 0 where
  pub dataset : String
  pub values : List String
  pub ttl : ℤ
  pub reason : String

-- The handler's fields that do not change, with the parameters. `resolver` gives the network
-- and the router of an address, `geo_write` what a list write of a kind is to hold for an address, for
-- a nil resolver too. `networked` is `netinfo.Networked`,
-- and `lists` tells whether there is a publisher.
pub record Env (F : Type 0) : Type 0 where
  pub name : String
  pub versions : List ℤ
  pub snapshot : Option (Snapshot F)
  pub loader : Loader
  pub resolver : Option (String → String × String)
  pub geo_write : String → String → Result (List String)
  pub lists : Bool
  pub networked : String → Bool
  pub decode_headers : List ℕ → Option (List Header)
  pub sha256 : List ℕ → List ℕ
  pub hex : List ℕ → String
  pub find_all : String → List ℕ → ℕ

abbrev pub code_unknown_profile : String
code_unknown_profile = "COUNTER_UNKNOWN_PROFILE"

abbrev pub code_skipped : String
code_skipped = "COUNTER_SKIPPED"

abbrev pub code_phase_not_supported : String
code_phase_not_supported = "COUNTER_PHASE_NOT_SUPPORTED"

abbrev pub code_phase_disabled : String
code_phase_disabled = "COUNTER_PHASE_DISABLED"

abbrev pub code_profile_off : String
code_profile_off = "COUNTER_PROFILE_OFF"

abbrev pub code_buckets_unavailable : String
code_buckets_unavailable = "COUNTER_BUCKETS_UNAVAILABLE"

abbrev pub code_store_unavailable : String
code_store_unavailable = "COUNTER_STORE_UNAVAILABLE"

abbrev pub code_geo_unavailable : String
code_geo_unavailable = "COUNTER_GEO_UNAVAILABLE"

abbrev pub code_malformed_request : String
code_malformed_request = "COUNTER_MALFORMED_REQUEST"

abbrev pub code_unsupported_version : String
code_unsupported_version = "COUNTER_UNSUPPORTED_VERSION"

-- `plain`
unfoldable pub plain : Request → String → String → Reply
unfolding new_reply
plain req verdict code = record (new_reply req verdict) {
  reason = some (record { code = code; cls = "" });
}

-- `headers`
abbrev pub headers_in : (List ℕ → Option (List Header)) → Body → List Header
headers_in decode b =
    if not (available b) || is_empty b.content
    then []
    else elim (decode b.content) [ none ↦ [] | some pairs ↦ pairs ]

-- `headerValue`
abbrev pub header_value : List Header → String → String
header_value pairs name = header_named pairs (codes name)

-- The round of `writeLists` for a write whose values are known.
abbrev pub add_many : Ban → List String → List ListWrite → List ListWrite
add_many b values writes =
    writes ++ (record { dataset = b.dataset; values = values; ttl = b.ttl; reason = b.reason } ∷ [])

-- `failed`, which keeps the first error.
abbrev pub first_error : Option String → String → Option String
first_error none e = some e
first_error (some e) later = some e

abbrev pub write_got :
    Ban → Result (List String) → List ListWrite × Option String → List ListWrite × Option String
write_got b (err e) (writes, bad) = (writes, first_error bad e)
write_got b (ok got) (writes, bad) =
    if is_empty got then (writes, bad) else (add_many b got writes, bad)

-- A round of `writeLists`; an error of `AddMany` is logged and changes nothing.
unfoldable pub write_ban :
    (String → Bool)
    → (String → String → Result (List String))
    → Ban
    → List ListWrite × Option String
    → List ListWrite × Option String
write_ban networked write b (writes, bad) =
    if networked b.write
    then write_got b (write b.write b.addr) (writes, bad)
    else (add_many b (b.addr ∷ []) writes, bad)

-- `writeLists`: the writes, and the first error of the resolver.
unfoldable pub write_lists :
    (String → Bool)
    → (String → String → Result (List String))
    → List Ban
    → List ListWrite × Option String
    → List ListWrite × Option String
unfolding write_ban
write_lists networked write [] out = out
write_lists networked write (b ∷ bs) out =
    write_lists networked write bs (write_ban networked write b out)

-- A nil resolver answers nothing.
abbrev pub resolve_by : Option (String → String × String) → String → String × String
resolve_by none client = ("", "")
resolve_by (some resolve) client = resolve client

abbrev pub rule_ref : {F : Type 0} → JudgeRule F → SubjectRef
rule_ref r = record { counter = r.counter; axis = r.axis }

abbrev pub bucket_ref : Option OutcomeIf → List SubjectRef
bucket_ref none = []
bucket_ref (some b) = record { counter = b.counter; axis = b.axis } ∷ []

-- The references of the outcomes on buckets.
unfoldable pub outcome_refs : List Outcome → List SubjectRef
unfolding on_bucket
outcome_refs [] = []
outcome_refs (o ∷ os) =
    let rest = outcome_refs os in if on_bucket o then bucket_ref o.bucket ++ rest else rest

abbrev pub note_ref : NoteCharge → SubjectRef
note_ref n = record { counter = n.counter; axis = n.axis }

abbrev pub read_of : String → String → Option String → List Ref
read_of counter axis none = []
read_of counter axis (some k) = record { kind = kind counter axis; key = k } ∷ []

module _ {F : Type 0} where
  -- `needsBody`
  unfoldable pub needs_body : List (MeasureRule F) → Bool
  needs_body rules = any (λ r. r.source == "regex_count") rules

  -- `phaseEnabled`
  unfoldable pub phase_enabled : Profile F → String → Bool
  phase_enabled p phase =
      if phase == "response"
      then p.response.enabled
      else if phase == "frame"
      then p.frame.enabled
      else p.request.enabled

  -- `publish`
  unfoldable pub publish : Env F → List Ban → List ListWrite × Option String
  unfolding write_lists
  publish env bans =
      if is_empty bans || not env.lists
      then ([], none)
      else write_lists env.networked env.geo_write bans ([], none)

  -- `headersFor`
  unfoldable pub headers_for : Env F → Request → List SubjectRef → Counters F → Result (List Header)
  unfolding has_configurable load
  headers_for env req refs counters =
      let loaded = load env.loader req.store.headers in
      if not (has_configurable counters refs)
      then ok []
      else if failed loaded
      then err "headers: %s"
      else ok (headers_in env.decode_headers loaded)

  -- The references of the buckets that rules and outcomes read.
  unfoldable pub reads_of : Counters F → SubjectKeys → List SubjectRef → List Ref
  unfolding key
  reads_of counters keys [] = []
  reads_of counters keys (r ∷ rs) =
      read_of r.counter r.axis (key counters keys r.counter r.axis) ++ reads_of counters keys rs

module _ {F : Type 0} ⦃fl : Float64 F⦄ where
  abbrev pub charge_to : F → String → String → Option String → List (Charge F)
  charge_to add counter axis none = []
  charge_to add counter axis (some k) =
      record { ref = record { kind = kind counter axis; key = k }; add = add } ∷ []

  -- `noteCharges`
  unfoldable pub note_charges :
      Counters F → SubjectKeys → Tiers F → List NoteCharge → List (Charge F)
  unfolding key tier_of
  note_charges counters keys tiers [] = []
  note_charges counters keys tiers (n ∷ ns) =
      charge_to
        (fl.mul (fl.div (fl.of_int n.percent) (fl.of_int (pos 100)))
          (tier_of tiers (kind n.counter n.axis)).max)
        n.counter n.axis (key counters keys n.counter n.axis)
      ++ note_charges counters keys tiers ns

  unfoldable pub axes_charges :
      Counters F → SubjectKeys → F → String → List String → List (Charge F)
  unfolding key
  axes_charges counters keys add counter [] = []
  axes_charges counters keys add counter (axis ∷ axes) =
      charge_to add counter axis (key counters keys counter axis)
      ++ axes_charges counters keys add counter axes

  -- The charges of the measured values.
  unfoldable pub value_charges : Counters F → SubjectKeys → List (Value F) → List (Charge F)
  unfolding axes_charges
  value_charges counters keys [] = []
  value_charges counters keys (v ∷ vs) =
      axes_charges counters keys v.amount v.counter v.axes ++ value_charges counters keys vs

  -- The entry of `levels` for a reference: that of its last level, else 0.
  unfoldable pub percent_at : Ref → F → List (Level F) → F
  unfolding same_ref
  percent_at r percent [] = percent
  percent_at r percent (l ∷ ls) = percent_at r (if same_ref l.ref r then l.percent else percent) ls

  abbrev pub looked_up : List (Level F) → String → String → Option String → Option (F × String)
  looked_up levels counter axis none = none
  looked_up levels counter axis (some k) =
      some (percent_at (record { kind = kind counter axis; key = k }) (fl.of_int (pos 0)) levels, k)

  -- `lookup`
  unfoldable pub lookup_in : Counters F → SubjectKeys → List (Level F) → LevelLookup F
  unfolding key percent_at
  lookup_in counters keys levels counter axis =
      looked_up levels counter axis (key counters keys counter axis)
