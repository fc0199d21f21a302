-- ===== src/Handler/Framed.antt =====
-- cmd/inspector/frame.go: `frame`, whole. Logs and audit details are not modelled. A panic of
-- `LoadMany` or `Run` is `none`.
use placitum_counter.Prelude.{
  Bool, List, Option, Result, [], any, err, if◌then◌else◌, is_empty, map, none, ok, some, ◌++◌,
}
use placitum_counter.Prelude.Float.{Float64}
use placitum_counter.Protocol.{Request, verdict_allow}
use placitum_counter.Protocol.Replies.{error_reply}
use placitum_counter.Config.Types.{Profile, Counters}
use placitum_counter.Config.Snapshot.{Snapshot}
use placitum_counter.Buckets.{Level}
use placitum_counter.Buckets.Store.{BucketStore, apply_store}
use placitum_counter.Decide.Prior.{Ask}
use placitum_counter.Body.{Body, load_many, failed, no_body}
use placitum_counter.Measure
use placitum_counter.Measure.{Value, run}
use placitum_counter.Subjects.{Header, SubjectKeys, has_configurable, subjects_of}
use placitum_counter.Handler.Frame.{frame_reply}
use placitum_counter.Handler.Env.{
  Env, plain, code_skipped, code_geo_unavailable, code_store_unavailable, code_buckets_unavailable,
  headers_in, resolve_by, rule_ref, outcome_refs, needs_body, publish, reads_of, note_charges,
  value_charges, lookup_in,
}
use placitum_counter.Handler.Inputs.{
  Handled, unconfigured, body_at, answer, frame_refs, published, frame_input, frame_locs,
}

module _ {F : Type 0} ⦃fl : Float64 F⦄ where
  -- `frame` from the answer of `Apply` on.
  abbrev pub framed :
      Env F
      → Request
      → Profile F
      → Counters F
      → Ask
      → SubjectKeys
      → Result (List (Level F)) × BucketStore F
      → Handled F
  framed env req p counters ask keys (err e, bkt) =
      answer bkt (error_reply req code_buckets_unavailable)
  framed env req p counters ask keys (ok levels, bkt) =
      let (r, fired, rows) = frame_reply p (lookup_in counters keys levels) req ask.percent in
      if ask.skip
      then answer bkt (plain req verdict_allow code_skipped)
      else published req bkt r (publish env fired.bans)

  -- `frame` from the measured values on.
  abbrev pub framed_with :
      Env F
      → Request
      → Profile F
      → Snapshot F
      → Ask
      → BucketStore F
      → F
      → List Header
      → List (Value F)
      → Handled F
  framed_with env req p snap ask bkt t headers values =
      let counters = snap.counters in
      let keys =
        subjects_of counters env.sha256 env.hex (resolve_by env.resolver)
          (frame_refs p counters ask) req.client_ip headers req.sessions req.conn_id in
      let charges =
        value_charges counters keys values ++ note_charges counters keys snap.tiers ask.notes in
      let reads =
        reads_of counters keys (map rule_ref p.frame.judge ++ outcome_refs p.frame.outcomes) in
      framed env req p counters ask keys (apply_store bkt snap.tiers charges reads t)

  abbrev pub framed_run :
      Env F
      → Request
      → Profile F
      → Snapshot F
      → Ask
      → BucketStore F
      → F
      → List Header
      → Option (List (Value F) × List (Measure.Fired F))
      → Option (Handled F)
  framed_run env req p snap ask bkt t headers none = none
  framed_run env req p snap ask bkt t headers (some (values, rows)) =
      some (framed_with env req p snap ask bkt t headers values)

  abbrev pub framed_bodies :
      Env F
      → Request
      → Profile F
      → Snapshot F
      → Ask
      → BucketStore F
      → F
      → Bool
      → Bool
      → Option (List Body)
      → Option (Handled F)
  framed_bodies env req p snap ask bkt t want_headers want_body none = none
  framed_bodies env req p snap ask bkt t want_headers want_body (some got) =
      let headers = if want_headers then headers_in env.decode_headers (body_at 0 got) else [] in
      let b = if want_body then body_at (if want_headers then 1 else 0) got else no_body in
      if any failed got
      then some (answer bkt (error_reply req code_store_unavailable))
      else framed_run env req p snap ask bkt t headers
          (run env.find_all p.frame.measure snap.counters (frame_input req b))

  -- `frame`; without locators nothing is loaded.
  unfoldable pub frame_handler :
      Env F → Request → Profile F → Snapshot F → Ask → BucketStore F → F → Option (Handled F)
  unfolding load_many run needs_body frame_input subjects_of value_charges note_charges apply_store
      reads_of frame_refs has_configurable frame_reply plain
  frame_handler env req p snap ask bkt t =
      let refs = frame_refs p snap.counters ask in
      let want_body = needs_body p.frame.measure in
      let want_headers = has_configurable snap.counters refs in
      let locs = frame_locs req want_headers want_body in
      if unconfigured env refs
      then some (answer bkt (error_reply req code_geo_unavailable))
      else framed_bodies env req p snap ask bkt t want_headers want_body
          (if is_empty locs then some [] else load_many env.loader locs)
