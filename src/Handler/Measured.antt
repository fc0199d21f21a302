-- ===== src/Handler/Measured.antt =====
-- cmd/inspector/handler.go: `measure`, whole. Logs and audit details are not modelled. A panic of
-- `LoadMany` or `Run` is `none`.
use placitum_counter.Prelude.{
  List, Option, Result, [], any, err, if◌then◌else◌, is_empty, none, ok, some, ◌&&◌, ◌++◌,
}
use placitum_counter.Prelude.Float.{Float64}
use placitum_counter.Protocol.{Request, verdict_allow}
use placitum_counter.Protocol.Replies.{error_reply}
use placitum_counter.Config.Types.{Profile}
use placitum_counter.Config.Snapshot.{Snapshot}
use placitum_counter.Buckets.{Level}
use placitum_counter.Buckets.Store.{BucketStore, apply_store}
use placitum_counter.Decide.Prior.{Ask}
use placitum_counter.Body.{Body, load_many, failed}
use placitum_counter.Measure
use placitum_counter.Measure.{Value, run}
use placitum_counter.Subjects.{subjects_of}
use placitum_counter.Handler.Frame.{code_measured}
use placitum_counter.Handler.Env.{
  Env, plain, code_geo_unavailable, code_store_unavailable, code_buckets_unavailable, headers_in,
  resolve_by, needs_body, note_charges, value_charges,
}
use placitum_counter.Handler.Inputs.{
  Handled, unconfigured, body_at, answer, value_refs, response_input, response_locs,
}

module _ {F : Type 0} ⦃fl : Float64 F⦄ where
  -- `measure` from the answer of `Apply` on.
  abbrev pub charged : Request → Result (List (Level F)) × BucketStore F → Handled F
  charged req (err e, bkt) = answer bkt (error_reply req code_buckets_unavailable)
  charged req (ok levels, bkt) = answer bkt (plain req verdict_allow code_measured)

  -- `measure` from the measured values on.
  abbrev pub measured_with :
      Env F
      → Request
      → Snapshot F
      → Ask
      → BucketStore F
      → F
      → List Body
      → List (Value F)
      → Handled F
  measured_with env req snap ask bkt t got values =
      let counters = snap.counters in
      let refs = value_refs values ask in
      let keys =
        subjects_of counters env.sha256 env.hex (resolve_by env.resolver) refs req.client_ip
          (headers_in env.decode_headers (body_at 1 got)) req.sessions "" in
      let charges =
        value_charges counters keys values ++ note_charges counters keys snap.tiers ask.notes in
      if is_empty values && is_empty ask.notes
      then answer bkt (record (plain req verdict_allow code_measured) { reason = none })
      else if unconfigured env refs
      then answer bkt (error_reply req code_geo_unavailable)
      else if failed (body_at 1 got)
      then answer bkt (error_reply req code_store_unavailable)
      else charged req (apply_store bkt snap.tiers charges [] t)

  abbrev pub measured_run :
      Env F
      → Request
      → Snapshot F
      → Ask
      → BucketStore F
      → F
      → List Body
      → Option (List (Value F) × List (Measure.Fired F))
      → Option (Handled F)
  measured_run env req snap ask bkt t got none = none
  measured_run env req snap ask bkt t got (some (values, rows)) =
      some (measured_with env req snap ask bkt t got values)

  abbrev pub measured_bodies :
      Env F
      → Request
      → Profile F
      → Snapshot F
      → Ask
      → BucketStore F
      → F
      → Option (List Body)
      → Option (Handled F)
  measured_bodies env req p snap ask bkt t none = none
  measured_bodies env req p snap ask bkt t (some got) =
      if any failed got
      then some (answer bkt (error_reply req code_store_unavailable))
      else measured_run env req snap ask bkt t got (
          run env.find_all p.response.measure snap.counters
            (response_input env req (needs_body p.response.measure) got))

  -- `measure`
  unfoldable pub measure_handler :
      Env F → Request → Profile F → Snapshot F → Ask → BucketStore F → F → Option (Handled F)
  unfolding load_many run needs_body response_input subjects_of value_charges note_charges
      apply_store plain
  measure_handler env req p snap ask bkt t =
      measured_bodies env req p snap ask bkt t
        (load_many env.loader (response_locs req (needs_body p.response.measure)))
