-- ===== src/Handler/Judge.antt =====
-- cmd/inspector/handler.go: `judge`, whole. Logs and audit details are not modelled.
use placitum_counter.Prelude.{List, Result, err, if◌then◌else◌, map, ok, ℤ, ◌++◌}
use placitum_counter.Prelude.Float.{Float64}
use placitum_counter.Protocol.{Request, verdict_allow}
use placitum_counter.Protocol.Replies.{error_reply}
use placitum_counter.Config.Types.{Profile, Counters}
use placitum_counter.Config.Snapshot.{Snapshot}
use placitum_counter.Buckets.{Level}
use placitum_counter.Buckets.Store.{BucketStore, apply_store}
use placitum_counter.Decide.Prior.{Ask}
use placitum_counter.Subjects.{Header, SubjectKeys, subjects_of}
use placitum_counter.Handler.{judge_reply}
use placitum_counter.Handler.Env.{
  Env, plain, code_skipped, code_geo_unavailable, code_store_unavailable, code_buckets_unavailable,
  resolve_by, rule_ref, outcome_refs, publish, headers_for, reads_of, note_charges, lookup_in,
}
use placitum_counter.Handler.Inputs.{Handled, unconfigured, answer, request_refs, published}

module _ {F : Type 0} ⦃fl : Float64 F⦄ where
  -- `judge` from the answer of `Apply` on.
  abbrev pub judged :
      Env F
      → Request
      → Profile F
      → Counters F
      → Ask
      → ℤ
      → SubjectKeys
      → Result (List (Level F)) × BucketStore F
      → Handled F
  judged env req p counters ask fill keys (err e, bkt) =
      answer bkt (error_reply req code_buckets_unavailable)
  judged env req p counters ask fill keys (ok levels, bkt) =
      let (r, fired, rows) = judge_reply p (lookup_in counters keys levels) req ask.percent fill in
      published req bkt r (publish env fired.bans)

  -- `keys` of `judge`
  unfoldable pub judge_keys :
      Env F → Request → Profile F → Snapshot F → Ask → List Header → SubjectKeys
  unfolding subjects_of request_refs
  judge_keys env req p snap ask headers =
      subjects_of snap.counters env.sha256 env.hex (resolve_by env.resolver) (request_refs p ask)
        req.client_ip headers req.sessions ""

  -- The call of `Apply` in `judge`.
  unfoldable pub judge_apply :
      Env F
      → Request
      → Profile F
      → Snapshot F
      → Ask
      → BucketStore F
      → F
      → List Header
      → Result (List (Level F)) × BucketStore F
  unfolding judge_keys reads_of note_charges apply_store outcome_refs
  judge_apply env req p snap ask bkt t headers =
      let keys = judge_keys env req p snap ask headers in
      let reads =
        reads_of snap.counters keys
          (map rule_ref p.request.judge ++ outcome_refs p.request.outcomes) in
      let charges = note_charges snap.counters keys snap.tiers ask.notes in
      apply_store bkt snap.tiers charges reads t

  -- `judge` from the headers on.
  unfoldable pub judge_with :
      Env F
      → Request
      → Profile F
      → Snapshot F
      → Ask
      → ℤ
      → BucketStore F
      → F
      → Result (List Header)
      → Handled F
  unfolding judge_keys judge_apply judge_reply lookup_in publish
  judge_with env req p snap ask fill bkt t (err e) =
      answer bkt (error_reply req code_store_unavailable)
  judge_with env req p snap ask fill bkt t (ok headers) =
      judged env req p snap.counters ask fill (judge_keys env req p snap ask headers)
        (judge_apply env req p snap ask bkt t headers)

  -- `judge`; `t` is the time of the buckets.
  unfoldable pub judge_handler :
      Env F → Request → Profile F → Snapshot F → Ask → ℤ → BucketStore F → F → Handled F
  unfolding judge_with request_refs headers_for plain
  judge_handler env req p snap ask fill bkt t =
      let refs = request_refs p ask in
      if ask.skip
      then answer bkt (plain req verdict_allow code_skipped)
      else if unconfigured env refs
      then answer bkt (error_reply req code_geo_unavailable)
      else judge_with env req p snap ask fill bkt t (headers_for env req refs snap.counters)
