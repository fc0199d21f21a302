-- ===== src/Subjects/Keyed.antt =====
-- cmd/inspector/subjects.go: `subjectsOf` with `subjectKeys.key`, against the key of one reference.
use Prim.Native.String
use mathlib.Core.Bool.{true≢false}
use placitum_counter.Prelude.{
  All, All-imp, Bool-cases, List, Option, String, [], ap, codes, codes-append, contains, eq_iff,
  false, foldl, if◌then◌else◌, inl, inr, map_get, none, not, refl, subst, sym, text_eq, true, ℕ,
  ◌&&◌, ◌==◌, ◌∙◌, ◌≡◌,
}
use placitum_counter.Protocol.{Session}
use placitum_counter.Config.Types.{Counters}
use placitum_counter.Config.Counters.{sess_cookie, user_from, cut}
use placitum_counter.Buckets.{ip_key}
use placitum_counter.Subjects.Noted.{covers, all_covered}
use placitum_counter.Subjects.Sources.{
  when, hashed, source-found, axes-get_ip, axes-get_conn, axes-get_net, axes-get_router,
  axes-get_other,
}
use placitum_counter.Subjects.{
  Header, SubjectRef, Needs, no_needs, cookie_source, cookie_value, source_value, kind_value,
  present, subject_hash, fill_sources, fill_axes, note_need, subjects_of, key,
}

module _ (sha256 : List ℕ → List ℕ) (hex : List ℕ → String) (headers : List Header)
    (sessions : List Session) where
  unfoldable pub direct_key :
      {F : Type 0}
      → Counters F
      → (String → String × String)
      → String
      → String
      → String
      → String
      → Option String
  unfolding present subject_hash source_value
  direct_key counters resolve client conn counter axis =
      if axis == "ip"
      then when (present client) (ip_key client)
      else if axis == "asn_net"
      then when (present client && present (resolve client).0) (resolve client).0
      else if axis == "asn_router"
      then when (present client && present (resolve client).1) (resolve client).1
      else if axis == "conn"
      then when (present conn) (String.◌++◌ "conn:" conn)
      else if axis == "sess"
      then hashed sha256 hex headers sessions
          (cookie_value headers (codes (sess_cookie counters counter)))
      else if axis == "user"
      then (if user_from counters counter == ""
          then none
          else hashed sha256 hex headers sessions
              (source_value headers sessions (user_from counters counter)))
      else none

  cookie_source-value :
      (cookie : String)
      → source_value headers sessions (cookie_source cookie) ≡ cookie_value headers (codes cookie)
  unfolding source_value kind_value cut text_eq
  cookie_source-value cookie = rw (codes-append "cookie:" cookie) refl

-- Whether an axis is one of the six, for a predicate that is to be proved at every axis.
by_axes :
    (P : String → Type 0)
    → P "ip"
    → P "asn_net"
    → P "asn_router"
    → P "conn"
    → P "sess"
    → P "user"
    → ((axis : String)
        → (axis == "ip") ≡ false
        → (axis == "asn_net") ≡ false
        → (axis == "asn_router") ≡ false
        → (axis == "conn") ≡ false
        → (axis == "sess") ≡ false
        → (axis == "user") ≡ false
        → P axis)
    → (axis : String) → P axis
by_axes P ip net router conn sess user other axis = elim (Bool-cases (axis == "ip")) [
  | inl a ↦ at "ip" a ip
  | inr na ↦ elim (Bool-cases (axis == "asn_net")) [
    | inl b ↦ at "asn_net" b net
    | inr nb ↦ elim (Bool-cases (axis == "asn_router")) [
      | inl c ↦ at "asn_router" c router
      | inr nc ↦ elim (Bool-cases (axis == "conn")) [
        | inl d ↦ at "conn" d conn
        | inr nd ↦ elim (Bool-cases (axis == "sess")) [
          | inl e ↦ at "sess" e sess
          | inr ne ↦ elim (Bool-cases (axis == "user")) [
            | inl f ↦ at "user" f user
            | inr nf ↦ other axis na nb nc nd ne nf
          ]
        ]
      ]
    ]
  ]
]
  where
    at : (k : String) → (axis == k) ≡ true → P k → P axis
    at k same h = subst P (sym ((eq_iff axis k).0 same)) h

eq_sym : (s t : String) → (s == t) ≡ false → (t == s) ≡ false
eq_sym s t h = elim (Bool-cases (t == s)) [
  | inl same ↦ absurd (true≢false (sym ((eq_iff s t).1 (sym ((eq_iff t s).0 same))) ∙ h))
  | inr other ↦ other
]

module _ {F : Type 0} (counters : Counters F) (sha256 : List ℕ → List ℕ) (hex : List ℕ → String)
    (resolve : String → String × String) (client : String) (headers : List Header)
    (sessions : List Session) (conn : String) where
  user_key :
      (n : Needs) (counter : String)
      → (if present (user_from counters counter)
          then contains n.sources (user_from counters counter)
          else true)
        ≡ true
      → (if user_from counters counter == ""
          then none
          else map_get
              (user_from counters counter)
              (fill_sources sha256 hex headers sessions n.sources []))
        ≡ (if user_from counters counter == ""
            then none
            else hashed sha256 hex headers sessions
                (source_value headers sessions (user_from counters counter)))
  unfolding present
  user_key n counter h = elim (Bool-cases (user_from counters counter == "")) [
    | inl bare ↦ rw bare refl
    | inr named ↦ rw named (
        source-found sha256 hex headers sessions n.sources (user_from counters counter) (
          subst
            (λ b. (if not b then contains n.sources (user_from counters counter) else true) ≡ true)
            named h))
  ]

  covered-key :
      (n : Needs) (counter axis : String)
      → covers counters n (record { counter = counter; axis = axis }) ≡ true
      → key counters
          (record {
            by_axis = fill_axes n client conn (resolve client);
            by_source = fill_sources sha256 hex headers sessions n.sources [];
          })
          counter
          axis
        ≡ direct_key sha256 hex headers sessions counters resolve client conn counter axis
  unfolding key direct_key covers
  covered-key n counter axis =
      by_axes
        (λ a.
          covers counters n (record { counter = counter; axis = a }) ≡ true
          → key counters
              (record {
                by_axis = fill_axes n client conn (resolve client);
                by_source = fill_sources sha256 hex headers sessions n.sources [];
              })
              counter a
            ≡ direct_key sha256 hex headers sessions counters resolve client conn counter a)
        (λ h. axes-get_ip n client conn (resolve client) h)
        (λ h. axes-get_net n client conn (resolve client) h)
        (λ h. axes-get_router n client conn (resolve client) h)
        (λ h. axes-get_conn n client conn (resolve client) h)
        (λ h.
          source-found sha256 hex headers sessions n.sources
            (cookie_source (sess_cookie counters counter)) h
          ∙ ap (hashed sha256 hex headers sessions)
              (cookie_source-value sha256 hex headers sessions (sess_cookie counters counter)))
        (λ h. user_key n counter h)
        (λ a na nb nc nd ne nf h.
          rw (na, nb, nc, nd, ne, nf)
            (axes-get_other n client conn (resolve client) a (eq_sym a "ip" na)
              (eq_sym a "asn_net" nb) (eq_sym a "asn_router" nc) (eq_sym a "conn" nd)))
        axis

  -- Every reference that `subjectsOf` was called with has the key that it has alone.
  pub key-subjects_of :
      (refs : List SubjectRef)
      → All
          (λ r.
            key counters
              (subjects_of counters sha256 hex resolve refs client headers sessions conn)
              r.counter
              r.axis
            ≡ direct_key sha256 hex headers sessions counters resolve client conn r.counter r.axis)
          refs
  unfolding subjects_of
  key-subjects_of refs =
      All-imp _ _ (λ r h. covered-key (foldl (note_need counters) no_needs refs) r.counter r.axis h)
        refs (all_covered counters refs no_needs)
