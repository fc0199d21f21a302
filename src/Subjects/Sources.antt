-- ===== src/Subjects/Sources.antt =====
-- cmd/inspector/subjects.go: the maps that `subjectsOf` fills.
use Prim.Native.String
use placitum_counter.Prelude.{
  Bool, Bool-cases, List, Option, String, [], and_false, and_true, ap, contains, eq_iff, false,
  if◌then◌else◌, inl, inr, is_empty, map_get, map_get-map_put, none, not, or-true, refl, some, sym,
  true, ℕ, ◌&&◌, ◌==◌, ◌∙◌, ◌∷◌, ◌≡◌,
}
use placitum_counter.Protocol.{Session}
use placitum_counter.Buckets.{ip_key}
use placitum_counter.Subjects.{
  Header, Needs, source_value, put_if, present, subject_hash, fill_sources, fill_axes,
}

-- The key of one reference alone: what the request has for its axis, or nothing.
abbrev pub when : Bool → String → Option String
when b v = if b then some v else none

module _ (sha256 : List ℕ → List ℕ) (hex : List ℕ → String) (headers : List Header)
    (sessions : List Session) where
  abbrev pub hashed : List ℕ → Option String
  hashed v = when (not (is_empty v)) (subject_hash sha256 hex v)

map_get-put_if :
    (b : Bool) (k j v : String) (m : List (String × String))
    → map_get j (put_if b k v m) ≡ (if b && (k == j) then some v else map_get j m)
unfolding put_if
map_get-put_if true k j v m = map_get-map_put k j v m
map_get-put_if false k j v m = refl

twice :
    (c e : Bool) (x y : Option String)
    → (if c && e then x else (if e && true then x else y)) ≡ (if e then x else y)
twice true true x y = refl
twice true false x y = refl
twice false true x y = refl
twice false false x y = refl

once :
    (c e : Bool) (x z y : Option String)
    → (if c then x else (if e && false then z else y)) ≡ (if c then x else y)
once true e x z y = refl
once false true x z y = refl
once false false x z y = refl

module _ (sha256 : List ℕ → List ℕ) (hex : List ℕ → String) (headers : List Header)
    (sessions : List Session) where
  -- A source that was met has the hash of its value, where it has a value.
  fill_sources-get :
      (srcs : List String) (m : List (String × String)) (src : String)
      → map_get src (fill_sources sha256 hex headers sessions srcs m) ≡ (
          if contains srcs src && not (is_empty (source_value headers sessions src))
          then some (subject_hash sha256 hex (source_value headers sessions src))
          else map_get src m)
  unfolding fill_sources contains
  fill_sources-get [] m src = refl
  fill_sources-get (k ∷ ks) m src =
      let v = source_value headers sessions k in
      let here = not (is_empty v) in
      let put = map_get-put_if here k src (subject_hash sha256 hex v) m in
      fill_sources-get ks (put_if here k (subject_hash sha256 hex v) m) src
      ∙ elim (Bool-cases (k == src)) [
        | inl same ↦
            rw (put, same, sym ((eq_iff k src).0 same)) (twice (contains ks k) here _ (map_get k m))
        | inr other ↦
            rw (put, other)
              (once (contains ks src && not (is_empty (source_value headers sessions src))) here _ _
                (map_get src m))
      ]

  pub source-found :
      (srcs : List String) (src : String)
      → contains srcs src ≡ true
      → map_get src (fill_sources sha256 hex headers sessions srcs [])
        ≡ hashed sha256 hex headers sessions (source_value headers sessions src)
  unfolding map_get
  source-found srcs src h =
      fill_sources-get srcs [] src
      ∙ ap
          (λ b.
            if b && not (is_empty (source_value headers sessions src))
            then some (subject_hash sha256 hex (source_value headers sessions src))
            else none)
          h

ruleset puts = (map_get-put_if, and_false, and_true, or-true)

module _ (n : Needs) (client conn : String) (answer : String × String) where
  pub axes-get_ip :
      n.need_ip ≡ true
      → map_get "ip" (fill_axes n client conn answer) ≡ when (present client) (ip_key client)
  unfolding fill_axes map_get
  axes-get_ip h = simp (puts, h)

  pub axes-get_conn :
      n.need_conn ≡ true
      → map_get "conn" (fill_axes n client conn answer)
        ≡ when (present conn) (String.◌++◌ "conn:" conn)
  unfolding fill_axes map_get
  axes-get_conn h = simp (puts, h)

  pub axes-get_net :
      n.need_net ≡ true
      → map_get "asn_net" (fill_axes n client conn answer)
        ≡ when (present client && present answer.0) answer.0
  unfolding fill_axes map_get
  axes-get_net h = simp (puts, h)

  pub axes-get_router :
      n.need_router ≡ true
      → map_get "asn_router" (fill_axes n client conn answer)
        ≡ when (present client && present answer.1) answer.1
  unfolding fill_axes map_get
  axes-get_router h = simp (puts, h)

  pub axes-get_other :
      (axis : String)
      → ("ip" == axis) ≡ false
      → ("asn_net" == axis) ≡ false
      → ("asn_router" == axis) ≡ false
      → ("conn" == axis) ≡ false
      → map_get axis (fill_axes n client conn answer) ≡ none
  unfolding fill_axes map_get
  axes-get_other axis a b c d = simp (puts, a, b, c, d)
