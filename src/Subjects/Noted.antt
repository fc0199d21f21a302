-- ===== src/Subjects/Noted.antt =====
-- cmd/inspector/subjects.go: what the loop of `subjectsOf` over the references notes.
use placitum_counter.Prelude.{
  All, Bool, Bool-cases, List, String, [], ap, arith, contains, eq_iff, eq_refl, false, foldl,
  if_eta, if◌then◌else◌, inl, inr, or-false, or-true, refl, sym, true, ◌&&◌, ◌++◌, ◌==◌, ◌||◌, ◌∙◌,
  ◌∷◌, ◌≡◌,
}
use placitum_counter.Config.Types.{Counters}
use placitum_counter.Config.Counters.{sess_cookie, user_from}
use placitum_counter.Subjects.{SubjectRef, Needs, add_source, cookie_source, present, note_need}

pub contains-append :
    (xs ys : List String) (v : String) → contains (xs ++ ys) v ≡ (contains xs v || contains ys v)
unfolding contains
contains-append [] ys v = refl
contains-append (x ∷ xs) ys v = ground (arith, contains-append xs ys v)

kept-or :
    (xs : List String) (src v : String)
    → contains xs src ≡ true
    → contains xs v ≡ (contains xs v || (src == v))
kept-or xs src v h = elim (Bool-cases (src == v)) [
  | inl same ↦ rw (sym ((eq_iff src v).0 same), h) refl
  | inr other ↦ rw other (sym (or-false (contains xs v)))
]

contains-add_source :
    (src v : String) (n : Needs)
    → contains (add_source src n).sources v ≡ (contains n.sources v || (src == v))
unfolding add_source contains
contains-add_source src v n = elim (Bool-cases (contains n.sources src)) [
  | inl here ↦ rw here (kept-or n.sources src v here)
  | inr new ↦ rw new (
      contains-append n.sources (src ∷ []) v
      ∙ ap (λ b. contains n.sources v || b) (if_eta (src == v)))
]

-- Nothing that was needed is dropped.
record Grows (n m : Needs) : Type 0 where
  ip_grows : n.need_ip ≡ true → m.need_ip ≡ true
  net_grows : n.need_net ≡ true → m.need_net ≡ true
  router_grows : n.need_router ≡ true → m.need_router ≡ true
  conn_grows : n.need_conn ≡ true → m.need_conn ≡ true
  sources_grow : (v : String) → contains n.sources v ≡ true → contains m.sources v ≡ true

Grows-refl : (n : Needs) → Grows n n
Grows-refl n = record {
  ip_grows = λ h. h;
  net_grows = λ h. h;
  router_grows = λ h. h;
  conn_grows = λ h. h;
  sources_grow = λ v h. h;
}

add_source-Grows : (src : String) (n : Needs) → Grows n (add_source src n)
unfolding add_source
add_source-Grows src n = elim (Bool-cases (contains n.sources src)) [
  | inl here ↦ rw here (Grows-refl n)
  | inr new ↦ rw new (record {
    ip_grows = λ h. h;
    net_grows = λ h. h;
    router_grows = λ h. h;
    conn_grows = λ h. h;
    sources_grow =
        λ v h. contains-append n.sources (src ∷ []) v ∙ ap (λ b. b || contains (src ∷ []) v) h;
  })
]

with_ip : (n : Needs) → Grows n (record n { need_ip = true })
with_ip n = record {
  ip_grows = λ h. refl;
  net_grows = λ h. h;
  router_grows = λ h. h;
  conn_grows = λ h. h;
  sources_grow = λ v h. h;
}

with_net : (n : Needs) → Grows n (record n { need_net = true })
with_net n = record {
  ip_grows = λ h. h;
  net_grows = λ h. refl;
  router_grows = λ h. h;
  conn_grows = λ h. h;
  sources_grow = λ v h. h;
}

with_router : (n : Needs) → Grows n (record n { need_router = true })
with_router n = record {
  ip_grows = λ h. h;
  net_grows = λ h. h;
  router_grows = λ h. refl;
  conn_grows = λ h. h;
  sources_grow = λ v h. h;
}

with_conn : (n : Needs) → Grows n (record n { need_conn = true })
with_conn n = record {
  ip_grows = λ h. h;
  net_grows = λ h. h;
  router_grows = λ h. h;
  conn_grows = λ h. refl;
  sources_grow = λ v h. h;
}

either-Grows :
    (n : Needs) (b : Bool) (x y : Needs) → Grows n x → Grows n y → Grows n (if b then x else y)
either-Grows n true x y hx hy = hx
either-Grows n false x y hx hy = hy

added : (src : String) (n : Needs) → contains (add_source src n).sources src ≡ true
added src n =
    contains-add_source src src n
    ∙ ap (λ b. contains n.sources src || b) (eq_refl src)
    ∙ or-true (contains n.sources src)

module _ {F : Type 0} (counters : Counters F) where
  note_need-Grows : (n : Needs) (r : SubjectRef) → Grows n (note_need counters n r)
  unfolding note_need
  note_need-Grows n r = either-Grows n (r.axis == "ip") _ _ (with_ip n) (
      either-Grows n (r.axis == "asn_net") _ _ (with_net n) (
        either-Grows n (r.axis == "asn_router") _ _ (with_router n) (
          either-Grows n (r.axis == "conn") _ _ (with_conn n) (
            either-Grows n (r.axis == "sess") _ _ (add_source-Grows _ n) (
              either-Grows n (r.axis == "user" && present (user_from counters r.counter)) _ _
                (add_source-Grows _ n) (Grows-refl n))))))

  -- Whether what a reference needs was noted.
  unfoldable pub covers : Needs → SubjectRef → Bool
  covers n r =
      if r.axis == "ip"
      then n.need_ip
      else if r.axis == "asn_net"
      then n.need_net
      else if r.axis == "asn_router"
      then n.need_router
      else if r.axis == "conn"
      then n.need_conn
      else if r.axis == "sess"
      then contains n.sources (cookie_source (sess_cookie counters r.counter))
      else if r.axis == "user" && present (user_from counters r.counter)
      then contains n.sources (user_from counters r.counter)
      else true

  covers-Grows : (n m : Needs) (r : SubjectRef) → Grows n m → covers n r ≡ true → covers m r ≡ true
  unfolding covers
  covers-Grows n m r g h = ground (
    arith,
    g.ip_grows,
    g.net_grows,
    g.router_grows,
    g.conn_grows,
    g.sources_grow (cookie_source (sess_cookie counters r.counter)),
    g.sources_grow (user_from counters r.counter),
  )

  note_need-covers : (n : Needs) (r : SubjectRef) → covers (note_need counters n r) r ≡ true
  unfolding covers note_need
  note_need-covers n r = elim (Bool-cases (r.axis == "ip")) [
    | inl a ↦ rw a refl
    | inr na ↦ elim (Bool-cases (r.axis == "asn_net")) [
      | inl b ↦ rw (na, b) refl
      | inr nb ↦ elim (Bool-cases (r.axis == "asn_router")) [
        | inl c ↦ rw (na, nb, c) refl
        | inr nc ↦ elim (Bool-cases (r.axis == "conn")) [
          | inl d ↦ rw (na, nb, nc, d) refl
          | inr nd ↦ elim (Bool-cases (r.axis == "sess")) [
            | inl e ↦
                rw (na, nb, nc, nd, e) (added (cookie_source (sess_cookie counters r.counter)) n)
            | inr ne ↦
                elim (Bool-cases (r.axis == "user" && present (user_from counters r.counter))) [
                  | inl f ↦ rw (na, nb, nc, nd, ne, f) (added (user_from counters r.counter) n)
                  | inr nf ↦ rw (na, nb, nc, nd, ne, nf) refl
                ]
          ]
        ]
      ]
    ]
  ]

  keeps-covers :
      (refs : List SubjectRef) (n : Needs) (r : SubjectRef)
      → covers n r ≡ true
      → covers (foldl (note_need counters) n refs) r ≡ true
  keeps-covers [] n r h = h
  keeps-covers (s ∷ ss) n r h =
      keeps-covers ss (note_need counters n s) r
        (covers-Grows n (note_need counters n s) r (note_need-Grows n s) h)

  pub all_covered :
      (refs : List SubjectRef) (n : Needs)
      → All (λ r. covers (foldl (note_need counters) n refs) r ≡ true) refs
  all_covered [] n = tt
  all_covered (r ∷ rs) n = (
    keeps-covers rs (note_need counters n r) r (note_need-covers n r),
    all_covered rs (note_need counters n r),
  )
