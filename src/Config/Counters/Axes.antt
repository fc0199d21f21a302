-- ===== src/Config/Counters/Axes.antt =====
-- internal/config/counters.go: the axes that a note or a measure rule charges.
use placitum_counter.Prelude.{
  All, Bool, Bool-cases, List, Option, String, [], ap, arith, contains, eq_iff, inl, inr, none,
  refl, select, select-All, some, subst, sym, true, ◌&&◌, ◌==◌, ◌||◌, ◌∙◌, ◌∷◌, ◌≡◌,
}
use placitum_counter.Config.Types.{Counter, Counters}
use placitum_counter.Config.Counters.{
  known_axes, axes_in, axis_in, has_axis, has, wire_axes, note_axes,
}

-- Whether a charged axis belongs to an axis of the wire.
abbrev pub belongs : String → String → Bool
belongs axis wire =
    ("ip" == axis && wire == "ip")
    || (("asn_net" == axis || "asn_router" == axis) && wire == "asn")
    || ("sess" == axis && wire == "session")

contains-select :
    (p : String → Bool) (xs : List String) (x : String)
    → contains (select p xs) x ≡ (contains xs x && p x)
unfolding contains select
contains-select p [] x = refl
contains-select p (y ∷ xs) x = elim (Bool-cases (y == x)) [
  | inl same ↦
      let e : p y ≡ p x = ap p ((eq_iff y x).0 same) in
      ground (arith, e, same, contains-select p xs x)
  | inr other ↦ ground (arith, other, contains-select p xs x)
]

contains-wire_axes : (wire axis : String) → contains (wire_axes wire) axis ≡ belongs axis wire
unfolding contains wire_axes
contains-wire_axes wire axis = elim (Bool-cases (wire == "ip")) [
  | inl e ↦ at_wire "ip" e (ground arith)
  | inr not_ip ↦ elim (Bool-cases (wire == "asn")) [
    | inl e ↦ at_wire "asn" e (ground arith)
    | inr not_asn ↦ elim (Bool-cases (wire == "session")) [
      | inl e ↦ at_wire "session" e (ground arith)
      | inr not_session ↦ ground (arith, not_ip, not_asn, not_session)
    ]
  ]
]
  where
    at_wire :
        (w : String)
        → (wire == w) ≡ true
        → contains (wire_axes w) axis ≡ belongs axis w
        → contains (wire_axes wire) axis ≡ belongs axis wire
    at_wire w e h =
        subst (λ v. contains (wire_axes v) axis ≡ belongs axis v) (sym ((eq_iff wire w).0 e)) h

module _ {F : Type 0} where
  -- A note charges the axes that its counter declares and that belong to its axis of the wire, and
  -- no other: ip to ip, asn_net and asn_router to asn, and sess to session.
  pub contains-note_axes :
      (c : Counters F) (counter wire axis : String)
      → contains (note_axes c counter wire) axis ≡ (belongs axis wire && has_axis c counter axis)
  unfolding note_axes
  contains-note_axes c counter wire axis =
      contains-select (has_axis c counter) (wire_axes wire) axis
      ∙ ap (λ b. b && has_axis c counter axis) (contains-wire_axes wire axis)

  axes_in-HasAxis :
      (found : Option (Counter F)) → All (λ axis. axis_in found axis ≡ true) (axes_in found)
  unfolding axes_in axis_in
  axes_in-HasAxis none = tt
  axes_in-HasAxis (some c) = select-All (λ axis. has axis c.axes) known_axes
