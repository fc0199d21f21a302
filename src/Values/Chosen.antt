-- ===== src/Values/Chosen.antt =====
-- cmd/inspector/subjects.go: the session that `sessionValue` takes its value from.
use mathlib.Core.Bool.{true≢false}
use mathlib.Core.List.{Memᴰ}
use placitum_counter.Prelude.{
  All, Bool, Bool-cases, List, String, [], ap, arith, false, if◌then◌else◌, inl, inr, lower, not,
  refl, subst, sym, true, ℕ, ◌&&◌, ◌==◌, ◌||◌, ◌∙◌, ◌∷◌, ◌≡◌, ◌⊎◌,
}
use placitum_counter.Protocol.{Session}
use placitum_counter.Values.{field_of, order_key, text_lt, session_loop, session_value}

text_lt_irrefl : (s : List ℕ) → text_lt s s ≡ false
unfolding text_lt
text_lt_irrefl [] = refl
text_lt_irrefl (c ∷ s) = ground (arith, text_lt_irrefl s)

text_lt_trans : (s t u : List ℕ) → text_lt s t ≡ true → text_lt t u ≡ true → text_lt s u ≡ true
unfolding text_lt
text_lt_trans [] [] u h g = ground arith
text_lt_trans (c ∷ s) [] u h g = ground arith
text_lt_trans s (d ∷ t) [] h g = ground arith
text_lt_trans [] (d ∷ t) (e ∷ u) h g = refl
text_lt_trans (c ∷ s) (d ∷ t) (e ∷ u) h g = ground (arith, text_lt_trans s t u)

asym : (s t : List ℕ) → text_lt s t ≡ true → text_lt t s ≡ false
asym s t h = elim (Bool-cases (text_lt t s)) [
  | inl back ↦ absurd (true≢false (sym (text_lt_trans s t s h back) ∙ text_lt_irrefl s))
  | inr done ↦ done
]

not_before : (s t u : List ℕ) → text_lt s u ≡ false → text_lt t u ≡ true → text_lt s t ≡ false
not_before s t u h g = elim (Bool-cases (text_lt s t)) [
  | inl lower ↦ absurd (true≢false (sym (text_lt_trans s t u lower g) ∙ h))
  | inr done ↦ done
]

round :
    (sure bare before : Bool) (taken kept : String)
    → (if not sure then kept else (if bare then kept else (if before then taken else kept)))
      ≡ (if (sure && not bare) && before then taken else kept)
round false bare before taken kept = refl
round true true before taken kept = refl
round true false before taken kept = refl

-- A session whose value counts: a verified one that has the field.
unfoldable pub candidate : List ℕ → Session → Bool
candidate field s = s.verified && not (field_of field s == "")

-- No candidate among the sessions stands before a key.
abbrev NoneBefore : List ℕ → List ℕ → List Session → Type 0
NoneBefore field k = All (λ s. candidate field s ≡ true → text_lt (order_key s) k ≡ false)

-- A value is that of the candidate with the least key among the sessions.
pub record IsLeast (field : List ℕ) (sessions : List Session) (v : String) : Type 0 where
  pub least : Session
  pub is_among : Memᴰ least sessions
  pub is_candidate : candidate field least ≡ true
  pub has_value : field_of field least ≡ v
  pub none_before : NoneBefore field (order_key least) sessions

module _ (field : List ℕ) where
  cons-IsLeast :
      (x : Session) (xs : List Session) (v : String) (l : IsLeast field xs v)
      → (candidate field x ≡ true → text_lt (order_key x) (order_key l.least) ≡ false)
      → IsLeast field (x ∷ xs) v
  cons-IsLeast x xs v l h = record {
    least = l.least;
    is_among = Memᴰ.tail l.is_among;
    is_candidate = l.is_candidate;
    has_value = l.has_value;
    none_before = (h, l.none_before);
  }

  head-IsLeast :
      (x : Session) (xs : List Session) (v : String)
      → candidate field x ≡ true
      → field_of field x ≡ v
      → NoneBefore field (order_key x) xs
      → IsLeast field (x ∷ xs) v
  head-IsLeast x xs v c e h = record {
    least = x;
    is_among = Memᴰ.head refl;
    is_candidate = c;
    has_value = e;
    none_before = (λ same. text_lt_irrefl (order_key x), h);
  }

  -- What the loop may give from a value that it holds.
  abbrev Held : String → List ℕ → List Session → String → Type 0
  Held best k xs v =
      ((v ≡ best) × NoneBefore field k xs)
      ⊎ ((l : IsLeast field xs v) × (text_lt (order_key l.least) k ≡ true))

  skip-Held :
      (best : String) (k : List ℕ) (x : Session) (xs : List Session) (v : String)
      → (candidate field x ≡ true → text_lt (order_key x) k ≡ false)
      → Held best k xs v
      → Held best k (x ∷ xs) v
  unfolding cons-IsLeast
  skip-Held best k x xs v h (inl kept) = inl (kept.0, (h, kept.1))
  skip-Held best k x xs v h (inr found) = inr (
    cons-IsLeast x xs v found.0
        (λ c. not_before (order_key x) (order_key found.0.least) k (h c) found.1),
    found.1,
  )

  take-Held :
      (x : Session) (xs : List Session) (v : String)
      → candidate field x ≡ true
      → Held (field_of field x) (order_key x) xs v
      → (l : IsLeast field (x ∷ xs) v) × ((k : List ℕ)
          → text_lt (order_key x) k ≡ true
          → text_lt (order_key l.least) k ≡ true)
  unfolding cons-IsLeast head-IsLeast
  take-Held x xs v c (inl kept) = (head-IsLeast x xs v c (sym kept.0) kept.1, λ k h. h)
  take-Held x xs v c (inr found) = (
    cons-IsLeast x xs v found.0 (λ e. asym (order_key found.0.least) (order_key x) found.1),
    λ k h. text_lt_trans (order_key found.0.least) (order_key x) k found.1 h,
  )

  -- One round of the loop: a candidate is taken where nothing is held or where it stands before.
  session_loop-cons :
      (best : String) (k : List ℕ) (x : Session) (xs : List Session)
      → session_loop field best k (x ∷ xs) ≡ (
          if candidate field x && (best == "" || text_lt (order_key x) k)
          then session_loop field (field_of field x) (order_key x) xs
          else session_loop field best k xs)
  unfolding session_loop candidate
  session_loop-cons best k x xs =
      round x.verified (field_of field x == "") (best == "" || text_lt (order_key x) k) _ _

  session_loop-step :
      (best : String) (k : List ℕ) (x : Session) (xs : List Session) (b : Bool)
      → (candidate field x && (best == "" || text_lt (order_key x) k)) ≡ b
      → session_loop field best k (x ∷ xs) ≡ (
          if b
          then session_loop field (field_of field x) (order_key x) xs
          else session_loop field best k xs)
  session_loop-step best k x xs b h =
      session_loop-cons best k x xs
      ∙ ap
          (λ c.
            if c
            then session_loop field (field_of field x) (order_key x) xs
            else session_loop field best k xs)
          h

  value-full : (x : Session) → candidate field x ≡ true → (field_of field x == "") ≡ false
  unfolding candidate
  value-full x h = ground arith

  session_loop-Held :
      (best : String) (k : List ℕ) (xs : List Session)
      → (best == "") ≡ false
      → Held best k xs (session_loop field best k xs)
  unfolding session_loop
  session_loop-Held best k [] full = inl (refl, tt)
  session_loop-Held best k (x ∷ xs) full = elim (Bool-cases (candidate field x)) [
    | inl counts ↦ elim (Bool-cases (text_lt (order_key x) k)) [
      | inl before ↦
          let step = session_loop-step best k x xs true (rw (counts, full, before) refl) in
          let l =
            take-Held x xs _ counts
              (session_loop-Held (field_of field x) (order_key x) xs (value-full x counts)) in
          subst (Held best k (x ∷ xs)) (sym step) (inr (l.0, l.1 k before))
      | inr after ↦
          subst (Held best k (x ∷ xs))
            (sym (session_loop-step best k x xs false (rw (counts, full, after) refl)))
            (skip-Held best k x xs _ (λ c. after) (session_loop-Held best k xs full))
    ]
    | inr aside ↦
        subst (Held best k (x ∷ xs)) (sym (session_loop-step best k x xs false (rw aside refl))) (
          skip-Held best k x xs _ (λ c. absurd (true≢false (sym c ∙ aside)))
            (session_loop-Held best k xs full))
  ]

  -- What `sessionValue` may give.
  abbrev pub IsChosen : List Session → String → Type 0
  IsChosen xs v = ((v ≡ "") × All (λ s. candidate field s ≡ false) xs) ⊎ IsLeast field xs v

  skip-IsChosen :
      (x : Session) (xs : List Session) (v : String)
      → candidate field x ≡ false
      → IsChosen xs v
      → IsChosen (x ∷ xs) v
  skip-IsChosen x xs v h (inl nothing) = inl (nothing.0, (h, nothing.1))
  skip-IsChosen x xs v h (inr l) =
      inr (cons-IsLeast x xs v l (λ c. absurd (true≢false (sym c ∙ h))))

  start-IsChosen : (xs : List Session) → IsChosen xs (session_loop field "" [] xs)
  unfolding session_loop
  start-IsChosen [] = inl (refl, tt)
  start-IsChosen (x ∷ xs) = elim (Bool-cases (candidate field x)) [
    | inl counts ↦
        subst (IsChosen (x ∷ xs)) (sym (session_loop-step "" [] x xs true (rw counts refl))) (
          inr
            (take-Held x xs _ counts
              (session_loop-Held (field_of field x) (order_key x) xs (value-full x counts))).0)
    | inr aside ↦
        subst (IsChosen (x ∷ xs)) (sym (session_loop-step "" [] x xs false (rw aside refl)))
          (skip-IsChosen x xs _ aside (start-IsChosen xs))
  ]

  -- `sessionValue` gives the value of the verified session with the field whose inspector and source
  -- come first, and the empty text only if no verified session has the field.
  pub session_value-IsChosen :
      (sessions : List Session) → IsChosen sessions (session_value sessions field)
  unfolding session_value
  session_value-IsChosen sessions = start-IsChosen sessions
