-- ===== src/Body/Batched.antt =====
-- internal/body/body.go: `LoadMany` against `Load` of each locator.
use mathlib.Core.Option.{none-ne-some}
use placitum_counter.Prelude.{
  Bool-cases, List, Option, String, [], ap, arith, beq, eq_iff, false, if◌then◌else◌, inl, inr,
  length, ltb, map, none, not, not-eq-false, or-eq-false, refl, some, subst, suc, sym, true, ℕ, ◌<◌,
  ◌==◌, ◌||◌, ◌∙◌, ◌∷◌, ◌≡◌,
}
use placitum_counter.Protocol.{Locator}
use placitum_counter.Body.{
  done, waits, unknown_driver, fetched, or_store_error, Body, faulty, unavailable_unknown_driver,
  Loader, RedisClient, redis_store, redis_get, redis_get_many, loaded, load, load_from, Slot, place,
  keys_of, fill_with, fill_answers, answered, load_batched, load_many, load_each, multi_of,
  batch_answer, batch_address, unbatched, elsewhere,
}

abbrev SlotIs : Loader → Option Locator → Slot → Type 0
SlotIs l loc (done b) = b ≡ load l loc
SlotIs l loc (waits a) = loc ≡ some a

abbrev SlotsAre : Loader → List (Option Locator) → List Slot → Type 0
SlotsAre l [] [] = Unit
SlotsAre l [] (b ∷ bs) = ⊥
SlotsAre l (loc ∷ locs) [] = ⊥
SlotsAre l (loc ∷ locs) (b ∷ bs) = SlotIs l loc b × SlotsAre l locs bs

-- A property of the locators of the batch.
abbrev Waiting : (Locator → Type 0) → List Slot → Type 0
Waiting P [] = Unit
Waiting P (done b ∷ ss) = Waiting P ss
Waiting P (waits a ∷ ss) = P a × Waiting P ss

Waiting-imp :
    (P Q : Locator → Type 0) (f : (a : Locator) → P a → Q a) (ss : List Slot)
    → Waiting P ss
    → Waiting Q ss
Waiting-imp P Q f [] h = tt
Waiting-imp P Q f (done b ∷ ss) h = Waiting-imp P Q f ss h
Waiting-imp P Q f (waits a ∷ ss) h = (f a h.0, Waiting-imp P Q f ss h.1)

-- A locator of the batch is to be read from the store, at the address of the batch.
abbrev IsAt : Option (String × String) → Locator → Type 0
IsAt address a = (unbatched a ≡ false) × (address ≡ some (a.driver, a.store))

module _ (l : Loader) where
  place-SlotsAre :
      (locs : List (Option Locator)) (batch : Option (String × String))
      → SlotsAre l locs (place l batch locs).0
  unfolding place
  place-SlotsAre [] batch = tt
  place-SlotsAre (none ∷ locs) batch = (refl, place-SlotsAre locs batch)
  place-SlotsAre (some loc ∷ locs) batch =
      elim (Bool-cases (unbatched loc || elsewhere batch loc)) [
        | inl alone ↦ rw alone (refl, place-SlotsAre locs batch)
        | inr joined ↦ rw joined (refl, place-SlotsAre locs (some (loc.driver, loc.store)))
      ]

  same_address :
      (a : String × String) (loc : Locator)
      → (unbatched loc || elsewhere (some a) loc) ≡ false
      → IsAt (some a) loc
  same_address (driver, store) loc h =
      let parts = or-eq-false (unbatched loc) _ h in
      let apart = or-eq-false (not (loc.driver == driver)) _ parts.1 in
      let d = (eq_iff loc.driver driver).0 (not-eq-false _ apart.0) in
      let t = (eq_iff loc.store store).0 (not-eq-false _ apart.1) in
      (parts.0, λ i. some (sym d i, sym t i))

  place-IsAt :
      (locs : List (Option Locator)) (a : String × String)
      → ((place l (some a) locs).1 ≡ some a) × Waiting (IsAt (some a)) (place l (some a) locs).0
  unfolding place
  place-IsAt [] a = (refl, tt)
  place-IsAt (none ∷ locs) a = place-IsAt locs a
  place-IsAt (some loc ∷ locs) a = elim (Bool-cases (unbatched loc || elsewhere (some a) loc)) [
    | inl alone ↦ rw alone (place-IsAt locs a)
    | inr joined ↦
        let own = same_address a loc joined in
        let rest = place-IsAt locs (loc.driver, loc.store) in
        rw joined (
          rest.0 ∙ sym own.1,
          (
            own,
            subst (λ o. Waiting (IsAt o) (place l (some (loc.driver, loc.store)) locs).0)
                (sym own.1) rest.1,
          ),
        )
  ]

  place-Waiting :
      (locs : List (Option Locator)) → Waiting (IsAt (place l none locs).1) (place l none locs).0
  unfolding place
  place-Waiting [] = tt
  place-Waiting (none ∷ locs) = place-Waiting locs
  place-Waiting (some loc ∷ locs) = elim (Bool-cases (unbatched loc)) [
    | inl alone ↦ rw alone (place-Waiting locs)
    | inr joined ↦
        let rest = place-IsAt locs (loc.driver, loc.store) in
        rw joined (
          (joined, rest.0),
          subst (λ o. Waiting (IsAt o) (place l (some (loc.driver, loc.store)) locs).0) (sym rest.0)
              rest.1,
        )
  ]

  fill_with-eq-loads :
      (f : Locator → Body) (locs : List (Option Locator)) (ss : List Slot)
      → SlotsAre l locs ss
      → Waiting (λ a. f a ≡ load l (some a)) ss
      → fill_with f ss ≡ map (load l) locs
  unfolding fill_with
  fill_with-eq-loads f [] [] h g = refl
  fill_with-eq-loads f [] (s ∷ ss) h g = absurd h
  fill_with-eq-loads f (loc ∷ locs) [] h g = absurd h
  fill_with-eq-loads f (loc ∷ locs) (done b ∷ ss) h g =
      rw (h.0, fill_with-eq-loads f locs ss h.1 g) refl
  fill_with-eq-loads f (loc ∷ locs) (waits a ∷ ss) h g =
      rw (h.0, g.0, fill_with-eq-loads f locs ss h.1 g.1) refl

  fill_answers-eq :
      (get : String → Option (List ℕ)) (ss : List Slot)
      → fill_answers l ss (map get (keys_of ss))
        ≡ some (fill_with (λ a. answered l a (get a.key)) ss)
  unfolding fill_answers keys_of fill_with
  fill_answers-eq get [] = refl
  fill_answers-eq get (done b ∷ ss) = rw (fill_answers-eq get ss) refl
  fill_answers-eq get (waits a ∷ ss) = rw (fill_answers-eq get ss) refl

  answered-loaded :
      (a : Locator) (o : Option (List ℕ)) → answered l a o ≡ loaded l a (or_store_error o)
  answered-loaded a none = refl
  answered-loaded a (some raw) = refl

address_driver :
    (address : String × String) (a : Locator)
    → some address ≡ some (a.driver, a.store)
    → address.0 ≡ a.driver
address_driver address a h = ap (λ o. (batch_address o).0) h

unplaced-empty : (ss : List Slot) → Waiting (IsAt none) ss → length (keys_of ss) ≡ 0
unfolding keys_of
unplaced-empty [] h = refl
unplaced-empty (done b ∷ ss) h = unplaced-empty ss h
unplaced-empty (waits a ∷ ss) h = absurd (none-ne-some _ h.0.1)

beq_refl : (c : ℕ) → beq c c ≡ true
beq_refl c = ground arith

module _ {ℓ κ} {A : Type ℓ} {B : Type κ} where
  length-map : (get : A → B) (ks : List A) → length (map get ks) ≡ length ks
  length-map get [] = refl
  length-map get (k ∷ ks) = ap suc (length-map get ks)

module _ (l : Loader) (client : RedisClient) (has_client : l.store ≡ some (redis_store client))
    (agrees : (keys : List String) → client.mget keys ≡ some (map client.get_key keys)) where
  load_at :
      (a : Locator)
      → unbatched a ≡ false
      → load l (some a) ≡ loaded l a (redis_get client a.driver a.store a.key)
  unfolding load unbatched
  load_at a h =
      let parts = or-eq-false (not (a.unavailable == "")) (a.driver == "") h in
      let here : (a.unavailable == "") ≡ true = not-eq-false (a.unavailable == "") parts.0 in
      let stored : (a.driver == "") ≡ false = parts.1 in
      rw (here, stored) (ap (load_from l a) has_client)

  -- What a place of the batch gets, at the driver of the batch.
  unknown-eq-load :
      (driver store : String)
      → (driver == "redis") ≡ false
      → (a : Locator) → IsAt (some (driver, store)) a
      → faulty unavailable_unknown_driver ≡ load l (some a)
  unfolding redis_get
  unknown-eq-load driver store other a at =
      let same = address_driver (driver, store) a at.1 in
      sym (
        load_at a at.0
        ∙ ap (λ b. loaded l a (if b then or_store_error (client.get_key a.key) else unknown_driver))
            (ap (λ d. d == "redis") (sym same) ∙ other))

  answered-eq-load :
      (driver store : String)
      → (driver == "redis") ≡ true
      → (a : Locator) → IsAt (some (driver, store)) a
      → answered l a (client.get_key a.key) ≡ load l (some a)
  unfolding redis_get
  answered-eq-load driver store known a at =
      let same = address_driver (driver, store) a at.1 in
      answered-loaded l a (client.get_key a.key)
      ∙ sym (
          load_at a at.0
          ∙ ap
              (λ b.
                loaded l a (if b then or_store_error (client.get_key a.key) else unknown_driver))
              (ap (λ d. d == "redis") (sym same) ∙ known))

  redis_known :
      (driver store : String) (keys : List String)
      → (driver == "redis") ≡ true
      → 0 < length keys
      → redis_get_many client driver store keys ≡ fetched (map client.get_key keys)
  unfolding redis_get_many
  redis_known driver store [] known more = elim more [ ]
  redis_known driver store (k ∷ ks) known more =
      rw (known, agrees (k ∷ ks), length-map client.get_key ks, beq_refl (suc (length ks))) refl

  -- What the batch gives is what each of its locators is loaded as.
  batch-eq-loads :
      (locs : List (Option Locator)) (ss : List Slot) (driver store : String)
      → 0 < length (keys_of ss)
      → SlotsAre l locs ss
      → Waiting (IsAt (some (driver, store))) ss
      → batch_answer l ss (redis_get_many client driver store (keys_of ss))
        ≡ some (map (load l) locs)
  unfolding redis_get_many
  batch-eq-loads locs ss driver store more h w = elim (Bool-cases (driver == "redis")) [
    | inl known ↦
        ap (batch_answer l ss) (redis_known driver store (keys_of ss) known more)
        ∙ fill_answers-eq l client.get_key ss
        ∙ ap some (
            fill_with-eq-loads l _ locs ss h
              (Waiting-imp _ _ (answered-eq-load driver store known) ss w))
    | inr other ↦ rw other (
        ap some (
          fill_with-eq-loads l _ locs ss h
            (Waiting-imp _ _ (unknown-eq-load driver store other) ss w)))
  ]

  any-batch :
      (locs : List (Option Locator)) (ss : List Slot) (o : Option (String × String))
      → 0 < length (keys_of ss)
      → SlotsAre l locs ss
      → Waiting (IsAt o) ss
      → batch_answer l ss
          (redis_get_many client (batch_address o).0 (batch_address o).1 (keys_of ss))
        ≡ some (map (load l) locs)
  any-batch locs ss none more h w = absurd (omega (arith, unplaced-empty ss w))
  any-batch locs ss (some (driver, store)) more h w = batch-eq-loads locs ss driver store more h w

  load_batched-eq :
      (locs : List (Option Locator))
      → load_batched l (redis_get_many client) locs ≡ some (map (load l) locs)
  unfolding load_batched
  load_batched-eq locs =
      let ss = (place l none locs).0 in
      let h = place-SlotsAre l locs none in
      elim (Bool-cases (ltb (length (keys_of ss)) 2)) [
        | inl few ↦ rw few (
            ap some (
              fill_with-eq-loads l _ locs ss h
                (Waiting-imp _ _ (λ a at. refl) ss (place-Waiting l locs))))
        | inr many ↦ rw many (
            any-batch locs ss (place l none locs).1 (ground (arith, many)) h (place-Waiting l locs))
      ]

  -- With a Redis client whose `MGET` answers for many keys what `GET` answers for each, `LoadMany`
  -- gives what `Load` gives for each locator, in order.
  pub load_many-eq-load :
      (locs : List (Option Locator)) → load_many l locs ≡ some (map (load l) locs)
  unfolding load_many
  load_many-eq-load locs = ap (λ s. load_each l locs (multi_of s)) has_client ∙ load_batched-eq locs
