-- ===== src/Body/Digest.antt =====
-- internal/body/body.go: the digests of what the loader gives.
use mathlib.Core.Bool.{true≢false}
use placitum_counter.Prelude.{
  Bool-cases, List, Option, String, [], and-eq-false, ap, arith, beq, eq_iff, false, inl, inr,
  length, ltb, map, none, not, not-eq-false, refl, some, subst, sym, true, ℕ, ◌&&◌, ◌<◌, ◌==◌, ◌||◌,
  ◌∙◌, ◌∷◌, ◌≡◌, ◌≢◌,
}
use placitum_counter.Protocol.{Locator}
use placitum_counter.Body.{
  no_body, done, waits, unknown_driver, store_error, fetched, client_store, load_each, multi_of,
  redis_get_many, Body, Fetched, BodyStore, Loader, RedisClient, all_answered, wanted_digest,
  checked, finish, loaded, load_from, load, Slot, place, keys_of, fill_with, fill_answers, answered,
  and_then, load_batched, load_many, batch_answer, batch_address, plain_of, unbatched, elsewhere,
}

-- A body that stands for a locator: one with a fault carries no content. Other content has the
-- digest of the processed body, if the locator names it, else the digest that it names of the body, if
-- it names one and the body is not truncated.
pub record IsSound (l : Loader) (loc : Locator) (b : Body) : Type 0 where
  pub fault_empty : b.fault ≡ true → b.content ≡ []
  pub processed_digest :
      b.content ≢ [] → loc.processed_sha256 ≢ "" → l.digest b.content ≡ loc.processed_sha256
  pub whole_digest :
      b.content ≢ []
      → loc.processed_sha256 ≡ ""
      → loc.truncated ≡ false
      → loc.sha256 ≢ ""
      → l.digest b.content ≡ loc.sha256

-- Without a locator there is no content.
abbrev pub SoundFor : Loader → Option Locator → Body → Type 0
SoundFor l none b = b.content ≡ []
SoundFor l (some loc) b = IsSound l loc b

-- One sound body for each locator, in order.
abbrev pub AllSound : Loader → List (Option Locator) → List Body → Type 0
AllSound l [] [] = Unit
AllSound l [] (b ∷ bs) = ⊥
AllSound l (loc ∷ locs) [] = ⊥
AllSound l (loc ∷ locs) (b ∷ bs) = SoundFor l loc b × AllSound l locs bs

abbrev SlotFor : Loader → Option Locator → Slot → Type 0
SlotFor l loc (done b) = SoundFor l loc b
SlotFor l loc (waits a) = loc ≡ some a

abbrev AllSlots : Loader → List (Option Locator) → List Slot → Type 0
AllSlots l [] [] = Unit
AllSlots l [] (b ∷ bs) = ⊥
AllSlots l (loc ∷ locs) [] = ⊥
AllSlots l (loc ∷ locs) (b ∷ bs) = SlotFor l loc b × AllSlots l locs bs

-- A store that answers gives an answer for each of the keys.
abbrev Answers : ℕ → Fetched (List (Option (List ℕ))) → Type 0
Answers n unknown_driver = Unit
Answers n store_error = Unit
Answers n (fetched raws) = length raws ≡ n

module _ (l : Loader) where
  empty-IsSound : (loc : Locator) (b : Body) → b.content ≡ [] → IsSound l loc b
  empty-IsSound loc b h = record {
    fault_empty = λ e. h;
    processed_digest = λ full named. absurd (full h);
    whole_digest = λ full bare whole named. absurd (full h);
  }

  digest_agrees :
      (loc : Locator) (raw : List ℕ)
      → (not (wanted_digest loc == "") && not (wanted_digest loc == l.digest raw)) ≡ false
      → wanted_digest loc ≢ ""
      → l.digest raw ≡ wanted_digest loc
  digest_agrees loc raw h wanted = elim (Bool-cases (wanted_digest loc == "")) [
    | inl bare ↦ absurd (wanted ((eq_iff (wanted_digest loc) "").0 bare))
    | inr named ↦ sym (
        (eq_iff (wanted_digest loc) (l.digest raw)).0
          (not-eq-false _ (and-eq-false (not (wanted_digest loc == "")) _ h (rw named refl))))
  ]

  wanted-processed :
      (loc : Locator) → loc.processed_sha256 ≢ "" → wanted_digest loc ≡ loc.processed_sha256
  unfolding wanted_digest
  wanted-processed loc named = elim (Bool-cases (loc.processed_sha256 == "")) [
    | inl bare ↦ absurd (named ((eq_iff loc.processed_sha256 "").0 bare))
    | inr given ↦ rw given refl
  ]

  wanted-whole :
      (loc : Locator)
      → loc.processed_sha256 ≡ ""
      → loc.truncated ≡ false
      → wanted_digest loc ≡ loc.sha256
  unfolding wanted_digest
  wanted-whole loc bare whole =
      let none_processed : (loc.processed_sha256 == "") ≡ true = ap (λ s. s == "") bare in
      rw (none_processed, whole) refl

  -- Content whose digest was compared with the wanted one is sound.
  agreed-IsSound :
      (loc : Locator) (raw : List ℕ)
      → (not (wanted_digest loc == "") && not (wanted_digest loc == l.digest raw)) ≡ false
      → IsSound l loc
          (record no_body { content = raw; truncated = loc.truncated; sha256 = l.digest raw })
  agreed-IsSound loc raw agrees = record {
    fault_empty = λ e. absurd (true≢false (sym e));
    processed_digest = λ full named.
        let same = wanted-processed loc named in
        digest_agrees loc raw agrees (λ bare. named (sym same ∙ bare)) ∙ same;
    whole_digest = λ full bare whole named.
        let same = wanted-whole loc bare whole in
        digest_agrees loc raw agrees (λ empty. named (sym same ∙ empty)) ∙ same;
  }

  checked-IsSound : (loc : Locator) (o : Option (List ℕ)) → IsSound l loc (checked l loc o)
  unfolding checked
  checked-IsSound loc none = empty-IsSound loc _ refl
  checked-IsSound loc (some raw) =
      elim (Bool-cases (not (wanted_digest loc == "") && not (wanted_digest loc == l.digest raw))) [
        | inl differs ↦ rw differs (empty-IsSound loc _ refl)
        | inr agrees ↦ rw agrees (agreed-IsSound loc raw agrees)
      ]

  finish-IsSound : (loc : Locator) (raw : List ℕ) → IsSound l loc (finish l loc raw)
  unfolding finish
  finish-IsSound loc raw = checked-IsSound loc (plain_of l raw loc.enc)

  loaded-IsSound : (loc : Locator) (f : Fetched (List ℕ)) → IsSound l loc (loaded l loc f)
  loaded-IsSound loc unknown_driver = empty-IsSound loc _ refl
  loaded-IsSound loc store_error = empty-IsSound loc _ refl
  loaded-IsSound loc (fetched raw) = finish-IsSound loc raw

  load_from-IsSound : (loc : Locator) (o : Option BodyStore) → IsSound l loc (load_from l loc o)
  load_from-IsSound loc none = empty-IsSound loc _ refl
  load_from-IsSound loc (some store) = loaded-IsSound loc (store.get loc.driver loc.store loc.key)

  pub load-SoundFor : (loc : Option Locator) → SoundFor l loc (load l loc)
  unfolding load
  load-SoundFor none = refl
  load-SoundFor (some loc) = elim (Bool-cases (loc.unavailable == "")) [
    | inl here ↦ elim (Bool-cases (loc.driver == "")) [
      | inl inline ↦ rw (here, inline) (empty-IsSound loc _ refl)
      | inr stored ↦ rw (here, stored) (load_from-IsSound loc l.store)
    ]
    | inr away ↦ rw away (empty-IsSound loc _ refl)
  ]

  loads-AllSound : (locs : List (Option Locator)) → AllSound l locs (map (load l) locs)
  loads-AllSound [] = tt
  loads-AllSound (loc ∷ locs) = (load-SoundFor loc, loads-AllSound locs)

  place-AllSlots :
      (locs : List (Option Locator)) (batch : Option (String × String))
      → AllSlots l locs (place l batch locs).0
  unfolding place
  place-AllSlots [] batch = tt
  place-AllSlots (none ∷ locs) batch = (load-SoundFor none, place-AllSlots locs batch)
  place-AllSlots (some loc ∷ locs) batch =
      elim (Bool-cases (unbatched loc || elsewhere batch loc)) [
        | inl alone ↦ rw alone (load-SoundFor (some loc), place-AllSlots locs batch)
        | inr joined ↦ rw joined (refl, place-AllSlots locs (some (loc.driver, loc.store)))
      ]

  fill_with-AllSound :
      (f : Locator → Body)
      → ((loc : Locator) → IsSound l loc (f loc))
      → (locs : List (Option Locator)) (slots : List Slot) → AllSlots l locs slots
      → AllSound l locs (fill_with f slots)
  unfolding fill_with
  fill_with-AllSound f g [] [] h = tt
  fill_with-AllSound f g [] (s ∷ ss) h = absurd h
  fill_with-AllSound f g (loc ∷ locs) [] h = absurd h
  fill_with-AllSound f g (loc ∷ locs) (done b ∷ ss) h = (h.0, fill_with-AllSound f g locs ss h.1)
  fill_with-AllSound f g (loc ∷ locs) (waits a ∷ ss) h =
      (subst (λ o. SoundFor l o (f a)) (sym h.0) (g a), fill_with-AllSound f g locs ss h.1)

  answered-IsSound : (loc : Locator) (raw : Option (List ℕ)) → IsSound l loc (answered l loc raw)
  answered-IsSound loc none = empty-IsSound loc _ refl
  answered-IsSound loc (some raw) = finish-IsSound loc raw

  -- What a list of answers leads to: bodies that are sound.
  abbrev Filled : List (Option Locator) → Option (List Body) → Type 0
  Filled locs o = (out : List Body) × (o ≡ some out) × AllSound l locs out

  and_then-Filled :
      (loc : Option Locator) (locs : List (Option Locator)) (b : Body) (o : Option (List Body))
      → SoundFor l loc b
      → Filled locs o
      → Filled (loc ∷ locs) (and_then b o)
  and_then-Filled loc locs b o h f = (b ∷ f.0, ap (and_then b) f.1, (h, f.2))

  fill_answers-Filled :
      (locs : List (Option Locator)) (slots : List Slot) (raws : List (Option (List ℕ)))
      → AllSlots l locs slots
      → length raws ≡ length (keys_of slots)
      → Filled locs (fill_answers l slots raws)
  unfolding fill_answers keys_of
  fill_answers-Filled [] [] raws h e = ([], refl, tt)
  fill_answers-Filled [] (s ∷ ss) raws h e = absurd h
  fill_answers-Filled (loc ∷ locs) [] raws h e = absurd h
  fill_answers-Filled (loc ∷ locs) (done b ∷ ss) raws h e =
      and_then-Filled loc locs b _ h.0 (fill_answers-Filled locs ss raws h.1 e)
  fill_answers-Filled (loc ∷ locs) (waits a ∷ ss) [] h e = absurd (omega (arith, e))
  fill_answers-Filled (loc ∷ locs) (waits a ∷ ss) (raw ∷ raws) h e =
      and_then-Filled loc locs (answered l a raw) _
        (subst (λ o. SoundFor l o (answered l a raw)) (sym h.0) (answered-IsSound a raw))
        (fill_answers-Filled locs ss raws h.1 (omega (arith, e)))

  batch_answer-Filled :
      (locs : List (Option Locator)) (slots : List Slot) (f : Fetched (List (Option (List ℕ))))
      → AllSlots l locs slots
      → Answers (length (keys_of slots)) f
      → Filled locs (batch_answer l slots f)
  batch_answer-Filled locs slots unknown_driver h e =
      (_, refl, fill_with-AllSound _ (λ loc. empty-IsSound loc _ refl) locs slots h)
  batch_answer-Filled locs slots store_error h e =
      (_, refl, fill_with-AllSound _ (λ loc. empty-IsSound loc _ refl) locs slots h)
  batch_answer-Filled locs slots (fetched raws) h e = fill_answers-Filled locs slots raws h e

  all_answered-Answers :
      (keys : List String) (o : Option (List (Option (List ℕ))))
      → Answers (length keys) (all_answered keys o)
  all_answered-Answers keys none = tt
  all_answered-Answers keys (some vals) = elim (Bool-cases (beq (length vals) (length keys))) [
    | inl full ↦ rw full (ground (arith, full))
    | inr short ↦ rw short tt
  ]

  redis-Answers :
      (client : RedisClient) (driver store : String) (keys : List String)
      → 0 < length keys
      → Answers (length keys) (redis_get_many client driver store keys)
  unfolding redis_get_many
  redis-Answers client driver store [] h = elim h [ ]
  redis-Answers client driver store (k ∷ ks) h = elim (Bool-cases (driver == "redis")) [
    | inl known ↦ rw known (all_answered-Answers (k ∷ ks) (client.mget (k ∷ ks)))
    | inr unknown ↦ rw unknown tt
  ]

  load_batched-Filled :
      (client : RedisClient) (locs : List (Option Locator))
      → Filled locs (load_batched l (redis_get_many client) locs)
  unfolding load_batched
  load_batched-Filled client locs =
      let slots = (place l none locs).0 in
      let address = batch_address (place l none locs).1 in
      let h = place-AllSlots locs none in
      elim (Bool-cases (ltb (length (keys_of slots)) 2)) [
        | inl few ↦
            rw few (_, refl, fill_with-AllSound _ (λ loc. load-SoundFor (some loc)) locs slots h)
        | inr many ↦ rw many (
            batch_answer-Filled locs slots
              (redis_get_many client address.0 address.1 (keys_of slots)) h
              (redis-Answers client address.0 address.1 (keys_of slots) (ground (arith, many))))
      ]

  load_each-Filled :
      (o : Option RedisClient) (locs : List (Option Locator))
      → Filled locs (load_each l locs (multi_of (client_store o)))
  load_each-Filled none locs = (_, refl, loads-AllSound locs)
  load_each-Filled (some client) locs = load_batched-Filled client locs

  -- On the Redis store, or without a store, and whatever the client answers, `LoadMany` ends without a
  -- panic with one body for each locator, in order: one with a fault has no content. Other content has the
  -- digest of the processed body, if its locator names it, else, if the body is not truncated, the digest that the
  -- locator names of the body, if it names one.
  pub load_many-AllSound :
      (o : Option RedisClient)
      → l.store ≡ client_store o
      → (locs : List (Option Locator))
      → (out : List Body) × (load_many l locs ≡ some out) × AllSound l locs out
  unfolding load_many
  load_many-AllSound o h locs =
      subst (λ s. Filled locs (load_each l locs (multi_of s))) (sym h) (load_each-Filled o locs)
