-- ===== src/Body.antt =====
-- internal/body: the objects of a message, fetched from a store, decrypted and checked against their
-- digests. The Redis client, the secret source, SHA-256 with the hexadecimal printing of its digest,
-- and the opening of a sealed object (base64, AES and GCM) are parameters. A slice of bytes is a list.
-- `content` is the field `Data`. Contexts and timeouts are not modelled: a command that times out is one that fails.
use placitum_counter.Prelude.{
  Bool, List, Option, String, [], beq, false, if◌then◌else◌, is_empty, length, ltb, map, none, not,
  some, true, ℕ, ◌&&◌, ◌==◌, ◌||◌, ◌∷◌,
}
use placitum_counter.Protocol.{Locator, Enc}
pub mod Digest
pub mod Batched

pub record Body : Type 0 where
  pub content : List ℕ
  pub truncated : Bool
  pub unavailable : String
  pub fault : Bool
  pub sha256 : String

-- `Body{}`
abbrev pub no_body : Body
no_body = record { content = []; truncated = false; unavailable = ""; fault = false; sha256 = "" }

-- `Body{Unavailable: reason, Fault: true}`
abbrev pub faulty : String → Body
faulty reason = record no_body { unavailable = reason; fault = true }

-- `Available`
abbrev pub available : Body → Bool
available b = b.unavailable == ""

-- `Failed`
abbrev pub failed : Body → Bool
failed b = b.fault

abbrev pub unavailable_no_store : String
unavailable_no_store = "store_unconfigured"

abbrev pub unavailable_store_error : String
unavailable_store_error = "store_error"

abbrev pub unavailable_unknown_driver : String
unavailable_unknown_driver = "unknown_driver"

abbrev pub unavailable_decrypt_fail : String
unavailable_decrypt_fail = "decrypt_failed"

abbrev pub unavailable_digest_fail : String
unavailable_digest_fail = "digest_mismatch"

-- What a store answers: `ErrUnknownDriver`, another error, or a value.
pub data Fetched (A : Type 0) : Type 0 where
  unknown_driver : Fetched A
  store_error : Fetched A
  fetched : A → Fetched A

-- `Store`, and `MultiStore` where the store is one. A nil slice of bytes is `none`.
pub record BodyStore : Type 0 where
  pub get : String → String → String → Fetched (List ℕ)
  pub get_many : Option (String → String → List String → Fetched (List (Option (List ℕ))))

-- A `Loader` with what it calls: `digest` prints the SHA-256 of bytes, and `open_sealed` opens an
-- object with a key and a nonce in base64.
pub record Loader : Type 0 where
  pub store : Option BodyStore
  pub keys : Option (String → Option (List ℕ))
  pub digest : List ℕ → String
  pub open_sealed : List ℕ → String → List ℕ → Option (List ℕ)

-- What the Redis client answers: a value for a key, or nothing for an error, a missing key
-- included; for many keys a value or nil for each, or nothing for an error.
pub record RedisClient : Type 0 where
  pub get_key : String → Option (List ℕ)
  pub mget : List String → Option (List (Option (List ℕ)))

abbrev pub or_store_error : {A : Type 0} → Option A → Fetched A
or_store_error none = store_error
or_store_error (some a) = fetched a

-- `RedisStore.Get`
unfoldable pub redis_get : RedisClient → String → String → String → Fetched (List ℕ)
redis_get client driver store key =
    if driver == "redis" then or_store_error (client.get_key key) else unknown_driver

-- The answers of `MGet`, if there is one for each key.
abbrev pub all_answered :
    List String → Option (List (Option (List ℕ))) → Fetched (List (Option (List ℕ)))
all_answered keys none = store_error
all_answered keys (some vals) =
    if beq (length vals) (length keys) then fetched vals else store_error

-- `RedisStore.GetMany`; a nil slice is an empty list.
unfoldable pub redis_get_many :
    RedisClient → String → String → List String → Fetched (List (Option (List ℕ)))
redis_get_many client driver store keys =
    if driver == "redis"
    then if is_empty keys then fetched [] else all_answered keys (client.mget keys)
    else unknown_driver

abbrev pub redis_store : RedisClient → BodyStore
redis_store client = record { get = redis_get client; get_many = some (redis_get_many client) }

-- The store of a loader with a client, or no store.
abbrev pub client_store : Option RedisClient → Option BodyStore
client_store none = none
client_store (some client) = some (redis_store client)

-- `decrypt` once the key is there.
abbrev pub open_with : Loader → Enc → List ℕ → Option (List ℕ) → Option (List ℕ)
open_with l enc raw none = none
open_with l enc raw (some key) = l.open_sealed key enc.nonce raw

abbrev pub decrypt_by : Loader → Enc → List ℕ → Option (String → Option (List ℕ)) → Option (List ℕ)
decrypt_by l enc raw none = none
decrypt_by l enc raw (some key) =
    if enc.alg == "aes-256-gcm" then open_with l enc raw (key enc.kid) else none

-- `decrypt`
unfoldable pub decrypt : Loader → Enc → List ℕ → Option (List ℕ)
decrypt l enc raw = decrypt_by l enc raw l.keys

abbrev pub plain_of : Loader → List ℕ → Option Enc → Option (List ℕ)
plain_of l raw none = some raw
plain_of l raw (some enc) = decrypt l enc raw

-- `want` of `finish`
unfoldable pub wanted_digest : Locator → String
wanted_digest loc =
    if loc.processed_sha256 == ""
    then if loc.truncated then "" else loc.sha256
    else loc.processed_sha256

-- `finish` from the digest on.
unfoldable pub checked : Loader → Locator → Option (List ℕ) → Body
unfolding wanted_digest
checked l loc none = faulty unavailable_decrypt_fail
checked l loc (some raw) =
    if not (wanted_digest loc == "") && not (wanted_digest loc == l.digest raw)
    then faulty unavailable_digest_fail
    else record no_body { content = raw; truncated = loc.truncated; sha256 = l.digest raw }

-- `finish`
unfoldable pub finish : Loader → Locator → List ℕ → Body
unfolding decrypt checked
finish l loc raw = checked l loc (plain_of l raw loc.enc)

-- The `switch` on the error of `Get`.
abbrev pub loaded : Loader → Locator → Fetched (List ℕ) → Body
loaded l loc unknown_driver = faulty unavailable_unknown_driver
loaded l loc store_error = faulty unavailable_store_error
loaded l loc (fetched raw) = finish l loc raw

abbrev pub load_from : Loader → Locator → Option BodyStore → Body
load_from l loc none = faulty unavailable_no_store
load_from l loc (some store) = loaded l loc (store.get loc.driver loc.store loc.key)

-- `Load`
unfoldable pub load : Loader → Option Locator → Body
unfolding finish
load l none = no_body
load l (some loc) =
    if not (loc.unavailable == "")
    then record no_body { unavailable = loc.unavailable }
    else if not (loc.driver == "")
    then load_from l loc l.store
    else no_body

-- A place of `out`: filled at once, or left for the batch.
pub data Slot : Type 0 where
  done : Body → Slot
  waits : Locator → Slot

-- Whether a locator is read on its own, before the batch is looked at.
unfoldable pub unbatched : Locator → Bool
unbatched loc = not (loc.unavailable == "") || loc.driver == ""

-- `batched && (loc.Driver != driver || loc.Store != store)`
abbrev pub elsewhere : Option (String × String) → Locator → Bool
elsewhere none loc = false
elsewhere (some (driver, store)) loc = not (loc.driver == driver) || not (loc.store == store)

-- The first loop of `LoadMany`: the places, and `driver` and `store` where `batched` is set.
unfoldable pub place :
    Loader → Option (String × String) → List (Option Locator) → List Slot × Option (String × String)
unfolding load unbatched
place l batch [] = ([], batch)
place l batch (none ∷ locs) =
    let (slots, last) = place l batch locs in (done (load l none) ∷ slots, last)
place l batch (some loc ∷ locs) =
    let (others, before) = place l batch locs in
    let (slots, last) = place l (some (loc.driver, loc.store)) locs in
    if unbatched loc || elsewhere batch loc
    then (done (load l (some loc)) ∷ others, before)
    else (waits loc ∷ slots, last)

-- `keys`
unfoldable pub keys_of : List Slot → List String
keys_of [] = []
keys_of (done b ∷ slots) = keys_of slots
keys_of (waits loc ∷ slots) = loc.key ∷ keys_of slots

-- The loops over `at` that give every place of the batch a body.
unfoldable pub fill_with : (Locator → Body) → List Slot → List Body
fill_with f [] = []
fill_with f (done b ∷ slots) = b ∷ fill_with f slots
fill_with f (waits loc ∷ slots) = f loc ∷ fill_with f slots

abbrev pub and_then : Body → Option (List Body) → Option (List Body)
and_then b none = none
and_then b (some out) = some (b ∷ out)

abbrev pub answered : Loader → Locator → Option (List ℕ) → Body
answered l loc none = faulty unavailable_store_error
answered l loc (some raw) = finish l loc raw

-- The loop over the answers; one that is missing is an index out of range, a panic.
unfoldable pub fill_answers : Loader → List Slot → List (Option (List ℕ)) → Option (List Body)
unfolding finish
fill_answers l [] raws = some []
fill_answers l (done b ∷ slots) raws = and_then b (fill_answers l slots raws)
fill_answers l (waits loc ∷ slots) [] = none
fill_answers l (waits loc ∷ slots) (raw ∷ raws) =
    and_then (answered l loc raw) (fill_answers l slots raws)

-- The `switch` on the error of `GetMany`.
abbrev pub batch_answer : Loader → List Slot → Fetched (List (Option (List ℕ))) → Option (List Body)
batch_answer l slots unknown_driver =
    some (fill_with (λ loc. faulty unavailable_unknown_driver) slots)
batch_answer l slots store_error = some (fill_with (λ loc. faulty unavailable_store_error) slots)
batch_answer l slots (fetched raws) = fill_answers l slots raws

-- `driver` and `store`: empty texts where no locator was batched.
abbrev pub batch_address : Option (String × String) → String × String
batch_address none = ("", "")
batch_address (some address) = address

-- `LoadMany` on a store that is a `MultiStore`.
unfoldable pub load_batched :
    Loader
    → (String → String → List String → Fetched (List (Option (List ℕ))))
    → List (Option Locator)
    → Option (List Body)
unfolding place keys_of fill_with fill_answers
load_batched l get_many locs =
    let (slots, batch) = place l none locs in
    let (driver, store) = batch_address batch in
    if ltb (length (keys_of slots)) 2
    then some (fill_with (λ loc. load l (some loc)) slots)
    else batch_answer l slots (get_many driver store (keys_of slots))

abbrev pub multi_of :
    Option BodyStore → Option (String → String → List String → Fetched (List (Option (List ℕ))))
multi_of none = none
multi_of (some s) = s.get_many

abbrev pub load_each :
    Loader
    → List (Option Locator)
    → Option (String → String → List String → Fetched (List (Option (List ℕ))))
    → Option (List Body)
load_each l locs none = some (map (load l) locs)
load_each l locs (some get_many) = load_batched l get_many locs

-- `LoadMany`; `none` is a panic.
unfoldable pub load_many : Loader → List (Option Locator) → Option (List Body)
unfolding load_batched
load_many l locs = load_each l locs (multi_of l.store)
