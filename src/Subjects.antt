-- ===== src/Subjects.antt =====
-- cmd/inspector/subjects.go: the keys of the buckets that a request is about. The resolver of
-- networks and routers and SHA-256 with the hexadecimal printing of its bytes are parameters; a
-- request calls the resolver at most once, and its context is not modelled. The set of the sources is
-- a list of distinct texts.
use placitum_counter.Prelude.{
  Bool, List, Option, String, [], any, codes, contains, equal_fold, false, foldl, if◌then◌else◌,
  is_empty, map_get, map_put, none, not, take, text_eq, true, ℕ, ◌&&◌, ◌++◌, ◌==◌, ◌||◌, ◌∷◌,
}
use Prim.Native.String
use placitum_counter.Protocol.{Session}
use placitum_counter.Config.Types.{Counters}
use placitum_counter.Config.Counters.{sess_cookie, user_from, wants_headers, cut}
use placitum_counter.Buckets.{ip_key}
use placitum_counter.Values.{session_value, whole, cookie_in}
pub mod Noted
pub mod Sources
pub mod Keyed

pub record Header : Type 0 where
  pub name : String
  pub value : String

pub record SubjectRef : Type 0 where
  pub counter : String
  pub axis : String

-- `subjectKeys` without the counters.
pub record SubjectKeys : Type 0 where
  pub by_axis : List (String × String)
  pub by_source : List (String × String)

-- The loop's test for the axes that the resolver answers.
unfoldable pub resolved : SubjectRef → Bool
resolved r = r.axis == "asn_net" || r.axis == "asn_router"

-- `needsResolver`
unfoldable pub needs_resolver : List SubjectRef → Bool
unfolding resolved
needs_resolver refs = any resolved refs

-- The source of the sess axis of a cookie.
abbrev pub cookie_source : String → String
cookie_source cookie = String.◌++◌ "cookie:" cookie

-- Which subjects the loop over the references has met, and the sources in the order of their
-- first reference.
pub record Needs : Type 0 where
  pub need_ip : Bool
  pub need_net : Bool
  pub need_router : Bool
  pub need_conn : Bool
  pub sources : List String

abbrev pub no_needs : Needs
no_needs = record {
  need_ip = false;
  need_net = false;
  need_router = false;
  need_conn = false;
  sources = [];
}

-- `sources[src] = true`
unfoldable pub add_source : String → Needs → Needs
add_source src n =
    if contains n.sources src then n else record n { sources = n.sources ++ (src ∷ []) }

-- The loop of `cookieValue`.
unfoldable pub cookie_loop : List Header → List ℕ → List ℕ
unfolding cookie_in equal_fold
cookie_loop [] name = []
cookie_loop (h ∷ hs) name =
    let rest = cookie_loop hs name in
    let v = cookie_in (codes h.value) name in
    if not (equal_fold (codes h.name) (codes "cookie"))
    then rest
    else if is_empty v
    then rest
    else v

-- `cookieValue`
unfoldable pub cookie_value : List Header → List ℕ → List ℕ
unfolding cookie_loop
cookie_value pairs name = if is_empty name then [] else cookie_loop pairs name

-- The first header of a name, whatever its case.
unfoldable pub header_named : List Header → List ℕ → String
unfolding equal_fold
header_named [] name = ""
header_named (h ∷ hs) name =
    let rest = header_named hs name in if equal_fold (codes h.name) name then h.value else rest

-- The `switch` on the kind of a source.
unfoldable pub kind_value : List Header → List Session → List ℕ × List ℕ → List ℕ
unfolding cookie_value header_named session_value
kind_value headers sessions (kind, name) =
    if text_eq kind (codes "cookie")
    then cookie_value headers name
    else if text_eq kind (codes "header")
    then codes (header_named headers name)
    else if text_eq kind (codes "session")
    then codes (session_value sessions name)
    else []

-- `v` of the loop over the sources.
unfoldable pub source_value : List Header → List Session → String → List ℕ
unfolding kind_value cut
source_value headers sessions src =
    kind_value headers sessions (whole (codes src) (cut b':' (codes src)))

-- `if cond { m[k] = v }`
unfoldable pub put_if {ℓ} : {V : Type ℓ} → Bool → String → V → List (String × V) → List (String × V)
put_if b k v m = if b then map_put k v m else m

unfoldable pub present : String → Bool
present s = not (s == "")

module _ (sha256 : List ℕ → List ℕ) (hex : List ℕ → String) where
  -- `subjectHash`
  unfoldable pub subject_hash : List ℕ → String
  subject_hash value = hex (take 8 (sha256 value))

  -- The loop over the sources.
  unfoldable pub fill_sources :
      List Header → List Session → List String → List (String × String) → List (String × String)
  unfolding source_value subject_hash put_if
  fill_sources headers sessions [] m = m
  fill_sources headers sessions (src ∷ srcs) m =
      let v = source_value headers sessions src in
      fill_sources headers sessions srcs (put_if (not (is_empty v)) src (subject_hash v) m)

-- `byAxis`, with the answer of the resolver for the client.
unfoldable pub fill_axes : Needs → String → String → String × String → List (String × String)
unfolding put_if present ip_key
fill_axes n client conn (network, router) =
    let reachable = (n.need_net || n.need_router) && present client in
    put_if (reachable && n.need_router && present router) "asn_router" router (
      put_if (reachable && n.need_net && present network) "asn_net" network (
        put_if (n.need_conn && present conn) "conn" (String.◌++◌ "conn:" conn)
          (put_if (n.need_ip && present client) "ip" (ip_key client) [])))

module _ {F : Type 0} (counters : Counters F) where
  -- One round of the loop over the references.
  unfoldable pub note_need : Needs → SubjectRef → Needs
  unfolding add_source sess_cookie user_from
  note_need n r =
      if r.axis == "ip"
      then record n { need_ip = true }
      else if r.axis == "asn_net"
      then record n { need_net = true }
      else if r.axis == "asn_router"
      then record n { need_router = true }
      else if r.axis == "conn"
      then record n { need_conn = true }
      else if r.axis == "sess"
      then add_source (cookie_source (sess_cookie counters r.counter)) n
      else if r.axis == "user" && present (user_from counters r.counter)
      then add_source (user_from counters r.counter) n
      else n

  unfoldable pub wants_store : SubjectRef → Bool
  unfolding user_from wants_headers
  wants_store r =
      r.axis == "sess" || r.axis == "user" && wants_headers (user_from counters r.counter)

  -- `hasConfigurable`
  unfoldable pub has_configurable : List SubjectRef → Bool
  unfolding wants_store
  has_configurable refs = any wants_store refs

  -- `subjectsOf`
  unfoldable pub subjects_of :
      (sha256 : List ℕ → List ℕ) (hex : List ℕ → String) (resolve : String → String × String)
      → List SubjectRef
      → String
      → List Header
      → List Session
      → String
      → SubjectKeys
  unfolding note_need fill_axes fill_sources
  subjects_of sha256 hex resolve refs client headers sessions conn =
      let needs = foldl note_need no_needs refs in
      record {
        by_axis = fill_axes needs client conn (resolve client);
        by_source = fill_sources sha256 hex headers sessions needs.sources [];
      }

  -- `subjectKeys.key`
  unfoldable pub key : SubjectKeys → String → String → Option String
  unfolding sess_cookie user_from
  key k counter axis =
      if axis == "sess"
      then map_get (cookie_source (sess_cookie counters counter)) k.by_source
      else if axis == "user"
      then (if user_from counters counter == ""
          then none
          else map_get (user_from counters counter) k.by_source)
      else map_get axis k.by_axis
