-- ===== src/Protocol/Parsed.antt =====
-- internal/protocol/protocol.go: the requests that `Parse` accepts.
use placitum_counter.Prelude.{
  >>-IsOk, Bool, IsOk, Option, arith, beq_ℤ, fail_if, fail_if->>-IsOk, fail_if-IsOk, false,
  if◌then◌else◌, none, not, not-eq-false, or-eq-false, pos, some, true, ◌&&◌, ◌==◌, ◌||◌, ◌≡◌,
}
use placitum_counter.Protocol.{
  Locator, Store, Request, Release, phase_request, phase_response, phase_frame,
}
use placitum_counter.Protocol.Replies.{check_locator, check_store, check_release, parse}

-- An object of a store has an address, a driver with a key, or none; an unavailable one has none.
abbrev pub IsAddressed : Option Locator → Type 0
IsAddressed none = Unit
IsAddressed (some l) =
    ((l.driver == "") ≡ (l.key == "")) × ((l.unavailable == "") ≡ false → (l.driver == "") ≡ true)

address_lem :
    (u d k : Bool)
    → (not u && (not d || not k)) ≡ false
    → (if d then not k else k) ≡ false
    → (d ≡ k) × (u ≡ false → d ≡ true)
address_lem u d k h g = (ground arith, λ e. ground arith)

check_locator-IsAddressed : (o : Option Locator) → IsOk (check_locator o) → IsAddressed o
unfolding check_locator
check_locator-IsAddressed none h = tt
check_locator-IsAddressed (some l) h =
    let mixed = not (l.unavailable == "") && (not (l.driver == "") || not (l.key == "")) in
    let half = if l.driver == "" then not (l.key == "") else l.key == "" in
    let a = fail_if->>-IsOk mixed _ (fail_if half _) h in
    address_lem (l.unavailable == "") (l.driver == "") (l.key == "") a.0 (fail_if-IsOk half _ a.1)

pub record IsAddressedStore (s : Store) : Type 0 where
  pub headers : IsAddressed s.headers
  pub args : IsAddressed s.args
  pub body : IsAddressed s.body

check_store-IsAddressedStore : (s : Store) → IsOk (check_store s) → IsAddressedStore s
unfolding check_store
check_store-IsAddressedStore s h =
    let a = >>-IsOk (check_locator s.headers) _ h in
    let b = >>-IsOk (check_locator s.args) _ a.1 in
    record {
      headers = check_locator-IsAddressed s.headers a.0;
      args = check_locator-IsAddressed s.args b.0;
      body = check_locator-IsAddressed s.body b.1;
    }

-- A release names its token; any other message has its stores addressed.
abbrev pub HasTarget : Request → Option Release → Type 0
HasTarget r none =
    ((r.method == "") ≡ false)
    × ((r.uri == "") ≡ false)
    × IsAddressedStore r.store
    × IsAddressedStore r.request_store
HasTarget r (some release) = (release.token == "") ≡ false

check_release-HasTarget :
    (r : Request) (o : Option Release) → IsOk (check_release r o) → HasTarget r o
check_release-HasTarget r none h =
    let a = fail_if->>-IsOk _ _ _ h in
    let b = >>-IsOk (check_store r.store) _ a.1 in
    let c = >>-IsOk (check_store r.request_store) _ b.1 in
    let named = or-eq-false (r.method == "") (r.uri == "") a.0 in
    (
      named.0,
      named.1,
      check_store-IsAddressedStore r.store b.0,
      check_store-IsAddressedStore r.request_store c.0,
    )
check_release-HasTarget r (some release) h = (fail_if->>-IsOk _ _ _ h).0

pub record IsValidRequest (r : Request) : Type 0 where
  pub rid : (r.rid == "") ≡ false
  pub version : beq_ℤ r.v (pos 0) ≡ false
  pub inspector : (r.inspector == "") ≡ false
  pub phase :
      (r.phase == phase_request || r.phase == phase_response || r.phase == phase_frame) ≡ true
  pub target : HasTarget r r.release

-- A request that `Parse` accepts has a request id, a version, an inspector and a known phase. It is
-- a release with a token, or it has a method and a path and every object of its two stores has a
-- driver and a key or neither, and neither when it is unavailable.
pub parse-IsValidRequest : (r : Request) → IsOk (parse r) → IsValidRequest r
unfolding parse
parse-IsValidRequest r h =
    let a = fail_if->>-IsOk _ _ _ h in
    let b = fail_if->>-IsOk _ _ _ a.1 in
    let c = fail_if->>-IsOk _ _ _ b.1 in
    let d = fail_if->>-IsOk _ _ _ c.1 in
    record {
      rid = a.0;
      version = b.0;
      inspector = c.0;
      phase = not-eq-false _ d.0;
      target = check_release-HasTarget r r.release d.1;
    }
