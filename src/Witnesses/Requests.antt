-- ===== src/Witnesses/Requests.antt =====
-- The theorems on subjects, bodies and handlers at concrete inputs.
use mathlib.Core.Bool.{true≢false}
use placitum_counter.Prelude.{
  All, List, Option, String, [], any, ap, arith, codes, err, false, if◌then◌else◌, is_space, map,
  map_get, map_put, none, ok, pos, refl, select, some, split, sym, true, ℕ, ℤ, ◌++◌, ◌==◌, ◌∷◌, ◌≡◌,
  ◌≢◌,
}
use placitum_counter.Protocol.{Locator, Session}
use placitum_counter.Protocol.Replies.{Reply}
use placitum_counter.Config.Snapshot.{Snapshot}
use placitum_counter.Config.Counters.{kind}
use placitum_counter.Buckets.{Level, ref_union, sort_refs, add_refs, admits, has_ref, live, sum_of}
use placitum_counter.Buckets.Store.{BucketStore, in_process}
use placitum_counter.Decide.Prior.{no_ask}
use placitum_counter.Queue.{Task}
use placitum_counter.Subjects.{Header, SubjectRef, subjects_of, key}
use placitum_counter.Values.{session_value, cookie_from, cookie_in}
use placitum_counter.Subjects.Keyed.{direct_key, key-subjects_of}
use placitum_counter.Values.Chosen.{IsChosen, session_value-IsChosen}
use placitum_counter.Values.Cookies.{first_value, cookie_from-eq-first_value}
use placitum_counter.Values.Jar.{
  IsPlain, print_jar, jar_get, name_rune, value_rune, cookie_in-print_jar,
}
use placitum_counter.Body.{Body, Loader, RedisClient, redis_store, load, load_many}
use placitum_counter.Body.Digest.{AllSound, load_many-AllSound}
use placitum_counter.Body.Batched.{load_many-eq-load}
use placitum_counter.Handler.Env.{Env, rule_ref, outcome_refs, lookup_in}
use placitum_counter.Handler.Judge.{judge_keys, judge_apply}
use placitum_counter.Handler.Dispatch.{Message, decoded, receive, send, evaluate}
use placitum_counter.Handler.Sent.{IsAnswer, IsSent, send-IsSent}
use placitum_counter.Handler.Answers.{evaluate-IsAnswer}
use placitum_counter.Handler.Receipt.{IsReceived, receive-IsReceived}
use placitum_counter.Handler.Lookups.{IsLookedUp, judge-IsLookedUp}
use placitum_counter.Witnesses.Data.{int_float, counters, profile, request}

abbrev digest_of : List ℕ → List ℕ
digest_of s = s

abbrev hex_of : List ℕ → String
hex_of s = "5f"

abbrev resolve : String → String × String
resolve client = ("10.0.0.0/8", "as64500")

abbrev refs : List SubjectRef
refs =
    record { counter = "login"; axis = "ip" }
    ∷ record { counter = "login"; axis = "user" }
    ∷ record { counter = "login"; axis = "asn_net" }
    ∷ []

abbrev headers : List Header
headers = record { name = "X-User"; value = "ann" } ∷ []

abbrev session : Session
session = record { inspector = "auth"; source = "jwt"; user = "ann"; id = "s1"; verified = true }

abbrev sessions : List Session
sessions = record session { user = "eve"; verified = false } ∷ session ∷ []

key-subjects_of_example :
    All
      (λ r.
        key counters
          (subjects_of counters digest_of hex_of resolve refs "10.0.0.1" headers sessions "")
          r.counter
          r.axis
        ≡ direct_key digest_of hex_of headers sessions counters resolve "10.0.0.1" "" r.counter
            r.axis)
      refs
key-subjects_of_example =
    key-subjects_of counters digest_of hex_of resolve "10.0.0.1" headers sessions "" refs

session_value-IsChosen_example :
    IsChosen (codes "user") sessions (session_value sessions (codes "user"))
session_value-IsChosen_example = session_value-IsChosen (codes "user") sessions

cookie_from-eq-first_value_example :
    cookie_from 20 (codes "a=1; b=2") (codes "b")
    ≡ some (first_value (codes "b") (split b';' (codes "a=1; b=2")))
cookie_from-eq-first_value_example =
    cookie_from-eq-first_value (codes "b") 20 (codes "a=1; b=2") (omega arith)

abbrev jar : List (List ℕ × List ℕ)
jar = (codes "a", codes "1") ∷ (codes "b", codes "3") ∷ []

cookie_in-print_jar_example : cookie_in (print_jar jar) (codes "b") ≡ jar_get (codes "b") jar
unfolding name_rune value_rune is_space
cookie_in-print_jar_example =
    let second : IsPlain (codes "b", codes "3") = ((refl, tt), (refl, tt)) in
    let rest : All IsPlain ((codes "b", codes "3") ∷ []) = (second, tt) in
    cookie_in-print_jar (codes "b") jar (((refl, tt), (refl, tt)), rest)

abbrev get_key : String → Option (List ℕ)
get_key k = if k == "h1" then some (codes "[]") else none

abbrev client : RedisClient
client = record { get_key = get_key; mget = λ keys. some (map get_key keys) }

abbrev loader : Loader
loader = record {
  store = some (redis_store client);
  keys = none;
  digest = hex_of;
  open_sealed = λ k nonce raw. some raw;
}

abbrev locator : Locator
locator = record {
  store = "main";
  driver = "redis";
  key = "h1";
  unavailable = "";
  size = pos 2;
  sha256 = "5f";
  processed_sha256 = "";
  truncated = false;
  enc = none;
}

abbrev locators : List (Option Locator)
locators = some locator ∷ none ∷ some (record locator { key = "b1" }) ∷ []

load_many-AllSound_example :
    (out : List Body) × (load_many loader locators ≡ some out) × AllSound loader locators out
load_many-AllSound_example = load_many-AllSound loader (some client) refl locators

load_many-eq-load_example : load_many loader locators ≡ some (map (load loader) locators)
load_many-eq-load_example = load_many-eq-load loader client refl (λ keys. refl) locators

abbrev snapshot : Snapshot ℤ
snapshot = record {
  gen = 1;
  fingerprint = "";
  by_name = ("default", profile) ∷ [];
  names = "default" ∷ [];
  counters = counters;
  tiers = ("login:ip", record { max = pos 100; loss = pos 5 }) ∷ [];
}

abbrev env : Env ℤ
env = record {
  name = "counter";
  versions = pos 2 ∷ [];
  snapshot = some snapshot;
  loader = loader;
  resolver = some resolve;
  geo_write = λ write addr. err "down";
  lists = true;
  networked = λ write. false;
  decode_headers = λ raw. some [];
  sha256 = digest_of;
  hex = hex_of;
  find_all = λ re body. 0;
}

abbrev bkt : BucketStore ℤ
bkt = in_process 10 []

abbrev inbox : String
inbox = "_INBOX.1"

abbrev task : Task
task = record { req = request; reply = inbox; personal = false; fill = 0; enqueued = pos 0 }

has_subject : inbox ≢ ""
has_subject e = true≢false (sym (ap (λ s. s == "") e))

evaluate-IsAnswer_example : IsAnswer inbox "a1" (evaluate env task "" bkt (pos 3)).sent
evaluate-IsAnswer_example = evaluate-IsAnswer env task "" bkt (pos 3) has_subject

abbrev message : Message
message = record { payload = decoded request; reply = inbox }

receive-IsReceived_example :
    IsReceived (pos 2 ∷ []) message (receive "counter" (pos 2 ∷ []) message)
receive-IsReceived_example = receive-IsReceived "counter" (pos 2 ∷ []) message has_subject

abbrev reply : Reply
reply = record {
  v = pos 2;
  rid = "a1";
  inspector = "counter";
  verdict = "score";
  score = some (pos 300);
  reason = none;
  response = none;
  actions = [];
  cache = none;
}

send-IsSent_example : IsSent inbox reply (send inbox reply)
send-IsSent_example = send-IsSent inbox reply has_subject

abbrev levels : List (Level ℤ)
levels =
    record {
      ref = record { kind = "login:ip"; key = "10.0.0.1/32" };
      score = pos 0;
      percent = pos 0;
    }
    ∷ []

applied : judge_apply env request profile snapshot no_ask bkt (pos 3) [] ≡ (ok levels, bkt)
unfolding judge_apply ref_union sort_refs add_refs map_get map_put admits kind any has_ref live
    select sum_of
applied = refl

judge-IsLookedUp_example :
    All
      (λ r.
        IsLookedUp counters snapshot.tiers levels r
          (direct_key digest_of hex_of [] [] counters resolve "10.0.0.1" "" r.counter r.axis)
          (lookup_in counters
            (judge_keys env request profile snapshot no_ask [])
            levels
            r.counter
            r.axis))
      (map rule_ref profile.request.judge ++ outcome_refs profile.request.outcomes)
judge-IsLookedUp_example =
    judge-IsLookedUp env request profile snapshot no_ask bkt bkt (pos 3) [] levels applied
