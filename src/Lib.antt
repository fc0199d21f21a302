-- ===== src/Lib.antt =====
-- The counter inspector: it keeps leaky buckets per counter and axis, judges requests and frames by
-- the bucket levels, and sends actions and list writes to its neighbours.
--
-- A message goes through the pool of tasks, is parsed, and finds its profile. What earlier inspectors
-- asked for is evaluated first; then the levels of the buckets are read, the judge rules decide, the
-- outcomes fire, and the reply is built. In the response phase the measure rules give the amounts
-- that the buckets are charged with.
--
-- Parts and files, with the paths of the code:
--   Overload          internal/overload/overload.go: at, check, fires.
--   Protocol          internal/protocol/protocol.go: the messages; Checks has CheckArchiveWhen,
--                     CheckObjectSpec and CheckMarker, Replies has Parse behind the JSON decoder and
--                     the replies, Parsed what Parse accepts.
--   Config            internal/config/profile.go and counters.go: Types (the structs), Names (the
--                     expressions), Outcome, Counters (the queries), Counters/Valid (validate),
--                     Counters/Tiers, Counters/Axes, and Validate: Asks (validateOutcomeAsk), Outcomes
--                     (validateOutcome), Rules (validatePrior, validateJudge, validateMeasure),
--                     Profiles (Validate), Against (ValidateAgainst), with Sound, Owner,
--                     AskSound and OutcomeSound on what they accept. File is inspector.conf
--                     (internal/config/file.go), Environment and Load are internal/config/config.go,
--                     Accepted and Loaded are on them, with Produced on results; Snapshot is Profile of
--                     internal/config/profiles.go.
--   Decide            internal/decide/decide.go: judge, with Taking, Verdict and Observe on its
--                     decision; Fire has Fire and FireOverload, with Selected and Quiet on them; Prior
--                     (with Deliveries, Percent, Charges and Noted) and Scale are internal/decide/prior.go.
--   Buckets           internal/buckets/buckets.go: Apply on the ledger of the process, with Union and
--                     Ledger on it; Remote has applyRedis, with Agree on it.
--   Queue             internal/queue/queue.go: the pool; each locked section is a function, and Steps
--                     puts those of all goroutines in any order.
--   Measure           internal/measure/measure.go, and Match of internal/config/profile.go.
--   Handler           cmd/inspector/handler.go, frame.go and lists.go: the reply of a decision, and in
--                     Frame that of a frame; Env is what the handlers call (writeLists, noteCharges),
--                     Inputs what they read, Judge, Measured and Framed are judge, measure and frame,
--                     Dispatch is receive, evaluate, inspect and send; Replies, Accepted, Sent, Rids,
--                     Answers, Receipt and Lookups are on them.
--   Prelude           shared tests, lists, results, integers and texts; Float is float64.
--   Values            cmd/inspector/subjects.go: sessionValue, with Chosen on it, and cookieFrom, with
--                     Cookies and Jar on it.
--   Subjects          cmd/inspector/subjects.go: the keys of a request; Keyed (with Noted and Sources) is
--                     on subjectsOf.
--   Body              internal/body: Load and LoadMany with the reads of Redis; Digest and Batched are
--                     on them.
--   Witnesses         the theorems at concrete inputs.
--
-- Conventions. An int is a signed integer over the native numbers; where the code adds without a
-- bound, the sum wraps at 64 bits (add64). A text is a list of runes: the length of a marker is counted
-- in bytes of UTF-8, and `ToLower` and `EqualFold` are exact for the ASCII letters, which all the
-- words that the code compares with consist of. A float64 is a parameter with the comparisons' laws of
-- IEEE 754, NaN included. An error is the format text of its message. A Go map is a list of pairs in
-- the order in which `range` meets it. The clock is an argument. Loops are structural recursions but
-- for the loop of cookieFrom, which has as much fuel as the line is long, and one more: every round
-- takes a rune at least. A panic of LoadMany or Run is a result of its own, which recoverInto answers;
-- no other panic is modelled, so a resolver that list writes need is there. The pool's counters do not
-- wrap.
--
-- Parameters for code that is not here: the environment, the file system, `Atoi`, `ParseDuration`,
-- `url.Parse`, `loglevel.Parse` and `filepath.Abs` of the loader, `regexp` (whether a text compiles, how many matches a body
-- has), the Redis clients, the secret source, ciphers, SHA-256 and hexadecimal printing, the resolver
-- of networks, the decoder of headers, the publisher of list writes, and float64.
--
-- Not modelled: logs, audit records and details, the reading and reloading of
-- profiles, desired state and the start of the process, which are input and output for the most part;
-- YAML and JSON decoding, contexts and timeouts, which are libraries.
pub mod Prelude
pub mod Overload
pub mod Protocol
pub mod Config
pub mod Decide
pub mod Buckets
pub mod Queue
pub mod Measure
pub mod Handler
pub mod Values
pub mod Subjects
pub mod Body
pub mod Witnesses
