-- ===== src/Config/File.antt =====
-- internal/config/file.go: the directives of inspector.conf. `url.Parse` (the host and the scheme of
-- an address), `strconv.Atoi` and the letters and digits of `unicode` are parameters. An error that
-- wraps another is the one that it wraps.
use placitum_counter.Prelude.{
  Bool, List, Option, Result, String, [], any, beq, codes, err, fail_if, false, if◌then◌else◌,
  is_empty, ltb_ℤ, none, not, ok, pos, some, split, text_eq, trim_space, ℕ, ℤ, ◌&&◌, ◌++◌, ◌>>=◌,
  ◌>>◌, ◌||◌, ◌∷◌,
}
use placitum_counter.Config.Counters.{cut}
pub mod Accepted

-- `queueFile`
pub record QueueFile : Type 0 where
  pub max : Option ℤ
  pub full : List ℕ
  pub expand : List ℕ
  pub redis_url : List ℕ
  pub redis_internal : List ℕ

abbrev pub no_file : QueueFile
no_file = record { max = none; full = []; expand = []; redis_url = []; redis_internal = [] }

-- What the loop of `parseQueueFile` keeps; `block` is empty outside a block.
pub record Scan : Type 0 where
  pub out : QueueFile
  pub seen : List (List ℕ)
  pub block : List ℕ

-- The functions of Go's library that the file is read with.
pub record Reader : Type 0 where
  pub parse_url : List ℕ → Option (List ℕ × List ℕ)
  pub atoi : List ℕ → Option ℤ
  pub letter_or_digit : ℕ → Bool

abbrev pub is_word : List ℕ → String → Bool
is_word s w = text_eq s (codes w)

unfoldable pub has_text : List (List ℕ) → List ℕ → Bool
has_text seen s = any (λ t. text_eq t s) seen

abbrev uncommented : List ℕ → Option (List ℕ × List ℕ) → List ℕ
uncommented line none = line
uncommented line (some (text, comment)) = text

-- `confText`
unfoldable pub conf_text : List ℕ → List ℕ
unfolding cut trim_space
conf_text line = trim_space (uncommented line (cut b'#' line))

abbrev pub after_first : ℕ → Option (List ℕ) → Option (List ℕ)
after_first c none = none
after_first c (some s) = some (c ∷ s)

-- `strings.CutSuffix` of one rune, also `strings.HasSuffix` with `strings.TrimSuffix`.
unfoldable pub cut_suffix : ℕ → List ℕ → Option (List ℕ)
cut_suffix suffix [] = none
cut_suffix suffix (c ∷ []) = if beq c suffix then some [] else none
cut_suffix suffix (c ∷ (d ∷ s)) = after_first c (cut_suffix suffix (d ∷ s))

abbrev trimmed_or : String → Option (List ℕ) → Result (List ℕ)
trimmed_or e none = err e
trimmed_or e (some s) = ok (trim_space s)

-- `requireSemicolon`
unfoldable pub require_semicolon : List ℕ → Result (List ℕ)
unfolding cut_suffix trim_space
require_semicolon text = trimmed_or "missing semicolon" (cut_suffix b';' text)

module _ (reader : Reader) where
  open reader use {parse_url, atoi, letter_or_digit}

  -- `isConfName`
  unfoldable pub is_conf_name : List ℕ → Bool
  is_conf_name s =
      not (is_empty s) && not (any (λ c. not (beq c b'_') && not (letter_or_digit c)) s)

  abbrev one_value : Option (List ℕ × List ℕ) → Result (List ℕ × List ℕ)
  one_value none = err "directive %q has no value"
  one_value (some (key, rest)) = do
    fail_if (not (is_conf_name key)) "invalid directive name %q"
    fail_if (is_empty (trim_space rest) || any (λ c. beq c b' ' || beq c 9) (trim_space rest))
        "directive %s expects one value"
    ok (key, trim_space rest)

  -- `splitDirective`
  unfoldable pub split_directive : List ℕ → Result (List ℕ × List ℕ)
  unfolding trim_space cut is_conf_name
  split_directive stmt = do
    fail_if (is_empty (trim_space stmt)) "empty directive"
    one_value (cut b' ' (trim_space stmt))

  abbrev redis_parts : Option (List ℕ × List ℕ) → Bool
  redis_parts none = false
  redis_parts (some (host, scheme)) =
      not (is_empty host) && (is_word scheme "redis" || is_word scheme "rediss")

  -- `isRedisURL`
  unfoldable pub is_redis_url : List ℕ → Bool
  is_redis_url s = redis_parts (parse_url s)

  abbrev pub set_redis : List ℕ → List ℕ → QueueFile → QueueFile
  set_redis key value f =
      if is_word key "url"
      then record f { redis_url = value }
      else record f { redis_internal = value }

  -- `parseRedisKey` with the key and the value.
  abbrev pub redis_key : Scan → List ℕ × List ℕ → Result Scan
  redis_key st (key, value) =
      fail_if (has_text st.seen (codes "redis." ++ key)) "redis %s is set twice"
      >> (fail_if (not (is_word key "url") && not (is_word key "internal"))
            "unknown key %q in the redis block, want url or internal"
          >> (fail_if (not (is_redis_url value))
                "redis %s must be redis://host:port[/db] or rediss://..., got %q"
              >> ok (record st {
                seen = (codes "redis." ++ key) ∷ st.seen;
                out = set_redis key value st.out;
              })))

  -- `parseRedisKey`
  unfoldable pub parse_redis_key : Scan → List ℕ → Result Scan
  unfolding require_semicolon split_directive has_text is_redis_url
  parse_redis_key st text = require_semicolon text >>= λ stmt.
      split_directive stmt >>= λ directive. redis_key st directive

  abbrev pub set_max : QueueFile → Option ℤ → Result QueueFile
  set_max f none = err "%s:%d: queue_max must be a positive integer, got %q"
  set_max f (some v) =
      fail_if (ltb_ℤ v (pos 1)) "%s:%d: queue_max must be a positive integer, got %q"
      >> ok (record f { max = some v })

  -- The `switch` on the key of a directive.
  unfoldable pub set_directive : QueueFile → List ℕ → List ℕ → Result QueueFile
  set_directive f key value =
      if is_word key "queue_max"
      then set_max f (atoi value)
      else if is_word key "queue_full"
      then fail_if (not (is_word value "drop" || is_word value "wait"))
          "%s:%d: queue_full must be drop or wait, got %q"
        >> ok (record f { full = value })
      else if is_word key "queue_expand"
      then fail_if (not (is_word value "off" || is_word value "ask"))
          "%s:%d: queue_expand must be off or ask, got %q"
        >> ok (record f { expand = value })
      else err "%s:%d: unknown directive %q"

  abbrev pub directive : Scan → List ℕ × List ℕ → Result Scan
  directive st (key, value) =
      fail_if (has_text st.seen key) "%s:%d: %s is set twice"
      >> (set_directive st.out key value >>= λ f. ok (record st { seen = key ∷ st.seen; out = f }))

  abbrev pub open_block : Scan → List ℕ → Result Scan
  open_block st head =
      fail_if (not (is_word head "redis")) "%s:%d: unknown block %q"
      >> (fail_if (has_text st.seen head) "%s:%d: %s block is set twice"
          >> ok (record st { seen = head ∷ st.seen; block = head }))

  -- A line outside a block.
  abbrev pub top_line : Scan → List ℕ → Option (List ℕ) → Result Scan
  top_line st text (some head) = open_block st (trim_space head)
  top_line st text none =
      require_semicolon text >>= λ stmt. split_directive stmt >>= λ d. directive st d

  -- A line that is not empty.
  abbrev pub scan_text : Scan → List ℕ → Result Scan
  scan_text st text =
      if not (is_empty st.block)
      then if is_word text "}" then ok (record st { block = [] }) else parse_redis_key st text
      else if is_word text "}"
      then err "%s:%d: unexpected }"
      else top_line st text (cut_suffix b'{' text)

  -- A round of the loop of `parseQueueFile`.
  unfoldable pub scan_line : Scan → List ℕ → Result Scan
  unfolding conf_text parse_redis_key require_semicolon split_directive set_directive has_text
      cut_suffix trim_space
  scan_line st line = if is_empty (conf_text line) then ok st else scan_text st (conf_text line)

  unfoldable pub scan_lines : Scan → List (List ℕ) → Result Scan
  unfolding scan_line
  scan_lines st [] = ok st
  scan_lines st (l ∷ ls) = scan_line st l >>= λ next. scan_lines next ls

  abbrev pub closed : Scan → Result QueueFile
  closed st = fail_if (not (is_empty st.block)) "%s:%d: %s block is not closed" >> ok st.out

  -- `parseQueueFile`
  unfoldable pub parse_queue_file : List ℕ → Result QueueFile
  unfolding scan_lines split
  parse_queue_file src =
      scan_lines (record { out = no_file; seen = []; block = [] }) (split 10 src) >>= λ st.
      closed st

-- `queueSettings`
pub record QueueSettings : Type 0 where
  pub max : ℤ
  pub full : List ℕ
  pub expand : List ℕ

abbrev pub max_or : ℤ → Option ℤ → ℤ
max_or current none = current
max_or current (some v) = v

abbrev pub text_or : List ℕ → List ℕ → List ℕ
text_or current v = if is_empty v then current else v

-- `applyQueueFile`
unfoldable pub apply_queue_file : QueueSettings → QueueFile → QueueSettings
apply_queue_file c f = record {
  max = max_or c.max f.max;
  full = text_or c.full f.full;
  expand = text_or c.expand f.expand;
}
