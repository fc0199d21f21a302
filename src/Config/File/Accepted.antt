-- ===== src/Config/File/Accepted.antt =====
-- internal/config/file.go: what an accepted inspector.conf can say, and what it leaves of the
-- settings that it is applied to.
use mathlib.Core.Bool.{true≢false}
use placitum_counter.Prelude.{
  Bool, Bool-cases, List, Option, String, [], codes, fail_if, false, if◌then◌else◌, inl, inr,
  is_empty, ltb_ℤ, none, not, not-eq-false, ok, pos, some, split, trim_space, true, ℕ, ℤ, ◌&&◌,
  ◌++◌, ◌>>◌, ◌||◌, ◌∷◌, ◌≡◌,
}
use placitum_counter.Config.Produced.{
  accept, refused, WhenOk, WhenOk->>=, WhenOk-any->>=, WhenOk-if, WhenOk->>, WhenOk-fail_if-ok,
  WhenOk-eq,
}
use placitum_counter.Config.File.{
  Reader, QueueFile, QueueSettings, Scan, no_file, is_word, parse_queue_file, scan_lines, scan_line,
  top_line, directive, set_directive, set_max, parse_redis_key, redis_key, set_redis, is_redis_url,
  conf_text, require_semicolon, split_directive, has_text, cut_suffix, apply_queue_file, max_or,
  text_or,
}

-- A limit that is set is at least one.
abbrev IsLimit : Option ℤ → Type 0
IsLimit none = Unit
IsLimit (some v) = ltb_ℤ v (pos 1) ≡ false

-- A word that is set is one of two.
abbrev IsChoice : String → String → List ℕ → Type 0
IsChoice a b s = is_empty s ≡ false → (is_word s a || is_word s b) ≡ true

-- The settings of the queue that `validate` accepts.
pub record IsQueueSettings (c : QueueSettings) : Type 0 where
  pub limit : ltb_ℤ c.max (pos 1) ≡ false
  pub full_choice : (is_word c.full "drop" || is_word c.full "wait") ≡ true
  pub expand_choice : (is_word c.expand "off" || is_word c.expand "ask") ≡ true

module _ (reader : Reader) where
  -- What an accepted file says.
  pub record IsQueueFile (f : QueueFile) : Type 0 where
    pub limit : IsLimit f.max
    pub full_choice : IsChoice "drop" "wait" f.full
    pub expand_choice : IsChoice "off" "ask" f.expand
    pub exchange_address : is_empty f.redis_url ≡ false → is_redis_url reader f.redis_url ≡ true
    pub internal_address :
        is_empty f.redis_internal ≡ false → is_redis_url reader f.redis_internal ≡ true

  no_file-IsQueueFile : IsQueueFile no_file
  no_file-IsQueueFile = record {
    limit = tt;
    full_choice = λ h. absurd (true≢false h);
    expand_choice = λ h. absurd (true≢false h);
    exchange_address = λ h. absurd (true≢false h);
    internal_address = λ h. absurd (true≢false h);
  }

  abbrev IsScan : Scan → Type 0
  IsScan st = IsQueueFile st.out

  address_set :
      (b : Bool) (value : List ℕ) (f : QueueFile)
      → is_redis_url reader value ≡ true
      → IsQueueFile f
      → IsQueueFile
          (if b then record f { redis_url = value } else record f { redis_internal = value })
  address_set true value f good h = record {
    limit = h.limit;
    full_choice = h.full_choice;
    expand_choice = h.expand_choice;
    exchange_address = λ full. good;
    internal_address = h.internal_address;
  }
  address_set false value f good h = record {
    limit = h.limit;
    full_choice = h.full_choice;
    expand_choice = h.expand_choice;
    exchange_address = h.exchange_address;
    internal_address = λ full. good;
  }

  address-IsScan :
      (st : Scan) (seen : List (List ℕ)) (key value : List ℕ)
      → IsScan st
      → WhenOk IsScan (
          fail_if
            (not (is_redis_url reader value))
            "redis %s must be redis://host:port[/db] or rediss://..., got %q"
          >> ok (record st { seen = seen; out = set_redis reader key value st.out }))
  address-IsScan st seen key value h =
      WhenOk-fail_if-ok _ _ _
        λ good. address_set (is_word key "url") value st.out (not-eq-false _ good) h

  redis_key-IsScan :
      (st : Scan) (entry : List ℕ × List ℕ) → IsScan st → WhenOk IsScan (redis_key reader st entry)
  redis_key-IsScan st (key, value) h =
      WhenOk->> (fail_if (has_text st.seen (codes "redis." ++ key)) "redis %s is set twice") (
        WhenOk->>
          (fail_if (not (is_word key "url") && not (is_word key "internal"))
            "unknown key %q in the redis block, want url or internal")
          (address-IsScan st ((codes "redis." ++ key) ∷ st.seen) key value h))

  parse_redis_key-IsScan :
      (st : Scan) (text : List ℕ) → IsScan st → WhenOk IsScan (parse_redis_key reader st text)
  unfolding parse_redis_key
  parse_redis_key-IsScan st text h = WhenOk-any->>= IsScan (require_semicolon text) _ λ stmt.
      WhenOk-any->>= IsScan (split_directive reader stmt) _ λ entry. redis_key-IsScan st entry h

  set_max-IsQueueFile :
      (f : QueueFile) (o : Option ℤ) → IsQueueFile f → WhenOk IsQueueFile (set_max reader f o)
  set_max-IsQueueFile f none h = refused
  set_max-IsQueueFile f (some v) h = WhenOk-fail_if-ok _ _ _ λ positive. record {
    limit = positive;
    full_choice = h.full_choice;
    expand_choice = h.expand_choice;
    exchange_address = h.exchange_address;
    internal_address = h.internal_address;
  }

  full-IsQueueFile :
      (f : QueueFile) (value : List ℕ)
      → IsQueueFile f
      → WhenOk IsQueueFile (
          fail_if
            (not (is_word value "drop" || is_word value "wait"))
            "%s:%d: queue_full must be drop or wait, got %q"
          >> ok (record f { full = value }))
  full-IsQueueFile f value h = WhenOk-fail_if-ok _ _ _ λ known. record {
    limit = h.limit;
    full_choice = λ set. not-eq-false _ known;
    expand_choice = h.expand_choice;
    exchange_address = h.exchange_address;
    internal_address = h.internal_address;
  }

  expand-IsQueueFile :
      (f : QueueFile) (value : List ℕ)
      → IsQueueFile f
      → WhenOk IsQueueFile (
          fail_if
            (not (is_word value "off" || is_word value "ask"))
            "%s:%d: queue_expand must be off or ask, got %q"
          >> ok (record f { expand = value }))
  expand-IsQueueFile f value h = WhenOk-fail_if-ok _ _ _ λ known. record {
    limit = h.limit;
    full_choice = h.full_choice;
    expand_choice = λ set. not-eq-false _ known;
    exchange_address = h.exchange_address;
    internal_address = h.internal_address;
  }

  set_directive-IsQueueFile :
      (f : QueueFile) (key value : List ℕ)
      → IsQueueFile f
      → WhenOk IsQueueFile (set_directive reader f key value)
  unfolding set_directive
  set_directive-IsQueueFile f key value h =
      WhenOk-if (is_word key "queue_max") (set_max-IsQueueFile f (reader.atoi value) h) (
        WhenOk-if (is_word key "queue_full") (full-IsQueueFile f value h)
          (WhenOk-if (is_word key "queue_expand") (expand-IsQueueFile f value h) refused))

  directive-IsScan :
      (st : Scan) (entry : List ℕ × List ℕ) → IsScan st → WhenOk IsScan (directive reader st entry)
  directive-IsScan st (key, value) h =
      WhenOk->> (fail_if (has_text st.seen key) "%s:%d: %s is set twice") (
        WhenOk->>= IsQueueFile IsScan (set_directive reader st.out key value)
          (λ f. ok (record st { seen = key ∷ st.seen; out = f }))
          (set_directive-IsQueueFile st.out key value h) λ f g. accept g)

  top_line-IsScan :
      (st : Scan) (text : List ℕ) (o : Option (List ℕ))
      → IsScan st
      → WhenOk IsScan (top_line reader st text o)
  top_line-IsScan st text (some head) h =
      WhenOk->> (fail_if (not (is_word (trim_space head) "redis")) "%s:%d: unknown block %q") (
        WhenOk->> (fail_if (has_text st.seen (trim_space head)) "%s:%d: %s block is set twice")
          (accept h))
  top_line-IsScan st text none h = WhenOk-any->>= IsScan (require_semicolon text) _ λ stmt.
      WhenOk-any->>= IsScan (split_directive reader stmt) _ λ entry. directive-IsScan st entry h

  scan_line-IsScan :
      (st : Scan) (line : List ℕ) → IsScan st → WhenOk IsScan (scan_line reader st line)
  unfolding scan_line
  scan_line-IsScan st line h =
      let text = conf_text line in
      WhenOk-if (is_empty text) (accept h) (
        WhenOk-if (not (is_empty st.block))
          (WhenOk-if (is_word text "}") (accept h) (parse_redis_key-IsScan st text h))
          (WhenOk-if (is_word text "}") refused (top_line-IsScan st text (cut_suffix b'{' text) h)))

  scan_lines-IsScan :
      (st : Scan) (lines : List (List ℕ)) → IsScan st → WhenOk IsScan (scan_lines reader st lines)
  unfolding scan_lines
  scan_lines-IsScan st [] h = accept h
  scan_lines-IsScan st (l ∷ ls) h =
      WhenOk->>= IsScan IsScan (scan_line reader st l) _ (scan_line-IsScan st l h)
        λ next g. scan_lines-IsScan next ls g

  parsed-IsQueueFile : (src : List ℕ) → WhenOk IsQueueFile (parse_queue_file reader src)
  unfolding parse_queue_file
  parsed-IsQueueFile src =
      WhenOk->>= IsScan IsQueueFile (scan_lines reader _ (split 10 src)) _
        (scan_lines-IsScan _ (split 10 src) no_file-IsQueueFile)
        λ st h. WhenOk-fail_if-ok _ _ _ λ shut. h

max_or-limit :
    (current : ℤ) (o : Option ℤ)
    → ltb_ℤ current (pos 1) ≡ false
    → IsLimit o
    → ltb_ℤ (max_or current o) (pos 1) ≡ false
max_or-limit current none h g = h
max_or-limit current (some v) h g = g

text_or-choice :
    (a b : String) (current v : List ℕ)
    → (is_word current a || is_word current b) ≡ true
    → IsChoice a b v
    → (is_word (text_or current v) a || is_word (text_or current v) b) ≡ true
text_or-choice a b current v h g = elim (Bool-cases (is_empty v)) [
  | inl e ↦ rw e h
  | inr e ↦ rw e (g e)
]

-- An inspector.conf that is accepted gives a positive limit, one of the words drop and wait, one of
-- the words off and ask, and addresses of Redis, where it gives any. Settings that `validate` accepts
-- are accepted after it is applied to them.
pub parse_queue_file-IsQueueFile :
    (reader : Reader) (src : List ℕ) (f : QueueFile) (c : QueueSettings)
    → parse_queue_file reader src ≡ ok f
    → IsQueueSettings c
    → IsQueueFile reader f × IsQueueSettings (apply_queue_file c f)
unfolding apply_queue_file
parse_queue_file-IsQueueFile reader src f c accepted h =
    let g = WhenOk-eq (IsQueueFile reader) _ f (parsed-IsQueueFile reader src) accepted in
    (
      g,
      record {
        limit = max_or-limit c.max f.max h.limit g.limit;
        full_choice = text_or-choice "drop" "wait" c.full f.full h.full_choice g.full_choice;
        expand_choice =
            text_or-choice "off" "ask" c.expand f.expand h.expand_choice g.expand_choice;
      },
    )
