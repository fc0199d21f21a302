-- ===== src/Config/Load.antt =====
-- internal/config/config.go: the environment and inspector.conf as the configuration of the module,
-- with the functions of file.go that find the file and choose the addresses of Redis.
use placitum_counter.Prelude.{
  List, Option, Result, String, [], codes, err, fail_if, if◌then◌else◌, is_empty, ltb_ℤ, none, not,
  ok, pos, some, ℕ, ℤ, ◌++◌, ◌>>=◌, ◌>>◌, ◌||◌, ◌∷◌,
}
use placitum_counter.Config.File.{
  QueueFile, QueueSettings, no_file, is_word, parse_queue_file, apply_queue_file,
}
use placitum_counter.Config.Environment.{
  System, or_text, given, trimmed, split_list, env, env_int, env_int_list, env_duration,
  env_duration_or_zero, env_override,
}
pub mod Loaded

-- `Config`
pub record Config : Type 0 where
  pub servers : List (List ℕ)
  pub subject : List ℕ
  pub name : List ℕ
  pub queue : List ℕ
  pub profiles_dir : List ℕ
  pub data_dir : List ℕ
  pub reload_every : ℤ
  pub workers : ℤ
  pub queue_depth : ℤ
  pub queue_full : List ℕ
  pub queue_expand : List ℕ
  pub conf_path : List ℕ
  pub reserve_ms : ℤ
  pub min_budget_ms : ℤ
  pub redis_url : List ℕ
  pub buckets_url : List ℕ
  pub buckets_from : List ℕ
  pub geo_addr : List ℕ
  pub geo_timeout : ℤ
  pub geo_neg_max : ℤ
  pub versions : List ℤ
  pub log_level : ℤ
  pub heartbeat_every : ℤ

-- `validate`: the checks that do not change the configuration.
unfoldable pub check_config : Config → Result (Unit {0})
check_config c =
    fail_if (is_empty c.servers) "NATS_URL is empty"
    >> (fail_if (is_empty c.subject || is_empty c.name || is_empty c.queue)
          "subject, name and queue must not be empty"
        >> (fail_if (ltb_ℤ c.workers (pos 1)) "WAF_COUNTER_WORKERS must be positive, got %d"
            >> (fail_if (ltb_ℤ c.queue_depth (pos 1)) "queue_max must be positive, got %d"
                >> (fail_if (not (is_word c.queue_full "drop" || is_word c.queue_full "wait"))
                      "queue_full must be drop or wait, got %q"
                    >> (fail_if (not (is_word c.queue_expand "off" || is_word c.queue_expand "ask"))
                          "queue_expand must be off or ask, got %q"
                        >> (fail_if (ltb_ℤ c.reserve_ms (pos 0) || ltb_ℤ c.min_budget_ms (pos 0))
                              "WAF_COUNTER_RESERVE_MS and WAF_COUNTER_MIN_BUDGET_MS must not be negative"
                            >> fail_if (is_empty c.versions) "WAF_COUNTER_VERSIONS is empty"))))))

module _ (sys : System) where
  open sys use {lookup, is_file, read_file, reader, parse_level, abs, procs}

  -- The loop of `confPath`
  abbrev pub first_file : List (List ℕ) → List ℕ
  first_file [] = []
  first_file (candidate ∷ rest) =
      let found = first_file rest in if is_file candidate then candidate else found

  -- `confPath`
  unfoldable pub conf_path : String → List ℕ
  unfolding trimmed
  conf_path name =
      or_text (first_file (codes "inspector.conf" ∷ codes "/app/inspector.conf" ∷ []))
        (trimmed (lookup name))

  abbrev pub parsed_file : Option (List ℕ) → Result QueueFile
  parsed_file none = err "%s: %w"
  parsed_file (some raw) = parse_queue_file reader raw

  -- `loadQueueFile`
  unfoldable pub load_queue_file : List ℕ → Result QueueFile
  unfolding parse_queue_file
  load_queue_file path = parsed_file (read_file path)

  -- `exchangeRedis`
  unfoldable pub exchange_redis : QueueFile → List ℕ
  unfolding trimmed
  exchange_redis file = or_text file.redis_url (trimmed (lookup "REDIS_URL"))

  abbrev pub internal_in : Option (List ℕ) → List ℕ → QueueFile → List ℕ → List ℕ × List ℕ
  internal_in (some v) path file exchange = (v, codes "REDIS_INTERNAL_URL")
  internal_in none path file exchange =
      if not (is_empty file.redis_internal)
      then (file.redis_internal, path)
      else if not (is_empty exchange)
      then (exchange, codes "exchange")
      else ([], [])

  -- `internalRedis`
  unfoldable pub internal_redis : List ℕ → QueueFile → List ℕ → List ℕ × List ℕ
  unfolding trimmed
  internal_redis path file exchange =
      internal_in (trimmed (lookup "REDIS_INTERNAL_URL")) path file exchange

  abbrev pub default_settings : QueueSettings
  default_settings = record { max = pos 256; full = codes "drop"; expand = codes "off" }

  abbrev pub settings_from : List ℕ → QueueFile → QueueSettings
  settings_from path file =
      if is_empty path then default_settings else apply_queue_file default_settings file

  abbrev pub conf_file : List ℕ → Result QueueFile
  conf_file path = if is_empty path then ok no_file else load_queue_file path

  abbrev pub level_of : Option ℤ → Result ℤ
  level_of none = err "WAF_COUNTER_LOG: %w"
  level_of (some level) = ok level

  -- `Load` before `validate`; a duration is in nanoseconds.
  unfoldable pub read_config : Result Config
  unfolding env_int env_int_list env_duration env_duration_or_zero conf_path load_queue_file
      exchange_redis internal_redis split_list trimmed apply_queue_file
  read_config =
      let name = env sys "WAF_COUNTER_NAME" "counter" in
      let path = conf_path "WAF_COUNTER_CONF" in
      env_int sys "WAF_COUNTER_WORKERS" procs >>= λ workers. conf_file path >>= λ file.
      env_int sys "WAF_COUNTER_QUEUE_DEPTH" (settings_from path file).max >>= λ depth.
      env_int sys "WAF_COUNTER_RESERVE_MS" (pos 2) >>= λ reserve.
      env_int sys "WAF_COUNTER_MIN_BUDGET_MS" (pos 2) >>= λ budget.
      env_int_list sys "WAF_COUNTER_VERSIONS" (pos 2 ∷ []) >>= λ versions.
      level_of (parse_level (env sys "WAF_COUNTER_LOG" "info")) >>= λ level.
      env_duration sys "WAF_COUNTER_GEO_TIMEOUT" (pos 500000000) >>= λ geo_timeout.
      env_int sys "WAF_COUNTER_GEO_NEG_MAX" (pos 0) >>= λ neg_max.
      env_duration sys "WAF_HEARTBEAT_EVERY" (pos 4000000000) >>= λ heartbeat.
      env_duration_or_zero sys "WAF_COUNTER_RELOAD_EVERY" (pos 1000000000) >>= λ reload.
      ok (record {
        servers = split_list (env sys "NATS_URL" "nats://127.0.0.1:4222");
        subject = env sys "WAF_COUNTER_SUBJECT" "waf.req.counter";
        name = name;
        queue = or_text name (given (lookup "WAF_COUNTER_QUEUE"));
        profiles_dir = env sys "WAF_COUNTER_PROFILES" "./profiles";
        data_dir = env sys "WAF_COUNTER_DATA" "";
        reload_every = reload;
        workers = workers;
        queue_depth = depth;
        queue_full = env_override sys "WAF_COUNTER_QUEUE_FULL" (settings_from path file).full;
        queue_expand = env_override sys "WAF_COUNTER_QUEUE_EXPAND" (settings_from path file).expand;
        conf_path = path;
        reserve_ms = reserve;
        min_budget_ms = budget;
        redis_url = exchange_redis file;
        buckets_url = (internal_redis path file (exchange_redis file)).0;
        buckets_from = (internal_redis path file (exchange_redis file)).1;
        geo_addr = env sys "WAF_COUNTER_GEO_ADDR" "";
        geo_timeout = geo_timeout;
        geo_neg_max = neg_max;
        versions = versions;
        log_level = level;
        heartbeat_every = heartbeat;
      })

  abbrev pub absolute_or : String → Option (List ℕ) → Result (List ℕ)
  absolute_or e none = err e
  absolute_or e (some p) = ok p

  -- `Config.validate`
  unfoldable pub validate : Config → Result Config
  unfolding check_config
  validate c =
      check_config c
      >> (absolute_or "WAF_COUNTER_PROFILES: %w" (abs c.profiles_dir) >>= λ dir.
          absolute_or "WAF_COUNTER_DATA: %w"
            (abs (if is_empty c.data_dir then dir ++ codes ".applied" else c.data_dir))
          >>= λ data_dir. ok (record c { profiles_dir = dir; data_dir = data_dir }))

  -- `Load`
  unfoldable pub load : Result Config
  unfolding read_config validate
  load = read_config >>= λ c. validate c
