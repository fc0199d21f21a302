-- ===== src/Config/Load/Loaded.antt =====
-- internal/config/config.go: what a configuration that loads holds.
use placitum_counter.Prelude.{
  Bool, IsOk, List, Option, Result, String, [], codes, err, fail_if, fail_if->>-IsOk, fail_if-IsOk,
  false, if◌then◌else◌, is_empty, leb_ℤ, ltb_ℤ, none, not-eq-false, ok, pos, refl, some, trim_space,
  ℕ, ℤ, ◌++◌, ◌>>◌, ◌||◌, ◌∷◌, ◌≡◌,
}
use placitum_counter.Config.Produced.{
  accept, refused, WhenOk, WhenOk->>=, WhenOk-any->>=, WhenOk-fail_if-ok, WhenOk-eq,
}
use placitum_counter.Config.File.{QueueSettings}
use placitum_counter.Config.File.Accepted.{IsQueueSettings}
use placitum_counter.Config.Environment.{
  System, env_int, env_int_list, env_duration, env_duration_or_zero, duration_in, given, number,
  env,
}
use placitum_counter.Config.Load.{
  Config, check_config, conf_file, level_of, read_config, absolute_or, validate, load,
  settings_from, conf_path,
}

-- The settings of the queue in a configuration.
abbrev queue_of : Config → QueueSettings
queue_of c = record { max = c.queue_depth; full = c.queue_full; expand = c.queue_expand }

-- What `validate` checks and leaves as it is.
pub record IsChecked (c : Config) : Type 0 where
  pub servers : is_empty c.servers ≡ false
  pub names : (is_empty c.subject || is_empty c.name || is_empty c.queue) ≡ false
  pub workers : ltb_ℤ c.workers (pos 1) ≡ false
  pub queue_settings : IsQueueSettings (queue_of c)
  pub budgets : (ltb_ℤ c.reserve_ms (pos 0) || ltb_ℤ c.min_budget_ms (pos 0)) ≡ false
  pub versions : is_empty c.versions ≡ false

-- The intervals that the module waits for.
pub record IsTimed (c : Config) : Type 0 where
  pub geo_timeout : leb_ℤ c.geo_timeout (pos 0) ≡ false
  pub heartbeat_every : leb_ℤ c.heartbeat_every (pos 0) ≡ false
  pub reload_every : ltb_ℤ c.reload_every (pos 0) ≡ false

-- A path that `filepath.Abs` gave.
abbrev IsAbsolute : System → List ℕ → Type 0
IsAbsolute sys path = (source : List ℕ) × (sys.abs source ≡ some path)

pub record IsConfig (sys : System) (c : Config) : Type 0 where
  pub checked : IsChecked c
  pub timed : IsTimed c
  pub profiles_dir : IsAbsolute sys c.profiles_dir
  pub data_dir : IsAbsolute sys c.data_dir

check_config-IsChecked : (c : Config) → IsOk (check_config c) → IsChecked c
unfolding check_config
check_config-IsChecked c h =
    let servers = fail_if->>-IsOk _ _ _ h in
    let names = fail_if->>-IsOk _ _ _ servers.1 in
    let workers = fail_if->>-IsOk _ _ _ names.1 in
    let depth = fail_if->>-IsOk _ _ _ workers.1 in
    let full = fail_if->>-IsOk _ _ _ depth.1 in
    let expand = fail_if->>-IsOk _ _ _ full.1 in
    let budgets = fail_if->>-IsOk _ _ _ expand.1 in
    record {
      servers = servers.0;
      names = names.0;
      workers = workers.0;
      queue_settings = record {
        limit = depth.0;
        full_choice = not-eq-false _ full.0;
        expand_choice = not-eq-false _ expand.0;
      };
      budgets = budgets.0;
      versions = fail_if-IsOk _ _ budgets.1;
    }

WhenOk-past->> {ℓ κ} :
    {A : Type ℓ} {P : A → Type κ} {k : Result A} (m : Result (Unit {0}))
    → (IsOk m → WhenOk P k)
    → WhenOk P (m >> k)
WhenOk-past->> (ok u) next = next tt
WhenOk-past->> (err e) next = refused

module _ (sys : System) where
  duration_in-WhenOk :
      (bad : ℤ → Bool) (e : String) (default : ℤ) (o : Option (List ℕ))
      → bad default ≡ false
      → WhenOk (λ d. bad d ≡ false) (duration_in sys bad e default o)
  duration_in-WhenOk bad e default none h = accept h
  duration_in-WhenOk bad e default (some raw) h =
      WhenOk-any->>= (λ d. bad d ≡ false) (number (sys.parse_duration (trim_space raw)))
        (λ d. fail_if (bad d) e >> ok d) λ d. WhenOk-fail_if-ok d (bad d) e λ good. good

  env_duration-WhenOk :
      (name : String) (default : ℤ)
      → leb_ℤ default (pos 0) ≡ false
      → WhenOk (λ d. leb_ℤ d (pos 0) ≡ false) (env_duration sys name default)
  unfolding env_duration
  env_duration-WhenOk name default h =
      duration_in-WhenOk (λ d. leb_ℤ d (pos 0)) _ default (given (sys.lookup name)) h

  env_duration_or_zero-WhenOk :
      (name : String) (default : ℤ)
      → ltb_ℤ default (pos 0) ≡ false
      → WhenOk (λ d. ltb_ℤ d (pos 0) ≡ false) (env_duration_or_zero sys name default)
  unfolding env_duration_or_zero
  env_duration_or_zero-WhenOk name default h =
      duration_in-WhenOk (λ d. ltb_ℤ d (pos 0)) _ default (given (sys.lookup name)) h

  read_config-IsTimed : WhenOk IsTimed (read_config sys)
  unfolding read_config
  read_config-IsTimed =
      let path = conf_path sys "WAF_COUNTER_CONF" in
      WhenOk-any->>= IsTimed (env_int sys "WAF_COUNTER_WORKERS" sys.procs) _ λ workers.
        WhenOk-any->>= IsTimed (conf_file sys path) _ λ file.
          WhenOk-any->>= IsTimed
            (env_int sys "WAF_COUNTER_QUEUE_DEPTH" (settings_from sys path file).max) _
            λ depth.
              WhenOk-any->>= IsTimed (env_int sys "WAF_COUNTER_RESERVE_MS" (pos 2)) _ λ reserve.
                WhenOk-any->>= IsTimed (env_int sys "WAF_COUNTER_MIN_BUDGET_MS" (pos 2)) _ λ budget.
                  WhenOk-any->>= IsTimed (env_int_list sys "WAF_COUNTER_VERSIONS" (pos 2 ∷ [])) _
                    λ versions.
                      WhenOk-any->>= IsTimed
                        (level_of sys (sys.parse_level (env sys "WAF_COUNTER_LOG" "info"))) _
                        λ level.
                          WhenOk->>= (λ d. leb_ℤ d (pos 0) ≡ false) IsTimed
                            (env_duration sys "WAF_COUNTER_GEO_TIMEOUT" (pos 500000000)) _
                            (env_duration-WhenOk "WAF_COUNTER_GEO_TIMEOUT" (pos 500000000) refl)
                            λ geo_timeout geo_good.
                              WhenOk-any->>= IsTimed (env_int sys "WAF_COUNTER_GEO_NEG_MAX" (pos 0))
                                _
                                λ neg_max.
                                  WhenOk->>= (λ d. leb_ℤ d (pos 0) ≡ false) IsTimed
                                    (env_duration sys "WAF_HEARTBEAT_EVERY" (pos 4000000000)) _
                                    (env_duration-WhenOk "WAF_HEARTBEAT_EVERY" (pos 4000000000)
                                      refl)
                                    λ heartbeat heartbeat_good.
                                      WhenOk->>= (λ d. ltb_ℤ d (pos 0) ≡ false) IsTimed
                                        (env_duration_or_zero sys "WAF_COUNTER_RELOAD_EVERY"
                                          (pos 1000000000))
                                        _
                                        (env_duration_or_zero-WhenOk "WAF_COUNTER_RELOAD_EVERY"
                                          (pos 1000000000) refl)
                                        λ reload reload_good. accept (record {
                                          geo_timeout = geo_good;
                                          heartbeat_every = heartbeat_good;
                                          reload_every = reload_good;
                                        })

  found-IsAbsolute :
      (e : String) (source : List ℕ) (o : Option (List ℕ))
      → sys.abs source ≡ o
      → WhenOk (IsAbsolute sys) (absolute_or sys e o)
  found-IsAbsolute e source none h = refused
  found-IsAbsolute e source (some path) h = accept (source, h)

  validate-IsConfig : (c : Config) → IsTimed c → WhenOk (IsConfig sys) (validate sys c)
  unfolding validate
  validate-IsConfig c timed = WhenOk-past->> (check_config c) λ passed.
      let checked = check_config-IsChecked c passed in
      WhenOk->>= (IsAbsolute sys) (IsConfig sys)
        (absolute_or sys "WAF_COUNTER_PROFILES: %w" (sys.abs c.profiles_dir)) _
        (found-IsAbsolute "WAF_COUNTER_PROFILES: %w" c.profiles_dir (sys.abs c.profiles_dir) refl)
        λ dir dir_found.
          let source = if is_empty c.data_dir then dir ++ codes ".applied" else c.data_dir in
          WhenOk->>= (IsAbsolute sys) (IsConfig sys)
            (absolute_or sys "WAF_COUNTER_DATA: %w" (sys.abs source)) _
            (found-IsAbsolute "WAF_COUNTER_DATA: %w" source (sys.abs source) refl)
            λ kept kept_found. accept (record {
              checked = record {
                servers = checked.servers;
                names = checked.names;
                workers = checked.workers;
                queue_settings = checked.queue_settings;
                budgets = checked.budgets;
                versions = checked.versions;
              };
              timed = record {
                geo_timeout = timed.geo_timeout;
                heartbeat_every = timed.heartbeat_every;
                reload_every = timed.reload_every;
              };
              profiles_dir = dir_found;
              data_dir = kept_found;
            })

  load-WhenOk : WhenOk (IsConfig sys) (load sys)
  unfolding load
  load-WhenOk =
      WhenOk->>= IsTimed (IsConfig sys) (read_config sys) (validate sys) read_config-IsTimed
        validate-IsConfig

-- A configuration that `Load` gives has an address of NATS, names, at least one worker, settings of
-- the queue that inspector.conf may give, no negative reserve or budget, a version, positive times for
-- GeoIP and the heartbeat, a time between reloads that is not negative, and directories that
-- `filepath.Abs` gave.
pub load-IsConfig : (sys : System) (c : Config) → load sys ≡ ok c → IsConfig sys c
load-IsConfig sys c loaded = WhenOk-eq (IsConfig sys) (load sys) c (load-WhenOk sys) loaded
