-- ===== src/Witnesses/Settings.antt =====
-- The theorems on inspector.conf and the environment at concrete inputs.
use placitum_counter.Prelude.{
  List, [], any, codes, if◌then◌else◌, ltb, none, ok, pos, refl, select, some, split, text_eq,
  trim_space, ℕ, ◌++◌, ◌==◌, ◌∷◌, ◌≡◌,
}
use placitum_counter.Config.File.{
  Reader, QueueFile, QueueSettings, is_word, parse_queue_file, scan_lines, scan_line, conf_text,
  parse_redis_key, require_semicolon, split_directive, set_directive, has_text, cut_suffix,
  is_conf_name, is_redis_url, apply_queue_file,
}
use placitum_counter.Config.Counters.{cut}
use placitum_counter.Config.File.Accepted.{
  IsQueueFile, IsQueueSettings, parse_queue_file-IsQueueFile,
}
use placitum_counter.Config.Environment.{
  System, env_int, env_int_list, env_duration, env_duration_or_zero, split_list, trimmed,
}
use placitum_counter.Config.Load.{
  Config, load, read_config, validate, check_config, conf_path, load_queue_file, exchange_redis,
  internal_redis,
}
use placitum_counter.Config.Load.Loaded.{IsConfig, load-IsConfig}

abbrev reader : Reader
reader = record {
  parse_url = λ s.
      if is_word s "redis://cache:6379" then some (codes "cache:6379", codes "redis") else none;
  atoi = λ s. if is_word s "64" then some (pos 64) else none;
  letter_or_digit = λ c. ltb 47 c;
}

abbrev lines : List ℕ
lines =
    codes "queue_max 64; # of tasks"
    ++ (10 ∷ codes "redis {")
    ++ (10 ∷ codes " url redis://cache:6379;")
    ++ (10 ∷ codes "}")
    ++ (10 ∷ codes "queue_full wait;")

abbrev said : QueueFile
said = record {
  max = some (pos 64);
  full = codes "wait";
  expand = [];
  redis_url = codes "redis://cache:6379";
  redis_internal = [];
}

accepted : parse_queue_file reader lines ≡ ok said
unfolding text_eq parse_queue_file scan_lines scan_line conf_text parse_redis_key require_semicolon
    split_directive set_directive has_text cut_suffix is_conf_name is_redis_url cut split trim_space
    any
accepted = refl

abbrev defaults : QueueSettings
defaults = record { max = pos 256; full = codes "drop"; expand = codes "off" }

defaults-IsQueueSettings : IsQueueSettings defaults
unfolding text_eq
defaults-IsQueueSettings = record { limit = refl; full_choice = refl; expand_choice = refl }

parse_queue_file-IsQueueFile_example :
    IsQueueFile reader said × IsQueueSettings (apply_queue_file defaults said)
parse_queue_file-IsQueueFile_example =
    parse_queue_file-IsQueueFile reader lines said defaults accepted defaults-IsQueueSettings

abbrev machine : System
machine = record {
  lookup = λ name. if name == "WAF_COUNTER_QUEUE_DEPTH" then some (codes " 64 ") else none;
  is_file = λ path. is_word path "inspector.conf";
  read_file = λ path. some lines;
  reader = reader;
  parse_duration = λ s. none;
  parse_level = λ s. some (pos 0);
  abs = λ path. some (codes "/app/" ++ path);
  procs = pos 4;
}

abbrev loaded : Config
loaded = record {
  servers = codes "nats://127.0.0.1:4222" ∷ [];
  subject = codes "waf.req.counter";
  name = codes "counter";
  queue = codes "counter";
  profiles_dir = codes "/app/./profiles";
  data_dir = codes "/app//app/./profiles.applied";
  reload_every = pos 1000000000;
  workers = pos 4;
  queue_depth = pos 64;
  queue_full = codes "wait";
  queue_expand = codes "off";
  conf_path = codes "inspector.conf";
  reserve_ms = pos 2;
  min_budget_ms = pos 2;
  redis_url = codes "redis://cache:6379";
  buckets_url = codes "redis://cache:6379";
  buckets_from = codes "exchange";
  geo_addr = [];
  geo_timeout = pos 500000000;
  geo_neg_max = pos 0;
  versions = pos 2 ∷ [];
  log_level = pos 0;
  heartbeat_every = pos 4000000000;
}

started : load machine ≡ ok loaded
unfolding text_eq load read_config validate check_config env_int env_int_list env_duration
    env_duration_or_zero conf_path load_queue_file exchange_redis internal_redis split_list trimmed
    parse_queue_file scan_lines scan_line conf_text parse_redis_key require_semicolon
    split_directive set_directive has_text cut_suffix is_conf_name is_redis_url cut split trim_space
    any select apply_queue_file
started = refl

load-IsConfig_example : IsConfig machine loaded
load-IsConfig_example = load-IsConfig machine loaded started
