-- ===== src/Config/Environment.antt =====
-- internal/config: the readers of the environment, in config.go and file.go. The environment, the
-- file system, `strconv.Atoi`, `time.ParseDuration`, `loglevel.Parse`, `filepath.Abs` and
-- `runtime.GOMAXPROCS` are parameters.
use placitum_counter.Prelude.{
  Bool, List, Option, Result, String, [], codes, err, fail_if, if◌then◌else◌, is_empty, leb_ℤ,
  ltb_ℤ, map, none, not, ok, pos, select, some, split, trim_space, ℕ, ℤ, ◌>>=◌, ◌>>◌, ◌∷◌,
}
use placitum_counter.Config.File.{Reader}

-- What the process is given: `is_file` is `os.Stat` without an error and not of a directory.
pub record System : Type 0 where
  pub lookup : String → Option (List ℕ)
  pub is_file : List ℕ → Bool
  pub read_file : List ℕ → Option (List ℕ)
  pub reader : Reader
  pub parse_duration : List ℕ → Option ℤ
  pub parse_level : List ℕ → Option ℤ
  pub abs : List ℕ → Option (List ℕ)
  pub procs : ℤ

abbrev pub or_text : List ℕ → Option (List ℕ) → List ℕ
or_text current none = current
or_text current (some v) = v

-- A variable that is set and not empty.
abbrev pub given : Option (List ℕ) → Option (List ℕ)
given none = none
given (some v) = if is_empty v then none else some v

-- A variable that is set and not blank, without the blanks around it.
unfoldable pub trimmed : Option (List ℕ) → Option (List ℕ)
unfolding trim_space
trimmed none = none
trimmed (some v) = if is_empty (trim_space v) then none else some (trim_space v)

abbrev pub number : Option ℤ → Result ℤ
number none = err "%s: %w"
number (some v) = ok v

abbrev pub number_list : (List ℕ → Option ℤ) → List (List ℕ) → Result (List ℤ)
number_list atoi [] = ok []
number_list atoi (part ∷ parts) =
    let rest = number_list atoi parts in number (atoi part) >>= λ v. rest >>= λ vs. ok (v ∷ vs)

-- `splitList`
unfoldable pub split_list : List ℕ → List (List ℕ)
unfolding split trim_space select
split_list s = select (λ part. not (is_empty part)) (map trim_space (split b',' s))

module _ (sys : System) where
  open sys use {lookup, reader, parse_duration}

  -- `env`
  abbrev pub env : String → String → List ℕ
  env name default = or_text (codes default) (given (lookup name))

  abbrev pub int_in : ℤ → Option (List ℕ) → Result ℤ
  int_in default none = ok default
  int_in default (some raw) = number (reader.atoi (trim_space raw))

  -- `envIntIfSet`, also `envInt`
  unfoldable pub env_int : String → ℤ → Result ℤ
  unfolding trim_space
  env_int name default = int_in default (given (lookup name))

  abbrev pub ints_in : List ℤ → Option (List ℕ) → Result (List ℤ)
  ints_in default none = ok default
  ints_in default (some raw) = number_list reader.atoi (split_list raw)

  -- `envIntList`
  unfoldable pub env_int_list : String → List ℤ → Result (List ℤ)
  unfolding split_list
  env_int_list name default = ints_in default (given (lookup name))

  abbrev pub duration_in : (ℤ → Bool) → String → ℤ → Option (List ℕ) → Result ℤ
  duration_in bad e default none = ok default
  duration_in bad e default (some raw) =
      number (parse_duration (trim_space raw)) >>= λ d. fail_if (bad d) e >> ok d

  -- `envDuration`
  unfoldable pub env_duration : String → ℤ → Result ℤ
  unfolding trim_space
  env_duration name default =
      duration_in (λ d. leb_ℤ d (pos 0)) "%s must be positive" default (given (lookup name))

  -- `envDurationOrZero`
  unfoldable pub env_duration_or_zero : String → ℤ → Result ℤ
  unfolding trim_space
  env_duration_or_zero name default =
      duration_in (λ d. ltb_ℤ d (pos 0)) "%s must not be negative" default (given (lookup name))

  -- `envOverride`
  abbrev pub env_override : String → List ℕ → List ℕ
  env_override name current = or_text current (trimmed (lookup name))
