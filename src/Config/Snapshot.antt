-- ===== src/Config/Snapshot.antt =====
-- internal/config/profiles.go: a snapshot of the profiles. A nil snapshot is `none`.
use placitum_counter.Prelude.{List, Option, String, if◌then◌else◌, map_get, none, some, ℕ, ◌==◌}
use placitum_counter.Buckets.{Tiers}
use placitum_counter.Config.Types.{Profile, Counters}

abbrev pub default_name : String
default_name = "default"

pub record Snapshot (F : Type 0) : Type 0 where
  pub gen : ℕ
  pub fingerprint : String
  pub by_name : List (String × Profile F)
  pub names : List String
  pub counters : Counters F
  pub tiers : Tiers F

module _ {F : Type 0} where
  -- `Snapshot.Profile`
  unfoldable pub profile_of : Option (Snapshot F) → String → Option (Profile F)
  profile_of none name = none
  profile_of (some s) name = map_get (if name == "" then default_name else name) s.by_name
