-- ===== src/Buckets/Store.antt =====
-- internal/buckets/buckets.go: `Store.Apply`, in the process or in Redis.
use placitum_counter.Prelude.{List, Result, String, ok, ℕ}
use placitum_counter.Prelude.Float.{Float64}
use placitum_counter.Buckets.{Charge, Ref, Level, Tiers, apply}
use placitum_counter.Buckets.Remote.{Exec, apply_remote}

-- A store without a client, with the bound of its ledger, or one with a client.
pub data BucketStore (F : Type 0) : Type 0 where
  in_process : ℕ → List (String × F) → BucketStore F
  in_redis : Exec F → BucketStore F

module _ {F : Type 0} ⦃fl : Float64 F⦄ where
  abbrev with_ledger :
      ℕ → List (Level F) × List (String × F) → Result (List (Level F)) × BucketStore F
  with_ledger max (levels, m) = (ok levels, in_process max m)

  -- `Store.Apply`, with the store that it leaves.
  unfoldable pub apply_store :
      BucketStore F
      → Tiers F
      → List (Charge F)
      → List Ref
      → F
      → Result (List (Level F)) × BucketStore F
  unfolding apply apply_remote
  apply_store (in_process max m) tiers charges reads t =
      with_ledger max (apply max tiers charges reads t m)
  apply_store (in_redis exec) tiers charges reads t =
      (apply_remote exec tiers charges reads t, in_redis exec)
