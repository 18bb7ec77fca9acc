-- ===== src/CachePolicy.antt =====
-- The eviction policies of py_kvcache/staging_cache.py behind the protocol `EvictionPolicy`: a policy
-- is one of its two classes, and a method dispatches on the class.
pub mod Lru
pub mod Arc
pub mod ArcInvariant
pub mod Resident
use py_kvcache.Prelude.{ℕ, List, ◌++◌, Result, ok, err, value_error, if◌then◌else◌}
use Prim.Native.String.{String}
use text.Mathlib.Text.{◌==◌ as str_eq}
use Lru.{LruPolicy}
use Arc.{ArcPolicy}

pub data EvictionPolicy : Type 0 where
  lru : LruPolicy → EvictionPolicy
  arc : ArcPolicy → EvictionPolicy

unfoldable pub make_policy : String → ℕ → Result EvictionPolicy
unfolding Lru.init Arc.init
make_policy kind capacity =
    if str_eq kind "lru"
    then ok (lru (Lru.init capacity))
    else if str_eq kind "arc"
    then ok (arc (Arc.init capacity))
    else err value_error

unfoldable pub admit : EvictionPolicy → ℕ → EvictionPolicy
admit (lru s) key = lru (Lru.admit s key)
admit (arc s) key = arc (Arc.admit s key)

unfoldable pub touch : EvictionPolicy → ℕ → EvictionPolicy
touch (lru s) key = lru (Lru.touch s key)
touch (arc s) key = arc (Arc.touch s key)

unfoldable pub evict : EvictionPolicy → ℕ → EvictionPolicy
evict (lru s) key = lru (Lru.evict s key)
evict (arc s) key = arc (Arc.evict s key)

unfoldable pub victims : EvictionPolicy → List ℕ
victims (lru s) = Lru.victims s
victims (arc s) = Arc.victims s

unfoldable pub clear : EvictionPolicy → EvictionPolicy
clear (lru s) = lru (Lru.clear s)
clear (arc s) = arc (Arc.clear s)
