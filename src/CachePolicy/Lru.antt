-- ===== src/CachePolicy/Lru.antt =====
-- `LruPolicy` of py_kvcache/staging_cache.py. The `OrderedDict[bytes, None]` is the list of its keys,
-- oldest first; a block hash, of which the code only tests equality, is named by a number.
use py_kvcache.Prelude.{ℕ, List, [], if◌then◌else◌, nat_eq}
use py_kvcache.Prelude.Keys.{contains, add, remove, move_to_end}

pub record LruPolicy : Type 0 where
  pub capacity : ℕ
  pub od : List ℕ

unfoldable pub init : ℕ → LruPolicy
init capacity = record { capacity = capacity; od = [] }

unfoldable pub admit : LruPolicy → ℕ → LruPolicy
admit s key = record s { od = move_to_end key (add key s.od) }

unfoldable pub touch : LruPolicy → ℕ → LruPolicy
touch s key = record s { od = if contains key s.od then move_to_end key s.od else s.od }

unfoldable pub evict : LruPolicy → ℕ → LruPolicy
evict s key = record s { od = remove key s.od }

unfoldable pub victims : LruPolicy → List ℕ
victims s = s.od

unfoldable pub clear : LruPolicy → LruPolicy
clear s = record s { od = [] }
