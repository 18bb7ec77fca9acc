-- ===== src/CachePolicy/Arc.antt =====
-- `ArcPolicy` of py_kvcache/staging_cache.py. Each `OrderedDict[bytes, None]` is the list of its
-- keys, oldest first; a block hash, of which the code only tests equality, is named by a number.
use py_kvcache.Prelude.{
  ℕ, ◌+◌, ◌-◌, ◌/◌, max, min, List, [], ◌∷◌, ◌++◌, if◌then◌else◌, ltb, length, nat_eq, ◌==◌,
}
use py_kvcache.Prelude.Keys.{contains, add, remove, move_to_end}

-- `c` is the source's `_c`, `p` its `_p`.
pub record ArcPolicy : Type 0 where
  pub c : ℕ
  pub p : ℕ
  pub t1 : List ℕ
  pub t2 : List ℕ
  pub b1 : List ℕ
  pub b2 : List ℕ

unfoldable pub init : ℕ → ArcPolicy
init capacity = record { c = max 1 capacity; p = 0; t1 = []; t2 = []; b1 = []; b2 = [] }

-- `while len(b) > c: b.popitem(last=False)`
unfoldable pub trim : ℕ → List ℕ → List ℕ
trim c [] = []
trim c (k ∷ b) = let rest = trim c b in if ltb c (length (k ∷ b)) then rest else k ∷ b

unfoldable pub trim_ghosts : ArcPolicy → ArcPolicy
unfolding trim
trim_ghosts s = record s { b1 = trim s.c s.b1; b2 = trim s.c s.b2 }

-- `1 if not hit else max(1, len(other) // max(1, len(hit)))`
unfoldable pub delta : List ℕ → List ℕ → ℕ
delta hit other = if length hit == 0 then 1 else max 1 (length other / max 1 (length hit))

-- The branches of `admit`.
unfoldable pub promote : ArcPolicy → ℕ → ArcPolicy
unfolding delta
promote s key =
    if contains key s.b1
    then record s { p = min s.c (s.p + delta s.b1 s.b2); b1 = remove key s.b1; t2 = add key s.t2 }
    else if contains key s.b2
    then record s { p = s.p - delta s.b2 s.b1; b2 = remove key s.b2; t2 = add key s.t2 }
    else record s { t1 = add key s.t1 }

unfoldable pub admit : ArcPolicy → ℕ → ArcPolicy
unfolding promote trim_ghosts
admit s key = trim_ghosts (promote s key)

unfoldable pub touch : ArcPolicy → ℕ → ArcPolicy
touch s key =
    if contains key s.t1
    then record s { t1 = remove key s.t1; t2 = add key s.t2 }
    else if contains key s.t2
    then record s { t2 = move_to_end key s.t2 }
    else s

-- The branches of `evict`.
unfoldable pub demote : ArcPolicy → ℕ → ArcPolicy
demote s key =
    if contains key s.t1
    then record s { t1 = remove key s.t1; b1 = add key s.b1 }
    else if contains key s.t2
    then record s { t2 = remove key s.t2; b2 = add key s.b2 }
    else s

unfoldable pub evict : ArcPolicy → ℕ → ArcPolicy
unfolding demote trim_ghosts
evict s key = trim_ghosts (demote s key)

unfoldable pub victims : ArcPolicy → List ℕ
victims s = if ltb s.p (length s.t1) then s.t1 ++ s.t2 else s.t2 ++ s.t1

unfoldable pub clear : ArcPolicy → ArcPolicy
clear s = record s { p = 0; t1 = []; t2 = []; b1 = []; b2 = [] }
