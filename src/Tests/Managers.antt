-- ===== src/Tests/Managers.antt =====
-- `SharedStorageOffloadingManager` of py_kvcache/vllm.py, with keys that are their block hash.
use py_kvcache.Prelude.{
  ℕ, ◌≡◌, ◌↔◌, Bool, refl, false, true, [], ◌∷◌, none, some, ok, nat_eq, nat_beq, length,
}
use py_kvcache.Prelude.Dict.{lookup, has}
use py_kvcache.Seconds.{ticks}
use py_kvcache.Manager.{
  OffloadKeys, Manager, PrepareStoreOutput, PlanCandidate, Scan, init, probe, look_up, lookup_key,
  prepare_store, complete_store, scan_keys, cost_input,
}
use py_kvcache.Manager.Lookup.{CacheIsSound, Says, look_up-answer, probe-look_up}
use py_kvcache.Manager.Stores.{prepare_complete, prepare-fences}
use py_kvcache.Manager.Entries.{HasNoZero}
use py_kvcache.Manager.Prefix.{loadable, any_mid_write, scan_keys-loadable}

abbrev plain_keys : OffloadKeys
plain_keys = record { Key = ℕ; group_idx = λ key. 0; block_hash = λ key. key }

-- Block 1 is on disk.
abbrev on_disk : ℕ → Bool
on_disk h = nat_beq h 1

abbrev fresh : Manager ticks plain_keys
fresh = record {
  lookup_cache = [];
  probed_hashes = [];
  last_io_req_id = none;
  store_inflight = [];
  planner = none;
}

abbrev storing : Manager ticks plain_keys
storing = record fresh { last_io_req_id = some "a"; store_inflight = (2, 1) ∷ [] }

abbrev to_store : PrepareStoreOutput ticks plain_keys
to_store = record { keys_to_store = 2 ∷ []; block_hashes = 2 ∷ [] }

program : Unit {0}
unfolding init probe look_up lookup_key prepare_store complete_store scan_keys
program = tt

prepared :
    prepare_store ticks plain_keys on_disk fresh (1 ∷ 2 ∷ []) (some "a") ≡ ok (storing, to_store)
unfolding program
prepared = refl

fresh-CacheIsSound : CacheIsSound ticks plain_keys on_disk fresh
fresh-CacheIsSound h e = cc

storing-CacheIsSound : CacheIsSound ticks plain_keys on_disk storing
storing-CacheIsSound h e = cc

look_up-answer_example :
    Says ticks plain_keys on_disk false true none
      (some "a")
      (look_up ticks plain_keys on_disk storing 2 (some "a")).1
look_up-answer_example =
    look_up-answer ticks plain_keys on_disk storing 2 (some "a") storing-CacheIsSound

probe-look_up_example :
    (((probe ticks plain_keys on_disk storing 2).1 ≡ true)
      ↔ ((look_up ticks plain_keys on_disk storing 2 none).1 ≡ some true))
    × (((probe ticks plain_keys on_disk storing 2).2 ≡ true)
        ↔ ((look_up ticks plain_keys on_disk storing 2 none).1 ≡ none))
probe-look_up_example = probe-look_up ticks plain_keys on_disk storing 2 none storing-CacheIsSound

fresh-HasNoZero : HasNoZero ticks plain_keys fresh
fresh-HasNoZero j e = cc e

prepare_complete_example :
    (m : Manager ticks plain_keys) × (complete_store ticks plain_keys storing (2 ∷ []) ≡ ok m)
    × ((j : ℕ)
        → (lookup j m.store_inflight ≡ lookup j fresh.store_inflight)
          × (has j m.store_inflight ≡ has j fresh.store_inflight))
    × HasNoZero ticks plain_keys m
prepare_complete_example =
    prepare_complete ticks plain_keys on_disk fresh storing (1 ∷ 2 ∷ []) (some "a") to_store
      fresh-HasNoZero prepared

prepare-fences_example : (look_up ticks plain_keys on_disk storing 2 (some "b")).1 ≡ none
prepare-fences_example =
    prepare-fences ticks plain_keys on_disk on_disk fresh storing (1 ∷ 2 ∷ []) (some "a") (some "b")
      to_store 2 prepared refl refl storing-CacheIsSound

abbrev candidate : PlanCandidate ticks plain_keys
candidate = record { position = 0; req_id = "a"; recompute_tokens = 48; keys = 1 ∷ 2 ∷ 3 ∷ [] }

abbrev scanned : Scan ticks plain_keys
scanned = record {
  manager = record storing { lookup_cache = (1, true) ∷ []; probed_hashes = 1 ∷ [] };
  loadable_hashes = 1 ∷ 2 ∷ [];
  blocked_on_store = true;
}

scanned_lem : scan_keys ticks plain_keys on_disk storing candidate.keys ≡ ok scanned
unfolding program
scanned_lem = refl

scan_keys-loadable_example :
    let input = cost_input ticks plain_keys candidate scanned in
    let prefix =
      loadable ticks plain_keys on_disk (λ h. has h storing.store_inflight) candidate.keys in
    (input.loadable_hashes ≡ prefix)
    × (input.load_blocks ≡ length prefix)
    × (input.blocked_on_store
        ≡ any_mid_write ticks plain_keys on_disk (λ h. has h storing.store_inflight) prefix)
scan_keys-loadable_example =
    scan_keys-loadable ticks plain_keys on_disk storing candidate scanned storing-CacheIsSound
      scanned_lem
