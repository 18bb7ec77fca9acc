-- ===== src/Manager/Entries.antt =====
-- The entries of the stores in flight of `SharedStorageOffloadingManager` (py_kvcache/vllm.py): a count
-- that falls to 0 is removed.
use Prim.Native.String.{String}
use py_kvcache.Prelude.{
  ℕ, ◌+◌, ◌-◌, ◌≡◌, ◌≢◌, ok_inv, bind_inv, inl, inr, Bool, List, [], ◌∷◌, Option, some, Result, ok,
  err, ◌>>=◌, nat_eq, arith, Bool-cases, Result-cases,
}
use py_kvcache.Prelude.Dict.{lookup, lookup_or, lookup-insert, lookup-delete}
use py_kvcache.Seconds.{Seconds}
use py_kvcache.Manager.{
  init, OffloadKeys, Manager, PrepareStoreOutput, get_block_hash, maybe_flush_lookup_cache,
  begin_store, store_keys, end_store, complete_store,
}
use py_kvcache.LoadPlanner.State.{LoadPlanner}

module _ (s : Seconds) (k : OffloadKeys) where
  -- No count of stores in flight is 0: a hash without one has no entry.
  abbrev pub HasNoZero : Manager s k → Type 0
  HasNoZero m = (j : ℕ) → lookup j m.store_inflight ≢ some 0

  begin_store-HasNoZero : (m : Manager s k) (h : ℕ) → HasNoZero m → HasNoZero (begin_store s k m h)
  unfolding begin_store
  begin_store-HasNoZero m h z j e =
      ground (arith, lookup-insert h j (lookup_or h 0 m.store_inflight + 1) m.store_inflight, z j)

  end_store-HasNoZero : (m : Manager s k) (h : ℕ) → HasNoZero m → HasNoZero (end_store s k m h)
  unfolding end_store
  end_store-HasNoZero m h z j e = ground (
    arith,
    lookup-insert h j (lookup_or h 0 m.store_inflight - 1) m.store_inflight,
    lookup-delete h j m.store_inflight,
    z j,
  )

  -- What a successful `prepare_store` leaves has no 0.
  abbrev pub LeavesNoZero : Result (Manager s k × PrepareStoreOutput s k) → Type 0
  LeavesNoZero (err e) = Unit
  LeavesNoZero (ok (m, _)) = HasNoZero m

  kept_NoZero :
      (r : Result (Manager s k × PrepareStoreOutput s k))
      (f : Manager s k × PrepareStoreOutput s k → PrepareStoreOutput s k)
      → LeavesNoZero r
      → LeavesNoZero (r >>= λ x. ok (x.0, f x))
  kept_NoZero (err e) f z = tt
  kept_NoZero (ok x) f z = z

  pub store_keys-HasNoZero :
      (exists : ℕ → Bool) (m : Manager s k) (keys : List k.Key)
      → HasNoZero m
      → LeavesNoZero (store_keys s k exists m keys)
  unfolding store_keys
  store_keys-HasNoZero exists m [] z = z
  store_keys-HasNoZero exists m (key ∷ keys) z = elim (Result-cases (get_block_hash s k key)) [
    | inr (e, g) ↦ rw g tt
    | inl (h, g) ↦ rw g (elim (Bool-cases (exists h)) [
      | inl on_disk ↦ rw on_disk (
          kept_NoZero (store_keys s k exists m keys) (λ x. x.1)
            (store_keys-HasNoZero exists m keys z))
      | inr absent ↦ rw absent (
          kept_NoZero (store_keys s k exists (begin_store s k m h) keys)
            (λ x. record {
              keys_to_store = key ∷ x.1.keys_to_store;
              block_hashes = h ∷ x.1.block_hashes;
            })
            (store_keys-HasNoZero exists (begin_store s k m h) keys (begin_store-HasNoZero m h z)))
    ])
  ]

  pub complete_store-HasNoZero :
      (m : Manager s k) (keys : List k.Key) {m' : Manager s k}
      → complete_store s k m keys ≡ ok m'
      → HasNoZero m
      → HasNoZero m'
  unfolding complete_store
  complete_store-HasNoZero m [] e z = ok_inv HasNoZero e z
  complete_store-HasNoZero m (key ∷ keys) e z =
      let (h, _, rest) = bind_inv (get_block_hash s k key) e in
      complete_store-HasNoZero (end_store s k m h) keys rest (end_store-HasNoZero m h z)

  pub flush-HasNoZero :
      (m : Manager s k) (r : Option String)
      → HasNoZero m
      → HasNoZero (maybe_flush_lookup_cache s k m r)
  unfolding maybe_flush_lookup_cache
  flush-HasNoZero m r z j = ground (arith, z j)

  -- A new manager has no 0.
  init-HasNoZero : (planner : Option (LoadPlanner s)) → HasNoZero (init s k planner)
  unfolding init
  init-HasNoZero planner j e = cc e
