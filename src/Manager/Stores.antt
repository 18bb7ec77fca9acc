-- ===== src/Manager/Stores.antt =====
-- The count of stores in flight of `SharedStorageOffloadingManager` (py_kvcache/vllm.py), over
-- `prepare_store`, `lookup` and `complete_store`.
use Prim.Native.String.{String}
use py_kvcache.Prelude.{
  ℕ, ◌+◌, ◌-◌, ◌<◌, ◌≡◌, refl, sym, ◌∙◌, inl, inr, Bool, true, false, List, [], ◌∷◌, Option, none,
  Result, ok, err, ◌>>=◌, if◌then◌else◌, nat_eq, arith, Bool-cases, Result-cases, nat_beq,
}
use py_kvcache.Prelude.Keys.{contains}
use py_kvcache.Prelude.Count.{count, contains-count}
use py_kvcache.Prelude.Dict.{
  lookup, lookup_or, has, lookup-insert, lookup-delete, has_not-lookup, has-lookup, lookup-some-has,
  lookup-none-has,
}
use py_kvcache.Seconds.{Seconds}
use py_kvcache.Manager.{
  OffloadKeys, Manager, PrepareStoreOutput, get_block_hash, maybe_flush_lookup_cache, begin_store,
  store_keys, prepare_store, end_store, complete_store, look_up,
}
use py_kvcache.Manager.Entries.{
  HasNoZero, flush-HasNoZero, store_keys-HasNoZero, complete_store-HasNoZero,
}
use py_kvcache.Manager.Lookup.{CacheIsSound, look_up-fenced}

module _ (s : Seconds) (k : OffloadKeys) where
  -- How many stores of a hash are in flight.
  abbrev pub inflight : ℕ → Manager s k → ℕ
  inflight h m = lookup_or h 0 m.store_inflight

  inflight-begin :
      (m : Manager s k) (h j : ℕ)
      → inflight j (begin_store s k m h) ≡ inflight j m + (if nat_beq h j then 1 else 0)
  unfolding begin_store
  inflight-begin m h j = ground (arith, lookup-insert h j (inflight h m + 1) m.store_inflight)

  inflight-end :
      (m : Manager s k) (h j : ℕ)
      → inflight j (end_store s k m h) ≡ inflight j m - (if nat_beq h j then 1 else 0)
  unfolding end_store
  inflight-end m h j = ground (
    arith,
    lookup-insert h j (inflight h m - 1) m.store_inflight,
    lookup-delete h j m.store_inflight,
  )

  -- The hashes of the keys, in order.
  abbrev pub HashesOf : List k.Key → List ℕ → Type 0
  HashesOf [] [] = Unit
  HashesOf [] (h ∷ hs) = ⊥
  HashesOf (key ∷ keys) [] = ⊥
  HashesOf (key ∷ keys) (h ∷ hs) = (get_block_hash s k key ≡ ok h) × HashesOf keys hs

  -- What a successful `prepare_store` does from `m`.
  abbrev pub Prepared : Manager s k → Result (Manager s k × PrepareStoreOutput s k) → Type 0
  Prepared m (err e) = Unit
  Prepared m (ok (m', out)) =
      ((j : ℕ) → inflight j m' ≡ inflight j m + count j out.block_hashes)
      × HashesOf out.keys_to_store out.block_hashes

  put_first :
      (m : Manager s k) (key : k.Key) (h : ℕ) (r : Result (Manager s k × PrepareStoreOutput s k))
      → get_block_hash s k key ≡ ok h
      → Prepared (begin_store s k m h) r
      → Prepared m (
          r >>= λ x. ok (
            x.0,
            record { keys_to_store = key ∷ x.1.keys_to_store; block_hashes = h ∷ x.1.block_hashes },
          ))
  put_first m key h (err e) g p = tt
  put_first m key h (ok (m', out)) g p = (λ j. omega (arith, p.0 j, inflight-begin m h j), (g, p.1))

  pass_on :
      (m : Manager s k) (r : Result (Manager s k × PrepareStoreOutput s k))
      → Prepared m r
      → Prepared m (r >>= λ x. ok (x.0, x.1))
  pass_on m (err e) p = tt
  pass_on m (ok x) p = p

  store_keys-Prepared :
      (exists : ℕ → Bool) (m : Manager s k) (keys : List k.Key)
      → Prepared m (store_keys s k exists m keys)
  unfolding store_keys
  store_keys-Prepared exists m [] = (λ j. omega arith, tt)
  store_keys-Prepared exists m (key ∷ keys) = elim (Result-cases (get_block_hash s k key)) [
    | inr (e, g) ↦ rw g tt
    | inl (h, g) ↦ rw g (elim (Bool-cases (exists h)) [
      | inl on_disk ↦
          rw on_disk (pass_on m (store_keys s k exists m keys) (store_keys-Prepared exists m keys))
      | inr absent ↦ rw absent (
          put_first m key h (store_keys s k exists (begin_store s k m h) keys) g
            (store_keys-Prepared exists (begin_store s k m h) keys))
    ])
  ]

  complete_store-inflight :
      (m : Manager s k) (keys : List k.Key) (hs : List ℕ)
      → HashesOf keys hs
      → (m' : Manager s k) × (complete_store s k m keys ≡ ok m')
        × ((j : ℕ) → inflight j m' ≡ inflight j m - count j hs)
  unfolding complete_store
  complete_store-inflight m [] [] p = (m, refl, λ j. omega arith)
  complete_store-inflight m [] (h ∷ hs) p = absurd p
  complete_store-inflight m (key ∷ keys) [] p = absurd p
  complete_store-inflight m (key ∷ keys) (h ∷ hs) p =
      let (m', e, c) = complete_store-inflight (end_store s k m h) keys hs p.1 in
      (m', rw p.0 e, λ j. omega (arith, c j, inflight-end m h j))

  inflight-flush :
      (m : Manager s k) (r : Option String) (j : ℕ)
      → inflight j (maybe_flush_lookup_cache s k m r) ≡ inflight j m
  unfolding maybe_flush_lookup_cache
  inflight-flush m r j = ground arith

  -- Without a 0, the counts determine the entries.
  same_entry :
      (m n : Manager s k) (j : ℕ)
      → HasNoZero s k m
      → HasNoZero s k n
      → inflight j m ≡ inflight j n
      → lookup j m.store_inflight ≡ lookup j n.store_inflight
  same_entry m n j zm zn e = ground (arith, zm j, zn j, e)

  same_has :
      (m n : Manager s k) (j : ℕ)
      → lookup j m.store_inflight ≡ lookup j n.store_inflight
      → has j m.store_inflight ≡ has j n.store_inflight
  same_has m n j e = elim (Bool-cases (has j n.store_inflight)) [
    | inl there ↦
        let (v, at) = has-lookup j n.store_inflight there in
        lookup-some-has j v m.store_inflight (e ∙ at) ∙ sym there
    | inr not_there ↦
        lookup-none-has j m.store_inflight (e ∙ has_not-lookup j n.store_inflight not_there)
        ∙ sym not_there
  ]

  -- A store that is prepared and completed leaves no trace among the stores in flight: where no count
  -- of `m` is 0, `complete_store` of the keys that `prepare_store` returned succeeds; then each hash
  -- has the entry that it had before, or none if it had none, so that `lookup` finds the same blocks
  -- in the middle of a write; and again no count is 0.
  pub prepare_complete :
      (exists : ℕ → Bool) (m m' : Manager s k) (keys : List k.Key) (r : Option String)
      (out : PrepareStoreOutput s k)
      → HasNoZero s k m
      → prepare_store s k exists m keys r ≡ ok (m', out)
      → (m'' : Manager s k) × (complete_store s k m' out.keys_to_store ≡ ok m'')
        × ((j : ℕ)
            → (lookup j m''.store_inflight ≡ lookup j m.store_inflight)
              × (has j m''.store_inflight ≡ has j m.store_inflight))
        × HasNoZero s k m''
  unfolding prepare_store
  prepare_complete exists m m' keys r out z h =
      let flushed = maybe_flush_lookup_cache s k m r in
      let (more, hashes) = rw h at (store_keys-Prepared exists flushed keys) in
      let after =
        rw h at (store_keys-HasNoZero s k exists flushed keys (flush-HasNoZero s k m r z)) in
      let (m'', e, c) = complete_store-inflight m' out.keys_to_store out.block_hashes hashes in
      let left = complete_store-HasNoZero s k m' out.keys_to_store e after in
      let entry =
        λ (j : ℕ). same_entry m'' m j left z (omega (arith, c j, more j, inflight-flush m r j)) in
      (m'', e, (λ j. (entry j, same_has m'' m j (entry j))), left)

  inflight-has : (m : Manager s k) (h : ℕ) → 0 < inflight h m → has h m.store_inflight ≡ true
  inflight-has m h p = elim (Bool-cases (has h m.store_inflight)) [
    | inl e ↦ e
    | inr e ↦ absurd (ground (arith, has_not-lookup h m.store_inflight e))
  ]

  -- The fence: after `prepare_store`, `lookup` of a block that it is to store answers `None`, whatever
  -- the planner says, for as long as the file is not there. The lookup cache is sound.
  pub prepare-fences :
      (exists now_exists : ℕ → Bool) (m m' : Manager s k) (keys : List k.Key) (r q : Option String)
      (out : PrepareStoreOutput s k) (h : ℕ)
      → prepare_store s k exists m keys r ≡ ok (m', out)
      → contains h out.block_hashes ≡ true
      → now_exists h ≡ false
      → CacheIsSound s k now_exists m'
      → (look_up s k now_exists m' h q).1 ≡ none
  unfolding prepare_store
  prepare-fences exists now_exists m m' keys r q out h e c absent v =
      let more = (rw e at (store_keys-Prepared exists (maybe_flush_lookup_cache s k m r) keys)).0 in
      look_up-fenced s k now_exists m' h q v absent
        (inflight-has m' h (omega (arith, more h, contains-count h out.block_hashes c)))
