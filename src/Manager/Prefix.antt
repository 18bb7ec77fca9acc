-- ===== src/Manager/Prefix.antt =====
-- The candidates that `plan_candidates` of py_kvcache/vllm.py hands to the planner: which blocks it
-- calls loadable, against the file system and the stores in flight.
use py_kvcache.Prelude.{
  ℕ, Error, ◌≡◌, refl, ap, ◌∙◌, ◌⊎◌, inl, inr, Bool, true, false, List, [], ◌∷◌, Result, ok, err,
  ◌>>=◌, if◌then◌else◌, nat_eq, ◌==◌, arith, Bool-cases, not, ◌&&◌, ◌||◌, length,
}
use py_kvcache.Prelude.Dict.{has}
use py_kvcache.Seconds.{Seconds}
use py_kvcache.Manager.{
  OffloadKeys, Manager, Scan, PlanCandidate, get_block_hash, probe, prepend, scan_keys, cost_input,
}
use py_kvcache.Manager.Lookup.{CacheIsSound, probe_sound, probe-answer}

module _ (s : Seconds) (k : OffloadKeys) (exists : ℕ → Bool) where
  -- The longest prefix of the keys whose blocks are on disk or being written.
  unfoldable pub loadable : (ℕ → Bool) → List k.Key → List ℕ
  loadable written [] = []
  loadable written (key ∷ keys) =
      let rest = loadable written keys in
      let h = k.block_hash key in if exists h || written h then h ∷ rest else []

  -- Some block is being written and not on disk.
  unfoldable pub any_mid_write : (ℕ → Bool) → List ℕ → Bool
  any_mid_write written [] = false
  any_mid_write written (h ∷ hs) = (not (exists h) && written h) || any_mid_write written hs

  abbrev Scanned : (ℕ → Bool) → List k.Key → Result (Scan s k) → Type 0
  Scanned written keys (err e) = Unit
  Scanned written keys (ok x) =
      (x.loadable_hashes ≡ loadable written keys)
      × (x.blocked_on_store ≡ any_mid_write written (loadable written keys))

  get_block_hash-cases :
      (key : k.Key)
      → (get_block_hash s k key ≡ ok (k.block_hash key))
        ⊎ ((e : Error) × (get_block_hash s k key ≡ err e))
  unfolding get_block_hash
  get_block_hash-cases key = elim (Bool-cases (k.group_idx key == 0)) [
    | inl z ↦ inl (rw z)
    | inr z ↦ inr (Error.value_error, rw z)
  ]

  prepend-Scanned :
      (written : ℕ → Bool) (key : k.Key) (keys : List k.Key) (mid : Bool) (r : Result (Scan s k))
      → (exists (k.block_hash key) || written (k.block_hash key)) ≡ true
      → mid ≡ (not (exists (k.block_hash key)) && written (k.block_hash key))
      → Scanned written keys r
      → Scanned written (key ∷ keys) (r >>= λ x. ok (prepend s k (k.block_hash key) mid x))
  unfolding loadable any_mid_write prepend
  prepend-Scanned written key keys mid (err e) t m q = tt
  prepend-Scanned written key keys mid (ok x) t m q =
      rw t (ap (◌∷◌ (k.block_hash key)) q.0, rw (m, q.1) refl)

  stop-Scanned :
      (written : ℕ → Bool) (key : k.Key) (keys : List k.Key) (m : Manager s k)
      → (exists (k.block_hash key) || written (k.block_hash key)) ≡ false
      → Scanned written
          (key ∷ keys)
          (ok (record { manager = m; loadable_hashes = []; blocked_on_store = false }))
  unfolding loadable any_mid_write
  stop-Scanned written key keys m t = rw t (refl, refl)

  scan_keys-Scanned :
      (m : Manager s k) (written : ℕ → Bool) (keys : List k.Key)
      → CacheIsSound s k exists m
      → ((h : ℕ) → has h m.store_inflight ≡ written h)
      → Scanned written keys (scan_keys s k exists m keys)
  unfolding scan_keys
  scan_keys-Scanned m written [] v w = unfold loadable any_mid_write in (refl, refl)
  scan_keys-Scanned m written (key ∷ keys) v w = elim (get_block_hash-cases key) [
    | inr (e, g) ↦ rw (g, scan_keys) tt
    | inl g ↦
        let h = k.block_hash key in
        let a = probe-answer s k exists m h v in
        let p = probe s k exists m h in
        let ih =
          scan_keys-Scanned p.0 written keys (probe_sound s k exists m h v)
            (λ j. ap (has j) a.2 ∙ w j) in
        rw (g, scan_keys)
          (elim (Bool-cases (p.1 || p.2)) [
            | inl t ↦ rw t (
                prepend-Scanned written key keys p.2 (scan_keys s k exists p.0 keys)
                  (ground (arith, a.0, a.1, w h)) (ground (arith, a.1, w h)) ih)
            | inr t ↦ rw t (stop-Scanned written key keys p.0 (ground (arith, a.0, a.1, w h)))
          ])
  ]

  -- With a sound lookup cache, the planner is told of a candidate exactly the longest prefix of its
  -- blocks that are on disk or being written, and that it is blocked exactly if one of these is still
  -- being written.
  pub scan_keys-loadable :
      (m : Manager s k) (c : PlanCandidate s k) (x : Scan s k)
      → CacheIsSound s k exists m
      → scan_keys s k exists m c.keys ≡ ok x
      → let input = cost_input s k c x in
        let prefix = loadable (λ h. has h m.store_inflight) c.keys in
        (input.loadable_hashes ≡ prefix)
        × (input.load_blocks ≡ length prefix)
        × (input.blocked_on_store ≡ any_mid_write (λ h. has h m.store_inflight) prefix)
  unfolding cost_input
  scan_keys-loadable m c x v e =
      let q = rw e at (scan_keys-Scanned m (λ h. has h m.store_inflight) c.keys v (λ h. refl)) in
      (q.0, ap length q.0, q.1)
