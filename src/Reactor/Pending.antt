-- ===== src/Reactor/Pending.antt =====
-- The counts of pending preloads in py_kvcache/reactor.py: per hash, how many copies are pending.
use py_kvcache.Prelude.{
  ℕ, ◌+◌, ◌-◌, ◌≡◌, refl, ap, ◌∙◌, Bool-cases, inl, inr, List, [], ◌∷◌, none, some, nat_beq, nat_eq,
  leb, ltb, if◌then◌else◌, Option, arith,
}
use py_kvcache.Prelude.Dict.{Dict, lookup, lookup_or, insert, delete, lookup-insert, lookup-delete}
use py_kvcache.Reactor.State.{PreloadInfo, Demand}
use py_kvcache.Reactor.Demand.{
  lower, pending_dec, consume_pending_cancel, drain_cancelled, drain_cancelled_pending,
}

-- How many of the pending copies are of a hash.
abbrev pub copies : ℕ → List PreloadInfo → ℕ
copies h [] = 0
copies h (info ∷ infos) = (if nat_beq info.block_hash h then 1 else 0) + copies h infos

abbrev pub or_zero : Option ℕ → ℕ
or_zero none = 0
or_zero (some n) = n

-- The counts are those of the copies that are pending.
abbrev pub IsCounted : Dict ℕ ℕ → List PreloadInfo → Type 0
IsCounted counts infos = (h : ℕ) → or_zero (lookup h counts) ≡ copies h infos

-- The first pending copy, if there is one, is not cancelled.
abbrev pub IsWanted : Dict ℕ ℕ → List PreloadInfo → Type 0
IsWanted cancels [] = Unit
IsWanted cancels (info ∷ _) = lookup_or info.block_hash 0 cancels ≡ 0

lookup_or-or_zero : (h : ℕ) (counts : Dict ℕ ℕ) → lookup_or h 0 counts ≡ or_zero (lookup h counts)
lookup_or-or_zero h counts = same (lookup h counts)
  where
    same : (o : Option ℕ) → (elim o as (λ _. ℕ) [ none ↦ 0 | some w ↦ w ]) ≡ or_zero o
    same none = refl
    same (some n) = refl

-- The count of a hash after the count of one is replaced.
or_zero-at :
    (h k n : ℕ) (new : Option ℕ) (counts after : Dict ℕ ℕ)
    → n ≡ or_zero (lookup h counts)
    → or_zero new ≡ n - 1
    → lookup k after ≡ (if nat_beq h k then new else lookup k counts)
    → or_zero (lookup k after)
      ≡ (if nat_beq h k then or_zero (lookup k counts) - 1 else or_zero (lookup k counts))
or_zero-at h k n new counts after is lowered at = elim (Bool-cases (nat_beq h k)) [
  | inl e ↦ rw e (
      ap or_zero (rw e at at)
      ∙ lowered
      ∙ ap (λ m. m - 1) (is ∙ ap (λ i. or_zero (lookup i counts)) ((nat_eq.beq_iff h k).0 e)))
  | inr e ↦ rw e (ap or_zero (rw e at at))
]

or_zero-lower :
    (h k : ℕ) (counts : Dict ℕ ℕ)
    → or_zero (lookup k (lower h counts))
      ≡ (if nat_beq h k then or_zero (lookup k counts) - 1 else or_zero (lookup k counts))
unfolding lower
or_zero-lower h k counts =
    let n = lookup_or h 0 counts in
    let is : n ≡ or_zero (lookup h counts) = lookup_or-or_zero h counts in
    elim (Bool-cases (leb n 1)) [
      | inl few ↦ rw few (
          or_zero-at h k n none counts (delete h counts) is (ground arith)
            (lookup-delete h k counts))
      | inr many ↦ rw many (
          or_zero-at h k n (some (n - 1)) counts (insert h (n - 1) counts) is refl
            (lookup-insert h k (n - 1) counts))
    ]

drained-IsCounted :
    (d : Demand) (infos : List PreloadInfo)
    → IsCounted d.pending_count infos
    → IsCounted (drain_cancelled d infos).pending_count (drain_cancelled d infos).pending
      × IsWanted (drain_cancelled d infos).pending_cancel (drain_cancelled d infos).pending
unfolding drain_cancelled pending_dec consume_pending_cancel
drained-IsCounted d [] c = (c, tt)
drained-IsCounted d (info ∷ rest) c =
    let h = info.block_hash in
    let lowered = pending_dec (consume_pending_cancel d h) h in
    let left : IsCounted lowered.pending_count rest =
      λ k. ground (arith, c k, or_zero-lower h k d.pending_count) in
    let after = drained-IsCounted lowered rest left in
    elim (Bool-cases (ltb 0 (lookup_or h 0 d.pending_cancel))) [
      | inl e ↦ rw e after
      | inr e ↦ rw e (c, ground arith)
    ]

-- `_drain_cancelled_pending` keeps the counts exact: where each hash is counted as often as it is
-- pending, that is so afterwards, and the copy that is then first in the queue is not cancelled.
pub drain_cancelled_pending-IsCounted :
    (d : Demand)
    → IsCounted d.pending_count d.pending
    → IsCounted (drain_cancelled_pending d).pending_count (drain_cancelled_pending d).pending
      × IsWanted (drain_cancelled_pending d).pending_cancel (drain_cancelled_pending d).pending
unfolding drain_cancelled_pending
drain_cancelled_pending-IsCounted d c = drained-IsCounted d d.pending c
