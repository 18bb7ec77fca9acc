-- ===== src/Reactor/Progress/Loops.antt =====
-- The loop over a load's files in `_schedule_work` of py_kvcache/reactor.py ends by its own test: no more
-- turns are needed than there are files left.
use py_kvcache.Prelude.{
  ℕ, zero, suc, ◌-◌, ◌≤◌, ◌<◌, ◌≡◌, refl, sym, ap, ◌∙◌, Bool-cases, Option-cases, inl, inr, List,
  [], Option, none, some, nat_eq, get_elem?, arith,
}
use py_kvcache.Reactor.State.{Job, Reactor}
use py_kvcache.Reactor.Jobs.{World, hash_of}
use py_kvcache.Reactor.Schedule.{load_file, file_of, next_file, load_files, left_of, files_left}
use py_kvcache.Reactor.Placed.{IsPlaced}
use py_kvcache.Reactor.Placed.Load.{load_file-IsPlaced}
use py_kvcache.Reactor.Progress.{span_of, progress, bump}
use py_kvcache.Reactor.Progress.Turns.{load_file-Begins}

-- The files that a span leaves.
abbrev pub rest_of : Option (ℕ × ℕ) → ℕ
rest_of none = 0
rest_of (some (i, n)) = n - i

left_of-span : (o : Option Job) → left_of o ≡ rest_of (span_of o)
unfolding left_of
left_of-span none = refl
left_of-span (some x) = refl

files_left-progress :
    (jobs : List Job) (job : ℕ) → files_left jobs job ≡ rest_of (progress jobs job)
unfolding files_left
files_left-progress jobs job = left_of-span (get_elem? jobs job)

rest_of-bump : (o : Option (ℕ × ℕ)) → rest_of (bump o) ≡ rest_of o - 1
rest_of-bump none = refl
rest_of-bump (some (i, n)) = omega arith

file_of-left : (o : Option Job) (i : ℕ) → file_of o ≡ some i → 0 < left_of o
unfolding file_of left_of
file_of-left none i e = cc
file_of-left (some x) i e = ground arith

next_file-left :
    (jobs : List Job) (job i : ℕ) → next_file jobs job ≡ some i → 0 < files_left jobs job
unfolding next_file files_left
next_file-left jobs job i e = file_of-left (get_elem? jobs job) i e

-- The loop over a load's files ends by itself: while every slot is in one place, given at least as
-- many turns as there are files left, any larger number of turns gives the same.
pub load_files-enough :
    {total : ℕ} (w : World) (a b : ℕ) (r : Reactor) (job : ℕ)
    → files_left r.jobs job ≤ a
    → a ≤ b
    → IsPlaced total r.slots [] []
    → load_files w b r job ≡ load_files w a r job
unfolding load_files
load_files-enough w zero zero r job enough more v = refl
load_files-enough w (suc a) zero r job enough more v = absurd (omega arith)
load_files-enough w zero (suc b) r job enough more v = elim (Option-cases (next_file r.jobs job)) [
  | inl e ↦ simp (e, load_files) refl
  | inr (i, e) ↦ absurd (omega (arith, next_file-left r.jobs job i e))
]
load_files-enough w (suc a) (suc b) r job enough more v =
    elim (Option-cases (next_file r.jobs job)) [
      | inl e ↦ simp (e, load_files) refl
      | inr (i, e) ↦
          let h = hash_of r.jobs job i in
          let turn = load_file w r job i h in
          elim (Bool-cases turn.1) [
            | inl on ↦
                let begun : files_left turn.0.jobs job ≡ files_left r.jobs job - 1 =
                  files_left-progress turn.0.jobs job
                  ∙ ap rest_of (load_file-Begins w r job i h v on)
                  ∙ rest_of-bump (progress r.jobs job)
                  ∙ ap (λ n. n - 1) (sym (files_left-progress r.jobs job)) in
                simp (e, on, load_files)
                  (load_files-enough w a b turn.0 job (omega (arith, begun)) (omega arith)
                    (load_file-IsPlaced w r job i h [] [] v))
            | inr off ↦ simp (e, off, load_files) refl
          ]
    ]
