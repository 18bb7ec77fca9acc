-- ===== src/Reactor/Ends.antt =====
-- How jobs of py_kvcache/reactor.py end: when the thread crashes, and when `_finish_jobs` drops them.
use py_kvcache.Prelude.{
  ℕ, zero, suc, ◌≡◌, refl, ap, subst, Bool-cases, Option-cases, ◌↔◌, ◌⊎◌, ◌≤◌, inl, inr, Bool, true,
  false, List, [], ◌∷◌, Option, none, some, get_elem?, modify, nat_beq, nat_eq, ◌||◌, not,
  if◌then◌else◌, arith,
}
use py_kvcache.Prelude.Int.{ℤ, pos, negsuc}
use py_kvcache.Prelude.Keys.{contains}
use py_kvcache.Prelude.Dict.{values}
use py_kvcache.Reactor.State.{Outcome, Failure, Job, Reactor}
use py_kvcache.Reactor.Jobs.{is_set, is_finished, keep_job, remaining, finish_jobs}
use py_kvcache.Reactor.Intake.{waiting}
use py_kvcache.Reactor.Run.{Item, crash, crash_each, crash_waiting, fail_everything}

-- Whether the job at a handle, if there is one, has an outcome.
abbrev pub ended_in : Option Job → Bool
ended_in none = true
ended_in (some x) = is_set x.outcome

abbrev pub has_ended : List Job → ℕ → Bool
has_ended jobs job = ended_in (get_elem? jobs job)

crash-ends : (x : Job) → is_set (crash x).outcome ≡ true
unfolding crash is_set
crash-ends x = ground arith

crash_here : (jobs : List Job) (job : ℕ) → has_ended (modify crash job jobs) job ≡ true
crash_here [] job = refl
crash_here (x ∷ jobs) zero = crash-ends x
crash_here (x ∷ jobs) (suc job) = crash_here jobs job

crash_keeps :
    (jobs : List Job) (other job : ℕ)
    → has_ended jobs job ≡ true
    → has_ended (modify crash other jobs) job ≡ true
crash_keeps [] other job e = refl
crash_keeps (x ∷ jobs) zero zero e = crash-ends x
crash_keeps (x ∷ jobs) zero (suc job) e = e
crash_keeps (x ∷ jobs) (suc other) zero e = e
crash_keeps (x ∷ jobs) (suc other) (suc job) e = crash_keeps jobs other job e

crash_each-keeps :
    (handles : List ℕ) (jobs : List Job) (job : ℕ)
    → has_ended jobs job ≡ true
    → has_ended (crash_each handles jobs) job ≡ true
unfolding crash_each
crash_each-keeps [] jobs job e = e
crash_each-keeps (other ∷ handles) jobs job e =
    crash_each-keeps handles (modify crash other jobs) job (crash_keeps jobs other job e)

crash_each-ends :
    (handles : List ℕ) (jobs : List Job) (job : ℕ)
    → contains job handles ≡ true
    → has_ended (crash_each handles jobs) job ≡ true
unfolding crash_each
crash_each-ends [] jobs job e = cc
crash_each-ends (other ∷ handles) jobs job e = elim (Bool-cases (nat_beq other job)) [
  | inl same ↦ crash_each-keeps handles (modify crash other jobs) job (
      subst (λ k. has_ended (modify crash other jobs) k ≡ true) ((nat_eq.beq_iff other job).0 same)
        (crash_here jobs other))
  | inr apart ↦ crash_each-ends handles (modify crash other jobs) job (ground arith)
]

-- The jobs that wait.
abbrev pub waiters_of : List (ℕ × ℕ) → List ℕ
waiters_of [] = []
waiters_of ((job, _) ∷ waiters) = job ∷ waiters_of waiters

crash_waiting-each :
    (waiters : List (ℕ × ℕ)) (jobs : List Job)
    → crash_waiting waiters jobs ≡ crash_each (waiters_of waiters) jobs
unfolding crash_waiting crash_each
crash_waiting-each [] jobs = refl
crash_waiting-each ((job, _) ∷ waiters) jobs = crash_waiting-each waiters (modify crash job jobs)

-- When the thread crashes, every job that was active, and every job that waits for a preload, has an
-- outcome.
pub fail_everything-ends :
    (r : Reactor) (queue : List Item) (job : ℕ)
    → (contains job r.active || contains job (waiters_of (waiting (values r.demand.waiters))))
      ≡ true
    → has_ended (fail_everything r queue).0.jobs job ≡ true
unfolding fail_everything
fail_everything-ends r queue job e =
    let waiters = waiting (values r.demand.waiters) in
    rw (crash_waiting-each waiters (crash_each r.active r.jobs))
      (elim (Bool-cases (contains job r.active)) [
        | inl active ↦
            crash_each-keeps (waiters_of waiters) (crash_each r.active r.jobs) job
              (crash_each-ends r.active r.jobs job active)
        | inr out ↦
            crash_each-ends (waiters_of waiters) (crash_each r.active r.jobs) job (ground arith)
      ])

-- Whether the job at a handle is there and not finished.
abbrev pub goes_on : Option Job → Bool
goes_on none = false
goes_on (some x) = not (is_finished x)

contains-keep_job :
    (other job : ℕ) (o : Option Job) (rest : List ℕ)
    → contains job (keep_job other o rest)
      ≡ (if (if nat_beq other job then goes_on o else false) then true else contains job rest)
unfolding keep_job
contains-keep_job other job none rest = ground arith
contains-keep_job other job (some x) rest = ground arith

contains-remaining :
    (jobs : List Job) (active : List ℕ) (job : ℕ)
    → contains job (remaining jobs active)
      ≡ (if contains job active then goes_on (get_elem? jobs job) else false)
unfolding remaining
contains-remaining jobs [] job = refl
contains-remaining jobs (other ∷ active) job = elim (Bool-cases (nat_beq other job)) [
  | inl same ↦
      let here : other ≡ job = (nat_eq.beq_iff other job).0 same in
      ground (
        arith,
        contains-keep_job other job (get_elem? jobs other) (remaining jobs active),
        contains-remaining jobs active job,
        ap (λ k. goes_on (get_elem? jobs k)) here,
      )
  | inr apart ↦ ground (
    arith,
    contains-keep_job other job (get_elem? jobs other) (remaining jobs active),
    contains-remaining jobs active job,
  )
]

ℤ-cases : (z : ℤ) → (z ≡ pos 0) ⊎ ((n : ℕ) × (z ≡ pos (suc n))) ⊎ ((n : ℕ) × (z ≡ negsuc n))
ℤ-cases (pos zero) = inl refl
ℤ-cases (pos (suc n)) = inr (inl (n, refl))
ℤ-cases (negsuc n) = inr (inr (n, refl))

-- A job is done with: it has an outcome, no file of it is in flight, and either all its files have
-- begun or it has failed.
abbrev pub IsDone : Job → Type 0
IsDone x =
    ((o : Outcome) × (x.outcome ≡ some o))
    × (x.inflight_files ≡ pos 0)
    × ((x.total_files ≤ x.next_file_index) ⊎ ((e : Failure) × (x.failed ≡ some e)))

is_finished-IsDone : (x : Job) → is_finished x ≡ true → IsDone x
unfolding is_finished is_set
is_finished-IsDone x e = elim (Option-cases x.outcome) [
  | inl unset ↦ absurd (ground arith)
  | inr (o, out) ↦ elim (ℤ-cases x.inflight_files) [
    | inl idle ↦ elim (Option-cases x.failed) [
      | inl sound ↦ ((o, out), idle, inl (ground arith))
      | inr (f, failed) ↦ ((o, out), idle, inr (f, failed))
    ]
    | inr (inl (n, busy)) ↦ absurd (ground arith)
    | inr (inr (n, below)) ↦ absurd (ground arith)
  ]
]

IsDone-is_finished : (x : Job) → IsDone x → is_finished x ≡ true
unfolding is_finished is_set
IsDone-is_finished x ((o, out), idle, inl over) = ground arith
IsDone-is_finished x ((o, out), idle, inr (f, failed)) = ground arith

goes_on_iff : (o : Option Job) → (goes_on o ≡ true) ↔ ((x : Job) × (o ≡ some x) × (¬ IsDone x))
goes_on_iff none = (λ e. cc e, λ p. cc (p.1))
goes_on_iff (some x) = (
  λ e. (x, refl, λ d. ground (arith, IsDone-is_finished x d)),
  λ p. elim (Bool-cases (is_finished x)) [
    | inl over ↦
        let same : x ≡ p.0 = cc (p.1) in
        absurd (p.2 (subst IsDone same (is_finished-IsDone x over)))
    | inr not_yet ↦ rw not_yet refl
  ],
)

-- `_finish_jobs` drops exactly the active jobs that are done with: a job is active afterwards if and
-- only if it was active, and it is not so that it has an outcome, has no file in flight, and has
-- begun all its files or has failed.
pub finish_jobs-keeps :
    (r : Reactor) (job : ℕ)
    → (contains job (finish_jobs r).active ≡ true) ↔ (
        (contains job r.active ≡ true)
        × ((x : Job) × (get_elem? r.jobs job ≡ some x) × (¬ IsDone x)))
unfolding finish_jobs
finish_jobs-keeps r job =
    let same = contains-remaining r.jobs r.active job in
    let (there, back) = goes_on_iff (get_elem? r.jobs job) in
    (λ e. (ground arith, there (ground arith)), λ p. let on = back p.1 in ground arith)
