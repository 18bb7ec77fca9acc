-- ===== src/LoadPlanner/Queue.antt =====
-- The modelled storage queue of `LoadPlanner` (py_kvcache/load_planner.py): `_entries` and
-- `_staging_by_req` hold the same reads, one for a request, in the order in which storage serves them.
use Prim.Native.String.{String}
use py_kvcache.Prelude.{
  ◌≡◌, refl, ap, inl, inr, true, false, List, [], ◌∷◌, ◌++◌, map, Option, none, some, if◌then◌else◌,
  string_eq, nat_eq, ◌==◌, arith, Bool-cases, All,
}
use py_kvcache.Prelude.Keys.{contains, Distinct}
use py_kvcache.Prelude.Dict.{lookup, lookup-delete}
use py_kvcache.Seconds.{Seconds, IsOrdered}
use py_kvcache.LoadPlanner.State.{Staging, LoadPlanner, last_end, retire_one, retire_from}

module _ (s : Seconds) where
  abbrev pub entry_ids : List (Staging s) → List String
  entry_ids = map (λ (e : Staging s). e.req_id)

  -- The read of a request in the queue.
  unfoldable pub find_entry : String → List (Staging s) → Option (Staging s)
  find_entry id [] = none
  find_entry id (e ∷ es) = if e.req_id == id then some e else find_entry id es

  -- Each read ends no earlier than it starts, and starts no earlier than the one before it ends.
  abbrev pub InTurn : List (Staging s) → Type 0
  InTurn [] = Unit
  InTurn (e ∷ []) = s.le e.starts_at e.ends_at ≡ true
  InTurn (e ∷ f ∷ es) =
      (s.le e.starts_at e.ends_at ≡ true) × (s.le e.ends_at f.starts_at ≡ true) × InTurn (f ∷ es)

  pub record IsQueue (es : List (Staging s)) (p : LoadPlanner s) : Type 0 where
    pub once : Distinct (entry_ids es)
    pub same : (id : String) → lookup id p.staging_by_req ≡ find_entry id es
    pub in_turn : InTurn es

  pub find_entry-contains :
      (id : String) (es : List (Staging s))
      → find_entry id es ≡ none
      → contains id (entry_ids es) ≡ false
  unfolding find_entry
  find_entry-contains id [] h = refl
  find_entry-contains id (e ∷ es) h = ground (arith, find_entry-contains id es)

  contains-find_entry :
      (id : String) (es : List (Staging s))
      → contains id (entry_ids es) ≡ false
      → find_entry id es ≡ none
  unfolding find_entry
  contains-find_entry id [] h = refl
  contains-find_entry id (e ∷ es) h = ground (arith, contains-find_entry id es)

  pub find_entry-append :
      (id : String) (e : Staging s) (es : List (Staging s))
      → find_entry e.req_id es ≡ none
      → find_entry id (es ++ e ∷ []) ≡ (if e.req_id == id then some e else find_entry id es)
  unfolding find_entry
  find_entry-append id e [] h = refl
  find_entry-append id e (f ∷ es) h = ground (
    arith,
    find_entry-append id e es,
    string_eq.beq_iff e.req_id id,
    string_eq.beq_iff f.req_id id,
    string_eq.beq_iff f.req_id e.req_id,
  )

  pub entry_ids-append :
      (e : Staging s) (es : List (Staging s))
      → entry_ids (es ++ e ∷ []) ≡ entry_ids es ++ e.req_id ∷ []
  entry_ids-append e [] = refl
  entry_ids-append e (f ∷ es) = ap (◌∷◌ f.req_id) (entry_ids-append e es)

  pub InTurn-append :
      (e : Staging s) (es : List (Staging s))
      → s.le e.starts_at e.ends_at ≡ true
      → s.le (last_end s e.starts_at es) e.starts_at ≡ true
      → InTurn es
      → InTurn (es ++ e ∷ [])
  unfolding last_end
  InTurn-append e [] h k t = h
  InTurn-append e (f ∷ []) h k t = (t, k, h)
  InTurn-append e (f ∷ g ∷ es) h k t = (t.0, t.1, InTurn-append e (g ∷ es) h k t.2)

  InTurn-tail : (e : Staging s) (es : List (Staging s)) → InTurn (e ∷ es) → InTurn es
  InTurn-tail e [] t = tt
  InTurn-tail e (f ∷ es) t = t.2

  retire_one-IsQueue :
      (e : Staging s) (es : List (Staging s)) (p : LoadPlanner s)
      → IsQueue (e ∷ es) p
      → IsQueue es (retire_one s p e)
  unfolding retire_one find_entry
  retire_one-IsQueue e es p q = record {
    once = q.once.1;
    same = λ id. ground (
      arith,
      lookup-delete e.req_id id p.staging_by_req,
      q.same id,
      contains-find_entry id es,
      string_eq.beq_iff e.req_id id,
      q.once.0,
    );
    in_turn = InTurn-tail e es q.in_turn;
  }

  pub retire_from-IsQueue :
      (now : s.Time) (es : List (Staging s)) (p : LoadPlanner s)
      → IsQueue es p
      → IsQueue (retire_from s now es p).entries (retire_from s now es p)
  unfolding retire_from
  retire_from-IsQueue now [] p q = record { once = q.once; same = q.same; in_turn = q.in_turn }
  retire_from-IsQueue now (e ∷ es) p q = elim (Bool-cases (s.le e.ends_at now)) [
    | inl h ↦ rw h (retire_from-IsQueue now es (retire_one s p e) (retire_one-IsQueue e es p q))
    | inr h ↦ rw h (record { once = q.once; same = q.same; in_turn = q.in_turn })
  ]

  module _ (o : IsOrdered s) (now : s.Time) where
    late-tail :
        (e : Staging s) (es : List (Staging s))
        → InTurn (e ∷ es)
        → s.le e.ends_at now ≡ false
        → All (λ (f : Staging s). s.le f.ends_at now ≡ false) (e ∷ es)
    late-tail e [] t h = (h, tt)
    late-tail e (f ∷ es) t h = (h, late-tail f es t.2 (later t))
      where
        later : InTurn (e ∷ f ∷ es) → s.le f.ends_at now ≡ false
        later t = elim (Bool-cases (s.le f.ends_at now)) [
          | inl k ↦ cc (
              o.le_trans e.ends_at f.starts_at now t.1
                (o.le_trans f.starts_at f.ends_at now (starts f es t.2) k))
          | inr k ↦ k
        ]
          where
            starts :
                (f : Staging s) (es : List (Staging s))
                → InTurn (f ∷ es)
                → s.le f.starts_at f.ends_at ≡ true
            starts f [] t = t
            starts f (g ∷ es) t = t.0

    -- Where the reads are in turn, `_retire_shadow_entries` leaves none that has ended.
    pub retire_from-late :
        (es : List (Staging s)) (p : LoadPlanner s)
        → InTurn es
        → All (λ (f : Staging s). s.le f.ends_at now ≡ false) (retire_from s now es p).entries
    unfolding retire_from
    retire_from-late [] p t = tt
    retire_from-late (e ∷ es) p t = elim (Bool-cases (s.le e.ends_at now)) [
      | inl h ↦ rw h (retire_from-late es (retire_one s p e) (InTurn-tail e es t))
      | inr h ↦ rw h (late-tail e es t h)
    ]
