-- ===== src/Tests/Handlers.antt =====
-- Runs of the handler of py_kvcache/vllm.py.
use py_kvcache.Prelude.{
  ℕ, ◌≡◌, refl, true, false, ◌||◌, [], ◌∷◌, ◌++◌, Option, none, some, ok, nat_eq, ◌==◌,
  if◌then◌else◌, arith,
}
use py_kvcache.Prelude.Keys.{contains}
use py_kvcache.Prelude.Dict.{values}
use py_kvcache.Seconds.{ticks}
use py_kvcache.Handler.{
  Ended, transferred, load_declined, raised, Active, Handler, gpu_spec, shared_storage_spec,
  storage_to_gpu, gpu_to_storage, transfer_result, get_finished, get_declined_block_ids,
  transfer_async, transfer_type_of, preload_async, preload_open, preload_storage, remember,
  pop_first,
}
use py_kvcache.Handler.Jobs.{
  IsValid, waiting, reported, get_finished-reports, transfer_async-reported,
}
use py_kvcache.Handler.Preloads.{IsWindow, preload_async-IsWindow, preload_async_again}
use py_kvcache.Handler.Declines.{any_declines, get_finished-declines}

program : Unit {0}
unfolding transfer_type_of preload_async preload_open preload_storage remember pop_first
program = tt

-- A load that was declined, a store that is not done, and a store that failed.
abbrev load : Active ticks ℕ
load = record { future = 10; started = 1; transfer_type = storage_to_gpu }

abbrev store : Active ticks ℕ
store = record { future = 11; started = 2; transfer_type = gpu_to_storage }

abbrev failing : Active ticks ℕ
failing = record { future = 12; started = 3; transfer_type = gpu_to_storage }

abbrev poll : ℕ → Option Ended
poll f =
    if f == 10
    then some (load_declined (4 ∷ 5 ∷ []) "a")
    else if f == 12
    then some (raised "no space")
    else if f == 13
    then some (transferred 4096)
    else none

abbrev clock : ℕ → ℕ
clock job_id = 9

abbrev busy : Handler ticks ℕ
busy = record {
  active = (1, load) ∷ (2, store) ∷ (3, failing) ∷ [];
  finished = [];
  declined_block_ids = 5 ∷ [];
  declined_req_ids = [];
  submitted_preload_ids = "p" ∷ "q" ∷ [];
  max_submitted_preload_ids = 2;
  is_shutdown = false;
}

busy-IsValid : IsValid ticks ℕ busy
busy-IsValid = record { collected = refl; once = (refl, (refl, (refl, tt))) }

get_finished-reports_example :
    ((get_finished ticks ℕ clock poll busy).1 ≡ values (reported ticks ℕ clock poll busy.active))
    × ((get_finished ticks ℕ clock poll busy).0.active ≡ waiting ticks ℕ clock poll busy.active)
    × IsValid ticks ℕ (get_finished ticks ℕ clock poll busy).0
get_finished-reports_example = get_finished-reports ticks ℕ clock poll busy busy-IsValid

abbrev next : Active ticks ℕ
next = record { future = 13; started = 4; transfer_type = storage_to_gpu }

transfer_async-reported_example :
    (h' : Handler ticks ℕ) × (transfer_async ticks ℕ
        (ok 13)
        4
        busy
        7
        (shared_storage_spec (1 ∷ []))
        (gpu_spec (8 ∷ []))
      ≡ ok (h', true))
    × ((get_finished ticks ℕ clock poll h').1
        ≡ (get_finished ticks ℕ clock poll busy).1
          ++ transfer_result ticks ℕ clock 7 next (transferred 4096) ∷ [])
unfolding program
transfer_async-reported_example =
    transfer_async-reported ticks ℕ clock poll busy 7 (shared_storage_spec (1 ∷ []))
      (gpu_spec (8 ∷ [])) next (transferred 4096) busy-IsValid refl refl refl refl

get_finished-declines_example :
    let h' = (get_finished ticks ℕ clock poll busy).0 in
    let (h'', found) = get_declined_block_ids ticks ℕ h' in
    (contains 4 found
      ≡ (contains 4 busy.declined_block_ids || any_declines ticks ℕ clock poll busy.active 4))
    × ((get_declined_block_ids ticks ℕ h'').1 ≡ [])
get_finished-declines_example = get_finished-declines ticks ℕ clock poll busy 4

busy-IsWindow : IsWindow ticks ℕ busy
busy-IsWindow = record { once = (refl, (refl, tt)); bounded = omega arith }

-- The oldest id makes room.
abbrev preloading : Handler ticks ℕ
preloading = record busy { submitted_preload_ids = "q" ∷ "r" ∷ [] }

preloaded :
    preload_async ticks ℕ busy "r" (shared_storage_spec (6 ∷ []))
    ≡ ok (preloading, some (6 ∷ []), true)
unfolding program
preloaded = refl

preload_async-IsWindow_example : IsWindow ticks ℕ preloading
preload_async-IsWindow_example =
    preload_async-IsWindow ticks ℕ busy "r" (shared_storage_spec (6 ∷ [])) busy-IsWindow preloaded

preload_async_again_example :
    (h' : Handler ticks ℕ) × (preload_async ticks ℕ preloading "r" (shared_storage_spec (6 ∷ []))
      ≡ ok (h', none, false))
preload_async_again_example =
    preload_async_again ticks ℕ busy "r" (6 ∷ []) (shared_storage_spec (6 ∷ [])) (omega arith)
      preloaded
