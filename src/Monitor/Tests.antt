-- ===== src/Monitor/Tests.antt =====
-- A list of two semaphores.
use device_xiaomi_odin.Prelude.{
  ℕ, ◌≡◌, ◌≢◌, refl, Bool, true, false, none, some, [], ◌∷◌, arith, ◌==◌, if◌then◌else◌,
}
use device_xiaomi_odin.Status.{success, failed}
use device_xiaomi_odin.Monitor.{
  Heap, SemList, Sems, Monitor, list_remove, init_cb_data, cleanup_cb_data, cleanup_monitor,
  other_error, interrupted, sem_timed_wait_sec, wait_loop,
}
use device_xiaomi_odin.Monitor.Chain.{Entries, Holds}
use device_xiaomi_odin.Monitor.Remove.{list_remove-Holds}
use device_xiaomi_odin.Monitor.Release.{
  occurrences, released, cleanup_monitor-released, cleanup_cb_data-init_cb_data,
}

abbrev entries : Entries
entries = (10, 100) ∷ (20, 200) ∷ []

abbrev heap : Heap
heap p =
    if p == 10
    then some (record { sem = 100; next = 20 })
    else if p == 20
    then some (record { sem = 200; next = 0 })
    else none

abbrev sem_list : SemList
sem_list = record { heap = heap; first = 10 }

sem_list-Holds : Holds sem_list entries
sem_list-Holds =
    (20, refl, omega arith, refl, (0, refl, omega arith, refl, refl, tt), (omega arith, tt))

abbrev monitor : Monitor
monitor = record {
  sem_list = sem_list;
  sems = λ d. record { status = success; context = 0; count = 0 };
}

list_remove-Holds_example :
    (l' : SemList) × (list_remove 2 200 sem_list ≡ some (true, l'))
    × Holds l' ((10, 100) ∷ [])
    × (◌≡◌ {A = Bool} true false → l' ≡ sem_list)
list_remove-Holds_example = list_remove-Holds 2 200 sem_list entries sem_list-Holds (omega arith)

cleanup_monitor-released_example :
    (s : Sems) × (cleanup_monitor 3 monitor ≡ some s)
    × ((d : ℕ) → s d ≡ released (occurrences d entries) (monitor.sems d))
cleanup_monitor-released_example =
    cleanup_monitor-released 3 monitor entries sem_list-Holds (omega arith)

cleanup_cb_data-init_cb_data_example :
    (m₁ : Monitor) × (m₂ : Monitor) × (init_cb_data true 3 30 300 0 monitor ≡ some (success, m₁))
    × (cleanup_cb_data 3 300 m₁ ≡ some m₂)
    × Holds m₂.sem_list entries
    × (m₂.sems 300 ≡ record { status = failed; context = 0; count = 0 })
    × ((b : ℕ) → b ≢ 300 → m₂.sems b ≡ monitor.sems b)
cleanup_cb_data-init_cb_data_example =
    cleanup_cb_data-init_cb_data 3 30 300 0 monitor entries sem_list-Holds (omega arith)
      (omega arith) refl (omega arith)

-- A wait that fails other than by the time is a success.
failed_wait : sem_timed_wait_sec true (interrupted ∷ other_error ∷ []) ≡ some success
unfolding sem_timed_wait_sec wait_loop
failed_wait = refl
