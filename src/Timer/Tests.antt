-- ===== src/Timer/Tests.antt =====
-- The timer module on concrete tables.
use device_xiaomi_odin.Prelude.{ℕ, ◌+◌, ◌≡◌, ◌⊎◌, refl, true, none, some, [], ◌∷◌, set, arith}
use device_xiaomi_odin.Timer.{create, id_invalid}
use device_xiaomi_odin.Timer.Slots.{Timer, blank, Table, idle}
use device_xiaomi_odin.Timer.Invariant.{IsValid, run, run-IsValid, creates, starts, expires, cleans}
use device_xiaomi_odin.Timer.Lifecycle.{FirstFree, IsFull, fresh, create_lem}

-- One running timer in the second slot.
abbrev second : Timer
second = record {
  timer_id = 102;
  handle = 7;
  application_callback = some 3;
  context = 9;
  state = idle;
}

abbrev one_timer : Table
one_timer = blank ∷ second ∷ blank ∷ blank ∷ blank ∷ []

one_timer-IsValid : IsValid one_timer
one_timer-IsValid = omega arith

create_first : (create (some 4) one_timer).result ≡ 101
unfolding create
create_first = refl

run-IsValid_example :
    IsValid (
      run one_timer (creates (some 5) ∷ starts 101 100 (some 1) 2 true ∷ expires 101 ∷ cleans ∷ []))
run-IsValid_example = run-IsValid _ one_timer one_timer-IsValid

create_lem_example :
    ((IsFull one_timer
        × ((create (some 4) one_timer).result ≡ id_invalid)
        × ((create (some 4) one_timer).table ≡ one_timer))
      ⊎ ((i : ℕ) × FirstFree one_timer i
          × ((create (some 4) one_timer).result ≡ i + 101)
          × ((create (some 4) one_timer).table ≡ set one_timer i (fresh one_timer i 4))))
    × ((create none one_timer).result ≡ id_invalid)
    × ((create none one_timer).table ≡ one_timer)
create_lem_example = create_lem 4 one_timer one_timer-IsValid

abbrev delay : ℕ
delay = 1500
