-- ===== src/Queue/Tests.antt =====
-- The theorems on the message queue, applied to short queues.
use device_xiaomi_odin.Prelude.{◌+◌, ◌≡◌, refl, true, none, some, [], ◌∷◌, ◌++◌, arith}
use device_xiaomi_odin.Queue.{reads_freed, Heap, write, Queue, msgget, msgsnd}
use device_xiaomi_odin.Queue.Fifo.{Holds, msgsnd-Holds}
use device_xiaomi_odin.Queue.Release.{send_next, receive_next, release_next, msgctl-msgrcv}

abbrev no_items : Heap
no_items a = none

-- A queue of two items, at 8 and 16.
abbrev two_items : Queue
two_items = record {
  heap =
      write (write no_items 16 (some (record { msg = 5; prev = 8; next = 0 }))) 8
        (some (record { msg = 4; prev = 0; next = 16 }));
  items = 8;
  semaphore = 2;
}

two_items-Holds : Holds two_items ((8, 4) ∷ (16, 5) ∷ [])
two_items-Holds = (
  refl,
  ground arith,
  (
    record { msg = 4; prev = 0; next = 16 },
    refl,
    refl,
    (refl, ground arith, (record { msg = 5; prev = 8; next = 0 }, refl, refl, refl), tt),
  ),
  (ground arith, tt),
)

msgsnd-Holds_example :
    (q' : Queue) × (msgsnd 2 24 6 two_items ≡ some (true, q'))
    × Holds q' (((8, 4) ∷ (16, 5) ∷ []) ++ (24, 6) ∷ [])
    × (q'.semaphore ≡ two_items.semaphore + 1)
msgsnd-Holds_example =
    msgsnd-Holds 2 24 6 two_items ((8, 4) ∷ (16, 5) ∷ []) two_items-Holds (ground arith)
      (ground arith, (ground arith, tt)) (omega arith)

msgctl-msgrcv_example :
    release_next 9 (receive_next (send_next 16 5 (msgsnd 1 8 4 (msgget no_items)))) ≡ reads_freed 8
msgctl-msgrcv_example = msgctl-msgrcv 8 8 16 4 5 no_items (ground arith, ground arith, ground arith)
