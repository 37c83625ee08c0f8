-- ===== src/Hal/Client/Tests.antt =====
-- The theorem on the client thread, applied to a queue of three messages.
use device_xiaomi_odin.Prelude.{
  ℕ, ◌+◌, ◌==◌, if◌then◌else◌, suc, ◌≡◌, refl, true, false, none, some, List, [], ◌∷◌, ◌++◌, map,
  arith, length,
}
use device_xiaomi_odin.Queue.{Heap, write, Queue}
use device_xiaomi_odin.Queue.Fifo.{Holds}
use device_xiaomi_odin.Hal.Client.{
  Outcome, Call, Message, deferred_call, open_cplt, close_cplt, unknown, open_cplt_evt,
  close_cplt_evt, callback, to_stack, post_close_complete, client_thread,
}
use device_xiaomi_odin.Hal.Client.Serves.{calls_of, gone, client_thread-serves}

abbrev message : ℕ → Message
message n =
    if n == 1
    then open_cplt
    else if n == 2
    then deferred_call 40 7
    else if n == 3
    then close_cplt
    else unknown

abbrev no_items : Heap
no_items a = none

-- An open, a deferred call and a close, at 8, 16 and 24.
abbrev waiting : Queue
waiting = record {
  heap =
      write
        (write (write no_items 24 (some (record { msg = 3; prev = 16; next = 0 }))) 16
          (some (record { msg = 2; prev = 8; next = 24 })))
        8 (some (record { msg = 1; prev = 0; next = 16 }));
  items = 8;
  semaphore = 3;
}

abbrev front : List (ℕ × ℕ)
front = (8, 1) ∷ (16, 2) ∷ []

waiting-Holds : Holds waiting (front ++ (24, 3) ∷ [])
waiting-Holds = (
  refl,
  ground arith,
  (
    record { msg = 1; prev = 0; next = 16 },
    refl,
    refl,
    (
      refl,
      ground arith,
      (
        record { msg = 2; prev = 8; next = 24 },
        refl,
        refl,
        (refl, ground arith, (record { msg = 3; prev = 16; next = 0 }, refl, refl, refl), tt),
      ),
      (ground arith, tt),
    ),
  ),
  (ground arith, (ground arith, tt)),
)

client_thread-serves_example :
    (q' : Queue) × (client_thread
        (length front + suc 5)
        message
        0
        waiting
        (record { has_stack = true; running = false })
      ≡ some (
        q',
        gone,
        calls_of (map (λ e. message e.1) front)
            ++ to_stack close_cplt_evt ∷ post_close_complete ∷ [],
      ))
    × Holds q' []
client_thread-serves_example =
    client_thread-serves message front 24 3 [] 5 0 waiting
      (record { has_stack = true; running = false }) refl waiting-Holds refl (refl, (refl, tt)) refl

-- The calls in front of the close.
calls_in_front :
    calls_of (map (λ e. message e.1) front) ≡ to_stack open_cplt_evt ∷ callback 40 7 ∷ []
calls_in_front = refl

-- A semaphore that counts more than there are messages, as phDal4Uwb_msgrelease leaves it: the last
-- message is served again.
abbrev one_too_many : Queue
one_too_many = record {
  heap = write no_items 8 (some (record { msg = 2; prev = 0; next = 0 }));
  items = 8;
  semaphore = 2;
}

abbrev calls_made : Outcome → List Call
calls_made none = []
calls_made (some (q, c, calls)) = calls

served_again :
    calls_made
      (client_thread 4 message 0 one_too_many (record { has_stack = true; running = false }))
    ≡ callback 40 7 ∷ callback 40 7 ∷ []
unfolding client_thread
served_again = refl
