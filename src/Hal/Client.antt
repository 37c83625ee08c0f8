-- ===== src/Hal/Client.antt =====
-- phNxpUciHal_client_thread and phNxpUciHal_kill_client_thread of uwb/halimpl/hal/phNxpUciHal.cc, on
-- the message queue of Queue.antt. What stands in a message is a function of its number.
pub mod Serves
mod Tests
use device_xiaomi_odin.Prelude.{
  ℕ, zero, suc, Bool, true, false, not, Option, none, some, List, [], ◌∷◌, ◌++◌, ◌==◌,
  if◌then◌else◌,
}
use device_xiaomi_odin.Queue.{Queue, msgrcv}

-- The types of messages; a deferred call has its function and its argument.
pub data Message : Type 0 where
  deferred_call : ℕ → ℕ → Message
  open_cplt close_cplt init_cplt error_msg unknown : Message

-- HAL_UWB_OPEN_CPLT_EVT and the others.
pub data StackEvent : Type 0 where
  open_cplt_evt close_cplt_evt init_cplt_evt error_evt : StackEvent

-- The calls of the thread: a deferred function with its argument, the stack's callback, and
-- SEM_POST of uwb_close_complete_wait.
pub data Call : Type 0 where
  callback : ℕ → ℕ → Call
  to_stack : StackEvent → Call
  post_close_complete : Call

-- Whether the stack's callbacks are set, and thread_running.
pub record Client : Type 0 where
  pub has_stack : Bool
  pub running : Bool

-- phNxpUciHal_kill_client_thread
abbrev pub kill_client_thread : Client → Client
kill_client_thread c = record { has_stack = false; running = false }

abbrev tell : StackEvent → Client → Client × List Call
tell e c = (c, (if c.has_stack then to_stack e ∷ [] else []))

-- The switch over the type of the message.
unfoldable pub handle_message : Message → Client → Client × List Call
handle_message (deferred_call f x) c = (c, callback f x ∷ [])
handle_message open_cplt c = tell open_cplt_evt c
handle_message close_cplt c =
    if c.has_stack
    then (kill_client_thread c, to_stack close_cplt_evt ∷ post_close_complete ∷ [])
    else (c, [])
handle_message init_cplt c = tell init_cplt_evt c
handle_message error_msg c = tell error_evt c
handle_message unknown c = (c, [])

abbrev pub Outcome : Type 0
Outcome = Option (Queue × Client × List Call)

abbrev pub behind_calls : List Call → Outcome → Outcome
behind_calls calls none = none
behind_calls calls (some (q, c, later)) = some (q, c, calls ++ later)

-- The variable `msg`, which phDal4Uwb_msgrcv leaves as it is when there is no message.
abbrev pub received : ℕ → Option ℕ → ℕ
received last none = last
received last (some m) = m

-- A round of the thread's loop behind phDal4Uwb_msgrcv, with the rounds that follow.
unfoldable pub serve :
    (ℕ → Queue → Client → Outcome)
    → (ℕ → Message)
    → ℕ
    → Client
    → Option (Option ℕ × Queue)
    → Outcome
unfolding handle_message
serve rest message last c none = none
serve rest message last c (some (m, q)) =
    let msg : ℕ = received last m in
    let (c', calls) = handle_message (message msg) c in behind_calls calls (rest msg q c')

-- Rounds of the loop, as many as there are, or until the thread ends or waits at the queue's
-- semaphore. Nothing but a message changes thread_running, which is tested at the head of a round.
unfoldable pub client_loop : ℕ → (ℕ → Message) → ℕ → Queue → Client → Outcome
unfolding msgrcv serve
client_loop zero message last q c = some (q, c, [])
client_loop (suc n) message last q c =
    let round : Outcome =
      serve (λ msg q' c'. client_loop n message msg q' c') message last c (msgrcv q) in
    if not c.running then some (q, c, []) else if q.semaphore == 0 then some (q, c, []) else round

-- phNxpUciHal_client_thread; `msg` holds anything at first.
unfoldable pub client_thread : ℕ → (ℕ → Message) → ℕ → Queue → Client → Outcome
unfolding client_loop
client_thread n message msg q c = client_loop n message msg q (record c { running = true })
