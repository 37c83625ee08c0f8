-- ===== src/Hal/Client/Serves.antt =====
-- What the client thread does of the messages of its queue.
use mathlib.Core.List.{append_assoc}
use device_xiaomi_odin.Prelude.{
  ℕ, All, map, zero, suc, ◌+◌, ◌≡◌, refl, ap, sym, ◌∙◌, Bool, true, false, none, some, List, [],
  ◌∷◌, ◌++◌, arith, ◌==◌, length,
}
use device_xiaomi_odin.Queue.{Queue, msgrcv}
use device_xiaomi_odin.Queue.Fifo.{Holds, msgrcv-Holds}
use device_xiaomi_odin.Hal.Client.{
  Message, serve, behind_calls, Outcome, deferred_call, open_cplt, close_cplt, init_cplt, error_msg,
  unknown, open_cplt_evt, close_cplt_evt, init_cplt_evt, error_evt, Call, callback, to_stack,
  post_close_complete, Client, handle_message, client_loop, client_thread,
}

abbrev pub is_close : Message → Bool
is_close (deferred_call f x) = false
is_close open_cplt = false
is_close close_cplt = true
is_close init_cplt = false
is_close error_msg = false
is_close unknown = false

-- What is called for a message while the stack is there.
abbrev pub call_of : Message → List Call
call_of (deferred_call f x) = callback f x ∷ []
call_of open_cplt = to_stack open_cplt_evt ∷ []
call_of close_cplt = to_stack close_cplt_evt ∷ post_close_complete ∷ []
call_of init_cplt = to_stack init_cplt_evt ∷ []
call_of error_msg = to_stack error_evt ∷ []
call_of unknown = []

-- The calls for messages that are no close.
abbrev pub calls_of : List Message → List Call
calls_of [] = []
calls_of (m ∷ ms) = call_of m ++ calls_of ms

abbrev served : Client
served = record { has_stack = true; running = true }

abbrev pub gone : Client
gone = record { has_stack = false; running = false }

handle_message-open :
    (m : Message) → is_close m ≡ false → handle_message m served ≡ (served, call_of m)
unfolding handle_message
handle_message-open (deferred_call f x) e = refl
handle_message-open open_cplt e = refl
handle_message-open close_cplt e = absurd (ground arith)
handle_message-open init_cplt e = refl
handle_message-open error_msg e = refl
handle_message-open unknown e = refl

client_loop-step :
    (n m last : ℕ) (message : ℕ → Message) (q q' : Queue) (c' : Client) (calls : List Call)
    → (q.semaphore == 0) ≡ false
    → msgrcv q ≡ some (some m, q')
    → handle_message (message m) served ≡ (c', calls)
    → client_loop (suc n) message last q served ≡ behind_calls calls (client_loop n message m q' c')
unfolding client_loop serve
client_loop-step n m last message q q' c' calls z e f =
    let rest : ℕ → Queue → Client → Outcome = λ msg r d. client_loop n message msg r d in
    (let received : client_loop (suc n) message last q served
          ≡ serve rest message last served (msgrcv q) =
        rw z refl in
      received)
    ∙ ap (serve rest message last served) e
    ∙ ap (λ t. behind_calls t.1 (client_loop n message m q' t.0)) f

client_loop-gone :
    (n : ℕ) (message : ℕ → Message) (last : ℕ) (q : Queue)
    → client_loop n message last q gone ≡ some (q, gone, [])
unfolding client_loop
client_loop-gone zero message last q = refl
client_loop-gone (suc n) message last q = refl

behind_calls-nil : (r : Outcome) → behind_calls [] r ≡ r
behind_calls-nil none = refl
behind_calls-nil (some (q, c, later)) = refl

behind_calls-append :
    (xs ys : List Call) (r : Outcome)
    → behind_calls (xs ++ ys) r ≡ behind_calls xs (behind_calls ys r)
behind_calls-append xs ys none = refl
behind_calls-append xs ys (some (q, c, later)) = ap (λ t. some (q, c, t)) (append_assoc xs ys later)

-- The messages up to a close are served in order, and so is what follows, if it is.
client_loop-prefix :
    (message : ℕ → Message) (es rest : List (ℕ × ℕ)) (n last : ℕ) (q : Queue)
    → Holds q (es ++ rest)
    → q.semaphore ≡ length (es ++ rest)
    → All (λ e. is_close (message e.1) ≡ false) es
    → (q' : Queue) × (msg : ℕ) × (client_loop (length es + n) message last q served
        ≡ behind_calls (calls_of (map (λ e. message e.1) es)) (client_loop n message msg q' served))
      × Holds q' rest
      × (q'.semaphore ≡ length rest)
client_loop-prefix message [] rest n last q k s o = (
  q,
  last,
  ap (λ t. client_loop t message last q served) (omega arith)
      ∙ sym (behind_calls-nil (client_loop n message last q served)),
  k,
  s,
)
client_loop-prefix message ((a, m) ∷ es) rest n last q k s (o, os) =
    let (q₁, e, k₁, freed, s₁) = msgrcv-Holds q a m (es ++ rest) k in
    let some_left : (q.semaphore == 0) ≡ false = ground arith in
    let (q', msg, f, k', s') = client_loop-prefix message es rest n m q₁ k₁ (omega arith) os in
    let later : List Call = calls_of (map (λ e. message e.1) es) in
    (
      q',
      msg,
      ap (λ t. client_loop t message last q served) (omega arith)
          ∙ client_loop-step (length es + n) m last message q q₁ served (call_of (message m))
              some_left e (handle_message-open (message m) o)
          ∙ ap (behind_calls (call_of (message m))) f
          ∙ sym (
              behind_calls-append (call_of (message m)) later
                (client_loop n message msg q' served)),
      k',
      s',
    )

handle_message-close :
    (m : Message)
    → is_close m ≡ true
    → handle_message m served ≡ (gone, to_stack close_cplt_evt ∷ post_close_complete ∷ [])
unfolding handle_message
handle_message-close (deferred_call f x) e = absurd (ground arith)
handle_message-close open_cplt e = absurd (ground arith)
handle_message-close close_cplt e = refl
handle_message-close init_cplt e = absurd (ground arith)
handle_message-close error_msg e = absurd (ground arith)
handle_message-close unknown e = absurd (ground arith)

-- The client thread of a HAL whose stack is there, on a queue that holds a close and whose semaphore
-- counts its messages: it makes the calls of the messages in front of the close, in order and each
-- once, then tells the stack that the HAL is closed and wakes up phNxpUciHal_close, and ends, with
-- the stack's callbacks cleared. A round for each message is enough; what is behind the close stays
-- in the queue.
pub client_thread-serves :
    (message : ℕ → Message) (es : List (ℕ × ℕ)) (a m : ℕ) (rest : List (ℕ × ℕ)) (n msg : ℕ)
    (q : Queue) (c : Client)
    → c.has_stack ≡ true
    → Holds q (es ++ (a, m) ∷ rest)
    → q.semaphore ≡ length (es ++ (a, m) ∷ rest)
    → All (λ e. is_close (message e.1) ≡ false) es
    → is_close (message m) ≡ true
    → (q' : Queue) × (client_thread (length es + suc n) message msg q c
        ≡ some (
          q',
          gone,
          calls_of (map (λ e. message e.1) es)
              ++ to_stack close_cplt_evt ∷ post_close_complete ∷ [],
        ))
      × Holds q' rest
unfolding client_thread
client_thread-serves message es a m rest n msg q c there k s o close =
    let (q₁, last, f, k₁, s₁) = client_loop-prefix message es ((a, m) ∷ rest) (suc n) msg q k s o in
    let (q₂, e, k₂, freed, s₂) = msgrcv-Holds q₁ a m rest k₁ in
    let some_left : (q₁.semaphore == 0) ≡ false = ground arith in
    let calls : List Call = to_stack close_cplt_evt ∷ post_close_complete ∷ [] in
    (
      q₂,
      ap
            (λ t.
              client_loop (length es + suc n) message msg q
                (record { has_stack = t; running = true }))
            there
          ∙ f
          ∙ ap (behind_calls (calls_of (map (λ e. message e.1) es))) (
              client_loop-step n m last message q₁ q₂ gone calls some_left e
                (handle_message-close (message m) close)
              ∙ ap (behind_calls calls) (client_loop-gone n message m q₂)),
      k₂,
    )
