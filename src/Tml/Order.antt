-- ===== src/Tml/Order.antt =====
-- The order in which the messages of the reader and of the writer are posted.
use device_xiaomi_odin.Prelude.{
  ℕ, ◌+◌, ◌-◌, ◌≤◌, ◌≡◌, refl, subst, not, ltb, ◌⊎◌, inl, inr, Bool, true, false, Option, none,
  some, arith, ◌==◌, Bool-cases, if◌then◌else◌,
}
use device_xiaomi_odin.Status.{success}
use device_xiaomi_odin.Tml.State.{Context}
use device_xiaomi_odin.Tml.{
  write, read, read_abort, write_abort, read_deferred_cb, write_deferred_cb,
}
use device_xiaomi_odin.Tml.Threads.{
  Writer, Reader, System, start, reader_read, receive, reader_check, is_notification, writer_write,
  writer_post, writer_signal, HalCall, call_write, call_read, call_read_abort, call_write_abort,
  call_read_cb, call_write_cb, hal_call, Step, Reaches, at_semaphore, wrote, posted, has_read,
  waiting, ready, ended, read_step, check_step, wake_step, unsignalled_step, unclocked_step,
  read_post_step, write_step, write_post_step, signal_step, hal_step, here, next,
}

-- Where the writer owes a message, it has posted all but one, and its flag is down.
abbrev WriterIsSound : Writer → Bool → ℕ → ℕ → Type 0
WriterIsSound at_semaphore flag writes posts = writes ≤ posts
WriterIsSound (wrote status) flag writes posts = (writes ≤ posts + 1) × (flag ≡ false)
WriterIsSound posted flag writes posts = (writes ≤ posts) × (flag ≡ false)

-- What the reader knows of the messages of the writes before its packet.
abbrev ReaderIsSound : Reader → Bool → ℕ → ℕ → Type 0
ReaderIsSound at_semaphore waits seen posts = Unit
ReaderIsSound (has_read byte) waits seen posts = Unit
ReaderIsSound waiting waits seen posts = (waits ≡ true) ⊎ (seen ≤ posts)
ReaderIsSound (ready true) waits seen posts = seen ≤ posts
ReaderIsSound (ready false) waits seen posts = Unit
ReaderIsSound ended waits seen posts = Unit

abbrev pub IsSound : System → Type 0
IsSound s =
    (s.seen ≤ s.writes)
    × WriterIsSound s.writer s.tml.writer_cb_flag s.writes s.posts
    × ReaderIsSound s.reader s.tml.wait_busy_flag s.seen s.posts

retry-IsSound :
    (b : Bool) (s : System) (c d : Context)
    → IsSound (record s { tml = c })
    → IsSound (record s { tml = d })
    → IsSound (record s { tml = (if b then c else d) })
retry-IsSound true s c d h k = h
retry-IsSound false s c d h k = k

received : (result : Option (ℕ × ℕ)) (s : System) → IsSound s → IsSound (receive result s)
unfolding receive
received none s h = retry-IsSound s.tml.is_read_abort s _ _ h h
received (some (n, b)) s h = elim (Bool-cases (ltb 4200 n)) [
  | inl long ↦ rw long h
  | inr fits ↦ rw fits (elim (Bool-cases (n == 0)) [
    | inl e ↦ rw e (retry-IsSound s.tml.is_read_abort s _ _ h h)
    | inr e ↦ rw e (omega arith, h.1, tt)
  ])
]

-- What holds of every branch holds of three tests in a row.
tests-IsSound :
    (a b c : Bool) (w x y z : System)
    → IsSound w
    → IsSound x
    → IsSound y
    → IsSound z
    → IsSound (if a then w else if b then x else if c then y else z)
tests-IsSound true b c w x y z h i j k = h
tests-IsSound false true c w x y z h i j k = i
tests-IsSound false false true w x y z h i j k = j
tests-IsSound false false false w x y z h i j k = k

reader_read-IsSound :
    (result : Option (ℕ × ℕ)) (s : System) → IsSound s → IsSound (reader_read result s)
unfolding reader_read
reader_read-IsSound result s h =
    let c : Context = record (s.tml) { rx_semaphore = s.tml.rx_semaphore - 1 } in
    let idle : System = record s { tml = c } in
    tests-IsSound (not c.read_info.enable) (not c.has_device) (not c.thread_running) idle idle
      (record s { tml = c; reader = ended }) (receive result s) h h (h.0, h.1, tt)
      (received result s h)

-- A raised flag says that no message is owed.
raised : (w : Writer) (f : Bool) (n m : ℕ) → f ≡ true → WriterIsSound w f n m → n ≤ m
raised at_semaphore f n m e h = h
raised (wrote status) f n m e h = ground arith
raised posted f n m e h = h.0

reader_check-IsSound : (byte : ℕ) (s : System) → IsSound s → IsSound (reader_check byte s)
unfolding reader_check
reader_check-IsSound byte s h = elim (Bool-cases (is_notification byte)) [
  | inl ntf ↦ rw ntf (h.0, h.1, tt)
  | inr rsp ↦ rw rsp (elim (Bool-cases s.tml.writer_cb_flag) [
    | inl up ↦ rw up (
        let owed = raised s.writer s.tml.writer_cb_flag s.writes s.posts up h.1 in
        (h.0, rw up at h.1, omega arith))
    | inr down ↦ rw down (h.0, rw down at h.1, inl refl)
  ])
]

writer_write-IsSound :
    (result : Option ℕ) (s : System)
    → s.writer ≡ at_semaphore
    → IsSound s
    → IsSound (writer_write result s)
unfolding writer_write
writer_write-IsSound result s e h =
    let owed : s.writes ≤ s.posts =
      subst (λ w. WriterIsSound w s.tml.writer_cb_flag s.writes s.posts) e h.1 in
    elim (Bool-cases s.tml.write_info.enable) [
      | inr idle ↦ rw idle h
      | inl asked ↦ rw asked (elim (Bool-cases s.tml.has_device) [
        | inr closed ↦ rw closed h
        | inl there ↦ rw there (omega arith, (omega arith, refl), h.2)
      ])
    ]

-- One message more keeps what the reader knows.
reader_later :
    (r : Reader) (f : Bool) (n m : ℕ) → ReaderIsSound r f n m → ReaderIsSound r f n (m + 1)
reader_later at_semaphore f n m h = tt
reader_later (has_read b) f n m h = tt
reader_later waiting f n m (inl h) = inl h
reader_later waiting f n m (inr h) = inr (omega arith)
reader_later (ready true) f n m h = omega arith
reader_later (ready false) f n m h = tt
reader_later ended f n m h = tt

writer_post-IsSound :
    (status : ℕ) (s : System) → s.writer ≡ wrote status → IsSound s → IsSound (writer_post status s)
unfolding writer_post
writer_post-IsSound status s e h =
    let (owed, down) = subst (λ w. WriterIsSound w s.tml.writer_cb_flag s.writes s.posts) e h.1 in
    let later = reader_later s.reader s.tml.wait_busy_flag s.seen s.posts h.2 in
    elim (Bool-cases (status == success)) [
      | inl ok ↦ rw ok (h.0, (omega arith, down), later)
      | inr bad ↦ rw bad (h.0, omega arith, later)
    ]

-- A signal that comes when no message is owed.
reader_signalled :
    (r : Reader) (f : Bool) (n m : ℕ) → n ≤ m → ReaderIsSound r f n m → ReaderIsSound r false n m
reader_signalled at_semaphore f n m o h = tt
reader_signalled (has_read b) f n m o h = tt
reader_signalled waiting f n m o h = inr o
reader_signalled (ready true) f n m o h = h
reader_signalled (ready false) f n m o h = tt
reader_signalled ended f n m o h = tt

writer_signal-IsSound : (s : System) → s.writer ≡ posted → IsSound s → IsSound (writer_signal s)
unfolding writer_signal
writer_signal-IsSound s e h =
    let (owed, down) = subst (λ w. WriterIsSound w s.tml.writer_cb_flag s.writes s.posts) e h.1 in
    (h.0, owed, reader_signalled s.reader s.tml.wait_busy_flag s.seen s.posts (omega arith) h.2)

wake-IsSound :
    (s : System)
    → s.reader ≡ waiting
    → s.tml.wait_busy_flag ≡ false
    → IsSound s
    → IsSound (record s { reader = ready true })
wake-IsSound s e f h =
    elim (subst (λ r. ReaderIsSound r s.tml.wait_busy_flag s.seen s.posts) e h.2) [
      | inl up ↦ ground arith
      | inr k ↦ (h.0, h.1, k)
    ]

-- No call of the HAL touches the two flags.
hal_call-flags :
    (call : HalCall) (c : Context)
    → ((hal_call call c).writer_cb_flag ≡ c.writer_cb_flag)
      × ((hal_call call c).wait_busy_flag ≡ c.wait_busy_flag)
unfolding hal_call write read read_abort write_abort read_deferred_cb write_deferred_cb
hal_call-flags (call_write b n f x) c = ground arith
hal_call-flags (call_read b n f x) c = ground arith
hal_call-flags call_read_abort c = (refl, refl)
hal_call-flags call_write_abort c = (refl, refl)
hal_call-flags call_read_cb c = (refl, refl)
hal_call-flags call_write_cb c = (refl, refl)

Step-IsSound : (s t : System) → Step s t → IsSound s → IsSound t
Step-IsSound s t (read_step r e k) h = reader_read-IsSound r s h
Step-IsSound s t (check_step b e) h = reader_check-IsSound b s h
Step-IsSound s t (wake_step e f) h = wake-IsSound s e f h
Step-IsSound s t (unsignalled_step e) h = (h.0, h.1, tt)
Step-IsSound s t (unclocked_step b e ntf down) h = (h.0, h.1, tt)
Step-IsSound s t (read_post_step w e) h = (h.0, h.1, tt)
Step-IsSound s t (write_step r e k) h = writer_write-IsSound r s e h
Step-IsSound s t (write_post_step n e) h = writer_post-IsSound n s e h
Step-IsSound s t (signal_step e) h = writer_signal-IsSound s e h
Step-IsSound s t (hal_step call) h =
    let (a, b) = hal_call-flags call s.tml in (h.0, rw a h.1, rw b h.2)

Reaches-IsSound : (s t : System) → Reaches s t → IsSound s → IsSound t
Reaches-IsSound s t here h = h
Reaches-IsSound s t (next {t = m} r k) h = Step-IsSound m t k (Reaches-IsSound s m r h)

-- In every state that the two threads and the HAL can reach from phTmlUwb_Init, in whatever order they
-- run: if the reader is about to post a packet for which it found the writer's flag raised or was
-- woken by the writer's signal, the writer has posted its message for every write that was made before
-- that packet was read. A notification, a wait that ends by its time, by an error or spuriously, and a
-- failed clock_gettime let the reader post without this.
pub response_after_write :
    (thread : ℕ) (s : System) → Reaches (start thread) s → s.reader ≡ ready true → s.seen ≤ s.posts
response_after_write thread s r e =
    let h : IsSound s = Reaches-IsSound (start thread) s r (omega arith, omega arith, tt) in
    subst (λ x. ReaderIsSound x s.tml.wait_busy_flag s.seen s.posts) e h.2
