-- ===== src/Tml/Threads.antt =====
-- phTmlUwb_TmlReaderThread and phTmlUwb_TmlWriterThread of uwb/halimpl/tml/phTmlUwb.cc, and the
-- handshake of phTmlUwb_WaitWriteComplete and phTmlUwb_SignalWriteComplete, as a step relation.
-- What is done under wait_busy_lock is one step, so every interleaving of the two threads with the
-- calls of the HAL is a sequence of steps.
use device_xiaomi_odin.Prelude.{
  ℕ, ◌+◌, ◌-◌, ◌/◌, ◌%◌, ◌<◌, ◌≡◌, Bool, true, false, Option, none, some, ◌==◌, not, if◌then◌else◌,
  ltb, ◌^◌,
}
use device_xiaomi_odin.Status.{success, failed, cid_tml, ph_uwb_st_val}
use device_xiaomi_odin.Tml.State.{Transfer, Context, fresh}
use device_xiaomi_odin.Tml.{
  write, read, read_abort, write_abort, read_deferred_cb, write_deferred_cb,
}

abbrev pub uci_max_data_len : ℕ
uci_max_data_len = 4200

-- Where the writer stands: at its semaphore, behind phTmlUwb_spi_write with the status of the
-- write, or behind the message of a successful write.
pub data Writer : Type 0 where
  at_semaphore : Writer
  wrote : ℕ → Writer
  posted : Writer

-- Where the reader stands: at its semaphore, behind phTmlUwb_spi_read with a packet whose first
-- byte is given, in pthread_cond_timedwait, in front of phTmlUwb_DeferredCall, or ended. The flag
-- of `ready` says that it found the writer's flag raised or was woken by its signal: it is false for a
-- notification, for a wait that ended otherwise, and for one that had no time.
pub data Reader : Type 0 where
  at_semaphore : Reader
  has_read : ℕ → Reader
  waiting : Reader
  ready : Bool → Reader
  ended : Reader

-- `writes` counts the calls of phTmlUwb_spi_write, `posts` the writer's messages, and `seen` is
-- what `writes` was at the reader's last packet.
pub record System : Type 0 where
  pub tml : Context
  pub writer : Writer
  pub reader : Reader
  pub writes : ℕ
  pub posts : ℕ
  pub seen : ℕ

abbrev pub start : ℕ → System
start thread = record {
  tml = fresh thread;
  writer = at_semaphore;
  reader = at_semaphore;
  writes = 0;
  posts = 0;
  seen = 0;
}

-- `(p_buffer[0] & 0x60) == 0x60`: bits 5 and 6 are set.
unfoldable pub is_notification : ℕ → Bool
is_notification b = b / 32 % 4 == 3

-- What the reader does with what phTmlUwb_spi_read gives: -1 (none), or a length and a first byte.
-- After a failure or an empty read it posts its own semaphore again, unless the read was aborted.
unfoldable pub receive : Option (ℕ × ℕ) → System → System
receive result s =
    let c : Context = record (s.tml) { rx_semaphore = s.tml.rx_semaphore - 1 } in
    let signalled : Context = record c { is_read_abort = false } in
    let again : Context = record c { rx_semaphore = c.rx_semaphore + 1 } in
    let retry : System = record s { tml = (if c.is_read_abort then signalled else again) } in
    let ignored : System = record s { tml = again } in
    elim result [
      | none ↦ retry
      | some (n, byte) ↦
          let t : Transfer = record (c.read_info) { enable = false; len = n % 2 ^ 16 } in
          let got : Context = record c { read_info = t } in
          if ltb uci_max_data_len n
          then ignored
          else if n == 0
          then retry
          else record s { tml = got; reader = has_read byte; seen = s.writes }
    ]

-- The reader passes its semaphore and reads, if a read is asked for.
unfoldable pub reader_read : Option (ℕ × ℕ) → System → System
unfolding receive
reader_read result s =
    let c : Context = record (s.tml) { rx_semaphore = s.tml.rx_semaphore - 1 } in
    if not c.read_info.enable
    then record s { tml = c }
    else if not c.has_device
    then record s { tml = c }
    else if not c.thread_running
    then record s { tml = c; reader = ended }
    else receive result s

-- The test in front of phTmlUwb_WaitWriteComplete.
unfoldable pub reader_check : ℕ → System → System
unfolding is_notification
reader_check byte s =
    let c : Context = record (s.tml) { wait_busy_flag = true } in
    if is_notification byte
    then record s { reader = ready false }
    else if s.tml.writer_cb_flag
    then record s { reader = ready true }
    else record s { tml = c; reader = waiting }

-- The writer passes its semaphore and, if a write is asked for, writes; -1 is none.
unfoldable pub writer_write : Option ℕ → System → System
writer_write result s =
    let c : Context = record (s.tml) { tx_semaphore = s.tml.tx_semaphore - 1 } in
    let t : Transfer = record (c.write_info) { enable = false } in
    let begun : Context = record c { write_info = t; writer_cb_flag = false } in
    let status : ℕ = elim result [ none ↦ ph_uwb_st_val cid_tml failed | some n ↦ success ] in
    if not c.write_info.enable
    then record s { tml = c }
    else if not c.has_device
    then record s { tml = c }
    else record s { tml = begun; writer = wrote status; writes = s.writes + 1 }

-- phTmlUwb_DeferredCall of the writer: a failed write leaves the flag down.
unfoldable pub writer_post : ℕ → System → System
writer_post status s =
    let next : Writer = if status == success then posted else at_semaphore in
    record s { writer = next; posts = s.posts + 1 }

-- The writer raises its flag and calls phTmlUwb_SignalWriteComplete, which wakes a waiting reader.
unfoldable pub writer_signal : System → System
writer_signal s =
    let c : Context = record (s.tml) { writer_cb_flag = true; wait_busy_flag = false } in
    record s { tml = c; writer = at_semaphore }

-- The calls that change the requests while the threads run.
pub data HalCall : Type 0 where
  call_write : ℕ → ℕ → ℕ → ℕ → HalCall
  call_read : ℕ → ℕ → ℕ → ℕ → HalCall
  call_read_abort : HalCall
  call_write_abort : HalCall
  call_read_cb : HalCall
  call_write_cb : HalCall

-- The context is there while the threads run.
abbrev kept : Context → ℕ × Option Context → Context
kept c (status, none) = c
kept c (status, some c') = c'

unfoldable pub hal_call : HalCall → Context → Context
unfolding write read read_abort write_abort read_deferred_cb write_deferred_cb
hal_call (call_write b n f x) c = kept c (write b n f x (some c))
hal_call (call_read b n f x) c = kept c (read b n f x (some c))
hal_call call_read_abort c = read_abort c
hal_call call_write_abort c = write_abort c
hal_call call_read_cb c = (read_deferred_cb c).0
hal_call call_write_cb c = (write_deferred_cb c).0

-- One step of the system.
pub data Step : System → System → Type 0 where
  -- The reader reads, checks, waits or cannot, and posts its message. Its one call of
  -- pthread_cond_timedwait ends behind the writer's signal, which has lowered the flag, or at any time
  -- without it: after its second, with an error, or spuriously.
  read_step :
      {s : System} (result : Option (ℕ × ℕ))
      → s.reader ≡ at_semaphore
      → 0 < s.tml.rx_semaphore
      → Step s (reader_read result s)
  check_step : {s : System} (byte : ℕ) → s.reader ≡ has_read byte → Step s (reader_check byte s)
  wake_step :
      {s : System}
      → s.reader ≡ waiting
      → s.tml.wait_busy_flag ≡ false
      → Step s (record s { reader = ready true })
  unsignalled_step : {s : System} → s.reader ≡ waiting → Step s (record s { reader = ready false })
  -- clock_gettime fails, and the reader does not wait.
  unclocked_step :
      {s : System} (byte : ℕ)
      → s.reader ≡ has_read byte
      → is_notification byte ≡ false
      → s.tml.writer_cb_flag ≡ false
      → Step s (record s { reader = ready false })
  read_post_step :
      {s : System} (waited : Bool)
      → s.reader ≡ ready waited
      → Step s (record s { reader = at_semaphore })
  -- The writer writes, posts its message and signals.
  write_step :
      {s : System} (result : Option ℕ)
      → s.writer ≡ at_semaphore
      → 0 < s.tml.tx_semaphore
      → Step s (writer_write result s)
  write_post_step :
      {s : System} (status : ℕ) → s.writer ≡ wrote status → Step s (writer_post status s)
  signal_step : {s : System} → s.writer ≡ posted → Step s (writer_signal s)
  -- A call of the HAL or of the callback thread.
  hal_step : {s : System} (call : HalCall) → Step s (record s { tml = hal_call call s.tml })

-- The system is reached from its start.
pub data Reaches : System → System → Type 0 where
  here : {s : System} → Reaches s s
  next : {s t u : System} → Reaches s t → Step t u → Reaches s u
