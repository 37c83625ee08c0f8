-- ===== src/Tml.antt =====
-- uwb/halimpl/tml/phTmlUwb.cc: the transport layer, its context and the calls that the HAL makes.
-- The operating system and the device driver are not part of the repository: what they return is an
-- argument, and what is asked of the device is part of the result.
pub mod State
pub mod Api
pub mod Threads
pub mod Order
pub mod Spi
mod Tests
use device_xiaomi_odin.Prelude.{
  ℕ, ◌+◌, Bool, true, false, not, ◌&&◌, ◌||◌, Option, none, some, List, [], ◌∷◌, ◌==◌,
  if◌then◌else◌,
}
use device_xiaomi_odin.Status.{
  success, invalid_device, pending, invalid_parameter, not_initialised, already_initialised, busy,
  failed, cid_tml, ph_uwb_st_val,
}
use State.{Transfer, Context, no_transfer, fresh}

-- What the calls that phTmlUwb_Init makes return, 0 for success.
pub record Environment : Type 0 where
  pub allocated : Bool
  pub spi_open : ℕ
  pub rx_sem_init : ℕ
  pub tx_sem_init : ℕ
  pub wait_read_init : ℕ
  pub read_abort_init : ℕ
  pub post_sem_init : ℕ
  pub reader_create : ℕ
  pub writer_create : ℕ

-- What is asked of the device: phTmlUwb_Spi_Ioctl(phTmlUwb_SetPower) and phTmlUwb_spi_close.
pub data DeviceCall : Type 0 where
  set_power : ℕ → DeviceCall
  spi_close : DeviceCall

abbrev pub abort_read_pending : ℕ
abort_read_pending = 2

-- phTmlUwb_StartThread
unfoldable pub start_thread : Environment → ℕ
start_thread env =
    if not (env.reader_create == 0)
    then failed
    else if not (env.writer_create == 0)
    then failed
    else success

-- phTmlUwb_CleanUp, for the context that is there.
unfoldable pub clean_up : Option Context → Option Context × List DeviceCall
clean_up none = (none, [])
clean_up (some c) = (none, (if c.has_device then set_power 0 ∷ spi_close ∷ [] else spi_close ∷ []))

-- The part of phTmlUwb_Init behind the opening of the device; the context is kept.
unfoldable pub start_up : Environment → ℕ
unfolding start_thread
start_up env =
    if not (env.rx_sem_init == 0)
    then failed
    else if not (env.tx_sem_init == 0)
    then failed
    else if not (env.wait_read_init == 0)
    then failed
    else if not (env.read_abort_init == 0)
    then failed
    else if not (env.post_sem_init == 0)
    then failed
    else if not (start_thread env == success)
    then ph_uwb_st_val cid_tml failed
    else success

-- phTmlUwb_Init up to the clean-up: the status and the context. The configuration is the thread
-- that messages go to, or none for NULL.
unfoldable pub prepare : Environment → Option ℕ → Option Context → ℕ × Option Context
unfolding start_up
prepare env config (some c) = (ph_uwb_st_val cid_tml already_initialised, some c)
prepare env none none = (ph_uwb_st_val cid_tml invalid_parameter, none)
prepare env (some thread) none =
    let opened : Context = fresh thread in
    let without : Context = record opened { has_device = false } in
    if thread == 0
    then (ph_uwb_st_val cid_tml invalid_parameter, none)
    else if not env.allocated
    then (ph_uwb_st_val cid_tml failed, none)
    else if not (env.spi_open == success)
    then (ph_uwb_st_val cid_tml invalid_device, some without)
    else (start_up env, some opened)

-- phTmlUwb_Init: whatever is there is cleaned up if the status is not success.
unfoldable pub init : Environment → Option ℕ → Option Context → ℕ × Option Context × List DeviceCall
unfolding prepare clean_up
init env config s =
    let (status, c) = prepare env config s in
    let (cleared, calls) = clean_up c in
    if status == success then (status, c, []) else (status, cleared, calls)

-- phTmlUwb_Shutdown; the threads have ended when it cleans up.
unfoldable pub shutdown : Option Context → ℕ × Option Context × List DeviceCall
unfolding clean_up
shutdown none = (ph_uwb_st_val cid_tml not_initialised, none, [])
shutdown (some c) =
    let (s, calls) = clean_up (some c) in (success, s, set_power abort_read_pending ∷ calls)

-- phTmlUwb_Write
unfoldable pub write : ℕ → ℕ → ℕ → ℕ → Option Context → ℕ × Option Context
write buffer len callback context none = (ph_uwb_st_val cid_tml not_initialised, none)
write buffer len callback context (some c) =
    let valid : Bool = c.has_device && not (buffer == 0) && not (len == 0) && not (callback == 0) in
    let asked : Transfer = record {
      enable = true;
      thread_busy = true;
      buffer = buffer;
      len = len;
      on_complete = callback;
      context = context;
    } in
    let c' : Context = record c { write_info = asked; tx_semaphore = c.tx_semaphore + 1 } in
    if not valid
    then (ph_uwb_st_val cid_tml invalid_parameter, some c)
    else if c.write_info.thread_busy
    then (ph_uwb_st_val cid_tml busy, some c)
    else (pending, some c')

-- phTmlUwb_Read; while a read is being aborted the reader is not woken.
unfoldable pub read : ℕ → ℕ → ℕ → ℕ → Option Context → ℕ × Option Context
read buffer len callback context none = (ph_uwb_st_val cid_tml not_initialised, none)
read buffer len callback context (some c) =
    let valid : Bool = c.has_device && not (buffer == 0) && not (len == 0) && not (callback == 0) in
    let kept : Transfer = record {
      enable = c.read_info.enable;
      thread_busy = true;
      buffer = buffer;
      len = len;
      on_complete = callback;
      context = context;
    } in
    let asked : Transfer = record kept { enable = true } in
    let c' : Context = record c { read_info = asked; rx_semaphore = c.rx_semaphore + 1 } in
    let c'' : Context = record c { read_info = kept } in
    if not valid
    then (ph_uwb_st_val cid_tml invalid_parameter, some c)
    else if c.read_info.thread_busy
    then (ph_uwb_st_val cid_tml busy, some c)
    else if c.is_read_abort
    then (pending, some c'')
    else (pending, some c')

-- phTmlUwb_ReadAbort and phTmlUwb_WriteAbort
abbrev pub aborted : Transfer → Transfer
aborted t = record t { enable = false; thread_busy = false }

unfoldable pub read_abort : Context → Context
read_abort c = record c { read_info = aborted c.read_info }

unfoldable pub write_abort : Context → Context
write_abort c = record c { write_info = aborted c.write_info }

-- phTmlUwb_ReadDeferredCb and phTmlUwb_WriteDeferredCb: the callback that is run, with its context.
unfoldable pub read_deferred_cb : Context → Context × ℕ × ℕ
read_deferred_cb c =
    let t : Transfer = record (c.read_info) { thread_busy = false } in
    (record c { read_info = t }, t.on_complete, t.context)

unfoldable pub write_deferred_cb : Context → Context × ℕ × ℕ
write_deferred_cb c =
    let t : Transfer = record (c.write_info) { thread_busy = false } in
    (record c { write_info = t }, t.on_complete, t.context)
