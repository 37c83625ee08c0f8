-- ===== src/Tml/State.antt =====
-- uwb/halimpl/tml/phTmlUwb.h (phTmlUwb_Context, phTmlUwb_ReadWriteInfo) and its values at reset.
-- Pointers are numbers and 0 is NULL; `has_device` says that pDevHandle is not NULL.
use device_xiaomi_odin.Prelude.{ℕ, Bool, true, false}

-- tReadInfo and tWriteInfo.
pub record Transfer : Type 0 where
  pub enable : Bool
  pub thread_busy : Bool
  pub buffer : ℕ
  pub len : ℕ
  pub on_complete : ℕ
  pub context : ℕ

pub record Context : Type 0 where
  pub thread_running : Bool
  pub has_device : Bool
  pub read_info : Transfer
  pub write_info : Transfer
  pub callback_thread : ℕ
  pub rx_semaphore : ℕ
  pub tx_semaphore : ℕ
  pub writer_cb_flag : Bool
  pub wait_busy_flag : Bool
  pub is_read_abort : Bool

abbrev pub no_transfer : Transfer
no_transfer = record {
  enable = false;
  thread_busy = false;
  buffer = 0;
  len = 0;
  on_complete = 0;
  context = 0;
}

-- The context as phTmlUwb_Init leaves it, with its device open and both threads running.
abbrev pub fresh : ℕ → Context
fresh thread = record {
  thread_running = true;
  has_device = true;
  read_info = no_transfer;
  write_info = no_transfer;
  callback_thread = thread;
  rx_semaphore = 0;
  tx_semaphore = 0;
  writer_cb_flag = false;
  wait_busy_flag = false;
  is_read_abort = false;
}
