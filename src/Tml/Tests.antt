-- ===== src/Tml/Tests.antt =====
-- The theorems on the transport layer, applied to small runs.
use device_xiaomi_odin.Prelude.{
  ℕ, ◌≡◌, ◌≤◌, ◌≢◌, refl, Bool, true, false, none, some, [], arith, ◌⊎◌,
}
use device_xiaomi_odin.Status.{success, pending}
use device_xiaomi_odin.Tml.State.{Context, Transfer, no_transfer, fresh}
use device_xiaomi_odin.Tml.{Environment, init, write, read}
use device_xiaomi_odin.Tml.Api.{AllSucceed, init_lem}
use device_xiaomi_odin.Tml.Threads.{
  System, start, Step, Writer, Reader, wrote, has_read, waiting, posted, reader_read, receive,
  reader_check, is_notification, writer_write, writer_post, writer_signal, call_write, call_read,
  hal_call, Reaches, ready, read_step, check_step, wake_step, write_step, write_post_step,
  signal_step, hal_step, here, next,
}
use device_xiaomi_odin.Tml.Order.{response_after_write}

-- A device on which every call succeeds.
abbrev working : Environment
working = record {
  allocated = true;
  spi_open = 0;
  rx_sem_init = 0;
  tx_sem_init = 0;
  wait_read_init = 0;
  read_abort_init = 0;
  post_sem_init = 0;
  reader_create = 0;
  writer_create = 0;
}

abbrev seven : ℕ
seven = 7

init_lem_example :
    ((AllSucceed working × (seven ≢ 0))
      × (init working (some seven) none ≡ (success, some (fresh seven), [])))
    ⊎ (¬ (AllSucceed working × (seven ≢ 0))
        × ((init working (some seven) none).0 ≢ success)
        × ((init working (some seven) none).1 ≡ none))
init_lem_example = init_lem working 7

-- The context behind a write of 6 bytes.
abbrev asked : Context
asked = record (fresh 7) {
  write_info = record {
    enable = true;
    thread_busy = true;
    buffer = 1;
    len = 6;
    on_complete = 2;
    context = 3;
  };
  tx_semaphore = 1;
}

accepted : write 1 6 2 3 (some (fresh 7)) ≡ (pending, some asked)
unfolding write
accepted = refl

-- A command is written, the response is read before the writer has reported, and the reader waits
-- for the report.
abbrev transfer : Bool → ℕ → ℕ → ℕ → ℕ → Transfer
transfer enable buffer len callback context = record {
  enable = enable;
  thread_busy = true;
  buffer = buffer;
  len = len;
  on_complete = callback;
  context = context;
}

abbrev called_write : System
called_write = record {
  tml = record (fresh 7) {
    write_info = transfer true 1 6 2 3;
    read_info = no_transfer;
    rx_semaphore = 0;
    tx_semaphore = 1;
    writer_cb_flag = false;
    wait_busy_flag = false;
  };
  writer = Writer.at_semaphore;
  reader = Reader.at_semaphore;
  writes = 0;
  posts = 0;
  seen = 0;
}

abbrev called_read : System
called_read = record {
  tml = record (fresh 7) {
    write_info = transfer true 1 6 2 3;
    read_info = transfer true 4 4200 5 0;
    rx_semaphore = 1;
    tx_semaphore = 1;
    writer_cb_flag = false;
    wait_busy_flag = false;
  };
  writer = Writer.at_semaphore;
  reader = Reader.at_semaphore;
  writes = 0;
  posts = 0;
  seen = 0;
}

abbrev written : System
written = record {
  tml = record (fresh 7) {
    write_info = transfer false 1 6 2 3;
    read_info = transfer true 4 4200 5 0;
    rx_semaphore = 1;
    tx_semaphore = 0;
    writer_cb_flag = false;
    wait_busy_flag = false;
  };
  writer = wrote success;
  reader = Reader.at_semaphore;
  writes = 1;
  posts = 0;
  seen = 0;
}

abbrev packet_read : System
packet_read = record {
  tml = record (fresh 7) {
    write_info = transfer false 1 6 2 3;
    read_info = transfer false 4 5 5 0;
    rx_semaphore = 0;
    tx_semaphore = 0;
    writer_cb_flag = false;
    wait_busy_flag = false;
  };
  writer = wrote success;
  reader = has_read 0x40;
  writes = 1;
  posts = 0;
  seen = 1;
}

abbrev checked : System
checked = record {
  tml = record (fresh 7) {
    write_info = transfer false 1 6 2 3;
    read_info = transfer false 4 5 5 0;
    rx_semaphore = 0;
    tx_semaphore = 0;
    writer_cb_flag = false;
    wait_busy_flag = true;
  };
  writer = wrote success;
  reader = waiting;
  writes = 1;
  posts = 0;
  seen = 1;
}

abbrev reported : System
reported = record {
  tml = record (fresh 7) {
    write_info = transfer false 1 6 2 3;
    read_info = transfer false 4 5 5 0;
    rx_semaphore = 0;
    tx_semaphore = 0;
    writer_cb_flag = false;
    wait_busy_flag = true;
  };
  writer = posted;
  reader = waiting;
  writes = 1;
  posts = 1;
  seen = 1;
}

abbrev signalled : System
signalled = record {
  tml = record (fresh 7) {
    write_info = transfer false 1 6 2 3;
    read_info = transfer false 4 5 5 0;
    rx_semaphore = 0;
    tx_semaphore = 0;
    writer_cb_flag = true;
    wait_busy_flag = false;
  };
  writer = Writer.at_semaphore;
  reader = waiting;
  writes = 1;
  posts = 1;
  seen = 1;
}

abbrev woken : System
woken = record {
  tml = record (fresh 7) {
    write_info = transfer false 1 6 2 3;
    read_info = transfer false 4 5 5 0;
    rx_semaphore = 0;
    tx_semaphore = 0;
    writer_cb_flag = true;
    wait_busy_flag = false;
  };
  writer = Writer.at_semaphore;
  reader = ready true;
  writes = 1;
  posts = 1;
  seen = 1;
}

leads_to_called_write : Step (start 7) called_write
unfolding hal_call write
leads_to_called_write = hal_step (call_write 1 6 2 3)

leads_to_called_read : Step (called_write) called_read
unfolding hal_call read
leads_to_called_read = hal_step (call_read 4 4200 5 0)

leads_to_written : Step (called_read) written
unfolding writer_write
leads_to_written = write_step (some 6) refl (omega arith)

leads_to_packet_read : Step (written) packet_read
unfolding reader_read receive
leads_to_packet_read = read_step (some (5, 0x40)) refl (omega arith)

leads_to_checked : Step (packet_read) checked
unfolding reader_check is_notification
leads_to_checked = check_step 0x40 refl

leads_to_reported : Step (checked) reported
unfolding writer_post
leads_to_reported = write_post_step success refl

leads_to_signalled : Step (reported) signalled
unfolding writer_signal
leads_to_signalled = signal_step refl

leads_to_woken : Step (signalled) woken
leads_to_woken = wake_step refl refl

reached : Reaches (start 7) woken
reached =
    next
      (next
        (next
          (next
            (next
              (next (next (next (here) leads_to_called_write) leads_to_called_read)
                leads_to_written)
              leads_to_packet_read)
            leads_to_checked)
          leads_to_reported)
        leads_to_signalled)
      leads_to_woken

response_after_write_example : woken.seen ≤ woken.posts
response_after_write_example = response_after_write 7 woken reached refl
