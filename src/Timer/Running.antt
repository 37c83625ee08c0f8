-- ===== src/Timer/Running.antt =====
-- A timer that runs: starting, stopping, and what its expiry calls.
use device_xiaomi_odin.Prelude.{
  ℕ, ◌+◌, ◌<◌, ◌≡◌, ◌≢◌, refl, Bool, true, some, [], ◌∷◌, length, get_or, set, arith,
}
use device_xiaomi_odin.Status.{success}
use device_xiaomi_odin.Timer.{
  arm, stop_in, start, stop, delete, expired, deferred_call, deferred_callback, it_value, msgsnd,
  callback, timer_settime,
}
use device_xiaomi_odin.Timer.Slots.{running, stopped, Timer, blank, Table}
use device_xiaomi_odin.Timer.Lifecycle.{get_or-set, set-set, used-lt, index_of_id, delete_used}

-- The operations on the slot `i` of a table, which holds the timer `v`.
module _ (t : Table) (i : ℕ) (v : Timer) (l : i < 5) (at : get_or blank t i ≡ v)
    (used : v.timer_id ≢ 0) where
  start_at :
      (ms f context : ℕ)
      → start (i + 101) ms (some f) context true t ≡ record {
        table =
            set t i
              (record v { application_callback = some f; context = context; state = running });
        result = success;
        calls = timer_settime v.handle (it_value ms).0 (it_value ms).1 ∷ [];
      }
  unfolding start arm
  start_at ms f context = rw (index_of_id i l, at) (ground arith)

  stop_running :
      v.state ≡ running
      → stop (i + 101) true t ≡ record {
        table = set t i (record v { state = stopped });
        result = success;
        calls = timer_settime v.handle 0 0 ∷ [];
      }
  unfolding stop stop_in
  stop_running r = rw (index_of_id i l, at) (ground arith)

  stop_stopped :
      v.state ≡ stopped → stop (i + 101) true t ≡ record { table = t; result = success; calls = [] }
  unfolding stop stop_in
  stop_stopped r = rw (index_of_id i l, at) (ground arith)

  expired_at : expired (i + 101) t ≡ (set t i (record v { state = stopped }), msgsnd (i + 101) ∷ [])
  unfolding expired
  expired_at = rw (index_of_id i l, at)

deferred_call_at :
    (t : Table) (i : ℕ) (v : Timer)
    → i < 5
    → get_or blank t i ≡ v
    → deferred_call (i + 101) t ≡ deferred_callback v.application_callback (i + 101) v.context
unfolding deferred_call
deferred_call_at t i v l at = rw (index_of_id i l, at) (ground arith)

-- From here on a slot `i` that is in use, of a table of five.
module _ (t : Table) (i : ℕ) (five : length t ≡ 5) (used : (get_or blank t i).timer_id ≢ 0) where
  inside : i < 5
  inside = omega (arith, used-lt t i used, five)

  abbrev slot : Timer
  slot = get_or blank t i

  write_at : (v : Timer) → get_or blank (set t i v) i ≡ v
  write_at v = get_or-set t i v (omega (arith, inside, five))

  -- Starting a timer arms it once, for the given time and without a period; stopping it disarms it
  -- once, and stopping it again succeeds without a system call.
  pub start-stop :
      (ms f context : ℕ)
      → let o = start (i + 101) ms (some f) context true t in
        let s = stop (i + 101) true o.table in
        (o.result ≡ success)
        × (o.calls ≡ timer_settime slot.handle (it_value ms).0 (it_value ms).1 ∷ [])
        × (s.result ≡ success)
        × (s.calls ≡ timer_settime slot.handle 0 0 ∷ [])
        × ((stop (i + 101) true s.table).result ≡ success)
        × ((stop (i + 101) true s.table).calls ≡ [])
  start-stop ms f context =
      let v : Timer = record slot {
        application_callback = some f;
        context = context;
        state = running;
      } in
      let w : Timer = record v { state = stopped } in
      let first = stop_running (set t i v) i v inside (write_at v) used refl in
      let second =
        stop_stopped (set (set t i v) i w) i w inside (rw set-set (write_at w)) used refl in
      rw (start_at t i slot inside refl used ms f context)
        (rw first (rw second (refl, refl, refl, refl, refl, refl)))

  -- When a started timer expires one message is posted, and running that message calls the function
  -- that the timer was started with, once, on the timer's id and the context given at the start. If
  -- the timer is deleted before the message is run, nothing is called.
  pub deferred_call-expired :
      (ms f context : ℕ) (ok : Bool)
      → let o = start (i + 101) ms (some f) context true t in
        let e = expired (i + 101) o.table in
        (e.1 ≡ msgsnd (i + 101) ∷ [])
        × (deferred_call (i + 101) e.0 ≡ callback f (i + 101) context ∷ [])
        × (deferred_call (i + 101) (delete (i + 101) ok e.0).table ≡ [])
  unfolding deferred_callback
  deferred_call-expired ms f context ok =
      let v : Timer = record slot {
        application_callback = some f;
        context = context;
        state = running;
      } in
      let w : Timer = record v { state = stopped } in
      let e = expired_at (set t i v) i v inside (write_at v) used in
      let here : get_or blank (set (set t i v) i w) i ≡ w = rw set-set (write_at w) in
      let gone = delete_used (set (set t i v) i w) i ok inside (rw here used) in
      let cleared : get_or blank (set (set (set t i v) i w) i blank) i ≡ blank =
        rw (set-set, set-set) (write_at blank) in
      rw (start_at t i slot inside refl used ms f context) (
        rw e (
          refl,
          deferred_call_at (set (set t i v) i w) i w inside here,
          rw gone.0 (deferred_call_at _ i blank inside cleared),
        ))
