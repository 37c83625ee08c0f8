-- ===== src/Uci/Command.antt =====
-- phNxpUciHal_process_ext_cmd_rsp of uwb/halimpl/hal/phNxpUciHal_ext.cc: a command is written and
-- its response awaited, again if need be. The timer, the semaphore and the write are not part of
-- this function: what they give is one `Attempt` for each round.
pub mod Retries
use device_xiaomi_odin.Prelude.{
  ℕ, zero, suc, ◌+◌, ◌*◌, ◌/◌, ◌%◌, ◌≤◌, ◌<◌, ◌≡◌, ◌≢◌, ◌⊎◌, ◌↔◌, refl, ap, ◌∙◌, inl, inr, Bool,
  true, false, not, ◌&&◌, ◌||◌, Option, none, some, List, [], ◌∷◌, leb, ◌==◌, if◌then◌else◌, length,
  Bool-cases, arith,
}
use device_xiaomi_odin.Status.{
  success, failed, response_timeout, command_retransmit, invalid_command_length,
}

-- What one round meets: whether all bytes were written, hal_parse_enabled behind the write, the
-- status of phOsalUwb_Timer_Start, whether SEM_WAIT succeeded, and the status that the response left
-- in ext_cb_data.
pub record Attempt : Type 0 where
  pub written : Bool
  pub parse_enabled : Bool
  pub timer_start : ℕ
  pub waited : Bool
  pub response : ℕ

-- The result, how often the command was written, and how often the device status notification was
-- sent.
pub record Outcome : Type 0 where
  pub status : ℕ
  pub writes : ℕ
  pub notifications : ℕ

-- phNxpUciHal_is_retry_required: a chained command (PBF) or a data message.
unfoldable pub is_retry_required : ℕ → Bool
is_retry_required b = b / 16 % 2 == 1 || b / 32 == 0

-- The status of `status` before the first round; a round that starts the timer leaves success there.
abbrev pub finish : ℕ → ℕ → Outcome → Outcome
finish timer_stop response o =
    if timer_stop == success && response == success
    then record o { status = success }
    else record o { status = failed }

-- The loop; `retries` and `invalid` are the two counters. It runs out of attempts only if it has had
-- seven (below), and gives none then.
unfoldable pub attempts : ℕ → ℕ → ℕ → List Attempt → Outcome → Option Outcome
attempts timer_stop retries invalid [] o = none
attempts timer_stop retries invalid (a ∷ rounds) o =
    let o₁ : Outcome = record o { writes = o.writes + 1 } in
    let o₂ : Outcome = record o₁ { status = a.timer_start } in
    let again : Bool = a.response == response_timeout || a.response == command_retransmit in
    let shorter : Bool = a.response == invalid_command_length in
    let retries' : ℕ = if again then retries + 1 else retries in
    let invalid' : ℕ = if shorter then invalid + 1 else invalid in
    let given_up : Bool = leb 5 retries' || leb 3 invalid' in
    let o₃ : Outcome = record o₂ { notifications = o.notifications + 1 } in
    let rest : Option Outcome = attempts timer_stop retries' invalid' rounds o₂ in
    if not a.written
    then some o₁
    else if a.parse_enabled
    then some o₁
    else if not (a.timer_start == success)
    then some (record o₁ { status = failed })
    else if not a.waited
    then some o₂
    else if given_up
    then some (finish timer_stop a.response o₃)
    else if again || shorter
    then rest
    else some (finish timer_stop a.response o₂)

abbrev started : Outcome
started = record { status = failed; writes = 0; notifications = 0 }

-- phNxpUciHal_process_ext_cmd_rsp for a command with the given first byte. A chained command or a
-- data message does not wait, and leaves `status` as it was.
unfoldable pub process_ext_cmd_rsp : Bool → ℕ → ℕ → List Attempt → Option Outcome
unfolding is_retry_required attempts
process_ext_cmd_rsp sem_ok b timer_stop rounds =
    let o : Outcome = started in
    let waiting = attempts timer_stop 0 0 rounds o in
    if not sem_ok
    then some o
    else if is_retry_required b
    then some (record o { writes = 1 })
    else waiting
