-- ===== src/Uci/Command/Retries.antt =====
-- How the loop of phNxpUciHal_process_ext_cmd_rsp ends.
use device_xiaomi_odin.Prelude.{
  ℕ, ◌+◌, ◌≤◌, ◌<◌, ◌≡◌, refl, inl, inr, Bool, true, false, ◌&&◌, ◌||◌, Option, some, List, [], ◌∷◌,
  leb, ◌==◌, if◌then◌else◌, length, Bool-cases, arith,
}
use device_xiaomi_odin.Status.{
  success, response_timeout, command_retransmit, invalid_command_length,
}
use device_xiaomi_odin.Uci.Command.{
  Attempt, Outcome, is_retry_required, finish, attempts, started, process_ext_cmd_rsp,
}

finish-writes : (t r : ℕ) (o : Outcome) → (finish t r o).writes ≡ o.writes
finish-writes t r o = elim (Bool-cases (t == success && r == success)) [
  | inl e ↦ rw e refl
  | inr e ↦ rw e refl
]

-- The loop ends, from counters that are below their limits, within the rounds that these leave.
Ends : ℕ → ℕ → ℕ → Outcome → Option Outcome → Type 0
Ends retries invalid n o r =
    (o' : Outcome) × (r ≡ some o')
    × (o'.writes + retries + invalid ≤ o.writes + 7)
    × (o.writes < o'.writes)

-- What follows a response: the loop gives up, goes on or is over.
decide-Ends :
    (retries invalid : ℕ) (o o₁ o₂ : Outcome) (given_up more : Bool) (rest : Option Outcome)
    → (retries < 5) × (invalid < 3)
    → (o₁.writes ≡ o.writes + 1) × (o₂.writes ≡ o.writes + 1)
    → (given_up ≡ false → more ≡ true → Ends retries invalid 0 o rest)
    → Ends retries invalid 0 o (if given_up then some o₁ else if more then rest else some o₂)
unfolding Ends
decide-Ends retries invalid o o₁ o₂ true more rest h w k = (o₁, refl, omega arith, omega arith)
decide-Ends retries invalid o o₁ o₂ false true rest h w k = k refl refl
decide-Ends retries invalid o o₁ o₂ false false rest h w k = (o₂, refl, omega arith, omega arith)

-- One counter goes up with each response that asks for another round.
counted :
    (again shorter : Bool) (retries invalid : ℕ)
    → (again || shorter) ≡ true
    → retries + invalid + 1
      ≤ (if again then retries + 1 else retries) + (if shorter then invalid + 1 else invalid)
counted true true retries invalid e = omega arith
counted true false retries invalid e = omega arith
counted false true retries invalid e = omega arith
counted false false retries invalid e = ground arith

limits : (a b : ℕ) → (leb 5 a || leb 3 b) ≡ false → (a < 5) × (b < 3)
limits a b e = ground arith

attempts-Ends :
    (timer_stop retries invalid : ℕ) (rounds : List Attempt) (o : Outcome)
    → (retries < 5) × (invalid < 3)
    → 7 ≤ length rounds + retries + invalid
    → Ends retries invalid 0 o (attempts timer_stop retries invalid rounds o)
unfolding attempts Ends
attempts-Ends timer_stop retries invalid [] o h l = ground arith
attempts-Ends timer_stop retries invalid (a ∷ rounds) o h l = elim (Bool-cases a.written) [
  | inr w ↦ rw w (_, refl, omega arith, omega arith)
  | inl w ↦ rw w (elim (Bool-cases a.parse_enabled) [
    | inl p ↦ rw p (_, refl, omega arith, omega arith)
    | inr p ↦ rw p (elim (Bool-cases (a.timer_start == success)) [
      | inr t ↦ rw t (_, refl, omega arith, omega arith)
      | inl t ↦ rw t (elim (Bool-cases a.waited) [
        | inr v ↦ rw v (_, refl, omega arith, omega arith)
        | inl v ↦ rw v (
            let again : Bool = a.response == response_timeout || a.response == command_retransmit in
            let shorter : Bool = a.response == invalid_command_length in
            let r : ℕ = if again then retries + 1 else retries in
            let i : ℕ = if shorter then invalid + 1 else invalid in
            let o₂ : Outcome = record o { writes = o.writes + 1; status = a.timer_start } in
            let o₃ : Outcome = record o₂ { notifications = o.notifications + 1 } in
            decide-Ends retries invalid o (finish timer_stop a.response o₃)
              (finish timer_stop a.response o₂) (leb 5 r || leb 3 i) (again || shorter)
              (attempts timer_stop r i rounds o₂) h
              (finish-writes timer_stop a.response o₃, finish-writes timer_stop a.response o₂)
              (λ e m.
                let more = counted again shorter retries invalid m in
                let (o', q, w', g) =
                  attempts-Ends timer_stop r i rounds o₂ (limits r i e) (omega arith) in
                (o', q, omega arith, omega arith)))
      ])
    ])
  ])
]

-- Seven rounds are enough: whatever the timer, the semaphore and the responses do, the function
-- returns, and it has written the command seven times at most.
pub process_ext_cmd_rsp-ends :
    (sem_ok : Bool) (b timer_stop : ℕ) (rounds : List Attempt)
    → 7 ≤ length rounds
    → (o : Outcome) × (process_ext_cmd_rsp sem_ok b timer_stop rounds ≡ some o) × (o.writes ≤ 7)
unfolding process_ext_cmd_rsp Ends
process_ext_cmd_rsp-ends false b timer_stop rounds l = (_, refl, omega arith)
process_ext_cmd_rsp-ends true b timer_stop rounds l = elim (Bool-cases (is_retry_required b)) [
  | inl e ↦ rw e (_, refl, omega arith)
  | inr e ↦
      let (o, q, w, g) =
        attempts-Ends timer_stop 0 0 rounds started (omega arith, omega arith) (omega arith) in
      rw e (o, q, omega arith)
]

-- A command that is written, gets no answer in time, and can then not be written again is reported
-- as a success: the status that the function returns is still that of the timer of the first round.
pub process_ext_cmd_rsp-unwritten :
    (b timer_stop : ℕ) (first second : Attempt) (rounds : List Attempt)
    → is_retry_required b ≡ false
    → (first.written ≡ true)
      × (first.parse_enabled ≡ false)
      × (first.timer_start ≡ success)
      × (first.waited ≡ true)
      × (first.response ≡ response_timeout)
    → second.written ≡ false
    → process_ext_cmd_rsp true b timer_stop (first ∷ second ∷ rounds)
      ≡ some (record { status = success; writes = 2; notifications = 0 })
unfolding process_ext_cmd_rsp attempts
process_ext_cmd_rsp-unwritten b timer_stop first second rounds e (w, p, t, v, r) u =
    rw e (rw (w, p, t, v, r) (rw u refl))
