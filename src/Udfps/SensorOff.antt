-- ===== src/Udfps/SensorOff.antt =====
-- The sensor behind a fingerprint that is recognised.
use device_xiaomi_odin.Prelude.{
  ℕ, ◌+◌, ◌≡◌, refl, Bool, true, false, not, ◌&&◌, List, [], ◌∷◌, ◌==◌, All, All-append, arith,
  if-both, ◌≤◌,
}
use device_xiaomi_odin.Udfps.{
  FileWrite, fod_status, fod_hbm, fod_off, fod_on, Handler, Event, finger_down, finger_up,
  cancelled, authentication_succeeded, authentication_failed, sleep_over, acquired, on_acquired,
  handle, run,
}

-- A write that turns something off.
abbrev pub IsOff : FileWrite → Type 0
IsOff (fod_status n) = n ≡ fod_off
IsOff (fod_hbm n) = n ≡ fod_off

-- Any event but the end of a sleep, and that the sensor waits for a finger.
abbrev pub is_quiet : ℕ → Event → Bool
is_quiet good finger_down = true
is_quiet good finger_up = true
is_quiet good cancelled = true
is_quiet good authentication_succeeded = true
is_quiet good authentication_failed = true
is_quiet good sleep_over = false
is_quiet good (acquired result vendor_code) = not (not (result == good) && vendor_code == 21)

on_acquired-IsOff :
    (good result vendor_code : ℕ)
    → is_quiet good (acquired result vendor_code) ≡ true
    → All IsOff (on_acquired good result vendor_code)
on_acquired-IsOff good result vendor_code q =
    if-both (All IsOff) (result == good) _ _ (λ e. (refl, (refl, tt)))
      λ e. if-both (All IsOff) (vendor_code == 21) _ _ (λ f. absurd (ground arith)) λ f. tt

handle-IsOff :
    (good : ℕ) (e : Event) (h : Handler)
    → h.auth_success ≡ true
    → is_quiet good e ≡ true
    → ((handle good e h).0.auth_success ≡ true) × All IsOff (handle good e h).1
unfolding handle
handle-IsOff good finger_down h a q = (a, rw a tt)
handle-IsOff good finger_up h a q = (a, (refl, tt))
handle-IsOff good cancelled h a q = (a, (refl, (refl, tt)))
handle-IsOff good authentication_succeeded h a q = (refl, (refl, tt))
handle-IsOff good authentication_failed h a q = (a, (refl, tt))
handle-IsOff good sleep_over h a q = absurd (ground arith)
handle-IsOff good (acquired result vendor_code) h a q =
    (a, on_acquired-IsOff good result vendor_code q)

run-IsOff :
    (good : ℕ) (es : List Event) (h : Handler)
    → h.auth_success ≡ true
    → All (λ e. is_quiet good e ≡ true) es
    → ((run good es h).0.auth_success ≡ true) × All IsOff (run good es h).1
unfolding run
run-IsOff good [] h a q = (a, tt)
run-IsOff good (e ∷ es) h a (q, qs) =
    let (a', o) = handle-IsOff good e h a q in
    let (a'', os) = run-IsOff good es (handle good e h).0 a' qs in (a'', All-append IsOff _ _ o os)

-- A thread that sleeps goes on doing so.
handle-sleeping :
    (good : ℕ) (e : Event) (h : Handler)
    → 1 ≤ h.sleeping
    → is_quiet good e ≡ true
    → 1 ≤ (handle good e h).0.sleeping
unfolding handle
handle-sleeping good finger_down h l q = l
handle-sleeping good finger_up h l q = l
handle-sleeping good cancelled h l q = l
handle-sleeping good authentication_succeeded h l q = omega arith
handle-sleeping good authentication_failed h l q = l
handle-sleeping good sleep_over h l q = absurd (ground arith)
handle-sleeping good (acquired result vendor_code) h l q = l

run-sleeping :
    (good : ℕ) (es : List Event) (h : Handler)
    → 1 ≤ h.sleeping
    → All (λ e. is_quiet good e ≡ true) es
    → 1 ≤ (run good es h).0.sleeping
unfolding run
run-sleeping good [] h l q = l
run-sleeping good (e ∷ es) h l (q, qs) =
    run-sleeping good es (handle good e h).0 (handle-sleeping good e h l q) qs

awake :
    (good : ℕ) (h : Handler) → 1 ≤ h.sleeping → (handle good sleep_over h).0.auth_success ≡ false
unfolding handle
awake good h l = let some_sleep : (h.sleeping == 0) ≡ false = ground arith in rw some_sleep refl

-- From a recognised fingerprint on, whatever the handler is told, until a thread's sleep ends or the
-- sensor waits for a finger: nothing is turned on, a finger that comes down included; and when a
-- sleep ends, a finger that comes down turns the sensor on again.
pub authentication_succeeded-run :
    (good : ℕ) (es : List Event) (h : Handler)
    → All (λ e. is_quiet good e ≡ true) es
    → let (h', ws) = run good (authentication_succeeded ∷ es) h in
      All IsOff ws × ((run good (sleep_over ∷ finger_down ∷ []) h').1 ≡ fod_status fod_on ∷ [])
unfolding run handle
authentication_succeeded-run good es h q =
    let h₁ : Handler = record { auth_success = true; sleeping = h.sleeping + 1 } in
    let off : ((run good es h₁).0.auth_success ≡ true) × All IsOff (run good es h₁).1 =
      run-IsOff good es h₁ refl q in
    let l : 1 ≤ (run good es h₁).0.sleeping = run-sleeping good es h₁ (omega arith) q in
    let z : ((run good es h₁).0.sleeping == 0) ≡ false = ground arith in ((refl, off.1), rw z refl)
