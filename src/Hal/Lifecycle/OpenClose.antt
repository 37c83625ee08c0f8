-- ===== src/Hal/Lifecycle/OpenClose.antt =====
-- What opening the HAL leaves behind.
use mathlib.Core.Bool.{true≢false}
use device_xiaomi_odin.Prelude.{
  ℕ, ◌≡◌, ◌≢◌, ◌⊎◌, refl, ap, sym, subst, ◌∙◌, inl, inr, Bool, true, false, not, Option, none, some,
  List, [], ◌∷◌, arith, ◌==◌, if◌then◌else◌, Bool-cases,
}
use device_xiaomi_odin.Status.{success, failed}
use device_xiaomi_odin.Tml
use device_xiaomi_odin.Tml.{DeviceCall, read_abort, write_abort, clean_up}
use device_xiaomi_odin.Tml.State.{Context, fresh}
use device_xiaomi_odin.Tml.Api.{AllSucceed, init_lem}
use device_xiaomi_odin.Hal.Lifecycle.{
  Hal, OpenEnvironment, Report, error_evt, open_cplt_msg, open_complete, zeroed, start_client,
  set_up, open_hal,
}

-- The HAL is open, with its transport layer, and said so.
pub IsOpened : ℕ → Hal → List Report → ℕ → Type 0
IsOpened queue h reports status =
    (status ≡ success)
    × (h.is_open ≡ true)
    × (h.has_stack ≡ true)
    × (h.tml ≡ some (fresh queue))
    × (h.is_locked ≡ false)
    × (reports ≡ open_cplt_msg ∷ [])

-- The HAL is closed, without a transport layer, and reported an error.
pub IsRefused : Hal → List Report → Type 0
IsRefused h reports =
    (h.is_open ≡ false)
    × (h.has_stack ≡ false)
    × (h.tml ≡ none)
    × (h.is_locked ≡ false)
    × (reports ≡ error_evt ∷ [])

abbrev Run : Type 0
Run = ℕ × Hal × List Report

abbrev Opened : ℕ → Run → Type 0
Opened queue (status, h, reports) = IsOpened queue h reports status

abbrev Refused : Run → Type 0
Refused (status, h, reports) = IsRefused h reports

third :
    {A : Type 0} (b m : Bool) (x y z : A)
    → b ≡ false
    → m ≡ true
    → z ≡ (if b then x else if not m then y else z)
third b m x y z e f = rw (e, f) refl

start_client-opens :
    (h : Hal) (queue : ℕ) (created : Bool)
    → h.is_open ≡ true
    → h.has_stack ≡ true
    → created ≡ true
    → Opened queue (start_client created h success (some (fresh queue)))
unfolding start_client open_complete IsOpened
start_client-opens h queue true o s e = (refl, refl, s, refl, refl, refl)
start_client-opens h queue false o s e = absurd (true≢false (sym e))

start_client-no_thread :
    (h : Hal) (queue : ℕ) (created : Bool)
    → created ≡ false
    → Refused (start_client created h success (some (fresh queue)))
unfolding start_client open_complete IsRefused Tml.shutdown clean_up
start_client-no_thread h queue true e = absurd (true≢false e)
start_client-no_thread h queue false e = (refl, refl, refl, refl, refl)

start_client-no_tml :
    (h : Hal) (created : Bool) (status : ℕ) (c : Option Context)
    → status ≢ success
    → c ≡ none
    → Refused (start_client created h status c)
unfolding start_client IsRefused
start_client-no_tml h created status c bad e =
    let test : (status == success) ≡ false = ground arith in rw test (refl, refl, e, refl, refl)

-- What opening comes to for a closed HAL.
open_hal-start :
    (env : OpenEnvironment) (h : Hal)
    → env.monitor ≡ true
    → (h.is_open ≡ false) × (h.tml ≡ none)
    → let r = Tml.init env.tml (some env.queue) none in
      start_client env.thread_created
        (record (zeroed (set_up env h)) { is_open = true; has_stack = true; is_locked = true })
        r.0
        r.1
      ≡ open_hal env h
unfolding open_hal set_up
open_hal-start env h m (closed, none_yet) =
    let locked : Hal = record (zeroed (set_up env h)) {
      is_open = true;
      has_stack = true;
      is_locked = true;
    } in
    ap
      (λ (t : Option Context).
        let r = Tml.init env.tml (some env.queue) t in
        start_client env.thread_created locked r.0 r.1)
      (sym none_yet)
    ∙ third h.is_open env.monitor (success, h, []) (failed, set_up env h, []) _ closed m

-- Opening a closed HAL with no transport layer, whose monitor can be set up, opens it, if the layer
-- comes up and the thread is created; otherwise the HAL stays closed, with the layer released and the error reported. The lock is
-- released either way.
pub open_hal_lem :
    (env : OpenEnvironment) (h : Hal)
    → env.monitor ≡ true
    → (h.is_open ≡ false) × (h.tml ≡ none)
    → let (status, h', reports) = open_hal env h in
      ((AllSucceed env.tml × (env.queue ≢ 0))
        × (env.thread_created ≡ true)
        × IsOpened env.queue h' reports status)
      ⊎ (((env.thread_created ≡ false) ⊎ ¬ (AllSucceed env.tml × (env.queue ≢ 0)))
          × IsRefused h' reports)
open_hal_lem env h m closed =
    let locked : Hal = record (zeroed (set_up env h)) {
      is_open = true;
      has_stack = true;
      is_locked = true;
    } in
    let started = open_hal-start env h m closed in
    elim (init_lem env.tml env.queue) [
      | inl (up, e) ↦
          let e' =
            ap
              (λ (r : ℕ × Option Context × List DeviceCall).
                start_client env.thread_created locked r.0 r.1)
              (sym e)
            ∙ started in
          elim (Bool-cases env.thread_created) [
            | inl t ↦ inl (
              up,
              t,
              subst (Opened env.queue) e'
                  (start_client-opens locked env.queue env.thread_created refl refl t),
            )
            | inr t ↦ inr (
              inl t,
              subst Refused e' (start_client-no_thread locked env.queue env.thread_created t),
            )
          ]
      | inr (down, bad, e) ↦ inr (
        inr down,
        subst Refused started (start_client-no_tml locked env.thread_created _ _ bad e),
      )
    ]
