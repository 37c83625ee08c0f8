-- ===== src/Udfps/LastState.antt =====
-- What the fingerprint device knows of the files that are polled.
use device_xiaomi_odin.Prelude.{
  ℕ, ◌≡◌, refl, ap, ap₂, sym, ◌∙◌, Bool, true, false, Option, none, some, List, [], ◌∷◌, ◌++◌, ◌==◌,
  if◌then◌else◌,
}
use device_xiaomi_odin.Udfps.{
  command_nit, command_fod_press_status, Poll, poll_failed, polled, ExtCmd, ext_cmd, poll_round,
  poll_loop, watch,
}

-- The later of two, if there is one.
abbrev pub later : Option ℕ → Option ℕ → Option ℕ
later x none = x
later x (some y) = some y

-- The parameter of the last command of a kind.
abbrev pub last_param : ℕ → List ExtCmd → Option ℕ
last_param command [] = none
last_param command (ext_cmd c n ∷ cs) =
    later (if c == command then some n else none) (last_param command cs)

-- PARAM_NIT_UDFPS and PARAM_FOD_PRESSED are 1, PARAM_NIT_NONE and PARAM_FOD_RELEASED are 0.
abbrev pub as_param : Option Bool → Option ℕ
as_param none = none
as_param (some false) = some 0
as_param (some true) = some 1

-- The last state that is read of each file.
abbrev pub last_ui : List Poll → Option ℕ
last_ui [] = none
last_ui (poll_failed ∷ ps) = last_ui ps
last_ui (polled ui press ∷ ps) = later (as_param ui) (last_ui ps)

abbrev pub last_press : List Poll → Option ℕ
last_press [] = none
last_press (poll_failed ∷ ps) = last_press ps
last_press (polled ui press ∷ ps) = later (as_param press) (last_press ps)

later_assoc : (x y z : Option ℕ) → later (later x y) z ≡ later x (later y z)
later_assoc x y none = refl
later_assoc x y (some z) = refl

later-none : (x : Option ℕ) → later none x ≡ x
later-none none = refl
later-none (some y) = refl

last_param-append :
    (command : ℕ) (cs ds : List ExtCmd)
    → last_param command (cs ++ ds) ≡ later (last_param command cs) (last_param command ds)
last_param-append command [] ds = sym (later-none (last_param command ds))
last_param-append command (ext_cmd c n ∷ cs) ds =
    let here : Option ℕ = if c == command then some n else none in
    ap (later here) (last_param-append command cs ds)
    ∙ sym (later_assoc here (last_param command cs) (last_param command ds))

round_ui :
    (ui press : Option Bool) → last_param command_nit (poll_round (polled ui press)) ≡ as_param ui
unfolding poll_round
round_ui none none = refl
round_ui none (some true) = refl
round_ui none (some false) = refl
round_ui (some true) none = refl
round_ui (some true) (some true) = refl
round_ui (some true) (some false) = refl
round_ui (some false) none = refl
round_ui (some false) (some true) = refl
round_ui (some false) (some false) = refl

round_press :
    (ui press : Option Bool)
    → last_param command_fod_press_status (poll_round (polled ui press)) ≡ as_param press
unfolding poll_round
round_press none none = refl
round_press none (some true) = refl
round_press none (some false) = refl
round_press (some true) none = refl
round_press (some true) (some true) = refl
round_press (some true) (some false) = refl
round_press (some false) none = refl
round_press (some false) (some true) = refl
round_press (some false) (some false) = refl

loop_ui : (ps : List Poll) → last_param command_nit (poll_loop ps) ≡ last_ui ps
unfolding poll_loop
loop_ui [] = refl
loop_ui (poll_failed ∷ ps) = loop_ui ps
loop_ui (polled ui press ∷ ps) =
    last_param-append command_nit (poll_round (polled ui press)) (poll_loop ps)
    ∙ ap₂ later (round_ui ui press) (loop_ui ps)

loop_press : (ps : List Poll) → last_param command_fod_press_status (poll_loop ps) ≡ last_press ps
unfolding poll_loop
loop_press [] = refl
loop_press (poll_failed ∷ ps) = loop_press ps
loop_press (polled ui press ∷ ps) =
    last_param-append command_fod_press_status (poll_round (polled ui press)) (poll_loop ps)
    ∙ ap₂ later (round_press ui press) (loop_press ps)

-- With both files open, and whatever poll gives: after any number of rounds, the last command that
-- the device has got about either file has the parameter 1 if the last state read of that file was
-- true, and 0 if it was false, and there is no such command if none was read.
pub watch-last :
    (ps : List Poll)
    → (last_param command_nit (watch true true ps) ≡ last_ui ps)
      × (last_param command_fod_press_status (watch true true ps) ≡ last_press ps)
unfolding watch
watch-last ps = (loop_ui ps, loop_press ps)
