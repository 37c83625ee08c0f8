-- ===== src/Udfps/Tests.antt =====
-- The theorems on the fingerprint handler, applied to short histories.
use device_xiaomi_odin.Prelude.{◌≡◌, refl, true, false, none, some, List, [], ◌∷◌, All}
use device_xiaomi_odin.Udfps.{
  command_nit, command_fod_press_status, fod_status, fod_on, fod_off, Handler, Event, finger_down,
  finger_up, cancelled, authentication_succeeded, sleep_over, acquired, run, Poll, poll_failed,
  polled, watch, read_bool,
}
use device_xiaomi_odin.Udfps.SensorOff.{IsOff, authentication_succeeded-run}
use device_xiaomi_odin.Udfps.LastState.{last_param, last_ui, last_press, watch-last}

abbrev created : Handler
created = record { auth_success = false; sleeping = 0 }

-- A finger that stays, and one that comes down again; what is acquired is no image.
abbrev touches : List Event
touches = finger_down ∷ acquired 1 22 ∷ finger_up ∷ cancelled ∷ finger_down ∷ acquired 0 21 ∷ []

authentication_succeeded-run_example :
    All IsOff (run 0 (authentication_succeeded ∷ touches) created).1
    × ((run 0
          (sleep_over ∷ finger_down ∷ [])
          (run 0 (authentication_succeeded ∷ touches) created).0).1
        ≡ fod_status fod_on ∷ [])
authentication_succeeded-run_example =
    authentication_succeeded-run 0 touches created
      (refl, (refl, (refl, (refl, (refl, (refl, tt))))))

-- Of two fingerprints within half a second the first one's thread ends the time of the second one.
early_end :
    (run 0
      (authentication_succeeded ∷ authentication_succeeded ∷ sleep_over ∷ finger_down ∷ [])
      created).1
    ≡ fod_status fod_off ∷ fod_status fod_off ∷ fod_status fod_on ∷ []
unfolding run
early_end = refl

abbrev polls : List Poll
polls =
    polled (some true) none
    ∷ poll_failed
    ∷ polled (some (read_bool true (some b'0'))) (some true)
    ∷ []

watch-last_example :
    (last_param command_nit (watch true true polls) ≡ last_ui polls)
    × (last_param command_fod_press_status (watch true true polls) ≡ last_press polls)
watch-last_example = watch-last polls

last_of_polls : last_ui polls ≡ some 0
unfolding read_bool
last_of_polls = refl
