-- ===== src/Hal/Session/Boot/Reports.antt =====
-- How the initialisation ends, and what it reports.
use device_xiaomi_odin.Prelude.{
  ℕ, ◌+◌, ◌≤◌, ◌≡◌, ◌⊎◌, true, false, Option, none, some, List, [], ◌∷◌, ◌==◌,
}
use device_xiaomi_odin.Status.{success, failed}
use device_xiaomi_odin.Hal.Session.Boot.{Round, Call, fw_download, init_complete, cleanup, Outcome}

-- The statuses that phNxpUciHal_init_complete has reported.
abbrev pub reports : List Call → List ℕ
reports [] = []
reports (init_complete s ∷ cs) = s ∷ reports cs
reports (_ ∷ cs) = reports cs

-- The sum of a number for each call.
abbrev pub sum_of : (Call → ℕ) → List Call → ℕ
sum_of f [] = 0
sum_of f (x ∷ xs) = f x + sum_of f xs

abbrev pub is_download : Call → ℕ
is_download fw_download = 1
is_download _ = 0

abbrev pub is_cleanup : Call → ℕ
is_cleanup cleanup = 1
is_cleanup _ = 0

abbrev pub downloads : List Call → ℕ
downloads = sum_of is_download

abbrev pub cleanups : List Call → ℕ
cleanups = sum_of is_cleanup

-- Before the end: nothing is reported, nothing is cleaned up, and so many downloads were made.
Begun : ℕ → List Call → Type 0
Begun n calls = (reports calls ≡ []) × (cleanups calls ≡ 0) × (downloads calls ≡ n)

-- Success and failure are each reported once; a device information that fails is not reported.
pub IsReported : Round → Outcome → Type 0
IsReported r o =
    ((o.status ≡ success)
      × (o.initialized ≡ true)
      × (reports o.calls ≡ success ∷ [])
      × (cleanups o.calls ≡ 1))
    ⊎ (((o.status ≡ failed)
          × (o.initialized ≡ false)
          × (reports o.calls ≡ failed ∷ [])
          × (cleanups o.calls ≡ 1))
        ⊎ ((o.status ≡ r.device_info)
            × ((r.device_info == success) ≡ false)
            × (o.initialized ≡ false)
            × (reports o.calls ≡ [])
            × (cleanups o.calls ≡ 0)))

Ended : Round → ℕ → Option Outcome → Type 0
Ended r n none = ⊥
Ended r n (some o) = IsReported r o × (downloads o.calls ≡ n)

-- The vendor's configuration returns.
abbrev pub ConfigReturns : Round → Type 0
ConfigReturns r = (status : ℕ) × (r.vendor_config ≡ some status)

Returns : Round → Option Outcome → Type 0
Returns r x =
    (o : Outcome) × (x ≡ some o)
    × IsReported r o
    × (1 ≤ downloads o.calls)
    × (downloads o.calls ≤ 6)

-- Each of the downloads that can be made returns.
abbrev pub DownloadsReturn : (ℕ → Option ℕ) → Type 0
DownloadsReturn download = (k : ℕ) → k ≤ 5 → (status : ℕ) × (download k ≡ some status)
