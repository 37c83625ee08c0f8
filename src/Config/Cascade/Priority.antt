-- ===== src/Config/Cascade/Priority.antt =====
-- Which file a setting comes from.
use mathlib.Core.List.{reverse}
use device_xiaomi_odin.Prelude.{
  ℕ, zero, suc, ◌+◌, ◌≡◌, refl, sym, ap, ◌∙◌, ◌⊎◌, inl, inr, true, false, Option, none, some, List,
  [], ◌∷◌, ◌++◌, arith, Bytes, All, Bool-cases,
}
use device_xiaomi_odin.Int.{ℤ, pos, negsuc, ltb_ℤ}
use device_xiaomi_odin.Config.Param.{lookup, Settings}
use device_xiaomi_odin.Config.File.{File, find, open_file}
use device_xiaomi_odin.Config.Text.{codes, until_nul}
use device_xiaomi_odin.Config.Cascade.{
  Cascade, Environment, find_param, find_first, or_else, Picked, pick, try_caps, pick_caps,
  get_str_array_val, version_of,
}

-- The tables of files, one behind the other.
abbrev pub tables : List File → Settings
tables [] = []
tables (f ∷ fs) = f.settings ++ tables fs

lookup-append : (k : Bytes) (m n : Settings) → lookup k (m ++ n) ≡ or_else (lookup k m) (lookup k n)
unfolding lookup
lookup-append k [] n = refl
lookup-append k ((j, v) ∷ m) n = ground (arith, lookup-append k m n)

find_first-tables : (k : Bytes) (fs : List File) → find_first k fs ≡ lookup k (tables fs)
unfolding find_first lookup
find_first-tables k [] = refl
find_first-tables k (f ∷ fs) =
    ap (or_else (lookup k f.settings)) (find_first-tables k fs)
    ∙ sym (lookup-append k f.settings (tables fs))

-- Looking a name up is looking it up in one table: the country code capabilities, then the extra
-- files from the last to the first, the main file and the UCI file.
pub find_param-lookup :
    (k : Bytes) (c : Cascade)
    → find_param k c
      ≡ lookup k
          (c.caps.settings ++ (tables (reverse c.extra) ++ (c.main.settings ++ c.uci.settings)))
unfolding find_param
find_param-lookup k c = rw (find_first-tables k (reverse c.extra)) (
    rw (lookup-append k c.caps.settings)
      (rw (lookup-append k (tables (reverse c.extra))) (rw (lookup-append k c.main.settings))))

-- Picking the country code file.

abbrev pub all_picked : Environment → List File → Picked → Picked
all_picked e [] p = p
all_picked e (f ∷ fs) p = all_picked e fs (pick e f p)

-- a ≤ b
abbrev pub AtMost : ℤ → ℤ → Type 0
AtMost a b = ltb_ℤ b a ≡ false

AtMost-trans : (a b c : ℤ) → AtMost a b → AtMost b c → AtMost a c
AtMost-trans (pos a) (pos b) (pos c) h k = ground arith
AtMost-trans (pos a) (pos b) (negsuc c) h k = ground arith
AtMost-trans (pos a) (negsuc b) c h k = ground arith
AtMost-trans (negsuc a) (pos b) (pos c) h k = ground arith
AtMost-trans (negsuc a) (pos b) (negsuc c) h k = ground arith
AtMost-trans (negsuc a) (negsuc b) (pos c) h k = ground arith
AtMost-trans (negsuc a) (negsuc b) (negsuc c) h k = ground arith

-- The files of the locations from index `i` on.
abbrev candidate : Environment → Option Bytes → List File
candidate e none = []
candidate e (some loc) =
    open_file e.files e.sku (until_nul loc ++ codes "libuwb-countrycode.conf") ∷ []

abbrev pub candidates : Environment → Cascade → ℕ → ℕ → List File
candidates e c zero i = []
candidates e c (suc n) i =
    candidate e (get_str_array_val (codes "COUNTRY_CODE_CAP_FILE_LOCATION") i 260 c)
    ++ candidates e c n (i + 1)

try_caps-all_picked :
    (e : Environment) (o : Option Bytes) (fs : List File) (p : Picked)
    → all_picked e fs (try_caps e o p) ≡ all_picked e (candidate e o ++ fs) p
unfolding try_caps
try_caps-all_picked e none fs p = refl
try_caps-all_picked e (some loc) fs p = refl

pick_caps-all_picked :
    (e : Environment) (c : Cascade) (n i : ℕ) (p : Picked)
    → pick_caps e c n i p ≡ all_picked e (candidates e c n i) p
unfolding pick_caps
pick_caps-all_picked e c zero i p = refl
pick_caps-all_picked e c (suc n) i p =
    pick_caps-all_picked e c n (i + 1) _
    ∙ try_caps-all_picked e (get_str_array_val (codes "COUNTRY_CODE_CAP_FILE_LOCATION") i 260 c)
        (candidates e c n (i + 1)) p

ltb_ℤ-irrefl : (a : ℤ) → AtMost a a
ltb_ℤ-irrefl (pos a) = ground arith
ltb_ℤ-irrefl (negsuc a) = ground arith

ltb_ℤ-asym : (a b : ℤ) → ltb_ℤ a b ≡ true → AtMost a b
ltb_ℤ-asym (pos a) (pos b) h = ground arith
ltb_ℤ-asym (pos a) (negsuc b) h = cc
ltb_ℤ-asym (negsuc a) (pos b) h = refl
ltb_ℤ-asym (negsuc a) (negsuc b) h = ground arith

pick_grows :
    (e : Environment) (f : File) (p : Picked)
    → AtMost p.version (pick e f p).version
      × AtMost (version_of e (find (codes "VERSION") f)) (pick e f p).version
unfolding pick
pick_grows e f p = elim (Bool-cases (ltb_ℤ p.version v)) [
  | inl h ↦ rw h (ltb_ℤ-asym p.version v h, ltb_ℤ-irrefl v)
  | inr h ↦ rw h (ltb_ℤ-irrefl p.version, h)
]
  where
    v : ℤ
    v = version_of e (find (codes "VERSION") f)

all_picked_grows :
    (e : Environment) (fs : List File) (p : Picked) → AtMost p.version (all_picked e fs p).version
all_picked_grows e [] p = ltb_ℤ-irrefl p.version
all_picked_grows e (f ∷ fs) p =
    AtMost-trans p.version (pick e f p).version (all_picked e fs (pick e f p)).version
      (pick_grows e f p).0 (all_picked_grows e fs (pick e f p))

all_picked_highest :
    (e : Environment) (fs : List File) (p : Picked)
    → All (λ f. AtMost (version_of e (find (codes "VERSION") f)) (all_picked e fs p).version) fs
all_picked_highest e [] p = tt
all_picked_highest e (f ∷ fs) p = (
  AtMost-trans (version_of e (find (codes "VERSION") f)) (pick e f p).version
      (all_picked e fs (pick e f p)).version (pick_grows e f p).1
      (all_picked_grows e fs (pick e f p)),
  all_picked_highest e fs (pick e f p),
)

-- One of the files has the property.
abbrev pub Any : (File → Type 0) → List File → Type 0
Any P [] = ⊥
Any P (f ∷ fs) = P f ⊎ Any P fs

abbrev pub IsPicked : Environment → Picked → File → Type 0
IsPicked e p f = (p.file ≡ some f) × (p.version ≡ version_of e (find (codes "VERSION") f))

all_picked_one :
    (e : Environment) (fs : List File) (p : Picked)
    → (all_picked e fs p ≡ p) ⊎ Any (IsPicked e (all_picked e fs p)) fs
unfolding pick
all_picked_one e [] p = inl refl
all_picked_one e (f ∷ fs) p = elim (all_picked_one e fs (pick e f p)) [
  | inr a ↦ inr (inr a)
  | inl same ↦ elim (Bool-cases (ltb_ℤ p.version v)) [
    | inl h ↦ inr (inl (rw same (rw h (refl, refl))))
    | inr h ↦ inl (same ∙ rw h)
  ]
]
  where
    v : ℤ
    v = version_of e (find (codes "VERSION") f)

-- The loop over the locations of the country code capabilities picks one of the files that it can
-- read, or none, and no file has a VERSION above the picked one.
pub pick_caps_highest :
    (e : Environment) (c : Cascade) (n i : ℕ) (p : Picked)
    → All
        (λ f. AtMost (version_of e (find (codes "VERSION") f)) (pick_caps e c n i p).version)
        (candidates e c n i)
      × ((pick_caps e c n i p ≡ p) ⊎ Any (IsPicked e (pick_caps e c n i p)) (candidates e c n i))
pick_caps_highest e c n i p =
    rw (pick_caps-all_picked e c n i p)
      (all_picked_highest e (candidates e c n i) p, all_picked_one e (candidates e c n i) p)
