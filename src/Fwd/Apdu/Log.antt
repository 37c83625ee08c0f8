-- ===== src/Fwd/Apdu/Log.antt =====
-- What the functions of the boot ROM's messages write to the device.
use mathlib.Core.List.{append_assoc, append-nil}
use device_xiaomi_odin.Prelude.{
  ℕ, ◌≡◌, refl, sym, ap, ◌∙◌, Bool, true, false, Option, none, some, List, [], ◌∷◌, ◌++◌, Bytes,
  if◌then◌else◌, take, inl, inr, Bool-cases, subst,
}
use device_xiaomi_odin.Fwd.Apdu.{
  overlay, Call, wrote, refused, asked, set_fwd, Chip, Link, Run, ok, stop, out_of_fuel, ◌>>=◌,
  hbci_failure, put_apdu, received, get_apdu, get_header,
}

-- What the device has taken.
abbrev pub writes : List Call → List Bytes
writes [] = []
writes (wrote p ∷ l) = p ∷ writes l
writes (refused p ∷ l) = writes l
writes (asked n ∷ l) = writes l
writes (set_fwd b ∷ l) = writes l

pub writes-append : (l m : List Call) → writes (l ++ m) ≡ writes l ++ writes m
writes-append [] m = refl
writes-append (wrote p ∷ l) m = ap (◌∷◌ p) (writes-append l m)
writes-append (refused p ∷ l) m = writes-append l m
writes-append (asked n ∷ l) m = writes-append l m
writes-append (set_fwd b ∷ l) m = writes-append l m

-- Behind `start`, all of `ps` is written and the state has the property; or the call fails, and a
-- part of `ps` from its beginning is. The fuel is enough.
unfoldable pub Writes : List Bytes → List Bytes → (Link → Type 0) → Run → Type 0
Writes start ps P (ok s) = (writes s.log ≡ start ++ ps) × P s
Writes start ps P (stop n s) =
    (before : List Bytes) × (after : List Bytes) × (n ≡ hbci_failure)
    × (ps ≡ before ++ after)
    × (writes s.log ≡ start ++ before)
Writes start ps P out_of_fuel = ⊥

Writes-behind :
    (P : Link → Type 0) (start mid ps qs : List Bytes) (r : Run)
    → mid ≡ start ++ ps
    → Writes mid qs P r
    → Writes start (ps ++ qs) P r
unfolding Writes
Writes-behind P start mid ps qs (ok s) e (l, p) =
    (l ∙ (ap (λ t. t ++ qs) e ∙ append_assoc start ps qs), p)
Writes-behind P start mid ps qs (stop n s) e (before, after, f, split, l) = (
  ps ++ before,
  after,
  f,
  ap (λ t. ps ++ t) split ∙ sym (append_assoc ps before after),
  l ∙ (ap (λ t. t ++ before) e ∙ append_assoc start ps before),
)
Writes-behind P start mid ps qs out_of_fuel e h = h

pub bind-Writes :
    (P Q : Link → Type 0) (start ps qs : List Bytes) (r : Run) (f : Link → Run)
    → Writes start ps P r
    → ((s : Link) → P s → Writes (writes s.log) qs Q (f s))
    → Writes start (ps ++ qs) Q (r >>= f)
unfolding Writes
bind-Writes P Q start ps qs (ok s) f (l, p) k =
    Writes-behind Q start (writes s.log) ps qs (f s) l (k s p)
bind-Writes P Q start ps qs (stop n s) f (before, after, e, split, l) k =
    (before, after ++ qs, e, ap (λ t. t ++ qs) split ∙ append_assoc before after qs, l)
bind-Writes P Q start ps qs out_of_fuel f h k = h

pub weaken-Writes :
    (P Q : Link → Type 0) (start ps : List Bytes) (r : Run)
    → ((s : Link) → P s → Q s)
    → Writes start ps P r
    → Writes start ps Q r
unfolding Writes
weaken-Writes P Q start ps (ok s) f (l, p) = (l, f s p)
weaken-Writes P Q start ps (stop n s) f h = h
weaken-Writes P Q start ps out_of_fuel f h = h

pub ok-Writes : (P : Link → Type 0) (s : Link) → P s → Writes (writes s.log) [] P (ok s)
unfolding Writes
ok-Writes P s p = (sym (append-nil (writes s.log)), p)

-- The header of what is sent: its class, its instruction and its length.
abbrev pub IsMosi : ℕ → ℕ → ℕ → Link → Type 0
IsMosi c i n s = (s.mosi_cls ≡ c) × (s.mosi_ins ≡ i) × (s.mosi_len ≡ n)

pub put_apdu-Writes :
    (c i n : ℕ) (chip : Chip) (p : Bytes) (s : Link)
    → IsMosi c i n s
    → Writes (writes s.log) (p ∷ []) (IsMosi c i n) (put_apdu chip p s)
unfolding put_apdu Writes
put_apdu-Writes c i n chip p s h = elim (Bool-cases (chip.accepts s.log p)) [
  | inl e ↦ rw e (writes-append s.log (wrote p ∷ []), h)
  | inr e ↦ rw e ([], p ∷ [], refl, refl, writes-append s.log (refused p ∷ []))
]

received-Writes :
    (c i n at sz : ℕ) (o : Option Bytes) (s : Link)
    → IsMosi c i n s
    → Writes (writes s.log) [] (IsMosi c i n) (received o at sz s)
unfolding received Writes
received-Writes c i n at sz none s h = ([], [], refl, refl, sym (append-nil (writes s.log)))
received-Writes c i n at sz (some p) s h = (sym (append-nil (writes s.log)), h)

pub get_header-Writes :
    (c i n : ℕ) (chip : Chip) (s : Link)
    → IsMosi c i n s
    → Writes (writes s.log) [] (IsMosi c i n) (get_header chip s)
unfolding get_header get_apdu
get_header-Writes c i n chip s h =
    let s' : Link = record s { log = s.log ++ asked 4 ∷ [] } in
    let same : writes s'.log ≡ writes s.log =
      writes-append s.log (asked 4 ∷ []) ∙ append-nil (writes s.log) in
    subst (λ l. Writes l [] (IsMosi c i n) (received (chip.answers s.log 4) 0 4 s')) same
      (received-Writes c i n 0 4 (chip.answers s.log 4) s' h)

-- A test of the answer.
pub test-Writes :
    (P : Link → Type 0) (b : Bool) (s : Link)
    → P s
    → Writes (writes s.log) [] P (if b then stop hbci_failure s else ok s)
unfolding Writes
test-Writes P true s h = ([], [], refl, refl, sym (append-nil (writes s.log)))
test-Writes P false s h = (sym (append-nil (writes s.log)), h)

pub guard-Writes :
    (P : Link → Type 0) (b : Bool) (s : Link)
    → P s
    → Writes (writes s.log) [] P (if b then ok s else stop hbci_failure s)
guard-Writes P true s h = ok-Writes P s h
guard-Writes P false s h = test-Writes P true s h

-- The header of an answer that is read.
pub get_header-some :
    (chip : Chip) (s : Link) (p : Bytes)
    → chip.answers s.log 4 ≡ some p
    → get_header chip s
      ≡ ok (record s { log = s.log ++ asked 4 ∷ []; miso = overlay 0 (take 4 p) s.miso })
unfolding get_header get_apdu received
get_header-some chip s p e = rw e refl
