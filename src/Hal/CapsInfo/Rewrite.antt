-- ===== src/Hal/CapsInfo/Rewrite.antt =====
-- What the rewriting of the response to CORE_GET_CAPS_INFO keeps.
use mathlib.Core.List.{append_assoc, append-nil}
use device_xiaomi_odin.Prelude.{
  ℕ, zero, suc, ◌+◌, ◌-◌, ◌≤◌, ◌<◌, ◌≡◌, refl, ap, ap₂, sym, ◌∙◌, Bool, true, false, not, ◌&&◌,
  ◌||◌, Option, some, List, [], ◌∷◌, ◌++◌, arith, ltb, leb, ◌==◌, Bytes, length, All, length-append,
}
use device_xiaomi_odin.Uci.Packet.{byte}
use device_xiaomi_odin.Uci.Blocking.{byte-append}
use device_xiaomi_odin.Hal.CapsInfo.{
  Antenna, Walk, slice, aoa_support_tag, ccc_protocol_versions_tag, copy_entry, skip_entry, walk,
}

-- An entry of the report: with a tag of one byte, of a vendor with its two tags, or the two protocol
-- versions of CCC.
pub data Entry : Type 0 where
  plain : ℕ → Bytes → Entry
  vendor : ℕ → ℕ → Bytes → Entry
  versions : ℕ → ℕ → Entry

-- The tags that the loop treats in a way of their own.
abbrev pub is_vendor : ℕ → Bool
is_vendor tag = tag == 0xE0 || tag == 0xE3

abbrev pub is_plain : ℕ → Bool
is_plain tag =
    not (is_vendor tag) && not (tag == aoa_support_tag) && not (tag == ccc_protocol_versions_tag)

abbrev pub IsEntry : Entry → Type 0
IsEntry (plain tag v) = is_plain tag ≡ true
IsEntry (vendor tag sub v) = is_vendor tag ≡ true
IsEntry (versions a b) = Unit

abbrev pub entry_bytes : Entry → Bytes
entry_bytes (plain tag v) = tag ∷ length v ∷ v
entry_bytes (vendor tag sub v) = tag ∷ sub ∷ length v ∷ v
entry_bytes (versions a b) = ccc_protocol_versions_tag ∷ 2 ∷ a ∷ b ∷ []

abbrev pub entries_bytes : List Entry → Bytes
entries_bytes [] = []
entries_bytes (e ∷ es) = entry_bytes e ++ entries_bytes es

-- What becomes of an entry.
abbrev pub kept_entry : Entry → Bytes
kept_entry (plain tag v) = tag ∷ length v ∷ v
kept_entry (vendor tag sub v) = []
kept_entry (versions a b) = ccc_protocol_versions_tag ∷ 2 ∷ b ∷ a ∷ []

abbrev pub kept : List Entry → Bytes
kept [] = []
kept (e ∷ es) = kept_entry e ++ kept es

abbrev pub kept_count : List Entry → ℕ
kept_count [] = 0
kept_count (vendor tag sub v ∷ es) = kept_count es
kept_count (_ ∷ es) = kept_count es + 1

slice-append : (v xs ys : Bytes) (i : ℕ) → i ≡ length xs → slice (xs ++ (v ++ ys)) i (length v) ≡ v
unfolding slice
slice-append [] xs ys i e = refl
slice-append (x ∷ v) xs ys i e =
    let zs : Bytes = xs ++ x ∷ [] in
    let more = length-append xs (x ∷ []) in
    let same : zs ++ (v ++ ys) ≡ xs ++ (x ∷ v ++ ys) = append_assoc xs (x ∷ []) (v ++ ys) in
    let rest = slice-append v zs ys (i + 1) (omega arith) in
    rw (byte-append xs (x ∷ v ++ ys) i 0 (omega arith))
      (ap (◌∷◌ x) (ap (λ l. slice l (i + 1) (length v)) (sym same) ∙ rest))

-- One round for each kind of entry.
walk-copies :
    (n : ℕ) (a : Antenna) (size i tag len : ℕ) (w : Walk)
    → ltb i size ≡ true
    → (byte w.packet i ≡ tag) × (byte w.packet (i + 1) ≡ len)
    → (is_vendor tag ≡ false) × ((tag == aoa_support_tag) ≡ false)
    → walk (suc n) a size i w ≡ walk n a size (i + 2 + len) (copy_entry tag len (i + 2) w)
unfolding walk
walk-copies n a size i tag len w on (t, l) (v, o) = rw (walk, on) (rw (t, l) (rw (v, o) refl))

walk-skips :
    (n : ℕ) (a : Antenna) (size i tag len : ℕ) (w : Walk)
    → (ltb i size ≡ true) × (leb size (i + 2) ≡ false)
    → (byte w.packet i ≡ tag) × (byte w.packet (i + 2) ≡ len)
    → is_vendor tag ≡ true
    → walk (suc n) a size i w ≡ walk n a size (i + 3 + len) (skip_entry len w)
unfolding walk
walk-skips n a size i tag len w (on, room) (t, l) v =
    rw (walk, on) (rw (t, l) (rw v (rw room refl)))

-- The loop over entries: what it writes, and by how much the two counts go down.
unfoldable pub Walks : List Entry → Walk → Option Walk → Type 0
Walks es w r =
    (w' : Walk) × (r ≡ some w')
    × (w'.device_caps ≡ w.device_caps ++ kept es)
    × (w'.caps_len + length es ≡ w.caps_len + kept_count es)
    × (w'.data_len + length (entries_bytes es) ≡ w.data_len + length (kept es))

plain-tests :
    (tag : ℕ)
    → is_plain tag ≡ true
    → (is_vendor tag ≡ false)
      × ((tag == aoa_support_tag) ≡ false)
      × ((tag == ccc_protocol_versions_tag) ≡ false)
plain-tests tag h = ground arith

-- Where the next entry starts.
walk-moves :
    (e : Entry) (es : List Entry) (xs p : Bytes) (size i : ℕ)
    → p ≡ xs ++ (entry_bytes e ++ entries_bytes es)
    → i ≡ length xs
    → size ≡ length xs + length (entries_bytes (e ∷ es))
    → (ys : Bytes) × (p ≡ ys ++ entries_bytes es)
      × (i + length (entry_bytes e) ≡ length ys)
      × (size ≡ length ys + length (entries_bytes es))
walk-moves e es xs p size i q at s =
    let more = length-append xs (entry_bytes e) in
    let whole = length-append (entry_bytes e) (entries_bytes es) in
    (
      xs ++ entry_bytes e,
      q ∙ sym (append_assoc xs (entry_bytes e) (entries_bytes es)),
      omega arith,
      omega arith,
    )

-- The bytes of an entry that stands behind `xs`.
byte-entry :
    (p xs e rest : Bytes) (i k : ℕ)
    → p ≡ xs ++ (e ++ rest)
    → i ≡ length xs + k
    → byte p i ≡ byte (e ++ rest) k
byte-entry p xs e rest i k q at = ap (λ l. byte l i) q ∙ byte-append xs (e ++ rest) i k at

copy_entry-plain :
    (tag : ℕ) (v xs rest : Bytes) (i : ℕ) (w : Walk)
    → (tag == ccc_protocol_versions_tag) ≡ false
    → w.packet ≡ xs ++ ((tag ∷ length v ∷ v) ++ rest)
    → i ≡ length xs
    → (copy_entry tag (length v) (i + 2) w).device_caps ≡ w.device_caps ++ (tag ∷ length v ∷ v)
unfolding copy_entry
copy_entry-plain tag v xs rest i w t q at =
    let zs : Bytes = xs ++ (tag ∷ length v ∷ []) in
    let more = length-append xs (tag ∷ length v ∷ []) in
    let same : zs ++ (v ++ rest) ≡ xs ++ (tag ∷ length v ∷ (v ++ rest)) =
      append_assoc xs (tag ∷ length v ∷ []) (v ++ rest) in
    rw t (
      ap (λ l. w.device_caps ++ (tag ∷ length v ∷ l))
        (ap (λ l. slice l (i + 2) (length v)) (q ∙ sym same)
          ∙ slice-append v zs rest (i + 2) (omega arith)))

copy_entry-versions :
    (a b : ℕ) (xs rest : Bytes) (i : ℕ) (w : Walk)
    → w.packet ≡ xs ++ ((ccc_protocol_versions_tag ∷ 2 ∷ a ∷ b ∷ []) ++ rest)
    → i ≡ length xs
    → (copy_entry ccc_protocol_versions_tag 2 (i + 2) w).device_caps
      ≡ w.device_caps ++ (ccc_protocol_versions_tag ∷ 2 ∷ b ∷ a ∷ [])
unfolding copy_entry
copy_entry-versions a b xs rest i w q at =
    let e : Bytes = ccc_protocol_versions_tag ∷ 2 ∷ a ∷ b ∷ [] in
    let first : byte w.packet (i + 2) ≡ a =
      byte-entry w.packet xs e rest (i + 2) 2 q (omega arith) in
    let last : byte w.packet (i + 2 + 2 - 1) ≡ b =
      byte-entry w.packet xs e rest (i + 2 + 2 - 1) 3 q (omega arith) in
    ap₂ (λ x y. w.device_caps ++ (ccc_protocol_versions_tag ∷ 2 ∷ x ∷ y ∷ [])) last first

-- From the rest of the loop to all of it.
Walks-cons :
    (e : Entry) (es : List Entry) (w w₁ : Walk) (r r₁ : Option Walk)
    → r ≡ r₁
    → w₁.device_caps ≡ w.device_caps ++ kept_entry e
    → w₁.caps_len + 1 + kept_count es ≡ w.caps_len + kept_count (e ∷ es)
    → w₁.data_len + length (entry_bytes e) ≡ w.data_len + length (kept_entry e)
    → Walks es w₁ r₁
    → Walks (e ∷ es) w r
unfolding Walks
Walks-cons e es w w₁ r r₁ q caps count size (w', f, caps', count', size') =
    let whole = length-append (entry_bytes e) (entries_bytes es) in
    let left = length-append (kept_entry e) (kept es) in
    (
      w',
      q ∙ f,
      caps' ∙ (ap (λ l. l ++ kept es) caps ∙ append_assoc w.device_caps (kept_entry e) (kept es)),
      omega arith,
      omega arith,
    )

pub walk-Walks :
    (es : List Entry) (n : ℕ) (a : Antenna) (xs : Bytes) (size i : ℕ) (w : Walk)
    → All IsEntry es
    → w.packet ≡ xs ++ entries_bytes es
    → i ≡ length xs
    → size ≡ length xs + length (entries_bytes es)
    → length es ≤ n
    → (length es ≤ w.caps_len)
      × (w.caps_len < 256)
      × (length (entries_bytes es) ≤ w.data_len)
      × (w.data_len < 256)
    → Walks es w (walk n a size i w)
unfolding walk Walks copy_entry skip_entry
walk-Walks [] zero a xs size i w h q at s f b =
    let over : ltb i size ≡ false = ground arith in
    (w, rw (walk, over) refl, sym (append-nil w.device_caps), refl, refl)
walk-Walks [] (suc n) a xs size i w h q at s f b =
    let over : ltb i size ≡ false = ground arith in
    (w, rw (walk, over) refl, sym (append-nil w.device_caps), refl, refl)
walk-Walks (e ∷ es) zero a xs size i w h q at s f b = absurd (omega arith)
walk-Walks (plain tag v ∷ es) (suc n) a xs size i w (h, hs) q at s f b =
    let rest : Bytes = entries_bytes es in
    let (ys, q', at', s') = walk-moves (plain tag v) es xs w.packet size i q at s in
    let (t₁, t₂, t₃) = plain-tests tag h in
    let w₁ : Walk = copy_entry tag (length v) (i + 2) w in
    let whole = length-append v rest in
    Walks-cons (plain tag v) es w w₁ _ _
      (walk-copies n a size i tag (length v) w (ground arith)
        (
          byte-entry w.packet xs (tag ∷ length v ∷ v) rest i 0 q (omega arith),
          byte-entry w.packet xs (tag ∷ length v ∷ v) rest (i + 1) 1 q (omega arith),
        )
        (t₁, t₂))
      (copy_entry-plain tag v xs rest i w t₃ q at) (omega arith) (omega arith)
      (walk-Walks es n a ys size (i + 2 + length v) w₁ hs q' (omega arith) s' (omega arith)
        (omega arith, omega arith, omega arith, omega arith))
walk-Walks (versions b c ∷ es) (suc n) a xs size i w (h, hs) q at s f bounds =
    let rest : Bytes = entries_bytes es in
    let x : Bytes = ccc_protocol_versions_tag ∷ 2 ∷ b ∷ c ∷ [] in
    let (ys, q', at', s') = walk-moves (versions b c) es xs w.packet size i q at s in
    let w₁ : Walk = copy_entry ccc_protocol_versions_tag 2 (i + 2) w in
    Walks-cons (versions b c) es w w₁ _ _
      (walk-copies n a size i ccc_protocol_versions_tag 2 w (ground arith)
        (
          byte-entry w.packet xs x rest i 0 q (omega arith),
          byte-entry w.packet xs x rest (i + 1) 1 q (omega arith),
        )
        (refl, refl))
      (copy_entry-versions b c xs rest i w q at) (omega arith) (omega arith)
      (walk-Walks es n a ys size (i + 2 + 2) w₁ hs q' (omega arith) s' (omega arith)
        (omega arith, omega arith, omega arith, omega arith))
walk-Walks (vendor tag sub v ∷ es) (suc n) a xs size i w (h, hs) q at s f bounds =
    let rest : Bytes = entries_bytes es in
    let x : Bytes = tag ∷ sub ∷ length v ∷ v in
    let (ys, q', at', s') = walk-moves (vendor tag sub v) es xs w.packet size i q at s in
    let w₁ : Walk = skip_entry (length v) w in
    let whole = length-append v rest in
    Walks-cons (vendor tag sub v) es w w₁ _ _
      (walk-skips n a size i tag (length v) w (ground arith, ground arith)
        (
          byte-entry w.packet xs x rest i 0 q (omega arith),
          byte-entry w.packet xs x rest (i + 2) 2 q (omega arith),
        )
        h)
      (sym (append-nil w.device_caps)) (omega arith) (omega arith)
      (walk-Walks es n a ys size (i + 3 + length v) w₁ hs q' (omega arith) s' (omega arith)
        (omega arith, omega arith, omega arith, omega arith))
