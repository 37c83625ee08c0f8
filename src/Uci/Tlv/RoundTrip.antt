-- ===== src/Uci/Tlv/RoundTrip.antt =====
-- Reading back the entries of a map that was written.
use mathlib.Core.List.{append_assoc, append-nil}
use device_xiaomi_odin.Prelude.{
  ℕ, zero, suc, ◌+◌, ◌*◌, ◌/◌, ◌%◌, ◌<◌, ◌≤◌, ◌≡◌, refl, ap, sym, ◌∙◌, ◌⊎◌, inl, inr, true, false,
  some, [], ◌∷◌, ◌++◌, arith, ltb, leb, ◌==◌, Bytes, length, All, All-append, length-append,
  take-length_append, drop-length_append,
}
use device_xiaomi_odin.Uci.Tlv.{
  TagMap, insert, is_extended, read_tag, read_values, read_entry, read_entries, get_conf_map,
  tag_bytes, write_entries,
}

-- A tag of one byte that is not extended, or an extended one.
abbrev pub IsTag : ℕ → Type 0
IsTag tag = ((tag < 256) × (is_extended tag ≡ false)) ⊎ (is_extended (tag / 256) ≡ true)

-- The length of the values, which are not empty, and the values.
abbrev pub IsVector : Bytes → Type 0
IsVector [] = ⊥
IsVector (l ∷ []) = ⊥
IsVector (l ∷ v ∷ vs) = l ≡ length (v ∷ vs)

abbrev pub IsEntry : ℕ × Bytes → Type 0
IsEntry (tag, v) = IsTag tag × IsVector v

-- In ascending order of the tags.
abbrev pub IsSorted : TagMap → Type 0
IsSorted [] = Unit
IsSorted ((k, v) ∷ m) = All (λ e. k < e.0) m × IsSorted m

read_tag-tag_bytes :
    (tag : ℕ) (x y : ℕ) (r : Bytes)
    → IsTag tag
    → read_tag (tag_bytes tag ++ (x ∷ y ∷ r)) ≡ some (tag, x ∷ y ∷ r)
unfolding read_tag tag_bytes
read_tag-tag_bytes tag x y r (inr e) =
    let small : tag / 256 % 256 ≡ tag / 256 = ground arith in
    let whole : tag / 256 * 256 + tag % 256 ≡ tag = omega arith in
    rw e (rw small (rw e (rw whole refl)))
read_tag-tag_bytes tag x y r (inl (s, e)) =
    let short : is_extended (tag / 256) ≡ false = ground arith in
    let small : tag % 256 ≡ tag = omega arith in rw short (rw small (rw e refl))

read_values-append : (v rest : Bytes) → IsVector v → read_values (v ++ rest) ≡ some (v, rest)
unfolding read_values
read_values-append [] rest h = elim h [ ]
read_values-append (l ∷ []) rest h = elim h [ ]
read_values-append (l ∷ v ∷ vs) rest h =
    let fits : leb (length (v ∷ vs)) (length (v ∷ (vs ++ rest))) ≡ true =
      ground (arith, length-append vs rest) in
    rw h (rw fits (rw (take-length_append vs rest, drop-length_append vs rest) refl))

read_entry-some :
    (d r v rest : Bytes) (tag : ℕ)
    → read_tag d ≡ some (tag, r)
    → read_values r ≡ some (v, rest)
    → read_entry d ≡ some (tag, v, rest)
unfolding read_entry
read_entry-some d r v rest tag e f = rw (read_entry, e) (rw f refl)

read_entry-append :
    (tag : ℕ) (v rest : Bytes)
    → IsEntry (tag, v)
    → read_entry (tag_bytes tag ++ (v ++ rest)) ≡ some (tag, v, rest)
read_entry-append tag [] rest h = elim h.1 [ ]
read_entry-append tag (l ∷ []) rest h = elim h.1 [ ]
read_entry-append tag (l ∷ v ∷ vs) rest h =
    read_entry-some (tag_bytes tag ++ (l ∷ v ∷ (vs ++ rest))) (l ∷ v ∷ (vs ++ rest)) (l ∷ v ∷ vs)
      rest tag (read_tag-tag_bytes tag l v (vs ++ rest) h.0)
      (read_values-append (l ∷ v ∷ vs) rest h.1)

-- Entries inserted one after the other.
abbrev insert_all : TagMap → TagMap → TagMap
insert_all [] m = m
insert_all ((k, v) ∷ es) m = insert_all es (insert k v m)

-- One round of the loop.
read_entries-some :
    (n tag : ℕ) (d v rest : Bytes) (m : TagMap)
    → read_entry d ≡ some (tag, v, rest)
    → read_entries (suc n) d m ≡ read_entries n rest (insert tag v m)
unfolding read_entries read_entry read_tag
read_entries-some n tag [] v rest m e = ground arith
read_entries-some n tag (x ∷ d) v rest m e = rw (read_entries, e) refl

-- What is written of an entry takes at least one byte.
length-tag_bytes : (tag : ℕ) → 1 ≤ length (tag_bytes tag)
unfolding tag_bytes
length-tag_bytes tag = ground arith

read_entries-write_entries :
    (m acc : TagMap) (n : ℕ)
    → All IsEntry m
    → length (write_entries m) ≤ n
    → read_entries n (write_entries m) acc ≡ (true, insert_all m acc)
unfolding write_entries read_entries
read_entries-write_entries [] acc zero h k = refl
read_entries-write_entries [] acc (suc n) h k = refl
read_entries-write_entries ((tag, v) ∷ m) acc zero h k =
    ground (arith, length-append (tag_bytes tag) (v ++ write_entries m), length-tag_bytes tag)
read_entries-write_entries ((tag, v) ∷ m) acc (suc n) h k =
    read_entries-some n tag (tag_bytes tag ++ (v ++ write_entries m)) v (write_entries m) acc
      (read_entry-append tag v (write_entries m) h.0)
    ∙ read_entries-write_entries m (insert tag v acc) n h.1 (
        omega (
          arith,
          length-append (tag_bytes tag) (v ++ write_entries m),
          length-append v (write_entries m),
          length-tag_bytes tag,
        ))

insert-last :
    (k : ℕ) (v : Bytes) (m : TagMap) → All (λ e. e.0 < k) m → insert k v m ≡ m ++ (k, v) ∷ []
unfolding insert
insert-last k v [] h = refl
insert-last k v ((j, w) ∷ m) h =
    let later : ltb k j ≡ false = ground arith in
    let other : (k == j) ≡ false = ground arith in
    rw (later, other) (ap (◌∷◌ (j, w)) (insert-last k v m h.1))

-- Every key of the one map is below every key of the other.
abbrev IsBelow : TagMap → TagMap → Type 0
IsBelow m es = All (λ e. All (λ a. a.0 < e.0) m) es

IsBelow-append :
    (m es : TagMap) (k : ℕ) (v : Bytes)
    → IsBelow m es
    → All (λ e. k < e.0) es
    → IsBelow (m ++ (k, v) ∷ []) es
IsBelow-append m [] k v h i = tt
IsBelow-append m (e ∷ es) k v h i =
    (All-append (λ a. a.0 < e.0) m ((k, v) ∷ []) h.0 (i.0, tt), IsBelow-append m es k v h.1 i.1)

insert_all-append : (es m : TagMap) → IsBelow m es → IsSorted es → insert_all es m ≡ m ++ es
insert_all-append [] m h s = sym (append-nil m)
insert_all-append ((k, v) ∷ es) m h s = rw (insert-last k v m h.0) (
    insert_all-append es (m ++ (k, v) ∷ []) (IsBelow-append m es k v h.1 s.0) s.1
    ∙ append_assoc m ((k, v) ∷ []) es)

IsBelow-nil : (es : TagMap) → IsBelow [] es
IsBelow-nil [] = tt
IsBelow-nil (e ∷ es) = (tt, IsBelow-nil es)

-- A map of well-formed entries, written and read again, gives the same map.
pub get_conf_map-write_entries :
    (m : TagMap) → All IsEntry m → IsSorted m → get_conf_map (write_entries m) [] ≡ (true, m)
unfolding get_conf_map
get_conf_map-write_entries m h s =
    read_entries-write_entries m [] (length (write_entries m)) h (omega arith)
    ∙ ap (λ x. (true, x)) (insert_all-append m [] (IsBelow-nil m) s)
