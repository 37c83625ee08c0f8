-- ===== src/Queue/Fifo.antt =====
-- The linked items are a first-in first-out queue of messages.
use device_xiaomi_odin.Prelude.{
  ℕ, zero, suc, ◌+◌, ◌-◌, ◌≤◌, ◌≡◌, ◌≢◌, refl, ap, sym, subst, ◌∙◌, true, false, Option, none, some,
  List, [], ◌∷◌, ◌++◌, arith, ◌==◌, length, All, All-append, ==-refl,
}
use device_xiaomi_odin.Queue.{Item, Heap, write, Queue, last_item, link, msgsnd, msgrcv}

-- The addresses and messages of the items, from the first on; no address stands twice.
abbrev pub IsChain : Heap → ℕ → List (ℕ × ℕ) → Type 0
IsChain h p [] = p ≡ 0
IsChain h p ((a, m) ∷ l) =
    (p ≡ a)
    × (a ≢ 0)
    × ((i : Item) × (h a ≡ some i) × (i.msg ≡ m) × IsChain h i.next l)
    × All (λ e. e.0 ≢ a) l

-- A write at another address changes no chain.
IsChain-write :
    (l : List (ℕ × ℕ)) (h : Heap) (p a : ℕ) (v : Option Item)
    → All (λ e. e.0 ≢ a) l
    → IsChain h p l
    → IsChain (write h a v) p l
IsChain-write [] h p a v k c = c
IsChain-write ((b, m) ∷ l) h p a v k (e, z, (i, at, says, rest), d) =
    let other : (b == a) ≡ false = ground arith in
    (e, z, (i, (rw other at), says, IsChain-write l h i.next a v k.1 rest), d)

-- The walk finds the last item, whose `next` is NULL.
record Appended (n a m p : ℕ) (h : Heap) (l : List (ℕ × ℕ)) : Type 0 where
  last : ℕ
  item : Item
  walk : last_item n h p ≡ some last
  at : h last ≡ some item
  among : (b : ℕ) → All (λ e. e.0 ≢ b) l → last ≢ b
  chain :
      IsChain
        (write
          (write h last (some (record item { next = a })))
          a
          (some (record { msg = m; prev = last; next = 0 })))
        p
        (l ++ (a, m) ∷ [])

walk_end :
    (n p : ℕ) (h : Heap) (i : Item)
    → h p ≡ some i
    → (i.next == 0) ≡ true
    → last_item (suc n) h p ≡ some p
unfolding last_item
walk_end n p h i e f = rw (last_item, e) (rw f refl)

walk_on :
    (n p : ℕ) (h : Heap) (i : Item)
    → h p ≡ some i
    → (i.next == 0) ≡ false
    → last_item (suc n) h p ≡ last_item n h i.next
unfolding last_item
walk_on n p h i e f = rw (last_item, e) (rw f refl)

append_chain :
    (n a m p b c : ℕ) (l : List (ℕ × ℕ)) (h : Heap)
    → IsChain h p ((b, c) ∷ l)
    → a ≢ 0
    → All (λ e. e.0 ≢ a) ((b, c) ∷ l)
    → length ((b, c) ∷ l) ≤ n
    → Appended n a m p h ((b, c) ∷ l)
unfolding last_item
append_chain zero a m p b c l h k z f s = ground arith
append_chain (suc n) a m p b c [] h (e, nz, (i, at, says, end), d) z f s =
    let v : Option Item = some (record { msg = m; prev = b; next = 0 }) in
    let ends : (i.next == 0) ≡ true = ground arith in
    let self : (b == b) ≡ true = ==-refl b in
    let other : (b == a) ≡ false = ground arith in
    let new : (a == a) ≡ true = ==-refl a in
    record {
      last = b;
      item = i;
      walk = walk_end n p h i (ap h e ∙ at) ends ∙ ap some e;
      at = at;
      among = λ x y. y.0;
      chain = (
        e,
        nz,
        (
          record i { next = a },
          rw other (rw self refl),
          says,
          (refl, z, (record { msg = m; prev = b; next = 0 }, rw new refl, refl, refl), tt),
        ),
        (ground arith, tt),
      );
    }
append_chain (suc n) a m p b c ((b', c') ∷ l) h (e, nz, (i, at, says, rest), d) z f s =
    let r = append_chain n a m i.next b' c' l h rest z f.1 (omega arith) in
    let more : (i.next == 0) ≡ false = ground arith in
    let apart : (b == r.last) ≡ false = let neq : r.last ≢ b = r.among b d in ground arith in
    let other : (b == a) ≡ false = ground arith in
    record {
      last = r.last;
      item = r.item;
      walk = walk_on n p h i (ap h e ∙ at) more ∙ r.walk;
      at = r.at;
      among = λ x y. r.among x y.1;
      chain = (
        e,
        nz,
        (i, rw other (rw apart at), says, r.chain),
        All-append (λ e. e.0 ≢ b) ((b', c') ∷ l) ((a, m) ∷ []) d (ground arith, tt),
      );
    }

-- The queue holds the messages of these items.
abbrev pub Holds : Queue → List (ℕ × ℕ) → Type 0
Holds q l = IsChain q.heap q.items l

-- What `link` gives where the last item is there.
abbrev linked : ℕ → ℕ → ℕ → Item → Queue → Queue
linked p a m i q = record q {
  heap =
      write (write q.heap p (some (record i { next = a }))) a
        (some (record { msg = m; prev = p; next = 0 }));
  semaphore = q.semaphore + 1;
}

link-some :
    (p a m : ℕ) (i : Item) (q : Queue) → q.heap p ≡ some i → link p a m q ≡ some (linked p a m i q)
unfolding link
link-some p a m i q e = rw (link, e) refl

-- phDal4Uwb_msgsnd with a new item from malloc succeeds, on a walk of as many rounds as there are
-- items; the message is behind all others, and the semaphore counts one more.
pub msgsnd-Holds :
    (n a m : ℕ) (q : Queue) (l : List (ℕ × ℕ))
    → Holds q l
    → a ≢ 0
    → All (λ e. e.0 ≢ a) l
    → length l ≤ n
    → (q' : Queue) × (msgsnd n a m q ≡ some (true, q'))
      × Holds q' (l ++ (a, m) ∷ [])
      × (q'.semaphore ≡ q.semaphore + 1)
unfolding msgsnd
msgsnd-Holds n a m q [] k z f s =
    let fresh : (a == 0) ≡ false = ground arith in
    let empty : (q.items == 0) ≡ true = ground arith in
    let first : Item = record { msg = m; prev = 0; next = 0 } in
    let q' : Queue = record {
      heap = write q.heap a (some first);
      items = a;
      semaphore = q.semaphore + 1;
    } in
    let self : (a == a) ≡ true = ==-refl a in
    (q', rw (fresh, empty) refl, (refl, z, (first, rw self refl, refl, refl), tt), refl)
msgsnd-Holds n a m q ((b, c) ∷ l) k z f s =
    let r = append_chain n a m q.items b c l q.heap k z f s in
    let fresh : (a == 0) ≡ false = ground arith in
    let used : (q.items == 0) ≡ false = ground (arith, k.0, k.1) in
    let q' : Queue = linked r.last a m r.item q in
    (q', rw (fresh, used) (rw r.walk (rw (link-some r.last a m r.item q r.at) refl)), r.chain, refl)

-- phDal4Uwb_msgrcv on a queue that holds a message takes the first one and leaves the others in
-- order; its item is freed.
pub msgrcv-Holds :
    (q : Queue) (a m : ℕ) (l : List (ℕ × ℕ))
    → Holds q ((a, m) ∷ l)
    → (q' : Queue) × (msgrcv q ≡ some (some m, q'))
      × Holds q' l
      × (q'.heap a ≡ none)
      × (q'.semaphore ≡ q.semaphore - 1)
unfolding msgrcv
msgrcv-Holds q a m l (e, z, (i, at, says, rest), d) =
    let used : (q.items == 0) ≡ false = ground arith in
    let self : (a == q.items) ≡ true = ground arith in
    let q' : Queue = record {
      heap = write q.heap q.items none;
      items = i.next;
      semaphore = q.semaphore - 1;
    } in
    let chain : IsChain (write q.heap q.items none) i.next l =
      subst (λ x. IsChain (write q.heap x none) i.next l) (sym e)
        (IsChain-write l q.heap i.next a none d rest) in
    let read : q.heap q.items ≡ some i = ap q.heap e ∙ at in
    (q', rw used (rw read (ap (λ x. some (some x, q')) says)), chain, rw self refl, refl)
