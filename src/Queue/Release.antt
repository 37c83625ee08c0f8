-- ===== src/Queue/Release.antt =====
-- phDal4Uwb_msgctl on a queue from which a message has been taken.
use device_xiaomi_odin.Prelude.{
  ℕ, suc, ◌≡◌, ◌≢◌, refl, ap, ◌∙◌, Bool, true, false, Option, none, some, arith, ◌==◌, ==-refl,
}
use device_xiaomi_odin.Queue.{
  Item, Heap, write, Queue, msgget, last_item, link, msgsnd, msgrcv, free_back, free_items, msgctl,
  Freed, reads_freed, unfinished,
}

-- A message sent on the queue that a call left.
abbrev pub send_next : ℕ → ℕ → Option (Bool × Queue) → Option (Bool × Queue)
send_next a m none = none
send_next a m (some (sent, q)) = msgsnd 1 a m q

-- A message received from it, and the queue released.
abbrev pub receive_next : Option (Bool × Queue) → Option (Option ℕ × Queue)
receive_next none = none
receive_next (some (sent, q)) = msgrcv q

abbrev pub release_next : ℕ → Option (Option ℕ × Queue) → Freed
release_next n none = unfinished
release_next n (some (msg, q)) = msgctl n q

-- The queue behind two messages.
two_sent : ℕ → ℕ → ℕ → ℕ → Heap → Queue
two_sent a b m₁ m₂ h =
    let h₁ : Heap = write h a (some (record { msg = m₁; prev = 0; next = 0 })) in
    let h₂ : Heap = write h₁ a (some (record { msg = m₁; prev = 0; next = b })) in
    record {
      heap = write h₂ b (some (record { msg = m₂; prev = a; next = 0 }));
      items = a;
      semaphore = 2;
    }

first_sent :
    (a m : ℕ) (h : Heap)
    → a ≢ 0
    → msgsnd 1 a m (msgget h)
      ≡ some (
        true,
        record {
          heap = write h a (some (record { msg = m; prev = 0; next = 0 }));
          items = a;
          semaphore = 1;
        },
      )
unfolding msgsnd
first_sent a m h x = let za : (a == 0) ≡ false = ground arith in rw (msgsnd, za) refl

second_sent :
    (a b m₁ m₂ : ℕ) (h : Heap)
    → (a ≢ 0) × (b ≢ 0) × (a ≢ b)
    → msgsnd 1 b m₂ (record {
      heap = write h a (some (record { msg = m₁; prev = 0; next = 0 }));
      items = a;
      semaphore = 1;
    })
      ≡ some (true, two_sent a b m₁ m₂ h)
unfolding msgsnd last_item link two_sent
second_sent a b m₁ m₂ h (x, y, z) =
    let za : (a == 0) ≡ false = ground arith in
    let zb : (b == 0) ≡ false = ground arith in
    let aa : (a == a) ≡ true = ==-refl a in rw (zb, za) (rw (last_item, aa) (rw (link, aa) refl))

-- Releasing a queue of one item whose `prev` names an item that is not there.
released_alone :
    (n b : ℕ) (h : Heap) (i : Item)
    → b ≢ 0
    → h b ≡ some i
    → i.next ≡ 0
    → h i.prev ≡ none
    → i.prev ≢ 0
    → msgctl (suc n) (record { heap = h; items = b; semaphore = 1 }) ≡ reads_freed i.prev
unfolding msgctl free_items free_back
released_alone n b h i z e f g d =
    let nz : (b == 0) ≡ false = ground arith in
    let last : (i.next == 0) ≡ true = ground arith in
    let back : (i.prev == 0) ≡ false = ground arith in
    rw nz (rw (free_items, e) (rw last (rw (free_back, e) (rw (g, back) refl))))

-- Two messages are sent on an empty queue, with new items from malloc, one is received, and the queue
-- is released: the item that has become the first keeps its pointer to the one that was freed, and the
-- release reads that item. Every call before it succeeds, and one round is enough to get there.
pub msgctl-msgrcv :
    (n a b m₁ m₂ : ℕ) (h : Heap)
    → (a ≢ 0) × (b ≢ 0) × (a ≢ b)
    → release_next (suc n) (receive_next (send_next b m₂ (msgsnd 1 a m₁ (msgget h))))
      ≡ reads_freed a
unfolding msgrcv two_sent
msgctl-msgrcv n a b m₁ m₂ h k =
    let sent : send_next b m₂ (msgsnd 1 a m₁ (msgget h)) ≡ some (true, two_sent a b m₁ m₂ h) =
      ap (send_next b m₂) (first_sent a m₁ h k.0) ∙ second_sent a b m₁ m₂ h k in
    let q : Queue = two_sent a b m₁ m₂ h in
    let za : (a == 0) ≡ false = ground arith in
    let ab : (a == b) ≡ false = ground arith in
    let ba : (b == a) ≡ false = ground arith in
    let aa : (a == a) ≡ true = ==-refl a in
    let bb : (b == b) ≡ true = ==-refl b in
    let left : Queue = record { heap = write q.heap a none; items = b; semaphore = 1 } in
    let received : msgrcv q ≡ some (some m₁, left) = rw za (rw (ab, aa) refl) in
    ap (λ o. release_next (suc n) (receive_next o)) sent
    ∙ ap (release_next (suc n)) received
    ∙ released_alone n b left.heap (record { msg = m₂; prev = a; next = 0 }) k.1
        (rw ba (rw bb refl)) refl (rw aa refl) k.0
