-- ===== src/Queue.antt =====
-- uwb/halimpl/tml/phDal4Uwb_messageQueueLib.cc: the message queue, as linked items on a heap. What
-- malloc returns is an argument, 0 for NULL. An access to an item that is not allocated gives none.
pub mod Fifo
pub mod Release
mod Tests
use device_xiaomi_odin.Prelude.{
  ℕ, zero, suc, ◌+◌, ◌-◌, Bool, true, false, Option, none, some, ◌==◌, if◌then◌else◌,
}

-- phDal4Uwb_message_queue_item_t
pub record Item : Type 0 where
  pub msg : ℕ
  pub prev : ℕ
  pub next : ℕ

abbrev pub Heap : Type 0
Heap = ℕ → Option Item

-- The heap with another value at an address; none frees the item.
abbrev pub write : Heap → ℕ → Option Item → Heap
write h a v b = if b == a then v else h b

-- phDal4Uwb_message_queue_t, and its semaphore's count.
pub record Queue : Type 0 where
  pub heap : Heap
  pub items : ℕ
  pub semaphore : ℕ

-- phDal4Uwb_msgget, once its calls have succeeded.
abbrev pub msgget : Heap → Queue
msgget h = record { heap = h; items = 0; semaphore = 0 }

-- The walk to the last item, on fuel.
unfoldable pub last_item : ℕ → Heap → ℕ → Option ℕ
last_item zero h p = none
last_item (suc n) h p = elim (h p) [
  | none ↦ none
  | some i ↦ let rest = last_item n h i.next in if i.next == 0 then some p else rest
]

-- The new item behind the last one.
unfoldable pub link : ℕ → ℕ → ℕ → Queue → Option Queue
link p a msg q = elim (q.heap p) [
  | none ↦ none
  | some i ↦
      let linked = write q.heap p (some (record i { next = a })) in
      some (record q {
        heap = write linked a (some (record { msg = msg; prev = p; next = 0 }));
        semaphore = q.semaphore + 1;
      })
]

-- phDal4Uwb_msgsnd: whether it succeeds, and the queue.
unfoldable pub msgsnd : ℕ → ℕ → ℕ → Queue → Option (Bool × Queue)
unfolding last_item link
msgsnd n a msg q =
    let first : Queue = record {
      heap = write q.heap a (some (record { msg = msg; prev = 0; next = 0 }));
      items = a;
      semaphore = q.semaphore + 1;
    } in
    let behind : Option (Bool × Queue) = elim (last_item n q.heap q.items) [
      | none ↦ none
      | some p ↦ elim (link p a msg q) [ none ↦ none | some q' ↦ some (true, q') ]
    ] in
    if a == 0 then some (false, q) else if q.items == 0 then some (true, first) else behind

-- phDal4Uwb_msgrcv behind sem_wait: the message, if there is one, and the queue.
unfoldable pub msgrcv : Queue → Option (Option ℕ × Queue)
msgrcv q =
    let waited : Queue = record q { semaphore = q.semaphore - 1 } in
    let taken : Option (Option ℕ × Queue) = elim (q.heap q.items) [
      | none ↦ none
      | some i ↦
          some (some i.msg, record waited { heap = write q.heap q.items none; items = i.next })
    ] in
    if q.items == 0 then some (none, waited) else taken

-- What releasing the items gives: the heap, the address of a freed item that is read, or a walk that
-- is not over within its fuel.
pub data Freed : Type 0 where
  released : Heap → Freed
  reads_freed : ℕ → Freed
  unfinished : Freed

-- The walk back of phDal4Uwb_msgctl, which frees the item behind each one, and the first at the end.
unfoldable pub free_back : ℕ → Heap → ℕ → Freed
free_back zero h p = unfinished
free_back (suc n) h p = elim (h p) [
  | none ↦ reads_freed p
  | some i ↦
      let back : Freed = elim (h i.prev) [
        | none ↦ reads_freed i.prev
        | some j ↦
            let freed = write h j.next none in
            free_back n (write freed i.prev (some (record j { next = 0 }))) i.prev
      ] in
      if i.prev == 0 then released (write h p none) else back
]

-- The walk to the last item, and back from it.
unfoldable pub free_items : ℕ → ℕ → Heap → ℕ → Freed
unfolding free_back
free_items n zero h p = unfinished
free_items n (suc m) h p = elim (h p) [
  | none ↦ reads_freed p
  | some i ↦
      let rest : Freed = free_items n m h i.next in if i.next == 0 then free_back n h p else rest
]

-- phDal4Uwb_msgctl on a queue that is there.
unfoldable pub msgctl : ℕ → Queue → Freed
unfolding free_items
msgctl n q =
    let freed : Freed = free_items n n q.heap q.items in
    if q.items == 0 then released q.heap else freed
