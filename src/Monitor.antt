-- ===== src/Monitor.antt =====
-- uwb/halimpl/utils/phNxpUciHal_utils.cc: the list of the semaphores that are waited for, as linked
-- nodes on a heap, and the monitor that has it. What malloc and the calls of pthread return are
-- arguments. An access to a node that is not allocated gives none.
pub mod Chain
pub mod Search
pub mod Remove
pub mod Release
mod Tests
use device_xiaomi_odin.Prelude.{
  ℕ, zero, suc, ◌+◌, Bool, true, false, not, ◌&&◌, Option, none, some, List, [], ◌∷◌, ◌==◌,
  if◌then◌else◌,
}
use device_xiaomi_odin.Status.{success, failed, response_timeout}

-- listNode and listHead. A semaphore is its address.
pub record Node : Type 0 where
  pub sem : ℕ
  pub next : ℕ

abbrev pub Heap : Type 0
Heap = ℕ → Option Node

abbrev pub write : Heap → ℕ → Option Node → Heap
write h a v b = if b == a then v else h b

pub record SemList : Type 0 where
  pub heap : Heap
  pub first : ℕ

-- listInit, once its call has succeeded.
abbrev pub list_init : Heap → SemList
list_init h = record { heap = h; first = 0 }

-- The walk to the last node, on fuel.
unfoldable pub last_node : ℕ → Heap → ℕ → Option ℕ
last_node zero h p = none
last_node (suc n) h p = elim (h p) [
  | none ↦ none
  | some i ↦ let rest = last_node n h i.next in if i.next == 0 then some p else rest
]

-- A new node behind one that is there.
unfoldable pub link : ℕ → ℕ → ℕ → SemList → Option SemList
link p a d l = elim (l.heap p) [
  | none ↦ none
  | some i ↦
      let linked = write l.heap p (some (record i { next = a })) in
      some (record l { heap = write linked a (some (record { sem = d; next = 0 })) })
]

-- listAdd, with the node that malloc gives.
unfoldable pub list_add : ℕ → ℕ → ℕ → SemList → Option (Bool × SemList)
unfolding last_node link
list_add n a d l =
    let first : SemList = record {
      heap = write l.heap a (some (record { sem = d; next = 0 }));
      first = a;
    } in
    let behind : Option (Bool × SemList) = elim (last_node n l.heap l.first) [
      | none ↦ none
      | some p ↦ elim (link p a d l) [ none ↦ none | some l' ↦ some (true, l') ]
    ] in
    if a == 0 then some (false, l) else if l.first == 0 then some (true, first) else behind

-- The walk to the node in front of the one that is looked for, if there is one.
unfoldable pub find_before : ℕ → Heap → ℕ → ℕ → Option (Option ℕ)
find_before zero h p d = none
find_before (suc n) h p d = elim (h p) [
  | none ↦ none
  | some i ↦
      let rest = find_before n h i.next d in
      let further : Option (Option ℕ) = elim (h i.next) [
        | none ↦ none
        | some j ↦ if j.sem == d then some (some p) else rest
      ] in
      if i.next == 0 then some none else further
]

-- The node behind another is taken out and freed.
unfoldable pub unlink : ℕ → SemList → Option SemList
unlink p l = elim (l.heap p) [
  | none ↦ none
  | some i ↦ elim (l.heap i.next) [
    | none ↦ none
    | some j ↦
        let skipped = write l.heap p (some (record i { next = j.next })) in
        some (record l { heap = write skipped i.next none })
  ]
]

-- listRemove
unfoldable pub list_remove : ℕ → ℕ → SemList → Option (Bool × SemList)
unfolding find_before unlink
list_remove n d l =
    let later : Option (Bool × SemList) = elim (find_before n l.heap l.first d) [
      | none ↦ none
      | some none ↦ some (false, l)
      | some (some p) ↦ elim (unlink p l) [ none ↦ none | some l' ↦ some (true, l') ]
    ] in
    let removed : Option (Bool × SemList) = elim (l.heap l.first) [
      | none ↦ none
      | some i ↦
          let l' : SemList = record { heap = write l.heap l.first none; first = i.next } in
          if i.sem == d then some (true, l') else later
    ] in
    if l.first == 0 then some (false, l) else removed

-- listGetAndRemoveNext: the data of the first node, if there is one.
unfoldable pub list_get_and_remove_next : SemList → Option (Option ℕ × SemList)
list_get_and_remove_next l =
    let taken : Option (Option ℕ × SemList) = elim (l.heap l.first) [
      | none ↦ none
      | some i ↦ some (some i.sem, record { heap = write l.heap l.first none; first = i.next })
    ] in
    if l.first == 0 then some (none, l) else taken

-- The loop of listDestroy, on fuel.
unfoldable pub list_destroy : ℕ → SemList → Option SemList
unfolding list_get_and_remove_next
list_destroy zero l = none
list_destroy (suc n) l = elim (list_get_and_remove_next l) [
  | none ↦ none
  | some (none, l') ↦ some l'
  | some (some d, l') ↦ list_destroy n l'
]

-- phNxpUciHal_Sem_t, and the count of its semaphore.
pub record Sem : Type 0 where
  pub status : ℕ
  pub context : ℕ
  pub count : ℕ

abbrev pub Sems : Type 0
Sems = ℕ → Sem

abbrev pub write_sem : Sems → ℕ → Sem → Sems
write_sem s d v b = if b == d then v else s b

-- nxpucihal_monitor, and the semaphores.
pub record Monitor : Type 0 where
  pub sem_list : SemList
  pub sems : Sems

abbrev add_result : Monitor → Option (Bool × SemList) → Option Monitor
add_result m none = none
add_result m (some (added, l)) = some (record m { sem_list = l })

-- phNxpUciHal_init_cb_data: the result of listAdd is not looked at.
unfoldable pub init_cb_data : Bool → ℕ → ℕ → ℕ → ℕ → Monitor → Option (ℕ × Monitor)
unfolding list_add
init_cb_data works n a d context m =
    let fresh : Sem = record { status = failed; context = context; count = 0 } in
    let m' : Monitor = record m { sems = write_sem m.sems d fresh } in
    let added : Option (ℕ × Monitor) = elim (add_result m' (list_add n a d m.sem_list)) [
      | none ↦ none
      | some m'' ↦ some (success, m'')
    ] in
    if works then added else some (failed, m)

-- phNxpUciHal_cleanup_cb_data, whose results are not looked at either.
unfoldable pub cleanup_cb_data : ℕ → ℕ → Monitor → Option Monitor
unfolding list_remove
cleanup_cb_data n d m = add_result m (list_remove n d m.sem_list)

abbrev pub release : Sem → Sem
release s = record s { status = failed; count = s.count + 1 }

-- phNxpUciHal_releaseall_cb_data, on fuel.
unfoldable pub releaseall_cb_data : ℕ → Monitor → Option Monitor
unfolding list_get_and_remove_next
releaseall_cb_data zero m = none
releaseall_cb_data (suc n) m = elim (list_get_and_remove_next m.sem_list) [
  | none ↦ none
  | some (none, l) ↦ some (record m { sem_list = l })
  | some (some d, l) ↦
      releaseall_cb_data n (record { sem_list = l; sems = write_sem m.sems d (release (m.sems d)) })
]

-- What the calls of phNxpUciHal_init_monitor give: malloc, the two mutexes, and that of the list.
pub record Environment : Type 0 where
  pub allocated : Bool
  pub reentrance : Bool
  pub concurrency : Bool
  pub list : Bool

-- phNxpUciHal_init_monitor: the list of a monitor that is there is cleared, too. After a failure
-- there is no monitor.
unfoldable pub init_monitor : Environment → Heap → Option SemList → Option SemList
init_monitor e h m =
    let there : Bool = elim m [ none ↦ e.allocated | some l ↦ true ] in
    if there && e.reentrance && e.concurrency && e.list then some (list_init h) else none

-- The release of a monitor's list, with nothing left of it.
unfoldable pub destroyed : ℕ → Option Monitor → Option Sems
unfolding list_destroy
destroyed n none = none
destroyed n (some m) = elim (list_destroy n m.sem_list) [ none ↦ none | some l ↦ some m.sems ]

-- phNxpUciHal_cleanup_monitor of a monitor that is there: the semaphores that it leaves.
unfoldable pub cleanup_monitor : ℕ → Monitor → Option Sems
unfolding releaseall_cb_data destroyed
cleanup_monitor n m = destroyed n (releaseall_cb_data n m)

-- What a call of sem_timedwait_monotonic_np gives.
pub data Wait : Type 0 where
  posted interrupted timed_out other_error : Wait

-- The loop of phNxpUciHal_sem_timed_wait_sec over the calls, to the status.
unfoldable pub wait_loop : List Wait → Option ℕ
wait_loop [] = none
wait_loop (posted ∷ ws) = some success
wait_loop (interrupted ∷ ws) = wait_loop ws
wait_loop (timed_out ∷ ws) = some response_timeout
wait_loop (other_error ∷ ws) = some success

-- phNxpUciHal_sem_timed_wait_sec: whether there is a time, and the status that it sets.
unfoldable pub sem_timed_wait_sec : Bool → List Wait → Option ℕ
unfolding wait_loop
sem_timed_wait_sec clock ws = if clock then wait_loop ws else some failed
