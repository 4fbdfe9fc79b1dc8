-- ===== src/Pelikan/Tasks.antt =====
-- The task structures of pelikanOS/include/scheduler.h, and the linked queues that
-- pelikanOS/src/scheduler.c and pelikanOS/src/mutex_lock.c thread through them.
pub mod Chain
pub mod Queue
use systems_programming_proj.Prelude.{ℕ, Bool, true, false, ◌==◌, if◌then◌else◌, ◌≡◌, refl}

pub data TaskState : Type 0 where
  blocked ready running dead : TaskState

pub record Task : Type 0 where
  pub esp : ℕ
  pub eip : ℕ
  pub page_directory : ℕ
  pub state : TaskState
  pub stack_base : ℕ
  pub id : ℕ
  pub next : ℕ
  pub prev : ℕ
  pub ready_next : ℕ
  pub mutex_wait_next : ℕ
  pub dead_next : ℕ

-- The memory that holds the tasks, by address; address 0 is the null pointer.
abbrev pub Store : Type 0
Store = ℕ → Task

unfoldable pub update : ℕ → (Task → Task) → Store → Store
update p f tasks q = if p == q then f (tasks q) else tasks q

-- One of the link fields.
pub record Link : Type 0 where
  pub get : Task → ℕ
  pub put : ℕ → Task → Task
  pub get-put : (x : ℕ) (t : Task) → get (put x t) ≡ x

abbrev pub ready_link : Link
ready_link = record {
  get = λ t. t.ready_next;
  put = λ x t. record t { ready_next = x };
  get-put = λ x t. refl;
}

abbrev pub wait_link : Link
wait_link = record {
  get = λ t. t.mutex_wait_next;
  put = λ x t. record t { mutex_wait_next = x };
  get-put = λ x t. refl;
}

abbrev pub dead_link : Link
dead_link = record {
  get = λ t. t.dead_next;
  put = λ x t. record t { dead_next = x };
  get-put = λ x t. refl;
}

-- The head and the tail of a queue.
pub record Ends : Type 0 where
  pub head : ℕ
  pub tail : ℕ

-- `isempty_ready_queue`, `isempty_dead_queue` and `isempty_wait_queue`.
abbrev pub isempty : Ends → Bool
isempty q = q.head == 0

-- `add_task_to_..._queue`, which differ only in the field that links the tasks.
unfoldable pub add_task : Link → ℕ → Ends → Store → Ends × Store
add_task link task q tasks =
    let cleared = update task (link.put 0) tasks in
    if isempty q
    then (record { head = task; tail = task }, cleared)
    else (record { head = q.head; tail = task }, update q.tail (link.put task) cleared)

-- `remove_task_from_..._queue`: the task, or 0.
unfoldable pub remove_task : Link → Ends → Store → ℕ × (Ends × Store)
remove_task link q tasks =
    let task = q.head in
    let rest = link.get (tasks task) in
    let ends : Ends =
      if rest == 0 then record { head = 0; tail = 0 } else record { head = rest; tail = q.tail } in
    if isempty q then (0, (q, tasks)) else (task, (ends, update task (link.put 0) tasks))

abbrev pub add_task_to_ready_queue : ℕ → Ends → Store → Ends × Store
add_task_to_ready_queue = add_task ready_link

abbrev pub remove_task_from_ready_queue : Ends → Store → ℕ × (Ends × Store)
remove_task_from_ready_queue = remove_task ready_link

abbrev pub add_task_to_dead_queue : ℕ → Ends → Store → Ends × Store
add_task_to_dead_queue = add_task dead_link

abbrev pub remove_task_from_dead_queue : Ends → Store → ℕ × (Ends × Store)
remove_task_from_dead_queue = remove_task dead_link

abbrev pub add_task_to_mutex_queue : ℕ → Ends → Store → Ends × Store
add_task_to_mutex_queue = add_task wait_link

abbrev pub remove_task_from_mutex_queue : Ends → Store → ℕ × (Ends × Store)
remove_task_from_mutex_queue = remove_task wait_link
