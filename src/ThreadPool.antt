-- ===== src/ThreadPool.antt =====
-- src/core/thread_pool.cpp and include/cpp_chat/core/thread_pool.h. The mutex makes each of `enqueue`,
-- a worker's turn and the start of the destructor one step; a task is a value of any type.
pub mod Order
use cpp_chat.Base.{
  ℕ, Bool, true, false, ◌||◌, List, [], ◌∷◌, ◌++◌, leb, ◌==◌, if◌then◌else◌, length,
}

-- The private fields but for the workers and their condition variable.
pub record ThreadPool {ℓ} (Task : Type ℓ) : Type ℓ where
  pub tasks : List Task
  pub max_queue_size : ℕ
  pub stop : Bool

-- The constructor.
unfoldable pub new_pool {ℓ} : {Task : Type ℓ} → ℕ → ThreadPool Task
new_pool max_queue_size = record {
  tasks = [];
  max_queue_size = if max_queue_size == 0 then 1 else max_queue_size;
  stop = false;
}

unfoldable pub enqueue {ℓ} : {Task : Type ℓ} → ThreadPool Task → Task → ThreadPool Task × Bool
enqueue p task =
    if p.stop || leb p.max_queue_size (length p.tasks)
    then (p, false)
    else (record p { tasks = p.tasks ++ task ∷ [] }, true)

unfoldable pub queued_tasks {ℓ} : {Task : Type ℓ} → ThreadPool Task → ℕ
queued_tasks p = length p.tasks

-- A worker's turn: it sleeps on, it returns, or it runs a task that it has taken from the queue.
pub data Turn {ℓ} (Task : Type ℓ) : Type ℓ where
  waits : Turn Task
  returns : Turn Task
  runs : Task → ThreadPool Task → Turn Task

turn_of {ℓ} : {Task : Type ℓ} → ThreadPool Task → List Task → Turn Task
turn_of p [] = if p.stop then returns else waits
turn_of p (task ∷ tasks) = runs task (record p { tasks = tasks })

unfoldable pub worker_turn {ℓ} : {Task : Type ℓ} → ThreadPool Task → Turn Task
unfolding turn_of
worker_turn p = turn_of p p.tasks

-- The first block of the destructor.
unfoldable pub shut_down {ℓ} : {Task : Type ℓ} → ThreadPool Task → ThreadPool Task
shut_down p = record p { stop = true }
