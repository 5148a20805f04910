-- ===== src/Tests/Pools.antt =====
-- A pool for one task, which a worker then starts.
use cpp_chat.Base.{ℕ, ◌≤◌, ◌≡◌, refl, false, [], ◌∷◌, ◌++◌, length}
use cpp_chat.ThreadPool.{ThreadPool, new_pool, enqueue, worker_turn}
use cpp_chat.ThreadPool.Order.{Reaches, made, accepted, worked, Reaches-tasks}

abbrev one_task : ThreadPool ℕ
one_task = record { tasks = 9 ∷ []; max_queue_size = 1; stop = false }

abbrev no_task : ThreadPool ℕ
no_task = record { tasks = []; max_queue_size = 1; stop = false }

one_started : Reaches 0 no_task (9 ∷ []) (9 ∷ [])
unfolding enqueue new_pool worker_turn
one_started = worked {p = one_task} 9 (accepted 9 made refl) refl

Reaches-tasks_example : ((9 ∷ []) ++ no_task.tasks ≡ 9 ∷ []) × (length no_task.tasks ≤ 1)
Reaches-tasks_example = Reaches-tasks one_started
