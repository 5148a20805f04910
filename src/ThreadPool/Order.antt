-- ===== src/ThreadPool/Order.antt =====
-- No accepted task is lost, and tasks start in the order in which they were accepted.
use cpp_chat.Base.{
  ℕ, ◌≤◌, ◌<◌, ◌≡◌, refl, sym, ap, ◌∙◌, true, false, List, [], ◌∷◌, ◌++◌, arith, append_assoc,
  length, length-append,
}
use cpp_chat.ThreadPool.{ThreadPool, new_pool, enqueue, runs, turn_of, worker_turn, shut_down}

-- A pool, the tasks that `enqueue` has taken, and those that a worker has started.
pub data Reaches {ℓ} {Task : Type ℓ} (size : ℕ)
    : ThreadPool Task → List Task → List Task → Type ℓ where
  made : Reaches size (new_pool size) [] []
  accepted :
      {p p' : ThreadPool Task} {taken started : List Task} (task : Task)
      → Reaches size p taken started
      → enqueue p task ≡ (p', true)
      → Reaches size p' (taken ++ task ∷ []) started
  refused :
      {p p' : ThreadPool Task} {taken started : List Task} (task : Task)
      → Reaches size p taken started
      → enqueue p task ≡ (p', false)
      → Reaches size p' taken started
  worked :
      {p p' : ThreadPool Task} {taken started : List Task} (task : Task)
      → Reaches size p taken started
      → worker_turn p ≡ runs task p'
      → Reaches size p' taken (started ++ task ∷ [])
  stopped :
      {p : ThreadPool Task} {taken started : List Task}
      → Reaches size p taken started
      → Reaches size (shut_down p) taken started

enqueue-accepted {ℓ} :
    {Task : Type ℓ} (p p' : ThreadPool Task) (task : Task)
    → enqueue p task ≡ (p', true)
    → (p'.tasks ≡ p.tasks ++ task ∷ [])
      × (p'.max_queue_size ≡ p.max_queue_size)
      × (length p.tasks < p.max_queue_size)
unfolding enqueue
enqueue-accepted p p' task h = ground arith

enqueue-refused {ℓ} :
    {Task : Type ℓ} (p p' : ThreadPool Task) (task : Task)
    → enqueue p task ≡ (p', false)
    → (p'.tasks ≡ p.tasks) × (p'.max_queue_size ≡ p.max_queue_size)
unfolding enqueue
enqueue-refused p p' task h = ground arith

turn_of-runs {ℓ} :
    {Task : Type ℓ} (p p' : ThreadPool Task) (tasks : List Task) (task : Task)
    → turn_of p tasks ≡ runs task p'
    → (tasks ≡ task ∷ p'.tasks) × (p'.max_queue_size ≡ p.max_queue_size)
unfolding turn_of
turn_of-runs p p' [] task h = ground arith
turn_of-runs p p' (t ∷ tasks) task h = ground arith

-- In every run, the started tasks followed by the queued ones are the accepted ones in their order,
-- and the queue has at most as many tasks as it may have.
pub Reaches-tasks {ℓ} :
    {Task : Type ℓ} {size : ℕ} {p : ThreadPool Task} {taken started : List Task}
    → Reaches size p taken started
    → (started ++ p.tasks ≡ taken) × (length p.tasks ≤ p.max_queue_size)
unfolding shut_down new_pool
Reaches-tasks made = (refl, omega arith)
Reaches-tasks (accepted {p} {p'} {taken} {started} task r h) =
    let (same, small) = Reaches-tasks r in
    let (tasks, size, room) = enqueue-accepted p p' task h in
    (
      rw tasks (sym (append_assoc started p.tasks (task ∷ [])) ∙ ap (λ l. l ++ task ∷ []) same),
      rw (tasks, size) (omega (arith, length-append p.tasks (task ∷ []))),
    )
Reaches-tasks (refused {p} {p'} {taken} {started} task r h) =
    let (same, small) = Reaches-tasks r in
    let (tasks, size) = enqueue-refused p p' task h in (rw tasks same, rw (tasks, size) small)
Reaches-tasks (worked {p} {p'} {taken} {started} task r h) =
    let (same, small) = Reaches-tasks r in
    let (tasks, size) = turn_of-runs p p' p.tasks task (unfold worker_turn in h) in
    let old : length (task ∷ p'.tasks) ≤ p.max_queue_size = rw tasks at small in
    (
      append_assoc started (task ∷ []) p'.tasks ∙ ap (◌++◌ started) (sym tasks) ∙ same,
      rw size (omega arith),
    )
Reaches-tasks (stopped r) = Reaches-tasks r
