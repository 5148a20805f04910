-- ===== src/TcpServer/Listener.antt =====
-- The life of the server in src/network/tcp_server.cpp: `setup_listener`, `start`, `stop` and
-- `run_event_loop`, with the three descriptors of the server itself.
pub mod Released
use cpp_chat.Base.{
  ℕ, Bool, true, false, not, List, [], ◌∷◌, Option, none, some, ◌==◌, filterb, if◌then◌else◌,
  is_some,
}
use cpp_chat.TcpServer.Connections.{TcpServer, Answer}
use cpp_chat.TcpServer.Loop.{ReadyEvent, loop_round, stop}

-- What the system calls of `setup_listener` answer, in their order. A descriptor that is `none`, and
-- a flag that is false, stand for a call that fails.
pub record SetupAnswers : Type 0 where
  pub socket : Option ℕ
  pub is_option_set : Bool
  pub is_host : Bool
  pub is_bound : Bool
  pub is_listening : Bool
  pub are_flags_read : Bool
  pub are_flags_set : Bool
  pub epoll : Option ℕ
  pub eventfd : Option ℕ
  pub is_wake_added : Bool
  pub is_listener_added : Bool

-- The private fields of the descriptors, where -1 is `none`, and the descriptors that are open.
pub record Descriptors : Type 0 where
  pub listen_fd : Option ℕ
  pub epoll_fd : Option ℕ
  pub wake_fd : Option ℕ
  pub open_fds : List ℕ

abbrev pub opened : Option ℕ → List ℕ → List ℕ
opened none open_fds = open_fds
opened (some fd) open_fds = fd ∷ open_fds

abbrev pub closed : Option ℕ → List ℕ → List ℕ
closed none open_fds = open_fds
closed (some fd) open_fds = filterb (λ x. not (x == fd)) open_fds

unfoldable pub set_non_blocking : Bool → Bool → Bool
set_non_blocking are_flags_read are_flags_set =
    if not are_flags_read then false else if not are_flags_set then false else true

-- `setup_listener` from `epoll_create1` on.
unfoldable pub setup_epoll : SetupAnswers → Descriptors → Descriptors × Bool
setup_epoll a d =
    let polled = record d { epoll_fd = a.epoll; open_fds = opened a.epoll d.open_fds } in
    let waking = record polled {
      wake_fd = a.eventfd;
      open_fds = opened a.eventfd polled.open_fds;
    } in
    if not (is_some a.epoll)
    then (polled, false)
    else if not (is_some a.eventfd)
    then (waking, false)
    else if not a.is_wake_added
    then (waking, false)
    else if not a.is_listener_added
    then (waking, false)
    else (waking, true)

unfoldable pub setup_listener : SetupAnswers → Descriptors → Descriptors × Bool
unfolding setup_epoll set_non_blocking
setup_listener a d =
    let bound = record d { listen_fd = a.socket; open_fds = opened a.socket d.open_fds } in
    if not (is_some a.socket)
    then (bound, false)
    else if not a.is_option_set
    then (bound, false)
    else if not a.is_host
    then (bound, false)
    else if not a.is_bound
    then (bound, false)
    else if not a.is_listening
    then (bound, false)
    else if not (set_non_blocking a.are_flags_read a.are_flags_set)
    then (bound, false)
    else setup_epoll a bound

-- The end of `stop`.
unfoldable pub close_descriptors : Descriptors → Descriptors
close_descriptors d = record {
  listen_fd = none;
  epoll_fd = none;
  wake_fd = none;
  open_fds = closed d.listen_fd (closed d.wake_fd (closed d.epoll_fd d.open_fds));
}

-- What `epoll_wait` answers: EINTR, another error, or the events that are ready, with the time and
-- what the writes of that round are answered.
pub data Wait : Type 0 where
  interrupted : Wait
  failed : Wait
  woken_by : List ReadyEvent → ℕ → (ℕ → Answer) → Wait

-- The loop, as long as `running_` is set.
unfoldable pub run_event_loop : TcpServer → List Wait → TcpServer × Bool
unfolding loop_round
run_event_loop s [] = (s, true)
run_event_loop s (interrupted ∷ waits) = run_event_loop s waits
run_event_loop s (failed ∷ waits) = (s, false)
run_event_loop s (woken_by events now answers ∷ waits) =
    run_event_loop (loop_round s events now answers) waits

unfoldable pub start : SetupAnswers → List Wait → Descriptors × TcpServer → Descriptors × TcpServer
unfolding setup_listener close_descriptors run_event_loop stop
start a waits (d, s) =
    let (d', is_set_up) = setup_listener a d in
    let (s', is_done) = run_event_loop (record s { running = true }) waits in
    if not is_set_up then (close_descriptors d', stop s) else (close_descriptors d', stop s')
