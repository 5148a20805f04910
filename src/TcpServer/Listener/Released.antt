-- ===== src/TcpServer/Listener/Released.antt =====
-- What is open after `start`.
use cpp_chat.Base.{
  ℕ, ◌≡◌, refl, ap, ◌∙◌, true, false, not, List, [], ◌∷◌, Option, none, some, ◌==◌, filterb, arith,
  Bool-cases, Option-cases, inl, inr, nat_eq,
}
use cpp_chat.Base.Maps.{lookup}
use cpp_chat.Base.Sets.{contains}
use cpp_chat.TcpServer.Connections.{TcpServer, close_connection, find_connection}
use cpp_chat.TcpServer.Loop.{stop, close_all, keys}
use cpp_chat.TcpServer.Loop.Heartbeat.{stop_closes}
use cpp_chat.TcpServer.Listener.{
  SetupAnswers, Descriptors, opened, closed, setup_epoll, setup_listener, close_descriptors, Wait,
  run_event_loop, start,
}

-- The kernel gives out a descriptor that is not open.
abbrev pub IsNew : Option ℕ → List ℕ → Type 0
IsNew none open_fds = Unit
IsNew (some fd) open_fds = contains fd open_fds ≡ false

closed-same :
    (fd : ℕ) (open_fds : List ℕ)
    → contains fd open_fds ≡ false
    → filterb (λ x. not (x == fd)) open_fds ≡ open_fds
unfolding contains
closed-same fd [] h = refl
closed-same fd (x ∷ open_fds) h = ground (arith, closed-same fd open_fds)

closed-opened :
    (fd : Option ℕ) (open_fds : List ℕ)
    → IsNew fd open_fds
    → closed fd (opened fd open_fds) ≡ open_fds
closed-opened none open_fds h = refl
closed-opened (some fd) open_fds h = ground (arith, closed-same fd open_fds h)

-- All three are closed, and nothing else.
closed-all :
    (l e w : Option ℕ) (open_fds : List ℕ)
    → IsNew l open_fds
    → IsNew e open_fds
    → IsNew w open_fds
    → closed l (closed w (closed e (opened w (opened e (opened l open_fds))))) ≡ open_fds
closed-all none none none open_fds hl he hw = refl
closed-all (some l) none none open_fds hl he hw = closed-opened (some l) open_fds hl
closed-all none (some e) none open_fds hl he hw = closed-opened (some e) open_fds he
closed-all none none (some w) open_fds hl he hw = closed-opened (some w) open_fds hw
closed-all (some l) (some e) none open_fds hl he hw =
    ground (arith, closed-same l open_fds hl, closed-same e open_fds he)
closed-all (some l) none (some w) open_fds hl he hw =
    ground (arith, closed-same l open_fds hl, closed-same w open_fds hw)
closed-all none (some e) (some w) open_fds hl he hw =
    ground (arith, closed-same e open_fds he, closed-same w open_fds hw)
closed-all (some l) (some e) (some w) open_fds hl he hw =
    ground (arith, closed-same l open_fds hl, closed-same e open_fds he, closed-same w open_fds hw)

abbrev pub no_descriptors : List ℕ → Descriptors
no_descriptors open_fds = record {
  listen_fd = none;
  epoll_fd = none;
  wake_fd = none;
  open_fds = open_fds;
}

-- The descriptors that the set-up may leave, when it fails or not.
setup_epoll-closed :
    (a : SetupAnswers) (open_fds : List ℕ)
    → IsNew a.socket open_fds
    → IsNew a.epoll open_fds
    → IsNew a.eventfd open_fds
    → close_descriptors
        (setup_epoll a (record {
          listen_fd = a.socket;
          epoll_fd = none;
          wake_fd = none;
          open_fds = opened a.socket open_fds;
        })).0
      ≡ no_descriptors open_fds
unfolding setup_epoll close_descriptors
setup_epoll-closed a open_fds hl he hw =
    let whole = ap no_descriptors (closed-all a.socket a.epoll a.eventfd open_fds hl he hw) in
    let polled = ap no_descriptors (closed-all a.socket a.epoll none open_fds hl he tt) in
    ground (arith, whole, polled)

setup_listener-closed :
    (a : SetupAnswers) (open_fds : List ℕ)
    → IsNew a.socket open_fds
    → IsNew a.epoll open_fds
    → IsNew a.eventfd open_fds
    → close_descriptors (setup_listener a (no_descriptors open_fds)).0 ≡ no_descriptors open_fds
unfolding setup_listener close_descriptors
setup_listener-closed a open_fds hl he hw =
    let bound = ap no_descriptors (closed-opened a.socket open_fds hl) in
    ground (arith, bound, setup_epoll-closed a open_fds hl he hw)

close_connection-running : (s : TcpServer) (id : ℕ) → (close_connection s id).running ≡ s.running
unfolding close_connection find_connection
close_connection-running s id = elim (Option-cases (find_connection s id)) [
  | inl e ↦ rw e refl
  | inr (connection, e) ↦ rw e refl
]

close_all-running : (s : TcpServer) (ids : List ℕ) → (close_all s ids).running ≡ s.running
unfolding close_all
close_all-running s [] = refl
close_all-running s (id ∷ ids) =
    close_all-running (close_connection s id) ids ∙ close_connection-running s id

-- The server does not run and has no connection.
pub record IsStopped (s : TcpServer) : Type 0 where
  pub not_running : s.running ≡ false
  pub no_connections : (id : ℕ) → lookup id s.connections ≡ none

stop-IsStopped : (s : TcpServer) → IsStopped (stop s)
unfolding stop
stop-IsStopped s = record {
  not_running = close_all-running (record s { running = false }) (keys s.connections);
  no_connections = stop_closes s;
}

-- Whichever system call of the set-up fails, or if the loop ends: when `start` returns, the server
-- has closed each descriptor that it opened for itself and no other one, it does not run, and it has
-- no connection. The kernel is taken to give out only descriptors that are not open.
pub start-IsStopped :
    (a : SetupAnswers) (waits : List Wait) (s : TcpServer) (open_fds : List ℕ)
    → IsNew a.socket open_fds
    → IsNew a.epoll open_fds
    → IsNew a.eventfd open_fds
    → let (d', s') = start a waits (no_descriptors open_fds, s) in
      (d' ≡ no_descriptors open_fds) × IsStopped s'
unfolding start
start-IsStopped a waits s open_fds hl he hw =
    let closed_all = setup_listener-closed a open_fds hl he hw in
    let looped = run_event_loop (record s { running = true }) waits in
    elim (Bool-cases (setup_listener a (no_descriptors open_fds)).1) [
      | inl k ↦ rw k (closed_all, stop-IsStopped looped.0)
      | inr k ↦ rw k (closed_all, stop-IsStopped s)
    ]
