-- ===== src/TcpServer/Loop/Heartbeat.antt =====
-- Which connections are closed when many are.
use cpp_chat.Base.{
  sym, Bool-cases, inl, inr, ◌≤◌, ◌+◌, ◌↔◌, ℕ, ◌≡◌, refl, ap, ◌∙◌, false, Bool, List, [], ◌∷◌,
  Option, none, some, arith, if◌then◌else◌, nat_eq,
}
use cpp_chat.Base.Maps.{lookup, IsMap}
use cpp_chat.Base.Sets.{contains}
use cpp_chat.TcpServer.Connections.{ConnectionState, TcpServer, close_connection}
use cpp_chat.TcpServer.Connections.Changes.{lookup-close_connection}
use cpp_chat.TcpServer.Loop.{is_timed_out, timed_out, close_all, check_heartbeats, keys, stop}

lookup-close_all :
    (s : TcpServer) (ids : List ℕ) (j : ℕ)
    → lookup j (close_all s ids).connections
      ≡ (if contains j ids then none else lookup j s.connections)
unfolding close_all contains
lookup-close_all s [] j = refl
lookup-close_all s (id ∷ ids) j =
    ground (arith, lookup-close_all (close_connection s id) ids j, lookup-close_connection s id j)

-- The connection, unless it has been idle for too long.
abbrev unless_idle : ℕ → ℕ → Option ConnectionState → Option ConnectionState
unless_idle now timeout none = none
unless_idle now timeout (some c) = if is_timed_out now timeout c then none else some c

abbrev is_idle : ℕ → ℕ → Option ConnectionState → Bool
is_idle now timeout none = false
is_idle now timeout (some c) = is_timed_out now timeout c

contains-timed_out :
    (now timeout : ℕ) (connections : List (ℕ × ConnectionState)) (j : ℕ)
    → IsMap connections
    → contains j (timed_out now timeout connections) ≡ is_idle now timeout (lookup j connections)
unfolding timed_out contains lookup
contains-timed_out now timeout [] j h = refl
contains-timed_out now timeout ((id, c) ∷ connections) j h =
    ground (arith, contains-timed_out now timeout connections j, nat_eq.beq_iff id j)

unless_is_idle :
    (now timeout : ℕ) (o : Option ConnectionState)
    → (if is_idle now timeout o then none else o) ≡ unless_idle now timeout o
unless_is_idle now timeout none = refl
unless_is_idle now timeout (some c) = refl

-- What is left of a connection that is looked up: it was there, and has not been idle for too long.
unless_idle_iff :
    (now timeout : ℕ) (o : Option ConnectionState) (c : ConnectionState)
    → (unless_idle now timeout o ≡ some c) ↔ (o ≡ some c) × (now ≤ c.last_active_at + timeout)
unless_idle_iff now timeout none c = (λ h. absurd (cc), λ h. h.0)
unless_idle_iff now timeout (some d) c = elim (Bool-cases (is_timed_out now timeout d)) [
  | inl k ↦ (
    λ h. let gone : none ≡ some c = rw k at h in absurd (cc),
    λ (e, recent).
        let same : d ≡ c = cc in
        let active = ap (λ x. x.last_active_at) same in absurd (ground (arith, k, active, recent)),
  )
  | inr k ↦ (
    λ h.
        let there : some d ≡ some c = rw k at h in
        let same : d ≡ c = cc in
        let active = ap (λ x. x.last_active_at) same in (there, ground (arith, k, active)),
    λ (e, recent). rw k e,
  )
]

-- A heartbeat check closes the connections that were last active longer ago than the timeout, and no
-- other one: those that are left are those that were there and were active within the timeout, and
-- they are unchanged.
pub check_heartbeats-idle :
    (s : TcpServer) (now j : ℕ) (c : ConnectionState)
    → IsMap s.connections
    → (lookup j (check_heartbeats s now).connections ≡ some c)
      ↔ (lookup j s.connections ≡ some c)
        × (now ≤ c.last_active_at + s.config.heartbeat_timeout_seconds)
unfolding check_heartbeats
check_heartbeats-idle s now j c h =
    let timeout = s.config.heartbeat_timeout_seconds in
    let left =
      lookup-close_all s (timed_out now timeout s.connections) j
      ∙ (ap (λ b. if b then none else lookup j s.connections)
            (contains-timed_out now timeout s.connections j h)
          ∙ unless_is_idle now timeout (lookup j s.connections)) in
    let iff = unless_idle_iff now timeout (lookup j s.connections) c in
    (λ e. iff.0 (sym left ∙ e), λ e. left ∙ iff.1 e)

contains-keys :
    (connections : List (ℕ × ConnectionState)) (j : ℕ)
    → (if contains j (keys connections) then none else lookup j connections) ≡ none
unfolding keys contains lookup
contains-keys [] j = refl
contains-keys ((id, c) ∷ connections) j = ground (arith, contains-keys connections j)

-- When the server has stopped, no connection is left.
pub stop_closes : (s : TcpServer) (j : ℕ) → lookup j (stop s).connections ≡ none
unfolding stop
stop_closes s j =
    lookup-close_all (record s { running = false }) (keys s.connections) j
    ∙ contains-keys s.connections j
