-- ===== src/Tests/Starts.antt =====
-- A server that is started when the descriptor 7 is free, and whose set-up fails.
use cpp_chat.Base.{◌≡◌, refl, true, false, [], ◌∷◌, some}
use cpp_chat.Base.Sets.{contains}
use cpp_chat.ServerConfig.{default_config}
use cpp_chat.TcpServer.Loop.Linked.{new_server}
use cpp_chat.TcpServer.Listener.{SetupAnswers, interrupted, failed, start}
use cpp_chat.TcpServer.Listener.Released.{no_descriptors, IsStopped, start-IsStopped}
use cpp_chat.Tests.Chats.{new_service}
use cpp_chat.Tests.Servers.{idle_pool}

-- `epoll_ctl` of the listening descriptor fails.
abbrev late_failure : SetupAnswers
late_failure = record {
  socket = some 7;
  is_option_set = true;
  is_host = true;
  is_bound = true;
  is_listening = true;
  are_flags_read = true;
  are_flags_set = true;
  epoll = some 8;
  eventfd = some 9;
  is_wake_added = true;
  is_listener_added = false;
}

start-IsStopped_example :
    let (d', s') =
      start late_failure
        (interrupted ∷ failed ∷ [])
        (no_descriptors (3 ∷ 4 ∷ []), new_server default_config new_service idle_pool) in
    (d' ≡ no_descriptors (3 ∷ 4 ∷ [])) × IsStopped s'
unfolding contains
start-IsStopped_example =
    start-IsStopped late_failure (interrupted ∷ failed ∷ [])
      (new_server default_config new_service idle_pool) (3 ∷ 4 ∷ []) refl refl refl
