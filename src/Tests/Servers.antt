-- ===== src/Tests/Servers.antt =====
-- A server with one client, to whom two packets are sent.
use cpp_chat.Base.{
  ◌↔◌, ◌≤◌, ◌+◌, ◌≡◌, refl, true, false, List, [], ◌∷◌, ◌++◌, none, some, arith, nat_eq,
}
use cpp_chat.Base.Maps.{lookup}
use cpp_chat.PacketCodec.{accepted, again}
use cpp_chat.ThreadPool.{ThreadPool}
use cpp_chat.ServerConfig.{default_config}
use cpp_chat.TcpServer.Connections.{ConnectionState, Batch, TcpServer, Answer, Sending}
use cpp_chat.TcpServer.Connections.Links.{IsLinked}
use cpp_chat.TcpServer.Connections.Order.{
  Operation, send, flush, IsOrdered, AreAnswered, run, packets_of, run-IsOrdered,
}
use cpp_chat.TcpServer.Loop.{Accepted, connecting, handle_event, drain_responses, check_heartbeats}
use cpp_chat.TcpServer.Loop.Overloaded.{overloaded_closed}
use cpp_chat.Chat.Commands.{OutboundMessage}
use cpp_chat.TcpServer.Queues.{push_responses}
use cpp_chat.TcpServer.Loop.Drained.{no_response_for, no_close_for, drain_responses-other}
use cpp_chat.TcpServer.Loop.Heartbeat.{check_heartbeats-idle}
use cpp_chat.TcpServer.Loop.Reading.{AreNew}
use cpp_chat.TcpServer.Loop.Linked.{new_server, started, handled, IsPossible, Reaches-IsLinked}
use cpp_chat.Tests.Chats.{new_service, no_hash}

abbrev pub idle_pool : ThreadPool Batch
idle_pool = record { tasks = []; max_queue_size = 10; stop = false }

abbrev first_client : Accepted
first_client = record { fd = 5; added = true; now = 100 }

abbrev one_client : TcpServer
one_client =
    handle_event (new_server default_config new_service idle_pool) (connecting (first_client ∷ []))

is_new :
    IsPossible (new_server default_config new_service idle_pool) (connecting (first_client ∷ []))
unfolding IsPossible AreNew new_server lookup
is_new = (refl, tt)

Reaches-IsLinked_example : IsLinked one_client
Reaches-IsLinked_example =
    Reaches-IsLinked no_hash (handled (connecting (first_client ∷ [])) started is_new)

-- A connection that waits for `write_buffer` to be written and is then to be closed.
abbrev closing_client : ConnectionState
closing_client = record {
  connection_id = 1;
  fd = 5;
  read_buffer = [];
  write_buffer = 1 ∷ 2 ∷ 3 ∷ [];
  last_active_at = 100;
  closing = true;
  generation = 1;
}

abbrev closing_server : TcpServer
closing_server = record (new_server default_config new_service idle_pool) {
  connection_by_fd = (5, 1) ∷ [];
  connections = (1, closing_client) ∷ [];
  next_connection_id = 2;
  next_generation = 2;
}

closing_server-IsLinked : IsLinked closing_server
unfolding new_server lookup
closing_server-IsLinked = record {
  indexed = λ fd id h. (closing_client, ground arith, ground arith);
  sound = λ id c h. record {
    numbered = ground arith;
    found_by_fd = ground arith;
    id_used = ground arith;
    generation_used = ground arith;
    within_limits = record {
      read_bounded = ground arith;
      write_bounded = ground arith;
      closing_waits = λ _. ground arith;
    };
  };
}

-- The kernel takes all three bytes.
abbrev takes_three : Answer
takes_three = record { sends = accepted 2 again; mode_set = true }

check_heartbeats-idle_example :
    (lookup 1 (check_heartbeats closing_server 161).connections ≡ some closing_client)
    ↔ (lookup 1 closing_server.connections ≡ some closing_client) × (161 ≤ 100 + 60)
unfolding new_server lookup
check_heartbeats-idle_example = check_heartbeats-idle closing_server 161 1 closing_client (refl, tt)

-- A response to an older generation is left in the queue.
abbrev stale_server : TcpServer
stale_server = record closing_server {
  connections = (1, record closing_client { generation = 3 }) ∷ [];
  queues = record {
    response_queue =
        (record { connection_id = 1; generation = 2; payload = 1 ∷ []; close_after_send = true })
        ∷ [];
    close_queue = (record { connection_id = 1; generation = 2 }) ∷ [];
  };
}

drain_responses-other_example :
    lookup 1 (drain_responses stale_server (λ n. takes_three)).connections
    ≡ some (record closing_client { generation = 3 })
unfolding new_server lookup no_response_for no_close_for
drain_responses-other_example =
    drain_responses-other 1 (record closing_client { generation = 3 }) stale_server
      (λ n. takes_three) refl refl refl

abbrev open_client : ConnectionState
open_client = record closing_client { write_buffer = []; closing = false }

-- The first packet is taken in part, the second waits behind it, then all is taken.
abbrev two_packets : List Operation
two_packets =
    send (record { sends = accepted 2 again; mode_set = true }) (7 ∷ [])
    ∷ send takes_three (8 ∷ 9 ∷ [])
    ∷ flush (record { sends = accepted 7 again; mode_set = true })
    ∷ []

abbrev not_sent : Sending
not_sent = record { connection = open_client; success = true; wire = [] }

two_packets-AreAnswered : AreAnswered default_config two_packets not_sent
unfolding AreAnswered
two_packets-AreAnswered = omega arith

run-IsOrdered_example :
    IsOrdered ([] ++ packets_of two_packets) (run default_config two_packets not_sent)
run-IsOrdered_example =
    run-IsOrdered default_config two_packets [] not_sent two_packets-AreAnswered
      (record { rest = []; complete = refl; waiting = λ _. refl })

-- One response is already too many.
abbrev one_response : List OutboundMessage
one_response = (record { connection_id = 1; payload = 1 ∷ []; close_after_send = false }) ∷ []

overloaded_closed_example :
    let queues = push_responses 0 1 1 one_response closing_server.queues in
    let s' = drain_responses (record closing_server { queues = queues }) (λ n. takes_three) in
    (lookup 1 s'.connections ≡ none)
    × (s'.queues ≡ record { response_queue = []; close_queue = [] })
unfolding new_server lookup
overloaded_closed_example =
    overloaded_closed closing_server 0 1 closing_client one_response (λ n. takes_three) refl refl
