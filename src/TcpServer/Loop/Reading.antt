-- ===== src/TcpServer/Loop/Reading.antt =====
-- Accepting connections and reading from one keep the maps linked and the buffers within their limits.
use cpp_chat.Base.{
  ℕ, ◌≤◌, ◌≡◌, ◌≢◌, refl, sym, ap, subst, ◌∙◌, true, false, Bool, Bool-cases, Option-cases, inl,
  inr, List, [], ◌∷◌, none, some, arith, Bytes, is_empty, length, ltb, if◌then◌else◌, nat_eq,
}
use cpp_chat.Base.Maps.{lookup, insert, insert_self, insert_other}
use cpp_chat.PacketCodec.{
  RecvPacketStatus, ok, would_block, closed, protocol_error, io_error, RecvPacketResult, Recvs,
  recv_packets_et, max_packet_payload_size,
}
use cpp_chat.ThreadPool.{ThreadPool, enqueue}
use cpp_chat.TcpServer.Connections.{
  ConnectionState, Batch, TcpServer, find_connection_by_fd, close_client,
}
use cpp_chat.TcpServer.Connections.Links.{
  Links, IsLinked, IsWithinLimits, Links-replace, Links-insert,
}
use cpp_chat.TcpServer.Connections.Changes.{close_client_changed, found_by_fd}
use cpp_chat.TcpServer.Loop.{
  Accepted, accept_one, accept_connections, after_enqueue, submit_packets, after_recv, read_found,
  handle_client_read,
}

-- The kernel answers `accept4` with no descriptor that is in use.
unfoldable pub AreNew : TcpServer → List Accepted → Type 0
unfolding accept_one
AreNew s [] = Unit
AreNew s (accepted ∷ more) =
    (lookup accepted.fd s.connection_by_fd ≡ none) × AreNew (accept_one s accepted) more

accept_one-IsLinked :
    (s : TcpServer) (accepted : Accepted)
    → lookup accepted.fd s.connection_by_fd ≡ none
    → IsLinked s
    → IsLinked (accept_one s accepted)
unfolding accept_one
accept_one-IsLinked s accepted free v = elim (Bool-cases accepted.added) [
  | inl e ↦ rw e (
      Links-insert s.config s.connection_by_fd s.connections s.next_connection_id s.next_generation
        v _ refl refl free
        (record {
          read_bounded = omega arith;
          write_bounded = omega arith;
          closing_waits = λ closing. absurd (cc);
        }))
  | inr e ↦ rw e (record {
    indexed = v.indexed;
    sound = λ id c h.
        let w = v.sound id c h in
        record {
          numbered = w.numbered;
          found_by_fd = w.found_by_fd;
          id_used = let u = w.id_used in omega arith;
          generation_used = let u = w.generation_used in omega arith;
          within_limits = w.within_limits;
        };
  })
]

pub accept_connections-IsLinked :
    (s : TcpServer) (accepts : List Accepted)
    → AreNew s accepts
    → IsLinked s
    → IsLinked (accept_connections s accepts)
unfolding AreNew accept_connections
accept_connections-IsLinked s [] h v = v
accept_connections-IsLinked s (accepted ∷ more) (free, h) v =
    accept_connections-IsLinked (accept_one s accepted) more h
      (accept_one-IsLinked s accepted free v)

-- A connection that was found for a descriptor and has read into its buffer.
module _ (s : TcpServer) (id fd now : ℕ) (c : ConnectionState) (read_buffer : Bytes)
    (v : IsLinked s) (e : lookup id s.connections ≡ some c)
    (h : lookup fd s.connection_by_fd ≡ some id) where
  refused-IsLinked :
      (thread_pool : ThreadPool Batch) (m : List (ℕ × ConnectionState)) (c' : ConnectionState)
      → lookup id m ≡ some c'
      → c'.fd ≡ c.fd
      → ((j : ℕ) → id ≢ j → lookup j m ≡ lookup j s.connections)
      → IsLinked (close_client (record s { thread_pool = thread_pool; connections = m }) fd)
  refused-IsLinked thread_pool m c' is same others =
      close_client_changed (record s { thread_pool = thread_pool; connections = m }) s.connections
        id fd c c' (record { links = v; was = e; is = is; fd = same; others = others }) h

  numbered : c.connection_id ≡ id
  numbered = (v.sound id c e).numbered

  -- The connection with its new read buffer, and then with the time of this read.
  has_read : ConnectionState
  has_read = record c { read_buffer = read_buffer }

  is_active : ConnectionState
  is_active = record c { read_buffer = read_buffer; last_active_at = now }

  inserted :
      (c' : ConnectionState) (m : List (ℕ × ConnectionState))
      → lookup id (insert c.connection_id c' m) ≡ some c'
  inserted c' m = ap (λ k. lookup id (insert k c' m)) numbered ∙ insert_self id c' m

  inserted_other :
      (c' : ConnectionState) (m : List (ℕ × ConnectionState)) (j : ℕ)
      → id ≢ j
      → lookup j (insert c.connection_id c' m) ≡ lookup j m
  inserted_other c' m j differs =
      ap (λ k. lookup j (insert k c' m)) numbered ∙ insert_other id j c' m differs

  once : List (ℕ × ConnectionState)
  once = insert c.connection_id has_read s.connections

  twice : List (ℕ × ConnectionState)
  twice = insert c.connection_id is_active once

  close_read-IsLinked : IsLinked (close_client (record s { connections = once }) fd)
  unfolding once has_read
  close_read-IsLinked =
      refused-IsLinked s.thread_pool once has_read (inserted has_read s.connections) refl
        (inserted_other has_read s.connections)

  module _ (bounded : length read_buffer ≤ s.config.max_read_buffer_bytes) where
    limits : IsWithinLimits s.config has_read
    unfolding has_read
    limits =
        let w = (v.sound id c e).within_limits in
        record {
          read_bounded = bounded;
          write_bounded = w.write_bounded;
          closing_waits = w.closing_waits;
        }

    once-IsLinked : Links s.config s.connection_by_fd once s.next_connection_id s.next_generation
    unfolding once has_read
    once-IsLinked =
        subst
          (λ k.
            Links s.config s.connection_by_fd (insert k has_read s.connections) s.next_connection_id
              s.next_generation)
          (sym numbered)
          (Links-replace s.config s.connection_by_fd s.connections s.next_connection_id
            s.next_generation v id c has_read e refl refl refl limits)

    twice-IsLinked : Links s.config s.connection_by_fd twice s.next_connection_id s.next_generation
    unfolding twice is_active has_read once
    twice-IsLinked =
        subst
          (λ k.
            Links s.config s.connection_by_fd (insert k is_active once) s.next_connection_id
              s.next_generation)
          (sym numbered)
          (Links-replace s.config s.connection_by_fd once s.next_connection_id s.next_generation
            once-IsLinked id has_read is_active (inserted has_read s.connections) refl refl refl
            (record {
              read_bounded = limits.read_bounded;
              write_bounded = limits.write_bounded;
              closing_waits = limits.closing_waits;
            }))

    after_enqueue-IsLinked :
        (r : ThreadPool Batch × Bool)
        → IsLinked (after_enqueue (record s { connections = twice }) fd r)
    unfolding after_enqueue twice once is_active
    after_enqueue-IsLinked (thread_pool, true) = twice-IsLinked
    after_enqueue-IsLinked (thread_pool, false) =
        refused-IsLinked thread_pool twice is_active (inserted is_active once) refl (λ j differs.
          inserted_other is_active once j differs ∙ inserted_other has_read s.connections j differs)

    submit_packets-IsLinked :
        (packets : List Bytes)
        → IsLinked (submit_packets (record s { connections = once }) fd has_read packets now)
    unfolding submit_packets has_read once
    submit_packets-IsLinked packets = elim (Bool-cases (is_empty packets)) [
      | inl none_read ↦ rw none_read once-IsLinked
      | inr some_read ↦ rw some_read (
          unfold twice is_active in
          after_enqueue-IsLinked (
            enqueue s.thread_pool (record {
              connection_id = c.connection_id;
              generation = c.generation;
              packets = packets;
            })))
    ]

  submitted-IsLinked :
      (packets : List Bytes) (overflows : Bool)
      → ltb s.config.max_read_buffer_bytes (length read_buffer) ≡ overflows
      → IsLinked (
          if overflows
          then close_client (record s { connections = once }) fd
          else submit_packets (record s { connections = once }) fd has_read packets now)
  submitted-IsLinked packets true e' = close_read-IsLinked
  submitted-IsLinked packets false e' = submit_packets-IsLinked (ground arith) packets

  after_recv-cases :
      (result : RecvPacketResult) (status : RecvPacketStatus)
      → IsLinked (elim status [
        | closed ↦ close_client (record s { connections = once }) fd
        | protocol_error ↦ close_client (record s { connections = once }) fd
        | io_error ↦ close_client (record s { connections = once }) fd
        | _ ↦
            if ltb s.config.max_read_buffer_bytes (length read_buffer)
            then close_client (record s { connections = once }) fd
            else submit_packets (record s { connections = once }) fd has_read result.packets now
      ])
  after_recv-cases result closed = close_read-IsLinked
  after_recv-cases result protocol_error = close_read-IsLinked
  after_recv-cases result io_error = close_read-IsLinked
  after_recv-cases result ok = submitted-IsLinked result.packets _ refl
  after_recv-cases result would_block = submitted-IsLinked result.packets _ refl

  after_recv-IsLinked : (result : RecvPacketResult) → IsLinked (after_recv s fd has_read result now)
  unfolding after_recv has_read once
  after_recv-IsLinked result = after_recv-cases result result.status

if_closing :
    (s s' : TcpServer) (closing : Bool)
    → IsLinked s'
    → IsLinked s
    → IsLinked (if closing then s else s')
if_closing s s' true v' v = v
if_closing s s' false v' v = v'

read_found-IsLinked :
    (s : TcpServer) (id fd now : ℕ) (recvs : Recvs) (c : ConnectionState)
    → IsLinked s
    → lookup id s.connections ≡ some c
    → lookup fd s.connection_by_fd ≡ some id
    → IsLinked (read_found s fd recvs now (some c))
unfolding read_found has_read
read_found-IsLinked s id fd now recvs c v e h =
    let r = recv_packets_et recvs c.read_buffer max_packet_payload_size in
    if_closing s _ c.closing (after_recv-IsLinked s id fd now c r.1 v e h r.0) v

pub handle_client_read-IsLinked :
    (s : TcpServer) (fd : ℕ) (recvs : Recvs) (now : ℕ)
    → IsLinked s
    → IsLinked (handle_client_read s fd recvs now)
unfolding handle_client_read read_found
handle_client_read-IsLinked s fd recvs now v = elim (Option-cases (find_connection_by_fd s fd)) [
  | inl e ↦ rw e v
  | inr (c, e) ↦
      let (id, h, e') = found_by_fd s fd c e in
      rw e (read_found-IsLinked s id fd now recvs c v e' h)
]
