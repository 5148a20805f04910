-- ===== src/TcpServer/Connections/Changes.antt =====
-- Closing, and writing to a connection, keep the maps linked.
use cpp_chat.Base.{
  ℕ, ◌≡◌, ◌≢◌, refl, sym, ap, subst, ◌∙◌, true, false, Bool, Bool-cases, Option-cases, inl, inr,
  List, none, some, arith, is_empty, if◌then◌else◌, ◌==◌, nat_eq,
}
use cpp_chat.Base.Maps.{lookup, insert_self, insert_other, lookup-erase}
use cpp_chat.TcpServer.Connections.{
  ConnectionState, TcpServer, Answer, Sending, find_connection, find_by_id, find_connection_by_fd,
  close_found, close_if_found, close_connection, close_client_found, close_client, put_sending,
  keep_or_close, flush_found, flush_write_buffer, flush_connection,
}
use cpp_chat.TcpServer.Connections.Links.{Links, IsLinked, Links-erase, Links-replace}
use cpp_chat.TcpServer.Connections.Limits.{IsKept, flush_connection-IsKept}

-- The connection under `id` has been changed to `c'` since the maps were linked.
pub record IsChanged (s : TcpServer) (before : List (ℕ × ConnectionState)) (id : ℕ)
    (c c' : ConnectionState) : Type 0 where
  pub links : Links s.config s.connection_by_fd before s.next_connection_id s.next_generation
  pub was : lookup id before ≡ some c
  pub is : lookup id s.connections ≡ some c'
  pub fd : c'.fd ≡ c.fd
  pub others : (j : ℕ) → id ≢ j → lookup j s.connections ≡ lookup j before

pub close_changed :
    (s : TcpServer) (before : List (ℕ × ConnectionState)) (id : ℕ) (c c' : ConnectionState)
    → IsChanged s before id c c'
    → IsLinked (close_connection s id)
unfolding close_connection close_if_found find_connection close_found
close_changed s before id c c' v =
    rw (v.is, v.fd)
      (Links-erase s.config s.connection_by_fd before s.next_connection_id s.next_generation v.links
        id c s.connections v.was v.others)

pub close_client_changed :
    (s : TcpServer) (before : List (ℕ × ConnectionState)) (id fd : ℕ) (c c' : ConnectionState)
    → IsChanged s before id c c'
    → lookup fd s.connection_by_fd ≡ some id
    → IsLinked (close_client s fd)
unfolding close_client close_client_found
close_client_changed s before id fd c c' v e = rw e (close_changed s before id c c' v)

pub close_missing :
    (s : TcpServer) (id : ℕ) → lookup id s.connections ≡ none → close_connection s id ≡ s
unfolding close_connection close_if_found find_connection
close_missing s id e = rw e refl

-- Closing a connection takes what is under its id away, and nothing else.
pub lookup-close_connection :
    (s : TcpServer) (id j : ℕ)
    → lookup j (close_connection s id).connections
      ≡ (if id == j then none else lookup j s.connections)
unfolding close_connection close_if_found find_connection close_found
lookup-close_connection s id j = elim (Option-cases (lookup id s.connections)) [
  | inl e ↦ rw e (ground (arith, e))
  | inr (c, e) ↦ rw e (lookup-erase id j s.connections)
]

pub close_connection-IsLinked :
    (s : TcpServer) (id : ℕ) → IsLinked s → IsLinked (close_connection s id)
close_connection-IsLinked s id v = elim (Option-cases (lookup id s.connections)) [
  | inl e ↦ subst (λ x. IsLinked x) (sym (close_missing s id e)) v
  | inr (c, e) ↦
      close_changed s s.connections id c c
        (record { links = v; was = e; is = e; fd = refl; others = λ j h. refl })
]

pub close_client-IsLinked : (s : TcpServer) (fd : ℕ) → IsLinked s → IsLinked (close_client s fd)
unfolding close_client close_client_found
close_client-IsLinked s fd v = elim (Option-cases (lookup fd s.connection_by_fd)) [
  | inl e ↦ rw e v
  | inr (id, e) ↦ rw e (close_connection-IsLinked s id v)
]

-- What is found for a descriptor is found under an id.
pub found_by_fd :
    (s : TcpServer) (fd : ℕ) (c : ConnectionState)
    → find_connection_by_fd s fd ≡ some c
    → (id : ℕ) × (lookup fd s.connection_by_fd ≡ some id) × (lookup id s.connections ≡ some c)
unfolding find_connection_by_fd find_by_id find_connection
found_by_fd s fd c e = elim (Option-cases (lookup fd s.connection_by_fd)) [
  | inl h ↦ let missing : none ≡ some c = sym (ap (λ o. find_by_id s o) h) ∙ e in absurd (cc)
  | inr (id, h) ↦ (id, h, sym (ap (λ o. find_by_id s o) h) ∙ e)
]

module _ (s : TcpServer) (id : ℕ) (c : ConnectionState) (sending : Sending) (v : IsLinked s)
    (e : lookup id s.connections ≡ some c) (w : IsKept s.config c sending) where
  pub put_sending-IsChanged :
      IsChanged (put_sending s id sending) s.connections id c sending.connection
  unfolding put_sending
  put_sending-IsChanged = record {
    links = v;
    was = e;
    is = insert_self id sending.connection s.connections;
    fd = w.same.fd;
    others = λ j h. insert_other id j sending.connection s.connections h;
  }

  pub put_sending-IsLinked : sending.success ≡ true → IsLinked (put_sending s id sending)
  unfolding put_sending
  put_sending-IsLinked ok =
      Links-replace s.config s.connection_by_fd s.connections s.next_connection_id s.next_generation
        v id c sending.connection e w.same.connection_id w.same.fd w.same.generation (w.limits ok)

  pub close_put_sending-IsLinked : IsLinked (close_connection (put_sending s id sending) id)
  close_put_sending-IsLinked =
      close_changed (put_sending s id sending) s.connections id c sending.connection
        put_sending-IsChanged

  kept_or_closed :
      (success : Bool)
      → sending.success ≡ success
      → IsLinked (
          if success
          then put_sending s id sending
          else close_connection (put_sending s id sending) id)
  kept_or_closed true ok = put_sending-IsLinked ok
  kept_or_closed false failed = close_put_sending-IsLinked

  pub keep_or_close-IsLinked : IsLinked (keep_or_close s id sending)
  unfolding keep_or_close
  keep_or_close-IsLinked = kept_or_closed sending.success refl

flush_found-IsLinked :
    (s : TcpServer) (answer : Answer) (id : ℕ) (c : ConnectionState)
    → IsLinked s
    → lookup id s.connections ≡ some c
    → IsLinked (flush_found s answer (some c))
unfolding flush_found
flush_found-IsLinked s answer id c v e =
    let sound = v.sound id c e in
    let kept = flush_connection-IsKept s.config c sound.within_limits answer in
    elim (Bool-cases (is_empty c.write_buffer)) [
      | inl e' ↦ rw e' v
      | inr e' ↦ rw e' (
          subst (λ k. IsLinked (keep_or_close s k (flush_connection answer c))) (sym sound.numbered)
            (keep_or_close-IsLinked s id c (flush_connection answer c) v e kept))
    ]

pub flush_write_buffer-IsLinked :
    (s : TcpServer) (answer : Answer) (fd : ℕ)
    → IsLinked s
    → IsLinked (flush_write_buffer s answer fd)
unfolding flush_write_buffer flush_found
flush_write_buffer-IsLinked s answer fd v = elim (Option-cases (find_connection_by_fd s fd)) [
  | inl e ↦ rw e v
  | inr (c, e) ↦
      let (id, found, e') = found_by_fd s fd c e in rw e (flush_found-IsLinked s answer id c v e')
]
