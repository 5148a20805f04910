-- ===== src/TcpServer/Connections/Links.antt =====
-- The two maps of the connections point at each other, and how each change of them keeps it so.
use cpp_chat.Base.{
  ℕ, ◌+◌, ◌≤◌, ◌<◌, ◌≡◌, ◌≢◌, sym, ap, subst, ◌∙◌, true, false, Bool-cases, inl, inr, List, Option,
  none, some, arith, length, is_empty, nat_eq,
}
use cpp_chat.Base.Maps.{
  lookup, insert, erase, erase-eq-some, insert-eq-some, insert_self, insert_other, erase_other,
}
use cpp_chat.ServerConfig.{ServerConfig}
use cpp_chat.TcpServer.Connections.{ConnectionState, TcpServer}

-- The buffers keep their limits, and a connection that only waits to be closed has bytes to send.
pub record IsWithinLimits (config : ServerConfig) (c : ConnectionState) : Type 0 where
  pub read_bounded : length c.read_buffer ≤ config.max_read_buffer_bytes
  pub write_bounded : length c.write_buffer ≤ config.max_write_buffer_bytes
  pub closing_waits : c.closing ≡ true → is_empty c.write_buffer ≡ false

-- What holds of the connection under an id.
pub record IsSound (config : ServerConfig) (by_fd : List (ℕ × ℕ)) (next_id next_generation id : ℕ)
    (c : ConnectionState) : Type 0 where
  pub numbered : c.connection_id ≡ id
  pub found_by_fd : lookup c.fd by_fd ≡ some id
  pub id_used : id < next_id
  pub generation_used : c.generation < next_generation
  pub within_limits : IsWithinLimits config c

-- What holds of the two maps.
pub record Links (config : ServerConfig) (by_fd : List (ℕ × ℕ))
    (connections : List (ℕ × ConnectionState)) (next_id next_generation : ℕ) : Type 0 where
  pub indexed :
      (fd id : ℕ)
      → lookup fd by_fd ≡ some id
      → (c : ConnectionState) × (lookup id connections ≡ some c) × (c.fd ≡ fd)
  pub sound :
      (id : ℕ) (c : ConnectionState)
      → lookup id connections ≡ some c
      → IsSound config by_fd next_id next_generation id c

abbrev pub IsLinked : TcpServer → Type 0
IsLinked s = Links s.config s.connection_by_fd s.connections s.next_connection_id s.next_generation

some_inj {ℓ} : {A : Type ℓ} (o : Option A) (a b : A) → o ≡ some a → o ≡ some b → a ≡ b
some_inj o a b h h' = cc

module _ (config : ServerConfig) (by_fd : List (ℕ × ℕ)) (connections : List (ℕ × ConnectionState))
    (next_id next_generation : ℕ) (v : Links config by_fd connections next_id next_generation) where
  -- The connection under `id` is erased, whatever it was changed to before.
  pub Links-erase :
      (id : ℕ) (c : ConnectionState) (changed : List (ℕ × ConnectionState))
      → lookup id connections ≡ some c
      → ((j : ℕ) → id ≢ j → lookup j changed ≡ lookup j connections)
      → Links config (erase c.fd by_fd) (erase id changed) next_id next_generation
  Links-erase id c changed e same = record {
    indexed = λ fd j h.
        let (other, h') = erase-eq-some c.fd fd j by_fd h in
        let (c', e', f) = v.indexed fd j h' in
        let differs : id ≢ j = λ p. other (
          ap (λ x. x.fd)
            (some_inj (lookup id connections) c c' e (ap (λ k. lookup k connections) p ∙ e'))
          ∙ f) in
        (c', erase_other id j changed differs ∙ (same j differs ∙ e'), f);
    sound = λ j c' h.
        let (differs, h') = erase-eq-some id j c' changed h in
        let w = v.sound j c' (sym (same j differs) ∙ h') in
        let other : c.fd ≢ c'.fd = λ p. differs (
          some_inj (lookup c.fd by_fd) id j (v.sound id c e).found_by_fd
            (ap (λ k. lookup k by_fd) p ∙ w.found_by_fd)) in
        record {
          numbered = w.numbered;
          found_by_fd = erase_other c.fd c'.fd by_fd other ∙ w.found_by_fd;
          id_used = w.id_used;
          generation_used = w.generation_used;
          within_limits = w.within_limits;
        };
  }

  -- The connection under `id` is changed, but not its numbers.
  pub Links-replace :
      (id : ℕ) (c c' : ConnectionState)
      → lookup id connections ≡ some c
      → c'.connection_id ≡ c.connection_id
      → c'.fd ≡ c.fd
      → c'.generation ≡ c.generation
      → IsWithinLimits config c'
      → Links config by_fd (insert id c' connections) next_id next_generation
  Links-replace id c c' e same_id same_fd same_generation limits =
      let w = v.sound id c e in
      record {
        indexed = λ fd j h.
            let (d, e', f) = v.indexed fd j h in
            elim (Bool-cases (nat_eq.beq id j)) [
              | inl p ↦
                  let p' : id ≡ j = (nat_eq.beq_iff id j).0 p in
                  let q =
                    some_inj (lookup id connections) c d e
                      (ap (λ k. lookup k connections) p' ∙ e') in
                  (
                    c',
                    ap (λ k. lookup k (insert id c' connections)) (sym p')
                        ∙ insert_self id c' connections,
                    same_fd ∙ (ap (λ x. x.fd) q ∙ f),
                  )
              | inr p ↦
                  let p' : id ≢ j = ground (arith, nat_eq.beq_iff id j) in
                  (d, insert_other id j c' connections p' ∙ e', f)
            ];
        sound = λ j d h. elim (insert-eq-some id j c' d connections h) [
          | inl (p, q) ↦
              let in_place : IsSound config by_fd next_id next_generation id c' = record {
                numbered = same_id ∙ w.numbered;
                found_by_fd = ap (λ k. lookup k by_fd) same_fd ∙ w.found_by_fd;
                id_used = w.id_used;
                generation_used = omega arith;
                within_limits = limits;
              } in
              subst (λ x. IsSound config by_fd next_id next_generation j x) q
                (subst (λ k. IsSound config by_fd next_id next_generation k c') p in_place)
          | inr (p, q) ↦ v.sound j d q
        ];
      }

  -- A connection with a new id, a new generation and a descriptor that is not in use is added.
  pub Links-insert :
      (c : ConnectionState)
      → c.connection_id ≡ next_id
      → c.generation ≡ next_generation
      → lookup c.fd by_fd ≡ none
      → IsWithinLimits config c
      → Links config
          (insert c.fd next_id by_fd)
          (insert next_id c connections)
          (next_id + 1)
          (next_generation + 1)
  Links-insert c same_id same_generation free limits = record {
    indexed = λ fd j h. elim (insert-eq-some c.fd fd next_id j by_fd h) [
      | inl (p, q) ↦ (
        c,
        ap (λ k. lookup k (insert next_id c connections)) (sym q)
            ∙ insert_self next_id c connections,
        p,
      )
      | inr (p, q) ↦
          let (d, e, f) = v.indexed fd j q in
          let u = (v.sound j d e).id_used in
          (d, insert_other next_id j c connections (λ r. absurd (omega arith)) ∙ e, f)
    ];
    sound = λ j d h. elim (insert-eq-some next_id j c d connections h) [
      | inl (p, q) ↦
          let in_place : IsSound config (insert c.fd next_id by_fd) (next_id + 1)
              (next_generation + 1) next_id c =
            record {
              numbered = same_id;
              found_by_fd = insert_self c.fd next_id by_fd;
              id_used = omega arith;
              generation_used = omega arith;
              within_limits = limits;
            } in
          subst
            (λ x.
              IsSound config (insert c.fd next_id by_fd) (next_id + 1) (next_generation + 1) j x)
            q
            (subst
              (λ k.
                IsSound config (insert c.fd next_id by_fd) (next_id + 1) (next_generation + 1) k c)
              p in_place)
      | inr (p, q) ↦
          let w = v.sound j d q in
          let other : c.fd ≢ d.fd = λ r. absurd (ground (arith, free, w.found_by_fd, r)) in
          record {
            numbered = w.numbered;
            found_by_fd = insert_other c.fd d.fd next_id by_fd other ∙ w.found_by_fd;
            id_used = let u = w.id_used in omega arith;
            generation_used = let u = w.generation_used in omega arith;
            within_limits = w.within_limits;
          }
    ];
  }
