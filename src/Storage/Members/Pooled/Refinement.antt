-- ===== src/Storage/Members/Pooled/Refinement.antt =====
-- With the database, the members of the groups are told as they are in memory.
use cpp_chat.Base.{
  ℕ, ◌≡◌, refl, sym, ap, ◌∙◌, true, false, Bool, Bool-cases, Option-cases, inl, inr, not, ◌&&◌,
  ◌||◌, List, [], ◌∷◌, ◌==◌, if◌then◌else◌, some, nat_eq, Bytes,
}
use cpp_chat.Base.Maps.{lookup}
use cpp_chat.Base.Sets.{contains}
use cpp_chat.Storage.Statements.{
  Value, integer, Fetch, row, Reply, Server, Client, Access, in_memory, available, select, change,
  run_statement, fetch_all, affected_rows_of, is_row,
}
use cpp_chat.Storage.Members.{
  GroupMemberStore, GroupMemberResult, not_a_member, join_group, leave_group, leave_members,
  is_group_member,
}
use cpp_chat.Storage.Members.Laws.{join_group_lem, leave_group_lem}
use cpp_chat.Storage.Members.Pooled.{
  join_query, leave_query, member_query, two_ids, join_result, leave_result, join_group_pooled,
  leave_group_pooled, is_group_member_pooled,
}

-- Every call succeeds: this many rows are changed, or these rows are fetched.
abbrev pub changed_reply : ℕ → Reply
changed_reply affected_rows = record {
  is_made = true;
  is_prepared = true;
  is_bound = true;
  is_executed = true;
  is_result_bound = true;
  fetches = [];
  affected_rows = affected_rows;
  insert_id = 0;
  error_number = 0;
}

abbrev pub fetched_reply : List Fetch → Reply
fetched_reply fetches = record (changed_reply 0) { fetches = fetches }

-- Whether the pair is in the table `group_members`.
abbrev pub listed : ℕ → ℕ → List (ℕ × ℕ) → Bool
listed g u [] = false
listed g u ((h, w) ∷ rows) = h == g && w == u || listed g u rows

module _ {D : Type 0} (server : Server D) (table : D → List (ℕ × ℕ)) where
  -- The statement changes `affected_rows` rows, and then a pair is in the table if `now` says so.
  abbrev pub Changes : Bytes → ℕ → ℕ → D → ℕ → (ℕ → ℕ → Bool) → Type 0
  Changes query g u d affected_rows now =
      ((server.statement query (two_ids g u) d).1 ≡ changed_reply affected_rows)
      × ((h w : ℕ) → listed h w (table (server.statement query (two_ids g u) d).0) ≡ now h w)

  -- The server runs each statement as its text says; `known` are the users of the table `users`, to
  -- which `user_id` refers, and `INSERT IGNORE` passes over a pair of another user or that is there.
  pub record IsMemberServer (known : ℕ → Bool) : Type 0 where
    pub join :
        (g u : ℕ) (d : D)
        → Changes join_query g u d
            (if known u && not (listed g u (table d)) then 1 else 0)
            (λ h w. if known u && (g == h && u == w) then true else listed h w (table d))
    pub leave :
        (g u : ℕ) (d : D)
        → Changes leave_query g u d
            (if listed g u (table d) then 1 else 0)
            (λ h w. if g == h && u == w then false else listed h w (table d))
    pub ask :
        (g u : ℕ) (d : D)
        → server.statement member_query (two_ids g u) d
          ≡ (d, fetched_reply (if listed g u (table d) then row (integer 1 ∷ []) true ∷ [] else []))

-- What a caller may ask of a store, and what it is told.
pub data MemberOperation : Type 0 where
  join : ℕ → ℕ → MemberOperation
  leave : ℕ → ℕ → MemberOperation
  ask : ℕ → ℕ → MemberOperation

pub data MemberAnswer : Type 0 where
  changed : GroupMemberResult → MemberAnswer
  told : Bool → MemberAnswer

abbrev pub user_of : MemberOperation → ℕ
user_of (join g u) = u
user_of (leave g u) = u
user_of (ask g u) = u

abbrev pub AreKnown : (ℕ → Bool) → List MemberOperation → Type 0
AreKnown known [] = Unit
AreKnown known (op ∷ ops) = (known (user_of op) ≡ true) × AreKnown known ops

module _ {D : Type 0} (server : Server D) (access : Access) where
  -- One operation of the store.
  unfoldable pub operate :
      GroupMemberStore → Client D → MemberOperation → GroupMemberStore × (Client D × MemberAnswer)
  unfolding join_group_pooled leave_group_pooled is_group_member_pooled
  operate m c (join g u) =
      let (m', (c', result)) = join_group_pooled server access m c g u in (m', (c', changed result))
  operate m c (leave g u) =
      let (m', (c', result)) = leave_group_pooled server access m c g u in
      (m', (c', changed result))
  operate m c (ask g u) =
      let (c', answer) = is_group_member_pooled server access m c g u in (m, (c', told answer))

  unfoldable pub answers : GroupMemberStore → Client D → List MemberOperation → List MemberAnswer
  unfolding operate
  answers m c [] = []
  answers m c (op ∷ ops) = let (m', (c', answer)) = operate m c op in answer ∷ answers m' c' ops

-- The result of `leave_group`, by what the store holds.
leave_group-result :
    (m : GroupMemberStore) (g u : ℕ)
    → (leave_group m g u).1 ≡ (
        if is_group_member m g u
        then record { success = true; already_member = false; reason = [] }
        else not_a_member)
unfolding leave_group leave_members is_group_member
leave_group-result m g u = elim (Option-cases (lookup g m.memory_members)) [
  | inl e ↦ rw (e, leave_members) (unfold contains in refl)
  | inr (members, e) ↦
      rw (e, leave_members)
        (elim (Bool-cases (contains u members)) [ inl k ↦ rw k refl | inr k ↦ rw k refl ])
]

join_group-result :
    (m : GroupMemberStore) (g u : ℕ)
    → (join_group m g u).1
      ≡ record { success = true; already_member = is_group_member m g u; reason = [] }
unfolding join_group is_group_member
join_group-result m g u = refl

-- What the number of rows says, when it is 0 or 1.
added-join_result :
    (b : Bool)
    → record { success = true; already_member = b; reason = [] }
      ≡ join_result (some (if true && not b then 1 else 0))
added-join_result true = refl
added-join_result false = refl

removed-leave_result :
    (b : Bool)
    → (if b then record { success = true; already_member = false; reason = [] } else not_a_member)
      ≡ leave_result (some (if b then 1 else 0))
removed-leave_result true = refl
removed-leave_result false = refl

fetched-is_row : (b : Bool) → b ≡ is_row (if b then row (integer 1 ∷ []) true ∷ [] else [])
fetched-is_row true = refl
fetched-is_row false = refl

module _ {D : Type 0} (server : Server D) (c : Client D) where
  change-counted :
      (query : Bytes) (params : List Value) (n : ℕ)
      → (server.statement query params c.database).1 ≡ changed_reply n
      → ((change server query params c).1 ≡ some n)
        × ((change server query params c).0.database ≡ (server.statement query params c.database).0)
  unfolding change run_statement affected_rows_of
  change-counted query params n e = (rw e refl, rw e refl)

  select-fetched :
      (query : Bytes) (params : List Value) (fetches : List Fetch)
      → server.statement query params c.database ≡ (c.database, fetched_reply fetches)
      → ((select server query params c).1 ≡ fetches)
        × ((select server query params c).0.database ≡ c.database)
  unfolding select run_statement fetch_all
  select-fetched query params fetches e = (rw e refl, rw e refl)

module _ {D : Type 0} (server : Server D) (table : D → List (ℕ × ℕ)) (known : ℕ → Bool)
    (v : IsMemberServer server table known) where
  -- The table holds the members that the store in memory has.
  abbrev pub Agrees : GroupMemberStore → D → Type 0
  Agrees m d = (g u : ℕ) → is_group_member m g u ≡ listed g u (table d)

  -- One operation gives the same answer, and both agree afterwards.
  record Simulates (m : GroupMemberStore) (a : MemberAnswer) (d : D) (b : MemberAnswer)
      : Type 0 where
    same : a ≡ b
    agrees : Agrees m d

  changed_now :
      (query : Bytes) (g u n : ℕ) (c : Client D) (now : ℕ → ℕ → Bool)
      → Changes server table query g u c.database n now
      → ((change server query (two_ids g u) c).1 ≡ some n)
        × ((h w : ℕ)
            → listed h w (table (change server query (two_ids g u) c).0.database) ≡ now h w)
  changed_now query g u n c now e =
      let counted = change-counted server c query (two_ids g u) n e.0 in
      (counted.0, λ h w. ap (λ d. listed h w (table d)) counted.1 ∙ e.1 h w)

  operate-Simulates :
      (m m' : GroupMemberStore) (c c' : Client D) (op : MemberOperation)
      → known (user_of op) ≡ true
      → Agrees m c.database
      → let r = operate server in_memory m c' op in
        let r' = operate server available m' c op in Simulates r.0 r.1.1 r'.1.0.database r'.1.1
  unfolding operate join_group_pooled leave_group_pooled is_group_member_pooled
  operate-Simulates m m' c c' (join g u) k h =
      let now = changed_now join_query g u _ c _ (v.join g u c.database) in
      record {
        same = ap changed (join_group-result m g u ∙ (rw (now.0, k, h g u) (added-join_result _)));
        agrees = λ h' w. (join_group_lem m g h' u w).0 ∙ (rw (now.1 h' w, k, h h' w) refl);
      }
  operate-Simulates m m' c c' (leave g u) k h =
      let now = changed_now leave_query g u _ c _ (v.leave g u c.database) in
      record {
        same = ap changed (leave_group-result m g u ∙ (rw (now.0, h g u) (removed-leave_result _)));
        agrees = λ h' w. (leave_group_lem m g h' u w).0 ∙ (rw (now.1 h' w, h h' w) refl);
      }
  operate-Simulates m m' c c' (ask g u) k h =
      let e = select-fetched server c member_query (two_ids g u) _ (v.ask g u c.database) in
      record {
        same = ap told (h g u ∙ (rw e.0 (fetched-is_row _)));
        agrees = λ h' w. h h' w ∙ sym (ap (λ d. listed h' w (table d)) e.1);
      }

  -- If the tables of a server hold the pairs that the memory of a store holds, then a store with
  -- that server answers every sequence of `join_group`, `leave_group` and `is_group_member` as the
  -- store in memory does, for users that the table `users` has.
  pub answers-same :
      (ops : List MemberOperation)
      → AreKnown known ops
      → (m m' : GroupMemberStore) (c c' : Client D) → Agrees m c.database
      → answers server in_memory m c' ops ≡ answers server available m' c ops
  unfolding answers
  answers-same [] known_ops m m' c c' h = refl
  answers-same (op ∷ ops) (k, known_ops) m m' c c' h =
      let r = operate server in_memory m c' op in
      let r' = operate server available m' c op in
      let step = operate-Simulates m m' c c' op k h in
      ap (λ answer. answer ∷ answers server in_memory r.0 r.1.0 ops) step.same
      ∙ ap (λ rest. r'.1.1 ∷ rest) (answers-same ops known_ops r.0 r'.0 r'.1.0 r.1.0 step.agrees)
