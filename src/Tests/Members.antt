-- ===== src/Tests/Members.antt =====
-- A server of MySQL that keeps the table `group_members`.
use cpp_chat.Base.{
  ℕ, ◌≡◌, refl, true, false, Bool, not, ◌&&◌, List, [], ◌∷◌, ltb, ◌==◌, Bytes, filterb, arith,
  if◌then◌else◌, bytes_eq, Bool-cases, inl, inr, nat_eq,
}
use cpp_chat.Storage.Statements.{
  Value, integer, row, Reply, Server, Client, in_memory, available, column, integer_of,
}
use cpp_chat.Storage.Members.{GroupMemberStore, is_group_member}
use cpp_chat.Storage.Members.Pooled.{join_query, leave_query, member_query}
use cpp_chat.Storage.Members.Pooled.Refinement.{
  changed_reply, fetched_reply, listed, IsMemberServer, MemberOperation, join, leave, ask, answers,
  answers-same,
}
use cpp_chat.Storage.Closing.Stores.{ClosesStatements, stores-ClosesStatements}
use cpp_chat.Tests.Chats.{no_hash}

abbrev is_pair : ℕ → ℕ → ℕ × ℕ → Bool
is_pair g u (h, w) = h == g && w == u

abbrev id_at : ℕ → List Value → ℕ
id_at n params = integer_of (column n params)

-- The table `users` has the ids below 10.
abbrev is_user : ℕ → Bool
is_user u = ltb u 10

insert_pair : ℕ → ℕ → Bool → List (ℕ × ℕ) → List (ℕ × ℕ) × Reply
insert_pair g u added rows =
    (if added then (g, u) ∷ rows else rows, changed_reply (if added then 1 else 0))

member_statement : Bytes → List Value → List (ℕ × ℕ) → List (ℕ × ℕ) × Reply
unfolding insert_pair
member_statement query params rows =
    let g = id_at 0 params in
    let u = id_at 1 params in
    if bytes_eq query join_query
    then insert_pair g u (is_user u && not (listed g u rows)) rows
    else if bytes_eq query leave_query
    then (filterb (λ p. not (is_pair g u p)) rows, changed_reply (if listed g u rows then 1 else 0))
    else (rows, fetched_reply (if listed g u rows then row (integer 1 ∷ []) true ∷ [] else []))

abbrev member_server : Server (List (ℕ × ℕ))
member_server = record { query = λ query rows. (rows, true); statement = member_statement }

already_listed :
    (g u h w : ℕ) (rows : List (ℕ × ℕ))
    → listed g u rows ≡ true
    → listed h w rows ≡ (if g == h && u == w then true else listed h w rows)
already_listed g u h w rows l = elim (Bool-cases (g == h && u == w)) [
  | inl k ↦
      let group : g ≡ h = ground (arith, k) in let user : u ≡ w = ground (arith, k) in rw k (cc)
  | inr k ↦ rw k refl
]

insert_pair-listed :
    (g u h w : ℕ) (rows : List (ℕ × ℕ))
    → listed h w (insert_pair g u (is_user u && not (listed g u rows)) rows).0
      ≡ (if is_user u && (g == h && u == w) then true else listed h w rows)
unfolding insert_pair
insert_pair-listed g u h w rows = elim (Bool-cases (is_user u)) [
  | inl k ↦ rw k (elim (Bool-cases (listed g u rows)) [
    | inl l ↦ rw l (already_listed g u h w rows l)
    | inr l ↦ rw l (ground arith)
  ])
  | inr k ↦ rw k refl
]

filterb-listed :
    (g u h w : ℕ) (rows : List (ℕ × ℕ))
    → listed h w (filterb (λ p. not (is_pair g u p)) rows)
      ≡ (if g == h && u == w then false else listed h w rows)
filterb-listed g u h w [] = ground arith
filterb-listed g u h w ((k, v) ∷ rows) = ground (arith, filterb-listed g u h w rows)

member_server-IsMemberServer : IsMemberServer member_server (λ rows. rows) is_user
unfolding member_statement insert_pair bytes_eq join_query leave_query member_query
member_server-IsMemberServer = record {
  join = λ g u rows. (refl, λ h w. insert_pair-listed g u h w rows);
  leave = λ g u rows. (refl, λ h w. filterb-listed g u h w rows);
  ask = λ g u rows. refl;
}

abbrev five_operations : List MemberOperation
five_operations = join 5 3 ∷ join 5 3 ∷ ask 5 3 ∷ leave 5 1 ∷ leave 5 1 ∷ []

abbrev no_members : GroupMemberStore
no_members = record { memory_members = [] }

abbrev no_pairs : Client (List (ℕ × ℕ))
no_pairs = record { database = []; open_statements = 0 }

answers-same_example :
    answers member_server in_memory no_members no_pairs five_operations
    ≡ answers member_server available no_members no_pairs five_operations
unfolding is_group_member
answers-same_example =
    answers-same member_server (λ rows. rows) is_user member_server-IsMemberServer five_operations
      (refl, (refl, (refl, (refl, (refl, tt))))) no_members no_members no_pairs no_pairs
      (λ g u. refl)

stores-ClosesStatements_example : ClosesStatements member_server no_hash
stores-ClosesStatements_example = stores-ClosesStatements member_server no_hash
