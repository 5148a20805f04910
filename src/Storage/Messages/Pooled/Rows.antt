-- ===== src/Storage/Messages/Pooled/Rows.antt =====
-- What the pages fetch, as a list of stored messages.
use cpp_chat.Base.{
  ℕ, zero, suc, ◌≡◌, refl, ap, ◌∙◌, true, Bool, Bool-cases, inl, inr, List, [], ◌∷◌, ◌++◌, map,
  Bytes, filterb, take, reverse, arith,
}
use cpp_chat.Protocol.Message.{MessageType}
use cpp_chat.Storage.Statements.{
  Value, integer, Server, Client, select, run_statement, fetch_all, collect,
}
use cpp_chat.Storage.Messages.{StoredMessage}
use cpp_chat.Storage.Messages.Pooled.{stored_of_row, execute_history_page_query}
use cpp_chat.Storage.Messages.Pooled.Tables.{
  MessageRow, full_row, rows_reply, newest, row_of, IsSmall, AreSmall,
}

-- What is mapped may be filtered, reversed and cut first.
module _ {ℓ κ} {A : Type ℓ} {B : Type κ} (f : A → B) where
  pub map-append_one : (xs : List A) (x : A) → map f (xs ++ x ∷ []) ≡ map f xs ++ f x ∷ []
  map-append_one [] x = refl
  map-append_one (y ∷ xs) x = ap (◌∷◌ (f y)) (map-append_one xs x)

  map-reverse : (xs : List A) → map f (reverse xs) ≡ reverse (map f xs)
  unfolding reverse
  map-reverse [] = refl
  map-reverse (x ∷ xs) = map-append_one (reverse xs) x ∙ ap (λ l. l ++ f x ∷ []) (map-reverse xs)

  pub map-take : (n : ℕ) (xs : List A) → map f (take n xs) ≡ take n (map f xs)
  map-take zero xs = refl
  map-take (suc n) [] = refl
  map-take (suc n) (x ∷ xs) = ap (◌∷◌ (f x)) (map-take n xs)

-- Every row is fetched in full.
pub collect-rows {ℓ} :
    {A : Type ℓ} (body : ℕ) (read : List Value → A) (rows : List (List Value))
    → collect body read (map full_row rows) ≡ map read rows
unfolding collect
collect-rows body read [] = refl
collect-rows body read (values ∷ rows) = ground (arith, collect-rows body read rows)

pub map-map {ℓ κ μ} :
    {A : Type ℓ} {B : Type κ} {C : Type μ} (g : B → C) (f : A → B) (xs : List A)
    → map g (map f xs) ≡ map (λ x. g (f x)) xs
map-map g f [] = refl
map-map g f (x ∷ xs) = ap (◌∷◌ (g (f x))) (map-map g f xs)

-- The rows that a condition picks, read back, are the messages that it means.
module _ (keep : MessageRow → Bool) (means : StoredMessage → Bool)
    (read : MessageRow → StoredMessage)
    (agree : (s : StoredMessage) → IsSmall s → keep (row_of s) ≡ means s)
    (back : (s : StoredMessage) → means s ≡ true → read (row_of s) ≡ s) where
  pub filtered :
      (archive : List StoredMessage)
      → AreSmall archive
      → map read (filterb keep (map row_of archive)) ≡ filterb means archive
  filtered [] small = refl
  filtered (s ∷ archive) (ends, small) =
      let same = agree s ends in
      elim (Bool-cases (means s)) [
        | inl h ↦ rw (same, h) (rw (back s h) (ap (◌∷◌ s) (filtered archive small)))
        | inr h ↦ rw (same, h) (filtered archive small)
      ]

  pub page-filtered :
      (limit : ℕ) (archive : List StoredMessage)
      → AreSmall archive
      → map read (newest limit keep (map row_of archive))
        ≡ take limit (reverse (filterb means archive))
  page-filtered limit archive small =
      map-take read limit _
      ∙ ap (take limit) (map-reverse read _ ∙ ap reverse (filtered archive small))

module _ {D : Type 0} (server : Server D) (c : Client D) where
  -- A statement that succeeds gives its rows.
  pub select-rows :
      (query : Bytes) (params : List Value) (rows : List (List Value))
      → server.statement query params c.database ≡ (c.database, rows_reply rows)
      → (select server query params c).1 ≡ map full_row rows
  unfolding select run_statement fetch_all
  select-rows query params rows e = rw e

  pub paged :
      (query : Bytes) (type : MessageType) (id_params : List ℕ) (limit : ℕ)
      (rows : List (List Value))
      → server.statement query (map integer (id_params ++ limit ∷ [])) c.database
        ≡ (c.database, rows_reply rows)
      → (execute_history_page_query server c query type id_params limit).1
        ≡ map (stored_of_row type) rows
  unfolding execute_history_page_query
  paged query type id_params limit rows e =
      ap (collect 3 (stored_of_row type)) (select-rows query _ rows e)
      ∙ collect-rows 3 (stored_of_row type) rows
