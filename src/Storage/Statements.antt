-- ===== src/Storage/Statements.antt =====
-- The calls of libmysqlclient by which the stores of src/storage/ run their statements. What the
-- server makes of a text is a parameter; the functions below are the sequences of calls that the
-- stores share, with each early return.
use cpp_chat.Base.{
  ℕ, suc, ◌-◌, Bool, true, false, not, ◌&&◌, List, [], ◌∷◌, Option, none, some, get_elem?,
  if◌then◌else◌, Bytes, is_empty,
}

-- A parameter of a statement, or a column of a row.
pub data Value : Type 0 where
  integer : ℕ → Value
  text : Bytes → Value
  null : Value

-- What `mysql_stmt_fetch` answers before MYSQL_NO_DATA: a row, of which `mysql_stmt_fetch_column`
-- then gives a column that is too long for its buffer, or not; or an error.
pub data Fetch : Type 0 where
  row : List Value → Bool → Fetch
  fetch_error : Fetch

-- What is answered while one statement is run. A flag that is false is the error of
-- `mysql_stmt_init`, `mysql_stmt_prepare`, `mysql_stmt_bind_param`, `mysql_stmt_execute` or
-- `mysql_stmt_bind_result`.
pub record Reply : Type 0 where
  pub is_made : Bool
  pub is_prepared : Bool
  pub is_bound : Bool
  pub is_executed : Bool
  pub is_result_bound : Bool
  pub fetches : List Fetch
  pub affected_rows : ℕ
  pub insert_id : ℕ
  pub error_number : ℕ

-- What the server does with the text of `mysql_query`, and with a prepared text and its parameters.
pub record Server (D : Type 0) : Type 0 where
  pub query : Bytes → D → D × Bool
  pub statement : Bytes → List Value → D → D × Reply

-- The database, and how many statements are made and not closed.
pub record Client (D : Type 0) : Type 0 where
  pub database : D
  pub open_statements : ℕ

-- How the calls up to `mysql_stmt_execute` end. Only behind `executed` is the statement still open.
pub data Outcome : Type 0 where
  unprepared : Outcome
  refused : ℕ → Outcome
  executed : Reply → Outcome

-- `pool_` is a null pointer, its `acquire` gives no connection, or it gives one.
pub data Access : Type 0 where
  in_memory unavailable available : Access

abbrev pub column : ℕ → List Value → Option Value
column n values = get_elem? values n

-- The buffer of a column, from 0 on.
abbrev pub integer_of : Option Value → ℕ
integer_of (some (integer n)) = n
integer_of _ = 0

abbrev pub text_of : Option Value → Bytes
text_of (some (text b)) = b
text_of _ = []

module _ {D : Type 0} where
  unfoldable pub mysql_stmt_init : Client D → Client D
  mysql_stmt_init c = record c { open_statements = suc c.open_statements }

  unfoldable pub mysql_stmt_close : Client D → Client D
  mysql_stmt_close c = record c { open_statements = c.open_statements - 1 }

  unfoldable pub run_statement : Server D → Bytes → List Value → Client D → Client D × Outcome
  unfolding mysql_stmt_init mysql_stmt_close
  run_statement server query params c =
      let (database, reply) = server.statement query params c.database in
      let opened = mysql_stmt_init c in
      let changed = record opened { database = database } in
      if not reply.is_made
      then (c, unprepared)
      else if not reply.is_prepared
      then (mysql_stmt_close opened, unprepared)
      else if not reply.is_bound
      then (mysql_stmt_close opened, refused reply.error_number)
      else if not reply.is_executed
      then (mysql_stmt_close changed, refused reply.error_number)
      else (changed, executed reply)

  -- From `mysql_stmt_bind_result` on.
  unfoldable pub fetch_all : Client D × Outcome → Client D × List Fetch
  unfolding mysql_stmt_close
  fetch_all (c, unprepared) = (c, [])
  fetch_all (c, refused error_number) = (c, [])
  fetch_all (c, executed reply) =
      (mysql_stmt_close c, if reply.is_result_bound then reply.fetches else [])

  unfoldable pub select : Server D → Bytes → List Value → Client D → Client D × List Fetch
  unfolding run_statement fetch_all
  select server query params c = fetch_all (run_statement server query params c)

  -- `mysql_stmt_affected_rows` of a statement that was executed.
  unfoldable pub affected_rows_of : Client D × Outcome → Client D × Option ℕ
  unfolding mysql_stmt_close
  affected_rows_of (c, unprepared) = (c, none)
  affected_rows_of (c, refused error_number) = (c, none)
  affected_rows_of (c, executed reply) = (mysql_stmt_close c, some reply.affected_rows)

  unfoldable pub change : Server D → Bytes → List Value → Client D → Client D × Option ℕ
  unfolding run_statement affected_rows_of
  change server query params c = affected_rows_of (run_statement server query params c)

  -- `mysql_query`, whose answer is whether it succeeded.
  unfoldable pub execute_query : Server D → Bytes → Client D → Client D × Bool
  execute_query server query c =
      let (database, done) = server.query query c.database in
      (record c { database = database }, done)

-- The loop over the rows, where the column of number `body` is fetched by itself: a row whose text
-- there cannot be fetched is left out, and an error ends the loop.
unfoldable pub collect {ℓ} : {A : Type ℓ} → ℕ → (List Value → A) → List Fetch → List A
collect body read [] = []
collect body read (fetch_error ∷ fetches) = []
collect body read (row values fetched ∷ fetches) =
    let rest = collect body read fetches in
    if not (is_empty (text_of (column body values))) && not fetched
    then rest
    else read values ∷ rest

-- The loop over rows of one number.
unfoldable pub collect_ids : List Fetch → List ℕ
collect_ids [] = []
collect_ids (fetch_error ∷ fetches) = []
collect_ids (row values fetched ∷ fetches) = integer_of (column 0 values) ∷ collect_ids fetches

-- Whether the first `mysql_stmt_fetch` gives a row.
abbrev pub is_row : List Fetch → Bool
is_row (row values fetched ∷ fetches) = true
is_row _ = false
