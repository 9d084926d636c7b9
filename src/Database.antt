-- ===== src/Database.antt =====
-- server/pq.c: the rates of every server as rows of a table, inserted in statements of bounded size.
-- libpq is not modelled: a statement that is executed is a text in a list. `none` stands for a write
-- outside an array, a read of one that was not written, or what group_ratesbytags leaves undefined.
pub mod Records
pub mod Array
pub mod Batches
pub mod Inserts
use Prim.Native.String.{◌++◌ as append}
use pfstrase.Prelude.{
  ℕ, ◌+◌, ◌-◌, String, Bool, Option, none, some, List, [], ◌∷◌, ◌++◌, ◌==◌, ◌>>=◌, ℤ, pos, negsuc,
  len, slice, ltb, snprintf, if◌then◌else◌,
}
use pfstrase.Json.{JsonC}
use pfstrase.Buffer.{Buffer, empty_buffer, printed, print_pieces}
use pfstrase.Stats.View.{Filters, View, group_ratesbytags}
use pfstrase.Shm.{get_shm_map}

abbrev pub statement_start : String
statement_start =
    "insert into host_data (time, host, system, fid, jid, uid, client, event, value) values "

-- `empty_len`
abbrev pub empty_len : ℕ
empty_len = len statement_start

-- `char query[128000]`, `char record_str[8192]` and `char tag_str[1024]`
abbrev pub query_size : ℕ
query_size = 128000

abbrev pub record_size : ℕ
record_size = 8192

abbrev pub tag_size : ℕ
tag_size = 1024

-- The statement that is being put together, and those that were executed.
pub record Query : Type 0 where
  pub buffer : Buffer
  pub executed : List String

abbrev pub start_query : List String → Query
start_query executed = record {
  buffer = record { text = statement_start; cur = empty_len };
  executed = executed;
}

-- `query[query_len - 2] = ';'`
unfoldable pub end_statement : String → String
end_statement query =
    append (slice query 0 (len query - 2)) (append ";" (slice query (len query - 1) (len query)))

-- `if (query_len > empty_len) PQexec(conn, query)`
unfoldable pub exec_query : String → List String → List String
exec_query query executed =
    if ltb empty_len (len query) then executed ++ end_statement query ∷ [] else executed

-- `qcur = query + empty_len`: what stands before it is the start of the statement, which the
-- semicolon behind it has not changed.
abbrev pub restart : Query → Query
restart q = record {
  buffer = record { text = slice q.buffer.text 0 empty_len; cur = empty_len };
  executed = exec_query q.buffer.text q.executed;
}

abbrev pub put_record : String → Query → Query
put_record record_str q = record q {
  buffer = record {
    text = printed query_size q.buffer record_str;
    cur = q.buffer.cur + len record_str;
  };
}

-- The end of the loop over the tags: a full statement is executed, and the records are added.
unfoldable pub add_record : String → Query → Query
add_record record_str q =
    put_record record_str (if ltb query_size (q.buffer.cur + len record_str) then restart q else q)

-- What PQexec gets from pq_connect; `connects` is whether PQconnectdb succeeds.
module _ (connects : String → Bool) where
  unfoldable pub connection_info : String → String → String → String
  connection_info pq_server dbname dbuser = snprintf 256 (
      append "dbname=" (
        append dbname
          (append " user=" (append dbuser (append " host=" (append pq_server " port=5433"))))))

  -- The return code, and whether the statements that set the table up are executed.
  unfoldable pub pq_connect : String → String → String → ℤ × Bool
  pq_connect pq_server dbname dbuser =
      if connects (connection_info pq_server dbname dbuser)
      then (pos 1, Bool.true)
      else (negsuc 0, Bool.false)

-- record_str is read also where no event has written it.
unfoldable pub record_text : List String → Option String
record_text [] = none
record_text (piece ∷ rest) = do
  b ← print_pieces record_size (piece ∷ rest) empty_buffer
  some b.text

-- `print_f` is how printf shows a double for `%f`.
module _ (J : JsonC) (print_f : J.Double → String) where
  open J use {of_ℤ, lt, Json, object_get_ex, entries, get_string, get_double, tokener_parse}

  abbrev quoted : String → String
  quoted s = append "'" (append s "', ")

  abbrev tag_text : Option Json → String
  tag_text none = "'*', "
  tag_text (some tid) = quoted (get_string tid)

  -- The calls of snprintf that write tag_str.
  unfoldable pub tag_pieces : String → Json → Json → List String
  tag_pieces host time tags =
      append "to_timestamp(" (append (print_f (get_double time)) "), ")
      ∷ quoted host
      ∷ tag_text (object_get_ex tags "system")
      ∷ tag_text (object_get_ex tags "fid")
      ∷ tag_text (object_get_ex tags "jid")
      ∷ tag_text (object_get_ex tags "uid")
      ∷ tag_text (object_get_ex tags "client")
      ∷ []

  -- The calls that write record_str: one for each event that is above 0.
  unfoldable pub event_pieces : String → List (String × Json) → List String
  event_pieces tag_str [] = []
  event_pieces tag_str ((event, val) ∷ rest) =
      let others = event_pieces tag_str rest in
      if lt (of_ℤ (pos 0)) (get_double val)
      then append "(" (
          append tag_str
            (append " '" (append event (append "', " (append (print_f (get_double val)) "), ")))))
        ∷ others
      else others

  -- The records of one row of a server.
  unfoldable pub row_record : String → Json → Json → Json → Option String
  row_record host time tags te = do
    tag_str ← print_pieces tag_size (tag_pieces host time tags) empty_buffer
    record_text (event_pieces tag_str.text (entries te))

  abbrev pub insert_parsed : String → Json → Json → Query → Option Json → Option Query
  insert_parsed host time te q none = some q
  insert_parsed host time te q (some tags) = do
    record_str ← row_record host time tags te
    some (add_record record_str q)

  -- The body of the loop over the rows of a server.
  unfoldable pub insert_row : String → Json → String → Json → Query → Option Query
  insert_row host time t te q =
      if t == "time" then some q else insert_parsed host time te q (tokener_parse t)

  unfoldable pub insert_rows : String → Json → List (String × Json) → Query → Option Query
  insert_rows host time [] q = some q
  insert_rows host time ((t, te) ∷ rest) q = do
    next ← insert_row host time t te q
    insert_rows host time rest next

  -- A server without a time is left out.
  abbrev insert_timed : String → Json → List String → Option Json → Option (List String)
  insert_timed host se executed none = some executed
  insert_timed host se executed (some time) = do
    q ← insert_rows host time (entries se) (start_query executed)
    some (exec_query q.buffer.text q.executed)

  -- The body of the loop over the servers: the statements executed so far.
  unfoldable pub insert_server : String → Json → List String → Option (List String)
  insert_server host se executed = insert_timed host se executed (object_get_ex se "time")

  unfoldable pub insert_servers : List (String × Json) → List String → Option (List String)
  insert_servers [] executed = some executed
  insert_servers ((host, se) ∷ rest) executed = do
    next ← insert_server host se executed
    insert_servers rest next

  -- The view afterwards, and the statements.
  unfoldable pub pq_insert : Filters → View J → String → Option (View J × List String)
  pq_insert f v memory = do
    v' ←
        group_ratesbytags J ("system" ∷ "fid" ∷ "server" ∷ "jid" ∷ "uid" ∷ []) f
          (record v { server_tag_rate_map = get_shm_map J v.server_tag_rate_map memory })
    executed ← insert_servers (entries v'.screen_map) []
    some (v', executed)
