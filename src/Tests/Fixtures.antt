-- ===== src/Tests/Fixtures.antt =====
-- A stream in memory, a table of accounts, a hash that keeps the password, and credentials in a format
-- of two fixed places.
use screen_viewer.Prelude.{
  ℕ, ◌≤◌, ◌≡◌, refl, arith, leb, Bool, true, false, if◌then◌else◌, ◌&&◌, List, [], ◌∷◌, ◌++◌, Bytes,
  codes, length, take, drop, length-take, take-append, drop-append, same_bytes, same_bytes_iff,
}
use screen_viewer.Message.{Checked, ok, err}
use screen_viewer.Outcome.{Exception, system_error, Outcome, done, thrown, M}
use screen_viewer.Transport.{Transport, Lawful}
use screen_viewer.Json.{Json, LawfulJson, read_credentials}
use screen_viewer.UsersManager.{Insertion, inserted, unique_violation, Database, IsTable, Crypt}
use screen_viewer.World.{Env}

pub record Pipe : Type 0 where
  pub incoming : Bytes
  pub outgoing : Bytes
  pub live : Bool

abbrev pub pipe_write : Bytes → M Pipe (Unit {0})
pipe_write bytes p = done tt (record p { outgoing = p.outgoing ++ bytes })

abbrev pub pipe_read : ℕ → M Pipe Bytes
pipe_read n p =
    if p.live && leb n (length p.incoming)
    then done (take n p.incoming) (record p { incoming = drop n p.incoming })
    else thrown (system_error 104) p

abbrev pub pipe_shutdown : M Pipe (Unit {0})
pipe_shutdown p = if p.live then done tt p else thrown (system_error 107) p

abbrev pub pipe : Transport
pipe = record {
  Stream = Pipe;
  write = pipe_write;
  read = pipe_read;
  handshake = λ p. done tt p;
  shutdown = pipe_shutdown;
  close = λ p. done tt (record p { live = false });
  is_open = λ p. p.live;
  remote_endpoint = λ p. ok (codes "127.0.0.1");
  what = λ e. codes "error";
}

pub pipe_read-length :
    (n : ℕ) (bytes : Bytes) (s s' : Pipe) → pipe_read n s ≡ done bytes s' → length bytes ≡ n
pipe_read-length n bytes s s' e = ground (arith, length-take n s.incoming)

pub pipe_read_arrived :
    (n : ℕ) (s : Pipe)
    → s.live ≡ true
    → n ≤ length s.incoming
    → (s' : Pipe) × (pipe_read n s ≡ done (take n s.incoming) s')
      × (s'.incoming ≡ drop n s.incoming)
      × (s'.outgoing ≡ s.outgoing)
      × (s'.live ≡ true)
pipe_read_arrived n s live enough =
    (record s { incoming = drop n s.incoming }, ground arith, refl, refl, live)

pub pipe_write_done :
    (bytes : Bytes) (s s' : Pipe)
    → pipe_write bytes s ≡ done tt s'
    → (s'.outgoing ≡ s.outgoing ++ bytes) × (s'.incoming ≡ s.incoming)
pipe_write_done bytes s s' e = ground arith

pub pipe_shutdown_closed :
    (s : Pipe) → s.live ≡ false → (e : Exception) × (pipe_shutdown s ≡ thrown e s)
pipe_shutdown_closed s shut = (system_error 107, rw shut refl)

pub pipe_shutdown_live : (s s' : Pipe) → pipe_shutdown s ≡ done tt s' → s'.live ≡ s.live
pipe_shutdown_live s s' e = ground arith

pub pipe_close_done :
    (s s' : Pipe)
    → ◌≡◌ {A = Outcome Pipe (Unit {0})} (done tt (record s { live = false })) (done tt s')
    → s'.live ≡ false
pipe_close_done s s' e = ground arith

abbrev pub pipe-Lawful : Lawful pipe
pipe-Lawful = record {
  incoming = λ p. p.incoming;
  outgoing = λ p. p.outgoing;
  write_done = pipe_write_done;
  read_arrived = pipe_read_arrived;
  read_length = pipe_read-length;
  shutdown_closed = pipe_shutdown_closed;
  shutdown_is_open = pipe_shutdown_live;
  close_done = pipe_close_done;
}

abbrev pub Table : Type 0
Table = List (Bytes × Bytes)

unfoldable pub rows : Bytes → Table → List Bytes
rows email [] = []
rows email ((e, hash) ∷ table) = if same_bytes e email then hash ∷ [] else rows email table

insert_row : Bytes → Bytes → Table → List Bytes → Insertion Table
insert_row email hash table [] = inserted ((email, hash) ∷ table)
insert_row email hash table (row ∷ _) = unique_violation

unfoldable pub insert_user : Bytes → Bytes → Table → Insertion Table
unfolding insert_row
insert_user email hash table = insert_row email hash table (rows email table)

abbrev pub table : Database
table = record {
  State = Table;
  insert_user = insert_user;
  get_password_hash = λ email s. ok (rows email s);
}

insert_row-inserted :
    (email hash : Bytes) (s s' : Table) (r : List Bytes)
    → insert_row email hash s r ≡ inserted s'
    → s' ≡ (email, hash) ∷ s
unfolding insert_row
insert_row-inserted email hash s s' [] e = ground arith
insert_row-inserted email hash s s' (row ∷ r) e = cc

rows_first : (email hash : Bytes) (s : Table) → rows email ((email, hash) ∷ s) ≡ hash ∷ []
unfolding rows
rows_first email hash s = rw ((same_bytes_iff email email).1 refl) refl

pub table-IsTable : IsTable table
unfolding insert_user
table-IsTable = record {
  inserted_row = λ email hash s s' e.
      rw (insert_row-inserted email hash s s' (rows email s) e, rows_first email hash s) refl;
  key_taken = λ email hash row s e. let r : rows email s ≡ row ∷ [] = ground arith in rw r refl;
}

abbrev pub crypt : Crypt
crypt = record { generate_hash = λ salt password. password; validate_password = same_bytes }

-- The length of the email, the email, and everything behind it is the password.
abbrev json_parse : Bytes → Checked Bytes Bytes
json_parse [] = err (codes "parse error")
json_parse (n ∷ text) = ok (n ∷ text)

abbrev json_at : Bytes → Bytes → Checked Bytes Bytes
json_at [] key = err (codes "no field")
json_at (n ∷ text) key =
    if same_bytes key (codes "email") then ok (take n text) else ok (drop n text)

abbrev pub json : Json
json = record {
  Value = Bytes;
  parse = json_parse;
  at = json_at;
  get_string = λ text. ok text;
  credentials = λ email password. length email ∷ (email ++ password);
}

pub json-Lawful : LawfulJson json
unfolding read_credentials same_bytes
json-Lawful = record {
  reads_back = λ email password. rw (take-append email password, drop-append email password) refl;
}

abbrev pub env : Env
env = record { transport = pipe; json = json; database = table; crypt = crypt }
