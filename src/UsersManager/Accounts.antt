-- ===== src/UsersManager/Accounts.antt =====
-- An account is made once, and opens with its password.
use screen_viewer.Prelude.{ℕ, ◌≡◌, arith, true, Bytes}
use screen_viewer.Outcome.{user_exists, done, thrown}
use screen_viewer.UsersManager.{
  Insertion, inserted, unique_violation, database_error, Database, IsTable, Crypt, insert, add_user,
  validate, authenticate,
}

module _ (db : Database) (crypt : Crypt) (table : IsTable db) where
  insert-eq-done :
      (email : Bytes) (s : db.State) {s' : db.State} (r : Insertion db.State)
      → insert db crypt email s r ≡ done tt s'
      → r ≡ inserted s'
  unfolding insert
  insert-eq-done email s (inserted x) e = ground arith
  insert-eq-done email s unique_violation e = cc
  insert-eq-done email s (database_error code) e = cc

  -- In a database that keeps its table, the account that `addUser` has added is opened by its
  -- password, if the hash of this password validates it.
  pub add_user-authenticate :
      (salt : ℕ) (email password : Bytes) (s s' : db.State)
      → crypt.validate_password password (crypt.generate_hash salt password) ≡ true
      → add_user db crypt salt email password s ≡ done tt s'
      → authenticate db crypt email password s' ≡ done true s'
  unfolding add_user authenticate validate
  add_user-authenticate salt email password s s' valid e =
      let row =
        insert-eq-done email s (db.insert_user email (crypt.generate_hash salt password) s) e in
      rw (table.inserted_row email (crypt.generate_hash salt password) s s' row, valid)

  -- In a database that keeps its table, once an account has been added, a second one for the same
  -- email is refused with an exception, and the table stays as it was.
  pub add_user_twice :
      (salt salt' : ℕ) (email password password' : Bytes) (s s' : db.State)
      → add_user db crypt salt email password s ≡ done tt s'
      → add_user db crypt salt' email password' s' ≡ thrown (user_exists email) s'
  unfolding add_user insert
  add_user_twice salt salt' email password password' s s' e =
      let hash = crypt.generate_hash salt password in
      let row = insert-eq-done email s (db.insert_user email hash s) e in
      rw (
        table.key_taken email (crypt.generate_hash salt' password') hash s'
          (table.inserted_row email hash s s' row))
