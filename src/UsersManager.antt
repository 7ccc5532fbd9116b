-- ===== src/UsersManager.antt =====
-- include/UsersManager.hpp and src/UsersManager.cpp, over the table "user" of database_schema.sql, whose
-- key is the email.
pub mod Accounts
use screen_viewer.Prelude.{ℕ, ◌≡◌, ◌≢◌, Bool, true, false, List, [], ◌∷◌, Bytes}
use screen_viewer.Message.{Checked, ok, err}
use screen_viewer.Outcome.{
  Exception, user_exists, system_error, Outcome, done, thrown, M, ◌>>=◌, ◌>>◌, give,
}

pub data Insertion (S : Type 0) : Type 0 where
  inserted : S → Insertion S
  unique_violation : Insertion S
  database_error : ℕ → Insertion S

-- PostgreSQL through pqxx: the two prepared statements, each in a transaction of its own, which
-- leaves the table as it was unless it is committed.
pub record Database : Type 1 where
  pub State : Type 0
  pub insert_user : Bytes → Bytes → State → Insertion State
  pub get_password_hash : Bytes → State → Checked ℕ (List Bytes)

-- What the schema and SQL promise.
pub record IsTable (db : Database) : Type 0 where
  pub inserted_row :
      (email hash : Bytes) (s s' : db.State)
      → db.insert_user email hash s ≡ inserted s'
      → db.get_password_hash email s' ≡ ok (hash ∷ [])
  pub key_taken :
      (email hash row : Bytes) (s : db.State)
      → db.get_password_hash email s ≡ ok (row ∷ [])
      → db.insert_user email hash s ≡ unique_violation

-- The BCrypt library; the first argument of `generate_hash` is the salt that it draws.
pub record Crypt : Type 0 where
  pub generate_hash : ℕ → Bytes → Bytes
  pub validate_password : Bytes → Bytes → Bool

module _ (db : Database) (crypt : Crypt) where
  check_email_constraints : Bytes → M db.State (Unit {0})
  check_email_constraints email = give tt

  check_password_constraints : Bytes → M db.State (Unit {0})
  check_password_constraints password = give tt

  -- The `try` block of `addUser`, and its `catch`.
  insert : Bytes → db.State → Insertion db.State → Outcome db.State (Unit {0})
  insert email s (inserted s') = done tt s'
  insert email s unique_violation = thrown (user_exists email) s
  insert email s (database_error code) = thrown (system_error code) s

  unfoldable pub add_user : ℕ → Bytes → Bytes → M db.State (Unit {0})
  unfolding check_email_constraints check_password_constraints insert
  add_user salt email password = do
    check_email_constraints email
    check_password_constraints password
    (λ s. insert email s (db.insert_user email (crypt.generate_hash salt password) s))

  validate : Bytes → db.State → Checked ℕ (List Bytes) → Outcome db.State Bool
  validate password s (ok []) = done false s
  validate password s (ok (hash ∷ rows)) = done (crypt.validate_password password hash) s
  validate password s (err code) = thrown (system_error code) s

  unfoldable pub authenticate : Bytes → Bytes → M db.State Bool
  unfolding validate
  authenticate email password s = validate password s (db.get_password_hash email s)
