-- ===== src/Tests/Accounts.antt =====
-- Accounts and registered streamers at concrete inputs.
use screen_viewer.Prelude.{◌≡◌, ◌≤◌, refl, [], ◌∷◌, Bytes, codes, same_bytes}
use screen_viewer.Outcome.{done, thrown, user_exists}
use screen_viewer.UsersManager.{add_user}
use screen_viewer.UsersManager.Accounts.{add_user_twice}
use screen_viewer.SessionsManager.{current_sessions}
use screen_viewer.SessionsManager.Registry.{current_sessions-le-one, registers, run, initial}
use screen_viewer.Tests.Fixtures.{Table, table, table-IsTable, crypt, insert_user, rows}

abbrev ann : Bytes
ann = codes "a"

abbrev bob : Bytes
bob = codes "b"

abbrev secret : Bytes
secret = codes "secret"

abbrev accounts : Table
accounts = (bob, codes "pass") ∷ []

abbrev more_accounts : Table
more_accounts = (ann, secret) ∷ accounts

added : add_user table crypt 0 ann secret accounts ≡ done tt more_accounts
unfolding add_user insert_user rows same_bytes
added = refl

add_user_twice_example :
    add_user table crypt 1 ann (codes "other") more_accounts
    ≡ thrown (user_exists ann) more_accounts
add_user_twice_example =
    add_user_twice table crypt table-IsTable 0 1 ann secret (codes "other") accounts more_accounts
      added

current_sessions-le-one_example :
    current_sessions (run initial (registers 1 0 ∷ registers 2 5 ∷ [])) ≤ 1
current_sessions-le-one_example = current_sessions-le-one (registers 1 0 ∷ registers 2 5 ∷ [])
