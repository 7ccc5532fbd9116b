-- ===== src/Programs/Accounts.antt =====
-- An account that the program add_user has made lets its owner in.
use screen_viewer.Prelude.{ℕ, ◌≤◌, ◌≡◌, ap, true, List, ◌∷◌, ◌++◌, some, Bytes, length}
use screen_viewer.Message.{Checked, ok, err, login as login_type}
use screen_viewer.Outcome.{Exception, done, after-eq-done, final, or_throw}
use screen_viewer.Transport.{Transport, Lawful}
use screen_viewer.Json.{LawfulJson}
use screen_viewer.UsersManager.{Database, IsTable, Crypt, add_user}
use screen_viewer.UsersManager.Accounts.{add_user-authenticate}
use screen_viewer.Socket.{Socket, header_read, send, buffer_size}
use screen_viewer.Socket.Delivery.{Holds}
use screen_viewer.World.{
  Env, World, authenticate_callback as on_authenticate, handle_read as on_read,
}
use screen_viewer.ClientSocket.{login}
use screen_viewer.Session.{first_message_max_size}
use screen_viewer.Session.Answers.{complete_twice}
use screen_viewer.Session.Conversation.{login-Verdict}
use screen_viewer.Programs.{Address, new_users_manager, add_user_main}

same_state :
    {S E : Type 0} (f : E → Exception) (r : Checked E (Unit {0})) (s s' : S)
    → or_throw f r s ≡ done tt s'
    → s ≡ s'
same_state f (ok _) s s' e = ap final e
same_state f (err x) s s' e = cc

-- The program has added the account.
add_user_main-add_user :
    (db : Database) (crypt : Crypt) (connect : Address → Checked Exception (Unit {0})) (salt : ℕ)
    (name email password : Bytes) (arguments : List Bytes) (s s' : db.State)
    → add_user_main db crypt connect salt (name ∷ email ∷ password ∷ arguments) s ≡ done 0 s'
    → add_user db crypt salt email password s ≡ done tt s'
unfolding add_user_main new_users_manager
add_user_main-add_user db crypt connect salt name email password arguments s s' e =
    let (_, s1, e1, e2) = after-eq-done (or_throw (λ (x : Exception). x) (connect _) s) _ e in
    let (_, s2, e3, e4) = after-eq-done (add_user db crypt salt email password s1) _ e2 in
    let before : s ≡ s1 = same_state (λ (x : Exception). x) (connect _) s s1 e1 in
    let behind : s2 ≡ s' = ap final e4 in rw (before, ← behind) e3

module _ (env : Env) (law : Lawful env.transport) (lawful_json : LawfulJson env.json)
    (table : IsTable env.database) (t : Transport) (client_law : Lawful t) {H : Type 0} where
  open env use {json, database as db, crypt}

  -- If the program add_user has returned 0 for an email and a password whose hash validates it, and their JSON
  -- has at most 1000 bytes, then the `login` of a client whose message with them has arrived at a session
  -- that waits for its first one, over that database and with writes that succeed, and at which the
  -- session's answer arrives, returns, and the session reads the next message.
  pub add_user_main-login :
      (connect : Address → Checked Exception (Unit {0})) (salt : ℕ) (name email password : Bytes)
      (arguments : List Bytes) (s s' : db.State) (self : ℕ) (w : World env) (c c' : Socket t H)
      (sent answered : Bytes)
      → crypt.validate_password password (crypt.generate_hash salt password) ≡ true
      → add_user_main db crypt connect salt (name ∷ email ∷ password ∷ arguments) s ≡ done 0 s'
      → ((bytes : Bytes) (x : env.transport.Stream)
          → (x' : env.transport.Stream) × (env.transport.write bytes x ≡ done tt x'))
      → length (json.credentials email password) ≤ first_message_max_size
      → send t (record { type = login_type; content = json.credentials email password }) c
        ≡ done tt c'
      → client_law.outgoing c'.stream ≡ client_law.outgoing c.stream ++ sent
      → (w.sockets self).pending ≡ some (header_read on_authenticate first_message_max_size)
      → Holds env.transport law sent (w.sockets self)
      → w.users ≡ some s'
      → law.outgoing ((final (complete_twice env self w)).sockets self).stream
        ≡ law.outgoing (w.sockets self).stream ++ answered
      → Holds t client_law answered c'
      → (((final (complete_twice env self w)).sockets self).pending
          ≡ some (header_read on_read buffer_size))
        × (d : Socket t H) × (login t json email password c ≡ done tt d)
  add_user_main-login connect salt name email password arguments s s' self w c c' sent answered
        valid added writes short e out waits held users answers held' =
      let opens =
        add_user-authenticate db crypt table salt email password s s' valid
          (add_user_main-add_user db crypt connect salt name email password arguments s s' added) in
      let (reads, acknowledged) =
        login-Verdict env law lawful_json t client_law email password true s' s' self w c c' sent
          answered writes short e out waits held users opens answers held' in
      (reads, acknowledged.0, acknowledged.1)
