-- ===== src/Session/Login.antt =====
-- What it takes to get past `authenticateCallback`.
use screen_viewer.Prelude.{
  ℕ, ◌≡◌, ◌≢◌, refl, ◌∙◌, arith, Bool, true, false, Bool-cases, inl, inr, Option, none, some, Bytes,
  ap, sym, ==_iff,
}
use screen_viewer.Message.{Message, MessageType, Checked, ok, err, is_type, login}
use screen_viewer.Outcome.{json_exception, Outcome, done, thrown, after, final, or_throw}
use screen_viewer.UsersManager.{authenticate as authenticate_user}
use screen_viewer.Json.{read_credentials}
use screen_viewer.Message.{type_code, cast_type}
use screen_viewer.Message.Header.{cast_type-type_code}
use screen_viewer.World.{Env, World}
use screen_viewer.Session.{authenticate, ask_users, with_users, authenticate_callback, answer_login}
use screen_viewer.Session.Frame.{
  Framed, pending_of, authenticate-Framed, disconnect-Framed, send_nack-Framed,
}

is_type-login : (type : MessageType) → is_type type login ≡ true → type ≡ login
unfolding is_type type_code
is_type-login type e =
    sym (cast_type-type_code type)
    ∙ ap cast_type ((==_iff (type_code type) (type_code login)).0 e)
    ∙ cast_type-type_code login

module _ (env : Env) where
  open env use {transport as t, json, database as db, crypt}

  -- The content of the message parses to an object whose email and password the database accepts,
  -- while the users manager is alive.
  pub record LogsIn (w : World env) (message : Message) : Type 0 where
    pub email : Bytes
    pub password : Bytes
    pub users : db.State
    pub users' : db.State
    pub reads : read_credentials json message.content ≡ ok (email, password)
    pub alive : w.users ≡ some users
    pub accepted : authenticate_user db crypt email password users ≡ done true users'

  with_users-true :
      (w : World env) (o : Outcome db.State Bool) {w' : World env}
      → with_users env w o ≡ done true w'
      → (users : db.State) × (o ≡ done true users)
  unfolding with_users
  with_users-true w (done b users) e = (users, ground arith)
  with_users-true w (thrown x users) e = cc

  ask_users-true :
      (email password : Bytes) (w : World env) (users : Option db.State) {w' : World env}
      → ask_users env email password w users ≡ done true w'
      → (u u' : db.State) × (users ≡ some u)
        × (authenticate_user db crypt email password u ≡ done true u')
  unfolding ask_users
  ask_users-true email password w none e = cc
  ask_users-true email password w (some u) e =
      let (u', answered) = with_users-true w (authenticate_user db crypt email password u) e in
      (u, u', refl, answered)

  fields-LogsIn :
      (w w' : World env) (message : Message) (r : Checked Bytes (Bytes × Bytes))
      → read_credentials json message.content ≡ r
      → after
          (or_throw json_exception r w)
          (λ fields w1. ask_users env fields.0 fields.1 w1 w1.users)
        ≡ done true w'
      → LogsIn w message
  fields-LogsIn w w' message (ok (email, password)) r e =
      let (u, u', alive, accepted) = ask_users-true email password w w.users e in
      record {
        email = email;
        password = password;
        users = u;
        users' = u';
        reads = r;
        alive = alive;
        accepted = accepted;
      }
  fields-LogsIn w w' message (err x) r e = cc

  authenticate-LogsIn :
      (w w' : World env) (message : Message)
      → authenticate env message w ≡ done true w'
      → LogsIn w message
  unfolding authenticate
  authenticate-LogsIn w w' message e =
      fields-LogsIn w w' message (read_credentials json message.content) refl e

  answered-true :
      (w : World env) (self : ℕ) (o : Outcome (World env) Bool)
      → Framed env w o
      → pending_of env w self ≡ none
      → pending_of env (final (after o (answer_login env self))) self ≢ none
      → (w' : World env) × (o ≡ done true w')
  unfolding answer_login
  answered-true w self (done true w') f quiet reads = (w', refl)
  answered-true w self (done false w') f quiet reads = absurd (
      reads (
        (send_nack-Framed env self w').frame.same_pending self ∙ f.frame.same_pending self ∙ quiet))
  answered-true w self (thrown e w') f quiet reads =
      absurd (reads (f.frame.same_pending self ∙ quiet))

  -- A session with no read outstanding has one after `authenticateCallback` only if the message was
  -- a LOGIN with credentials that the database accepts.
  pub authenticate_callback-LogsIn :
      (w : World env) (self : ℕ) (message : Message)
      → pending_of env w self ≡ none
      → pending_of env (final (authenticate_callback env self message w)) self ≢ none
      → (message.type ≡ login) × LogsIn w message
  unfolding authenticate_callback
  authenticate_callback-LogsIn w self message quiet reads =
      elim (Bool-cases (is_type message.type login)) [
        | inl hit ↦
            let (w', answered) =
              answered-true w self (authenticate env message w) (authenticate-Framed env message w)
                quiet (rw hit at reads) in
            (is_type-login message.type hit, authenticate-LogsIn w w' message answered)
        | inr miss ↦
            absurd (
              (rw miss at reads) ((disconnect-Framed env self _ w).frame.same_pending self ∙ quiet))
      ]
