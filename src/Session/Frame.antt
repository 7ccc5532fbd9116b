-- ===== src/Session/Frame.antt =====
-- What the calls of a handler leave alone.
use screen_viewer.Prelude.{ℕ, ◌≡◌, refl, ◌∙◌, arith, Bool, Option, none, some, Bytes, []}
use screen_viewer.Message.{Message, Checked, ok, err, ack, nack}
use screen_viewer.Outcome.{
  Exception, json_exception, Outcome, done, thrown, M, after, final, or_throw,
}
use screen_viewer.Socket.{Socket, Pending, send, send_ack, send_nack, disconnect, safe_disconnect}
use screen_viewer.Socket.Keeps.{send-Keeps, disconnect-Keeps, safe_disconnect-Keeps}
use screen_viewer.UsersManager.{authenticate as authenticate_user}
use screen_viewer.Json.{read_credentials}
use screen_viewer.World.{Env, Callback, World, with_socket, on_socket}
use screen_viewer.Session.{authenticate, ask_users, with_users, remote_address}

module _ (env : Env) where
  open env use {transport as t, json, database as db, crypt}

  abbrev pub pending_of : World env → ℕ → Option (Pending Callback)
  pending_of w j = (w.sockets j).pending

  -- From `w` to `w'` no outstanding read, registration or bridge has changed.
  pub record Frame (w w' : World env) : Type 0 where
    pub same_pending : (j : ℕ) → pending_of w' j ≡ pending_of w j
    pub same_manager : w'.manager ≡ w.manager
    pub same_bridges : w'.bridges ≡ w.bridges
    pub same_next : w'.next_session ≡ w.next_session

  pub Frame-refl : (w : World env) → Frame w w
  Frame-refl w = record {
    same_pending = λ j. refl;
    same_manager = refl;
    same_bridges = refl;
    same_next = refl;
  }

  pub Frame-trans : {u v w : World env} → Frame u v → Frame v w → Frame u w
  Frame-trans f g = record {
    same_pending = λ j. g.same_pending j ∙ f.same_pending j;
    same_manager = g.same_manager ∙ f.same_manager;
    same_bridges = g.same_bridges ∙ f.same_bridges;
    same_next = g.same_next ∙ f.same_next;
  }

  -- A call, ended either way, has kept to the frame.
  pub record Framed {κ} {A : Type κ} (w : World env) (o : Outcome (World env) A) : Type 0 where
    pub frame : Frame w (final o)

  pub with_socket-Framed {κ} :
      {A : Type κ} (i : ℕ) (w : World env) (o : Outcome (Socket t Callback) A)
      → (final o).pending ≡ pending_of w i
      → Framed w (with_socket env i w o)
  with_socket-Framed i w (done a s) e = record {
    frame = record {
      same_pending = λ j. ground arith;
      same_manager = refl;
      same_bridges = refl;
      same_next = refl;
    };
  }
  with_socket-Framed i w (thrown x s) e = record {
    frame = record {
      same_pending = λ j. ground arith;
      same_manager = refl;
      same_bridges = refl;
      same_next = refl;
    };
  }

  pub on_socket-Framed {κ} :
      {A : Type κ} (i : ℕ) (m : M (Socket t Callback) A) (w : World env)
      → (final (m (w.sockets i))).pending ≡ pending_of w i
      → Framed w (on_socket env i m w)
  on_socket-Framed i m w e = with_socket-Framed i w (m (w.sockets i)) e

  pub send-Framed :
      (i : ℕ) (message : Message) (w : World env) → Framed w (on_socket env i (send t message) w)
  send-Framed i message w =
      on_socket-Framed i (send t message) w (send-Keeps t message (w.sockets i)).1

  pub send_ack-Framed : (i : ℕ) (w : World env) → Framed w (on_socket env i (send_ack t) w)
  unfolding send_ack
  send_ack-Framed i w = send-Framed i (record { type = ack; content = [] }) w

  pub send_nack-Framed : (i : ℕ) (w : World env) → Framed w (on_socket env i (send_nack t) w)
  unfolding send_nack
  send_nack-Framed i w = send-Framed i (record { type = nack; content = [] }) w

  pub disconnect-Framed :
      (i : ℕ) (reason : Option Bytes) (w : World env)
      → Framed w (on_socket env i (disconnect t reason) w)
  disconnect-Framed i reason w =
      on_socket-Framed i (disconnect t reason) w (disconnect-Keeps t reason (w.sockets i)).1

  pub safe_disconnect-Framed :
      (i : ℕ) (reason : Option Bytes) (w : World env)
      → Framed w (on_socket env i (safe_disconnect t reason) w)
  safe_disconnect-Framed i reason w =
      on_socket-Framed i (safe_disconnect t reason) w
        (safe_disconnect-Keeps t reason (w.sockets i)).1

  pub after-Framed {κ ι} :
      {A : Type κ} {B : Type ι} (w : World env) (o : Outcome (World env) A)
      (f : A → M (World env) B)
      → Framed w o
      → ((a : A) (w' : World env) → Framed w' (f a w'))
      → Framed w (after o f)
  after-Framed w (done a w') f k h = record { frame = Frame-trans k.frame (h a w').frame }
  after-Framed w (thrown e w') f k h = record { frame = k.frame }

  or_throw-Framed {κ} :
      {A : Type κ} {E : Type 0} (w : World env) (f : E → Exception) (r : Checked E A)
      → Framed w (or_throw f r w)
  or_throw-Framed w f (ok a) = record { frame = Frame-refl w }
  or_throw-Framed w f (err e) = record { frame = Frame-refl w }

  pub remote_address-Framed : (i : ℕ) (w : World env) → Framed w (remote_address env i w)
  remote_address-Framed i w =
      or_throw-Framed w (λ (e : Exception). e) (t.remote_endpoint (w.sockets i).stream)

  with_users-Framed : (w : World env) (o : Outcome db.State Bool) → Framed w (with_users env w o)
  unfolding with_users
  with_users-Framed w (done a s) = record {
    frame = record {
      same_pending = λ j. refl;
      same_manager = refl;
      same_bridges = refl;
      same_next = refl;
    };
  }
  with_users-Framed w (thrown e s) = record {
    frame = record {
      same_pending = λ j. refl;
      same_manager = refl;
      same_bridges = refl;
      same_next = refl;
    };
  }

  ask_users-Framed :
      (email password : Bytes) (w : World env) (users : Option db.State)
      → Framed w (ask_users env email password w users)
  unfolding ask_users
  ask_users-Framed email password w none = record { frame = Frame-refl w }
  ask_users-Framed email password w (some users) =
      with_users-Framed w (authenticate_user db crypt email password users)

  pub authenticate-Framed :
      (message : Message) (w : World env) → Framed w (authenticate env message w)
  unfolding authenticate
  authenticate-Framed message w =
      after-Framed w _ _ (or_throw-Framed w json_exception (read_credentials json message.content))
        λ fields w1. ask_users-Framed fields.0 fields.1 w1 w1.users
