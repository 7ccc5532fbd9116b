-- ===== src/Session/Answers.antt =====
-- What a session does with a login: `authenticateCallback` of src/AuthenticatedSession.cpp, from the read to
-- the answer.
use screen_viewer.Prelude.{
  ℕ, ◌≤◌, ◌≡◌, refl, sym, ap, ◌∙◌, arith, Bool, true, false, Option, none, some, Bytes, length, [],
  ◌∷◌, ◌++◌, append-nil, le→ltb_false,
}
use screen_viewer.Message.{Message, MessageType, ok, login as login_type, ack, nack}
use screen_viewer.Message.Header.{is_type_self}
use screen_viewer.Outcome.{M, ◌>>◌, done}
use screen_viewer.Transport.{Transport, Lawful}
use screen_viewer.Json.{read_credentials}
use screen_viewer.UsersManager.{authenticate as authenticate_user}
use screen_viewer.Socket.{
  Pending, Socket, header_read, poll, send, send_ack, send_nack, buffer_size, async_read_message,
}
use screen_viewer.Socket.Framing.{frame, send-write_frames, Splits-fits, write_frames}
use screen_viewer.Socket.Delivery.{Holds}
use screen_viewer.Socket.Async.{poll_reads}
use screen_viewer.World.{
  Env, World, Callback, authenticate_callback as on_authenticate, handle_read as on_read, update,
  update_self,
}
use screen_viewer.Session.{
  complete, handle, callback, authenticate_callback, authenticate, ask_users, with_users,
  answer_login, schedule_new_async_read, first_message_max_size,
}

pub nothing-le : length {A = ℕ} [] ≤ buffer_size
nothing-le = omega arith

module _ (t : Transport) (law : Lawful t) {H : Type 0} where
  -- A message without content, where the writes succeed.
  pub send_empty :
      (writes : (bytes : Bytes) (x : t.Stream) → (x' : t.Stream) × (t.write bytes x ≡ done tt x'))
      (type : MessageType) (s : Socket t H)
      → (x : t.Stream) × (send t (record { type = type; content = [] }) s
          ≡ done tt (record s { stream = x }))
        × (law.outgoing x ≡ law.outgoing s.stream ++ frame type [])
  send_empty writes type s =
      let (chunks, splits, all) = send-write_frames t (record { type = type; content = [] }) in
      let one : chunks ≡ [] ∷ [] = Splits-fits nothing-le splits in
      let (x, wrote) = writes (frame type []) s.stream in
      (
        x,
        all s ∙ ap (λ cs. write_frames t type cs s) one ∙ rw wrote refl,
        (law.write_done (frame type []) s.stream x wrote).0,
      )

abbrev pub verdict_type : Bool → MessageType
verdict_type true = ack
verdict_type false = nack

-- The read that the session leaves.
abbrev pub next_read : Bool → Option (Pending Callback)
next_read true = some (header_read on_read buffer_size)
next_read false = none

abbrev pub stored : (env : Env) → ℕ → World env → Socket env.transport Callback → World env
stored env self w s = record w { sockets = update w.sockets self s }

-- The session's two completed reads.
abbrev pub complete_twice : (env : Env) → ℕ → M (World env) (Unit {0})
complete_twice env self = do complete env self; complete env self

module _ (env : Env) (law : Lawful env.transport) where
  open env use {transport as t, json, database as db, crypt}

  -- A completed read of which nothing is made yet.
  pub complete-none :
      (self : ℕ) (w : World env) (s : Socket t Callback)
      → poll t (w.sockets self) ≡ done none s
      → complete env self w ≡ done tt (stored env self w s)
  unfolding complete handle
  complete-none self w s e = rw e refl

  pub complete-some :
      (self : ℕ) (w : World env) (h : Callback) (m : Message) (s : Socket t Callback)
      → poll t (w.sockets self) ≡ done (some (h, m)) s
      → complete env self w ≡ handle env self (some (h, m)) (stored env self w s)
  unfolding complete
  complete-some self w h m s e = rw e refl

  -- What the database says, for credentials that can be read.
  authenticate_verdict :
      (email password : Bytes) (verdict : Bool) (users users' : db.State) (message : Message)
      (w : World env)
      → read_credentials json message.content ≡ ok (email, password)
      → w.users ≡ some users
      → authenticate_user db crypt email password users ≡ done verdict users'
      → authenticate env message w ≡ done verdict (record w { users = some users' })
  unfolding authenticate ask_users with_users
  authenticate_verdict email password verdict users users' message w reads alive answer =
      rw reads (ap (ask_users env email password w) alive ∙ ap (with_users env w) answer)

  -- What a session has done with a login.
  pub record Answers (self : ℕ) (verdict : Bool) (w w' : World env) : Type 0 where
    pub answer :
        law.outgoing (w'.sockets self).stream
        ≡ law.outgoing (w.sockets self).stream ++ frame (verdict_type verdict) []
    pub reads_on : (w'.sockets self).pending ≡ next_read verdict

  module _
      (writes : (bytes : Bytes) (x : t.Stream)
        → (x' : t.Stream) × (t.write bytes x ≡ done tt x')) where
    answer_login-Answers :
        (self : ℕ) (verdict : Bool) (w : World env)
        → (w.sockets self).pending ≡ none
        → (w' : World env) × (answer_login env self verdict w ≡ done tt w')
          × Answers self verdict w w'
    unfolding answer_login schedule_new_async_read async_read_message send_ack send_nack
    answer_login-Answers self true w quiet =
        let (x, sent, out) = send_empty t law writes ack (w.sockets self) in
        let s1 = record (w.sockets self) { stream = x } in
        let w1 = stored env self w s1 in
        let at1 : w1.sockets self ≡ s1 = update_self w.sockets self s1 in
        let s2 = record (w1.sockets self) { pending = next_read true } in
        let again = le→ltb_false buffer_size buffer_size (omega arith) in
        (
          stored env self w1 s2,
          rw (sent, again) refl,
          record {
            answer =
                ap (λ (s : Socket t Callback). law.outgoing s.stream)
                  (update_self w1.sockets self s2)
                ∙ ap (λ (s : Socket t Callback). law.outgoing s.stream) at1
                ∙ out;
            reads_on = ap (λ (s : Socket t Callback). s.pending) (update_self w1.sockets self s2);
          },
        )
    answer_login-Answers self false w quiet =
        let (x, sent, out) = send_empty t law writes nack (w.sockets self) in
        let s1 = record (w.sockets self) { stream = x } in
        let at1 = update_self w.sockets self s1 in
        (
          stored env self w s1,
          rw sent refl,
          record {
            answer = ap (λ (s : Socket t Callback). law.outgoing s.stream) at1 ∙ out;
            reads_on = ap (λ (s : Socket t Callback). s.pending) at1 ∙ quiet;
          },
        )

    pub login-Answers :
        (email password : Bytes) (verdict : Bool) (users users' : db.State) (self : ℕ)
        (w : World env)
        → read_credentials json (json.credentials email password) ≡ ok (email, password)
        → length (json.credentials email password) ≤ first_message_max_size
        → (w.sockets self).pending ≡ some (header_read on_authenticate first_message_max_size)
        → Holds t law (frame login_type (json.credentials email password)) (w.sockets self)
        → w.users ≡ some users
        → authenticate_user db crypt email password users ≡ done verdict users'
        → (w' : World env) × (complete_twice env self w ≡ done tt w') × Answers self verdict w w'
    unfolding handle callback authenticate_callback
    login-Answers email password verdict users users' self w reads short waits held alive answer =
        let message : Message = record {
          type = login_type;
          content = json.credentials email password;
        } in
        let (s1, s2, e1, e2, quiet, left, silent) =
          poll_reads t law on_authenticate first_message_max_size message [] (w.sockets self) waits
            short (omega arith) (held.0, held.1 ∙ sym (append-nil _)) in
        let w1 = stored env self w s1 in
        let at1 = update_self w.sockets self s1 in
        let w2 = stored env self w1 s2 in
        let at2 = update_self w1.sockets self s2 in
        let w3 : World env = record w2 { users = some users' } in
        let e3 =
          authenticate_verdict email password verdict users users' message w2 reads alive answer in
        let (w', e4, a) =
          answer_login-Answers self verdict w3
            (ap (λ (s : Socket t Callback). s.pending) at2 ∙ quiet) in
        let second = complete-some self w1 on_authenticate message s2 (ap (poll t) at1 ∙ e2) in
        (
          w',
          rw (complete-none self w s1 e1, second, is_type_self login_type, e3, e4) refl,
          record {
            answer =
                a.answer
                ∙ ap (λ b. b ++ frame (verdict_type verdict) [])
                    (ap (λ (s : Socket t Callback). law.outgoing s.stream) at2 ∙ silent);
            reads_on = a.reads_on;
          },
        )
