-- ===== src/Session/Conversation.antt =====
-- A login, from the client's message to the answer that the client gets: `login` of src/ClientSocket.cpp
-- and `authenticateCallback` of src/AuthenticatedSession.cpp.
use screen_viewer.Prelude.{
  ℕ, ◌≤◌, ◌≡◌, refl, sym, ap, ◌∙◌, arith, Bool, true, false, some, Bytes, length, [], ◌++◌,
  append-nil, subst,
}
use screen_viewer.Message.{Message, login as login_type, ack, nack, is_type, type_code}
use mathlib.Core.List.{append_cancel_left}
use screen_viewer.ClientSocket.{login}
use screen_viewer.ClientSocket.Requests.{receive_to_buffer-frame}
use screen_viewer.Outcome.{after, Outcome, done, thrown, final, not_acknowledged}
use screen_viewer.Transport.{Transport, Lawful}
use screen_viewer.Json.{LawfulJson}
use screen_viewer.UsersManager.{authenticate as authenticate_user}
use screen_viewer.Socket.{Socket, header_read, send, receive_ack, buffer_size, additional_message}
use screen_viewer.Socket.Framing.{frame}
use screen_viewer.Socket.Delivery.{Holds, sent-frame}
use screen_viewer.World.{Env, World, authenticate_callback as on_authenticate}
use screen_viewer.Session.{first_message_max_size}
use screen_viewer.Session.Answers.{verdict_type, next_read, complete_twice, login-Answers}

first_message_max_size-le : first_message_max_size ≤ buffer_size
unfolding buffer_size
first_message_max_size-le = omega arith

-- What the client makes of the answer: it goes on, or throws that the login was not acknowledged.
abbrev pub Verdict : {S : Type 0} → Bool → Outcome S (Unit {0}) → Type 0
Verdict {S = S} true o = (s : S) × (o ≡ done tt s)
Verdict {S = S} false o = (s : S) × (o ≡ thrown (not_acknowledged nack 0 []) s)

receive_ack-Verdict :
    (t : Transport) (law : Lawful t) {H : Type 0} (verdict : Bool) (s : Socket t H)
    → Holds t law (frame (verdict_type verdict) []) s
    → Verdict verdict (receive_ack t s)
unfolding receive_ack is_type type_code additional_message
receive_ack-Verdict t law true s held =
    let (s', got, _) =
      receive_to_buffer-frame t law (record { type = ack; content = [] }) [] s (omega arith)
        (held.0, held.1 ∙ sym (append-nil _)) in
    (s', rw got refl)
receive_ack-Verdict t law false s held =
    let (s', got, _) =
      receive_to_buffer-frame t law (record { type = nack; content = [] }) [] s (omega arith)
        (held.0, held.1 ∙ sym (append-nil _)) in
    (s', rw got refl)

module _ (env : Env) (law : Lawful env.transport) (lawful_json : LawfulJson env.json)
    (t : Transport) (client_law : Lawful t) {H : Type 0} where
  open env use {json, database as db, crypt}

  -- A login, with both ends of it: if the client has sent credentials of at most 1000 bytes in JSON, and
  -- what it has written has arrived at a session that waits for its first message, whose writes succeed,
  -- and the users manager is alive and answers, then after the session's two completed reads a read of
  -- the next message is outstanding exactly if the answer was yes; and if what the session has written
  -- is what arrives at the client behind its message, then the client's `login` returns if the answer
  -- was yes, and throws that the login was not acknowledged if it was not.
  pub login-Verdict :
      (email password : Bytes) (verdict : Bool) (users users' : db.State) (self : ℕ) (w : World env)
      (c c' : Socket t H) (sent answered : Bytes)
      → ((bytes : Bytes) (x : env.transport.Stream)
          → (x' : env.transport.Stream) × (env.transport.write bytes x ≡ done tt x'))
      → length (json.credentials email password) ≤ first_message_max_size
      → send t (record { type = login_type; content = json.credentials email password }) c
        ≡ done tt c'
      → client_law.outgoing c'.stream ≡ client_law.outgoing c.stream ++ sent
      → (w.sockets self).pending ≡ some (header_read on_authenticate first_message_max_size)
      → Holds env.transport law sent (w.sockets self)
      → w.users ≡ some users
      → authenticate_user db crypt email password users ≡ done verdict users'
      → law.outgoing ((final (complete_twice env self w)).sockets self).stream
        ≡ law.outgoing (w.sockets self).stream ++ answered
      → Holds t client_law answered c'
      → (((final (complete_twice env self w)).sockets self).pending ≡ next_read verdict)
        × Verdict verdict (login t json email password c)
  unfolding login
  login-Verdict email password verdict users users' self w c c' sent answered writes short e out
        waits held alive accepted answers held' =
      let message : Message = record {
        type = login_type;
        content = json.credentials email password;
      } in
      let whole : sent ≡ frame login_type message.content =
        sent-frame t client_law message c c' sent (omega (arith, short, first_message_max_size-le))
          e out in
      let (w', both, a) =
        login-Answers env law writes email password verdict users users' self w
          (lawful_json.reads_back email password) short waits (held.0, held.1 ∙ whole) alive
          accepted in
      let same : final (complete_twice env self w) ≡ w' = ap final both in
      let answer : answered ≡ frame (verdict_type verdict) [] =
        append_cancel_left (law.outgoing (w.sockets self).stream) answered
          (frame (verdict_type verdict) [])
          (sym answers
            ∙ ap (λ (k : World env). law.outgoing (k.sockets self).stream) same
            ∙ a.answer) in
      (
        ap (λ (k : World env). (k.sockets self).pending) same ∙ a.reads_on,
        subst (Verdict verdict) (sym (ap (λ o. after o (λ _. receive_ack t)) e))
            (receive_ack-Verdict t client_law verdict c' (held'.0, held'.1 ∙ answer)),
      )
