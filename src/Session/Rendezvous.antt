-- ===== src/Session/Rendezvous.antt =====
-- A client and its streamer at the proxy: `findOtherClient` and `waitForStartStreamMessage` of
-- src/ClientSocket.cpp on the two ends, and `handleRead` of src/ProxySession.cpp between them.
use screen_viewer.Prelude.{
  ℕ, ◌≤◌, ◌<◌, ◌≡◌, ◌≢◌, refl, sym, ap, ◌∙◌, arith, Bool, true, false, List, [], ◌∷◌, ◌++◌, ◌==◌,
  if◌then◌else◌, Bool-cases, inl, inr, Option, none, some, Bytes, length, append-nil, subst,
}
use mathlib.Core.List.{append_cancel_left}
use screen_viewer.Message.{Message, find_streamer, ack, nack, start_stream, is_type, type_code, ok}
use screen_viewer.Outcome.{done, final}
use screen_viewer.Transport.{Transport, Lawful}
use screen_viewer.Socket.{Socket, header_read, poll, send, buffer_size}
use screen_viewer.Socket.Framing.{frame}
use screen_viewer.Socket.Delivery.{Holds, sent-frame}
use screen_viewer.Socket.Async.{poll_reads}
use screen_viewer.SessionsManager.{TimedClientSession, find}
use screen_viewer.World.{Env, World, Callback, proxy_session, handle_read as on_read, update_self}
use screen_viewer.ClientSocket.{find_other_client, wait_for_start_stream_message}
use screen_viewer.ClientSocket.Requests.{
  receive_to_buffer-frame, wait_for_start_stream_message-true,
}
use screen_viewer.Session.{handle, callback}
use screen_viewer.Session.Invariant.{AllRegistered}
use screen_viewer.Session.Answers.{
  stored, complete_twice, complete-none, complete-some, verdict_type, nothing-le,
}
use screen_viewer.Session.Meeting.{written, Answered, bridged, refused, handle_read-Answered}

abbrev pub is_found : Option TimedClientSession → Bool
is_found none = false
is_found (some s) = true

-- What the client makes of the answer.
find_other_client-answer :
    (t : Transport) (law : Lawful t) {H : Type 0} (found : Bool) (code : Bytes) (c c' : Socket t H)
    → send t (record { type = find_streamer; content = code }) c ≡ done tt c'
    → Holds t law (frame (verdict_type found) []) c'
    → (d : Socket t H) × (find_other_client t code c ≡ done found d)
unfolding find_other_client is_type type_code
find_other_client-answer t law true code c c' e held =
    let (d, got, _) =
      receive_to_buffer-frame t law (record { type = ack; content = [] }) [] c' nothing-le
        (held.0, held.1 ∙ sym (append-nil _)) in
    (d, rw (e, got) refl)
find_other_client-answer t law false code c c' e held =
    let (d, got, _) =
      receive_to_buffer-frame t law (record { type = nack; content = [] }) [] c' nothing-le
        (held.0, held.1 ∙ sym (append-nil _)) in
    (d, rw (e, got) refl)

module _ (env : Env) (law : Lawful env.transport) where
  open env use {transport as t}

  -- Reads alone do not show in what has been written.
  Answered-silent :
      (self : ℕ) (code : Bytes) (w w2 w' : World env) (r : Option TimedClientSession)
      → ((j : ℕ) → written env law w2 j ≡ written env law w j)
      → w2.bridges ≡ w.bridges
      → w2.manager ≡ w.manager
      → Answered env law self code w2 w' r
      → Answered env law self code w w' r
  Answered-silent self code w w2 w' r silent b m (bridged s to_self to_node bridges gone) =
      bridged s (to_self ∙ ap (λ x. x ++ frame ack []) (silent self))
        (to_node ∙ ap (λ x. x ++ frame start_stream []) (silent s.client_session))
        (bridges ∙ ap (λ l. record { peer_one = s.client_session; peer_two = self } ∷ l) b) gone
  Answered-silent self code w w2 w' r silent b m (refused to_self reads bridges kept) =
      refused (to_self ∙ ap (λ x. x ++ frame nack []) (silent self)) reads (bridges ∙ b) (kept ∙ m)

  pub to_client :
      (self : ℕ) (code : Bytes) (w w' : World env) (r : Option TimedClientSession)
      → Answered env law self code w w' r
      → written env law w' self ≡ written env law w self ++ frame (verdict_type (is_found r)) []
  to_client self code w w' r (bridged s to_self to_node bridges gone) = to_self
  to_client self code w w' r (refused to_self reads bridges kept) = to_self

  -- A streamer that was found has been told to start, is bridged, and is not registered any more.
  pub to_streamer :
      (self : ℕ) (code : Bytes) (w w' : World env) {r : Option TimedClientSession}
      (s : TimedClientSession)
      → Answered env law self code w w' r
      → r ≡ some s
      → (written env law w' s.client_session
          ≡ written env law w s.client_session ++ frame start_stream [])
        × (w'.bridges ≡ record { peer_one = s.client_session; peer_two = self } ∷ w.bridges)
        × (find code w'.manager.senders_sessions ≡ none)
  to_streamer self code w w' s (bridged x to_self to_node bridges gone) e =
      let same : x ≡ s = cc in
      (
        subst
            (λ (k : TimedClientSession).
              written env law w' k.client_session
              ≡ written env law w k.client_session ++ frame start_stream [])
            same to_node,
        bridges
            ∙ ap
                (λ (k : TimedClientSession).
                  record { peer_one = k.client_session; peer_two = self } ∷ w.bridges)
                same,
        gone,
      )
  to_streamer self code w w' s (refused to_self reads bridges kept) e = cc

  stored_twice :
      (self : ℕ) (w : World env) (s1 s2 : Socket t Callback)
      → law.outgoing s2.stream ≡ law.outgoing (w.sockets self).stream
      → (j : ℕ)
      → written env law (stored env self (stored env self w s1) s2) j ≡ written env law w j
  stored_twice self w s1 s2 silent j =
      let at : Bool → Bytes =
        λ b. law.outgoing (if b then s2 else (if b then s1 else w.sockets j)).stream in
      elim (Bool-cases (self == j)) [
        | inl hit ↦
            let same : self ≡ j = ground arith in
            ap at hit ∙ silent ∙ ap (λ k. law.outgoing (w.sockets k).stream) same
        | inr miss ↦ ap at miss
      ]

  module _
      (writes : (bytes : Bytes) (x : t.Stream) → (x' : t.Stream) × (t.write bytes x ≡ done tt x'))
      (addresses : (x : t.Stream) → (a : Bytes) × (t.remote_endpoint x ≡ ok a)) where
    -- The session's two completed reads, and what it makes of the request.
    pub complete_twice-Answered :
        (self : ℕ) (code : Bytes) (w : World env)
        → length code ≤ buffer_size
        → AllRegistered env (λ j. j ≢ self) w
        → w.kinds self ≡ proxy_session
        → (w.sockets self).pending ≡ some (header_read on_read buffer_size)
        → Holds t law (frame find_streamer code) (w.sockets self)
        → (w' : World env) × (complete_twice env self w ≡ done tt w')
          × Answered env law self code w w' (find code w.manager.senders_sessions)
    unfolding handle callback buffer_size
    complete_twice-Answered self code w fits free proxy waits held =
        let message : Message = record { type = find_streamer; content = code } in
        let (s1, s2, e1, e2, quiet, left, silent) =
          poll_reads t law on_read buffer_size message [] (w.sockets self) waits fits (omega arith)
            (held.0, held.1 ∙ sym (append-nil _)) in
        let w1 = stored env self w s1 in
        let at1 = update_self w.sockets self s1 in
        let w2 = stored env self w1 s2 in
        let (w', e3, a) = handle_read-Answered env law writes addresses self code w2 free in
        let second = complete-some env law self w1 on_read message s2 (ap (poll t) at1 ∙ e2) in
        (
          w',
          rw (complete-none env law self w s1 e1, second, proxy, e3) refl,
          Answered-silent self code w w2 w' _ (stored_twice self w s1 s2 silent) refl refl a,
        )

module _ (env : Env) (law : Lawful env.transport) (t : Transport) (client_law : Lawful t)
    {H : Type 0} where
  -- A search, with both ends of it: if a client has sent FIND_STREAMER with a code that fits the buffer,
  -- and what it has written has arrived at a proxy session that waits for its next message and is not
  -- itself registered, every peer has an address and the session's writes succeed, and if what the
  -- session has written in its two completed reads is what arrives at the client behind its message,
  -- then `findOtherClient` returns true if a streamer waits under the code, and false if none does.
  pub find_other_client-is_found :
      (self : ℕ) (code : Bytes) (w : World env) (c c' : Socket t H) (sent answered : Bytes)
      → ((bytes : Bytes) (x : env.transport.Stream)
          → (x' : env.transport.Stream) × (env.transport.write bytes x ≡ done tt x'))
      → ((x : env.transport.Stream) → (a : Bytes) × (env.transport.remote_endpoint x ≡ ok a))
      → length code ≤ buffer_size
      → AllRegistered env (λ j. j ≢ self) w
      → w.kinds self ≡ proxy_session
      → (w.sockets self).pending ≡ some (header_read on_read buffer_size)
      → send t (record { type = find_streamer; content = code }) c ≡ done tt c'
      → client_law.outgoing c'.stream ≡ client_law.outgoing c.stream ++ sent
      → Holds env.transport law sent (w.sockets self)
      → law.outgoing ((final (complete_twice env self w)).sockets self).stream
        ≡ law.outgoing (w.sockets self).stream ++ answered
      → Holds t client_law answered c'
      → (d : Socket t H) × (find_other_client t code c
          ≡ done (is_found (find code w.manager.senders_sessions)) d)
  find_other_client-is_found self code w c c' sent answered writes addresses fits free proxy waits e
        out held answers held' =
      let whole = sent-frame t client_law _ c c' sent fits e out in
      let (w', both, a) =
        complete_twice-Answered env law writes addresses self code w fits free proxy waits
          (held.0, held.1 ∙ whole) in
      let verdict = is_found (find code w.manager.senders_sessions) in
      let answer : answered ≡ frame (verdict_type verdict) [] =
        append_cancel_left (law.outgoing (w.sockets self).stream) answered
          (frame (verdict_type verdict) [])
          (sym answers
            ∙ ap (λ (k : World env). law.outgoing (k.sockets self).stream) (ap final both)
            ∙ to_client env law self code w w' _ a) in
      find_other_client-answer t client_law verdict code c c' e (held'.0, held'.1 ∙ answer)

  -- The streamer's end of it: if FIND_STREAMER with a code that fits the buffer has arrived at a proxy
  -- session that waits for its next message and is not itself registered, and a streamer's session is
  -- registered under the code, every peer has an address and the session's writes succeed, and if what
  -- is written to the streamer's session in the two completed reads is what arrives at the streamer,
  -- whose clock is below the timeout, then the streamer's `waitForStartStreamMessage` returns true, the
  -- two sessions are bridged, the streamer's as the first peer, and the code is registered no more.
  pub wait_for_start_stream_message-bridges :
      (self : ℕ) (code : Bytes) (w : World env) (s : TimedClientSession) (d : Socket t H)
      (started : Bytes) (timeout passed : ℕ) (clock : List ℕ)
      → ((bytes : Bytes) (x : env.transport.Stream)
          → (x' : env.transport.Stream) × (env.transport.write bytes x ≡ done tt x'))
      → ((x : env.transport.Stream) → (a : Bytes) × (env.transport.remote_endpoint x ≡ ok a))
      → length code ≤ buffer_size
      → AllRegistered env (λ j. j ≢ self) w
      → w.kinds self ≡ proxy_session
      → (w.sockets self).pending ≡ some (header_read on_read buffer_size)
      → Holds env.transport law (frame find_streamer code) (w.sockets self)
      → find code w.manager.senders_sessions ≡ some s
      → law.outgoing ((final (complete_twice env self w)).sockets s.client_session).stream
        ≡ law.outgoing (w.sockets s.client_session).stream ++ started
      → Holds t client_law started d
      → passed < timeout
      → ((d' : Socket t H) × (wait_for_start_stream_message t timeout (passed ∷ clock) d
            ≡ done true d'))
        × ((final (complete_twice env self w)).bridges
            ≡ record { peer_one = s.client_session; peer_two = self } ∷ w.bridges)
        × (find code (final (complete_twice env self w)).manager.senders_sessions ≡ none)
  wait_for_start_stream_message-bridges self code w s d started timeout passed clock writes
        addresses fits free proxy waits held found starts held' early =
      let (w', both, a) =
        complete_twice-Answered env law writes addresses self code w fits free proxy waits held in
      let same = ap final both in
      let (to_node, bridges, gone) = to_streamer env law self code w w' s a found in
      let start : started ≡ frame start_stream [] =
        append_cancel_left (law.outgoing (w.sockets s.client_session).stream) started
          (frame start_stream [])
          (sym starts
            ∙ ap (λ (k : World env). law.outgoing (k.sockets s.client_session).stream) same
            ∙ to_node) in
      let (d', waited, _) =
        wait_for_start_stream_message-true t client_law timeout [] (passed ∷ []) clock [] [] d
          nothing-le tt refl (early, tt) (held'.0, held'.1 ∙ start ∙ sym (append-nil _)) in
      (
        (d', waited),
        ap (λ (k : World env). k.bridges) same ∙ bridges,
        ap (λ (k : World env). find code k.manager.senders_sessions) same ∙ gone,
      )
