-- ===== src/Session/Meeting.antt =====
-- How a client finds its streamer: the proxy's answer to FIND_STREAMER, in src/ProxySession.cpp and
-- `createBridgeWithStreamer` of src/ServerSessionsManager.cpp.
use screen_viewer.Prelude.{
  ℕ, ◌≡◌, ◌≢◌, refl, sym, ap, ◌∙◌, arith, true, false, [], ◌∷◌, ◌++◌, Option, Option-cases, none,
  some, if-true, inl, inr, Bytes, le→ltb_false, same_bytes_iff,
}
use screen_viewer.Message.{ok, find_streamer, ack, nack, start_stream, is_type, type_code}
use screen_viewer.Outcome.{done}
use screen_viewer.Transport.{Lawful}
use screen_viewer.Socket.{Socket, header_read, buffer_size, send_ack, send_nack, async_read_message}
use screen_viewer.Socket.Framing.{frame}
use screen_viewer.SessionsManager.{Manager, TimedClientSession, find, erase, extract_streamer}
use screen_viewer.SessionsManager.Registry.{find-erase}
use screen_viewer.SessionsManager.Entries.{find-Registered}
use screen_viewer.World.{
  Env, World, Callback, proxy_session, handle_read as on_read, update_self, update_other,
}
use screen_viewer.Session.{
  handle_read, serve, serve_find, create_bridge_with_streamer, bridge_extracted, start_bridge,
  answer_find, schedule_new_async_read,
}
use screen_viewer.Session.Invariant.{AllRegistered}
use screen_viewer.Session.Answers.{send_empty, stored}

module _ (env : Env) (law : Lawful env.transport) where
  open env use {transport as t}

  abbrev pub written : World env → ℕ → Bytes
  written w j = law.outgoing (w.sockets j).stream

  -- What the session `self` has done with the request for `code`, where the registry found this.
  pub data Answered (self : ℕ) (code : Bytes) (w w' : World env)
      : Option TimedClientSession → Type 0 where
    bridged :
        (s : TimedClientSession)
        → written w' self ≡ written w self ++ frame ack []
        → written w' s.client_session ≡ written w s.client_session ++ frame start_stream []
        → w'.bridges ≡ record { peer_one = s.client_session; peer_two = self } ∷ w.bridges
        → find code w'.manager.senders_sessions ≡ none
        → Answered self code w w' (some s)
    refused :
        written w' self ≡ written w self ++ frame nack []
        → (w'.sockets self).pending ≡ some (header_read on_read buffer_size)
        → w'.bridges ≡ w.bridges
        → w'.manager ≡ w.manager
        → Answered self code w w' none

  module _
      (writes : (bytes : Bytes) (x : t.Stream) → (x' : t.Stream) × (t.write bytes x ≡ done tt x'))
      (addresses : (x : t.Stream) → (a : Bytes) × (t.remote_endpoint x ≡ ok a)) where
    refused-Answered :
        (self : ℕ) (code : Bytes) (w : World env)
        → (w' : World env) × (answer_find env self false w ≡ done tt w')
          × Answered self code w w' none
    unfolding answer_find schedule_new_async_read async_read_message send_nack
    refused-Answered self code w =
        let (x, sent, out) = send_empty t law writes nack (w.sockets self) in
        let s1 = record (w.sockets self) { stream = x } in
        let w1 = stored env self w s1 in
        let at1 : w1.sockets self ≡ s1 = update_self w.sockets self s1 in
        let s2 = record (w1.sockets self) { pending = some (header_read on_read buffer_size) } in
        let at2 = update_self w1.sockets self s2 in
        let again = le→ltb_false buffer_size buffer_size (omega arith) in
        (
          stored env self w1 s2,
          rw (sent, again) refl,
          refused
              (ap (λ (s : Socket t Callback). law.outgoing s.stream) at2
                ∙ ap (λ (s : Socket t Callback). law.outgoing s.stream) at1
                ∙ out)
              (ap (λ (s : Socket t Callback). s.pending) at2) refl refl,
        )

    start_bridge-Answered :
        (self : ℕ) (s : TimedClientSession) (w : World env)
        → s.client_session ≢ self
        → (w' : World env) × (start_bridge env self s w ≡ done true w')
          × (written w' self ≡ written w self ++ frame ack [])
          × (written w' s.client_session ≡ written w s.client_session ++ frame start_stream [])
          × (w'.bridges ≡ record { peer_one = s.client_session; peer_two = self } ∷ w.bridges)
          × (w'.manager ≡ w.manager)
    unfolding start_bridge send_ack
    start_bridge-Answered self s w other =
        let node = s.client_session in
        let stream_of = λ (k : Socket t Callback). law.outgoing k.stream in
        let (x1, sent1, out1) = send_empty t law writes ack (w.sockets self) in
        let s1 = record (w.sockets self) { stream = x1 } in
        let w1 = stored env self w s1 in
        let (x2, sent2, out2) = send_empty t law writes start_stream (w1.sockets node) in
        let s2 = record (w1.sockets node) { stream = x2 } in
        let w2 = stored env node w1 s2 in
        let (_, address1) = addresses (w2.sockets node).stream in
        let (_, address2) = addresses (w2.sockets self).stream in
        (
          record w2 { bridges = record { peer_one = node; peer_two = self } ∷ w.bridges },
          rw (sent1, sent2, address1, address2) refl,
          ap stream_of (update_other w1.sockets node self s2 other)
              ∙ ap stream_of (update_self w.sockets self s1)
              ∙ out1,
          ap stream_of (update_self w1.sockets node s2)
              ∙ out2
              ∙ ap (λ k. stream_of k ++ frame start_stream [])
                  (update_other w.sockets self node s1 (λ e. other (sym e))),
          refl,
          refl,
        )

    -- If the writes succeed and every peer has an address, a proxy session that is not itself registered answers
    -- FIND_STREAMER as the registry stands. A streamer found is taken out of it: the client gets an
    -- ACK, the streamer gets START_STREAM, and the two are bridged, the streamer as the first peer.
    -- If there is none the client gets a NACK, the session reads the next message, and registry and
    -- bridges stay as they were.
    pub handle_read-Answered :
        (self : ℕ) (code : Bytes) (w : World env)
        → AllRegistered env (λ j. j ≢ self) w
        → (w' : World env) × (handle_read env proxy_session self
              (record { type = find_streamer; content = code })
              w
            ≡ done tt w')
          × Answered self code w w' (find code w.manager.senders_sessions)
    unfolding handle_read serve serve_find create_bridge_with_streamer bridge_extracted
        extract_streamer answer_find is_type type_code
    handle_read-Answered self code w free =
        elim (Option-cases (find code w.manager.senders_sessions)) [
          | inl missing ↦ rw (missing, extract_streamer) (refused-Answered self code w)
          | inr (s, hit) ↦
              let w0 : World env = record w {
                manager = record w.manager {
                  senders_sessions = erase code w.manager.senders_sessions;
                };
              } in
              let other =
                find-Registered (λ j. j ≢ self) code w.manager.senders_sessions free hit in
              let (w', met, to_self, to_node, bridges, kept) =
                start_bridge-Answered self s w0 other in
              let gone : find code w'.manager.senders_sessions ≡ none =
                ap (λ (m : Manager). find code m.senders_sessions) kept
                ∙ find-erase code code w.manager.senders_sessions
                ∙ if-true _ _ ((same_bytes_iff code code).1 refl) in
              rw (hit, extract_streamer) (w', rw met refl, bridged s to_self to_node bridges gone)
        ]
