-- ===== src/Session/Handlers.antt =====
-- Every handler keeps the invariant.
use screen_viewer.Prelude.{
  ℕ, ◌≡◌, refl, arith, Bool, true, false, Bool-cases, some, Bytes, [], ◌∷◌, Option-cases, inl, inr,
}
use screen_viewer.Message.{
  Message, MessageType, is_type, login, register_streamer as register_type, find_streamer,
  start_stream,
}
use screen_viewer.Outcome.{Outcome, done, thrown, M, after, final, handled}
use screen_viewer.Socket.{send, async_read_message, buffer_size, send_ack, safe_disconnect}
use screen_viewer.SessionsManager.{TimedClientSession, find, erase, extract_streamer}
use screen_viewer.World.{
  Env, Callback, authenticate_callback as on_authenticate, handle_read as on_read, World,
  SessionKind, authenticated_session, proxy_session, on_socket,
}
use screen_viewer.Session.{
  authenticate, authenticate_callback, answer_login, schedule_new_async_read, echo, register,
  start_bridge, bridge_extracted, create_bridge_with_streamer, serve_register, answer_find,
  serve_find, serve_other, serve, handle_read, callback, handle, remote_address,
}
use screen_viewer.Session.Invariant.{
  Parked, Inv, Safe, Ready, Frame-Inv, Frame-Parked, frame-Safe, after-Safe, Framed-Safe,
  with_socket-Safe,
}
use screen_viewer.SessionsManager.Entries.{
  find-Registered, erase-Registered, register_streamer-Registered,
}
use screen_viewer.Session.Frame.{
  Frame-trans, send-Framed, send_ack-Framed, send_nack-Framed, disconnect-Framed,
  safe_disconnect-Framed, remote_address-Framed, authenticate-Framed,
}

module _ (env : Env) where
  open env use {transport as t}

  schedule-Safe :
      (w : World env) (self : ℕ) → Ready env w self → Safe env (schedule_new_async_read env self w)
  unfolding schedule_new_async_read
  schedule-Safe w self r =
      with_socket-Safe env w self (async_read_message t on_read buffer_size (w.sockets self)) r.born
        r.free r.inv

  answer_login-Safe :
      (w : World env) (self : ℕ) (b : Bool)
      → Ready env w self
      → Safe env (answer_login env self b w)
  unfolding answer_login
  answer_login-Safe w self true r =
      after-Safe env w self (on_socket env self (send_ack t) w) _ (send_ack-Framed env self w) r
        λ _ w' r'. schedule-Safe w' self r'
  answer_login-Safe w self false r = Framed-Safe env w _ (send_nack-Framed env self w) r.inv

  authenticate_callback-Safe :
      (w : World env) (self : ℕ) (message : Message)
      → Ready env w self
      → Safe env (authenticate_callback env self message w)
  unfolding authenticate_callback
  authenticate_callback-Safe w self message r = elim (Bool-cases (is_type message.type login)) [
    | inl yes' ↦ rw yes' (
        after-Safe env w self (authenticate env message w) _ (authenticate-Framed env message w) r
          λ b w' r'. answer_login-Safe w' self b r')
    | inr no' ↦ rw no' (Framed-Safe env w _ (disconnect-Framed env self _ w) r.inv)
  ]

  echo-Safe :
      (w : World env) (self : ℕ) (message : Message)
      → Ready env w self
      → Safe env (echo env self message w)
  unfolding echo
  echo-Safe w self message r =
      after-Safe env w self _ _ (send-Framed env self _ w) r λ _ w' r'. schedule-Safe w' self r'

  serve_other-Safe :
      (w : World env) (self : ℕ) (type : MessageType)
      → Ready env w self
      → Safe env (serve_other env self type w)
  unfolding serve_other
  serve_other-Safe w self type r =
      after-Safe env w self _ _ (send-Framed env self _ w) r λ _ w' r'. schedule-Safe w' self r'

  answer_find-Safe :
      (w : World env) (self : ℕ) (b : Bool) → Ready env w self → Safe env (answer_find env self b w)
  unfolding answer_find
  answer_find-Safe w self true r = record { safe = r.inv }
  answer_find-Safe w self false r =
      after-Safe env w self _ _ (send_nack-Framed env self w) r λ _ w' r'. schedule-Safe w' self r'

  register-Inv :
      (w : World env) (self : ℕ) → Ready env w self → Inv env (final (register env self w))
  unfolding register
  register-Inv w self r = record {
    registered =
        register_streamer-Registered (Parked env w) self w.now w.manager (r.born, r.quiet)
          r.inv.registered;
    bridged = r.inv.bridged;
    unborn = r.inv.unborn;
  }

  serve_register-Safe :
      (w : World env) (self : ℕ) → Ready env w self → Safe env (serve_register env self w)
  unfolding serve_register register
  serve_register-Safe w self r =
      Framed-Safe env _ _ (send-Framed env self _ _) (register-Inv w self r)

  start_bridge-Safe :
      (w : World env) (self : ℕ) (node : TimedClientSession)
      → Inv env w
      → Parked env w self
      → Parked env w node.client_session
      → Safe env (start_bridge env self node w)
  unfolding start_bridge
  start_bridge-Safe w self node v p q =
      frame-Safe env w _ _ (send_ack-Framed env self w) v λ _ w1 f1.
        frame-Safe env w1 _ _ (send-Framed env node.client_session _ w1) (Frame-Inv env f1 v)
          λ _ w2 f2.
            frame-Safe env w2 _ _ (remote_address-Framed env node.client_session w2)
              (Frame-Inv env (Frame-trans env f1 f2) v)
              λ _ w3 f3.
                frame-Safe env w3 _ _ (remote_address-Framed env self w3)
                  (Frame-Inv env (Frame-trans env (Frame-trans env f1 f2) f3) v)
                  λ _ w4 f4.
                    let f = Frame-trans env (Frame-trans env (Frame-trans env f1 f2) f3) f4 in
                    let v' = Frame-Inv env f v in
                    record {
                      safe = record {
                        registered = v'.registered;
                        bridged = (
                          (Frame-Parked env f node.client_session q, Frame-Parked env f self p),
                          v'.bridged,
                        );
                        unborn = v'.unborn;
                      };
                    }

  -- If the call returns, it returns true.
  record Affirms (o : Outcome (World env) Bool) : Type 0 where
    affirms : (b : Bool) (w' : World env) → o ≡ done b w' → b ≡ true

  true-Affirms : (w : World env) → Affirms (done true w)
  true-Affirms w = record { affirms = λ b w' e. ground arith }

  after-Affirms {κ} :
      {A : Type κ} (o : Outcome (World env) A) (f : A → M (World env) Bool)
      → ((a : A) (w' : World env) → Affirms (f a w'))
      → Affirms (after o f)
  after-Affirms (done a w') f h = h a w'
  after-Affirms (thrown e w') f h = record { affirms = λ b w'' e'. cc }

  start_bridge-Affirms :
      (w : World env) (self : ℕ) (node : TimedClientSession)
      → Affirms (start_bridge env self node w)
  unfolding start_bridge
  start_bridge-Affirms w self node = after-Affirms (on_socket env self (send_ack t) w) _ λ _ w1.
      after-Affirms
        (on_socket env node.client_session (send t (record { type = start_stream; content = [] }))
          w1)
        _
        λ _ w2. after-Affirms (remote_address env node.client_session w2) _ λ _ w3.
          after-Affirms (remote_address env self w3) _ λ _ w4. true-Affirms (record w4 {
            bridges = record { peer_one = node.client_session; peer_two = self } ∷ w4.bridges;
          })

  -- Nothing follows a bridge.
  found-Safe :
      (self : ℕ) (o : Outcome (World env) Bool)
      → Affirms o
      → Safe env o
      → Safe env (after o (answer_find env self))
  unfolding answer_find
  found-Safe self (done true w') h s = record { safe = s.safe }
  found-Safe self (done false w') h s = cc (h.affirms false w' refl)
  found-Safe self (thrown e w') h s = record { safe = s.safe }

  serve_find-Safe :
      (w : World env) (self : ℕ) (code : Bytes)
      → Ready env w self
      → Safe env (serve_find env self code w)
  unfolding serve_find create_bridge_with_streamer bridge_extracted extract_streamer
  serve_find-Safe w self code r = elim (Option-cases (find code w.manager.senders_sessions)) [
    | inl e ↦ rw (e, extract_streamer) (answer_find-Safe w self false r)
    | inr (s, e) ↦
        let extracted : World env = record w {
          manager = record w.manager { senders_sessions = erase code w.manager.senders_sessions };
        } in
        let v : Inv env extracted = record {
          registered =
              erase-Registered (Parked env w) code w.manager.senders_sessions r.inv.registered;
          bridged = r.inv.bridged;
          unborn = r.inv.unborn;
        } in
        rw (e, extract_streamer)
          (found-Safe self (start_bridge env self s extracted)
            (start_bridge-Affirms extracted self s)
            (start_bridge-Safe extracted self s v (r.born, r.quiet)
              (find-Registered (Parked env w) code w.manager.senders_sessions r.inv.registered e)))
  ]

  serve-Safe :
      (w : World env) (self : ℕ) (message : Message)
      → Ready env w self
      → Safe env (serve env self message w)
  unfolding serve
  serve-Safe w self message r = elim (Bool-cases (is_type message.type register_type)) [
    | inl hit ↦ rw hit (serve_register-Safe w self r)
    | inr miss ↦ elim (Bool-cases (is_type message.type find_streamer)) [
      | inl hit' ↦ rw (miss, hit') (serve_find-Safe w self message.content r)
      | inr miss' ↦ rw (miss, miss') (serve_other-Safe w self message.type r)
    ]
  ]

  handle_read-Safe :
      (w : World env) (kind : SessionKind) (self : ℕ) (message : Message)
      → Ready env w self
      → Safe env (handle_read env kind self message w)
  unfolding handle_read
  handle_read-Safe w authenticated_session self message r = echo-Safe w self message r
  handle_read-Safe w proxy_session self message r = serve-Safe w self message r

  callback-Safe :
      (w : World env) (h : Callback) (self : ℕ) (message : Message)
      → Ready env w self
      → Safe env (callback env h self message w)
  unfolding callback
  callback-Safe w on_authenticate self message r = authenticate_callback-Safe w self message r
  callback-Safe w on_read self message r = handle_read-Safe w (w.kinds self) self message r

  caught-Safe :
      (self : ℕ) (o : Outcome (World env) (Unit {0}))
      → Safe env o
      → Safe env (handled o (λ e. on_socket env self (safe_disconnect t (some (t.what e)))))
  caught-Safe self (done a w') s = record { safe = s.safe }
  caught-Safe self (thrown e w') s =
      Framed-Safe env w' _ (safe_disconnect-Framed env self _ w') s.safe

  pub handle-Safe :
      (w : World env) (self : ℕ) (h : Callback) (message : Message)
      → Ready env w self
      → Safe env (handle env self (some (h, message)) w)
  unfolding handle
  handle-Safe w self h message r =
      caught-Safe self (callback env h self message w) (callback-Safe w h self message r)
