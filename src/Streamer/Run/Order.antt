-- ===== src/Streamer/Run/Order.antt =====
-- The streamer's run, seen by the controller.
use screen_viewer.Prelude.{
  arith, subst, ◌≡◌, refl, sym, ap, ◌∙◌, Bool, Bool-cases, true, false, inl, inr, List, [], ◌∷◌,
  ◌++◌, append-nil, Option, none, some, Bytes,
}
use screen_viewer.Message.{Message}
use screen_viewer.Outcome.{Outcome, done, thrown, M, after-eq-done, final}
use screen_viewer.Transport.{Transport}
use screen_viewer.Socket.{is_open, async_read_message, buffer_size}
use screen_viewer.IoController.{IoController}
use screen_viewer.VideoEncoder.{Codec, VideoEncoder, encode}
use screen_viewer.Streamer.{
  Streamer, with_controller, with_socket, schedule_async_poll_io_events, handle_io_events,
}
use screen_viewer.Streamer.Screenshots.{
  Sender, with_streamer, async_send_message, packet_encoded, schedule_async_send_screenshots,
  write_ended, write_pending, complete_write,
}
use screen_viewer.Streamer.Run.{
  Event, reads, writes, rounds, is_empty, running, read_completed, run_loop, run,
}
use screen_viewer.Streamer.Run.Fifo.{
  Passes, queues, Passes-trans, handle_io_events-Passes, read_completed-Passes,
  with_controller-done, with_socket-done,
}

module _ (t : Transport) (io : IoController) where
  -- How the loop ends.
  pub record Served (s : Streamer t io) (ended : Bool) (arrived : List Message) (s' : Streamer t io)
      : Type 0 where
    pub passes : Passes t io s arrived s'
    pub closed : ended ≡ true → is_open t s'.socket ≡ false
    pub all_handled : ended ≡ true → s'.messages ≡ []

  then_Served :
      (s s1 s2 : Streamer t io) (ms ns : List Message) (ended : Bool)
      → Passes t io s ms s1
      → Served s1 ended ns s2
      → Served s ended (ms ++ ns) s2
  then_Served s s1 s2 ms ns ended p q = record {
    passes = Passes-trans t io s s1 s2 ms ns p q.passes;
    closed = q.closed;
    all_handled = q.all_handled;
  }

module _ (t : Transport) (io : IoController) (codec : Codec)
    (capture_screenshot : M io.State codec.Picture)
    (keeps : (c c' : io.State) (p : codec.Picture)
      → capture_screenshot c ≡ done p c'
      → c' ≡ c) where
  with_streamer-done :
      {A : Type 0} {a : A} (s s' : Sender t io codec capture_screenshot)
      (o : Outcome (Streamer t io) A)
      → with_streamer t io codec capture_screenshot s o ≡ done a s'
      → o ≡ done a s'.streamer
  with_streamer-done s s' (done b x) e =
      let same = ap final e in let state : x ≡ s'.streamer = ap (λ k. k.streamer) same in cc
  with_streamer-done s s' (thrown y x) e = cc

  -- Neither the queue nor the controller has changed.
  idle :
      (s s' : Streamer t io)
      → s'.messages ≡ s.messages
      → s'.io_controller ≡ s.io_controller
      → Passes t io s [] s'
  idle s s' kept same = queues t io s s' [] (kept ∙ sym (append-nil s.messages)) same

  packet_encoded-idle :
      (r : Option Bytes × VideoEncoder codec) (s s' : Sender t io codec capture_screenshot)
      → packet_encoded t io codec capture_screenshot r s ≡ done tt s'
      → s'.streamer ≡ s.streamer
  unfolding packet_encoded async_send_message
  packet_encoded-idle (none, encoder) s s' e =
      let same : record s { encoder = encoder } ≡ s' = ap final e in ap (λ k. k.streamer) (sym same)
  packet_encoded-idle (some packet, encoder) s s' e =
      let same = ap final e in ap (λ k. k.streamer) (sym same)

  schedule-Passes :
      (s s' : Sender t io codec capture_screenshot)
      → schedule_async_send_screenshots t io codec capture_screenshot s ≡ done tt s'
      → Passes t io s.streamer [] s'.streamer
  unfolding schedule_async_send_screenshots
  schedule-Passes s s' e =
      let controlled =
        with_controller t io s.streamer (capture_screenshot s.streamer.io_controller) in
      let (picture, s1, e1, e2) =
        after-eq-done (with_streamer t io codec capture_screenshot s controlled) _ e in
      let captured = with_streamer-done s s1 controlled e1 in
      let (took, kept, _) =
        with_controller-done t io s.streamer s1.streamer
          (capture_screenshot s.streamer.io_controller) captured in
      let same = packet_encoded-idle (encode codec picture s1.encoder) s1 s' e2 in
      idle s.streamer s'.streamer (ap (λ k. k.messages) same ∙ kept) (
        ap (λ k. k.io_controller) same
        ∙ keeps s.streamer.io_controller s1.streamer.io_controller picture took)

  write_ended-Passes :
      (s s' : Sender t io codec capture_screenshot) (o : Outcome t.Stream (Unit {0}))
      → write_ended t io codec capture_screenshot s o ≡ done tt s'
      → Passes t io s.streamer [] s'.streamer
  unfolding write_ended
  write_ended-Passes s s' (done _ x) e =
      let next : Sender t io codec capture_screenshot = record s {
        streamer = record s.streamer { socket = record s.streamer.socket { stream = x } };
        sending = none;
      } in
      Passes-trans t io s.streamer next.streamer s'.streamer [] []
        (idle s.streamer next.streamer refl refl) (schedule-Passes next s' e)
  write_ended-Passes s s' (thrown y x) e =
      let same = ap final e in
      idle s.streamer s'.streamer (ap (λ k. k.streamer.messages) (sym same))
        (ap (λ k. k.streamer.io_controller) (sym same))

  complete_write-Passes :
      (o : Option Bytes) (s s' : Sender t io codec capture_screenshot)
      → write_pending t io codec capture_screenshot o s ≡ done tt s'
      → Passes t io s.streamer [] s'.streamer
  unfolding write_pending
  complete_write-Passes none s s' e =
      let same : s ≡ s' = ap final e in
      idle s.streamer s'.streamer (ap (λ k. k.streamer.messages) (sym same))
        (ap (λ k. k.streamer.io_controller) (sym same))
  complete_write-Passes (some bytes) s s' e =
      write_ended-Passes s s' (t.write bytes s.streamer.socket.stream) e

  is_empty-eq : (ms : List Message) → is_empty ms ≡ true → ms ≡ []
  is_empty-eq [] h = refl
  is_empty-eq (m ∷ ms) h = cc

  -- The loop's condition fails.
  stopped :
      (s : Sender t io codec capture_screenshot)
      → running t io codec capture_screenshot s ≡ false
      → Served t io s.streamer true [] s.streamer
  stopped s stop = record {
    passes = idle s.streamer s.streamer refl refl;
    closed = λ _. ground arith;
    all_handled = λ _. is_empty-eq s.streamer.messages (ground arith);
  }

  same_end :
      (s : Streamer t io) (ended ended' : Bool) (ms ms' : List Message)
      (x x' : Sender t io codec capture_screenshot)
      → ◌≡◌ {A = Outcome (Sender t io codec capture_screenshot) (Bool × List Message)}
          (done (ended, ms) x)
          (done (ended', ms') x')
      → Served t io s ended ms x.streamer
      → Served t io s ended' ms' x'.streamer
  same_end s ended ended' ms ms' x x' e h =
      let value : ended ≡ ended' = cc in
      let messages : ms ≡ ms' = cc in
      let state : x ≡ x' = ap final e in
      subst (λ (k : Sender t io codec capture_screenshot). Served t io s ended' ms' k.streamer)
        state
        (subst (λ l. Served t io s ended' l x.streamer) messages
          (subst (λ b. Served t io s b ms x.streamer) value h))

  run_loop-Served :
      (events : List Event) (s s' : Sender t io codec capture_screenshot) (ended : Bool)
      (arrived : List Message)
      → run_loop t io codec capture_screenshot events s ≡ done (ended, arrived) s'
      → Served t io s.streamer ended arrived s'.streamer
  unfolding run_loop complete_write
  run_loop-Served [] s s' ended arrived e =
      same_end s.streamer false ended [] arrived s s' e (record {
        passes = idle s.streamer s.streamer refl refl;
        closed = λ h. cc;
        all_handled = λ h. cc;
      })
  run_loop-Served (reads ∷ events) s s' ended arrived e =
      let (ms, s1, e1, e2) =
        after-eq-done
          (with_streamer t io codec capture_screenshot s (read_completed t io s.streamer)) _ e in
      let (later, s2, e3, e4) =
        after-eq-done (run_loop t io codec capture_screenshot events s1) _ e2 in
      let first =
        read_completed-Passes t io s.streamer s1.streamer ms
          (with_streamer-done s s1 (read_completed t io s.streamer) e1) in
      let rest = run_loop-Served events s1 s2 later.0 later.1 e3 in
      same_end s.streamer later.0 ended (ms ++ later.1) arrived s2 s' e4
        (then_Served t io s.streamer s1.streamer s2.streamer ms later.1 later.0 first rest)
  run_loop-Served (writes ∷ events) s s' ended arrived e =
      let (_, s1, e1, e2) = after-eq-done (complete_write t io codec capture_screenshot s) _ e in
      then_Served t io s.streamer s1.streamer s'.streamer [] arrived ended
        (complete_write-Passes s.sending s s1 e1) (run_loop-Served events s1 s' ended arrived e2)
  run_loop-Served (rounds ∷ events) s s' ended arrived e =
      elim (Bool-cases (running t io codec capture_screenshot s)) [
        | inl goes ↦
            let handling = handle_io_events t io s.streamer in
            let (_, s1, e1, e2) =
              after-eq-done (with_streamer t io codec capture_screenshot s handling) _
                (rw goes at e) in
            then_Served t io s.streamer s1.streamer s'.streamer [] arrived ended
              (handle_io_events-Passes t io s.streamer s1.streamer
                (with_streamer-done s s1 handling e1))
              (run_loop-Served events s1 s' ended arrived e2)
        | inr stops ↦
            same_end s.streamer true ended [] arrived s s' (rw stops at e) (stopped s stops)
      ]

  -- Whatever the order in which the io_context's thread completes reads and writes and the main thread
  -- makes its rounds: if no step throws, and taking a screenshot leaves the controller as it is, then
  -- each message that has arrived is still queued or has been given to the controller, once and in
  -- the order of arrival. If the loop has ended, the socket is closed and the queue is empty.
  pub run-Served :
      (events : List Event) (s s' : Sender t io codec capture_screenshot) (ended : Bool)
      (arrived : List Message)
      → run t io codec capture_screenshot events s ≡ done (ended, arrived) s'
      → Served t io s.streamer ended arrived s'.streamer
  unfolding run schedule_async_poll_io_events
  run-Served events s s' ended arrived e =
      let polling =
        with_socket t io s.streamer (async_read_message t tt buffer_size s.streamer.socket) in
      let (_, s1, e1, e2) =
        after-eq-done (with_streamer t io codec capture_screenshot s polling) _ e in
      let (_, s2, e3, e4) =
        after-eq-done (schedule_async_send_screenshots t io codec capture_screenshot s1) _ e2 in
      let (kept, same) =
        with_socket-done t io s.streamer s1.streamer
          (async_read_message t tt buffer_size s.streamer.socket)
          (with_streamer-done s s1 polling e1) in
      then_Served t io s.streamer s1.streamer s'.streamer [] arrived ended
        (idle s.streamer s1.streamer kept same)
        (then_Served t io s1.streamer s2.streamer s'.streamer [] arrived ended
          (schedule-Passes s1 s2 e3) (run_loop-Served events s2 s' ended arrived e4))
