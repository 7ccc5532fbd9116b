-- ===== src/Streamer/Run/Fifo.antt =====
-- The messages that a run hands to the controller.
use screen_viewer.Prelude.{
  ◌≡◌, refl, sym, ap, ◌∙◌, List, [], ◌∷◌, ◌++◌, append_assoc, append-nil, Option, none, some,
}
use screen_viewer.Message.{
  MessageType, Message, keyboard_input, mouse_input, convert_to_keyboard, convert_to_mouse, Checked,
  ok, err,
}
use screen_viewer.Outcome.{
  Exception, final, message_type_exception, Outcome, done, thrown, M, ◌>>=◌, ◌>>◌, give, or_throw,
  after-eq-done,
}
use screen_viewer.Transport.{Transport}
use screen_viewer.Socket.{Socket, poll, async_read_message, buffer_size}
use screen_viewer.Streamer.Run.{arrived_in, read_completed}
use screen_viewer.IoController.{IoController}
use screen_viewer.Streamer.{
  Streamer, handle_io_events, handle_input, input_of_type, pop_loop, with_controller, on_controller,
  with_socket, handler_called, message_arrived, schedule_async_poll_io_events,
}

-- What a message does to the controller; other types do nothing.
abbrev deliver_type : (io : IoController) → MessageType → Message → M io.State (Unit {0})
deliver_type io keyboard_input message = do
  event ← or_throw message_type_exception (convert_to_keyboard message)
  io.handle_keyboard_event event
deliver_type io mouse_input message = do
  event ← or_throw message_type_exception (convert_to_mouse message)
  io.handle_mouse_event event
deliver_type io _ message = give tt

abbrev pub deliver : (io : IoController) → Message → M io.State (Unit {0})
deliver io message = deliver_type io message.type message

unfoldable pub deliver_all : (io : IoController) → List Message → M io.State (Unit {0})
deliver_all io [] = give tt
deliver_all io (m ∷ ms) = do deliver io m; deliver_all io ms

module _ (t : Transport) (io : IoController) where
  converted-deliver :
      {A E : Type 0} (f : E → Exception) (c : Checked E A) (handle : A → M io.State (Unit {0}))
      (s : Streamer t io)
      → (do event ← or_throw f c; on_controller t io (handle event)) s
        ≡ with_controller t io s ((do event ← or_throw f c; handle event) s.io_controller)
  converted-deliver f (ok event) handle s = refl
  converted-deliver f (err e) handle s = refl

  input_of_type-deliver :
      (type : MessageType) (m : Message) (s : Streamer t io)
      → input_of_type t io type m s
        ≡ with_controller t io s (deliver_type io type m s.io_controller)
  unfolding input_of_type
  input_of_type-deliver keyboard_input m s =
      converted-deliver message_type_exception (convert_to_keyboard m) io.handle_keyboard_event s
  input_of_type-deliver mouse_input m s =
      converted-deliver message_type_exception (convert_to_mouse m) io.handle_mouse_event s
  input_of_type-deliver _ m s = refl

  pub with_controller-done :
      {A : Type 0} {a : A} (s s' : Streamer t io) (o : Outcome io.State A)
      → with_controller t io s o ≡ done a s'
      → (o ≡ done a s'.io_controller) × (s'.messages ≡ s.messages) × (s'.socket ≡ s.socket)
  with_controller-done s s' (done b c) e =
      let same = ap final e in
      let controller : c ≡ s'.io_controller = ap (λ k. k.io_controller) same in
      (cc, ap (λ k. k.messages) (sym same), ap (λ k. k.socket) (sym same))
  with_controller-done s s' (thrown x c) e = cc

  handled-deliver :
      (m : Message) (s s' : Streamer t io)
      → handle_input t io m s ≡ done tt s'
      → (deliver io m s.io_controller ≡ done tt s'.io_controller)
  unfolding handle_input
  handled-deliver m s s' e =
      let e' = sym (input_of_type-deliver m.type m s) ∙ e in
      (with_controller-done s s' (deliver_type io m.type m s.io_controller) e').0

  pop_loop-deliver_all :
      (ms : List Message) (s s' : Streamer t io)
      → pop_loop t io ms s ≡ done tt s'
      → (deliver_all io ms s.io_controller ≡ done tt s'.io_controller) × (s'.messages ≡ [])
  unfolding pop_loop deliver_all
  pop_loop-deliver_all [] s s' e =
      let same = ap final e in
      (ap (λ k. done tt k.io_controller) same, ap (λ k. k.messages) (sym same))
  pop_loop-deliver_all (m ∷ ms) s s' e =
      let (_, s1, e1, e2) =
        after-eq-done (handle_input t io m (record s { messages = ms })) (λ _. pop_loop t io ms)
          e in
      let first = handled-deliver m (record s { messages = ms }) s1 e1 in
      let (later, emptied) = pop_loop-deliver_all ms s1 s' e2 in (rw first later, emptied)

  -- From `s` to `s'` these messages have arrived: each is either still queued or has been given to the
  -- controller, in the order of their arrival.
  pub record Passes (s : Streamer t io) (arrived : List Message) (s' : Streamer t io) : Type 0 where
    pub handled : List Message
    pub conserved : handled ++ s'.messages ≡ s.messages ++ arrived
    pub delivered : deliver_all io handled s.io_controller ≡ done tt s'.io_controller

  -- The controller is untouched and the queue has grown.
  pub queues :
      (s s' : Streamer t io) (arrived : List Message)
      → s'.messages ≡ s.messages ++ arrived
      → s'.io_controller ≡ s.io_controller
      → Passes s arrived s'
  unfolding deliver_all
  queues s s' arrived grown same = record {
    handled = [];
    conserved = grown;
    delivered = ap (done tt) (sym same);
  }

  deliver_all-append :
      (ms ns : List Message) (c c' c'' : io.State)
      → deliver_all io ms c ≡ done tt c'
      → deliver_all io ns c' ≡ done tt c''
      → deliver_all io (ms ++ ns) c ≡ done tt c''
  unfolding deliver_all
  deliver_all-append [] ns c c' c'' e e' = let same : c ≡ c' = ap final e in rw same e'
  deliver_all-append (m ∷ ms) ns c c' c'' e e' =
      let (_, c1, first, rest) = after-eq-done (deliver io m c) (λ _. deliver_all io ms) e in
      rw first (deliver_all-append ms ns c1 c' c'' rest e')

  pub Passes-trans :
      (s s1 s2 : Streamer t io) (ms ns : List Message)
      → Passes s ms s1
      → Passes s1 ns s2
      → Passes s (ms ++ ns) s2
  Passes-trans s s1 s2 ms ns p q = record {
    handled = p.handled ++ q.handled;
    conserved =
        append_assoc p.handled q.handled s2.messages
        ∙ ap (λ l. p.handled ++ l) q.conserved
        ∙ sym (append_assoc p.handled s1.messages ns)
        ∙ ap (λ l. l ++ ns) p.conserved
        ∙ append_assoc s.messages ms ns;
    delivered =
        deliver_all-append p.handled q.handled s.io_controller s1.io_controller s2.io_controller
          p.delivered q.delivered;
  }

  pub handle_io_events-Passes :
      (s s' : Streamer t io) → handle_io_events t io s ≡ done tt s' → Passes s [] s'
  unfolding handle_io_events
  handle_io_events-Passes s s' e =
      let (delivered, emptied) = pop_loop-deliver_all s.messages s s' e in
      record {
        handled = s.messages;
        conserved = ap (λ l. s.messages ++ l) emptied;
        delivered = delivered;
      }

  pub with_socket-done :
      {A : Type 0} {a : A} (s s' : Streamer t io) (o : Outcome (Socket t (Unit {0})) A)
      → with_socket t io s o ≡ done a s'
      → (s'.messages ≡ s.messages) × (s'.io_controller ≡ s.io_controller)
  with_socket-done s s' (done b c) e =
      let same = ap final e in
      (ap (λ k. k.messages) (sym same), ap (λ k. k.io_controller) (sym same))
  with_socket-done s s' (thrown x c) e = cc

  handler_called-Passes :
      (called : Option (Unit {0} × Message)) (s s' : Streamer t io)
      → handler_called t io called s ≡ done tt s'
      → Passes s (arrived_in called) s'
  unfolding handler_called message_arrived schedule_async_poll_io_events
  handler_called-Passes none s s' e =
      let same : s ≡ s' = ap final e in
      queues s s' [] (ap (λ k. k.messages) (sym same) ∙ sym (append-nil s.messages))
        (ap (λ k. k.io_controller) (sym same))
  handler_called-Passes (some (_, m)) s s' e =
      let s1 = record s { messages = s.messages ++ m ∷ [] } in
      let (grown, same) =
        with_socket-done s1 s' (async_read_message t tt buffer_size s1.socket) e in
      queues s s' (m ∷ []) grown same

  pub read_completed-Passes :
      (s s' : Streamer t io) (arrived : List Message)
      → read_completed t io s ≡ done arrived s'
      → Passes s arrived s'
  unfolding read_completed
  read_completed-Passes s s' arrived e =
      let (called, s1, polled, e1) = after-eq-done (with_socket t io s (poll t s.socket)) _ e in
      let (_, s2, handled, e2) = after-eq-done (handler_called t io called s1) _ e1 in
      let what : arrived_in called ≡ arrived = cc in
      let state : s2 ≡ s' = ap final e2 in
      let (kept, same) = with_socket-done s s1 (poll t s.socket) polled in
      let arrives = handler_called-Passes called s1 s2 handled in
      Passes-trans s s1 s' [] arrived (queues s s1 [] (kept ∙ sym (append-nil s.messages)) same)
        (rw (← what, ← state) arrives)
