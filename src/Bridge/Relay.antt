-- ===== src/Bridge/Relay.antt =====
-- What a bridge passes on.
use screen_viewer.Prelude.{
  ◌≡◌, refl, sym, ◌∙◌, ap, true, List, [], ◌∷◌, ◌++◌, append-nil, append_assoc, Bytes, length, drop,
  take-append,
}
use screen_viewer.Outcome.{done, M, ◌>>◌, give}
use screen_viewer.Transport.{Transport, Lawful}
use screen_viewer.Bridge.{
  Bridge, received, handle_upstream_read, handle_downstream_read, handle_downstream_write,
  handle_upstream_write,
}

-- The completed reads of a bridge, in the order in which the io_context runs their handlers.
pub data Completion : Type 0 where
  upstream downstream : Bytes → Completion

-- The bytes that were read from peer two, and from peer one.
abbrev pub sent_up : List Completion → Bytes
sent_up [] = []
sent_up (upstream bytes ∷ cs) = bytes ++ sent_up cs
sent_up (downstream bytes ∷ cs) = sent_up cs

abbrev pub sent_down : List Completion → Bytes
sent_down [] = []
sent_down (upstream bytes ∷ cs) = sent_down cs
sent_down (downstream bytes ∷ cs) = bytes ++ sent_down cs

module _ (t : Transport) where
  pub handle : Completion → M (Bridge t) (Unit {0})
  handle (upstream bytes) = handle_upstream_read t (received bytes)
  handle (downstream bytes) = handle_downstream_read t (received bytes)

  -- The handlers run one after the other; an exception ends the io_context's thread.
  pub run : List Completion → M (Bridge t) (Unit {0})
  run [] = give tt
  run (c ∷ cs) = do handle c; run cs

module _ (t : Transport) (law : Lawful t) where
  open law use {outgoing}

  -- What has happened to a bridge when peer one has been sent `up` and peer two `down`.
  pub record Relayed (b : Bridge t) (up down : Bytes) (b' : Bridge t) : Type 0 where
    pub to_one : outgoing b'.peer_one ≡ outgoing b.peer_one ++ up
    pub to_two : outgoing b'.peer_two ≡ outgoing b.peer_two ++ down
    pub keeps_upstream : b.reads_upstream ≡ true → b'.reads_upstream ≡ true
    pub keeps_downstream : b.reads_downstream ≡ true → b'.reads_downstream ≡ true

  Relayed-trans :
      (a b c : Bridge t) (up up' down down' : Bytes)
      → Relayed a up down b
      → Relayed b up' down' c
      → Relayed a (up ++ up') (down ++ down') c
  Relayed-trans a b c up up' down down' p q = record {
    to_one = q.to_one ∙ ap (λ z. z ++ up') p.to_one ∙ append_assoc (outgoing a.peer_one) up up';
    to_two =
        q.to_two ∙ ap (λ z. z ++ down') p.to_two ∙ append_assoc (outgoing a.peer_two) down down';
    keeps_upstream = λ h. q.keeps_upstream (p.keeps_upstream h);
    keeps_downstream = λ h. q.keeps_downstream (p.keeps_downstream h);
  }

  module _
      (writes : (bytes : Bytes) (x : t.Stream)
        → (x' : t.Stream) × (t.write bytes x ≡ done tt x')) where
    handle-Relayed :
        (c : Completion) (b : Bridge t)
        → (b' : Bridge t) × (handle t c b ≡ done tt b')
          × Relayed b (sent_up (c ∷ [])) (sent_down (c ∷ [])) b'
    unfolding handle handle_upstream_read handle_downstream_read handle_downstream_write
        handle_upstream_write
    handle-Relayed (upstream bytes) b =
        let (x, e) = writes bytes b.peer_one in
        let n = length bytes in
        let whole = take-append bytes (drop n b.client_buffer) in
        (
          record b {
            client_buffer = bytes ++ drop n b.client_buffer;
            reads_upstream = true;
            peer_one = x;
          },
          rw (whole, e),
          record {
            to_one =
                (law.write_done bytes b.peer_one x e).0
                ∙ ap (λ z. outgoing b.peer_one ++ z) (sym (append-nil bytes));
            to_two = sym (append-nil (outgoing b.peer_two));
            keeps_upstream = λ h. refl;
            keeps_downstream = λ h. h;
          },
        )
    handle-Relayed (downstream bytes) b =
        let (x, e) = writes bytes b.peer_two in
        let n = length bytes in
        let whole = take-append bytes (drop n b.server_buffer) in
        (
          record b {
            server_buffer = bytes ++ drop n b.server_buffer;
            reads_downstream = true;
            peer_two = x;
          },
          rw (whole, e),
          record {
            to_one = sym (append-nil (outgoing b.peer_one));
            to_two =
                (law.write_done bytes b.peer_two x e).0
                ∙ ap (λ z. outgoing b.peer_two ++ z) (sym (append-nil bytes));
            keeps_upstream = λ h. h;
            keeps_downstream = λ h. refl;
          },
        )

    sent_up-cons :
        (c : Completion) (cs : List Completion) → sent_up (c ∷ []) ++ sent_up cs ≡ sent_up (c ∷ cs)
    sent_up-cons (upstream bytes) cs = ap (λ z. z ++ sent_up cs) (append-nil bytes)
    sent_up-cons (downstream bytes) cs = refl

    sent_down-cons :
        (c : Completion) (cs : List Completion)
        → sent_down (c ∷ []) ++ sent_down cs ≡ sent_down (c ∷ cs)
    sent_down-cons (upstream bytes) cs = refl
    sent_down-cons (downstream bytes) cs = ap (λ z. z ++ sent_down cs) (append-nil bytes)

    -- If every write succeeds, a bridge passes everything on: after any sequence of completed
    -- reads, in any interleaving, peer one has been sent exactly the bytes read from peer two and
    -- peer two those read from peer one, in order; no handler throws, and a read that was
    -- outstanding is outstanding again.
    pub run-Relayed :
        (cs : List Completion) (b : Bridge t)
        → (b' : Bridge t) × (run t cs b ≡ done tt b') × Relayed b (sent_up cs) (sent_down cs) b'
    unfolding run
    run-Relayed [] b = (
      b,
      refl,
      record {
        to_one = sym (append-nil (outgoing b.peer_one));
        to_two = sym (append-nil (outgoing b.peer_two));
        keeps_upstream = λ h. h;
        keeps_downstream = λ h. h;
      },
    )
    run-Relayed (c ∷ cs) b =
        let (b1, e1, r1) = handle-Relayed c b in
        let (b2, e2, r2) = run-Relayed cs b1 in
        let all =
          Relayed-trans b b1 b2 (sent_up (c ∷ [])) (sent_up cs) (sent_down (c ∷ [])) (sent_down cs)
            r1 r2 in
        (b2, rw (e1, e2), rw (sym (sent_up-cons c cs), sym (sent_down-cons c cs)) all)
