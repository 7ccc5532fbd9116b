-- ===== src/ClientSocket/Thread/Joins.antt =====
-- What the destructor and `disconnect` wait for.
use screen_viewer.Prelude.{
  ℕ, ◌==◌, if◌then◌else◌, ◌≤◌, ◌≡◌, ◌≢◌, refl, sym, ap, ◌∙◌, arith, Bool-cases, if-true, if-false,
  ==_iff, ◌⊎◌, inl, inr, true, false, List, ◌∷◌, ◌++◌, length, none,
}
use screen_viewer.Outcome.{Outcome, done, thrown, final, after, system_error}
use screen_viewer.Transport.{Transport}
use screen_viewer.Socket.{safe_disconnect}
use screen_viewer.Socket.Async.{safe_disconnect-done}
use screen_viewer.ClientSocket.Thread.{
  ended, Step, ends_handler, Worker, Connection, worker_steps, request_stop, stop, detach,
  resource_deadlock_would_occur, joined, join, destroy_thread, Handle, moved_from, holds,
  has_context, stop_context, destroy_member, with_handle, destroy, stop_and_join, disconnect,
  with_socket, with_worker,
}
use screen_viewer.ClientSocket.Thread.Steps.{worker_steps-ended, worker_steps-Same}

-- A worker whose thread is none of the callers.
joined-ended :
    (w : Worker)
    → w.position ≡ ended
    → joined w w.position ≡ done tt (record w { joinable = false; id = 0 })
unfolding joined
joined-ended w e = ap (joined w) e

-- The stop is requested first and the io_context stopped then.
join-ended :
    (caller : ℕ) (first behind : List Step) (w : Worker)
    → w.stop_requested ≡ true
    → w.stopped ≡ true
    → w.id ≢ caller
    → 3 ≤ length behind
    → (w' : Worker) × (join caller (first ++ ends_handler ∷ behind) w ≡ done tt w')
      × (w'.position ≡ ended)
      × (w'.joinable ≡ false)
unfolding join
join-ended caller first behind w asked stopped other enough =
    let apart : (w.id == caller) ≡ false = ground arith in
    let e =
      worker_steps-ended first behind w
        (record { asked = asked; run_returns = λ _. stopped; handler_last = λ _. stopped })
        enough in
    (
      record (worker_steps (first ++ ends_handler ∷ behind) w) { joinable = false; id = 0 },
      rw apart (joined-ended (worker_steps (first ++ ends_handler ∷ behind) w) e),
      e,
      refl,
    )

-- The member's own destructor, once ours has stopped both.
destroy_thread-returns :
    (caller : ℕ) (first behind : List Step) (w : Worker)
    → w.stop_requested ≡ true
    → w.stopped ≡ true
    → w.id ≢ caller
    → 3 ≤ length behind
    → (w' : Worker) × (destroy_thread caller (first ++ ends_handler ∷ behind) w ≡ done tt w')
      × (w'.joinable ≡ false)
      × ((w'.position ≡ ended) ⊎ (w.joinable ≡ false))
unfolding destroy_thread
destroy_thread-returns caller first behind w asked stopped other enough =
    elim (Bool-cases w.joinable) [
      | inl joins ↦
          let (w', e, at_its_end, gone) =
            join-ended caller first behind (request_stop w) refl stopped other enough in
          (w', if-true _ _ joins ∙ e, gone, inl at_its_end)
      | inr loose ↦ (w, if-false _ _ loose, loose, inr loose)
    ]

-- What the body leaves of the worker.
abbrev body_done : ℕ → List Step → Worker → Worker
body_done caller between w =
    let stopping = stop (worker_steps between (request_stop w)) in
    if stopping.id == caller then detach stopping else stopping

destroy-eq :
    (caller : ℕ) (between steps : List Step) (w : Worker)
    → destroy caller between steps (holds w)
      ≡ with_handle (destroy_thread caller steps (body_done caller between w))
unfolding destroy has_context stop_context destroy_member
destroy-eq caller between steps w = refl

destroy_as-eq :
    (caller : ℕ) (between steps : List Step) (w w1 : Worker) {o : Outcome Worker (Unit {0})}
    → body_done caller between w ≡ w1
    → destroy_thread caller steps w1 ≡ o
    → destroy caller between steps (holds w) ≡ with_handle o
destroy_as-eq caller between steps w w1 same e =
    destroy-eq caller between steps w
    ∙ ap (λ x. with_handle (destroy_thread caller steps x)) same
    ∙ ap with_handle e

-- The destructor of a socket that owns its thread.
destroy-done :
    (caller : ℕ) (between first behind : List Step) (w : Worker)
    → caller ≢ 0
    → 3 ≤ length behind
    → (w' : Worker) × (destroy caller between (first ++ ends_handler ∷ behind) (holds w)
        ≡ done tt (holds w'))
      × (w'.joinable ≡ false)
      × ((w'.position ≡ ended) ⊎ ((w.id ≡ caller) ⊎ (w.joinable ≡ false)))
destroy-done caller between first behind w some_thread enough =
    let w1 = stop (worker_steps between (request_stop w)) in
    let same = worker_steps-Same between (request_stop w) in
    elim (Bool-cases (w1.id == caller)) [
      | inl own ↦
          let (w', e, gone, _) =
            destroy_thread-returns caller first behind (detach w1) same.same_request refl
              (λ e. some_thread (sym e)) enough in
          let mine : w.id ≡ caller = sym same.same_id ∙ (==_iff w1.id caller).0 own in
          (
            w',
            destroy_as-eq caller between _ w (detach w1) (if-true _ _ own) e,
            gone,
            inr (inl mine),
          )
      | inr other ↦
          let apart : w1.id ≢ caller = ground arith in
          let (w', e, gone, how) =
            destroy_thread-returns caller first behind w1 same.same_request refl apart enough in
          (
            w',
            destroy_as-eq caller between _ w w1 (if-false _ _ other) e,
            gone,
            elim how [
              | inl at_its_end ↦ inl at_its_end
              | inr loose ↦ inr (inr (sym same.same_joinable ∙ loose))
            ],
          )
    ]

-- What the destructor on the thread `caller` leaves.
pub data Over (caller : ℕ) : Handle → Handle → Type 0 where
  nothing_held : Over caller moved_from moved_from
  over :
      {w w' : Worker}
      → w'.joinable ≡ false
      → (w'.position ≡ ended) ⊎ ((w.id ≡ caller) ⊎ (w.joinable ≡ false))
      → Over caller (holds w) (holds w')

-- The destructor returns, on whatever thread it runs and wherever the context's thread stands, also inside a
-- handler, if a handler that runs ends at some time and the thread makes three steps more. Of a
-- moved-from socket it touches nothing. Otherwise, on another thread it joins the context's thread if
-- that is still joinable, which has ended then; on the context's own thread, which is a joinable one,
-- it detaches it instead of joining itself. The thread is not joinable afterwards.
pub destroy-returns :
    (caller : ℕ) (between first behind : List Step) (h : Handle)
    → caller ≢ 0
    → 3 ≤ length behind
    → (h' : Handle) × (destroy caller between (first ++ ends_handler ∷ behind) h ≡ done tt h')
      × Over caller h h'
unfolding destroy has_context destroy_member
destroy-returns caller between first behind moved_from some_thread enough =
    (moved_from, refl, nothing_held)
destroy-returns caller between first behind (holds w) some_thread enough =
    let (w', e, gone, how) = destroy-done caller between first behind w some_thread enough in
    (holds w', e, over gone how)

module _ (t : Transport) {H : Type 0} where
  -- `disconnect` up to its last `if`, on a connection whose thread is joinable.
  disconnect-eq :
      (caller : ℕ) (between steps : List Step) (c : Connection t H)
      → c.worker.joinable ≡ true
      → disconnect t caller between steps c
        ≡ stop_and_join t caller steps (record {
          socket = final (safe_disconnect t none c.socket);
          worker = worker_steps between (request_stop c.worker);
        })
  unfolding disconnect
  disconnect-eq caller between steps c joins =
      ap
        (λ w.
          after
            (with_socket t (record c { worker = worker_steps between w })
              (safe_disconnect t none c.socket))
            (λ _. stop_and_join t caller steps))
        (if-true (request_stop c.worker) c.worker joins)
      ∙ ap
          (λ o.
            after
              (with_socket t (record c { worker = worker_steps between (request_stop c.worker) }) o)
              (λ _. stop_and_join t caller steps))
          (safe_disconnect-done t none c.socket)

  -- On another thread than the context's, `disconnect` of a connection whose thread is joinable returns: the
  -- socket has been through `safeDisconnect`, and the thread, wherever it stood, has ended and is joined,
  -- if a handler that runs ends at some time and the thread makes three steps more.
  pub disconnect-returns :
      (caller : ℕ) (between first behind : List Step) (c : Connection t H)
      → c.worker.joinable ≡ true
      → c.worker.id ≢ caller
      → 3 ≤ length behind
      → (c' : Connection t H) × (disconnect t caller between (first ++ ends_handler ∷ behind) c
          ≡ done tt c')
        × (c'.socket ≡ final (safe_disconnect t none c.socket))
        × (c'.worker.position ≡ ended)
        × (c'.worker.joinable ≡ false)
  unfolding stop_and_join
  disconnect-returns caller between first behind c joins other enough =
      let same = worker_steps-Same between (request_stop c.worker) in
      let w1 = stop (worker_steps between (request_stop c.worker)) in
      let still : w1.joinable ≡ true = same.same_joinable ∙ joins in
      let apart : w1.id ≢ caller = λ e. other (sym same.same_id ∙ e) in
      let (w', e, at_its_end, gone) =
        join-ended caller first behind w1 same.same_request refl apart enough in
      let c1 : Connection t H = record {
        socket = final (safe_disconnect t none c.socket);
        worker = worker_steps between (request_stop c.worker);
      } in
      (
        record c1 { worker = w' },
        disconnect-eq caller between (first ++ ends_handler ∷ behind) c joins
            ∙ if-true _ _ still
            ∙ ap (with_worker t c1) e,
        refl,
        at_its_end,
        gone,
      )

  -- Called on the context's own thread, as a message handler might, `disconnect` ends with the exception of a
  -- thread that joins itself: it lacks the test that the destructor has.
  pub disconnect-own_thread :
      (between steps : List Step) (c : Connection t H)
      → c.worker.joinable ≡ true
      → (c' : Connection t H) × (disconnect t c.worker.id between steps c
          ≡ thrown (system_error resource_deadlock_would_occur) c')
  unfolding stop_and_join join
  disconnect-own_thread between steps c joins =
      let same = worker_steps-Same between (request_stop c.worker) in
      let w1 = stop (worker_steps between (request_stop c.worker)) in
      let still : w1.joinable ≡ true = same.same_joinable ∙ joins in
      let own : (w1.id == c.worker.id) ≡ true = (==_iff w1.id c.worker.id).1 same.same_id in
      let c1 : Connection t H = record {
        socket = final (safe_disconnect t none c.socket);
        worker = worker_steps between (request_stop c.worker);
      } in
      (
        record c1 { worker = w1 },
        disconnect-eq c.worker.id between steps c joins
            ∙ if-true _ _ still
            ∙ ap (with_worker t c1) (if-true _ _ own),
      )
