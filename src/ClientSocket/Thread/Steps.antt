-- ===== src/ClientSocket/Thread/Steps.antt =====
-- The steps of the context's thread: it ends once it is asked to, unless it stays inside a handler.
use screen_viewer.Prelude.{
  ℕ, ◌-◌, ◌≤◌, ◌≡◌, ◌≢◌, refl, sym, ap, ◌∙◌, arith, true, List, [], ◌∷◌, ◌++◌, All, length,
}
use screen_viewer.ClientSocket.Thread.{
  Position, checks, runs, handles, restarts, ended, Step, waits, begins_handler, ends_handler,
  runs_out, Worker, inside_run, inside_handler, worker_step_at, worker_step, worker_steps,
}

-- The steps that are left until the end, once a stop is requested, the io_context has been stopped and no
-- handler runs.
abbrev left_steps : Position → ℕ
left_steps checks = 1
left_steps runs = 3
left_steps handles = 3
left_steps restarts = 2
left_steps ended = 0

-- A stop is requested, and the io_context is stopped while the thread is inside `run`.
pub record Stopping (w : Worker) : Type 0 where
  pub asked : w.stop_requested ≡ true
  pub run_returns : w.position ≡ runs → w.stopped ≡ true
  pub handler_last : w.position ≡ handles → w.stopped ≡ true

-- And no handler runs.
record Leaving (w : Worker) : Type 0 where
  stopping : Stopping w
  no_handler : w.position ≢ handles

record Progress (w w' : Worker) : Type 0 where
  leaving : Leaving w'
  less : left_steps w'.position ≤ left_steps w.position - 1

worker_step_at-Progress :
    (p : Position) (b : Step) (w : Worker)
    → w.position ≡ p
    → Leaving w
    → Progress w (worker_step_at p b w)
unfolding worker_step_at inside_run
worker_step_at-Progress checks b w at l =
    let asked = l.stopping.asked in
    record {
      leaving = record {
        stopping = record {
          asked = asked;
          run_returns = λ e. cc (rw asked at e);
          handler_last = λ e. cc (rw asked at e);
        };
        no_handler = λ e. cc (rw asked at e);
      };
      less = rw (asked, at) (omega arith);
    }
worker_step_at-Progress runs b w at l =
    let stopped = l.stopping.run_returns at in
    let next : inside_run b w.stopped ≡ restarts = ap (inside_run b) stopped in
    record {
      leaving = record {
        stopping = record {
          asked = l.stopping.asked;
          run_returns = λ e. stopped;
          handler_last = λ e. stopped;
        };
        no_handler = λ e. cc (sym next ∙ e);
      };
      less = rw (next, at) (omega arith);
    }
worker_step_at-Progress handles b w at l = absurd (l.no_handler at)
worker_step_at-Progress restarts b w at l = record {
  leaving = record {
    stopping = record { asked = l.stopping.asked; run_returns = λ e. cc; handler_last = λ e. cc };
    no_handler = λ e. cc;
  };
  less = rw at (omega arith);
}
worker_step_at-Progress ended b w at l = record { leaving = l; less = rw at (omega arith) }

at_end : (p : Position) → left_steps p ≤ 0 → p ≡ ended
at_end checks h = absurd (omega arith)
at_end runs h = absurd (omega arith)
at_end handles h = absurd (omega arith)
at_end restarts h = absurd (omega arith)
at_end ended h = refl

worker_steps-leave :
    (steps : List Step) (w : Worker)
    → Leaving w
    → left_steps w.position ≤ length steps
    → (worker_steps steps w).position ≡ ended
unfolding worker_steps worker_step
worker_steps-leave [] w l enough = at_end w.position enough
worker_steps-leave (b ∷ steps) w l enough =
    let next = worker_step_at-Progress w.position b w refl l in
    worker_steps-leave steps (worker_step_at w.position b w) next.leaving (omega (arith, next.less))

-- A thread that may be inside a handler.
worker_step_at-Stopping :
    (p : Position) (b : Step) (w : Worker)
    → w.position ≡ p
    → Stopping w
    → Stopping (worker_step_at p b w)
unfolding worker_step_at
worker_step_at-Stopping handles b w at s = record {
  asked = s.asked;
  run_returns = λ e. s.handler_last at;
  handler_last = λ e. s.handler_last at;
}
worker_step_at-Stopping checks b w at s =
    (worker_step_at-Progress checks b w at
      (record { stopping = s; no_handler = λ e. cc (sym at ∙ e) })).leaving.stopping
worker_step_at-Stopping runs b w at s =
    (worker_step_at-Progress runs b w at
      (record { stopping = s; no_handler = λ e. cc (sym at ∙ e) })).leaving.stopping
worker_step_at-Stopping restarts b w at s =
    (worker_step_at-Progress restarts b w at
      (record { stopping = s; no_handler = λ e. cc (sym at ∙ e) })).leaving.stopping
worker_step_at-Stopping ended b w at s = s

worker_step_at-Leaving :
    (p : Position) (w : Worker)
    → w.position ≡ p
    → Stopping w
    → Leaving (worker_step_at p ends_handler w)
unfolding worker_step_at inside_handler
worker_step_at-Leaving handles w at s = record {
  stopping = worker_step_at-Stopping handles ends_handler w at s;
  no_handler = λ e. cc;
}
worker_step_at-Leaving checks w at s =
    (worker_step_at-Progress checks ends_handler w at
      (record { stopping = s; no_handler = λ e. cc (sym at ∙ e) })).leaving
worker_step_at-Leaving runs w at s =
    (worker_step_at-Progress runs ends_handler w at
      (record { stopping = s; no_handler = λ e. cc (sym at ∙ e) })).leaving
worker_step_at-Leaving restarts w at s =
    (worker_step_at-Progress restarts ends_handler w at
      (record { stopping = s; no_handler = λ e. cc (sym at ∙ e) })).leaving
worker_step_at-Leaving ended w at s = record { stopping = s; no_handler = λ e. cc (sym at ∙ e) }

left_steps-le : (p : Position) → left_steps p ≤ 3
left_steps-le checks = omega arith
left_steps-le runs = omega arith
left_steps-le handles = omega arith
left_steps-le restarts = omega arith
left_steps-le ended = omega arith

-- A handler that runs ends at some time, and three steps follow.
pub worker_steps-ended :
    (first behind : List Step) (w : Worker)
    → Stopping w
    → 3 ≤ length behind
    → (worker_steps (first ++ ends_handler ∷ behind) w).position ≡ ended
unfolding worker_steps worker_step
worker_steps-ended [] behind w s enough =
    let w' = worker_step_at w.position ends_handler w in
    worker_steps-leave behind w' (worker_step_at-Leaving w.position w refl s)
      (omega (arith, left_steps-le w'.position))
worker_steps-ended (b ∷ first) behind w s enough =
    worker_steps-ended first behind (worker_step_at w.position b w)
      (worker_step_at-Stopping w.position b w refl s) enough

-- What the thread's steps leave alone.
pub record Same (w w' : Worker) : Type 0 where
  pub same_request : w'.stop_requested ≡ w.stop_requested
  pub same_joinable : w'.joinable ≡ w.joinable
  pub same_id : w'.id ≡ w.id

worker_step_at-Same : (p : Position) (b : Step) (w : Worker) → Same w (worker_step_at p b w)
unfolding worker_step_at
worker_step_at-Same checks b w = record {
  same_request = refl;
  same_joinable = refl;
  same_id = refl;
}
worker_step_at-Same runs b w = record { same_request = refl; same_joinable = refl; same_id = refl }
worker_step_at-Same restarts b w = record {
  same_request = refl;
  same_joinable = refl;
  same_id = refl;
}
worker_step_at-Same handles b w = record {
  same_request = refl;
  same_joinable = refl;
  same_id = refl;
}
worker_step_at-Same ended b w = record { same_request = refl; same_joinable = refl; same_id = refl }

pub worker_steps-Same : (steps : List Step) (w : Worker) → Same w (worker_steps steps w)
unfolding worker_steps worker_step
worker_steps-Same [] w = record { same_request = refl; same_joinable = refl; same_id = refl }
worker_steps-Same (b ∷ steps) w =
    let first = worker_step_at-Same w.position b w in
    let rest = worker_steps-Same steps (worker_step_at w.position b w) in
    record {
      same_request = rest.same_request ∙ first.same_request;
      same_joinable = rest.same_joinable ∙ first.same_joinable;
      same_id = rest.same_id ∙ first.same_id;
    }

-- A handler that does not end keeps the thread inside it.
worker_step_at-handles :
    (b : Step) (w : Worker) → b ≢ ends_handler → (worker_step_at handles b w).position ≡ handles
unfolding worker_step_at inside_handler
worker_step_at-handles waits w other = refl
worker_step_at-handles begins_handler w other = refl
worker_step_at-handles ends_handler w other = absurd (other refl)
worker_step_at-handles runs_out w other = refl

pub worker_steps-handles :
    (steps : List Step) (w : Worker)
    → w.position ≡ handles
    → All (λ b. b ≢ ends_handler) steps
    → (worker_steps steps w).position ≡ handles
unfolding worker_steps worker_step
worker_steps-handles [] w at others = at
worker_steps-handles (b ∷ steps) w at others =
    worker_steps-handles steps (worker_step_at w.position b w)
      (ap (λ p. (worker_step_at p b w).position) at ∙ worker_step_at-handles b w others.0) others.1
