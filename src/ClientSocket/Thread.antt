-- ===== src/ClientSocket/Thread.antt =====
-- The thread of include/ClientSocket.hpp and src/ClientSocket.cpp that runs the io_context, from `start` to
-- the destructor or `disconnect`. What the thread does beside the caller is given as a list of its steps.
pub mod Steps
pub mod Joins
use screen_viewer.Prelude.{ℕ, ◌==◌, if◌then◌else◌, ◌||◌, Bool, true, false, List, [], ◌∷◌, none}
use screen_viewer.Outcome.{
  Outcome, done, thrown, M, after, ◌>>=◌, ◌>>◌, give, throw, modify, system_error, unfinished,
  undefined,
}
use screen_viewer.Transport.{Transport}
use screen_viewer.Socket.{Socket, safe_disconnect}

-- Where the thread stands: at the loop's condition, inside `run`, there inside a completion handler, before
-- `restart`, or behind the loop.
pub data Position : Type 0 where
  checks runs handles restarts ended : Position

-- What happens inside `run`: a handler begins or ends, or `run` comes back for lack of work, or nothing.
pub data Step : Type 0 where
  waits begins_handler ends_handler runs_out : Step

-- `stopped` is the io_context's own flag. `joinable` and `id` are those of the `std::jthread`, whose id is 0
-- where it stands for no thread.
pub record Worker : Type 0 where
  pub position : Position
  pub stop_requested : Bool
  pub stopped : Bool
  pub joinable : Bool
  pub id : ℕ

module _ (t : Transport) (H : Type 0) where
  pub record Connection : Type 0 where
    pub socket : Socket t H
    pub worker : Worker

-- `run`, between two handlers: once it is stopped no other one begins.
inside_run : Step → Bool → Position
inside_run step true = restarts
inside_run begins_handler false = handles
inside_run runs_out false = restarts
inside_run step false = runs

inside_handler : Step → Position
inside_handler ends_handler = runs
inside_handler step = handles

-- One step of the loop.
worker_step_at : Position → Step → Worker → Worker
unfolding inside_run inside_handler
worker_step_at checks step w = record w { position = if w.stop_requested then ended else runs }
worker_step_at runs step w = record w { position = inside_run step w.stopped }
worker_step_at handles step w = record w { position = inside_handler step }
worker_step_at restarts step w = record w { position = checks; stopped = false }
worker_step_at ended step w = w

unfoldable pub worker_step : Step → Worker → Worker
unfolding worker_step_at
worker_step step w = worker_step_at w.position step w

unfoldable pub worker_steps : List Step → Worker → Worker
worker_steps [] w = w
worker_steps (step ∷ steps) w = worker_steps steps (worker_step step w)

-- `start`: the new thread has the id `id`.
unfoldable pub start : ℕ → Worker → Worker
start id w = record w { position = checks; stop_requested = false; joinable = true; id = id }

abbrev pub request_stop : Worker → Worker
request_stop w = record w { stop_requested = true }

-- `io_context::stop`.
abbrev pub stop : Worker → Worker
stop w = record w { stopped = true }

abbrev pub detach : Worker → Worker
detach w = record w { joinable = false; id = 0 }

-- EDEADLK.
abbrev pub resource_deadlock_would_occur : ℕ
resource_deadlock_would_occur = 35

joined : Worker → Position → Outcome Worker (Unit {0})
joined w ended = done tt (record w { joinable = false; id = 0 })
joined w _ = thrown unfinished w

-- `join`, called on the thread `caller`, while the thread makes these steps. A thread that has not ended by
-- then is still waited for.
unfoldable pub join : ℕ → List Step → M Worker (Unit {0})
unfolding joined
join caller steps w =
    if w.id == caller
    then thrown (system_error resource_deadlock_would_occur) w
    else (let w' = worker_steps steps w in joined w' w'.position)

-- The destructor of the `std::jthread` itself, behind the body of ours.
unfoldable pub destroy_thread : ℕ → List Step → M Worker (Unit {0})
destroy_thread caller steps w =
    let joins = join caller steps (request_stop w) in if w.joinable then joins else done tt w

-- The two members of a client's socket that its destructor reads: a moved-from one has a null `io_context` and
-- an empty thread.
pub data Handle : Type 0 where
  moved_from : Handle
  holds : Worker → Handle

-- The constructor that moves: the new socket and the old one.
pub move : Handle → Handle × Handle
move h = (h, moved_from)

has_context : Handle → Bool
has_context moved_from = false
has_context (holds w) = true

abbrev with_handle : Outcome Worker (Unit {0}) → Outcome Handle (Unit {0})
with_handle (done a w) = done a (holds w)
with_handle (thrown e w) = thrown e (holds w)

-- The body's `if`: the thread makes the steps `between` before the io_context is stopped. A null pointer must
-- not be followed.
stop_context : ℕ → List Step → M Handle (Unit {0})
stop_context caller between moved_from = thrown undefined moved_from
stop_context caller between (holds w) =
    let stopping = stop (worker_steps between (request_stop w)) in
    done tt (holds (if stopping.id == caller then detach stopping else stopping))

-- The member's destructor.
destroy_member : ℕ → List Step → M Handle (Unit {0})
unfolding destroy_thread
destroy_member caller steps moved_from = done tt moved_from
destroy_member caller steps (holds w) = with_handle (destroy_thread caller steps w)

-- `~ClientSocket`, with the thread's steps behind the stop.
unfoldable pub destroy : ℕ → List Step → List Step → M Handle (Unit {0})
unfolding has_context stop_context destroy_member
destroy caller between steps h =
    let stopped = stop_context caller between h in
    after (if has_context h then stopped else done tt h) (λ _. destroy_member caller steps)

module _ (t : Transport) {H : Type 0} where
  abbrev pub with_socket :
      Connection t H → Outcome (Socket t H) (Unit {0}) → Outcome (Connection t H) (Unit {0})
  with_socket c (done a s) = done a (record c { socket = s })
  with_socket c (thrown e s) = thrown e (record c { socket = s })

  abbrev pub with_worker :
      Connection t H → Outcome Worker (Unit {0}) → Outcome (Connection t H) (Unit {0})
  with_worker c (done a w) = done a (record c { worker = w })
  with_worker c (thrown e w) = thrown e (record c { worker = w })

  -- The last `if` of `disconnect`.
  stop_and_join : ℕ → List Step → M (Connection t H) (Unit {0})
  stop_and_join caller steps c =
      let joins = with_worker c (join caller steps (stop c.worker)) in
      if c.worker.joinable then joins else done tt c

  -- `disconnect`; the thread's steps `between` are those until the io_context is stopped.
  unfoldable pub disconnect : ℕ → List Step → List Step → M (Connection t H) (Unit {0})
  unfolding stop_and_join
  disconnect caller between steps c =
      let asked = if c.worker.joinable then request_stop c.worker else c.worker in
      let running = record c { worker = worker_steps between asked } in
      after (with_socket running (safe_disconnect t none c.socket))
        (λ _. stop_and_join caller steps)
