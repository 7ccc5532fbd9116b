-- ===== src/Session/Completion.antt =====
-- A completed read keeps the invariant: only sessions that are not handed over have one.
use screen_viewer.Prelude.{
  ℕ, ◌<◌, ◌≡◌, ◌≢◌, refl, ap, ◌∙◌, arith, Option, none, some, Option-cases, inl, inr,
}
use native.Mathlib.Decide.{dec_lt}
use screen_viewer.Message.{Message}
use screen_viewer.Outcome.{Outcome, done, thrown, after}
use screen_viewer.Socket.{Socket, Pending, poll}
use screen_viewer.Socket.Async.{poll_idle, poll-some}
use screen_viewer.World.{Env, Callback, World, update, update_self, with_socket}
use screen_viewer.Session.{complete, handle}
use screen_viewer.Session.Frame.{pending_of, with_socket-Framed}
use screen_viewer.Session.Invariant.{
  Parked, Inv, Free, Safe, Frame-Inv, socket-Inv, Parked-map, Bridged-map,
}
use screen_viewer.Session.Handlers.{handle-Safe}

module _ (env : Env) where
  open env use {transport as t}

  Quiet-ne :
      (w : World env) (self j : ℕ) {p : Pending Callback}
      → pending_of env w self ≡ some p
      → Parked env w j
      → j ≢ self
  Quiet-ne w self j busy q e = cc (q.1, busy, ap (pending_of env w) e)

  -- A session whose read is outstanding is neither registered nor bridged.
  busy-Free :
      (w : World env) (self : ℕ) {p : Pending Callback}
      → Inv env w
      → pending_of env w self ≡ some p
      → Free env w self
  busy-Free w self v busy = record {
    not_registered =
        Parked-map env (Parked env w) (λ j. j ≢ self) w (λ j. Quiet-ne w self j busy) v.registered;
    not_bridged =
        Bridged-map env (Parked env w) (λ j. j ≢ self) w (λ j. Quiet-ne w self j busy) v.bridged;
  }

  busy-born :
      (w : World env) (self : ℕ) {p : Pending Callback}
      → Inv env w
      → pending_of env w self ≡ some p
      → self < w.next_session
  busy-born w self v busy = elim (dec_lt self w.next_session) [
    | yes h ↦ h
    | no h ↦ cc (v.unborn self (omega arith), busy)
  ]

  polled-Safe :
      (w : World env) (self : ℕ) (o : Outcome (Socket t Callback) (Option (Callback × Message)))
      → ((m : Callback × Message) (s : Socket t Callback) → o ≡ done (some m) s → s.pending ≡ none)
      → self < w.next_session
      → Free env w self
      → Inv env w
      → Safe env (after (with_socket env self w o) (handle env self))
  unfolding handle
  polled-Safe w self (done none s) idle born free v = record {
    safe = socket-Inv env w self s born free v;
  }
  polled-Safe w self (done (some (h, m)) s) idle born free v =
      handle-Safe env (record w { sockets = update w.sockets self s }) self h m
        (record {
          inv = socket-Inv env w self s born free v;
          free = record { not_registered = free.not_registered; not_bridged = free.not_bridged };
          born = born;
          quiet =
              ap (λ (x : Socket t Callback). x.pending) (update_self w.sockets self s)
              ∙ idle (h, m) s refl;
        })
  polled-Safe w self (thrown e s) idle born free v = record {
    safe = socket-Inv env w self s born free v;
  }

  pub complete-Safe : (w : World env) (self : ℕ) → Inv env w → Safe env (complete env self w)
  unfolding complete handle
  complete-Safe w self v = elim (Option-cases (pending_of env w self)) [
    | inl none' ↦
        let polled : Outcome (Socket t Callback) (Option (Callback × Message)) =
          done none (w.sockets self) in
        rw (poll_idle t (w.sockets self) none')
          (record { safe = Frame-Inv env (with_socket-Framed env self w polled refl).frame v })
    | inr (p, busy) ↦
        polled-Safe w self (poll t (w.sockets self)) (poll-some t (w.sockets self))
          (busy-born w self v busy) (busy-Free w self v busy) v
  ]
