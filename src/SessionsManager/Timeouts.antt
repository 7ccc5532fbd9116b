-- ===== src/SessionsManager/Timeouts.antt =====
-- Which streamers the cleaner drops.
use screen_viewer.Prelude.{
  ℕ, suc, ◌+◌, ◌*◌, ◌≤◌, ◌<◌, ◌≡◌, refl, arith, [], ◌∷◌, none, some, Bytes, same_bytes_iff,
}
use screen_viewer.SessionsManager.{
  TimedClientSession, SendersSessions, Manager, find, terminate_timeout_clients, terminate_from,
  nanoseconds_per_second,
}

-- No id stands twice in the map.
abbrev pub Absent : Bytes → SendersSessions → Type 0
Absent id m = find id m ≡ none

abbrev pub Distinct : SendersSessions → Type 0
Distinct [] = Unit {0}
Distinct ((k, s) ∷ m) = Absent k m × Distinct m

module _ (now : ℕ → ℕ) (client_timeout : ℕ) where
  pub terminate_from-Absent :
      (i : ℕ) (m : SendersSessions) (id : Bytes)
      → Absent id m
      → Absent id (terminate_from now client_timeout i m)
  unfolding terminate_from find
  terminate_from-Absent i [] id h = refl
  terminate_from-Absent i ((k, s) ∷ m) id h = ground (arith, terminate_from-Absent (suc i) m id)

  module _ (start finish : ℕ) (ticks : (i : ℕ) → (start ≤ now i) × (now i ≤ finish)) where
    terminate_from-keeps :
        (i : ℕ) (m : SendersSessions) (id : Bytes) (s : TimedClientSession)
        → find id m ≡ some s
        → finish ≤ s.time_point + client_timeout * nanoseconds_per_second
        → find id (terminate_from now client_timeout i m) ≡ some s
    unfolding terminate_from find
    terminate_from-keeps i [] id s e young = e
    terminate_from-keeps i ((k, x) ∷ m) id s e young =
        ground (arith, ticks i, terminate_from-keeps (suc i) m id s)

    terminate_from-drops :
        (i : ℕ) (m : SendersSessions) (id : Bytes) (s : TimedClientSession)
        → Distinct m
        → find id m ≡ some s
        → s.time_point + client_timeout * nanoseconds_per_second < start
        → Absent id (terminate_from now client_timeout i m)
    unfolding terminate_from find
    terminate_from-drops i [] id s d e old = refl
    terminate_from-drops i ((k, x) ∷ m) id s d e old = ground (
      arith,
      ticks i,
      same_bytes_iff k id,
      terminate_from-Absent (suc i) m id,
      terminate_from-drops (suc i) m id s d.1,
    )

-- A cleaning whose clock readings lie between `start` and `finish` keeps, under its id, every
-- streamer that has not waited longer than the timeout when it ends.
pub terminate_timeout_clients-keeps :
    (now : ℕ → ℕ) (client_timeout start finish : ℕ) (manager : Manager) (id : Bytes)
    (s : TimedClientSession)
    → ((i : ℕ) → (start ≤ now i) × (now i ≤ finish))
    → find id manager.senders_sessions ≡ some s
    → finish ≤ s.time_point + client_timeout * nanoseconds_per_second
    → find id (terminate_timeout_clients now client_timeout manager).senders_sessions ≡ some s
unfolding terminate_timeout_clients
terminate_timeout_clients-keeps now timeout start finish manager id s ticks =
    terminate_from-keeps now timeout start finish ticks 0 manager.senders_sessions id s

-- If no id stands twice in the map, a cleaning whose clock readings lie between `start` and
-- `finish` drops every streamer that has waited longer than the timeout when it starts.
pub terminate_timeout_clients-drops :
    (now : ℕ → ℕ) (client_timeout start finish : ℕ) (manager : Manager) (id : Bytes)
    (s : TimedClientSession)
    → ((i : ℕ) → (start ≤ now i) × (now i ≤ finish))
    → Distinct manager.senders_sessions
    → find id manager.senders_sessions ≡ some s
    → s.time_point + client_timeout * nanoseconds_per_second < start
    → find id (terminate_timeout_clients now client_timeout manager).senders_sessions ≡ none
unfolding terminate_timeout_clients
terminate_timeout_clients-drops now timeout start finish manager id s ticks =
    terminate_from-drops now timeout start finish ticks 0 manager.senders_sessions id s
