-- ===== src/SessionsManager/Registry.antt =====
-- Who is registered, and under which id.
use screen_viewer.Prelude.{
  ltb, ◌*◌, ◌-◌, ℕ, ◌≤◌, ◌≡◌, refl, ◌⊎◌, inl, inr, arith, false, List, [], ◌∷◌, Option, none, some,
  Bytes, same_bytes, same_bytes_iff, if◌then◌else◌, Bool-cases, Option-cases,
}
use screen_viewer.SessionsManager.{
  nanoseconds_per_second, TimedClientSession, SendersSessions, Manager, find, contains, erase,
  assign, session_id, register_streamer, extract_streamer, terminate_timeout_clients,
  terminate_from, reset, current_sessions, init_cleaner_thread,
}

pub find-erase :
    (id j : Bytes) (m : SendersSessions)
    → find j (erase id m) ≡ (if same_bytes id j then none else find j m)
unfolding find erase
find-erase id j [] = ground arith
find-erase id j ((k, s) ∷ m) =
    ground (arith, same_bytes_iff k id, same_bytes_iff k j, same_bytes_iff id j, find-erase id j m)

pub find-assign :
    (id j : Bytes) (s : TimedClientSession) (m : SendersSessions)
    → find j (assign id s m) ≡ (if same_bytes id j then some s else find j m)
unfolding find assign
find-assign id j s [] = refl
find-assign id j s ((k, old) ∷ m) =
    ground
      (arith, same_bytes_iff k id, same_bytes_iff k j, same_bytes_iff id j, find-assign id j s m)

-- The session stands under the id that `register_streamer` returns, whatever stood there before,
-- and every other id finds what it found.
pub register_streamer_lem :
    (sender now : ℕ) (manager : Manager) (j : Bytes)
    → find j (register_streamer sender now manager).0.senders_sessions ≡ (
        if same_bytes (register_streamer sender now manager).1 j
        then some (record { client_session = sender; time_point = now })
        else find j manager.senders_sessions)
unfolding register_streamer contains
register_streamer_lem sender now manager j = ground (
  arith,
  find-assign session_id j (record { client_session = sender; time_point = now })
      manager.senders_sessions,
  find-assign session_id j (record { client_session = sender; time_point = now })
      (erase session_id manager.senders_sessions),
  find-erase session_id j manager.senders_sessions,
)

-- The first half of `createBridgeWithStreamer` hands a streamer out when its id is registered and
-- only then; after that its id finds nothing, and every other id finds what it found.
pub extract_streamer_lem :
    (id : Bytes) (manager : Manager)
    → ((find id manager.senders_sessions ≡ none) × (extract_streamer id manager ≡ none))
      ⊎ ((s : TimedClientSession) × (manager' : Manager) × (find id manager.senders_sessions
            ≡ some s)
          × (extract_streamer id manager ≡ some (s, manager'))
          × ((j : Bytes)
              → find j manager'.senders_sessions
                ≡ (if same_bytes id j then none else find j manager.senders_sessions)))
unfolding extract_streamer
extract_streamer_lem id manager = elim (Option-cases (find id manager.senders_sessions)) [
  | inl e ↦ inl (e, rw (e, extract_streamer))
  | inr (s, e) ↦ inr (
    s,
    record manager { senders_sessions = erase id manager.senders_sessions },
    e,
    rw (e, extract_streamer),
    λ j. find-erase id j manager.senders_sessions,
  )
]

-- The calls that reach the manager, from sessions and from the cleaner thread.
pub data Call : Type 0 where
  registers : ℕ → ℕ → Call
  finds : Bytes → Call
  cleans : (ℕ → ℕ) → ℕ → Call
  resets starts_cleaner : Call

abbrev pub taken : Manager → Option (TimedClientSession × Manager) → Manager
taken manager none = manager
taken manager (some (s, manager')) = manager'

unfoldable pub call : Manager → Call → Manager
call manager (registers sender now) = (register_streamer sender now manager).0
call manager (finds id) = taken manager (extract_streamer id manager)
call manager (cleans now timeout) = terminate_timeout_clients now timeout manager
call manager resets = reset manager
call manager starts_cleaner = init_cleaner_thread manager

unfoldable pub run : Manager → List Call → Manager
run manager [] = manager
run manager (c ∷ cs) = run (call manager c) cs

abbrev pub initial : Manager
initial = record { senders_sessions = []; connections_controller = false }

-- Nobody, or one session under the constant id.
abbrev IsSingle : SendersSessions → Type 0
IsSingle m = (m ≡ []) ⊎ ((s : TimedClientSession) × (m ≡ (session_id, s) ∷ []))

erase-IsSingle : (id : Bytes) (m : SendersSessions) → IsSingle m → IsSingle (erase id m)
unfolding erase
erase-IsSingle id m (inl e) = inl (rw e)
erase-IsSingle id m (inr (s, e)) = elim (Bool-cases (same_bytes session_id id)) [
  | inl hit ↦ inl (rw (e, hit))
  | inr miss ↦ inr (s, rw (e, miss))
]

terminate_from-IsSingle :
    (now : ℕ → ℕ) (timeout i : ℕ) (m : SendersSessions)
    → IsSingle m
    → IsSingle (terminate_from now timeout i m)
unfolding terminate_from
terminate_from-IsSingle now timeout i m (inl e) = inl (rw e)
terminate_from-IsSingle now timeout i m (inr (s, e)) =
    elim (Bool-cases (ltb (timeout * nanoseconds_per_second) (now i - s.time_point))) [
      | inl old ↦ inl (rw (e, old))
      | inr young ↦ inr (s, rw (e, young))
    ]

register_streamer-IsSingle :
    (sender now : ℕ) (manager : Manager)
    → IsSingle manager.senders_sessions
    → IsSingle (register_streamer sender now manager).0.senders_sessions
unfolding register_streamer contains find erase assign same_bytes
register_streamer-IsSingle sender now manager (inl e) =
    inr (record { client_session = sender; time_point = now }, rw e)
register_streamer-IsSingle sender now manager (inr (s, e)) =
    inr (record { client_session = sender; time_point = now }, rw e)

taken-IsSingle :
    (id : Bytes) (manager : Manager)
    → IsSingle manager.senders_sessions
    → IsSingle (taken manager (extract_streamer id manager)).senders_sessions
unfolding extract_streamer
taken-IsSingle id manager h = elim (Option-cases (find id manager.senders_sessions)) [
  | inl e ↦ rw (e, extract_streamer) h
  | inr (s, e) ↦ rw (e, extract_streamer) (erase-IsSingle id manager.senders_sessions h)
]

call-IsSingle :
    (manager : Manager) (c : Call)
    → IsSingle manager.senders_sessions
    → IsSingle (call manager c).senders_sessions
unfolding call
call-IsSingle manager (registers sender now) h = register_streamer-IsSingle sender now manager h
call-IsSingle manager (finds id) h = taken-IsSingle id manager h
call-IsSingle manager (cleans now timeout) h =
    unfold terminate_timeout_clients in
    terminate_from-IsSingle now timeout 0 manager.senders_sessions h
call-IsSingle manager resets h = unfold reset in inl refl
call-IsSingle manager starts_cleaner h = unfold init_cleaner_thread in h

run-IsSingle :
    (manager : Manager) (cs : List Call)
    → IsSingle manager.senders_sessions
    → IsSingle (run manager cs).senders_sessions
unfolding run
run-IsSingle manager [] h = h
run-IsSingle manager (c ∷ cs) h = run-IsSingle (call manager c) cs (call-IsSingle manager c h)

-- Since every streamer gets the same id, at most one streamer is registered at any time, whatever
-- calls have reached the manager.
pub current_sessions-le-one : (cs : List Call) → current_sessions (run initial cs) ≤ 1
unfolding current_sessions
current_sessions-le-one cs = elim (run-IsSingle initial cs (inl refl)) [
  | inl e ↦ rw e (omega arith)
  | inr (s, e) ↦ rw e (omega arith)
]
