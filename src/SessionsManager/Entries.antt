-- ===== src/SessionsManager/Entries.antt =====
-- A property of the registered sessions under the manager's operations.
use screen_viewer.Prelude.{
  ℕ, suc, ◌-◌, ◌*◌, ◌≡◌, arith, ltb, Bool, true, false, Bool-cases, inl, inr, if◌then◌else◌, [],
  ◌∷◌, some, Bytes, All, same_bytes,
}
use screen_viewer.SessionsManager.{
  TimedClientSession, SendersSessions, Manager, find, contains, erase, assign, session_id,
  register_streamer, terminate_from, nanoseconds_per_second,
}

module _ (P : ℕ → Type 0) where
  -- Every registered session has the property.
  abbrev pub Registered : SendersSessions → Type 0
  Registered = All (λ (x : Bytes × TimedClientSession). P x.1.client_session)

  pub find-Registered :
      (id : Bytes) (m : SendersSessions) {s : TimedClientSession}
      → Registered m
      → find id m ≡ some s
      → P s.client_session
  unfolding find
  find-Registered id [] h e = cc
  find-Registered id ((k, x) ∷ m) {s} h e = elim (Bool-cases (same_bytes k id)) [
    | inl hit ↦ let same : x ≡ s = ground arith in rw (← same) h.0
    | inr miss ↦ find-Registered id m {s = s} h.1 (ground arith)
  ]

  pub erase-Registered : (id : Bytes) (m : SendersSessions) → Registered m → Registered (erase id m)
  unfolding erase
  erase-Registered id [] h = tt
  erase-Registered id ((k, x) ∷ m) h = elim (Bool-cases (same_bytes k id)) [
    | inl hit ↦ rw hit (erase-Registered id m h.1)
    | inr miss ↦ rw miss (h.0, erase-Registered id m h.1)
  ]

  assign-Registered :
      (id : Bytes) (s : TimedClientSession) (m : SendersSessions)
      → P s.client_session
      → Registered m
      → Registered (assign id s m)
  unfolding assign
  assign-Registered id s [] p h = (p, tt)
  assign-Registered id s ((k, x) ∷ m) p h = elim (Bool-cases (same_bytes k id)) [
    | inl hit ↦ rw hit (p, h.1)
    | inr miss ↦ rw miss (h.0, assign-Registered id s m p h.1)
  ]

  cleared-Registered :
      (b : Bool) (m : SendersSessions)
      → Registered m
      → Registered (if b then erase session_id m else m)
  cleared-Registered true m h = erase-Registered session_id m h
  cleared-Registered false m h = h

  pub register_streamer-Registered :
      (sender now : ℕ) (manager : Manager)
      → P sender
      → Registered manager.senders_sessions
      → Registered (register_streamer sender now manager).0.senders_sessions
  unfolding register_streamer
  register_streamer-Registered sender now manager p h =
      assign-Registered session_id _ _ p (
        cleared-Registered (contains session_id manager.senders_sessions) manager.senders_sessions
          h)

  pub terminate_from-Registered :
      (now : ℕ → ℕ) (timeout i : ℕ) (m : SendersSessions)
      → Registered m
      → Registered (terminate_from now timeout i m)
  unfolding terminate_from
  terminate_from-Registered now timeout i [] h = tt
  terminate_from-Registered now timeout i ((k, x) ∷ m) h =
      elim (Bool-cases (ltb (timeout * nanoseconds_per_second) (now i - x.time_point))) [
        | inl old ↦ rw old (terminate_from-Registered now timeout (suc i) m h.1)
        | inr young ↦ rw young (h.0, terminate_from-Registered now timeout (suc i) m h.1)
      ]
