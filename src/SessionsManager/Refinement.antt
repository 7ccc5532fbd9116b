-- ===== src/SessionsManager/Refinement.antt =====
-- The registry as its callers may think of it: a directory that finds, under an id, the session
-- that waits there.
use screen_viewer.Prelude.{
  ℕ, suc, ◌-◌, ◌*◌, ◌≡◌, inl, inr, refl, arith, Bool, Bool-cases, ltb, if◌then◌else◌, List, [], ◌∷◌,
  Option, none, some, Option-cases, Bytes, same_bytes, same_bytes_iff,
}
use screen_viewer.SessionsManager.{
  TimedClientSession, SendersSessions, Manager, find, contains, erase, assign, session_id,
  register_streamer, extract_streamer, terminate_timeout_clients, terminate_from, reset,
  init_cleaner_thread, nanoseconds_per_second,
}
use screen_viewer.SessionsManager.Timeouts.{Absent, Distinct, terminate_from-Absent}
use screen_viewer.SessionsManager.Registry.{
  Call, registers, finds, cleans, resets, starts_cleaner, call, run, initial, find-erase,
  find-assign, register_streamer_lem,
}

abbrev pub Directory : Type 0
Directory = Bytes → Option TimedClientSession

abbrev pub view : Manager → Directory
view manager id = find id manager.senders_sessions

abbrev pub empty : Directory
empty id = none

-- What a caller gets back.
pub data Reply : Type 0 where
  named : Bytes → Reply
  handed_out : ℕ → Reply
  not_found nothing : Reply

abbrev pub reply : Manager → Call → Reply
reply manager (registers sender now) = named (register_streamer sender now manager).1
reply manager (finds id) = elim (extract_streamer id manager) [
  | none ↦ not_found
  | some (s, manager') ↦ handed_out s.client_session
]
reply manager (cleans now timeout) = nothing
reply manager resets = nothing
reply manager starts_cleaner = nothing

abbrev pub expired : (ℕ → ℕ) → ℕ → ℕ → TimedClientSession → Bool
expired now timeout i s = ltb (timeout * nanoseconds_per_second) (now i - s.time_point)

abbrev pub unless_expired : (ℕ → ℕ) → ℕ → ℕ → TimedClientSession → Option TimedClientSession
unless_expired now timeout i s = if expired now timeout i s then none else some s

-- What a cleaning makes of the session of one id: it is judged at one of the cleaning's readings of
-- the clock.
pub data Judged (now : ℕ → ℕ) (timeout : ℕ) (before after : Option TimedClientSession)
    : Type 0 where
  absent : before ≡ none → after ≡ none → Judged now timeout before after
  judged :
      (i : ℕ) (s : TimedClientSession)
      → before ≡ some s
      → after ≡ unless_expired now timeout i s
      → Judged now timeout before after

-- What a call may do to the directory. A registration chooses the id.
pub data Step : Directory → Call → Reply → Directory → Type 0 where
  registered :
      {d d' : Directory}
      → (sender now : ℕ) (id : Bytes)
      → ((j : Bytes)
          → d' j ≡ (
              if same_bytes id j
              then some (record { client_session = sender; time_point = now })
              else d j))
      → Step d (registers sender now) (named id) d'
  found :
      {d d' : Directory}
      → (id : Bytes) (s : TimedClientSession) → d id ≡ some s
      → ((j : Bytes) → d' j ≡ (if same_bytes id j then none else d j))
      → Step d (finds id) (handed_out s.client_session) d'
  missed : {d : Directory} → (id : Bytes) → d id ≡ none → Step d (finds id) not_found d
  cleaned :
      {d d' : Directory}
      → (now : ℕ → ℕ) (timeout : ℕ) → ((j : Bytes) → Judged now timeout (d j) (d' j))
      → Step d (cleans now timeout) nothing d'
  emptied : {d : Directory} → Step d resets nothing empty
  watched : {d : Directory} → Step d starts_cleaner nothing d

pub data Trace : Directory → List (Call × Reply) → Directory → Type 0 where
  ended : {d : Directory} → Trace d [] d
  next :
      {d d' d'' : Directory} {c : Call} {r : Reply} {rest : List (Call × Reply)}
      → Step d c r d'
      → Trace d' rest d''
      → Trace d ((c, r) ∷ rest) d''

abbrev pub replies : Manager → List Call → List (Call × Reply)
replies manager [] = []
replies manager (c ∷ cs) = (c, reply manager c) ∷ replies (call manager c) cs

erase-Absent : (id j : Bytes) (m : SendersSessions) → Absent j m → Absent j (erase id m)
erase-Absent id j m h = ground (arith, find-erase id j m)

erase-Distinct : (id : Bytes) (m : SendersSessions) → Distinct m → Distinct (erase id m)
unfolding erase
erase-Distinct id [] h = tt
erase-Distinct id ((k, s) ∷ m) h = ground (arith, erase-Distinct id m h.1, erase-Absent id k m h.0)

assign-Distinct :
    (id : Bytes) (s : TimedClientSession) (m : SendersSessions)
    → Distinct m
    → Distinct (assign id s m)
unfolding assign find
assign-Distinct id s [] h = (refl, tt)
assign-Distinct id s ((k, old) ∷ m) h = ground (
  arith,
  assign-Distinct id s m h.1,
  find-assign id k s m,
  same_bytes_iff k id,
  same_bytes_iff id k,
)

module _ (now : ℕ → ℕ) (timeout : ℕ) where
  terminate_from-Distinct :
      (i : ℕ) (m : SendersSessions) → Distinct m → Distinct (terminate_from now timeout i m)
  unfolding terminate_from
  terminate_from-Distinct i [] h = tt
  terminate_from-Distinct i ((k, s) ∷ m) h = ground (
    arith,
    terminate_from-Distinct (suc i) m h.1,
    terminate_from-Absent now timeout (suc i) m k h.0,
  )

  pub terminate_from-Judged :
      (i : ℕ) (m : SendersSessions) (j : Bytes)
      → Distinct m
      → Judged now timeout (find j m) (find j (terminate_from now timeout i m))
  unfolding terminate_from find
  terminate_from-Judged i [] j h = absent refl refl
  terminate_from-Judged i ((k, s) ∷ m) j h = elim (Bool-cases (same_bytes k j)) [
    | inl hit ↦
        let same : k ≡ j = ground (arith, same_bytes_iff k j) in
        let gone : Absent j m = rw (← same) h.0 in
        let left = terminate_from-Absent now timeout (suc i) m j gone in
        judged i s (rw hit) (ground arith)
    | inr miss ↦
        let rest = terminate_from-Judged (suc i) m j h.1 in
        rw miss (elim (Bool-cases (expired now timeout i s)) [
          | inl old ↦ rw old rest
          | inr young ↦ rw (young, miss) rest
        ])
  ]

register_streamer-Distinct :
    (sender now : ℕ) (manager : Manager)
    → Distinct manager.senders_sessions
    → Distinct (register_streamer sender now manager).0.senders_sessions
unfolding register_streamer
register_streamer-Distinct sender now manager h =
    let m = manager.senders_sessions in
    assign-Distinct session_id _ _ (elim (Bool-cases (contains session_id m)) [
      | inl e ↦ rw e (erase-Distinct session_id m h)
      | inr e ↦ rw e h
    ])

pub call-Distinct :
    (manager : Manager) (c : Call)
    → Distinct manager.senders_sessions
    → Distinct (call manager c).senders_sessions
unfolding call extract_streamer
call-Distinct manager (registers sender now) h = register_streamer-Distinct sender now manager h
call-Distinct manager (finds id) h = elim (Option-cases (find id manager.senders_sessions)) [
  | inl e ↦ rw (e, extract_streamer) h
  | inr (s, e) ↦ rw (e, extract_streamer) (erase-Distinct id manager.senders_sessions h)
]
call-Distinct manager (cleans now timeout) h =
    unfold terminate_timeout_clients in
    terminate_from-Distinct now timeout 0 manager.senders_sessions h
call-Distinct manager resets h = unfold reset in tt
call-Distinct manager starts_cleaner h = unfold init_cleaner_thread in h

call-Step :
    (manager : Manager) (c : Call)
    → Distinct manager.senders_sessions
    → Step (view manager) c (reply manager c) (view (call manager c))
unfolding call extract_streamer
call-Step manager (registers sender now) h =
    registered sender now _ (register_streamer_lem sender now manager)
call-Step manager (finds id) h = elim (Option-cases (find id manager.senders_sessions)) [
  | inl e ↦ rw (e, extract_streamer, reply) (missed id e)
  | inr (s, e) ↦
      rw (e, extract_streamer, reply) (found id s e (λ j. find-erase id j manager.senders_sessions))
]
call-Step manager (cleans now timeout) h =
    unfold terminate_timeout_clients in
    cleaned now timeout (λ j. terminate_from-Judged now timeout 0 manager.senders_sessions j h)
call-Step manager resets h = unfold reset find in emptied
call-Step manager starts_cleaner h = unfold init_cleaner_thread in watched

run-Trace_from :
    (manager : Manager) (cs : List Call)
    → Distinct manager.senders_sessions
    → Trace (view manager) (replies manager cs) (view (run manager cs))
unfolding run
run-Trace_from manager [] h = ended
run-Trace_from manager (c ∷ cs) h =
    next (call-Step manager c h) (run-Trace_from (call manager c) cs (call-Distinct manager c h))

-- Whatever calls reach the manager, they and their replies are a trace of the directory: a
-- registration puts the session under the id it returns, a search hands out the session of that id
-- and removes it, or answers that there is none, and a cleaning drops or keeps the session of each
-- id by its age at one of the readings of the clock.
pub run-Trace : (cs : List Call) → Trace empty (replies initial cs) (view (run initial cs))
unfolding find
run-Trace cs = run-Trace_from initial cs tt
