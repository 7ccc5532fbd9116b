-- ===== src/SessionsManager/Order.antt =====
-- The map is unordered: what the manager answers does not depend on how its entries lie.
use screen_viewer.Prelude.{
  ℕ, ◌-◌, ◌*◌, ◌≡◌, refl, sym, ap, ◌∙◌, arith, ltb, if◌then◌else◌, Bool, true, false, List, [], ◌∷◌,
  Option, Option-cases, none, some, inl, inr, Bytes, same_bytes, same_bytes_iff, All,
}
use mathlib.Core.Quot
use mathlib.Core.Quot.{Quot, Quot-set}
use screen_viewer.SessionsManager.{
  TimedClientSession, Manager, find, session_id, register_streamer, extract_streamer,
  terminate_timeout_clients, reset, init_cleaner_thread, nanoseconds_per_second,
}
use screen_viewer.SessionsManager.Timeouts.{Distinct}
use screen_viewer.SessionsManager.Registry.{
  Call, registers, finds, cleans, resets, starts_cleaner, call, run, find-erase,
  register_streamer_lem,
}
use screen_viewer.SessionsManager.Refinement.{
  Reply, handed_out, not_found, reply, replies, unless_expired, Judged, absent, judged,
  terminate_from-Judged, call-Distinct,
}

-- The same session under each id.
abbrev pub SameView : Manager → Manager → Type 0
SameView a b = (j : Bytes) → find j a.senders_sessions ≡ find j b.senders_sessions

-- The clock stands still while the cleaner goes through the map.
abbrev pub Steady : Call → Type 0
Steady (cleans now timeout) = (i : ℕ) → now i ≡ now 0
Steady _ = Unit {0}

abbrev kept_at : (ℕ → ℕ) → ℕ → Option TimedClientSession → Option TimedClientSession
kept_at now timeout none = none
kept_at now timeout (some s) = unless_expired now timeout 0 s

Judged-kept_at :
    (now : ℕ → ℕ) (timeout : ℕ) (before after : Option TimedClientSession)
    → ((i : ℕ) → now i ≡ now 0)
    → Judged now timeout before after
    → after ≡ kept_at now timeout before
Judged-kept_at now timeout before after steady (absent was is) =
    is ∙ sym (ap (kept_at now timeout) was)
Judged-kept_at now timeout before after steady (judged i s was is) =
    is
    ∙ ap (λ k. if ltb (timeout * nanoseconds_per_second) (k - s.time_point) then none else some s)
        (steady i)
    ∙ sym (ap (kept_at now timeout) was)

abbrev found : Option TimedClientSession → Reply
found none = not_found
found (some s) = handed_out s.client_session

-- What a search leaves and answers, from the view alone.
find-taken :
    (id j : Bytes) (a : Manager)
    → find j (call a (finds id)).senders_sessions
      ≡ (if same_bytes id j then none else find j a.senders_sessions)
unfolding call extract_streamer
find-taken id j a = elim (Option-cases (find id a.senders_sessions)) [
  | inl e ↦ rw (e, extract_streamer) (ground (arith, same_bytes_iff id j))
  | inr (s, e) ↦ rw (e, extract_streamer) (find-erase id j a.senders_sessions)
]

reply-found : (id : Bytes) (a : Manager) → reply a (finds id) ≡ found (find id a.senders_sessions)
unfolding extract_streamer
reply-found id a = elim (Option-cases (find id a.senders_sessions)) [
  | inl e ↦ rw (e, extract_streamer, reply) refl
  | inr (s, e) ↦ rw (e, extract_streamer, reply) refl
]

find-terminated :
    (now : ℕ → ℕ) (timeout : ℕ) (a : Manager) (j : Bytes)
    → Distinct a.senders_sessions
    → ((i : ℕ) → now i ≡ now 0)
    → find j (call a (cleans now timeout)).senders_sessions
      ≡ kept_at now timeout (find j a.senders_sessions)
unfolding call terminate_timeout_clients
find-terminated now timeout a j d steady =
    Judged-kept_at now timeout _ _ steady
      (terminate_from-Judged now timeout 0 a.senders_sessions j d)

call-SameView :
    (a b : Manager) (c : Call)
    → Distinct a.senders_sessions
    → Distinct b.senders_sessions
    → Steady c
    → SameView a b
    → SameView (call a c) (call b c) × (reply a c ≡ reply b c)
unfolding call register_streamer
call-SameView a b (registers sender now) da db steady same = (
  λ j.
      register_streamer_lem sender now a j
      ∙ ap
          (λ o.
            if same_bytes session_id j
            then some (record { client_session = sender; time_point = now })
            else o)
          (same j)
      ∙ sym (register_streamer_lem sender now b j),
  refl,
)
call-SameView a b (finds id) da db steady same = (
  λ j.
      find-taken id j a
      ∙ ap (λ o. if same_bytes id j then none else o) (same j)
      ∙ sym (find-taken id j b),
  reply-found id a ∙ ap found (same id) ∙ sym (reply-found id b),
)
call-SameView a b (cleans now timeout) da db steady same = (
  λ j.
      find-terminated now timeout a j da steady
      ∙ ap (kept_at now timeout) (same j)
      ∙ sym (find-terminated now timeout b j db steady),
  refl,
)
call-SameView a b resets da db steady same = unfold reset in ((λ j. refl), refl)
call-SameView a b starts_cleaner da db steady same = unfold init_cleaner_thread in (same, refl)

-- The order of the map never shows: two managers that find the same session under each id, without an id
-- twice, give the same replies to any calls in whose cleanings the clock stands still, and find
-- the same sessions after them.
pub replies-SameView :
    (a b : Manager) (cs : List Call)
    → Distinct a.senders_sessions
    → Distinct b.senders_sessions
    → All Steady cs
    → SameView a b
    → (replies a cs ≡ replies b cs) × SameView (run a cs) (run b cs)
unfolding run
replies-SameView a b [] da db steady same = (refl, same)
replies-SameView a b (c ∷ cs) da db steady same =
    let (views, answer) = call-SameView a b c da db steady.0 same in
    let (rest, ends) =
      replies-SameView (call a c) (call b c) cs (call-Distinct a c da) (call-Distinct b c db)
        steady.1 views in
    (ap (λ r. (c, r) ∷ replies (call a c) cs) answer ∙ ap (λ l. (c, reply b c) ∷ l) rest, ends)

-- So the managers may be taken up to their order, and calls work on what is left.
abbrev pub Valid : Type 0
Valid = (manager : Manager) × Distinct manager.senders_sessions

abbrev pub Directories : Type 0
Directories = Quot (λ (a b : Valid). SameView a.0 b.0)

pub call_unordered : (c : Call) → Steady c → Directories → Directories
call_unordered c steady =
    Quot.lift Quot-set (λ v. Quot.mk (call v.0 c, call-Distinct v.0 c v.1))
      (λ v w same. Quot.sound (call-SameView v.0 w.0 c v.1 w.1 steady same).0)

none_comm :
    (b c : Bool) (o : Option TimedClientSession)
    → (if b then none else (if c then none else o)) ≡ (if c then none else (if b then none else o))
none_comm true true o = refl
none_comm true false o = refl
none_comm false true o = refl
none_comm false false o = refl

-- Two clients that search for streamers leave the same registry in either order.
pub finds_comm :
    (i j : Bytes) (d : Directories)
    → call_unordered (finds i) tt (call_unordered (finds j) tt d)
      ≡ call_unordered (finds j) tt (call_unordered (finds i) tt d)
unfolding call_unordered
finds_comm i j =
    Quot.ind (λ d. Quot-set _ _)
      (λ v. Quot.sound (λ k.
        find-taken i k (call v.0 (finds j))
        ∙ ap (λ o. if same_bytes i k then none else o) (find-taken j k v.0)
        ∙ none_comm (same_bytes i k) (same_bytes j k) (find k v.0.senders_sessions)
        ∙ ap (λ o. if same_bytes j k then none else o) (sym (find-taken i k v.0))
        ∙ sym (find-taken j k (call v.0 (finds i)))))
