-- ===== src/SessionsManager.antt =====
-- include/ServerSessionsManager.hpp and src/ServerSessionsManager.cpp: the streamers that wait for a
-- client, by session id. A session is named by a number (its `shared_ptr`); times are nanoseconds.
-- The mutex makes each operation one step.
pub mod Registry
pub mod Timeouts
pub mod Ids
pub mod Entries
pub mod Refinement
pub mod Order
use screen_viewer.Prelude.{
  ℕ, zero, suc, ◌-◌, ◌*◌, ◌<◌, ltb, if◌then◌else◌, Bool, true, false, List, [], ◌∷◌, Option, none,
  some, Bytes, String, codes, length, same_bytes, get_or, ◌++◌,
}

pub record TimedClientSession : Type 0 where
  pub client_session : ℕ
  pub time_point : ℕ

-- `std::unordered_map<std::string, TimedClientSession>`.
abbrev pub SendersSessions : Type 0
SendersSessions = List (Bytes × TimedClientSession)

unfoldable pub find : Bytes → SendersSessions → Option TimedClientSession
find id [] = none
find id ((k, s) ∷ m) = if same_bytes k id then some s else find id m

unfoldable pub contains : Bytes → SendersSessions → Bool
contains id m = elim (find id m) [ none ↦ false | some s ↦ true ]

pub erase : Bytes → SendersSessions → SendersSessions
erase id [] = []
erase id ((k, s) ∷ m) = let rest = erase id m in if same_bytes k id then rest else (k, s) ∷ rest

-- `senders_sessions[id] = s`.
pub assign : Bytes → TimedClientSession → SendersSessions → SendersSessions
assign id s [] = (id, s) ∷ []
assign id s ((k, old) ∷ m) =
    let rest = assign id s m in if same_bytes k id then (k, s) ∷ m else (k, old) ∷ rest

pub record Manager : Type 0 where
  pub senders_sessions : SendersSessions
  pub connections_controller : Bool

abbrev pub session_id : Bytes
session_id = codes "test"

-- The new state and the id; `now` is the clock when the entry is made.
unfoldable pub register_streamer : ℕ → ℕ → Manager → Manager × Bytes
unfolding contains erase assign
register_streamer sender now manager =
    let m = manager.senders_sessions in
    let cleared = if contains session_id m then erase session_id m else m in
    (
      record manager {
        senders_sessions =
            assign session_id (record { client_session = sender; time_point = now }) cleared;
      },
      session_id,
    )

-- The first half of `createBridgeWithStreamer`, under the lock: `contains` and `extract`.
unfoldable pub extract_streamer : Bytes → Manager → Option (TimedClientSession × Manager)
unfolding find erase
extract_streamer session_code manager = elim (find session_code manager.senders_sessions) [
  | none ↦ none
  | some s ↦
      some (s, record manager { senders_sessions = erase session_code manager.senders_sessions })
]

abbrev pub nanoseconds_per_second : ℕ
nanoseconds_per_second = 1000000000

-- The loop of `terminateTimeoutClients`, which reads the clock once for each entry: `now i` is the
-- i-th reading. An entry from the future has age 0 here and a negative age there: it stays.
pub terminate_from : (ℕ → ℕ) → ℕ → ℕ → SendersSessions → SendersSessions
terminate_from now client_timeout i [] = []
terminate_from now client_timeout i ((k, s) ∷ m) =
    let rest = terminate_from now client_timeout (suc i) m in
    if ltb (client_timeout * nanoseconds_per_second) (now i - s.time_point)
    then rest
    else (k, s) ∷ rest

unfoldable pub terminate_timeout_clients : (ℕ → ℕ) → ℕ → Manager → Manager
unfolding terminate_from
terminate_timeout_clients now client_timeout manager = record manager {
  senders_sessions = terminate_from now client_timeout 0 manager.senders_sessions;
}

-- The jthread's loop is not modelled: it calls `terminate_timeout_clients` until it is stopped.
unfoldable pub init_cleaner_thread : Manager → Manager
init_cleaner_thread manager = record manager { connections_controller = true }

pub current_sessions : Manager → ℕ
current_sessions manager = length manager.senders_sessions

unfoldable pub reset : Manager → Manager
reset manager = record manager { senders_sessions = []; connections_controller = false }

abbrev pub session_id_length : ℕ
session_id_length = 10

abbrev pub chrs : Bytes
chrs = codes "080886789abcdefghijklmnopqrstuvwxyzABCDEFGHIJKLMNOPQRSTUVWXYZ"

-- The string literal as an array, with the terminator behind it; `pick i` is the i-th draw.
generate_from : (ℕ → ℕ) → ℕ → Bytes → Bytes
generate_from pick zero random_str = random_str
generate_from pick (suc left) random_str =
    generate_from pick left
      (random_str ++ get_or (chrs ++ 0 ∷ []) (pick (length random_str)) 0 ∷ [])

pub generate_session_id : (ℕ → ℕ) → Bytes
unfolding generate_from
generate_session_id pick = generate_from pick session_id_length []
