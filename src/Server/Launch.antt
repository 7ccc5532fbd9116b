-- ===== src/Server/Launch.antt =====
-- The servers' start: the constructor and `stop` of include/ScreenViewerSessionsServer.hpp, and `main` of
-- apps/ScreenViewerServer.cpp up to its event loops.
use screen_viewer.Prelude.{ℕ, ◌≡◌, ◌∙◌, ap, Bool, true, false, List, ◌∷◌, ◌++◌, Bytes, codes}
use screen_viewer.Outcome.{Exception, M, ◌>>=◌, ◌>>◌, give, on_throw}
use screen_viewer.Outcome.Ends.{Ends, returns, after-Ends, on_throw-Ends, map-Ends}
use screen_viewer.SessionsManager.{Manager, init_cleaner_thread}

-- `listen` is the acceptor's constructor, which binds the port. `close` is its destructor.
pub record Asio : Type 1 where
  pub State : Type 0
  pub listen : ℕ → M State (Unit {0})
  pub set_options : M State (Unit {0})
  pub use_certificate_chain_file : Bytes → M State (Unit {0})
  pub use_private_key_file : Bytes → M State (Unit {0})
  pub close : ℕ → State → State

-- A call does not touch what is listened to.
abbrev pub Silent : {S : Type 0} → (S → List ℕ) → M S (Unit {0}) → Type 0
Silent {S} ports m =
    (s : S)
    → Ends (λ (_ : Unit {0}) s'. ports s' ≡ ports s) (λ (_ : Exception) s'. ports s' ≡ ports s)
        (m s)

-- The ports that are listened to, the last one first.
pub record LawfulAsio (asio : Asio) : Type 0 where
  pub ports : asio.State → List ℕ
  pub listens :
      (port : ℕ) (s : asio.State)
      → Ends
          (λ (_ : Unit {0}) s'. ports s' ≡ port ∷ ports s)
          (λ (_ : Exception) s'. ports s' ≡ ports s)
          (asio.listen port s)
  pub options_silent : Silent ports asio.set_options
  pub certificate_silent : (file : Bytes) → Silent ports (asio.use_certificate_chain_file file)
  pub key_silent : (file : Bytes) → Silent ports (asio.use_private_key_file file)
  pub closes :
      (port : ℕ) (others : List ℕ) (s : asio.State)
      → ports s ≡ port ∷ others
      → ports (asio.close port s) ≡ others

pub record Server : Type 0 where
  pub port : ℕ
  -- An `async_accept` is under way.
  pub accepting : Bool
  pub stopped : Bool

abbrev pub sessions_server_port : ℕ
sessions_server_port = 4321

abbrev pub proxy_server_port : ℕ
proxy_server_port = 44321

pub stop : Server → Server
stop server = record server { stopped = true }

module _ (asio : Asio) where
  prepare_context : Bytes → M asio.State (Unit {0})
  prepare_context key_cert_dir = do
    asio.set_options
    asio.use_certificate_chain_file (key_cert_dir ++ codes "/cert.pem")
    asio.use_private_key_file (key_cert_dir ++ codes "/key.pem")

  prepared : ℕ → Bytes → M asio.State Server
  prepared port key_cert_dir = do
    prepare_context key_cert_dir
    give (record { port = port; accepting = true; stopped = false })

  unfoldable pub new_server : ℕ → Bytes → M asio.State Server
  unfolding prepared prepare_context
  new_server port key_cert_dir = do
    asio.listen port
    on_throw (prepared port key_cert_dir) (asio.close port)

  -- Both servers, and the manager with its cleaner thread. `main` catches nothing: an exception ends the
  -- process, and with it what is listened to, whether or not the destructors run.
  beside_sessions : Bytes → Manager → Server → M asio.State (Server × Server × Manager)
  beside_sessions key_cert_dir manager sessions_server = do
    proxy_server ← new_server proxy_server_port key_cert_dir
    give (sessions_server, proxy_server, init_cleaner_thread manager)

  unfoldable pub launch : Bytes → Manager → M asio.State (Server × Server × Manager)
  unfolding beside_sessions new_server
  launch key_cert_dir manager = do
    sessions_server ← new_server sessions_server_port key_cert_dir
    on_throw (beside_sessions key_cert_dir manager sessions_server)
        (asio.close sessions_server_port)

module _ (asio : Asio) (law : LawfulAsio asio) where
  open law use {ports}

  -- One call after another.
  Silent-then :
      (m n : M asio.State (Unit {0})) → Silent ports m → Silent ports n → Silent ports (do m; n)
  Silent-then m n p q s =
      after-Ends (m s) (λ _. n)
        (map-Ends (m s) (λ _ s1 e. map-Ends (n s1) (λ _ s2 h. h ∙ e) (λ _ s2 h. h ∙ e) (q s1))
          (λ _ s1 e. e) (p s))

  prepare_context-Silent : (key_cert_dir : Bytes) → Silent ports (prepare_context asio key_cert_dir)
  unfolding prepare_context
  prepare_context-Silent key_cert_dir = Silent-then asio.set_options _ law.options_silent (
      Silent-then (asio.use_certificate_chain_file (key_cert_dir ++ codes "/cert.pem")) _
        (law.certificate_silent _) (law.key_silent _))

  new_server-Ends :
      (port : ℕ) (key_cert_dir : Bytes) (others : List ℕ) (s : asio.State)
      → ports s ≡ others
      → Ends
          (λ (_ : Server) s'. ports s' ≡ port ∷ others)
          (λ _ s'. ports s' ≡ others)
          (new_server asio port key_cert_dir s)
  unfolding new_server prepared
  new_server-Ends port key_cert_dir others s e = after-Ends (asio.listen port s) _ (
      map-Ends (asio.listen port s)
        (λ _ s1 h. on_throw-Ends (prepared asio port key_cert_dir) (asio.close port) s1 (
          after-Ends (prepare_context asio key_cert_dir s1) _ (
            map-Ends (prepare_context asio key_cert_dir s1)
              (λ _ s2 k. returns (k ∙ h ∙ ap (λ l. port ∷ l) e))
              (λ _ s2 k. law.closes port others s2 (k ∙ h ∙ ap (λ l. port ∷ l) e))
              (prepare_context-Silent key_cert_dir s1))))
        (λ _ s1 h. h ∙ e) (law.listens port s))

  -- If the two servers can be constructed, both ports are listened to when the event loops start; and
  -- if one cannot, for a port that is taken or a file that is missing, the exception leaves neither
  -- port listened to.
  pub launch-Ends :
      (key_cert_dir : Bytes) (manager : Manager) (others : List ℕ) (s : asio.State)
      → ports s ≡ others
      → Ends
          (λ (_ : Server × Server × Manager) s'. ports s' ≡ 44321 ∷ 4321 ∷ others)
          (λ _ s'. ports s' ≡ others)
          (launch asio key_cert_dir manager s)
  unfolding launch beside_sessions
  launch-Ends key_cert_dir manager others s e = after-Ends (new_server asio 4321 key_cert_dir s) _ (
      map-Ends (new_server asio 4321 key_cert_dir s)
        (λ sessions_server s1 h.
          on_throw-Ends (beside_sessions asio key_cert_dir manager sessions_server)
            (asio.close 4321) s1
            (after-Ends (new_server asio 44321 key_cert_dir s1) _ (
              map-Ends (new_server asio 44321 key_cert_dir s1) (λ _ s2 k. returns k)
                (λ _ s2 k. law.closes 4321 others s2 k)
                (new_server-Ends 44321 key_cert_dir (4321 ∷ others) s1 h))))
        (λ _ s1 h. h) (new_server-Ends 4321 key_cert_dir others s e))
