-- ===== src/ClientSocket/Connect.antt =====
-- The constructor of src/ClientSocket.cpp, with `connect` and `verify_certificate`.
use screen_viewer.Prelude.{ℕ, if◌then◌else◌, Bool, true, false, List, [], ◌∷◌, Bytes}
use screen_viewer.Message.{Checked}
use screen_viewer.Outcome.{
  Exception, endpoint_not_found, Outcome, done, thrown, M, ◌>>=◌, ◌>>◌, throw, or_throw,
}
use screen_viewer.Transport.{Transport}
use screen_viewer.Socket.{Socket, new_socket, on_stream}
use screen_viewer.ClientSocket.Thread.{Worker, Connection, start, checks}

-- What the name service and the TCP layer do for a client: `resolver.resolve`, `connect` of the lowest
-- layer, and the client's side of the TLS handshake, which asks `verify` about the peer's certificate.
pub record Network (t : Transport) : Type 1 where
  pub Endpoint : Type 0
  pub resolve : Bytes → ℕ → Checked Exception (List Endpoint)
  pub connect : Endpoint → M t.Stream (Unit {0})
  pub client_handshake : (Bool → Bool) → M t.Stream (Unit {0})

-- The certificate's name is only logged.
unfoldable pub verify_certificate : Bool → Bool
verify_certificate preverified = preverified

-- The verify callback that the constructor installs.
unfoldable pub verify_callback : Bool → Bool → Bool
unfolding verify_certificate
verify_callback verify_cert preverified =
    if verify_cert then verify_certificate preverified else true

-- The `std::jthread` before `start`.
abbrev pub no_thread : Worker
no_thread = record {
  position = checks;
  stop_requested = false;
  stopped = false;
  joinable = false;
  id = 0;
}

module _ (t : Transport) (network : Network t) {H : Type 0} where
  connect_first : Bool → Bytes → ℕ → List network.Endpoint → M (Socket t H) (Unit {0})
  connect_first verify_cert host port [] = throw (endpoint_not_found host port)
  connect_first verify_cert host port (endpoint ∷ endpoints) = do
    on_stream t (network.connect endpoint)
    on_stream t (network.client_handshake (verify_callback verify_cert))

  unfoldable pub connect : Bool → Bytes → ℕ → M (Socket t H) (Unit {0})
  unfolding connect_first
  connect verify_cert host port = do
    endpoints ← or_throw (λ (e : Exception). e) (network.resolve host port)
    connect_first verify_cert host port endpoints

  started : ℕ → Outcome (Socket t H) (Unit {0}) → Outcome (Connection t H) (Unit {0})
  started id (done a s) = done a (record { socket = s; worker = start id no_thread })
  started id (thrown e s) = thrown e (record { socket = s; worker = no_thread })

  -- The whole constructor on a fresh stream: the thread, which gets the id `id`, starts once the connection
  -- stands.
  unfoldable pub new_client_socket :
      Bool → Bytes → ℕ → ℕ → t.Stream → Outcome (Connection t H) (Unit {0})
  unfolding connect started
  new_client_socket verify_cert host port id stream =
      started id (connect verify_cert host port (new_socket t stream))
