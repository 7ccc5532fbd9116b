-- ===== src/Bridge.antt =====
-- include/Bridge.hpp: two peers whose bytes are passed on in both directions, each through a buffer of
-- its own. `upstream` is from peer two to peer one. What an `async_read` delivered, or its error,
-- is the argument of the completion handler.
pub mod Relay
pub mod Closing
use screen_viewer.Prelude.{
  ℕ, ◌≤◌, Bool, true, false, if◌then◌else◌, List, [], ◌∷◌, ◌++◌, Bytes, length, take, drop,
  replicate,
}
use screen_viewer.Outcome.{Exception, Outcome, done, thrown, M, after, ◌>>=◌, ◌>>◌, give, final}
use screen_viewer.Transport.{Transport}

pub max_data_length : ℕ
max_data_length = 1000000

pub record Bridge (t : Transport) : Type 0 where
  pub peer_one : t.Stream
  pub peer_two : t.Stream
  pub server_buffer : Bytes
  pub client_buffer : Bytes
  -- Whether a read of peer two, or of peer one, is outstanding.
  pub reads_upstream : Bool
  pub reads_downstream : Bool

-- The result of an `async_read`.
pub data Transferred : Type 0 where
  received : Bytes → Transferred
  failed : Transferred

module _ (t : Transport) where
  pub make_bridge : t.Stream → t.Stream → Bridge t
  make_bridge peer_one peer_two = record {
    peer_one = peer_one;
    peer_two = peer_two;
    server_buffer = replicate max_data_length 0;
    client_buffer = replicate max_data_length 0;
    reads_upstream = false;
    reads_downstream = false;
  }

  pub start : Bridge t → Bridge t
  start b = record b { reads_upstream = true; reads_downstream = true }

  abbrev with_peer_one {κ} : {A : Type κ} → Bridge t → Outcome t.Stream A → Outcome (Bridge t) A
  with_peer_one b (done a x) = done a (record b { peer_one = x })
  with_peer_one b (thrown e x) = thrown e (record b { peer_one = x })

  abbrev with_peer_two {κ} : {A : Type κ} → Bridge t → Outcome t.Stream A → Outcome (Bridge t) A
  with_peer_two b (done a x) = done a (record b { peer_two = x })
  with_peer_two b (thrown e x) = thrown e (record b { peer_two = x })

  abbrev on_peer_one {κ} : {A : Type κ} → M t.Stream A → M (Bridge t) A
  on_peer_one m b = with_peer_one b (m b.peer_one)

  abbrev on_peer_two {κ} : {A : Type κ} → M t.Stream A → M (Bridge t) A
  on_peer_two m b = with_peer_two b (m b.peer_two)

  -- The two `if`s of `close`; the second shuts peer one down, as the code does.
  close_one : Bool → M (Bridge t) (Unit {0})
  close_one true = do on_peer_one t.shutdown; on_peer_one t.close
  close_one false = give tt

  close_two : Bool → M (Bridge t) (Unit {0})
  close_two true = do on_peer_one t.shutdown; on_peer_two t.close
  close_two false = give tt

  pub close : M (Bridge t) (Unit {0})
  unfolding close_one close_two
  close = do (λ b. close_one (t.is_open b.peer_one) b); (λ b. close_two (t.is_open b.peer_two) b)

  -- `handle_downstream_write` and `handle_upstream_write`: the first argument is the peer after the
  -- write, with the error code that the write has set.
  handle_downstream_write : Bridge t → Outcome t.Stream (Unit {0}) → Outcome (Bridge t) (Unit {0})
  handle_downstream_write b (done _ x) = done tt (record b { peer_one = x; reads_upstream = true })
  handle_downstream_write b (thrown ec x) = close (record b { peer_one = x })

  handle_upstream_write : Bridge t → Outcome t.Stream (Unit {0}) → Outcome (Bridge t) (Unit {0})
  handle_upstream_write b (done _ x) = done tt (record b { peer_two = x; reads_downstream = true })
  handle_upstream_write b (thrown ec x) = close (record b { peer_two = x })

  pub handle_upstream_read : Transferred → M (Bridge t) (Unit {0})
  unfolding handle_downstream_write
  handle_upstream_read (received bytes) b =
      let filled = bytes ++ drop (length bytes) b.client_buffer in
      handle_downstream_write (record b { client_buffer = filled; reads_upstream = false })
        (t.write (take (length bytes) filled) b.peer_one)
  handle_upstream_read failed b = close (record b { reads_upstream = false })

  pub handle_downstream_read : Transferred → M (Bridge t) (Unit {0})
  unfolding handle_upstream_write
  handle_downstream_read (received bytes) b =
      let filled = bytes ++ drop (length bytes) b.server_buffer in
      handle_upstream_write (record b { server_buffer = filled; reads_downstream = false })
        (t.write (take (length bytes) filled) b.peer_two)
  handle_downstream_read failed b = close (record b { reads_downstream = false })
