-- ===== src/Transport.antt =====
-- Boost.Asio, as far as the sockets use it: blocking `write` and `read(transfer_exactly)` on a TLS
-- stream over a TCP socket, the server's `handshake`, `shutdown`, `close` and `is_open` of the lowest layer, `remote_endpoint`, and the texts
-- of exceptions (fmt, `what()`).
use screen_viewer.Prelude.{
  ℕ, ◌≤◌, ◌≡◌, ◌++◌, Bool, true, false, Bytes, length, take, drop, length-append, take-append_eq,
  drop-append_eq, ◌∙◌, arith,
}
use screen_viewer.Message.{Checked}
use screen_viewer.Outcome.{Exception, done, thrown, M}

pub record Transport : Type 1 where
  pub Stream : Type 0
  pub write : Bytes → M Stream (Unit {0})
  pub read : ℕ → M Stream Bytes
  pub handshake : M Stream (Unit {0})
  pub shutdown : M Stream (Unit {0})
  pub close : M Stream (Unit {0})
  pub is_open : Stream → Bool
  pub remote_endpoint : Stream → Checked Exception Bytes
  pub what : Exception → Bytes

-- The documented behaviour that the theorems rely on: a stream delivers bytes in order, a read of n
-- bytes returns the next n once they have arrived, and a closed socket refuses `shutdown`.
-- A call may fail otherwise whenever it likes.
pub record Lawful (t : Transport) : Type 0 where
  -- The bytes that have arrived and are not read yet, and all that were written.
  pub incoming : t.Stream → Bytes
  pub outgoing : t.Stream → Bytes
  pub write_done :
      (bytes : Bytes) (s s' : t.Stream)
      → t.write bytes s ≡ done tt s'
      → (outgoing s' ≡ outgoing s ++ bytes) × (incoming s' ≡ incoming s)
  pub read_arrived :
      (n : ℕ) (s : t.Stream)
      → t.is_open s ≡ true
      → n ≤ length (incoming s)
      → (s' : t.Stream) × (t.read n s ≡ done (take n (incoming s)) s')
        × (incoming s' ≡ drop n (incoming s))
        × (outgoing s' ≡ outgoing s)
        × (t.is_open s' ≡ true)
  pub read_length :
      (n : ℕ) (bytes : Bytes) (s s' : t.Stream) → t.read n s ≡ done bytes s' → length bytes ≡ n
  pub shutdown_closed :
      (s : t.Stream) → t.is_open s ≡ false → (e : Exception) × (t.shutdown s ≡ thrown e s)
  pub shutdown_is_open : (s s' : t.Stream) → t.shutdown s ≡ done tt s' → t.is_open s' ≡ t.is_open s
  pub close_done : (s s' : t.Stream) → t.close s ≡ done tt s' → t.is_open s' ≡ false

module _ (t : Transport) (law : Lawful t) where
  open law use {incoming, outgoing, read_arrived}

  -- A read of exactly the bytes in front, which writes nothing.
  pub read_stream_only :
      (front rest : Bytes) (n : ℕ) (x : t.Stream)
      → length front ≡ n
      → t.is_open x ≡ true
      → incoming x ≡ front ++ rest
      → (x' : t.Stream) × (t.read n x ≡ done front x')
        × (t.is_open x' ≡ true)
        × (incoming x' ≡ rest)
        × (outgoing x' ≡ outgoing x)
  read_stream_only front rest n x e live arrived =
      let (x', got, left, silent, still) =
        read_arrived n x live (rw arrived (omega (arith, length-append front rest))) in
      let same : take n (incoming x) ≡ front = rw arrived (take-append_eq n front rest e) in
      let tail : drop n (incoming x) ≡ rest = rw arrived (drop-append_eq n front rest e) in
      (x', rw (got, same), still, left ∙ tail, silent)

  pub read_stream :
      (front rest : Bytes) (n : ℕ) (x : t.Stream)
      → length front ≡ n
      → t.is_open x ≡ true
      → incoming x ≡ front ++ rest
      → (x' : t.Stream) × (t.read n x ≡ done front x')
        × (t.is_open x' ≡ true)
        × (incoming x' ≡ rest)
  read_stream front rest n x e live arrived =
      let (x', got, still, left, _) = read_stream_only front rest n x e live arrived in
      (x', got, still, left)
