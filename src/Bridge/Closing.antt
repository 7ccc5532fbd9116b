-- ===== src/Bridge/Closing.antt =====
-- What `close` closes.
use screen_viewer.Prelude.{◌≡◌, refl, true, false, Bool-cases, inl, inr}
use screen_viewer.Outcome.{Exception, Outcome, done, thrown, after}
use screen_viewer.Transport.{Transport, Lawful}
use screen_viewer.Bridge.{Bridge, close, close_one, close_two, on_peer_one, with_peer_one}

module _ (t : Transport) (law : Lawful t) where
  -- The call throws, and peer two is as it was.
  abbrev pub LeavesTwo : Bridge t → Outcome (Bridge t) (Unit {0}) → Type 0
  LeavesTwo b o = (e : Exception) × (b' : Bridge t) × (o ≡ thrown e b') × (b'.peer_two ≡ b.peer_two)

  close_two-LeavesTwo :
      (b : Bridge t) → t.is_open b.peer_one ≡ false → LeavesTwo b (close_two t true b)
  unfolding close_two
  close_two-LeavesTwo b shut =
      let (e, threw) = law.shutdown_closed b.peer_one shut in (e, b, rw threw, refl)

  closed_one :
      (b : Bridge t) (o : Outcome t.Stream (Unit {0}))
      → t.is_open b.peer_two ≡ true
      → ((x : t.Stream) → o ≡ done tt x → t.is_open x ≡ false)
      → LeavesTwo b (after (with_peer_one t b o) (λ _ b'. close_two t (t.is_open b'.peer_two) b'))
  closed_one b (done tt x) two shut =
      rw two (close_two-LeavesTwo (record b { peer_one = x }) (shut x refl))
  closed_one b (thrown e x) two shut = (e, record b { peer_one = x }, refl, refl)

  shut_one :
      (b : Bridge t) (o : Outcome t.Stream (Unit {0}))
      → t.is_open b.peer_two ≡ true
      → LeavesTwo b (
          after
            (after (with_peer_one t b o) (λ _. on_peer_one t t.close))
            (λ _ b'. close_two t (t.is_open b'.peer_two) b'))
  shut_one b (done tt x) two =
      closed_one (record b { peer_one = x }) (t.close x) two (λ y e. law.close_done x y e)
  shut_one b (thrown e x) two = (e, record b { peer_one = x }, refl, refl)

  -- While peer two is open, `close` never closes it: whatever the state of peer one, the call
  -- throws, since it shuts down peer one once more where it means peer two.
  pub close_never_closes_two :
      (b : Bridge t)
      → t.is_open b.peer_two ≡ true
      → (e : Exception) × (b' : Bridge t) × (close t b ≡ thrown e b') × (b'.peer_two ≡ b.peer_two)
  unfolding close close_one
  close_never_closes_two b two = elim (Bool-cases (t.is_open b.peer_one)) [
    | inl one ↦ rw one (shut_one b (t.shutdown b.peer_one) two)
    | inr one ↦ rw (one, two) (close_two-LeavesTwo b one)
  ]
