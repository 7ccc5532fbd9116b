-- ===== src/Session/Invariant.antt =====
-- Nobody reads the socket of a session that waits for a client or is bridged.
use screen_viewer.Prelude.{ℕ, ◌≤◌, ◌<◌, ◌≡◌, ◌≢◌, ◌∙◌, arith, none, Bytes, List, [], ◌∷◌, All}
use screen_viewer.Outcome.{Outcome, done, thrown, M, after, final}
use screen_viewer.Socket.{Socket}
use screen_viewer.SessionsManager.{TimedClientSession}
use screen_viewer.World.{Env, Callback, Bridged, World, update, with_socket}
use screen_viewer.Session.Frame.{Frame, Framed, pending_of}

module _ (env : Env) where
  open env use {transport as t}

  abbrev pub Quiet : World env → ℕ → Type 0
  Quiet w j = pending_of env w j ≡ none

  -- A session that may be handed over: it exists, and nothing reads its socket.
  abbrev pub Parked : World env → ℕ → Type 0
  Parked w j = (j < w.next_session) × Quiet w j

  abbrev pub AllRegistered : (ℕ → Type 0) → World env → Type 0
  AllRegistered P w =
      All (λ (x : Bytes × TimedClientSession). P x.1.client_session) w.manager.senders_sessions

  abbrev pub AllBridged : (ℕ → Type 0) → World env → Type 0
  AllBridged P w = All (λ (b : Bridged). P b.peer_one × P b.peer_two) w.bridges

  pub record Inv (w : World env) : Type 0 where
    pub registered : AllRegistered (Parked w) w
    pub bridged : AllBridged (Parked w) w
    pub unborn : (j : ℕ) → w.next_session ≤ j → Quiet w j

  -- Session `self` is neither registered nor bridged.
  pub record Free (w : World env) (self : ℕ) : Type 0 where
    pub not_registered : AllRegistered (λ j. j ≢ self) w
    pub not_bridged : AllBridged (λ j. j ≢ self) w

All-map {ℓ κ ι} :
    {A : Type ℓ} {P : A → Type κ} {Q : A → Type ι}
    → ((a : A) → P a → Q a)
    → (xs : List A) → All P xs
    → All Q xs
All-map f [] h = tt
All-map f (x ∷ xs) h = (f x h.0, All-map f xs h.1)

All-map₂ {ℓ κ ι υ} :
    {A : Type ℓ} {P : A → Type κ} {Q : A → Type ι} {R : A → Type υ}
    → ((a : A) → P a → Q a → R a)
    → (xs : List A) → All P xs
    → All Q xs
    → All R xs
All-map₂ f [] p q = tt
All-map₂ f (x ∷ xs) p q = (f x p.0 q.0, All-map₂ f xs p.1 q.1)

module _ (env : Env) where
  open env use {transport as t}

  -- The two parts of the invariant for any property of sessions.
  pub Parked-map :
      (P Q : ℕ → Type 0) (w : World env)
      → ((j : ℕ) → P j → Q j)
      → AllRegistered env P w
      → AllRegistered env Q w
  Parked-map P Q w f = All-map (λ x. f x.1.client_session) w.manager.senders_sessions

  pub Bridged-map :
      (P Q : ℕ → Type 0) (w : World env)
      → ((j : ℕ) → P j → Q j)
      → AllBridged env P w
      → AllBridged env Q w
  Bridged-map P Q w f = All-map (λ b h. (f b.peer_one h.0, f b.peer_two h.1)) w.bridges

  pub Frame-Parked :
      {w w' : World env} → Frame env w w' → (j : ℕ) → Parked env w j → Parked env w' j
  Frame-Parked f j (h, q) = (rw f.same_next h, f.same_pending j ∙ q)

  pub Frame-Inv : {w w' : World env} → Frame env w w' → Inv env w → Inv env w'
  Frame-Inv {w} {w'} f v = record {
    registered =
        rw f.same_manager
          (Parked-map (Parked env w) (Parked env w') w (Frame-Parked f) v.registered);
    bridged =
        rw f.same_bridges (Bridged-map (Parked env w) (Parked env w') w (Frame-Parked f) v.bridged);
    unborn = λ j h. f.same_pending j ∙ v.unborn j (rw f.same_next at h);
  }

  pub Frame-Free :
      {w w' : World env} {self : ℕ} → Frame env w w' → Free env w self → Free env w' self
  Frame-Free f h = record {
    not_registered = rw f.same_manager h.not_registered;
    not_bridged = rw f.same_bridges h.not_bridged;
  }

  -- A free session that exists may do as it likes with its own socket.
  pub socket-Inv :
      (w : World env) (self : ℕ) (s : Socket t Callback)
      → self < w.next_session
      → Free env w self
      → Inv env w
      → Inv env (record w { sockets = update w.sockets self s })
  socket-Inv w self s born free v =
      let keep = λ (j : ℕ) (p : Parked env w j) (n : j ≢ self). keep_Parked j p n in
      record {
        registered =
            All-map₂ (λ x. keep x.1.client_session) w.manager.senders_sessions v.registered
              free.not_registered;
        bridged =
            All-map₂ (λ b p n. (keep b.peer_one p.0 n.0, keep b.peer_two p.1 n.1)) w.bridges
              v.bridged free.not_bridged;
        unborn = λ j h. ground (arith, v.unborn j h);
      }
    where
      keep_Parked :
          (j : ℕ)
          → Parked env w j
          → j ≢ self
          → Parked env (record w { sockets = update w.sockets self s }) j
      keep_Parked j p n = ground arith

  pub record Safe {κ} {A : Type κ} (o : Outcome (World env) A) : Type 0 where
    pub safe : Inv env (final o)

  -- What holds while session `self` handles a message.
  pub record Ready (w : World env) (self : ℕ) : Type 0 where
    pub inv : Inv env w
    pub free : Free env w self
    pub born : self < w.next_session
    pub quiet : Quiet env w self

  pub Frame-Ready : {w w' : World env} {self : ℕ} → Frame env w w' → Ready w self → Ready w' self
  Frame-Ready {self} f r = record {
    inv = Frame-Inv f r.inv;
    free = Frame-Free f r.free;
    born = rw f.same_next r.born;
    quiet = f.same_pending self ∙ r.quiet;
  }

  pub frame-Safe {κ ι} :
      {A : Type κ} {B : Type ι} (w : World env) (o : Outcome (World env) A)
      (f : A → M (World env) B)
      → Framed env w o
      → Inv env w
      → ((a : A) (w' : World env) → Frame env w w' → Safe (f a w'))
      → Safe (after o f)
  frame-Safe w (done a w') f k v h = h a w' k.frame
  frame-Safe w (thrown e w') f k v h = record { safe = Frame-Inv k.frame v }

  pub after-Safe {κ ι} :
      {A : Type κ} {B : Type ι} (w : World env) (self : ℕ) (o : Outcome (World env) A)
      (f : A → M (World env) B)
      → Framed env w o
      → Ready w self
      → ((a : A) (w' : World env) → Ready w' self → Safe (f a w'))
      → Safe (after o f)
  after-Safe w self o f k r h = frame-Safe w o f k r.inv (λ a w' g. h a w' (Frame-Ready g r))

  pub Framed-Safe {κ} :
      {A : Type κ} (w : World env) (o : Outcome (World env) A) → Framed env w o → Inv env w → Safe o
  Framed-Safe w o k v = record { safe = Frame-Inv k.frame v }

  pub with_socket-Safe {κ} :
      {A : Type κ} (w : World env) (self : ℕ) (o : Outcome (Socket t Callback) A)
      → self < w.next_session
      → Free env w self
      → Inv env w
      → Safe (with_socket env self w o)
  with_socket-Safe w self (done a s) born free v = record { safe = socket-Inv w self s born free v }
  with_socket-Safe w self (thrown e s) born free v = record {
    safe = socket-Inv w self s born free v;
  }
