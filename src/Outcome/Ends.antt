-- ===== src/Outcome/Ends.antt =====
-- How calls end: what holds where they return, and what where they throw.
use screen_viewer.Prelude.{◌≡◌, refl, Bool, true, false, Option, none, some}
use screen_viewer.Outcome.{
  Exception, Outcome, done, thrown, M, after, ◌>>=◌, ◌>>◌, obtained, obtain, present, demanded,
  demand, require, cleaned, on_throw, beside_first, beside_second, on_first, on_second,
}

-- How a call ends: `P` where it returns, `Q` where it throws.
pub data Ends {S A : Type 0} (P : A → S → Type 0) (Q : Exception → S → Type 0)
    : Outcome S A → Type 0 where
  returns : {a : A} {s : S} → P a s → Ends P Q (done a s)
  throws : {e : Exception} {s : S} → Q e s → Ends P Q (thrown e s)

module _ {S : Type 0} {A : Type 0} {P : A → S → Type 0} {Q : Exception → S → Type 0} where
  pub after-Ends :
      {B : Type 0} (o : Outcome S B) (f : B → M S A)
      → Ends (λ b s. Ends P Q (f b s)) Q o
      → Ends P Q (after o f)
  after-Ends (done b s) f (returns h) = h
  after-Ends (thrown e s) f (throws h) = throws h

  obtained-Ends :
      {B : Type 0} (r : Option B × S) (e : Exception) (f : B → M S A)
      → ((b : B) → r.0 ≡ some b → Ends P Q (f b r.1))
      → (r.0 ≡ none → Q e r.1)
      → Ends P Q (after (obtained e r) f)
  obtained-Ends (none, s) e f h k = throws (k refl)
  obtained-Ends (some b, s) e f h k = h b refl

  -- A call that may return null, and what follows.
  pub obtain-Ends :
      {B : Type 0} (call : S → Option B × S) (e : Exception) (f : B → M S A) (s : S)
      → ((b : B) → (call s).0 ≡ some b → Ends P Q (f b (call s).1))
      → ((call s).0 ≡ none → Q e (call s).1)
      → Ends P Q ((obtain call e >>= f) s)
  obtain-Ends call e f s h k = obtained-Ends (call s) e f h k

  pub present-Ends :
      {B : Type 0} (o : Option B) (e : Exception) (f : B → M S A) (s : S)
      → ((b : B) → o ≡ some b → Ends P Q (f b s))
      → (o ≡ none → Q e s)
      → Ends P Q ((present o e >>= f) s)
  present-Ends o e f s h k = obtained-Ends (o, s) e f h k

  demanded-Ends :
      (r : Bool × S) (e : Exception) (f : M S A)
      → Ends P Q (f r.1)
      → Q e r.1
      → Ends P Q (after (demanded e r) (λ _. f))
  demanded-Ends (true, s) e f h k = h
  demanded-Ends (false, s) e f h k = throws k

  -- A call that may fail, and what follows.
  pub demand-Ends :
      (call : S → Bool × S) (e : Exception) (f : M S A) (s : S)
      → Ends P Q (f (call s).1)
      → Q e (call s).1
      → Ends P Q ((demand call e >> f) s)
  demand-Ends call e f s h k = demanded-Ends (call s) e f h k

  -- A condition, and what follows.
  pub require-Ends :
      (b : Bool) (e : Exception) (f : M S A) (s : S)
      → (b ≡ true → Ends P Q (f s))
      → (b ≡ false → Q e s)
      → Ends P Q ((require b e >> f) s)
  require-Ends true e f s h k = h refl
  require-Ends false e f s h k = throws (k refl)

  cleaned-Ends :
      (o : Outcome S A) (f : S → S) → Ends P (λ e s. Q e (f s)) o → Ends P Q (cleaned f o)
  cleaned-Ends (done a s) f (returns h) = returns h
  cleaned-Ends (thrown e s) f (throws h) = throws h

  pub on_throw-Ends :
      (m : M S A) (f : S → S) (s : S)
      → Ends P (λ e s'. Q e (f s')) (m s)
      → Ends P Q (on_throw m f s)
  on_throw-Ends m f s h = cleaned-Ends (m s) f h

demanded_last-Ends :
    {S : Type 0} {P : Unit {0} → S → Type 0} {Q : Exception → S → Type 0} (r : Bool × S)
    (e : Exception)
    → P tt r.1
    → Q e r.1
    → Ends P Q (demanded e r)
demanded_last-Ends (true, s) e h k = returns h
demanded_last-Ends (false, s) e h k = throws k

-- A call that may fail, with nothing behind it.
pub demand_last-Ends :
    {S : Type 0} {P : Unit {0} → S → Type 0} {Q : Exception → S → Type 0} (call : S → Bool × S)
    (e : Exception) (s : S)
    → P tt (call s).1
    → Q e (call s).1
    → Ends P Q (demand call e s)
demand_last-Ends call e s h k = demanded_last-Ends (call s) e h k

beside_second-Ends :
    {S T A : Type 0} {P : A → S × T → Type 0} {Q : Exception → S × T → Type 0} (o : Outcome S A)
    (t : T)
    → Ends (λ a s. P a (s, t)) (λ e s. Q e (s, t)) o
    → Ends P Q (beside_second t o)
beside_second-Ends (done a s) t (returns h) = returns h
beside_second-Ends (thrown e s) t (throws h) = throws h

beside_first-Ends :
    {S T A : Type 0} {P : A → S × T → Type 0} {Q : Exception → S × T → Type 0} (s : S)
    (o : Outcome T A)
    → Ends (λ a t. P a (s, t)) (λ e t. Q e (s, t)) o
    → Ends P Q (beside_first s o)
beside_first-Ends s (done a t) (returns h) = returns h
beside_first-Ends s (thrown e t) (throws h) = throws h

pub on_first-Ends :
    {S T A : Type 0} {P : A → S × T → Type 0} {Q : Exception → S × T → Type 0} (m : M S A) (s : S)
    (t : T)
    → Ends (λ a s'. P a (s', t)) (λ e s'. Q e (s', t)) (m s)
    → Ends P Q (on_first m (s, t))
on_first-Ends m s t h = beside_second-Ends (m s) t h

pub on_second-Ends :
    {S T A : Type 0} {P : A → S × T → Type 0} {Q : Exception → S × T → Type 0} (m : M T A) (s : S)
    (t : T)
    → Ends (λ a t'. P a (s, t')) (λ e t'. Q e (s, t')) (m t)
    → Ends P Q (on_second m (s, t))
on_second-Ends m s t h = beside_first-Ends s (m t) h

pub returned :
    {S A : Type 0} {P : A → S → Type 0} {Q : Exception → S → Type 0} (o : Outcome S A) (a : A)
    (s : S)
    → Ends P Q o
    → o ≡ done a s
    → P a s
returned (done b s') a s (returns h) e =
    let same_value : b ≡ a = cc in let same_state : s' ≡ s = cc in rw (← same_value, ← same_state) h
returned (thrown x s') a s h e = cc

pub map-Ends :
    {S A : Type 0} {P P' : A → S → Type 0} {Q Q' : Exception → S → Type 0} (o : Outcome S A)
    → ((a : A) (s : S) → P a s → P' a s)
    → ((e : Exception) (s : S) → Q e s → Q' e s)
    → Ends P Q o
    → Ends P' Q' o
map-Ends (done a s) f g (returns h) = returns (f a s h)
map-Ends (thrown e s) f g (throws h) = throws (g e s h)

pub weaken-Ends :
    {S A : Type 0} {P P' : A → S → Type 0} {Q : Exception → S → Type 0} (o : Outcome S A)
    → ((a : A) (s : S) → P a s → P' a s)
    → Ends P Q o
    → Ends P' Q o
weaken-Ends o f h = map-Ends o f (λ e s q. q) h
