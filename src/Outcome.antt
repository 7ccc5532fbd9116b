-- ===== src/Outcome.antt =====
-- Calls that change a state and may throw: include/ScreenViewerBaseException.hpp and the exception
-- classes of the other headers. What an operation did before it threw stays done.
pub mod Ends
use screen_viewer.Prelude.{ℕ, ◌≡◌, refl, Bytes, Bool, true, false, Option, none, some}
use screen_viewer.Message.{MessageType, HeaderError, ConvertError, Checked, ok, err}

-- The texts of `VideoEncoderException` and `VideoDecoderException`.
pub data CodecError : Type 0 where
  codec_not_found context_not_allocated no_descriptor bad_bits not_opened : CodecError
  frame_not_allocated frame_data_not_allocated not_writable : CodecError

-- The texts of `X11IOControllerException`.
pub data IoError : Type 0 where
  no_display xinerama_inactive screens_not_queried capture_failed : IoError
  too_few_screens : ℕ → IoError

-- The texts of `ScreenViewerClientException`.
pub data SdlError : Type 0 where
  no_window no_renderer no_texture : SdlError

-- One constructor for each place that throws, with the values that its text is made of.
-- `exited` is the end of the process. `unfinished` and `undefined` are no exceptions of the program: a
-- loop of the model ran out of fuel, or the code has undefined behaviour.
pub data Exception : Type 0 where
  message_header_exception : HeaderError → Exception
  message_type_exception : ConvertError → Exception
  max_size_exception : ℕ → ℕ → Exception
  not_acknowledged : MessageType → ℕ → Bytes → Exception
  not_registered : MessageType → Exception
  json_exception : Bytes → Exception
  user_exists : Bytes → Exception
  system_error : ℕ → Exception
  codec_exception : CodecError → Exception
  io_controller_exception : IoError → Exception
  sdl_exception : SdlError → Exception
  endpoint_not_found : Bytes → ℕ → Exception
  exited : ℕ → Exception
  unfinished undefined : Exception

pub data Outcome {ℓ κ} (S : Type ℓ) (A : Type κ) : Type (ℓ ⊔ κ) where
  done : A → S → Outcome S A
  thrown : Exception → S → Outcome S A

abbrev pub M {ℓ κ} : Type ℓ → Type κ → Type (ℓ ⊔ κ)
M S A = S → Outcome S A

abbrev pub after {ℓ κ ι} :
    {S : Type ℓ} {A : Type κ} {B : Type ι} → Outcome S A → (A → M S B) → Outcome S B
after (done a s) f = f a s
after (thrown e s) f = thrown e s

infixl 5 ◌>>=◌ ◌>>◌
abbrev pub ◌>>=◌ {ℓ κ ι} : {S : Type ℓ} {A : Type κ} {B : Type ι} → M S A → (A → M S B) → M S B
◌>>=◌ m f s = after (m s) f

abbrev pub ◌>>◌ {ℓ κ ι} : {S : Type ℓ} {A : Type κ} {B : Type ι} → M S A → M S B → M S B
◌>>◌ m k s = after (m s) (λ _. k)

abbrev pub give {ℓ κ} : {S : Type ℓ} {A : Type κ} → A → M S A
give a s = done a s

abbrev pub throw {ℓ κ} : {S : Type ℓ} {A : Type κ} → Exception → M S A
throw e s = thrown e s

abbrev pub handled {ℓ κ} :
    {S : Type ℓ} {A : Type κ} → Outcome S A → (Exception → M S A) → Outcome S A
handled (done a s) f = done a s
handled (thrown e s) f = f e s

-- `try { m } catch (const std::exception &e) { f(e) }`.
abbrev pub try_catch {ℓ κ} : {S : Type ℓ} {A : Type κ} → M S A → (Exception → M S A) → M S A
try_catch m f s = handled (m s) f

abbrev pub final {ℓ κ} : {S : Type ℓ} {A : Type κ} → Outcome S A → S
final (done a s) = s
final (thrown e s) = s

abbrev pub or_throw {ℓ κ} :
    {S : Type ℓ} {A : Type κ} {E : Type 0} → (E → Exception) → Checked E A → M S A
or_throw f (ok a) s = done a s
or_throw f (err e) s = thrown (f e) s

abbrev pub modify {ℓ} : {S : Type ℓ} → (S → S) → M S (Unit {0})
modify f s = done tt (f s)

abbrev pub obtained {ℓ κ} : {S : Type ℓ} {A : Type κ} → Exception → Option A × S → Outcome S A
obtained e (none, s) = thrown e s
obtained e (some a, s) = done a s

-- A call that may return null, and the exception that is thrown then.
abbrev pub obtain {ℓ κ} : {S : Type ℓ} {A : Type κ} → (S → Option A × S) → Exception → M S A
obtain call e s = obtained e (call s)

abbrev pub demanded {ℓ} : {S : Type ℓ} → Exception → Bool × S → Outcome S (Unit {0})
demanded e (true, s) = done tt s
demanded e (false, s) = thrown e s

-- A call that may fail, and the exception that is thrown then.
abbrev pub demand {ℓ} : {S : Type ℓ} → (S → Bool × S) → Exception → M S (Unit {0})
demand call e s = demanded e (call s)

-- A pointer that may be null.
abbrev pub present {ℓ κ} : {S : Type ℓ} {A : Type κ} → Option A → Exception → M S A
present o = obtain (λ s. (o, s))

-- The exception that is thrown where a condition fails.
abbrev pub require {ℓ} : {S : Type ℓ} → Bool → Exception → M S (Unit {0})
require b = demand (λ s. (b, s))

abbrev pub beside_second : {S T A : Type 0} → T → Outcome S A → Outcome (S × T) A
beside_second t (done a s) = done a (s, t)
beside_second t (thrown e s) = thrown e (s, t)

abbrev pub beside_first : {S T A : Type 0} → S → Outcome T A → Outcome (S × T) A
beside_first s (done a t) = done a (s, t)
beside_first s (thrown e t) = thrown e (s, t)

-- A call that works on one of two states.
abbrev pub on_first : {S T A : Type 0} → M S A → M (S × T) A
on_first m (s, t) = beside_second t (m s)

abbrev pub on_second : {S T A : Type 0} → M T A → M (S × T) A
on_second m (s, t) = beside_first s (m t)

abbrev pub cleaned {ℓ κ} : {S : Type ℓ} {A : Type κ} → (S → S) → Outcome S A → Outcome S A
cleaned f (done a s) = done a s
cleaned f (thrown e s) = thrown e (f s)

-- A destructor that runs where `m` throws.
abbrev pub on_throw {ℓ κ} : {S : Type ℓ} {A : Type κ} → M S A → (S → S) → M S A
on_throw m f s = cleaned f (m s)

pub after-eq-done {ℓ κ ι} :
    {S : Type ℓ} {A : Type κ} {B : Type ι} (o : Outcome S A) (f : A → M S B) {b : B} {s' : S}
    → after o f ≡ done b s'
    → (a : A) × (s : S) × (o ≡ done a s) × (f a s ≡ done b s')
after-eq-done (done a s) f h = (a, s, refl, h)
after-eq-done (thrown e s) f h = cc

pub final-after {ℓ κ ι} :
    {S : Type ℓ} {A : Type κ} {B : Type ι} (o : Outcome S A) (b : B)
    → final (after o (λ _. give b)) ≡ final o
final-after (done a s) b = refl
final-after (thrown e s) b = refl
