-- ===== src/Json.antt =====
-- The credentials of a LOGIN message (src/AuthenticatedSession.cpp, src/ClientSocket.cpp), over the part
-- of nlohmann::json that they use.
use screen_viewer.Prelude.{◌≡◌, Bytes, codes}
use screen_viewer.Message.{Checked, ok, err}

-- An error is the text of the exception.
pub record Json : Type 1 where
  pub Value : Type 0
  pub parse : Bytes → Checked Bytes Value
  pub at : Value → Bytes → Checked Bytes Value
  pub get_string : Value → Checked Bytes Bytes
  -- `json["email"] = email; json["password"] = password; to_string(json)`.
  pub credentials : Bytes → Bytes → Bytes

infixl 5 ◌>>=◌
abbrev ◌>>=◌ {ℓ κ} :
    {A : Type ℓ} {B : Type κ} → Checked Bytes A → (A → Checked Bytes B) → Checked Bytes B
ok a >>= f = f a
err e >>= f = err e

-- The first lines of `authenticate`.
unfoldable pub read_credentials : (json : Json) → Bytes → Checked Bytes (Bytes × Bytes)
read_credentials json text = do
  content ← json.parse text
  email_field ← json.at content (codes "email")
  email ← json.get_string email_field
  password_field ← json.at content (codes "password")
  password ← json.get_string password_field
  ok (email, password)

-- What nlohmann::json promises: the text of an object reads back as the object.
pub record LawfulJson (json : Json) : Type 0 where
  pub reads_back :
      (email password : Bytes)
      → read_credentials json (json.credentials email password) ≡ ok (email, password)
