-- ===== src/Account/Row.antt =====
-- The tables app_users and auth_sessions. A time is a number of microseconds.
use rag_llm.Prelude.{ℕ, ◌*◌, String, Bool, Option, List}

pub record User : Type 0 where
  pub id : String
  pub email : String
  pub email_normalized : String
  pub display_name : String
  pub password_hash : String
  pub active : Bool
  pub is_admin : Bool
  pub failed_login_count : ℕ
  pub locked_until : Option ℕ
  pub last_login_at : Option ℕ
  pub created_at : ℕ
  pub updated_at : ℕ

pub record AuthSession : Type 0 where
  pub token_hash : String
  pub user_id : String
  pub created_at : ℕ
  pub last_seen_at : ℕ
  pub expires_at : ℕ
  pub revoked_at : Option ℕ
  pub user_agent_hash : String
  pub ip_address : Option String

pub record Accounts : Type 0 where
  pub users : List User
  pub sessions : List AuthSession

abbrev pub minute : ℕ
minute = 60000000

abbrev pub hour : ℕ
hour = 60 * minute

abbrev pub day : ℕ
day = 24 * hour

abbrev pub id_of : User → String
id_of u = u.id

abbrev pub email_of : User → String
email_of u = u.email_normalized

abbrev pub hash_of : AuthSession → String
hash_of s = s.token_hash
