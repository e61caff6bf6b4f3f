-- ===== src/Settings.antt =====
-- backend/app/core/config.py: the settings and their validators. Counts, hours and minutes are not
-- negative; the timeout is in milliseconds.
pub mod Validation
use Prim.Native.String.{count as text_length}
use text.Mathlib.Text.{find?}
use chore_app.Base.{
  ℕ, ◌*◌, String, Bool, true, false, ◌||◌, Option, none, some, List, [], ◌∷◌, ◌++◌, ltb, same_text,
  if◌then◌else◌, any, is_none, not,
}
use chore_app.Texts.{strip, lower}

pub record Settings : Type 0 where
  pub database_url : String
  pub jwt_secret : String
  pub jwt_algorithm : String
  pub jwt_expiry_minutes : ℕ
  pub jwt_expiry_days : Option ℕ
  pub refresh_token_ttl_days : ℕ
  pub app_base_url : String
  pub invite_token_ttl_hours : ℕ
  pub scheduler_run_hour : ℕ
  pub instance_generation_days_ahead : ℕ
  pub grace_days : ℕ
  pub debug : Bool
  pub cors_allowed_origins : List String
  pub rate_limit_enabled : Bool
  pub rate_limit_login : String
  pub rate_limit_register : String
  pub rate_limit_refresh : String
  pub notify_url : Option String
  pub notify_token : Option String
  pub notify_kind : String
  pub notify_timeout : ℕ

pub data ConfigError : Type 0 where
  bad_notify_kind short_secret placeholder_secret : ConfigError

-- What a validator of one field returns.
pub data Checked : Type 0 where
  valid : String → Checked
  invalid : ConfigError → Checked

abbrev pub placeholder_secret_markers : List String
placeholder_secret_markers =
    "change-me" ∷ "change_me" ∷ "changeme" ∷ "replace_with" ∷ "replace-with" ∷ "replaceme"
    ∷ "your-secret" ∷ "your_secret" ∷ "example-secret" ∷ []

-- `_validate_notify_kind`
unfoldable pub validate_notify_kind : String → Checked
validate_notify_kind value =
    let normalized = lower (strip value) in
    if same_text normalized "ntfy" || same_text normalized "gotify"
    then valid normalized
    else invalid bad_notify_kind

-- `_validate_jwt_secret`
unfoldable pub validate_jwt_secret : String → Checked
validate_jwt_secret value =
    if ltb (text_length value) 32
    then invalid short_secret
    else if any (λ marker. not (is_none (find? (lower (strip value)) marker)))
        placeholder_secret_markers
    then invalid placeholder_secret
    else valid value

-- `_apply_deprecated_jwt_expiry_days`
abbrev pub effective_minutes : Option ℕ → ℕ → ℕ
effective_minutes none minutes = minutes
effective_minutes (some days) minutes = days * 24 * 60

unfoldable pub apply_deprecated_jwt_expiry_days : Settings → Settings
apply_deprecated_jwt_expiry_days s = record s {
  jwt_expiry_minutes = effective_minutes s.jwt_expiry_days s.jwt_expiry_minutes;
}

-- The settings, or the errors of all fields.
pub data Loaded : Type 0 where
  loaded : Settings → Loaded
  refused : List ConfigError → Loaded

abbrev with_fields : Checked → Checked → Settings → Loaded
with_fields (valid secret) (valid kind) s =
    loaded (apply_deprecated_jwt_expiry_days (record s { jwt_secret = secret; notify_kind = kind }))
with_fields (valid secret) (invalid e) s = refused (e ∷ [])
with_fields (invalid e) (valid kind) s = refused (e ∷ [])
with_fields (invalid e) (invalid f) s = refused (e ∷ f ∷ [])

-- `Settings()`: the field validators in the order of the fields, then the model validator.
unfoldable pub load_settings : Settings → Loaded
load_settings s =
    with_fields (validate_jwt_secret s.jwt_secret) (validate_notify_kind s.notify_kind) s
