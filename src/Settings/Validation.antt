-- ===== src/Settings/Validation.antt =====
-- backend/app/core/config.py: settings that went through the validators.
use Prim.Native.String.{count as text_length}
use text.Mathlib.Text.{find?}
use chore_app.Base.{
  ℕ, ◌≡◌, refl, ◌⊎◌, inl, inr, String, Option, none, some, ltb, same_text, same_text→eq, Bool-cases,
  any, not, is_none,
}
use chore_app.Texts.{strip, lower}
use chore_app.Settings.{
  Settings, Checked, valid, invalid, placeholder_secret_markers, validate_notify_kind,
  validate_jwt_secret, effective_minutes, apply_deprecated_jwt_expiry_days, loaded, load_settings,
}

ntfy_again : validate_notify_kind "ntfy" ≡ valid "ntfy"
unfolding validate_notify_kind strip lower
ntfy_again = refl

gotify_again : validate_notify_kind "gotify" ≡ valid "gotify"
unfolding validate_notify_kind strip lower
gotify_again = refl

-- A kind that is accepted is one of the two.
accepted_kind : (v w : String) → validate_notify_kind v ≡ valid w → (w ≡ "ntfy") ⊎ (w ≡ "gotify")
unfolding validate_notify_kind
accepted_kind v w h =
    let k = lower (strip v) in
    elim (Bool-cases (same_text k "ntfy")) [
      | inl is_ntfy ↦ inl (cc (rw is_ntfy at h, same_text→eq k "ntfy" is_ntfy))
      | inr other ↦ elim (Bool-cases (same_text k "gotify")) [
        | inl is_gotify ↦ inr (cc (rw (other, is_gotify) at h, same_text→eq k "gotify" is_gotify))
        | inr neither ↦ cc (rw (other, neither) at h)
      ]
    ]

kind_again : (w : String) → (w ≡ "ntfy") ⊎ (w ≡ "gotify") → validate_notify_kind w ≡ valid w
kind_again w (inl e) = rw e ntfy_again
kind_again w (inr e) = rw e gotify_again

-- A secret that is accepted is not changed.
accepted_secret : (v w : String) → validate_jwt_secret v ≡ valid w → v ≡ w
unfolding validate_jwt_secret
accepted_secret v w h = elim (Bool-cases (ltb (text_length v) 32)) [
  | inl short ↦ cc (rw short at h)
  | inr long ↦
      elim (Bool-cases (
        any (λ marker. not (is_none (find? (lower (strip v)) marker)))
          placeholder_secret_markers)) [
            | inl copied ↦ cc (rw (long, copied) at h)
            | inr fresh ↦ cc (rw (long, fresh) at h)
          ]
]

minutes_again :
    (days : Option ℕ) (minutes : ℕ)
    → effective_minutes days (effective_minutes days minutes) ≡ effective_minutes days minutes
minutes_again none minutes = refl
minutes_again (some days) minutes = refl

-- The settings that two accepted fields give.
abbrev settled : String → String → Settings → Settings
settled secret kind s = record s {
  jwt_secret = secret;
  notify_kind = kind;
  jwt_expiry_minutes = effective_minutes s.jwt_expiry_days s.jwt_expiry_minutes;
}

settled_again :
    (secret kind : String) (s : Settings)
    → validate_jwt_secret secret ≡ valid secret
    → validate_notify_kind kind ≡ valid kind
    → load_settings (settled secret kind s) ≡ loaded (settled secret kind s)
unfolding load_settings apply_deprecated_jwt_expiry_days
settled_again secret kind s good_secret good_kind =
    rw (good_secret, good_kind, minutes_again s.jwt_expiry_days s.jwt_expiry_minutes) refl

-- Settings that were loaded load again, unchanged, and their notification kind is one of the two
-- that the notifications know.
pub load_settings_idem :
    (s t : Settings)
    → load_settings s ≡ loaded t
    → (load_settings t ≡ loaded t) × ((t.notify_kind ≡ "ntfy") ⊎ (t.notify_kind ≡ "gotify"))
unfolding load_settings apply_deprecated_jwt_expiry_days
load_settings_idem s t h =
    go (validate_jwt_secret s.jwt_secret) (validate_notify_kind s.notify_kind) refl refl
  where
    go :
        (secret kind : Checked)
        → validate_jwt_secret s.jwt_secret ≡ secret
        → validate_notify_kind s.notify_kind ≡ kind
        → (load_settings t ≡ loaded t) × ((t.notify_kind ≡ "ntfy") ⊎ (t.notify_kind ≡ "gotify"))
    go (invalid e) (invalid f) a b = cc (rw (a, b) at h)
    go (invalid e) (valid k) a b = cc (rw (a, b) at h)
    go (valid secret) (invalid f) a b = cc (rw (a, b) at h)
    go (valid secret) (valid k) a b =
        let e : settled secret k s ≡ t = cc (rw (a, b) at h) in
        let named = accepted_kind s.notify_kind k b in
        rw (← e) (
          settled_again secret k s (rw (accepted_secret s.jwt_secret secret a) at a)
              (kind_again k named),
          named,
        )
