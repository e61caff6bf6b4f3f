-- ===== src/Notifications/Delivery.antt =====
-- backend/app/services/notifications.py: the posts of a run of `send_daily_reminders`.
use mathlib.Core.List.{append-nil, append_assoc}
use chore_app.Base.{
  String, ◌≡◌, refl, ap, ◌∙◌, inl, inr, not, Option, none, some, List, [], ◌∷◌, ◌++◌, map, filter,
  Bool-cases,
}
use chore_app.Settings.{Settings}
use chore_app.Notifications.{
  HouseholdReminderSummary, is_empty, build_message, truthy, Post, Client, request_of,
  send_household_summary, send_all, send_daily_reminders,
}

-- The posts for the summaries that have something to tell, where there is a URL.
abbrev pub posts_for :
    (String → String) → Settings → Option String → List HouseholdReminderSummary → List Post
posts_for rstrip_slash settings none summaries = []
posts_for rstrip_slash settings (some url) summaries =
    map (λ s. request_of rstrip_slash settings url (build_message s))
      (filter (λ s. not (is_empty s)) summaries)

-- One message after the other, a failed one included.
send_all_lem :
    (rstrip_slash : String → String) (settings : Settings) (url : String) (client : Client)
    (summaries : List HouseholdReminderSummary) (sent : List Post)
    → send_all rstrip_slash settings url client (filter (λ s. not (is_empty s)) summaries) sent
      ≡ (some tt, sent ++ posts_for rstrip_slash settings (some url) summaries)
unfolding send_all send_household_summary
send_all_lem r settings url client [] sent = rw append-nil refl
send_all_lem r settings url client (s ∷ summaries) sent = elim (Bool-cases (is_empty s)) [
  | inl nothing ↦ rw nothing (send_all_lem r settings url client summaries sent)
  | inr something ↦
      let p = request_of r settings url (build_message s) in
      rw (something, something)
        (send_all_lem r settings url client summaries (sent ++ p ∷ [])
          ∙ ap (λ l. (some tt, l)) (append_assoc sent (p ∷ []) _))
]

-- The reminders never raise, whatever the client answers: where NOTIFY_URL is set and not empty,
-- one message is posted for each summary that has something to tell, in their order, also after a
-- failed delivery; where it is not, nothing is posted.
pub send_daily_reminders_lem :
    (rstrip_slash : String → String) (settings : Settings) (client : Client)
    (summaries : List HouseholdReminderSummary) (sent : List Post)
    → send_daily_reminders rstrip_slash settings client summaries sent
      ≡ (some tt, sent ++ posts_for rstrip_slash settings (truthy settings.notify_url) summaries)
unfolding send_daily_reminders
send_daily_reminders_lem r settings client summaries sent = go (truthy settings.notify_url) refl
  where
    go :
        (url : Option String)
        → truthy settings.notify_url ≡ url
        → send_daily_reminders r settings client summaries sent
          ≡ (some tt, sent ++ posts_for r settings (truthy settings.notify_url) summaries)
    go none e = rw (e, append-nil) refl
    go (some url) e = rw e (send_all_lem r settings url client summaries sent)
