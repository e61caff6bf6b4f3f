-- ===== src/Notifications.antt =====
-- backend/app/services/notifications.py: the daily summary of a household, and its delivery through
-- ntfy or Gotify.
pub mod Delivery
use Prim.Native.String.{◌++◌ as text_append}
use chore_app.Base.{
  ℕ, zero, suc, ◌/◌, ◌%◌, String, Bool, true, false, ◌&&◌, not, Option, none, some, List, [], ◌∷◌,
  ◌++◌, map, length, ltb, ◌==◌, same_text, if◌then◌else◌, filter,
}
use chore_app.Settings.{Settings}

-- An entry is the title of a chore with the name of its assignee.
pub record HouseholdReminderSummary : Type 0 where
  pub household_id : ℕ
  pub household_name : String
  pub due_today : List (String × String)
  pub newly_overdue : List (String × String)

abbrev is_nil : List (String × String) → Bool
is_nil [] = true
is_nil (x ∷ l) = false

abbrev pub is_empty : HouseholdReminderSummary → Bool
is_empty s = is_nil s.due_today && is_nil s.newly_overdue

-- Python's `str` of a number, on fuel; a number has no more digits than itself plus one.
abbrev digit : ℕ → String
digit n =
    if n == 0
    then "0"
    else if n == 1
    then "1"
    else if n == 2
    then "2"
    else if n == 3
    then "3"
    else if n == 4
    then "4"
    else if n == 5
    then "5"
    else if n == 6
    then "6"
    else if n == 7
    then "7"
    else if n == 8
    then "8"
    else "9"

digits : ℕ → ℕ → String
digits zero n = ""
digits (suc fuel) n =
    let rest = text_append (digits fuel (n / 10)) (digit (n % 10)) in
    if ltb n 10 then digit n else rest

decimal : ℕ → String
unfolding digits
decimal n = digits (suc n) n

-- `separator.join(parts)`
join : String → List String → String
join separator [] = ""
join separator (part ∷ []) = part
join separator (part ∷ next ∷ parts) =
    text_append part (text_append separator (join separator (next ∷ parts)))

abbrev counted : List (String × String) → String → List String
counted [] what = []
counted (x ∷ l) what = text_append (decimal (length (x ∷ l))) what ∷ []

-- `f"- {chore_title} ({assignee})"`
abbrev line : String × String → String
line (chore_title, assignee) =
    text_append "- " (text_append chore_title (text_append " (" (text_append assignee ")")))

abbrev section_of : String → List (String × String) → List String
section_of heading [] = []
section_of heading (x ∷ l) = heading ∷ map line (x ∷ l)

-- An empty line stands between two sections.
abbrev put_together : List String → List String → List String
put_together [] later = later
put_together (x ∷ l) [] = x ∷ l
put_together (x ∷ l) (y ∷ m) = (x ∷ l) ++ "" ∷ y ∷ m

unfoldable pub build_message : HouseholdReminderSummary → String × String
unfolding decimal join
build_message s = (
  text_append s.household_name (
      text_append ": "
        (join ", " (counted s.due_today " due today" ++ counted s.newly_overdue " newly overdue"))),
  join "\n" (
      put_together (section_of "Due today:" s.due_today)
        (section_of "Newly overdue:" s.newly_overdue)),
)

-- An optional text, in a test: Python takes "" for false. NOTIFY_URL and
-- NOTIFY_TOKEN are read so.
abbrev pub truthy : Option String → Option String
truthy none = none
truthy (some s) = if same_text s "" then none else some s

-- What is posted: the plain text for ntfy, with its headers, or the JSON for Gotify, with its query
-- parameter.
pub data Post : Type 0 where
  ntfy_post : (url title : String) (authorization : Option String) (content : String) → Post
  gotify_post :
      (url : String) (token : Option String) (title message : String) (priority : ℕ) → Post

-- The HTTP client, which is not part of the program: whether a post is answered with success, after
-- the posts made so far. It may fail as it likes.
abbrev pub Client : Type 0
Client = List Post → Post → Bool

-- An effect on the network: an exception or a result, and the posts made so far.
abbrev pub Sending : Type 0 → Type 0
Sending A = List Post → Option A × List Post

abbrev bearer : Option String → Option String
bearer none = none
bearer (some token) = some (text_append "Bearer " token)

-- `client.post(...)` and `raise_for_status`
abbrev post : Client → Post → Sending (Unit {0})
post client p sent = (if client sent p then some tt else none, sent ++ p ∷ [])

module _ (rstrip_slash : String → String) (settings : Settings) (url : String) where
  -- `_post_ntfy`
  abbrev pub ntfy_request : String → String → Post
  ntfy_request title body = ntfy_post url title (bearer (truthy settings.notify_token)) body

  -- `_post_gotify`; `rstrip_slash` is `rstrip("/")`.
  abbrev pub gotify_request : String → String → Post
  gotify_request title body =
      gotify_post (text_append (rstrip_slash url) "/message") (truthy settings.notify_token) title
        body 5

  abbrev pub request_of : String × String → Post
  request_of (title, body) =
      if same_text settings.notify_kind "gotify"
      then gotify_request title body
      else ntfy_request title body

  -- `try: ... except Exception: log`
  abbrev swallow : Option (Unit {0}) × List Post → Option (Unit {0}) × List Post
  swallow (r, sent) = (some tt, sent)

  -- `send_household_summary`
  unfoldable pub send_household_summary : Client → HouseholdReminderSummary → Sending (Unit {0})
  send_household_summary client s sent =
      if is_empty s
      then (some tt, sent)
      else swallow (post client (request_of (build_message s)) sent)

  abbrev pub and_next :
      Option (Unit {0}) × List Post → Sending (Unit {0}) → Option (Unit {0}) × List Post
  and_next (none, sent) k = (none, sent)
  and_next (some a, sent) k = k sent

  unfoldable pub send_all : Client → List HouseholdReminderSummary → Sending (Unit {0})
  send_all client [] sent = (some tt, sent)
  send_all client (s ∷ summaries) sent =
      and_next (send_household_summary client s sent) (send_all client summaries)

module _ (rstrip_slash : String → String) (settings : Settings) (client : Client) where
  abbrev send_to : Option String → List HouseholdReminderSummary → Sending (Unit {0})
  send_to none summaries sent = (some tt, sent)
  send_to (some url) summaries sent =
      send_all rstrip_slash settings url client (filter (λ s. not (is_empty s)) summaries) sent

  -- `send_daily_reminders`
  unfoldable pub send_daily_reminders : List HouseholdReminderSummary → Sending (Unit {0})
  send_daily_reminders summaries sent = send_to (truthy settings.notify_url) summaries sent
