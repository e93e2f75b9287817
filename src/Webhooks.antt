-- ===== src/Webhooks.antt =====
-- webhooks/webhooks.service.ts: the delivery states that providers report.
use dead_switch.Common.{
  ℕ, String, Bool, true, false, ◌||◌, ◌&&◌, List, [], ◌∷◌, Option, none, some, str_eq, ◌==◌,
  update_many, if◌then◌else◌,
}
use dead_switch.Schema.{ReleaseAction}
use dead_switch.World.{Env}
use dead_switch.Effect.{M, pure, ◌>>=◌, ask, clock, modify, for_each}
use dead_switch.Releases.Executor.{set_actions}

unfoldable pub map_twilio_status : String → String
map_twilio_status s = if str_eq s "undelivered" || str_eq s "failed" then "failed" else s

unfoldable pub map_sendgrid_status : String → String
map_sendgrid_status s =
    if str_eq s "processed" || str_eq s "deferred"
    then "accepted"
    else if str_eq s "bounce" || (str_eq s "dropped" || str_eq s "blocked")
    then "failed"
    else s

unfoldable pub set_provider_status : String → ℕ → ReleaseAction → ReleaseAction
set_provider_status status now a = record a {
  provider_status = some status;
  provider_status_at = some now;
}

-- An absent text and an empty one are the same to `!x`.
abbrev text_of : Option String → String
text_of none = ""
text_of (some t) = t

unfoldable pub has_message_id : String → ReleaseAction → Bool
has_message_id sid a = is_sid a.provider_message_id
  where
    is_sid : Option String → Bool
    is_sid none = false
    is_sid (some id) = str_eq id sid

unfoldable pub twilio_status : Option String → Option String → M (Unit {0})
unfolding has_message_id
twilio_status message_sid message_status =
    if str_eq (text_of message_sid) "" || str_eq (text_of message_status) "" then pure tt else (do
      now ← clock
      modify (
          set_actions (
            update_many (has_message_id (text_of message_sid))
              (set_provider_status (map_twilio_status (text_of message_status)) now))))

unfoldable pub starts_with : List ℕ → List ℕ → Bool
starts_with [] units = true
starts_with (p ∷ ps) [] = false
starts_with (p ∷ ps) (u ∷ us) = p == u && starts_with ps us

-- The code units up to the first full stop.
unfoldable pub until_dot : List ℕ → List ℕ
until_dot [] = []
until_dot (u ∷ us) = let rest = until_dot us in if u == 46 then [] else u ∷ rest

unfoldable pub has_prefix : Env → List ℕ → ReleaseAction → Bool
unfolding starts_with
has_prefix env prefix a = begins a.provider_message_id
  where
    begins : Option String → Bool
    begins none = false
    begins (some id) = starts_with prefix (env.code_units id)

pub record SendgridEvent : Type 0 where
  pub sg_message_id : Option String
  pub event : Option String

unfoldable pub sendgrid_event : SendgridEvent → M (Unit {0})
unfolding has_prefix until_dot
sendgrid_event ev =
    if str_eq (text_of ev.sg_message_id) "" || str_eq (text_of ev.event) "" then pure tt else (do
      now ← clock
      env ← ask (λ env. env)
      let short_id = until_dot (env.code_units (text_of ev.sg_message_id))
      modify (
          set_actions (
            update_many (has_prefix env short_id)
              (set_provider_status (map_sendgrid_status (text_of ev.event)) now))))

unfoldable pub sendgrid_events : List SendgridEvent → M (Unit {0})
sendgrid_events events = for_each events sendgrid_event
