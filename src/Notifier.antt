-- ===== src/Notifier.antt =====
-- `AdminNotifier` of app/admin/notifier.py: alerts to the administrator, one per category within
-- the cooldown.
pub mod Cooldown
use group_assessment_agent.Base.{
  ℕ, ◌+◌, ◌-◌, Text, Bool, true, false, Option, none, some, List, [], ◌∷◌, ◌++◌, find, update_where,
  leb, is_some, nonempty, if◌then◌else◌,
}
use group_assessment_agent.Exec.{ok, pure, gets, ◌>>=◌, ◌>>◌}
use group_assessment_agent.Messages.{AdminCategory, same_category, Summary, admin_alert}
use group_assessment_agent.World.{World, Action, SentAlert}
use group_assessment_agent.Outbox.{enqueue}

-- `admin_email` and `cooldown_minutes` of the constructor, the cooldown in units of the clock.
pub record Notifier : Type 0 where
  pub admin_email : Option Text
  pub cooldown : ℕ

abbrev pub of_category : AdminCategory → SentAlert → Bool
of_category c a = same_category a.category c

unfoldable pub cooled : ℕ → ℕ → Option SentAlert → Bool
cooled cooldown now none = true
cooled cooldown now (some a) = leb (a.last_sent_at + cooldown) now

unfoldable pub should_send : Notifier → AdminCategory → Action Bool
unfolding gets cooled
should_send n c = gets (λ w. cooled n.cooldown w.now (find (of_category c) w.alerts))

abbrev pub resend : ℕ → SentAlert → SentAlert
resend now a = record a { last_sent_at = now }

unfoldable pub record_sent : AdminCategory → Action (Unit {0})
record_sent c w = (
  ok tt,
  record w {
    alerts =
        if is_some (find (of_category c) w.alerts)
        then update_where (of_category c) (resend w.now) w.alerts
        else w.alerts ++ (record { category = c; last_sent_at = w.now } ∷ []);
  },
)

pub deliver : Text → AdminCategory → Summary → Action Bool
unfolding ◌>>=◌
deliver to c summary = do
  enqueue to (admin_alert c summary) none [] none none
  record_sent c
  pure true

pub alert_to : Option Text → Notifier → AdminCategory → Summary → Action Bool
unfolding ◌>>=◌ deliver
alert_to none n c summary = pure false
alert_to (some []) n c summary = pure false
alert_to (some (x ∷ xs)) n c summary = do
  due ← should_send n c
  if due then deliver (x ∷ xs) c summary else pure false

unfoldable pub alert : Notifier → AdminCategory → Summary → Action Bool
unfolding alert_to
alert n c summary = alert_to n.admin_email n c summary
