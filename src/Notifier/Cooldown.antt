-- ===== src/Notifier/Cooldown.antt =====
-- How often a category alerts the administrator.
use group_assessment_agent.Base.{
  ℕ, ◌+◌, ◌<◌, Text, ◌≡◌, refl, Bool, true, false, Option, none, some, List, [], ◌∷◌, ◌++◌, find,
  update_where, arith, Option-cases, Bool-cases, inl, inr,
}
use group_assessment_agent.Exec.{ok}
use group_assessment_agent.Messages.{AdminCategory, same_category, Summary, admin_alert}
use group_assessment_agent.World.{World, SentAlert}
use group_assessment_agent.Outbox.{enqueue}
use group_assessment_agent.Notifier.{
  Notifier, of_category, record_sent, should_send, alert_to, alert, cooled, resend,
}

abbrev last : AdminCategory → World → Option SentAlert
last c w = find (of_category c) w.alerts

same_category_refl : (c : AdminCategory) → same_category c c ≡ true
same_category_refl c = ground arith

last-snoc :
    (c : AdminCategory) (t : ℕ) (l : List SentAlert)
    → find (of_category c) l ≡ none
    → find (of_category c) (l ++ (record { category = c; last_sent_at = t } ∷ []))
      ≡ some (record { category = c; last_sent_at = t })
last-snoc c t [] h = ground (arith, same_category_refl c)
last-snoc c t (x ∷ xs) h = ground (arith, last-snoc c t xs)

last-update :
    (c : AdminCategory) (t : ℕ) (l : List SentAlert) (a : SentAlert)
    → find (of_category c) l ≡ some a
    → find (of_category c) (update_where (of_category c) (resend t) l) ≡ some (resend t a)
last-update c t [] a h = ground arith
last-update c t (x ∷ xs) a h = ground (arith, last-update c t xs a)

due : Notifier → AdminCategory → World → Bool
unfolding cooled
due n c w = cooled n.cooldown w.now (last c w)

within :
    (n : Notifier) (c : AdminCategory) (s : Summary) (w : World) (to : Option Text)
    → due n c w ≡ false
    → alert_to to n c s w ≡ (ok false, w)
unfolding alert should_send due
within n c s w none h = refl
within n c s w (some []) h = refl
within n c s w (some (x ∷ xs)) h = ground arith

recorded :
    (c : AdminCategory) (w : World)
    → (a : SentAlert) × (last c (record_sent c w).1 ≡ some a) × (a.last_sent_at ≡ w.now)
unfolding record_sent
recorded c w = elim (Option-cases (last c w)) [
  | inl e ↦ (
    record { category = c; last_sent_at = w.now },
    ground (arith, last-snoc c w.now w.alerts),
    refl,
  )
  | inr (a, e) ↦ (resend w.now a, ground (arith, last-update c w.now w.alerts a), refl)
]

sends :
    (n : Notifier) (c : AdminCategory) (s : Summary) (w : World) (to : Option Text)
    → (alert_to to n c s w).0 ≡ ok true
    → (a : SentAlert) × (last c (alert_to to n c s w).1 ≡ some a) × (a.last_sent_at ≡ w.now)
unfolding alert should_send
sends n c s w none h = absurd (ground arith)
sends n c s w (some []) h = absurd (ground arith)
sends n c s w (some (x ∷ xs)) h = elim (Bool-cases (cooled n.cooldown w.now (last c w))) [
  | inl yes' ↦ rw yes' (
      unfold enqueue record_sent in
      recorded c (enqueue (x ∷ xs) (admin_alert c s) none [] none none w).1)
  | inr no' ↦ absurd (ground arith)
]

-- After an alert of a category, and until the cooldown is over, a further alert of that category
-- does nothing, whatever else has happened in between.
pub alert_within_cooldown :
    (n : Notifier) (c : AdminCategory) (s s' : Summary) (w later : World)
    → (alert n c s w).0 ≡ ok true
    → later.alerts ≡ (alert n c s w).1.alerts
    → later.now < w.now + n.cooldown
    → alert n c s' later ≡ (ok false, later)
unfolding alert due cooled
alert_within_cooldown n c s s' w later h same soon =
    let (a, found, time) = sends n c s w n.admin_email h in
    within n c s' later n.admin_email (rw same (rw found (ground arith)))
