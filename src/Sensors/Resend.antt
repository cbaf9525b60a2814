-- ===== src/Sensors/Resend.antt =====
-- backend/app/api/suricata.py: a batch that is sent again, alone or with later events behind it.
use intrusion_detect.Common.{
  ℕ, ◌+◌, ◌≡◌, refl, sym, ap, ◌∙◌, true, Option, none, some, List, [], ◌∷◌, ◌++◌, is_some,
}
use intrusion_detect.Sensors.{
  Python, SuricataAlert, SuricataEvent, SuricataBatch, SuricataReceipt, EventType, alert_event,
  stats_event, Fields, Database, Progress, accept, accept_any, dispatch, observe, observe_all,
  alert_row, network_context_of, later_of, evidence_of, start, ingest_suricata, receipt_of,
}
use intrusion_detect.Sensors.Loop.{alert_count, stats_after, Ahead, observe_all-IsKnown}
use intrusion_detect.Sensors.Once.{observe_all-Ahead, observe_all-known, observe_all-append}
use intrusion_detect.Sensors.Commit.{
  readable, readable-stats_after, is_some-ingest_suricata, loop_of, ingest_suricata-Committed,
}

-- The loop reads the identity of the sensor and of its engine, but not the list of events.
abbrev resend : SuricataBatch → List SuricataEvent → SuricataBatch
resend batch events = record batch { events = events }

module _ (py : Python) (now : ℕ) (batch : SuricataBatch) (xs ys : List SuricataEvent) where
  accept_any-resend :
      (event : SuricataEvent) (asked : Option SuricataAlert) (p : Progress)
      → accept_any py now (resend batch xs) event asked p
        ≡ accept_any py now (resend batch ys) event asked p
  unfolding accept_any accept alert_row network_context_of evidence_of
  accept_any-resend event none p = refl
  accept_any-resend event (some alert) p = refl

  dispatch-resend :
      (event : SuricataEvent) (type : EventType) (p : Progress)
      → dispatch py now (resend batch xs) event type p
        ≡ dispatch py now (resend batch ys) event type p
  unfolding dispatch
  dispatch-resend event stats_event p = refl
  dispatch-resend event alert_event p = accept_any-resend event event.alert p

  observe_all-resend :
      (events : List SuricataEvent) (p : Progress)
      → observe_all py now (resend batch xs) events p
        ≡ observe_all py now (resend batch ys) events p
  unfolding observe_all observe
  observe_all-resend [] p = refl
  observe_all-resend (event ∷ events) p =
      ap (observe_all py now (resend batch xs) events) (
        dispatch-resend event event.event_type
          (record p { latest_event = some (later_of p.latest_event event.timestamp) }))
      ∙ observe_all-resend events (observe py now (resend batch ys) event p)

stats_after-append :
    (xs ys : List SuricataEvent) (latest : Option Fields)
    → stats_after (xs ++ ys) latest ≡ stats_after ys (stats_after xs latest)
unfolding stats_after
stats_after-append [] ys latest = refl
stats_after-append (event ∷ xs) ys latest = stats_after-append xs ys _

is_some-of : {A : Type 0} (o : Option A) (a : A) → o ≡ some a → is_some o ≡ true
is_some-of o a e = rw e refl

-- The loop over a batch that was committed before and `more` behind it is ahead of the loop over
-- `more`, by the duplicates.
loop_of-Ahead :
    (py : Python) (now later : ℕ) (batch : SuricataBatch) (more : List SuricataEvent)
    (db db' : Database) (r : SuricataReceipt)
    → ingest_suricata py now batch db ≡ some (db', r)
    → Ahead
        (alert_count py batch.sensor_id batch.events)
        (loop_of py later (resend batch more) db')
        (loop_of py later (resend batch (batch.events ++ more)) db')
unfolding start
loop_of-Ahead py now later batch more db db' r e =
    let both = resend batch (batch.events ++ more) in
    let left = ingest_suricata-Committed py now batch db db' r e in
    let known = (observe_all-IsKnown py now batch batch.events (start db)).1 in
    let first = observe_all-known py later both batch.events (start db') (rw left.alerts known) in
    let rest =
      observe_all-Ahead py later both more _ (start db')
        (observe_all py later both batch.events (start db')) first in
    rw
      (
        observe_all-append py later both batch.events more (start db'),
        observe_all-resend py later batch more (batch.events ++ more) more (start db'),
      )
      rest

some-of : {A : Type 0} (o : Option A) → is_some o ≡ true → (a : A) × (o ≡ some a)
some-of none h = absurd cc
some-of (some a) h = (a, refl)

-- The statistics of a batch that was committed and of one behind it can be read together.
readable-both :
    (py : Python) (now later : ℕ) (batch : SuricataBatch) (more : List SuricataEvent)
    (db db' db'' : Database) (r r'' : SuricataReceipt)
    → ingest_suricata py now batch db ≡ some (db', r)
    → ingest_suricata py later (resend batch more) db' ≡ some (db'', r'')
    → readable py (stats_after (batch.events ++ more) none) ≡ true
readable-both py now later batch more db db' db'' r r'' e f =
    let first = sym (is_some-ingest_suricata py now batch db) ∙ is_some-of _ _ e in
    let second =
      sym (is_some-ingest_suricata py later (resend batch more) db') ∙ is_some-of _ _ f in
    rw (stats_after-append batch.events more none)
      (readable-stats_after py more none (stats_after batch.events none) first second)

-- What an agent sends again is accepted once: if a batch has been committed, and the database it
-- left would take further events of the sensor, then it takes the batch together with these events,
-- at any time; the alerts and the outbox become those that the further events alone give, as many
-- alerts are accepted, and the duplicates are more by the alert events of the batch.
pub ingest_suricata-resend :
    (py : Python) (now later : ℕ) (batch : SuricataBatch) (more : List SuricataEvent)
    (db db' db'' : Database) (r r'' : SuricataReceipt)
    → ingest_suricata py now batch db ≡ some (db', r)
    → ingest_suricata py later (resend batch more) db' ≡ some (db'', r'')
    → (again : Database) × (receipt : SuricataReceipt) × (ingest_suricata py later
          (resend batch (batch.events ++ more))
          db'
        ≡ some (again, receipt))
      × (again.alerts ≡ db''.alerts)
      × (again.outbox ≡ db''.outbox)
      × (receipt.accepted_alerts ≡ r''.accepted_alerts)
      × (receipt.duplicate_alerts
          ≡ r''.duplicate_alerts + alert_count py batch.sensor_id batch.events)
unfolding receipt_of
ingest_suricata-resend py now later batch more db db' db'' r r'' e f =
    let both = resend batch (batch.events ++ more) in
    let readable_both = readable-both py now later batch more db db' db'' r r'' e f in
    let ((again, receipt), g) =
      some-of (ingest_suricata py later both db')
        (is_some-ingest_suricata py later both db' ∙ readable_both) in
    let a = loop_of-Ahead py now later batch more db db' r e in
    let left = ingest_suricata-Committed py later both db' again receipt g in
    let further = ingest_suricata-Committed py later (resend batch more) db' db'' r'' f in
    (
      again,
      receipt,
      g,
      left.alerts ∙ a.alerts ∙ sym further.alerts,
      left.outbox ∙ a.outbox ∙ sym further.outbox,
      rw (left.receipt, further.receipt) a.accepted,
      rw (left.receipt, further.receipt) a.duplicates,
    )
