-- ===== src/Node/Connection/Reporter.antt =====
-- class MetricsReporter of node/metrics.py: its task, the rounds of its loop, and messages that cannot be sent.
use agentic_juggling.Prelude.{
  String, Bool, true, ◌≡◌, refl, ap, ◌∙◌, Option, none, some, List, [], ◌∷◌, ◌++◌, arith, keep,
  if◌then◌else◌, Bool-cases, inl, inr,
}
use agentic_juggling.Prelude.Int.{ℤ, ◌+ℤ◌, leb_ℤ}
use agentic_juggling.Prelude.Dict.{Dict}
use agentic_juggling.Server.Wire.{Payload}
use agentic_juggling.Node.{AgentWindow}
use agentic_juggling.Node.Connection.{metrics_payload, report}

-- the interval, the end of the sleep of the task that runs, if one does, and what was sent
pub record MetricsReporter : Type 0 where
  pub interval : ℤ
  pub task : Option ℤ
  pub sent : List Payload

unfoldable pub start : ℤ → MetricsReporter → MetricsReporter
start now r = record r { task = some (now +ℤ r.interval) }

-- the task is cancelled, if there is one
unfoldable pub stop : MetricsReporter → MetricsReporter
stop r = record r { task = none }

module _ (node_id : String) (takes : Payload → Bool) where
  -- `for ... in windows.items()`, with the exception of a `send_metrics` caught in each turn
  unfoldable pub push_all : ℤ → Dict AgentWindow → List Payload
  unfolding metrics_payload
  push_all now [] = []
  push_all now ((terminal_id, window) ∷ rest) =
      let message =
        metrics_payload node_id terminal_id window.idle_seconds window.tokens_used now in
      let later = push_all now rest in if takes message then message ∷ later else later

  -- the loop wakes up, if its sleep is over; `windows`: the registry at that time
  unfoldable pub wake : ℤ × Dict AgentWindow → MetricsReporter → MetricsReporter
  unfolding push_all
  wake (now, windows) r = elim r.task [
    | none ↦ r
    | some due ↦
        if leb_ℤ due now
        then record r { sent = r.sent ++ push_all now windows; task = some (now +ℤ r.interval) }
        else r
  ]

  unfoldable pub wakes : List (ℤ × Dict AgentWindow) → MetricsReporter → MetricsReporter
  unfolding wake
  wakes [] r = r
  wakes (w ∷ ws) r = wakes ws (wake w r)

  push_all_lem :
      (now : ℤ) (windows : Dict AgentWindow)
      → push_all now windows ≡ keep takes (report node_id now windows)
  unfolding push_all report
  push_all_lem now [] = refl
  push_all_lem now ((id, w) ∷ rest) =
      elim (Bool-cases (takes (metrics_payload node_id id w.idle_seconds w.tokens_used now))) [
        | inl e ↦ rw e (
            ap (λ ms. metrics_payload node_id id w.idle_seconds w.tokens_used now ∷ ms)
              (push_all_lem now rest))
        | inr e ↦ rw e (push_all_lem now rest)
      ]

  wake_due :
      (now due : ℤ) (windows : Dict AgentWindow) (r : MetricsReporter)
      → r.task ≡ some due
      → leb_ℤ due now ≡ true
      → wake (now, windows) r
        ≡ record r { sent = r.sent ++ push_all now windows; task = some (now +ℤ r.interval) }
  unfolding wake
  wake_due now due windows r h k = ground (arith, h, k)

  wakes_stopped :
      (ws : List (ℤ × Dict AgentWindow)) (r : MetricsReporter) → wakes ws (stop r) ≡ stop r
  unfolding wakes stop
  wakes_stopped [] r = refl
  wakes_stopped (w ∷ ws) r = wakes_stopped ws r

  -- A round of the reporter whose time has come sends the report of every open window that the connection takes, in
  -- order, whatever it refuses; the next is an interval later. A stopped reporter sends nothing at any time.
  wake_lem :
      (now due : ℤ) (windows : Dict AgentWindow) (r : MetricsReporter)
      (ws : List (ℤ × Dict AgentWindow))
      → r.task ≡ some due
      → leb_ℤ due now ≡ true
      → ((wake (now, windows) r).sent ≡ r.sent ++ keep takes (report node_id now windows))
        × ((wake (now, windows) r).task ≡ some (now +ℤ r.interval))
        × (wakes ws (stop r) ≡ stop r)
  wake_lem now due windows r ws h k =
      let run = wake_due now due windows r h k in
      (
        ap (λ r. r.sent) run ∙ ap (λ ms. r.sent ++ ms) (push_all_lem now windows),
        ap (λ r. r.task) run,
        wakes_stopped ws r,
      )
