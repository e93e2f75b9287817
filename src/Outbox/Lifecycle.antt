-- ===== src/Outbox/Lifecycle.antt =====
-- OutboxService (outbox/outbox.service.ts) against the scenario diagram.
use dead_switch.Common.{refl}
use dead_switch.Schema.{OutboxEvent, Error, unique_violation}
use dead_switch.Effect.{modify}
use dead_switch.Effect.Steps.{Preorder, Steps, Steps-pure, Steps-throw, steps_rules}
use dead_switch.Outbox.Service.{EnqueueSpec, append_outbox, create_event, ignore_duplicate, enqueue}
use dead_switch.State.Lifecycle.{lifecycle, Steps-frame}

append_outbox-Steps : (e : OutboxEvent) → Steps lifecycle (modify (append_outbox e))
unfolding append_outbox
append_outbox-Steps e = Steps-frame _ (λ d. refl)

ignore_duplicate-Steps : {P : Preorder} (e : Error) → Steps P (ignore_duplicate e)
unfolding ignore_duplicate
ignore_duplicate-Steps unique_violation = Steps-pure tt
ignore_duplicate-Steps e = Steps-throw e

create_event-Steps : (spec : EnqueueSpec) → Steps lifecycle (create_event spec)
unfolding create_event
create_event-Steps spec = search (steps_rules, append_outbox-Steps) depth 12

pub enqueue-Steps : (spec : EnqueueSpec) → Steps lifecycle (enqueue spec)
unfolding enqueue
enqueue-Steps spec = search (steps_rules, create_event-Steps, ignore_duplicate-Steps) depth 6
