-- ===== src/State/Diagram.antt =====
-- The life of a scenario as a diagram (README, section 5.1), and the table of
-- state/scenario-states.ts against it.
use dead_switch.Common.{
  String, true, false, ◌≡◌, refl, subst, inl, inr, List, [], ◌∷◌, some, some_inj, Bool-cases,
  str_eq,
}
use dead_switch.Schema.{ScenarioState, includes, state_eq, state_eq→≡}
use dead_switch.State.Table.{
  ScenarioTransition, scenario_transitions, lookup_transition, is_terminal_scenario,
}

-- The states from which a check-in brings a scenario back.
pub data IsRecoverable : ScenarioState → Type 0 where
  incident : IsRecoverable ScenarioState.incident_pending
  escalation : IsRecoverable ScenarioState.escalation_in_progress
  grace : IsRecoverable ScenarioState.grace_period

-- The states in which an armed scenario has not yet been released.
pub data IsLive : ScenarioState → Type 0 where
  armed : IsLive ScenarioState.armed
  unanswered : {s : ScenarioState} → IsRecoverable s → IsLive s

infix 40 ◌⟶◌
pub data ◌⟶◌ : ScenarioState → ScenarioState → Type 0 where
  arming : ScenarioState.draft ⟶ ScenarioState.armed
  missing : ScenarioState.armed ⟶ ScenarioState.incident_pending
  escalating : ScenarioState.incident_pending ⟶ ScenarioState.escalation_in_progress
  waiting : ScenarioState.escalation_in_progress ⟶ ScenarioState.grace_period
  releasing : ScenarioState.grace_period ⟶ ScenarioState.release_in_progress
  completing : ScenarioState.release_in_progress ⟶ ScenarioState.released
  killing : ScenarioState.release_in_progress ⟶ ScenarioState.aborted
  recovering : {s : ScenarioState} → IsRecoverable s → s ⟶ ScenarioState.armed
  aborting : {s : ScenarioState} → IsLive s → s ⟶ ScenarioState.aborted
  expiring : {s : ScenarioState} → IsLive s → s ⟶ ScenarioState.expired

infix 40 ◌⟶*◌
pub data ◌⟶*◌ : ScenarioState → ScenarioState → Type 0 where
  here : {s : ScenarioState} → s ⟶* s
  next : {s t u : ScenarioState} → s ⟶ t → t ⟶* u → s ⟶* u

pub ⟶*-trans : {s t u : ScenarioState} → s ⟶* t → t ⟶* u → s ⟶* u
⟶*-trans here q = q
⟶*-trans (next e p) q = next e (⟶*-trans p q)

ruleset edges = (
  arming, missing, escalating, waiting, releasing, completing, killing, recovering, aborting,
  expiring, incident, escalation, grace, armed, unanswered,
)

-- Each state that an entry lists has an edge of the diagram to the entry's target.
abbrev pub Sources : List ScenarioState → ScenarioState → Type 0
Sources [] t = Unit {0}
Sources (s ∷ ss) t = (s ⟶ t) × Sources ss t

abbrev Follows : List (String × ScenarioTransition) → Type 0
Follows [] = Unit {0}
Follows ((k, t) ∷ ts) = Sources t.from t.to × Follows ts

-- `_` stands for the parts that are decided by the rules of the diagram.
table-Follows : Follows scenario_transitions
unfolding scenario_transitions
table-Follows = search edges depth 9

pub Sources-includes :
    (ss : List ScenarioState) (s t : ScenarioState) → Sources ss t → includes ss s ≡ true → s ⟶ t
unfolding includes
Sources-includes [] s t h i = cc
Sources-includes (x ∷ ss) s t h i = elim (Bool-cases (state_eq x s)) [
  | inl e ↦ subst (λ y. y ⟶ t) (state_eq→≡ x s e) h.0
  | inr e ↦ Sources-includes ss s t h.1 (rw e at i)
]

lookup-Sources :
    (key : String) (ts : List (String × ScenarioTransition)) (t : ScenarioTransition)
    → Follows ts
    → lookup_transition key ts ≡ some t
    → Sources t.from t.to
unfolding lookup_transition
lookup-Sources key [] t h e = cc
lookup-Sources key ((k, u) ∷ ts) t h e = elim (Bool-cases (str_eq k key)) [
  | inl hit ↦ subst (λ (v : ScenarioTransition). Sources v.from v.to) (some_inj (rw hit at e)) h.0
  | inr miss ↦ lookup-Sources key ts t h.1 (rw miss at e)
]

-- The entry of a key leads from each of its sources along an edge of the diagram.
pub transition-Sources :
    (key : String) (t : ScenarioTransition)
    → lookup_transition key scenario_transitions ≡ some t
    → Sources t.from t.to
transition-Sources key t e = lookup-Sources key scenario_transitions t table-Follows e

-- No edge leaves a terminal state.
pub ⟶-source : {s t : ScenarioState} → s ⟶ t → is_terminal_scenario s ≡ false
unfolding is_terminal_scenario
⟶-source arming = refl
⟶-source missing = refl
⟶-source escalating = refl
⟶-source waiting = refl
⟶-source releasing = refl
⟶-source completing = refl
⟶-source killing = refl
⟶-source (recovering incident) = refl
⟶-source (recovering escalation) = refl
⟶-source (recovering grace) = refl
⟶-source (aborting armed) = refl
⟶-source (aborting (unanswered incident)) = refl
⟶-source (aborting (unanswered escalation)) = refl
⟶-source (aborting (unanswered grace)) = refl
⟶-source (expiring armed) = refl
⟶-source (expiring (unanswered incident)) = refl
⟶-source (expiring (unanswered escalation)) = refl
⟶-source (expiring (unanswered grace)) = refl

pub ⟶*-terminal : {s t : ScenarioState} → s ⟶* t → is_terminal_scenario s ≡ true → t ≡ s
⟶*-terminal here h = refl
⟶*-terminal (next e p) h = cc (⟶-source e)
