-- ===== src/State/Lifecycle.antt =====
-- The scenario table over time, and StateMachineService (state/state.service.ts) against the diagram.
use dead_switch.Common.{
  subst, sym, String, true, false, ◌≡◌, refl, ◌∙◌, inl, inr, List, [], ◌∷◌, Option, Bool-cases,
  update_many, Any, &&-right,
}
use dead_switch.Schema.{ScenarioState, Scenario}
use dead_switch.World.{Db}
use dead_switch.Effect.{modify}
use dead_switch.Effect.Steps.{
  Preorder, Steps, Steps-bind, Steps-gets, Steps-modify, Steps-pure, Steps-require, Steps-then,
  Steps-or_throw, Steps-or_throw_bind, steps_rules,
}
use dead_switch.State.Table.{is_terminal_scenario}
use dead_switch.State.Diagram.{
  Sources, ◌⟶◌, arming, missing, escalating, waiting, releasing, completing, killing, recovering,
  aborting, expiring, ◌⟶*◌, here, next, ⟶*-trans, ⟶*-terminal, Sources-includes, transition-Sources,
}
use dead_switch.State.Service.{
  Extra, assign, matches, set_scenarios, update_scenarios, check_after, transition,
}

-- Rows stay in place and follow the diagram; a row may be added that started as a draft, and only
-- drafts are removed.
pub data Evolves : List Scenario → List Scenario → Type 0 where
  nil : Evolves [] []
  keeps :
      {s t : Scenario} {ss ts : List Scenario}
      → t.id ≡ s.id
      → s.state ⟶* t.state
      → Evolves ss ts
      → Evolves (s ∷ ss) (t ∷ ts)
  drops :
      {s : Scenario} {ss ts : List Scenario}
      → s.state ≡ ScenarioState.draft
      → Evolves ss ts
      → Evolves (s ∷ ss) ts
  adds :
      {t : Scenario} {ss ts : List Scenario}
      → ScenarioState.draft ⟶* t.state
      → Evolves ss ts
      → Evolves ss (t ∷ ts)

pub Evolves-refl : (ss : List Scenario) → Evolves ss ss
Evolves-refl [] = nil
Evolves-refl (s ∷ ss) = keeps refl here (Evolves-refl ss)

no_way_to_draft : {s t : ScenarioState} → s ⟶ t → t ≡ ScenarioState.draft → ⊥
no_way_to_draft arming h = cc
no_way_to_draft missing h = cc
no_way_to_draft escalating h = cc
no_way_to_draft waiting h = cc
no_way_to_draft releasing h = cc
no_way_to_draft completing h = cc
no_way_to_draft killing h = cc
no_way_to_draft (recovering _) h = cc
no_way_to_draft (aborting _) h = cc
no_way_to_draft (expiring _) h = cc

⟶*-draft : {s t : ScenarioState} → s ⟶* t → t ≡ ScenarioState.draft → s ≡ ScenarioState.draft
⟶*-draft here h = h
⟶*-draft (next e p) h = absurd (no_way_to_draft e (⟶*-draft p h))

pub Evolves-trans : {ss ts us : List Scenario} → Evolves ss ts → Evolves ts us → Evolves ss us
Evolves-trans nil q = q
Evolves-trans (drops d p) q = drops d (Evolves-trans p q)
Evolves-trans (keeps i e p) (keeps j f q) = keeps (j ∙ i) (⟶*-trans e f) (Evolves-trans p q)
Evolves-trans (keeps i e p) (drops d q) = drops (⟶*-draft e d) (Evolves-trans p q)
Evolves-trans (keeps i e p) (adds d q) = adds d (Evolves-trans (keeps i e p) q)
Evolves-trans (adds c p) (keeps j f q) = adds (⟶*-trans c f) (Evolves-trans p q)
Evolves-trans (adds c p) (drops d q) = Evolves-trans p q
Evolves-trans (adds c p) (adds d q) = adds d (Evolves-trans (adds c p) q)

-- A row in a terminal state is still there, in that state.
abbrev pub Stands : String → ScenarioState → Scenario → Type 0
Stands id s row = (row.id ≡ id) × (row.state ≡ s)

not_terminal_draft : {s : ScenarioState} → s ≡ ScenarioState.draft → is_terminal_scenario s ≡ false
unfolding is_terminal_scenario
not_terminal_draft e = rw e

pub Evolves-Stands :
    {ss ts : List Scenario} (id : String) (st : ScenarioState)
    → is_terminal_scenario st ≡ true
    → Evolves ss ts
    → Any (Stands id st) ss
    → Any (Stands id st) ts
Evolves-Stands id st h nil a = a
Evolves-Stands id st h (keeps i e p) (inl (j, f)) = inl (i ∙ j, ⟶*-terminal e (rw f h) ∙ f)
Evolves-Stands id st h (keeps i e p) (inr a) = inr (Evolves-Stands id st h p a)
Evolves-Stands id st h (drops d p) (inl (j, f)) = absurd (cc (not_terminal_draft d, f))
Evolves-Stands id st h (drops d p) (inr a) = Evolves-Stands id st h p a
Evolves-Stands id st h (adds d p) a = inr (Evolves-Stands id st h p a)

-- The compare-and-swap of `updateMany` moves rows along edges only, whatever it finds.
pub update_many-Evolves :
    (id : String) (from : List ScenarioState) (to : ScenarioState) (extra : Extra)
    → Sources from to
    → (ss : List Scenario) → Evolves ss (update_many (matches id from) (assign to extra) ss)
unfolding update_many matches assign
update_many-Evolves id from to extra h [] = nil
update_many-Evolves id from to extra h (s ∷ ss) = elim (Bool-cases (matches id from s)) [
  | inl hit ↦ rw hit (
      keeps refl (next (Sources-includes from s.state to h (&&-right _ _ hit)) here)
        (update_many-Evolves id from to extra h ss))
  | inr miss ↦ rw miss (keeps refl here (update_many-Evolves id from to extra h ss))
]

unfoldable pub lifecycle : Preorder
lifecycle = record {
  rel = λ d e. Evolves d.scenarios e.scenarios;
  reflexive = λ d. Evolves-refl d.scenarios;
  transitive = λ a b c p q. Evolves-trans p q;
  serial_free = λ d n. Evolves-refl d.scenarios;
}

pub update_scenarios-Steps :
    (id : String) (from : List ScenarioState) (to : ScenarioState) (extra : Extra)
    → Sources from to
    → Steps lifecycle (update_scenarios id from to extra)
unfolding update_scenarios lifecycle set_scenarios
update_scenarios-Steps id from to extra h = Steps-bind _ _ (Steps-gets _) λ n.
    Steps-bind _ _ (Steps-modify _ λ d. update_many-Evolves id from to extra h d.scenarios)
      λ _. Steps-pure n

check_after-Steps : {P : Preorder} (o : Option Scenario) → Steps P (check_after o)
unfolding check_after
check_after-Steps o = search steps_rules depth 8

-- `transition` moves scenarios along the diagram, with any key and any extra columns, and also
-- where it throws after its write.
pub transition-Steps : (id key : String) (extra : Extra) → Steps lifecycle (transition id key extra)
unfolding transition
transition-Steps id key extra = Steps-or_throw_bind _ _ _ λ t e.
    Steps-then _ _ (Steps-require _ _) (
      Steps-bind _ _ (Steps-gets _) λ found. Steps-bind _ _ (Steps-or_throw _ _) λ before.
        Steps-then _ _ (Steps-require _ _) (
          Steps-bind _ _ (update_scenarios-Steps id t.from t.to extra (transition-Sources key t e))
            λ n. (search (steps_rules, check_after-Steps) depth 9)))

-- A statement on other tables.
pub Steps-frame :
    (f : Db → Db) → ((d : Db) → (f d).scenarios ≡ d.scenarios) → Steps lifecycle (modify f)
unfolding lifecycle
Steps-frame f h =
    Steps-modify f λ d. subst (λ ss. Evolves d.scenarios ss) (sym (h d)) (Evolves-refl d.scenarios)
