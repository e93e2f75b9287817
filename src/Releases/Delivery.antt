-- ===== src/Releases/Delivery.antt =====
-- The life of a release action, ReleaseActionState of apps/api/prisma/schema.prisma, as a step
-- relation, and the table of actions over time.
use dead_switch.Common.{
  ◌≡◌, refl, sym, subst, ◌∙◌, String, true, false, List, [], ◌∷◌, inl, inr, Bool-cases, update_many,
  &&-right, Any, arith,
}
use dead_switch.Schema.{ReleaseActionState, ReleaseAction, action_includes}
use dead_switch.World.{Db}
use dead_switch.Effect.{modify}
use dead_switch.Effect.Steps.{Preorder, Steps, Steps-modify, Steps-bind, Steps-gets, Steps-pure}
use dead_switch.Releases.Executor.{
  action_in, assign_action, set_actions, update_action, finished, unfinished,
}

-- A step of an action: it is sent once claimed, and ends from there or before.
infix 40 ◌⇒◌
pub data ◌⇒◌ : ReleaseActionState → ReleaseActionState → Type 0 where
  claiming : ReleaseActionState.pending ⇒ ReleaseActionState.sending
  retrying : ReleaseActionState.failed_temporary ⇒ ReleaseActionState.sending
  executing : ReleaseActionState.sending ⇒ ReleaseActionState.executed
  losing : ReleaseActionState.sending ⇒ ReleaseActionState.sent_after_abort
  suppressing : ReleaseActionState.sending ⇒ ReleaseActionState.suppressed
  failing : ReleaseActionState.sending ⇒ ReleaseActionState.failed_temporary
  giving_up : ReleaseActionState.sending ⇒ ReleaseActionState.failed_permanent
  aborting :
      {s : ReleaseActionState}
      → action_includes unfinished s ≡ true
      → s ⇒ ReleaseActionState.aborted

infix 40 ◌⇒*◌
pub data ◌⇒*◌ : ReleaseActionState → ReleaseActionState → Type 0 where
  here : {s : ReleaseActionState} → s ⇒* s
  next : {s t u : ReleaseActionState} → s ⇒ t → t ⇒* u → s ⇒* u

⇒*-trans : {s t u : ReleaseActionState} → s ⇒* t → t ⇒* u → s ⇒* u
⇒*-trans here q = q
⇒*-trans (next e p) q = next e (⇒*-trans p q)

-- The rows keep their order and identifiers, and new ones start as pending.
pub data Delivers : List ReleaseAction → List ReleaseAction → Type 0 where
  nil : Delivers [] []
  keeps :
      {a b : ReleaseAction} {xs bs : List ReleaseAction}
      → b.id ≡ a.id
      → a.state ⇒* b.state
      → Delivers xs bs
      → Delivers (a ∷ xs) (b ∷ bs)
  adds :
      {b : ReleaseAction} {xs bs : List ReleaseAction}
      → ReleaseActionState.pending ⇒* b.state
      → Delivers xs bs
      → Delivers xs (b ∷ bs)

pub Delivers-refl : (xs : List ReleaseAction) → Delivers xs xs
Delivers-refl [] = nil
Delivers-refl (a ∷ xs) = keeps refl here (Delivers-refl xs)

pub Delivers-trans :
    {xs bs cs : List ReleaseAction} → Delivers xs bs → Delivers bs cs → Delivers xs cs
Delivers-trans nil q = q
Delivers-trans (keeps i e p) (keeps j f q) = keeps (j ∙ i) (⇒*-trans e f) (Delivers-trans p q)
Delivers-trans (keeps i e p) (adds f q) = adds f (Delivers-trans (keeps i e p) q)
Delivers-trans (adds e p) (keeps j f q) = adds (⇒*-trans e f) (Delivers-trans p q)
Delivers-trans (adds e p) (adds f q) = adds f (Delivers-trans (adds e p) q)

unfoldable pub delivery : Preorder
delivery = record {
  rel = λ d e. Delivers d.actions e.actions;
  reflexive = λ d. Delivers-refl d.actions;
  transitive = λ a b c p q. Delivers-trans p q;
  serial_free = λ d n. Delivers-refl d.actions;
}

-- A statement on other tables.
pub Steps-elsewhere :
    (f : Db → Db) → ((d : Db) → (f d).actions ≡ d.actions) → Steps delivery (modify f)
unfolding delivery
Steps-elsewhere f h =
    Steps-modify f λ d. subst (λ xs. Delivers d.actions xs) (sym (h d)) (Delivers-refl d.actions)

abbrev pub Leads : List ReleaseActionState → ReleaseActionState → Type 0
Leads from to = (s : ReleaseActionState) → action_includes from s ≡ true → s ⇒ to

update_many-Delivers :
    (id : String) (from : List ReleaseActionState) (to : ReleaseActionState)
    (f : ReleaseAction → ReleaseAction)
    → Leads from to
    → (xs : List ReleaseAction)
    → Delivers xs (update_many (action_in id from) (assign_action to f) xs)
unfolding update_many action_in assign_action
update_many-Delivers id from to f h [] = nil
update_many-Delivers id from to f h (a ∷ xs) = elim (Bool-cases (action_in id from a)) [
  | inl hit ↦ rw hit (
      keeps refl (next (h a.state (&&-right _ _ hit)) here)
        (update_many-Delivers id from to f h xs))
  | inr miss ↦ rw miss (keeps refl here (update_many-Delivers id from to f h xs))
]

pub update_action-Steps :
    (id : String) (from : List ReleaseActionState) (to : ReleaseActionState)
    (f : ReleaseAction → ReleaseAction)
    → Leads from to
    → Steps delivery (update_action id from to f)
unfolding update_action delivery set_actions
update_action-Steps id from to f h = Steps-bind _ _ (Steps-gets _) λ n.
    Steps-bind _ _ (Steps-modify _ λ d. update_many-Delivers id from to f h d.actions)
      λ _. Steps-pure n

-- No step leaves a finished action.
⇒-source : {s t : ReleaseActionState} → s ⇒ t → action_includes finished s ≡ false
unfolding action_includes
⇒-source claiming = refl
⇒-source retrying = refl
⇒-source executing = refl
⇒-source losing = refl
⇒-source suppressing = refl
⇒-source failing = refl
⇒-source giving_up = refl
⇒-source {s} (aborting u) = ground arith

⇒*-finished : {s t : ReleaseActionState} → s ⇒* t → action_includes finished s ≡ true → t ≡ s
⇒*-finished here h = refl
⇒*-finished (next e p) h = cc (⇒-source e)

abbrev pub Rests : String → ReleaseActionState → ReleaseAction → Type 0
Rests id s a = (a.id ≡ id) × (a.state ≡ s)

pub Delivers-Rests :
    {xs bs : List ReleaseAction} (id : String) (s : ReleaseActionState)
    → action_includes finished s ≡ true
    → Delivers xs bs
    → Any (Rests id s) xs
    → Any (Rests id s) bs
Delivers-Rests id s h nil a = a
Delivers-Rests id s h (keeps i e p) (inl (j, f)) = inl (i ∙ j, ⇒*-finished e (rw f h) ∙ f)
Delivers-Rests id s h (keeps i e p) (inr a) = inr (Delivers-Rests id s h p a)
Delivers-Rests id s h (adds e p) a = inr (Delivers-Rests id s h p a)
