-- ===== src/State/Outcome.antt =====
-- StateMachineService.transition (state/state.service.ts), branch by branch.
use dead_switch.Common.{
  String, Bool, true, false, ◌||◌, ◌≡◌, refl, sym, ap, ◌∙◌, List, [], ◌∷◌, Option, none, some,
  is_some, inl, inr, Bool-cases, count_where, update_many, count_where-both_one,
  count_where-both_fails, update_many-none, find_first-update_many,
}
use dead_switch.Schema.{ScenarioState, Scenario, state_eq, includes, Error, transition_denied}
use dead_switch.World.{Db, World}
use dead_switch.Effect.{
  done, fail, pure, throw, ◌>>=◌, gets, modify, require, or_throw, ◌>>◌, >>=-eq-done,
}
use dead_switch.State.Table.{
  ScenarioTransition, scenario_transitions, lookup_transition, is_terminal_scenario, any_terminal,
}
use dead_switch.State.Diagram.{Sources, ⟶-source, Sources-includes, transition-Sources}
use dead_switch.State.Service.{
  Extra, assign, matches, has_id, set_scenarios, find_scenario, update_scenarios, same, check_after,
  transition,
}

-- I6, I7 and I8: an armed scenario has a time of arming, and the times of release and of abortion
-- are set in exactly the states that bear those names.
pub record IsCoupled (s : Scenario) : Type 0 where
  pub armed : (state_eq s.state ScenarioState.draft || is_some s.armed_at) ≡ true
  pub released : same (state_eq s.state ScenarioState.released) (is_some s.released_at) ≡ true
  pub aborted : same (state_eq s.state ScenarioState.aborted) (is_some s.aborted_at) ≡ true

check_after-done : (s : Scenario) (w : World) → IsCoupled s → check_after (some s) w ≡ done tt w
unfolding check_after ◌>>=◌ or_throw require
check_after-done s w c = rw (c.armed, c.released, c.aborted)

any_terminal-Sources :
    (ss : List ScenarioState) (t : ScenarioState) → Sources ss t → any_terminal ss ≡ false
unfolding any_terminal
any_terminal-Sources [] t h = refl
any_terminal-Sources (s ∷ ss) t h = rw (⟶-source h.0) (any_terminal-Sources ss t h.1)

-- The scenario `id` has exactly one row, `s`.
pub record IsRow (id : String) (s : Scenario) (db : Db) : Type 0 where
  pub found : find_scenario id db ≡ some s
  pub unique : count_where (has_id id) db.scenarios ≡ 1

abbrev pub moved : String → ScenarioTransition → Extra → Db → Db
moved id t extra db = set_scenarios (update_many (matches id t.from) (assign t.to extra)) db

find_moved :
    (id : String) (t : ScenarioTransition) (extra : Extra) (db : Db) (s : Scenario)
    → IsRow id s db
    → includes t.from s.state ≡ true
    → find_scenario id (moved id t extra db) ≡ some (assign t.to extra s)
unfolding find_scenario set_scenarios matches
find_moved id t extra db s row h =
    find_first-update_many (has_id id) (λ r. includes t.from r.state) (assign t.to extra)
      db.scenarios s (λ x. unfold has_id assign in refl) row.found h

count_matches-one :
    (id : String) (t : ScenarioTransition) (db : Db) (s : Scenario)
    → IsRow id s db
    → includes t.from s.state ≡ true
    → count_where (matches id t.from) db.scenarios ≡ 1
unfolding find_scenario matches
count_matches-one id t db s row h =
    count_where-both_one (has_id id) (λ r. includes t.from r.state) db.scenarios s row.found
      row.unique h

count_matches-zero :
    (id : String) (t : ScenarioTransition) (db : Db) (s : Scenario)
    → IsRow id s db
    → includes t.from s.state ≡ false
    → count_where (matches id t.from) db.scenarios ≡ 0
unfolding find_scenario matches
count_matches-zero id t db s row h =
    count_where-both_fails (has_id id) (λ r. includes t.from r.state) db.scenarios s row.found
      row.unique h

update_scenarios_lem :
    (id : String) (t : ScenarioTransition) (extra : Extra) (w : World)
    → update_scenarios id t.from t.to extra w
      ≡ done
          (count_where (matches id t.from) w.db.scenarios)
          (record w { db = moved id t extra w.db })
unfolding update_scenarios ◌>>=◌ gets modify pure
update_scenarios_lem id t extra w = refl

-- With one row in a source state, whose columns are coupled after the write, `transition` commits:
-- it answers with the states before and after, and changes that row only.
pub transition-done :
    (id key : String) (extra : Extra) (t : ScenarioTransition) (s : Scenario) (w : World)
    → lookup_transition key scenario_transitions ≡ some t
    → IsRow id s w.db
    → includes t.from s.state ≡ true
    → IsCoupled (assign t.to extra s)
    → (transition id key extra w ≡ done (s.state, t.to) (record w { db = moved id t extra w.db }))
      × (find_scenario id (moved id t extra w.db) ≡ some (assign t.to extra s))
unfolding transition ◌>>=◌ gets require or_throw pure
transition-done id key extra t s w look row h c =
    let sources = transition-Sources key t look in
    let after = find_moved id t extra w.db s row h in
    (
      rw
          (
            look,
            any_terminal-Sources t.from t.to sources,
            row.found,
            ⟶-source (Sources-includes t.from s.state t.to sources h),
            update_scenarios_lem id t extra w,
          )
          (rw (count_matches-one id t w.db s row h, after)
            (rw (
              check_after-done (assign t.to extra s) (record w { db = moved id t extra w.db }) c))),
      after,
    )

unmoved :
    (id : String) (t : ScenarioTransition) (extra : Extra) (w : World)
    → count_where (matches id t.from) w.db.scenarios ≡ 0
    → record w { db = moved id t extra w.db } ≡ w
unfolding set_scenarios
unmoved id t extra w zero = rw (
    update_many-none (matches id t.from) (matches id t.from) (assign t.to extra) w.db.scenarios
      zero)

-- Where the one row is not in a source state, `transition` is denied and changes nothing.
pub transition-denied :
    (id key : String) (extra : Extra) (t : ScenarioTransition) (s : Scenario) (w : World)
    → lookup_transition key scenario_transitions ≡ some t
    → IsRow id s w.db
    → includes t.from s.state ≡ false
    → transition id key extra w ≡ fail (transition_denied key t.from (some s.state)) w
unfolding transition ◌>>=◌ gets require or_throw pure throw
transition-denied id key extra t s w look row h =
    let sources = transition-Sources key t look in
    let zero = count_matches-zero id t w.db s row h in
    elim (Bool-cases (is_terminal_scenario s.state)) [
      | inl final ↦ rw (look, any_terminal-Sources t.from t.to sources, row.found, final)
      | inr live ↦
          rw
            (
              look,
              any_terminal-Sources t.from t.to sources,
              row.found,
              live,
              update_scenarios_lem id t extra w,
              zero,
            )
            (ap (fail (transition_denied key t.from (some s.state))) (unmoved id t extra w zero))
    ]

checks-eq-done :
    (a b c : Bool) (x y z : Error) (w : World) {u : Unit {0}} {w' : World}
    → (require a x >> (require b y >> require c z)) w ≡ done u w'
    → (a ≡ true) × (b ≡ true) × (c ≡ true) × (w' ≡ w)
unfolding require throw pure ◌>>=◌
checks-eq-done true true true x y z w h = (refl, refl, refl, cc)
checks-eq-done true true false x y z w h = cc
checks-eq-done true false c x y z w h = cc
checks-eq-done false b c x y z w h = cc

check_after-eq-done :
    (o : Option Scenario) (w : World) {u : Unit {0}} {w' : World}
    → check_after o w ≡ done u w'
    → (s : Scenario) × (o ≡ some s) × IsCoupled s × (w' ≡ w)
unfolding check_after or_throw throw pure ◌>>=◌
check_after-eq-done none w h = cc
check_after-eq-done (some s) w h =
    let (a, b, c, e) = checks-eq-done _ _ _ _ _ _ w h in
    (s, refl, record { armed = a; released = b; aborted = c }, e)

gets-eq-done :
    {A : Type 0} (f : Db → A) (w : World) {a : A} {w' : World}
    → gets f w ≡ done a w'
    → (f w.db ≡ a) × (w' ≡ w)
unfolding gets
gets-eq-done f w h = (cc, cc)

pure-eq-done : {A : Type 0} (x : A) (w : World) {a : A} {w' : World} → pure x w ≡ done a w' → w ≡ w'
unfolding pure
pure-eq-done x w h = cc

-- The last three statements of `transition`.
post_check-eq-done :
    (id : String) (x : ScenarioState × ScenarioState) (w : World)
    {r : ScenarioState × ScenarioState} {w' : World}
    → (gets (find_scenario id) >>= λ after. check_after after >> pure x) w ≡ done r w'
    → (s : Scenario) × (find_scenario id w'.db ≡ some s) × IsCoupled s
post_check-eq-done id x w h =
    let (after, w1, e1, h1) =
      >>=-eq-done (gets (find_scenario id)) (λ after. check_after after >> pure x) w h in
    let (u, w2, e2, h2) = >>=-eq-done (check_after after) (λ _. pure x) w1 h1 in
    let (s, there, coupled, same2) = check_after-eq-done after w1 e2 in
    let (asked, same1) = gets-eq-done (find_scenario id) w e1 in
    (
      s,
      ap (λ (v : World). find_scenario id v.db) (sym (pure-eq-done x w2 h2) ∙ (same2 ∙ same1))
          ∙ (asked ∙ there),
      coupled,
    )

-- Whatever the table holds, a committed transition leaves its scenario coupled.
pub transition-IsCoupled :
    (id key : String) (extra : Extra) (w : World) {r : ScenarioState × ScenarioState} {w' : World}
    → transition id key extra w ≡ done r w'
    → (s : Scenario) × (find_scenario id w'.db ≡ some s) × IsCoupled s
unfolding transition
transition-IsCoupled id key extra w h =
    let (t, w1, _, h1) = >>=-eq-done _ _ w h in
    let (_, w2, _, h2) = >>=-eq-done _ _ w1 h1 in
    let (found, w3, _, h3) = >>=-eq-done _ _ w2 h2 in
    let (before, w4, _, h4) = >>=-eq-done _ _ w3 h3 in
    let (_, w5, _, h5) = >>=-eq-done _ _ w4 h4 in
    let (n, w6, _, h6) = >>=-eq-done _ _ w5 h5 in
    let (_, w7, _, h7) = >>=-eq-done _ _ w6 h6 in post_check-eq-done id (before.state, t.to) w7 h7
