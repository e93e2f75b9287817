-- ===== src/Releases/Claim.antt =====
-- ReleaseActionExecutor.claim (releases/release-action-executor.service.ts) on an open action.
use dead_switch.Common.{
  ℕ, ◌≡◌, refl, ◌∙◌, String, true, false, some, none, count_where, update_many,
  count_where-both_one, count_where-both_fails, update_many-none, find_first-update_many,
  find_first-holds, count_where-update_many, str_eq→≡, arith,
}
use dead_switch.Schema.{ReleaseActionState, ReleaseAction, Release, Scenario, action_includes}
use dead_switch.World.{Db, World}
use dead_switch.Effect.{done, pure, ◌>>=◌, gets, clock, modify, transaction, with_option, or_throw}
use dead_switch.State.Service.{find_scenario}
use dead_switch.Releases.Executor.{
  finished, claimable, is_action, find_action, action_in, assign_action, set_actions, update_action,
  find_release, is_canceled, claimed_row, claim_live, claim_open, claim,
}

-- The action `id` has exactly one row, and its release goes on.
pub record IsOpen (id : String) (a : ReleaseAction) (r : Release) (s : Scenario) (db : Db)
    : Type 0 where
  pub found : find_action id db ≡ some a
  pub unique : count_where (is_action id) db.actions ≡ 1
  pub release : find_release a.release_id db ≡ some r
  pub scenario : find_scenario r.scenario_id db ≡ some s
  pub live : is_canceled r s ≡ false

abbrev pub claimed : ℕ → ReleaseAction → ReleaseAction
claimed now = assign_action ReleaseActionState.sending (claimed_row now)

abbrev pub after_claim : String → ℕ → Db → Db
after_claim id now db = set_actions (update_many (action_in id claimable) (claimed now)) db

update_action_lem :
    (id : String) (now : ℕ) (w : World)
    → update_action id claimable ReleaseActionState.sending (claimed_row now) w
      ≡ done
          (count_where (action_in id claimable) w.db.actions)
          (record w { db = after_claim id now w.db })
unfolding update_action ◌>>=◌ gets modify pure
update_action_lem id now w = refl

find_claimed :
    (id : String) (now : ℕ) (db : Db) (a : ReleaseAction)
    → find_action id db ≡ some a
    → action_includes claimable a.state ≡ true
    → find_action id (after_claim id now db) ≡ some (claimed now a)
unfolding find_action set_actions action_in
find_claimed id now db a h c =
    find_first-update_many (is_action id) (λ x. action_includes claimable x.state) (claimed now)
      db.actions a (λ x. unfold is_action assign_action in refl) h c

claimable-finished :
    (s : ReleaseActionState)
    → action_includes claimable s ≡ true
    → action_includes finished s ≡ false
unfolding action_includes
claimable-finished s h = ground arith

claim_live-done :
    (id : String) (a : ReleaseAction) (r : Release) (s : Scenario) (w : World)
    → IsOpen id a r s w.db
    → action_includes claimable a.state ≡ true
    → claim_live id r s w
      ≡ done (some (claimed w.now a, r, s)) (record w { db = after_claim id w.now w.db })
unfolding claim_live ◌>>=◌ clock gets or_throw pure
claim_live-done id a r s w o c =
    let one : count_where (action_in id claimable) w.db.actions ≡ 1 =
      unfold action_in in
      count_where-both_one (is_action id) (λ x. action_includes claimable x.state) w.db.actions a
        (unfold find_action in o.found) o.unique c in
    rw (update_action_lem id w.now w, one, find_claimed id w.now w.db a o.found c)

own_id : (id : String) (a : ReleaseAction) (db : Db) → find_action id db ≡ some a → a.id ≡ id
unfolding find_action is_action
own_id id a db h = str_eq→≡ _ _ (find_first-holds (is_action id) db.actions a h)

claim_open-live :
    (id : String) (a : ReleaseAction) (r : Release) (s : Scenario) (w : World)
    → IsOpen id a r s w.db
    → claim_open a w ≡ claim_live id r s w
unfolding claim_open ◌>>=◌ gets or_throw pure
claim_open-live id a r s w o = rw (o.release, o.scenario, o.live, own_id id a w.db o.found)

claim-claimable :
    (id : String) (a : ReleaseAction) (r : Release) (s : Scenario) (w : World)
    → IsOpen id a r s w.db
    → action_includes claimable a.state ≡ true
    → claim id w ≡ done (some (claimed w.now a, r, s)) (record w { db = after_claim id w.now w.db })
unfolding claim transaction ◌>>=◌ gets with_option pure
claim-claimable id a r s w o c = rw (
  o.found,
  claimable-finished a.state c,
  claim_open-live id a r s w o,
  claim_live-done id a r s w o c,
)

claim_live-none :
    (id : String) (a : ReleaseAction) (r : Release) (s : Scenario) (w : World)
    → IsOpen id a r s w.db
    → action_includes claimable a.state ≡ false
    → claim_live id r s w ≡ done none w
unfolding claim_live ◌>>=◌ clock gets or_throw pure set_actions
claim_live-none id a r s w o c =
    let zero : count_where (action_in id claimable) w.db.actions ≡ 0 =
      unfold action_in in
      count_where-both_fails (is_action id) (λ x. action_includes claimable x.state) w.db.actions a
        (unfold find_action in o.found) o.unique c in
    rw (
      update_action_lem id w.now w,
      zero,
      update_many-none (action_in id claimable) (action_in id claimable) (claimed w.now)
          w.db.actions zero,
    )

claim_sending :
    (id : String) (a : ReleaseAction) (r : Release) (s : Scenario) (w : World)
    → IsOpen id a r s w.db
    → a.state ≡ ReleaseActionState.sending
    → claim id w ≡ done none w
unfolding claim transaction ◌>>=◌ gets with_option pure
claim_sending id a r s w o e =
    let in_hand : action_includes claimable a.state ≡ false = unfold action_includes in rw e in
    let open_still : action_includes finished a.state ≡ false = unfold action_includes in rw e in
    rw (o.found, open_still, claim_open-live id a r s w o, claim_live-none id a r s w o in_hand)

after_claim-IsOpen :
    (id : String) (a : ReleaseAction) (r : Release) (s : Scenario) (db : Db) (now : ℕ)
    → IsOpen id a r s db
    → action_includes claimable a.state ≡ true
    → IsOpen id (claimed now a) r s (after_claim id now db)
unfolding set_actions find_release find_scenario assign_action
after_claim-IsOpen id a r s db now o c = record {
  found = find_claimed id now db a o.found c;
  unique =
      count_where-update_many (is_action id) (action_in id claimable) (claimed now) db.actions
        (λ x. unfold is_action in refl)
      ∙ o.unique;
  release = o.release;
  scenario = o.scenario;
  live = o.live;
}

-- A pending action, or one that failed for a time, whose release goes on is claimed: the executor
-- gets its row, now `sending` and with one attempt more. A claim right after it, at any instant,
-- gets nothing and changes nothing; and so does every claim in any world in which the one row of
-- the action is `sending` and its release is not canceled, whatever else has changed.
pub claim-exclusive :
    (id : String) (a a' : ReleaseAction) (r r' : Release) (s s' : Scenario) (w v : World) (t : ℕ)
    → IsOpen id a r s w.db
    → action_includes claimable a.state ≡ true
    → IsOpen id a' r' s' v.db
    → a'.state ≡ ReleaseActionState.sending
    → (claim id w
        ≡ done (some (claimed w.now a, r, s)) (record w { db = after_claim id w.now w.db }))
      × (let x = record w { now = t; db = after_claim id w.now w.db } in claim id x ≡ done none x)
      × (claim id v ≡ done none v)
claim-exclusive id a a' r r' s s' w v t o c o' e' = (
  claim-claimable id a r s w o c,
  claim_sending id (claimed w.now a) r s (record w { now = t; db = after_claim id w.now w.db })
      (after_claim-IsOpen id a r s w.db w.now o c) (unfold assign_action in refl),
  claim_sending id a' r' s' v o' e',
)
