-- ===== src/Admin/Control.antt =====
-- The approval of requests (AdminService.approveAndExecute, admin/admin.service.ts).
use dead_switch.Common.{
  ℕ, ◌<◌, ◌≡◌, ◌≢◌, refl, sym, ap, ◌∙◌, String, true, false, List, some, inl, inr, Option-cases,
  Bool-cases, ltb, ltb→lt, str_eq, str_eq→≡, str_eq_refl, ◌==◌, find_first, count_where,
  update_many, find_first-update, find_first-holds, template,
}
use dead_switch.Schema.{AdminRequest, AdminRequestKind, status_eq, conflict}
use dead_switch.World.{World, Db}
use dead_switch.Effect.{
  M, Outcome, done, fail, final, pure, throw, ◌>>=◌, ◌>>◌, gets, ask, clock, modify, require, when,
  or_throw, >>=-eq-done,
}
use dead_switch.Effect.Steps.{Steps, Steps-when}
use dead_switch.Audit.Service.{record_event}
use dead_switch.Admin.Kinds.{requires_dual_control}
use dead_switch.Admin.Snapshot.{snapshot}
use dead_switch.Admin.Service.{
  Reply, approve_found, is_request, find_request, set_requests, is_pending, execute_in_tx,
  roll_back, transaction_of, can_burn, approved_row, executed_row, execute_approved, pass_exit_gate,
  needs_exit_gate, expire_request, is_self_approval, approve_live, approve_and_execute,
  executed_payload, admin_entry, executed_reply,
}
use dead_switch.Admin.Frame.{
  requests, record_event-Steps, execute_in_tx-Steps, snapshot-Steps, pass_exit_gate-Steps,
}

-- The transaction, once the nonce has been burned.
carry_out : AdminRequest → String → ℕ → M Reply
carry_out req approver now = do
  execute_in_tx req.kind req.params approver
  modify (set_requests (update_many (is_request req.id) (executed_row now)))
  record_event (admin_entry "admin.request.executed" (executed_payload req approver))
  pure (executed_reply req.id)

burned : AdminRequest → String → World → World
burned req approver w = record w {
  db = set_requests (update_many (can_burn req) (approved_row approver w.now)) w.db;
}

-- What the transaction does to the rows of the requests.
closed : AdminRequest → String → ℕ → List AdminRequest → List AdminRequest
closed req approver now rs =
    update_many (is_request req.id) (executed_row now)
      (update_many (can_burn req) (approved_row approver now) rs)

carry_out-done :
    (req : AdminRequest) (approver : String) (now : ℕ) (w : World) {r : Reply} {w' : World}
    → carry_out req approver now w ≡ done r w'
    → w'.db.requests ≡ update_many (is_request req.id) (executed_row now) w.db.requests
unfolding carry_out requests modify set_requests ◌>>=◌ pure
carry_out-done req approver now w {r} {w'} h =
    let (_, v, first, rest) = >>=-eq-done (execute_in_tx req.kind req.params approver) _ w h in
    let kept : v.db.requests ≡ w.db.requests =
      ap (λ o. (final o).db.requests) (sym first)
      ∙ (execute_in_tx-Steps req.kind req.params approver).at w in
    let entry = admin_entry "admin.request.executed" (executed_payload req approver) in
    let closing : World = record v {
      db = set_requests (update_many (is_request req.id) (executed_row now)) v.db;
    } in
    let (_, u, second, last) = >>=-eq-done (record_event entry) _ closing rest in
    let same : u ≡ w' = cc in
    ap (λ (y : World). y.db.requests) (sym same)
    ∙ (ap (λ o. (final o).db.requests) (sym second)
        ∙ ((record_event-Steps entry).at closing
            ∙ ap (update_many (is_request req.id) (executed_row now)) kept))

execute_approved-done :
    (req : AdminRequest) (approver : String) (w : World) {r : Reply} {w' : World}
    → execute_approved req approver w ≡ done r w'
    → w'.db.requests ≡ closed req approver w.now w.db.requests
unfolding execute_approved ◌>>=◌ clock gets modify require throw pure carry_out closed set_requests
    update_many burned
execute_approved-done req approver w {r} {w'} h =
    elim (Bool-cases (count_where (can_burn req) w.db.requests == 1)) [
      | inl y ↦ carry_out-done req approver w.now (burned req approver w) (rw y at h)
      | inr n ↦ let k = (rw n at h) in cc
    ]

abbrev executed_by : AdminRequest → String → ℕ → AdminRequest
executed_by req approver now = executed_row now (approved_row approver now req)

find_request-closed :
    (req : AdminRequest) (approver : String) (now : ℕ) (db d : Db)
    → find_request req.id db ≡ some req
    → is_pending req ≡ true
    → d.requests ≡ closed req approver now db.requests
    → find_request req.id d ≡ some (executed_by req approver now)
unfolding find_request is_request closed
find_request-closed req approver now db d found p moved =
    let burns : can_burn req req ≡ true =
      unfold is_request in rw (p, str_eq_refl req.id, str_eq_refl req.approval_nonce) refl in
    let first =
      find_first-update (is_request req.id) (can_burn req) (approved_row approver now) db.requests
        req (λ x. unfold approved_row in unfold is_request in refl) found in
    let second =
      find_first-update (is_request req.id) (is_request req.id) (executed_row now)
        (update_many (can_burn req) (approved_row approver now) db.requests)
        (approved_row approver now req) (λ x. unfold executed_row in unfold is_request in refl)
        (rw burns at first) in
    let here : is_request req.id (approved_row approver now req) ≡ true =
      unfold approved_row in unfold is_request in str_eq_refl req.id in
    ap (find_first (is_request req.id)) moved ∙ (rw here at second)

rolled-eq-done :
    {A : Type 0} (kind : AdminRequestKind) (d : Db) (o : Outcome A) {a : A} {w' : World}
    → roll_back kind d o ≡ done a w'
    → o ≡ done a w'
rolled-eq-done kind d (done a w) h = h
rolled-eq-done kind d (fail e w) h = cc

-- The gates between the dual control and the transaction write no request.
through_gates : AdminRequest → String → M Reply
through_gates req approver = do
  when (needs_exit_gate req) (pass_exit_gate req approver)
  transaction_of req.kind (execute_approved req approver)

through_gates-done :
    (req : AdminRequest) (approver : String) (w : World) {r : Reply} {w' : World}
    → through_gates req approver w ≡ done r w'
    → (now : ℕ) × (w'.db.requests ≡ closed req approver now w.db.requests)
unfolding through_gates transaction_of requests
through_gates-done req approver w {r} {w'} h =
    let gate = when (needs_exit_gate req) (pass_exit_gate req approver) in
    let passes : Steps requests gate =
      Steps-when (needs_exit_gate req) _ (pass_exit_gate-Steps req approver) in
    let (_, v, first, rest) = >>=-eq-done gate _ w h in
    let kept : v.db.requests ≡ w.db.requests =
      ap (λ o. (final o).db.requests) (sym first) ∙ passes.at w in
    (
      v.now,
      execute_approved-done req approver v (rolled-eq-done req.kind v.db _ rest)
          ∙ ap (closed req approver v.now) kept,
    )

gates_of : AdminRequest → String → String → M Reply
gates_of req approver hash = do
  require (str_eq hash req.state_hash)
      (conflict "system state changed since request was created; resubmit")
  version ← ask (λ env. env.policy_version)
  require (str_eq version req.policy_version)
      (conflict "policy version changed since request was created; resubmit")
  through_gates req approver

gates_of-done :
    (req : AdminRequest) (approver hash : String) (w : World) {r : Reply} {w' : World}
    → gates_of req approver hash w ≡ done r w'
    → (hash ≡ req.state_hash)
      × (w.env.policy_version ≡ req.policy_version)
      × ((now : ℕ) × (w'.db.requests ≡ closed req approver now w.db.requests))
unfolding gates_of ◌>>=◌ require ask throw pure
gates_of-done req approver hash w h = elim (Bool-cases (str_eq hash req.state_hash)) [
  | inl y ↦ elim (Bool-cases (str_eq w.env.policy_version req.policy_version)) [
    | inl z ↦ (
      str_eq→≡ hash req.state_hash y,
      str_eq→≡ w.env.policy_version req.policy_version z,
      through_gates-done req approver w (rw (y, z) at h),
    )
    | inr n ↦ let k = (rw (y, n) at h) in cc
  ]
  | inr n ↦ let k = (rw n at h) in cc
]

approve_live-done :
    (req : AdminRequest) (approver : String) (w : World) {r : Reply} {w' : World}
    → approve_live req approver w ≡ done r w'
    → (is_self_approval req approver ≡ false)
      × ((v : World) × (snapshot w ≡ done req.state_hash v))
      × ((now : ℕ) × (w'.db.requests ≡ closed req approver now w.db.requests))
unfolding approve_live ◌>>=◌ require throw pure gates_of through_gates requests
approve_live-done req approver w {r} {w'} h = elim (Bool-cases (is_self_approval req approver)) [
  | inl y ↦ let k = (rw y at h) in cc
  | inr n ↦
      let (hash, v, first, rest) = >>=-eq-done snapshot (gates_of req approver) w (rw n at h) in
      let (same, _, (now, moved)) = gates_of-done req approver hash v rest in
      let kept : v.db.requests ≡ w.db.requests =
        ap (λ o. (final o).db.requests) (sym first) ∙ snapshot-Steps.at w in
      (n, (v, first ∙ ap (λ x. done x v) same), (now, moved ∙ ap (closed req approver now) kept))
]

-- The request that is found is the one named.
named : (id : String) (db : Db) (req : AdminRequest) → find_request id db ≡ some req → req.id ≡ id
unfolding find_request is_request
named id db req h = str_eq→≡ req.id id (find_first-holds (is_request id) db.requests req h)

dual_means_other :
    (req : AdminRequest) (approver : String)
    → is_self_approval req approver ≡ false
    → requires_dual_control req.kind req.params ≡ true
    → req.requested_by ≢ approver
dual_means_other req approver n d e =
    let same : str_eq req.requested_by approver ≡ true = rw e (str_eq_refl approver) in
    let k = (rw (d, same) at n) in cc

-- What an approval that succeeds has found and left.
pub record IsApproved (id approver : String) (w w' : World) : Type 0 where
  pub req : AdminRequest
  pub found : find_request id w.db ≡ some req
  pub was_pending : is_pending req ≡ true
  pub in_time : w.now < req.expires_at
  pub two_operators : requires_dual_control req.kind req.params ≡ true → req.requested_by ≢ approver
  pub same_state : (v : World) × (snapshot w ≡ done req.state_hash v)
  pub closed_at : ℕ
  pub now_executed :
      find_request id w'.db ≡ some (executed_row closed_at (approved_row approver closed_at req))

expire_request-fails :
    (id : String) (w : World) {r : Reply} {w' : World} → expire_request id w ≢ done r w'
unfolding expire_request ◌>>=◌ modify throw
expire_request-fails id w h = cc

approve_found-done :
    (id approver : String) (req : AdminRequest) (w : World) {r : Reply} {w' : World}
    → approve_found id approver req w ≡ done r w'
    → (is_pending req ≡ true) × (w.now < req.expires_at) × (approve_live req approver w ≡ done r w')
unfolding approve_found ◌>>=◌ require clock throw pure
approve_found-done id approver req w h = elim (Bool-cases (is_pending req)) [
  | inr n ↦ let k = (rw n at h) in cc
  | inl p ↦ elim (Bool-cases (ltb w.now req.expires_at)) [
    | inr n ↦ absurd (expire_request-fails id w (rw (p, n) at h))
    | inl y ↦ (p, ltb→lt w.now req.expires_at y, rw (p, y) at h)
  ]
]

approve_and_execute-found :
    (id approver : String) (w : World) {r : Reply} {w' : World}
    → approve_and_execute id approver w ≡ done r w'
    → (req : AdminRequest) × (find_request id w.db ≡ some req)
      × (approve_found id approver req w ≡ done r w')
unfolding approve_and_execute ◌>>=◌ gets or_throw throw pure
approve_and_execute-found id approver w h = elim (Option-cases (find_request id w.db)) [
  | inl n ↦ let k = (rw n at h) in cc
  | inr (req, found) ↦ (req, found, rw found at h)
]

-- An approval that succeeds was for a request that was pending and had not expired; where the
-- request needs two operators, the approver is not the one who made it; the digest of the state is
-- the one of the request; and the request is marked as executed by the approver.
pub approve_and_execute-IsApproved :
    (id approver : String) (w : World) {r : Reply} {w' : World}
    → approve_and_execute id approver w ≡ done r w'
    → IsApproved id approver w w'
approve_and_execute-IsApproved id approver w {r} {w'} h =
    let (req, found, h1) = approve_and_execute-found id approver w h in
    let (p, y, h2) = approve_found-done id approver req w h1 in
    let (other, state, (now, moved)) = approve_live-done req approver w h2 in
    let name = named id w.db req found in
    let there = ap (λ x. find_request x w.db) name ∙ found in
    record {
      req = req;
      found = found;
      was_pending = p;
      in_time = y;
      two_operators = dual_means_other req approver other;
      same_state = state;
      closed_at = now;
      now_executed =
          ap (λ x. find_request x w'.db) (sym name)
          ∙ find_request-closed req approver now w.db w'.db there p moved;
    }

-- An approval that has succeeded cannot be repeated, by anyone and at any instant: the request is
-- refused as executed, and nothing changes.
pub approve_and_execute-once :
    (id approver : String) (w : World) {r : Reply} {w' : World}
    → approve_and_execute id approver w ≡ done r w'
    → (anyone : String) (t : ℕ)
    → approve_and_execute id anyone (record w' { now = t })
      ≡ fail (conflict "request is executed") (record w' { now = t })
unfolding approve_and_execute approve_found ◌>>=◌ gets or_throw require throw pure executed_row
    status_eq template
approve_and_execute-once id approver w {r} {w'} h anyone t =
    let a = approve_and_execute-IsApproved id approver w h in
    let there = a.now_executed in rw there refl
