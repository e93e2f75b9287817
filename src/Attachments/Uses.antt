-- ===== src/Attachments/Uses.antt =====
-- The token of a download (AttachmentDownloadService.download, attachments/attachment-download.service.ts).
use dead_switch.Common.{
  ℕ, ◌+◌, ◌≤◌, ◌<◌, ◌≡◌, ◌≢◌, refl, sym, ap, subst, ◌∙◌, String, true, false, List, Option, none,
  some, is_some, inl, inr, Option-cases, Bool-cases, arith, ltb, ltb→lt, lt→ltb, leb, ◌==◌, str_eq,
  str_eq→≡, str_eq_refl, find_first, count_where, update_many, find_first-update,
}
use dead_switch.Schema.{Scenario, AttachmentAccessToken, end, Error, not_found, gone}
use dead_switch.World.{Env, World, Db}
use dead_switch.Effect.{
  M, Outcome, done, fail, final, pure, throw, continue, ◌>>=◌, ◌>>◌, gets, ask, clock, modify,
  or_throw, >>=-eq-done,
}
use dead_switch.Audit.Service.{Entry, record_event}
use dead_switch.Audit.Intact.{recorded, hash_for, record_event_lem}
use dead_switch.Safety.Capability.{attachment_access}
use dead_switch.Safety.Mode.{assert}
use dead_switch.Safety.Steady.{fixed, assert-fixed}
use dead_switch.Attachments.Service.{bundle_by_id}
use dead_switch.Attachments.Issuer.{has_index, set_tokens}
use dead_switch.Attachments.Download.{
  Access, DownloadResult, find_token, load_access, access_entry, record_denied, token_payload, deny,
  deny_expired, claimable_token, use_token, claim_use, check_token, deliver_file, attempt_download,
  download,
}
use dead_switch.Attachments.Frame.{tokens, record_event-Steps, assert-Steps, deliver_file-Steps}

recorded-now : (e : Entry) (w : World) (o : Option String) → (final (recorded e w o)).now ≡ w.now
recorded-now e w none = refl
recorded-now e w (some k) = refl

record_event-now : (e : Entry) (w : World) → (final (record_event e w)).now ≡ w.now
record_event-now e w =
    ap (λ o. (final o).now) (record_event_lem e w) ∙ recorded-now e w (hash_for e w)

load_access-done :
    (row : AttachmentAccessToken) (w : World) {a : Access} {w' : World}
    → load_access row w ≡ done a w'
    → (a.row ≡ row) × (w' ≡ w)
unfolding load_access ◌>>=◌ gets or_throw throw pure
load_access-done row w {a} {w'} h =
    elim (Option-cases (find_first (λ x. str_eq x.id row.attachment_id) w.db.attachments)) [
      | inl n ↦ let k = (rw n at h) in cc
      | inr (att, e) ↦ elim (Option-cases (bundle_by_id att.bundle_id w.db)) [
        | inl n ↦ let k = (rw (e, n) at h) in cc
        | inr (b, f) ↦
            elim (Option-cases
              (find_first (λ (s : Scenario). str_eq s.id b.scenario_id) w.db.scenarios)) [
                | inl n ↦ let k = (rw (e, f, n) at h) in cc
                | inr (s, g) ↦
                    let k = (rw (e, f, g) at h) in
                    let same : record {
                      row = row;
                      att = att;
                      user_id = s.user_id;
                      scenario_id = s.id;
                    }
                        ≡ a =
                      cc in
                    (ap (λ (x : Access). x.row) (sym same), cc)
              ]
      ]
    ]

deny-fails :
    {A : Type 0} (a : Access) (id reason : String) (e : Error) (w : World) {x : A} {w' : World}
    → deny a id reason e w ≢ done x w'
unfolding deny record_denied ◌>>=◌ throw
deny-fails a id reason e w {x} {w'} h = go _ h
  where
    go : (o : Outcome (Unit {0})) → continue o (λ _ v. fail e v) ≢ done x w'
    go (done u v) k = cc
    go (fail d v) k = cc

deny_expired-fails :
    {A : Type 0} (a : Access) (id : String) (w : World) {x : A} {w' : World}
    → deny_expired a id w ≢ done x w'
unfolding deny_expired ◌>>=◌ throw
deny_expired-fails a id w {x} {w'} h = go _ h
  where
    go : (o : Outcome (Unit {0})) → continue o (λ _ v. fail (gone "token expired") v) ≢ done x w'
    go (done u v) k = cc
    go (fail d v) k = cc

-- The token may be used for this attachment at this instant.
pub record IsUsable (row : AttachmentAccessToken) (attachment_id : String) (now : ℕ) : Type 0 where
  pub for_attachment : row.attachment_id ≡ attachment_id
  pub not_revoked : is_some row.revoked_at ≡ false
  pub not_expired : now < row.expires_at
  pub has_use : row.uses < row.max_uses

check_token-done :
    (a : Access) (raw id : String) (w : World) {u : Unit {0}} {w' : World}
    → check_token a raw id w ≡ done u w'
    → (w.env.argon2_verify a.row.token_hash raw ≡ true) × IsUsable a.row id w.now × (w' ≡ w)
unfolding check_token ◌>>=◌ ask clock pure
check_token-done a raw id w h = elim (Bool-cases (w.env.argon2_verify a.row.token_hash raw)) [
  | inr n ↦ absurd (deny-fails a id "token_hash_mismatch" not_found w (rw n at h))
  | inl v ↦ elim (Bool-cases (str_eq a.row.attachment_id id)) [
    | inr n ↦ absurd (deny-fails a id "scope_mismatch" _ w (rw (v, n) at h))
    | inl s ↦ elim (Bool-cases (is_some a.row.revoked_at)) [
      | inl r ↦ absurd (deny-fails a id "revoked" _ w (rw (v, s, r) at h))
      | inr r ↦ elim (Bool-cases (ltb w.now a.row.expires_at)) [
        | inr n ↦ absurd (deny_expired-fails a id w (rw (v, s, r, n) at h))
        | inl e ↦ elim (Bool-cases (leb a.row.max_uses a.row.uses)) [
          | inl y ↦ absurd (deny-fails a id "max_uses_exceeded" _ w (rw (v, s, r, e, y) at h))
          | inr m ↦
              let k = (rw (v, s, r, e, m) at h) in
              (
                v,
                record {
                  for_attachment = str_eq→≡ a.row.attachment_id id s;
                  not_revoked = r;
                  not_expired = ltb→lt w.now a.row.expires_at e;
                  has_use = ground arith;
                },
                cc,
              )
        ]
      ]
    ]
  ]
]

claim_use-done :
    (a : Access) (id : String) (w : World) {u : Unit {0}} {w' : World}
    → claim_use a id w ≡ done u w'
    → w'.db.attachment_tokens
      ≡ update_many (claimable_token a.row w.now) (use_token a.row w.now) w.db.attachment_tokens
unfolding claim_use ◌>>=◌ clock gets modify set_tokens pure
claim_use-done a id w {u} {w'} h =
    let tokens_of : World → List AttachmentAccessToken = λ x. x.db.attachment_tokens in
    elim (Bool-cases (count_where (claimable_token a.row w.now) w.db.attachment_tokens == 1)) [
      | inl y ↦
          let k = (rw y at h) in
          let same : record w {
            db =
                set_tokens (update_many (claimable_token a.row w.now) (use_token a.row w.now)) w.db;
          }
              ≡ w' =
            cc in
          ap tokens_of (sym same)
      | inr n ↦ absurd (deny-fails a id "race_lost" _ _ (rw n at h))
    ]

-- The token after the claim.
find_token-used :
    (index id : String) (row : AttachmentAccessToken) (now : ℕ) (db d : Db)
    → find_token index db ≡ some row
    → IsUsable row id now
    → d.attachment_tokens
      ≡ update_many (claimable_token row now) (use_token row now) db.attachment_tokens
    → find_token index d ≡ some (use_token row now row)
unfolding find_token
find_token-used index id row now db d found ok moved =
    let fits : claimable_token row now row ≡ true =
      unfold claimable_token in
      rw
        (
          str_eq_refl row.id,
          lt→ltb row.uses row.max_uses ok.has_use,
          ok.not_revoked,
          lt→ltb now row.expires_at ok.not_expired,
        )
        refl in
    let step =
      find_first-update (has_index index) (claimable_token row now) (use_token row now)
        db.attachment_tokens row (λ x. unfold use_token in unfold has_index in refl) found in
    ap (find_first (has_index index)) moved ∙ (rw fits at step)

attempt_download-done :
    (a : Access) (raw id : String) (w : World) {r : DownloadResult} {w' : World}
    → attempt_download a raw id w ≡ done r w'
    → IsUsable a.row id w.now
      × (w'.db.attachment_tokens
          ≡ update_many
              (claimable_token a.row w.now)
              (use_token a.row w.now)
              w.db.attachment_tokens)
unfolding attempt_download tokens
attempt_download-done a raw id w {r} {w'} h =
    let entry = access_entry a "attachment.access_attempt" (token_payload a id end) in
    let rest : M DownloadResult =
      check_token a raw id >> (claim_use a id >> deliver_file a raw id) in
    let (_, v, first, h1) = >>=-eq-done (record_event entry) (λ _. rest) w h in
    let still : v.now ≡ w.now = ap (λ o. (final o).now) (sym first) ∙ record_event-now entry w in
    let kept : v.db.attachment_tokens ≡ w.db.attachment_tokens =
      ap (λ o. (final o).db.attachment_tokens) (sym first) ∙ (record_event-Steps entry).at w in
    let (_, v2, second, h2) =
      >>=-eq-done (check_token a raw id) (λ _. claim_use a id >> deliver_file a raw id) v h1 in
    let (_, ok, same) = check_token-done a raw id v second in
    let (_, v3, third, h3) = >>=-eq-done (claim_use a id) (λ _. deliver_file a raw id) v2 h2 in
    let moved = claim_use-done a id v2 third in
    let last : w'.db.attachment_tokens ≡ v3.db.attachment_tokens =
      ap (λ o. (final o).db.attachment_tokens) (sym h3) ∙ (deliver_file-Steps a raw id).at v3 in
    let after : World → List AttachmentAccessToken = λ x.
      update_many (claimable_token a.row x.now) (use_token a.row x.now) x.db.attachment_tokens in
    (
      subst (IsUsable a.row id) still ok,
      last
          ∙ (moved
              ∙ (ap after same ∙ (λ i.
                  update_many (claimable_token a.row (still i)) (use_token a.row (still i))
                    (kept i)))),
    )

after_assert : String → String → M DownloadResult
after_assert raw id = do
  index ← ask (λ env. env.crypto.hmac_hex env.config.pepper raw)
  found ← gets (find_token index)
  row ← or_throw found not_found
  access ← load_access row
  attempt_download access raw id

after_assert-done :
    (raw id : String) (w : World) {r : DownloadResult} {w' : World}
    → after_assert raw id w ≡ done r w'
    → (row : AttachmentAccessToken) × (find_token
          (w.env.crypto.hmac_hex w.env.config.pepper raw)
          w.db
        ≡ some row)
      × IsUsable row id w.now
      × (w'.db.attachment_tokens
          ≡ update_many (claimable_token row w.now) (use_token row w.now) w.db.attachment_tokens)
unfolding after_assert ◌>>=◌ ask gets or_throw throw pure
after_assert-done raw id w {r} {w'} h =
    let index = w.env.crypto.hmac_hex w.env.config.pepper raw in
    elim (Option-cases (find_token index w.db)) [
      | inl n ↦ let k = (rw n at h) in cc
      | inr (row, found) ↦
          let (a, v, first, rest) =
            >>=-eq-done (load_access row) (λ x. attempt_download x raw id) w (rw found at h) in
          let (named, same) = load_access-done row w first in
          let (ok, moved) = attempt_download-done a raw id v rest in
          (
            row,
            found,
            subst (λ x. IsUsable x id w.now) named (subst (λ x. IsUsable a.row id x.now) same ok),
            moved ∙ (λ i.
                update_many (claimable_token (named i) (same i).now)
                  (use_token (named i) (same i).now) (same i).db.attachment_tokens),
          )
    ]

download_lem :
    (raw id : String) (w : World)
    → download raw id w ≡ (assert attachment_access >>= λ _. after_assert raw id) w
unfolding download after_assert
download_lem raw id w = refl

one_more : (m n : ℕ) → m < n → m + 1 ≤ n
one_more m n h = omega arith

-- A download that succeeds has a token that was issued for this attachment, is not revoked, has not
-- expired and has a use left. Afterwards the row of the token has one use more, which is not above
-- its limit, with the limit and the instant of expiry as before, and it is not revoked.
pub download-done :
    (raw id : String) (w : World) {r : DownloadResult} {w' : World}
    → download raw id w ≡ done r w'
    → let index = w.env.crypto.hmac_hex w.env.config.pepper raw in
      (row : AttachmentAccessToken) × (find_token index w.db ≡ some row)
      × IsUsable row id w.now
      × (used : AttachmentAccessToken) × (find_token index w'.db ≡ some used)
      × (used.uses ≡ row.uses + 1)
      × (used.uses ≤ used.max_uses)
      × (used.max_uses ≡ row.max_uses)
      × (used.expires_at ≡ row.expires_at)
      × (is_some used.revoked_at ≡ false)
unfolding find_token tokens use_token
download-done raw id w {r} {w'} h =
    let (u, v, first, h1) =
      >>=-eq-done (assert attachment_access) (λ _. after_assert raw id) w
        (sym (download_lem raw id w) ∙ h) in
    let still : fixed v ≡ fixed w =
      ap (λ o. fixed (final o)) (sym first) ∙ assert-fixed attachment_access w in
    let kept : v.db.attachment_tokens ≡ w.db.attachment_tokens =
      ap (λ o. (final o).db.attachment_tokens) (sym first)
      ∙ (assert-Steps attachment_access).at w in
    let index_of : ℕ × Env → String = λ e. e.1.crypto.hmac_hex e.1.config.pepper raw in
    let index = index_of (fixed w) in
    let (row, found, ok, moved) = after_assert-done raw id v h1 in
    let there : find_token index w.db ≡ some row =
      sym (λ i. find_first (has_index (index_of (still i))) (kept i)) ∙ found in
    let usable : IsUsable row id w.now = subst (λ e. IsUsable row id (e.0)) still ok in
    let changed = moved ∙ (λ i.
      update_many (claimable_token row ((still i).0)) (use_token row ((still i).0)) (kept i)) in
    (
      row,
      there,
      usable,
      use_token row w.now row,
      find_token-used index id row w.now w.db w'.db there usable changed,
      refl,
      one_more row.uses row.max_uses usable.has_use,
      refl,
      refl,
      usable.not_revoked,
    )
