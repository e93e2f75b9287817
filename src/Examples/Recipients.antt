-- ===== src/Examples/Recipients.antt =====
-- A secure link that is issued, opened and revoked, and a delivery report, run.
use dead_switch.Common.{true, none, some, [], ◌∷◌, ℕ, ◌+◌, refl, ◌≡◌, ◌≢◌, is_some}
use dead_switch.World.{World}
use dead_switch.Effect.{done, fail, final}
use dead_switch.Recipients.Service.{
  LinkArgs, Unlocked, Description, issue_access_token, describe, unlock, revoke_link,
}
use dead_switch.Recipients.Revoked.{revoke_link-refuses}
use dead_switch.Webhooks.{map_sendgrid_status, starts_with, until_dot}
use dead_switch.Examples.{empty_world, empty_db}

abbrev args : LinkArgs
args = record {
  vault_item_id = "v";
  recipient_id = "r";
  ttl_seconds = 60;
  access_code = none;
  max_uses = none;
}

abbrev world : World
world = record empty_world {
  db = record empty_db {
    vault_items =
        record {
          id = "v";
          bundle_id = "b";
          ciphertext_blob_ref = "blob";
          nonce = [];
          recipient_unwraps =
              record {
                recipient_id = "r";
                sealing_mode = "pubkey";
                sealed_dek = [];
                sealing_salt = none;
                sealing_params = none;
              }
              ∷ [];
        }
        ∷ [];
  };
}

abbrev linked : World
linked = final (issue_access_token args world)

abbrev item : Unlocked
item = record {
  ciphertext_blob_ref = "blob";
  nonce_base64 = "b";
  sealing_mode = "pubkey";
  sealed_dek_base64 = "b";
  sealing_salt_base64 = none;
  sealing_params = none;
}

abbrev text : Description
text = record {
  expires_at = linked.now + 60000;
  uses_remaining = 3;
  pin_required = is_some {A = ℕ} none;
}

opens : unlock "r" none linked ≡ done item (final (unlock "r" none linked))
unfolding unlock dead_switch.Effect.◌>>=◌ dead_switch.Safety.Mode.assert
    dead_switch.Safety.Mode.current dead_switch.Effect.clock dead_switch.Effect.recall
    dead_switch.Effect.with_option issue_access_token dead_switch.Safety.Mode.fetch
    dead_switch.Effect.gets dead_switch.Safety.Mode.seed dead_switch.Effect.modify
    dead_switch.Effect.pure dead_switch.Effect.remember dead_switch.Safety.Mode.enforce
    dead_switch.Safety.Matrix.evaluate dead_switch.Effect.ask dead_switch.Common.count_where
    dead_switch.Common.find_first dead_switch.Common.update_many dead_switch.Common.str_eq
    dead_switch.Effect.fresh dead_switch.Effect.or_throw dead_switch.Effect.require
    dead_switch.Effect.throw dead_switch.Recipients.Service.check_code
    dead_switch.Recipients.Service.check_link dead_switch.Recipients.Service.claim_link
    dead_switch.Recipients.Service.find_active dead_switch.Recipients.Service.find_link
    dead_switch.Recipients.Service.has_link dead_switch.Recipients.Service.hmac_key
    dead_switch.Recipients.Service.index_of dead_switch.Recipients.Service.item_by_id
    dead_switch.Recipients.Service.link_row dead_switch.Recipients.Service.set_links
    dead_switch.Recipients.Service.unlocked_item dead_switch.Recipients.Service.usable_link
    dead_switch.Recipients.Service.use_link dead_switch.Safety.Matrix.column
    dead_switch.Safety.Matrix.is_allowed dead_switch.Safety.Matrix.matrix
    dead_switch.Safety.Mode.cache dead_switch.Safety.Mode.set_mode
opens = refl

described : describe "r" linked ≡ done text (final (describe "r" linked))
unfolding describe dead_switch.Effect.◌>>=◌ dead_switch.Safety.Mode.assert
    dead_switch.Safety.Mode.current dead_switch.Effect.clock dead_switch.Effect.recall
    dead_switch.Effect.with_option issue_access_token dead_switch.Safety.Mode.fetch
    dead_switch.Effect.gets dead_switch.Safety.Mode.seed dead_switch.Effect.modify
    dead_switch.Effect.pure dead_switch.Effect.remember dead_switch.Safety.Mode.enforce
    dead_switch.Safety.Matrix.evaluate dead_switch.Effect.ask dead_switch.Common.find_first
    dead_switch.Common.str_eq dead_switch.Effect.fresh dead_switch.Effect.or_throw
    dead_switch.Effect.require dead_switch.Effect.throw dead_switch.Recipients.Service.check_link
    dead_switch.Recipients.Service.find_active dead_switch.Recipients.Service.find_link
    dead_switch.Recipients.Service.has_link dead_switch.Recipients.Service.hmac_key
    dead_switch.Recipients.Service.index_of dead_switch.Recipients.Service.link_row
    dead_switch.Recipients.Service.set_links dead_switch.Safety.Matrix.column
    dead_switch.Safety.Matrix.is_allowed dead_switch.Safety.Matrix.matrix
    dead_switch.Safety.Mode.cache dead_switch.Safety.Mode.set_mode
described = refl

revoke_link-refuses_example :
    (unlock "r" none (record (final (revoke_link "r" linked)) { now = 5 }) ≢ done item linked)
    × (describe "r" (record (final (revoke_link "r" linked)) { now = 5 }) ≢ done text linked)
revoke_link-refuses_example = revoke_link-refuses "r" none 5 linked linked item text

bounced : map_sendgrid_status "bounce" ≡ "failed"
unfolding map_sendgrid_status dead_switch.Common.str_eq
bounced = refl

prefixed : starts_with (until_dot (97 ∷ 46 ∷ 98 ∷ [])) (97 ∷ 99 ∷ []) ≡ true
unfolding starts_with until_dot
prefixed = refl
