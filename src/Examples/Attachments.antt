-- ===== src/Examples/Attachments.antt =====
-- A file of three bytes on its way from the upload to the recipient.
use dead_switch.Common.{
  ℕ, zero, suc, false, is_some, ◌+◌, ◌<◌, ◌≤◌, ◌≡◌, refl, String, List, [], ◌∷◌, ◌++◌, Option, none,
  some, All, length, arith,
}
use dead_switch.Schema.{ScenarioState, SafetyModeKind, BundleAttachment, AttachmentAccessToken}
use dead_switch.World.{World}
use dead_switch.Effect.{final, done}
use dead_switch.Crypto.Kms.{mock_unwrap}
use dead_switch.Attachments.Mime.{sanitize_units}
use dead_switch.Attachments.Name.{IsSafe, sanitize_units-All}
use dead_switch.Attachments.Token.{
  AttachmentBlob, parsed, parse_attachment_blob, print_attachment_blob,
}
use dead_switch.Attachments.Issuer.{IssueArgs, token_row}
use dead_switch.Attachments.Download.{find_token, use_token, open_file, download}
use dead_switch.Attachments.Service.{UploadedAttachmentFile, upload, blob_named, blob_name}
use dead_switch.Attachments.Sealed.{Sound}
use dead_switch.Attachments.Delivered.{upload-delivers}
use dead_switch.Attachments.Uses.{IsUsable, download-done}
use dead_switch.Examples.{zeros, crypto, env, empty_world, empty_db, mem, mode_row, scenario_in}

-- '../a' and a control character
sanitize_units-All_example :
    All IsSafe (sanitize_units (46 ∷ 46 ∷ 47 ∷ 97 ∷ 7 ∷ []))
    × (0 < length (sanitize_units (46 ∷ 46 ∷ 47 ∷ 97 ∷ 7 ∷ [])))
    × (length (sanitize_units (46 ∷ 46 ∷ 47 ∷ 97 ∷ 7 ∷ [])) ≤ 200)
sanitize_units-All_example = sanitize_units-All (46 ∷ 46 ∷ 47 ∷ 97 ∷ 7 ∷ [])

crypto-Sound : Sound crypto
crypto-Sound = record {
  opens = λ k n a t. refl;
  tag_length = λ k n a t. refl;
  body_length = λ k n a t. refl;
}

abbrev attachment : BundleAttachment
attachment = record {
  id = "a";
  bundle_id = "b";
  blob_ref = "local:a.bin";
  ciphertext_hash = "h";
  size_bytes = 3;
  mime_type = "text/plain";
  client_mime_type = none;
  display_filename = "n";
  encryption_mode = "action_envelope";
  aad_version = 2;
}

abbrev args : IssueArgs
args = record {
  release_id = "r";
  release_action_id = "x";
  bundle_id = "b";
  recipient_id = "t";
  user_id = "a";
  scenario_id = "s";
}

abbrev file : List ℕ
file = 1 ∷ 2 ∷ 3 ∷ []

abbrev layout : AttachmentBlob
layout = record { nonce = zeros 12; wrapped_dek = zeros 60; ciphertext = 1 ∷ 2 ∷ 3 ∷ zeros 16 }

abbrev blob : List ℕ
blob = 0 ∷ 12 ∷ (zeros 12 ++ (0 ∷ 60 ∷ (zeros 60 ++ (1 ∷ 2 ∷ 3 ∷ zeros 16))))

-- The API takes the file, for the bundle of the user.
abbrev api : World
api = record empty_world {
  db = record empty_db {
    scenarios = scenario_in ScenarioState.draft ∷ [];
    bundles = record { id = "b"; scenario_id = "s"; messages = [] } ∷ [];
  };
}

abbrev incoming : UploadedAttachmentFile
incoming = record { buffer = file; original_name = "n"; mimetype = "text/plain"; size = 3 }

abbrev uploaded : World
uploaded = final (upload "a" "b" incoming api)

abbrev or_none : List BundleAttachment → BundleAttachment
or_none [] = attachment
or_none (a ∷ as_) = a

abbrev stored : BundleAttachment
stored = or_none uploaded.db.attachments

uploads : upload "a" "b" incoming api ≡ done stored uploaded
unfolding upload dead_switch.Effect.◌>>=◌ dead_switch.Attachments.Service.require_bundle
    dead_switch.Effect.gets dead_switch.Effect.or_throw dead_switch.Attachments.Service.bundle_by_id
    dead_switch.Common.find_first dead_switch.Common.str_eq dead_switch.Effect.require
    dead_switch.Effect.ask dead_switch.Effect.fresh dead_switch.Crypto.Envelope.seal
    dead_switch.Crypto.Kms.wrap dead_switch.Attachments.Service.store_sealed print_attachment_blob
    dead_switch.Crypto.Kms.mock_wrap dead_switch.Attachments.Service.write_blob
    dead_switch.Attachments.Mime.ascii dead_switch.Attachments.Mime.begins_with
    dead_switch.Attachments.Mime.build_attachment_aad_v2 dead_switch.Attachments.Mime.is_text
    dead_switch.Attachments.Mime.replace_units dead_switch.Attachments.Mime.sanitize_filename
    sanitize_units dead_switch.Attachments.Mime.sniff_mime dead_switch.Attachments.Mime.strip_dots
    dead_switch.Attachments.Mime.trim_end dead_switch.Attachments.Mime.trim_start
    dead_switch.Attachments.Service.append_attachment dead_switch.Attachments.Service.append_blob
    blob_named dead_switch.Attachments.Token.blob_of dead_switch.Attachments.Token.write_u16
    dead_switch.Common.count_where dead_switch.Common.take dead_switch.Common.template
    dead_switch.Crypto.Envelope.encrypt dead_switch.Effect.modify dead_switch.Effect.pure
    dead_switch.Effect.recall dead_switch.Effect.remember dead_switch.Effect.throw
uploads = refl

zeros-length : (n : ℕ) → length (zeros n) ≡ n
zeros-length zero = refl
zeros-length (suc n) = omega (arith, zeros-length n)

upload-delivers_example :
    (blob : List ℕ) × (b : AttachmentBlob) × (dek : List ℕ) × (blob_named
        (blob_name stored.id)
        uploaded.mem.blobs
      ≡ some blob)
    × (parse_attachment_blob blob ≡ parsed b)
    × (mock_unwrap crypto [] b.wrapped_dek ≡ some dek)
    × (open_file env "raw" stored.id
          (token_row env "k" stored args "raw" dek (zeros 32) (zeros 12) 900)
          stored
          b
        ≡ some file)
upload-delivers_example =
    upload-delivers "a" "b" incoming args "raw" "k" (zeros 32) (zeros 12) 900 api crypto-Sound
      (λ s i n. zeros-length n) uploads

abbrev token : AttachmentAccessToken
token = record {
  id = "k";
  attachment_id = "a";
  recipient_id = "t";
  release_id = "r";
  release_action_id = none;
  bundle_id = "b";
  token_index = "raw";
  token_hash = "raw";
  kdf_salt = [];
  sealed_dek = zeros 48;
  sealed_dek_nonce = zeros 12;
  max_uses = 5;
  uses = 4;
  expires_at = 900;
  first_used_at = some 50;
  last_used_at = some 60;
  revoked_at = none;
}

abbrev world : World
world = record empty_world {
  db = record empty_db {
    scenarios = scenario_in ScenarioState.released ∷ [];
    safety_mode = some (mode_row SafetyModeKind.normal);
    bundles = record { id = "b"; scenario_id = "s"; messages = [] } ∷ [];
    attachments = attachment ∷ [];
    attachment_tokens = token ∷ [];
  };
  mem = record mem { blobs = ("a.bin", blob) ∷ [] };
}

download-done_example :
    (row : AttachmentAccessToken) × (find_token "raw" world.db ≡ some row)
    × IsUsable row "a" 100
    × (used : AttachmentAccessToken) × (find_token "raw" (final (download "raw" "a" world)).db
        ≡ some used)
    × (used.uses ≡ row.uses + 1)
    × (used.uses ≤ used.max_uses)
    × (used.max_uses ≡ row.max_uses)
    × (used.expires_at ≡ row.expires_at)
    × (is_some used.revoked_at ≡ false)
unfolding download dead_switch.Effect.◌>>=◌ dead_switch.Safety.Mode.assert
    dead_switch.Safety.Mode.current dead_switch.Effect.clock dead_switch.Effect.recall
    dead_switch.Effect.with_option dead_switch.Safety.Mode.fetch dead_switch.Effect.gets
    dead_switch.Effect.pure dead_switch.Effect.remember dead_switch.Safety.Mode.enforce
    dead_switch.Safety.Matrix.evaluate dead_switch.Effect.ask dead_switch.Effect.or_throw find_token
    dead_switch.Common.find_first dead_switch.Attachments.Download.attempt_download
    dead_switch.Attachments.Download.check_hash dead_switch.Attachments.Download.check_token
    dead_switch.Attachments.Download.claim_use dead_switch.Attachments.Download.claimable_token
    dead_switch.Attachments.Download.deliver_file dead_switch.Attachments.Download.deny
    dead_switch.Attachments.Download.deny_expired dead_switch.Attachments.Download.fail_phase
    dead_switch.Attachments.Download.load_access open_file
    dead_switch.Attachments.Download.record_denied use_token
    dead_switch.Attachments.Issuer.has_index dead_switch.Attachments.Issuer.parse_or_throw
    dead_switch.Attachments.Issuer.set_tokens dead_switch.Attachments.Mime.build_attachment_aad
    dead_switch.Attachments.Mime.build_attachment_aad_v1
    dead_switch.Attachments.Mime.build_attachment_aad_v2 dead_switch.Attachments.Service.blob_named
    dead_switch.Attachments.Service.bundle_by_id dead_switch.Attachments.Service.read_blob
    dead_switch.Attachments.Token.derive_kek dead_switch.Attachments.Token.equal_bytes
    dead_switch.Attachments.Token.open_dek parse_attachment_blob
    dead_switch.Attachments.Token.parse_ciphertext dead_switch.Attachments.Token.read_u16
    dead_switch.Attachments.Token.timing_safe_hex_equal dead_switch.Audit.CanonicalJson.canonicalize
    dead_switch.Audit.CanonicalJson.insert_field dead_switch.Audit.CanonicalJson.normalize
    dead_switch.Audit.CanonicalJson.sort_fields dead_switch.Audit.CanonicalJson.stringify
    dead_switch.Audit.Service.append_audit dead_switch.Audit.Service.chain_scope_for
    dead_switch.Audit.Service.event_row dead_switch.Audit.Service.hash_after
    dead_switch.Audit.Service.hash_input dead_switch.Audit.Service.hash_of
    dead_switch.Audit.Service.in_scope dead_switch.Audit.Service.last_event
    dead_switch.Audit.Service.record_event dead_switch.Audit.Service.seq_after
    dead_switch.Common.count_where dead_switch.Common.drop dead_switch.Common.find_many
    dead_switch.Common.take dead_switch.Common.update_many dead_switch.Common.str_eq
    dead_switch.Common.template dead_switch.Crypto.Envelope.decrypt
    dead_switch.Crypto.Envelope.tag_start dead_switch.Effect.modify dead_switch.Effect.throw
    dead_switch.Effect.transaction dead_switch.Effect.try_catch dead_switch.Safety.Matrix.column
    dead_switch.Safety.Matrix.is_allowed dead_switch.Safety.Matrix.matrix
    dead_switch.Safety.Mode.cache dead_switch.Safety.Mode.seed dead_switch.Safety.Mode.set_mode
download-done_example = download-done "raw" "a" world refl
