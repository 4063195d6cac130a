-- ===== src/Identity/Manager/Tests.antt =====
-- Runs of the identity manager, with base64 that decodes everything to itself and signatures that are keys.
use ngen_orca.Core.Identity.{telegram, guest, owner, UserIdentity, hardware, channel}
use ngen_orca.Identity.Manager.{
  Primitives, register_user, PairingSeed, PairingCompletion, link_channel, issue_pairing_request,
  complete_pairing_request, issue_challenge_request, verify_challenge_response, resolve_by_channel,
}
use ngen_orca.Base.{Bytes, some, codes, same, none, ◌≡◌, true, refl, ok, [], ◌∷◌}
use ngen_orca.Identity.Store.{Tables, no_tables, save_user, is_user, identity_of}
use ngen_orca.Identity.Manager.Linking.{Linked, link_channel-Linked}
use ngen_orca.Identity.Manager.Conflicts.{HoldersThere}
use ngen_orca.Identity.Manager.Pairing.{Completed, complete_pairing_request-Completed}
use ngen_orca.Identity.Manager.Challenge.{Answered, verify_challenge_response-Answered}
use ngen_orca.Identity.Candidates.{channel_handle_candidates}
use ngen_orca.Identity.Manager.Resolving.{resolve_by_channel-link_channel}

abbrev toy : Primitives
toy = record {
  decode = λ engine s. some s;
  encode = λ s. s;
  verify = λ key message signature. same key signature;
  kind_text = λ kind. codes "telegram";
}

abbrev alice : Bytes
alice = codes "alice"

abbrev handle : Bytes
handle = codes "al"

-- Alice alone.
abbrev start : Tables
start = (register_user no_tables alice (codes "Alice") owner 5).1

start-HoldersThere : HoldersThere start
unfolding register_user save_user no_tables
start-HoldersThere k h user e = absurd cc

start-alice : is_user start alice ≡ true
unfolding register_user save_user no_tables
start-alice = refl

link_channel-Linked_example :
    Linked start alice telegram handle (link_channel start alice (codes "c") telegram handle 7)
link_channel-Linked_example =
    link_channel-Linked start alice (codes "c") telegram handle 7 start-alice start-HoldersThere

abbrev seed : PairingSeed
seed = record {
  channel_kind = some telegram;
  handle = some handle;
  device_id = some (codes "phone");
  device_name = none;
  requested_user_id = none;
  requested_display_name = some (codes "Bob");
}

abbrev bob : PairingCompletion
bob = record {
  user_id = codes "bob";
  display_name = none;
  role = guest;
  channel_id = none;
  device_name = none;
  attestation = none;
  public_key = some (codes "key");
}

abbrev asked : Tables
asked = (issue_pairing_request start seed (codes "r1") 10).1

abbrev paired : Tables
paired = (complete_pairing_request toy asked (codes "r1") bob 20).1

abbrev bob_identity : UserIdentity
bob_identity =
    identity_of paired (codes "bob")
      (record { display_name = codes "Bob"; role = guest; created_at = 20; last_seen = 20 })

completes : complete_pairing_request toy asked (codes "r1") bob 20 ≡ (ok bob_identity, paired)
unfolding ngen_orca.Identity.Store.no_tables ngen_orca.Identity.Store.save_user
    ngen_orca.Identity.Store.get_user ngen_orca.Identity.Store.find_by_device
    ngen_orca.Identity.Store.find_by_channel ngen_orca.Identity.Store.add_device
    ngen_orca.Identity.Store.add_channel ngen_orca.Identity.Store.remove_device
    ngen_orca.Identity.Store.save_pairing_request ngen_orca.Identity.Store.get_pairing_request
    ngen_orca.Identity.Store.mark_pairing_request_completed
    ngen_orca.Identity.Store.save_challenge_request ngen_orca.Identity.Store.get_challenge_request
    ngen_orca.Identity.Store.mark_challenge_request_verified
    ngen_orca.Identity.Manager.resolve_by_device ngen_orca.Identity.Manager.resolve_first
    ngen_orca.Identity.Manager.resolve_by_channel ngen_orca.Identity.Manager.register_user
    ngen_orca.Identity.Manager.pair_device ngen_orca.Identity.Manager.conflict_or
    ngen_orca.Identity.Manager.find_conflict ngen_orca.Identity.Manager.add_all
    ngen_orca.Identity.Manager.link_channel ngen_orca.Identity.Manager.revoke_device
    ngen_orca.Identity.Manager.issue_pairing_request ngen_orca.Identity.Manager.ensure_user
    ngen_orca.Identity.Manager.link_request ngen_orca.Identity.Manager.pair_request
    ngen_orca.Identity.Manager.close_request ngen_orca.Identity.Manager.pair_and_close
    ngen_orca.Identity.Manager.carry_out ngen_orca.Identity.Manager.complete_pairing_request
    ngen_orca.Identity.Manager.issue_challenge_request ngen_orca.Identity.Manager.decode_base64
    ngen_orca.Identity.Manager.verify_device_signature
    ngen_orca.Identity.Manager.verify_signature_for_device ngen_orca.Identity.Manager.check_response
    ngen_orca.Identity.Manager.accept_response ngen_orca.Identity.Manager.verify_challenge_response
    ngen_orca.Identity.Texts.trim_start ngen_orca.Identity.Texts.trim_end
    ngen_orca.Identity.Texts.trim ngen_orca.Identity.Texts.strip_prefix
    ngen_orca.Identity.Texts.strip_last ngen_orca.Identity.Texts.trim_matches_from
    ngen_orca.Identity.Texts.trim_start_matches ngen_orca.Identity.Texts.split_once
    ngen_orca.Identity.Candidates.push_unique ngen_orca.Identity.Candidates.push_basic_candidates
    ngen_orca.Identity.Candidates.push_username_candidates
    ngen_orca.Identity.Candidates.phone_digits ngen_orca.Identity.Candidates.push_phone_candidates
    ngen_orca.Identity.Candidates.push_matrix_candidates
    ngen_orca.Identity.Candidates.push_email_candidates
    ngen_orca.Identity.Candidates.push_web_candidates ngen_orca.Identity.Candidates.mention
    ngen_orca.Identity.Candidates.push_bracketed_mention_candidates
    ngen_orca.Identity.Candidates.strip_channel_prefix
    ngen_orca.Identity.Candidates.strip_slack_mention ngen_orca.Identity.Candidates.strip_first_of
    ngen_orca.Identity.Candidates.strip_teams_prefix ngen_orca.Identity.Candidates.kind_candidates
    ngen_orca.Identity.Candidates.channel_handle_candidates ngen_orca.Identity.Device.find_device
    ngen_orca.Identity.Device.device_trust
completes = refl

complete_pairing_request-Completed_example : Completed toy asked (codes "r1") 20 paired
complete_pairing_request-Completed_example =
    complete_pairing_request-Completed toy asked (codes "r1") bob 20 bob_identity paired completes

abbrev challenged : Tables
challenged =
    (issue_challenge_request toy paired
      (record { device_id = codes "phone"; user_id = none; reason = [] }) (codes "r2") (codes "n")
      30).1

abbrev answered : Tables
answered = (verify_challenge_response toy challenged (codes "r2") (codes "key") 40).1

answers :
    verify_challenge_response toy challenged (codes "r2") (codes "key") 40
    ≡ (ok (codes "bob", hardware), answered)
unfolding ngen_orca.Identity.Store.no_tables ngen_orca.Identity.Store.save_user
    ngen_orca.Identity.Store.get_user ngen_orca.Identity.Store.find_by_device
    ngen_orca.Identity.Store.find_by_channel ngen_orca.Identity.Store.add_device
    ngen_orca.Identity.Store.add_channel ngen_orca.Identity.Store.remove_device
    ngen_orca.Identity.Store.save_pairing_request ngen_orca.Identity.Store.get_pairing_request
    ngen_orca.Identity.Store.mark_pairing_request_completed
    ngen_orca.Identity.Store.save_challenge_request ngen_orca.Identity.Store.get_challenge_request
    ngen_orca.Identity.Store.mark_challenge_request_verified
    ngen_orca.Identity.Manager.resolve_by_device ngen_orca.Identity.Manager.resolve_first
    ngen_orca.Identity.Manager.resolve_by_channel ngen_orca.Identity.Manager.register_user
    ngen_orca.Identity.Manager.pair_device ngen_orca.Identity.Manager.conflict_or
    ngen_orca.Identity.Manager.find_conflict ngen_orca.Identity.Manager.add_all
    ngen_orca.Identity.Manager.link_channel ngen_orca.Identity.Manager.revoke_device
    ngen_orca.Identity.Manager.issue_pairing_request ngen_orca.Identity.Manager.ensure_user
    ngen_orca.Identity.Manager.link_request ngen_orca.Identity.Manager.pair_request
    ngen_orca.Identity.Manager.close_request ngen_orca.Identity.Manager.pair_and_close
    ngen_orca.Identity.Manager.carry_out ngen_orca.Identity.Manager.complete_pairing_request
    ngen_orca.Identity.Manager.issue_challenge_request ngen_orca.Identity.Manager.decode_base64
    ngen_orca.Identity.Manager.verify_device_signature
    ngen_orca.Identity.Manager.verify_signature_for_device ngen_orca.Identity.Manager.check_response
    ngen_orca.Identity.Manager.accept_response ngen_orca.Identity.Manager.verify_challenge_response
    ngen_orca.Identity.Texts.trim_start ngen_orca.Identity.Texts.trim_end
    ngen_orca.Identity.Texts.trim ngen_orca.Identity.Texts.strip_prefix
    ngen_orca.Identity.Texts.strip_last ngen_orca.Identity.Texts.trim_matches_from
    ngen_orca.Identity.Texts.trim_start_matches ngen_orca.Identity.Texts.split_once
    ngen_orca.Identity.Candidates.push_unique ngen_orca.Identity.Candidates.push_basic_candidates
    ngen_orca.Identity.Candidates.push_username_candidates
    ngen_orca.Identity.Candidates.phone_digits ngen_orca.Identity.Candidates.push_phone_candidates
    ngen_orca.Identity.Candidates.push_matrix_candidates
    ngen_orca.Identity.Candidates.push_email_candidates
    ngen_orca.Identity.Candidates.push_web_candidates ngen_orca.Identity.Candidates.mention
    ngen_orca.Identity.Candidates.push_bracketed_mention_candidates
    ngen_orca.Identity.Candidates.strip_channel_prefix
    ngen_orca.Identity.Candidates.strip_slack_mention ngen_orca.Identity.Candidates.strip_first_of
    ngen_orca.Identity.Candidates.strip_teams_prefix ngen_orca.Identity.Candidates.kind_candidates
    ngen_orca.Identity.Candidates.channel_handle_candidates ngen_orca.Identity.Device.find_device
    ngen_orca.Identity.Device.device_trust
answers = refl

verify_challenge_response-Answered_example :
    Answered toy challenged (codes "r2") (codes "key") 40 (codes "bob") hardware answered
verify_challenge_response-Answered_example =
    verify_challenge_response-Answered toy challenged (codes "r2") (codes "key") 40 (codes "bob")
      hardware answered answers

handle_candidates : channel_handle_candidates telegram handle ≡ handle ∷ codes "@al" ∷ []
unfolding ngen_orca.Identity.Texts.trim_start ngen_orca.Identity.Texts.trim_end
    ngen_orca.Identity.Texts.trim ngen_orca.Identity.Texts.strip_prefix
    ngen_orca.Identity.Texts.strip_last ngen_orca.Identity.Texts.trim_matches_from
    ngen_orca.Identity.Texts.trim_start_matches ngen_orca.Identity.Texts.split_once
    ngen_orca.Identity.Candidates.push_unique ngen_orca.Identity.Candidates.push_basic_candidates
    ngen_orca.Identity.Candidates.push_username_candidates
    ngen_orca.Identity.Candidates.phone_digits ngen_orca.Identity.Candidates.push_phone_candidates
    ngen_orca.Identity.Candidates.push_matrix_candidates
    ngen_orca.Identity.Candidates.push_email_candidates
    ngen_orca.Identity.Candidates.push_web_candidates ngen_orca.Identity.Candidates.mention
    ngen_orca.Identity.Candidates.push_bracketed_mention_candidates
    ngen_orca.Identity.Candidates.strip_channel_prefix
    ngen_orca.Identity.Candidates.strip_slack_mention ngen_orca.Identity.Candidates.strip_first_of
    ngen_orca.Identity.Candidates.strip_teams_prefix ngen_orca.Identity.Candidates.kind_candidates
    ngen_orca.Identity.Candidates.channel_handle_candidates
handle_candidates = refl

links : (link_channel start alice (codes "c") telegram handle 7).0 ≡ ok tt
unfolding ngen_orca.Identity.Store.no_tables ngen_orca.Identity.Store.save_user
    ngen_orca.Identity.Store.get_user ngen_orca.Identity.Store.find_by_device
    ngen_orca.Identity.Store.find_by_channel ngen_orca.Identity.Store.add_device
    ngen_orca.Identity.Store.add_channel ngen_orca.Identity.Store.remove_device
    ngen_orca.Identity.Store.save_pairing_request ngen_orca.Identity.Store.get_pairing_request
    ngen_orca.Identity.Store.mark_pairing_request_completed
    ngen_orca.Identity.Store.save_challenge_request ngen_orca.Identity.Store.get_challenge_request
    ngen_orca.Identity.Store.mark_challenge_request_verified
    ngen_orca.Identity.Manager.resolve_by_device ngen_orca.Identity.Manager.resolve_first
    ngen_orca.Identity.Manager.resolve_by_channel ngen_orca.Identity.Manager.register_user
    ngen_orca.Identity.Manager.pair_device ngen_orca.Identity.Manager.conflict_or
    ngen_orca.Identity.Manager.find_conflict ngen_orca.Identity.Manager.add_all
    ngen_orca.Identity.Manager.link_channel ngen_orca.Identity.Manager.revoke_device
    ngen_orca.Identity.Manager.issue_pairing_request ngen_orca.Identity.Manager.ensure_user
    ngen_orca.Identity.Manager.link_request ngen_orca.Identity.Manager.pair_request
    ngen_orca.Identity.Manager.close_request ngen_orca.Identity.Manager.pair_and_close
    ngen_orca.Identity.Manager.carry_out ngen_orca.Identity.Manager.complete_pairing_request
    ngen_orca.Identity.Manager.issue_challenge_request ngen_orca.Identity.Manager.decode_base64
    ngen_orca.Identity.Manager.verify_device_signature
    ngen_orca.Identity.Manager.verify_signature_for_device ngen_orca.Identity.Manager.check_response
    ngen_orca.Identity.Manager.accept_response ngen_orca.Identity.Manager.verify_challenge_response
    ngen_orca.Identity.Texts.trim_start ngen_orca.Identity.Texts.trim_end
    ngen_orca.Identity.Texts.trim ngen_orca.Identity.Texts.strip_prefix
    ngen_orca.Identity.Texts.strip_last ngen_orca.Identity.Texts.trim_matches_from
    ngen_orca.Identity.Texts.trim_start_matches ngen_orca.Identity.Texts.split_once
    ngen_orca.Identity.Candidates.push_unique ngen_orca.Identity.Candidates.push_basic_candidates
    ngen_orca.Identity.Candidates.push_username_candidates
    ngen_orca.Identity.Candidates.phone_digits ngen_orca.Identity.Candidates.push_phone_candidates
    ngen_orca.Identity.Candidates.push_matrix_candidates
    ngen_orca.Identity.Candidates.push_email_candidates
    ngen_orca.Identity.Candidates.push_web_candidates ngen_orca.Identity.Candidates.mention
    ngen_orca.Identity.Candidates.push_bracketed_mention_candidates
    ngen_orca.Identity.Candidates.strip_channel_prefix
    ngen_orca.Identity.Candidates.strip_slack_mention ngen_orca.Identity.Candidates.strip_first_of
    ngen_orca.Identity.Candidates.strip_teams_prefix ngen_orca.Identity.Candidates.kind_candidates
    ngen_orca.Identity.Candidates.channel_handle_candidates ngen_orca.Identity.Device.find_device
    ngen_orca.Identity.Device.device_trust
links = refl

resolve_by_channel-link_channel_example :
    resolve_by_channel (link_channel start alice (codes "c") telegram handle 7).1 telegram handle
    ≡ some (alice, channel)
resolve_by_channel-link_channel_example =
    resolve_by_channel-link_channel start alice (codes "c") telegram handle handle
      (codes "@al" ∷ []) 7 start-alice start-HoldersThere handle_candidates links
