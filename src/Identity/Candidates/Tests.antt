-- ===== src/Identity/Candidates/Tests.antt =====
-- The candidates of some handles.
use ngen_orca.Core.Identity.{telegram}
use ngen_orca.Identity.Texts.{Text}
use ngen_orca.Identity.Candidates.{
  channel_handle_candidates, kind_candidates, push_bracketed_mention_candidates,
  push_username_candidates, push_basic_candidates, push_unique, strip_channel_prefix, mention,
}
use ngen_orca.Identity.Candidates.Laws.{Clean, channel_handle_candidates-Clean}
use ngen_orca.Base.{codes, ◌≡◌, ◌∷◌, [], refl}

abbrev at_alice : Text
at_alice = codes " telegram:@Alice "

-- The candidates of a Telegram handle.
telegram_handle :
    channel_handle_candidates telegram at_alice
    ≡ codes "telegram:@Alice"
      ∷ codes "telegram:@alice"
      ∷ codes "@Alice"
      ∷ codes "@alice"
      ∷ codes "Alice"
      ∷ codes "alice"
      ∷ []
unfolding channel_handle_candidates kind_candidates push_bracketed_mention_candidates
    push_username_candidates push_basic_candidates push_unique strip_channel_prefix mention
    ngen_orca.Identity.Texts.trim ngen_orca.Identity.Texts.trim_end
    ngen_orca.Identity.Texts.trim_start ngen_orca.Identity.Texts.strip_prefix
    ngen_orca.Identity.Texts.split_once ngen_orca.Identity.Texts.trim_start_matches
telegram_handle = refl

channel_handle_candidates-Clean_example : Clean (channel_handle_candidates telegram at_alice)
channel_handle_candidates-Clean_example = channel_handle_candidates-Clean telegram at_alice
