-- ===== src/Identity/Candidates.antt =====
-- The handles that ngenorca-identity/src/resolver.rs looks up for a handle on a channel.
pub mod Laws
mod Tests
use ngen_orca.Core.Identity.{
  ChannelKind, whats_app, telegram, discord, slack, signal, i_message, matrix, irc, web_chat, teams,
  custom,
}
use ngen_orca.Identity.Texts.{
  Text, trim, trim_start_matches, filter, split_once, to_ascii_lowercase, is_empty, is_ascii_digit,
  strip_prefix, strip_last, is_ascii_alphanumeric,
}
use ngen_orca.Base.{
  List, if◌then◌else◌, Option, get_or, ◌∷◌, codes, not, some, [], ◌&&◌, same, ◌++◌, none, any, all,
  ◌||◌, ◌==◌,
}

unfoldable pub push_unique : List Text → Text → List Text
push_unique values candidate =
    if not (is_empty candidate) && not (any (λ existing. same existing candidate) values)
    then values ++ candidate ∷ []
    else values

unfoldable pub push_basic_candidates : List Text → Text → List Text
push_basic_candidates values raw =
    let trimmed = trim raw in
    let lowercase = to_ascii_lowercase trimmed in
    let pushed = push_unique values trimmed in
    if is_empty trimmed
    then values
    else (if same lowercase trimmed then pushed else push_unique pushed lowercase)

unfoldable pub push_username_candidates : List Text → Text → List Text
push_username_candidates values raw =
    let trimmed = trim_start_matches (codes "@") (trim raw) in
    if is_empty trimmed
    then values
    else push_basic_candidates (push_basic_candidates values trimmed) (codes "@" ++ trimmed)

unfoldable pub phone_digits : Text → Text
phone_digits raw = filter is_ascii_digit (
    trim_start_matches (codes "waid:")
      (trim_start_matches (codes "sms:") (trim_start_matches (codes "tel:") (trim raw))))

unfoldable pub push_phone_candidates : List Text → Text → List Text
push_phone_candidates values raw =
    let digits = phone_digits raw in
    if is_empty digits
    then values
    else push_unique (push_unique values digits) (codes "+" ++ digits)

unfoldable pub push_matrix_candidates : List Text → Text → List Text
push_matrix_candidates values raw =
    let trimmed = trim raw in
    let pushed = push_basic_candidates values trimmed in
    if is_empty trimmed then values else elim (split_once 58 trimmed) [
      | some (local_part, _) ↦ push_username_candidates pushed local_part
      | none ↦ push_username_candidates pushed trimmed
    ]

unfoldable pub push_email_candidates : List Text → Text → List Text
push_email_candidates values raw = elim (split_once 64 (trim raw)) [
  | some (local_part, _) ↦ push_basic_candidates values local_part
  | none ↦ values
]

unfoldable pub push_web_candidates : List Text → Text → List Text
push_web_candidates values raw = push_email_candidates (push_basic_candidates values raw) raw

-- What stands between the signs of a mention.
unfoldable pub mention : Text → Option Text
mention s = elim (strip_prefix (codes "<@") s) [ none ↦ none | some value ↦ strip_last 62 value ]

unfoldable pub push_bracketed_mention_candidates : List Text → Text → List Text
push_bracketed_mention_candidates values raw = elim (mention (trim raw)) [
  | none ↦ values
  | some inner ↦
      push_basic_candidates values
        (trim_start_matches (codes "&") (trim_start_matches (codes "!") inner))
]

unfoldable pub strip_channel_prefix : Text → Text
strip_channel_prefix raw =
    let trimmed = trim raw in
    elim (split_once 58 trimmed) [
      | none ↦ trimmed
      | some (prefix, tail) ↦
          if not (is_empty tail)
            && all (λ ch. is_ascii_alphanumeric ch || ch == 45 || ch == 95) prefix
          then tail
          else trimmed
    ]

unfoldable pub strip_slack_mention : Text → Text
strip_slack_mention raw = get_or (mention (trim raw)) raw

-- The loop over the prefixes.
unfoldable pub strip_first_of : List Text → Text → Text
strip_first_of [] trimmed = trimmed
strip_first_of (prefix ∷ prefixes) trimmed = elim (strip_prefix prefix trimmed) [
  | some stripped ↦ stripped
  | none ↦ strip_first_of prefixes trimmed
]

unfoldable pub strip_teams_prefix : Text → Text
strip_teams_prefix raw =
    strip_first_of (codes "8:orgid:" ∷ codes "8:" ∷ codes "29:" ∷ codes "orgid:" ∷ []) (trim raw)

abbrev mention_or_username : List Text → Text → List Text
mention_or_username values unprefixed =
    push_bracketed_mention_candidates (push_username_candidates values unprefixed) unprefixed

abbrev teams_candidates : List Text → Text → List Text
teams_candidates values stripped =
    push_email_candidates
      (push_username_candidates (push_basic_candidates values stripped) stripped) stripped

-- The match on the kind of channel.
unfoldable pub kind_candidates : ChannelKind → List Text → Text → List Text
kind_candidates telegram values unprefixed = mention_or_username values unprefixed
kind_candidates discord values unprefixed = mention_or_username values unprefixed
kind_candidates irc values unprefixed = mention_or_username values unprefixed
kind_candidates whats_app values unprefixed = push_phone_candidates values unprefixed
kind_candidates signal values unprefixed = push_phone_candidates values unprefixed
kind_candidates i_message values unprefixed = push_phone_candidates values unprefixed
kind_candidates matrix values unprefixed = push_matrix_candidates values unprefixed
kind_candidates slack values unprefixed =
    push_username_candidates
      (push_bracketed_mention_candidates
        (push_basic_candidates values (strip_slack_mention unprefixed)) unprefixed)
      unprefixed
kind_candidates teams values unprefixed = teams_candidates values (strip_teams_prefix unprefixed)
kind_candidates web_chat values unprefixed = push_web_candidates values unprefixed
kind_candidates (custom _) values unprefixed =
    push_email_candidates
      (push_phone_candidates (push_username_candidates values unprefixed) unprefixed) unprefixed

unfoldable pub channel_handle_candidates : ChannelKind → Text → List Text
channel_handle_candidates channel_kind handle =
    let trimmed = trim handle in
    let unprefixed = strip_channel_prefix trimmed in
    if is_empty trimmed
    then []
    else kind_candidates channel_kind
        (push_basic_candidates (push_basic_candidates [] trimmed) unprefixed) unprefixed
