-- ===== src/Gateway/Sessions/Tests.antt =====
-- Runs of the session manager.
use ngen_orca.Base.{some, err, ok, true}
use ngen_orca.Gateway.Sessions.{
  pair_key, SessionManager, get_or_create, promote_to_user, new, new_session, promote_session,
  prune_expired, create_session, active_session_for_key, is_live,
}
use ngen_orca.Gateway.Sessions.Owned.{Owned}
use ngen_orca.Base.{Bytes, ℕ, lookup, codes, some, [], ◌≡◌, ok, nat_key, refl, err}
use ngen_orca.Core.Session.{Session, medium}
use ngen_orca.Gateway.Sessions.Reached.{Reached-Owned, Reached, called, start}
use ngen_orca.Gateway.Sessions.Reuse.{get_or_create-twice}
use ngen_orca.Gateway.Sessions.Promote.{PromotedTo, promote_to_user-PromotedTo}
use ngen_orca.Gateway.Sessions.Prune.{IsMap, Fate, lookup-prune_expired}

abbrev alias : Bytes
alias = codes "wa:alice"

abbrev alice : Bytes
alice = codes "alice"

abbrev web : Bytes
web = codes "webchat"

-- One session of the alias, number 7.
abbrev one : SessionManager
one = (get_or_create (new [] medium) (some alias) web 7 100).1

-- Then one of the user, number 8.
abbrev two : SessionManager
two = (get_or_create one (some alice) web 8 200).1

abbrev alias_session : Session
alias_session = new_session one (some alias) web 7 100

two-Reached : Reached [] medium two
unfolding get_or_create new create_session active_session_for_key
two-Reached =
    called one (some alice) web 8 200 refl
      (called (new [] medium) (some alias) web 7 100 refl start)

stored : lookup 7 two.sessions ≡ some alias_session
unfolding get_or_create new create_session active_session_for_key
stored = refl

Reached-Owned_example : Owned two
Reached-Owned_example = Reached-Owned [] medium two two-Reached

promote_to_user-PromotedTo_example :
    (id' : ℕ) × (m' : SessionManager) × (promote_to_user two 7 alice 300 ≡ ok (id', m'))
    × PromotedTo 7 alias_session alice id' m'
promote_to_user-PromotedTo_example =
    promote_to_user-PromotedTo two 7 alias_session alice 300
      (Reached-Owned [] medium two two-Reached) stored

-- The user's own session is taken, and the alias' one ended.
abbrev promoted_id : ℕ
promoted_id = elim (promote_to_user two 7 alice 300) [ err e ↦ 0 | ok r ↦ r.0 ]

promotes_to_8 : promoted_id ≡ 8
unfolding promote_to_user promote_session get_or_create new create_session active_session_for_key
    is_live
promotes_to_8 = refl

two-IsMap : IsMap two.sessions
unfolding get_or_create new create_session active_session_for_key
two-IsMap = (refl, (refl, tt))

lookup-prune_expired_example :
    Fate 50 240
      (lookup 8 two.sessions)
      (lookup 8 (prune_expired some (λ now ttl. true) two 50 240).1.sessions)
lookup-prune_expired_example =
    lookup-prune_expired some (λ now ttl. true) two 50 240 8 two-IsMap refl

get_or_create-twice_example :
    get_or_create (get_or_create one (some alice) web 8 200).1 (some alice) web 9 300
    ≡ get_or_create one (some alice) web 8 200
get_or_create-twice_example = get_or_create-twice one alice web 8 200 9 300
