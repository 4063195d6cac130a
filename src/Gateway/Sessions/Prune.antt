-- ===== src/Gateway/Sessions/Prune.antt =====
-- What pruning in sessions.rs leaves.
use ngen_orca.Gateway.Sessions.{
  pair_key, prune_session, prune_all, prune_expired, SessionManager, expired_ids, is_expired, hour,
}
use ngen_orca.Base.{
  List, ℕ, Bool, Option, All, any, lookup, ◌≡◌, ◌==◌, some, if◌then◌else◌, nat_key, none,
  Option-cases, ◌∷◌, true, get_or, inl, [], Bool-cases, inr, refl, lookup-remove, subst, ==_sound,
  false, sym, ◌||◌, ◌∙◌, ap, ◌+◌, ◌<◌, ◌≤◌, arith,
}
use ngen_orca.Core.Session.{Session}

-- A map has one entry for a key, the one that a lookup finds.
abbrev pub IsMap : List (ℕ × Session) → Type 0
IsMap entries = All (λ e. lookup e.0 entries ≡ some e.1) entries

abbrev listed : ℕ → List ℕ → Bool
listed id ids = any (λ j. j == id) ids

lookup-prune_session :
    (m : SessionManager) (id j : ℕ)
    → lookup j (prune_session m id).sessions ≡ (if id == j then none else lookup j m.sessions)
unfolding prune_session
lookup-prune_session m id j = elim (Option-cases (lookup id m.sessions)) [
  | inl e ↦
      rw (e, prune_session)
        (elim (Bool-cases (id == j)) [
          | inl hit ↦ rw hit (subst (λ k. lookup k m.sessions ≡ none) (==_sound hit) e)
          | inr miss ↦ rw miss refl
        ])
  | inr (s, e) ↦ rw (e, prune_session) (lookup-remove id j m.sessions)
]

if_same {ℓ} : {A : Type ℓ} {a : A} (b : Bool) → (if b then a else a) ≡ a
if_same true = refl
if_same false = refl

lookup-prune_all :
    (ids : List ℕ) (m : SessionManager) (j : ℕ)
    → lookup j (prune_all m ids).sessions ≡ (if listed j ids then none else lookup j m.sessions)
unfolding prune_all
lookup-prune_all [] m j = refl
lookup-prune_all (id ∷ ids) m j =
    rw (lookup-prune_all ids (prune_session m id) j, lookup-prune_session m id j)
      (elim (Bool-cases (id == j)) [
        | inl hit ↦ rw hit (if_same (listed j ids))
        | inr miss ↦ rw miss refl
      ])

-- The ids that are pruned are those of expired sessions.
listed-expired_ids :
    (ttl now j : ℕ) (full entries : List (ℕ × Session))
    → All (λ e. lookup e.0 full ≡ some e.1) entries
    → listed j (expired_ids ttl now entries) ≡ true
    → (s : Session) × (lookup j full ≡ some s) × (is_expired ttl now s ≡ true)
listed-expired_ids ttl now j full [] all e = absurd cc
listed-expired_ids ttl now j full ((id, s) ∷ entries) (here, all) e =
    elim (Bool-cases (is_expired ttl now s)) [
      | inl old ↦
          let there : listed j (id ∷ expired_ids ttl now entries) ≡ true =
            subst
              (λ b.
                listed j
                  (if b then id ∷ expired_ids ttl now entries else expired_ids ttl now entries)
                ≡ true)
              old e in
          elim (Bool-cases (id == j)) [
            | inl hit ↦ (s, subst (λ k. lookup k full ≡ some s) (==_sound hit) here, old)
            | inr miss ↦
                listed-expired_ids ttl now j full entries all
                  (subst (λ b. (b || listed j (expired_ids ttl now entries)) ≡ true) miss there)
          ]
      | inr young ↦ listed-expired_ids ttl now j full entries all (
          subst
            (λ b.
              listed j (if b then id ∷ expired_ids ttl now entries else expired_ids ttl now entries)
              ≡ true)
            young e)
    ]

expired-listed :
    (ttl now j : ℕ) (entries : List (ℕ × Session)) (s : Session)
    → lookup j entries ≡ some s
    → is_expired ttl now s ≡ true
    → listed j (expired_ids ttl now entries) ≡ true
expired-listed ttl now j [] s e old = absurd cc
expired-listed ttl now j ((id, t) ∷ entries) s e old = elim (Bool-cases (id == j)) [
  | inl hit ↦
      let same_session : some t ≡ some s =
        subst (λ b. (if b then some t else lookup j entries) ≡ some s) hit e in
      let gone : is_expired ttl now t ≡ true =
        subst (λ o. is_expired ttl now (get_or o t) ≡ true) (sym same_session) old in
      rw (gone, hit) refl
  | inr miss ↦
      let later =
        expired-listed ttl now j entries s
          (subst (λ b. (if b then some t else lookup j entries) ≡ some s) miss e) old in
      elim (Bool-cases (is_expired ttl now t)) [
        | inl gone ↦ rw (gone, later, miss) refl
        | inr stays ↦ rw stays later
      ]
]

lookup-prune_ids :
    (m : SessionManager) (time now j : ℕ)
    → IsMap m.sessions
    → lookup j (prune_all m (expired_ids time now m.sessions)).sessions
      ≡ elim (lookup j m.sessions) [
        | none ↦ none
        | some s ↦ if is_expired time now s then none else some s
      ]
lookup-prune_ids m time now j is_map =
    let ids = expired_ids time now m.sessions in
    rw (lookup-prune_all ids m j) (elim (Option-cases (lookup j m.sessions)) [
      | inl absent ↦ rw absent (if_same (listed j ids))
      | inr (s, here) ↦ elim (Bool-cases (is_expired time now s)) [
        | inl old ↦ rw (here, old, expired-listed time now j m.sessions s here old) refl
        | inr young ↦ elim (Bool-cases (listed j ids)) [
          | inr kept ↦ rw (here, young, kept) refl
          | inl gone ↦
              let (t, there, old) =
                listed-expired_ids time now j m.sessions m.sessions is_map gone in
              let same_session : t ≡ s = cc (here, there) in
              let bad : true ≡ false = sym old ∙ ap (is_expired time now) same_session ∙ young in
              absurd cc
        ]
      ]
    ])

-- What becomes of a place in the map, before and after, at a time now.
pub data Fate (time now : ℕ) : Option Session → Option Session → Type 0 where
  absent : Fate time now none none
  dropped : (s : Session) → s.last_active + time < now → Fate time now (some s) none
  kept : (s : Session) → now ≤ s.last_active + time → Fate time now (some s) (some s)

Fate-is_expired :
    (time now : ℕ) (o : Option Session)
    → Fate time now o
        (elim o [ none ↦ none | some s ↦ if is_expired time now s then none else some s ])
Fate-is_expired time now none = absent
Fate-is_expired time now (some s) = elim (Bool-cases (is_expired time now s)) [
  | inl e ↦ let old : s.last_active + time < now = ground arith in rw e (dropped s old)
  | inr e ↦ let young : now ≤ s.last_active + time = ground arith in rw e (kept s young)
]

-- Where now less the time to live (an hour, where chrono refuses the time given) is a time of chrono,
-- pruning a map drops exactly the sessions whose last use is more than the time to live before now, and
-- leaves every other session as it was.
pub lookup-prune_expired :
    (from_std : ℕ → Option ℕ) (in_range : ℕ → ℕ → Bool) (m : SessionManager) (ttl now j : ℕ)
    → IsMap m.sessions
    → in_range now (get_or (from_std ttl) 3600000000000) ≡ true
    → Fate
        (get_or (from_std ttl) 3600000000000)
        now
        (lookup j m.sessions)
        (lookup j (prune_expired from_std in_range m ttl now).1.sessions)
unfolding prune_expired
lookup-prune_expired from_std in_range m ttl now j is_map fits =
    let time = get_or (from_std ttl) hour in
    rw (fits, prune_expired)
      (subst (Fate time now (lookup j m.sessions)) (sym (lookup-prune_ids m time now j is_map))
        (Fate-is_expired time now (lookup j m.sessions)))
