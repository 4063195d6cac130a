-- ===== src/Gateway/Workspace/Inside.antt =====
-- Where the paths that tools.rs accepts lie.
use ngen_orca.Base.{
  ◌∷◌, [], refl, All, ◌++◌, All-append, ◌≡◌, true, ap, arith, ok, same_sound, Result, if◌then◌else◌,
  Bool-cases, err, inl, subst, inr,
}
use ngen_orca.Gateway.Workspace.{
  Component, PathBuf, resolve_workspace_path, normal, root_dir, cur_dir, parent_dir, pop, push,
  push_all, normalize_path, same_component, starts_with, join, is_absolute, components,
}
use ngen_orca.Identity.Texts.{Text}

unfoldable pub IsName : Component → Type 0
IsName (normal s) = Unit
IsName root_dir = ⊥
IsName cur_dir = ⊥
IsName parent_dir = ⊥

-- Names only: no root, no dots.
abbrev pub Names : PathBuf → Type 0
Names path = All IsName path

-- Names behind a root.
unfoldable pub Rooted : PathBuf → Type 0
Rooted [] = ⊥
Rooted (root_dir ∷ more) = Names more
Rooted (normal s ∷ more) = ⊥
Rooted (cur_dir ∷ more) = ⊥
Rooted (parent_dir ∷ more) = ⊥

pop-Names : (path : PathBuf) → Names path → Names (pop path)
unfolding IsName pop
pop-Names [] h = tt
pop-Names (normal s ∷ []) h = tt
pop-Names (root_dir ∷ []) h = absurd h.0
pop-Names (cur_dir ∷ []) h = tt
pop-Names (parent_dir ∷ []) h = tt
pop-Names (a ∷ b ∷ more) h = (h.0, pop-Names (b ∷ more) h.1)

pop-Rooted : (path : PathBuf) → Rooted path → Rooted (pop path)
unfolding Rooted pop
pop-Rooted [] h = absurd h
pop-Rooted (root_dir ∷ []) h = tt
pop-Rooted (root_dir ∷ b ∷ more) h = pop-Names (b ∷ more) h
pop-Rooted (normal s ∷ more) h = absurd h
pop-Rooted (cur_dir ∷ more) h = absurd h
pop-Rooted (parent_dir ∷ more) h = absurd h

Rooted-append : (path rest : PathBuf) → Rooted path → Names rest → Rooted (path ++ rest)
unfolding Rooted
Rooted-append [] rest h k = absurd h
Rooted-append (root_dir ∷ more) rest h k = All-append IsName more rest h k
Rooted-append (normal s ∷ more) rest h k = absurd h
Rooted-append (cur_dir ∷ more) rest h k = absurd h
Rooted-append (parent_dir ∷ more) rest h k = absurd h

push-Rooted : (path : PathBuf) (a : Component) → Rooted path → Rooted (push path a)
unfolding push Rooted IsName
push-Rooted path root_dir h = tt
push-Rooted path cur_dir h = h
push-Rooted path parent_dir h = pop-Rooted path h
push-Rooted path (normal s) h = Rooted-append path (normal s ∷ []) h (tt, tt)

push_all-Rooted : (path more : PathBuf) → Rooted path → Rooted (push_all path more)
unfolding push_all
push_all-Rooted path [] h = h
push_all-Rooted path (a ∷ more) h = push_all-Rooted (push path a) more (push-Rooted path a h)

pub normalize_path-Rooted :
    (path : PathBuf) → is_absolute path ≡ true → Rooted (normalize_path path)
unfolding normalize_path push_all push is_absolute Rooted
normalize_path-Rooted [] e = absurd cc
normalize_path-Rooted (root_dir ∷ more) e = push_all-Rooted (root_dir ∷ []) more tt
normalize_path-Rooted (normal s ∷ more) e = absurd cc
normalize_path-Rooted (cur_dir ∷ more) e = absurd cc
normalize_path-Rooted (parent_dir ∷ more) e = absurd cc

same_component_sound : (a b : Component) → same_component a b ≡ true → a ≡ b
unfolding same_component
same_component_sound root_dir root_dir e = refl
same_component_sound root_dir cur_dir e = absurd cc
same_component_sound root_dir parent_dir e = absurd cc
same_component_sound root_dir (normal t) e = absurd cc
same_component_sound cur_dir root_dir e = absurd cc
same_component_sound cur_dir cur_dir e = refl
same_component_sound cur_dir parent_dir e = absurd cc
same_component_sound cur_dir (normal t) e = absurd cc
same_component_sound parent_dir root_dir e = absurd cc
same_component_sound parent_dir cur_dir e = absurd cc
same_component_sound parent_dir parent_dir e = refl
same_component_sound parent_dir (normal t) e = absurd cc
same_component_sound (normal s) root_dir e = absurd cc
same_component_sound (normal s) cur_dir e = absurd cc
same_component_sound (normal s) parent_dir e = absurd cc
same_component_sound (normal s) (normal t) e = ap normal (same_sound e)

starts_with-parts :
    (path base : PathBuf) → starts_with path base ≡ true → (rest : PathBuf) × (path ≡ base ++ rest)
unfolding starts_with
starts_with-parts path [] e = (path, refl)
starts_with-parts [] (b ∷ base) e = absurd cc
starts_with-parts (a ∷ path) (b ∷ base) e =
    let heads : same_component a b ≡ true = ground arith in
    let tails : starts_with path base ≡ true = ground arith in
    let (rest, f) = starts_with-parts path base tails in
    (rest, rw (same_component_sound a b heads, f) refl)

Names-rest : (base rest : PathBuf) → Names (base ++ rest) → Names rest
Names-rest [] rest h = h
Names-rest (a ∷ base) rest h = Names-rest base rest h.1

Rooted-rest : (base rest : PathBuf) → Rooted base → Rooted (base ++ rest) → Names rest
unfolding Rooted
Rooted-rest [] rest h k = absurd h
Rooted-rest (root_dir ∷ base) rest h k = Names-rest base rest k
Rooted-rest (normal s ∷ base) rest h k = absurd h
Rooted-rest (cur_dir ∷ base) rest h k = absurd h
Rooted-rest (parent_dir ∷ base) rest h k = absurd h

join-Rooted : (base path : PathBuf) → Rooted base → is_absolute (join base path) ≡ true
unfolding Rooted join is_absolute
join-Rooted [] path h = absurd h
join-Rooted (normal s ∷ base) path h = absurd h
join-Rooted (cur_dir ∷ base) path h = absurd h
join-Rooted (parent_dir ∷ base) path h = absurd h
join-Rooted (root_dir ∷ base) [] h = refl
join-Rooted (root_dir ∷ base) (root_dir ∷ more) h = refl
join-Rooted (root_dir ∷ base) (cur_dir ∷ more) h = refl
join-Rooted (root_dir ∷ base) (parent_dir ∷ more) h = refl
join-Rooted (root_dir ∷ base) (normal s ∷ more) h = refl

-- What an absolute workspace makes of the path that is looked up.
inside-Names :
    (base candidate path : PathBuf) (requested : Text)
    → Rooted base
    → Rooted candidate
    → ◌≡◌ {A = Result Text PathBuf}
        (if starts_with candidate base then ok candidate else err requested)
        (ok path)
    → (rest : PathBuf) × (path ≡ base ++ rest) × Names rest
inside-Names base candidate path requested hb hc e =
    elim (Bool-cases (starts_with candidate base)) [
      | inl f ↦
          let (rest, g) = starts_with-parts candidate base f in
          let same_path : ◌≡◌ {A = Result Text PathBuf} (ok candidate) (ok path) = rw f at e in
          (rest, cc, Rooted-rest base rest hb (subst Rooted g hc))
      | inr f ↦
          let bad : ◌≡◌ {A = Result Text PathBuf} (err requested) (ok path) = rw f at e in absurd cc
    ]

-- Where the workspace is an absolute path, a path that is accepted, whatever was requested, is the
-- normalized workspace followed by names: no part of it leads out again.
pub resolve_workspace_path-Names :
    (workspace path : PathBuf) (requested : Text)
    → is_absolute workspace ≡ true
    → resolve_workspace_path workspace requested ≡ ok path
    → (rest : PathBuf) × (path ≡ normalize_path workspace ++ rest) × Names rest
unfolding resolve_workspace_path
resolve_workspace_path-Names workspace path requested absolute e =
    let base = normalize_path workspace in
    let rooted = normalize_path-Rooted workspace absolute in
    let req_path = components requested in
    elim (Bool-cases (is_absolute req_path)) [
      | inl f ↦
          inside-Names base (normalize_path req_path) path requested rooted
            (normalize_path-Rooted req_path f) (rw f at e)
      | inr f ↦
          inside-Names base (normalize_path (join base req_path)) path requested rooted
            (normalize_path-Rooted (join base req_path) (join-Rooted base req_path rooted))
            (rw f at e)
    ]
