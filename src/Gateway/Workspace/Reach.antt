-- ===== src/Gateway/Workspace/Reach.antt =====
-- The requests that tools.rs answers with a path of the workspace.
use ngen_orca.Base.{
  ◌∷◌, [], refl, append_assoc, append-nil, ◌++◌, ◌≡◌, All-append, sym, false, true, ◌∙◌, same_refl,
  ok, ap,
}
use ngen_orca.Gateway.Workspace.Inside.{Names, IsName, Rooted, normalize_path-Rooted}
use ngen_orca.Gateway.Workspace.{
  Component, PathBuf, resolve_workspace_path, normal, root_dir, cur_dir, parent_dir, push_all,
  normalize_path, is_absolute, join, same_component, starts_with, push, components,
}
use ngen_orca.Identity.Texts.{Text}

push_all-Names : (path ns : PathBuf) → Names ns → push_all path ns ≡ path ++ ns
unfolding push_all push IsName
push_all-Names path [] h = sym (append-nil path)
push_all-Names path (normal s ∷ ns) h =
    push_all-Names (path ++ normal s ∷ []) ns h.1 ∙ append_assoc path (normal s ∷ []) ns
push_all-Names path (root_dir ∷ ns) h = absurd h.0
push_all-Names path (cur_dir ∷ ns) h = absurd h.0
push_all-Names path (parent_dir ∷ ns) h = absurd h.0

-- A path in normal form stays.
normalize_path_fixed : (base : PathBuf) → Rooted base → normalize_path base ≡ base
unfolding normalize_path push_all push Rooted
normalize_path_fixed [] h = absurd h
normalize_path_fixed (root_dir ∷ ns) h = push_all-Names (root_dir ∷ []) ns h
normalize_path_fixed (normal s ∷ ns) h = absurd h
normalize_path_fixed (cur_dir ∷ ns) h = absurd h
normalize_path_fixed (parent_dir ∷ ns) h = absurd h

is_absolute-Names : (ns : PathBuf) → Names ns → is_absolute ns ≡ false
unfolding is_absolute IsName
is_absolute-Names [] h = refl
is_absolute-Names (normal s ∷ ns) h = refl
is_absolute-Names (root_dir ∷ ns) h = absurd h.0
is_absolute-Names (cur_dir ∷ ns) h = refl
is_absolute-Names (parent_dir ∷ ns) h = refl

join-Names : (base ns : PathBuf) → Names ns → join base ns ≡ base ++ ns
unfolding join IsName
join-Names [] ns h = refl
join-Names (a ∷ base) [] h = sym (append-nil (a ∷ base))
join-Names (a ∷ base) (normal s ∷ ns) h = refl
join-Names (a ∷ base) (root_dir ∷ ns) h = absurd h.0
join-Names (a ∷ base) (cur_dir ∷ ns) h = absurd h.0
join-Names (a ∷ base) (parent_dir ∷ ns) h = absurd h.0

same_component_refl : (a : Component) → same_component a a ≡ true
unfolding same_component
same_component_refl root_dir = refl
same_component_refl cur_dir = refl
same_component_refl parent_dir = refl
same_component_refl (normal s) = same_refl s

starts_with-append : (base rest : PathBuf) → starts_with (base ++ rest) base ≡ true
unfolding starts_with
starts_with-append [] rest = refl
starts_with-append (a ∷ base) rest =
    let same_head = same_component_refl a in rw (same_head, starts_with-append base rest) refl

Rooted-Names : (base ns : PathBuf) → Rooted base → Names ns → Rooted (base ++ ns)
unfolding Rooted
Rooted-Names [] ns h k = absurd h
Rooted-Names (root_dir ∷ more) ns h k = All-append IsName more ns h k
Rooted-Names (normal s ∷ more) ns h k = absurd h
Rooted-Names (cur_dir ∷ more) ns h k = absurd h
Rooted-Names (parent_dir ∷ more) ns h k = absurd h

-- Where the workspace is an absolute path, a request that consists of names is accepted, and is looked up
-- below the normalized workspace.
pub resolve_workspace_path-components :
    (workspace : PathBuf) (requested : Text)
    → is_absolute workspace ≡ true
    → Names (components requested)
    → resolve_workspace_path workspace requested
      ≡ ok (normalize_path workspace ++ components requested)
unfolding resolve_workspace_path
resolve_workspace_path-components workspace requested absolute h =
    let base = normalize_path workspace in
    let ns = components requested in
    let rooted = normalize_path-Rooted workspace absolute in
    let relative = is_absolute-Names ns h in
    let joined : normalize_path (join base ns) ≡ base ++ ns =
      ap normalize_path (join-Names base ns h)
      ∙ normalize_path_fixed (base ++ ns) (Rooted-Names base ns rooted h) in
    let inside = starts_with-append base ns in rw (relative, joined, inside) refl
