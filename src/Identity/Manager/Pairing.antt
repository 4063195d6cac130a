-- ===== src/Identity/Manager/Pairing.antt =====
-- Pairing requests are completed once.
use ngen_orca.Identity.Manager.{
  pair_request, ensure_user, link_request, pair_device, register_user, PairingCompletion, carry_out,
  or_else, Primitives, pair_and_close, complete_pairing_request, close_request, is_some,
}
use ngen_orca.Base.{
  refl, ap, none, List, ◌≤◌, false, subst, same, sym, ◌∙◌, lookup-modify, and_then-parts,
}
use ngen_orca.Identity.Store.{
  add_device, save_user, Tables, PairingRequest, get_user, is_user, mark_pairing_request_completed,
  row_of, get_pairing_request, already_done,
}
use ngen_orca.Base.{
  ℕ, ◌≡◌, true, arith, Option-cases, lookup, inl, lookup-insert, inr, err, Bytes, get_or, ok,
  modify, same_refl, some, text_key,
}
use ngen_orca.Identity.Manager.Linking.{link_channel-pairing_requests}
use ngen_orca.Core.Identity.{UserIdentity}
use ngen_orca.Identity.Manager.Steps.{on_open-parts, is_some-false}

pair_request-pairing_requests :
    (t : Tables) (r : PairingRequest) (c : PairingCompletion) (now : ℕ)
    → (pair_request t r c now).1.pairing_requests ≡ t.pairing_requests
unfolding pair_request pair_device add_device
pair_request-pairing_requests t r c now = ground arith

ensure_user-is_user :
    (t : Tables) (r : PairingRequest) (c : PairingCompletion) (now : ℕ)
    → is_user (ensure_user t r c now) c.user_id ≡ true
unfolding ensure_user register_user save_user get_user
ensure_user-is_user t r c now = elim (Option-cases (lookup c.user_id t.users)) [
  | inl e ↦ ground (
    arith,
    lookup-insert c.user_id c.user_id
        (row_of
          (register_user t c.user_id
            (get_or (or_else c.display_name r.requested_display_name) c.user_id) c.role now).0)
        t.users,
    same_refl c.user_id,
  )
  | inr (row, e) ↦ ground arith
]

ensure_user-pairing_requests :
    (t : Tables) (r : PairingRequest) (c : PairingCompletion) (now : ℕ)
    → (ensure_user t r c now).pairing_requests ≡ t.pairing_requests
unfolding ensure_user register_user save_user
ensure_user-pairing_requests t r c now = ground arith

link_request-pairing_requests :
    (o : Primitives) (t : Tables) (r : PairingRequest) (c : PairingCompletion) (now : ℕ)
    → is_user t c.user_id ≡ true
    → (link_request o t r c now).1.pairing_requests ≡ t.pairing_requests
unfolding link_request
link_request-pairing_requests o t r c now e = elim (Option-cases r.channel_kind) [
  | inl f ↦ rw (f, link_request) refl
  | inr (kind, f) ↦ elim (Option-cases r.handle) [
    | inl g ↦ rw (f, g, link_request) refl
    | inr (handle, g) ↦
        rw (f, g, link_request) (link_channel-pairing_requests t c.user_id _ kind handle now e)
  ]
]

-- A run that succeeded has marked the request, and changed no other.
carry_out-pairing_requests :
    (o : Primitives) (t : Tables) (id : Bytes) (r : PairingRequest) (c : PairingCompletion)
    (now : ℕ) (u : UserIdentity) (t' : Tables)
    → carry_out o t id r c now ≡ (ok u, t')
    → t'.pairing_requests ≡ modify id (λ q. record q { completed_at = some now }) t.pairing_requests
unfolding carry_out pair_and_close close_request mark_pairing_request_completed
carry_out-pairing_requests o t id r c now u t' e =
    let t0 : Tables = ensure_user t r c now in
    let change : List (Bytes × PairingRequest) → List (Bytes × PairingRequest) =
      modify id (λ q. record q { completed_at = some now }) in
    let (a, t1, linked, e1) =
      and_then-parts (link_request o t0 r c now) (λ _ t. pair_and_close id r c now t) u t' e in
    let (b, t2, paired, e2) =
      and_then-parts (pair_request t1 r c now) (λ _ t. close_request t id c.user_id now) u t' e1 in
    let kept1 : t1.pairing_requests ≡ t0.pairing_requests =
      subst (λ d. d.1.pairing_requests ≡ t0.pairing_requests) linked
        (link_request-pairing_requests o t0 r c now (ensure_user-is_user t r c now)) in
    let kept2 : t2.pairing_requests ≡ t1.pairing_requests =
      subst (λ d. d.1.pairing_requests ≡ t1.pairing_requests) paired
        (pair_request-pairing_requests t1 r c now) in
    let marked : change t2.pairing_requests ≡ t'.pairing_requests =
      ap (λ p. p.1.pairing_requests) e2 in
    sym marked ∙ ap change (kept2 ∙ kept1 ∙ ensure_user-pairing_requests t r c now)

-- The request was open, and is closed: what a later completion of it comes to.
pub record Completed (o : Primitives) (t : Tables) (id : Bytes) (now : ℕ) (t' : Tables)
    : Type 0 where
  pub request : PairingRequest
  pub found : get_pairing_request t id ≡ some request
  pub open_before : request.completed_at ≡ none
  pub in_time : now ≤ request.expires_at
  pub marked : get_pairing_request t' id ≡ some (record request { completed_at = some now })
  pub others : (j : Bytes) → same id j ≡ false → get_pairing_request t' j ≡ get_pairing_request t j
  pub refused :
      (c : PairingCompletion) (later : ℕ)
      → complete_pairing_request o t' id c later ≡ (err (already_done id), t')

refused-completed :
    (o : Primitives) (t : Tables) (id : Bytes) (r : PairingRequest) (at : ℕ) (c : PairingCompletion)
    (now : ℕ)
    → get_pairing_request t id ≡ some r
    → r.completed_at ≡ some at
    → complete_pairing_request o t id c now ≡ (err (already_done id), t)
unfolding complete_pairing_request get_pairing_request
refused-completed o t id r at c now e f = rw (e, f, complete_pairing_request) refl

-- A completion that succeeds was of a request that was there, open and not expired. The request is marked
-- with the time, no other request changes, and every later completion of it is refused and leaves the
-- tables.
pub complete_pairing_request-Completed :
    (o : Primitives) (t : Tables) (id : Bytes) (c : PairingCompletion) (now : ℕ) (u : UserIdentity)
    (t' : Tables)
    → complete_pairing_request o t id c now ≡ (ok u, t')
    → Completed o t id now t'
unfolding complete_pairing_request get_pairing_request
complete_pairing_request-Completed o t id c now u t' e =
    let (r, found, fresh, in_time, carried) =
      on_open-parts t id (λ r. is_some r.completed_at) (λ r. r.expires_at) now
        (λ r. carry_out o t id r c now) (lookup id t.pairing_requests) u t' e in
    let change : PairingRequest → PairingRequest = λ q. record q { completed_at = some now } in
    let requests = carry_out-pairing_requests o t id r c now u t' carried in
    let marked : lookup id t'.pairing_requests ≡ some (change r) =
      rw (requests, lookup-modify id id change t.pairing_requests, same_refl id, found) refl in
    record {
      request = r;
      found = found;
      open_before = is_some-false r.completed_at fresh;
      in_time = in_time;
      marked = marked;
      others = λ j apart. rw (requests, lookup-modify id j change t.pairing_requests, apart) refl;
      refused = λ c' later. refused-completed o t' id (change r) now c' later marked refl;
    }
