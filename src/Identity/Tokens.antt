-- ===== src/Identity/Tokens.antt =====
-- Invitations and password resets are used once.
use wolt.Prelude.{
  ℕ, String, ◌≡◌, refl, inl, inr, true, not, ◌&&◌, none, some, arith, ◌==◌, str_eq, ltb,
  first-eq-none, first-eq-some, is_some, Option-cases,
}
use wolt.Errors.{ok, err, invalid_token}
use wolt.Db.{Db, constraints}
use wolt.Db.Models.{UserInvitation, PasswordResetToken, User}
use wolt.Db.Parts.{constraints-Parts, invitations-unique, reset_tokens-unique}
use wolt.Db.Rows.{closed_after}
use wolt.Auth.{Library, token_hash}
use wolt.Auth.Owner.{revoke_all}
use wolt.Auth.Sessions.{open_count, open_count-revoked}
use wolt.Identity.{find_user}
use wolt.Identity.Invite.{open_invitation, mark_accepted, accept_tx, accept_invitation}
use wolt.Identity.Reset.{open_reset, mark_used, complete_tx, complete_password_reset}

module _ (lib : Library) (now audit_id salt : ℕ) (token password client_ip : String)
    (db db' : Db) where
  accept_one :
      (i : UserInvitation)
      → open_invitation lib now token db ≡ some i
      → accept_tx lib now audit_id salt token password client_ip db ≡ ok (tt, db')
      → db'.invitations ≡ (mark_accepted i.id now db).invitations
  unfolding accept_tx
  accept_one i e h = ground arith

  accept_none :
      open_invitation lib now token db ≡ none
      → accept_tx lib now audit_id salt token password client_ip db ≡ err invalid_token
  unfolding accept_tx
  accept_none e = ground arith

  complete_one :
      (t : PasswordResetToken)
      → open_reset lib now token db ≡ some t
      → complete_tx lib now audit_id salt token password client_ip db ≡ ok (tt, db')
      → db'.reset_tokens ≡ (mark_used t.id now db).reset_tokens
  unfolding complete_tx
  complete_one t e h = ground arith

  complete_none :
      open_reset lib now token db ≡ none
      → complete_tx lib now audit_id salt token password client_ip db ≡ err invalid_token
  unfolding complete_tx
  complete_none e = ground arith

  complete_sessions :
      (t : PasswordResetToken)
      → open_reset lib now token db ≡ some t
      → complete_tx lib now audit_id salt token password client_ip db ≡ ok (tt, db')
      → (u : User) × (find_user t.user_id db ≡ some u)
        × (db'.sessions ≡ (revoke_all u.id now db).sessions)
  unfolding complete_tx
  complete_sessions t e h = elim (Option-cases (find_user t.user_id db)) [
    | inl missing ↦ absurd (ground arith)
    | inr (u, found) ↦ (u, found, ground arith)
  ]

open_invitation-after :
    (lib : Library) (now later : ℕ) (token : String) (db : Db) (i : UserInvitation)
    → constraints db ≡ true
    → open_invitation lib now token db ≡ some i
    → open_invitation lib later token (mark_accepted i.id now db) ≡ none
open_invitation-after lib now later token db i c found =
    first-eq-none
      (λ x.
        str_eq x.token_hash (token_hash lib token)
        && (not (is_some x.accepted_at) && ltb later x.expires_at))
      (mark_accepted i.id now db).invitations
      (closed_after (λ (x : UserInvitation). x.id) (λ x. x.token_hash)
        (λ x. not (is_some x.accepted_at) && ltb later x.expires_at)
        (λ x. record x { accepted_at = some now }) (λ x. refl) (λ x. refl) (token_hash lib token)
        (λ x. not (is_some x.accepted_at) && ltb now x.expires_at) db.invitations i
        (invitations-unique db.users db.invitations (constraints-Parts db c).invitations) found)

open_reset-after :
    (lib : Library) (now later : ℕ) (token : String) (db : Db) (t : PasswordResetToken)
    → constraints db ≡ true
    → open_reset lib now token db ≡ some t
    → open_reset lib later token (mark_used t.id now db) ≡ none
open_reset-after lib now later token db t c found =
    first-eq-none
      (λ x.
        str_eq x.token_hash (token_hash lib token)
        && (not (is_some x.used_at) && ltb later x.expires_at))
      (mark_used t.id now db).reset_tokens
      (closed_after (λ (x : PasswordResetToken). x.id) (λ x. x.token_hash)
        (λ x. not (is_some x.used_at) && ltb later x.expires_at)
        (λ x. record x { used_at = some now }) (λ x. refl) (λ x. refl) (token_hash lib token)
        (λ x. not (is_some x.used_at) && ltb now x.expires_at) db.reset_tokens t
        (reset_tokens-unique db.users db.reset_tokens (constraints-Parts db c).reset_tokens) found)

module _ (lib : Library) (now audit_id salt : ℕ) (token password client_ip : String) (db db' : Db)
    (later audit_id' salt' : ℕ) (password' client_ip' : String) (c : constraints db ≡ true) where
  -- From a database whose constraints hold, an invitation that was accepted cannot be accepted
  -- again: with the same token the second call raises `InvalidTokenError`, at any time and for any
  -- password, and changes nothing.
  pub accept_invitation_once :
      accept_invitation lib now audit_id salt token password client_ip db ≡ (ok tt, db')
      → accept_invitation lib later audit_id' salt' token password' client_ip' db'
        ≡ (err invalid_token, db')
  unfolding accept_invitation
  accept_invitation_once h = elim (Option-cases (open_invitation lib now token db)) [
    | inl closed ↦
        absurd
          (ground (arith, accept_none lib now audit_id salt token password client_ip db db' closed))
    | inr (i, found) ↦
        let marked =
          accept_one lib now audit_id salt token password client_ip db db' i found (ground arith) in
        let gone : open_invitation lib later token db' ≡ none =
          rw marked (open_invitation-after lib now later token db i c found) in
        rw (accept_none lib later audit_id' salt' token password' client_ip' db' db' gone)
  ]

  -- A reset token works once, and resetting shuts every session of its user: if the first call
  -- succeeds, from a database whose constraints hold, the token was open for some reset, no session
  -- of that reset's user is left open, and a second call with the same token raises
  -- `InvalidTokenError`, at any time and for any password, and changes nothing.
  pub complete_password_reset_once :
      complete_password_reset lib now audit_id salt token password client_ip db ≡ (ok tt, db')
      → ((t : PasswordResetToken) × (open_reset lib now token db ≡ some t)
          × (open_count t.user_id db'.sessions ≡ 0))
        × (complete_password_reset lib later audit_id' salt' token password' client_ip' db'
            ≡ (err invalid_token, db'))
  unfolding complete_password_reset
  complete_password_reset_once h = elim (Option-cases (open_reset lib now token db)) [
    | inl closed ↦
        absurd (
          ground
            (arith, complete_none lib now audit_id salt token password client_ip db db' closed))
    | inr (t, found) ↦
        let done : complete_tx lib now audit_id salt token password client_ip db ≡ ok (tt, db') =
          ground arith in
        let marked =
          complete_one lib now audit_id salt token password client_ip db db' t found done in
        let gone : open_reset lib later token db' ≡ none =
          rw marked (open_reset-after lib now later token db t c found) in
        let (u, user, revoked) =
          complete_sessions lib now audit_id salt token password client_ip db db' t found done in
        let same : u.id ≡ t.user_id =
          ground (arith, first-eq-some (λ x. x.id == t.user_id) db.users u user) in
        (
          (t, found, rw (revoked, same) (open_count-revoked t.user_id now db.sessions)),
          rw (complete_none lib later audit_id' salt' token password' client_ip' db' db' gone),
        )
  ]
