-- ===== src/Auth/Reset/SingleUse.antt =====
-- A reset retires every open token of its user.
use go_bootstrap.Prelude.{
  ℕ, ◌≤◌, String, ◌≡◌, refl, ap, ◌∙◌, Bool, true, not, ◌&&◌, none, some, List, [], ◌∷◌, arith, keep,
  nat_eq, nat_eq_iff, any-keep, is_some, map_if, All, Bool-cases, inl, inr,
}
use go_bootstrap.Errors.{sentinel, reset_token_invalid, ok, err}
use go_bootstrap.Store.{User, PasswordResetToken, Store, Tables, no_fault}
use go_bootstrap.Platform.{Platform}
use go_bootstrap.Db.Queries.{only, find_exactly_one-eq}
use go_bootstrap.Auth.Reset.{
  hash_reset_token, is_live, live_tokens, live_reset_token, check_reset_token, retire_tokens,
  set_password, reset_password,
}
use go_bootstrap.Auth.Reset.Retiring.{reset_password-IsReset}

-- Every row that passes a test belongs to a user.
abbrev Owned : ℕ → (PasswordResetToken → Bool) → List PasswordResetToken → Type 0
Owned id q = All (λ r. q r ≡ true → r.user_id ≡ id)

Owned-nil :
    (id : ℕ) (q : PasswordResetToken → Bool) (ts : List PasswordResetToken)
    → keep q ts ≡ []
    → Owned id q ts
Owned-nil id q [] h = tt
Owned-nil id q (r ∷ ts) h = elim (Bool-cases (q r)) [
  | inl passed ↦ cc (rw passed at h)
  | inr failed ↦ (λ passed. cc (failed, passed), Owned-nil id q ts (rw failed at h))
]

Owned-single :
    (q : PasswordResetToken → Bool) (row : PasswordResetToken) (ts : List PasswordResetToken)
    → keep q ts ≡ row ∷ []
    → Owned row.user_id q ts
Owned-single q row [] h = tt
Owned-single q row (r ∷ ts) h = elim (Bool-cases (q r)) [
  | inl passed ↦
      let h' : r ∷ keep q ts ≡ row ∷ [] = rw passed at h in
      let same : r ≡ row = cc h' in
      (λ _. ap (λ (t : PasswordResetToken). t.user_id) same, Owned-nil row.user_id q ts (cc h'))
  | inr failed ↦ (λ passed. cc (failed, passed), Owned-single q row ts (rw failed at h))
]

-- Marking a user's open tokens as used leaves none of the rows live that were his, then or later.
keep-retired :
    (hash : String) (id now later at : ℕ) (ts : List PasswordResetToken)
    → now ≤ later
    → Owned id (is_live hash now) ts
    → keep (is_live hash later) (
        map_if
          (λ r. nat_eq r.user_id id && not (is_some r.used_at))
          (λ r. record r { used_at = some at })
          ts)
      ≡ []
unfolding is_live
keep-retired hash id now later at [] h k = refl
keep-retired hash id now later at (r ∷ ts) h k =
    ground (arith, k.0, keep-retired hash id now later at ts h k.1)

check_reset_token-invalid :
    (p : Platform) (token : String) (s : Store)
    → s.faults s.calls ≡ no_fault
    → keep (is_live (hash_reset_token p token) s.db_now) s.tables.tokens ≡ []
    → (check_reset_token p token s).0 ≡ err (sentinel reset_token_invalid)
unfolding check_reset_token live_reset_token live_tokens only
check_reset_token-invalid p token s quiet gone = rw (
  find_exactly_one-eq p (live_tokens (hash_reset_token p token)) s
      (keep (is_live (hash_reset_token p token) s.db_now) s.tables.tokens) none s.tables quiet refl,
  gone,
)

-- After a reset that succeeds and returns a user, a token that was live for that user, the one that
-- was used among them, is refused as invalid, at any later time, while the tables are as the reset
-- left them and the query does not fail.
pub reset_password-retires :
    (p : Platform) (token password other : String) (s s' : Store) (user : User)
    (row : PasswordResetToken)
    → (reset_password p token password s).0 ≡ ok user
    → keep (is_live (hash_reset_token p other) s.db_now) s.tables.tokens ≡ row ∷ []
    → row.user_id ≡ user.id
    → s'.tables ≡ (reset_password p token password s).1.tables
    → s.db_now ≤ s'.db_now
    → s'.faults s'.calls ≡ no_fault
    → (check_reset_token p other s').0 ≡ err (sentinel reset_token_invalid)
unfolding set_password retire_tokens
reset_password-retires p token password other s s' user row h live same left later quiet =
    let done = (reset_password-IsReset p token password s user h).1 in
    let owner : user.id ≡ done.row.user_id =
      (nat_eq_iff _ _).0 (any-keep (λ u. nat_eq u.id done.row.user_id) user _ [] done.returned) in
    check_reset_token-invalid p other s' quiet (
      rw (ap (λ (t : Tables). t.tokens) left ∙ done.tokens) (
        keep-retired (hash_reset_token p other) done.row.user_id s.db_now s'.db_now s.db_now
          s.tables.tokens later (rw⁻¹ (same ∙ owner) (Owned-single _ row s.tables.tokens live))))
