-- ===== src/Auth/Reset/Issuing.antt =====
-- A token that CreatePasswordResetTx issues is live for an hour.
use go_bootstrap.Prelude.{
  ℕ, suc, ◌+◌, String, ◌≡◌, refl, ap, ◌∙◌, Bool, true, false, none, List, [], ◌∷◌, ◌++◌, arith,
  ◌==◌, eq_refl, if◌then◌else◌, ltb, keep, any, nat_eq, keep-append, Bool-cases, inl, inr,
}
use go_bootstrap.Errors.{sentinel, reset_token_invalid, ok, err}
use go_bootstrap.Store.{User, PasswordResetToken, Store, no_fault, Tables}
use go_bootstrap.Platform.{Platform}
use go_bootstrap.Db.{insert}
use go_bootstrap.Db.RowMap.{is_unset, lookup, lookup-filter_unset}
use go_bootstrap.Db.Queries.{only, find_exactly_one-eq}
use go_bootstrap.Auth.Users.Signin.{matching, by_email_lem, called}
use go_bootstrap.Auth.Reset.{
  reset_token_ttl, hash_reset_token, to_row_map, new_token, add_token, insert_token, token_of,
  create_password_reset, is_live, live_tokens, live_reset_token, check_reset_token,
}

-- the row of an issued token
abbrev pub issued : Platform → User → String → ℕ → ℕ → ℕ → PasswordResetToken
issued p user token id app_now db_now = record {
  id = id;
  user_id = user.id;
  token_hash = hash_reset_token p token;
  expires_at = app_now + reset_token_ttl;
  used_at = none;
  created_at = db_now;
}

new_token-to_row_map :
    (p : Platform) (user : User) (token : String) (at now : ℕ) (t : Tables)
    → new_token (to_row_map (token_of p user token at)) now t
      ≡ issued p user token t.next_token_id at now
unfolding new_token to_row_map lookup is_unset
new_token-to_row_map p user token at now t = simp lookup-filter_unset

module _ (p : Platform) (email token : String) (user : User) (s : Store) where
  -- The calls of an issue do not fail, the email has one user, and no row has the token's digest.
  pub record IsIssuable : Type 0 where
    pub lookup : s.faults s.calls ≡ no_fault
    pub store : s.faults (suc s.calls) ≡ no_fault
    pub found : matching p email s ≡ user ∷ []
    pub drawn : p.random_token s.draws ≡ ok token
    pub fresh : any (λ r. r.token_hash == hash_reset_token p token) s.tables.tokens ≡ false

  abbrev pub issued_row : PasswordResetToken
  issued_row = issued p user token s.tables.next_token_id s.app_now s.db_now

  abbrev pub issued_tables : Tables
  issued_tables = record s.tables {
    tokens = s.tables.tokens ++ issued_row ∷ [];
    next_token_id = suc s.tables.next_token_id;
  }

  keep-any :
      (q q' : User → Bool) (l : List User) → keep q l ≡ user ∷ [] → q' user ≡ true → any q' l ≡ true
  keep-any q q' [] h k = cc
  keep-any q q' (u ∷ l) h k = elim (Bool-cases (q u)) [
    | inl passed ↦
        let h' : u ∷ keep q l ≡ user ∷ [] = rw passed at h in
        let same : u ≡ user = cc h' in rw (same, k) refl
    | inr failed ↦ ground (arith, keep-any q q' l (rw failed at h) k)
  ]

  insert_token-issued :
      IsIssuable
      → insert_token (to_row_map (token_of p user token s.app_now)) s.db_now s.tables
        ≡ (record { items = issued_row ∷ []; broken = none }, issued_tables)
  unfolding insert_token
  insert_token-issued h =
      ap (λ r. add_token r s.db_now s.tables)
        (new_token-to_row_map p user token s.app_now s.db_now s.tables)
      ∙ (unfold add_token in
          rw (h.fresh, keep-any _ (λ u. nat_eq u.id user.id) s.tables.users h.found (ground arith)))

  -- An issue returns the token with the user, and adds one row, that of the token.
  pub create_password_reset_lem :
      IsIssuable
      → create_password_reset p email s ≡ (
        ok (token, user),
        record s { tables = issued_tables; calls = suc (suc s.calls); draws = suc s.draws },
      )
  unfolding create_password_reset insert only
  create_password_reset_lem h =
      let stored =
        find_exactly_one-eq p (insert_token (to_row_map (token_of p user token s.app_now)))
          (record (called s) { draws = suc s.draws }) (issued_row ∷ []) none issued_tables h.store
          (insert_token-issued h) in
      rw (by_email_lem p email s h.lookup, h.found, h.drawn, stored) refl

  stale-keep :
      (now : ℕ) (ts : List PasswordResetToken)
      → any (λ r. r.token_hash == hash_reset_token p token) ts ≡ false
      → keep (is_live (hash_reset_token p token) now) ts ≡ []
  unfolding is_live
  stale-keep now [] h = refl
  stale-keep now (r ∷ ts) h = ground (arith, stale-keep now ts)

  keep-issued :
      (now : ℕ)
      → IsIssuable
      → keep (is_live (hash_reset_token p token) now) issued_tables.tokens
        ≡ (if ltb now (s.app_now + reset_token_ttl) then issued_row ∷ [] else [])
  unfolding is_live
  keep-issued now h =
      rw (keep-append, stale-keep now s.tables.tokens h.fresh)
        (rw (eq_refl (hash_reset_token p token)) refl)

  -- An issued token is accepted while the database's clock stands less than an hour behind the
  -- process's time of issue, and is refused as invalid from then on.
  pub check-create_password_reset :
      (s' : Store)
      → IsIssuable
      → s'.tables ≡ (create_password_reset p email s).1.tables
      → s'.faults s'.calls ≡ no_fault
      → (check_reset_token p token s').0 ≡ (
          if ltb s'.db_now (s.app_now + reset_token_ttl)
          then ok tt
          else err (sentinel reset_token_invalid))
  unfolding check_reset_token live_reset_token live_tokens only
  check-create_password_reset s' h left quiet =
      let in_time = ltb s'.db_now (s.app_now + reset_token_ttl) in
      let rows : keep (is_live (hash_reset_token p token) s'.db_now) s'.tables.tokens
          ≡ (if in_time then issued_row ∷ [] else []) =
        ap (λ (t : Tables). keep (is_live (hash_reset_token p token) s'.db_now) t.tokens)
          (left ∙ ap (λ r. r.1.tables) (create_password_reset_lem h))
        ∙ keep-issued s'.db_now h in
      let asked =
        find_exactly_one-eq p (live_tokens (hash_reset_token p token)) s'
          (keep (is_live (hash_reset_token p token) s'.db_now) s'.tables.tokens) none s'.tables
          quiet refl in
      elim (Bool-cases in_time) [
        | inl soon ↦ rw (asked, rows, soon) refl
        | inr late ↦ rw (asked, rows, late) refl
      ]
