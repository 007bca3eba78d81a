-- ===== src/Flows/Welcome/Sending.antt =====
-- How often the welcome mail of flows/welcome.go is sent.
use go_bootstrap.Prelude.{
  ℕ, zero, suc, ◌+◌, ◌≤◌, ◌≡◌, refl, sym, subst, ap, ◌∙◌, ◌⊎◌, inl, inr, arith, Bool-cases, Bool,
  true, false, Option, none, some, List, [], ◌∷◌, ◌++◌, append_assoc, append-nil,
}
use go_bootstrap.Errors.{Result, ok, err}
use go_bootstrap.Store.{Message}
use go_bootstrap.Mailer.{Sender, send, send-ok, send-err}
use go_bootstrap.Flows.Welcome.{
  WelcomeData, World, Steps, Invocation, welcome_message, send_welcome, log_follow_up, State,
  followed, after_welcome, welcome, invocations,
}

abbrev pub count_crash : Bool → ℕ
count_crash true = 1
count_crash false = 0

-- the crashes of a run of invocations that come between the mail and its record
abbrev pub crashes_of : List Invocation → ℕ
crashes_of [] = 0
crashes_of (i ∷ rest) = count_crash i.crashes_at_welcome + crashes_of rest

abbrev pub copies : Message → ℕ → List Message
copies msg zero = []
copies msg (suc n) = msg ∷ copies msg n

copies-append : (msg : Message) (n : ℕ) → copies msg n ++ msg ∷ [] ≡ copies msg (suc n)
copies-append msg zero = refl
copies-append msg (suc n) = ap (λ l. msg ∷ l) (copies-append msg n)

one_more :
    (mails l : List Message) (msg : Message) (n : ℕ)
    → l ≡ mails ++ copies msg n
    → l ++ msg ∷ [] ≡ mails ++ copies msg (suc n)
one_more mails l msg n h =
    ap (λ l. l ++ msg ∷ []) h
    ∙ (append_assoc mails (copies msg n) (msg ∷ []) ∙ ap (λ k. mails ++ k) (copies-append msg n))

module _ (steps : Steps) (data' : WelcomeData) (mails : List Message) where
  -- Behind `mails` the outbox has n copies of the welcome: at most one for each of a number of crashes where
  -- the journal does not have the step, and where it has, one at least and at most one more.
  pub record IsSent (crashes : ℕ) (s : State steps data') : Type 0 where
    pub n : ℕ
    pub sent : s.0.store.outbox ≡ mails ++ copies (welcome_message data') n
    pub known :
        ((steps.has "send-welcome" s.1 ≡ false) × (n ≤ crashes))
        ⊎ ((steps.has "send-welcome" s.1 ≡ true) × (1 ≤ n) × (n ≤ suc crashes))

  -- the first step where its record is not there yet
  fresh-Sent :
      (crash : Bool) (outbox : Sender) (w : World) (j : steps.Journal) (k n : ℕ)
      (answer : Result (Unit {0}))
      → (send outbox (welcome_message data') w.store).0 ≡ answer
      → steps.has "send-welcome" j ≡ false
      → w.store.outbox ≡ mails ++ copies (welcome_message data') n
      → n ≤ k
      → IsSent
          (count_crash crash + k)
          (steps.run crash "send-welcome" (send_welcome outbox data') (w, j)).1
  unfolding send_welcome
  fresh-Sent true outbox w j k n (ok u) sends fresh h l =
      subst (λ r. IsSent (1 + k) r.1)
        (sym (steps.run-crash "send-welcome" (send_welcome outbox data') w j fresh))
        (record {
          n = suc n;
          sent =
              ap (λ r. r.1.outbox) (send-ok outbox (welcome_message data') w.store w.store sends)
              ∙ one_more mails w.store.outbox (welcome_message data') n h;
          known = inl (fresh, omega (arith, l));
        })
  fresh-Sent true outbox w j k n (err e) sends fresh h l =
      subst (λ r. IsSent (1 + k) r.1)
        (sym (steps.run-crash "send-welcome" (send_welcome outbox data') w j fresh))
        (record {
          n = n;
          sent = ap (λ r. r.1.outbox) (send-err outbox (welcome_message data') w.store e sends) ∙ h;
          known = inl (fresh, omega (arith, l));
        })
  fresh-Sent false outbox w j k n (ok u) sends fresh h l =
      subst (λ r. IsSent (0 + k) r.1)
        (sym (steps.run-ok "send-welcome" (send_welcome outbox data') w j fresh sends))
        (record {
          n = suc n;
          sent =
              ap (λ r. r.1.outbox) (send-ok outbox (welcome_message data') w.store w.store sends)
              ∙ one_more mails w.store.outbox (welcome_message data') n h;
          known = inr (
            steps.has-record_result "send-welcome" "send-welcome" j,
            omega arith,
            omega (arith, l),
          );
        })
  fresh-Sent false outbox w j k n (err e) sends fresh h l =
      subst (λ r. IsSent (0 + k) r.1)
        (sym (steps.run-err "send-welcome" (send_welcome outbox data') w j e fresh sends))
        (record {
          n = n;
          sent = ap (λ r. r.1.outbox) (send-err outbox (welcome_message data') w.store e sends) ∙ h;
          known = inl (fresh, omega (arith, l));
        })

  more-Sent : {k : ℕ} (m : ℕ) (s : State steps data') → IsSent k s → IsSent (m + k) s
  more-Sent m s h = elim h.known [
    | inl (fresh, l) ↦ record { n = h.n; sent = h.sent; known = inl (fresh, omega (arith, l)) }
    | inr (there, one, l) ↦ record {
      n = h.n;
      sent = h.sent;
      known = inr (there, one, omega (arith, l));
    }
  ]

  first-Sent :
      (crash : Bool) (outbox : Sender) (s : State steps data') (k : ℕ)
      → IsSent k s
      → IsSent
          (count_crash crash + k)
          (steps.run crash "send-welcome" (send_welcome outbox data') s).1
  first-Sent crash outbox (w, j) k h = elim h.known [
    | inl (fresh, l) ↦ fresh-Sent crash outbox w j k h.n _ refl fresh h.sent l
    | inr (there, one, l) ↦
        subst (λ r. IsSent (count_crash crash + k) r.1)
          (sym (steps.run-recorded crash "send-welcome" (send_welcome outbox data') w j there))
          (more-Sent (count_crash crash) (w, j) h)
  ]

  -- A state with the same outbox and the same record of the first step.
  like-Sent :
      (k : ℕ) (s t : State steps data')
      → t.0.store.outbox ≡ s.0.store.outbox
      → steps.has "send-welcome" t.1 ≡ steps.has "send-welcome" s.1
      → IsSent k s
      → IsSent k t
  like-Sent k s t mail has h = elim h.known [
    | inl (fresh, l) ↦ record { n = h.n; sent = mail ∙ h.sent; known = inl (has ∙ fresh, l) }
    | inr (there, one, l) ↦ record {
      n = h.n;
      sent = mail ∙ h.sent;
      known = inr (has ∙ there, one, l);
    }
  ]

  -- The follow-up sends nothing, and records another step.
  follow_up-Sent :
      (crash : Bool) (s : State steps data') (k : ℕ)
      → IsSent k s
      → IsSent k (steps.run crash "log-follow-up" (log_follow_up data') s).1
  unfolding log_follow_up
  follow_up-Sent crash (w, j) k h = elim (Bool-cases (steps.has "log-follow-up" j)) [
    | inl recorded ↦
        subst (λ r. IsSent k r.1)
          (sym (steps.run-recorded crash "log-follow-up" (log_follow_up data') w j recorded)) h
    | inr fresh ↦ fresh_follow_up crash fresh
  ]
    where
      fresh_follow_up :
          (crash : Bool)
          → steps.has "log-follow-up" j ≡ false
          → IsSent k (steps.run crash "log-follow-up" (log_follow_up data') (w, j)).1
      fresh_follow_up true fresh =
          subst (λ r. IsSent k r.1)
            (sym (steps.run-crash "log-follow-up" (log_follow_up data') w j fresh))
            (like-Sent k (w, j) ((log_follow_up data' w).1, j) refl refl h)
      fresh_follow_up false fresh =
          subst (λ r. IsSent k r.1)
            (sym (steps.run-ok "log-follow-up" (log_follow_up data') w j fresh refl))
            (like-Sent k (w, j) ((log_follow_up data' w).1, steps.record_result "log-follow-up" j)
              refl (steps.has-record_result "log-follow-up" "send-welcome" j) h)

  followed-state :
      (r : Option (Result (Unit {0})) × State steps data') → (followed steps data' r).1 ≡ r.1
  unfolding followed
  followed-state (none, s) = refl
  followed-state (some (ok u), s) = refl
  followed-state (some (err e), s) = refl

  after_welcome-Sent :
      (i : Invocation) (elapsed : Bool) (r : Option (Result (Unit {0})) × State steps data') (k : ℕ)
      → i.elapsed ≡ elapsed
      → IsSent k r.1
      → IsSent k (after_welcome steps data' i r).1
  unfolding after_welcome
  after_welcome-Sent i elapsed (none, s) k e h = h
  after_welcome-Sent i elapsed (some (err d), s) k e h = h
  after_welcome-Sent i false (some (ok u), s) k e h = rw e h
  after_welcome-Sent i true (some (ok u), s) k e h = rw e (
      subst (IsSent k)
        (sym (
          followed-state
            (steps.run i.crashes_at_follow_up "log-follow-up" (log_follow_up data') s)))
        (follow_up-Sent i.crashes_at_follow_up s k h))

  invocations-Sent :
      (runs : List Invocation) (s : State steps data') (k : ℕ)
      → IsSent k s
      → IsSent (crashes_of runs + k) (invocations steps data' runs s)
  unfolding invocations welcome
  invocations-Sent [] s k h = more-Sent 0 s h
  invocations-Sent (i ∷ runs) s k h =
      let behind =
        invocations-Sent runs (welcome steps data' i s).1 (count_crash i.crashes_at_welcome + k) (
          after_welcome-Sent i i.elapsed _ _ refl
            (first-Sent i.crashes_at_welcome i.outbox s k h)) in
      subst (λ m. IsSent m (invocations steps data' (i ∷ runs) s)) (omega arith) behind

  -- The welcome mail is sent as often as a crash makes it necessary. From a journal without its step, and
  -- after any invocations of the flow, whichever senders refuse the message and whenever the day has passed,
  -- the outbox has grown by copies of the one message. While the journal does not have the step, they are at
  -- most as many as the process has crashed between the sending and the record; once it has the step, there
  -- is at least one, and at most one more than those crashes: without such a crash the mail is sent once.
  pub invocations-IsSent :
      (runs : List Invocation) (w : World) (j : steps.Journal)
      → steps.has "send-welcome" j ≡ false
      → w.store.outbox ≡ mails
      → IsSent (crashes_of runs) (invocations steps data' runs (w, j))
  invocations-IsSent runs w j fresh before =
      subst (λ k. IsSent k (invocations steps data' runs (w, j))) (omega arith)
        (invocations-Sent runs (w, j) 0
          (record {
            n = 0;
            sent = before ∙ sym (append-nil mails);
            known = inl (fresh, omega arith);
          }))
