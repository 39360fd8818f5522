-- ===== src/Transaction/Lifecycle.antt =====
-- The life of a transaction object, and what the server sees of it.
use demiplane.Prelude.{
  ℕ, ◌+◌, ◌≡◌, ◌∙◌, refl, sym, ap, Bool, true, false, Option, none, some, List, [], ◌∷◌, ◌++◌, Text,
  Bool-cases, inl, inr, if◌then◌else◌, arith,
}
use demiplane.Transaction.{
  TransactionOptions, TransactionStatus, is_idle, is_active, idle, active, committed, rolled_back,
  failed, Control, begin_with, commit_it, roll_it_back, save, rollback_to, release, Event, sent,
  returned, Transaction, Savepoint, new_transaction, execute_control, conclude, begin_sql, begin,
  commit, rollback, savepoint, rollback_savepoint, release_savepoint, move_assign, to_begin_sql,
  is_valid_identifier,
}

-- Whether the server is inside a transaction after an event: a BEGIN that succeeds opens one, and
-- COMMIT and ROLLBACK end it, also where they fail.
abbrev pub inside : Bool → Event → Bool
inside b (sent (begin_with t) true) = true
inside b (sent (begin_with t) false) = b
inside b (sent commit_it done) = false
inside b (sent roll_it_back done) = false
inside b (sent (save n) done) = b
inside b (sent (rollback_to n) done) = b
inside b (sent (release n) done) = b
inside b returned = b

unfoldable pub inside_after : Bool → List Event → Bool
inside_after b [] = b
inside_after b (e ∷ rest) = inside_after (inside b e) rest

-- How often the connection went back to the pool, and whether a transaction was open then.
unfoldable pub returns : List Event → ℕ
returns [] = 0
returns (sent c done ∷ rest) = returns rest
returns (returned ∷ rest) = 1 + returns rest

inside_after-append :
    (b : Bool) (l : List Event) (e : Event)
    → inside_after b (l ++ e ∷ []) ≡ inside (inside_after b l) e
unfolding inside_after
inside_after-append b [] e = refl
inside_after-append b (x ∷ l) e = inside_after-append (inside b x) l e

returns-append_sent :
    (l : List Event) (c : Control) (done : Bool) → returns (l ++ sent c done ∷ []) ≡ returns l
unfolding returns
returns-append_sent [] c done = refl
returns-append_sent (sent d k ∷ l) c done = returns-append_sent l c done
returns-append_sent (returned ∷ l) c done = ap (λ (n : ℕ). 1 + n) (returns-append_sent l c done)

returns-append_returned : (l : List Event) → returns (l ++ returned ∷ []) ≡ returns l + 1
unfolding returns
returns-append_returned [] = refl
returns-append_returned (sent d k ∷ l) = returns-append_returned l
returns-append_returned (returned ∷ l) = omega (arith, returns-append_returned l)

module _ (answers : List Event → Control → Bool) where
  -- A transaction object after some calls of its methods and of its savepoints'.
  pub data TransactionReach : Transaction → Type 0 where
    fresh : (live : Bool) (o : TransactionOptions) → TransactionReach (new_transaction live o)
    began : {t : Transaction} → TransactionReach t → TransactionReach (begin answers t).1
    committed_by : {t : Transaction} → TransactionReach t → TransactionReach (commit answers t).1
    rolled_back_by :
        {t : Transaction} → TransactionReach t → TransactionReach (rollback answers t).1
    saved :
        {t : Transaction}
        → TransactionReach t
        → (n : Text) → TransactionReach (savepoint answers n t).1
    to_savepoint :
        {t : Transaction}
        → TransactionReach t
        → (s : Savepoint)
        → TransactionReach (record t { log = (rollback_savepoint answers s t.log).1 })
    past_savepoint :
        {t : Transaction}
        → TransactionReach t
        → (s : Savepoint)
        → TransactionReach (record t { log = (release_savepoint answers s t.log).1 })

  -- The status says whether the server is inside a transaction.
  pub record IsTrue (t : Transaction) : Type 0 where
    pub told : inside_after false t.log ≡ is_active t.status
    pub kept : returns t.log ≡ 0

  conclude-IsTrue :
      (c : Control) (good : TransactionStatus) (t : Transaction)
      → ((done : Bool)
          → inside (is_active t.status) (sent c done) ≡ is_active (if done then good else failed))
      → IsTrue t
      → IsTrue (conclude answers c good t).1
  unfolding conclude execute_control
  conclude-IsTrue c good t h i =
      let grown = λ (done : Bool).
        inside_after-append false t.log (sent c done)
        ∙ ap (λ (b : Bool). inside b (sent c done)) i.told
        ∙ h done in
      elim (Bool-cases (answers t.log c)) [
        | inl e ↦
            simp e (record { told = grown true; kept = returns-append_sent t.log c true ∙ i.kept })
        | inr e ↦
            simp e
              (record { told = grown false; kept = returns-append_sent t.log c false ∙ i.kept })
      ]

  -- A command of a savepoint.
  savepoint_command-IsTrue :
      (c : Control) (t : Transaction)
      → ((b done : Bool) → inside b (sent c done) ≡ b)
      → IsTrue t
      → IsTrue (record t { log = (execute_control answers c t.log).1 })
  unfolding execute_control
  savepoint_command-IsTrue c t h i = record {
    told = inside_after-append false t.log (sent c (answers t.log c)) ∙ h _ _ ∙ i.told;
    kept = returns-append_sent t.log c (answers t.log c) ∙ i.kept;
  }

  begin_sql-IsTrue :
      (o : Option Text) (t : Transaction)
      → is_active t.status ≡ false
      → IsTrue t
      → IsTrue (begin_sql answers o t).1
  unfolding begin_sql
  begin_sql-IsTrue none t h i = i
  begin_sql-IsTrue (some text) t h i = conclude-IsTrue (begin_with text) active t begins i
    where
      begins :
          (done : Bool)
          → inside (is_active t.status) (sent (begin_with text) done)
            ≡ is_active (if done then active else failed)
      begins true = refl
      begins false = h

  idle_not_active : (s : TransactionStatus) → is_idle s ≡ true → is_active s ≡ false
  idle_not_active idle h = refl
  idle_not_active active h = absurd cc
  idle_not_active committed h = refl
  idle_not_active rolled_back h = refl
  idle_not_active failed h = refl

  begin-IsTrue : (t : Transaction) → IsTrue t → IsTrue (begin answers t).1
  unfolding begin
  begin-IsTrue t i = elim (Bool-cases (is_idle t.status)) [
    | inl e ↦ simp e (begin_sql-IsTrue (to_begin_sql t.options) t (idle_not_active t.status e) i)
    | inr e ↦ simp e i
  ]

  ending :
      (done : Bool) (good : TransactionStatus)
      → is_active good ≡ false
      → false ≡ is_active (if done then good else failed)
  ending true good h = sym h
  ending false good h = refl

  commit-IsTrue : (t : Transaction) → IsTrue t → IsTrue (commit answers t).1
  unfolding commit
  commit-IsTrue t i = elim (Bool-cases (is_active t.status)) [
    | inl e ↦ simp e (conclude-IsTrue commit_it committed t (λ d. ending d committed refl) i)
    | inr e ↦ simp e i
  ]

  rollback-IsTrue : (t : Transaction) → IsTrue t → IsTrue (rollback answers t).1
  unfolding rollback
  rollback-IsTrue t i = elim (Bool-cases (is_active t.status)) [
    | inl e ↦ simp e (conclude-IsTrue roll_it_back rolled_back t (λ d. ending d rolled_back refl) i)
    | inr e ↦ simp e i
  ]

  savepoint-IsTrue : (n : Text) (t : Transaction) → IsTrue t → IsTrue (savepoint answers n t).1
  unfolding savepoint
  savepoint-IsTrue n t i =
      let sent_it = savepoint_command-IsTrue (save n) t (λ b d. refl) i in
      elim (Bool-cases (is_active t.status)) [
        | inl e ↦ elim (Bool-cases (is_valid_identifier n)) [
          | inl v ↦ elim (Bool-cases (execute_control answers (save n) t.log).0) [
            | inl d ↦ simp (e, v, d) sent_it
            | inr d ↦ simp (e, v, d) sent_it
          ]
          | inr v ↦ simp (e, v) i
        ]
        | inr e ↦ simp e i
      ]

  -- While a transaction object lives, its status is ACTIVE exactly when the server is inside a
  -- transaction, and the connection has not gone back to the pool.
  TransactionReach-IsTrue : {t : Transaction} → TransactionReach t → IsTrue t
  unfolding new_transaction inside_after returns rollback_savepoint release_savepoint
  TransactionReach-IsTrue (fresh live o) = record { told = refl; kept = refl }
  TransactionReach-IsTrue (began {t} r) = begin-IsTrue t (TransactionReach-IsTrue r)
  TransactionReach-IsTrue (committed_by {t} r) = commit-IsTrue t (TransactionReach-IsTrue r)
  TransactionReach-IsTrue (rolled_back_by {t} r) = rollback-IsTrue t (TransactionReach-IsTrue r)
  TransactionReach-IsTrue (saved {t} r n) = savepoint-IsTrue n t (TransactionReach-IsTrue r)
  TransactionReach-IsTrue (to_savepoint {t} r s) =
      let i = TransactionReach-IsTrue r in
      elim (Bool-cases s.is_open) [
        | inl e ↦ simp e (savepoint_command-IsTrue (rollback_to s.name) t (λ b d. refl) i)
        | inr e ↦ simp e i
      ]
  TransactionReach-IsTrue (past_savepoint {t} r s) =
      let i = TransactionReach-IsTrue r in
      elim (Bool-cases s.is_open) [
        | inl e ↦ simp e (savepoint_command-IsTrue (release s.name) t (λ b d. refl) i)
        | inr e ↦ simp e i
      ]

  -- Move assignment to an object whose transaction is active returns that object's connection to the
  -- pool with the transaction still open on the server, where the destructor rolls it back.
  pub move_assign_leaves_open :
      {t : Transaction}
      → TransactionReach t
      → t.live ≡ true
      → t.status ≡ active
      → (other : Transaction)
      → (inside_after false (move_assign t other).0 ≡ true) × (returns (move_assign t other).0 ≡ 1)
  unfolding move_assign
  move_assign_leaves_open {t} r live at other =
      let i = TransactionReach-IsTrue r in
      simp live (
        inside_after-append false t.log returned ∙ i.told ∙ ap is_active at,
        returns-append_returned t.log ∙ omega (arith, i.kept),
      )
