-- ===== src/Migrations/Resumed.antt =====
-- A start that fails leaves a prefix of the migrations applied, and the next one goes on from there.
use ai_website_builder.Common.{
  String, Bool, true, false, ◌||◌, ◌==◌, ◌≡◌, ◌∙◌, refl, sym, ap, Option, none, some, List, [], ◌∷◌,
  ◌++◌, All, if◌then◌else◌, append_assoc, append-nil, arith, Bool-cases, Option-cases, inl, inr,
  eq_iff, ◌⊎◌,
}
use ai_website_builder.Common.Dict.{Dict, lookup}
use ai_website_builder.Common.Tables.{any-append}
use ai_website_builder.Migrations.{
  Stage, asks, begins, runs, records, commits, Applied, is_applied, commit_migration,
  apply_migration, migrate_names, migration_names, migrate, pending, Once, exec_file, then_exec,
  exec_all, Start, started,
}

any-last : (name : String) (xs : List String) → is_applied name (xs ++ name ∷ []) ≡ true
any-last name [] = rw ((eq_iff name name).1 refl) refl
any-last name (x ∷ xs) = ground (arith, any-last name xs)

applied-append :
    (n name : String) (xs : List String)
    → (name == n) ≡ false
    → is_applied n (xs ++ name ∷ []) ≡ is_applied n xs
applied-append n name [] h = rw h refl
applied-append n name (x ∷ xs) h = rw (applied-append n name xs h) refl

pending-applied :
    (name : String) (names xs : List String)
    → is_applied name xs ≡ true
    → pending (name ∷ names) xs ≡ pending names xs
pending-applied name names xs h = rw h refl

pending-new :
    (name : String) (names xs : List String)
    → is_applied name xs ≡ false
    → pending (name ∷ names) xs ≡ name ∷ pending names xs
pending-new name names xs h = rw h refl

-- A name that is not among the others does not change what is pending of them.
pending-fresh :
    (name : String) (names xs : List String)
    → All (λ n. (name == n) ≡ false) names
    → pending names (xs ++ name ∷ []) ≡ pending names xs
pending-fresh name [] xs h = refl
pending-fresh name (n ∷ names) xs h =
    rw (applied-append n name xs h.0, pending-fresh name names xs h.1) refl

module _ {State : Type 0} (exec : String → State → Option State) (files : Dict String) where
  exec_all-append :
      (xs ys : List String) (o : Option State)
      → exec_all exec files (xs ++ ys) o ≡ exec_all exec files ys (exec_all exec files xs o)
  unfolding exec_all
  exec_all-append [] ys o = refl
  exec_all-append (x ∷ xs) ys o = exec_all-append xs ys (then_exec exec files x o)

  -- Some of the pending files are applied and recorded, in order; all of them if there was no error.
  record Reached (names : List String) (db : Applied exec) (r : Bool × Applied exec) : Type 0 where
    applied : List String
    split : pending names db.1 ≡ applied ++ pending names r.1.1
    recorded : r.1.1 ≡ db.1 ++ applied
    executed : exec_all exec files applied (some db.0) ≡ some r.1.0
    complete : r.0 ≡ true → pending names r.1.1 ≡ []

  stopped : (names : List String) (db : Applied exec) → Reached names db (false, db)
  unfolding exec_all
  stopped names db = record {
    applied = [];
    split = refl;
    recorded = sym (append-nil db.1);
    executed = refl;
    complete = λ ok. absurd (cc);
  }

  finished : (db : Applied exec) → Reached [] db (true, db)
  unfolding exec_all
  finished db = record {
    applied = [];
    split = refl;
    recorded = sym (append-nil db.1);
    executed = refl;
    complete = λ ok. refl;
  }

  -- A transaction is undone, or applies its file.
  Commits : String → Option String → Applied exec → Bool × Applied exec → Type 0
  Commits name o db r =
      (r ≡ (false, db))
      ⊎ ((state : State) × (r ≡ (true, (state, db.1 ++ name ∷ [])))
          × (exec_file exec o db.0 ≡ some state))

  commit-Commits :
      (failed : Bool) (name sql : String) (o : Option State) (db : Applied exec)
      → exec sql db.0 ≡ o
      → Commits name (some sql) db (commit_migration exec failed name o db)
  unfolding commit_migration Commits
  commit-Commits failed name sql none db e = inl refl
  commit-Commits true name sql (some state) db e = inl refl
  commit-Commits false name sql (some state) db e = inr (state, refl, e)

  apply-Commits :
      (fails : Stage → Bool) (name : String) (o : Option String) (db : Applied exec)
      → Commits name o db (apply_migration exec fails name o db)
  unfolding apply_migration Commits
  apply-Commits fails name none db = inl refl
  apply-Commits fails name (some sql) db = elim (Bool-cases (fails begins || fails runs)) [
    | inl bad ↦ rw bad (inl refl)
    | inr good ↦
        rw good (commit-Commits (fails records || fails commits) name sql (exec sql db.0) db refl)
  ]

  already :
      (name : String) (names : List String) (db : Applied exec) (r : Bool × Applied exec)
      → is_applied name db.1 ≡ true
      → Reached names db r
      → Reached (name ∷ names) db r
  already name names db r h q =
      let still : is_applied name r.1.1 ≡ true =
        rw (q.recorded) (any-append (λ n. n == name) db.1 q.applied h) in
      record {
        applied = q.applied;
        split = rw (h, still) q.split;
        recorded = q.recorded;
        executed = q.executed;
        complete = λ ok. rw still (q.complete ok);
      }

  advanced :
      (name : String) (names : List String) (db : Applied exec) (state : State)
      (r : Bool × Applied exec)
      → is_applied name db.1 ≡ false
      → All (λ n. (name == n) ≡ false) names
      → exec_file exec (lookup name files) db.0 ≡ some state
      → Reached names (state, db.1 ++ name ∷ []) r
      → Reached (name ∷ names) db r
  unfolding exec_all
  advanced name names db state r n fresh e q =
      let still : is_applied name r.1.1 ≡ true =
        rw (q.recorded)
          (any-append (λ n. n == name) (db.1 ++ name ∷ []) q.applied (any-last name db.1)) in
      record {
        applied = name ∷ q.applied;
        split =
            rw (n, still)
              (ap (λ ns. name ∷ ns) (sym (pending-fresh name names db.1 fresh) ∙ q.split));
        recorded = q.recorded ∙ append_assoc db.1 (name ∷ []) q.applied;
        executed = rw e q.executed;
        complete = λ ok. rw still (q.complete ok);
      }

  -- The next file, whose transaction is undone or applied.
  next-Reached :
      (name : String) (names : List String) (db : Applied exec) (r : Bool × Applied exec)
      (go : Applied exec → Bool × Applied exec)
      → is_applied name db.1 ≡ false
      → All (λ n. (name == n) ≡ false) names
      → ((x : Applied exec) → Reached names x (go x))
      → Commits name (lookup name files) db r
      → Reached (name ∷ names) db (if r.0 then go r.1 else (false, r.1))
  unfolding Commits
  next-Reached name names db r go n fresh reached (inl e) = rw e (stopped (name ∷ names) db)
  next-Reached name names db r go n fresh reached (inr (state, e, ran)) =
      rw e (advanced name names db state _ n fresh ran (reached (state, db.1 ++ name ∷ [])))

  names-Reached :
      (fails : String → Stage → Bool) (names : List String) (db : Applied exec)
      → Once names
      → Reached names db (migrate_names exec fails files names db)
  unfolding migrate_names
  names-Reached fails [] db once = finished db
  names-Reached fails (name ∷ names) db once = elim (Bool-cases (fails name asks)) [
    | inl failed ↦ rw failed (stopped (name ∷ names) db)
    | inr asked ↦ elim (Bool-cases (is_applied name db.1)) [
      | inl done ↦
          rw (asked, done) (already name names db _ done (names-Reached fails names db once.1))
      | inr new ↦
          rw (asked, new)
            (next-Reached name names db _ (λ x. migrate_names exec fails files names x) new once.0
              (λ x. names-Reached fails names x once.1)
              (apply-Commits (fails name) name (lookup name files) db))
    ]
  ]

  goes_on :
      (names : List String) (db : Applied exec) (r q : Bool × Applied exec)
      → Reached names db r
      → Reached names r.1 q
      → Reached names db q
  goes_on names db r q a b = record {
    applied = a.applied ++ b.applied;
    split =
        a.split
        ∙ ap (λ ns. a.applied ++ ns) b.split
        ∙ sym (append_assoc a.applied b.applied (pending names q.1.1));
    recorded =
        b.recorded ∙ ap (λ ns. ns ++ b.applied) a.recorded ∙ append_assoc db.1 a.applied b.applied;
    executed =
        exec_all-append a.applied b.applied (some db.0)
        ∙ ap (λ o. exec_all exec files b.applied o) a.executed
        ∙ b.executed;
    complete = b.complete;
  }

  migrate-Reached :
      (start : Start) (db : Applied exec)
      → Once (migration_names files)
      → Reached (migration_names files) db (migrate exec start.0 start.1 files db)
  unfolding migrate
  migrate-Reached (true, fails) db once = stopped (migration_names files) db
  migrate-Reached (false, fails) db once = names-Reached fails (migration_names files) db once

  pub migrate_complete :
      (start : Start) (db : Applied exec)
      → Once (migration_names files)
      → (migrate exec start.0 start.1 files db).0 ≡ true
      → pending (migration_names files) (migrate exec start.0 start.1 files db).1.1 ≡ []
  migrate_complete start db once = (migrate-Reached start db once).complete

  starts-Reached :
      (starts : List Start) (db : Applied exec)
      → Once (migration_names files)
      → Reached (migration_names files) db (false, started exec files starts db)
  unfolding started
  starts-Reached [] db once = stopped (migration_names files) db
  starts-Reached (start ∷ starts) db once =
      goes_on (migration_names files) db _ _ (migrate-Reached start db once)
        (starts-Reached starts (migrate exec start.0 start.1 files db).1 once)

  exec_all-none : (names : List String) → exec_all exec files names none ≡ none
  unfolding exec_all
  exec_all-none [] = refl
  exec_all-none (name ∷ names) = exec_all-none names

  apply-good :
      (name : String) (o : Option String) (db : Applied exec) (state : State)
      → exec_file exec o db.0 ≡ some state
      → apply_migration exec (λ _. false) name o db ≡ (true, (state, db.1 ++ name ∷ []))
  unfolding apply_migration commit_migration
  apply-good name none db state e = absurd (cc)
  apply-good name (some sql) db state e = rw e refl

  -- The next file, when it is not applied yet and its script runs.
  next-good :
      (name : String) (names : List String) (db : Applied exec) (state : State)
      (go : Applied exec → Bool × Applied exec)
      → All (λ n. (name == n) ≡ false) names
      → exec_all exec files (name ∷ pending names db.1) (some db.0) ≡ some state
      → ((x : Applied exec)
          → exec_all exec files (pending names x.1) (some x.0) ≡ some state
          → go x ≡ (true, (state, x.1 ++ pending names x.1)))
      → let r = apply_migration exec (λ _. false) name (lookup name files) db in
        (if r.0 then go r.1 else (false, r.1)) ≡ (true, (state, db.1 ++ name ∷ pending names db.1))
  unfolding exec_all
  next-good name names db state go fresh e ih =
      elim (Option-cases (exec_file exec (lookup name files) db.0)) [
        | inl bad ↦ absurd (cc (exec_all-none (pending names db.1)))
        | inr (s, good) ↦ rw (apply-good name (lookup name files) db s good) (
            let left = pending-fresh name names db.1 fresh in
            let run : exec_all exec files (pending names db.1) (some s) ≡ some state =
              ap (λ o. exec_all exec files (pending names db.1) o) (sym good) ∙ e in
            ih (s, db.1 ++ name ∷ []) (rw left run)
            ∙ ap (λ ns. (true, (state, ns)))
                (ap (λ ns. (db.1 ++ name ∷ []) ++ ns) left
                  ∙ append_assoc db.1 (name ∷ []) (pending names db.1)))
      ]

  complete :
      (names : List String) (db : Applied exec) (state : State)
      → Once names
      → exec_all exec files (pending names db.1) (some db.0) ≡ some state
      → migrate_names exec (λ _ _. false) files names db
        ≡ (true, (state, db.1 ++ pending names db.1))
  unfolding migrate_names exec_all
  complete [] db state once e = cc (append-nil db.1)
  complete (name ∷ names) db state once e = elim (Bool-cases (is_applied name db.1)) [
    | inl done ↦ rw done (
        complete names db state once.1 (
          ap (λ ns. exec_all exec files ns (some db.0)) (sym (pending-applied name names db.1 done))
          ∙ e))
    | inr new ↦ rw new (
        next-good name names db state (λ x. migrate_names exec (λ _ _. false) files names x) once.0
          (ap (λ ns. exec_all exec files ns (some db.0)) (sym (pending-new name names db.1 new))
            ∙ e)
          (λ x h. complete names x state once.1 h))
  ]

-- However often the server is started, whatever fails in those starts: once a start meets no
-- failing call, every file that was pending at first is applied and recorded exactly once, in
-- order, after what was recorded before. The names of the files are different, and the pending
-- scripts run one after another on the first schema.
pub migrate_resumes :
    {State : Type 0} (exec : String → State → Option State) (files : Dict String)
    (starts : List Start) (db : Applied exec) (state : State)
    → Once (migration_names files)
    → exec_all exec files (pending (migration_names files) db.1) (some db.0) ≡ some state
    → migrate exec false (λ _ _. false) files (started exec files starts db)
      ≡ (true, (state, db.1 ++ pending (migration_names files) db.1))
unfolding migrate
migrate_resumes exec files starts db state once e =
    let q = starts-Reached exec files starts db once in
    let names = migration_names files in
    let end = started exec files starts db in
    complete exec files names end state once (
      ap (λ o. exec_all exec files (pending names end.1) o) (sym q.executed)
      ∙ sym (exec_all-append exec files q.applied (pending names end.1) (some db.0))
      ∙ ap (λ ns. exec_all exec files ns (some db.0)) (sym q.split)
      ∙ e)
    ∙ ap (λ ns. (true, (state, ns)))
        (ap (λ ns. ns ++ pending names end.1) q.recorded
          ∙ append_assoc db.1 q.applied (pending names end.1)
          ∙ ap (λ ns. db.1 ++ ns) (sym q.split))
