-- ===== src/Storage/Transactions.antt =====
-- Database::Locker (src/common/database/Database.cpp): DATABASE_TRANSACTION begins a transaction, and
-- commits at the end of the block. What QSqlDatabase and SQLite do is an interface with its laws.
use kactivitymanagerd.Prelude.{
  Bool, true, false, List, [], ◌∷◌, ◌++◌, ◌≡◌, refl, ap, ◌∙◌, if◌then◌else◌,
}

-- A connection: what its queries see, what the file holds when the program ends, and whether a
-- transaction is open.
pub record Driver (C S : Type 0) : Type 0 where
  pub transaction : C → C
  pub commit : C → C
  pub exec : (S → S) → C → C
  pub visible : C → S
  pub stored : C → S
  pub is_open : C → Bool

-- SQLite: a transaction within a transaction is refused, as is a commit outside of one; a statement
-- outside of a transaction is stored at once.
pub record IsSqlite {C S : Type 0} (d : Driver C S) : Type 0 where
  pub visible-transaction : (c : C) → d.visible (d.transaction c) ≡ d.visible c
  pub stored-transaction : (c : C) → d.stored (d.transaction c) ≡ d.stored c
  pub open-transaction : (c : C) → d.is_open (d.transaction c) ≡ true
  pub visible-commit : (c : C) → d.visible (d.commit c) ≡ d.visible c
  pub stored-commit :
      (c : C) → d.stored (d.commit c) ≡ (if d.is_open c then d.visible c else d.stored c)
  pub open-commit : (c : C) → d.is_open (d.commit c) ≡ false
  pub visible-exec : (f : S → S) (c : C) → d.visible (d.exec f c) ≡ f (d.visible c)
  pub stored-exec :
      (f : S → S) (c : C)
      → d.stored (d.exec f c) ≡ (if d.is_open c then d.stored c else f (d.visible c))
  pub open-exec : (f : S → S) (c : C) → d.is_open (d.exec f c) ≡ d.is_open c

-- what a method asks of the connection
pub data Command (S : Type 0) : Type 0 where
  begin_transaction commit_transaction : Command S
  statement : (S → S) → Command S

module _ {S : Type 0} where
  -- a block with a Locker
  abbrev pub locked : List (Command S) → List (Command S)
  locked body = begin_transaction ∷ (body ++ commit_transaction ∷ [])

  -- what the statements come to
  unfoldable pub effect : List (Command S) → S → S
  effect [] s = s
  effect (begin_transaction ∷ cs) s = effect cs s
  effect (commit_transaction ∷ cs) s = effect cs s
  effect (statement f ∷ cs) s = effect cs (f s)

  pub effect-append :
      (cs ds : List (Command S)) (s : S) → effect (cs ++ ds) s ≡ effect ds (effect cs s)
  unfolding effect
  effect-append [] ds s = refl
  effect-append (begin_transaction ∷ cs) ds s = effect-append cs ds s
  effect-append (commit_transaction ∷ cs) ds s = effect-append cs ds s
  effect-append (statement f ∷ cs) ds s = effect-append cs ds (f s)

  -- no transaction begins or ends
  abbrev pub IsPlain : List (Command S) → Type 0
  IsPlain [] = Unit {0}
  IsPlain (begin_transaction ∷ cs) = ⊥
  IsPlain (commit_transaction ∷ cs) = ⊥
  IsPlain (statement f ∷ cs) = IsPlain cs

module _ {C S : Type 0} (d : Driver C S) where
  unfoldable pub execute : List (Command S) → C → C
  execute [] c = c
  execute (begin_transaction ∷ cs) c = execute cs (d.transaction c)
  execute (commit_transaction ∷ cs) c = execute cs (d.commit c)
  execute (statement f ∷ cs) c = execute cs (d.exec f c)

  pub execute-append :
      (cs ds : List (Command S)) (c : C) → execute (cs ++ ds) c ≡ execute ds (execute cs c)
  unfolding execute
  execute-append [] ds c = refl
  execute-append (begin_transaction ∷ cs) ds c = execute-append cs ds (d.transaction c)
  execute-append (commit_transaction ∷ cs) ds c = execute-append cs ds (d.commit c)
  execute-append (statement f ∷ cs) ds c = execute-append cs ds (d.exec f c)

  module _ (laws : IsSqlite d) where
    pub visible-execute :
        (cs : List (Command S)) (c : C) → d.visible (execute cs c) ≡ effect cs (d.visible c)
    unfolding execute effect
    visible-execute [] c = refl
    visible-execute (begin_transaction ∷ cs) c =
        visible-execute cs (d.transaction c) ∙ ap (effect cs) (laws.visible-transaction c)
    visible-execute (commit_transaction ∷ cs) c =
        visible-execute cs (d.commit c) ∙ ap (effect cs) (laws.visible-commit c)
    visible-execute (statement f ∷ cs) c =
        visible-execute cs (d.exec f c) ∙ ap (effect cs) (laws.visible-exec f c)

    -- statements alone leave an open transaction open, and store nothing
    pub plain_kept :
        (cs : List (Command S)) (c : C)
        → IsPlain cs
        → d.is_open c ≡ true
        → (d.is_open (execute cs c) ≡ true) × (d.stored (execute cs c) ≡ d.stored c)
    unfolding execute
    plain_kept [] c p o = (o, refl)
    plain_kept (begin_transaction ∷ cs) c p o = absurd p
    plain_kept (commit_transaction ∷ cs) c p o = absurd p
    plain_kept (statement f ∷ cs) c p o =
        let rest = plain_kept cs (d.exec f c) p (laws.open-exec f c ∙ o) in
        (rest.0, rest.1 ∙ laws.stored-exec f c ∙ rw o refl)

    -- statements after the start of a transaction store nothing
    pub begun_kept :
        (before : List (Command S)) (c : C)
        → IsPlain before
        → (d.is_open (execute (begin_transaction ∷ before) c) ≡ true)
          × (d.stored (execute (begin_transaction ∷ before) c) ≡ d.stored c)
    unfolding execute
    begun_kept before c p =
        let kept = plain_kept before (d.transaction c) p (laws.open-transaction c) in
        (kept.0, kept.1 ∙ laws.stored-transaction c)

    -- and a whole block stores all of them
    pub locked_stored :
        (body : List (Command S)) (c : C)
        → IsPlain body
        → (d.stored (execute (locked body) c) ≡ effect body (d.visible c))
          × (d.is_open (execute (locked body) c) ≡ false)
    unfolding execute effect
    locked_stored body c p =
        let inner = execute body (d.transaction c) in
        let kept = plain_kept body (d.transaction c) p (laws.open-transaction c) in
        let seen = visible-execute (begin_transaction ∷ body) c in
        rw (execute-append body (commit_transaction ∷ []) (d.transaction c))
          (laws.stored-commit inner ∙ rw kept.0 seen, laws.open-commit inner)
