-- ===== src/Stats/Tearing.antt =====
-- What the file of the database holds while StatsPlugin (src/service/plugins/sqlite/StatsPlugin.cpp)
-- stores a list of events, and after it.
use kactivitymanagerd.Prelude.{
  ℕ, String, true, false, ◌||◌, Option, some, none, List, [], ◌∷◌, ◌++◌, ◌≡◌, sym, ap, ◌∙◌, arith,
  ◌==◌, nat_eq, string_eq, Bool-cases, inl, inr, if◌then◌else◌,
}
use kactivitymanagerd.Event.{Event, accessed, opened}
use kactivitymanagerd.Storage.Transactions.{
  Driver, IsSqlite, Command, begin_transaction, commit_transaction, statement, effect, execute,
  execute-append, visible-execute,
}
use kactivitymanagerd.Stats.Tables.{World}
use kactivitymanagerd.Stats.Events.{Stats, store_event, store_events}
use kactivitymanagerd.Stats.Batches.{
  Rows, rows_of, has_info, add_info, update_infos, add_row, detect_commands, open_commands,
  store_commands, events_commands, batch_commands, effect-store_commands, effect-events_commands,
}

module _ {C S : Type 0} (d : Driver C S) (laws : IsSqlite d) where
  -- outside of a transaction the file holds what the queries see
  abbrev pub IsSettled : C → Type 0
  IsSettled c = d.is_open c ≡ false → d.stored c ≡ d.visible c

  exec-IsSettled : (f : S → S) (c : C) → IsSettled c → IsSettled (d.exec f c)
  exec-IsSettled f c h o =
      let closed : d.is_open c ≡ false = sym (laws.open-exec f c) ∙ o in
      laws.stored-exec f c ∙ rw closed (sym (laws.visible-exec f c))

  commit-settled : (c : C) → IsSettled c → d.stored (d.commit c) ≡ d.visible (d.commit c)
  commit-settled c h = elim (Bool-cases (d.is_open c)) [
    | inl o ↦ laws.stored-commit c ∙ rw o (sym (laws.visible-commit c))
    | inr o ↦ laws.stored-commit c ∙ rw o (h o ∙ sym (laws.visible-commit c))
  ]

  execute-IsSettled : (cs : List (Command S)) (c : C) → IsSettled c → IsSettled (execute d cs c)
  unfolding execute
  execute-IsSettled [] c h = h
  execute-IsSettled (begin_transaction ∷ cs) c h =
      execute-IsSettled cs (d.transaction c) (λ o. ground (arith, o, laws.open-transaction c))
  execute-IsSettled (commit_transaction ∷ cs) c h =
      execute-IsSettled cs (d.commit c) (λ o. commit-settled c h)
  execute-IsSettled (statement f ∷ cs) c h =
      execute-IsSettled cs (d.exec f c) (exec-IsSettled f c h)

  -- a commit at the end leaves no transaction open, and the file with what the queries see
  ended :
      (cs : List (Command S)) (c : C)
      → IsSettled c
      → (d.is_open (execute d (cs ++ commit_transaction ∷ []) c) ≡ false)
        × (d.stored (execute d (cs ++ commit_transaction ∷ []) c) ≡ effect cs (d.visible c))
  unfolding execute
  ended cs c h =
      let inner = execute d cs c in
      rw (execute-append d cs (commit_transaction ∷ []) c) (
        laws.open-commit inner,
        commit-settled inner (execute-IsSettled cs c h)
            ∙ laws.visible-commit inner
            ∙ visible-execute d laws cs c,
      )

  -- no transaction is open, and the file holds what the queries see
  abbrev pub IsStored : C → Type 0
  IsStored c = (d.is_open c ≡ false) × (d.stored c ≡ d.visible c)

  -- a statement after a commit is stored at once
  after_commit :
      (cs : List (Command S)) (f : S → S) (c : C)
      → IsSettled c
      → IsStored (execute d (cs ++ commit_transaction ∷ statement f ∷ []) c)
  unfolding execute
  after_commit cs f c h =
      let inner = execute d cs c in
      let done = d.commit inner in
      rw (execute-append d cs (commit_transaction ∷ statement f ∷ []) c) (
        laws.open-exec f done ∙ laws.open-commit inner,
        exec-IsSettled f done (λ _. commit-settled inner (execute-IsSettled cs c h))
            (laws.open-exec f done ∙ laws.open-commit inner),
      )

module _ {C : Type 0} (d : Driver C Rows) (laws : IsSqlite d) (w : World) where
  -- Once addEvents has stored the events that it has accepted, no transaction is open, and the file
  -- holds the tables with all of them, if it held what the queries saw before.
  pub batch_stored :
      (es : List Event) (s : Stats) (c : C)
      → d.is_open c ≡ false
      → d.stored c ≡ rows_of s
      → d.visible c ≡ rows_of s
      → (d.is_open (execute d (batch_commands w es (rows_of s)) c) ≡ false)
        × (d.stored (execute d (batch_commands w es (rows_of s)) c) ≡ rows_of (store_events w es s))
  unfolding batch_commands
  batch_stored [] s c o p v = unfold execute store_events in (o, p)
  batch_stored (e ∷ es) s c o p v =
      let cs = begin_transaction ∷ events_commands w (e ∷ es) (rows_of s) in
      let r = ended d laws cs c (λ x. p ∙ sym v) in
      (r.0, r.1 ∙ ap (effect cs) v ∙ unfold effect in effect-events_commands w (e ∷ es) s)

  open_torn :
      (e : Event) (end_time : Option ℕ) (file : String) (r : Rows) (c : C)
      → w.local_file e.uri ≡ some file
      → w.exists file ≡ true
      → has_info file r ≡ false
      → IsStored d laws (execute d (begin_transaction ∷ open_commands w e end_time r) c)
  unfolding open_commands detect_commands execute
  open_torn e end_time file r c local there new =
      let text = w.file_text e.uri in
      let title = if text == "" then e.uri else text in
      rw (local, there, new)
        (after_commit d laws
          (statement (add_info file)
            ∷ statement (add_info file)
            ∷ begin_transaction
            ∷ statement (
                update_infos
                  (λ i. record i { mimetype = w.file_mimetype e.uri; auto_mimetype = true }) file)
            ∷ commit_transaction
            ∷ statement (add_info file)
            ∷ begin_transaction
            ∷ statement (update_infos (λ i. record i { title = title; auto_title = true }) file)
            ∷ [])
          (add_row w e end_time) (d.transaction c)
          (λ o. ground (arith, o, laws.open-transaction c)))

  store_torn :
      (e : Event) (file : String) (r : Rows) (c : C)
      → (e.kind == accessed || e.kind == opened) ≡ true
      → w.local_file e.uri ≡ some file
      → w.exists file ≡ true
      → has_info file r ≡ false
      → IsStored d laws (execute d (begin_transaction ∷ store_commands w e r) c)
  unfolding store_commands
  store_torn e file r c k local there new = elim (Bool-cases (e.kind == accessed)) [
    | inl a ↦ rw a (open_torn e (some e.timestamp) file r c local there new)
    | inr a ↦
        let o : (e.kind == opened) ≡ true = ground (arith, a, k) in
        rw (a, o) (open_torn e none file r c local there new)
  ]

  -- But not as a whole: when the first event opens or accesses an existing local file of which there
  -- is no row in ResourceInfo yet, the transactions of saveResourceMimetype and saveResourceTitle end
  -- the one of addEvents; after the statements for this event no transaction is open, and the file
  -- holds this event without the later ones.
  pub batch_torn :
      (e : Event) (file : String) (s : Stats) (c : C)
      → (e.kind == accessed || e.kind == opened) ≡ true
      → w.local_file e.uri ≡ some file
      → w.exists file ≡ true
      → has_info file (rows_of s) ≡ false
      → d.visible c ≡ rows_of s
      → let c' = execute d (begin_transaction ∷ store_commands w e (rows_of s)) c in
        (d.is_open c' ≡ false) × (d.stored c' ≡ rows_of (store_event w e s))
  batch_torn e file s c k local there new v =
      let cs = begin_transaction ∷ store_commands w e (rows_of s) in
      let t = store_torn e file (rows_of s) c k local there new in
      (
        t.0,
        t.1
            ∙ visible-execute d laws cs c
            ∙ ap (effect cs) v
            ∙ unfold effect in effect-store_commands w e s,
      )
