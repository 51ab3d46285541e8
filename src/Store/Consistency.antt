-- ===== src/Store/Consistency.antt =====
-- The invariant of the store between the effective state that the user sees, the remote baseline and
-- the pending mutations, and what the local writes do to it.
use mathlib.Core.Option
use mathlib.Core.Path.{subst, subst₂, subst₃}
use flux_bar.Prelude.{
  ◌≡◌, ◌≢◌, refl, ap, sym, ◌∙◌, Bool, true, false, ◌&&◌, Option, none, some, List, String, ◌==◌,
  eq_iff, ℤ, if◌then◌else◌, Bool-cases, inl, inr, ok, ok-injective,
}
use flux_bar.Store.Schema.{Db, EntryRow, PendingRow}
use flux_bar.Store.Mutations.{
  MutationReceipt, read_text, with_status, with_starred, write_read, set_read, set_starred,
}
use flux_bar.Store.Views.{
  entry_at, pending_at, same_entry, same_entry_columns, same_pending-entry, bumped,
  entry_at-update_where, pending_at-upsert_pending,
}
use flux_bar.Store.ReadState.{changes, listed}
use flux_bar.Store.MarkViews.{with_status-same, entry_at-write_read, pending_at-write_read}
use flux_bar.Store.SetRead.{IsFresh, set_read-effect}

-- What the user sees of an entry is the queued change, if there is one, and else the baseline.
abbrev pub AgreesRead : EntryRow → Option PendingRow → Type 0
AgreesRead e none = e.status ≡ e.remote_status
AgreesRead e (some p) = e.status ≡ read_text p.desired

abbrev pub AgreesStarred : EntryRow → Option PendingRow → Type 0
AgreesStarred e none = e.starred ≡ e.remote_starred
AgreesStarred e (some p) = e.starred ≡ p.desired

-- At one key; nothing is pending for an entry that is not stored.
abbrev pub Agrees : Option EntryRow → Option PendingRow → Option PendingRow → Type 0
Agrees none read starred = (read ≡ none) × (starred ≡ none)
Agrees (some e) read starred = AgreesRead e read × AgreesStarred e starred

pub record IsConsistent (db : Db) : Type 0 where
  pub agrees :
      (a : String) (j : ℤ)
      → Agrees (entry_at a j db) (pending_at a j "read" db) (pending_at a j "starred" db)

-- The change of one entry's status, with its pending row.
pub Agrees-write :
    (now a : String) (i : ℤ) (read : Bool) (found : Option EntryRow) (pr ps : Option PendingRow)
    → found ≢ none
    → Agrees found pr ps
    → Agrees
        (Option.map (with_status (read_text read)) found)
        (some (bumped now a i "read" read pr))
        ps
unfolding bumped
Agrees-write now a i read none pr ps stored h = absurd (stored refl)
Agrees-write now a i read (some e) none ps stored h = (refl, h.1)
Agrees-write now a i read (some e) (some p) ps stored h = (refl, h.1)

Agrees-set_read :
    (now a : String) (i : ℤ) (read : Bool) (found : Option EntryRow) (pr ps : Option PendingRow)
    → Agrees found pr ps
    → Agrees
        (Option.map (with_status (read_text read)) found)
        (if changes read found then some (bumped now a i "read" read pr) else pr)
        ps
unfolding bumped changes
Agrees-set_read now a i read none pr ps h = h
Agrees-set_read now a i read (some e) pr ps h = elim (Bool-cases (e.status == read_text read)) [
  | inl done ↦ rw done (
      subst (λ (x : EntryRow). AgreesRead x pr × AgreesStarred x ps)
        (sym (with_status-same read e done)) h)
  | inr more ↦ rw more (Agrees-write now a i read (some e) pr ps (λ k. cc k) h)
]

-- The three lookups of one key, rewritten.
pub Agrees-of :
    {x x' : Option EntryRow} {y y' z z' : Option PendingRow}
    → x ≡ x'
    → y ≡ y'
    → z ≡ z'
    → Agrees x' y' z'
    → Agrees x y z
Agrees-of p q r h = subst₃ Agrees (sym p) (sym q) (sym r) h

Agrees-listed :
    (hit : Bool) (now a : String) (i : ℤ) (read : Bool) (found : Option EntryRow)
    (pr ps : Option PendingRow)
    → Agrees found pr ps
    → Agrees
        (if hit then Option.map (with_status (read_text read)) found else found)
        (if hit && changes read found then some (bumped now a i "read" read pr) else pr)
        ps
Agrees-listed true now a i read found pr ps h = Agrees-set_read now a i read found pr ps h
Agrees-listed false now a i read found pr ps h = h

-- `set_read` with a fresh batch keeps the invariant.
pub set_read-IsConsistent :
    (started : String) (now : ℤ → String) (fresh account : String) (ids : List ℤ)
    (read undoable : Bool) (db : Db)
    → (undoable ≡ true → IsFresh account fresh db)
    → IsConsistent db
    → (db' : Db) (r : Option MutationReceipt)
    → set_read started now fresh account ids read undoable db ≡ ok (db', r)
    → IsConsistent db'
set_read-IsConsistent started now fresh account ids read undoable db unused c db' r h =
    let (after, receipt, runs, entries, pending) =
      set_read-effect started now fresh account ids read undoable db unused in
    let same : after ≡ db' =
      ap (λ (t : Db × Option MutationReceipt). t.0) (ok-injective (sym runs ∙ h)) in
    subst IsConsistent same (record {
      agrees = λ a j. elim (Bool-cases (account == a)) [
        | inl own ↦
            let e = (eq_iff account a).0 own in
            Agrees-of (entries a j ∙ rw own) (pending a j "read" ∙ rw (own, e))
              (pending a j "starred" ∙ rw own)
              (Agrees-listed (listed j ids) (now j) a j read (entry_at a j db)
                (pending_at a j "read" db) (pending_at a j "starred" db) (c.agrees a j))
        | inr other ↦
            Agrees-of (entries a j ∙ rw other) (pending a j "read" ∙ rw other)
              (pending a j "starred" ∙ rw other) (c.agrees a j)
      ];
    })

Agrees-star :
    (now a : String) (i : ℤ) (starred : Bool) (found : Option EntryRow) (pr ps : Option PendingRow)
    → found ≢ none
    → Agrees found pr ps
    → Agrees
        (Option.map (with_starred starred) found)
        pr
        (some (bumped now a i "starred" starred ps))
unfolding bumped
Agrees-star now a i starred none pr ps stored h = absurd (stored refl)
Agrees-star now a i starred (some e) none none stored h = (h.0, refl)
Agrees-star now a i starred (some e) none (some p) stored h = (h.0, refl)
Agrees-star now a i starred (some e) (some q) none stored h = (h.0, refl)
Agrees-star now a i starred (some e) (some q) (some p) stored h = (h.0, refl)

module _ (now a : String) (i : ℤ) (db : Db) (stored : entry_at a i db ≢ none)
    (c : IsConsistent db) where
  stored_at : (b : String) (j : ℤ) → same_entry a i b j ≡ true → entry_at b j db ≢ none
  stored_at b j own =
      let (account, id) = same_entry_columns a i b j own in
      subst₂ (λ x y. entry_at x y db ≢ none) account id stored

  -- The write of one stored entry's read state keeps the invariant.
  pub write_read-IsConsistent : (read : Bool) → IsConsistent (write_read now a i read db)
  write_read-IsConsistent read = record {
    agrees = λ b j.
        let entry = entry_at-write_read now a i read db b j in
        let pending = pending_at-write_read now a i read db b j in
        let split = same_pending-entry a i "read" b j in
        elim (Bool-cases (same_entry a i b j)) [
          | inl own ↦
              Agrees-of (entry ∙ rw own) (pending "read" ∙ rw (split "read", own))
                (pending "starred" ∙ rw (split "starred", own))
                (Agrees-write now a i read (entry_at b j db) (pending_at b j "read" db)
                  (pending_at b j "starred" db) (stored_at b j own) (c.agrees b j))
          | inr apart ↦
              Agrees-of (entry ∙ rw apart) (pending "read" ∙ rw (split "read", apart))
                (pending "starred" ∙ rw (split "starred", apart)) (c.agrees b j)
        ];
  }

  -- `set_starred` of a stored entry keeps the invariant.
  pub set_starred-IsConsistent : (starred : Bool) → IsConsistent (set_starred now a i starred db)
  unfolding set_starred
  set_starred-IsConsistent starred = record {
    agrees = λ b j.
        let entry =
          entry_at-update_where a i b j (with_starred starred) db.entries (λ r. (refl, refl)) in
        let pending = λ (g : String).
          pending_at-upsert_pending now a i "starred" starred b j g db.pending_mutations in
        let split = same_pending-entry a i "starred" b j in
        elim (Bool-cases (same_entry a i b j)) [
          | inl own ↦
              Agrees-of (entry ∙ rw own) (pending "read" ∙ rw (split "read", own))
                (pending "starred" ∙ rw (split "starred", own))
                (Agrees-star now a i starred (entry_at b j db) (pending_at b j "read" db)
                  (pending_at b j "starred" db) (stored_at b j own) (c.agrees b j))
          | inr apart ↦
              Agrees-of (entry ∙ rw apart) (pending "read" ∙ rw (split "read", apart))
                (pending "starred" ∙ rw (split "starred", apart)) (c.agrees b j)
        ];
  }
