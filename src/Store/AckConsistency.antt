-- ===== src/Store/AckConsistency.antt =====
-- `acknowledge` keeps the invariant of the store, also when the user changed the entry again while
-- the request was under way.
use mathlib.Core.Option
use flux_bar.Prelude.{
  ◌≡◌, ◌≢◌, refl, ap, sym, ◌∙◌, true, false, Option, none, some, String, ◌==◌, ℤ, nat_eq,
  nat_eq_iff, if◌then◌else◌, Bool-cases, inl, inr, ◌⊎◌, ok,
}
use flux_bar.Store.Schema.{Db, EntryRow, PendingRow}
use flux_bar.Store.Mutations.{read_text}
use flux_bar.Store.Acknowledge.{
  PendingMutation, acknowledge, with_remote_status, with_remote_starred,
}
use flux_bar.Store.Views.{entry_at, pending_at, same_entry, same_entry_columns, same_pending-entry}
use flux_bar.Store.Keyed.{IsKeyed}
use flux_bar.Store.Acknowledged.{unsent, acknowledged, acknowledge-effect}
use flux_bar.Store.Consistency.{Agrees, Agrees-of, IsConsistent}

-- The mutation was read from the table: its row is there, and it has the sent value unless it was
-- changed since.
pub record WasSent (a : String) (m : PendingMutation) (db : Db) : Type 0 where
  pub row : PendingRow
  pub queued : pending_at a m.entry_id m.field db ≡ some row
  pub unchanged : row.revision ≡ m.revision → row.desired ≡ m.desired
  pub known : (m.field ≡ "read") ⊎ (m.field ≡ "starred")

Agrees-ack_read :
    (m : PendingMutation) (found : Option EntryRow) (p : PendingRow) (ps : Option PendingRow)
    → (p.revision ≡ m.revision → p.desired ≡ m.desired)
    → Agrees found (some p) ps
    → Agrees (Option.map (with_remote_status (read_text m.desired)) found) (unsent m (some p)) ps
unfolding unsent
Agrees-ack_read m none p ps same h = absurd (cc h.0)
Agrees-ack_read m (some e) p ps same h = elim (Bool-cases (nat_eq p.revision m.revision)) [
  | inl sent ↦ rw sent (h.0 ∙ ap read_text (same ((nat_eq_iff p.revision m.revision).0 sent)), h.1)
  | inr newer ↦ rw newer (h.0, h.1)
]

Agrees-ack_star :
    (m : PendingMutation) (found : Option EntryRow) (pr : Option PendingRow) (p : PendingRow)
    → (p.revision ≡ m.revision → p.desired ≡ m.desired)
    → Agrees found pr (some p)
    → Agrees (Option.map (with_remote_starred m.desired) found) pr (unsent m (some p))
unfolding unsent
Agrees-ack_star m none pr p same h = absurd (cc h.1)
Agrees-ack_star m (some e) pr p same h = elim (Bool-cases (nat_eq p.revision m.revision)) [
  | inl sent ↦ rw sent (h.0, h.1 ∙ same ((nat_eq_iff p.revision m.revision).0 sent))
  | inr newer ↦ rw newer (h.0, h.1)
]

-- A pending row at the key of another row, when the entries are the same.
Agrees-queued :
    (m : PendingMutation) (found : Option EntryRow) (pr ps : Option PendingRow) (row : PendingRow)
    → (row.revision ≡ m.revision → row.desired ≡ m.desired)
    → ((m.field ≡ "read") × (pr ≡ some row)) ⊎ ((m.field ≡ "starred") × (ps ≡ some row))
    → Agrees found pr ps
    → Agrees
        (Option.map (acknowledged m) found)
        (if m.field == "read" then unsent m pr else pr)
        (if m.field == "starred" then unsent m ps else ps)
unfolding acknowledged
Agrees-queued m found pr ps row same (inl (read, queued)) h =
    let is_read : (m.field == "read") ≡ true = ap (λ (x : String). x == "read") read in
    let not_star : (m.field == "starred") ≡ false = ap (λ (x : String). x == "starred") read in
    rw (is_read, not_star, queued, acknowledged)
      (Agrees-ack_read m found row ps same (Agrees-of refl (sym queued) refl h))
Agrees-queued m found pr ps row same (inr (star, queued)) h =
    let not_read : (m.field == "read") ≡ false = ap (λ (x : String). x == "read") star in
    let is_star : (m.field == "starred") ≡ true = ap (λ (x : String). x == "starred") star in
    rw (not_read, is_star, queued, acknowledged)
      (Agrees-ack_star m found pr row same (Agrees-of refl refl (sym queued) h))

queued_at :
    (a : String) (m : PendingMutation) (db : Db) (b : String) (j : ℤ) (w : WasSent a m db)
    → same_entry a m.entry_id b j ≡ true
    → ((m.field ≡ "read") × (pending_at b j "read" db ≡ some w.row))
      ⊎ ((m.field ≡ "starred") × (pending_at b j "starred" db ≡ some w.row))
queued_at a m db b j w own =
    let (account, id) = same_entry_columns a m.entry_id b j own in
    elim w.known [
      | inl read ↦ inl (read, rw (← account, ← id, ← read) w.queued)
      | inr star ↦ inr (star, rw (← account, ← id, ← star) w.queued)
    ]

stored_of :
    (found : Option EntryRow) (pr ps : Option PendingRow) (row : PendingRow)
    → (pr ≡ some row) ⊎ (ps ≡ some row)
    → Agrees found pr ps
    → found ≢ none
stored_of none pr ps row (inl q) h = absurd (cc (h.0, q))
stored_of none pr ps row (inr q) h = absurd (cc (h.1, q))
stored_of (some e) pr ps row q h = λ k. cc k

-- The entry of a pending mutation is stored.
pub stored_sent :
    (a : String) (m : PendingMutation) (db : Db)
    → IsConsistent db
    → WasSent a m db
    → entry_at a m.entry_id db ≢ none
stored_sent a m db c w =
    stored_of (entry_at a m.entry_id db) (pending_at a m.entry_id "read" db)
      (pending_at a m.entry_id "starred" db) w.row
      (elim w.known [
        | inl read ↦ inl (rw (← read) w.queued)
        | inr star ↦ inr (rw (← star) w.queued)
      ])
      (c.agrees a m.entry_id)

-- The acknowledgement of a mutation that was read from the table succeeds and keeps the invariant:
-- what the user sees of the entry is its pending value or else the remote one.
pub acknowledge-IsConsistent :
    (a : String) (m : PendingMutation) (db : Db)
    → IsKeyed db
    → IsConsistent db
    → WasSent a m db
    → (db' : Db) × (acknowledge a m db ≡ ok db') × IsConsistent db'
acknowledge-IsConsistent a m db k c w =
    let (db', done, entries, pending) = acknowledge-effect a m db k (stored_sent a m db c w) in
    (
      db',
      done,
      record {
        agrees = λ b j.
            let split = same_pending-entry a m.entry_id m.field b j in
            elim (Bool-cases (same_entry a m.entry_id b j)) [
              | inl own ↦
                  Agrees-of (entries b j ∙ rw own) (pending b j "read" ∙ rw (split "read", own))
                    (pending b j "starred" ∙ rw (split "starred", own))
                    (Agrees-queued m (entry_at b j db) (pending_at b j "read" db)
                      (pending_at b j "starred" db) w.row w.unchanged (queued_at a m db b j w own)
                      (c.agrees b j))
              | inr apart ↦
                  Agrees-of (entries b j ∙ rw apart) (pending b j "read" ∙ rw (split "read", apart))
                    (pending b j "starred" ∙ rw (split "starred", apart)) (c.agrees b j)
            ];
      },
    )
