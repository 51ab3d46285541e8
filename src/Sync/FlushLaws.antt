-- ===== src/Sync/FlushLaws.antt =====
-- The acknowledgement of a mutation keeps the primary keys of entries and queued mutations.
use flux_bar.Prelude.{
  ◌≡◌, refl, false, List, [], ◌∷◌, String, ok, ok-injective, arith, Bool-cases, Option-cases, inl,
  inr, ◌==◌,
}
use mathlib.Core.Path.{subst}
use flux_bar.Sql.Keys.{count_rows-update_where, count_rows-delete_where}
use flux_bar.Store.Schema.{Db, EntryRow, entry_key, pending_key}
use flux_bar.Store.Mutations.{read_text}
use flux_bar.Store.Acknowledge.{
  PendingMutation, acknowledge, acknowledge_field, forget_sent, is_sent, with_remote_status,
  with_remote_starred,
}
use flux_bar.Store.Views.{entry_at, same_pending}
use flux_bar.Store.Keyed.{IsKeyed}

IsKeyed-acknowledge_field :
    (a : String) (m : PendingMutation) (e : EntryRow) (db : Db)
    → IsKeyed db
    → IsKeyed (acknowledge_field a m e db)
unfolding acknowledge_field
IsKeyed-acknowledge_field a m e db k = elim (Bool-cases (m.field == "read")) [
  | inl read ↦ rw read (record {
    entries = λ b j.
        rw
          (count_rows-update_where (entry_key b j) (entry_key a m.entry_id)
            (with_remote_status (read_text m.desired)) db.entries (λ r. unfold entry_key in refl))
          (k.entries b j);
    pending = k.pending;
  })
  | inr star ↦ rw star (record {
    entries = λ b j.
        rw
          (count_rows-update_where (entry_key b j) (entry_key a m.entry_id)
            (with_remote_starred m.desired) db.entries (λ r. unfold entry_key in refl))
          (k.entries b j);
    pending = k.pending;
  })
]

IsKeyed-forget_sent :
    (a : String) (m : PendingMutation) (db : Db) → IsKeyed db → IsKeyed (forget_sent a m db)
unfolding forget_sent
IsKeyed-forget_sent a m db k = record {
  entries = k.entries;
  pending = λ b j g. omega (
    arith,
    k.pending b j g,
    count_rows-delete_where (pending_key b j g) (is_sent a m) db.pending_mutations,
  );
}

pub IsKeyed-acknowledge :
    (a : String) (m : PendingMutation) (db db' : Db)
    → IsKeyed db
    → acknowledge a m db ≡ ok db'
    → IsKeyed db'
unfolding acknowledge
IsKeyed-acknowledge a m db db' k h = elim (Option-cases (entry_at a m.entry_id db)) [
  | inl missing ↦ absurd (cc (rw missing at h))
  | inr (e, found) ↦
      subst IsKeyed (ok-injective (rw found at h)) (
        IsKeyed-forget_sent a m (acknowledge_field a m e db) (IsKeyed-acknowledge_field a m e db k))
]

-- No other mutation of the list is of the same entry and field.
abbrev pub Apart : String → PendingMutation → List PendingMutation → Type 0
Apart a m [] = Unit
Apart a m (m' ∷ ms) =
    (same_pending a m.entry_id m.field a m'.entry_id m'.field ≡ false) × Apart a m ms
