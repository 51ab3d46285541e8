-- ===== src/Store/Views.antt =====
-- What a lookup by primary key finds after the writes of the store: the tables seen as maps.
use mathlib.Core.Option
use flux_bar.Prelude.{
  ◌≡◌, refl, Bool, true, false, ◌&&◌, Option, none, some, List, [], ◌∷◌, String, ◌==◌, eq_iff,
  eq_refl, ℤ, id_eq, id_eq_iff, arith, if◌then◌else◌, ◌∙◌, Bool-cases, Option-cases, inl, inr,
}
use flux_bar.Sql.{find_row, update_where}
use flux_bar.Sql.Laws.{find_row-upsert_self, find_row-upsert_ne}
use flux_bar.Store.Schema.{Db, EntryRow, PendingRow, entry_key, pending_key}
use flux_bar.Store.Mutations.{upsert_pending, new_pending, bump}

abbrev pub entry_at : String → ℤ → Db → Option EntryRow
entry_at account id db = find_row (entry_key account id) db.entries

abbrev pub pending_at : String → ℤ → String → Db → Option PendingRow
pending_at account id field db = find_row (pending_key account id field) db.pending_mutations

-- Two keys of the entries table are one key.
unfoldable pub same_entry : String → ℤ → String → ℤ → Bool
same_entry a i b j = a == b && id_eq i j

unfoldable pub same_pending : String → ℤ → String → String → ℤ → String → Bool
same_pending a i f b j g = a == b && id_eq i j && f == g

-- A write to the columns of one entry that are no key changes what is found at its key only.
pub entry_at-update_where :
    (a : String) (i : ℤ) (b : String) (j : ℤ) (f : EntryRow → EntryRow) (rs : List EntryRow)
    → ((r : EntryRow) → ((f r).account_id ≡ r.account_id) × ((f r).id ≡ r.id))
    → find_row (entry_key b j) (update_where (entry_key a i) f rs) ≡ (
        if same_entry a i b j
        then Option.map f (find_row (entry_key b j) rs)
        else find_row (entry_key b j) rs)
unfolding find_row update_where entry_key same_entry
entry_at-update_where a i b j f [] keep = ground arith
entry_at-update_where a i b j f (r ∷ rs) keep = ground (
  arith,
  keep r,
  entry_at-update_where a i b j f rs keep,
  eq_iff r.account_id a,
  eq_iff r.account_id b,
  eq_iff (f r).account_id b,
  eq_iff a b,
  id_eq_iff r.id i,
  id_eq_iff r.id j,
  id_eq_iff (f r).id j,
  id_eq_iff i j,
)

pub same_pending_refl : (a : String) (i : ℤ) (f : String) → same_pending a i f a i f ≡ true
unfolding same_pending
same_pending_refl a i f = ground (arith, eq_iff a a, id_eq_iff i i, eq_iff f f)

pub same_entry_columns :
    (a : String) (i : ℤ) (b : String) (j : ℤ) → (same_entry a i b j ≡ true) → (a ≡ b) × (i ≡ j)
unfolding same_entry
same_entry_columns a i b j h = ground (arith, eq_iff a b, id_eq_iff i j)

pub same_entry-account : (a : String) (i j : ℤ) → same_entry a i a j ≡ id_eq i j
unfolding same_entry
same_entry-account a i j = rw (eq_refl a)

-- The pending row that a local change leaves at its key.
unfoldable pub bumped : String → String → ℤ → String → Bool → Option PendingRow → PendingRow
bumped now a i f desired none = new_pending now a i f desired
bumped now a i f desired (some p) = bump now desired p

pub same_pending-entry :
    (a : String) (i : ℤ) (f : String) (b : String) (j : ℤ) (g : String)
    → same_pending a i f b j g ≡ (same_entry a i b j && f == g)
unfolding same_pending same_entry
same_pending-entry a i f b j g = ground arith

pending_key-columns :
    (a : String) (i : ℤ) (f : String) (r : PendingRow)
    → pending_key a i f r ≡ true
    → (r.account_id ≡ a) × (r.entry_id ≡ i) × (r.field ≡ f)
unfolding pending_key
pending_key-columns a i f r h =
    ground (arith, eq_iff r.account_id a, id_eq_iff r.entry_id i, eq_iff r.field f)

-- A row with one key has another key exactly if the keys are the same.
pub pending_key-same :
    (a : String) (i : ℤ) (f : String) (b : String) (j : ℤ) (g : String) (r : PendingRow)
    → pending_key a i f r ≡ true
    → pending_key b j g r ≡ same_pending a i f b j g
unfolding pending_key same_pending
pending_key-same a i f b j g r h =
    let (account, entry, field) = pending_key-columns a i f r h in rw (account, entry, field)

pub same_pending_symm :
    (a : String) (i : ℤ) (f : String) (b : String) (j : ℤ) (g : String)
    → same_pending a i f b j g ≡ same_pending b j g a i f
unfolding same_pending
same_pending_symm a i f b j g =
    ground (arith, eq_iff a b, eq_iff b a, id_eq_iff i j, id_eq_iff j i, eq_iff f g, eq_iff g f)

same_pending-columns :
    (a : String) (i : ℤ) (f : String) (b : String) (j : ℤ) (g : String)
    → same_pending a i f b j g ≡ true
    → (b ≡ a) × (j ≡ i) × (g ≡ f)
unfolding same_pending
same_pending-columns a i f b j g h = ground (arith, eq_iff a b, id_eq_iff i j, eq_iff f g)

upsert_pending_self :
    (now a : String) (i : ℤ) (f : String) (desired : Bool) (rs : List PendingRow)
    → find_row (pending_key a i f) (upsert_pending now a i f desired rs)
      ≡ some (bumped now a i f desired (find_row (pending_key a i f) rs))
unfolding upsert_pending bumped
upsert_pending_self now a i f desired rs =
    find_row-upsert_self (pending_key a i f) (bump now desired) (new_pending now a i f desired) rs
      (λ r. unfold pending_key in refl) (unfold pending_key same_pending in same_pending_refl a i f)
    ∙ elim (Option-cases (find_row (pending_key a i f) rs)) [ inl e ↦ rw e | inr (p, e) ↦ rw e ]

upsert_pending-ne :
    (now a : String) (i : ℤ) (f : String) (desired : Bool) (b : String) (j : ℤ) (g : String)
    (rs : List PendingRow)
    → same_pending a i f b j g ≡ false
    → find_row (pending_key b j g) (upsert_pending now a i f desired rs)
      ≡ find_row (pending_key b j g) rs
unfolding upsert_pending
upsert_pending-ne now a i f desired b j g rs apart =
    find_row-upsert_ne (pending_key b j g) (pending_key a i f) (bump now desired)
      (new_pending now a i f desired) rs (λ r h. pending_key-same a i f b j g r h ∙ apart)
      (λ r h. unfold pending_key in pending_key-same a i f b j g r h ∙ apart)
      (unfold pending_key same_pending in apart)

pub pending_at-upsert_pending :
    (now a : String) (i : ℤ) (f : String) (desired : Bool) (b : String) (j : ℤ) (g : String)
    (rs : List PendingRow)
    → find_row (pending_key b j g) (upsert_pending now a i f desired rs) ≡ (
        if same_pending a i f b j g
        then some (bumped now a i f desired (find_row (pending_key b j g) rs))
        else find_row (pending_key b j g) rs)
pending_at-upsert_pending now a i f desired b j g rs =
    elim (Bool-cases (same_pending a i f b j g)) [
      | inl same ↦
          let (account, entry, field) = same_pending-columns a i f b j g same in
          rw (same, account, entry, field) (upsert_pending_self now a i f desired rs)
      | inr apart ↦ rw apart (upsert_pending-ne now a i f desired b j g rs apart)
    ]
