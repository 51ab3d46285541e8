-- ===== src/Transport/FieldsLaws.antt =====
-- A request that has a key several times, in whatever letters.
use flux_bar.Prelude.{
  ◌≡◌, refl, ap, sym, ◌∙◌, true, false, Option, none, some, List, [], ◌∷◌, ◌++◌, String, ◌==◌,
  Result, ok, err, if◌then◌else◌, Bool-cases, inl, inr, eq_iff,
}
use flux_bar.Transport.Fields.{JsonPackage, canonical, insert_value, after, value_of, visit_map}

-- The value of a key of an object.
unfoldable pub find_value : {V : Type 0} → String → List (String × V) → Option V
find_value f [] = none
find_value f ((k, v) ∷ object) = let rest = find_value f object in if k == f then some v else rest

eq_self : (s : String) → s == s ≡ true
eq_self s = (eq_iff s s).1 refl

module _ {V : Type 0} (f : String) where
  find_value-insert_value :
      (v : V) (object : List (String × V)) → find_value f (insert_value f v object) ≡ some v
  unfolding find_value insert_value
  find_value-insert_value v [] = rw (eq_self f) refl
  find_value-insert_value v ((k, old) ∷ object) = elim (Bool-cases (k == f)) [
    | inl here ↦ rw (here, here) refl
    | inr further ↦ rw (further, further) (find_value-insert_value v object)
  ]

  find_value-insert_other :
      (g : String) (v : V) (object : List (String × V))
      → g == f ≡ false
      → find_value f (insert_value g v object) ≡ find_value f object
  unfolding find_value insert_value
  find_value-insert_other g v [] other = rw other refl
  find_value-insert_other g v ((k, old) ∷ object) other = elim (Bool-cases (k == g)) [
    | inl here ↦ rw (here, ap (λ (key : String). key == f) ((eq_iff k g).0 here) ∙ other) refl
    | inr further ↦ rw (further, find_value-insert_other g v object other) refl
  ]

  -- No key of the list means the field.
  abbrev pub AllOther : List (String × V) → Type 0
  AllOther [] = Unit
  AllOther ((key, _) ∷ entries) = (canonical key == f ≡ false) × AllOther entries

after-ok :
    {A B : Type 0} (first : Result String A) (next : A → Result String B) (b : B)
    → after first next ≡ ok b
    → (a : A) × ((first ≡ ok a) × (next a ≡ ok b))
unfolding after
after-ok (ok a) next b h = (a, (refl, h))
after-ok (err e) next b h = absurd (cc h)

module _ (json : JsonPackage) (f : String) where
  visit_map-kept :
      (entries object object' : List (String × json.Value))
      → AllOther f entries
      → visit_map json entries object ≡ ok object'
      → find_value f object' ≡ find_value f object
  unfolding visit_map
  visit_map-kept [] object object' all h =
      let same : object ≡ object' = cc h in ap (find_value f) (sym same)
  visit_map-kept ((key, v) ∷ entries) object object' (other, all) h =
      let (value, (_, later)) = after-ok (value_of json (canonical key) v) _ object' h in
      visit_map-kept entries (insert_value (canonical key) value object) object' all later
      ∙ find_value-insert_other f (canonical key) value object other

  last_of :
      (before later object object' : List (String × json.Value)) (key : String) (v : json.Value)
      → canonical key ≡ f
      → f == "selection" ≡ false
      → AllOther f later
      → visit_map json (before ++ ((key, v) ∷ later)) object ≡ ok object'
      → find_value f object' ≡ some v
  unfolding visit_map value_of after
  last_of [] later object object' key v means plain all h =
      visit_map-kept later (insert_value f v object) object' all (rw (means, plain) at h)
      ∙ find_value-insert_value f v object
  last_of ((k, w) ∷ before) later object object' key v means plain all h =
      let (value, (_, rest)) = after-ok (value_of json (canonical k) w) _ object' h in
      last_of before later (insert_value (canonical k) value object) object' key v means plain all
        rest

-- Of the keys of a request that mean one field, in whatever letters, the last one has the value that the
-- field gets, if the request can be read; the field of the selection is read further and left out here.
pub visit_map-last :
    (json : JsonPackage) (before later object : List (String × json.Value)) (key : String)
    (v : json.Value)
    → canonical key == "selection" ≡ false
    → AllOther (canonical key) later
    → visit_map json (before ++ ((key, v) ∷ later)) [] ≡ ok object
    → find_value (canonical key) object ≡ some v
visit_map-last json before later object key v plain all h =
    last_of json (canonical key) before later [] object key v refl plain all h
