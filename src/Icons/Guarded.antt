-- ===== src/Icons/Guarded.antt =====
-- The invariant of the loads of icons; new phases and new slots keep it.
use flux_bar.Prelude.{
  ℕ, suc, ◌<◌, ◌≡◌, ◌≢◌, refl, ap, sym, ◌∙◌, true, false, Option, none, some, ℤ, id_eq, id_eq_iff,
  id_eq_refl, nat_eq, nat_eq_iff, arith, if◌then◌else◌, Bool-cases, inl, inr, ◌⊎◌,
}
use flux_bar.Icons.Flight.{
  Phase, waiting, unclaimed, loading, leaving, IconService, with_phase, claim,
}

-- A thread that loads, or is about to set its slot ready.
abbrev pub IsBusy : ℤ → ℕ → Phase → Type 0
IsBusy f slot p = (p ≡ loading f slot) ⊎ (p ≡ leaving f slot)

-- The slot of a loading thread is the one in the map, and a slot in the map belongs to a loading
-- thread; a waiting thread's slot is ready or belongs to a thread that loads or is about to set it
-- ready.
pub record IsGuarded (s : IconService) : Type 0 where
  pub held :
      (t : ℕ) (f : ℤ) (slot : ℕ)
      → s.phase t ≡ loading f slot
      → (s.loads f ≡ some slot) × (s.owner slot ≡ t)
  pub noted :
      (f : ℤ) (slot : ℕ)
      → s.loads f ≡ some slot
      → (s.phase (s.owner slot) ≡ loading f slot) × (slot < s.next)
  pub waited :
      (t : ℕ) (f : ℤ) (slot : ℕ)
      → s.phase t ≡ waiting f slot
      → ((s.ready slot ≡ true) ⊎ IsBusy f slot (s.phase (s.owner slot))) × (slot < s.next)

-- The thread `t` goes from a phase without a slot to another one.
module _ (s : IconService) (t : ℕ) (p : Phase) (g : IsGuarded s)
    (before : (f : ℤ) (slot : ℕ) → s.phase t ≢ loading f slot)
    (stays : (f : ℤ) (slot : ℕ) → s.phase t ≢ leaving f slot)
    (after : (f : ℤ) (slot : ℕ) → p ≢ loading f slot) where
  others :
      (u : ℕ) (f : ℤ) (slot : ℕ)
      → s.phase u ≡ loading f slot
      → (if nat_eq u t then p else s.phase u) ≡ loading f slot
  others u f slot h = elim (Bool-cases (nat_eq u t)) [
    | inl own ↦ absurd (before f slot (ap s.phase (sym ((nat_eq_iff u t).0 own)) ∙ h))
    | inr other ↦ rw other h
  ]

  others-IsBusy :
      (u : ℕ) (f : ℤ) (slot : ℕ)
      → IsBusy f slot (s.phase u)
      → IsBusy f slot (if nat_eq u t then p else s.phase u)
  others-IsBusy u f slot (inl h) = inl (others u f slot h)
  others-IsBusy u f slot (inr h) = inr (elim (Bool-cases (nat_eq u t)) [
    | inl own ↦ absurd (stays f slot (ap s.phase (sym ((nat_eq_iff u t).0 own)) ∙ h))
    | inr other ↦ rw other h
  ])

  loading_before :
      (u : ℕ) (f : ℤ) (slot : ℕ)
      → (if nat_eq u t then p else s.phase u) ≡ loading f slot
      → s.phase u ≡ loading f slot
  loading_before u f slot h = elim (Bool-cases (nat_eq u t)) [
    | inl own ↦ absurd (after f slot (rw own at h))
    | inr other ↦ rw other at h
  ]

  pub with_phase-IsGuarded :
      ((f : ℤ) (slot : ℕ) → p ≡ waiting f slot → s.loads f ≡ some slot)
      → IsGuarded (with_phase t p s)
  with_phase-IsGuarded registered = record {
    held = λ u f slot h. g.held u f slot (loading_before u f slot h);
    noted = λ f slot h.
        let (owned, low) = g.noted f slot h in (others (s.owner slot) f slot owned, low);
    waited = λ u f slot h. elim (Bool-cases (nat_eq u t)) [
      | inl own ↦
          let (owned, low) = g.noted f slot (registered f slot (rw own at h)) in
          (inr (inl (others (s.owner slot) f slot owned)), low)
      | inr other ↦
          let (why, low) = g.waited u f slot (rw other at h) in
          (
            elim why [
              | inl done ↦ inl done
              | inr busy ↦ inr (others-IsBusy (s.owner slot) f slot busy)
            ],
            low,
          )
    ];
  }

pub below-ne : (a b : ℕ) → a < b → nat_eq a b ≡ false
below-ne a b h = ground (arith, h)

pub apart : (f g : ℤ) → f ≢ g → id_eq f g ≡ false
apart f g h = elim (Bool-cases (id_eq f g)) [
  | inl same ↦ absurd (h ((id_eq_iff f g).0 same))
  | inr other ↦ other
]

pub apart_ℕ : (a b : ℕ) → a ≢ b → nat_eq a b ≡ false
apart_ℕ a b h = elim (Bool-cases (nat_eq a b)) [
  | inl same ↦ absurd (h ((nat_eq_iff a b).0 same))
  | inr other ↦ other
]

pub self_ℕ : (a : ℕ) → nat_eq a a ≡ true
self_ℕ a = (nat_eq_iff a a).1 refl

module _ (s : IconService) (t : ℕ) (feed : ℤ) (g : IsGuarded s) (free : s.phase t ≡ unclaimed feed)
    (none_yet : s.loads feed ≡ none) where
  other_thread : (u : ℕ) (f : ℤ) (slot : ℕ) → s.phase u ≡ loading f slot → nat_eq u t ≡ false
  other_thread u f slot h = apart_ℕ u t (λ same. cc (sym free ∙ ap s.phase (sym same) ∙ h))

  apart-IsBusy : (u : ℕ) (f : ℤ) (slot : ℕ) → IsBusy f slot (s.phase u) → nat_eq u t ≡ false
  apart-IsBusy u f slot (inl h) = other_thread u f slot h
  apart-IsBusy u f slot (inr h) = apart_ℕ u t (λ same. cc (sym free ∙ ap s.phase (sym same) ∙ h))

  held_claim :
      (u : ℕ) (f : ℤ) (slot : ℕ)
      → (claim t feed s).phase u ≡ loading f slot
      → ((claim t feed s).loads f ≡ some slot) × ((claim t feed s).owner slot ≡ u)
  held_claim u f slot h = elim (Bool-cases (nat_eq u t)) [
    | inl own ↦
        let mine : loading feed s.next ≡ loading f slot = rw own at h in
        let at_feed : feed ≡ f = cc mine in
        let at_slot : s.next ≡ slot = cc mine in
        rw (← at_feed, ← at_slot, id_eq_refl feed, self_ℕ s.next)
          (refl, sym ((nat_eq_iff u t).0 own))
    | inr other ↦
        let old : s.phase u ≡ loading f slot = rw other at h in
        let (there, owned) = g.held u f slot old in
        let (_, low) = g.noted f slot there in
        rw
          (
            apart f feed (λ same. cc (sym there ∙ ap s.loads same ∙ none_yet)),
            below-ne slot s.next low,
          )
          (there, owned)
  ]

  noted_claim :
      (f : ℤ) (slot : ℕ)
      → (claim t feed s).loads f ≡ some slot
      → ((claim t feed s).phase ((claim t feed s).owner slot) ≡ loading f slot)
        × (slot < suc s.next)
  noted_claim f slot h = elim (Bool-cases (id_eq f feed)) [
    | inl own ↦
        let here : ◌≡◌ {A = Option ℕ} (some s.next) (some slot) = rw own at h in
        let at_slot : s.next ≡ slot = cc here in
        rw (← at_slot, self_ℕ s.next, self_ℕ t, (id_eq_iff f feed).0 own) (refl, omega arith)
    | inr other ↦
        let (owned, low) = g.noted f slot (rw other at h) in
        rw (below-ne slot s.next low, other_thread (s.owner slot) f slot owned)
          (owned, omega (arith, low))
  ]

  waited_claim :
      (u : ℕ) (f : ℤ) (slot : ℕ)
      → (claim t feed s).phase u ≡ waiting f slot
      → (((claim t feed s).ready slot ≡ true)
          ⊎ IsBusy f slot ((claim t feed s).phase ((claim t feed s).owner slot)))
        × (slot < suc s.next)
  waited_claim u f slot h = elim (Bool-cases (nat_eq u t)) [
    | inl own ↦ absurd (cc (rw own at h))
    | inr other ↦
        let (why, low) = g.waited u f slot (rw other at h) in
        rw (below-ne slot s.next low) (
          elim why [
            | inl done ↦ inl done
            | inr busy ↦ inr (rw (apart-IsBusy (s.owner slot) f slot busy) busy)
          ],
          omega (arith, low),
        )
  ]

  pub claim-IsGuarded : IsGuarded (claim t feed s)
  claim-IsGuarded = record { held = held_claim; noted = noted_claim; waited = waited_claim }
