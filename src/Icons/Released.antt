-- ===== src/Icons/Released.antt =====
-- The end of a load keeps the invariant of the loads.
use flux_bar.Prelude.{
  ℕ, false, if◌then◌else◌, ◌<◌, ◌≡◌, ◌≢◌, refl, ap, sym, ◌∙◌, true, Option, some, ℤ, id_eq,
  id_eq_iff, nat_eq, nat_eq_iff, Bool-cases, inl, inr, ◌⊎◌,
}
use flux_bar.Icons.Flight.{waiting, loading, leaving, IconService, unload, release}
use flux_bar.Icons.Guarded.{IsGuarded, IsBusy, apart, apart_ℕ}

module _ (s : IconService) (t : ℕ) (feed : ℤ) (slot₀ : ℕ) (g : IsGuarded s)
    (busy₀ : s.phase t ≡ loading feed slot₀) where
  held_unload :
      (u : ℕ) (f : ℤ) (slot : ℕ)
      → (unload t feed slot₀ s).phase u ≡ loading f slot
      → ((unload t feed slot₀ s).loads f ≡ some slot) × (s.owner slot ≡ u)
  held_unload u f slot h = elim (Bool-cases (nat_eq u t)) [
    | inl own ↦ absurd (cc (rw own at h))
    | inr other ↦
        let (there, owned) = g.held u f slot (rw other at h) in
        let (there₀, owned₀) = g.held t feed slot₀ busy₀ in
        let not_feed : f ≢ feed = λ same.
          let slots : ◌≡◌ {A = Option ℕ} (some slot) (some slot₀) =
            sym there ∙ ap s.loads same ∙ there₀ in
          let slot_same : slot ≡ slot₀ = cc slots in
          cc ((nat_eq_iff u t).1 (sym owned ∙ ap s.owner slot_same ∙ owned₀), other) in
        rw (apart f feed not_feed) (there, owned)
  ]

  noted_unload :
      (f : ℤ) (slot : ℕ)
      → (unload t feed slot₀ s).loads f ≡ some slot
      → ((unload t feed slot₀ s).phase (s.owner slot) ≡ loading f slot) × (slot < s.next)
  noted_unload f slot h = elim (Bool-cases (id_eq f feed)) [
    | inl own ↦ absurd (cc (rw own at h))
    | inr other ↦
        let (owned, low) = g.noted f slot (rw other at h) in
        let not_t : s.owner slot ≢ t = λ same.
          let both : loading f slot ≡ loading feed slot₀ = sym owned ∙ ap s.phase same ∙ busy₀ in
          let at_feed : f ≡ feed = cc both in cc ((id_eq_iff f feed).1 at_feed, other) in
        rw (apart_ℕ (s.owner slot) t not_t) (owned, low)
  ]

  waited_unload :
      (u : ℕ) (f : ℤ) (slot : ℕ)
      → (unload t feed slot₀ s).phase u ≡ waiting f slot
      → ((s.ready slot ≡ true) ⊎ IsBusy f slot ((unload t feed slot₀ s).phase (s.owner slot)))
        × (slot < s.next)
  waited_unload u f slot h = elim (Bool-cases (nat_eq u t)) [
    | inl own ↦ absurd (cc (rw own at h))
    | inr other ↦
        let (why, low) = g.waited u f slot (rw other at h) in
        (
          elim why [
            | inl done ↦ inl done
            | inr busy ↦ inr (unload-IsBusy (s.owner slot) f slot busy)
          ],
          low,
        )
  ]
    where
      leaving-loading :
          {f : ℤ} {slot : ℕ}
          → loading feed slot₀ ≡ loading f slot
          → leaving feed slot₀ ≡ leaving f slot
      leaving-loading {f} {slot} k =
          let at_feed : feed ≡ f = cc k in
          let at_slot : slot₀ ≡ slot = cc k in rw (at_feed, at_slot) refl

      -- The thread itself goes on with the same slot.
      unload-IsBusy :
          (v : ℕ) (f : ℤ) (slot : ℕ)
          → IsBusy f slot (s.phase v)
          → IsBusy f slot (if nat_eq v t then leaving feed slot₀ else s.phase v)
      unload-IsBusy v f slot busy = elim (Bool-cases (nat_eq v t)) [
        | inl own ↦
            let same : s.phase v ≡ loading feed slot₀ =
              ap s.phase ((nat_eq_iff v t).0 own) ∙ busy₀ in
            rw own (elim busy [
              | inl h ↦ inr (leaving-loading (sym same ∙ h))
              | inr h ↦ absurd (cc (sym same ∙ h))
            ])
        | inr other ↦ rw other busy
      ]

  pub unload-IsGuarded : IsGuarded (unload t feed slot₀ s)
  unload-IsGuarded = record { held = held_unload; noted = noted_unload; waited = waited_unload }

-- The thread that sets its slot ready.
module _ (s : IconService) (t : ℕ) (feed : ℤ) (slot₀ : ℕ) (g : IsGuarded s)
    (leaves : s.phase t ≡ leaving feed slot₀) where
  stays_loading : (u : ℕ) (f : ℤ) (slot : ℕ) → s.phase u ≡ loading f slot → nat_eq u t ≡ false
  stays_loading u f slot h = apart_ℕ u t (λ same. cc (sym leaves ∙ ap s.phase (sym same) ∙ h))

  held_release :
      (u : ℕ) (f : ℤ) (slot : ℕ)
      → (release t slot₀ s).phase u ≡ loading f slot
      → (s.loads f ≡ some slot) × (s.owner slot ≡ u)
  held_release u f slot h = elim (Bool-cases (nat_eq u t)) [
    | inl own ↦ absurd (cc (rw own at h))
    | inr other ↦ g.held u f slot (rw other at h)
  ]

  noted_release :
      (f : ℤ) (slot : ℕ)
      → s.loads f ≡ some slot
      → ((release t slot₀ s).phase (s.owner slot) ≡ loading f slot) × (slot < s.next)
  noted_release f slot h =
      let (owned, low) = g.noted f slot h in
      rw (stays_loading (s.owner slot) f slot owned) (owned, low)

  waited_release :
      (u : ℕ) (f : ℤ) (slot : ℕ)
      → (release t slot₀ s).phase u ≡ waiting f slot
      → (((release t slot₀ s).ready slot ≡ true)
          ⊎ IsBusy f slot ((release t slot₀ s).phase (s.owner slot)))
        × (slot < s.next)
  waited_release u f slot h = elim (Bool-cases (nat_eq u t)) [
    | inl own ↦ absurd (cc (rw own at h))
    | inr other ↦
        let (why, low) = g.waited u f slot (rw other at h) in
        (
          elim (Bool-cases (nat_eq slot slot₀)) [
            | inl mine ↦ inl (rw mine refl)
            | inr foreign ↦ elim why [
              | inl done ↦ inl (rw foreign done)
              | inr busy ↦ inr (rw (other_owner f slot busy foreign) busy)
            ]
          ],
          low,
        )
  ]
    where
      other_owner :
          (f : ℤ) (slot : ℕ)
          → IsBusy f slot (s.phase (s.owner slot))
          → nat_eq slot slot₀ ≡ false
          → nat_eq (s.owner slot) t ≡ false
      other_owner f slot (inl h) foreign = stays_loading (s.owner slot) f slot h
      other_owner f slot (inr h) foreign = apart_ℕ (s.owner slot) t (λ same.
          let both : leaving f slot ≡ leaving feed slot₀ = sym h ∙ ap s.phase same ∙ leaves in
          let at_slot : slot ≡ slot₀ = cc both in cc ((nat_eq_iff slot slot₀).1 at_slot, foreign))

  pub release-IsGuarded : IsGuarded (release t slot₀ s)
  release-IsGuarded = record { held = held_release; noted = noted_release; waited = waited_release }
