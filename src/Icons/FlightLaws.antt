-- ===== src/Icons/FlightLaws.antt =====
-- One load of an icon at a time, and no waiting thread is forgotten.
use flux_bar.Prelude.{ℕ, ◌≡◌, ◌≢◌, ap, sym, ◌∙◌, true, Option, some, ℤ, nat_eq, if◌then◌else◌, ◌⊎◌}
use flux_bar.Icons.Flight.{
  CachedIcon, outside, asking, missed, waiting, unclaimed, awake, loading, leaving, IconService,
  or_empty, empty_icon, returned, Step, called, found_cached, missed_cache, found_load,
  found_no_load, retried, claimed, stored, unloaded, looked_up, woken_late, released, woken,
  timed_out, Steps, still, stepped, new_service,
}
use flux_bar.Icons.Guarded.{IsGuarded, with_phase-IsGuarded, claim-IsGuarded}
use flux_bar.Icons.Released.{unload-IsGuarded, release-IsGuarded}

returned-IsGuarded :
    (s : IconService) (t : ℕ) (icon : CachedIcon)
    → IsGuarded s
    → ((f : ℤ) (slot : ℕ) → s.phase t ≢ loading f slot)
    → ((f : ℤ) (slot : ℕ) → s.phase t ≢ leaving f slot)
    → IsGuarded (returned t icon s)
returned-IsGuarded s t icon g before stays =
    with_phase-IsGuarded (record s { answer = λ u. if nat_eq u t then icon else s.answer u }) t
      outside (record { held = g.held; noted = g.noted; waited = g.waited }) before stays
      (λ f slot k. cc k) (λ f slot k. absurd (cc k))

Step-IsGuarded : {s u : IconService} → Step s u → IsGuarded s → IsGuarded u
Step-IsGuarded (called s t feed deadline h) g =
    with_phase-IsGuarded (record s { limited = λ u. if nat_eq u t then deadline else s.limited u })
      t (asking feed) (record { held = g.held; noted = g.noted; waited = g.waited })
      (λ f slot k. cc (h, k)) (λ f slot k. cc (h, k)) (λ f slot k. cc k) (λ f slot k. absurd (cc k))
Step-IsGuarded (found_cached s t feed icon h _) g =
    returned-IsGuarded s t icon g (λ f slot k. cc (h, k)) (λ f slot k. cc (h, k))
Step-IsGuarded (missed_cache s t feed h _) g =
    with_phase-IsGuarded s t (missed feed) g (λ f slot k. cc (h, k)) (λ f slot k. cc (h, k))
      (λ f slot k. cc k) (λ f slot k. absurd (cc k))
Step-IsGuarded (found_load s t feed slot₀ h there) g =
    with_phase-IsGuarded s t (waiting feed slot₀) g (λ f slot k. cc (h, k)) (λ f slot k. cc (h, k))
      (λ f slot k. cc k)
      (λ f slot k.
        let at_feed : feed ≡ f = cc k in
        let at_slot : slot₀ ≡ slot = cc k in ap s.loads (sym at_feed) ∙ there ∙ ap some at_slot)
Step-IsGuarded (found_no_load s t feed h _) g =
    with_phase-IsGuarded s t (unclaimed feed) g (λ f slot k. cc (h, k)) (λ f slot k. cc (h, k))
      (λ f slot k. cc k) (λ f slot k. absurd (cc k))
Step-IsGuarded (retried s t feed _ h _) g =
    with_phase-IsGuarded s t (asking feed) g (λ f slot k. cc (h, k)) (λ f slot k. cc (h, k))
      (λ f slot k. cc k) (λ f slot k. absurd (cc k))
Step-IsGuarded (claimed s t feed h free) g = claim-IsGuarded s t feed g h free
Step-IsGuarded (stored s t feed slot icon h _) g = record {
  held = g.held;
  noted = g.noted;
  waited = g.waited;
}
Step-IsGuarded (unloaded s t feed slot h) g = unload-IsGuarded s t feed slot g h
Step-IsGuarded (released s t feed slot h) g = release-IsGuarded s t feed slot g h
Step-IsGuarded (woken s t feed slot₀ h _) g =
    with_phase-IsGuarded s t (awake feed) g (λ f slot k. cc (h, k)) (λ f slot k. cc (h, k))
      (λ f slot k. cc k) (λ f slot k. absurd (cc k))
Step-IsGuarded (woken_late s t feed h _) g =
    returned-IsGuarded s t empty_icon g (λ f slot k. cc (h, k)) (λ f slot k. cc (h, k))
Step-IsGuarded (looked_up s t feed h) g =
    returned-IsGuarded s t (or_empty (s.cache feed)) g (λ f slot k. cc (h, k))
      (λ f slot k. cc (h, k))
Step-IsGuarded (timed_out s t feed slot₀ h _) g =
    returned-IsGuarded s t empty_icon g (λ f slot k. cc (h, k)) (λ f slot k. cc (h, k))

Steps-IsGuarded : {s : IconService} → Steps new_service s → IsGuarded s
Steps-IsGuarded still = record {
  held = λ t f slot h. absurd (cc h);
  noted = λ f slot h. absurd (cc h);
  waited = λ t f slot h. absurd (cc h);
}
Steps-IsGuarded (stepped r step) = Step-IsGuarded step (Steps-IsGuarded r)

-- However threads ask for icons at the same time, at most one of them loads the icon of a feed.
pub single_flight :
    {s : IconService} (t u : ℕ) (feed : ℤ) (slot slot' : ℕ)
    → Steps new_service s
    → s.phase t ≡ loading feed slot
    → s.phase u ≡ loading feed slot'
    → t ≡ u
single_flight {s} t u feed slot slot' r loads_t loads_u =
    let g = Steps-IsGuarded r in
    let (there, owned) = g.held t feed slot loads_t in
    let (there', owned') = g.held u feed slot' loads_u in
    let slots : ◌≡◌ {A = Option ℕ} (some slot) (some slot') = sym there ∙ there' in
    let same : slot ≡ slot' = cc slots in sym owned ∙ ap s.owner same ∙ owned'

-- However threads ask for icons at the same time, a thread that waits for a load waits on a slot that is
-- ready, or whose thread still loads this feed or has taken the load out of the map and is about to set
-- the slot ready.
pub waits_on_load :
    {s : IconService} (t : ℕ) (feed : ℤ) (slot : ℕ)
    → Steps new_service s
    → s.phase t ≡ waiting feed slot
    → (s.ready slot ≡ true)
      ⊎ ((s.phase (s.owner slot) ≡ loading feed slot)
          ⊎ (s.phase (s.owner slot) ≡ leaving feed slot))
waits_on_load t feed slot r waits = ((Steps-IsGuarded r).waited t feed slot waits).0
