-- ===== src/Runtime/Services.antt =====
-- The list of services in rust-core/src/runtime.rs: a live service is the one that its account finds.
use flux_bar.Prelude.{
  ℕ, ◌≡◌, refl, ap, ◌∙◌, Bool, true, some, List, [], ◌∷◌, String, ◌==◌, eq_iff, eq_refl, arith,
  if◌then◌else◌, Bool-cases, Option-cases, inl, inr, ◌⊎◌,
}
use flux_bar.Runtime.Session.{find_service, retain_services, put_service, chosen_engine}

-- The retained list still finds a live service.
find_service-retain_services :
    (alive : ℕ → Bool) (account a : String) (service : ℕ) (services : List (String × ℕ))
    → alive service ≡ true
    → find_service a services ≡ some service
    → find_service a (retain_services alive account services) ≡ some service
unfolding find_service retain_services
find_service-retain_services alive account a service [] live h = absurd (cc h)
find_service-retain_services alive account a service ((b, x) ∷ services) live h =
    ground (arith, live, h, find_service-retain_services alive account a service services live)

-- The account finds what was put for it, and the others what they found before.
find_service-put_service :
    (account a : String) (engine : ℕ) (services : List (String × ℕ))
    → find_service a (put_service account engine services)
      ≡ (if account == a then some engine else find_service a services)
unfolding find_service put_service
find_service-put_service account a engine [] = ground arith
find_service-put_service account a engine ((b, x) ∷ services) = ground (
  arith,
  find_service-put_service account a engine services,
  eq_iff b account,
  eq_iff b a,
  eq_iff account a,
)

chosen_engine-found :
    (alive : ℕ → Bool) (account : String) (candidate service : ℕ) (services : List (String × ℕ))
    → alive service ≡ true
    → find_service account services ≡ some service
    → chosen_engine alive account candidate services ≡ service
unfolding chosen_engine
chosen_engine-found alive account candidate service services live found = rw (found, live) refl

-- A service that lives on is found after the list was changed for an account.
pub find_service-install :
    (alive : ℕ → Bool) (account a : String) (candidate service : ℕ) (services : List (String × ℕ))
    → alive service ≡ true
    → find_service a services ≡ some service
    → find_service a (
        put_service account
          (chosen_engine alive account candidate services)
          (retain_services alive account services))
      ≡ some service
find_service-install alive account a candidate service services live found =
    find_service-put_service account a (chosen_engine alive account candidate services)
      (retain_services alive account services)
    ∙ elim (Bool-cases (account == a)) [
      | inl own ↦ rw own (
          ap some (
            chosen_engine-found alive account candidate service services live
              (rw ((eq_iff account a).0 own) found)))
      | inr other ↦
          rw other (find_service-retain_services alive account a service services live found)
    ]

-- The account finds the engine that it got.
pub find_service-chosen :
    (alive : ℕ → Bool) (account : String) (engine : ℕ) (services : List (String × ℕ))
    → find_service account (put_service account engine services) ≡ some engine
find_service-chosen alive account engine services =
    find_service-put_service account account engine services ∙ rw (eq_refl account) refl

-- The engine is a live one or the candidate.
pub chosen_engine-cases :
    (alive : ℕ → Bool) (account : String) (candidate : ℕ) (services : List (String × ℕ))
    → ((alive (chosen_engine alive account candidate services) ≡ true)
        × (find_service account services ≡ some (chosen_engine alive account candidate services)))
      ⊎ (chosen_engine alive account candidate services ≡ candidate)
unfolding chosen_engine
chosen_engine-cases alive account candidate services =
    elim (Option-cases (find_service account services)) [
      | inl missing ↦ inr (rw missing refl)
      | inr (service, found) ↦ elim (Bool-cases (alive service)) [
        | inl live ↦ inl (rw (found, live) (live, refl))
        | inr dead ↦ inr (rw (found, dead) refl)
      ]
    ]
