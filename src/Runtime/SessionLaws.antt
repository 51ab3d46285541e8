-- ===== src/Runtime/SessionLaws.antt =====
-- The session of rust-core/src/runtime.rs over many calls of `configure`: generations, and one service
-- for each account.
use flux_bar.Prelude.{
  ℕ, ◌≡◌, ◌≢◌, refl, ap, sym, ◌∙◌, Bool, true, false, Option, none, some, String, arith, ℤ, leb_ℤ,
  ◌≤ℤ◌, if◌then◌else◌, Bool-cases, inl, inr, nat_eq, nat_eq_iff,
}
use flux_bar.Runtime.Session.{
  Session, AppRuntime, new_runtime, find_service, put_service, retain_services, chosen_engine,
  is_current, install, current_engine,
}
use flux_bar.Runtime.Services.{find_service-install, find_service-chosen}

-- The runtime, the services that are alive, and the account of each service.
pub record Process : Type 0 where
  pub runtime : AppRuntime
  pub alive : ℕ → Bool
  pub account_of : ℕ → String

-- The session takes a service.
abbrev pub with_service : ℕ → String → Process → Process
with_service service account p = record p {
  alive = λ n. if nat_eq n service then true else p.alive n;
  account_of = λ n. if nat_eq n service then account else p.account_of n;
}

-- `configure` with a candidate of its own, of a current or a stale generation; and the death of a
-- service that nothing owns any more, which is not so for the one of the session.
pub data Turn : Process → Process → Type 0 where
  configured :
      (p : Process) (account : String) (candidate : ℕ) (generation : ℤ)
      → p.alive candidate ≡ false
      → is_current generation p.runtime.session ≡ true
      → Turn p (
          with_service
            (chosen_engine p.alive account candidate p.runtime.services)
            account
            (record p { runtime = install p.alive account candidate generation p.runtime }))
  outdated :
      (p : Process) (account : String) (candidate : ℕ) (generation : ℤ)
      → is_current generation p.runtime.session ≡ false
      → Turn p (record p { runtime = install p.alive account candidate generation p.runtime })
  died :
      (p : Process) (service : ℕ)
      → current_engine p.runtime ≢ some service
      → Turn p (record p { alive = λ n. if nat_eq n service then false else p.alive n })

pub data Turns (start : Process) : Process → Type 0 where
  begun : Turns start start
  turned : {p q : Process} → Turns start p → Turn p q → Turns start q

abbrev pub new_process : Process
new_process = record { runtime = new_runtime; alive = λ _. false; account_of = λ _. "" }

-- Every live service is the one that its account finds, and the session's service is alive.
record IsRegistered (p : Process) : Type 0 where
  known : (n : ℕ) → p.alive n ≡ true → find_service (p.account_of n) p.runtime.services ≡ some n
  owned :
      (s : Session)
      → p.runtime.session ≡ some s
      → (p.alive s.engine ≡ true) × (p.account_of s.engine ≡ s.account_id)

install-stale :
    (alive : ℕ → Bool) (account : String) (candidate : ℕ) (generation : ℤ) (runtime : AppRuntime)
    → is_current generation runtime.session ≡ false
    → install alive account candidate generation runtime ≡ runtime
unfolding install
install-stale alive account candidate generation runtime stale = rw stale refl

install-current :
    (alive : ℕ → Bool) (account : String) (candidate : ℕ) (generation : ℤ) (runtime : AppRuntime)
    → is_current generation runtime.session ≡ true
    → install alive account candidate generation runtime ≡ record {
      session = some (record {
        account_id = account;
        generation = generation;
        engine = chosen_engine alive account candidate runtime.services;
      });
      services =
          put_service account
            (chosen_engine alive account candidate runtime.services)
            (retain_services alive account runtime.services);
    }
unfolding install
install-current alive account candidate generation runtime current = rw current refl

known-configured :
    (p : Process) (account : String) (candidate n : ℕ)
    → IsRegistered p
    → let service = chosen_engine p.alive account candidate p.runtime.services in
      (if nat_eq n service then true else p.alive n) ≡ true
      → find_service
          (if nat_eq n service then account else p.account_of n)
          (put_service account service (retain_services p.alive account p.runtime.services))
        ≡ some n
known-configured p account candidate n r live =
    let service = chosen_engine p.alive account candidate p.runtime.services in
    elim (Bool-cases (nat_eq n service)) [
      | inl own ↦ rw own (
          find_service-chosen p.alive account service
            (retain_services p.alive account p.runtime.services)
          ∙ ap some (sym ((nat_eq_iff n service).0 own)))
      | inr other ↦ rw other (
          find_service-install p.alive account (p.account_of n) candidate n p.runtime.services
            (rw other at live) (r.known n (rw other at live)))
    ]

Turn-IsRegistered : {p q : Process} → Turn p q → IsRegistered p → IsRegistered q
Turn-IsRegistered (configured p account candidate generation fresh current) r =
    rw (install-current p.alive account candidate generation p.runtime current) (record {
      known = λ n live. known-configured p account candidate n r live;
      owned = λ s h.
          let service = chosen_engine p.alive account candidate p.runtime.services in
          let same : service ≡ s.engine = cc h in
          let account_same : account ≡ s.account_id = cc h in
          let self : nat_eq s.engine service ≡ true = (nat_eq_iff s.engine service).1 (sym same) in
          (rw self refl, rw self account_same);
    })
Turn-IsRegistered (outdated p account candidate generation stale) r =
    rw (install-stale p.alive account candidate generation p.runtime stale)
      (record { known = r.known; owned = r.owned })
Turn-IsRegistered (died p service unowned) r = record {
  known = λ n live. r.known n (still_alive n live);
  owned = λ s h.
      let (live, account) = r.owned s h in
      let kept : nat_eq s.engine service ≡ false = not_service s h in (rw kept live, account);
}
  where
    still_alive :
        (n : ℕ) → (if nat_eq n service then false else p.alive n) ≡ true → p.alive n ≡ true
    still_alive n live = elim (Bool-cases (nat_eq n service)) [
      | inl gone ↦ absurd (cc (rw gone at live))
      | inr kept ↦ rw kept at live
    ]

    not_service : (s : Session) → p.runtime.session ≡ some s → nat_eq s.engine service ≡ false
    not_service s h = elim (Bool-cases (nat_eq s.engine service)) [
      | inr kept ↦ kept
      | inl gone ↦ absurd (
          unowned (
            ap (λ (o : Option Session). elim o [ none ↦ none | some x ↦ some x.engine ]) h
            ∙ ap some ((nat_eq_iff s.engine service).0 gone)))
    ]

Turns-IsRegistered : {p : Process} → Turns new_process p → IsRegistered p
unfolding find_service
Turns-IsRegistered begun = record {
  known = λ n live. absurd (cc live);
  owned = λ s h. absurd (cc h);
}
Turns-IsRegistered (turned r step) = Turn-IsRegistered step (Turns-IsRegistered r)

-- However `configure` is called for whatever accounts and generations, and services die in between, no
-- two live services are of one account, so that the gate of one service serializes all flushes of
-- the account.
pub one_service :
    {p : Process} (m n : ℕ)
    → Turns new_process p
    → p.alive m ≡ true
    → p.alive n ≡ true
    → p.account_of m ≡ p.account_of n
    → m ≡ n
one_service {p} m n r live_m live_n same =
    let k = Turns-IsRegistered r in
    let found = k.known m live_m in
    let found' = k.known n live_n in
    let both : ◌≡◌ {A = Option ℕ} (some m) (some n) =
      sym found ∙ ap (λ (a : String). find_service a p.runtime.services) same ∙ found' in
    cc both

leb_ℤ-≤ℤ : (a b : ℤ) → leb_ℤ a b ≡ true → a ≤ℤ b
leb_ℤ-≤ℤ a b h = ground (arith, h)

-- A later session has no smaller generation.
abbrev pub Succeeds : Session → AppRuntime → Type 0
Succeeds s runtime = (s' : Session) × (runtime.session ≡ some s') × (s.generation ≤ℤ s'.generation)

install-Succeeds :
    (alive : ℕ → Bool) (account : String) (candidate : ℕ) (generation : ℤ) (runtime : AppRuntime)
    (s : Session)
    → runtime.session ≡ some s
    → Succeeds s (install alive account candidate generation runtime)
install-Succeeds alive account candidate generation runtime s h =
    elim (Bool-cases (is_current generation runtime.session)) [
      | inl current ↦
          rw (install-current alive account candidate generation runtime current) (
            _,
            refl,
            leb_ℤ-≤ℤ s.generation generation (ap (is_current generation) (sym h) ∙ current),
          )
      | inr stale ↦
          rw (install-stale alive account candidate generation runtime stale) (s, h, omega arith)
    ]

Turn-Succeeds :
    {p q : Process} (s : Session) → Turn p q → p.runtime.session ≡ some s → Succeeds s q.runtime
Turn-Succeeds s (configured p account candidate generation fresh current) h =
    install-Succeeds p.alive account candidate generation p.runtime s h
Turn-Succeeds s (outdated p account candidate generation stale) h =
    install-Succeeds p.alive account candidate generation p.runtime s h
Turn-Succeeds s (died p service unowned) h = (s, h, omega arith)

-- Once the runtime is configured it stays so, and the generation of its session never goes back.
pub generation-Turns :
    {p q : Process} (s : Session)
    → Turns p q
    → p.runtime.session ≡ some s
    → (s' : Session) × (q.runtime.session ≡ some s') × (s.generation ≤ℤ s'.generation)
generation-Turns s begun h = (s, h, omega arith)
generation-Turns s (turned r step) h =
    let (mid, found, le) = generation-Turns s r h in
    let (last, found', le') = Turn-Succeeds mid step found in (last, found', omega (arith, le, le'))
