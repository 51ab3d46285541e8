-- ===== src/Icons/Flight.antt =====
-- `feed_icon_with_deadline` of rust-core/src/icons.rs as a state machine of threads: each section of
-- the code under a lock is one step.
use flux_bar.Prelude.{
  ℕ, suc, ◌≡◌, Bool, true, false, Option, none, some, List, [], ℤ, id_eq, nat_eq, if◌then◌else◌,
}

pub record CachedIcon : Type 0 where
  pub regular : List ℕ
  pub dark : List ℕ

-- Where a thread is in the loop: outside of it, at its begin, after a miss in the cache, waiting on the
-- slot of a load, after that slot was ready, after no load was found, loading with a slot of its own, or
-- after the load was taken out of the map.
pub data Phase : Type 0 where
  outside : Phase
  asking : ℤ → Phase
  missed : ℤ → Phase
  waiting : ℤ → ℕ → Phase
  awake : ℤ → Phase
  unclaimed : ℤ → Phase
  loading : ℤ → ℕ → Phase
  leaving : ℤ → ℕ → Phase

-- `IconService` with its slots, each with the thread that made it and the icon it has stored, and the
-- threads, each with whether its call has a deadline and with what the call has returned.
pub record IconService : Type 0 where
  pub cache : ℤ → Option CachedIcon
  pub loads : ℤ → Option ℕ
  pub ready : ℕ → Bool
  pub owner : ℕ → ℕ
  pub filled : ℕ → Option CachedIcon
  pub next : ℕ
  pub phase : ℕ → Phase
  pub limited : ℕ → Bool
  pub answer : ℕ → CachedIcon

-- `CachedIcon::default` and `unwrap_or_default`.
abbrev pub empty_icon : CachedIcon
empty_icon = record { regular = []; dark = [] }

abbrev pub or_empty : Option CachedIcon → CachedIcon
or_empty none = empty_icon
or_empty (some icon) = icon

-- The map or the family with another value at one place.
abbrev pub with_phase : ℕ → Phase → IconService → IconService
with_phase t p s = record s { phase = λ u. if nat_eq u t then p else s.phase u }

-- The call returns.
abbrev pub returned : ℕ → CachedIcon → IconService → IconService
returned t icon s =
    with_phase t outside (record s { answer = λ u. if nat_eq u t then icon else s.answer u })

abbrev pub begun : ℕ → ℤ → Bool → IconService → IconService
begun t feed deadline s =
    with_phase t (asking feed)
      (record s { limited = λ u. if nat_eq u t then deadline else s.limited u })

abbrev pub with_load : ℤ → Option ℕ → IconService → IconService
with_load feed load s = record s { loads = λ f. if id_eq f feed then load else s.loads f }

abbrev pub with_icon : ℤ → ℕ → CachedIcon → IconService → IconService
with_icon feed slot icon s = record s {
  cache = λ f. if id_eq f feed then some icon else s.cache f;
  filled = λ n. if nat_eq n slot then some icon else s.filled n;
}

abbrev pub with_ready : ℕ → IconService → IconService
with_ready slot s = record s { ready = λ n. if nat_eq n slot then true else s.ready n }

-- A new slot of thread `t`, in the map of loads.
abbrev pub claim : ℕ → ℤ → IconService → IconService
claim t feed s = with_phase t (loading feed s.next) (
    with_load feed (some s.next) (record s {
      ready = λ n. if nat_eq n s.next then false else s.ready n;
      owner = λ n. if nat_eq n s.next then t else s.owner n;
      filled = λ n. if nat_eq n s.next then none else s.filled n;
      next = suc s.next;
    }))

-- The drop of `LoadGuard`: the load leaves the map, and then the slot is set ready as the call returns.
abbrev pub unload : ℕ → ℤ → ℕ → IconService → IconService
unload t feed slot s = with_phase t (leaving feed slot) (with_load feed none s)

abbrev pub release : ℕ → ℕ → IconService → IconService
release t slot s = returned t (or_empty (s.filled slot)) (with_ready slot s)

pub data Step : IconService → IconService → Type 0 where
  called :
      (s : IconService) (t : ℕ) (feed : ℤ) (deadline : Bool)
      → s.phase t ≡ outside
      → Step s (begun t feed deadline s)
  found_cached :
      (s : IconService) (t : ℕ) (feed : ℤ) (icon : CachedIcon)
      → s.phase t ≡ asking feed
      → s.cache feed ≡ some icon
      → Step s (returned t icon s)
  missed_cache :
      (s : IconService) (t : ℕ) (feed : ℤ)
      → s.phase t ≡ asking feed
      → s.cache feed ≡ none
      → Step s (with_phase t (missed feed) s)
  found_load :
      (s : IconService) (t : ℕ) (feed : ℤ) (slot : ℕ)
      → s.phase t ≡ missed feed
      → s.loads feed ≡ some slot
      → Step s (with_phase t (waiting feed slot) s)
  found_no_load :
      (s : IconService) (t : ℕ) (feed : ℤ)
      → s.phase t ≡ missed feed
      → s.loads feed ≡ none
      → Step s (with_phase t (unclaimed feed) s)
  retried :
      (s : IconService) (t : ℕ) (feed : ℤ) (slot : ℕ)
      → s.phase t ≡ unclaimed feed
      → s.loads feed ≡ some slot
      → Step s (with_phase t (asking feed) s)
  claimed :
      (s : IconService) (t : ℕ) (feed : ℤ)
      → s.phase t ≡ unclaimed feed
      → s.loads feed ≡ none
      → Step s (claim t feed s)
  -- the processed icon of a load that did not fail
  stored :
      (s : IconService) (t : ℕ) (feed : ℤ) (slot : ℕ) (icon : CachedIcon)
      → s.phase t ≡ loading feed slot
      → s.filled slot ≡ none
      → Step s (with_icon feed slot icon s)
  unloaded :
      (s : IconService) (t : ℕ) (feed : ℤ) (slot : ℕ)
      → s.phase t ≡ loading feed slot
      → Step s (unload t feed slot s)
  released :
      (s : IconService) (t : ℕ) (feed : ℤ) (slot : ℕ)
      → s.phase t ≡ leaving feed slot
      → Step s (release t slot s)
  woken :
      (s : IconService) (t : ℕ) (feed : ℤ) (slot : ℕ)
      → s.phase t ≡ waiting feed slot
      → s.ready slot ≡ true
      → Step s (with_phase t (awake feed) s)
  looked_up :
      (s : IconService) (t : ℕ) (feed : ℤ)
      → s.phase t ≡ awake feed
      → Step s (returned t (or_empty (s.cache feed)) s)
  -- the deadline is over as the slot has become ready
  woken_late :
      (s : IconService) (t : ℕ) (feed : ℤ)
      → s.phase t ≡ awake feed
      → s.limited t ≡ true
      → Step s (returned t empty_icon s)
  -- the deadline is over before the slot is ready
  timed_out :
      (s : IconService) (t : ℕ) (feed : ℤ) (slot : ℕ)
      → s.phase t ≡ waiting feed slot
      → s.limited t ≡ true
      → Step s (returned t empty_icon s)

pub data Steps (start : IconService) : IconService → Type 0 where
  still : Steps start start
  stepped : {s u : IconService} → Steps start s → Step s u → Steps start u

abbrev pub new_service : IconService
new_service = record {
  cache = λ _. none;
  loads = λ _. none;
  ready = λ _. false;
  owner = λ _. 0;
  filled = λ _. none;
  next = 0;
  phase = λ _. outside;
  limited = λ _. false;
  answer = λ _. empty_icon;
}
