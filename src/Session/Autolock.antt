-- ===== src/Session/Autolock.antt =====
-- crates/cosmarden-agent/src/timeout.rs: the timer that locks the vault after a time without activity.
use cosmic_bwarden.Base.{
  ℕ, ◌+◌, ◌-◌, ◌≤◌, ◌<◌, ◌≡◌, ◌↔◌, ◌⊎◌, Option, some, true, false, not, none, arith, ==_iff,
  Bool-cases, inl, inr, refl, ◌==◌, nat_eq, leb,
}
use cosmic_bwarden.State.{State, lock, is_some_of}
use cosmic_bwarden.Session.{remaining_sleep_secs, autolock}

-- Up to the deadline of a timeout that is set, the timer sleeps at most 30 seconds and never past the deadline; it wakes
-- before the deadline only after 30 whole seconds; and it does not sleep at all exactly when the deadline is reached.
pub remaining-deadline :
    (now last timeout : ℕ)
    → last ≤ now
    → 0 < timeout
    → now - last ≤ timeout
    → (remaining_sleep_secs now last timeout ≤ 30)
      × ((now + remaining_sleep_secs now last timeout) - last ≤ timeout)
      × ((timeout ≤ (now + remaining_sleep_secs now last timeout) - last)
          ⊎ (remaining_sleep_secs now last timeout ≡ 30))
      × ((remaining_sleep_secs now last timeout ≡ 0) ↔ (timeout ≤ now - last))
unfolding remaining_sleep_secs
remaining-deadline now last timeout h t d = ground (arith, ==_iff timeout 0)

locked-no_keys : (s : State) → is_some_of s.keys ≡ false → s.keys ≡ none
locked-no_keys s h = none_of s.keys h
  where
    none_of : {A : Type 0} (o : Option A) → is_some_of o ≡ false → o ≡ none
    none_of none e = refl
    none_of (some a) e = ground arith

-- When a timeout that is set has passed, a pass of the timer leaves no vault key in memory.
pub autolock-locked :
    (now last timeout : ℕ) (s : State)
    → 0 < timeout
    → timeout ≤ now - last
    → (autolock now last timeout s).keys ≡ none
unfolding autolock lock
autolock-locked now last timeout s t h = elim (Bool-cases (is_some_of s.keys)) [
  | inl e ↦ rw (set, passed, e) refl
  | inr e ↦ rw (set, passed, e) (locked-no_keys s e)
]
  where
    set : not (timeout == 0) ≡ true
    set = ground (arith, ==_iff timeout 0)

    passed : leb timeout (now - last) ≡ true
    passed = ground arith
