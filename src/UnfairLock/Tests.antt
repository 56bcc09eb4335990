-- ===== src/UnfairLock/Tests.antt =====
-- A run of `AsyncRLock` (src/traffik/_locks.py), and its theorem at it.
use traffik.Base.{ℕ, ◌<◌, ◌≡◌, refl, List, [], ◌∷◌, arith}
use traffik.UnfairLock.{
  initial, Event, acquires, gets_lock, releases, acquire, become_owner, release, run,
}
use traffik.UnfairLock.Exclusion.{Grants, Grants-exclusive}

-- Task 1 takes the lock twice and gives it up, and task 2 takes it.
abbrev events : List Event
events = gets_lock 1 ∷ acquires 1 ∷ releases 1 ∷ releases 1 ∷ gets_lock 2 ∷ []

events-Grants : Grants events initial
unfolding acquire become_owner release
events-Grants = (refl, (refl, tt))

abbrev second : ℕ
second = 2

second_holds : 0 < (run events initial).held second
unfolding run acquire become_owner release
second_holds = omega arith

Grants-exclusive_example : second ≡ second
Grants-exclusive_example =
    Grants-exclusive events second second events-Grants second_holds second_holds
