-- ===== src/LockPool/Tests.antt =====
-- Runs of `NamedLockPool` (src/traffik/_locks.py), and its theorems at them.
use traffik.Base.{◌≡◌, refl, true, false, none, List, [], ◌∷◌, arith}
use traffik.Base.Text.{codes, str_eq}
use traffik.Base.Dict.{lookup, insert}
use traffik.Result.{ok}
use traffik.LockPool.{
  NamedLockHandle, fresh, release, Call, gets, releases, populates, run, get, populate,
  release_name,
}
use traffik.LockPool.Entries.{copies}
use traffik.LockPool.Accounting.{Accounts}
use traffik.LockPool.Calls.{run-Accounts}

fresh-Accounts : Accounts (fresh 2 2)
unfolding lookup copies
fresh-Accounts = record {
  total = refl;
  bound = omega arith;
  kept = omega arith;
  single = λ k. omega arith;
  counted = λ k l m f. ground (arith, f);
}

abbrev calls : List Call
calls =
    populates none
    ∷ gets (codes "a")
    ∷ gets (codes "b")
    ∷ gets (codes "a")
    ∷ gets (codes "c")
    ∷ releases (codes "a")
    ∷ releases (codes "c")
    ∷ []

run-Accounts_example : Accounts (run calls (fresh 2 2))
run-Accounts_example = run-Accounts calls (fresh 2 2) fresh-Accounts

allocated_after : (run calls (fresh 2 2)).allocated ≡ 3
unfolding run release_name get populate lookup insert str_eq
allocated_after = refl

abbrev handle : NamedLockHandle
handle = record { name = codes "a"; lock = 0; acquired = true; released = false }

abbrev handle' : NamedLockHandle
handle' = record { name = codes "a"; lock = 0; acquired = false; released = true }

releases_handle : release handle (fresh 2 2) ≡ ok (handle', fresh 2 2)
unfolding release lookup
releases_handle = refl

abbrev unused : NamedLockHandle
unused = record { name = codes "a"; lock = 0; acquired = false; released = false }
