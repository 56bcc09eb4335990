-- ===== src/InMemory/AsStore.antt =====
-- `InMemoryBackend` (src/traffik/backends/inmemory.py) is a backend as the strategies want it.
use traffik.Base.{ℕ, ◌≤◌, ◌≡◌}
use traffik.Base.Int.{ℤ}
use traffik.Base.Text.{Str}
use traffik.Store.{Store}
use traffik.Shard.View
use traffik.InMemory
use traffik.InMemory.{Backend}
use traffik.InMemory.Views
use traffik.InMemory.Views.{view}
use traffik.InMemory.Methods.{get_lem, increment_with_ttl_lem}
use traffik.InMemory.MultiGet.{multi_get_lem}
use traffik.InMemory.MultiSet.{multi_set_lem}

module _ (hash : Str → ℤ) where
  pub view_later :
      (now t : ℕ) (key : Str) (b : Backend)
      → now ≤ t
      → view hash t key b ≡ View.live t (view hash now key b)
  unfolding view
  view_later now t key b h = Views.view_in_later now t key _ h

  -- The in-memory backend, with its theorems for the laws.
  abbrev pub in_memory : Store
  in_memory = record {
    State = Backend;
    IsValid = Views.IsValid;
    view = view hash;
    get = InMemory.get hash;
    increment_with_ttl = InMemory.increment_with_ttl hash;
    multi_set = InMemory.multi_set hash;
    multi_get = InMemory.multi_get hash;
    view_later = view_later;
    get_lem = λ now key s v.
        let (r, e, (p, u)) = get_lem hash now key s v in (r, e, (p, u.valid, u.seen));
    increment_with_ttl_lem = λ now key amount ttl s v.
        let (r, e, (p, u)) = increment_with_ttl_lem hash now key s v amount ttl in
        (r, e, (p, u.valid, u.seen));
    multi_set_lem = λ now items ttl s v. multi_set_lem hash now items ttl s v;
    multi_get_lem = λ now keys s v.
        let (r, e, (p, u)) = multi_get_lem hash now keys s v in (r, e, (p, u.valid, u.seen));
  }
