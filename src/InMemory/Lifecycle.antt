-- ===== src/InMemory/Lifecycle.antt =====
-- `InMemoryBackend` (src/traffik/backends/inmemory.py) from its constructor to `close`.
use traffik.Base.{
  ℕ, zero, suc, map, ◌<◌, ◌≡◌, refl, ◌∙◌, ap, subst, false, none, some, List, [], ◌∷◌, arith,
  length, get_elem?, replicate, length-replicate, map,
}
use traffik.Base.Int.{ℤ}
use traffik.Base.Text.{Str}
use traffik.Base.Dict.{lookup}
use traffik.Result.{ok, err, connection_error, Returns}
use traffik.Shard
use traffik.Shard.{Shard}
use traffik.Shard.View
use traffik.Shard.Sampling.{IsIndexed, empty-IsIndexed}
use traffik.InMemory.{
  Backend, new, initialize, close, clear, get, set_key, delete, increment, expire,
  increment_with_ttl, multi_get, multi_set, with_shard,
}
use traffik.InMemory.Views.{IsValid, view, view_in, ready_of}

view-empty : (t : ℕ) (key : Str) → View.view t key Shard.empty ≡ none
unfolding View.view lookup
view-empty t key = refl

replicate-IsIndexed :
    (n i : ℕ) (s : Shard) → get_elem? (replicate n Shard.empty) i ≡ some s → IsIndexed s
replicate-IsIndexed (suc n) (suc i) s h = replicate-IsIndexed n i s h
replicate-IsIndexed (suc n) zero s h = subst IsIndexed (ground arith) empty-IsIndexed
replicate-IsIndexed zero i s h = cc

view_in-replicate :
    (n i t : ℕ) (key : Str) → view_in t key (get_elem? (replicate n Shard.empty) i) ≡ none
view_in-replicate zero i t key = refl
view_in-replicate (suc n) zero t key = view-empty t key
view_in-replicate (suc n) (suc i) t key = view_in-replicate n i t key

abbrev fresh : ℕ → Backend
fresh n = record { number_of_shards = n; shards = []; initialized = false }

new-eq : (n : ℕ) (b : Backend) → new n ≡ ok b → (fresh n ≡ b) × (0 < n)
unfolding new
new-eq n b h = ground arith

fresh-IsValid : (n : ℕ) → 0 < n → IsValid (initialize (fresh n))
unfolding initialize
fresh-IsValid n h = record {
  running = refl;
  nonzero = h;
  count = length-replicate n Shard.empty;
  indexed = replicate-IsIndexed n;
}

view-fresh : (hash : Str → ℤ) (n t : ℕ) (key : Str) → view hash t key (initialize (fresh n)) ≡ none
unfolding view initialize
view-fresh hash n t key = view_in-replicate n _ t key

-- A backend that was constructed with a valid number of shards and then initialized is well formed,
-- and no key stands for anything in it.
pub initialize-IsValid :
    (hash : Str → ℤ) (n : ℕ) (b : Backend)
    → new n ≡ ok b
    → IsValid (initialize b) × ((t : ℕ) (key : Str) → view hash t key (initialize b) ≡ none)
initialize-IsValid hash n b h =
    let (e, pos) = new-eq n b h in
    subst
      (λ c. IsValid (initialize c) × ((t : ℕ) (key : Str) → view hash t key (initialize c) ≡ none))
      e (fresh-IsValid n pos, view-fresh hash n)

get_elem?-map :
    (l : List Shard) (i : ℕ) (s : Shard)
    → get_elem? (map (λ _. Shard.empty) l) i ≡ some s
    → Shard.empty ≡ s
get_elem?-map [] i s h = cc
get_elem?-map (x ∷ l) zero s h = ground arith
get_elem?-map (x ∷ l) (suc i) s h = get_elem?-map l i s h

view_in-map :
    (l : List Shard) (i t : ℕ) (key : Str)
    → view_in t key (get_elem? (map (λ _. Shard.empty) l) i) ≡ none
view_in-map [] i t key = refl
view_in-map (x ∷ l) zero t key = view-empty t key
view_in-map (x ∷ l) (suc i) t key = view_in-map l i t key

length-map-empty : (l : List Shard) → length (map (λ _. Shard.empty) l) ≡ length l
length-map-empty [] = refl
length-map-empty (x ∷ l) = ap suc (length-map-empty l)

-- After `clear` a well-formed backend is still well formed, and no key stands for anything.
pub clear_lem :
    (hash : Str → ℤ) (b : Backend)
    → IsValid b
    → Returns (clear b) (λ r. IsValid r.1 × ((t : ℕ) (key : Str) → view hash t key r.1 ≡ none))
unfolding clear view
clear_lem hash b v = (
  (tt, record b { shards = map (λ _. Shard.empty) b.shards }),
  rw (ready_of b v) refl,
  (
    record {
      running = v.running;
      nonzero = v.nonzero;
      count = length-map-empty b.shards ∙ v.count;
      indexed = λ i s h. subst IsIndexed (get_elem?-map b.shards i s h) empty-IsIndexed;
    },
    λ t key. view_in-map b.shards _ t key,
  ),
)

-- Once the backend is closed, each of its operations on keys raises `BackendConnectionError`.
pub close-raises :
    (hash : Str → ℤ) (now : ℕ) (key value : Str) (amount : ℤ) (ttl : ℕ) (keys : List Str)
    (items : List (Str × Str)) (b : Backend)
    → (get hash now key (close b) ≡ err connection_error)
      × (set_key hash now key value (some ttl) (close b) ≡ err connection_error)
      × (delete hash key (close b) ≡ err connection_error)
      × (increment hash now key amount (close b) ≡ err connection_error)
      × (expire hash now key ttl (close b) ≡ err connection_error)
      × (increment_with_ttl hash now key amount ttl (close b) ≡ err connection_error)
      × (multi_get hash now keys (close b) ≡ err connection_error)
      × (multi_set hash now items (some ttl) (close b) ≡ err connection_error)
      × (clear (close b) ≡ err connection_error)
unfolding close get set_key delete increment expire increment_with_ttl multi_get multi_set clear
    with_shard
close-raises hash now key value amount ttl [] [] b =
    (refl, refl, refl, refl, refl, refl, refl, refl, refl)
close-raises hash now key value amount ttl [] (e ∷ items) b =
    (refl, refl, refl, refl, refl, refl, refl, refl, refl)
close-raises hash now key value amount ttl (k ∷ ks) [] b =
    (refl, refl, refl, refl, refl, refl, refl, refl, refl)
close-raises hash now key value amount ttl (k ∷ ks) (e ∷ items) b =
    (refl, refl, refl, refl, refl, refl, refl, refl, refl)
