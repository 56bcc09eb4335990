-- ===== src/SharedTable/Probe.antt =====
-- What `_hash_table_lookup` finds (src/traffik/backends/multiprocess.py): the key's bucket if it has one,
-- or else the bucket where it belongs, as long as some bucket is empty.
use native.Mathlib.Nat.{mod-lt}
use traffik.Base.{
  ℕ, zero, suc, ◌+◌, ◌-◌, ◌%◌, ◌≤◌, ◌<◌, ◌≡◌, ◌≢◌, refl, sym, ap, ◌∙◌, subst, false, Option, none,
  some, length, ltb, leb, ◌==◌, Bool-cases, ==_iff, inl, inr, ◌⊎◌, arith,
}
use traffik.Base.Text.{Str, str_eq, str_eq_iff}
use traffik.Result.{Returns}
use traffik.SharedTable.{
  Bucket, empty, tombstone, occupied, Table, first_or, probe, lookup_from, lookup, key_max_bytes,
}

pub Bucket-cases :
    (b : Bucket) → (b ≡ empty) ⊎ ((b ≡ tombstone) ⊎ ((k : Str) × (s : ℕ) × (b ≡ occupied k s)))
Bucket-cases empty = inl refl
Bucket-cases tombstone = inr (inl refl)
Bucket-cases (occupied k s) = inr (inr (k, s, refl))

-- The parts of an occupied bucket.
abbrev pub key_of : Bucket → Option Str
key_of (occupied k s) = some k
key_of _ = none

module _ (hash : Str → ℕ) (capacity : ℕ) (positive : 0 < capacity) where
  pub probe-lt : (k : Str) (i : ℕ) → probe hash capacity k i < capacity
  probe-lt k i = mod-lt (hash k % capacity + i) positive

  -- Every bucket is on every key's path.
  pub probe_onto :
      (k : Str) (j : ℕ) → j < capacity → (i : ℕ) × (i < capacity) × (probe hash capacity k i ≡ j)
  probe_onto k j lt = reach (hash k % capacity) (mod-lt (hash k) positive)
    where
      reach : (h : ℕ) → h < capacity → (i : ℕ) × (i < capacity) × ((h + i) % capacity ≡ j)
      reach h hlt = elim (Bool-cases (leb h j)) [
        | inl le ↦ (j - h, ground arith, small (h + (j - h)) (ground arith))
        | inr gt ↦ (j + capacity - h, ground arith, wrap (h + (j + capacity - h)) (ground arith))
      ]
        where
          small : (x : ℕ) → x ≡ j → x % capacity ≡ j
          small x e = grind arith

          wrap : (x : ℕ) → x ≡ j + capacity → x % capacity ≡ j
          wrap x e = grind arith

module _ (hash : Str → ℕ) (capacity : ℕ) where
  -- The first `i` buckets of a key's path are not empty.
  abbrev pub Full : (ℕ → Bucket) → Str → ℕ → Type 0
  Full b k i = (i' : ℕ) → i' < i → b (probe hash capacity k i') ≢ empty

  -- Some bucket of the table has the key with this slot.
  abbrev pub Maps : (ℕ → Bucket) → Str → ℕ → Type 0
  Maps b k s = (j : ℕ) × (j < capacity) × (b j ≡ occupied k s)

  -- Every key in the table is reached by its path, stands in one bucket and is short.
  pub record IsProbed (b : ℕ → Bucket) : Type 0 where
    pub reached :
        (j : ℕ) (k : Str) (s : ℕ)
        → j < capacity
        → b j ≡ occupied k s
        → (i : ℕ) × (probe hash capacity k i ≡ j) × Full b k i
    pub unique :
        (j j' : ℕ) (k : Str) (s s' : ℕ)
        → j < capacity
        → j' < capacity
        → b j ≡ occupied k s
        → b j' ≡ occupied k s'
        → j ≡ j'
    pub short :
        (j : ℕ) (k : Str) (s : ℕ) → j < capacity → b j ≡ occupied k s → length k ≤ key_max_bytes

  -- A bucket for a key that is not there: it is free, and the key's path reaches it.
  pub record Vacant (b : ℕ → Bucket) (k : Str) (idx : ℕ) : Type 0 where
    pub absent : (s : ℕ) → Maps b k s → ⊥
    pub free : (b idx ≡ empty) ⊎ (b idx ≡ tombstone)
    pub step : ℕ
    pub at : probe hash capacity k step ≡ idx
    pub path : Full b k step

  -- The bucket of a key, or one for it.
  abbrev pub Found : (ℕ → Bucket) → Str → ℕ → Type 0
  Found b k idx = ((s : ℕ) × (b idx ≡ occupied k s)) ⊎ Vacant b k idx

  -- What the loop knows of the buckets it passed and of the first tombstone.
  record Passed (b : ℕ → Bucket) (k : Str) (i : ℕ) (first : Option ℕ) : Type 0 where
    full : Full b k i
    others : (i' s : ℕ) → i' < i → b (probe hash capacity k i') ≢ occupied k s
    grave :
        (f : ℕ)
        → first ≡ some f
        → (b f ≡ tombstone) × ((i' : ℕ) × (probe hash capacity k i' ≡ f) × Full b k i')

  occupied_empty : (k : Str) (s : ℕ) → occupied k s ≢ empty
  occupied_empty k s e = cc e

  -- An empty bucket on the path means that the key is nowhere.
  absent_at_empty :
      (b : ℕ → Bucket) (k : Str) (i : ℕ) (first : Option ℕ) (s : ℕ)
      → IsProbed b
      → Passed b k i first
      → b (probe hash capacity k i) ≡ empty
      → Maps b k s
      → ⊥
  absent_at_empty b k i first s v p e (j, lt, o) =
      let (i', at, full) = v.reached j k s lt o in
      elim (Bool-cases (ltb i' i)) [
        | inl before ↦ p.others i' s (ground arith) (ap b at ∙ o)
        | inr after ↦ elim (Bool-cases (i' == i)) [
          | inl here ↦
              occupied_empty k s (
                sym (ap b at ∙ o)
                ∙ ap (λ i. b (probe hash capacity k i)) ((==_iff i' i).0 here)
                ∙ e)
          | inr past ↦ full i (ground arith) e
        ]
      ]

  before_next : (i i' : ℕ) → i' < i + 1 → (i' < i) ⊎ (i ≡ i')
  before_next i i' h = elim (Bool-cases (i == i')) [
    | inl e ↦ inr ((==_iff i i').0 e)
    | inr e ↦ inl (ground arith)
  ]

  Passed-next :
      (b : ℕ → Bucket) (k : Str) (i : ℕ) (first first' : Option ℕ)
      → Passed b k i first
      → b (probe hash capacity k i) ≢ empty
      → ((s : ℕ) → b (probe hash capacity k i) ≢ occupied k s)
      → ((f : ℕ)
          → first' ≡ some f
          → (b f ≡ tombstone) × ((i' : ℕ) × (probe hash capacity k i' ≡ f) × Full b k i'))
      → Passed b k (i + 1) first'
  Passed-next b k i first first' p n o g = record {
    full = λ i' h. elim (before_next i i' h) [
      | inl lt ↦ p.full i' lt
      | inr e ↦ subst (λ x. b (probe hash capacity k x) ≢ empty) e n
    ];
    others = λ i' s h. elim (before_next i i' h) [
      | inl lt ↦ p.others i' s lt
      | inr e ↦ subst (λ x. b (probe hash capacity k x) ≢ occupied k s) e (o s)
    ];
    grave = g;
  }

  Vacant-here :
      (b : ℕ → Bucket) (k : Str) (i : ℕ) (first : Option ℕ)
      → IsProbed b
      → Passed b k i first
      → b (probe hash capacity k i) ≡ empty
      → Vacant b k (first_or first (probe hash capacity k i))
  Vacant-here b k i none v p e = record {
    absent = λ s. absent_at_empty b k i none s v p e;
    free = inl e;
    step = i;
    at = refl;
    path = p.full;
  }
  Vacant-here b k i (some f) v p e =
      let (t, (i', at, full)) = p.grave f refl in
      record {
        absent = λ s. absent_at_empty b k i (some f) s v p e;
        free = inr t;
        step = i';
        at = at;
        path = full;
      }

  tombstone_first :
      (b : ℕ → Bucket) (k : Str) (i : ℕ) (first : Option ℕ)
      → Passed b k i first
      → b (probe hash capacity k i) ≡ tombstone
      → (f : ℕ) → some (first_or first (probe hash capacity k i)) ≡ some f
      → (b f ≡ tombstone) × ((i' : ℕ) × (probe hash capacity k i' ≡ f) × Full b k i')
  tombstone_first b k i none p t f e =
      let same : probe hash capacity k i ≡ f = ground (arith, e) in
      (subst (λ x. b x ≡ tombstone) same t, (i, same, p.full))
  tombstone_first b k i (some g) p t f e = p.grave f e

  first_or-lt :
      (b : ℕ → Bucket) (k : Str) (i : ℕ) (first : Option ℕ)
      → 0 < capacity
      → Passed b k i first
      → first_or first (probe hash capacity k i) < capacity
  first_or-lt b k i none pos p = probe-lt hash capacity pos k i
  first_or-lt b k i (some f) pos p =
      let (_, (i', at, _)) = p.grave f refl in
      subst (λ x. x < capacity) at (probe-lt hash capacity pos k i')

  module _ (b : ℕ → Bucket) (k : Str) (pos : 0 < capacity) (v : IsProbed b) (e : ℕ)
      (e-lt : e < capacity) (gap : b (probe hash capacity k e) ≡ empty) where
    lookup_from-Found :
        (n i : ℕ) (first : Option ℕ)
        → i + n ≡ capacity
        → Passed b k i first
        → Returns
            (lookup_from hash capacity k b n i first)
            (λ idx. (idx < capacity) × Found b k idx)
    unfolding lookup_from
    lookup_from-Found zero i first h p = elim (p.full e (omega arith) gap) [ ]
    lookup_from-Found (suc n) i first h p = elim (Bucket-cases (b (probe hash capacity k i))) [
      | inl m ↦ (
        first_or first (probe hash capacity k i),
        rw (lookup_from, m) refl,
        (first_or-lt b k i first pos p, inr (Vacant-here b k i first v p m)),
      )
      | inr (inl t) ↦
          let (idx, r, f) =
            lookup_from-Found n (i + 1) (some (first_or first (probe hash capacity k i)))
              (omega arith)
              (Passed-next b k i first (some (first_or first (probe hash capacity k i))) p
                (λ x. tombstone_empty (sym t ∙ x)) (λ s x. tombstone_occupied k s (sym t ∙ x))
                (tombstone_first b k i first p t)) in
          (idx, rw (lookup_from, t) r, f)
      | inr (inr (stored, s, o)) ↦ elim (Bool-cases (str_eq stored k)) [
        | inl same ↦ (
          probe hash capacity k i,
          rw (lookup_from, o, same) refl,
          (
            probe-lt hash capacity pos k i,
            inl (s, o ∙ ap (λ x. occupied x s) ((str_eq_iff stored k).0 same)),
          ),
        )
        | inr other ↦
            let (idx, r, f) = lookup_from-Found n (i + 1) first (omega arith) (
              Passed-next b k i first first p (λ x. occupied_empty stored s (sym o ∙ x))
                (λ s' x. stored_other stored k s s' other (sym o ∙ x)) p.grave) in
            (idx, rw (lookup_from, o, other) r, f)
      ]
    ]
      where
        tombstone_empty : tombstone ≢ empty
        tombstone_empty x = cc x

        tombstone_occupied : (k : Str) (s : ℕ) → tombstone ≢ occupied k s
        tombstone_occupied k s x = cc x

        stored_other : (a k : Str) (s s' : ℕ) → str_eq a k ≡ false → occupied a s ≢ occupied k s'
        stored_other a k s s' other x = stored_key a k other (key_same a k s s' x)
          where
            key_same : (a k : Str) (s s' : ℕ) → occupied a s ≡ occupied k s' → a ≡ k
            key_same a k s s' x = cc x

            stored_key : (a k : Str) → str_eq a k ≡ false → a ≢ k
            stored_key a k other x = ground (arith, (str_eq_iff a k).1 x, other)

  -- With a bucket that is empty, `_hash_table_lookup` returns the bucket of the key, or one where it
  -- may be put.
  pub lookup-Found :
      (k : Str) (t : Table)
      → 0 < capacity
      → IsProbed t.buckets
      → (j : ℕ) → j < capacity
      → t.buckets j ≡ empty
      → Returns (lookup hash capacity k t) (λ idx. (idx < capacity) × Found t.buckets k idx)
  unfolding lookup
  lookup-Found k t pos v j lt gap =
      let (e, e-lt, at) = probe_onto hash capacity pos k j lt in
      lookup_from-Found t.buckets k pos v e e-lt (ap t.buckets at ∙ gap) capacity 0 none
        (omega arith)
        (record {
          full = λ i h. elim h [ ];
          others = λ i s h. elim h [ ];
          grave = λ f x. elim (none_some f x) [ ];
        })
    where
      none_some : (f : ℕ) → none ≢ some f
      none_some f x = cc x
