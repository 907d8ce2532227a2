-- ===== src/LruCache/Recent.antt =====
-- What was put last stays: eviction takes from the back, and the entry of a key that was put is found
-- until it is idle for too long.
use tuntom.Base.{
  ==_iff, Bool, Bool-cases, List, Option-cases, [], ap, arith, false, inl, inr, length, ltb, refl,
  some, subst, suc, sym, true, zero, ℕ, ◌+◌, ◌<◌, ◌==◌, ◌∙◌, ◌∷◌, ◌≡◌, ◌≤◌,
}
use tuntom.LruCache.{
  Entry, LruCache, find, remove, back, pop_back, evict_last, evict, reclaim, budget, put_front,
  put_reclaimed, put, get, is_stale,
}
use tuntom.LruCache.Bounds.{evict_step, reclaim_step, capacity-evict_last}

module _ {K V : Type 0} where
  -- The cache with an entry in front, and nothing else changed that `get` reads.
  pub record InFront (e : Entry K V) (c d : LruCache K V) : Type 0 where
    pub rest : List (Entry K V)
    pub order : d.order ≡ e ∷ rest
    pub generation : d.generation ≡ c.generation
    pub idle_timeout : d.idle_timeout ≡ c.idle_timeout

  pop_back_front :
      (e : Entry K V) (rest : List (Entry K V))
      → 1 < length (e ∷ rest)
      → (rest' : List (Entry K V)) × (pop_back (e ∷ rest) ≡ e ∷ rest')
  unfolding pop_back
  pop_back_front e [] h = absurd (omega arith)
  pop_back_front e (f ∷ rest) h = (pop_back (f ∷ rest), refl)

  further :
      (e : Entry K V) (b c : LruCache K V)
      → InFront e b c
      → 1 < length c.order
      → InFront e b (evict_last c)
  unfolding evict_last
  further e b c f h =
      let (rest', same) = pop_back_front e f.rest (omega (arith, ap length f.order, h)) in
      record {
        rest = rest';
        order = ap pop_back f.order ∙ same;
        generation = f.generation;
        idle_timeout = f.idle_timeout;
      }

  evict-InFront :
      (rounds : ℕ) (e : Entry K V) (c d : LruCache K V)
      → InFront e c d
      → 0 < d.capacity
      → InFront e c (evict rounds d)
  evict-InFront zero e c d f h = unfold evict in f
  evict-InFront (suc rounds) e c d f h = elim (Bool-cases (ltb d.capacity (length d.order))) [
    | inl more ↦
        subst (InFront e c) {x = evict rounds (evict_last d)}
          (sym (evict_step rounds d ∙ simp more refl))
          (evict-InFront rounds e c (evict_last d) (further e c d f (ground arith))
            (omega (arith, capacity-evict_last d, h)))
    | inr fits ↦ subst (InFront e c) {x = d} (sym (evict_step rounds d ∙ simp fits refl)) f
  ]

  -- `reclaim` leaves what `put` and `get` compare with.
  record SameTimes (c d : LruCache K V) : Type 0 where
    generation : d.generation ≡ c.generation
    idle_timeout : d.idle_timeout ≡ c.idle_timeout
    capacity : d.capacity ≡ c.capacity

  reclaim-SameTimes : (n : ℕ) (c : LruCache K V) → SameTimes c (reclaim n c)
  reclaim-SameTimes zero c =
      unfold reclaim in record { generation = refl; idle_timeout = refl; capacity = refl }
  reclaim-SameTimes (suc n) c = elim (Bool-cases (is_stale c (back c.order))) [
    | inl old ↦
        let t : SameTimes (record c { order = pop_back c.order })
            (reclaim n (record c { order = pop_back c.order })) =
          reclaim-SameTimes n _ in
        subst (SameTimes c) {x = reclaim n (record c { order = pop_back c.order })}
          (sym (reclaim_step n c ∙ simp old refl))
          (record {
            generation = t.generation;
            idle_timeout = t.idle_timeout;
            capacity = t.capacity;
          })
    | inr new ↦
        subst (SameTimes c) {x = c} (sym (reclaim_step n c ∙ simp new refl))
          (record { generation = refl; idle_timeout = refl; capacity = refl })
  ]

  -- The entry that `put` makes.
  abbrev pub made : LruCache K V → K → V → ℕ → Entry K V
  made c key value now = record {
    key = key;
    value = value;
    last_seen = now;
    generation = c.generation;
  }

  put_reclaimed-InFront :
      (same : K → K → Bool) (c : LruCache K V) (key : K) (value : V) (now : ℕ)
      → 0 < c.capacity
      → InFront (made c key value now) c (put_reclaimed same c key value now)
  unfolding put_reclaimed put_front
  put_reclaimed-InFront same c key value now h = elim (Option-cases (find same key c.order)) [
    | inl missing ↦
        rw (missing, nonzero, put_reclaimed)
          (evict-InFront _ (made c key value now) c _
            (record {
              rest = remove same key c.order;
              order = refl;
              generation = refl;
              idle_timeout = refl;
            })
            h)
    | inr (e, found) ↦
        rw (found, put_reclaimed)
          (evict-InFront _ (made c key value now) c _
            (record {
              rest = remove same key c.order;
              order = refl;
              generation = refl;
              idle_timeout = refl;
            })
            h)
  ]
    where
      nonzero : (c.capacity == 0) ≡ false
      nonzero = ground arith

  get_front :
      (same : K → K → Bool) (c d : LruCache K V) (e : Entry K V) (later : ℕ)
      → InFront e c d
      → same e.key e.key ≡ true
      → e.generation ≡ c.generation
      → later ≤ e.last_seen + c.idle_timeout
      → (get same d e.key later).1 ≡ some e.value
  unfolding get
  get_front same c d e later f equal live fresh = rw (found, alive, young, get) refl
    where
      found : find same e.key d.order ≡ some e
      found = ap (find same e.key) f.order ∙ (unfold find in rw equal refl)

      alive : (e.generation == d.generation) ≡ true
      alive = (==_iff e.generation d.generation).1 (live ∙ sym f.generation)

      young : ltb (e.last_seen + d.idle_timeout) later ≡ false
      young = ground (arith, f.idle_timeout)

  -- What is put into a cache that has room for an entry at all is what `get` gives for its key, until
  -- the idle time is over.
  pub get-put :
      (same : K → K → Bool) (c : LruCache K V) (key : K) (value : V) (now later : ℕ)
      → 0 < c.capacity
      → same key key ≡ true
      → later ≤ now + c.idle_timeout
      → (get same (put same c key value now) key later).1 ≡ some value
  unfolding put
  get-put same c key value now later h equal fresh =
      get_front same r _ (made r key value now) later
        (put_reclaimed-InFront same r key value now (omega (arith, t.capacity, h))) equal refl
        (omega (arith, t.idle_timeout, fresh))
    where
      r : LruCache K V
      r = reclaim budget c

      t : SameTimes c r
      t = reclaim-SameTimes budget c
