-- ===== src/LruCache/Bounds.antt =====
-- The cache never holds more entries than its capacity.
use tuntom.Base.{
  Bool, Bool-cases, List, Option-cases, [], arith, if◌then◌else◌, inl, inr, length, ltb, refl, some,
  subst, suc, sym, zero, ℕ, ◌+◌, ◌-◌, ◌==◌, ◌∙◌, ◌∷◌, ◌≡◌, ◌≤◌,
}
use tuntom.LruCache.{
  Entry, LruCache, find, remove, back, pop_back, evict_last, evict, reclaim, budget, put_front,
  put_reclaimed, put, is_stale,
}

module _ {K V : Type 0} where
  length-pop_back : (xs : List (Entry K V)) → length (pop_back xs) ≡ length xs - 1
  unfolding pop_back
  length-pop_back [] = omega arith
  length-pop_back (e ∷ []) = omega arith
  length-pop_back (e ∷ (f ∷ rest)) = omega (arith, length-pop_back (f ∷ rest))

  pub length-remove :
      (same : K → K → Bool) (key : K) (xs : List (Entry K V))
      → length (remove same key xs) ≤ length xs
  unfolding remove
  length-remove same key [] = omega arith
  length-remove same key (e ∷ rest) = ground (arith, length-remove same key rest)

  pub length-remove_found :
      (same : K → K → Bool) (key : K) (xs : List (Entry K V)) (e : Entry K V)
      → find same key xs ≡ some e
      → length (remove same key xs) + 1 ≡ length xs
  unfolding remove find
  length-remove_found same key [] e h = ground (arith, h)
  length-remove_found same key (f ∷ rest) e h = elim (Bool-cases (same f.key key)) [
    | inl here ↦ rw here (omega arith)
    | inr later ↦ rw later (omega (arith, length-remove_found same key rest e (ground (arith, h))))
  ]

  pub evict_step :
      (rounds : ℕ) (c : LruCache K V)
      → evict (suc rounds) c
        ≡ (if ltb c.capacity (length c.order) then evict rounds (evict_last c) else c)
  unfolding evict
  evict_step rounds c = refl

  length-evict_last : (c : LruCache K V) → length (evict_last c).order ≡ length c.order - 1
  unfolding evict_last
  length-evict_last c = length-pop_back c.order

  pub capacity-evict_last : (c : LruCache K V) → (evict_last c).capacity ≡ c.capacity
  unfolding evict_last
  capacity-evict_last c = refl

  abbrev Trimmed : LruCache K V → LruCache K V → Type 0
  Trimmed c d = (length d.order ≤ c.capacity) × (d.capacity ≡ c.capacity)

  pub length-evict :
      (rounds : ℕ) (c : LruCache K V) → length c.order ≤ rounds → Trimmed c (evict rounds c)
  length-evict zero c h = unfold evict in (omega (arith, h), refl)
  length-evict (suc rounds) c h = elim (Bool-cases (ltb c.capacity (length c.order))) [
    | inl more ↦
        let (fits, same) =
          length-evict rounds (evict_last c) (omega (arith, length-evict_last c, h)) in
        subst (Trimmed c) {x = evict rounds (evict_last c)}
          (sym (evict_step rounds c ∙ simp more refl))
          (omega (arith, fits, capacity-evict_last c), same ∙ capacity-evict_last c)
    | inr fits ↦
        subst (Trimmed c) {x = c} (sym (evict_step rounds c ∙ simp fits refl)) (ground arith, refl)
  ]

  Reclaimed : LruCache K V → LruCache K V → Type 0
  Reclaimed c d = (length d.order ≤ length c.order) × (d.capacity ≡ c.capacity)

  pub reclaim_step :
      (n : ℕ) (c : LruCache K V)
      → reclaim (suc n) c ≡ (
          if is_stale c (back c.order)
          then reclaim n (record c { order = pop_back c.order })
          else c)
  unfolding reclaim
  reclaim_step n c = refl

  length-reclaim : (n : ℕ) (c : LruCache K V) → Reclaimed c (reclaim n c)
  unfolding Reclaimed
  length-reclaim zero c = unfold reclaim in (omega arith, refl)
  length-reclaim (suc n) c = elim (Bool-cases (is_stale c (back c.order))) [
    | inl old ↦
        let (less, same) = length-reclaim n (record c { order = pop_back c.order }) in
        subst (Reclaimed c) {x = reclaim n (record c { order = pop_back c.order })}
          (sym (reclaim_step n c ∙ simp old refl))
          (omega (arith, less, length-pop_back c.order), same)
    | inr new ↦
        subst (Reclaimed c) {x = c} (sym (reclaim_step n c ∙ simp new refl)) (omega arith, refl)
  ]

  put_reclaimed-bound :
      (same : K → K → Bool) (c : LruCache K V) (key : K) (value : V) (now : ℕ)
      → length c.order ≤ c.capacity
      → length (put_reclaimed same c key value now).order ≤ c.capacity
  unfolding put_reclaimed put_front
  put_reclaimed-bound same c key value now h = elim (Option-cases (find same key c.order)) [
    | inl missing ↦ elim (Bool-cases (c.capacity == 0)) [
      | inl none_fit ↦ rw (missing, none_fit, put_reclaimed) h
      | inr some_fit ↦ rw (missing, some_fit, put_reclaimed) (length-evict _ _ (omega arith)).0
    ]
    | inr (e, found) ↦ rw (found, put_reclaimed) (length-evict _ _ (omega arith)).0
  ]

  -- `put` keeps a cache within its capacity.
  pub put-bound :
      (same : K → K → Bool) (c : LruCache K V) (key : K) (value : V) (now : ℕ)
      → length c.order ≤ c.capacity
      → length (put same c key value now).order ≤ c.capacity
  unfolding put Reclaimed
  put-bound same c key value now h =
      let (less, same_capacity) = length-reclaim budget c in
      omega (
        arith,
        same_capacity,
        put_reclaimed-bound same (reclaim budget c) key value now
            (omega (arith, less, same_capacity, h)),
      )
