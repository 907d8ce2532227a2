-- ===== src/LruCache.antt =====
-- src/adapter/lru_cache.hpp. The list is `order_`, the latest entry first; the map from keys to its
-- iterators is the search of the list. `same` is the equality of keys.
pub mod Recent
pub mod Bounds
mod Tests
use tuntom.Base.{
  Bool, List, Option, [], false, if◌then◌else◌, leb, length, ltb, none, not, some, suc, zero, ℕ,
  ◌%◌, ◌&&◌, ◌+◌, ◌-◌, ◌==◌, ◌^◌, ◌∷◌,
}

pub record Entry (K V : Type 0) : Type 0 where
  pub key : K
  pub value : V
  pub last_seen : ℕ
  pub generation : ℕ

pub record LruCache (K V : Type 0) : Type 0 where
  pub generation : ℕ
  pub live_size : ℕ
  pub capacity : ℕ
  pub idle_timeout : ℕ
  pub order : List (Entry K V)
  pub evictions : ℕ
  pub expirations : ℕ

-- The budget that `put` gives to `reclaim`.
abbrev pub budget : ℕ
budget = 64

module _ {K V : Type 0} where
  unfoldable pub create : ℕ → ℕ → LruCache K V
  create capacity idle_timeout = record {
    generation = 0;
    live_size = 0;
    capacity = capacity;
    idle_timeout = idle_timeout;
    order = [];
    evictions = 0;
    expirations = 0;
  }

  unfoldable pub find : (K → K → Bool) → K → List (Entry K V) → Option (Entry K V)
  find same key [] = none
  find same key (e ∷ rest) =
      let later = find same key rest in if same e.key key then some e else later

  unfoldable pub remove : (K → K → Bool) → K → List (Entry K V) → List (Entry K V)
  remove same key [] = []
  remove same key (e ∷ rest) =
      let later = remove same key rest in if same e.key key then rest else e ∷ later

  -- `order_.back()`
  unfoldable pub back : List (Entry K V) → Option (Entry K V)
  back [] = none
  back (e ∷ []) = some e
  back (e ∷ (f ∷ rest)) = back (f ∷ rest)

  unfoldable pub pop_back : List (Entry K V) → List (Entry K V)
  pop_back [] = []
  pop_back (e ∷ []) = []
  pop_back (e ∷ (f ∷ rest)) = e ∷ pop_back (f ∷ rest)

  unfoldable pub is_live : LruCache K V → Option (Entry K V) → Bool
  is_live c none = false
  is_live c (some e) = e.generation == c.generation

  unfoldable pub evict_last : LruCache K V → LruCache K V
  evict_last c =
      let live = is_live c (back c.order) in
      record c {
        live_size = if live then c.live_size - 1 else c.live_size;
        evictions = if live then c.evictions + 1 else c.evictions;
        order = pop_back c.order;
      }

  -- `while (entries_.size() > capacity_) evict_last();`
  unfoldable pub evict : ℕ → LruCache K V → LruCache K V
  evict zero c = c
  evict (suc rounds) c =
      let rest = evict rounds (evict_last c) in if ltb c.capacity (length c.order) then rest else c

  unfoldable pub is_stale : LruCache K V → Option (Entry K V) → Bool
  is_stale c none = false
  is_stale c (some e) = not (e.generation == c.generation)

  unfoldable pub reclaim : ℕ → LruCache K V → LruCache K V
  reclaim zero c = c
  reclaim (suc budget) c =
      let rest = reclaim budget (record c { order = pop_back c.order }) in
      if is_stale c (back c.order) then rest else c

  -- The entry of a key, put in front with the value, the time and the generation of now.
  unfoldable pub put_front : (K → K → Bool) → LruCache K V → K → V → ℕ → LruCache K V
  put_front same c key value now = record c {
    order =
        record { key = key; value = value; last_seen = now; generation = c.generation }
        ∷ remove same key c.order;
  }

  unfoldable pub put_reclaimed : (K → K → Bool) → LruCache K V → K → V → ℕ → LruCache K V
  put_reclaimed same c key value now =
      let front = put_front same c key value now in
      let trimmed = λ (d : LruCache K V). evict (length d.order) d in
      elim (find same key c.order) [
        | some e ↦ trimmed (record front {
          live_size = if e.generation == c.generation then c.live_size else c.live_size + 1;
        })
        | none ↦
            if c.capacity == 0 then c else trimmed (record front { live_size = c.live_size + 1 })
      ]

  unfoldable pub put : (K → K → Bool) → LruCache K V → K → V → ℕ → LruCache K V
  put same c key value now = put_reclaimed same (reclaim budget c) key value now

  unfoldable pub get : (K → K → Bool) → LruCache K V → K → ℕ → LruCache K V × Option V
  get same c key now = elim (find same key c.order) [
    | none ↦ (c, none)
    | some e ↦
        if not (e.generation == c.generation)
        then (c, none)
        else if ltb (e.last_seen + c.idle_timeout) now
        then (
          record c {
            order = remove same key c.order;
            live_size = c.live_size - 1;
            expirations = c.expirations + 1;
          },
          none,
        )
        else (
          record c { order = record e { last_seen = now } ∷ remove same key c.order },
          some e.value,
        )
  ]

  unfoldable pub flush : LruCache K V → LruCache K V
  flush c = record c { generation = (c.generation + 1) % 2 ^ 64; live_size = 0 }

  -- `visit_live`: what the visitor is given, in its order.
  unfoldable pub visit_live : LruCache K V → ℕ → List (Entry K V) → List (K × (V × ℕ))
  visit_live c now [] = []
  visit_live c now (e ∷ rest) =
      let later = visit_live c now rest in
      if e.generation == c.generation && leb now (e.last_seen + c.idle_timeout)
      then (e.key, (e.value, e.last_seen)) ∷ later
      else later
