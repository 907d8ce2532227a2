-- ===== src/Session/Nonces.antt =====
-- The two indexes of the nonces that a server has seen.
use tuntom.Base.{
  Bool, Bool-cases, List, [], arith, bytes_equal, bytes_equal_refl, bytes_equal→≡, false, inl, inr,
  length, ltb, not, refl, subst, sym, true, ℕ, ◌&&◌, ◌<◌, ◌==◌, ◌||◌, ◌∷◌, ◌≡◌, ◌≤◌, ◌⊎◌,
}
use tuntom.Session.{Expiry}
use tuntom.Session.Server.{member, erase_nonce, expire_entries, emplace}

-- No entry is for the nonce.
abbrev pub absent : List ℕ → List Expiry → Bool
absent nonce [] = true
absent nonce (e ∷ es) = not (bytes_equal e.nonce nonce) && absent nonce es

-- Each entry's nonce is among those seen, and has no other entry.
abbrev pub Indexed : List (List ℕ) → List Expiry → Type 0
Indexed seen [] = Unit
Indexed seen (e ∷ es) = (member e.nonce seen ≡ true) × (absent e.nonce es ≡ true) × Indexed seen es

-- There is an entry for the nonce at the time.
abbrev pub listed : ℕ → List ℕ → List Expiry → Bool
listed time nonce [] = false
listed time nonce (e ∷ es) = e.time == time && bytes_equal e.nonce nonce || listed time nonce es

bytes_equal_sym : (xs ys : List ℕ) → bytes_equal xs ys ≡ true → bytes_equal ys xs ≡ true
bytes_equal_sym xs ys h =
    subst (λ v. bytes_equal ys v ≡ true) (sym (bytes_equal→≡ xs ys h)) (bytes_equal_refl ys)

member_equal :
    (a b : List ℕ) (seen : List (List ℕ))
    → bytes_equal a b ≡ true
    → member a seen ≡ true
    → member b seen ≡ true
member_equal a b seen e h = subst (λ v. member v seen ≡ true) (bytes_equal→≡ a b e) h

-- Another nonce stays.
member-erase :
    (a b : List ℕ) (seen : List (List ℕ))
    → bytes_equal a b ≡ false
    → member a seen ≡ true
    → member a (erase_nonce b seen) ≡ true
unfolding member erase_nonce
member-erase a b [] e h = h
member-erase a b (x ∷ xs) e h = elim (Bool-cases (bytes_equal x b)) [
  | inl gone ↦ elim (Bool-cases (bytes_equal x a)) [
    | inl same ↦ absurd (cc (e, gone, bytes_equal→≡ x a same))
    | inr other ↦ ground (arith, gone, other, h, member-erase a b xs e)
  ]
  | inr kept ↦ ground (arith, kept, h, member-erase a b xs e)
]

erase-Indexed :
    (nonce : List ℕ) (seen : List (List ℕ)) (es : List Expiry)
    → absent nonce es ≡ true
    → Indexed seen es
    → Indexed (erase_nonce nonce seen) es
erase-Indexed nonce seen [] a h = h
erase-Indexed nonce seen (e ∷ es) a (m, u, h) = (
  member-erase e.nonce nonce seen (ground (arith, a)) m,
  u,
  erase-Indexed nonce seen es (ground (arith, a)) h,
)

pub expire-Indexed :
    (current : ℕ) (seen : List (List ℕ)) (es : List Expiry)
    → Indexed seen es
    → Indexed (expire_entries current seen es).0 (expire_entries current seen es).1
unfolding expire_entries
expire-Indexed current seen [] h = h
expire-Indexed current seen (e ∷ es) h = elim (Bool-cases (ltb e.time current)) [
  | inl gone ↦
      rw gone (
        expire-Indexed current (erase_nonce e.nonce seen) es
          (erase-Indexed e.nonce seen es h.1 h.2))
  | inr kept ↦ rw kept h
]

-- An entry goes only when its time is over.
pub expire-listed :
    (current : ℕ) (seen : List (List ℕ)) (es : List Expiry) (time : ℕ) (nonce : List ℕ)
    → listed time nonce es ≡ true
    → (time < current) ⊎ (listed time nonce (expire_entries current seen es).1 ≡ true)
unfolding expire_entries
expire-listed current seen [] time nonce h = inr h
expire-listed current seen (e ∷ es) time nonce h =
    ground (arith, expire-listed current (erase_nonce e.nonce seen) es time nonce)

pub listed-member :
    (seen : List (List ℕ)) (es : List Expiry) (time : ℕ) (nonce : List ℕ)
    → Indexed seen es
    → listed time nonce es ≡ true
    → member nonce seen ≡ true
listed-member seen [] time nonce i h = absurd cc
listed-member seen (e ∷ es) time nonce i h =
    ground (arith, i, h, listed-member seen es time nonce, member_equal e.nonce nonce seen)

more-Indexed :
    (nonce : List ℕ) (seen : List (List ℕ)) (es : List Expiry)
    → Indexed seen es
    → Indexed (nonce ∷ seen) es
unfolding member
more-Indexed nonce seen [] h = h
more-Indexed nonce seen (e ∷ es) (m, u, h) = (ground (arith, m), u, more-Indexed nonce seen es h)

unseen-absent :
    (nonce : List ℕ) (seen : List (List ℕ)) (es : List Expiry)
    → Indexed seen es
    → member nonce seen ≡ false
    → absent nonce es ≡ true
unseen-absent nonce seen [] i h = refl
unseen-absent nonce seen (e ∷ es) i h =
    ground (arith, i, h, unseen-absent nonce seen es, member_equal e.nonce nonce seen)

absent-emplace :
    (nonce : List ℕ) (es : List Expiry) (entry : Expiry)
    → absent nonce es ≡ true
    → bytes_equal entry.nonce nonce ≡ false
    → absent nonce (emplace es entry) ≡ true
unfolding emplace
absent-emplace nonce [] entry a h = ground (arith, h)
absent-emplace nonce (e ∷ es) entry a h = ground (arith, a, h, absent-emplace nonce es entry)

not_equal_sym : (xs ys : List ℕ) → bytes_equal xs ys ≡ false → bytes_equal ys xs ≡ false
not_equal_sym xs ys h = ground (arith, h, bytes_equal_sym ys xs)

emplace-Indexed :
    (seen : List (List ℕ)) (es : List Expiry) (entry : Expiry)
    → Indexed seen es
    → member entry.nonce seen ≡ true
    → absent entry.nonce es ≡ true
    → Indexed seen (emplace es entry)
unfolding emplace
emplace-Indexed seen [] entry i m a = (m, refl, tt)
emplace-Indexed seen (e ∷ es) entry i m a = elim (Bool-cases (ltb entry.time e.time)) [
  | inl before ↦ rw before (m, a, i)
  | inr after ↦ rw after (
    i.0,
    absent-emplace e.nonce es entry i.1 (not_equal_sym e.nonce entry.nonce (ground (arith, a))),
    emplace-Indexed seen es entry i.2 m (ground (arith, a)),
  )
]

pub listed-emplace :
    (es : List Expiry) (entry : Expiry) (time : ℕ) (nonce : List ℕ)
    → listed time nonce es ≡ true
    → listed time nonce (emplace es entry) ≡ true
unfolding emplace
listed-emplace [] entry time nonce h = absurd cc
listed-emplace (e ∷ es) entry time nonce h = ground (arith, h, listed-emplace es entry time nonce)

pub emplaced-listed :
    (es : List Expiry) (entry : Expiry) → listed entry.time entry.nonce (emplace es entry) ≡ true
unfolding emplace
emplaced-listed [] entry = ground (arith, bytes_equal_refl entry.nonce)
emplaced-listed (e ∷ es) entry =
    ground (arith, bytes_equal_refl entry.nonce, emplaced-listed es entry)

-- A nonce that was not seen, with its entry.
pub reserve-Indexed :
    (seen : List (List ℕ)) (es : List Expiry) (entry : Expiry)
    → Indexed seen es
    → member entry.nonce seen ≡ false
    → Indexed (entry.nonce ∷ seen) (emplace es entry)
unfolding member
reserve-Indexed seen es entry i h =
    emplace-Indexed (entry.nonce ∷ seen) es entry (more-Indexed entry.nonce seen es i)
      (ground (arith, bytes_equal_refl entry.nonce)) (unseen-absent entry.nonce seen es i h)

length-erase :
    (nonce : List ℕ) (seen : List (List ℕ)) → length (erase_nonce nonce seen) ≤ length seen
unfolding erase_nonce
length-erase nonce [] = omega arith
length-erase nonce (x ∷ xs) = ground (arith, length-erase nonce xs)

pub length-expire :
    (current : ℕ) (seen : List (List ℕ)) (es : List Expiry)
    → length (expire_entries current seen es).0 ≤ length seen
unfolding expire_entries
length-expire current seen [] = omega arith
length-expire current seen (e ∷ es) =
    ground (arith, length-expire current (erase_nonce e.nonce seen) es, length-erase e.nonce seen)
