-- ===== src/Via/Roundtrip.antt =====
-- An envelope that is attached is found again.
use tuntom.Base.{
  Bool-cases, List, [], ap, arith, drop, false, inl, inr, length, length-append, refl, some, suc,
  take_all, true, zero, ℕ, ◌%◌, ◌++◌, ◌+◌, ◌/◌, ◌<◌, ◌==◌, ◌^◌, ◌∙◌, ◌∷◌, ◌≡◌, ◌≤◌,
}
use tuntom.SwitchProtocol.{max_labels}
use tuntom.Via.{
  push_all, Envelope, no_envelope, complete, magic, letter, cookie_letters, header_label,
  context_label, attach, is_header, valid_context, read_context, split_loop, split,
}
use tuntom.Via.Stacks.{Plain, push_all_fits, split_loop-Plain}

-- The fields are numbers of their width.
pub record Fits (env : Envelope) : Type 0 where
  pub step_fits : env.step < 2 ^ 16
  pub chain_fits : env.chain < 2 ^ 32

letters-lt : (cookie : ℕ) → cookie_letters cookie ≡ true → cookie < 2 ^ 24
unfolding cookie_letters letter
letters-lt cookie h = ground (arith, h)

-- What an envelope that is attached meets.
record Attached (env : Envelope) : Type 0 where
  based : 0 < length env.base
  kept : 0 < length env.saved
  known : 0 < env.origin_id
  chained : 0 < env.chain
  acting : env.action ≤ complete
  lettered : cookie_letters env.cookie ≡ true
  short : length env.base + 3 + length env.saved ≤ max_labels

labels_of : Envelope → List ℕ
labels_of env = header_label env ∷ context_label env ∷ env.origin_id ∷ env.saved

attached_lem :
    (env : Envelope) (labels : List ℕ)
    → attach env ≡ some labels
    → (labels ≡ env.base ++ labels_of env) × Attached env
unfolding attach labels_of
attached_lem env labels h =
    let a : Attached env = record {
      based = ground (arith, h);
      kept = ground (arith, h);
      known = ground (arith, h);
      chained = ground (arith, h);
      acting = ground (arith, h);
      lettered = ground (arith, h);
      short = ground (arith, h);
    } in
    (ground (arith, h, push_all_fits env.base (labels_of env), a.short), a)

drop_all : {A : Type 0} (xs : List A) → drop (length xs) xs ≡ []
drop_all [] = refl
drop_all (x ∷ xs) = drop_all xs

module _ (env : Envelope) (a : Attached env) (f : Fits env) where
  header_parts :
      (header_label env % 256 ≡ 3 + length env.saved)
      × (header_label env / 2 ^ 8 % 256 ≡ 1)
      × (header_label env / 2 ^ 16 % 2 ^ 24 ≡ magic)
      × (header_label env / 2 ^ 40 ≡ env.cookie)
  unfolding header_label
  header_parts = (
    omega (arith, a.short),
    omega (arith, a.short),
    omega (arith, a.short),
    omega (arith, a.short),
  )

  context_parts :
      let flags = context_label env % 256 in
      (context_label env / 2 ^ 32 ≡ env.chain)
      × (context_label env / 2 ^ 16 % 2 ^ 16 ≡ env.step)
      × (context_label env / 2 ^ 8 % 256 ≡ length env.saved)
      × (flags / 2 % 8 ≡ env.action)
      × (flags / 16 ≡ 0)
      × ((flags % 2 == 1) ≡ env.reverse)
  unfolding context_label
  context_parts = elim (Bool-cases env.reverse) [
    | inl e ↦ rw e (
      omega (arith, a, f),
      omega (arith, a, f),
      omega (arith, a, f),
      omega (arith, a, f),
      omega (arith, a, f),
      ground (arith, a, f),
    )
    | inr e ↦ rw e (
      omega (arith, a, f),
      omega (arith, a, f),
      omega (arith, a, f),
      omega (arith, a, f),
      omega (arith, a, f),
      ground (arith, a, f),
    )
  ]

  context-valid :
      (result : Envelope) → result.present ≡ false → valid_context result (labels_of env) ≡ true
  unfolding valid_context labels_of
  context-valid result h = ground (arith, h, a, header_parts, context_parts)

  context-read :
      (result : Envelope)
      → result.saved ≡ []
      → result.base ≡ env.base
      → read_context result (labels_of env) ≡ record env { present = true }
  unfolding read_context labels_of
  context-read result s b = ground (
    arith,
    s,
    b,
    header_parts,
    context_parts,
    push_all_fits [] env.saved,
    a.short,
    take_all env.saved,
  )

  nothing_left : drop (header_label env % 256) (labels_of env) ≡ []
  unfolding labels_of
  nothing_left =
      ap (λ n. drop n (labels_of env)) (header_parts.0 ∙ three (length env.saved))
      ∙ drop_all env.saved
    where
      three : (n : ℕ) → 3 + n ≡ suc (suc (suc n))
      three n = omega arith

  loop_end : (fuel : ℕ) (result : Envelope) → split_loop fuel [] result ≡ some result
  unfolding split_loop
  loop_end zero result = refl
  loop_end (suc fuel) result = refl

  header-IsHeader : is_header (header_label env) ≡ true
  unfolding is_header
  header-IsHeader = ground (arith, header_parts)

  -- The round of the loop at the envelope, which is the last.
  loop_context :
      (fuel : ℕ) (result : Envelope)
      → result.present ≡ false
      → result.saved ≡ []
      → result.base ≡ env.base
      → split_loop (suc fuel) (labels_of env) result ≡ some (record env { present = true })
  unfolding split_loop labels_of
  loop_context fuel result p s b = ground (
    arith,
    header-IsHeader,
    context-valid result p,
    nothing_left,
    context-read result s b,
    loop_end fuel (record env { present = true }),
  )

-- What `attach` makes of an envelope over labels that begin none, `split` takes apart again: all fields
-- as they were, and the mark that an envelope was there.
pub split-attach :
    (env : Envelope) (labels : List ℕ)
    → Fits env
    → Plain env.base
    → attach env ≡ some labels
    → split labels ≡ some (record env { present = true })
unfolding split labels_of
split-attach env labels f plain h =
    let (shape, a) = attached_lem env labels h in
    let whole : List ℕ = labels_of env in
    let fuel : ℕ = length whole in
    let started : Envelope = record no_envelope { base = push_all [] env.base } in
    let same_base : push_all [] env.base ≡ env.base =
      push_all_fits [] env.base (omega (arith, a.short)) in
    let looped : split_loop (length (env.base ++ whole)) (env.base ++ whole) no_envelope
        ≡ some (record env { present = true }) =
      ap (λ n. split_loop n (env.base ++ whole) no_envelope) (length-append env.base whole)
      ∙ split_loop-Plain env.base whole fuel no_envelope plain
      ∙ loop_context env a f (suc (suc (length env.saved))) started refl refl same_base in
    rw shape (ground (arith, looped, a.based))
