-- ===== src/Via/Tests.antt =====
-- An envelope of one saved label, over one label.
use tuntom.Base.{List, [], arith, false, refl, some, true, ℕ, ◌*◌, ◌+◌, ◌^◌, ◌∷◌, ◌≡◌}
use tuntom.Via.{
  push, push_all, Envelope, letter, cookie_letters, header_label, context_label, attach, is_header,
  split,
}
use tuntom.Via.Roundtrip.{split-attach}

abbrev returning : Envelope
returning = record {
  base = 77 ∷ [];
  saved = 88 ∷ [];
  cookie = 0x616263;
  chain = 5;
  origin_id = 9;
  step = 2;
  action = 3;
  reverse = true;
  present = false;
}

abbrev returning_labels : List ℕ
returning_labels =
    77
    ∷ (0x616263 * 2 ^ 40 + 0x5649410000 + 0x104)
    ∷ (5 * 2 ^ 32 + 2 * 2 ^ 16 + 256 + 7)
    ∷ 9
    ∷ 88
    ∷ []

split-attach_example : split returning_labels ≡ some (record returning { present = true })
unfolding attach push_all push cookie_letters letter header_label context_label is_header
split-attach_example =
    split-attach returning returning_labels
      (record { step_fits = omega arith; chain_fits = omega arith }) (refl, tt) refl
