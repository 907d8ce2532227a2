-- ===== src/Via.antt =====
-- src/via/codec.hpp: the envelope that a via path puts into a stack of labels, and takes out again. A
-- label is a number of 64 bits; shifts and masks are written as division and remainder.
pub mod Stacks
pub mod Roundtrip
mod Tests
use tuntom.Base.{
  Bool, List, Option, [], count, drop, false, get_or, if◌then◌else◌, leb, length, ltb, none, not,
  some, suc, take, true, zero, ℕ, ◌%◌, ◌&&◌, ◌*◌, ◌++◌, ◌+◌, ◌/◌, ◌==◌, ◌^◌, ◌||◌, ◌∷◌,
}
use tuntom.SwitchProtocol.{max_labels}

-- `Stack::push`: a full stack takes nothing.
unfoldable pub push : List ℕ → ℕ → List ℕ
push s v = if length s == max_labels then s else s ++ (v ∷ [])

unfoldable pub push_all : List ℕ → List ℕ → List ℕ
push_all s [] = s
push_all s (v ∷ vs) = push_all (push s v) vs

pub record Envelope : Type 0 where
  pub base : List ℕ
  pub saved : List ℕ
  pub cookie : ℕ
  pub chain : ℕ
  pub origin_id : ℕ
  pub step : ℕ
  pub action : ℕ
  pub reverse : Bool
  pub present : Bool

abbrev pub no_envelope : Envelope
no_envelope = record {
  base = [];
  saved = [];
  cookie = 0;
  chain = 0;
  origin_id = 0;
  step = 0;
  action = 0;
  reverse = false;
  present = false;
}

-- The last `Action`.
abbrev pub complete : ℕ
complete = 3

-- `Codec::magic`, which stands 16 bits up.
abbrev pub magic : ℕ
magic = 0x564941

unfoldable pub letter : ℕ → Bool
letter c = leb 0x61 c && leb c 0x7a || leb 0x41 c && leb c 0x5a

unfoldable pub cookie_letters : ℕ → Bool
cookie_letters cookie =
    letter (cookie / 2 ^ 16) && letter (cookie / 2 ^ 8 % 256) && letter (cookie % 256)

abbrev pub bit : Bool → ℕ
bit b = if b then 1 else 0

-- The parts of the labels do not overlap, so `|` is `+`.
unfoldable pub header_label : Envelope → ℕ
header_label env = env.cookie * 2 ^ 40 + magic * 2 ^ 16 + 0x100 + (3 + length env.saved)

unfoldable pub context_label : Envelope → ℕ
context_label env =
    env.chain * 2 ^ 32
    + env.step * 2 ^ 16
    + length env.saved * 2 ^ 8
    + env.action * 2
    + bit env.reverse

unfoldable pub attach : Envelope → Option (List ℕ)
attach env =
    if length env.base == 0
      || length env.saved == 0
      || env.origin_id == 0
      || env.chain == 0
      || ltb complete env.action
      || not (cookie_letters env.cookie)
      || ltb max_labels (length env.base + 3 + length env.saved)
    then none
    else some (push_all env.base (header_label env ∷ context_label env ∷ env.origin_id ∷ env.saved))

unfoldable pub is_header : ℕ → Bool
is_header label = label / 2 ^ 16 % 2 ^ 24 == magic

-- The context behind a header: what `split` tests of it.
unfoldable pub valid_context : Envelope → List ℕ → Bool
valid_context result labels =
    let header = get_or labels 0 0 in
    let count = header % 256 in
    let cookie = header / 2 ^ 40 in
    let context = get_or labels 1 0 in
    let flags = context % 256 in
    not result.present
    && header / 2 ^ 8 % 256 == 1
    && leb 4 count
    && leb count (length labels)
    && cookie_letters cookie
    && not (context / 2 ^ 32 == 0)
    && count == context / 2 ^ 8 % 256 + 3
    && flags / 16 == 0
    && leb (flags / 2 % 8) complete
    && not (get_or labels 2 0 == 0)

unfoldable pub read_context : Envelope → List ℕ → Envelope
read_context result labels =
    let header = get_or labels 0 0 in
    let context = get_or labels 1 0 in
    let flags = context % 256 in
    record result {
      cookie = header / 2 ^ 40;
      chain = context / 2 ^ 32;
      step = context / 2 ^ 16 % 2 ^ 16;
      reverse = flags % 2 == 1;
      action = flags / 2 % 8;
      origin_id = get_or labels 2 0;
      saved = push_all result.saved (take (context / 2 ^ 8 % 256) (drop 3 labels));
      present = true;
    }

-- The loop of `split`; each round takes at least one label, so their number is enough fuel.
unfoldable pub split_loop : ℕ → List ℕ → Envelope → Option Envelope
split_loop fuel [] result = some result
split_loop zero (label ∷ labels) result = none
split_loop (suc fuel) (label ∷ labels) result =
    let plain = split_loop fuel labels (record result { base = push result.base label }) in
    let beyond =
      split_loop fuel (drop (label % 256) (label ∷ labels))
        (read_context result (label ∷ labels)) in
    if not (is_header label)
    then plain
    else if valid_context result (label ∷ labels)
    then beyond
    else none

unfoldable pub split : List ℕ → Option Envelope
split labels = elim (split_loop (length labels) labels no_envelope) [
  | none ↦ none
  | some result ↦ if length result.base == 0 then none else some result
]
