-- ===== src/Relay.antt =====
-- src/relay/protocol.hpp: the records between a relay and its endpoints, and the directory of channels
-- that a snapshot carries. A map of channels is the list of its entries: an identifier and a name occur
-- once each.
pub mod Records
pub mod Directory
mod Tests
use tuntom.Base.{
  Bool, List, Option, [], bytes_equal, drop, err, false, get_or, if◌then◌else◌, leb, length, ltb,
  none, not, ok, some, suc, take, true, zero, ℕ, ◌%◌, ◌&&◌, ◌++◌, ◌+◌, ◌-◌, ◌==◌, ◌||◌, ◌∷◌,
}
use tuntom.Wire.{store_be16, load_be16, store_be32, load_be32, store_be64, load_be64}
use tuntom.SwitchProtocol.{max_port_id_size, encode_switch_registration, decode_switch_frame}

abbrev pub header_size : ℕ
header_size = 32

abbrev pub frame_limit : ℕ
frame_limit = 65535 + 72

abbrev pub max_record : ℕ
max_record = frame_limit + header_size

abbrev pub max_channels : ℕ
max_channels = 128

pub data RecordType : Type 0 where
  reset snapshot acknowledged payload_data : RecordType

unfoldable pub type_byte : RecordType → ℕ
type_byte reset = 1
type_byte snapshot = 2
type_byte acknowledged = 3
type_byte payload_data = 4

unfoldable pub type_of : ℕ → Option RecordType
type_of n =
    if n == 1
    then some reset
    else if n == 2
    then some snapshot
    else if n == 3
    then some acknowledged
    else if n == 4
    then some payload_data
    else none

pub record View : Type 0 where
  pub kind : RecordType
  pub channel : ℕ
  pub epoch : ℕ
  pub owner : ℕ
  pub payload : List ℕ

unfoldable pub marked : List ℕ → Bool
marked p =
    leb 4 (length p)
    && get_or p 0 0 == b'T'
    && get_or p 1 0 == b'T'
    && get_or p 2 0 == b'R'
    && get_or p 3 0 == 1

-- A frame that the switch takes, with a payload within its limit.
unfoldable pub carries_frame : List ℕ → Bool
carries_frame bytes = elim (decode_switch_frame bytes) [
  | none ↦ false
  | some frame ↦ leb frame.payload_size 65535
]

-- The conditions on the record of each type.
unfoldable pub accepted : View → Bool
accepted v = elim v.kind [
  | reset ↦ v.channel == 0 && v.epoch == 0 && v.owner == 0 && length v.payload == 0
  | snapshot ↦
      not (v.epoch == 0) && not (v.channel == 0) && v.owner == 0 && leb 2 (length v.payload)
  | acknowledged ↦
      not (v.epoch == 0) && not (v.channel == 0) && v.owner == 0 && length v.payload == 0
  | payload_data ↦
      not (v.epoch == 0) && not (v.channel == 0) && v.owner == 0 && carries_frame v.payload
]

unfoldable pub accept_view : View → Option View
accept_view v = if accepted v then some v else none

unfoldable pub decode : List ℕ → Option View
decode p =
    if not (marked p)
      || ltb (length p) header_size
      || ltb max_record (length p)
      || not (get_or p 5 0 == 0)
      || not (get_or p 6 0 == 0)
      || not (get_or p 7 0 == 0)
      || not (load_be32 (drop 12 p) == length p)
    then none
    else elim (type_of (get_or p 4 0)) [
      | none ↦ none
      | some kind ↦ accept_view (record {
        kind = kind;
        channel = load_be32 (drop 8 p);
        epoch = load_be64 (drop 16 p);
        owner = load_be64 (drop 24 p);
        payload = drop header_size p;
      })
    ]

unfoldable pub header : RecordType → ℕ → ℕ → ℕ → List ℕ
header kind channel epoch size =
    b'T'
    ∷ b'T'
    ∷ b'R'
    ∷ 1
    ∷ type_byte kind
    ∷ 0
    ∷ 0
    ∷ 0
    ∷ (store_be32 channel
        ++ (store_be32 (header_size + size) ++ (store_be64 epoch ++ store_be64 0)))

-- `none` is the exception for a record that is too large.
unfoldable pub encode : RecordType → ℕ → ℕ → List ℕ → Option (List ℕ)
encode kind channel epoch payload =
    if ltb frame_limit (length payload)
    then none
    else some (header kind channel epoch (length payload) ++ payload)

-- `wrap`, in a buffer of this capacity.
unfoldable pub wrap : List ℕ → ℕ → ℕ → ℕ → Option (List ℕ)
wrap frame capacity channel epoch =
    if ltb frame_limit (length frame) || ltb capacity (length frame + header_size)
    then none
    else some (header payload_data channel epoch (length frame) ++ frame)

pub record Channel : Type 0 where
  pub id : ℕ
  pub owner : ℕ
  pub name : List ℕ

unfoldable pub valid_name : List ℕ → Bool
valid_name name = elim (encode_switch_registration name) [ ok bytes ↦ true | err e ↦ false ]

unfoldable pub taken : List Channel → Channel → Bool
taken [] c = false
taken (x ∷ xs) c = x.id == c.id || bytes_equal x.name c.name || taken xs c

-- One entry of a snapshot: the channel.
unfoldable pub read_channel : List ℕ → Channel
read_channel bytes = record {
  id = load_be32 bytes;
  owner = load_be64 (drop 4 bytes);
  name = take (get_or bytes 12 0) (drop 13 bytes);
}

unfoldable pub valid_channel : List ℕ → List Channel → Bool
valid_channel bytes result =
    let c = read_channel bytes in
    let n = get_or bytes 12 0 in
    leb 13 (length bytes)
    && not (c.id == 0)
    && not (c.owner == 0)
    && not (n == 0)
    && leb n max_port_id_size
    && leb n (length bytes - 13)
    && valid_name c.name
    && not (taken result c)

-- The loop over the entries; nothing may be left behind the last.
unfoldable pub read_channels : ℕ → List ℕ → List Channel → Option (List Channel)
read_channels zero bytes result = if length bytes == 0 then some result else none
read_channels (suc n) bytes result =
    let rest =
      read_channels n (drop (13 + get_or bytes 12 0) bytes) (result ++ (read_channel bytes ∷ [])) in
    if valid_channel bytes result then rest else none

unfoldable pub read_snapshot : View → Option (List Channel)
read_snapshot v = elim v.kind [
  | snapshot ↦
      if ltb (length v.payload) 2 || ltb max_channels (load_be16 v.payload)
      then none
      else read_channels (load_be16 v.payload) (drop 2 v.payload) []
  | other ↦ none
]

unfoldable pub write_channel : Channel → List ℕ
write_channel c = store_be32 c.id ++ (store_be64 c.owner ++ (length c.name % 256 ∷ c.name))

unfoldable pub write_channels : List Channel → List ℕ
write_channels [] = []
write_channels (c ∷ cs) = write_channel c ++ write_channels cs

unfoldable pub write_snapshot : ℕ → ℕ → List Channel → Option (List ℕ)
write_snapshot epoch revision channels =
    encode snapshot revision epoch (store_be16 (length channels) ++ write_channels channels)
