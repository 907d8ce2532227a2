-- ===== src/Relay/Tests.antt =====
-- A directory of two channels.
use tuntom.Base.{List, [], arith, bytes_equal, refl, replicate, some, true, ℕ, ◌++◌, ◌∷◌, ◌≡◌}
use tuntom.Wire.{store_be16, store_be32, store_be64}
use tuntom.SwitchProtocol.{printable, encode_switch_registration}
use tuntom.Relay.{
  View, decode, encode, header, type_byte, Channel, valid_name, taken, read_snapshot, write_channel,
  write_channels, write_snapshot,
}
use tuntom.Relay.Directory.{read_snapshot-write_snapshot}

abbrev north : Channel
north = record { id = 1; owner = 5; name = b'n' ∷ [] }

abbrev south : Channel
south = record { id = 2; owner = 5; name = b's' ∷ b'o' ∷ [] }

valid_north : valid_name north.name ≡ true
unfolding valid_name encode_switch_registration printable
valid_north = refl

valid_south : valid_name south.name ≡ true
unfolding valid_name encode_switch_registration printable
valid_south = refl

abbrev directory_wire : List ℕ
directory_wire =
    b'T'
    ∷ b'T'
    ∷ b'R'
    ∷ 1
    ∷ 2
    ∷ 0
    ∷ 0
    ∷ 0
    ∷ 0
    ∷ 0
    ∷ 0
    ∷ 3
    ∷ 0
    ∷ 0
    ∷ 0
    ∷ 63
    ∷ (replicate 7 0
        ++ (4
            ∷ (replicate 8 0
                ++ (0
                    ∷ 2
                    ∷ 0
                    ∷ 0
                    ∷ 0
                    ∷ 1
                    ∷ (replicate 7 0
                        ++ (5
                            ∷ 1
                            ∷ b'n'
                            ∷ 0
                            ∷ 0
                            ∷ 0
                            ∷ 2
                            ∷ (replicate 7 0 ++ (5 ∷ 2 ∷ b's' ∷ b'o' ∷ []))))))))

written : write_snapshot 4 3 (north ∷ south ∷ []) ≡ some directory_wire
unfolding write_snapshot encode header type_byte write_channels write_channel store_be16 store_be32
    store_be64
written = refl

read_snapshot-write_snapshot_example :
    (v : View) × (decode directory_wire ≡ some v)
    × (v.epoch ≡ 4)
    × (v.channel ≡ 3)
    × (read_snapshot v ≡ some (north ∷ south ∷ []))
unfolding taken
read_snapshot-write_snapshot_example =
    read_snapshot-write_snapshot 4 3 (north ∷ south ∷ []) directory_wire (omega arith) (omega arith)
      (omega arith) (omega arith) (omega arith)
      (
        record {
          known = omega arith;
          id_fits = omega arith;
          owned = omega arith;
          owner_fits = omega arith;
          named = omega arith;
          name_fits = omega arith;
          name_taken = valid_north;
        },
        (
          record {
            known = omega arith;
            id_fits = omega arith;
            owned = omega arith;
            owner_fits = omega arith;
            named = omega arith;
            name_fits = omega arith;
            name_taken = valid_south;
          },
          tt,
        ),
      )
      (refl, (unfold bytes_equal in refl, tt)) written
