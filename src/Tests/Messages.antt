-- ===== src/Tests/Messages.antt =====
-- Messages: runs of the wire format, and its theorems at concrete messages.
use beegfs_rust.Prelude.{ℕ, ◌≤◌, ◌≡◌, refl, List, [], ◌∷◌, ◌++◌, length, replicate, arith}
use beegfs_rust.Result.{ok, err, buffer_full}
use beegfs_rust.Serde.Words.{to_le_bytes}
use beegfs_rust.Serde.Serializer
use beegfs_rust.Serde.Deserializer
use beegfs_rust.Serde.Format.{uint, cstr}
use beegfs_rust.Serde.RoundTrip.{RoundTrips, RoundTrips-uint}
use beegfs_rust.Message.Fields.{serialize_fields}
use beegfs_rust.Message.Framing.{serialize, deserialize}
use beegfs_rust.Message.FramingLaws.{deserialize-serialize, serialize_no_room}
use beegfs_rust.Message.Targets.{RegisterTarget, register_target}
use beegfs_rust.Message.Nics.{Nic, v4, nic, retain_nonzero}
use beegfs_rust.Message.Nics.Sound.{nic_received}
use beegfs_rust.Types.{NicType}
use beegfs_rust.Message.Registry
use beegfs_rust.Message.Registry.{deserialize-serialize_registered}

-- The target 7 with the registration token "ab".
abbrev pub new_target : RegisterTarget
new_target = record { reg_token = 0x61 ∷ 0x62 ∷ []; target_id = 7 }

abbrev pub small_buffer : List ℕ
small_buffer = replicate 50 0xcc

-- The header, the token with its length and terminator, the id, and one byte that is not touched.
abbrev pub new_target_bytes : List ℕ
new_target_bytes =
    49 ∷ 0 ∷ 0 ∷ 0 ∷ 0 ∷ 0 ∷ 0 ∷ 0 ∷ 0 ∷ 0 ∷ 0 ∷ 0 ∷ 0x53 ∷ 0x46 ∷ 0x47 ∷ 0x42 ∷ 0x11 ∷ 0x04 ∷ 0 ∷ 0
    ∷ 0 ∷ 0 ∷ 0 ∷ 0 ∷ 0 ∷ 0 ∷ 0 ∷ 0 ∷ 0 ∷ 0 ∷ 0 ∷ 0 ∷ 0 ∷ 0 ∷ 0 ∷ 0 ∷ 0 ∷ 0 ∷ 0 ∷ 0 ∷ 2 ∷ 0 ∷ 0 ∷ 0
    ∷ 0x61 ∷ 0x62 ∷ 0 ∷ 7 ∷ 0 ∷ 0xcc ∷ []

pub new_target_serialized :
    serialize 1041 (register_target.format.serialize new_target) small_buffer
    ≡ ok (49, new_target_bytes)
unfolding serialize register_target uint cstr serialize_fields to_le_bytes Serializer.uint
    Serializer.bytes Serializer.cstr Serializer.overwrite
new_target_serialized = refl

deserialize-serialize_registered_example :
    (deserialize register_target.format.deserialize new_target_bytes ≡ ok new_target)
    × (49 ≤ length small_buffer)
    × (length new_target_bytes ≡ length small_buffer)
unfolding register_target
deserialize-serialize_registered_example =
    deserialize-serialize_registered Registry.register_target new_target small_buffer
      (record { reg_token = omega arith; target_id = omega arith }) (omega arith)
      new_target_serialized

-- The integer 513 as a message body.
abbrev two_bytes : RoundTrips (Serializer.uint 2 513) (Deserializer.uint 2) 513
two_bytes = RoundTrips-uint 2 513 (omega arith)

deserialize-serialize_example :
    (out : List ℕ) × (serialize 9 (Serializer.uint 2 513) (replicate 42 0) ≡ ok (42, out))
    × (length out ≡ 42)
    × (deserialize (Deserializer.uint 2) out ≡ ok 513)
unfolding to_le_bytes RoundTrips-uint
deserialize-serialize_example =
    deserialize-serialize two_bytes 9 (omega arith) (replicate 42 0) (omega arith) (omega arith)

serialize_no_room_example : serialize 9 (Serializer.uint 2 513) (replicate 41 0) ≡ err buffer_full
unfolding to_le_bytes RoundTrips-uint
serialize_no_room_example =
    serialize_no_room two_bytes 9 (omega arith) (replicate 41 0) (omega arith)

-- An interface with a name of 17 bytes, one of them zero.
abbrev long_name : Nic
long_name = record {
  addr = v4 (127 ∷ 0 ∷ 0 ∷ 1 ∷ []);
  name = replicate 3 0x61 ++ (0 ∷ replicate 13 0x62);
  nic_type = NicType.tcp;
}

abbrev long_name_received : Nic
long_name_received = record long_name { name = replicate 3 0x61 ++ replicate 11 0x62 }

nic_received_example : RoundTrips (nic.serialize long_name) nic.deserialize long_name_received
unfolding retain_nonzero
nic_received_example =
    nic_received long_name (refl, (omega arith, (omega arith, (omega arith, (omega arith, tt)))))
