-- ===== src/Message/Nics.antt =====
-- `Nic` (shared/src/bee_msg/node.rs), which is (de)serialized by hand. An address is its octets.
pub mod Sound
use beegfs_rust.Prelude.{ℕ, ◌-◌, ◌==◌, if◌then◌else◌, List, [], ◌∷◌, length, take}
use beegfs_rust.Result.{invalid_value}
use beegfs_rust.Types.{NicType, nic_type}
use beegfs_rust.Serde.Words.{to_le_bytes, from_le_bytes}
use beegfs_rust.Serde.Serializer.{Ser, ◌⨾◌, done}
use beegfs_rust.Serde.Serializer
use beegfs_rust.Serde.Deserializer.{Des, ◌>>=◌, ◌>>◌, pure, fail}
use beegfs_rust.Serde.Deserializer
use beegfs_rust.Serde.Format.{Format, put, get, u8, u32, uint, int}

pub data IpAddr : Type 0 where
  v4 v6 : List ℕ → IpAddr

pub record Nic : Type 0 where
  pub addr : IpAddr
  pub name : List ℕ
  pub nic_type : NicType

-- The protocol number and the address.
unfoldable pub put_addr : IpAddr → Ser
put_addr (v4 octets) = put u8 4 ⨾ put u32 (from_le_bytes octets)
put_addr (v6 octets) = put u8 6 ⨾ put (uint 16) (from_le_bytes octets)

unfoldable pub get_addr : ℕ → Des IpAddr
get_addr protocol =
    if protocol == 4
    then (do n ← get u32; pure (v4 (to_le_bytes 4 n)))
    else if protocol == 6
    then (do n ← get (uint 16); pure (v6 (to_le_bytes 16 n)))
    else fail invalid_value

-- `name.retain(|b| b != &0)`
unfoldable pub retain_nonzero : List ℕ → List ℕ
retain_nonzero [] = []
retain_nonzero (b ∷ bs) = if b == 0 then retain_nonzero bs else b ∷ retain_nonzero bs

-- Cut off after 15 bytes.
abbrev pub cut : List ℕ → List ℕ
cut name = take 15 name

unfoldable pub nic : Format Nic
unfolding put_addr get_addr
nic = record {
  serialize = λ m.
      put_addr m.addr
      ⨾ Serializer.bytes (cut m.name)
      ⨾ Serializer.zeroes (16 - length (cut m.name))
      ⨾ put (int 1 nic_type) m.nic_type
      ⨾ Serializer.zeroes 2
      ⨾ done;
  deserialize = (do
    protocol ← get u8
    addr ← get_addr protocol
    name ← Deserializer.bytes 15
    _ ← get u8
    kind ← get (int 1 nic_type)
    Deserializer.skip 2
    pure (record { addr = addr; name = retain_nonzero name; nic_type = kind }));
}
