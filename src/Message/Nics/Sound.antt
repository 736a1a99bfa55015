-- ===== src/Message/Nics/Sound.antt =====
-- A network interface comes back, its name cut to 15 bytes and rid of zero bytes.
use native.Mathlib.Nat.{pow-suc}
use beegfs_rust.Prelude.{
  ℕ, zero, suc, ◌+◌, ◌-◌, ◌*◌, ◌/◌, ◌%◌, ◌^◌, ◌<◌, ◌≤◌, ◌≡◌, subst, refl, ap, ◌∙◌, sym, List, [],
  ◌∷◌, ◌++◌, length, take, replicate, All, All-imp, Bool, arith, append_assoc, append-nil,
  length-append, length-replicate,
}
use beegfs_rust.Types.{NicType, nic_type}
use beegfs_rust.Types.Laws.{nic_type-IsWireEnum}
use beegfs_rust.Serde.Words.{to_le_bytes, from_le_bytes, length-to_le_bytes}
use beegfs_rust.Serde.Deserializer.{◌>>=◌}
use beegfs_rust.Serde.Deserializer
use beegfs_rust.Serde.Format.{uint, int, seq}
use beegfs_rust.Serde.Format.Sound.{Sound, SoundWithin, Reads-int, SoundWithin, Sound-seq}
use beegfs_rust.Serde.Writes.{
  Writes, Writes-⨾, Writes-done, Writes-uint, Writes-bytes, Writes-zeroes,
}
use beegfs_rust.Serde.Reads.{
  Reads, Reads-bind, Reads-pure, Reads-uint, Reads-bytes, Reads-skip, Reads-map,
}
use beegfs_rust.Serde.RoundTrip.{RoundTrips}
use beegfs_rust.Message.Nics.{IpAddr, v4, v6, Nic, put_addr, get_addr, retain_nonzero, cut, nic}

from_le_bytes-lt : (bs : List ℕ) → All (λ b. b < 256) bs → from_le_bytes bs < 256 ^ length bs
unfolding from_le_bytes
from_le_bytes-lt [] h = omega arith
from_le_bytes-lt (b ∷ bs) h = omega (arith, h.0, pow-suc 256 (length bs), from_le_bytes-lt bs h.1)

to_le_bytes-from_le_bytes :
    (bs : List ℕ) → All (λ b. b < 256) bs → to_le_bytes (length bs) (from_le_bytes bs) ≡ bs
unfolding to_le_bytes from_le_bytes
to_le_bytes-from_le_bytes [] h = refl
to_le_bytes-from_le_bytes (b ∷ bs) h = ground (arith, low, high, to_le_bytes-from_le_bytes bs h.1)
  where
    low : (b + 256 * from_le_bytes bs) % 256 ≡ b
    low = omega (arith, h.0)

    high : (b + 256 * from_le_bytes bs) / 256 ≡ from_le_bytes bs
    high = omega (arith, h.0)

-- The octets are bytes, as many as the protocol has.
abbrev pub AddrFits : IpAddr → Type 0
AddrFits (v4 octets) = (length octets ≡ 4) × All (λ b. b < 256) octets
AddrFits (v6 octets) = (length octets ≡ 16) × All (λ b. b < 256) octets

abbrev protocol : IpAddr → ℕ
protocol (v4 octets) = 4
protocol (v6 octets) = 6

abbrev addr_wire : IpAddr → List ℕ
addr_wire (v4 octets) = to_le_bytes 4 (from_le_bytes octets)
addr_wire (v6 octets) = to_le_bytes 16 (from_le_bytes octets)

Writes-addr : (a : IpAddr) → Writes (put_addr a) (to_le_bytes 1 (protocol a) ++ addr_wire a)
unfolding put_addr uint
Writes-addr (v4 octets) = Writes-⨾ (Writes-uint 1 4) (Writes-uint 4 (from_le_bytes octets))
Writes-addr (v6 octets) = Writes-⨾ (Writes-uint 1 6) (Writes-uint 16 (from_le_bytes octets))

octets_back :
    (k : ℕ) (octets : List ℕ)
    → length octets ≡ k
    → All (λ b. b < 256) octets
    → (from_le_bytes octets < 256 ^ k) × (to_le_bytes k (from_le_bytes octets) ≡ octets)
octets_back k octets e h = rw (← e) (from_le_bytes-lt octets h, to_le_bytes-from_le_bytes octets h)

Reads-addr : (a : IpAddr) → AddrFits a → Reads (get_addr (protocol a)) (addr_wire a) a
unfolding get_addr uint
Reads-addr (v4 octets) h =
    let (small, back) = octets_back 4 octets h.0 h.1 in
    subst (λ o. Reads (get_addr 4) (to_le_bytes 4 (from_le_bytes octets)) (v4 o)) back
      (Reads-map (λ n. v4 (to_le_bytes 4 n)) (Reads-uint 4 (from_le_bytes octets) small))
Reads-addr (v6 octets) h =
    let (small, back) = octets_back 16 octets h.0 h.1 in
    subst (λ o. Reads (get_addr 6) (to_le_bytes 16 (from_le_bytes octets)) (v6 o)) back
      (Reads-map (λ n. v6 (to_le_bytes 16 n)) (Reads-uint 16 (from_le_bytes octets) small))

retain_zeroes : (n : ℕ) → retain_nonzero (replicate n 0) ≡ []
unfolding retain_nonzero
retain_zeroes zero = refl
retain_zeroes (suc n) = retain_zeroes n

retain-append :
    (xs ys : List ℕ) → retain_nonzero (xs ++ ys) ≡ retain_nonzero xs ++ retain_nonzero ys
unfolding retain_nonzero
retain-append [] ys = refl
retain-append (x ∷ xs) ys = ground (arith, retain-append xs ys)

replicate_snoc : (n a : ℕ) → replicate (suc n) a ≡ replicate n a ++ (a ∷ [])
replicate_snoc zero a = refl
replicate_snoc (suc n) a = ap (λ t. a ∷ t) (replicate_snoc n a)

length-take_le : (n : ℕ) (xs : List ℕ) → length (take n xs) ≤ n
length-take_le zero xs = omega arith
length-take_le (suc n) [] = omega arith
length-take_le (suc n) (x ∷ xs) = omega (arith, length-take_le n xs)

-- The 15 bytes that are read as the name, of a name that is cut to `c`.
abbrev name_field : List ℕ → List ℕ
name_field c = c ++ replicate (15 - length c) 0

name_field_zero :
    (c : List ℕ) → length c ≤ 15 → c ++ replicate (16 - length c) 0 ≡ name_field c ++ (0 ∷ [])
name_field_zero c h =
    let e : 16 - length c ≡ suc (15 - length c) = omega arith in
    rw (e, replicate_snoc (15 - length c) 0, append_assoc c (replicate (15 - length c) 0) (0 ∷ []))

length-name_field : (c : List ℕ) → length c ≤ 15 → length (name_field c) ≡ 15
length-name_field c h = omega (
  arith,
  length-append c (replicate (15 - length c) 0),
  length-replicate {A = ℕ} (15 - length c) 0,
)

retain-name_field : (c : List ℕ) → retain_nonzero (name_field c) ≡ retain_nonzero c
retain-name_field c =
    retain-append c (replicate (15 - length c) 0)
    ∙ ap (λ t. retain_nonzero c ++ t) (retain_zeroes (15 - length c))
    ∙ append-nil (retain_nonzero c)

Reads-name :
    (c : List ℕ) → length c ≤ 15 → Reads (Deserializer.bytes 15) (name_field c) (name_field c)
Reads-name c h =
    subst (λ n. Reads (Deserializer.bytes n) (name_field c) (name_field c)) (length-name_field c h)
      (Reads-bytes (name_field c))

-- What is behind the name.
abbrev kind_wire : NicType → List ℕ
kind_wire t = to_le_bytes 1 (nic_type.into_bee_serde t) ++ (replicate 2 0 ++ [])

abbrev wire_of : Nic → List ℕ
wire_of m =
    (to_le_bytes 1 (protocol m.addr) ++ addr_wire m.addr)
    ++ (cut m.name ++ (replicate (16 - length (cut m.name)) 0 ++ kind_wire m.nic_type))

-- What comes back: the name is cut to 15 bytes and loses its zero bytes.
abbrev pub received : Nic → Nic
received m = record m { name = retain_nonzero (cut m.name) }

Writes-nic : (m : Nic) → Writes (nic.serialize m) (wire_of m)
unfolding nic int
Writes-nic m = Writes-⨾ (Writes-addr m.addr) (
    Writes-⨾ (Writes-bytes (cut m.name)) (
      Writes-⨾ (Writes-zeroes (16 - length (cut m.name))) (
        Writes-⨾ (Writes-uint 1 (nic_type.into_bee_serde m.nic_type))
          (Writes-⨾ (Writes-zeroes 2) Writes-done))))

-- The same bytes, grouped as they are read.
regroup :
    (m : Nic) (c : List ℕ)
    → length c ≤ 15
    → to_le_bytes 1 (protocol m.addr)
        ++ (addr_wire m.addr ++ (name_field c ++ (to_le_bytes 1 0 ++ kind_wire m.nic_type)))
      ≡ (to_le_bytes 1 (protocol m.addr) ++ addr_wire m.addr)
        ++ (c ++ (replicate (16 - length c) 0 ++ kind_wire m.nic_type))
unfolding to_le_bytes
regroup m c h =
    let pad = replicate {A = ℕ} (16 - length c) 0 in
    let back = append_assoc (name_field c) (0 ∷ []) (kind_wire m.nic_type) in
    ap (λ t. to_le_bytes 1 (protocol m.addr) ++ (addr_wire m.addr ++ t))
      (sym back
        ∙ ap (λ t. t ++ kind_wire m.nic_type) (sym (name_field_zero c h))
        ∙ append_assoc c pad (kind_wire m.nic_type))
    ∙ sym (append_assoc (to_le_bytes 1 (protocol m.addr)) (addr_wire m.addr) _)

protocol_fits : (a : IpAddr) → protocol a < 256 ^ 1
protocol_fits (v4 o) = omega arith
protocol_fits (v6 o) = omega arith

Reads-nic : (m : Nic) → AddrFits m.addr → Reads nic.deserialize (wire_of m) (received m)
unfolding nic uint
Reads-nic m h =
    let short = length-take_le 15 m.name in
    subst (λ w. Reads nic.deserialize w (received m)) (regroup m (cut m.name) short)
      (Reads-bind _ (Reads-uint 1 (protocol m.addr) (protocol_fits m.addr)) (
        Reads-bind _ (Reads-addr m.addr h) (
          Reads-bind _ (Reads-name (cut m.name) short) (
            Reads-bind _ (Reads-uint 1 0 (omega arith)) (
              Reads-bind _
                (Reads-int 1 nic_type nic_type-IsWireEnum m.nic_type
                  (omega (arith, nic_type-IsWireEnum.one_byte m.nic_type)))
                (Reads-bind _ (Reads-skip 2 (replicate 2 0) refl)
                  (rw (retain-name_field (cut m.name)) (Reads-pure (received m)))))))))

-- Whatever its name, an interface with a valid address is received with its address, its type, and the
-- first 15 bytes of its name without the zero bytes among them.
pub nic_received :
    (m : Nic) → AddrFits m.addr → RoundTrips (nic.serialize m) nic.deserialize (received m)
nic_received m h = record { wire = wire_of m; writes = Writes-nic m; reads = Reads-nic m h }

-- A name that is received unchanged: at most 15 bytes, none of them zero.
pub record NicFits (m : Nic) : Type 0 where
  pub addr : AddrFits m.addr
  pub kept : retain_nonzero (cut m.name) ≡ m.name

length-addr_wire : (a : IpAddr) → length (addr_wire a) ≤ 16
length-addr_wire (v4 o) = omega (arith, length-to_le_bytes 4 (from_le_bytes o))
length-addr_wire (v6 o) = omega (arith, length-to_le_bytes 16 (from_le_bytes o))

length-wire_of : (m : Nic) → length (wire_of m) ≤ 36
length-wire_of m =
    let c = cut m.name in
    let pad = replicate {A = ℕ} (16 - length c) 0 in
    omega (
      arith,
      length-append (to_le_bytes 1 (protocol m.addr) ++ addr_wire m.addr)
          (c ++ (pad ++ kind_wire m.nic_type)),
      length-append (to_le_bytes 1 (protocol m.addr)) (addr_wire m.addr),
      length-append c (pad ++ kind_wire m.nic_type),
      length-append pad (kind_wire m.nic_type),
      length-append (to_le_bytes 1 (nic_type.into_bee_serde m.nic_type)) (replicate 2 0 ++ []),
      length-to_le_bytes 1 (protocol m.addr),
      length-to_le_bytes 1 (nic_type.into_bee_serde m.nic_type),
      length-replicate {A = ℕ} (16 - length c) 0,
      length-take_le 15 m.name,
      length-addr_wire m.addr,
    )

pub nic-SoundWithin : (m : Nic) → NicFits m → SoundWithin nic 36 m
nic-SoundWithin m h = (
  record {
    wire = wire_of m;
    writes = Writes-nic m;
    reads = subst (Reads nic.deserialize (wire_of m)) same (Reads-nic m h.addr);
  },
  length-wire_of m,
)
  where
    same : received m ≡ m
    same = ap (λ (n : List ℕ). record m { name = n }) h.kept

-- A list of such interfaces, whose size fits the format.
pub record NicsFit (ms : List Nic) : Type 0 where
  pub each : All NicFits ms
  pub count : length ms < 2 ^ 32
  pub size : length ms * 36 + 8 < 2 ^ 32

pub nics-Sound : (sized : Bool) (ms : List Nic) → NicsFit ms → Sound (seq sized nic) ms
nics-Sound sized ms h =
    Sound-seq sized nic 36 ms
      (record { each = All-imp nic-SoundWithin ms h.each; count = h.count; size = h.size })
