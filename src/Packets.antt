-- ===== src/Packets.antt =====
-- `Packets` of apps/ibc-attestor/src/lib.rs: a batch of packets, decoded as a whole.
use ibc_attestor.Common.{
  ℕ, Bool, List, map, Result, Bytes, collect, map_err, map_ok, length, is_empty as is_nil,
}
use ibc_attestor.Crates.{Crates, Packet}
use ibc_attestor.Error.{AttestorError, abi_error}

pub record Packets : Type 0 where
  pub packets : List Packet

unfoldable pub try_from_abi_encoded : Crates → List Bytes → Result AttestorError Packets
try_from_abi_encoded c encoded =
    map_ok (λ packets. record { packets = packets })
      (collect (map (λ p. map_err abi_error (c.abi_decode p)) encoded))

abbrev pub len : Packets → ℕ
len self = length self.packets

abbrev pub is_empty : Packets → Bool
is_empty self = is_nil self.packets

-- Both `into_iter` and `iter`, as the list of what they yield.
abbrev pub into_iter : Packets → List Packet
into_iter self = self.packets
