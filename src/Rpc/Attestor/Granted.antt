-- ===== src/Rpc/Attestor/Granted.antt =====
-- When the service does attest: what the adapter and the signer must be able to return.
use ibc_attestor.Common.{
  ℕ, ◌≤◌, ◌≡◌, refl, inl, inr, true, [], Option, ok, Bytes, ap, sym, Result, map_err, Bool-cases,
  ltb, ltb→lt, arith, eq_bytes, eq_bytes_refl, List, map, map_ok, collect, All₂,
}
use ibc_attestor.Adapter.{CommitmentType, packet, ack, receipt, AttestationAdapter}
use ibc_attestor.Common.Collected.{collect-map, All₂-maps, All₂-mono}
use ibc_attestor.Packets.{Packets}
use ibc_attestor.Rpc.Attestor.{
  create_packets_attestation, compare_height, validate_height, check_packet_commitment,
  check_ack_commitment, check_receipt_commitment, handle_packet_commitment, handle_ack_commitment,
  handle_receipt_commitment, create_single_packet_attestation,
}
use ibc_attestor.Crates.{CollectLaws, Crates, Packet, PacketCompact, PacketAttestation}
use ibc_attestor.Error.{AttestorError, adapter_error}
use ibc_attestor.Future.{Future, fmap, ◌>>=◌}
use ibc_attestor.Future.Runs.{Returns, fmap-Returns, >>=-Returns}
use ibc_attestor.Rpc.Attestor.Commitments.{lookup, Proves, Outcome}

-- A height that is not beyond a finalized one, which the adapter can return, can pass.
pub validate_height-granted :
    (adapter : AttestationAdapter) (height finalized : ℕ)
    → Returns adapter.get_last_height_at_configured_finality (ok finalized)
    → height ≤ finalized
    → Returns (validate_height adapter height) (ok tt)
unfolding validate_height compare_height
validate_height-granted adapter height finalized asked within =
    >>=-Returns (fmap (map_err adapter_error) adapter.get_last_height_at_configured_finality)
      (compare_height height) finalized (ok tt)
      (fmap-Returns (map_err adapter_error) adapter.get_last_height_at_configured_finality
        (ok finalized) asked)
      (elim (Bool-cases (ltb finalized height)) [
        | inl beyond ↦ absurd (omega (arith, ltb→lt finalized height beyond))
        | inr passed ↦ rw passed (_, (_, refl, (refl, refl)))
      ])

-- An entry, with its path written out.
renamed :
    (compact : PacketCompact) {path : Bytes}
    → compact.path ≡ path
    → ◌≡◌ {A = Result AttestorError PacketCompact}
        (ok (record { path = path; commitment = compact.commitment }))
        (ok compact)
renamed compact path =
    ap (λ b. ok (record { path = b; commitment = compact.commitment })) (sym path)

module _ (c : Crates) (adapter : AttestationAdapter) (height : ℕ) (p : Packet) where
  -- The adapter's answer, and the check that passes on it.
  asked-granted :
      (kind : CommitmentType) (check : Option Bytes → Future (Result AttestorError PacketCompact))
      (found : Option Bytes) (compact : PacketCompact)
      → Returns (lookup c adapter height kind p) (ok found)
      → Returns (check found) (ok compact)
      → Returns
          (fmap (map_err adapter_error) (lookup c adapter height kind p) >>= check)
          (ok compact)
  asked-granted kind check found compact asked checked =
      let answer = lookup c adapter height kind p in
      >>=-Returns (fmap (map_err adapter_error) answer) check found (ok compact)
        (fmap-Returns (map_err adapter_error) answer (ok found) asked) checked

  check_packet-granted :
      (found : Option Bytes) (compact : PacketCompact)
      → compact.path ≡ c.keccak256 (c.commitment_path p)
      → Proves c packet p found compact.commitment
      → Returns (check_packet_commitment c height p found) (ok compact)
  unfolding check_packet_commitment
  check_packet-granted found compact path (there, same) =
      let pass : eq_bytes (c.packet_commitment p) compact.commitment ≡ true =
        rw same (eq_bytes_refl (c.packet_commitment p)) in
      rw there (rw pass ([], (refl, renamed compact path)))

  check_ack-granted :
      (found : Option Bytes) (compact : PacketCompact)
      → compact.path ≡ c.keccak256 (c.ack_commitment_path p)
      → Proves c ack p found compact.commitment
      → Returns (check_ack_commitment c height p found) (ok compact)
  unfolding check_ack_commitment
  check_ack-granted found compact path there = rw there ([], (refl, renamed compact path))

  check_receipt-granted :
      (found : Option Bytes) (compact : PacketCompact)
      → compact.path ≡ c.keccak256 (c.receipt_commitment_path p)
      → Proves c receipt p found compact.commitment
      → Returns (check_receipt_commitment c p found) (ok compact)
  unfolding check_receipt_commitment
  check_receipt-granted found compact path (there, zeros) =
      rw there ([], (refl, rw (← zeros) (renamed compact path)))

  -- The attestation of a packet can succeed with an entry whenever the adapter can return an answer
  -- that proves the entry's commitment, and the entry's path is the hashed one of the packet.
  pub create_single_packet_attestation-granted :
      (kind : CommitmentType) (compact : PacketCompact)
      → Outcome c Returns adapter height kind p (ok compact)
      → Returns (create_single_packet_attestation c adapter height p kind) (ok compact)
  unfolding create_single_packet_attestation handle_packet_commitment handle_ack_commitment
      handle_receipt_commitment
  create_single_packet_attestation-granted packet compact (found, asked, path, proved) =
      asked-granted packet (check_packet_commitment c height p) found compact asked
        (check_packet-granted found compact path proved)
  create_single_packet_attestation-granted ack compact (found, asked, path, proved) =
      asked-granted ack (check_ack_commitment c height p) found compact asked
        (check_ack-granted found compact path proved)
  create_single_packet_attestation-granted receipt compact (found, asked, path, proved) =
      asked-granted receipt (check_receipt_commitment c p) found compact asked
        (check_receipt-granted found compact path proved)

module _ (c : Crates) (laws : CollectLaws c) (adapter : AttestationAdapter) (packets : Packets)
    (height : ℕ) (kind : CommitmentType) where
  abbrev single : Packet → Future (Result AttestorError PacketCompact)
  single p = create_single_packet_attestation c adapter height p kind

  abbrev Attested : Packet → PacketCompact → Type 0
  Attested p compact = Outcome c Returns adapter height kind p (ok compact)

  -- A batch can be attested with a list of entries whenever each packet can be, with its own.
  pub create_packets_attestation-granted :
      (l : List PacketCompact)
      → All₂ (λ p compact. Outcome c Returns adapter height kind p (ok compact)) packets.packets l
      → Returns
          (create_packets_attestation c adapter packets height kind)
          (ok (record { height = height; packets = l }))
  unfolding create_packets_attestation
  create_packets_attestation-granted l entries =
      let each =
        All₂-mono Attested (λ p compact. Returns (single p) (ok compact))
          (λ p compact. create_single_packet_attestation-granted c adapter height p kind compact)
          packets.packets l entries in
      let collected =
        laws.Returns-collect_ordered (map single packets.packets) (map ok l)
          (All₂-maps single ok Returns packets.packets l each) in
      let whole =
        fmap-Returns
          (λ rs.
            map_ok {B = PacketAttestation} (λ l. record { height = height; packets = l })
              (collect rs))
          (c.collect_ordered (map single packets.packets)) (map ok l) collected in
      rw (collect-map {E = AttestorError} l) at whole
