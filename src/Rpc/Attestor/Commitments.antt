-- ===== src/Rpc/Attestor/Commitments.antt =====
-- What the service attests of one packet, and why it refuses to.
use ibc_attestor.Common.{
  ℕ, ◌≡◌, ◌≢◌, refl, sym, ◌⊎◌, inl, inr, String, Option, none, some, List, Result, ok, err, Bytes,
  map_err, eq_bytes, eq_bytes→eq, eq_bytes→ne, replicate, Bool-cases,
}
use ibc_attestor.Adapter.{CommitmentType, packet, ack, receipt, AttestationAdapter}
use ibc_attestor.Crates.{Crates, Packet, PacketCompact}
use ibc_attestor.Error.{
  AttestorError, AttestationAdapterError, adapter_error, invalid_commitment, commitment_not_found,
}
use ibc_attestor.Future.{Future, fmap, ◌>>=◌}
use ibc_attestor.Future.Among.{Sub, RunsAmong, RunsAmong-Sub, RunsAmong-of_part}
use ibc_attestor.Future.Errors.{Run-map_err-ok, Run-map_err-err}
use ibc_attestor.Future.Runs.{Happening, Run, RunsIn-first, RunsIn-all, >>=-cases}
use ibc_attestor.Rpc.Attestor.{
  check_packet_commitment, check_ack_commitment, check_receipt_commitment,
  create_single_packet_attestation,
}

module _ (c : Crates) where
  -- The path of a kind of commitment, and the client whose store holds it.
  abbrev pub path_of : CommitmentType → Packet → Bytes
  path_of packet p = c.commitment_path p
  path_of ack p = c.ack_commitment_path p
  path_of receipt p = c.receipt_commitment_path p

  abbrev pub client_of : CommitmentType → Packet → String
  client_of packet p = p.source_client
  client_of ack p = p.dest_client
  client_of receipt p = p.dest_client

  -- The adapter's answer for a kind of commitment of a packet.
  abbrev pub lookup :
      AttestationAdapter
      → ℕ
      → CommitmentType
      → Packet
      → Future (Result AttestationAdapterError (Option Bytes))
  lookup adapter height kind p =
      adapter.get_commitment (client_of kind p) height p.sequence (path_of kind p) kind

  -- The commitment that a packet is attested with, by what was found on the chain.
  abbrev pub Proves : CommitmentType → Packet → Option Bytes → Bytes → Type 0
  Proves packet p found commitment =
      (found ≡ some commitment) × (commitment ≡ c.packet_commitment p)
  Proves ack p found commitment = found ≡ some commitment
  Proves receipt p found commitment = (found ≡ none) × (commitment ≡ replicate 32 0)

  -- What is found on the chain speaks against the packet, and the error for it.
  abbrev pub Disproves : ℕ → CommitmentType → Packet → Option Bytes → AttestorError → Type 0
  Disproves height packet p found e =
      ((found ≡ none) × (e ≡ commitment_not_found p.source_client p.sequence height))
      ⊎ ((v : Bytes) × (reason : String) × (found ≡ some v)
          × (v ≢ c.packet_commitment p)
          × (e ≡ invalid_commitment reason))
  Disproves height ack p found e =
      (found ≡ none) × (e ≡ commitment_not_found p.dest_client p.sequence height)
  Disproves height receipt p found e =
      (v : Bytes) × (reason : String) × (found ≡ some v) × (e ≡ invalid_commitment reason)

  -- How the attestation of one packet ends, where `Ends` says how the adapter's call does.
  abbrev pub Outcome :
      (Future (Result AttestationAdapterError (Option Bytes))
        → Result AttestationAdapterError (Option Bytes)
        → Type 0)
      → AttestationAdapter
      → ℕ
      → CommitmentType
      → Packet
      → Result AttestorError PacketCompact
      → Type 0
  Outcome Ends adapter height kind p (ok compact) =
      (found : Option Bytes) × Ends (lookup adapter height kind p) (ok found)
      × (compact.path ≡ c.keccak256 (path_of kind p))
      × Proves kind p found compact.commitment
  Outcome Ends adapter height kind p (err e) =
      ((d : AttestationAdapterError) × Ends (lookup adapter height kind p) (err d)
        × (e ≡ adapter_error d))
      ⊎ ((found : Option Bytes) × Ends (lookup adapter height kind p) (ok found)
          × Disproves height kind p found e)

  pub Outcome-Sub :
      (k h : List Happening)
      → Sub k h
      → (adapter : AttestationAdapter) (height : ℕ) (kind : CommitmentType) (p : Packet)
        (r : Result AttestorError PacketCompact)
      → Outcome (RunsAmong k) adapter height kind p r
      → Outcome (RunsAmong h) adapter height kind p r
  Outcome-Sub k h s adapter height kind p (ok compact) (found, asked, path, proved) =
      (found, RunsAmong-Sub (lookup adapter height kind p) (ok found) k h s asked, path, proved)
  Outcome-Sub k h s adapter height kind p (err e) (inl (d, asked, same)) =
      inl (d, RunsAmong-Sub (lookup adapter height kind p) (err d) k h s asked, same)
  Outcome-Sub k h s adapter height kind p (err e) (inr (found, asked, rest)) =
      inr (found, RunsAmong-Sub (lookup adapter height kind p) (ok found) k h s asked, rest)

  module _
      (Ends : Future (Result AttestationAdapterError (Option Bytes))
        → Result AttestationAdapterError (Option Bytes)
        → Type 0)
      (adapter : AttestationAdapter) (height : ℕ) (p : Packet) where
    check_packet-Outcome :
        (found : Option Bytes) (h : List Happening) (r : Result AttestorError PacketCompact)
        → Ends (lookup adapter height packet p) (ok found)
        → Run (check_packet_commitment c height p found) h r
        → Outcome Ends adapter height packet p r
    unfolding check_packet_commitment
    check_packet-Outcome none h r asked (l, j, (e, q)) =
        rw (← q) (inr (none, asked, inl (refl, refl)))
    check_packet-Outcome (some v) h r asked run =
        elim (Bool-cases (eq_bytes (c.packet_commitment p) v)) [
          | inl same ↦
              let (e, q) = rw same at run in
              rw (← q)
                (some v, asked, refl, (refl, sym (eq_bytes→eq (c.packet_commitment p) v same)))
          | inr other ↦
              let (l, j, (e, q)) = rw other at run in
              rw (← q) (
                inr (
                  some v,
                  asked,
                  inr (v, _, refl, eq_bytes→ne (c.packet_commitment p) v other, refl),
                ))
        ]

    check_ack-Outcome :
        (found : Option Bytes) (h : List Happening) (r : Result AttestorError PacketCompact)
        → Ends (lookup adapter height ack p) (ok found)
        → Run (check_ack_commitment c height p found) h r
        → Outcome Ends adapter height ack p r
    unfolding check_ack_commitment
    check_ack-Outcome none h r asked (l, j, (e, q)) = rw (← q) (inr (none, asked, (refl, refl)))
    check_ack-Outcome (some v) h r asked (e, q) = rw (← q) (some v, asked, refl, refl)

    check_receipt-Outcome :
        (found : Option Bytes) (h : List Happening) (r : Result AttestorError PacketCompact)
        → Ends (lookup adapter height receipt p) (ok found)
        → Run (check_receipt_commitment c p found) h r
        → Outcome Ends adapter height receipt p r
    unfolding check_receipt_commitment
    check_receipt-Outcome none h r asked (e, q) = rw (← q) (none, asked, refl, (refl, refl))
    check_receipt-Outcome (some v) h r asked (l, j, (e, q)) =
        rw (← q) (inr (some v, asked, (v, _, refl, refl)))

  module _ (adapter : AttestationAdapter) (height : ℕ) (p : Packet) where
    -- A handler's run is the adapter's and then the check's.
    asked-Outcome :
        (kind : CommitmentType) (check : Option Bytes → Future (Result AttestorError PacketCompact))
        (h : List Happening)
        → ((found : Option Bytes) (k : List Happening) (r : Result AttestorError PacketCompact)
            → RunsAmong h (lookup adapter height kind p) (ok found)
            → Run (check found) k r
            → Outcome (RunsAmong h) adapter height kind p r)
        → (r : Result AttestorError PacketCompact)
        → Run (fmap (map_err adapter_error) (lookup adapter height kind p) >>= check) h r
        → Outcome (RunsAmong h) adapter height kind p r
    asked-Outcome kind check h checked r run =
        let asked = lookup adapter height kind p in
        elim (>>=-cases (fmap (map_err adapter_error) asked) check h r run) [
          | inl (e, (k, failed, w), refused) ↦
              let (d, q, same) = Run-map_err-err adapter_error asked k e failed in
              rw refused (inl (d, RunsAmong-of_part asked (err d) h (k, q, w), sym same))
          | inr s ↦
              checked s.value s.second r
                (RunsAmong-of_part asked (ok s.value) h (
                  RunsIn-first asked (ok s.value) h s.first s.second s.joined (
                    RunsIn-all asked (ok s.value) s.first
                      (Run-map_err-ok adapter_error asked s.first s.value s.before))))
                s.after
        ]

    -- The attestation of one packet, for each kind. It succeeds with the hashed path and a commitment
    -- that the adapter's answer proves: the packet's own one, which is on the chain, for a packet;
    -- the one on the chain for an acknowledgement; zero bytes, with nothing on the chain, for a
    -- receipt. The adapter answered in the same run. It fails with the adapter's error; as not found, where a packet's or an
    -- acknowledgement's commitment is not on the chain; and as invalid, where a packet's is another,
    -- or where a receipt's is there.
    pub create_single_packet_attestation-Outcome :
        (kind : CommitmentType) (h : List Happening) (r : Result AttestorError PacketCompact)
        → Run (create_single_packet_attestation c adapter height p kind) h r
        → Outcome (RunsAmong h) adapter height kind p r
    unfolding create_single_packet_attestation
    create_single_packet_attestation-Outcome packet h r run =
        asked-Outcome packet (check_packet_commitment c height p) h
          (check_packet-Outcome (RunsAmong h) adapter height p) r run
    create_single_packet_attestation-Outcome ack h r run =
        asked-Outcome ack (check_ack_commitment c height p) h
          (check_ack-Outcome (RunsAmong h) adapter height p) r run
    create_single_packet_attestation-Outcome receipt h r run =
        asked-Outcome receipt (check_receipt_commitment c p) h
          (check_receipt-Outcome (RunsAmong h) adapter height p) r run
