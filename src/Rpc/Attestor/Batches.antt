-- ===== src/Rpc/Attestor/Batches.antt =====
-- A batch of packets is attested as a whole, in the order of the request, or not at all.
use ibc_attestor.Common.{
  ℕ, ◌≡◌, sym, ap, List, map, Result, ok, err, All₂, collect, map_ok, map_ok-eq-ok, map_ok-eq-err,
}
use ibc_attestor.Common.Collected.{collect-ok, collect-err, FirstError, All₂-map, All₂-mono}
use ibc_attestor.Adapter.{CommitmentType, AttestationAdapter}
use ibc_attestor.Crates.{Crates, Packet, PacketCompact, PacketAttestation, CollectLaws}
use ibc_attestor.Error.{AttestorError}
use ibc_attestor.Future.{Future}
use ibc_attestor.Future.Among.{RunsAmong}
use ibc_attestor.Future.Runs.{Happening, Run, Run-fmap}
use ibc_attestor.Packets.{Packets}
use ibc_attestor.Rpc.Attestor.{create_single_packet_attestation, create_packets_attestation}
use ibc_attestor.Rpc.Attestor.Commitments.{
  Outcome, Outcome-Sub, create_single_packet_attestation-Outcome,
}

module _ (c : Crates) (laws : CollectLaws c) (adapter : AttestationAdapter) (packets : Packets)
    (height : ℕ) (kind : CommitmentType) (h : List Happening) where
  abbrev single : Packet → Future (Result AttestorError PacketCompact)
  single p = create_single_packet_attestation c adapter height p kind

  -- What each future ends with, and what is made of that.
  validations :
      (r : Result AttestorError PacketAttestation)
      → Run (create_packets_attestation c adapter packets height kind) h r
      → (results : List (Result AttestorError PacketCompact)) × All₂
          (Outcome c (RunsAmong h) adapter height kind)
          packets.packets
          results
        × (map_ok (λ l. record { height = height; packets = l }) (collect results) ≡ r)
  unfolding create_packets_attestation
  validations r run =
      let (results, collected, e) =
        Run-fmap (λ rs. map_ok (λ l. record { height = height; packets = l }) (collect rs))
          (c.collect_ordered (map single packets.packets)) h r run in
      let returned =
        All₂-map single (RunsAmong h) packets.packets results
          (laws.collect_ordered-RunsAmong (map single packets.packets) h results collected) in
      let outcomes =
        All₂-mono (λ p v. RunsAmong h (single p) v) (Outcome c (RunsAmong h) adapter height kind)
          (λ p v (k, q, s).
            Outcome-Sub c k h s adapter height kind p v
              (create_single_packet_attestation-Outcome c adapter height p kind k v q))
          packets.packets results returned in
      (results, outcomes, e)

  -- An attestation of a batch has the requested height, and one entry for each packet, in the
  -- order of the packets, whatever the order in which the adapter's answers came: each with a
  -- commitment that the adapter's answer for that packet, in the same run, proves.
  pub create_packets_attestation-attested :
      (a : PacketAttestation)
      → Run (create_packets_attestation c adapter packets height kind) h (ok a)
      → (a.height ≡ height)
        × All₂
            (λ p compact. Outcome c (RunsAmong h) adapter height kind p (ok compact))
            packets.packets
            a.packets
  create_packets_attestation-attested a run =
      let (results, outcomes, e) = validations (ok a) run in
      let (l, collected, same) = map_ok-eq-ok _ (collect results) a e in
      (
        ap (λ x. x.height) (sym same),
        rw (← same) (
            collect-ok (Outcome c (RunsAmong h) adapter height kind) packets.packets results l
              outcomes collected),
      )

  -- A batch fails with the error of the first packet, in the order of the request, that is not
  -- attested: all the packets before it are.
  pub create_packets_attestation-FirstError :
      (e : AttestorError)
      → Run (create_packets_attestation c adapter packets height kind) h (err e)
      → FirstError (Outcome c (RunsAmong h) adapter height kind) packets.packets e
  create_packets_attestation-FirstError e run =
      let (results, outcomes, j) = validations (err e) run in
      collect-err (Outcome c (RunsAmong h) adapter height kind) packets.packets results e outcomes
        (map_ok-eq-err _ (collect results) e j)
