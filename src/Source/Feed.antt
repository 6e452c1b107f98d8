-- ===== src/Source/Feed.antt =====
-- `FeedPackets` of src/packet_source.hh over a `FileSource` and any sink.
use mirakc_arib.Prelude.{
  ℕ, zero, suc, ◌<◌, ◌≡◌, refl, ap, true, false, Option, none, some, List, [], ◌∷◌, ◌++◌, length,
  get_elem?, length-append, All, if◌then◌else◌, ◌⊎◌, inl, inr, Bool-cases, Returns, Returns-bind,
  Returns-map, arith,
}
use mirakc_arib.Sink.{PacketSink, exit_failure}
use mirakc_arib.Source.{pkt_size, sync_byte, FileSource, feed_loop, feed_packets}
use mirakc_arib.Source.Resync.{ReadLaw, IsValid}
use mirakc_arib.Source.Sync.{stream, Delivers, get_next_packet_stream}

-- 188 bytes that start with the sync byte.
abbrev pub IsPacket : List ℕ → Type 0
IsPacket p = (length p ≡ pkt_size) × (get_elem? p 0 ≡ some sync_byte)

module _ {F S : Type 0} (read : F → ℕ → F × List ℕ) (rest : F → List ℕ) (law : ReadLaw read rest)
    (sink : PacketSink S (List ℕ)) where
  -- A sink that is handed packets until it refuses one.
  pub hand : S → List (List ℕ) → S
  hand t [] = t
  hand t (p ∷ ps) =
      let (t', ok) = sink.handle_packet t p in let rest = hand t' ps in if ok then rest else t'

  -- The sink was handed some packets.
  abbrev pub Handed : S → S → Type 0
  Handed t t' = (ps : List (List ℕ)) × (t' ≡ hand t ps) × All IsPacket ps

  feed_loop_lem :
      (fuel : ℕ) (s : FileSource F) (t : S)
      → IsValid s
      → length (stream read rest law s) < fuel
      → Returns (Handed t) (feed_loop read sink fuel s t)
  unfolding feed_loop hand
  feed_loop_lem zero s t v f = absurd (omega arith)
  feed_loop_lem (suc fuel) s t v f =
      Returns-bind (Delivers read rest law s) (Handed t) _ _
        (get_next_packet_stream read rest law s v) λ r d. step (feed_loop_lem fuel) r.0 r.1 d
    where
      step :
          ((w : FileSource F) (t' : S)
            → IsValid w
            → length (stream read rest law w) < fuel
            → Returns (Handed t') (feed_loop read sink fuel w t'))
          → (u : FileSource F) (packet : Option (List ℕ)) → Delivers read rest law s (u, packet)
          → Returns (Handed t) (elim packet [
            | none ↦ some t
            | some p ↦
                if (sink.handle_packet t p).1
                then feed_loop read sink fuel u (sink.handle_packet t p).0
                else some (sink.handle_packet t p).0
          ])
      step ih u none d = ([], refl, tt)
      step ih u (some p) (dropped, e, few, whole, sync, valid) =
          let t' = (sink.handle_packet t p).0 in
          let shrinks : length (stream read rest law u) < fuel = omega (
            arith,
            ap length e,
            length-append (dropped ++ p) (stream read rest law u),
            length-append dropped p,
          ) in
          elim (Bool-cases (sink.handle_packet t p).1) [
            | inl ok ↦ rw ok (
                Returns-map (Handed t') (Handed t) _ (ih u t' valid shrinks)
                  λ t'' (ps, fed, each). (p ∷ ps, rw ok fed, ((whole, sync), each)))
            | inr stop ↦ rw stop (p ∷ [], rw stop refl, ((whole, sync), tt))
          ]

  -- From a valid source `FeedPackets` ends, with fuel above the number of bytes to come. A sink that
  -- does not start gives `EXIT_FAILURE` and is handed nothing. Otherwise the sink is handed packets
  -- of 188 bytes with the sync byte in front, none after the first that it refuses, then it is
  -- ended, and its exit code is the result.
  pub feed_packets_lem :
      (fuel : ℕ) (s : FileSource F) (t : S)
      → IsValid s
      → length (stream read rest law s) < fuel
      → let (started, ok) = sink.start t in
        Returns
          (λ r.
            ((ok ≡ false) × (r ≡ (started, exit_failure)))
            ⊎ ((ok ≡ true)
                × ((ps : List (List ℕ)) × (r.0 ≡ sink.end_ (hand started ps))
                    × (r.1 ≡ sink.exit_code r.0)
                    × All IsPacket ps)))
          (feed_packets read sink fuel s t)
  unfolding feed_packets
  feed_packets_lem fuel s t v f = elim (Bool-cases (sink.start t).1) [
    | inr failed ↦ rw failed (inl (refl, refl))
    | inl ok ↦ rw ok (
        Returns-bind (Handed (sink.start t).0) _ _ _ (feed_loop_lem fuel s (sink.start t).0 v f)
          λ t' handed. inr (refl, (handed.0, ap sink.end_ handed.1, refl, handed.2)))
  ]
