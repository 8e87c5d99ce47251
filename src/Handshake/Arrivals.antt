-- ===== src/Handshake/Arrivals.antt =====
-- packet.c and job.c: the hashes that a packet lists when it arrives.
use project_2_congest.Base.{
  ℕ, zero, suc, ◌+◌, ◌-◌, ◌≤◌, ◌≡◌, refl, ap, ap₂, ◌∙◌, List, [], ◌∷◌, ◌++◌, take, length, arith,
}
use project_2_congest.Base.Memory.{slice-take}
use project_2_congest.Packet.{
  Header, Packet, Target, make_header, send_packet, header_size, hash_size, max_payload_length,
}
use project_2_congest.Job.{list_packet_length}
use project_2_congest.Job.Payload.{
  hash_place, hash_at, first_byte, count_at, count_at_same, read_hashes, listed_hashes,
}
use project_2_congest.Job.Whohas.{IsHashList}
use project_2_congest.Transfer.Arrival.{arrive}

module _ (payload stale : List ℕ) (m : ℕ) (room : m ≤ length payload) where
  first_byte-take : 1 ≤ m → first_byte (take m payload ++ stale) ≡ first_byte payload
  first_byte-take h = go payload m h room
    where
      go :
          (xs : List ℕ) (n : ℕ)
          → 1 ≤ n
          → n ≤ length xs
          → first_byte (take n xs ++ stale) ≡ first_byte xs
      go xs zero h k = absurd (omega arith)
      go [] (suc n) h k = absurd (omega arith)
      go (x ∷ xs) (suc n) h k = refl

  read_hashes-take :
      (n i : ℕ)
      → hash_place (i + n) ≤ m
      → read_hashes n i (take m payload ++ stale) ≡ read_hashes n i payload
  unfolding read_hashes hash_at
  read_hashes-take zero i h = refl
  read_hashes-take (suc n) i h =
      ap₂ (λ (x : List ℕ) (xs : List (List ℕ)). x ∷ xs)
        (slice-take payload stale (hash_place i) hash_size m (omega arith) room)
        (read_hashes-take n (suc i) (omega arith))

  -- The hashes of a payload that is cut behind them, and that other bytes follow.
  listed_hashes-take :
      hash_place (count_at payload) ≤ m
      → listed_hashes (take m payload ++ stale) ≡ listed_hashes payload
  unfolding listed_hashes
  listed_hashes-take h =
      let same = count_at_same (take m payload ++ stale) payload (first_byte-take (omega arith)) in
      ap (λ (n : ℕ). read_hashes n 0 (take m payload ++ stale)) same
      ∙ read_hashes-take (count_at payload) 0 (omega arith)

packet_length_lem :
    (packet_type n : ℕ)
    → list_packet_length n ≤ 1500
    → (make_header packet_type (list_packet_length n) 0 0).packet_length ≡ list_packet_length n
unfolding make_header
packet_length_lem packet_type n h = omega (arith, h)

-- A packet that lists hashes arrives with them.
pub listed-arrives :
    (packet_type : ℕ) (p : Packet) (to : Target) (stale : List ℕ)
    → IsHashList packet_type p
    → length p.payload ≡ max_payload_length
    → listed_hashes (arrive (send_packet p to) stale).payload ≡ listed_hashes p.payload
unfolding arrive send_packet
listed-arrives packet_type p to stale w size =
    let n = count_at p.payload in
    let len : p.header.packet_length ≡ list_packet_length n =
      ap (λ (h : Header). h.packet_length) w.header_says ∙ packet_length_lem packet_type n w.fits in
    listed_hashes-take p.payload stale (p.header.packet_length - header_size)
      (omega (arith, len, size, w.fits)) (omega (arith, len))
