-- ===== src/Job/Whohas.antt =====
-- job.c: `malloc_all_whohas_packet` asks for every chunk that is not found, once and in order.
use project_2_congest.Base.{
  ℕ, zero, suc, ◌+◌, ◌*◌, ◌≤◌, ◌<◌, ◌≡◌, refl, sym, ap, ap₂, ◌∙◌, Option, none, some, List, [], ◌∷◌,
  ◌++◌, length, length-take, length-drop, take, drop, take-append-drop, Bool-cases, ◌⊎◌, inl, inr,
  ◌==◌, if◌then◌else◌, arith,
}
use project_2_congest.Packet.{
  Packet, max_hash_list_num, max_payload_length, max_packet_length, make_header, type_whohas,
}
use project_2_congest.Job.{
  Chunk, Job, is_not_found, count_not_found, next_hash, fill_hashes, whohas_hash_num, whohas_loop,
  whohas_packet_number, malloc_all_whohas_packet, list_packet_length,
}
use project_2_congest.Job.Payload.{
  listed_hashes, write_hash, write_hashes, count_at, set_count, AllHashes, Room,
  read_hashes-write_hashes, count_at-set_count, count_at-write_hashes, length-set_count,
}

-- The hashes of the chunks that are not found, in the order of the job.
unfoldable pub not_found_hashes : List Chunk → List (List ℕ)
not_found_hashes [] = []
not_found_hashes (c ∷ cs) =
    if is_not_found c.status then c.hash_binary ∷ not_found_hashes cs else not_found_hashes cs

pub count_not_found-eq-length :
    (cs : List Chunk) → count_not_found cs ≡ length (not_found_hashes cs)
unfolding count_not_found not_found_hashes
count_not_found-eq-length [] = refl
count_not_found-eq-length (c ∷ cs) = ground (arith, count_not_found-eq-length cs)

next_hash_lem :
    (j : ℕ) (cs : List Chunk) (payload : List ℕ) (h : List ℕ) (hs : List (List ℕ))
    → not_found_hashes cs ≡ h ∷ hs
    → ((next_hash j cs payload).0 ≡ write_hash payload j h)
      × (not_found_hashes (next_hash j cs payload).1 ≡ hs)
unfolding next_hash not_found_hashes
next_hash_lem j [] payload h hs e = cc
next_hash_lem j (c ∷ cs) payload h hs e = ground (arith, next_hash_lem j cs payload h hs)

-- Filling a packet writes the next hashes, and leaves the chunks behind them.
fill_hashes_lem :
    (n j : ℕ) (cs : List Chunk) (payload : List ℕ) (hs : List (List ℕ))
    → not_found_hashes cs ≡ hs
    → n ≤ length hs
    → ((fill_hashes n j cs payload).0 ≡ write_hashes j (take n hs) payload)
      × (not_found_hashes (fill_hashes n j cs payload).1 ≡ drop n hs)
unfolding fill_hashes write_hashes
fill_hashes_lem zero j cs payload hs e h = (refl, e)
fill_hashes_lem (suc n) j cs payload [] e h = absurd (omega arith)
fill_hashes_lem (suc n) j cs payload (x ∷ hs) e h =
    let one = next_hash_lem j cs payload x hs e in
    let rest =
      fill_hashes_lem n (suc j) (next_hash j cs payload).1 (next_hash j cs payload).0 hs one.1
        (omega arith) in
    (rest.0 ∙ ap (write_hashes (suc j) (take n hs)) one.0, rest.1)

-- A packet that lists hashes as its header says.
pub record IsHashList (packet_type : ℕ) (p : Packet) : Type 0 where
  pub some_hash : 1 ≤ count_at p.payload
  pub few_hashes : count_at p.payload ≤ max_hash_list_num
  pub header_says : p.header ≡ make_header packet_type (list_packet_length (count_at p.payload)) 0 0
  pub fits : list_packet_length (count_at p.payload) ≤ max_packet_length

abbrev pub AllPackets : List Packet → Type 0
AllPackets [] = Unit {0}
AllPackets (p ∷ ps) = IsHashList type_whohas p × AllPackets ps

-- The hashes of all the packets, in the order in which they are sent.
pub packets_hashes : List Packet → List (List ℕ)
packets_hashes [] = []
packets_hashes (p ∷ ps) = listed_hashes p.payload ++ packets_hashes ps

-- NULL is no packet.
abbrev pub made_packets : Option (List Packet) → List Packet
made_packets none = []
made_packets (some ps) = ps

empty_of_length : (hs : List (List ℕ)) → length hs ≡ 0 → hs ≡ []
empty_of_length [] e = refl
empty_of_length (h ∷ hs) e = absurd (omega arith)

AllHashes-take : (n : ℕ) (hs : List (List ℕ)) → AllHashes hs → AllHashes (take n hs)
AllHashes-take zero hs a = tt
AllHashes-take (suc n) [] a = tt
AllHashes-take (suc n) (h ∷ hs) a = (a.0, AllHashes-take n hs a.1)

AllHashes-drop : (n : ℕ) (hs : List (List ℕ)) → AllHashes hs → AllHashes (drop n hs)
AllHashes-drop zero hs a = a
AllHashes-drop (suc n) [] a = tt
AllHashes-drop (suc n) (h ∷ hs) a = AllHashes-drop n hs a.1

-- A packet carries 74 hashes, or all that are left.
hash_num_lem :
    (left packet_count total k : ℕ)
    → k + packet_count * max_hash_list_num ≡ total
    → k ≤ suc left * max_hash_list_num
    → suc left * max_hash_list_num < k + max_hash_list_num
    → let n = whohas_hash_num (suc left) packet_count total in
      (1 ≤ n) × (n ≤ k) × (n ≤ max_hash_list_num) × ((n ≡ max_hash_list_num) ⊎ (left ≡ 0) × (n ≡ k))
unfolding whohas_hash_num
hash_num_lem zero packet_count total k sum hi lo = ground arith
hash_num_lem (suc left) packet_count total k sum hi lo = ground arith

pub hash_list :
    (packet_type n : ℕ) (payload : List ℕ)
    → count_at payload ≡ n
    → 1 ≤ n
    → n ≤ max_hash_list_num
    → IsHashList packet_type
        (record { header = make_header packet_type (list_packet_length n) 0 0; payload = payload })
hash_list packet_type n payload e lo hi = record {
  some_hash = omega arith;
  few_hashes = omega arith;
  header_says = ap (λ k. make_header packet_type (list_packet_length k) 0 0) (sym e);
  fits = omega arith;
}

module _ (blank : List ℕ) (blank_size : length blank ≡ max_payload_length) where
  -- A list of hashes written behind its count, in either order, is read back.
  pub listed_hashes-write_hashes :
      (hs : List (List ℕ)) (n : ℕ)
      → AllHashes hs
      → n ≡ length hs
      → n ≤ max_hash_list_num
      → (count_at (write_hashes 0 hs (set_count blank n)) ≡ n)
        × (listed_hashes (write_hashes 0 hs (set_count blank n)) ≡ hs)
  unfolding listed_hashes
  listed_hashes-write_hashes hs n a e le =
      let size = length-set_count blank n in
      let room : Room (0 + length hs) (set_count blank n) = omega (arith, blank_size, size) in
      let counted =
        count_at-write_hashes hs 0 (set_count blank n) a (omega (arith, blank_size, size)) room
        ∙ count_at-set_count blank n le (omega (arith, blank_size)) in
      (counted, rw counted (read_hashes-write_hashes hs 0 n (set_count blank n) a room e))

  one_packet :
      (n : ℕ) (cs : List Chunk) (hs : List (List ℕ))
      → not_found_hashes cs ≡ hs
      → AllHashes hs
      → n ≤ length hs
      → n ≤ max_hash_list_num
      → (count_at (fill_hashes n 0 cs (set_count blank n)).0 ≡ n)
        × (listed_hashes (fill_hashes n 0 cs (set_count blank n)).0 ≡ take n hs)
  one_packet n cs hs e a le few = rw ((fill_hashes_lem n 0 cs (set_count blank n) hs e le).0) (
      listed_hashes-write_hashes (take n hs) n (AllHashes-take n hs a)
        (omega (arith, length-take n hs)) few)

  -- What the packets of the loop say, with `hs` the hashes that are left to ask for.
  whohas_loop_lem :
      (left packet_count : ℕ) (cs : List Chunk) (total : ℕ) (hs : List (List ℕ))
      → not_found_hashes cs ≡ hs
      → AllHashes hs
      → (left ≡ 0) ⊎ (length hs + packet_count * max_hash_list_num ≡ total)
      → length hs ≤ left * max_hash_list_num
      → left * max_hash_list_num < length hs + max_hash_list_num
      → (packets_hashes (whohas_loop blank left packet_count cs total) ≡ hs)
        × AllPackets (whohas_loop blank left packet_count cs total)
  unfolding whohas_loop packets_hashes
  whohas_loop_lem zero packet_count cs total [] e a sum hi lo = (refl, tt)
  whohas_loop_lem zero packet_count cs total (h ∷ hs) e a sum hi lo = absurd (omega arith)
  whohas_loop_lem (suc left) packet_count cs total hs e a sum hi lo =
      let n = whohas_hash_num (suc left) packet_count total in
      let num = hash_num_lem left packet_count total (length hs) (omega arith) hi lo in
      let here = one_packet n cs hs e a num.1 num.2 in
      let rest = (fill_hashes_lem n 0 cs (set_count blank n) hs e num.1).1 in
      let later =
        whohas_loop_lem left (suc packet_count) (fill_hashes n 0 cs (set_count blank n)).1 total
          (drop n hs) rest (AllHashes-drop n hs a) (omega (arith, length-drop n hs))
          (omega (arith, length-drop n hs)) (omega (arith, length-drop n hs)) in
      (
        ap₂ ◌++◌ here.1 later.0 ∙ take-append-drop n hs,
        (hash_list type_whohas n _ here.0 num.0 num.2, later.1),
      )

  whohas_packet_number_lem :
      (n : ℕ)
      → (n ≤ whohas_packet_number n * max_hash_list_num)
        × (whohas_packet_number n * max_hash_list_num < n + max_hash_list_num)
  whohas_packet_number_lem n = ground arith

  -- If the hashes of the chunks that are not found have 20 bytes, the packets that
  -- `malloc_all_whohas_packet` makes in memory for a payload of 1484 bytes together list the hash of every chunk that
  -- is not found, each once and in the order of the job, and nothing else; each of them lists from
  -- 1 to 74, says so in its header and its first byte, and fits the largest packet.
  pub whohas_asks_for_all :
      (job : Job)
      → AllHashes (not_found_hashes job.chunks)
      → let ps = made_packets (malloc_all_whohas_packet blank job) in
        (packets_hashes ps ≡ not_found_hashes job.chunks) × AllPackets ps
  unfolding malloc_all_whohas_packet packets_hashes
  whohas_asks_for_all job a =
      let hs = not_found_hashes job.chunks in
      let n = count_not_found job.chunks in
      let e : n ≡ length hs = count_not_found-eq-length job.chunks in
      let k = whohas_packet_number_lem n in
      elim (Bool-cases (n == 0)) [
        | inl empty ↦ rw empty (sym (empty_of_length hs (ground arith)), tt)
        | inr full ↦ rw full (
            whohas_loop_lem (whohas_packet_number n) 0 job.chunks n hs refl a (inr (omega arith))
              (omega arith) (omega arith))
      ]
