-- ===== src/Job/Ihave.antt =====
-- job.c: `malloc_ihave_packet` answers with the requested hashes that this node has.
use project_2_congest.Base.{
  ℕ, zero, suc, ◌+◌, ◌≤◌, ◌≡◌, refl, ap, ◌∙◌, inl, inr, Bool, true, false, Option, none, some, List,
  [], ◌∷◌, length, length-take, length-drop, drop, Option-cases, ◌==◌, if◌then◌else◌, arith,
}
use project_2_congest.Base.Memory.{slice}
use project_2_congest.Packet.{
  Packet, max_hash_list_num, max_payload_length, hash_size, type_ihave, make_header,
}
use project_2_congest.Job.{
  Chunk, seach_owned_chunk, list_packet_length, ihave_loop, malloc_ihave_packet,
}
use project_2_congest.Job.Payload.{
  hash_place, hash_at, listed_hashes, read_hashes, write_hash, write_hashes, count_at, set_count,
  AllHashes, Room, read_hashes-write_hashes, read_hashes-set_count, count_at-set_count,
  length-write_hashes, count_at-le, length-set_count,
}
use project_2_congest.Job.Whohas.{IsHashList, hash_list}

abbrev pub is_some : Option ℕ → Bool
is_some none = false
is_some (some k) = true

-- Of some hashes, those whose chunks this node has.
unfoldable pub owned_hashes : List Chunk → List (List ℕ) → List (List ℕ)
owned_hashes has_chunks [] = []
owned_hashes has_chunks (h ∷ hs) =
    if is_some (seach_owned_chunk has_chunks h)
    then h ∷ owned_hashes has_chunks hs
    else owned_hashes has_chunks hs

length-owned_hashes :
    (has_chunks : List Chunk) (hs : List (List ℕ)) → length (owned_hashes has_chunks hs) ≤ length hs
unfolding owned_hashes
length-owned_hashes has_chunks [] = omega arith
length-owned_hashes has_chunks (h ∷ hs) = ground (arith, length-owned_hashes has_chunks hs)

AllHashes-owned_hashes :
    (has_chunks : List Chunk) (hs : List (List ℕ))
    → AllHashes hs
    → AllHashes (owned_hashes has_chunks hs)
unfolding owned_hashes
AllHashes-owned_hashes has_chunks [] a = tt
AllHashes-owned_hashes has_chunks (h ∷ hs) a =
    ground (arith, AllHashes-owned_hashes has_chunks hs a.1)

length-read_hashes : (n i : ℕ) (payload : List ℕ) → length (read_hashes n i payload) ≡ n
unfolding read_hashes
length-read_hashes zero i payload = refl
length-read_hashes (suc n) i payload = ap suc (length-read_hashes n (suc i) payload)

AllHashes-read_hashes :
    (n i : ℕ) (payload : List ℕ) → Room (i + n) payload → AllHashes (read_hashes n i payload)
unfolding read_hashes hash_at slice
AllHashes-read_hashes zero i payload r = tt
AllHashes-read_hashes (suc n) i payload r = (
  omega (
    arith,
    length-take hash_size (drop (hash_place i) payload),
    length-drop (hash_place i) payload,
  ),
  AllHashes-read_hashes n (suc i) payload (omega arith),
)

ihave_loop_lem :
    (has_chunks : List Chunk) (request : List ℕ) (left i number : ℕ) (payload : List ℕ)
    → let hs = owned_hashes has_chunks (read_hashes left i request) in
      let r = ihave_loop has_chunks request left i number payload in
      (r.number ≡ number + length hs) × (r.payload ≡ write_hashes number hs payload)
unfolding ihave_loop owned_hashes read_hashes write_hashes
ihave_loop_lem has_chunks request zero i number payload = (omega arith, refl)
ihave_loop_lem has_chunks request (suc left) i number payload =
    elim (Option-cases (seach_owned_chunk has_chunks (hash_at request i))) [
      | inl e ↦ rw (e, ihave_loop) (ihave_loop_lem has_chunks request left (suc i) number payload)
      | inr (k, e) ↦
          let h = hash_at request i in
          let r =
            ihave_loop_lem has_chunks request left (suc i) (suc number)
              (write_hash payload number h) in
          rw (e, ihave_loop) (omega (arith, r.0), r.1)
    ]

-- What an answer says: the hashes `hs`, or nothing if there are none.
pub data IsAnswer (hs : List (List ℕ)) (r : Option Packet) : Type 0 where
  silent : hs ≡ [] → r ≡ none → IsAnswer hs r
  lists :
      (p : Packet)
      → r ≡ some p
      → listed_hashes p.payload ≡ hs
      → IsHashList type_ihave p
      → length p.payload ≡ max_payload_length
      → IsAnswer hs r

module _ (blank : List ℕ) (blank_size : length blank ≡ max_payload_length) where
  answer_lem :
      (hs : List (List ℕ)) (n : ℕ)
      → AllHashes hs
      → n ≡ length hs
      → n ≤ max_hash_list_num
      → (count_at (set_count (write_hashes 0 hs blank) n) ≡ n)
        × (listed_hashes (set_count (write_hashes 0 hs blank) n) ≡ hs)
        × (length (set_count (write_hashes 0 hs blank) n) ≡ max_payload_length)
  unfolding listed_hashes
  answer_lem hs n a e le =
      let room : Room (0 + length hs) blank = omega (arith, blank_size) in
      let pl = write_hashes 0 hs blank in
      let counted =
        count_at-set_count pl n le
          (omega (arith, blank_size, length-write_hashes hs 0 blank a room)) in
      (
        counted,
        rw counted
            (read_hashes-set_count n 0 pl n ∙ read_hashes-write_hashes hs 0 n blank a room e),
        length-set_count pl n ∙ length-write_hashes hs 0 blank a room ∙ blank_size,
      )

  IsAnswer-cases :
      (hs : List (List ℕ)) (n : ℕ) (payload : List ℕ)
      → AllHashes hs
      → n ≡ length hs
      → length hs ≤ max_hash_list_num
      → payload ≡ write_hashes 0 hs blank
      → IsAnswer hs (
          if n == 0
          then none
          else some (record {
            header = make_header type_ihave (list_packet_length n) 0 0;
            payload = set_count payload n;
          }))
  IsAnswer-cases [] n payload a e few p = silent refl (ground arith)
  IsAnswer-cases (h ∷ hs) n payload a e few p =
      let said = answer_lem (h ∷ hs) n a e (omega arith) in
      let q : payload ≡ write_hashes 0 (h ∷ hs) blank = p in
      lists
        (record {
          header = make_header type_ihave (list_packet_length n) 0 0;
          payload = set_count payload n;
        })
        (ground arith) (rw q said.1)
        (hash_list type_ihave n (set_count payload n) (rw q said.0) (omega arith) (omega arith))
        (rw (q) (said.2))

  -- If the request's payload and the memory for the answer's have 1484 bytes, the answer to a WHOHAS
  -- packet lists, in their order, the hashes of the request that name chunks of this node; it is
  -- left out exactly when there are none.
  pub ihave_answers :
      (has_chunks : List Chunk) (request : Packet)
      → length request.payload ≡ max_payload_length
      → IsAnswer
          (owned_hashes has_chunks (listed_hashes request.payload))
          (malloc_ihave_packet blank has_chunks request)
  unfolding malloc_ihave_packet listed_hashes
  ihave_answers has_chunks request size =
      let n = count_at request.payload in
      let asked = read_hashes n 0 request.payload in
      let hs = owned_hashes has_chunks asked in
      let r = ihave_loop_lem has_chunks request.payload n 0 0 blank in
      let few : length hs ≤ max_hash_list_num = omega (
        arith,
        length-owned_hashes has_chunks asked,
        length-read_hashes n 0 request.payload,
        count_at-le request.payload,
      ) in
      let a =
        AllHashes-owned_hashes has_chunks asked (
          AllHashes-read_hashes n 0 request.payload (omega (arith, count_at-le request.payload))) in
      IsAnswer-cases hs _ _ a (omega (arith, r.0)) few r.1
