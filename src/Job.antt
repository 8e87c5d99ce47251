-- ===== src/Job.antt =====
-- job.h and job.c: chunks, jobs, and the packets that are made of them. `blank` is what fresh
-- memory for a packet's payload holds; a hash is a list of 20 bytes.
pub mod Payload
pub mod Whohas
pub mod Ihave
pub mod Answers
use project_2_congest.Base.{
  ℕ, zero, suc, ◌+◌, ◌-◌, ◌*◌, ◌/◌, ◌%◌, ◌^◌, Bool, true, false, Option, none, some, List, [], ◌∷◌,
  length, get_elem?, set, take, ltb, ◌==◌, if◌then◌else◌,
}
use project_2_congest.Base.Int.{ℤ, pos, pos_part, ltb_ℤ}
use project_2_congest.Base.Word.{signed8}
use project_2_congest.Base.Memory.{memcpy, slice, same_bytes}
use project_2_congest.Hex.{hex2binary}
use project_2_congest.Packet.{
  Header, Packet, make_header, type_whohas, type_ihave, type_get, type_data, type_ack, header_size,
  max_hash_list_num, alignment_byte_num, hash_size, chunk_data_size,
}
use project_2_congest.Job.Payload.{hash_at, write_hash, count_at, set_count}

pub data ChunkStatus : Type 0 where
  not_found downloading pending finished : ChunkStatus

-- `struct chunk_s`. `chunk_data` is `none` for NULL, and otherwise the bytes written so far to the
-- block that `malloc` gave.
pub record Chunk : Type 0 where
  pub id : ℕ
  pub hash_binary : List ℕ
  pub status : ChunkStatus
  pub received_seq_num : ℕ
  pub received_byte_num : ℕ
  pub chunk_data : Option (List ℕ)

-- `struct job_s`; `chunk_num` is the length of the array.
pub record Job : Type 0 where
  pub output_file_name : List ℕ
  pub chunks : List Chunk

abbrev pub is_not_found : ChunkStatus → Bool
is_not_found not_found = true
is_not_found _ = false

-- A chunk as `malloc_new_job` leaves it.
unfoldable pub new_chunk : ℕ → List ℕ → Chunk
new_chunk id hash = record {
  id = id;
  hash_binary = hash;
  status = not_found;
  received_seq_num = 0;
  received_byte_num = 0;
  chunk_data = none;
}

-- `lines` is what `fgets` reads from the chunk file, `none` if it cannot be opened; `scan` is
-- `sscanf` of one line for "%d %s".
unfoldable pub malloc_new_job : (List ℕ → ℕ × List ℕ) → Option (List (List ℕ)) → List ℕ → Option Job
unfolding new_chunk
malloc_new_job scan none output_file_name = none
malloc_new_job scan (some lines) output_file_name = some (record {
  output_file_name = take 128 output_file_name;
  chunks =
      mathlib.Core.List.map
        (λ line.
          let (id, text) = scan line in new_chunk id (hex2binary (take (hash_size * 2) text)))
        lines;
})

unfoldable pub count_not_found : List Chunk → ℕ
count_not_found [] = 0
count_not_found (c ∷ cs) = (if is_not_found c.status then 1 else 0) + count_not_found cs

unfoldable pub get_not_found_chunk_number : Job → ℕ
unfolding count_not_found
get_not_found_chunk_number job = count_not_found job.chunks

-- The loop of `get_chunk` and `seach_owned_chunk`, from index `i` on.
unfoldable pub find_chunk : List Chunk → ℕ → List ℕ → Option ℕ
find_chunk [] i hash = none
find_chunk (c ∷ cs) i hash =
    if same_bytes hash c.hash_binary then some i else find_chunk cs (suc i) hash

unfoldable pub get_chunk : Job → List ℕ → Option ℕ
unfolding find_chunk
get_chunk job hash = find_chunk job.chunks 0 hash

unfoldable pub seach_owned_chunk : List Chunk → List ℕ → Option ℕ
unfolding find_chunk
seach_owned_chunk has_chunks hash = find_chunk has_chunks 0 hash

-- The inner loop of `malloc_all_whohas_packet`: hash number `j` is that of the next chunk that is
-- not found; the chunks behind it are left for the next hash.
unfoldable pub next_hash : ℕ → List Chunk → List ℕ → List ℕ × List Chunk
next_hash j [] payload = (payload, [])
next_hash j (c ∷ cs) payload =
    if is_not_found c.status
    then (write_hash payload j c.hash_binary, cs)
    else next_hash j cs payload

-- The loop over `j`, with the number of hashes still to write.
unfoldable pub fill_hashes : ℕ → ℕ → List Chunk → List ℕ → List ℕ × List Chunk
unfolding next_hash
fill_hashes zero j cs payload = (payload, cs)
fill_hashes (suc n) j cs payload =
    let (payload', cs') = next_hash j cs payload in fill_hashes n (suc j) cs' payload'

abbrev pub list_packet_length : ℕ → ℕ
list_packet_length hash_num = header_size + alignment_byte_num + hash_size * hash_num

-- The number of hashes in a packet, when `left` packets are still to make after `packet_count`.
unfoldable pub whohas_hash_num : ℕ → ℕ → ℕ → ℕ
whohas_hash_num left packet_count not_found_num =
    if ltb 1 left then max_hash_list_num else not_found_num - packet_count * max_hash_list_num

-- The loop over the packets, with the number of packets still to make.
unfoldable pub whohas_loop : List ℕ → ℕ → ℕ → List Chunk → ℕ → List Packet
whohas_loop blank zero packet_count cs not_found_num = []
whohas_loop blank (suc left) packet_count cs not_found_num =
    let hash_num = whohas_hash_num (suc left) packet_count not_found_num in
    let filled = fill_hashes hash_num 0 cs (set_count blank hash_num) in
    record {
      header = make_header type_whohas (list_packet_length hash_num) 0 0;
      payload = filled.0;
    }
    ∷ whohas_loop blank left (suc packet_count) filled.1 not_found_num

abbrev pub whohas_packet_number : ℕ → ℕ
whohas_packet_number n =
    if n % max_hash_list_num == 0 then n / max_hash_list_num else n / max_hash_list_num + 1

-- `none` is NULL, which leaves the caller's count of packets at 0.
unfoldable pub malloc_all_whohas_packet : List ℕ → Job → Option (List Packet)
unfolding get_not_found_chunk_number
malloc_all_whohas_packet blank job =
    let n = get_not_found_chunk_number job in
    if n == 0 then none else some (whohas_loop blank (whohas_packet_number n) 0 job.chunks n)

-- The loop of `malloc_ihave_packet`: the number of hashes written, and the payload.
unfoldable pub ihave_loop :
    List Chunk → List ℕ → ℕ → ℕ → ℕ → List ℕ → record { number : ℕ; payload : List ℕ }
ihave_loop has_chunks request zero i number payload = record { number = number; payload = payload }
ihave_loop has_chunks request (suc left) i number payload =
    let hash = hash_at request i in
    elim (seach_owned_chunk has_chunks hash) [
      | none ↦ ihave_loop has_chunks request left (suc i) number payload
      | some k ↦
          ihave_loop has_chunks request left (suc i) (suc number) (write_hash payload number hash)
    ]

unfoldable pub malloc_ihave_packet : List ℕ → List Chunk → Packet → Option Packet
malloc_ihave_packet blank has_chunks whohas_packet =
    let r =
      ihave_loop has_chunks whohas_packet.payload (count_at whohas_packet.payload) 0 0 blank in
    if r.number == 0
    then none
    else some (record {
      header = make_header type_ihave (list_packet_length r.number) 0 0;
      payload = set_count r.payload r.number;
    })

unfoldable pub malloc_get_packet : List ℕ → Chunk → Packet
unfolding make_header
malloc_get_packet blank chunk = record {
  header = make_header type_get (header_size + hash_size) 0 0;
  payload = memcpy blank 0 chunk.hash_binary;
}

-- `bytes` are those at `data`, which `data_size` says how many of.
unfoldable pub malloc_data_packet : List ℕ → List ℕ → ℕ → ℕ → Packet
unfolding make_header
malloc_data_packet blank bytes data_size seq_num = record {
  header = make_header type_data (header_size + data_size) seq_num 0;
  payload = memcpy blank 0 (take data_size bytes);
}

unfoldable pub malloc_ack_packet : List ℕ → ℕ → Packet
unfolding make_header
malloc_ack_packet blank ack_num = record {
  header = make_header type_ack header_size 0 ack_num;
  payload = blank;
}

-- The files that hold the data of the chunks: the name in the first line of the master chunk file,
-- `none` if that file cannot be opened, and for a data file that can be opened the bytes that
-- `fread` gives at an offset, at most as many as a chunk has.
pub record Disk : Type 0 where
  pub master_chunk_file : Option (List ℕ)
  pub data_file : List ℕ → Option (ℕ → List ℕ)

-- Of a chunk that is not in memory yet: the data, if all of it can be read.
unfoldable pub read_chunk_data : Disk → ℕ → Option (List ℕ)
read_chunk_data disk id = elim disk.master_chunk_file [
  | none ↦ none
  | some data_file_name ↦ elim (disk.data_file data_file_name) [
    | none ↦ none
    | some read ↦
        let bytes = read (id * chunk_data_size) in
        if length bytes == chunk_data_size then some bytes else none
  ]
]

abbrev set_data : List Chunk → ℕ → Chunk → List ℕ → List Chunk
set_data has_chunks k c bytes = set has_chunks k (record c { chunk_data = some bytes })

-- The chunk that a hash names, and the chunks of this node, of which that one is loaded now.
unfoldable pub load_found : Disk → List Chunk → ℕ → Chunk → Option (ℕ × List Chunk)
unfolding read_chunk_data
load_found disk has_chunks k c = elim c.chunk_data [
  | some bytes ↦ some (k, has_chunks)
  | none ↦ elim (read_chunk_data disk c.id) [
    | none ↦ none
    | some bytes ↦ some (k, set_data has_chunks k c bytes)
  ]
]

unfoldable pub load_chunk : Disk → List Chunk → List ℕ → Option (ℕ × List Chunk)
unfolding load_found seach_owned_chunk
load_chunk disk has_chunks hash = elim (seach_owned_chunk has_chunks hash) [
  | none ↦ none
  | some k ↦ elim (get_elem? has_chunks k) [ none ↦ none | some c ↦ load_found disk has_chunks k c ]
]
