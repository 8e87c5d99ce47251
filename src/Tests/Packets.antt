-- ===== src/Tests/Packets.antt =====
-- job.c, packet.c and chunk.c at small inputs.
use project_2_congest.Base.{true, some}
use project_2_congest.Packet.{chunk_data_size}
use project_2_congest.Job.{downloading}
use project_2_congest.Connection.Receiver.{Platform}
use project_2_congest.Base.{
  ℕ, zero, suc, ◌≤◌, ◌≡◌, ◌↔◌, refl, ap, none, List, [], ◌∷◌, ◌++◌, length, arith,
}
use project_2_congest.Base.Int.{pos}
use project_2_congest.Hex.{binary2hex, hex2binary, hex2binary-binary2hex}
use project_2_congest.Job.{
  Chunk, Job, ChunkStatus, not_found, pending, malloc_all_whohas_packet, malloc_ihave_packet,
}
use project_2_congest.Job.Payload.{listed_hashes}
use project_2_congest.Job.Whohas.{
  whohas_asks_for_all, AllPackets, packets_hashes, not_found_hashes, made_packets,
}
use project_2_congest.Job.Ihave.{ihave_answers, IsAnswer, owned_hashes}
use project_2_congest.Packet.{
  Packet, Header, make_header, validate_packet, max_payload_length, magic_number_value,
  version_number_value,
}
use project_2_congest.Packet.Laws.{IsHeader, validate_packet_iff}

zeros : ℕ → List ℕ
zeros zero = []
zeros (suc n) = 0 ∷ zeros n

length-zeros : (n : ℕ) → length (zeros n) ≡ n
unfolding zeros
length-zeros zero = refl
length-zeros (suc n) = ap suc (length-zeros n)

abbrev hash_of : ℕ → List ℕ
hash_of n = n ∷ 0 ∷ 0 ∷ 0 ∷ 0 ∷ 0 ∷ 0 ∷ 0 ∷ 0 ∷ 0 ∷ 0 ∷ 0 ∷ 0 ∷ 0 ∷ 0 ∷ 0 ∷ 0 ∷ 0 ∷ 0 ∷ 0 ∷ []

abbrev chunk_in : ℕ → ChunkStatus → Chunk
chunk_in n status = record {
  id = n;
  hash_binary = hash_of n;
  status = status;
  received_seq_num = 0;
  received_byte_num = 0;
  chunk_data = none;
}

-- Three chunks, the second of which a connection already waits for.
abbrev three_chunks : List Chunk
three_chunks = chunk_in 1 not_found ∷ chunk_in 2 pending ∷ chunk_in 3 not_found ∷ []

abbrev job : Job
job = record { output_file_name = []; chunks = three_chunks }

abbrev blank : List ℕ
blank = zeros max_payload_length

wanted_hashes : not_found_hashes three_chunks ≡ hash_of 1 ∷ hash_of 3 ∷ []
unfolding not_found_hashes
wanted_hashes = refl

whohas_asks_for_all_example :
    (packets_hashes (made_packets (malloc_all_whohas_packet blank job))
      ≡ hash_of 1 ∷ hash_of 3 ∷ [])
    × AllPackets (made_packets (malloc_all_whohas_packet blank job))
unfolding not_found_hashes
whohas_asks_for_all_example =
    whohas_asks_for_all blank (length-zeros max_payload_length) job (refl, (refl, tt))

-- A request for two chunks, the first of which is here.
abbrev request : Packet
request = record {
  header = make_header 0 60 0 0;
  payload = 2 ∷ 0 ∷ 0 ∷ 0 ∷ (hash_of 3 ++ (hash_of 9 ++ zeros 1440));
}

request_size : length request.payload ≡ max_payload_length
request_size = omega (arith, length-zeros 1440)

ihave_answers_example :
    IsAnswer
      (owned_hashes three_chunks (listed_hashes request.payload))
      (malloc_ihave_packet blank three_chunks request)
ihave_answers_example =
    ihave_answers blank (length-zeros max_payload_length) three_chunks request request_size

abbrev data_header : Header
data_header = record {
  magic_number = 15441;
  version_number = 1;
  packet_type = 3;
  header_length = 16;
  packet_length = 1040;
  seq_number = 512;
  ack_number = 0;
}

data_header-IsHeader : IsHeader data_header
data_header-IsHeader = omega arith

validate_packet_iff_example : (validate_packet data_header ≡ pos 1) ↔ (
    (data_header.magic_number ≡ magic_number_value)
    × (data_header.version_number ≡ version_number_value)
    × (data_header.packet_type ≤ 5))
validate_packet_iff_example = validate_packet_iff data_header data_header-IsHeader

hash_text : binary2hex (0x0a ∷ 0xff ∷ []) ≡ b'0' ∷ b'a' ∷ b'f' ∷ b'f' ∷ []
unfolding binary2hex
hash_text = refl

hex2binary-binary2hex_example : hex2binary (binary2hex (0x0a ∷ 0xff ∷ [])) ≡ 0x0a ∷ 0xff ∷ []
hex2binary-binary2hex_example = hex2binary-binary2hex (0x0a ∷ 0xff ∷ []) (omega arith)

-- A machine whose SHA-1 gives the hash 9, and a chunk of zeros with that hash, all received.
abbrev platform : Platform
platform = record {
  shahash = λ bytes. hash_of 9;
  opens = λ name. true;
  fwrite = λ w. chunk_data_size;
}

abbrev received_chunk : Chunk
received_chunk = record (chunk_in 9 downloading) {
  received_seq_num = 512;
  received_byte_num = chunk_data_size;
  chunk_data = some (zeros chunk_data_size);
}
