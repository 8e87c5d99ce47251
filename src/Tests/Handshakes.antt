-- ===== src/Tests/Handshakes.antt =====
-- peer.c: a node that asks another for a chunk.
use project_2_congest.Base.{ℕ, ◌≡◌, ◌++◌, refl, some, List, [], ◌∷◌, replicate, arith}
use mathlib.Core.List.{Memᴰ}
use project_2_congest.Base.Memory.{same_bytes, slice}
use project_2_congest.Packet.{Packet, to_peer, to_sender, make_header, send_packet, type_whohas}
use project_2_congest.Job.{Chunk, Job, new_chunk, get_chunk, find_chunk, seach_owned_chunk}
use project_2_congest.Job.Payload.{count_at, listed_hashes, read_hashes, hash_at}
use project_2_congest.Job.Whohas.{IsHashList}
use project_2_congest.Connection.{ChunkRef}
use project_2_congest.Connection.Receiver.{
  search_receiver_connection, get_receiver_connection_number,
}
use project_2_congest.Peer.{Peer, Env, on_whohas, on_ihave}
use project_2_congest.Transfer.Arrival.{arrive}
use project_2_congest.Handshake.Claims.{Misses, Claims, whohas-Claims}
use project_2_congest.Tests.Peers.{later, node, env, home}

abbrev hash : List ℕ
hash = replicate 20 0

abbrev wanted : Chunk
wanted = new_chunk 7 hash

abbrev job : Job
job = record { output_file_name = b'a' ∷ []; chunks = wanted ∷ [] }

abbrev asker : Peer
asker = record node { jobs = some job ∷ []; current_job = some 0; receivers = [] }

abbrev owner : Peer
owner = record node { has_chunks = new_chunk 3 hash ∷ [] }

abbrev roomy : Env
roomy = record env { blank = replicate 1484 0 }

abbrev request : Packet
request = record { header = make_header type_whohas 40 0 0; payload = 1 ∷ replicate 1483 0 }

abbrev zeros : List ℕ
zeros = replicate 1460 0

abbrev place : ChunkRef
place = record { job = 0; index = 0 }

asker-Misses : Misses asker 1 place job wanted
unfolding get_chunk find_chunk same_bytes search_receiver_connection get_receiver_connection_number
    new_chunk
asker-Misses = record {
  current = refl;
  job_there = refl;
  chunk_there = refl;
  first = refl;
  missing = refl;
  no_connection = refl;
  room = refl;
}

request-IsHashList : IsHashList type_whohas request
unfolding count_at
request-IsHashList = record {
  some_hash = omega arith;
  few_hashes = omega arith;
  header_says = refl;
  fits = omega arith;
}

listed : Memᴰ hash (listed_hashes request.payload)
unfolding listed_hashes read_hashes hash_at slice count_at
listed = Memᴰ.head refl

whohas-Claims_example :
    (reply : Packet) × ((on_whohas roomy later
        (arrive (send_packet request (to_peer (some 1))) zeros)
        home
        owner).sent
      ≡ [] ++ (send_packet reply (to_sender home) ∷ []))
    × Claims
        (on_ihave env later (arrive (send_packet reply (to_sender home)) []) (some 1) asker)
        1
        place
unfolding new_chunk seach_owned_chunk find_chunk same_bytes arrive send_packet make_header
whohas-Claims_example =
    whohas-Claims env roomy later later asker owner 1 place job wanted 0 request (to_peer (some 1))
      home zeros [] asker-Misses refl refl request-IsHashList refl listed refl
