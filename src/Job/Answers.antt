-- ===== src/Job/Answers.antt =====
-- job.c: what the answer to a WHOHAS packet says of one hash.
use mathlib.Core.List.{Memᴰ}
use project_2_congest.Base.{
  sym, subst, Bool-cases, ℕ, ◌≡◌, ap, ◌∙◌, inl, inr, true, Option, some, List, [], ◌∷◌, length,
}
use project_2_congest.Packet.{Packet, max_payload_length, type_ihave}
use project_2_congest.Job.{Chunk, seach_owned_chunk, malloc_ihave_packet}
use project_2_congest.Job.Payload.{listed_hashes}
use project_2_congest.Job.Whohas.{IsHashList}
use project_2_congest.Job.Ihave.{is_some, owned_hashes, IsAnswer, silent, lists, ihave_answers}

-- A requested hash that names a chunk of this node is in the answer.
owned_hashes-Mem :
    (has_chunks : List Chunk) (hs : List (List ℕ)) (h : List ℕ) (k : ℕ)
    → seach_owned_chunk has_chunks h ≡ some k
    → Memᴰ h hs
    → Memᴰ h (owned_hashes has_chunks hs)
unfolding owned_hashes
owned_hashes-Mem has_chunks [] h k e m = elim m [ ]
owned_hashes-Mem has_chunks (g ∷ gs) h k e (Memᴰ.head s) =
    let owned : is_some (seach_owned_chunk has_chunks g) ≡ true =
      ap (λ (x : List ℕ). is_some (seach_owned_chunk has_chunks x)) (sym s) ∙ ap is_some e in
    rw (owned) (Memᴰ.head s)
owned_hashes-Mem has_chunks (g ∷ gs) h k e (Memᴰ.tail m) =
    elim (Bool-cases (is_some (seach_owned_chunk has_chunks g))) [
      | inl f ↦ rw (f) (Memᴰ.tail (owned_hashes-Mem has_chunks gs h k e m))
      | inr f ↦ rw (f) (owned_hashes-Mem has_chunks gs h k e m)
    ]

-- The packet that answers a request with such a hash.
pub record RepliesWith (hash : List ℕ) (r : Option Packet) : Type 0 where
  pub reply : Packet
  pub is_reply : r ≡ some reply
  pub lists_it : Memᴰ hash (listed_hashes reply.payload)
  pub well_made : IsHashList type_ihave reply
  pub whole : length reply.payload ≡ max_payload_length

pub malloc_ihave_packet-RepliesWith :
    (blank : List ℕ) (has_chunks : List Chunk) (request : Packet) (hash : List ℕ) (k : ℕ)
    → length blank ≡ max_payload_length
    → length request.payload ≡ max_payload_length
    → seach_owned_chunk has_chunks hash ≡ some k
    → Memᴰ hash (listed_hashes request.payload)
    → RepliesWith hash (malloc_ihave_packet blank has_chunks request)
malloc_ihave_packet-RepliesWith blank has_chunks request hash k blank_size size owned m =
    let mem = owned_hashes-Mem has_chunks (listed_hashes request.payload) hash k owned m in
    go (owned_hashes has_chunks (listed_hashes request.payload)) mem
      (malloc_ihave_packet blank has_chunks request)
      (ihave_answers blank blank_size has_chunks request size)
  where
    go :
        (hs : List (List ℕ))
        → Memᴰ hash hs
        → (r : Option Packet) → IsAnswer hs r
        → RepliesWith hash r
    go hs m r (silent none_left no_reply) =
        elim (subst (λ (gs : List (List ℕ)). Memᴰ hash gs) none_left m) [ ]
    go hs m r (lists p is_reply listed made whole) = record {
      reply = p;
      is_reply = is_reply;
      lists_it = subst (λ (gs : List (List ℕ)). Memᴰ hash gs) (sym listed) m;
      well_made = made;
      whole = whole;
    }
