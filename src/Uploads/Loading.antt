-- ===== src/Uploads/Loading.antt =====
-- job.c: `load_chunk` reads a chunk from its file, and keeps those that are in memory.
use project_2_congest.Base.{
  ℕ, ◌*◌, ◌≡◌, refl, sym, ap, ◌∙◌, subst, Bool-cases, Option-cases, none, some, List, length,
  get_elem?, set, ◌==◌, ==_iff, inl, inr, if◌then◌else◌, arith,
}
use project_2_congest.Packet.{chunk_data_size}
use project_2_congest.Job.{Chunk, Disk, read_chunk_data, load_found, load_chunk, seach_owned_chunk}
use project_2_congest.Store.Writes.{get_elem?-set}
use project_2_congest.Uploads.{Own, IsInMemory}

-- Chunks of which the one at `k` is in memory, and all that were before.
pub record Loads (disk : Disk) (cs : List Chunk) (k : ℕ) (loaded : List Chunk) : Type 0 where
  pub own : Own disk loaded
  pub in_memory : IsInMemory loaded k
  pub kept : (j : ℕ) → IsInMemory cs j → IsInMemory loaded j

module _ (disk : Disk) (cs : List Chunk) (own : Own disk cs) where
  read_lem :
      (k : ℕ) (c : Chunk) (bytes : List ℕ)
      → get_elem? cs k ≡ some c
      → read_chunk_data disk c.id ≡ some bytes
      → Loads disk cs k (set cs k (record c { chunk_data = some bytes }))
  read_lem k c bytes at read =
      let d = record c { chunk_data = some bytes } in
      let wrote = λ (j : ℕ). get_elem?-set cs k j c d at in
      record {
        own = λ j x content here there. elim (Bool-cases (k == j)) [
          | inl same ↦
              let is_it : d ≡ x = ground (arith, wrote j, same, here) in
              let is_data : bytes ≡ content =
                ground (arith, ap (λ (y : Chunk). y.chunk_data) is_it, there) in
              ap (λ (y : Chunk). read_chunk_data disk y.id) (sym is_it)
              ∙ read
              ∙ ap (λ (bs : List ℕ). some bs) is_data
          | inr other ↦ own j x content (ground (arith, wrote j, other, here)) there
        ];
        in_memory = (d, bytes, ground (arith, wrote k), refl);
        kept = λ j m. elim (Bool-cases (k == j)) [
          | inl same ↦ (d, bytes, ground (arith, wrote j, same), refl)
          | inr other ↦ (m.0, m.1, ground (arith, wrote j, other, m.2), m.3)
        ];
      }

  load_found-Loads :
      (k : ℕ) (c : Chunk) (n : ℕ) (loaded : List Chunk)
      → get_elem? cs k ≡ some c
      → load_found disk cs k c ≡ some (n, loaded)
      → Loads disk cs n loaded
  unfolding load_found
  load_found-Loads k c n loaded at e = elim (Option-cases c.chunk_data) [
    | inr (bytes, q) ↦
        let same_place : k ≡ n = ground (arith, q, e) in
        let same : cs ≡ loaded = ground (arith, q, e) in
        subst (λ (ds : List Chunk). Loads disk cs n ds) same
          (subst (λ (i : ℕ). Loads disk cs i cs) same_place
            (record { own = own; in_memory = (c, bytes, at, q); kept = λ j m. m }))
    | inl q ↦ elim (Option-cases (read_chunk_data disk c.id)) [
      | inl f ↦ absurd (ground (arith, q, f, e))
      | inr (bytes, f) ↦
          let ds = set cs k (record c { chunk_data = some bytes }) in
          let same_place : k ≡ n = ground (arith, q, f, e) in
          let same : ds ≡ loaded = ground (arith, q, f, e) in
          subst (λ (xs : List Chunk). Loads disk cs n xs) same
            (subst (λ (i : ℕ). Loads disk cs i ds) same_place (read_lem k c bytes at f))
    ]
  ]

  pub load_chunk-Loads :
      (hash : List ℕ) (n : ℕ) (loaded : List Chunk)
      → load_chunk disk cs hash ≡ some (n, loaded)
      → Loads disk cs n loaded
  unfolding load_chunk
  load_chunk-Loads hash n loaded e = elim (Option-cases (seach_owned_chunk cs hash)) [
    | inl q ↦ absurd (ground (arith, q, e))
    | inr (k, q) ↦ elim (Option-cases (get_elem? cs k)) [
      | inl f ↦ absurd (ground (arith, q, f, e))
      | inr (c, f) ↦ load_found-Loads k c n loaded f (ground (arith, q, f, e))
    ]
  ]

whole_lem :
    (bytes content : List ℕ)
    → (if length bytes == chunk_data_size then some bytes else none) ≡ some content
    → length content ≡ chunk_data_size
whole_lem bytes content e = elim (Bool-cases (length bytes == chunk_data_size)) [
  | inl f ↦
      let same : bytes ≡ content = ground (arith, f, e) in
      subst (λ (bs : List ℕ). length bs ≡ chunk_data_size) same ((==_iff _ _).0 f)
  | inr f ↦ absurd (ground (arith, f, e))
]

-- What is read of a file is a whole chunk.
pub length-read_chunk_data :
    (disk : Disk) (id : ℕ) (bytes : List ℕ)
    → read_chunk_data disk id ≡ some bytes
    → length bytes ≡ chunk_data_size
unfolding read_chunk_data
length-read_chunk_data disk id bytes e = elim (Option-cases disk.master_chunk_file) [
  | inl q ↦ absurd (ground (arith, q, e))
  | inr (name, q) ↦ elim (Option-cases (disk.data_file name)) [
    | inl f ↦ absurd (ground (arith, q, f, e))
    | inr (read, f) ↦ whole_lem (read (id * chunk_data_size)) bytes (sym (rw (q, f) refl) ∙ e)
  ]
]
