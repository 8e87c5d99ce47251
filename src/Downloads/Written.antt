-- ===== src/Downloads/Written.antt =====
-- connection.c: the finished chunks of the jobs.
use project_2_congest.Base.{ℕ, ◌≡◌, sym, ◌∙◌, subst, Bool-cases, some, List, inl, inr, arith}
use project_2_congest.Job.{Chunk, finished}
use project_2_congest.Store.{Jobs, chunk_at, set_chunk, same_ref}
use project_2_congest.Store.Writes.{chunk_at-set_chunk, same_ref_iff}
use project_2_congest.Connection.{ChunkRef}
use project_2_congest.Downloads.Preserved.{Survives}

-- `P` holds of the identity and the hash of a finished chunk.
abbrev pub IfFinished : (ℕ → List ℕ → Type 0) → Chunk → Type 0
IfFinished P c = c.status ≡ finished → P c.id c.hash_binary

-- `P` holds of the place, the identity and the hash of every finished chunk.
abbrev pub AllFinished : (ChunkRef → ℕ → List ℕ → Type 0) → Jobs → Type 0
AllFinished P jobs = (q : ChunkRef) (c : Chunk) → chunk_at jobs q ≡ some c → IfFinished (P q) c

module _ (P : ChunkRef → ℕ → List ℕ → Type 0) where
  pub set_chunk-AllFinished :
      (jobs : Jobs) (r : ChunkRef) (c d : Chunk)
      → chunk_at jobs r ≡ some d
      → IfFinished (P r) c
      → AllFinished P jobs
      → AllFinished P (set_chunk jobs r c)
  set_chunk-AllFinished jobs r c d at h a q c' e =
      let wrote = sym (chunk_at-set_chunk jobs r q c d at) ∙ e in
      elim (Bool-cases (same_ref r q)) [
        | inl same ↦
            let here : c ≡ c' = ground (arith, same, wrote) in
            subst (λ p. IfFinished (P p) c') (same_ref_iff r q same)
              (subst (IfFinished (P r)) here h)
        | inr other ↦ a q c' (ground (arith, other, wrote))
      ]

  pub AllFinished-Survives : Survives (AllFinished P)
  AllFinished-Survives jobs r c d at id hash status a =
      set_chunk-AllFinished jobs r c d at (λ f. rw (id, hash) (a r d at (status f))) a
