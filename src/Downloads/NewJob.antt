-- ===== src/Downloads/NewJob.antt =====
-- job.c and peer.c: a new job, which a GET command starts.
use project_2_congest.Base.{
  ◌⊎◌, ℕ, zero, suc, ◌≡◌, refl, sym, ap, ◌∙◌, Option, Option-cases, none, some, List, [], ◌∷◌, ◌++◌,
  get_elem?, length, inl, inr, map, arith,
}
use project_2_congest.Clock.{Timeval}
use project_2_congest.Job.{Chunk, Job, finished, new_chunk, malloc_new_job}
use project_2_congest.Store.{Jobs, chunk_at, chunk_of}
use project_2_congest.Connection.{ChunkRef}
use project_2_congest.Peer.{Peer, Env}
use project_2_congest.Peer.Flooding.{process_get}
use project_2_congest.Downloads.{down, pend}
use project_2_congest.Downloads.Packets.{ClaimedBy, flood_whohas-Claimed}
use project_2_congest.Downloads.Verified.{Verified}
use project_2_congest.Downloads.Verified.Handlers.{flood_whohas-Verified}

-- What the chunks of a new job weigh.
fresh_lem :
    (w : Option Chunk → ℕ) (f : List ℕ → Chunk) (lines : List (List ℕ)) (i : ℕ)
    → w none ≡ 0
    → ((line : List ℕ) → w (some (f line)) ≡ 0)
    → w (get_elem? (map f lines) i) ≡ 0
fresh_lem w f [] i z h = z
fresh_lem w f (x ∷ xs) zero z h = h x
fresh_lem w f (x ∷ xs) (suc i) z h = fresh_lem w f xs i z h

pub new_job_lem :
    (w : Option Chunk → ℕ) (scan : List ℕ → ℕ × List ℕ) (lines : Option (List (List ℕ)))
    (name : List ℕ) (job : Job) (i : ℕ)
    → w none ≡ 0
    → ((id : ℕ) (hash : List ℕ) → w (some (new_chunk id hash)) ≡ 0)
    → malloc_new_job scan lines name ≡ some job
    → w (get_elem? job.chunks i) ≡ 0
unfolding malloc_new_job
new_job_lem w scan none name job i z h e = absurd (ground arith)
new_job_lem w scan (some lines) name job i z h e =
    let weight : Option Job → ℕ = λ o. elim o [ none ↦ 0 | some j ↦ w (get_elem? j.chunks i) ] in
    sym (ap weight e) ∙ fresh_lem w _ lines i z (λ line. h _ _)

-- A job that is put behind the others changes nothing for the chunks that pointers led to.
appended_lem :
    (w : Option Chunk → ℕ) (jobs : Jobs) (job : Job) (j i : ℕ)
    → w none ≡ 0
    → ((k : ℕ) → w (get_elem? job.chunks k) ≡ 0)
    → w (chunk_of (get_elem? (jobs ++ (some job ∷ [])) j) i) ≡ w (chunk_of (get_elem? jobs j) i)
appended_lem w [] job zero i z h = h i ∙ sym z
appended_lem w [] job (suc j) i z h = refl
appended_lem w (x ∷ xs) job zero i z h = refl
appended_lem w (x ∷ xs) job (suc j) i z h = appended_lem w xs job j i z h

is_finished : Option Chunk → ℕ
is_finished none = 0
is_finished (some c) = elim c.status [ finished ↦ 1 | _ ↦ 0 ]

-- What pointers lead to behind the jobs that there were is a new job.
appended_cases :
    (jobs : Jobs) (job : Job) (j i : ℕ) (c : Chunk)
    → chunk_of (get_elem? (jobs ++ (some job ∷ [])) j) i ≡ some c
    → (chunk_of (get_elem? jobs j) i ≡ some c) ⊎ (get_elem? job.chunks i ≡ some c)
appended_cases [] job zero i c e = inr e
appended_cases [] job (suc j) i c e = inl e
appended_cases (x ∷ xs) job zero i c e = inl e
appended_cases (x ∷ xs) job (suc j) i c e = appended_cases xs job j i c e

no_job :
    (jobs : Jobs) (r : ChunkRef) (c : Chunk) → length jobs ≡ r.job → chunk_at jobs r ≡ some c → ⊥
unfolding chunk_at
no_job jobs r c e at = go jobs r.job e at
  where
    go : (js : Jobs) (j : ℕ) → length js ≡ j → chunk_of (get_elem? js j) r.index ≡ some c → ⊥
    go [] j e at = absurd (ground arith)
    go (x ∷ xs) zero e at = absurd (omega (arith, e))
    go (x ∷ xs) (suc j) e at = go xs j (omega (arith, e)) at

module _ (e : Env) (scan : List ℕ → ℕ × List ℕ) where
  pub process_get-Claimed :
      (now : Timeval) (lines : Option (List (List ℕ))) (outf : List ℕ) (s : Peer)
      → ClaimedBy s
      → ClaimedBy (process_get e now scan lines outf s)
  unfolding process_get chunk_at new_chunk
  process_get-Claimed now lines outf s w = elim (Option-cases (malloc_new_job scan lines outf)) [
    | inl q ↦ rw (q, process_get) w
    | inr (job, q) ↦
        let started = record s {
          jobs = s.jobs ++ (some job ∷ []);
          current_job = some (length s.jobs);
        } in
        let same =
          λ (k : Option Chunk → ℕ) (z : k none ≡ 0)
              (h : (id : ℕ) (hash : List ℕ) → k (some (new_chunk id hash)) ≡ 0) (r : ChunkRef).
            appended_lem k s.jobs job r.job r.index z
              (λ i. new_job_lem k scan lines outf job i z h q) in
        rw (q, process_get)
          (flood_whohas-Claimed e now started (record {
            heads_down = λ r. w.heads_down r ∙ sym (same down refl (λ id hash. refl) r);
            waiters_pend = λ r. w.waiters_pend r ∙ sym (same pend refl (λ id hash. refl) r);
          }))
  ]

  pub process_get-Verified :
      (now : Timeval) (lines : Option (List (List ℕ))) (outf : List ℕ) (s : Peer)
      → Verified e.platform s
      → Verified e.platform (process_get e now scan lines outf s)
  unfolding process_get chunk_at new_chunk is_finished
  process_get-Verified now lines outf s v = elim (Option-cases (malloc_new_job scan lines outf)) [
    | inl q ↦ rw (q, process_get) v
    | inr (job, q) ↦
        let started = record s {
          jobs = s.jobs ++ (some job ∷ []);
          current_job = some (length s.jobs);
        } in
        rw (q, process_get)
          (flood_whohas-Verified e now started (λ r c here f.
            elim (appended_cases s.jobs job r.job r.index c here) [
              | inl old ↦ (
                (v r c old f).0,
                λ current.
                    let last : length s.jobs ≡ r.job = ground (arith, current) in
                    absurd (no_job s.jobs r c last old),
              )
              | inr new ↦
                  let none_yet =
                    new_job_lem is_finished scan lines outf job r.index refl (λ id hash. refl) q in
                  absurd (ground (arith, none_yet, new, f))
            ]))
  ]
