-- ===== src/Store/Writes.antt =====
-- What a write through a chunk pointer does to every pointer.
use project_2_congest.Base.{
  ℕ, zero, suc, ◌+◌, ◌≡◌, refl, sym, ap, ◌∙◌, Bool-cases, Option, none, some, List, [], ◌∷◌,
  get_elem?, set, ◌==◌, ==_iff, true, if◌then◌else◌, inl, inr, arith,
}
use project_2_congest.Job.{Job, Chunk}
use project_2_congest.Connection.{ChunkRef}
use project_2_congest.Store.{Jobs, chunk_at, set_chunk, chunk_of, with_chunk, same_ref}

pub get_elem?-set :
    {A : Type 0} (xs : List A) (i q : ℕ) (x v : A)
    → get_elem? xs i ≡ some x
    → get_elem? (set xs i v) q ≡ (if i == q then some v else get_elem? xs q)
get_elem?-set [] i q x v e = absurd (ground arith)
get_elem?-set (y ∷ xs) zero zero x v e = refl
get_elem?-set (y ∷ xs) zero (suc q) x v e = ground arith
get_elem?-set (y ∷ xs) (suc i) zero x v e = ground arith
get_elem?-set (y ∷ xs) (suc i) (suc q) x v e = ground (arith, get_elem?-set xs i q x v e)

-- The job that a pointer leads into.
pub chunk_of-job :
    (o : Option (Option Job)) (i : ℕ) (d : Chunk)
    → chunk_of o i ≡ some d
    → (job : Job) × (o ≡ some (some job)) × (get_elem? job.chunks i ≡ some d)
chunk_of-job none i d e = absurd (ground arith)
chunk_of-job (some none) i d e = absurd (ground arith)
chunk_of-job (some (some job)) i d e = (job, refl, e)

-- The pointers to the same chunk read what was written, and the others what they did.
pub chunk_at-set_chunk :
    (jobs : Jobs) (r q : ChunkRef) (c d : Chunk)
    → chunk_at jobs r ≡ some d
    → chunk_at (set_chunk jobs r c) q ≡ (if same_ref r q then some c else chunk_at jobs q)
unfolding chunk_at set_chunk
chunk_at-set_chunk jobs r q c d e =
    let (job, at, here) = chunk_of-job (get_elem? jobs r.job) r.index d e in
    let slot = with_chunk (some job) r.index c in
    let wrote = get_elem?-set jobs r.job q.job (some job) slot at in
    let inside = get_elem?-set job.chunks r.index q.index d c here in
    elim (Bool-cases (r.job == q.job)) [
      | inl same ↦
          let old : chunk_at jobs q ≡ get_elem? job.chunks q.index =
            ap (λ (k : ℕ). chunk_of (get_elem? jobs k) q.index) (sym ((==_iff _ _).0 same))
            ∙ ap (λ o. chunk_of o q.index) at in
          rw (at, wrote, same, set_chunk)
            (inside ∙ ap (λ (o : Option Chunk). if r.index == q.index then some c else o) (sym old))
      | inr other ↦ rw (at, wrote, other, set_chunk) refl
    ]

pub same_ref_iff : (r q : ChunkRef) → same_ref r q ≡ true → r ≡ q
same_ref_iff r q e = ground arith

-- A write of `c` over `d` changes what a chunk weighs at the pointers to it.
pub weight-set_chunk :
    (w : Option Chunk → ℕ) (jobs : Jobs) (r q : ChunkRef) (c d : Chunk)
    → chunk_at jobs r ≡ some d
    → w (chunk_at (set_chunk jobs r c) q) + (if same_ref r q then w (some d) else 0)
      ≡ w (chunk_at jobs q) + (if same_ref r q then w (some c) else 0)
weight-set_chunk w jobs r q c d e =
    let wrote = chunk_at-set_chunk jobs r q c d e in
    elim (Bool-cases (same_ref r q)) [
      | inl same ↦
          let old : chunk_at jobs q ≡ some d =
            ap (chunk_at jobs) (sym (same_ref_iff r q same)) ∙ e in
          rw (wrote, same, old) (omega arith)
      | inr other ↦ rw (wrote, other) refl
    ]
