-- ===== src/Downloads/Asked.antt =====
-- peer.c: what the commands ask for, and what it means that a file was got.
use mathlib.Core.List.{Memᴰ}
use mathlib.Core.List.Memᴰ
use project_2_congest.Base.{
  ℕ, zero, suc, ◌≡◌, refl, sym, ap, ◌∙◌, none, some, List, [], ◌∷◌, ◌++◌, map, get_elem?, set, inl,
  inr, ◌⊎◌, arith,
}
use project_2_congest.Job.{Chunk, Job, malloc_new_job}
use project_2_congest.Store.{Jobs}
use project_2_congest.Connection.Receiver.{Platform, Write}
use project_2_congest.Peer.Loop.{Command, Happening}
use project_2_congest.Downloads.Verified.{IsWritten, IsWritten-append}
use project_2_congest.Downloads.Steady.{Outline, outline, outlines, label}

-- The commands of all rounds.
abbrev pub all_commands : List Happening → List Command
all_commands [] = []
all_commands (h ∷ hs) = h.commands ++ all_commands hs

module _ (scan : List ℕ → ℕ × List ℕ) where
  -- One of the commands asks for the job that `o` outlines.
  pub record Asked (cs : List Command) (o : Outline) : Type 0 where
    pub command : Command
    pub is_one : Memᴰ command cs
    pub job : Job
    pub made : malloc_new_job scan command.chunk_lines command.outf ≡ some job
    pub same : outline job ≡ o

  abbrev pub JobsAsked : List Command → Jobs → Type 0
  JobsAsked cs jobs =
      (j : ℕ) (o : Outline) → get_elem? (outlines jobs) j ≡ some (some o) → Asked cs o

  -- One of the commands asks for the file `name`, and to each chunk of its job belongs a write to
  -- that file, of data with the hash of the chunk, at its place.
  pub record IsGot (m : Platform) (cs : List Command) (ws : List Write) (name : List ℕ)
      : Type 0 where
    pub command : Command
    pub is_one : Memᴰ command cs
    pub job : Job
    pub made : malloc_new_job scan command.chunk_lines command.outf ≡ some job
    pub named : job.output_file_name ≡ name
    pub whole :
        (i : ℕ) (c : Chunk)
        → get_elem? job.chunks i ≡ some c
        → (w : IsWritten m ws c.id c.hash_binary) × (w.write.file_name ≡ name)

  abbrev pub AllGot : Platform → List Command → List Write → List (List ℕ) → Type 0
  AllGot m cs ws got = (name : List ℕ) → Memᴰ name got → IsGot m cs ws name

  pub Asked-more : (cs more : List Command) (o : Outline) → Asked cs o → Asked (cs ++ more) o
  Asked-more cs more o a = record {
    command = a.command;
    is_one = Memᴰ.append_left more a.is_one;
    job = a.job;
    made = a.made;
    same = a.same;
  }

  pub IsGot-more :
      (m : Platform) (cs more : List Command) (ws next : List Write) (name : List ℕ)
      → IsGot m cs ws name
      → IsGot m (cs ++ more) (ws ++ next) name
  IsGot-more m cs more ws next name a = record {
    command = a.command;
    is_one = Memᴰ.append_left more a.is_one;
    job = a.job;
    made = a.made;
    named = a.named;
    whole = λ i c at.
        let (w, to_file) = a.whole i c at in
        let (v, same) = IsWritten-append m ws next c.id c.hash_binary w in
        (v, ap (λ (u : Write). u.file_name) same ∙ to_file);
  }

  map-append_one :
      (jobs : Jobs) (job : Job) (j : ℕ) (o : Outline)
      → get_elem? (outlines (jobs ++ (some job ∷ []))) j ≡ some (some o)
      → (get_elem? (outlines jobs) j ≡ some (some o)) ⊎ (outline job ≡ o)
  map-append_one [] job zero o e = inr (ground (arith, e))
  map-append_one [] job (suc j) o e = absurd (ground (arith, e))
  map-append_one (x ∷ xs) job zero o e = inl e
  map-append_one (x ∷ xs) job (suc j) o e = map-append_one xs job j o e

  -- A new job is asked for by its command.
  pub started-JobsAsked :
      (cs : List Command) (c : Command) (jobs : Jobs) (job : Job)
      → malloc_new_job scan c.chunk_lines c.outf ≡ some job
      → JobsAsked cs jobs
      → JobsAsked (cs ++ (c ∷ [])) (jobs ++ (some job ∷ []))
  started-JobsAsked cs c jobs job made a j o e = elim (map-append_one jobs job j o e) [
    | inl old ↦ Asked-more cs (c ∷ []) o (a j o old)
    | inr new ↦ record {
      command = c;
      is_one = Memᴰ.append_right cs (Memᴰ.head refl);
      job = job;
      made = made;
      same = new;
    }
  ]

  outlines-freed :
      (jobs : Jobs) (i j : ℕ) (o : Outline)
      → get_elem? (outlines (set jobs i none)) j ≡ some (some o)
      → get_elem? (outlines jobs) j ≡ some (some o)
  outlines-freed [] i j o e = e
  outlines-freed (x ∷ xs) zero zero o e = absurd (ground (arith, e))
  outlines-freed (x ∷ xs) zero (suc j) o e = e
  outlines-freed (x ∷ xs) (suc i) zero o e = e
  outlines-freed (x ∷ xs) (suc i) (suc j) o e = outlines-freed xs i j o e

  pub freed-JobsAsked :
      (cs : List Command) (jobs : Jobs) (i : ℕ) → JobsAsked cs jobs → JobsAsked cs (set jobs i none)
  freed-JobsAsked cs jobs i a j o e = a j o (outlines-freed jobs i j o e)

map-get_elem? :
    (cs : List Chunk) (i : ℕ) (c : Chunk)
    → get_elem? cs i ≡ some c
    → get_elem? (map label cs) i ≡ some (label c)
map-get_elem? [] i c e = absurd (ground (arith, e))
map-get_elem? (x ∷ xs) zero c e = ground (arith, e)
map-get_elem? (x ∷ xs) (suc i) c e = map-get_elem? xs i c e

labelled :
    (cs : List Chunk) (i : ℕ) (l : ℕ × List ℕ)
    → get_elem? (map label cs) i ≡ some l
    → (c : Chunk) × (get_elem? cs i ≡ some c) × (label c ≡ l)
labelled [] i l e = absurd (ground (arith, e))
labelled (x ∷ xs) zero l e = (x, refl, ground (arith, e))
labelled (x ∷ xs) (suc i) l e = labelled xs i l e

-- A chunk of a job is, by its identity and its hash, one of every job that is outlined alike.
pub alike :
    (a b : Job) (i : ℕ) (c : Chunk)
    → outline a ≡ outline b
    → get_elem? a.chunks i ≡ some c
    → (d : Chunk) × (get_elem? b.chunks i ≡ some d) × (label d ≡ label c)
alike a b i c e at =
    labelled b.chunks i (label c)
      (ap (λ (o : Outline). get_elem? o.1 i) (sym e) ∙ map-get_elem? a.chunks i c at)
