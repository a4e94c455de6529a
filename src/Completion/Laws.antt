-- ===== src/Completion/Laws.antt =====
-- What a progress says about the blocks of a manifest.
use mathlib.Core.List.Memᴰ
use dag.Base.{
  dec_Memᴰ, ℕ, zero, suc, ◌≡◌, refl, ◌≢◌, ◌↔◌, inl, inr, ap, ◌∙◌, Str, Str_discrete, true, List, [],
  ◌∷◌, ◌++◌, Memᴰ, Option, some, get_elem?, length, length-replicate, replicate, ite, arith, ◌≤◌,
  get_elem?-Memᴰ, Memᴰ-get_elem?,
}
use dag.Manifest.{Manifest}
use dag.Completion.{
  Completion, write_at, clear, new_completion, mark, completed_blocks, is_complete,
}

pub length-write_at :
    (v : ℕ) (hash : Str) (nodes : List Str) (prog : Completion)
    → length (write_at v hash nodes prog) ≡ length prog
unfolding write_at
length-write_at v hash [] prog = refl
length-write_at v hash (h ∷ nodes) [] = refl
length-write_at v hash (h ∷ nodes) (p ∷ prog) = ap suc (length-write_at v hash nodes prog)

-- The entry of a node is written exactly if the node is the one meant.
pub get_elem?-write_at :
    (v : ℕ) (hash id : Str) (nodes : List Str) (prog : Completion) (i : ℕ) (p : ℕ)
    → get_elem? nodes i ≡ some id
    → get_elem? prog i ≡ some p
    → get_elem? (write_at v hash nodes prog) i ≡ some (ite (Str_discrete id hash) v p)
unfolding write_at
get_elem?-write_at v hash id [] prog i p e f = cc
get_elem?-write_at v hash id (h ∷ nodes) [] i p e f = cc
get_elem?-write_at v hash id (h ∷ nodes) (q ∷ prog) zero p e f = ground arith
get_elem?-write_at v hash id (h ∷ nodes) (q ∷ prog) (suc i) p e f =
    get_elem?-write_at v hash id nodes prog i p e f

write_at_hit :
    (v : ℕ) (hash id : Str) (nodes : List Str) (prog : Completion) (i p : ℕ)
    → get_elem? nodes i ≡ some id
    → get_elem? prog i ≡ some p
    → id ≡ hash
    → get_elem? (write_at v hash nodes prog) i ≡ some v
write_at_hit v hash id nodes prog i p e f same =
    ground (arith, get_elem?-write_at v hash id nodes prog i p e f)

write_at_miss :
    (v : ℕ) (hash id : Str) (nodes : List Str) (prog : Completion) (i p : ℕ)
    → get_elem? nodes i ≡ some id
    → get_elem? prog i ≡ some p
    → id ≢ hash
    → get_elem? (write_at v hash nodes prog) i ≡ some p
write_at_miss v hash id nodes prog i p e f other =
    ground (arith, get_elem?-write_at v hash id nodes prog i p e f)

length-clear :
    (missing nodes : List Str) (prog : Completion) → length (clear missing nodes prog) ≡ length prog
unfolding clear
length-clear [] nodes prog = refl
length-clear (m ∷ missing) nodes prog =
    length-clear missing nodes (write_at 0 m nodes prog) ∙ length-write_at 0 m nodes prog

-- A progress has an entry for each node.
pub length-new_completion :
    (mfst missing : Manifest) → length (new_completion mfst missing) ≡ length mfst.nodes
unfolding new_completion
length-new_completion mfst missing =
    length-clear missing.nodes mfst.nodes (replicate (length mfst.nodes) 100)
    ∙ length-replicate (length mfst.nodes) 100

-- Entry `p` of node `id`, after the blocks `missing` were cleared.
abbrev Cleared : List Str → Str → ℕ → Option ℕ → Type 0
Cleared missing id p r = (Memᴰ id missing → r ≡ some 0) × (¬ Memᴰ id missing → r ≡ some p)

clear-Cleared :
    (missing nodes : List Str) (prog : Completion) (i : ℕ) (id : Str) (p : ℕ)
    → get_elem? nodes i ≡ some id
    → get_elem? prog i ≡ some p
    → Cleared missing id p (get_elem? (clear missing nodes prog) i)
unfolding clear
clear-Cleared [] nodes prog i id p e f = (λ m. absurd (Memᴰ.not-nil m), λ _. f)
clear-Cleared (m ∷ missing) nodes prog i id p e f = elim (Str_discrete id m) [
  | yes same ↦
      let written = write_at_hit 0 m id nodes prog i p e f same in
      let rest = clear-Cleared missing nodes (write_at 0 m nodes prog) i id 0 e written in
      (
        λ _. elim (dec_Memᴰ Str_discrete id missing) [ yes h ↦ rest.0 h | no h ↦ rest.1 h ],
        λ absent. absurd (absent (Memᴰ.head same)),
      )
  | no other ↦
      let kept = write_at_miss 0 m id nodes prog i p e f other in
      let rest = clear-Cleared missing nodes (write_at 0 m nodes prog) i id p e kept in
      (
        λ h. elim (Memᴰ.cases_cons h) [ inl same ↦ absurd (other same) | inr t ↦ rest.0 t ],
        λ absent. rest.1 (λ t. absent (Memᴰ.tail t)),
      )
]

get_elem?-replicate :
    {A : Type 0} (xs : List A) (n i : ℕ) (x : A)
    → get_elem? xs i ≡ some x
    → get_elem? (replicate (length xs) n) i ≡ some n
get_elem?-replicate [] n i x e = cc
get_elem?-replicate (y ∷ xs) n zero x e = refl
get_elem?-replicate (y ∷ xs) n (suc i) x e = get_elem?-replicate xs n i x e

-- NewCompletion: the entry of a node is 0 if the node is among the missing ones, and 100 if not.
pub new_completion_lem :
    (mfst missing : Manifest) (i : ℕ) (id : Str)
    → get_elem? mfst.nodes i ≡ some id
    → (Memᴰ id missing.nodes → get_elem? (new_completion mfst missing) i ≡ some 0)
      × (¬ Memᴰ id missing.nodes → get_elem? (new_completion mfst missing) i ≡ some 100)
unfolding new_completion
new_completion_lem mfst missing i id e =
    clear-Cleared missing.nodes mfst.nodes (replicate (length mfst.nodes) 100) i id 100 e
      (get_elem?-replicate mfst.nodes 100 i id e)

completed_blocks-le : (prog : Completion) → completed_blocks prog ≤ length prog
unfolding completed_blocks
completed_blocks-le [] = omega arith
completed_blocks-le (p ∷ prog) = ground (arith, completed_blocks-le prog)

-- Complete() holds exactly if CompletedBlocks() counts every entry.
pub is_complete-iff_completed_blocks :
    (prog : Completion) → (is_complete prog ≡ true) ↔ (completed_blocks prog ≡ length prog)
unfolding is_complete completed_blocks
is_complete-iff_completed_blocks [] = (λ _. refl, λ _. refl)
is_complete-iff_completed_blocks (p ∷ prog) =
    ground (arith, is_complete-iff_completed_blocks prog, completed_blocks-le prog)

pub is_complete→entry :
    (prog : Completion) (i p : ℕ) → is_complete prog ≡ true → get_elem? prog i ≡ some p → p ≡ 100
unfolding is_complete
is_complete→entry [] i p c e = cc
is_complete→entry (q ∷ prog) zero p c e = ground arith
is_complete→entry (q ∷ prog) (suc i) p c e = is_complete→entry prog i p (ground arith) e

pub entries→is_complete :
    (prog : Completion)
    → ((i p : ℕ) → get_elem? prog i ≡ some p → p ≡ 100)
    → is_complete prog ≡ true
unfolding is_complete
entries→is_complete [] h = refl
entries→is_complete (p ∷ prog) h =
    ground (arith, h 0 p refl, entries→is_complete prog (λ i q e. h (suc i) q e))

-- The progress after the blocks `hashes` have arrived, in this order.
unfoldable pub mark_all : List Str → Manifest → Completion → Completion
mark_all [] m prog = prog
mark_all (hash ∷ hashes) m prog = mark_all hashes m (mark hash m prog)

pub mark_all-concat :
    (hs : List Str) (last : Str) (m : Manifest) (prog : Completion)
    → mark_all (hs ++ last ∷ []) m prog ≡ mark last m (mark_all hs m prog)
unfolding mark_all
mark_all-concat [] last m prog = refl
mark_all-concat (h ∷ hs) last m prog = mark_all-concat hs last m (mark h m prog)

pub length-mark_all :
    (hashes : List Str) (m : Manifest) (prog : Completion)
    → length (mark_all hashes m prog) ≡ length prog
unfolding mark_all mark
length-mark_all [] m prog = refl
length-mark_all (h ∷ hs) m prog =
    length-mark_all hs m (mark h m prog) ∙ length-write_at 100 h m.nodes prog

mark_all-entry :
    (hashes : List Str) (m : Manifest) (prog : Completion) (i : ℕ) (id : Str) (p : ℕ)
    → get_elem? m.nodes i ≡ some id
    → get_elem? prog i ≡ some p
    → (Memᴰ id hashes → get_elem? (mark_all hashes m prog) i ≡ some 100)
      × (¬ Memᴰ id hashes → get_elem? (mark_all hashes m prog) i ≡ some p)
unfolding mark_all mark
mark_all-entry [] m prog i id p e f = (λ h. absurd (Memᴰ.not-nil h), λ _. f)
mark_all-entry (h ∷ hs) m prog i id p e f = elim (Str_discrete id h) [
  | yes same ↦
      let written = write_at_hit 100 h id m.nodes prog i p e f same in
      let rest = mark_all-entry hs m (mark h m prog) i id 100 e written in
      (
        λ _. elim (dec_Memᴰ Str_discrete id hs) [ yes t ↦ rest.0 t | no t ↦ rest.1 t ],
        λ absent. absurd (absent (Memᴰ.head same)),
      )
  | no other ↦
      let kept = write_at_miss 100 h id m.nodes prog i p e f other in
      let rest = mark_all-entry hs m (mark h m prog) i id p e kept in
      (
        λ t. elim (Memᴰ.cases_cons t) [ inl same ↦ absurd (other same) | inr u ↦ rest.0 u ],
        λ absent. rest.1 (λ t. absent (Memᴰ.tail t)),
      )
]

get_elem?-same_length :
    {A B : Type 0} (xs : List A) (ys : List B) (i : ℕ) (y : B)
    → length ys ≡ length xs
    → get_elem? ys i ≡ some y
    → (x : A) × (get_elem? xs i ≡ some x)
get_elem?-same_length xs [] i y n e = cc
get_elem?-same_length [] (z ∷ ys) i y n e = absurd (omega arith)
get_elem?-same_length (x ∷ xs) (z ∷ ys) zero y n e = (x, refl)
get_elem?-same_length (x ∷ xs) (z ∷ ys) (suc i) y n e =
    get_elem?-same_length xs ys i y (omega arith) e

-- A transfer that starts with NewCompletion and marks the blocks as they arrive is complete exactly
-- when every missing node of the manifest has arrived. The order, repetitions and blocks that the
-- manifest does not name make no difference.
pub transfer_complete :
    (mfst missing : Manifest) (hashes : List Str)
    → (is_complete (mark_all hashes mfst (new_completion mfst missing)) ≡ true)
      ↔ ((id : Str) → Memᴰ id mfst.nodes → Memᴰ id missing.nodes → Memᴰ id hashes)
transfer_complete mfst missing hashes = (
  λ c id listed lacking.
      let (i, e) = Memᴰ-get_elem? listed in
      let zero_entry = (new_completion_lem mfst missing i id e).0 lacking in
      let entry = mark_all-entry hashes mfst start i id 0 e zero_entry in
      elim (dec_Memᴰ Str_discrete id hashes) [
        | yes arrived ↦ arrived
        | no absent ↦ absurd (omega (arith, is_complete→entry _ i 0 c (entry.1 absent)))
      ],
  λ all. entries→is_complete (mark_all hashes mfst start) λ i p f.
      let (id, e) =
        get_elem?-same_length mfst.nodes (mark_all hashes mfst start) i p
          (length-mark_all hashes mfst start ∙ length-new_completion mfst missing) f in
      let entry = λ (q : ℕ).
        λ (g : get_elem? start i ≡ some q). mark_all-entry hashes mfst start i id q e g in
      elim (dec_Memᴰ Str_discrete id missing.nodes) [
        | yes lacking ↦
            let g = (new_completion_lem mfst missing i id e).0 lacking in
            cc ((entry 0 g).0 (all id (get_elem?-Memᴰ mfst.nodes i e) lacking))
        | no present ↦
            let g = (new_completion_lem mfst missing i id e).1 present in
            elim (dec_Memᴰ Str_discrete id hashes) [
              | yes arrived ↦ cc ((entry 100 g).0 arrived)
              | no absent ↦ cc ((entry 100 g).1 absent)
            ]
      ],
)
  where
    start : Completion
    start = new_completion mfst missing
