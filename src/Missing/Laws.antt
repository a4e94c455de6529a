-- ===== src/Missing/Laws.antt =====
-- What Missing returns.
use mathlib.Core.List.Memᴰ
use dag.Base.{
  ◌≡◌, ◌≢◌, subst, refl, ◌↔◌, ◌⊎◌, inl, inr, Str, true, false, Bool-cases, List, [], ◌∷◌, Memᴰ,
  Option, none, some, Result, Error, ok, err, panic, Result-cases, arith,
}
use dag.Ipld.{Ipld, NodeGetter}
use dag.Manifest.{Manifest}
use dag.Missing.{is_not_found, absent_node, missing_node, add_missing, missing_from, missing}

module _ (lib : Ipld) (ng : NodeGetter lib) where
  -- The getter answers for the listed text `x` that it has no node, and `id` is the identifier's text.
  abbrev pub Lacks : Str → Str → Type 0
  Lacks x id =
      (c : lib.Cid) × (e : Error) × (lib.parse x ≡ ok c)
      × (ng.get c ≡ err e)
      × (is_not_found e ≡ true)
      × (id ≡ lib.cid_string c)

  -- The listed text `x` cannot be parsed, or the getter fails on it in another way, with `e`.
  abbrev pub Fails : Str → Error → Type 0
  Fails x e =
      (lib.parse x ≡ err e)
      ⊎ ((c : lib.Cid) × (lib.parse x ≡ ok c) × (ng.get c ≡ err e) × (is_not_found e ≡ false))

  missing_node-Lacks : (x id : Str) → (missing_node lib ng x ≡ ok (some id)) ↔ Lacks x id
  unfolding missing_node absent_node
  missing_node-Lacks x id = (
    λ ran. elim (Result-cases (lib.parse x)) [
      | inl (c, p) ↦ elim (Result-cases (ng.get c)) [
        | inl (n, g) ↦ ground arith
        | inr (inl (e, g)) ↦ elim (Bool-cases (is_not_found e)) [
          | inl t ↦ (c, e, p, g, t, ground arith)
          | inr f ↦ ground arith
        ]
        | inr (inr g) ↦ ground arith
      ]
      | inr (inl (e, p)) ↦ ground arith
      | inr (inr p) ↦ ground arith
    ],
    λ l. let (c, e, p, g, t, same) = l in ground arith,
  )

  missing_node-Fails : (x : Str) (e : Error) → missing_node lib ng x ≡ err e → Fails x e
  unfolding missing_node absent_node
  missing_node-Fails x e ran = elim (Result-cases (lib.parse x)) [
    | inl (c, p) ↦ elim (Result-cases (ng.get c)) [
      | inl (n, g) ↦ ground arith
      | inr (inl (f, g)) ↦ elim (Bool-cases (is_not_found f)) [
        | inl t ↦ ground arith
        | inr t ↦ let same : f ≡ e = ground arith in inr (c, p, cc, cc)
      ]
      | inr (inr g) ↦ ground arith
    ]
    | inr (inl (f, p)) ↦ inl (ground arith)
    | inr (inr p) ↦ ground arith
  ]

  -- The library's calls do not panic.
  abbrev pub NoPanics : Type 0
  NoPanics = ((x : Str) → lib.parse x ≢ panic) × ((c : lib.Cid) → ng.get c ≢ panic)

  missing_node-NoPanics : NoPanics → (x : Str) → missing_node lib ng x ≢ panic
  unfolding missing_node absent_node
  missing_node-NoPanics (parses, gets) x ran = elim (Result-cases (lib.parse x)) [
    | inl (c, p) ↦ elim (Result-cases (ng.get c)) [
      | inl (n, g) ↦ ground arith
      | inr (inl (f, g)) ↦ elim (Bool-cases (is_not_found f)) [
        | inl t ↦ ground arith
        | inr t ↦ ground arith
      ]
      | inr (inr g) ↦ gets c g
    ]
    | inr (inl (f, p)) ↦ ground arith
    | inr (inr p) ↦ parses x p
  ]

  -- What the loop comes to on the texts `xs`.
  abbrev Listed : List Str → Result (List Str) → Type 0
  Listed xs r =
      ((ids : List Str) × (r ≡ ok ids)
        × ((id : Str) → Memᴰ id ids ↔ ((x : Str) × Memᴰ x xs × Lacks x id)))
      ⊎ ((e : Error) × (x : Str) × (r ≡ err e) × Memᴰ x xs × Fails x e)

  add_missing-Listed :
      (x : Str) (xs : List Str) (found : Option Str) (ids : List Str)
      → missing_node lib ng x ≡ ok found
      → ((id : Str) → Memᴰ id ids ↔ ((y : Str) × Memᴰ y xs × Lacks y id))
      → (id : Str)
      → Memᴰ id (add_missing lib ng found ids) ↔ ((y : Str) × Memᴰ y (x ∷ xs) × Lacks y id)
  add_missing-Listed x xs none ids ran rest id = (
    λ m. let (y, there, l) = (rest id).0 m in (y, Memᴰ.tail there, l),
    λ (y, there, l). elim (Memᴰ.cases_cons there) [
      | inl same ↦
          let lacks : Lacks x id = subst (λ z. Lacks z id) same l in
          let other = (missing_node-Lacks x id).1 lacks in cc
      | inr later ↦ (rest id).1 (y, later, l)
    ],
  )
  add_missing-Listed x xs (some new) ids ran rest id = (
    λ m. elim (Memᴰ.cases_cons m) [
      | inl same ↦ (x, Memᴰ.head refl, (missing_node-Lacks x id).0 (rw same ran))
      | inr old ↦ let (y, there, l) = (rest id).0 old in (y, Memᴰ.tail there, l)
    ],
    λ (y, there, l). elim (Memᴰ.cases_cons there) [
      | inl same ↦
          let lacks : Lacks x id = subst (λ z. Lacks z id) same l in
          let other = (missing_node-Lacks x id).1 lacks in let now : id ≡ new = cc in Memᴰ.head now
      | inr later ↦ Memᴰ.tail ((rest id).1 (y, later, l))
    ],
  )

  missing_from-Listed : NoPanics → (xs : List Str) → Listed xs (missing_from lib ng xs)
  unfolding missing_from
  missing_from-Listed safe [] =
      inl ([], refl, λ id. (λ m. absurd (Memᴰ.not-nil m), λ (x, m, l). absurd (Memᴰ.not-nil m)))
  missing_from-Listed safe (x ∷ xs) = elim (Result-cases (missing_node lib ng x)) [
    | inl (found, ran) ↦ elim (missing_from-Listed safe xs) [
      | inl (ids, rest, all) ↦
          inl
            (add_missing lib ng found ids, ground arith, add_missing-Listed x xs found ids ran all)
      | inr (e, y, rest, there, f) ↦ inr (e, y, ground arith, Memᴰ.tail there, f)
    ]
    | inr (inl (e, ran)) ↦ inr (e, x, ground arith, Memᴰ.head refl, missing_node-Fails x e ran)
    | inr (inr ran) ↦ absurd (missing_node-NoPanics safe x ran)
  ]

  -- Missing, where the calls of the library do not panic: it returns a manifest without links whose
  -- nodes are exactly the texts of those identifiers of the given manifest for which the getter
  -- answers that it has no node; or else it returns an error, which the parser or the getter
  -- returned for an identifier of the manifest and which does not say that a node is not found,
  -- if the getter returned it.
  pub missing_lem :
      NoPanics
      → (m : Manifest)
      → ((d : Manifest) × (missing lib ng m ≡ ok d)
          × (d.links ≡ [])
          × ((id : Str) → Memᴰ id d.nodes ↔ ((x : Str) × Memᴰ x m.nodes × Lacks x id)))
        ⊎ ((e : Error) × (x : Str) × (missing lib ng m ≡ err e) × Memᴰ x m.nodes × Fails x e)
  unfolding missing
  missing_lem safe m = elim (missing_from-Listed safe m.nodes) [
    | inl (ids, ran, all) ↦ inl (record { links = []; nodes = ids }, ground arith, refl, all)
    | inr (e, x, ran, there, f) ↦ inr (e, x, ground arith, there, f)
  ]
