-- ===== src/Plugin/Access.antt =====
-- dsync/dsync_ipfs_plugin/plugin.go: finding an address in the allow list, and taking it out.
use mathlib.Core.List.{Nodup-cons}
use mathlib.Core.List.Memᴰ
use dag.Base.{
  ◌≡◌, ◌≢◌, ◌↔◌, inl, inr, sym, ◌∙◌, subst, Str, Str_discrete, true, false, List, [], ◌∷◌, Option,
  none, some, Memᴰ, Mem-Memᴰ, Nodup, Option-cases, arith,
}
use dag.Plugin.{listed, without, keep_first}

pub listed-Memᴰ : (addr : Str) (addrs : List Str) → listed addr addrs ≡ true → Memᴰ addr addrs
listed-Memᴰ addr [] e = cc
listed-Memᴰ addr (a ∷ addrs) e = elim (Str_discrete addr a) [
  | yes same ↦ Memᴰ.head same
  | no other ↦ Memᴰ.tail (listed-Memᴰ addr addrs (ground arith))
]

pub listed-not_Memᴰ :
    (addr : Str) (addrs : List Str) → listed addr addrs ≡ false → ¬ Memᴰ addr addrs
listed-not_Memᴰ addr [] e = Memᴰ.not-nil
listed-not_Memᴰ addr (a ∷ addrs) e =
    let split : listed addr (a ∷ addrs) ≡ false → ¬ Memᴰ addr (a ∷ addrs) =
      elim (Str_discrete addr a)
        as (λ d.
          elim d [ yes _ ↦ true | no _ ↦ listed addr addrs ] ≡ false → ¬ Memᴰ addr (a ∷ addrs)) [
            | yes same ↦ λ f. cc f
            | no other ↦ λ f m. elim (Memᴰ.cases_cons m) [
              | inl same ↦ other same
              | inr later ↦ listed-not_Memᴰ addr addrs f later
            ]
          ] in
    split e

-- How the look-up of one address goes on behind another entry.
without_cons {ℓ} :
    (addr a : Str) (addrs : List Str) (P : Option (List Str) → Type ℓ)
    → (addr ≡ a → P (some addrs))
    → (addr ≢ a → P (keep_first a (without addr addrs)))
    → P (without addr (a ∷ addrs))
without_cons addr a addrs P found on =
    elim (Str_discrete addr a)
      as (λ d. P (elim d [ yes _ ↦ some addrs | no _ ↦ keep_first a (without addr addrs) ])) [
        | yes same ↦ found same
        | no other ↦ on other
      ]

pub without-none : (addr : Str) (addrs : List Str) → without addr addrs ≡ none → ¬ Memᴰ addr addrs
without-none addr [] e = Memᴰ.not-nil
without-none addr (a ∷ addrs) e =
    without_cons addr a addrs (λ r. r ≡ none → ¬ Memᴰ addr (a ∷ addrs)) (λ same f. cc f)
      (λ other f m. elim (Option-cases (without addr addrs)) [
        | inl lost ↦ elim (Memᴰ.cases_cons m) [
          | inl same ↦ other same
          | inr later ↦ without-none addr addrs lost later
        ]
        | inr (ys, found) ↦ cc (rw found at f)
      ])
      e

-- Without one address, which the list holds once.
pub record Removed (addr : Str) (addrs rest : List Str) : Type 0 where
  pub once : Nodup rest
  pub members : (a : Str) → Memᴰ a rest ↔ ((a ≢ addr) × Memᴰ a addrs)

Removed-first :
    (addr : Str) (addrs : List Str) → Nodup (addr ∷ addrs) → Removed addr (addr ∷ addrs) addrs
Removed-first addr addrs all =
    let (new, once) = Nodup-cons.0 all in
    record {
      once = once;
      members = λ a. (
        λ m. ((λ same. new ∣ rw (← same) m ∣₁), Memᴰ.tail m),
        λ (other, m). elim (Memᴰ.cases_cons m) [
          | inl same ↦ absurd (other same)
          | inr later ↦ later
        ],
      );
    }

Removed-later :
    (addr a : Str) (addrs rest : List Str)
    → addr ≢ a
    → Nodup (a ∷ addrs)
    → Removed addr addrs rest
    → Removed addr (a ∷ addrs) (a ∷ rest)
Removed-later addr a addrs rest other all r =
    let (new, _) = Nodup-cons.0 all in
    record {
      once = Nodup-cons.1 ((λ m. new ∣ ((r.members a).0 (Mem-Memᴰ Str_discrete m)).1 ∣₁), r.once);
      members = λ x. (
        λ m. elim (Memᴰ.cases_cons m) [
          | inl same ↦ ((λ e. other (sym e ∙ same)), Memᴰ.head same)
          | inr later ↦ let (differ, there) = (r.members x).0 later in (differ, Memᴰ.tail there)
        ],
        λ (differ, m). elim (Memᴰ.cases_cons m) [
          | inl same ↦ Memᴰ.head same
          | inr later ↦ Memᴰ.tail ((r.members x).1 (differ, later))
        ],
      );
    }

pub without-Removed :
    (addr : Str) (addrs rest : List Str)
    → without addr addrs ≡ some rest
    → Nodup addrs
    → Removed addr addrs rest
without-Removed addr [] rest e once = cc e
without-Removed addr (a ∷ addrs) rest e once =
    without_cons addr a addrs (λ r. r ≡ some rest → Removed addr (a ∷ addrs) rest)
      (λ same f.
        let left : addrs ≡ rest = cc f in
        subst (Removed addr (a ∷ addrs)) left (rw same (Removed-first a addrs once)))
      (λ other f. elim (Option-cases (without addr addrs)) [
        | inl lost ↦ cc (rw lost at f)
        | inr (ys, found) ↦
            let left : a ∷ ys ≡ rest = cc (rw found at f) in
            subst (Removed addr (a ∷ addrs)) left (
              Removed-later addr a addrs ys other once
                (without-Removed addr addrs ys found (Nodup-cons.0 once).1))
      ])
      e
