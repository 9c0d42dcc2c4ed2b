-- ===== src/FileSystem/Tame.antt =====
-- Changes that make no directory: what is none before stays none.
use code_executor_api.Prelude.{
  ℕ, ◌==◌, ==_iff, Text, text_eq, ◌≡◌, subst, false, Bool-cases, inl, inr, some, List, [], ◌∷◌,
  arith,
}
use code_executor_api.FileSystem.{Bytes, regular, Fs, entry, entries_of, child, add_child, set_node}
use code_executor_api.FileSystem.Resolve.{IsDirectory, IsFile, IsNoDirectory, Enters}

pub record Tame (fs fs' : Fs) : Type 0 where
  pub back : (i j : ℕ) (name : Text) → Enters fs' i name j → Enters fs i name j

pub Tame-trans : (fs fs' fs'' : Fs) → Tame fs fs' → Tame fs' fs'' → Tame fs fs''
Tame-trans fs fs' fs'' s t = record { back = λ i j name e. s.back i j name (t.back i j name e) }

pub Tame-IsNoDirectory :
    (fs fs' : Fs) (fd : ℕ) (name : Text)
    → Tame fs fs'
    → IsNoDirectory fs fd name
    → IsNoDirectory fs' fd name
Tame-IsNoDirectory fs fs' fd name t h j e = h j (t.back fd j name e)

entry-added :
    (es : List (Text × ℕ)) (name nm : Text) (j next : ℕ)
    → (next == j) ≡ false
    → entry nm ((name, next) ∷ es) ≡ some j
    → entry nm es ≡ some j
unfolding entry
entry-added es name nm j next t h = elim (Bool-cases (text_eq name nm)) [
  | inl e ↦ let p : some next ≡ some j = rw e at h in ground arith
  | inr e ↦ rw e at h
]

pub add_child-Tame :
    (fs : Fs) (fd : ℕ) (name : Text)
    → IsDirectory fs fd
    → Tame fs (add_child fs fd name (regular []))
unfolding add_child child entry
add_child-Tame fs fd name d = record {
  back = λ i j nm (e, (es, k)). elim (Bool-cases (fs.next == j)) [
    | inl t ↦ let p = rw t at k in absurd cc
    | inr t ↦ (
      elim (Bool-cases (fs.next == i)) [
        | inl u ↦ let p = rw u at e in cc
        | inr u ↦
            let p = rw u at e in
            elim (Bool-cases (fd == i)) [
              | inl v ↦
                  subst (λ x. child fs x nm ≡ some j) ((==_iff fd i).0 v)
                    (entry-added (entries_of (fs.node fd)) name nm j fs.next t (rw v at p))
              | inr v ↦ rw v at p
            ]
      ],
      elim (Bool-cases (fd == j)) [
        | inl v ↦ subst (IsDirectory fs) ((==_iff fd j).0 v) d
        | inr v ↦ let p = rw t at k in (es, rw v at p)
      ],
    )
  ];
}

pub set_node-Tame :
    (fs : Fs) (i : ℕ) (b c : Bytes) → IsFile fs i b → Tame fs (set_node fs i (regular c))
unfolding child
set_node-Tame fs i b c r = record {
  back = λ k j nm (e, (es, d)). (
    elim (Bool-cases (i == k)) [ inl t ↦ let p = rw t at e in cc | inr t ↦ rw t at e ],
    elim (Bool-cases (i == j)) [ inl t ↦ let p = rw t at d in cc | inr t ↦ (es, rw t at d) ],
  );
}
