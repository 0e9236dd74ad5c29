-- ===== src/Process/Files.antt =====
-- What the calls leave of the files.
use mathlib.Core.List.{append_assoc}
use ibc_attestor.Common.{
  ◌≡◌, refl, sym, ◌∙◌, ap, true, false, ◌⊎◌, String, none, List, [], ◌∷◌, ok, err, Bytes, eq_bytes,
  arith, eq_bytes→eq, ◌++◌, ◌==◌, ◌&&◌, not, is_empty, All, Bool-cases, Option-cases, inl, inr,
  if◌then◌else◌,
}
use ibc_attestor.Process.{
  FilePath, Disk, Process, exists, add_dir, add_file, create_dirs, create_dir_all, ancestors_from,
  write_file, is_some, slash,
}

next_file :
    (path : FilePath) (d : Disk) → (if d.is_dir path then d else add_dir path d).file ≡ d.file
next_file path d = ground arith

create_dirs-file : (l : List FilePath) (d : Disk) → (create_dirs l d).0.file ≡ d.file
unfolding create_dirs
create_dirs-file [] d = refl
create_dirs-file (path ∷ l) d =
    let rest =
      create_dirs-file l (if d.is_dir path then d else add_dir path d) ∙ next_file path d in
    ground (arith, rest)

-- A file stands at no path that does not exist.
pub exists-file : (d : Disk) (path : FilePath) → exists d path ≡ false → d.file path ≡ none
exists-file d path h = ground arith

-- What a write that succeeds, or fails, does.
pub write_file-cases :
    (dir path : FilePath) (b : Bytes) (d : Disk)
    → ((d.is_dir dir ≡ true) × (write_file dir path b d ≡ (add_file path b d, ok tt)))
      ⊎ ((e : String) × (write_file dir path b d ≡ (d, err e)))
unfolding write_file
write_file-cases dir path b d = elim (Bool-cases (d.is_dir dir)) [
  | inr missing ↦ inr ("No such file or directory (os error 2)", rw missing refl)
  | inl there ↦ elim (Bool-cases (d.is_dir path)) [
    | inl taken ↦ inr ("Is a directory (os error 21)", rw (there, taken) refl)
    | inr free ↦ elim (Option-cases (d.refuses path)) [
      | inl allowed ↦ inl (there, rw (there, free, allowed) refl)
      | inr (e, refused) ↦ inr (e, rw (there, free, refused) refl)
    ]
  ]
]

-- A path is the directory, or on the way to it.
abbrev pub LeadsTo : FilePath → FilePath → Type 0
LeadsTo dir q = (rest : FilePath) × (dir ≡ q ++ rest)

-- A directory of before is still one, and a new one leads to the given one.
abbrev pub DirKept : FilePath → Disk → Disk → FilePath → Type 0
DirKept dir d d' q = (d'.is_dir q ≡ d.is_dir q) ⊎ ((d.is_dir q ≡ false) × LeadsTo dir q)

-- Every path has its contents still, or is the one path, at which no file was; and it is a directory
-- as before, or is a new one that leads to the given one.
abbrev pub OnlyAdds : FilePath → FilePath → Disk → Disk → Type 0
OnlyAdds dir path d d' =
    (q : FilePath)
    → ((d'.file q ≡ d.file q) ⊎ ((q ≡ path) × (d.file q ≡ none))) × DirKept dir d d' q

DirKept-trans :
    (dir : FilePath) (d d' d'' : Disk) (q : FilePath)
    → DirKept dir d d' q
    → DirKept dir d' d'' q
    → DirKept dir d d'' q
DirKept-trans dir d d' d'' q (inr added) k = inr added
DirKept-trans dir d d' d'' q (inl same) (inl later) = inl (later ∙ same)
DirKept-trans dir d d' d'' q (inl same) (inr (absent, leads)) = inr (sym same ∙ absent, leads)

pub OnlyAdds-trans :
    (dir path : FilePath) (d d' d'' : Disk)
    → OnlyAdds dir path d d'
    → OnlyAdds dir path d' d''
    → OnlyAdds dir path d d''
OnlyAdds-trans dir path d d' d'' h k q = (
  elim (h q).0 [
    | inr added ↦ inr added
    | inl same ↦ elim (k q).0 [
      | inl later ↦ inl (later ∙ same)
      | inr (here, absent) ↦ inr (here, sym same ∙ absent)
    ]
  ],
  DirKept-trans dir d d' d'' q (h q).1 (k q).1,
)

pub OnlyAdds-refl : (dir path : FilePath) (d : Disk) → OnlyAdds dir path d d
OnlyAdds-refl dir path d q = (inl refl, inl refl)

pub add_file-OnlyAdds :
    (dir path : FilePath) (b : Bytes) (d : Disk)
    → d.file path ≡ none
    → OnlyAdds dir path d (add_file path b d)
add_file-OnlyAdds dir path b d absent q = elim (Bool-cases (eq_bytes q path)) [
  | inl here ↦ let same = eq_bytes→eq q path here in (inr (same, rw same absent), inl refl)
  | inr other ↦ (inl (rw other refl), inl refl)
]

-- A directory that is created at a path where none was.
add_dir-DirKept :
    (dir path : FilePath) (d : Disk)
    → d.is_dir path ≡ false
    → LeadsTo dir path
    → (q : FilePath) → DirKept dir d (add_dir path d) q
add_dir-DirKept dir path d absent leads q = elim (Bool-cases (eq_bytes q path)) [
  | inl here ↦ let same = eq_bytes→eq q path here in inr (rw same absent, rw same leads)
  | inr other ↦ inl (rw other refl)
]

create_dirs-DirKept :
    (dir : FilePath) (l : List FilePath) (d : Disk)
    → All (LeadsTo dir) l
    → (q : FilePath) → DirKept dir d (create_dirs l d).0 q
unfolding create_dirs
create_dirs-DirKept dir [] d leads q = inl refl
create_dirs-DirKept dir (path ∷ l) d (here, leads) q =
    let rest = create_dirs-DirKept dir l (if d.is_dir path then d else add_dir path d) leads q in
    elim (Bool-cases (d.is_dir path)) [
      | inl there ↦ rw there (rw there at rest)
      | inr missing ↦
          let added =
            DirKept-trans dir d (add_dir path d) (create_dirs l (add_dir path d)).0 q
              (add_dir-DirKept dir path d missing here q) (rw missing at rest) in
          elim (Bool-cases (is_some (d.file path))) [
            | inl taken ↦ rw (missing, taken) (inl refl)
            | inr free ↦ elim (Option-cases (d.refuses path)) [
              | inl allowed ↦ rw (missing, free, allowed, missing) added
              | inr (e, refused) ↦ rw (missing, free, refused) (inl refl)
            ]
          ]
    ]

ancestors_from-LeadsTo :
    (dir done p : FilePath) → dir ≡ done ++ p → All (LeadsTo dir) (ancestors_from done p)
ancestors_from-LeadsTo dir done [] e = (([], e), tt)
ancestors_from-LeadsTo dir done (b ∷ p) e =
    let rest =
      ancestors_from-LeadsTo dir (done ++ (b ∷ [])) p (e ∙ sym (append_assoc done (b ∷ []) p)) in
    elim (Bool-cases (b == slash && not (is_empty done))) [
      | inl split ↦ rw split ((b ∷ p, e), rest)
      | inr inside ↦ rw inside rest
    ]

pub create_dir_all-file :
    (path : FilePath) (p : Process) → (create_dir_all path p).0.disk.file ≡ p.disk.file
unfolding create_dir_all
create_dir_all-file [] p = refl
create_dir_all-file (b ∷ path) p = create_dirs-file (ancestors_from [] (b ∷ path)) p.disk

pub create_dir_all-OnlyAdds :
    (dir path : FilePath) (p : Process) → OnlyAdds dir path p.disk (create_dir_all dir p).0.disk
unfolding create_dir_all
create_dir_all-OnlyAdds [] path p q = (inl refl, inl refl)
create_dir_all-OnlyAdds (b ∷ dir) path p q = (
  inl (ap (λ f. f q) (create_dir_all-file (b ∷ dir) p)),
  create_dirs-DirKept (b ∷ dir) (ancestors_from [] (b ∷ dir)) p.disk
      (ancestors_from-LeadsTo (b ∷ dir) [] (b ∷ dir) refl) q,
)
