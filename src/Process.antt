-- ===== src/Process.antt =====
-- What the command line and the configuration touch of the operating system: files, environment
-- variables and the standard output, as the state of a process. A path is the list of its bytes, and
-- two paths are the same place only where they are the same bytes.
pub mod Files
pub mod Actions
use ibc_attestor.Common.{
  ℕ, String, ◌<>◌, Bool, true, false, ◌&&◌, ◌||◌, not, Option, none, some, List, [], ◌∷◌, ◌++◌,
  Result, ok, err, Bytes, eq_bytes, is_empty, ◌==◌, if◌then◌else◌,
}

abbrev pub FilePath : Type 0
FilePath = List ℕ

-- b'/' and b'~'
abbrev pub slash : ℕ
slash = 47

abbrev pub tilde : ℕ
tilde = 126

abbrev pub ends_with_slash : FilePath → Bool
ends_with_slash [] = false
ends_with_slash (b ∷ []) = b == slash
ends_with_slash (b ∷ d ∷ p) = ends_with_slash (d ∷ p)

-- `Path::join` with a relative name.
abbrev pub join : FilePath → FilePath → FilePath
join [] name = name
join (b ∷ p) name = if ends_with_slash (b ∷ p) then (b ∷ p) ++ name else (b ∷ p) ++ (slash ∷ name)

-- `Path::starts_with("~/")`, which compares whole components: the first one is a tilde.
abbrev pub ends_component : FilePath → Bool
ends_component [] = true
ends_component (b ∷ p) = b == slash

abbrev pub starts_with_home : FilePath → Bool
starts_with_home [] = false
starts_with_home (b ∷ p) = b == tilde && ends_component p

-- `str::replace('~', home)`
abbrev pub replace_tilde : FilePath → FilePath → FilePath
replace_tilde home [] = []
replace_tilde home (b ∷ p) =
    let rest = replace_tilde home p in if b == tilde then home ++ rest else b ∷ rest

-- The disk: what stands at each path, and the error with which the system refuses to create
-- something there, where it does.
pub record Disk : Type 0 where
  pub is_dir : FilePath → Bool
  pub file : FilePath → Option Bytes
  pub refuses : FilePath → Option String

pub record Process : Type 0 where
  pub disk : Disk
  pub env_var : String → Option FilePath
  -- what was printed, the oldest first
  pub stdout : List String

-- A call that may change the process, and fails with an error's text.
abbrev pub Action : Type 0 → Type 0
Action A = Process → Process × Result String A

infixl 5 ◌>>=◌ ◌>>◌
abbrev pub ◌>>=◌ : {A B : Type 0} → Action A → (A → Action B) → Action B
◌>>=◌ m f p = let (p', r) = m p in elim r [ ok a ↦ f a p' | err e ↦ (p', err e) ]

abbrev pub ◌>>◌ : {A B : Type 0} → Action A → Action B → Action B
m >> k = m >>= λ _. k

abbrev pub pure : {A : Type 0} → A → Action A
pure a p = (p, ok a)

-- A result that does not change the process.
abbrev pub reads : {A : Type 0} → (Process → Result String A) → Action A
reads f p = (p, f p)

abbrev pub print : String → Action (Unit {0})
print text p = (record p { stdout = p.stdout ++ (text ∷ []) }, ok tt)

abbrev pub println : String → Action (Unit {0})
println text = print (text <> "\n")

abbrev pub is_some : {A : Type 0} → Option A → Bool
is_some none = false
is_some (some a) = true

-- `Path::exists`
abbrev pub exists : Disk → FilePath → Bool
exists d path = d.is_dir path || is_some (d.file path)

abbrev pub add_dir : FilePath → Disk → Disk
add_dir path d = record d { is_dir = λ q. eq_bytes q path || d.is_dir q }

abbrev pub add_file : FilePath → Bytes → Disk → Disk
add_file path contents d = record d {
  file = λ q. if eq_bytes q path then some contents else d.file q;
}

-- The directories on the way to a path, and the path.
abbrev pub ancestors_from : FilePath → FilePath → List FilePath
ancestors_from done [] = done ∷ []
ancestors_from done (b ∷ p) =
    let rest = ancestors_from (done ++ (b ∷ [])) p in
    if b == slash && not (is_empty done) then done ∷ rest else rest

-- Each missing directory is created, until one cannot be.
unfoldable pub create_dirs : List FilePath → Disk → Disk × Result String (Unit {0})
create_dirs [] d = (d, ok tt)
create_dirs (path ∷ l) d =
    let rest = create_dirs l (if d.is_dir path then d else add_dir path d) in
    if d.is_dir path
    then rest
    else if is_some (d.file path)
    then (d, err "File exists (os error 17)")
    else elim (d.refuses path) [ none ↦ rest | some e ↦ (d, err e) ]

-- `fs::create_dir_all`
unfoldable pub create_dir_all : FilePath → Action (Unit {0})
unfolding create_dirs
create_dir_all path p =
    let (d, r) =
      if is_empty path then (p.disk, ok tt) else create_dirs (ancestors_from [] path) p.disk in
    (record p { disk = d }, r)

-- `fs::File::create` and a write of the whole contents, of a file in a directory.
unfoldable pub write_file : FilePath → FilePath → Bytes → Disk → Disk × Result String (Unit {0})
write_file dir path contents d =
    if not (d.is_dir dir)
    then (d, err "No such file or directory (os error 2)")
    else if d.is_dir path
    then (d, err "Is a directory (os error 21)")
    else elim (d.refuses path) [ none ↦ (add_file path contents d, ok tt) | some e ↦ (d, err e) ]

-- `env::var("HOME").or_else(|_| env::var("USERPROFILE"))`
abbrev pub home_of : Process → Option FilePath
home_of p = elim (p.env_var "HOME") [ some h ↦ some h | none ↦ p.env_var "USERPROFILE" ]
