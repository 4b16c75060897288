-- ===== src/Commands/Made.antt =====
-- What `setupDirectories` (setup.go) leaves on the disk.
use materia.Base.{
  String, ◌≡◌, refl, sym, ap, subst, ◌∙◌, false, Option, none, some, List, [], ◌∷◌, arith, inl, inr,
  ◌==◌, eq_refl, Bool-cases, join_path, clean_path, dir_name,
}
use materia.Errors.{Error, Result, ok, err, ◌>>=◌, ◌>>◌}
use materia.Deps.{assoc_get, assoc_put, assoc_get-assoc_put}
use materia.Disk.{
  Node, dir, file, Disk, DiskM, stat, stat_entry, not_found, create, mkdir, mkdir_at, stored,
  must_be_dir, under_file,
}
use materia.Disk.Steps.{next, next-ok}
use materia.Repository.Installed.{create-ok}
use materia.Engine.Settings.{Paths}
use materia.Commands.Directories.{
  is_exist, accepted, missing_dir, ensure_dir, mkdir_below, mkdir_all, mkdir_once, mkdir_all_once,
  setup_directories,
}

-- a path has an entry
abbrev pub There : String → Disk → Type 0
There q d = (n : Node) × (assoc_get q d ≡ some n)

-- what is there stays
abbrev pub Grows : Disk → Disk → Type 0
Grows d d' = (q : String) → There q d → There q d'

put-There : (q p : String) (n : Node) (d : Disk) → There q d → There q (assoc_put p n d)
put-There q p n d (m, h) = elim (Bool-cases (p == q)) [
  | inl e ↦ (n, assoc_get-assoc_put q p n d ∙ rw e refl)
  | inr e ↦ (m, assoc_get-assoc_put q p n d ∙ rw e h)
]

stored-Grows :
    (d : Disk) (r : Result Disk) → ((e : Disk) → r ≡ ok e → Grows d e) → Grows d (stored d r).0
stored-Grows d (ok e) h = h e refl
stored-Grows d (err why) h = λ q t. t

create-Grows : (p : String) (n : Node) (d e : Disk) → create p n d ≡ ok e → Grows d e
create-Grows p n d e h q t = rw (create-ok p n d e h) (put-There q p n d t)

mkdir_at-Grows : (o : Option Node) (p : String) (d e : Disk) → mkdir_at o p d ≡ ok e → Grows d e
unfolding mkdir_at
mkdir_at-Grows none p d e h = create-Grows p dir d e h
mkdir_at-Grows (some n) p d e h = absurd (ground arith)

mkdir-Grows : (p : String) (d : Disk) → Grows d (mkdir p d).0
unfolding mkdir
mkdir-Grows p d = stored-Grows d (mkdir_at (assoc_get p d) p d) (mkdir_at-Grows (assoc_get p d) p d)

next-Grows :
    {A B : Type 0} (d : Disk) (m : Disk × Result A) (k : A → DiskM B)
    → Grows d m.0
    → ((a : A) (e : Disk) → Grows e (k a e).0)
    → Grows d (next m k).0
next-Grows d (d₁, ok a) k g h = λ q t. h a d₁ q (g q t)
next-Grows d (d₁, err why) k g h = g

accepted-same : (m : Disk × Result (Unit {0})) → (accepted m).0 ≡ m.0
accepted-same (d, ok u) = refl
accepted-same (d, err e) = elim (Bool-cases (is_exist e)) [ inl h ↦ rw h refl | inr h ↦ rw h refl ]

ensure-Grows : (r : Result Node) (p : String) (d : Disk) → Grows d (missing_dir r p d).0
ensure-Grows (ok dir) p d = λ q t. t
ensure-Grows (ok (file text)) p d = λ q t. t
ensure-Grows (err e) p d = mkdir-Grows p d

mkdir_below-Grows : (at : String) (ps : List String) (d : Disk) → Grows d (mkdir_below at ps d).0
unfolding mkdir_below
mkdir_below-Grows at [] d = λ q t. t
mkdir_below-Grows at (p ∷ ps) d =
    next-Grows d (ensure_dir (join_path at p) d) _ (ensure-Grows _ (join_path at p) d)
      (λ a e. mkdir_below-Grows (join_path at p) ps e)

-- a directory is only there already if it is so before
no_entry_exist :
    (o : Option Node) (q : String) (d e : Disk) (why : Error)
    → (stat_entry o q d >>= λ parent. must_be_dir parent >> ok e) ≡ err why
    → is_exist why ≡ false
unfolding stat_entry not_found
no_entry_exist (some dir) q d e why h = absurd (ground arith)
no_entry_exist (some (file text)) q d e why h = ground arith
no_entry_exist none q d e why h = elim (Bool-cases (under_file q d)) [
  | inl b ↦ ground (arith, rw b at h)
  | inr b ↦ ground (arith, rw b at h)
]

create-fails :
    (p : String) (d : Disk) (why : Error) → create p dir d ≡ err why → is_exist why ≡ false
unfolding create stat
create-fails p d why h = no_entry_exist (assoc_get (dir_name p) d) (dir_name p) d _ why h

created-There :
    (p : String) (d d' : Disk) (r : Result Disk)
    → create p dir d ≡ r
    → accepted (stored d r) ≡ (d', ok tt)
    → There p d'
created-There p d d' (ok e) c h =
    let made = create-ok p dir d e c in
    (dir, rw (sym (ap (λ x. x.0) h), made) (assoc_get-assoc_put p p dir d ∙ rw (eq_refl p) refl))
created-There p d d' (err why) c h = absurd (ground (arith, rw (create-fails p d why c) at h))

at-There :
    (o : Option Node) (p : String) (d d' : Disk)
    → assoc_get p d ≡ o
    → accepted (stored d (mkdir_at o p d)) ≡ (d', ok tt)
    → There p d'
unfolding mkdir_at
at-There none p d d' g h = created-There p d d' (create p dir d) refl h
at-There (some n) p d d' g h = (n, rw (sym (ap (λ x. x.0) h)) g)

once-There : (p : String) (d d' : Disk) → mkdir_once p d ≡ (d', ok tt) → There p d'
unfolding mkdir_once mkdir
once-There p d d' h = at-There (assoc_get p d) p d d' refl h

once-Grows : (p : String) (d : Disk) → Grows d (mkdir_once p d).0
unfolding mkdir_once
once-Grows p d = rw (accepted-same (mkdir p d)) (mkdir-Grows p d)

all_once-Grows : (p : String) (d : Disk) → Grows d (mkdir_all_once p d).0
unfolding mkdir_all_once mkdir_all
all_once-Grows p d = rw (accepted-same (mkdir_all p d)) (mkdir_below-Grows _ _ d)

step-There :
    (p : String) (d d' : Disk) (k : Unit {0} → DiskM (Unit {0}))
    → next (mkdir_once p d) k ≡ (d', ok tt)
    → There p (mkdir_once p d).0 × (k tt (mkdir_once p d).0 ≡ (d', ok tt))
step-There p d d' k h =
    let (_, made, rest) = next-ok (mkdir_once p d) k d' tt h in
    (once-There p d (mkdir_once p d).0 (ap (λ r. ((mkdir_once p d).0, r)) made), rest)

-- the directories of the settings that are made, but for those of the remote sources
pub record Prepared (p : Paths) (d : Disk) : Type 0 where
  pub materia_dir : There (clean_path p.materia_dir) d
  pub output_dir : There p.output_dir d
  pub source_dir : There p.source_dir d
  pub components : There (join_path p.materia_dir "components") d

-- If the directories are set up without an error, each of them has an entry, and what had one
-- before still has one.
pub setup_directories-Prepared :
    (p : Paths) (d d' : Disk) → setup_directories p d ≡ (d', ok tt) → Prepared p d' × Grows d d'
unfolding setup_directories
setup_directories-Prepared p d d' h =
    let (has_data, h₁) = step-There (clean_path p.materia_dir) d d' _ h in
    let d₁ = (mkdir_once (clean_path p.materia_dir) d).0 in
    let (has_output, h₂) = step-There p.output_dir d₁ d' _ h₁ in
    let d₂ = (mkdir_once p.output_dir d₁).0 in
    let (has_source, h₃) = step-There p.source_dir d₂ d' _ h₂ in
    let d₃ = (mkdir_once p.source_dir d₂).0 in
    let m₄ = mkdir_all_once (join_path p.remote_dir "components") d₃ in
    let (_, _, h₄) = next-ok m₄ _ d' tt h₃ in
    let inner = join_path p.materia_dir "components" in
    let g₅ : Grows m₄.0 d' = subst (Grows m₄.0) (ap (λ x. x.0) h₄) (once-Grows inner m₄.0) in
    let g₄ : Grows d₃ d' =
      λ q t. g₅ q (all_once-Grows (join_path p.remote_dir "components") d₃ q t) in
    let g₃ : Grows d₂ d' = λ q t. g₄ q (once-Grows p.source_dir d₂ q t) in
    let g₂ : Grows d₁ d' = λ q t. g₃ q (once-Grows p.output_dir d₁ q t) in
    (
      record {
        materia_dir = g₂ _ has_data;
        output_dir = g₃ _ has_output;
        source_dir = g₄ _ has_source;
        components = once-There inner m₄.0 d' h₄;
      },
      λ q t. g₂ q (once-Grows (clean_path p.materia_dir) d q t),
    )
