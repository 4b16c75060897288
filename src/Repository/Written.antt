-- ===== src/Repository/Written.antt =====
-- The entry that `InstallResource` of the host's repository writes, and what it leaves as it was.
use materia.Base.{
  String, ◌≡◌, ◌≢◌, refl, Bool, true, false, Option, none, some, arith, sym, ◌∙◌, inl, inr, ◌==◌,
  eq_iff, eq_refl, if◌then◌else◌, join_path, Bool-cases,
}
use materia.Errors.{ok}
use materia.Deps.{Deps, assoc_get, assoc_put, assoc_get-assoc_put}
use materia.Components.Kind.{kind_eq, directory}
use materia.Components.Resource.{Resource, filepath_of, is_quadlet, validate_resource}
use materia.Disk.{Node, dir, file, Disk, mkdir, mkdir_at, write_file}
use materia.Disk.Steps.{next-ok}
use materia.Repository.Host.{HostComponentRepository, resource_path}
use materia.Repository.Changes.{install_resource}
use materia.Repository.Installed.{create-ok, stored-ok, write_at-ok}

get-other :
    (p q : String) (n : Node) (d : Disk) → p ≢ q → assoc_get p (assoc_put q n d) ≡ assoc_get p d
get-other p q n d apart = assoc_get-assoc_put p q n d ∙ elim (Bool-cases (q == p)) [
  | inl e ↦ absurd (apart (sym ((eq_iff q p).0 e)))
  | inr e ↦ rw e refl
]

mkdir_at-ok :
    (o : Option Node) (path : String) (d d' : Disk)
    → mkdir_at o path d ≡ ok d'
    → d' ≡ assoc_put path dir d
unfolding mkdir_at
mkdir_at-ok none path d d' h = create-ok path dir d d' h
mkdir_at-ok (some n) path d d' h = cc

mkdir-put : (path : String) (d d' : Disk) → mkdir path d ≡ (d', ok tt) → d' ≡ assoc_put path dir d
unfolding mkdir
mkdir-put path d d' h = mkdir_at-ok (assoc_get path d) path d d' (stored-ok d d' _ h)

write_file-put :
    (path text : String) (d d' : Disk)
    → write_file path text d ≡ (d', ok tt)
    → d' ≡ assoc_put path (file text) d
unfolding write_file
write_file-put path text d d' h = write_at-ok (assoc_get path d) path text d d' (stored-ok d d' _ h)

-- a change of the entry at one path alone, which becomes a file if so asked
pub record Puts (path text : String) (is_file : Bool) (d d' : Disk) : Type 0 where
  pub kept : (p : String) → p ≢ path → assoc_get p d' ≡ assoc_get p d
  pub put : is_file ≡ true → assoc_get path d' ≡ some (file text)

file-Puts :
    (path text : String) (b : Bool) (d d' : Disk)
    → write_file path text d ≡ (d', ok tt)
    → Puts path text b d d'
file-Puts path text b d d' h = rw (write_file-put path text d d' h) (record {
  kept = λ p apart. get-other p path (file text) d apart;
  put = λ _. assoc_get-assoc_put path path (file text) d ∙ rw (eq_refl path) refl;
})

dir-Puts :
    (path text : String) (d d' : Disk) → mkdir path d ≡ (d', ok tt) → Puts path text false d d'
dir-Puts path text d d' h =
    rw (mkdir-put path d d' h)
      (record { kept = λ p apart. get-other p path dir d apart; put = λ b. absurd (ground arith) })

chosen-Puts :
    (b c x : Bool) (p q text : String) (d d' : Disk)
    → (x ≡ true → c ≡ false)
    → (if b then write_file p text else if c then mkdir q else write_file q text) d ≡ (d', ok tt)
    → Puts (if b then p else q) text x d d'
chosen-Puts true c x p q text d d' e h = file-Puts p text x d d' h
chosen-Puts false false x p q text d d' e h = file-Puts q text x d d' h
chosen-Puts false true false p q text d d' e h = dir-Puts q text d d' h
chosen-Puts false true true p q text d d' e h = absurd (ground (arith, e refl))

module _ ⦃D : Deps⦄ (r : HostComponentRepository) where
  -- where a resource is installed
  abbrev pub destination : Resource → String
  destination res =
      if is_quadlet res
      then join_path (join_path r.quadlet_prefix res.parent) res.path
      else join_path (join_path r.data_prefix res.parent) res.path

  pub resource_path-destination :
      (res : Resource) → res.template ≡ false → resource_path r res ≡ destination res
  unfolding resource_path filepath_of
  resource_path-destination res plain = rw plain refl

  pub install_resource-Puts :
      (res : Resource) (text : String) (x : Bool) (d d' : Disk)
      → (x ≡ true → kind_eq res.kind directory ≡ false)
      → install_resource r res text d ≡ (d', ok tt)
      → Puts (destination res) text x d d'
  unfolding install_resource
  install_resource-Puts res text x d d' not_dir h =
      let (_, _, rest) = next-ok (d, validate_resource res) _ d' tt h in
      chosen-Puts (is_quadlet res) (kind_eq res.kind directory) x _ _ text d d' not_dir rest
