-- ===== src/Repository/Installed.antt =====
-- What the repository of the host does with single resources: what is installed is read back, and
-- `GetResource` finds nothing.
use materia.Base.{
  String, ◌≡◌, refl, ap, Bool, true, false, ◌||◌, Option, none, some, arith, eq_refl, if◌then◌else◌,
  dir_name, ◌∙◌,
}
use materia.Errors.{Result, >>=-eq-ok, ok, err}
use materia.Deps.{Deps, assoc_get, assoc_put, assoc_get-assoc_put}
use materia.Components.Kind.{kind_eq, directory, dropin_dir, podman_secret}
use materia.Components.Resource.{Resource, filepath_of, is_quadlet, validate_resource}
use materia.Disk.{
  Node, dir, file, Disk, stat, mkdir, write_file, write_at, create, stored, read_file, must_be_dir,
}
use materia.Disk.Steps.{next-ok}
use materia.Repository.Host.{HostComponentRepository, resource_path, read_resource}
use materia.Repository.Changes.{install_resource}

pub stored-ok : (d d' : Disk) (m : Result Disk) → stored d m ≡ (d', ok tt) → m ≡ ok d'
stored-ok d d' (ok e) h = cc
stored-ok d d' (err e) h = cc

pub create-ok :
    (path : String) (n : Node) (d d' : Disk) → create path n d ≡ ok d' → d' ≡ assoc_put path n d
unfolding create
create-ok path n d d' h =
    let (parent, e, h₁) = >>=-eq-ok (stat (dir_name path) d) _ h in
    let (_, _, h₂) = >>=-eq-ok (must_be_dir parent) _ h₁ in cc

pub write_at-ok :
    (o : Option Node) (path text : String) (d d' : Disk)
    → write_at o path text d ≡ ok d'
    → d' ≡ assoc_put path (file text) d
unfolding write_at
write_at-ok none path text d d' h = create-ok path (file text) d d' h
write_at-ok (some dir) path text d d' h = cc
write_at-ok (some (file old)) path text d d' h = cc

get-write_file :
    (path text : String) (d d' : Disk)
    → write_file path text d ≡ (d', ok tt)
    → assoc_get path d' ≡ some (file text)
unfolding write_file
get-write_file path text d d' h =
    let e = write_at-ok (assoc_get path d) path text d d' (stored-ok d d' _ h) in
    rw e (assoc_get-assoc_put path path (file text) d ∙ rw (eq_refl path) refl)

first_false : (a b : Bool) → (a || b) ≡ false → a ≡ false
first_false a b h = ground arith

chosen :
    (b c : Bool) (p q text : String) (d d' : Disk)
    → c ≡ false
    → (if b then write_file p text else if c then mkdir q else write_file q text) d ≡ (d', ok tt)
    → write_file (if b then p else q) text d ≡ (d', ok tt)
chosen true c p q text d d' e h = h
chosen false false p q text d d' e h = h
chosen false true p q text d d' e h = cc

pub read-of-get :
    (path text : String) (d : Disk)
    → assoc_get path d ≡ some (file text)
    → read_file path d ≡ ok text
unfolding read_file stat
read-of-get path text d h = rw h refl

module _ ⦃D : Deps⦄ (r : HostComponentRepository) where
  install_resource-written :
      (res : Resource) (text : String) (d d' : Disk)
      → res.template ≡ false
      → (kind_eq res.kind directory || kind_eq res.kind dropin_dir) ≡ false
      → install_resource r res text d ≡ (d', ok tt)
      → write_file (resource_path r res) text d ≡ (d', ok tt)
  unfolding install_resource resource_path filepath_of
  install_resource-written res text d d' plain not_dir h =
      let (_, _, rest) = next-ok (d, validate_resource res) _ d' tt h in
      simp plain (
        chosen (is_quadlet res) (kind_eq res.kind directory) _ _ text d d' (first_false _ _ not_dir)
          rest)

  -- What is installed of a resource that is neither a directory nor a secret, and no template, is
  -- what reading it gives.
  pub install_resource-read_resource :
      (res : Resource) (text : String) (d d' : Disk)
      → res.template ≡ false
      → (kind_eq res.kind directory || kind_eq res.kind dropin_dir) ≡ false
      → kind_eq res.kind podman_secret ≡ false
      → install_resource r res text d ≡ (d', ok tt)
      → read_resource r res d' ≡ (d', ok text)
  unfolding read_resource
  install_resource-read_resource res text d d' plain not_dir not_secret h =
      let written = install_resource-written res text d d' plain not_dir h in
      rw (not_dir, not_secret)
        (ap (λ t. (d', t))
          (read-of-get (resource_path r res) text d'
            (get-write_file (resource_path r res) text d d' written)))
