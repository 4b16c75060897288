-- ===== src/Repository/Lookup.antt =====
-- `GetResource` of the host's repository (component.go) never gives a resource.
use materia.Base.{
  String, ◌≡◌, refl, Bool, true, false, Option, none, some, inl, inr, ◌==◌, Bool-cases, join_path,
}
use materia.Errors.{Error, Result, ok, err, no_such_resource, invalid_parent}
use materia.Deps.{Deps}
use materia.Components.Component.{Component}
use materia.Disk.{Node, Disk, stat}
use materia.Disk.Steps.{next}
use materia.Repository.Host.{
  HostComponentRepository, there, new_resource, get_resource, get_from_data, get_from_quadlets,
  data_path, quadlet_path,
}

abbrev pub Fails : {A : Type 0} → Disk → Disk × Result A → Type 0
Fails d m = (e : Error) × (m ≡ (d, err e))

there-false : (m : Result Node) → there m ≡ ok false → (e : Error) × (m ≡ err e)
unfolding there
there-false (ok n) h = cc
there-false (err e) h = (e, refl)

module _ ⦃D : Deps⦄ (r : HostComponentRepository) where
  -- a resource that is not there cannot be made
  new_resource-missing :
      (parent : Component) (path : String) (d : Disk) (e : Error)
      → stat path d ≡ err e
      → new_resource r parent path d ≡ (d, err e)
  unfolding new_resource
  new_resource-missing parent path d e h = rw h refl

  get_from_quadlets-Fails :
      (parent : Component) (path : String) (d : Disk) (found : Result Bool)
      → there (stat path d) ≡ found
      → Fails d (next (d, found) (get_from_quadlets r parent path))
  unfolding get_from_quadlets
  get_from_quadlets-Fails parent path d (ok true) h = (no_such_resource, refl)
  get_from_quadlets-Fails parent path d (ok false) h =
      let (e, missing) = there-false (stat path d) h in
      (e, new_resource-missing parent path d e missing)
  get_from_quadlets-Fails parent path d (err e) h = (e, refl)

  get_from_data-Fails :
      (parent : Component) (name : String) (d : Disk) (found : Result Bool)
      → there (stat (join_path (data_path r parent) name) d) ≡ found
      → Fails d (next (d, found) (get_from_data r parent name))
  unfolding get_from_data
  get_from_data-Fails parent name d (ok true) h =
      get_from_quadlets-Fails parent (join_path (quadlet_path r parent) name) d _ refl
  get_from_data-Fails parent name d (ok false) h =
      let (e, missing) = there-false (stat (join_path (data_path r parent) name) d) h in
      (e, new_resource-missing parent (join_path (data_path r parent) name) d e missing)
  get_from_data-Fails parent name d (err e) h = (e, refl)

  -- `GetResource` of the host's repository fails for each parent and name on each disk, and leaves
  -- the disk as it is.
  pub get_resource-Fails :
      (parent : Option Component) (name : String) (d : Disk)
      → Fails d (get_resource r parent name d)
  unfolding get_resource
  get_resource-Fails none name d = (invalid_parent, refl)
  get_resource-Fails (some parent) name d = elim (Bool-cases (name == "")) [
    | inl e ↦ rw e (invalid_parent, refl)
    | inr e ↦ rw e (get_from_data-Fails parent name d _ refl)
  ]
