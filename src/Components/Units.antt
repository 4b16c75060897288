-- ===== src/Components/Units.antt =====
-- The unit of a resource (`Service`, resource.go) and the unit of a name (`PathToService`, services.go).
use materia.Base.{
  String, ◌≡◌, refl, Bool, true, false, arith, ◌==◌, eq_iff, ext, base_name, trim_suffix,
  has_suffix, contains, subst, sym, if◌then◌else◌,
}
use materia.Services.{path_to_service}
use materia.Components.Kind.{
  ResourceType, container, kube, pod, network, volume, build, image, find_resource_type,
  type_of_ext, default_type, host, dropin_dir, directory, file, app_file, combined, manifest,
  service, script, dropin, is_dropin, is_dropin_dir, unit_extensions,
}
use materia.Manifests.{component_manifest_file}
use materia.Components.Resource.{Resource, unit_of, service_of}

-- the kinds that podman's generator makes a unit for
abbrev pub has_unit : ResourceType → Bool
has_unit container = true
has_unit kube = true
has_unit pod = true
has_unit network = true
has_unit volume = true
has_unit build = true
has_unit image = true
has_unit k = false

-- the extension that a kind has
abbrev unit_ext : ResourceType → String
unit_ext container = ".container"
unit_ext kube = ".kube"
unit_ext pod = ".pod"
unit_ext network = ".network"
unit_ext volume = ".volume"
unit_ext build = ".build"
unit_ext image = ".image"
unit_ext k = ""

-- an extension that fits a kind
record Fits (e : String) (k : ResourceType) : Type 0 where
  at : has_unit k ≡ true → e ≡ unit_ext k

Fits-if :
    (e : String) (b : Bool) (k l : ResourceType)
    → (b ≡ true → Fits e k)
    → (b ≡ false → Fits e l)
    → Fits e (if b then k else l)
Fits-if e true k l f g = f refl
Fits-if e false k l f g = g refl

Fits-eq : (e : String) (k : ResourceType) → (e == unit_ext k) ≡ true → Fits e k
Fits-eq e k q = record { at = λ h. (eq_iff e (unit_ext k)).0 q }

Fits-none : (e : String) (k : ResourceType) → has_unit k ≡ false → Fits e k
Fits-none e k n = record { at = λ h. absurd (ground arith) }

Fits-default_type : (path e : String) → Fits e (default_type path)
unfolding default_type
Fits-default_type path e =
    Fits-if e (path == "") _ _ (λ _. Fits-none e host refl)
      (λ _.
        Fits-if e (has_suffix path "/") _ _
          (λ _.
            Fits-if e (is_dropin_dir path) _ _ (λ _. Fits-none e dropin_dir refl)
              (λ _. Fits-none e directory refl))
          (λ _. Fits-none e file refl))

Fits-rest :
    (path e : String)
    → Fits e (
        if e == ".app"
        then app_file
        else if e == ".quadlets"
        then combined
        else if e == ".toml"
        then (if base_name path == component_manifest_file then manifest else file)
        else if contains unit_extensions e
        then service
        else if e == ".sh"
        then script
        else if e == ".conf"
        then (if is_dropin path then dropin else file)
        else default_type path)
Fits-rest path e =
    Fits-if e (e == ".app") _ _ (λ _. Fits-none e app_file refl)
      (λ _.
        Fits-if e (e == ".quadlets") _ _ (λ _. Fits-none e combined refl)
          (λ _.
            Fits-if e (e == ".toml") _ _
              (λ _.
                Fits-if e (base_name path == component_manifest_file) _ _
                  (λ _. Fits-none e manifest refl) (λ _. Fits-none e file refl))
              (λ _.
                Fits-if e (contains unit_extensions e) _ _ (λ _. Fits-none e service refl)
                  (λ _.
                    Fits-if e (e == ".sh") _ _ (λ _. Fits-none e script refl)
                      (λ _.
                        Fits-if e (e == ".conf") _ _
                          (λ _.
                            Fits-if e (is_dropin path) _ _ (λ _. Fits-none e dropin refl)
                              (λ _. Fits-none e file refl))
                          (λ _. Fits-default_type path e))))))

type_of_ext-ext : (path e : String) → Fits e (type_of_ext path e)
unfolding type_of_ext
type_of_ext-ext path e =
    Fits-if e (e == ".pod") _ _ (λ q. Fits-eq e pod q)
      (λ _.
        Fits-if e (e == ".container") _ _ (λ q. Fits-eq e container q)
          (λ _.
            Fits-if e (e == ".network") _ _ (λ q. Fits-eq e network q)
              (λ _.
                Fits-if e (e == ".volume") _ _ (λ q. Fits-eq e volume q)
                  (λ _.
                    Fits-if e (e == ".build") _ _ (λ q. Fits-eq e build q)
                      (λ _.
                        Fits-if e (e == ".image") _ _ (λ q. Fits-eq e image q)
                          (λ _.
                            Fits-if e (e == ".kube") _ _ (λ q. Fits-eq e kube q)
                              (λ _. Fits-rest path e)))))))

unit_of-path_to_service :
    (k : ResourceType) (name : String)
    → has_unit k ≡ true
    → ext name ≡ unit_ext k
    → unit_of k name name ≡ path_to_service name
unfolding unit_of path_to_service
unit_of-path_to_service container name h e = rw e refl
unit_of-path_to_service kube name h e = rw e refl
unit_of-path_to_service pod name h e = rw e refl
unit_of-path_to_service network name h e = rw e refl
unit_of-path_to_service volume name h e = rw e refl
unit_of-path_to_service build name h e = rw e refl
unit_of-path_to_service image name h e = rw e refl
unit_of-path_to_service k name h e = absurd (ground arith)

-- For a resource that lies in no directory, is no template by its path and whose kind is the one
-- found from its path, if podman's generator makes a unit for the kind, then the unit of the
-- resource is the unit of its path.
pub service_of-path_to_service :
    (r : Resource)
    → r.kind ≡ find_resource_type r.path
    → base_name r.path ≡ r.path
    → trim_suffix r.path ".gotmpl" ≡ r.path
    → has_unit r.kind ≡ true
    → service_of r ≡ path_to_service r.path
unfolding service_of find_resource_type
service_of-path_to_service r k b t h =
    rw b (unit_of-path_to_service r.kind r.path h (kind_ext (rw t at k)))
  where
    kind_ext : r.kind ≡ type_of_ext r.path (ext r.path) → ext r.path ≡ unit_ext r.kind
    kind_ext q =
        subst (λ x. ext r.path ≡ unit_ext x) (sym q)
          ((type_of_ext-ext r.path (ext r.path)).at (subst (λ x. has_unit x ≡ true) q h))
