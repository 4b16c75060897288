-- ===== src/Components/Resource.antt =====
-- resource.go: a resource, its validation, its names and the podman object behind it.
use Prim.Native.String.{◌++◌}
use materia.Base.{
  String, Bool, false, Option, none, some, ◌==◌, if◌then◌else◌, replace_all, trim_suffix, base_name,
  ext,
}
use materia.Errors.{
  Result, ok, err, named_host_resource, unknown_resource_type, unnamed_resource,
  resource_without_parent, not_a_quadlet, bad_unit_file, invalid_resource,
}
use materia.Deps.{Deps}
use materia.Components.Kind.{
  ResourceType, container, kube, pod, network, volume, build, image, service, host, unknown,
  app_file, kind_eq, kind_is_quadlet, kind_is_file, group_for_kind,
}

pub record Resource : Type 0 where
  pub path : String
  pub host_object : String
  pub parent : String
  pub kind : ResourceType
  pub template : Bool
  pub content : String

-- Go's zero value `Resource{}`
abbrev pub no_resource : Resource
no_resource = record {
  path = "";
  host_object = "";
  parent = "";
  kind = unknown;
  template = false;
  content = "";
}

unfoldable pub validate_resource : Resource → Result (Unit {0})
unfolding kind_eq
validate_resource r =
    if kind_eq r.kind host
    then (if r.path == "" then ok tt else err named_host_resource)
    else if kind_eq r.kind unknown
    then err unknown_resource_type
    else if r.path == ""
    then err unnamed_resource
    else if r.parent == ""
    then err resource_without_parent
    else ok tt

unfoldable pub name_of : Resource → String
name_of r = if r.template then base_name (r.path ++ ".gotmpl") else base_name r.path

unfoldable pub filepath_of : Resource → String
filepath_of r = if r.template then r.path ++ ".gotmpl" else r.path

-- `Service()`: the unit that the resource runs as
unfoldable pub unit_of : ResourceType → String → String → String
unit_of container path name = replace_all name ".container" ".service"
unit_of kube path name = replace_all name ".kube" ".service"
unit_of pod path name = replace_all name ".pod" "-pod.service"
unit_of network path name = replace_all name ".network" "-network.service"
unit_of volume path name = replace_all name ".volume" "-volume.service"
unit_of build path name = replace_all name ".build" "-build.service"
unit_of image path name = replace_all name ".image" "-image.service"
unit_of service path name = path
unit_of _ path name = ""

unfoldable pub service_of : Resource → String
unfolding unit_of
service_of r = unit_of r.kind r.path (base_name r.path)

unfoldable pub is_quadlet : Resource → Bool
unfolding kind_is_quadlet
is_quadlet r = kind_is_quadlet r.kind

unfoldable pub is_file : Resource → Bool
unfolding kind_is_file
is_file r = kind_is_file r.kind

name_option : ResourceType → String
name_option container = "ContainerName"
name_option volume = "VolumeName"
name_option network = "NetworkName"
name_option pod = "PodName"
name_option build = "ImageTag"
name_option image = "ImageTag"
name_option kube = "Yaml"
name_option _ = ""

module _ ⦃D : Deps⦄ where
  image_name : Option String → Result String
  image_name none = err invalid_resource
  image_name (some name) = ok name

  host_object_named : Resource → D.unit.UnitFile → Option String → Result String
  unfolding image_name kind_eq group_for_kind
  host_object_named r unitfile (some name) = ok name
  host_object_named r unitfile none =
      if kind_eq r.kind image
      then image_name (D.unit.lookup unitfile (group_for_kind r.kind) "Image")
      else ok ("systemd-" ++ trim_suffix (base_name r.path) (ext r.path))

  unfoldable pub host_object_from_unit_file : Resource → D.unit.UnitFile → Result String
  unfolding host_object_named name_option group_for_kind
  host_object_from_unit_file r unitfile =
      host_object_named r unitfile
        (D.unit.lookup unitfile (group_for_kind r.kind) (name_option r.kind))

  parsed_host_object : Resource → Option D.unit.UnitFile → Result String
  unfolding host_object_from_unit_file
  parsed_host_object r none = err bad_unit_file
  parsed_host_object r (some unitfile) = host_object_from_unit_file r unitfile

  unfoldable pub get_host_object : Resource → String → Result String
  unfolding parsed_host_object is_quadlet kind_eq
  get_host_object r unit_data =
      if is_quadlet r
      then (if kind_eq r.kind app_file
          then ok ""
          else parsed_host_object r (D.unit.parse unit_data))
      else err not_a_quadlet
