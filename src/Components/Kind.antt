-- ===== src/Components/Kind.antt =====
-- `ResourceType` of resource.go, with the value that each constant has, and the functions of
-- component.go and resource.go that depend on the type alone.
use Prim.Native.Char.{code}
use materia.Base.{
  ℕ, String, Bool, true, false, ◌&&◌, ◌||◌, List, [], ◌∷◌, ◌==◌, if◌then◌else◌, nat_eq, leb,
  trim_suffix, has_suffix, ext, base_name, dir_name, split_text, contains,
}
use materia.Errors.{Result, ok, err, no_extension}
use materia.Manifests.{component_manifest_file}

pub data ResourceType : Type 0 where
  unknown component host container volume pod network kube build image app_file : ResourceType
  combined dropin_dir dropin file manifest script directory service podman_secret : ResourceType

-- the values of the `iota` block
unfoldable pub kind_code : ResourceType → ℕ
kind_code unknown = 0
kind_code component = 1
kind_code host = 2
kind_code container = 3
kind_code volume = 4
kind_code pod = 5
kind_code network = 6
kind_code kube = 7
kind_code build = 8
kind_code image = 9
kind_code app_file = 10
kind_code combined = 11
kind_code dropin_dir = 12
kind_code dropin = 13
kind_code file = 14
kind_code manifest = 15
kind_code script = 16
kind_code directory = 17
kind_code service = 18
kind_code podman_secret = 19

unfoldable pub kind_eq : ResourceType → ResourceType → Bool
unfolding kind_code
kind_eq a b = nat_eq (kind_code a) (kind_code b)

-- `IsQuadlet` of a resource of the type
unfoldable pub kind_is_quadlet : ResourceType → Bool
kind_is_quadlet container = true
kind_is_quadlet kube = true
kind_is_quadlet volume = true
kind_is_quadlet network = true
kind_is_quadlet pod = true
kind_is_quadlet build = true
kind_is_quadlet image = true
kind_is_quadlet app_file = true
kind_is_quadlet dropin = true
kind_is_quadlet _ = false

-- `IsFile` of a resource of the type
unfoldable pub kind_is_file : ResourceType → Bool
kind_is_file container = true
kind_is_file file = true
kind_is_file kube = true
kind_is_file manifest = true
kind_is_file network = true
kind_is_file pod = true
kind_is_file image = true
kind_is_file build = true
kind_is_file script = true
kind_is_file volume = true
kind_is_file service = true
kind_is_file _ = false

unfoldable pub to_ext : ResourceType → Result String
to_ext build = ok "build"
to_ext component = ok "component"
to_ext container = ok "container"
to_ext image = ok "image"
to_ext kube = ok "kube"
to_ext manifest = ok "toml"
to_ext network = ok "network"
to_ext pod = ok "pod"
to_ext script = ok "sh"
to_ext volume = ok "volume"
to_ext app_file = ok "app"
to_ext dropin = ok "conf"
to_ext _ = err no_extension

unfoldable pub group_for_kind : ResourceType → String
group_for_kind container = "Container"
group_for_kind volume = "Volume"
group_for_kind network = "Network"
group_for_kind pod = "Pod"
group_for_kind build = "Build"
group_for_kind image = "Image"
group_for_kind kube = "Kube"
group_for_kind _ = "INVALID"

is_lower : ℕ → Bool
is_lower c = leb b'a' c && leb c b'z'

is_word : ℕ → Bool
unfolding is_lower
is_word c = is_lower c || leb b'A' c && leb c b'Z' || leb b'0' c && leb c b'9' || nat_eq c b'_'

all_lower : String → Bool
unfolding is_lower
all_lower String.[] = true
all_lower (String.◌∷◌ c s) = is_lower (code c) && all_lower s

all_word_or_dash : String → Bool
unfolding is_word
all_word_or_dash String.[] = true
all_word_or_dash (String.◌∷◌ c s) = (is_word (code c) || nat_eq (code c) b'-') && all_word_or_dash s

-- [a-z]+
lower_word : String → Bool
unfolding all_lower
lower_word s = if s == "" then false else all_lower s

-- [a-zA-Z0-9_][a-zA-Z0-9_-]*-?
unit_word : String → Bool
unfolding all_word_or_dash
unit_word String.[] = false
unit_word (String.◌∷◌ c s) = is_word (code c) && all_word_or_dash s

match_parts : List String → Bool
unfolding lower_word unit_word
match_parts (w ∷ d ∷ []) = lower_word w && d == "d"
match_parts (u ∷ w ∷ d ∷ []) = unit_word u && (lower_word w && d == "d")
match_parts _ = false

-- dropInDirRegex, `^([a-zA-Z0-9_][a-zA-Z0-9_-]*-?\.)?[a-z]+\.d$`: no class of it holds a dot, so it
-- reads the parts between dots
unfoldable pub drop_in_dir_regex : String → Bool
unfolding match_parts
drop_in_dir_regex s = match_parts (split_text s b'.')

unfoldable pub is_dropin_dir : String → Bool
is_dropin_dir path = drop_in_dir_regex path

unfoldable pub is_dropin : String → Bool
is_dropin path = if dir_name path == "." then false else drop_in_dir_regex (dir_name path)

unfoldable pub is_template : String → Bool
is_template path = has_suffix path ".gotmpl"

abbrev pub unit_extensions : List String
unit_extensions =
    ".service" ∷ ".timer" ∷ ".target" ∷ ".socket" ∷ ".path" ∷ ".mount" ∷ ".automount" ∷ ".swap"
    ∷ ".slice" ∷ ".scope" ∷ ".device" ∷ []

-- the default case of the switch, on the untrimmed name
unfoldable pub default_type : String → ResourceType
default_type path =
    if path == ""
    then host
    else if has_suffix path "/"
    then (if is_dropin_dir path then dropin_dir else directory)
    else file

unfoldable pub type_of_ext : String → String → ResourceType
unfolding default_type
type_of_ext path e =
    if e == ".pod"
    then pod
    else if e == ".container"
    then container
    else if e == ".network"
    then network
    else if e == ".volume"
    then volume
    else if e == ".build"
    then build
    else if e == ".image"
    then image
    else if e == ".kube"
    then kube
    else if e == ".app"
    then app_file
    else if e == ".quadlets"
    then combined
    else if e == ".toml"
    then (if base_name path == component_manifest_file then manifest else file)
    else if contains unit_extensions e
    then service
    else if e == ".sh"
    then script
    else if e == ".conf"
    then (if is_dropin path then dropin else file)
    else default_type path

unfoldable pub find_resource_type : String → ResourceType
unfolding type_of_ext
find_resource_type path = type_of_ext path (ext (trim_suffix path ".gotmpl"))
