-- ===== src/Components/Combined.antt =====
-- resource.go: the quadlets that one `.quadlets` file holds (parseQuadletChunk,
-- GetResourcesFromQuadletsFile).
use Prim.Native.Char.{code}
use Prim.Native.String.{◌++◌, ◌∷◌, [], count}
use mathlib.Core.List
use materia.Base.{
  ℕ, zero, suc, ◌-◌, String, Bool, true, false, ◌&&◌, ◌||◌, Option, none, some, List, nat_eq, leb,
  if◌then◌else◌, ◌==◌, has_prefix, split_text, join_texts,
}
use materia.Errors.{Result, ok, err, ◌>>=◌, bad_filename, bad_unit_file}
use materia.Deps.{Deps}
use materia.Components.Kind.{
  ResourceType, container, volume, build, image, network, pod, kube, service, to_ext,
}
use materia.Components.Resource.{Resource, no_resource, host_object_from_unit_file}

-- strings.Split by a separator that is not empty; `skip` counts what is left of a separator
split_from : String → ℕ → String → String → List String
split_from sep skip acc [] = List.◌∷◌ acc List.[]
split_from sep (suc skip) acc (c ∷ s) = split_from sep skip acc s
split_from sep zero acc (c ∷ s) =
    let cut = List.◌∷◌ acc (split_from sep (count sep - 1) "" s) in
    let more = split_from sep zero (acc ++ (c ∷ [])) s in
    if has_prefix (c ∷ s) sep then cut else more

unfoldable pub split_by : String → String → List String
unfolding split_from
split_by s sep = split_from sep zero "" s

-- unicode.IsSpace
is_space : ℕ → Bool
is_space c =
    (leb 9 c && leb c 13)
    || nat_eq c 32
    || nat_eq c 0x85
    || nat_eq c 0xa0
    || nat_eq c 0x1680
    || (leb 0x2000 c && leb c 0x200a)
    || nat_eq c 0x2028
    || nat_eq c 0x2029
    || nat_eq c 0x202f
    || nat_eq c 0x205f
    || nat_eq c 0x3000

-- `strings.TrimSpace(line) == ""`
unfoldable pub is_blank : String → Bool
unfolding is_space
is_blank [] = true
is_blank (c ∷ s) = is_space (code c) && is_blank s

-- `name[1]`, where it is there and not empty
unfoldable pub second_part : List String → Result String
second_part (List.◌∷◌ a (List.◌∷◌ b rest)) = if b == "" then err bad_filename else ok b
second_part _ = err bad_filename

pub record Chunk : Type 0 where
  pub filename : String
  pub clean_lines : List String

-- one round of the loop of `parseQuadletChunk`: what stands before the file name is dropped
unfoldable pub read_line : Chunk → String → Result Chunk
unfolding second_part
read_line c line =
    if is_blank line
    then ok c
    else if c.filename == ""
    then (if has_prefix line "# FileName"
        then (second_part (split_text line b'=') >>= λ name. ok (record c { filename = name }))
        else ok c)
    else ok (record c { clean_lines = List.◌++◌ c.clean_lines (List.◌∷◌ line List.[]) })

unfoldable pub read_lines : Chunk → List String → Result Chunk
unfolding read_line
read_lines c List.[] = ok c
read_lines c (List.◌∷◌ line lines) = read_line c line >>= λ c'. read_lines c' lines

unfoldable pub parse_quadlet_chunk : String → Result (String × String)
unfolding read_lines
parse_quadlet_chunk text = do
  c ← read_lines (record { filename = ""; clean_lines = List.[] }) (split_text text b'\n')
  ok (c.filename, join_texts "\n" c.clean_lines)

module _ ⦃D : Deps⦄ where
  -- the last group that is there decides, and a file with none of them is a service
  unfoldable pub kind_by_groups : D.unit.UnitFile → ResourceType
  kind_by_groups u =
      if D.unit.has_group u "Kube"
      then kube
      else if D.unit.has_group u "Pod"
      then pod
      else if D.unit.has_group u "Network"
      then network
      else if D.unit.has_group u "Image"
      then image
      else if D.unit.has_group u "Build"
      then build
      else if D.unit.has_group u "Volume"
      then volume
      else if D.unit.has_group u "Container"
      then container
      else service

  or_bad_unit : Option D.unit.UnitFile → Result D.unit.UnitFile
  or_bad_unit none = err bad_unit_file
  or_bad_unit (some u) = ok u

  unfoldable pub chunk_resource : String → String → String → Result Resource
  unfolding or_bad_unit kind_by_groups
  chunk_resource parent filename content = do
    u ← or_bad_unit (D.unit.parse content)
    ending ← to_ext (kind_by_groups u)
    let res = record no_resource {
      kind = kind_by_groups u;
      content = content;
      parent = parent;
      path = filename ++ ("." ++ ending);
    }
    object ← host_object_from_unit_file res u
    ok (record res { host_object = object })

  -- a manifest in the file is passed over
  unfoldable pub chunk_resources : String → List String → List Resource → Result (List Resource)
  unfolding chunk_resource parse_quadlet_chunk
  chunk_resources parent List.[] result = ok result
  chunk_resources parent (List.◌∷◌ quadlet chunks) result =
      parse_quadlet_chunk quadlet >>= λ (filename, content). elim (filename == "MANIFEST.toml") [
        | true ↦ chunk_resources parent chunks result
        | false ↦ chunk_resource parent filename content >>= λ res.
            chunk_resources parent chunks (List.◌++◌ result (List.◌∷◌ res List.[]))
      ]

  unfoldable pub get_resources_from_quadlets_file : String → String → Result (List Resource)
  unfolding chunk_resources split_by
  get_resources_from_quadlets_file parent quadlet_data =
      chunk_resources parent (split_by quadlet_data "---\n") List.[]
