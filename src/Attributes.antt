-- ===== src/Attributes.antt =====
-- internal/attributes/main.go (MergeAttributes, ExtractVaultAttributes, SortedVaultFiles),
-- internal/attributes/mem, internal/attributes/file and internal/materia/attribute_engine.go: where
-- the values of a component's templates and secrets come from. A Go map is the list of its entries;
-- as Go leaves the order of a loop over it open, the copy of a map begins at the end of the list.
-- The TOML parser and the reading of a file are parameters, and no lookup is cancelled.
pub mod Precedence
use Prim.Native.String.{◌++◌}
use mathlib.Core.List
use materia.Base.{
  String, Bool, true, false, Option, none, some, List, [], ◌∷◌, ◌==◌, if◌then◌else◌, contains,
  contains_text, base_name, not, is_empty,
}
use materia.Errors.{Result, ok, err, ◌>>=◌, no_vaults}
use materia.Deps.{Deps, assoc_get, assoc_put}

pub record AttributesFilter : Type 0 where
  pub hostname : String
  pub roles : List String
  pub component : String
  pub instance_of : String

pub record SortedFiles : Type 0 where
  pub host_files : List String
  pub role_files : List String
  pub general_files : List String

-- the file once for each role that its path contains
unfoldable pub copies_for : String → List String → List String
copies_for v [] = []
copies_for v (r ∷ roles) = if contains_text v r then v ∷ copies_for v roles else copies_for v roles

-- one round of the loop of `SortedVaultFiles`: a file of several roles is listed as often
unfoldable pub sort_vault_file : AttributesFilter → List String → SortedFiles → String → SortedFiles
sort_vault_file f general_vaults s v =
    if contains_text v f.hostname
    then record s { host_files = List.◌++◌ s.host_files (v ∷ []) }
    else if not (is_empty (copies_for v f.roles))
    then record s { role_files = List.◌++◌ s.role_files (copies_for v f.roles) }
    else if contains general_vaults (base_name v)
    then record s { general_files = List.◌++◌ s.general_files (v ∷ []) }
    else s

unfoldable pub sort_vault_files :
    AttributesFilter → List String → SortedFiles → List String → SortedFiles
sort_vault_files f general_vaults s [] = s
sort_vault_files f general_vaults s (v ∷ vs) =
    sort_vault_files f general_vaults (sort_vault_file f general_vaults s v) vs

-- general files, then those of the roles, then those of the host
unfoldable pub sorted_vault_files : AttributesFilter → List String → List String → List String
sorted_vault_files f vaultfiles general_vaults =
    let s =
      sort_vault_files f general_vaults
        (record { host_files = []; role_files = []; general_files = [] }) vaultfiles in
    List.◌++◌ s.general_files (List.◌++◌ s.role_files s.host_files)

module _ ⦃D : Deps⦄ where
  abbrev pub AttributeMap : Type 0
  AttributeMap = List (String × D.Value)

  pub record AttributeVault : Type 0 where
    pub globals : AttributeMap
    pub components : List (String × AttributeMap)
    pub hosts : List (String × AttributeMap)
    pub roles : List (String × AttributeMap)

  unfoldable pub add_if_missing : Option D.Value → String → D.Value → AttributeMap → AttributeMap
  add_if_missing (some w) k v m = m
  add_if_missing none k v m = assoc_put k v m

  unfoldable pub merge_attributes : AttributeMap → AttributeMap → AttributeMap
  merge_attributes higher [] = higher
  merge_attributes higher ((k, v) ∷ lower) =
      merge_attributes (add_if_missing (assoc_get k higher) k v higher) lower

  -- maps.Copy
  unfoldable pub copy_map : AttributeMap → AttributeMap → AttributeMap
  copy_map dst [] = dst
  copy_map dst ((k, v) ∷ src) = assoc_put k v (copy_map dst src)

  -- `if attrs, ok := …; ok { maps.Copy(results, attrs) }`
  unfoldable pub copy_found : AttributeMap → Option AttributeMap → AttributeMap
  copy_found results none = results
  copy_found results (some attrs) = copy_map results attrs

  unfoldable pub copy_roles :
      AttributeMap → List (String × AttributeMap) → List String → AttributeMap
  copy_roles results table [] = results
  copy_roles results table (role ∷ roles) =
      copy_roles (copy_found results (assoc_get role table)) table roles

  unfoldable pub extract_vault_attributes :
      AttributeMap → AttributeVault → AttributesFilter → AttributeMap
  extract_vault_attributes results vault filter =
      let ruled = copy_roles (copy_map results vault.globals) vault.roles filter.roles in
      let named = copy_found ruled (assoc_get filter.component vault.components) in
      let instanced =
        copy_found named
          (assoc_get (filter.component ++ ("@" ++ filter.instance_of)) vault.components) in
      let found =
        if filter.component == ""
        then ruled
        else if filter.instance_of == ""
        then named
        else instanced in
      if filter.hostname == ""
      then found
      else copy_found found (assoc_get filter.hostname vault.hosts)

  -- `AttributesEngine`
  abbrev pub AttributesEngine : Type 0
  AttributesEngine = AttributesFilter → Result AttributeMap

  -- mem.MemoryEngine.Lookup
  unfoldable pub memory_engine : AttributeMap → AttributesEngine
  memory_engine secrets filter = ok secrets

  pub record FileStore : Type 0 where
    pub vaultfiles : List String
    pub general_vaults : List String
    pub load_all_vaults : Bool

  -- the loop of `FileStore.Lookup`: each file is decoded into the same vault
  unfoldable pub read_vaults :
      (AttributeVault → String → Result AttributeVault)
      → AttributesFilter
      → AttributeVault
      → AttributeMap
      → List String
      → Result AttributeMap
  read_vaults decode f attrs results [] = ok results
  read_vaults decode f attrs results (v ∷ vs) = do
    attrs' ← decode attrs v
    read_vaults decode f attrs' (extract_vault_attributes results attrs' f) vs

  unfoldable pub file_store_lookup :
      (AttributeVault → String → Result AttributeVault) → FileStore → AttributesEngine
  file_store_lookup decode s f =
      read_vaults decode f (record { globals = []; components = []; hosts = []; roles = [] }) []
        (if s.load_all_vaults
          then s.vaultfiles
          else sorted_vault_files f s.vaultfiles s.general_vaults)

  unfoldable pub new_multi_vault_engine : List AttributesEngine → Result (List AttributesEngine)
  new_multi_vault_engine [] = err no_vaults
  new_multi_vault_engine (v ∷ vaults) = ok (v ∷ vaults)

  unfoldable pub lookup_from : AttributeMap → List AttributesEngine → AttributesEngine
  lookup_from results [] filter = ok results
  lookup_from results (v ∷ vaults) filter = do
    found ← v filter
    lookup_from (merge_attributes results found) vaults filter

  -- MultiVaultEngine.Lookup
  unfoldable pub multi_vault_lookup : List AttributesEngine → AttributesEngine
  multi_vault_lookup vaults filter = lookup_from [] vaults filter
