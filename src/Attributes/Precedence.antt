-- ===== src/Attributes/Precedence.antt =====
-- Which source of attributes wins.
use Prim.Native.String.{◌++◌}
use materia.Base.{
  String, ◌≡◌, refl, ◌∙◌, ap, Option, none, some, List, [], ◌∷◌, arith, ◌==◌, eq_iff, Bool, true,
  false, if◌then◌else◌,
}
use materia.Errors.{Result, ok, ◌>>=◌, >>=-eq-ok}
use materia.Deps.{Deps, assoc_get, assoc_get-assoc_put}
use materia.Attributes.{
  AttributesFilter, AttributeMap, AttributeVault, add_if_missing, merge_attributes, copy_map,
  copy_found, copy_roles, extract_vault_attributes, AttributesEngine, lookup_from,
  multi_vault_lookup,
}

module _ ⦃D : Deps⦄ where
  abbrev pub or_else : Option D.Value → Option D.Value → Option D.Value
  or_else (some v) rest = some v
  or_else none rest = rest

  -- the first of a list of maps that has the key
  abbrev pub first_in : String → List (AttributeMap) → Option D.Value
  first_in k [] = none
  first_in k (m ∷ ms) = or_else (assoc_get k m) (first_in k ms)

  -- the entries of a table for some of its keys, the last key first
  abbrev or_empty : Option (AttributeMap) → AttributeMap
  or_empty none = []
  or_empty (some m) = m

  get-add_if_missing :
      (k j : String) (v : D.Value) (m : AttributeMap) (lower : Option D.Value)
      → or_else (assoc_get k (add_if_missing (assoc_get j m) j v m)) lower
        ≡ or_else (assoc_get k m) (if j == k then some v else lower)
  unfolding add_if_missing
  get-add_if_missing k j v m lower = ground (arith, eq_iff j k, assoc_get-assoc_put k j v m)

  get-merge_attributes :
      (k : String) (higher lower : AttributeMap)
      → assoc_get k (merge_attributes higher lower)
        ≡ or_else (assoc_get k higher) (assoc_get k lower)
  unfolding merge_attributes assoc_get
  get-merge_attributes k higher [] = ground arith
  get-merge_attributes k higher ((j, v) ∷ lower) =
      get-merge_attributes k (add_if_missing (assoc_get j higher) j v higher) lower
      ∙ get-add_if_missing k j v higher (assoc_get k lower)

  get-copy_map :
      (k : String) (dst src : AttributeMap)
      → assoc_get k (copy_map dst src) ≡ or_else (assoc_get k src) (assoc_get k dst)
  unfolding copy_map assoc_get
  get-copy_map k dst [] = refl
  get-copy_map k dst ((j, v) ∷ src) =
      ground (arith, assoc_get-assoc_put k j v (copy_map dst src), get-copy_map k dst src)

  -- the maps of a table under some keys, the last key first, before the given maps
  abbrev pub layers :
      List (String × AttributeMap) → List String → List AttributeMap → List AttributeMap
  layers table [] ms = ms
  layers table (j ∷ js) ms = layers table js (or_empty (assoc_get j table) ∷ ms)

  get-copy_found :
      (k : String) (results : AttributeMap) (o : Option AttributeMap)
      → assoc_get k (copy_found results o)
        ≡ or_else (assoc_get k (or_empty o)) (assoc_get k results)
  unfolding copy_found assoc_get
  get-copy_found k results none = refl
  get-copy_found k results (some m) = get-copy_map k results m

  get-copy_roles :
      (k : String) (results : AttributeMap) (table : List (String × AttributeMap))
      (js : List String) (ms : List AttributeMap)
      → assoc_get k results ≡ first_in k ms
      → assoc_get k (copy_roles results table js) ≡ first_in k (layers table js ms)
  unfolding copy_roles
  get-copy_roles k results table [] ms h = h
  get-copy_roles k results table (j ∷ js) ms h =
      get-copy_roles k (copy_found results (assoc_get j table)) table js
        (or_empty (assoc_get j table) ∷ ms)
        (get-copy_found k results (assoc_get j table)
          ∙ ap (λ o. or_else (assoc_get k (or_empty (assoc_get j table))) o) h)

  abbrev pub if_named : String → AttributeMap → List AttributeMap → List AttributeMap
  if_named key m ms = if key == "" then ms else m ∷ ms

  abbrev pub component_layers :
      AttributeVault → AttributesFilter → List AttributeMap → List AttributeMap
  component_layers vault f ms =
      if f.component == ""
      then ms
      else if_named f.instance_of
          (or_empty (assoc_get (f.component ++ ("@" ++ f.instance_of)) vault.components))
          (or_empty (assoc_get f.component vault.components) ∷ ms)

  -- the maps of a vault that a filter asks for, the one that wins first
  abbrev pub precedence : AttributeMap → AttributeVault → AttributesFilter → List AttributeMap
  precedence results vault f =
      if_named f.hostname (or_empty (assoc_get f.hostname vault.hosts))
        (component_layers vault f (layers vault.roles f.roles (vault.globals ∷ results ∷ [])))

  on_top :
      (k : String) (results : AttributeMap) (o : Option AttributeMap) (ms : List AttributeMap)
      → assoc_get k results ≡ first_in k ms
      → assoc_get k (copy_found results o) ≡ first_in k (or_empty o ∷ ms)
  on_top k results o ms h =
      get-copy_found k results o ∙ ap (λ r. or_else (assoc_get k (or_empty o)) r) h

  either_on_top :
      (k : String) (b : Bool) (r s : AttributeMap) (ms ns : List AttributeMap)
      → assoc_get k r ≡ first_in k ms
      → assoc_get k s ≡ first_in k ns
      → assoc_get k (if b then r else s) ≡ first_in k (if b then ms else ns)
  either_on_top k true r s ms ns h g = h
  either_on_top k false r s ms ns h g = g

  globals_on_top :
      (k : String) (results globals : AttributeMap)
      → assoc_get k (copy_map results globals) ≡ first_in k (globals ∷ results ∷ [])
  globals_on_top k results globals = ground (arith, get-copy_map k results globals)

  roles_on_top :
      (k : String) (results : AttributeMap) (vault : AttributeVault) (roles : List String)
      → assoc_get k (copy_roles (copy_map results vault.globals) vault.roles roles)
        ≡ first_in k (layers vault.roles roles (vault.globals ∷ results ∷ []))
  roles_on_top k results vault roles =
      get-copy_roles k (copy_map results vault.globals) vault.roles roles _
        (globals_on_top k results vault.globals)

  -- The attribute of a vault under a key is that of the host; without it, that of the instance of
  -- the component; without it, that of the component; without it, that of the last role that has
  -- one; without it, the global one; and without it, the one that was there before.
  pub extract_vault_attributes-precedence :
      (k : String) (results : AttributeMap) (vault : AttributeVault) (f : AttributesFilter)
      → assoc_get k (extract_vault_attributes results vault f)
        ≡ first_in k (precedence results vault f)
  unfolding extract_vault_attributes
  extract_vault_attributes-precedence k results vault f =
      let ruled = roles_on_top k results vault f.roles in
      let named = on_top k _ (assoc_get f.component vault.components) _ ruled in
      let instanced =
        on_top k _ (assoc_get (f.component ++ ("@" ++ f.instance_of)) vault.components)
          (or_empty (assoc_get f.component vault.components)
            ∷ layers vault.roles f.roles (vault.globals ∷ results ∷ []))
          named in
      let found =
        either_on_top k (f.component == "") _ _ _ _ ruled
          (either_on_top k (f.instance_of == "") _ _ _ _ named instanced) in
      either_on_top k (f.hostname == "") _ _ _ _ found
        (on_top k _ (assoc_get f.hostname vault.hosts) _ found)

  -- what each engine answers
  abbrev pub answers : List AttributesEngine → AttributesFilter → Result (List AttributeMap)
  answers [] f = ok []
  answers (v ∷ vaults) f = do found ← v f; rest ← answers vaults f; ok (found ∷ rest)

  lookup_from-first :
      (k : String) (results : AttributeMap) (vaults : List AttributesEngine) (f : AttributesFilter)
      (m : AttributeMap)
      → lookup_from results vaults f ≡ ok m
      → (maps : List AttributeMap) × (answers vaults f ≡ ok maps)
        × (assoc_get k m ≡ first_in k (results ∷ maps))
  unfolding lookup_from
  lookup_from-first k results [] f m h = ([], refl, ground arith)
  lookup_from-first k results (v ∷ vaults) f m h =
      let (found, e, rest) = >>=-eq-ok (v f) _ h in
      let (maps, answered, first) =
        lookup_from-first k (merge_attributes results found) vaults f m rest in
      (found ∷ maps, rw (e, answered), ground (arith, first, get-merge_attributes k results found))

  -- If the lookup over several engines succeeds, so has each of them, and the attribute under a
  -- key is that of the first engine that has one.
  pub multi_vault_lookup-first :
      (k : String) (vaults : List AttributesEngine) (f : AttributesFilter) (m : AttributeMap)
      → multi_vault_lookup vaults f ≡ ok m
      → (maps : List AttributeMap) × (answers vaults f ≡ ok maps)
        × (assoc_get k m ≡ first_in k maps)
  unfolding multi_vault_lookup assoc_get
  multi_vault_lookup-first k vaults f m h = lookup_from-first k [] vaults f m h
