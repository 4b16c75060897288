-- ===== src/Engine/Configured.antt =====
-- The settings that `NewConfig` makes pass their validation.
use materia.Base.{
  String, Bool, true, false, ◌≡◌, ◌≢◌, refl, sym, ◌∙◌, eq_iff, ◌||◌, ◌==◌, Option, some, Bool-cases,
  inl, inr, if◌then◌else◌, join_path, clean_path, has_prefix,
}
use Prim.Native.Char.{Char}
use Prim.Native.String.append
use Prim.Native.String.{[], ◌∷◌, ◌++◌}
use materia.Errors.{Result, ok, OnOk, OnOk-bind, OnOk-ok}
use materia.Executor.Host.{ExecutorConfig}
use materia.Deps.{Deps}
use materia.Engine.Settings.{
  User, Paths, user_paths, default_paths, or_default, Koanf, MateriaConfig, new_config,
  validate_config, validate_executor, validate_rollback, paths_or, root_paths, with_directories,
  validate_each, new_rollback_config, vault_config,
}

or_default-full :
    (fallback value : String) → (fallback == "") ≡ false → (or_default fallback value == "") ≡ false
unfolding or_default
or_default-full fallback value h = elim (Bool-cases (value == "")) [
  | inl e ↦ rw e h
  | inr e ↦ rw e e
]

cons_full : (c : Char) (t : String) → c ∷ t ≢ ""
cons_full c t e = cc

not_empty : (s : String) → "/" ++ s ≢ ""
not_empty s e = cons_full "/" ([] ++ s) (sym (append.cons "/" [] s) ∙ e)

rooted_full : (s : String) → (("/" ++ s) == "") ≡ false
rooted_full s = elim (Bool-cases (("/" ++ s) == "")) [
  | inl e ↦ absurd (not_empty s ((eq_iff ("/" ++ s) "").0 e))
  | inr e ↦ e
]

dot_or : (s : String) → ((if s == "" then "." else s) == "") ≡ false
dot_or s = elim (Bool-cases (s == "")) [ inl e ↦ rw e refl | inr e ↦ rw e e ]

rooted_or :
    (b : Bool) (s : String) → ((if b then "/" ++ s else if s == "" then "." else s) == "") ≡ false
rooted_or true s = rooted_full s
rooted_or false s = dot_or s

clean_path-full : (s : String) → (clean_path s == "") ≡ false
unfolding clean_path
clean_path-full s = rooted_or (has_prefix s "/") _

join_path-full : (a b : String) → (b == "") ≡ false → (join_path a b == "") ≡ false
unfolding join_path
join_path-full a b h = elim (Bool-cases (a == "")) [
  | inl e ↦ rw (e, h) (clean_path-full b)
  | inr e ↦ rw (e, h) (clean_path-full _)
]

-- none of the directories is the empty text
pub record Full (p : Paths) : Type 0 where
  pub materia : (p.materia_dir == "") ≡ false
  pub quadlet : (p.quadlet_dir == "") ≡ false
  pub service : (p.service_dir == "") ≡ false
  pub scripts : (p.scripts_dir == "") ≡ false
  pub source : (p.source_dir == "") ≡ false
  pub output : (p.output_dir == "") ≡ false

user_paths-Full :
    (home : String) (config data_home : Option String) → Full (user_paths home config data_home)
unfolding user_paths
user_paths-Full home config data_home = record {
  materia = join_path-full _ "materia" refl;
  quadlet = join_path-full _ "systemd" refl;
  service = join_path-full _ "user" refl;
  scripts = join_path-full _ "bin" refl;
  source = join_path-full _ "source" refl;
  output = join_path-full _ "output" refl;
}

root_paths-Full : Full root_paths
root_paths-Full = record {
  materia = refl;
  quadlet = refl;
  service = refl;
  scripts = refl;
  source = refl;
  output = refl;
}

default_paths-Full : (u : User) (env : String → Option String) → Full (default_paths u env)
unfolding default_paths
default_paths-Full u env = elim (Bool-cases (u.username == "root")) [
  | inl e ↦ rw e root_paths-Full
  | inr e ↦ rw e (user_paths-Full u.home_dir (env "XDG_CONFIG_HOME") (env "XDG_DATA_HOME"))
]

paths_or-Full : (p : Paths) (text : String → String) → Full p → Full (paths_or p text)
unfolding paths_or
paths_or-Full p text f = record {
  materia = or_default-full p.materia_dir (text "materia_dir") f.materia;
  quadlet = or_default-full p.quadlet_dir (text "quadlet_dir") f.quadlet;
  service = or_default-full p.service_dir (text "service_dir") f.service;
  scripts = or_default-full p.scripts_dir (text "scripts_dir") f.scripts;
  source = or_default-full p.source_dir (text "source_dir") f.source;
  output = or_default-full p.output_dir (text "output_dir") f.output;
}

validate_executor-Full :
    (p : Paths) (e : ExecutorConfig) → Full p → validate_executor (with_directories p e) ≡ ok tt
unfolding validate_executor with_directories
validate_executor-Full p e f = rw (f.materia, f.quadlet, f.scripts, f.service, f.output) refl

module _ ⦃D : Deps⦄ where
  abbrev Valid : MateriaConfig → Type 0
  Valid c = validate_config c ≡ ok tt

  validate_config-ok :
      (c : MateriaConfig) (e : ExecutorConfig)
      → Full c.paths
      → c.executor ≡ some (with_directories c.paths e)
      → validate_each validate_rollback c.rollback ≡ ok tt
      → validate_config c ≡ ok tt
  unfolding validate_config validate_each
  validate_config-ok c e f x r =
      rw (f.quadlet, f.service, f.scripts, f.source, x, validate_executor-Full c.paths e f) r

  rollback-ok :
      (kind : String)
      → (kind == "" || kind == "service") ≡ true
      → validate_each validate_rollback (new_rollback_config kind) ≡ ok tt
  unfolding validate_each validate_rollback new_rollback_config
  rollback-ok kind h = elim (Bool-cases (kind == "")) [
    | inl e ↦ rw e refl
    | inr e ↦ rw (e, rw e at h) refl
  ]

  new_config-Valid :
      (k : Koanf) (user : Result User) (env : String → Option String)
      → (k.text "rollback.kind" == "" || k.text "rollback.kind" == "service") ≡ true
      → OnOk Valid (new_config k user env)
  unfolding new_config
  new_config-Valid k user env r =
      OnOk-bind (vault_config (k.exists "age" || k.text "attributes" == "age") k.age) _ λ _ _.
        OnOk-bind (vault_config (k.exists "file" || k.text "attributes" == "file") k.file) _ λ _ _.
          OnOk-bind (vault_config (k.exists "sops" || k.text "attributes" == "sops") k.sops) _
            λ _ _. OnOk-bind k.services _ λ _ _. OnOk-bind k.planner _ λ _ _.
              OnOk-bind k.executor _ λ e _. OnOk-bind k.notify _ λ _ _. OnOk-bind user _ λ u _.
                OnOk-ok (
                  validate_config-ok _ e
                    (paths_or-Full (default_paths u env) k.text (default_paths-Full u env)) refl
                    (rollback-ok (k.text "rollback.kind") r))

  -- The settings that are made without an error, from whatever is configured, pass the validation
  -- if no rollback is configured or the kind of it is `service`: each directory that is not set
  -- gets a default that is not empty.
  pub new_config-valid :
      (k : Koanf) (user : Result User) (env : String → Option String) (c : MateriaConfig)
      → (k.text "rollback.kind" == "" || k.text "rollback.kind" == "service") ≡ true
      → new_config k user env ≡ ok c
      → validate_config c ≡ ok tt
  new_config-valid k user env c r h = (new_config-Valid k user env r).at c h
