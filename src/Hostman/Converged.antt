-- ===== src/Hostman/Converged.antt =====
-- What a step of the executor leaves on the disk of the host.
use materia.Base.{String, ◌≡◌, true, false, ◌||◌, refl, arith, ap, ◌∙◌, sym}
use materia.Errors.{Result, ok}
use materia.Deps.{Deps}
use materia.Components.Kind.{ResourceType, kind_eq, kind_code, directory, dropin_dir, podman_secret}
use materia.Components.Resource.{Resource}
use materia.Components.Component.{Component}
use materia.Actions.{Action}
use materia.Planner.Resources.{shown_content}
use materia.Planner.Updates.{Installs, Updates}
use materia.Executor.Host.{Executor, install_resource}
use materia.Executor.Table.{execute_action}
use materia.Executor.Effects.{is_plain_file, execute_action-Updates, execute_action-Installs}
use materia.Disk.{Disk}
use materia.Repository.Host.{read_resource}
use materia.Repository.Installed.{install_resource-read_resource}
use materia.Hostman.{HostManager, host_of, perform_call, beside}

pub plain_kind :
    (k : ResourceType)
    → is_plain_file k ≡ true
    → ((kind_eq k directory || kind_eq k dropin_dir) ≡ false) × (kind_eq k podman_secret ≡ false)
unfolding kind_eq kind_code
plain_kind k h = (ground arith, ground arith)

module _ ⦃D : Deps⦄ where
  pub shown-plain : (r : Resource) → is_plain_file r.kind ≡ true → shown_content r ≡ r.content
  unfolding shown_content
  shown-plain r k = rw ((plain_kind r.kind k).1) refl

  pub beside-ok :
      {W A : Type 0} (w w' : W) (m : Disk × Result A) (d' : Disk) (a : A)
      → beside w m ≡ ((d', w'), ok a)
      → m ≡ (d', ok a)
  beside-ok w w' (d, r) d' a h = cc

module _ ⦃D : Deps⦄ {W : Type 0} (h : HostManager W) (e : Executor) where
  installed :
      (res : Resource) (text : String) (d d' : Disk) (w w' : W)
      → res.template ≡ false
      → is_plain_file res.kind ≡ true
      → (host_of h).perform (install_resource res text) (d, w) ≡ ((d', w'), ok tt)
      → read_resource h.components res d' ≡ (d', ok text)
  unfolding perform_call
  installed res text d d' w w' plain k p =
      let (not_dir, not_secret) = plain_kind res.kind k in
      install_resource-read_resource h.components res text d d' plain not_dir not_secret
        (beside-ok w w' _ d' tt p)

  -- When the step that updates a resource, no template and of a kind that is a file alone, runs on
  -- a host without an error, the repository of the host reads exactly the content of the source.
  pub execute_action-update_read :
      (source : Component) (r : Resource) (a : Action) (d d' : Disk) (w w' : W)
      → Updates source r a
      → is_plain_file a.target.kind ≡ true
      → a.target.template ≡ false
      → execute_action (host_of h) e a (d, w) ≡ ((d', w'), ok tt)
      → read_resource h.components a.target d' ≡ (d', ok r.content)
  execute_action-update_read source r a d d' w w' u k plain x =
      installed a.target r.content d d' w w' plain k
        (sym (execute_action-Updates (host_of h) e source r a (d, w) u k) ∙ x)

  -- When the step that installs a resource, no template and of a kind that is a file alone, runs
  -- on a host without an error, the repository of the host reads exactly its content.
  pub execute_action-install_read :
      (comp : Component) (r : Resource) (a : Action) (d d' : Disk) (w w' : W)
      → Installs comp r a
      → is_plain_file r.kind ≡ true
      → r.template ≡ false
      → execute_action (host_of h) e a (d, w) ≡ ((d', w'), ok tt)
      → read_resource h.components r d' ≡ (d', ok r.content)
  execute_action-install_read comp r a d d' w w' u k plain x =
      installed r r.content d d' w w' plain k (
        ap (λ t. (host_of h).perform (install_resource r t) (d, w)) (sym (shown-plain r k))
        ∙ sym (execute_action-Installs (host_of h) e comp r a (d, w) u k)
        ∙ x)
