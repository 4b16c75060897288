-- ===== src/Samples/Commands.antt =====
-- An update of the web component, and the server with it.
use materia.Base.{ℕ, ◌≡◌, ◌≢◌, refl, true, false, ◌||◌, ◌==◌, ◌+◌}
use materia.Errors.{ok}
use materia.Deps.Model.{list_deps}
use materia.Commands.{Instance, update, or_rolled_back}
use materia.Commands.Server.{
  UpdatePayload, update_hook_handler, hook_synced, hook_planned, hook_executed, hook_saved,
  background_sync,
}
use materia.Commands.Updated.{Updated, update-Updated}
use materia.Commands.Served.{rounds, update_hook_handler-authorized, background_sync-goes_on}
use materia.Samples.Engines.{web_engine, box_manifest, web-executed, engine-planned}

-- each call is counted
abbrev web_instance : Instance ℕ
web_instance = record {
  materia = web_engine box_manifest;
  sync = λ opts s. (s + 1, ok tt);
  roll_back = λ s. (s + 1, ok tt);
  notify = λ event n s. (s + 1, ok tt);
  save_plan = λ p name s. (s + 1, ok tt);
  clean_host = λ s. (s + 1, ok tt);
  clean_source = λ s. (s + 1, ok tt);
  clean_output = λ s. (s + 1, ok tt);
}

web-updated : update web_instance 1 ≡ (8, ok tt)
unfolding update or_rolled_back
web-updated = rw (engine-planned, web-executed) refl

update-Updated_example : Updated web_instance 1 8
update-Updated_example = update-Updated web_instance 1 8 web-updated

abbrev payload : UpdatePayload
payload = record { revision = "v2"; update = true; secret = "key" }

hook-changes : (update_hook_handler web_instance false "key" true (ok payload) 0).0 ≢ 0
unfolding update_hook_handler hook_synced hook_planned hook_executed hook_saved
hook-changes = rw (engine-planned, web-executed) (λ e. cc)

update_hook_handler-authorized_example :
    (p : UpdatePayload) × (ok payload ≡ ok p)
    × (true ≡ true)
    × (("key" == "" || "key" == p.secret) ≡ true)
update_hook_handler-authorized_example =
    update_hook_handler-authorized web_instance false true "key" (ok payload) 0 hook-changes

background_sync-goes_on_example :
    background_sync web_instance false 3 0 ≡ (rounds web_instance 3 0, ok tt)
background_sync-goes_on_example = background_sync-goes_on web_instance (λ event n s. refl) 3 0
